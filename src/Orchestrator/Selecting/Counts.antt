-- ===== src/Orchestrator/Selecting/Counts.antt =====
-- What is counted among the steps of `selectWinnersOnChain` in orchestrator/src/orchestrator.js.
use audit_guard.Prelude.{ℕ, ◌+◌, ◌≡◌, List, [], ◌∷◌, ◌++◌, arith, All}
use audit_guard.Orchestrator.Selecting.{Step, select_winners, announce}

-- The calls of `selectWinners` and the announcements of winners among the steps.
abbrev pub call : Step → ℕ
call (select_winners is) = 1
call _ = 0

abbrev pub announcement : Step → ℕ
announcement (announce ws hash) = 1
announcement _ = 0

abbrev pub sum_of : (Step → ℕ) → List Step → ℕ
sum_of f [] = 0
sum_of f (x ∷ xs) = f x + sum_of f xs

pub sum_of-append :
    (f : Step → ℕ) (xs ys : List Step) → sum_of f (xs ++ ys) ≡ sum_of f xs + sum_of f ys
sum_of-append f [] ys = omega arith
sum_of-append f (x ∷ xs) ys = omega (arith, sum_of-append f xs ys)

-- Each call of `selectWinners` is for these indices.
abbrev pub IsCallFor : List ℕ → Step → Type 0
IsCallFor indices (select_winners is) = is ≡ indices
IsCallFor indices _ = Unit

pub All-append : (P : Step → Type 0) (xs ys : List Step) → All P xs → All P ys → All P (xs ++ ys)
All-append P [] ys h k = k
All-append P (x ∷ xs) ys h k = (h.0, All-append P xs ys h.1 k)
