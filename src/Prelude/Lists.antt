-- ===== src/Prelude/Lists.antt =====
-- Lists measured by native numbers, and the searches over them.
use Prim.Native.Nat.{ℕ, zero, suc, ◌+◌, ◌-◌, ◌≤◌, min}
use mathlib.Core.Path.{◌≡◌, refl}
use mathlib.Core.Bool.{Bool, false, ◌||◌}
use mathlib.Core.List.{List, [], ◌∷◌, ◌++◌, foldl, map}
use mathlib.Core.Logic.{inl, inr}
use audit_guard.Prelude.Tests.{◌===◌, if◌then◌else◌, eq_iff, Bool-cases}
use Prim.Native.String.{String}
use native.Mathlib.Omega.{arith}

module _ {ℓ} {A : Type ℓ} where
  abbrev pub length : List A → ℕ
  length [] = 0
  length (x ∷ xs) = suc (length xs)

  abbrev pub take : ℕ → List A → List A
  take zero xs = []
  take (suc n) [] = []
  take (suc n) (x ∷ xs) = x ∷ take n xs

  abbrev pub drop : ℕ → List A → List A
  drop zero xs = xs
  drop (suc n) [] = []
  drop (suc n) (x ∷ xs) = drop n xs

  -- `xs.some(test)`
  abbrev pub any : (A → Bool) → List A → Bool
  any test [] = false
  any test (x ∷ xs) = test x || any test xs

  -- `xs.filter(test)`
  abbrev pub keep : (A → Bool) → List A → List A
  keep test [] = []
  keep test (x ∷ xs) = let rest = keep test xs in if test x then x ∷ rest else rest

  -- `xs.slice(-n)` for 0 < n
  abbrev pub take_last : ℕ → List A → List A
  take_last n xs = drop (length xs - n) xs

  pub length-append : (xs ys : List A) → length (xs ++ ys) ≡ length xs + length ys
  length-append [] ys = omega arith
  length-append (x ∷ xs) ys = omega (arith, length-append xs ys)

  pub length-take : (n : ℕ) (xs : List A) → length (take n xs) ≡ min n (length xs)
  length-take zero xs = omega arith
  length-take (suc n) [] = omega arith
  length-take (suc n) (x ∷ xs) = omega (arith, length-take n xs)

  pub length-take-le : (n : ℕ) (xs : List A) → length (take n xs) ≤ n
  length-take-le n xs = omega (arith, length-take n xs)

module _ {ℓ} {A : Type ℓ} where
  length-drop : (n : ℕ) (xs : List A) → length (drop n xs) ≡ length xs - n
  length-drop zero xs = omega arith
  length-drop (suc n) [] = omega arith
  length-drop (suc n) (x ∷ xs) = omega (arith, length-drop n xs)

  pub length-take_last-le : (n : ℕ) (xs : List A) → length (take_last n xs) ≤ n
  length-take_last-le n xs = omega (arith, length-drop (length xs - n) xs)

-- A predicate of every element, by recursion.
abbrev pub All {ℓ κ} : {A : Type ℓ} → (A → Type κ) → List A → Type κ
All P [] = Unit
All P (x ∷ xs) = P x × All P xs

-- `xs.includes(s)`
abbrev pub member : String → List String → Bool
member s = any (λ t. t === s)

-- `new Set(xs)`: the first of equal texts keeps its place.
unfoldable pub set_add : List String → String → List String
set_add seen x = if member x seen then seen else seen ++ x ∷ []

unfoldable pub to_set : List String → List String
unfolding set_add
to_set xs = foldl set_add [] xs

abbrev pub IsDistinct : List String → Type 0
IsDistinct [] = Unit
IsDistinct (x ∷ xs) = (member x xs ≡ false) × IsDistinct xs

pub All-snoc {ℓ κ} :
    {A : Type ℓ} (P : A → Type κ) (x : A) (xs : List A) → All P xs → P x → All P (xs ++ x ∷ [])
All-snoc P x [] h p = (p, tt)
All-snoc P x (y ∷ xs) h p = (h.0, All-snoc P x xs h.1 p)

pub map-snoc {ℓ κ} :
    {A : Type ℓ} {B : Type κ} (f : A → B) (x : A) (xs : List A)
    → map f (xs ++ x ∷ []) ≡ map f xs ++ f x ∷ []
map-snoc f x [] = refl
map-snoc f x (y ∷ xs) = rw (map-snoc f x xs) refl

pub member-snoc :
    (s x : String) (xs : List String) → member s (xs ++ x ∷ []) ≡ (member s xs || x === s)
member-snoc s x [] = ground arith
member-snoc s x (y ∷ xs) = ground (arith, member-snoc s x xs)

pub IsDistinct-snoc :
    (x : String) (xs : List String)
    → IsDistinct xs
    → member x xs ≡ false
    → IsDistinct (xs ++ x ∷ [])
IsDistinct-snoc x [] h e = (refl, tt)
IsDistinct-snoc x (y ∷ xs) h e = (
  ground (arith, member-snoc y x xs, eq_iff x y, eq_iff y x, h.0, e),
  IsDistinct-snoc x xs h.1 (ground (arith, e)),
)

set_add-IsDistinct :
    (seen : List String) (x : String) → IsDistinct seen → IsDistinct (set_add seen x)
unfolding set_add
set_add-IsDistinct seen x h = elim (Bool-cases (member x seen)) [
  | inl old ↦ simp old h
  | inr new ↦ simp new (IsDistinct-snoc x seen h new)
]

foldl-IsDistinct : (xs seen : List String) → IsDistinct seen → IsDistinct (foldl set_add seen xs)
foldl-IsDistinct [] seen h = h
foldl-IsDistinct (x ∷ xs) seen h =
    foldl-IsDistinct xs (set_add seen x) (set_add-IsDistinct seen x h)

pub to_set-IsDistinct : (xs : List String) → IsDistinct (to_set xs)
unfolding to_set
to_set-IsDistinct xs = foldl-IsDistinct xs [] tt
