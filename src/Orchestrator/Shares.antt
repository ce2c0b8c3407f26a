-- ===== src/Orchestrator/Shares.antt =====
-- The shares of a settlement.
use mathlib.Core.List.{foldl}
use native.Mathlib.Nat.{div-mul-le_self, le_of_mul-le-mul_right, le_trans, mul-le-mul_left}
use audit_guard.Prelude.{
  ℕ, ◌+◌, ◌*◌, ◌≤◌, ◌<◌, String, ◌≡◌, refl, Bool, true, Option, none, some, List, [], ◌∷◌, map,
  lower, ◌===◌, if◌then◌else◌, member, arith, Bool-cases, Option-cases, inl, inr, ◌or_else◌, truthy,
}
use audit_guard.Prelude.Map
use audit_guard.Prelude.Map.{Map}
use audit_guard.Orchestrator.Roster.{Roster}
use audit_guard.Orchestrator.Settlement.{
  Finding, Score, Payment, finding_address, Config, score_address, score_finding,
  contributor_scores, sum_scores, or_one, payment, payments_of, add_score, new_score,
}

abbrev pub sum_base : List Payment → ℕ
sum_base [] = 0
sum_base (p ∷ ps) = p.base_payment + sum_base ps

base-le :
    (config : Config) (total : ℕ) (scores : List Score)
    → sum_base (map (payment config total) scores) * total ≤ config.total_pool * sum_scores scores
unfolding payment sum_scores
base-le config total [] = omega arith
base-le config total (s ∷ ss) =
    grind (arith, div-mul-le_self (config.total_pool * s.score) total, base-le config total ss)

sum-pos : (scores : List Score) → 0 < or_one (sum_scores scores)
unfolding or_one
sum-pos scores = ground arith

sum-le : (scores : List Score) → sum_scores scores ≤ or_one (sum_scores scores)
unfolding or_one
sum-le scores = ground arith

-- The base payments of a settlement, for any scores, add up to the pool at most.
pub sum_base-payments_of :
    (config : Config) (scores : List Score)
    → sum_base (payments_of config scores) ≤ config.total_pool
unfolding payments_of
sum_base-payments_of config scores =
    le_of_mul-le-mul_right
      (le_trans (base-le config (or_one (sum_scores scores)) scores)
        (mul-le-mul_left config.total_pool (sum-le scores)))
      (sum-pos scores)

-- What the score map holds under a key: a winner's score, by the lower case of the address.
abbrev pub IsWinner : List String → String → Score → Type 0
IsWinner winners k s = (lower s.recipient ≡ k) × (member k winners ≡ true)

module _ (winners : List String) where
  current-IsWinner :
      (k : String) (m : Map Score) (s : Score)
      → Map.AllEntries (IsWinner winners) m
      → IsWinner winners k s
      → IsWinner winners k (Map.get k m or_else s)
  current-IsWinner k m s h new = elim (Option-cases (Map.get k m)) [
    | inl e ↦ rw e new
    | inr (t, e) ↦ rw e (Map.get-AllEntries (IsWinner winners) k t m h e)
  ]

  score_address-IsWinner :
      (m : Map Score) (f : Finding) (o : Option String)
      → Map.AllEntries (IsWinner winners) m × Map.IsUnique m
      → Map.AllEntries (IsWinner winners) (score_address winners m f o)
        × Map.IsUnique (score_address winners m f o)
  unfolding score_address add_score new_score
  score_address-IsWinner m f none h = h
  score_address-IsWinner m f (some a) h = elim (Bool-cases (member (lower a) winners)) [
    | inl wins ↦
        let new : IsWinner winners (lower a) (new_score a f) = (refl, wins) in
        let current = current-IsWinner (lower a) m (new_score a f) h.0 new in
        rw wins (
          Map.set-AllEntries (IsWinner winners) (lower a)
              (add_score a f (Map.get (lower a) m or_else new_score a f)) m current h.0,
          Map.set-IsUnique (lower a) (add_score a f (Map.get (lower a) m or_else new_score a f)) m
              h.1,
        )
    | inr loses ↦ rw loses h
  ]

  score_finding-IsWinner :
      (is_address : String → Bool) (roster : Roster) (m : Map Score) (f : Finding)
      → Map.AllEntries (IsWinner winners) m × Map.IsUnique m
      → Map.AllEntries (IsWinner winners) (score_finding is_address roster winners m f)
        × Map.IsUnique (score_finding is_address roster winners m f)
  unfolding score_finding
  score_finding-IsWinner is_address roster m f h =
      score_address-IsWinner m f (truthy (finding_address is_address roster f)) h

  scores-IsWinner :
      (is_address : String → Bool) (roster : Roster) (fs : List Finding) (m : Map Score)
      → Map.AllEntries (IsWinner winners) m × Map.IsUnique m
      → Map.AllEntries (IsWinner winners) (foldl (score_finding is_address roster winners) m fs)
        × Map.IsUnique (foldl (score_finding is_address roster winners) m fs)
  scores-IsWinner is_address roster [] m h = h
  scores-IsWinner is_address roster (f ∷ fs) m h =
      scores-IsWinner is_address roster fs (score_finding is_address roster winners m f)
        (score_finding-IsWinner is_address roster m f h)

  -- Every score is a winner's, under the lower case of its recipient's address, and no address is
  -- scored twice.
  pub contributor_scores-IsWinner :
      (is_address : String → Bool) (roster : Roster) (fs : List Finding)
      → Map.AllEntries (IsWinner winners) (contributor_scores is_address roster winners fs)
        × Map.IsUnique (contributor_scores is_address roster winners fs)
  unfolding contributor_scores
  contributor_scores-IsWinner is_address roster fs =
      scores-IsWinner is_address roster fs [] (tt, tt)

-- The sum of the scores of a map.
abbrev pub total_score : Map Score → ℕ
total_score [] = 0
total_score ((k, s) ∷ m) = s.score + total_score m

abbrev pub delta : Finding → ℕ
delta f = (f.findings_count or_else 0) + 2 * (f.critical_count or_else 0)

-- What a finding with an address adds.
abbrev pub counted : List String → Finding → Option String → ℕ
counted winners f none = 0
counted winners f (some a) = if member (lower a) winners then delta f else 0

module _ (is_address : String → Bool) (roster : Roster) (winners : List String) where
  abbrev pub sum_counted : List Finding → ℕ
  sum_counted [] = 0
  sum_counted (f ∷ fs) =
      counted winners f (truthy (finding_address is_address roster f)) + sum_counted fs

abbrev score_at : Option Score → ℕ
score_at none = 0
score_at (some s) = s.score

total-set :
    (k : String) (v : Score) (m : Map Score)
    → total_score (Map.set k v m) + score_at (Map.get k m) ≡ total_score m + v.score
unfolding Map.set Map.get
total-set k v [] = omega arith
total-set k v ((j, s) ∷ m) = elim (Bool-cases (j === k)) [
  | inl same ↦ rw same (omega arith)
  | inr other ↦ rw other (ground (arith, total-set k v m))
]

score-add_score :
    (a : String) (f : Finding) (o : Option Score)
    → (add_score a f (o or_else new_score a f)).score ≡ score_at o + delta f
unfolding add_score new_score
score-add_score a f none = omega arith
score-add_score a f (some s) = refl

total-score_address :
    (winners : List String) (m : Map Score) (f : Finding) (o : Option String)
    → total_score (score_address winners m f o) ≡ total_score m + counted winners f o
unfolding score_address
total-score_address winners m f none = omega arith
total-score_address winners m f (some a) = elim (Bool-cases (member (lower a) winners)) [
  | inl wins ↦
      let v = add_score a f (Map.get (lower a) m or_else new_score a f) in
      let grows = total-set (lower a) v m in
      let adds = score-add_score a f (Map.get (lower a) m) in rw wins (omega arith)
  | inr loses ↦ rw loses (omega arith)
]

module _ (is_address : String → Bool) (roster : Roster) (winners : List String) where
  total-scores :
      (fs : List Finding) (m : Map Score)
      → total_score (foldl (score_finding is_address roster winners) m fs)
        ≡ total_score m + sum_counted is_address roster winners fs
  unfolding score_finding
  total-scores [] m = omega arith
  total-scores (f ∷ fs) m = ground (
    arith,
    total-scores fs (score_finding is_address roster winners m f),
    total-score_address winners m f (truthy (finding_address is_address roster f)),
  )

  -- The scores add up to what the findings count whose address is a winner's: the findings and
  -- twice the critical ones. Nothing is lost or counted twice.
  pub total_score-contributor_scores :
      (fs : List Finding)
      → total_score (contributor_scores is_address roster winners fs)
        ≡ sum_counted is_address roster winners fs
  unfolding contributor_scores
  total_score-contributor_scores fs = rw (total-scores fs []) (omega arith)
