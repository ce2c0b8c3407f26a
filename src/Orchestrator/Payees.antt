-- ===== src/Orchestrator/Payees.antt =====
-- The recipients of a settlement, by the lower case of their addresses (`settleAll` of
-- orchestrator/src/orchestrator.js).
use audit_guard.Prelude.{
  ℕ, String, ◌≡◌, refl, true, false, List, [], ◌∷◌, map, lower, ltb, member, Bool-cases, inl, inr,
  All, IsDistinct,
}
use audit_guard.Prelude.Map
use audit_guard.Prelude.Map.{Map}
use audit_guard.Orchestrator.Settlement.{
  Score, Payment, Config, positive_scores, payments_of, payment,
}
use audit_guard.Orchestrator.Shares.{IsWinner}

abbrev pub score_keys : List Score → List String
score_keys [] = []
score_keys (s ∷ ss) = lower s.recipient ∷ score_keys ss

abbrev pub payment_keys : List Payment → List String
payment_keys [] = []
payment_keys (p ∷ ps) = lower p.recipient ∷ payment_keys ps

payment_keys-map :
    (config : Config) (total : ℕ) (ss : List Score)
    → payment_keys (map (payment config total) ss) ≡ score_keys ss
unfolding payment
payment_keys-map config total [] = refl
payment_keys-map config total (s ∷ ss) = rw (payment_keys-map config total ss) refl

pub payment_keys-payments_of :
    (config : Config) (ss : List Score) → payment_keys (payments_of config ss) ≡ score_keys ss
unfolding payments_of
payment_keys-payments_of config ss = payment_keys-map config _ ss

abbrev pub AllMember : List String → List String → Type 0
AllMember winners = All (λ k. member k winners ≡ true)

module _ (winners : List String) where
  absent-positive_scores :
      (k : String) (m : Map Score)
      → Map.AllEntries (IsWinner winners) m
      → Map.has k m ≡ false
      → member k (score_keys (positive_scores m)) ≡ false
  unfolding positive_scores
  absent-positive_scores k [] h e = refl
  absent-positive_scores k ((j, s) ∷ m) h e = elim (Bool-cases (ltb 0 s.score)) [
    | inl pos ↦
        let apart = Map.absent-cons k j s m e in
        rw pos (rw h.0.0 (rw apart.0 (absent-positive_scores k m h.1 apart.1)))
    | inr zero_score ↦ rw zero_score (absent-positive_scores k m h.1 (Map.absent-cons k j s m e).1)
  ]

  pub keys-positive_scores :
      (m : Map Score)
      → Map.AllEntries (IsWinner winners) m
      → Map.IsUnique m
      → AllMember winners (score_keys (positive_scores m))
        × IsDistinct (score_keys (positive_scores m))
  unfolding positive_scores
  keys-positive_scores [] h u = (tt, tt)
  keys-positive_scores ((k, s) ∷ m) h u =
      let rest = keys-positive_scores m h.1 u.1 in
      elim (Bool-cases (ltb 0 s.score)) [
        | inl pos ↦
            rw pos (rw h.0.0 ((h.0.1, rest.0), (absent-positive_scores k m h.1 u.0, rest.1)))
        | inr zero_score ↦ rw zero_score rest
      ]
