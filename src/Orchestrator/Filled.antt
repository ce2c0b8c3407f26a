-- ===== src/Orchestrator/Filled.antt =====
-- What a top-up collects when every call goes through (`ensureOrchestratorOperationalHbar` of
-- orchestrator/src/orchestrator.js).
use audit_guard.Prelude.{
  ℕ, ◌+◌, ◌-◌, String, ◌≡◌, refl, Bool, true, false, Option, some, List, [], ◌∷◌, ◌==◌, arith,
  Bool-cases, inl, inr, min, ◌or_else◌,
}
use audit_guard.Orchestrator.Donors.{
  Transfer, Transfers, stop, before, spendable, amount_of, offer, send, collect,
}
use audit_guard.Orchestrator.Reserves.{total}

-- What the donors hold above the reserve.
abbrev pub capacity : (String → Option ℕ) → ℕ → List String → ℕ
capacity balance_of reserve [] = 0
capacity balance_of reserve (d ∷ ds) =
    ((balance_of d or_else 0) - reserve) + capacity balance_of reserve ds

module _ (balance_of : String → Option ℕ) (goes_through : Transfer → Bool) (reserve : ℕ)
    (reads : (d : String) → (b : ℕ) × (balance_of d ≡ some b))
    (sends : (t : Transfer) → goes_through t ≡ true) where
  abbrev pub Fills : ℕ → ℕ → Transfers → Type 0
  Fills remaining held ts = (total ts.sent ≡ min remaining held) × (ts.failed ≡ false)

  amount_of-min :
      (remaining b : ℕ)
      → amount_of balance_of goes_through reserve remaining b ≡ min remaining (b - reserve)
  unfolding amount_of spendable
  amount_of-min remaining b = ground arith

  send-Fills :
      (rest : ℕ → Transfers) (held remaining : ℕ) (d : String) (b : ℕ)
      → ((r : ℕ) → Fills r held (rest r))
      → Fills remaining ((b - reserve) + held) (
          send balance_of goes_through reserve rest remaining d
            (offer balance_of goes_through reserve remaining (some b)))
  unfolding send offer before
  send-Fills rest held remaining d b ih =
      let n = amount_of balance_of goes_through reserve remaining b in
      let least = amount_of-min remaining b in
      elim (Bool-cases (n == 0)) [
        | inl nothing ↦
            let later = ih remaining in
            simp nothing (ground (arith, later.0, least, nothing), later.1)
        | inr something ↦
            let later = ih (remaining - n) in
            let through = sends (record { donor = d; amount = n }) in
            simp something (simp through (ground (arith, later.0, least, something), later.1))
      ]

  -- If every balance can be read and every transfer goes through, the loop over the donors ends
  -- without an error and sends what is missing, or all that the donors hold above the reserve if
  -- that is less.
  pub collect-Fills :
      (ds : List String) (remaining : ℕ)
      → (total (collect balance_of goes_through reserve ds remaining).sent
          ≡ min remaining (capacity balance_of reserve ds))
        × ((collect balance_of goes_through reserve ds remaining).failed ≡ false)
  unfolding collect stop
  collect-Fills [] remaining = (omega arith, refl)
  collect-Fills (d ∷ ds) remaining = elim (Bool-cases (remaining == 0)) [
    | inl done ↦ simp done (ground (arith, done), refl)
    | inr missing ↦ simp missing (
        rw ((reads d).1) (
          send-Fills (collect balance_of goes_through reserve ds) (capacity balance_of reserve ds)
            remaining d (reads d).0 (collect-Fills ds)))
  ]
