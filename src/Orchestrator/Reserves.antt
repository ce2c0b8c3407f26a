-- ===== src/Orchestrator/Reserves.antt =====
-- What a top-up takes from the donors (`getTopupDonorWallets`, `ensureOrchestratorOperationalHbar` of
-- orchestrator/src/orchestrator.js).
use mathlib.Core.Path.{subst}
use mathlib.Core.Option.{some-injective}
use audit_guard.Prelude.{
  ℕ, ◌+◌, ◌-◌, ◌≤◌, String, ◌≡◌, refl, Bool, false, Option, none, some, List, [], ◌∷◌, ltb, leb,
  ◌==◌, not, arith, Bool-cases, Option-cases, inl, inr, All, max, ◌&&◌,
}
use audit_guard.Orchestrator.Donors.{
  Transfer, Transfers, stop, throw, before, spendable, amount_of, offer, send, collect, Limits,
  finish, target_of, top_up, ensure_operational,
}

abbrev pub total : List Transfer → ℕ
total [] = 0
total (t ∷ ts) = t.amount + total ts

module _ (balance_of : String → Option ℕ) (goes_through : Transfer → Bool) (reserve : ℕ) where
  -- A transfer leaves its donor the reserve.
  abbrev pub KeepsReserve : Transfer → Type 0
  KeepsReserve t = (b : ℕ) × (balance_of t.donor ≡ some b) × (t.amount + reserve ≤ b)

  -- The transfers of a loop over the donors that starts with an amount missing.
  abbrev pub IsModest : ℕ → Transfers → Type 0
  IsModest remaining ts = (total ts.sent ≤ remaining) × All KeepsReserve ts.sent

  amount_of-le :
      (remaining balance : ℕ)
      → (amount_of balance_of goes_through reserve remaining balance ≤ remaining)
        × ((amount_of balance_of goes_through reserve remaining balance == 0) ≡ false
            → amount_of balance_of goes_through reserve remaining balance + reserve ≤ balance)
  unfolding amount_of spendable
  amount_of-le remaining balance = (ground arith, λ h. ground (arith, h))

  send-IsModest :
      (rest : ℕ → Transfers) (remaining : ℕ) (d : String) (o : Option ℕ)
      → ((r : ℕ) → IsModest r (rest r))
      → ((n : ℕ)
          → o ≡ some n
          → (n ≤ remaining) × ((n == 0) ≡ false → KeepsReserve (record { donor = d; amount = n })))
      → IsModest remaining (send balance_of goes_through reserve rest remaining d o)
  unfolding send throw before
  send-IsModest rest remaining d none ih fits = (omega arith, tt)
  send-IsModest rest remaining d (some n) ih fits =
      let t : Transfer = record { donor = d; amount = n } in
      elim (Bool-cases (n == 0)) [
        | inl none_left ↦ simp none_left (ih remaining)
        | inr some_left ↦ simp some_left elim (Bool-cases (goes_through t)) [
          | inl sent ↦
              let later = ih (remaining - n) in
              let here = fits n refl in
              simp sent ((omega (arith, later.0, here.0), (here.1 some_left, later.1)))
          | inr lost ↦ simp lost (omega arith, tt)
        ]
      ]

  offer-fits :
      (remaining : ℕ) (d : String) (o : Option ℕ) (n : ℕ)
      → balance_of d ≡ o
      → offer balance_of goes_through reserve remaining o ≡ some n
      → (n ≤ remaining) × ((n == 0) ≡ false → KeepsReserve (record { donor = d; amount = n }))
  unfolding offer
  offer-fits remaining d none n here e = cc
  offer-fits remaining d (some b) n here e =
      let fits = amount_of-le remaining b in
      subst
        (λ k.
          (k ≤ remaining) × ((k == 0) ≡ false → KeepsReserve (record { donor = d; amount = k })))
        (some-injective _ n e) (fits.0, λ h. (b, here, fits.1 h))

  collect-IsModest :
      (ds : List String) (remaining : ℕ)
      → IsModest remaining (collect balance_of goes_through reserve ds remaining)
  unfolding collect stop
  collect-IsModest [] remaining = (omega arith, tt)
  collect-IsModest (d ∷ ds) remaining = elim (Bool-cases (remaining == 0)) [
    | inl done ↦ simp done (omega arith, tt)
    | inr missing ↦ simp missing (
        send-IsModest (collect balance_of goes_through reserve ds) remaining d _
          (collect-IsModest ds) (λ n e. offer-fits remaining d (balance_of d) n refl e))
  ]

finish-sent :
    (limits : Limits) (now_ms : ℕ) (balance_after : List Transfer → Option ℕ) (ts : Transfers)
    → (finish limits now_ms balance_after ts).sent ≡ ts.sent
unfolding finish
finish-sent limits now_ms balance_after ts = elim (Bool-cases ts.failed) [
  | inl failed ↦ simp failed refl
  | inr ran ↦ simp ran elim (Option-cases (balance_after ts.sent)) [
    | inl unread ↦ simp unread refl
    | inr (b, read) ↦ simp read refl
  ]
]

top_up-IsModest :
    (balance_of : String → Option ℕ) (goes_through : Transfer → Bool)
    → (balance_after : List Transfer → Option ℕ) (limits : Limits) (donors : List String)
    → (now_ms b : ℕ)
    → All
        (KeepsReserve balance_of goes_through limits.donor_reserve_wei)
        (top_up balance_of goes_through balance_after limits now_ms donors (some b)).sent
      × (b + total (top_up balance_of goes_through balance_after limits now_ms donors (some b)).sent
          ≤ max (target_of limits) b)
unfolding top_up
top_up-IsModest balance_of goes_through balance_after limits donors now_ms b =
    elim (Bool-cases (leb limits.min_wei b)) [
      | inl plenty ↦ simp plenty (tt, omega arith)
      | inr short ↦ simp short elim (Bool-cases (not limits.auto_topup)) [
        | inl manual ↦ simp manual (tt, omega arith)
        | inr automatic ↦
            let ts =
              collect balance_of goes_through limits.donor_reserve_wei donors
                (target_of limits - b) in
            let modest =
              collect-IsModest balance_of goes_through limits.donor_reserve_wei donors
                (target_of limits - b) in
            simp automatic
              (rw (finish-sent limits now_ms balance_after ts) (modest.1, omega (arith, modest.0)))
      ]
    ]

-- A top-up leaves every donor the reserve, and its transfers, with the balance before it, come to the
-- target or the minimum, whichever is more, at most, unless the balance was above that and nothing is
-- sent.
pub ensure_operational-IsModest :
    (balance_of : String → Option ℕ) (goes_through : Transfer → Bool)
    → (balance_after : List Transfer → Option ℕ) (limits : Limits) (donors : List String)
    → (last now_ms : ℕ) (force : Bool) (b : ℕ) → balance_after [] ≡ some b
    → All
        (KeepsReserve balance_of goes_through limits.donor_reserve_wei)
        (ensure_operational balance_of goes_through balance_after limits donors last now_ms
          force).sent
      × (b
            + total
                (ensure_operational balance_of goes_through balance_after limits donors last now_ms
                  force).sent
          ≤ max (target_of limits) b)
unfolding ensure_operational
ensure_operational-IsModest balance_of goes_through balance_after limits donors last now_ms force b
      e =
    elim (Bool-cases (not force && ltb (now_ms - last) limits.check_interval_ms)) [
      | inl early ↦ simp early (tt, omega arith)
      | inr due ↦
          simp due
            (rw e (top_up-IsModest balance_of goes_through balance_after limits donors now_ms b))
    ]
