-- ===== src/Orchestrator/Discovery/Once.antt =====
-- That `handleDiscovery` of orchestrator/src/orchestrator.js opens one auction for a contract within
-- the time of the deduplication.
use audit_guard.Prelude.{
  ℕ, ◌-◌, ◌+◌, ◌≤◌, ◌<◌, ◌≡◌, ◌≢◌, refl, String, Bool, true, false, Option, none, some, List, [],
  ◌∷◌, ltb, leb, ◌===◌, ◌&&◌, ◌||◌, not, ◌or_else◌, is_empty, arith, Bool-cases, inl, inr, if_both,
  ◌∙◌, lt→ltb, le→leb,
}
use audit_guard.Prelude.Map
use audit_guard.Prelude.Map.{Map}
use audit_guard.Orchestrator.Discovery.{
  Job, Payload, Config, Invalid, Admission, deduped, skipped, admitted, is_below, key_of,
  within_ttl, has_open_job, should_dedupe, mark_seen, validate, after_validation, after_dedupe,
  admit,
}

-- A discovery that comes: when, the jobs then, and its payload.
pub record Arrival : Type 0 where
  pub at : ℕ
  pub jobs : List Job
  pub payload : Payload

-- The arrivals come one after another, from a time on.
abbrev pub IsLater : ℕ → List Arrival → Type 0
IsLater t [] = Unit
IsLater t (a ∷ more) = (t ≤ a.at) × IsLater a.at more

-- None comes after a time.
abbrev pub IsBefore : ℕ → List Arrival → Type 0
IsBefore t [] = Unit
IsBefore t (a ∷ more) = (a.at ≤ t) × IsBefore t more

module _ (is_address : String → Bool) (config : Config) where
  abbrev pub admit_one : Arrival → Map ℕ → Admission × Map ℕ
  admit_one a recent = admit is_address config a.at a.jobs a.payload recent

  unfoldable pub admit_all : List Arrival → Map ℕ → Map ℕ
  admit_all [] recent = recent
  admit_all (a ∷ more) recent = admit_all more (admit_one a recent).1

  -- The key was seen at a time between two times.
  abbrev pub IsSeen : String → ℕ → ℕ → Map ℕ → Type 0
  IsSeen key from to recent = (t : ℕ) × (Map.get key recent ≡ some t) × (from ≤ t) × (t ≤ to)

  keep-IsSeen :
      (key : String) (from to now_ms : ℕ) (recent : Map ℕ)
      → to ≤ now_ms
      → IsSeen key from to recent
      → IsSeen key from now_ms recent
  keep-IsSeen key from to now_ms recent late (t, there, after, before) =
      (t, there, after, omega arith)

  module _ (key : String) (from now_ms : ℕ) (later : from ≤ now_ms) where
    set-IsSeen :
        (j : String) (recent : Map ℕ)
        → IsSeen key from now_ms recent
        → IsSeen key from now_ms (Map.set j now_ms recent)
    set-IsSeen j recent (t, there, after, before) = elim (Bool-cases (j === key)) [
      | inl same ↦ (now_ms, Map.get-set j key now_ms recent ∙ simp same refl, later, omega arith)
      | inr other ↦ (t, Map.get-set j key now_ms recent ∙ simp other there, after, before)
    ]

    mark_seen-IsSeen :
        (address : Option String) (recent : Map ℕ)
        → IsSeen key from now_ms recent
        → IsSeen key from now_ms (mark_seen is_address now_ms address recent)
    unfolding mark_seen
    mark_seen-IsSeen address recent h =
        if_both (IsSeen key from now_ms) (is_empty (key_of is_address address)) h
          (set-IsSeen (key_of is_address address) recent h)

    after_validation-IsSeen :
        (p : Payload) (recent : Map ℕ) (o : Option Invalid)
        → IsSeen key from now_ms recent
        → IsSeen key from now_ms (after_validation is_address config now_ms p recent o).1
    unfolding after_validation
    after_validation-IsSeen p recent (some e) h = h
    after_validation-IsSeen p recent none h =
        if_both (λ (r : Admission × Map ℕ). IsSeen key from now_ms r.1)
          (ltb 0 config.min_risk && is_below config.min_risk p.risk_score) h
          (mark_seen-IsSeen p.contract_address recent h)

    after_dedupe-IsSeen :
        (p : Payload) (b : Bool) (recent : Map ℕ)
        → IsSeen key from now_ms recent
        → IsSeen key from now_ms (after_dedupe is_address config now_ms p (b, recent)).1
    unfolding after_dedupe
    after_dedupe-IsSeen p true recent h = h
    after_dedupe-IsSeen p false recent h =
        after_validation-IsSeen p recent (validate is_address p) h

    should_dedupe-IsSeen :
        (jobs : List Job) (address : Option String) (recent : Map ℕ)
        → IsSeen key from now_ms recent
        → IsSeen key from now_ms (should_dedupe is_address config now_ms jobs address recent).1
    unfolding should_dedupe
    should_dedupe-IsSeen jobs address recent h =
        let k = key_of is_address address in
        if_both (λ (r : Bool × Map ℕ). IsSeen key from now_ms r.1)
          (not config.dedupe_enabled || is_empty k) h
          (if_both (λ (r : Bool × Map ℕ). IsSeen key from now_ms r.1)
            (within_ttl is_address config.dedupe_ttl_ms now_ms (Map.get k recent or_else 0)
              || has_open_job is_address now_ms (some k) jobs)
            (set-IsSeen k recent h) h)

    admit-IsSeen :
        (jobs : List Job) (p : Payload) (recent : Map ℕ)
        → IsSeen key from now_ms recent
        → IsSeen key from now_ms (admit is_address config now_ms jobs p recent).1
    unfolding admit
    admit-IsSeen jobs p recent h =
        let d = should_dedupe is_address config now_ms jobs p.contract_address recent in
        after_dedupe-IsSeen p d.0 d.1 (should_dedupe-IsSeen jobs p.contract_address recent h)

  -- Other discoveries do not make the gate forget the key.
  admit_all-IsSeen :
      (key : String) (from to last : ℕ) (more : List Arrival) (recent : Map ℕ)
      → from ≤ to
      → IsLater to more
      → IsBefore last more
      → to ≤ last
      → IsSeen key from to recent
      → IsSeen key from last (admit_all more recent)
  unfolding admit_all
  admit_all-IsSeen key from to last [] recent f later before le h =
      keep-IsSeen key from to last recent le h
  admit_all-IsSeen key from to last (a ∷ more) recent f later before le h =
      let f' : from ≤ a.at = omega (arith, later.0) in
      admit_all-IsSeen key from a.at last more (admit_one a recent).1 f' later.1 before.1 before.0 (
        admit-IsSeen key from a.at f' a.jobs a.payload recent
          (keep-IsSeen key from to a.at recent later.0 h))

  -- What was seen within the time is not admitted.
  seen-deduped :
      (key : String) (from now_ms : ℕ) (jobs : List Job) (p : Payload) (recent : Map ℕ)
      → config.dedupe_enabled ≡ true
      → is_empty key ≡ false
      → key_of is_address p.contract_address ≡ key
      → 0 < from
      → now_ms ≤ from + config.dedupe_ttl_ms
      → IsSeen key from now_ms recent
      → (admit is_address config now_ms jobs p recent).0 ≡ deduped
  unfolding admit should_dedupe within_ttl after_dedupe
  seen-deduped key from now_ms jobs p recent on full same pos soon (t, there, after, before) =
      let positive : ltb 0 t ≡ true = lt→ltb 0 t (omega arith) in
      let within : leb (now_ms - t) config.dedupe_ttl_ms ≡ true = le→leb _ _ (omega arith) in
      simp (on, same, full, there, positive, within) refl

  validated-IsSeen :
      (now_ms : ℕ) (p : Payload) (recent : Map ℕ) (o : Option Invalid)
      → is_empty (key_of is_address p.contract_address) ≡ false
      → (after_validation is_address config now_ms p recent o).0 ≡ admitted
      → IsSeen
          (key_of is_address p.contract_address)
          now_ms
          now_ms
          (after_validation is_address config now_ms p recent o).1
  unfolding after_validation mark_seen
  validated-IsSeen now_ms p recent (some e) full h = cc
  validated-IsSeen now_ms p recent none full h =
      elim (Bool-cases (ltb 0 config.min_risk && is_below config.min_risk p.risk_score)) [
        | inl low ↦ absurd (skipped≢admitted (rw low at h))
        | inr high ↦
            simp (high, full)
              (
                now_ms,
                Map.get-set_self (key_of is_address p.contract_address) now_ms recent,
                omega arith,
                omega arith,
              )
      ]
    where
      skipped≢admitted : skipped ≢ admitted
      skipped≢admitted e = cc

  admitted-IsSeen :
      (now_ms : ℕ) (p : Payload) (b : Bool) (recent : Map ℕ)
      → is_empty (key_of is_address p.contract_address) ≡ false
      → (after_dedupe is_address config now_ms p (b, recent)).0 ≡ admitted
      → IsSeen
          (key_of is_address p.contract_address)
          now_ms
          now_ms
          (after_dedupe is_address config now_ms p (b, recent)).1
  unfolding after_dedupe
  admitted-IsSeen now_ms p true recent full h = cc
  admitted-IsSeen now_ms p false recent full h =
      validated-IsSeen now_ms p recent (validate is_address p) full h

  admitted_first :
      (a : Arrival) (recent : Map ℕ)
      → is_empty (key_of is_address a.payload.contract_address) ≡ false
      → (admit_one a recent).0 ≡ admitted
      → IsSeen (key_of is_address a.payload.contract_address) a.at a.at (admit_one a recent).1
  unfolding admit
  admitted_first a recent full h =
      let d = should_dedupe is_address config a.at a.jobs a.payload.contract_address recent in
      admitted-IsSeen a.at a.payload d.0 d.1 full h

  -- With the deduplication on, after a discovery that is admitted, and whatever discoveries come in
  -- between, with whatever jobs, a discovery of the same address (in whatever case) is deduplicated
  -- as long as it comes within the time to live of the first.
  pub admit-admit_all :
      (first last : Arrival) (more : List Arrival) (recent : Map ℕ)
      → config.dedupe_enabled ≡ true
      → is_empty (key_of is_address first.payload.contract_address) ≡ false
      → key_of is_address last.payload.contract_address
        ≡ key_of is_address first.payload.contract_address
      → 0 < first.at
      → IsLater first.at more
      → IsBefore last.at more
      → first.at ≤ last.at
      → last.at ≤ first.at + config.dedupe_ttl_ms
      → (admit_one first recent).0 ≡ admitted
      → (admit_one last (admit_all more (admit_one first recent).1)).0 ≡ deduped
  admit-admit_all first last more recent on full same pos later before le soon h =
      let key = key_of is_address first.payload.contract_address in
      seen-deduped key first.at last.at last.jobs last.payload
        (admit_all more (admit_one first recent).1) on full same pos soon
        (admit_all-IsSeen key first.at first.at last.at more (admit_one first recent).1
          (omega arith) later before le (admitted_first first recent full h))
