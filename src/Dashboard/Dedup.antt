-- ===== src/Dashboard/Dedup.antt =====
-- `upsertEvent` and `upsertGuardFlow`: what arrives twice is kept once.
use mathlib.Core.List.{foldl}
use audit_guard.Prelude.{
  ℕ, zero, suc, String, ◌≡◌, refl, Bool, true, false, Option, none, some, List, [], ◌∷◌, ◌||◌,
  arith, take, any, truthy, ◌===◌, eq_refl, Bool-cases, inl, inr,
}
use audit_guard.Prelude.Map
use audit_guard.Prelude.Map.{Map, get-set, get-set_self, has}
use audit_guard.Dashboard.State.{Entry, State}
use audit_guard.Dashboard.Feed.{
  add_key, add_id, index_of, add_log_entry, drop_duplicate, insert_event, upsert_event,
  upsert_event_by, add_guard_flow, insert_flow, upsert_guard_flow, upsert_guard_flow_by,
}

abbrev pub names : String → Option String → Bool
names id none = false
names id (some j) = j === id

has-set : (id j : String) (m : Map (Unit {0})) → has id (Map.set j tt m) ≡ (j === id || has id m)
unfolding has
has-set id j m = ground (arith, get-set j id tt m)

has-add_key :
    (id : String) (o : Option String) (m : Map (Unit {0}))
    → has id (add_key o m) ≡ (names id o || has id m)
unfolding add_key
has-add_key id none m = refl
has-add_key id (some j) m = has-set id j m

module _ {P : Type 0} where
  -- The entry carries this identifier.
  abbrev pub has_id : String → Entry P → Bool
  has_id id e = names id (truthy e.id)

  has-foldl :
      (id : String) (m : Map (Unit {0})) (xs : List (Entry P))
      → has id (foldl add_id m xs) ≡ (any (has_id id) xs || has id m)
  unfolding add_id
  has-foldl id m [] = refl
  has-foldl id m (x ∷ xs) =
      ground (arith, has-foldl id (add_id m x) xs, has-add_key id (truthy x.id) m)

  -- The rebuilt index holds exactly the identifiers of the entries.
  has-index_of : (id : String) (xs : List (Entry P)) → has id (index_of xs) ≡ any (has_id id) xs
  unfolding index_of has Map.get
  has-index_of id xs = ground (arith, has-foldl id [] xs)

  -- Among the entries with an identifier, no two have the same.
  abbrev pub IsUnique : List (Entry P) → Type 0
  IsUnique [] = Unit
  IsUnique (e ∷ es) =
      ((id : String) → truthy e.id ≡ some id → any (has_id id) es ≡ false) × IsUnique es

  -- The log repeats no identifier, and the index holds every identifier of the log.
  pub record IsIndexed (log : List (Entry P)) (index : Map (Unit {0})) : Type 0 where
    pub unique : IsUnique log
    pub indexed : (id : String) → has id index ≡ false → any (has_id id) log ≡ false

  any-take :
      (test : Entry P → Bool) (n : ℕ) (xs : List (Entry P))
      → any test xs ≡ false
      → any test (take n xs) ≡ false
  any-take test zero xs h = refl
  any-take test (suc n) [] h = refl
  any-take test (suc n) (x ∷ xs) h = ground (arith, any-take test n xs)

  take-IsUnique : (n : ℕ) (xs : List (Entry P)) → IsUnique xs → IsUnique (take n xs)
  take-IsUnique zero xs h = tt
  take-IsUnique (suc n) [] h = tt
  take-IsUnique (suc n) (x ∷ xs) h =
      (λ id e. any-take (has_id id) n xs (h.0 id e), take-IsUnique n xs h.1)

  -- An entry with no identifier goes to the log alone.
  skip-IsIndexed :
      (n : ℕ) (e : Entry P) (log : List (Entry P)) (index : Map (Unit {0}))
      → truthy e.id ≡ none
      → IsIndexed log index
      → IsIndexed (take n (e ∷ log)) index
  skip-IsIndexed n e log index q h = record {
    unique = take-IsUnique n (e ∷ log) ((λ id p. ground arith), h.unique);
    indexed = λ id p. any-take (has_id id) n (e ∷ log) (ground (arith, h.indexed id));
  }

  -- A new identifier, and the index is built again from what is kept.
  insert-IsIndexed :
      (n : ℕ) (e : Entry P) (log : List (Entry P)) (index : Map (Unit {0})) (id : String)
      → truthy e.id ≡ some id
      → has id index ≡ false
      → IsIndexed log index
      → IsIndexed (take n (e ∷ log)) (index_of (take n (e ∷ log)))
  insert-IsIndexed n e log index id q new h = record {
    unique = take-IsUnique n (e ∷ log) ((λ j p. ground (arith, h.indexed id)), h.unique);
    indexed = λ j p. ground (arith, has-index_of j (take n (e ∷ log)));
  }

  event_by-IsIndexed :
      (o : Option String) (e : Entry P) (s : State P)
      → truthy e.id ≡ o
      → IsIndexed s.audit_log s.event_index
      → IsIndexed (upsert_event_by o e s).0.audit_log (upsert_event_by o e s).0.event_index
  unfolding upsert_event_by add_log_entry drop_duplicate insert_event
  event_by-IsIndexed none e s q h = skip-IsIndexed 200 e s.audit_log s.event_index q h
  event_by-IsIndexed (some id) e s q h = elim (Bool-cases (has id s.event_index)) [
    | inl old ↦ rw old h
    | inr new ↦ rw new (insert-IsIndexed 200 e s.audit_log s.event_index id q new h)
  ]

  flow_by-IsIndexed :
      (o : Option String) (e : Entry P) (s : State P)
      → truthy e.id ≡ o
      → IsIndexed s.guard_flows s.flow_index
      → IsIndexed
          (upsert_guard_flow_by o e s).0.guard_flows
          (upsert_guard_flow_by o e s).0.flow_index
  unfolding upsert_guard_flow_by add_guard_flow drop_duplicate insert_flow
  flow_by-IsIndexed none e s q h = skip-IsIndexed 500 e s.guard_flows s.flow_index q h
  flow_by-IsIndexed (some id) e s q h = elim (Bool-cases (has id s.flow_index)) [
    | inl old ↦ rw old h
    | inr new ↦ rw new (insert-IsIndexed 500 e s.guard_flows s.flow_index id q new h)
  ]

  -- The events and flows of a stream, upserted in turn.
  abbrev pub upsert_events : List (Entry P) → State P → State P
  upsert_events [] s = s
  upsert_events (e ∷ es) s = upsert_events es (upsert_event e s).0

  abbrev pub upsert_guard_flows : List (Entry P) → State P → State P
  upsert_guard_flows [] s = s
  upsert_guard_flows (f ∷ fs) s = upsert_guard_flows fs (upsert_guard_flow f s).0

  -- From an indexed log, whatever events are upserted, with repeats and with events that carry no
  -- identifier, the log never holds one identifier twice, and the index still covers the log.
  pub upsert_events-IsIndexed :
      (es : List (Entry P)) (s : State P)
      → IsIndexed s.audit_log s.event_index
      → IsIndexed (upsert_events es s).audit_log (upsert_events es s).event_index
  unfolding upsert_event
  upsert_events-IsIndexed [] s h = h
  upsert_events-IsIndexed (e ∷ es) s h =
      upsert_events-IsIndexed es (upsert_event e s).0 (event_by-IsIndexed (truthy e.id) e s refl h)

  -- The same of token flows: from an indexed list of flows, whatever flows are upserted, no flow
  -- identifier is held twice, and the index still covers the list.
  pub upsert_guard_flows-IsIndexed :
      (fs : List (Entry P)) (s : State P)
      → IsIndexed s.guard_flows s.flow_index
      → IsIndexed (upsert_guard_flows fs s).guard_flows (upsert_guard_flows fs s).flow_index
  unfolding upsert_guard_flow
  upsert_guard_flows-IsIndexed [] s h = h
  upsert_guard_flows-IsIndexed (f ∷ fs) s h =
      upsert_guard_flows-IsIndexed fs (upsert_guard_flow f s).0
        (flow_by-IsIndexed (truthy f.id) f s refl h)

  upserted :
      (e : Entry P) (s : State P) (id : String)
      → truthy e.id ≡ some id
      → has id (upsert_event e s).0.event_index ≡ true
  unfolding upsert_event insert_event drop_duplicate
  upserted e s id q = elim (Bool-cases (has id s.event_index)) [
    | inl old ↦ rw (q, upsert_event_by, old) old
    | inr new ↦
        rw (q, upsert_event_by, new)
          (ground (arith, has-index_of id (take 200 (e ∷ s.audit_log)), eq_refl id))
  ]

  known_event :
      (e : Entry P) (t : State P) (id : String)
      → truthy e.id ≡ some id
      → has id t.event_index ≡ true
      → upsert_event e t ≡ (drop_duplicate t, false)
  unfolding upsert_event
  known_event e t id q known = rw (q, upsert_event_by, known)

  -- An event with an identifier that has been upserted is refused the next time: the second
  -- upsert reports no insertion, and changes neither the log nor the index.
  pub upsert_event_twice :
      (e : Entry P) (s : State P) (id : String)
      → truthy e.id ≡ some id
      → let t = (upsert_event e s).0 in
        let (u, inserted) = upsert_event e t in
        (inserted ≡ false) × (u.audit_log ≡ t.audit_log) × (u.event_index ≡ t.event_index)
  unfolding drop_duplicate
  upsert_event_twice e s id q =
      rw (known_event e (upsert_event e s).0 id q (upserted e s id q)) (refl, refl, refl)
