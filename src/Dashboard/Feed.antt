-- ===== src/Dashboard/Feed.antt =====
-- The actions of the store on its logs: discoveries, audit log entries, token flows, and the health
-- of the ingestion.
use mathlib.Core.List.{foldl}
use audit_guard.Prelude.{
  ℕ, ◌+◌, String, Bool, true, false, Option, none, some, List, [], ◌∷◌, take, lower, is_empty,
  truthy, ◌or_else◌, if◌then◌else◌, if_both,
}
use audit_guard.Prelude.Map
use audit_guard.Prelude.Map.{Map}
use audit_guard.Dashboard.State.{Numeric, finite, not_finite, Discovery, Entry, Patch, State}

to_finite_number : Numeric → ℕ
to_finite_number (finite n) = n
to_finite_number not_finite = 0

-- `if (item?.eventId) nextIndex[item.eventId] = true`
unfoldable pub add_key : Option String → Map (Unit {0}) → Map (Unit {0})
add_key none index = index
add_key (some id) index = Map.set id tt index

module _ {P : Type 0} where
  normalize_discovery : Discovery P → Discovery P
  unfolding to_finite_number
  normalize_discovery d =
      let risk =
        finite (to_finite_number (d.initial_risk_score or_else (d.risk_score or_else finite 0))) in
      let loc =
        finite
          (to_finite_number (d.estimated_line_count or_else (d.estimated_loc or_else finite 0))) in
      record d {
        risk_score = some risk;
        initial_risk_score = some risk;
        estimated_loc = some loc;
        estimated_line_count = some loc;
      }

  unfoldable pub add_discovery : Discovery P → State P → State P
  unfolding normalize_discovery
  add_discovery d s =
      let normalized = normalize_discovery d in
      let address_key = lower (normalized.contract_address or_else "") in
      record s {
        discoveries = take 100 (normalized ∷ s.discoveries);
        discoveries_by_address =
            if is_empty address_key
            then s.discoveries_by_address
            else Map.set address_key normalized s.discoveries_by_address;
      }

  unfoldable pub add_log_entry : Entry P → State P → State P
  add_log_entry entry s = record s { audit_log = take 200 (entry ∷ s.audit_log) }

  unfoldable pub add_id : Map (Unit {0}) → Entry P → Map (Unit {0})
  unfolding add_key
  add_id index e = add_key (truthy e.id) index

  -- The loop that builds `nextIndex` from the entries that are kept.
  unfoldable pub index_of : List (Entry P) → Map (Unit {0})
  unfolding add_id
  index_of entries = foldl add_id [] entries

  unfoldable pub drop_duplicate : State P → State P
  drop_duplicate s = record s {
    health = record s.health {
      duplicates_dropped = s.health.duplicates_dropped + 1;
      duplicate_drops = s.health.duplicate_drops + 1;
    };
  }

  unfoldable pub insert_event : Entry P → State P → State P
  insert_event entry s =
      let next_log = take 200 (entry ∷ s.audit_log) in
      record s { audit_log = next_log; event_index = index_of next_log }

  unfoldable pub upsert_event_by : Option String → Entry P → State P → State P × Bool
  upsert_event_by none entry s = (add_log_entry entry s, true)
  upsert_event_by (some id) entry s =
      if Map.has id s.event_index then (drop_duplicate s, false) else (insert_event entry s, true)

  -- The new state, and whether the entry was inserted.
  unfoldable pub upsert_event : Entry P → State P → State P × Bool
  unfolding upsert_event_by
  upsert_event entry s = upsert_event_by (truthy entry.id) entry s

  unfoldable pub add_guard_flow : Entry P → State P → State P
  add_guard_flow flow s = record s { guard_flows = take 500 (flow ∷ s.guard_flows) }

  unfoldable pub insert_flow : Entry P → State P → State P
  insert_flow flow s =
      let next_flows = take 500 (flow ∷ s.guard_flows) in
      record s { guard_flows = next_flows; flow_index = index_of next_flows }

  unfoldable pub upsert_guard_flow_by : Option String → Entry P → State P → State P × Bool
  upsert_guard_flow_by none flow s = (add_guard_flow flow s, true)
  upsert_guard_flow_by (some id) flow s =
      if Map.has id s.flow_index then (drop_duplicate s, false) else (insert_flow flow s, true)

  unfoldable pub upsert_guard_flow : Entry P → State P → State P × Bool
  unfolding upsert_guard_flow_by
  upsert_guard_flow flow s = upsert_guard_flow_by (truthy flow.id) flow s

  unfoldable pub set_ingestion_health : Patch P → State P → State P
  set_ingestion_health patch s = record s {
    health = record {
      last_hcs_seq = Map.merge s.health.last_hcs_seq (patch.last_hcs_seq or_else []);
      last_topic_seq = Map.merge s.health.last_topic_seq (patch.last_topic_seq or_else []);
      duplicates_dropped = patch.duplicates_dropped or_else s.health.duplicates_dropped;
      duplicate_drops = patch.duplicate_drops or_else s.health.duplicate_drops;
      fields = Map.merge s.health.fields patch.fields;
    };
  }

  unfoldable pub increment_stat : String → ℕ → State P → State P
  increment_stat key amount s = record s {
    stats = Map.set key ((Map.get key s.stats or_else 0) + amount) s.stats;
  }

  -- To show that a property survives an upsert, show it of the three states that an upsert makes.
  pub upsert_event_cases {ℓ} :
      (Q : State P → Type ℓ) (e : Entry P) (s : State P)
      → Q (add_log_entry e s)
      → Q (drop_duplicate s)
      → Q (insert_event e s)
      → Q (upsert_event e s).0
  unfolding upsert_event
  upsert_event_cases Q e s a b c = go (truthy e.id)
    where
      go : (o : Option String) → Q (upsert_event_by o e s).0
      go none = a
      go (some id) = if_both (λ (x : State P × Bool). Q x.0) (Map.has id s.event_index) b c

  pub upsert_guard_flow_cases {ℓ} :
      (Q : State P → Type ℓ) (f : Entry P) (s : State P)
      → Q (add_guard_flow f s)
      → Q (drop_duplicate s)
      → Q (insert_flow f s)
      → Q (upsert_guard_flow f s).0
  unfolding upsert_guard_flow
  upsert_guard_flow_cases Q f s a b c = go (truthy f.id)
    where
      go : (o : Option String) → Q (upsert_guard_flow_by o f s).0
      go none = a
      go (some id) = if_both (λ (x : State P × Bool). Q x.0) (Map.has id s.flow_index) b c
