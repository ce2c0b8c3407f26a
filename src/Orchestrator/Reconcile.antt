-- ===== src/Orchestrator/Reconcile.antt =====
-- `reconcileExpiredActiveAuctions` of orchestrator/src/orchestrator.js: a pass over a window of the
-- active jobs, which closes expired auctions without bids and starts the winner selection of those
-- with bids. What the chain answers for each key is an argument. A pass is taken as one piece: the
-- handlers that run while it waits are not interleaved with it.
use audit_guard.Prelude.{
  ℕ, zero, suc, ◌+◌, ◌*◌, ◌/◌, ◌%◌, String, Bool, true, false, Option, none, some, List, [], ◌∷◌,
  ◌++◌, ◌==◌, ◌||◌, ◌&&◌, if◌then◌else◌, ◌or_else◌, ltb, leb, length, min, max,
}
use audit_guard.Prelude.Map
use audit_guard.Prelude.Map.{Map}
use audit_guard.Orchestrator.Closing.{
  Job, Answers, Verdict, closed, open_still, rejected, Run, close_expired_auction,
}
use audit_guard.Orchestrator.Closing
pub mod Cases
pub mod Acts
pub mod Window
pub mod Covered
pub mod Backoff
pub mod Cooling
mod Examples

pub record Limits : Type 0 where
  pub max_inspect : ℕ
  pub max_closes : ℕ
  pub max_selects : ℕ
  pub cooldown_ms : ℕ
  pub single_flight : Bool
  pub has_cancel : Bool

pub record ChainJob : Type 0 where
  pub status : Option ℕ
  pub auction_deadline : Option ℕ

-- What a key meets: its job on the chain and its number of bids (`none` where the call throws), the
-- clock, and what closing it meets.
pub record World : Type 0 where
  pub chain_job : Option ChainJob
  pub bids : Option ℕ
  pub at : ℕ
  pub attempts : ℕ → Answers
  pub log_error : Option String
  pub under_way : Verdict

pub data Act : Type 0 where
  select : String → ℕ → Act
  close : String → Verdict → Act

pub record State : Type 0 where
  pub closing : Closing.State
  pub cooldown : Map ℕ
  pub cursor : ℕ
  pub is_running : Bool

-- The variables of the loop.
pub record Pass : Type 0 where
  pub state : State
  pub closes : ℕ
  pub selects : ℕ
  pub deferred : ℕ
  pub acts : List Act

unfoldable pub is_over : Option Job → Bool
is_over none = false
is_over (some job) = job.terminal_on_chain || job.cancelled_on_chain

unfoldable pub is_zero : Option ℕ → Bool
is_zero none = false
is_zero (some n) = n == 0

unfoldable pub is_open : ChainJob → Bool
unfolding is_zero
is_open chain = is_zero chain.status

-- The deadline is there, and it has passed.
unfoldable pub is_expired : ℕ → ChainJob → Bool
is_expired now_ms chain =
    let deadline = chain.auction_deadline or_else 0 in
    ltb 0 deadline && leb deadline (now_ms / 1000)

unfoldable pub cool : ℕ → String → Pass → Pass
cool until key p = record p {
  state = record p.state { cooldown = Map.set key until p.state.cooldown };
}

unfoldable pub uncool : String → Pass → Pass
uncool key p = record p { state = record p.state { cooldown = Map.delete key p.state.cooldown } }

unfoldable pub put_job : String → Job → Pass → Pass
put_job key job p = record p {
  state = record p.state {
    closing = record p.state.closing { jobs = Map.set key job p.state.closing.jobs };
  };
}

-- The job is no longer open on the chain.
unfoldable pub mark_skipped : String → ℕ → Option Job → Pass → Pass
unfolding put_job
mark_skipped key at none p = p
mark_skipped key at (some job) p =
    put_job key
      (record job {
        terminal_on_chain = true;
        terminal_reason = some "reconcile_skip_terminal";
        terminal_at = some at;
      })
      p

module _ (limits : Limits) (now_ms : ℕ) (world : String → World) where
  abbrev pub cooled_until : ℕ
  cooled_until = now_ms + limits.cooldown_ms

  unfoldable pub count_select : String → ℕ → Pass → Pass
  count_select key n p = record p { selects = p.selects + 1; acts = p.acts ++ select key n ∷ [] }

  unfoldable pub count_deferred : Pass → Pass
  count_deferred p = record p { deferred = p.deferred + 1 }

  unfoldable pub count_close : String → Verdict → Pass → Pass
  count_close key v p = record p { closes = p.closes + 1; acts = p.acts ++ close key v ∷ [] }

  unfoldable pub with_closing : Closing.State → Pass → Pass
  with_closing s p = record p { state = record p.state { closing = s } }

  unfoldable pub after_close : String → Verdict → Pass → Pass
  unfolding cool uncool
  after_close key closed p = uncool key p
  after_close key open_still p = cool cooled_until key p
  after_close key (rejected e) p = cool cooled_until key p

  unfoldable pub run_of : String → Pass → Run
  run_of key p =
      let w = world key in
      close_expired_auction w.under_way limits.single_flight limits.has_cancel key
        "reconcile_expired_active_job" w.attempts w.log_error p.state.closing

  unfoldable pub try_close : String → Pass → Pass
  unfolding after_close count_close with_closing run_of
  try_close key p =
      let r = run_of key p in
      after_close key r.verdict (count_close key r.verdict (with_closing r.state p))

  -- An expired auction that is open, by its number of bids.
  unfoldable pub on_bids : String → Option ℕ → Pass → Pass
  unfolding cool uncool count_select count_deferred try_close
  on_bids key none p = cool cooled_until key p
  on_bids key (some n) p =
      if ltb 0 n
      then if leb limits.max_selects p.selects
        then count_deferred (cool cooled_until key p)
        else uncool key (count_select key n p)
      else try_close key p

  unfoldable pub on_chain : String → Option ChainJob → Pass → Pass
  unfolding cool is_open is_expired mark_skipped on_bids
  on_chain key none p = cool cooled_until key p
  on_chain key (some chain) p =
      if is_open chain
      then if is_expired now_ms chain then on_bids key (world key).bids p else p
      else mark_skipped key (world key).at (Map.get key p.state.closing.jobs) p

  unfoldable pub visit : String → Pass → Pass
  unfolding is_over on_chain
  visit key p =
      if is_over (Map.get key p.state.closing.jobs)
        || ltb now_ms (Map.get key p.state.cooldown or_else 0)
      then p
      else on_chain key (world key).chain_job p

  unfoldable pub is_spent : Pass → Bool
  is_spent p = leb limits.max_closes p.closes && leb limits.max_selects p.selects

  -- The loop over the keys of the window.
  unfoldable pub visit_all : List String → Pass → Pass
  unfolding visit is_spent
  visit_all [] p = p
  visit_all (key ∷ keys) p =
      let rest = visit_all keys (visit key p) in if is_spent p then p else rest

-- `activeIds[i]`
unfoldable pub at_index : List String → ℕ → List String
at_index [] i = []
at_index (k ∷ ks) zero = k ∷ []
at_index (k ∷ ks) (suc i) = at_index ks i

unfoldable pub start_index : ℕ → ℕ → ℕ
start_index cursor n = (cursor % n + n) % n

-- The keys at `count` places from `start + offset` on, around the end of the list.
unfoldable pub window : List String → ℕ → ℕ → ℕ → List String
unfolding at_index
window ids start zero offset = []
window ids start (suc count) offset =
    at_index ids ((start + offset) % length ids) ++ window ids start count (offset + 1)

unfoldable pub inspect_count : Limits → ℕ → ℕ
inspect_count limits n = min (max 1 limits.max_inspect) n

unfoldable pub next_cursor : Limits → ℕ → ℕ → ℕ
unfolding start_index inspect_count
next_cursor limits cursor n = (start_index cursor n + inspect_count limits n) % n

unfoldable pub keys_of : {V : Type 0} → Map V → List String
keys_of [] = []
keys_of ((k, v) ∷ m) = k ∷ keys_of m

unfoldable pub begin_pass : State → Pass
begin_pass s = record { state = s; closes = 0; selects = 0; deferred = 0; acts = [] }

-- `_reconcileExpiredActiveAuctionsInner` on the active jobs.
unfoldable pub reconcile_ids : Limits → ℕ → (String → World) → State → List String → Pass
unfolding window next_cursor start_index inspect_count visit_all begin_pass
reconcile_ids limits now_ms world s [] = begin_pass s
reconcile_ids limits now_ms world s (id ∷ ids) =
    let n = length (id ∷ ids) in
    visit_all limits now_ms world
      (window (id ∷ ids) (start_index s.cursor n) (inspect_count limits n) 0)
      (begin_pass (record s { cursor = next_cursor limits s.cursor n }))

-- Where `getActiveJobs` throws (`none`), the local jobs stand for the active ones.
unfoldable pub active_ids : Option (List String) → State → List String
unfolding keys_of
active_ids none s = keys_of s.closing.jobs
active_ids (some ids) s = ids

-- A pass that finds another under way does nothing.
unfoldable pub reconcile : Limits → ℕ → (String → World) → Option (List String) → State → Pass
unfolding reconcile_ids active_ids begin_pass
reconcile limits now_ms world answer s =
    if s.is_running then begin_pass s else reconcile_ids limits now_ms world s (active_ids answer s)
