-- ===== src/Orchestrator/Lanes/Examples.antt =====
-- A run of the write queue: two writes of each priority, of which the sends all go through.
use audit_guard.Prelude.{ℕ, ◌≡◌, refl, true, List, [], ◌∷◌}
use audit_guard.Orchestrator.WriteQueue.{enqueue, turn, Priority, high, normal, Task, WriteQueue}
use audit_guard.Orchestrator.Lanes.{Op, put, send, lanes_of, run, lane_run}
use audit_guard.Orchestrator.Lanes.Refines.{run-refines}

abbrev task : ℕ → Priority → Task ℕ
task n p = record { send = n; priority = p }

abbrev empty : WriteQueue ℕ
empty = record { fast = true; max_high_streak = 1; tasks = []; streak = 0 }

abbrev ops : List (Op ℕ)
ops =
    put (task 1 normal)
    ∷ put (task 2 high)
    ∷ put (task 3 high)
    ∷ send true
    ∷ send true
    ∷ send true
    ∷ []

sends : (run ops empty).1 ≡ task 2 high ∷ task 1 normal ∷ task 3 high ∷ []
unfolding run turn enqueue
sends = refl

run-refines_example :
    (lanes_of (run ops empty).0 ≡ (lane_run 1 ops (lanes_of empty)).0)
    × ((run ops empty).1 ≡ (lane_run 1 ops (lanes_of empty)).1)
run-refines_example = run-refines ops empty refl tt
