-- ===== src/Agents/JobLock/Examples.antt =====
-- Calls for one key: two, one behind the other, and a third which overtakes.
use audit_guard.Prelude.{ℕ, ◌≡◌, ◌≤◌, refl, none, some, List, [], ◌∷◌, Option, true}
use audit_guard.Prelude.Map
use audit_guard.Agents.JobLock.{Call, State, Event, enter, begin, finish, start, step, run}
use audit_guard.Agents.JobLock.Chain.{count_running}
use audit_guard.Agents.JobLock.Exclusive.{AreTidy, run-IsExclusive}
use audit_guard.Agents.JobLock.Progress.{CanEnd, run-CanEnd}

abbrev two : List Event
two = enter "7" ∷ enter "7" ∷ begin 0 ∷ finish 0 ∷ begin 1 ∷ []

abbrev second : Call
second = record { id = 1; key = "7"; previous = some 0; running = true }

abbrev one_left : State
one_left = record { locks = []; calls = second ∷ []; next = 2 }

two_run : run two start ≡ some one_left
unfolding run Map.get Map.set Map.delete
two_run = refl

two_tidy : AreTidy two start
unfolding step Map.get Map.set Map.delete
two_tidy = (λ e. refl, (λ e. cc, (tt, (tt, (tt, tt)))))

run-IsExclusive_example : count_running "7" one_left.calls ≤ 1
run-IsExclusive_example = run-IsExclusive "7" two one_left two_tidy two_run

run-CanEnd_example : CanEnd one_left
run-CanEnd_example = run-CanEnd two one_left two_run

-- The end of the first call deletes the entry of the second, so the third awaits nothing.
abbrev running_after : List Event → Option ℕ
running_after es = elim (run es start) [ none ↦ none | some s ↦ some (count_running "7" s.calls) ]

third_overtakes :
    running_after (enter "7" ∷ enter "7" ∷ begin 0 ∷ finish 0 ∷ begin 1 ∷ enter "7" ∷ begin 2 ∷ [])
    ≡ some 2
unfolding run Map.get Map.set Map.delete
third_overtakes = refl
