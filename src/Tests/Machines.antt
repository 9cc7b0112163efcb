-- ===== src/Tests/Machines.antt =====
-- Instances of the theorems about the machine of jobs.
use nak.Base.{
  ℕ, fault, ◌≡◌, refl, true, List, [], ◌∷◌, some, Outcome, ok, panic, Returns, contains_key,
}
use nak.Protocol.{success, failure}
use nak.Backend.Machine.{
  Machine, Task, start_task, Conditions, new, enqueue, check_blocks, admit, push_blocks, start,
  status, running_as, completed, start_completed, find_condition,
}
use nak.Backend.Machine.Invariant.{IsWell, new-IsWell}
use nak.Backend.Machine.Enqueue.{Enqueued, enqueue-IsWell, start-IsWell}
use nak.Backend.Machine.Runs.{Reachable, begun, enqueued, started, CanMove, Reachable-CanMove}
use nak.Backend.Machine.Completed.{
  Resolution, ended_running, ended_to_run, completed-Resolution, start_completed-Resolution,
}
use nak.Backend.Machine.Failing.{completed_unmet-panic, status_waiting-panic}

-- Commands and states are numbers here.
abbrev Jobs : Type 0
Jobs = Machine ℕ ℕ

abbrev after_enqueue : Outcome (List (Task ℕ) × Jobs) → Jobs
after_enqueue (ok r) = r.1
after_enqueue (fault e) = new

after_enqueue-IsWell :
    (m : Jobs) (w cmd : ℕ) (bs : Conditions) (o : Outcome (List (Task ℕ) × Jobs))
    → Returns (Enqueued m w cmd bs) o
    → IsWell (after_enqueue o)
after_enqueue-IsWell m w cmd bs (ok r) h = h.0
after_enqueue-IsWell m w cmd bs (fault e) h = elim h [ ]

abbrev after_start : Outcome Jobs → Jobs
after_start (ok m) = m
after_start (fault e) = new

after_start-IsWell :
    (P : Jobs → Type 0) (o : Outcome Jobs)
    → Returns (λ r. IsWell r × P r) o
    → IsWell (after_start o)
after_start-IsWell P (ok r) h = h.0
after_start-IsWell P (fault e) h = elim h [ ]

-- job 0 is to run
abbrev first : Jobs
first = after_enqueue (enqueue {Cmd = ℕ} {State = ℕ} new 0 10 [])

enqueue-IsWell_example :
    Returns (Enqueued {Cmd = ℕ} {State = ℕ} new 0 10 []) (enqueue {Cmd = ℕ} {State = ℕ} new 0 10 [])
unfolding new
enqueue-IsWell_example = enqueue-IsWell {Cmd = ℕ} {State = ℕ} new 0 10 [] new-IsWell refl tt tt

-- job 0 runs
abbrev second : Jobs
second = after_start (start first 0 7)

first-to_run : first.to_run 0 ≡ true
unfolding new enqueue check_blocks admit
first-to_run = refl

first-IsWell : IsWell first
unfolding new
first-IsWell =
    after_enqueue-IsWell new 0 10 [] (enqueue {Cmd = ℕ} {State = ℕ} new 0 10 [])
      (enqueue-IsWell {Cmd = ℕ} {State = ℕ} new 0 10 [] new-IsWell refl tt tt)

second-IsWell : IsWell second
second-IsWell =
    after_start-IsWell (λ r. status r 0 ≡ ok (running_as 7)) (start first 0 7)
      (start-IsWell first 0 7 first-IsWell first-to_run)

-- job 1 waits for the success of job 0
abbrev third : Jobs
third = after_enqueue (enqueue second 1 11 ((0, some success) ∷ []))

third-IsWell : IsWell third
unfolding new enqueue check_blocks admit start find_condition
third-IsWell =
    after_enqueue-IsWell second 1 11 ((0, some success) ∷ [])
      (enqueue second 1 11 ((0, some success) ∷ []))
      (enqueue-IsWell second 1 11 ((0, some success) ∷ []) second-IsWell refl (refl, tt) (refl, tt))

completed-Resolution_example :
    Returns (Resolution (ended_running third 0 success) 0) (completed 1 third 0 success)
unfolding new enqueue check_blocks admit push_blocks start find_condition
completed-Resolution_example = completed-Resolution 0 third 0 success third-IsWell refl refl

start_completed-Resolution_example :
    Returns (Resolution (ended_to_run first 0 failure) 0) (start_completed 1 first 0 failure)
unfolding new enqueue check_blocks admit push_blocks start find_condition
start_completed-Resolution_example =
    start_completed-Resolution 1 first 0 failure first-IsWell refl refl

completed_unmet-panic_example : completed 2 third 0 failure ≡ panic
unfolding new enqueue check_blocks admit push_blocks start find_condition
completed_unmet-panic_example = completed_unmet-panic 0 third 0 failure third-IsWell refl refl

status_waiting-panic_example : status third 1 ≡ panic
unfolding new enqueue check_blocks admit push_blocks start find_condition
status_waiting-panic_example = status_waiting-panic third 1 third-IsWell refl

third-Reachable : Reachable third
unfolding new enqueue check_blocks admit push_blocks start find_condition
third-Reachable =
    enqueued second third 1 11 ((0, some success) ∷ []) []
      (started first second 0 7
        (enqueued new first 0 10 [] (start_task 0 10 ∷ []) (begun new refl) tt refl) refl)
      (refl, tt) refl

-- Job 1 waits while job 0 runs.
Reachable-CanMove_example :
    IsWell third × ((w : ℕ) → contains_key third.waiting_on w ≡ true → CanMove third)
Reachable-CanMove_example = Reachable-CanMove third third-Reachable
