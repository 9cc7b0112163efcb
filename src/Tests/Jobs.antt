-- ===== src/Tests/Jobs.antt =====
-- The scenario of `test_machine` in backend/src/machine.rs.
use nak.Base.{ℕ, ◌≡◌, refl, List, [], ◌∷◌, none, some, Outcome, ok, ◌>>=◌}
use nak.Protocol.{success, failure}
use nak.Backend.Machine.{
  Task, start_task, condition_failed, new, enqueue, check_blocks, admit, push_blocks, start,
  release, resolve_one, resolve_loop, resolve_tasks, completed, find_condition, drop_condition,
}

-- the jobs that each step reports
abbrev Log : Type 0
Log = List (List (Task ℕ))

scenario : Outcome Log
unfolding new enqueue check_blocks admit push_blocks start release resolve_one resolve_loop
    resolve_tasks completed find_condition drop_condition
scenario = do
  (a, m) ← enqueue {Cmd = ℕ} {State = ℕ} new 0 10 []
  (b, m) ← enqueue m 1 11 ((0, none) ∷ [])
  m ← start m 0 7
  (c, m) ← completed 2 m 0 success
  (d, m) ← enqueue m 2 12 ((0, none) ∷ [])
  (e, m) ← enqueue m 3 13 ((0, some success) ∷ [])
  (f, m) ← enqueue m 4 14 ((0, some failure) ∷ [])
  (g, m) ← enqueue m 5 15 ((2, some success) ∷ (3, some success) ∷ [])
  (h, m) ← enqueue m 6 16 ((2, some success) ∷ [])
  m ← start m 2 7
  (i, m) ← completed 2 m 2 success
  m ← start m 3 7
  (j, m) ← completed 2 m 3 success
  ok (a ∷ b ∷ c ∷ d ∷ e ∷ f ∷ g ∷ h ∷ i ∷ j ∷ [])

scenario_lem :
    scenario
    ≡ ok (
        (start_task 0 10 ∷ [])
        ∷ []
        ∷ (start_task 1 11 ∷ [])
        ∷ (start_task 2 12 ∷ [])
        ∷ (start_task 3 13 ∷ [])
        ∷ (condition_failed 4 14 ∷ [])
        ∷ []
        ∷ []
        ∷ (start_task 6 16 ∷ [])
        ∷ (start_task 5 15 ∷ [])
        ∷ [])
unfolding scenario
scenario_lem = refl
