-- ===== src/Backend/Exec/Events/Spawn.antt =====
-- A program that cannot be started: the end of its output is asked for a second time.
use nak.Base.{
  ℕ, ◌==◌, ◌≡◌, ◌≢◌, refl, subst, Bool, true, false, List, none, some, Bytes, Outcome, ok, panic,
  unwrap, insert, ==_refl, Option-cases, Bool-cases, inl, inr, Guarded, Guarded-bind, Guarded-mono,
  Guarded-self, Hazardous,
}
use nak.Protocol.{unknown, WritePipes, failure}
use nak.Backend.Machine.{Task, start_task, start_completed}
use nak.Backend.Exec.{
  RunCmd, System, Exec, Pair, Result, err, done, RunResult, process, child, read_end, write_end,
  run, pipe_output_and_close,
}
use nak.Backend.Exec.Events.{process_task, started}

abbrev pub is_err {ℓ} : {A : Type ℓ} → Result A → Bool
is_err (done a) = false
is_err (err t) = true

runs {ℓ} : {A : Type ℓ} (m : Outcome A) → Guarded Unit (λ a. Unit) m
runs m =
    Guarded-mono (Hazardous m) Unit (λ a. Unit) (λ a. Unit) m (Guarded-self m) (λ h. tt) (λ a h. tt)

is_err-process :
    {C : Type 0} (s : Result C)
    → is_err s ≡ true
    → is_err {A = RunResult C}
        (elim s [ done handle ↦ done (process (child handle)) | err t ↦ err t ])
      ≡ true
is_err-process (done c) h = absurd cc
is_err-process (err t) h = refl

module _ {W F C : Type 0} (system : System W F C) where
  -- the end to write to was given out
  abbrev GivenOut : ℕ → Exec W F C → Type 0
  GivenOut p e = (pair : Pair F) × (e.open_handles p ≡ some pair) × (pair.write_side ≡ none)

  write_end-GivenOut :
      (e : Exec W F C) (p : ℕ) → Guarded Unit (λ r. GivenOut p r.1) (write_end system e p)
  unfolding write_end
  write_end-GivenOut e p = elim (Option-cases (e.open_handles p)) [
    | inl h ↦
        rw (h, write_end)
          (Guarded-bind Unit (λ x. Unit) (λ r. GivenOut p r.1) (system.make_pipe e.world) _
            (runs (system.make_pipe e.world))
            (λ x u.
              (record { read_side = some x.0.0; write_side = none }, rw (==_refl p) refl, refl)))
    | inr (pair, h) ↦
        rw (h, write_end)
          (Guarded-bind Unit (λ x. Unit) (λ r. GivenOut p r.1) (unwrap pair.write_side) _
            (runs (unwrap pair.write_side))
            (λ x u. (record pair { write_side = none }, rw (==_refl p) refl, refl)))
  ]

  insert-GivenOut :
      (e : Exec W F C) (p q : ℕ) (pair : Pair F) (world : W)
      → GivenOut p e
      → pair.write_side ≡ none
      → GivenOut p (record e { world = world; open_handles = insert e.open_handles q pair })
  insert-GivenOut e p q pair world (old, h, n) m = elim (Bool-cases (q == p)) [
    | inl y ↦ (pair, rw y refl, m)
    | inr o ↦ (old, rw o h, n)
  ]

  write_end_keeps :
      (e : Exec W F C) (p q : ℕ)
      → GivenOut p e
      → Guarded Unit (λ r. GivenOut p r.1) (write_end system e q)
  unfolding write_end
  write_end_keeps e p q g = elim (Option-cases (e.open_handles q)) [
    | inl h ↦
        rw (h, write_end)
          (Guarded-bind Unit (λ x. Unit) (λ r. GivenOut p r.1) (system.make_pipe e.world) _
            (runs (system.make_pipe e.world))
            (λ x u.
              insert-GivenOut e p q (record { read_side = some x.0.0; write_side = none }) x.1 g
                refl))
    | inr (pair, h) ↦
        rw (h, write_end)
          (Guarded-bind Unit (λ x. Unit) (λ r. GivenOut p r.1) (unwrap pair.write_side) _
            (runs (unwrap pair.write_side))
            (λ x u. insert-GivenOut e p q (record pair { write_side = none }) e.world g refl))
  ]

  write_end_twice : (e : Exec W F C) (p : ℕ) → GivenOut p e → write_end system e p ≡ panic
  unfolding write_end
  write_end_twice e p (pair, h, n) = rw (h, write_end) rw n refl

  run_err :
      (e : Exec W F C) (pid : ℕ) (path : Bytes) (args : List Bytes) (pipes : WritePipes)
      → ((w : W) (stdin stdout stderr : F)
          → is_err (system.spawn w path args stdin stdout stderr).0 ≡ true)
      → Guarded Unit
          (λ r. GivenOut pipes.stdout r.1 × (is_err r.0 ≡ true))
          (run system e pid (record { cmd = unknown path args; pipes = pipes }))
  unfolding run
  run_err e pid path args pipes f =
      Guarded-bind Unit (λ x. Unit) _ (read_end system e pipes.stdin) _ (runs _)
        (λ x u.
          Guarded-bind Unit (λ r. GivenOut pipes.stdout r.1) _ (write_end system x.1 pipes.stdout) _
            (write_end-GivenOut x.1 pipes.stdout)
            (λ y g.
              Guarded-bind Unit (λ r. GivenOut pipes.stdout r.1) _
                (write_end system y.1 pipes.stderr) _
                (write_end_keeps y.1 pipes.stdout pipes.stderr g)
                (λ z k. (
                  k,
                  is_err-process (system.spawn z.1.world path args x.0 y.0 z.0).0
                      (f z.1.world x.0 y.0 z.0),
                ))))

  started_err :
      (e : Exec W F C) (pid : ℕ) (cmd : RunCmd) (result : Result (RunResult C))
      → GivenOut cmd.pipes.stdout e
      → is_err result ≡ true
      → Guarded Unit (λ r. ⊥) (started system e pid cmd result)
  unfolding started pipe_output_and_close
  started_err e pid cmd (done r) g h = absurd cc
  started_err e pid cmd (err text) g h =
      Guarded-bind Unit (λ x. Unit) (λ r. ⊥) (start_completed 2 e.machine pid failure) _ (runs _)
        (λ x u. rw (write_end_twice (record e { machine = x.1 }) cmd.pipes.stdout g) tt)

  -- Where the system cannot start the program, the task that starts it never returns normally,
  -- whatever the state.
  pub process_task-spawn :
      (e : Exec W F C) (pid : ℕ) (path : Bytes) (args : List Bytes) (pipes : WritePipes)
      (r : List (Task RunCmd) × Exec W F C)
      → ((w : W) (stdin stdout stderr : F)
          → is_err (system.spawn w path args stdin stdout stderr).0 ≡ true)
      → process_task system e (start_task pid (record { cmd = unknown path args; pipes = pipes }))
        ≢ ok r
  unfolding process_task
  process_task-spawn e pid path args pipes r f h = subst (Guarded Unit (λ x. ⊥)) h (
      Guarded-bind Unit (λ x. GivenOut pipes.stdout x.1 × (is_err x.0 ≡ true)) (λ x. ⊥)
        (run system e pid (record { cmd = unknown path args; pipes = pipes })) _
        (run_err e pid path args pipes f)
        (λ x (g, k).
          started_err x.1 pid (record { cmd = unknown path args; pipes = pipes }) x.0 g k))
