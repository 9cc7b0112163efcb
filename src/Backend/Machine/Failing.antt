-- ===== src/Backend/Machine/Failing.antt =====
-- What the machine does where a condition fails that a job waits on: `resolve_tasks` ends the job by
-- `completed`, which wants it running, while it was waiting.
use nak.Base.{
  ℕ, suc, ◌≡◌, refl, Bool, true, false, List, [], ◌∷◌, some, arith, contains_key, ◌==◌, panic,
  Bool-cases, inl, inr,
}
use nak.Protocol.{Condition, ExitStatus}
use nak.Backend.Machine.{
  Machine, Waiting, drop_condition, is_unmet, status, resolve_one, resolve_loop, resolve_tasks,
  completed,
}
use nak.Backend.Machine.Invariant.{Inv, blocked_by, IsWell}
use nak.Backend.Machine.Release.{with_list, released, release-Inv}
use nak.Backend.Machine.Resolve.{all_met, first_waits, resolve_one_met}
use nak.Backend.Machine.Completed.{ended_running, unlisted, unlisted-Inv, ended_running-Inv}

module _ {Cmd State : Type 0} where
  -- A waiting job is not running.
  running_of_waiting :
      (m : Machine Cmd State) (blocked : ℕ → List (Condition × ℕ)) (ended : ℕ → Bool) (w : ℕ)
      {waiting : Waiting Cmd}
      → Inv m blocked ended
      → m.waiting_on w ≡ some waiting
      → (contains_key m.running w ≡ false) × (contains_key m.finished w ≡ false)
  running_of_waiting m blocked ended w I e = ground (arith, I.exclusive w, e)

  resolve_one_unmet :
      (fuel : ℕ) (m : Machine Cmd State) (blocked : ℕ → List (Condition × ℕ)) (pid : ℕ)
      (exit : ExitStatus) (c : Condition) (w : ℕ) {waiting : Waiting Cmd}
      → Inv m blocked (λ q. pid == q)
      → m.waiting_on w ≡ some waiting
      → is_unmet c exit ≡ true
      → resolve_one (completed (suc fuel)) m pid exit c w ≡ panic
  unfolding resolve_one completed
  resolve_one_unmet fuel m blocked pid exit c w I e u =
      rw e (rw u (rw (running_of_waiting m blocked (λ q. pid == q) w I e).0 refl))

  resolve_loop_unmet :
      (fuel : ℕ) (m : Machine Cmd State) (blocked : ℕ → List (Condition × ℕ)) (pid : ℕ)
      (exit : ExitStatus) (bs : List (Condition × ℕ))
      → Inv m (with_list blocked pid bs) (λ q. pid == q)
      → all_met exit bs ≡ false
      → resolve_loop (completed (suc fuel)) m pid exit bs ≡ panic
  unfolding resolve_loop
  resolve_loop_unmet fuel m blocked pid exit [] I a = cc
  resolve_loop_unmet fuel m blocked pid exit ((c, w) ∷ bs) I a =
      let (waiting, e, f) = first_waits m blocked pid w c bs I in
      elim (Bool-cases (is_unmet c exit)) [
        | inl u ↦
            rw (resolve_one_unmet fuel m (with_list blocked pid ((c, w) ∷ bs)) pid exit c w I e u)
              refl
        | inr u ↦ rw (resolve_one_met (completed (suc fuel)) m pid exit c w waiting e f u) (
            rw
              (resolve_loop_unmet fuel
                (released m w waiting.cmd (drop_condition pid waiting.conditions)) blocked pid exit
                bs (release-Inv m blocked pid w c bs waiting I e) (rw u at a))
              refl)
      ]

  pub resolve_tasks_unmet :
      (fuel : ℕ) (m : Machine Cmd State) (pid : ℕ) (exit : ExitStatus)
      → Inv m (blocked_by m) (λ q. pid == q)
      → all_met exit (blocked_by m pid) ≡ false
      → resolve_tasks (completed (suc fuel)) m pid exit ≡ panic
  unfolding resolve_tasks
  resolve_tasks_unmet fuel m pid exit I a =
      resolve_loop_unmet fuel (unlisted m pid) (blocked_by m) pid exit (blocked_by m pid)
        (unlisted-Inv m pid I) a

  -- A running job of a well-formed machine ends and a job waits on it with a condition that its
  -- status does not meet: `completed` panics, at every depth of two or more.
  pub completed_unmet-panic :
      (fuel : ℕ) (m : Machine Cmd State) (pid : ℕ) (exit : ExitStatus)
      → IsWell m
      → contains_key m.running pid ≡ true
      → all_met exit (blocked_by m pid) ≡ false
      → completed (suc (suc fuel)) m pid exit ≡ panic
  completed_unmet-panic fuel m pid exit I h a = step
    where
      step : completed (suc (suc fuel)) m pid exit ≡ panic
      step =
          unfold completed in
          rw h (
            resolve_tasks_unmet fuel (ended_running m pid exit) pid exit
              (ended_running-Inv m pid exit I h) a)

  -- On a well-formed machine, `status` panics on a job that waits for others.
  pub status_waiting-panic :
      (m : Machine Cmd State) (pid : ℕ)
      → IsWell m
      → contains_key m.waiting_on pid ≡ true
      → status m pid ≡ panic
  unfolding status
  status_waiting-panic m pid I h = ground (arith, I.exclusive pid)
