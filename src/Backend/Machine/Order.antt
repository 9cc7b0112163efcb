-- ===== src/Backend/Machine/Order.antt =====
-- The machines that the operations lead to: jobs wait for jobs that were enqueued before them.
pub mod Entering
use nak.Base.{
  ap, >>=-eq-ok, ℕ, suc, ◌<◌, ◌==◌, ◌≡◌, refl, true, false, if◌then◌else◌, List, [], ◌∷◌, Option,
  none, some, arith, contains_key, contains_key-insert, contains_key-remove, is_some, ok, Yields,
  Yields-of_Returns, Outcome-cases, eq_or_ne, Bool-cases, Option-cases, inl, inr,
}
use nak.Protocol.{Condition, ExitStatus}
use nak.Backend.Machine.{
  Machine, Waiting, Conditions, Task, find_condition, drop_condition, is_live, is_known, is_unmet,
  new, check_blocks, admit, enqueue, start, completed, start_completed,
}
use nak.Backend.Machine.Invariant.{
  find_blocked, HasDistinctKeys, WaitsWell, pending, blocked_by, IsWell, new-IsWell,
  find_condition-drop_condition,
}
use nak.Backend.Machine.Release.{pending-kept}
use nak.Backend.Machine.Resolve.{shorten, all_met}
use nak.Backend.Machine.Completed.{
  Resolution, ended_running, ended_to_run, ended_to_run-Inv, completed-Resolution,
  start_completed-Resolution,
}
use nak.Backend.Machine.Failing.{completed_unmet-panic, resolve_tasks_unmet}
use nak.Backend.Machine.Admit.{AllKnown}
use nak.Backend.Machine.Enqueue.{
  AreLeft, AllKnown-find_condition, check_blocks-AreLeft, admit-Enqueued, start-IsWell,
}

module _ {Cmd : Type 0} where
  pending-shorten :
      (pid : ℕ) (o : Option (Waiting Cmd)) (p : ℕ) (c : Condition)
      → WaitsWell o
      → pending (shorten pid o) p ≡ some c
      → pending o p ≡ some c
  pending-shorten pid none p c w h = h
  pending-shorten pid (some waiting) p c w h =
      let left : find_condition p (drop_condition pid waiting.conditions) ≡ some c =
        rw (pending-kept waiting.cmd (drop_condition pid waiting.conditions) p) at h in
      ground (arith, left, find_condition-drop_condition pid p waiting.conditions w.0)

module _ {Cmd State : Type 0} where
  -- A well-formed machine, with an order in which its jobs can have been enqueued: every job comes
  -- after those that it waits for.
  pub record Reached (m : Machine Cmd State) : Type 0 where
    pub well : IsWell m
    pub rank : ℕ → ℕ
    pub bound : ℕ
    pub earlier : (p w : ℕ) (c : Condition) → pending (m.waiting_on w) p ≡ some c → rank p < rank w
    pub below : (p : ℕ) → is_known m p ≡ true → rank p < bound

  pub new-Reached : Reached new
  unfolding new
  new-Reached = record {
    well = new-IsWell;
    rank = λ p. 0;
    bound = 0;
    earlier = λ p w c h. cc;
    below = λ p h. cc;
  }

  pub start-Reached :
      (m : Machine Cmd State) (pid : ℕ) (state : State)
      → Reached m
      → Yields Reached (start m pid state)
  unfolding start
  start-Reached m pid state R = elim (Bool-cases (m.to_run pid)) [
    | inr n ↦ rw n tt
    | inl t ↦
        let w = (start-IsWell m pid state R.well t) in
        rw t (record {
          well = (rw t at w).0;
          rank = R.rank;
          bound = R.bound;
          earlier = R.earlier;
          below =
              λ p k. R.below p (ground (arith, k, t, contains_key-insert m.running pid state p));
        })
  ]

  -- the end of a job whose dependents have their conditions met
  Resolution-Reached :
      (m m₁ : Machine Cmd State) (pid : ℕ) (r : List (Task Cmd) × Machine Cmd State)
      → Reached m
      → ((v : ℕ) → m₁.waiting_on v ≡ m.waiting_on v)
      → ((p : ℕ) → is_known m₁ p ≡ true → is_known m p ≡ true)
      → Resolution m₁ pid r
      → Reached r.1
  Resolution-Reached m m₁ pid r R same known S = record {
    well = S.well;
    rank = R.rank;
    bound = R.bound;
    earlier = λ p w c h. elim (Bool-cases (is_some (find_blocked w (blocked_by m₁ pid)))) [
      | inl y ↦ R.earlier p w c (
          pending-shorten pid (m.waiting_on w) p c (R.well.waits_well w)
            (rw (same w) at (rw y at (rw (S.waits w) at h))))
      | inr n ↦ R.earlier p w c (rw (same w) at (rw n at (rw (S.waits w) at h)))
    ];
    below = λ p k. R.below p (
        known p (elim (Option-cases (m₁.waiting_on p)) [
          | inl e ↦
              let fin = ap (λ f. contains_key f p) S.same_finished in
              let running = ap (λ f. contains_key f p) S.same_running in
              ground (arith, k, e, S.waits p, S.runs p, fin, running)
          | inr (waiting, e) ↦ ground (arith, e)
        ]));
  }

  pub completed-Reached :
      (fuel : ℕ) (m : Machine Cmd State) (pid : ℕ) (exit : ExitStatus)
      → Reached m
      → Yields (λ r. Reached r.1) (completed (suc (suc fuel)) m pid exit)
  completed-Reached fuel m pid exit R = elim (Bool-cases (contains_key m.running pid)) [
    | inr n ↦ unfold completed in rw n tt
    | inl h ↦ elim (Bool-cases (all_met exit (blocked_by m pid))) [
      | inr u ↦ rw (completed_unmet-panic fuel m pid exit R.well h u) tt
      | inl a ↦
          Yields-of_Returns (Resolution (ended_running m pid exit) pid) (λ r. Reached r.1)
            (completed (suc (suc fuel)) m pid exit)
            (completed-Resolution (suc fuel) m pid exit R.well h a)
            (λ r S.
              Resolution-Reached m (ended_running m pid exit) pid r R (λ v. refl)
                (λ p k. ground (
                  arith,
                  k,
                  h,
                  contains_key-insert m.finished pid exit p,
                  contains_key-remove m.running pid p,
                ))
                S)
    ]
  ]

  pub start_completed-Reached :
      (fuel : ℕ) (m : Machine Cmd State) (pid : ℕ) (exit : ExitStatus)
      → Reached m
      → Yields (λ r. Reached r.1) (start_completed (suc fuel) m pid exit)
  start_completed-Reached fuel m pid exit R = elim (Bool-cases (m.to_run pid)) [
    | inr n ↦ unfold start_completed in rw n tt
    | inl h ↦ elim (Bool-cases (all_met exit (blocked_by m pid))) [
      | inr u ↦
          unfold start_completed in
          rw h rw
            (resolve_tasks_unmet fuel (ended_to_run m pid exit) pid exit
              (ended_to_run-Inv m pid exit R.well h) u)
            tt
      | inl a ↦
          Yields-of_Returns (Resolution (ended_to_run m pid exit) pid) (λ r. Reached r.1)
            (start_completed (suc fuel) m pid exit)
            (start_completed-Resolution (suc fuel) m pid exit R.well h a)
            (λ r S.
              Resolution-Reached m (ended_to_run m pid exit) pid r R (λ v. refl)
                (λ p k. ground (arith, k, h, contains_key-insert m.finished pid exit p)) S)
    ]
  ]
