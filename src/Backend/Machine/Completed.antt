-- ===== src/Backend/Machine/Completed.antt =====
-- `completed` and `start_completed` of a job whose dependents have their conditions met.
use nak.Base.{
  ℕ, suc, ◌==◌, ◌≡◌, refl, ap, ◌∙◌, true, ◌||◌, ◌&&◌, if◌then◌else◌, List, [], none, arith, is_some,
  contains_key, contains_key-insert, contains_key-remove, insert, remove, set_remove, Returns,
  Returns-mono, Bool-cases, inl, inr, ap-if,
}
use nak.Protocol.{ExitStatus}
use nak.Backend.Machine.{
  Machine, Task, Completion, blocked_list, resolve_tasks, resolve_loop, completed, start_completed,
}
use nak.Backend.Machine.Invariant.{find_blocked, Inv, blocked_by, IsWell}
use nak.Backend.Machine.Release.{with_list}
use nak.Backend.Machine.Resolve.{shorten, is_ready, starts, all_met, Resolved, resolve_loop_met}

module _ {Cmd State : Type 0} where
  -- What `resolve_tasks` does, and the invariant behind it.
  pub record Resolution (m : Machine Cmd State) (pid : ℕ) (r : List (Task Cmd) × Machine Cmd State)
      : Type 0 where
    pub well : IsWell r.1
    pub same_finished : r.1.finished ≡ m.finished
    pub same_running : r.1.running ≡ m.running
    pub waits :
        (v : ℕ)
        → r.1.waiting_on v ≡ (
            if is_some (find_blocked v (blocked_by m pid))
            then shorten pid (m.waiting_on v)
            else m.waiting_on v)
    pub runs :
        (v : ℕ)
        → r.1.to_run v ≡ (
            m.to_run v
            || (is_some (find_blocked v (blocked_by m pid)) && is_ready pid (m.waiting_on v)))
    pub tasks : r.0 ≡ starts pid m.waiting_on (blocked_by m pid)

  abbrev pub unlisted : Machine Cmd State → ℕ → Machine Cmd State
  unlisted m pid = record m { check_on_completed = remove m.check_on_completed pid }

  pub unlisted-Inv :
      (m : Machine Cmd State) (pid : ℕ)
      → Inv m (blocked_by m) (λ q. pid == q)
      → Inv (unlisted m pid) (with_list (blocked_by m) pid (blocked_by m pid)) (λ q. pid == q)
  unlisted-Inv m pid I = record {
    exclusive = I.exclusive;
    mirror = λ p w.
        ap-if (find_blocked w) (pid == p) (blocked_by m pid) (blocked_by m p)
        ∙ ground (arith, I.mirror p w);
    live = I.live;
    distinct_jobs = λ p. elim (Bool-cases (pid == p)) [
      | inl e ↦ rw e (I.distinct_jobs pid)
      | inr e ↦ rw e (I.distinct_jobs p)
    ];
    waits_well = I.waits_well;
  }

  Resolved-blocked_by :
      (m : Machine Cmd State) (pid : ℕ) (r : List (Task Cmd) × Machine Cmd State)
      → Resolved (unlisted m pid) (blocked_by m) pid (blocked_by m pid) r
      → (p : ℕ) → blocked_by r.1 p ≡ with_list (blocked_by m) pid [] p
  Resolved-blocked_by m pid r R p =
      ap (λ lists. blocked_list (lists p)) R.same_lists
      ∙ ap-if blocked_list (pid == p) none (m.check_on_completed p)

  Resolved-IsWell :
      (m : Machine Cmd State) (pid : ℕ) (r : List (Task Cmd) × Machine Cmd State)
      → Resolved (unlisted m pid) (blocked_by m) pid (blocked_by m pid) r
      → Resolution m pid r
  unfolding find_blocked
  Resolved-IsWell m pid r R = record {
    well = record {
      exclusive = R.inv.exclusive;
      mirror = λ p w. ap (find_blocked w) (Resolved-blocked_by m pid r R p) ∙ R.inv.mirror p w;
      live = λ p w h e. elim (Bool-cases (pid == p)) [
        | inl y ↦ absurd (cc (rw y at (R.inv.mirror p w)))
        | inr n ↦ R.inv.live p w h n
      ];
      distinct_jobs = λ p. rw (Resolved-blocked_by m pid r R p) (R.inv.distinct_jobs p);
      waits_well = R.inv.waits_well;
    };
    same_finished = R.same_finished;
    same_running = R.same_running;
    waits = R.waits;
    runs = R.runs;
    tasks = R.tasks;
  }

  resolve_tasks_met :
      (again : Completion Cmd State) (m : Machine Cmd State) (pid : ℕ) (exit : ExitStatus)
      → Inv m (blocked_by m) (λ q. pid == q)
      → all_met exit (blocked_by m pid) ≡ true
      → Returns (Resolution m pid) (resolve_tasks again m pid exit)
  unfolding resolve_tasks
  resolve_tasks_met again m pid exit I a =
      Returns-mono (Resolved (unlisted m pid) (blocked_by m) pid (blocked_by m pid))
        (Resolution m pid) (resolve_loop again (unlisted m pid) pid exit (blocked_by m pid))
        (resolve_loop_met again (unlisted m pid) (blocked_by m) pid exit (blocked_by m pid)
          (unlisted-Inv m pid I) a)
        (Resolved-IsWell m pid)

  -- The job `pid` has ended: from running, or from to-run.
  abbrev pub ended_running : Machine Cmd State → ℕ → ExitStatus → Machine Cmd State
  ended_running m pid exit = record m {
    running = remove m.running pid;
    finished = insert m.finished pid exit;
  }

  abbrev pub ended_to_run : Machine Cmd State → ℕ → ExitStatus → Machine Cmd State
  ended_to_run m pid exit = record m {
    to_run = set_remove m.to_run pid;
    finished = insert m.finished pid exit;
  }

  pub ended_running-Inv :
      (m : Machine Cmd State) (pid : ℕ) (exit : ExitStatus)
      → IsWell m
      → contains_key m.running pid ≡ true
      → Inv (ended_running m pid exit) (blocked_by m) (λ q. pid == q)
  ended_running-Inv m pid exit I h = record {
    exclusive = λ p.
        rw (contains_key-insert m.finished pid exit p)
          (rw (contains_key-remove m.running pid p) (ground (arith, I.exclusive p, h)));
    mirror = I.mirror;
    live =
        λ p w k e. rw (contains_key-remove m.running pid p) (ground (arith, I.live p w k refl, e));
    distinct_jobs = I.distinct_jobs;
    waits_well = I.waits_well;
  }

  pub ended_to_run-Inv :
      (m : Machine Cmd State) (pid : ℕ) (exit : ExitStatus)
      → IsWell m
      → m.to_run pid ≡ true
      → Inv (ended_to_run m pid exit) (blocked_by m) (λ q. pid == q)
  ended_to_run-Inv m pid exit I h = record {
    exclusive =
        λ p. rw (contains_key-insert m.finished pid exit p) (ground (arith, I.exclusive p, h));
    mirror = I.mirror;
    live = λ p w k e. ground (arith, I.live p w k refl, e);
    distinct_jobs = I.distinct_jobs;
    waits_well = I.waits_well;
  }

  -- A running job of a well-formed machine ends, and every condition on it is met: `completed`
  -- returns, at every depth. The job is finished with its status and nothing else finishes; exactly
  -- the jobs that waited for it alone are started, in the order of its list; the others that waited
  -- for it wait on without that condition; and the machine is well-formed again.
  pub completed-Resolution :
      (fuel : ℕ) (m : Machine Cmd State) (pid : ℕ) (exit : ExitStatus)
      → IsWell m
      → contains_key m.running pid ≡ true
      → all_met exit (blocked_by m pid) ≡ true
      → Returns (Resolution (ended_running m pid exit) pid) (completed (suc fuel) m pid exit)
  unfolding completed
  completed-Resolution fuel m pid exit I h a = rw h (
      resolve_tasks_met (completed fuel) (ended_running m pid exit) pid exit
        (ended_running-Inv m pid exit I h) a)

  -- A job that is to run on a well-formed machine is over before it runs, and every condition on it
  -- is met: `start_completed` returns, at every depth. As with `completed`, the job is finished with
  -- its status and nothing else finishes, exactly the jobs that waited for it alone are started, the
  -- others that waited for it wait on without that condition, and the machine is well-formed again.
  pub start_completed-Resolution :
      (fuel : ℕ) (m : Machine Cmd State) (pid : ℕ) (exit : ExitStatus)
      → IsWell m
      → m.to_run pid ≡ true
      → all_met exit (blocked_by m pid) ≡ true
      → Returns (Resolution (ended_to_run m pid exit) pid) (start_completed fuel m pid exit)
  unfolding start_completed
  start_completed-Resolution fuel m pid exit I h a = rw h (
      resolve_tasks_met (completed fuel) (ended_to_run m pid exit) pid exit
        (ended_to_run-Inv m pid exit I h) a)
