-- ===== src/Backend/Machine/Resolve.antt =====
-- `resolve_tasks` where every condition is met: the jobs that waited for nothing else start, the
-- others wait on, and the invariant is kept.
use nak.Base.{
  ℕ, ◌==◌, ◌≡◌, refl, sym, ap, ◌∙◌, Bool, true, false, not, ◌||◌, ◌&&◌, if◌then◌else◌, List, [],
  ◌∷◌, ◌++◌, Option, none, some, arith, is_some, Map, ok, Returns, Returns-bind, Option-cases, inl,
  inr, ==_refl,
}
use nak.Protocol.{Condition, ExitStatus, success, failure}
use nak.Backend.Machine.{
  Machine, Waiting, Task, start_task, Completion, find_condition, drop_condition, is_unmet,
  condition_eq, release, resolve_one, resolve_loop,
}
use nak.Backend.Machine.Invariant.{find_blocked, pending, Inv}
use nak.Backend.Machine.Release.{
  with_list, is_nil, kept, removed, released, released-waiting_on, released-to_run,
  released-finished, released-running, released-lists, released-tasks, release-Inv,
}

module _ {Cmd : Type 0} where
  -- a waiting job without its condition on `pid`
  abbrev pub shorten : ℕ → Option (Waiting Cmd) → Option (Waiting Cmd)
  shorten pid none = none
  shorten pid (some w) = kept w.cmd (drop_condition pid w.conditions)

  -- it waits for `pid` and nothing else
  abbrev pub is_ready : ℕ → Option (Waiting Cmd) → Bool
  is_ready pid none = false
  is_ready pid (some w) = is_nil (drop_condition pid w.conditions)

  abbrev pub start_of : ℕ → ℕ → Option (Waiting Cmd) → List (Task Cmd)
  start_of pid w none = []
  start_of pid w (some waiting) =
      if is_nil (drop_condition pid waiting.conditions) then start_task w waiting.cmd ∷ [] else []

  -- The jobs that are ready, in the order of the list.
  unfoldable pub starts : ℕ → Map (Waiting Cmd) → List (Condition × ℕ) → List (Task Cmd)
  starts pid waiting_on [] = []
  starts pid waiting_on ((c, w) ∷ bs) = start_of pid w (waiting_on w) ++ starts pid waiting_on bs

  starts_same :
      (pid : ℕ) (ws ws' : Map (Waiting Cmd)) (bs : List (Condition × ℕ))
      → ((v : ℕ) → is_some (find_blocked v bs) ≡ true → ws' v ≡ ws v)
      → starts pid ws' bs ≡ starts pid ws bs
  unfolding starts find_blocked
  starts_same pid ws ws' [] h = refl
  starts_same pid ws ws' ((c, w) ∷ bs) h = rw (h w (rw (==_refl w) refl)) (
      ap (λ ts. start_of pid w (ws w) ++ ts)
        (starts_same pid ws ws' bs (λ v k. h v (ground (arith, k)))))

-- every condition on the ended job is met
abbrev pub all_met : ExitStatus → List (Condition × ℕ) → Bool
all_met exit [] = true
all_met exit ((c, w) ∷ bs) = not (is_unmet c exit) && all_met exit bs

condition_eq_refl : (c : Condition) → condition_eq c c ≡ true
condition_eq_refl none = refl
condition_eq_refl (some success) = refl
condition_eq_refl (some failure) = refl

module _ {Cmd State : Type 0} where
  -- What the loop does to the machine `m`, with `bs` the list of the ended job `pid`.
  pub record Resolved (m : Machine Cmd State) (blocked : ℕ → List (Condition × ℕ)) (pid : ℕ)
      (bs : List (Condition × ℕ)) (r : List (Task Cmd) × Machine Cmd State) : Type 0 where
    pub inv : Inv r.1 (with_list blocked pid []) (λ q. pid == q)
    pub same_finished : r.1.finished ≡ m.finished
    pub same_running : r.1.running ≡ m.running
    pub same_lists : r.1.check_on_completed ≡ m.check_on_completed
    pub waits :
        (v : ℕ)
        → r.1.waiting_on v
          ≡ (if is_some (find_blocked v bs) then shorten pid (m.waiting_on v) else m.waiting_on v)
    pub runs :
        (v : ℕ)
        → r.1.to_run v
          ≡ (m.to_run v || (is_some (find_blocked v bs) && is_ready pid (m.waiting_on v)))
    pub tasks : r.0 ≡ starts pid m.waiting_on bs

  -- The first job of the list waits for `pid`.
  pub first_waits :
      (m : Machine Cmd State) (blocked : ℕ → List (Condition × ℕ)) (pid w : ℕ) (c : Condition)
      (bs : List (Condition × ℕ))
      → Inv m (with_list blocked pid ((c, w) ∷ bs)) (λ q. pid == q)
      → (waiting : Waiting Cmd) × (m.waiting_on w ≡ some waiting)
        × (find_condition pid waiting.conditions ≡ some c)
  unfolding find_blocked
  first_waits m blocked pid w c bs I =
      let mirrored : some c ≡ pending (m.waiting_on w) pid =
        rw (==_refl w) at (rw (==_refl pid) at (I.mirror pid w)) in
      elim (Option-cases (m.waiting_on w)) [
        | inl e ↦ absurd (cc (rw e at mirrored))
        | inr (waiting, e) ↦ (waiting, e, sym (rw e at mirrored))
      ]

  pub resolve_one_met :
      (again : Completion Cmd State) (m : Machine Cmd State) (pid : ℕ) (exit : ExitStatus)
      (c : Condition) (w : ℕ) (waiting : Waiting Cmd)
      → m.waiting_on w ≡ some waiting
      → find_condition pid waiting.conditions ≡ some c
      → is_unmet c exit ≡ false
      → resolve_one again m pid exit c w
        ≡ ok (release (removed m w) w waiting.cmd (drop_condition pid waiting.conditions))
  unfolding resolve_one
  resolve_one_met again m pid exit c w waiting e f u =
      rw e (rw u (rw f (rw (condition_eq_refl c) refl)))

  -- One round, then the rest of the loop from where it leaves the machine.
  Resolved-cons :
      (m : Machine Cmd State) (blocked : ℕ → List (Condition × ℕ)) (pid w : ℕ) (c : Condition)
      (bs : List (Condition × ℕ)) (waiting : Waiting Cmd)
      → find_blocked w bs ≡ none
      → m.waiting_on w ≡ some waiting
      → (r : List (Task Cmd) × Machine Cmd State)
      → Resolved (released m w waiting.cmd (drop_condition pid waiting.conditions)) blocked pid bs r
      → Resolved m blocked pid ((c, w) ∷ bs) (
        (release (removed m w) w waiting.cmd (drop_condition pid waiting.conditions)).0 ++ r.0,
        r.1,
      )
  unfolding find_blocked starts
  Resolved-cons m blocked pid w c bs waiting d e r R = record {
    inv = R.inv;
    same_finished =
        R.same_finished ∙ released-finished m w waiting.cmd (drop_condition pid waiting.conditions);
    same_running =
        R.same_running ∙ released-running m w waiting.cmd (drop_condition pid waiting.conditions);
    same_lists =
        R.same_lists ∙ released-lists m w waiting.cmd (drop_condition pid waiting.conditions);
    waits = λ v.
        R.waits v
        ∙ ground
            (arith, released-waiting_on m w waiting.cmd (drop_condition pid waiting.conditions) v);
    runs = λ v.
        R.runs v
        ∙ ground (
          arith,
          released-waiting_on m w waiting.cmd (drop_condition pid waiting.conditions) v,
          released-to_run m w waiting.cmd (drop_condition pid waiting.conditions) v,
        );
    tasks = rw R.tasks (
        rw (released-tasks m w waiting.cmd (drop_condition pid waiting.conditions)) (
          rw
            (starts_same pid m.waiting_on
              (released m w waiting.cmd (drop_condition pid waiting.conditions)).waiting_on bs
              (λ v k.
                released-waiting_on m w waiting.cmd (drop_condition pid waiting.conditions) v
                ∙ ground arith))
            (rw e refl)));
  }

  pub resolve_loop_met :
      (again : Completion Cmd State) (m : Machine Cmd State) (blocked : ℕ → List (Condition × ℕ))
      (pid : ℕ) (exit : ExitStatus) (bs : List (Condition × ℕ))
      → Inv m (with_list blocked pid bs) (λ q. pid == q)
      → all_met exit bs ≡ true
      → Returns (Resolved m blocked pid bs) (resolve_loop again m pid exit bs)
  unfolding resolve_loop find_blocked starts
  resolve_loop_met again m blocked pid exit [] I a = record {
    inv = I;
    same_finished = refl;
    same_running = refl;
    same_lists = refl;
    waits = λ v. refl;
    runs = λ v. ground arith;
    tasks = refl;
  }
  resolve_loop_met again m blocked pid exit ((c, w) ∷ bs) I a =
      let (waiting, e, f) = first_waits m blocked pid w c bs I in
      let m' = released m w waiting.cmd (drop_condition pid waiting.conditions) in
      rw (resolve_one_met again m pid exit c w waiting e f (ground (arith, a))) (
        Returns-bind (Resolved m' blocked pid bs) (Resolved m blocked pid ((c, w) ∷ bs))
          (resolve_loop again m' pid exit bs) _
          (resolve_loop_met again m' blocked pid exit bs
            (release-Inv m blocked pid w c bs waiting I e) (ground (arith, a)))
          (Resolved-cons m blocked pid w c bs waiting (rw (==_refl pid) at (I.distinct_jobs pid)).0
            e))
