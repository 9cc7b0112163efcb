-- ===== src/Backend/Machine/Enqueue.antt =====
-- `enqueue` and `start`: a new job is refused, started or made to wait, and the machine stays
-- well-formed.
use nak.Base.{
  ℕ, ◌==◌, ◌≡◌, refl, Bool, true, false, ◌||◌, ◌&&◌, if◌then◌else◌, List, [], ◌∷◌, Option, none,
  some, not, ==_refl, eq_or_ne, sym, ◌∙◌, arith, contains_key, contains_key-insert, ok, Returns,
  Returns-bind, Returns-mono, Bool-cases, Option-cases, inl, inr,
}
use nak.Protocol.{Condition, ExitStatus}
use nak.Backend.Machine.{
  Machine, Waiting, Conditions, Task, start_task, condition_failed, find_condition, is_live,
  is_known, is_unmet, check_blocks, admit, enqueue, start, status, running_as,
}
use nak.Backend.Machine.Invariant.{HasDistinctKeys, IsWell, pending}
use nak.Backend.Machine.Release.{is_nil}
use nak.Backend.Machine.Admit.{AllKnown, admit-[]-IsWell, admit-∷-IsWell}

abbrev pub command_of : {Cmd : Type 0} → Option (Waiting Cmd) → Option Cmd
command_of none = none
command_of (some waiting) = some waiting.cmd

module _ {Cmd State : Type 0} where
  -- a job to wait for has ended, and not as it should
  abbrev pub refused : Machine Cmd State → Conditions → Bool
  refused m [] = false
  refused m ((p, c) ∷ bs) = elim (m.finished p) [
    | some exit ↦ is_unmet c exit || refused m bs
    | none ↦ refused m bs
  ]

  abbrev pub all_ended : Machine Cmd State → Conditions → Bool
  all_ended m [] = true
  all_ended m ((p, c) ∷ bs) = contains_key m.finished p && all_ended m bs

  pub AllKnown-find_condition :
      (m : Machine Cmd State) (bs : Conditions) (p : ℕ) (c : Condition)
      → AllKnown m bs
      → find_condition p bs ≡ some c
      → is_known m p ≡ true
  unfolding find_condition
  AllKnown-find_condition m [] p c k h = absurd (cc)
  AllKnown-find_condition m ((q, d) ∷ bs) p c (k, ks) h = elim (Bool-cases (q == p)) [
    | inl y ↦ ground (arith, k)
    | inr n ↦ AllKnown-find_condition m bs p c ks (rw n at h)
  ]

  -- what `still_needs_to_block_for` holds, where the loop does not return early
  abbrev pub AreLeft : Machine Cmd State → Conditions → Option Conditions → Type 0
  AreLeft m bs none = refused m bs ≡ true
  AreLeft m bs (some still) =
      (refused m bs ≡ false)
      × ((p : ℕ)
          → find_condition p still
            ≡ (if contains_key m.finished p then none else find_condition p bs))
      × HasDistinctKeys still
      × (is_nil still ≡ all_ended m bs)

  AreLeft-ended :
      (m : Machine Cmd State) (p : ℕ) (c : Condition) (bs : Conditions) (exit : ExitStatus)
      (o : Option Conditions)
      → m.finished p ≡ some exit
      → is_unmet c exit ≡ false
      → AreLeft m bs o
      → AreLeft m ((p, c) ∷ bs) o
  unfolding find_condition
  AreLeft-ended m p c bs exit none e u h = ground (arith, h)
  AreLeft-ended m p c bs exit (some still) e u (r, f, d, n) =
      (ground (arith, r), (λ q. ground (arith, f q, e)), d, ground (arith, n))

  AreLeft-live :
      (m : Machine Cmd State) (p : ℕ) (c : Condition) (bs : Conditions) (still : Conditions)
      → m.finished p ≡ none
      → find_condition p bs ≡ none
      → AreLeft m bs (some still)
      → AreLeft m ((p, c) ∷ bs) (some ((p, c) ∷ still))
  unfolding find_condition
  AreLeft-live m p c bs still e k (r, f, d, n) = (
    ground (arith, r),
    (λ q. ground (arith, f q, e)),
    (ground (arith, f p, k, e), d),
    ground arith,
  )

  put_back :
      (m : Machine Cmd State) (p : ℕ) (c : Condition) (bs : Conditions) (o : Option Conditions)
      → m.finished p ≡ none
      → find_condition p bs ≡ none
      → AreLeft m bs o
      → Returns
          (AreLeft m ((p, c) ∷ bs))
          (elim o [ some still ↦ ok (some ((p, c) ∷ still)) | none ↦ ok none ])
  put_back m p c bs none e k h = ground (arith, h)
  put_back m p c bs (some still) e k h = AreLeft-live m p c bs still e k h

  pub check_blocks-AreLeft :
      (m : Machine Cmd State) (bs : Conditions)
      → AllKnown m bs
      → HasDistinctKeys bs
      → Returns (AreLeft m bs) (check_blocks m bs)
  unfolding check_blocks find_condition
  check_blocks-AreLeft m [] k d = (refl, (λ p. ground arith), tt, refl)
  check_blocks-AreLeft m ((p, c) ∷ bs) (k, ks) (n, d) =
      let rest = check_blocks-AreLeft m bs ks d in
      elim (Option-cases (m.finished p)) [
        | inl e ↦
            let l : is_live m p ≡ true = ground (arith, k, e) in
            rw (e, check_blocks)
              (rw l (
                Returns-bind (AreLeft m bs) (AreLeft m ((p, c) ∷ bs)) (check_blocks m bs) _ rest
                  (λ o h. put_back m p c bs o e n h)))
        | inr (exit, e) ↦ elim (Bool-cases (is_unmet c exit)) [
          | inl y ↦ rw (e, check_blocks) rw y ground arith
          | inr u ↦
              rw (e, check_blocks)
                (rw u (
                  Returns-mono (AreLeft m bs) (AreLeft m ((p, c) ∷ bs)) (check_blocks m bs) rest
                    (λ o h. AreLeft-ended m p c bs exit o e u h)))
        ]
      ]

  -- the tasks that `enqueue` hands out
  abbrev pub first_tasks : Machine Cmd State → ℕ → Cmd → Conditions → List (Task Cmd)
  first_tasks m w cmd bs =
      if refused m bs
      then condition_failed w cmd ∷ []
      else if all_ended m bs
      then start_task w cmd ∷ []
      else []

  unknown_job :
      (m : Machine Cmd State) (w : ℕ)
      → is_known m w ≡ false
      → (m.to_run w ≡ false) × (m.waiting_on w ≡ none)
  unknown_job m w k = (
    ground (arith, k),
    elim (Option-cases (m.waiting_on w)) [
      | inl n ↦ n
      | inr (waiting, e) ↦ absurd (ground (arith, k, e))
    ],
  )

  to_run-absent :
      (m : Machine Cmd State) (w v : ℕ) (b : Bool)
      → is_known m w ≡ false
      → b ≡ false
      → m.to_run v ≡ (if w == v then b else m.to_run v)
  to_run-absent m w v b k h = elim (eq_or_ne w v) [
    | inl e ↦ rw (← e) rw (==_refl w) ((unknown_job m w k).0 ∙ sym h)
    | inr n ↦ rw n refl
  ]

  -- Where the new job is: it is to run, or waits with its command on the conditions that are left, or
  -- is nowhere; all other jobs are where they were.
  pub record Placed (m : Machine Cmd State) (w : ℕ) (cmd : Cmd) (bs : Conditions)
      (m' : Machine Cmd State) : Type 0 where
    pub same_finished : m'.finished ≡ m.finished
    pub same_running : m'.running ≡ m.running
    pub runs :
        (v : ℕ)
        → m'.to_run v ≡ (if w == v then not (refused m bs) && all_ended m bs else m.to_run v)
    pub others : (v : ℕ) → (w == v) ≡ false → m'.waiting_on v ≡ m.waiting_on v
    pub command :
        command_of (m'.waiting_on w) ≡ (if refused m bs || all_ended m bs then none else some cmd)
    pub conditions :
        (p : ℕ)
        → pending (m'.waiting_on w) p
          ≡ (if refused m bs || contains_key m.finished p then none else find_condition p bs)

  abbrev pub Enqueued :
      Machine Cmd State → ℕ → Cmd → Conditions → List (Task Cmd) × Machine Cmd State → Type 0
  Enqueued m w cmd bs r = IsWell r.1 × (r.0 ≡ first_tasks m w cmd bs) × Placed m w cmd bs r.1

  admit-Placed :
      (m : Machine Cmd State) (w : ℕ) (cmd : Cmd) (bs : Conditions) (o : Option Conditions)
      → is_known m w ≡ false
      → AreLeft m bs o
      → Placed m w cmd bs (admit m w cmd o).1
  unfolding admit find_condition
  admit-Placed m w cmd bs none k h = record {
    same_finished = refl;
    same_running = refl;
    runs = λ v. to_run-absent m w v _ k (ground (arith, h));
    others = λ v n. refl;
    command = rw (unknown_job m w k).1 ground (arith, h);
    conditions = λ p. rw (unknown_job m w k).1 ground (arith, h);
  }
  admit-Placed m w cmd bs (some []) k (r, f, d, n) = record {
    same_finished = refl;
    same_running = refl;
    runs = λ v. ground (arith, r, n);
    others = λ v ne. refl;
    command = rw (unknown_job m w k).1 ground (arith, r, n);
    conditions = λ p. rw (unknown_job m w k).1 ground (arith, r, f p);
  }
  admit-Placed m w cmd bs (some (b ∷ still)) k (r, f, d, n) = record {
    same_finished = refl;
    same_running = refl;
    runs = λ v. to_run-absent m w v _ k (ground (arith, n));
    others = λ v ne. rw ne refl;
    command = rw (==_refl w) ground (arith, r, n);
    conditions = λ p. rw (==_refl w) ground (arith, r, f p);
  }

  pub admit-Enqueued :
      (m : Machine Cmd State) (w : ℕ) (cmd : Cmd) (bs : Conditions) (o : Option Conditions)
      → IsWell m
      → is_known m w ≡ false
      → AllKnown m bs
      → AreLeft m bs o
      → Enqueued m w cmd bs (admit m w cmd o)
  unfolding admit
  admit-Enqueued m w cmd bs none i k a h = (i, ground (arith, h), admit-Placed m w cmd bs none k h)
  admit-Enqueued m w cmd bs (some []) i k a (r, f, d, n) = (
    admit-[]-IsWell m w cmd i k,
    ground (arith, r, n),
    admit-Placed m w cmd bs (some []) k (r, f, d, n),
  )
  admit-Enqueued m w cmd bs (some (b ∷ still)) i k a (r, f, d, n) = (
    admit-∷-IsWell m w cmd b still i k d
        (λ p c h. ground (arith, f p, h, AllKnown-find_condition m bs p c a)),
    ground (arith, r, n),
    admit-Placed m w cmd bs (some (b ∷ still)) k (r, f, d, n),
  )

  -- On a well-formed machine, for a job that it does not know yet, whose conditions are on jobs that
  -- it knows and on no job twice, `enqueue` does not panic and leaves the machine well-formed. Where a
  -- job to wait for has ended and not as expected, the one task is that the condition failed, and the
  -- machine knows of no new job. Otherwise, where they all have ended, the one task is the start of
  -- the job, which is to run. Otherwise there is no task, and the job waits with its command on the
  -- conditions on the jobs that have not ended. No other job moves.
  pub enqueue-IsWell :
      (m : Machine Cmd State) (w : ℕ) (cmd : Cmd) (block_for : Conditions)
      → IsWell m
      → is_known m w ≡ false
      → AllKnown m block_for
      → HasDistinctKeys block_for
      → Returns (Enqueued m w cmd block_for) (enqueue m w cmd block_for)
  unfolding enqueue
  enqueue-IsWell m w cmd block_for i k a d = rw k (
      Returns-bind (AreLeft m block_for) (Enqueued m w cmd block_for) (check_blocks m block_for) _
        (check_blocks-AreLeft m block_for a d) (λ o h. admit-Enqueued m w cmd block_for o i k a h))

  -- On a well-formed machine, a job that is to run moves to `running` in the given state, and the
  -- machine stays well-formed.
  pub start-IsWell :
      (m : Machine Cmd State) (pid : ℕ) (state : State)
      → IsWell m
      → m.to_run pid ≡ true
      → Returns (λ r. IsWell r × (status r pid ≡ ok (running_as state))) (start m pid state)
  unfolding start status
  start-IsWell m pid state i t = rw t (
    record {
      exclusive = λ p. ground (arith, i.exclusive p, contains_key-insert m.running pid state p);
      mirror = i.mirror;
      live = λ p v {c = c} h e.
          ground (arith, contains_key-insert m.running pid state p, i.live p v {c = c} h);
      distinct_jobs = i.distinct_jobs;
      waits_well = i.waits_well;
    },
    ground arith,
  )
