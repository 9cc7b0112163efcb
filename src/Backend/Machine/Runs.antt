-- ===== src/Backend/Machine/Runs.antt =====
-- The runs of a machine: any sequence of its operations that return.
use nak.Base.{
  ℕ, zero, suc, ◌<◌, ◌≡◌, ◌≢◌, ◌⊎◌, ◌||◌, refl, true, List, [], ◌∷◌, Option, none, some, arith,
  contains_key, ok, Bool-cases, inl, inr, ==_refl,
}
use nak.Protocol.{Condition, ExitStatus}
use nak.Backend.Machine.{
  Machine, Waiting, Conditions, Task, find_condition, new, enqueue, start, completed,
  start_completed,
}
use nak.Backend.Machine.Invariant.{HasDistinctKeys, WaitsWell, pending, IsWell}
use nak.Backend.Machine.Order.Entering.{enqueue-Reached}
use nak.Backend.Machine.Order.{
  Reached, new-Reached, start-Reached, completed-Reached, start_completed-Reached,
}

first_condition :
    (cs : Conditions) → cs ≢ [] → (p : ℕ) × (c : Condition) × (find_condition p cs ≡ some c)
unfolding find_condition
first_condition [] h = absurd (h refl)
first_condition ((p, c) ∷ cs) h = (p, c, rw (==_refl p) refl)

first_pending :
    {Cmd : Type 0} (o : Option (Waiting Cmd))
    → WaitsWell o
    → (o ≡ none) ⊎ ((p : ℕ) × (c : Condition) × (pending o p ≡ some c))
first_pending none h = inl refl
first_pending (some waiting) (d, h) = inr (first_condition waiting.conditions h)

module _ {Cmd State : Type 0} where
  -- The keys of a `HashMap` of conditions are distinct. The end of a job runs on a depth of two calls
  -- at least.
  pub data Reachable : Machine Cmd State → Type 0 where
    begun : (m : Machine Cmd State) → m ≡ new → Reachable m
    enqueued :
        (before m : Machine Cmd State) (w : ℕ) (cmd : Cmd) (block_for : Conditions)
        (ts : List (Task Cmd))
        → Reachable before
        → HasDistinctKeys block_for
        → enqueue before w cmd block_for ≡ ok (ts, m)
        → Reachable m
    started :
        (before m : Machine Cmd State) (pid : ℕ) (state : State)
        → Reachable before
        → start before pid state ≡ ok m
        → Reachable m
    ended :
        (fuel : ℕ) (before m : Machine Cmd State) (pid : ℕ) (exit : ExitStatus)
        (ts : List (Task Cmd))
        → Reachable before
        → completed (suc (suc fuel)) before pid exit ≡ ok (ts, m)
        → Reachable m
    ended_at_start :
        (fuel : ℕ) (before m : Machine Cmd State) (pid : ℕ) (exit : ExitStatus)
        (ts : List (Task Cmd))
        → Reachable before
        → start_completed (suc fuel) before pid exit ≡ ok (ts, m)
        → Reachable m

  Reachable-Reached : (m : Machine Cmd State) → Reachable m → Reached m
  Reachable-Reached m (begun _ e) = rw e new-Reached
  Reachable-Reached m (enqueued before _ w cmd block_for ts r d e) =
      rw e at (enqueue-Reached before w cmd block_for d (Reachable-Reached before r))
  Reachable-Reached m (started before _ pid state r e) =
      rw e at (start-Reached before pid state (Reachable-Reached before r))
  Reachable-Reached m (ended fuel before _ pid exit ts r e) =
      rw e at (completed-Reached fuel before pid exit (Reachable-Reached before r))
  Reachable-Reached m (ended_at_start fuel before _ pid exit ts r e) =
      rw e at (start_completed-Reached fuel before pid exit (Reachable-Reached before r))

  -- Some job is to run or runs.
  abbrev pub CanMove : Machine Cmd State → Type 0
  CanMove m = (p : ℕ) × ((m.to_run p || contains_key m.running p) ≡ true)

  -- From a job that waits, along the jobs that it waits for; their ranks go down.
  follow :
      (fuel : ℕ) (m : Machine Cmd State) (R : Reached m) (w : ℕ)
      → R.rank w < fuel
      → contains_key m.waiting_on w ≡ true
      → CanMove m
  follow zero m R w b h = absurd (omega (arith, b))
  follow (suc fuel) m R w b h = elim (first_pending (m.waiting_on w) (R.well.waits_well w)) [
    | inl n ↦ absurd (ground (arith, h, n))
    | inr (p, c, k) ↦ elim (Bool-cases (contains_key m.waiting_on p)) [
      | inl y ↦ follow fuel m R p (omega (arith, b, R.earlier p w c k)) y
      | inr n ↦ (p, ground (arith, n, R.well.live p w {c = c} k refl))
    ]
  ]

  -- Whatever operations that return lead from a new machine to this one, each `enqueue` with distinct
  -- keys, each end of a job on a depth of two calls at least: the machine is well-formed, and it is
  -- never stuck. Where a job waits, some job is to run or runs.
  pub Reachable-CanMove :
      (m : Machine Cmd State)
      → Reachable m
      → IsWell m × ((w : ℕ) → contains_key m.waiting_on w ≡ true → CanMove m)
  Reachable-CanMove m r =
      let R = Reachable-Reached m r in
      (R.well, λ w h. follow (suc (R.rank w)) m R w (omega arith) h)
