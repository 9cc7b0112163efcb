-- ===== src/Backend/Machine.antt =====
-- backend/src/machine.rs: which jobs wait for which, and what a job's end lets start. `Id` is
-- `ProcessId`, a number. A `HashMap` that the code only looks up is a function; the conditions of a
-- job, which it counts and walks through, are a list in the order of that walk.
pub mod Invariant
pub mod Release
pub mod Resolve
pub mod Completed
pub mod Failing
pub mod Admit
pub mod Enqueue
pub mod Order
pub mod Runs
use nak.Base.{
  ℕ, zero, suc, ◌==◌, if◌then◌else◌, Bool, true, false, not, ◌&&◌, ◌||◌, List, [], ◌∷◌, ◌++◌,
  Option, none, some, Outcome, ok, fault, out_of_fuel, panic, assert, unwrap, ◌>>=◌, ◌>>◌, Map,
  empty, insert, remove, is_some, NumSet, no_elements, set_insert, set_remove, contains_key,
}
use nak.Protocol.{Condition, ExitStatus, failure, status_eq}

abbrev pub Conditions : Type 0
Conditions = List (ℕ × Condition)

pub record Waiting (Cmd : Type 0) : Type 0 where
  pub cmd : Cmd
  pub conditions : Conditions

pub record Machine (Cmd State : Type 0) : Type 0 where
  pub finished : Map ExitStatus
  pub to_run : NumSet
  pub running : Map State
  pub check_on_completed : Map (List (Condition × ℕ))
  pub waiting_on : Map (Waiting Cmd)

pub data Task (Cmd : Type 0) : Type 0 where
  start_task : ℕ → Cmd → Task Cmd
  condition_failed : ℕ → Cmd → Task Cmd

pub data Status (State : Type 0) : Type 0 where
  running_as : State → Status State
  exited : ExitStatus → Status State

-- `Some(expected) if expected != status`
abbrev pub is_unmet : Condition → ExitStatus → Bool
is_unmet none status = false
is_unmet (some expected) status = not (status_eq expected status)

abbrev pub condition_eq : Condition → Condition → Bool
condition_eq none none = true
condition_eq (some a) (some b) = status_eq a b
condition_eq none (some b) = false
condition_eq (some a) none = false

-- `conditions.get(&p)`, and what `conditions.remove(&p)` leaves
unfoldable pub find_condition : ℕ → Conditions → Option Condition
find_condition p [] = none
find_condition p ((q, c) ∷ cs) = if q == p then some c else find_condition p cs

unfoldable pub drop_condition : ℕ → Conditions → Conditions
drop_condition p [] = []
drop_condition p ((q, c) ∷ cs) = if q == p then cs else (q, c) ∷ drop_condition p cs

-- `entry(p).or_insert_with(Vec::new)`
abbrev pub blocked_list : Option (List (Condition × ℕ)) → List (Condition × ℕ)
blocked_list none = []
blocked_list (some bs) = bs

-- the loop that registers the new job with those it waits for
unfoldable pub push_blocks :
    ℕ → Conditions → Map (List (Condition × ℕ)) → Map (List (Condition × ℕ))
push_blocks w [] coc = coc
push_blocks w ((p, c) ∷ rest) coc =
    push_blocks w rest (insert coc p (blocked_list (coc p) ++ (c, w) ∷ []))

-- The operations that end a job: from the machine, the job and its exit status.
abbrev pub Completion : Type 0 → Type 0 → Type 0
Completion Cmd State =
    Machine Cmd State → ℕ → ExitStatus → Outcome (List (Task Cmd) × Machine Cmd State)

module _ {Cmd State : Type 0} where
  unfoldable pub new : Machine Cmd State
  new = record {
    finished = empty;
    to_run = no_elements;
    running = empty;
    check_on_completed = empty;
    waiting_on = empty;
  }

  -- `Machine::status`
  unfoldable pub status : Machine Cmd State → ℕ → Outcome (Status State)
  status m pid = elim (m.running pid) [
    | some state ↦ ok (running_as state)
    | none ↦ elim (m.finished pid) [ some exit ↦ ok (exited exit) | none ↦ panic ]
  ]

  abbrev pub is_live : Machine Cmd State → ℕ → Bool
  is_live m p = m.to_run p || (contains_key m.running p || contains_key m.waiting_on p)

  abbrev pub is_known : Machine Cmd State → ℕ → Bool
  is_known m p = contains_key m.finished p || is_live m p

  -- The loop of `enqueue` over `block_for`: `none` is its early return.
  unfoldable pub check_blocks : Machine Cmd State → Conditions → Outcome (Option Conditions)
  check_blocks m [] = ok (some [])
  check_blocks m ((p, c) ∷ rest) =
      let later = check_blocks m rest in
      elim (m.finished p) [
        | some exit ↦ if is_unmet c exit then ok none else later
        | none ↦ do
          assert (is_live m p)
          found ← later
          elim found [ some still ↦ ok (some ((p, c) ∷ still)) | none ↦ ok none ]
      ]

  -- the last part of `enqueue`, on `still_needs_to_block_for`
  unfoldable pub admit :
      Machine Cmd State → ℕ → Cmd → Option Conditions → List (Task Cmd) × Machine Cmd State
  admit m w cmd none = (condition_failed w cmd ∷ [], m)
  admit m w cmd (some []) = (start_task w cmd ∷ [], record m { to_run = set_insert m.to_run w })
  admit m w cmd (some (b ∷ bs)) = (
    [],
    record m {
      check_on_completed = push_blocks w (b ∷ bs) m.check_on_completed;
      waiting_on = insert m.waiting_on w (record { cmd = cmd; conditions = b ∷ bs });
    },
  )

  -- `Machine::enqueue`
  unfoldable pub enqueue :
      Machine Cmd State → ℕ → Cmd → Conditions → Outcome (List (Task Cmd) × Machine Cmd State)
  enqueue m w cmd block_for = do
    assert (not (is_known m w))
    still ← check_blocks m block_for
    ok (admit m w cmd still)

  -- `Machine::start`
  unfoldable pub start : Machine Cmd State → ℕ → State → Outcome (Machine Cmd State)
  start m pid state = do
    assert (m.to_run pid)
    ok (record m { to_run = set_remove m.to_run pid; running = insert m.running pid state })

  -- `waiting.conditions` without `pid`: the job starts, or waits on
  unfoldable pub release :
      Machine Cmd State → ℕ → Cmd → Conditions → List (Task Cmd) × Machine Cmd State
  release m w cmd [] = (start_task w cmd ∷ [], record m { to_run = set_insert m.to_run w })
  release m w cmd (c ∷ cs) = (
    [],
    record m { waiting_on = insert m.waiting_on w (record { cmd = cmd; conditions = c ∷ cs }) },
  )

  -- One blocked job of `resolve_tasks`; the first argument is `completed`.
  unfoldable pub resolve_one :
      Completion Cmd State
      → Machine Cmd State
      → ℕ
      → ExitStatus
      → Condition
      → ℕ
      → Outcome (List (Task Cmd) × Machine Cmd State)
  resolve_one completed m pid exit cond w = do
    waiting ← unwrap (m.waiting_on w)
    let m₁ = record m { waiting_on = remove m.waiting_on w }
    elim (is_unmet cond exit) [
      | true ↦ do
        let m₂ = record m₁ { finished = insert m₁.finished w failure }
        (ts, m₃) ← completed m₂ w failure
        ok (condition_failed w waiting.cmd ∷ ts, m₃)
      | false ↦ do
        c₂ ← unwrap (find_condition pid waiting.conditions)
        assert (condition_eq c₂ cond)
        ok (release m₁ w waiting.cmd (drop_condition pid waiting.conditions))
    ]

  unfoldable pub resolve_loop :
      Completion Cmd State
      → Machine Cmd State
      → ℕ
      → ExitStatus
      → List (Condition × ℕ)
      → Outcome (List (Task Cmd) × Machine Cmd State)
  resolve_loop completed m pid exit [] = ok ([], m)
  resolve_loop completed m pid exit ((cond, w) ∷ bs) = do
    (ts, m') ← resolve_one completed m pid exit cond w
    (ts', m'') ← resolve_loop completed m' pid exit bs
    ok (ts ++ ts', m'')

  -- `Machine::resolve_tasks`
  unfoldable pub resolve_tasks : Completion Cmd State → Completion Cmd State
  resolve_tasks completed m pid exit =
      resolve_loop completed (record m { check_on_completed = remove m.check_on_completed pid }) pid
        exit (blocked_list (m.check_on_completed pid))

  -- `Machine::completed`; the fuel bounds the depth of its calls by way of `resolve_tasks`
  unfoldable pub completed : ℕ → Completion Cmd State
  completed zero m pid exit = fault out_of_fuel
  completed (suc fuel) m pid exit = do
    assert (contains_key m.running pid)
    resolve_tasks (completed fuel)
        (record m { running = remove m.running pid; finished = insert m.finished pid exit }) pid
        exit

  -- `Machine::start_completed`
  unfoldable pub start_completed : ℕ → Completion Cmd State
  start_completed fuel m pid exit = do
    assert (m.to_run pid)
    resolve_tasks (completed fuel)
        (record m { to_run = set_remove m.to_run pid; finished = insert m.finished pid exit }) pid
        exit
