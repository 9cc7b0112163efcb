-- ===== src/Backend/Exec/Events.antt =====
-- backend/src/exec.rs: the tasks that the machine hands out, and the events that the thread of
-- `run_handler` receives. The depth 2 for the calls of `Machine::completed` is enough: below the
-- first, a call asserts that a waiting job runs.
pub mod Spawn
use nak.Base.{
  ℕ, zero, suc, ◌++◌, Bool, true, false, if◌then◌else◌, not, List, [], ◌∷◌, Option, none, some,
  Bytes, Outcome, ok, expect_ok, fault, failed, panicked, out_of_fuel, panic, assert, unwrap, ◌>>=◌,
  ◌>>◌, insert, remove, set_insert, contains_key,
}
use nak.Protocol.{
  ProcessId, ReadPipe, WritePipe, GenericPipe, failure, from_exit_code, PipeMessage, begin_read,
  read, payload, closed, Condition,
}
use nak.Backend.Machine.{
  Task, start_task, condition_failed, Conditions, running_as, exited, status, start, enqueue,
  start_completed,
}
use nak.Backend.Machine
use nak.Backend.Exec.{
  RunCmd, Result, done, err, RunResult, process, already_done, ProcessState, child, awaiting_edit,
  Pair, System, Exec, read_end, pipe_output_and_close, run,
}

pub data ExecEvent : Type 0 where
  enqueue_job : ProcessId → RunCmd → Conditions → ExecEvent
  job_completed : ProcessId → ℕ → ExecEvent
  open_output : WritePipe → Bytes → ExecEvent
  open_input : ReadPipe → Bytes → ExecEvent
  cancel_exec : ProcessId → ExecEvent
  pipe_ended : GenericPipe → ℕ → ExecEvent
  pipe_output : GenericPipe → Bytes → ℕ → ExecEvent
  pipe_message : GenericPipe → PipeMessage → ExecEvent
  edit_complete : ℕ → Bytes → ExecEvent

abbrev depth : ℕ
depth = 2

module _ {W F C : Type 0} (system : System W F C) where
  abbrev pub report : Exec W F C → ProcessId → ℕ → Outcome (Exec W F C)
  report e pid exit_code = do
    world ← system.on_command_result e.world pid exit_code
    ok (record e { world = world })

  -- `Task::Start`, after `run`
  unfoldable pub started :
      Exec W F C
      → ProcessId
      → RunCmd
      → Result (RunResult C)
      → Outcome (List (Task RunCmd) × Exec W F C)
  started e pid cmd (done (process state)) = do
    machine ← start e.machine pid state
    ok ([], record e { machine = machine })
  started e pid cmd (done (already_done exit_code)) = do
    (ts, machine) ← start_completed depth e.machine pid (from_exit_code exit_code)
    e₁ ← expect_ok (report (record e { machine = machine }) pid 0)
    ok (ts, e₁)
  started e pid cmd (err text) = do
    (ts, machine) ← start_completed depth e.machine pid failure
    e₁ ← pipe_output_and_close system (record e { machine = machine }) cmd.pipes [] text
    e₂ ← report e₁ pid 1
    ok (ts, e₂)

  -- one task of the loop of `process_tasks`
  unfoldable pub process_task : Exec W F C → Task RunCmd → Outcome (List (Task RunCmd) × Exec W F C)
  process_task e (start_task pid cmd) = do
    (result, e₁) ← run system e pid cmd
    started e₁ pid cmd result
  process_task e (condition_failed pid cmd) = do e₁ ← expect_ok (report e pid 1); ok ([], e₁)

  unfoldable pub process_round :
      Exec W F C → List (Task RunCmd) → Outcome (List (Task RunCmd) × Exec W F C)
  process_round e [] = ok ([], e)
  process_round e (t ∷ ts) = do
    (new_tasks, e₁) ← process_task e t
    (more_tasks, e₂) ← process_round e₁ ts
    ok (new_tasks ++ more_tasks, e₂)

  -- `process_tasks`; the fuel bounds its rounds
  unfoldable pub process_tasks : ℕ → Exec W F C → List (Task RunCmd) → Outcome (Exec W F C)
  process_tasks zero e ts = fault out_of_fuel
  process_tasks (suc fuel) e ts = do
    (new_tasks, e₁) ← process_round e ts
    elim new_tasks [ [] ↦ ok e₁ | t ∷ rest ↦ process_tasks fuel e₁ (t ∷ rest) ]

  -- `ExecInternal::completed`
  unfoldable pub complete : ℕ → Exec W F C → ProcessId → ℕ → Outcome (Exec W F C)
  complete fuel e pid exit_code = do
    e₁ ← expect_ok (report e pid exit_code)
    (ts, machine) ← Machine.completed depth e₁.machine pid (from_exit_code exit_code)
    process_tasks fuel (record e₁ { machine = machine }) ts

  unfoldable pub open_output_file : Exec W F C → WritePipe → Bytes → Outcome (Exec W F C)
  open_output_file e p path = do
    assert (not (contains_key e.open_handles p))
    (f, world) ← system.create_file e.world path
    ok (record e {
      world = world;
      open_handles = insert e.open_handles p (record { read_side = none; write_side = some f });
    })

  unfoldable pub open_input_file : Exec W F C → ReadPipe → Bytes → Outcome (Exec W F C)
  open_input_file e p path = do
    assert (not (contains_key e.open_handles p))
    (f, world) ← system.open_file e.world path
    ok (record e {
      world = world;
      open_handles = insert e.open_handles p (record { read_side = some f; write_side = none });
    })

  -- `ExecInternal::pipe_message`
  unfoldable pub receive_message : Exec W F C → GenericPipe → PipeMessage → Outcome (Exec W F C)
  receive_message e p begin_read = do
    (handle, e₁) ← read_end system e p
    ok (record e₁ {
      world = system.read_in_thread e₁.world p handle;
      actively_reading = set_insert e₁.actively_reading p;
    })
  receive_message e p (read read_up_to) = ok e
  receive_message e p (closed end_offset) = panic
  receive_message e p (payload bytes end_offset) = panic

  unfoldable pub cancel : Exec W F C → ProcessId → Outcome (Exec W F C)
  cancel e pid = do
    s ← status e.machine pid
    elim s [
      | running_as state ↦ elim state [
        | child handle ↦ do world ← system.kill e.world handle; ok (record e { world = world })
        | awaiting_edit ↦ panic
      ]
      | exited x ↦ ok e
    ]

  unfoldable pub finish_edit : ℕ → Exec W F C → ℕ → Bytes → Outcome (Exec W F C)
  finish_edit fuel e edit_id text = do
    (pid, path) ← unwrap (e.waiting_edits edit_id)
    let e₁ = record e { waiting_edits = remove e.waiting_edits edit_id }
    (f, world) ← system.create_file e₁.world path
    written ← expect_ok (system.write_all world f text)
    complete fuel (record e₁ { world = written }) pid 0

  -- one event of the loop of `run_handler`
  unfoldable pub handle_event : ℕ → Exec W F C → ExecEvent → Outcome (Exec W F C)
  handle_event fuel e (enqueue_job pid cmd block_for) = do
    (ts, machine) ← enqueue e.machine pid cmd block_for
    expect_ok (process_tasks fuel (record e { machine = machine }) ts)
  handle_event fuel e (job_completed pid exit_status) = expect_ok (complete fuel e pid exit_status)
  handle_event fuel e (open_output p path) = expect_ok (open_output_file e p path)
  handle_event fuel e (open_input p path) = expect_ok (open_input_file e p path)
  handle_event fuel e (cancel_exec pid) = expect_ok (cancel e pid)
  handle_event fuel e (pipe_ended p end_offset) = do
    world ← expect_ok (system.on_pipe_closed e.world p end_offset)
    ok (record e { world = world })
  handle_event fuel e (pipe_output p text end_offset) = do
    world ← expect_ok (system.on_pipe_output e.world p text end_offset)
    ok (record e { world = world })
  handle_event fuel e (pipe_message p msg) = expect_ok (receive_message e p msg)
  handle_event fuel e (edit_complete edit_id text) = expect_ok (finish_edit fuel e edit_id text)
