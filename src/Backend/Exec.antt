-- ===== src/Backend/Exec.antt =====
-- backend/src/exec.rs: the thread that runs the jobs. The operating system and the `Handler` are
-- parameters that act on a world `W`; `F` is an open file or pipe end, `C` a child process. A thread
-- that the code starts is one action on the world.
pub mod Handles
pub mod Events
use nak.Base.{
  ℕ, zero, suc, ◌++◌, Bool, true, false, if◌then◌else◌, not, ◌==◌, List, [], ◌∷◌, Option, none,
  some, Bytes, codes, length, Outcome, ok, fault, failed, io, out_of_fuel, panic, assert, unwrap,
  ◌>>=◌, ◌>>◌, Map, empty, insert, remove, NumSet, no_elements, set_insert, contains_key,
}
use nak.Protocol.{
  Command, unknown, set_directory, get_directory, edit, ProcessId, ReadPipe, WritePipe, GenericPipe,
  WritePipes, failure, from_exit_code, PipeMessage, begin_read, read, payload, closed, Condition,
}
use nak.Protocol.Ids.{Ids, next}
use nak.Backend.Machine.{
  Machine, Task, start_task, condition_failed, Conditions, running_as, exited, status, start,
  enqueue, completed, start_completed,
}
use nak.Backend.Machine

pub record RunCmd : Type 0 where
  pub cmd : Command
  pub pipes : WritePipes

-- a `Result`, with the `Debug` text of its error
pub data Result {ℓ} (A : Type ℓ) : Type ℓ where
  done : A → Result A
  err : Bytes → Result A

pub data FileRead : Type 0 where
  contents : Bytes → FileRead
  not_found : FileRead
  unreadable : Bytes → FileRead

pub data ProcessState (C : Type 0) : Type 0 where
  child : C → ProcessState C
  awaiting_edit : ProcessState C

pub data RunResult (C : Type 0) : Type 0 where
  process : ProcessState C → RunResult C
  already_done : ℕ → RunResult C

pub record Pair (F : Type 0) : Type 0 where
  pub read_side : Option F
  pub write_side : Option F

-- What the code asks of the system, and of `Handler`; a call that the code unwraps, or on which it
-- uses `?`, returns an `Outcome`.
pub record System (W F C : Type 0) : Type 0 where
  pub make_pipe : W → Outcome ((F × F) × W)
  -- stdin, stdout, stderr
  pub spawn : W → Bytes → List Bytes → F → F → F → Result C × W
  pub set_current_dir : W → Bytes → Result (Unit {0}) × W
  pub current_dir : W → Result Bytes
  pub read_file : W → Bytes → FileRead
  pub create_file : W → Bytes → Outcome (F × W)
  pub open_file : W → Bytes → Outcome (F × W)
  pub write_all : W → F → Bytes → Outcome W
  -- a thread that writes and then closes; it panics alone
  pub write_in_thread : W → F → Bytes → W
  pub close : W → F → W
  pub read_in_thread : W → GenericPipe → F → W
  pub kill : W → C → Outcome W
  pub on_pipe_output : W → GenericPipe → Bytes → ℕ → Outcome W
  pub on_pipe_closed : W → GenericPipe → ℕ → Outcome W
  pub on_command_result : W → ProcessId → ℕ → Outcome W
  pub on_edit_request : W → ProcessId → ℕ → Bytes → Bytes → Result (Unit {0}) × W

pub record Exec (W F C : Type 0) : Type 0 where
  pub world : W
  pub edit_ids : Ids
  pub machine : Machine RunCmd (ProcessState C)
  pub open_handles : Map (Pair F)
  pub actively_reading : NumSet
  pub waiting_edits : Map (ProcessId × Bytes)

module _ {W F C : Type 0} where
  -- the state that `Exec::new` gives its thread
  unfoldable pub begin_exec : W → Exec W F C
  begin_exec w = record {
    world = w;
    edit_ids = record { next_id = 0 };
    machine = Machine.new;
    open_handles = empty;
    actively_reading = no_elements;
    waiting_edits = empty;
  }

module _ {W F C : Type 0} (system : System W F C) where
  unfoldable pub read_end : Exec W F C → ReadPipe → Outcome (F × Exec W F C)
  read_end e p = elim (e.open_handles p) [
    | some pair ↦ do
      f ← unwrap pair.read_side
      ok (f, record e { open_handles = insert e.open_handles p (record pair { read_side = none }) })
    | none ↦ do
      ((r, w), world) ← system.make_pipe e.world
      ok (
        r,
        record e {
          world = world;
          open_handles = insert e.open_handles p (record { read_side = none; write_side = some w });
        },
      )
  ]

  unfoldable pub write_end : Exec W F C → WritePipe → Outcome (F × Exec W F C)
  write_end e p = elim (e.open_handles p) [
    | some pair ↦ do
      f ← unwrap pair.write_side
      ok (
        f,
        record e { open_handles = insert e.open_handles p (record pair { write_side = none }) },
      )
    | none ↦ do
      ((r, w), world) ← system.make_pipe e.world
      ok (
        w,
        record e {
          world = world;
          open_handles = insert e.open_handles p (record { read_side = some r; write_side = none });
        },
      )
  ]

  -- `pipe_and_close` in `pipe_output_and_close`
  abbrev pub pipe_and_close : Exec W F C → F → Bytes → Exec W F C
  pipe_and_close e handle [] = record e { world = system.close e.world handle }
  pipe_and_close e handle (b ∷ bs) = record e {
    world = system.write_in_thread e.world handle (b ∷ bs);
  }

  unfoldable pub pipe_output_and_close :
      Exec W F C → WritePipes → Bytes → Bytes → Outcome (Exec W F C)
  pipe_output_and_close e pipes stdout stderr = do
    (out, e₁) ← write_end e pipes.stdout
    let e₂ = pipe_and_close e₁ out stdout
    (error, e₃) ← write_end e₂ pipes.stderr
    ok (pipe_and_close e₃ error stderr)

  -- `begin_edit_request`, and the result of `run` after it
  unfoldable pub begin_edit_request :
      Exec W F C → ProcessId → Bytes → Bytes → Result (RunResult C) × Exec W F C
  begin_edit_request e pid path text =
      let edit_id = (next e.edit_ids).0 in
      let (answer, world) = system.on_edit_request e.world pid edit_id path text in
      (
        elim answer [ done u ↦ done (process awaiting_edit) | err t ↦ err t ],
        record e {
          world = world;
          edit_ids = (next e.edit_ids).1;
          waiting_edits = insert e.waiting_edits edit_id (pid, path);
        },
      )

  -- `ExecInternal::run`
  unfoldable pub run : Exec W F C → ProcessId → RunCmd → Outcome (Result (RunResult C) × Exec W F C)
  run e pid c = elim c.cmd [
    | unknown path args ↦ do
      (stdin, e₁) ← read_end e c.pipes.stdin
      (stdout, e₂) ← write_end e₁ c.pipes.stdout
      (stderr, e₃) ← write_end e₂ c.pipes.stderr
      let (spawned, world) = system.spawn e₃.world path args stdin stdout stderr
      ok (
        elim spawned [ done handle ↦ done (process (child handle)) | err t ↦ err t ],
        record e₃ { world = world },
      )
    | set_directory dir ↦
        let (answer, world) = system.set_current_dir e.world dir in
        let e₁ = record e { world = world } in
        elim answer [
          | done u ↦ do
            e₂ ← pipe_output_and_close e₁ c.pipes (codes "Success: ()") []
            ok (done (already_done 0), e₂)
          | err t ↦ do
            e₂ ← pipe_output_and_close e₁ c.pipes (codes "Error: " ++ t) []
            ok (done (already_done 1), e₂)
        ]
    | get_directory ↦ elim (system.current_dir e.world) [
      | done dir ↦ do
        e₁ ← pipe_output_and_close e c.pipes (dir ++ 10 ∷ []) []
        ok (done (already_done 0), e₁)
      | err t ↦ do
        e₁ ← pipe_output_and_close e c.pipes [] (codes "Error: " ++ t)
        ok (done (already_done 1), e₁)
    ]
    | edit path ↦ elim (system.read_file e.world path) [
      | contents text ↦ ok (begin_edit_request e pid path text)
      | not_found ↦ ok (begin_edit_request e pid path [])
      | unreadable t ↦ ok (err t, e)
    ]
  ]
