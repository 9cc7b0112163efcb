-- ===== src/Protocol.antt =====
-- protocol/src/lib.rs: the messages between the frontend and the backends, and the counter of ids.
-- The newtypes over `usize` (`ProcessId`, `ReadPipe`, `WritePipe`, `GenericPipe`, `RemoteId`) are
-- numbers, so `to_generic`, `to_read` and `to_write` are the identity.
pub mod Ids
pub mod Endpoint
pub mod Route
use nak.Base.{
  ℕ, ◌==◌, ◌++◌, Bool, true, false, if◌then◌else◌, List, Option, Bytes, Outcome, ok, panic,
}

pub data Command : Type 0 where
  unknown : Bytes → List Bytes → Command
  set_directory : Bytes → Command
  get_directory : Command
  edit : Bytes → Command

-- `Command::add_args`
unfoldable pub add_args : Command → List Bytes → Outcome Command
add_args (unknown path args) new_args = ok (unknown path (args ++ new_args))
add_args (set_directory d) new_args = panic
add_args get_directory new_args = panic
add_args (edit p) new_args = panic

pub data ExitStatus : Type 0 where
  success failure : ExitStatus

-- `ExitStatus`'s derived `==`
abbrev pub status_eq : ExitStatus → ExitStatus → Bool
status_eq success success = true
status_eq failure failure = true
status_eq success failure = false
status_eq failure success = false

-- An `i64` exit code is its 64-bit pattern.
unfoldable pub from_exit_code : ℕ → ExitStatus
from_exit_code code = if code == 0 then success else failure

abbrev pub Condition : Type 0
Condition = Option ExitStatus

abbrev pub ProcessId : Type 0
ProcessId = ℕ

abbrev pub ReadPipe : Type 0
ReadPipe = ℕ

abbrev pub WritePipe : Type 0
WritePipe = ℕ

abbrev pub GenericPipe : Type 0
GenericPipe = ℕ

abbrev pub RemoteId : Type 0
RemoteId = ℕ

pub record ReadPipes : Type 0 where
  pub stdin : WritePipe
  pub stdout : ReadPipe
  pub stderr : ReadPipe

pub record WritePipes : Type 0 where
  pub stdin : ReadPipe
  pub stdout : WritePipe
  pub stderr : WritePipe

pub record WriteProcess : Type 0 where
  pub id : ProcessId
  pub pipes : WritePipes

pub record ReadProcess : Type 0 where
  pub id : ProcessId
  pub pipes : ReadPipes

pub record AbstractProcess : Type 0 where
  pub id : ProcessId
  pub stdin : ℕ
  pub stdout : ℕ
  pub stderr : ℕ

pub data PipeMessage : Type 0 where
  begin_read : PipeMessage
  payload : Bytes → ℕ → PipeMessage
  read : ℕ → PipeMessage
  closed : ℕ → PipeMessage

pub record PipeEnvelope : Type 0 where
  pub id : ℕ
  pub msg : PipeMessage

pub data RemoteRequest : Type 0 where
  begin_command : List (ProcessId × Condition) → AbstractProcess → Command → RemoteRequest
  cancel_command : ProcessId → RemoteRequest
  begin_remote : ℕ → Command → RemoteRequest
  open_output_file : ℕ → Bytes → RemoteRequest
  open_input_file : ℕ → Bytes → RemoteRequest
  end_remote : ℕ → RemoteRequest
  list_directory : ℕ → Bytes → RemoteRequest
  finish_edit : ℕ → Bytes → RemoteRequest
  pipe : PipeEnvelope → RemoteRequest

pub record RemoteInfo : Type 0 where
  pub hostname : Bytes
  pub username : Bytes
  pub working_dir : Bytes

pub data RemoteResponse : Type 0 where
  remote_ready : RemoteInfo → RemoteResponse
  command_done : ProcessId → ℕ → RemoteResponse
  directory_listing : ℕ → List Bytes → RemoteResponse
  -- command_id, edit_id, name, data
  edit_request : ProcessId → ℕ → Bytes → Bytes → RemoteResponse
  pipe : PipeEnvelope → RemoteResponse

pub record Request : Type 0 where
  pub remote_id : ℕ
  pub message : RemoteRequest

pub record Response : Type 0 where
  pub remote_id : ℕ
  pub message : RemoteResponse

pub record RemoteState : Type 0 where
  pub parent : Option RemoteId

pub record ProcessState : Type 0 where
  pub parent : RemoteId
