-- ===== src/Protocol/Endpoint.antt =====
-- protocol/src/comm.rs, the frontend's side: `Endpoint`, its ids, remotes, jobs and pipes. The
-- transport, the JSON printer and the handler are the callers' or a library's: they are parameters.
-- An `Err` of the transport ends the operation, and the state that it leaves is not modelled.

pub mod Calls
pub mod Tree
pub mod Perform
pub mod Runs
use nak.Base.{
  ℕ, ◌++◌, Bool, true, not, List, [], ◌∷◌, Option, none, some, Bytes, Outcome, ok, assert, unwrap,
  ◌>>=◌, ◌>>◌, Map, empty, insert, remove, is_some, NumSet, no_elements, set_insert, contains_key,
}
use nak.Protocol.{
  Command, Condition, ProcessId, ReadPipe, WritePipe, GenericPipe, RemoteId, WritePipes,
  AbstractProcess, PipeMessage, PipeEnvelope, RemoteRequest, RemoteInfo, RemoteResponse, Request,
  Response, RemoteState, ProcessState, begin_read, read, begin_command, cancel_command,
  begin_remote, end_remote, remote_ready, command_done, directory_listing, edit_request,
}
use nak.Protocol.Ids.{Ids, next}

pub record Transport (T : Type 0) : Type 0 where
  pub send : T → Bytes → Outcome T

-- serde_json's `to_string` and `from_str` at the two messages
pub record Json : Type 0 where
  pub print_request : Request → Bytes
  pub read_request : Bytes → Option Request
  pub print_response : Response → Bytes
  pub read_response : Bytes → Option Response

pub record Endpoint (T H : Type 0) : Type 0 where
  pub trans : T
  pub handler : H
  pub ids : Ids
  pub remotes : Map RemoteState
  pub jobs : Map ProcessState
  pub pipes : NumSet

pub record EndpointHandler (T H : Type 0) : Type 0 where
  pub on_remote_ready : Endpoint T H → RemoteId → RemoteInfo → Outcome (Endpoint T H)
  pub on_command_done : Endpoint T H → ProcessId → ℕ → Outcome (Endpoint T H)
  pub on_directory_listing : Endpoint T H → ℕ → List Bytes → Outcome (Endpoint T H)
  -- edit_id, command_id, name, data
  pub on_edit_request : Endpoint T H → ℕ → ProcessId → Bytes → Bytes → Outcome (Endpoint T H)
  pub on_pipe : Endpoint T H → GenericPipe → PipeMessage → Outcome (Endpoint T H)

abbrev newline : Bytes
newline = 10 ∷ []

unfoldable pub ser_to_endpoint : Json → RemoteId → RemoteRequest → Bytes
ser_to_endpoint json remote message =
    json.print_request (record { remote_id = remote; message = message }) ++ newline

unfoldable pub ser_to_frontend : Json → RemoteId → RemoteResponse → Bytes
ser_to_frontend json remote message =
    json.print_response (record { remote_id = remote; message = message }) ++ newline

module _ {T H : Type 0} where
  -- `Endpoint::new`
  unfoldable pub connect : T → H → Endpoint T H
  connect trans handler = record {
    trans = trans;
    handler = handler;
    ids = record { next_id = 0 };
    remotes = insert empty 0 (record { parent = none });
    jobs = empty;
    pipes = no_elements;
  }

  -- `Endpoint::receive`
  unfoldable pub receive : EndpointHandler T H → Endpoint T H → Response → Outcome (Endpoint T H)
  receive h e response = elim response.message [
    | remote_ready info ↦ h.on_remote_ready e response.remote_id info
    | command_done id exit_code ↦ h.on_command_done e id exit_code
    | directory_listing id items ↦ h.on_directory_listing e id items
    | edit_request command_id edit_id name contents ↦
        h.on_edit_request e edit_id command_id name contents
    | RemoteResponse.pipe envelope ↦ do
      assert (e.pipes envelope.id)
      h.on_pipe e envelope.id envelope.msg
  ]

  -- `Endpoint::pipe`
  unfoldable pub new_pipe : Endpoint T H → (ReadPipe × WritePipe) × Endpoint T H
  new_pipe e =
      let id = (next e.ids).0 in
      ((id, id), record e { ids = (next e.ids).1; pipes = set_insert e.pipes id })

module _ {T H : Type 0} (transport : Transport T) (json : Json) where
  -- `self.trans.send(&ser_to_endpoint(remote, message))?`
  unfoldable pub transmit : Endpoint T H → RemoteId → RemoteRequest → Outcome (Endpoint T H)
  transmit e remote message = do
    t ← transport.send e.trans (ser_to_endpoint json remote message)
    ok (record e { trans = t })

  -- `Endpoint::remote`
  unfoldable pub new_remote : Endpoint T H → RemoteId → Command → Outcome (RemoteId × Endpoint T H)
  new_remote e remote command = do
    assert (contains_key e.remotes remote)
    let id = (next e.ids).0
    e₁ ← transmit (record e { ids = (next e.ids).1 }) remote (begin_remote id command)
    assert (not (contains_key e₁.remotes id))
    ok (id, record e₁ { remotes = insert e₁.remotes id (record { parent = some remote }) })

  -- `Endpoint::command`
  unfoldable pub new_command :
      Endpoint T H
      → RemoteId
      → Command
      → List (ProcessId × Condition)
      → WritePipes
      → Outcome (ProcessId × Endpoint T H)
  new_command e remote command block_for pipes = do
    assert (contains_key e.remotes remote)
    let id = (next e.ids).0
    let process : AbstractProcess = record {
      id = id;
      stdin = pipes.stdin;
      stdout = pipes.stdout;
      stderr = pipes.stderr;
    }
    e₁ ←
        transmit (record e { ids = (next e.ids).1 }) remote
          (begin_command block_for process command)
    ok (id, record e₁ { jobs = insert e₁.jobs id (record { parent = remote }) })

  -- `Endpoint::open_output_file`
  unfoldable pub new_output_file :
      Endpoint T H → RemoteId → Bytes → Outcome (WritePipe × Endpoint T H)
  new_output_file e remote path = do
    assert (contains_key e.remotes remote)
    let id = (next e.ids).0
    e₁ ←
        transmit (record e { ids = (next e.ids).1; pipes = set_insert e.pipes id }) remote
          (RemoteRequest.open_output_file id path)
    ok (id, e₁)

  -- `Endpoint::open_input_file`
  unfoldable pub new_input_file :
      Endpoint T H → RemoteId → Bytes → Outcome (ReadPipe × Endpoint T H)
  new_input_file e remote path = do
    assert (contains_key e.remotes remote)
    let id = (next e.ids).0
    e₁ ←
        transmit (record e { ids = (next e.ids).1; pipes = set_insert e.pipes id }) remote
          (RemoteRequest.open_input_file id path)
    ok (id, e₁)

  unfoldable pub close_remote : Endpoint T H → RemoteId → Outcome (Endpoint T H)
  close_remote e remote = do
    state ← unwrap (e.remotes remote)
    parent ← unwrap state.parent
    transmit (record e { remotes = remove e.remotes remote }) parent (end_remote remote)

  unfoldable pub close_process : Endpoint T H → ProcessId → Outcome (Endpoint T H)
  close_process e id = do
    process_state ← unwrap (e.jobs id)
    assert (contains_key e.remotes process_state.parent)
    transmit (record e { jobs = remove e.jobs id }) process_state.parent (cancel_command id)

  -- `Endpoint::finish_edit`
  unfoldable pub send_edit : Endpoint T H → ProcessId → ℕ → Bytes → Outcome (Endpoint T H)
  send_edit e command_id edit_id contents = do
    process_state ← unwrap (e.jobs command_id)
    assert (contains_key e.remotes process_state.parent)
    transmit e process_state.parent (RemoteRequest.finish_edit edit_id contents)

  unfoldable pub pipe_read : Endpoint T H → RemoteId → ReadPipe → ℕ → Outcome (Endpoint T H)
  pipe_read e remote id read_up_to =
      transmit e remote (RemoteRequest.pipe (record { id = id; msg = read read_up_to }))

  unfoldable pub pipe_begin_read : Endpoint T H → RemoteId → ReadPipe → Outcome (Endpoint T H)
  pipe_begin_read e remote id =
      transmit e remote (RemoteRequest.pipe (record { id = id; msg = begin_read }))
