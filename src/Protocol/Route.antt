-- ===== src/Protocol/Route.antt =====
-- protocol/src/comm.rs, the backend's side: `Request::route`, which hands a request to a
-- `BackendHandler`, and `Backend`, which sends the responses.
use nak.Base.{ℕ, List, Bytes, Outcome, ok, ◌>>=◌}
use nak.Protocol.{
  Command, Condition, ProcessId, ReadPipe, WritePipe, GenericPipe, WritePipes, WriteProcess,
  PipeMessage, RemoteInfo, RemoteResponse, Request, payload, closed, begin_command, cancel_command,
  begin_remote, end_remote, list_directory, remote_ready, command_done, directory_listing,
  edit_request, RemoteRequest,
}
use nak.Protocol.Endpoint.{Transport, Json, ser_to_frontend}

pub record BackendHandler (B : Type 0) : Type 0 where
  pub on_begin_command : B → List (ProcessId × Condition) → WriteProcess → Command → Outcome B
  pub on_cancel_command : B → ProcessId → Outcome B
  pub on_begin_remote : B → ℕ → Command → Outcome B
  pub on_open_output_file : B → WritePipe → Bytes → Outcome B
  pub on_open_input_file : B → ReadPipe → Bytes → Outcome B
  pub on_end_remote : B → ℕ → Outcome B
  pub on_list_directory : B → ℕ → Bytes → Outcome B
  pub on_finish_edit : B → ℕ → Bytes → Outcome B
  pub on_pipe : B → GenericPipe → PipeMessage → Outcome B

-- `Request::route`
unfoldable pub route : {B : Type 0} → BackendHandler B → Request → B → Outcome B
route h request b = elim request.message [
  | begin_command block_for process command ↦
      let pipes : WritePipes = record {
        stdin = process.stdin;
        stdout = process.stdout;
        stderr = process.stderr;
      } in
      h.on_begin_command b block_for (record { id = process.id; pipes = pipes }) command
  | cancel_command id ↦ h.on_cancel_command b id
  | begin_remote id command ↦ h.on_begin_remote b id command
  | RemoteRequest.open_output_file id path ↦ h.on_open_output_file b id path
  | RemoteRequest.open_input_file id path ↦ h.on_open_input_file b id path
  | end_remote id ↦ h.on_end_remote b id
  | list_directory id path ↦ h.on_list_directory b id path
  | RemoteRequest.finish_edit id contents ↦ h.on_finish_edit b id contents
  | RemoteRequest.pipe envelope ↦ h.on_pipe b envelope.id envelope.msg
]

pub record Backend (T : Type 0) : Type 0 where
  pub trans : T

module _ {T : Type 0} (transport : Transport T) (json : Json) where
  abbrev respond : Backend T → RemoteResponse → Outcome (Backend T)
  respond b message = do
    t ← transport.send b.trans (ser_to_frontend json 0 message)
    ok (record { trans = t })

  -- `Backend::remote_ready`
  unfoldable pub send_remote_ready : Backend T → RemoteInfo → Outcome (Backend T)
  send_remote_ready b info = respond b (remote_ready info)

  -- `Backend::pipe_data`
  unfoldable pub send_pipe_data : Backend T → WritePipe → Bytes → ℕ → Outcome (Backend T)
  send_pipe_data b id contents end_offset =
      respond b (RemoteResponse.pipe (record { id = id; msg = payload contents end_offset }))

  -- `Backend::pipe_closed`
  unfoldable pub send_pipe_closed : Backend T → WritePipe → ℕ → Outcome (Backend T)
  send_pipe_closed b id end_offset =
      respond b (RemoteResponse.pipe (record { id = id; msg = closed end_offset }))

  -- `Backend::command_done`
  unfoldable pub send_command_done : Backend T → ProcessId → ℕ → Outcome (Backend T)
  send_command_done b id exit_code = respond b (command_done id exit_code)

  -- `Backend::directory_listing`
  unfoldable pub send_directory_listing : Backend T → ℕ → List Bytes → Outcome (Backend T)
  send_directory_listing b id items = respond b (directory_listing id items)

  -- `Backend::edit_request`
  unfoldable pub send_edit_request : Backend T → ProcessId → ℕ → Bytes → Bytes → Outcome (Backend T)
  send_edit_request b command_id edit_id name contents =
      respond b (edit_request command_id edit_id name contents)
