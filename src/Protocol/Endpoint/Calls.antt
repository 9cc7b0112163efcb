-- ===== src/Protocol/Endpoint/Calls.antt =====
-- The calls that can be made of an endpoint, as a data type, and which of them it accepts.
use nak.Base.{
  ℕ, ◌==◌, Bool, true, false, not, ◌&&◌, List, Option, none, some, Bytes, Outcome, ok, ◌>>=◌, Map,
  contains_key,
}
use nak.Protocol.{
  Command, Condition, ProcessId, ReadPipe, RemoteId, WritePipes, RemoteState, ProcessState,
}
use nak.Protocol.Endpoint.{
  Transport, Json, Endpoint, new_pipe, new_remote, new_command, new_output_file, new_input_file,
  close_remote, close_process, send_edit, pipe_read, pipe_begin_read,
}

-- the calls of `Endpoint`
pub data Call : Type 0 where
  call_pipe : Call
  call_remote : RemoteId → Command → Call
  call_command : RemoteId → Command → List (ProcessId × Condition) → WritePipes → Call
  call_output_file : RemoteId → Bytes → Call
  call_input_file : RemoteId → Bytes → Call
  call_close_remote : RemoteId → Call
  call_close_process : ProcessId → Call
  call_finish_edit : ProcessId → ℕ → Bytes → Call
  call_read : RemoteId → ReadPipe → ℕ → Call
  call_begin_read : RemoteId → ReadPipe → Call

-- the remote that a job was started on
abbrev owner_of : Option ProcessState → Option RemoteId
owner_of none = none
owner_of (some s) = some s.parent

abbrev known_in : Map RemoteState → Option RemoteId → Bool
known_in remotes none = false
known_in remotes (some r) = contains_key remotes r

-- how many ids a call uses up
abbrev pub hands_out : Call → ℕ
hands_out (call_close_remote r) = 0
hands_out (call_close_process p) = 0
hands_out (call_finish_edit p edit_id contents) = 0
hands_out (call_read r p n) = 0
hands_out (call_begin_read r p) = 0
hands_out _ = 1

module _ {T H : Type 0} where
  -- the calls that the endpoint accepts
  unfoldable pub accepts : Endpoint T H → Call → Bool
  accepts e call_pipe = true
  accepts e (call_remote r command) =
      contains_key e.remotes r && not (contains_key e.remotes e.ids.next_id)
  accepts e (call_command r command block_for pipes) = contains_key e.remotes r
  accepts e (call_output_file r path) = contains_key e.remotes r
  accepts e (call_input_file r path) = contains_key e.remotes r
  accepts e (call_close_remote r) = not (r == 0) && contains_key e.remotes r
  accepts e (call_close_process p) = known_in e.remotes (owner_of (e.jobs p))
  accepts e (call_finish_edit p edit_id contents) = known_in e.remotes (owner_of (e.jobs p))
  accepts e (call_read r p n) = true
  accepts e (call_begin_read r p) = true

module _ {T H : Type 0} (transport : Transport T) (json : Json) where
  unfoldable pub perform : Endpoint T H → Call → Outcome (Option ℕ × Endpoint T H)
  perform e call_pipe = ok (some (new_pipe e).0.0, (new_pipe e).1)
  perform e (call_remote r command) = do
    (id, e₁) ← new_remote transport json e r command
    ok (some id, e₁)
  perform e (call_command r command block_for pipes) = do
    (id, e₁) ← new_command transport json e r command block_for pipes
    ok (some id, e₁)
  perform e (call_output_file r path) = do
    (id, e₁) ← new_output_file transport json e r path
    ok (some id, e₁)
  perform e (call_input_file r path) = do
    (id, e₁) ← new_input_file transport json e r path
    ok (some id, e₁)
  perform e (call_close_remote r) = do e₁ ← close_remote transport json e r; ok (none, e₁)
  perform e (call_close_process p) = do e₁ ← close_process transport json e p; ok (none, e₁)
  perform e (call_finish_edit p edit_id contents) = do
    e₁ ← send_edit transport json e p edit_id contents
    ok (none, e₁)
  perform e (call_read r p n) = do e₁ ← pipe_read transport json e r p n; ok (none, e₁)
  perform e (call_begin_read r p) = do e₁ ← pipe_begin_read transport json e r p; ok (none, e₁)
