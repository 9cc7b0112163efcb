-- ===== src/Backend/Service/Arrival.antt =====
-- What the calls of an endpoint come to at its own backend: events in the queue of its thread.
use mathlib.Core.List.{append-nil}
use nak.Base.{
  ◌==◌, ◌≡◌, refl, sym, ◌++◌, Bool, true, false, List, [], ◌∷◌, Option, none, some, Bytes, Outcome,
  ok, ◌>>=◌, Returns, contains_key, arith, Option-cases, inl, inr,
}
use nak.Protocol.{ProcessState, RemoteRequest, begin_command, cancel_command, begin_read, read}
use nak.Protocol.Ids.{next}
use nak.Protocol.Endpoint.{
  Transport, Json, Endpoint, transmit, ser_to_endpoint, new_pipe, new_command, new_output_file,
  new_input_file, close_process, send_edit, pipe_read, pipe_begin_read,
}
use nak.Protocol.Endpoint.Calls.{
  Call, call_pipe, call_remote, call_command, call_output_file, call_input_file, call_close_remote,
  call_close_process, call_finish_edit, call_read, call_begin_read, accepts, perform,
}
use nak.Protocol.Route.{route}
use nak.Backend.Exec.Events.{
  ExecEvent, enqueue_job, open_output, open_input, cancel_exec, pipe_message, edit_complete,
}
use nak.Backend.Relay.{Relay, handle_line, handle_request}
use nak.Backend.Relay.Delivery.{ReadsBack, handle_line-ser_to_endpoint}
use nak.Backend.Service.{Queue, Outside, async_backend}

-- a transport that keeps the lines it was sent
abbrev pub wire : Transport (List Bytes)
wire = record { send = λ lines line. ok (lines ++ line ∷ []) }

abbrev owned : Option ProcessState → Bool
owned none = false
owned (some s) = s.parent == 0

module _ {H : Type 0} where
  -- the calls that are for remote 0, and that its backend does not hand to another program
  abbrev pub is_own : Endpoint (List Bytes) H → Call → Bool
  is_own e call_pipe = true
  is_own e (call_remote r command) = false
  is_own e (call_command r command block_for pipes) = r == 0
  is_own e (call_output_file r path) = r == 0
  is_own e (call_input_file r path) = r == 0
  is_own e (call_close_remote r) = false
  is_own e (call_close_process p) = owned (e.jobs p)
  is_own e (call_finish_edit p edit_id text) = owned (e.jobs p)
  is_own e (call_read r p n) = r == 0
  is_own e (call_begin_read r p) = r == 0

  -- the events that a call is to lead to
  abbrev pub events_of : Endpoint (List Bytes) H → Call → Queue
  events_of e call_pipe = []
  events_of e (call_remote r command) = []
  events_of e (call_command r command block_for pipes) =
      enqueue_job e.ids.next_id (record { cmd = command; pipes = pipes }) block_for ∷ []
  events_of e (call_output_file r path) = open_output e.ids.next_id path ∷ []
  events_of e (call_input_file r path) = open_input e.ids.next_id path ∷ []
  events_of e (call_close_remote r) = []
  events_of e (call_close_process p) = cancel_exec p ∷ []
  events_of e (call_finish_edit p edit_id text) = edit_complete edit_id text ∷ []
  events_of e (call_read r p n) = pipe_message p (read n) ∷ []
  events_of e (call_begin_read r p) = pipe_message p begin_read ∷ []

module _ (json : Json) (outside : Outside) where
  unfoldable pub handle_lines : Relay Queue → List Bytes → Outcome (Relay Queue)
  handle_lines r [] = ok r
  handle_lines r (line ∷ lines) = do
    r₁ ← handle_line json (async_backend outside) r line
    handle_lines r₁ lines

  -- The lines that were sent lead to the events.
  abbrev pub Arrives : Relay Queue → Queue → List Bytes → List Bytes → Type 0
  Arrives r events before after =
      (lines : List Bytes) × (after ≡ before ++ lines)
      × (handle_lines r lines ≡ ok (record r { backend = r.backend ++ events }))

module _ (json : Json) (back : ReadsBack json) (outside : Outside) where
  one_line :
      (r : Relay Queue) (event : ExecEvent) (message : RemoteRequest) (before : List Bytes)
      → route (async_backend outside) (record { remote_id = 0; message = message }) r.backend
        ≡ ok (r.backend ++ event ∷ [])
      → Arrives json outside r (event ∷ []) before (before ++ ser_to_endpoint json 0 message ∷ [])
  unfolding handle_lines handle_request
  one_line r event message before h = (
    ser_to_endpoint json 0 message ∷ [],
    refl,
    rw (handle_line-ser_to_endpoint json back (async_backend outside) r 0 message) rw h refl,
  )

module _ {H : Type 0} (json : Json) (back : ReadsBack json) (outside : Outside) where
  -- Where the JSON library reads back what it printed: a call that an endpoint accepts, and that is
  -- for its own backend, succeeds on a transport that keeps its lines. Those lines, handled by the
  -- backend, put into the queue of the thread that runs the jobs exactly the events that the call
  -- stands for, with the ids and the pipes of the call.
  pub perform-Arrives :
      (e : Endpoint (List Bytes) H) (c : Call) (r : Relay Queue)
      → accepts e c ≡ true
      → is_own e c ≡ true
      → Returns
          (λ x. Arrives json outside r (events_of e c) e.trans x.1.trans)
          (perform wire json e c)
  unfolding perform accepts new_pipe new_command new_output_file new_input_file close_process
      send_edit pipe_read pipe_begin_read transmit next route async_backend handle_lines
  perform-Arrives e call_pipe r a o = ([], sym (append-nil e.trans), rw (append-nil r.backend) refl)
  perform-Arrives e (call_remote q command) r a o = absurd cc
  perform-Arrives e (call_command q command block_for pipes) r a o =
      let y : q ≡ 0 = ground arith in
      let k : contains_key e.remotes 0 ≡ true = ground (arith, a) in
      rw y rw k (
        one_line json back outside r
          (enqueue_job e.ids.next_id (record { cmd = command; pipes = pipes }) block_for)
          (begin_command block_for
            (record {
              id = e.ids.next_id;
              stdin = pipes.stdin;
              stdout = pipes.stdout;
              stderr = pipes.stderr;
            })
            command)
          e.trans refl)
  perform-Arrives e (call_output_file q path) r a o =
      let y : q ≡ 0 = ground arith in
      let k : contains_key e.remotes 0 ≡ true = ground (arith, a) in
      rw y rw k (
        one_line json back outside r (open_output e.ids.next_id path)
          (RemoteRequest.open_output_file e.ids.next_id path) e.trans refl)
  perform-Arrives e (call_input_file q path) r a o =
      let y : q ≡ 0 = ground arith in
      let k : contains_key e.remotes 0 ≡ true = ground (arith, a) in
      rw y rw k (
        one_line json back outside r (open_input e.ids.next_id path)
          (RemoteRequest.open_input_file e.ids.next_id path) e.trans refl)
  perform-Arrives e (call_close_remote q) r a o = absurd cc
  perform-Arrives e (call_close_process p) r a o = elim (Option-cases (e.jobs p)) [
    | inl n ↦ absurd (ground (arith, n))
    | inr (s, j) ↦
        let y : s.parent ≡ 0 = ground (arith, j) in
        let k : contains_key e.remotes 0 ≡ true = ground (arith, j, a, y) in
        rw j rw y rw k
          (one_line json back outside r (cancel_exec p) (cancel_command p) e.trans refl)
  ]
  perform-Arrives e (call_finish_edit p edit_id text) r a o = elim (Option-cases (e.jobs p)) [
    | inl n ↦ absurd (ground (arith, n))
    | inr (s, j) ↦
        let y : s.parent ≡ 0 = ground (arith, j) in
        let k : contains_key e.remotes 0 ≡ true = ground (arith, j, a, y) in
        rw j rw y rw k (
          one_line json back outside r (edit_complete edit_id text)
            (RemoteRequest.finish_edit edit_id text) e.trans refl)
  ]
  perform-Arrives e (call_read q p n) r a o =
      let y : q ≡ 0 = ground arith in
      rw y (
        one_line json back outside r (pipe_message p (read n))
          (RemoteRequest.pipe (record { id = p; msg = read n })) e.trans refl)
  perform-Arrives e (call_begin_read q p) r a o =
      let y : q ≡ 0 = ground arith in
      rw y (
        one_line json back outside r (pipe_message p begin_read)
          (RemoteRequest.pipe (record { id = p; msg = begin_read })) e.trans refl)
