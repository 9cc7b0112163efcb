-- ===== src/Backend/Relay/Delivery.antt =====
-- What comes of a line that an endpoint sends: the backend that it is for handles the request, one
-- backend further on at most.
use nak.Base.{
  ℕ, ◌==◌, ◌≡◌, refl, ◌∙◌, >>=_assoc, ◌++◌, List, [], ◌∷◌, true, false, none, some, Bytes,
  expect_ok, ok, panic, ◌>>=◌, insert, contains_key,
}
use nak.Protocol.{
  Request, Response, RemoteRequest, RemoteResponse, Command, Condition, ProcessId, WritePipes,
  begin_command,
}
use nak.Protocol.Ids.{next}
use nak.Protocol.Endpoint.{
  Transport, Json, Endpoint, ser_to_endpoint, ser_to_frontend, transmit, new_command,
}
use nak.Protocol.Route.{BackendHandler, route}
use nak.Backend.Relay.{Relay, handle_request, handle_line, relay_response}

-- serde_json reads back what it printed, with the newline that the code puts after it.
pub record ReadsBack (json : Json) : Type 0 where
  pub reads_request : (r : Request) → json.read_request (json.print_request r ++ 10 ∷ []) ≡ some r
  pub reads_response :
      (r : Response) → json.read_response (json.print_response r ++ 10 ∷ []) ≡ some r

module _ {B : Type 0} (json : Json) (back : ReadsBack json) (handler : BackendHandler B) where
  pub handle_line-ser_to_endpoint :
      (r : Relay B) (remote : ℕ) (message : RemoteRequest)
      → handle_line json handler r (ser_to_endpoint json remote message)
        ≡ handle_request json handler r (record { remote_id = remote; message = message })
  unfolding handle_line ser_to_endpoint
  handle_line-ser_to_endpoint r remote message =
      rw (back.reads_request (record { remote_id = remote; message = message }), handle_line) refl

  -- A request for a backend that this one started, under an id that is not 0, is written to the
  -- input of that backend; there it is handled by the backend itself.
  pub handle_line_twice :
      (r sub : Relay B) (remote : ℕ) (message : RemoteRequest) (lines : List Bytes)
      → (remote == 0) ≡ false
      → r.subbackends remote ≡ some lines
      → (line : Bytes) × (handle_line json handler r (ser_to_endpoint json remote message)
          ≡ ok (record r { subbackends = insert r.subbackends remote (lines ++ line ∷ []) }))
        × (handle_line json handler sub line ≡ (
            expect_ok (route handler (record { remote_id = 0; message = message }) sub.backend)
            >>= λ b. ok (record sub { backend = b })))
  unfolding handle_request
  handle_line_twice r sub remote message lines z h = (
    ser_to_endpoint json 0 message,
    handle_line-ser_to_endpoint r remote message ∙ rw z rw h refl,
    handle_line-ser_to_endpoint sub 0 message,
  )

  -- A request for a backend that this one did not start, such as a remote of a remote, panics.
  handle_line-panic :
      (r : Relay B) (remote : ℕ) (message : RemoteRequest)
      → (remote == 0) ≡ false
      → r.subbackends remote ≡ none
      → handle_line json handler r (ser_to_endpoint json remote message) ≡ panic
  unfolding handle_request
  handle_line-panic r remote message z h =
      handle_line-ser_to_endpoint r remote message ∙ rw z rw h refl

module _ (json : Json) (back : ReadsBack json) where
  -- A response that passes through two backends bears the id that the outer one gave to the inner
  -- one: the id that the inner one put on it is lost.
  pub relay_response-relay_response :
      (outer inner remote : ℕ) (message : RemoteResponse)
      → (relay_response json inner (ser_to_frontend json remote message)
          >>= relay_response json outer)
        ≡ ok (ser_to_frontend json outer message)
  unfolding relay_response ser_to_frontend
  relay_response-relay_response outer inner remote message =
      rw (back.reads_response (record { remote_id = remote; message = message })) rw
        (back.reads_response (record { remote_id = inner; message = message })) refl

module _ {T H B : Type 0} (transport : Transport T) (json : Json) (back : ReadsBack json)
    (handler : BackendHandler B) where
  -- For a command on its own backend, the endpoint sends one line, holds the command's id as a job,
  -- and fails only if the transport does; the backend that reads the line calls `begin_command`, with
  -- that id, and with the pipes and the jobs to wait for that the endpoint was given.
  pub new_command-handle_line :
      (e : Endpoint T H) (r : Relay B) (command : Command)
      (block_for : List (ProcessId × Condition)) (pipes : WritePipes)
      → contains_key e.remotes 0 ≡ true
      → (line : Bytes) × (new_command transport json e 0 command block_for pipes ≡ (
          transport.send e.trans line >>= λ t. ok (
            e.ids.next_id,
            record e {
              trans = t;
              ids = (next e.ids).1;
              jobs = insert e.jobs e.ids.next_id (record { parent = 0 });
            },
          )))
        × (handle_line json handler r line ≡ (
            expect_ok (
              handler.on_begin_command r.backend block_for
                (record { id = e.ids.next_id; pipes = pipes })
                command)
            >>= λ b. ok (record r { backend = b })))
  unfolding new_command transmit next handle_request route
  new_command-handle_line e r command block_for pipes k =
      let message =
        begin_command block_for
          (record {
            id = e.ids.next_id;
            stdin = pipes.stdin;
            stdout = pipes.stdout;
            stderr = pipes.stderr;
          })
          command in
      (
        ser_to_endpoint json 0 message,
        rw k (>>=_assoc (transport.send e.trans (ser_to_endpoint json 0 message)) _ _),
        handle_line-ser_to_endpoint json back handler r 0 message,
      )
