-- ===== src/Tests/Endpoints.antt =====
-- Instances of the theorems about endpoints and relays: the transport keeps the lines it was sent,
-- and the backend keeps the ids of the commands that it was asked to begin.
use nak.Base.{
  Returns, ℕ, ◌≡◌, ◌≢◌, ◌++◌, refl, List, [], ◌∷◌, none, Bytes, Outcome, expect_ok, ok, fault,
  insert, empty, ◌>>=◌, arith,
}
use nak.Protocol.{get_directory, cancel_command, WritePipes, command_done}
use nak.Protocol.Ids.{next}
use nak.Protocol.Endpoint.{
  Transport, Endpoint, connect, new_pipe, new_remote, new_command, transmit, ser_to_endpoint,
  ser_to_frontend,
}
use nak.Protocol.Endpoint.Calls.{
  Call, call_pipe, call_remote, call_command, call_close_remote, accepts, perform,
}
use nak.Protocol.Endpoint.Tree.{IsTree}
use nak.Protocol.Endpoint.Perform.{perform-refuses}
use nak.Protocol.Endpoint.Runs.{ids_from, perform_all, connect-IsTree, perform_all-IsTree}
use nak.Protocol.Route.{BackendHandler, route}
use nak.Backend.Relay.{Relay, handle_line, relay_response}
use nak.Backend.Relay.Delivery.{
  handle_line_twice, relay_response-relay_response, new_command-handle_line,
}
use nak.Backend.Service.{Queue, Outside}
use nak.Backend.Service.Arrival.{wire, events_of, Arrives, perform-Arrives}
use nak.Tests.Codec.{codec, codec-ReadsBack}

abbrev Lines : Type 0
Lines = List Bytes

abbrev recorder : Transport Lines
recorder = record { send = λ t line. ok (t ++ line ∷ []) }

abbrev connected : Endpoint Lines (Unit {0})
connected = connect [] tt

abbrev no_pipes : WritePipes
no_pipes = record { stdin = 0; stdout = 0; stderr = 0 }

perform-refuses_example :
    perform recorder codec connected (call_close_remote 0) ≢ ok (none, connected)
unfolding accepts
perform-refuses_example =
    perform-refuses recorder codec connected (call_close_remote 0) (none, connected)
      (connect-IsTree {T = Lines} {H = Unit {0}} [] tt) refl

abbrev calls : List Call
calls = call_pipe ∷ call_remote 0 get_directory ∷ call_command 1 get_directory [] no_pipes ∷ []

abbrev after : Outcome (List ℕ × Endpoint Lines (Unit {0})) → List ℕ × Endpoint Lines (Unit {0})
after (ok r) = r
after (fault e) = ([], connected)

abbrev last : List ℕ × Endpoint Lines (Unit {0})
last = after (perform_all recorder codec connected calls)

last_lem : perform_all recorder codec connected calls ≡ ok (last.0, last.1)
unfolding perform_all perform connect new_pipe new_remote new_command transmit next ser_to_endpoint
last_lem = refl

last-ids : last.0 ≡ 0 ∷ 1 ∷ 2 ∷ []
unfolding perform_all perform connect new_pipe new_remote new_command transmit next ser_to_endpoint
last-ids = refl

perform_all-IsTree_example : (last.0 ≡ ids_from connected.ids.next_id calls) × IsTree last.1
unfolding connect
perform_all-IsTree_example =
    perform_all-IsTree recorder codec (λ t line. tt) calls connected last.1 last.0
      (connect-IsTree {T = Lines} {H = Unit {0}} [] tt) (omega arith) last_lem

-- the ids of the commands begun
abbrev log_handler : BackendHandler (List ℕ)
log_handler = record {
  on_begin_command = λ b bs p c. ok (p.id ∷ b);
  on_cancel_command = λ b p. ok b;
  on_begin_remote = λ b id c. ok b;
  on_open_output_file = λ b p path. ok b;
  on_open_input_file = λ b p path. ok b;
  on_end_remote = λ b id. ok b;
  on_list_directory = λ b id path. ok b;
  on_finish_edit = λ b id text. ok b;
  on_pipe = λ b p m. ok b;
}

-- a backend that started another one as remote 1, and that other one
abbrev outer : Relay (List ℕ)
outer = record { backend = []; subbackends = insert empty 1 [] }

abbrev inner : Relay (List ℕ)
inner = record { backend = []; subbackends = empty }

handle_line_twice_example :
    (line : Bytes) × (handle_line codec log_handler outer
        (ser_to_endpoint codec 1 (cancel_command 5))
      ≡ ok (record outer { subbackends = insert outer.subbackends 1 ([] ++ line ∷ []) }))
    × (handle_line codec log_handler inner line ≡ (
        expect_ok
          (route log_handler (record { remote_id = 0; message = cancel_command 5 }) inner.backend)
        >>= λ b. ok (record inner { backend = b })))
handle_line_twice_example =
    handle_line_twice codec codec-ReadsBack log_handler outer inner 1 (cancel_command 5) [] refl
      refl

relay_response-relay_response_example :
    (relay_response codec 2 (ser_to_frontend codec 0 (command_done 5 0)) >>= relay_response codec 1)
    ≡ ok (ser_to_frontend codec 1 (command_done 5 0))
relay_response-relay_response_example =
    relay_response-relay_response codec codec-ReadsBack 1 2 0 (command_done 5 0)

new_command-handle_line_example :
    (line : Bytes) × (new_command recorder codec connected 0 get_directory [] no_pipes ≡ (
      recorder.send connected.trans line >>= λ t. ok (
        connected.ids.next_id,
        record connected {
          trans = t;
          ids = (next connected.ids).1;
          jobs = insert connected.jobs connected.ids.next_id (record { parent = 0 });
        },
      )))
    × (handle_line codec log_handler inner line ≡ (
        expect_ok (
          log_handler.on_begin_command inner.backend []
            (record { id = connected.ids.next_id; pipes = no_pipes })
            get_directory)
        >>= λ b. ok (record inner { backend = b })))
unfolding connect
new_command-handle_line_example =
    new_command-handle_line recorder codec codec-ReadsBack log_handler connected inner get_directory
      [] no_pipes refl

abbrev no_outside : Outside
no_outside = record {
  start_backend = λ q id c. ok q;
  end_backend = λ q id. ok q;
  read_directory = λ q id path. ok q;
}

abbrev idle_backend : Relay Queue
idle_backend = record { backend = []; subbackends = empty }

abbrev directory_call : Call
directory_call = call_command 0 get_directory [] no_pipes

perform-Arrives_example :
    Returns
      (λ x.
        Arrives codec no_outside idle_backend
          (events_of connected directory_call)
          connected.trans
          x.1.trans)
      (perform wire codec connected directory_call)
unfolding connect accepts
perform-Arrives_example =
    perform-Arrives codec codec-ReadsBack no_outside connected directory_call idle_backend refl refl
