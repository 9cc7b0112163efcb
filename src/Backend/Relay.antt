-- ===== src/Backend/Relay.antt =====
-- backend/src/main.rs, `run_backend`: a line from the frontend is for this backend, remote 0, or is
-- passed on to one of the backends that it started; the lines of those come back with their id. A
-- started backend is here the list of the lines written to its input.
pub mod Delivery
use nak.Base.{
  ℕ, ◌==◌, ◌++◌, if◌then◌else◌, List, [], ◌∷◌, Option, none, some, Bytes, Outcome, expect_ok, ok,
  fault, failed, io, panic, unwrap, ◌>>=◌, Map, insert,
}
use nak.Protocol.{Request, Response}
use nak.Protocol.Endpoint.{Json, ser_to_endpoint, ser_to_frontend}
use nak.Protocol.Route.{BackendHandler, route}

pub record Relay (B : Type 0) : Type 0 where
  pub backend : B
  pub subbackends : Map (List Bytes)

module _ {B : Type 0} (json : Json) (handler : BackendHandler B) where
  -- the body of the loop of `run_backend`, on a parsed line
  unfoldable pub handle_request : Relay B → Request → Outcome (Relay B)
  handle_request r rpc =
      if rpc.remote_id == 0
      then (do b ← expect_ok (route handler rpc r.backend); ok (record r { backend = b }))
      else (do
        lines ← unwrap (r.subbackends rpc.remote_id)
        ok (record r {
          subbackends =
              insert r.subbackends rpc.remote_id (lines ++ ser_to_endpoint json 0 rpc.message ∷ []);
        }))

  -- the body of the loop of `run_backend`
  unfoldable pub handle_line : Relay B → Bytes → Outcome (Relay B)
  handle_line r line = elim (json.read_request line) [
    | none ↦ fault (failed io)
    | some rpc ↦ handle_request r rpc
  ]

-- the thread of `begin_remote`, on a line of the backend that was started as `id`
unfoldable pub relay_response : Json → ℕ → Bytes → Outcome Bytes
relay_response json id line = do
  rpc ← unwrap (json.read_response line)
  ok (ser_to_frontend json id rpc.message)
