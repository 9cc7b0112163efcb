-- ===== src/Frontend/Run.antt =====
-- frontend/src/main.rs: `one_loop` and `remote_run`. The events are a list; at its end the receiver
-- waits. The reader of command lines is an argument.
pub mod Waits
pub mod Rounds
pub mod Replies
pub mod Returns
pub mod Exits
use nak.Base.{
  ℕ, zero, suc, ◌*◌, ◌==◌, ◌&&◌, if◌then◌else◌, Bool, true, false, not, List, [], ◌∷◌, length,
  Bytes, Outcome, ok, fault, out_of_fuel, ◌>>=◌, is_some,
}
use nak.Protocol.Endpoint.{Transport, Json, Endpoint, EndpointHandler}
use nak.Prefs.{Prefs}
use nak.Plan.{Plan}
use nak.Edit.{SingleCommandReader, get_single_command, LineResult, get_simple_command}
use nak.Frontend.{StackedRemotes}
use nak.Frontend.Prompt.{read_directories, prompt}
use nak.Frontend.Loop.{Event, carry_plan, receive_event}

-- the trait `Reader`, on a state of its own
pub record Reader (T : Type 0) (S : Type 0) : Type 0 where
  pub get_command : S → Bytes → Endpoint T StackedRemotes → Outcome (Plan × S)
  pub save_history : S → S

pub record Exec (T : Type 0) (S : Type 0) : Type 0 where
  pub endpoint : Endpoint T StackedRemotes
  pub reader : S

-- `SingleCommandReader` and `SimpleReader`, which ignore the endpoint; the line editor, which shows
-- the prompt, and the saving of its history are arguments.
abbrev pub single_reader : {T : Type 0} → Reader T SingleCommandReader
single_reader = record { get_command = λ r text e. get_single_command r; save_history = λ r. r }

abbrev pub simple_reader :
    {T History : Type 0}
    → Prefs
    → (History → Bytes → LineResult × History)
    → (History → Bytes → Outcome History)
    → (History → History)
    → Reader T History
simple_reader prefs edit_line push save = record {
  get_command =
      λ h text e. let (line, h') = edit_line h text in get_simple_command push prefs h' line;
  save_history = save;
}

-- Whether `one_loop` reads a command line, and not an event.
abbrev pub needs_command : StackedRemotes → Bool
needs_command h =
    not (is_some h.waiting_for_remote)
    && (length h.waiting_for == 0 && length h.waiting_for_eof == 0)

module _ {T S : Type 0} (transport : Transport T) (json : Json)
    (handler : EndpointHandler T StackedRemotes) (reader : Reader T S) where
  -- `one_loop` where nothing is waited for
  unfoldable pub take_command : Exec T S → Outcome (Bool × Exec T S)
  take_command s = do
    h ← read_directories s.endpoint.handler.cwd_for_remote s.endpoint.handler
    text ← prompt h
    let e = record (s.endpoint) { handler = h }
    (plan, r) ← reader.get_command s.reader text e
    (goes_on, e') ← carry_plan transport json e plan
    ok (goes_on, record { endpoint = e'; reader = r })

  -- `one_loop` where something is
  unfoldable pub take_event : Exec T S → Event → Outcome (Exec T S)
  take_event s event = do
    e ← receive_event transport json handler s.endpoint event
    ok (record s { endpoint = e })

  -- The `while`: the flag says that the shell has ended, and does not wait for an event.
  unfoldable pub run_loop : ℕ → Exec T S → List Event → Outcome (Bool × Exec T S)
  run_loop zero s events = fault out_of_fuel
  run_loop (suc fuel) s events = elim (needs_command s.endpoint.handler) [
    | true ↦ do
      (goes_on, s') ← take_command s
      elim goes_on [ true ↦ run_loop fuel s' events | false ↦ ok (true, s') ]
    | false ↦ elim events [
      | [] ↦ ok (false, s)
      | event ∷ others ↦ do s' ← take_event s event; run_loop fuel s' others
    ]
  ]

  -- what follows the loop
  abbrev pub leave : Bool × Exec T S → Outcome (Bool × Exec T S)
  leave (ended, s) =
      ok (ended, record s { reader = if ended then reader.save_history s.reader else s.reader })

  -- `remote_run`: a round for each event, and one more for the command line behind it.
  unfoldable pub remote_run : Exec T S → List Event → Outcome (Bool × Exec T S)
  remote_run s events = do r ← run_loop (suc (suc (length events * 2))) s events; leave r
