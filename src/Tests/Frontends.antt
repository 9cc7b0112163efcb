-- ===== src/Tests/Frontends.antt =====
-- Instances of the theorems about the frontend's loop, on an endpoint whose backend is ready.
use nak.Base.{
  ◌≡◌, ◌++◌, refl, List, [], ◌∷◌, none, some, true, insert, empty, panic, Outcome, fault, Bytes,
  codes, ok, Safe, Guarded, ◌>>=◌,
}
use nak.Protocol.{RemoteInfo}
use nak.Protocol.Endpoint.{Transport, Endpoint, EndpointHandler, connect, close_process, transmit}
use nak.Prefs.{Prefs}
use nak.Plan.{Plan, Step, Sink}
use nak.Plan.Execution.{after_steps, after_step, can_read}
use nak.Edit.{parse_command_simple, root_remotes}
use nak.Edit.Whole.{Blame, IsExecutable}
use nak.Frontend.{StackedRemotes, no_remotes, stacked_remotes, cancel_process}
use nak.Frontend.Loop.{carry_plan, receive_event, cancel_all, ctrl_c}
use nak.Frontend.Loop.Carry.{AtRemote, carry_plan-IsExecutable, parse_command_simple-carry_plan}
use nak.Frontend.Loop.Cancel.{receive_event_twice-panic}
use nak.Tests.Codec.{codec}

abbrev pub line_log : Transport (List Bytes)
line_log = record { send = λ t line. ok (t ++ line ∷ []) }

abbrev pub here : RemoteInfo
here = record { hostname = codes "host"; username = codes "user"; working_dir = codes "/" }

abbrev ready : Endpoint (List Bytes) StackedRemotes
ready = connect [] (record no_remotes { waiting_for_remote = none; remotes = (0, here) ∷ [] })

-- the plan of an empty line
abbrev idle : Plan
idle = record {
  steps = Step.pipe ∷ Step.pipe ∷ [];
  stdin = some 0;
  gather_count = 0;
  pager_count = 0;
  sink_map = some Sink.stdout ∷ some Sink.stderr ∷ [];
}

abbrev pub no_aliases : Prefs
no_aliases = record { aliases = [] }

ready-AtRemote : AtRemote line_log codec (λ t line. tt) 0 here ready
unfolding connect
ready-AtRemote = (refl, refl)

idle-IsExecutable : IsExecutable idle
unfolding after_steps after_step can_read
idle-IsExecutable = record {
  flags = (true, true) ∷ (true, true) ∷ [];
  runs = refl;
  sinks = refl;
  out_free = refl;
  err_free = refl;
}

carry_plan-IsExecutable_example :
    Safe
      (λ r. AtRemote line_log codec (λ t line. tt) 0 here r.1)
      (carry_plan line_log codec ready idle)
unfolding connect
carry_plan-IsExecutable_example =
    carry_plan-IsExecutable line_log codec (λ t line. tt) 0 here ready idle ready-AtRemote refl
      idle-IsExecutable

parse_command_simple-carry_plan_example :
    Guarded
      (Blame no_aliases (codes "ls | wc"))
      (λ r. AtRemote line_log codec (λ t line. tt) 0 here r.1)
      (parse_command_simple root_remotes no_aliases (codes "ls | wc")
        >>= carry_plan line_log codec ready)
unfolding connect
parse_command_simple-carry_plan_example =
    parse_command_simple-carry_plan line_log codec (λ t line. tt) 0 here ready no_aliases
      (codes "ls | wc") ready-AtRemote refl

-- a command runs as job 5
abbrev busy : Endpoint (List Bytes) StackedRemotes
busy = record ready {
  jobs = insert empty 5 (record { parent = 0 });
  handler = record (ready.handler) { waiting_for = 5 ∷ [] };
}

abbrev handler : EndpointHandler (List Bytes) StackedRemotes
handler = stacked_remotes (λ e id p name text. ok e)

abbrev after_event :
    Outcome (Endpoint (List Bytes) StackedRemotes) → Endpoint (List Bytes) StackedRemotes
after_event (ok e) = e
after_event (fault x) = busy

abbrev cancelled : Endpoint (List Bytes) StackedRemotes
cancelled = after_event (receive_event line_log codec handler busy ctrl_c)

cancelled_lem : receive_event line_log codec handler busy ctrl_c ≡ ok cancelled
unfolding receive_event cancel_all cancel_process close_process transmit connect
cancelled_lem = refl

receive_event_twice-panic_example : receive_event line_log codec handler cancelled ctrl_c ≡ panic
unfolding connect
receive_event_twice-panic_example =
    receive_event_twice-panic line_log codec handler busy cancelled 5 [] refl refl cancelled_lem
