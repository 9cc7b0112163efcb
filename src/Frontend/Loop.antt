-- ===== src/Frontend/Loop.antt =====
-- frontend/src/main.rs, `one_loop`: how a plan is carried out.
pub mod Ends
pub mod Carry
pub mod Cancel
use nak.Base.{
  ℕ, zero, suc, ◌+◌, ◌*◌, ◌==◌, leb, ltb, ◌++◌, length, Bool, true, false, if◌then◌else◌, List, [],
  ◌∷◌, map, Option, none, some, Bytes, Outcome, ok, panic, assert, unwrap, ◌>>=◌, ◌>>◌, insert,
  set_insert, empty,
}
use nak.Protocol.{ProcessId, ReadPipe, WritePipe, WritePipes, Condition, get_directory, Response}
use nak.Protocol.Endpoint.{
  Transport, Json, Endpoint, EndpointHandler, receive, new_pipe, new_command, new_output_file,
  pipe_begin_read, pipe_read,
}
use nak.Plan.{
  Step, remote, pager, editor, run, close, open_input_file, open_output_file, begin_remote, Sink,
  Plan,
}
use nak.Frontend.{StackedRemotes, add_to, put_entry, cur_remote, end_remote, cancel_process}

abbrev pub Ends : Type 0
Ends = Option ReadPipe × Option WritePipe

-- `pipe_pairs[p].0.take().unwrap()` and the same for the write end
unfoldable pub take_reader : ℕ → List Ends → Outcome (ReadPipe × List Ends)
take_reader p [] = panic
take_reader zero ((r, w) ∷ ends) = do id ← unwrap r; ok (id, (none, w) ∷ ends)
take_reader (suc p) (e ∷ ends) = do (id, ends') ← take_reader p ends; ok (id, e ∷ ends')

unfoldable pub take_writer : ℕ → List Ends → Outcome (WritePipe × List Ends)
take_writer p [] = panic
take_writer zero ((r, w) ∷ ends) = do id ← unwrap w; ok (id, (r, none) ∷ ends)
take_writer (suc p) (e ∷ ends) = do (id, ends') ← take_writer p ends; ok (id, e ∷ ends')

-- `1024*1024`
abbrev read_limit : ℕ
read_limit = 1024 * 1024

-- the loop over the steps: it goes on, or `one_loop` returns false
pub record Progress (T : Type 0) : Type 0 where
  pub endpoint : Endpoint T StackedRemotes
  pub pipe_pairs : List Ends
  pub wait : List ProcessId

pub data Carried (T : Type 0) : Type 0 where
  going : Progress T → Carried T
  stopped : Endpoint T StackedRemotes → Carried T

abbrev pub mark_sink : StackedRemotes → Sink → ℕ → Outcome StackedRemotes
mark_sink h Sink.dev_null p = ok h
mark_sink h Sink.stdout p = ok (record h { stdout_pipes = set_insert h.stdout_pipes p })
mark_sink h Sink.stderr p = ok (record h { stderr_pipes = set_insert h.stderr_pipes p })
mark_sink h (Sink.gather id) p = panic
mark_sink h (Sink.pager id) p = panic

-- `Event` of the frontend
pub data Event : Type 0 where
  from_remote : Response → Event
  ctrl_c : Event
  key : Event

module _ {T : Type 0} (transport : Transport T) (json : Json) where
  unfoldable pub carry_step : Progress T → Step → Outcome (Carried T)
  carry_step s Step.pipe =
      let ((r, w), e) = new_pipe s.endpoint in
      ok (going (record s { endpoint = e; pipe_pairs = s.pipe_pairs ++ (some r, some w) ∷ [] }))
  carry_step s (remote r (run cmd pr)) = do
    cur ← cur_remote s.endpoint
    (stdout, p₁) ← take_writer pr.stdout s.pipe_pairs
    (stderr, p₂) ← take_writer pr.stderr p₁
    (stdin, p₃) ← take_reader pr.stdin p₂
    (pid, e) ←
        new_command transport json s.endpoint cur cmd []
          (record { stdin = stdin; stdout = stdout; stderr = stderr })
    ok (going (record { endpoint = e; pipe_pairs = p₃; wait = add_to s.wait pid }))
  carry_step s (remote r close) =
      if ltb 1 (length s.endpoint.handler.remotes)
      then (do e ← end_remote transport json s.endpoint; ok (going (record s { endpoint = e })))
      else ok (stopped s.endpoint)
  carry_step s (remote r (open_output_file path)) = do
    cur ← cur_remote s.endpoint
    (handle, e) ← new_output_file transport json s.endpoint cur path
    ok (going (record s { endpoint = e; pipe_pairs = s.pipe_pairs ++ (none, some handle) ∷ [] }))
  carry_step s (remote r (open_input_file path)) = panic
  carry_step s (remote r (begin_remote cmd)) = panic
  carry_step s pager = panic
  carry_step s editor = panic

  unfoldable pub carry_steps : Progress T → List Step → Outcome (Carried T)
  carry_steps s [] = ok (going s)
  carry_steps s (step ∷ steps) = do
    c ← carry_step s step
    elim c [ going s' ↦ carry_steps s' steps | stopped e ↦ ok (stopped e) ]

  -- the block that asks for the new working directory
  unfoldable pub ask_directory : Progress T → Outcome (Progress T)
  ask_directory s = do
    cur ← cur_remote s.endpoint
    let ((out_read, out_write), e₁) = new_pipe s.endpoint
    let ((err_read, err_write), e₂) = new_pipe e₁
    let ((in_read, in_write), e₃) = new_pipe e₂
    (pid, e₄) ←
        new_command transport json e₃ cur get_directory (map (λ p. (p, none)) s.wait)
          (record { stdin = in_read; stdout = out_write; stderr = err_write })
    e₅ ← pipe_begin_read transport json e₄ cur out_read
    e₆ ← pipe_begin_read transport json e₅ cur err_read
    e₇ ← pipe_read transport json e₆ cur out_read read_limit
    e₈ ← pipe_read transport json e₇ cur err_read read_limit
    let h = record (e₈.handler) {
      gathering_output = insert e₈.handler.gathering_output out_read [];
      waiting_for_eof = add_to e₈.handler.waiting_for_eof out_read;
      stderr_pipes = set_insert e₈.handler.stderr_pipes err_read;
      cwd_for_remote = put_entry e₈.handler.cwd_for_remote cur out_read;
    }
    ok (record s { endpoint = record e₈ { handler = h }; wait = add_to s.wait pid })

  -- one sink, of the pipe with the given number
  unfoldable pub read_sink : Progress T → ℕ → ℕ → Sink → Outcome (Progress T)
  read_sink s cur p sink = do
    (comm_pipe, pairs) ← take_reader p s.pipe_pairs
    e₁ ← pipe_begin_read transport json s.endpoint cur comm_pipe
    e₂ ← pipe_read transport json e₁ cur comm_pipe read_limit
    h ← mark_sink e₂.handler sink comm_pipe
    ok (record s { endpoint = record e₂ { handler = h }; pipe_pairs = pairs })

  unfoldable pub read_sinks : Progress T → ℕ → ℕ → List (Option Sink) → Outcome (Progress T)
  read_sinks s cur p [] = ok s
  read_sinks s cur p (none ∷ sinks) = read_sinks s cur (suc p) sinks
  read_sinks s cur p (some sink ∷ sinks) = do
    s' ← read_sink s cur p sink
    read_sinks s' cur (suc p) sinks

  -- what follows the loop over the steps
  unfoldable pub after_carry : Progress T → List (Option Sink) → Outcome (Endpoint T StackedRemotes)
  after_carry s sinks = do
    s₁ ← ask_directory s
    cur ← cur_remote s₁.endpoint
    s₂ ← read_sinks s₁ cur 0 sinks
    let e = s₂.endpoint
    assert (length e.handler.waiting_for == 0)
    ok (record e { handler = record (e.handler) { waiting_for = s₂.wait } })

  unfoldable pub finish_plan :
      List (Option Sink) → Carried T → Outcome (Bool × Endpoint T StackedRemotes)
  finish_plan sinks (stopped e) = ok (false, e)
  finish_plan sinks (going s) = do e ← after_carry s sinks; ok (true, e)

  -- `one_loop` behind `get_command`: the flag is what it returns
  unfoldable pub carry_plan :
      Endpoint T StackedRemotes → Plan → Outcome (Bool × Endpoint T StackedRemotes)
  carry_plan e plan = do
    c ← carry_steps (record { endpoint = e; pipe_pairs = []; wait = [] }) plan.steps
    finish_plan plan.sink_map c

  -- `cancel` of every job in a list
  unfoldable pub cancel_all :
      Endpoint T StackedRemotes → List ProcessId → Outcome (Endpoint T StackedRemotes)
  cancel_all e [] = ok e
  cancel_all e (id ∷ ids) = do e' ← cancel_process transport json e id; cancel_all e' ids

  -- `one_loop`, where it waits: for a remote, or for jobs and the ends of pipes
  unfoldable pub receive_event :
      EndpointHandler T StackedRemotes
      → Endpoint T StackedRemotes
      → Event
      → Outcome (Endpoint T StackedRemotes)
  receive_event handler e (from_remote response) = receive handler e response
  receive_event handler e ctrl_c = elim e.handler.waiting_for_remote [
    | some id ↦ panic
    | none ↦ cancel_all e e.handler.waiting_for
  ]
  receive_event handler e key = panic
