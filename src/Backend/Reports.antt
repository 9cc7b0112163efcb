-- ===== src/Backend/Reports.antt =====
-- backend/src/main.rs, `ExecHandler`: what the thread that runs the jobs reports goes to the frontend
-- through the `Backend` that it shares. The rest of the system acts on a world `V` of its own.
use nak.Base.{Bytes, Outcome, Fault, ok, fault, ◌>>=◌}
use nak.Protocol.Endpoint.{Transport, Json}
use nak.Protocol.Route.{
  Backend, send_pipe_data, send_pipe_closed, send_command_done, send_edit_request,
}
use nak.Backend.Exec.{System, Result, done, err}

module _ {T V : Type 0} where
  -- a call of the rest of the system that may fail
  abbrev apart : {A : Type 0} → Backend T → Outcome (A × V) → Outcome (A × (Backend T × V))
  apart b outcome = do (a, v) ← outcome; ok (a, (b, v))

  -- a call of the rest of the system that only acts
  abbrev acted : Backend T → Outcome V → Outcome (Backend T × V)
  acted b outcome = do v ← outcome; ok (b, v)

  -- a report
  abbrev reported : V → Outcome (Backend T) → Outcome (Backend T × V)
  reported v outcome = do b ← outcome; ok (b, v)

  -- a report whose `Err` is passed on as its text
  abbrev answered :
      (Fault → Bytes) → Backend T → V → Outcome (Backend T) → Result (Unit {0}) × (Backend T × V)
  answered debug b v (ok b₁) = (done tt, (b₁, v))
  answered debug b v (fault e) = (err (debug e), (b, v))

module _ {T V F C : Type 0} (transport : Transport T) (json : Json) (debug : Fault → Bytes) where
  -- `ExecHandler`, beside the rest of the system
  unfoldable pub exec_handler : System V F C → System (Backend T × V) F C
  exec_handler s = record {
    make_pipe = λ w. apart w.0 (s.make_pipe w.1);
    spawn = λ w path args i o e. let (r, v) = s.spawn w.1 path args i o e in (r, (w.0, v));
    set_current_dir = λ w path. let (r, v) = s.set_current_dir w.1 path in (r, (w.0, v));
    current_dir = λ w. s.current_dir w.1;
    read_file = λ w path. s.read_file w.1 path;
    create_file = λ w path. apart w.0 (s.create_file w.1 path);
    open_file = λ w path. apart w.0 (s.open_file w.1 path);
    write_all = λ w f text. acted w.0 (s.write_all w.1 f text);
    write_in_thread = λ w f text. (w.0, s.write_in_thread w.1 f text);
    close = λ w f. (w.0, s.close w.1 f);
    read_in_thread = λ w p f. (w.0, s.read_in_thread w.1 p f);
    kill = λ w c. acted w.0 (s.kill w.1 c);
    on_pipe_output = λ w p text n. reported w.1 (send_pipe_data transport json w.0 p text n);
    on_pipe_closed = λ w p n. reported w.1 (send_pipe_closed transport json w.0 p n);
    on_command_result = λ w pid code. reported w.1 (send_command_done transport json w.0 pid code);
    on_edit_request = λ w pid id path text.
        answered debug w.0 w.1 (send_edit_request transport json w.0 pid id path text);
  }
