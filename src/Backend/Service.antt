-- ===== src/Backend/Service.antt =====
-- backend/src/main.rs, `AsyncBackendHandler`, and the senders of `Exec` in backend/src/exec.rs: most
-- requests become an event in the queue of the thread that runs the jobs. Starting and ending
-- another backend, and reading a directory, are parameters.
pub mod Arrival
use nak.Base.{ℕ, ◌++◌, List, [], ◌∷◌, Bytes, Outcome, ok}
use nak.Protocol.{Command}
use nak.Protocol.Route.{BackendHandler}
use nak.Backend.Exec.Events.{
  ExecEvent, enqueue_job, open_output, open_input, cancel_exec, pipe_message, edit_complete,
}

abbrev pub Queue : Type 0
Queue = List ExecEvent

-- `self.sender.send(event)`
abbrev pub push_event : Queue → ExecEvent → Outcome Queue
push_event q event = ok (q ++ event ∷ [])

pub record Outside : Type 0 where
  pub start_backend : Queue → ℕ → Command → Outcome Queue
  pub end_backend : Queue → ℕ → Outcome Queue
  pub read_directory : Queue → ℕ → Bytes → Outcome Queue

unfoldable pub async_backend : Outside → BackendHandler Queue
async_backend outside = record {
  on_begin_command = λ q block_for process command.
      push_event q
        (enqueue_job process.id (record { cmd = command; pipes = process.pipes }) block_for);
  on_cancel_command = λ q id. push_event q (cancel_exec id);
  on_begin_remote = outside.start_backend;
  on_open_output_file = λ q id path. push_event q (open_output id path);
  on_open_input_file = λ q id path. push_event q (open_input id path);
  on_end_remote = outside.end_backend;
  on_list_directory = outside.read_directory;
  on_finish_edit = λ q edit_id text. push_event q (edit_complete edit_id text);
  on_pipe = λ q id msg. push_event q (pipe_message id msg);
}
