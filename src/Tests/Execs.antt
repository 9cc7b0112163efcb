-- ===== src/Tests/Execs.antt =====
-- Instances of the theorems about the thread that runs the jobs, on a system that numbers its open
-- files and that has no programs.
use nak.Base.{ℕ, ◌+◌, ◌≢◌, refl, [], codes, ok, fault, failed, io, Returns, failed}
use nak.Protocol.{unknown, WritePipes}
use nak.Backend.Machine.{start_task}
use nak.Backend.Exec.{System, Exec, done, err, not_found, begin_exec}
use nak.Backend.Exec.Handles.{AreEnds, write_first, read_first, write_first-read_first}
use nak.Backend.Exec.Events.{process_task}
use nak.Backend.Exec.Events.Spawn.{process_task-spawn}

-- the world is the number of the next open file
abbrev bare_system : System ℕ ℕ ℕ
bare_system = record {
  make_pipe = λ w. ok ((w, w + 1), w + 2);
  spawn = λ w path args i o e. (err (codes "NotFound"), w);
  set_current_dir = λ w path. (err (codes "NotFound"), w);
  current_dir = λ w. done (codes "/");
  read_file = λ w path. not_found;
  create_file = λ w path. ok (w, w + 1);
  open_file = λ w path. fault (failed io);
  write_all = λ w f text. ok w;
  write_in_thread = λ w f text. w;
  close = λ w f. w;
  read_in_thread = λ w p f. w;
  kill = λ w c. ok w;
  on_pipe_output = λ w p text n. ok w;
  on_pipe_closed = λ w p n. ok w;
  on_command_result = λ w pid code. ok w;
  on_edit_request = λ w pid id path text. (done tt, w);
}

abbrev started_exec : Exec ℕ ℕ ℕ
started_exec = begin_exec 3

write_first-read_first_example :
    Returns (AreEnds bare_system (3, 4) 7) (write_first bare_system started_exec 7)
    × Returns (AreEnds bare_system (3, 4) 7) (read_first bare_system started_exec 7)
unfolding begin_exec
write_first-read_first_example =
    write_first-read_first bare_system started_exec 7 (3, 4) 5 refl refl

abbrev three_pipes : WritePipes
three_pipes = record { stdin = 0; stdout = 1; stderr = 2 }

process_task-spawn_example :
    process_task bare_system started_exec
      (start_task 0 (record { cmd = unknown (codes "no") []; pipes = three_pipes }))
    ≢ ok ([], started_exec)
process_task-spawn_example =
    process_task-spawn bare_system started_exec 0 (codes "no") [] three_pipes ([], started_exec)
      (λ w i o e. refl)
