-- ===== src/Tests/Prompts.antt =====
-- A frontend that waits for a command: the answers of its backend, and what becomes of them.
use nak.Base.{
  ℕ, ◌≡◌, ◌⊎◌, inl, inr, refl, true, not, List, [], ◌∷◌, ◌++◌, map, none, Bytes, codes, Outcome,
  panic, ok, ◌>>=◌, NumSet, insert, empty, set_insert, no_elements, contains, remove_all, arith,
}
use nak.Protocol.{Response, payload, closed}
use nak.Protocol.Endpoint.{Endpoint, connect}
use nak.Edit.{SingleCommandReader}
use nak.Frontend.{StackedRemotes, no_remotes, stacked_remotes}
use nak.Frontend.Prompt.{is_utf8}
use nak.Frontend.Loop.{from_remote, carry_plan}
use nak.Frontend.Run.{Exec, single_reader, leave, remote_run}
use nak.Frontend.Run.Rounds.{wake_and_serve, remote_run-wake_and_serve}
use nak.Frontend.Run.Replies.{
  Replies, none_left, job_ends, more_output, output_ends, shown_output, shown_ends, Waits, on_pipe,
  on_job,
}
use nak.Frontend.Run.Returns.{remote_run-Replies}
use nak.Frontend.Run.Exits.{single_command-Replies}
use nak.Tests.Codec.{codec}
use nak.Tests.Frontends.{line_log, here, no_aliases}

abbrev no_edit :
    Endpoint (List Bytes) StackedRemotes
    → ℕ
    → ℕ
    → Bytes
    → Bytes
    → Outcome (Endpoint (List Bytes) StackedRemotes)
no_edit e edit_id command_id name contents = panic

-- the pipe 9 is shown on stdout, the pipe 3 on stderr
abbrev on_stdout : NumSet
on_stdout = set_insert no_elements 9

abbrev on_stderr : NumSet
on_stderr = set_insert no_elements 3

abbrev shown : NumSet
shown = set_insert on_stdout 3

-- the jobs 5 and 6 run, and the second writes the directory to the pipe 2
abbrev busy : Endpoint (List Bytes) StackedRemotes
busy =
    record (connect [] (record no_remotes {
      waiting_for_remote = none;
      remotes = (0, here) ∷ [];
      waiting_for = 5 ∷ 6 ∷ [];
      waiting_for_eof = 2 ∷ [];
      gathering_output = insert empty 2 [];
      cwd_for_remote = (0, 2) ∷ [];
      stdout_pipes = on_stdout;
      stderr_pipes = on_stderr;
    })) { pipes = set_insert shown 2 }

only_two : (q : ℕ) → shown q ≡ true → (q ≡ 9) ⊎ (q ≡ 3)
only_two q h = ground arith

busy-Waits : Waits 2 shown [] (5 ∷ 6 ∷ []) true busy
unfolding connect
busy-Waits = record {
  no_remote = refl;
  jobs = refl;
  eofs = refl;
  gathered = refl;
  known = refl;
  hidden = refl;
  shown_known = λ q h. elim (only_two q h) [ inl e ↦ rw e refl | inr e ↦ rw e refl ];
  shown_free = λ q h. elim (only_two q h) [ inl e ↦ rw e refl | inr e ↦ rw e refl ];
  shown_out = λ q h. elim (only_two q h) [ inl e ↦ rw e refl | inr e ↦ rw e refl ];
  accepting = refl;
}

-- The second job ends first, and the directory comes in two pieces.
abbrev answers : List Response
answers =
    on_job 0 6 0
    ∷ on_pipe 0 2 (payload (codes "/ho") 3)
    ∷ on_pipe 0 9 (payload (codes "out") 3)
    ∷ on_pipe 0 2 (payload (codes "me\n") 6)
    ∷ on_pipe 0 2 (closed 6)
    ∷ on_pipe 0 3 (closed 0)
    ∷ on_pipe 0 9 (closed 3)
    ∷ on_job 0 5 0
    ∷ []

answers-Replies : Replies 2 shown (5 ∷ 6 ∷ []) true (codes "/home" ++ 10 ∷ []) answers
unfolding contains remove_all
answers-Replies = job_ends 0 6 0 refl (
    more_output 0 3 (codes "/ho") refl (
      shown_output 0 9 3 (codes "out") refl refl (
        more_output 0 6 (codes "me\n") refl (
          output_ends 0 6 (
            shown_ends 0 3 0 refl refl
              (shown_ends 0 9 3 refl refl (job_ends 0 5 0 refl none_left)))))))

abbrev one_command : Exec (List Bytes) SingleCommandReader
one_command = record { endpoint = busy; reader = record { prefs = no_aliases; text = none } }

home_is_utf8 : is_utf8 (codes "/home") ≡ true
unfolding is_utf8
home_is_utf8 = refl

remote_run-Replies_example :
    (e : Endpoint (List Bytes) StackedRemotes) × (e.handler.remotes
      ≡ (0, record here { working_dir = codes "/home" }) ∷ [])
    × (e.handler.waiting_for ≡ [])
    × (remote_run line_log codec
          (stacked_remotes no_edit)
          single_reader
          one_command
          (map from_remote answers)
        ≡ (do
          (plan, r) ← single_reader.get_command one_command.reader (codes "[1:host] /home$ ") e
          (goes_on, e') ← carry_plan line_log codec e plan
          leave line_log codec
              (stacked_remotes no_edit)
              single_reader
              (not goes_on, record { endpoint = e'; reader = r })))
unfolding connect
remote_run-Replies_example =
    remote_run-Replies line_log codec no_edit single_reader 2 shown one_command (5 ∷ 6 ∷ []) 0 here
      (codes "/home") answers busy-Waits refl refl home_is_utf8 answers-Replies

single_command-Replies_example :
    (s' : Exec (List Bytes) SingleCommandReader) × (remote_run line_log codec
        (stacked_remotes no_edit)
        single_reader
        one_command
        (map from_remote answers)
      ≡ ok (true, s'))
    × (s'.endpoint.handler.waiting_for ≡ [])
unfolding connect
single_command-Replies_example =
    single_command-Replies line_log codec no_edit 2 shown one_command (5 ∷ 6 ∷ []) 0 here
      (codes "/home") answers refl busy-Waits refl refl home_is_utf8 answers-Replies

remote_run-wake_and_serve_example :
    remote_run line_log codec
      (stacked_remotes no_edit)
      single_reader
      one_command
      (map from_remote answers)
    ≡ (wake_and_serve line_log codec
          (stacked_remotes no_edit)
          single_reader
          one_command
          (map from_remote answers)
        >>= leave line_log codec (stacked_remotes no_edit) single_reader)
remote_run-wake_and_serve_example =
    remote_run-wake_and_serve line_log codec (stacked_remotes no_edit) single_reader one_command
      (map from_remote answers)
