-- ===== src/Tests/Edits.antt =====
-- An instance of the theorem about editing a file, on a file system that is a list of the files, the
-- newest first. `micro` appends a word.
use nak.Base.{
  arith, ◌∙◌, set_insert, no_elements, ◌≡◌, refl, ap, subst, ◌++◌, Bool, true, if◌then◌else◌, List,
  [], ◌∷◌, some, Bytes, bytes_eq, bytes_eq_iff, codes, Outcome, Fault, ok, fault, failed, io, empty,
  unwrap, insert, ◌>>=◌,
}
use nak.Protocol.{edit, WritePipes}
use nak.Protocol.Endpoint.{Endpoint, connect, receive}
use nak.Backend.Exec.{System, FileRead, contents, not_found, done, err, awaiting_edit, begin_exec}
use nak.Backend.Exec.Events.{process_task, handle_event, edit_complete}
use nak.Backend.Machine
use nak.Backend.Machine.{start_task}
use nak.Backend.Machine.Invariant.{IsWell, find_blocked}
use nak.Backend.Reports.{exec_handler}
use nak.Backend.Relay.{Relay, handle_line}
use nak.Backend.Service.{Queue, Outside, async_backend}
use nak.Backend.Service.Arrival.{wire}
use nak.Frontend.{StackedRemotes, no_remotes, stacked_remotes}
use nak.Frontend.Editing.{edit_file, file_name, rfind}
use nak.Frontend.Editing.Answered.{
  KeepsFiles, HasText, Thread, CanSave, Saved, process_task-edit-Saved,
}
use nak.Tests.Codec.{codec, codec-ReadsBack}

file_name_lem : file_name (codes "notes/to/do") ≡ codes "do"
unfolding file_name rfind
file_name_lem = refl

plain_name : file_name (codes "todo") ≡ codes "todo"
unfolding file_name rfind
plain_name = refl

abbrev Files : Type 0
Files = List (Bytes × Bytes)

abbrev find_file : Files → Bytes → FileRead
find_file [] path = not_found
find_file ((p, text) ∷ files) path = if bytes_eq p path then contents text else find_file files path

abbrev text_so_far : FileRead → Bytes
text_so_far (contents text) = text
text_so_far not_found = []
text_so_far (FileRead.unreadable t) = []

abbrev file_system : System Files Bytes (Unit {0})
file_system = record {
  make_pipe = λ w. fault (failed io);
  spawn = λ w path args i o e. (err (codes "NotFound"), w);
  set_current_dir = λ w path. (err (codes "NotFound"), w);
  current_dir = λ w. done (codes "/");
  read_file = find_file;
  create_file = λ w path. ok (path, (path, []) ∷ w);
  open_file = λ w path. fault (failed io);
  write_all = λ w f text. ok ((f, text_so_far (find_file w f) ++ text) ∷ w);
  write_in_thread = λ w f text. (f, text_so_far (find_file w f) ++ text) ∷ w;
  close = λ w f. w;
  read_in_thread = λ w p f. w;
  kill = λ w c. ok w;
  on_pipe_output = λ w p text n. ok w;
  on_pipe_closed = λ w p n. ok w;
  on_command_result = λ w pid code. ok w;
  on_edit_request = λ w pid id path text. (done tt, w);
}

same_path : (path : Bytes) → bytes_eq path path ≡ true
same_path path = (bytes_eq_iff path path).1 refl

abbrev opened : Files → Outcome (Bytes × Files) → Bytes × Files
opened w (ok r) = r
opened w (fault x) = ([], w)

abbrev stored : Files → Outcome Files → Files
stored w (ok v) = v
stored w (fault x) = w

-- a file after it was created and written
abbrev filed : Bytes × Files → Bytes → Files
filed (f, w) text = (f, text_so_far (find_file w f) ++ text) ∷ w

file_system-KeepsFiles : KeepsFiles file_system
file_system-KeepsFiles = record {
  keeps = λ v v₁ v₂ path text f c w.
      subst (λ u. find_file u path ≡ contents text)
        (ap (λ r. filed r text) (ap (opened v) c) ∙ ap (stored v₁) w) (rw (same_path path) refl);
}

abbrev idle_backend : Outside
idle_backend = record {
  start_backend = λ q id c. ok q;
  end_backend = λ q id. ok q;
  read_directory = λ q id path. ok q;
}

abbrev micro : Bytes → Bytes → Outcome (Bool × Bytes)
micro name text = ok (true, text ++ codes " milk")

abbrev first_files : Files
first_files = (codes "a/list", codes "bread") ∷ []

-- job 3 is to run
abbrev editing_thread : Thread Files Bytes (Unit {0})
editing_thread = record (begin_exec (record { trans = [] }, first_files)) {
  machine = record Machine.new { to_run = set_insert no_elements 3 };
}

-- later: job 3 awaits its edit
abbrev later_thread : Thread Files Bytes (Unit {0})
later_thread = record (begin_exec (record { trans = [] }, first_files)) {
  machine = record Machine.new { running = insert empty 3 awaiting_edit };
  waiting_edits = insert empty 0 (3, codes "a/list");
}

abbrev knowing : Endpoint (List Bytes) StackedRemotes
knowing = record (connect [] no_remotes) { jobs = insert empty 3 (record { parent = 0 }) }

abbrev relay : Relay Queue
relay = record { backend = []; subbackends = empty }

abbrev some_pipes : WritePipes
some_pipes = record { stdin = 0; stdout = 1; stderr = 2 }

abbrev debug : Fault → Bytes
debug x = codes "Error"

found : HasText (file_system.read_file (editing_thread.world.1) (codes "a/list")) (codes "bread")
unfolding begin_exec bytes_eq
found = refl

later-IsWell : IsWell later_thread.machine
unfolding begin_exec Machine.new find_blocked
later-IsWell = record {
  exclusive = λ p. ground arith;
  mirror = λ p w. refl;
  live = λ p w h e. cc;
  distinct_jobs = λ p. tt;
  waits_well = λ w. tt;
}

later-CanSave : CanSave file_system later_thread 0 3 (codes "a/list") (codes "bread milk")
unfolding begin_exec Machine.new bytes_eq
later-CanSave = record {
  waits = refl;
  runs = refl;
  well = later-IsWell;
  met = refl;
  handle = codes "a/list";
  created = (codes "a/list", []) ∷ first_files;
  written = (codes "a/list", codes "bread milk") ∷ (codes "a/list", []) ∷ first_files;
  creates = refl;
  writes = refl;
}

is_to_run : editing_thread.machine.to_run 3 ≡ true
unfolding begin_exec Machine.new
is_to_run = refl

process_task-edit-Saved_example :
    (e₁ : Thread Files Bytes (Unit {0})) × (f₁ : Endpoint (List Bytes) StackedRemotes)
    × (asked : Bytes) × (answer : Bytes) × (process_task
          (exec_handler wire codec debug file_system)
          editing_thread
          (start_task 3 (record { cmd = edit (codes "a/list"); pipes = some_pipes }))
        ≡ ok ([], e₁))
    × (e₁.waiting_edits 0 ≡ some (3, codes "a/list"))
    × (e₁.machine.running 3 ≡ some awaiting_edit)
    × (e₁.world.0.trans ≡ [] ++ asked ∷ [])
    × ((unwrap (codec.read_response asked)
          >>= receive (stacked_remotes (edit_file wire codec micro)) knowing)
        ≡ ok f₁)
    × (f₁.trans ≡ [] ++ answer ∷ [])
    × (handle_line codec (async_backend idle_backend) relay answer
        ≡ ok (record relay { backend = [] ++ edit_complete 0 (codes "bread milk") ∷ [] }))
    × Saved codec debug file_system 1 later_thread 0 3 (codes "a/list") (codes "bread milk") (
        handle_event
          (exec_handler wire codec debug file_system)
          1
          later_thread
          (edit_complete 0 (codes "bread milk")))
unfolding connect begin_exec Machine.new
process_task-edit-Saved_example =
    process_task-edit-Saved codec codec-ReadsBack debug file_system file_system-KeepsFiles micro
      idle_backend editing_thread later_thread knowing relay 3 (codes "a/list") (codes "bread")
      (codes "bread milk") some_pipes 1 found is_to_run (refl, refl, refl) refl later-CanSave
