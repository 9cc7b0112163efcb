-- ===== src/Frontend/Editing/Answered.antt =====
-- What comes of a job that edits a file: the request goes to the frontend, what the editor left
-- comes back, and the job ends with it in the file. The lines of both sides are kept in lists.
use nak.Base.{
  expect_ok, Returns-value, ◌∙◌, ℕ, ◌≡◌, ◌⊎◌, inl, inr, ap, refl, ◌++◌, true, codes, List, [], ◌∷◌,
  none, some, Bool, Bytes, Outcome, Fault, ok, unwrap, ◌>>=◌, contains_key, insert, remove,
  set_remove, ==_refl,
}
use nak.Protocol.{
  ProcessId, RemoteRequest, edit, edit_request, command_done, success, from_exit_code, WritePipes,
}
use nak.Protocol.Ids.{next}
use nak.Protocol.Endpoint.{
  Json, Endpoint, receive, send_edit, transmit, ser_to_endpoint, ser_to_frontend,
}
use nak.Protocol.Route.{Backend, send_edit_request, send_command_done, route}
use nak.Backend.Machine.{start_task, start, Task, completed}
use nak.Backend.Machine.Invariant.{IsWell, blocked_by}
use nak.Backend.Machine.Resolve.{all_met}
use nak.Backend.Machine.Completed.{Resolution, ended_running, completed-Resolution}
use nak.Backend.Exec.{
  RunCmd, System, Exec, FileRead, contents, not_found, awaiting_edit, run, begin_edit_request,
}
use nak.Backend.Exec.Events.{
  complete, handle_event, finish_edit, edit_complete, process_task, process_tasks, started,
}
use nak.Backend.Reports.{exec_handler}
use nak.Backend.Relay.{Relay, handle_line, handle_request}
use nak.Backend.Relay.Delivery.{ReadsBack, handle_line-ser_to_endpoint}
use nak.Backend.Service.{Queue, Outside, async_backend}
use nak.Backend.Service.Arrival.{wire}
use nak.Frontend.{StackedRemotes, write_own-accepts, stacked_remotes}
use nak.Frontend.Editing.{edit_file, file_name}

-- A file system: a file that was created and written to holds what was written.
pub record KeepsFiles {V F C : Type 0} (system : System V F C) : Type 0 where
  pub keeps :
      (v v₁ v₂ : V) (path text : Bytes) (f : F)
      → system.create_file v path ≡ ok (f, v₁)
      → system.write_all v₁ f text ≡ ok v₂
      → system.read_file v₂ path ≡ contents text

-- The editor starts from the file, or from nothing where there is no file.
abbrev pub HasText : FileRead → Bytes → Type 0
HasText (contents found) text = found ≡ text
HasText not_found text = text ≡ []
HasText (FileRead.unreadable t) text = ⊥

HasText-cases :
    (r : FileRead) (text : Bytes)
    → HasText r text
    → (r ≡ contents text) ⊎ ((r ≡ not_found) × (text ≡ []))
HasText-cases (contents found) text h = inl (ap contents h)
HasText-cases not_found text h = inr (refl, h)
HasText-cases (FileRead.unreadable t) text h = elim h [ ]

-- the thread of a backend whose lines are kept
abbrev pub Thread : Type 0 → Type 0 → Type 0 → Type 0
Thread V F C = Exec (Backend (List Bytes) × V) F C

-- the line that asks for an edit
abbrev pub request : Json → ProcessId → ℕ → Bytes → Bytes → Bytes
request json pid edit_id path text = ser_to_frontend json 0 (edit_request pid edit_id path text)

-- The frontend knows the job as one of its own backend, and no write to its terminal fails.
abbrev pub Knows : Endpoint (List Bytes) StackedRemotes → ProcessId → Type 0
Knows f pid =
    (f.jobs pid ≡ some (record { parent = 0 }))
    × (contains_key f.remotes 0 ≡ true)
    × (f.handler.accepts ≡ [])

-- The thread has the edit of a job that runs on a well-formed machine, no job waits for that job to
-- fail, and the file can be written.
pub record CanSave {V F C : Type 0} (system : System V F C) (e : Thread V F C) (edit_id : ℕ)
    (pid : ProcessId) (path text : Bytes) : Type 0 where
  pub waits : e.waiting_edits edit_id ≡ some (pid, path)
  pub well : IsWell e.machine
  pub runs : contains_key e.machine.running pid ≡ true
  pub met : all_met success (blocked_by e.machine pid) ≡ true
  pub handle : F
  pub created : V
  pub written : V
  pub creates : system.create_file e.world.1 path ≡ ok (handle, created)
  pub writes : system.write_all created handle text ≡ ok written

module _ {V F C : Type 0} (json : Json) (debug : Fault → Bytes) (system : System V F C) where
  -- The edit is over: the file holds the text, the job is finished with success and the frontend is
  -- told. What is left of the event is to carry out the tasks: the start of the jobs that waited for
  -- this one alone.
  abbrev pub Saved :
      ℕ → Thread V F C → ℕ → ProcessId → Bytes → Bytes → Outcome (Thread V F C) → Type 0
  Saved fuel e edit_id pid path text r =
      (e₁ : Thread V F C) × (ts : List (Task RunCmd)) × (r
        ≡ expect_ok (process_tasks (exec_handler wire json debug system) fuel e₁ ts))
      × (system.read_file e₁.world.1 path ≡ contents text)
      × (e₁.machine.finished pid ≡ some success)
      × (e₁.waiting_edits edit_id ≡ none)
      × (e₁.world.0.trans ≡ e.world.0.trans ++ ser_to_frontend json 0 (command_done pid 0) ∷ [])
      × Resolution (ended_running e.machine pid success) pid (ts, e₁.machine)

module _ {V F C : Type 0} (json : Json) (back : ReadsBack json) (debug : Fault → Bytes)
    (system : System V F C) (files : KeepsFiles system)
    (micro : Bytes → Bytes → Outcome (Bool × Bytes)) (outside : Outside) where
  handle_event-Saved :
      (fuel : ℕ) (e : Thread V F C) (edit_id : ℕ) (pid : ProcessId) (path text : Bytes)
      → CanSave system e edit_id pid path text
      → Saved json debug system fuel e edit_id pid path text
          (handle_event (exec_handler wire json debug system) fuel e (edit_complete edit_id text))
  unfolding handle_event finish_edit exec_handler complete send_command_done from_exit_code
  handle_event-Saved fuel e edit_id pid path text x =
      let ((ts, m), ended, resolved) =
        Returns-value (Resolution (ended_running e.machine pid success) pid)
          (completed 2 e.machine pid success)
          (completed-Resolution 1 e.machine pid success x.well x.runs x.met) in
      (
        record e {
          waiting_edits = remove e.waiting_edits edit_id;
          world = (
            record { trans = e.world.0.trans ++ ser_to_frontend json 0 (command_done pid 0) ∷ [] },
            x.written,
          );
          machine = m;
        },
        ts,
        rw x.waits rw x.creates rw x.writes rw ended refl,
        files.keeps e.world.1 x.created x.written path text x.handle x.creates x.writes,
        ap (λ f. f pid) resolved.same_finished ∙ rw (==_refl pid) refl,
        rw (==_refl edit_id) refl,
        refl,
        resolved,
      )

  -- the job starts, and the request is sent
  process_task-edit :
      (e : Thread V F C) (pid : ProcessId) (path before : Bytes) (pipes : WritePipes)
      → HasText (system.read_file e.world.1 path) before
      → e.machine.to_run pid ≡ true
      → (e₁ : Thread V F C) × (process_task
            (exec_handler wire json debug system)
            e
            (start_task pid (record { cmd = edit path; pipes = pipes }))
          ≡ ok ([], e₁))
        × (e₁.waiting_edits e.edit_ids.next_id ≡ some (pid, path))
        × (e₁.machine.running pid ≡ some awaiting_edit)
        × (e₁.world.0.trans
            ≡ e.world.0.trans ++ request json pid e.edit_ids.next_id path before ∷ [])
  unfolding process_task started start run exec_handler begin_edit_request send_edit_request next
  process_task-edit e pid path before pipes h t =
      let e₁ = (begin_edit_request (exec_handler wire json debug system) e pid path before).1 in
      let e₂ : Thread V F C = record e₁ {
        machine = record (e.machine) {
          to_run = set_remove e.machine.to_run pid;
          running = insert e.machine.running pid awaiting_edit;
        };
      } in
      elim (HasText-cases (system.read_file e.world.1 path) before h) [
        | inl found ↦ (
          e₂,
          rw (found, run) rw t refl,
          rw (==_refl e.edit_ids.next_id) refl,
          rw (==_refl pid) refl,
          refl,
        )
        | inr (missing, empty) ↦ (
          e₂,
          rw (missing, run) rw empty rw t refl,
          rw (==_refl e.edit_ids.next_id) refl,
          rw (==_refl pid) refl,
          refl,
        )
      ]

  -- the frontend, on that request
  receive-edit :
      (f : Endpoint (List Bytes) StackedRemotes) (pid : ProcessId) (edit_id : ℕ)
      (path before after : Bytes)
      → Knows f pid
      → micro (file_name path) before ≡ ok (true, after)
      → (f₁ : Endpoint (List Bytes) StackedRemotes) × (receive
            (stacked_remotes (edit_file wire json micro))
            f
            (record { remote_id = 0; message = edit_request pid edit_id path before })
          ≡ ok f₁)
        × (f₁.trans
            ≡ f.trans ++ ser_to_endpoint json 0 (RemoteRequest.finish_edit edit_id after) ∷ [])
  unfolding receive stacked_remotes edit_file send_edit transmit
  receive-edit f pid edit_id path before after (j, k, a) m =
      let h = record (f.handler) {
        stdout = f.handler.stdout ++ (codes "editing " ++ path ++ 10 ∷ []);
      } in
      (
        record f {
          handler = record h { stdout = h.stdout ++ before };
          trans = f.trans ++ ser_to_endpoint json 0 (RemoteRequest.finish_edit edit_id after) ∷ [];
        },
        rw (write_own-accepts f.handler a) rw (write_own-accepts h a) rw m rw j rw k refl,
        refl,
      )

  -- the backend's loop, on the answer
  handle_line-edit :
      (r : Relay Queue) (edit_id : ℕ) (after : Bytes)
      → handle_line json
          (async_backend outside)
          r
          (ser_to_endpoint json 0 (RemoteRequest.finish_edit edit_id after))
        ≡ ok (record r { backend = r.backend ++ edit_complete edit_id after ∷ [] })
  unfolding handle_request route async_backend
  handle_line-edit r edit_id after =
      handle_line-ser_to_endpoint json back (async_backend outside) r 0
        (RemoteRequest.finish_edit edit_id after)

  -- Where the JSON library reads back what it printed, a file that was written holds what was
  -- written, and the editor succeeds and leaves `after`: a job that is to run and edits a file runs,
  -- awaits the edit, and sends one line. The frontend, which knows the job and whose terminal accepts
  -- what is written, reads that line and answers with one line; that puts one event into the queue of
  -- the thread. Whenever the thread comes to that event, with the edit in its table, the job running
  -- on a well-formed machine, no job waiting for it to fail, and a file that can be created and
  -- written: the file then holds `after`, the edit has left the table, the job is finished with
  -- success, the frontend is sent that it is done, with exit code 0, and what is left to do is to
  -- start exactly the jobs that waited for it alone.
  pub process_task-edit-Saved :
      (e later : Thread V F C) (f : Endpoint (List Bytes) StackedRemotes) (r : Relay Queue)
      (pid : ProcessId) (path before after : Bytes) (pipes : WritePipes) (fuel : ℕ)
      → HasText (system.read_file e.world.1 path) before
      → e.machine.to_run pid ≡ true
      → Knows f pid
      → micro (file_name path) before ≡ ok (true, after)
      → CanSave system later e.edit_ids.next_id pid path after
      → (e₁ : Thread V F C) × (f₁ : Endpoint (List Bytes) StackedRemotes) × (asked : Bytes)
        × (answer : Bytes) × (process_task
              (exec_handler wire json debug system)
              e
              (start_task pid (record { cmd = edit path; pipes = pipes }))
            ≡ ok ([], e₁))
        × (e₁.waiting_edits e.edit_ids.next_id ≡ some (pid, path))
        × (e₁.machine.running pid ≡ some awaiting_edit)
        × (e₁.world.0.trans ≡ e.world.0.trans ++ asked ∷ [])
        × ((unwrap (json.read_response asked)
              >>= receive (stacked_remotes (edit_file wire json micro)) f)
            ≡ ok f₁)
        × (f₁.trans ≡ f.trans ++ answer ∷ [])
        × (handle_line json (async_backend outside) r answer
            ≡ ok (record r { backend = r.backend ++ edit_complete e.edit_ids.next_id after ∷ [] }))
        × Saved json debug system fuel later e.edit_ids.next_id pid path after (
            handle_event
              (exec_handler wire json debug system)
              fuel
              later
              (edit_complete e.edit_ids.next_id after))
  unfolding ser_to_frontend
  process_task-edit-Saved e later f r pid path before after pipes fuel h t k m x =
      let id = e.edit_ids.next_id in
      let (e₁, ran, waits, runs, sent) = process_task-edit e pid path before pipes h t in
      let (f₁, received, replied) = receive-edit f pid id path before after k m in
      (
        e₁,
        f₁,
        request json pid id path before,
        ser_to_endpoint json 0 (RemoteRequest.finish_edit id after),
        ran,
        waits,
        runs,
        sent,
        rw
            (back.reads_response
              (record { remote_id = 0; message = edit_request pid id path before }))
            received,
        replied,
        handle_line-edit r id after,
        handle_event-Saved fuel later id pid path after x,
      )
