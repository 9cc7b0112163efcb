-- ===== src/Frontend.antt =====
-- frontend/src/comm.rs: the handler `StackedRemotes`, and what the frontend does with an endpoint
-- (`EndpointExt`). A `HashSet` or `HashMap` that the code counts or walks through is a list; what
-- the frontend writes to its own output is kept in two fields, and `accepts` is what the system
-- answers to the writes to come: `false` is an error, and beyond the list no write fails.
pub mod Loop
pub mod Prompt
pub mod Run
pub mod Editing
use nak.Base.{
  ◌≡◌, ap, ℕ, ◌==◌, ◌++◌, Bool, true, false, if◌then◌else◌, List, [], ◌∷◌, Option, none, some,
  Bytes, Outcome, ok, fault, failed, io, panic, assert, unwrap, ◌>>=◌, ◌>>◌, Map, empty, insert,
  remove, NumSet, no_elements, set_insert, contains, remove_all, contains_key, is_some, not,
}
use nak.Protocol.{
  Command, ProcessId, GenericPipe, RemoteId, RemoteInfo, PipeMessage, begin_read, payload, read,
  closed, WritePipes, ReadProcess, ReadPipes,
}
use nak.Protocol.Endpoint.{
  Transport, Json, Endpoint, EndpointHandler, connect, new_pipe, new_remote, new_command,
  new_output_file, close_remote, close_process,
}

pub record StackedRemotes : Type 0 where
  pub remotes : List (RemoteId × RemoteInfo)
  pub waiting_for : List ProcessId
  pub waiting_for_eof : List GenericPipe
  pub waiting_for_remote : Option RemoteId
  pub gathering_output : Map Bytes
  pub finished_output : Map Bytes
  pub cwd_for_remote : List (RemoteId × GenericPipe)
  pub stdout_pipes : NumSet
  pub stderr_pipes : NumSet
  pub stdout : Bytes
  pub stderr : Bytes
  pub accepts : List Bool

-- `HashSet::insert` on such a list
abbrev pub add_to : List ℕ → ℕ → List ℕ
add_to xs x = if contains xs x then xs else xs ++ x ∷ []

-- `HashMap::insert` on such a list
abbrev pub put_entry : List (ℕ × ℕ) → ℕ → ℕ → List (ℕ × ℕ)
put_entry [] k v = (k, v) ∷ []
put_entry ((j, w) ∷ es) k v = if j == k then (k, v) ∷ es else (j, w) ∷ put_entry es k v

-- the state that `launch_backend` begins with
abbrev pub no_remotes : StackedRemotes
no_remotes = record {
  remotes = [];
  waiting_for = [];
  waiting_for_eof = [];
  waiting_for_remote = some 0;
  gathering_output = empty;
  finished_output = empty;
  cwd_for_remote = [];
  stdout_pipes = no_elements;
  stderr_pipes = no_elements;
  stdout = [];
  stderr = [];
  accepts = [];
}

-- a write to the frontend's own output
abbrev answered : StackedRemotes → List Bool → Outcome StackedRemotes
answered h [] = ok h
answered h (true ∷ answers) = ok (record h { accepts = answers })
answered h (false ∷ answers) = fault (failed io)

unfoldable pub write_own : StackedRemotes → Outcome StackedRemotes
write_own h = answered h h.accepts

pub write_own-accepts : (h : StackedRemotes) → h.accepts ≡ [] → write_own h ≡ ok h
unfolding write_own
write_own-accepts h a = ap (answered h) a

-- `StackedRemotes::pipe`, on the bytes of a pipe
unfoldable pub receive_bytes : StackedRemotes → GenericPipe → Bytes → Outcome StackedRemotes
receive_bytes h id bytes = elim (h.gathering_output id) [
  | some out ↦ ok (record h { gathering_output = insert h.gathering_output id (out ++ bytes) })
  | none ↦
      if h.stdout_pipes id
      then (do h₁ ← write_own h; ok (record h₁ { stdout = h₁.stdout ++ bytes }))
      else if h.stderr_pipes id
      then (do h₁ ← write_own h; ok (record h₁ { stderr = h₁.stderr ++ bytes }))
      else panic
]

-- `StackedRemotes::pipe`, on the end of a pipe
unfoldable pub receive_end : StackedRemotes → GenericPipe → StackedRemotes
receive_end h id =
    let h₁ = record h { waiting_for_eof = remove_all h.waiting_for_eof id } in
    elim (h.gathering_output id) [
      | some output ↦ record h₁ {
        gathering_output = remove h.gathering_output id;
        finished_output = insert h.finished_output id output;
      }
      | none ↦ h₁
    ]

unfoldable pub receive_message : StackedRemotes → GenericPipe → PipeMessage → Outcome StackedRemotes
receive_message h id (payload bytes end_offset) = receive_bytes h id bytes
receive_message h id (closed end_offset) = ok (receive_end h id)
receive_message h id begin_read = panic
receive_message h id (read up_to) = panic

-- `StackedRemotes::remote_ready`
unfoldable pub receive_ready : StackedRemotes → RemoteId → RemoteInfo → Outcome StackedRemotes
receive_ready h id info = do
  expected ← unwrap h.waiting_for_remote
  assert (expected == id)
  ok (record h { waiting_for_remote = none; remotes = h.remotes ++ (id, info) ∷ [] })

-- `StackedRemotes::command_done`
unfoldable pub receive_done : StackedRemotes → ProcessId → Outcome StackedRemotes
receive_done h id = do
  assert (contains h.waiting_for id)
  ok (record h { waiting_for = remove_all h.waiting_for id })

-- `remotes.last()`
unfoldable pub last_entry : List (RemoteId × RemoteInfo) → Outcome (RemoteId × RemoteInfo)
last_entry [] = panic
last_entry (r ∷ []) = ok r
last_entry (r ∷ s ∷ rs) = last_entry (s ∷ rs)

abbrev pub without_last : List (RemoteId × RemoteInfo) → List (RemoteId × RemoteInfo)
without_last [] = []
without_last (r ∷ []) = []
without_last (r ∷ s ∷ rs) = r ∷ without_last (s ∷ rs)

module _ {T : Type 0} where
  -- the handler of the frontend; what it does on a request to edit a file is an argument
  unfoldable pub stacked_remotes :
      (Endpoint T StackedRemotes
        → ℕ
        → ProcessId
        → Bytes
        → Bytes
        → Outcome (Endpoint T StackedRemotes))
      → EndpointHandler T StackedRemotes
  stacked_remotes edit_file = record {
    on_remote_ready = λ e id info. do
      h ← receive_ready e.handler id info
      ok (record e { handler = h });
    on_command_done = λ e id exit_code. do
      h ← receive_done e.handler id
      ok (record e { handler = h });
    on_directory_listing = λ e id items. panic;
    on_edit_request = edit_file;
    on_pipe = λ e id msg. do
      h ← receive_message e.handler id msg
      ok (record e { handler = h });
  }

  -- the endpoint that `launch_backend` returns
  unfoldable pub launched : T → List Bool → Endpoint T StackedRemotes
  launched trans accepts = connect trans (record no_remotes { accepts = accepts })

  unfoldable pub cur_remote : Endpoint T StackedRemotes → Outcome RemoteId
  cur_remote e = do (id, info) ← last_entry e.handler.remotes; ok id

module _ {T : Type 0} (transport : Transport T) (json : Json) where
  -- `EndpointExt::begin_remote`
  unfoldable pub start_remote :
      Endpoint T StackedRemotes → Command → Outcome (RemoteId × Endpoint T StackedRemotes)
  start_remote e c = do
    cur ← cur_remote e
    (id, e₁) ← new_remote transport json e cur c
    assert (not (is_some e₁.handler.waiting_for_remote))
    ok (id, record e₁ { handler = record (e₁.handler) { waiting_for_remote = some id } })

  unfoldable pub end_remote : Endpoint T StackedRemotes → Outcome (Endpoint T StackedRemotes)
  end_remote e = do
    (id, info) ← last_entry e.handler.remotes
    close_remote transport json
        (record e { handler = record (e.handler) { remotes = without_last e.handler.remotes } }) id

  -- `EndpointExt::cancel`
  unfoldable pub cancel_process :
      Endpoint T StackedRemotes → ProcessId → Outcome (Endpoint T StackedRemotes)
  cancel_process e id = close_process transport json e id
