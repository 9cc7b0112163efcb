-- ===== src/Backend/Editor.antt =====
-- backend/src/main.rs: the programs `nak-backend editor` and `nak-backend pager`, which a job runs,
-- and the thread of `setup_editback_socket` that serves their connections. A connection is here the
-- bytes that arrive on it up to its end, a channel the number of its connection. The environment, the
-- files and sockets of the system are parameters, as is the JSON of the two messages.
pub mod Refused
use nak.Base.{
  ℕ, suc, ◌==◌, ◌++◌, if◌then◌else◌, List, [], ◌∷◌, Option, none, some, Bytes, bytes_eq, codes,
  Outcome, expect_ok, ok, fault, panic, assert, unwrap, ◌>>=◌, ◌>>◌, Map, empty, insert,
}
use nak.Protocol.{ProcessId}
use nak.Protocol.Endpoint.{Transport, Json}
use nak.Protocol.Route.{Backend, send_edit_request}
use nak.Frontend.Prompt.{is_utf8, pop, is_newline}

pub record EditRequest : Type 0 where
  pub file_name : Bytes
  pub data_bytes : Bytes

pub record EditResponse : Type 0 where
  pub data_bytes : Bytes

pub record CommandInfo : Type 0 where
  pub remote_id : ℕ
  pub id : ProcessId

-- serde_json at the two messages
pub record EditJson : Type 0 where
  pub print_edit : EditRequest → Bytes
  pub read_edit : Bytes → Option EditRequest
  pub print_answer : EditResponse → Bytes
  pub read_answer : Bytes → Option EditResponse

-- what the threads of the socket share
pub record Shared (T : Type 0) : Type 0 where
  pub backtraffic : Backend T
  pub running_commands : List (Bytes × CommandInfo)
  pub waiting_edits : Map ℕ

-- the bytes up to the line end and with it, and the rest
unfoldable pub split_line : Bytes → Bytes × Bytes
split_line [] = ([], [])
split_line (b ∷ bs) =
    let (line, rest) = split_line bs in if b == 10 then (b ∷ [], bs) else (b ∷ line, rest)

-- `reader.read_line(..).unwrap()`
unfoldable pub read_line : Bytes → Outcome (Bytes × Bytes)
read_line text = do let (line, rest) = split_line text; assert (is_utf8 line); ok (line, rest)

-- `running_commands.get(&key)`
unfoldable pub find_command : List (Bytes × CommandInfo) → Bytes → Option CommandInfo
find_command [] key = none
find_command ((k, info) ∷ commands) key =
    if bytes_eq k key then some info else find_command commands key

-- what `AsyncBackendHandler::new` shares with the socket
unfoldable pub begin_shared : {T : Type 0} → Backend T → Shared T
begin_shared b = record { backtraffic = b; running_commands = []; waiting_edits = empty }

-- what a connection asks for; the table and what is read from the connection decide
unfoldable pub read_connection :
    {T : Type 0} → EditJson → Shared T → Bytes → Outcome (CommandInfo × EditRequest)
read_connection edits s text = do
  (line, rest) ← read_line text
  let (end, key) = pop line
  assert (is_newline end)
  command_info ← unwrap (find_command s.running_commands key)
  (message, unread) ← read_line rest
  req ← unwrap (edits.read_edit message)
  ok (command_info, req)

module _ {T : Type 0} (transport : Transport T) (json : Json) (edits : EditJson) where
  -- with the request sent, or the `unwrap` of an error; the state is that of a failed `send`
  abbrev sent_edit : Shared T → Outcome (Backend T) → Outcome (Unit {0}) × Shared T
  sent_edit s (ok b) = (ok tt, record s { backtraffic = b })
  sent_edit s (fault e) = (expect_ok (fault e), s)

  abbrev asked : Shared T → ℕ → Outcome (CommandInfo × EditRequest) → Outcome (Unit {0}) × Shared T
  asked s channel (fault e) = (fault e, s)
  asked s channel (ok (command_info, req)) =
      sent_edit (record s { waiting_edits = insert s.waiting_edits 0 channel })
        (send_edit_request transport json s.backtraffic command_info.id 0 req.file_name
          req.data_bytes)

  -- the thread of a connection, up to where it waits for its channel, and what it leaves
  unfoldable pub begin_connection : Shared T → ℕ → Bytes → Outcome (Unit {0}) × Shared T
  begin_connection s channel text = asked s channel (read_connection edits s text)

  -- `listener.incoming()`: the connections one after the other, with what came of each
  unfoldable pub serve_connections :
      ℕ → Shared T → List Bytes → List (Outcome (Unit {0})) × Shared T
  serve_connections channel s [] = ([], s)
  serve_connections channel s (text ∷ texts) =
      let (outcome, s₁) = begin_connection s channel text in
      let (outcomes, s₂) = serve_connections (suc channel) s₁ texts in (outcome ∷ outcomes, s₂)

-- the rest of that thread, on what comes from the channel: `none` where its sender was dropped
unfoldable pub answer_connection : EditJson → Option Bytes → Outcome Bytes
answer_connection edits received = do
  contents ← unwrap received
  ok (edits.print_answer (record { data_bytes = contents }) ++ 10 ∷ [])

-- What the two programs ask of the system, on a world `W` with files `F` and sockets `S`; a call
-- whose `Result` the code looks at returns an `Outcome`.
pub record Surroundings (W F S : Type 0) : Type 0 where
  pub env : Bytes → Option Bytes
  pub open_file : W → Bytes → Outcome (F × W)
  pub read_to_end : W → F → Outcome (Bytes × W)
  pub seek : W → F → ℕ → Outcome W
  pub set_len : W → F → ℕ → Outcome W
  pub write_all : W → F → Bytes → Outcome W
  pub connect : W → Bytes → Outcome (S × W)
  pub send : W → S → Bytes → Outcome W
  pub read_to_string : W → S → Outcome (Bytes × W)
  pub print_error : W → Bytes → W

module _ {W F S : Type 0} (around : Surroundings W F S) where
  unfoldable pub run_editor : EditJson → W → Bytes → Outcome W
  run_editor edits w path = do
    (handle, w) ← around.open_file w path
    (contents, w) ← around.read_to_end w handle
    w ← expect_ok (around.seek w handle 0)
    socket_path ← unwrap (around.env (codes "NAK_SOCKET_PATH"))
    command_key ← unwrap (around.env (codes "NAK_COMMAND_KEY"))
    (stream, w) ← expect_ok (around.connect w socket_path)
    w ← expect_ok (around.send w stream (command_key ++ 10 ∷ []))
    w ← expect_ok (
        around.send w stream
          (edits.print_edit (record { file_name = path; data_bytes = contents }) ++ 10 ∷ []))
    (response, w) ← expect_ok (around.read_to_string w stream)
    resp ← unwrap (edits.read_answer response)
    w ← expect_ok (around.set_len w handle 0)
    expect_ok (around.write_all w handle resp.data_bytes)

  unfoldable pub run_pager : W → Outcome W
  run_pager w = do
    socket_path ← unwrap (around.env (codes "NAK_SOCKET_PATH"))
    command_key ← unwrap (around.env (codes "NAK_COMMAND_KEY"))
    (stream, w) ← expect_ok (around.connect w socket_path)
    w ← expect_ok (around.send w stream (command_key ++ 10 ∷ []))
    (response, w) ← expect_ok (around.read_to_string w stream)
    ok (around.print_error w (codes "pager_response " ++ response ++ 10 ∷ []))

pub data Mode : Type 0 where
  backend_mode pager_mode : Mode
  editor_mode : Bytes → Mode

-- `main`: what it runs on its arguments
unfoldable pub main_mode : List Bytes → Outcome Mode
main_mode (program ∷ []) = ok backend_mode
main_mode (program ∷ word ∷ []) = if bytes_eq word (codes "pager") then ok pager_mode else panic
main_mode (program ∷ word ∷ path ∷ []) =
    if bytes_eq word (codes "editor") then ok (editor_mode path) else panic
main_mode _ = panic
