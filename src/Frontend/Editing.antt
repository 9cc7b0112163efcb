-- ===== src/Frontend/Editing.antt =====
-- frontend/src/comm.rs: what `StackedRemotes` does on a request to edit a file, and
-- `EndpointExt::run`. The temporary directory and the program `micro` are a parameter: the name of
-- the file and its contents lead to whether the program succeeded and what it left in the file.
pub mod Answered
use nak.Base.{
  ℕ, suc, ◌==◌, ◌++◌, Bool, if◌then◌else◌, List, [], ◌∷◌, Option, none, some, Bytes, codes, drop,
  Outcome, ok, expect_ok, assert, ◌>>=◌, ◌>>◌,
}
use nak.Protocol.{Command, ProcessId, WritePipes, ReadProcess}
use nak.Protocol.Endpoint.{
  Transport, Json, Endpoint, new_pipe, new_command, new_output_file, send_edit,
}
use nak.Frontend.{StackedRemotes, write_own, cur_remote}

-- `str::rfind`, for one byte
unfoldable pub rfind : Bytes → ℕ → Option ℕ
rfind [] c = none
rfind (b ∷ bs) c = elim (rfind bs c) [
  | some i ↦ some (suc i)
  | none ↦ if b == c then some 0 else none
]

-- `name.rfind("/").map(|x| x+1).unwrap_or(0)`
abbrev name_start : Option ℕ → ℕ
name_start none = 0
name_start (some x) = suc x

unfoldable pub file_name : Bytes → Bytes
file_name name = drop (name_start (rfind name 47)) name

module _ {T : Type 0} (transport : Transport T) (json : Json)
    (micro : Bytes → Bytes → Outcome (Bool × Bytes)) where
  -- `StackedRemotes::edit_request`
  unfoldable pub edit_file :
      Endpoint T StackedRemotes
      → ℕ
      → ProcessId
      → Bytes
      → Bytes
      → Outcome (Endpoint T StackedRemotes)
  edit_file e edit_id command_id name contents = do
    h₁ ← expect_ok (write_own e.handler)
    h₂ ← write_own (record h₁ { stdout = h₁.stdout ++ (codes "editing " ++ name ++ 10 ∷ []) })
    (succeeded, new_contents) ← micro (file_name name) contents
    assert succeeded
    send_edit transport json (record e { handler = record h₂ { stdout = h₂.stdout ++ contents } })
        command_id edit_id new_contents

module _ {T : Type 0} (transport : Transport T) (json : Json) where
  -- `EndpointExt::run`
  unfoldable pub run_process :
      Endpoint T StackedRemotes
      → Command
      → Option Bytes
      → Outcome (ReadProcess × Endpoint T StackedRemotes)
  run_process e c redirect = do
    cur ← cur_remote e
    let ((stderr_read, stderr_write), e₁) = new_pipe e
    let ((stdin_read, stdin_write), e₂) = new_pipe e₁
    elim redirect [
      | some path ↦ do
        (stdout_write, e₃) ← new_output_file transport json e₂ cur path
        let ((stdout_read, unused), e₄) = new_pipe e₃
        (id, e₅) ←
            new_command transport json e₄ cur c []
              (record { stdin = stdin_read; stdout = stdout_write; stderr = stderr_write })
        ok (
          record {
            id = id;
            pipes = record { stdin = stdin_write; stdout = stdout_read; stderr = stderr_read };
          },
          e₅,
        )
      | none ↦ do
        let ((stdout_read, stdout_write), e₃) = new_pipe e₂
        (id, e₄) ←
            new_command transport json e₃ cur c []
              (record { stdin = stdin_read; stdout = stdout_write; stderr = stderr_write })
        ok (
          record {
            id = id;
            pipes = record { stdin = stdin_write; stdout = stdout_read; stderr = stderr_read };
          },
          e₄,
        )
    ]
