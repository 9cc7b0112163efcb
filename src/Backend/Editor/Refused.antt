-- ===== src/Backend/Editor/Refused.antt =====
-- The connections of a backend whose table of commands stays as `run_backend` begins it.
use nak.Base.{map, suc, List, [], ◌∷◌, ℕ, ◌≡◌, refl, Bytes, panic, Bool-cases, inl, inr}
use nak.Protocol.Endpoint.{Transport, Json}
use nak.Frontend.Prompt.{is_utf8, pop, is_newline}
use nak.Backend.Editor.{
  EditJson, Shared, read_connection, begin_connection, serve_connections, read_line, split_line,
  find_command,
}

module _ {T : Type 0} (transport : Transport T) (json : Json) (edits : EditJson) where
  read_connection-panic :
      (s : Shared T) (text : Bytes) → s.running_commands ≡ [] → read_connection edits s text ≡ panic
  unfolding read_connection read_line find_command
  read_connection-panic s text h = elim (Bool-cases (is_utf8 (split_line text).0)) [
    | inr n ↦ rw n refl
    | inl y ↦ rw y (elim (Bool-cases (is_newline (pop (split_line text).0).0)) [
      | inr n ↦ rw n refl
      | inl l ↦ rw l rw h refl
    ])
  ]

  -- On a state in which the table of commands is empty, such as the one that `run_backend` begins
  -- with: whatever connections come, in any number, and whatever arrives on them, the thread of each
  -- panics, and after all of them the state is the same: nothing was sent to the frontend, no channel
  -- was entered, and the table is still empty.
  pub serve_connections-panic :
      (s : Shared T) (channel : ℕ) (texts : List Bytes)
      → s.running_commands ≡ []
      → serve_connections transport json edits channel s texts ≡ (map (λ text. panic) texts, s)
  unfolding serve_connections begin_connection
  serve_connections-panic s channel [] h = refl
  serve_connections-panic s channel (text ∷ texts) h =
      rw (read_connection-panic s text h) rw (serve_connections-panic s (suc channel) texts h) refl
