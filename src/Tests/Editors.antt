-- ===== src/Tests/Editors.antt =====
-- An instance of the theorem about the editor's socket, and the modes of the backend's program.
use nak.Base.{◌≡◌, refl, List, [], ◌∷◌, map, some, Bytes, bytes_eq, codes, ok, panic}
use nak.Backend.Service.Arrival.{wire}
use nak.Backend.Editor.{EditJson, Shared, Mode, begin_shared, serve_connections, main_mode}
use nak.Backend.Editor.Refused.{serve_connections-panic}
use nak.Tests.Codec.{codec}

main_mode_lem :
    main_mode (codes "nak-backend" ∷ codes "editor" ∷ codes "list" ∷ [])
    ≡ ok (Mode.editor_mode (codes "list"))
unfolding main_mode bytes_eq
main_mode_lem = refl

-- a format in which a message is its data
abbrev bare_edits : EditJson
bare_edits = record {
  print_edit = λ r. r.data_bytes;
  read_edit = λ s. some (record { file_name = []; data_bytes = s });
  print_answer = λ r. r.data_bytes;
  read_answer = λ s. some (record { data_bytes = s });
}

abbrev at_start : Shared (List Bytes)
at_start = begin_shared (record { trans = [] })

no_commands : at_start.running_commands ≡ []
unfolding begin_shared
no_commands = refl

serve_connections-panic_example :
    serve_connections wire codec bare_edits 0 at_start (codes "key\n{}\n" ∷ codes "x" ∷ [])
    ≡ (map (λ text. panic) (codes "key\n{}\n" ∷ codes "x" ∷ []), at_start)
serve_connections-panic_example =
    serve_connections-panic wire codec bare_edits at_start 0 (codes "key\n{}\n" ∷ codes "x" ∷ [])
      no_commands
