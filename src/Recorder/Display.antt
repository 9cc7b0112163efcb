-- ===== src/Recorder/Display.antt =====
-- tools/record/src/main.rs: how a recording is printed. The escapes of the crate termion, the
-- format of a time and the `Debug` format of `Attrs` are arguments.
pub mod Bytewise
use nak.Base.{
  ℕ, zero, suc, ◌+◌, ◌-◌, ◌/◌, ◌%◌, ltb, leb, ◌&&◌, Bool, true, false, if◌then◌else◌, not, List, [],
  ◌∷◌, ◌++◌, length, codes, Bytes, Outcome, ok, fault, out_of_fuel, ◌>>=◌,
}
use nak.Recorder.{Attrs, Event, input, output, config, Entry, Recording}

-- `>= 0x20 && <= 0x7e`
abbrev pub is_printable : ℕ → Bool
is_printable b = leb 0x20 b && leb b 0x7e

abbrev pub hex_digit : ℕ → ℕ
hex_digit d = if ltb d 10 then b'0' + d else b'a' + (d - 10)

-- `{:02x}`
abbrev pub hex : ℕ → Bytes
hex b = hex_digit (b / 16) ∷ hex_digit (b % 16) ∷ []

-- the `while` over printable bytes: what is passed over, and the rest
unfoldable pub printable_run : Bytes → Bytes × Bytes
printable_run [] = ([], [])
printable_run (b ∷ bs) = elim (is_printable b) [
  | true ↦ let (run, rest) = printable_run bs in (b ∷ run, rest)
  | false ↦ ([], b ∷ bs)
]

-- the `while` over the other bytes: what is written, and the rest
unfoldable pub hex_run : Bytes → Bytes × Bytes
hex_run [] = ([], [])
hex_run (b ∷ bs) = elim (is_printable b) [
  | true ↦ ([], b ∷ bs)
  | false ↦ let (run, rest) = hex_run bs in (hex b ++ run, rest)
]

module _ (white red reset : Bytes) where
  -- `ColorCoded::fmt`: the list is what `i` has not reached.
  unfoldable pub color_loop : ℕ → Bytes → Outcome Bytes
  color_loop zero bytes = fault out_of_fuel
  color_loop (suc fuel) [] = ok []
  color_loop (suc fuel) (b ∷ bs) = elim (is_printable b) [
    | true ↦ do
      let (run, rest) = printable_run (b ∷ bs)
      out ← color_loop fuel rest
      ok (run ++ out)
    | false ↦ do
      let (run, rest) = hex_run (b ∷ bs)
      out ← color_loop fuel rest
      ok (red ++ (run ++ (reset ++ out)))
  ]

  unfoldable pub color_coded : Bytes → Outcome Bytes
  color_coded bytes = color_loop (suc (length bytes)) bytes

  module _ (show_time : ℕ → Bytes) (show_attrs : Attrs → Bytes) where
    unfoldable pub show_event : Event → Outcome (Bytes × Bytes)
    show_event (input bytes) = do out ← color_coded bytes; ok (codes "In", out)
    show_event (output bytes) = do out ← color_coded bytes; ok (codes "Out", out)
    show_event (config attrs) = ok (codes "Config", show_attrs attrs)

    -- `Recording::fmt`
    unfoldable pub show_recording : Recording → Outcome Bytes
    show_recording [] = ok []
    show_recording (r ∷ rs) = do
      (name, out) ← show_event r.event
      others ← show_recording rs
      ok (
          white
          ++ (show_time r.ts
              ++ (reset
                  ++ (codes " " ++ (name ++ (codes ": " ++ (out ++ (codes "\n" ++ others))))))))
