-- ===== src/Recorder/Session/Told.antt =====
-- What a recording of tools/record tells, and what a list of rounds brings.
use nak.Base.{◌≡◌, ap, sym, ◌∙◌, Bool, true, false, if◌then◌else◌, List, [], ◌∷◌, ◌++◌, Bytes, All}
use nak.Recorder.{Event, input, output, config, Entry, Recording}
use nak.Recorder.Piper.Lossless.{HasRoom, Gives, incoming, at_end}
use nak.Recorder.Session.{Round}
use mathlib.Core.List.{append_assoc, append-nil}

abbrev pub output_of : Event → Bytes
output_of (output bytes) = bytes
output_of (input bytes) = []
output_of (config attrs) = []

abbrev pub input_of : Event → Bytes
input_of (input bytes) = bytes
input_of (output bytes) = []
input_of (config attrs) = []

-- what the program wrote, and what was typed, by a recording
abbrev pub outputs : Recording → Bytes
outputs [] = []
outputs (r ∷ rs) = output_of r.event ++ outputs rs

abbrev pub inputs : Recording → Bytes
inputs [] = []
inputs (r ∷ rs) = input_of r.event ++ inputs rs

-- No read or write fails or blocks, and what is typed does not end.
abbrev pub IsSmooth : Round → Type 0
IsSmooth r =
    All Gives r.input_reads
    × All HasRoom r.input_writes
    × (at_end r.input_reads ≡ false)
    × All Gives r.output_reads
    × All HasRoom r.output_writes

-- what the program writes in a round, whether it ends then, and what is typed
abbrev pub round_output : Round → Bytes
round_output r = if r.master_readable then incoming r.output_reads else []

abbrev pub round_ends : Round → Bool
round_ends r = if r.master_readable then at_end r.output_reads else false

abbrev pub round_input : Round → Bytes
round_input r = if r.stdin_readable then incoming r.input_reads else []

-- the same of all rounds, up to the one in which the program ends
abbrev pub program_output : List Round → Bytes
program_output [] = []
program_output (r ∷ rs) = round_output r ++ (if round_ends r then [] else program_output rs)

abbrev pub typed : List Round → Bytes
typed [] = []
typed (r ∷ rs) = round_input r ++ (if round_ends r then [] else typed rs)

abbrev pub program_ends : List Round → Bool
program_ends [] = false
program_ends (r ∷ rs) = if round_ends r then true else program_ends rs

pub outputs-push :
    (rs : Recording) (r : Entry) → outputs (rs ++ r ∷ []) ≡ outputs rs ++ output_of r.event
outputs-push [] r = append-nil (output_of r.event)
outputs-push (x ∷ rs) r =
    ap (λ t. output_of x.event ++ t) (outputs-push rs r)
    ∙ sym (append_assoc (output_of x.event) (outputs rs) (output_of r.event))

pub inputs-push :
    (rs : Recording) (r : Entry) → inputs (rs ++ r ∷ []) ≡ inputs rs ++ input_of r.event
inputs-push [] r = append-nil (input_of r.event)
inputs-push (x ∷ rs) r =
    ap (λ t. input_of x.event ++ t) (inputs-push rs r)
    ∙ sym (append_assoc (input_of x.event) (inputs rs) (input_of r.event))
