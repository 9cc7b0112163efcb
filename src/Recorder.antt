-- ===== src/Recorder.antt =====
-- tools/record/src/main.rs: what a recording holds. A time is a number of nanoseconds.
pub mod Disk
pub mod Piper
pub mod Session
pub mod Replay
pub mod Display
pub mod Tool
use nak.Base.{ℕ, ◌==◌, ◌&&◌, Bool, List, [], ◌∷◌, Bytes, bytes_eq, Outcome, ok, ◌>>=◌}

pub record Attrs : Type 0 where
  pub input_flags : ℕ
  pub output_flags : ℕ
  pub control_flags : ℕ
  pub local_flags : ℕ
  pub control_chars : Bytes

-- `==` of `Attrs`
unfoldable pub attrs_eq : Attrs → Attrs → Bool
attrs_eq a b =
    a.input_flags == b.input_flags
    && (a.output_flags == b.output_flags
        && (a.control_flags == b.control_flags
            && (a.local_flags == b.local_flags && bytes_eq a.control_chars b.control_chars)))

pub data Event : Type 0 where
  input : Bytes → Event
  output : Bytes → Event
  config : Attrs → Event

-- `Record` of the source
pub record Entry : Type 0 where
  pub ts : ℕ
  pub event : Event

-- `Recording`, and the file of a `DiskRecording`
abbrev pub Recording : Type 0
Recording = List Entry

-- `Sink::accept` of each entry of a list
unfoldable pub accept_each : {R : Type 0} → (R → Entry → Outcome R) → R → List Entry → Outcome R
accept_each accept sink [] = ok sink
accept_each accept sink (r ∷ rs) = do sink' ← accept sink r; accept_each accept sink' rs
