-- ===== src/Recorder/Tool.antt =====
-- tools/record/src/main.rs: the terminal that a recording needs, and `main`.
use nak.Base.{ℕ, Bool, true, false, not, ◌&&◌, List, Bytes, Outcome, ok, assert, ◌>>=◌, ◌>>◌}
use nak.Recorder.{Attrs, Recording}
use nak.Recorder.Disk.{Bincode, ByteOrder, parse}
use nak.Recorder.Replay.{Shown, Surroundings, play}
use nak.Recorder.Display.{show_recording}

-- the flags of a terminal that `setup_master` names
pub record Flags : Type 0 where
  pub ignbrk : Bool
  pub brkint : Bool
  pub ixon : Bool
  pub icrnl : Bool
  pub imaxbel : Bool
  pub echoe : Bool
  pub echok : Bool
  pub echo : Bool
  pub isig : Bool
  pub icanon : Bool
  pub iexten : Bool
  pub pendin : Bool

-- `setup_master`, on these flags; all others are kept
unfoldable pub setup_master : Flags → Flags
setup_master attrs = record {
  ignbrk = true;
  brkint = false;
  ixon = false;
  icrnl = false;
  imaxbel = false;
  echoe = false;
  echok = false;
  echo = false;
  isig = false;
  icanon = false;
  iexten = false;
  pendin = false;
}

pub record Args : Type 0 where
  pub is_play : Bool
  pub is_display : Bool

-- what `main` does: `record` is called, outputs are shown, up to an error at most, or a text is printed
pub data Run : Type 0 where
  records : Run
  shows : Outcome (Unit {0}) × List Shown → Run
  prints : Bytes → Run

module _ (bincode : Bincode) (order : ByteOrder) (around : Surroundings) (white red reset : Bytes)
    (show_time : ℕ → Bytes) (show_attrs : Attrs → Bytes) where
  -- the second half of `main`, on the recording
  unfoldable pub use_recording : Args → Recording → Outcome Run
  use_recording args r = elim args.is_play [
    | true ↦ do assert (not args.is_display); ok (shows (play around 0 r))
    | false ↦ do out ← show_recording white red reset show_time show_attrs r; ok (prints out)
  ]

  -- `main`, on the contents of the file
  unfoldable pub main : Args → Bytes → Outcome Run
  main args contents = elim (not args.is_play && not args.is_display) [
    | true ↦ ok records
    | false ↦ do r ← parse bincode order contents; use_recording args r
  ]
