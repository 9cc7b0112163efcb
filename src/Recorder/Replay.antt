-- ===== src/Recorder/Replay.antt =====
-- tools/record/src/main.rs, `main`: what it does with a recording. Time is counted in nanoseconds
-- from the start of the replay. How long a sleep takes, and when a write to stdout is over, if it does
-- not fail, are parameters.
pub mod Timely
pub mod Whole
use nak.Base.{
  ℕ, ◌+◌, ◌-◌, ltb, if◌then◌else◌, List, [], ◌∷◌, ◌++◌, Option, none, some, Bytes, Outcome, ok,
  fault, failed, io, ◌>>=◌,
}
use nak.Recorder.{Event, input, output, config, Entry, Recording}

-- an output that was written and flushed: when that began, and when it was over
pub record Shown : Type 0 where
  pub at : ℕ
  pub until : ℕ
  pub bytes : Bytes

-- `sleep d` is how long a sleep of `d` takes; a write and a flush begin at a time, and end at one or
-- fail.
pub record Surroundings : Type 0 where
  pub sleep : ℕ → ℕ
  pub write_all : ℕ → Bytes → Option ℕ
  pub flush : ℕ → Option ℕ

-- an event, and the rest of the loop
abbrev pub go_on :
    Outcome (List Shown × ℕ)
    → (ℕ → Outcome (Unit {0}) × List Shown)
    → Outcome (Unit {0}) × List Shown
go_on (fault e) rest = (fault e, [])
go_on (ok (shown, t)) rest = let (result, more) = rest t in (result, shown ++ more)

-- `?` on an error of the system
abbrev pub try : Option ℕ → Outcome ℕ
try (some t) = ok t
try none = fault (failed io)

module _ (around : Surroundings) where
  -- one event, at the given time: what is shown, and the time afterwards
  unfoldable pub play_event : ℕ → Event → Outcome (List Shown × ℕ)
  play_event now (config attrs) = ok ([], now)
  play_event now (input bytes) = ok ([], now)
  play_event now (output bytes) = do
    written ← try (around.write_all now bytes)
    until ← try (around.flush written)
    ok (record { at = now; until = until; bytes = bytes } ∷ [], until)

  -- the time behind the `if` with the `sleep`
  abbrev pub wait_for : ℕ → ℕ → ℕ
  wait_for elapsed ts = if ltb elapsed ts then elapsed + around.sleep (ts - elapsed) else elapsed

  -- what the loop comes to, and what it has shown in full by then
  unfoldable pub play : ℕ → Recording → Outcome (Unit {0}) × List Shown
  play elapsed [] = (ok tt, [])
  play elapsed (r ∷ rs) = go_on (play_event (wait_for elapsed r.ts) r.event) (λ t. play t rs)
