-- ===== src/Recorder/Replay/Timely.antt =====
-- When the replay of tools/record shows what.
use nak.Base.{
  ℕ, ◌≤◌, ◌≡◌, refl, ap, List, [], ◌∷◌, ◌++◌, some, Bytes, Outcome, ok, fault, failed, io,
}
use nak.Recorder.{Event, input, output, config, Recording}
use nak.Recorder.Replay.{Shown, Surroundings, go_on, play_event, wait_for, play}
use nak.Recorder.Session.Told.{output_of, outputs}

-- the outputs of a recording, with their time stamps
abbrev pub due_event : ℕ → Event → List (ℕ × Bytes)
due_event ts (output bytes) = (ts, bytes) ∷ []
due_event ts (input bytes) = []
due_event ts (config attrs) = []

abbrev pub due : Recording → List (ℕ × Bytes)
due [] = []
due (r ∷ rs) = due_event r.ts r.event ++ due rs

abbrev pub shown_bytes : List Shown → Bytes
shown_bytes [] = []
shown_bytes (x ∷ xs) = x.bytes ++ shown_bytes xs

-- Time does not go back, and a sleep is not shorter than it is asked to be.
pub record GoesOn (around : Surroundings) : Type 0 where
  pub sleeps : (d : ℕ) → d ≤ around.sleep d
  pub writes : (now : ℕ) (bytes : Bytes) (t : ℕ) → around.write_all now bytes ≡ some t → now ≤ t
  pub flushes : (now t : ℕ) → around.flush now ≡ some t → now ≤ t

-- No write to stdout and no flush fails.
pub record NeverFails (around : Surroundings) : Type 0 where
  pub writes : (now : ℕ) (bytes : Bytes) → (t : ℕ) × (around.write_all now bytes ≡ some t)
  pub flushes : (now : ℕ) → (t : ℕ) × (around.flush now ≡ some t)

-- Each output is shown, in order and nothing else: not before its time stamp, and not before what is
-- shown in front of it is written. If there are outputs left, there was an error.
abbrev pub IsTimely : Outcome (Unit {0}) → ℕ → List (ℕ × Bytes) → List Shown → Type 0
IsTimely result now [] [] = result ≡ ok tt
IsTimely result now [] (x ∷ xs) = ⊥
IsTimely result now (d ∷ ds) [] = result ≡ fault (failed io)
IsTimely result now ((ts, bytes) ∷ ds) (x ∷ xs) =
    (x.bytes ≡ bytes)
    × (now ≤ x.at)
    × (ts ≤ x.at)
    × (x.at ≤ x.until)
    × IsTimely result x.until ds xs

module _ (around : Surroundings) (works : NeverFails around) where
  play_event-outputs :
      (now : ℕ) (event : Event) (rs : Recording)
      → ((t : ℕ) → shown_bytes (play around t rs).1 ≡ outputs rs)
      → shown_bytes (go_on (play_event around now event) (λ t. play around t rs)).1
        ≡ output_of event ++ outputs rs
  unfolding play_event
  play_event-outputs now (output bytes) rs h =
      let (written, w) = works.writes now bytes in
      let (until, f) = works.flushes written in rw w rw f (ap (λ u. bytes ++ u) (h until))
  play_event-outputs now (input bytes) rs h = h now
  play_event-outputs now (config attrs) rs h = h now

  pub play-outputs :
      (elapsed : ℕ) (rs : Recording) → shown_bytes (play around elapsed rs).1 ≡ outputs rs
  unfolding play
  play-outputs elapsed [] = refl
  play-outputs elapsed (r ∷ rs) =
      play_event-outputs (wait_for around elapsed r.ts) r.event rs (λ t. play-outputs t rs)
