-- ===== src/Recorder/Replay/Whole.antt =====
-- A session of tools/record: recorded on disk, read back and replayed.
use nak.Base.{◌≡◌, ◌++◌, arith, ◌∙◌, Bool, List, [], Bytes, ok, All, Returns, Returns-bind}
use nak.Recorder.{Attrs, Recording, accept_each}
use nak.Recorder.Disk.{Bincode, ByteOrder, ReadsEntries, ReadsNumbers, accept, parse}
use nak.Recorder.Disk.RoundTrip.{Fits, parse-accept_each}
use nak.Recorder.Session.{Round, Session, push, record_session}
use nak.Recorder.Session.Told.{IsSmooth, program_output, program_ends}
use nak.Recorder.Session.Faithful.{record_session-Recorded}
use nak.Recorder.Session.OnDisk.{on_sink, record_session-on_sink}
use nak.Recorder.Replay.{Surroundings, play}
use nak.Recorder.Replay.Timely.{shown_bytes, NeverFails, play-outputs}
use mathlib.Core.List.{append-nil}

module _ (bincode : Bincode) (order : ByteOrder) (entries : ReadsEntries bincode)
    (numbers : ReadsNumbers order) (stale : Bytes) (around : Surroundings)
    (works : NeverFails around) where
  -- the file is read back, and the replay shows what the program wrote
  abbrev pub Replays : List Round → Bool × Session Bytes → Type 0
  Replays rs (ended, d) =
      (ended ≡ program_ends rs)
      × (d.to_terminal.taken ≡ program_output rs)
      × Returns (λ recording. shown_bytes (play around 0 recording).1 ≡ program_output rs)
          (parse bincode order d.sink)

  -- A session in which no read or write fails or blocks and whose entries can be serialized, in
  -- fewer than 2 ^ 32 bytes each, replayed where no write to stdout and no flush fails: recorded on disk, it returns; the file is parsed without an error,
  -- and its replay shows exactly what the program wrote, which is what the terminal had shown.
  pub record_session-Replays :
      (attrs : Attrs) (rs : List Round) (ended : Bool) (s : Session Recording)
      → record_session stale push attrs rs [] ≡ ok (ended, s)
      → All IsSmooth rs
      → All (Fits bincode order) s.sink
      → Returns (Replays rs) (record_session stale (accept bincode order) attrs rs [])
  record_session-Replays attrs rs ended s e smooth fits =
      let (q, p, t, i, o) = (rw e at (record_session-Recorded stale attrs rs smooth)) in
      rw (record_session-on_sink (accept bincode order) stale attrs rs ended s e []) (
        Returns-bind (λ file. parse bincode order (file ++ []) ≡ ok s.sink) (Replays rs)
          (accept_each (accept bincode order) [] s.sink) (λ y. ok (ended, on_sink s y))
          (parse-accept_each bincode order entries numbers s.sink [] fits (omega arith))
          λ file back.
            (q, t, rw (← append-nil file) rw back (play-outputs around works 0 s.sink ∙ o)))
