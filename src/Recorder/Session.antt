-- ===== src/Recorder/Session.antt =====
-- tools/record/src/main.rs: the loop of `record`, which copies between the terminal and the program
-- that is recorded, and writes down what it copies. What the system reports in a round of the loop
-- is a value; the sink is the argument `accept`.
pub mod Told
pub mod Rounds
pub mod Faithful
pub mod Follows
pub mod OnDisk
use nak.Base.{
  ℕ, ◌&&◌, ◌||◌, Bool, true, false, if◌then◌else◌, not, List, [], ◌∷◌, ◌++◌, Bytes, Outcome, ok,
  panic, ◌>>=◌, ◌>>◌, assert,
}
use nak.Recorder.{Attrs, attrs_eq, Event, input, output, config, Entry, Recording}
use nak.Recorder.Piper.{WriteAnswer, ReadAnswer, Piper, Piped, new, pipe_some}

-- What `tcgetattr`, `select`, the clock and the descriptors answer in a round.
pub record Round : Type 0 where
  pub config_ts : ℕ
  pub attrs : Attrs
  pub stdin_readable : Bool
  pub master_writable : Bool
  pub master_readable : Bool
  pub stdout_writable : Bool
  pub input_ts : ℕ
  pub input_reads : List ReadAnswer
  pub input_writes : List WriteAnswer
  pub output_ts : ℕ
  pub output_reads : List ReadAnswer
  pub output_writes : List WriteAnswer

pub record Session (R : Type 0) : Type 0 where
  pub current : Attrs
  pub to_program : Piper
  pub to_terminal : Piper
  pub sink : R

-- `buf.len() > 0`
abbrev pub is_pending : Piper → Bool
is_pending p = elim p.buf [ [] ↦ false | b ∷ bs ↦ true ]

-- `Recording::accept`
abbrev pub push : Recording → Entry → Outcome Recording
push records item = ok (records ++ item ∷ [])

module _ (stale : Bytes) {R : Type 0} (accept : R → Entry → Outcome R) where
  unfoldable pub check_config : Round → Session R → Outcome (Session R)
  check_config r s = elim (attrs_eq r.attrs s.current) [
    | true ↦ ok s
    | false ↦ do
      sink ← accept s.sink (record { ts = r.config_ts; event = config r.attrs })
      ok (record s { current = r.attrs; sink = sink })
  ]

  -- `write_set` holds a descriptor only if there is something to write.
  unfoldable pub copy_input : Round → Session R → Outcome (Session R)
  copy_input r s = elim (r.stdin_readable || (is_pending s.to_program && r.master_writable)) [
    | false ↦ ok s
    | true ↦ do
      d ← pipe_some stale r.input_reads r.input_writes s.to_program
      sink ← accept s.sink (record { ts = r.input_ts; event = input d.chunk })
      assert (not d.eof)
      ok (record s { to_program = d.piper; sink = sink })
  ]

  -- the flag says that the loop breaks
  unfoldable pub copy_output : Round → Session R → Outcome (Bool × Session R)
  copy_output r s = elim (r.master_readable || (is_pending s.to_terminal && r.stdout_writable)) [
    | false ↦ ok (false, s)
    | true ↦ do
      d ← pipe_some stale r.output_reads r.output_writes s.to_terminal
      sink ← accept s.sink (record { ts = r.output_ts; event = output d.chunk })
      ok (d.eof, record s { to_terminal = d.piper; sink = sink })
  ]

  unfoldable pub record_round : Round → Session R → Outcome (Bool × Session R)
  record_round r s = do s₁ ← check_config r s; s₂ ← copy_input r s₁; copy_output r s₂

  -- The `loop`: at the end of the list it goes on.
  unfoldable pub record_loop : List Round → Session R → Outcome (Bool × Session R)
  record_loop [] s = ok (false, s)
  record_loop (r ∷ rs) s = do
    (ended, s') ← record_round r s
    elim ended [ true ↦ ok (true, s') | false ↦ record_loop rs s' ]

  -- `record`, behind the start of the program
  unfoldable pub record_session : Attrs → List Round → R → Outcome (Bool × Session R)
  record_session attrs rounds sink = do
    sink' ← accept sink (record { ts = 0; event = config attrs })
    record_loop rounds
        (record { current = attrs; to_program = new; to_terminal = new; sink = sink' })
