-- ===== src/Tests/Recordings.antt =====
-- Recordings of tools/record: a codec, a short session and what becomes of it.
use nak.Base.{
  undefined, fault, bytes_eq, ℕ, zero, suc, ◌+◌, ◌*◌, ◌/◌, ◌%◌, ◌^◌, ◌<◌, ◌≤◌, ◌≡◌, refl, true,
  false, List, [], ◌∷◌, ◌++◌, length, Option, none, some, Bytes, codes, ok, panic, All, Returns,
  Settles, arith,
}
use nak.Recorder.{Attrs, attrs_eq, Event, input, output, config, Entry, Recording, accept_each}
use nak.Recorder.Disk.{Bincode, ByteOrder, ReadsEntries, ReadsNumbers, accept, parse}
use nak.Recorder.Disk.RoundTrip.{Fits, parse-accept_each, parse-torn}
use nak.Recorder.Disk.Bounds.{parse-Settles}
use nak.Recorder.Piper.{room, given, nothing_yet, Piper, write_loop, finish, pipe_loop, pipe_some}
use nak.Recorder.Piper.Lossless.{Copied, pipe_some-Copied}
use nak.Recorder.Piper.Lost.{then_blocks, pipe_some-undefined}
use nak.Recorder.Session.{
  Round, Session, push, check_config, copy_input, copy_output, record_round, record_loop,
  record_session,
}
use nak.Recorder.Session.Told.{IsSmooth, inputs, outputs}
use nak.Recorder.Session.Faithful.{record_session-Recorded}
use nak.Recorder.Replay.{Surroundings}
use nak.Recorder.Replay.Timely.{NeverFails}
use nak.Recorder.Replay.Whole.{Replays, record_session-Replays}
use nak.Recorder.Display.{color_coded}
use nak.Recorder.Display.Bytewise.{print_byte, color_coded-print_byte}

-- A codec: the time, a tag and the fields.
serialize : Entry → Option Bytes
serialize r = elim r.event [
  | output bytes ↦ some (r.ts ∷ 0 ∷ bytes)
  | input bytes ↦ some (r.ts ∷ 1 ∷ bytes)
  | config a ↦ some (
      r.ts ∷ 2 ∷ a.input_flags ∷ a.output_flags ∷ a.control_flags ∷ a.local_flags ∷ a.control_chars)
]

deserialize : Bytes → Option Entry
deserialize (ts ∷ zero ∷ bytes) = some (record { ts = ts; event = output bytes })
deserialize (ts ∷ suc zero ∷ bytes) = some (record { ts = ts; event = input bytes })
deserialize (ts ∷ suc (suc zero) ∷ i ∷ o ∷ c ∷ l ∷ chars) = some (record {
  ts = ts;
  event = config (record {
    input_flags = i;
    output_flags = o;
    control_flags = c;
    local_flags = l;
    control_chars = chars;
  });
})
deserialize other = none

abbrev tagged : Bincode
tagged = record { serialize = serialize; deserialize = deserialize }

reads_event :
    (ts : ℕ) (e : Event) (d : Bytes)
    → serialize (record { ts = ts; event = e }) ≡ some d
    → deserialize d ≡ some (record { ts = ts; event = e })
unfolding serialize deserialize
reads_event ts (output bytes) d h = cc
reads_event ts (input bytes) d h = cc
reads_event ts (config a) d h = cc

tagged-ReadsEntries : ReadsEntries tagged
tagged-ReadsEntries r d h = reads_event r.ts r.event d h

-- the lowest byte first
read_u32 : Bytes → ℕ
read_u32 (a ∷ b ∷ c ∷ d ∷ rest) = a + 256 * b + 65536 * c + 16777216 * d
read_u32 other = 0

abbrev little_endian : ByteOrder
little_endian = record {
  write_u32 = λ n. (n % 256) ∷ (n / 256 % 256) ∷ (n / 65536 % 256) ∷ (n / 16777216 % 256) ∷ [];
  read_u32 = read_u32;
}

read_u32_back :
    (n : ℕ) (rest : Bytes) → n < 2 ^ 32 → read_u32 (little_endian.write_u32 n ++ rest) ≡ n
unfolding read_u32
read_u32_back n rest h = omega arith

little_endian-ReadsNumbers : ReadsNumbers little_endian
little_endian-ReadsNumbers = record { four = λ n. refl; back = read_u32_back }

abbrev plain : Attrs
plain = record {
  input_flags = 1;
  output_flags = 2;
  control_flags = 3;
  local_flags = 4;
  control_chars = [];
}

abbrev raw : Attrs
raw = record plain { local_flags = 0 }

-- `l` is typed and the program writes `hi`; then it changes its terminal, writes `!` and ends.
abbrev first_round : Round
first_round = record {
  config_ts = 10;
  attrs = plain;
  stdin_readable = true;
  master_writable = false;
  master_readable = true;
  stdout_writable = false;
  input_ts = 11;
  input_reads = given (codes "l") ∷ [];
  input_writes = [];
  output_ts = 12;
  output_reads = given (codes "hi") ∷ nothing_yet ∷ [];
  output_writes = room 1 ∷ room 5 ∷ [];
}

abbrev last_round : Round
last_round = record first_round {
  config_ts = 20;
  attrs = raw;
  stdin_readable = false;
  output_ts = 22;
  output_reads = given (codes "!") ∷ given [] ∷ [];
  output_writes = [];
}

abbrev rounds : List Round
rounds = first_round ∷ last_round ∷ []

abbrev entries : Recording
entries =
    record { ts = 0; event = config plain }
    ∷ record { ts = 11; event = input (codes "l") }
    ∷ record { ts = 12; event = output (codes "hi") }
    ∷ record { ts = 20; event = config raw }
    ∷ record { ts = 22; event = output (codes "!") }
    ∷ []

abbrev ended_session : Session Recording
ended_session = record {
  current = raw;
  to_program = record { buf = []; taken = codes "l" };
  to_terminal = record { buf = codes "?"; taken = codes "hi!" };
  sink = entries;
}

rounds-IsSmooth : All IsSmooth rounds
rounds-IsSmooth = (
  ((tt, tt), tt, refl, (tt, (tt, tt)), (tt, (tt, tt))),
  (((tt, tt), tt, refl, (tt, (tt, tt)), tt), tt),
)

rounds-run : record_session (codes "?") push plain rounds [] ≡ ok (true, ended_session)
unfolding record_session record_loop record_round check_config copy_input copy_output pipe_some
    pipe_loop write_loop finish attrs_eq bytes_eq
rounds-run = refl

entries-Fits : All (Fits tagged little_endian) entries
unfolding serialize
entries-Fits = (
  (0 ∷ 2 ∷ 1 ∷ 2 ∷ 3 ∷ 4 ∷ [], refl, omega arith),
  (
    (11 ∷ 1 ∷ codes "l", refl, omega arith),
    (
      (12 ∷ 0 ∷ codes "hi", refl, omega arith),
      (
        (20 ∷ 2 ∷ 1 ∷ 2 ∷ 3 ∷ 0 ∷ [], refl, omega arith),
        ((22 ∷ 0 ∷ codes "!", refl, omega arith), tt),
      ),
    ),
  ),
)

-- a byte takes a nanosecond
abbrev steady : Surroundings
steady = record {
  sleep = λ d. d;
  write_all = λ now bytes. some (now + length bytes);
  flush = λ now. some now;
}

abbrev elapsed_by : ℕ → Option ℕ → ℕ
elapsed_by t (some u) = u
elapsed_by t none = t

steady-NeverFails : NeverFails steady
steady-NeverFails = record {
  writes = λ now bytes. (now + length bytes, refl);
  flushes = λ now. (now, refl);
}

record_session-Replays_example :
    Returns
      (Replays tagged little_endian tagged-ReadsEntries little_endian-ReadsNumbers
        (codes "?")
        steady
        steady-NeverFails
        rounds)
      (record_session (codes "?") (accept tagged little_endian) plain rounds [])
record_session-Replays_example =
    record_session-Replays tagged little_endian tagged-ReadsEntries little_endian-ReadsNumbers
      (codes "?") steady steady-NeverFails plain rounds true ended_session rounds-run
      rounds-IsSmooth entries-Fits

record_session-Recorded_example :
    Returns
      (λ (ended, s).
        (ended ≡ true)
        × (s.to_program.taken ≡ codes "l")
        × (s.to_terminal.taken ≡ codes "hi!")
        × (inputs s.sink ≡ codes "l")
        × (outputs s.sink ≡ codes "hi!"))
      (record_session (codes "?") push plain rounds [])
record_session-Recorded_example = record_session-Recorded (codes "?") plain rounds rounds-IsSmooth

parse-accept_each_example :
    Returns
      (λ file. parse tagged little_endian (file ++ 1 ∷ 2 ∷ []) ≡ ok entries)
      (accept_each (accept tagged little_endian) [] entries)
parse-accept_each_example =
    parse-accept_each tagged little_endian tagged-ReadsEntries little_endian-ReadsNumbers entries
      (1 ∷ 2 ∷ []) entries-Fits (omega arith)

parse-torn_example :
    Returns
      (λ file. parse tagged little_endian (file ++ (little_endian.write_u32 3 ++ 9 ∷ [])) ≡ panic)
      (accept_each (accept tagged little_endian) [] entries)
parse-torn_example =
    parse-torn tagged little_endian tagged-ReadsEntries little_endian-ReadsNumbers entries 3
      (9 ∷ []) entries-Fits (omega arith) (omega arith)

parse-Settles_example :
    Settles (λ rs. 4 * length rs ≤ 5) (parse tagged little_endian (1 ∷ 0 ∷ 0 ∷ 0 ∷ 7 ∷ []))
parse-Settles_example = parse-Settles tagged little_endian (1 ∷ 0 ∷ 0 ∷ 0 ∷ 7 ∷ [])

abbrev full_piper : Piper
full_piper = record { buf = codes "ab"; taken = [] }

pipe_some-Copied_example :
    Returns (Copied (codes "?") (given (codes "cd") ∷ nothing_yet ∷ []) full_piper []) (
      pipe_some
        (codes "?")
        (given (codes "cd") ∷ nothing_yet ∷ [])
        (room 1 ∷ room 9 ∷ [])
        full_piper)
pipe_some-Copied_example =
    pipe_some-Copied (codes "?") (given (codes "cd") ∷ nothing_yet ∷ []) (room 1 ∷ room 9 ∷ [])
      full_piper (tt, (tt, tt)) (tt, (tt, tt))

pipe_some-undefined_example :
    pipe_some
      (codes "?")
      (given (codes "abcd") ∷ [])
      (then_blocks (2 ∷ []) [])
      (record { buf = []; taken = [] })
    ≡ fault undefined
pipe_some-undefined_example =
    pipe_some-undefined (codes "?") [] (2 ∷ []) [] b'a' (codes "bcd") []
      (omega arith, (omega arith, omega arith))

color_coded-print_byte_example :
    color_coded (codes "w") (codes "<") (codes ">") (b'a' ∷ 10 ∷ 27 ∷ b'b' ∷ [])
    ≡ ok (codes "a<0a1b>b")
unfolding print_byte
color_coded-print_byte_example =
    color_coded-print_byte (codes "w") (codes "<") (codes ">") (b'a' ∷ 10 ∷ 27 ∷ b'b' ∷ [])
