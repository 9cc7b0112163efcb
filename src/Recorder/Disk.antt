-- ===== src/Recorder/Disk.antt =====
-- tools/record/src/main.rs: a recording on disk. The crates bincode and byteorder are parameters,
-- and a write to the file is taken to succeed.
pub mod Bounds
pub mod RoundTrip
use nak.Base.{
  ℕ, zero, suc, ◌+◌, ◌%◌, ◌^◌, ◌≡◌, leb, Bool, true, false, List, [], ◌∷◌, ◌++◌, length, take, drop,
  Option, none, some, Bytes, Outcome, ok, fault, out_of_fuel, failed, io, assert, unwrap, ◌>>=◌,
  ◌>>◌, ◌<◌,
}
use nak.Recorder.{Entry, Recording}

-- `bincode::serialize` and `bincode::deserialize`: `none` is an error.
pub record Bincode : Type 0 where
  pub serialize : Entry → Option Bytes
  pub deserialize : Bytes → Option Entry

pub record ByteOrder : Type 0 where
  pub write_u32 : ℕ → Bytes
  pub read_u32 : Bytes → ℕ

-- What is serialized is read back.
abbrev pub ReadsEntries : Bincode → Type 0
ReadsEntries b = (r : Entry) (d : Bytes) → b.serialize r ≡ some d → b.deserialize d ≡ some r

-- A number of 32 bits takes four bytes, and is read back.
pub record ReadsNumbers (o : ByteOrder) : Type 0 where
  pub four : (n : ℕ) → length (o.write_u32 n) ≡ 4
  pub back : (n : ℕ) (rest : Bytes) → n < 2 ^ 32 → o.read_u32 (o.write_u32 n ++ rest) ≡ n

-- `Err` of a crate, passed on by `?`
abbrev pub or_io : Option Entry → Outcome Entry
or_io (some r) = ok r
or_io none = fault (failed io)

module _ (bincode : Bincode) (order : ByteOrder) where
  -- `data.len() as u32`, and the bytes
  abbrev pub frame : Bytes → Bytes
  frame d = order.write_u32 (length d % 2 ^ 32) ++ d

  -- `DiskRecording::accept`, on the contents of the file
  unfoldable pub accept : Bytes → Entry → Outcome Bytes
  accept contents item = do d ← unwrap (bincode.serialize item); ok (contents ++ frame d)

  -- one round: the entry, and what is left of the bytes
  unfoldable pub read_entry : Bytes → Outcome (Entry × Bytes)
  read_entry rest = do
    let len = order.read_u32 rest
    let body = drop 4 rest
    assert (leb len (length body))
    r ← or_io (bincode.deserialize (take len body))
    ok (r, drop len body)

  unfoldable pub parse_loop : ℕ → Bytes → Outcome Recording
  parse_loop zero rest = fault out_of_fuel
  parse_loop (suc fuel) rest = elim (leb 4 (length rest)) [
    | false ↦ ok []
    | true ↦ do (r, rest') ← read_entry rest; rs ← parse_loop fuel rest'; ok (r ∷ rs)
  ]

  -- `Recording::parse`: each round but the last takes four bytes at least.
  unfoldable pub parse : Bytes → Outcome Recording
  parse contents = parse_loop (suc (length contents)) contents
