-- ===== src/Recorder/Disk/RoundTrip.antt =====
-- The files that a `DiskRecording` of tools/record writes, read by `Recording::parse`.
use nak.Base.{
  ℕ, zero, suc, ◌+◌, ◌%◌, ◌^◌, ◌<◌, ◌≡◌, refl, ap, sym, ◌∙◌, leb, true, false, List, [], ◌∷◌, ◌++◌,
  length, drop-append, take-append, length-append, some, Bytes, Outcome, ok, fault, panic, ◌>>=◌,
  All, Returns, >>=_assoc, arith,
}
use nak.Recorder.{Entry, Recording, accept_each}
use nak.Recorder.Disk.{
  Bincode, ByteOrder, read_entry, ReadsEntries, ReadsNumbers, frame, accept, parse_loop, parse,
}
use mathlib.Core.List.{append_assoc, append-nil}

module _ (bincode : Bincode) (order : ByteOrder) where
  -- the frames of a list of entries that can be serialized, each in fewer than 2 ^ 32 bytes
  pub data Frames : List Entry → Bytes → Type 0 where
    nil : Frames [] []
    more :
        {r : Entry} {rs : List Entry} {d : Bytes} {file : Bytes}
        → bincode.serialize r ≡ some d
        → length d < 2 ^ 32
        → Frames rs file
        → Frames (r ∷ rs) (frame bincode order d ++ file)

  -- The entry can be serialized, in fewer than 2 ^ 32 bytes.
  abbrev pub Fits : Entry → Type 0
  Fits r = (d : Bytes) × (bincode.serialize r ≡ some d) × (length d < 2 ^ 32)

  frames : (rs : List Entry) → All Fits rs → (file : Bytes) × Frames rs file
  frames [] h = ([], nil)
  frames (r ∷ rs) ((d, s, l), h) =
      let (file, f) = frames rs h in (frame bincode order d ++ file, more s l f)

  accept_each-Frames :
      (rs : List Entry) (contents file : Bytes)
      → Frames rs file
      → accept_each (accept bincode order) contents rs ≡ ok (contents ++ file)
  unfolding accept_each accept
  accept_each-Frames _ contents _ nil = ap ok (sym (append-nil contents))
  accept_each-Frames (r ∷ rs) contents _ (more {d = d} {file = file} s l f) = rw s (
      accept_each-Frames rs (contents ++ frame bincode order d) file f
      ∙ ap ok (append_assoc contents (frame bincode order d) file))

  module _ (entries : ReadsEntries bincode) (numbers : ReadsNumbers order) where
    read_entry-frame :
        (r : Entry) (d rest : Bytes)
        → bincode.serialize r ≡ some d
        → length d < 2 ^ 32
        → read_entry bincode order (frame bincode order d ++ rest) ≡ ok (r, rest)
    unfolding read_entry
    read_entry-frame r d rest s l =
        let head = order.write_u32 (length d) in
        let four = numbers.four (length d) in
        let n' = length-append d rest in
        let m : length d % 2 ^ 32 ≡ length d = omega (arith, l) in
        let fits : leb (length d) (length (d ++ rest)) ≡ true = ground (arith, n') in
        rw m rw (append_assoc head d rest) rw (numbers.back (length d) (d ++ rest) l) rw
          (drop-append 4 head (d ++ rest) four) rw fits rw (take-append (length d) d rest refl) rw
          (entries r d s) rw (drop-append (length d) d rest refl) refl

    length-frame :
        (d rest : Bytes) → length (frame bincode order d ++ rest) ≡ 4 + length d + length rest
    length-frame d rest =
        let head = order.write_u32 (length d % 2 ^ 32) in
        omega (
          arith,
          length-append (head ++ d) rest,
          length-append head d,
          numbers.four (length d % 2 ^ 32),
        )

    -- what stands in front of `rest` is read first, whatever becomes of `rest`
    parse_loop-Frames :
        (fuel : ℕ) (rs : List Entry) (file rest : Bytes) (z : Outcome Recording)
        → Frames rs file
        → ((k : ℕ) → length rest < k → parse_loop bincode order k rest ≡ z)
        → length (file ++ rest) < fuel
        → parse_loop bincode order fuel (file ++ rest) ≡ (z >>= λ ss. ok (rs ++ ss))
    unfolding parse_loop
    parse_loop-Frames zero rs file rest z f t h = absurd (omega arith)
    parse_loop-Frames (suc fuel) _ _ rest z nil t h = t (suc fuel) h ∙ unit z
      where
        unit : (m : Outcome Recording) → m ≡ (m >>= λ ss. ok ss)
        unit (ok ss) = refl
        unit (fault e) = refl
    parse_loop-Frames (suc fuel) (r ∷ rs) _ rest z (more {d = d} {file = file} s l f) t h =
        let n = length-frame d (file ++ rest) in
        let p = append_assoc (frame bincode order d) file rest in
        let h' : length (frame bincode order d ++ (file ++ rest)) < suc fuel = rw (← p) h in
        let enough : leb 4 (length (frame bincode order d ++ (file ++ rest))) ≡ true =
          ground (arith, n) in
        rw p rw (enough, parse_loop) rw (read_entry-frame r d (file ++ rest) s l) rw
          (parse_loop-Frames fuel rs file rest z f t (omega (arith, n)))
          (>>=_assoc z (λ ss. ok (rs ++ ss)) (λ ss. ok (r ∷ ss)))

    parse_loop-short :
        (tail : Bytes) (k : ℕ)
        → length tail < 4
        → length tail < k
        → parse_loop bincode order k tail ≡ ok []
    unfolding parse_loop
    parse_loop-short tail zero t h = absurd (omega arith)
    parse_loop-short tail (suc k) t h =
        let short : leb 4 (length tail) ≡ false = ground (arith, t) in rw (short, parse_loop) refl

    -- Entries that can be serialized in fewer than 2 ^ 32 bytes each are written, and `parse` reads
    -- exactly these entries back, in order, also where up to three bytes of a next one follow.
    pub parse-accept_each :
        (rs : List Entry) (tail : Bytes)
        → All Fits rs
        → length tail < 4
        → Returns
            (λ file. parse bincode order (file ++ tail) ≡ ok rs)
            (accept_each (accept bincode order) [] rs)
    unfolding parse
    parse-accept_each rs tail h t =
        let (file, f) = frames rs h in
        rw (accept_each-Frames rs [] file f) (
          parse_loop-Frames (suc (length (file ++ tail))) rs file tail (ok []) f
            (λ k. parse_loop-short tail k t) (omega arith)
          ∙ ap ok (append-nil rs))

    parse_loop-torn :
        (n : ℕ) (part : Bytes) (k : ℕ)
        → n < 2 ^ 32
        → length part < n
        → length (order.write_u32 n ++ part) < k
        → parse_loop bincode order k (order.write_u32 n ++ part) ≡ panic
    unfolding parse_loop read_entry
    parse_loop-torn n part zero l p h = absurd (omega arith)
    parse_loop-torn n part (suc k) l p h =
        let four = numbers.four n in
        let enough : leb 4 (length (order.write_u32 n ++ part)) ≡ true =
          ground (arith, four, length-append (order.write_u32 n) part) in
        let long : leb n (length part) ≡ false = ground (arith, p) in
        rw (enough, parse_loop) rw (numbers.back n part l) rw
          (drop-append 4 (order.write_u32 n) part four) rw long refl

    -- A file that breaks off within the bytes of an entry, behind its length: `parse` panics,
    -- however many whole entries stand in front.
    pub parse-torn :
        (rs : List Entry) (n : ℕ) (part : Bytes)
        → All Fits rs
        → n < 2 ^ 32
        → length part < n
        → Returns
            (λ file. parse bincode order (file ++ (order.write_u32 n ++ part)) ≡ panic)
            (accept_each (accept bincode order) [] rs)
    unfolding parse
    parse-torn rs n part h l p =
        let (file, f) = frames rs h in
        let torn = order.write_u32 n ++ part in
        rw (accept_each-Frames rs [] file f) (
          parse_loop-Frames (suc (length (file ++ torn))) rs file torn panic f
            (λ k. parse_loop-torn n part k l p) (omega arith))
