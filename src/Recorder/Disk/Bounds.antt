-- ===== src/Recorder/Disk/Bounds.antt =====
-- `Recording::parse` of tools/record, on any bytes.
use nak.Base.{
  ℕ, zero, suc, ◌+◌, ◌*◌, ◌<◌, ◌≤◌, ◌≡◌, leb, Bool, true, false, List, [], ◌∷◌, length, take, drop,
  Option, none, some, Bytes, Settles, Settles-bind, assert, Bool-cases, inl, inr, arith,
}
use nak.Recorder.{Entry}
use nak.Recorder.Disk.{Bincode, ByteOrder, or_io, read_entry, parse_loop, parse}

length-drop {ℓ} : {A : Type ℓ} (n : ℕ) (xs : List A) → length (drop n xs) ≤ length xs
length-drop zero xs = omega arith
length-drop (suc n) [] = omega arith
length-drop (suc n) (x ∷ xs) = omega (arith, length-drop n xs)

length-drop_4 {ℓ} : {A : Type ℓ} (xs : List A) → 4 ≤ length xs → length (drop 4 xs) + 4 ≡ length xs
length-drop_4 [] h = absurd (omega arith)
length-drop_4 (a ∷ []) h = absurd (omega arith)
length-drop_4 (a ∷ b ∷ []) h = absurd (omega arith)
length-drop_4 (a ∷ b ∷ c ∷ []) h = absurd (omega arith)
length-drop_4 (a ∷ b ∷ c ∷ d ∷ xs) h = omega arith

assert-Settles : (b : Bool) → Settles (λ u. Unit {0}) (assert b)
assert-Settles true = tt
assert-Settles false = tt

or_io-Settles : (o : Option Entry) → Settles (λ r. Unit {0}) (or_io o)
or_io-Settles none = tt
or_io-Settles (some r) = tt

module _ (bincode : Bincode) (order : ByteOrder) where
  read_entry-Settles :
      (rest : Bytes)
      → 4 ≤ length rest
      → Settles
          (λ (p : Entry × Bytes). length p.1 + 4 ≤ length rest)
          (read_entry bincode order rest)
  unfolding read_entry
  read_entry-Settles rest h =
      let len = order.read_u32 rest in
      let body = drop 4 rest in
      Settles-bind (λ u. Unit {0}) _ (assert (leb len (length body))) _ (assert-Settles _)
        λ u x.
          Settles-bind (λ r. Unit {0}) _ (or_io (bincode.deserialize (take len body))) _
            (or_io-Settles _) λ r y. omega (arith, length-drop len body, length-drop_4 rest h)

  parse_loop-Settles :
      (fuel : ℕ) (rest : Bytes)
      → length rest < fuel
      → Settles (λ rs. 4 * length rs ≤ length rest) (parse_loop bincode order fuel rest)
  unfolding parse_loop
  parse_loop-Settles zero rest h = absurd (omega arith)
  parse_loop-Settles (suc fuel) rest h = elim (Bool-cases (leb 4 (length rest))) [
    | inl e ↦
        rw (e, parse_loop)
          (Settles-bind (λ (p : Entry × Bytes). length p.1 + 4 ≤ length rest) _
            (read_entry bincode order rest) _ (read_entry-Settles rest (ground (arith, e)))
            λ p b.
              Settles-bind (λ rs. 4 * length rs ≤ length p.1) _ (parse_loop bincode order fuel p.1)
                _ (parse_loop-Settles fuel p.1 (omega (arith, b))) λ rs c. omega (arith, b, c))
    | inr e ↦ rw (e, parse_loop) (omega arith)
  ]

  -- `parse` ends on any bytes, and returns at most one entry for each four of them.
  pub parse-Settles :
      (contents : Bytes)
      → Settles (λ rs. 4 * length rs ≤ length contents) (parse bincode order contents)
  unfolding parse
  parse-Settles contents = parse_loop-Settles (suc (length contents)) contents (omega arith)
