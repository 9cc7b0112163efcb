-- ===== src/Recorder/Piper/Lost.antt =====
-- `Piper::pipe_some` of tools/record where a write blocks.
use nak.Base.{
  ℕ, zero, suc, ◌≡◌, ◌<◌, refl, List, [], ◌∷◌, drop, Bytes, fault, undefined, length, arith,
}
use nak.Recorder.Piper.{
  WriteAnswer, room, would_block, ReadAnswer, given, nothing_yet, read_fails, Piper, write_loop,
  pipe_loop, pipe_some, capacity,
}

-- Writes that take each a byte at least, with something left of the bytes, but not all of a full
-- buffer.
abbrev pub LeavesSome : List ℕ → Bytes → Type 0
LeavesSome [] rest = (0 < length rest) × (length rest < capacity)
LeavesSome (n ∷ ns) rest = (0 < n) × LeavesSome ns (drop n rest)

-- the answers of a descriptor that takes these numbers of bytes, and then blocks
abbrev pub then_blocks : List ℕ → List WriteAnswer → List WriteAnswer
then_blocks [] writes = would_block ∷ writes
then_blocks (n ∷ ns) writes = room n ∷ then_blocks ns writes

drop-nil : (n : ℕ) → drop {A = ℕ} n [] ≡ []
drop-nil zero = refl
drop-nil (suc n) = refl

not-LeavesSome : (ns : List ℕ) → LeavesSome ns [] → ⊥
not-LeavesSome [] h = absurd (omega (arith, h.0))
not-LeavesSome (n ∷ ns) h = not-LeavesSome ns (rw (drop-nil n) at h.1)

write_loop-then_blocks :
    (ns : List ℕ) (writes : List WriteAnswer) (p : Piper) (rest chunk : Bytes)
    → LeavesSome ns rest
    → write_loop (then_blocks ns writes) p rest chunk ≡ fault undefined
unfolding write_loop
write_loop-then_blocks ns writes p [] chunk h = elim (not-LeavesSome ns h) [ ]
write_loop-then_blocks [] writes p (b ∷ rest) chunk h = ground (arith, h.1)
write_loop-then_blocks (zero ∷ ns) writes p (b ∷ rest) chunk h = absurd (omega (arith, h.0))
write_loop-then_blocks (suc n ∷ ns) writes p (b ∷ rest) chunk h =
    write_loop-then_blocks ns writes _ (drop (suc n) (b ∷ rest)) _ h.1

module _ (stale : Bytes) where
  pipe_loop-then_blocks :
      (reads : List ReadAnswer) (ns : List ℕ) (writes : List WriteAnswer) (p : Piper)
      (chunk : Bytes)
      → LeavesSome ns p.buf
      → pipe_loop stale reads (then_blocks ns writes) p chunk ≡ fault undefined
  unfolding pipe_loop
  pipe_loop-then_blocks [] ns writes p chunk h =
      rw (write_loop-then_blocks ns writes p p.buf chunk h) refl
  pipe_loop-then_blocks (nothing_yet ∷ reads) ns writes p chunk h =
      rw (write_loop-then_blocks ns writes p p.buf chunk h) refl
  pipe_loop-then_blocks (read_fails ∷ reads) ns writes p chunk h =
      rw (write_loop-then_blocks ns writes p p.buf chunk h) refl
  pipe_loop-then_blocks (given [] ∷ reads) ns writes p chunk h =
      rw (write_loop-then_blocks ns writes p p.buf chunk h) refl
  pipe_loop-then_blocks (given (b ∷ bs) ∷ reads) ns writes p chunk h =
      rw (write_loop-then_blocks ns writes p p.buf chunk h) refl

  -- A write that blocks with bytes left, but less than a full buffer: where a read gives `b ∷ bs`,
  -- and any number of writes take a byte of it at least before one blocks, `pipe_some` runs into
  -- undefined behaviour, whatever the other reads and writes are.
  pub pipe_some-undefined :
      (reads : List ReadAnswer) (ns : List ℕ) (writes : List WriteAnswer) (b : ℕ) (bs taken : Bytes)
      → LeavesSome ns (b ∷ bs)
      → pipe_some stale
          (given (b ∷ bs) ∷ reads)
          (then_blocks ns writes)
          (record { buf = []; taken = taken })
        ≡ fault undefined
  unfolding pipe_some pipe_loop write_loop
  pipe_some-undefined reads ns writes b bs taken h =
      pipe_loop-then_blocks reads ns writes (record { buf = b ∷ bs; taken = taken }) [] h
