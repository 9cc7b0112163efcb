-- ===== src/Recorder/Piper/Lossless.antt =====
-- `Piper::pipe_some` of tools/record where no write blocks or fails, and what holds on every run.
use nak.Base.{
  ℕ, zero, suc, ◌≡◌, refl, ap, sym, ◌∙◌, Bool, true, false, List, [], ◌∷◌, ◌++◌, take, drop,
  take-drop, Bytes, ok, All, Returns, Returns-bind, Returns-mono, if◌then◌else◌, ◌>>=◌,
}
use nak.Recorder.Piper.{
  WriteAnswer, room, would_block, write_fails, ReadAnswer, given, nothing_yet, read_fails, Piper,
  Piped, write_loop, finish, pipe_loop, pipe_some,
}
use mathlib.Core.List.{append_assoc, append-nil}

-- a write that takes a byte at least
abbrev pub HasRoom : WriteAnswer → Type 0
HasRoom (room zero) = ⊥
HasRoom (room (suc n)) = Unit
HasRoom would_block = ⊥
HasRoom write_fails = ⊥

-- a read that does not fail
abbrev pub Gives : ReadAnswer → Type 0
Gives (given bytes) = Unit
Gives nothing_yet = Unit
Gives read_fails = ⊥

-- the bytes that come before the first read that gives none
abbrev pub incoming : List ReadAnswer → Bytes
incoming [] = []
incoming (nothing_yet ∷ reads) = []
incoming (read_fails ∷ reads) = []
incoming (given [] ∷ reads) = []
incoming (given (b ∷ bs) ∷ reads) = (b ∷ bs) ++ incoming reads

-- whether that read is the end of the input
abbrev pub at_end : List ReadAnswer → Bool
at_end [] = false
at_end (nothing_yet ∷ reads) = false
at_end (read_fails ∷ reads) = false
at_end (given [] ∷ reads) = true
at_end (given (b ∷ bs) ∷ reads) = at_end reads

joined : (n : ℕ) (pre xs : Bytes) → (pre ++ take n xs) ++ drop n xs ≡ pre ++ xs
joined n pre xs = append_assoc pre (take n xs) (drop n xs) ∙ ap (λ t. pre ++ t) (take-drop n xs)

-- everything is written
abbrev Wrote : Bytes → Bytes → Bytes × Piper × List WriteAnswer → Type 0
Wrote taken chunk (chunk', p, answers) = (chunk' ≡ chunk) × (p.taken ≡ taken) × All HasRoom answers

write_loop-Wrote :
    (answers : List WriteAnswer) (p : Piper) (rest chunk : Bytes)
    → All HasRoom answers
    → Returns (Wrote (p.taken ++ rest) (chunk ++ rest)) (write_loop answers p rest chunk)
unfolding write_loop
write_loop-Wrote answers p [] chunk h = (sym (append-nil chunk), sym (append-nil p.taken), h)
write_loop-Wrote [] p (b ∷ rest) chunk h = (refl, refl, tt)
write_loop-Wrote (would_block ∷ answers) p (b ∷ rest) chunk h = elim h.0 [ ]
write_loop-Wrote (write_fails ∷ answers) p (b ∷ rest) chunk h = elim h.0 [ ]
write_loop-Wrote (room zero ∷ answers) p (b ∷ rest) chunk h = elim h.0 [ ]
write_loop-Wrote (room (suc n) ∷ answers) p (b ∷ rest) chunk h =
    let ih =
      write_loop-Wrote answers (record p { taken = p.taken ++ take (suc n) (b ∷ rest) })
        (drop (suc n) (b ∷ rest)) (chunk ++ take (suc n) (b ∷ rest)) h.1 in
    rw (← joined (suc n) p.taken (b ∷ rest)) rw (← joined (suc n) chunk (b ∷ rest)) ih

module _ (stale : Bytes) where
  -- All that was in the buffer or came in is written, and nothing is left in the buffer.
  abbrev pub Copied : List ReadAnswer → Piper → Bytes → Piped → Type 0
  Copied reads p chunk r =
      (r.chunk ≡ chunk ++ (p.buf ++ incoming reads))
      × (r.piper.taken ≡ p.taken ++ (p.buf ++ incoming reads))
      × (r.eof ≡ at_end reads)
      × (r.piper.buf ≡ (if at_end reads then stale else []))
      × All HasRoom r.writes

  -- a round that ends the loop
  last_round :
      (eof : Bool) (left : Bytes) (writes : List WriteAnswer) (p : Piper) (chunk : Bytes)
      → All HasRoom writes
      → Returns
          (λ r.
            (r.chunk ≡ chunk ++ (p.buf ++ []))
            × (r.piper.taken ≡ p.taken ++ (p.buf ++ []))
            × (r.eof ≡ eof)
            × (r.piper.buf ≡ left)
            × All HasRoom r.writes)
          (do w ← write_loop writes p p.buf chunk; ok (finish stale eof left w))
  unfolding finish
  last_round eof left writes p chunk h = rw (append-nil p.buf) (
      Returns-bind (Wrote (p.taken ++ p.buf) (chunk ++ p.buf)) _ (write_loop writes p p.buf chunk) _
        (write_loop-Wrote writes p p.buf chunk h) λ (c, q, a) (x, y, z). (x, y, refl, refl, z))

  pipe_loop-Copied :
      (reads : List ReadAnswer) (writes : List WriteAnswer) (p : Piper) (chunk : Bytes)
      → All Gives reads
      → All HasRoom writes
      → Returns (Copied reads p chunk) (pipe_loop stale reads writes p chunk)
  unfolding pipe_loop
  pipe_loop-Copied [] writes p chunk g h = last_round false [] writes p chunk h
  pipe_loop-Copied (nothing_yet ∷ reads) writes p chunk g h = last_round false [] writes p chunk h
  pipe_loop-Copied (read_fails ∷ reads) writes p chunk g h = elim g.0 [ ]
  pipe_loop-Copied (given [] ∷ reads) writes p chunk g h = last_round true stale writes p chunk h
  pipe_loop-Copied (given (b ∷ bs) ∷ reads) writes p chunk g h =
      let after = (b ∷ bs) ++ incoming reads in
      Returns-bind (Wrote (p.taken ++ p.buf) (chunk ++ p.buf)) _ (write_loop writes p p.buf chunk) _
        (write_loop-Wrote writes p p.buf chunk h)
        λ (chunk', p', writes') (x, y, z).
          Returns-mono (Copied reads (record p' { buf = b ∷ bs }) chunk')
            (Copied (given (b ∷ bs) ∷ reads) p chunk)
            (pipe_loop stale reads writes' (record p' { buf = b ∷ bs }) chunk')
            (pipe_loop-Copied reads writes' (record p' { buf = b ∷ bs }) chunk' g.1 z)
            λ r (c, t, f, l, a). (
              c ∙ ap (λ u. u ++ after) x ∙ append_assoc chunk p.buf after,
              t ∙ ap (λ u. u ++ after) y ∙ append_assoc p.taken p.buf after,
              f,
              l,
              a,
            )

  -- Where no read fails and each write takes a byte at least: `pipe_some` returns, it has written
  -- all that was in the buffer and all that came in, in order and nothing else, and says so in its
  -- chunk; it reports the end of the input exactly if it met it, and leaves nothing in the buffer
  -- if it did not.
  pub pipe_some-Copied :
      (reads : List ReadAnswer) (writes : List WriteAnswer) (p : Piper)
      → All Gives reads
      → All HasRoom writes
      → Returns (Copied reads p []) (pipe_some stale reads writes p)
  unfolding pipe_some
  pipe_some-Copied reads writes p g h = pipe_loop-Copied reads writes p [] g h
