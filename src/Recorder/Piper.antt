-- ===== src/Recorder/Piper.antt =====
-- tools/record/src/main.rs: `Piper`, which copies what it reads from one descriptor to another.
-- The descriptors do not block; what they answer is a list of answers to the calls of `read` and
-- one to the calls of `write`. When the list is used up, there is nothing to read yet, and `write`
-- takes all that it is offered. Behind a write that blocks the buffer is a vector just large enough
-- for what is left, and the code sets its length to 4096: where less is left, that is undefined.
pub mod Lossless
pub mod Lost
use nak.Base.{
  ℕ, zero, suc, Bool, true, false, List, [], ◌∷◌, ◌++◌, take, drop, length, ltb, if◌then◌else◌,
  undefined, Bytes, Outcome, ok, fault, panic, failed, io, ◌>>=◌,
}

-- `room n`: at most `n` bytes are taken; `would_block` is `EAGAIN`.
pub data WriteAnswer : Type 0 where
  room : ℕ → WriteAnswer
  would_block write_fails : WriteAnswer

-- `given []` is the end of the input.
pub data ReadAnswer : Type 0 where
  given : Bytes → ReadAnswer
  nothing_yet read_fails : ReadAnswer

-- The buffer, and what the descriptor `write` has taken so far.
pub record Piper : Type 0 where
  pub buf : Bytes
  pub taken : Bytes

-- `EofData`, and the state afterwards
pub record Piped : Type 0 where
  pub chunk : Bytes
  pub eof : Bool
  pub piper : Piper
  pub writes : List WriteAnswer

-- the capacity of the buffer, and the length that it is given for a `read`
abbrev pub capacity : ℕ
capacity = 4096

-- The `while` loop. The list of bytes is what `offset` has not reached; `break` leaves this loop.
unfoldable pub write_loop :
    List WriteAnswer → Piper → Bytes → Bytes → Outcome (Bytes × Piper × List WriteAnswer)
write_loop answers p [] chunk = ok (chunk, p, answers)
write_loop [] p (b ∷ rest) chunk =
    ok (chunk ++ b ∷ rest, record p { taken = p.taken ++ b ∷ rest }, [])
write_loop (would_block ∷ answers) p (b ∷ rest) chunk =
    if ltb (length (b ∷ rest)) capacity
    then fault undefined
    else ok (chunk, record p { buf = b ∷ rest }, answers)
write_loop (write_fails ∷ answers) p (b ∷ rest) chunk = fault (failed io)
write_loop (room zero ∷ answers) p (b ∷ rest) chunk = panic
write_loop (room (suc n) ∷ answers) p (b ∷ rest) chunk =
    write_loop answers (record p { taken = p.taken ++ take (suc n) (b ∷ rest) })
      (drop (suc n) (b ∷ rest)) (chunk ++ take (suc n) (b ∷ rest))

-- What stands in the buffer, all of its 4096 bytes, after the end of the input is an argument.
module _ (stale : Bytes) where
  -- a round that ends the loop
  unfoldable pub finish : Bool → Bytes → Bytes × Piper × List WriteAnswer → Piped
  finish eof buf (chunk, p, answers) = record {
    chunk = chunk;
    eof = eof;
    piper = record p { buf = buf };
    writes = answers;
  }

  -- The `loop`, on the answers of `read`: `read` is called on the whole buffer.
  unfoldable pub pipe_loop : List ReadAnswer → List WriteAnswer → Piper → Bytes → Outcome Piped
  pipe_loop [] writes p chunk = do w ← write_loop writes p p.buf chunk; ok (finish false [] w)
  pipe_loop (nothing_yet ∷ reads) writes p chunk = do
    w ← write_loop writes p p.buf chunk
    ok (finish false [] w)
  pipe_loop (read_fails ∷ reads) writes p chunk = do
    w ← write_loop writes p p.buf chunk
    fault (failed io)
  pipe_loop (given [] ∷ reads) writes p chunk = do
    w ← write_loop writes p p.buf chunk
    ok (finish true stale w)
  pipe_loop (given (b ∷ bs) ∷ reads) writes p chunk = do
    (chunk', p', writes') ← write_loop writes p p.buf chunk
    pipe_loop reads writes' (record p' { buf = b ∷ bs }) chunk'

  unfoldable pub pipe_some : List ReadAnswer → List WriteAnswer → Piper → Outcome Piped
  pipe_some reads writes p = pipe_loop reads writes p []

-- `Piper::new`
abbrev pub new : Piper
new = record { buf = []; taken = [] }
