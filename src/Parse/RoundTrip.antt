-- ===== src/Parse/RoundTrip.antt =====
-- The quotes of `parse_quote` in frontend/src/parse.rs, and a printer that writes each word in quotes.
use nak.Base.{
  take-append, drop-length, ℕ, zero, suc, ◌+◌, ◌-◌, ◌<◌, ◌≤◌, ◌==◌, ◌≡◌, refl, ap, ◌++◌, false,
  List, [], ◌∷◌, map, none, length, drop, Bytes, ok, All, contains, arith, length-append, ==_refl,
}
use nak.Parse.{
  normal, cmd, Consume, slice, done, no_more, skip_loop, skip_whitespace, quote_loop, parse_quote,
  parse_word, cmd_loop, parse_cmd, parse_clause, pipe_continue, pipe_loop, parse_pipe, seq_loop,
  parse_seq, parse_line, parse_input,
}
use nak.Parse.Rest.{Left, Left-cur, Left-end, Left-bump}

-- A word in quotes, in front of the rest of the line.
abbrev quoted : Bytes → Bytes → Bytes
quoted w rest = 34 ∷ w ++ 34 ∷ rest

abbrev print_more : List Bytes → Bytes
print_more [] = []
print_more (w ∷ ws) = 32 ∷ quoted w (print_more ws)

abbrev pub print_words : Bytes → List Bytes → Bytes
print_words w ws = quoted w (print_more ws)

abbrev pub IsUnquoted : Bytes → Type 0
IsUnquoted w = contains w 34 ≡ false

module _ (text : Bytes) where
  abbrev at : ℕ → Consume
  at p = record { text = text; pos = p }

  quote_loop_lem :
      (fuel p q : ℕ) (w rest : Bytes)
      → Left text p (w ++ 34 ∷ rest)
      → IsUnquoted w
      → length w < fuel
      → q ≡ p + length w + 1
      → (quote_loop fuel (at p) ≡ ok (at q)) × Left text q rest
  unfolding quote_loop contains
  quote_loop_lem zero p q w rest l u f e = absurd (omega arith)
  quote_loop_lem (suc fuel) p q [] rest l u f e = (
    rw (Left-cur text p 34 rest l) (ap (λ x. ok (at x)) (omega arith)),
    Left-bump text p q 34 rest l (omega arith),
  )
  quote_loop_lem (suc fuel) p q (c ∷ w) rest l u f e =
      let n : (c == 34) ≡ false = ground (arith, u) in
      let (k, m) =
        quote_loop_lem fuel (p + 1) q w rest (Left-bump text p (p + 1) c (w ++ 34 ∷ rest) l refl)
          (ground (arith, u)) (omega arith) (omega arith) in
      (rw (Left-cur text p c (w ++ 34 ∷ rest) l) rw n k, m)

  skip_whitespace-end : (p : ℕ) → Left text p [] → skip_whitespace (at p) ≡ ok (at p)
  unfolding skip_whitespace skip_loop
  skip_whitespace-end p l = rw (Left-end text p l) refl

  skip_whitespace-quote :
      (p : ℕ) (rest : Bytes) → Left text p (34 ∷ rest) → skip_whitespace (at p) ≡ ok (at p)
  unfolding skip_whitespace skip_loop
  skip_whitespace-quote p rest l = rw (Left-cur text p 34 rest l) refl

  skip_loop-space :
      (fuel p : ℕ) (rest : Bytes)
      → Left text p (32 ∷ 34 ∷ rest)
      → 1 < fuel
      → skip_loop fuel (at p) ≡ ok (at (p + 1))
  unfolding skip_loop
  skip_loop-space zero p rest l f = absurd (omega arith)
  skip_loop-space (suc zero) p rest l f = absurd (omega arith)
  skip_loop-space (suc (suc fuel)) p rest l f =
      rw (Left-cur text p 32 (34 ∷ rest) l) rw
        (Left-cur text (p + 1) 34 rest (Left-bump text p (p + 1) 32 (34 ∷ rest) l refl)) refl

  slice_lem :
      (b e : ℕ) (w rest : Bytes) → drop b text ≡ w ++ rest → e ≡ b + length w → slice text b e ≡ w
  slice_lem b e w rest d l =
      let n : e - b ≡ length w = omega arith in rw d rw n (take-append (length w) w rest refl)

  parse_quote-quoted :
      (p : ℕ) (w rest : Bytes)
      → Left text p (quoted w rest)
      → IsUnquoted w
      → (parse_quote (at p) ≡ ok (normal w, at (p + length w + 2)))
        × Left text (p + length w + 2) rest
  unfolding parse_quote
  parse_quote-quoted p w rest l u =
      let inside = Left-bump text p (p + 1) 34 (w ++ 34 ∷ rest) l refl in
      let n = length-append w (34 ∷ rest) in
      let (k, m) =
        quote_loop_lem (suc (length text)) (p + 1) (p + length w + 2) w rest inside u
          (omega (arith, n, inside)) (omega arith) in
      (
        rw (Left-cur text p 34 (w ++ 34 ∷ rest) l) rw k (
            ap (λ x. ok (normal x, at (p + length w + 2)))
              (slice_lem (p + 1) (p + length w + 2 - 1) w (34 ∷ rest) inside.0 (omega arith))),
        m,
      )

  parse_word-quoted :
      (p : ℕ) (w rest : Bytes)
      → Left text p (quoted w rest)
      → IsUnquoted w
      → (parse_word (at p) ≡ ok (normal w, at (p + length w + 2)))
        × Left text (p + length w + 2) rest
  unfolding parse_word
  parse_word-quoted p w rest l u =
      let (k, m) = parse_quote-quoted p w rest l u in
      (rw (Left-cur text p 34 (w ++ 34 ∷ rest) l) k, m)

  cmd_loop_lem :
      (fuel p : ℕ) (ws : List Bytes)
      → Left text p (print_more ws)
      → All IsUnquoted ws
      → length ws < fuel
      → cmd_loop fuel (at p) ≡ ok (map normal ws, at (length text))
  unfolding cmd_loop skip_whitespace
  cmd_loop_lem zero p ws l u f = absurd (omega arith)
  cmd_loop_lem (suc fuel) p [] l u f =
      rw (skip_whitespace-end p l) rw (Left-end text p l)
        (ap (λ x. ok ([], at x)) (omega (arith, l)))
  cmd_loop_lem (suc fuel) p (w ∷ ws) l (u, us) f =
      let m = Left-bump text p (p + 1) 32 (quoted w (print_more ws)) l refl in
      let (k, r) = parse_word-quoted (p + 1) w (print_more ws) m u in
      rw (skip_loop-space (suc (length text)) p (w ++ 34 ∷ print_more ws) l (omega (arith, l))) rw
        (Left-cur text (p + 1) 34 (w ++ 34 ∷ print_more ws) m) rw k rw
        (cmd_loop_lem fuel (p + 1 + length w + 2) ws r us (omega arith)) refl

print_more-length : (ws : List Bytes) → length ws ≤ length (print_more ws)
print_more-length [] = omega arith
print_more-length (w ∷ ws) =
    let n = length-append w (34 ∷ print_more ws) in
    let k = print_more-length ws in omega (arith, n, k)

module _ (text : Bytes) where
  whole : Left text (length text) []
  whole = (drop-length text, omega arith)

  pipe_loop-end :
      (fuel : ℕ) → pipe_loop (suc fuel) (at text (length text)) ≡ ok (done, at text (length text))
  unfolding pipe_loop parse_clause pipe_continue
  pipe_loop-end fuel =
      rw (skip_whitespace-end text (length text) whole) rw (Left-end text (length text) whole) refl

  seq_loop-end :
      (fuel : ℕ) → seq_loop (suc fuel) (at text (length text)) ≡ ok (no_more, at text (length text))
  unfolding seq_loop
  seq_loop-end fuel =
      rw (skip_whitespace-end text (length text) whole) rw (Left-end text (length text) whole) refl

  parse_cmd-printed :
      (w : Bytes) (ws : List Bytes)
      → Left text 0 (print_words w ws)
      → IsUnquoted w
      → All IsUnquoted ws
      → parse_cmd (at text 0)
        ≡ ok (record { remote = none; words = map normal (w ∷ ws) }, at text (length text))
  unfolding parse_cmd
  parse_cmd-printed w ws l u us =
      let (k, r) = parse_word-quoted text 0 w (print_more ws) l u in
      let n = print_more-length ws in
      rw k rw
        (cmd_loop_lem text (suc (length text)) (0 + length w + 2) ws r us (omega (arith, n, r)))
        refl

  parse_line-printed :
      (w : Bytes) (ws : List Bytes)
      → Left text 0 (print_words w ws)
      → IsUnquoted w
      → All IsUnquoted ws
      → parse_line (at text 0) ≡ ok (cmd (record { remote = none; words = map normal (w ∷ ws) }))
  unfolding parse_line parse_seq parse_pipe
  parse_line-printed w ws l u us =
      rw (skip_whitespace-quote text 0 (w ++ 34 ∷ print_more ws) l) rw
        (Left-cur text 0 34 (w ++ 34 ∷ print_more ws) l) rw (parse_cmd-printed w ws l u us) rw
        (pipe_loop-end (length text)) rw (seq_loop-end (length text)) rw (==_refl (length text))
        refl

-- Words without a quote in them, each written in quotes and a space between two of them, are parsed
-- to the command with exactly these words, whatever else they hold: spaces, `|`, `>` and `;` too.
pub parse_input-print_words :
    (w : Bytes) (ws : List Bytes)
    → All IsUnquoted (w ∷ ws)
    → parse_input (print_words w ws)
      ≡ ok (cmd (record { remote = none; words = map normal (w ∷ ws) }))
unfolding parse_input
parse_input-print_words w ws (u, us) =
    parse_line-printed (print_words w ws) w ws (refl, omega arith) u us
