-- ===== src/Parse/Words.antt =====
-- Blanks and words: the loops of `skip_whitespace`, `parse_quote` and `parse_word` end and move on.
use nak.Base.{
  ℕ, zero, suc, ◌+◌, ◌==◌, ◌≤◌, ◌<◌, ◌≡◌, ◌⊎◌, inl, inr, Bool, not, true, false, [], ◌∷◌, none,
  some, subst, length, get_elem?, contains, get_elem?-some_lt, Bytes, arith, Ends, Option-cases,
}
use nak.Parse.{
  Consume, Word, cur, bump, is_byte, skip_loop, skip_whitespace, quote_loop, parse_quote, word_loop,
  parse_bare, parse_word, rounds, ends_word, ends_cmd,
}

-- a byte under the cursor is a byte of the text
pub contains-get_elem? : (xs : Bytes) (i b : ℕ) → get_elem? xs i ≡ some b → contains xs b ≡ true
unfolding contains
contains-get_elem? [] i b h = ground arith
contains-get_elem? (x ∷ xs) zero b h = ground arith
contains-get_elem? (x ∷ xs) (suc i) b h = ground (arith, contains-get_elem? xs i b)

-- `s` is a cursor on `text` at `p` or behind it.
pub record Within (text : Bytes) (p : ℕ) (s : Consume) : Type 0 where
  pub same_text : s.text ≡ text
  pub from : p ≤ s.pos
  pub inside : s.pos ≤ length text

abbrev pub Suspect : Bytes → Type 0
Suspect text = (contains text b'"' ≡ true) ⊎ (contains text b'>' ≡ true)

pub is_byte-lt : (s : Consume) (b : ℕ) → is_byte b (cur s) ≡ true → s.pos < length s.text
is_byte-lt s b h = elim (Option-cases (cur s)) [
  | inl e ↦ cc (subst (λ o. is_byte b o ≡ true) e h)
  | inr (c, e) ↦ get_elem?-some_lt s.text s.pos e
]

-- A word begins under the cursor, and is not empty.
abbrev pub starts_word : Consume → Bool
starts_word s = elim (cur s) [ none ↦ false | some c ↦ not (ends_word c) ]

-- `parse_pipe` ends at a byte such as this.
abbrev pub ends_pipe : Consume → Bool
ends_pipe s = elim (cur s) [ none ↦ true | some c ↦ c == b';' ]

pub starts_word_of :
    (s : Consume) → ends_cmd (cur s) ≡ false → is_byte b' ' (cur s) ≡ false → starts_word s ≡ true
starts_word_of s h k = ground arith

module _ (text : Bytes) where
  -- Blanks were skipped: none stands under the cursor now, and where none stood it has not moved.
  abbrev pub Skipped : Consume → Consume → Type 0
  Skipped s s' =
      Within text s.pos s'
      × (is_byte b' ' (cur s') ≡ false)
      × (is_byte b' ' (cur s) ≡ false → s' ≡ s)

  skip_loop-Ends :
      (fuel : ℕ) (s : Consume)
      → Within text s.pos s
      → length text < fuel + s.pos
      → Ends (Suspect text) (Skipped s) (skip_loop fuel s)
  unfolding skip_loop
  skip_loop-Ends zero s w h = absurd (omega (arith, w.inside))
  skip_loop-Ends (suc fuel) s w h = ground (arith, skip_loop-Ends fuel (bump s), is_byte-lt s b' ')

  pub skip_whitespace-Ends :
      (s : Consume) → Within text s.pos s → Ends (Suspect text) (Skipped s) (skip_whitespace s)
  unfolding skip_whitespace
  skip_whitespace-Ends s w = skip_loop-Ends (rounds s) s w (ground (arith, w.same_text))

  quote_loop-Ends :
      (fuel : ℕ) (s : Consume)
      → contains text b'"' ≡ true
      → Within text s.pos s
      → length text < fuel + s.pos
      → Ends (Suspect text) (Within text s.pos) (quote_loop fuel s)
  unfolding quote_loop
  quote_loop-Ends zero s q w h = absurd (omega (arith, w.inside))
  quote_loop-Ends (suc fuel) s q w h = elim (Option-cases (cur s)) [
    | inl e ↦ ground arith
    | inr (c, e) ↦ ground (arith, quote_loop-Ends fuel (bump s), get_elem?-some_lt s.text s.pos e)
  ]

  abbrev pub Moved : Consume → Word × Consume → Type 0
  Moved s r = Within text s.pos r.1 × (starts_word s ≡ true → s.pos < r.1.pos)

  parse_quote-Ends :
      (s : Consume)
      → is_byte b'"' (cur s) ≡ true
      → Within text s.pos s
      → Ends (Suspect text) (Moved s) (parse_quote s)
  unfolding parse_quote
  parse_quote-Ends s q w = elim (Option-cases (cur s)) [
    | inl e ↦ ground arith
    | inr (c, e) ↦ ground (
      arith,
      quote_loop-Ends (rounds (bump s)) (bump s),
      get_elem?-some_lt s.text s.pos e,
      contains-get_elem? s.text s.pos c e,
    )
  ]

  word_loop-Ends :
      (fuel : ℕ) (s : Consume)
      → Within text s.pos s
      → length text < fuel + s.pos
      → Ends
          (Suspect text)
          (λ s'. Within text s.pos s' × (starts_word s ≡ true → s.pos < s'.pos))
          (word_loop fuel s)
  unfolding word_loop
  word_loop-Ends zero s w h = absurd (omega (arith, w.inside))
  word_loop-Ends (suc fuel) s w h = elim (Option-cases (cur s)) [
    | inl e ↦ ground arith
    | inr (c, e) ↦ ground (
      arith,
      word_loop-Ends fuel (bump s),
      get_elem?-some_lt s.text s.pos e,
      contains-get_elem? s.text s.pos c e,
    )
  ]

  pub parse_word-Ends :
      (s : Consume) → Within text s.pos s → Ends (Suspect text) (Moved s) (parse_word s)
  unfolding parse_word parse_bare
  parse_word-Ends s w = ground (arith, parse_quote-Ends s, word_loop-Ends (rounds s) s)
