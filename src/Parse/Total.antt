-- ===== src/Parse/Total.antt =====
-- The parser ends on every input, builds only trees of the shape of `Shape`, and panics only on an
-- input that holds a quote or a `>`.
use nak.Base.{
  ℕ, zero, suc, ◌+◌, ◌==◌, ◌<◌, ◌≡◌, refl, inl, inr, true, none, length, Bytes, arith, Ends,
  Ends-bind, Ends-mono, Bool-cases, Option-cases, ◌>>=◌, get_elem?-none_le,
}
use nak.Parse.{
  Ast, SequenceClauses, Consume, cur, bump, is_byte, skip_whitespace, rounds, blank, cmd, sequence,
  redirect, no_more, then_run, in_sequence, parse_next, parse_pipe, seq_loop, parse_seq, parse_line,
  parse_input,
}
use nak.Parse.Shape.{IsPipeline, ArePipelines, IsLine}
use nak.Parse.Words.{Within, Suspect, ends_pipe, Skipped, skip_whitespace-Ends}
use nak.Parse.Pipes.{next-is_byte, bump-Within, Piped, parse_pipe-Ends}

module _ (text : Bytes) where
  abbrev PipedOn : Consume → Ast × Consume → Type 0
  PipedOn s r = IsPipeline r.0 × Within text (suc s.pos) r.1 × (ends_pipe r.1 ≡ true)

  parse_next-Ends :
      (s : Consume)
      → Within text s.pos s
      → is_byte b';' (cur s) ≡ true
      → Ends (Suspect text) (PipedOn s) (parse_next s)
  unfolding parse_next
  parse_next-Ends s w b =
      rw (next-is_byte s b';' b, ◌>>=◌)
        (Ends-bind (Suspect text) (Skipped text (bump s)) (PipedOn s) (skip_whitespace (bump s)) _
          (skip_whitespace-Ends text (bump s) (ground (arith, bump-Within text s b';' w b)))
          λ s' k.
            Ends-mono (Suspect text) (Piped text s') (PipedOn s) (parse_pipe s')
              (parse_pipe-Ends text s' (ground arith)) λ r m. ground arith)

  abbrev Sequenced : Consume → SequenceClauses × Consume → Type 0
  Sequenced s r = ArePipelines r.0 × Within text s.pos r.1 × (cur r.1 ≡ none)

  seq_loop-Ends :
      (fuel : ℕ) (s : Consume)
      → Within text s.pos s
      → ends_pipe s ≡ true
      → length text < fuel + s.pos
      → Ends (Suspect text) (Sequenced s) (seq_loop fuel s)
  unfolding seq_loop
  seq_loop-Ends zero s w b h = absurd (omega (arith, w.inside))
  seq_loop-Ends (suc fuel) s w b h =
      Ends-bind (Suspect text) (Skipped text s) (Sequenced s) (skip_whitespace s) _
        (skip_whitespace-Ends text s w)
        λ s' k. elim (Option-cases (cur s')) [
          | inl e ↦ rw e (ground arith)
          | inr (c, e) ↦ elim (Bool-cases (c == b';')) [
            | inl semi ↦ rw e (
                rw semi (
                  Ends-bind (Suspect text) (PipedOn s') (Sequenced s) (parse_next s') _
                    (parse_next-Ends s' (ground arith) (ground arith))
                    λ r m.
                      Ends-bind (Suspect text) (Sequenced r.1) (Sequenced s) (seq_loop fuel r.1) _
                        (seq_loop-Ends fuel r.1 (ground arith) m.2 (ground arith))
                        λ r' m'. ground arith))
            | inr other ↦ absurd (ground arith)
          ]
        ]

  abbrev Parsed : Consume → Ast × Consume → Type 0
  Parsed s r = IsLine r.0 × Within text s.pos r.1 × (cur r.1 ≡ none)

  IsLine-in_sequence :
      (a : Ast) (rest : SequenceClauses)
      → IsPipeline a
      → ArePipelines rest
      → IsLine (in_sequence a rest)
  IsLine-in_sequence blank rest p q = elim p [ ]
  IsLine-in_sequence (cmd c) no_more p q = p
  IsLine-in_sequence (redirect a ts) no_more p q = p
  IsLine-in_sequence (sequence a r) rest p q = elim p [ ]
  IsLine-in_sequence a (then_run ty b r) p q = (p, q, λ e. cc)

  parse_seq-Ends :
      (s : Consume) → Within text s.pos s → Ends (Suspect text) (Parsed s) (parse_seq s)
  unfolding parse_seq
  parse_seq-Ends s w =
      Ends-bind (Suspect text) (Piped text s) (Parsed s) (parse_pipe s) _ (parse_pipe-Ends text s w)
        λ r m.
          Ends-bind (Suspect text) (Sequenced r.1) (Parsed s) (seq_loop (rounds r.1) r.1) _
            (seq_loop-Ends (rounds r.1) r.1 (ground arith) m.2 (ground (arith, m.1.same_text)))
            λ r' m'. (IsLine-in_sequence r.0 r'.0 m.0 m'.0, ground arith, m'.2)

  parse_line-Ends : (s : Consume) → Within text s.pos s → Ends (Suspect text) IsLine (parse_line s)
  unfolding parse_line
  parse_line-Ends s w =
      Ends-bind (Suspect text) (Skipped text s) IsLine (skip_whitespace s) _
        (skip_whitespace-Ends text s w)
        λ s' k. elim (Option-cases (cur s')) [
          | inl e ↦ rw e (ground arith)
          | inr (c, e) ↦ rw e (
              Ends-bind (Suspect text) (Parsed s') IsLine (parse_seq s') _
                (parse_seq-Ends s' (ground arith))
                λ r m. ground (arith, get_elem?-none_le r.1.text r.1.pos m.2))
        ]

-- `parse_input` ends on every input: it never runs out of the rounds given to its loops. What it
-- returns is a line of pipelines of commands that have a word at least, and it can panic only on an
-- input that holds a quote or a `>`: the panic of `parse_seq` and its last assertion never fire.
pub parse_input-Ends : (input : Bytes) → Ends (Suspect input) IsLine (parse_input input)
unfolding parse_input
parse_input-Ends input =
    parse_line-Ends input (record { text = input; pos = 0 })
      (record { same_text = refl; from = omega arith; inside = omega arith })
