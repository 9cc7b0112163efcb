-- ===== src/Parse/Pipes.antt =====
-- The loops of commands and pipelines: each ends, and leaves the position in the text.
use nak.Base.{
  ℕ, zero, suc, ◌+◌, ◌<◌, ◌≡◌, refl, ◌⊎◌, inl, inr, true, List, none, some, length, Bytes, arith,
  Ends, Ends-bind, Bool-cases, Option-cases, ◌>>=◌, Option,
}
use nak.Parse.{
  Ast, Cmd, RedirectClauses, Target, Consume, Word, cur, bump, next, is_byte, skip_whitespace,
  parse_word, rounds, ends_cmd, cmd_loop, cmd, done, send, pipeline, parse_cmd, parse_piped,
  parse_output, parse_clause, pipe_loop, pipe_continue, parse_pipe,
}
use nak.Parse.Shape.{IsPlain, IsTarget, AreClauses, IsPipeline}
use nak.Parse.Words.{
  Within, Suspect, starts_word_of, ends_pipe, Skipped, Moved, is_byte-lt, skip_whitespace-Ends,
  parse_word-Ends, contains-get_elem?,
}

pub next-is_byte : (s : Consume) (b : ℕ) → is_byte b (cur s) ≡ true → (next s).1 ≡ bump s
next-is_byte s b h = ground arith

module _ (text : Bytes) where
  Suspect-output : (s : Consume) → Within text s.pos s → is_byte b'>' (cur s) ≡ true → Suspect text
  Suspect-output s w b = elim (Option-cases (cur s)) [
    | inl e ↦ ground arith
    | inr (c, e) ↦ inr (ground (arith, contains-get_elem? s.text s.pos c e))
  ]

  pub bump-Within :
      (s : Consume) (b : ℕ)
      → Within text s.pos s
      → is_byte b (cur s) ≡ true
      → Within text (suc s.pos) (bump s)
  bump-Within s b w h = ground (arith, is_byte-lt s b)

  abbrev Words : Consume → List Word × Consume → Type 0
  Words s r = Within text s.pos r.1 × (ends_cmd (cur r.1) ≡ true)

  pub cmd_loop-Ends :
      (fuel : ℕ) (s : Consume)
      → Within text s.pos s
      → length text < fuel + s.pos
      → Ends (Suspect text) (Words s) (cmd_loop fuel s)
  unfolding cmd_loop
  cmd_loop-Ends zero s w h = absurd (omega (arith, w.inside))
  cmd_loop-Ends (suc fuel) s w h =
      Ends-bind (Suspect text) (Skipped text s) (Words s) (skip_whitespace s) _
        (skip_whitespace-Ends text s w)
        λ s' (w', k, _). elim (Bool-cases (ends_cmd (cur s'))) [
          | inl e ↦ rw e (ground arith)
          | inr e ↦ rw e (
              Ends-bind (Suspect text) (Moved text s') (Words s) (parse_word s') _
                (parse_word-Ends text s' (ground arith))
                λ r m.
                  Ends-bind (Suspect text) (Words r.1) (Words s) (cmd_loop fuel r.1) _
                    (cmd_loop-Ends fuel r.1 (ground arith) (ground (arith, starts_word_of s' e k)))
                    λ r' m'. ground arith)
        ]

  abbrev Command : Consume → Cmd × Consume → Type 0
  Command s r = IsPlain r.0 × Within text s.pos r.1 × (ends_cmd (cur r.1) ≡ true)

  pub parse_cmd-Ends :
      (s : Consume) → Within text s.pos s → Ends (Suspect text) (Command s) (parse_cmd s)
  unfolding parse_cmd
  parse_cmd-Ends s w =
      Ends-bind (Suspect text) (Moved text s) (Command s) (parse_word s) _
        (parse_word-Ends text s w)
        λ r m.
          Ends-bind (Suspect text) (Words r.1) (Command s) (cmd_loop (rounds r.1) r.1) _
            (cmd_loop-Ends (rounds r.1) r.1 (ground arith) (ground (arith, m.0.same_text)))
            λ r' m'. (record { local = refl; words_ne_nil = λ e. cc }, ground arith, m'.1)

  -- Behind a clause stands a byte that ends a command, unless the clause is a `>`.
  abbrev Redirection : Consume → Target × Consume → Type 0
  Redirection s r =
      IsTarget r.0 × Within text (suc s.pos) r.1 × ((ends_cmd (cur r.1) ≡ true) ⊎ Suspect text)

  parse_piped-Ends :
      (s : Consume)
      → Within text s.pos s
      → is_byte b'|' (cur s) ≡ true
      → Ends (Suspect text) (Redirection s) (parse_piped s)
  unfolding parse_piped
  parse_piped-Ends s w b =
      rw (next-is_byte s b'|' b, ◌>>=◌)
        (Ends-bind (Suspect text) (Skipped text (bump s)) (Redirection s) (skip_whitespace (bump s))
          _ (skip_whitespace-Ends text (bump s) (ground (arith, bump-Within s b'|' w b)))
          λ s' k.
            Ends-bind (Suspect text) (Command s') (Redirection s) (parse_cmd s') _
              (parse_cmd-Ends s' (ground arith)) λ r m. ground arith)

  parse_output-Ends :
      (s : Consume)
      → Within text s.pos s
      → is_byte b'>' (cur s) ≡ true
      → Ends (Suspect text) (Redirection s) (parse_output s)
  unfolding parse_output
  parse_output-Ends s w b =
      rw (next-is_byte s b'>' b, ◌>>=◌)
        (Ends-bind (Suspect text) (Skipped text (bump s)) (Redirection s) (skip_whitespace (bump s))
          _ (skip_whitespace-Ends text (bump s) (ground (arith, bump-Within s b'>' w b)))
          λ s' k.
            Ends-bind (Suspect text) (Moved text s') (Redirection s) (parse_word s') _
              (parse_word-Ends text s' (ground arith))
              λ r m. (tt, ground arith, inr (Suspect-output s w b)))

  -- A clause was read, or the pipeline ends here.
  abbrev Clause : Consume → Option (Target × Consume) → Type 0
  Clause s none = ends_pipe s ≡ true
  Clause s (some r) = Redirection s r

  parse_clause-Ends :
      (s : Consume)
      → Within text s.pos s
      → (ends_cmd (cur s) ≡ true) ⊎ Suspect text
      → Ends (Suspect text) (Clause s) (parse_clause s)
  unfolding parse_clause
  parse_clause-Ends s w b = elim (Option-cases (cur s)) [
    | inl e ↦ ground arith
    | inr (c, e) ↦ ground (arith, parse_piped-Ends s w, parse_output-Ends s w)
  ]

  abbrev Clauses : Consume → RedirectClauses × Consume → Type 0
  Clauses s r = AreClauses r.0 × Within text s.pos r.1 × (ends_pipe r.1 ≡ true)

  pipe_continue-Ends :
      (fuel : ℕ) (s s' : Consume)
      → Within text s.pos s
      → length text < suc fuel + s.pos
      → Skipped text s s'
      → ((r : Consume)
          → Within text r.pos r
          → (ends_cmd (cur r) ≡ true) ⊎ Suspect text
          → length text < fuel + r.pos
          → Ends (Suspect text) (Clauses r) (pipe_loop fuel r))
      → (found : Option (Target × Consume)) → Clause s' found
      → Ends (Suspect text) (Clauses s) (pipe_continue (pipe_loop fuel) s' found)
  unfolding pipe_continue
  pipe_continue-Ends fuel s s' w h k again none m = ground arith
  pipe_continue-Ends fuel s s' w h k again (some r) m =
      Ends-bind (Suspect text) (Clauses r.1) (Clauses s) (pipe_loop fuel r.1) _
        (again r.1 (ground arith) m.2 (ground arith)) λ r' m'. ground arith

  pipe_loop-Ends :
      (fuel : ℕ) (s : Consume)
      → Within text s.pos s
      → (ends_cmd (cur s) ≡ true) ⊎ Suspect text
      → length text < fuel + s.pos
      → Ends (Suspect text) (Clauses s) (pipe_loop fuel s)
  unfolding pipe_loop
  pipe_loop-Ends zero s w b h = absurd (omega (arith, w.inside))
  pipe_loop-Ends (suc fuel) s w b h =
      Ends-bind (Suspect text) (Skipped text s) (Clauses s) (skip_whitespace s) _
        (skip_whitespace-Ends text s w)
        λ s' k.
          Ends-bind (Suspect text) (Clause s') (Clauses s) (parse_clause s') _
            (parse_clause-Ends s' (ground arith) (ground arith))
            (pipe_continue-Ends fuel s s' w h k (pipe_loop-Ends fuel))

  abbrev pub Piped : Consume → Ast × Consume → Type 0
  Piped s r = IsPipeline r.0 × Within text s.pos r.1 × (ends_pipe r.1 ≡ true)

  IsPipeline-pipeline :
      (c : Cmd) (ts : RedirectClauses)
      → IsPlain c
      → AreClauses ts
      → IsPipeline (pipeline (cmd c) ts)
  IsPipeline-pipeline c done p q = p
  IsPipeline-pipeline c (send o t ts) p q = (p, q, λ e. cc)

  pub parse_pipe-Ends :
      (s : Consume) → Within text s.pos s → Ends (Suspect text) (Piped s) (parse_pipe s)
  unfolding parse_pipe
  parse_pipe-Ends s w =
      Ends-bind (Suspect text) (Command s) (Piped s) (parse_cmd s) _ (parse_cmd-Ends s w) λ r m.
        Ends-bind (Suspect text) (Clauses r.1) (Piped s) (pipe_loop (rounds r.1) r.1) _
          (pipe_loop-Ends (rounds r.1) r.1 (ground arith) (inl m.2) (ground (arith, m.1.same_text)))
          λ r' m'. (IsPipeline-pipeline r.0 r'.0 m.0 m'.0, ground arith, m'.2)
