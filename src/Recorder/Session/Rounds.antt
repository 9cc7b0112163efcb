-- ===== src/Recorder/Session/Rounds.antt =====
-- A round of the loop of `record` in tools/record, while nothing fails.
use nak.Base.{
  ◌≡◌, refl, ap, sym, ◌∙◌, ◌&&◌, ◌||◌, Bool, true, false, if◌then◌else◌, List, [], ◌++◌, Bytes, All,
  Returns, Returns-bind, Returns-mono, Bool-cases, inl, inr,
}
use nak.Recorder.{attrs_eq, Recording}
use nak.Recorder.Piper.{WriteAnswer, ReadAnswer, Piper, pipe_some}
use nak.Recorder.Piper.Lossless.{HasRoom, Gives, incoming, at_end, Copied, pipe_some-Copied}
use nak.Recorder.Session.{
  Round, Session, is_pending, push, check_config, copy_input, copy_output, record_round,
}
use mathlib.Core.List.{append-nil}
use nak.Recorder.Session.Told.{
  outputs, inputs, IsSmooth, round_output, round_ends, round_input, outputs-push, inputs-push,
}

-- nothing is pending, so readiness to write does not matter
ready : (b m : Bool) (p : Piper) → p.buf ≡ [] → (b || (is_pending p && m)) ≡ b
ready true m p e = refl
ready false m p e = rw e refl

-- The recording tells what the terminal and the program have taken.
abbrev pub Tells : Session Recording → Type 0
Tells s = (outputs s.sink ≡ s.to_terminal.taken) × (inputs s.sink ≡ s.to_program.taken)

abbrev pub IsIdle : Session Recording → Type 0
IsIdle s = (s.to_program.buf ≡ []) × (s.to_terminal.buf ≡ [])

module _ (stale : Bytes) where
  check_config-Tells :
      (r : Round) (s : Session Recording)
      → Tells s
      → Returns
          (λ s'. Tells s' × (s'.to_terminal ≡ s.to_terminal) × (s'.to_program ≡ s.to_program))
          (check_config stale push r s)
  unfolding check_config
  check_config-Tells r s (o, i) = elim (Bool-cases (attrs_eq r.attrs s.current)) [
    | inl e ↦ rw (e, check_config) ((o, i), refl, refl)
    | inr e ↦
        rw (e, check_config)
          (
            (
              outputs-push s.sink _ ∙ append-nil (outputs s.sink) ∙ o,
              inputs-push s.sink _ ∙ append-nil (inputs s.sink) ∙ i,
            ),
            refl,
            refl,
          )
  ]

  -- what one call of `pipe_some` on an empty buffer does, in short
  pipe_some_idle :
      (reads : List ReadAnswer) (writes : List WriteAnswer) (p : Piper)
      → All Gives reads
      → All HasRoom writes
      → p.buf ≡ []
      → Returns
          (λ d.
            (d.chunk ≡ incoming reads)
            × (d.piper.taken ≡ p.taken ++ incoming reads)
            × (d.eof ≡ at_end reads)
            × (d.piper.buf ≡ (if at_end reads then stale else [])))
          (pipe_some stale reads writes p)
  pipe_some_idle reads writes p g h b =
      Returns-mono (Copied stale reads p []) _ (pipe_some stale reads writes p)
        (pipe_some-Copied stale reads writes p g h)
        λ d (c, t, f, l, a). (
          c ∙ ap (λ u. u ++ incoming reads) b,
          t ∙ ap (λ u. p.taken ++ (u ++ incoming reads)) b,
          f,
          l,
        )

  copy_input-Tells :
      (r : Round) (s : Session Recording)
      → IsSmooth r
      → Tells s
      → s.to_program.buf ≡ []
      → Returns
          (λ s'.
            Tells s'
            × (s'.to_terminal ≡ s.to_terminal)
            × (s'.to_program.buf ≡ [])
            × (s'.to_program.taken ≡ s.to_program.taken ++ round_input r))
          (copy_input stale push r s)
  unfolding copy_input
  copy_input-Tells r s (g, h, n, g', h') (o, i) b =
      rw (ready r.stdin_readable r.master_writable s.to_program b, copy_input)
        (elim (Bool-cases r.stdin_readable) [
          | inl e ↦
              rw (e, copy_input)
                (Returns-bind _ _ (pipe_some stale r.input_reads r.input_writes s.to_program) _
                  (pipe_some_idle r.input_reads r.input_writes s.to_program g h b)
                  λ d (c, t, f, l). rw (f ∙ n) (
                    (
                      outputs-push s.sink _ ∙ append-nil (outputs s.sink) ∙ o,
                      inputs-push s.sink _
                          ∙ ap (λ u. u ++ d.chunk) i
                          ∙ ap (λ u. s.to_program.taken ++ u) c
                          ∙ sym t,
                    ),
                    refl,
                    l ∙ ap (λ u. if u then stale else []) n,
                    t,
                  ))
          | inr e ↦ rw (e, copy_input) ((o, i), refl, b, sym (append-nil s.to_program.taken))
        ])

  copy_output-Tells :
      (r : Round) (s : Session Recording)
      → IsSmooth r
      → Tells s
      → s.to_terminal.buf ≡ []
      → Returns
          (λ (ended, s').
            Tells s'
            × (ended ≡ round_ends r)
            × (s'.to_program ≡ s.to_program)
            × (s'.to_terminal.buf ≡ (if round_ends r then stale else []))
            × (s'.to_terminal.taken ≡ s.to_terminal.taken ++ round_output r))
          (copy_output stale push r s)
  unfolding copy_output
  copy_output-Tells r s (g, h, n, g', h') (o, i) b =
      rw (ready r.master_readable r.stdout_writable s.to_terminal b, copy_output)
        (elim (Bool-cases r.master_readable) [
          | inl e ↦
              rw (e, copy_output)
                (Returns-bind _ _ (pipe_some stale r.output_reads r.output_writes s.to_terminal) _
                  (pipe_some_idle r.output_reads r.output_writes s.to_terminal g' h' b)
                  λ d (c, t, f, l). (
                    (
                      outputs-push s.sink _
                          ∙ ap (λ u. u ++ d.chunk) o
                          ∙ ap (λ u. s.to_terminal.taken ++ u) c
                          ∙ sym t,
                      inputs-push s.sink _ ∙ append-nil (inputs s.sink) ∙ i,
                    ),
                    f,
                    refl,
                    l,
                    t,
                  ))
          | inr e ↦
              rw (e, copy_output) ((o, i), refl, refl, b, sym (append-nil s.to_terminal.taken))
        ])

  -- what a round adds
  abbrev pub Added : Round → Session Recording → Bool × Session Recording → Type 0
  Added r s (ended, s') =
      Tells s'
      × (ended ≡ round_ends r)
      × (s'.to_program.buf ≡ [])
      × (s'.to_terminal.buf ≡ (if round_ends r then stale else []))
      × (s'.to_program.taken ≡ s.to_program.taken ++ round_input r)
      × (s'.to_terminal.taken ≡ s.to_terminal.taken ++ round_output r)

  pub record_round-Added :
      (r : Round) (s : Session Recording)
      → IsSmooth r
      → Tells s
      → IsIdle s
      → Returns (Added r s) (record_round stale push r s)
  unfolding record_round
  record_round-Added r s m t (b, b') =
      Returns-bind _ _ (check_config stale push r s) _ (check_config-Tells r s t) λ s₁ (t₁, k, l).
        Returns-bind _ _ (copy_input stale push r s₁) _
          (copy_input-Tells r s₁ m t₁ (ap (λ (p : Piper). p.buf) l ∙ b))
          λ s₂ (t₂, k', c, d).
            Returns-mono _ (Added r s) (copy_output stale push r s₂)
              (copy_output-Tells r s₂ m t₂ (ap (λ (p : Piper). p.buf) (k' ∙ k) ∙ b'))
              λ (ended, s') (t₃, e, q, f, u). (
                t₃,
                e,
                ap (λ (p : Piper). p.buf) q ∙ c,
                f,
                ap (λ (p : Piper). p.taken) q ∙ d ∙ ap (λ (p : Piper). p.taken ++ round_input r) l,
                u ∙ ap (λ (p : Piper). p.taken ++ round_output r) (k' ∙ k),
              )
