-- ===== src/Recorder/Session/Faithful.antt =====
-- What tools/record writes down while nothing fails, and what it shows.
use nak.Base.{
  ◌≡◌, refl, ap, sym, ◌∙◌, Bool, if◌then◌else◌, List, [], ◌∷◌, ◌++◌, Bytes, All, Returns,
  Returns-bind, Returns-mono, Bool-cases, inl, inr,
}
use nak.Recorder.{Attrs, config, Recording}
use nak.Recorder.Piper.{new}
use nak.Recorder.Session.{Round, Session, push, record_round, record_loop, record_session}
use mathlib.Core.List.{append_assoc, append-nil}
use nak.Recorder.Session.Rounds.{Tells, IsIdle, Added, record_round-Added}
use nak.Recorder.Session.Told.{
  outputs, inputs, IsSmooth, round_output, round_ends, round_input, program_output, typed,
  program_ends,
}

module _ (stale : Bytes) where
  -- what the rounds add
  abbrev pub Recorded : List Round → Session Recording → Bool × Session Recording → Type 0
  Recorded rs s (ended, s') =
      Tells s'
      × (ended ≡ program_ends rs)
      × (s'.to_program.taken ≡ s.to_program.taken ++ typed rs)
      × (s'.to_terminal.taken ≡ s.to_terminal.taken ++ program_output rs)

  record_loop-Recorded :
      (rs : List Round) (s : Session Recording)
      → All IsSmooth rs
      → Tells s
      → IsIdle s
      → Returns (Recorded rs s) (record_loop stale push rs s)
  unfolding record_loop
  record_loop-Recorded [] s h t b =
      (t, refl, sym (append-nil s.to_program.taken), sym (append-nil s.to_terminal.taken))
  record_loop-Recorded (r ∷ rs) s (m, h) t b =
      Returns-bind (Added stale r s) _ (record_round stale push r s) _
        (record_round-Added stale r s m t b)
        λ (ended, s') (t', e, p, q, u, v). elim (Bool-cases (round_ends r)) [
          | inl x ↦ rw (e ∙ x) rw x (
            t',
            refl,
            u ∙ ap (λ y. s.to_program.taken ++ y) (sym (append-nil (round_input r))),
            v ∙ ap (λ y. s.to_terminal.taken ++ y) (sym (append-nil (round_output r))),
          )
          | inr x ↦ rw (e ∙ x) (
              Returns-mono (Recorded rs s') _ (record_loop stale push rs s')
                (record_loop-Recorded rs s' h t' (p, q ∙ ap (λ y. if y then stale else []) x))
                λ (ended', s'') (t'', e', u', v'). rw x (
                  t'',
                  e',
                  u'
                      ∙ ap (λ y. y ++ typed rs) u
                      ∙ append_assoc s.to_program.taken (round_input r) (typed rs),
                  v'
                      ∙ ap (λ y. y ++ program_output rs) v
                      ∙ append_assoc s.to_terminal.taken (round_output r) (program_output rs),
                ))
        ]

  -- While no read or write fails or blocks: `record` returns when the program ends, or is still at
  -- it. The terminal has taken exactly what the program wrote and the program exactly what was
  -- typed, and the recording tells both, in order and nothing else.
  pub record_session-Recorded :
      (attrs : Attrs) (rs : List Round)
      → All IsSmooth rs
      → Returns
          (λ (ended, s).
            (ended ≡ program_ends rs)
            × (s.to_program.taken ≡ typed rs)
            × (s.to_terminal.taken ≡ program_output rs)
            × (inputs s.sink ≡ typed rs)
            × (outputs s.sink ≡ program_output rs))
          (record_session stale push attrs rs [])
  unfolding record_session
  record_session-Recorded attrs rs h =
      let s : Session Recording = record {
        current = attrs;
        to_program = new;
        to_terminal = new;
        sink = record { ts = 0; event = config attrs } ∷ [];
      } in
      Returns-mono (Recorded rs s) _ (record_loop stale push rs s)
        (record_loop-Recorded rs s h (refl, refl) (refl, refl))
        λ (ended, s') ((o, i), e, u, v). (e, u, v, i ∙ u, o ∙ v)
