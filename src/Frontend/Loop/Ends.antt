-- ===== src/Frontend/Loop/Ends.antt =====
-- The pipe ends that the frontend holds while it carries a plan out, and the marks on its sinks.
use nak.Base.{
  ℕ, zero, suc, ◌≡◌, refl, ap, ◌++◌, Bool, true, false, List, [], ◌∷◌, Option, none, some, is_some,
  ok, Safe, arith, Option-cases, inl, inr,
}
use nak.Plan.{Sink}
use nak.Plan.Execution.{PipeEnds, take_read, take_write, and_then}
use nak.Frontend.{StackedRemotes}
use nak.Frontend.Loop.{Ends, take_reader, take_writer, mark_sink}

-- which ends the frontend still holds
abbrev pub flags : List Ends → PipeEnds
flags [] = []
flags ((r, w) ∷ ends) = (is_some r, is_some w) ∷ flags ends

pub flags-append :
    (ends : List Ends) (e : Ends)
    → flags (ends ++ e ∷ []) ≡ flags ends ++ (is_some e.0, is_some e.1) ∷ []
flags-append [] e = refl
flags-append (x ∷ ends) e = ap (λ es. (is_some x.0, is_some x.1) ∷ es) (flags-append ends e)

pub take_reader-flags :
    (p : ℕ) (ends : List Ends) {es : PipeEnds}
    → take_read p (flags ends) ≡ some es
    → (x : ℕ × List Ends) × (take_reader p ends ≡ ok x) × (flags x.1 ≡ es)
unfolding take_read take_reader
take_reader-flags p [] h = absurd (ground arith)
take_reader-flags zero ((none, w) ∷ ends) h = absurd cc
take_reader-flags zero ((some r, w) ∷ ends) h = ((r, (none, w) ∷ ends), refl, cc)
take_reader-flags (suc p) ((r, w) ∷ ends) h = elim (Option-cases (take_read p (flags ends))) [
  | inl e ↦ absurd (ground arith)
  | inr (es', e) ↦
      let ((id, rest), f, g) = take_reader-flags p ends e in
      ((id, (r, w) ∷ rest), rw f refl, ground (arith, g))
]

pub take_writer-flags :
    (p : ℕ) (ends : List Ends) {es : PipeEnds}
    → take_write p (flags ends) ≡ some es
    → (x : ℕ × List Ends) × (take_writer p ends ≡ ok x) × (flags x.1 ≡ es)
unfolding take_write take_writer
take_writer-flags p [] h = absurd (ground arith)
take_writer-flags zero ((r, none) ∷ ends) h = absurd cc
take_writer-flags zero ((r, some w) ∷ ends) h = ((w, (r, none) ∷ ends), refl, cc)
take_writer-flags (suc p) ((r, w) ∷ ends) h = elim (Option-cases (take_write p (flags ends))) [
  | inl e ↦ absurd (ground arith)
  | inr (es', e) ↦
      let ((id, rest), f, g) = take_writer-flags p ends e in
      ((id, (r, w) ∷ rest), rw f refl, ground (arith, g))
]

abbrev pub is_output : Sink → Bool
is_output Sink.stdout = true
is_output Sink.stderr = true
is_output Sink.dev_null = true
is_output (Sink.gather n) = false
is_output (Sink.pager n) = false

abbrev pub SameRemotes : StackedRemotes → StackedRemotes → Type 0
SameRemotes h h' = (h'.remotes ≡ h.remotes) × (h'.waiting_for ≡ h.waiting_for)

pub mark_sink-SameRemotes :
    (h : StackedRemotes) (sink : Sink) (p : ℕ)
    → is_output sink ≡ true
    → Safe (SameRemotes h) (mark_sink h sink p)
mark_sink-SameRemotes h Sink.dev_null p o = (refl, refl)
mark_sink-SameRemotes h Sink.stdout p o = (refl, refl)
mark_sink-SameRemotes h Sink.stderr p o = (refl, refl)
mark_sink-SameRemotes h (Sink.gather n) p o = absurd cc
mark_sink-SameRemotes h (Sink.pager n) p o = absurd cc

pub split {ℓ} :
    {A : Type ℓ} (o : Option A) (f : A → Option A) {b : A}
    → and_then o f ≡ some b
    → (a : A) × (o ≡ some a) × (f a ≡ some b)
split none f h = absurd cc
split (some a) f h = (a, refl, h)
