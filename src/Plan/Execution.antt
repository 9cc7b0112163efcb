-- ===== src/Plan/Execution.antt =====
-- What a plan asks of the one who carries it out: which ends of which pipes are still free after
-- each step. A step that wants an end that is taken, or a pipe that is not there, is not possible.
use mathlib.Core.Option
use nak.Base.{
  ℕ, zero, suc, ◌≡◌, refl, Bool, true, false, if◌then◌else◌, List, [], ◌∷◌, ◌++◌, Option, none,
  some, arith, Option-cases, inl, inr,
}
use nak.Plan.{
  Step, remote, pipe, pager, editor, run, close, open_input_file, open_output_file, begin_remote,
}

-- The flags of a pipe: the read end is free, the write end is free.
abbrev pub PipeEnds : Type 0
PipeEnds = List (Bool × Bool)

unfoldable pub take_read : ℕ → PipeEnds → Option PipeEnds
take_read p [] = none
take_read zero ((r, w) ∷ es) = if r then some ((false, w) ∷ es) else none
take_read (suc p) (e ∷ es) = Option.map (λ es'. e ∷ es') (take_read p es)

unfoldable pub take_write : ℕ → PipeEnds → Option PipeEnds
take_write p [] = none
take_write zero ((r, w) ∷ es) = if w then some ((r, false) ∷ es) else none
take_write (suc p) (e ∷ es) = Option.map (λ es'. e ∷ es') (take_write p es)

unfoldable pub can_read : PipeEnds → ℕ → Bool
can_read [] p = false
can_read ((r, w) ∷ es) zero = r
can_read (e ∷ es) (suc p) = can_read es p

unfoldable pub can_write : PipeEnds → ℕ → Bool
can_write [] p = false
can_write ((r, w) ∷ es) zero = w
can_write (e ∷ es) (suc p) = can_write es p

abbrev pub and_then {ℓ} : {A : Type ℓ} → Option A → (A → Option A) → Option A
and_then none f = none
and_then (some a) f = f a

unfoldable pub after_step : PipeEnds → Step → Option PipeEnds
after_step es pipe = some (es ++ (true, true) ∷ [])
after_step es (remote r (open_output_file path)) = some (es ++ (false, true) ∷ [])
after_step es (remote r (run cmd p)) =
    and_then (and_then (take_write p.stdout es) (take_write p.stderr)) (take_read p.stdin)
after_step es (remote r close) = some es
after_step es (remote r (open_input_file path)) = none
after_step es (remote r (begin_remote cmd)) = none
after_step es pager = none
after_step es editor = none

unfoldable pub after_steps : PipeEnds → List Step → Option PipeEnds
after_steps es [] = some es
after_steps es (s ∷ ss) = and_then (after_step es s) (λ es'. after_steps es' ss)

pub after_steps-append :
    (es : PipeEnds) (ss : List Step) (s : Step)
    → after_steps es (ss ++ s ∷ []) ≡ and_then (after_steps es ss) (λ es'. after_step es' s)
unfolding after_steps
after_steps-append es [] s = ground arith
after_steps-append es (t ∷ ss) s = go (after_step es t) (λ es'. after_steps-append es' ss s)
  where
    go :
        (o : Option PipeEnds)
        → ((es' : PipeEnds)
            → after_steps es' (ss ++ s ∷ []) ≡ and_then (after_steps es' ss) (λ e. after_step e s))
        → and_then o (λ es'. after_steps es' (ss ++ s ∷ []))
          ≡ and_then (and_then o (λ es'. after_steps es' ss)) (λ e. after_step e s)
    go none h = refl
    go (some es') h = h es'

-- The order in which a command takes its ends does not matter.
pub take_read-take_write :
    (p q : ℕ) (es : PipeEnds)
    → and_then (take_write p es) (take_read q) ≡ and_then (take_read q es) (take_write p)
unfolding take_read take_write
take_read-take_write p q [] = ground arith
take_read-take_write zero zero ((r, w) ∷ es) = ground arith
take_read-take_write zero (suc q) ((r, w) ∷ es) = elim (Option-cases (take_read q es)) [
  | inl e ↦ ground arith
  | inr (es', e) ↦ ground arith
]
take_read-take_write (suc p) zero ((r, w) ∷ es) = elim (Option-cases (take_write p es)) [
  | inl e ↦ ground arith
  | inr (es', e) ↦ ground arith
]
take_read-take_write (suc p) (suc q) (x ∷ es) = elim (Option-cases (take_write p es)) [
  | inl e ↦ elim (Option-cases (take_read q es)) [
    | inl e' ↦ ground arith
    | inr (es', e') ↦ ground (arith, take_read-take_write p q es)
  ]
  | inr (es', e) ↦ elim (Option-cases (take_read q es)) [
    | inl e' ↦ ground (arith, take_read-take_write p q es)
    | inr (es'', e') ↦ ground (arith, take_read-take_write p q es)
  ]
]
