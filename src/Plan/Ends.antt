-- ===== src/Plan/Ends.antt =====
-- Which ends are free behind a `take_read`, a `take_write` and a new pipe.
use nak.Base.{
  ℕ, zero, suc, ◌==◌, ◌<◌, ◌≡◌, refl, Bool, true, false, if◌then◌else◌, [], ◌∷◌, ◌++◌, some, length,
  arith, Option-cases, inl, inr,
}
use nak.Plan.Execution.{PipeEnds, take_read, take_write, can_read, can_write}

-- Taking a write end leaves every read end.
pub can_read-take_write :
    (p q : ℕ) (es : PipeEnds) {es' : PipeEnds}
    → take_write p es ≡ some es'
    → can_read es' q ≡ can_read es q
unfolding take_write can_read
can_read-take_write p q [] h = ground arith
can_read-take_write zero zero ((r, w) ∷ es) h = ground arith
can_read-take_write zero (suc q) ((r, w) ∷ es) h = ground arith
can_read-take_write (suc p) zero (x ∷ es) h = elim (Option-cases (take_write p es)) [
  | inl e ↦ ground arith
  | inr (rest, e) ↦ ground arith
]
can_read-take_write (suc p) (suc q) (x ∷ es) h = elim (Option-cases (take_write p es)) [
  | inl e ↦ ground arith
  | inr (rest, e) ↦ ground (arith, can_read-take_write p q es e)
]

pub can_write-take_write :
    (p q : ℕ) (es : PipeEnds) {es' : PipeEnds}
    → take_write p es ≡ some es'
    → can_write es' q ≡ (if p == q then false else can_write es q)
unfolding take_write can_write
can_write-take_write p q [] h = ground arith
can_write-take_write zero zero ((r, w) ∷ es) h = ground arith
can_write-take_write zero (suc q) ((r, w) ∷ es) h = ground arith
can_write-take_write (suc p) zero (x ∷ es) h = elim (Option-cases (take_write p es)) [
  | inl e ↦ ground arith
  | inr (rest, e) ↦ ground arith
]
can_write-take_write (suc p) (suc q) (x ∷ es) h = elim (Option-cases (take_write p es)) [
  | inl e ↦ ground arith
  | inr (rest, e) ↦ ground (arith, can_write-take_write p q es e)
]

pub take_write_of :
    (p : ℕ) (es : PipeEnds)
    → can_write es p ≡ true
    → (es' : PipeEnds) × (take_write p es ≡ some es')
unfolding take_write can_write
take_write_of p [] h = ground arith
take_write_of zero ((r, w) ∷ es) h = ((r, false) ∷ es, ground arith)
take_write_of (suc p) (x ∷ es) h = let (es', e) = take_write_of p es h in (x ∷ es', ground arith)

-- The entry of a new pipe, behind the others.
pub can_write-append :
    (es : PipeEnds) (e : Bool × Bool) (q : ℕ)
    → can_write (es ++ e ∷ []) q ≡ (if length es == q then e.1 else can_write es q)
unfolding can_write
can_write-append [] (r, w) zero = refl
can_write-append [] (r, w) (suc q) = ground arith
can_write-append (x ∷ es) e zero = ground arith
can_write-append (x ∷ es) e (suc q) = ground (arith, can_write-append es e q)

pub can_write_lt : (es : PipeEnds) (q : ℕ) → can_write es q ≡ true → q < length es
unfolding can_write
can_write_lt [] q h = ground arith
can_write_lt (x ∷ es) zero h = omega arith
can_write_lt (x ∷ es) (suc q) h = omega (arith, can_write_lt es q h)

-- Taking a read end leaves every write end.
pub can_write-take_read :
    (p q : ℕ) (es : PipeEnds) {es' : PipeEnds}
    → take_read p es ≡ some es'
    → can_write es' q ≡ can_write es q
unfolding take_read can_write
can_write-take_read p q [] h = ground arith
can_write-take_read zero zero ((r, w) ∷ es) h = ground arith
can_write-take_read zero (suc q) ((r, w) ∷ es) h = ground arith
can_write-take_read (suc p) zero (x ∷ es) h = elim (Option-cases (take_read p es)) [
  | inl e ↦ ground arith
  | inr (rest, e) ↦ ground arith
]
can_write-take_read (suc p) (suc q) (x ∷ es) h = elim (Option-cases (take_read p es)) [
  | inl e ↦ ground arith
  | inr (rest, e) ↦ ground (arith, can_write-take_read p q es e)
]

pub can_read-take_read :
    (p q : ℕ) (es : PipeEnds) {es' : PipeEnds}
    → take_read p es ≡ some es'
    → can_read es' q ≡ (if p == q then false else can_read es q)
unfolding take_read can_read
can_read-take_read p q [] h = ground arith
can_read-take_read zero zero ((r, w) ∷ es) h = ground arith
can_read-take_read zero (suc q) ((r, w) ∷ es) h = ground arith
can_read-take_read (suc p) zero (x ∷ es) h = elim (Option-cases (take_read p es)) [
  | inl e ↦ ground arith
  | inr (rest, e) ↦ ground arith
]
can_read-take_read (suc p) (suc q) (x ∷ es) h = elim (Option-cases (take_read p es)) [
  | inl e ↦ ground arith
  | inr (rest, e) ↦ ground (arith, can_read-take_read p q es e)
]

pub take_read_of :
    (p : ℕ) (es : PipeEnds) → can_read es p ≡ true → (es' : PipeEnds) × (take_read p es ≡ some es')
unfolding take_read can_read
take_read_of p [] h = ground arith
take_read_of zero ((r, w) ∷ es) h = ((false, w) ∷ es, ground arith)
take_read_of (suc p) (x ∷ es) h = let (es', e) = take_read_of p es h in (x ∷ es', ground arith)

-- The entry of a new pipe, behind the others.
pub can_read-append :
    (es : PipeEnds) (e : Bool × Bool) (q : ℕ)
    → can_read (es ++ e ∷ []) q ≡ (if length es == q then e.0 else can_read es q)
unfolding can_read
can_read-append [] (r, w) zero = refl
can_read-append [] (r, w) (suc q) = ground arith
can_read-append (x ∷ es) e zero = ground arith
can_read-append (x ∷ es) e (suc q) = ground (arith, can_read-append es e q)

pub can_read_lt : (es : PipeEnds) (q : ℕ) → can_read es q ≡ true → q < length es
unfolding can_read
can_read_lt [] q h = ground arith
can_read_lt (x ∷ es) zero h = omega arith
can_read_lt (x ∷ es) (suc q) h = omega (arith, can_read_lt es q h)
