-- ===== src/Base/Results.antt =====
-- The result of fallible code: a value, an `Err`, a panic, a loop that ran out of its fuel, or
-- behaviour that Rust leaves undefined.
use mathlib.Core.Path.{◌≡◌, refl}
use mathlib.Core.Logic.{◌⊎◌, inl, inr}
use mathlib.Core.Bool.{Bool, true, false}
use mathlib.Core.Option.{Option, none, some}

pub data Error : Type 0 where
  too_many_args not_enough_args io : Error

pub data Fault : Type 0 where
  panicked : Fault
  out_of_fuel : Fault
  undefined : Fault
  failed : Error → Fault

pub data Outcome {ℓ} (A : Type ℓ) : Type ℓ where
  ok : A → Outcome A
  fault : Fault → Outcome A

abbrev pub panic {ℓ} : {A : Type ℓ} → Outcome A
panic = fault panicked

infixl 5 ◌>>=◌ ◌>>◌
abbrev pub ◌>>=◌ {ℓ κ} : {A : Type ℓ} {B : Type κ} → Outcome A → (A → Outcome B) → Outcome B
ok a >>= f = f a
fault e >>= f = fault e

abbrev pub ◌>>◌ {ℓ} : {B : Type ℓ} → Outcome (Unit {0}) → Outcome B → Outcome B
m >> k = m >>= λ _. k

-- `assert!(b)`
abbrev pub assert : Bool → Outcome (Unit {0})
assert true = ok tt
assert false = panic

-- `o.unwrap()` and `o.expect(..)`
abbrev pub unwrap {ℓ} : {A : Type ℓ} → Option A → Outcome A
unwrap (some a) = ok a
unwrap none = panic

-- `.unwrap()` of a `Result`
abbrev pub expect_ok {ℓ} : {A : Type ℓ} → Outcome A → Outcome A
expect_ok (fault (failed e)) = panic
expect_ok (fault panicked) = panic
expect_ok (fault out_of_fuel) = fault out_of_fuel
expect_ok (fault undefined) = fault undefined
expect_ok (ok a) = ok a

-- A chain that returns: its first part returned, and so did the rest on that value.
pub >>=-eq-ok {ℓ κ} :
    {A : Type ℓ} {B : Type κ} (first : Outcome A) (rest : A → Outcome B) {y : B}
    → (first >>= rest) ≡ ok y
    → (x : A) × (first ≡ ok x) × (rest x ≡ ok y)
>>=-eq-ok (ok x) rest e = (x, refl, e)
>>=-eq-ok (fault x) rest e = cc

pub >>=_assoc {ℓ κ μ} :
    {A : Type ℓ} {B : Type κ} {C : Type μ} (m : Outcome A) (f : A → Outcome B) (g : B → Outcome C)
    → ((m >>= f) >>= g) ≡ (m >>= λ a. f a >>= g)
>>=_assoc (ok a) f g = refl
>>=_assoc (fault e) f g = refl

pub >>=_congr {ℓ κ} :
    {A : Type ℓ} {B : Type κ} (m : Outcome A) (f g : A → Outcome B)
    → ((a : A) → f a ≡ g a)
    → (m >>= f) ≡ (m >>= g)
>>=_congr (ok a) f g h = h a
>>=_congr (fault e) f g h = refl

-- The code returns a value that satisfies `P`.
abbrev pub Returns {ℓ} : {A : Type ℓ} → (A → Type 0) → Outcome A → Type 0
Returns P (ok a) = P a
Returns P (fault e) = ⊥

-- The code does not panic and does not run out of fuel: it returns a value that satisfies `P`,
-- or an `Err`.
abbrev pub Safe {ℓ} : {A : Type ℓ} → (A → Type 0) → Outcome A → Type 0
Safe P (ok a) = P a
Safe P (fault (failed e)) = Unit
Safe P (fault _) = ⊥

pub Safe-bind {ℓ κ} :
    {A : Type ℓ} {B : Type κ} (Mid : A → Type 0) (Q : B → Type 0) (m : Outcome A)
    (f : A → Outcome B)
    → Safe Mid m
    → ((a : A) → Mid a → Safe Q (f a))
    → Safe Q (m >>= f)
Safe-bind Mid Q (ok a) f h k = k a h
Safe-bind Mid Q (fault (failed e)) f h k = tt
Safe-bind Mid Q (fault panicked) f h k = elim h [ ]
Safe-bind Mid Q (fault out_of_fuel) f h k = elim h [ ]
Safe-bind Mid Q (fault undefined) f h k = elim h [ ]

pub Safe-mono {ℓ} :
    {A : Type ℓ} (P Q : A → Type 0) (m : Outcome A) → Safe P m → ((a : A) → P a → Q a) → Safe Q m
Safe-mono P Q (ok a) h k = k a h
Safe-mono P Q (fault (failed e)) h k = tt
Safe-mono P Q (fault panicked) h k = elim h [ ]
Safe-mono P Q (fault out_of_fuel) h k = elim h [ ]
Safe-mono P Q (fault undefined) h k = elim h [ ]

pub Returns-bind {ℓ κ} :
    {A : Type ℓ} {B : Type κ} (Mid : A → Type 0) (Q : B → Type 0) (m : Outcome A)
    (f : A → Outcome B)
    → Returns Mid m
    → ((a : A) → Mid a → Returns Q (f a))
    → Returns Q (m >>= f)
Returns-bind Mid Q (ok a) f h k = k a h
Returns-bind Mid Q (fault e) f h k = elim h [ ]

pub Returns-mono {ℓ} :
    {A : Type ℓ} (P Q : A → Type 0) (m : Outcome A)
    → Returns P m
    → ((a : A) → P a → Q a)
    → Returns Q m
Returns-mono P Q (ok a) h k = k a h
Returns-mono P Q (fault e) h k = elim h [ ]

-- The code ends: with a value that satisfies `P`, or with a panic, and then `Bad` holds.
abbrev pub Ends {ℓ} : {A : Type ℓ} → Type 0 → (A → Type 0) → Outcome A → Type 0
Ends Bad P (ok a) = P a
Ends Bad P (fault panicked) = Bad
Ends Bad P (fault _) = ⊥

pub Ends-bind {ℓ κ} :
    {A : Type ℓ} {B : Type κ} (Bad : Type 0) (P : A → Type 0) (Q : B → Type 0) (m : Outcome A)
    (f : A → Outcome B)
    → Ends Bad P m
    → ((a : A) → P a → Ends Bad Q (f a))
    → Ends Bad Q (m >>= f)
Ends-bind Bad P Q (ok a) f h k = k a h
Ends-bind Bad P Q (fault panicked) f h k = h
Ends-bind Bad P Q (fault out_of_fuel) f h k = elim h [ ]
Ends-bind Bad P Q (fault undefined) f h k = elim h [ ]
Ends-bind Bad P Q (fault (failed e)) f h k = elim h [ ]

pub Ends-mono {ℓ} :
    {A : Type ℓ} (Bad : Type 0) (P Q : A → Type 0) (m : Outcome A)
    → Ends Bad P m
    → ((a : A) → P a → Q a)
    → Ends Bad Q m
Ends-mono Bad P Q (ok a) h k = k a h
Ends-mono Bad P Q (fault panicked) h k = h
Ends-mono Bad P Q (fault out_of_fuel) h k = elim h [ ]
Ends-mono Bad P Q (fault undefined) h k = elim h [ ]
Ends-mono Bad P Q (fault (failed e)) h k = elim h [ ]

-- The code panics or runs out of fuel.
abbrev pub Hazardous {ℓ} : {A : Type ℓ} → Outcome A → Type 0
Hazardous (ok a) = ⊥
Hazardous (fault (failed e)) = ⊥
Hazardous (fault _) = Unit

-- The code returns a value that satisfies `P` or an `Err`; it fails otherwise only if `Bad` holds.
abbrev pub Guarded {ℓ} : {A : Type ℓ} → Type 0 → (A → Type 0) → Outcome A → Type 0
Guarded Bad P (ok a) = P a
Guarded Bad P (fault (failed e)) = Unit
Guarded Bad P (fault _) = Bad

pub Guarded-bind {ℓ κ} :
    {A : Type ℓ} {B : Type κ} (Bad : Type 0) (P : A → Type 0) (Q : B → Type 0) (m : Outcome A)
    (f : A → Outcome B)
    → Guarded Bad P m
    → ((a : A) → P a → Guarded Bad Q (f a))
    → Guarded Bad Q (m >>= f)
Guarded-bind Bad P Q (ok a) f h k = k a h
Guarded-bind Bad P Q (fault panicked) f h k = h
Guarded-bind Bad P Q (fault out_of_fuel) f h k = h
Guarded-bind Bad P Q (fault undefined) f h k = h
Guarded-bind Bad P Q (fault (failed e)) f h k = tt

pub Guarded-mono {ℓ} :
    {A : Type ℓ} (Bad Worse : Type 0) (P Q : A → Type 0) (m : Outcome A)
    → Guarded Bad P m
    → (Bad → Worse)
    → ((a : A) → P a → Q a)
    → Guarded Worse Q m
Guarded-mono Bad Worse P Q (ok a) h b k = k a h
Guarded-mono Bad Worse P Q (fault panicked) h b k = b h
Guarded-mono Bad Worse P Q (fault out_of_fuel) h b k = b h
Guarded-mono Bad Worse P Q (fault undefined) h b k = b h
Guarded-mono Bad Worse P Q (fault (failed e)) h b k = tt

-- What a call does, on the condition that it may be hazardous.
pub Guarded-self {ℓ} : {A : Type ℓ} (m : Outcome A) → Guarded (Hazardous m) (λ a. Unit) m
Guarded-self (ok a) = tt
Guarded-self (fault panicked) = tt
Guarded-self (fault out_of_fuel) = tt
Guarded-self (fault undefined) = tt
Guarded-self (fault (failed e)) = tt

pub Guarded-of_Safe {ℓ} :
    {A : Type ℓ} (Bad : Type 0) (P : A → Type 0) (m : Outcome A) → Safe P m → Guarded Bad P m
Guarded-of_Safe Bad P (ok a) h = h
Guarded-of_Safe Bad P (fault (failed e)) h = tt
Guarded-of_Safe Bad P (fault panicked) h = elim h [ ]
Guarded-of_Safe Bad P (fault out_of_fuel) h = elim h [ ]
Guarded-of_Safe Bad P (fault undefined) h = elim h [ ]

pub Guarded-of_Returns {ℓ} :
    {A : Type ℓ} (Bad : Type 0) (P : A → Type 0) (m : Outcome A) → Returns P m → Guarded Bad P m
Guarded-of_Returns Bad P (ok a) h = h
Guarded-of_Returns Bad P (fault e) h = elim h [ ]

-- The code ends: it does not run out of fuel, and a value that it returns satisfies `P`.
abbrev pub Settles {ℓ} : {A : Type ℓ} → (A → Type 0) → Outcome A → Type 0
Settles P (ok a) = P a
Settles P (fault out_of_fuel) = ⊥
Settles P (fault undefined) = ⊥
Settles P (fault _) = Unit

pub Settles-bind {ℓ κ} :
    {A : Type ℓ} {B : Type κ} (P : A → Type 0) (Q : B → Type 0) (m : Outcome A) (f : A → Outcome B)
    → Settles P m
    → ((a : A) → P a → Settles Q (f a))
    → Settles Q (m >>= f)
Settles-bind P Q (ok a) f h k = k a h
Settles-bind P Q (fault panicked) f h k = tt
Settles-bind P Q (fault out_of_fuel) f h k = elim h [ ]
Settles-bind P Q (fault undefined) f h k = elim h [ ]
Settles-bind P Q (fault (failed e)) f h k = tt

-- A value that the code returns satisfies `P`.
abbrev pub Yields {ℓ} : {A : Type ℓ} → (A → Type 0) → Outcome A → Type 0
Yields P (ok a) = P a
Yields P (fault e) = Unit

pub Yields-of_Returns {ℓ} :
    {A : Type ℓ} (P Q : A → Type 0) (m : Outcome A)
    → Returns P m
    → ((a : A) → P a → Q a)
    → Yields Q m
Yields-of_Returns P Q (ok a) h k = k a h
Yields-of_Returns P Q (fault e) h k = elim h [ ]

pub Returns-value {ℓ} :
    {A : Type ℓ} (P : A → Type 0) (m : Outcome A) → Returns P m → (a : A) × (m ≡ ok a) × P a
Returns-value P (ok a) h = (a, refl, h)
Returns-value P (fault e) h = elim h [ ]

pub Outcome-cases {ℓ} :
    {A : Type ℓ} (m : Outcome A) → ((a : A) × (m ≡ ok a)) ⊎ ((e : Fault) × (m ≡ fault e))
Outcome-cases (ok a) = inl (a, refl)
Outcome-cases (fault e) = inr (e, refl)
