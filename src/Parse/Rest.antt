-- ===== src/Parse/Rest.antt =====
-- The text behind the cursor of frontend/src/parse.rs, followed byte by byte.
use nak.Base.{
  ℕ, zero, suc, ◌+◌, ◌≡◌, refl, [], ◌∷◌, none, some, length, get_elem?, drop, Bytes, arith,
}

-- What is left of the text behind a position.
abbrev pub Left : Bytes → ℕ → Bytes → Type 0
Left text p rest = (drop p text ≡ rest) × (length text ≡ p + length rest)

pub Left-cur :
    (text : Bytes) (p c : ℕ) (rest : Bytes) → Left text p (c ∷ rest) → get_elem? text p ≡ some c
Left-cur [] zero c rest (d, l) = absurd cc
Left-cur [] (suc p) c rest (d, l) = absurd cc
Left-cur (x ∷ text) zero c rest (d, l) = cc
Left-cur (x ∷ text) (suc p) c rest (d, l) = Left-cur text p c rest (d, omega (arith, l))

pub Left-end : (text : Bytes) (p : ℕ) → Left text p [] → get_elem? text p ≡ none
Left-end [] p l = refl
Left-end (x ∷ text) zero (d, l) = absurd cc
Left-end (x ∷ text) (suc p) (d, l) = Left-end text p (d, omega (arith, l))

pub Left-bump :
    (text : Bytes) (p q c : ℕ) (rest : Bytes)
    → Left text p (c ∷ rest)
    → q ≡ p + 1
    → Left text q rest
Left-bump [] zero q c rest (d, l) e = absurd cc
Left-bump [] (suc p) q c rest (d, l) e = absurd cc
Left-bump (x ∷ text) p zero c rest (d, l) e = absurd (omega arith)
Left-bump (x ∷ text) zero (suc zero) c rest (d, l) e = (cc, omega (arith, l))
Left-bump (x ∷ text) zero (suc (suc q)) c rest (d, l) e = absurd (omega arith)
Left-bump (x ∷ text) (suc p) (suc q) c rest (d, l) e =
    let (e', m) = Left-bump text p q c rest (d, omega (arith, l)) (omega arith) in
    (e', omega (arith, m))
