-- ===== src/Recorder/Display/Bytewise.antt =====
-- `ColorCoded::fmt` of tools/record against a printer that looks at one byte at a time.
use nak.Base.{
  ℕ, zero, suc, ◌<◌, ◌≤◌, ◌≡◌, refl, ap, sym, ◌∙◌, Bool, true, false, if◌then◌else◌, [], ◌∷◌, ◌++◌,
  length, Bytes, ok, ◌>>=◌, Bool-cases, inl, inr, arith,
}
use nak.Recorder.Display.{is_printable, hex, printable_run, hex_run, color_loop, color_coded}
use mathlib.Core.List.{append_assoc, append-nil}

-- A printable byte stands for itself, any other is two digits; the colour is switched where the one
-- kind follows the other. The flag says that it is on.
unfoldable pub print_byte : Bytes → Bytes → Bool → Bytes → Bytes
print_byte red reset on [] = if on then reset else []
print_byte red reset on (b ∷ bs) = elim (is_printable b) [
  | true ↦ (if on then reset else []) ++ b ∷ print_byte red reset false bs
  | false ↦ (if on then [] else red) ++ (hex b ++ print_byte red reset true bs)
]

-- the two kinds of byte, in front of a text
printable_run-printable :
    (b : ℕ) (bs : Bytes)
    → is_printable b ≡ true
    → printable_run (b ∷ bs) ≡ (b ∷ (printable_run bs).0, (printable_run bs).1)
unfolding printable_run
printable_run-printable b bs e = rw (e, printable_run) refl

printable_run-other :
    (b : ℕ) (bs : Bytes) → is_printable b ≡ false → printable_run (b ∷ bs) ≡ ([], b ∷ bs)
unfolding printable_run
printable_run-other b bs e = rw (e, printable_run) refl

hex_run-printable : (b : ℕ) (bs : Bytes) → is_printable b ≡ true → hex_run (b ∷ bs) ≡ ([], b ∷ bs)
unfolding hex_run
hex_run-printable b bs e = rw (e, hex_run) refl

hex_run-other :
    (b : ℕ) (bs : Bytes)
    → is_printable b ≡ false
    → hex_run (b ∷ bs) ≡ (hex b ++ (hex_run bs).0, (hex_run bs).1)
unfolding hex_run
hex_run-other b bs e = rw (e, hex_run) refl

module _ (white red reset : Bytes) where
  print_byte-printable :
      (on : Bool) (b : ℕ) (bs : Bytes)
      → is_printable b ≡ true
      → print_byte red reset on (b ∷ bs)
        ≡ (if on then reset else []) ++ b ∷ print_byte red reset false bs
  unfolding print_byte
  print_byte-printable on b bs e = rw (e, print_byte) refl

  print_byte-other :
      (on : Bool) (b : ℕ) (bs : Bytes)
      → is_printable b ≡ false
      → print_byte red reset on (b ∷ bs)
        ≡ (if on then [] else red) ++ (hex b ++ print_byte red reset true bs)
  unfolding print_byte
  print_byte-other on b bs e = rw (e, print_byte) refl

  printable_run-print_byte :
      (bs : Bytes)
      → (print_byte red reset false bs
          ≡ (printable_run bs).0 ++ print_byte red reset false (printable_run bs).1)
        × (length (printable_run bs).1 ≤ length bs)
  unfolding printable_run
  printable_run-print_byte [] = (refl, omega arith)
  printable_run-print_byte (b ∷ bs) = elim (Bool-cases (is_printable b)) [
    | inl e ↦
        let (h, l) = printable_run-print_byte bs in
        let k = printable_run-printable b bs e in
        (
          print_byte-printable false b bs e
              ∙ ap (λ u. b ∷ u) h
              ∙ sym (ap (λ (p : Bytes × Bytes). p.0 ++ print_byte red reset false p.1) k),
          omega (arith, l, ap (λ (p : Bytes × Bytes). length p.1) k),
        )
    | inr e ↦
        let k = printable_run-other b bs e in
        (
          sym (ap (λ (p : Bytes × Bytes). p.0 ++ print_byte red reset false p.1) k),
          omega (arith, ap (λ (p : Bytes × Bytes). length p.1) k),
        )
  ]

  hex_run-print_byte :
      (bs : Bytes)
      → (print_byte red reset true bs
          ≡ (hex_run bs).0 ++ (reset ++ print_byte red reset false (hex_run bs).1))
        × (length (hex_run bs).1 ≤ length bs)
  unfolding print_byte hex_run
  hex_run-print_byte [] = (sym (append-nil reset), omega arith)
  hex_run-print_byte (b ∷ bs) = elim (Bool-cases (is_printable b)) [
    | inl e ↦
        let k = hex_run-printable b bs e in
        (
          print_byte-printable true b bs e
              ∙ sym (ap (λ u. reset ++ u) (print_byte-printable false b bs e))
              ∙ sym
                  (ap (λ (p : Bytes × Bytes). p.0 ++ (reset ++ print_byte red reset false p.1)) k),
          omega (arith, ap (λ (p : Bytes × Bytes). length p.1) k),
        )
    | inr e ↦
        let (h, l) = hex_run-print_byte bs in
        let k = hex_run-other b bs e in
        (
          print_byte-other true b bs e
              ∙ ap (λ u. hex b ++ u) h
              ∙ sym (
                  append_assoc (hex b) (hex_run bs).0
                    (reset ++ print_byte red reset false (hex_run bs).1))
              ∙ sym
                  (ap (λ (p : Bytes × Bytes). p.0 ++ (reset ++ print_byte red reset false p.1)) k),
          omega (arith, l, ap (λ (p : Bytes × Bytes). length p.1) k),
        )
  ]

  color_loop-printable :
      (fuel b : ℕ) (bs : Bytes)
      → is_printable b ≡ true
      → color_loop white red reset (suc fuel) (b ∷ bs) ≡ (
          color_loop white red reset fuel (printable_run bs).1 >>= λ out.
          ok (b ∷ ((printable_run bs).0 ++ out)))
  unfolding color_loop
  color_loop-printable fuel b bs e =
      let k = printable_run-printable b bs e in
      rw (e, color_loop)
        (ap (λ (p : Bytes × Bytes). color_loop white red reset fuel p.1 >>= λ out. ok (p.0 ++ out))
          k)

  color_loop-other :
      (fuel b : ℕ) (bs : Bytes)
      → is_printable b ≡ false
      → color_loop white red reset (suc fuel) (b ∷ bs) ≡ (
          color_loop white red reset fuel (hex_run bs).1 >>= λ out.
          ok (red ++ ((hex b ++ (hex_run bs).0) ++ (reset ++ out))))
  unfolding color_loop
  color_loop-other fuel b bs e =
      let k = hex_run-other b bs e in
      rw (e, color_loop)
        (ap
          (λ (p : Bytes × Bytes).
            color_loop white red reset fuel p.1 >>= λ out. ok (red ++ (p.0 ++ (reset ++ out))))
          k)

  color_loop-print_byte :
      (fuel : ℕ) (bs : Bytes)
      → length bs < fuel
      → color_loop white red reset fuel bs ≡ ok (print_byte red reset false bs)
  unfolding color_loop print_byte
  color_loop-print_byte zero bs h = absurd (omega arith)
  color_loop-print_byte (suc fuel) [] h = refl
  color_loop-print_byte (suc fuel) (b ∷ bs) h = elim (Bool-cases (is_printable b)) [
    | inl e ↦
        let (k, l) = printable_run-print_byte bs in
        color_loop-printable fuel b bs e
        ∙ ap (λ m. m >>= λ out. ok (b ∷ ((printable_run bs).0 ++ out)))
            (color_loop-print_byte fuel (printable_run bs).1 (omega (arith, l)))
        ∙ ap (λ u. ok (b ∷ u)) (sym k)
        ∙ ap ok (sym (print_byte-printable false b bs e))
    | inr e ↦
        let (k, l) = hex_run-print_byte bs in
        let after = reset ++ print_byte red reset false (hex_run bs).1 in
        color_loop-other fuel b bs e
        ∙ ap (λ m. m >>= λ out. ok (red ++ ((hex b ++ (hex_run bs).0) ++ (reset ++ out))))
            (color_loop-print_byte fuel (hex_run bs).1 (omega (arith, l)))
        ∙ ap (λ u. ok (red ++ u)) (append_assoc (hex b) (hex_run bs).0 after)
        ∙ ap (λ u. ok (red ++ (hex b ++ u))) (sym k)
        ∙ ap ok (sym (print_byte-other false b bs e))
  ]

  -- On any bytes the two loops of `ColorCoded::fmt` end, and print what the printer of single bytes
  -- prints: the colour is switched on in front of a run of other bytes and off behind it.
  pub color_coded-print_byte :
      (bs : Bytes) → color_coded white red reset bs ≡ ok (print_byte red reset false bs)
  unfolding color_coded
  color_coded-print_byte bs = color_loop-print_byte (suc (length bs)) bs (omega arith)
