-- ===== src/Edit/Commands.antt =====
-- When `convert_single` panics: on a command that the aliases expand to nothing, or to `nak`.
use nak.Base.{
  ◌≡◌, refl, ◌↔◌, inl, inr, List, [], ◌∷◌, map, Bytes, bytes_eq, bytes_eq_iff, codes, Outcome, ok,
  fault, ◌>>=◌, All, Returns, Hazardous, Bool-cases,
}
use nak.Protocol.{Command, set_directory, edit}
use nak.Parse.{Cmd, expand_string}
use nak.Prefs.{Prefs, expand}
use nak.Prefs.Safe.{IsWellFormed, expand-Returns}
use nak.Edit.{check_single_arg, convert_words, convert_single}

-- No command, or the command `nak`, which is not implemented.
abbrev pub IsRefused : List Bytes → Type 0
IsRefused [] = Unit
IsRefused (head ∷ rest) = head ≡ codes "nak"

check_single_arg-safe :
    (it : List Bytes) (f : Bytes → Command) → ¬ Hazardous (check_single_arg it >>= λ a. ok (f a))
unfolding check_single_arg
check_single_arg-safe [] f h = h
check_single_arg-safe (i ∷ []) f h = h
check_single_arg-safe (i ∷ j ∷ rest) f h = h

IsRefused-convert_words : (items : List Bytes) → Hazardous (convert_words items) → IsRefused items
unfolding convert_words
IsRefused-convert_words [] h = tt
IsRefused-convert_words (head ∷ it) h = elim (Bool-cases (bytes_eq head (codes "cd"))) [
  | inl e ↦ absurd (check_single_arg-safe it set_directory (rw e at h))
  | inr e ↦ elim (Bool-cases (bytes_eq head (codes "micro"))) [
    | inl e' ↦ absurd (check_single_arg-safe it edit (rw e' at (rw e at h)))
    | inr e' ↦ elim (Bool-cases (bytes_eq head (codes "nak"))) [
      | inl e'' ↦ (bytes_eq_iff head (codes "nak")).0 e''
      | inr e'' ↦ elim (rw e'' at (rw e' at (rw e at h))) [ ]
    ]
  ]
]

convert_words-IsRefused : (items : List Bytes) → IsRefused items → Hazardous (convert_words items)
unfolding convert_words bytes_eq
convert_words-IsRefused [] h = tt
convert_words-IsRefused (head ∷ it) h = rw h tt

-- With well-formed aliases, `convert_single` panics exactly where the expansion of the command is
-- empty or begins with `nak`.
pub convert_single-IsRefused :
    (prefs : Prefs) (c : Cmd)
    → All IsWellFormed prefs.aliases
    → (items : List Bytes) × (expand prefs (map expand_string c.words) ≡ ok items)
      × (Hazardous (convert_single prefs c) ↔ IsRefused items)
unfolding convert_single
convert_single-IsRefused prefs c h =
    go (expand prefs (map expand_string c.words))
      (expand-Returns prefs (map expand_string c.words) h)
  where
    go :
        (m : Outcome (List Bytes))
        → Returns (λ ws. Unit) m
        → (items : List Bytes) × (m ≡ ok items)
          × (Hazardous (m >>= convert_words) ↔ IsRefused items)
    go (ok items) r = (items, refl, (IsRefused-convert_words items, convert_words-IsRefused items))
    go (fault e) r = elim r [ ]
