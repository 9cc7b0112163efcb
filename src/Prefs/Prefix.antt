-- ===== src/Prefs/Prefix.antt =====
-- The aliases of contrib/prefs.nak: some words, then whatever follows. On such aliases `expand` is
-- the replacement of the first prefix that fits.
use mathlib.Core.List.{append-nil}
use nak.Base.{
  ap, ◌≡◌, refl, ◌∙◌, if◌then◌else◌, List, [], ◌∷◌, ◌++◌, map, Option, none, some, Bytes, bytes_eq,
  ok, empty, insert, inl, inr, Bool-cases,
}
use nak.Prefs.{
  Item, literal, expando, Rule, Matches, begin, advance, match_item, match_next, match_items, build,
  build_item, apply_rule, expand_rules, expand,
}

-- What follows the words `ls` in `cmd`.
unfoldable pub strip : List Bytes → List Bytes → Option (List Bytes)
strip [] cmd = some cmd
strip (l ∷ ls) [] = none
strip (l ∷ ls) (w ∷ ws) = if bytes_eq w l then strip ls ws else none

pub record Prefix : Type 0 where
  pub from : List Bytes
  pub to : List Bytes

abbrev pub and_rest : List Bytes → List Item
and_rest [] = expando 0 ∷ []
and_rest (l ∷ ls) = literal l ∷ and_rest ls

abbrev pub prefix_rule : Prefix → Rule
prefix_rule p = record { find = and_rest p.from; replace = and_rest p.to }

abbrev substitute : Prefix → Option (List Bytes) → List Bytes → List Bytes
substitute p (some rest) others = p.to ++ rest
substitute p none others = others

-- The first prefix that fits is replaced; with none, the command is as it was.
unfoldable pub replace_prefix : List Prefix → List Bytes → List Bytes
replace_prefix [] cmd = cmd
replace_prefix (p ∷ ps) cmd = substitute p (strip p.from cmd) (replace_prefix ps cmd)

abbrev matched : List Bytes → Matches
matched rest = record (begin rest) { expando_matches = insert empty 0 rest; it = [] }

abbrev matched_if : Option (List Bytes) → Option Matches
matched_if none = none
matched_if (some rest) = some (matched rest)

advance_again : (w : Bytes) (ws : List Bytes) → advance (begin (w ∷ ws)) ws ≡ begin ws
advance_again w [] = refl
advance_again w (v ∷ ws) = refl

match-strip :
    (ls cmd : List Bytes) → match_items (and_rest ls) (begin cmd) ≡ ok (matched_if (strip ls cmd))
unfolding match_items match_next match_item strip
match-strip [] [] = refl
match-strip [] (w ∷ ws) = refl
match-strip (l ∷ ls) [] = refl
match-strip (l ∷ ls) (w ∷ ws) = elim (Bool-cases (bytes_eq w l)) [
  | inl e ↦ rw e (ap (match_items (and_rest ls)) (advance_again w ws) ∙ match-strip ls ws)
  | inr e ↦ rw e refl
]

build-and_rest : (ls rest : List Bytes) → build (and_rest ls) (matched rest) ≡ ok (ls ++ rest)
unfolding build build_item
build-and_rest [] [] = refl
build-and_rest [] (w ∷ ws) = rw append-nil
build-and_rest (l ∷ ls) rest = rw (build-and_rest ls rest) refl

apply_rule-substitute :
    (p : Prefix) (found : Option (List Bytes)) (others : List Bytes)
    → apply_rule (prefix_rule p) (matched_if found) (ok others) ≡ ok (substitute p found others)
unfolding apply_rule
apply_rule-substitute p none others = refl
apply_rule-substitute p (some rest) others = build-and_rest p.to rest

expand_rules-replace_prefix :
    (ps : List Prefix) (cmd : List Bytes)
    → expand_rules (map prefix_rule ps) cmd ≡ ok (replace_prefix ps cmd)
unfolding expand_rules replace_prefix
expand_rules-replace_prefix [] cmd = refl
expand_rules-replace_prefix (p ∷ ps) cmd = rw (match-strip p.from cmd) (
    rw (expand_rules-replace_prefix ps cmd)
      (apply_rule-substitute p (strip p.from cmd) (replace_prefix ps cmd)))

-- On aliases that are words followed by an `Expando`, `expand` replaces the first prefix that the
-- command begins with, keeps all that follows it, and leaves a command with none of them alone.
pub expand-replace_prefix :
    (ps : List Prefix) (cmd : List Bytes)
    → expand (record { aliases = map prefix_rule ps }) cmd ≡ ok (replace_prefix ps cmd)
unfolding expand
expand-replace_prefix ps cmd = expand_rules-replace_prefix ps cmd
