-- ===== src/Prefs/Safe.antt =====
-- Aliases on which `expand` never panics: no id is bound twice in `find`, and `replace` uses each id
-- once at most, and only where `find` binds it in the same way.
use nak.Base.{
  ℕ, ◌≡◌, refl, true, false, List, [], ◌∷◌, Option, none, some, Bytes, arith, Outcome, Returns,
  Returns-bind, All, NumSet, set_insert, set_remove, contains_key, contains_key-insert,
  contains_key-remove, insert, remove, no_elements, empty, inl, inr, Bool-cases, Option-cases,
}
use nak.Prefs.{
  Item, literal, variable, expando, Rule, Prefs, Matches, advance, is_word, begin, match_item,
  match_next, match_items, bind_variable, build_item, build, apply_rule, expand_rules, expand,
}

-- The ids that are bound: to a word, and to a list of words.
pub record Bound : Type 0 where
  pub words : NumSet
  pub lists : NumSet

abbrev pub unbound : Bound
unbound = record { words = no_elements; lists = no_elements }

-- the ids bound behind the items
abbrev pub bound_by : Bound → List Item → Bound
bound_by b [] = b
bound_by b (literal w ∷ items) = bound_by b items
bound_by b (variable id ∷ items) = bound_by (record b { words = set_insert b.words id }) items
bound_by b (expando id ∷ items) = bound_by (record b { lists = set_insert b.lists id }) items

abbrev pub CanFind : Bound → List Item → Type 0
CanFind b [] = Unit
CanFind b (literal w ∷ items) = CanFind b items
CanFind b (variable id ∷ items) =
    (b.words id ≡ false)
    × (b.lists id ≡ false)
    × CanFind (record b { words = set_insert b.words id }) items
CanFind b (expando id ∷ items) =
    (b.words id ≡ false)
    × (b.lists id ≡ false)
    × CanFind (record b { lists = set_insert b.lists id }) items

abbrev pub CanBuild : Bound → List Item → Type 0
CanBuild b [] = Unit
CanBuild b (literal w ∷ items) = CanBuild b items
CanBuild b (variable id ∷ items) =
    (b.words id ≡ true) × CanBuild (record b { words = set_remove b.words id }) items
CanBuild b (expando id ∷ items) =
    (b.lists id ≡ true) × CanBuild (record b { lists = set_remove b.lists id }) items

pub record IsWellFormed (rule : Rule) : Type 0 where
  pub can_find : CanFind unbound rule.find
  pub can_build : CanBuild (bound_by unbound rule.find) rule.replace

-- The maps of a match hold exactly the bound ids.
record Agrees (b : Bound) (m : Matches) : Type 0 where
  words_agree : (i : ℕ) → contains_key m.var_matches i ≡ b.words i
  lists_agree : (i : ℕ) → contains_key m.expando_matches i ≡ b.lists i

abbrev AgreesIf : Bound → Option Matches → Type 0
AgreesIf b none = Unit
AgreesIf b (some m) = Agrees b m

advance-Agrees : (b : Bound) (m : Matches) (ws : List Bytes) → Agrees b m → Agrees b (advance m ws)
advance-Agrees b m [] a = record { words_agree = a.words_agree; lists_agree = a.lists_agree }
advance-Agrees b m (w ∷ ws) a = record { words_agree = a.words_agree; lists_agree = a.lists_agree }

insert_word-Agrees :
    (b : Bound) (m : Matches) (id : ℕ) (w : Bytes)
    → Agrees b m
    → Agrees
        (record b { words = set_insert b.words id })
        (record m { var_matches = insert m.var_matches id w })
insert_word-Agrees b m id w a = record {
  words_agree = λ i. rw (contains_key-insert m.var_matches id w i, a.words_agree i) refl;
  lists_agree = a.lists_agree;
}

bind_variable-Agrees :
    (b : Bound) (m : Matches) (id : ℕ) (next : Option Bytes)
    → Agrees b m
    → AgreesIf (record b { words = set_insert b.words id }) (bind_variable m id next)
unfolding bind_variable
bind_variable-Agrees b m id none a = tt
bind_variable-Agrees b m id (some w) a =
    advance-Agrees (record b { words = set_insert b.words id })
      (record m { var_matches = insert m.var_matches id w }) m.it (insert_word-Agrees b m id w a)

match_item-Agrees :
    (item : Item) (items : List Item) (b : Bound) (m : Matches)
    → CanFind b (item ∷ items)
    → Agrees b m
    → Returns (AgreesIf (bound_by b (item ∷ []))) (match_item m item)
unfolding match_item
match_item-Agrees (literal w) items b m c a = elim (Bool-cases (is_word m.next w)) [
  | inl e ↦ rw e (advance-Agrees b m m.it a)
  | inr e ↦ rw e tt
]
match_item-Agrees (variable id) items b m c a =
    rw (a.words_agree id)
      (rw (a.lists_agree id) (rw (c.0) (rw (c.1) (bind_variable-Agrees b m id m.next a))))
match_item-Agrees (expando id) items b m c a = rw (a.words_agree id) (
    rw (a.lists_agree id) (
      rw (c.0) (
        rw (c.1) (record {
          words_agree = a.words_agree;
          lists_agree =
              λ i. rw (contains_key-insert m.expando_matches id _ i, a.lists_agree i) refl;
        }))))

CanFind-tail :
    (item : Item) (items : List Item) (b : Bound)
    → CanFind b (item ∷ items)
    → CanFind (bound_by b (item ∷ [])) items
CanFind-tail (literal w) items b c = c
CanFind-tail (variable id) items b c = c.2
CanFind-tail (expando id) items b c = c.2

bound_by-cons :
    (item : Item) (items : List Item) (b : Bound)
    → bound_by (bound_by b (item ∷ [])) items ≡ bound_by b (item ∷ items)
bound_by-cons (literal w) items b = refl
bound_by-cons (variable id) items b = refl
bound_by-cons (expando id) items b = refl

match_items-Agrees :
    (items : List Item) (b : Bound) (m : Matches)
    → CanFind b items
    → Agrees b m
    → Returns (AgreesIf (bound_by b items)) (match_items items m)
unfolding match_items match_next
match_items-Agrees [] b m c a = a
match_items-Agrees (item ∷ items) b m c a = rw (← bound_by-cons item items b) (
    Returns-bind (AgreesIf (bound_by b (item ∷ [])))
      (AgreesIf (bound_by (bound_by b (item ∷ [])) items)) (match_item m item) _
      (match_item-Agrees item items b m c a)
      (go (match_items-Agrees items (bound_by b (item ∷ []))) (CanFind-tail item items b c)))
  where
    go :
        ((m' : Matches)
          → CanFind (bound_by b (item ∷ [])) items
          → Agrees (bound_by b (item ∷ [])) m'
          → Returns (AgreesIf (bound_by (bound_by b (item ∷ [])) items)) (match_items items m'))
        → CanFind (bound_by b (item ∷ [])) items
        → (found : Option Matches) → AgreesIf (bound_by b (item ∷ [])) found
        → Returns
            (AgreesIf (bound_by (bound_by b (item ∷ [])) items))
            (match_next found (match_items items))
    go ih c' none a' = tt
    go ih c' (some m') a' = ih m' c' a'

build-Returns :
    (items : List Item) (b : Bound) (m : Matches)
    → CanBuild b items
    → Agrees b m
    → Returns (λ ws. Unit) (build items m)
unfolding build build_item
build-Returns [] b m c a = tt
build-Returns (literal w ∷ items) b m c a =
    Returns-bind (λ ws. Unit) (λ ws. Unit) (build items m) _ (build-Returns items b m c a)
      (λ ws t. tt)
build-Returns (variable id ∷ items) b m c a = elim (Option-cases (m.var_matches id)) [
  | inl e ↦ absurd (ground (arith, a.words_agree id))
  | inr (w, e) ↦ rw e (
      Returns-bind (λ ws. Unit) (λ ws. Unit)
        (build items (record m { var_matches = remove m.var_matches id })) _
        (build-Returns items (record b { words = set_remove b.words id })
          (record m { var_matches = remove m.var_matches id }) c.1
          (record {
            words_agree = λ i. rw (contains_key-remove m.var_matches id i, a.words_agree i) refl;
            lists_agree = a.lists_agree;
          }))
        (λ ws t. tt))
]
build-Returns (expando id ∷ items) b m c a = elim (Option-cases (m.expando_matches id)) [
  | inl e ↦ absurd (ground (arith, a.lists_agree id))
  | inr (w, e) ↦ rw e (
      Returns-bind (λ ws. Unit) (λ ws. Unit)
        (build items (record m { expando_matches = remove m.expando_matches id })) _
        (build-Returns items (record b { lists = set_remove b.lists id })
          (record m { expando_matches = remove m.expando_matches id }) c.1
          (record {
            words_agree = a.words_agree;
            lists_agree =
                λ i. rw (contains_key-remove m.expando_matches id i, a.lists_agree i) refl;
          }))
        (λ ws t. tt))
]

begin-Agrees : (cmd : List Bytes) → Agrees unbound (begin cmd)
begin-Agrees cmd =
    advance-Agrees unbound
      (record { var_matches = empty; expando_matches = empty; next = none; it = [] }) cmd
      (record { words_agree = λ i. refl; lists_agree = λ i. refl })

apply_rule-Returns :
    (rule : Rule) (found : Option Matches) (others : Outcome (List Bytes))
    → IsWellFormed rule
    → AgreesIf (bound_by unbound rule.find) found
    → Returns (λ ws. Unit) others
    → Returns (λ ws. Unit) (apply_rule rule found others)
unfolding apply_rule
apply_rule-Returns rule none others w a o = o
apply_rule-Returns rule (some m) others w a o =
    build-Returns rule.replace (bound_by unbound rule.find) m w.can_build a

expand_rules-Returns :
    (rules : List Rule) (cmd : List Bytes)
    → All IsWellFormed rules
    → Returns (λ ws. Unit) (expand_rules rules cmd)
unfolding expand_rules
expand_rules-Returns [] cmd h = tt
expand_rules-Returns (rule ∷ rules) cmd h =
    Returns-bind (AgreesIf (bound_by unbound rule.find)) (λ ws. Unit)
      (match_items rule.find (begin cmd)) _
      (match_items-Agrees rule.find unbound (begin cmd) h.0.can_find (begin-Agrees cmd))
      λ found a.
        apply_rule-Returns rule found (expand_rules rules cmd) h.0 a
          (expand_rules-Returns rules cmd h.1)

-- With well-formed aliases only, `expand` returns words for every command: its assertions and its
-- `unwrap` calls never panic.
pub expand-Returns :
    (prefs : Prefs) (cmd : List Bytes)
    → All IsWellFormed prefs.aliases
    → Returns (λ ws. Unit) (expand prefs cmd)
unfolding expand
expand-Returns prefs cmd h = expand_rules-Returns prefs.aliases cmd h
