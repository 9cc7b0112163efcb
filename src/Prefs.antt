-- ===== src/Prefs.antt =====
-- frontend/src/prefs.rs: aliases, and the expansion of a command by the first alias that matches.
-- The iterator over the command and the word taken from it are two parts of the state.
pub mod Safe
pub mod Prefix
use nak.Base.{
  ℕ, if◌then◌else◌, Bool, true, false, not, ◌&&◌, List, [], ◌∷◌, ◌++◌, Option, none, some, Bytes,
  bytes_eq, codes, Outcome, ok, fault, failed, io, assert, unwrap, ◌>>=◌, ◌>>◌, Map, empty, insert,
  remove, contains_key,
}

pub data Item : Type 0 where
  literal : Bytes → Item
  variable : ℕ → Item
  expando : ℕ → Item

pub record Rule : Type 0 where
  pub find : List Item
  pub replace : List Item

pub record Prefs : Type 0 where
  pub aliases : List Rule

-- what opening a file, and reading it as text, comes to
pub data Opened : Type 0 where
  text : Bytes → Opened
  unread not_found denied : Opened

-- `Prefs::load`; the home directory, the file of that path, part by part, and `serde_json::from_str`
-- are parameters
unfoldable pub load : Option Bytes → (List Bytes → Opened) → (Bytes → Option Prefs) → Outcome Prefs
load home_dir open_file from_str = do
  home ← unwrap home_dir
  elim (open_file (home ∷ codes ".config" ∷ codes "nak" ∷ codes "prefs.nak" ∷ [])) [
    | text contents ↦ elim (from_str contents) [ some prefs ↦ ok prefs | none ↦ fault (failed io) ]
    | unread ↦ fault (failed io)
    | not_found ↦ ok (record { aliases = [] })
    | denied ↦ fault (failed io)
  ]

pub record Matches : Type 0 where
  pub var_matches : Map Bytes
  pub expando_matches : Map (List Bytes)
  pub next : Option Bytes
  pub it : List Bytes

-- `next = it.next()`
abbrev pub advance : Matches → List Bytes → Matches
advance m [] = record m { next = none; it = [] }
advance m (w ∷ ws) = record m { next = some w; it = ws }

abbrev pub is_word : Option Bytes → Bytes → Bool
is_word (some w) word = bytes_eq w word
is_word none word = false

abbrev is_free : Matches → ℕ → Bool
is_free m id = not (contains_key m.var_matches id) && not (contains_key m.expando_matches id)

abbrev pub gathered : Option Bytes → List Bytes → List Bytes
gathered (some w) ws = w ∷ ws
gathered none ws = []

-- the `Variable` arm, on the word under the iterator
unfoldable pub bind_variable : Matches → ℕ → Option Bytes → Option Matches
bind_variable m id none = none
bind_variable m id (some w) =
    some (advance (record m { var_matches = insert m.var_matches id w }) m.it)

-- An item of `find` against the command: `none` is `continue 'outer`. An `Expando` drains the
-- iterator and leaves `next` as it was.
unfoldable pub match_item : Matches → Item → Outcome (Option Matches)
match_item m (literal word) = ok (if is_word m.next word then some (advance m m.it) else none)
match_item m (variable id) = do assert (is_free m id); ok (bind_variable m id m.next)
match_item m (expando id) = do
  assert (is_free m id)
  ok (
      some (record m {
        expando_matches = insert m.expando_matches id (gathered m.next m.it);
        it = elim m.next [ some w ↦ [] | none ↦ m.it ];
      }))

-- The items one by one: the second argument is the rest of the loop.
unfoldable pub match_next :
    Option Matches → (Matches → Outcome (Option Matches)) → Outcome (Option Matches)
match_next none rest = ok none
match_next (some m) rest = rest m

unfoldable pub match_items : List Item → Matches → Outcome (Option Matches)
match_items [] m = ok (some m)
match_items (item ∷ items) m = do found ← match_item m item; match_next found (match_items items)

unfoldable pub build_item : Matches → Item → Outcome (List Bytes × Matches)
build_item m (literal word) = ok (word ∷ [], m)
build_item m (variable id) = do
  w ← unwrap (m.var_matches id)
  ok (w ∷ [], record m { var_matches = remove m.var_matches id })
build_item m (expando id) = do
  ws ← unwrap (m.expando_matches id)
  ok (ws, record m { expando_matches = remove m.expando_matches id })

unfoldable pub build : List Item → Matches → Outcome (List Bytes)
build [] m = ok []
build (item ∷ items) m = do (ws, m') ← build_item m item; rest ← build items m'; ok (ws ++ rest)

abbrev pub begin : List Bytes → Matches
begin cmd =
    advance (record { var_matches = empty; expando_matches = empty; next = none; it = [] }) cmd

-- the body of the loop over the rules behind a match; the second argument is the rest of that loop
unfoldable pub apply_rule : Rule → Option Matches → Outcome (List Bytes) → Outcome (List Bytes)
apply_rule rule none others = others
apply_rule rule (some m) others = build rule.replace m

unfoldable pub expand_rules : List Rule → List Bytes → Outcome (List Bytes)
expand_rules [] cmd = ok cmd
expand_rules (rule ∷ rules) cmd =
    let others = expand_rules rules cmd in
    match_items rule.find (begin cmd) >>= λ found. apply_rule rule found others

-- `Prefs::expand`
unfoldable pub expand : Prefs → List Bytes → Outcome (List Bytes)
expand prefs cmd = expand_rules prefs.aliases cmd
