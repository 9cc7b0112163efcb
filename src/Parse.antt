-- ===== src/Parse.antt =====
-- frontend/src/parse.rs: the syntax tree of a command line and its parser over bytes. The cursor is
-- passed along; each `while` and `loop` runs on fuel, one round more than the text has bytes. A
-- vector that a loop pushes onto is the list of what its rounds produce, in order.
pub mod Shape
pub mod Words
pub mod Pipes
pub mod Total
pub mod Rest
pub mod RoundTrip
use nak.Base.{
  ℕ, zero, suc, ◌+◌, ◌-◌, ◌==◌, if◌then◌else◌, Bool, true, false, ◌||◌, List, [], ◌∷◌, Option, none,
  some, length, get_elem?, take, drop, Bytes, Outcome, ok, fault, out_of_fuel, panic, assert, ◌>>=◌,
  ◌>>◌,
}

pub data Stream : Type 0 where
  stdout stderr : Stream

pub data Word : Type 0 where
  normal : Bytes → Word

unfoldable pub expand_string : Word → Bytes
expand_string (normal s) = s

pub data SequenceType : Type 0 where
  wait also otherwise : SequenceType

pub record Cmd : Type 0 where
  pub remote : Option Bytes
  pub words : List Word

-- The vectors of clauses stand in the block as lists of their own.
mutual
  pub data Ast : Type 0 where
    blank : Ast
    cmd : Cmd → Ast
    sequence : Ast → SequenceClauses → Ast
    redirect : Ast → RedirectClauses → Ast

  pub data Target : Type 0 where
    file : Word → Target
    command : Ast → Target

  pub data SequenceClauses : Type 0 where
    no_more : SequenceClauses
    then_run : SequenceType → Ast → SequenceClauses → SequenceClauses

  pub data RedirectClauses : Type 0 where
    done : RedirectClauses
    send : Stream → Target → RedirectClauses → RedirectClauses

pub record Consume : Type 0 where
  pub text : Bytes
  pub pos : ℕ

-- `Consume::cur`
abbrev pub cur : Consume → Option ℕ
cur s = get_elem? s.text s.pos

abbrev pub bump : Consume → Consume
bump s = record s { pos = s.pos + 1 }

-- `Consume::next`
abbrev pub next : Consume → Option ℕ × Consume
next s = elim (cur s) [ some c ↦ (some c, bump s) | none ↦ (none, s) ]

-- `chars[begin..end]`
abbrev pub slice : Bytes → ℕ → ℕ → Bytes
slice text begin end = take (end - begin) (drop begin text)

abbrev pub rounds : Consume → ℕ
rounds s = suc (length s.text)

abbrev pub is_byte : ℕ → Option ℕ → Bool
is_byte b (some c) = c == b
is_byte b none = false

unfoldable pub skip_loop : ℕ → Consume → Outcome Consume
skip_loop zero s = fault out_of_fuel
skip_loop (suc fuel) s = elim (is_byte b' ' (cur s)) [
  | true ↦ skip_loop fuel (bump s)
  | false ↦ ok s
]

unfoldable pub skip_whitespace : Consume → Outcome Consume
skip_whitespace s = skip_loop (rounds s) s

unfoldable pub quote_loop : ℕ → Consume → Outcome Consume
quote_loop zero s = fault out_of_fuel
quote_loop (suc fuel) s = elim (cur s) [
  | none ↦ panic
  | some c ↦ elim (c == b'"') [ true ↦ ok (bump s) | false ↦ quote_loop fuel (bump s) ]
]

unfoldable pub parse_quote : Consume → Outcome (Word × Consume)
parse_quote s = do
  let (c, inside) = next s
  assert (is_byte b'"' c)
  end ← quote_loop (rounds inside) inside
  ok (normal (slice s.text inside.pos (end.pos - 1)), end)

-- `b' ' | b';' | b'|' | b'>'`
abbrev pub ends_word : ℕ → Bool
ends_word c = c == b' ' || (c == b';' || (c == b'|' || c == b'>'))

unfoldable pub word_loop : ℕ → Consume → Outcome Consume
word_loop zero s = fault out_of_fuel
word_loop (suc fuel) s = elim (cur s) [
  | none ↦ ok s
  | some c ↦ elim (c == b'"') [
    | true ↦ panic
    | false ↦ elim (ends_word c) [ true ↦ ok s | false ↦ word_loop fuel (bump s) ]
  ]
]

-- the rest of `parse_word`, where no quote opens
unfoldable pub parse_bare : Consume → Outcome (Word × Consume)
parse_bare s = do end ← word_loop (rounds s) s; ok (normal (slice s.text s.pos end.pos), end)

unfoldable pub parse_word : Consume → Outcome (Word × Consume)
parse_word s = elim (is_byte b'"' (cur s)) [ true ↦ parse_quote s | false ↦ parse_bare s ]

-- `None | Some(b';') | Some(b'|') | Some(b'>')`
abbrev pub ends_cmd : Option ℕ → Bool
ends_cmd none = true
ends_cmd (some c) = c == b';' || (c == b'|' || c == b'>')

unfoldable pub cmd_loop : ℕ → Consume → Outcome (List Word × Consume)
cmd_loop zero s = fault out_of_fuel
cmd_loop (suc fuel) s = do
  s' ← skip_whitespace s
  elim (ends_cmd (cur s')) [
    | true ↦ ok ([], s')
    | false ↦ do (w, after) ← parse_word s'; (ws, end) ← cmd_loop fuel after; ok (w ∷ ws, end)
  ]

unfoldable pub parse_cmd : Consume → Outcome (Cmd × Consume)
parse_cmd s = do
  (w, after) ← parse_word s
  (ws, end) ← cmd_loop (rounds after) after
  ok (record { remote = none; words = w ∷ ws }, end)

-- the arm of `|`
unfoldable pub parse_piped : Consume → Outcome (Target × Consume)
parse_piped s = do
  s' ← skip_whitespace (next s).1
  (c, end) ← parse_cmd s'
  ok (command (cmd c), end)

-- the arm of `>`
unfoldable pub parse_output : Consume → Outcome (Target × Consume)
parse_output s = do s' ← skip_whitespace (next s).1; (w, end) ← parse_word s'; ok (file w, end)

-- What `parse_pipe` does at the byte under the cursor: `none` ends its loop.
unfoldable pub parse_clause : Consume → Outcome (Option (Target × Consume))
parse_clause s = elim (cur s) [
  | none ↦ ok none
  | some c ↦
      if c == b'|'
      then (do t ← parse_piped s; ok (some t))
      else if c == b'>'
      then (do t ← parse_output s; ok (some t))
      else if c == b';'
      then ok none
      else panic
]

-- The rest of a round of `parse_pipe`: the clause is pushed and the loop runs on, or it breaks.
unfoldable pub pipe_continue :
    (Consume → Outcome (RedirectClauses × Consume))
    → Consume
    → Option (Target × Consume)
    → Outcome (RedirectClauses × Consume)
pipe_continue again s none = ok (done, s)
pipe_continue again s (some (t, after)) = do (ts, end) ← again after; ok (send stdout t ts, end)

unfoldable pub pipe_loop : ℕ → Consume → Outcome (RedirectClauses × Consume)
pipe_loop zero s = fault out_of_fuel
pipe_loop (suc fuel) s = do
  s' ← skip_whitespace s
  found ← parse_clause s'
  pipe_continue (pipe_loop fuel) s' found

-- `if children.len() == 0 { head } else { Redirect(head, children) }`
abbrev pub pipeline : Ast → RedirectClauses → Ast
pipeline head done = head
pipeline head (send s t ts) = redirect head (send s t ts)

unfoldable pub parse_pipe : Consume → Outcome (Ast × Consume)
parse_pipe s = do
  (c, after) ← parse_cmd s
  (ts, end) ← pipe_loop (rounds after) after
  ok (pipeline (cmd c) ts, end)

-- the arm of `;`
unfoldable pub parse_next : Consume → Outcome (Ast × Consume)
parse_next s = do s' ← skip_whitespace (next s).1; parse_pipe s'

unfoldable pub seq_loop : ℕ → Consume → Outcome (SequenceClauses × Consume)
seq_loop zero s = fault out_of_fuel
seq_loop (suc fuel) s = do
  s' ← skip_whitespace s
  elim (cur s') [
    | none ↦ ok (no_more, s')
    | some c ↦ elim (c == b';') [
      | false ↦ panic
      | true ↦ do
        (a, after) ← parse_next s'
        (rest, end) ← seq_loop fuel after
        ok (then_run wait a rest, end)
    ]
  ]

-- `if children.len() == 0 { head } else { Sequence(head, children) }`
abbrev pub in_sequence : Ast → SequenceClauses → Ast
in_sequence head no_more = head
in_sequence head (then_run ty a rest) = sequence head (then_run ty a rest)

unfoldable pub parse_seq : Consume → Outcome (Ast × Consume)
parse_seq s = do
  (a, after) ← parse_pipe s
  (rest, end) ← seq_loop (rounds after) after
  ok (in_sequence a rest, end)

unfoldable pub parse_line : Consume → Outcome Ast
parse_line s = do
  s' ← skip_whitespace s
  elim (cur s') [
    | none ↦ ok blank
    | some c ↦ do (a, end) ← parse_seq s'; assert (end.pos == length end.text); ok a
  ]

unfoldable pub parse_input : Bytes → Outcome Ast
parse_input input = parse_line (record { text = input; pos = 0 })
