-- ===== src/Frontend/Prompt.antt =====
-- frontend/src/main.rs, `one_loop`, in front of `get_command`: the working directories that have
-- come in are stored, and the prompt is put together.
pub mod Stored
use nak.Base.{
  ◌≡◌, ap, ℕ, zero, suc, ◌+◌, ◌/◌, ◌%◌, ltb, leb, ◌==◌, ◌&&◌, ◌||◌, Bool, true, false,
  if◌then◌else◌, List, [], ◌∷◌, ◌++◌, length, Option, none, some, Bytes, codes, Outcome, ok, panic,
  assert, unwrap, ◌>>=◌, ◌>>◌, remove,
}
use nak.Protocol.{RemoteId, RemoteInfo, GenericPipe}
use nak.Frontend.{StackedRemotes, last_entry}

-- `lo <= b && b <= hi`
abbrev within : ℕ → ℕ → ℕ → Bool
within lo hi b = leb lo b && leb b hi

-- `opens`, on a byte that is not ASCII
abbrev opens_wide : ℕ → Option (ℕ × ℕ × ℕ)
opens_wide a =
    if within 0xc2 0xdf a
    then some (1, 0x80, 0xbf)
    else if a == 0xe0
    then some (2, 0xa0, 0xbf)
    else if a == 0xed
    then some (2, 0x80, 0x9f)
    else if within 0xe1 0xef a
    then some (2, 0x80, 0xbf)
    else if a == 0xf0
    then some (3, 0x90, 0xbf)
    else if within 0xf1 0xf3 a
    then some (3, 0x80, 0xbf)
    else if a == 0xf4
    then some (3, 0x80, 0x8f)
    else none

-- What a sequence of UTF-8 that begins with this byte wants: so many bytes more, the next one of them
-- between two bounds. `none`: no sequence begins with it.
abbrev opens : ℕ → Option (ℕ × ℕ × ℕ)
opens a = if leb a 0x7f then some (0, 0x80, 0xbf) else opens_wide a

-- Within a sequence that wants `n` bytes more.
is_utf8_from : ℕ → ℕ → ℕ → Bytes → Bool
is_utf8_from zero lo hi [] = true
is_utf8_from (suc n) lo hi [] = false
is_utf8_from (suc n) lo hi (b ∷ bs) = within lo hi b && is_utf8_from n 0x80 0xbf bs
is_utf8_from zero lo hi (a ∷ bs) = elim (opens a) [
  | some (n, lo', hi') ↦ is_utf8_from n lo' hi' bs
  | none ↦ false
]

-- `String::from_utf8(..).is_ok()`
unfoldable pub is_utf8 : Bytes → Bool
unfolding is_utf8_from
is_utf8 bytes = is_utf8_from 0 0x80 0xbf bytes

-- `Vec::pop`: the last byte, and what is in front of it
unfoldable pub pop : Bytes → Option ℕ × Bytes
pop [] = (none, [])
pop (b ∷ []) = (some b, [])
pop (b ∷ c ∷ cs) = let (last, front) = pop (c ∷ cs) in (last, b ∷ front)

-- `Some(b'\n')`
abbrev pub is_newline : Option ℕ → Bool
is_newline (some c) = c == 10
is_newline none = false

-- The loop over the remotes, with what is left of the output: each remote of that id pops a byte off
-- it, and the first that finds a line end takes the rest.
unfoldable pub store_directory :
    RemoteId → Bytes → List (RemoteId × RemoteInfo) → Outcome (List (RemoteId × RemoteInfo))
store_directory remote result [] = ok []
store_directory remote result ((id, rem) ∷ others) = elim (id == remote) [
  | false ↦ do others' ← store_directory remote result others; ok ((id, rem) ∷ others')
  | true ↦
      let (last, text) = pop result in
      elim (is_newline last) [
        | false ↦ do others' ← store_directory remote text others; ok ((id, rem) ∷ others')
        | true ↦ do assert (is_utf8 text); ok ((id, record rem { working_dir = text }) ∷ others)
      ]
]

-- one round of the loop over `cwd_for_remote`
unfoldable pub read_directory : StackedRemotes → RemoteId → GenericPipe → Outcome StackedRemotes
read_directory h remote stream_id = do
  result ← unwrap (h.finished_output stream_id)
  remotes' ← store_directory remote result h.remotes
  ok (record h { finished_output = remove h.finished_output stream_id; remotes = remotes' })

-- `drain` hands the entries over in the order of the list, and leaves none.
unfoldable pub read_directories :
    List (RemoteId × GenericPipe) → StackedRemotes → Outcome StackedRemotes
read_directories [] h = ok (record h { cwd_for_remote = [] })
read_directories ((remote, stream_id) ∷ entries) h = do
  h' ← read_directory h remote stream_id
  read_directories entries h'

-- A number in decimal: `n + 1` digits are enough for the number `n`.
unfoldable pub digits : ℕ → ℕ → Bytes
digits zero n = []
digits (suc fuel) n =
    let front = digits fuel (n / 10) in
    if ltb n 10 then (b'0' + n) ∷ [] else front ++ (b'0' + n % 10) ∷ []

unfoldable pub decimal : ℕ → Bytes
decimal n = digits (suc n) n

unfoldable pub prompt : StackedRemotes → Outcome Bytes
prompt h = do
  (id, top) ← last_entry h.remotes
  ok (
      codes "["
      ++ (decimal (length h.remotes)
          ++ (codes ":" ++ (top.hostname ++ (codes "] " ++ (top.working_dir ++ codes "$ "))))))
