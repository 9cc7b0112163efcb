-- ===== src/Frontend/Prompt/Stored.antt =====
-- The working directory of a remote, once its output has come in.
use nak.Base.{
  ℕ, ◌≡◌, refl, ap, ◌∙◌, true, false, List, [], ◌∷◌, ◌++◌, Option, some, Bytes, Outcome, ok, ◌>>=◌,
  ◌>>◌, assert, remove, ==_refl,
}
use nak.Protocol.{RemoteId, RemoteInfo, GenericPipe}
use nak.Frontend.{StackedRemotes}
use nak.Frontend.Prompt.{
  is_utf8, pop, is_newline, store_directory, read_directory, read_directories,
}

pop-append : (dir : Bytes) (c : ℕ) → pop (dir ++ c ∷ []) ≡ (some c, dir)
unfolding pop
pop-append [] c = refl
pop-append (a ∷ []) c = refl
pop-append (a ∷ b ∷ dir) c = rw (pop-append (b ∷ dir) c, pop) refl

store_directory-newline :
    (id : RemoteId) (info : RemoteInfo) (dir : Bytes) (others : List (RemoteId × RemoteInfo))
    → is_utf8 dir ≡ true
    → store_directory id (dir ++ 10 ∷ []) ((id, info) ∷ others)
      ≡ ok ((id, record info { working_dir = dir }) ∷ others)
unfolding store_directory
store_directory-newline id info dir others u =
    let found : Option ℕ × Bytes → Outcome (List (RemoteId × RemoteInfo)) = λ (last, text).
      elim (is_newline last) [
        | false ↦ do others' ← store_directory id text others; ok ((id, info) ∷ others')
        | true ↦ do assert (is_utf8 text); ok ((id, record info { working_dir = text }) ∷ others)
      ] in
    rw (==_refl id, store_directory) (ap found (pop-append dir 10) ∙ rw u refl)

-- The output `dir` and a line end, where a remote with one entry asked for it: `dir` is its working
-- directory, nothing else of it changes, and there is nothing left to read.
pub read_directories_one :
    (h : StackedRemotes) (id : RemoteId) (info : RemoteInfo) (p : GenericPipe) (dir : Bytes)
    → h.remotes ≡ (id, info) ∷ []
    → h.finished_output p ≡ some (dir ++ 10 ∷ [])
    → is_utf8 dir ≡ true
    → read_directories ((id, p) ∷ []) h
      ≡ ok (record h {
        remotes = (id, record info { working_dir = dir }) ∷ [];
        finished_output = remove h.finished_output p;
        cwd_for_remote = [];
      })
unfolding read_directories read_directory
read_directories_one h id info p dir r f u =
    rw (f, read_directories, read_directory) rw r rw (store_directory-newline id info dir [] u) refl
