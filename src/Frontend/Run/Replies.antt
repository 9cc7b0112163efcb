-- ===== src/Frontend/Run/Replies.antt =====
-- What a backend answers while the frontend waits for a command: in any order, the end of each job,
-- the output of the directory's pipe in pieces and its end, and the output of pipes that are shown,
-- on stdout or stderr.
use nak.Base.{
  ℕ, ◌==◌, ◌≡◌, refl, ap, ◌∙◌, Bool, true, false, not, ◌||◌, List, [], ◌∷◌, ◌++◌, length, none,
  some, Bytes, Outcome, ok, ◌>>=◌, NumSet, contains, remove_all, insert, remove, eq_or_ne, ==_refl,
  inl, inr, Bool-cases, if◌then◌else◌,
}
use nak.Protocol.{
  ProcessId, GenericPipe, Response, RemoteResponse, command_done, PipeMessage, payload, closed,
}
use nak.Protocol.Endpoint.{Endpoint, receive}
use nak.Frontend.{
  StackedRemotes, write_own-accepts, receive_bytes, receive_end, receive_message, receive_done,
  stacked_remotes,
}

abbrev pub on_pipe : ℕ → GenericPipe → PipeMessage → Response
on_pipe remote p msg = record {
  remote_id = remote;
  message = RemoteResponse.pipe (record { id = p; msg = msg });
}

abbrev pub on_job : ℕ → ProcessId → ℕ → Response
on_job remote id exit_code = record { remote_id = remote; message = command_done id exit_code }

-- something is waited for: jobs, or the end of the directory's pipe
abbrev pub is_waiting : List ProcessId → Bool → Bool
is_waiting w is_open = is_open || not (length w == 0)

-- The responses to the jobs `w`, and to the pipe `p`, if that is open, of which `out` is to come.
pub data Replies (p : GenericPipe) (shown : NumSet)
    : List ProcessId → Bool → Bytes → List Response → Type 0 where
  none_left : Replies p shown [] false [] []
  job_ends :
      {w : List ProcessId} {is_open : Bool} {out : Bytes} {rs : List Response}
      (remote id exit_code : ℕ)
      → contains w id ≡ true
      → Replies p shown (remove_all w id) is_open out rs
      → Replies p shown w is_open out (on_job remote id exit_code ∷ rs)
  more_output :
      {w : List ProcessId} {all out : Bytes} {rs : List Response} (remote end : ℕ) (bytes : Bytes)
      → all ≡ bytes ++ out
      → Replies p shown w true out rs
      → Replies p shown w true all (on_pipe remote p (payload bytes end) ∷ rs)
  output_ends :
      {w : List ProcessId} {rs : List Response} (remote end : ℕ)
      → Replies p shown w false [] rs
      → Replies p shown w true [] (on_pipe remote p (closed end) ∷ rs)
  shown_output :
      {w : List ProcessId} {is_open : Bool} {out : Bytes} {rs : List Response} (remote q end : ℕ)
      (bytes : Bytes)
      → is_waiting w is_open ≡ true
      → shown q ≡ true
      → Replies p shown w is_open out rs
      → Replies p shown w is_open out (on_pipe remote q (payload bytes end) ∷ rs)
  shown_ends :
      {w : List ProcessId} {is_open : Bool} {out : Bytes} {rs : List Response} (remote q end : ℕ)
      → is_waiting w is_open ≡ true
      → shown q ≡ true
      → Replies p shown w is_open out rs
      → Replies p shown w is_open out (on_pipe remote q (closed end) ∷ rs)

-- what has come in of the pipe
abbrev pub Gathered : GenericPipe → Bytes → Bool → StackedRemotes → Type 0
Gathered p so_far true h = h.gathering_output p ≡ some so_far
Gathered p so_far false h = h.finished_output p ≡ some so_far

abbrev pub open_pipes : GenericPipe → Bool → List GenericPipe
open_pipes p true = p ∷ []
open_pipes p false = []

-- The frontend waits for the jobs `w`, and for the end of `p` if that is open.
pub record Waits {T : Type 0} (p : GenericPipe) (shown : NumSet) (so_far : Bytes)
    (w : List ProcessId) (is_open : Bool) (e : Endpoint T StackedRemotes) : Type 0 where
  pub no_remote : e.handler.waiting_for_remote ≡ none
  pub jobs : e.handler.waiting_for ≡ w
  pub eofs : e.handler.waiting_for_eof ≡ open_pipes p is_open
  pub gathered : Gathered p so_far is_open e.handler
  pub known : e.pipes p ≡ true
  pub hidden : shown p ≡ false
  pub shown_known : (q : ℕ) → shown q ≡ true → e.pipes q ≡ true
  pub shown_free : (q : ℕ) → shown q ≡ true → e.handler.gathering_output q ≡ none
  pub shown_out :
      (q : ℕ) → shown q ≡ true → (e.handler.stdout_pipes q || e.handler.stderr_pipes q) ≡ true
  pub accepting : e.handler.accepts ≡ []

-- the two endpoints have the same remotes and the same directories to read
abbrev pub SameRemotes :
    {T : Type 0} → Endpoint T StackedRemotes → Endpoint T StackedRemotes → Type 0
SameRemotes e e' =
    (e'.handler.remotes ≡ e.handler.remotes)
    × (e'.handler.cwd_for_remote ≡ e.handler.cwd_for_remote)

receive_bytes-gathering :
    (h : StackedRemotes) (p : GenericPipe) (bytes so_far : Bytes) (end : ℕ)
    → h.gathering_output p ≡ some so_far
    → receive_message h p (payload bytes end)
      ≡ ok (record h { gathering_output = insert h.gathering_output p (so_far ++ bytes) })
unfolding receive_message receive_bytes
receive_bytes-gathering h p bytes so_far end g = rw (g, receive_bytes) refl

-- what is shown goes to stdout, or else to stderr
abbrev after_show : StackedRemotes → Bool → Bytes → StackedRemotes
after_show h to_stdout bytes = record h {
  stdout = if to_stdout then h.stdout ++ bytes else h.stdout;
  stderr = if to_stdout then h.stderr else h.stderr ++ bytes;
}

receive_bytes-shown :
    (h : StackedRemotes) (q : GenericPipe) (bytes : Bytes) (end : ℕ)
    → h.gathering_output q ≡ none
    → (h.stdout_pipes q || h.stderr_pipes q) ≡ true
    → h.accepts ≡ []
    → receive_message h q (payload bytes end) ≡ ok (after_show h (h.stdout_pipes q) bytes)
unfolding receive_message receive_bytes
receive_bytes-shown h q bytes end g s a = elim (Bool-cases (h.stdout_pipes q)) [
  | inl y ↦ rw (g, receive_bytes) rw y rw (write_own-accepts h a) refl
  | inr n ↦ rw (g, receive_bytes) rw n rw (rw n at s) rw (write_own-accepts h a) refl
]

receive_end-gathering :
    (h : StackedRemotes) (p : GenericPipe) (end : ℕ) (so_far : Bytes)
    → h.gathering_output p ≡ some so_far
    → receive_message h p (closed end)
      ≡ ok (record h {
        waiting_for_eof = remove_all h.waiting_for_eof p;
        gathering_output = remove h.gathering_output p;
        finished_output = insert h.finished_output p so_far;
      })
unfolding receive_message receive_end
receive_end-gathering h p end so_far g = rw (g, receive_end) refl

receive_end-shown :
    (h : StackedRemotes) (q : GenericPipe) (end : ℕ)
    → h.gathering_output q ≡ none
    → receive_message h q (closed end)
      ≡ ok (record h { waiting_for_eof = remove_all h.waiting_for_eof q })
unfolding receive_message receive_end
receive_end-shown h q end g = rw (g, receive_end) refl

shown-ne : (shown : NumSet) (p q : ℕ) → shown p ≡ false → shown q ≡ true → (p == q) ≡ false
shown-ne shown p q h k = elim (eq_or_ne p q) [ inl e ↦ absurd (cc) | inr e ↦ e ]

remove_all_one : (p q : ℕ) → (p == q) ≡ false → remove_all (p ∷ []) q ≡ p ∷ []
unfolding remove_all
remove_all_one p q h = rw h refl

remove_all_none : (q : ℕ) → remove_all [] q ≡ []
unfolding remove_all
remove_all_none q = refl

module _ {T : Type 0}
    (edit_file : Endpoint T StackedRemotes
      → ℕ
      → ProcessId
      → Bytes
      → Bytes
      → Outcome (Endpoint T StackedRemotes))
    (p : GenericPipe) (shown : NumSet) where
  -- one response: it is received, and the frontend waits for the rest
  abbrev pub Received :
      Bytes → List ProcessId → Bool → Endpoint T StackedRemotes → Response → Type 0
  Received so_far w is_open e r =
      (e' : Endpoint T StackedRemotes) × (receive (stacked_remotes edit_file) e r ≡ ok e')
      × Waits p shown so_far w is_open e'
      × SameRemotes e e'

  pub job_ends-Received :
      (e : Endpoint T StackedRemotes) (so_far : Bytes) (w : List ProcessId) (is_open : Bool)
      (remote id exit_code : ℕ)
      → Waits p shown so_far w is_open e
      → contains w id ≡ true
      → Received so_far (remove_all w id) is_open e (on_job remote id exit_code)
  unfolding receive stacked_remotes receive_done
  job_ends-Received e so_far w is_open remote id exit_code x c =
      let c' : contains e.handler.waiting_for id ≡ true = ap (λ v. contains v id) x.jobs ∙ c in
      (
        record e {
          handler = record (e.handler) { waiting_for = remove_all e.handler.waiting_for id };
        },
        rw c' refl,
        record {
          no_remote = x.no_remote;
          jobs = ap (λ v. remove_all v id) x.jobs;
          eofs = x.eofs;
          gathered = gathered_lem is_open x.gathered;
          known = x.known;
          hidden = x.hidden;
          shown_known = x.shown_known;
          shown_free = x.shown_free;
          shown_out = x.shown_out;
          accepting = x.accepting;
        },
        (refl, refl),
      )
    where
      gathered_lem :
          (o : Bool)
          → Gathered p so_far o e.handler
          → Gathered p so_far o
              (record (e.handler) { waiting_for = remove_all e.handler.waiting_for id })
      gathered_lem true h = h
      gathered_lem false h = h

  -- a message on a pipe that the endpoint knows
  receive_known :
      (e : Endpoint T StackedRemotes) (remote q : ℕ) (msg : PipeMessage) (h : StackedRemotes)
      → e.pipes q ≡ true
      → receive_message e.handler q msg ≡ ok h
      → receive (stacked_remotes edit_file) e (on_pipe remote q msg) ≡ ok (record e { handler = h })
  unfolding receive stacked_remotes
  receive_known e remote q msg h k m = rw k (ap (λ o. o >>= λ h'. ok (record e { handler = h' })) m)

  pub more_output-Received :
      (e : Endpoint T StackedRemotes) (so_far : Bytes) (w : List ProcessId) (remote end : ℕ)
      (bytes : Bytes)
      → Waits p shown so_far w true e
      → Received (so_far ++ bytes) w true e (on_pipe remote p (payload bytes end))
  more_output-Received e so_far w remote end bytes x =
      let m = insert e.handler.gathering_output p (so_far ++ bytes) in
      (
        record e { handler = record (e.handler) { gathering_output = m } },
        receive_known e remote p _ _ x.known
            (receive_bytes-gathering e.handler p bytes so_far end x.gathered),
        record {
          no_remote = x.no_remote;
          jobs = x.jobs;
          eofs = x.eofs;
          gathered = rw (==_refl p) refl;
          known = x.known;
          hidden = x.hidden;
          shown_known = x.shown_known;
          shown_free = λ q k. rw (shown-ne shown p q x.hidden k) (x.shown_free q k);
          shown_out = x.shown_out;
          accepting = x.accepting;
        },
        (refl, refl),
      )

  pub output_ends-Received :
      (e : Endpoint T StackedRemotes) (so_far : Bytes) (w : List ProcessId) (remote end : ℕ)
      → Waits p shown so_far w true e
      → Received so_far w false e (on_pipe remote p (closed end))
  unfolding remove_all
  output_ends-Received e so_far w remote end x = (
    record e {
      handler = record (e.handler) {
        waiting_for_eof = remove_all e.handler.waiting_for_eof p;
        gathering_output = remove e.handler.gathering_output p;
        finished_output = insert e.handler.finished_output p so_far;
      };
    },
    receive_known e remote p _ _ x.known (receive_end-gathering e.handler p end so_far x.gathered),
    record {
      no_remote = x.no_remote;
      jobs = x.jobs;
      eofs = ap (λ v. remove_all v p) x.eofs ∙ rw (==_refl p) refl;
      gathered = rw (==_refl p) refl;
      known = x.known;
      hidden = x.hidden;
      shown_known = x.shown_known;
      shown_free = λ q k. rw (shown-ne shown p q x.hidden k) (x.shown_free q k);
      shown_out = x.shown_out;
      accepting = x.accepting;
    },
    (refl, refl),
  )

  pub shown_output-Received :
      (e : Endpoint T StackedRemotes) (so_far : Bytes) (w : List ProcessId) (is_open : Bool)
      (remote q end : ℕ) (bytes : Bytes)
      → Waits p shown so_far w is_open e
      → shown q ≡ true
      → Received so_far w is_open e (on_pipe remote q (payload bytes end))
  shown_output-Received e so_far w is_open remote q end bytes x k = (
    record e { handler = after_show e.handler (e.handler.stdout_pipes q) bytes },
    receive_known e remote q _ _ (x.shown_known q k) (
        receive_bytes-shown e.handler q bytes end (x.shown_free q k) (x.shown_out q k) x.accepting),
    record {
      no_remote = x.no_remote;
      jobs = x.jobs;
      eofs = x.eofs;
      gathered = gathered_lem is_open x.gathered;
      known = x.known;
      hidden = x.hidden;
      shown_known = x.shown_known;
      shown_free = x.shown_free;
      shown_out = x.shown_out;
      accepting = x.accepting;
    },
    (refl, refl),
  )
    where
      gathered_lem :
          (o : Bool)
          → Gathered p so_far o e.handler
          → Gathered p so_far o (after_show e.handler (e.handler.stdout_pipes q) bytes)
      gathered_lem true h = h
      gathered_lem false h = h

  pub shown_ends-Received :
      (e : Endpoint T StackedRemotes) (so_far : Bytes) (w : List ProcessId) (is_open : Bool)
      (remote q end : ℕ)
      → Waits p shown so_far w is_open e
      → shown q ≡ true
      → Received so_far w is_open e (on_pipe remote q (closed end))
  shown_ends-Received e so_far w is_open remote q end x k = (
    record e {
      handler = record (e.handler) { waiting_for_eof = remove_all e.handler.waiting_for_eof q };
    },
    receive_known e remote q _ _ (x.shown_known q k)
        (receive_end-shown e.handler q end (x.shown_free q k)),
    record {
      no_remote = x.no_remote;
      jobs = x.jobs;
      eofs = ap (λ v. remove_all v q) x.eofs ∙ kept is_open;
      gathered = gathered_lem is_open x.gathered;
      known = x.known;
      hidden = x.hidden;
      shown_known = x.shown_known;
      shown_free = x.shown_free;
      shown_out = x.shown_out;
      accepting = x.accepting;
    },
    (refl, refl),
  )
    where
      kept : (o : Bool) → remove_all (open_pipes p o) q ≡ open_pipes p o
      kept true = remove_all_one p q (shown-ne shown p q x.hidden k)
      kept false = remove_all_none q

      gathered_lem :
          (o : Bool)
          → Gathered p so_far o e.handler
          → Gathered p so_far o
              (record (e.handler) { waiting_for_eof = remove_all e.handler.waiting_for_eof q })
      gathered_lem true h = h
      gathered_lem false h = h
