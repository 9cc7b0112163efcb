-- ===== src/Frontend/Run/Returns.antt =====
-- `remote_run` of frontend/src/main.rs, from a command to the next prompt.
use nak.Base.{
  ℕ, ◌==◌, ◌&&◌, ◌≡◌, refl, ap, ◌∙◌, Bool, true, false, not, List, [], ◌∷◌, ◌++◌, length, map, some,
  Bytes, codes, Outcome, ok, ◌>>=◌, NumSet, contains, remove_all, remove, fault, arith,
}
use nak.Plan.{Plan}
use nak.Protocol.{ProcessId, GenericPipe, RemoteId, RemoteInfo, Response}
use nak.Protocol.Endpoint.{Transport, Json, Endpoint, receive}
use nak.Frontend.{StackedRemotes, stacked_remotes, last_entry}
use nak.Frontend.Prompt.{is_utf8, read_directories, prompt, decimal, digits}
use nak.Frontend.Prompt.Stored.{read_directories_one}
use nak.Frontend.Loop.{Event, from_remote, receive_event, carry_plan}
use nak.Frontend.Run.{Reader, Exec, needs_command, take_command, take_event, leave, remote_run}
use nak.Frontend.Run.Rounds.{
  wake, serve, wake_and_serve, wake-waiting, wake-command, remote_run-wake_and_serve,
}
use nak.Frontend.Run.Replies.{
  Replies, none_left, job_ends, more_output, output_ends, shown_output, shown_ends, is_waiting,
  open_pipes, Waits, SameRemotes, Received, job_ends-Received, more_output-Received,
  output_ends-Received, shown_output-Received, shown_ends-Received,
}
use mathlib.Core.List.{append_assoc, append-nil}

waiting_lem :
    (p : GenericPipe) (w : List ProcessId) (is_open : Bool)
    → (length w == 0 && length (open_pipes p is_open) == 0) ≡ not (is_waiting w is_open)
waiting_lem p [] true = refl
waiting_lem p [] false = refl
waiting_lem p (x ∷ w) true = ground arith
waiting_lem p (x ∷ w) false = ground arith

contains-is_waiting :
    (w : List ProcessId) (id : ProcessId) (is_open : Bool)
    → contains w id ≡ true
    → is_waiting w is_open ≡ true
unfolding contains
contains-is_waiting [] id is_open h = cc
contains-is_waiting (x ∷ w) id true h = refl
contains-is_waiting (x ∷ w) id false h = ground arith

module _ {T S : Type 0} (transport : Transport T) (json : Json)
    (edit_file : Endpoint T StackedRemotes
      → ℕ
      → ProcessId
      → Bytes
      → Bytes
      → Outcome (Endpoint T StackedRemotes))
    (reader : Reader T S) (p : GenericPipe) (shown : NumSet) where
  abbrev on_reader : Endpoint T StackedRemotes → S → Exec T S
  on_reader e r = record { endpoint = e; reader = r }

  needs_command-Waits :
      (e : Endpoint T StackedRemotes) (so_far : Bytes) (w : List ProcessId) (is_open : Bool)
      → Waits p shown so_far w is_open e
      → needs_command e.handler ≡ not (is_waiting w is_open)
  needs_command-Waits e so_far w is_open x =
      rw x.no_remote rw x.jobs rw x.eofs (waiting_lem p w is_open)

  -- an event is taken, and the loop goes on
  serve_one :
      (s : Exec T S) (e : Endpoint T StackedRemotes) (r : Response) (events : List Event)
      → needs_command s.endpoint.handler ≡ false
      → receive (stacked_remotes edit_file) s.endpoint r ≡ ok e
      → wake_and_serve transport json (stacked_remotes edit_file) reader s (from_remote r ∷ events)
        ≡ wake_and_serve transport json
            (stacked_remotes edit_file)
            reader
            (record s { endpoint = e })
            events
  unfolding serve take_event receive_event
  serve_one s e r events n k =
      rw (wake-waiting transport json (stacked_remotes edit_file) reader s n) rw k refl

  -- All that is to come has come: so much is read of the pipe, and the loop is where it was with the
  -- endpoint as it is now.
  abbrev Settled : Exec T S → Bytes → List Response → Type 0
  Settled s all rs =
      (e : Endpoint T StackedRemotes) × Waits p shown all [] false e
      × SameRemotes s.endpoint e
      × (wake_and_serve transport json (stacked_remotes edit_file) reader s (map from_remote rs)
          ≡ wake_and_serve transport json (stacked_remotes edit_file) reader
              (record s { endpoint = e }) [])

  settle_one :
      (s : Exec T S) (so_far all : Bytes) (w : List ProcessId) (is_open : Bool) (r : Response)
      (rs : List Response)
      → needs_command s.endpoint.handler ≡ false
      → Received edit_file p shown so_far w is_open s.endpoint r
      → ((e : Endpoint T StackedRemotes)
          → Waits p shown so_far w is_open e
          → Settled (record s { endpoint = e }) all rs)
      → Settled s all (r ∷ rs)
  settle_one s so_far all w is_open r rs n (e₁, k, x, (same, dirs)) h =
      let (e, y, (same', dirs'), g) = h e₁ x in
      (e, y, (same' ∙ same, dirs' ∙ dirs), serve_one s e₁ r (map from_remote rs) n k ∙ g)

  settle :
      (s : Exec T S) (so_far : Bytes) {w : List ProcessId} {is_open : Bool} {out : Bytes}
      {rs : List Response}
      → Replies p shown w is_open out rs
      → Waits p shown so_far w is_open s.endpoint
      → Settled s (so_far ++ out) rs
  settle s so_far none_left x = (s.endpoint, rw (append-nil so_far) x, (refl, refl), refl)
  settle s so_far (job_ends {w = w} {is_open = o} {out = out} {rs = rs} remote id code c k) x =
      settle_one s so_far (so_far ++ out) (remove_all w id) o _ rs
        (needs_command-Waits s.endpoint so_far w o x ∙ ap not (contains-is_waiting w id o c))
        (job_ends-Received edit_file p shown s.endpoint so_far w o remote id code x c)
        λ e y. settle (record s { endpoint = e }) so_far k y
  settle s so_far (more_output {w = w} {all = all} {out = out} {rs = rs} remote end bytes q k) x =
      settle_one s (so_far ++ bytes) (so_far ++ all) w true _ rs
        (needs_command-Waits s.endpoint so_far w true x)
        (more_output-Received edit_file p shown s.endpoint so_far w remote end bytes x)
        λ e y.
          rw q rw (← append_assoc so_far bytes out)
            (settle (record s { endpoint = e }) (so_far ++ bytes) k y)
  settle s so_far (output_ends {w = w} {rs = rs} remote end k) x =
      settle_one s so_far (so_far ++ []) w false _ rs
        (needs_command-Waits s.endpoint so_far w true x)
        (output_ends-Received edit_file p shown s.endpoint so_far w remote end x)
        λ e y. settle (record s { endpoint = e }) so_far k y
  settle s so_far
        (shown_output {w = w} {is_open = o} {out = out} {rs = rs} remote q end bytes a c k) x =
      settle_one s so_far (so_far ++ out) w o _ rs
        (needs_command-Waits s.endpoint so_far w o x ∙ ap not a)
        (shown_output-Received edit_file p shown s.endpoint so_far w o remote q end bytes x c)
        λ e y. settle (record s { endpoint = e }) so_far k y
  settle s so_far (shown_ends {w = w} {is_open = o} {out = out} {rs = rs} remote q end a c k) x =
      settle_one s so_far (so_far ++ out) w o _ rs
        (needs_command-Waits s.endpoint so_far w o x ∙ ap not a)
        (shown_ends-Received edit_file p shown s.endpoint so_far w o remote q end x c)
        λ e y. settle (record s { endpoint = e }) so_far k y

  prompt_one :
      (h : StackedRemotes) (id : RemoteId) (info : RemoteInfo)
      → h.remotes ≡ (id, info) ∷ []
      → prompt h
        ≡ ok (codes "[1:" ++ (info.hostname ++ (codes "] " ++ (info.working_dir ++ codes "$ "))))
  unfolding prompt last_entry decimal digits
  prompt_one h id info r = rw r refl

  -- the endpoint, once its directory is read
  abbrev read_on : Endpoint T StackedRemotes → RemoteId → RemoteInfo → Endpoint T StackedRemotes
  read_on e id info = record e {
    handler = record (e.handler) {
      remotes = (id, info) ∷ [];
      finished_output = remove e.handler.finished_output p;
      cwd_for_remote = [];
    };
  }

  take_command_one :
      (s : Exec T S) (id : RemoteId) (info : RemoteInfo) (dir : Bytes)
      → s.endpoint.handler.remotes ≡ (id, info) ∷ []
      → s.endpoint.handler.cwd_for_remote ≡ (id, p) ∷ []
      → s.endpoint.handler.finished_output p ≡ some (dir ++ 10 ∷ [])
      → is_utf8 dir ≡ true
      → take_command transport json (stacked_remotes edit_file) reader s ≡ (do
        let e = read_on s.endpoint id (record info { working_dir = dir })
        (plan, r) ←
            reader.get_command s.reader
              (codes "[1:" ++ (info.hostname ++ (codes "] " ++ (dir ++ codes "$ "))))
              e
        (goes_on, e') ← carry_plan transport json e plan
        ok (goes_on, record { endpoint = e'; reader = r }))
  unfolding take_command
  take_command_one s id info dir one dirs f u =
      let h = s.endpoint.handler in
      let info' : RemoteInfo = record info { working_dir = dir } in
      let e : Endpoint T StackedRemotes = read_on s.endpoint id info' in
      let stored : read_directories h.cwd_for_remote h ≡ ok e.handler =
        ap (λ c. read_directories c h) dirs ∙ read_directories_one h id info p dir one f u in
      rw stored rw (prompt_one e.handler id info' refl) refl

  none_served :
      (m : Outcome (Bool × Exec T S))
      → (m >>= λ (ended, s). elim ended [
        | true ↦ ok (true, s)
        | false ↦ serve transport json (stacked_remotes edit_file) reader s []
      ])
        ≡ m
  unfolding serve
  none_served (ok (true, s)) = refl
  none_served (ok (false, s)) = refl
  none_served (fault z) = refl

  leave_carried :
      (r : S) (n : Outcome (Bool × Endpoint T StackedRemotes))
      → (((n >>= λ (goes_on, e). ok (goes_on, on_reader e r)) >>= λ (goes_on, s).
            ok (not goes_on, s))
          >>= leave transport json (stacked_remotes edit_file) reader)
        ≡ (n >>= λ (goes_on, e).
            leave transport json (stacked_remotes edit_file) reader (not goes_on, on_reader e r))
  leave_carried r (ok (goes_on, e)) = refl
  leave_carried r (fault z) = refl

  leave_lem :
      (m : Outcome (Plan × S)) (f : Plan → Outcome (Bool × Endpoint T StackedRemotes))
      → (((m >>= λ (plan, r). f plan >>= λ (goes_on, e). ok (goes_on, on_reader e r))
            >>= λ (goes_on, s). ok (not goes_on, s))
          >>= leave transport json (stacked_remotes edit_file) reader)
        ≡ (m >>= λ (plan, r). f plan >>= λ (goes_on, e).
            leave transport json (stacked_remotes edit_file) reader (not goes_on, on_reader e r))
  leave_lem (ok (plan, r)) f = leave_carried r (f plan)
  leave_lem (fault z) f = refl

  -- One remote, where a command is waited for that asked for its directory on the pipe `p`, of which
  -- nothing has come yet, and where no write to the terminal fails: however the backend orders its
  -- answers - the end of each job, the output `dir` and a line end in any pieces, and its end, and
  -- before the last of these the output and the ends of pipes that are shown on stdout or on stderr -
  -- `remote_run` takes them all, and then asks for the next command line, with `dir` in the
  -- prompt and as the working directory of the remote, and carries it out.
  pub remote_run-Replies :
      (s : Exec T S) (w : List ProcessId) (id : RemoteId) (info : RemoteInfo) (dir : Bytes)
      (rs : List Response)
      → Waits p shown [] w true s.endpoint
      → s.endpoint.handler.remotes ≡ (id, info) ∷ []
      → s.endpoint.handler.cwd_for_remote ≡ (id, p) ∷ []
      → is_utf8 dir ≡ true
      → Replies p shown w true (dir ++ 10 ∷ []) rs
      → (e : Endpoint T StackedRemotes) × (e.handler.remotes
          ≡ (id, record info { working_dir = dir }) ∷ [])
        × (e.handler.waiting_for ≡ [])
        × (remote_run transport json (stacked_remotes edit_file) reader s (map from_remote rs) ≡ (do
          (plan, r) ←
              reader.get_command s.reader
                (codes "[1:" ++ (info.hostname ++ (codes "] " ++ (dir ++ codes "$ "))))
                e
          (goes_on, e') ← carry_plan transport json e plan
          leave transport json
              (stacked_remotes edit_file)
              reader
              (not goes_on, record { endpoint = e'; reader = r })))
  remote_run-Replies s w id info dir rs x one dirs u k =
      let (e₁, y, (same, dirs'), g) = settle s [] k x in
      let info' : RemoteInfo = record info { working_dir = dir } in
      let e : Endpoint T StackedRemotes = read_on e₁ id info' in
      let s₁ : Exec T S = record s { endpoint = e₁ } in
      let n = needs_command-Waits e₁ (dir ++ 10 ∷ []) [] false y in
      (
        e,
        refl,
        y.jobs,
        remote_run-wake_and_serve transport json (stacked_remotes edit_file) reader s
              (map from_remote rs)
            ∙ ap (λ m. m >>= leave transport json (stacked_remotes edit_file) reader)
                (g
                  ∙ none_served (wake transport json (stacked_remotes edit_file) reader s₁)
                  ∙ wake-command transport json (stacked_remotes edit_file) reader s₁ n
                  ∙ ap (λ m. m >>= λ (goes_on, s'). ok (not goes_on, s'))
                      (take_command_one s₁ id info dir (same ∙ one) (dirs' ∙ dirs) y.gathered u))
            ∙ leave_lem (reader.get_command s.reader _ e) (carry_plan transport json e),
      )
