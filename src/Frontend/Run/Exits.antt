-- ===== src/Frontend/Run/Exits.antt =====
-- `nak --command` (frontend/src/main.rs, with the `SingleCommandReader`): its end.
use nak.Base.{
  ℕ, ◌≡◌, refl, ap, ◌∙◌, true, false, not, List, [], ◌∷◌, ◌++◌, map, none, Bytes, Outcome, ok,
  ◌>>=◌, NumSet,
}
use nak.Protocol.{ProcessId, GenericPipe, RemoteId, RemoteInfo, Response}
use nak.Protocol.Endpoint.{Transport, Json, Endpoint}
use nak.Plan.Builder
use nak.Edit.{SingleCommandReader, single_command, get_single_command, exit_plan}
use nak.Frontend.{StackedRemotes, stacked_remotes}
use nak.Frontend.Prompt.{is_utf8}
use nak.Frontend.Loop.{from_remote, carry_step, carry_steps, finish_plan, carry_plan}
use nak.Frontend.Run.{Exec, single_reader, leave, remote_run}
use nak.Frontend.Run.Replies.{Replies, Waits}
use nak.Frontend.Run.Returns.{remote_run-Replies}

get_single_command-none :
    (r : SingleCommandReader)
    → r.text ≡ none
    → get_single_command r ≡ ok (exit_plan, record r { text = none })
unfolding get_single_command single_command
get_single_command-none r t =
    ap (λ o. single_command r.prefs o >>= λ plan. ok (plan, record r { text = none })) t

module _ {T : Type 0} (transport : Transport T) (json : Json) where
  -- the plan of `exit`, where there is one remote
  carry_plan-exit_plan :
      (e : Endpoint T StackedRemotes) (r : RemoteId × RemoteInfo)
      → e.handler.remotes ≡ r ∷ []
      → carry_plan transport json e exit_plan ≡ ok (false, e)
  unfolding carry_plan carry_steps carry_step finish_plan Builder.exit
  carry_plan-exit_plan e r h = rw h refl

  -- The shell that was given one command, which it has sent and waits for, with one remote and the
  -- directory asked for on the pipe `p`, and where no write to the terminal fails: once the ends of
  -- the jobs, the directory and its end are in, in any order, and before the last of them any output
  -- and ends of pipes that are shown on stdout or on stderr, it ends, with no job left that it waits
  -- for.
  pub single_command-Replies :
      (edit_file : Endpoint T StackedRemotes
        → ℕ
        → ProcessId
        → Bytes
        → Bytes
        → Outcome (Endpoint T StackedRemotes))
      (p : GenericPipe) (shown : NumSet) (s : Exec T SingleCommandReader) (w : List ProcessId)
      (id : RemoteId) (info : RemoteInfo) (dir : Bytes) (rs : List Response)
      → s.reader.text ≡ none
      → Waits p shown [] w true s.endpoint
      → s.endpoint.handler.remotes ≡ (id, info) ∷ []
      → s.endpoint.handler.cwd_for_remote ≡ (id, p) ∷ []
      → is_utf8 dir ≡ true
      → Replies p shown w true (dir ++ 10 ∷ []) rs
      → (s' : Exec T SingleCommandReader) × (remote_run transport json
            (stacked_remotes edit_file)
            single_reader
            s
            (map from_remote rs)
          ≡ ok (true, s'))
        × (s'.endpoint.handler.waiting_for ≡ [])
  single_command-Replies edit_file p shown s w id info dir rs t x one dirs u k =
      let (e, same, none_left, run) =
        remote_run-Replies transport json edit_file single_reader p shown s w id info dir rs x one
          dirs u k in
      (
        record { endpoint = e; reader = record (s.reader) { text = none } },
        run
            ∙ ap
                (λ m. m >>= λ (plan, r). carry_plan transport json e plan >>= λ (goes_on, e').
                  leave transport json (stacked_remotes edit_file) single_reader
                    (not goes_on, record { endpoint = e'; reader = r }))
                (get_single_command-none s.reader t)
            ∙ ap
                (λ m. m >>= λ (goes_on, e').
                  leave transport json (stacked_remotes edit_file) single_reader (
                    not goes_on,
                    record { endpoint = e'; reader = record (s.reader) { text = none } },
                  ))
                (carry_plan-exit_plan e _ same),
        none_left,
      )
