-- ===== src/Frontend/Run/Waits.antt =====
-- Behind a command line the frontend waits: `one_loop` of frontend/src/main.rs reads no second one at
-- once.
use nak.Base.{
  ℕ, suc, ◌*◌, ◌<◌, ◌==◌, ◌≡◌, refl, ◌∙◌, Bool, true, false, List, [], ◌∷◌, ◌++◌, length, Option,
  some, none, Outcome, assert, ◌>>=◌, contains, if◌then◌else◌, map, Guarded, Guarded-bind,
  Guarded-mono, Guarded-self, Hazardous, arith,
}
use nak.Protocol.Endpoint.{
  Transport, Json, Endpoint, EndpointHandler, new_pipe, new_command, pipe_begin_read, pipe_read,
}
use nak.Protocol.{ProcessId, WritePipes, Condition, get_directory}
use nak.Plan.{Plan, Sink}
use nak.Frontend.{StackedRemotes, add_to, cur_remote}
use nak.Frontend.Loop.{
  Progress, Carried, going, stopped, carry_steps, ask_directory, read_sink, read_sinks, take_reader,
  mark_sink, after_carry, finish_plan, carry_plan,
}
use nak.Frontend.Prompt.{read_directories, prompt}
use nak.Frontend.Run.{Reader, Exec, needs_command, take_command}

-- nothing is said of the value
any {ℓ} : {A : Type ℓ} (m : Outcome A) → Guarded Unit (λ a. Unit) m
any m =
    Guarded-mono (Hazardous m) Unit (λ a. Unit) (λ a. Unit) m (Guarded-self m) (λ h. tt) (λ a h. tt)

-- a part of a chain of which nothing is said
skip {ℓ κ} :
    {A : Type ℓ} {B : Type κ} (Q : B → Type 0) (m : Outcome A) (f : A → Outcome B)
    → ((a : A) → Guarded Unit Q (f a))
    → Guarded Unit Q (m >>= f)
skip Q m f k = Guarded-bind Unit (λ a. Unit) Q m f (any m) (λ a h. k a)

pos_length-if :
    (b : Bool) (y x : ℕ) (xs : List ℕ) → 0 < length (if b then y ∷ xs else y ∷ (xs ++ x ∷ []))
pos_length-if true y x xs = omega arith
pos_length-if false y x xs = omega arith

pos_length-add_to : (xs : List ℕ) (x : ℕ) → 0 < length (add_to xs x)
unfolding contains
pos_length-add_to [] x = omega arith
pos_length-add_to (y ∷ xs) x = pos_length-if (contains (y ∷ xs) x) y x xs

module _ {T : Type 0} (transport : Transport T) (json : Json) where
  abbrev Waiting : Progress T → Type 0
  Waiting s = 0 < length s.wait

  ask_directory-waits :
      (s : Progress T) → Guarded Unit (λ s'. 0 < length s'.wait) (ask_directory transport json s)
  unfolding ask_directory
  ask_directory-waits s =
      let ((out_read, out_write), e₁) = new_pipe s.endpoint in
      let ((err_read, err_write), e₂) = new_pipe e₁ in
      let ((in_read, in_write), e₃) = new_pipe e₂ in
      let pipes : WritePipes = record { stdin = in_read; stdout = out_write; stderr = err_write } in
      let block_for : List (ProcessId × Condition) = map (λ p. (p, none)) s.wait in
      skip Waiting (cur_remote s.endpoint) _ λ cur.
        skip Waiting (new_command transport json e₃ cur get_directory block_for pipes) _
          λ (pid, e₄). skip Waiting (pipe_begin_read transport json e₄ cur out_read) _ λ e₅.
            skip Waiting (pipe_begin_read transport json e₅ cur err_read) _ λ e₆.
              skip Waiting (pipe_read transport json e₆ cur out_read (1024 * 1024)) _ λ e₇.
                skip Waiting (pipe_read transport json e₇ cur err_read (1024 * 1024)) _
                  λ e₈. pos_length-add_to s.wait pid

  read_sink-wait :
      (s : Progress T) (cur p : ℕ) (sink : Sink)
      → Guarded Unit (λ s'. s'.wait ≡ s.wait) (read_sink transport json s cur p sink)
  unfolding read_sink
  read_sink-wait s cur p sink = skip _ (take_reader p s.pipe_pairs) _ λ (comm_pipe, pairs).
      skip _ (pipe_begin_read transport json s.endpoint cur comm_pipe) _ λ e₁.
        skip _ (pipe_read transport json e₁ cur comm_pipe (1024 * 1024)) _
          λ e₂. skip _ (mark_sink e₂.handler sink comm_pipe) _ λ h. refl

  read_sinks-wait :
      (s : Progress T) (cur p : ℕ) (sinks : List (Option Sink))
      → Guarded Unit (λ s'. s'.wait ≡ s.wait) (read_sinks transport json s cur p sinks)
  unfolding read_sinks
  read_sinks-wait s cur p [] = refl
  read_sinks-wait s cur p (none ∷ sinks) = read_sinks-wait s cur (suc p) sinks
  read_sinks-wait s cur p (some sink ∷ sinks) =
      Guarded-bind Unit (λ s'. s'.wait ≡ s.wait) _ (read_sink transport json s cur p sink) _
        (read_sink-wait s cur p sink)
        λ s' h.
          Guarded-mono Unit Unit (λ s''. s''.wait ≡ s'.wait) _
            (read_sinks transport json s' cur (suc p) sinks) (read_sinks-wait s' cur (suc p) sinks)
            (λ u. u) (λ s'' k. k ∙ h)

  after_carry-waits :
      (s : Progress T) (sinks : List (Option Sink))
      → Guarded Unit (λ e. 0 < length e.handler.waiting_for) (after_carry transport json s sinks)
  unfolding after_carry
  after_carry-waits s sinks =
      Guarded-bind Unit (λ s'. 0 < length s'.wait) _ (ask_directory transport json s) _
        (ask_directory-waits s)
        λ s₁ h. skip _ (cur_remote s₁.endpoint) _ λ cur.
          Guarded-bind Unit (λ s'. s'.wait ≡ s₁.wait) _ (read_sinks transport json s₁ cur 0 sinks) _
            (read_sinks-wait s₁ cur 0 sinks)
            λ s₂ k. skip _ (assert (length s₂.endpoint.handler.waiting_for == 0)) _ λ u. rw k h

  -- if the shell goes on, it waits
  abbrev GoesOn : Bool × Endpoint T StackedRemotes → Type 0
  GoesOn (goes_on, e) = goes_on ≡ true → 0 < length e.handler.waiting_for

  finish_plan-waits :
      (sinks : List (Option Sink)) (c : Carried T)
      → Guarded Unit GoesOn (finish_plan transport json sinks c)
  unfolding finish_plan
  finish_plan-waits sinks (stopped e) = λ h. cc
  finish_plan-waits sinks (going s) =
      Guarded-bind Unit (λ e. 0 < length e.handler.waiting_for) GoesOn
        (after_carry transport json s sinks) _ (after_carry-waits s sinks) λ e h k. h

  carry_plan-waits :
      (e : Endpoint T StackedRemotes) (plan : Plan)
      → Guarded Unit GoesOn (carry_plan transport json e plan)
  unfolding carry_plan
  carry_plan-waits e plan =
      skip _
        (carry_steps transport json (record { endpoint = e; pipe_pairs = []; wait = [] })
          plan.steps)
        _ λ c. finish_plan-waits plan.sink_map c

  needs_command-pos : (h : StackedRemotes) → 0 < length h.waiting_for → needs_command h ≡ false
  needs_command-pos h l = ground arith

  module _ {S : Type 0} (handler : EndpointHandler T StackedRemotes) (reader : Reader T S) where
    pub take_command-waits :
        (s : Exec T S)
        → Guarded Unit
            (λ (goes_on, s'). goes_on ≡ true → needs_command s'.endpoint.handler ≡ false)
            (take_command transport json handler reader s)
    unfolding take_command
    take_command-waits s =
        skip _ (read_directories s.endpoint.handler.cwd_for_remote s.endpoint.handler) _ λ h.
          skip _ (prompt h) _ λ text.
            let e = record (s.endpoint) { handler = h } in
            skip _ (reader.get_command s.reader text e) _ λ (plan, r).
              Guarded-bind Unit GoesOn _ (carry_plan transport json e plan) _
                (carry_plan-waits e plan) λ (goes_on, e') k g. needs_command-pos e'.handler (k g)
