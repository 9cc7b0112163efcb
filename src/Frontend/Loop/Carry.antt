-- ===== src/Frontend/Loop/Carry.antt =====
-- An executable plan is carried out without a panic.
use nak.Base.{
  ℕ, ◌≡◌, refl, ◌∙◌, true, List, [], ◌∷◌, some, Bytes, ok, ◌>>=◌, Safe, Safe-bind, Guarded,
  Guarded-bind, Guarded-of_Safe, arith, contains_key,
}
use nak.Protocol.{RemoteInfo}
use nak.Protocol.Endpoint.{
  Transport, Json, Endpoint, new_pipe, new_command, new_output_file, pipe_begin_read, pipe_read,
}
use nak.Protocol.Endpoint.Perform.{sent, sent_then}
use nak.Plan.{
  Step, remote, pager, editor, run, close, open_input_file, open_output_file, begin_remote, Sink,
  Plan,
}
use nak.Plan.Execution.{
  PipeEnds, take_read, take_write, can_read, after_step, after_steps, and_then,
}
use nak.Plan.Ends.{take_read_of, can_read-take_read}
use nak.Prefs.{Prefs}
use nak.Edit.{parse_command_simple, root_remotes, last_remote}
use nak.Edit.Whole.{Blame, IsExecutable, parse_command_simple-IsExecutable}
use nak.Frontend.{StackedRemotes, cur_remote, last_entry}
use nak.Frontend.Loop.{
  Progress, Carried, going, stopped, carry_step, carry_steps, mark_sink, ask_directory, read_sink,
  read_sinks, after_carry, finish_plan, carry_plan,
}
use nak.Frontend.Loop.Ends.{
  flags, flags-append, take_reader-flags, take_writer-flags, is_output, SameRemotes,
  mark_sink-SameRemotes, split,
}

module _ {T : Type 0} (transport : Transport T) (json : Json)
    (sends : (t : T) (line : Bytes) → Safe (λ t'. Unit) (transport.send t line)) (id : ℕ)
    (info : RemoteInfo) where
  -- the one remote, and the endpoint knows it
  abbrev pub AtRemote : Endpoint T StackedRemotes → Type 0
  AtRemote e = (e.handler.remotes ≡ (id, info) ∷ []) × (contains_key e.remotes id ≡ true)

  abbrev Holds : PipeEnds → Progress T → Type 0
  Holds es s =
      AtRemote s.endpoint × (flags s.pipe_pairs ≡ es) × (s.endpoint.handler.waiting_for ≡ [])

  abbrev HoldsIf : PipeEnds → Carried T → Type 0
  HoldsIf es (going s) = Holds es s
  HoldsIf es (stopped e) = AtRemote e

  cur_remote_lem : (e : Endpoint T StackedRemotes) → AtRemote e → cur_remote e ≡ ok id
  unfolding cur_remote last_entry
  cur_remote_lem e (r, k) = rw r refl

  carry_step-Holds :
      (s : Progress T) (step : Step) (es : PipeEnds) {es' : PipeEnds}
      → Holds es s
      → after_step es step ≡ some es'
      → Safe (HoldsIf es') (carry_step transport json s step)
  unfolding after_step carry_step new_pipe new_command new_output_file
  carry_step-Holds s Step.pipe es (a, f, w) h =
      (a, flags-append s.pipe_pairs _ ∙ rw f ground arith, w)
  carry_step-Holds s (remote r (run cmd pr)) es {es'} (a, f, w) h =
      let (es₂, h₁, h₂) =
        split (and_then (take_write pr.stdout es) (take_write pr.stderr)) (take_read pr.stdin) h in
      let (es₁, g₁, g₂) = split (take_write pr.stdout es) (take_write pr.stderr) h₁ in
      let ((out, p₁), o₁, o₂) = take_writer-flags pr.stdout s.pipe_pairs {es = es₁} (rw f g₁) in
      let ((err, p₂), x₁, x₂) = take_writer-flags pr.stderr p₁ {es = es₂} (rw o₂ g₂) in
      let ((inp, p₃), i₁, i₂) = take_reader-flags pr.stdin p₂ {es = es'} (rw x₂ h₂) in
      rw (cur_remote_lem s.endpoint a) rw o₁ rw x₁ rw i₁ rw a.1
        (sent_then transport json sends (HoldsIf es') _ id _ _ _ (λ t. (a, i₂, w)))
  carry_step-Holds s (remote r close) es (a, f, w) h = rw a.0 (refl, a.1)
  carry_step-Holds s (remote r (open_output_file path)) es {es'} (a, f, w) h =
      rw (cur_remote_lem s.endpoint a) rw a.1 (
        sent_then transport json sends (HoldsIf es') _ id _ _ _
          (λ t. (a, flags-append s.pipe_pairs _ ∙ rw f ground arith, w)))
  carry_step-Holds s (remote r (open_input_file path)) es i h = absurd cc
  carry_step-Holds s (remote r (begin_remote cmd)) es i h = absurd cc
  carry_step-Holds s pager es i h = absurd cc
  carry_step-Holds s editor es i h = absurd cc

  carry_rest :
      (es' : PipeEnds) (steps : List Step) (es₁ : PipeEnds)
      → ((s : Progress T) → Holds es₁ s → Safe (HoldsIf es') (carry_steps transport json s steps))
      → (c : Carried T) → HoldsIf es₁ c
      → Safe
          (HoldsIf es')
          (elim c [ going s' ↦ carry_steps transport json s' steps | stopped e ↦ ok (stopped e) ])
  carry_rest es' steps es₁ f (going s) k = f s k
  carry_rest es' steps es₁ f (stopped e) k = k

  carry_steps-Holds :
      (s : Progress T) (steps : List Step) (es : PipeEnds) {es' : PipeEnds}
      → Holds es s
      → after_steps es steps ≡ some es'
      → Safe (HoldsIf es') (carry_steps transport json s steps)
  unfolding after_steps carry_steps
  carry_steps-Holds s [] es (a, f, w) h = (a, f ∙ ground arith, w)
  carry_steps-Holds s (step ∷ steps) es {es'} i h =
      let (es₁, h₁, h₂) = split (after_step es step) (λ e. after_steps e steps) h in
      Safe-bind (HoldsIf es₁) (HoldsIf es') (carry_step transport json s step) _
        (carry_step-Holds s step es i h₁)
        (λ c k. carry_rest es' steps es₁ (λ s' k'. carry_steps-Holds s' steps es₁ k' h₂) c k)

  ask_directory-Holds :
      (s : Progress T) (es : PipeEnds)
      → Holds es s
      → Safe (Holds es) (ask_directory transport json s)
  unfolding ask_directory new_pipe new_command pipe_begin_read pipe_read
  ask_directory-Holds s es (a, f, w) = rw (cur_remote_lem s.endpoint a) rw a.1 (
      sent_then transport json sends (Holds es) _ id _ _ _ (λ t₁.
        sent transport json sends (Holds es) _ id _ _ (λ t₂.
          sent transport json sends (Holds es) _ id _ _ (λ t₃.
            sent transport json sends (Holds es) _ id _ _
              (λ t₄. sent transport json sends (Holds es) _ id _ _ (λ t₅. (a, f, w)))))))

  read_sink-Holds :
      (s : Progress T) (p : ℕ) (sink : Sink) (es : PipeEnds) {es' : PipeEnds}
      → Holds es s
      → take_read p es ≡ some es'
      → is_output sink ≡ true
      → Safe (Holds es') (read_sink transport json s id p sink)
  unfolding read_sink pipe_begin_read pipe_read
  read_sink-Holds s p sink es {es'} (a, f, w) h o =
      let ((r, ps), i₁, i₂) = take_reader-flags p s.pipe_pairs {es = es'} (rw f h) in
      rw i₁ (
        sent transport json sends (Holds es') _ id _ _ (λ t₁.
          sent transport json sends (Holds es') _ id _ _ (λ t₂.
            Safe-bind (SameRemotes s.endpoint.handler) (Holds es')
              (mark_sink s.endpoint.handler sink r) _
              (mark_sink-SameRemotes s.endpoint.handler sink r o)
              (λ h' m. ((m.0 ∙ a.0, a.1), i₂, m.1 ∙ w)))))

  read_sinks-Holds :
      (s : Progress T) (es : PipeEnds)
      → Holds es s
      → can_read es 0 ≡ true
      → can_read es 1 ≡ true
      → Safe
          (λ s'. AtRemote s'.endpoint × (s'.endpoint.handler.waiting_for ≡ []))
          (read_sinks transport json s id 0 (some Sink.stdout ∷ some Sink.stderr ∷ []))
  unfolding read_sinks
  read_sinks-Holds s es i h k =
      let (es₁, e₁) = take_read_of 0 es h in
      let (es₂, e₂) = take_read_of 1 es₁ (can_read-take_read 0 1 es e₁ ∙ k) in
      Safe-bind (Holds es₁) _ (read_sink transport json s id 0 Sink.stdout) _
        (read_sink-Holds s 0 Sink.stdout es i e₁ refl)
        (λ s₁ j.
          Safe-bind (Holds es₂) _ (read_sink transport json s₁ id 1 Sink.stderr) _
            (read_sink-Holds s₁ 1 Sink.stderr es₁ j e₂ refl) (λ s₂ (a, f, w). (a, w)))

  after_carry-AtRemote :
      (s : Progress T) (es : PipeEnds)
      → Holds es s
      → can_read es 0 ≡ true
      → can_read es 1 ≡ true
      → Safe AtRemote (after_carry transport json s (some Sink.stdout ∷ some Sink.stderr ∷ []))
  unfolding after_carry
  after_carry-AtRemote s es i h k =
      Safe-bind (Holds es) AtRemote (ask_directory transport json s) _ (ask_directory-Holds s es i)
        (λ s₁ (a, f, w). rw (cur_remote_lem s₁.endpoint a) (
          Safe-bind (λ s'. AtRemote s'.endpoint × (s'.endpoint.handler.waiting_for ≡ [])) AtRemote
            (read_sinks transport json s₁ id 0 (some Sink.stdout ∷ some Sink.stderr ∷ [])) _
            (read_sinks-Holds s₁ es (a, f, w) h k) (λ s₂ (b, v). rw v b)))

  finish :
      (c : Carried T) (es : PipeEnds)
      → HoldsIf es c
      → can_read es 0 ≡ true
      → can_read es 1 ≡ true
      → Safe
          (λ r. AtRemote r.1)
          (finish_plan transport json (some Sink.stdout ∷ some Sink.stderr ∷ []) c)
  unfolding finish_plan
  finish (going s) es i h k =
      Safe-bind AtRemote (λ r. AtRemote r.1)
        (after_carry transport json s (some Sink.stdout ∷ some Sink.stderr ∷ [])) _
        (after_carry-AtRemote s es i h k) (λ e a. a)
  finish (stopped e) es i h k = i

  -- An endpoint with one remote, which it knows, and where nothing is waited for, and a transport that
  -- does not panic: an executable plan is carried out without a panic. Unless the transport fails,
  -- the endpoint still has that remote.
  pub carry_plan-IsExecutable :
      (e : Endpoint T StackedRemotes) (plan : Plan)
      → AtRemote e
      → e.handler.waiting_for ≡ []
      → IsExecutable plan
      → Safe (λ r. AtRemote r.1) (carry_plan transport json e plan)
  unfolding carry_plan
  carry_plan-IsExecutable e plan a w x = rw x.sinks (
      Safe-bind (HoldsIf x.flags) (λ r. AtRemote r.1)
        (carry_steps transport json (record { endpoint = e; pipe_pairs = []; wait = [] })
          plan.steps)
        _
        (carry_steps-Holds (record { endpoint = e; pipe_pairs = []; wait = [] }) plan.steps []
          (a, refl, w) x.runs)
        (λ c k. finish c x.flags k x.out_free x.err_free))

  -- From the text to the requests, for an endpoint with one remote, which it knows, and where nothing
  -- is waited for, and a transport that does not panic: a line is carried out without a panic, or
  -- there is an `Err`. It panics only if the line holds a quote or a `>`, or if it parses to a tree
  -- that holds a sequence or a command on which `convert_single` panics. Afterwards the endpoint
  -- still has that remote.
  pub parse_command_simple-carry_plan :
      (e : Endpoint T StackedRemotes) (prefs : Prefs) (input : Bytes)
      → AtRemote e
      → e.handler.waiting_for ≡ []
      → Guarded
          (Blame prefs input)
          (λ r. AtRemote r.1)
          (parse_command_simple root_remotes prefs input >>= carry_plan transport json e)
  unfolding last_remote
  parse_command_simple-carry_plan e prefs input a w =
      Guarded-bind (Blame prefs input) IsExecutable (λ r. AtRemote r.1)
        (parse_command_simple root_remotes prefs input) (carry_plan transport json e)
        (parse_command_simple-IsExecutable root_remotes prefs refl input)
        (λ plan x.
          Guarded-of_Safe (Blame prefs input) (λ r. AtRemote r.1) (carry_plan transport json e plan)
            (carry_plan-IsExecutable e plan a w x))
