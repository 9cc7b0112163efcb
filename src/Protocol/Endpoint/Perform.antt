-- ===== src/Protocol/Endpoint/Perform.antt =====
-- What each call of an endpoint does: one that it accepts keeps the invariant, and any other fails.
use nak.Base.{
  ℕ, ◌+◌, ◌<◌, ◌%◌, ◌==◌, ◌≡◌, ◌≢◌, refl, true, false, if◌then◌else◌, Option, none, some, Bytes,
  Outcome, ok, ◌>>=◌, contains_key, remove, Safe, Safe-bind, arith, Option-cases, inl, inr, subst,
  >>=_assoc,
}
use nak.Protocol.{RemoteId, RemoteRequest}
use nak.Protocol.Ids.{usize_mod, next}
use nak.Protocol.Endpoint.{
  Transport, Json, Endpoint, transmit, new_pipe, new_remote, new_command, new_output_file,
  new_input_file, close_remote, close_process, send_edit, pipe_read, pipe_begin_read,
}
use nak.Protocol.Endpoint.Calls.{
  Call, call_pipe, call_remote, call_command, call_output_file, call_input_file, call_close_remote,
  call_close_process, call_finish_edit, call_read, call_begin_read, hands_out, accepts, perform,
}
use nak.Protocol.Endpoint.Tree.{
  IsTree, pipe-Tree, job-Tree, remote-Tree, close_remote-Tree, close_process-Tree,
}

wraps : (n : ℕ) → n + 1 < usize_mod → (n + 1) % usize_mod ≡ n + 1
wraps n h = omega arith

-- what a call that is accepted leaves
abbrev pub Performed : {T H : Type 0} → Endpoint T H → Call → Option ℕ × Endpoint T H → Type 0
Performed e c r =
    IsTree r.1
    × (r.1.ids.next_id ≡ e.ids.next_id + hands_out c)
    × (r.0 ≡ (if hands_out c == 0 then none else some e.ids.next_id))

module _ {T H : Type 0} (transport : Transport T) (json : Json)
    (sends : (t : T) (line : Bytes) → Safe (λ t'. Unit) (transport.send t line)) where
  transmit_lem :
      (e : Endpoint T H) (r : RemoteId) (message : RemoteRequest)
      → Safe (λ e₁. (t : T) × (record e { trans = t } ≡ e₁)) (transmit transport json e r message)
  unfolding transmit
  transmit_lem e r message =
      Safe-bind (λ t. Unit) (λ e₁. (t : T) × (record e { trans = t } ≡ e₁))
        (transport.send e.trans _) _ (sends e.trans _) (λ t h. (t, refl))

  pub sent {ℓ} :
      {A : Type ℓ} (P : A → Type 0) (e : Endpoint T H) (r : RemoteId) (message : RemoteRequest)
      (f : Endpoint T H → Outcome A)
      → ((t : T) → Safe P (f (record e { trans = t })))
      → Safe P (transmit transport json e r message >>= f)
  sent P e r message f h =
      Safe-bind (λ e₁. (t : T) × (record e { trans = t } ≡ e₁)) P
        (transmit transport json e r message) f (transmit_lem e r message)
        (λ e₁ (t, y). subst (λ x. Safe P (f x)) y (h t))

  pub sent_then {ℓ κ} :
      {A : Type ℓ} {B : Type κ} (P : B → Type 0) (e : Endpoint T H) (r : RemoteId)
      (message : RemoteRequest) (f : Endpoint T H → Outcome A) (g : A → Outcome B)
      → ((t : T) → Safe P (f (record e { trans = t }) >>= g))
      → Safe P ((transmit transport json e r message >>= f) >>= g)
  sent_then P e r message f g h =
      rw (>>=_assoc (transmit transport json e r message) f g)
        (sent P e r message (λ a. f a >>= g) h)

  -- On an endpoint that satisfies the invariant, where the transport does not panic and the ids have
  -- not run out, a call that the endpoint accepts does not panic: unless the transport fails, it keeps the invariant, and it hands out the
  -- next id where it needs one.
  pub perform-IsTree :
      (e : Endpoint T H) (c : Call)
      → IsTree e
      → e.ids.next_id + 1 < usize_mod
      → accepts e c ≡ true
      → Safe (Performed e c) (perform transport json e c)
  unfolding perform accepts new_pipe new_remote new_command new_output_file new_input_file
      close_remote close_process send_edit pipe_read pipe_begin_read next
  perform-IsTree e call_pipe i b a = rw (wraps e.ids.next_id b) (pipe-Tree i, refl, refl)
  perform-IsTree e (call_remote r command) i b a =
      let k : contains_key e.remotes r ≡ true = ground arith in
      let f : contains_key e.remotes e.ids.next_id ≡ false = ground arith in
      rw (k, wraps e.ids.next_id b)
        (sent_then (Performed e (call_remote r command))
          (record e { ids = record { next_id = e.ids.next_id + 1 } }) r _ _ _
          (λ t. rw f (remote-Tree i r k f, refl, refl)))
  perform-IsTree e (call_command r command block_for pipes) i b a =
      rw (a, wraps e.ids.next_id b)
        (sent_then (Performed e (call_command r command block_for pipes))
          (record e { ids = record { next_id = e.ids.next_id + 1 } }) r _ _ _
          (λ t. (job-Tree i _, refl, refl)))
  perform-IsTree e (call_output_file r path) i b a =
      rw (a, wraps e.ids.next_id b)
        (sent_then (Performed e (call_output_file r path)) _ r _ _ _
          (λ t. (pipe-Tree i, refl, refl)))
  perform-IsTree e (call_input_file r path) i b a =
      rw (a, wraps e.ids.next_id b)
        (sent_then (Performed e (call_input_file r path)) _ r _ _ _
          (λ t. (pipe-Tree i, refl, refl)))
  perform-IsTree e (call_close_remote r) i b a = elim (Option-cases (e.remotes r)) [
    | inl y ↦ absurd (ground (arith, y))
    | inr (s, y) ↦ elim (Option-cases s.parent) [
      | inl z ↦ absurd (ground (arith, y, z, i.parents r))
      | inr (q, z) ↦ rw y rw z (
          sent (Performed e (call_close_remote r)) (record e { remotes = remove e.remotes r }) q _ _
            (λ t. (close_remote-Tree i r (ground arith), omega arith, refl)))
    ]
  ]
  perform-IsTree e (call_close_process p) i b a = elim (Option-cases (e.jobs p)) [
    | inl y ↦ absurd (ground (arith, y))
    | inr (s, y) ↦
        let k : contains_key e.remotes s.parent ≡ true = ground (arith, y) in
        rw y rw k (
          sent (Performed e (call_close_process p)) (record e { jobs = remove e.jobs p }) s.parent _
            _ (λ t. (close_process-Tree i p, omega arith, refl)))
  ]
  perform-IsTree e (call_finish_edit p edit_id contents) i b a = elim (Option-cases (e.jobs p)) [
    | inl y ↦ absurd (ground (arith, y))
    | inr (s, y) ↦
        let k : contains_key e.remotes s.parent ≡ true = ground (arith, y) in
        rw y rw k (
          sent (Performed e (call_finish_edit p edit_id contents)) e s.parent _ _
            (λ t. (i, omega arith, refl)))
  ]
  perform-IsTree e (call_read r p n) i b a =
      sent (Performed e (call_read r p n)) e r _ _ (λ t. (i, omega arith, refl))
  perform-IsTree e (call_begin_read r p) i b a =
      sent (Performed e (call_begin_read r p)) e r _ _ (λ t. (i, omega arith, refl))

module _ {T H : Type 0} (transport : Transport T) (json : Json) where
  -- On an endpoint that satisfies the invariant, a call that it does not accept never succeeds.
  pub perform-refuses :
      (e : Endpoint T H) (c : Call) (r : Option ℕ × Endpoint T H)
      → IsTree e
      → accepts e c ≡ false
      → perform transport json e c ≢ ok r
  unfolding perform accepts new_pipe new_remote new_command new_output_file new_input_file
      close_remote close_process send_edit transmit next
  perform-refuses e call_pipe r i a h = ground arith
  perform-refuses e (call_remote q command) r i a h = ground arith
  perform-refuses e (call_command q command block_for pipes) r i a h = ground arith
  perform-refuses e (call_output_file q path) r i a h = ground arith
  perform-refuses e (call_input_file q path) r i a h = ground arith
  perform-refuses e (call_close_remote q) r i a h = ground (arith, i.root)
  perform-refuses e (call_close_process p) r i a h = ground arith
  perform-refuses e (call_finish_edit p edit_id contents) r i a h = ground arith
  perform-refuses e (call_read q p n) r i a h = ground arith
  perform-refuses e (call_begin_read q p) r i a h = ground arith
