-- ===== src/Frontend/Loop/Cancel.antt =====
-- Ctrl-C, pressed twice.
use nak.Base.{
  ℕ, ◌≡◌, refl, ap, sym, ◌∙◌, List, [], ◌∷◌, none, some, Outcome, ok, panic, contains_key, ==_refl,
  Guarded, Guarded-bind, Guarded-mono, Guarded-self, Hazardous, arith, subst, unwrap, assert,
}
use nak.Protocol.Endpoint.{Transport, Json, Endpoint, EndpointHandler, close_process, transmit}
use nak.Frontend.{StackedRemotes, cancel_process}
use nak.Frontend.Loop.{cancel_all, receive_event, ctrl_c}

module _ {T : Type 0} (transport : Transport T) (json : Json) where
  -- the job is gone, and the handler is as it was
  abbrev Gone : ℕ → StackedRemotes → Endpoint T StackedRemotes → Type 0
  Gone p h e = (e.jobs p ≡ none) × (e.handler ≡ h)

  any {ℓ} : {A : Type ℓ} (m : Outcome A) → Guarded Unit (λ a. Unit) m
  any m =
      Guarded-mono (Hazardous m) Unit (λ a. Unit) (λ a. Unit) m (Guarded-self m) (λ h. tt)
        (λ a h. tt)

  cancel_process-Gone :
      (e : Endpoint T StackedRemotes) (p : ℕ)
      → Guarded Unit (Gone p e.handler) (cancel_process transport json e p)
  unfolding cancel_process close_process transmit
  cancel_process-Gone e p =
      Guarded-bind Unit (λ s. Unit) (Gone p e.handler) (unwrap (e.jobs p)) _
        (any (unwrap (e.jobs p)))
        (λ s u.
          Guarded-bind Unit (λ t. Unit) (Gone p e.handler)
            (assert (contains_key e.remotes s.parent)) _
            (any (assert (contains_key e.remotes s.parent)))
            (λ v w.
              Guarded-bind Unit (λ t. Unit) (Gone p e.handler) (transport.send e.trans _) _
                (any (transport.send e.trans _)) (λ t x. (rw (==_refl p) refl, refl))))

  cancel_process_keeps :
      (e : Endpoint T StackedRemotes) (h : StackedRemotes) (p q : ℕ)
      → Gone p h e
      → Guarded Unit (Gone p h) (cancel_process transport json e q)
  unfolding cancel_process close_process transmit
  cancel_process_keeps e h p q (g, k) =
      Guarded-bind Unit (λ s. Unit) (Gone p h) (unwrap (e.jobs q)) _ (any (unwrap (e.jobs q)))
        (λ s u.
          Guarded-bind Unit (λ t. Unit) (Gone p h) (assert (contains_key e.remotes s.parent)) _
            (any (assert (contains_key e.remotes s.parent)))
            (λ v w.
              Guarded-bind Unit (λ t. Unit) (Gone p h) (transport.send e.trans _) _
                (any (transport.send e.trans _)) (λ t x. (ground (arith, g), k))))

  cancel_all_keeps :
      (e : Endpoint T StackedRemotes) (h : StackedRemotes) (p : ℕ) (ids : List ℕ)
      → Gone p h e
      → Guarded Unit (Gone p h) (cancel_all transport json e ids)
  unfolding cancel_all
  cancel_all_keeps e h p [] g = g
  cancel_all_keeps e h p (q ∷ ids) g =
      Guarded-bind Unit (Gone p h) (Gone p h) (cancel_process transport json e q) _
        (cancel_process_keeps e h p q g) (λ e₁ g₁. cancel_all_keeps e₁ h p ids g₁)

  first_ctrl_c :
      (handler : EndpointHandler T StackedRemotes) (e : Endpoint T StackedRemotes) (p : ℕ)
      (ids : List ℕ)
      → e.handler.waiting_for_remote ≡ none
      → e.handler.waiting_for ≡ p ∷ ids
      → receive_event transport json handler e ctrl_c ≡ cancel_all transport json e (p ∷ ids)
  unfolding receive_event
  first_ctrl_c handler e p ids r w =
      ap
        (λ o. elim o [ some id ↦ panic | none ↦ cancel_all transport json e e.handler.waiting_for ])
        r
      ∙ ap (cancel_all transport json e) w

  cancel_all-Gone :
      (e : Endpoint T StackedRemotes) (p : ℕ) (ids : List ℕ)
      → Guarded Unit (Gone p e.handler) (cancel_all transport json e (p ∷ ids))
  unfolding cancel_all
  cancel_all-Gone e p ids =
      Guarded-bind Unit (Gone p e.handler) (Gone p e.handler) (cancel_process transport json e p) _
        (cancel_process-Gone e p) (λ e₁ g. cancel_all_keeps e₁ e.handler p ids g)

  cancel_all-panic :
      (e : Endpoint T StackedRemotes) (p : ℕ) (ids : List ℕ)
      → e.jobs p ≡ none
      → cancel_all transport json e (p ∷ ids) ≡ panic
  unfolding cancel_all cancel_process close_process
  cancel_all-panic e p ids g = rw g refl

  -- While a job is waited for, and no remote: after a Ctrl-C that cancels all such jobs, another one
  -- panics.
  pub receive_event_twice-panic :
      (handler : EndpointHandler T StackedRemotes) (e e' : Endpoint T StackedRemotes) (p : ℕ)
      (ids : List ℕ)
      → e.handler.waiting_for_remote ≡ none
      → e.handler.waiting_for ≡ p ∷ ids
      → receive_event transport json handler e ctrl_c ≡ ok e'
      → receive_event transport json handler e' ctrl_c ≡ panic
  receive_event_twice-panic handler e e' p ids r w h =
      let g : Gone p e.handler e' =
        subst (Guarded Unit (Gone p e.handler)) (sym (first_ctrl_c handler e p ids r w) ∙ h)
          (cancel_all-Gone e p ids) in
      first_ctrl_c handler e' p ids (ap (λ x. x.waiting_for_remote) g.1 ∙ r)
        (ap (λ x. x.waiting_for) g.1 ∙ w)
      ∙ cancel_all-panic e' p ids g.0
