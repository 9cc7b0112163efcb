-- ===== src/Frontend/Run/Rounds.antt =====
-- `remote_run` of frontend/src/main.rs without its count of rounds: a round on an event, and behind
-- it a command line where nothing is waited for.
use nak.Base.{
  ℕ, zero, suc, ◌+◌, ◌*◌, ◌<◌, ◌≤◌, ◌≡◌, refl, sym, ◌∙◌, Bool, true, false, not, List, [], ◌∷◌,
  length, Outcome, ok, ◌>>=◌, Bool-cases, Outcome-cases, inl, inr, arith,
}
use nak.Protocol.Endpoint.{Transport, Json, EndpointHandler}
use nak.Frontend.{StackedRemotes}
use nak.Frontend.Loop.{Event}
use nak.Frontend.Run.{
  Reader, Exec, needs_command, take_command, take_event, run_loop, leave, remote_run,
}
use nak.Frontend.Run.Waits.{take_command-waits}

module _ {T S : Type 0} (transport : Transport T) (json : Json)
    (handler : EndpointHandler T StackedRemotes) (reader : Reader T S) where
  -- a command line, where nothing is waited for: the flag says that the shell ends
  unfoldable pub wake : Exec T S → Outcome (Bool × Exec T S)
  wake s = elim (needs_command s.endpoint.handler) [
    | false ↦ ok (false, s)
    | true ↦ do (goes_on, s') ← take_command transport json handler reader s; ok (not goes_on, s')
  ]

  -- the events, one by one
  unfoldable pub serve : Exec T S → List Event → Outcome (Bool × Exec T S)
  serve s [] = ok (false, s)
  serve s (event ∷ others) = do
    s₁ ← take_event transport json handler reader s event
    (ended, s₂) ← wake s₁
    elim ended [ true ↦ ok (true, s₂) | false ↦ serve s₂ others ]

  abbrev pub wake_and_serve : Exec T S → List Event → Outcome (Bool × Exec T S)
  wake_and_serve s events = do
    (ended, s') ← wake s
    elim ended [ true ↦ ok (true, s') | false ↦ serve s' events ]

  -- where it waits
  run_loop-serve :
      (fuel : ℕ) (s : Exec T S) (events : List Event)
      → needs_command s.endpoint.handler ≡ false
      → ((s' : Exec T S) (others : List Event)
          → length others < length events
          → run_loop transport json handler reader fuel s' others ≡ wake_and_serve s' others)
      → run_loop transport json handler reader (suc fuel) s events ≡ serve s events
  unfolding run_loop serve
  run_loop-serve fuel s [] n h = rw (n, run_loop) refl
  run_loop-serve fuel s (event ∷ others) n h =
      rw (n, run_loop)
        (elim (Outcome-cases (take_event transport json handler reader s event)) [
          | inl (s', e) ↦ rw e (h s' others (omega arith))
          | inr (z, e) ↦ rw e refl
        ])

  -- where it reads a command line
  run_loop-command :
      (fuel : ℕ) (s : Exec T S) (events : List Event)
      → needs_command s.endpoint.handler ≡ true
      → run_loop transport json handler reader (suc fuel) s events ≡ (
          take_command transport json handler reader s >>= λ (goes_on, s'). elim goes_on [
            | true ↦ run_loop transport json handler reader fuel s' events
            | false ↦ ok (true, s')
          ])
  unfolding run_loop
  run_loop-command fuel s events n = rw (n, run_loop) refl

  pub wake-command :
      (s : Exec T S)
      → needs_command s.endpoint.handler ≡ true
      → wake s
        ≡ (take_command transport json handler reader s >>= λ (goes_on, s'). ok (not goes_on, s'))
  unfolding wake
  wake-command s n = rw (n, wake) refl

  pub wake-waiting :
      (s : Exec T S) → needs_command s.endpoint.handler ≡ false → wake s ≡ ok (false, s)
  unfolding wake
  wake-waiting s n = rw (n, wake) refl

  -- behind a command line, by whether the shell goes on
  run_loop-went_on :
      (fuel : ℕ) (events : List Event) (goes_on : Bool) (s : Exec T S)
      → (goes_on ≡ true → run_loop transport json handler reader fuel s events ≡ serve s events)
      → ◌≡◌ {A = Outcome (Bool × Exec T S)}
          (elim goes_on [
            | true ↦ run_loop transport json handler reader fuel s events
            | false ↦ ok (true, s)
          ])
          (elim (not goes_on) [ true ↦ ok (true, s) | false ↦ serve s events ])
  run_loop-went_on fuel events true s h = h refl
  run_loop-went_on fuel events false s h = refl

  run_loop-wake_and_serve :
      (fuel : ℕ) (s : Exec T S) (events : List Event)
      → length events * 2 + 2 ≤ fuel
      → run_loop transport json handler reader fuel s events ≡ wake_and_serve s events
  run_loop-wake_and_serve zero s events f = absurd (omega arith)
  run_loop-wake_and_serve (suc zero) s events f = absurd (omega arith)
  run_loop-wake_and_serve (suc (suc fuel)) s events f =
      elim (Bool-cases (needs_command s.endpoint.handler)) [
        | inr n ↦
            run_loop-serve (suc fuel) s events n
              (λ s' others l. run_loop-wake_and_serve (suc fuel) s' others (omega arith))
            ∙ sym (rw (wake-waiting s n) refl)
        | inl n ↦
            rw (run_loop-command (suc fuel) s events n) rw (wake-command s n)
              (elim (Outcome-cases (take_command transport json handler reader s)) [
                | inr (z, e) ↦ rw e refl
                | inl ((goes_on, s'), e) ↦
                    let waits = (rw e at (take_command-waits transport json handler reader s)) in
                    rw e (
                      run_loop-went_on (suc fuel) events goes_on s' (λ g.
                        run_loop-serve fuel s' events (waits g)
                          (λ s'' others l. run_loop-wake_and_serve fuel s'' others (omega arith))))
              ])
      ]

  -- `remote_run` ends on any events, whatever the transport, the handler and the reader do: it does
  -- exactly what the rounds do that are counted by the events alone, a round on each event with at
  -- most one command line behind it, until the shell ends or a call fails. Its own count of rounds,
  -- two for each event and two more, never runs out.
  pub remote_run-wake_and_serve :
      (s : Exec T S) (events : List Event)
      → remote_run transport json handler reader s events
        ≡ (wake_and_serve s events >>= leave transport json handler reader)
  unfolding remote_run
  remote_run-wake_and_serve s events =
      rw (run_loop-wake_and_serve (suc (suc (length events * 2))) s events (omega arith)) refl
