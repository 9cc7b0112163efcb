-- ===== src/Recorder/Session/OnDisk.antt =====
-- Sessions of tools/record on different sinks: the one that is kept in memory decides.
use nak.Base.{
  ◌≡◌, refl, sym, ◌&&◌, ◌||◌, Bool, true, false, List, [], ◌∷◌, Bytes, Outcome, ok, ◌>>=◌,
  Outcome-cases, Bool-cases, inl, inr,
}
use nak.Recorder.{Attrs, attrs_eq, input, output, config, Entry, Recording, accept_each}
use nak.Recorder.Session.Follows.{Follows, Follows-bind, Follows-accept, Follows-ok, one}
use nak.Recorder.Piper.{new, pipe_some}
use nak.Recorder.Session.{
  Round, Session, is_pending, push, check_config, copy_input, copy_output, record_round,
  record_loop, record_session,
}
use mathlib.Core.List.{append-nil}

-- the same session on another sink
abbrev pub on_sink : {R : Type 0} → Session Recording → R → Session R
on_sink s x = record {
  current = s.current;
  to_program = s.to_program;
  to_terminal = s.to_terminal;
  sink = x;
}

module _ {R : Type 0} (accept : R → Entry → Outcome R) where
  abbrev sink_of : Session Recording → Recording
  sink_of s = s.sink

  abbrev sink_behind : Bool × Session Recording → Recording
  sink_behind (b, s) = s.sink

  abbrev on_sink_behind : Bool × Session Recording → R → Bool × Session R
  on_sink_behind (b, s) x = (b, on_sink s x)

  module _ (stale : Bytes) where
    check_config-Follows :
        (r : Round) (s : Session Recording)
        → Follows accept sink_of on_sink s.sink
            (check_config stale push r s)
            (λ x. check_config stale accept r (on_sink s x))
    unfolding check_config accept_each
    check_config-Follows r s = elim (Bool-cases (attrs_eq r.attrs s.current)) [
      | inl e ↦ rw (e, check_config) ([], sym (append-nil s.sink), λ x. refl)
      | inr e ↦
          let entry : Entry = record { ts = r.config_ts; event = config r.attrs } in
          rw (e, check_config) (entry ∷ [], refl, λ x. one accept x entry _)
    ]

    copy_input-Follows :
        (r : Round) (s : Session Recording)
        → Follows accept sink_of on_sink s.sink
            (copy_input stale push r s)
            (λ x. copy_input stale accept r (on_sink s x))
    unfolding copy_input accept_each
    copy_input-Follows r s =
        elim (Bool-cases (r.stdin_readable || (is_pending s.to_program && r.master_writable))) [
          | inr e ↦ rw (e, copy_input) ([], sym (append-nil s.sink), λ x. refl)
          | inl e ↦
              elim (Outcome-cases (pipe_some stale r.input_reads r.input_writes s.to_program)) [
                | inr (z, f) ↦ rw (e, copy_input) rw f tt
                | inl (d, f) ↦ elim (Bool-cases d.eof) [
                  | inl g ↦ rw (e, copy_input) rw f rw g tt
                  | inr g ↦
                      let entry : Entry = record { ts = r.input_ts; event = input d.chunk } in
                      rw (e, copy_input) rw f rw g (entry ∷ [], refl, λ x. one accept x entry _)
                ]
              ]
        ]

    copy_output-Follows :
        (r : Round) (s : Session Recording)
        → Follows accept sink_behind on_sink_behind s.sink
            (copy_output stale push r s)
            (λ x. copy_output stale accept r (on_sink s x))
    unfolding copy_output accept_each
    copy_output-Follows r s =
        elim (Bool-cases (r.master_readable || (is_pending s.to_terminal && r.stdout_writable))) [
          | inr e ↦ rw (e, copy_output) ([], sym (append-nil s.sink), λ x. refl)
          | inl e ↦
              elim (Outcome-cases (pipe_some stale r.output_reads r.output_writes s.to_terminal)) [
                | inr (z, f) ↦ rw (e, copy_output) rw f tt
                | inl (d, f) ↦
                    let entry : Entry = record { ts = r.output_ts; event = output d.chunk } in
                    rw (e, copy_output) rw f (entry ∷ [], refl, λ x. one accept x entry _)
              ]
        ]

    record_round-Follows :
        (r : Round) (s : Session Recording)
        → Follows accept sink_behind on_sink_behind s.sink
            (record_round stale push r s)
            (λ x. record_round stale accept r (on_sink s x))
    unfolding record_round
    record_round-Follows r s =
        Follows-bind accept sink_of on_sink sink_behind on_sink_behind s.sink
          (check_config stale push r s) (λ x. check_config stale accept r (on_sink s x)) _ _
          (check_config-Follows r s)
          λ s₁.
            Follows-bind accept sink_of on_sink sink_behind on_sink_behind s₁.sink
              (copy_input stale push r s₁) (λ x. copy_input stale accept r (on_sink s₁ x)) _ _
              (copy_input-Follows r s₁) λ s₂. copy_output-Follows r s₂

    next_round-Follows :
        (rs : List Round) (ended : Bool) (s : Session Recording)
        → Follows accept sink_behind on_sink_behind s.sink
            (record_loop stale push rs s)
            (λ x. record_loop stale accept rs (on_sink s x))
        → Follows accept sink_behind on_sink_behind s.sink
            (elim ended [ true ↦ ok (true, s) | false ↦ record_loop stale push rs s ])
            (λ x. elim ended [
              | true ↦ ok (true, on_sink s x)
              | false ↦ record_loop stale accept rs (on_sink s x)
            ])
    unfolding accept_each
    next_round-Follows rs true s h = ([], sym (append-nil s.sink), λ x. refl)
    next_round-Follows rs false s h = h

    record_loop-Follows :
        (rs : List Round) (s : Session Recording)
        → Follows accept sink_behind on_sink_behind s.sink
            (record_loop stale push rs s)
            (λ x. record_loop stale accept rs (on_sink s x))
    unfolding record_loop accept_each
    record_loop-Follows [] s = ([], sym (append-nil s.sink), λ x. refl)
    record_loop-Follows (r ∷ rs) s =
        Follows-bind accept sink_behind on_sink_behind sink_behind on_sink_behind s.sink
          (record_round stale push r s) (λ x. record_round stale accept r (on_sink s x)) _ _
          (record_round-Follows r s)
          λ (ended, s'). next_round-Follows rs ended s' (record_loop-Follows rs s')

    record_session-Follows :
        (attrs : Attrs) (rs : List Round)
        → Follows accept sink_behind on_sink_behind []
            (record_session stale push attrs rs [])
            (λ x. record_session stale accept attrs rs x)
    unfolding record_session accept_each
    record_session-Follows attrs rs =
        let entry : Entry = record { ts = 0; event = config attrs } in
        let s : Session Recording = record {
          current = attrs;
          to_program = new;
          to_terminal = new;
          sink = entry ∷ [];
        } in
        Follows-accept accept sink_behind on_sink_behind entry (record_loop stale push rs s)
          (λ x. record_loop stale accept rs (on_sink s x)) (record_loop-Follows rs s)

    -- A session on any sink does what it does in memory, where that returns: the same copying, and
    -- its sink is to accept exactly the entries that are recorded in memory, in order.
    pub record_session-on_sink :
        (attrs : Attrs) (rs : List Round) (ended : Bool) (s : Session Recording)
        → record_session stale push attrs rs [] ≡ ok (ended, s)
        → (x : R)
        → record_session stale accept attrs rs x
          ≡ (accept_each accept x s.sink >>= λ y. ok (ended, on_sink s y))
    record_session-on_sink attrs rs ended s e =
        Follows-ok accept sink_behind on_sink_behind (record_session stale push attrs rs []) _
          (ended, s) (record_session-Follows attrs rs) e
