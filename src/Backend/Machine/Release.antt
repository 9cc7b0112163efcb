-- ===== src/Backend/Machine/Release.antt =====
-- One job of the list that `resolve_tasks` walks through, its condition met: it starts or waits on,
-- and the invariant is kept for the rest of the list.
use nak.Base.{
  ℕ, ◌==◌, ◌≡◌, refl, ◌∙◌, Bool, true, false, not, ◌||◌, ◌&&◌, if◌then◌else◌, List, [], ◌∷◌, Option,
  none, some, arith, is_some, remove, Bool-cases, inl, inr, ==_refl, ap-if,
}
use nak.Protocol.{Condition}
use nak.Backend.Machine.{
  Machine, Waiting, Conditions, start_task, find_condition, drop_condition, release,
}
use nak.Backend.Machine.Invariant.{
  find_blocked, HasDistinctKeys, pending, WaitsWell, Inv, find_condition-drop_condition,
  HasDistinctKeys-drop_condition,
}

abbrev pub with_list :
    (ℕ → List (Condition × ℕ)) → ℕ → List (Condition × ℕ) → ℕ → List (Condition × ℕ)
with_list blocked pid bs q = if pid == q then bs else blocked q

abbrev pub is_nil {ℓ} : {A : Type ℓ} → List A → Bool
is_nil [] = true
is_nil (x ∷ xs) = false

module _ {Cmd : Type 0} where
  -- what is left of a waiting job: none where it starts
  abbrev pub kept : Cmd → Conditions → Option (Waiting Cmd)
  kept cmd [] = none
  kept cmd (c ∷ cs) = some (record { cmd = cmd; conditions = c ∷ cs })

  pub pending-kept :
      (cmd : Cmd) (cs : Conditions) (p : ℕ) → pending (kept cmd cs) p ≡ find_condition p cs
  unfolding find_condition
  pending-kept cmd [] p = refl
  pending-kept cmd (c ∷ cs) p = refl

  is_some-kept : (cmd : Cmd) (cs : Conditions) → is_some (kept cmd cs) ≡ not (is_nil cs)
  is_some-kept cmd [] = refl
  is_some-kept cmd (c ∷ cs) = refl

  WaitsWell-kept : (cmd : Cmd) (cs : Conditions) → HasDistinctKeys cs → WaitsWell (kept cmd cs)
  WaitsWell-kept cmd [] d = tt
  WaitsWell-kept cmd (c ∷ cs) d = (d, λ e. cc)

module _ {Cmd State : Type 0} where
  abbrev pub removed : Machine Cmd State → ℕ → Machine Cmd State
  removed m w = record m { waiting_on = remove m.waiting_on w }

  abbrev pub released : Machine Cmd State → ℕ → Cmd → Conditions → Machine Cmd State
  released m w cmd cs = (release (removed m w) w cmd cs).1

  pub released-waiting_on :
      (m : Machine Cmd State) (w : ℕ) (cmd : Cmd) (cs : Conditions) (v : ℕ)
      → (released m w cmd cs).waiting_on v ≡ (if w == v then kept cmd cs else m.waiting_on v)
  unfolding release
  released-waiting_on m w cmd [] v = refl
  released-waiting_on m w cmd (c ∷ cs) v = elim (Bool-cases (w == v)) [
    | inl e ↦ rw e refl
    | inr e ↦ rw e refl
  ]

  pub released-to_run :
      (m : Machine Cmd State) (w : ℕ) (cmd : Cmd) (cs : Conditions) (v : ℕ)
      → (released m w cmd cs).to_run v ≡ (m.to_run v || (w == v && is_nil cs))
  unfolding release
  released-to_run m w cmd [] v = ground arith
  released-to_run m w cmd (c ∷ cs) v = ground arith

  pub released-finished :
      (m : Machine Cmd State) (w : ℕ) (cmd : Cmd) (cs : Conditions)
      → (released m w cmd cs).finished ≡ m.finished
  unfolding release
  released-finished m w cmd [] = refl
  released-finished m w cmd (c ∷ cs) = refl

  pub released-running :
      (m : Machine Cmd State) (w : ℕ) (cmd : Cmd) (cs : Conditions)
      → (released m w cmd cs).running ≡ m.running
  unfolding release
  released-running m w cmd [] = refl
  released-running m w cmd (c ∷ cs) = refl

  pub released-lists :
      (m : Machine Cmd State) (w : ℕ) (cmd : Cmd) (cs : Conditions)
      → (released m w cmd cs).check_on_completed ≡ m.check_on_completed
  unfolding release
  released-lists m w cmd [] = refl
  released-lists m w cmd (c ∷ cs) = refl

  pub released-tasks :
      (m : Machine Cmd State) (w : ℕ) (cmd : Cmd) (cs : Conditions)
      → (release (removed m w) w cmd cs).0 ≡ (if is_nil cs then start_task w cmd ∷ [] else [])
  unfolding release
  released-tasks m w cmd [] = refl
  released-tasks m w cmd (c ∷ cs) = refl

  pending-released :
      (m : Machine Cmd State) (w : ℕ) (cmd : Cmd) (cs : Conditions) (v p : ℕ)
      → pending ((released m w cmd cs).waiting_on v) p
        ≡ (if w == v then find_condition p cs else pending (m.waiting_on v) p)
  pending-released m w cmd cs v p = rw (released-waiting_on m w cmd cs v) (
      ap-if (λ o. pending o p) (w == v) (kept cmd cs) (m.waiting_on v)
      ∙ rw (pending-kept cmd cs p) refl)

  is_some-released :
      (m : Machine Cmd State) (w : ℕ) (cmd : Cmd) (cs : Conditions) (v : ℕ)
      → is_some ((released m w cmd cs).waiting_on v)
        ≡ (if w == v then not (is_nil cs) else is_some (m.waiting_on v))
  is_some-released m w cmd cs v =
      rw (released-waiting_on m w cmd cs v)
        (ap-if is_some (w == v) (kept cmd cs) (m.waiting_on v) ∙ rw (is_some-kept cmd cs) refl)

  -- One job of the list is released: the rest of the list is what the ended job is still to be
  -- checked for.
  pub release-Inv :
      (m : Machine Cmd State) (blocked : ℕ → List (Condition × ℕ)) (pid w : ℕ) (c : Condition)
      (bs : List (Condition × ℕ)) (waiting : Waiting Cmd)
      → Inv m (with_list blocked pid ((c, w) ∷ bs)) (λ q. pid == q)
      → m.waiting_on w ≡ some waiting
      → Inv
          (released m w waiting.cmd (drop_condition pid waiting.conditions))
          (with_list blocked pid bs)
          (λ q. pid == q)
  unfolding find_blocked
  release-Inv m blocked pid w c bs waiting I e =
      let cs = drop_condition pid waiting.conditions in
      let well : WaitsWell (some waiting) = rw e at (I.waits_well w) in
      record {
        exclusive = λ p. rw (released-finished m w waiting.cmd cs) (
            rw (released-running m w waiting.cmd cs) (
              rw (released-to_run m w waiting.cmd cs p)
                (rw (is_some-released m w waiting.cmd cs p) (ground (arith, I.exclusive p, e)))));
        mirror = λ p v. rw (pending-released m w waiting.cmd cs v p) (
            rw (find_condition-drop_condition pid p waiting.conditions well.0) (
              rw (ap-if (find_blocked v) (pid == p) bs (blocked p)) (
                ground (
                  arith,
                  ap-if (find_blocked v) (pid == p) ((c, w) ∷ bs) (blocked p),
                  I.mirror p v,
                  e,
                  (rw (==_refl pid) at (I.distinct_jobs pid)).0,
                ))));
        live = λ p v {c = c'} h k.
            let before : pending (m.waiting_on v) p ≡ some c' = ground (
              arith,
              pending-released m w waiting.cmd cs v p,
              find_condition-drop_condition pid p waiting.conditions well.0,
              e,
              h,
            ) in
            rw (released-running m w waiting.cmd cs) (
              rw (released-to_run m w waiting.cmd cs p)
                (rw (is_some-released m w waiting.cmd cs p) (ground (arith, I.live p v before k))));
        distinct_jobs = λ p. elim (Bool-cases (pid == p)) [
          | inl y ↦ rw y (rw y at (I.distinct_jobs p)).1
          | inr n ↦ rw n (rw n at (I.distinct_jobs p))
        ];
        waits_well = λ v.
            rw (released-waiting_on m w waiting.cmd cs v) (elim (Bool-cases (w == v)) [
              | inl y ↦ rw y (
                  WaitsWell-kept waiting.cmd cs
                    (HasDistinctKeys-drop_condition pid waiting.conditions well.0))
              | inr n ↦ rw n (I.waits_well v)
            ]);
      }
