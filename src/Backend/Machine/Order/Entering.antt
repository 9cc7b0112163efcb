-- ===== src/Backend/Machine/Order/Entering.antt =====
-- `enqueue`: a job that enters the machine comes after all that the machine knows.
use nak.Base.{
  >>=-eq-ok, ℕ, suc, ◌==◌, ◌≡◌, refl, true, false, if◌then◌else◌, [], ◌∷◌, Option, none, some,
  arith, ok, Yields, Outcome-cases, eq_or_ne, Bool-cases, Option-cases, inl, inr,
}
use nak.Backend.Machine.{
  Machine, Conditions, find_condition, is_live, is_known, is_unmet, check_blocks, admit, enqueue,
}
use nak.Backend.Machine.Invariant.{HasDistinctKeys, pending}
use nak.Backend.Machine.Admit.{AllKnown}
use nak.Backend.Machine.Enqueue.{
  AreLeft, AllKnown-find_condition, check_blocks-AreLeft, admit-Enqueued,
}
use nak.Backend.Machine.Order.{Reached}

module _ {Cmd State : Type 0} where
  check_blocks-some-AllKnown :
      (m : Machine Cmd State) (bs still : Conditions)
      → check_blocks m bs ≡ ok (some still)
      → AllKnown m bs
  unfolding check_blocks
  check_blocks-some-AllKnown m [] still h = tt
  check_blocks-some-AllKnown m ((p, c) ∷ bs) still h = elim (Option-cases (m.finished p)) [
    | inr (exit, e) ↦
        let h₁ = rw (e, check_blocks) at h in
        elim (Bool-cases (is_unmet c exit)) [
          | inl y ↦ absurd (cc (rw y at h₁))
          | inr n ↦ (ground (arith, e), check_blocks-some-AllKnown m bs still (rw n at h₁))
        ]
    | inl e ↦
        let h₁ = rw (e, check_blocks) at h in
        elim (Bool-cases (is_live m p)) [
          | inr n ↦ absurd (cc (rw n at h₁))
          | inl l ↦
              let (x, first, rest) = >>=-eq-ok (check_blocks m bs) _ (rw l at h₁) in
              elim (Option-cases x) [
                | inl none_left ↦ absurd (cc (rw none_left at rest))
                | inr (others, some_left) ↦ (
                  ground (arith, l),
                  check_blocks-some-AllKnown m bs others (rw some_left at first),
                )
              ]
        ]
  ]

  known_ne :
      (m : Machine Cmd State) (w p : ℕ)
      → is_known m w ≡ false
      → is_known m p ≡ true
      → (w == p) ≡ false
  known_ne m w p k h = elim (eq_or_ne w p) [ inl e ↦ absurd cc | inr n ↦ n ]

  pending-admit :
      (m : Machine Cmd State) (w : ℕ) (cmd : Cmd) (still : Conditions) (v p : ℕ)
      → is_known m w ≡ false
      → pending ((admit m w cmd (some still)).1.waiting_on v) p
        ≡ (if w == v then find_condition p still else pending (m.waiting_on v) p)
  unfolding admit find_condition
  pending-admit m w cmd [] v p k = elim (eq_or_ne w v) [
    | inl e ↦ elim (Option-cases (m.waiting_on v)) [
      | inl n ↦ rw n ground (arith, e)
      | inr (waiting, f) ↦ absurd (ground (arith, rw e at k, f))
    ]
    | inr n ↦ rw n refl
  ]
  pending-admit m w cmd (b ∷ still) v p k = elim (Bool-cases (w == v)) [
    | inl y ↦ rw y refl
    | inr n ↦ rw n refl
  ]

  known-admit :
      (m : Machine Cmd State) (w : ℕ) (cmd : Cmd) (still : Conditions) (p : ℕ)
      → (w == p) ≡ false
      → is_known ((admit m w cmd (some still)).1) p ≡ is_known m p
  unfolding admit
  known-admit m w cmd [] p n = rw n refl
  known-admit m w cmd (b ∷ still) p n = rw n refl

  -- The job `w`, which the machine does not know, enters it last.
  admit-Reached :
      (m : Machine Cmd State) (w : ℕ) (cmd : Cmd) (bs : Conditions) (o : Option Conditions)
      → Reached m
      → is_known m w ≡ false
      → AllKnown m bs
      → AreLeft m bs o
      → Reached ((admit m w cmd o).1)
  admit-Reached m w cmd bs none R k a l = unfold admit in R
  admit-Reached m w cmd bs (some still) R k a l = record {
    well = (admit-Enqueued m w cmd bs (some still) R.well k a l).0;
    rank = λ v. if w == v then R.bound else R.rank v;
    bound = suc R.bound;
    earlier = λ p v c h.
        let h₁ = rw (pending-admit m w cmd still v p k) at h in
        elim (Bool-cases (w == v)) [
          | inl y ↦
              let known = AllKnown-find_condition m bs p c a (ground (arith, rw y at h₁, l.1 p)) in
              rw y rw (known_ne m w p k known) (R.below p known)
          | inr n ↦
              let h₂ = rw n at h₁ in
              let known : is_known m p ≡ true = ground (arith, R.well.live p v {c = c} h₂ refl) in
              rw n rw (known_ne m w p k known) (R.earlier p v c h₂)
        ];
    below = λ p h. elim (Bool-cases (w == p)) [
      | inl y ↦ rw y omega arith
      | inr n ↦ let b = R.below p (rw (known-admit m w cmd still p n) at h) in rw n omega (arith, b)
    ];
  }

  pub enqueue-Reached :
      (m : Machine Cmd State) (w : ℕ) (cmd : Cmd) (block_for : Conditions)
      → HasDistinctKeys block_for
      → Reached m
      → Yields (λ r. Reached r.1) (enqueue m w cmd block_for)
  unfolding enqueue
  enqueue-Reached m w cmd block_for d R = elim (Bool-cases (is_known m w)) [
    | inl y ↦ rw y tt
    | inr k ↦ rw k (elim (Outcome-cases (check_blocks m block_for)) [
      | inr (x, e) ↦ rw e tt
      | inl (none, e) ↦ rw e (unfold admit in R)
      | inl (some still, e) ↦
          let a = check_blocks-some-AllKnown m block_for still e in
          rw e (
            admit-Reached m w cmd block_for (some still) R k a
              (rw e at (check_blocks-AreLeft m block_for a d)))
    ])
  ]
