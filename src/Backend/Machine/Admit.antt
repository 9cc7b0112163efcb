-- ===== src/Backend/Machine/Admit.antt =====
-- The last part of `enqueue`: a new job starts, or is registered with the jobs that it waits for,
-- and the machine stays well-formed.
use nak.Base.{
  ℕ, ◌==◌, ◌≡◌, refl, ap, ◌∙◌, true, false, if◌then◌else◌, List, [], ◌∷◌, ◌++◌, Option, none, some,
  arith, contains_key-insert, Map, insert, Bool-cases, Option-cases, inl, inr, ap-if, All,
}
use nak.Protocol.{Condition}
use nak.Backend.Machine.{
  Machine, Waiting, Conditions, find_condition, blocked_list, is_live, is_known, push_blocks, admit,
}
use nak.Backend.Machine.Invariant.{find_blocked, HasDistinctJobs, HasDistinctKeys, pending, IsWell}

abbrev or_else {ℓ} : {A : Type ℓ} → Option A → Option A → Option A
or_else none o = o
or_else (some a) o = some a

find_blocked-append :
    (v w : ℕ) (c : Condition) (xs : List (Condition × ℕ))
    → find_blocked v (xs ++ (c, w) ∷ [])
      ≡ or_else (find_blocked v xs) (if w == v then some c else none)
unfolding find_blocked
find_blocked-append v w c [] = refl
find_blocked-append v w c ((d, u) ∷ xs) = ground (arith, find_blocked-append v w c xs)

HasDistinctJobs-append :
    (w : ℕ) (c : Condition) (xs : List (Condition × ℕ))
    → HasDistinctJobs xs
    → find_blocked w xs ≡ none
    → HasDistinctJobs (xs ++ (c, w) ∷ [])
unfolding find_blocked
HasDistinctJobs-append w c [] d h = (refl, tt)
HasDistinctJobs-append w c ((e, u) ∷ xs) d h = elim (Bool-cases (u == w)) [
  | inl y ↦ absurd (cc (rw y at h))
  | inr n ↦ (
    rw (find_blocked-append u w c xs) (ground (arith, d.0)),
    HasDistinctJobs-append w c xs d.1 (rw n at h),
  )
]

blocked_list-insert :
    (coc : Map (List (Condition × ℕ))) (p q : ℕ) (bs : List (Condition × ℕ))
    → blocked_list (insert coc p bs q) ≡ (if p == q then bs else blocked_list (coc q))
blocked_list-insert coc p q bs = ap-if blocked_list (p == q) (some bs) (coc q)

find_blocked-push_blocks :
    (w : ℕ) (cs : Conditions) (coc : Map (List (Condition × ℕ))) (q v : ℕ)
    → find_blocked v (blocked_list (push_blocks w cs coc q))
      ≡ or_else
          (find_blocked v (blocked_list (coc q)))
          (if w == v then find_condition q cs else none)
unfolding push_blocks find_condition
find_blocked-push_blocks w [] coc q v =
    ground (arith, Option-cases (find_blocked v (blocked_list (coc q))))
find_blocked-push_blocks w ((p, c) ∷ cs) coc q v =
    find_blocked-push_blocks w cs (insert coc p (blocked_list (coc p) ++ (c, w) ∷ [])) q v
    ∙ ap (λ x. or_else (find_blocked v x) (if w == v then find_condition q cs else none))
        (blocked_list-insert coc p q (blocked_list (coc p) ++ (c, w) ∷ []))
    ∙ ground (
      arith,
      find_blocked-append v w c (blocked_list (coc q)),
      Option-cases (find_blocked v (blocked_list (coc q))),
    )

push_blocks-HasDistinctJobs :
    (w : ℕ) (cs : Conditions) (coc : Map (List (Condition × ℕ)))
    → HasDistinctKeys cs
    → ((q : ℕ) → HasDistinctJobs (blocked_list (coc q)))
    → ((q : ℕ) (c : Condition)
        → find_condition q cs ≡ some c
        → find_blocked w (blocked_list (coc q)) ≡ none)
    → (q : ℕ) → HasDistinctJobs (blocked_list (push_blocks w cs coc q))
unfolding push_blocks find_condition
push_blocks-HasDistinctJobs w [] coc k d n q = d q
push_blocks-HasDistinctJobs w ((p, c) ∷ cs) coc k d n q =
    push_blocks-HasDistinctJobs w cs (insert coc p (blocked_list (coc p) ++ (c, w) ∷ [])) k.1
      (λ r. elim (Bool-cases (p == r)) [
        | inl y ↦
            rw (blocked_list-insert coc p r (blocked_list (coc p) ++ (c, w) ∷ [])) rw y
              (HasDistinctJobs-append w c (blocked_list (coc p)) (d p) (n p c (ground arith)))
        | inr e ↦ rw (blocked_list-insert coc p r (blocked_list (coc p) ++ (c, w) ∷ [])) rw e (d r)
      ])
      (λ r e h. elim (Bool-cases (p == r)) [
        | inl y ↦ absurd (ground (arith, k.0))
        | inr o ↦
            rw (blocked_list-insert coc p r (blocked_list (coc p) ++ (c, w) ∷ [])) rw o
              (n r e (rw o h))
      ])
      q

module _ {Cmd State : Type 0} where
  abbrev pub AllKnown : Machine Cmd State → Conditions → Type 0
  AllKnown m bs = All (λ b. is_known m b.0 ≡ true) bs

  pub admit-[]-IsWell :
      (m : Machine Cmd State) (w : ℕ) (cmd : Cmd)
      → IsWell m
      → is_known m w ≡ false
      → IsWell (admit m w cmd (some [])).1
  unfolding admit
  admit-[]-IsWell m w cmd i k = record {
    exclusive = λ p. elim (Bool-cases (w == p)) [
      | inl y ↦ ground (arith, i.exclusive p)
      | inr n ↦ ground (arith, i.exclusive p)
    ];
    mirror = i.mirror;
    live = λ p v h e. ground (arith, i.live p v h e);
    distinct_jobs = i.distinct_jobs;
    waits_well = i.waits_well;
  }

  pub admit-∷-IsWell :
      (m : Machine Cmd State) (w : ℕ) (cmd : Cmd) (b : ℕ × Condition) (bs : Conditions)
      → IsWell m
      → is_known m w ≡ false
      → HasDistinctKeys (b ∷ bs)
      → ((p : ℕ) (c : Condition) → find_condition p (b ∷ bs) ≡ some c → is_live m p ≡ true)
      → IsWell (admit m w cmd (some (b ∷ bs))).1
  unfolding admit
  admit-∷-IsWell m w cmd b bs i k d l =
      let free : m.waiting_on w ≡ none = ground (arith, Option-cases (m.waiting_on w)) in
      let waiting : Waiting Cmd = record { cmd = cmd; conditions = b ∷ bs } in
      let pending_at : (p v : ℕ)
          → pending (insert m.waiting_on w waiting v) p
            ≡ (if w == v then find_condition p (b ∷ bs) else pending (m.waiting_on v) p) =
        λ p v. ap-if (λ o. pending o p) (w == v) (some waiting) (m.waiting_on v) in
      record {
        exclusive =
            λ p. ground (arith, i.exclusive p, contains_key-insert m.waiting_on w waiting p);
        mirror = λ p v.
            find_blocked-push_blocks w (b ∷ bs) m.check_on_completed p v
            ∙ ground (
              arith,
              pending_at p v,
              i.mirror p v,
              free,
              Option-cases (pending (m.waiting_on v) p),
            );
        live = λ p v {c = c} h e. ground (
          arith,
          pending_at p v,
          contains_key-insert m.waiting_on w waiting p,
          i.live p v {c = c},
          l p c,
          h,
        );
        distinct_jobs =
            push_blocks-HasDistinctJobs w (b ∷ bs) m.check_on_completed d i.distinct_jobs
              (λ q c h. i.mirror q w ∙ rw free refl);
        waits_well = λ v. elim (Bool-cases (w == v)) [
          | inl y ↦ rw y (d, λ e. cc)
          | inr n ↦ rw n (i.waits_well v)
        ];
      }
