-- ===== src/Recorder/Session/Follows.antt =====
-- Sessions of tools/record on different sinks: code that leaves its state on a sink, beside the same
-- code on the sink in memory.
use nak.Base.{
  ◌≡◌, refl, ap, sym, ◌∙◌, List, [], ◌∷◌, ◌++◌, Outcome, ok, fault, ◌>>=◌, >>=_assoc, >>=_congr,
}
use nak.Recorder.{Entry, Recording, accept_each}
use mathlib.Core.List.{append_assoc}

module _ {R : Type 0} (accept : R → Entry → Outcome R) where
  accept_each-append :
      (x : R) (rs ss : List Entry)
      → accept_each accept x (rs ++ ss) ≡ (accept_each accept x rs >>= λ y. accept_each accept y ss)
  unfolding accept_each
  accept_each-append x [] ss = refl
  accept_each-append x (r ∷ rs) ss =
      >>=_congr (accept x r) _ _ (λ y. accept_each-append y rs ss)
      ∙ sym (>>=_assoc (accept x r) (λ y. accept_each accept y rs) (λ y. accept_each accept y ss))

  -- Where the code on the sink in memory returns: it has added entries, and the code on another sink
  -- is to accept these.
  module _ {A B : Type 0} (records : A → Recording) (swap : A → R → B) where
    abbrev pub Follows : Recording → Outcome A → (R → Outcome B) → Type 0
    Follows before (fault e) other = Unit
    Follows before (ok a) other =
        (added : Recording) × (records a ≡ before ++ added)
        × ((x : R) → other x ≡ (accept_each accept x added >>= λ y. ok (swap a y)))

  pub Follows-bind :
      {A B C D : Type 0} (records : A → Recording) (swap : A → R → B) (records' : C → Recording)
      (swap' : C → R → D) (before : Recording) (m : Outcome A) (other : R → Outcome B)
      (f : A → Outcome C) (g : B → Outcome D)
      → Follows records swap before m other
      → ((a : A) → Follows records' swap' (records a) (f a) (λ x. g (swap a x)))
      → Follows records' swap' before (m >>= f) (λ x. other x >>= g)
  Follows-bind records swap records' swap' before (fault e) other f g h k = tt
  Follows-bind records swap records' swap' before (ok a) other f g (added, e, h) k =
      rest (f a) (k a)
    where
      rest :
          (n : Outcome _)
          → Follows records' swap' (records a) n (λ x. g (swap a x))
          → Follows records' swap' before n (λ x. other x >>= g)
      rest (fault z) l = tt
      rest (ok c) (more, e', l) = (
        added ++ more,
        e' ∙ ap (λ u. u ++ more) e ∙ append_assoc before added more,
        λ x.
            ap (λ u. u >>= g) (h x)
            ∙ >>=_assoc (accept_each accept x added) (λ y. ok (swap a y)) g
            ∙ >>=_congr (accept_each accept x added) _ _ (λ y. l y)
            ∙ sym (
                >>=_assoc (accept_each accept x added) (λ y. accept_each accept y more)
                  (λ z. ok (swap' c z)))
            ∙ sym (ap (λ u. u >>= λ z. ok (swap' c z)) (accept_each-append x added more)),
      )

  -- the code adds one entry
  pub one :
      {B : Type 0} (x : R) (r : Entry) (k : R → Outcome B)
      → (accept x r >>= k) ≡ (accept_each accept x (r ∷ []) >>= k)
  unfolding accept_each
  one x r k = sym (>>=_assoc (accept x r) (λ y. ok y) k)

  pub Follows-accept :
      {A B : Type 0} (records : A → Recording) (swap : A → R → B) (entry : Entry) (m : Outcome A)
      (other : R → Outcome B)
      → Follows records swap (entry ∷ []) m other
      → Follows records swap [] m (λ x. accept x entry >>= other)
  unfolding accept_each
  Follows-accept records swap entry (fault z) other h = tt
  Follows-accept records swap entry (ok a) other (added, e, h) = (
    entry ∷ added,
    e,
    λ x.
        >>=_congr (accept x entry) _ _ h
        ∙ sym (>>=_assoc (accept x entry) (λ y. accept_each accept y added) (λ y. ok (swap a y))),
  )

  pub Follows-ok :
      {A B : Type 0} (records : A → Recording) (swap : A → R → B) (m : Outcome A)
      (other : R → Outcome B) (a : A)
      → Follows records swap [] m other
      → m ≡ ok a
      → (x : R) → other x ≡ (accept_each accept x (records a) >>= λ y. ok (swap a y))
  Follows-ok records swap (fault z) other a h e x = cc
  Follows-ok records swap (ok b) other a (added, e', h) e x =
      let same : b ≡ a = cc in rw (← same) rw e' (h x)
