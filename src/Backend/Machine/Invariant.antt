-- ===== src/Backend/Machine/Invariant.antt =====
-- The invariant of the machine: a job is in one phase at most, and the list of jobs to check when a
-- job ends mirrors the conditions of the jobs that wait for it.
use nak.Base.{
  ℕ, ◌+◌, ◌≤◌, ◌==◌, ◌≡◌, ◌≢◌, refl, Bool, true, false, if◌then◌else◌, List, [], ◌∷◌, Option,
  Bool-cases, inl, inr, ◌∙◌, none, some, arith, contains_key,
}
use nak.Protocol.{Condition}
use nak.Backend.Machine.{
  Machine, Waiting, Conditions, find_condition, drop_condition, blocked_list, is_live, new,
}

-- the condition that the job `w` has in a list of blocked jobs
unfoldable pub find_blocked : ℕ → List (Condition × ℕ) → Option Condition
find_blocked w [] = none
find_blocked w ((c, v) ∷ bs) = if v == w then some c else find_blocked w bs

abbrev pub HasDistinctJobs : List (Condition × ℕ) → Type 0
HasDistinctJobs [] = Unit
HasDistinctJobs ((c, w) ∷ bs) = (find_blocked w bs ≡ none) × HasDistinctJobs bs

abbrev pub HasDistinctKeys : Conditions → Type 0
HasDistinctKeys [] = Unit
HasDistinctKeys ((p, c) ∷ cs) = (find_condition p cs ≡ none) × HasDistinctKeys cs

abbrev pub none_ended : ℕ → Bool
none_ended p = false

abbrev pub bit : Bool → ℕ
bit true = 1
bit false = 0

module _ {Cmd : Type 0} where
  -- the condition that a waiting job, if it is one, has on the job `p`
  abbrev pub pending : Option (Waiting Cmd) → ℕ → Option Condition
  pending none p = none
  pending (some w) p = find_condition p w.conditions

  abbrev pub WaitsWell : Option (Waiting Cmd) → Type 0
  WaitsWell none = Unit
  WaitsWell (some w) = HasDistinctKeys w.conditions × (w.conditions ≢ [])

module _ {Cmd State : Type 0} where
  -- in how many phases a job is
  abbrev pub phases : Machine Cmd State → ℕ → ℕ
  phases m p =
      bit (contains_key m.finished p)
      + bit (m.to_run p)
      + bit (contains_key m.running p)
      + bit (contains_key m.waiting_on p)

  -- `blocked p` are the jobs that the end of `p` is to be checked for; `ended` are the jobs whose end
  -- is being handled.
  pub record Inv (m : Machine Cmd State) (blocked : ℕ → List (Condition × ℕ)) (ended : ℕ → Bool)
      : Type 0 where
    pub exclusive : (p : ℕ) → phases m p ≤ 1
    pub mirror : (p w : ℕ) → find_blocked w (blocked p) ≡ pending (m.waiting_on w) p
    pub live :
        (p w : ℕ) {c : Condition}
        → pending (m.waiting_on w) p ≡ some c
        → ended p ≡ false
        → is_live m p ≡ true
    pub distinct_jobs : (p : ℕ) → HasDistinctJobs (blocked p)
    pub waits_well : (w : ℕ) → WaitsWell (m.waiting_on w)

  abbrev pub blocked_by : Machine Cmd State → ℕ → List (Condition × ℕ)
  blocked_by m p = blocked_list (m.check_on_completed p)

  abbrev pub IsWell : Machine Cmd State → Type 0
  IsWell m = Inv m (blocked_by m) none_ended

  pub new-IsWell : IsWell new
  unfolding new find_blocked
  new-IsWell = record {
    exclusive = λ p. omega arith;
    mirror = λ p w. refl;
    live = λ p w h e. cc;
    distinct_jobs = λ p. tt;
    waits_well = λ w. tt;
  }

-- What `drop_condition` leaves.
pub find_condition-drop_condition :
    (p q : ℕ) (cs : Conditions)
    → HasDistinctKeys cs
    → find_condition q (drop_condition p cs) ≡ (if p == q then none else find_condition q cs)
unfolding find_condition drop_condition
find_condition-drop_condition p q [] d = ground arith
find_condition-drop_condition p q ((k, c) ∷ cs) d =
    ground (arith, find_condition-drop_condition p q cs d.1)

pub HasDistinctKeys-drop_condition :
    (p : ℕ) (cs : Conditions) → HasDistinctKeys cs → HasDistinctKeys (drop_condition p cs)
unfolding drop_condition
HasDistinctKeys-drop_condition p [] d = tt
HasDistinctKeys-drop_condition p ((k, c) ∷ cs) d = elim (Bool-cases (k == p)) [
  | inl e ↦ rw e d.1
  | inr e ↦ rw e (
    find_condition-drop_condition p k cs d.1 ∙ ground (arith, d.0),
    HasDistinctKeys-drop_condition p cs d.1,
  )
]
