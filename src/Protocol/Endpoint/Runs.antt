-- ===== src/Protocol/Endpoint/Runs.antt =====
-- Sequences of calls of an endpoint.
use nak.Base.{
  ℕ, ◌+◌, ◌<◌, ◌==◌, ◌≡◌, refl, ap, sym, subst, ◌≤◌, ◌∙◌, if◌then◌else◌, List, [], ◌∷◌, length,
  Option, none, some, Bytes, Outcome, ok, ◌>>=◌, Safe, arith, Bool-cases, inl, inr, >>=-eq-ok,
}
use nak.Protocol.Ids.{usize_mod}
use nak.Protocol.Endpoint.{Transport, Json, Endpoint, connect}
use nak.Protocol.Endpoint.Calls.{Call, hands_out, accepts, perform}
use nak.Protocol.Endpoint.Tree.{IsTree}
use nak.Protocol.Endpoint.Perform.{Performed, perform-IsTree, perform-refuses}

-- the numbers `n`, `n + 1`, … for as many ids as the calls need
unfoldable pub ids_from : ℕ → List Call → List ℕ
ids_from n [] = []
ids_from n (c ∷ cs) =
    let rest = ids_from (n + hands_out c) cs in if hands_out c == 0 then rest else n ∷ rest

abbrev pub push_id : Option ℕ → List ℕ → List ℕ
push_id none ids = ids
push_id (some id) ids = id ∷ ids

pub connect-IsTree : {T H : Type 0} (trans : T) (handler : H) → IsTree (connect trans handler)
unfolding connect
connect-IsTree trans handler = record {
  remotes_used = λ r h. ground arith;
  jobs_used = λ p h. ground arith;
  pipes_used = λ p h. ground arith;
  root = refl;
  parents = λ r h. ground arith;
}

hands_out_le : (c : Call) → hands_out c ≤ 1
hands_out_le c = ground arith

push_id-ids_from :
    (n n₁ : ℕ) (c : Call) (cs : List Call) (id : Option ℕ)
    → n₁ ≡ n + hands_out c
    → id ≡ (if hands_out c == 0 then none else some n)
    → push_id id (ids_from n₁ cs) ≡ ids_from n (c ∷ cs)
unfolding ids_from
push_id-ids_from n n₁ c cs id h k = elim (Bool-cases (hands_out c == 0)) [
  | inl y ↦ rw k rw h rw y refl
  | inr y ↦ rw k rw h rw y refl
]

ended_at {ℓ} :
    {E : Type ℓ} (e e' : E) (ids ids' : List ℕ)
    → ◌≡◌ {A = Outcome (List ℕ × E)} (ok (ids, e)) (ok (ids', e'))
    → e ≡ e'
ended_at e e' ids ids' h = cc

ids_at {ℓ} :
    {E : Type ℓ} (ids ids' : List ℕ) (e e' : E)
    → ◌≡◌ {A = Outcome (List ℕ × E)} (ok (ids, e)) (ok (ids', e'))
    → ids ≡ ids'
ids_at ids ids' e e' h = cc

module _ {T H : Type 0} (transport : Transport T) (json : Json) where
  unfoldable pub perform_all : Endpoint T H → List Call → Outcome (List ℕ × Endpoint T H)
  perform_all e [] = ok ([], e)
  perform_all e (c ∷ cs) = do
    (id, e₁) ← perform transport json e c
    (ids, e₂) ← perform_all e₁ cs
    ok (push_id id ids, e₂)

module _ {T H : Type 0} (transport : Transport T) (json : Json)
    (sends : (t : T) (line : Bytes) → Safe (λ t'. Unit) (transport.send t line)) where
  performed :
      (e e₁ : Endpoint T H) (c : Call) (id : Option ℕ)
      → IsTree e
      → e.ids.next_id + 1 < usize_mod
      → perform transport json e c ≡ ok (id, e₁)
      → Performed e c (id, e₁)
  performed e e₁ c id i b h = elim (Bool-cases (accepts e c)) [
    | inl y ↦ subst (Safe (Performed e c)) h (perform-IsTree transport json sends e c i b y)
    | inr n ↦ absurd (perform-refuses transport json e c (id, e₁) i n h)
  ]

  -- For a transport that does not panic: a run of calls that succeeds, from an endpoint that satisfies
  -- the invariant and whose ids last for the run, hands out consecutive ids from the next one on, and
  -- the invariant holds after it.
  pub perform_all-IsTree :
      (cs : List Call) (e e' : Endpoint T H) (ids : List ℕ)
      → IsTree e
      → e.ids.next_id + length cs < usize_mod
      → perform_all transport json e cs ≡ ok (ids, e')
      → (ids ≡ ids_from e.ids.next_id cs) × IsTree e'
  unfolding perform_all ids_from
  perform_all-IsTree [] e e' ids i b h = (cc, subst IsTree (ended_at e e' [] ids h) i)
  perform_all-IsTree (c ∷ cs) e e' ids i b h =
      let ((id, e₁), h₁, k) = >>=-eq-ok (perform transport json e c) _ h in
      let ((ids₁, e₂), h₂, k₂) = >>=-eq-ok (perform_all transport json e₁ cs) _ k in
      let (i₁, n, o) = performed e e₁ c id i (omega arith) h₁ in
      let (q, j) = perform_all-IsTree cs e₁ e₂ ids₁ i₁ (omega (arith, hands_out_le c, n, b)) h₂ in
      (
        sym (ids_at (push_id id ids₁) ids e₂ e' k₂)
            ∙ ap (push_id id) q
            ∙ push_id-ids_from e.ids.next_id e₁.ids.next_id c cs id n o,
        subst IsTree (ended_at e₂ e' (push_id id ids₁) ids k₂) j,
      )
