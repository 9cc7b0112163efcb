-- ===== src/Protocol/Endpoint/Tree.antt =====
-- The invariant of an endpoint: every id in use was handed out before, and each remote but the root,
-- remote 0, has a parent with a smaller id.
use nak.Base.{
  ℕ, ◌+◌, ◌<◌, ◌==◌, ◌≡◌, refl, true, false, Option, none, some, Map, NumSet, insert, remove,
  set_insert, contains_key, contains_key-insert, contains_key-remove, arith, Bool-cases, ==_iff,
  inl, inr, ◌⊎◌,
}
use nak.Protocol.{RemoteId, RemoteState, ProcessState}
use nak.Protocol.Endpoint.{Endpoint}

abbrev pub parent_of : Option RemoteState → Option RemoteId
parent_of none = none
parent_of (some s) = s.parent

pub record Tree (n : ℕ) (remotes : Map RemoteState) (jobs : Map ProcessState) (pipes : NumSet)
    : Type 0 where
  pub remotes_used : (r : ℕ) → contains_key remotes r ≡ true → (r ≡ 0) ⊎ (r < n)
  pub jobs_used : (p : ℕ) → contains_key jobs p ≡ true → p < n
  pub pipes_used : (p : ℕ) → pipes p ≡ true → p < n
  pub root : remotes 0 ≡ some (record { parent = none })
  pub parents :
      (r : ℕ)
      → contains_key remotes r ≡ true
      → (r ≡ 0) ⊎ ((q : ℕ) × (parent_of (remotes r) ≡ some q) × (q < r))

abbrev pub IsTree : {T H : Type 0} → Endpoint T H → Type 0
IsTree e = Tree e.ids.next_id e.remotes e.jobs e.pipes

module _ {n : ℕ} {remotes : Map RemoteState} {jobs : Map ProcessState} {pipes : NumSet}
    (i : Tree n remotes jobs pipes) where
  pub grow-Tree : Tree (n + 1) remotes jobs pipes
  grow-Tree = record {
    remotes_used = λ r h. ground (arith, i.remotes_used r h);
    jobs_used = λ p h. ground (arith, i.jobs_used p h);
    pipes_used = λ p h. ground (arith, i.pipes_used p h);
    root = i.root;
    parents = i.parents;
  }

  pub pipe-Tree : Tree (n + 1) remotes jobs (set_insert pipes n)
  pipe-Tree = record {
    remotes_used = λ r h. ground (arith, i.remotes_used r h);
    jobs_used = λ p h. ground (arith, i.jobs_used p h);
    pipes_used = λ p h. ground (arith, i.pipes_used p, h);
    root = i.root;
    parents = i.parents;
  }

  pub job-Tree : (s : ProcessState) → Tree (n + 1) remotes (insert jobs n s) pipes
  job-Tree s = record {
    remotes_used = λ r h. ground (arith, i.remotes_used r h);
    jobs_used = λ p h. ground (arith, contains_key-insert jobs n s p, i.jobs_used p, h);
    pipes_used = λ p h. ground (arith, i.pipes_used p h);
    root = i.root;
    parents = i.parents;
  }

  pub remote-Tree :
      (q : ℕ)
      → contains_key remotes q ≡ true
      → contains_key remotes n ≡ false
      → Tree (n + 1) (insert remotes n (record { parent = some q })) jobs pipes
  remote-Tree q k f = record {
    remotes_used = λ r h.
        ground (
          arith,
          contains_key-insert remotes n (record { parent = some q }) r,
          i.remotes_used r,
          h,
        );
    jobs_used = λ p h. ground (arith, i.jobs_used p h);
    pipes_used = λ p h. ground (arith, i.pipes_used p h);
    root = ground (arith, i.root, f);
    parents = λ r h. elim (Bool-cases (n == r)) [
      | inl y ↦ inr (q, rw y refl, ground (arith, i.remotes_used q k, i.root, f, ==_iff n r))
      | inr o ↦ rw o (
          i.parents r
            (ground (arith, contains_key-insert remotes n (record { parent = some q }) r, h)))
    ];
  }

  pub close_remote-Tree : (q : ℕ) → (q == 0) ≡ false → Tree n (remove remotes q) jobs pipes
  close_remote-Tree q z = record {
    remotes_used = λ r h. ground (arith, contains_key-remove remotes q r, i.remotes_used r, h);
    jobs_used = i.jobs_used;
    pipes_used = i.pipes_used;
    root = rw z i.root;
    parents = λ r h. elim (Bool-cases (q == r)) [
      | inl y ↦ absurd (ground (arith, contains_key-remove remotes q r, h))
      | inr o ↦ rw o (i.parents r (ground (arith, contains_key-remove remotes q r, h)))
    ];
  }

  pub close_process-Tree : (q : ℕ) → Tree n remotes (remove jobs q) pipes
  close_process-Tree q = record {
    remotes_used = i.remotes_used;
    jobs_used = λ p h. ground (arith, contains_key-remove jobs q p, i.jobs_used p, h);
    pipes_used = i.pipes_used;
    root = i.root;
    parents = i.parents;
  }
