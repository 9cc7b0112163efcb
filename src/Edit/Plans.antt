-- ===== src/Edit/Plans.antt =====
-- The plans that `convert_ast` and `parse_command_simple` build can be carried out, and the
-- assertions of the builder never fire on the way.
use nak.Base.{
  ℕ, ◌≡◌, ◌⊎◌, refl, true, length, arith, inl, inr, ok, Guarded, Guarded-bind, Guarded-mono,
  Guarded-self, Guarded-of_Returns, Hazardous, Returns,
}
use nak.Protocol.{Command}
use nak.Parse.{
  Ast, blank, cmd, sequence, redirect, Cmd, Target, file, command, RedirectClauses, done, send,
  Stream, expand_string,
}
use nak.Prefs.{Prefs}
use nak.Plan.{RemoteRef, Remotes, PlanBuilder}
use nak.Plan.Builder.{pipe, add_command}
use nak.Plan.Ends.{can_read-append, can_write-append, can_read_lt, can_write_lt}
use nak.Plan.Simulates.{pipe-Simulates, Commanded, add_command-Commanded}
use nak.Edit.{
  last_remote, convert_single, convert_cmd, redirected, convert_ast, convert_target,
  convert_clauses,
}
use nak.Edit.Streams.{
  Streams, Keeps, Converted, Keeps-trans, pipe-Keeps, add_file_output-Converted, pipe-can_read,
  pipe-can_write, pipe_beside,
}

-- What can go wrong in a tree: a sequence, or a command that `convert_single` panics on.
abbrev mutual
  pub Hazard : Prefs → Ast → Type 0
  Hazard prefs blank = ⊥
  Hazard prefs (cmd c) = Hazardous (convert_single prefs c)
  Hazard prefs (sequence a rest) = Unit
  Hazard prefs (redirect a ts) = Hazard prefs a ⊎ HazardClauses prefs ts

  pub HazardTarget : Prefs → Target → Type 0
  HazardTarget prefs (file w) = ⊥
  HazardTarget prefs (command a) = Hazard prefs a

  pub HazardClauses : Prefs → RedirectClauses → Type 0
  HazardClauses prefs done = ⊥
  HazardClauses prefs (send s t ts) = HazardTarget prefs t ⊎ HazardClauses prefs ts

module _ (remotes : Remotes) (prefs : Prefs) {r : RemoteRef}
    (top : last_remote remotes.stack ≡ ok r) where
  add_command-Converted :
      (b : PlanBuilder) (stdout stderr : ℕ) (b' : PlanBuilder)
      → Streams b stdout stderr
      → Commanded (pipe b).1 (pipe b).0 stdout stderr b'
      → Converted b ((pipe b).0, b')
  unfolding pipe
  add_command-Converted b stdout stderr b' s m = record {
    simulates = m.simulates;
    keeps = record {
      same_sinks = m.same_sinks;
      reads = λ q h.
          ground
            (arith, m.reads q, can_read-append b.pipes (true, true) q, can_read_lt b.pipes q h);
    };
    in_free = ground (
      arith,
      m.writes (length b.pipes),
      can_write-append b.pipes (true, true) (length b.pipes),
      can_write_lt b.pipes stdout s.out_free,
      can_write_lt b.pipes stderr s.err_free,
    );
  }

  command_ends :
      (b : PlanBuilder) (stdout stderr : ℕ) (c : Command)
      → Streams b stdout stderr
      → Returns
          (Commanded (pipe b).1 (pipe b).0 stdout stderr)
          (add_command (pipe b).1 r c (pipe b).0 stdout stderr)
  command_ends b stdout stderr c s =
      add_command-Commanded (pipe b).1 r c (pipe b).0 stdout stderr (pipe-Simulates b s.simulates)
        (pipe-can_read b) (pipe-can_write b stdout s.out_free) (pipe-can_write b stderr s.err_free)
        s.apart

  convert_cmd-Guarded :
      (c : Cmd) (b : PlanBuilder) (stdout stderr : ℕ)
      → Streams b stdout stderr
      → Guarded
          (Hazardous (convert_single prefs c))
          (Converted b)
          (convert_cmd remotes prefs c b stdout stderr)
  unfolding convert_cmd
  convert_cmd-Guarded c b stdout stderr s = rw top (
      Guarded-bind (Hazardous (convert_single prefs c)) (λ c'. Unit) (Converted b)
        (convert_single prefs c) _ (Guarded-self (convert_single prefs c))
        λ c' e.
          Guarded-bind (Hazardous (convert_single prefs c))
            (Commanded (pipe b).1 (pipe b).0 stdout stderr) (Converted b)
            (add_command (pipe b).1 r c' (pipe b).0 stdout stderr) _
            (Guarded-of_Returns (Hazardous (convert_single prefs c))
              (Commanded (pipe b).1 (pipe b).0 stdout stderr)
              (add_command (pipe b).1 r c' (pipe b).0 stdout stderr)
              (command_ends b stdout stderr c' s))
            λ b' m. add_command-Converted b stdout stderr b' s m)

  abbrev Split : PlanBuilder → ℕ × ℕ × PlanBuilder → Type 0
  Split b x = Streams x.2 x.0 x.1 × Keeps b x.2

  redirected-Split :
      (o : Stream) (b : PlanBuilder) (x : ℕ × PlanBuilder)
      → Converted b x
      → Split b (redirected o x.0 x.1)
  unfolding redirected
  redirected-Split Stream.stdout b (p, b') c =
      ((pipe_beside b' p c.simulates c.in_free).0, Keeps-trans c.keeps (pipe-Keeps b'))
  redirected-Split Stream.stderr b (p, b') c =
      ((pipe_beside b' p c.simulates c.in_free).1, Keeps-trans c.keeps (pipe-Keeps b'))

  -- A conversion that starts from a later builder.
  Converted-from :
      {b c : PlanBuilder} (x : ℕ × PlanBuilder) → Keeps b c → Converted c x → Converted b x
  Converted-from x k m = record {
    simulates = m.simulates;
    keeps = Keeps-trans k m.keeps;
    in_free = m.in_free;
  }

  mutual
    unfolding convert_ast convert_target convert_clauses

    convert_ast-Guarded :
        (a : Ast) (b : PlanBuilder) (stdout stderr : ℕ)
        → Streams b stdout stderr
        → Guarded (Hazard prefs a) (Converted b) (convert_ast a remotes prefs b stdout stderr)
    convert_ast-Guarded blank b stdout stderr s = record {
      simulates = s.simulates;
      keeps = record { same_sinks = refl; reads = λ q h. h };
      in_free = s.out_free;
    }
    convert_ast-Guarded (cmd c) b stdout stderr s = convert_cmd-Guarded c b stdout stderr s
    convert_ast-Guarded (sequence a rest) b stdout stderr s = tt
    convert_ast-Guarded (redirect a ts) b stdout stderr s =
        Guarded-bind (Hazard prefs a ⊎ HazardClauses prefs ts) (Split b) (Converted b)
          (convert_clauses ts remotes prefs b stdout stderr) _
          (Guarded-mono (HazardClauses prefs ts) (Hazard prefs a ⊎ HazardClauses prefs ts) (Split b)
            (Split b) (convert_clauses ts remotes prefs b stdout stderr)
            (convert_clauses-Guarded ts b stdout stderr s) inr (λ x m. m))
          λ x m.
            Guarded-mono (Hazard prefs a) (Hazard prefs a ⊎ HazardClauses prefs ts) (Converted x.2)
              (Converted b) (convert_ast a remotes prefs x.2 x.0 x.1)
              (convert_ast-Guarded a x.2 x.0 x.1 m.0) inl (λ y n. Converted-from y m.1 n)

    convert_target-Guarded :
        (t : Target) (b : PlanBuilder) (stdout stderr : ℕ)
        → Streams b stdout stderr
        → Guarded
            (HazardTarget prefs t)
            (Converted b)
            (convert_target t remotes prefs b stdout stderr)
    convert_target-Guarded (file path) b stdout stderr s =
        rw top (add_file_output-Converted b r (expand_string path) s.simulates)
    convert_target-Guarded (command a) b stdout stderr s = convert_ast-Guarded a b stdout stderr s

    convert_clauses-Guarded :
        (ts : RedirectClauses) (b : PlanBuilder) (stdout stderr : ℕ)
        → Streams b stdout stderr
        → Guarded
            (HazardClauses prefs ts)
            (Split b)
            (convert_clauses ts remotes prefs b stdout stderr)
    convert_clauses-Guarded done b stdout stderr s =
        (s, record { same_sinks = refl; reads = λ q h. h })
    convert_clauses-Guarded (send o t ts) b stdout stderr s =
        Guarded-bind (HazardTarget prefs t ⊎ HazardClauses prefs ts) (Split b) (Split b)
          (convert_clauses ts remotes prefs b stdout stderr) _
          (Guarded-mono (HazardClauses prefs ts) (HazardTarget prefs t ⊎ HazardClauses prefs ts)
            (Split b) (Split b) (convert_clauses ts remotes prefs b stdout stderr)
            (convert_clauses-Guarded ts b stdout stderr s) inr (λ x m. m))
          λ x m.
            Guarded-bind (HazardTarget prefs t ⊎ HazardClauses prefs ts) (Converted x.2) (Split b)
              (convert_target t remotes prefs x.2 x.0 x.1) _
              (Guarded-mono (HazardTarget prefs t) (HazardTarget prefs t ⊎ HazardClauses prefs ts)
                (Converted x.2) (Converted x.2) (convert_target t remotes prefs x.2 x.0 x.1)
                (convert_target-Guarded t x.2 x.0 x.1 m.0) inl (λ y n. n))
              λ y n. let w = redirected-Split o x.2 y n in (w.0, Keeps-trans m.1 w.1)

  pub convert_ast-Converted :
      (a : Ast) (b : PlanBuilder) (stdout stderr : ℕ)
      → Streams b stdout stderr
      → Guarded (Hazard prefs a) (Converted b) (convert_ast a remotes prefs b stdout stderr)
  convert_ast-Converted a b stdout stderr s = convert_ast-Guarded a b stdout stderr s
