-- ===== src/Edit/Whole.antt =====
-- `parse_command_simple` from the text to the plan: what the frontend may rely on.
use nak.Base.{
  ℕ, ◌≡◌, ◌⊎◌, refl, true, [], ◌∷◌, some, Bytes, arith, inl, inr, Outcome, ok, fault, undefined,
  panicked, out_of_fuel, failed, ◌>>=◌, Ends, Guarded, Guarded-bind, Guarded-mono,
  Guarded-of_Returns, Returns,
}
use nak.Parse.{Ast, parse_input}
use nak.Parse.Words.{Suspect}
use nak.Parse.Shape.{IsLine}
use nak.Parse.Total.{parse_input-Ends}
use nak.Prefs.{Prefs}
use nak.Plan.{RemoteRef, Remotes, Plan, PlanBuilder, Sink}
use nak.Plan.Builder.{new, pipe, set_stdin, add_stdout, add_stderr, sink, grow}
use nak.Plan.Execution.{PipeEnds, can_read, can_write, after_step, after_steps}
use nak.Edit.{last_remote, convert_ast, parse_command_simple}
use nak.Edit.Streams.{Streams, Converted}
use nak.Edit.Plans.{Hazard, convert_ast-Converted}

-- The steps can be carried out one after the other, and then the read ends of the first two pipes,
-- which are all that the sinks name, are still free.
pub record IsExecutable (p : Plan) : Type 0 where
  pub flags : PipeEnds
  pub runs : after_steps [] p.steps ≡ some flags
  pub sinks : p.sink_map ≡ some Sink.stdout ∷ some Sink.stderr ∷ []
  pub out_free : can_read flags 0 ≡ true
  pub err_free : can_read flags 1 ≡ true

-- the two pipes of `parse_command_simple`
abbrev begun : PlanBuilder
begun = (pipe (pipe new).1).1

begun-Streams : Streams begun 0 1
unfolding pipe after_steps after_step can_write
begun-Streams = record {
  simulates = refl;
  out_free = refl;
  err_free = refl;
  apart = λ e. omega arith;
}

-- The two sinks find their places free.
sinks_lem :
    (b : PlanBuilder) (stdin : ℕ)
    → Converted begun (stdin, b)
    → Returns IsExecutable
        (add_stdout (set_stdin b (some stdin)) 0 >>= λ b₄. (add_stderr b₄ 1 >>= λ b₅. ok (b₅.plan)))
unfolding add_stdout add_stderr set_stdin sink grow pipe can_read
sinks_lem b stdin c = rw (c.keeps.same_sinks) (record {
  flags = b.pipes;
  runs = c.simulates;
  sinks = refl;
  out_free = c.keeps.reads 0 refl;
  err_free = c.keeps.reads 1 refl;
})

-- Why a line may make the reader panic.
abbrev pub Blame : Prefs → Bytes → Type 0
Blame prefs input = Suspect input ⊎ ((a : Ast) × (parse_input input ≡ ok a) × Hazard prefs a)

module _ (remotes : Remotes) (prefs : Prefs) {r : RemoteRef}
    (top : last_remote remotes.stack ≡ ok r) where
  -- the part of `parse_command_simple` behind the parser
  abbrev planned : Ast → Outcome Plan
  planned a = convert_ast a remotes prefs begun 0 1 >>= λ x.
      (add_stdout (set_stdin x.1 (some x.0)) 0 >>= λ b₄. (add_stderr b₄ 1 >>= λ b₅. ok (b₅.plan)))

  planned-IsExecutable : (a : Ast) → Guarded (Hazard prefs a) IsExecutable (planned a)
  planned-IsExecutable a =
      Guarded-bind (Hazard prefs a) (Converted begun) IsExecutable
        (convert_ast a remotes prefs begun 0 1) _
        (convert_ast-Converted remotes prefs top a begun 0 1 begun-Streams)
        λ x c.
          Guarded-of_Returns (Hazard prefs a) IsExecutable
            (add_stdout (set_stdin x.1 (some x.0)) 0 >>= λ b₄.
              (add_stderr b₄ 1 >>= λ b₅. ok (b₅.plan)))
            (sinks_lem x.1 x.0 c)

  parsed-IsExecutable :
      (input : Bytes) (m : Outcome Ast)
      → parse_input input ≡ m
      → Ends (Suspect input) IsLine m
      → Guarded (Blame prefs input) IsExecutable (m >>= planned)
  parsed-IsExecutable input (ok a) e h =
      Guarded-mono (Hazard prefs a) (Blame prefs input) IsExecutable IsExecutable (planned a)
        (planned-IsExecutable a) (λ z. inr (a, e, z)) (λ p h. h)
  parsed-IsExecutable input (fault panicked) e h = inl h
  parsed-IsExecutable input (fault out_of_fuel) e h = elim h [ ]
  parsed-IsExecutable input (fault undefined) e h = elim h [ ]
  parsed-IsExecutable input (fault (failed x)) e h = tt

  -- On every input, with a remote on the stack: `parse_command_simple` gives a plan that can be
  -- carried out, or an `Err`. It panics only if the input holds a quote or a `>`, or if it parses to
  -- a tree that holds a sequence or a command on which `convert_single` panics.
  pub parse_command_simple-IsExecutable :
      (input : Bytes)
      → Guarded (Blame prefs input) IsExecutable (parse_command_simple remotes prefs input)
  unfolding parse_command_simple pipe
  parse_command_simple-IsExecutable input =
      parsed-IsExecutable input (parse_input input) refl (parse_input-Ends input)
