-- ===== src/Plan/Ready.antt =====
-- `Plan::empty` and `Plan::single` of frontend/src/plan.rs.
use nak.Base.{ℕ, List, [], ◌∷◌, Option, none, some, Bytes, Outcome, ok, panic, ◌>>=◌}
use nak.Protocol.{unknown}
use nak.Plan.{RemoteRef, Plan, PlanBuilder}
use nak.Plan.Builder

-- `Plan::empty`
unfoldable pub empty : Outcome Plan
empty = do
  let out = Builder.pipe Builder.new
  b ← Builder.add_stdout (Builder.set_stdin out.1 (some out.0)) out.0
  let err = Builder.pipe b
  b' ← Builder.add_stderr err.1 err.0
  ok (Builder.build b')

-- the output of `Plan::single`: a file and no stdout, or a pipe
unfoldable pub single_output :
    PlanBuilder → Option (RemoteRef × Bytes) → (ℕ × PlanBuilder) × Option ℕ
single_output b (some (r, file)) = (Builder.add_file_output b r file, none)
single_output b none = let out = Builder.pipe b in (out, some out.0)

unfoldable pub add_stdout_if : PlanBuilder → Option ℕ → Outcome PlanBuilder
add_stdout_if b none = ok b
add_stdout_if b (some out) = Builder.add_stdout b out

-- `Plan::single`
unfoldable pub single : RemoteRef → List Bytes → Option (RemoteRef × Bytes) → Outcome Plan
single r [] redirect = panic
single r (head ∷ rest) redirect = do
  let stdin = Builder.pipe Builder.new
  let (output, out) = single_output stdin.1 redirect
  let err = Builder.pipe output.1
  b ← Builder.add_command err.1 r (unknown head rest) stdin.0 output.0 err.0
  b' ← add_stdout_if (Builder.set_stdin b (some stdin.0)) out
  b'' ← Builder.add_stderr b' err.0
  ok (Builder.build b'')
