-- ===== src/Plan/Simulates.antt =====
-- The builder's flags are the ends that its steps leave free: each operation keeps this, and its
-- assertions fail exactly where the plan would ask for an end that is taken.
use nak.Base.{
  ℕ, zero, suc, ◌==◌, ◌≡◌, ◌≢◌, refl, ◌∙◌, Bool, true, false, if◌then◌else◌, [], ◌∷◌, some,
  get_elem?, set, Bytes, arith, Option-cases, inl, inr, ok, Returns,
}
use nak.Protocol.{Command}
use nak.Plan.{RemoteRef, RemoteStep, Step, remote, PlanBuilder}
use nak.Plan.Builder.{pipe, add_file_output, use_read_end, use_write_end, push_run, add_command}
use nak.Plan.Execution.{
  PipeEnds, take_read, take_write, can_read, can_write, and_then, after_step, after_steps,
  after_steps-append, take_read-take_write,
}
use nak.Plan.Ends.{
  can_read-take_read, can_read-take_write, can_write-take_read, can_write-take_write, take_read_of,
  take_write_of,
}

-- The steps so far can be carried out, and leave free what the flags say.
abbrev pub Simulates : PlanBuilder → Type 0
Simulates b = after_steps [] b.plan.steps ≡ some b.pipes

read_entry :
    (es : PipeEnds) (p : ℕ) {es' : PipeEnds}
    → take_read p es ≡ some es'
    → (w : Bool) × (get_elem? es p ≡ some (true, w)) × (set es p (false, w) ≡ es')
unfolding take_read
read_entry [] p h = ground arith
read_entry ((r, w) ∷ es) zero h = (w, ground arith, ground arith)
read_entry (x ∷ es) (suc p) h = elim (Option-cases (take_read p es)) [
  | inl e ↦ ground arith
  | inr (rest, e) ↦ let (w, f, g) = read_entry es p e in (w, f, ground arith)
]

write_entry :
    (es : PipeEnds) (p : ℕ) {es' : PipeEnds}
    → take_write p es ≡ some es'
    → (r : Bool) × (get_elem? es p ≡ some (r, true)) × (set es p (r, false) ≡ es')
unfolding take_write
write_entry [] p h = ground arith
write_entry ((r, w) ∷ es) zero h = (r, ground arith, ground arith)
write_entry (x ∷ es) (suc p) h = elim (Option-cases (take_write p es)) [
  | inl e ↦ ground arith
  | inr (rest, e) ↦ let (r, f, g) = write_entry es p e in (r, f, ground arith)
]

use_read_end_ok :
    (b : PlanBuilder) (p : ℕ) {es : PipeEnds}
    → take_read p b.pipes ≡ some es
    → use_read_end b p ≡ ok (record b { pipes = es })
unfolding use_read_end
use_read_end_ok b p h = let (w, f, g) = read_entry b.pipes p h in rw f (rw g refl)

use_write_end_ok :
    (b : PlanBuilder) (p : ℕ) {es : PipeEnds}
    → take_write p b.pipes ≡ some es
    → use_write_end b p ≡ ok (record b { pipes = es })
unfolding use_write_end
use_write_end_ok b p h = let (r, f, g) = write_entry b.pipes p h in rw f (rw g refl)

-- The builder takes the ends of a command in another order than the frontend does.
run_ends :
    (r o e : ℕ) (es : PipeEnds) {es₁ es₂ es₃ : PipeEnds}
    → take_read r es ≡ some es₁
    → take_write o es₁ ≡ some es₂
    → take_write e es₂ ≡ some es₃
    → and_then (and_then (take_write o es) (take_write e)) (take_read r) ≡ some es₃
run_ends r o e es h k l = elim (Option-cases (take_write o es)) [
  | inl n ↦ ground (arith, take_read-take_write o r es)
  | inr (x, s) ↦ ground (arith, take_read-take_write o r es, take_read-take_write e r x)
]

pub pipe-Simulates : (b : PlanBuilder) → Simulates b → Simulates (pipe b).1
unfolding pipe after_step
pipe-Simulates b h = ground (arith, after_steps-append [] b.plan.steps Step.pipe)

pub add_file_output-Simulates :
    (b : PlanBuilder) (r : RemoteRef) (file : Bytes)
    → Simulates b
    → Simulates (add_file_output b r file).1
unfolding add_file_output after_step
add_file_output-Simulates b r file h =
    ground (arith, after_steps-append [] b.plan.steps (remote r (RemoteStep.open_output_file file)))

-- What `add_command` does to the builder: its three ends are taken, and no other.
pub record Commanded (b : PlanBuilder) (stdin stdout stderr : ℕ) (b' : PlanBuilder) : Type 0 where
  pub simulates : Simulates b'
  pub same_sinks : b'.plan.sink_map ≡ b.plan.sink_map
  pub reads : (q : ℕ) → can_read b'.pipes q ≡ (if stdin == q then false else can_read b.pipes q)
  pub writes :
      (q : ℕ)
      → can_write b'.pipes q
        ≡ (if stderr == q then false else if stdout == q then false else can_write b.pipes q)

push_run-Commanded :
    (b : PlanBuilder) (r : RemoteRef) (cmd : Command) (stdin stdout stderr : ℕ)
    {es₁ es₂ es₃ : PipeEnds}
    → Simulates b
    → take_read stdin b.pipes ≡ some es₁
    → take_write stdout es₁ ≡ some es₂
    → take_write stderr es₂ ≡ some es₃
    → Commanded b stdin stdout stderr
        (push_run (record b { pipes = es₃ }) r cmd stdin stdout stderr)
unfolding push_run after_step
push_run-Commanded b r cmd stdin stdout stderr {es₁} {es₂} {es₃} s h k l = record {
  simulates =
      rw (after_steps-append [] b.plan.steps _) (rw s (run_ends stdin stdout stderr b.pipes h k l));
  same_sinks = refl;
  reads = λ q. ground (
    arith,
    can_read-take_write stderr q es₂ l,
    can_read-take_write stdout q es₁ k,
    can_read-take_read stdin q b.pipes h,
  );
  writes = λ q. ground (
    arith,
    can_write-take_write stderr q es₂ l,
    can_write-take_write stdout q es₁ k,
    can_write-take_read stdin q b.pipes h,
  );
}

-- With its three ends free, and two pipes for its output, `add_command` does not panic: the steps can
-- still be carried out, the three ends are taken and no other, and the sinks are as they were.
pub add_command-Commanded :
    (b : PlanBuilder) (r : RemoteRef) (cmd : Command) (stdin stdout stderr : ℕ)
    → Simulates b
    → can_read b.pipes stdin ≡ true
    → can_write b.pipes stdout ≡ true
    → can_write b.pipes stderr ≡ true
    → stdout ≢ stderr
    → Returns (Commanded b stdin stdout stderr) (add_command b r cmd stdin stdout stderr)
unfolding add_command
add_command-Commanded b r cmd stdin stdout stderr s h k l ne =
    let (es₁, e₁) = take_read_of stdin b.pipes h in
    let (es₂, e₂) = take_write_of stdout es₁ (can_write-take_read stdin stdout b.pipes e₁ ∙ k) in
    let (es₃, e₃) = take_write_of stderr es₂ (
      ground (
        arith,
        can_write-take_write stdout stderr es₁ e₂,
        can_write-take_read stdin stderr b.pipes e₁,
      )) in
    rw (use_read_end_ok b stdin e₁) (
      rw (use_write_end_ok (record b { pipes = es₁ }) stdout e₂) (
        rw (use_write_end_ok (record b { pipes = es₂ }) stderr e₃)
          (push_run-Commanded b r cmd stdin stdout stderr s e₁ e₂ e₃)))
