-- ===== src/Edit/Streams.antt =====
-- The pipes between the commands of a plan: what `convert_ast` needs of them and what it keeps.
use nak.Base.{ℕ, ◌<◌, ◌≡◌, ◌≢◌, refl, ◌∙◌, true, false, length, Bytes, arith}
use nak.Plan.{RemoteRef, PlanBuilder}
use nak.Plan.Builder.{pipe, add_file_output}
use nak.Plan.Execution.{can_read, can_write}
use nak.Plan.Ends.{can_read-append, can_write-append, can_read_lt, can_write_lt}
use nak.Plan.Simulates.{Simulates, pipe-Simulates, add_file_output-Simulates}

-- The streams of a command to come: two pipes whose write ends are free.
pub record Streams (b : PlanBuilder) (stdout stderr : ℕ) : Type 0 where
  pub simulates : Simulates b
  pub out_free : can_write b.pipes stdout ≡ true
  pub err_free : can_write b.pipes stderr ≡ true
  pub apart : stdout ≢ stderr

-- What a conversion leaves alone: the sinks, and the read ends that were free.
pub record Keeps (b b' : PlanBuilder) : Type 0 where
  pub same_sinks : b'.plan.sink_map ≡ b.plan.sink_map
  pub reads : (q : ℕ) → can_read b.pipes q ≡ true → can_read b'.pipes q ≡ true

pub record Converted (b : PlanBuilder) (r : ℕ × PlanBuilder) : Type 0 where
  pub simulates : Simulates r.1
  pub keeps : Keeps b r.1
  pub in_free : can_write r.1.pipes r.0 ≡ true

pub Keeps-trans : {b c d : PlanBuilder} → Keeps b c → Keeps c d → Keeps b d
Keeps-trans k l = record {
  same_sinks = l.same_sinks ∙ k.same_sinks;
  reads = λ q h. l.reads q (k.reads q h);
}

pub pipe-Keeps : (b : PlanBuilder) → Keeps b (pipe b).1
unfolding pipe
pipe-Keeps b = record {
  same_sinks = refl;
  reads = λ q h. ground (arith, can_read-append b.pipes (true, true) q);
}

pub pipe-Converted : (b : PlanBuilder) → Simulates b → Converted b (pipe b)
unfolding pipe
pipe-Converted b s = record {
  simulates = pipe-Simulates b s;
  keeps = pipe-Keeps b;
  in_free = ground (arith, can_write-append b.pipes (true, true) (length b.pipes));
}

pub add_file_output-Converted :
    (b : PlanBuilder) (r : RemoteRef) (path : Bytes)
    → Simulates b
    → Converted b (add_file_output b r path)
unfolding add_file_output
add_file_output-Converted b r path s = record {
  simulates = add_file_output-Simulates b r path s;
  keeps = record {
    same_sinks = refl;
    reads = λ q h. ground (arith, can_read-append b.pipes (false, true) q, can_read_lt b.pipes q h);
  };
  in_free = ground (arith, can_write-append b.pipes (false, true) (length b.pipes));
}

pub pipe-can_read : (b : PlanBuilder) → can_read (pipe b).1.pipes (pipe b).0 ≡ true
unfolding pipe
pipe-can_read b = ground (arith, can_read-append b.pipes (true, true) (length b.pipes))

pub pipe-can_write :
    (b : PlanBuilder) (q : ℕ) → can_write b.pipes q ≡ true → can_write (pipe b).1.pipes q ≡ true
unfolding pipe
pipe-can_write b q h = ground (arith, can_write-append b.pipes (true, true) q)

pub pipe_fresh : (b : PlanBuilder) (q : ℕ) → can_write b.pipes q ≡ true → q < (pipe b).0
unfolding pipe
pipe_fresh b q h = can_write_lt b.pipes q h

-- A new pipe beside one that is free to write to.
pub pipe_beside :
    (b : PlanBuilder) (p : ℕ)
    → Simulates b
    → can_write b.pipes p ≡ true
    → Streams (pipe b).1 p (pipe b).0 × Streams (pipe b).1 (pipe b).0 p
pipe_beside b p s h = (
  record {
    simulates = pipe-Simulates b s;
    out_free = pipe-can_write b p h;
    err_free = (pipe-Converted b s).in_free;
    apart = λ e. omega (arith, pipe_fresh b p h);
  },
  record {
    simulates = pipe-Simulates b s;
    out_free = (pipe-Converted b s).in_free;
    err_free = pipe-can_write b p h;
    apart = λ e. omega (arith, pipe_fresh b p h);
  },
)
