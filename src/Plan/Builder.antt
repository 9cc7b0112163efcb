-- ===== src/Plan/Builder.antt =====
-- The operations of `PlanBuilder` in frontend/src/plan.rs.
use nak.Base.{
  ℕ, zero, suc, ◌+◌, leb, if◌then◌else◌, Bool, true, false, List, [], ◌∷◌, ◌++◌, Option, none, some,
  length, get_elem?, set, Bytes, Outcome, ok, assert, unwrap, ◌>>=◌, ◌>>◌,
}
use nak.Protocol.{Command}
use nak.Protocol.Ids
use nak.Plan.{RemoteRef, Step, Sink, Plan, PlanBuilder, remote, run, close, open_output_file}

abbrev push_step : PlanBuilder → Step → PlanBuilder
push_step b s = record b { plan = record (b.plan) { steps = b.plan.steps ++ s ∷ [] } }

-- `assert!(self.plan.sink_map[stream].is_none())`, an index out of range being a panic too
abbrev is_free_sink : Option (Option Sink) → Bool
is_free_sink (some none) = true
is_free_sink (some (some _)) = false
is_free_sink none = false

-- `while sink_map.len() <= stream { sink_map.push(None) }`, on fuel
unfoldable pub grow : ℕ → ℕ → List (Option Sink) → List (Option Sink)
grow zero stream xs = xs
grow (suc fuel) stream xs =
    let rest = grow fuel stream (xs ++ none ∷ []) in if leb (length xs) stream then rest else xs

abbrev pub new : PlanBuilder
new = record {
  plan = record { steps = []; stdin = none; gather_count = 0; pager_count = 0; sink_map = [] };
  proc_ids = Ids.new;
  pipes = [];
}

abbrev pub build : PlanBuilder → Plan
build b = b.plan

unfoldable pub pipe : PlanBuilder → ℕ × PlanBuilder
pipe b = (length b.pipes, record (push_step b Step.pipe) { pipes = b.pipes ++ (true, true) ∷ [] })

unfoldable pub exit : PlanBuilder → RemoteRef → PlanBuilder
exit b r = push_step b (remote r close)

unfoldable pub add_file_output : PlanBuilder → RemoteRef → Bytes → ℕ × PlanBuilder
add_file_output b r file = (
  length b.pipes,
  record (push_step b (remote r (open_output_file file))) { pipes = b.pipes ++ (false, true) ∷ [] },
)

unfoldable pub use_read_end : PlanBuilder → ℕ → Outcome PlanBuilder
use_read_end b p = do
  (r, w) ← unwrap (get_elem? b.pipes p)
  assert r
  ok (record b { pipes = set b.pipes p (false, w) })

unfoldable pub use_write_end : PlanBuilder → ℕ → Outcome PlanBuilder
use_write_end b p = do
  (r, w) ← unwrap (get_elem? b.pipes p)
  assert w
  ok (record b { pipes = set b.pipes p (r, false) })

unfoldable pub set_stdin : PlanBuilder → Option ℕ → PlanBuilder
set_stdin b stdin = record b { plan = record (b.plan) { stdin = stdin } }

unfoldable pub sink : PlanBuilder → ℕ → Sink → Outcome PlanBuilder
sink b stream s = do
  let grown = grow (suc stream) stream b.plan.sink_map
  assert (is_free_sink (get_elem? grown stream))
  ok (record b { plan = record (b.plan) { sink_map = set grown stream (some s) } })

unfoldable pub add_stdout : PlanBuilder → ℕ → Outcome PlanBuilder
add_stdout b p = sink b p Sink.stdout

unfoldable pub add_stderr : PlanBuilder → ℕ → Outcome PlanBuilder
add_stderr b p = sink b p Sink.stderr

-- the last part of `add_command`: the process gets its id and its step
unfoldable pub push_run : PlanBuilder → RemoteRef → Command → ℕ → ℕ → ℕ → PlanBuilder
push_run b r cmd stdin stdout stderr =
    let (id, ids) = Ids.next b.proc_ids in
    record (push_step b
      (remote r (run cmd (record { id = id; stdin = stdin; stdout = stdout; stderr = stderr })))) {
        proc_ids = ids;
      }

unfoldable pub add_command : PlanBuilder → RemoteRef → Command → ℕ → ℕ → ℕ → Outcome PlanBuilder
add_command b r cmd stdin stdout stderr = do
  b₁ ← use_read_end b stdin
  b₂ ← use_write_end b₁ stdout
  b₃ ← use_write_end b₂ stderr
  ok (push_run b₃ r cmd stdin stdout stderr)

unfoldable pub add_gather : PlanBuilder → ℕ × PlanBuilder
add_gather b = (
  b.plan.gather_count,
  record b { plan = record (b.plan) { gather_count = b.plan.gather_count + 1 } },
)

unfoldable pub add_pager : PlanBuilder → ℕ × PlanBuilder
add_pager b = (
  b.plan.pager_count,
  record b { plan = record (b.plan) { pager_count = b.plan.pager_count + 1 } },
)
