-- ===== src/Plan.antt =====
-- frontend/src/plan.rs: the plan of a command line and the state of its builder. The operations are
-- in `Builder`, the two ready-made plans in `Ready`.
pub mod Builder
pub mod Ready
pub mod Execution
pub mod Ends
pub mod Simulates
use nak.Base.{ℕ, Bool, List, Option, Bytes}
use nak.Protocol.{Command}
use nak.Protocol.Ids.{Ids}

pub record RemoteRef : Type 0 where
  pub index : ℕ

pub record Remotes : Type 0 where
  pub stack : List RemoteRef

pub record PlanProcess : Type 0 where
  pub id : ℕ
  pub stdin : ℕ
  pub stdout : ℕ
  pub stderr : ℕ

pub data RemoteStep : Type 0 where
  open_input_file : Bytes → RemoteStep
  open_output_file : Bytes → RemoteStep
  run : Command → PlanProcess → RemoteStep
  begin_remote : Command → RemoteStep
  close : RemoteStep

pub data Step : Type 0 where
  remote : RemoteRef → RemoteStep → Step
  pipe : Step
  pager : Step
  editor : Step

-- `GatherId` and `PagerId` are numbers.
pub data Sink : Type 0 where
  dev_null : Sink
  stdout : Sink
  stderr : Sink
  gather : ℕ → Sink
  pager : ℕ → Sink

pub record Plan : Type 0 where
  pub steps : List Step
  pub stdin : Option ℕ
  pub gather_count : ℕ
  pub pager_count : ℕ
  pub sink_map : List (Option Sink)

-- The flags of a pipe say that its read end and its write end are still free.
pub record PlanBuilder : Type 0 where
  pub plan : Plan
  pub proc_ids : Ids
  pub pipes : List (Bool × Bool)
