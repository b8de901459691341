-- ===== src/Rollout.antt =====
-- The rows of brisk-control/internal/store/rollouts.go (tables `rollouts` and `rollout_targets`),
-- and what the rollout code reads of releases and servers. Timestamps are numbers of nanoseconds.
pub mod Store
pub mod Create
pub mod Engine
pub mod Api
pub mod Admin
pub mod Frame
pub mod Listed
pub mod OneInFlight
pub mod OneTick
pub mod Handlers
pub mod System
pub mod Offers
pub mod RowWise
pub mod Halt
mod Examples
use brisk.Prelude.{ℕ, Bytes, Option, Bool, true, false, List, Assoc}

-- `status` of a rollout
pub data Status : Type 0 where
  scheduled running paused done failed cancelled : Status

-- `state` of a target
pub data TargetState : Type 0 where
  queued in_progress soaking done failed skipped : TargetState

pub record Rollout : Type 0 where
  pub id : ℕ
  pub release_version : Bytes
  pub target_pops : List Bytes
  pub soak_seconds : ℕ
  pub status : Status
  pub scheduled_at : Option ℕ
  pub error_reason : Bytes
  pub created_by : Bytes
  pub created_at : ℕ
  pub started_at : Option ℕ
  pub finished_at : Option ℕ

pub record RolloutTarget : Type 0 where
  pub rollout_id : ℕ
  pub edge_id : Bytes
  pub from_version : Bytes
  pub to_version : Bytes
  pub state : TargetState
  pub error_reason : Bytes
  pub soak_until : Option ℕ
  pub updated_at : ℕ

-- an audit row, without its id and its details, which the rollout handlers leave empty
pub record AuditEntry : Type 0 where
  pub actor : Bytes
  pub action : Bytes
  pub subject : Bytes
  pub at : ℕ

-- What GetReleaseMeta returns that the agent is shown.
pub record ReleaseMeta : Type 0 where
  pub sha256 : Bytes
  pub signature : Bytes
  pub signed_by : Bytes

-- The columns of a server that the rollout handlers read.
pub record ServerRow : Type 0 where
  pub id : ℕ
  pub edge_id : Bytes
  pub agent_version : Bytes

-- `rollouts` is held newest first: its ids are a sequence, so ORDER BY id DESC is the list's order.
pub record Db : Type 0 where
  pub rollouts : List Rollout
  pub targets : List RolloutTarget
  pub audit : List AuditEntry
  pub releases : Assoc ReleaseMeta
  pub servers : List ServerRow

-- status IN ('scheduled','running','paused')
abbrev pub is_active : Status → Bool
is_active scheduled = true
is_active running = true
is_active paused = true
is_active _ = false

-- the states in which the engine holds a PoP's wave open
abbrev pub in_flight : TargetState → Bool
in_flight in_progress = true
in_flight soaking = true
in_flight _ = false

abbrev pub is_queued : TargetState → Bool
is_queued queued = true
is_queued _ = false
