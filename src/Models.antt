-- ===== src/Models.antt =====
-- dbaccess/dbsqlc/models.go: the rows of the database tables. Row ids, queue ids and epoch seconds
-- (int64 in the source) are natural numbers; bytes, and the text of an API token, are lists of numbers.
use maos_core.Common.Int.{ℤ}
use maos_core.Common.{Bool, true, false, List, ℕ, Option, none, some, String}

abbrev pub Bytes : Type 0
Bytes = List ℕ

pub data ActorRole : Type 0 where
  agent service portal user other : ActorRole

pub data DeploymentStatus : Type 0 where
  draft reviewing approved deploying deployed failed rejected retired cancelled : DeploymentStatus

pub data InvocationState : Type 0 where
  available cancelled completed discarded running : InvocationState

pub record Actor : Type 0 where
  pub id : ℕ
  pub name : String
  pub queue_id : ℕ
  pub created_at : ℕ
  pub metadata : Bytes
  pub updated_at : Option ℕ
  pub enabled : Bool
  pub deployable : Bool
  pub configurable : Bool
  pub role : ActorRole
  pub migratable : Bool
  pub permissions : List String
  pub mcp_enabled : Bool

pub record ApiToken : Type 0 where
  pub id : List ℕ
  pub actor_id : ℕ
  pub expire_at : ℕ
  pub created_by : String
  pub created_at : ℕ
  pub permissions : List String

pub record Config : Type 0 where
  pub id : ℕ
  pub actor_id : ℕ
  pub content : Bytes
  pub min_actor_version : Option (List ℤ)
  pub config_suite_id : Option ℕ
  pub created_by : String
  pub created_at : ℕ
  pub updated_by : Option String
  pub updated_at : Option ℕ

pub record ConfigSuite : Type 0 where
  pub id : ℕ
  pub active : Bool
  pub created_by : String
  pub created_at : ℕ
  pub updated_by : Option String
  pub updated_at : Option ℕ
  pub deployed_at : Option ℕ

pub record Deployment : Type 0 where
  pub id : ℕ
  pub name : String
  pub status : DeploymentStatus
  pub reviewers : List String
  pub config_suite_id : Option ℕ
  pub notes : Option Bytes
  pub created_by : String
  pub created_at : ℕ
  pub approved_by : Option String
  pub approved_at : Option ℕ
  pub finished_by : Option String
  pub finished_at : Option ℕ
  pub migration_logs : Option Bytes
  pub last_error : Option String
  pub deploying_at : Option ℕ
  pub deployed_at : Option ℕ

pub record Invocation : Type 0 where
  pub id : ℕ
  pub state : InvocationState
  pub queue_id : ℕ
  pub attempted_at : Option ℕ
  pub created_at : ℕ
  pub finalized_at : Option ℕ
  pub priority : ℕ
  pub payload : Bytes
  pub errors : Option Bytes
  pub result : Option Bytes
  pub metadata : Bytes
  pub tags : List String
  pub attempted_by : List ℕ

pub record Queue : Type 0 where
  pub id : ℕ
  pub name : String
  pub created_at : ℕ
  pub metadata : Bytes
  pub paused_at : Option ℕ
  pub updated_at : Option ℕ

-- The outcome of a query for one row: the row, pgx.ErrNoRows, or any other error.
pub data Fetched {ℓ} (A : Type ℓ) : Type ℓ where
  row : A → Fetched A
  no_rows : Fetched A
  query_error : Fetched A

-- `row.Scan` of a statement that returns at most one row and did not fail.
abbrev pub fetched {ℓ} : {A : Type ℓ} → Option A → Fetched A
fetched none = no_rows
fetched (some a) = row a

-- SQL's `coalesce` of two values.
abbrev pub coalesce {ℓ} : {A : Type ℓ} → Option A → A → A
coalesce none b = b
coalesce (some a) b = a

-- `=` on the enum columns.
unfoldable pub same_status : DeploymentStatus → DeploymentStatus → Bool
same_status DeploymentStatus.draft DeploymentStatus.draft = true
same_status DeploymentStatus.reviewing DeploymentStatus.reviewing = true
same_status DeploymentStatus.approved DeploymentStatus.approved = true
same_status DeploymentStatus.deploying DeploymentStatus.deploying = true
same_status DeploymentStatus.deployed DeploymentStatus.deployed = true
same_status DeploymentStatus.failed DeploymentStatus.failed = true
same_status DeploymentStatus.rejected DeploymentStatus.rejected = true
same_status DeploymentStatus.retired DeploymentStatus.retired = true
same_status DeploymentStatus.cancelled DeploymentStatus.cancelled = true
same_status _ _ = false

unfoldable pub same_state : InvocationState → InvocationState → Bool
same_state InvocationState.available InvocationState.available = true
same_state InvocationState.cancelled InvocationState.cancelled = true
same_state InvocationState.completed InvocationState.completed = true
same_state InvocationState.discarded InvocationState.discarded = true
same_state InvocationState.running InvocationState.running = true
same_state _ _ = false
