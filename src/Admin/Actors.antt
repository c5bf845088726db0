-- ===== src/Admin/Actors.antt =====
-- admin/actor_manage.go: the handlers that create, change and delete actors. The ids of the requests
-- are natural numbers, and an error's text stands without the cause that follows it.
use maos_core.Common.{
  Bool, true, false, not, ◌&&◌, ◌||◌, List, [], ◌∷◌, ℕ, Option, none, some, if◌then◌else◌, String,
  str_eq,
}
use maos_core.Models.{Actor, ActorRole, Bytes, Queue, Fetched, row, no_rows, query_error, coalesce}
use maos_core.Admin.Registry.{
  Registry, queue_insert, ActorInsertParams, actor_insert, ActorUpdateParams, actor_update,
  Deletion, not_found, referenced, done_deletion, actor_delete,
}

pub data Reply (A : Type 0) : Type 0 where
  success : A → Reply A
  bad_request : String → Reply A
  missing : Reply A
  conflict : Reply A
  server_error : String → Reply A

-- Flags of a request: `none` is a field that the request leaves out.
pub record Flags : Type 0 where
  pub enabled : Option Bool
  pub deployable : Option Bool
  pub configurable : Option Bool
  pub migratable : Option Bool
  pub mcp_enabled : Option Bool

unfoldable pub migratable_refused : Flags → Bool
migratable_refused f =
    coalesce f.migratable false
    && (not (coalesce f.deployable false) || not (coalesce f.configurable false))

unfoldable pub deployable_refused : Flags → Bool
deployable_refused f = coalesce f.deployable false && not (coalesce f.configurable false)

pub record ActorCreate : Type 0 where
  pub name : String
  pub role : ActorRole
  pub flags : Flags
  pub permissions : Option (List String)

-- Which calls of the transaction fail.
pub record CreateFaults : Type 0 where
  pub begin : Bool
  pub queue : Bool
  pub actor : Bool
  pub commit : Bool

-- {"type":"actor"}
abbrev pub actor_queue_metadata : Bytes
actor_queue_metadata =
    b'{' ∷ 34 ∷ b't' ∷ b'y' ∷ b'p' ∷ b'e' ∷ 34 ∷ b':' ∷ 34 ∷ b'a' ∷ b'c' ∷ b't' ∷ b'o' ∷ b'r' ∷ 34
    ∷ b'}' ∷ []

abbrev pub insert_params : ActorCreate → ℕ → ActorInsertParams
insert_params body queue_id = record {
  name = body.name;
  queue_id = queue_id;
  role = body.role;
  enabled = coalesce body.flags.enabled true;
  deployable = coalesce body.flags.deployable false;
  configurable = coalesce body.flags.configurable false;
  migratable = coalesce body.flags.migratable false;
  mcp_enabled = coalesce body.flags.mcp_enabled false;
  metadata = none;
  permissions = body.permissions;
}

-- The end of WithTxV: an error leaves the registry as it was.
abbrev pub commit_actor : Bool → Registry → Registry × Fetched Actor → Registry × Reply Actor
commit_actor commit_fails old (r, row a) =
    if commit_fails then (old, server_error "Cannot create actors") else (r, success a)
commit_actor commit_fails old (r, no_rows) = (old, server_error "Cannot create actors")
commit_actor commit_fails old (r, query_error) = (old, server_error "Cannot create actors")

abbrev pub with_queue :
    CreateFaults → ℕ → ActorCreate → Registry → Registry × Fetched Queue → Registry × Reply Actor
with_queue faults now body old (r, row q) =
    commit_actor faults.commit old (actor_insert faults.actor now (insert_params body q.id) r)
with_queue faults now body old (r, no_rows) = (old, server_error "Cannot create actors")
with_queue faults now body old (r, query_error) = (old, server_error "Cannot create actors")

unfoldable pub create_actor : CreateFaults → ℕ → ActorCreate → Registry → Registry × Reply Actor
unfolding migratable_refused deployable_refused actor_insert queue_insert
create_actor faults now body r =
    if str_eq body.name ""
    then (r, bad_request "Missing required field: name")
    else if migratable_refused body.flags
    then (r, bad_request "Migratable actors must also be deployable and configurable")
    else if deployable_refused body.flags
    then (r, bad_request "Deployable actors must also be configurable")
    else if faults.begin
    then (r, server_error "Cannot create actors")
    else with_queue faults now body r
        (queue_insert faults.queue now body.name (some actor_queue_metadata) r)

pub record ActorUpdate : Type 0 where
  pub name : Option String
  pub role : Option ActorRole
  pub flags : Flags
  pub permissions : Option (List String)

abbrev pub update_params : ℕ → ActorUpdate → ActorUpdateParams
update_params id body = record {
  id = id;
  name = body.name;
  role = body.role;
  enabled = body.flags.enabled;
  deployable = body.flags.deployable;
  configurable = body.flags.configurable;
  migratable = body.flags.migratable;
  mcp_enabled = body.flags.mcp_enabled;
  metadata = none;
  permissions = body.permissions;
}

abbrev pub answer_actor : Registry × Fetched Actor → Registry × Reply Actor
answer_actor (r, row a) = (r, success a)
answer_actor (r, no_rows) = (r, missing)
answer_actor (r, query_error) = (r, server_error "Cannot update actor")

-- The flags are tested as the request gives them, not as they are after the update.
unfoldable pub update_actor : Bool → ℕ → ActorUpdate → Registry → Registry × Reply Actor
unfolding migratable_refused deployable_refused actor_update
update_actor fails id body r =
    if migratable_refused body.flags
    then (r, bad_request "Migratable actors must also be deployable and configurable")
    else if deployable_refused body.flags
    then (r, bad_request "Deployable actors must also be configurable")
    else answer_actor (actor_update fails (update_params id body) r)

abbrev pub answer_deletion : Registry × Fetched Deletion → Registry × Reply Unit
answer_deletion (r, row not_found) = (r, missing)
answer_deletion (r, row referenced) = (r, conflict)
answer_deletion (r, row done_deletion) = (r, success tt)
answer_deletion (r, no_rows) = (r, server_error "Cannot delete actor")
answer_deletion (r, query_error) = (r, server_error "Cannot delete actor")

unfoldable pub delete_actor : Bool → ℕ → Registry → Registry × Reply Unit
unfolding actor_delete
delete_actor fails id r = answer_deletion (actor_delete fails id r)
