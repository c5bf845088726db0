-- ===== src/Admin/Registry.antt =====
-- dbaccess/dbsqlc/queue.sql.go, actor.sql.go and api_token.sql.go: the statements that change the
-- tables `queues`, `actors` and `api_tokens`. `fails` is an error of the connection, `now` the
-- database's clock. The unique indexes are queues_name (migrate/migration/002), actors_name (020) and
-- the primary key of the tokens (005), the CHECK name_length (002); a slice that is nil is NULL.
use mathlib.Core.Option
use maos_core.Common.{
  ◌++◌, ◌==◌, Bool, true, false, not, ◌&&◌, ◌||◌, List, [], ◌∷◌, ℕ, suc, ◌+◌, Option, none, some,
  if◌then◌else◌, String, str_eq, ltb,
}
use Prim.Native.String.{count}
use maos_core.Common.Decimal.{Text}
use maos_core.Common.TextEquality.{text_eq}
use maos_core.Common.Table.{find_where, update_where, delete_where}
use maos_core.Models.{
  Bytes, Actor, ActorRole, ApiToken, Config, Queue, Fetched, row, no_rows, query_error, fetched,
  coalesce,
}

pub record Registry : Type 0 where
  pub queues : List Queue
  pub actors : List Actor
  pub tokens : List ApiToken
  pub configs : List Config
  pub next_queue_id : ℕ
  pub next_actor_id : ℕ

-- Whether the table has a row that meets the condition.
unfoldable pub any_row {ℓ} : {A : Type ℓ} → (A → Bool) → List A → Bool
any_row p [] = false
any_row p (x ∷ xs) = p x || any_row p xs

unfoldable pub queue_named : String → Queue → Bool
queue_named name q = str_eq q.name name

-- The CHECK name_length of migrate/migration/002.
unfoldable pub name_refused : String → Bool
name_refused name = not (ltb 0 (count name) && ltb (count name) 128)

unfoldable pub queue_insert : Bool → ℕ → String → Option Bytes → Registry → Registry × Fetched Queue
unfolding any_row queue_named name_refused
queue_insert fails now name metadata r =
    let q : Queue = record {
      id = r.next_queue_id;
      name = name;
      created_at = now;
      metadata = coalesce metadata (b'{' ∷ b'}' ∷ []);
      paused_at = none;
      updated_at = none;
    } in
    if fails || (name_refused name || any_row (queue_named name) r.queues)
    then (r, query_error)
    else (record r { queues = r.queues ++ q ∷ []; next_queue_id = suc r.next_queue_id }, row q)

pub record ActorInsertParams : Type 0 where
  pub name : String
  pub queue_id : ℕ
  pub role : ActorRole
  pub enabled : Bool
  pub deployable : Bool
  pub configurable : Bool
  pub migratable : Bool
  pub mcp_enabled : Bool
  pub metadata : Option Bytes
  pub permissions : Option (List String)

unfoldable pub actor_named : String → Actor → Bool
actor_named name a = str_eq a.name name

abbrev pub new_actor : ℕ → ℕ → ActorInsertParams → List String → Actor
new_actor id now arg permissions = record {
  id = id;
  name = arg.name;
  queue_id = arg.queue_id;
  created_at = now;
  metadata = coalesce arg.metadata (b'{' ∷ b'}' ∷ []);
  updated_at = none;
  enabled = arg.enabled;
  deployable = arg.deployable;
  configurable = arg.configurable;
  role = arg.role;
  migratable = arg.migratable;
  permissions = permissions;
  mcp_enabled = arg.mcp_enabled;
}

abbrev pub insert_actor :
    Bool → ℕ → ActorInsertParams → Registry → Option (List String) → Registry × Fetched Actor
insert_actor refused now arg r none = (r, query_error)
insert_actor refused now arg r (some permissions) =
    let a = new_actor r.next_actor_id now arg permissions in
    if refused
    then (r, query_error)
    else (record r { actors = r.actors ++ a ∷ []; next_actor_id = suc r.next_actor_id }, row a)

unfoldable pub actor_insert : Bool → ℕ → ActorInsertParams → Registry → Registry × Fetched Actor
unfolding any_row actor_named
actor_insert fails now arg r =
    insert_actor
      (fails
        || any_row (actor_named arg.name) r.actors
        || not (any_row (λ q. q.id == arg.queue_id) r.queues))
      now arg r arg.permissions

pub record ActorUpdateParams : Type 0 where
  pub id : ℕ
  pub name : Option String
  pub role : Option ActorRole
  pub enabled : Option Bool
  pub deployable : Option Bool
  pub configurable : Option Bool
  pub migratable : Option Bool
  pub mcp_enabled : Option Bool
  pub metadata : Option Bytes
  pub permissions : Option (List String)

abbrev pub set_actor : ActorUpdateParams → Actor → Actor
set_actor arg a = record a {
  name = coalesce arg.name a.name;
  role = coalesce arg.role a.role;
  enabled = coalesce arg.enabled a.enabled;
  deployable = coalesce arg.deployable a.deployable;
  configurable = coalesce arg.configurable a.configurable;
  migratable = coalesce arg.migratable a.migratable;
  mcp_enabled = coalesce arg.mcp_enabled a.mcp_enabled;
  metadata = coalesce arg.metadata a.metadata;
  permissions = coalesce arg.permissions a.permissions;
}

-- The index on names looks at the other rows.
abbrev pub takes_name : ℕ → Option String → List Actor → Bool
takes_name id none t = false
takes_name id (some name) t = any_row (actor_named name) (delete_where (λ a. a.id == id) t)

-- Only an update of a row can meet the index.
unfoldable pub actor_update : Bool → ActorUpdateParams → Registry → Registry × Fetched Actor
unfolding any_row actor_named
actor_update fails arg r =
    if fails || (any_row (λ a. a.id == arg.id) r.actors && takes_name arg.id arg.name r.actors)
    then (r, query_error)
    else (
      record r { actors = update_where (λ a. a.id == arg.id) (set_actor arg) r.actors },
      fetched (Option.map (set_actor arg) (find_where (λ a. a.id == arg.id) r.actors)),
    )

-- The text that ActorDelete returns.
pub data Deletion : Type 0 where
  not_found : Deletion
  referenced : Deletion
  done_deletion : Deletion

-- An API token keeps a foreign key on its actor, so that the deletion of its actor is an error.
unfoldable pub actor_delete : Bool → ℕ → Registry → Registry × Fetched Deletion
unfolding any_row
actor_delete fails id r =
    if fails
    then (r, query_error)
    else if not (any_row (λ a. a.id == id) r.actors)
    then (r, row not_found)
    else if any_row (λ c. c.actor_id == id) r.configs
    then (r, row referenced)
    else if any_row (λ t. t.actor_id == id) r.tokens
    then (r, query_error)
    else (record r { actors = delete_where (λ a. a.id == id) r.actors }, row done_deletion)

pub record ApiTokenInsertParams : Type 0 where
  pub id : Text
  pub actor_id : ℕ
  pub expire_at : ℕ
  pub created_by : String
  pub permissions : Option (List String)

abbrev pub new_token : ℕ → ApiTokenInsertParams → List String → ApiToken
new_token now arg permissions = record {
  id = arg.id;
  actor_id = arg.actor_id;
  expire_at = arg.expire_at;
  created_by = arg.created_by;
  created_at = now;
  permissions = permissions;
}

abbrev pub insert_token :
    Bool → ℕ → ApiTokenInsertParams → Registry → Option (List String) → Registry × Fetched ApiToken
insert_token refused now arg r none = (r, query_error)
insert_token refused now arg r (some permissions) =
    let t = new_token now arg permissions in
    if refused then (r, query_error) else (record r { tokens = r.tokens ++ t ∷ [] }, row t)

-- The primary key and the foreign key on the actor.
unfoldable pub token_refused : Text → ℕ → Registry → Bool
unfolding any_row text_eq
token_refused id actor_id r =
    any_row (λ t. text_eq t.id id) r.tokens || not (any_row (λ a. a.id == actor_id) r.actors)

unfoldable pub api_token_insert :
    Bool → ℕ → ApiTokenInsertParams → Registry → Registry × Fetched ApiToken
unfolding token_refused
api_token_insert fails now arg r =
    insert_token (fails || token_refused arg.id arg.actor_id r) now arg r arg.permissions

unfoldable pub api_token_delete : Bool → Text → Registry → Registry × Bool
unfolding text_eq
api_token_delete true id r = (r, false)
api_token_delete false id r =
    (record r { tokens = delete_where (λ t. text_eq t.id id) r.tokens }, true)

abbrev pub expire_soon : ℕ → ApiToken → ApiToken
expire_soon now t = record t { expire_at = now + 300 }

abbrev pub permissions_of : Option Actor → Option (List String)
permissions_of none = none
permissions_of (some a) = some a.permissions

abbrev pub rotated :
    ℕ → ApiTokenInsertParams → List ApiToken → Registry × Fetched ApiToken → Registry × Fetched Text
rotated now arg old (r, row t) = (
  record r {
    tokens =
        update_where (λ o. (o.actor_id == arg.actor_id) && not (text_eq o.id t.id))
          (expire_soon now) old
        ++ t ∷ [];
  },
  row t.id,
)
rotated now arg old (r, no_rows) = (r, no_rows)
rotated now arg old (r, query_error) = (r, query_error)

abbrev pub rotation_params : Text → ℕ → ℕ → String → Registry → ApiTokenInsertParams
rotation_params id actor_id new_expire_at created_by r = record {
  id = id;
  actor_id = actor_id;
  expire_at = new_expire_at;
  created_by = created_by;
  permissions = permissions_of (find_where (λ a. a.id == actor_id) r.actors);
}

-- One statement: the new token with the permissions of the actor, and the new expiry of the tokens
-- that the actor had before it.
unfoldable pub api_token_rotate :
    Bool → ℕ → Text → ℕ → ℕ → String → Registry → Registry × Fetched Text
unfolding token_refused text_eq
api_token_rotate fails now id actor_id new_expire_at created_by r =
    let arg = rotation_params id actor_id new_expire_at created_by r in
    rotated now arg r.tokens
      (insert_token (fails || token_refused id actor_id r) now arg r arg.permissions)
