-- ===== src/Admin/Tokens.antt =====
-- admin/token_manage.go, and the rotation of API keys in admin/deployment_manage.go. The texts that
-- GenerateAPIToken draws are given from outside.
pub mod Rotation
pub mod Renewal
use maos_core.Common.{
  ◌==◌, Bool, true, false, not, ◌||◌, List, [], ◌∷◌, ℕ, ◌+◌, suc, Option, none, some, if◌then◌else◌,
  String, str_eq,
}
use maos_core.Common.Decimal.{Text}
use maos_core.Models.{ActorRole, ApiToken, Fetched, row, no_rows, query_error}
use maos_core.Admin.Registry.{
  ApiTokenInsertParams, Registry, api_token_insert, api_token_delete, api_token_rotate,
}
use maos_core.Admin.Actors.{Reply, success, bad_request, server_error}

pub record ApiTokenCreate : Type 0 where
  pub actor_id : ℕ
  pub created_by : String
  pub expire_at : ℕ
  pub permissions : Option (List String)

abbrev pub answer_token : Registry × Fetched ApiToken → Registry × Reply ApiToken
answer_token (r, row t) = (r, success t)
answer_token (r, no_rows) = (r, server_error "Cannot insert API tokens")
answer_token (r, query_error) = (r, server_error "Cannot insert API tokens")

abbrev pub token_params : Text → ApiTokenCreate → ApiTokenInsertParams
token_params generated body = record {
  id = generated;
  actor_id = body.actor_id;
  expire_at = body.expire_at;
  created_by = body.created_by;
  permissions = body.permissions;
}

unfoldable pub create_api_token :
    Bool → ℕ → Text → ApiTokenCreate → Registry → Registry × Reply ApiToken
unfolding api_token_insert
create_api_token fails now generated body r =
    if body.actor_id == 0 || str_eq body.created_by "" || body.expire_at == 0
    then (r, bad_request "Missing required fields")
    else answer_token (api_token_insert fails now (token_params generated body) r)

abbrev pub answer_deleted : Registry × Bool → Registry × Reply Unit
answer_deleted (r, true) = (r, success tt)
answer_deleted (r, false) = (r, server_error "Cannot delete API token")

unfoldable pub delete_api_token : Bool → Text → Registry → Registry × Reply Unit
unfolding api_token_delete
delete_api_token fails id r = answer_deleted (api_token_delete fails id r)

-- A row of ConfigListBySuiteIdGroupByActor, as far as the rotation reads it.
pub record ActorConfig : Type 0 where
  pub actor_id : ℕ
  pub actor_role : ActorRole
  pub actor_deployable : Bool

abbrev pub deployable_role : ActorRole → Bool
deployable_role ActorRole.agent = true
deployable_role ActorRole.service = true
deployable_role ActorRole.portal = true
deployable_role ActorRole.user = false
deployable_role ActorRole.other = false

abbrev pub rotates : ActorConfig → Bool
rotates c = if not c.actor_deployable then false else deployable_role c.actor_role

-- What a rotation is given: the texts that are drawn and the clock of the server, which are read once
-- for each actor that rotates, the time of the transaction, and the actors whose statement fails.
pub record Draws : Type 0 where
  pub generated : ℕ → Text
  pub server_now : ℕ → ℕ
  pub now : ℕ
  pub fails : ℕ → Bool

-- The map from actors to tokens, newest first; the outer `none` is an error.
abbrev pub Keys : Type 0
Keys = List (ℕ × Text)

abbrev pub key_of : ℕ → Keys → Option Text
key_of actor_id [] = none
key_of actor_id ((a, t) ∷ keys) = if a == actor_id then some t else key_of actor_id keys

-- 60 days in seconds.
abbrev pub sixty_days : ℕ
sixty_days = 5184000

-- An error ends the loop.
abbrev pub rotated_next : Registry × Fetched Text → Registry × Option Keys → Registry × Option Keys
rotated_next (r, row t) rest = rest
rotated_next (r, no_rows) rest = (r, none)
rotated_next (r, query_error) rest = (r, none)

-- The n-th draw and the n-th reading of the clock are used for the n-th actor that rotates.
unfoldable pub rotate_keys : Draws → ℕ → List ActorConfig → Keys → Registry → Registry × Option Keys
unfolding api_token_rotate
rotate_keys d n [] keys r = (r, some keys)
rotate_keys d n (c ∷ configs) keys r =
    let skipped = rotate_keys d n configs keys r in
    let q =
      api_token_rotate (d.fails c.actor_id) d.now (d.generated n) c.actor_id
        (d.server_now n + sixty_days) "maos-core" r in
    let rest = rotate_keys d (suc n) configs ((c.actor_id, d.generated n) ∷ keys) q.0 in
    if not (rotates c) then skipped else rotated_next q rest

unfoldable pub rotate_actor_api_keys : Draws → List ActorConfig → Registry → Registry × Option Keys
unfolding rotate_keys
rotate_actor_api_keys d configs r = rotate_keys d 0 configs [] r
