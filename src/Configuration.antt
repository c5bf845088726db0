-- ===== src/Configuration.antt =====
-- dbaccess/dbsqlc/config.sql.go, handler/get_config.go and admin/config_manage.go: the configuration
-- that an actor is served, and the change of one. encoding/json is the record ContentCodec, and an
-- error's text stands without its cause.
pub mod Serving
pub mod Frozen
pub mod Unchanged
pub mod Examples
use mathlib.Core.Option
use maos_core.Common.{
  ◌==◌, ltb, Bool, true, false, not, ◌&&◌, ◌||◌, List, [], ◌∷◌, ℕ, Option, none, some,
  if◌then◌else◌, String, str_eq,
}
use maos_core.Common.Decimal.{Text}
use maos_core.Common.Int.{ℤ, ltb_ℤ}
use maos_core.Common.Table.{find_where, select_where, update_where}
use maos_core.Models.{
  Actor, Bytes, Config, ConfigSuite, Fetched, row, no_rows, query_error, fetched, coalesce,
}
use maos_core.Util.Version.{deserialize_actor_version}
use maos_core.Deployment.Store.{Store, in_suite, is_some}
use maos_core.Deployment.Store.Statements.{contains}
use maos_core.Admin.Registry.{any_row}
use maos_core.Admin.Kube.{Content, Formats, validate_kube_config}

-- `>=` on integer[]: the first difference decides, else the length.
unfoldable pub array_ge : List ℤ → List ℤ → Bool
array_ge a [] = true
array_ge [] (y ∷ ys) = false
array_ge (x ∷ xs) (y ∷ ys) =
    let rest = array_ge xs ys in if ltb_ℤ x y then false else if ltb_ℤ y x then true else rest

-- A comparison with NULL does not hold.
abbrev pub version_ge : Option (List ℤ) → List ℤ → Bool
version_ge none min = false
version_ge (some version) min = array_ge version min

abbrev pub compatible_with : Option (List ℤ) → Option (List ℤ) → Bool
compatible_with version none = true
compatible_with version (some min) = version_ge version min

-- A suite that was deployed, and that is active or not.
abbrev pub deployed_suite : Bool → Option ℕ → ConfigSuite → Bool
deployed_suite active suite_id s =
    in_suite suite_id s.id && ((if active then s.active else not s.active) && is_some s.deployed_at)

-- The WHERE of the two queries, with their JOINs.
unfoldable pub is_eligible : Bool → Store → ℕ → Option (List ℤ) → Config → Bool
unfolding any_row is_some array_ge
is_eligible active store actor_id version c =
    (c.actor_id == actor_id)
    && (any_row (λ a. a.id == c.actor_id) store.actors
        && (any_row (deployed_suite active c.config_suite_id) store.config_suites
            && compatible_with version c.min_actor_version))

-- `ORDER BY configs.id DESC LIMIT 1`.
abbrev pub later_of : Config → Option Config → Option Config
later_of c none = some c
later_of c (some d) = if ltb c.id d.id then some d else some c

unfoldable pub latest : List Config → Option Config
latest [] = none
latest (c ∷ cs) = later_of c (latest cs)

unfoldable pub config_actor_config : Bool → Bool → Store → ℕ → Option (List ℤ) → Fetched Config
unfolding is_eligible latest select_where
config_actor_config active fails store actor_id version =
    if fails
    then query_error
    else fetched (latest (select_where (is_eligible active store actor_id version) store.configs))

-- json.Marshal of a pointer to a content, and json.Unmarshal; `none` is an error.
pub record ContentCodec : Type 0 where
  pub marshal : Option Content → Option Bytes
  pub unmarshal : Bytes → Option Content

pub data Answer (A : Type 0) : Type 0 where
  answered : A → Answer A
  bad_request : String → Answer A
  unauthorized : Answer A
  missing : Answer A
  server_error : String → Answer A
  panics : Answer A

abbrev pub parsed_or : Option Content → Answer Content
parsed_or none = server_error "Cannot unmarshal actor config"
parsed_or (some content) = answered content

abbrev pub answer_retired : ContentCodec → Fetched Config → Answer Content
answer_retired codec (row c) = parsed_or (codec.unmarshal c.content)
answer_retired codec no_rows = missing
answer_retired codec query_error = server_error "Cannot get actor config"

-- Only where no active configuration is found, the retired ones are asked.
abbrev pub answer_active : ContentCodec → Fetched Config → Fetched Config → Answer Content
answer_active codec (row c) retired = parsed_or (codec.unmarshal c.content)
answer_active codec no_rows retired = answer_retired codec retired
answer_active codec query_error retired = server_error "Cannot get actor config"

abbrev pub for_version :
    ContentCodec → Bool → Bool → Store → ℕ → Option Text → Option (List ℤ) → Answer Content
for_version codec active_fails retired_fails store actor_id (some text) none =
    bad_request "Cannot parse actor version"
for_version codec active_fails retired_fails store actor_id header version =
    answer_active codec (config_actor_config true active_fails store actor_id version)
      (config_actor_config false retired_fails store actor_id version)

-- The token of the request gives the actor; the header X-Actor-Version its version.
unfoldable pub get_actor_config :
    ContentCodec → Bool → Bool → Store → Option ℕ → Option Text → Answer Content
unfolding config_actor_config deserialize_actor_version
get_actor_config codec active_fails retired_fails store none header = unauthorized
get_actor_config codec active_fails retired_fails store (some actor_id) header =
    for_version codec active_fails retired_fails store actor_id header
      (deserialize_actor_version header)

-- config_suite_check, at the row that is updated: a suite of the configuration that was not deployed.
abbrev pub open_suite : Option ℕ → ConfigSuite → Bool
open_suite suite_id s = in_suite suite_id s.id && not (is_some s.deployed_at)

abbrev pub reviews : String → Store → ConfigSuite → Bool
reviews updater store s =
    any_row (λ d. in_suite d.config_suite_id s.id && contains updater d.reviewers) store.deployments

-- The id is the primary key, so that the row with the id is the one that the check finds.
unfoldable pub can_update : ℕ → String → Store → Config → Bool
unfolding any_row is_some contains
can_update id updater store c =
    (c.id == id)
    && (any_row (λ a. a.id == c.actor_id) store.actors
        && ((str_eq c.created_by updater
              || any_row (λ s. open_suite c.config_suite_id s && reviews updater store s)
                  store.config_suites)
            && any_row (open_suite c.config_suite_id) store.config_suites))

abbrev pub keep_version : Option (List ℤ) → Option (List ℤ) → Option (List ℤ)
keep_version none old = old
keep_version (some v) old = some v

abbrev pub set_content : ℕ → String → Option Bytes → Option (List ℤ) → Config → Config
set_content now updater content min_actor_version c = record c {
  content = coalesce content c.content;
  min_actor_version = keep_version min_actor_version c.min_actor_version;
  updated_at = some now;
  updated_by = some updater;
}

unfoldable pub config_update_inactive_content_by_creator :
    Bool → ℕ → ℕ → String → Option Bytes → Option (List ℤ) → Store → Store × Fetched Config
unfolding can_update
config_update_inactive_content_by_creator fails now id updater content version store =
    if fails then (store, query_error) else (
      record store {
        configs =
            update_where (can_update id updater store) (set_content now updater content version)
              store.configs;
      },
      fetched (
          Option.map (set_content now updater content version)
            (find_where (can_update id updater store) store.configs)),
    )

abbrev pub actor_of_config : Store → Option Config → Fetched Actor
actor_of_config store none = no_rows
actor_of_config store (some c) = fetched (find_where (λ a. a.id == c.actor_id) store.actors)

unfoldable pub get_actor_by_config_id : Bool → Store → ℕ → Fetched Actor
get_actor_by_config_id fails store id =
    if fails
    then query_error
    else actor_of_config store (find_where (λ c. c.id == id) store.configs)

-- Which calls of UpdateConfig fail, and the database's clock.
pub record UpdateCall : Type 0 where
  pub get_fails : Bool
  pub update_fails : Bool
  pub now : ℕ

abbrev pub with_content : Config → Option Content → Answer (Config × Content)
with_content c none = server_error "Cannot unmarshal content"
with_content c (some content) = answered (c, content)

abbrev pub shown_config : ContentCodec → Config → Answer (Config × Content)
shown_config codec c = if c.id == 0 then missing else with_content c (codec.unmarshal c.content)

abbrev pub answer_config : ContentCodec → Store × Fetched Config → Store × Answer (Config × Content)
answer_config codec (store, row c) = (store, shown_config codec c)
answer_config codec (store, no_rows) = (store, missing)
answer_config codec (store, query_error) = (store, server_error "Cannot update config")

abbrev pub write_config :
    ContentCodec → UpdateCall → ℕ → String → Bytes → Store → Store × Answer (Config × Content)
write_config codec call id user content store = answer_config codec (
    config_update_inactive_content_by_creator call.update_fails call.now id user (some content) none
      store)

abbrev pub refuse :
    ContentCodec
    → UpdateCall
    → ℕ
    → String
    → Bytes
    → Store
    → Option String
    → Store × Answer (Config × Content)
refuse codec call id user json store (some error) = (store, bad_request "Invalid kube config")
refuse codec call id user json store none = write_config codec call id user json store

-- `*request.Body.Content` of a request without content is a nil pointer.
abbrev pub checked_write :
    Formats
    → ContentCodec
    → UpdateCall
    → ℕ
    → String
    → Actor
    → Option Content
    → Bytes
    → Store
    → Store × Answer (Config × Content)
checked_write fmt codec call id user actor none json store = (store, panics)
checked_write fmt codec call id user actor (some content) json store =
    refuse codec call id user json store
      (validate_kube_config fmt content actor.role actor.migratable)

abbrev pub for_actor :
    Formats
    → ContentCodec
    → UpdateCall
    → ℕ
    → String
    → Option Content
    → Bytes
    → Store
    → Fetched Actor
    → Store × Answer (Config × Content)
for_actor fmt codec call id user content json store (row actor) =
    if actor.deployable
    then checked_write fmt codec call id user actor content json store
    else write_config codec call id user json store
for_actor fmt codec call id user content json store no_rows = (store, missing)
for_actor fmt codec call id user content json store query_error =
    (store, server_error "Cannot get actor by config id")

abbrev pub marshalled :
    Formats
    → ContentCodec
    → UpdateCall
    → ℕ
    → String
    → Option Content
    → Store
    → Option Bytes
    → Store × Answer (Config × Content)
marshalled fmt codec call id user content store none =
    (store, server_error "Cannot marshal actor config content")
marshalled fmt codec call id user content store (some json) =
    for_actor fmt codec call id user content json store
      (get_actor_by_config_id call.get_fails store id)

unfoldable pub update_config :
    Formats
    → ContentCodec
    → UpdateCall
    → ℕ
    → String
    → Option Content
    → Store
    → Store × Answer (Config × Content)
unfolding get_actor_by_config_id config_update_inactive_content_by_creator validate_kube_config
update_config fmt codec call id user content store =
    marshalled fmt codec call id user content store (codec.marshal content)
