-- ===== src/Deployment/Store.antt =====
-- dbaccess/dbsqlc/deployment.sql.go and config_suite.sql.go: the statements on the tables
-- `deployments`, `config_suites` and `configs`. `fails` is an error of the connection, and `now` is
-- the database's clock. The index deployment_name_idx (migrate/migration/010) makes names unique.
pub mod Statements
use mathlib.Core.Option
use maos_core.Common.{
  ◌++◌, ◌==◌, ltb, Bool, true, false, not, ◌&&◌, ◌||◌, List, [], ◌∷◌, ℕ, suc, Option, none, some,
  if◌then◌else◌, String, str_eq,
}
use maos_core.Common.Table.{find_where, select_where, update_where, delete_where}
use maos_core.Models.{
  Bytes, Actor, Config, ConfigSuite, Deployment, DeploymentStatus, Fetched, row, no_rows,
  query_error, fetched, coalesce, same_status,
}

pub record Store : Type 0 where
  pub actors : List Actor
  pub deployments : List Deployment
  pub config_suites : List ConfigSuite
  pub configs : List Config
  pub next_id : ℕ
  pub next_suite_id : ℕ
  pub next_config_id : ℕ

unfoldable pub find_deployment : Store → ℕ → Option Deployment
find_deployment store id = find_where (λ d. d.id == id) store.deployments

unfoldable pub deployment_get_by_id : Bool → Store → ℕ → Fetched Deployment
unfolding find_deployment
deployment_get_by_id fails store id =
    if fails then query_error else fetched (find_deployment store id)

unfoldable pub has_name : String → Deployment → Bool
has_name name d = str_eq d.name name

unfoldable pub is_some {ℓ} : {A : Type ℓ} → Option A → Bool
is_some none = false
is_some (some a) = true

-- An index on `name` refuses a second row of the name.
unfoldable pub name_taken : String → List Deployment → Bool
unfolding has_name is_some
name_taken name t = is_some (find_where (has_name name) t)

-- `ORDER BY created_at DESC, id DESC LIMIT 1`.
abbrev pub newer : Config → Config → Bool
newer a b = ltb b.created_at a.created_at || (a.created_at == b.created_at && ltb b.id a.id)

abbrev pub newer_of : Config → Option Config → Option Config
newer_of a none = some a
newer_of a (some b) = if newer a b then some a else some b

unfoldable pub newest : List Config → Option Config
newest [] = none
newest (a ∷ as') = newer_of a (newest as')

abbrev pub or_else {ℓ} : {A : Type ℓ} → Option A → Option A → Option A
or_else none b = b
or_else (some a) b = some a

abbrev pub in_suite : Option ℕ → ℕ → Bool
in_suite none id = false
in_suite (some s) id = s == id

abbrev pub in_suites : List ConfigSuite → Option ℕ → Bool
in_suites suites suite_id = is_some (find_where (λ s. in_suite suite_id s.id) suites)

-- The configuration of an actor that a new suite starts with: `preferred` says which suites come
-- first. The clause for the version has no second key: among equal times any row may come first.
unfoldable pub copied_config : (Option ℕ → Bool) → ℕ → ℕ → String → Store → ℕ → Actor → Config
unfolding newest select_where
copied_config preferred suite_id now created_by store id actor =
    let own = select_where (λ c. c.actor_id == actor.id) store.configs in
    let source =
      or_else (newest (select_where (λ c. preferred c.config_suite_id) own)) (newest own) in
    record {
      id = id;
      actor_id = actor.id;
      content = coalesce (Option.map (λ c. c.content) source) (b'{' ∷ b'}' ∷ []);
      min_actor_version = Option.bind (newest own) (λ c. c.min_actor_version);
      config_suite_id = some suite_id;
      created_by = created_by;
      created_at = now;
      updated_by = none;
      updated_at = none;
    }

unfoldable pub copy_configs : (ℕ → Actor → Config) → ℕ → List Actor → List Config
copy_configs f id [] = []
copy_configs f id (a ∷ as') =
    let rest = copy_configs f (suc id) as' in
    let skipped = copy_configs f id as' in if a.configurable then f id a ∷ rest else skipped

abbrev pub new_suite : ℕ → ℕ → String → ConfigSuite
new_suite id now created_by = record {
  id = id;
  active = false;
  created_by = created_by;
  created_at = now;
  updated_by = none;
  updated_at = none;
  deployed_at = none;
}

abbrev pub new_deployment : ℕ → ℕ → ℕ → String → String → Option (List String) → Deployment
new_deployment id suite_id now name created_by reviewers = record {
  id = id;
  name = name;
  status = DeploymentStatus.draft;
  reviewers = coalesce reviewers [];
  config_suite_id = some suite_id;
  notes = none;
  created_by = created_by;
  created_at = now;
  approved_by = none;
  approved_at = none;
  finished_by = none;
  finished_at = none;
  migration_logs = none;
  last_error = none;
  deploying_at = none;
  deployed_at = none;
}

unfoldable pub count_configs : List Config → ℕ → ℕ
count_configs [] n = n
count_configs (c ∷ cs) n = count_configs cs (suc n)

-- The three INSERTs of one statement.
unfoldable pub insert_with :
    (Option ℕ → Bool)
    → ℕ
    → String
    → String
    → Option (List String)
    → Store
    → Store × Fetched Deployment
unfolding copied_config copy_configs count_configs name_taken
insert_with preferred now name created_by reviewers store =
    let d = new_deployment store.next_id store.next_suite_id now name created_by reviewers in
    let copies =
      copy_configs (copied_config preferred store.next_suite_id now created_by store)
        store.next_config_id store.actors in
    if name_taken name store.deployments then (store, query_error) else (
      record store {
        deployments = store.deployments ++ d ∷ [];
        config_suites = store.config_suites ++ new_suite store.next_suite_id now created_by ∷ [];
        configs = store.configs ++ copies;
        next_id = suc store.next_id;
        next_suite_id = suc store.next_suite_id;
        next_config_id = count_configs copies store.next_config_id;
      },
      row d,
    )

unfoldable pub deployment_insert_with_config_suite :
    Bool → ℕ → String → String → Option (List String) → Store → Store × Fetched Deployment
unfolding insert_with select_where
deployment_insert_with_config_suite fails now name created_by reviewers store =
    if fails
    then (store, query_error)
    else insert_with (in_suites (select_where (λ s. s.active) store.config_suites)) now name
        created_by reviewers store

abbrev pub same_suite : Option ℕ → Option ℕ → Bool
same_suite none s = false
same_suite (some a) s = in_suite s a

abbrev pub clone_of :
    ℕ
    → String
    → String
    → Option (List String)
    → Store
    → Option Deployment
    → Store × Fetched Deployment
clone_of now name created_by reviewers store none = (store, no_rows)
clone_of now name created_by reviewers store (some d) =
    insert_with (same_suite d.config_suite_id) now name created_by reviewers store

unfoldable pub deployment_clone_from :
    Bool → ℕ → ℕ → String → String → Option (List String) → Store → Store × Fetched Deployment
unfolding find_deployment insert_with
deployment_clone_from fails now clone_from name created_by reviewers store =
    if fails
    then (store, query_error)
    else clone_of now name created_by reviewers store (find_deployment store clone_from)
