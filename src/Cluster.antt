-- ===== src/Cluster.antt =====
-- k8s/controller.go: UpdateDeploymentSet, which makes the deployments, services and ingresses of the
-- cluster those of a deployment set. The cluster is not part of the program: it is a type of states
-- with the calls of client-go, the record Api. Logging is left out.
pub mod Objects
pub mod Laws
pub mod Progress
pub mod Convergence
pub mod Deletion
pub mod Examples
use mathlib.Core.Option.{bind}
use maos_core.Common.Decimal.{Text}
use maos_core.Cluster.Objects.{
  deployments, service_struct, ingress_struct, service_name_of, same_kind, api_key_name, ingresses,
  accounts, api_key_secret, secrets, Kind, services, deployment_struct, service_account,
  DeploymentParams, Object,
}
use mathlib.Core.Option
use maos_core.Common.{
  ◌++◌, ◌==◌, Bool, true, false, not, ◌&&◌, ◌||◌, List, [], ◌∷◌, ℕ, Option, none, some, map,
  if◌then◌else◌, String, str_eq,
}
use maos_core.Common.Table.{find_where, delete_where}
use maos_core.Admin.Registry.{any_row}

-- An object of the cluster that carries the label of the server, as a list call shows it; `account` is
-- the service account in the template of a deployment.
pub record Listed : Type 0 where
  pub name : String
  pub account : String

pub data Lookup : Type 0 where
  present : Lookup
  absent : Lookup
  lookup_error : Lookup

pub data Deleted : Type 0 where
  deleted : Deleted
  was_absent : Deleted
  delete_error : Deleted

-- The calls, in the namespace of the controller. The lists are those with the label created-by=maos.
pub record Api (S : Type 0) : Type 0 where
  pub list : Kind → S → Option (List Listed)
  pub get : Kind → String → S → Lookup
  pub create : Object → S → S × Bool
  pub update : Object → S → S × Bool
  pub delete : Kind → String → S → S × Deleted

pub data Result : Type 0 where
  ok : Result
  failed : Result
  panics : Result

-- The code after `if err != nil { return err }`.
abbrev pub after : {S : Type 0} → S × Result → (S → S × Result) → S × Result
after (s, ok) next = next s
after (s, failed) next = (s, failed)
after (s, panics) next = (s, panics)

abbrev pub as_result : {S : Type 0} → S × Bool → S × Result
as_result (s, true) = (s, ok)
as_result (s, false) = (s, failed)

module _ {S : Type 0} (api : Api S) where
  abbrev pub write_secret : Object → Lookup → S → S × Result
  write_secret secret present s = as_result (api.update secret s)
  write_secret secret absent s = as_result (api.create secret s)
  write_secret secret lookup_error s = (s, failed)

  unfoldable pub create_or_update_api_key : DeploymentParams → S → S × Result
  create_or_update_api_key params s =
      write_secret (api_key_secret params) (api.get secrets (api_key_secret params).name s) s

  abbrev pub ensure_account : String → Lookup → S → S × Result
  ensure_account name present s = (s, ok)
  ensure_account name absent s = as_result (api.create (service_account name) s)
  ensure_account name lookup_error s = (s, failed)

  unfoldable pub create_service_account : String → S → S × Result
  create_service_account name s = ensure_account name (api.get accounts name s) s

  -- checkDeploymentExists.
  abbrev pub refuse_existing : Lookup → S → S × Result
  refuse_existing present s = (s, failed)
  refuse_existing absent s = (s, ok)
  refuse_existing lookup_error s = (s, failed)

  unfoldable pub create_deployment_object : Text → DeploymentParams → S → S × Result
  unfolding create_or_update_api_key create_service_account
  create_deployment_object created_at params s =
      after (refuse_existing (api.get deployments params.name s) s) (λ s.
        after (create_service_account params.name s) (λ s.
          after (create_or_update_api_key params s)
            (λ s. as_result (api.create (deployment_struct created_at params params.name) s))))

  abbrev pub require_account : Lookup → S → S × Result
  require_account present s = (s, ok)
  require_account absent s = (s, failed)
  require_account lookup_error s = (s, failed)

  unfoldable pub update_deployment_object : Text → Listed → DeploymentParams → S → S × Result
  unfolding create_or_update_api_key
  update_deployment_object created_at existing params s =
      after (create_or_update_api_key params s) (λ s.
        after (require_account (api.get accounts existing.account s) s)
          (λ s. as_result (api.update (deployment_struct created_at params existing.account) s)))

  -- The ingress reads the first port; without one the code panics.
  abbrev pub write_ingress : (Object → S → S × Bool) → Option Object → S → S × Result
  write_ingress call none s = (s, panics)
  write_ingress call (some ingress) s = as_result (call ingress s)

  -- The state, and for each kind the names of the objects that are still obsolete.
  abbrev pub Work : Type 0
  Work = S × (Kind → List String)

  abbrev pub keep_name : Kind → String → (Kind → List String) → Kind → List String
  keep_name k name obsolete k' =
      if same_kind k k' then delete_where (str_eq name) (obsolete k') else obsolete k'

  abbrev pub with_obsolete : (Kind → List String) → S × Result → Work × Result
  with_obsolete obsolete (s, r) = ((s, obsolete), r)

  abbrev pub update_or_create :
      Kind
      → String
      → (Listed → S → S × Result)
      → (S → S × Result)
      → Option Listed
      → Work
      → Work × Result
  update_or_create k name upd cre none (s, obsolete) = with_obsolete obsolete (cre s)
  update_or_create k name upd cre (some existing) (s, obsolete) =
      with_obsolete (keep_name k name obsolete) (upd existing s)

  abbrev pub named : String → Listed → Bool
  named name l = str_eq l.name name

  abbrev pub process_service : (Kind → List Listed) → DeploymentParams → Work → Work × Result
  process_service existing params w =
      if params.has_service
      then update_or_create services (service_name_of params)
          (λ l s. as_result (api.update (service_struct params) s))
          (λ s. as_result (api.create (service_struct params) s))
          (find_where (named (service_name_of params)) (existing services)) w
      else (w, ok)

  abbrev pub process_ingress : (Kind → List Listed) → DeploymentParams → Work → Work × Result
  process_ingress existing params w =
      if params.has_ingress
      then update_or_create ingresses params.name
          (λ l s. write_ingress api.update (ingress_struct params) s)
          (λ s. write_ingress api.create (ingress_struct params) s)
          (find_where (named params.name) (existing ingresses)) w
      else (w, ok)

  unfoldable pub process_one : Text → (Kind → List Listed) → DeploymentParams → Work → Work × Result
  unfolding update_deployment_object create_deployment_object
  process_one created_at existing params w =
      after
        (update_or_create deployments params.name
          (λ l s. update_deployment_object created_at l params s)
          (λ s. create_deployment_object created_at params s)
          (find_where (named params.name) (existing deployments)) w)
        (λ w. after (process_service existing params w) (λ w. process_ingress existing params w))

  unfoldable pub process_deployment_set :
      Text → (Kind → List Listed) → List DeploymentParams → Work → Work × Result
  unfolding process_one
  process_deployment_set created_at existing [] w = (w, ok)
  process_deployment_set created_at existing (params ∷ set) w =
      after (process_one created_at existing params w)
        (λ w. process_deployment_set created_at existing set w)

  -- deleteDeploymentResources: each call is made where the one before it did not fail; the errors are
  -- only logged.
  abbrev pub delete_account : String → S × Deleted → S
  delete_account name (s, delete_error) = s
  delete_account name (s, deleted) = (api.delete accounts name s).0
  delete_account name (s, was_absent) = (api.delete accounts name s).0

  abbrev pub delete_secret_of : String → S × Deleted → S
  delete_secret_of name (s, deleted) =
      delete_account name (api.delete secrets (api_key_name name) s)
  delete_secret_of name (s, was_absent) = s
  delete_secret_of name (s, delete_error) = s

  unfoldable pub delete_deployment_resources : String → S → S
  delete_deployment_resources name s = delete_secret_of name (api.delete deployments name s)

  unfoldable pub delete_each : (String → S → S) → List String → S → S
  delete_each remove [] s = s
  delete_each remove (name ∷ names) s = delete_each remove names (remove name s)

  unfoldable pub delete_obsolete_resources : (Kind → List String) → S → S
  unfolding delete_each delete_deployment_resources
  delete_obsolete_resources obsolete s =
      delete_each (λ n s. (api.delete ingresses n s).0) (obsolete ingresses)
        (delete_each (λ n s. (api.delete services n s).0) (obsolete services)
          (delete_each delete_deployment_resources (obsolete deployments) s))

  abbrev pub listing : List Listed → List Listed → List Listed → Kind → List Listed
  listing ds ss gs deployments = ds
  listing ds ss gs services = ss
  listing ds ss gs ingresses = gs
  listing ds ss gs secrets = []
  listing ds ss gs accounts = []

  -- listExistingResources; `none` is an error.
  abbrev pub listed_all :
      Option (List Listed)
      → Option (List Listed)
      → Option (List Listed)
      → Option (Kind → List Listed)
  listed_all (some ds) (some ss) (some gs) = some (listing ds ss gs)
  listed_all (some ds) (some ss) none = none
  listed_all (some ds) none gs = none
  listed_all none ss gs = none

  abbrev pub delete_after : Work × Result → S × Result
  delete_after ((s, obsolete), ok) = (delete_obsolete_resources obsolete s, ok)
  delete_after ((s, obsolete), failed) = (s, failed)
  delete_after ((s, obsolete), panics) = (s, panics)

  abbrev pub names_of : (Kind → List Listed) → Kind → List String
  names_of existing k = map (λ l. l.name) (existing k)

  abbrev pub update_listed :
      Text → List DeploymentParams → S → Option (Kind → List Listed) → S × Result
  update_listed created_at set s none = (s, failed)
  update_listed created_at set s (some existing) =
      delete_after (process_deployment_set created_at existing set (s, names_of existing))

  unfoldable pub update_deployment_set : Text → List DeploymentParams → S → S × Result
  unfolding process_deployment_set delete_obsolete_resources
  update_deployment_set created_at set s =
      update_listed created_at set s
        (listed_all (api.list deployments s) (api.list services s) (api.list ingresses s))
