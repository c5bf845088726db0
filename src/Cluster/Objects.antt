-- ===== src/Cluster/Objects.antt =====
-- k8s/controller.go: the objects that the controller writes. Quantities stay texts, and the fields
-- that never vary (namespace, strategy, protocol, types) are left out.
use maos_core.Admin.Kube.{codes}
use maos_core.Auth.Token.{strip_prefix}
use Prim.Native.String.{◌++◌ as append}
use mathlib.Core.Option
use maos_core.Common.{
  length, ltb, map, ◌++◌, ◌==◌, Bool, true, false, List, [], ◌∷◌, Option, none, some, if◌then◌else◌,
  String, str_eq,
}
use maos_core.Common.Decimal.{format_int, Text}
use maos_core.Common.Int.{ℤ}

pub data Kind : Type 0 where
  deployments services ingresses secrets accounts : Kind

unfoldable pub same_kind : Kind → Kind → Bool
same_kind deployments deployments = true
same_kind services services = true
same_kind ingresses ingresses = true
same_kind secrets secrets = true
same_kind accounts accounts = true
same_kind _ _ = false

abbrev pub Labels : Type 0
Labels = List (String × String)

pub record DeploymentParams : Type 0 where
  pub name : String
  pub replicas : ℤ
  pub labels : Labels
  pub image : String
  pub image_pull_secrets : String
  pub launch_command : List Text
  pub env_vars : List (String × Text)
  pub api_key : Text
  pub memory_request : String
  pub memory_limit : String
  pub cpu_request : String
  pub cpu_limit : String
  pub has_service : Bool
  pub service_ports : List ℤ
  pub service_name : String
  pub has_ingress : Bool
  pub ingress_host : String
  pub body_limit : String

pub data EnvVar : Type 0 where
  plain : String → Text → EnvVar
  from_secret : String → Text → Text → EnvVar

pub record ServicePort : Type 0 where
  pub name : Text
  pub port : ℤ

pub record PodTemplate : Type 0 where
  pub account : String
  pub image : String
  pub command : List Text
  pub env : List EnvVar
  pub memory_request : String
  pub memory_limit : String
  pub cpu_request : String
  pub cpu_limit : String
  pub pull_secrets : List String

pub data Body : Type 0 where
  deployment_body : ℤ → PodTemplate → Body
  service_body : List ServicePort → Body
  ingress_body : String → String → String → ℤ → Body
  secret_body : List (String × Text) → Body
  account_body : Body

pub record Object : Type 0 where
  pub kind : Kind
  pub name : String
  pub labels : Labels
  pub body : Body

-- `labels[key] = value`.
unfoldable pub set_label : String → String → Labels → Labels
set_label key value [] = (key, value) ∷ []
set_label key value ((k, v) ∷ rest) =
    let rest' = set_label key value rest in
    if str_eq k key then (key, value) ∷ rest else (k, v) ∷ rest'

-- createDeploymentStruct writes the label into the map of the parameters, which the service and the
-- ingress use after it.
unfoldable pub maos_labels : DeploymentParams → Labels
unfolding set_label
maos_labels params = set_label "created-by" "maos" params.labels

-- The texts up to the first colon and behind it.
unfoldable pub cut_colon : Text → Option (Text × Text)
cut_colon [] = none
cut_colon (c ∷ cs) =
    let rest = cut_colon cs in
    if c == b':' then some ([], cs) else Option.map (λ (q : Text × Text). (c ∷ q.0, q.1)) rest

abbrev pub secret_mark : Text
secret_mark = b'[' ∷ b'[' ∷ b'S' ∷ b'E' ∷ b'C' ∷ b'R' ∷ b'E' ∷ b'T' ∷ b']' ∷ b']' ∷ []

abbrev pub secret_parts : Text → Text → Option (Text × Text) → Text × Text
secret_parts rest default_key none = (rest, default_key)
secret_parts rest default_key (some parts) = parts

-- parseSecretValue, of a value without its mark.
unfoldable pub parse_secret_value : Text → Text → Text × Text
unfolding cut_colon
parse_secret_value rest default_key = secret_parts rest default_key (cut_colon rest)

abbrev pub env_var : (String → Text) → String → Text → Option Text → EnvVar
env_var codes key value none = plain key value
env_var codes key value (some rest) =
    let (name, secret_key) = parse_secret_value rest (codes key) in from_secret key name secret_key

-- createEnvVars: a value with the mark is read from a secret.
unfoldable pub create_env_vars : List (String × Text) → List EnvVar
unfolding parse_secret_value strip_prefix
create_env_vars [] = []
create_env_vars ((key, value) ∷ rest) =
    env_var codes key value (strip_prefix secret_mark value) ∷ create_env_vars rest

unfoldable pub api_key_name : String → String
api_key_name name = append name "-api-key"

abbrev pub key_text : Text
key_text = codes "MAOS_API_KEY"

-- `created_at` is the time in milliseconds, written out.
unfoldable pub all_env_vars : Text → DeploymentParams → List EnvVar
unfolding create_env_vars api_key_name
all_env_vars created_at params =
    create_env_vars params.env_vars
    ++ from_secret "MAOS_API_KEY" (codes (api_key_name params.name)) key_text
      ∷ plain "MAOS_CREATED_AT" created_at
      ∷ []

-- The labels are a map that is not nil, as the only caller gives them (admin/deployment_manage.go:816);
-- for a nil map the code returns no object.
unfoldable pub deployment_struct : Text → DeploymentParams → String → Object
unfolding all_env_vars maos_labels
deployment_struct created_at params account = record {
  kind = deployments;
  name = params.name;
  labels = maos_labels params;
  body = deployment_body params.replicas (record {
    account = account;
    image = params.image;
    command = params.launch_command;
    env = all_env_vars created_at params;
    memory_request = params.memory_request;
    memory_limit = params.memory_limit;
    cpu_request = params.cpu_request;
    cpu_limit = params.cpu_limit;
    pull_secrets =
        if str_eq params.image_pull_secrets "" then [] else params.image_pull_secrets ∷ [];
  });
}

unfoldable pub service_name_of : DeploymentParams → String
service_name_of params = if str_eq params.service_name "" then params.name else params.service_name

-- Only several ports have names.
abbrev pub service_port : Bool → ℤ → ServicePort
service_port several port = record {
  name = if several then codes "port-" ++ format_int port else [];
  port = port;
}

unfoldable pub service_struct : DeploymentParams → Object
unfolding maos_labels service_name_of
service_struct params = record {
  kind = services;
  name = service_name_of params;
  labels = maos_labels params;
  body =
      service_body (map (service_port (ltb 1 (length params.service_ports))) params.service_ports);
}

abbrev pub ingress_at : DeploymentParams → List ℤ → Option Object
ingress_at params [] = none
ingress_at params (port ∷ ports) = some (record {
  kind = ingresses;
  name = params.name;
  labels = maos_labels params;
  body = ingress_body params.body_limit params.ingress_host (service_name_of params) port;
})

-- `params.ServicePorts[0]` panics where there is none.
unfoldable pub ingress_struct : DeploymentParams → Option Object
unfolding maos_labels service_name_of
ingress_struct params = ingress_at params params.service_ports

unfoldable pub api_key_secret : DeploymentParams → Object
unfolding api_key_name
api_key_secret params = record {
  kind = secrets;
  name = api_key_name params.name;
  labels = ("created-by", "maos-internal") ∷ [];
  body = secret_body (("MAOS_API_KEY", params.api_key) ∷ []);
}

unfoldable pub service_account : String → Object
service_account name = record { kind = accounts; name = name; labels = []; body = account_body }
