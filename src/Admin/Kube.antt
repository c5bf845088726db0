-- ===== src/Admin/Kube.antt =====
-- admin/kube_config.go: the default values of the KUBE_ configurations, and their validation; and what
-- updateKubernetesDeployments (admin/deployment_manage.go) reads of them. A content is a map, here its
-- entries in the order in which `range` visits them. The regular expressions and strings.TrimSpace are
-- the record Formats. An
-- error's text stands without the value that it shows.
pub mod Defaults
pub mod Ports
use Prim.Native.Char.{code}
use mathlib.Core.Option
use maos_core.Common.{
  ◌-◌, ◌++◌, ◌==◌, ltb, Bool, true, false, not, ◌&&◌, ◌||◌, List, [], ◌∷◌, ℕ, ◌%◌, ◌^◌, Option,
  none, some, if◌then◌else◌, String, str_eq,
}
use maos_core.Common.Decimal.{Text, parse_int}
use maos_core.Common.Int.{ℤ, pos, negsuc, ltb_ℤ}
use maos_core.Models.{ActorRole}

abbrev pub Content : Type 0
Content = List (String × String)

unfoldable pub get_value : String → Content → Option String
get_value key [] = none
get_value key ((k, v) ∷ rest) = if str_eq k key then some v else get_value key rest

-- `content[key]`, which is empty where the key is missing.
abbrev pub or_blank : Option String → String
or_blank none = ""
or_blank (some v) = v

abbrev pub is_blank_value : String → Bool
is_blank_value v = str_eq v ""

abbrev pub kube_configs_with_default : Content
kube_configs_with_default =
    ("KUBE_DOCKER_IMAGE", "")
    ∷ ("KUBE_IMAGE_PULL_SECRET", "")
    ∷ ("KUBE_LAUNCH_COMMAND", "")
    ∷ ("KUBE_REPLICAS", "1")
    ∷ ("KUBE_CPU_REQUEST", "10m")
    ∷ ("KUBE_CPU_LIMIT", "500m")
    ∷ ("KUBE_MEMORY_REQUEST", "100Mi")
    ∷ ("KUBE_MEMORY_LIMIT", "100Mi")
    ∷ []

abbrev pub kube_configs_with_default_for_service : Content
kube_configs_with_default_for_service =
    ("KUBE_DOCKER_IMAGE", "")
    ∷ ("KUBE_IMAGE_PULL_SECRET", "")
    ∷ ("KUBE_REPLICAS", "1")
    ∷ ("KUBE_CPU_REQUEST", "10m")
    ∷ ("KUBE_CPU_LIMIT", "500m")
    ∷ ("KUBE_MEMORY_REQUEST", "100Mi")
    ∷ ("KUBE_MEMORY_LIMIT", "100Mi")
    ∷ ("KUBE_SERVICE_PORT", "3000")
    ∷ ("KUBE_SERVICE_NAME", "")
    ∷ []

abbrev pub kube_configs_with_default_for_portal : Content
kube_configs_with_default_for_portal =
    ("KUBE_DOCKER_IMAGE", "")
    ∷ ("KUBE_IMAGE_PULL_SECRET", "")
    ∷ ("KUBE_REPLICAS", "1")
    ∷ ("KUBE_CPU_REQUEST", "10m")
    ∷ ("KUBE_CPU_LIMIT", "500m")
    ∷ ("KUBE_MEMORY_REQUEST", "100Mi")
    ∷ ("KUBE_MEMORY_LIMIT", "100Mi")
    ∷ ("KUBE_SERVICE_PORT", "3000")
    ∷ ("KUBE_SERVICE_NAME", "")
    ∷ ("KUBE_INGRESS_HOST", "portal.example.com")
    ∷ ("KUBE_INGRESS_BODY_LIMIT", "11m")
    ∷ []

abbrev pub kube_configs_with_default_for_migratable : Content
kube_configs_with_default_for_migratable =
    ("KUBE_MIGRATE_DOCKER_IMAGE", "")
    ∷ ("KUBE_MIGRATE_IMAGE_PULL_SECRET", "")
    ∷ ("KUBE_MIGRATE_COMMAND", "")
    ∷ ("KUBE_MIGRATE_MEMORY_REQUEST", "100Mi")
    ∷ ("KUBE_MIGRATE_MEMORY_LIMIT", "100Mi")
    ∷ []

abbrev pub default_config : ActorRole → Content
default_config ActorRole.portal = kube_configs_with_default_for_portal
default_config ActorRole.service = kube_configs_with_default_for_service
default_config ActorRole.agent = kube_configs_with_default
default_config ActorRole.user = kube_configs_with_default
default_config ActorRole.other = kube_configs_with_default

abbrev pub insert_missing_one : Content → Option String → String → String → Content
insert_missing_one content none key value = content ++ (key, value) ∷ []
insert_missing_one content (some found) key value = content

-- The loop over a table of defaults.
unfoldable pub insert_missing : Content → Content → Content
unfolding get_value
insert_missing content [] = content
insert_missing content ((key, value) ∷ defaults) =
    insert_missing (insert_missing_one content (get_value key content) key value) defaults

unfoldable pub insert_missing_kube_configs_with_default : Content → ActorRole → Bool → Content
unfolding insert_missing
insert_missing_kube_configs_with_default content role migratable =
    let filled = insert_missing content (default_config role) in
    if migratable then insert_missing filled kube_configs_with_default_for_migratable else filled

pub record Formats : Type 0 where
  pub docker_image : String → Bool
  pub cpu_quantity : String → Bool
  pub memory_quantity : String → Bool
  pub ingress_host : String → Bool
  pub body_limit : String → Bool
  pub trim_space : Text → Text

-- The numbers of the characters.
abbrev pub codes : String → Text
codes String.[] = []
codes (String.◌∷◌ c s) = code c ∷ codes s

abbrev pub serves : ActorRole → Bool
serves ActorRole.portal = true
serves ActorRole.service = true
serves ActorRole.agent = false
serves ActorRole.user = false
serves ActorRole.other = false

-- strings.Split at a comma.
abbrev pub put : ℕ → List Text → List Text
put c [] = (c ∷ []) ∷ []
put c (w ∷ ws) = (c ∷ w) ∷ ws

unfoldable pub split_commas : Text → List Text
split_commas [] = [] ∷ []
split_commas (c ∷ cs) = let rest = split_commas cs in if c == b',' then [] ∷ rest else put c rest

abbrev pub in_range : ℤ → ℤ → Option ℤ → Bool
in_range low high none = false
in_range low high (some n) = not (ltb_ℤ n low) && not (ltb_ℤ high n)

-- strconv.Atoi gives 64 bits.
unfoldable pub all_ports : Formats → List Text → Bool
all_ports fmt [] = true
all_ports fmt (p ∷ ps) =
    in_range (pos 1) (pos 65535) (parse_int 64 (fmt.trim_space p)) && all_ports fmt ps

abbrev pub max_int64 : ℤ
max_int64 = pos 9223372036854775807

abbrev pub when : Bool → String → Option String
when true error = some error
when false error = none

-- The switch on the key; `none` is no error.
unfoldable pub check_entry : Formats → ActorRole → String → String → Option String
unfolding all_ports split_commas
check_entry fmt role key value =
    if str_eq key "KUBE_DOCKER_IMAGE" || str_eq key "KUBE_MIGRATE_DOCKER_IMAGE"
    then when (not (is_blank_value value) && not (fmt.docker_image value)) "invalid docker image"
    else if str_eq key "KUBE_REPLICAS"
    then when (not (in_range (pos 1) max_int64 (parse_int 64 (codes value)))) "invalid replicas"
    else if str_eq key "KUBE_CPU_REQUEST" || str_eq key "KUBE_CPU_LIMIT"
    then when (not (is_blank_value value) && not (fmt.cpu_quantity value)) "invalid"
    else if str_eq key "KUBE_MEMORY_REQUEST"
        || (str_eq key "KUBE_MEMORY_LIMIT"
            || (str_eq key "KUBE_MIGRATE_MEMORY_REQUEST" || str_eq key "KUBE_MIGRATE_MEMORY_LIMIT"))
    then when (not (is_blank_value value) && not (fmt.memory_quantity value)) "invalid"
    else if str_eq key "KUBE_SERVICE_PORT"
    then when (serves role && not (all_ports fmt (split_commas (codes value))))
        "invalid service port"
    else if str_eq key "KUBE_INGRESS_HOST"
    then when (serves role && (is_blank_value value || not (fmt.ingress_host value)))
        "invalid ingress host"
    else if str_eq key "KUBE_INGRESS_BODY_LIMIT"
    then when (serves role && (is_blank_value value || not (fmt.body_limit value)))
        "invalid ingress body limit"
    else none

abbrev pub required_of : ActorRole → List String
required_of ActorRole.service = "KUBE_SERVICE_PORT" ∷ []
required_of ActorRole.portal = "KUBE_INGRESS_HOST" ∷ "KUBE_INGRESS_BODY_LIMIT" ∷ []
required_of ActorRole.agent = []
required_of ActorRole.user = []
required_of ActorRole.other = []

unfoldable pub required_configs : ActorRole → Bool → List String
required_configs role migratable =
    "KUBE_DOCKER_IMAGE"
      ∷ "KUBE_MEMORY_REQUEST"
      ∷ "KUBE_MEMORY_LIMIT"
      ∷ "KUBE_CPU_REQUEST"
      ∷ "KUBE_CPU_LIMIT"
      ∷ required_of role
    ++ (if migratable
        then "KUBE_MIGRATE_DOCKER_IMAGE" ∷ "KUBE_MIGRATE_MEMORY_REQUEST"
          ∷ "KUBE_MIGRATE_MEMORY_LIMIT" ∷ []
        else [])

unfoldable pub missing_config : Content → List String → Option String
unfolding get_value
missing_config content [] = none
missing_config content (key ∷ keys) =
    let rest = missing_config content keys in
    if is_blank_value (or_blank (get_value key content))
    then some "missing required config"
    else rest

abbrev pub or_error : Option String → Option String → Option String
or_error none next = next
or_error (some error) next = some error

-- The required configurations are tested inside the loop over the content.
unfoldable pub check_entries : Formats → ActorRole → Bool → Content → Content → Option String
unfolding check_entry missing_config required_configs
check_entries fmt role migratable content [] = none
check_entries fmt role migratable content ((key, value) ∷ entries) =
    or_error (check_entry fmt role key value) (
      or_error (missing_config content (required_configs role migratable))
        (check_entries fmt role migratable content entries))

unfoldable pub validate_kube_config : Formats → Content → ActorRole → Bool → Option String
unfolding check_entries
validate_kube_config fmt content role migratable = check_entries fmt role migratable content content

abbrev pub add_port : Option ℤ → Option (List ℤ) → Option (List ℤ)
add_port (some n) (some ns) = some (n ∷ ns)
add_port (some n) none = none
add_port none rest = none

-- The loop over the ports, with strconv.ParseInt of 32 bits.
unfoldable pub parse_ports : Formats → List Text → Option (List ℤ)
parse_ports fmt [] = some []
parse_ports fmt (p ∷ ps) = add_port (parse_int 32 (fmt.trim_space p)) (parse_ports fmt ps)

-- The ports of the service; `none` is the error.
unfoldable pub parse_service_ports : Formats → ActorRole → Content → Option (List ℤ)
unfolding parse_ports split_commas get_value
parse_service_ports fmt role content =
    if serves role
    then parse_ports fmt (split_commas (codes (or_blank (get_value "KUBE_SERVICE_PORT" content))))
    else some []

-- int32(n) of a number that is not negative.
unfoldable pub to_int32 : ℕ → ℤ
to_int32 n = let m = n % 2 ^ 32 in if ltb m (2 ^ 31) then pos m else negsuc (2 ^ 32 - m - 1)

abbrev pub replicas_of : Option ℤ → ℤ
replicas_of none = pos 1
replicas_of (some (negsuc n)) = pos 1
replicas_of (some (pos n)) = if n == 0 then pos 1 else to_int32 n

abbrev pub replicas_from : Option String → ℤ
replicas_from none = pos 1
replicas_from (some value) = replicas_of (parse_int 64 (codes value))

unfoldable pub get_replicas_from_content : Content → ℤ
unfolding get_value to_int32
get_replicas_from_content content = replicas_from (get_value "KUBE_REPLICAS" content)
