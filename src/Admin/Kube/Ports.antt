-- ===== src/Admin/Kube/Ports.antt =====
-- What a content that ValidateKubeConfig accepts gives to the cluster.
use maos_core.Common.Membership.{All}
use maos_core.Common.Decimal.{parse_int}
use maos_core.Common.Int.{ℤ}
use maos_core.Admin.Kube.{
  to_int32, codes, serves, get_replicas_from_content, parse_service_ports, required_configs,
  ActorRole, is_blank_value, negsuc, Formats, pos, get_value, Content,
}
use maos_core.Common.{◌≡◌, ◌≤◌, ◌⊎◌, Bool, false, List, ◌∷◌, ℕ, none, some, String}

abbrev IsPort : ℤ → Type 0
IsPort (pos n) = (1 ≤ n) × (n ≤ 65535)
IsPort (negsuc n) = ⊥

-- A key with a value that is not blank.
abbrev pub Given : Content → String → Type 0
Given content key = (v : String) × (get_value key content ≡ some v) × (is_blank_value v ≡ false)

-- The ports of a role that serves: there is at least one.
abbrev pub Served : Formats → ActorRole → Content → Type 0
Served fmt role content =
    (n : ℤ) × (ns : List ℤ) × (parse_service_ports fmt role content ≡ some (n ∷ ns))
    × All IsPort (n ∷ ns)

-- The number of replicas is the one that is written, cut to 32 bits.
abbrev pub Replicated : Content → Type 0
Replicated content =
    (v : String) × (n : ℕ) × (get_value "KUBE_REPLICAS" content ≡ some v)
    × (parse_int 64 (codes v) ≡ some (pos n))
    × (1 ≤ n)
    × (get_replicas_from_content content ≡ to_int32 n)

pub record Accepted (fmt : Formats) (role : ActorRole) (migratable : Bool) (content : Content)
    : Type 0 where
  pub required : All (Given content) (required_configs role migratable)
  pub ports :
      (get_value "KUBE_SERVICE_PORT" content ≡ none)
      ⊎ (serves role ≡ false)
      ⊎ Served fmt role content
  pub replicas :
      ((get_value "KUBE_REPLICAS" content ≡ none) × (get_replicas_from_content content ≡ pos 1))
      ⊎ Replicated content
