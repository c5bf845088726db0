-- ===== src/Admin/Examples.antt =====
-- The administration on a concrete registry: one actor with one token that has expired.
use maos_core.Admin.Kube.Defaults.{get_value-insert_missing_kube_configs_with_default}
use maos_core.Admin.Kube.{insert_missing_kube_configs_with_default, get_value, Content, Formats}
use maos_core.Admin.Operations.Reuse.{create_actor_once, Declined}
use maos_core.Admin.Tokens.Renewal.{rotate_actor_api_keys-Renewed, Renewed}
use maos_core.Common.Membership.{All}
use maos_core.Admin.Registry.{Registry}
use maos_core.Admin.Operations.{remove, rotate, update, operate_all, create, Operation}
use maos_core.Admin.Actors.{CreateFaults, ActorCreate, create_actor, ActorUpdate}
use maos_core.Admin.Tokens.{Draws, ActorConfig, rotate_actor_api_keys}
use maos_core.Admin.Operations.Consistency.{operate_all-Consistent, Consistent, Whole}
use maos_core.Models.{ActorRole, ApiToken, Actor}
use maos_core.Admin.Listing.{total_pages}
use maos_core.Common.Int.{pos, negsuc}
use maos_core.Admin.Listing.Gather.{page_data, gather}
use maos_core.Admin.Listing.Tokens.{
  tokens_page, list_api_tokens, list_api_tokens-gather, selected_tokens,
}
use maos_core.Admin.Listing.Actors.{
  actors_page, list_actors, list_actors-gather, summary, actor_rows,
}
use mathlib.Core.List.{Memᴰ}
use maos_core.Common.{
  length, ◌-◌, ◌<◌, ◌^◌, ◌+◌, inr, ◌≡◌, refl, Bool, true, false, List, [], ◌∷◌, ℕ, Option, none,
  some, String, arith,
}

abbrev worker : Actor
worker = record {
  id = 1;
  name = "worker";
  queue_id = 1;
  created_at = 1;
  metadata = [];
  updated_at = none;
  enabled = true;
  deployable = true;
  configurable = true;
  role = ActorRole.agent;
  migratable = false;
  permissions = "read:invocation" ∷ [];
  mcp_enabled = false;
}

abbrev old_token : ApiToken
old_token = record {
  id = b'o' ∷ [];
  actor_id = 1;
  expire_at = 5;
  created_by = "ann";
  created_at = 1;
  permissions = [];
}

abbrev registry : Registry
registry = record {
  queues =
      record {
        id = 1;
        name = "worker";
        created_at = 1;
        metadata = [];
        paused_at = none;
        updated_at = none;
      }
      ∷ [];
  actors = worker ∷ [];
  tokens = old_token ∷ [];
  configs = [];
  next_queue_id = 2;
  next_actor_id = 2;
}

abbrev draws : Draws
draws = record {
  generated = λ n. b'n' ∷ n ∷ [];
  server_now = λ n. 1000 + n;
  now = 1001;
  fails = λ a. false;
}

abbrev worker_config : ActorConfig
worker_config = record { actor_id = 1; actor_role = ActorRole.agent; actor_deployable = true }

rotate_actor_api_keys-Renewed_example :
    Renewed draws 1
      (worker ∷ [])
      ((1, b'n' ∷ 0 ∷ []) ∷ [])
      (rotate_actor_api_keys draws (worker_config ∷ []) registry).0.tokens
unfolding rotate_actor_api_keys maos_core.Common.Table.find_where
rotate_actor_api_keys-Renewed_example =
    rotate_actor_api_keys-Renewed draws (worker_config ∷ []) registry worker_config
      ((1, b'n' ∷ 0 ∷ []) ∷ []) (tt, tt) (Memᴰ.head refl) refl refl

abbrev no_faults : CreateFaults
no_faults = record { begin = false; queue = false; actor = false; commit = false }

abbrev nobody : ActorCreate
nobody = record {
  name = "helper";
  role = ActorRole.service;
  flags = record {
    enabled = none;
    deployable = some true;
    configurable = some true;
    migratable = none;
    mcp_enabled = none;
  };
  permissions = some [];
}

abbrev helper : Actor
helper = record {
  id = 2;
  name = "helper";
  queue_id = 2;
  created_at = 9;
  metadata = b'{' ∷ b'}' ∷ [];
  updated_at = none;
  enabled = true;
  deployable = true;
  configurable = true;
  role = ActorRole.service;
  migratable = false;
  permissions = [];
  mcp_enabled = false;
}

abbrev renaming : ActorUpdate
renaming = record {
  name = some "other";
  role = none;
  flags = record {
    enabled = none;
    deployable = none;
    configurable = none;
    migratable = none;
    mcp_enabled = none;
  };
  permissions = none;
}

abbrev a_week : List Operation
a_week =
    create no_faults 9 nobody
    ∷ update false 2 renaming
    ∷ rotate draws (worker_config ∷ [])
    ∷ remove false 2
    ∷ []

create_actor_once_example :
    let s = operate_all a_week (create_actor no_faults 9 nobody registry).0 in
    Declined s (create_actor no_faults 12 nobody s)
unfolding create_actor
create_actor_once_example =
    create_actor_once no_faults 9 nobody registry helper refl a_week no_faults 12 nobody refl

operate_all-Consistent_example : All Consistent (operate_all a_week registry).actors
unfolding Whole
operate_all-Consistent_example =
    operate_all-Consistent a_week registry (tt, (inr (refl, refl, refl), (tt, (tt, tt))))
      (record { migratable = refl; deployable = refl }, tt)

get_value-insert_missing_kube_configs_with_default_example :
    get_value "KUBE_REPLICAS" (
      insert_missing_kube_configs_with_default (("KUBE_REPLICAS", "3") ∷ []) ActorRole.service true)
    ≡ some "3"
unfolding get_value
get_value-insert_missing_kube_configs_with_default_example =
    get_value-insert_missing_kube_configs_with_default "KUBE_REPLICAS" (("KUBE_REPLICAS", "3") ∷ [])
      ActorRole.service true

abbrev formats : Formats
formats = record {
  docker_image = λ s. true;
  cpu_quantity = λ s. true;
  memory_quantity = λ s. true;
  ingress_host = λ s. true;
  body_limit = λ s. true;
  trim_space = λ t. t;
}

abbrev service_content : Content
service_content =
    ("KUBE_CPU_REQUEST", "10m")
    ∷ ("KUBE_CPU_LIMIT", "500m")
    ∷ ("KUBE_MEMORY_REQUEST", "100Mi")
    ∷ ("KUBE_MEMORY_LIMIT", "100Mi")
    ∷ ("KUBE_SERVICE_PORT", "80,443")
    ∷ ("KUBE_REPLICAS", "2")
    ∷ []

abbrev second_token : ApiToken
second_token = record {
  id = b'p' ∷ [];
  actor_id = 1;
  expire_at = 9;
  created_by = "ann";
  created_at = 2;
  permissions = [];
}

abbrev two_tokens : Registry
two_tokens = record {
  queues = registry.queues;
  actors = registry.actors;
  tokens = old_token ∷ second_token ∷ [];
  configs = [];
  next_queue_id = 2;
  next_actor_id = 2;
}

few_tokens : length (selected_tokens (λ a b. false) none two_tokens) + 0 < 2 ^ 63
unfolding selected_tokens
few_tokens = let h : 2 + 0 < 2 ^ 63 = omega arith in h

two_pages :
    page_data (tokens_page (λ a b. false) none two_tokens 0 (omega arith) few_tokens 1)
    ≡ second_token ∷ []
unfolding list_api_tokens
two_pages = refl

list_api_tokens-gather_example :
    gather
      (λ p. page_data (tokens_page (λ a b. false) none two_tokens 0 (omega arith) few_tokens p))
      2
    ≡ second_token ∷ old_token ∷ []
unfolding list_api_tokens
list_api_tokens-gather_example =
    list_api_tokens-gather (λ a b. false) none two_tokens 0 (omega arith) few_tokens

abbrev reader : Actor
reader = record {
  id = 2;
  name = "reader";
  queue_id = 2;
  created_at = 3;
  metadata = [];
  updated_at = none;
  enabled = true;
  deployable = false;
  configurable = false;
  role = ActorRole.agent;
  migratable = false;
  permissions = [];
  mcp_enabled = false;
}

abbrev two_actors : Registry
two_actors = record {
  queues = registry.queues;
  actors = worker ∷ reader ∷ [];
  tokens = registry.tokens;
  configs = [];
  next_queue_id = 3;
  next_actor_id = 3;
}

few_actors : length (actor_rows (λ a b. false) two_actors) + 0 < 2 ^ 63
unfolding actor_rows
few_actors = let h : 2 + 0 < 2 ^ 63 = omega arith in h

-- Two actors and the largest page size: the sum wraps around.
wrapped_pages : total_pages 2 (pos (2 ^ 63 - 1)) ≡ some (negsuc 0)
unfolding total_pages
wrapped_pages = refl

list_actors-gather_example :
    gather (λ p. page_data (actors_page (λ a b. false) two_actors 0 few_actors p)) 2
    ≡ summary (old_token ∷ []) reader ∷ summary (old_token ∷ []) worker ∷ []
unfolding list_actors
list_actors-gather_example = list_actors-gather (λ a b. false) two_actors 0 few_actors
