-- ===== src/Configuration/Examples.antt =====
-- A store with one configuration of an active suite, which asks for version 1.2.
use maos_core.Configuration.Serving.{get_actor_config_cases, Answered}
use maos_core.Configuration.Unchanged.{change_all-Frozen, acts, updates, change_all, Change}
use maos_core.Common.Int.{pos}
use maos_core.Configuration.Frozen.{Frozen}
use maos_core.Common.Decimal.{Text}
use maos_core.Admin.Kube.{Formats}
use maos_core.Configuration.{
  bad_request, deserialize_actor_version, UpdateCall, get_actor_config, ContentCodec,
}
use maos_core.Models.{ActorRole, Actor, Config}
use maos_core.Deployment.Store.{is_some, Store}
use mathlib.Core.List.{Memᴰ}
use maos_core.Deployment.System.{Action}
use maos_core.Common.{◌≡◌, ◌≢◌, ◌⊎◌, refl, arith, true, false, List, [], ◌∷◌, none, some, inr}

abbrev worker : Actor
worker = record {
  id = 1;
  name = "worker";
  queue_id = 1;
  created_at = 1;
  metadata = [];
  updated_at = none;
  enabled = true;
  deployable = true;
  configurable = true;
  role = ActorRole.agent;
  migratable = false;
  permissions = [];
  mcp_enabled = false;
}

abbrev config : Config
config = record {
  id = 1;
  actor_id = 1;
  content = b'{' ∷ b'}' ∷ [];
  min_actor_version = some (pos 1 ∷ pos 2 ∷ []);
  config_suite_id = some 1;
  created_by = "ann";
  created_at = 1;
  updated_by = none;
  updated_at = none;
}

abbrev store : Store
store = record {
  actors = worker ∷ [];
  deployments = [];
  config_suites =
      record {
        id = 1;
        active = true;
        created_by = "ann";
        created_at = 1;
        updated_by = none;
        updated_at = none;
        deployed_at = some 3;
      }
      ∷ [];
  configs = config ∷ [];
  next_id = 1;
  next_suite_id = 2;
  next_config_id = 2;
}

abbrev codec : ContentCodec
codec = record { marshal = λ c. some []; unmarshal = λ b. some (("KEY", "value") ∷ []) }

-- "1.2.0"
abbrev version : Text
version = b'1' ∷ b'.' ∷ b'2' ∷ b'.' ∷ b'0' ∷ []

get_actor_config_cases_example :
    let r = get_actor_config codec false false store (some 1) (some version) in
    ((some version ≢ none)
      × (deserialize_actor_version (some version) ≡ none)
      × (r ≡ bad_request "Cannot parse actor version"))
    ⊎ Answered codec store 1 (deserialize_actor_version (some version)) r
get_actor_config_cases_example = get_actor_config_cases codec store 1 (some version)

abbrev formats : Formats
formats = record {
  docker_image = λ s. true;
  cpu_quantity = λ s. true;
  memory_quantity = λ s. true;
  ingress_host = λ s. true;
  body_limit = λ s. true;
  trim_space = λ t. t;
}

abbrev call : UpdateCall
call = record { get_fails = false; update_fails = false; now = 9 }

abbrev changes : List Change
changes =
    updates formats codec call 1 "ann" (some [])
    ∷ acts (Action.create false 10 "release" "ann" none none)
    ∷ updates formats codec call 1 "ann" none
    ∷ []

change_all-Frozen_example :
    Frozen config (change_all changes (record { store = store; jobs = [] })).store
unfolding is_some
change_all-Frozen_example =
    change_all-Frozen config changes (record { store = store; jobs = [] })
      (record {
        stored = Memᴰ.head refl;
        suite = 1;
        owner = refl;
        given = omega arith;
        deployed = (inr refl, tt);
      })
