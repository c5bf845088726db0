-- ===== src/Configuration/Unchanged.antt =====
-- The configurations of a suite that was deployed do not change: the server of the deployments and
-- the handler UpdateConfig in any order.
use mathlib.Core.List.{[]}
use maos_core.Deployment.System.Closure.{act-Closed}
use maos_core.Configuration.Frozen.{write-Frozen, Frozen-Closed, Frozen}
use maos_core.Deployment.System.{Action, act, System}
use maos_core.Configuration.{
  validate_kube_config, Answer, get_actor_by_config_id, for_actor,
  config_update_inactive_content_by_creator, marshalled, refuse, Actor, write_config, Bytes, row,
  Content, answer_config, Fetched, UpdateCall, Store, ContentCodec, Formats, update_config,
}
use maos_core.Models.{query_error, no_rows, Config}
use maos_core.Common.{none, some, String, ℕ, ◌∷◌, Option, List, if_rule}

answer_config-Frozen :
    (c : Config) (codec : ContentCodec) (q : Store × Fetched Config)
    → Frozen c q.0
    → Frozen c (answer_config codec q).0
answer_config-Frozen c codec (s, row d) v = v
answer_config-Frozen c codec (s, no_rows) v = v
answer_config-Frozen c codec (s, query_error) v = v

write_config-Frozen :
    (c : Config) (codec : ContentCodec) (call : UpdateCall) (id : ℕ) (user : String)
    (content : Bytes) (s : Store)
    → Frozen c s
    → Frozen c (write_config codec call id user content s).0
write_config-Frozen c codec call id user content s v =
    answer_config-Frozen c codec
      (config_update_inactive_content_by_creator call.update_fails call.now id user (some content)
        none s)
      (write-Frozen c call.update_fails call.now id user (some content) none s v)

refuse-Frozen :
    (c : Config) (codec : ContentCodec) (call : UpdateCall) (id : ℕ) (user : String) (json : Bytes)
    (s : Store) (error : Option String)
    → Frozen c s
    → Frozen c (refuse codec call id user json s error).0
refuse-Frozen c codec call id user json s (some error) v = v
refuse-Frozen c codec call id user json s none v = write_config-Frozen c codec call id user json s v

for_actor-Frozen :
    (c : Config) (fmt : Formats) (codec : ContentCodec) (call : UpdateCall) (id : ℕ) (user : String)
    (content : Option Content) (json : Bytes) (s : Store) (a : Fetched Actor)
    → Frozen c s
    → Frozen c (for_actor fmt codec call id user content json s a).0
for_actor-Frozen c fmt codec call id user content json s no_rows v = v
for_actor-Frozen c fmt codec call id user content json s query_error v = v
for_actor-Frozen c fmt codec call id user none json s (row a) v =
    if_rule (λ (q : Store × Answer (Config × Content)). Frozen c q.0) a.deployable v
      (write_config-Frozen c codec call id user json s v)
for_actor-Frozen c fmt codec call id user (some content) json s (row a) v =
    if_rule (λ (q : Store × Answer (Config × Content)). Frozen c q.0) a.deployable
      (refuse-Frozen c codec call id user json s
        (validate_kube_config fmt content a.role a.migratable) v)
      (write_config-Frozen c codec call id user json s v)

marshalled-Frozen :
    (c : Config) (fmt : Formats) (codec : ContentCodec) (call : UpdateCall) (id : ℕ) (user : String)
    (content : Option Content) (s : Store) (json : Option Bytes)
    → Frozen c s
    → Frozen c (marshalled fmt codec call id user content s json).0
marshalled-Frozen c fmt codec call id user content s none v = v
marshalled-Frozen c fmt codec call id user content s (some json) v =
    for_actor-Frozen c fmt codec call id user content json s
      (get_actor_by_config_id call.get_fails s id) v

-- Something that happens to the server: an action of the deployments, or an UpdateConfig.
pub data Change : Type 0 where
  acts : Action → Change
  updates : Formats → ContentCodec → UpdateCall → ℕ → String → Option Content → Change

unfoldable pub change : Change → System → System
change (acts a) s = act a s
change (updates fmt codec call id user content) s = record s {
  store = (update_config fmt codec call id user content s.store).0;
}

unfoldable pub change_all : List Change → System → System
unfolding change
change_all [] s = s
change_all (x ∷ xs) s = change_all xs (change x s)

change-Frozen :
    (c : Config) (x : Change) (s : System) → Frozen c s.store → Frozen c (change x s).store
unfolding change update_config
change-Frozen c (acts a) s v = act-Closed (Frozen c) (Frozen-Closed c) a s v
change-Frozen c (updates fmt codec call id user content) s v =
    marshalled-Frozen c fmt codec call id user content s.store (codec.marshal content) v

-- A configuration whose suite was deployed once is stored unchanged after anything that the
-- deployments and UpdateConfig do, in any order and whatever fails: no handler, job or change of a
-- configuration ever writes it again, and its suite stays one that was deployed.
pub change_all-Frozen :
    (c : Config) (xs : List Change) (s : System)
    → Frozen c s.store
    → Frozen c (change_all xs s).store
unfolding change_all
change_all-Frozen c [] s v = v
change_all-Frozen c (x ∷ xs) s v = change_all-Frozen c xs (change x s) (change-Frozen c x s v)
