-- ===== src/Admin/Operations/Names.antt =====
-- The names of the queues, which no operation gives back.
use maos_core.Admin.Operations.Frames.{
  rotate-Frame, delete_token-Frame, create_token-Frame, answer_actor_same, answer_deletion_same,
}
use maos_core.Models.{query_error, no_rows, row, Actor, Queue, Fetched, Bytes}
use maos_core.Admin.Operations.{
  rotate, delete_token, create_token, remove, update, create, Operation, operate, operate_all,
}
use maos_core.Admin.Actors.{
  update_params, actor_queue_metadata, deployable_refused, insert_params, migratable_refused, Reply,
  commit_actor, with_queue, ActorCreate, ActorUpdate, CreateFaults, delete_actor, update_actor,
  create_actor,
}
use maos_core.Admin.Registry.{
  Deletion, actor_update, insert_actor, queue_named, actor_delete, ActorInsertParams, any_row,
  actor_insert, Registry, queue_insert, name_refused,
}
use maos_core.Common.{
  str_eq, ◌==◌, ◌≡◌, refl, sym, arith, Bool, true, not, ◌||◌, List, [], ◌∷◌, ◌++◌, ℕ, Option, none,
  some, String, if_rule, subst,
}

-- The index on the names of queues has the name.
abbrev pub Named : String → Registry → Type 0
Named name r = any_row (queue_named name) r.queues ≡ true

pub any_row-append {ℓ} :
    {A : Type ℓ} (p : A → Bool) (t u : List A) → any_row p t ≡ true → any_row p (t ++ u) ≡ true
unfolding any_row
any_row-append p [] u h = absurd cc
any_row-append p (x ∷ xs) u h = ground (arith, any_row-append p xs u)

pub any_row-last {ℓ} :
    {A : Type ℓ} (p : A → Bool) (t : List A) (x : A) → p x ≡ true → any_row p (t ++ x ∷ []) ≡ true
unfolding any_row
any_row-last p [] x h = ground arith
any_row-last p (y ∷ ys) x h = ground (arith, any_row-last p ys x h)

-- Creating an actor gives its queue a name, or leaves the registry.
queue_insert-Named :
    (fails : Bool) (now : ℕ) (name other : String) (metadata : Option Bytes) (r : Registry)
    → Named other r
    → Named other (queue_insert fails now name metadata r).0
unfolding queue_insert
queue_insert-Named fails now name other metadata r h =
    if_rule (λ (q : Registry × Fetched Queue). Named other q.0)
      (fails || (name_refused name || any_row (queue_named name) r.queues)) h
      (any_row-append (queue_named other) r.queues _ h)

pub insert_actor_queues :
    (refused : Bool) (now : ℕ) (arg : ActorInsertParams) (r : Registry) (o : Option (List String))
    → (insert_actor refused now arg r o).0.queues ≡ r.queues
insert_actor_queues refused now arg r none = refl
insert_actor_queues refused now arg r (some p) =
    if_rule (λ (q : Registry × Fetched Actor). q.0.queues ≡ r.queues) refused refl refl

commit_actor-Named :
    (fails : Bool) (name : String) (old : Registry) (q : Registry × Fetched Actor)
    → Named name old
    → Named name q.0
    → Named name (commit_actor fails old q).0
commit_actor-Named fails name old (r, row a) v h =
    if_rule (λ (q : Registry × Reply Actor). Named name q.0) fails v h
commit_actor-Named fails name old (r, no_rows) v h = v
commit_actor-Named fails name old (r, query_error) v h = v

with_queue-Named :
    (faults : CreateFaults) (now : ℕ) (name : String) (body : ActorCreate) (old : Registry)
    (q : Registry × Fetched Queue)
    → Named name old
    → Named name q.0
    → Named name (with_queue faults now body old q).0
unfolding actor_insert
with_queue-Named faults now name body old (r, row q) v w =
    commit_actor-Named faults.commit name old
      (actor_insert faults.actor now (insert_params body q.id) r) v
      (subst (λ t. any_row (queue_named name) t ≡ true)
        (sym (insert_actor_queues _ now (insert_params body q.id) r body.permissions)) w)
with_queue-Named faults now name body old (r, no_rows) v w = v
with_queue-Named faults now name body old (r, query_error) v w = v

create-Named :
    (faults : CreateFaults) (now : ℕ) (name : String) (body : ActorCreate) (r : Registry)
    → Named name r
    → Named name (create_actor faults now body r).0
unfolding create_actor
create-Named faults now name body r v = if_rule P (str_eq body.name "") v (
    if_rule P (migratable_refused body.flags) v (
      if_rule P (deployable_refused body.flags) v (
        if_rule P faults.begin v (
          with_queue-Named faults now name body r
            (queue_insert faults.queue now body.name (some actor_queue_metadata) r) v
            (queue_insert-Named faults.queue now body.name name (some actor_queue_metadata) r v)))))
  where
    P : Registry × Reply Actor → Type 0
    P q = Named name q.0

update-Named :
    (fails : Bool) (id : ℕ) (name : String) (body : ActorUpdate) (r : Registry)
    → Named name r
    → Named name (update_actor fails id body r).0
unfolding update_actor actor_update
update-Named fails id name body r v = if_rule P (migratable_refused body.flags) v (
    if_rule P (deployable_refused body.flags) v (
      subst (Named name) (sym (answer_actor_same (actor_update fails (update_params id body) r)))
        (if_rule (λ (q : Registry × Fetched Actor). Named name q.0) _ v v)))
  where
    P : Registry × Reply Actor → Type 0
    P q = Named name q.0

remove-Named :
    (fails : Bool) (id : ℕ) (name : String) (r : Registry)
    → Named name r
    → Named name (delete_actor fails id r).0
unfolding delete_actor actor_delete
remove-Named fails id name r v =
    subst (Named name) (sym (answer_deletion_same (actor_delete fails id r))) (
      if_rule P fails v (
        if_rule P (not (any_row (λ a. a.id == id) r.actors)) v (
          if_rule P (any_row (λ c. c.actor_id == id) r.configs) v
            (if_rule P (any_row (λ t. t.actor_id == id) r.tokens) v v))))
  where
    P : Registry × Fetched Deletion → Type 0
    P q = Named name q.0

operate-Named :
    (o : Operation) (name : String) (r : Registry) → Named name r → Named name (operate o r)
unfolding operate
operate-Named (create faults now body) name r v = create-Named faults now name body r v
operate-Named (update fails id body) name r v = update-Named fails id name body r v
operate-Named (remove fails id) name r v = remove-Named fails id name r v
operate-Named (create_token fails now generated body) name r v =
    subst (λ t. any_row (queue_named name) t ≡ true)
      (sym (create_token-Frame fails now generated body r).queues) v
operate-Named (delete_token fails id) name r v =
    subst (λ t. any_row (queue_named name) t ≡ true) (sym (delete_token-Frame fails id r).queues) v
operate-Named (rotate d configs) name r v =
    subst (λ t. any_row (queue_named name) t ≡ true) (sym (rotate-Frame d configs r).queues) v

pub operate_all-Named :
    (os : List Operation) (name : String) (r : Registry)
    → Named name r
    → Named name (operate_all os r)
unfolding operate_all
operate_all-Named [] name r v = v
operate_all-Named (o ∷ os) name r v =
    operate_all-Named os name (operate o r) (operate-Named o name r v)
