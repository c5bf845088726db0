-- ===== src/Admin/Operations/Reuse.antt =====
-- The name of an actor is not free again after its deletion: its queue keeps it.
use maos_core.Admin.Operations.{operate_all, Operation}
use maos_core.Admin.Operations.Names.{insert_actor_queues, operate_all-Named, any_row-last, Named}
use maos_core.Models.{no_rows, query_error, row, Queue, Actor, Fetched, Bytes}
use maos_core.Admin.Registry.{
  any_row, queue_named, queue_insert, name_refused, Registry, actor_insert,
}
use maos_core.Admin.Actors.{
  actor_queue_metadata, insert_params, deployable_refused, with_queue, migratable_refused,
  commit_actor, success, Reply, ActorCreate, CreateFaults, create_actor,
}
use maos_core.Common.{
  str_eq_iff, ◌⊎◌, if_true, inr, inl, ◌≡◌, ◌≢◌, refl, sym, arith, Bool, true, ◌||◌, List, ℕ, Option,
  some, String, if_rule, subst, str_eq,
}

-- No actor is created, and the registry stays as it was.
abbrev pub Declined : Registry → Registry × Reply Actor → Type 0
Declined r q = (q.0 ≡ r) × ((a : Actor) → q.1 ≢ success a)

queue_refused :
    (fails : Bool) (now : ℕ) (name : String) (metadata : Option Bytes) (r : Registry)
    → Named name r
    → queue_insert fails now name metadata r ≡ (r, query_error)
unfolding queue_insert
queue_refused fails now name metadata r h =
    if_true (fails || (name_refused name || any_row (queue_named name) r.queues)) _ _ (ground arith)

Named-refused :
    (faults : CreateFaults) (now : ℕ) (body : ActorCreate) (r : Registry)
    → Named body.name r
    → Declined r (create_actor faults now body r)
unfolding create_actor
Named-refused faults now body r v =
    if_rule P (str_eq body.name "") (refl, λ a e. cc)
      (if_rule P (migratable_refused body.flags) (refl, λ a e. cc)
        (if_rule P (deployable_refused body.flags) (refl, λ a e. cc)
          (if_rule P faults.begin (refl, λ a e. cc)
            (subst (λ q. P (with_queue faults now body r q))
              (sym (queue_refused faults.queue now body.name (some actor_queue_metadata) r v))
              (refl, λ a e. cc)))))
  where
    P : Registry × Reply Actor → Type 0
    P q = Declined r q

-- An answer with an actor comes with the name in the index.
abbrev Names : String → Registry × Reply Actor → Type 0
Names name q = ((a : Actor) → q.1 ≢ success a) ⊎ Named name q.0

commit-Names :
    (fails : Bool) (name : String) (old : Registry) (q : Registry × Fetched Actor)
    → Named name q.0
    → Names name (commit_actor fails old q)
commit-Names fails name old (r, row a) h = if_rule (Names name) fails (inl (λ x e. cc)) (inr h)
commit-Names fails name old (r, no_rows) h = inl (λ x e. cc)
commit-Names fails name old (r, query_error) h = inl (λ x e. cc)

queue-Named :
    (fails : Bool) (now : ℕ) (name : String) (metadata : Option Bytes) (r : Registry) (q : Queue)
    → (queue_insert fails now name metadata r).1 ≡ row q
    → Named name (queue_insert fails now name metadata r).0
unfolding queue_insert queue_named
queue-Named fails now name metadata r q =
    if_rule
      (λ (p : Registry × Fetched Queue). p.1 ≡ row q → any_row (queue_named name) p.0.queues ≡ true)
      (fails || (name_refused name || any_row (queue_named name) r.queues)) (λ e. absurd cc)
      (λ e. any_row-last (queue_named name) r.queues _ ((str_eq_iff name name).1 refl))

with_queue-Names :
    (faults : CreateFaults) (now : ℕ) (body : ActorCreate) (old : Registry)
    (p : Registry × Fetched Queue)
    → ((q : Queue) → p.1 ≡ row q → Named body.name p.0)
    → Names body.name (with_queue faults now body old p)
unfolding actor_insert
with_queue-Names faults now body old (r, row q) h =
    commit-Names faults.commit body.name old
      (actor_insert faults.actor now (insert_params body q.id) r)
      (subst (λ t. any_row (queue_named body.name) t ≡ true)
        (sym (insert_actor_queues _ now (insert_params body q.id) r body.permissions)) (h q refl))
with_queue-Names faults now body old (r, no_rows) h = inl (λ x e. cc)
with_queue-Names faults now body old (r, query_error) h = inl (λ x e. cc)

create-Names :
    (faults : CreateFaults) (now : ℕ) (body : ActorCreate) (r : Registry)
    → Names body.name (create_actor faults now body r)
unfolding create_actor
create-Names faults now body r = if_rule P (str_eq body.name "") (inl (λ x e. cc)) (
    if_rule P (migratable_refused body.flags) (inl (λ x e. cc)) (
      if_rule P (deployable_refused body.flags) (inl (λ x e. cc)) (
        if_rule P faults.begin (inl (λ x e. cc)) (
          with_queue-Names faults now body r _
            (queue-Named faults.queue now body.name (some actor_queue_metadata) r)))))
  where
    P : Registry × Reply Actor → Type 0
    P q = Names body.name q

-- Once CreateActor created an actor of a name, no later CreateActor of that name creates one or
-- changes the registry, whatever operations come in between, the deletion of the actor and its
-- renaming included.
pub create_actor_once :
    (faults : CreateFaults) (now : ℕ) (body : ActorCreate) (r : Registry) (a : Actor)
    → (create_actor faults now body r).1 ≡ success a
    → (os : List Operation) (later_faults : CreateFaults) (later : ℕ) (again : ActorCreate)
    → again.name ≡ body.name
    → let s = operate_all os (create_actor faults now body r).0 in
      Declined s (create_actor later_faults later again s)
create_actor_once faults now body r a h os later_faults later again e =
    Named-refused later_faults later again _ (
      subst (λ n. Named n (operate_all os (create_actor faults now body r).0)) (sym e)
        (operate_all-Named os body.name (create_actor faults now body r).0 named))
  where
    named : Named body.name (create_actor faults now body r).0
    named = elim (create-Names faults now body r) [ inl f ↦ absurd (f a h) | inr v ↦ v ]
