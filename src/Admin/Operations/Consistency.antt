-- ===== src/Admin/Operations/Consistency.antt =====
-- The flags of the actors: a migratable actor is deployable and a deployable one is configurable.
use maos_core.Admin.Operations.Frames.{
  answer_deletion_same, answer_actor_same, rotate-Frame, delete_token-Frame, create_token-Frame,
}
use mathlib.Core.List.{[]}
use maos_core.Admin.Operations.{
  rotate, delete_token, create_token, remove, update, create, ◌∷◌, Operation, operate, operate_all,
}
use maos_core.Common.Membership.{All-delete, All-update, All-append, All}
use maos_core.Admin.Registry.{
  any_row, Deletion, actor_delete, actor_update, insert_actor, Registry, queue_insert,
  ActorInsertParams, actor_insert, set_actor, new_actor,
}
use maos_core.Admin.Actors.{
  actor_queue_metadata, with_queue, commit_actor, Reply, CreateFaults, delete_actor, update_actor,
  create_actor, update_params, insert_params, ActorUpdate, deployable_refused, migratable_refused,
  ActorCreate, Flags,
}
use maos_core.Models.{query_error, no_rows, row, Queue, Bytes, Fetched, coalesce, Actor}
use maos_core.Common.{
  ◌==◌, sym, if_cases, subst, ◌⊎◌, String, ◌≡◌, arith, Bool, true, false, not, ◌&&◌, ◌||◌, List, ℕ,
  Option, none, some, if_rule, inl, inr,
}

pub record Consistent (a : Actor) : Type 0 where
  pub migratable : not a.migratable || (a.deployable && a.configurable) ≡ true
  pub deployable : not a.deployable || a.configurable ≡ true

-- The request gives all the three flags, or none of them.
unfoldable pub Whole : Flags → Type 0
Whole f =
    ((x : Bool) × (y : Bool) × (z : Bool) × (f.migratable ≡ some x)
      × (f.deployable ≡ some y)
      × (f.configurable ≡ some z))
    ⊎ ((f.migratable ≡ none) × (f.deployable ≡ none) × (f.configurable ≡ none))

-- The test of a request, which reads a flag that is left out as false.
checked :
    (f : Flags)
    → migratable_refused f ≡ false
    → deployable_refused f ≡ false
    → (not (coalesce f.migratable false)
          || (coalesce f.deployable false && coalesce f.configurable false)
        ≡ true)
      × (not (coalesce f.deployable false) || coalesce f.configurable false ≡ true)
unfolding migratable_refused deployable_refused
checked f h k = (ground arith, ground arith)

created-Consistent :
    (id now queue_id : ℕ) (body : ActorCreate) (permissions : List String)
    → migratable_refused body.flags ≡ false
    → deployable_refused body.flags ≡ false
    → Consistent (new_actor id now (insert_params body queue_id) permissions)
created-Consistent id now queue_id body permissions h k =
    let (a, b) = checked body.flags h k in record { migratable = a; deployable = b }

updated-Consistent :
    (id : ℕ) (body : ActorUpdate) (a : Actor)
    → Whole body.flags
    → migratable_refused body.flags ≡ false
    → deployable_refused body.flags ≡ false
    → Consistent a
    → Consistent (set_actor (update_params id body) a)
unfolding Whole migratable_refused deployable_refused
updated-Consistent id body a (inl (x, y, z, e, f, g)) h k v = record {
  migratable = rw (e, f, g) (rw (e, f, g) at (checked body.flags h k).0);
  deployable = rw (f, g) (rw (f, g) at (checked body.flags h k).1);
}
updated-Consistent id body a (inr (e, f, g)) h k v = record {
  migratable = rw (e, f, g) v.migratable;
  deployable = rw (f, g) v.deployable;
}

abbrev AllConsistent : Registry → Type 0
AllConsistent r = All Consistent r.actors

insert_actor-Consistent :
    (refused : Bool) (now : ℕ) (arg : ActorInsertParams) (r : Registry) (o : Option (List String))
    → ((id : ℕ) (permissions : List String) → Consistent (new_actor id now arg permissions))
    → AllConsistent r
    → AllConsistent (insert_actor refused now arg r o).0
insert_actor-Consistent refused now arg r none h v = v
insert_actor-Consistent refused now arg r (some p) h v =
    if_rule (λ (q : Registry × Fetched Actor). AllConsistent q.0) refused v
      (All-append Consistent r.actors _ v (h r.next_actor_id p, tt))

commit_actor-Consistent :
    (fails : Bool) (old : Registry) (q : Registry × Fetched Actor)
    → AllConsistent old
    → AllConsistent q.0
    → AllConsistent (commit_actor fails old q).0
commit_actor-Consistent fails old (r, row a) v h =
    if_rule (λ (q : Registry × Reply Actor). AllConsistent q.0) fails v h
commit_actor-Consistent fails old (r, no_rows) v h = v
commit_actor-Consistent fails old (r, query_error) v h = v

with_queue-Consistent :
    (faults : CreateFaults) (now : ℕ) (body : ActorCreate) (old : Registry)
    (q : Registry × Fetched Queue)
    → migratable_refused body.flags ≡ false
    → deployable_refused body.flags ≡ false
    → AllConsistent old
    → AllConsistent q.0
    → AllConsistent (with_queue faults now body old q).0
unfolding actor_insert
with_queue-Consistent faults now body old (r, row q) h k v w =
    commit_actor-Consistent faults.commit old
      (actor_insert faults.actor now (insert_params body q.id) r) v
      (insert_actor-Consistent _ now (insert_params body q.id) r body.permissions
        (λ id p. created-Consistent id now q.id body p h k) w)
with_queue-Consistent faults now body old (r, no_rows) h k v w = v
with_queue-Consistent faults now body old (r, query_error) h k v w = v

queue_insert-Consistent :
    (fails : Bool) (now : ℕ) (name : String) (metadata : Option Bytes) (r : Registry)
    → AllConsistent r
    → AllConsistent (queue_insert fails now name metadata r).0
unfolding queue_insert
queue_insert-Consistent fails now name metadata r v =
    if_rule (λ (q : Registry × Fetched Queue). AllConsistent q.0) _ v v

create-Consistent :
    (faults : CreateFaults) (now : ℕ) (body : ActorCreate) (r : Registry)
    → AllConsistent r
    → AllConsistent (create_actor faults now body r).0
unfolding create_actor
create-Consistent faults now body r v = if_rule P _ v (
    if_cases P _ _ _ (λ h. v)
      (λ h.
        if_cases P _ _ _ (λ k. v)
          (λ k. if_rule P faults.begin v (
            with_queue-Consistent faults now body r
              (queue_insert faults.queue now body.name (some actor_queue_metadata) r) h k v
              (queue_insert-Consistent faults.queue now body.name (some actor_queue_metadata) r
                v)))))
  where
    P : Registry × Reply Actor → Type 0
    P q = AllConsistent q.0

update-Consistent :
    (fails : Bool) (id : ℕ) (body : ActorUpdate) (r : Registry)
    → Whole body.flags
    → AllConsistent r
    → AllConsistent (update_actor fails id body r).0
unfolding update_actor actor_update
update-Consistent fails id body r w v =
    if_cases P _ _ _ (λ h. v)
      (λ h.
        if_cases P _ _ _ (λ k. v)
          (λ k.
            subst AllConsistent
              (sym (answer_actor_same (actor_update fails (update_params id body) r)))
              (if_rule (λ (q : Registry × Fetched Actor). AllConsistent q.0) _ v
                (All-update Consistent _ (set_actor (update_params id body)) r.actors
                  (λ a m e. if_rule Consistent _ (updated-Consistent id body a w h k e) e) v))))
  where
    P : Registry × Reply Actor → Type 0
    P q = AllConsistent q.0

remove-Consistent :
    (fails : Bool) (id : ℕ) (r : Registry)
    → AllConsistent r
    → AllConsistent (delete_actor fails id r).0
unfolding delete_actor actor_delete
remove-Consistent fails id r v =
    subst AllConsistent (sym (answer_deletion_same (actor_delete fails id r))) (
      if_rule P fails v (
        if_rule P (not (any_row (λ a. a.id == id) r.actors)) v (
          if_rule P (any_row (λ c. c.actor_id == id) r.configs) v (
            if_rule P (any_row (λ t. t.actor_id == id) r.tokens) v
              (All-delete Consistent (λ a. a.id == id) r.actors v)))))
  where
    P : Registry × Fetched Deletion → Type 0
    P q = AllConsistent q.0

-- What an operation asks of its request.
abbrev WholeOperation : Operation → Type 0
WholeOperation (create faults now body) = Unit
WholeOperation (update fails id body) = Whole body.flags
WholeOperation (remove fails id) = Unit
WholeOperation (create_token fails now generated body) = Unit
WholeOperation (delete_token fails id) = Unit
WholeOperation (rotate d configs) = Unit

operate-Consistent :
    (o : Operation) (r : Registry)
    → WholeOperation o
    → AllConsistent r
    → AllConsistent (operate o r)
unfolding operate
operate-Consistent (create faults now body) r w v = create-Consistent faults now body r v
operate-Consistent (update fails id body) r w v = update-Consistent fails id body r w v
operate-Consistent (remove fails id) r w v = remove-Consistent fails id r v
operate-Consistent (create_token fails now generated body) r w v =
    subst (All Consistent) (sym (create_token-Frame fails now generated body r).actors) v
operate-Consistent (delete_token fails id) r w v =
    subst (All Consistent) (sym (delete_token-Frame fails id r).actors) v
operate-Consistent (rotate d configs) r w v =
    subst (All Consistent) (sym (rotate-Frame d configs r).actors) v

-- Where every migratable actor is deployable and configurable and every deployable one configurable,
-- this still holds after any operations of the administrators, whatever fails, provided that each
-- request to update an actor gives all of the three flags or none of them.
pub operate_all-Consistent :
    (os : List Operation) (r : Registry)
    → All WholeOperation os
    → All Consistent r.actors
    → All Consistent (operate_all os r).actors
unfolding operate_all
operate_all-Consistent [] r w v = v
operate_all-Consistent (o ∷ os) r w v =
    operate_all-Consistent os (operate o r) w.1 (operate-Consistent o r w.0 v)
