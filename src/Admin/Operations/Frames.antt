-- ===== src/Admin/Operations/Frames.antt =====
-- What the operations on tokens leave as it is, and the answers that leave the registry.
use maos_core.Admin.Actors.{answer_actor, answer_deletion, Reply}
use maos_core.Common.Decimal.{Text}
use maos_core.Models.{Actor, query_error, no_rows, row, Fetched, ApiToken}
use maos_core.Admin.Registry.{
  done_deletion, referenced, not_found, Deletion, token_refused, rotation_params, rotated,
  insert_token, api_token_delete, api_token_insert, Registry, api_token_rotate,
  ApiTokenInsertParams,
}
use maos_core.Admin.Tokens.{
  token_params, rotates, sixty_days, rotated_next, Keys, ActorConfig, ApiTokenCreate, answer_token,
  Draws, delete_api_token, create_api_token, rotate_actor_api_keys, rotate_keys,
}
use maos_core.Common.{
  ◌||◌, suc, sym, subst, ◌+◌, String, ◌∙◌, ◌≡◌, refl, Bool, true, false, not, List, [], ◌∷◌, ℕ,
  Option, none, some, if_rule,
}

-- Actors, queues and configurations stay.
pub record Frame (r r' : Registry) : Type 0 where
  pub actors : r'.actors ≡ r.actors
  pub queues : r'.queues ≡ r.queues

same-Frame : (r : Registry) → Frame r r
same-Frame r = record { actors = refl; queues = refl }

Frame-trans : (r s t : Registry) → Frame r s → Frame s t → Frame r t
Frame-trans r s t a b = record { actors = b.actors ∙ a.actors; queues = b.queues ∙ a.queues }

insert_token-Frame :
    (refused : Bool) (now : ℕ) (arg : ApiTokenInsertParams) (r : Registry)
    (o : Option (List String))
    → Frame r (insert_token refused now arg r o).0
insert_token-Frame refused now arg r none = same-Frame r
insert_token-Frame refused now arg r (some p) =
    if_rule (λ (q : Registry × Fetched ApiToken). Frame r q.0) refused (same-Frame r)
      (record { actors = refl; queues = refl })

rotated-Frame :
    (now : ℕ) (arg : ApiTokenInsertParams) (old : List ApiToken) (r : Registry)
    (q : Registry × Fetched ApiToken)
    → Frame r q.0
    → Frame r (rotated now arg old q).0
rotated-Frame now arg old r (r', row t) h = record { actors = h.actors; queues = h.queues }
rotated-Frame now arg old r (r', no_rows) h = h
rotated-Frame now arg old r (r', query_error) h = h

api_token_rotate-Frame :
    (fails : Bool) (now : ℕ) (id : Text) (actor_id new_expire_at : ℕ) (created_by : String)
    (r : Registry)
    → Frame r (api_token_rotate fails now id actor_id new_expire_at created_by r).0
unfolding api_token_rotate
api_token_rotate-Frame fails now id actor_id new_expire_at created_by r =
    let arg = rotation_params id actor_id new_expire_at created_by r in
    rotated-Frame now arg r.tokens r _
      (insert_token-Frame (fails || token_refused id actor_id r) now arg r arg.permissions)

next-Frame :
    (r : Registry) (q : Registry × Fetched Text) (rest : Registry × Option Keys)
    → Frame r q.0
    → Frame r rest.0
    → Frame r (rotated_next q rest).0
next-Frame r (r', row t) rest h k = k
next-Frame r (r', no_rows) rest h k = h
next-Frame r (r', query_error) rest h k = h

rotate_keys-Frame :
    (d : Draws) (n : ℕ) (configs : List ActorConfig) (keys : Keys) (r : Registry)
    → Frame r (rotate_keys d n configs keys r).0
unfolding rotate_keys
rotate_keys-Frame d n [] keys r = same-Frame r
rotate_keys-Frame d n (c ∷ configs) keys r =
    if_rule (λ (q : Registry × Option Keys). Frame r q.0) (not (rotates c))
      (rotate_keys-Frame d n configs keys r)
      (next-Frame r _ _ step (Frame-trans r _ _ step (rotate_keys-Frame d (suc n) configs _ _)))
  where
    step :
        Frame r
          (api_token_rotate
            (d.fails c.actor_id)
            d.now
            (d.generated n)
            c.actor_id
            (d.server_now n + sixty_days)
            "maos-core"
            r).0
    step =
        api_token_rotate-Frame (d.fails c.actor_id) d.now (d.generated n) c.actor_id
          (d.server_now n + sixty_days) "maos-core" r

pub rotate-Frame :
    (d : Draws) (configs : List ActorConfig) (r : Registry)
    → Frame r (rotate_actor_api_keys d configs r).0
unfolding rotate_actor_api_keys
rotate-Frame d configs r = rotate_keys-Frame d 0 configs [] r

answer_token_same : (q : Registry × Fetched ApiToken) → (answer_token q).0 ≡ q.0
answer_token_same (r, row t) = refl
answer_token_same (r, no_rows) = refl
answer_token_same (r, query_error) = refl

pub create_token-Frame :
    (fails : Bool) (now : ℕ) (generated : Text) (body : ApiTokenCreate) (r : Registry)
    → Frame r (create_api_token fails now generated body r).0
unfolding create_api_token api_token_insert
create_token-Frame fails now generated body r =
    if_rule (λ (q : Registry × Reply ApiToken). Frame r q.0) _ (same-Frame r)
      (subst (Frame r) (sym (answer_token_same _)) (
        insert_token-Frame (fails || token_refused generated body.actor_id r) now
          (token_params generated body) r body.permissions))

pub delete_token-Frame :
    (fails : Bool) (id : Text) (r : Registry) → Frame r (delete_api_token fails id r).0
unfolding delete_api_token api_token_delete
delete_token-Frame true id r = same-Frame r
delete_token-Frame false id r = record { actors = refl; queues = refl }

pub answer_actor_same : (q : Registry × Fetched Actor) → (answer_actor q).0 ≡ q.0
answer_actor_same (r, row a) = refl
answer_actor_same (r, no_rows) = refl
answer_actor_same (r, query_error) = refl

pub answer_deletion_same : (q : Registry × Fetched Deletion) → (answer_deletion q).0 ≡ q.0
answer_deletion_same (r, row not_found) = refl
answer_deletion_same (r, row referenced) = refl
answer_deletion_same (r, row done_deletion) = refl
answer_deletion_same (r, no_rows) = refl
answer_deletion_same (r, query_error) = refl
