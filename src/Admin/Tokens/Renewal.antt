-- ===== src/Admin/Tokens/Renewal.antt =====
-- What the rotation of all API keys leaves in the table `api_tokens`.
use maos_core.Common.Table.{find_where}
use mathlib.Core.List.{Memᴰ, []}
use maos_core.Common.Membership.{All}
use maos_core.Admin.Tokens.Rotation.{
  kept-Overtaken, Overtaken-all, Overtaken, Memᴰ-last, kept_stored, rotate-Replaced, fresh,
  Replaced,
}
use maos_core.Models.{query_error, no_rows, Actor}
use maos_core.Admin.Registry.{permissions_of, api_token_rotate, Registry}
use maos_core.Admin.Tokens.{
  sixty_days, suc, false, rotated_next, rotates, true, some, row, key_of, Bool, Fetched, ApiToken,
  rotate_keys, ◌∷◌, Option, ActorConfig, Text, Keys, Draws, rotate_actor_api_keys,
}
use maos_core.Common.{
  arith, false, ◌==◌, ◌+◌, ◌≢◌, ◌≡◌, List, ℕ, if◌then◌else◌, refl, none, if_rule, sym, ◌∙◌, subst,
  not,
}

-- The token that replaced an actor's: it is in the map and in the table, it has the permissions of
-- the actor and 60 days to live, and the other tokens of the actor have five minutes.
pub record Renewed (d : Draws) (a : ℕ) (actors : List Actor) (keys : Keys) (tokens : List ApiToken)
    : Type 0 where
  pub token : ApiToken
  pub stored : Memᴰ token tokens
  pub key : key_of a keys ≡ some token.id
  pub owner : token.actor_id ≡ a
  pub draw : ℕ
  pub drawn : token.id ≡ d.generated draw
  pub expiry : token.expire_at ≡ d.server_now draw + sixty_days
  pub permissions : permissions_of (find_where (λ x. x.id == a) actors) ≡ some token.permissions
  pub others : All (Overtaken d.now a token) tokens

abbrev NotListed : ℕ → List ActorConfig → Type 0
NotListed a configs = All (λ (c : ActorConfig). a ≢ c.actor_id) configs

-- No actor is listed twice.
abbrev pub Distinct : List ActorConfig → Type 0
Distinct [] = Unit
Distinct (c ∷ configs) = NotListed c.actor_id configs × Distinct configs

key_of_other : (a b : ℕ) (t : Text) (keys : Keys) → a ≢ b → key_of a ((b, t) ∷ keys) ≡ key_of a keys
key_of_other a b t keys h = let e : (b == a) ≡ false = ground arith in rw e refl

key_of_same : (a : ℕ) (t : Text) (keys : Keys) → key_of a ((a, t) ∷ keys) ≡ some t
key_of_same a t keys = let e : (a == a) ≡ true = ground arith in rw e refl

-- The rotation for another actor keeps a renewed token.
Renewed-other :
    (d : Draws) (a b n : ℕ) (actors : List Actor) (keys : Keys) (id : Text) (r r' : Registry)
    → a ≢ b
    → Replaced d.now id b (d.server_now n + sixty_days) "maos-core" r r'
    → Renewed d a actors keys r.tokens
    → Renewed d a actors ((b, id) ∷ keys) r'.tokens
Renewed-other d a b n actors keys id r r' h p v = record {
  token = v.token;
  stored =
      subst (Memᴰ v.token) (sym p.tokens)
        (kept_stored d.now id b v.token u r.tokens (λ e. h (sym v.owner ∙ e)) v.stored);
  key = key_of_other a b id keys h ∙ v.key;
  owner = v.owner;
  draw = v.draw;
  drawn = v.drawn;
  expiry = v.expiry;
  permissions = v.permissions;
  others =
      subst (All (Overtaken d.now a v.token)) (sym p.tokens)
        (kept-Overtaken d.now id a b v.token u r.tokens h refl v.others);
}
  where
    u : ApiToken
    u = fresh d.now id b (d.server_now n + sixty_days) "maos-core" p.permissions

-- The rotation for the actor itself.
Renewed-self :
    (d : Draws) (a n : ℕ) (keys : Keys) (r r' : Registry)
    → Replaced d.now (d.generated n) a (d.server_now n + sixty_days) "maos-core" r r'
    → Renewed d a r.actors ((a, d.generated n) ∷ keys) r'.tokens
Renewed-self d a n keys r r' p = record {
  token = u;
  stored = subst (Memᴰ u) (sym p.tokens) (Memᴰ-last u _);
  key = key_of_same a (d.generated n) keys;
  owner = refl;
  draw = n;
  drawn = refl;
  expiry = refl;
  permissions = p.given;
  others =
      subst (All (Overtaken d.now a u)) (sym p.tokens)
        (Overtaken-all d.now (d.generated n) a u r.tokens p.unused);
}
  where
    u : ApiToken
    u = fresh d.now (d.generated n) a (d.server_now n + sixty_days) "maos-core" p.permissions

abbrev rotation : Draws → ActorConfig → ℕ → Registry → Registry × Fetched Text
rotation d c n r =
    api_token_rotate (d.fails c.actor_id) d.now (d.generated n) c.actor_id
      (d.server_now n + sixty_days) "maos-core" r

renew :
    (d : Draws) (c : ActorConfig) (n : ℕ) (r : Registry) (x : Text)
    → (rotation d c n r).1 ≡ row x
    → Replaced d.now
        (d.generated n)
        c.actor_id
        (d.server_now n + sixty_days)
        "maos-core"
        r
        (rotation d c n r).0
renew d c n r x e =
    rotate-Replaced (d.fails c.actor_id) d.now (d.generated n) c.actor_id
      (d.server_now n + sixty_days) "maos-core" r x e

next_rule :
    (P : Registry × Option Keys → Type 0) (q : Registry × Fetched Text)
    (rest : Registry × Option Keys)
    → ((r : Registry) → P (r, none))
    → ((x : Text) → q.1 ≡ row x → P rest)
    → P (rotated_next q rest)
next_rule P (r, row x) rest f h = h x refl
next_rule P (r, no_rows) rest f h = f r
next_rule P (r, query_error) rest f h = f r

not_rule :
    (P : Registry × Option Keys → Type 0) (b : Bool) (x y : Registry × Option Keys)
    → b ≡ true
    → P y
    → P (if not b then x else y)
not_rule P true x y e h = h
not_rule P false x y e h = absurd cc

module _ (d : Draws) (last : Keys) where
  -- Where the rotation of the actors succeeds, the token of the actor is renewed.
  abbrev Ends : ℕ → List Actor → Registry × Option Keys → Type 0
  Ends a actors q = q.1 ≡ some last → Renewed d a actors last q.0.tokens

  rotate_keys-other :
      (a n : ℕ) (actors : List Actor) (configs : List ActorConfig) (keys : Keys) (r : Registry)
      → NotListed a configs
      → Renewed d a actors keys r.tokens
      → Ends a actors (rotate_keys d n configs keys r)
  unfolding rotate_keys
  rotate_keys-other a n actors [] keys r h v =
      λ e. let f : keys ≡ last = cc in subst (λ k. Renewed d a actors k r.tokens) f v
  rotate_keys-other a n actors (c ∷ configs) keys r h v =
      if_rule (Ends a actors) (not (rotates c)) (rotate_keys-other a n actors configs keys r h.1 v)
        (next_rule (Ends a actors) _ _ (λ s e. absurd cc)
          (λ x e.
            rotate_keys-other a (suc n) actors configs ((c.actor_id, d.generated n) ∷ keys) _ h.1 (
              Renewed-other d a c.actor_id n actors keys (d.generated n) r _ h.0 (renew d c n r x e)
                v)))

  rotate_keys-Renewed :
      (n : ℕ) (c : ActorConfig) (configs : List ActorConfig) (keys : Keys) (r : Registry)
      → Distinct configs
      → Memᴰ c configs
      → rotates c ≡ true
      → Ends c.actor_id r.actors (rotate_keys d n configs keys r)
  unfolding rotate_keys
  rotate_keys-Renewed n c [] keys r h m e = elim m [ ]
  rotate_keys-Renewed n c (b ∷ configs) keys r h (Memᴰ.head k) e =
      subst (λ (a : ActorConfig). Ends a.actor_id r.actors (rotate_keys d n (b ∷ configs) keys r))
        (sym k)
        (not_rule (Ends b.actor_id r.actors) (rotates b) _ _ (subst (λ a. rotates a ≡ true) k e) (
          next_rule (Ends b.actor_id r.actors) _ _ (λ s f. absurd cc)
            (λ x f.
              rotate_keys-other b.actor_id (suc n) r.actors configs
                ((b.actor_id, d.generated n) ∷ keys) _ h.0
                (Renewed-self d b.actor_id n keys r _ (renew d b n r x f)))))
  rotate_keys-Renewed n c (b ∷ configs) keys r h (Memᴰ.tail m) e =
      if_rule (Ends c.actor_id r.actors) (not (rotates b))
        (rotate_keys-Renewed n c configs keys r h.1 m e)
        (next_rule (Ends c.actor_id r.actors) _ _ (λ s f. absurd cc)
          (λ x f.
            let p = renew d b n r x f in
            subst
              (λ actors. Ends c.actor_id actors (
                rotate_keys d (suc n) configs ((b.actor_id, d.generated n) ∷ keys)
                  (rotation d b n r).0))
              p.actors
              (rotate_keys-Renewed (suc n) c configs ((b.actor_id, d.generated n) ∷ keys)
                (rotation d b n r).0 h.1 m e)))

-- For configurations of distinct actors: where the rotation succeeds, each deployable actor of a
-- deployable role has in the map the id of a stored token of its own, with the permissions that the
-- actor had and 60 days to live from the clock of the server as it was read for this actor; and every
-- other token of the actor that
-- is stored then expires in five minutes, also one that had expired before.
pub rotate_actor_api_keys-Renewed :
    (d : Draws) (configs : List ActorConfig) (r : Registry) (c : ActorConfig) (keys : Keys)
    → Distinct configs
    → Memᴰ c configs
    → rotates c ≡ true
    → (rotate_actor_api_keys d configs r).1 ≡ some keys
    → Renewed d c.actor_id r.actors keys (rotate_actor_api_keys d configs r).0.tokens
unfolding rotate_actor_api_keys
rotate_actor_api_keys-Renewed d configs r c keys h m e f =
    rotate_keys-Renewed d keys 0 c configs [] r h m e f
