-- ===== src/Admin/Tokens/Rotation.antt =====
-- What one statement ApiTokenRotate leaves in the table `api_tokens`.
use mathlib.Core.List.{Memᴰ}
use maos_core.Common.Table.{row_update, update_where, find_where}
use maos_core.Models.{ApiToken, row}
use maos_core.Common.TextEquality.{text_eq}
use maos_core.Common.Membership.{All}
use maos_core.Common.Decimal.{Text}
use maos_core.Common.{
  ◌≡◌, ◌≢◌, ◌⊎◌, refl, sym, arith, ◌==◌, Bool, true, false, not, ◌&&◌, ◌||◌, List, [], ◌∷◌, ◌++◌, ℕ,
  ◌+◌, Option, none, some, String, Bool-cases, inl, inr, subst, ◌∙◌, ap,
}
use maos_core.Admin.Registry.{
  rotation_params, insert_token, rotated, ApiTokenInsertParams, Registry, any_row, token_refused,
  new_token, expire_soon, permissions_of, api_token_rotate,
}

pub any_row_none {ℓ} :
    {A : Type ℓ} → (p : A → Bool) (t : List A) → any_row p t ≡ false → All (λ x. p x ≡ false) t
unfolding any_row
any_row_none p [] h = tt
any_row_none p (x ∷ xs) h = (ground arith, any_row_none p xs (ground arith))

-- The token that a rotation adds.
abbrev pub fresh : ℕ → Text → ℕ → ℕ → String → List String → ApiToken
fresh now id actor_id new_expire_at created_by permissions =
    new_token now
      (record {
        id = id;
        actor_id = actor_id;
        expire_at = new_expire_at;
        created_by = created_by;
        permissions = some permissions;
      })
      permissions

abbrev replaced : ℕ → Text → ℕ → ApiToken → List ApiToken → List ApiToken
replaced now id actor_id t old =
    update_where (λ o. (o.actor_id == actor_id) && not (text_eq o.id id)) (expire_soon now) old
    ++ t ∷ []

-- What a rotation that succeeded did.
pub record Replaced (now : ℕ) (id : Text) (actor_id new_expire_at : ℕ) (created_by : String)
    (r r' : Registry) : Type 0 where
  pub permissions : List String
  pub given : permissions_of (find_where (λ a. a.id == actor_id) r.actors) ≡ some permissions
  pub unused : All (λ t. text_eq t.id id ≡ false) r.tokens
  pub actors : r'.actors ≡ r.actors
  pub tokens :
      r'.tokens
      ≡ replaced now id actor_id
          (fresh now id actor_id new_expire_at created_by permissions)
          r.tokens

unused_of :
    (id : Text) (actor_id : ℕ) (r : Registry)
    → token_refused id actor_id r ≡ false
    → All (λ t. text_eq t.id id ≡ false) r.tokens
unfolding token_refused
unused_of id actor_id r h = any_row_none (λ t. text_eq t.id id) r.tokens (ground arith)

-- Only an insertion that is not refused is followed by the rest of the statement.
insertion_cases :
    (refused : Bool) (now : ℕ) (arg : ApiTokenInsertParams) (r : Registry)
    (o : Option (List String)) (x : Text)
    → (rotated now arg r.tokens (insert_token refused now arg r o)).1 ≡ row x
    → (p : List String) × (o ≡ some p)
      × (refused ≡ false)
      × ((rotated now arg r.tokens (insert_token refused now arg r o)).0
          ≡ record r { tokens = replaced now arg.id arg.actor_id (new_token now arg p) r.tokens })
insertion_cases refused now arg r none x h = absurd cc
insertion_cases true now arg r (some p) x h = absurd cc
insertion_cases false now arg r (some p) x h = (p, refl, refl, refl)

pub rotate-Replaced :
    (fails : Bool) (now : ℕ) (id : Text) (actor_id new_expire_at : ℕ) (created_by : String)
    (r : Registry) (x : Text)
    → (api_token_rotate fails now id actor_id new_expire_at created_by r).1 ≡ row x
    → Replaced now id actor_id new_expire_at created_by r
        (api_token_rotate fails now id actor_id new_expire_at created_by r).0
unfolding api_token_rotate
rotate-Replaced fails now id actor_id new_expire_at created_by r x h =
    let (p, given, f, e) =
      insertion_cases (fails || token_refused id actor_id r) now
        (rotation_params id actor_id new_expire_at created_by r) r
        (permissions_of (find_where (λ a. a.id == actor_id) r.actors)) x h in
    record {
      permissions = p;
      given = given;
      unused = unused_of id actor_id r (ground arith);
      actors = ap (λ (q : Registry). q.actors) e;
      tokens = ap (λ (q : Registry). q.tokens) e;
    }

-- How a token of the actor stands to the new one.
abbrev pub Overtaken : ℕ → ℕ → ApiToken → ApiToken → Type 0
Overtaken now actor_id t o = (o.actor_id ≢ actor_id) ⊎ (o ≡ t) ⊎ (o.expire_at ≡ now + 300)

Overtaken-here :
    (now : ℕ) (id : Text) (actor_id : ℕ) (t o : ApiToken)
    → text_eq o.id id ≡ false
    → Overtaken now actor_id t
        (row_update (λ o. (o.actor_id == actor_id) && not (text_eq o.id id)) (expire_soon now) o)
Overtaken-here now id actor_id t o h = elim (Bool-cases (o.actor_id == actor_id)) [
  | inl e ↦ rw (e, h) (inr (inr refl))
  | inr e ↦ rw e (inl (ground arith))
]

pub Overtaken-all :
    (now : ℕ) (id : Text) (actor_id : ℕ) (t : ApiToken) (old : List ApiToken)
    → All (λ o. text_eq o.id id ≡ false) old
    → All (Overtaken now actor_id t) (replaced now id actor_id t old)
unfolding update_where
Overtaken-all now id actor_id t [] h = (inr (inl refl), tt)
Overtaken-all now id actor_id t (o ∷ old) h =
    (Overtaken-here now id actor_id t o h.0, Overtaken-all now id actor_id t old h.1)

pub Memᴰ-last : (t : ApiToken) (old : List ApiToken) → Memᴰ t (old ++ t ∷ [])
Memᴰ-last t [] = Memᴰ.head refl
Memᴰ-last t (o ∷ old) = Memᴰ.tail (Memᴰ-last t old)

-- What a rotation for another actor leaves.
untouched :
    (now : ℕ) (id : Text) (b : ℕ) (o : ApiToken)
    → o.actor_id ≢ b
    → row_update (λ x. (x.actor_id == b) && not (text_eq x.id id)) (expire_soon now) o ≡ o
untouched now id b o h = let e : (o.actor_id == b) ≡ false = ground arith in rw e refl

pub kept_stored :
    (now : ℕ) (id : Text) (b : ℕ) (t u : ApiToken) (old : List ApiToken)
    → t.actor_id ≢ b
    → Memᴰ t old
    → Memᴰ t (replaced now id b u old)
unfolding update_where
kept_stored now id b t u [] h m = elim m [ ]
kept_stored now id b t u (o ∷ old) h (Memᴰ.head e) =
    Memᴰ.head (e ∙ sym (untouched now id b o (subst (λ (x : ApiToken). x.actor_id ≢ b) e h)))
kept_stored now id b t u (o ∷ old) h (Memᴰ.tail m) = Memᴰ.tail (kept_stored now id b t u old h m)

pub kept-Overtaken :
    (now : ℕ) (id : Text) (a b : ℕ) (t u : ApiToken) (old : List ApiToken)
    → a ≢ b
    → u.actor_id ≡ b
    → All (Overtaken now a t) old
    → All (Overtaken now a t) (replaced now id b u old)
unfolding update_where
kept-Overtaken now id a b t u [] h e k = (inl (λ f. h (sym f ∙ e)), tt)
kept-Overtaken now id a b t u (o ∷ old) h e k = (updated, kept-Overtaken now id a b t u old h e k.1)
  where
    updated :
        Overtaken now a t
          (row_update (λ x. (x.actor_id == b) && not (text_eq x.id id)) (expire_soon now) o)
    updated = elim (Bool-cases ((o.actor_id == b) && not (text_eq o.id id))) [
      | inl f ↦ rw f (inl (λ g. h (sym g ∙ ground arith)))
      | inr f ↦ rw f k.0
    ]
