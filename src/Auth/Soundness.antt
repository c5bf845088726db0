-- ===== src/Auth/Soundness.antt =====
-- What a call that is allowed has shown.
use maos_core.Common.{
  ◌≡◌, ◌≢◌, ◌≤◌, refl, ap, ◌∙◌, arith, ◌++◌, ◌==◌, Bool, true, false, not, ◌&&◌, List, [], ◌∷◌, ℕ,
  Option, none, some, ◌⊎◌, inl, inr, Bool-cases, String, ltb, if◌then◌else◌, subst, length,
}
use maos_core.Common.Decimal.{Text}
use maos_core.Common.Membership.{All}
use maos_core.Common.TextEquality.{text_eq, text_eq_sound}
use maos_core.Auth.Token.{
  Token, Fetch, found, Source, fetch_token, api_token_find_by_id, from_row, bootstrap,
  is_empty_text, Decision, next, refused, bearer, strip_prefix, check_expiry, check_bearer,
  bearer_auth,
}
use maos_core.Auth.Permissions.{
  contains, required_permissions, holds_all, check_required, validate_permissions,
}
use maos_core.Models.{ApiToken, row, no_rows, query_error, Fetched}

-- The token that the operation sees.
abbrev pub context_token : Decision → Option Token
context_token (next t) = t
context_token (refused status) = none

strip_prefix-some : (p t rest : Text) → strip_prefix p t ≡ some rest → t ≡ p ++ rest
unfolding strip_prefix
strip_prefix-some [] t rest h = ground arith
strip_prefix-some (p ∷ ps) [] rest h = cc
strip_prefix-some (p ∷ ps) (c ∷ cs) rest h = elim (Bool-cases (c == p)) [
  | inl e ↦ ground (arith, strip_prefix-some ps cs rest (rw e at h))
  | inr e ↦ absurd (ground arith)
]

-- The header carries a token that is known and has not expired.
abbrev pub Presents : (Text → Option Token) → ℕ → Option Text → Token → Type 0
Presents lookup now header t =
    (id : Text) × (header ≡ some (bearer ++ id)) × (lookup id ≡ some t) × (now ≤ t.expire_at)

abbrev pub Permitted : String → Token → Type 0
Permitted operation t =
    (required : List String) × (required_permissions operation ≡ some required)
    × All (λ p. contains t.permissions p ≡ true) required

holds_all-All :
    (t : Token) (required : List String)
    → holds_all t required ≡ true
    → All (λ p. contains t.permissions p ≡ true) required
unfolding holds_all
holds_all-All t [] h = tt
holds_all-All t (p ∷ ps) h = (ground arith, holds_all-All t ps (ground arith))

permitted :
    (t u : Token) (operation : String) (r : Option (List String))
    → required_permissions operation ≡ r
    → check_required t r ≡ some u
    → (t ≡ u) × Permitted operation t
permitted t u operation none e h = cc
permitted t u operation (some required) e h = elim (Bool-cases (holds_all t required)) [
  | inl k ↦ (ground arith, (required, e, holds_all-All t required k))
  | inr k ↦ absurd (ground arith)
]

some_inj : (u t : Token) → some u ≡ some t → u ≡ t
some_inj u t h = cc

presented :
    (lookup : Text → Option Token) (now : ℕ) (header : Text) (r : Option Text) (t : Token)
    → strip_prefix bearer header ≡ r
    → context_token (check_bearer lookup now r) ≡ some t
    → Presents lookup now (some header) t
presented lookup now header none t e h = cc
presented lookup now header (some id) t e h =
    let (l, n) = unexpired (lookup id) refl h in
    (id, ap some (strip_prefix-some bearer header id e), l, n)
  where
    unexpired :
        (o : Option Token)
        → lookup id ≡ o
        → context_token (check_expiry now o) ≡ some t
        → (lookup id ≡ some t) × (now ≤ t.expire_at)
    unexpired none k g = absurd cc
    unexpired (some u) k g = elim (Bool-cases (ltb u.expire_at now)) [
      | inl f ↦ absurd (cc (rw f at g))
      | inr f ↦
          let q : some u ≡ some t = rw f at g in
          (k ∙ q, subst (λ x. now ≤ x.expire_at) (some_inj u t q) (ground arith))
    ]

validated :
    (o : Option Token) (operation : String) (t : Token)
    → validate_permissions o operation ≡ some t
    → (o ≡ some t) × Permitted operation t
unfolding validate_permissions
validated none operation t h = absurd cc
validated (some u) operation t h =
    let (e, p) = permitted u t operation (required_permissions operation) refl h in
    (ap some e, subst (Permitted operation) e p)

presents :
    (lookup : Text → Option Token) (now : ℕ) (header : Option Text) (t : Token)
    → context_token (bearer_auth lookup now header) ≡ some t
    → Presents lookup now header t
unfolding bearer_auth
presents lookup now none t h = absurd cc
presents lookup now (some []) t h = absurd cc
presents lookup now (some (c ∷ cs)) t h =
    presented lookup now (c ∷ cs) (strip_prefix bearer (c ∷ cs)) t refl h

-- The bearer check followed by ValidatePermissions gives a token for an operation only where the
-- request's header is "Bearer" and the text of a token that GetToken gives and that has not expired,
-- and where the operation is in the table and the token holds every permission that the table asks
-- for.
pub allowed_calls :
    (lookup : Text → Option Token) (now : ℕ) (header : Option Text) (operation : String) (t : Token)
    → validate_permissions (context_token (bearer_auth lookup now header)) operation ≡ some t
    → Presents lookup now header t × Permitted operation t
allowed_calls lookup now header operation t h =
    let (e, p) = validated (context_token (bearer_auth lookup now header)) operation t h in
    (presents lookup now header t e, p)

-- A stored token, joined with its actor.
abbrev pub Stored : Source → Text → Token → Type 0
Stored s api_token t = api_token_find_by_id s.find_fails s.tokens s.actors api_token ≡ row t

-- The bootstrap token, while no token is stored.
abbrev pub Bootstraps : Text → Bool → Source → Text → Type 0
Bootstraps bootstrap_token bootstrapping s api_token =
    (bootstrapping ≡ true)
    × (length s.tokens ≡ 0)
    × (bootstrap_token ≢ [])
    × (api_token ≡ bootstrap_token)

from_found : (r : Fetched Token) (t : Token) → from_row r ≡ found t → r ≡ row t
from_found (row u) t h = cc
from_found no_rows t h = absurd cc
from_found query_error t h = absurd cc

Stored-from_row :
    (s : Source) (api_token : Text) (t : Token)
    → from_row (api_token_find_by_id s.find_fails s.tokens s.actors api_token) ≡ found t
    → Stored s api_token t
Stored-from_row s api_token t h =
    from_found (api_token_find_by_id s.find_fails s.tokens s.actors api_token) t h

not_blank : (b : Text) → is_empty_text b ≡ false → b ≢ []
not_blank [] h = λ e. absurd cc
not_blank (c ∷ cs) h = λ e. cc

-- A token comes from the database, joined with its actor; or it is the bootstrap token, which is
-- accepted only from the text that is configured, where that is not empty, and while no token is
-- stored and none was found stored before.
pub fetched_tokens :
    (bootstrap_token : Text) (bootstrapping : Bool) (s : Source) (api_token : Text) (t : Token)
    → (fetch_token bootstrap_token bootstrapping s api_token).1 ≡ found t
    → Stored s api_token t
      ⊎ ((t ≡ bootstrap s.now) × Bootstraps bootstrap_token bootstrapping s api_token)
unfolding fetch_token
fetched_tokens bootstrap_token false s api_token t h = inl (Stored-from_row s api_token t h)
fetched_tokens bootstrap_token true s api_token t h = elim (Bool-cases s.count_fails) [
  | inl e ↦ absurd (cc (rw e at h))
  | inr e ↦ counted (fits s.tokens bootstrap_token) refl (rw e at h)
]
  where
    fits : List ApiToken → Text → Bool
    fits tokens b = (length tokens == 0) && (not (is_empty_text b) && text_eq api_token b)

    counted :
        (b : Bool)
        → fits s.tokens bootstrap_token ≡ b
        → (let q : Bool × Fetch = if b then (true, found (bootstrap s.now)) else (
          length s.tokens == 0,
          from_row (api_token_find_by_id s.find_fails s.tokens s.actors api_token),
        ) in
            q.1 ≡ found t)
        → Stored s api_token t
          ⊎ ((t ≡ bootstrap s.now) × Bootstraps bootstrap_token true s api_token)
    counted true k g = inr (
      cc,
      (
        refl,
        ground arith,
        not_blank bootstrap_token (ground arith),
        text_eq_sound api_token bootstrap_token (ground arith),
      ),
    )
    counted false k g = inl (Stored-from_row s api_token t g)
