-- ===== src/Auth/Examples.antt =====
-- The authentication on concrete inputs.
use maos_core.Common.{◌≡◌, ◌⊎◌, refl, true, false, [], ◌∷◌, ◌++◌, Option, none, some, if◌then◌else◌}
use maos_core.Common.Decimal.{Text}
use maos_core.Common.TextEquality.{text_eq}
use maos_core.Auth.Token.{Token, Source, bearer, bearer_auth, bootstrap, fetch_token}
use maos_core.Auth.Permissions.{validate_permissions}
use maos_core.Auth.Soundness.{
  Presents, Permitted, allowed_calls, Stored, Bootstraps, fetched_tokens,
}

abbrev admin : Token
admin = record {
  id = b'k' ∷ [];
  actor_id = 1;
  queue_id = 1;
  expire_at = 90;
  permissions = "admin" ∷ [];
}

abbrev lookup : Text → Option Token
lookup id = if text_eq id (b'k' ∷ []) then some admin else none

abbrev header : Option Text
header = some (bearer ++ b'k' ∷ [])

allowed_calls_example : Presents lookup 50 header admin × Permitted "AdminListActors" admin
unfolding bearer_auth validate_permissions text_eq
allowed_calls_example = allowed_calls lookup 50 header "AdminListActors" admin refl

abbrev no_tokens : Source
no_tokens = record { tokens = []; actors = []; count_fails = false; find_fails = false; now = 50 }

fetched_tokens_example :
    Stored no_tokens (b'z' ∷ []) (bootstrap 50)
    ⊎ ((bootstrap 50 ≡ bootstrap 50) × Bootstraps (b'z' ∷ []) true no_tokens (b'z' ∷ []))
unfolding fetch_token
fetched_tokens_example = fetched_tokens (b'z' ∷ []) true no_tokens (b'z' ∷ []) (bootstrap 50) refl
