-- ===== src/Auth/Token.antt =====
-- middleware/auth.go, token_cache.go and token_fetch.go. The cache is a library: `hit` is what its
-- Get returned, the inner `none` a token that is known not to exist. Logging is left out.
use maos_core.Common.{
  ◌==◌, ltb, Bool, true, false, not, ◌&&◌, List, [], ◌∷◌, ℕ, ◌+◌, Option, none, some, if◌then◌else◌,
  String, length,
}
use maos_core.Common.Decimal.{Text}
use maos_core.Common.TextEquality.{text_eq}
use maos_core.Common.Table.{find_where}
use maos_core.Models.{Actor, ApiToken, Fetched, row, no_rows, query_error}

pub record Token : Type 0 where
  pub id : Text
  pub actor_id : ℕ
  pub queue_id : ℕ
  pub expire_at : ℕ
  pub permissions : List String

-- The JOIN of ApiTokenFindByID.
abbrev pub with_actor : ApiToken → Option Actor → Fetched Token
with_actor t none = no_rows
with_actor t (some a) = row (record {
  id = t.id;
  actor_id = a.id;
  queue_id = a.queue_id;
  expire_at = t.expire_at;
  permissions = t.permissions;
})

abbrev pub joined : List Actor → Option ApiToken → Fetched Token
joined actors none = no_rows
joined actors (some t) = with_actor t (find_where (λ a. a.id == t.actor_id) actors)

unfoldable pub api_token_find_by_id : Bool → List ApiToken → List Actor → Text → Fetched Token
api_token_find_by_id fails tokens actors id =
    if fails then query_error else joined actors (find_where (λ t. text_eq t.id id) tokens)

-- The result of a TokenFetcher: a token, nil, or an error.
pub data Fetch : Type 0 where
  found : Token → Fetch
  unknown : Fetch
  fetch_error : Fetch

abbrev pub from_row : Fetched Token → Fetch
from_row (row t) = found t
from_row no_rows = unknown
from_row query_error = fetch_error

-- "bootstraping" in the source.
abbrev pub bootstrap_id : Text
bootstrap_id =
    b'b' ∷ b'o' ∷ b'o' ∷ b't' ∷ b's' ∷ b't' ∷ b'r' ∷ b'a' ∷ b'p' ∷ b'i' ∷ b'n' ∷ b'g' ∷ []

abbrev pub bootstrap : ℕ → Token
bootstrap now = record {
  id = bootstrap_id;
  actor_id = 0;
  queue_id = 0;
  expire_at = now + 60;
  permissions = "admin" ∷ [];
}

abbrev pub is_empty_text : Text → Bool
is_empty_text [] = true
is_empty_text (c ∷ cs) = false

-- What the database holds and which calls fail, when a token is fetched.
pub record Source : Type 0 where
  pub tokens : List ApiToken
  pub actors : List Actor
  pub count_fails : Bool
  pub find_fails : Bool
  pub now : ℕ

-- The first component is the variable `bootstrapping` afterwards.
unfoldable pub fetch_token : Text → Bool → Source → Text → Bool × Fetch
unfolding api_token_find_by_id text_eq
fetch_token bootstrap_token bootstrapping s api_token =
    let stored = from_row (api_token_find_by_id s.find_fails s.tokens s.actors api_token) in
    let none_yet = length s.tokens == 0 in
    if bootstrapping
    then (if s.count_fails
        then (true, fetch_error)
        else if none_yet
            && (not (is_empty_text bootstrap_token) && text_eq api_token bootstrap_token)
        then (true, found (bootstrap s.now))
        else (none_yet, stored))
    else (false, stored)

abbrev pub token_of : Fetch → Option Token
token_of (found t) = some t
token_of unknown = none
token_of fetch_error = none

-- What is written into the cache, also that a token does not exist.
abbrev pub cached_as : Fetch → Option (Option Token)
cached_as (found t) = some (some t)
cached_as unknown = some none
cached_as fetch_error = none

-- A hit answers by itself. The last component is what is written into the cache, with its time to
-- live.
unfoldable pub get_token :
    Text
    → Bool
    → Source
    → Option (Option Token)
    → Text
    → Bool × Option Token × Option (Option Token)
unfolding fetch_token
get_token bootstrap_token bootstrapping s (some cached) api_token = (bootstrapping, cached, none)
get_token bootstrap_token bootstrapping s none api_token =
    let (flag, r) = fetch_token bootstrap_token bootstrapping s api_token in
    (flag, token_of r, cached_as r)

-- What becomes of a request: the next handler runs, with a token or without, or the status is sent.
pub data Decision : Type 0 where
  next : Option Token → Decision
  refused : ℕ → Decision

abbrev pub bearer : Text
bearer = b'B' ∷ b'e' ∷ b'a' ∷ b'r' ∷ b'e' ∷ b'r' ∷ b' ' ∷ []

-- strings.HasPrefix, with the rest of the text.
unfoldable pub strip_prefix : Text → Text → Option Text
strip_prefix [] t = some t
strip_prefix (p ∷ ps) [] = none
strip_prefix (p ∷ ps) (c ∷ cs) = if c == p then strip_prefix ps cs else none

abbrev pub check_expiry : ℕ → Option Token → Decision
check_expiry now none = refused 401
check_expiry now (some t) = if ltb t.expire_at now then refused 403 else next (some t)

abbrev pub check_bearer : (Text → Option Token) → ℕ → Option Text → Decision
check_bearer lookup now none = refused 401
check_bearer lookup now (some api_token) = check_expiry now (lookup api_token)

-- `lookup` is GetToken at the time of the call, and `none` stands for a nil request.
unfoldable pub bearer_auth : (Text → Option Token) → ℕ → Option Text → Decision
unfolding strip_prefix
bearer_auth lookup now none = refused 400
bearer_auth lookup now (some []) = next none
bearer_auth lookup now (some (c ∷ cs)) = check_bearer lookup now (strip_prefix bearer (c ∷ cs))
