-- ===== src/Admin/Listing/Actors.antt =====
-- admin/actor_manage.go: ListActors, with ActorListPagenated of dbaccess/dbsqlc/actor.sql.go. The
-- database's order of two names is an argument.
use maos_core.Common.{
  ◌≡◌, refl, arith, ◌==◌, Bool, false, List, [], ◌∷◌, ℕ, zero, suc, ◌+◌, ◌*◌, ◌/◌, ◌^◌, ◌<◌, ◌≤◌,
  ltb, true, Option, none, some, take, length, map, ◌∙◌, ap, if◌then◌else◌, String,
}
use maos_core.Common.Int.{ℤ, pos, negsuc}
use maos_core.Common.Table.{count_where}
use maos_core.Models.{ApiToken, Actor, ActorRole}
use maos_core.Admin.Registry.{Registry}
use maos_core.Admin.Listing.{
  order_by, page_window, total_pages-small, drop, window, total_count, total_pages, given_or,
  ListPage, list_page, list_error, answer_page,
}
use maos_core.Admin.Listing.Gather.{
  untagged-window, total_count-window, page_data, page_count, gather_all, gather,
}

pub record ActorSummary : Type 0 where
  pub id : ℕ
  pub name : String
  pub role : ActorRole
  pub created_at : ℕ
  pub renameable : Bool
  pub token_count : ℕ
  pub enabled : Bool
  pub deployable : Bool
  pub configurable : Bool
  pub migratable : Bool
  pub mcp_enabled : Bool
  pub permissions : List String

unfoldable pub summary : List ApiToken → Actor → ActorSummary
unfolding count_where
summary tokens a =
    let n = count_where (λ t. t.actor_id == a.id) tokens in
    record {
      id = a.id;
      name = a.name;
      role = a.role;
      created_at = a.created_at;
      renameable = n == 0;
      token_count = n;
      enabled = a.enabled;
      deployable = a.deployable;
      configurable = a.configurable;
      migratable = a.migratable;
      mcp_enabled = a.mcp_enabled;
      permissions = a.permissions;
    }

-- The rows without LIMIT and OFFSET.
unfoldable pub actor_rows : (String → String → Bool) → Registry → List ActorSummary
unfolding order_by summary
actor_rows name_before r =
    map (summary r.tokens) (order_by (λ a b. name_before a.name b.name) r.actors)

-- `none` is an error: the database refuses a LIMIT and an OFFSET below 0.
unfoldable pub actor_list_pagenated :
    (String → String → Bool) → ℤ → ℤ → Registry → Option (List (ActorSummary × ℕ))
unfolding actor_rows page_window
actor_list_pagenated name_before (negsuc n) page r = none
actor_list_pagenated name_before (pos zero) page r = some []
actor_list_pagenated name_before (pos (suc n)) (negsuc k) r = none
actor_list_pagenated name_before (pos (suc n)) (pos zero) r = none
actor_list_pagenated name_before (pos (suc n)) (pos (suc k)) r =
    page_window (suc n) k (actor_rows name_before r)

-- The number of pages stays 0 where there are no rows.
abbrev pub answer_actors : ℤ → Option (List (ActorSummary × ℕ)) → ListPage ActorSummary
answer_actors size none = list_error
answer_actors size (some []) = list_page [] (pos 0)
answer_actors size (some (q ∷ rows)) =
    answer_page (q ∷ rows) (total_pages (total_count (q ∷ rows)) size)

unfoldable pub list_actors :
    (String → String → Bool) → Bool → Option ℤ → Option ℤ → Registry → ListPage ActorSummary
unfolding actor_list_pagenated total_pages
list_actors name_before fails page page_size r =
    let p = given_or page (pos 1) in
    let size = given_or page_size (pos 10) in
    if fails then list_error else answer_actors size (actor_list_pagenated name_before size p r)

module _ (m : ℕ) where
  answered-data :
      (rows : List (ActorSummary × ℕ))
      → page_data (answer_actors (pos (suc m)) (some rows)) ≡ map (λ q. q.0) rows
  unfolding total_pages
  answered-data [] = refl
  answered-data (q ∷ rows) = refl

  answered-count :
      (rows : List (ActorSummary × ℕ))
      → total_count rows + m < 2 ^ 63
      → page_count (answer_actors (pos (suc m)) (some rows)) ≡ (total_count rows + m) / suc m
  answered-count [] h = let e : 0 ≡ (0 + m) / suc m = grind arith in e
  answered-count ((t, n) ∷ rows) h = rw (total_pages-small n m h) refl

module _ (name_before : String → String → Bool) (r : Registry) (m : ℕ)
    (counted : length (actor_rows name_before r) + m < 2 ^ 63) where
  -- One answer of ListActors for the page `p`.
  abbrev pub actors_page : ℕ → ListPage ActorSummary
  actors_page p = list_actors name_before false (some (pos p)) (some (pos (suc m))) r

  actors_page-answer :
      (k : ℕ)
      → suc m * k ≤ length (actor_rows name_before r)
      → actors_page (suc k)
        ≡ answer_actors (pos (suc m)) (some (window (suc m) (suc m * k) (actor_rows name_before r)))
  unfolding list_actors actor_list_pagenated page_window
  actors_page-answer k l =
      let c : ltb (suc m * k) (2 ^ 63) ≡ true = grind (arith, counted, l) in rw c refl

  actors_page-rows :
      (k : ℕ)
      → suc m * k ≤ length (actor_rows name_before r)
      → page_data (actors_page (suc k)) ≡ take (suc m) (drop (suc m * k) (actor_rows name_before r))
  actors_page-rows k l =
      ap page_data (actors_page-answer k l)
      ∙ answered-data m (window (suc m) (suc m * k) (actor_rows name_before r))
      ∙ untagged-window (suc m) (suc m * k) (actor_rows name_before r)

  actors_page-count : page_count (actors_page 1) ≡ (length (actor_rows name_before r) + m) / suc m
  actors_page-count =
      let rows = actor_rows name_before r in
      ap page_count (actors_page-answer 0 (omega arith))
      ∙ answered-count m (window (suc m) (suc m * 0) rows) (rw (total_count-window m rows) counted)
      ∙ ap (λ t. (t + m) / suc m) (total_count-window m rows)

  -- For a page size of at least 1, where the number of the actors with the page size is at most 2^63,
  -- so that no sum wraps around, and queries that do not fail, the pages of ListActors from 1 to the
  -- number of pages that the first one reports are, one behind the other, all actors ordered by name,
  -- each with the number of its tokens.
  pub list_actors-gather :
      gather (λ p. page_data (actors_page p)) (page_count (actors_page 1))
      ≡ actor_rows name_before r
  list_actors-gather =
      gather_all actors_page m (actor_rows name_before r) actors_page-rows actors_page-count
