-- ===== src/Admin/Listing/Tokens.antt =====
-- admin/token_manage.go: ListApiTokens, with ApiTokenListByPage of dbaccess/dbsqlc/api_token.sql.go.
-- The order of two ids of the same time is the database's collation, which is an argument.
use maos_core.Common.{
  ◌≡◌, ◌≤◌, refl, arith, ◌==◌, ltb, Bool, true, false, ◌&&◌, ◌||◌, List, ℕ, suc, ◌+◌, ◌-◌, ◌*◌, ◌/◌,
  ◌^◌, ◌<◌, Option, none, some, take, length, ◌∙◌, ap, if◌then◌else◌,
}
use maos_core.Common.Int.{ℤ, pos, ltb_ℤ}
use maos_core.Common.Decimal.{Text}
use maos_core.Common.Table.{select_where}
use maos_core.Models.{ApiToken}
use maos_core.Util.Comparable.{clamp}
use maos_core.Admin.Registry.{Registry, any_row}
use maos_core.Admin.Listing.{
  order_by, drop, window, page_window, total_pages-small, total_count, total_pages, to_nat,
  given_or, ListPage, list_error, answer_page,
}
use maos_core.Admin.Listing.Gather.{
  untagged-window, total_count-window, page_data, page_count, gather_all, gather,
}

-- `ORDER BY created_at DESC, id`.
abbrev pub newer_token : (Text → Text → Bool) → ApiToken → ApiToken → Bool
newer_token id_before a b =
    ltb b.created_at a.created_at || (a.created_at == b.created_at && id_before a.id b.id)

abbrev pub of_actor : Option ℕ → ApiToken → Bool
of_actor none t = true
of_actor (some actor_id) t = t.actor_id == actor_id

-- The rows without LIMIT and OFFSET: the JOIN, the filter and the order.
unfoldable pub selected_tokens : (Text → Text → Bool) → Option ℕ → Registry → List ApiToken
unfolding order_by select_where any_row
selected_tokens id_before actor_id r =
    order_by (newer_token id_before) (
      select_where (λ t. any_row (λ a. a.id == t.actor_id) r.actors && of_actor actor_id t)
        r.tokens)

-- `page` is at least 1; `none` is an error.
unfoldable pub api_token_list_by_page :
    (Text → Text → Bool) → Option ℕ → ℕ → ℕ → Registry → Option (List (ApiToken × ℕ))
unfolding selected_tokens page_window
api_token_list_by_page id_before actor_id page_size page r =
    page_window page_size (page - 1) (selected_tokens id_before actor_id r)

abbrev pub answer_tokens : ℤ → Option (List (ApiToken × ℕ)) → ListPage ApiToken
answer_tokens size none = list_error
answer_tokens size (some rows) = answer_page rows (total_pages (total_count rows) size)

-- The page is at least 1, and the size is clamped for the query only.
unfoldable pub list_api_tokens :
    (Text → Text → Bool) → Bool → Option ℤ → Option ℤ → Option ℕ → Registry → ListPage ApiToken
unfolding api_token_list_by_page total_pages clamp
list_api_tokens id_before fails page page_size actor_id r =
    let p = given_or page (pos 1) in
    let size = given_or page_size (pos 10) in
    let rows =
      api_token_list_by_page id_before actor_id (to_nat (clamp size (pos 1) (pos 1000)))
        (to_nat (if ltb_ℤ p (pos 1) then pos 1 else p)) r in
    if fails then list_error else answer_tokens size rows

clamp_kept : (m : ℕ) → suc m ≤ 1000 → clamp (pos (suc m)) (pos 1) (pos 1000) ≡ pos (suc m)
unfolding clamp
clamp_kept m h =
    let a : ltb (suc m) 1 ≡ false = ground arith in
    let b : ltb 1000 (suc m) ≡ false = ground arith in rw (a, b) refl

module _ (id_before : Text → Text → Bool) (actor_id : Option ℕ) (r : Registry) (m : ℕ)
    (small : suc m ≤ 1000)
    (counted : length (selected_tokens id_before actor_id r) + m < 2 ^ 63) where
  -- One answer of ListApiTokens for the page `p`.
  abbrev pub tokens_page : ℕ → ListPage ApiToken
  tokens_page p = list_api_tokens id_before false (some (pos p)) (some (pos (suc m))) actor_id r

  tokens_page-answer :
      (k : ℕ)
      → suc m * k ≤ length (selected_tokens id_before actor_id r)
      → tokens_page (suc k)
        ≡ answer_tokens
            (pos (suc m))
            (some (window (suc m) (suc m * k) (selected_tokens id_before actor_id r)))
  unfolding list_api_tokens api_token_list_by_page page_window
  tokens_page-answer k l =
      let a : ltb (suc k) 1 ≡ false = ground arith in
      let b : suc k - 1 ≡ k = omega arith in
      let c : ltb (suc m * k) (2 ^ 63) ≡ true = grind (arith, counted, l) in
      rw (a, clamp_kept m small, b, c) refl

  tokens_page-rows :
      (k : ℕ)
      → suc m * k ≤ length (selected_tokens id_before actor_id r)
      → page_data (tokens_page (suc k))
        ≡ take (suc m) (drop (suc m * k) (selected_tokens id_before actor_id r))
  unfolding total_pages
  tokens_page-rows k l =
      ap page_data (tokens_page-answer k l)
      ∙ untagged-window (suc m) (suc m * k) (selected_tokens id_before actor_id r)

  tokens_page-count :
      page_count (tokens_page 1) ≡ (length (selected_tokens id_before actor_id r) + m) / suc m
  tokens_page-count =
      let rows = selected_tokens id_before actor_id r in
      rw
        (
          tokens_page-answer 0 (omega arith),
          total_count-window m rows,
          total_pages-small (length rows) m counted,
        )
        refl

  -- For a page size from 1 to 1000, where the number of the tokens with the page size is at most 2^63,
  -- so that no sum wraps around, and queries that do not fail, the pages of ListApiTokens from 1 to the number of pages that the first one
  -- reports are, one behind the other, the whole selected and ordered list.
  pub list_api_tokens-gather :
      gather (λ p. page_data (tokens_page p)) (page_count (tokens_page 1))
      ≡ selected_tokens id_before actor_id r
  list_api_tokens-gather =
      gather_all tokens_page m (selected_tokens id_before actor_id r) tokens_page-rows
        tokens_page-count
