-- ===== src/Admin/Listing.antt =====
-- admin/actor_manage.go and admin/token_manage.go: what their lists share, the pages.
pub mod Gather
pub mod Tokens
pub mod Actors
use mathlib.Core.Option
use maos_core.Common.{
  ltb, Bool, List, [], ◌∷◌, ℕ, zero, suc, ◌+◌, ◌-◌, ◌*◌, ◌/◌, ◌^◌, ◌<◌, ◌≡◌, refl, Option, none,
  some, take, length, map, if◌then◌else◌,
}
use maos_core.Common.Int.{ℤ, pos, negsuc, minus, difference, to_int64, quotient, to_int64-small}

-- `ORDER BY`: `before` is the order of the rows.
unfoldable pub insert_ordered {ℓ} : {A : Type ℓ} → (A → A → Bool) → A → List A → List A
insert_ordered before a [] = a ∷ []
insert_ordered before a (b ∷ bs) =
    let rest = insert_ordered before a bs in if before a b then a ∷ b ∷ bs else b ∷ rest

unfoldable pub order_by {ℓ} : {A : Type ℓ} → (A → A → Bool) → List A → List A
unfolding insert_ordered
order_by before [] = []
order_by before (a ∷ as') = insert_ordered before a (order_by before as')

abbrev pub drop {ℓ} : {A : Type ℓ} → ℕ → List A → List A
drop zero xs = xs
drop (suc n) [] = []
drop (suc n) (x ∷ xs) = drop n xs

-- `LIMIT size OFFSET offset`, each row with `COUNT(*) OVER()`.
abbrev pub window {ℓ} : {A : Type ℓ} → ℕ → ℕ → List A → List (A × ℕ)
window size offset rows = map (λ t. (t, length rows)) (take size (drop offset rows))

abbrev pub total_count {ℓ} : {A : Type ℓ} → List (A × ℕ) → ℕ
total_count [] = 0
total_count ((t, n) ∷ rows) = n

-- One page, from the number `k` of the pages before it: the product is a bigint, and the database
-- refuses one that is too large.
unfoldable pub page_window {ℓ} : {A : Type ℓ} → ℕ → ℕ → List A → Option (List (A × ℕ))
page_window size k rows =
    if ltb (size * k) (2 ^ 63) then some (window size (size * k) rows) else none

-- Go's `(total + size - 1) / size` on int64; `none` is the panic of a division by zero.
unfoldable pub total_pages : ℕ → ℤ → Option ℤ
unfolding quotient to_int64
total_pages total (pos zero) = none
total_pages total (pos (suc n)) = some (quotient (to_int64 (pos (total + n))) (pos (suc n)))
total_pages total (negsuc n) = some (quotient (to_int64 (difference total (n + 2))) (negsuc n))

pub total_pages-small :
    (total n : ℕ)
    → total + n < 2 ^ 63
    → total_pages total (pos (suc n)) ≡ some (pos ((total + n) / suc n))
unfolding total_pages
total_pages-small total n h = rw (to_int64-small (total + n) h) refl

-- The value of a number that is not negative.
abbrev pub to_nat : ℤ → ℕ
to_nat (pos n) = n
to_nat (negsuc n) = 0

abbrev pub given_or : Option ℤ → ℤ → ℤ
given_or none d = d
given_or (some n) d = n

-- The answers of the lists.
pub data ListPage {ℓ} (A : Type ℓ) : Type ℓ where
  list_page : List A → ℤ → ListPage A
  list_error : ListPage A
  list_panics : ListPage A

abbrev pub answer_page {ℓ} : {A : Type ℓ} → List (A × ℕ) → Option ℤ → ListPage A
answer_page rows none = list_panics
answer_page {A = A} rows (some pages) = list_page (map {A = A × ℕ} (λ q. q.0) rows) pages
