-- ===== src/Common/Table.antt =====
-- A database table as a list of rows, with the SQL statements that the queries are made of:
-- SELECT one, UPDATE with a WHERE, DELETE with a WHERE, COUNT.
use mathlib.Core.Option
use maos_core.Common.Tests.{if◌then◌else◌, Bool-cases}
use Prim.Native.Nat.{ℕ, ◌+◌, ◌≤◌}
use mathlib.Core.Path.{◌≡◌, refl}
use mathlib.Core.Logic.{inl, inr}
use mathlib.Core.Bool.{Bool, true, false, not, ◌&&◌}
use mathlib.Core.Option.{Option, none, some}
use mathlib.Core.List.{List, [], ◌∷◌, ◌++◌}
use native.Mathlib.Omega.{arith}

module _ {ℓ} {A : Type ℓ} where
  -- The first row that the condition holds of.
  unfoldable pub find_where : (A → Bool) → List A → Option A
  find_where p [] = none
  find_where p (x ∷ xs) = if p x then some x else find_where p xs

  abbrev pub row_update : (A → Bool) → (A → A) → A → A
  row_update p f x = if p x then f x else x

  -- `UPDATE ... SET f WHERE p`.
  unfoldable pub update_where : (A → Bool) → (A → A) → List A → List A
  update_where p f [] = []
  update_where p f (x ∷ xs) = row_update p f x ∷ update_where p f xs

  -- `DELETE ... WHERE p`.
  unfoldable pub delete_where : (A → Bool) → List A → List A
  delete_where p [] = []
  delete_where p (x ∷ xs) = if p x then delete_where p xs else x ∷ delete_where p xs

  unfoldable pub select_where : (A → Bool) → List A → List A
  select_where p [] = []
  select_where p (x ∷ xs) = if p x then x ∷ select_where p xs else select_where p xs

  unfoldable pub count_where : (A → Bool) → List A → ℕ
  count_where p [] = 0
  count_where p (x ∷ xs) = (if p x then 1 else 0) + count_where p xs

  pub count-update-le :
      (p q : A → Bool) (f : A → A) (t : List A)
      → count_where q (update_where p f t) ≤ count_where q t + count_where p t
  unfolding count_where update_where
  count-update-le p q f [] = omega arith
  count-update-le p q f (x ∷ xs) = ground (arith, count-update-le p q f xs)

  pub count-update-eq :
      (p q : A → Bool) (f : A → A)
      → ((x : A) → q (row_update p f x) ≡ q x)
      → (t : List A) → count_where q (update_where p f t) ≡ count_where q t
  unfolding count_where update_where
  count-update-eq p q f h [] = refl
  count-update-eq p q f h (x ∷ xs) = rw (h x, count-update-eq p q f h xs)

  -- No row counts after the update if none of the updated ones does.
  pub count-update-zero :
      (p q : A → Bool) (f : A → A)
      → ((x : A) → q (row_update p f x) ≡ false)
      → (t : List A) → count_where q (update_where p f t) ≡ 0
  unfolding count_where update_where
  count-update-zero p q f h [] = refl
  count-update-zero p q f h (x ∷ xs) = rw (h x, count-update-zero p q f h xs) (omega arith)

  pub count_mono :
      (p q : A → Bool)
      → ((x : A) → p x ≡ true → q x ≡ true)
      → (t : List A) → count_where p t ≤ count_where q t
  unfolding count_where
  count_mono p q h [] = omega arith
  count_mono p q h (x ∷ xs) = ground (arith, h x, count_mono p q h xs)

  pub count-delete-le :
      (p q : A → Bool) (t : List A) → count_where q (delete_where p t) ≤ count_where q t
  unfolding count_where delete_where
  count-delete-le p q [] = omega arith
  count-delete-le p q (x ∷ xs) = ground (arith, count-delete-le p q xs)

  -- An update that no new row comes to count by.
  pub count-update-drop :
      (p q : A → Bool) (f : A → A)
      → ((x : A) → q (row_update p f x) ≡ true → q x ≡ true)
      → (t : List A) → count_where q (update_where p f t) ≤ count_where q t
  unfolding count_where update_where
  count-update-drop p q f h [] = omega arith
  count-update-drop p q f h (x ∷ xs) =
      ground (arith, h x, count-update-drop p q f h xs, Bool-cases (q (row_update p f x)))

  -- An update that no row leaves the count by.
  pub count-update-rise :
      (p q : A → Bool) (f : A → A)
      → ((x : A) → q x ≡ true → q (row_update p f x) ≡ true)
      → (t : List A) → count_where q t ≤ count_where q (update_where p f t)
  unfolding count_where update_where
  count-update-rise p q f h [] = omega arith
  count-update-rise p q f h (x ∷ xs) =
      ground (arith, h x, count-update-rise p q f h xs, Bool-cases (q x))

  pub count-delete-eq :
      (p q : A → Bool)
      → ((x : A) → p x ≡ true → q x ≡ false)
      → (t : List A) → count_where q (delete_where p t) ≡ count_where q t
  unfolding count_where delete_where
  count-delete-eq p q h [] = refl
  count-delete-eq p q h (x ∷ xs) = ground (arith, h x, count-delete-eq p q h xs)

  pub count-append :
      (q : A → Bool) (t u : List A) → count_where q (t ++ u) ≡ count_where q t + count_where q u
  unfolding count_where
  count-append q [] u = omega arith
  count-append q (x ∷ xs) u = omega (arith, count-append q xs u)

  -- A row that the condition does not move stays where it was found.
  pub find-update :
      (q p : A → Bool) (f : A → A)
      → ((x : A) → q (row_update p f x) ≡ q x)
      → (t : List A)
      → find_where q (update_where p f t) ≡ Option.map (row_update p f) (find_where q t)
  unfolding find_where update_where
  find-update q p f h [] = refl
  find-update q p f h (x ∷ xs) = elim (Bool-cases (q x)) [
    | inl e ↦ rw (h x, e) refl
    | inr e ↦ rw (h x, e) (find-update q p f h xs)
  ]

  pub find-append :
      (q : A → Bool) (t u : List A) (x : A)
      → find_where q t ≡ some x
      → find_where q (t ++ u) ≡ some x
  unfolding find_where
  find-append q [] u x h = ground arith
  find-append q (y ∷ ys) u x h = ground (arith, find-append q ys u x)

  pub find-append_none :
      (q : A → Bool) (t u : List A) → find_where q t ≡ none → find_where q (t ++ u) ≡ find_where q u
  unfolding find_where
  find-append_none q [] u h = refl
  find-append_none q (y ∷ ys) u h = ground (arith, find-append_none q ys u)

  pub find-delete :
      (q p : A → Bool) (t : List A)
      → find_where q (delete_where p t) ≡ find_where (λ x. q x && not (p x)) t
  unfolding find_where delete_where
  find-delete q p [] = refl
  find-delete q p (y ∷ ys) = ground (arith, find-delete q p ys)

  pub find-holds : (q : A → Bool) (t : List A) (x : A) → find_where q t ≡ some x → q x ≡ true
  unfolding find_where
  find-holds q [] x h = ground arith
  find-holds q (y ∷ ys) x h = ground (arith, find-holds q ys x)

  pub find_none_of_count : (q : A → Bool) (t : List A) → count_where q t ≡ 0 → find_where q t ≡ none
  unfolding find_where count_where
  find_none_of_count q [] h = refl
  find_none_of_count q (y ∷ ys) h = ground (arith, find_none_of_count q ys)

  pub count_of_find_none : (q : A → Bool) (t : List A) → find_where q t ≡ none → count_where q t ≡ 0
  unfolding find_where count_where
  count_of_find_none q [] h = refl
  count_of_find_none q (y ∷ ys) h = ground (arith, count_of_find_none q ys)

  pub count_of_find :
      (q : A → Bool) (t : List A) (x : A) → find_where q t ≡ some x → 1 ≤ count_where q t
  unfolding find_where count_where
  count_of_find q [] x h = ground arith
  count_of_find q (y ∷ ys) x h = ground (arith, count_of_find q ys x)

  -- Where at most one row has the key, a further condition is tested on that row.
  pub find-and :
      (q g : A → Bool) (t : List A)
      → count_where q t ≤ 1
      → find_where (λ x. q x && g x) t
        ≡ Option.bind (find_where q t) (λ x. if g x then some x else none)
  unfolding find_where count_where Option.bind
  find-and q g [] h = refl
  find-and q g (x ∷ xs) h = elim (Bool-cases (q x)) [
    | inl e ↦ rw (e) (first (g x) (find_none_of_count (λ y. q y && g y) xs (none_left e)))
    | inr e ↦ rw (e) (find-and q g xs (ground arith))
  ]
    where
      none_left : q x ≡ true → count_where (λ y. q y && g y) xs ≡ 0
      none_left e = let l = count_mono (λ y. q y && g y) q (λ y k. ground arith) xs in ground arith

      first :
          (b : Bool)
          → find_where (λ y. q y && g y) xs ≡ none
          → (if b then some x else find_where (λ y. q y && g y) xs) ≡ (if b then some x else none)
      first b n = rw n
