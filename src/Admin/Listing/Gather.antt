-- ===== src/Admin/Listing/Gather.antt =====
-- Pages of a list, one behind the other.
use maos_core.Common.{
  ◌≡◌, ◌≤◌, refl, sym, arith, List, [], ◌∷◌, ◌++◌, ℕ, zero, suc, ◌+◌, ◌*◌, ◌/◌, take, length, map,
  ◌∙◌, ap,
}
use maos_core.Admin.Listing.{
  drop, window, total_count, to_nat, ListPage, list_page, list_error, list_panics,
}

ceil_covers : (total m : ℕ) → total ≤ suc m * ((total + m) / suc m)
ceil_covers total m = omega arith

ceil_fits : (total m k : ℕ) → suc k ≤ (total + m) / suc m → suc m * k ≤ total
ceil_fits total m k h = grind (arith, h)

module _ {A : Type 0} where
  take_cong : (a b : ℕ) → a ≡ b → (xs : List A) → take a xs ≡ take b xs
  take_cong a b h xs = ap (λ k. take k xs) h

  take_none : (n : ℕ) → take {A = A} n [] ≡ []
  take_none zero = refl
  take_none (suc n) = refl

  take-drop : (a b : ℕ) (xs : List A) → take a xs ++ take b (drop a xs) ≡ take (a + b) xs
  take-drop zero b xs = take_cong b (0 + b) (omega arith) xs
  take-drop (suc a) b [] = take_none b ∙ sym (take_none (suc a + b))
  take-drop (suc a) b (x ∷ xs) =
      ap (λ t. x ∷ t) (take-drop a b xs)
      ∙ take_cong (suc (a + b)) (suc a + b) (omega arith) (x ∷ xs)

  take_all : (n : ℕ) (xs : List A) → length xs ≤ n → take n xs ≡ xs
  take_all zero [] h = refl
  take_all (suc n) [] h = refl
  take_all zero (x ∷ xs) h = absurd (omega (arith, h))
  take_all (suc n) (x ∷ xs) h = ap (λ t. x ∷ t) (take_all n xs (omega (arith, h)))

  -- The first `n` pages, one behind the other.
  abbrev pub gather : (ℕ → List A) → ℕ → List A
  gather page zero = []
  gather page (suc n) = gather page n ++ page (suc n)

  gather-take :
      (page : ℕ → List A) (size : ℕ) (xs : List A) (n : ℕ)
      → ((k : ℕ) → suc k ≤ n → page (suc k) ≡ take size (drop (size * k) xs))
      → gather page n ≡ take (size * n) xs
  gather-take page size xs zero h = take_cong 0 (size * 0) (omega arith) xs
  gather-take page size xs (suc n) h =
      ap (λ t. t ++ page (suc n)) (gather-take page size xs n (λ k l. h k (omega (arith, l))))
      ∙ ap (λ t. take (size * n) xs ++ t) (h n (omega arith))
      ∙ take-drop (size * n) size xs
      ∙ take_cong (size * n + size) (size * suc n) (omega arith) xs

  untagged : (n : ℕ) (xs : List A) → map {A = A × ℕ} (λ q. q.0) (map (λ t. (t, n)) xs) ≡ xs
  untagged n [] = refl
  untagged n (x ∷ xs) = ap (λ t. x ∷ t) (untagged n xs)

  pub untagged-window :
      (size offset : ℕ) (xs : List A)
      → map {A = A × ℕ} (λ q. q.0) (window size offset xs) ≡ take size (drop offset xs)
  untagged-window size offset xs = untagged (length xs) (take size (drop offset xs))

  counted :
      (n m : ℕ) (xs : List A)
      → n ≡ length xs
      → total_count (map (λ t. (t, n)) (take (suc m) xs)) ≡ length xs
  counted n m [] h = refl
  counted n m (x ∷ xs) h = h

  pub total_count-window :
      (m : ℕ) (xs : List A) → total_count (window (suc m) (suc m * 0) xs) ≡ length xs
  total_count-window m xs =
      ap (λ j. total_count (map (λ t. (t, length xs)) (take (suc m) (drop j xs)))) {x = suc m * 0}
        {y = 0} (omega arith)
      ∙ counted (length xs) m xs refl

  abbrev pub page_data : ListPage A → List A
  page_data (list_page ts pages) = ts
  page_data list_error = []
  page_data list_panics = []

  abbrev pub page_count : ListPage A → ℕ
  page_count (list_page ts pages) = to_nat pages
  page_count list_error = 0
  page_count list_panics = 0

  -- Pages that are the windows of a list, as many as the first one reports, are the list.
  pub gather_all :
      (page : ℕ → ListPage A) (m : ℕ) (xs : List A)
      → ((k : ℕ)
          → suc m * k ≤ length xs
          → page_data (page (suc k)) ≡ take (suc m) (drop (suc m * k) xs))
      → page_count (page 1) ≡ (length xs + m) / suc m
      → gather (λ p. page_data (page p)) (page_count (page 1)) ≡ xs
  gather_all page m xs h c = rw c (
      gather-take (λ p. page_data (page p)) (suc m) xs ((length xs + m) / suc m)
        (λ k l. h k (ceil_fits (length xs) m k l))
      ∙ take_all (suc m * ((length xs + m) / suc m)) xs (ceil_covers (length xs) m))
