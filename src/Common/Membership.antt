-- ===== src/Common/Membership.antt =====
-- Rows of a table, one by one, and keys that no two rows share.
use maos_core.Common.Tests.{if◌then◌else◌, Bool-cases, if_rule}
use maos_core.Common.Table.{
  find_where, select_where, update_where, delete_where, count_where, row_update,
}
use Prim.Native.Nat.{◌≤◌}
use mathlib.Core.Path.{◌≡◌, refl, ap, sym, ◌∙◌, subst}
use mathlib.Core.Logic.{inl, inr, ◌⊎◌}
use mathlib.Core.Bool.{Bool, true, false}
use mathlib.Core.Option.{some}
use mathlib.Core.List.{List, [], ◌∷◌, ◌++◌, Memᴰ}
use native.Mathlib.Omega.{arith}

module _ {ℓ} {A : Type ℓ} where
  abbrev pub All {κ} : (A → Type κ) → List A → Type κ
  All P [] = Unit
  All P (x ∷ xs) = P x × All P xs

  pub All-append {κ} : (P : A → Type κ) (t u : List A) → All P t → All P u → All P (t ++ u)
  All-append P [] u h k = k
  All-append P (x ∷ xs) u h k = (h.0, All-append P xs u h.1 k)

  pub All-map {κ ι} :
      (P : A → Type κ) (Q : A → Type ι) (t : List A) → ((x : A) → P x → Q x) → All P t → All Q t
  All-map P Q [] f h = tt
  All-map P Q (x ∷ xs) f h = (f x h.0, All-map P Q xs f h.1)

  pub All-Memᴰ {κ} : (P : A → Type κ) {x : A} (t : List A) → All P t → Memᴰ x t → P x
  All-Memᴰ P [] h m = elim m [ ]
  All-Memᴰ P (y ∷ ys) h (Memᴰ.head e) = subst P (sym e) h.0
  All-Memᴰ P (y ∷ ys) h (Memᴰ.tail m) = All-Memᴰ P ys h.1 m

  -- An update keeps what it keeps of each row of the table.
  pub All-update {κ} :
      (P : A → Type κ) (p : A → Bool) (f : A → A) (t : List A)
      → ((x : A) → Memᴰ x t → P x → P (row_update p f x))
      → All P t
      → All P (update_where p f t)
  unfolding update_where
  All-update P p f [] k h = tt
  All-update P p f (x ∷ xs) k h =
      (k x (Memᴰ.head refl) h.0, All-update P p f xs (λ y m. k y (Memᴰ.tail m)) h.1)

  pub All-delete {κ} :
      (P : A → Type κ) (p : A → Bool) (t : List A) → All P t → All P (delete_where p t)
  unfolding delete_where
  All-delete P p [] h = tt
  All-delete P p (x ∷ xs) h =
      if_rule (All P) (p x) (All-delete P p xs h.1) (h.0, All-delete P p xs h.1)

  Memᴰ-if :
      {x : A} (b : Bool) (y : A) (xs ys : List A)
      → Memᴰ x (if b then y ∷ xs else ys)
      → ((b ≡ true) × (x ≡ y)) ⊎ ((b ≡ true) × Memᴰ x xs) ⊎ ((b ≡ false) × Memᴰ x ys)
  Memᴰ-if true y xs ys (Memᴰ.head e) = inl (refl, e)
  Memᴰ-if true y xs ys (Memᴰ.tail m) = inr (inl (refl, m))
  Memᴰ-if false y xs ys m = inr (inr (refl, m))

  pub Memᴰ-select :
      {x : A} (p : A → Bool) (t : List A) → Memᴰ x (select_where p t) → (p x ≡ true) × Memᴰ x t
  unfolding select_where
  Memᴰ-select p [] m = elim m [ ]
  Memᴰ-select p (y ∷ ys) m = elim (Memᴰ-if (p y) y (select_where p ys) (select_where p ys) m) [
    | inl (h, e) ↦ (ap p e ∙ h, Memᴰ.head e)
    | inr (inl (h, k)) ↦ let (a, b) = Memᴰ-select p ys k in (a, Memᴰ.tail b)
    | inr (inr (h, k)) ↦ let (a, b) = Memᴰ-select p ys k in (a, Memᴰ.tail b)
  ]

  pub Memᴰ-find : {x : A} (p : A → Bool) (t : List A) → find_where p t ≡ some x → Memᴰ x t
  unfolding find_where
  Memᴰ-find p [] h = absurd (ground arith)
  Memᴰ-find p (y ∷ ys) h = elim (Bool-cases (p y)) [
    | inl e ↦ Memᴰ.head (ground arith)
    | inr e ↦ Memᴰ.tail (Memᴰ-find p ys (ground arith))
  ]

  pub count_of_Memᴰ :
      {x : A} (p : A → Bool) (t : List A) → Memᴰ x t → p x ≡ true → 1 ≤ count_where p t
  unfolding count_where
  count_of_Memᴰ p [] m h = elim m [ ]
  count_of_Memᴰ p (y ∷ ys) (Memᴰ.head e) h = ground arith
  count_of_Memᴰ p (y ∷ ys) (Memᴰ.tail m) h = omega (arith, count_of_Memᴰ p ys m h)

  -- A row whose condition no other row meets is the one that is found.
  pub find_of_Memᴰ :
      {x : A} (p : A → Bool) (t : List A)
      → count_where p t ≤ 1
      → Memᴰ x t
      → p x ≡ true
      → find_where p t ≡ some x
  unfolding count_where find_where
  find_of_Memᴰ p [] c m h = elim m [ ]
  find_of_Memᴰ p (y ∷ ys) c (Memᴰ.head e) h = ground arith
  find_of_Memᴰ p (y ∷ ys) c (Memᴰ.tail m) h = elim (Bool-cases (p y)) [
    | inl k ↦ absurd (ground (arith, count_of_Memᴰ p ys m h))
    | inr k ↦ rw k (find_of_Memᴰ p ys (ground arith) m h)
  ]
