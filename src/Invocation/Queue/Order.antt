-- ===== src/Invocation/Queue/Order.antt =====
-- The order in which waiting invocations are handed out, and the rows that a claim locks.
use mathlib.Core.List.{Memᴰ}
use maos_core.Common.{
  ◌≡◌, refl, Bool, true, false, List, [], ◌∷◌, ℕ, zero, suc, arith, take, if◌then◌else◌, Bool-cases,
  inl, inr, ◌⊎◌, ◌≢◌, subst, sym,
}
use maos_core.Common.Table.{select_where}
use maos_core.Common.Membership.{All, All-map, Memᴰ-select}
use maos_core.Models.{Invocation}
use maos_core.Invocation.Queue.{Db, before, insert_row, sort_rows, is_claimable, locked_invocations}

pub before_refl : (a : Invocation) → before a a ≡ true
unfolding before
before_refl a = ground arith

before_trans : (a b c : Invocation) → before a b ≡ true → before b c ≡ true → before a c ≡ true
unfolding before
before_trans a b c h k = ground arith

before_total : (a b : Invocation) → before a b ≡ false → before b a ≡ true
unfolding before
before_total a b h = ground arith

abbrev pub IsFirst : List Invocation → Invocation → Type 0
IsFirst t r = All (λ x. before r x ≡ true) t

insert_row-ne-nil : (a : Invocation) (t : List Invocation) → insert_row a t ≢ []
unfolding insert_row
insert_row-ne-nil a [] h = cc
insert_row-ne-nil a (b ∷ bs) h = ground arith

pub sort_rows-nil : (t : List Invocation) → sort_rows t ≡ [] → t ≡ []
unfolding sort_rows
sort_rows-nil [] h = refl
sort_rows-nil (a ∷ t) h = absurd (insert_row-ne-nil a (sort_rows t) h)

insert_row-IsFirst :
    (a y : Invocation) (t s ys : List Invocation)
    → (s ≡ [] → t ≡ [])
    → ((z : Invocation) (zs : List Invocation) → s ≡ z ∷ zs → IsFirst t z)
    → insert_row a s ≡ y ∷ ys
    → IsFirst (a ∷ t) y
unfolding insert_row
insert_row-IsFirst a y t [] ys empty first e =
    subst (IsFirst (a ∷ t)) (ground arith)
      (before_refl a, subst (λ u. IsFirst u a) (sym (empty refl)) tt)
insert_row-IsFirst a y t (b ∷ bs) ys empty first e = elim (Bool-cases (before a b)) [
  | inl h ↦ subst (IsFirst (a ∷ t)) (ground arith) (
    before_refl a,
    All-map (λ x. before b x ≡ true) (λ x. before a x ≡ true) t (λ x k. before_trans a b x h k)
        (first b bs refl),
  )
  | inr h ↦ subst (IsFirst (a ∷ t)) (ground arith) (before_total a b h, first b bs refl)
]

-- The head of the sorted rows comes before every row.
pub sort_rows-IsFirst :
    (t : List Invocation) (y : Invocation) (ys : List Invocation)
    → sort_rows t ≡ y ∷ ys
    → IsFirst t y
unfolding sort_rows
sort_rows-IsFirst [] y ys e = tt
sort_rows-IsFirst (a ∷ t) y ys e =
    insert_row-IsFirst a y t (sort_rows t) ys (sort_rows-nil t) (sort_rows-IsFirst t) e

Memᴰ-if-either :
    {y : Invocation} (c : Bool) (a b : Invocation) (t u : List Invocation)
    → Memᴰ y (if c then a ∷ t else b ∷ u)
    → ((y ≡ a) ⊎ Memᴰ y t) ⊎ (y ≡ b) ⊎ Memᴰ y u
Memᴰ-if-either true a b t u (Memᴰ.head e) = inl (inl e)
Memᴰ-if-either true a b t u (Memᴰ.tail m) = inl (inr m)
Memᴰ-if-either false a b t u (Memᴰ.head e) = inr (inl e)
Memᴰ-if-either false a b t u (Memᴰ.tail m) = inr (inr m)

Memᴰ-insert_row :
    {y : Invocation} (a : Invocation) (t : List Invocation)
    → Memᴰ y (insert_row a t)
    → (y ≡ a) ⊎ Memᴰ y t
unfolding insert_row
Memᴰ-insert_row a [] (Memᴰ.head e) = inl e
Memᴰ-insert_row a [] (Memᴰ.tail m) = inr m
Memᴰ-insert_row a (b ∷ bs) m = elim (Memᴰ-if-either (before a b) a b (b ∷ bs) (insert_row a bs) m) [
  | inl k ↦ k
  | inr (inl e) ↦ inr (Memᴰ.head e)
  | inr (inr k) ↦ behind (Memᴰ-insert_row a bs k)
]
  where
    behind : {y : Invocation} → (y ≡ a) ⊎ Memᴰ y bs → (y ≡ a) ⊎ Memᴰ y (b ∷ bs)
    behind (inl e) = inl e
    behind (inr k) = inr (Memᴰ.tail k)

Memᴰ-sort_rows : {y : Invocation} (t : List Invocation) → Memᴰ y (sort_rows t) → Memᴰ y t
unfolding sort_rows
Memᴰ-sort_rows [] m = m
Memᴰ-sort_rows (a ∷ t) m = elim (Memᴰ-insert_row a (sort_rows t) m) [
  | inl e ↦ Memᴰ.head e
  | inr k ↦ Memᴰ.tail (Memᴰ-sort_rows t k)
]

Memᴰ-take : {y : Invocation} (n : ℕ) (t : List Invocation) → Memᴰ y (take n t) → Memᴰ y t
Memᴰ-take zero t m = elim m [ ]
Memᴰ-take (suc n) [] m = m
Memᴰ-take (suc n) (x ∷ xs) (Memᴰ.head e) = Memᴰ.head e
Memᴰ-take (suc n) (x ∷ xs) (Memᴰ.tail m) = Memᴰ.tail (Memᴰ-take n xs m)

-- A locked row is a row of the table that may be claimed.
pub Memᴰ-locked :
    {y : Invocation} (queue_id : ℕ) (locked : ℕ → Bool) (max : ℕ) (db : Db)
    → Memᴰ y (locked_invocations queue_id locked max db)
    → (is_claimable queue_id locked y ≡ true) × Memᴰ y db.invocations
unfolding locked_invocations
Memᴰ-locked queue_id locked max db m = Memᴰ-select (is_claimable queue_id locked) db.invocations (
    Memᴰ-sort_rows (select_where (is_claimable queue_id locked) db.invocations)
      (Memᴰ-take max (sort_rows (select_where (is_claimable queue_id locked) db.invocations)) m))
