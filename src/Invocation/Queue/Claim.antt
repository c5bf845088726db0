-- ===== src/Invocation/Queue/Claim.antt =====
-- InvocationGetAvailable for one row, as GetNextInvocation calls it.
use mathlib.Core.List.{Memᴰ}
use mathlib.Core.Option
use maos_core.Common.{
  ◌≡◌, refl, ◌==◌, Bool, true, false, List, [], ◌∷◌, ℕ, arith, Bool-cases, inl, inr, ap, ◌≢◌, ◌⊎◌,
  subst, sym, ◌∙◌, Option, none, some, take, map,
}
use maos_core.Common.Int.{pos}
use maos_core.Common.Table.{
  find_where, select_where, update_where, row_update, find-update, find-holds,
}
use maos_core.Common.Membership.{All-map, All, find_of_Memᴰ}
use maos_core.Models.{Invocation, available}
use maos_core.Invocation.Queue.{
  Db, find_by_id, invocation_get_available, is_claimable, locked_invocations, has_id, claim,
  sort_rows, before,
}
use maos_core.Invocation.Queue.Order.{sort_rows-IsFirst, sort_rows-nil, Memᴰ-locked}
use maos_core.Invocation.Queue.Invariant.{Inv}

-- A row that a worker of the queue may take.
pub record Claimable (queue_id : ℕ) (locked : ℕ → Bool) (i : Invocation) : Type 0 where
  pub waits : i.state ≡ available
  pub in_queue : i.queue_id ≡ queue_id
  pub unlocked : locked i.id ≡ false

module _ (queue_id : ℕ) (locked : ℕ → Bool) where
  of_test : (i : Invocation) → is_claimable queue_id locked i ≡ true → Claimable queue_id locked i
  unfolding is_claimable
  of_test i h = ground arith

  to_test : (i : Invocation) → Claimable queue_id locked i → is_claimable queue_id locked i ≡ true
  unfolding is_claimable
  to_test i v = ground arith

  -- Of all the rows that may be taken, the first by priority and then by id.
  abbrev pub IsNext : Db → Invocation → Type 0
  IsNext db r =
      Claimable queue_id locked r
      × All (λ x. Claimable queue_id locked x → before r x ≡ true) db.invocations

All-select :
    (p : Invocation → Bool) (P : Invocation → Type 0) (t : List Invocation)
    → All P (select_where p t)
    → All (λ x. p x ≡ true → P x) t
unfolding select_where
All-select p P [] h = tt
All-select p P (x ∷ xs) h = elim (Bool-cases (p x)) [
  | inl e ↦ let k : All P (x ∷ select_where p xs) = rw e at h in ((λ _. k.0), All-select p P xs k.1)
  | inr e ↦ let k : All P (select_where p xs) = rw e at h in ((λ f. cc), All-select p P xs k)
]

none_selected :
    (p : Invocation → Bool) (t : List Invocation) → select_where p t ≡ [] → All (λ x. p x ≡ false) t
unfolding select_where
none_selected p [] h = tt
none_selected p (x ∷ xs) h = elim (Bool-cases (p x)) [
  | inl e ↦ absurd (ground arith)
  | inr e ↦ (e, none_selected p xs (ground arith))
]

head_locked :
    (queue_id : ℕ) (locked : ℕ → Bool) (db : Db) (r : Invocation) (rs : List Invocation)
    → sort_rows (select_where (is_claimable queue_id locked) db.invocations) ≡ r ∷ rs
    → Memᴰ r (locked_invocations queue_id locked 1 db)
unfolding locked_invocations
head_locked queue_id locked db r rs e = subst (λ s. Memᴰ r (take 1 s)) (sym e) (Memᴰ.head refl)

-- What the statement does, in its two cases: no row may be taken and nothing happens, or the next
-- row becomes the worker's and no other row changes.
abbrev pub Nothing : ℕ → (ℕ → Bool) → Db → Db × List Invocation → Type 0
Nothing queue_id locked db (db', rows) =
    (rows ≡ [])
    × (db'.invocations ≡ db.invocations)
    × All (λ x. ¬ Claimable queue_id locked x) db.invocations

abbrev pub Takes : ℕ → (ℕ → Bool) → ℕ → ℕ → Db → Db × List Invocation → Type 0
Takes queue_id locked now worker db (db', rows) =
    (r : Invocation) × (find_by_id db (pos r.id) ≡ some r)
    × IsNext queue_id locked db r
    × (rows ≡ claim now worker r ∷ [])
    × (find_by_id db' (pos r.id) ≡ some (claim now worker r))
    × ((k : ℕ) → k ≢ r.id → find_by_id db' (pos k) ≡ find_by_id db (pos k))

update_none : (f : Invocation → Invocation) (t : List Invocation) → update_where (has_id []) f t ≡ t
unfolding update_where has_id
update_none f [] = refl
update_none f (x ∷ xs) = rw (update_none f xs)

find-claimed :
    (now worker k : ℕ) (r : Invocation) (t : List Invocation)
    → find_where (λ x. x.id == k) (update_where (has_id (r ∷ [])) (claim now worker) t)
      ≡ Option.map (row_update (has_id (r ∷ [])) (claim now worker)) (find_where (λ x. x.id == k) t)
unfolding has_id
find-claimed now worker k r t =
    find-update (λ x. x.id == k) (has_id (r ∷ [])) (claim now worker) (λ x. ground arith) t

other_row :
    (now worker k : ℕ) (r : Invocation) (o : Option Invocation)
    → ((x : Invocation) → o ≡ some x → (x.id == k) ≡ true)
    → k ≢ r.id
    → Option.map (row_update (has_id (r ∷ [])) (claim now worker)) o ≡ o
unfolding has_id
other_row now worker k r none h ne = refl
other_row now worker k r (some x) h ne = ground (arith, h x refl)

own_row :
    (now worker : ℕ) (r : Invocation)
    → row_update (has_id (r ∷ [])) (claim now worker) r ≡ claim now worker r
unfolding has_id
own_row now worker r = ground arith

module _ (now : ℕ) (locked : ℕ → Bool) (worker queue_id : ℕ) (db : Db) (v : Inv db) where
  abbrev candidates : List Invocation
  candidates = select_where (is_claimable queue_id locked) db.invocations

  abbrev outcome : List Invocation → Db × List Invocation
  outcome s = (
    record db { invocations = update_where (has_id (take 1 s)) (claim now worker) db.invocations },
    map (claim now worker) (take 1 s),
  )

  claim_outcome :
      (s : List Invocation)
      → sort_rows candidates ≡ s
      → Nothing queue_id locked db (outcome s) ⊎ Takes queue_id locked now worker db (outcome s)
  unfolding find_by_id
  claim_outcome [] e = inl (
    refl,
    update_none (claim now worker) db.invocations,
    All-map (λ x. is_claimable queue_id locked x ≡ false) (λ x. ¬ Claimable queue_id locked x)
        db.invocations (λ x h c. cc (to_test queue_id locked x c))
        (none_selected (is_claimable queue_id locked) db.invocations (sort_rows-nil candidates e)),
  )
  claim_outcome (r ∷ rs) e = inr (
    r,
    found,
    (
      of_test queue_id locked r ok,
      All-map (λ x. is_claimable queue_id locked x ≡ true → before r x ≡ true)
          (λ x. Claimable queue_id locked x → before r x ≡ true) db.invocations
          (λ x h c. h (to_test queue_id locked x c))
          (All-select (is_claimable queue_id locked) (λ x. before r x ≡ true) db.invocations
            (sort_rows-IsFirst candidates r rs e)),
    ),
    refl,
    find-claimed now worker r.id r db.invocations ∙ rw found (ap some (own_row now worker r)),
    λ k ne.
        find-claimed now worker k r db.invocations
        ∙ other_row now worker k r (find_where (λ x. x.id == k) db.invocations)
            (λ x h. find-holds (λ y. y.id == k) db.invocations x h) ne,
  )
    where
      is_locked : Memᴰ r (locked_invocations queue_id locked 1 db)
      is_locked = head_locked queue_id locked db r rs e

      ok : is_claimable queue_id locked r ≡ true
      ok = (Memᴰ-locked queue_id locked 1 db is_locked).0

      found : find_where (λ x. x.id == r.id) db.invocations ≡ some r
      found =
          find_of_Memᴰ (λ x. x.id == r.id) db.invocations (v.unique r.id)
            (Memᴰ-locked queue_id locked 1 db is_locked).1 (ground arith)

  -- A worker that asks for one invocation gets, in a consistent table, the first available and
  -- unlocked row of its queue by priority and id, marked as running with the worker as its last
  -- attempt, and no other row changes; or there is no such row, and nothing changes.
  pub claim_next :
      let r = invocation_get_available now locked worker queue_id 1 db in
      Nothing queue_id locked db r ⊎ Takes queue_id locked now worker db r
  unfolding invocation_get_available locked_invocations
  claim_next = claim_outcome (sort_rows candidates) refl
