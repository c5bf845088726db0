-- ===== src/Invocation/Queue/Invariant.antt =====
-- What holds of the table between two statements.
use maos_core.Invocation.Queue.Order.{Memᴰ-locked}
use mathlib.Core.List.{Memᴰ}
use maos_core.Common.{
  suc, ◌++◌, subst, some, str_eq, Option, String, ◌≡◌, refl, ◌==◌, Bool, true, false, List, [], ◌∷◌,
  ℕ, arith, Bool-cases, inl, inr, ◌≤◌, ◌<◌, ◌≢◌, none, get_last?, get_last?-append,
}
use maos_core.Common.Table.{count-append, find_where, update_where, count_where, count-update-eq}
use maos_core.Common.Membership.{All-map, All-append, find_of_Memᴰ, All, All-update}
use maos_core.Models.{Bytes, Invocation, InvocationState, available, running, completed, discarded}
use maos_core.Invocation.Queue.{
  insert_into, Actor, ℤ, locked_invocations, invocation_insert, is_claimable,
  invocation_set_failure_if_running, invocation_get_available, has_id,
  invocation_set_complete_if_running, is_finalizable, Db, claim, complete, discard, new_invocation,
}
use maos_core.Invocation.Queue.Steps.{
  set_failure, set_complete, take_next, submit, Op, apply, run, submitted,
}

abbrev pub is_final : InvocationState → Bool
is_final available = false
is_final running = false
is_final _ = true

-- The database's constraint finalized_or_finalized_at_null, and what each state says of the
-- columns that the statements write.
pub record Lifecycle (i : Invocation) : Type 0 where
  pub open_rows :
      is_final i.state ≡ false → (i.finalized_at ≡ none) × (i.result ≡ none) × (i.errors ≡ none)
  pub final_rows : is_final i.state ≡ true → i.finalized_at ≢ none
  pub unclaimed : i.state ≡ available → i.attempted_by ≡ []
  pub claimed : i.state ≢ available → get_last? i.attempted_by ≢ none
  pub completed_rows : i.state ≡ completed → (i.result ≢ none) × (i.errors ≡ none)
  pub discarded_rows : i.state ≡ discarded → (i.errors ≢ none) × (i.result ≡ none)

pub record Inv (db : Db) : Type 0 where
  pub unique : (k : ℕ) → count_where (λ i. i.id == k) db.invocations ≤ 1
  pub fresh : All (λ i. i.id < db.next_id) db.invocations
  pub lifecycle : All Lifecycle db.invocations

new_invocation-Lifecycle :
    (now id queue_id : ℕ) (actor : String) (metadata payload : Bytes)
    → Lifecycle (new_invocation now id queue_id (submitted actor metadata payload))
new_invocation-Lifecycle now id queue_id actor metadata payload = record {
  open_rows = λ h. (refl, refl, refl);
  final_rows = λ h. cc;
  unclaimed = λ h. refl;
  claimed = λ h. absurd (h refl);
  completed_rows = λ h. cc;
  discarded_rows = λ h. cc;
}

claim-Lifecycle :
    (now worker : ℕ) (i : Invocation)
    → is_final i.state ≡ false
    → Lifecycle i
    → Lifecycle (claim now worker i)
claim-Lifecycle now worker i h v = record {
  open_rows = λ k. v.open_rows h;
  final_rows = λ k. cc;
  unclaimed = λ k. cc;
  claimed = λ k l. cc (get_last?-append i.attempted_by worker);
  completed_rows = λ k. cc;
  discarded_rows = λ k. cc;
}

complete-Lifecycle :
    (at : ℕ) (result : Bytes) (i : Invocation)
    → i.state ≡ running
    → Lifecycle i
    → Lifecycle (complete at result i)
complete-Lifecycle at result i h v = ground (arith, v.claimed, v.open_rows)

discard-Lifecycle :
    (at : ℕ) (errors : Bytes) (i : Invocation)
    → i.state ≡ running
    → Lifecycle i
    → Lifecycle (discard at errors i)
discard-Lifecycle at errors i h v = ground (arith, v.claimed, v.open_rows)

pub claimable_open :
    (queue_id : ℕ) (locked : ℕ → Bool) (i : Invocation)
    → is_claimable queue_id locked i ≡ true
    → is_final i.state ≡ false
unfolding is_claimable
claimable_open queue_id locked i h = ground arith

pub finalizable_running :
    (id : ℤ) (finalizer : ℕ) (i : Invocation)
    → is_finalizable id finalizer i ≡ true
    → i.state ≡ running
unfolding is_finalizable
finalizable_running id finalizer i h = ground arith

-- The ids of a table with fresh ids do not hold the next one.
pub none_at_next :
    (n k : ℕ) (t : List Invocation)
    → n ≤ k
    → All (λ i. i.id < n) t
    → count_where (λ i. i.id == k) t ≡ 0
unfolding count_where
none_at_next n k [] le h = refl
none_at_next n k (x ∷ xs) le h = ground (arith, none_at_next n k xs le h.1)

-- A row with the next id can be added.
count-add :
    (n k : ℕ) (t : List Invocation) (x : Invocation)
    → x.id ≡ n
    → All (λ i. i.id < n) t
    → count_where (λ i. i.id == k) t ≤ 1
    → count_where (λ i. i.id == k) (t ++ x ∷ []) ≤ 1
unfolding count_where
count-add n k t x e h u =
    rw (count-append (λ i. i.id == k) t (x ∷ [])) (elim (Bool-cases (x.id == k)) [
      | inl m ↦ rw (m, none_at_next n k t (ground arith) h) (omega arith)
      | inr m ↦ rw m (omega arith)
    ])

-- An update that keeps the ids and the lifecycle of each row that it meets keeps the invariant.
update-Inv :
    (p : Invocation → Bool) (f : Invocation → Invocation) (db : Db)
    → ((i : Invocation) → (f i).id ≡ i.id)
    → ((i : Invocation) → Memᴰ i db.invocations → p i ≡ true → Lifecycle i → Lifecycle (f i))
    → Inv db
    → Inv (record db { invocations = update_where p f db.invocations })
update-Inv p f db ids keep v = record {
  unique = λ k.
      rw (count-update-eq p (λ i. i.id == k) f (λ x. ground (arith, ids x)) db.invocations)
        (v.unique k);
  fresh =
      All-update (λ i. i.id < db.next_id) p f db.invocations (λ x m h. ground (arith, ids x))
        v.fresh;
  lifecycle =
      All-update Lifecycle p f db.invocations
        (λ x m h. elim (Bool-cases (p x)) [ inl e ↦ rw e (keep x m e h) | inr e ↦ rw e h ])
        v.lifecycle;
}

has_id-Memᴰ :
    (js : List Invocation) (i : Invocation)
    → has_id js i ≡ true
    → (j : Invocation) × Memᴰ j js × (i.id ≡ j.id)
unfolding has_id
has_id-Memᴰ [] i h = absurd (ground arith)
has_id-Memᴰ (j ∷ js) i h = elim (Bool-cases (i.id == j.id)) [
  | inl e ↦ (j, Memᴰ.head refl, ground arith)
  | inr e ↦ let (k, m, q) = has_id-Memᴰ js i (ground arith) in (k, Memᴰ.tail m, q)
]

pub one_row : (o : Option Invocation) (i j : Invocation) → o ≡ some i → o ≡ some j → i ≡ j
one_row o i j h k = cc

-- The rows that a claim updates are the locked ones: no other row shares an id with them.
pub has_id-locked :
    (queue_id : ℕ) (locked : ℕ → Bool) (max : ℕ) (db : Db) (i : Invocation)
    → Inv db
    → Memᴰ i db.invocations
    → has_id (locked_invocations queue_id locked max db) i ≡ true
    → is_claimable queue_id locked i ≡ true
has_id-locked queue_id locked max db i v m h =
    let (j, n, e) = has_id-Memᴰ (locked_invocations queue_id locked max db) i h in
    let (c, o) = Memᴰ-locked queue_id locked max db n in
    let found_i =
      find_of_Memᴰ (λ r. r.id == i.id) db.invocations (v.unique i.id) m (ground arith) in
    let found_j =
      find_of_Memᴰ (λ r. r.id == i.id) db.invocations (v.unique i.id) o (ground arith) in
    subst (λ r. is_claimable queue_id locked r ≡ true)
      (one_row (find_where (λ r. r.id == i.id) db.invocations) j i found_j found_i) c

submit-Inv :
    (now : ℕ) (db : Db) (name : String) (metadata payload : Bytes) (actor : Option Actor)
    → Inv db
    → Inv (insert_into now db (submitted name metadata payload) actor).0
submit-Inv now db name metadata payload none v = v
submit-Inv now db name metadata payload (some a) v = record {
  unique = λ k. one_each k;
  fresh =
      All-append (λ i. i.id < suc db.next_id) db.invocations (entry ∷ [])
        (All-map (λ i. i.id < db.next_id) (λ i. i.id < suc db.next_id) db.invocations
          (λ x h. omega arith) v.fresh)
        (omega arith, tt);
  lifecycle =
      All-append Lifecycle db.invocations (entry ∷ []) v.lifecycle
        (new_invocation-Lifecycle now db.next_id a.queue_id name metadata payload, tt);
}
  where
    entry : Invocation
    entry = new_invocation now db.next_id a.queue_id (submitted name metadata payload)

    one_each : (k : ℕ) → count_where (λ i. i.id == k) (db.invocations ++ entry ∷ []) ≤ 1
    one_each k = count-add db.next_id k db.invocations entry refl v.fresh (v.unique k)

take_next-Inv :
    (now : ℕ) (locked : ℕ → Bool) (worker queue_id max : ℕ) (db : Db)
    → Inv db
    → Inv (invocation_get_available now locked worker queue_id max db).0
unfolding invocation_get_available
take_next-Inv now locked worker queue_id max db v =
    update-Inv (has_id (locked_invocations queue_id locked max db)) (claim now worker) db
      (λ i. refl)
      (λ i m h l.
        claim-Lifecycle now worker i
          (claimable_open queue_id locked i (has_id-locked queue_id locked max db i v m h)) l)
      v

complete-Inv :
    (fails : Bool) (db : Db) (id : ℤ) (finalizer at : ℕ) (result : Bytes)
    → Inv db
    → Inv (invocation_set_complete_if_running fails db id finalizer at result).0
unfolding invocation_set_complete_if_running
complete-Inv true db id finalizer at result v = v
complete-Inv false db id finalizer at result v =
    update-Inv (is_finalizable id finalizer) (complete at result) db (λ i. refl)
      (λ i m h l. complete-Lifecycle at result i (finalizable_running id finalizer i h) l) v

discard-Inv :
    (fails : Bool) (db : Db) (id : ℤ) (finalizer at : ℕ) (errors : Bytes)
    → Inv db
    → Inv (invocation_set_failure_if_running fails db id finalizer at errors).0
unfolding invocation_set_failure_if_running
discard-Inv true db id finalizer at errors v = v
discard-Inv false db id finalizer at errors v =
    update-Inv (is_finalizable id finalizer) (discard at errors) db (λ i. refl)
      (λ i m h l. discard-Lifecycle at errors i (finalizable_running id finalizer i h) l) v

insert-Inv :
    (fails : Bool) (now : ℕ) (db : Db) (name : String) (metadata payload : Bytes)
    → Inv db
    → Inv (invocation_insert fails now db (submitted name metadata payload)).0
unfolding invocation_insert
insert-Inv true now db name metadata payload v = v
insert-Inv false now db name metadata payload v =
    submit-Inv now db name metadata payload (find_where (λ a. str_eq a.name name) db.actors) v

-- Each statement of the manager keeps the invariant, whatever fails.
pub apply-Inv : (op : Op) (db : Db) → Inv db → Inv (apply op db)
unfolding apply
apply-Inv (submit fails now name metadata payload) db v =
    insert-Inv fails now db name metadata payload v
apply-Inv (take_next now locked worker queue_id max) db v =
    take_next-Inv now locked worker queue_id max db v
apply-Inv (set_complete fails id finalizer at result) db v =
    complete-Inv fails db id finalizer at result v
apply-Inv (set_failure fails id finalizer at errors) db v =
    discard-Inv fails db id finalizer at errors v

-- From a table in which the following holds, it holds after any sequence of the manager's
-- statements, whatever fails: ids are distinct and below the next one; a row has a finalization
-- time in a final state and in no other; it has no attempt while available and one in every other
-- state; a completed row has a result and no errors, a discarded one errors and no result, and one
-- that is not final has neither.
pub run-Inv : (ops : List Op) (db : Db) → Inv db → Inv (run ops db)
unfolding run
run-Inv [] db v = v
run-Inv (op ∷ ops) db v = run-Inv ops (apply op db) (apply-Inv op db v)
