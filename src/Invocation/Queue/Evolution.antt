-- ===== src/Invocation/Queue/Evolution.antt =====
-- How one row changes over time, and who gets it.
use maos_core.Common.Membership.{Memᴰ-find}
use maos_core.Common.{
  str_eq, false, [], ◌∷◌, List, ◌⊎◌, ◌≡◌, refl, ◌==◌, Bool, true, ℕ, arith, Bool-cases, inl, inr,
  ◌≤◌, ◌∙◌, Option, none, some, String,
}
use maos_core.Common.Int.{ℤ, pos}
use maos_core.Common.Table.{find_where, update_where, row_update, find-update, find-append}
use maos_core.Models.{Bytes, Actor, Invocation, InvocationState, available, running}
use maos_core.Invocation.Queue.{
  invocation_set_failure_if_running, locked_invocations, has_id, invocation_set_complete_if_running,
  is_finalizable, finalize_with, invocation_insert, is_claimable, invocation_get_available, Db,
  find_by_id, insert_into, claim, complete, discard,
}
use maos_core.Invocation.Queue.Invariant.{
  has_id-locked, apply-Inv, finalizable_running, Inv, is_final,
}
use maos_core.Invocation.Queue.Steps.{
  set_failure, set_complete, take_next, submit, Op, apply, run, submitted,
}

abbrev pub stage : InvocationState → ℕ
stage available = 0
stage running = 1
stage _ = 2

-- A later version of the same row.
pub record Advances (i j : Invocation) : Type 0 where
  pub same_id : j.id ≡ i.id
  pub same_queue : j.queue_id ≡ i.queue_id
  pub same_payload : j.payload ≡ i.payload
  pub same_metadata : j.metadata ≡ i.metadata
  pub same_created : j.created_at ≡ i.created_at
  pub stage_grows : stage i.state ≤ stage j.state
  pub final_stays : is_final i.state ≡ true → j ≡ i
  pub running_keeps : i.state ≡ running → j.attempted_by ≡ i.attempted_by

Advances-refl : (i : Invocation) → Advances i i
Advances-refl i = record {
  same_id = refl;
  same_queue = refl;
  same_payload = refl;
  same_metadata = refl;
  same_created = refl;
  stage_grows = omega arith;
  final_stays = λ h. refl;
  running_keeps = λ h. refl;
}

stage_cases : (s : InvocationState) → 1 ≤ stage s → (s ≡ running) ⊎ (is_final s ≡ true)
stage_cases available h = absurd (omega arith)
stage_cases running h = inl refl
stage_cases _ h = inr refl

Advances-trans : (i j k : Invocation) → Advances i j → Advances j k → Advances i k
Advances-trans i j k a b = record {
  same_id = b.same_id ∙ a.same_id;
  same_queue = b.same_queue ∙ a.same_queue;
  same_payload = b.same_payload ∙ a.same_payload;
  same_metadata = b.same_metadata ∙ a.same_metadata;
  same_created = b.same_created ∙ a.same_created;
  stage_grows = omega (arith, a.stage_grows, b.stage_grows);
  final_stays = λ h. let e = a.final_stays h in b.final_stays (rw e h) ∙ e;
  running_keeps = λ h. elim (stage_cases j.state (rw h at a.stage_grows)) [
    | inl r ↦ b.running_keeps r ∙ a.running_keeps h
    | inr f ↦ rw (b.final_stays f) (a.running_keeps h)
  ];
}

claim-Advances :
    (now worker : ℕ) (i : Invocation) → i.state ≡ available → Advances i (claim now worker i)
claim-Advances now worker i h = record {
  same_id = refl;
  same_queue = refl;
  same_payload = refl;
  same_metadata = refl;
  same_created = refl;
  stage_grows = rw h (omega arith);
  final_stays = λ k. ground arith;
  running_keeps = λ k. ground arith;
}

complete-Advances :
    (at : ℕ) (result : Bytes) (i : Invocation)
    → i.state ≡ running
    → Advances i (complete at result i)
complete-Advances at result i h = record {
  same_id = refl;
  same_queue = refl;
  same_payload = refl;
  same_metadata = refl;
  same_created = refl;
  stage_grows = rw h (omega arith);
  final_stays = λ k. ground arith;
  running_keeps = λ k. refl;
}

discard-Advances :
    (at : ℕ) (errors : Bytes) (i : Invocation)
    → i.state ≡ running
    → Advances i (discard at errors i)
discard-Advances at errors i h = record {
  same_id = refl;
  same_queue = refl;
  same_payload = refl;
  same_metadata = refl;
  same_created = refl;
  stage_grows = rw h (omega arith);
  final_stays = λ k. ground arith;
  running_keeps = λ k. refl;
}

claimable_available :
    (queue_id : ℕ) (locked : ℕ → Bool) (i : Invocation)
    → is_claimable queue_id locked i ≡ true
    → i.state ≡ available
unfolding is_claimable
claimable_available queue_id locked i h = ground arith

-- What a database says of one id, before and after.
abbrev pub Becomes : Db → Db → ℕ → Invocation → Type 0
Becomes db db' k i = (j : Invocation) × (find_by_id db' (pos k) ≡ some j) × Advances i j

update-Becomes :
    (p : Invocation → Bool) (f : Invocation → Invocation) (db : Db) (k : ℕ) (i : Invocation)
    → ((x : Invocation) → (f x).id ≡ x.id)
    → (p i ≡ true → Advances i (f i))
    → find_by_id db (pos k) ≡ some i
    → Becomes db (record db { invocations = update_where p f db.invocations }) k i
unfolding find_by_id
update-Becomes p f db k i ids step h = (
  row_update p f i,
  find-update (λ x. x.id == k) p f (λ x. ground (arith, ids x)) db.invocations ∙ rw h,
  elim (Bool-cases (p i)) [ inl e ↦ rw e (step e) | inr e ↦ rw e (Advances-refl i) ],
)

insert-Becomes :
    (now : ℕ) (db : Db) (name : String) (metadata payload : Bytes) (actor : Option Actor) (k : ℕ)
    (i : Invocation)
    → find_by_id db (pos k) ≡ some i
    → Becomes db (insert_into now db (submitted name metadata payload) actor).0 k i
unfolding find_by_id
insert-Becomes now db name metadata payload none k i h = (i, h, Advances-refl i)
insert-Becomes now db name metadata payload (some a) k i h =
    (i, find-append (λ x. x.id == k) db.invocations _ i h, Advances-refl i)

take_next-Becomes :
    (now : ℕ) (locked : ℕ → Bool) (worker queue_id max : ℕ) (db : Db) (k : ℕ) (i : Invocation)
    → Inv db
    → find_by_id db (pos k) ≡ some i
    → Becomes db (invocation_get_available now locked worker queue_id max db).0 k i
unfolding invocation_get_available find_by_id
take_next-Becomes now locked worker queue_id max db k i v h =
    update-Becomes (has_id (locked_invocations queue_id locked max db)) (claim now worker) db k i
      (λ x. refl)
      (λ e. claim-Advances now worker i (
        claimable_available queue_id locked i (
          has_id-locked queue_id locked max db i v (Memᴰ-find (λ x. x.id == k) db.invocations h)
            e)))
      h

finalize-Becomes :
    (fails : Bool) (id : ℤ) (finalizer : ℕ) (f : Invocation → Invocation) (db : Db) (k : ℕ)
    (i : Invocation)
    → ((x : Invocation) → (f x).id ≡ x.id)
    → (i.state ≡ running → Advances i (f i))
    → find_by_id db (pos k) ≡ some i
    → Becomes db (finalize_with fails (is_finalizable id finalizer) f db).0 k i
finalize-Becomes true id finalizer f db k i ids step h = (i, h, Advances-refl i)
finalize-Becomes false id finalizer f db k i ids step h =
    update-Becomes (is_finalizable id finalizer) f db k i ids
      (λ e. step (finalizable_running id finalizer i e)) h

-- One statement of the manager: the row is still there, and has only advanced.
pub apply-Becomes :
    (op : Op) (db : Db) (k : ℕ) (i : Invocation)
    → Inv db
    → find_by_id db (pos k) ≡ some i
    → Becomes db (apply op db) k i
unfolding apply invocation_insert invocation_set_complete_if_running
    invocation_set_failure_if_running
apply-Becomes (submit true now name metadata payload) db k i v h = (i, h, Advances-refl i)
apply-Becomes (submit false now name metadata payload) db k i v h =
    insert-Becomes now db name metadata payload (find_where (λ a. str_eq a.name name) db.actors) k i
      h
apply-Becomes (take_next now locked worker queue_id max) db k i v h =
    take_next-Becomes now locked worker queue_id max db k i v h
apply-Becomes (set_complete fails id finalizer at result) db k i v h =
    finalize-Becomes fails id finalizer (complete at result) db k i (λ x. refl)
      (complete-Advances at result i) h
apply-Becomes (set_failure fails id finalizer at errors) db k i v h =
    finalize-Becomes fails id finalizer (discard at errors) db k i (λ x. refl)
      (discard-Advances at errors i) h

-- From a table that keeps the invariant, a row is never lost, whatever the manager's statements and
-- whatever fails: it keeps its id, queue, payload, metadata and creation time, its state only moves
-- from available over running to a final one, once it runs its attempts stay, and a final
-- row never changes.
pub run-Becomes :
    (ops : List Op) (db : Db) (k : ℕ) (i : Invocation)
    → Inv db
    → find_by_id db (pos k) ≡ some i
    → Becomes db (run ops db) k i
unfolding run
run-Becomes [] db k i v h = (i, h, Advances-refl i)
run-Becomes (op ∷ ops) db k i v h =
    let (j, f, a) = apply-Becomes op db k i v h in
    let (l, g, b) = run-Becomes ops (apply op db) k j (apply-Inv op db v) f in
    (l, g, Advances-trans i j l a b)
