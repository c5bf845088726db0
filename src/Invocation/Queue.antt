-- ===== src/Invocation/Queue.antt =====
-- dbaccess/dbsqlc/invocation.sql.go: the statements on the table `invocations`. `now` is the
-- database's clock, `query_fails` an error of the connection, and `locked` says which rows another
-- transaction holds (`SKIP LOCKED`).
pub mod Order
pub mod Claim
pub mod Evolution
pub mod Exclusive
pub mod Finalize
pub mod Steps
pub mod Invariant
use mathlib.Core.Option
use maos_core.Common.{
  ◌++◌, ◌==◌, leb, ltb, Bool, true, false, not, ◌&&◌, ◌||◌, List, [], ◌∷◌, ℕ, suc, Option, none,
  some, if◌then◌else◌, map, take, get_last?, String, str_eq,
}
use maos_core.Common.Int.{ℤ, pos, negsuc}
use maos_core.Common.Table.{find_where, select_where, update_where}
use maos_core.Models.{
  Bytes, Actor, Invocation, InvocationState, available, running, completed, discarded, Fetched, row,
  no_rows, query_error, fetched, coalesce, same_state,
}

-- The tables that the statements read and write, with the sequence of the ids.
pub record Db : Type 0 where
  pub actors : List Actor
  pub invocations : List Invocation
  pub next_id : ℕ

-- `id = $1::bigint`, where the argument may be negative.
abbrev pub is_id : ℤ → ℕ → Bool
is_id (pos n) id = id == n
is_id (negsuc n) id = false

unfoldable pub find_by_id : Db → ℤ → Option Invocation
find_by_id db id = find_where (λ i. is_id id i.id) db.invocations

unfoldable pub invocation_find_by_id : Bool → Db → ℤ → Fetched Invocation
unfolding find_by_id
invocation_find_by_id query_fails db id =
    if query_fails then query_error else fetched (find_by_id db id)

pub record InsertParams : Type 0 where
  pub state : InvocationState
  pub created_at : ℕ
  pub finalized_at : Option ℕ
  pub priority : ℕ
  pub payload : Bytes
  pub metadata : Option Bytes
  pub tags : Option (List String)
  pub actor_name : String

abbrev pub new_invocation : ℕ → ℕ → ℕ → InsertParams → Invocation
new_invocation now id queue_id arg = record {
  id = id;
  state = arg.state;
  queue_id = queue_id;
  attempted_at = none;
  created_at = coalesce (some arg.created_at) now;
  finalized_at = arg.finalized_at;
  priority = arg.priority;
  payload = arg.payload;
  errors = none;
  result = none;
  metadata = coalesce arg.metadata (b'{' ∷ b'}' ∷ []);
  tags = coalesce arg.tags [];
  attempted_by = [];
}

abbrev pub insert_into : ℕ → Db → InsertParams → Option Actor → Db × Fetched (ℕ × ℕ)
insert_into now db arg none = (db, no_rows)
insert_into now db arg (some actor) = (
  record db {
    invocations = db.invocations ++ new_invocation now db.next_id actor.queue_id arg ∷ [];
    next_id = suc db.next_id;
  },
  row (db.next_id, actor.queue_id),
)

-- The result is the id of the new row and its queue.
unfoldable pub invocation_insert : Bool → ℕ → Db → InsertParams → Db × Fetched (ℕ × ℕ)
invocation_insert query_fails now db arg =
    if query_fails
    then (db, query_error)
    else insert_into now db arg (find_where (λ a. str_eq a.name arg.actor_name) db.actors)

-- `ORDER BY priority ASC, id ASC`.
unfoldable pub before : Invocation → Invocation → Bool
before a b = ltb a.priority b.priority || (a.priority == b.priority && leb a.id b.id)

unfoldable pub insert_row : Invocation → List Invocation → List Invocation
insert_row a [] = a ∷ []
insert_row a (b ∷ bs) = let rest = insert_row a bs in if before a b then a ∷ b ∷ bs else b ∷ rest

unfoldable pub sort_rows : List Invocation → List Invocation
sort_rows [] = []
sort_rows (a ∷ as') = insert_row a (sort_rows as')

unfoldable pub is_claimable : ℕ → (ℕ → Bool) → Invocation → Bool
unfolding same_state
is_claimable queue_id locked i =
    same_state i.state available && (i.queue_id == queue_id && not (locked i.id))

unfoldable pub locked_invocations : ℕ → (ℕ → Bool) → ℕ → Db → List Invocation
unfolding sort_rows select_where insert_row before
locked_invocations queue_id locked max db =
    take max (sort_rows (select_where (is_claimable queue_id locked) db.invocations))

unfoldable pub has_id : List Invocation → Invocation → Bool
has_id [] i = false
has_id (j ∷ js) i = (i.id == j.id) || has_id js i

abbrev pub claim : ℕ → ℕ → Invocation → Invocation
claim now attempted_by i = record i {
  state = running;
  attempted_at = some now;
  attempted_by = i.attempted_by ++ attempted_by ∷ [];
}

-- The rows come back in the order in which they were locked; the manager asks for one.
unfoldable pub invocation_get_available : ℕ → (ℕ → Bool) → ℕ → ℕ → ℕ → Db → Db × List Invocation
unfolding locked_invocations has_id update_where
invocation_get_available now locked attempted_by queue_id max db =
    let chosen = locked_invocations queue_id locked max db in
    (
      record db {
        invocations = update_where (has_id chosen) (claim now attempted_by) db.invocations;
      },
      map (claim now attempted_by) chosen,
    )

abbrev pub last_is : Option ℕ → ℕ → Bool
last_is none a = false
last_is (some b) a = b == a

-- Running, and last attempted by the caller.
unfoldable pub is_finalizable : ℤ → ℕ → Invocation → Bool
unfolding same_state
is_finalizable id finalizer i =
    is_id id i.id && (same_state i.state running && last_is (get_last? i.attempted_by) finalizer)

abbrev pub complete : ℕ → Bytes → Invocation → Invocation
complete finalized_at result i = record i {
  finalized_at = some finalized_at;
  result = some result;
  state = completed;
}

abbrev pub discard : ℕ → Bytes → Invocation → Invocation
discard finalized_at errors i = record i {
  finalized_at = some finalized_at;
  errors = some errors;
  state = discarded;
}

abbrev pub finalize_with :
    Bool → (Invocation → Bool) → (Invocation → Invocation) → Db → Db × Fetched Invocation
finalize_with query_fails matches f db = if query_fails then (db, query_error) else (
  record db { invocations = update_where matches f db.invocations },
  fetched (Option.map f (find_where matches db.invocations)),
)

unfoldable pub invocation_set_complete_if_running :
    Bool → Db → ℤ → ℕ → ℕ → Bytes → Db × Fetched Invocation
invocation_set_complete_if_running query_fails db id finalizer finalized_at result =
    finalize_with query_fails (is_finalizable id finalizer) (complete finalized_at result) db

unfoldable pub invocation_set_failure_if_running :
    Bool → Db → ℤ → ℕ → ℕ → Bytes → Db × Fetched Invocation
invocation_set_failure_if_running query_fails db id finalizer finalized_at errors =
    finalize_with query_fails (is_finalizable id finalizer) (discard finalized_at errors) db
