-- ===== src/Invocation/Queue/Steps.antt =====
-- The statements as the manager issues them, one after another in any order.
use maos_core.Common.{Bool, List, [], ◌∷◌, ℕ, none, some, String}
use maos_core.Common.Int.{ℤ}
use maos_core.Models.{Bytes, available}
use maos_core.Invocation.Queue.{
  Db, InsertParams, invocation_insert, invocation_get_available, invocation_set_complete_if_running,
  invocation_set_failure_if_running,
}

-- What the manager passes to InvocationInsert: the fields that it leaves out are Go's zero values.
abbrev pub submitted : String → Bytes → Bytes → InsertParams
submitted actor_name metadata payload = record {
  state = available;
  created_at = 0;
  finalized_at = none;
  priority = 1;
  payload = payload;
  metadata = some metadata;
  tags = none;
  actor_name = actor_name;
}

pub data Op : Type 0 where
  submit : Bool → ℕ → String → Bytes → Bytes → Op
  take_next : ℕ → (ℕ → Bool) → ℕ → ℕ → ℕ → Op
  set_complete : Bool → ℤ → ℕ → ℕ → Bytes → Op
  set_failure : Bool → ℤ → ℕ → ℕ → Bytes → Op

unfoldable pub apply : Op → Db → Db
apply (submit fails now actor_name metadata payload) db =
    (invocation_insert fails now db (submitted actor_name metadata payload)).0
apply (take_next now locked worker queue_id max) db =
    (invocation_get_available now locked worker queue_id max db).0
apply (set_complete fails id finalizer at result) db =
    (invocation_set_complete_if_running fails db id finalizer at result).0
apply (set_failure fails id finalizer at errors) db =
    (invocation_set_failure_if_running fails db id finalizer at errors).0

unfoldable pub run : List Op → Db → Db
run [] db = db
run (op ∷ ops) db = run ops (apply op db)
