-- ===== src/Invocation/Manager/Waiting.antt =====
-- invocation/manager.go: the handlers that wait for the answer of an invocation. While one waits,
-- the others go on: each event comes with the database as it stands when the event is handled.
pub mod Answers
use mathlib.Core.Option
use maos_core.Common.{or_return, Bool, List, [], ◌∷◌, ℕ, Option, none, some, if◌then◌else◌, String}
use maos_core.Common.Int.{ℤ, pos}
use maos_core.Common.Decimal.{Text, format_nat, parse_int}
use maos_core.Common.TextEquality.{text_eq}
use maos_core.Models.{Invocation, Fetched, row, no_rows, query_error}
use maos_core.Invocation.Queue.{Db, invocation_find_by_id, invocation_insert}
use maos_core.Invocation.Queue.Steps.{submitted}
use maos_core.Invocation.Codec.{Object, Codec, parse_json}
use maos_core.Invocation.Manager.{
  World, pg_notify_one, invoke_topic, CreateRequest, Prepared, refused, broken, ready, prepare,
  View, GetResponse, get_panics, not_found, get_invocation,
}

-- The timer of `context.WithTimeout`, or a payload on the topic maos_response.
pub data Event : Type 0 where
  timer : Db → Event
  response : Text → Db → Event

-- The `for` loop around `select`: the database at which it ends, `none` while it goes on.
unfoldable pub wait_loop : Text → List Event → Option Db
wait_loop id [] = none
wait_loop id (timer db ∷ events) = some db
wait_loop id (response payload db ∷ events) =
    let rest = wait_loop id events in if text_eq payload id then some db else rest

-- Without a subscription only the timer is heard.
unfoldable pub timers : List Event → List Event
timers [] = []
timers (timer db ∷ events) = timer db ∷ timers events
timers (response payload db ∷ events) = timers events

unfoldable pub heard : Bool → List Event → List Event
unfolding timers
heard listens events = if listens then events else timers events

module _ {V : Type 0} where
  -- `defer responseSub.Unlisten(ctx)`: after a failed Listen the subscription is nil.
  abbrev pub get_unlisten : Bool → GetResponse V → GetResponse V
  get_unlisten listens r = if listens then r else get_panics

  abbrev pub get_or_wait :
      Codec V → Bool → Bool → Text → ℤ → Option ℤ → List Event → Db → Option (GetResponse V)
  get_or_wait codec find_fails listens id n none events db =
      some (get_invocation codec find_fails id n db)
  get_or_wait codec find_fails listens id n (some wait) events db =
      Option.map (λ db'. get_unlisten listens (get_invocation codec find_fails id n db'))
        (wait_loop id (heard listens events))

  -- `none` while the handler waits.
  unfoldable pub get_invocation_by_id :
      Codec V → Bool → Bool → Text → Option ℤ → List Event → Db → Option (GetResponse V)
  unfolding wait_loop heard
  get_invocation_by_id codec find_fails listens id wait events db =
      or_return (some not_found) (parse_int 64 id)
        λ n. get_or_wait codec find_fails listens id n wait events db

pub data SyncResponse (V : Type 0) : Type 0 where
  answered : View V → SyncResponse V
  sync_bad_request : String → SyncResponse V
  sync_server_error : String → SyncResponse V
  sync_error : SyncResponse V
  sync_panics : SyncResponse V

module _ {V : Type 0} where
  abbrev pub sync_unlisten : Bool → SyncResponse V → SyncResponse V
  sync_unlisten listens r = if listens then r else sync_panics

  abbrev pub answer_meta :
      Text → Invocation → Option (Object V) → Option (Object V) → Option (Object V) → SyncResponse V
  answer_meta id i result errors none = sync_server_error "Failed to parse metadata"
  answer_meta id i result errors (some meta) = answered (record {
    id = id;
    attempted_at = i.attempted_at;
    finalized_at = i.finalized_at;
    meta = meta;
    state = i.state;
    result = result;
    errors = errors;
  })

  abbrev pub answer_parsed :
      Codec V
      → Text
      → Invocation
      → Option (Option (Object V))
      → Option (Option (Object V))
      → SyncResponse V
  answer_parsed codec id i (some result) (some errors) =
      answer_meta id i result errors (codec.unmarshal i.metadata)
  answer_parsed codec id i _ _ = sync_server_error "Failed to parse result or errors"

  abbrev pub answer_found : Codec V → Text → Fetched Invocation → SyncResponse V
  answer_found codec id (row i) =
      answer_parsed codec id i (parse_json codec i.result) (parse_json codec i.errors)
  answer_found codec id _ = sync_panics

  -- The closure `returnInvication` does not look at the error of the query: without a row the
  -- metadata are nil, and `*meta` dereferences a nil pointer.
  unfoldable pub return_invocation : Codec V → Bool → ℕ → Db → SyncResponse V
  unfolding parse_json
  return_invocation codec find_fails id db =
      answer_found codec (format_nat id) (invocation_find_by_id find_fails db (pos id))

  abbrev pub sync_inserted :
      Codec V
      → Bool
      → Bool
      → Bool
      → List Event
      → World
      → Db × Fetched (ℕ × ℕ)
      → World × Option (SyncResponse V)
  sync_inserted codec notify_fails listens find_fails events w (db, row (id, queue_id)) = (
    pg_notify_one notify_fails invoke_topic (format_nat queue_id) (record w { db = db }),
    Option.map (λ db'. sync_unlisten listens (return_invocation codec find_fails id db'))
        (wait_loop (format_nat id) (heard listens events)),
  )
  sync_inserted codec notify_fails listens find_fails events w (db, no_rows) =
      (record w { db = db }, some (sync_unlisten listens (sync_bad_request "actor not found")))
  sync_inserted codec notify_fails listens find_fails events w (db, query_error) =
      (record w { db = db }, some (sync_unlisten listens sync_error))

  abbrev pub sync_prepared :
      Codec V
      → Bool
      → Bool
      → Bool
      → Bool
      → ℕ
      → String
      → List Event
      → World
      → Prepared
      → World × Option (SyncResponse V)
  sync_prepared codec insert_fails notify_fails listens find_fails now actor events w (refused e) =
      (w, some (sync_bad_request e))
  sync_prepared codec insert_fails notify_fails listens find_fails now actor events w (broken e) =
      (w, some (sync_server_error e))
  sync_prepared codec insert_fails notify_fails listens find_fails now actor events w
        (ready metadata payload) =
      sync_inserted codec notify_fails listens find_fails events w
        (invocation_insert insert_fails now w.db (submitted actor metadata payload))

  unfoldable pub execute_invocation_sync :
      Codec V
      → Bool
      → Bool
      → Bool
      → Bool
      → V
      → ℕ
      → CreateRequest V
      → List Event
      → World
      → World × Option (SyncResponse V)
  unfolding prepare pg_notify_one wait_loop heard return_invocation
  execute_invocation_sync codec insert_fails notify_fails listens find_fails trace_id now request
        events w =
      sync_prepared codec insert_fails notify_fails listens find_fails now request.actor events w
        (prepare codec trace_id request)
