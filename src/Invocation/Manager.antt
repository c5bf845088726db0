-- ===== src/Invocation/Manager.antt =====
-- invocation/manager.go: creating invocations and reading them. `query` says which database calls
-- fail; each handler makes a call at most once, but in a loop.
pub mod Work
pub mod Creating
pub mod Waiting
use maos_core.Common.{
  ◌++◌, Bool, true, false, List, [], ◌∷◌, ℕ, Option, none, some, if◌then◌else◌, String, ltb, not,
}
use maos_core.Common.Int.{ℤ, pos}
use maos_core.Common.Decimal.{Text, format_nat, parse_int}
use maos_core.Common.TextEquality.{text_eq}
use maos_core.Models.{
  Bytes, Invocation, InvocationState, available, running, completed, discarded, cancelled, Fetched,
  row, no_rows, query_error,
}
use maos_core.Util.Comparable.{clamp}
use maos_core.Invocation.Queue.{Db, invocation_find_by_id, invocation_insert}
use maos_core.Invocation.Queue.Steps.{submitted}
use maos_core.Invocation.Codec.{Object, Codec, get_key, set_key, parse_json}

pub data Topic : Type 0 where
  invoke_topic response_topic : Topic

-- The database, and the notifications that have been sent through it.
pub record World : Type 0 where
  pub db : Db
  pub notifications : List (Topic × Text)

-- PgNotifyOne; the caller ignores its error.
unfoldable pub pg_notify_one : Bool → Topic → Text → World → World
pg_notify_one query_fails topic payload w =
    if query_fails then w else record w { notifications = w.notifications ++ (topic, payload) ∷ [] }

abbrev pub default_wait_sec : ℤ
default_wait_sec = pos 10

abbrev pub or_default : Option ℤ → ℤ
or_default none = default_wait_sec
or_default (some wait) = wait

-- `util.Clamp(*lo.CoalesceOrEmpty(request.Params.Wait, &defaultWaitSec), 0, 60)`
unfoldable pub wait_sec : ℤ → Option ℤ → ℤ
unfolding clamp
wait_sec least wait = clamp (or_default wait) least (pos 60)

pub record CreateRequest (V : Type 0) : Type 0 where
  pub actor : String
  pub meta : Object V
  pub payload : Object V

abbrev pub trace_key : String
trace_key = "trace_id"

-- The checks with which both ways to create an invocation begin.
pub data Prepared : Type 0 where
  refused : String → Prepared
  broken : String → Prepared
  ready : Bytes → Bytes → Prepared

abbrev pub prepare_payload : Option Bytes → Bytes → Prepared
prepare_payload none metadata = broken "Failed to marshal payload"
prepare_payload (some payload) metadata = ready metadata payload

abbrev pub prepare_metadata : Option Bytes → Option Bytes → Prepared
prepare_metadata none payload = broken "Failed to marshal metadata"
prepare_metadata (some metadata) payload = prepare_payload payload metadata

pub data InsertResponse : Type 0 where
  created : Text → InsertResponse
  bad_request : String → InsertResponse
  server_error : String → InsertResponse
  handler_error : InsertResponse

abbrev pub inserted : Bool → World → Db × Fetched (ℕ × ℕ) → World × InsertResponse
inserted notify_fails w (db, row (id, queue_id)) = (
  pg_notify_one notify_fails invoke_topic (format_nat queue_id) (record w { db = db }),
  created (format_nat id),
)
inserted notify_fails w (db, no_rows) = (record w { db = db }, bad_request "actor not found")
inserted notify_fails w (db, query_error) = (record w { db = db }, handler_error)

abbrev pub insert_prepared : Bool → Bool → ℕ → String → World → Prepared → World × InsertResponse
insert_prepared insert_fails notify_fails now actor w (refused e) = (w, bad_request e)
insert_prepared insert_fails notify_fails now actor w (broken e) = (w, server_error e)
insert_prepared insert_fails notify_fails now actor w (ready metadata payload) =
    inserted notify_fails w
      (invocation_insert insert_fails now w.db (submitted actor metadata payload))

pub record View (V : Type 0) : Type 0 where
  pub id : Text
  pub attempted_at : Option ℕ
  pub finalized_at : Option ℕ
  pub meta : Object V
  pub state : InvocationState
  pub result : Option (Object V)
  pub errors : Option (Object V)

pub data GetResponse (V : Type 0) : Type 0 where
  finalized : View V → GetResponse V
  unfinished : View V → GetResponse V
  not_found : GetResponse V
  get_error : String → GetResponse V
  -- A nil pointer is dereferenced.
  get_panics : GetResponse V

-- lo.Contains(finalizedStatuses, state)
abbrev pub is_finalized : InvocationState → Bool
is_finalized available = false
is_finalized running = false
is_finalized _ = true

module _ {V : Type 0} where
  abbrev pub is_empty : Object V → Bool
  is_empty [] = true
  is_empty _ = false

  abbrev pub trace_or : V → Object V → Option V → Object V
  trace_or trace_id meta none = set_key trace_key trace_id meta
  trace_or trace_id meta (some v) = meta

  -- Ensures that the trace id is set; `trace_id` is what generateTraceId returns.
  unfoldable pub with_trace_id : V → Object V → Object V
  unfolding get_key set_key
  with_trace_id trace_id meta = trace_or trace_id meta (get_key trace_key meta)

  unfoldable pub prepare : Codec V → V → CreateRequest V → Prepared
  unfolding with_trace_id
  prepare codec trace_id request =
      if is_empty request.meta
      then refused "Meta is required"
      else prepare_metadata (codec.marshal (with_trace_id trace_id request.meta))
          (codec.marshal request.payload)

  unfoldable pub insert_invocation :
      Codec V → Bool → Bool → V → ℕ → CreateRequest V → World → World × InsertResponse
  unfolding prepare pg_notify_one
  insert_invocation codec insert_fails notify_fails trace_id now request w =
      insert_prepared insert_fails notify_fails now request.actor w (prepare codec trace_id request)

  abbrev pub show_view : InvocationState → View V → GetResponse V
  show_view state view = if is_finalized state then finalized view else unfinished view

  abbrev pub show_meta :
      Text → Invocation → Option (Object V) → Option (Object V) → Option (Object V) → GetResponse V
  show_meta id i result errors none = get_error "Failed to parse metadata"
  show_meta id i result errors (some meta) = show_view i.state (record {
    id = id;
    attempted_at = i.attempted_at;
    finalized_at = i.finalized_at;
    meta = meta;
    state = i.state;
    result = result;
    errors = errors;
  })

  abbrev pub show_parsed :
      Codec V
      → Text
      → Invocation
      → Option (Option (Object V))
      → Option (Option (Object V))
      → GetResponse V
  show_parsed codec id i (some result) (some errors) =
      show_meta id i result errors (codec.unmarshal i.metadata)
  show_parsed codec id i _ _ = get_error "Failed to parse result or errors"

  abbrev pub show_found : Codec V → Text → Fetched Invocation → GetResponse V
  show_found codec id (row i) =
      show_parsed codec id i (parse_json codec i.result) (parse_json codec i.errors)
  show_found codec id no_rows = not_found
  show_found codec id query_error = get_error "Failed to find invocation"

  -- The closure `getInvocation`.
  unfoldable pub get_invocation : Codec V → Bool → Text → ℤ → Db → GetResponse V
  unfolding parse_json
  get_invocation codec find_fails id invocation_id db =
      show_found codec id (invocation_find_by_id find_fails db invocation_id)
