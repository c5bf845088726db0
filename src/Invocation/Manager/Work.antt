-- ===== src/Invocation/Manager/Work.antt =====
-- invocation/manager.go: the handlers of the workers, who take invocations and finish them.
pub mod Finishing
pub mod Rounds
use maos_core.Common.{
  or_return, Bool, true, false, List, [], ◌∷◌, ℕ, Option, none, some, if◌then◌else◌, String, ltb,
  leb, ◌+◌,
}
use maos_core.Common.Int.{ℤ, pos, negsuc}
use maos_core.Common.Decimal.{Text, format_nat, parse_int}
use maos_core.Models.{Bytes, Invocation, Fetched, row, no_rows, query_error}
use maos_core.Invocation.Queue.{
  Db, invocation_get_available, invocation_set_complete_if_running,
  invocation_set_failure_if_running,
}
use maos_core.Invocation.Codec.{Object, Codec}
use maos_core.Invocation.Manager.{wait_sec, World, pg_notify_one, Topic, response_topic}

pub data ReturnResponse : Type 0 where
  accepted : ReturnResponse
  unknown : ReturnResponse
  return_error : String → ReturnResponse

-- What follows the update: the caller who waits is told the id as it was sent.
abbrev pub answer_return :
    Bool → String → Text → World → Db × Fetched Invocation → World × ReturnResponse
answer_return notify_fails message invoke_id w (db, row i) =
    (pg_notify_one notify_fails response_topic invoke_id (record w { db = db }), accepted)
answer_return notify_fails message invoke_id w (db, no_rows) = (record w { db = db }, unknown)
answer_return notify_fails message invoke_id w (db, query_error) =
    (record w { db = db }, return_error message)

module _ {V : Type 0} where
  unfoldable pub return_invocation_response :
      Codec V → Bool → Bool → ℕ → ℕ → Text → Object V → World → World × ReturnResponse
  unfolding pg_notify_one
  return_invocation_response codec update_fails notify_fails now caller invoke_id result w =
      or_return (w, unknown) (parse_int 64 invoke_id)
        λ id.
          or_return (w, return_error "Failed to marshal result") (codec.marshal result)
            λ bytes.
              answer_return notify_fails "Failed to set invocation compelte" invoke_id w
                (invocation_set_complete_if_running update_fails w.db id caller now bytes)

  unfoldable pub return_invocation_error :
      Codec V → Bool → Bool → ℕ → ℕ → Text → Object V → World → World × ReturnResponse
  unfolding pg_notify_one
  return_invocation_error codec update_fails notify_fails now caller invoke_id errors w =
      or_return (w, unknown) (parse_int 64 invoke_id)
        λ id.
          or_return (w, return_error "Failed to marshal result") (codec.marshal errors)
            λ bytes.
              answer_return notify_fails "Failed to set invocation failure" invoke_id w
                (invocation_set_failure_if_running update_fails w.db id caller now bytes)

pub data NextResponse (V : Type 0) : Type 0 where
  next_invocation : Text → Object V → Object V → NextResponse V
  nothing_yet : NextResponse V
  next_error : String → NextResponse V

-- One round of the loop: the database that the query meets, the rows that others hold, the clocks,
-- and whether the dispatcher was closed while the worker waited.
pub record Round : Type 0 where
  pub db : Db
  pub query_fails : Bool
  pub locked : ℕ → Bool
  pub db_now : ℕ
  pub now : ℕ
  pub wait_fails : Bool

module _ {V : Type 0} where
  abbrev pub next_payload : Text → Object V → Option (Object V) → NextResponse V
  next_payload id meta none = next_error "Failed to unmarshal payload"
  next_payload id meta (some payload) = next_invocation id meta payload

  abbrev pub next_meta : Text → Option (Object V) → Option (Object V) → NextResponse V
  next_meta id none payload = next_error "Failed to unmarshal metadata"
  next_meta id (some meta) payload = next_payload id meta payload

  unfoldable pub create_get_next_response : Codec V → Invocation → NextResponse V
  create_get_next_response codec i =
      next_meta (format_nat i.id) (codec.unmarshal i.metadata) (codec.unmarshal i.payload)

  -- After the query of a round: an invocation ends the loop, and so does the end of the time;
  -- `rest` is what the later rounds give.
  abbrev pub after_query :
      Codec V
      → ℕ
      → Round
      → Option (Db × NextResponse V)
      → Db × List Invocation
      → Option (Db × NextResponse V)
  after_query codec deadline r rest (db, i ∷ _) = some (db, create_get_next_response codec i)
  after_query codec deadline r rest (db, []) =
      if leb deadline r.now
      then some (db, nothing_yet)
      else if r.wait_fails
      then some (db, next_error "Cannot wait for next invocation:")
      else rest

  -- `none` while the worker waits. The deadline is the start time and the seconds to wait: the
  -- source's test is `waitSec - (now - start) <= 0`.
  unfoldable pub get_next_loop : Codec V → ℕ → ℕ → ℕ → List Round → Option (Db × NextResponse V)
  get_next_loop codec caller queue_id deadline [] = none
  get_next_loop codec caller queue_id deadline (r ∷ rounds) =
      let rest = get_next_loop codec caller queue_id deadline rounds in
      if r.query_fails
      then some (r.db, next_error "Cannot get next invocation: ")
      else after_query codec deadline r rest
          (invocation_get_available r.db_now r.locked caller queue_id 1 r.db)

abbrev pub seconds : ℤ → ℕ
seconds (pos n) = n
seconds (negsuc n) = 0

module _ {V : Type 0} where
  -- The dispatcher's Listen before the loop is not checked.
  unfoldable pub get_next_invocation :
      Codec V → ℕ → ℕ → Option ℤ → ℕ → List Round → Option (Db × NextResponse V)
  unfolding get_next_loop wait_sec
  get_next_invocation codec caller queue_id wait start_time rounds =
      get_next_loop codec caller queue_id (start_time + seconds (wait_sec (pos 1) wait)) rounds
