-- ===== src/Invocation/Manager/Waiting/Answers.antt =====
-- ExecuteInvocationSync: the caller waits for the answer to its own invocation.

use maos_core.Common.{◌≡◌, refl, ap, ◌++◌, true, false, List, [], ◌∷◌, ℕ, none, some, str_eq}
use maos_core.Common.Int.{pos}
use maos_core.Common.Table.{find_where}
use maos_core.Common.Decimal.{Text, format_nat}
use maos_core.Common.Membership.{All}
use maos_core.Common.TextEquality.{text_eq, text_eq_refl}
use maos_core.Models.{Bytes, Actor, Invocation}
use maos_core.Invocation.Queue.{Db, find_by_id, invocation_find_by_id, invocation_insert}
use maos_core.Invocation.Codec.{Object, Codec, parse_json}
use maos_core.Invocation.Manager.{World, CreateRequest, with_trace_id, is_empty, prepare}
use maos_core.Invocation.Manager.Waiting.{
  Event, timer, response, wait_loop, heard, return_invocation, execute_invocation_sync, answered,
}

-- A response to another invocation.
abbrev pub Other : Text → Event → Type 0
Other id (timer db) = true ≡ false
Other id (response payload db) = text_eq payload id ≡ false

wait_loop-append :
    (id : Text) (before after : List Event) (db : Db)
    → All (Other id) before
    → wait_loop id (before ++ response id db ∷ after) ≡ some db
unfolding wait_loop
wait_loop-append id [] after db h = rw (text_eq_refl id) refl
wait_loop-append id (timer d ∷ events) after db h = absurd (cc (h.0))
wait_loop-append id (response p d ∷ events) after db h =
    rw (h.0) (wait_loop-append id events after db h.1)

module _ {V : Type 0} (codec : Codec V) where
  returned :
      (k : ℕ) (db : Db) (i : Invocation) (b : Bytes) (o meta : Object V)
      → find_by_id db (pos k) ≡ some i
      → i.result ≡ some b
      → i.errors ≡ none
      → codec.unmarshal b ≡ some o
      → codec.unmarshal i.metadata ≡ some meta
      → return_invocation codec false k db
        ≡ answered (record {
          id = format_nat k;
          attempted_at = i.attempted_at;
          finalized_at = i.finalized_at;
          meta = meta;
          state = i.state;
          result = some o;
          errors = none;
        })
  unfolding return_invocation invocation_find_by_id parse_json
  returned k db i b o meta f r e u m = rw (f, r, e, u, m) refl

  -- The caller of ExecuteInvocationSync, whose request is written and whose actor is there, passes
  -- over the responses to other invocations; at the first to its own, before the time is up, the
  -- answer is the row that the database then holds under the new id, with its result. The
  -- subscription and the calls of the database succeed, and the row has a result and no errors.
  pub sync_answers :
      (trace_id : V) (now : ℕ) (request : CreateRequest V) (w : World) (actor : Actor) (m p : Bytes)
      (before after : List Event) (db : Db) (i : Invocation) (b : Bytes) (o meta : Object V)
      → is_empty request.meta ≡ false
      → codec.marshal (with_trace_id trace_id request.meta) ≡ some m
      → codec.marshal request.payload ≡ some p
      → find_where (λ a. str_eq a.name request.actor) w.db.actors ≡ some actor
      → All (Other (format_nat w.db.next_id)) before
      → find_by_id db (pos w.db.next_id) ≡ some i
      → i.result ≡ some b
      → i.errors ≡ none
      → codec.unmarshal b ≡ some o
      → codec.unmarshal i.metadata ≡ some meta
      → (execute_invocation_sync codec false false true false trace_id now request
          (before ++ response (format_nat w.db.next_id) db ∷ after)
          w).1
        ≡ some (
            answered (record {
              id = format_nat w.db.next_id;
              attempted_at = i.attempted_at;
              finalized_at = i.finalized_at;
              meta = meta;
              state = i.state;
              result = some o;
              errors = none;
            }))
  unfolding execute_invocation_sync invocation_insert prepare heard
  sync_answers trace_id now request w actor m p before after db i b o meta e em ep fa others f r er
        u um =
      rw (e, em, ep, fa, wait_loop-append (format_nat w.db.next_id) before after db others)
        (ap some (returned w.db.next_id db i b o meta f r er u um))
