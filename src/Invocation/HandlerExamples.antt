-- ===== src/Invocation/HandlerExamples.antt =====
-- The manager's handlers and the dispatcher on concrete inputs.
use mathlib.Core.List.{Memᴰ}
use maos_core.Common.{
  ◌≡◌, ◌≢◌, refl, true, false, [], ◌∷◌, ℕ, Option, none, some, arith, String, str_eq, str_eq_iff,
  if◌then◌else◌, Bool-cases, inl, inr, ap,
}
use maos_core.Common.Int.{pos}
use maos_core.Common.Table.{find_where}
use maos_core.Common.Decimal.{format_nat}
use maos_core.Common.TextEquality.{text_eq}
use maos_core.Models.{completed, Bytes, Invocation}
use maos_core.Invocation.Queue.{Db, invocation_get_available, find_by_id}
use maos_core.Invocation.Queue.Finalize.{HeldBy}
use maos_core.Invocation.Examples.{
  worker, empty_db, unlocked, first_row, taken_db, taken_db-Inv, first_found,
}
use maos_core.Invocation.Codec.{Object, Codec, RoundTrips}
use maos_core.Invocation.Manager.{World, CreateRequest, with_trace_id}
use maos_core.Invocation.Manager.Waiting.{response, execute_invocation_sync, answered}
use maos_core.Invocation.Manager.Waiting.Answers.{sync_answers}
use maos_core.Invocation.Manager.Work.{
  Round, nothing_yet, get_next_loop, return_invocation_response, return_invocation_error,
}
use maos_core.Invocation.Manager.Work.Finishing.{
  Reaches, Leaves, result-Reaches, other_workers_refused,
}
use maos_core.Invocation.Manager.Work.Rounds.{Waited, get_next_loop_ends, nothing_yet_waits}
use maos_core.Invocation.Dispatcher.{Dispatcher, new_dispatcher, listen, dispatch, Wakes, payload}
use maos_core.Invocation.Dispatcher.Delivery.{dispatch-Wakes}

-- A small library for the encoding: it writes the empty object and an object of one trace id.
abbrev read_one : Bytes → Option (Object ℕ)
read_one [] = some []
read_one (n ∷ rest) = some (("trace_id", some n) ∷ [])

abbrev write_one : Object ℕ → Option Bytes
write_one [] = some []
write_one ((k, some n) ∷ []) = if str_eq k "trace_id" then some (n ∷ []) else none
write_one _ = none

abbrev one_id : Codec ℕ
one_id = record { marshal = write_one; unmarshal = read_one }

first_of : (n m : ℕ) (ms : Bytes) → some (n ∷ []) ≡ some (m ∷ ms) → m ≡ n
first_of n m ms h = cc

written :
    (k : String) (n : ℕ) (b : Bytes)
    → k ≡ "trace_id"
    → some (n ∷ []) ≡ some b
    → read_one b ≡ some ((k, some n) ∷ [])
written k n [] e h = absurd cc
written k n (m ∷ ms) e h = rw e (ap (λ x. some (("trace_id", some x) ∷ [])) (first_of n m ms h))

one_id-RoundTrips : RoundTrips ℕ one_id
one_id-RoundTrips [] b h = ground arith
one_id-RoundTrips ((k, none) ∷ []) b h = absurd cc
one_id-RoundTrips ((k, none) ∷ y ∷ ys) b h = absurd cc
one_id-RoundTrips ((k, some n) ∷ []) b h = elim (Bool-cases (str_eq k "trace_id")) [
  | inl e ↦ written (k) n b ((str_eq_iff k "trace_id").0 e) (rw e at h)
  | inr e ↦ absurd (ground arith)
]
one_id-RoundTrips ((k, some n) ∷ y ∷ ys) b h = absurd cc

abbrev object : Object ℕ
object = ("trace_id", some 1) ∷ []

abbrev request : CreateRequest ℕ
request = record { actor = "worker"; meta = object; payload = [] }

abbrev empty_world : World
empty_world = record { db = empty_db; notifications = [] }

with_id : with_trace_id 8 object ≡ object
unfolding with_trace_id
with_id = refl

abbrev taken_world : World
taken_world = record { db = taken_db; notifications = [] }

first_held : HeldBy 5 first_row
first_held = record { runs = refl; taken = refl }

result-Reaches_example :
    Reaches one_id 1 14 first_row object object true taken_world
      (return_invocation_response one_id false false 14 5 (format_nat 1) object taken_world)
result-Reaches_example =
    result-Reaches one_id 1 14 5 object object (1 ∷ []) taken_world first_row true one_id-RoundTrips
      taken_db-Inv (omega arith) first_found first_held refl refl

not_held : (i : Invocation) → find_by_id taken_db (pos 1) ≡ some i → ¬ HeldBy 6 i
not_held i f h = cc (f, first_found, h.taken)

other_workers_refused_example :
    Leaves one_id taken_world
      (return_invocation_response one_id false false 14 6 (format_nat 1) object taken_world)
    × Leaves one_id taken_world
        (return_invocation_error one_id false false 14 6 (format_nat 1) object taken_world)
other_workers_refused_example =
    other_workers_refused one_id 1 14 6 object (1 ∷ []) taken_world taken_db-Inv (omega arith)
      not_held refl

-- The database in which worker 5 has completed the first invocation.
abbrev done_row : Invocation
done_row = record first_row { finalized_at = some 14; result = some (9 ∷ []); state = completed }

abbrev done_db : Db
done_db = record { actors = worker ∷ []; invocations = done_row ∷ []; next_id = 2 }

abbrev result_object : Object ℕ
result_object = ("trace_id", some 9) ∷ []

sync_answers_example :
    (execute_invocation_sync one_id false false true false 8 10 request
      (response (b'3' ∷ []) empty_db ∷ response (format_nat 1) done_db ∷ [])
      empty_world).1
    ≡ some (
        answered (record {
          id = format_nat 1;
          attempted_at = some 12;
          finalized_at = some 14;
          meta = object;
          state = completed;
          result = some result_object;
          errors = none;
        }))
unfolding with_trace_id find_where find_by_id text_eq format_nat
sync_answers_example =
    sync_answers one_id 8 10 request empty_world worker (1 ∷ []) []
      (response (b'3' ∷ []) empty_db ∷ []) [] done_db done_row (9 ∷ []) result_object object refl
      refl refl refl (refl, tt) refl refl refl refl refl

abbrev last_round : Round
last_round = record {
  db = empty_db;
  query_fails = false;
  locked = unlocked;
  db_now = 20;
  now = 20;
  wait_fails = false;
}

get_next_loop_ends_example : get_next_loop one_id 5 7 15 (last_round ∷ []) ≢ none
get_next_loop_ends_example =
    get_next_loop_ends one_id 5 7 15 (last_round ∷ []) last_round (Memᴰ.head refl) (omega arith)

ends_empty : get_next_loop one_id 5 7 15 (last_round ∷ []) ≡ some (empty_db, nothing_yet)
unfolding get_next_loop invocation_get_available
ends_empty = refl

nothing_yet_waits_example : Waited one_id 5 7 15 (last_round ∷ [])
nothing_yet_waits_example = nothing_yet_waits one_id 5 7 15 (last_round ∷ []) empty_db ends_empty

abbrev fresh : Dispatcher ℕ
fresh = new_dispatcher ℕ

dispatch-Wakes_example :
    (q : ℕ) × (d' : Dispatcher ℕ) × Wakes
      (dispatch (listen fresh (b'1' ∷ [])).0 (b'1' ∷ []) 3).0
      (b'1' ∷ [])
      d'
      (payload q)
unfolding new_dispatcher
dispatch-Wakes_example = dispatch-Wakes fresh (b'1' ∷ []) 3 refl
