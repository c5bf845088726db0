-- ===== src/Invocation/Manager/Work/Finishing.antt =====
-- From the worker's answer to what the caller reads.

use maos_core.Common.{
  ◌==◌, ◌++◌, Bool, false, [], ◌∷◌, ℕ, none, some, ◌≡◌, refl, ◌<◌, ◌^◌, inl, inr, ◌⊎◌, ap, ◌∙◌,
  String,
}
use maos_core.Common.Int.{pos}
use maos_core.Common.Decimal.{format_nat}
use maos_core.Common.Decimal.RoundTrip.{parse_int-format_nat}
use maos_core.Common.Membership.{All-Memᴰ, Memᴰ-find}
use maos_core.Models.{Bytes, Invocation, completed, Fetched}
use maos_core.Invocation.Queue.{
  Db, find_by_id, invocation_find_by_id, invocation_set_complete_if_running,
  invocation_set_failure_if_running, complete, discard,
}
use maos_core.Invocation.Queue.Invariant.{Inv, Lifecycle, one_row}
use maos_core.Invocation.Queue.Finalize.{
  HeldBy, Finishes, Refuses, set_complete_cases, set_failure_cases,
}
use maos_core.Invocation.Codec.{Object, Codec, RoundTrips, parse_json}
use maos_core.Invocation.Manager.{
  World, pg_notify_one, response_topic, View, finalized, get_invocation,
}
use maos_core.Invocation.Manager.Waiting.{get_invocation_by_id}
use maos_core.Invocation.Manager.Work.{
  ReturnResponse, accepted, unknown, answer_return, return_invocation_response,
  return_invocation_error,
}

row-Lifecycle :
    (db : Db) (k : ℕ) (i : Invocation) → Inv db → find_by_id db (pos k) ≡ some i → Lifecycle i
unfolding find_by_id
row-Lifecycle db k i v h =
    All-Memᴰ Lifecycle db.invocations v.lifecycle (Memᴰ-find (λ x. x.id == k) db.invocations h)

module _ {V : Type 0} (codec : Codec V) where
  get_completed :
      (db : Db) (k now : ℕ) (i : Invocation) (b : Bytes) (o meta : Object V)
      → find_by_id db (pos k) ≡ some (complete now b i)
      → i.errors ≡ none
      → codec.unmarshal b ≡ some o
      → codec.unmarshal i.metadata ≡ some meta
      → get_invocation codec false (format_nat k) (pos k) db
        ≡ finalized (record {
          id = format_nat k;
          attempted_at = i.attempted_at;
          finalized_at = some now;
          meta = meta;
          state = completed;
          result = some o;
          errors = none;
        })
  unfolding get_invocation invocation_find_by_id parse_json
  get_completed db k now i b o meta h e u m = rw (h, e, u, m) refl

  answer_of :
      (k now caller : ℕ) (o : Object V) (b : Bytes) (w : World)
      → k < 2 ^ 63
      → codec.marshal o ≡ some b
      → return_invocation_response codec false false now caller (format_nat k) o w
        ≡ answer_return false "Failed to set invocation compelte"
            (format_nat k)
            w
            (invocation_set_complete_if_running false w.db (pos k) caller now b)
  unfolding return_invocation_response
  answer_of k now caller o b w h m = rw (parse_int-format_nat 64 k h, m) refl

  -- What the caller is shown of a completed invocation.
  abbrev completed_view : ℕ → ℕ → Invocation → Object V → Object V → View V
  completed_view k now i meta o = record {
    id = format_nat k;
    attempted_at = i.attempted_at;
    finalized_at = some now;
    meta = meta;
    state = completed;
    result = some o;
    errors = none;
  }

  -- The answer to the worker, what is notified, and what a caller reads afterwards.
  abbrev pub Reaches :
      ℕ → ℕ → Invocation → Object V → Object V → Bool → World → World × ReturnResponse → Type 0
  Reaches k now i meta o listens w (w', r) =
      (r ≡ accepted)
      × (w'.notifications ≡ w.notifications ++ (response_topic, format_nat k) ∷ [])
      × (get_invocation_by_id codec false listens (format_nat k) none [] w'.db
          ≡ some (finalized (completed_view k now i meta o)))

  told :
      (k now caller : ℕ) (o meta : Object V) (b : Bytes) (w : World) (i : Invocation)
      (listens : Bool)
      → k < 2 ^ 63
      → find_by_id w.db (pos k) ≡ some i
      → HeldBy caller i
      → i.errors ≡ none
      → codec.unmarshal b ≡ some o
      → codec.unmarshal i.metadata ≡ some meta
      → (q : Db × Fetched Invocation)
      → Finishes k caller (complete now b) w.db q ⊎ Refuses k caller w.db q
      → Reaches k now i meta o listens w
          (answer_return false "Failed to set invocation compelte" (format_nat k) w q)
  unfolding get_invocation_by_id pg_notify_one
  told k now caller o meta b w i listens h f held e u m (db', a)
        (inl (j, g, held', answer, after, others)) =
      rw answer (
        refl,
        refl,
        rw (parse_int-format_nat 64 k h) (
            ap some (
              get_completed db' k now i b o meta
                (after
                  ∙ ap (λ x. some (complete now b x)) (one_row (find_by_id w.db (pos k)) j i g f))
                e u m)),
      )
  told k now caller o meta b w i listens h f held e u m q (inr (refuse, answer, same)) =
      absurd (refuse i f held)

  -- The worker who holds an invocation finishes it, and the caller reads the result: the answer is
  -- accepted, the waiting caller is notified under the id, and the invocation is then shown as
  -- completed, with the result that was sent, the time, the metadata as stored and no errors. The
  -- table keeps the invariant, the id has 63 bits, no database call fails, and the library writes
  -- the result, reads the metadata, and reads back what it writes.
  pub result-Reaches :
      (k now caller : ℕ) (o meta : Object V) (b : Bytes) (w : World) (i : Invocation)
      (listens : Bool)
      → RoundTrips V codec
      → Inv w.db
      → k < 2 ^ 63
      → find_by_id w.db (pos k) ≡ some i
      → HeldBy caller i
      → codec.marshal o ≡ some b
      → codec.unmarshal i.metadata ≡ some meta
      → Reaches k now i meta o listens w
          (return_invocation_response codec false false now caller (format_nat k) o w)
  result-Reaches k now caller o meta b w i listens rt v h f held m u =
      rw (answer_of k now caller o b w h m) (
        told k now caller o meta b w i listens h f held
          (((row-Lifecycle w.db k i v f).open_rows (rw (held.runs) refl)).2) (rt o b m) u
          (invocation_set_complete_if_running false w.db (pos k) caller now b)
          (set_complete_cases k caller now b w.db v))

  -- The answer to a worker who does not hold the invocation.
  abbrev pub Leaves : World → World × ReturnResponse → Type 0
  Leaves w (w', r) =
      (r ≡ unknown) × (w'.notifications ≡ w.notifications) × (w'.db.invocations ≡ w.db.invocations)

  not_told :
      (k caller : ℕ) (f : Invocation → Invocation) (message : String) (w : World)
      → ((i : Invocation) → find_by_id w.db (pos k) ≡ some i → ¬ HeldBy caller i)
      → (q : Db × Fetched Invocation) → Finishes k caller f w.db q ⊎ Refuses k caller w.db q
      → Leaves w (answer_return false message (format_nat k) w q)
  not_told k caller f message w refuse q (inl (j, g, held, answer, after, others)) =
      absurd (refuse j g held)
  not_told k caller f message w refuse (db', a) (inr (refuse', answer, same)) =
      rw answer (refl, refl, same)

  -- A worker who does not hold the invocation (it is not there, it does not run, or another worker
  -- took it last) can report neither a result nor errors: the answer is that the invocation is
  -- unknown, no row changes and nobody is notified. The table keeps the invariant, the id has 63
  -- bits, no database call fails, and what the worker sends can be written.
  pub other_workers_refused :
      (k now caller : ℕ) (o : Object V) (b : Bytes) (w : World)
      → Inv w.db
      → k < 2 ^ 63
      → ((i : Invocation) → find_by_id w.db (pos k) ≡ some i → ¬ HeldBy caller i)
      → codec.marshal o ≡ some b
      → Leaves w (return_invocation_response codec false false now caller (format_nat k) o w)
        × Leaves w (return_invocation_error codec false false now caller (format_nat k) o w)
  unfolding return_invocation_response return_invocation_error
  other_workers_refused k now caller o b w v h refuse m =
      rw (parse_int-format_nat 64 k h, m)
        (
          not_told k caller (complete now b) "Failed to set invocation compelte" w refuse
              (invocation_set_complete_if_running false w.db (pos k) caller now b)
              (set_complete_cases k caller now b w.db v),
          not_told k caller (discard now b) "Failed to set invocation failure" w refuse
              (invocation_set_failure_if_running false w.db (pos k) caller now b)
              (set_failure_cases k caller now b w.db v),
        )
