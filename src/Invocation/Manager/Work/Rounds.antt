-- ===== src/Invocation/Manager/Work/Rounds.antt =====
-- GetNextInvocation: the loop ends, and what it ends with.
use mathlib.Core.List.{Memᴰ}
use maos_core.Common.{
  ◌≡◌, ◌≢◌, refl, arith, true, List, [], ◌∷◌, ℕ, Option, none, some, if◌then◌else◌, leb, Bool-cases,
  inl, inr, ◌≤◌, subst,
}
use maos_core.Common.Decimal.{Text, format_nat}
use maos_core.Models.{Invocation}
use maos_core.Invocation.Queue.{Db, invocation_get_available}
use maos_core.Invocation.Codec.{Codec, Object}
use maos_core.Invocation.Manager.Work.{
  Round, NextResponse, nothing_yet, next_error, get_next_loop, after_query,
  create_get_next_response, next_meta,
}

module _ {V : Type 0} (codec : Codec V) (caller queue_id deadline : ℕ) where
  late_ends :
      (r : Round) (rest : Option (Db × NextResponse V)) (q : Db × List Invocation)
      → leb deadline r.now ≡ true
      → after_query codec deadline r rest q ≢ none
  late_ends r rest (db, i ∷ is') h e = cc
  late_ends r rest (db, []) h e = cc

  goes_on :
      (r : Round) (rest : Option (Db × NextResponse V)) (q : Db × List Invocation)
      → rest ≢ none
      → after_query codec deadline r rest q ≢ none
  goes_on r rest (db, i ∷ is') h e = cc
  goes_on r rest (db, []) h e = ground (arith, h)

  -- The loop of GetNextInvocation has an answer where the clock of one of its rounds has reached the
  -- deadline.
  pub get_next_loop_ends :
      (rounds : List Round) (r : Round)
      → Memᴰ r rounds
      → deadline ≤ r.now
      → get_next_loop codec caller queue_id deadline rounds ≢ none
  unfolding get_next_loop
  get_next_loop_ends [] r m h = elim m [ ]
  get_next_loop_ends (x ∷ rounds) r (Memᴰ.head e) h = elim (Bool-cases x.query_fails) [
    | inl f ↦ rw f (λ k. cc)
    | inr f ↦ rw f (
        late_ends x (get_next_loop codec caller queue_id deadline rounds)
          (invocation_get_available x.db_now x.locked caller queue_id 1 x.db)
          (subst (λ y. leb deadline y.now ≡ true) e (ground arith)))
  ]
  get_next_loop_ends (x ∷ rounds) r (Memᴰ.tail m) h = elim (Bool-cases x.query_fails) [
    | inl f ↦ rw f (λ k. cc)
    | inr f ↦ rw f (
        goes_on x (get_next_loop codec caller queue_id deadline rounds)
          (invocation_get_available x.db_now x.locked caller queue_id 1 x.db)
          (get_next_loop_ends rounds r m h))
  ]

  -- The source of an empty answer.
  abbrev pub Waited : List Round → Type 0
  Waited rounds =
      (r : Round) × Memᴰ r rounds
      × (deadline ≤ r.now)
      × ((invocation_get_available r.db_now r.locked caller queue_id 1 r.db).1 ≡ [])

  later : (x : Round) (rounds : List Round) → Waited rounds → Waited (x ∷ rounds)
  later x rounds (r, m, h, e) = (r, Memᴰ.tail m, h, e)

  shown_meta : (id : Text) (m p : Option (Object V)) → next_meta id m p ≢ nothing_yet
  shown_meta id none p h = cc
  shown_meta id (some m) none h = cc
  shown_meta id (some m) (some p) h = cc

  shown : (i : Invocation) → create_get_next_response codec i ≢ nothing_yet
  unfolding create_get_next_response
  shown i = shown_meta (format_nat i.id) (codec.unmarshal i.metadata) (codec.unmarshal i.payload)

  from_round :
      (x : Round) (rounds : List Round) (db : Db) (q : Db × List Invocation)
      → (invocation_get_available x.db_now x.locked caller queue_id 1 x.db).1 ≡ q.1
      → (get_next_loop codec caller queue_id deadline rounds ≡ some (db, nothing_yet)
          → Waited rounds)
      → after_query codec deadline x (get_next_loop codec caller queue_id deadline rounds) q
        ≡ some (db, nothing_yet)
      → Waited (x ∷ rounds)
  from_round x rounds db (db', i ∷ is') e rec h = absurd (shown i cc)
  from_round x rounds db (db', []) e rec h = elim (Bool-cases (leb deadline x.now)) [
    | inl t ↦ (x, Memᴰ.head refl, ground arith, e)
    | inr t ↦ elim (Bool-cases x.wait_fails) [
      | inl f ↦ absurd cc
      | inr f ↦ later x rounds (rec (ground arith))
    ]
  ]

  -- The answer that there is nothing yet comes only after the deadline, from a round in which
  -- the query found nothing to take.
  pub nothing_yet_waits :
      (rounds : List Round) (db : Db)
      → get_next_loop codec caller queue_id deadline rounds ≡ some (db, nothing_yet)
      → Waited rounds
  unfolding get_next_loop
  nothing_yet_waits [] db h = absurd cc
  nothing_yet_waits (x ∷ rounds) db h = elim (Bool-cases x.query_fails) [
    | inl f ↦ absurd cc
    | inr f ↦
        from_round x rounds db (invocation_get_available x.db_now x.locked caller queue_id 1 x.db)
          refl (nothing_yet_waits rounds db)
          (subst
            (λ b.
              (if b
                then some (x.db, next_error "Cannot get next invocation: ")
                else after_query codec deadline x
                    (get_next_loop codec caller queue_id deadline rounds)
                    (invocation_get_available x.db_now x.locked caller queue_id 1 x.db))
              ≡ some (db, nothing_yet))
            f h)
  ]
