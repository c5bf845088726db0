-- ===== src/Invocation/Dispatcher/Concurrent/Leaks.antt =====
-- A channel that is made after Close went through the channels stays open.
use maos_core.Common.TextEquality.{text_eq_sound, text_eq_refl}
use maos_core.Common.{
  ◌<◌, subst, ◌++◌, ◌==◌, true, false, List, [], ◌∷◌, ℕ, Option, none, some, ◌≡◌, refl, sym, ap,
  ◌∙◌, arith, Bool-cases, inl, inr, Option-cases,
}
use maos_core.Common.Decimal.{Text}
use maos_core.Invocation.Dispatcher.{text_eq, send}
use maos_core.Invocation.Dispatcher.Concurrent.{
  Shared, Call, Running, creates, load_or_compute, Acts, Move, Moves, starts, goes_on, no_move,
  and_then, listened, joined, received, gave_up, unknown, loaded, sent, declined, flagged, visited,
  finished, followed, write_channel,
}
use maos_core.Invocation.Dispatcher.Concurrent.Races.{
  tally, tally-append, tally-goes_on, is_sweep, sweeping,
}

module _ {T : Type 0} where
  -- The dispatcher is closed, and has an open channel under the id.
  pub record Leaks (id : Text) (n : ℕ) (s : Shared T) : Type 0 where
    pub closed_flag : s.closed ≡ true
    pub entry : s.entries id ≡ some n
    pub open_channel : (s.heap n).shut ≡ false
    pub made : n < s.next

  write-Leaks :
      (id : Text) (n : ℕ) (s : Shared T) (c : ℕ) (buffer : List T)
      → Leaks id n s
      → Leaks id n (write_channel c (record (s.heap c) { buffer = buffer }) s)
  write-Leaks id n s c buffer l = record {
    closed_flag = l.closed_flag;
    entry = l.entry;
    open_channel = kept;
    made = l.made;
  }
    where
      kept : ((write_channel c (record (s.heap c) { buffer = buffer }) s).heap n).shut ≡ false
      kept = elim (Bool-cases (n == c)) [
        | inl e ↦
            let k : n ≡ c = ground arith in
            rw e (subst (λ j. (s.heap j).shut ≡ false) k l.open_channel)
        | inr e ↦ rw e l.open_channel
      ]

  load-Leaks :
      (id : Text) (n : ℕ) (other : Text) (s : Shared T)
      → Leaks id n s
      → Leaks id n (load_or_compute other s)
  unfolding load_or_compute
  load-Leaks id n other s l = elim (Option-cases (s.entries other)) [
    | inr (c, e) ↦ rw e l
    | inl e ↦
        let d : text_eq id other ≡ false = apart e in
        let f : (n == s.next) ≡ false = ground (arith, l.made) in
        rw e (record {
          closed_flag = l.closed_flag;
          entry = rw d l.entry;
          open_channel = rw f l.open_channel;
          made = omega (arith, l.made);
        })
  ]
    where
      apart : s.entries other ≡ none → text_eq id other ≡ false
      apart e = elim (Bool-cases (text_eq id other)) [
        | inr h ↦ h
        | inl h ↦
            let k : id ≡ other = text_eq_sound id other h in
            let g : s.entries id ≡ none = ap s.entries k ∙ e in absurd (cc l.entry)
      ]

  Acts-Leaks :
      {s s' : Shared T} {c : Call T} {o : Option (Call T)}
      → Acts s c s' o
      → is_sweep c ≡ 0
      → (id : Text) (n : ℕ) → Leaks id n s
      → Leaks id n s' × (tally is_sweep (followed o []) ≡ 0)
  Acts-Leaks {s} (listened other) z id n l = (load-Leaks id n other s l, refl)
  Acts-Leaks {s} (joined other c e) z id n l = (load-Leaks id n other s l, omega arith)
  Acts-Leaks {s} (received c p ps e) z id n l = (write-Leaks id n s c ps l, refl)
  Acts-Leaks (gave_up c) z id n l = (l, refl)
  Acts-Leaks (unknown other p e) z id n l = (l, refl)
  Acts-Leaks (loaded other p c e) z id n l = (l, omega arith)
  Acts-Leaks {s} (sent c p e) z id n l = (write-Leaks id n s c (send (s.heap c).buffer p) l, refl)
  Acts-Leaks (declined c p e) z id n l = (l, refl)
  Acts-Leaks (flagged e) z id n l = absurd (cc l.closed_flag)
  Acts-Leaks (visited other) z id n l = absurd (omega (arith, z))
  Acts-Leaks finished z id n l = absurd (omega (arith, z))

  Moves-Leaks :
      {w v : Running T} (id : Text) (n : ℕ)
      → Leaks id n w.shared
      → sweeping w.calls ≡ 0
      → Moves w v
      → Leaks id n v.shared × (sweeping v.calls ≡ 0)
  Moves-Leaks id n l z no_move = (l, z)
  Moves-Leaks id n l z (and_then ms m) = let (k, y) = Moves-Leaks id n l z ms in step m k y
    where
      step :
          {u v : Running T}
          → Move u v
          → Leaks id n u.shared
          → sweeping u.calls ≡ 0
          → Leaks id n v.shared × (sweeping v.calls ≡ 0)
      step (starts c e i) k y = absurd (cc k.closed_flag)
      step {u} (goes_on xs ys c s o e a) k y =
          let t : sweeping (xs ++ c ∷ ys) ≡ 0 = sym (ap sweeping e) ∙ y in
          let f : is_sweep c ≡ 0 = omega (arith, t, tally-append is_sweep xs (c ∷ ys)) in
          let (j, q) = Acts-Leaks a f id n k in
          (j, omega (arith, t, q, f, tally-goes_on is_sweep xs ys c o))

  -- After a Listen or a WaitFor that found the dispatcher open looks for its channel.
  abbrev pub looked : Running T → Text → List (Call T) → List (Call T) → Running T
  looked w id xs ys = record { shared = load_or_compute id w.shared; calls = xs ++ ys }

  made-Leaks :
      (id : Text) (s : Shared T)
      → s.closed ≡ true
      → s.entries id ≡ none
      → Leaks id s.next (load_or_compute id s)
  unfolding load_or_compute
  made-Leaks id s h e =
      let f : (s.next == s.next) ≡ true = ground arith in
      rw e (record {
        closed_flag = h;
        entry = rw (text_eq_refl id) refl;
        open_channel = rw f refl;
        made = omega arith;
      })

  -- Where Close has returned and the id has no channel, a Listen that had found the dispatcher open
  -- before can still make one; and from then on the dispatcher, though closed, keeps that channel, and
  -- no later call or Close shuts it.
  pub looked-Leaks :
      (w v : Running T) (id : Text) (xs ys : List (Call T))
      → w.shared.closed ≡ true
      → sweeping w.calls ≡ 0
      → w.shared.entries id ≡ none
      → w.calls ≡ xs ++ creates id ∷ ys
      → Moves (looked w id xs ys) v
      → Move w (looked w id xs ys) × Leaks id w.shared.next v.shared
  looked-Leaks w v id xs ys h z e k ms =
      let t : sweeping (xs ++ creates id ∷ ys) ≡ 0 = sym (ap sweeping k) ∙ z in
      let y : sweeping (xs ++ ys) ≡ 0 =
        omega (arith, t, tally-goes_on is_sweep xs ys (creates id) none) in
      (
        goes_on xs ys (creates id) (load_or_compute id w.shared) none k (listened id),
        (Moves-Leaks id w.shared.next (made-Leaks id w.shared h e) y ms).0,
      )
