-- ===== src/Invocation/Dispatcher/Concurrent/Races.antt =====
-- What holds of the dispatcher however its calls and Close interleave.
use maos_core.Common.{
  ◌++◌, true, List, [], ◌∷◌, ℕ, Option, none, some, ◌≡◌, ◌≤◌, ◌+◌, refl, ap, ◌∙◌, arith, inl, inr,
  Option-cases,
}
use maos_core.Common.Decimal.{Text}
use maos_core.Invocation.Dispatcher.Concurrent.{
  Shared, Call, Running, creates, waits, loads, sends, closes, sweeps, load_or_compute, sweep, Acts,
  Move, Moves, starts, goes_on, no_move, and_then, listened, joined, received, gave_up, unknown,
  loaded, sent, declined, flagged, visited, finished, followed,
}

module _ {T : Type 0} where
  abbrev pub weight : Call T → ℕ
  weight (creates id) = 1
  weight (waits c) = 0
  weight (loads id p) = 0
  weight (sends c p) = 0
  weight closes = 0
  weight sweeps = 0

  abbrev pub tally : (Call T → ℕ) → List (Call T) → ℕ
  tally f [] = 0
  tally f (c ∷ cs) = f c + tally f cs

  pub tally-append :
      (f : Call T → ℕ) (xs ys : List (Call T)) → tally f (xs ++ ys) ≡ tally f xs + tally f ys
  tally-append f [] ys = omega arith
  tally-append f (x ∷ xs) ys = omega (arith, tally-append f xs ys)

  tally-followed :
      (f : Call T → ℕ) (o : Option (Call T)) (cs : List (Call T))
      → tally f (followed o cs) ≡ tally f (followed o []) + tally f cs
  tally-followed f none cs = omega arith
  tally-followed f (some c) cs = omega arith

  -- A call in the list goes on.
  pub tally-goes_on :
      (f : Call T → ℕ) (xs ys : List (Call T)) (c : Call T) (o : Option (Call T))
      → tally f (xs ++ followed o ys) + f c ≡ tally f (xs ++ c ∷ ys) + tally f (followed o [])
  tally-goes_on f xs ys c o =
      omega (
        arith,
        tally-append f xs (c ∷ ys),
        tally-append f xs (followed o ys),
        tally-followed f o ys,
      )

  -- The number of the calls of Listen and WaitFor that have not looked for their channel yet.
  abbrev pub creating : List (Call T) → ℕ
  creating = tally weight

  load-next : (id : Text) (s : Shared T) → (load_or_compute id s).next ≤ s.next + 1
  unfolding load_or_compute
  load-next id s = elim (Option-cases (s.entries id)) [
    | inl e ↦ rw e (omega arith)
    | inr (c, e) ↦ rw e (omega arith)
  ]

  pub load-closed : (id : Text) (s : Shared T) → (load_or_compute id s).closed ≡ s.closed
  unfolding load_or_compute
  load-closed id s = elim (Option-cases (s.entries id)) [
    | inl e ↦ rw e refl
    | inr (c, e) ↦ rw e refl
  ]

  sweep-next :
      (id : Text) (s : Shared T) → ((sweep id s).next ≡ s.next) × ((sweep id s).closed ≡ s.closed)
  unfolding sweep
  sweep-next id s = elim (Option-cases (s.entries id)) [
    | inl e ↦ rw e (refl, refl)
    | inr (c, e) ↦ rw e (refl, refl)
  ]

  -- The flag stays, and the channels made and to be made do not become more.
  abbrev pub Shrinks : Shared T → Call T → Shared T → Option (Call T) → Type 0
  Shrinks s c s' o =
      (s.closed ≡ true → s'.closed ≡ true)
      × (s'.next + creating (followed o []) ≤ s.next + weight c)

  pub Acts-Shrinks :
      {s s' : Shared T} {c : Call T} {o : Option (Call T)} → Acts s c s' o → Shrinks s c s' o
  Acts-Shrinks {s} (listened id) = (λ h. load-closed id s ∙ h, omega (arith, load-next id s))
  Acts-Shrinks {s} (joined id c e) = (λ h. load-closed id s ∙ h, omega (arith, load-next id s))
  Acts-Shrinks (received c p ps e) = (λ h. h, omega arith)
  Acts-Shrinks (gave_up c) = (λ h. h, omega arith)
  Acts-Shrinks (unknown id p e) = (λ h. h, omega arith)
  Acts-Shrinks (loaded id p c e) = (λ h. h, omega arith)
  Acts-Shrinks (sent c p e) = (λ h. h, omega arith)
  Acts-Shrinks (declined c p e) = (λ h. h, omega arith)
  Acts-Shrinks (flagged e) = (λ h. refl, omega arith)
  Acts-Shrinks {s} (visited id) = let (n, c) = sweep-next id s in (λ h. c ∙ h, omega (arith, n))
  Acts-Shrinks finished = (λ h. h, omega arith)

  -- The number of the calls under way.
  abbrev pub under_way : List (Call T) → ℕ
  under_way = tally (λ c. 1)

  followed_once : (o : Option (Call T)) → under_way (followed o []) ≤ 1
  followed_once none = omega arith
  followed_once (some c) = omega arith

  -- In a dispatcher that is closed, or is being closed.
  pub record Winds (w v : Running T) : Type 0 where
    pub closed_flag : v.shared.closed ≡ true
    pub calls : under_way v.calls ≤ under_way w.calls
    pub channels : v.shared.next + creating v.calls ≤ w.shared.next + creating w.calls

  pub Move-Winds : {w v : Running T} → Move w v → w.shared.closed ≡ true → Winds w v
  Move-Winds (starts c e i) h = absurd cc
  Move-Winds {w} (goes_on xs ys c s o e a) h =
      let (k, n) = Acts-Shrinks a in
      let before : creating w.calls ≡ creating (xs ++ c ∷ ys) = ap creating e in
      let all : under_way w.calls ≡ under_way (xs ++ c ∷ ys) = ap under_way e in
      record {
        closed_flag = k h;
        calls = omega (arith, all, followed_once o, tally-goes_on (λ d. 1) xs ys c o);
        channels = omega (arith, n, before, tally-goes_on weight xs ys c o);
      }

  -- Once Close has set the flag, it stays set, the calls under way do not become more, so that none
  -- starts, and a channel is made at most for each Listen or WaitFor that had already found the
  -- dispatcher open, however the calls under way and Close interleave.
  pub Moves-Winds : {w v : Running T} → w.shared.closed ≡ true → Moves w v → Winds w v
  Moves-Winds h no_move = record { closed_flag = h; calls = omega arith; channels = omega arith }
  Moves-Winds h (and_then ms m) =
      let k = Moves-Winds h ms in
      let j = Move-Winds m k.closed_flag in
      record {
        closed_flag = j.closed_flag;
        calls = omega (arith, k.calls, j.calls);
        channels = omega (arith, k.channels, j.channels);
      }

  abbrev pub is_sweep : Call T → ℕ
  is_sweep (creates id) = 0
  is_sweep (waits c) = 0
  is_sweep (loads id p) = 0
  is_sweep (sends c p) = 0
  is_sweep closes = 0
  is_sweep sweeps = 1

  -- The number of the calls of Close that go through the channels.
  abbrev pub sweeping : List (Call T) → ℕ
  sweeping = tally is_sweep
