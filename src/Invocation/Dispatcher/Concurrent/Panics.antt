-- ===== src/Invocation/Dispatcher/Concurrent/Panics.antt =====
-- A send on a channel that Close has shut panics.
use maos_core.Common.{
  ◌++◌, ◌==◌, true, false, List, [], ◌∷◌, ℕ, Option, ◌≡◌, ◌⊎◌, refl, sym, ap, ◌∙◌, arith,
  Bool-cases, inl, inr, Option-cases,
}
use maos_core.Common.Decimal.{Text}
use maos_core.Invocation.Dispatcher.{send}
use maos_core.Invocation.Dispatcher.Concurrent.{
  Channel, Shared, Call, Running, creates, waits, loads, sends, closes, sweeps, load_or_compute,
  Acts, Move, Moves, starts, goes_on, no_move, and_then, listened, joined, received, gave_up,
  unknown, loaded, sent, declined, flagged, visited, finished, is_entry, followed, initial,
  write_channel,
}
use maos_core.Invocation.Dispatcher.Concurrent.Races.{
  tally, tally-append, tally-goes_on, Move-Winds, is_sweep, sweeping,
}

module _ {T : Type 0} where
  -- Before Close nothing is shut.
  abbrev AllOpen : Running T → Type 0
  AllOpen w = ((c : ℕ) → (w.shared.heap c).shut ≡ false) × (sweeping w.calls ≡ 0)

  write-open :
      (s : Shared T) (c : ℕ) (ch : Channel T)
      → ch.shut ≡ false
      → ((k : ℕ) → (s.heap k).shut ≡ false)
      → (k : ℕ) → ((write_channel c ch s).heap k).shut ≡ false
  write-open s c ch h all k = elim (Bool-cases (k == c)) [ inl e ↦ rw e h | inr e ↦ rw e (all k) ]

  load-open :
      (id : Text) (s : Shared T)
      → ((k : ℕ) → (s.heap k).shut ≡ false)
      → (k : ℕ) → ((load_or_compute id s).heap k).shut ≡ false
  unfolding load_or_compute
  load-open id s all k = elim (Option-cases (s.entries id)) [
    | inl e ↦ rw e (write-open s s.next (record { buffer = []; shut = false }) refl all k)
    | inr (c, e) ↦ rw e (all k)
  ]

  -- The flag is set, or the call leaves everything open and is no sweep.
  Acts-open :
      {s s' : Shared T} {c : Call T} {o : Option (Call T)}
      → Acts s c s' o
      → is_sweep c ≡ 0
      → ((k : ℕ) → (s.heap k).shut ≡ false)
      → (s'.closed ≡ true)
        ⊎ (((k : ℕ) → (s'.heap k).shut ≡ false) × (tally is_sweep (followed o []) ≡ 0))
  Acts-open {s} (listened id) z all = inr (load-open id s all, refl)
  Acts-open {s} (joined id c e) z all = inr (load-open id s all, omega arith)
  Acts-open {s} (received c p ps e) z all =
      inr (write-open s c (record (s.heap c) { buffer = ps }) (all c) all, refl)
  Acts-open (gave_up c) z all = inr (all, refl)
  Acts-open (unknown id p e) z all = inr (all, refl)
  Acts-open (loaded id p c e) z all = inr (all, omega arith)
  Acts-open {s} (sent c p e) z all =
      inr
        (write-open s c (record (s.heap c) { buffer = send (s.heap c).buffer p }) (all c) all, refl)
  Acts-open (declined c p e) z all = inr (all, refl)
  Acts-open (flagged e) z all = inl refl
  Acts-open (visited id) z all = absurd (omega (arith, z))
  Acts-open finished z all = absurd (omega (arith, z))

  entry-sweep : (c : Call T) → is_entry c ≡ true → is_sweep c ≡ 0
  entry-sweep (creates id) i = refl
  entry-sweep (waits c) i = refl
  entry-sweep (loads id p) i = refl
  entry-sweep (sends c p) i = refl
  entry-sweep closes i = refl
  entry-sweep sweeps i = absurd cc

  Move-open : {w v : Running T} → Move w v → AllOpen w → (v.shared.closed ≡ true) ⊎ AllOpen v
  Move-open (starts c e i) (all, z) = inr (all, omega (arith, z, entry-sweep c i))
  Move-open {w} (goes_on xs ys c s o e a) (all, z) =
      let t : sweeping (xs ++ c ∷ ys) ≡ 0 = sym (ap sweeping e) ∙ z in
      let n : is_sweep c ≡ 0 = omega (arith, t, tally-append is_sweep xs (c ∷ ys)) in
      elim (Acts-open a n all) [
        | inl h ↦ inl h
        | inr (k, m) ↦ inr (k, omega (arith, t, m, n, tally-goes_on is_sweep xs ys c o))
      ]

  Moves-open : {v : Running T} → Moves initial v → (v.shared.closed ≡ true) ⊎ AllOpen v
  Moves-open no_move = inr (λ c. refl, refl)
  Moves-open (and_then ms m) = elim (Moves-open ms) [
    | inl h ↦ inl (Move-Winds m h).closed_flag
    | inr h ↦ Move-open m h
  ]

  -- A Dispatch is about to send on a channel that is shut, which panics.
  abbrev pub Panics : Running T → Type 0
  Panics w =
      (xs : List (Call T)) × (ys : List (Call T)) × (c : ℕ) × (p : T) × (w.calls
        ≡ xs ++ sends c p ∷ ys)
      × ((w.shared.heap c).shut ≡ true)

  -- From a new dispatcher, however its calls interleave, a Dispatch can send on a channel that is shut
  -- only once Close has set the flag.
  pub Panics-closed : {w : Running T} → Moves initial w → Panics w → w.shared.closed ≡ true
  Panics-closed ms (xs, ys, c, p, e, h) = elim (Moves-open ms) [
    | inl k ↦ k
    | inr (all, z) ↦ absurd (cc (all c))
  ]
