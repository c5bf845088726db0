-- ===== src/Invocation/RaceExamples.antt =====
-- The races of a dispatcher with Close, on concrete worlds that a new dispatcher reaches.
use maos_core.Common.{true, false, [], ◌∷◌, ℕ, none, some, ◌≡◌, refl}
use maos_core.Common.Decimal.{Text}
use maos_core.Common.TextEquality.{text_eq}
use maos_core.Invocation.Dispatcher.Concurrent.{
  Running, creates, loads, sends, closes, sweeps, Move, Moves, starts, goes_on, no_move, and_then,
  listened, loaded, flagged, visited, finished, initial, load_or_compute, sweep,
}
use maos_core.Invocation.Dispatcher.Concurrent.Races.{Winds, Moves-Winds}
use maos_core.Invocation.Dispatcher.Concurrent.Panics.{Panics-closed}
use maos_core.Invocation.Dispatcher.Concurrent.Leaks.{Leaks, looked, looked-Leaks}

abbrev one : Text
one = b'1' ∷ []

-- Close has returned, and a Listen has found the dispatcher open before.
abbrev raced : Running ℕ
raced = record {
  shared = record {
    entries = λ id. none;
    heap = λ c. record { buffer = []; shut = false };
    next = 0;
    closed = true;
  };
  calls = creates one ∷ [];
}

reaches_raced : Moves initial raced
reaches_raced =
    and_then
      (and_then
        (and_then (and_then no_move (starts (creates one) refl refl)) (starts closes refl refl))
        (goes_on [] (creates one ∷ []) closes _ (some sweeps) refl (flagged refl)))
      (goes_on [] (creates one ∷ []) sweeps _ none refl finished)

Moves-Winds_example : Winds raced (looked raced one [] [])
Moves-Winds_example =
    Moves-Winds refl (and_then no_move (goes_on [] [] (creates one) _ none refl (listened one)))

looked-Leaks_example :
    Move raced (looked raced one [] []) × Leaks one 0 (load_or_compute one raced.shared)
looked-Leaks_example =
    looked-Leaks raced (looked raced one [] []) one [] [] refl refl refl refl no_move

-- Listen has made the channel.
abbrev made : Running ℕ
made = looked (record { shared = initial.shared; calls = creates one ∷ [] }) one [] []

-- Close shuts the channel that a Dispatch has been given.
abbrev overtaken : Running ℕ
overtaken = record {
  shared = sweep one (record made.shared { closed = true });
  calls = sweeps ∷ sends 0 3 ∷ [];
}

reaches_overtaken : Moves initial overtaken
unfolding load_or_compute text_eq
reaches_overtaken =
    and_then
      (and_then
        (and_then
          (and_then
            (and_then
              (and_then (and_then no_move (starts (creates one) refl refl))
                (goes_on [] [] (creates one) _ none refl (listened one)))
              (starts (loads one 3) refl refl))
            (goes_on [] [] (loads one 3) _ (some (sends 0 3)) refl (loaded one 3 0 refl)))
          (starts closes refl refl))
        (goes_on [] (sends 0 3 ∷ []) closes _ (some sweeps) refl (flagged refl)))
      (goes_on [] (sends 0 3 ∷ []) sweeps _ (some sweeps) refl (visited one))

Panics-closed_example : overtaken.shared.closed ≡ true
unfolding load_or_compute sweep text_eq
Panics-closed_example = Panics-closed reaches_overtaken (sweeps ∷ [], [], 0, 3, refl, refl)
