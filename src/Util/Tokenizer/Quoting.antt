-- ===== src/Util/Tokenizer/Quoting.antt =====
-- A command line whose words are quoted is cut back into those words.
use maos_core.Common.{
  ◌++◌, ◌==◌, true, false, List, [], ◌∷◌, ℕ, some, if◌then◌else◌, ◌≡◌, refl, ◌≢◌, ◌∙◌, arith, ◌||◌,
}
use mathlib.Core.List.{append_assoc, append-nil}
use maos_core.Common.Decimal.{Text}
use maos_core.Util.Tokenizer.{Tokenizer, flush, step, run, start, finish, tokenize_command}

-- A backslash before each quote and each backslash.
pub escape : Text → Text
escape [] = []
escape (c ∷ cs) = (if c == b'"' || c == b'\\' then b'\\' ∷ c ∷ [] else c ∷ []) ++ escape cs

-- Each word between quotes, with a space behind.
pub quote_all : List Text → Text
unfolding escape
quote_all [] = []
quote_all (w ∷ ws) = b'"' ∷ (escape w ++ (b'"' ∷ b' ' ∷ quote_all ws))

abbrev pub NonEmpty : List Text → Type 0
NonEmpty [] = Unit {0}
NonEmpty (w ∷ ws) = (w ≢ []) × NonEmpty ws

abbrev inside : List Text → Text → Tokenizer
inside done cur = record { command = done; current = cur; in_quotes = true; escape_next = false }

abbrev between : List Text → Tokenizer
between done = record { command = done; current = []; in_quotes = false; escape_next = false }

run-append : (s : Tokenizer) (t u : Text) → run s (t ++ u) ≡ run (run s t) u
unfolding run
run-append s [] u = refl
run-append s (c ∷ cs) u = run-append (step s c) cs u

run-escape_rune :
    (done : List Text) (cur : Text) (c : ℕ)
    → run (inside done cur) (if c == b'"' || c == b'\\' then b'\\' ∷ c ∷ [] else c ∷ [])
      ≡ inside done (cur ++ c ∷ [])
unfolding run step
run-escape_rune done cur c = ground arith

run-escape :
    (done : List Text) (cur w : Text) → run (inside done cur) (escape w) ≡ inside done (cur ++ w)
unfolding escape
run-escape done cur [] = rw append-nil (unfold run in refl)
run-escape done cur (c ∷ cs) =
    run-append (inside done cur) (if c == b'"' || c == b'\\' then b'\\' ∷ c ∷ [] else c ∷ [])
      (escape cs)
    ∙ rw
        (
          run-escape_rune done cur c,
          run-escape done (cur ++ c ∷ []) cs,
          append_assoc cur (c ∷ []) cs,
        )
        refl

-- The closing quote and the space behind it.
run_close :
    (done : List Text) (w : Text)
    → w ≢ []
    → run (inside done w) (b'"' ∷ b' ' ∷ []) ≡ between (done ++ w ∷ [])
unfolding run step
run_close done [] h = absurd (h refl)
run_close done (c ∷ cs) h = refl

run_open : (done : List Text) (t : Text) → run (between done) (b'"' ∷ t) ≡ run (inside done []) t
unfolding run step
run_open done t = refl

run-quote_all :
    (done ws : List Text) → NonEmpty ws → run (between done) (quote_all ws) ≡ between (done ++ ws)
unfolding quote_all
run-quote_all done [] h = rw append-nil (unfold run in refl)
run-quote_all done (w ∷ ws) h =
    run_open done (escape w ++ (b'"' ∷ b' ' ∷ quote_all ws))
    ∙ run-append (inside done []) (escape w) (b'"' ∷ b' ' ∷ quote_all ws)
    ∙ rw (run-escape done [] w) (
        run-append (inside done w) (b'"' ∷ b' ' ∷ []) (quote_all ws)
        ∙ rw (run_close done w h.0)
            (run-quote_all (done ++ w ∷ []) ws h.1 ∙ rw (append_assoc done (w ∷ []) ws)))

-- Words that are not empty come back from their quoted form, whatever runes they hold.
pub tokenize_command-quote_all :
    (ws : List Text) → NonEmpty ws → tokenize_command (quote_all ws) ≡ some ws
unfolding tokenize_command start finish flush
tokenize_command-quote_all ws h = rw (run-quote_all [] ws h)
