-- ===== src/Util/Tokenizer.antt =====
-- util/tokenizer.go: a command line is cut at spaces, with quotes and backslashes. A text is the
-- list of its runes.
pub mod Quoting
pub mod Errors
use maos_core.Common.{
  ◌++◌, ◌==◌, Bool, true, false, not, List, [], ◌∷◌, ℕ, Option, none, some, if◌then◌else◌,
}
use maos_core.Common.Decimal.{Text}

pub record Tokenizer : Type 0 where
  pub command : List Text
  pub current : Text
  pub in_quotes : Bool
  pub escape_next : Bool

append_rune : Tokenizer → ℕ → Tokenizer
append_rune s r = record s { current = s.current ++ r ∷ [] }

-- `if current != "" { command = append(command, current); current = "" }`
flush : Tokenizer → Tokenizer
flush s = elim s.current [
  | [] ↦ s
  | c ∷ cs ↦ record s { command = s.command ++ (c ∷ cs) ∷ []; current = [] }
]

-- The body of the loop.
step : Tokenizer → ℕ → Tokenizer
unfolding append_rune flush
step s r =
    if s.escape_next
    then record s { current = s.current ++ r ∷ []; escape_next = false }
    else if r == b'\\'
    then record s { escape_next = true }
    else if r == b'"'
    then record s { in_quotes = not s.in_quotes }
    else if r == b' '
    then (if s.in_quotes then append_rune s r else flush s)
    else append_rune s r

run : Tokenizer → Text → Tokenizer
run s [] = s
run s (r ∷ rs) = run (step s r) rs

start : Tokenizer
start = record { command = []; current = []; in_quotes = false; escape_next = false }

-- `none` is the error for unclosed quotes.
finish : Tokenizer → Option (List Text)
unfolding flush
finish s = if s.in_quotes then none else some (flush s).command

unfoldable pub tokenize_command : Text → Option (List Text)
unfolding start step run finish
tokenize_command s = finish (run start s)
