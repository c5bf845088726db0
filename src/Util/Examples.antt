-- ===== src/Util/Examples.antt =====
-- The helpers on concrete inputs.
use maos_core.Common.{◌≡◌, refl, true, false, List, [], ◌∷◌, none, some, arith, ◌≤◌, ◌↔◌, length}
use maos_core.Common.Int.{negsuc, ℤ, pos}
use maos_core.Common.Decimal.{Text, parse_int}
use maos_core.Util.Comparable.{clamp}
use maos_core.Util.Comparable.Bounds.{Nearest, clamp-Nearest}
use maos_core.Util.Tokenizer.{tokenize_command}
use maos_core.Util.Tokenizer.Quoting.{quote_all, NonEmpty, tokenize_command-quote_all}
use maos_core.Util.Tokenizer.Errors.{
  leaves_open, tokenize_command_refuses, tokenize_command-NonEmpty,
}
use maos_core.Util.Version.{serialize_actor_version, deserialize_actor_version}
use maos_core.Util.Version.RoundTrip.{AllInRange, deserialize-serialize, deserialize_bounds}

clamp-Nearest_example : Nearest (negsuc 4) (pos 60) (pos 99) (pos 60)
unfolding clamp
clamp-Nearest_example = clamp-Nearest (pos 99) (negsuc 4) (pos 60) refl

-- ls and a word with a space and a quote.
abbrev words : List Text
words = (b'l' ∷ b's' ∷ []) ∷ (b'a' ∷ b' ' ∷ b'"' ∷ []) ∷ []

tokenize_command-quote_all_example : tokenize_command (quote_all words) ≡ some words
tokenize_command-quote_all_example = tokenize_command-quote_all words ((λ h. cc), ((λ h. cc), tt))

abbrev open_line : Text
open_line = b'l' ∷ b' ' ∷ b'"' ∷ b'a' ∷ []

tokenize_command_refuses_example :
    (tokenize_command open_line ≡ none) ↔ (leaves_open false open_line ≡ true)
tokenize_command_refuses_example = tokenize_command_refuses open_line

abbrev line : Text
line = b'l' ∷ b's' ∷ b' ' ∷ b'a' ∷ []

abbrev line_words : List Text
line_words = (b'l' ∷ b's' ∷ []) ∷ (b'a' ∷ []) ∷ []

tokenize_command-NonEmpty_example : NonEmpty line_words
unfolding tokenize_command
tokenize_command-NonEmpty_example = tokenize_command-NonEmpty line line_words refl

abbrev version : List ℤ
version = pos 1 ∷ pos 20 ∷ pos 3 ∷ []

deserialize-serialize_example :
    deserialize_actor_version (serialize_actor_version version) ≡ some version
deserialize-serialize_example =
    deserialize-serialize version (omega arith) (omega arith)
      (omega arith, (omega arith, (omega arith, tt)))

abbrev version_text : Text
version_text = b'1' ∷ b'.' ∷ b'2' ∷ b'0' ∷ b'.' ∷ b'3' ∷ []

deserialize_bounds_example : (3 ≤ length version) × (length version ≤ 4) × AllInRange version
unfolding deserialize_actor_version parse_int
deserialize_bounds_example = deserialize_bounds version_text version refl
