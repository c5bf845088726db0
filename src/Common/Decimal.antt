-- ===== src/Common/Decimal.antt =====
-- strconv.FormatInt and strconv.ParseInt in base 10, over the codes of the text.
pub mod RoundTrip
use maos_core.Common.Tests.{ltb, leb, ◌==◌, if◌then◌else◌}
use maos_core.Common.Int.{ℤ, pos, negsuc}
use Prim.Native.Nat.{ℕ, zero, suc, ◌+◌, ◌-◌, ◌*◌, ◌/◌, ◌%◌, ◌^◌}
use mathlib.Core.Bool.{Bool, ◌&&◌}
use mathlib.Core.Option.{Option, none, some}
use mathlib.Core.List.{List, [], ◌∷◌, ◌++◌}

abbrev pub Text : Type 0
Text = List ℕ

abbrev pub is_digit : ℕ → Bool
is_digit c = leb b'0' c && leb c b'9'

-- The digits of `n`, as many as the fuel allows; `suc n` is enough.
pub format_fuel : ℕ → ℕ → Text
format_fuel zero n = []
format_fuel (suc f) n =
    let rest = format_fuel f (n / 10) in
    if ltb n 10 then (n + b'0') ∷ [] else rest ++ (n % 10 + b'0') ∷ []

unfoldable pub format_nat : ℕ → Text
unfolding format_fuel
format_nat n = format_fuel (suc n) n

unfoldable pub format_int : ℤ → Text
unfolding format_nat
format_int (pos n) = format_nat n
format_int (negsuc n) = b'-' ∷ format_nat (suc n)

-- The number that digits stand for, behind those already read.
pub value : ℕ → Text → Option ℕ
value acc [] = some acc
value acc (c ∷ cs) =
    let rest = value (acc * 10 + (c - b'0')) cs in if is_digit c then rest else none

pub parse_uint : Text → Option ℕ
unfolding value
parse_uint [] = none
parse_uint (c ∷ cs) = value 0 (c ∷ cs)

abbrev pub signed : ℕ → Option ℕ → Option ℤ
signed bits none = none
signed bits (some n) = if ltb n (2 ^ (bits - 1)) then some (pos n) else none

abbrev pub negated : ℕ → ℕ → Option ℤ
negated bits zero = some (pos 0)
negated bits (suc n) = if leb (suc n) (2 ^ (bits - 1)) then some (negsuc n) else none

abbrev pub negative : ℕ → Option ℕ → Option ℤ
negative bits none = none
negative bits (some n) = negated bits n

-- `bits` is the width of the result. Every error is `none`.
unfoldable pub parse_int : ℕ → Text → Option ℤ
unfolding parse_uint
parse_int bits [] = none
parse_int bits (c ∷ cs) =
    if c == b'-'
    then negative bits (parse_uint cs)
    else if c == b'+'
    then signed bits (parse_uint cs)
    else signed bits (parse_uint (c ∷ cs))
