-- ===== src/Common/Decimal/RoundTrip.antt =====
-- What FormatInt prints, ParseInt reads back.
use maos_core.Common.Decimal.{
  Text, is_digit, format_fuel, format_nat, format_int, value, parse_uint, signed, negative,
  parse_int,
}
use maos_core.Common.Tests.{ltb, Bool-cases, ◌==◌}
use maos_core.Common.Int.{ℤ, pos, negsuc}
use mathlib.Core.Option
use Prim.Native.Nat.{ℕ, zero, suc, ◌+◌, ◌-◌, ◌*◌, ◌/◌, ◌%◌, ◌^◌, ◌<◌}
use mathlib.Core.Path.{◌≡◌, refl, ◌∙◌}
use mathlib.Core.Logic.{inl, inr}
use mathlib.Core.Bool.{true}
use mathlib.Core.Option.{Option, none, some}
use mathlib.Core.List.{[], ◌∷◌, ◌++◌}
use native.Mathlib.Omega.{arith}

-- The signed integers of the width.
abbrev pub InRange : ℕ → ℤ → Type 0
InRange bits (pos n) = n < 2 ^ (bits - 1)
InRange bits (negsuc n) = n < 2 ^ (bits - 1)

value-append :
    (acc : ℕ) (xs ys : Text) → value acc (xs ++ ys) ≡ Option.bind (value acc xs) (λ a. value a ys)
unfolding value Option.bind
value-append acc [] ys = refl
value-append acc (c ∷ cs) ys = elim (Bool-cases (is_digit c)) [
  | inl e ↦ rw e (value-append (acc * 10 + (c - b'0')) cs ys)
  | inr e ↦ rw e refl
]

value-format_fuel : (f n : ℕ) → n < f → value 0 (format_fuel f n) ≡ some n
unfolding value format_fuel Option.bind
value-format_fuel zero n h = elim h [ ]
value-format_fuel (suc f) n h = elim (Bool-cases (ltb n 10)) [
  | inl e ↦ ground arith
  | inr e ↦ rw e (
      rw
        (
          value-append 0 (format_fuel f (n / 10)) ((n % 10 + b'0') ∷ []),
          value-format_fuel f (n / 10) (ground arith),
        )
        (ground arith))
]

-- The printed digits begin with a digit, so with no sign.
abbrev pub StartsWithDigit : Text → Type 0
StartsWithDigit t = (c : ℕ) × (cs : Text) × (t ≡ c ∷ cs) × (is_digit c ≡ true)

StartsWithDigit-append : (t u : Text) → StartsWithDigit t → StartsWithDigit (t ++ u)
StartsWithDigit-append t u (c, cs, e, d) = (c, cs ++ u, rw e, d)

format_fuel-StartsWithDigit : (f n : ℕ) → n < f → StartsWithDigit (format_fuel f n)
unfolding format_fuel
format_fuel-StartsWithDigit zero n h = elim h [ ]
format_fuel-StartsWithDigit (suc f) n h = elim (Bool-cases (ltb n 10)) [
  | inl e ↦ rw e (n + b'0', [], refl, ground arith)
  | inr e ↦ rw e (
      StartsWithDigit-append (format_fuel f (n / 10)) ((n % 10 + b'0') ∷ [])
        (format_fuel-StartsWithDigit f (n / 10) (ground arith)))
]

pub format_nat-StartsWithDigit : (n : ℕ) → StartsWithDigit (format_nat n)
unfolding format_nat
format_nat-StartsWithDigit n = format_fuel-StartsWithDigit (suc n) n (omega arith)

parse_uint-value : (t : Text) → StartsWithDigit t → parse_uint t ≡ value 0 t
unfolding parse_uint
parse_uint-value [] (c, cs, e, d) = cc
parse_uint-value (x ∷ xs) s = refl

pub parse_uint-format_nat : (n : ℕ) → parse_uint (format_nat n) ≡ some n
unfolding format_nat
parse_uint-format_nat n =
    parse_uint-value (format_nat n) (format_nat-StartsWithDigit n)
    ∙ value-format_fuel (suc n) n (omega arith)

parse_int_unsigned :
    (bits n : ℕ) (t : Text)
    → StartsWithDigit t
    → parse_uint t ≡ some n
    → n < 2 ^ (bits - 1)
    → parse_int bits t ≡ some (pos n)
unfolding parse_int
parse_int_unsigned bits n [] (c, cs, e, d) p h = cc
parse_int_unsigned bits n (x ∷ xs) (c, cs, e, d) p h = ground arith

pub parse_int-format_nat :
    (bits n : ℕ) → n < 2 ^ (bits - 1) → parse_int bits (format_nat n) ≡ some (pos n)
parse_int-format_nat bits n h =
    parse_int_unsigned bits n (format_nat n) (format_nat-StartsWithDigit n)
      (parse_uint-format_nat n) h

-- Every integer of the width is read back from its decimal form, sign included.
pub parse_int-format_int :
    (bits : ℕ) (z : ℤ) → InRange bits z → parse_int bits (format_int z) ≡ some z
unfolding parse_int format_int
parse_int-format_int bits (pos n) h = parse_int-format_nat bits n h
parse_int-format_int bits (negsuc n) h = ground (arith, parse_uint-format_nat (suc n))

abbrev pub AllDigits : Text → Type 0
AllDigits [] = Unit {0}
AllDigits (c ∷ cs) = (is_digit c ≡ true) × AllDigits cs

AllDigits-append : (t u : Text) → AllDigits t → AllDigits u → AllDigits (t ++ u)
AllDigits-append [] u h k = k
AllDigits-append (c ∷ cs) u h k = (h.0, AllDigits-append cs u h.1 k)

format_fuel-AllDigits : (f n : ℕ) → AllDigits (format_fuel f n)
unfolding format_fuel
format_fuel-AllDigits zero n = tt
format_fuel-AllDigits (suc f) n = elim (Bool-cases (ltb n 10)) [
  | inl e ↦ rw e (ground arith, tt)
  | inr e ↦ rw e (
      AllDigits-append (format_fuel f (n / 10)) ((n % 10 + b'0') ∷ [])
        (format_fuel-AllDigits f (n / 10)) (ground arith, tt))
]

pub format_nat-AllDigits : (n : ℕ) → AllDigits (format_nat n)
unfolding format_nat
format_nat-AllDigits n = format_fuel-AllDigits (suc n) n

signed-InRange : (bits : ℕ) (o : Option ℕ) (z : ℤ) → signed bits o ≡ some z → InRange bits z
signed-InRange bits none z h = cc
signed-InRange bits (some n) (pos m) h = ground arith
signed-InRange bits (some n) (negsuc m) h = ground arith

negative-InRange :
    (bits : ℕ) (o : Option ℕ) (z : ℤ)
    → negative bits o ≡ some z
    → 0 < 2 ^ (bits - 1)
    → InRange bits z
negative-InRange bits none z h p = cc
negative-InRange bits (some zero) (pos m) h p = ground arith
negative-InRange bits (some zero) (negsuc m) h p = ground arith
negative-InRange bits (some (suc n)) (pos m) h p = ground arith
negative-InRange bits (some (suc n)) (negsuc m) h p = ground arith

-- What is read fits the width.
pub parse_int-InRange :
    (bits : ℕ) (t : Text) (z : ℤ) → 0 < 2 ^ (bits - 1) → parse_int bits t ≡ some z → InRange bits z
unfolding parse_int
parse_int-InRange bits [] z p h = cc
parse_int-InRange bits (c ∷ cs) z p h = elim (Bool-cases (c == b'-')) [
  | inl e ↦ negative-InRange bits (parse_uint cs) z (ground arith) p
  | inr e ↦ elim (Bool-cases (c == b'+')) [
    | inl f ↦ signed-InRange bits (parse_uint cs) z (ground arith)
    | inr f ↦ signed-InRange bits (parse_uint (c ∷ cs)) z (ground arith)
  ]
]
