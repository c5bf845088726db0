-- ===== src/Common/Int.antt =====
-- Signed integers; `negsuc n` is -(n + 1).
use maos_core.Common.Tests.{ltb, if◌then◌else◌}
use native.Mathlib.Omega.{arith}
use mathlib.Core.Path.{◌≡◌, refl}
use Prim.Native.Nat.{ℕ, zero, suc, ◌-◌, ◌/◌, ◌%◌, ◌^◌, ◌<◌}
use mathlib.Core.Bool.{Bool, true, false}

pub data ℤ : Type 0 where
  pos : ℕ → ℤ
  negsuc : ℕ → ℤ

abbrev pub ltb_ℤ : ℤ → ℤ → Bool
ltb_ℤ (pos a) (pos b) = ltb a b
ltb_ℤ (pos a) (negsuc b) = false
ltb_ℤ (negsuc a) (pos b) = true
ltb_ℤ (negsuc a) (negsuc b) = ltb b a

-- The number -n.
abbrev pub minus : ℕ → ℤ
minus zero = pos 0
minus (suc m) = negsuc m

abbrev pub difference : ℕ → ℕ → ℤ
difference a b = if ltb a b then minus (b - a) else pos (a - b)

-- What Go's int64 keeps of a result: it wraps around.
unfoldable pub to_int64 : ℤ → ℤ
to_int64 (pos n) = let m = n % 2 ^ 64 in if ltb m (2 ^ 63) then pos m else minus (2 ^ 64 - m)
to_int64 (negsuc n) =
    let m = n % 2 ^ 64 in if ltb m (2 ^ 63) then negsuc m else pos (2 ^ 64 - 1 - m)

pub to_int64-small : (n : ℕ) → n < 2 ^ 63 → to_int64 (pos n) ≡ pos n
unfolding to_int64
to_int64-small n h =
    let e : n % 2 ^ 64 ≡ n = omega (arith, h) in
    let f : ltb n (2 ^ 63) ≡ true = ground arith in rw (e, f) refl

-- Go's division, which truncates.
unfoldable pub quotient : ℤ → ℤ → ℤ
unfolding to_int64
quotient (pos a) (pos b) = pos (a / b)
quotient (pos a) (negsuc b) = minus (a / suc b)
quotient (negsuc a) (pos b) = minus (suc a / b)
quotient (negsuc a) (negsuc b) = to_int64 (pos (suc a / suc b))
