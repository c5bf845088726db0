-- ===== src/Util/Comparable/Bounds.antt =====
-- Clamping into a range of integers.
use maos_core.Common.{◌≡◌, ◌⊎◌, refl, arith, true, false, Bool-cases, inl, inr}
use maos_core.Common.Int.{ℤ, pos, negsuc, ltb_ℤ}
use maos_core.Util.Comparable.{clamp}

abbrev pub AtMost : ℤ → ℤ → Type 0
AtMost a b = ltb_ℤ b a ≡ false

AtMost-refl : (a : ℤ) → AtMost a a
AtMost-refl (pos n) = ground arith
AtMost-refl (negsuc n) = ground arith

AtMost-of : (a b : ℤ) → ltb_ℤ a b ≡ true → AtMost a b
AtMost-of (pos a) (pos b) h = ground arith
AtMost-of (pos a) (negsuc b) h = absurd cc
AtMost-of (negsuc a) (pos b) h = refl
AtMost-of (negsuc a) (negsuc b) h = ground arith

-- The number of the range that is nearest to `v`: no other number of the range lies between it and
-- `v`, since it leaves `v` only at a bound, and only on the side of `v` where that bound is.
abbrev pub Nearest : ℤ → ℤ → ℤ → ℤ → Type 0
Nearest a b v r = AtMost a r × AtMost r b × ((r ≡ a) ⊎ AtMost r v) × ((r ≡ b) ⊎ AtMost v r)

-- Clamping into a range of integers that is not empty gives the number of the range that is nearest
-- to the value: it lies in the range, is above the value only at the lower bound and below the value
-- only at the upper bound.
pub clamp-Nearest : (v a b : ℤ) → AtMost a b → Nearest a b v (clamp v a b)
unfolding clamp
clamp-Nearest v a b h = elim (Bool-cases (ltb_ℤ v a)) [
  | inl e ↦ rw e (AtMost-refl a, h, inl refl, inr (AtMost-of v a e))
  | inr e ↦ elim (Bool-cases (ltb_ℤ b v)) [
    | inl f ↦ rw (e, f) (h, AtMost-refl b, inr (AtMost-of b v f), inl refl)
    | inr f ↦ rw (e, f) (e, f, inr (AtMost-refl v), inr (AtMost-refl v))
  ]
]
