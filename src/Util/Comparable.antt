-- ===== src/Util/Comparable.antt =====
-- util/comparable.go. `Clamp` is generic in the source; its callers clamp Go's `int`.
pub mod Bounds
use maos_core.Common.{if◌then◌else◌}
use maos_core.Common.Int.{ℤ, ltb_ℤ}

unfoldable pub clamp : ℤ → ℤ → ℤ → ℤ
clamp value min max = if ltb_ℤ value min then min else if ltb_ℤ max value then max else value
