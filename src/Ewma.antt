-- ===== src/Ewma.antt =====
-- src/core/ewma.h: the moving average of link metrics. `int32_t` values are integers here, and
-- `Ewma.Bounds` shows that they stay far inside the range of the type.
pub mod Bounds
use treenity.Prelude.{Bool, true, false, not, if◌then◌else◌}
use treenity.Prelude.Int.{ℤ, pos, ◌+ℤ◌, ◌-ℤ◌, scale, div_trunc, div_floor}
use treenity.Config.{ewma_div}

-- `tn_ewma16_t`
pub record Ewma : Type 0 where
  pub value : ℤ
  pub init : Bool

unfoldable pub reset : Ewma
reset = record { value = pos 0; init = false }

-- The state after tn_ewma16_push. Its result is `get` of that state.
unfoldable pub push : Ewma → ℤ → Ewma
push e sample =
    if not e.init
    then record { value = scale ewma_div sample; init = true }
    else record e { value = e.value +ℤ div_trunc (scale ewma_div sample -ℤ e.value) ewma_div }

unfoldable pub get : Ewma → ℤ
get e = if not e.init then pos 0 else div_floor e.value ewma_div
