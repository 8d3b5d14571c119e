-- ===== src/Timer.antt =====
-- src/core/timer.c and timer.h: software timers over a clock that wraps.
pub mod Deadline
use treenity.Prelude.{ℕ, Bool, true, false, not, ltb, if◌then◌else◌}
use treenity.Prelude.Word.{add32, sub32, u32_max}
use treenity.Util.{time_after}

-- `tn_timer_t`
pub record Timer : Type 0 where
  pub next_ms : ℕ
  pub interval : ℕ
  pub active : Bool

unfoldable pub start : Timer → ℕ → ℕ → Timer
start tm now delay_ms = record { next_ms = add32 now delay_ms; interval = 0; active = true }

unfoldable pub start_periodic : Timer → ℕ → ℕ → Timer
start_periodic tm now interval_ms = record {
  next_ms = add32 now interval_ms;
  interval = interval_ms;
  active = true;
}

unfoldable pub stop : Timer → Timer
stop tm = record tm { active = false; interval = 0 }

unfoldable pub expired : Timer → ℕ → Bool
expired tm now = if not tm.active then false else not (time_after tm.next_ms now)

-- The re-arming of a periodic timer in tn_timer_fire.
unfoldable pub rearm : Timer → ℕ → Timer
rearm tm now =
    let next = add32 tm.next_ms tm.interval in
    if time_after now (add32 next tm.interval)
    then record tm { next_ms = add32 now tm.interval }
    else record tm { next_ms = next }

unfoldable pub fire : Timer → ℕ → Timer × Bool
unfolding expired rearm
fire tm now =
    if not (expired tm now)
    then (tm, false)
    else (if ltb 0 tm.interval then rearm tm now else record tm { active = false }, true)

unfoldable pub remaining : Timer → ℕ → ℕ
remaining tm now =
    if not tm.active then u32_max else if time_after now tm.next_ms then 0 else sub32 tm.next_ms now
