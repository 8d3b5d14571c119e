-- ===== src/Timer/Deadline.antt =====
-- When timers fire.
use treenity.Prelude.{ℕ, ◌+◌, ◌≤◌, ◌<◌, ◌≡◌, ◌⊎◌, ◌≢◌, true, leb, ltb, arith}
use treenity.Prelude.Word.{add32, sub32, u32_mod}
use treenity.Util.{time_after}
use treenity.Timer.{Timer, start, expired, fire, remaining}

-- A one-shot timer started at `now` with a delay fires at the instant `now + k` exactly if the
-- delay has passed, and firing disarms it; before that nothing changes.
pub fire-start :
    (tm : Timer) (now delay k : ℕ)
    → now < u32_mod
    → delay < 0x8000_0000
    → k < 0x8000_0000
    → let (tm', fired) = fire (start tm now delay) (add32 now k) in
      (fired ≡ leb delay k) × (tm'.active ≡ ltb k delay)
unfolding fire start time_after
fire-start tm now delay k h hd hk = ground arith

-- A periodic timer that is overdue by `late` fires; its next deadline is one period after the old
-- one, or one period from now if it had fallen behind by more than two periods: never more than a
-- period ahead of now, and at most a period behind.
pub fire_periodic :
    (tm : Timer) (late : ℕ)
    → tm.active ≡ true
    → tm.next_ms < u32_mod
    → 0 < tm.interval
    → tm.interval < 0x2000_0000
    → late < 0x2000_0000
    → let now = add32 tm.next_ms late in
      let (tm', fired) = fire tm now in
      (fired ≡ true)
      × (tm'.active ≡ true)
      × (tm'.interval ≡ tm.interval)
      × ((tm'.next_ms ≡ add32 tm.next_ms tm.interval) × (late ≤ tm.interval + tm.interval)
          ⊎ (tm'.next_ms ≡ add32 now tm.interval) × (tm.interval + tm.interval < late))
unfolding fire time_after
fire_periodic tm late a h hi hs hl = ground arith

-- `remaining` is 0 exactly when an armed timer has expired.
remaining-eq-zero :
    (tm : Timer) (now : ℕ)
    → tm.active ≡ true
    → tm.next_ms < u32_mod
    → now < u32_mod
    → sub32 tm.next_ms now ≢ 0x8000_0000
    → leb (remaining tm now) 0 ≡ expired tm now
unfolding remaining expired time_after
remaining-eq-zero tm now a h hn ne = ground arith
