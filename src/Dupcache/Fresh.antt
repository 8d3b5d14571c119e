-- ===== src/Dupcache/Fresh.antt =====
-- Which frames the cache takes for duplicates, and for how long.
use treenity.Prelude.{
  ℕ, ◌+◌, ◌<◌, ◌≡◌, ◌≢◌, true, leb, arith, length, length-set, get_or-set_self, get_or-set_ne,
}
use treenity.Prelude.Word.{add32, u32_mod}
use treenity.Config.{dup_cache_size}
use treenity.Util.{time_after}
use treenity.Dupcache.{Dupcache, no_entry, dup_slot, check, mark}

-- The table has its fixed size, so every slot index is in bounds.
pub record IsValid (c : Dupcache) : Type 0 where
  pub size : length c.entries ≡ dup_cache_size
  pub ttl : c.ttl_ms < 0x4000_0000

pub dup_slot-lt : (src seq : ℕ) → dup_slot src seq < dup_cache_size
unfolding dup_slot
dup_slot-lt src seq = omega arith

pub mark-IsValid : (c : Dupcache) (src seq now : ℕ) → IsValid c → IsValid (mark c src seq now)
unfolding mark
mark-IsValid c src seq now v = ground (
  arith,
  length-set c.entries (dup_slot src seq)
      (record { src = src; seq = seq; seen_ms = now; valid = true }),
)

-- In a cache of its fixed size with a lifetime below 2 ^ 30 ms, a frame that was marked at `now` is a
-- duplicate at `now + k`, for `k` below 2 ^ 30 ms, exactly if `k` is at most the lifetime; and a frame of
-- another slot is judged as before the mark.
pub check-mark :
    (c : Dupcache) (src seq now k : ℕ)
    → IsValid c
    → now < u32_mod
    → k < 0x4000_0000
    → (check (mark c src seq now) src seq (add32 now k) ≡ leb k c.ttl_ms)
      × ((src' seq' later : ℕ)
          → dup_slot src seq ≢ dup_slot src' seq'
          → check (mark c src seq now) src' seq' later ≡ check c src' seq' later)
unfolding check mark time_after
check-mark c src seq now k v h hk = (
  ground (
    arith,
    dup_slot-lt src seq,
    get_or-set_self c.entries (dup_slot src seq)
        (record { src = src; seq = seq; seen_ms = now; valid = true }) no_entry,
  ),
  λ src' seq' later ne. ground (
    arith,
    get_or-set_ne c.entries (dup_slot src seq) (dup_slot src' seq')
        (record { src = src; seq = seq; seen_ms = now; valid = true }) no_entry ne,
  ),
)

-- The entry is never cleared, and the clock wraps: from 2 ^ 31 ms after the end of its lifetime the
-- frame counts as a duplicate again, for another 2 ^ 31 ms.
pub check-mark_wraps :
    (c : Dupcache) (src seq now k : ℕ)
    → IsValid c
    → now < u32_mod
    → k < 0x8000_0000
    → check (mark c src seq now) src seq (add32 (add32 now c.ttl_ms) (0x8000_0000 + k)) ≡ true
unfolding check mark time_after
check-mark_wraps c src seq now k v h hk = ground (
  arith,
  dup_slot-lt src seq,
  get_or-set_self c.entries (dup_slot src seq)
      (record { src = src; seq = seq; seen_ms = now; valid = true }) no_entry,
)
