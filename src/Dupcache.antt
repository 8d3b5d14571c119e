-- ===== src/Dupcache.antt =====
-- src/mac/dupcache.c and dupcache.h: the cache of recently seen frames.
pub mod Fresh
use treenity.Prelude.{
  ℕ, ◌+◌, ◌*◌, ◌%◌, Bool, true, false, not, ◌&&◌, List, ◌==◌, get_or, set, replicate, bit_xor,
}
use treenity.Prelude.Word.{add32, u32}
use treenity.Config.{dup_cache_size}
use treenity.Util.{time_after}

-- `tn_dup_entry_t`
pub record Entry : Type 0 where
  pub src : ℕ
  pub seq : ℕ
  pub seen_ms : ℕ
  pub valid : Bool

-- `tn_dupcache_t`
pub record Dupcache : Type 0 where
  pub entries : List Entry
  pub ttl_ms : ℕ

abbrev pub no_entry : Entry
no_entry = record { src = 0; seq = 0; seen_ms = 0; valid = false }

unfoldable pub init : ℕ → Dupcache
init ttl_ms = record { entries = replicate dup_cache_size no_entry; ttl_ms = ttl_ms }

unfoldable pub dup_slot : ℕ → ℕ → ℕ
dup_slot src seq = bit_xor (u32 (src * 2654435761)) (u32 (seq * 40503)) % dup_cache_size

unfoldable pub check : Dupcache → ℕ → ℕ → ℕ → Bool
check c src seq now =
    let e = get_or c.entries (dup_slot src seq) no_entry in
    e.valid && e.src == src && e.seq == seq && not (time_after now (add32 e.seen_ms c.ttl_ms))

unfoldable pub mark : Dupcache → ℕ → ℕ → ℕ → Dupcache
mark c src seq now = record c {
  entries =
      set c.entries (dup_slot src seq)
        (record { src = src; seq = seq; seen_ms = now; valid = true });
}

unfoldable pub seen : Dupcache → ℕ → ℕ → ℕ → Dupcache × Bool
unfolding check mark
seen c src seq now = let dup = check c src seq now in (mark c src seq now, dup)
