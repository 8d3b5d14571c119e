-- ===== src/Util.antt =====
-- src/core/util.h: wrap-safe time, little-endian byte order, fixed point and link scores.
pub mod Laws
use treenity.Prelude.{
  ℕ, ◌+◌, ◌-◌, ◌*◌, ◌/◌, ◌%◌, Bool, List, [], ◌∷◌, ltb, leb, ◌==◌, ◌&&◌, not, if◌then◌else◌, get_or,
}
use treenity.Prelude.Word.{u8, u16, u32_mod, sub32}
use treenity.Prelude.Int.{ℤ, pos, negsuc, ◌-ℤ◌, pos_part, ltb_ℤ}

unfoldable pub clamp_i32 : ℤ → ℤ → ℤ → ℤ
clamp_i32 v lo hi = if ltb_ℤ v lo then lo else if ltb_ℤ hi v then hi else v

-- `(int32_t)(a - b) > 0`: the difference is not zero and its sign bit is clear.
unfoldable pub time_after : ℕ → ℕ → Bool
time_after a b = ltb 0 (sub32 a b) && ltb (sub32 a b) 0x8000_0000

unfoldable pub elapsed : ℕ → ℕ → ℕ
elapsed from to = sub32 to from

-- The bytes that tn_put_u16 stores, in order. `v & 0xFF` is `v % 256`, `v >> 8` is `v / 256`.
unfoldable pub put_u16 : ℕ → List ℕ
put_u16 v = v % 256 ∷ v / 256 % 256 ∷ []

unfoldable pub put_u32 : ℕ → List ℕ
put_u32 v = v % 256 ∷ v / 256 % 256 ∷ v / 65536 % 256 ∷ v / 16777216 % 256 ∷ []

-- The bytes are disjoint fields, so `|` is a sum.
unfoldable pub get_u16 : List ℕ → ℕ → ℕ
get_u16 p i = get_or p i 0 + get_or p (i + 1) 0 * 256

unfoldable pub get_u32 : List ℕ → ℕ → ℕ
get_u32 p i =
    get_or p i 0
    + get_or p (i + 1) 0 * 256
    + get_or p (i + 2) 0 * 65536
    + get_or p (i + 3) 0 * 16777216

unfoldable pub q8_mul : ℕ → ℕ → ℕ
q8_mul a b = u16 (a * b / 256)

-- Between the clamps the numerator is not negative, so C's division is that of ℕ.
unfoldable pub snr_score_q8 : ℤ → ℕ
unfolding clamp_i32
snr_score_q8 snr_db =
    let s = clamp_i32 snr_db (negsuc 19) (pos 5) in u16 (pos_part (pos 5 -ℤ s) * 1024 / 25)

unfoldable pub etx_score_q8 : ℕ → ℕ
etx_score_q8 etx =
    if leb etx 256
    then 0
    else if leb 1024 etx
    then 1024
    else u16 ((etx - 256) * 1024 / (1024 - 256))

unfoldable pub rand_below : ℕ → ℕ → ℕ
rand_below rnd_value bound = if bound == 0 then 0 else rnd_value % bound
