-- ===== src/Airtime.antt =====
-- src/mac/airtime.c: LoRa time on air.
use treenity.Prelude.{
  ℕ, ◌+◌, ◌-◌, ◌*◌, ◌/◌, ◌^◌, ◌&&◌, ◌||◌, ltb, leb, ◌==◌, if◌then◌else◌, Option, none, some,
}
use treenity.Prelude.Word.{u32}

-- `tn_lora_params_t`
pub record LoraParams : Type 0 where
  pub sf : ℕ
  pub bw_hz : ℕ
  pub cr : ℕ
  pub preamble : ℕ
  pub explicit_hdr : ℕ
  pub crc : ℕ

unfoldable pub ceil_div : ℕ → ℕ → ℕ
ceil_div a b = u32 (a + b - 1) / b

-- The conservative fallback of 1 ms per byte.
abbrev pub linear_us : ℕ → ℕ
linear_us bytes = u32 (bytes * 1000)

-- `num` may be negative in C, and then TN_MAX (num, 0) is 0, as is the subtraction here.
unfoldable pub payload_symbols : LoraParams → ℕ → ℕ
unfolding ceil_div
payload_symbols p bytes =
    let de : ℕ = if leb 11 p.sf && leb p.bw_hz 125000 then 1 else 0 in
    let crc : ℕ = if p.crc == 0 then 0 else 1 in
    let ih : ℕ = if p.explicit_hdr == 0 then 1 else 0 in
    let num = 8 * bytes + 28 + 16 * crc - (4 * p.sf + 20 * ih) in
    let den = 4 * (p.sf - 2 * de) in 8 + ceil_div num (if den == 0 then 1 else den) * (p.cr + 4)

-- `p == NULL` is `none`.
unfoldable pub lora_toa_us : Option LoraParams → ℕ → ℕ
unfolding payload_symbols
lora_toa_us none bytes = linear_us bytes
lora_toa_us (some p) bytes =
    if p.bw_hz == 0 || ltb p.sf 6 || ltb 12 p.sf || ltb p.cr 1 || ltb 4 p.cr
    then linear_us bytes
    else let tsym_us = u32 (2 ^ p.sf * 1000000 / p.bw_hz) in
      let preamble_us = u32 (tsym_us * u32 (p.preamble * 4 + 17) / 4) in
      u32 (preamble_us + u32 (payload_symbols p bytes * tsym_us))

unfoldable pub airtime_estimate_us : Option LoraParams → ℕ → ℕ
unfolding lora_toa_us
airtime_estimate_us none bytes = linear_us bytes
airtime_estimate_us (some p) bytes =
    if leb 6 p.sf && leb p.sf 12 && ltb 0 p.bw_hz && leb 1 p.cr && leb p.cr 4
    then lora_toa_us (some p) bytes
    else linear_us bytes
