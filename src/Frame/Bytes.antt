-- ===== src/Frame/Bytes.antt =====
-- The control payloads of src/mac/frame.c, read back from what was stored.
use treenity.Prelude.{
  ℕ, ◌+◌, ◌*◌, ◌/◌, ◌%◌, ◌≤◌, ◌<◌, ◌≡◌, refl, List, ◌++◌, some, none, length, arith,
}
use treenity.Util.{put_u16, put_u32, get_u16, get_u32}
use treenity.Frame.{
  Beacon, beacon_encode, beacon_decode, beacon_payload_len, FragHdr, frag_encode, frag_decode,
}
use treenity.Frame.{Dao, dao_encode, dao_decode, dao_payload_len, frag_hdr_len}

abbrev pub Byte : ℕ → Type 0
Byte n = n < 256

abbrev pub Word : ℕ → Type 0
Word n = n < 65536

abbrev pub Long : ℕ → Type 0
Long n = n < 4294967296

pub u16_bytes : (v : ℕ) → Word v → v % 256 + v / 256 % 256 * 256 ≡ v
u16_bytes v h = omega arith

pub u32_bytes :
    (v : ℕ)
    → Long v
    → v % 256 + v / 256 % 256 * 256 + v / 65536 % 256 * 65536 + v / 16777216 % 256 * 16777216 ≡ v
u32_bytes v h = omega arith

-- A beacon payload is read back whole from its 9 bytes, whatever follows them; a shorter payload
-- is refused.
pub beacon_decode-encode :
    (b : Beacon) (rest : List ℕ) (len : ℕ)
    → Word b.rank
    → Long b.parent
    → Word b.interval_100ms
    → beacon_payload_len ≤ len
    → (beacon_decode (some (beacon_encode b ++ rest)) len ≡ some b)
      × (length (beacon_encode b) ≡ beacon_payload_len)
      × ((short : ℕ)
          → short < beacon_payload_len
          → beacon_decode (some (beacon_encode b ++ rest)) short ≡ none)
unfolding beacon_encode beacon_decode put_u16 put_u32 get_u16 get_u32
beacon_decode-encode b rest len hr hp hi h = (
  ground (arith, u16_bytes b.rank, u32_bytes b.parent, u16_bytes b.interval_100ms),
  refl,
  λ short k. ground arith,
)

-- A fragment header is read back whole from its 4 bytes; a shorter payload is refused.
frag_decode-encode :
    (f : FragHdr) (rest : List ℕ) (len : ℕ)
    → Word f.dgram_id
    → frag_hdr_len ≤ len
    → (frag_decode (some (frag_encode f ++ rest)) len ≡ some f)
      × (length (frag_encode f) ≡ frag_hdr_len)
      × ((short : ℕ)
          → short < frag_hdr_len
          → frag_decode (some (frag_encode f ++ rest)) short ≡ none)
unfolding frag_encode frag_decode put_u16 get_u16
frag_decode-encode f rest len hd h =
    (ground (arith, u16_bytes f.dgram_id), refl, λ short k. ground arith)

-- A destination advertisement is read back whole from its 5 bytes; a shorter payload is refused.
pub dao_decode-encode :
    (d : Dao) (rest : List ℕ) (len : ℕ)
    → Long d.origin
    → dao_payload_len ≤ len
    → (dao_decode (some (dao_encode d ++ rest)) len ≡ some d)
      × (length (dao_encode d) ≡ dao_payload_len)
      × ((short : ℕ)
          → short < dao_payload_len
          → dao_decode (some (dao_encode d ++ rest)) short ≡ none)
unfolding dao_encode dao_decode put_u32 get_u32
dao_decode-encode d rest len ho h =
    (ground (arith, u32_bytes d.origin), refl, λ short k. ground arith)
