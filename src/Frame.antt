-- ===== src/Frame.antt =====
-- src/mac/frame.c and frame.h: the wire format. A C buffer with its length is a list of bytes.
pub mod Crc
pub mod Bytes
pub mod RoundTrip
mod CrcInj
pub mod Integrity
pub mod Accept
use treenity.Prelude.{
  ℕ, ◌+◌, ◌-◌, ◌*◌, ◌/◌, ◌%◌, Bool, true, false, not, ◌&&◌, ◌||◌, List, [], ◌∷◌, ◌++◌, Option, none,
  some, ltb, leb, ◌==◌, if◌then◌else◌, get_or, take, drop, length, is_some,
}
use treenity.Config.{protocol_version, mtu, addr_broadcast, addr_invalid}
use treenity.Util.{put_u16, put_u32, get_u16, get_u32}
use Crc.{frame_crc}

abbrev pub frame_hdr : ℕ
frame_hdr = 20

abbrev pub frame_trailer : ℕ
frame_trailer = 2

abbrev pub frame_overhead : ℕ
frame_overhead = frame_hdr + frame_trailer

abbrev pub flag_want_ack : ℕ
flag_want_ack = 1

abbrev pub flag_frag : ℕ
flag_frag = 4

-- `tn_frame_t`. A NULL payload is `none`; else the bytes that the pointer leads to, of which the
-- first `payload_len` belong to the frame.
pub record Frame : Type 0 where
  pub version : ℕ
  pub type : ℕ
  pub flags : ℕ
  pub src : ℕ
  pub dst : ℕ
  pub seq : ℕ
  pub net_id : ℕ
  pub hop_limit : ℕ
  pub sec : ℕ
  pub prev : ℕ
  pub payload : Option (List ℕ)
  pub payload_len : ℕ

-- `memset(&f, 0, sizeof(f))`
abbrev pub zero_frame : Frame
zero_frame = record {
  version = 0;
  type = 0;
  flags = 0;
  src = 0;
  dst = 0;
  seq = 0;
  net_id = 0;
  hop_limit = 0;
  sec = 0;
  prev = 0;
  payload = none;
  payload_len = 0;
}

-- What `memcpy` reads through the payload pointer.
abbrev pub payload_bytes : Option (List ℕ) → ℕ → List ℕ
payload_bytes none len = []
payload_bytes (some p) len = take len p

-- Bytes 0 to 19 of the buffer.
unfoldable pub header_bytes : Frame → List ℕ
header_bytes f =
    (f.version % 16 * 16 + f.type % 16) ∷ f.flags ∷ put_u32 f.src
    ++ (put_u32 f.dst
        ++ (put_u16 f.seq ++ (put_u16 f.net_id ++ (f.hop_limit ∷ f.sec ∷ put_u32 f.prev))))

-- Header and payload: what the CRC covers.
abbrev pub body_bytes : Frame → List ℕ
body_bytes f = header_bytes f ++ payload_bytes f.payload f.payload_len

-- The bytes that tn_frame_encode stores from the start of a buffer of `cap` bytes; `none` is the
-- result 0, which stores nothing.
unfoldable pub frame_encode : ℕ → Frame → Option (List ℕ)
frame_encode cap f =
    if ltb 0 f.payload_len && not (is_some f.payload)
    then none
    else let total = frame_hdr + f.payload_len + frame_trailer in
      if ltb cap total || ltb mtu total
      then none
      else some (body_bytes f ++ put_u16 (frame_crc (body_bytes f)))

-- The fields of a frame whose CRC has been verified; `len` is the length of `buf`.
unfoldable pub parse_fields : List ℕ → ℕ → Frame
parse_fields buf len = record {
  version = get_or buf 0 0 / 16 % 16;
  type = get_or buf 0 0 % 16;
  flags = get_or buf 1 0;
  src = get_u32 buf 2;
  dst = get_u32 buf 6;
  seq = get_u16 buf 10;
  net_id = get_u16 buf 12;
  hop_limit = get_or buf 14 0;
  sec = get_or buf 15 0;
  prev = get_u32 buf 16;
  payload = some (drop frame_hdr buf);
  payload_len = len - frame_overhead;
}

-- The checks on version and addresses.
unfoldable pub is_sane : Frame → Bool
is_sane f =
    f.version == protocol_version
    && not (f.src == addr_invalid || f.src == addr_broadcast || f.dst == addr_invalid)

-- `buf` is never NULL at the call in the library.
unfoldable pub frame_decode : List ℕ → Option Frame
frame_decode buf =
    let len = length buf in
    if ltb len frame_overhead
    then none
    else let body = len - frame_trailer in
      if not (frame_crc (take body buf) == get_u16 buf body)
      then none
      else let f = parse_fields buf len in if is_sane f then some f else none

-- `tn_beacon_payload_t`
pub record Beacon : Type 0 where
  pub rank : ℕ
  pub parent : ℕ
  pub flags : ℕ
  pub interval_100ms : ℕ

abbrev pub beacon_payload_len : ℕ
beacon_payload_len = 9

unfoldable pub beacon_encode : Beacon → List ℕ
beacon_encode b = put_u16 b.rank ++ (put_u32 b.parent ++ (b.flags ∷ put_u16 b.interval_100ms))

unfoldable pub beacon_decode : Option (List ℕ) → ℕ → Option Beacon
beacon_decode none len = none
beacon_decode (some p) len =
    if ltb len beacon_payload_len
    then none
    else some (record {
      rank = get_u16 p 0;
      parent = get_u32 p 2;
      flags = get_or p 6 0;
      interval_100ms = get_u16 p 7;
    })

-- `tn_frag_hdr_t`
pub record FragHdr : Type 0 where
  pub dgram_id : ℕ
  pub index : ℕ
  pub count : ℕ

abbrev pub frag_hdr_len : ℕ
frag_hdr_len = 4

unfoldable pub frag_encode : FragHdr → List ℕ
frag_encode f = put_u16 f.dgram_id ++ (f.index ∷ f.count ∷ [])

unfoldable pub frag_decode : Option (List ℕ) → ℕ → Option FragHdr
frag_decode none len = none
frag_decode (some p) len =
    if ltb len frag_hdr_len
    then none
    else some (record { dgram_id = get_u16 p 0; index = get_or p 2 0; count = get_or p 3 0 })

-- `tn_dao_payload_t`
pub record Dao : Type 0 where
  pub origin : ℕ
  pub hops : ℕ

abbrev pub dao_payload_len : ℕ
dao_payload_len = 5

unfoldable pub dao_encode : Dao → List ℕ
dao_encode d = put_u32 d.origin ++ (d.hops ∷ [])

unfoldable pub dao_decode : Option (List ℕ) → ℕ → Option Dao
dao_decode none len = none
dao_decode (some p) len =
    if ltb len dao_payload_len
    then none
    else some (record { origin = get_u32 p 0; hops = get_or p 4 0 })
