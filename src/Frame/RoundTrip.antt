-- ===== src/Frame/RoundTrip.antt =====
-- tn_frame_decode reads back what tn_frame_encode stored.
use treenity.Prelude.{
  ℕ, zero, suc, ◌+◌, ◌-◌, ◌≤◌, ◌<◌, ◌≡◌, refl, ◌≢◌, List, [], ◌∷◌, ◌++◌, some, length,
  length-append, arith, get_or, ap, take, take-append, true, subst, sym, ◌∙◌,
}
use mathlib.Core.List.{append_assoc}
use treenity.Config.{protocol_version, mtu, addr_broadcast, addr_invalid}
use treenity.Util.{put_u16, put_u32, get_u16, get_u32}
use treenity.Frame.{
  Frame, frame_hdr, frame_overhead, frame_trailer, header_bytes, payload_bytes, body_bytes,
  frame_encode, frame_decode, parse_fields, is_sane,
}
use treenity.Frame.Bytes.{Byte, Word, Long, u16_bytes, u32_bytes}
use treenity.Frame.Crc.{frame_crc, crc_loop, crc_byte, crc_nibble}

-- Each field fits its width on the wire, the version and the addresses are ones that a receiver
-- accepts, and the payload pointer leads to at least `payload_len` bytes.
pub record IsFrame (f : Frame) : Type 0 where
  pub version : f.version ≡ protocol_version
  pub type : f.type < 16
  pub flags : Byte f.flags
  pub src : Long f.src
  pub dst : Long f.dst
  pub seq : Word f.seq
  pub net_id : Word f.net_id
  pub hop_limit : Byte f.hop_limit
  pub sec : Byte f.sec
  pub prev : Long f.prev
  pub from_node : (f.src ≢ addr_invalid) × (f.src ≢ addr_broadcast) × (f.dst ≢ addr_invalid)
  pub bytes : length (payload_bytes f.payload f.payload_len) ≡ f.payload_len

-- The same header, and the same payload, wherever it is stored.
pub record Same (f g : Frame) : Type 0 where
  pub header : record g { payload = f.payload } ≡ f
  pub content : payload_bytes g.payload g.payload_len ≡ payload_bytes f.payload f.payload_len

pub length-header_bytes : (f : Frame) → length (header_bytes f) ≡ frame_hdr
unfolding header_bytes put_u16 put_u32
length-header_bytes f = refl

pub length-body_bytes :
    (f : Frame)
    → length (payload_bytes f.payload f.payload_len) ≡ f.payload_len
    → length (body_bytes f) ≡ frame_hdr + f.payload_len
length-body_bytes f h = omega (
  arith,
  length-append (header_bytes f) (payload_bytes f.payload f.payload_len),
  length-header_bytes f,
)

crc_loop-lt : (crc : ℕ) (bs : List ℕ) → crc < 65536 → crc_loop crc bs < 65536
unfolding crc_loop crc_byte crc_nibble
crc_loop-lt crc [] h = h
crc_loop-lt crc (b ∷ bs) h = crc_loop-lt (crc_byte crc b) bs (omega arith)

pub frame_crc-lt : (bs : List ℕ) → frame_crc bs < 65536
unfolding frame_crc
frame_crc-lt bs = crc_loop-lt 0xFFFF bs (omega arith)

get_or-append_right :
    (xs ys : List ℕ) (i j : ℕ) → j ≡ length xs + i → get_or (xs ++ ys) j 0 ≡ get_or ys i 0
get_or-append_right [] ys i j e = ap (λ k. get_or ys k 0) (omega arith)
get_or-append_right (x ∷ xs) ys i zero e = absurd (omega arith)
get_or-append_right (x ∷ xs) ys i (suc j) e = get_or-append_right xs ys i j (omega arith)

-- The trailer of a frame reads as its CRC.
pub get_u16-trailer :
    (xs : List ℕ) (v : ℕ) (n : ℕ) → n ≡ length xs → Word v → get_u16 (xs ++ put_u16 v) n ≡ v
unfolding get_u16 put_u16
get_u16-trailer xs v n e h = omega (
  arith,
  get_or-append_right xs (put_u16 v) 0 n (omega arith),
  get_or-append_right xs (put_u16 v) 1 (n + 1) (omega arith),
  u16_bytes v h,
)

pub parse_header :
    (f : Frame) (rest : List ℕ) (len : ℕ)
    → IsFrame f
    → parse_fields (header_bytes f ++ rest) len
      ≡ record f { payload = some rest; payload_len = len - frame_overhead }
unfolding parse_fields header_bytes put_u16 put_u32 get_u16 get_u32
parse_header f rest len v =
    ground (
      arith,
      u32_bytes f.src,
      u32_bytes f.dst,
      u16_bytes f.seq,
      u16_bytes f.net_id,
      u32_bytes f.prev,
    )

-- The path through tn_frame_decode on which every check passes.
pub decode_steps :
    (buf : List ℕ) (n : ℕ)
    → length buf ≡ frame_overhead + n
    → frame_crc (take (frame_hdr + n) buf) ≡ get_u16 buf (frame_hdr + n)
    → is_sane (parse_fields buf (frame_overhead + n)) ≡ true
    → frame_decode buf ≡ some (parse_fields buf (frame_overhead + n))
unfolding frame_decode
decode_steps buf n e crc sane =
    let cut : frame_overhead + n - frame_trailer ≡ frame_hdr + n = omega arith in
    rw (e, cut, crc, sane) (ground (arith))

module _ (f : Frame) (v : IsFrame f) where
  abbrev payload : List ℕ
  payload = payload_bytes f.payload f.payload_len

  abbrev trailer : List ℕ
  trailer = put_u16 (frame_crc (body_bytes f))

  abbrev encoded : List ℕ
  encoded = body_bytes f ++ trailer

  abbrev received : Frame
  received = record f { payload = some (payload ++ trailer) }

  length-trailer : length trailer ≡ 2
  unfolding put_u16
  length-trailer = refl

  length-encoded : length encoded ≡ frame_overhead + f.payload_len
  length-encoded =
      omega
        (arith, length-append (body_bytes f) trailer, length-body_bytes f v.bytes, length-trailer)

  body-encoded : (n : ℕ) → n ≡ frame_hdr + f.payload_len → take n encoded ≡ body_bytes f
  body-encoded n e =
      subst (λ k. take k encoded ≡ body_bytes f) (sym (e ∙ sym (length-body_bytes f v.bytes)))
        (take-append (body_bytes f) trailer)

  parse-encoded : parse_fields encoded (frame_overhead + f.payload_len) ≡ received
  parse-encoded =
      rw
        (
          append_assoc (header_bytes f) payload trailer,
          parse_header f (payload ++ trailer) (frame_overhead + f.payload_len) v,
        )
        (ap (λ n. record received { payload_len = n }) cut)
    where
      cut : frame_overhead + f.payload_len - frame_overhead ≡ f.payload_len
      cut = omega arith

  received_sane : is_sane received ≡ true
  unfolding is_sane
  received_sane = ground (arith, v.from_node)

  received-Same : Same f received
  received-Same = record {
    header = refl;
    content =
        subst (λ k. take k (payload ++ trailer) ≡ payload) v.bytes (take-append payload trailer);
  }

  decode-encoded : frame_decode encoded ≡ some received
  decode-encoded =
      decode_steps encoded f.payload_len length-encoded crc_matches (rw parse-encoded received_sane)
      ∙ ap some parse-encoded
    where
      crc_matches :
          frame_crc (take (frame_hdr + f.payload_len) encoded)
          ≡ get_u16 encoded (frame_hdr + f.payload_len)
      crc_matches = rw (
        body-encoded (frame_hdr + f.payload_len) refl,
        get_u16-trailer (body_bytes f) (frame_crc (body_bytes f)) (frame_hdr + f.payload_len)
            (sym (length-body_bytes f v.bytes)) (frame_crc-lt (body_bytes f)),
      )

-- A frame that fits the buffer and the MTU is encoded in 22 bytes more than its payload has, and a
-- receiver decodes those bytes to a frame with the same header and the same payload.
pub decode-encode :
    (cap : ℕ) (f : Frame)
    → IsFrame f
    → frame_overhead + f.payload_len ≤ cap
    → frame_overhead + f.payload_len ≤ mtu
    → (bs : List ℕ) × (g : Frame) × (frame_encode cap f ≡ some bs)
      × (length bs ≡ frame_overhead + f.payload_len)
      × (frame_decode bs ≡ some g)
      × Same f g
unfolding frame_encode
decode-encode cap f v fits small = (
  encoded f v,
  received f v,
  ground (arith, v.bytes),
  length-encoded f v,
  decode-encoded f v,
  received-Same f v,
)
