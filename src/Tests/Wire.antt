-- ===== src/Tests/Wire.antt =====
-- The wire format and the receive ring at concrete inputs.
use treenity.Prelude.{
  ℕ, ◌≡◌, refl, List, [], ◌∷◌, some, none, arith, replicate, set, length, length-replicate, ◌+◌,
  ◌++◌, ◌<◌,
}
use treenity.Prelude.Int.{pos, negsuc}
use treenity.Config.{rx_ring_bytes, protocol_version, mtu}
use treenity.Util.{put_u16, put_u32, get_u16, get_u32}
use treenity.Frame.{
  Frame, Beacon, Dao, beacon_encode, beacon_decode, beacon_payload_len, dao_encode, dao_decode,
  dao_payload_len, frame_encode, frame_decode, frame_overhead, header_bytes, parse_fields, is_sane,
  zero_frame,
}
use treenity.Frame.Crc.{frame_crc, crc_loop, crc_byte, crc_nibble}
use treenity.Frame.Bytes.{beacon_decode-encode, dao_decode-encode}
use treenity.Frame.RoundTrip.{IsFrame, Same, decode-encode}
use treenity.Frame.Accept.{decode-IsFrame, encode-decode}
use treenity.Frame.Integrity.{AreBytes, decode-corrupted}
use treenity.Ring.{init}
use treenity.Ring.Refine.{init-Holds}
use treenity.Ring.Pop.{Op, put, get, run, run_queue, run_refines, AreOps}

abbrev hello : Frame
hello = record zero_frame {
  version = protocol_version;
  type = 1;
  flags = 1;
  src = 5;
  dst = 9;
  seq = 77;
  net_id = 3;
  hop_limit = 8;
  prev = 5;
  payload = some (104 ∷ 105 ∷ []);
  payload_len = 2;
}

hello-IsFrame : IsFrame hello
hello-IsFrame = record {
  version = refl;
  type = omega arith;
  flags = omega arith;
  src = omega arith;
  dst = omega arith;
  seq = omega arith;
  net_id = omega arith;
  hop_limit = omega arith;
  sec = omega arith;
  prev = omega arith;
  from_node = (omega arith, omega arith, omega arith);
  bytes = refl;
}

abbrev wire : List ℕ
wire =
    17 ∷ 1 ∷ 5 ∷ 0 ∷ 0 ∷ 0 ∷ 9 ∷ 0 ∷ 0 ∷ 0 ∷ 77 ∷ 0 ∷ 3 ∷ 0 ∷ 8 ∷ 0 ∷ 5 ∷ 0 ∷ 0 ∷ 0 ∷ 104 ∷ 105 ∷ 83
    ∷ 155 ∷ []

wire-bytes : frame_encode mtu hello ≡ some wire
unfolding frame_encode header_bytes put_u16 put_u32 frame_crc crc_loop crc_byte crc_nibble
wire-bytes = refl

decode-encode_example :
    (bs : List ℕ) × (g : Frame) × (frame_encode mtu hello ≡ some bs)
    × (length bs ≡ frame_overhead + 2)
    × (frame_decode bs ≡ some g)
    × Same hello g
decode-encode_example = decode-encode mtu hello hello-IsFrame (omega arith) (omega arith)

wire-decodes : frame_decode wire ≡ some (parse_fields wire 24)
unfolding frame_decode frame_crc crc_loop crc_byte crc_nibble is_sane parse_fields put_u16 put_u32
    get_u16 get_u32
wire-decodes = refl

wire-AreBytes : AreBytes wire
wire-AreBytes = ground arith

-- The payload's first byte has one bit more.
decode-corrupted_example : frame_decode (set wire 20 105) ≡ none
decode-corrupted_example =
    decode-corrupted wire (parse_fields wire 24) 20 105 wire-AreBytes wire-decodes (omega arith)
      (omega arith) (omega arith)

decode-IsFrame_example :
    IsFrame (parse_fields wire 24)
    × ((parse_fields wire 24).payload_len + frame_overhead ≡ length wire)
decode-IsFrame_example = decode-IsFrame wire (parse_fields wire 24) wire-AreBytes wire-decodes

encode-decode_example : frame_encode mtu (parse_fields wire 24) ≡ some wire
encode-decode_example =
    encode-decode wire (parse_fields wire 24) wire-AreBytes (omega arith) wire-decodes

-- Two records in, two out, and a third read finds nothing.
abbrev history : List Op
history =
    put (record { len = 3; rssi_dbm = negsuc 89; snr_db = pos 4 }) (1 ∷ 2 ∷ 3 ∷ [])
    ∷ put (record { len = 1; rssi_dbm = negsuc 99; snr_db = negsuc 6 }) (9 ∷ [])
    ∷ get mtu
    ∷ get mtu
    ∷ get mtu
    ∷ []

history-AreOps : AreOps history
history-AreOps = (
  record {
    len = omega arith;
    bytes = refl;
    rssi = (omega arith, omega arith);
    snr = (omega arith, omega arith);
  },
  (
    record {
      len = omega arith;
      bytes = refl;
      rssi = (omega arith, omega arith);
      snr = (omega arith, omega arith);
    },
    tt,
  ),
)

run_refines_example :
    run (init (replicate rx_ring_bytes 0) rx_ring_bytes) history ≡ run_queue [] history
run_refines_example =
    run_refines history history-AreOps
      (init-Holds (replicate rx_ring_bytes 0) (length-replicate {A = ℕ} rx_ring_bytes 0))

abbrev beacon : Beacon
beacon = record { rank = 16; parent = 9; flags = 3; interval_100ms = 100 }

beacon_decode-encode_example :
    (beacon_decode (some (beacon_encode beacon ++ 7 ∷ [])) 10 ≡ some beacon)
    × (length (beacon_encode beacon) ≡ beacon_payload_len)
    × ((short : ℕ)
        → short < beacon_payload_len
        → beacon_decode (some (beacon_encode beacon ++ 7 ∷ [])) short ≡ none)
beacon_decode-encode_example =
    beacon_decode-encode beacon (7 ∷ []) 10 (omega arith) (omega arith) (omega arith) (omega arith)

abbrev dao : Dao
dao = record { origin = 70000; hops = 2 }

dao_decode-encode_example :
    (dao_decode (some (dao_encode dao ++ [])) 5 ≡ some dao)
    × (length (dao_encode dao) ≡ dao_payload_len)
    × ((short : ℕ)
        → short < dao_payload_len
        → dao_decode (some (dao_encode dao ++ [])) short ≡ none)
dao_decode-encode_example = dao_decode-encode dao [] 5 (omega arith) (omega arith)
