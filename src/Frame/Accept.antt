-- ===== src/Frame/Accept.antt =====
-- What tn_frame_decode accepts, from the receiver's side: the fields of the frame it stores, and
-- the bytes it came from.
use treenity.Prelude.{
  ℕ, zero, suc, ◌+◌, ◌-◌, ◌*◌, ◌/◌, ◌%◌, ◌≤◌, ◌<◌, ◌≡◌, refl, sym, ap, ◌∙◌, List, [], ◌∷◌, ◌++◌,
  some, arith, get_or, take, drop, length, length-take_le, length-drop, take-length, true,
}
use treenity.Config.{mtu}
use treenity.Util.{put_u16, put_u32, get_u16, get_u32}
use treenity.Frame.{
  Frame, frame_hdr, frame_overhead, frame_trailer, frame_encode, frame_decode, header_bytes,
  body_bytes, parse_fields, is_sane,
}
use treenity.Frame.Crc.{frame_crc}
use treenity.Frame.RoundTrip.{IsFrame}
use treenity.Frame.Integrity.{AreBytes, AreBytes-get_or}

-- `n` elements from position `i` on.
abbrev window : ℕ → ℕ → List ℕ → List ℕ
window zero i xs = []
window (suc n) i xs = get_or xs i 0 ∷ window n (suc i) xs

window-suc : (n i : ℕ) (x : ℕ) (xs : List ℕ) → window n (suc i) (x ∷ xs) ≡ window n i xs
window-suc zero i x xs = refl
window-suc (suc n) i x xs = ap (◌∷◌ (get_or xs i 0)) (window-suc n (suc i) x xs)

window-take : (n i : ℕ) (xs : List ℕ) → n + i ≤ length xs → window n i xs ≡ take n (drop i xs)
window-take zero i xs h = refl
window-take (suc n) i [] h = absurd (omega arith)
window-take (suc n) zero (x ∷ xs) h =
    ap (◌∷◌ x) (window-suc n 0 x xs ∙ window-take n 0 xs (omega arith))
window-take (suc n) (suc i) (x ∷ xs) h =
    window-suc (suc n) i x xs ∙ window-take (suc n) i xs (omega arith)

take-split : (n a b : ℕ) (xs : List ℕ) → n ≡ a + b → take n xs ≡ take a xs ++ take b (drop a xs)
take-split n zero b xs e = ap (λ k. take k xs) (omega (arith, e))
take-split zero (suc a) b xs e = absurd (omega (arith, e))
take-split (suc n) (suc a) zero [] e = refl
take-split (suc n) (suc a) (suc b) [] e = refl
take-split (suc n) (suc a) b (x ∷ xs) e = ap (◌∷◌ x) (take-split n a b xs (omega (arith, e)))

put_u16-get_u16 : (p : List ℕ) (i : ℕ) → AreBytes p → put_u16 (get_u16 p i) ≡ window 2 i p
unfolding put_u16 get_u16
put_u16-get_u16 p i h = ground (arith, AreBytes-get_or p i h, AreBytes-get_or p (i + 1) h)

put_u32-get_u32 : (p : List ℕ) (i : ℕ) → AreBytes p → put_u32 (get_u32 p i) ≡ window 4 i p
unfolding put_u32 get_u32
put_u32-get_u32 p i h = ground (
  arith,
  AreBytes-get_or p i h,
  AreBytes-get_or p (i + 1) h,
  AreBytes-get_or p (i + 2) h,
  AreBytes-get_or p (i + 3) h,
)

-- What the checks of tn_frame_decode establish.
decode-checks :
    (buf : List ℕ) (g : Frame)
    → frame_decode buf ≡ some g
    → (frame_overhead ≤ length buf)
      × (frame_crc (take (length buf - frame_trailer) buf)
          ≡ get_u16 buf (length buf - frame_trailer))
      × (is_sane (parse_fields buf (length buf)) ≡ true)
      × (g ≡ parse_fields buf (length buf))
unfolding frame_decode
decode-checks buf g e = ground arith

module _ (buf : List ℕ) (h : AreBytes buf) (long : frame_overhead ≤ length buf) where
  parse-IsFrame :
      is_sane (parse_fields buf (length buf)) ≡ true → IsFrame (parse_fields buf (length buf))
  unfolding parse_fields is_sane get_u16 get_u32
  parse-IsFrame sane = record {
    version = ground (arith, sane);
    type = omega arith;
    flags = AreBytes-get_or buf 1 h;
    src = omega (
      arith,
      AreBytes-get_or buf 2 h,
      AreBytes-get_or buf 3 h,
      AreBytes-get_or buf 4 h,
      AreBytes-get_or buf 5 h,
    );
    dst = omega (
      arith,
      AreBytes-get_or buf 6 h,
      AreBytes-get_or buf 7 h,
      AreBytes-get_or buf 8 h,
      AreBytes-get_or buf 9 h,
    );
    seq = omega (arith, AreBytes-get_or buf 10 h, AreBytes-get_or buf 11 h);
    net_id = omega (arith, AreBytes-get_or buf 12 h, AreBytes-get_or buf 13 h);
    hop_limit = AreBytes-get_or buf 14 h;
    sec = AreBytes-get_or buf 15 h;
    prev = omega (
      arith,
      AreBytes-get_or buf 16 h,
      AreBytes-get_or buf 17 h,
      AreBytes-get_or buf 18 h,
      AreBytes-get_or buf 19 h,
    );
    from_node = ground (arith, sane);
    bytes =
        length-take_le (length buf - frame_overhead) (drop frame_hdr buf)
          (omega (arith, length-drop frame_hdr buf));
  }

  header_bytes-parse : header_bytes (parse_fields buf (length buf)) ≡ window 20 0 buf
  unfolding header_bytes parse_fields
  header_bytes-parse =
      rw
        (
          put_u32-get_u32 buf 2 h,
          put_u32-get_u32 buf 6 h,
          put_u16-get_u16 buf 10 h,
          put_u16-get_u16 buf 12 h,
          put_u32-get_u32 buf 16 h,
          first_byte (get_or buf 0 0) (AreBytes-get_or buf 0 h),
        )
        refl
    where
      first_byte : (b : ℕ) → b < 256 → b / 16 % 16 % 16 * 16 + b % 16 % 16 ≡ b
      first_byte b lt = omega (arith, lt)

  -- Header and payload are the bytes before the trailer.
  body_bytes-parse :
      body_bytes (parse_fields buf (length buf)) ≡ take (length buf - frame_trailer) buf
  unfolding parse_fields
  body_bytes-parse =
      ap (λ xs. xs ++ take (length buf - frame_overhead) (drop frame_hdr buf))
        (header_bytes-parse ∙ window-take 20 0 buf (omega (arith, long)))
      ∙ sym (
          take-split (length buf - frame_trailer) frame_hdr (length buf - frame_overhead) buf
            (omega (arith, long)))

  payload_len-parse : (parse_fields buf (length buf)).payload_len + frame_overhead ≡ length buf
  unfolding parse_fields
  payload_len-parse = omega (arith, long)

  has_payload : (parse_fields buf (length buf)).payload ≡ some (drop frame_hdr buf)
  unfolding parse_fields
  has_payload = refl

  -- All bytes are those before the trailer and the trailer.
  whole : (n : ℕ) → n + 2 ≡ length buf → take n buf ++ put_u16 (get_u16 buf n) ≡ buf
  whole n e =
      ap (λ xs. take n buf ++ xs) (put_u16-get_u16 buf n h ∙ window-take 2 n buf (omega (arith, e)))
      ∙ sym (take-split (length buf) n 2 buf (sym e))
      ∙ take-length buf

encode_steps :
    (f : Frame) (p : List ℕ)
    → f.payload ≡ some p
    → f.payload_len + frame_overhead ≤ mtu
    → frame_encode mtu f ≡ some (body_bytes f ++ put_u16 (frame_crc (body_bytes f)))
unfolding frame_encode
encode_steps f p has fits = ground (arith, has, fits)

-- A frame accepted from bytes is well formed: every field fits its width on the wire, the version is
-- the node's own, the source is neither 0 nor the broadcast address, the destination is not 0, and the
-- payload has all bytes but 22. The previous hop can be any address.
pub decode-IsFrame :
    (buf : List ℕ) (g : Frame)
    → AreBytes buf
    → frame_decode buf ≡ some g
    → IsFrame g × (g.payload_len + frame_overhead ≡ length buf)
decode-IsFrame buf g h e =
    let (long, crc, sane, same) = decode-checks buf g e in
    rw same (parse-IsFrame buf h long sane, payload_len-parse buf h long)

-- Its payload is what follows the header.
pub decode-payload :
    (buf : List ℕ) (g : Frame) → frame_decode buf ≡ some g → g.payload ≡ some (drop frame_hdr buf)
unfolding parse_fields
decode-payload buf g e = ap (λ h. h.payload) (decode-checks buf g e).3

-- Accepted bytes that fit the MTU are those that the accepted frame is encoded in.
pub encode-decode :
    (buf : List ℕ) (g : Frame)
    → AreBytes buf
    → length buf ≤ mtu
    → frame_decode buf ≡ some g
    → frame_encode mtu g ≡ some buf
encode-decode buf g h fits e =
    let (long, crc, sane, same) = decode-checks buf g e in
    let f = parse_fields buf (length buf) in
    ap (frame_encode mtu) same
    ∙ encode_steps f (drop frame_hdr buf) (has_payload buf h long)
        (omega (arith, fits, payload_len-parse buf h long))
    ∙ ap (λ bs. some (bs ++ put_u16 (frame_crc bs))) (body_bytes-parse buf h long)
    ∙ ap (λ v. some (take (length buf - frame_trailer) buf ++ put_u16 v)) crc
    ∙ ap some (whole buf h long (length buf - frame_trailer) (omega (arith, long)))
