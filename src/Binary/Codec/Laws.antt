-- ===== src/Binary/Codec/Laws.antt =====
-- Coordinate packets of 16 bytes.
use aerocast.Prelude.{
  ℕ, ◌≤◌, ◌≡◌, refl, sym, ap, ◌∙◌, List, [], ◌++◌, length, take, drop, some, All, arith,
  length-append, take-append, drop-append, append_assoc, append-nil, drop-drop, length-drop,
  take-append-drop, take_all, drop_all,
}
use aerocast.Binary.LittleEndian.{
  get_bytes, put_bytes, slice, get_bytes_field, put_bytes-slice, IsU64, IsByte, length-put_bytes,
}
use aerocast.Binary.Codec.{CoordPacket, ok, decode_coord_in_place, put_at, encode_coord}

abbrev pub coord_bytes : CoordPacket → List ℕ
coord_bytes pkt = put_bytes 8 pkt.lng ++ put_bytes 8 pkt.lat

-- A write behind `pre` replaces the bytes there.
pub put_at-append :
    (pre bs rest : List ℕ) (off n : ℕ)
    → length pre ≡ off
    → length bs ≡ n
    → n ≤ length rest
    → put_at off bs (pre ++ rest) ≡ some (pre ++ (bs ++ drop n rest))
unfolding put_at
put_at-append pre bs rest off n hp hb h = ground (
  arith,
  length-append pre rest,
  take-append off pre rest hp,
  drop-append off pre rest hp,
  drop-drop n off (pre ++ rest),
)

pub length-coord_bytes : (pkt : CoordPacket) → length (coord_bytes pkt) ≡ 16
length-coord_bytes pkt = omega (
  arith,
  length-append (put_bytes 8 pkt.lng) (put_bytes 8 pkt.lat),
  length-put_bytes 8 pkt.lng,
  length-put_bytes 8 pkt.lat,
)

pub encode_coord_lem :
    (dst : List ℕ) (pkt : CoordPacket)
    → 16 ≤ length dst
    → encode_coord dst pkt ≡ some (coord_bytes pkt ++ drop 16 dst)
unfolding encode_coord
encode_coord_lem dst pkt h =
    rw
      (put_at-append [] (put_bytes 8 pkt.lng) dst 0 8 refl (length-put_bytes 8 pkt.lng)
        (omega arith))
      (put_at-append (put_bytes 8 pkt.lng) (put_bytes 8 pkt.lat) (drop 8 dst) 8 8
          (length-put_bytes 8 pkt.lng) (length-put_bytes 8 pkt.lat)
          (omega (arith, length-drop 8 dst))
        ∙ ap some (
            ap (λ t. put_bytes 8 pkt.lng ++ (put_bytes 8 pkt.lat ++ t)) (drop-drop 8 8 dst)
            ∙ sym (append_assoc (put_bytes 8 pkt.lng) (put_bytes 8 pkt.lat) (drop 16 dst))))

abbrev pub IsCoord : CoordPacket → Type 0
IsCoord pkt = IsU64 pkt.lng × IsU64 pkt.lat

pub decode_coord_in_place-coord_bytes :
    (pkt dst : CoordPacket) (rest : List ℕ)
    → IsCoord pkt
    → decode_coord_in_place (coord_bytes pkt ++ rest) dst ≡ ok pkt
unfolding decode_coord_in_place
decode_coord_in_place-coord_bytes pkt dst rest (hx, hy) = ground (
  arith,
  length-append (coord_bytes pkt) rest,
  length-coord_bytes pkt,
  append_assoc (put_bytes 8 pkt.lng) (put_bytes 8 pkt.lat) rest,
  get_bytes_field [] (put_bytes 8 pkt.lat ++ rest) 8 pkt.lng 0 8 hx refl refl,
  get_bytes_field (put_bytes 8 pkt.lng) rest 8 pkt.lat 8 16 hy (length-put_bytes 8 pkt.lng) refl,
)

-- Encoding a packet of two 64-bit patterns into a buffer of 16 bytes or more and decoding that buffer
-- gives the packet back, and leaves the bytes behind the first 16 alone.
pub decode-encode_coord :
    (buf : List ℕ) (pkt dst : CoordPacket)
    → 16 ≤ length buf
    → IsCoord pkt
    → (out : List ℕ) × (encode_coord buf pkt ≡ some out)
      × (decode_coord_in_place out dst ≡ ok pkt)
      × (drop 16 out ≡ drop 16 buf)
decode-encode_coord buf pkt dst h w = (
  coord_bytes pkt ++ drop 16 buf,
  encode_coord_lem buf pkt h,
  decode_coord_in_place-coord_bytes pkt dst (drop 16 buf) w,
  drop-append 16 (coord_bytes pkt) (drop 16 buf) (length-coord_bytes pkt),
)

-- The two ways that decoding can end.
pub decode_coord_in_place_fields :
    (bytes : List ℕ) (dst pkt : CoordPacket)
    → decode_coord_in_place bytes dst ≡ ok pkt
    → (16 ≤ length bytes)
      × (pkt.lng ≡ get_bytes (slice 0 8 bytes))
      × (pkt.lat ≡ get_bytes (slice 8 16 bytes))
unfolding decode_coord_in_place
decode_coord_in_place_fields bytes dst pkt e = ground arith

coord_bytes-decode :
    (bytes : List ℕ) (dst pkt : CoordPacket)
    → All IsByte bytes
    → length bytes ≡ 16
    → decode_coord_in_place bytes dst ≡ ok pkt
    → coord_bytes pkt ≡ bytes
coord_bytes-decode bytes dst pkt hb hl e =
    let (_, ex, ey) = decode_coord_in_place_fields bytes dst pkt e in
    ap (λ v. put_bytes 8 v ++ put_bytes 8 pkt.lat) ex
    ∙ ap (λ v. put_bytes 8 (get_bytes (slice 0 8 bytes)) ++ put_bytes 8 v) ey
    ∙ ap (λ t. t ++ put_bytes 8 (get_bytes (slice 8 16 bytes)))
        (put_bytes-slice 0 8 8 bytes hb refl (omega arith))
    ∙ ap (λ t. take 8 bytes ++ t) (put_bytes-slice 8 16 8 bytes hb refl (omega arith))
    ∙ ap (λ t. take 8 bytes ++ t) (take_all 8 (drop 8 bytes) (omega (arith, length-drop 8 bytes)))
    ∙ take-append-drop 8 bytes

-- Sixteen bytes are exactly the two fields: encoding what was decoded from them, into a buffer of
-- sixteen bytes, writes the same bytes.
pub encode-decode_coord :
    (bytes buf : List ℕ) (dst pkt : CoordPacket)
    → All IsByte bytes
    → length bytes ≡ 16
    → length buf ≡ 16
    → decode_coord_in_place bytes dst ≡ ok pkt
    → encode_coord buf pkt ≡ some bytes
encode-decode_coord bytes buf dst pkt hb hl hk e =
    encode_coord_lem buf pkt (omega arith)
    ∙ ap some (
        ap (λ t. coord_bytes pkt ++ t) (drop_all 16 buf (omega arith))
        ∙ append-nil (coord_bytes pkt)
        ∙ coord_bytes-decode bytes dst pkt hb hl e)
