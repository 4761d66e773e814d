-- ===== src/Binary/Subscription/Laws.antt =====
-- Subscription frames: what is accepted, and the round trip.
use aerocast.Prelude.{
  ℕ, suc, ◌+◌, ◌≤◌, ◌<◌, ◌≡◌, ◌∙◌, refl, sym, ap, true, ◌&&◌, ◌||◌, List, [], ◌∷◌, ◌++◌, length,
  replicate, Option, none, some, leb, ◌==◌, if◌then◌else◌, arith, length-append, append_assoc,
  append-nil,
}
use aerocast.Binary.LittleEndian.{
  get_bytes, put_bytes, slice, IsU64, get_bytes_field, length-put_bytes,
}
use aerocast.Binary.Codec.{Result, ok, err, sub_frame_too_short, unknown_opcode, put_at}
use aerocast.Binary.Codec.Laws.{put_at-append}
use aerocast.Binary.Subscription.{SubFrame, decode_sub_frame, encode_subscribe, op_subscribe}

-- The least length of a frame with this opcode, as wire.go lists the opcodes.
abbrev pub min_length : ℕ → Option ℕ
min_length op =
    if op == 1 || op == 2
    then some 17
    else if op == 3 || op == 4
    then some 5
    else if op == 255
    then some 1
    else none

-- The answer that wire.go's table of opcodes asks for, to a frame of n bytes with opcode op.
abbrev pub Answers : ℕ → ℕ → Option ℕ → Result SubFrame → Type 0
Answers op n none r = r ≡ err unknown_opcode
Answers op n (some m) (ok f) =
    (m ≤ n) × (f.opcode ≡ op) × (f.has_radius ≡ ((op == 1 || op == 2) && leb 25 n))
Answers op n (some m) (err e) = (n < m) × (e ≡ sub_frame_too_short)

-- An opcode that wire.go does not list is refused as unknown. A listed one is refused as too short
-- exactly below its least length, and else accepted under that opcode, with a radius exactly if it
-- is an area frame of 25 bytes or more. The empty frame is too short.
pub decode_sub_frame-Answers :
    (op : ℕ) (rest : List ℕ)
    → (decode_sub_frame [] ≡ err sub_frame_too_short)
      × Answers op (length (op ∷ rest)) (min_length op) (decode_sub_frame (op ∷ rest))
unfolding decode_sub_frame
decode_sub_frame-Answers op rest = ground arith

abbrev subscribe_bytes : ℕ → ℕ → ℕ → List ℕ
subscribe_bytes lat lng radius_m =
    (op_subscribe ∷ []) ++ (put_bytes 8 lng ++ (put_bytes 8 lat ++ (put_bytes 8 radius_m ++ [])))

two_fields : (v w : ℕ) → suc (length (put_bytes 8 v ++ put_bytes 8 w)) ≡ 17
two_fields v w = omega (
  arith,
  length-append (put_bytes 8 v) (put_bytes 8 w),
  length-put_bytes 8 v,
  length-put_bytes 8 w,
)

subscribe_bytes-append :
    (lat lng radius_m : ℕ) (more : List ℕ)
    → subscribe_bytes lat lng radius_m ++ more
      ≡ (op_subscribe ∷ [])
        ++ (put_bytes 8 lng ++ (put_bytes 8 lat ++ (put_bytes 8 radius_m ++ more)))
subscribe_bytes-append lat lng radius_m more = simp (append_assoc, append-nil)

length-subscribe_bytes :
    (lat lng radius_m : ℕ) (more : List ℕ)
    → length (subscribe_bytes lat lng radius_m ++ more) ≡ 25 + length more
length-subscribe_bytes lat lng radius_m more =
    ap length (subscribe_bytes-append lat lng radius_m more)
    ∙ omega (
      arith,
      length-append (put_bytes 8 lng) (put_bytes 8 lat ++ (put_bytes 8 radius_m ++ more)),
      length-append (put_bytes 8 lat) (put_bytes 8 radius_m ++ more),
      length-append (put_bytes 8 radius_m) more,
      length-put_bytes 8 lng,
      length-put_bytes 8 lat,
      length-put_bytes 8 radius_m,
    )

encode_subscribe_lem :
    (lat lng radius_m : ℕ)
    → encode_subscribe lat lng radius_m ≡ some (subscribe_bytes lat lng radius_m)
unfolding encode_subscribe
encode_subscribe_lem lat lng radius_m =
    rw
      (put_at-append (op_subscribe ∷ []) (put_bytes 8 lng) (replicate 24 0) 1 8 refl
        (length-put_bytes 8 lng) (omega arith))
      (rw
        (put_at-append ((op_subscribe ∷ []) ++ put_bytes 8 lng) (put_bytes 8 lat) (replicate 16 0) 9
          8 (ap suc (length-put_bytes 8 lng)) (length-put_bytes 8 lat) (omega arith))
        (ap (λ t. put_at 17 (put_bytes 8 radius_m) (op_subscribe ∷ t))
            (sym (append_assoc (put_bytes 8 lng) (put_bytes 8 lat) (replicate 8 0)))
          ∙ put_at-append (op_subscribe ∷ (put_bytes 8 lng ++ put_bytes 8 lat))
              (put_bytes 8 radius_m) (replicate 8 0) 17 8 (two_fields lng lat)
              (length-put_bytes 8 radius_m) (omega arith)
          ∙ ap (λ t. some (op_subscribe ∷ t)) (append_assoc (put_bytes 8 lng) (put_bytes 8 lat) _)))

-- EncodeSubscribe of three 64-bit patterns never panics, and the frame decodes to the subscription, also with more bytes
-- behind it.
pub decode-encode_subscribe :
    (lat lng radius_m : ℕ) (more : List ℕ)
    → IsU64 lat
    → IsU64 lng
    → IsU64 radius_m
    → (frame : List ℕ) × (encode_subscribe lat lng radius_m ≡ some frame)
      × (length frame ≡ 25)
      × (decode_sub_frame (frame ++ more)
          ≡ ok (record {
            opcode = op_subscribe;
            center_lat = lat;
            center_lng = lng;
            radius_m = radius_m;
            has_radius = true;
            entity_id = 0;
          }))
unfolding decode_sub_frame
decode-encode_subscribe lat lng radius_m more ha hb hc = (
  subscribe_bytes lat lng radius_m,
  encode_subscribe_lem lat lng radius_m,
  length_frame,
  ground (arith, length-subscribe_bytes lat lng radius_m more, read_lng, read_lat, read_radius),
)
  where
    length_frame : length (subscribe_bytes lat lng radius_m) ≡ 25
    length_frame =
        ap length (sym (append-nil (subscribe_bytes lat lng radius_m)))
        ∙ length-subscribe_bytes lat lng radius_m []

    frame : List ℕ
    frame = subscribe_bytes lat lng radius_m ++ more

    read_lng : get_bytes (slice 1 9 frame) ≡ lng
    read_lng =
        rw (subscribe_bytes-append lat lng radius_m more)
          (get_bytes_field (op_subscribe ∷ []) _ 8 lng 1 9 hb refl refl)

    read_lat : get_bytes (slice 9 17 frame) ≡ lat
    read_lat = rw (subscribe_bytes-append lat lng radius_m more) (
        get_bytes_field (op_subscribe ∷ put_bytes 8 lng) _ 8 lat 9 17 ha
          (ap suc (length-put_bytes 8 lng)) refl)

    read_radius : get_bytes (slice 17 25 frame) ≡ radius_m
    read_radius = rw (subscribe_bytes-append lat lng radius_m more) (
        rw (← append_assoc (put_bytes 8 lng) (put_bytes 8 lat) (put_bytes 8 radius_m ++ more)) (
          get_bytes_field (op_subscribe ∷ (put_bytes 8 lng ++ put_bytes 8 lat)) _ 8 radius_m 17 25
            hc (two_fields lng lat) refl))
