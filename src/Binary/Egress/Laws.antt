-- ===== src/Binary/Egress/Laws.antt =====
-- The egress buffer never panics, and its frame decodes to the records that went in.
use aerocast.Prelude.{
  ℕ, zero, suc, ◌+◌, ◌*◌, ◌/◌, ◌%◌, ◌≤◌, ◌≡◌, ◌≢◌, ◌⊎◌, ◌∙◌, refl, sym, ap, List, [], ◌∷◌, ◌++◌,
  length, some, ltb, if◌then◌else◌, arith, All, length-append, append_assoc, append-nil,
}
use aerocast.Binary.LittleEndian.{
  get_bytes, put_bytes, slice, IsU32, IsU64, get_bytes_field, length-put_bytes,
}
use aerocast.Binary.Codec.{ok, err, packet_wrong_size}
use aerocast.Binary.Egress.{
  EgressRecord, EgressBuffer, get_egress_buffer, record_bytes, append, append_all, record_at,
  decode_loop, decode_egress_frame,
}

-- Twenty bytes a record, within the capacity, and room for one record: every buffer that the pool
-- makes or takes back.
pub record IsBuffer (b : EgressBuffer) : Type 0 where
  pub counted : length b.bytes ≡ 20 * b.n
  pub within : length b.bytes ≤ b.cap
  pub roomy : 20 ≤ b.cap

pub length-record_bytes : (r : EgressRecord) → length (record_bytes r) ≡ 20
unfolding record_bytes
length-record_bytes r = omega (
  arith,
  length-append (put_bytes 4 r.entity_id) (put_bytes 8 r.lat ++ put_bytes 8 r.lng),
  length-append (put_bytes 8 r.lat) (put_bytes 8 r.lng),
  length-put_bytes 4 r.entity_id,
  length-put_bytes 8 r.lat,
  length-put_bytes 8 r.lng,
)

abbrev pub frame : List EgressRecord → List ℕ
frame [] = []
frame (r ∷ rs) = record_bytes r ++ frame rs

-- The record that Append adds, and the capacity that it leaves.
append_step :
    (b : EgressBuffer) (r : EgressRecord)
    → IsBuffer b
    → (b' : EgressBuffer) × (append b r ≡ some b')
      × IsBuffer b'
      × (b'.bytes ≡ b.bytes ++ record_bytes r)
      × (b'.n ≡ b.n + 1)
unfolding append
append_step b r v = (
  record {
    bytes = b.bytes ++ record_bytes r;
    n = b.n + 1;
    cap = if ltb b.cap (length b.bytes + 20) then b.cap * 2 else b.cap;
  },
  ground arith,
  record { counted = ground (arith, grown); within = ground (arith, grown); roomy = ground arith },
  refl,
  refl,
)
  where
    grown : length (b.bytes ++ record_bytes r) ≡ length b.bytes + 20
    grown = omega (arith, length-append b.bytes (record_bytes r), length-record_bytes r)

append_all_step :
    (b : EgressBuffer) (rs : List EgressRecord)
    → IsBuffer b
    → (b' : EgressBuffer) × (append_all b rs ≡ some b')
      × IsBuffer b'
      × (b'.bytes ≡ b.bytes ++ frame rs)
      × (b'.n ≡ b.n + length rs)
unfolding append_all
append_all_step b [] v = (b, refl, v, sym (append-nil b.bytes), omega arith)
append_all_step b (r ∷ rs) v =
    let (b', e, v', eb, en) = append_step b r v in
    let (c, e', w, eb', en') = append_all_step b' rs v' in
    (
      c,
      rw (e, append_all) e',
      w,
      eb' ∙ ap (λ t. t ++ frame rs) eb ∙ append_assoc b.bytes (record_bytes r) (frame rs),
      omega arith,
    )

abbrev pub IsRecord : EgressRecord → Type 0
IsRecord r = IsU32 r.entity_id × IsU64 r.lat × IsU64 r.lng

record_at-append :
    (pre rest : List ℕ) (off : ℕ) (r : EgressRecord)
    → IsRecord r
    → length pre ≡ off
    → record_at off (pre ++ (record_bytes r ++ rest)) ≡ r
unfolding record_at record_bytes
record_at-append pre rest off r (hi, ha, hb) hp = ground (arith, read_id, read_lat, read_lng)
  where
    ids : List ℕ
    ids = put_bytes 4 r.entity_id

    lats : List ℕ
    lats = put_bytes 8 r.lat

    lngs : List ℕ
    lngs = put_bytes 8 r.lng

    bytes : List ℕ
    bytes = pre ++ ((ids ++ (lats ++ lngs)) ++ rest)

    flat : bytes ≡ pre ++ (ids ++ (lats ++ (lngs ++ rest)))
    flat = simp append_assoc

    read_id : get_bytes (slice off (off + 4) bytes) ≡ r.entity_id
    read_id = rw flat (get_bytes_field pre _ 4 r.entity_id off (off + 4) hi hp (omega arith))

    read_lat : get_bytes (slice (off + 4) (off + 12) bytes) ≡ r.lat
    read_lat =
        rw (flat, ← append_assoc pre ids (lats ++ (lngs ++ rest)))
          (get_bytes_field (pre ++ ids) _ 8 r.lat (off + 4) (off + 12) ha
            (omega (arith, length-append pre ids, length-put_bytes 4 r.entity_id)) (omega arith))

    read_lng : get_bytes (slice (off + 12) (off + 20) bytes) ≡ r.lng
    read_lng =
        rw
          (
            flat,
            ← append_assoc ids lats (lngs ++ rest),
            ← append_assoc pre (ids ++ lats) (lngs ++ rest),
          )
          (get_bytes_field (pre ++ (ids ++ lats)) rest 8 r.lng (off + 12) (off + 20) hb
            (omega (
              arith,
              length-append pre (ids ++ lats),
              length-append ids lats,
              length-put_bytes 4 r.entity_id,
              length-put_bytes 8 r.lat,
            ))
            (omega arith))

decode_loop-frame :
    (rs : List EgressRecord) (i : ℕ) (pre : List ℕ)
    → All IsRecord rs
    → length pre ≡ i * 20
    → decode_loop (length rs) i (pre ++ frame rs) ≡ rs
unfolding decode_loop
decode_loop-frame [] i pre h hp = refl
decode_loop-frame (r ∷ rs) i pre h hp = rw (record_at-append pre (frame rs) (i * 20) r h.0 hp) (
    ap (λ t. r ∷ decode_loop (length rs) (i + 1) t)
      (sym (append_assoc pre (record_bytes r) (frame rs)))
    ∙ ap (λ t. r ∷ t)
        (decode_loop-frame rs (i + 1) (pre ++ record_bytes r) h.1
          (omega (arith, length-append pre (record_bytes r), length-record_bytes r))))

length-frame : (rs : List EgressRecord) → length (frame rs) ≡ 20 * length rs
length-frame [] = refl
length-frame (r ∷ rs) =
    omega (arith, length-append (record_bytes r) (frame rs), length-record_bytes r, length-frame rs)

decode_egress_frame-frame :
    (rs : List EgressRecord) → All IsRecord rs → decode_egress_frame (frame rs) ≡ ok rs
unfolding decode_egress_frame
decode_egress_frame-frame rs h =
    let size = length-frame rs in
    let whole : length (frame rs) % 20 ≡ 0 = omega arith in
    let count : length (frame rs) / 20 ≡ length rs = omega arith in
    rw (whole, count) (ap ok (decode_loop-frame rs 0 [] h (omega arith)))

-- From any buffer that the pool hands out, with room for a record, appending records never panics; the buffer then holds
-- twenty bytes for each record within its capacity, Len counts the records, and its bytes decode to
-- exactly the records that were appended, in their order.
pub append_all-decode :
    (recycled : EgressBuffer) (rs : List EgressRecord)
    → 20 ≤ recycled.cap
    → All IsRecord rs
    → (b : EgressBuffer) × (append_all (get_egress_buffer recycled) rs ≡ some b)
      × IsBuffer b
      × (b.n ≡ length rs)
      × (decode_egress_frame b.bytes ≡ ok rs)
unfolding get_egress_buffer
append_all-decode recycled rs room h =
    let (b, e, v, eb, en) = append_all_step (get_egress_buffer recycled) rs start in
    (b, e, v, en ∙ omega arith, ap decode_egress_frame eb ∙ decode_egress_frame-frame rs h)
  where
    start : IsBuffer (get_egress_buffer recycled)
    start = record { counted = omega arith; within = omega arith; roomy = room }

-- The buffer after appending to an empty one.
pub append_all-frame :
    (recycled : EgressBuffer) (rs : List EgressRecord)
    → 20 ≤ recycled.cap
    → (b : EgressBuffer) × (append_all (get_egress_buffer recycled) rs ≡ some b)
      × (b.bytes ≡ frame rs)
      × (b.n ≡ length rs)
unfolding get_egress_buffer
append_all-frame recycled rs room =
    let (b, e, v, eb, en) =
      append_all_step (get_egress_buffer recycled) rs
        (record { counted = omega arith; within = omega arith; roomy = room }) in
    (b, e, eb, en ∙ omega arith)

length-decode_loop : (rounds i : ℕ) (bytes : List ℕ) → length (decode_loop rounds i bytes) ≡ rounds
unfolding decode_loop
length-decode_loop zero i bytes = refl
length-decode_loop (suc rounds) i bytes = ap suc (length-decode_loop rounds (i + 1) bytes)

-- A frame is refused exactly if its length is no multiple of twenty; else it gives one record for
-- each twenty bytes.
pub decode_egress_frame-length :
    (bytes : List ℕ)
    → ((length bytes % 20 ≢ 0) × (decode_egress_frame bytes ≡ err packet_wrong_size))
      ⊎ ((rs : List EgressRecord) × (decode_egress_frame bytes ≡ ok rs)
          × (length bytes ≡ 20 * length rs))
unfolding decode_egress_frame
decode_egress_frame-length bytes = grind (arith, length-decode_loop (length bytes / 20) 0 bytes)
