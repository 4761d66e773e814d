-- ===== src/Binary/LittleEndian.antt =====
-- What pkg/binary uses of Go's encoding/binary.LittleEndian.
use aerocast.Prelude.{
  ℕ, zero, suc, ◌+◌, ◌-◌, ◌*◌, ◌/◌, ◌%◌, ◌^◌, ◌≤◌, ◌<◌, ◌≡◌, refl, ap, ◌∙◌, List, [], ◌∷◌, ◌++◌,
  arith, length, take, drop, All, sym, All-take, All-drop, length-take, length-drop, take-append,
  drop-append,
}
use native.Mathlib.Nat.{pow-suc}

abbrev pub IsByte : ℕ → Type 0
IsByte b = b < 256

abbrev pub IsU32 : ℕ → Type 0
IsU32 v = v < 2 ^ 32

abbrev pub IsU64 : ℕ → Type 0
IsU64 v = v < 2 ^ 64

-- Uint32 and Uint64 read their slice, lowest byte first.
unfoldable pub get_bytes : List ℕ → ℕ
get_bytes [] = 0
get_bytes (b ∷ bs) = b + 256 * get_bytes bs

-- PutUint32 and PutUint64 write 4 and 8 bytes.
unfoldable pub put_bytes : ℕ → ℕ → List ℕ
put_bytes zero v = []
put_bytes (suc n) v = v % 256 ∷ put_bytes n (v / 256)

-- The slice `s[from:to]`, for bounds within `s`.
abbrev pub slice : ℕ → ℕ → List ℕ → List ℕ
slice from to s = take (to - from) (drop from s)

pub length-put_bytes : (n v : ℕ) → length (put_bytes n v) ≡ n
unfolding put_bytes
length-put_bytes zero v = refl
length-put_bytes (suc n) v = ap suc (length-put_bytes n (v / 256))

pub put_bytes-IsByte : (n v : ℕ) → All IsByte (put_bytes n v)
unfolding put_bytes
put_bytes-IsByte zero v = tt
put_bytes-IsByte (suc n) v = (omega arith, put_bytes-IsByte n (v / 256))

pub get_bytes-put_bytes : (n v : ℕ) → v < 256 ^ n → get_bytes (put_bytes n v) ≡ v
unfolding get_bytes put_bytes
get_bytes-put_bytes zero v h = omega arith
get_bytes-put_bytes (suc n) v h =
    omega (arith, get_bytes-put_bytes n (v / 256) (omega (arith, pow-suc 256 n)))

pub put_bytes-get_bytes : (bs : List ℕ) → All IsByte bs → put_bytes (length bs) (get_bytes bs) ≡ bs
unfolding get_bytes put_bytes
put_bytes-get_bytes [] h = refl
put_bytes-get_bytes (b ∷ bs) h =
    let low : (b + 256 * get_bytes bs) % 256 ≡ b = omega arith in
    let high : (b + 256 * get_bytes bs) / 256 ≡ get_bytes bs = omega arith in
    rw (low, high, put_bytes-get_bytes bs h.1)

pub get_bytes-lt : (bs : List ℕ) → All IsByte bs → get_bytes bs < 256 ^ length bs
unfolding get_bytes
get_bytes-lt [] h = omega arith
get_bytes-lt (b ∷ bs) h = omega (arith, get_bytes-lt bs h.1, pow-suc 256 (length bs))

-- The slice behind `pre` that holds `field`.
pub slice_field :
    (pre field rest : List ℕ) (from to : ℕ)
    → length pre ≡ from
    → length field ≡ to - from
    → slice from to (pre ++ (field ++ rest)) ≡ field
slice_field pre field rest from to hp hf =
    rw (drop-append from pre (field ++ rest) hp) (take-append (to - from) field rest hf)

pub get_bytes_field :
    (pre rest : List ℕ) (n v from to : ℕ)
    → v < 256 ^ n
    → length pre ≡ from
    → n ≡ to - from
    → get_bytes (slice from to (pre ++ (put_bytes n v ++ rest))) ≡ v
get_bytes_field pre rest n v from to hv hp hn =
    rw (slice_field pre (put_bytes n v) rest from to hp (length-put_bytes n v ∙ hn))
      (get_bytes-put_bytes n v hv)

pub put_bytes-slice :
    (from to n : ℕ) (s : List ℕ)
    → All IsByte s
    → from + n ≡ to
    → to ≤ length s
    → put_bytes n (get_bytes (slice from to s)) ≡ slice from to s
put_bytes-slice from to n s h e le =
    ap (λ k. put_bytes k (get_bytes (slice from to s))) (sym size)
    ∙ put_bytes-get_bytes (slice from to s)
        (All-take IsByte (to - from) _ (All-drop IsByte from s h))
  where
    size : length (slice from to s) ≡ n
    size = omega (arith, length-take (to - from) (drop from s), length-drop from s)

-- A slice is no longer than its bounds say, so a field of n bytes is below 256 ^ n.
pub slice-IsByte : (from to : ℕ) (s : List ℕ) → All IsByte s → All IsByte (slice from to s)
slice-IsByte from to s h = All-take IsByte (to - from) _ (All-drop IsByte from s h)
