-- ===== src/Spatial/Hash/Loops.antt =====
-- The two loops of ShardsForRadius, and what they mark as seen.
use aerocast.Prelude.{
  ℕ, zero, suc, ◌<◌, ◌≡◌, ◌⊎◌, inl, inr, true, List, [], ◌∷◌, All, arith, ◌==◌, if◌then◌else◌,
}
use aerocast.Prelude.Int.{ℤ, pos, ◌+ℤ◌, int_laws}
use aerocast.Prelude.Count.{count, count-append, count_one}
use aerocast.Spatial.Hash.{Found, visit, cols_loop, rows_loop, low4, cell_key}

-- `seen` marks exactly the keys in `result`, which has each once.
abbrev pub Agrees : Found → Type 0
Agrees s = (k : ℕ) → count k s.result ≡ (if s.seen k then 1 else 0)

visit-Agrees : (s : Found) (key : ℕ) → Agrees s → Agrees (visit s key)
unfolding visit
visit-Agrees s key h k =
    ground (arith, h k, h key, count-append k s.result (key ∷ []), count_one k key)

cols_loop-Agrees : (n x : ℕ) (iy : ℤ) (s : Found) → Agrees s → Agrees (cols_loop n x iy s)
unfolding cols_loop
cols_loop-Agrees zero x iy s h = h
cols_loop-Agrees (suc n) x iy s h =
    cols_loop-Agrees n x (iy +ℤ pos 1) (visit s (cell_key x (low4 iy)))
      (visit-Agrees s (cell_key x (low4 iy)) h)

pub rows_loop-Agrees :
    (n : ℕ) (ix : ℤ) (cols : ℕ) (iy : ℤ) (s : Found) → Agrees s → Agrees (rows_loop n ix cols iy s)
unfolding rows_loop
rows_loop-Agrees zero ix cols iy s h = h
rows_loop-Agrees (suc n) ix cols iy s h =
    rows_loop-Agrees n (ix +ℤ pos 1) cols iy (cols_loop cols (low4 ix) iy s)
      (cols_loop-Agrees cols (low4 ix) iy s h)

-- What the loops add to `seen`.
visit-seen : (s : Found) (key k : ℕ) → (visit s key).seen k ≡ (if key == k then true else s.seen k)
unfolding visit
visit-seen s key k = ground arith

-- k is the key of one of n columns of row x, the first at iy.
abbrev pub InRow : ℕ → ℕ → ℤ → ℕ → Type 0
InRow n x iy k = (j : ℕ) × (j < n) × (k ≡ cell_key x (low4 (iy +ℤ pos j)))

-- Every number that stands in the list.
pub All-of_count : {P : ℕ → Type 0} (xs : List ℕ) → ((k : ℕ) → 0 < count k xs → P k) → All P xs
unfolding count
All-of_count [] h = tt
All-of_count (x ∷ xs) h = (h x (ground arith), All-of_count xs (λ k e. h k (omega arith)))

step_index : (i : ℤ) (j : ℕ) → i +ℤ pos 1 +ℤ pos j ≡ i +ℤ pos (suc j)
step_index i j = omega int_laws

zero_index : (i : ℤ) → i +ℤ pos 0 ≡ i
zero_index i = omega int_laws

InRow-suc : (n x : ℕ) (iy : ℤ) (k : ℕ) → InRow n x (iy +ℤ pos 1) k → InRow (suc n) x iy k
InRow-suc n x iy k (j, h, e) = (suc j, omega arith, rw (← step_index iy j) e)

InRow-cases :
    (n x : ℕ) (iy : ℤ) (k : ℕ)
    → InRow (suc n) x iy k
    → (k ≡ cell_key x (low4 iy)) ⊎ InRow n x (iy +ℤ pos 1) k
InRow-cases n x iy k (zero, h, e) = inl (rw (zero_index iy) at e)
InRow-cases n x iy k (suc j, h, e) = inr (j, omega arith, rw (← step_index iy j) at e)

InRow-first : (n x : ℕ) (iy : ℤ) (k : ℕ) → k ≡ cell_key x (low4 iy) → InRow (suc n) x iy k
InRow-first n x iy k e = (0, omega arith, rw (zero_index iy) e)

visit_found : (s : Found) (key k : ℕ) → (visit s key).seen k ≡ true → (s.seen k ≡ true) ⊎ (k ≡ key)
visit_found s key k h = ground (arith, visit-seen s key k)

visit_keeps : (s : Found) (key k : ℕ) → s.seen k ≡ true → (visit s key).seen k ≡ true
visit_keeps s key k h = ground (arith, visit-seen s key k)

visit_marks : (s : Found) (key k : ℕ) → k ≡ key → (visit s key).seen k ≡ true
visit_marks s key k h = ground (arith, visit-seen s key k)

cols_loop_keeps :
    (n x : ℕ) (iy : ℤ) (s : Found) (k : ℕ) → s.seen k ≡ true → (cols_loop n x iy s).seen k ≡ true
unfolding cols_loop
cols_loop_keeps zero x iy s k h = h
cols_loop_keeps (suc n) x iy s k h =
    cols_loop_keeps n x (iy +ℤ pos 1) (visit s (cell_key x (low4 iy))) k
      (visit_keeps s (cell_key x (low4 iy)) k h)

cols_loop_marks :
    (n x : ℕ) (iy : ℤ) (s : Found) (k : ℕ) → InRow n x iy k → (cols_loop n x iy s).seen k ≡ true
unfolding cols_loop
cols_loop_marks zero x iy s k (j, h, e) = absurd (omega arith)
cols_loop_marks (suc n) x iy s k r = elim (InRow-cases n x iy k r) [
  | inl e ↦
      cols_loop_keeps n x (iy +ℤ pos 1) (visit s (cell_key x (low4 iy))) k
        (visit_marks s (cell_key x (low4 iy)) k e)
  | inr r' ↦ cols_loop_marks n x (iy +ℤ pos 1) (visit s (cell_key x (low4 iy))) k r'
]

cols_loop_found :
    (n x : ℕ) (iy : ℤ) (s : Found) (k : ℕ)
    → (cols_loop n x iy s).seen k ≡ true
    → (s.seen k ≡ true) ⊎ InRow n x iy k
unfolding cols_loop
cols_loop_found zero x iy s k h = inl h
cols_loop_found (suc n) x iy s k h =
    elim (cols_loop_found n x (iy +ℤ pos 1) (visit s (cell_key x (low4 iy))) k h) [
      | inl e ↦ elim (visit_found s (cell_key x (low4 iy)) k e) [
        | inl old ↦ inl old
        | inr new ↦ inr (InRow-first n x iy k new)
      ]
      | inr r ↦ inr (InRow-suc n x iy k r)
    ]

-- k is the key of a cell in n rows from ix on and in `cols` columns from iy on.
abbrev pub InBlock : ℕ → ℤ → ℕ → ℤ → ℕ → Type 0
InBlock n ix cols iy k = (i : ℕ) × (i < n) × InRow cols (low4 (ix +ℤ pos i)) iy k

InBlock-suc :
    (n : ℕ) (ix : ℤ) (cols : ℕ) (iy : ℤ) (k : ℕ)
    → InBlock n (ix +ℤ pos 1) cols iy k
    → InBlock (suc n) ix cols iy k
InBlock-suc n ix cols iy k (i, h, r) = (suc i, omega arith, rw (← step_index ix i) r)

InBlock-cases :
    (n : ℕ) (ix : ℤ) (cols : ℕ) (iy : ℤ) (k : ℕ)
    → InBlock (suc n) ix cols iy k
    → InRow cols (low4 ix) iy k ⊎ InBlock n (ix +ℤ pos 1) cols iy k
InBlock-cases n ix cols iy k (zero, h, r) = inl (rw (zero_index ix) at r)
InBlock-cases n ix cols iy k (suc i, h, r) = inr (i, omega arith, rw (← step_index ix i) at r)

rows_loop_keeps :
    (n : ℕ) (ix : ℤ) (cols : ℕ) (iy : ℤ) (s : Found) (k : ℕ)
    → s.seen k ≡ true
    → (rows_loop n ix cols iy s).seen k ≡ true
unfolding rows_loop
rows_loop_keeps zero ix cols iy s k h = h
rows_loop_keeps (suc n) ix cols iy s k h =
    rows_loop_keeps n (ix +ℤ pos 1) cols iy (cols_loop cols (low4 ix) iy s) k
      (cols_loop_keeps cols (low4 ix) iy s k h)

pub rows_loop_marks :
    (n : ℕ) (ix : ℤ) (cols : ℕ) (iy : ℤ) (s : Found) (k : ℕ)
    → InBlock n ix cols iy k
    → (rows_loop n ix cols iy s).seen k ≡ true
unfolding rows_loop
rows_loop_marks zero ix cols iy s k (i, h, r) = absurd (omega arith)
rows_loop_marks (suc n) ix cols iy s k b = elim (InBlock-cases n ix cols iy k b) [
  | inl r ↦
      rows_loop_keeps n (ix +ℤ pos 1) cols iy (cols_loop cols (low4 ix) iy s) k
        (cols_loop_marks cols (low4 ix) iy s k r)
  | inr b' ↦ rows_loop_marks n (ix +ℤ pos 1) cols iy (cols_loop cols (low4 ix) iy s) k b'
]

pub rows_loop_found :
    (n : ℕ) (ix : ℤ) (cols : ℕ) (iy : ℤ) (s : Found) (k : ℕ)
    → (rows_loop n ix cols iy s).seen k ≡ true
    → (s.seen k ≡ true) ⊎ InBlock n ix cols iy k
unfolding rows_loop
rows_loop_found zero ix cols iy s k h = inl h
rows_loop_found (suc n) ix cols iy s k h =
    elim (rows_loop_found n (ix +ℤ pos 1) cols iy (cols_loop cols (low4 ix) iy s) k h) [
      | inl e ↦ elim (cols_loop_found cols (low4 ix) iy s k e) [
        | inl old ↦ inl old
        | inr r ↦ inr (0, omega arith, rw (zero_index ix) r)
      ]
      | inr b ↦ inr (InBlock-suc n ix cols iy k b)
    ]
