-- ===== src/Geofence/Fence/Ray.antt =====
-- The ray test of a polygon depends on the ring of its vertices, not on where the list begins.
use aerocast.Prelude.{
  ℕ, ◌+◌, ◌≡◌, ◌∙◌, refl, sym, ap, Bool, false, not, xor, List, [], ◌∷◌, ◌++◌, length,
  length-append, append-nil, append_assoc, ltb, ◌%◌, ◌==◌, if◌then◌else◌, arith,
}
use aerocast.Float
use aerocast.Geofence.Fence.{
  Vertex, Polygon, crosses, contains_loop, last_of, ring_contains, polygon_contains,
}

module _ (lat lng : ℕ) where
  -- Whether an odd number of the edges of this open chain are crossed.
  parity : Vertex → List Vertex → Bool
  parity vj [] = false
  parity vj (vi ∷ vs) = xor (crosses lat lng vi vj) (parity vi vs)

  contains_loop-parity :
      (vj : Vertex) (vs : List Vertex) (inside : Bool)
      → contains_loop lat lng vj vs inside ≡ xor inside (parity vj vs)
  unfolding contains_loop parity
  contains_loop-parity vj [] inside = ground arith
  contains_loop-parity vj (vi ∷ vs) inside =
      ground
        (arith, contains_loop-parity vi vs (if crosses lat lng vi vj then not inside else inside))

  parity_end :
      (vj : Vertex) (vs : List Vertex) (w : Vertex)
      → parity vj (vs ++ (w ∷ [])) ≡ xor (crosses lat lng w (last_of vj vs)) (parity vj vs)
  unfolding parity
  parity_end vj [] w = refl
  parity_end vj (vi ∷ vs) w = ground (arith, parity_end vi vs w)

  last_of_end : (v : Vertex) (vs : List Vertex) (w : Vertex) → last_of v (vs ++ (w ∷ [])) ≡ w
  last_of_end v [] w = refl
  last_of_end v (u ∷ vs) w = last_of_end u vs w

  ring_contains-parity :
      (v : Vertex) (vs : List Vertex)
      → ring_contains lat lng (v ∷ vs) ≡ parity (last_of v vs) (v ∷ vs)
  unfolding ring_contains
  ring_contains-parity v vs = ground (arith, contains_loop-parity (last_of v vs) (v ∷ vs) false)

  ring_contains_rotate :
      (v : Vertex) (vs : List Vertex)
      → ring_contains lat lng (vs ++ (v ∷ [])) ≡ ring_contains lat lng (v ∷ vs)
  unfolding parity
  ring_contains_rotate v [] = refl
  ring_contains_rotate v (w ∷ vs) =
      ring_contains-parity w (vs ++ (v ∷ []))
      ∙ ap (λ u. parity u (w ∷ (vs ++ (v ∷ [])))) (last_of_end w vs v)
      ∙ parity_end v (w ∷ vs) v
      ∙ sym (ring_contains-parity v (w ∷ vs))

-- Where the edge has the point's latitude: its longitude by the slope of the edge.
abbrev pub meeting : ℕ → Vertex → Vertex → ℕ
meeting lat vi vj =
    Float.add
      (Float.div (Float.mul (Float.sub vj.lng vi.lng) (Float.sub lat vi.lat))
        (Float.sub vj.lat vi.lat))
      vi.lng

-- How many edges of a chain are crossed.
abbrev pub crossings : ℕ → ℕ → Vertex → List Vertex → ℕ
crossings lat lng vj [] = 0
crossings lat lng vj (vi ∷ vs) = (if crosses lat lng vi vj then 1 else 0) + crossings lat lng vi vs

parity-crossings :
    (lat lng : ℕ) (vj : Vertex) (vs : List Vertex)
    → parity lat lng vj vs ≡ (crossings lat lng vj vs % 2 == 1)
unfolding parity
parity-crossings lat lng vj [] = refl
parity-crossings lat lng vj (vi ∷ vs) = ground (arith, parity-crossings lat lng vi vs)

ring_contains_swap :
    (lat lng : ℕ) (xs ys : List Vertex)
    → ring_contains lat lng (xs ++ ys) ≡ ring_contains lat lng (ys ++ xs)
ring_contains_swap lat lng [] ys = ap (ring_contains lat lng) (sym (append-nil ys))
ring_contains_swap lat lng (v ∷ xs) ys =
    sym (ring_contains_rotate lat lng v (xs ++ ys))
    ∙ ap (ring_contains lat lng) (append_assoc xs ys (v ∷ []))
    ∙ ring_contains_swap lat lng xs (ys ++ (v ∷ []))
    ∙ ap (ring_contains lat lng) (append_assoc ys (v ∷ []) xs)

-- A polygon of three or more vertices contains a point exactly if a ray from it crosses an odd
-- number of the polygon's edges, the one from the last vertex to the first included; a polygon of
-- fewer vertices contains nothing.
pub polygon_contains-crossings :
    (p : Polygon) (v : Vertex) (vs : List Vertex) (lat lng : ℕ)
    → p.vertices ≡ v ∷ vs
    → polygon_contains p lat lng ≡ (
        if ltb (length (v ∷ vs)) 3
        then false
        else crossings lat lng (last_of v vs) (v ∷ vs) % 2 == 1)
unfolding polygon_contains
polygon_contains-crossings p v vs lat lng e =
    ground
      (arith, ring_contains-parity lat lng v vs, parity-crossings lat lng (last_of v vs) (v ∷ vs))

-- Two polygons whose vertices are the same ring, listed from different starts, contain the same
-- points.
pub polygon_contains_rotate :
    (p q : Polygon) (xs ys : List Vertex) (lat lng : ℕ)
    → p.vertices ≡ xs ++ ys
    → q.vertices ≡ ys ++ xs
    → polygon_contains p lat lng ≡ polygon_contains q lat lng
unfolding polygon_contains
polygon_contains_rotate p q xs ys lat lng ep eq = ground (
  arith,
  ring_contains_swap lat lng xs ys,
  ap length ep,
  ap length eq,
  length-append xs ys,
  length-append ys xs,
)

-- Whether the edge from vi to vj meets the ray from the point to the east: one end lies above the point and
-- the other does not, and the point lies west of where the edge has the point's latitude.
abbrev pub meets : ℕ → ℕ → Vertex → Vertex → Bool
meets lat lng vi vj =
    if Float.lt lat vi.lat
    then (if Float.lt lat vj.lat then false else Float.lt lng (meeting lat vi vj))
    else (if Float.lt lat vj.lat then Float.lt lng (meeting lat vi vj) else false)

-- How many edges of a chain from vj on the ray meets.
abbrev pub meetings : ℕ → ℕ → Vertex → List Vertex → ℕ
meetings lat lng vj [] = 0
meetings lat lng vj (vi ∷ vs) = (if meets lat lng vi vj then 1 else 0) + meetings lat lng vi vs

crosses-meets : (lat lng : ℕ) (vi vj : Vertex) → crosses lat lng vi vj ≡ meets lat lng vi vj
unfolding crosses
crosses-meets lat lng vi vj = ground arith

crossings-meetings :
    (lat lng : ℕ) (vj : Vertex) (vs : List Vertex)
    → crossings lat lng vj vs ≡ meetings lat lng vj vs
crossings-meetings lat lng vj [] = refl
crossings-meetings lat lng vj (vi ∷ vs) =
    rw (crosses-meets lat lng vi vj)
      (ap (λ n. (if meets lat lng vi vj then 1 else 0) + n) (crossings-meetings lat lng vi vs))

-- A polygon contains a point exactly if it has three or more vertices and the ray from the point to the
-- east meets an odd number of its edges, the one between its last vertex w and its first included.
pub polygon_contains-meetings :
    (p : Polygon) (vs : List Vertex) (w : Vertex) (lat lng : ℕ)
    → p.vertices ≡ vs ++ (w ∷ [])
    → polygon_contains p lat lng
      ≡ (if ltb (length vs) 2 then false else meetings lat lng w (vs ++ (w ∷ [])) % 2 == 1)
polygon_contains-meetings p [] w lat lng e =
    polygon_contains-crossings p w [] lat lng e ∙ ground arith
polygon_contains-meetings p (v ∷ vs) w lat lng e =
    polygon_contains-crossings p v (vs ++ (w ∷ [])) lat lng e
    ∙ rw (last_of_end lat lng v vs w) (
        rw (crossings-meetings lat lng w (v ∷ (vs ++ (w ∷ []))))
          (ground (arith, length-append vs (w ∷ []))))
