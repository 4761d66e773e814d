-- ===== src/Geofence/Store/Index.antt =====
-- The index lists, for each shard, exactly the fences filed under it, in the order of registration.
use aerocast.Prelude.{
  ℕ, ◌+◌, ◌≡◌, ◌∙◌, refl, sym, ap, List, [], ◌∷◌, ◌++◌, length, length-append, get_elem?,
  append-nil, append_assoc, some, Bool, ltb, if◌then◌else◌, arith, ◌≤◌,
}
use aerocast.Prelude.Count.{count}
use aerocast.Prelude.Array.{update}
use aerocast.Float.{Platform}
use aerocast.Spatial.Hash.{shard_key}
use aerocast.Spatial.Hash.Cover.{shards_for_radius-IsDistinct}
use aerocast.Geofence.Fence.{Fence, center, bounding_radius}
use aerocast.Geofence.Store.{
  Store, new_store, register, register_all, index_loop, cells_of, fetch, fences_near,
}

-- Whether a fence is filed under a shard.
abbrev pub covers : Platform → ℕ → Fence → Bool
covers p key f = ltb 0 (count key (cells_of p f))

index_loop_lem :
    (idx : ℕ) (keys : List ℕ) (index : ℕ → List ℕ) (k : ℕ)
    → count k keys ≤ 1
    → index_loop idx keys index k ≡ index k ++ (if ltb 0 (count k keys) then idx ∷ [] else [])
unfolding index_loop count
index_loop_lem idx [] index k h = sym (append-nil (index k))
index_loop_lem idx (key ∷ keys) index k h = ground (
  arith,
  index_loop_lem idx keys (update index key (index key ++ (idx ∷ []))) k,
  append-nil (index key ++ (idx ∷ [])),
)

module _ (p : Platform) (key : ℕ) where
  -- The indices of the fences filed under the shard, the first fence having index i.
  pub positions : ℕ → List Fence → List ℕ
  positions i [] = []
  positions i (f ∷ fs) = if covers p key f then i ∷ positions (i + 1) fs else positions (i + 1) fs

  -- The fences filed under the shard.
  abbrev pub filed : List Fence → List Fence
  filed [] = []
  filed (f ∷ fs) = if covers p key f then f ∷ filed fs else filed fs

  positions_end :
      (i : ℕ) (fs : List Fence) (f : Fence)
      → positions i (fs ++ (f ∷ []))
        ≡ positions i fs ++ (if covers p key f then (i + length fs) ∷ [] else [])
  unfolding positions
  positions_end i [] f = ground (arith)
  positions_end i (g ∷ fs) f = ground (arith, positions_end (i + 1) fs f)

  get_elem?-end :
      (pre : List Fence) (f : Fence) (fs : List Fence)
      → get_elem? (pre ++ (f ∷ fs)) (length pre) ≡ some f
  get_elem?-end [] f fs = refl
  get_elem?-end (g ∷ pre) f fs = get_elem?-end pre f fs

  fetch-positions :
      (pre fs : List Fence) (i : ℕ)
      → length pre ≡ i
      → fetch (pre ++ fs) (positions i fs) ≡ some (filed fs)
  unfolding fetch positions
  fetch-positions pre [] i h = refl
  fetch-positions pre (f ∷ fs) i h = ground (
    arith,
    append_assoc pre (f ∷ []) fs,
    length-append pre (f ∷ []),
    get_elem?-end pre f fs,
    fetch-positions (pre ++ (f ∷ [])) fs (i + 1),
  )

-- The index agrees with the list of fences.
abbrev pub Indexed : Platform → Store → Type 0
Indexed p s = (key : ℕ) → s.index key ≡ positions p key 0 s.fences

register-Indexed : (p : Platform) (s : Store) (f : Fence) → Indexed p s → Indexed p (register p s f)
unfolding register
register-Indexed p s f h key = ground (
  arith,
  h key,
  positions_end p key 0 s.fences f,
  index_loop_lem (length s.fences) (cells_of p f) s.index key
      (shards_for_radius-IsDistinct p (center f).0 (center f).1 (bounding_radius f) key),
)

register_all-Indexed :
    (p : Platform) (fs : List Fence) (s : Store) → Indexed p s → Indexed p (register_all p s fs)
unfolding register_all
register_all-Indexed p [] s h = h
register_all-Indexed p (f ∷ fs) s h =
    register_all-Indexed p fs (register p s f) (register-Indexed p s f h)

fences-register_all :
    (p : Platform) (fs : List Fence) (s : Store) → (register_all p s fs).fences ≡ s.fences ++ fs
unfolding register_all register
fences-register_all p [] s = sym (append-nil s.fences)
fences-register_all p (f ∷ fs) s =
    fences-register_all p fs (register p s f) ∙ append_assoc s.fences (f ∷ []) fs

fences_near-Indexed :
    (p : Platform) (s : Store) (lat lng : ℕ)
    → Indexed p s
    → fences_near p s lat lng ≡ some (filed p (shard_key p lat lng) s.fences)
unfolding fences_near
fences_near-Indexed p s lat lng h =
    ap (fetch s.fences) (h (shard_key p lat lng))
    ∙ fetch-positions p (shard_key p lat lng) [] s.fences 0 refl

-- After any registrations FencesNear never reads past the list of fences, and returns exactly the
-- fences that were filed under the shard of the position, each once, in the order in which they
-- were registered.
pub fences_near-register_all :
    (p : Platform) (fs : List Fence) (lat lng : ℕ)
    → fences_near p (register_all p new_store fs) lat lng ≡ some (filed p (shard_key p lat lng) fs)
fences_near-register_all p fs lat lng =
    fences_near-Indexed p (register_all p new_store fs) lat lng
      (register_all-Indexed p fs new_store (λ key. unfold new_store positions in refl))
    ∙ ap (λ t. some (filed p (shard_key p lat lng) t))
        (fences-register_all p fs new_store ∙ unfold new_store in refl)
