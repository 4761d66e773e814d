-- ===== src/Fanout/Subscribers/Wanted.antt =====
-- What Broadcast puts into the channels, by what the subscribers follow (pkg/fanout/engine.go).
use aerocast.Prelude.{
  ℕ, Bool, true, false, List, [], ◌∷◌, length, Option, none, some, ltb, ◌==◌, if◌then◌else◌,
}
use aerocast.Prelude.Count.{count}
use aerocast.Prelude.Assoc.{lookup}
use aerocast.Binary.Egress.{EgressRecord}
use aerocast.Binary.Egress.Laws.{frame}
use aerocast.Fanout.Channel.{Channel}
use aerocast.Fanout.Subscribers.{Fanout, Subscription}

-- A subscriber that follows nobody gets the records of all entities, another one those of the entities
-- that it follows.
abbrev pub follows : List (ℕ × Unit {0}) → ℕ → Bool
follows [] entity = false
follows ((k, x) ∷ set) entity = if k == entity then true else follows set entity

abbrev pub gets : Option (List (ℕ × Unit {0})) → EgressRecord → Bool
gets none rec = true
gets (some set) rec = follows set rec.entity_id

abbrev pub due : Option (List (ℕ × Unit {0})) → List EgressRecord → List EgressRecord
due following [] = []
due following (rec ∷ recs) =
    if gets following rec then rec ∷ due following recs else due following recs

-- The frame of the records that are due, if there are any and fewer than 1024 frames wait.
abbrev pub due_mail : Subscription → List EgressRecord → Channel → List (List ℕ)
due_mail sub recs ch =
    if length (due sub.following recs) == 0
    then []
    else if ltb (length ch.frames) 1024
    then frame (due sub.following recs) ∷ []
    else []

abbrev pub due_to :
    List (ℕ × Subscription) → List ℕ → List EgressRecord → ℕ → Channel → List (List ℕ)
due_to subs ids recs j ch =
    if ltb 0 (count j ids)
    then elim (lookup j subs) [ none ↦ [] | some sub ↦ due_mail sub recs ch ]
    else []
