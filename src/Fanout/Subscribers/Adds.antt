-- ===== src/Fanout/Subscribers/Adds.antt =====
-- Follow and Unfollow add no subscription.
use aerocast.Prelude.{
  ℕ, ◌≡◌, sym, ap, none, some, ◌==◌, arith, Option-cases, Bool-cases, ==_iff, inl, inr,
}
use aerocast.Prelude.Assoc.{lookup, insert, lookup-insert}
use aerocast.Fanout.Subscribers.{Fanout, Subscription, follow, follow_at, unfollow, unfollow_at}

-- Every id without a subscription in the first has none in the second.
abbrev pub AddsNone : Fanout → Fanout → Type 0
AddsNone e e' = (j : ℕ) → lookup j e.subs ≡ none → lookup j e'.subs ≡ none

-- A subscription in the place of another.
replace-AddsNone :
    (e : Fanout) (id : ℕ) (old sub : Subscription)
    → lookup id e.subs ≡ some old
    → AddsNone e (record e { subs = insert id sub e.subs })
replace-AddsNone e id old sub h j absent = elim (Bool-cases (id == j)) [
  | inl same ↦ cc (ap (λ k. lookup k e.subs) (sym ((==_iff id j).0 same)), h, absent)
  | inr differs ↦ ground (arith, lookup-insert id j sub e.subs, differs, absent)
]

-- Follow and Unfollow add no subscription.
pub follow-AddsNone : (e : Fanout) (id entity : ℕ) → AddsNone e (follow e id entity)
unfolding follow
follow-AddsNone e id entity = elim (Option-cases (lookup id e.subs)) [
  | inl absent ↦ rw (absent, follow_at) (λ j h. h)
  | inr (sub, h) ↦ rw (h, follow_at) (replace-AddsNone e id sub _ h)
]

pub unfollow-AddsNone : (e : Fanout) (id entity : ℕ) → AddsNone e (unfollow e id entity)
unfolding unfollow
unfollow-AddsNone e id entity = elim (Option-cases (lookup id e.subs)) [
  | inl absent ↦ rw (absent, unfollow_at) (λ j h. h)
  | inr (sub, h) ↦ rw (h, unfollow_at) (replace-AddsNone e id sub _ h)
]
