-- ===== src/Channel/Index.antt =====
-- src/session.cpp: the invariant of the queue. It is bounded; its nodes are in the order of their
-- identities; and the index names, of the frames that wait for a key, none but the newest.
use srnp.Base.{
  ℕ, ◌+◌, ◌<◌, ◌≤◌, ◌≡◌, ◌≢◌, refl, Bool, false, List, [], ◌∷◌, ◌++◌, Option, none, some, length,
  length-append, ltb, leb, if◌then◌else◌, lookup, same, same_iff, lookup-insert, lookup-erase,
  Option-cases, Bool-cases, inl, inr, arith,
}
use srnp.Messages.{PairKey, pair_key_order}
use srnp.Channel.{
  Outbound, Channel, max_outbox_frames, overwrite, drop_oldest, waiting_at, without_oldest,
  make_room, indexed, push, enqueue,
}

-- Nodes with growing identities, all of them from `lo` on and below `hi`.
abbrev pub Ascending : ℕ → ℕ → List Outbound → Type 0
Ascending lo hi [] = lo ≤ hi
Ascending lo hi (o ∷ os) = (lo ≤ o.node) × Ascending (o.node + 1) hi os

abbrev pub keyed : PairKey → Option PairKey → Bool
keyed k none = false
keyed k (some j) = same j k

abbrev pub or_else {ℓ} : {A : Type ℓ} → Option A → Option A → Option A
or_else none b = b
or_else (some a) b = some a

-- The last node that holds a frame for a key.
unfoldable pub newest : PairKey → List Outbound → Option ℕ
newest k [] = none
newest k (o ∷ os) = or_else (newest k os) (if keyed k o.coalesce_key then some o.node else none)

abbrev pub IsIndex : List (PairKey × ℕ) → List Outbound → Type 0
IsIndex index os = (k : PairKey) (node : ℕ) → lookup k index ≡ some node → newest k os ≡ some node

pub record IsChannel (c : Channel) : Type 0 where
  pub bounded : length c.outbox ≤ max_outbox_frames
  pub ascending : Ascending 0 c.next_node c.outbox
  pub index : IsIndex c.coalescable c.outbox

pub Ascending-weaken :
    (a b hi : ℕ) (os : List Outbound) → a ≤ b → Ascending b hi os → Ascending a hi os
Ascending-weaken a b hi [] h v = omega arith
Ascending-weaken a b hi (o ∷ os) h v = (omega arith, v.1)

Ascending-push :
    (lo hi : ℕ) (os : List Outbound) (o : Outbound)
    → o.node ≡ hi
    → Ascending lo hi os
    → Ascending lo (hi + 1) (os ++ o ∷ [])
Ascending-push lo hi [] o e v = (omega arith, omega arith)
Ascending-push lo hi (x ∷ os) o e v = (v.0, Ascending-push (x.node + 1) hi os o e v.1)

pub newest-push :
    (k : PairKey) (os : List Outbound) (o : Outbound)
    → newest k (os ++ o ∷ []) ≡ (if keyed k o.coalesce_key then some o.node else newest k os)
unfolding newest
newest-push k [] o = ground arith
newest-push k (x ∷ os) o = ground (arith, newest-push k os o)

pub newest-overwrite :
    (k : PairKey) (node : ℕ) (frame : List ℕ) (os : List Outbound)
    → newest k (overwrite node frame os) ≡ newest k os
unfolding newest overwrite
newest-overwrite k node frame [] = refl
newest-overwrite k node frame (o ∷ os) = ground (arith, newest-overwrite k node frame os)

length-overwrite :
    (node : ℕ) (frame : List ℕ) (os : List Outbound) → length (overwrite node frame os) ≡ length os
unfolding overwrite
length-overwrite node frame [] = refl
length-overwrite node frame (o ∷ os) = ground (arith, length-overwrite node frame os)

Ascending-overwrite :
    (lo hi node : ℕ) (frame : List ℕ) (os : List Outbound)
    → Ascending lo hi os
    → Ascending lo hi (overwrite node frame os)
unfolding overwrite
Ascending-overwrite lo hi node frame [] v = v
Ascending-overwrite lo hi node frame (o ∷ os) v =
    ground (arith, Ascending-overwrite (o.node + 1) hi node frame os v.1)

-- What dropping the oldest droppable frame leaves.
abbrev pub Dropped : List Outbound → PairKey → List Outbound → Type 0
Dropped os k kept =
    (length os ≡ length kept + 1)
    × ((lo hi : ℕ) → Ascending lo hi os → Ascending lo hi kept)
    × ((j : PairKey) → j ≢ k → newest j kept ≡ newest j os)

abbrev pub DroppedBy : List Outbound → Option (PairKey × List Outbound) → Type 0
DroppedBy os none = Unit
DroppedBy os (some (k, kept)) = Dropped os k kept

Dropped-here :
    (o : Outbound) (os : List Outbound) (k : PairKey)
    → o.coalesce_key ≡ some k
    → Dropped (o ∷ os) k os
unfolding newest
Dropped-here o os k e = (
  omega arith,
  λ lo hi v. Ascending-weaken lo (o.node + 1) hi os (omega arith) v.1,
  λ j other. ground (arith, e, other, same_iff k j),
)

Dropped-later :
    (o : Outbound) (os kept : List Outbound) (k : PairKey)
    → Dropped os k kept
    → Dropped (o ∷ os) k (o ∷ kept)
unfolding newest
Dropped-later o os kept k d = (
  omega (arith, d.0),
  λ lo hi v. (v.0, d.1 (o.node + 1) hi v.1),
  λ j other. ground (arith, d.2 j other),
)

drop_rest :
    (o : Outbound) (os : List Outbound) (r : Option (PairKey × List Outbound))
    → DroppedBy os r
    → DroppedBy (o ∷ os) (elim r [ none ↦ none | some (k, kept) ↦ some (k, o ∷ kept) ])
drop_rest o os none d = tt
drop_rest o os (some (k, kept)) d = Dropped-later o os kept k d

pub drop_oldest_lem : (os : List Outbound) → DroppedBy os (drop_oldest os)
unfolding drop_oldest
drop_oldest_lem [] = tt
drop_oldest_lem (o ∷ os) = elim (Option-cases o.coalesce_key) [
  | inl plain ↦ simp plain (drop_rest o os (drop_oldest os) (drop_oldest_lem os))
  | inr (k, e) ↦ simp e (Dropped-here o os k e)
]

pub make_room-IsChannel :
    (c : Channel) (key : Option PairKey) (frame : List ℕ)
    → IsChannel c
    → IsChannel (make_room c key frame).0
unfolding make_room without_oldest
make_room-IsChannel c key frame v = elim (Bool-cases (ltb (length c.outbox) max_outbox_frames)) [
  | inl room ↦ rw room v
  | inr full ↦
      rw (full, make_room)
        (elim (Option-cases (waiting_at key c.coalescable)) [
          | inr (node, e) ↦ rw e (overwritten node)
          | inl none_waits ↦
              rw none_waits (dropped (drop_oldest c.outbox) (drop_oldest_lem c.outbox))
        ])
]
  where
    overwritten : (node : ℕ) → IsChannel (record c { outbox = overwrite node frame c.outbox })
    overwritten node = record {
      bounded = omega (arith, v.bounded, length-overwrite node frame c.outbox);
      ascending = Ascending-overwrite 0 c.next_node node frame c.outbox v.ascending;
      index = λ k i e. rw (newest-overwrite k node frame c.outbox) (v.index k i e);
    }

    dropped :
        (r : Option (PairKey × List Outbound))
        → DroppedBy c.outbox r
        → IsChannel (without_oldest c r)
    dropped none d = v
    dropped (some (k, kept)) d = record {
      bounded = omega (arith, v.bounded, d.0);
      ascending = d.1 0 c.next_node v.ascending;
      index = λ j i e.
          ground (arith, e, lookup-erase k j c.coalescable, same_iff j k, d.2 j, v.index j i);
    }

push-IsChannel :
    (c : Channel) (frame : List ℕ) (key : Option PairKey)
    → IsChannel c
    → length c.outbox < max_outbox_frames
    → IsChannel (push c frame key)
unfolding push
push-IsChannel c frame key v room = record {
  bounded = omega (arith, room, length-append c.outbox (_ ∷ []));
  ascending = Ascending-push 0 c.next_node c.outbox _ refl v.ascending;
  index = λ k i e. rw (newest-push k c.outbox _) (pushed key k i e);
}
  where
    pushed :
        (key : Option PairKey) (k : PairKey) (i : ℕ)
        → lookup k (indexed key c.next_node c.coalescable) ≡ some i
        → (if keyed k key then some c.next_node else newest k c.outbox) ≡ some i
    pushed none k i e = v.index k i e
    pushed (some j) k i e = ground (
      arith,
      e,
      lookup-insert j k c.next_node c.coalescable,
      same_iff j k,
      same_iff k j,
      v.index k i,
    )

pub enqueue-IsChannel :
    (c : Channel) (frame : List ℕ) (key : Option PairKey)
    → IsChannel c
    → IsChannel (enqueue c frame key).0
unfolding enqueue
enqueue-IsChannel c frame key v = elim (Bool-cases (leb max_outbox_frames (length c.outbox))) [
  | inl full ↦ rw full v
  | inr room ↦
      let pushed = push-IsChannel c frame key v (ground (arith, room)) in
      rw room (elim (Bool-cases c.writing) [
        | inl busy ↦ simp busy pushed
        | inr idle ↦ simp idle (record {
          bounded = pushed.bounded;
          ascending = pushed.ascending;
          index = pushed.index;
        })
      ])
]
