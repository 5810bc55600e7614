-- ===== src/Channel/Sections.antt =====
-- src/session.cpp: every critical section of the channel keeps the invariant of the queue.
use srnp.Base.{
  subst, ap, ℕ, ◌+◌, ◌≡◌, refl, Bool, true, List, [], ◌∷◌, Option, none, some, length, lookup,
  lookup-erase, same_iff, Bool-cases, inl, inr, arith,
}
use srnp.Messages.{PairKey, pair_key_order}
use srnp.Channel.{
  Outbound, Channel, make_room, send_locked, close, unindexed, take_front, next_to_write,
}
use srnp.Channel.Index.{
  IsChannel, IsIndex, Ascending, Ascending-weaken, newest, make_room-IsChannel, enqueue-IsChannel,
}

pub send_locked-IsChannel :
    (c : Channel) (frame : List ℕ) (key : Option PairKey)
    → IsChannel c
    → IsChannel (send_locked c frame key).0
unfolding send_locked
send_locked-IsChannel c frame key v =
    let roomy = make_room-IsChannel c key frame v in
    elim (Bool-cases (make_room c key frame).1) [
      | inl replaced ↦ simp replaced roomy
      | inr not_there ↦ simp not_there (enqueue-IsChannel (make_room c key frame).0 frame key roomy)
    ]

-- An empty queue with an empty index.
pub cleared-IsChannel :
    (c : Channel) (writing closed : Bool)
    → IsChannel (record c { outbox = []; coalescable = []; writing = writing; closed = closed })
unfolding lookup
cleared-IsChannel c writing closed = record {
  bounded = omega arith;
  ascending = omega arith;
  index = λ k i e. cc;
}

pub close-IsChannel : (c : Channel) → IsChannel c → IsChannel (close c)
unfolding close
close-IsChannel c v = elim (Bool-cases c.closed) [
  | inl already ↦ simp already v
  | inr open_still ↦ simp open_still (cleared-IsChannel c c.writing true)
]

-- The index without a frame that leaves the front.
unindexed-IsIndex :
    (index : List (PairKey × ℕ)) (o : Outbound) (os : List Outbound) (key : Option PairKey)
    → o.coalesce_key ≡ key
    → IsIndex index (o ∷ os)
    → IsIndex (unindexed key index) os
unfolding newest
unindexed-IsIndex index o os none e v k i there = ground (arith, e, v k i there)
unindexed-IsIndex index o os (some j) e v k i there =
    ground (arith, e, there, lookup-erase j k index, same_iff k j, same_iff j k, v k i)

taken-IsChannel :
    (c : Channel) (o : Outbound) (os : List Outbound)
    → c.outbox ≡ o ∷ os
    → IsChannel c
    → IsChannel (record c { outbox = os; coalescable = unindexed o.coalesce_key c.coalescable })
taken-IsChannel c o os e v =
    let ascending : Ascending 0 c.next_node (o ∷ os) =
      subst (Ascending 0 c.next_node) e v.ascending in
    record {
      bounded = omega (arith, v.bounded, ap length e);
      ascending = Ascending-weaken 0 (o.node + 1) c.next_node os (omega arith) ascending.1;
      index =
          unindexed-IsIndex c.coalescable o os o.coalesce_key refl
            (subst (IsIndex c.coalescable) e v.index);
    }

take_front-IsChannel :
    (c : Channel) (os : List Outbound) → c.outbox ≡ os → IsChannel c → IsChannel (take_front c os).0
unfolding take_front
take_front-IsChannel c [] e v = record {
  bounded = v.bounded;
  ascending = v.ascending;
  index = v.index;
}
take_front-IsChannel c (o ∷ os) e v = elim (Bool-cases c.closed) [
  | inl shut ↦ simp shut (record { bounded = v.bounded; ascending = v.ascending; index = v.index })
  | inr open_still ↦
      let t = taken-IsChannel c o os e v in
      simp open_still (record { bounded = t.bounded; ascending = t.ascending; index = t.index })
]

pub next_to_write-IsChannel : (c : Channel) → IsChannel c → IsChannel (next_to_write c).0
unfolding next_to_write
next_to_write-IsChannel c v = take_front-IsChannel c c.outbox refl v
