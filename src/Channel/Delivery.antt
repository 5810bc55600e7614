-- ===== src/Channel/Delivery.antt =====
-- src/session.cpp: what a send does to the frames that wait. An update of a pair may be replaced by a
-- newer one or dropped when the queue is full; every other frame is kept, or the channel closes.
use srnp.Base.{
  ℕ, ◌+◌, ◌<◌, ◌≤◌, ◌≡◌, refl, sym, ap, subst, ◌∙◌, ◌⊎◌, true, false, List, [], ◌∷◌, ◌++◌,
  append_assoc, append-nil, Option, none, some, length, ltb, leb, if◌then◌else◌, same_iff,
  Option-cases, Bool-cases, inl, inr, arith,
}
use srnp.Messages.{PairKey, pair_key_order}
use srnp.Channel.{
  Outbound, Channel, max_outbox_frames, overwrite, drop_oldest, waiting_at, without_oldest,
  make_room, push, Outcome, enqueue, send_locked, close, after_lock, send,
}
use srnp.Channel.Index.{Ascending, keyed, or_else, newest, IsChannel, DroppedBy, drop_oldest_lem}

-- The last frame that waits for a key: what the peer will hold once it has read the queue.
unfoldable pub latest : PairKey → List Outbound → Option (List ℕ)
latest k [] = none
latest k (o ∷ os) = or_else (latest k os) (if keyed k o.coalesce_key then some o.bytes else none)

abbrev pub when_plain : Option PairKey → List ℕ → List (List ℕ)
when_plain none bytes = bytes ∷ []
when_plain (some k) bytes = []

-- The frames that are not updates of a pair, in order.
unfoldable pub plain_frames : List Outbound → List (List ℕ)
plain_frames [] = []
plain_frames (o ∷ os) = when_plain o.coalesce_key o.bytes ++ plain_frames os

newest_ge :
    (k : PairKey) (lo hi : ℕ) (os : List Outbound) {i : ℕ}
    → Ascending lo hi os
    → newest k os ≡ some i
    → lo ≤ i
unfolding newest
newest_ge k lo hi [] v e = cc
newest_ge k lo hi (o ∷ os) {i} v e =
    ground (arith, e, v.0, newest_ge k (o.node + 1) hi os {i = i} v.1)

latest-none : (k : PairKey) (os : List Outbound) → newest k os ≡ none → latest k os ≡ none
unfolding newest latest
latest-none k [] e = refl
latest-none k (o ∷ os) e = ground (arith, e, latest-none k os)

-- Overwriting the newest frame of a key makes the new bytes the last for that key, and touches no
-- frame that is not an update.
latest-overwrite :
    (k : PairKey) (lo hi node : ℕ) (frame : List ℕ) (os : List Outbound)
    → Ascending lo hi os
    → newest k os ≡ some node
    → (latest k (overwrite node frame os) ≡ some frame)
      × (plain_frames (overwrite node frame os) ≡ plain_frames os)
unfolding newest latest overwrite plain_frames
latest-overwrite k lo hi node frame [] v e = cc
latest-overwrite k lo hi node frame (o ∷ os) v e = elim (Option-cases (newest k os)) [
  | inr (i, later) ↦
      let same_node : i ≡ node = ground (arith, e, later) in
      let rest = latest-overwrite k (o.node + 1) hi node frame os v.1 (ground (arith, e, later)) in
      ground (
        arith,
        e,
        later,
        same_node,
        newest_ge k (o.node + 1) hi os {i = i} v.1 later,
        rest.0,
        rest.1,
      )
  | inl last ↦
      ground (arith, e, last, latest-none k os last, latest-none k (overwrite node frame os))
]

latest-push :
    (k : PairKey) (os : List Outbound) (o : Outbound)
    → latest k (os ++ o ∷ []) ≡ (if keyed k o.coalesce_key then some o.bytes else latest k os)
unfolding latest
latest-push k [] o = ground arith
latest-push k (x ∷ os) o = ground (arith, latest-push k os o)

plain_frames-push :
    (os : List Outbound) (o : Outbound)
    → plain_frames (os ++ o ∷ []) ≡ plain_frames os ++ when_plain o.coalesce_key o.bytes
unfolding plain_frames
plain_frames-push [] o = append-nil (when_plain o.coalesce_key o.bytes)
plain_frames-push (x ∷ os) o = rw (plain_frames-push os o) (
    sym (
      append_assoc (when_plain x.coalesce_key x.bytes) (plain_frames os)
        (when_plain o.coalesce_key o.bytes)))

abbrev KeepsPlain : List Outbound → Option (PairKey × List Outbound) → Type 0
KeepsPlain os none = Unit
KeepsPlain os (some (k, kept)) = plain_frames kept ≡ plain_frames os

plain_frames-rest :
    (o : Outbound) (os : List Outbound) (r : Option (PairKey × List Outbound))
    → KeepsPlain os r
    → KeepsPlain (o ∷ os) (elim r [ none ↦ none | some (k, kept) ↦ some (k, o ∷ kept) ])
unfolding plain_frames
plain_frames-rest o os none e = tt
plain_frames-rest o os (some (k, kept)) e = ap (λ fs. when_plain o.coalesce_key o.bytes ++ fs) e

plain_frames-here :
    (o : Outbound) (os : List Outbound) (k : PairKey)
    → o.coalesce_key ≡ some k
    → plain_frames os ≡ plain_frames (o ∷ os)
unfolding plain_frames
plain_frames-here o os k e = simp e refl

-- Only an update can be dropped.
plain_frames-drop_oldest : (os : List Outbound) → KeepsPlain os (drop_oldest os)
unfolding drop_oldest
plain_frames-drop_oldest [] = tt
plain_frames-drop_oldest (o ∷ os) = elim (Option-cases o.coalesce_key) [
  | inl plain ↦ simp plain (plain_frames-rest o os (drop_oldest os) (plain_frames-drop_oldest os))
  | inr (k, e) ↦ simp e (plain_frames-here o os k e)
]

plain_frames-without_oldest :
    (c : Channel) (r : Option (PairKey × List Outbound))
    → KeepsPlain c.outbox r
    → plain_frames (without_oldest c r).outbox ≡ plain_frames c.outbox
unfolding without_oldest
plain_frames-without_oldest c none e = refl
plain_frames-without_oldest c (some (k, kept)) e = e

abbrev Delivers : List Outbound → List ℕ → Option PairKey → List Outbound → Type 0
Delivers old frame key os =
    (plain_frames os ≡ plain_frames old ++ when_plain key frame)
    × ((k : PairKey) → key ≡ some k → latest k os ≡ some frame)

-- What a send that does not close the channel leaves.
abbrev Sends : List Outbound → List ℕ → Option PairKey → Channel → Type 0
Sends old frame key c = Delivers old frame key c.outbox × (c.closed ≡ false)

finish : Channel × Outcome → Channel
finish (c, outcome) = (after_lock c outcome).0

push-Delivers :
    (c : Channel) (frame : List ℕ) (key : Option PairKey)
    → Delivers c.outbox frame key (push c frame key).outbox
unfolding push
push-Delivers c frame key = (
  plain_frames-push c.outbox _,
  λ k e. rw (latest-push k c.outbox _) (ground (arith, e, same_iff k k)),
)

-- With room, the frame is queued.
enqueue-Delivers :
    (c : Channel) (frame : List ℕ) (key : Option PairKey)
    → length c.outbox < max_outbox_frames
    → c.closed ≡ false
    → Sends c.outbox frame key (finish (enqueue c frame key))
unfolding enqueue after_lock finish push
enqueue-Delivers c frame key room open_still =
    let p : Sends c.outbox frame key (push c frame key) = (push-Delivers c frame key, open_still) in
    let roomy : leb max_outbox_frames (length c.outbox) ≡ false = ground (arith, room) in
    rw roomy (elim (Bool-cases c.writing) [ inl busy ↦ simp busy p | inr idle ↦ simp idle p ])

-- A queue that has no frame to drop holds no updates.
all_plain : (os : List Outbound) → drop_oldest os ≡ none → length (plain_frames os) ≡ length os
unfolding drop_oldest plain_frames
all_plain [] e = refl
all_plain (o ∷ os) e = ground (arith, e, all_plain os)

overwritten-Delivers :
    (c : Channel) (frame : List ℕ) (key : Option PairKey) (node : ℕ)
    → IsChannel c
    → waiting_at key c.coalescable ≡ some node
    → Delivers c.outbox frame key (overwrite node frame c.outbox)
overwritten-Delivers c frame none node v e = cc
overwritten-Delivers c frame (some j) node v e =
    let there =
      latest-overwrite j 0 c.next_node node frame c.outbox v.ascending (v.index j node e) in
    (
      there.1 ∙ sym (append-nil (plain_frames c.outbox)),
      λ k same_key. rw (sym (some_injective same_key)) there.0,
    )
  where
    some_injective : {A : Type 0} {a b : A} → some a ≡ some b → a ≡ b
    some_injective e = cc

-- At the cap, with nothing to overwrite, the oldest update makes room, or the channel closes.
full-Delivers :
    (c : Channel) (frame : List ℕ) (key : Option PairKey) (r : Option (PairKey × List Outbound))
    → IsChannel c
    → drop_oldest c.outbox ≡ r
    → max_outbox_frames ≤ length c.outbox
    → c.closed ≡ false
    → ((finish (enqueue (without_oldest c r) frame key)).closed ≡ true)
        × (max_outbox_frames ≤ length (plain_frames c.outbox))
      ⊎ Sends c.outbox frame key (finish (enqueue (without_oldest c r) frame key))
unfolding finish enqueue after_lock close without_oldest
full-Delivers c frame key none v e full open_still =
    inl (ground (arith, full), omega (arith, full, all_plain c.outbox e))
full-Delivers c frame key (some (k, kept)) v e full open_still =
    let d = subst (DroppedBy c.outbox) e (drop_oldest_lem c.outbox) in
    let plain = subst (KeepsPlain c.outbox) e (plain_frames-drop_oldest c.outbox) in
    let roomy : Channel = without_oldest c (some (k, kept)) in
    let sent = enqueue-Delivers roomy frame key (omega (arith, d.0, v.bounded)) open_still in
    inr ((sent.0.0 ∙ ap (λ fs. fs ++ when_plain key frame) plain, sent.0.1), sent.1)

abbrev Sent : Channel → List ℕ → Option PairKey → Channel → Type 0
Sent c frame key t =
    (t.closed ≡ true) × (max_outbox_frames ≤ length (plain_frames c.outbox))
    ⊎ Sends c.outbox frame key t

send_locked-Sent :
    (c : Channel) (frame : List ℕ) (key : Option PairKey)
    → IsChannel c
    → c.closed ≡ false
    → Sent c frame key (finish (send_locked c frame key))
unfolding send_locked make_room finish after_lock
send_locked-Sent c frame key v open_still =
    elim (Bool-cases (ltb (length c.outbox) max_outbox_frames)) [
      | inl room ↦ rw room (inr (enqueue-Delivers c frame key (ground (arith, room)) open_still))
      | inr full ↦ rw full (elim (Option-cases (waiting_at key c.coalescable)) [
        | inr (node, e) ↦ rw e (inr (overwritten-Delivers c frame key node v e, open_still))
        | inl none_waits ↦ rw none_waits (
            full-Delivers c frame key (drop_oldest c.outbox) v refl (ground (arith, full))
              open_still)
      ])
    ]

send_open :
    (c : Channel) (frame : List ℕ) (key : Option PairKey)
    → c.closed ≡ false
    → (send c frame key).0 ≡ finish (send_locked c frame key)
unfolding send finish
send_open c frame key open_still = ground (arith, open_still)

-- The frame is the last one for its key, if it has one.
abbrev pub IsLast : Option PairKey → List ℕ → List Outbound → Type 0
IsLast none frame os = Unit
IsLast (some k) frame os = latest k os ≡ some frame

-- A frame that is sent on an open channel is the last for its key from then on, or, without a key, is
-- queued behind every frame without one; none of those is lost, and the channel stays open. Or else the
-- channel closes, which it does only when `max_outbox_frames` frames wait that are not updates.
pub send-plain_frames :
    (c : Channel) (frame : List ℕ) (key : Option PairKey)
    → IsChannel c
    → c.closed ≡ false
    → ((send c frame key).0.closed ≡ true) × (max_outbox_frames ≤ length (plain_frames c.outbox))
      ⊎ ((send c frame key).0.closed ≡ false)
        × (plain_frames (send c frame key).0.outbox ≡ plain_frames c.outbox ++ when_plain key frame)
        × IsLast key frame (send c frame key).0.outbox
send-plain_frames c frame key v open_still =
    elim (subst (Sent c frame key) (sym (send_open c frame key open_still))
      (send_locked-Sent c frame key v open_still)) [
        | inl overfull ↦ inl overfull
        | inr ((plain, last), stays) ↦ inr (stays, plain, last_one key _ last)
      ]
  where
    last_one :
        (key' : Option PairKey) (os : List Outbound)
        → ((k : PairKey) → key' ≡ some k → latest k os ≡ some frame)
        → IsLast key' frame os
    last_one none os last = tt
    last_one (some k) os last = last k refl
