-- ===== src/Channel/Draining.antt =====
-- src/session.cpp: `drainOutbox` from its start to its end, when no other thread comes in between.
use srnp.Base.{
  ℕ, zero, suc, ◌<◌, ◌≡◌, refl, ap, Bool, true, false, List, [], ◌∷◌, Option, none, some, length,
  if◌then◌else◌, Bool-cases, inl, inr, arith,
}
use srnp.Messages.{PairKey}
use srnp.Channel.{
  Outbound, Channel, unindexed, take_front, next_to_write, write_failed, send, send_locked,
  make_room, enqueue, after_lock,
}

abbrev Drained : Type 0
Drained = Channel × List (List ℕ)

-- The write of the frame that was taken, which fails or is followed by the next round.
abbrev after_write : (List ℕ → Bool) → (Channel → Drained) → Channel × Option (List ℕ) → Drained
after_write accepts later (c, none) = (c, [])
after_write accepts later (c, some bytes) = elim (accepts bytes) [
  | false ↦ (write_failed c, [])
  | true ↦ let (c', frames) = later c in (c', bytes ∷ frames)
]

-- The channel in the end, and the frames that the socket has taken, which is asked for each.
unfoldable pub drain_outbox : ℕ → (List ℕ → Bool) → Channel → Drained
drain_outbox zero accepts c = (c, [])
drain_outbox (suc fuel) accepts c =
    after_write accepts (drain_outbox fuel accepts) (next_to_write c)

-- The frames up to the first that is not taken.
unfoldable pub accepted : (List ℕ → Bool) → List Outbound → List (List ℕ)
accepted accepts [] = []
accepted accepts (o ∷ os) =
    let rest = accepted accepts os in if accepts o.bytes then o.bytes ∷ rest else []

abbrev Drains : (List ℕ → Bool) → List Outbound → Drained → Type 0
Drains accepts os r =
    (r.1 ≡ accepted accepts os) × (r.0.outbox ≡ []) × (r.0.writing ≡ false) × (r.0.closed ≡ false)

drain_outbox-Drains :
    (fuel : ℕ) (accepts : List ℕ → Bool) (c : Channel) (os : List Outbound)
    → c.closed ≡ false
    → length os < fuel
    → Drains accepts os (drain_outbox fuel accepts (record c { outbox = os }))
unfolding drain_outbox accepted next_to_write take_front write_failed
drain_outbox-Drains zero accepts c os unclosed enough = absurd (omega (arith, enough))
drain_outbox-Drains (suc fuel) accepts c [] unclosed enough = (refl, refl, refl, unclosed)
drain_outbox-Drains (suc fuel) accepts c (o ∷ os) unclosed enough =
    elim (Bool-cases (accepts o.bytes)) [
      | inr refused ↦ rw (unclosed, refused, write_failed) (refl, refl, refl, refl)
      | inl taken ↦
          let c' : Channel = record c {
            coalescable = unindexed o.coalesce_key c.coalescable;
            closed = false;
          } in
          let (frames, emptied, idle, open_still) =
            drain_outbox-Drains fuel accepts c' os refl (omega (arith, enough)) in
          rw (unclosed, taken) (ap (o.bytes ∷◌) frames, emptied, idle, open_still)
    ]

-- A send on an open channel where nothing waits and nobody writes starts a drain.
send-starts :
    (c : Channel) (frame : List ℕ) (key : Option PairKey)
    → c.closed ≡ false
    → c.outbox ≡ []
    → c.writing ≡ false
    → (send c frame key).1 ≡ true
unfolding send send_locked make_room enqueue after_lock
send-starts c frame key unclosed emptied idle = simp (unclosed, emptied, idle)

-- A drain of an open channel ends, when no other thread comes in between, and has written the frames
-- that waited in their order, up to the first that the socket refused. Then nothing waits and nobody
-- writes, the channel is open as before, also after a refusal, and the next send starts a drain again.
pub drain_outbox-accepted :
    (fuel : ℕ) (accepts : List ℕ → Bool) (c : Channel) (frame : List ℕ) (key : Option PairKey)
    → c.closed ≡ false
    → length c.outbox < fuel
    → ((drain_outbox fuel accepts c).1 ≡ accepted accepts c.outbox)
      × ((drain_outbox fuel accepts c).0.outbox ≡ [])
      × ((drain_outbox fuel accepts c).0.writing ≡ false)
      × ((drain_outbox fuel accepts c).0.closed ≡ false)
      × ((send (drain_outbox fuel accepts c).0 frame key).1 ≡ true)
drain_outbox-accepted fuel accepts c frame key unclosed enough =
    let (frames, emptied, idle, open_still) =
      drain_outbox-Drains fuel accepts c c.outbox unclosed enough in
    (
      frames,
      emptied,
      idle,
      open_still,
      send-starts (drain_outbox fuel accepts c).0 frame key open_still emptied idle,
    )
