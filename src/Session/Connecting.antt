-- ===== src/Session/Connecting.antt =====
-- src/client.cpp: what is sent before a session is connected.
use srnp.Base.{
  ℕ, ◌+◌, ◌<◌, ◌≤◌, ◌≡◌, refl, true, false, List, [], ◌∷◌, ◌++◌, Option, none, length,
  length-append, leb, drop, Bool-cases, inl, inr, arith,
}
use srnp.Messages.{PairKey}
use srnp.Channel.{Channel, new_channel}
use srnp.Channel
use srnp.Session.{
  Session, Pending, max_pending_frames, with_room, queue, send, send_waiting, connect, close,
}

send_waiting-append :
    (c : Channel) (ps : List Pending) (p : Pending)
    → send_waiting c (ps ++ p ∷ []) ≡ (Channel.send (send_waiting c ps) p.bytes p.coalesce_key).0
unfolding send_waiting
send_waiting-append c [] p = refl
send_waiting-append c (x ∷ ps) p =
    send_waiting-append (Channel.send c x.bytes x.coalesce_key).0 ps p

-- Until the session is connected, with fewer than `max_pending_frames` frames waiting, sending and
-- then connecting leaves the session and its channel as connecting and then sending does: what is
-- sent early is neither lost nor out of order, where no other thread sends while `connect` ends.
pub connect-send :
    (s : Session) (frame : List ℕ) (key : Option PairKey)
    → s.channel ≡ none
    → s.closing ≡ false
    → length s.pending < max_pending_frames
    → (connect (send s frame key)).0 ≡ send (connect s).0 frame key
unfolding send connect queue
connect-send s frame key apart open_still room =
    let roomy : leb max_pending_frames (length s.pending) ≡ false = ground (arith, room) in
    simp (open_still, apart, roomy, send_waiting-append new_channel s.pending _) refl

length-drop_one :
    (ps : List Pending)
    → leb max_pending_frames (length ps) ≡ true
    → length (drop 1 ps) + 1 ≡ length ps
length-drop_one [] full = cc
length-drop_one (p ∷ ps) full = omega arith

-- Once a session is closed, a later send or a connection that comes up leaves it without a channel
-- and without waiting frames. Where no more than `max_pending_frames` frames wait, no more do after a
-- send.
send-close :
    (s : Session) (frame : List ℕ) (key : Option PairKey)
    → length s.pending ≤ max_pending_frames
    → (send (close s).0 frame key ≡ (close s).0)
      × (connect (close s).0 ≡ ((close s).0, false))
      × (length (send s frame key).pending ≤ max_pending_frames)
unfolding send queue connect close
send-close s frame key bounded = (
  refl,
  refl,
  ground (arith, bounded, waiting s.pending (record { bytes = frame; coalesce_key = key }) bounded),
)
  where
    waiting :
        (ps : List Pending) (p : Pending)
        → length ps ≤ max_pending_frames
        → length (with_room ps ++ p ∷ []) ≤ max_pending_frames
    waiting ps p bounded = elim (Bool-cases (leb max_pending_frames (length ps))) [
      | inl full ↦
          rw full (omega (arith, length-append (drop 1 ps) (p ∷ []), length-drop_one ps full))
      | inr room ↦ rw room (ground (arith, length-append ps (p ∷ []), room))
    ]
