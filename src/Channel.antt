-- ===== src/Channel.antt =====
-- include/srnp/session.h and src/session.cpp: `FrameChannel`, the queue of frames to one peer and the
-- frames that come from it. What runs under `outbox_mutex_` is one function of the channel; the
-- socket is the list of frames written to it. A list iterator is the identity of its node.
pub mod Index
pub mod Sections
pub mod Threads
pub mod Delivery
pub mod Reading
pub mod Draining
mod Tests
use srnp.Base.{
  ℕ, ◌+◌, Bool, true, false, ◌||◌, List, [], ◌∷◌, ◌++◌, Option, none, some, length, take, drop, ltb,
  leb, ◌==◌, if◌then◌else◌, lookup, insert, erase, same,
}
use srnp.Wire.{Error, Result, ok, err, FrameHeader, header_size, decode_header}
use srnp.Messages.{PairKey, pair_key_order}

abbrev pub max_outbox_frames : ℕ
max_outbox_frames = 4096

-- `node` is the identity that an iterator holds; the constructor of a node takes the next one.
pub record Outbound : Type 0 where
  pub node : ℕ
  pub bytes : List ℕ
  pub coalesce_key : Option PairKey

pub record Channel : Type 0 where
  pub outbox : List Outbound
  pub coalescable : List (PairKey × ℕ)
  pub writing : Bool
  pub closed : Bool
  pub next_node : ℕ

abbrev pub new_channel : Channel
new_channel = record {
  outbox = [];
  coalescable = [];
  writing = false;
  closed = false;
  next_node = 0;
}

-- `it->second->bytes = std::move(frame)`, through an iterator.
unfoldable pub overwrite : ℕ → List ℕ → List Outbound → List Outbound
overwrite node frame [] = []
overwrite node frame (o ∷ os) =
    if o.node == node then record o { bytes = frame } ∷ os else o ∷ overwrite node frame os

-- The oldest frame that may be dropped: its key, and the queue without it.
unfoldable pub drop_oldest : List Outbound → Option (PairKey × List Outbound)
drop_oldest [] = none
drop_oldest (o ∷ os) =
    let rest : Option (PairKey × List Outbound) = elim (drop_oldest os) [
      | none ↦ none
      | some (k, kept) ↦ some (k, o ∷ kept)
    ] in
    elim o.coalesce_key [ none ↦ rest | some k ↦ some (k, os) ]

-- Where a key is waiting, by the index.
abbrev pub waiting_at : Option PairKey → List (PairKey × ℕ) → Option ℕ
waiting_at none index = none
waiting_at (some k) index = lookup k index

-- The frame goes, and the index entry of its key.
unfoldable pub without_oldest : Channel → Option (PairKey × List Outbound) → Channel
without_oldest c none = c
without_oldest c (some (k, kept)) = record c { outbox = kept; coalescable = erase k c.coalescable }

unfoldable pub make_room : Channel → Option PairKey → List ℕ → Channel × Bool
make_room c key frame =
    if ltb (length c.outbox) max_outbox_frames
    then (c, false)
    else elim (waiting_at key c.coalescable) [
      | some node ↦ (record c { outbox = overwrite node frame c.outbox }, true)
      | none ↦ (without_oldest c (drop_oldest c.outbox), false)
    ]

abbrev pub indexed : Option PairKey → ℕ → List (PairKey × ℕ) → List (PairKey × ℕ)
indexed none node index = index
indexed (some k) node index = insert k node index

-- `push_back`, and the index entry of a key.
unfoldable pub push : Channel → List ℕ → Option PairKey → Channel
push c frame key = record c {
  outbox = c.outbox ++ record { node = c.next_node; bytes = frame; coalesce_key = key } ∷ [];
  coalescable = indexed key c.next_node c.coalescable;
  next_node = c.next_node + 1;
}

-- How the locked part of `send` leaves: done, with a drain to start, or with the channel to close.
pub data Outcome : Type 0 where
  done start_drain overfull : Outcome

-- The end of the locked part, after `makeRoomLocked` has returned false.
unfoldable pub enqueue : Channel → List ℕ → Option PairKey → Channel × Outcome
enqueue c frame key =
    if leb max_outbox_frames (length c.outbox)
    then (c, overfull)
    else if c.writing
    then (push c frame key, done)
    else (record (push c frame key) { writing = true }, start_drain)

unfoldable pub send_locked : Channel → List ℕ → Option PairKey → Channel × Outcome
send_locked c frame key =
    let (roomy, replaced) = make_room c key frame in
    if replaced then (roomy, done) else enqueue roomy frame key

-- `close`: the flag, then the queue; the strand closes the socket.
unfoldable pub close : Channel → Channel
close c = if c.closed then c else record c { closed = true; outbox = []; coalescable = [] }

-- What `send` does once it has released the lock: `true` if a drain was started.
unfoldable pub after_lock : Channel → Outcome → Channel × Bool
after_lock c done = (c, false)
after_lock c start_drain = (c, true)
after_lock c overfull = (close c, false)

unfoldable pub send : Channel → List ℕ → Option PairKey → Channel × Bool
send c frame key =
    if c.closed
    then (c, false)
    else let (c', outcome) = send_locked c frame key in after_lock c' outcome

abbrev pub unindexed : Option PairKey → List (PairKey × ℕ) → List (PairKey × ℕ)
unindexed none index = index
unindexed (some k) index = erase k index

-- The locked part of a round of `drainOutbox`: the next frame to write, or the end of the drain.
unfoldable pub take_front : Channel → List Outbound → Channel × Option (List ℕ)
take_front c [] = (record c { writing = false }, none)
take_front c (o ∷ os) = if c.closed then (record c { writing = false }, none) else (
  record c { outbox = os; coalescable = unindexed o.coalesce_key c.coalescable },
  some o.bytes,
)

unfoldable pub next_to_write : Channel → Channel × Option (List ℕ)
next_to_write c = take_front c c.outbox

-- A write that failed drops the queue and ends the drain.
unfoldable pub write_failed : Channel → Channel
write_failed c = record c { outbox = []; coalescable = []; writing = false }

pub record Frame : Type 0 where
  pub header : FrameHeader
  pub payload : List ℕ

-- How `read` ends on the bytes that the peer has sent: with a frame and the bytes behind it, with a
-- `DecodeError`, or with the connection's end before the frame's.
pub data Received : Type 0 where
  received : Frame → List ℕ → Received
  malformed : Error → Received
  disconnected : Received

-- `async_read` of the payload, which the code skips at length 0.
unfoldable pub read_payload : FrameHeader → List ℕ → Received
read_payload header stream =
    if ltb 0 header.payload_length
    then if leb header.payload_length (length stream)
      then received (record { header = header; payload = take header.payload_length stream })
          (drop header.payload_length stream)
      else disconnected
    else received (record { header = header; payload = [] }) stream

unfoldable pub read : List ℕ → Received
read stream =
    if leb header_size (length stream)
    then elim (decode_header (take header_size stream)) [
      | err e ↦ malformed e
      | ok header ↦ read_payload header (drop header_size stream)
    ]
    else disconnected
