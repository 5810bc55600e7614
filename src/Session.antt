-- ===== src/Session.antt =====
-- include/srnp/client.h and src/client.cpp: `ClientSession`, the connection to another component's
-- server. Frames wait in `pending` until there is a channel. What runs under `channel_mutex_` is one
-- function; `connect` sends the frames that waited once it has released the mutex, and is here the case
-- that no other thread sends in between.
pub mod Connecting
mod Tests
use srnp.Base.{
  ℕ, Bool, true, false, List, [], ◌∷◌, ◌++◌, Option, none, some, ℤ, Text, length, drop, leb,
  if◌then◌else◌,
}
use srnp.Messages.{PairKey}
use srnp.Channel.{Channel, new_channel}
use srnp.Channel

abbrev pub max_pending_frames : ℕ
max_pending_frames = 1024

pub record Pending : Type 0 where
  pub bytes : List ℕ
  pub coalesce_key : Option PairKey

pub record Session : Type 0 where
  pub host : Text
  pub port : Text
  pub endpoint_owner_id : ℤ
  pub channel : Option Channel
  pub pending : List Pending
  pub closing : Bool

abbrev pub new_session : Text → Text → ℤ → Session
new_session host port endpoint = record {
  host = host;
  port = port;
  endpoint_owner_id = endpoint;
  channel = none;
  pending = [];
  closing = false;
}

-- `pending_`, with room for one more.
abbrev pub with_room : List Pending → List Pending
with_room pending = if leb max_pending_frames (length pending) then drop 1 pending else pending

unfoldable pub queue : Session → List ℕ → Option PairKey → Option Channel → Session
queue s frame key none = record s {
  pending = with_room s.pending ++ record { bytes = frame; coalesce_key = key } ∷ [];
}
queue s frame key (some channel) = record s { channel = some (Channel.send channel frame key).0 }

unfoldable pub send : Session → List ℕ → Option PairKey → Session
send s frame key = if s.closing then s else queue s frame key s.channel

-- `for (auto& queued : waiting) channel->send(...)`
unfoldable pub send_waiting : Channel → List Pending → Channel
send_waiting c [] = c
send_waiting c (p ∷ ps) = send_waiting (Channel.send c p.bytes p.coalesce_key).0 ps

-- The end of `connect`, when the socket is connected, and what it returns.
unfoldable pub connect : Session → Session × Bool
connect s =
    if s.closing
    then (s, false)
    else (record s { channel = some (send_waiting new_channel s.pending); pending = [] }, true)

-- The session, and the channel that is closed.
unfoldable pub close : Session → Session × Option Channel
close s = (
  record s { closing = true; channel = none; pending = [] },
  elim s.channel [ none ↦ none | some channel ↦ some (Channel.close channel) ],
)
