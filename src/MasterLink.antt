-- ===== src/MasterLink.antt =====
-- src/server.cpp: `MasterLink`, the connection to the master. The master's address and what it sends
-- are arguments; asio's failures to connect, to write and to read are an end of the stream.
pub mod Registering
pub mod Listening
pub mod Examples
mod Tests
use srnp.Base.{
  ℕ, zero, suc, Bool, true, false, not, List, [], ◌∷◌, ◌++◌, Option, none, some, ℤ, pos, negsuc,
  Text, codes, text_eq, ◌==ℤ◌, leb, ◌==◌, if◌then◌else◌, length, take, drop,
}
use srnp.Numbers.{decimal}
use srnp.Wire.{
  Error, unexpected_reply, unexpected_notice, Result, ok, err, MessageType, FrameHeader, frame_of,
  header_size, decode_header,
}
use srnp.Messages.{any_owner, IndicatePresence, ComponentInfo, UpdateComponents, MasterMessage}
use srnp.Codec.{decode_payload, encode_presence, decode_master_message, decode_update}
use srnp.Channel.{Channel, Frame, Received, received, malformed, disconnected, read_payload, read}
use srnp.Channel
use srnp.Session.{Session}
use srnp.Client.{Client}
use srnp.Client.Peers.{on_component_update}
use srnp.Server.{End, refused, gone, out_of_fuel}

-- `ip` if it is not loopback, or else the address that the master was reached by.
abbrev pub reachable_ip : Text → Text → Text
reachable_ip master_ip ip = if text_eq ip (codes "127.0.0.1") then master_ip else ip

abbrev pub reachable : Text → ComponentInfo → ComponentInfo
reachable master_ip component = record component { ip = reachable_ip master_ip component.ip }

unfoldable pub all_reachable : Text → List ComponentInfo → List ComponentInfo
all_reachable master_ip [] = []
all_reachable master_ip (c ∷ cs) = reachable master_ip c ∷ all_reachable master_ip cs

unfoldable pub presence_of : ℕ → ℤ → IndicatePresence
presence_of our_port desired_owner_id = record {
  port = decimal our_port;
  force_owner_id = not (desired_owner_id ==ℤ any_owner);
  owner_id = desired_owner_id;
}

-- What `registerWithMaster` writes.
unfoldable pub registration : ℕ → ℤ → Result (List ℕ)
registration our_port desired_owner_id =
    frame_of MessageType.indicate_presence (encode_presence (presence_of our_port desired_owner_id))

-- How the wait for the reply ends: with the welcome and the bytes behind it, with a `DecodeError`, or
-- with the connection.
pub data Reply : Type 0 where
  welcomed : MasterMessage → List ℕ → Reply
  broken : Error → Reply
  lost : Reply

abbrev pub decoded_reply : Text → List ℕ → Result MasterMessage → Reply
decoded_reply master_ip rest (err e) = broken e
decoded_reply master_ip rest (ok m) =
    welcomed (record m { all_components = all_reachable master_ip m.all_components }) rest

abbrev pub reply_payload : Text → Received → Reply
reply_payload master_ip (received frame rest) =
    decoded_reply master_ip rest (decode_payload decode_master_message frame.payload)
reply_payload master_ip _ = lost

-- The type is checked before the payload is read.
unfoldable pub reply_with : Text → FrameHeader → List ℕ → Reply
reply_with master_ip header stream = elim header.type [
  | MessageType.master_message ↦ reply_payload master_ip (read_payload header stream)
  | _ ↦ broken unexpected_reply
]

unfoldable pub read_reply : Text → List ℕ → Reply
read_reply master_ip stream =
    if leb header_size (length stream)
    then elim (decode_header (take header_size stream)) [
      | err e ↦ broken e
      | ok header ↦ reply_with master_ip header (drop header_size stream)
    ]
    else lost

-- What one frame of the master says.
unfoldable pub notice : Text → Frame → Result UpdateComponents
notice master_ip frame = elim frame.header.type [
  | MessageType.update_components ↦ elim (decode_payload decode_update frame.payload) [
    | err e ↦ err e
    | ok update ↦ ok (record update { component = reachable master_ip update.component })
  ]
  | _ ↦ err unexpected_notice
]

abbrev pub Listened : Type 0
Listened = Client × End

abbrev pub noticed : Client → Result UpdateComponents → (Client → Listened) → Listened
noticed c (err e) later = (c, refused e)
noticed c (ok update) later = later (on_component_update c update).0

unfoldable pub hear : (Client → List ℕ → Listened) → Text → Client → Received → Listened
hear later master_ip c (malformed e) = (c, refused e)
hear later master_ip c disconnected = (c, gone)
hear later master_ip c (received frame rest) =
    noticed c (notice master_ip frame) (λ c'. later c' rest)

-- `run`, on all that the master sends: it ends when the connection does, or at a frame that is no
-- update. The client is what the updates made of it by then.
unfoldable pub listen : ℕ → Text → Client → List ℕ → Listened
listen zero master_ip c stream = (c, out_of_fuel)
listen (suc fuel) master_ip c stream = hear (listen fuel master_ip) master_ip c (read stream)
