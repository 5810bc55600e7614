-- ===== src/MasterLink/Examples.antt =====
-- A master that has one component, and the bytes of the registration of another: data for tests.
use srnp.Base.{ℕ, ◌≡◌, refl, List, [], ◌∷◌, ℤ, pos, codes, lookup, arith, int_order}
use srnp.Numbers.{decimal, digits}
use srnp.Wire.{
  Result, ok, err, MessageType, frame, frame_of, take_buffer, ◌>>=◌, write_integer, write_signed,
  write_boolean, write_string, append_bytes, guard, pure, le_bytes, bits, encode_header,
  write_header,
}
use srnp.Messages.{MasterMessage}
use srnp.Codec.{encode_presence, encode_master_message, encode_components, encode_component}
use srnp.Codec.RoundTrip.{IsPresence}
use srnp.MasterHub.{HubSession, Hub, owner_for, register_component, all_components}
use srnp.MasterLink.{presence_of, registration}

abbrev pub other : HubSession
other = record { address = codes "127.0.0.1"; port = codes "40001" }

abbrev pub hub : Hub
hub = record { sessions = (pos 1000, other) ∷ []; sent = [] }

abbrev pub draw : ℤ → ℕ
draw seed = 1000

abbrev pub bytes_of : Result (List ℕ) → List ℕ
bytes_of (ok bytes) = bytes
bytes_of (err e) = []

abbrev pub welcome : MasterMessage
welcome = record {
  owner = pos 7;
  all_components = record { owner = pos 1000; ip = codes "127.0.0.1"; port = codes "40001" } ∷ [];
}

abbrev pub request : List ℕ
request = bytes_of (registration 40000 (pos 7))

abbrev pub reply : List ℕ
reply = bytes_of (frame_of MessageType.master_message (encode_master_message welcome))

pub built_request : registration 40000 (pos 7) ≡ ok request
unfolding registration frame_of frame take_buffer ◌>>=◌ write_integer write_signed write_boolean
    write_string append_bytes guard pure le_bytes bits encode_header write_header encode_presence
    presence_of decimal digits
built_request = refl

pub built_reply : frame_of MessageType.master_message (encode_master_message welcome) ≡ ok reply
unfolding frame_of frame take_buffer ◌>>=◌ write_integer write_signed write_boolean write_string
    append_bytes guard pure le_bytes bits encode_header write_header encode_master_message
    encode_components encode_component
built_reply = refl

pub registered :
    (register_component draw hub
      (record { address = codes "10.0.0.3"; port = (presence_of 40000 (pos 7)).port })
      (presence_of 40000 (pos 7))).1
    ≡ welcome
unfolding register_component owner_for presence_of lookup all_components
registered = refl

pub short_port : IsPresence (presence_of 40000 (pos 7))
unfolding presence_of decimal digits
short_port = omega arith
