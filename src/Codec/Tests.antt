-- ===== src/Codec/Tests.antt =====
-- The codec on concrete messages.
use srnp.Base.{ℕ, take, ◌≡◌, refl, true, false, List, [], ◌∷◌, pos, negsuc, codes, arith}
use srnp.Wire.{
  ok, err, ◌>>=◌, pure, guard, MessageType, frame, frame_of, encode_header, decode_header,
  take_buffer, write_integer, write_signed, write_string, append_bytes, le_bytes, bits, signed,
  from_le, need, next_bytes, read_integer, read_signed, read_header, write_header,
  unsupported_version, to_little_endian, memory_bytes, from_memory,
}
use srnp.Wire.Headers.{IsHeader}
use srnp.Wire.{FrameHeader}
use srnp.Messages.{
  Pair, PairType, Subscription, RemovePairRequest, IndicatePresence, ComponentInfo, Operation,
  UpdateComponents, MasterMessage, new_pair,
}
use srnp.Codec.{
  encode_pair, decode_pair, encode_subscription, decode_subscription, encode_removal,
  decode_removal, encode_presence, decode_presence, encode_master_message, decode_master_message,
  encode_update, decode_update,
}
use srnp.Codec.RoundTrip.{
  RoundTrips, decode-encode_pair, decode-encode_messages, decode-encode_master,
}

abbrev temperature : Pair
temperature = record (new_pair (pos 1234) (codes "temp") (codes "21.5") PairType.string) {
  write_time = pos 1000000007;
  expiry_time = negsuc 4;
}

decode-encode_pair_example : RoundTrips encode_pair decode_pair temperature
decode-encode_pair_example = decode-encode_pair temperature (omega arith)

abbrev everything : Subscription
everything = record {
  key = codes "*";
  owner_id = negsuc 0;
  subscriber = pos 1234;
  registering = true;
}

abbrev dropped : RemovePairRequest
dropped = record { owner = pos 1234; key = codes "temp" }

abbrev hello : IndicatePresence
hello = record { port = codes "40000"; force_owner_id = false; owner_id = negsuc 0 }

decode-encode_messages_example :
    RoundTrips encode_subscription decode_subscription everything
    × RoundTrips encode_removal decode_removal dropped
    × RoundTrips encode_presence decode_presence hello
decode-encode_messages_example =
    decode-encode_messages everything dropped hello (omega arith) (omega arith) (omega arith)

abbrev peer : ComponentInfo
peer = record { owner = pos 1234; ip = codes "127.0.0.1"; port = codes "40000" }

abbrev welcome : MasterMessage
welcome = record { owner = pos 1001; all_components = peer ∷ peer ∷ [] }

abbrev left : UpdateComponents
left = record { operation = Operation.remove; component = peer }

decode-encode_master_example :
    RoundTrips encode_master_message decode_master_message welcome
    × RoundTrips encode_update decode_update left
decode-encode_master_example = decode-encode_master welcome left (omega arith) (omega arith)

abbrev update_header : FrameHeader
update_header = record {
  type = MessageType.pair_update;
  payload_length = 37;
  subscriber = negsuc 0;
}

update_header-IsHeader : IsHeader update_header
update_header-IsHeader = record { known = λ e. cc; short = omega arith; fits = omega arith }

-- A removal as the bytes of one frame: magic, version, type, flags, length, subscriber, owner, key.
abbrev removal_bytes : List ℕ
removal_bytes =
    83 ∷ 82 ∷ 78 ∷ 80 ∷ 2 ∷ 8 ∷ 0 ∷ 0 ∷ 12 ∷ 0 ∷ 0 ∷ 0 ∷ 255 ∷ 255 ∷ 255 ∷ 255 ∷ 210 ∷ 4 ∷ 0 ∷ 0 ∷ 4
    ∷ 0 ∷ 0 ∷ 0 ∷ 116 ∷ 101 ∷ 109 ∷ 112 ∷ []

removal_frame : frame_of MessageType.pair_removed (encode_removal dropped) ≡ ok removal_bytes
unfolding frame_of frame take_buffer encode_header write_header encode_removal ◌>>=◌ guard
    write_integer write_signed write_string append_bytes le_bytes bits
removal_frame = refl

old_version :
    decode_header (83 ∷ 82 ∷ 78 ∷ 80 ∷ 1 ∷ 8 ∷ 0 ∷ 0 ∷ 0 ∷ 0 ∷ 0 ∷ 0 ∷ 0 ∷ 0 ∷ 0 ∷ 0 ∷ [])
    ≡ err (unsupported_version 1)
unfolding decode_header read_header read_integer need next_bytes from_le ◌>>=◌ guard pure
old_version = refl

abbrev removal_header : FrameHeader
removal_header = record {
  type = MessageType.pair_removed;
  payload_length = 12;
  subscriber = negsuc 0;
}

removal_header_decodes : decode_header (take 16 removal_bytes) ≡ ok removal_header
unfolding decode_header read_header read_integer read_signed need next_bytes from_le signed ◌>>=◌
    guard pure
removal_header_decodes = refl

big_endian_word : to_little_endian false 4 0x504E5253 ≡ 0x53524E50
unfolding to_little_endian memory_bytes from_memory le_bytes from_le
big_endian_word = refl
