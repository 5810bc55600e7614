-- ===== src/Codec.antt =====
-- src/codec.cpp and include/srnp/msgs/codec.h: each message as bytes, and back.
pub mod RoundTrip
pub mod Safety
mod Tests
use srnp.Base.{ℕ, zero, suc, ◌/◌, Bool, List, [], ◌∷◌, ◌==◌, leb, if◌then◌else◌, length}
use srnp.Wire.{
  Result, ok, err, ◌>>=◌, ◌>>◌, pure, guard, Error, enum_out_of_range, implausible_count,
  trailing_bytes, Encoder, Decoder, Reader, write_integer, write_signed, write_boolean,
  write_string, reader, read_integer, read_signed, read_boolean, read_string, exhausted,
  max_payload,
}
use srnp.Messages.{
  Pair, PairType, Subscription, RemovePairRequest, IndicatePresence, ComponentInfo, Operation,
  UpdateComponents, MasterMessage,
}

-- `readEnum`: the underlying byte, if it is not past the highest value.
unfoldable pub read_enum : ℕ → Decoder ℕ
read_enum highest = do raw ← read_integer 1; guard (leb raw highest) enum_out_of_range; pure raw

abbrev pub pair_type_code : PairType → ℕ
pair_type_code PairType.invalid = 0
pair_type_code PairType.string = 1
pair_type_code PairType.bytes = 2
pair_type_code PairType.meta = 3

abbrev pub pair_type_of_code : ℕ → PairType
pair_type_of_code n =
    if n == 1
    then PairType.string
    else if n == 2
    then PairType.bytes
    else if n == 3
    then PairType.meta
    else PairType.invalid

abbrev pub operation_code : Operation → ℕ
operation_code Operation.add = 0
operation_code Operation.remove = 1

abbrev pub operation_of_code : ℕ → Operation
operation_of_code n = if n == 1 then Operation.remove else Operation.add

unfoldable pub encode_pair : Pair → Encoder
encode_pair pair = do
  write_signed 4 pair.owner
  write_string pair.key
  write_string pair.value
  write_integer 1 (pair_type_code pair.type)
  write_signed 8 pair.write_time
  write_signed 8 pair.expiry_time

unfoldable pub decode_pair : Decoder Pair
decode_pair = do
  owner ← read_signed 4
  key ← read_string
  value ← read_string
  type ← read_enum (pair_type_code PairType.meta)
  written ← read_signed 8
  expires ← read_signed 8
  pure (record {
    owner = owner;
    key = key;
    value = value;
    type = pair_type_of_code type;
    write_time = written;
    expiry_time = expires;
  })

unfoldable pub encode_subscription : Subscription → Encoder
encode_subscription message = do
  write_string message.key
  write_signed 4 message.owner_id
  write_signed 4 message.subscriber
  write_boolean message.registering

unfoldable pub decode_subscription : Decoder Subscription
decode_subscription = do
  key ← read_string
  owner ← read_signed 4
  subscriber ← read_signed 4
  registering ← read_boolean
  pure (record { key = key; owner_id = owner; subscriber = subscriber; registering = registering })

unfoldable pub encode_removal : RemovePairRequest → Encoder
encode_removal message = do write_signed 4 message.owner; write_string message.key

unfoldable pub decode_removal : Decoder RemovePairRequest
decode_removal = do
  owner ← read_signed 4
  key ← read_string
  pure (record { owner = owner; key = key })

unfoldable pub encode_presence : IndicatePresence → Encoder
encode_presence message = do
  write_string message.port
  write_boolean message.force_owner_id
  write_signed 4 message.owner_id

unfoldable pub decode_presence : Decoder IndicatePresence
decode_presence = do
  port ← read_string
  force ← read_boolean
  owner ← read_signed 4
  pure (record { port = port; force_owner_id = force; owner_id = owner })

unfoldable pub encode_component : ComponentInfo → Encoder
encode_component message = do
  write_signed 4 message.owner
  write_string message.ip
  write_string message.port

unfoldable pub decode_component : Decoder ComponentInfo
decode_component = do
  owner ← read_signed 4
  ip ← read_string
  port ← read_string
  pure (record { owner = owner; ip = ip; port = port })

unfoldable pub encode_update : UpdateComponents → Encoder
encode_update message = do
  write_integer 1 (operation_code message.operation)
  encode_component message.component

unfoldable pub decode_update : Decoder UpdateComponents
decode_update = do
  operation ← read_enum (operation_code Operation.remove)
  component ← decode_component
  pure (record { operation = operation_of_code operation; component = component })

-- `for (const auto& component : message.all_components) encode(writer, component);`
unfoldable pub encode_components : List ComponentInfo → Encoder
encode_components [] = pure tt
encode_components (c ∷ cs) = do encode_component c; encode_components cs

-- `resize(count)`, and a `decode` for each place.
unfoldable pub decode_components : ℕ → Decoder (List ComponentInfo)
decode_components zero = pure []
decode_components (suc n) = do c ← decode_component; cs ← decode_components n; pure (c ∷ cs)

-- `sizeof(ComponentInfo)`: an int, padded to 8 bytes, and two 32-byte strings.
abbrev pub component_info_size : ℕ
component_info_size = 72

abbrev pub max_components : ℕ
max_components = max_payload / component_info_size

unfoldable pub encode_master_message : MasterMessage → Encoder
encode_master_message message = do
  write_signed 4 message.owner
  write_integer 4 (length message.all_components)
  encode_components message.all_components

unfoldable pub decode_master_message : Decoder MasterMessage
decode_master_message = do
  owner ← read_signed 4
  count ← read_integer 4
  guard (leb count max_components) implausible_count
  components ← decode_components count
  pure (record { owner = owner; all_components = components })

-- `decodePayload`: a decoder that has to read every byte.
unfoldable pub decode_payload : {A : Type 0} → Decoder A → List ℕ → Result A
decode_payload decode payload = elim (decode (reader payload)) [
  | err e ↦ err e
  | ok (message, r) ↦ if exhausted r then ok message else err trailing_bytes
]
