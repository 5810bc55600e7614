-- ===== src/Codec/RoundTrip.antt =====
-- src/codec.cpp: what each encoder writes, its decoder reads back.
use srnp.Base.{
  ℕ, ◌≤◌, ◌<◌, ◌≡◌, refl, List, [], ◌∷◌, ℤ, Text, length, All, leb, le→leb, ==_iff, arith,
}
use srnp.Wire.{
  ok, ◌>>=◌, ◌>>◌, pure, enum_out_of_range, implausible_count, Encoder, Decoder, write_integer,
  write_signed, read_signed, exhausted, take_buffer, max_payload,
}
use srnp.Wire.Words.{IsSigned}
use srnp.Wire.Actions.{
  Codes, Codes-bind, Codes-map, Codes-guard, Codes-checked, pure-Codes, integer-Codes, signed-Codes,
  string-Codes, boolean-Codes, take_buffer-Writes, Reads-whole,
}
use srnp.Messages.{
  Pair, PairType, Subscription, RemovePairRequest, IndicatePresence, ComponentInfo, Operation,
  UpdateComponents, MasterMessage,
}
use srnp.Codec.{
  read_enum, pair_type_code, pair_type_of_code, operation_code, operation_of_code, encode_pair,
  decode_pair, encode_subscription, decode_subscription, encode_removal, decode_removal,
  encode_presence, decode_presence, encode_component, decode_component, encode_update,
  decode_update, encode_components, decode_components, max_components, encode_master_message,
  decode_master_message, decode_payload,
}

-- What fits the wire: an `int`, an `int64_t`, a string within the limit.
abbrev pub IsInt32 : ℤ → Type 0
IsInt32 = IsSigned 4

abbrev pub IsInt64 : ℤ → Type 0
IsInt64 = IsSigned 8

abbrev pub IsShort : Text → Type 0
IsShort s = length s ≤ max_payload

pub record IsPair (p : Pair) : Type 0 where
  pub owner : IsInt32 p.owner
  pub key : IsShort p.key
  pub value : IsShort p.value
  pub write_time : IsInt64 p.write_time
  pub expiry_time : IsInt64 p.expiry_time

pub record IsSubscription (m : Subscription) : Type 0 where
  pub key : IsShort m.key
  pub owner_id : IsInt32 m.owner_id
  pub subscriber : IsInt32 m.subscriber

pub record IsRemoval (m : RemovePairRequest) : Type 0 where
  pub owner : IsInt32 m.owner
  pub key : IsShort m.key

pub record IsPresence (m : IndicatePresence) : Type 0 where
  pub port : IsShort m.port
  pub owner_id : IsInt32 m.owner_id

pub record IsComponent (m : ComponentInfo) : Type 0 where
  pub owner : IsInt32 m.owner
  pub ip : IsShort m.ip
  pub port : IsShort m.port

pub record IsMasterMessage (m : MasterMessage) : Type 0 where
  pub owner : IsInt32 m.owner
  pub count : length m.all_components ≤ max_components
  pub components : All IsComponent m.all_components

int32-Codes : (a : ℤ) → IsInt32 a → Codes (write_signed 4 a) (read_signed 4) a
int32-Codes a h = signed-Codes 4 a (omega arith) h

int64-Codes : (a : ℤ) → IsInt64 a → Codes (write_signed 8 a) (read_signed 8) a
int64-Codes a h = signed-Codes 8 a (omega arith) h

enum-Codes :
    (highest v : ℕ) → v ≤ highest → highest < 256 → Codes (write_integer 1 v) (read_enum highest) v
unfolding read_enum
enum-Codes highest v h k =
    Codes-checked (λ raw. leb raw highest) enum_out_of_range (le→leb v highest h)
      (integer-Codes 1 v (omega arith))

pair_type-Codes :
    (t : PairType) → Codes (write_integer 1 (pair_type_code t)) (read_enum 3) (pair_type_code t)
pair_type-Codes PairType.invalid = enum-Codes 3 0 (omega arith) (omega arith)
pair_type-Codes PairType.string = enum-Codes 3 1 (omega arith) (omega arith)
pair_type-Codes PairType.bytes = enum-Codes 3 2 (omega arith) (omega arith)
pair_type-Codes PairType.meta = enum-Codes 3 3 (omega arith) (omega arith)

operation-Codes :
    (o : Operation) → Codes (write_integer 1 (operation_code o)) (read_enum 1) (operation_code o)
operation-Codes Operation.add = enum-Codes 1 0 (omega arith) (omega arith)
operation-Codes Operation.remove = enum-Codes 1 1 (omega arith) (omega arith)

operation_of_code-code : (o : Operation) → operation_of_code (operation_code o) ≡ o
operation_of_code-code Operation.add = refl
operation_of_code-code _ = refl

pair_type_of_code-code : (t : PairType) → pair_type_of_code (pair_type_code t) ≡ t
pair_type_of_code-code PairType.invalid = refl
pair_type_of_code-code _ = refl

removal-Codes : (m : RemovePairRequest) → IsRemoval m → Codes (encode_removal m) decode_removal m
unfolding encode_removal decode_removal
removal-Codes m v =
    Codes-bind _ (int32-Codes m.owner v.owner) (Codes-map _ (string-Codes m.key v.key))

subscription-Codes :
    (m : Subscription) → IsSubscription m → Codes (encode_subscription m) decode_subscription m
unfolding encode_subscription decode_subscription
subscription-Codes m v = Codes-bind _ (string-Codes m.key v.key) (
    Codes-bind _ (int32-Codes m.owner_id v.owner_id) (
      Codes-bind _ (int32-Codes m.subscriber v.subscriber)
        (Codes-map _ (boolean-Codes m.registering))))

presence-Codes : (m : IndicatePresence) → IsPresence m → Codes (encode_presence m) decode_presence m
unfolding encode_presence decode_presence
presence-Codes m v = Codes-bind _ (string-Codes m.port v.port) (
    Codes-bind _ (boolean-Codes m.force_owner_id) (Codes-map _ (int32-Codes m.owner_id v.owner_id)))

component-Codes :
    (m : ComponentInfo) → IsComponent m → Codes (encode_component m) decode_component m
unfolding encode_component decode_component
component-Codes m v =
    Codes-bind _ (int32-Codes m.owner v.owner)
      (Codes-bind _ (string-Codes m.ip v.ip) (Codes-map _ (string-Codes m.port v.port)))

-- The end of a pair, behind a type that reads back.
times-Codes :
    (p : Pair)
    → IsPair p
    → Codes
        (do write_signed 8 p.write_time; write_signed 8 p.expiry_time)
        (do
          written ← read_signed 8
          expires ← read_signed 8
          pure (record {
            owner = p.owner;
            key = p.key;
            value = p.value;
            type = pair_type_of_code (pair_type_code p.type);
            write_time = written;
            expiry_time = expires;
          }))
        p
times-Codes p v = rw (pair_type_of_code-code p.type) (
    Codes-bind _ (int64-Codes p.write_time v.write_time)
      (Codes-map _ (int64-Codes p.expiry_time v.expiry_time)))

pub pair-Codes : (p : Pair) → IsPair p → Codes (encode_pair p) decode_pair p
unfolding encode_pair decode_pair
pair-Codes p v = Codes-bind _ (int32-Codes p.owner v.owner) (
    Codes-bind _ (string-Codes p.key v.key) (
      Codes-bind _ (string-Codes p.value v.value)
        (Codes-bind _ (pair_type-Codes p.type) (times-Codes p v))))

update_tail-Codes :
    (m : UpdateComponents)
    → IsComponent m.component
    → Codes
        (encode_component m.component)
        (decode_component >>= λ c.
          pure
            (record { operation = operation_of_code (operation_code m.operation); component = c }))
        m
update_tail-Codes m v =
    rw (operation_of_code-code m.operation) (Codes-map _ (component-Codes m.component v))

pub update-Codes :
    (m : UpdateComponents) → IsComponent m.component → Codes (encode_update m) decode_update m
unfolding encode_update decode_update
update-Codes m v = Codes-bind _ (operation-Codes m.operation) (update_tail-Codes m v)

components-Codes :
    (cs : List ComponentInfo)
    → All IsComponent cs
    → Codes (encode_components cs) (decode_components (length cs)) cs
unfolding encode_components decode_components
components-Codes [] v = pure-Codes []
components-Codes (c ∷ cs) v =
    Codes-bind _ (component-Codes c v.0) (Codes-map _ (components-Codes cs v.1))

pub master_message-Codes :
    (m : MasterMessage)
    → IsMasterMessage m
    → Codes (encode_master_message m) decode_master_message m
unfolding encode_master_message decode_master_message
master_message-Codes m v =
    let count = length m.all_components in
    Codes-bind _ (int32-Codes m.owner v.owner) (
      Codes-bind _ (integer-Codes 4 count (omega (arith, v.count))) (
        Codes-guard _ implausible_count (le→leb count max_components v.count)
          (Codes-map _ (components-Codes m.all_components v.components))))

-- `encode` into a fresh writer gives bytes, and `decodePayload` reads those bytes as the message.
abbrev pub RoundTrips : {A : Type 0} → (A → Encoder) → Decoder A → A → Type 0
RoundTrips encode decode a =
    (bytes : List ℕ) × (take_buffer (encode a) ≡ ok bytes) × (decode_payload decode bytes ≡ ok a)

Codes-RoundTrips :
    {A : Type 0} (encode : A → Encoder) (decode : Decoder A) (a : A)
    → Codes (encode a) decode a
    → RoundTrips encode decode a
unfolding decode_payload exhausted
Codes-RoundTrips encode decode a c = (
  c.printed,
  take_buffer-Writes c.writes,
  rw (Reads-whole c.reads, decode_payload, (==_iff (length c.printed) (length c.printed)).1 refl),
)

pub presence-RoundTrips :
    (m : IndicatePresence) → IsPresence m → RoundTrips encode_presence decode_presence m
presence-RoundTrips m v = Codes-RoundTrips encode_presence decode_presence m (presence-Codes m v)

pub master_message-RoundTrips :
    (m : MasterMessage)
    → IsMasterMessage m
    → RoundTrips encode_master_message decode_master_message m
master_message-RoundTrips m v =
    Codes-RoundTrips encode_master_message decode_master_message m (master_message-Codes m v)

pub update-RoundTrips :
    (u : UpdateComponents) → IsComponent u.component → RoundTrips encode_update decode_update u
update-RoundTrips u v = Codes-RoundTrips encode_update decode_update u (update-Codes u v)

-- A pair whose integers fit and whose key and value are within the limit is encoded, and its
-- bytes decode to the same pair, times and type included.
pub decode-encode_pair : (p : Pair) → IsPair p → RoundTrips encode_pair decode_pair p
decode-encode_pair p v = Codes-RoundTrips encode_pair decode_pair p (pair-Codes p v)

-- So with a subscription, a removal and a presence.
pub decode-encode_messages :
    (s : Subscription) (r : RemovePairRequest) (i : IndicatePresence)
    → IsSubscription s
    → IsRemoval r
    → IsPresence i
    → RoundTrips encode_subscription decode_subscription s
      × RoundTrips encode_removal decode_removal r
      × RoundTrips encode_presence decode_presence i
decode-encode_messages s r i vs vr vi = (
  Codes-RoundTrips encode_subscription decode_subscription s (subscription-Codes s vs),
  Codes-RoundTrips encode_removal decode_removal r (removal-Codes r vr),
  presence-RoundTrips i vi,
)

-- The master's welcome, with every component that it lists, and its add and remove notices are
-- encoded and decoded back, if the list is no longer than what the decoder finds plausible.
pub decode-encode_master :
    (m : MasterMessage) (u : UpdateComponents)
    → IsMasterMessage m
    → IsComponent u.component
    → RoundTrips encode_master_message decode_master_message m
      × RoundTrips encode_update decode_update u
decode-encode_master m u vm vu = (master_message-RoundTrips m vm, update-RoundTrips u vu)
