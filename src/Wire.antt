-- ===== src/Wire.antt =====
-- include/srnp/wire.h and src/wire.cpp: the writer and the reader of bytes, the frame header, and
-- whole frames. A byte is a number below 256; a `throw DecodeError` is an `err`.
pub mod Words
pub mod Actions
pub mod Headers
pub mod Results
use mathlib.Core.List.{reverse}
use srnp.Base.{
  ℕ, zero, suc, ◌+◌, ◌*◌, ◌/◌, ◌%◌, ◌^◌, ◌-◌, ◌≡◌, Bool, not, List, [], ◌∷◌, ◌++◌, ℤ, pos, negsuc,
  Text, length, take, drop, ltb, leb, ◌==◌, ◌||◌, if◌then◌else◌,
}

-- The texts of the `DecodeError`s that the code throws, with what they print.
pub data Error : Type 0 where
  string_too_long ended_early header_wrong_size not_srnp payload_too_long : Error
  enum_out_of_range implausible_count trailing_bytes unhandled_type not_introduced : Error
  unexpected_reply unexpected_notice : Error
  unsupported_version unknown_type header_payload_too_long : ℕ → Error

pub data Result {ℓ} (A : Type ℓ) : Type ℓ where
  ok : A → Result A
  err : Error → Result A

-- A method of a `Writer` or a `Reader` changes it, and may throw. An exception that leaves a method
-- ends the whole encoding or decoding, so the object is not kept beside the error.
abbrev pub Action {ℓ} : Type ℓ → Type ℓ → Type ℓ
Action S A = S → Result (A × S)

infixl 5 ◌>>=◌ ◌>>◌
unfoldable pub ◌>>=◌ {ℓ} : {S A B : Type ℓ} → Action S A → (A → Action S B) → Action S B
◌>>=◌ m f s = elim (m s) [ err e ↦ err e | ok (a, s') ↦ f a s' ]

abbrev pub ◌>>◌ : {S B : Type 0} → Action S Unit → Action S B → Action S B
m >> n = m >>= λ _. n

unfoldable pub pure {ℓ} : {S A : Type ℓ} → A → Action S A
pure a s = ok (a, s)

unfoldable pub throw {ℓ} : {S A : Type ℓ} → Error → Action S A
throw e s = err e

unfoldable pub guard : {S : Type 0} → Bool → Error → Action S Unit
guard b e s = if b then ok (tt, s) else err e

-- What a function returns that has the object as a local variable.
abbrev pub value_of {ℓ} : {S A : Type ℓ} → Result (A × S) → Result A
value_of (ok (a, s)) = ok a
value_of (err e) = err e

abbrev pub magic : ℕ
magic = 0x504E5253

abbrev pub version : ℕ
version = 2

abbrev pub header_size : ℕ
header_size = 16

abbrev pub max_payload : ℕ
max_payload = 16 * 1024 * 1024

pub data MessageType : Type 0 where
  invalid subscription pair pair_update indicate_presence : MessageType
  master_message update_components remove_pair pair_removed : MessageType

-- The underlying value of the enum, and the cast of a value in its range.
abbrev pub type_code : MessageType → ℕ
type_code MessageType.invalid = 0
type_code MessageType.subscription = 1
type_code MessageType.pair = 2
type_code MessageType.pair_update = 3
type_code MessageType.indicate_presence = 4
type_code MessageType.master_message = 5
type_code MessageType.update_components = 6
type_code MessageType.remove_pair = 7
type_code MessageType.pair_removed = 8

abbrev pub type_of_code : ℕ → MessageType
type_of_code n =
    if n == 1
    then MessageType.subscription
    else if n == 2
    then MessageType.pair
    else if n == 3
    then MessageType.pair_update
    else if n == 4
    then MessageType.indicate_presence
    else if n == 5
    then MessageType.master_message
    else if n == 6
    then MessageType.update_components
    else if n == 7
    then MessageType.remove_pair
    else if n == 8
    then MessageType.pair_removed
    else MessageType.invalid

pub record FrameHeader : Type 0 where
  pub type : MessageType
  pub payload_length : ℕ
  pub subscriber : ℤ

-- The bytes of an n-byte unsigned integer, lowest first.
unfoldable pub le_bytes : ℕ → ℕ → List ℕ
le_bytes zero v = []
le_bytes (suc n) v = v % 256 ∷ le_bytes n (v / 256)

unfoldable pub from_le : List ℕ → ℕ
from_le [] = 0
from_le (b ∷ bs) = b + 256 * from_le bs

-- `bit_cast` between an integer and the array of its bytes in memory, on a little-endian host or on
-- a big-endian one.
unfoldable pub memory_bytes : Bool → ℕ → ℕ → List ℕ
memory_bytes little n v = if little then le_bytes n v else reverse (le_bytes n v)

unfoldable pub from_memory : Bool → List ℕ → ℕ
from_memory little bs = if little then from_le bs else from_le (reverse bs)

unfoldable pub to_little_endian : Bool → ℕ → ℕ → ℕ
unfolding memory_bytes from_memory
to_little_endian little n v =
    if little then v else from_memory little (reverse (memory_bytes little n v))

-- The bit pattern of an n-byte signed integer, in two's complement, and the integer of a pattern.
unfoldable pub bits : ℕ → ℤ → ℕ
bits n (pos a) = a % 256 ^ n
bits n (negsuc a) = 256 ^ n - 1 - a % 256 ^ n

unfoldable pub signed : ℕ → ℕ → ℤ
signed n w = if ltb w (256 ^ n / 2) then pos w else negsuc (256 ^ n - 1 - w)

pub record Writer : Type 0 where
  pub buffer : List ℕ

abbrev pub Encoder : Type 0
Encoder = Action Writer Unit

abbrev pub empty_writer : Writer
empty_writer = record { buffer = [] }

-- `integer<T>` at an unsigned type of n bytes, and at a signed one
unfoldable pub write_integer : ℕ → ℕ → Encoder
write_integer n v w = ok (tt, record { buffer = w.buffer ++ le_bytes n v })

unfoldable pub write_signed : ℕ → ℤ → Encoder
write_signed n v = write_integer n (bits n v)

unfoldable pub write_boolean : Bool → Encoder
write_boolean b = write_integer 1 (if b then 1 else 0)

-- `buffer_.insert(buffer_.end(), first, last)`
unfoldable pub append_bytes : List ℕ → Encoder
append_bytes bytes w = ok (tt, record { buffer = w.buffer ++ bytes })

unfoldable pub write_string : Text → Encoder
write_string s = do
  guard (leb (length s) max_payload) string_too_long
  write_integer 4 (length s)
  append_bytes s

pub record Reader : Type 0 where
  pub bytes : List ℕ
  pub offset : ℕ

abbrev pub Decoder : Type 0 → Type 0
Decoder = Action Reader

abbrev pub reader : List ℕ → Reader
reader bytes = record { bytes = bytes; offset = 0 }

unfoldable pub need : ℕ → Decoder Unit
need count r = if ltb (length r.bytes) (r.offset + count) then err ended_early else ok (tt, r)

-- The next `count` bytes, which `need` has checked.
unfoldable pub next_bytes : ℕ → Decoder (List ℕ)
next_bytes count r = ok (take count (drop r.offset r.bytes), record r { offset = r.offset + count })

unfoldable pub read_integer : ℕ → Decoder ℕ
read_integer n = do need n; raw ← next_bytes n; pure (from_le raw)

unfoldable pub read_signed : ℕ → Decoder ℤ
read_signed n = do w ← read_integer n; pure (signed n w)

unfoldable pub read_boolean : Decoder Bool
read_boolean = do b ← read_integer 1; pure (not (b == 0))

unfoldable pub read_string : Decoder Text
read_string = do n ← read_integer 4; need n; next_bytes n

unfoldable pub exhausted : Reader → Bool
exhausted r = r.offset == length r.bytes

-- What an encoder leaves in a fresh writer, `take() &&`.
unfoldable pub take_buffer : Encoder → Result (List ℕ)
take_buffer m = elim (m empty_writer) [ err e ↦ err e | ok (u, w) ↦ ok w.buffer ]

unfoldable pub write_header : FrameHeader → Encoder
write_header header = do
  write_integer 4 magic
  write_integer 1 version
  write_integer 1 (type_code header.type)
  write_integer 2 0
  write_integer 4 header.payload_length
  write_signed 4 header.subscriber

unfoldable pub encode_header : FrameHeader → Result (List ℕ)
encode_header header = take_buffer (write_header header)

unfoldable pub read_header : Decoder FrameHeader
read_header = do
  m ← read_integer 4
  guard (m == magic) not_srnp
  v ← read_integer 1
  guard (v == version) (unsupported_version v)
  t ← read_integer 1
  guard (not (t == 0 || ltb (type_code MessageType.pair_removed) t)) (unknown_type t)
  flags ← read_integer 2
  n ← read_integer 4
  guard (leb n max_payload) (header_payload_too_long n)
  s ← read_signed 4
  pure (record { type = type_of_code t; payload_length = n; subscriber = s })

unfoldable pub decode_header : List ℕ → Result FrameHeader
decode_header bytes =
    if length bytes == header_size
    then value_of (read_header (reader bytes))
    else err header_wrong_size

unfoldable pub frame : MessageType → List ℕ → ℤ → Result (List ℕ)
frame type payload subscriber =
    if leb (length payload) max_payload
    then elim (encode_header
        (record { type = type; payload_length = length payload; subscriber = subscriber })) [
          | err e ↦ err e
          | ok bytes ↦ ok (bytes ++ payload)
        ]
    else err payload_too_long

-- `frameOf`: a message's encoder, framed. The last argument defaults to -1 there.
unfoldable pub frame_of : MessageType → Encoder → Result (List ℕ)
frame_of type message = elim (take_buffer message) [
  | err e ↦ err e
  | ok payload ↦ frame type payload (negsuc 0)
]
