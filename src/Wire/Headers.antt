-- ===== src/Wire/Headers.antt =====
-- src/wire.cpp: headers and whole frames.
use srnp.Base.{
  ==_iff, leb→le, ℕ, ◌≤◌, ◌<◌, ◌≡◌, refl, ◌≢◌, true, not, List, ◌++◌, ℤ, length, length-append,
  take, drop, drop-append, take-append, ltb, ◌==◌, ◌||◌, le→leb, lt→leb_false, arith,
}
use srnp.Wire.{
  reader, read_integer, unknown_type, header_payload_too_long, ok, err, ◌>>=◌, pure, MessageType,
  type_code, type_of_code, FrameHeader, write_integer, write_signed, read_signed, write_header,
  encode_header, decode_header, read_header, frame, take_buffer, magic, version, header_size,
  le_bytes, bits, max_payload, payload_too_long, not_srnp, unsupported_version,
}
use srnp.Wire.Words.{IsSigned, length-le_bytes}
use srnp.Wire.Actions.{
  value_of-ok, Yields, Yields-bind, Yields-guard, Yields-pure, Codes, Codes-bind, Codes-guard,
  Codes-map, integer-Codes, signed-Codes, take_buffer-Writes, Reads-whole,
}

-- What the code puts in a header: a known type, a payload within the limit, an `int32_t`.
pub record IsHeader (h : FrameHeader) : Type 0 where
  pub known : h.type ≢ MessageType.invalid
  pub short : h.payload_length ≤ max_payload
  pub fits : IsSigned 4 h.subscriber

type_code-known :
    (t : MessageType)
    → t ≢ MessageType.invalid
    → not (type_code t == 0 || ltb 8 (type_code t)) ≡ true
type_code-known MessageType.invalid h = absurd (h refl)
type_code-known _ h = refl

type_of_code-type_code : (t : MessageType) → type_of_code (type_code t) ≡ t
type_of_code-type_code MessageType.invalid = refl
type_of_code-type_code _ = refl

type_code_lt : (t : MessageType) → type_code t < 256
type_code_lt MessageType.invalid = omega arith
type_code_lt _ = omega arith

-- The end of the header, behind a type that reads back.
subscriber-Codes :
    (h : FrameHeader)
    → IsSigned 4 h.subscriber
    → Codes
        (write_signed 4 h.subscriber)
        (read_signed 4 >>= λ s. pure (record {
          type = type_of_code (type_code h.type);
          payload_length = h.payload_length;
          subscriber = s;
        }))
        h
subscriber-Codes h v =
    rw (type_of_code-type_code h.type) (Codes-map _ (signed-Codes 4 h.subscriber (omega arith) v))

header-Codes : (h : FrameHeader) → IsHeader h → Codes (write_header h) read_header h
unfolding write_header read_header
header-Codes h v = Codes-bind _ (integer-Codes 4 magic (omega arith)) (
    Codes-guard (magic == magic) not_srnp refl (
      Codes-bind _ (integer-Codes 1 version (omega arith)) (
        Codes-guard (version == version) (unsupported_version version) refl (
          Codes-bind _ (integer-Codes 1 (type_code h.type) (type_code_lt h.type)) (
            Codes-guard _ _ (type_code-known h.type v.known) (
              Codes-bind _ (integer-Codes 2 0 (omega arith)) (
                Codes-bind _ (integer-Codes 4 h.payload_length (omega (arith, v.short))) (
                  Codes-guard _ _ (le→leb h.payload_length max_payload v.short)
                    (subscriber-Codes h v.fits)))))))))

header_bytes : FrameHeader → List ℕ
header_bytes h =
    ((((le_bytes 4 magic ++ le_bytes 1 version) ++ le_bytes 1 (type_code h.type)) ++ le_bytes 2 0)
      ++ le_bytes 4 h.payload_length)
    ++ le_bytes 4 (bits 4 h.subscriber)

encode_header-header_bytes : (h : FrameHeader) → encode_header h ≡ ok (header_bytes h)
unfolding ◌>>=◌ encode_header header_bytes take_buffer write_header write_integer write_signed
encode_header-header_bytes h = refl

pub length-encode_header :
    (h : FrameHeader) {bytes : List ℕ} → encode_header h ≡ ok bytes → length bytes ≡ header_size
unfolding header_bytes
length-encode_header h {bytes} e =
    let same_bytes : header_bytes h ≡ bytes = cc (encode_header-header_bytes h) in
    rw (← same_bytes) (simp (length-append, length-le_bytes))

-- A header that the code can build is encoded in exactly `header_size` bytes, and `decode_header`
-- reads those bytes as that header.
pub decode_header-encode_header :
    (h : FrameHeader)
    → IsHeader h
    → (bytes : List ℕ) × (encode_header h ≡ ok bytes)
      × (length bytes ≡ header_size)
      × (decode_header bytes ≡ ok h)
unfolding encode_header decode_header
decode_header-encode_header h v =
    let c = header-Codes h v in
    let size = length-encode_header h (take_buffer-Writes c.writes) in
    (c.printed, take_buffer-Writes c.writes, size, rw (size, Reads-whole c.reads))

-- A frame is its header, then its payload: the first `header_size` bytes decode to the type, the
-- length of the payload and the subscriber, and the rest is the payload.
decode-frame :
    (type : MessageType) (payload : List ℕ) (subscriber : ℤ)
    → type ≢ MessageType.invalid
    → IsSigned 4 subscriber
    → length payload ≤ max_payload
    → (bytes : List ℕ) × (frame type payload subscriber ≡ ok bytes)
      × (decode_header (take header_size bytes)
          ≡ ok (record { type = type; payload_length = length payload; subscriber = subscriber }))
      × (drop header_size bytes ≡ payload)
unfolding frame
decode-frame type payload subscriber known fits short =
    let h : FrameHeader = record {
      type = type;
      payload_length = length payload;
      subscriber = subscriber;
    } in
    let (bytes, e, size, d) =
      decode_header-encode_header h (record { known = known; short = short; fits = fits }) in
    (
      bytes ++ payload,
      rw (le→leb (length payload) max_payload short, e),
      rw (← size, take-append bytes payload) d,
      rw (← size) (drop-append bytes payload),
    )

-- A payload over the limit makes no frame.
pub frame_too_long :
    (type : MessageType) (payload : List ℕ) (subscriber : ℤ)
    → max_payload < length payload
    → frame type payload subscriber ≡ err payload_too_long
unfolding frame
frame_too_long type payload subscriber h = rw (lt→leb_false (length payload) max_payload h)

known_code : (t : ℕ) → not (t == 0 || ltb 8 t) ≡ true → type_of_code t ≢ MessageType.invalid
known_code t h = ground arith

abbrev IsLimited : FrameHeader → Type 0
IsLimited h = (h.type ≢ MessageType.invalid) × (h.payload_length ≤ max_payload)

read_header-IsLimited : Yields IsLimited read_header
unfolding read_header
read_header-IsLimited = Yields-bind (read_integer 4) _ λ m. Yields-guard _ not_srnp _ λ _.
    Yields-bind (read_integer 1) _ λ v. Yields-guard _ (unsupported_version v) _ λ _.
      Yields-bind (read_integer 1) _ λ t. Yields-guard _ (unknown_type t) _ λ known.
        Yields-bind (read_integer 2) _ λ flags. Yields-bind (read_integer 4) _ λ n.
          Yields-guard _ (header_payload_too_long n) _ λ short.
            Yields-bind (read_signed 4) _
              λ s. Yields-pure IsLimited (known_code t known, leb→le n max_payload short)

-- A header that `decode_header` accepts is `header_size` bytes long, and names a known type and a
-- payload within the limit, whatever the bytes are.
decode_header-limits :
    (bytes : List ℕ) {h : FrameHeader}
    → decode_header bytes ≡ ok h
    → (length bytes ≡ header_size)
      × (h.type ≢ MessageType.invalid)
      × (h.payload_length ≤ max_payload)
unfolding decode_header
decode_header-limits bytes {h} e =
    let size : (length bytes == header_size) ≡ true = ground arith in
    let (r, got) = value_of-ok (read_header (reader bytes)) (rw size at e) in
    let limits = read_header-IsLimited.returns (reader bytes) got in
    ((==_iff (length bytes) header_size).0 size, limits.0, limits.1)
