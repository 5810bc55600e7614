-- ===== src/Channel/Reading.antt =====
-- src/session.cpp: reading frames off a stream of bytes.
use srnp.Base.{
  ℕ, zero, suc, ◌+◌, ◌<◌, ◌≤◌, ◌≡◌, ◌≢◌, refl, sym, ◌∙◌, true, false, List, [], ◌∷◌, ◌++◌, ℤ,
  negsuc, length, take, drop, leb, ltb, length-append, append_assoc, take-append, drop-append,
  Bool-cases, le→leb, inl, inr, arith,
}
use srnp.Wire.{
  Result, ok, err, Encoder, Decoder, MessageType, FrameHeader, header_size, max_payload, frame,
  frame_of, take_buffer, decode_header,
}
use srnp.Wire.Words.{IsSigned}
use srnp.Wire.Results.{ok_injective}
use srnp.Wire.Headers.{decode_header-encode_header}
use srnp.Codec.{decode_payload}
use srnp.Codec.RoundTrip.{RoundTrips}
use srnp.Channel.{Frame, Received, received, malformed, disconnected, read_payload, read}

-- Dropping a part that is there makes a list shorter by it.
length-drop_part : (n : ℕ) (xs : List ℕ) → n ≤ length xs → length (drop n xs) + n ≡ length xs
length-drop_part zero xs h = omega arith
length-drop_part (suc n) [] h = absurd (omega (arith, h))
length-drop_part (suc n) (x ∷ xs) h = omega (arith, length-drop_part n xs (omega (arith, h)))

abbrev pub Consumes : ℕ → Received → Type 0
Consumes n (received got rest) = length rest < n
Consumes n _ = Unit

read_payload-Consumes :
    (header : FrameHeader) (stream : List ℕ)
    → Consumes (length stream + 1) (read_payload header stream)
unfolding read_payload
read_payload-Consumes header stream = elim (Bool-cases (ltb 0 header.payload_length)) [
  | inr empty ↦ rw (empty, read_payload) (omega arith)
  | inl longer ↦ elim (Bool-cases (leb header.payload_length (length stream))) [
    | inr short ↦ rw (longer, read_payload, short) tt
    | inl there ↦
        let part = length-drop_part header.payload_length stream (ground (arith, there)) in
        rw (longer, read_payload, there) (omega (arith, part))
  ]
]

Consumes-weaken : (n m : ℕ) (r : Received) → n ≤ m → Consumes n r → Consumes m r
Consumes-weaken n m (received got rest) h v = omega (arith, h, v)
Consumes-weaken n m (malformed e) h v = tt
Consumes-weaken n m disconnected h v = tt

-- A frame that is read takes its header's bytes off the stream at least.
pub read-Consumes : (stream : List ℕ) (n : ℕ) → length stream ≤ n → Consumes n (read stream)
unfolding read
read-Consumes stream n short = elim (Bool-cases (leb header_size (length stream))) [
  | inr cut ↦ rw (cut, read) tt
  | inl there ↦
      rw (there, read) (decoded (decode_header (take header_size stream)) (ground (arith, there)))
]
  where
    decoded :
        (r : Result FrameHeader)
        → header_size ≤ length stream
        → Consumes n (elim r [
          | err e ↦ malformed e
          | ok header ↦ read_payload header (drop header_size stream)
        ])
    decoded (err e) there = tt
    decoded (ok header) there =
        let part = length-drop_part header_size stream there in
        Consumes-weaken (length (drop header_size stream) + 1) n
          (read_payload header (drop header_size stream)) (omega (arith, part, short))
          (read_payload-Consumes header (drop header_size stream))

read_payload-parts :
    (h : FrameHeader) (payload rest : List ℕ)
    → h.payload_length ≡ length payload
    → read_payload h (payload ++ rest) ≡ received (record { header = h; payload = payload }) rest
unfolding read_payload
read_payload-parts h [] rest measure =
    let empty : ltb 0 h.payload_length ≡ false = ground (arith, measure) in
    rw (empty, read_payload) refl
read_payload-parts h (b ∷ payload) rest measure =
    let whole : List ℕ = b ∷ payload in
    let longer : ltb 0 h.payload_length ≡ true = ground (arith, measure) in
    let there : leb h.payload_length (length (whole ++ rest)) ≡ true =
      ground (arith, measure, length-append whole rest) in
    let front : take h.payload_length (whole ++ rest) ≡ whole =
      rw measure (take-append whole rest) in
    let back : drop h.payload_length (whole ++ rest) ≡ rest = rw measure (drop-append whole rest) in
    rw (longer, read_payload, there, front, back) refl

-- The parts of a frame, read back from the front of a stream.
read-parts :
    (h : FrameHeader) (head payload rest : List ℕ)
    → length head ≡ header_size
    → decode_header head ≡ ok h
    → h.payload_length ≡ length payload
    → read (head ++ (payload ++ rest)) ≡ received (record { header = h; payload = payload }) rest
unfolding read
read-parts h head payload rest size decodes measure =
    let there : leb header_size (length (head ++ (payload ++ rest))) ≡ true =
      ground (arith, size, length-append head (payload ++ rest)) in
    let front : take header_size (head ++ (payload ++ rest)) ≡ head =
      rw (← size) (take-append head (payload ++ rest)) in
    let back : drop header_size (head ++ (payload ++ rest)) ≡ payload ++ rest =
      rw (← size) (drop-append head (payload ++ rest)) in
    rw (there, read, front, decodes, back) (read_payload-parts h payload rest measure)

abbrev pub frame_with : MessageType → List ℕ → ℤ → Frame
frame_with type payload subscriber = record {
  header = record { type = type; payload_length = length payload; subscriber = subscriber };
  payload = payload;
}

-- A frame that `frame` builds is read back from the front of a stream, and what is behind it stays.
pub read-frame :
    (type : MessageType) (payload : List ℕ) (subscriber : ℤ)
    → type ≢ MessageType.invalid
    → IsSigned 4 subscriber
    → length payload ≤ max_payload
    → (bytes : List ℕ) × (frame type payload subscriber ≡ ok bytes)
      × ((rest : List ℕ)
          → read (bytes ++ rest) ≡ received (frame_with type payload subscriber) rest)
unfolding frame
read-frame type payload subscriber known fits short =
    let h : FrameHeader = record {
      type = type;
      payload_length = length payload;
      subscriber = subscriber;
    } in
    let (head, e, size, d) =
      decode_header-encode_header h (record { known = known; short = short; fits = fits }) in
    (
      head ++ payload,
      rw (le→leb (length payload) max_payload short, e) refl,
      λ rest. rw (append_assoc head payload rest) (read-parts h head payload rest size d refl),
    )

frame_of-built :
    (type : MessageType) (message : Encoder) (payload bytes : List ℕ)
    → take_buffer message ≡ ok payload
    → frame_of type message ≡ ok bytes
    → frame type payload (negsuc 0) ≡ ok bytes
unfolding frame_of
frame_of-built type message payload bytes built framed =
    let same_frame : frame_of type message ≡ frame type payload (negsuc 0) =
      rw (built, frame_of) refl in
    sym same_frame ∙ framed

frame-short :
    (type : MessageType) (payload bytes : List ℕ) (subscriber : ℤ)
    → frame type payload subscriber ≡ ok bytes
    → length payload ≤ max_payload
unfolding frame
frame-short type payload bytes subscriber e = ground (arith, e)

-- A frame that could be built has a payload within the limit.
pub frame_of-payload :
    (type : MessageType) (message : Encoder) (payload bytes : List ℕ)
    → take_buffer message ≡ ok payload
    → frame_of type message ≡ ok bytes
    → (length payload ≤ max_payload) × (frame type payload (negsuc 0) ≡ ok bytes)
frame_of-payload type message payload bytes built framed =
    let whole = frame_of-built type message payload bytes built framed in
    (frame-short type payload bytes (negsuc 0) whole, whole)

-- So with a frame that `frameOf` builds of a message that decodes back.
pub read-frame_of :
    {A : Type 0} (type : MessageType) (encode : A → Encoder) (decode : Decoder A) (a : A)
    (bytes : List ℕ)
    → type ≢ MessageType.invalid
    → RoundTrips encode decode a
    → frame_of type (encode a) ≡ ok bytes
    → (payload : List ℕ) × (decode_payload decode payload ≡ ok a)
      × ((rest : List ℕ)
          → read (bytes ++ rest) ≡ received (frame_with type payload (negsuc 0)) rest)
read-frame_of type encode decode a bytes known (payload, built, decodes) framed =
    let (short, whole) = frame_of-payload type (encode a) payload bytes built framed in
    let (bytes', built', reads) = read-frame type payload (negsuc 0) known (omega arith) short in
    let same_bytes : bytes' ≡ bytes = ok_injective (sym built' ∙ whole) in
    (payload, decodes, rw (← same_bytes) reads)
