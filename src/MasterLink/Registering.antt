-- ===== src/MasterLink/Registering.antt =====
-- src/server.cpp and src/master_hub.cpp: the registration, from the bytes that a component writes to
-- the welcome that it reads.
use srnp.Base.{
  ℕ, ◌≡◌, ◌≢◌, refl, sym, ◌∙◌, ap, List, ◌++◌, ℤ, negsuc, Text, leb, length, take, drop, Bool-cases,
  inl, inr, arith, int_order, lookup, some, same_iff,
}
use srnp.Wire.{Result, ok, err, MessageType, FrameHeader, frame_of, header_size, decode_header}
use srnp.Messages.{IndicatePresence, MasterMessage}
use srnp.Codec.{
  decode_payload, encode_presence, decode_presence, encode_master_message, decode_master_message,
}
use srnp.Codec.RoundTrip.{
  IsPresence, IsMasterMessage, presence-RoundTrips, master_message-RoundTrips,
}
use srnp.Channel.{Frame, Received, received, malformed, disconnected, read_payload, read}
use srnp.Channel.Reading.{frame_with, read-frame_of}
use srnp.MasterHub.Owners.{register_component-free}
use srnp.MasterHub.{
  send_to_all, HubSession, Hub, register_component, all_components, welcome_component, arrive,
}
use srnp.MasterLink.{
  all_reachable, presence_of, registration, Reply, welcomed, broken, decoded_reply, reply_with,
  read_reply,
}

header-read_payload :
    (header : FrameHeader) (stream rest : List ℕ) (frame : Frame)
    → read_payload header stream ≡ received frame rest
    → frame.header ≡ header
unfolding read_payload
header-read_payload header stream rest frame e = ground (arith, e)

reply_with-received :
    (master_ip : Text) (header : FrameHeader) (stream payload rest : List ℕ) (subscriber : ℤ)
    → read_payload header stream
      ≡ received (frame_with MessageType.master_message payload subscriber) rest
    → reply_with master_ip header stream
      ≡ decoded_reply master_ip rest (decode_payload decode_master_message payload)
unfolding reply_with
reply_with-received master_ip header stream payload rest subscriber e =
    let type_is : header.type ≡ MessageType.master_message =
      ap (λ h. h.type) (sym (header-read_payload header stream rest _ e)) in
    rw (type_is, reply_with, e) refl

-- A whole frame with the master's message is read as by `FrameChannel::read`.
read_reply-received :
    (master_ip : Text) (stream payload rest : List ℕ) (subscriber : ℤ)
    → read stream ≡ received (frame_with MessageType.master_message payload subscriber) rest
    → read_reply master_ip stream
      ≡ decoded_reply master_ip rest (decode_payload decode_master_message payload)
unfolding read read_reply
read_reply-received master_ip stream payload rest subscriber e =
    elim (Bool-cases (leb header_size (length stream))) [
      | inr cut ↦
          let nothing : read stream ≡ disconnected = rw (cut, read) refl in
          absurd (disconnected_received (sym nothing ∙ e))
      | inl there ↦
          let begun : read stream ≡ headed (decode_header (take header_size stream)) =
            rw (there, read) refl in
          rw (there, read_reply) (decoded (decode_header (take header_size stream)) (sym begun ∙ e))
    ]
  where
    headed : Result FrameHeader → Received
    headed r = elim r [
      | err error ↦ malformed error
      | ok header ↦ read_payload header (drop header_size stream)
    ]

    disconnected_received : {f : Frame} {bytes : List ℕ} → disconnected ≢ received f bytes
    disconnected_received e = cc

    decoded :
        (r : Result FrameHeader)
        → headed r ≡ received (frame_with MessageType.master_message payload subscriber) rest
        → (elim r as (λ x. Reply) [
          | err error ↦ broken error
          | ok header ↦ reply_with master_ip header (drop header_size stream)
        ])
          ≡ decoded_reply master_ip rest (decode_payload decode_master_message payload)
    decoded (err error) same_end = absurd (malformed_received same_end)
      where
        malformed_received : {f : Frame} {bytes : List ℕ} → malformed error ≢ received f bytes
        malformed_received e = cc
    decoded (ok header) same_end =
        reply_with-received master_ip header (drop header_size stream) payload rest subscriber
          same_end

sessions-welcome_component :
    (hub : Hub) (welcome : MasterMessage) (session : HubSession)
    → (welcome_component hub welcome session).hub.sessions ≡ hub.sessions
unfolding welcome_component send_to_all
sessions-welcome_component hub welcome session = ground arith

owner-welcome_component :
    (hub : Hub) (welcome : MasterMessage) (session : HubSession)
    → (welcome_component hub welcome session).owner ≡ welcome.owner
unfolding welcome_component
owner-welcome_component hub welcome session = ground arith

abbrev pub registering : Text → IndicatePresence → HubSession
registering address presence = record { address = address; port = presence.port }

-- The hub has the session under the id of the welcome once it has read the request.
session-arrive :
    (draw : ℤ → ℕ) (hub : Hub) (address : Text) (presence : IndicatePresence) (payload : List ℕ)
    → decode_payload decode_presence payload ≡ ok presence
    → lookup
        (register_component draw hub (registering address presence) presence).1.owner
        (arrive draw hub address
          (frame_with MessageType.indicate_presence payload (negsuc 0))).hub.sessions
      ≡ some (registering address presence)
unfolding arrive
session-arrive draw hub address presence payload decodes =
    let (registered, welcome) =
      register_component draw hub (registering address presence) presence in
    let (free, known, named) =
      register_component-free draw hub (registering address presence) presence in
    rw (decodes, arrive)
      (ap (lookup welcome.owner)
          (sessions-welcome_component registered welcome (registering address presence))
        ∙ (known welcome.owner ∙ rw ((same_iff welcome.owner welcome.owner).1 refl) refl))

owner-arrive :
    (draw : ℤ → ℕ) (hub : Hub) (address : Text) (presence : IndicatePresence) (payload : List ℕ)
    → decode_payload decode_presence payload ≡ ok presence
    → (arrive draw hub address (frame_with MessageType.indicate_presence payload (negsuc 0))).owner
      ≡ (register_component draw hub (registering address presence) presence).1.owner
unfolding arrive
owner-arrive draw hub address presence payload decodes =
    rw (decodes, arrive) (owner-welcome_component _ _ (registering address presence))

-- A component asks the master for an owner id, or for any. The hub reads its request off the front of
-- what the component sends, takes its id to be that of the welcome, and has its session under that id;
-- and the component reads the
-- welcome off the front of what the master sends, with every component that the hub had, at an address
-- that it can reach.
pub read_reply-registration :
    (draw : ℤ → ℕ) (hub : Hub) (address master_ip : Text) (our_port : ℕ) (desired : ℤ)
    → (welcome : MasterMessage) (request reply : List ℕ) → IsPresence (presence_of our_port desired)
    → registration our_port desired ≡ ok request
    → IsMasterMessage welcome
    → (register_component draw hub
        (registering address (presence_of our_port desired))
        (presence_of our_port desired)).1
      ≡ welcome
    → frame_of MessageType.master_message (encode_master_message welcome) ≡ ok reply
    → (hello : Frame) × ((more : List ℕ) → read (request ++ more) ≡ received hello more)
      × ((arrive draw hub address hello).owner ≡ welcome.owner)
      × (lookup welcome.owner (arrive draw hub address hello).hub.sessions
          ≡ some (registering address (presence_of our_port desired)))
      × ((rest : List ℕ)
          → read_reply master_ip (reply ++ rest)
            ≡ welcomed
                (record {
                  owner = welcome.owner;
                  all_components = all_reachable master_ip (all_components hub.sessions);
                })
                rest)
unfolding registration register_component
read_reply-registration draw hub address master_ip our_port desired welcome request reply vp asked
      vm registers built =
    let presence = presence_of our_port desired in
    let (payload, decodes, reads) =
      read-frame_of MessageType.indicate_presence encode_presence decode_presence presence request
        (λ e. cc) (presence-RoundTrips presence vp) asked in
    let (payload', decodes', reads') =
      read-frame_of MessageType.master_message encode_master_message decode_master_message welcome
        reply (λ e. cc) (master_message-RoundTrips welcome vm) built in
    (
      frame_with MessageType.indicate_presence payload (negsuc 0),
      reads,
      owner-arrive draw hub address presence payload decodes ∙ ap (λ m. m.owner) registers,
      ap
            (λ m.
              lookup m.owner
                (arrive draw hub address
                  (frame_with MessageType.indicate_presence payload (negsuc 0))).hub.sessions)
            (sym registers)
          ∙ session-arrive draw hub address presence payload decodes,
      λ rest.
          rw
            (
              read_reply-received master_ip (reply ++ rest) payload' rest (negsuc 0) (reads' rest),
              decodes',
            )
            (ap
              (λ components.
                welcomed
                  (record {
                    owner = welcome.owner;
                    all_components = all_reachable master_ip components;
                  })
                  rest)
              (sym (ap (λ m. m.all_components) registers))),
    )
