-- ===== src/Client/Standing.antt =====
-- src/client.cpp: a subscription to everything is never refused, since its message fits a frame.
use srnp.Base.{
  ℕ, ◌≡◌, refl, Bool, true, false, ◌+◌, ◌%◌, ◌^◌, emplace, nat_order, int_order, List, [], ◌∷◌, ℤ,
  Text, Option-cases, inl, inr,
}
use srnp.Wire.{
  Result, ok, MessageType, frame_of, frame, take_buffer, encode_header, write_header, ◌>>=◌, guard,
  write_integer, write_signed, write_string, write_boolean, append_bytes, le_bytes, bits,
}
use srnp.Messages.{any_owner, wildcard_key}
use srnp.Codec.{encode_subscription}
use srnp.Client.{Client, send_message, session_for}
use srnp.Client.Subscribing.{
  subscription_message, send_to_each, send_subscription, keys, register_subscription, after_sending,
  find_record,
}

subscription_framed :
    (owner subscriber : ℤ) (registering : Bool)
    → (bytes : List ℕ) × (frame_of MessageType.subscription (
          encode_subscription (record {
            key = wildcard_key;
            owner_id = owner;
            subscriber = subscriber;
            registering = registering;
          }))
        ≡ ok bytes)
unfolding frame_of frame take_buffer encode_header write_header encode_subscription ◌>>=◌ guard
    write_integer write_signed write_string write_boolean append_bytes le_bytes bits
subscription_framed owner subscriber registering = (_, refl)

-- A message that can be framed is answered.
abbrev Answered : Result Bool → Type 0
Answered r = (sent : Bool) × (r ≡ ok sent)

send_message-Answered :
    (c : Client) (owner : ℤ) (key : Text) (registering : Bool) (bytes : List ℕ)
    → frame_of MessageType.subscription
        (encode_subscription (subscription_message c owner key registering))
      ≡ ok bytes
    → Answered
        (send_message c owner MessageType.subscription
          (encode_subscription (subscription_message c owner key registering))).1
unfolding send_message
send_message-Answered c owner key registering bytes framed =
    elim (Option-cases (session_for c owner)) [
      | inl absent ↦ rw (absent, send_message) (false, refl)
      | inr (session, there) ↦ rw (there, framed, send_message) (true, refl)
    ]

wildcard-Answered :
    (c : Client) (owner : ℤ) (registering : Bool)
    → Answered
        (send_message c owner MessageType.subscription
          (encode_subscription (subscription_message c owner wildcard_key registering))).1
wildcard-Answered c owner registering =
    let (bytes, framed) = subscription_framed owner c.owner_id registering in
    send_message-Answered c owner wildcard_key registering bytes framed

send_to_each-Answered :
    (c : Client) (owners : List ℤ) (registering : Bool)
    → Answered (send_to_each c owners wildcard_key registering).1
unfolding send_to_each
send_to_each-Answered c [] registering = (true, refl)
send_to_each-Answered c (owner ∷ owners) registering =
    let message = encode_subscription (subscription_message c owner wildcard_key registering) in
    let sent = send_message c owner MessageType.subscription message in
    let (there, e) = wildcard-Answered c owner registering in
    rw (e, send_to_each) (send_to_each-Answered sent.0 owners registering)

after_sending-Answered :
    (handle : ℕ) (r : Client × Result Bool) (answered : Answered r.1)
    → (after_sending handle r).1 ≡ ok handle
unfolding after_sending
after_sending-Answered handle r (sent, e) = rw (e, after_sending) refl

pub register_subscription-Answered :
    (c : Client) → (handle : ℕ) × ((register_subscription c any_owner wildcard_key).1 ≡ ok handle)
unfolding register_subscription send_subscription
register_subscription-Answered c =
    elim (Option-cases (find_record any_owner wildcard_key c.subscriptions)) [
      | inr (there, found) ↦ rw (found, register_subscription) (0, refl)
      | inl absent ↦
          let handle = (c.next_subscription_handle + 1) % 2 ^ 64 in
          let added : Client = record c {
            next_subscription_handle = handle;
            subscriptions =
                emplace handle (record { owner = any_owner; key = wildcard_key }) c.subscriptions;
          } in
          rw (absent, register_subscription)
            (
              handle,
              after_sending-Answered handle (send_subscription added any_owner wildcard_key true)
                  (send_to_each-Answered added (keys added.sessions) true),
            )
    ]
