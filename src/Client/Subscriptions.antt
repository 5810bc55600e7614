-- ===== src/Client/Subscriptions.antt =====
-- src/client.cpp: the table of the subscriptions that the component holds.
use srnp.Base.{
  ℕ, ◌+◌, ◌^◌, ◌%◌, ◌≡◌, refl, Bool, true, ◌||◌, List, [], ◌∷◌, none, some, ℤ, Text, ==ℤ_iff,
  is_some, lookup, insert, emplace, nat_order, length, if◌then◌else◌, Option-cases, Bool-cases,
  text_eq_iff, inl, inr, arith,
}
use srnp.Wire.{Result, ok, err, Encoder, MessageType}
use srnp.Codec.{encode_subscription}
use srnp.Client.{Client, SubscriptionRecord, send_message}
use srnp.Client.Subscribing.{
  subscription_message, keys, is_record, find_record, send_subscription, send_to_each,
  after_sending, register_subscription,
}

-- Whether the component holds a subscription to an owner's key.
abbrev pub holds : ℤ → Text → List (ℕ × SubscriptionRecord) → Bool
holds owner key table = is_some (find_record owner key table)

holds-emplace :
    (h : ℕ) (r : SubscriptionRecord) (table : List (ℕ × SubscriptionRecord)) (owner : ℤ)
    (key : Text)
    → lookup h table ≡ none
    → holds owner key (emplace h r table) ≡ (holds owner key table || is_record owner key r)
unfolding insert lookup find_record
holds-emplace h r [] owner key fresh = ground arith
holds-emplace h r ((i, x) ∷ rest) owner key fresh =
    ground (arith, fresh, holds-emplace h r rest owner key)

subscriptions-send_message :
    (c : Client) (owner : ℤ) (type : MessageType) (message : Encoder)
    → (send_message c owner type message).0.subscriptions ≡ c.subscriptions
unfolding send_message
subscriptions-send_message c owner type message = ground arith

subscriptions-send_to_each :
    (c : Client) (owners : List ℤ) (key : Text) (registering : Bool)
    → (send_to_each c owners key registering).0.subscriptions ≡ c.subscriptions
unfolding send_to_each
subscriptions-send_to_each c [] key registering = refl
subscriptions-send_to_each c (owner ∷ owners) key registering =
    let message = encode_subscription (subscription_message c owner key registering) in
    let sent = send_message c owner MessageType.subscription message in
    let same_table = subscriptions-send_message c owner MessageType.subscription message in
    ground (arith, subscriptions-send_to_each sent.0 owners key registering, same_table)

subscriptions-send_subscription :
    (c : Client) (owner : ℤ) (key : Text) (registering : Bool)
    → (send_subscription c owner key registering).0.subscriptions ≡ c.subscriptions
unfolding send_subscription
subscriptions-send_subscription c owner key registering = ground (
  arith,
  subscriptions-send_to_each c (keys c.sessions) key registering,
  subscriptions-send_message c owner MessageType.subscription
      (encode_subscription (subscription_message c owner key registering)),
)

client-after_sending : {A : Type 0} (a : A) (r : Client × Result Bool) → (after_sending a r).0 ≡ r.0
unfolding after_sending
client-after_sending a (c, err e) = refl
client-after_sending a (c, ok sent) = refl

-- Another record for the same owner and key says nothing new.
holds_already :
    (owner other : ℤ) (key that : Text) (table : List (ℕ × SubscriptionRecord)) (h : ℕ)
    → find_record owner key table ≡ some h
    → holds other that table
      ≡ (holds other that table || is_record other that (record { owner = owner; key = key }))
holds_already owner other key that table h found =
    elim (Bool-cases (is_record other that (record { owner = owner; key = key }))) [
      | inr different ↦ rw different (ground arith)
      | inl same_one ↦
          let same_owner : owner ≡ other = (==ℤ_iff owner other).0 (ground (arith, same_one)) in
          let same_key : key ≡ that = (text_eq_iff key that).0 (ground (arith, same_one)) in
          rw (← same_owner, ← same_key, found) refl
    ]

length-emplace :
    (h : ℕ) (r : SubscriptionRecord) (table : List (ℕ × SubscriptionRecord))
    → lookup h table ≡ none
    → length (emplace h r table) ≡ length table + 1
unfolding insert lookup
length-emplace h r [] fresh = ground arith
length-emplace h r ((i, x) ∷ rest) fresh = ground (arith, fresh, length-emplace h r rest)

-- Registering a subscription adds exactly that owner and key to what the component holds, as one more
-- record, and no record if they are there, as long as the next handle is free; that holds also when a
-- frame for it cannot be built or the other component is not connected.
pub holds-register_subscription :
    (c : Client) (owner other : ℤ) (key that : Text)
    → lookup ((c.next_subscription_handle + 1) % 2 ^ 64) c.subscriptions ≡ none
    → (holds other that (register_subscription c owner key).0.subscriptions ≡ (
        holds other that c.subscriptions
        || is_record other that (record { owner = owner; key = key })))
      × (length (register_subscription c owner key).0.subscriptions
          ≡ length c.subscriptions + (if holds owner key c.subscriptions then 0 else 1))
unfolding register_subscription
holds-register_subscription c owner other key that free =
    elim (Option-cases (find_record owner key c.subscriptions)) [
      | inr (h, found) ↦
          rw (found, register_subscription)
            (holds_already owner other key that c.subscriptions h found, omega arith)
      | inl new ↦
          let handle = (c.next_subscription_handle + 1) % 2 ^ 64 in
          let r : SubscriptionRecord = record { owner = owner; key = key } in
          let added : Client = record c {
            next_subscription_handle = handle;
            subscriptions = emplace handle r c.subscriptions;
          } in
          rw (new, register_subscription)
            (rw
              (
                client-after_sending handle (send_subscription added owner key true),
                subscriptions-send_subscription added owner key true,
              )
              (
                holds-emplace handle r c.subscriptions other that free,
                length-emplace handle r c.subscriptions free,
              ))
    ]
