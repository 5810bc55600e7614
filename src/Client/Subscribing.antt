-- ===== src/Client/Subscribing.antt =====
-- src/client.cpp: the subscriptions that the component holds, and their replay to a component that is
-- connected later.
use srnp.Base.{
  ℕ, ◌+◌, ◌%◌, ◌^◌, Bool, true, false, ◌&&◌, ◌||◌, List, [], ◌∷◌, Option, none, some, ℤ, Text,
  ◌==ℤ◌, text_eq, if◌then◌else◌, lookup, erase, emplace, int_order, nat_order,
}
use srnp.Wire.{Result, ok, err, MessageType, frame_of}
use srnp.Messages.{any_owner, Subscription}
use srnp.Codec.{encode_subscription}
use srnp.Session.{Session, new_session, connect}
use srnp.Session
use srnp.Client.{Client, SubscriptionRecord, send_message}

abbrev pub subscription_message : Client → ℤ → Text → Bool → Subscription
subscription_message c owner key registering = record {
  key = key;
  owner_id = owner;
  subscriber = c.owner_id;
  registering = registering;
}

-- A wildcard subscription, to each session, addressed to its component.
unfoldable pub send_to_each : Client → List ℤ → Text → Bool → Client × Result Bool
send_to_each c [] key registering = (c, ok true)
send_to_each c (owner ∷ owners) key registering =
    let (c', result) =
      send_message c owner MessageType.subscription
        (encode_subscription (subscription_message c owner key registering)) in
    elim result [ err e ↦ (c', err e) | ok there ↦ send_to_each c' owners key registering ]

abbrev pub keys {ℓ} : {K V : Type ℓ} → List (K × V) → List K
keys [] = []
keys ((k, v) ∷ m) = k ∷ keys m

unfoldable pub send_subscription : Client → ℤ → Text → Bool → Client × Result Bool
send_subscription c owner key registering =
    if owner ==ℤ any_owner
    then send_to_each c (keys c.sessions) key registering
    else send_message c owner MessageType.subscription
        (encode_subscription (subscription_message c owner key registering))

abbrev pub is_record : ℤ → Text → SubscriptionRecord → Bool
is_record owner key r = (r.owner ==ℤ owner) && text_eq r.key key

-- The handle of the first record for an owner and a key.
unfoldable pub find_record : ℤ → Text → List (ℕ × SubscriptionRecord) → Option ℕ
find_record owner key [] = none
find_record owner key ((handle, r) ∷ rs) =
    if is_record owner key r then some handle else find_record owner key rs

-- What `sendSubscription` threw takes the place of the result. A function without one gives `true`.
unfoldable pub after_sending : {A : Type 0} → A → Client × Result Bool → Client × Result A
after_sending a (c, err e) = (c, err e)
after_sending a (c, ok sent) = (c, ok a)

unfoldable pub register_subscription : Client → ℤ → Text → Client × Result ℕ
register_subscription c owner key = elim (find_record owner key c.subscriptions) [
  | some there ↦ (c, ok 0)
  | none ↦
      let handle = (c.next_subscription_handle + 1) % 2 ^ 64 in
      let added : Client = record c {
        next_subscription_handle = handle;
        subscriptions = emplace handle (record { owner = owner; key = key }) c.subscriptions;
      } in
      after_sending handle (send_subscription added owner key true)
]

unfoldable pub cancel_subscription : Client → ℤ → Text → Client × Result Bool
cancel_subscription c owner key = elim (find_record owner key c.subscriptions) [
  | none ↦ (c, ok true)
  | some handle ↦
      let erased : Client = record c { subscriptions = erase handle c.subscriptions } in
      after_sending true (send_subscription erased owner key false)
]

unfoldable pub cancel_handle : Client → ℕ → Client × Result Bool
cancel_handle c handle = elim (lookup handle c.subscriptions) [
  | none ↦ (c, ok true)
  | some r ↦
      let erased : Client = record c { subscriptions = erase handle c.subscriptions } in
      after_sending true (send_subscription erased r.owner r.key false)
]

-- `subscriptionsFor`, as the messages that `sendSubscriptionsFor` makes of them.
unfoldable pub subscriptions_for : ℤ → List (ℕ × SubscriptionRecord) → List SubscriptionRecord
subscriptions_for owner [] = []
subscriptions_for owner ((handle, r) ∷ rs) =
    let rest = subscriptions_for owner rs in
    if (r.owner ==ℤ any_owner) || (r.owner ==ℤ owner) then r ∷ rest else rest

abbrev pub replayed : Client → ℤ → SubscriptionRecord → Subscription
replayed c owner r =
    subscription_message c (if r.owner ==ℤ any_owner then owner else r.owner) r.key true

unfoldable pub send_records : Client → ℤ → List SubscriptionRecord → Session → Result Session
send_records c owner [] session = ok session
send_records c owner (r ∷ rs) session =
    elim (frame_of MessageType.subscription (encode_subscription (replayed c owner r))) [
      | err e ↦ err e
      | ok payload ↦ send_records c owner rs (Session.send session payload none)
    ]

-- `ClientSession::run` once `connect` has its socket: the replay of the subscriptions.
unfoldable pub run_session : Client → Session → Result Session
run_session c session =
    let (session', connected) = connect session in
    let endpoint = session.endpoint_owner_id in
    if connected
    then send_records c endpoint (subscriptions_for endpoint c.subscriptions) session'
    else ok session'
