-- ===== src/Server.antt =====
-- include/srnp/server.h and src/server.cpp: `ServerSession`, what a component does with the frames
-- that another one sends to it. The server's pair space and its local client are the component's
-- own, so that they are one record, `Client`. `now` is `Clock::now()`.
pub mod Spaces
pub mod Serving
pub mod Messages
pub mod Replicas
mod Tests
use srnp.Base.{
  ℕ, zero, suc, Bool, true, false, not, ◌&&◌, List, [], ◌∷◌, ◌++◌, Option, none, some, ℤ, Text,
  ◌==ℤ◌, text_eq, if◌then◌else◌, is_empty, values,
}
use srnp.Wire.{Error, unhandled_type, Result, ok, err, MessageType}
use srnp.Messages.{wildcard_key, Pair, PairType, PairKey, Subscription, RemovePairRequest}
use srnp.Codec.{decode_payload, decode_pair, decode_subscription, decode_removal}
use srnp.PairSpace.{
  Callback, PairEntry, PairSpace, find, copy_of, added_entry, add_pair, remove_pair,
  add_subscription, remove_subscription, add_subscription_to_all, remove_subscription_to_all,
  universal_callbacks_of,
}
use srnp.Channel.{Frame, Received, received, malformed, disconnected, read}
use srnp.Client.{Client, fan_out_pair, fan_out_removal, valid_only}

-- `called` is the calls of callbacks that were made, in order.
pub record Server : Type 0 where
  pub owner : ℤ
  pub client : Client
  pub called : List (Callback × Pair)

abbrev pub space_of : Server → PairSpace
space_of s = s.client.space

abbrev pub with_space : Server → PairSpace → Server
with_space s space = record s { client = record s.client { space = space } }

-- `(*callback)(snapshot)`, for each.
abbrev pub calls : Pair → List Callback → List (Callback × Pair)
calls snapshot [] = []
calls snapshot (callback ∷ callbacks) = (callback, snapshot) ∷ calls snapshot callbacks

-- What the client throws leaves the handler; what was done before stays.
unfoldable pub forwarded : Server → Result Client → Server × Result Bool
forwarded s (err e) = (s, err e)
forwarded s (ok client) = (record s { client = client }, ok true)

unfoldable pub apply_and_notify : Server → ℤ → Pair → Server × Result Bool
apply_and_notify s now p =
    let entry = added_entry (space_of s) now p in
    let added = with_space s (add_pair (space_of s) now p) in
    let callbacks = universal_callbacks_of (space_of s) ++ values entry.callbacks in
    let notified : Server = record added { called = s.called ++ calls entry.pair callbacks } in
    forwarded notified (
      if is_empty entry.subscribers
      then ok notified.client
      else fan_out_pair notified.client entry.pair entry.subscribers)

unfoldable pub handle_incoming_pair : Server → ℤ → List ℕ → Server × Result Bool
handle_incoming_pair s now payload = elim (decode_payload decode_pair payload) [
  | err e ↦ (s, err e)
  | ok p ↦ apply_and_notify s now (record p { owner = s.owner })
]

unfoldable pub handle_pair_update : Server → ℤ → List ℕ → Server × Result Bool
handle_pair_update s now payload = elim (decode_payload decode_pair payload) [
  | err e ↦ (s, err e)
  | ok p ↦ apply_and_notify s now p
]

-- The pairs that are ours and have a value, in the order of the map.
unfoldable pub own_pairs : ℤ → List (PairKey × PairEntry) → List Pair
own_pairs owner [] = []
own_pairs owner ((k, entry) ∷ pairs) =
    let rest = own_pairs owner pairs in
    if entry.pair.owner ==ℤ owner
    then elim (valid_only (some entry.pair)) [ none ↦ rest | some p ↦ p ∷ rest ]
    else rest

abbrev pub current_pair : PairSpace → ℤ → Text → List Pair
current_pair s owner key = elim (valid_only (copy_of s owner key)) [ none ↦ [] | some p ↦ p ∷ [] ]

-- `sendPairUpdate` for each; the first that throws ends the loop.
unfoldable pub send_updates : Server → List Pair → ℤ → Server × Result Bool
send_updates s [] subscriber = (s, ok true)
send_updates s (p ∷ ps) subscriber = elim (fan_out_pair s.client p (subscriber ∷ [])) [
  | err e ↦ (s, err e)
  | ok client ↦ send_updates (record s { client = client }) ps subscriber
]

-- The part of `handleSubscription` for a subscription that starts.
unfoldable pub subscribe : Server → ℤ → Subscription → Server × Result Bool
subscribe s now m =
    if text_eq m.key wildcard_key
    then (let space = add_subscription_to_all (space_of s) m.subscriber in
        send_updates (with_space s space) (own_pairs s.owner space.pairs) m.subscriber)
    else let space = add_subscription (space_of s) now m.owner_id m.key m.subscriber in
      send_updates (with_space s space) (current_pair space m.owner_id m.key) m.subscriber

unfoldable pub unsubscribe : PairSpace → Subscription → PairSpace
unsubscribe space m =
    if text_eq m.key wildcard_key
    then remove_subscription_to_all space m.subscriber
    else remove_subscription space m.owner_id m.key m.subscriber

unfoldable pub obey_subscription : Server → ℤ → Subscription → Server × Result Bool
obey_subscription s now m =
    if not (text_eq m.key wildcard_key) && not (m.owner_id ==ℤ s.owner)
    then (s, ok true)
    else if m.subscriber ==ℤ s.owner
    then (s, ok true)
    else if m.registering
    then subscribe s now m
    else (with_space s (unsubscribe (space_of s) m), ok true)

unfoldable pub handle_subscription : Server → ℤ → List ℕ → Server × Result Bool
handle_subscription s now payload = elim (decode_payload decode_subscription payload) [
  | err e ↦ (s, err e)
  | ok m ↦ obey_subscription s now m
]

unfoldable pub obey_removal : Server → RemovePairRequest → Server × Result Bool
obey_removal s m =
    if not (m.owner ==ℤ s.owner) then (s, ok true) else elim (find (space_of s) m.owner m.key) [
      | none ↦ (s, ok true)
      | some entry ↦
          let removed = with_space s (remove_pair (space_of s) m.owner m.key) in
          forwarded removed (
            if is_empty entry.subscribers
            then ok removed.client
            else fan_out_removal removed.client m entry.subscribers)
    ]

unfoldable pub handle_remove_pair : Server → List ℕ → Server × Result Bool
handle_remove_pair s payload = elim (decode_payload decode_removal payload) [
  | err e ↦ (s, err e)
  | ok m ↦ obey_removal s m
]

unfoldable pub handle_pair_removed : Server → List ℕ → Server × Result Bool
handle_pair_removed s payload = elim (decode_payload decode_removal payload) [
  | err e ↦ (s, err e)
  | ok m ↦ (with_space s (remove_pair (space_of s) m.owner m.key), ok true)
]

unfoldable pub handle : Server → ℤ → Frame → Server × Result Bool
handle s now frame = elim frame.header.type [
  | MessageType.pair ↦ handle_incoming_pair s now frame.payload
  | MessageType.pair_update ↦ handle_pair_update s now frame.payload
  | MessageType.subscription ↦ handle_subscription s now frame.payload
  | MessageType.remove_pair ↦ handle_remove_pair s frame.payload
  | MessageType.pair_removed ↦ handle_pair_removed s frame.payload
  | _ ↦ (s, err unhandled_type)
]

-- How `run` ends: with what was thrown, or with the connection. `out_of_fuel` is not an end.
pub data End : Type 0 where
  refused : Error → End
  gone out_of_fuel : End

-- After a handler: what it threw ends the loop.
unfoldable pub served : Server × Result Bool → (Server → Server × End) → Server × End
served (s, err e) next_frame = (s, refused e)
served (s, ok done) next_frame = next_frame s

-- One turn of the loop, on what `read` gave.
unfoldable pub turn : (Server → List ℕ → Server × End) → Server → ℤ → Received → Server × End
turn next_frame s now (malformed e) = (s, refused e)
turn next_frame s now disconnected = (s, gone)
turn next_frame s now (received frame rest) = served (handle s now frame) (λ s'. next_frame s' rest)

-- `run`, on all that the peer sends: it reads and handles one frame after the other.
unfoldable pub run : ℕ → (ℕ → ℤ) → Server → List ℕ → Server × End
run zero clock s stream = (s, out_of_fuel)
run (suc fuel) clock s stream = turn (run fuel clock) s (clock fuel) (read stream)
