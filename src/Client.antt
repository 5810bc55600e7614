-- ===== src/Client.antt =====
-- include/srnp/client.h and src/client.cpp: `Client`, what an application uses. `posted` is what
-- `notifyLocal` has posted to `callback_strand_`, and a frame that is too long to build is thrown as a
-- `DecodeError`. The meta-pairs are not here.
pub mod Subscribing
pub mod Peers
pub mod Pairs
pub mod Standing
pub mod Subscriptions
pub mod Table
pub mod Fanning
pub mod MetaPairs
mod Tests
use srnp.Base.{
  ℕ, ◌+◌, ◌%◌, ◌^◌, Bool, true, false, not, ◌&&◌, ◌||◌, List, [], ◌∷◌, ◌++◌, Option, none, some, ℤ,
  Text, ◌==ℤ◌, text_eq, if◌then◌else◌, is_empty, lookup, insert, erase, emplace, values, int_order,
  nat_order,
}
use srnp.Wire.{Error, Result, ok, err, Encoder, MessageType, frame_of}
use srnp.Messages.{
  any_owner, wildcard_key, Pair, PairType, PairKey, new_pair, key_of, Subscription,
  RemovePairRequest, ComponentInfo, Operation, UpdateComponents, MasterMessage,
}
use srnp.Codec.{encode_pair, encode_subscription, encode_removal}
use srnp.PairSpace.{
  Callback, PairEntry, PairSpace, find, copy_of, added_entry, add_pair, add_callback,
  add_callback_to_all, remove_callback, universal_callbacks_of,
}
use srnp.PairSpace
use srnp.Session.{Session, new_session, connect}
use srnp.Session

pub record SubscriptionRecord : Type 0 where
  pub owner : ℤ
  pub key : Text

pub record Client : Type 0 where
  pub space : PairSpace
  pub posted : List (Pair × List Callback)
  pub owner_id : ℤ
  pub ready : Bool
  pub sessions : List (ℤ × Session)
  pub components : List (ℤ × ComponentInfo)
  pub subscriptions : List (ℕ × SubscriptionRecord)
  pub next_subscription_handle : ℕ

abbrev pub new_client : PairSpace → Client
new_client space = record {
  space = space;
  posted = [];
  owner_id = any_owner;
  ready = false;
  sessions = [];
  components = [];
  subscriptions = [];
  next_subscription_handle = 0;
}

abbrev pub session_for : Client → ℤ → Option Session
session_for c owner = lookup owner c.sessions

-- `session->send(...)`, through the pointer that the table holds.
abbrev pub sent_to : ℤ → List ℕ → Option PairKey → List (ℤ × Session) → List (ℤ × Session)
sent_to owner frame key sessions = elim (lookup owner sessions) [
  | none ↦ sessions
  | some session ↦ insert owner (Session.send session frame key) sessions
]

-- The loop over the subscribers; one that is not connected is skipped.
unfoldable pub fan_out : List ℕ → Option PairKey → List ℤ → List (ℤ × Session) → List (ℤ × Session)
fan_out frame key [] sessions = sessions
fan_out frame key (a ∷ rest) sessions = fan_out frame key rest (sent_to a frame key sessions)

unfoldable pub fan_out_pair : Client → Pair → List ℤ → Result Client
fan_out_pair c p subscribers = elim (frame_of MessageType.pair_update (encode_pair p)) [
  | err e ↦ err e
  | ok payload ↦
      ok (record c { sessions = fan_out payload (some (key_of p)) subscribers c.sessions })
]

unfoldable pub fan_out_removal : Client → RemovePairRequest → List ℤ → Result Client
fan_out_removal c request subscribers =
    elim (frame_of MessageType.pair_removed (encode_removal request)) [
      | err e ↦ err e
      | ok payload ↦ ok (record c { sessions = fan_out payload none subscribers c.sessions })
    ]

unfoldable pub notify_local : Client → Pair → List Callback → Client
notify_local c snapshot callbacks =
    if is_empty callbacks then c else record c { posted = c.posted ++ (snapshot, callbacks) ∷ [] }

-- A message to one component: framed, then sent if there is a session.
unfoldable pub send_message : Client → ℤ → MessageType → Encoder → Client × Result Bool
send_message c owner type message = elim (session_for c owner) [
  | none ↦ (c, ok false)
  | some session ↦ elim (frame_of type message) [
    | err e ↦ (c, err e)
    | ok payload ↦ (
      record c { sessions = insert owner (Session.send session payload none) c.sessions },
      ok true,
    )
  ]
]

-- The end of `setPair`: what the fan-out threw, or the callbacks.
unfoldable pub published : Client → PairEntry → Result Client → Client × Result Bool
published c entry (err e) = (c, err e)
published c entry (ok c') = (
  notify_local c' entry.pair (universal_callbacks_of c'.space ++ values entry.callbacks),
  ok true,
)

-- `setPair` of a component that is registered.
unfoldable pub publish : Client → ℤ → Pair → Client × Result Bool
publish c now incoming =
    let entry = added_entry c.space now incoming in
    let added : Client = record c { space = add_pair c.space now incoming } in
    published added entry (
      if is_empty entry.subscribers
      then ok added
      else fan_out_pair added entry.pair entry.subscribers)

unfoldable pub set_pair : Client → ℤ → Text → Text → PairType → Client × Result Bool
set_pair c now key value type =
    if not c.ready then (c, ok false) else publish c now (new_pair c.owner_id key value type)

unfoldable pub set_remote_pair : Client → ℤ → Text → Text → PairType → Client × Result Bool
set_remote_pair c owner key value type =
    send_message c owner MessageType.pair (encode_pair (new_pair owner key value type))

-- The end of `removePair`, after the removal.
unfoldable pub unpublished : Client → Result Client → Client × Result Bool
unpublished c (err e) = (c, err e)
unpublished c (ok c') = (c', ok true)

-- `removePair` of a component that is registered.
unfoldable pub unpublish : Client → RemovePairRequest → Client × Result Bool
unpublish c request = elim (find c.space request.owner request.key) [
  | none ↦ (c, ok true)
  | some entry ↦
      let removed : Client = record c {
        space = PairSpace.remove_pair c.space request.owner request.key;
      } in
      unpublished removed (
        if is_empty entry.subscribers
        then ok removed
        else fan_out_removal removed request entry.subscribers)
]

unfoldable pub remove_pair : Client → Text → Client × Result Bool
remove_pair c key =
    if not c.ready then (c, ok false) else unpublish c (record { owner = c.owner_id; key = key })

unfoldable pub remove_remote_pair : Client → ℤ → Text → Client × Result Bool
remove_remote_pair c owner key =
    if owner ==ℤ c.owner_id
    then remove_pair c key
    else send_message c owner MessageType.remove_pair
        (encode_removal (record { owner = owner; key = key }))

-- A pair that is a placeholder counts as none.
unfoldable pub valid_only : Option Pair → Option Pair
valid_only none = none
valid_only (some p) = elim p.type [ PairType.invalid ↦ none | _ ↦ some p ]

unfoldable pub get_pair : Client → ℤ → Text → Option Pair
get_pair c owner key = valid_only (copy_of c.space owner key)

abbrev with_handle : Client → PairSpace × ℕ → Client × ℕ
with_handle c (space, handle) = (record c { space = space }, handle)

unfoldable pub register_callback : Client → ℤ → ℤ → Text → Callback → Client × ℕ
register_callback c now owner key callback = with_handle c (
    if text_eq key wildcard_key
    then add_callback_to_all c.space callback
    else add_callback c.space now owner key callback)

unfoldable pub cancel_callback : Client → ℕ → Client
cancel_callback c handle = record c { space = remove_callback c.space handle }
