-- ===== src/MasterHub.antt =====
-- include/srnp/master_hub.h and src/master_hub.cpp: the master, which gives out owner ids and tells
-- every component of the others. What runs under `mutex_` is one function of the hub. `draw` is what a
-- `uniform_int_distribution(1000, 10000)` draws from a generator that is seeded with a port number.
pub mod Owners
mod Tests
use srnp.Base.{
  ℕ, zero, suc, ◌+◌, ◌*◌, ◌-◌, ◌<◌, Bool, true, false, not, ◌&&◌, ◌||◌, ◌==◌, ltb, leb, List, [],
  ◌∷◌, ◌++◌, Option, none, some, ℤ, pos, negsuc, Text, ◌==ℤ◌, if◌then◌else◌, is_some, length,
  lookup, insert, erase, emplace, int_order,
}
use srnp.Numbers.{from_chars}
use srnp.Wire.{Error, not_introduced, Result, ok, err, MessageType, frame_of}
use srnp.Messages.{
  any_owner, IndicatePresence, ComponentInfo, Operation, UpdateComponents, MasterMessage,
}
use srnp.Codec.{decode_payload, decode_presence, encode_master_message, encode_update}
use srnp.Channel.{Frame}

-- What the hub uses of a component's session: where its socket is connected to, and its port.
pub record HubSession : Type 0 where
  pub address : Text
  pub port : Text

-- `sent` is the frames that were handed to the sessions' channels, in order.
pub record Hub : Type 0 where
  pub sessions : List (ℤ × HubSession)
  pub sent : List (ℤ × List ℕ)

abbrev pub new_hub : Hub
new_hub = record { sessions = []; sent = [] }

-- A port that is no number counts as 0.
unfoldable pub port_number : Text → ℤ
port_number port = (from_chars (pos 0) port).value

-- `while (sessions_.contains(candidate)) ++candidate;`
unfoldable pub free_from : ℕ → ℕ → List (ℤ × HubSession) → ℕ
free_from zero candidate sessions = candidate
free_from (suc fuel) candidate sessions =
    let later = free_from fuel (candidate + 1) sessions in
    if is_some (lookup (pos candidate) sessions) then later else candidate

unfoldable pub make_owner_id : (ℤ → ℕ) → Hub → Text → ℤ
make_owner_id draw hub port =
    pos (free_from (length hub.sessions + 1) (draw (port_number port)) hub.sessions)

unfoldable pub owner_for : (ℤ → ℕ) → Hub → IndicatePresence → ℤ
owner_for draw hub presence =
    if presence.force_owner_id && not (is_some (lookup presence.owner_id hub.sessions))
    then presence.owner_id
    else make_owner_id draw hub presence.port

unfoldable pub all_components : List (ℤ × HubSession) → List ComponentInfo
all_components [] = []
all_components ((owner, other) ∷ rest) =
    record { owner = owner; ip = other.address; port = other.port } ∷ all_components rest

unfoldable pub register_component :
    (ℤ → ℕ) → Hub → HubSession → IndicatePresence → Hub × MasterMessage
register_component draw hub session presence =
    let owner = owner_for draw hub presence in
    (
      record hub { sessions = emplace owner session hub.sessions },
      record { owner = owner; all_components = all_components hub.sessions },
    )

unfoldable pub remove_component : Hub → ℤ → Hub
remove_component hub owner = record hub { sessions = erase owner hub.sessions }

-- The frame for each session but the one that the update is about.
unfoldable pub to_others : ℤ → List ℕ → List (ℤ × HubSession) → List (ℤ × List ℕ)
to_others about frame [] = []
to_others about frame ((owner, session) ∷ rest) =
    let others = to_others about frame rest in
    if owner ==ℤ about then others else (owner, frame) ∷ others

unfoldable pub send_to_all : Hub → UpdateComponents → Result Hub
send_to_all hub update = elim (frame_of MessageType.update_components (encode_update update)) [
  | err e ↦ err e
  | ok frame ↦
      ok (record hub { sent = hub.sent ++ to_others update.component.owner frame hub.sessions })
]

-- The state of `run` when it leaves its `try` block: `owner_`, and what was thrown.
pub record Arrival : Type 0 where
  pub hub : Hub
  pub owner : ℤ
  pub thrown : Option Error

abbrev announced : Hub → ℤ → Result Hub → Arrival
announced hub owner (err e) = record { hub = hub; owner = owner; thrown = some e }
announced hub owner (ok hub') = record { hub = hub'; owner = owner; thrown = none }

-- The welcome goes to the component itself, then the others are told.
unfoldable pub welcome_component : Hub → MasterMessage → HubSession → Arrival
welcome_component hub welcome session =
    elim (frame_of MessageType.master_message (encode_master_message welcome)) [
      | err e ↦ record { hub = hub; owner = welcome.owner; thrown = some e }
      | ok frame ↦
          let greeted : Hub = record hub { sent = hub.sent ++ (welcome.owner, frame) ∷ [] } in
          announced greeted welcome.owner (
            send_to_all greeted (record {
              operation = Operation.add;
              component = record {
                owner = welcome.owner;
                ip = session.address;
                port = session.port;
              };
            }))
    ]

-- `run` up to the wait for the component to disconnect, from its first frame.
unfoldable pub arrive : (ℤ → ℕ) → Hub → Text → Frame → Arrival
arrive draw hub address hello = elim hello.header.type [
  | MessageType.indicate_presence ↦ elim (decode_payload decode_presence hello.payload) [
    | err e ↦ record { hub = hub; owner = any_owner; thrown = some e }
    | ok presence ↦
        let session : HubSession = record { address = address; port = presence.port } in
        let (registered, welcome) = register_component draw hub session presence in
        welcome_component registered welcome session
  ]
  | _ ↦ record { hub = hub; owner = any_owner; thrown = some not_introduced }
]

-- `run` after its `try` block. The notice of a removal is short, so that building it does not throw.
unfoldable pub leave : Hub → ℤ → Result Hub
leave hub owner =
    if owner ==ℤ any_owner
    then ok hub
    else send_to_all (remove_component hub owner) (record {
      operation = Operation.remove;
      component = record { owner = owner; ip = []; port = [] };
    })
