-- ===== src/Client/Tests.antt =====
-- A client on small histories.
use srnp.Base.{
  is_some, length, ◌+◌, ℕ, ◌≡◌, ◌||◌, ◌⊎◌, refl, true, if◌then◌else◌, contains, Distinct,
  map_option, int_order, List, [], ◌∷◌, none, some, ℤ, pos, codes, lookup, nat_order, arith,
}
use srnp.Wire.{Error, ok, err, MessageType, frame_of}
use srnp.Codec.{encode_pair}
use srnp.Messages.{
  Pair, PairType, key_of, new_pair, MasterMessage, ComponentInfo, UpdateComponents, Operation,
}
use srnp.PairSpace.{empty_space, copy_of}
use srnp.PairSpace.Histories.{run, run_empty-IsSpace}
use srnp.PairSpace.Values.{expiry_or}
use srnp.Session
use srnp.Client.{Client, new_client, set_pair, remove_pair, get_pair, fan_out_pair}
use srnp.Client.Subscribing.{is_record, register_subscription}
use srnp.Client.Peers.{add_session, add_sessions, on_welcome}
use srnp.Client.Pairs.{get_pair-set_pair, get_pair-remove_pair}
use srnp.Client.Subscriptions.{holds, holds-register_subscription}
use srnp.Client.Table.{is_there, is_named, IsTable, updated, on_welcome-IsTable}
use srnp.Client.Fanning.{lookup-fan_out_pair}

abbrev peer : ComponentInfo
peer = record { owner = pos 8; ip = codes "127.0.0.1"; port = codes "40000" }

abbrev registered : Client
registered = record (new_client (run empty_space [])) { ready = true; owner_id = pos 7 }

get_pair-set_pair_example :
    (get_pair
        (set_pair registered (pos 5) (codes "t") (codes "20") PairType.string).0
        (pos 7)
        (codes "t")
      ≡ some (record (new_pair (pos 7) (codes "t") (codes "20") PairType.string) {
        write_time = pos 5;
        expiry_time = expiry_or (copy_of registered.space (pos 7) (codes "t")) (pos 0);
      }))
    × (get_pair
          (set_pair registered (pos 5) (codes "t") (codes "20") PairType.string).0
          (pos 7)
          (codes "tu")
        ≡ get_pair registered (pos 7) (codes "tu"))
get_pair-set_pair_example =
    get_pair-set_pair registered (pos 5) (codes "t") (codes "20") PairType.string (pos 7)
      (codes "tu") (run_empty-IsSpace [] (omega arith)) refl (λ e. cc) (λ e. cc)

get_pair-remove_pair_example :
    (get_pair (remove_pair registered (codes "t")).0 (pos 7) (codes "t") ≡ none)
    × (get_pair (remove_pair registered (codes "t")).0 (pos 7) (codes "tu")
        ≡ get_pair registered (pos 7) (codes "tu"))
get_pair-remove_pair_example =
    get_pair-remove_pair registered (codes "t") (pos 7) (codes "tu") refl (λ e. cc)

no_handle : lookup 1 registered.subscriptions ≡ none
unfolding lookup
no_handle = refl

holds-register_subscription_example :
    (holds
        (pos 8)
        (codes "t")
        (register_subscription registered (pos 8) (codes "t")).0.subscriptions
      ≡ (holds (pos 8) (codes "t") registered.subscriptions
          || is_record (pos 8) (codes "t") (record { owner = pos 8; key = codes "t" })))
    × (length (register_subscription registered (pos 8) (codes "t")).0.subscriptions
        ≡ length registered.subscriptions
          + (if holds (pos 8) (codes "t") registered.subscriptions then 0 else 1))
holds-register_subscription_example =
    holds-register_subscription registered (pos 8) (pos 8) (codes "t") (codes "t") no_handle

-- After the welcome the component is ready, under the owner id that it got.
welcomed :
    (on_welcome
      (new_client empty_space)
      (record { owner = pos 7; all_components = peer ∷ [] })).owner_id
    ≡ pos 7
unfolding on_welcome add_sessions add_session
welcomed = refl

empty-IsTable : IsTable (new_client empty_space)
unfolding lookup
empty-IsTable owner = refl

only_one : Distinct (pos 8 ∷ [])
unfolding contains
only_one = (refl, tt)

abbrev welcome : MasterMessage
welcome = record { owner = pos 7; all_components = peer ∷ [] }

abbrev joined : List UpdateComponents
joined =
    record { operation = Operation.add; component = record { owner = pos 9; ip = []; port = [] } }
    ∷ record {
      operation = Operation.remove;
      component = record { owner = pos 8; ip = []; port = [] };
    }
    ∷ []

on_welcome-IsTable_example :
    IsTable (updated (on_welcome (new_client empty_space) welcome) joined)
    × (is_some
          (lookup (pos 8) (updated (on_welcome (new_client empty_space) welcome) joined).sessions)
        ≡ is_there
            (pos 8)
            (is_named (pos 8) (peer ∷ [])
              || is_some (lookup (pos 8) (new_client empty_space).sessions))
            joined)
on_welcome-IsTable_example =
    on_welcome-IsTable (new_client empty_space) welcome joined (pos 8) empty-IsTable

abbrev reading : Pair
reading = new_pair (pos 7) (codes "t") (codes "20") PairType.string

abbrev connected : Client
connected = on_welcome (new_client empty_space) welcome

lookup-fan_out_pair_example :
    ((e : Error) × (frame_of MessageType.pair_update (encode_pair reading) ≡ err e)
      × (fan_out_pair connected reading (pos 8 ∷ []) ≡ err e))
    ⊎ (frame : List ℕ) × (client : Client) × (frame_of MessageType.pair_update (encode_pair reading)
        ≡ ok frame)
      × (fan_out_pair connected reading (pos 8 ∷ []) ≡ ok client)
      × ((a : ℤ)
          → lookup a client.sessions ≡ (
              if contains a (pos 8 ∷ [])
              then map_option
                  (λ s. Session.send s frame (some (key_of reading)))
                  (lookup a connected.sessions)
              else lookup a connected.sessions))
lookup-fan_out_pair_example = lookup-fan_out_pair connected reading (pos 8 ∷ []) only_one
