-- ===== src/MetaTrackers/Tests.antt =====
-- A node that follows a meta-pair of its own.
use srnp.Base.{
  ◌≡◌, ◌⊎◌, arith, nat_order, refl, true, [], ◌∷◌, some, pos, codes, text_lt, insert, lookup,
}
use srnp.Messages.{Pair, PairType, PairKey, key_of, pair_key_less, pair_key_order, new_pair}
use srnp.MetaValues.{parse_followed}
use srnp.PairSpace.{Callback, empty_space}
use srnp.Client.{Client, new_client}
use srnp.PairSpace.Histories.{run, run_empty-IsSpace}
use srnp.PairSpace.Callbacks.{HasRoom}
use srnp.MetaTrackers.Subscriptions.{IsFree}
use srnp.Kernel.{done, Kernel}
use srnp.MetaTrackers.{MetaTracker, Tracking, new_tracker, on_meta_pair_changed, register_tracker}
use srnp.MetaTrackers.Retargeting.{Retargeted, on_meta_pair_changed-Retargeted}

abbrev node_client : Client
node_client = record (new_client (run empty_space [])) { ready = true; owner_id = pos 7 }

abbrev node : Kernel
node = record {
  server_instance = some (record { owner = pos 7; unread = [] });
  client_instance = some node_client;
}

abbrev idle : Tracking
idle = record { kernel = node; trackers = [] }

abbrev pointing : Pair
pointing = new_pair (pos 7) (codes "m") (codes "(META 8 temp)") PairType.string

abbrev key : PairKey
key = record { owner = pos 7; key = codes "m" }

abbrev tracker : MetaTracker
tracker = record (new_tracker (some (Callback.user 1))) { meta_subscription = 1; meta_callback = 1 }

abbrev tracking : Tracking
tracking = record { kernel = node; trackers = (key, tracker) ∷ [] }

tracked : lookup (key_of pointing) tracking.trackers ≡ some tracker
unfolding lookup pair_key_less text_lt
tracked = refl

node_client-IsFree : IsFree node_client
unfolding lookup
node_client-IsFree = refl

node_client-HasRoom : HasRoom node_client.space
unfolding run
node_client-HasRoom = omega arith

on_meta_pair_changed-Retargeted_example :
    ((tracker.target ≡ parse_followed pointing.value)
        × (on_meta_pair_changed tracking (pos 3) pointing ≡ (tracking, done tt))
      ⊎ Retargeted node_client tracker
          (key_of pointing)
          (parse_followed pointing.value)
          (on_meta_pair_changed tracking (pos 3) pointing))
    × (lookup
          (record { owner = pos 8; key = codes "other" })
          (on_meta_pair_changed tracking (pos 3) pointing).0.trackers
        ≡ lookup (record { owner = pos 8; key = codes "other" }) tracking.trackers)
on_meta_pair_changed-Retargeted_example =
    on_meta_pair_changed-Retargeted tracking (pos 3) pointing tracker node_client
      (record { owner = pos 8; key = codes "other" }) tracked refl
      (node_client-IsFree, (run_empty-IsSpace [] (omega arith), node_client-HasRoom)) (λ e. cc)

-- A second registration takes the new callback, and does nothing else: the callback that the node has
-- for the target stays the first one.
second_registration :
    register_tracker tracking (pos 4) (pos 7) (codes "m") (some (Callback.user 2)) ≡ (
      record tracking { trackers = (key, record tracker { fn = some (Callback.user 2) }) ∷ [] },
      done tt,
    )
unfolding register_tracker lookup insert pair_key_less text_lt
second_registration = refl
