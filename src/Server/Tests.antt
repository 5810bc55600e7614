-- ===== src/Server/Tests.antt =====
-- The server on small histories.
use srnp.Base.{
  ℕ, ◌≡◌, ◌≢◌, ◌||◌, ◌&&◌, ◌==ℤ◌, refl, true, List, [], ◌∷◌, ◌++◌, ℤ, pos, negsuc, codes, same,
  nat_order, arith,
}
use srnp.Wire.{
  ok, ◌>>=◌, guard, MessageType, frame, frame_of, encode_header, write_header, take_buffer,
  write_integer, write_signed, write_string, append_bytes, le_bytes, bits,
}
use srnp.Messages.{Pair, PairType, Subscription, new_pair, pair_key_order}
use srnp.Codec.{encode_pair}
use srnp.PairSpace.{Callback, empty_space, pair_key, find}
use srnp.PairSpace.Invariant.{IsSpace}
use srnp.PairSpace.Subscribers.{subscribed}
use srnp.PairSpace.Histories.{
  Call, adds_subscription_to_all, adds_callback, adds_pair, run_empty-IsSpace,
}
use srnp.PairSpace.Histories
use srnp.Session.{new_session}
use srnp.Channel.{Frame}
use srnp.Client.{new_client}
use srnp.Server.{Server, space_of, handle, obey_subscription, out_of_fuel, served, run}
use srnp.Server.Spaces.{handle-IsSpace}
use srnp.Server.Serving.{run-ends}
use srnp.Server.Replicas.{run-update, replica, callbacks_at}
use srnp.Client.{get_pair}
use srnp.PairSpace.{universal_callbacks_of}
use srnp.Server.{calls}
use srnp.Base.{some}
use srnp.PairSpace.{copy_of}
use srnp.Server.{apply_and_notify}
use srnp.Server.Messages.{Greets, subscribed-obey_subscription}

-- A wildcard subscriber, a callback for a pair of owner 9, and a pair of our own.
abbrev calls_made : List Call
calls_made =
    adds_subscription_to_all (pos 8)
    ∷ adds_callback (pos 1) (pos 9) (codes "t") (Callback.user 1)
    ∷ adds_pair (pos 2) (new_pair (pos 7) (codes "t") (codes "20") PairType.string)
    ∷ []

abbrev server : Server
server = record {
  owner = pos 7;
  client = record (new_client (Histories.run empty_space (calls_made))) {
    ready = true;
    owner_id = pos 7;
    sessions = (pos 9, new_session [] [] (pos 9)) ∷ [];
  };
  called = [];
}

-- A pair of owner 9: its owner, key, value, type and times.
abbrev update_payload : List ℕ
update_payload =
    9 ∷ 0 ∷ 0 ∷ 0 ∷ 1 ∷ 0 ∷ 0 ∷ 0 ∷ 116 ∷ 1 ∷ 0 ∷ 0 ∷ 0 ∷ 49 ∷ 1 ∷ 0 ∷ 0 ∷ 0 ∷ 0 ∷ 0 ∷ 0 ∷ 0 ∷ 0 ∷ 0
    ∷ 0 ∷ 0 ∷ 0 ∷ 0 ∷ 0 ∷ 0 ∷ 0 ∷ []

abbrev update : Pair
update = new_pair (pos 9) (codes "t") (codes "1") PairType.string

abbrev update_frame : Frame
update_frame = record {
  header = record { type = MessageType.pair_update; payload_length = 31; subscriber = negsuc 0 };
  payload = update_payload;
}

handle-IsSpace_example : IsSpace (space_of (handle server (pos 5) update_frame).0)
handle-IsSpace_example =
    handle-IsSpace server (pos 5) update_frame (run_empty-IsSpace (calls_made) (omega arith))

abbrev clock : ℕ → ℤ
clock n = pos n

run-ends_example : (run 40 clock server update_payload).1 ≢ out_of_fuel
run-ends_example = run-ends 40 clock server update_payload (omega arith)

abbrev subscription : Subscription
subscription = record { key = codes "t"; owner_id = pos 7; subscriber = pos 9; registering = true }

subscribed-obey_subscription_example :
    (subscribed
        (space_of (obey_subscription server (pos 5) subscription).0)
        (pair_key (pos 7) (codes "t"))
        (pos 9)
      ≡ (subscribed (space_of server) (pair_key (pos 7) (codes "t")) (pos 9)
          || (same (pair_key (pos 7) (codes "t")) (pair_key (pos 7) (codes "t"))
              && (pos 9 ==ℤ pos 9))))
    × Greets server.client.sessions
        (pos 9)
        (get_pair server.client (pos 7) (codes "t"))
        (obey_subscription server (pos 5) subscription)
subscribed-obey_subscription_example =
    subscribed-obey_subscription server (pos 5) subscription (pair_key (pos 7) (codes "t")) (pos 9)
      ((λ e. cc), refl, (λ e. cc), refl)

abbrev update_bytes : List ℕ
update_bytes =
    83 ∷ 82 ∷ 78 ∷ 80 ∷ 2 ∷ 3 ∷ 0 ∷ 0 ∷ 31 ∷ 0 ∷ 0 ∷ 0 ∷ 255 ∷ 255 ∷ 255 ∷ 255 ∷ update_payload

update_built : frame_of MessageType.pair_update (encode_pair update) ≡ ok update_bytes
unfolding frame_of frame take_buffer encode_header write_header encode_pair write_integer
    write_signed write_string append_bytes le_bytes bits ◌>>=◌ guard
update_built = refl

run-update_example :
    (run 3 clock server (update_bytes ++ [])
      ≡ served (apply_and_notify server (clock 2) update) (λ s'. run 2 clock s' []))
    × (copy_of (space_of (apply_and_notify server (clock 2) update).0) (pos 9) (codes "t")
        ≡ some (replica (space_of server) (clock 2) update))
    × ((apply_and_notify server (clock 2) update).0.called
        ≡ server.called
          ++ calls (replica (space_of server) (clock 2) update) (
              universal_callbacks_of (space_of server)
              ++ callbacks_at (find (space_of server) (pos 9) (codes "t"))))
run-update_example =
    run-update update update_bytes 2 clock server [] (omega arith) update_built
      (run_empty-IsSpace (calls_made) (omega arith))
