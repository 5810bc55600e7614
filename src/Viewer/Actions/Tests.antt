-- ===== src/Viewer/Actions/Tests.antt =====
-- A window with two pairs, whose form posts a third.
use srnp.Base.{◌≡◌, refl, true, [], ◌∷◌, none, some, pos, negsuc, codes, lookup, int_order, arith}
use srnp.Numbers.{from_chars, scan}
use srnp.Messages.{any_owner, Pair, PairType, new_pair}
use srnp.PairSpace.{empty_space, copy_of}
use srnp.PairSpace.Histories.{run, run_empty-IsSpace}
use srnp.PairSpace.Values.{expiry_or}
use srnp.Client.{Client, new_client}
use srnp.Kernel.{Kernel, done}
use srnp.Kernel.Calls.{get_pair}
use srnp.Viewer.Link.{State, new_link}
use srnp.Viewer.Format.{matches_filter, search_for, begins_with}
use srnp.Viewer.Actions.{PairView, node_of, parse_owner, posting_owner, by_owner, press_post}
use srnp.Viewer.Actions.Listing.{matching, listed, lookup-by_owner}
use srnp.Viewer.Actions.Posting.{get_pair-press_post}

abbrev registered : Client
registered = record (new_client (run empty_space [])) { ready = true; owner_id = pos 7 }

abbrev node : Kernel
node = record { server_instance = none; client_instance = some registered }

abbrev view : PairView
view = record {
  link = record (new_link node) { state = State.connected };
  selection = none;
  owner_to_open = none;
  key_filter = codes "TEMP";
  owner_filter = any_owner;
  post_owner = [];
  post_key = codes "temp";
  post_value = codes "20";
  post_type = 0;
  status = [];
  subscriptions = [];
}

abbrev inside : Pair
inside = new_pair (pos 7) (codes "temp.in") (codes "21") PairType.string

abbrev lamp : Pair
lamp = new_pair (pos 7) (codes "lamp") (codes "on") PairType.string

filtered : matching view (pos 7) (inside ∷ lamp ∷ []) ≡ inside ∷ []
unfolding matching matches_filter search_for begins_with
filtered = refl

lookup-by_owner_example :
    lookup (pos 7) (by_owner view [] (inside ∷ lamp ∷ []))
    ≡ listed (matching view (pos 7) (inside ∷ lamp ∷ []))
lookup-by_owner_example = lookup-by_owner view (pos 7) (inside ∷ lamp ∷ [])

get_pair-press_post_example :
    get_pair (node_of (press_post view (pos 5)).0) (pos 7) (codes "temp")
    ≡ done (
        some (record (new_pair (pos 7) (codes "temp") (codes "20") PairType.string) {
          write_time = pos 5;
          expiry_time = expiry_or (copy_of registered.space (pos 7) (codes "temp")) (pos 0);
        }))
get_pair-press_post_example =
    get_pair-press_post view (pos 5) registered refl refl (run_empty-IsSpace [] (omega arith)) refl
      refl refl

-- An id that is out of range counts as 0.
out_of_range : parse_owner (codes "99999999999") ≡ some (pos 0)
unfolding parse_owner from_chars scan
out_of_range = refl

-- An owner whose id is -2 cannot be posted to.
minus_two : posting_owner (record view { post_owner = codes "-2" }) ≡ done (negsuc 1)
unfolding posting_owner parse_owner from_chars scan
minus_two = refl
