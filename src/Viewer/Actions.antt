-- ===== src/Viewer/Actions.antt =====
-- gui/pair_view.h and gui/pair_view.cpp: what the window keeps between frames, what it lists, and what
-- its buttons do once they are pressed. How it draws is Dear ImGui's. A call that throws leaves the
-- window as it is, with the node that the call leaves.
pub mod Listing
pub mod Posting
mod Tests
use srnp.Base.{
  ℕ, Bool, true, false, not, ◌&&◌, ◌||◌, ◌==◌, List, [], ◌∷◌, ◌++◌, Option, none, some, ℤ, pos,
  negsuc, Text, codes, text_eq, ◌==ℤ◌, if◌then◌else◌, is_empty, is_some, lookup, insert, erase,
  emplace, int_order,
}
use srnp.Numbers.{int_text, from_chars}
use srnp.Messages.{any_owner, Pair, PairType, PairKey, pair_key_order}
use srnp.Kernel.{Kernel, Answer, done, thrown}
use srnp.Kernel.Calls.{
  set_pair, set_remote_pair, remove_pair, remove_remote_pair, register_subscription, cancel_handle,
  get_owner_id,
}
use srnp.Viewer.Format.{parse_meta_target, matches_filter}
use srnp.Viewer.Link.{SrnpLink, set_subscribed_to_all}

pub record PairView : Type 0 where
  pub link : SrnpLink
  pub selection : Option PairKey
  pub owner_to_open : Option ℤ
  pub key_filter : Text
  pub owner_filter : ℤ
  pub post_owner : Text
  pub post_key : Text
  pub post_value : Text
  pub post_type : ℕ
  pub status : Text
  pub subscriptions : List (PairKey × ℕ)

abbrev pub node_of : PairView → Kernel
node_of view = view.link.kernel

abbrev pub with_node : PairView → Kernel → PairView
with_node view kernel = record view { link = record view.link { kernel = kernel } }

-- `kPostTypes`, by the index that the form keeps.
abbrev pub post_type_at : ℕ → PairType
post_type_at n =
    if n == 0 then PairType.string else if n == 1 then PairType.bytes else PairType.meta

-- The number has to end where the text does; the error code is not looked at.
unfoldable pub parse_owner : Text → Option ℤ
parse_owner text =
    let read = from_chars (pos 0) text in if is_empty read.rest then some read.value else none

-- The rows of the tree: the pairs that pass both filters, under their owners.
abbrev pub passes : PairView → Pair → Bool
passes view p =
    (view.owner_filter ==ℤ any_owner || (p.owner ==ℤ view.owner_filter))
    && matches_filter p.key view.key_filter

abbrev pub or_empty : Option (List Pair) → List Pair
or_empty none = []
or_empty (some ps) = ps

abbrev pub rows_of : ℤ → List (ℤ × List Pair) → List Pair
rows_of owner rows = or_empty (lookup owner rows)

abbrev pub push_row : Pair → List (ℤ × List Pair) → List (ℤ × List Pair)
push_row p rows = insert p.owner (rows_of p.owner rows ++ p ∷ []) rows

unfoldable pub by_owner : PairView → List (ℤ × List Pair) → List Pair → List (ℤ × List Pair)
by_owner view rows [] = rows
by_owner view rows (p ∷ ps) = by_owner view (if passes view p then push_row p rows else rows) ps

-- The first pair of the snapshot under the key that is selected.
unfoldable pub selected_pair : PairKey → List Pair → Option Pair
selected_pair key [] = none
selected_pair key (p ∷ ps) =
    let later = selected_pair key ps in
    if (p.owner ==ℤ key.owner) && text_eq p.key key.key then some p else later

unfoldable pub selected : PairView → List Pair → Option Pair
selected view pairs = elim view.selection [ none ↦ none | some key ↦ selected_pair key pairs ]

unfoldable pub select : PairView → ℤ → Text → PairView
select view owner key = record view { selection = some (record { owner = owner; key = key }) }

-- The button beside `Points at`.
unfoldable pub follow_target : PairView → Pair → PairView
follow_target view p = elim (parse_meta_target p.value) [
  | none ↦ view
  | some target ↦ record (select view target.owner target.key) { owner_to_open = some target.owner }
]

abbrev pub Pressed : Type 0
Pressed = PairView × Answer Unit

-- A call that tells whether it went, as the line of the status.
abbrev pub reported : PairView → Text → Text → Kernel × Answer Bool → Pressed
reported view sent unsent (kernel, thrown why) = (with_node view kernel, thrown why)
reported view sent unsent (kernel, done went) =
    (record (with_node view kernel) { status = if went then sent else unsent }, done tt)

abbrev not_an_owner : ℤ
not_an_owner = negsuc 1

-- Our own id without an owner in the form, else what the form says.
unfoldable pub posting_owner : PairView → Answer ℤ
posting_owner view =
    if is_empty view.post_owner
    then get_owner_id (node_of view)
    else done (elim (parse_owner view.post_owner) [ none ↦ not_an_owner | some owner ↦ owner ])

unfoldable pub post_as : PairView → ℤ → ℤ → ℤ → Pressed
post_as view now owner us =
    let type = post_type_at view.post_type in
    if owner ==ℤ us
    then reported view (codes "Posted " ++ view.post_key) (codes "Could not post " ++ view.post_key)
        (set_pair (node_of view) now view.post_key view.post_value type)
    else reported view (codes "Posted " ++ view.post_key ++ codes " to owner " ++ int_text owner)
        (codes "Could not post to owner " ++ int_text owner ++ codes ": not connected")
        (set_remote_pair (node_of view) owner view.post_key view.post_value type)

unfoldable pub post_to : PairView → ℤ → ℤ → Pressed
post_to view now owner =
    if owner ==ℤ not_an_owner
    then (
      record view {
        status = codes "Could not post: \"" ++ view.post_owner ++ codes "\" is not an owner id";
      },
      done tt,
    )
    else elim (get_owner_id (node_of view)) [
      | thrown why ↦ (view, thrown why)
      | done us ↦ post_as view now owner us
    ]

-- The button of the form, which is disabled without a key.
unfoldable pub press_post : PairView → ℤ → Pressed
press_post view now =
    if is_empty view.post_key then (view, done tt) else elim (posting_owner view) [
      | thrown why ↦ (view, thrown why)
      | done owner ↦ post_to view now owner
    ]

abbrev pub unselected : Pressed → Pressed
unselected (view, thrown why) = (view, thrown why)
unselected (view, done u) = (record view { selection = none }, done tt)

abbrev pub pair_name : ℤ → Text → Text
pair_name owner key = codes "[" ++ int_text owner ++ codes "] " ++ key

-- The button of the dialog that asks first.
unfoldable pub press_delete : PairView → Pair → Pressed
press_delete view p = elim (get_owner_id (node_of view)) [
  | thrown why ↦ (view, thrown why)
  | done us ↦ unselected (
      reported view (codes "Deleted " ++ pair_name p.owner p.key)
        (codes "Could not delete " ++ pair_name p.owner p.key ++ codes ": not connected")
        (if p.owner ==ℤ us
          then remove_pair (node_of view) p.key
          else remove_remote_pair (node_of view) p.owner p.key))
]

abbrev pub toggled : PairView → Bool → SrnpLink × Answer Unit → Pressed
toggled view wanted (link, thrown why) = (record view { link = link }, thrown why)
toggled view true (link, done u) = (record view { link = link }, done tt)
toggled view false (link, done u) = (
  record view {
    link = link;
    status = codes "Wildcard subscription cancelled. Per-pair toggles are now live.";
  },
  done tt,
)

-- The box `Subscribe to everything`, which shows the other value once it is clicked.
unfoldable pub press_everything : PairView → Pressed
press_everything view =
    let wanted = not view.link.subscribed_to_all in
    toggled view wanted (set_subscribed_to_all view.link wanted)

abbrev pub let_go : PairView → PairKey → Kernel × Answer Bool → Pressed
let_go view key (kernel, thrown why) = (with_node view kernel, thrown why)
let_go view key (kernel, done u) =
    (record (with_node view kernel) { subscriptions = erase key view.subscriptions }, done tt)

-- The box of one of the window's own subscriptions, disabled while everything is subscribed to.
unfoldable pub press_subscription : PairView → PairKey → Pressed
press_subscription view key =
    if view.link.subscribed_to_all then (view, done tt) else elim (lookup key view.subscriptions) [
      | none ↦ (view, done tt)
      | some handle ↦ let_go view key (cancel_handle (node_of view) handle)
    ]

abbrev pub taken_up : PairView → PairKey → Kernel × Answer ℕ → Pressed
taken_up view key (kernel, thrown why) = (with_node view kernel, thrown why)
taken_up view key (kernel, done handle) = (
  if handle == 0
      then record (with_node view kernel) {
        status = codes "Already subscribed to " ++ pair_name key.owner key.key;
      }
      else record (with_node view kernel) { subscriptions = emplace key handle view.subscriptions },
  done tt,
)

-- The button `Subscribe to the selected pair`, where it is shown.
unfoldable pub press_subscribe : PairView → Pressed
press_subscribe view =
    if view.link.subscribed_to_all then (view, done tt) else elim view.selection [
      | none ↦ (view, done tt)
      | some key ↦
          if is_some (lookup key view.subscriptions)
          then (view, done tt)
          else taken_up view key (register_subscription (node_of view) key.owner key.key)
    ]
