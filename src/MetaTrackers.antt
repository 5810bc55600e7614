-- ===== src/MetaTrackers.antt =====
-- include/srnp/meta_pair_callback.hpp and src/meta_pair_callback.cpp: following a meta-pair to the pair
-- that it names. A function under `g_mutex` is one step; what it throws leaves it, and what was done
-- before stays. The invalid handle is 0.
pub mod Callbacks
pub mod Subscriptions
pub mod Serving
pub mod Retargeting
mod Tests
use srnp.Base.{
  ℕ, Bool, true, false, ◌&&◌, ◌==◌, List, Option, none, some, ℤ, Text, ◌==ℤ◌, text_eq,
  if◌then◌else◌, lookup, insert, erase, emplace,
}
use srnp.Messages.{Pair, PairKey, key_of, pair_key_eq, pair_key_order}
use srnp.MetaValues.{parse_followed}
use srnp.PairSpace.{Callback, pair_key}
use srnp.Kernel.{Kernel, Answer, done, thrown}
use srnp.Kernel.Calls.{register_callback, cancel_callback, register_subscription, cancel_handle}

pub record MetaTracker : Type 0 where
  pub fn : Option Callback
  pub meta_subscription : ℕ
  pub meta_callback : ℕ
  pub target : Option PairKey
  pub target_subscription : ℕ
  pub target_callback : ℕ

-- The node, and `g_trackers`.
pub record Tracking : Type 0 where
  pub kernel : Kernel
  pub trackers : List (PairKey × MetaTracker)

-- The node, and the tracker that a function works on.
pub record Held : Type 0 where
  pub kernel : Kernel
  pub tracker : MetaTracker

abbrev pub Move : Type 0
Move = Held → Held × Answer Unit

-- One after the other, unless the first throws.
abbrev pub proceed : Move → Held × Answer Unit → Held × Answer Unit
proceed next (held, thrown why) = (held, thrown why)
proceed next (held, done u) = next held

unfoldable pub before : Move → Move → Move
before first next held = proceed next (first held)

-- A call of the node, and what its value does to the tracker.
unfoldable pub after_call :
    {A : Type 0} → MetaTracker → (A → MetaTracker) → Kernel × Answer A → Held × Answer Unit
after_call tracker keep (kernel, done a) = (record { kernel = kernel; tracker = keep a }, done tt)
after_call tracker keep (kernel, thrown why) =
    (record { kernel = kernel; tracker = tracker }, thrown why)

unfoldable pub release_callback : Move
release_callback held =
    let tracker = held.tracker in
    if tracker.target_callback == 0
    then (held, done tt)
    else after_call tracker (λ gone. record tracker { target_callback = 0 })
        (cancel_callback held.kernel tracker.target_callback)

unfoldable pub release_subscription : Move
release_subscription held =
    let tracker = held.tracker in
    if tracker.target_subscription == 0
    then (held, done tt)
    else after_call tracker (λ gone. record tracker { target_subscription = 0 })
        (cancel_handle held.kernel tracker.target_subscription)

unfoldable pub forget_target : Move
forget_target held = (record held { tracker = record held.tracker { target = none } }, done tt)

unfoldable pub release_target : Move
release_target = before release_callback (before release_subscription forget_target)

unfoldable pub subscribe_to : PairKey → Move
subscribe_to target held =
    let aimed : MetaTracker = record held.tracker { target = some target } in
    after_call aimed (λ handle. record aimed { target_subscription = handle })
      (register_subscription held.kernel target.owner target.key)

unfoldable pub watch : ℤ → PairKey → Move
watch now target held =
    let tracker = held.tracker in
    elim tracker.fn [
      | none ↦ (held, done tt)
      | some fn ↦
          after_call tracker (λ handle. record tracker { target_callback = handle })
            (register_callback held.kernel now target.owner target.key fn)
    ]

unfoldable pub acquire_target : ℤ → PairKey → Move
acquire_target now target = before (subscribe_to target) (watch now target)

-- From one target to the next, or to none.
unfoldable pub retarget : ℤ → Option PairKey → Move
retarget now none = release_target
retarget now (some target) = before release_target (acquire_target now target)

unfoldable pub same_target : Option PairKey → Option PairKey → Bool
same_target none none = true
same_target (some a) (some b) = pair_key_eq a b
same_target _ _ = false

-- The map holds pointers: the tracker that was worked on is the one in the map.
abbrev pub put_back :
    PairKey → List (PairKey × MetaTracker) → Held × Answer Unit → Tracking × Answer Unit
put_back key trackers (held, answer) =
    (record { kernel = held.kernel; trackers = insert key held.tracker trackers }, answer)

unfoldable pub on_meta_pair_changed : Tracking → ℤ → Pair → Tracking × Answer Unit
on_meta_pair_changed s now metapair = elim (lookup (key_of metapair) s.trackers) [
  | none ↦ (s, done tt)
  | some tracker ↦
      let target = parse_followed metapair.value in
      if same_target target tracker.target
      then (s, done tt)
      else put_back (key_of metapair) s.trackers
          (retarget now target (record { kernel = s.kernel; tracker = tracker }))
]

abbrev pub new_tracker : Option Callback → MetaTracker
new_tracker fn = record {
  fn = fn;
  meta_subscription = 0;
  meta_callback = 0;
  target = none;
  target_subscription = 0;
  target_callback = 0;
}

unfoldable pub subscribe_meta : PairKey → Move
subscribe_meta key held =
    after_call held.tracker (λ handle. record held.tracker { meta_subscription = handle })
      (register_subscription held.kernel key.owner key.key)

unfoldable pub watch_meta : ℤ → PairKey → Move
watch_meta now key held =
    after_call held.tracker (λ handle. record held.tracker { meta_callback = handle })
      (register_callback held.kernel now key.owner key.key Callback.on_meta_pair_changed)

-- A tracker that is complete goes into the map.
abbrev pub enrol :
    PairKey → List (PairKey × MetaTracker) → Held × Answer Unit → Tracking × Answer Unit
enrol key trackers (held, thrown why) =
    (record { kernel = held.kernel; trackers = trackers }, thrown why)
enrol key trackers (held, done u) =
    (record { kernel = held.kernel; trackers = emplace key held.tracker trackers }, done tt)

unfoldable pub register_tracker : Tracking → ℤ → ℤ → Text → Option Callback → Tracking × Answer Unit
register_tracker s now meta_owner meta_key fn =
    let key = pair_key meta_owner meta_key in
    elim (lookup key s.trackers) [
      | some tracker ↦
          (record s { trackers = insert key (record tracker { fn = fn }) s.trackers }, done tt)
      | none ↦ enrol key s.trackers (
          before (subscribe_meta key) (watch_meta now key)
            (record { kernel = s.kernel; tracker = new_tracker fn }))
    ]

unfoldable pub unsubscribe_meta : Move
unsubscribe_meta held =
    after_call held.tracker (λ gone. held.tracker)
      (cancel_handle held.kernel held.tracker.meta_subscription)

unfoldable pub unwatch_meta : Move
unwatch_meta held =
    after_call held.tracker (λ gone. held.tracker)
      (cancel_callback held.kernel held.tracker.meta_callback)

-- A tracker that is let go of leaves the map.
abbrev pub dismiss :
    PairKey → List (PairKey × MetaTracker) → Held × Answer Unit → Tracking × Answer Unit
dismiss key trackers (held, thrown why) =
    (record { kernel = held.kernel; trackers = insert key held.tracker trackers }, thrown why)
dismiss key trackers (held, done u) =
    (record { kernel = held.kernel; trackers = erase key trackers }, done tt)

unfoldable pub cancel_meta_callback : Tracking → ℤ → Text → Tracking × Answer Unit
cancel_meta_callback s meta_owner meta_key =
    let key = pair_key meta_owner meta_key in
    elim (lookup key s.trackers) [
      | none ↦ (s, done tt)
      | some tracker ↦ dismiss key s.trackers (
          before release_target (before unsubscribe_meta unwatch_meta)
            (record { kernel = s.kernel; tracker = tracker }))
    ]
