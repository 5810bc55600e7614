-- ===== src/PairSpace/Histories.antt =====
-- src/PairSpace.cpp: the space after any history of calls.
use srnp.Base.{
  ℕ, ◌+◌, ◌<◌, ◌≤◌, ◌^◌, refl, List, [], ◌∷◌, ℤ, Text, length, lookup, nat_order, arith,
}
use srnp.Messages.{Pair, pair_key_order}
use srnp.PairSpace.{
  Callback, PairSpace, empty_space, add_pair, removed_entry, remove_pair, add_callback,
  add_callback_to_all, remove_callback, add_subscription, remove_subscription,
  add_subscription_to_all, remove_subscription_to_all,
}
use srnp.PairSpace.Invariant.{IsSpace}
use srnp.PairSpace.Preservation.{
  add_pair-IsSpace, remove_pair-IsSpace, add_subscription-IsSpace, remove_subscription-IsSpace,
  add_subscription_to_all-IsSpace, remove_subscription_to_all-IsSpace,
}
use srnp.PairSpace.Callbacks.{HasRoom, add_callback-IsSpace, add_callback_to_all-IsSpace}
use srnp.PairSpace.Cancelling.{remove_callback-IsSpace}

-- One call of each method that changes the space.
pub data Call : Type 0 where
  adds_pair : ℤ → Pair → Call
  removes_pair : ℤ → Text → Call
  adds_callback : ℤ → ℤ → Text → Callback → Call
  adds_callback_to_all : Callback → Call
  removes_callback : ℕ → Call
  adds_subscription : ℤ → ℤ → Text → ℤ → Call
  removes_subscription : ℤ → Text → ℤ → Call
  adds_subscription_to_all removes_subscription_to_all : ℤ → Call

unfoldable pub perform : PairSpace → Call → PairSpace
perform s (adds_pair now p) = add_pair s now p
perform s (removes_pair owner key) = remove_pair s owner key
perform s (adds_callback now owner key c) = (add_callback s now owner key c).0
perform s (adds_callback_to_all c) = (add_callback_to_all s c).0
perform s (removes_callback h) = remove_callback s h
perform s (adds_subscription now owner key a) = add_subscription s now owner key a
perform s (removes_subscription owner key a) = remove_subscription s owner key a
perform s (adds_subscription_to_all a) = add_subscription_to_all s a
perform s (removes_subscription_to_all a) = remove_subscription_to_all s a

unfoldable pub run : PairSpace → List Call → PairSpace
run s [] = s
run s (c ∷ cs) = run (perform s c) cs

perform-IsSpace : (s : PairSpace) (c : Call) → IsSpace s → HasRoom s → IsSpace (perform s c)
unfolding perform
perform-IsSpace s (adds_pair now p) v room = add_pair-IsSpace s now p v
perform-IsSpace s (removes_pair owner key) v room = remove_pair-IsSpace s owner key v
perform-IsSpace s (adds_callback now owner key c) v room =
    add_callback-IsSpace s now owner key c v room
perform-IsSpace s (adds_callback_to_all c) v room = add_callback_to_all-IsSpace s c v room
perform-IsSpace s (removes_callback h) v room = remove_callback-IsSpace s h v
perform-IsSpace s (adds_subscription now owner key a) v room =
    add_subscription-IsSpace s now owner key a v
perform-IsSpace s (removes_subscription owner key a) v room =
    remove_subscription-IsSpace s owner key a v
perform-IsSpace s (adds_subscription_to_all a) v room = add_subscription_to_all-IsSpace s a v
perform-IsSpace s (removes_subscription_to_all a) v room = remove_subscription_to_all-IsSpace s a v

-- A call gives out one handle at most.
handle-perform :
    (s : PairSpace) (c : Call) → (perform s c).next_callback_handle ≤ s.next_callback_handle + 1
unfolding perform add_pair remove_pair removed_entry add_callback add_callback_to_all
    remove_callback add_subscription remove_subscription add_subscription_to_all
    remove_subscription_to_all
handle-perform s (adds_callback now owner key c) = omega arith
handle-perform s (adds_callback_to_all c) = omega arith
handle-perform s _ = ground arith

pub run-IsSpace :
    (s : PairSpace) (cs : List Call)
    → IsSpace s
    → s.next_callback_handle + length cs < 2 ^ 64
    → IsSpace (run s cs)
unfolding run
run-IsSpace s [] v room = v
run-IsSpace s (c ∷ cs) v room =
    run-IsSpace (perform s c) cs (perform-IsSpace s c v (omega arith))
      (omega (arith, handle-perform s c))

empty_space-IsSpace : IsSpace empty_space
unfolding lookup
empty_space-IsSpace = record {
  entries = λ k e p. cc;
  distinct = tt;
  owned = λ h k p. cc;
  apart = λ h p. refl;
  issued = λ h p. (refl, refl);
}

-- After any history of calls on an empty space, too short for the handles to wrap, each entry holds
-- the pair that its key names, no list of subscribers holds one twice, every callback is registered
-- under the key of its entry and the other way round, and no handle is both a pair's and universal.
pub run_empty-IsSpace : (cs : List Call) → length cs < 2 ^ 64 → IsSpace (run empty_space cs)
run_empty-IsSpace cs room = run-IsSpace empty_space cs empty_space-IsSpace (omega arith)
