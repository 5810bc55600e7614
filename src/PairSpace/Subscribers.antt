-- ===== src/PairSpace/Subscribers.antt =====
-- src/PairSpace.cpp seen from outside: who is told when a pair is published, and what each operation
-- does to that.
use srnp.Base.{
  not, ◌||◌, ◌&&◌, ◌==ℤ◌, ==ℤ_iff, contains-append, contains-erase_all, ◌≡◌, Bool, true, false,
  List, [], Option, none, some, ℤ, Text, inl, inr, Option-cases, is_some, if◌then◌else◌, nat_order,
  lookup, insert, same, same_iff, lookup-insert, lookup-map_values, contains, arith,
}
use srnp.Messages.{Pair, PairType, PairKey, key_of, new_pair, pair_key_order}
use srnp.PairSpace.{
  Callback, PairEntry, PairSpace, pair_key, find, added_entry, add_pair, entry_or_placeholder,
  add_callback, with_subscriber, without_subscriber, add_subscription, remove_subscription,
  add_subscription_to_all, remove_subscription_to_all,
}

-- Whether a component would be sent an update of the pair under a key. A pair that is not there yet
-- inherits the wildcard subscriptions.
abbrev pub told : List ℤ → Option PairEntry → ℤ → Bool
told u_subscribers none a = contains a u_subscribers
told u_subscribers (some e) a = contains a e.subscribers

abbrev pub subscribed : PairSpace → PairKey → ℤ → Bool
subscribed s k a = told s.u_subscribers (lookup k s.pairs) a

told-added_entry :
    (s : PairSpace) (now : ℤ) (p : Pair) (a : ℤ)
    → contains a (added_entry s now p).subscribers ≡ subscribed s (key_of p) a
unfolding added_entry find
told-added_entry s now p a = ground arith

told-entry_or_placeholder :
    (s : PairSpace) (now owner : ℤ) (key : Text) (a : ℤ)
    → contains a (entry_or_placeholder s now owner key).subscribers
      ≡ subscribed s (pair_key owner key) a
unfolding entry_or_placeholder find
told-entry_or_placeholder s now owner key a =
    ground (arith, told-added_entry s now (new_pair owner key [] PairType.invalid) a)

contains-with_subscriber :
    (a b : ℤ) (e : PairEntry)
    → contains a (with_subscriber b e).subscribers ≡ (contains a e.subscribers || (b ==ℤ a))
contains-with_subscriber a b e = ground (arith, contains-append a b e.subscribers, ==ℤ_iff b a)

-- A write of an entry decides who is told of its key, and of no other.
subscribed-insert :
    (s : PairSpace) (k j : PairKey) (e : PairEntry) (a : ℤ)
    → subscribed (record s { pairs = insert k e s.pairs }) j a
      ≡ (if same j k then contains a e.subscribers else subscribed s j a)
subscribed-insert s k j e a = rw (lookup-insert k j e s.pairs) (ground arith)

-- Publishing a pair and registering a callback leave everybody subscribed as they were.
pub subscribed-publishing :
    (s : PairSpace) (now owner : ℤ) (key : Text) (p : Pair) (c : Callback) (j : PairKey) (a : ℤ)
    → (subscribed (add_pair s now p) j a ≡ subscribed s j a)
      × (subscribed (add_callback s now owner key c).0 j a ≡ subscribed s j a)
unfolding add_pair add_callback
subscribed-publishing s now owner key p c j a = (
  rw (subscribed-insert s (key_of p) j (added_entry s now p) a)
      (ground (arith, same_iff j (key_of p), told-added_entry s now p a)),
  rw (lookup-insert (pair_key owner key) j _ s.pairs) (
      ground (arith, same_iff j (pair_key owner key), told-entry_or_placeholder s now owner key a)),
)

-- A subscription to one key adds exactly its subscriber, to that key.
pub subscribed-add_subscription :
    (s : PairSpace) (now owner : ℤ) (key : Text) (subscriber : ℤ) (j : PairKey) (a : ℤ)
    → subscribed (add_subscription s now owner key subscriber) j a
      ≡ (subscribed s j a || (same j (pair_key owner key) && (subscriber ==ℤ a)))
unfolding add_subscription
subscribed-add_subscription s now owner key subscriber j a =
    let k = pair_key owner key in
    let e = entry_or_placeholder s now owner key in
    rw (subscribed-insert s k j (with_subscriber subscriber e) a) (
      ground (
        arith,
        same_iff j k,
        contains-with_subscriber a subscriber e,
        told-entry_or_placeholder s now owner key a,
      ))

-- Cancelling the subscription to one key that has an entry takes exactly that away.
pub subscribed-remove_subscription :
    (s : PairSpace) (owner : ℤ) (key : Text) (subscriber : ℤ) (j : PairKey) (a : ℤ)
    → is_some (find s owner key) ≡ true
    → subscribed (remove_subscription s owner key subscriber) j a
      ≡ (subscribed s j a && not (same j (pair_key owner key) && (a ==ℤ subscriber)))
unfolding find remove_subscription
subscribed-remove_subscription s owner key subscriber j a there =
    elim (Option-cases (lookup (pair_key owner key) s.pairs)) [
      | inl absent ↦ cc (rw absent at there)
      | inr (e, found) ↦
          rw (found, remove_subscription)
            (rw (subscribed-insert s (pair_key owner key) j (without_subscriber subscriber e) a) (
              ground (
                arith,
                found,
                same_iff j (pair_key owner key),
                contains-erase_all a subscriber e.subscribers,
              )))
    ]

-- A wildcard subscriber that was not one before is told of every pair, those to come included, and
-- nobody else's subscriptions change.
pub subscribed-add_subscription_to_all :
    (s : PairSpace) (subscriber : ℤ) (j : PairKey) (a : ℤ)
    → contains subscriber s.u_subscribers ≡ false
    → subscribed (add_subscription_to_all s subscriber) j a
      ≡ (subscribed s j a || (subscriber ==ℤ a))
unfolding add_subscription_to_all
subscribed-add_subscription_to_all s subscriber j a fresh =
    rw (fresh, lookup-map_values (with_subscriber subscriber) j s.pairs)
      (elim (Option-cases (lookup j s.pairs)) [
        | inl absent ↦ rw absent (contains-append a subscriber s.u_subscribers)
        | inr (e, found) ↦ rw found (contains-with_subscriber a subscriber e)
      ])

-- Cancelling the wildcard takes the subscriber off every pair, those to come included, whether it
-- subscribed to them one by one or to everything.
pub subscribed-remove_subscription_to_all :
    (s : PairSpace) (subscriber : ℤ) (j : PairKey) (a : ℤ)
    → subscribed (remove_subscription_to_all s subscriber) j a
      ≡ (if a ==ℤ subscriber then false else subscribed s j a)
unfolding remove_subscription_to_all
subscribed-remove_subscription_to_all s subscriber j a =
    rw (lookup-map_values (without_subscriber subscriber) j s.pairs)
      (elim (Option-cases (lookup j s.pairs)) [
        | inl absent ↦ rw absent (contains-erase_all a subscriber s.u_subscribers)
        | inr (e, found) ↦ rw found (contains-erase_all a subscriber e.subscribers)
      ])
