-- ===== src/PairSpace/Preservation.antt =====
-- src/PairSpace.cpp: every operation keeps the invariant of the space.
use srnp.Base.{
  ℕ, ◌≡◌, refl, true, List, [], ◌∷◌, some, ℤ, Text, inl, inr, Bool-cases, Option-cases, is_some,
  is_empty, ◌&&◌, nat_order, lookup, insert, erase, same, same_iff, lookup-erase, contains,
  Distinct-append, Distinct-erase_all, arith,
}
use srnp.Messages.{Pair, PairKey, key_of, pair_key_order}
use srnp.PairSpace.{
  Callback, PairEntry, PairSpace, pair_key, find, added_entry, add_pair, removed_entry, remove_pair,
  entry_or_placeholder, with_subscriber, without_subscriber, add_subscription, remove_subscription,
  add_subscription_to_all, remove_subscription_to_all,
}
use srnp.PairSpace.Invariant.{
  Pairs, Entries, has_callback, IsSpace, Entries-insert, Entries-erase, Entries-map_values,
  added_entry-IsEntry, entry_or_placeholder-IsEntry, with_subscriber-IsEntry,
  without_subscriber-IsEntry, has_callback-insert, has_callback-map_values, added_callbacks,
  placeholder_callbacks,
}

-- What only the pairs of a space change in: the parts of the invariant that they carry suffice.
IsSpace-pairs :
    (s : PairSpace) (pairs : Pairs)
    → IsSpace s
    → Entries s.callback_owners pairs
    → ((h : ℕ) (k : PairKey) → has_callback s.pairs k h ≡ true → has_callback pairs k h ≡ true)
    → IsSpace (record s { pairs = pairs })
IsSpace-pairs s pairs v entries keeps = record {
  entries = entries;
  distinct = v.distinct;
  owned = λ h k e. keeps h k (v.owned h k e);
  apart = v.apart;
  issued = v.issued;
}

pub add_pair-IsSpace : (s : PairSpace) (now : ℤ) (p : Pair) → IsSpace s → IsSpace (add_pair s now p)
unfolding add_pair
add_pair-IsSpace s now p v =
    IsSpace-pairs s (insert (key_of p) (added_entry s now p) s.pairs) v
      (Entries-insert s.callback_owners s.pairs v.entries (key_of p) (added_entry s now p)
        (added_entry-IsEntry s now p v))
      (λ h k.
        has_callback-insert s.pairs (key_of p) k (added_entry s now p) h
          (added_callbacks s now p h))

-- A removed pair whose entry is erased had no callback there.
erased_callbacks :
    (pairs : Pairs) (k j : PairKey) (e : PairEntry) (h : ℕ)
    → lookup k pairs ≡ some e
    → is_empty e.callbacks ≡ true
    → has_callback pairs j h ≡ true
    → has_callback (erase k pairs) j h ≡ true
unfolding lookup
erased_callbacks pairs k j e h found empty there = elim (Bool-cases (same j k)) [
  | inl t ↦ absurd (no_callback e.callbacks empty (rw ((same_iff j k).0 t, found) at there))
  | inr t ↦ rw (lookup-erase k j pairs, t) there
]
  where
    no_callback : (cs : List (ℕ × Callback)) → is_empty cs ≡ true → is_some (lookup h cs) ≡ true → ⊥
    no_callback [] p q = cc
    no_callback (c ∷ cs) p q = cc

entry_removed :
    (s : PairSpace) (owner : ℤ) (key : Text) (e : PairEntry)
    → lookup (pair_key owner key) s.pairs ≡ some e
    → IsSpace s
    → IsSpace (removed_entry s owner key e)
unfolding removed_entry
entry_removed s owner key e found v =
    let k = pair_key owner key in
    let ve = v.entries k e found in
    elim (Bool-cases (is_empty e.subscribers && is_empty e.callbacks)) [
      | inl empty ↦ rw empty (
          IsSpace-pairs s (erase k s.pairs) v (Entries-erase s.callback_owners s.pairs v.entries k)
            (λ h j. erased_callbacks s.pairs k j e h found (ground (arith, empty))))
      | inr full ↦ rw full (
          IsSpace-pairs s _ v
            (Entries-insert s.callback_owners s.pairs v.entries k _
              (record { keyed = ve.keyed; distinct = ve.distinct; registered = ve.registered }))
            (λ h j. has_callback-insert s.pairs k j _ h (λ there. rw found at there)))
    ]

pub remove_pair-IsSpace :
    (s : PairSpace) (owner : ℤ) (key : Text) → IsSpace s → IsSpace (remove_pair s owner key)
unfolding find remove_pair
remove_pair-IsSpace s owner key v = elim (Option-cases (lookup (pair_key owner key) s.pairs)) [
  | inl absent ↦ rw (absent, remove_pair) v
  | inr (e, found) ↦ rw (found, remove_pair) (entry_removed s owner key e found v)
]

with_subscriber_callbacks : (a : ℤ) (e : PairEntry) → (with_subscriber a e).callbacks ≡ e.callbacks
with_subscriber_callbacks a e = ground arith

pub add_subscription-IsSpace :
    (s : PairSpace) (now owner : ℤ) (key : Text) (subscriber : ℤ)
    → IsSpace s
    → IsSpace (add_subscription s now owner key subscriber)
unfolding add_subscription
add_subscription-IsSpace s now owner key subscriber v =
    let k = pair_key owner key in
    let e = entry_or_placeholder s now owner key in
    IsSpace-pairs s _ v
      (Entries-insert s.callback_owners s.pairs v.entries k (with_subscriber subscriber e) (
        with_subscriber-IsEntry s.callback_owners subscriber k e
          (entry_or_placeholder-IsEntry s now owner key v)))
      (λ h j. has_callback-insert s.pairs k j (with_subscriber subscriber e) h (λ there.
        rw (with_subscriber_callbacks subscriber e)
          (placeholder_callbacks s now owner key h there)))

pub remove_subscription-IsSpace :
    (s : PairSpace) (owner : ℤ) (key : Text) (subscriber : ℤ)
    → IsSpace s
    → IsSpace (remove_subscription s owner key subscriber)
unfolding find remove_subscription
remove_subscription-IsSpace s owner key subscriber v =
    let k = pair_key owner key in
    elim (Option-cases (lookup k s.pairs)) [
      | inl absent ↦ rw (absent, remove_subscription) v
      | inr (e, found) ↦
          rw (found, remove_subscription)
            (IsSpace-pairs s _ v
              (Entries-insert s.callback_owners s.pairs v.entries k
                (without_subscriber subscriber e)
                (without_subscriber-IsEntry s.callback_owners subscriber k e (v.entries k e found)))
              (λ h j.
                has_callback-insert s.pairs k j (without_subscriber subscriber e) h
                  (λ there. rw found at there)))
    ]

pub add_subscription_to_all-IsSpace :
    (s : PairSpace) (subscriber : ℤ) → IsSpace s → IsSpace (add_subscription_to_all s subscriber)
unfolding add_subscription_to_all
add_subscription_to_all-IsSpace s subscriber v =
    elim (Bool-cases (contains subscriber s.u_subscribers)) [
      | inl there ↦ rw there v
      | inr absent ↦ rw absent (record {
        entries =
            Entries-map_values s.callback_owners s.pairs v.entries (with_subscriber subscriber)
              (with_subscriber-IsEntry s.callback_owners subscriber);
        distinct = Distinct-append subscriber s.u_subscribers absent v.distinct;
        owned = λ h k e.
            rw
              (has_callback-map_values s.pairs (with_subscriber subscriber) k h
                (with_subscriber_callbacks subscriber))
              (v.owned h k e);
        apart = v.apart;
        issued = v.issued;
      })
    ]

pub remove_subscription_to_all-IsSpace :
    (s : PairSpace) (subscriber : ℤ) → IsSpace s → IsSpace (remove_subscription_to_all s subscriber)
unfolding remove_subscription_to_all
remove_subscription_to_all-IsSpace s subscriber v = record {
  entries =
      Entries-map_values s.callback_owners s.pairs v.entries (without_subscriber subscriber)
        (without_subscriber-IsEntry s.callback_owners subscriber);
  distinct = Distinct-erase_all subscriber s.u_subscribers v.distinct;
  owned = λ h k e.
      rw (has_callback-map_values s.pairs (without_subscriber subscriber) k h (λ f. refl))
        (v.owned h k e);
  apart = v.apart;
  issued = v.issued;
}
