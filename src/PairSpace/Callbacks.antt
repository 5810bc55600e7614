-- ===== src/PairSpace/Callbacks.antt =====
-- src/PairSpace.cpp: registering and cancelling callbacks. Handles are fresh as long as the
-- `uint64_t` counter has not wrapped.
use native.Mathlib.Nat.{mod-eq_of_lt}
use srnp.Base.{
  ℕ, ◌+◌, ◌<◌, ◌^◌, ◌≡◌, true, List, none, some, ℤ, Text, is_some, nat_order, lookup, insert,
  emplace, same_iff, lookup-insert, arith,
}
use srnp.Messages.{PairKey, pair_key_order}
use srnp.PairSpace.{
  Callback, PairEntry, PairSpace, pair_key, entry_or_placeholder, next_handle, add_callback,
  add_callback_to_all,
}
use srnp.PairSpace.Invariant.{
  Owners, IsEntry, Entries, has_callback, IsSpace, Entries-insert, entry_or_placeholder-IsEntry,
  placeholder_callbacks,
}

abbrev pub HasRoom : PairSpace → Type 0
HasRoom s = s.next_callback_handle + 1 < 2 ^ 64

fresh_handle :
    (s : PairSpace) → HasRoom s → next_handle s.next_callback_handle ≡ s.next_callback_handle + 1
fresh_handle s room = mod-eq_of_lt room

emplace_fresh {ℓ} :
    {V : Type ℓ} (h : ℕ) (v : V) (m : List (ℕ × V))
    → lookup h m ≡ none
    → emplace h v m ≡ insert h v m
emplace_fresh h v m absent = rw absent

-- Handles that are given out are not above the counter, and universal ones are apart.
record IsIssued (owners : Owners) (universal : List (ℕ × Callback)) (next : ℕ) : Type 0 where
  apart : (h : ℕ) → is_some (lookup h owners) ≡ true → lookup h universal ≡ none
  issued : (h : ℕ) → next < h → (lookup h owners ≡ none) × (lookup h universal ≡ none)

module _ (s : PairSpace) (v : IsSpace s) where
  -- One more handle for a key.
  owner-IsIssued :
      (h : ℕ) (k : PairKey)
      → h ≡ s.next_callback_handle + 1
      → IsIssued (insert h k s.callback_owners) s.universal_callbacks h
  owner-IsIssued h k e = record {
    apart = λ j p.
        ground
          (arith, e, lookup-insert h j k s.callback_owners, same_iff j h, v.apart j, v.issued j);
    issued =
        λ j p. ground (arith, e, lookup-insert h j k s.callback_owners, same_iff j h, v.issued j);
  }

  universal-IsIssued :
      (h : ℕ) (c : Callback)
      → h ≡ s.next_callback_handle + 1
      → IsIssued s.callback_owners (insert h c s.universal_callbacks) h
  universal-IsIssued h c e = record {
    apart = λ j p.
        ground (
          arith,
          e,
          lookup-insert h j c s.universal_callbacks,
          same_iff j h,
          v.apart j,
          v.issued j,
        );
    issued = λ j p.
        ground (arith, e, lookup-insert h j c s.universal_callbacks, same_iff j h, v.issued j);
  }

  -- The other entries know nothing of a new handle.
  Entries-new_owner :
      (h : ℕ) (k : PairKey)
      → lookup h s.callback_owners ≡ none
      → Entries (insert h k s.callback_owners) s.pairs
  Entries-new_owner h k absent j e found = record {
    keyed = (v.entries j e found).keyed;
    distinct = (v.entries j e found).distinct;
    registered = λ i there. ground (
      arith,
      lookup-insert h i k s.callback_owners,
      same_iff i h,
      absent,
      (v.entries j e found).registered i there,
    );
  }

  called-IsEntry :
      (h : ℕ) (k : PairKey) (c : Callback) (e : PairEntry)
      → lookup h s.callback_owners ≡ none
      → IsEntry s.callback_owners k e
      → IsEntry (insert h k s.callback_owners) k (record e { callbacks = emplace h c e.callbacks })
  called-IsEntry h k c e absent ve = record {
    keyed = ve.keyed;
    distinct = ve.distinct;
    registered = λ i there. ground (
      arith,
      there,
      absent,
      lookup-insert h i k s.callback_owners,
      lookup-insert h i c e.callbacks,
      same_iff i h,
      ve.registered i,
      ve.registered h,
    );
  }

  new_callback_there :
      (h i : ℕ) (j k : PairKey) (c : Callback) (e : PairEntry)
      → lookup h s.callback_owners ≡ none
      → (has_callback s.pairs k i ≡ true → is_some (lookup i e.callbacks) ≡ true)
      → lookup i (insert h k s.callback_owners) ≡ some j
      → has_callback (insert k (record e { callbacks = emplace h c e.callbacks }) s.pairs) j i
        ≡ true
  new_callback_there h i j k c e absent keeps owned =
      rw (lookup-insert k j (record e { callbacks = emplace h c e.callbacks }) s.pairs) (
        ground (
          arith,
          owned,
          same_iff j k,
          same_iff i h,
          lookup-insert h i k s.callback_owners,
          lookup-insert h i c e.callbacks,
          lookup-insert h h c e.callbacks,
          v.owned i j,
          v.owned i k,
          keeps,
        ))

pub add_callback-IsSpace :
    (s : PairSpace) (now owner : ℤ) (key : Text) (c : Callback)
    → IsSpace s
    → HasRoom s
    → IsSpace (add_callback s now owner key c).0
unfolding add_callback
add_callback-IsSpace s now owner key c v room =
    let k = pair_key owner key in
    let h = next_handle s.next_callback_handle in
    let e = entry_or_placeholder s now owner key in
    let fresh = fresh_handle s room in
    let absent : lookup h s.callback_owners ≡ none = (v.issued h (omega (arith, fresh))).0 in
    let issued = owner-IsIssued s v h k fresh in
    rw (emplace_fresh h k s.callback_owners absent) (record {
      entries =
          Entries-insert (insert h k s.callback_owners) s.pairs (Entries-new_owner s v h k absent) k
            _ (called-IsEntry s v h k c e absent (entry_or_placeholder-IsEntry s now owner key v));
      distinct = v.distinct;
      owned = λ i j.
          new_callback_there s v h i j k c e absent (placeholder_callbacks s now owner key i);
      apart = issued.apart;
      issued = issued.issued;
    })

pub add_callback_to_all-IsSpace :
    (s : PairSpace) (c : Callback) → IsSpace s → HasRoom s → IsSpace (add_callback_to_all s c).0
unfolding add_callback_to_all
add_callback_to_all-IsSpace s c v room =
    let h = next_handle s.next_callback_handle in
    let fresh = fresh_handle s room in
    let absent : lookup h s.universal_callbacks ≡ none = (v.issued h (omega (arith, fresh))).1 in
    let issued = universal-IsIssued s v h c fresh in
    rw (emplace_fresh h c s.universal_callbacks absent) (record {
      entries = v.entries;
      distinct = v.distinct;
      owned = v.owned;
      apart = issued.apart;
      issued = issued.issued;
    })
