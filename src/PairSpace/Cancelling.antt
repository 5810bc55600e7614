-- ===== src/PairSpace/Cancelling.antt =====
-- src/PairSpace.cpp: `removeCallback`. A cancelled callback is gone wherever it was registered, and
-- every other one stays.
use srnp.Base.{
  ◌≢◌, ℕ, ◌≡◌, sym, subst, true, false, none, some, inl, inr, Bool-cases, Option-cases,
  if◌then◌else◌, nat_order, lookup, insert, erase, same, same_iff, lookup-insert, lookup-erase,
  arith,
}
use srnp.Messages.{PairKey, pair_key_order}
use srnp.PairSpace.{PairEntry, PairSpace, erase_callback, remove_callback}
use srnp.PairSpace.Invariant.{Owners, IsEntry, Entries, has_callback, IsSpace}

abbrev erased_entry : ℕ → PairEntry → PairEntry
erased_entry h e = record e { callbacks = erase h e.callbacks }

-- The entry of a cancelled callback, when the handle has no owner any more.
erased_entry-IsEntry :
    (owners : Owners) (h : ℕ) (k : PairKey) (e : PairEntry)
    → IsEntry owners k e
    → IsEntry (erase h owners) k (erased_entry h e)
erased_entry-IsEntry owners h k e v = record {
  keyed = v.keyed;
  distinct = v.distinct;
  registered = λ i there.
      ground (arith, there, lookup-erase h i owners, lookup-erase h i e.callbacks, v.registered i);
}

-- Another entry does not hold the handle, so it is registered as before.
other-IsEntry :
    (s : PairSpace) (h : ℕ) (k j : PairKey) (e : PairEntry)
    → IsSpace s
    → lookup h s.callback_owners ≡ some k
    → j ≢ k
    → lookup j s.pairs ≡ some e
    → IsEntry (erase h s.callback_owners) j e
other-IsEntry s h k j e v owner other found =
    let ve = v.entries j e found in
    record {
      keyed = ve.keyed;
      distinct = ve.distinct;
      registered = λ i there. ground (
        arith,
        owner,
        other,
        lookup-erase h i s.callback_owners,
        same_iff i h,
        ve.registered i there,
      );
    }

-- A callback that an entry holds is registered against the entry's key.
pub registered_at :
    (s : PairSpace)
    → IsSpace s
    → (i : ℕ) (j : PairKey) → has_callback s.pairs j i ≡ true
    → lookup i s.callback_owners ≡ some j
registered_at s v i j there = elim (Option-cases (lookup j s.pairs)) [
  | inl absent ↦ cc (rw absent at there)
  | inr (e, found) ↦ (v.entries j e found).registered i (rw found at there)
]

module _ (s : PairSpace) (v : IsSpace s) (h : ℕ) (k : PairKey) (e : PairEntry) where
  erased_Entries :
      lookup h s.callback_owners ≡ some k
      → lookup k s.pairs ≡ some e
      → Entries (erase h s.callback_owners) (insert k (erased_entry h e) s.pairs)
  erased_Entries owner found j f q = elim (Bool-cases (same j k)) [
    | inl t ↦
        let same_entry : erased_entry h e ≡ f =
          cc (rw (lookup-insert k j (erased_entry h e) s.pairs, t) at q) in
        subst (λ i. IsEntry (erase h s.callback_owners) i f) (sym ((same_iff j k).0 t))
          (subst (IsEntry (erase h s.callback_owners) k) same_entry
            (erased_entry-IsEntry s.callback_owners h k e (v.entries k e found)))
    | inr t ↦
        other-IsEntry s h k j f v owner (ground (arith, t, same_iff j k))
          (rw (lookup-insert k j (erased_entry h e) s.pairs, t) at q)
  ]

  -- Under which handles a key is called, once one handle is erased from one entry.
  has_callback-erased :
      (i : ℕ) (j : PairKey)
      → lookup h s.callback_owners ≡ some k
      → lookup k s.pairs ≡ some e
      → has_callback (insert k (erased_entry h e) s.pairs) j i
        ≡ (if same i h then false else has_callback s.pairs j i)
  has_callback-erased i j owner found = rw (lookup-insert k j (erased_entry h e) s.pairs) (
      ground (
        arith,
        owner,
        found,
        same_iff j k,
        same_iff i h,
        lookup-erase h i e.callbacks,
        registered_at s v i j,
      ))

  cancelled_owner :
      lookup h s.callback_owners ≡ some k
      → lookup k s.pairs ≡ some e
      → IsSpace (record s {
        pairs = insert k (erased_entry h e) s.pairs;
        callback_owners = erase h s.callback_owners;
      })
  cancelled_owner owner found = record {
    entries = erased_Entries owner found;
    distinct = v.distinct;
    owned = λ i j p.
        rw (has_callback-erased i j owner found)
          (ground (arith, p, lookup-erase h i s.callback_owners, v.owned i j));
    apart = λ i p. ground (arith, p, lookup-erase h i s.callback_owners, v.apart i);
    issued = λ i p. ground (arith, p, lookup-erase h i s.callback_owners, v.issued i);
  }

cancelled_universal :
    (s : PairSpace) (h : ℕ)
    → IsSpace s
    → IsSpace (record s { universal_callbacks = erase h s.universal_callbacks })
cancelled_universal s h v = record {
  entries = v.entries;
  distinct = v.distinct;
  owned = v.owned;
  apart = λ i p. ground (arith, p, lookup-erase h i s.universal_callbacks, v.apart i);
  issued = λ i p. ground (arith, p, lookup-erase h i s.universal_callbacks, v.issued i);
}

-- A handle's owner has an entry.
owner_entry :
    (s : PairSpace) (h : ℕ) (k : PairKey)
    → IsSpace s
    → lookup h s.callback_owners ≡ some k
    → (e : PairEntry) × (lookup k s.pairs ≡ some e)
owner_entry s h k v owner = elim (Option-cases (lookup k s.pairs)) [
  | inl absent ↦ cc (rw absent at (v.owned h k owner))
  | inr found ↦ found
]

-- The two ways that `removeCallback` goes.
remove_callback_cases :
    (P : PairSpace → Type 0) (s : PairSpace) (h : ℕ)
    → IsSpace s
    → (lookup h s.callback_owners ≡ none
        → P (record s { universal_callbacks = erase h s.universal_callbacks }))
    → ((k : PairKey) (e : PairEntry)
        → lookup h s.callback_owners ≡ some k
        → lookup k s.pairs ≡ some e
        → P (record s {
          pairs = insert k (erased_entry h e) s.pairs;
          callback_owners = erase h s.callback_owners;
        }))
    → P (remove_callback s h)
unfolding remove_callback erase_callback
remove_callback_cases P s h v universal owned = elim (Option-cases (lookup h s.callback_owners)) [
  | inl absent ↦ rw (absent, remove_callback) (universal absent)
  | inr (k, owner) ↦
      let (e, found) = owner_entry s h k v owner in
      rw (owner, remove_callback, found, erase_callback) (owned k e owner found)
]

pub remove_callback-IsSpace : (s : PairSpace) (h : ℕ) → IsSpace s → IsSpace (remove_callback s h)
remove_callback-IsSpace s h v =
    remove_callback_cases IsSpace s h v (λ absent. cancelled_universal s h v)
      (cancelled_owner s v h)

abbrev pub Cancels : PairSpace → ℕ → PairSpace → Type 0
Cancels s h t =
    (i : ℕ)
    → ((j : PairKey)
        → has_callback t.pairs j i ≡ (if same i h then false else has_callback s.pairs j i))
      × (lookup i t.universal_callbacks
          ≡ (if same i h then none else lookup i s.universal_callbacks))

-- Cancelling a handle takes its callback away, from the pair that it was registered against or from
-- the universal ones, and leaves the callback under every other handle, pair by pair.
pub remove_callback_lem : (s : PairSpace) (h : ℕ) → IsSpace s → Cancels s h (remove_callback s h)
remove_callback_lem s h v =
    remove_callback_cases (Cancels s h) s h v
      (λ absent i. (
        λ j. ground (arith, absent, same_iff i h, registered_at s v i j),
        lookup-erase h i s.universal_callbacks,
      ))
      (λ k e owner found i. (
        λ j. has_callback-erased s v h k e i j owner found,
        ground (arith, owner, same_iff i h, v.apart i),
      ))
