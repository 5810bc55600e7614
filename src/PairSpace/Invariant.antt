-- ===== src/PairSpace/Invariant.antt =====
-- src/PairSpace.cpp: the invariant of the space. Each entry holds the pair that its key names, no
-- subscriber twice, and the callbacks whose handles `callback_owners` gives to that key.
use srnp.Base.{
  ℕ, ◌<◌, ◌≡◌, refl, sym, subst, Bool, true, false, List, [], Option, none, some, ℤ, Text, inl, inr,
  Bool-cases, Option-cases, is_some, nat_order, lookup, insert, erase, map_values, same, same_iff,
  lookup-insert, lookup-erase, lookup-map_values, contains, Distinct, Distinct-append,
  Distinct-erase_all,
}
use srnp.Messages.{Pair, PairType, PairKey, key_of, new_pair, pair_key_order}
use srnp.PairSpace.{
  PairEntry, PairSpace, pair_key, find, added_entry, entry_or_placeholder, with_subscriber,
  without_subscriber,
}

abbrev pub Pairs : Type 0
Pairs = List (PairKey × PairEntry)

abbrev pub Owners : Type 0
Owners = List (ℕ × PairKey)

pub record IsEntry (owners : Owners) (k : PairKey) (e : PairEntry) : Type 0 where
  pub keyed : key_of e.pair ≡ k
  pub distinct : Distinct e.subscribers
  pub registered : (h : ℕ) → is_some (lookup h e.callbacks) ≡ true → lookup h owners ≡ some k

abbrev pub Entries : Owners → Pairs → Type 0
Entries owners pairs = (k : PairKey) (e : PairEntry) → lookup k pairs ≡ some e → IsEntry owners k e

-- Whether the entry under a key holds a callback under a handle.
abbrev pub holds_callback : Option PairEntry → ℕ → Bool
holds_callback none h = false
holds_callback (some e) h = is_some (lookup h e.callbacks)

abbrev pub has_callback : Pairs → PairKey → ℕ → Bool
has_callback pairs k h = holds_callback (lookup k pairs) h

pub record IsSpace (s : PairSpace) : Type 0 where
  pub entries : Entries s.callback_owners s.pairs
  pub distinct : Distinct s.u_subscribers
  pub owned :
      (h : ℕ) (k : PairKey) → lookup h s.callback_owners ≡ some k → has_callback s.pairs k h ≡ true
  pub apart :
      (h : ℕ) → is_some (lookup h s.callback_owners) ≡ true → lookup h s.universal_callbacks ≡ none
  pub issued :
      (h : ℕ)
      → s.next_callback_handle < h
      → (lookup h s.callback_owners ≡ none) × (lookup h s.universal_callbacks ≡ none)

module _ (owners : Owners) (pairs : Pairs) (v : Entries owners pairs) where
  pub Entries-insert :
      (k : PairKey) (e : PairEntry) → IsEntry owners k e → Entries owners (insert k e pairs)
  Entries-insert k e ve j f q = elim (Bool-cases (same j k)) [
    | inl t ↦
        let same_entry : e ≡ f = cc (rw (lookup-insert k j e pairs, t) at q) in
        subst (λ i. IsEntry owners i f) (sym ((same_iff j k).0 t))
          (subst (IsEntry owners k) same_entry ve)
    | inr t ↦ v j f (rw (lookup-insert k j e pairs, t) at q)
  ]

  pub Entries-erase : (k : PairKey) → Entries owners (erase k pairs)
  Entries-erase k j f q = elim (Bool-cases (same j k)) [
    | inl t ↦ cc (rw (lookup-erase k j pairs, t) at q)
    | inr t ↦ v j f (rw (lookup-erase k j pairs, t) at q)
  ]

  pub Entries-map_values :
      (g : PairEntry → PairEntry)
      → ((k : PairKey) (e : PairEntry) → IsEntry owners k e → IsEntry owners k (g e))
      → Entries owners (map_values g pairs)
  Entries-map_values g keeps j f q = elim (Option-cases (lookup j pairs)) [
    | inl none_there ↦ cc (rw (lookup-map_values g j pairs, none_there) at q)
    | inr (e, there) ↦
        let same_entry : g e ≡ f = cc (rw (lookup-map_values g j pairs, there) at q) in
        subst (IsEntry owners j) same_entry (keeps j e (v j e there))
  ]

fresh-IsEntry :
    (s : PairSpace) (p : Pair) (now : ℤ)
    → IsSpace s
    → IsEntry s.callback_owners (key_of p) (record {
      pair = record p { write_time = now };
      subscribers = s.u_subscribers;
      callbacks = [];
    })
unfolding lookup
fresh-IsEntry s p now v = record { keyed = refl; distinct = v.distinct; registered = λ h e. cc }

pub added_entry-IsEntry :
    (s : PairSpace) (now : ℤ) (p : Pair)
    → IsSpace s
    → IsEntry s.callback_owners (key_of p) (added_entry s now p)
unfolding find added_entry
added_entry-IsEntry s now p v = elim (Option-cases (lookup (key_of p) s.pairs)) [
  | inl absent ↦ rw (absent, added_entry) (fresh-IsEntry s p now v)
  | inr (e, there) ↦
      let ve = v.entries (key_of p) e there in
      rw (there, added_entry)
        (record { keyed = ve.keyed; distinct = ve.distinct; registered = ve.registered })
]

pub entry_or_placeholder-IsEntry :
    (s : PairSpace) (now owner : ℤ) (key : Text)
    → IsSpace s
    → IsEntry s.callback_owners (pair_key owner key) (entry_or_placeholder s now owner key)
unfolding find entry_or_placeholder
entry_or_placeholder-IsEntry s now owner key v =
    elim (Option-cases (lookup (pair_key owner key) s.pairs)) [
      | inl absent ↦
          rw (absent, entry_or_placeholder)
            (added_entry-IsEntry s now (new_pair owner key [] PairType.invalid) v)
      | inr (e, there) ↦ rw (there, entry_or_placeholder) (v.entries (pair_key owner key) e there)
    ]

pub with_subscriber-IsEntry :
    (owners : Owners) (subscriber : ℤ) (k : PairKey) (e : PairEntry)
    → IsEntry owners k e
    → IsEntry owners k (with_subscriber subscriber e)
with_subscriber-IsEntry owners subscriber k e v =
    elim (Bool-cases (contains subscriber e.subscribers)) [
      | inl there ↦ rw there v
      | inr absent ↦ rw absent (record {
        keyed = v.keyed;
        distinct = Distinct-append subscriber e.subscribers absent v.distinct;
        registered = v.registered;
      })
    ]

pub without_subscriber-IsEntry :
    (owners : Owners) (subscriber : ℤ) (k : PairKey) (e : PairEntry)
    → IsEntry owners k e
    → IsEntry owners k (without_subscriber subscriber e)
without_subscriber-IsEntry owners subscriber k e v = record {
  keyed = v.keyed;
  distinct = Distinct-erase_all subscriber e.subscribers v.distinct;
  registered = v.registered;
}

-- A write under one key leaves every callback where it was, if the new entry keeps its key's.
pub has_callback-insert :
    (pairs : Pairs) (k j : PairKey) (e : PairEntry) (h : ℕ)
    → (has_callback pairs k h ≡ true → is_some (lookup h e.callbacks) ≡ true)
    → has_callback pairs j h ≡ true
    → has_callback (insert k e pairs) j h ≡ true
has_callback-insert pairs k j e h keeps there = elim (Bool-cases (same j k)) [
  | inl t ↦ rw (lookup-insert k j e pairs, t) (keeps (rw ((same_iff j k).0 t) at there))
  | inr t ↦ rw (lookup-insert k j e pairs, t) there
]

pub has_callback-map_values :
    (pairs : Pairs) (g : PairEntry → PairEntry) (j : PairKey) (h : ℕ)
    → ((e : PairEntry) → (g e).callbacks ≡ e.callbacks)
    → has_callback (map_values g pairs) j h ≡ has_callback pairs j h
has_callback-map_values pairs g j h keeps = elim (Option-cases (lookup j pairs)) [
  | inl absent ↦ rw (lookup-map_values g j pairs, absent)
  | inr (e, there) ↦ rw (lookup-map_values g j pairs, there) (rw (keeps e))
]

-- An entry that is added to keeps its callbacks.
pub added_callbacks :
    (s : PairSpace) (now : ℤ) (p : Pair) (h : ℕ)
    → has_callback s.pairs (key_of p) h ≡ true
    → is_some (lookup h (added_entry s now p).callbacks) ≡ true
unfolding added_entry find
added_callbacks s now p h there = elim (Option-cases (lookup (key_of p) s.pairs)) [
  | inl absent ↦ cc (rw absent at there)
  | inr (e, found) ↦ rw (found, added_entry) (rw found at there)
]

pub placeholder_callbacks :
    (s : PairSpace) (now owner : ℤ) (key : Text) (h : ℕ)
    → has_callback s.pairs (pair_key owner key) h ≡ true
    → is_some (lookup h (entry_or_placeholder s now owner key).callbacks) ≡ true
unfolding entry_or_placeholder find
placeholder_callbacks s now owner key h there =
    elim (Option-cases (lookup (pair_key owner key) s.pairs)) [
      | inl absent ↦ cc (rw absent at there)
      | inr (e, found) ↦ rw (found, entry_or_placeholder) (rw found at there)
    ]
