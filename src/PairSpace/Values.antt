-- ===== src/PairSpace/Values.antt =====
-- src/PairSpace.cpp: the values that a client reads.
use srnp.Base.{
  lookup-insert_self, ◌≢◌, ◌≡◌, ap, false, [], Option, none, some, ℤ, inl, inr, Option-cases,
  is_empty, ◌&&◌, nat_order, lookup, same_iff, lookup-insert, arith,
}
use srnp.Messages.{Pair, PairType, PairKey, key_of, pair_key_order}
use srnp.PairSpace.{PairEntry, PairSpace, find, added_entry, add_pair, removed_entry, remove_pair}
use srnp.PairSpace.{copy_of}
use srnp.PairSpace.Invariant.{IsSpace}

abbrev pub expiry_or : Option Pair → ℤ → ℤ
expiry_or none t = t
expiry_or (some old) t = old.expiry_time

update_of :
    (now : ℤ) (p old : Pair)
    → key_of old ≡ key_of p
    → record old { type = p.type; value = p.value; write_time = now }
      ≡ record p { write_time = now; expiry_time = old.expiry_time }
update_of now p old e = λ i. record {
  owner = (e i).owner;
  key = (e i).key;
  value = p.value;
  type = p.type;
  write_time = now;
  expiry_time = old.expiry_time;
}

pub added_pair :
    (s : PairSpace) (now : ℤ) (p : Pair)
    → IsSpace s
    → (added_entry s now p).pair ≡ record p {
      write_time = now;
      expiry_time = expiry_or (copy_of s p.owner p.key) p.expiry_time;
    }
unfolding copy_of find added_entry
added_pair s now p v = elim (Option-cases (lookup (key_of p) s.pairs)) [
  | inl absent ↦ rw (absent, added_entry, copy_of)
  | inr (e, found) ↦
      rw (found, added_entry, copy_of) (update_of now p e.pair (v.entries (key_of p) e found).keyed)
]

-- What `addPair` writes, and that it writes nothing else.
pub added-reads :
    (s : PairSpace) (now : ℤ) (p : Pair)
    → IsSpace s
    → (copy_of (add_pair s now p) p.owner p.key
        ≡ some (record p {
          write_time = now;
          expiry_time = expiry_or (copy_of s p.owner p.key) p.expiry_time;
        }))
      × ((j : PairKey) → j ≢ key_of p → lookup j (add_pair s now p).pairs ≡ lookup j s.pairs)
unfolding find add_pair copy_of
added-reads s now p v = (
  rw (lookup-insert_self (key_of p) (added_entry s now p) s.pairs, copy_of)
      (ap some (added_pair s now p v)),
  λ j other. ground (
    arith,
    other,
    same_iff j (key_of p),
    lookup-insert (key_of p) j (added_entry s now p) s.pairs,
  ),
)

-- After `addPair` the space holds the pair with its write time set to now, under an expiry time that
-- an update of an existing pair does not change; every other key is as it was.
pub copy_of-add_pair :
    (s : PairSpace) (now : ℤ) (p : Pair) (j : PairKey)
    → IsSpace s
    → j ≢ key_of p
    → (copy_of (add_pair s now p) p.owner p.key
        ≡ some (record p {
          write_time = now;
          expiry_time = expiry_or (copy_of s p.owner p.key) p.expiry_time;
        }))
      × (lookup j (add_pair s now p).pairs ≡ lookup j s.pairs)
copy_of-add_pair s now p j v other = let (own, rest) = added-reads s now p v in (own, rest j other)

-- A key whose entry has subscribers or callbacks keeps them when its pair is removed, and when it is
-- published again: the value goes, and no other key changes.
pub add_pair-remove_pair :
    (s : PairSpace) (now : ℤ) (p : Pair) (e : PairEntry) (j : PairKey)
    → IsSpace s
    → lookup (key_of p) s.pairs ≡ some e
    → is_empty e.subscribers && is_empty e.callbacks ≡ false
    → j ≢ key_of p
    → (copy_of (remove_pair s p.owner p.key) p.owner p.key
        ≡ some (record e.pair { value = []; type = PairType.invalid }))
      × ((added_entry (remove_pair s p.owner p.key) now p).subscribers ≡ e.subscribers)
      × ((added_entry (remove_pair s p.owner p.key) now p).callbacks ≡ e.callbacks)
      × (lookup j (remove_pair s p.owner p.key).pairs ≡ lookup j s.pairs)
unfolding find remove_pair removed_entry added_entry copy_of
add_pair-remove_pair s now p e j v found full other =
    let gone : PairEntry = record e {
      pair = record e.pair { value = []; type = PairType.invalid };
    } in
    let there = lookup-insert_self (key_of p) gone s.pairs in
    rw (found, remove_pair, removed_entry, full)
      (
        ground (arith, there),
        ground (arith, there),
        ground (arith, there),
        ground (arith, other, same_iff j (key_of p), lookup-insert (key_of p) j gone s.pairs),
      )
