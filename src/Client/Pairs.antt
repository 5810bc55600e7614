-- ===== src/Client/Pairs.antt =====
-- src/client.cpp: publishing, removing and reading pairs.
use srnp.Base.{
  ℕ, ◌≡◌, ◌≢◌, refl, ap, Bool, true, false, List, [], none, some, ℤ, pos, Text, if◌then◌else◌,
  is_empty, ◌&&◌, lookup, nat_order, Option-cases, Bool-cases, inl, inr, lookup-insert_self,
  lookup-erase_self, lookup-erase, lookup-insert, same_iff, arith,
}
use srnp.Wire.{Result, ok, err}
use srnp.Messages.{Pair, PairType, PairKey, RemovePairRequest, new_pair, pair_key_order}
use srnp.PairSpace.{
  PairEntry, PairSpace, pair_key, find, copy_of, added_entry, add_pair, removed_entry,
}
use srnp.PairSpace
use srnp.PairSpace.Invariant.{IsSpace}
use srnp.PairSpace.Values.{expiry_or, added-reads}
use srnp.Client.{
  Client, fan_out_pair, fan_out_removal, notify_local, published, unpublished, publish, unpublish,
  set_pair, remove_pair, valid_only, get_pair,
}

abbrev pub OnlySessions : Client → Result Client → Type 0
OnlySessions c (err e) = Unit
OnlySessions c (ok c') = c' ≡ record c { sessions = c'.sessions }

-- A frame that cannot be built changes nothing.
framed-OnlySessions :
    (c : Client) (r : Result (List ℕ)) (f : List ℕ → Client)
    → ((payload : List ℕ) → f payload ≡ record c { sessions = (f payload).sessions })
    → OnlySessions c (elim r [ err e ↦ err e | ok payload ↦ ok (f payload) ])
framed-OnlySessions c (err e) f kept = tt
framed-OnlySessions c (ok payload) f kept = kept payload

pub fan_out_pair-OnlySessions :
    (c : Client) (p : Pair) (subscribers : List ℤ) → OnlySessions c (fan_out_pair c p subscribers)
unfolding fan_out_pair
fan_out_pair-OnlySessions c p subscribers = framed-OnlySessions c _ _ (λ payload. refl)

pub fan_out_removal-OnlySessions :
    (c : Client) (request : RemovePairRequest) (subscribers : List ℤ)
    → OnlySessions c (fan_out_removal c request subscribers)
unfolding fan_out_removal
fan_out_removal-OnlySessions c request subscribers = framed-OnlySessions c _ _ (λ payload. refl)

pub skipped-OnlySessions :
    (c : Client) (nobody : Bool) (r : Result Client)
    → OnlySessions c r
    → OnlySessions c (if nobody then ok c else r)
skipped-OnlySessions c true r kept = refl
skipped-OnlySessions c false r kept = kept

-- The pairs, and what the component knows of itself.
abbrev standing : Client → PairSpace × ℤ × Bool
standing c = (c.space, c.owner_id, c.ready)

standing-published :
    (c : Client) (entry : PairEntry) (r : Result Client)
    → OnlySessions c r
    → standing (published c entry r).0 ≡ standing c
unfolding published notify_local
standing-published c entry (err e) kept = refl
standing-published c entry (ok c') kept = ground (arith, ap standing kept)

standing-unpublished :
    (c : Client) (r : Result Client) → OnlySessions c r → standing (unpublished c r).0 ≡ standing c
unfolding unpublished
standing-unpublished c (err e) kept = refl
standing-unpublished c (ok c') kept = ap standing kept

standing-publish :
    (c : Client) (now : ℤ) (p : Pair)
    → standing (publish c now p).0 ≡ (add_pair c.space now p, c.owner_id, c.ready)
unfolding publish
standing-publish c now p =
    let entry = added_entry c.space now p in
    let added : Client = record c { space = add_pair c.space now p } in
    standing-published added entry _ (
      skipped-OnlySessions added (is_empty entry.subscribers) _
        (fan_out_pair-OnlySessions added entry.pair entry.subscribers))

standing-set_pair :
    (c : Client) (now : ℤ) (key value : Text) (type : PairType)
    → c.ready ≡ true
    → standing (set_pair c now key value type).0
      ≡ (add_pair c.space now (new_pair c.owner_id key value type), c.owner_id, c.ready)
unfolding set_pair
standing-set_pair c now key value type ready =
    ground (arith, ready, standing-publish c now (new_pair c.owner_id key value type))

space-set_pair :
    (c : Client) (now : ℤ) (key value : Text) (type : PairType)
    → c.ready ≡ true
    → (set_pair c now key value type).0.space
      ≡ add_pair c.space now (new_pair c.owner_id key value type)
space-set_pair c now key value type ready =
    ap (λ k. k.0) (standing-set_pair c now key value type ready)

valid_only-valid : (p : Pair) → p.type ≢ PairType.invalid → valid_only (some p) ≡ some p
unfolding valid_only
valid_only-valid p valid = ground (arith, valid)

-- A read depends on the entry under its key alone.
read_same :
    (s t : PairSpace) (owner : ℤ) (key : Text)
    → lookup (pair_key owner key) t.pairs ≡ lookup (pair_key owner key) s.pairs
    → valid_only (copy_of t owner key) ≡ valid_only (copy_of s owner key)
unfolding copy_of find
read_same s t owner key e = rw (e, copy_of, find) refl

pub own-set_pair :
    (c : Client) (now : ℤ) (key value : Text) (type : PairType)
    → IsSpace c.space
    → c.ready ≡ true
    → type ≢ PairType.invalid
    → get_pair (set_pair c now key value type).0 c.owner_id key
      ≡ some (record (new_pair c.owner_id key value type) {
        write_time = now;
        expiry_time = expiry_or (copy_of c.space c.owner_id key) (pos 0);
      })
unfolding get_pair
own-set_pair c now key value type v ready valid =
    let p = new_pair c.owner_id key value type in
    rw (space-set_pair c now key value type ready, (added-reads c.space now p v).0)
      (valid_only-valid _ valid)

-- What a component that is registered publishes under a valid type is what it reads, also when the
-- frames for the subscribers cannot be built: the value and the type, written now, under the expiry time that the
-- pair had; every other pair reads as before.
pub get_pair-set_pair :
    (c : Client) (now : ℤ) (key value : Text) (type : PairType) (owner : ℤ) (other : Text)
    → IsSpace c.space
    → c.ready ≡ true
    → type ≢ PairType.invalid
    → pair_key owner other ≢ pair_key c.owner_id key
    → (get_pair (set_pair c now key value type).0 c.owner_id key
        ≡ some (record (new_pair c.owner_id key value type) {
          write_time = now;
          expiry_time = expiry_or (copy_of c.space c.owner_id key) (pos 0);
        }))
      × (get_pair (set_pair c now key value type).0 owner other ≡ get_pair c owner other)
unfolding get_pair
get_pair-set_pair c now key value type owner other v ready valid distinct =
    let p = new_pair c.owner_id key value type in
    let rest = (added-reads c.space now p v).1 in
    (
      own-set_pair c now key value type v ready valid,
      rw (space-set_pair c now key value type ready) (
          read_same c.space (add_pair c.space now p) owner other
            (rest (pair_key owner other) distinct)),
    )

removed_entry-reads :
    (s : PairSpace) (owner : ℤ) (key : Text) (e : PairEntry)
    → (valid_only (copy_of (removed_entry s owner key e) owner key) ≡ none)
      × ((j : PairKey)
          → j ≢ pair_key owner key
          → lookup j (removed_entry s owner key e).pairs ≡ lookup j s.pairs)
unfolding removed_entry copy_of find valid_only
removed_entry-reads s owner key e =
    let k = pair_key owner key in
    let gone : PairEntry = record e {
      pair = record e.pair { value = []; type = PairType.invalid };
    } in
    elim (Bool-cases (is_empty e.subscribers && is_empty e.callbacks)) [
      | inl unused ↦ rw unused (
        rw (lookup-erase_self k s.pairs, copy_of, find, valid_only) refl,
        λ j other. ground (arith, other, same_iff j k, lookup-erase k j s.pairs),
      )
      | inr used ↦ rw used (
        rw (lookup-insert_self k gone s.pairs, copy_of, find, valid_only) refl,
        λ j other. ground (arith, other, same_iff j k, lookup-insert k j gone s.pairs),
      )
    ]

removed-reads :
    (s : PairSpace) (owner : ℤ) (key : Text)
    → (valid_only (copy_of (PairSpace.remove_pair s owner key) owner key) ≡ none)
      × ((j : PairKey)
          → j ≢ pair_key owner key
          → lookup j (PairSpace.remove_pair s owner key).pairs ≡ lookup j s.pairs)
unfolding PairSpace.remove_pair copy_of valid_only
removed-reads s owner key = elim (Option-cases (find s owner key)) [
  | inl absent ↦
      rw (absent, PairSpace.remove_pair) (rw (absent, copy_of, valid_only) refl, λ j other. refl)
  | inr (e, found) ↦ rw (found, PairSpace.remove_pair) (removed_entry-reads s owner key e)
]

space-unpublish :
    (c : Client) (request : RemovePairRequest)
    → (unpublish c request).0.space ≡ PairSpace.remove_pair c.space request.owner request.key
unfolding unpublish PairSpace.remove_pair
space-unpublish c request = elim (Option-cases (find c.space request.owner request.key)) [
  | inl absent ↦ rw (absent, unpublish, PairSpace.remove_pair) refl
  | inr (e, found) ↦
      let removed : Client = record c {
        space = PairSpace.remove_pair c.space request.owner request.key;
      } in
      rw (found, unpublish)
        (ap (λ k. k.0)
          (standing-unpublished removed _ (
            skipped-OnlySessions removed (is_empty e.subscribers) _
              (fan_out_removal-OnlySessions removed request e.subscribers))))
]

space-remove_pair :
    (c : Client) (key : Text)
    → c.ready ≡ true
    → (remove_pair c key).0.space ≡ PairSpace.remove_pair c.space c.owner_id key
unfolding remove_pair
space-remove_pair c key ready =
    ground (arith, ready, space-unpublish c (record { owner = c.owner_id; key = key }))

-- A registered component that removes a pair reads none there afterwards, whether the pair was
-- published, is a placeholder or is not there, and also when the frames for the subscribers cannot be
-- built; every other pair reads as before.
pub get_pair-remove_pair :
    (c : Client) (key : Text) (owner : ℤ) (other : Text)
    → c.ready ≡ true
    → pair_key owner other ≢ pair_key c.owner_id key
    → (get_pair (remove_pair c key).0 c.owner_id key ≡ none)
      × (get_pair (remove_pair c key).0 owner other ≡ get_pair c owner other)
unfolding get_pair
get_pair-remove_pair c key owner other ready distinct =
    let (gone, rest) = removed-reads c.space c.owner_id key in
    rw (space-remove_pair c key ready) (
      gone,
      read_same c.space (PairSpace.remove_pair c.space c.owner_id key) owner other
          (rest (pair_key owner other) distinct),
    )
