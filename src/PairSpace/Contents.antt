-- ===== src/PairSpace/Contents.antt =====
-- src/PairSpace.cpp as a map from keys to values: what the space promises to those who read it.
-- Subscribers, callbacks and the placeholders that they leave are not seen.
use srnp.Base.{
  ◌≡◌, refl, ap, sym, ◌∙◌, fun_ext, List, [], ◌∷◌, Option, none, some, inl, inr, ℤ, Text,
  if◌then◌else◌, lookup, insert, erase, same, same_iff, lookup-insert, lookup-erase,
  lookup-map_values, map_values, map_option, Option-cases, Bool-cases, contains, arith, nat_order,
  ℕ,
}
use srnp.Messages.{Pair, PairType, PairKey, key_of, new_pair, pair_key_order}
use srnp.PairSpace.{
  PairEntry, PairSpace, pair_key, find, added_entry, add_pair, removed_entry, remove_pair,
  entry_or_placeholder, add_callback, add_callback_to_all, erase_callback, remove_callback,
  with_subscriber, without_subscriber, add_subscription, remove_subscription,
  add_subscription_to_all, remove_subscription_to_all,
}
use srnp.PairSpace.Histories.{
  Call, adds_pair, removes_pair, adds_callback, adds_callback_to_all, removes_callback,
  adds_subscription, removes_subscription, adds_subscription_to_all, removes_subscription_to_all,
  perform, run,
}

abbrev pub Value : Type 0
Value = Text × PairType

-- The abstract space.
abbrev pub Contents : Type 0
Contents = PairKey → Option Value

-- A value of the invalid type is none.
abbrev pub valued : Text → PairType → Option Value
valued value PairType.invalid = none
valued value type = some (value, type)

abbrev pub content : Option PairEntry → Option Value
content none = none
content (some e) = valued e.pair.value e.pair.type

-- What a reader sees of the space.
abbrev pub contents : PairSpace → Contents
contents s k = content (lookup k s.pairs)

-- What each call means to a reader.
abbrev pub specified : Contents → Call → Contents
specified m (adds_pair now p) k = if same k (key_of p) then valued p.value p.type else m k
specified m (removes_pair owner key) k = if same k (pair_key owner key) then none else m k
specified m _ k = m k

unfoldable pub specification : Contents → List Call → Contents
specification m [] = m
specification m (c ∷ cs) = specification (specified m c) cs

value_added :
    (s : PairSpace) (now : ℤ) (p : Pair)
    → valued (added_entry s now p).pair.value (added_entry s now p).pair.type
      ≡ valued p.value p.type
unfolding added_entry find
value_added s now p = ground arith

value_placeholder :
    (s : PairSpace) (now owner : ℤ) (key : Text)
    → valued
        (entry_or_placeholder s now owner key).pair.value
        (entry_or_placeholder s now owner key).pair.type
      ≡ contents s (pair_key owner key)
unfolding entry_or_placeholder find
value_placeholder s now owner key =
    ground (arith, value_added s now (new_pair owner key [] PairType.invalid))

contents-insert :
    (s : PairSpace) (k j : PairKey) (e : PairEntry)
    → content (lookup j (insert k e s.pairs))
      ≡ (if same j k then valued e.pair.value e.pair.type else contents s j)
contents-insert s k j e = rw (lookup-insert k j e s.pairs) (ground arith)

-- An entry with the value that its key has changes nothing.
contents_same :
    (s : PairSpace) (k j : PairKey) (e : PairEntry)
    → valued e.pair.value e.pair.type ≡ contents s k
    → content (lookup j (insert k e s.pairs)) ≡ contents s j
contents_same s k j e h = ground (arith, h, same_iff j k, contents-insert s k j e)

contents-add_pair :
    (s : PairSpace) (now : ℤ) (p : Pair) (k : PairKey)
    → contents (add_pair s now p) k ≡ specified (contents s) (adds_pair now p) k
unfolding add_pair
contents-add_pair s now p k =
    ground (arith, contents-insert s (key_of p) k (added_entry s now p), value_added s now p)

contents-removed_entry :
    (s : PairSpace) (owner : ℤ) (key : Text) (e : PairEntry) (k : PairKey)
    → contents (removed_entry s owner key e) k ≡ specified (contents s) (removes_pair owner key) k
unfolding removed_entry
contents-removed_entry s owner key e k = ground (
  arith,
  lookup-erase (pair_key owner key) k s.pairs,
  contents-insert s (pair_key owner key) k
      (record e { pair = record e.pair { value = []; type = PairType.invalid } }),
)

contents-remove_pair :
    (s : PairSpace) (owner : ℤ) (key : Text) (k : PairKey)
    → contents (remove_pair s owner key) k ≡ specified (contents s) (removes_pair owner key) k
unfolding remove_pair find
contents-remove_pair s owner key k = elim (Option-cases (find s owner key)) [
  | inl absent ↦
      let nothing : contents s (pair_key owner key) ≡ none = ap content absent in
      rw (absent, remove_pair) (ground (arith, nothing, same_iff k (pair_key owner key)))
  | inr (e, found) ↦ rw (found, remove_pair) (contents-removed_entry s owner key e k)
]

contents-erase_callback :
    (s : PairSpace) (h : ℕ) (key k : PairKey)
    → content (lookup k (erase_callback h key s.pairs)) ≡ contents s k
unfolding erase_callback
contents-erase_callback s h key k = elim (Option-cases (lookup key s.pairs)) [
  | inl absent ↦ rw (absent, erase_callback) refl
  | inr (e, found) ↦
      rw (found, erase_callback)
        (contents_same s key k (record e { callbacks = erase h e.callbacks })
          (sym (ap content found)))
]

contents-remove_callback :
    (s : PairSpace) (h : ℕ) (k : PairKey) → contents (remove_callback s h) k ≡ contents s k
unfolding remove_callback
contents-remove_callback s h k = elim (Option-cases (lookup h s.callback_owners)) [
  | inl universal ↦ rw (universal, remove_callback) refl
  | inr (key, owned) ↦ rw (owned, remove_callback) (contents-erase_callback s h key k)
]

contents-map_values :
    (f : PairEntry → PairEntry) (s : PairSpace) (k : PairKey)
    → ((e : PairEntry) → (f e).pair ≡ e.pair)
    → content (lookup k (map_values f s.pairs)) ≡ contents s k
contents-map_values f s k kept = rw (lookup-map_values f k s.pairs) (mapped (lookup k s.pairs))
  where
    mapped : (o : Option PairEntry) → content (map_option f o) ≡ content o
    mapped none = refl
    mapped (some e) = ap (λ p. valued p.value p.type) (kept e)

pair-with_subscriber : (a : ℤ) (e : PairEntry) → (with_subscriber a e).pair ≡ e.pair
pair-with_subscriber a e = ground arith

contents-remove_subscription :
    (s : PairSpace) (owner : ℤ) (key : Text) (a : ℤ) (k : PairKey)
    → contents (remove_subscription s owner key a) k ≡ contents s k
unfolding remove_subscription find
contents-remove_subscription s owner key a k =
    elim (Option-cases (lookup (pair_key owner key) s.pairs)) [
      | inl absent ↦ rw (absent, remove_subscription) refl
      | inr (e, found) ↦
          rw (found, remove_subscription)
            (contents_same s (pair_key owner key) k (without_subscriber a e)
              (sym (ap content found)))
    ]

contents-add_subscription_to_all :
    (s : PairSpace) (a : ℤ) (k : PairKey) → contents (add_subscription_to_all s a) k ≡ contents s k
unfolding add_subscription_to_all
contents-add_subscription_to_all s a k = elim (Bool-cases (contains a s.u_subscribers)) [
  | inl there ↦ rw there refl
  | inr new ↦ rw new (contents-map_values (with_subscriber a) s k (pair-with_subscriber a))
]

contents-add_subscription :
    (s : PairSpace) (now owner : ℤ) (key : Text) (a : ℤ) (k : PairKey)
    → contents (add_subscription s now owner key a) k ≡ contents s k
unfolding add_subscription
contents-add_subscription s now owner key a k =
    let e = entry_or_placeholder s now owner key in
    contents_same s (pair_key owner key) k (with_subscriber a e) (
      ap (λ p. valued p.value p.type) (pair-with_subscriber a e)
      ∙ value_placeholder s now owner key)

contents-perform :
    (s : PairSpace) (c : Call) (k : PairKey) → contents (perform s c) k ≡ specified (contents s) c k
unfolding perform add_callback add_callback_to_all remove_subscription_to_all
contents-perform s (adds_pair now p) k = contents-add_pair s now p k
contents-perform s (removes_pair owner key) k = contents-remove_pair s owner key k
contents-perform s (adds_callback now owner key c) k =
    contents_same s (pair_key owner key) k _ (value_placeholder s now owner key)
contents-perform s (adds_callback_to_all c) k = refl
contents-perform s (removes_callback h) k = contents-remove_callback s h k
contents-perform s (adds_subscription now owner key a) k =
    contents-add_subscription s now owner key a k
contents-perform s (removes_subscription owner key a) k =
    contents-remove_subscription s owner key a k
contents-perform s (adds_subscription_to_all a) k = contents-add_subscription_to_all s a k
contents-perform s (removes_subscription_to_all a) k =
    contents-map_values (without_subscriber a) s k (λ e. refl)

-- The space refines a map from keys to values. Whatever is called, and in whatever order, what is
-- read of it is what the calls that publish and remove make of what was read of it before, the last
-- one for a key deciding; subscriptions and callbacks change nothing of it.
pub contents-run :
    (s : PairSpace) (cs : List Call) → contents (run s cs) ≡ specification (contents s) cs
unfolding run specification
contents-run s [] = refl
contents-run s (c ∷ cs) =
    contents-run (perform s c) cs
    ∙ ap (λ m. specification m cs) (fun_ext (λ k. contents-perform s c k))
