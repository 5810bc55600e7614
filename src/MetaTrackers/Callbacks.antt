-- ===== src/MetaTrackers/Callbacks.antt =====
-- src/meta_pair_callback.cpp: what its calls do to the callbacks in the node's pair space.
use native.Mathlib.Nat.{mod-eq_of_lt}
use srnp.Base.{
  ℕ, ◌≡◌, ◌≢◌, ◌+◌, refl, is_some, emplace, sym, ap, ◌∙◌, true, false, List, Option, none, some, ℤ,
  text_eq, if◌then◌else◌, lookup, nat_order, same_iff, Bool-cases, inl, inr, lookup-insert_self,
  Option-cases, arith,
}
use srnp.Messages.{wildcard_key, PairKey, pair_key_order}
use srnp.PairSpace.{
  Callback, PairEntry, PairSpace, entry_or_placeholder, add_callback, add_callback_to_all,
  remove_callback, next_handle,
}
use srnp.PairSpace.Invariant.{IsSpace, has_callback, entry_or_placeholder-IsEntry}
use srnp.PairSpace.Callbacks.{HasRoom}
use srnp.PairSpace.Cancelling.{remove_callback-IsSpace, remove_callback_lem}
use srnp.Client.{Client, register_callback, cancel_callback}

-- The callback under a handle, of those for a key, or for every pair.
abbrev pub callback_in : Option PairEntry → ℕ → Option Callback
callback_in none handle = none
callback_in (some entry) handle = lookup handle entry.callbacks

abbrev pub callback_for : PairSpace → PairKey → ℕ → Option Callback
callback_for space k handle =
    if text_eq k.key wildcard_key
    then lookup handle space.universal_callbacks
    else callback_in (lookup k space.pairs) handle

-- Nothing is called by the handle any more.
abbrev pub IsUncalled : PairSpace → ℕ → Type 0
IsUncalled space handle =
    (lookup handle space.universal_callbacks ≡ none)
    × ((j : PairKey) → has_callback space.pairs j handle ≡ false)

-- The space is in order, and its next handle is not the last one.
abbrev pub IsRoomy : PairSpace → Type 0
IsRoomy space = IsSpace space × HasRoom space

HasRoom-remove_callback :
    (space : PairSpace) (handle : ℕ) → HasRoom space → HasRoom (remove_callback space handle)
unfolding remove_callback
HasRoom-remove_callback space handle room =
    elim (Option-cases (lookup handle space.callback_owners)) [
      | inl universal ↦ rw (universal, remove_callback) room
      | inr (k, owned) ↦ rw (owned, remove_callback) room
    ]

pub cancel_callback_lem :
    (c : Client) (handle : ℕ)
    → IsRoomy c.space
    → IsUncalled (cancel_callback c handle).space handle
      × IsRoomy (cancel_callback c handle).space
      × ((cancel_callback c handle).subscriptions ≡ c.subscriptions)
      × ((cancel_callback c handle).next_subscription_handle ≡ c.next_subscription_handle)
unfolding cancel_callback
cancel_callback_lem c handle (v, room) =
    let gone = remove_callback_lem c.space handle v handle in
    (
      (
        gone.1 ∙ rw ((same_iff handle handle).1 refl) refl,
        λ j. gone.0 j ∙ rw ((same_iff handle handle).1 refl) refl,
      ),
      (remove_callback-IsSpace c.space handle v, HasRoom-remove_callback c.space handle room),
      refl,
      refl,
    )

lookup-emplace_free :
    {V : Type 0} (h : ℕ) (x : V) (m : List (ℕ × V))
    → lookup h m ≡ none
    → lookup h (emplace h x m) ≡ some x
lookup-emplace_free h x m free = rw free (lookup-insert_self h x m)

none_there : {V : Type 0} (m : Option V) → (is_some m ≡ true → false ≡ true) → m ≡ none
none_there none absent = refl
none_there (some x) absent = absurd (false_true (absent refl))
  where
    false_true : false ≢ true
    false_true e = cc

-- The next handle is nobody's.
unissued :
    (space : PairSpace) (now : ℤ) (k : PairKey)
    → IsRoomy space
    → (lookup (next_handle space.next_callback_handle) space.universal_callbacks ≡ none)
      × (lookup
            (next_handle space.next_callback_handle)
            (entry_or_placeholder space now k.owner k.key).callbacks
          ≡ none)
unissued space now k (v, room) =
    let h = next_handle space.next_callback_handle in
    let same_handle : h ≡ space.next_callback_handle + 1 = mod-eq_of_lt room in
    let new = v.issued h (omega (arith, same_handle)) in
    (
      new.1,
      none_there (lookup h (entry_or_placeholder space now k.owner k.key).callbacks) (λ there.
          absurd (
            none_is_some (
              sym new.0
              ∙ (entry_or_placeholder-IsEntry space now k.owner k.key v).registered h there))),
    )
  where
    none_is_some : {j : PairKey} → none ≢ some j
    none_is_some e = cc

pub register_callback_lem :
    (c : Client) (now : ℤ) (k : PairKey) (fn : Callback)
    → IsRoomy c.space
    → (callback_for
          (register_callback c now k.owner k.key fn).0.space
          k
          (register_callback c now k.owner k.key fn).1
        ≡ some fn)
      × ((register_callback c now k.owner k.key fn).0.subscriptions ≡ c.subscriptions)
unfolding register_callback add_callback_to_all add_callback
register_callback_lem c now k fn (v, room) = elim (Bool-cases (text_eq k.key wildcard_key)) [
  | inl all ↦ rw all (
    lookup-emplace_free _ fn c.space.universal_callbacks (unissued c.space now k (v, room)).0,
    refl,
  )
  | inr one ↦ rw one (
    ap (λ e. callback_in e (next_handle c.space.next_callback_handle))
          (lookup-insert_self k _ c.space.pairs)
        ∙ lookup-emplace_free _ fn (entry_or_placeholder c.space now k.owner k.key).callbacks
            (unissued c.space now k (v, room)).1,
    refl,
  )
]
