-- ===== src/PairSpace.antt =====
-- include/srnp/PairSpace.h and src/PairSpace.cpp: every pair that a component knows, with the
-- component's own bookkeeping about it. The callers hold the mutex for the whole of an operation,
-- so each operation is one function of the space. `now` is `Clock::now()`.
pub mod Invariant
pub mod Preservation
pub mod Callbacks
pub mod Cancelling
pub mod Subscribers
pub mod Values
pub mod Histories
pub mod Contents
mod Tests
use srnp.Base.{
  ℕ, ◌+◌, ◌%◌, ◌^◌, ◌&&◌, List, [], ◌∷◌, ◌++◌, Option, none, some, ℤ, Text, is_empty, if◌then◌else◌,
  nat_order, lookup, insert, erase, emplace, values, map_values, contains, erase_all,
}
use srnp.Messages.{Pair, PairType, PairKey, key_of, new_pair, pair_key_order}

-- A `Pair::CallbackFunction`: one of the application's, or the library's `onMetaPairChanged`.
pub data Callback : Type 0 where
  user : ℕ → Callback
  on_meta_pair_changed : Callback

pub record PairEntry : Type 0 where
  pub pair : Pair
  pub subscribers : List ℤ
  pub callbacks : List (ℕ × Callback)

pub record PairSpace : Type 0 where
  pub pairs : List (PairKey × PairEntry)
  pub u_subscribers : List ℤ
  pub callback_owners : List (ℕ × PairKey)
  pub universal_callbacks : List (ℕ × Callback)
  pub next_callback_handle : ℕ

abbrev pub empty_space : PairSpace
empty_space = record {
  pairs = [];
  u_subscribers = [];
  callback_owners = [];
  universal_callbacks = [];
  next_callback_handle = 0;
}

abbrev pub pair_key : ℤ → Text → PairKey
pair_key owner key = record { owner = owner; key = key }

unfoldable pub find : PairSpace → ℤ → Text → Option PairEntry
find s owner key = lookup (pair_key owner key) s.pairs

unfoldable pub copy_of : PairSpace → ℤ → Text → Option Pair
copy_of s owner key = elim (find s owner key) [ none ↦ none | some entry ↦ some entry.pair ]

-- The entry that `addPair` leaves under the pair's key, and returns a reference to.
unfoldable pub added_entry : PairSpace → ℤ → Pair → PairEntry
added_entry s now p = elim (find s p.owner p.key) [
  | none ↦ record {
    pair = record p { write_time = now };
    subscribers = s.u_subscribers;
    callbacks = [];
  }
  | some existing ↦ record existing {
    pair = record existing.pair { type = p.type; value = p.value; write_time = now };
  }
]

unfoldable pub add_pair : PairSpace → ℤ → Pair → PairSpace
add_pair s now p = record s { pairs = insert (key_of p) (added_entry s now p) s.pairs }

-- `removePair` at a key with an entry: erased if nothing of ours hangs on it, a placeholder if not.
unfoldable pub removed_entry : PairSpace → ℤ → Text → PairEntry → PairSpace
removed_entry s owner key entry =
    if is_empty entry.subscribers && is_empty entry.callbacks
    then record s { pairs = erase (pair_key owner key) s.pairs }
    else record s {
      pairs =
          insert (pair_key owner key)
            (record entry { pair = record entry.pair { value = []; type = PairType.invalid } })
            s.pairs;
    }

unfoldable pub remove_pair : PairSpace → ℤ → Text → PairSpace
remove_pair s owner key = elim (find s owner key) [
  | none ↦ s
  | some entry ↦ removed_entry s owner key entry
]

-- The entry under a key, after a placeholder is added if there is none.
unfoldable pub entry_or_placeholder : PairSpace → ℤ → ℤ → Text → PairEntry
entry_or_placeholder s now owner key = elim (find s owner key) [
  | none ↦ added_entry s now (new_pair owner key [] PairType.invalid)
  | some entry ↦ entry
]

-- `++next_callback_handle_`, of a `uint64_t`
abbrev pub next_handle : ℕ → ℕ
next_handle h = (h + 1) % 2 ^ 64

unfoldable pub add_callback : PairSpace → ℤ → ℤ → Text → Callback → PairSpace × ℕ
add_callback s now owner key callback =
    let handle = next_handle s.next_callback_handle in
    let entry = entry_or_placeholder s now owner key in
    (
      record s {
        next_callback_handle = handle;
        callback_owners = emplace handle (pair_key owner key) s.callback_owners;
        pairs =
            insert (pair_key owner key)
              (record entry { callbacks = emplace handle callback entry.callbacks }) s.pairs;
      },
      handle,
    )

unfoldable pub add_callback_to_all : PairSpace → Callback → PairSpace × ℕ
add_callback_to_all s callback =
    let handle = next_handle s.next_callback_handle in
    (
      record s {
        next_callback_handle = handle;
        universal_callbacks = emplace handle callback s.universal_callbacks;
      },
      handle,
    )

abbrev pub universal_callbacks_of : PairSpace → List Callback
universal_callbacks_of s = values s.universal_callbacks

-- `entry->callbacks.erase(handle)` at a key that has an entry.
unfoldable pub erase_callback :
    ℕ → PairKey → List (PairKey × PairEntry) → List (PairKey × PairEntry)
erase_callback handle key pairs = elim (lookup key pairs) [
  | none ↦ pairs
  | some entry ↦ insert key (record entry { callbacks = erase handle entry.callbacks }) pairs
]

unfoldable pub remove_callback : PairSpace → ℕ → PairSpace
remove_callback s handle = elim (lookup handle s.callback_owners) [
  | none ↦ record s { universal_callbacks = erase handle s.universal_callbacks }
  | some key ↦ record s {
    pairs = erase_callback handle key s.pairs;
    callback_owners = erase handle s.callback_owners;
  }
]

-- A subscriber that is there already is not added again.
abbrev pub with_subscriber : ℤ → PairEntry → PairEntry
with_subscriber subscriber entry =
    if contains subscriber entry.subscribers
    then entry
    else record entry { subscribers = entry.subscribers ++ subscriber ∷ [] }

abbrev pub without_subscriber : ℤ → PairEntry → PairEntry
without_subscriber subscriber entry = record entry {
  subscribers = erase_all subscriber entry.subscribers;
}

unfoldable pub add_subscription : PairSpace → ℤ → ℤ → Text → ℤ → PairSpace
add_subscription s now owner key subscriber = record s {
  pairs =
      insert (pair_key owner key)
        (with_subscriber subscriber (entry_or_placeholder s now owner key)) s.pairs;
}

unfoldable pub remove_subscription : PairSpace → ℤ → Text → ℤ → PairSpace
remove_subscription s owner key subscriber = elim (find s owner key) [
  | none ↦ s
  | some entry ↦ record s {
    pairs = insert (pair_key owner key) (without_subscriber subscriber entry) s.pairs;
  }
]

unfoldable pub add_subscription_to_all : PairSpace → ℤ → PairSpace
add_subscription_to_all s subscriber = if contains subscriber s.u_subscribers then s else record s {
  u_subscribers = s.u_subscribers ++ subscriber ∷ [];
  pairs = map_values (with_subscriber subscriber) s.pairs;
}

unfoldable pub remove_subscription_to_all : PairSpace → ℤ → PairSpace
remove_subscription_to_all s subscriber = record s {
  u_subscribers = erase_all subscriber s.u_subscribers;
  pairs = map_values (without_subscriber subscriber) s.pairs;
}
