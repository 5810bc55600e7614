-- ===== src/PairSpace/Tests.antt =====
-- The pair space on a small history of calls.
use srnp.Base.{
  ◌≡◌, ◌≢◌, refl, true, false, List, [], ◌∷◌, some, pos, codes, contains, is_some, lookup, insert,
  text_eq, text_lt, arith,
}
use srnp.Messages.{Pair, PairType, PairKey, new_pair, pair_key_order, pair_key_less}
use srnp.PairSpace.{
  Callback, PairEntry, PairSpace, empty_space, pair_key, find, added_entry, add_pair, add_callback,
  add_callback_to_all, entry_or_placeholder, remove_callback, add_subscription,
}
use srnp.PairSpace.Contents.{contents, specification, contents-run}
use srnp.PairSpace.Invariant.{IsSpace}
use srnp.PairSpace.Histories.{
  Call, adds_pair, adds_callback, adds_callback_to_all, adds_subscription, run, perform,
  run_empty-IsSpace,
}
use srnp.PairSpace.Cancelling.{Cancels, remove_callback_lem}

abbrev reading : Pair
reading = record (new_pair (pos 7) (codes "t") (codes "20") PairType.string) { expiry_time = pos 9 }

abbrev history : List Call
history =
    adds_callback (pos 1) (pos 7) (codes "t") (Callback.user 3)
    ∷ adds_callback_to_all (Callback.user 4)
    ∷ adds_pair (pos 2) reading
    ∷ adds_subscription (pos 3) (pos 7) (codes "t") (pos 8)
    ∷ []

abbrev space : PairSpace
space = run empty_space history

run_empty-IsSpace_example : IsSpace space
run_empty-IsSpace_example = run_empty-IsSpace history (omega arith)

space-IsSpace : IsSpace space
space-IsSpace = run_empty-IsSpace history (omega arith)

remove_callback_lem_example : Cancels space 1 (remove_callback space 1)
remove_callback_lem_example = remove_callback_lem space 1 space-IsSpace

abbrev t : PairKey
t = pair_key (pos 7) (codes "t")

abbrev entry : PairEntry
entry = record {
  pair = record reading { write_time = pos 2; expiry_time = pos 0 };
  subscribers = pos 8 ∷ [];
  callbacks = (1, Callback.user 3) ∷ [];
}

space_entry : lookup t space.pairs ≡ some entry
unfolding run perform add_callback add_callback_to_all add_pair add_subscription
    entry_or_placeholder added_entry find lookup insert contains text_eq text_lt pair_key_less
space_entry = refl

t_is_there : is_some (find space (pos 7) (codes "t")) ≡ true
unfolding find
t_is_there = rw space_entry refl

nobody_wants_all : contains (pos 8) space.u_subscribers ≡ false
unfolding run perform add_callback add_callback_to_all add_pair add_subscription contains
nobody_wants_all = refl

abbrev newer : Pair
newer = new_pair (pos 7) (codes "t") (codes "21") PairType.string

abbrev u : PairKey
u = pair_key (pos 7) (codes "tu")

u_not_t : u ≢ t
u_not_t e = cc

contents-run_example : contents (run space history) ≡ specification (contents space) history
contents-run_example = contents-run space history
