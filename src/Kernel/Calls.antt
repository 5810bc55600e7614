-- ===== src/Kernel/Calls.antt =====
-- src/srnp_kernel.cpp: the calls of a node that runs. `now` is `Clock::now()` where the client reads it.
use srnp.Base.{ℕ, Bool, true, List, [], ◌∷◌, Option, none, some, ℤ, Text}
use srnp.Wire.{Result, ok, err}
use srnp.Messages.{Pair, PairType, PairKey, ComponentInfo}
use srnp.PairSpace.{Callback, PairEntry}
use srnp.Client.{Client, valid_only}
use srnp.Client
use srnp.Client.Subscribing
use srnp.Client.MetaPairs
use srnp.Kernel.{Kernel, Answer, done, thrown, no_node, passed_on}

-- What a method of the client gives, and the node that it leaves.
abbrev pub answered : {A : Type 0} → Kernel → Client × Result A → Kernel × Answer A
answered kernel (c, ok a) = (record kernel { client_instance = some c }, done a)
answered kernel (c, err e) = (record kernel { client_instance = some c }, thrown (passed_on e))

-- A call by way of `client()`.
unfoldable pub call : {A : Type 0} → Kernel → (Client → Client × Result A) → Kernel × Answer A
call kernel method = elim kernel.client_instance [
  | none ↦ (kernel, thrown no_node)
  | some c ↦ answered kernel (method c)
]

-- One that changes nothing.
unfoldable pub query : {A : Type 0} → Kernel → (Client → A) → Answer A
query kernel method = elim kernel.client_instance [
  | none ↦ thrown no_node
  | some c ↦ done (method c)
]

abbrev quiet : {A : Type 0} → Client × A → Client × Result A
quiet (c, a) = (c, ok a)

unfoldable pub set_pair : Kernel → ℤ → Text → Text → PairType → Kernel × Answer Bool
set_pair kernel now key value type = call kernel (λ c. Client.set_pair c now key value type)

unfoldable pub set_remote_pair : Kernel → ℤ → Text → Text → PairType → Kernel × Answer Bool
set_remote_pair kernel owner key value type =
    call kernel (λ c. Client.set_remote_pair c owner key value type)

unfoldable pub set_pair_indirectly : Kernel → ℤ → ℤ → Text → Text → Kernel × Answer Bool
set_pair_indirectly kernel now meta_owner meta_key value =
    call kernel (λ c. Client.MetaPairs.set_pair_indirectly c now meta_owner meta_key value)

unfoldable pub set_meta_pair : Kernel → ℤ → ℤ → Text → ℤ → Text → Kernel × Answer Bool
set_meta_pair kernel now meta_owner meta_key owner key =
    call kernel (λ c. Client.MetaPairs.set_meta_pair c now meta_owner meta_key owner key)

unfoldable pub init_meta_pair : Kernel → ℤ → ℤ → Text → Kernel × Answer Bool
init_meta_pair kernel now meta_owner meta_key =
    call kernel (λ c. Client.MetaPairs.init_meta_pair c now meta_owner meta_key)

unfoldable pub remove_pair : Kernel → Text → Kernel × Answer Bool
remove_pair kernel key = call kernel (λ c. Client.remove_pair c key)

unfoldable pub remove_remote_pair : Kernel → ℤ → Text → Kernel × Answer Bool
remove_remote_pair kernel owner key = call kernel (λ c. Client.remove_remote_pair c owner key)

unfoldable pub get_pair : Kernel → ℤ → Text → Answer (Option Pair)
get_pair kernel owner key = query kernel (λ c. Client.get_pair c owner key)

unfoldable pub get_pair_indirectly : Kernel → ℤ → Text → Answer (Option Pair)
get_pair_indirectly kernel meta_owner meta_key =
    query kernel (λ c. Client.MetaPairs.get_pair_indirectly c meta_owner meta_key)

-- The pairs that have a value, in the order of the map.
unfoldable pub valid_pairs : List (PairKey × PairEntry) → List Pair
valid_pairs [] = []
valid_pairs ((k, entry) ∷ pairs) = elim (valid_only (some entry.pair)) [
  | none ↦ valid_pairs pairs
  | some p ↦ p ∷ valid_pairs pairs
]

unfoldable pub snapshot_pairs : Kernel → Answer (List Pair)
snapshot_pairs kernel = query kernel (λ c. valid_pairs c.space.pairs)

unfoldable pub known_components : Kernel → Answer (List (ℤ × ComponentInfo))
known_components kernel = query kernel (λ c. c.components)

unfoldable pub register_callback : Kernel → ℤ → ℤ → Text → Callback → Kernel × Answer ℕ
register_callback kernel now owner key callback =
    call kernel (λ c. quiet (Client.register_callback c now owner key callback))

unfoldable pub cancel_callback : Kernel → ℕ → Kernel × Answer Bool
cancel_callback kernel handle = call kernel (λ c. (Client.cancel_callback c handle, ok true))

-- Without an owner, a key is subscribed to, or no longer, on every component.
unfoldable pub register_subscription : Kernel → ℤ → Text → Kernel × Answer ℕ
register_subscription kernel owner key =
    call kernel (λ c. Client.Subscribing.register_subscription c owner key)

unfoldable pub cancel_handle : Kernel → ℕ → Kernel × Answer Bool
cancel_handle kernel handle = call kernel (λ c. Client.Subscribing.cancel_handle c handle)

unfoldable pub cancel_subscription : Kernel → ℤ → Text → Kernel × Answer Bool
cancel_subscription kernel owner key =
    call kernel (λ c. Client.Subscribing.cancel_subscription c owner key)

unfoldable pub get_owner_id : Kernel → Answer ℤ
get_owner_id kernel = query kernel (λ c. c.owner_id)
