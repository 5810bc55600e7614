-- ===== src/Base/Maps.antt =====
-- `std::map`: an association list in the order of its keys. The order is an instance argument, as
-- it is the map's `Compare` template argument; two keys are one if neither is before the other.
use Prim.Native.Nat.{ℕ}
use mathlib.Core.Path.{◌≡◌, refl}
use mathlib.Core.Logic.{◌↔◌}
use mathlib.Core.Bool.{Bool, true, false, not, ◌&&◌}
use mathlib.Core.Option.{Option, none, some}
use mathlib.Core.List.{List, [], ◌∷◌}
use native.Mathlib.Omega.{arith}
use srnp.Base.Tests.{ltb, if◌then◌else◌, is_some}
use srnp.Base.Ints.{ℤ, ltb_ℤ, ltb_ℤ_irrefl, ltb_ℤ_connex}

pub record StrictOrder {ℓ} (K : Type ℓ) : Type ℓ where
  pub before : K → K → Bool
  pub irrefl : (a : K) → before a a ≡ false
  pub connex : (a b : K) → before a b ≡ false → before b a ≡ false → a ≡ b

pub nat_irrefl : (a : ℕ) → ltb a a ≡ false
nat_irrefl a = ground arith

pub nat_connex : (a b : ℕ) → ltb a b ≡ false → ltb b a ≡ false → a ≡ b
nat_connex a b h k = ground arith

instance abbrev pub nat_order : StrictOrder ℕ
nat_order = record { before = ltb; irrefl = nat_irrefl; connex = nat_connex }

instance abbrev pub int_order : StrictOrder ℤ
int_order = record { before = ltb_ℤ; irrefl = ltb_ℤ_irrefl; connex = ltb_ℤ_connex }

module _ {ℓ} {K : Type ℓ} ⦃o : StrictOrder K⦄ where
  abbrev pub same : K → K → Bool
  same a b = not (o.before a b) && not (o.before b a)

  same_sound : (a b : K) → same a b ≡ true → a ≡ b
  same_sound a b h = o.connex a b (ground arith) (ground arith)

  pub same_iff : (a b : K) → (same a b ≡ true) ↔ (a ≡ b)
  same_iff a b = (same_sound a b, λ e. rw (e, o.irrefl b))

  pub same_refl : (a : K) → same a a ≡ true
  same_refl a = (same_iff a a).1 refl

abbrev pub map_option {ℓ} : {V : Type ℓ} → (V → V) → Option V → Option V
map_option f none = none
map_option f (some v) = some (f v)

module _ {ℓ κ} {K : Type ℓ} {V : Type κ} where
  abbrev pub values : List (K × V) → List V
  values [] = []
  values ((k, v) ∷ m) = v ∷ values m

  -- `for (auto& [key, value] : map)` with a change of each value
  unfoldable pub map_values : (V → V) → List (K × V) → List (K × V)
  map_values f [] = []
  map_values f ((k, v) ∷ m) = (k, f v) ∷ map_values f m

module _ {ℓ κ} {K : Type ℓ} {V : Type κ} ⦃o : StrictOrder K⦄ where
  -- `find`
  unfoldable pub lookup : K → List (K × V) → Option V
  lookup k [] = none
  lookup k ((j, v) ∷ m) = if same k j then some v else lookup k m

  -- `insert_or_assign`, and `operator[]` on the left of an assignment
  unfoldable pub insert : K → V → List (K × V) → List (K × V)
  insert k v [] = (k, v) ∷ []
  insert k v ((j, w) ∷ m) =
      if same k j
      then (k, v) ∷ m
      else if o.before k j
      then (k, v) ∷ (j, w) ∷ m
      else (j, w) ∷ insert k v m

  -- `erase` by key
  unfoldable pub erase : K → List (K × V) → List (K × V)
  erase k [] = []
  erase k ((j, v) ∷ m) = if same k j then erase k m else (j, v) ∷ erase k m

  -- `emplace`: a key that is there keeps its value
  abbrev pub emplace : K → V → List (K × V) → List (K × V)
  emplace k v m = if is_some (lookup k m) then m else insert k v m

  pub lookup-insert :
      (k j : K) (v : V) (m : List (K × V))
      → lookup j (insert k v m) ≡ (if same j k then some v else lookup j m)
  unfolding lookup insert
  lookup-insert k j v [] = refl
  lookup-insert k j v ((i, w) ∷ m) =
      ground (arith, same_iff k i, same_iff j i, same_iff j k, lookup-insert k j v m)

  pub lookup-erase :
      (k j : K) (m : List (K × V)) → lookup j (erase k m) ≡ (if same j k then none else lookup j m)
  unfolding lookup erase
  lookup-erase k j [] = ground arith
  lookup-erase k j ((i, w) ∷ m) =
      ground (arith, same_iff k i, same_iff j i, same_iff j k, lookup-erase k j m)

  pub lookup-insert_self : (k : K) (v : V) (m : List (K × V)) → lookup k (insert k v m) ≡ some v
  lookup-insert_self k v m = rw (lookup-insert k k v m, same_refl k)

  pub lookup-erase_self : (k : K) (m : List (K × V)) → lookup k (erase k m) ≡ none
  lookup-erase_self k m = rw (lookup-erase k k m, same_refl k)

  pub lookup-map_values :
      (f : V → V) (k : K) (m : List (K × V)) → lookup k (map_values f m) ≡ map_option f (lookup k m)
  unfolding lookup map_values
  lookup-map_values f k [] = refl
  lookup-map_values f k ((j, v) ∷ m) = ground (arith, lookup-map_values f k m)

pub ruleset map_laws = (lookup-insert, lookup-erase, lookup-map_values)
