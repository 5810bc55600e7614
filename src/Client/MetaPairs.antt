-- ===== src/Client/MetaPairs.antt =====
-- src/client.cpp: reading and writing a pair by way of a meta-pair, whose value names it.
pub mod Reads
mod Tests
use srnp.Base.{
  ℕ, ◌≡◌, ◌≢◌, refl, Bool, true, false, ◌&&◌, List, Option, none, some, ℤ, pos, Text, ◌==ℤ◌,
  ==ℤ_iff, text_eq, if◌then◌else◌, is_empty, arith,
}
use srnp.Numbers.{fits_int}
use srnp.Wire.{Result, ok, err}
use srnp.Messages.{Pair, PairType, PairKey, new_pair}
use srnp.MetaValues.{parse_meta_value, meta_value, null_meta}
use srnp.MetaValues.RoundTrip.{is_plain, parse_meta_value-meta_value}
use srnp.PairSpace.{PairEntry, pair_key, copy_of, added_entry}
use srnp.PairSpace.Invariant.{IsSpace}
use srnp.Client.{
  Client, fan_out_pair, notify_local, published, publish, set_pair, set_remote_pair, get_pair,
}
use srnp.Client.Pairs.{own-set_pair, get_pair-set_pair}

abbrev named_by : Option Pair → Option PairKey
named_by none = none
named_by (some p) = parse_meta_value p.value

-- The pair that the meta-pair names, if there is one and its value names any.
unfoldable pub meta_target : Client → ℤ → Text → Option PairKey
meta_target c meta_owner meta_key = named_by (get_pair c meta_owner meta_key)

unfoldable pub get_pair_indirectly : Client → ℤ → Text → Option Pair
get_pair_indirectly c meta_owner meta_key = elim (meta_target c meta_owner meta_key) [
  | none ↦ none
  | some target ↦ get_pair c target.owner target.key
]

-- `setPair` for a pair of this component, `setRemotePair` for one of another.
unfoldable pub set_at : Client → ℤ → ℤ → Text → Text → PairType → Client × Result Bool
set_at c now owner key value type =
    if owner ==ℤ c.owner_id
    then set_pair c now key value type
    else set_remote_pair c owner key value type

unfoldable pub set_pair_indirectly : Client → ℤ → ℤ → Text → Text → Client × Result Bool
set_pair_indirectly c now meta_owner meta_key value = elim (meta_target c meta_owner meta_key) [
  | none ↦ (c, ok false)
  | some target ↦ set_at c now target.owner target.key value PairType.string
]

unfoldable pub set_meta_pair : Client → ℤ → ℤ → Text → ℤ → Text → Client × Result Bool
set_meta_pair c now meta_owner meta_key owner key =
    set_at c now meta_owner meta_key (meta_value owner key) PairType.string

unfoldable pub init_meta_pair : Client → ℤ → ℤ → Text → Client × Result Bool
init_meta_pair c now meta_owner meta_key = set_at c now meta_owner meta_key null_meta PairType.meta
