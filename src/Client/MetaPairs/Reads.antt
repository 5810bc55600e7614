-- ===== src/Client/MetaPairs/Reads.antt =====
-- src/client.cpp: what is read and written by way of a meta-pair of the component itself.
use srnp.Base.{◌≡◌, ◌≢◌, refl, ◌∙◌, true, some, ℤ, pos, Text, ==ℤ_iff, arith}
use srnp.Numbers.{fits_int}
use srnp.Messages.{PairType, PairKey, new_pair}
use srnp.MetaValues.{parse_meta_value, meta_value}
use srnp.MetaValues.RoundTrip.{is_plain, parse_meta_value-meta_value}
use srnp.PairSpace.{pair_key, copy_of}
use srnp.PairSpace.Invariant.{IsSpace}
use srnp.PairSpace.Values.{expiry_or}
use srnp.Client.{Client, set_pair, get_pair}
use srnp.Client.Pairs.{own-set_pair, get_pair-set_pair}
use srnp.Client.MetaPairs.{
  meta_target, get_pair_indirectly, set_at, set_pair_indirectly, set_meta_pair,
}

set_at-own :
    (c : Client) (now : ℤ) (key value : Text) (type : PairType)
    → set_at c now c.owner_id key value type ≡ set_pair c now key value type
unfolding set_at
set_at-own c now key value type = ground (arith, ==ℤ_iff c.owner_id c.owner_id)

pub meta_target-set_pair :
    (c : Client) (now : ℤ) (meta_key value : Text) (type : PairType)
    → IsSpace c.space
    → c.ready ≡ true
    → type ≢ PairType.invalid
    → meta_target (set_pair c now meta_key value type).0 c.owner_id meta_key
      ≡ parse_meta_value value
unfolding meta_target
meta_target-set_pair c now meta_key value type v ready valid =
    rw (own-set_pair c now meta_key value type v ready valid) refl

-- A meta-pair of the component's own that names another pair, of anyone's, is read as that pair is
-- read, when it names it by an owner that is an `int` and a key that the value's text can hold; so
-- also when it names one that there is none of.
pub get_pair_indirectly-set_meta_pair :
    (c : Client) (now : ℤ) (meta_key : Text) (owner : ℤ) (key : Text)
    → IsSpace c.space
    → c.ready ≡ true
    → fits_int owner ≡ true
    → is_plain key ≡ true
    → pair_key owner key ≢ pair_key c.owner_id meta_key
    → get_pair_indirectly (set_meta_pair c now c.owner_id meta_key owner key).0 c.owner_id meta_key
      ≡ get_pair c owner key
unfolding get_pair_indirectly set_meta_pair
get_pair_indirectly-set_meta_pair c now meta_key owner key v ready fits plain distinct =
    let value = meta_value owner key in
    rw (set_at-own c now meta_key value PairType.string) (
      rw
        (
          meta_target-set_pair c now meta_key value PairType.string v ready (λ e. cc),
          (parse_meta_value-meta_value owner key fits plain).0,
          get_pair_indirectly,
        )
        ((get_pair-set_pair c now meta_key value PairType.string owner key v ready (λ e. cc)
          distinct).1))

set_pair_indirectly-target :
    (c : Client) (now : ℤ) (meta_owner : ℤ) (meta_key value : Text) (target : PairKey)
    → meta_target c meta_owner meta_key ≡ some target
    → set_pair_indirectly c now meta_owner meta_key value
      ≡ set_at c now target.owner target.key value PairType.string
unfolding set_pair_indirectly
set_pair_indirectly-target c now meta_owner meta_key value target e =
    rw (e, set_pair_indirectly) refl

get_pair_indirectly-target :
    (c : Client) (meta_owner : ℤ) (meta_key : Text) (target : PairKey)
    → meta_target c meta_owner meta_key ≡ some target
    → get_pair_indirectly c meta_owner meta_key ≡ get_pair c target.owner target.key
unfolding get_pair_indirectly
get_pair_indirectly-target c meta_owner meta_key target e = rw (e, get_pair_indirectly) refl

-- A registered component whose meta-pair names another pair of its own, and that writes by way of it,
-- reads by way of it what was written: a string under the name of the pair itself, written now; and
-- the meta-pair still names it.
pub get_pair_indirectly-set_pair_indirectly :
    (c : Client) (now : ℤ) (meta_key value key : Text)
    → IsSpace c.space
    → c.ready ≡ true
    → meta_target c c.owner_id meta_key ≡ some (record { owner = c.owner_id; key = key })
    → pair_key c.owner_id meta_key ≢ pair_key c.owner_id key
    → (get_pair_indirectly
          (set_pair_indirectly c now c.owner_id meta_key value).0
          c.owner_id
          meta_key
        ≡ some (record (new_pair c.owner_id key value PairType.string) {
          write_time = now;
          expiry_time = expiry_or (copy_of c.space c.owner_id key) (pos 0);
        }))
      × (meta_target (set_pair_indirectly c now c.owner_id meta_key value).0 c.owner_id meta_key
          ≡ some (record { owner = c.owner_id; key = key }))
unfolding meta_target
get_pair_indirectly-set_pair_indirectly c now meta_key value key v ready names distinct =
    let target : PairKey = record { owner = c.owner_id; key = key } in
    let c' = (set_pair c now key value PairType.string).0 in
    let (own, others) =
      get_pair-set_pair c now key value PairType.string c.owner_id meta_key v ready (λ e. cc)
        distinct in
    let still : meta_target c' c.owner_id meta_key ≡ some target = rw others names in
    rw
      (
        set_pair_indirectly-target c now c.owner_id meta_key value target names,
        set_at-own c now key value PairType.string,
      )
      (get_pair_indirectly-target c' c.owner_id meta_key target still ∙ own, still)
