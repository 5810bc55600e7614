-- ===== src/Messages.antt =====
-- include/srnp/Pair.h and include/srnp/msgs: pairs, the key that names a pair in a map, and the
-- messages that components and the master exchange.
mod Printing
use srnp.Base.{
  ◌≡◌, Bool, true, false, List, ℤ, negsuc, ltb_ℤ, ltb_ℤ_connex, ◌==ℤ◌, ==ℤ_iff, ==ℤ_refl, Text,
  codes, text_eq, text_eq_iff, text_eq_refl, text_lt, text_lt_irrefl, text_lt_connex, StrictOrder,
  if◌then◌else◌, arith,
}

abbrev pub any_owner : ℤ
any_owner = negsuc 0

pub data PairType : Type 0 where
  invalid string bytes meta : PairType

-- A time is its count of nanoseconds since the epoch, the tick of `system_clock` in libstdc++; a
-- time point that was never set is 0.
pub record Pair : Type 0 where
  pub owner : ℤ
  pub key : Text
  pub value : Text
  pub type : PairType
  pub write_time : ℤ
  pub expiry_time : ℤ

-- `Pair(owner, key, value, type)`
abbrev pub new_pair : ℤ → Text → Text → PairType → Pair
new_pair owner key value type = record {
  owner = owner;
  key = key;
  value = value;
  type = type;
  write_time = ℤ.pos 0;
  expiry_time = ℤ.pos 0;
}

pub record PairKey : Type 0 where
  pub owner : ℤ
  pub key : Text

abbrev pub key_of : Pair → PairKey
key_of p = record { owner = p.owner; key = p.key }

-- `PairKeyLess`: by owner, then by key.
unfoldable pub pair_key_less : PairKey → PairKey → Bool
pair_key_less a b = if a.owner ==ℤ b.owner then text_lt a.key b.key else ltb_ℤ a.owner b.owner

pub pair_key_irrefl : (a : PairKey) → pair_key_less a a ≡ false
unfolding pair_key_less
pair_key_irrefl a = ground (arith, ==ℤ_refl a.owner, text_lt_irrefl a.key)

PairKey_path : (a b : PairKey) → a.owner ≡ b.owner → a.key ≡ b.key → a ≡ b
PairKey_path a b p q = λ i. record { owner = p i; key = q i }

pub pair_key_connex :
    (a b : PairKey) → pair_key_less a b ≡ false → pair_key_less b a ≡ false → a ≡ b
unfolding pair_key_less
pair_key_connex a b h k =
    let p : a.owner ≡ b.owner =
      ground
        (arith, ==ℤ_iff a.owner b.owner, ==ℤ_iff b.owner a.owner, ltb_ℤ_connex a.owner b.owner) in
    PairKey_path a b p
      (ground (arith, ==ℤ_iff a.owner b.owner, ==ℤ_iff b.owner a.owner, text_lt_connex a.key b.key))

instance abbrev pub pair_key_order : StrictOrder PairKey
pair_key_order = record {
  before = pair_key_less;
  irrefl = pair_key_irrefl;
  connex = pair_key_connex;
}

-- `operator==` on keys, which `operator<=>` brings.
abbrev pub pair_key_eq : PairKey → PairKey → Bool
pair_key_eq a b = if a.owner ==ℤ b.owner then text_eq a.key b.key else false

pub pair_key_eq_sound : (a b : PairKey) → pair_key_eq a b ≡ true → a ≡ b
pair_key_eq_sound a b h =
    PairKey_path a b (ground (arith, ==ℤ_iff a.owner b.owner))
      (ground (arith, ==ℤ_iff a.owner b.owner, text_eq_iff a.key b.key))

pub pair_key_eq_refl : (a : PairKey) → pair_key_eq a a ≡ true
pair_key_eq_refl a = ground (arith, ==ℤ_refl a.owner, text_eq_refl a.key)

abbrev pub wildcard_key : Text
wildcard_key = codes "*"

pub record Subscription : Type 0 where
  pub key : Text
  pub owner_id : ℤ
  pub subscriber : ℤ
  pub registering : Bool

pub record RemovePairRequest : Type 0 where
  pub owner : ℤ
  pub key : Text

pub record IndicatePresence : Type 0 where
  pub port : Text
  pub force_owner_id : Bool
  pub owner_id : ℤ

pub record ComponentInfo : Type 0 where
  pub owner : ℤ
  pub ip : Text
  pub port : Text

pub data Operation : Type 0 where
  add remove : Operation

pub record UpdateComponents : Type 0 where
  pub operation : Operation
  pub component : ComponentInfo

pub record MasterMessage : Type 0 where
  pub owner : ℤ
  pub all_components : List ComponentInfo
