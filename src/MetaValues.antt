-- ===== src/MetaValues.antt =====
-- src/client.cpp: the values of meta-pairs, which name another pair: `extractStrings` and the text
-- `(META owner key)`, as `Client` writes and reads it and as src/meta_pair_callback.cpp reads it.
pub mod RoundTrip
mod Tests
use srnp.Base.{
  ℕ, Bool, true, false, ◌&&◌, ◌||◌, ◌==◌, List, [], ◌∷◌, ◌++◌, Option, none, some, ℤ, pos, Text,
  codes, text_eq, ◌==ℤ◌, if◌then◌else◌, is_empty,
}
use srnp.Numbers.{int_text, from_chars, Scanned, Errc, fine, invalid_argument, result_out_of_range}
use srnp.Messages.{PairKey, any_owner}

abbrev pub is_paren : ℕ → Bool
is_paren c = c == b'(' || c == b')'

unfoldable pub strip_front : Text → Text
strip_front [] = []
strip_front (c ∷ cs) = elim (is_paren c) [ true ↦ strip_front cs | false ↦ c ∷ cs ]

unfoldable pub strip_back : Text → Text
strip_back [] = []
strip_back (c ∷ cs) =
    let stripped = strip_back cs in if is_paren c && is_empty stripped then [] else c ∷ stripped

abbrev extended : ℕ → List Text → List Text
extended c [] = (c ∷ []) ∷ []
extended c (part ∷ parts) = (c ∷ part) ∷ parts

-- `std::views::split(text, ' ')`; the one empty part of an empty text makes no word either.
unfoldable pub split : Text → List Text
split [] = [] ∷ []
split (c ∷ cs) = let parts = split cs in if c == b' ' then [] ∷ parts else extended c parts

-- The words that are left of the parts without the parentheses around them.
unfoldable pub words_of : List Text → List Text
words_of [] = []
words_of (part ∷ parts) =
    let word = strip_back (strip_front part) in
    let words = words_of parts in if is_empty word then words else word ∷ words

unfoldable pub extract_strings : Text → List Text
extract_strings text = words_of (split text)

abbrev pub whole : Scanned → Option ℤ
whole scanned = elim scanned.ec [
  | Errc.fine ↦ if is_empty scanned.rest then some scanned.value else none
  | _ ↦ none
]

unfoldable pub parse_int : Text → Option ℤ
parse_int text = whole (from_chars (pos 0) text)

abbrev pub with_owner : Text → Option ℤ → Option PairKey
with_owner key none = none
with_owner key (some owner) = some (record { owner = owner; key = key })

unfoldable pub target_of : List Text → Option PairKey
target_of (tag ∷ owner ∷ key ∷ []) =
    if text_eq tag (codes "META") then with_owner key (parse_int owner) else none
target_of _ = none

unfoldable pub parse_meta_value : Text → Option PairKey
parse_meta_value value = target_of (extract_strings value)

-- `kNullMeta`.
abbrev pub null_meta : Text
null_meta = codes "(META -1 NULL)"

-- `std::format("(META {} {})", owner, key)`.
unfoldable pub meta_value : ℤ → Text → Text
meta_value owner key = codes "(META " ++ int_text owner ++ b' ' ∷ (key ++ b')' ∷ [])

-- `parseMetaValue` of src/meta_pair_callback.cpp: the number may have anything behind it, and the null
-- value names nothing.
abbrev followed_owner : Text → Scanned → Option PairKey
followed_owner key scanned = elim scanned.ec [
  | Errc.fine ↦
      if scanned.value ==ℤ any_owner && text_eq key (codes "NULL")
      then none
      else some (record { owner = scanned.value; key = key })
  | _ ↦ none
]

unfoldable pub followed_target : List Text → Option PairKey
followed_target (tag ∷ owner ∷ key ∷ []) =
    if text_eq tag (codes "META") then followed_owner key (from_chars (pos 0) owner) else none
followed_target _ = none

unfoldable pub parse_followed : Text → Option PairKey
parse_followed value = followed_target (extract_strings value)
