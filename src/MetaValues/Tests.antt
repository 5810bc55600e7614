-- ===== src/MetaValues/Tests.antt =====
-- Values of meta-pairs, well formed and not.
use srnp.Base.{
  ◌≡◌, refl, [], ◌∷◌, none, some, pos, negsuc, codes, text_eq, if◌then◌else◌, ◌==ℤ◌, ◌&&◌,
}
use srnp.Numbers.{decimal, digits, int_text, scan, from_chars}
use srnp.Messages.{any_owner}
use srnp.MetaValues.{
  strip_front, strip_back, split, words_of, extract_strings, parse_int, target_of, parse_meta_value,
  null_meta, meta_value, followed_target, parse_followed,
}
use srnp.MetaValues.RoundTrip.{parse_meta_value-meta_value}

strips : extract_strings (codes "((META  12 a(b))") ≡ codes "META" ∷ codes "12" ∷ codes "a(b" ∷ []
unfolding extract_strings words_of split strip_front strip_back
strips = refl

-- A client takes the null value for a name, under the owner -1; what follows a meta-pair does not.
null :
    (parse_meta_value null_meta ≡ some (record { owner = negsuc 0; key = codes "NULL" }))
    × (parse_followed null_meta ≡ none)
unfolding parse_meta_value parse_followed target_of followed_target parse_int extract_strings
    words_of split strip_front strip_back text_eq from_chars scan
null = (refl, refl)

-- Behind a number only what follows a meta-pair takes anything.
tail :
    (parse_meta_value (codes "(META 12x k)") ≡ none)
    × (parse_followed (codes "(META 12x k)") ≡ some (record { owner = pos 12; key = codes "k" }))
unfolding parse_meta_value parse_followed target_of followed_target parse_int extract_strings
    words_of split strip_front strip_back text_eq from_chars scan
tail = (refl, refl)

-- A key with a space is not read back.
spaced : parse_meta_value (meta_value (pos 12) (codes "a b")) ≡ none
unfolding parse_meta_value meta_value int_text decimal digits target_of extract_strings words_of
    split strip_front strip_back
spaced = refl

parse_meta_value-meta_value_example :
    (parse_meta_value (meta_value (pos 12) (codes "k"))
      ≡ some (record { owner = pos 12; key = codes "k" }))
    × (parse_followed (meta_value (pos 12) (codes "k")) ≡ (
        if pos 12 ==ℤ any_owner && text_eq (codes "k") (codes "NULL")
        then none
        else some (record { owner = pos 12; key = codes "k" })))
parse_meta_value-meta_value_example = parse_meta_value-meta_value (pos 12) (codes "k") refl refl
