-- ===== src/Viewer/Format/Tests.antt =====
-- What the viewer shows.
use srnp.Base.{
  ◌≡◌, ◌↔◌, ◌≤◌, ◌+◌, refl, true, [], ◌∷◌, ◌++◌, none, some, pos, negsuc, Text, codes, length,
  arith, text_eq,
}
use srnp.Numbers.{decimal, digits, from_chars, scan}
use srnp.MetaValues.{
  parse_meta_value, target_of, parse_int, extract_strings, words_of, split, strip_front, strip_back,
}
use srnp.Viewer.Format.{
  escape, escape_byte, escape_truncated, hex_dump, hex_lines, hex_line, hex_columns, hex_digits,
  printable_column, format_age, format_seconds, brief_error, before_detail, closed_up, count_byte,
  repeated, matches_filter, parse_meta_target, shown_target,
}
use srnp.Viewer.Format.Escaping.{all_printable, escape_lem}
use srnp.Viewer.Format.Filtering.{Contains, matches_filter-Contains}

escaped : escape (codes "a\\" ++ 10 ∷ 7 ∷ 255 ∷ []) ≡ codes "a\\\\\\n\\x07\\xff"
unfolding escape escape_byte
escaped = refl

dumped :
    hex_dump (codes "srnp!")
    ≡ codes "00000000  73 72 6e 70 21                                    |srnp!|\n"
unfolding hex_dump hex_lines hex_line hex_columns hex_digits printable_column
dumped = refl

aged : format_age (pos 3725000000001) ≡ codes "1 h 2 m ago"
unfolding format_age format_seconds decimal digits
aged = refl

brief : brief_error (codes "connect (refused [asio:1]") ≡ some (codes "connect (refused)")
unfolding brief_error before_detail closed_up count_byte repeated
brief = refl

-- More brackets are closed than opened: the source's `append` throws.
closed : brief_error (codes "a) [b]") ≡ none
unfolding brief_error before_detail closed_up count_byte repeated
closed = refl

-- An owner id that is out of range is shown as -1.
out_of_range :
    parse_meta_target (codes "(META 99999999999 k)")
    ≡ some (record { owner = negsuc 0; key = codes "k" })
unfolding parse_meta_target shown_target extract_strings words_of split strip_front strip_back
    text_eq from_chars scan
out_of_range = refl

abbrev raw : Text
raw = 7 ∷ 255 ∷ []

escape_lem_example :
    (all_printable (escape raw) ≡ true) × (raw ≡ raw) × (length (escape_truncated raw 5) ≤ 5 + 3)
escape_lem_example = escape_lem raw raw 5 (omega arith) (omega arith) refl

matches_filter-Contains_example :
    (matches_filter (codes "Kitchen.Temp") (codes "temp") ≡ true)
    ↔ Contains (codes "Kitchen.Temp") (codes "temp")
matches_filter-Contains_example = matches_filter-Contains (codes "Kitchen.Temp") (codes "temp")

-- A target that the library reads as well.
named : parse_meta_value (codes "(META 8 t)") ≡ some (record { owner = pos 8; key = codes "t" })
unfolding parse_meta_value target_of parse_int extract_strings words_of split strip_front strip_back
    text_eq from_chars scan
named = refl
