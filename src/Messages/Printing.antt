-- ===== src/Messages/Printing.antt =====
-- src/Pair.cpp: a pair as a line for people. `date` is the text that `std::format` makes of a time.
use srnp.Base.{◌++◌, ℤ, pos, Text, codes, ◌==ℤ◌, if◌then◌else◌, ◌≡◌, refl}
use srnp.Numbers.{decimal, digits, int_text}
use srnp.Messages.{PairType, Pair, new_pair}

unfoldable name_of_pair_type : PairType → Text
name_of_pair_type PairType.string = codes "string"
name_of_pair_type PairType.bytes = codes "bytes"
name_of_pair_type PairType.meta = codes "meta"
name_of_pair_type PairType.invalid = codes "invalid"

unfoldable describe : (ℤ → Text) → ℤ → Text
describe date time = if time ==ℤ pos 0 then codes "unset" else date time

unfoldable to_string : (ℤ → Text) → Pair → Text
to_string date p =
    codes "["
    ++ int_text p.owner
    ++ codes "] "
    ++ p.key
    ++ codes " = \""
    ++ p.value
    ++ codes "\" ("
    ++ name_of_pair_type p.type
    ++ codes ", written "
    ++ describe date p.write_time
    ++ codes ")"

new_string :
    (date : ℤ → Text)
    → to_string date (new_pair (pos 7) (codes "temp") (codes "20") PairType.string)
      ≡ codes "[7] temp = \"20\" (string, written unset)"
unfolding to_string name_of_pair_type describe int_text decimal digits
new_string date = refl
