-- ===== src/Viewer/Format.antt =====
-- gui/format.cpp: what the viewer shows of values, ages and errors. `formatTime` is a date of
-- `std::format`, and is not here.
pub mod Escaping
pub mod Filtering
pub mod Targets
mod Tests
use srnp.Base.{
  ℕ, zero, suc, ◌+◌, ◌-◌, ◌*◌, ◌/◌, ◌%◌, Bool, true, false, ◌&&◌, List, [], ◌∷◌, ◌++◌, Option, none,
  some, ℤ, pos, negsuc, Text, codes, text_eq, leb, ltb, ◌==◌, if◌then◌else◌, is_empty, length, take,
  drop,
}
use srnp.Numbers.{decimal, from_chars, Scanned}
use srnp.Messages.{PairType, PairKey, any_owner}
use srnp.MetaValues.{extract_strings}

abbrev pub is_printable : ℕ → Bool
is_printable byte = leb 0x20 byte && ltb byte 0x7F

-- A digit of `{:x}`.
abbrev pub hex_digit : ℕ → ℕ
hex_digit n = if ltb n 10 then b'0' + n else b'a' + (n - 10)

abbrev pub hex_byte : ℕ → Text
hex_byte byte = hex_digit (byte / 16) ∷ hex_digit (byte % 16) ∷ []

unfoldable pub escape_byte : ℕ → Text
escape_byte byte =
    if byte == b'\\'
    then b'\\' ∷ b'\\' ∷ []
    else if byte == b'\n'
    then b'\\' ∷ b'n' ∷ []
    else if byte == b'\r'
    then b'\\' ∷ b'r' ∷ []
    else if byte == b'\t'
    then b'\\' ∷ b't' ∷ []
    else if is_printable byte
    then byte ∷ []
    else b'\\' ∷ b'x' ∷ hex_byte byte

unfoldable pub escape : Text → Text
escape [] = []
escape (c ∷ cs) = escape_byte c ++ escape cs

unfoldable pub escape_truncated : Text → ℕ → Text
escape_truncated value max_chars =
    let text = escape value in
    if leb (length text) max_chars then text else take max_chars text ++ codes "..."

abbrev pub bytes_per_line : ℕ
bytes_per_line = 16

-- `{:08x}`, at an offset below 2 ^ 32: a value is no longer than a payload.
unfoldable pub hex_digits : ℕ → ℕ → Text → Text
hex_digits zero n out = out
hex_digits (suc width) n out = hex_digits width (n / 16) (hex_digit (n % 16) ∷ out)

abbrev pub hex_column : Text → Text
hex_column [] = codes "   "
hex_column (c ∷ cs) = hex_byte c ++ codes " "

-- The columns that are left of a line, with a gap before the last eight.
unfoldable pub hex_columns : ℕ → Text → Text
hex_columns zero line = []
hex_columns (suc left) line =
    hex_column line
    ++ (if left == bytes_per_line / 2 then codes " " else [])
    ++ hex_columns left (drop 1 line)

unfoldable pub printable_column : Text → Text
printable_column [] = []
printable_column (c ∷ cs) = (if is_printable c then c else b'.') ∷ printable_column cs

unfoldable pub hex_line : ℕ → Text → Text
hex_line start line =
    hex_digits 8 start []
    ++ codes "  "
    ++ hex_columns bytes_per_line line
    ++ codes " |"
    ++ printable_column line
    ++ codes "|\n"

-- The lines from `start` on; fuel of the number of bytes is enough.
unfoldable pub hex_lines : ℕ → ℕ → Text → Text
hex_lines zero start bytes = []
hex_lines (suc fuel) start bytes =
    let rest = hex_lines fuel (start + bytes_per_line) (drop bytes_per_line bytes) in
    if is_empty bytes then [] else hex_line start (take bytes_per_line bytes) ++ rest

unfoldable pub hex_dump : Text → Text
hex_dump bytes = hex_lines (length bytes) 0 bytes

-- An age is a count of nanoseconds.
unfoldable pub format_seconds : ℕ → Text
format_seconds total =
    if ltb total 60
    then decimal total ++ codes " s ago"
    else if ltb total 3600
    then decimal (total / 60) ++ codes " m " ++ decimal (total % 60) ++ codes " s ago"
    else if ltb total 86400
    then decimal (total / 3600) ++ codes " h " ++ decimal (total % 3600 / 60) ++ codes " m ago"
    else decimal (total / 86400) ++ codes " d " ++ decimal (total % 86400 / 3600) ++ codes " h ago"

unfoldable pub format_age : ℤ → Text
format_age (negsuc n) = codes "in the future"
format_age (pos n) = if ltb n 1000000000 then codes "just now" else format_seconds (n / 1000000000)

-- The number has to end where the word does; the error code is not looked at.
abbrev pub shown_owner : Text → Scanned → Option PairKey
shown_owner key scanned =
    if is_empty scanned.rest then some (record { owner = scanned.value; key = key }) else none

unfoldable pub shown_target : List Text → Option PairKey
shown_target (tag ∷ owner ∷ key ∷ []) =
    if text_eq tag (codes "META") then shown_owner key (from_chars any_owner owner) else none
shown_target _ = none

unfoldable pub parse_meta_target : Text → Option PairKey
parse_meta_target value = shown_target (extract_strings value)

-- The text up to the first ` [`.
unfoldable pub before_detail : Text → Option Text
before_detail [] = none
before_detail (c ∷ []) = none
before_detail (c ∷ d ∷ cs) =
    let rest = before_detail (d ∷ cs) in
    if (c == b' ') && (d == b'[')
    then some []
    else elim rest [ none ↦ none | some text ↦ some (c ∷ text) ]

unfoldable pub count_byte : ℕ → Text → ℕ
count_byte byte [] = 0
count_byte byte (c ∷ cs) = let n = count_byte byte cs in if c == byte then suc n else n

unfoldable pub repeated : ℕ → ℕ → Text
repeated byte zero = []
repeated byte (suc n) = byte ∷ repeated byte n

-- With more brackets closed than opened, the difference wraps and `append` throws `length_error`.
unfoldable pub closed_up : Text → Option Text
closed_up brief =
    let opened = count_byte b'(' brief in
    let closed = count_byte b')' brief in
    if leb closed opened then some (brief ++ repeated b')' (opened - closed)) else none

unfoldable pub brief_error : Text → Option Text
brief_error what = elim (before_detail what) [ none ↦ some what | some brief ↦ closed_up brief ]

-- `std::tolower` in the C locale.
abbrev pub lower : ℕ → ℕ
lower c = if leb b'A' c && leb c b'Z' then c + 32 else c

unfoldable pub begins_with : Text → Text → Bool
begins_with text [] = true
begins_with [] (f ∷ fs) = false
begins_with (c ∷ cs) (f ∷ fs) = (lower c == lower f) && begins_with cs fs

-- `std::ranges::search`: whether it finds the filter.
unfoldable pub search_for : Text → Text → Bool
search_for filter [] = false
search_for filter (c ∷ cs) =
    let later = search_for filter cs in if begins_with (c ∷ cs) filter then true else later

unfoldable pub matches_filter : Text → Text → Bool
matches_filter text filter =
    if is_empty filter
    then true
    else if ltb (length text) (length filter)
    then false
    else search_for filter text

unfoldable pub name_of_type : PairType → Text
name_of_type PairType.string = codes "String"
name_of_type PairType.bytes = codes "Bytes"
name_of_type PairType.meta = codes "Meta"
name_of_type PairType.invalid = codes "Invalid"
