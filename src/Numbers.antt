-- ===== src/Numbers.antt =====
-- The decimal numbers that the code prints with `std::format` and `std::to_string` and reads with
-- `std::from_chars`: src/client.cpp, src/meta_pair_callback.cpp, src/master_hub.cpp, src/server.cpp,
-- src/srnp_kernel.cpp and gui/format.cpp.
pub mod RoundTrip
mod Tests
use srnp.Base.{
  ℕ, zero, suc, ◌+◌, ◌-◌, ◌*◌, ◌/◌, ◌%◌, Bool, true, false, ◌&&◌, List, [], ◌∷◌, Option, none, some,
  ℤ, pos, negsuc, Text, leb, ltb, ◌==◌, if◌then◌else◌, is_empty,
}

abbrev pub is_digit : ℕ → Bool
is_digit c = leb b'0' c && leb c b'9'

-- The digits of a number before what is there already; fuel of the number itself is enough.
unfoldable pub digits : ℕ → ℕ → Text → Text
digits zero n out = out
digits (suc fuel) n out = elim (n == 0) [
  | true ↦ out
  | false ↦ digits fuel (n / 10) ((b'0' + n % 10) ∷ out)
]

unfoldable pub decimal : ℕ → Text
decimal n = if n == 0 then b'0' ∷ [] else digits n n []

unfoldable pub int_text : ℤ → Text
int_text (pos n) = decimal n
int_text (negsuc n) = b'-' ∷ decimal (suc n)

-- The digits at the front, as a number behind `n`, and what is behind them.
unfoldable pub scan : ℕ → Text → ℕ × Text
scan n [] = (n, [])
scan n (c ∷ cs) = elim (is_digit c) [ true ↦ scan (n * 10 + (c - b'0')) cs | false ↦ (n, c ∷ cs) ]

abbrev pub starts_digit : Text → Bool
starts_digit [] = false
starts_digit (c ∷ cs) = is_digit c

-- `std::errc`, of those that `from_chars` gives.
pub data Errc : Type 0 where
  fine invalid_argument result_out_of_range : Errc

-- The variable, `ec`, and the text from `ptr` on.
pub record Scanned : Type 0 where
  pub value : ℤ
  pub ec : Errc
  pub rest : Text

abbrev pub max_int : ℕ
max_int = 0x7FFFFFFF

abbrev pub fits_int : ℤ → Bool
fits_int (pos n) = leb n max_int
fits_int (negsuc n) = leb n max_int

abbrev pub opposite : ℕ → ℤ
opposite zero = pos 0
opposite (suc n) = negsuc n

-- A number that does not fit an `int` leaves the variable as it was.
abbrev pub stored : ℤ → ℤ → Text → Scanned
stored old a rest =
    if fits_int a
    then record { value = a; ec = fine; rest = rest }
    else record { value = old; ec = result_out_of_range; rest = rest }

abbrev pub signed_number : ℤ → (ℕ → ℤ) → ℕ × Text → Scanned
signed_number old sign (n, rest) = stored old (sign n) rest

abbrev pub number_at : ℤ → (ℕ → ℤ) → Text → Text → Scanned
number_at old sign whole text =
    if starts_digit text
    then signed_number old sign (scan 0 text)
    else record { value = old; ec = invalid_argument; rest = whole }

-- `from_chars` into an `int` that holds the first argument.
unfoldable pub from_chars : ℤ → Text → Scanned
from_chars old [] = number_at old pos [] []
from_chars old (c ∷ cs) =
    if c == b'-' then number_at old opposite (c ∷ cs) cs else number_at old pos (c ∷ cs) (c ∷ cs)
