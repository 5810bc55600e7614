-- ===== src/Numbers/RoundTrip.antt =====
-- Numbers that are printed and read back.
use srnp.Base.{
  ℕ, zero, suc, ◌+◌, ◌/◌, ◌%◌, ◌≤◌, ◌≡◌, refl, true, false, [], ◌∷◌, ◌++◌, ℤ, pos, negsuc, Text,
  arith,
}
use srnp.Numbers.{
  digits, decimal, int_text, scan, starts_digit, fine, fits_int, number_at, from_chars,
}

-- The last digit, behind the others.
scan_last : (n : ℕ) (out : Text) → scan (n / 10) ((b'0' + n % 10) ∷ out) ≡ scan n out
unfolding scan
scan_last n out = ground arith

scan-digits :
    (fuel n : ℕ) (out rest : Text)
    → n ≤ fuel
    → scan 0 (digits fuel n out ++ rest) ≡ scan n (out ++ rest)
unfolding digits
scan-digits zero n out rest h = ground (arith, h)
scan-digits (suc fuel) n out rest h =
    ground
      (arith, scan-digits fuel (n / 10) ((b'0' + n % 10) ∷ out) rest, scan_last n (out ++ rest))

starts_digit-digits :
    (fuel n : ℕ) (out rest : Text)
    → starts_digit (out ++ rest) ≡ true
    → starts_digit (digits fuel n out ++ rest) ≡ true
unfolding digits
starts_digit-digits zero n out rest h = h
starts_digit-digits (suc fuel) n out rest h =
    ground (arith, h, starts_digit-digits fuel (n / 10) ((b'0' + n % 10) ∷ out) rest)

scan-none : (n : ℕ) (rest : Text) → starts_digit rest ≡ false → scan n rest ≡ (n, rest)
unfolding scan
scan-none n [] h = refl
scan-none n (c ∷ cs) h = ground (arith, h)

scan-decimal :
    (n : ℕ) (rest : Text) → starts_digit rest ≡ false → scan 0 (decimal n ++ rest) ≡ (n, rest)
unfolding decimal scan
scan-decimal zero rest h = scan-none 0 rest h
scan-decimal (suc n) rest h =
    ground (arith, scan-digits (suc n) (suc n) [] rest, scan-none (suc n) rest h)

starts_digit-decimal : (n : ℕ) (rest : Text) → starts_digit (decimal n ++ rest) ≡ true
unfolding decimal digits
starts_digit-decimal zero rest = refl
starts_digit-decimal (suc n) rest =
    ground (arith, starts_digit-digits n (suc n / 10) ((b'0' + suc n % 10) ∷ []) rest)

from_chars-starts_digit :
    (old : ℤ) (text : Text)
    → starts_digit text ≡ true
    → from_chars old text ≡ number_at old pos text text
unfolding from_chars
from_chars-starts_digit old [] h = refl
from_chars-starts_digit old (c ∷ cs) h = ground (arith, h)

-- A number in front of text that is no digit is read back, whatever the variable held.
pub from_chars-int_text :
    (old a : ℤ) (rest : Text)
    → fits_int a ≡ true
    → starts_digit rest ≡ false
    → from_chars old (int_text a ++ rest) ≡ record { value = a; ec = fine; rest = rest }
unfolding from_chars int_text
from_chars-int_text old (pos n) rest fits h = ground (
  arith,
  fits,
  from_chars-starts_digit old (decimal n ++ rest),
  starts_digit-decimal n rest,
  scan-decimal n rest h,
)
from_chars-int_text old (negsuc n) rest fits h =
    ground (arith, fits, starts_digit-decimal (suc n) rest, scan-decimal (suc n) rest h)
