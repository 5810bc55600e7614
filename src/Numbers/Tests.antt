-- ===== src/Numbers/Tests.antt =====
-- Numbers at the edges of an `int`.
use srnp.Base.{◌≡◌, refl, pos, negsuc, codes}
use srnp.Numbers.{
  decimal, digits, int_text, scan, from_chars, invalid_argument, result_out_of_range,
}

smallest : int_text (negsuc 2147483647) ≡ codes "-2147483648"
unfolding int_text decimal digits
smallest = refl

too_large :
    from_chars (pos 5) (codes "2147483648 x")
    ≡ record { value = pos 5; ec = result_out_of_range; rest = codes " x" }
unfolding from_chars scan
too_large = refl

no_number :
    from_chars (pos 5) (codes "-x")
    ≡ record { value = pos 5; ec = invalid_argument; rest = codes "-x" }
unfolding from_chars scan
no_number = refl
