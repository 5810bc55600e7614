-- ===== src/Wire/Words.antt =====
-- include/srnp/wire.h, the integers: bytes lowest first, two's complement, and the byte swap.
use mathlib.Core.List.{reverse, reverse-reverse, reverse-cons}
use native.Mathlib.Nat.{pow-suc, mod-eq_of_lt}
use srnp.Base.{
  ℕ, zero, suc, ◌+◌, ◌*◌, ◌/◌, ◌%◌, ◌^◌, ◌-◌, ◌<◌, ◌≡◌, refl, ap, Bool, true, false, List, [], ◌∷◌,
  ℤ, pos, negsuc, length, All, ltb, arith, lt→ltb, le→ltb_false, length-append, All-append, subst,
  ◌∙◌,
}
use srnp.Wire.{le_bytes, from_le, memory_bytes, to_little_endian, bits, signed}

abbrev pub IsByte : ℕ → Type 0
IsByte b = b < 256

-- The values of an n-byte signed integer.
abbrev pub IsSigned : ℕ → ℤ → Type 0
IsSigned n (pos a) = a < 256 ^ n / 2
IsSigned n (negsuc a) = a < 256 ^ n / 2

pub length-le_bytes : (n v : ℕ) → length (le_bytes n v) ≡ n
unfolding le_bytes
length-le_bytes zero v = refl
length-le_bytes (suc n) v = ap suc (length-le_bytes n (v / 256))

pub le_bytes-IsByte : (n v : ℕ) → All IsByte (le_bytes n v)
unfolding le_bytes
le_bytes-IsByte zero v = tt
le_bytes-IsByte (suc n) v = (omega arith, le_bytes-IsByte n (v / 256))

pub from_le-le_bytes : (n v : ℕ) → v < 256 ^ n → from_le (le_bytes n v) ≡ v
unfolding le_bytes from_le
from_le-le_bytes zero v h = omega arith
from_le-le_bytes (suc n) v h =
    omega (arith, pow-suc 256 n, from_le-le_bytes n (v / 256) (omega (arith, pow-suc 256 n)))

pub from_le_lt : (bs : List ℕ) → All IsByte bs → from_le bs < 256 ^ length bs
unfolding from_le
from_le_lt [] h = omega arith
from_le_lt (b ∷ bs) h = omega (arith, pow-suc 256 (length bs), from_le_lt bs h.1)

pub le_bytes-from_le : (bs : List ℕ) → All IsByte bs → le_bytes (length bs) (from_le bs) ≡ bs
unfolding le_bytes from_le
le_bytes-from_le [] h = refl
le_bytes-from_le (b ∷ bs) h =
    let low : (b + 256 * from_le bs) % 256 ≡ b = omega arith in
    let high : (b + 256 * from_le bs) / 256 ≡ from_le bs = omega arith in
    rw (low, high, le_bytes-from_le bs h.1)

pub bits_lt : (n : ℕ) (a : ℤ) → 0 < 256 ^ n → bits n a < 256 ^ n
unfolding bits
bits_lt n (pos a) h = grind arith
bits_lt n (negsuc a) h = omega arith

pub signed-bits : (n : ℕ) (a : ℤ) → IsSigned n a → signed n (bits n a) ≡ a
unfolding signed bits
signed-bits n (pos a) h =
    let e : a % 256 ^ n ≡ a = mod-eq_of_lt (omega arith) in rw (e, lt→ltb _ _ h)
signed-bits n (negsuc a) h =
    let e : a % 256 ^ n ≡ a = mod-eq_of_lt (omega arith) in
    let big : ltb (256 ^ n - 1 - a) (256 ^ n / 2) ≡ false = le→ltb_false _ _ (omega arith) in
    let back : 256 ^ n - 1 - (256 ^ n - 1 - a) ≡ a = omega arith in rw (e, big, back)

length-reverse {ℓ} : {A : Type ℓ} (xs : List A) → length (reverse xs) ≡ length xs
length-reverse [] = refl
length-reverse (x ∷ xs) =
    omega
      (arith, ap length (reverse-cons x xs), length-append (reverse xs) (x ∷ []), length-reverse xs)

All-reverse {ℓ κ} : {A : Type ℓ} (P : A → Type κ) (xs : List A) → All P xs → All P (reverse xs)
All-reverse P [] h = h
All-reverse P (x ∷ xs) h =
    rw (reverse-cons x xs) (All-append P (reverse xs) (x ∷ []) (All-reverse P xs h.1) (h.0, tt))

-- Reading the bytes of a value in the opposite order swaps them.
swapped : (n v : ℕ) → le_bytes n (from_le (reverse (le_bytes n v))) ≡ reverse (le_bytes n v)
swapped n v =
    let bs = reverse (le_bytes n v) in
    let e : length bs ≡ n = length-reverse (le_bytes n v) ∙ length-le_bytes n v in
    subst (λ k. le_bytes k (from_le bs) ≡ bs) e
      (le_bytes-from_le bs (All-reverse IsByte (le_bytes n v) (le_bytes-IsByte n v)))

-- What a host of either byte order stores for `toLittleEndian(value)` is the value's bytes, lowest
-- first.
pub memory_bytes-to_little_endian :
    (little : Bool) (n v : ℕ) → memory_bytes little n (to_little_endian little n v) ≡ le_bytes n v
unfolding memory_bytes to_little_endian
memory_bytes-to_little_endian true n v = refl
memory_bytes-to_little_endian false n v =
    rw (reverse-reverse, swapped n v) (reverse-reverse (le_bytes n v))
