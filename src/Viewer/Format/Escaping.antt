-- ===== src/Viewer/Format/Escaping.antt =====
-- gui/format.cpp: escaped values.
use srnp.Base.{
  ℕ, zero, suc, ◌+◌, ◌-◌, ◌*◌, ◌/◌, ◌%◌, ◌<◌, ◌≤◌, ◌≡◌, ◌≢◌, refl, sym, ◌∙◌, ap, Bool, true, [],
  ◌∷◌, ◌++◌, Text, codes, All, ◌&&◌, length, take, ltb, ◌==◌, if◌then◌else◌, length-append, arith,
}
use srnp.Viewer.Format.{is_printable, hex_digit, hex_byte, escape_byte, escape, escape_truncated}

abbrev pub IsByte : ℕ → Type 0
IsByte c = c < 256

-- The value of a digit of `{:x}`.
digit_value : ℕ → ℕ
digit_value c = if ltb c b'a' then c - b'0' else c - b'a' + 10

digit_value-hex_digit : (n : ℕ) → n < 16 → digit_value (hex_digit n) ≡ n
unfolding digit_value
digit_value-hex_digit n h = ground (arith, h)

-- The byte at the front of an escaped text, and what is behind it.
hexed : Text → ℕ × Text
hexed (h ∷ l ∷ t) = (digit_value h * 16 + digit_value l, t)
hexed t = (0, t)

escaped : Text → ℕ × Text
escaped [] = (0, [])
escaped (b ∷ t) =
    if b == b'\\'
    then (b'\\', t)
    else if b == b'n'
    then (b'\n', t)
    else if b == b'r'
    then (b'\r', t)
    else if b == b't'
    then (b'\t', t)
    else hexed t

front : Text → ℕ × Text
front [] = (0, [])
front (c ∷ t) = if c == b'\\' then escaped t else (c, t)

hexed-hex_byte : (c : ℕ) (t : Text) → c < 256 → hexed (hex_byte c ++ t) ≡ (c, t)
unfolding hexed
hexed-hex_byte c t h =
    ground (arith, h, digit_value-hex_digit (c / 16), digit_value-hex_digit (c % 16))

front-escape_byte : (c : ℕ) (t : Text) → c < 256 → front (escape_byte c ++ t) ≡ (c, t)
unfolding front escaped escape_byte
front-escape_byte c t h = ground (arith, h, hexed-hex_byte c t)

escape_byte_nonempty : (c : ℕ) (t : Text) → escape_byte c ++ t ≢ []
unfolding escape_byte
escape_byte_nonempty c t e = ground (arith, e)

-- Two values that are shown alike are the same, byte for byte.
escape_injective : (s t : Text) → All IsByte s → All IsByte t → escape s ≡ escape t → s ≡ t
unfolding escape
escape_injective [] [] vs vt e = refl
escape_injective [] (d ∷ t) vs vt e = absurd (escape_byte_nonempty d (escape t) (sym e))
escape_injective (c ∷ s) [] vs vt e = absurd (escape_byte_nonempty c (escape s) e)
escape_injective (c ∷ s) (d ∷ t) (vc, vs) (vd, vt) e =
    let fronts =
      sym (front-escape_byte c (escape s) vc) ∙ (ap front e ∙ front-escape_byte d (escape t) vd) in
    ap2 (ap (λ p. p.0) fronts) (escape_injective s t vs vt (ap (λ p. p.1) fronts))
  where
    ap2 : {x y : ℕ} {xs ys : Text} → x ≡ y → xs ≡ ys → x ∷ xs ≡ y ∷ ys
    ap2 p q = cc

abbrev pub all_printable : Text → Bool
all_printable [] = true
all_printable (c ∷ cs) = is_printable c && all_printable cs

all_printable-append :
    (s t : Text) → all_printable s ≡ true → all_printable t ≡ true → all_printable (s ++ t) ≡ true
all_printable-append [] t hs ht = ht
all_printable-append (c ∷ s) t hs ht = ground (arith, hs, all_printable-append s t, ht)

printable_digit : (n : ℕ) → n < 16 → is_printable (hex_digit n) ≡ true
printable_digit n h = ground (arith, h)

all_printable-escape_byte : (c : ℕ) → c < 256 → all_printable (escape_byte c) ≡ true
unfolding escape_byte
all_printable-escape_byte c h =
    ground (arith, h, printable_digit (c / 16), printable_digit (c % 16))

all_printable-escape : (s : Text) → All IsByte s → all_printable (escape s) ≡ true
unfolding escape
all_printable-escape [] v = refl
all_printable-escape (c ∷ s) (vc, vs) =
    all_printable-append (escape_byte c) (escape s) (all_printable-escape_byte c vc)
      (all_printable-escape s vs)

length-take : (n : ℕ) (s : Text) → length (take n s) ≤ n
length-take zero s = omega arith
length-take (suc n) [] = omega arith
length-take (suc n) (c ∷ s) = omega (arith, length-take n s)

-- What is shown of a value is printable ASCII, whatever its bytes; another value that is shown alike
-- is the same one; and a truncated one is no longer than its limit and the three dots.
pub escape_lem :
    (s t : Text) (max_chars : ℕ)
    → All IsByte s
    → All IsByte t
    → escape s ≡ escape t
    → (all_printable (escape s) ≡ true)
      × (s ≡ t)
      × (length (escape_truncated s max_chars) ≤ max_chars + 3)
unfolding escape_truncated
escape_lem s t max_chars vs vt e = (
  all_printable-escape s vs,
  escape_injective s t vs vt e,
  ground (
    arith,
    length-take max_chars (escape s),
    length-append (take max_chars (escape s)) (codes "..."),
  ),
)
