-- ===== src/MetaValues/RoundTrip.antt =====
-- A meta-pair's value names the pair that it was written for.
use srnp.Base.{
  ℕ, zero, suc, ◌≡◌, refl, sym, ◌∙◌, ap, Bool, true, false, not, ◌&&◌, ◌||◌, ◌==◌, List, [], ◌∷◌,
  ◌++◌, none, some, ℤ, pos, negsuc, Text, codes, text_eq, ◌==ℤ◌, if◌then◌else◌, is_empty, ◌+◌, ◌%◌,
  ◌/◌, arith, append-nil,
}
use srnp.Numbers.{int_text, decimal, digits, fits_int, fine, from_chars}
use srnp.Numbers.RoundTrip.{from_chars-int_text}
use srnp.Messages.{any_owner}
use srnp.MetaValues.{
  is_paren, strip_front, strip_back, split, words_of, extract_strings, parse_int, target_of,
  parse_meta_value, meta_value, followed_target, parse_followed,
}

-- No space and no parenthesis.
abbrev is_solid : Text → Bool
is_solid [] = true
is_solid (c ∷ cs) = not (c == b' ' || is_paren c) && is_solid cs

abbrev has_space : Text → Bool
has_space [] = false
has_space (c ∷ cs) = c == b' ' || has_space cs

abbrev starts_paren : Text → Bool
starts_paren [] = false
starts_paren (c ∷ cs) = is_paren c

abbrev ends_paren : Text → Bool
ends_paren [] = false
ends_paren (c ∷ []) = is_paren c
ends_paren (c ∷ d ∷ cs) = ends_paren (d ∷ cs)

-- A key that a meta-pair can name: not empty, without spaces, no parenthesis at either end.
abbrev pub is_plain : Text → Bool
is_plain key =
    not (is_empty key) && not (has_space key) && not (starts_paren key) && not (ends_paren key)

split-word :
    (word rest : Text) → has_space word ≡ false → split (word ++ b' ' ∷ rest) ≡ word ∷ split rest
unfolding split
split-word [] rest h = refl
split-word (c ∷ cs) rest h = ground (arith, h, split-word cs rest)

split-last : (word : Text) → has_space word ≡ false → split word ≡ word ∷ []
unfolding split
split-last [] h = refl
split-last (c ∷ cs) h = ground (arith, h, split-last cs)

strip_back-paren : (word : Text) → strip_back (word ++ b')' ∷ []) ≡ strip_back word
unfolding strip_back
strip_back-paren [] = refl
strip_back-paren (c ∷ cs) = ground (arith, strip_back-paren cs)

strip_back-last : (word : Text) → ends_paren word ≡ false → strip_back word ≡ word
unfolding strip_back
strip_back-last [] h = refl
strip_back-last (c ∷ []) h = ground (arith, h)
strip_back-last (c ∷ d ∷ cs) h = ground (arith, h, strip_back-last (d ∷ cs) h)

strip_front-first : (word : Text) → starts_paren word ≡ false → strip_front word ≡ word
unfolding strip_front
strip_front-first [] h = refl
strip_front-first (c ∷ cs) h = ground (arith, h)

solid-has_space : (word : Text) → is_solid word ≡ true → has_space word ≡ false
solid-has_space [] h = refl
solid-has_space (c ∷ cs) h = ground (arith, h, solid-has_space cs)

solid-ends_paren : (word : Text) → is_solid word ≡ true → ends_paren word ≡ false
solid-ends_paren [] h = refl
solid-ends_paren (c ∷ []) h = ground (arith, h)
solid-ends_paren (c ∷ d ∷ cs) h = ground (arith, h, solid-ends_paren (d ∷ cs))

solid-starts_paren : (word : Text) → is_solid word ≡ true → starts_paren word ≡ false
solid-starts_paren [] h = refl
solid-starts_paren (c ∷ cs) h = ground (arith, h)

is_solid-digits :
    (fuel n : ℕ) (out : Text) → is_solid out ≡ true → is_solid (digits fuel n out) ≡ true
unfolding digits
is_solid-digits zero n out h = h
is_solid-digits (suc fuel) n out h =
    ground (arith, h, is_solid-digits fuel (n / 10) ((b'0' + n % 10) ∷ out))

is_solid-decimal : (n : ℕ) → is_solid (decimal n) ≡ true
unfolding decimal
is_solid-decimal n = ground (arith, is_solid-digits n n [])

is_solid-int_text : (a : ℤ) → is_solid (int_text a) ≡ true
unfolding int_text
is_solid-int_text (pos n) = is_solid-decimal n
is_solid-int_text (negsuc n) = is_solid-decimal (suc n)

strip-solid : (word : Text) → is_solid word ≡ true → strip_back (strip_front word) ≡ word
strip-solid word h =
    rw (strip_front-first word (solid-starts_paren word h))
      (strip_back-last word (solid-ends_paren word h))

has_space-append :
    (word tail : Text) → has_space word ≡ false → has_space (word ++ tail) ≡ has_space tail
has_space-append [] tail h = refl
has_space-append (c ∷ cs) tail h = ground (arith, h, has_space-append cs tail)

split-meta_value :
    (owner : ℤ) (key : Text)
    → has_space key ≡ false
    → split (meta_value owner key) ≡ codes "(META" ∷ int_text owner ∷ (key ++ b')' ∷ []) ∷ []
unfolding meta_value
split-meta_value owner key h =
    let closed = key ++ b')' ∷ [] in
    split-word (codes "(META") (int_text owner ++ b' ' ∷ closed) refl
    ∙ ap (codes "(META" ∷◌) (
        split-word (int_text owner) closed
          (solid-has_space (int_text owner) (is_solid-int_text owner))
        ∙ ap (int_text owner ∷◌) (split-last closed (has_space-append key (b')' ∷ []) h)))

is_empty-digits :
    (fuel n : ℕ) (out : Text) → is_empty out ≡ false → is_empty (digits fuel n out) ≡ false
unfolding digits
is_empty-digits zero n out h = h
is_empty-digits (suc fuel) n out h =
    ground (arith, h, is_empty-digits fuel (n / 10) ((b'0' + n % 10) ∷ out))

is_empty-int_text : (a : ℤ) → is_empty (int_text a) ≡ false
unfolding int_text decimal digits
is_empty-int_text (pos zero) = refl
is_empty-int_text (pos (suc n)) =
    ground (arith, is_empty-digits n (suc n / 10) ((b'0' + suc n % 10) ∷ []))
is_empty-int_text (negsuc n) = refl

strip-closed :
    (key : Text) → is_plain key ≡ true → strip_back (strip_front (key ++ b')' ∷ [])) ≡ key
unfolding strip_front
strip-closed [] h = ground (arith, h)
strip-closed (c ∷ cs) h = ground (arith, h, strip_back-paren (c ∷ cs), strip_back-last (c ∷ cs))

words_of-step :
    (part word : Text) (parts : List Text)
    → strip_back (strip_front part) ≡ word
    → is_empty word ≡ false
    → words_of (part ∷ parts) ≡ word ∷ words_of parts
unfolding words_of
words_of-step part word parts e h = ground (arith, e, h)

is_plain-parts :
    (key : Text) → is_plain key ≡ true → (has_space key ≡ false) × (is_empty key ≡ false)
is_plain-parts key h = (ground (arith, h), ground (arith, h))

extract_strings-meta_value :
    (owner : ℤ) (key : Text)
    → is_plain key ≡ true
    → extract_strings (meta_value owner key) ≡ codes "META" ∷ int_text owner ∷ key ∷ []
unfolding extract_strings words_of strip_back strip_front
extract_strings-meta_value owner key h =
    let (spaceless, full) = is_plain-parts key h in
    ap words_of (split-meta_value owner key spaceless)
    ∙ ap (codes "META" ∷◌) (
        words_of-step (int_text owner) (int_text owner) ((key ++ b')' ∷ []) ∷ [])
          (strip-solid (int_text owner) (is_solid-int_text owner)) (is_empty-int_text owner)
        ∙ ap (int_text owner ∷◌)
            (words_of-step (key ++ b')' ∷ []) key [] (strip-closed key h) full))

number-int_text :
    (a : ℤ)
    → fits_int a ≡ true
    → from_chars (pos 0) (int_text a) ≡ record { value = a; ec = fine; rest = [] }
number-int_text a fits =
    ap (from_chars (pos 0)) (sym (append-nil (int_text a)))
    ∙ from_chars-int_text (pos 0) a [] fits refl

-- The value that is written for a meta-pair is read as the owner and the key that it was written for,
-- if the owner is an `int` and the key is not empty, has no space, and neither begins nor ends with a
-- parenthesis; what follows a meta-pair reads the same, except that the null value names nothing.
pub parse_meta_value-meta_value :
    (owner : ℤ) (key : Text)
    → fits_int owner ≡ true
    → is_plain key ≡ true
    → (parse_meta_value (meta_value owner key) ≡ some (record { owner = owner; key = key }))
      × (parse_followed (meta_value owner key) ≡ (
          if owner ==ℤ any_owner && text_eq key (codes "NULL")
          then none
          else some (record { owner = owner; key = key })))
unfolding parse_meta_value parse_followed target_of parse_int followed_target text_eq
parse_meta_value-meta_value owner key fits h =
    rw (extract_strings-meta_value owner key h)
      (rw (number-int_text owner fits) refl, rw (number-int_text owner fits) refl)
