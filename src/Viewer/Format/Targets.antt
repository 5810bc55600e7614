-- ===== src/Viewer/Format/Targets.antt =====
-- gui/format.cpp: the targets of meta-pairs that the viewer shows.
use srnp.Base.{
  ℕ, ◌≡◌, ◌≢◌, refl, sym, ◌∙◌, ap, Bool, true, false, List, [], ◌∷◌, Option, none, some, ℤ, pos,
  Text, codes, text_eq, ◌==◌, if◌then◌else◌, is_empty, Bool-cases, Option-cases, inl, inr,
}
use srnp.Numbers.{
  fits_int, starts_digit, from_chars, Scanned, Errc, fine, invalid_argument, result_out_of_range,
  scan, number_at, stored, opposite,
}
use srnp.Messages.{PairKey, any_owner}
use srnp.MetaValues.{extract_strings, whole, with_owner, parse_int, target_of, parse_meta_value}
use srnp.Viewer.Format.{shown_owner, shown_target, parse_meta_target}

none_is_some {ℓ} : {A : Type ℓ} {a : A} → none ≢ some a
none_is_some e = cc

invalid_fine : invalid_argument ≢ fine
invalid_fine e = cc

stored-fine :
    (old new a : ℤ) (rest : Text)
    → (stored old a rest).ec ≡ fine
    → stored new a rest ≡ stored old a rest
stored-fine old new a rest h = elim (Bool-cases (fits_int a)) [
  | inl fits ↦ rw fits refl
  | inr large ↦ absurd (large_fine (sym (rw large refl) ∙ h))
]
  where
    large_fine : result_out_of_range ≢ fine
    large_fine e = cc

number_at-fine :
    (old new : ℤ) (sign : ℕ → ℤ) (all text : Text)
    → (number_at old sign all text).ec ≡ fine
    → number_at new sign all text ≡ number_at old sign all text
number_at-fine old new sign all text h = elim (Bool-cases (starts_digit text)) [
  | inl digit ↦
      rw digit (stored-fine old new (sign (scan 0 text).0) (scan 0 text).1 (rw digit at h))
  | inr other ↦ absurd (invalid_fine (sym (rw other refl) ∙ h))
]

-- What the variable held is not seen in a number that is read.
from_chars-fine :
    (old new : ℤ) (text : Text)
    → (from_chars old text).ec ≡ fine
    → from_chars new text ≡ from_chars old text
unfolding from_chars
from_chars-fine old new [] h = number_at-fine old new pos [] [] h
from_chars-fine old new (c ∷ cs) h = elim (Bool-cases (c == b'-')) [
  | inl minus ↦ rw minus (number_at-fine old new opposite (c ∷ cs) cs (rw minus at h))
  | inr plain ↦ rw plain (number_at-fine old new pos (c ∷ cs) (c ∷ cs) (rw plain at h))
]

whole-fine :
    (scanned : Scanned) (n : ℤ)
    → whole scanned ≡ some n
    → (scanned.ec ≡ fine) × (scanned.value ≡ n) × (is_empty scanned.rest ≡ true)
whole-fine scanned n h = go scanned.ec (is_empty scanned.rest) h
  where
    go :
        (ec : Errc) (ends : Bool)
        → (elim ec as (λ x. Option ℤ) [
          | fine ↦ if ends then some scanned.value else none
          | _ ↦ none
        ])
          ≡ some n
        → (ec ≡ fine) × (scanned.value ≡ n) × (ends ≡ true)
    go fine true e = (refl, cc, refl)
    go fine false e = absurd (none_is_some e)
    go invalid_argument ends e = absurd (none_is_some e)
    go result_out_of_range ends e = absurd (none_is_some e)

shown_owner-parse_int :
    (key owner : Text) (target : PairKey)
    → with_owner key (parse_int owner) ≡ some target
    → shown_owner key (from_chars any_owner owner) ≡ some target
unfolding parse_int
shown_owner-parse_int key owner target h = elim (Option-cases (parse_int owner)) [
  | inl unread ↦ absurd (none_is_some (sym (ap (with_owner key) unread) ∙ h))
  | inr (n, number) ↦
      let (is_fine, value, ends) = whole-fine (from_chars (pos 0) owner) n number in
      rw (from_chars-fine (pos 0) any_owner owner is_fine, ends, value)
        (sym (ap (with_owner key) number) ∙ h)
]

shown_target-target_of :
    (words : List Text) (target : PairKey)
    → target_of words ≡ some target
    → shown_target words ≡ some target
unfolding target_of shown_target
shown_target-target_of [] target h = absurd (none_is_some h)
shown_target-target_of (a ∷ []) target h = absurd (none_is_some h)
shown_target-target_of (a ∷ b ∷ []) target h = absurd (none_is_some h)
shown_target-target_of (tag ∷ owner ∷ key ∷ []) target h =
    elim (Bool-cases (text_eq tag (codes "META"))) [
      | inl meta ↦ rw meta (shown_owner-parse_int key owner target (rw meta at h))
      | inr other ↦ absurd (none_is_some (rw other at h))
    ]
shown_target-target_of (a ∷ b ∷ c ∷ d ∷ rest) target h = absurd (none_is_some h)

-- The viewer shows the target of a meta-pair that the library follows: a value that names a pair to
-- `getPairIndirectly` names the same one to it.
pub parse_meta_target-parse_meta_value :
    (value : Text) (target : PairKey)
    → parse_meta_value value ≡ some target
    → parse_meta_target value ≡ some target
unfolding parse_meta_value parse_meta_target
parse_meta_target-parse_meta_value value target h =
    shown_target-target_of (extract_strings value) target h
