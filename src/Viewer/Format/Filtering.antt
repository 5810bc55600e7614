-- ===== src/Viewer/Format/Filtering.antt =====
-- gui/format.cpp: the filters, against what they are meant to find.
use srnp.Base.{
  ℕ, suc, ◌≡◌, ◌≢◌, refl, sym, ap, ◌↔◌, true, false, [], ◌∷◌, ◌++◌, Text, map, length, ==_iff,
  is_empty, length-append, Bool-cases, inl, inr, arith,
}
use srnp.Viewer.Format.{lower, begins_with, search_for, matches_filter}

-- A part of the text is the filter, but for the case of its letters.
abbrev pub Contains : Text → Text → Type 0
Contains text filter =
    (before part after : Text) × (text ≡ before ++ (part ++ after))
    × (map lower part ≡ map lower filter)

begins_with_sound :
    (text filter : Text)
    → begins_with text filter ≡ true
    → (part after : Text) × (text ≡ part ++ after) × (map lower part ≡ map lower filter)
unfolding begins_with
begins_with_sound text [] h = ([], text, refl, refl)
begins_with_sound [] (f ∷ fs) h = ground (arith, h)
begins_with_sound (c ∷ cs) (f ∷ fs) h =
    let (part, after, parts, alike) = begins_with_sound cs fs (ground (arith, h)) in
    let first : lower c ≡ lower f = (==_iff (lower c) (lower f)).0 (ground (arith, h)) in
    (c ∷ part, after, rw parts refl, rw (first, alike) refl)

nil_cons : {x : ℕ} {xs : Text} → [] ≢ x ∷ xs
nil_cons e = cc

same_head : {x y : ℕ} {xs ys : Text} → x ∷ xs ≡ y ∷ ys → x ≡ y
same_head e = cc

same_tail : {x y : ℕ} {xs ys : Text} → x ∷ xs ≡ y ∷ ys → xs ≡ ys
same_tail e = cc

begins_with_complete :
    (part after filter : Text)
    → map lower part ≡ map lower filter
    → begins_with (part ++ after) filter ≡ true
unfolding begins_with
begins_with_complete part after [] h = refl
begins_with_complete [] after (f ∷ fs) h = absurd (nil_cons h)
begins_with_complete (c ∷ part) after (f ∷ fs) h =
    rw ((==_iff (lower c) (lower f)).1 (same_head h))
      (begins_with_complete part after fs (same_tail h))

search_for_sound : (text filter : Text) → search_for filter text ≡ true → Contains text filter
unfolding search_for
search_for_sound [] filter h = ground (arith, h)
search_for_sound (c ∷ cs) filter h = elim (Bool-cases (begins_with (c ∷ cs) filter)) [
  | inl here ↦
      let (part, after, parts, alike) = begins_with_sound (c ∷ cs) filter here in
      ([], part, after, parts, alike)
  | inr elsewhere ↦
      let (before, part, after, parts, alike) =
        search_for_sound cs filter (ground (arith, h, elsewhere)) in
      (c ∷ before, part, after, ap (c ∷◌) parts, alike)
]

search_for_complete :
    (before part after filter : Text)
    → is_empty filter ≡ false
    → map lower part ≡ map lower filter
    → search_for filter (before ++ (part ++ after)) ≡ true
unfolding search_for
search_for_complete [] part after [] full h = ground (arith, full)
search_for_complete [] [] after (f ∷ fs) full h = absurd (nil_cons h)
search_for_complete [] (c ∷ part) after (f ∷ fs) full h =
    rw (begins_with_complete (c ∷ part) after (f ∷ fs) h) refl
search_for_complete (b ∷ before) part after filter full h =
    ground (arith, search_for_complete before part after filter full h)

length_same : (part filter : Text) → map lower part ≡ map lower filter → length part ≡ length filter
length_same [] [] h = refl
length_same [] (f ∷ fs) h = absurd (nil_cons h)
length_same (c ∷ part) [] h = absurd (nil_cons (sym h))
length_same (c ∷ part) (f ∷ fs) h = ap suc (length_same part fs (same_tail h))

matches_filter_complete :
    (before part after : Text) (f : ℕ) (fs : Text)
    → map lower part ≡ map lower (f ∷ fs)
    → matches_filter (before ++ (part ++ after)) (f ∷ fs) ≡ true
unfolding matches_filter
matches_filter_complete before part after f fs h = ground (
  arith,
  length_same part (f ∷ fs) h,
  length-append before (part ++ after),
  length-append part after,
  search_for_complete before part after (f ∷ fs) refl h,
)

-- A text passes a filter exactly if the filter is a part of it, but for the case of its letters.
pub matches_filter-Contains :
    (text filter : Text) → (matches_filter text filter ≡ true) ↔ Contains text filter
unfolding matches_filter
matches_filter-Contains text [] = (λ h. ([], [], text, refl, refl), λ found. refl)
matches_filter-Contains text (f ∷ fs) = (
  λ h. search_for_sound text (f ∷ fs) (ground (arith, h)),
  λ (before, part, after, parts, alike).
      rw parts (matches_filter_complete before part after f fs alike),
)
