-- ===== src/Base/Members.antt =====
-- Lists of owner ids: membership, `std::erase`, and lists without duplicates.
use mathlib.Core.Path.{◌≡◌, refl}
use mathlib.Core.Bool.{Bool, true, false, ◌||◌}
use mathlib.Core.List.{List, [], ◌∷◌, ◌++◌}
use native.Mathlib.Omega.{arith}
use srnp.Base.Tests.{if◌then◌else◌}
use srnp.Base.Ints.{ℤ, ◌==ℤ◌, ==ℤ_iff}

-- `std::ranges::find(xs, a) != xs.end()`
unfoldable pub contains : ℤ → List ℤ → Bool
contains a [] = false
contains a (x ∷ xs) = if x ==ℤ a then true else contains a xs

-- `std::erase(xs, a)`
unfoldable pub erase_all : ℤ → List ℤ → List ℤ
erase_all a [] = []
erase_all a (x ∷ xs) = if x ==ℤ a then erase_all a xs else x ∷ erase_all a xs

abbrev pub Distinct : List ℤ → Type 0
Distinct [] = Unit
Distinct (x ∷ xs) = (contains x xs ≡ false) × Distinct xs

pub contains-append :
    (a b : ℤ) (xs : List ℤ) → contains a (xs ++ b ∷ []) ≡ (contains a xs || (b ==ℤ a))
unfolding contains
contains-append a b [] = ground arith
contains-append a b (x ∷ xs) = ground (arith, contains-append a b xs)

pub contains-erase_all :
    (a b : ℤ) (xs : List ℤ)
    → contains a (erase_all b xs) ≡ (if a ==ℤ b then false else contains a xs)
unfolding contains erase_all
contains-erase_all a b [] = ground arith
contains-erase_all a b (x ∷ xs) =
    ground (arith, ==ℤ_iff x a, ==ℤ_iff x b, ==ℤ_iff a b, contains-erase_all a b xs)

pub Distinct-append :
    (a : ℤ) (xs : List ℤ) → contains a xs ≡ false → Distinct xs → Distinct (xs ++ a ∷ [])
unfolding contains
Distinct-append a [] h d = (refl, tt)
Distinct-append a (x ∷ xs) h d = (
  ground (arith, contains-append x a xs, ==ℤ_iff x a, ==ℤ_iff a x),
  Distinct-append a xs (ground arith) d.1,
)

pub Distinct-erase_all : (a : ℤ) (xs : List ℤ) → Distinct xs → Distinct (erase_all a xs)
unfolding erase_all
Distinct-erase_all a [] d = tt
Distinct-erase_all a (x ∷ xs) d =
    ground (arith, contains-erase_all x a xs, Distinct-erase_all a xs d.1)
