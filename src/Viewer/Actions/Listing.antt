-- ===== src/Viewer/Actions/Listing.antt =====
-- gui/pair_view.cpp: the tree of the pairs.
use srnp.Base.{
  ◌≡◌, refl, sym, ◌∙◌, ap, false, ◌&&◌, List, [], ◌∷◌, ◌++◌, append_assoc, append-nil, Option, none,
  some, ℤ, ◌==ℤ◌, ==ℤ_iff, if◌then◌else◌, lookup, int_order, same_iff, lookup-insert,
  lookup-insert_self, Bool-cases, inl, inr, arith,
}
use srnp.Messages.{Pair}
use srnp.Viewer.Actions.{PairView, passes, or_empty, rows_of, push_row, by_owner}

-- What the filters leave of an owner's pairs, in the order of the snapshot.
unfoldable pub matching : PairView → ℤ → List Pair → List Pair
matching view owner [] = []
matching view owner (p ∷ ps) =
    let rest = matching view owner ps in
    if passes view p && (p.owner ==ℤ owner) then p ∷ rest else rest

-- An owner without rows has no place in the tree.
abbrev pub listed : List Pair → Option (List Pair)
listed [] = none
listed (p ∷ ps) = some (p ∷ ps)

listed-push : (ps : List Pair) (p : Pair) → listed (ps ++ p ∷ []) ≡ some (ps ++ p ∷ [])
listed-push [] p = refl
listed-push (q ∷ ps) p = refl

or_empty-listed : (ps : List Pair) → or_empty (listed ps) ≡ ps
or_empty-listed [] = refl
or_empty-listed (p ∷ ps) = refl

push_row-own :
    (p : Pair) (owner : ℤ) (rows : List (ℤ × List Pair)) (ps : List Pair)
    → p.owner ≡ owner
    → lookup owner rows ≡ listed ps
    → lookup owner (push_row p rows) ≡ listed (ps ++ p ∷ [])
push_row-own p owner rows ps own e =
    let there : rows_of p.owner rows ≡ ps =
      ap (λ o. rows_of o rows) own ∙ (ap or_empty e ∙ or_empty-listed ps) in
    ap (λ o. lookup o (push_row p rows)) (sym own)
    ∙ (lookup-insert_self p.owner (rows_of p.owner rows ++ p ∷ []) rows
        ∙ (ap (λ qs. some (qs ++ p ∷ [])) there ∙ sym (listed-push ps p)))

push_row-others :
    (p : Pair) (owner : ℤ) (rows : List (ℤ × List Pair))
    → (p.owner ==ℤ owner) ≡ false
    → lookup owner (push_row p rows) ≡ lookup owner rows
push_row-others p owner rows others = ground (
  arith,
  others,
  ==ℤ_iff p.owner owner,
  same_iff owner p.owner,
  lookup-insert p.owner owner (rows_of p.owner rows ++ p ∷ []) rows,
)

by_owner-from :
    (view : PairView) (owner : ℤ) (pairs before : List Pair) (rows : List (ℤ × List Pair))
    → lookup owner rows ≡ listed before
    → lookup owner (by_owner view rows pairs) ≡ listed (before ++ matching view owner pairs)
unfolding by_owner matching
by_owner-from view owner [] before rows e = rw (append-nil before) e
by_owner-from view owner (p ∷ ps) before rows e = elim (Bool-cases (passes view p)) [
  | inr hidden ↦ rw hidden (by_owner-from view owner ps before rows e)
  | inl shown ↦ elim (Bool-cases (p.owner ==ℤ owner)) [
    | inr others ↦
        rw (shown, others)
          (by_owner-from view owner ps before (push_row p rows)
            (push_row-others p owner rows others ∙ e))
    | inl own ↦
        let pushed = push_row-own p owner rows before ((==ℤ_iff p.owner owner).0 own) e in
        rw (shown, own, ← append_assoc before (p ∷ []) (matching view owner ps))
          (by_owner-from view owner ps (before ++ p ∷ []) (push_row p rows) pushed)
  ]
]

-- The tree has a branch for exactly the owners of which the filters leave a pair, and in it their pairs
-- that are left, in the order of the snapshot.
pub lookup-by_owner :
    (view : PairView) (owner : ℤ) (pairs : List Pair)
    → lookup owner (by_owner view [] pairs) ≡ listed (matching view owner pairs)
unfolding lookup
lookup-by_owner view owner pairs = by_owner-from view owner pairs [] [] refl
