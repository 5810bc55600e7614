-- ===== src/MasterHub/Owners.antt =====
-- src/master_hub.cpp: the owner ids that the master gives out.
use srnp.Base.{
  ℕ, zero, suc, ◌+◌, ◌<◌, ◌≤◌, ◌≡◌, refl, sym, ◌∙◌, true, false, List, [], ◌∷◌, none, some, ℤ, pos,
  Text, if◌then◌else◌, length, lookup, erase, int_order, same, lookup-insert, lookup-insert_self,
  lookup-erase, Option-cases, inl, inr, arith,
}
use srnp.Wire.{ok}
use srnp.Messages.{any_owner, IndicatePresence}
use srnp.MasterHub.{
  HubSession, Hub, free_from, make_owner_id, owner_for, register_component, all_components, leave,
}

length-erase : (k : ℤ) (m : List (ℤ × HubSession)) → length (erase k m) ≤ length m
unfolding erase
length-erase k [] = omega arith
length-erase k ((j, s) ∷ m) = ground (arith, length-erase k m)

length-erase_there :
    (k : ℤ) (m : List (ℤ × HubSession)) {s : HubSession}
    → lookup k m ≡ some s
    → length (erase k m) < length m
unfolding erase lookup
length-erase_there k [] e = cc
length-erase_there k ((j, x) ∷ m) {s = t} e =
    ground (arith, e, length-erase k m, length-erase_there k m {s = t})

-- The search looks at no id below its candidate.
free_from-ge : (fuel n : ℕ) (m : List (ℤ × HubSession)) → n ≤ free_from fuel n m
unfolding free_from
free_from-ge zero n m = omega arith
free_from-ge (suc fuel) n m = ground (arith, free_from-ge fuel (n + 1) m)

pos_injective : {a b : ℕ} → pos a ≡ pos b → a ≡ b
pos_injective e = cc

lookup-erase_other :
    (a b : ℕ) (m : List (ℤ × HubSession))
    → b < a
    → lookup (pos a) (erase (pos b) m) ≡ lookup (pos a) m
lookup-erase_other a b m h =
    let different : same (pos a) (pos b) ≡ false = ground (arith, h) in
    rw (lookup-erase (pos b) (pos a) m, different) refl

free_from-erase :
    (fuel k n : ℕ) (m : List (ℤ × HubSession))
    → k < n
    → free_from fuel n (erase (pos k) m) ≡ free_from fuel n m
unfolding free_from
free_from-erase zero k n m h = refl
free_from-erase (suc fuel) k n m h =
    rw (lookup-erase_other n k m h, free_from-erase fuel k (n + 1) m (omega (arith, h))) refl

free_from-free :
    (fuel n : ℕ) (m : List (ℤ × HubSession))
    → length m < fuel
    → lookup (pos (free_from fuel n m)) m ≡ none
unfolding free_from
free_from-free zero n m enough = absurd (omega (arith, enough))
free_from-free (suc fuel) n m enough = elim (Option-cases (lookup (pos n) m)) [
  | inl free ↦ rw free free
  | inr (s, taken) ↦
      let rest = erase (pos n) m in
      let found =
        free_from-free fuel (n + 1) rest
          (omega (arith, enough, length-erase_there (pos n) m taken)) in
      let same_id = free_from-erase fuel n (n + 1) m (omega arith) in
      rw taken (
        sym (
          lookup-erase_other (free_from fuel (n + 1) m) n m
            (omega (arith, free_from-ge fuel (n + 1) m)))
        ∙ rw same_id at found)
]

make_owner_id-free :
    (draw : ℤ → ℕ) (hub : Hub) (port : Text)
    → lookup (make_owner_id draw hub port) hub.sessions ≡ none
unfolding make_owner_id
make_owner_id-free draw hub port =
    free_from-free (length hub.sessions + 1) (draw _) hub.sessions (omega arith)

owner_for-free :
    (draw : ℤ → ℕ) (hub : Hub) (presence : IndicatePresence)
    → lookup (owner_for draw hub presence) hub.sessions ≡ none
unfolding owner_for
owner_for-free draw hub presence = ground (arith, make_owner_id-free draw hub presence.port)

-- The owner id that a component gets is nobody else's, whatever the generator draws and whether it
-- asked for an id or not: the hub knows the new component under it from then on, the others are as
-- they were, and the welcome names exactly those.
pub register_component-free :
    (draw : ℤ → ℕ) (hub : Hub) (session : HubSession) (presence : IndicatePresence)
    → (lookup (register_component draw hub session presence).1.owner hub.sessions ≡ none)
      × ((j : ℤ)
          → lookup j (register_component draw hub session presence).0.sessions ≡ (
              if same j (register_component draw hub session presence).1.owner
              then some session
              else lookup j hub.sessions))
      × ((register_component draw hub session presence).1.all_components
          ≡ all_components hub.sessions)
unfolding register_component
register_component-free draw hub session presence =
    let free = owner_for-free draw hub presence in
    (free, λ j. rw free (lookup-insert (owner_for draw hub presence) j session hub.sessions), refl)

-- A component that asks for the id -1, when that is free, gets it, and the hub still has it after it
-- has left.
pub leave-register_component :
    (draw : ℤ → ℕ) (hub : Hub) (session : HubSession) (presence : IndicatePresence)
    → presence.force_owner_id ≡ true
    → presence.owner_id ≡ any_owner
    → lookup any_owner hub.sessions ≡ none
    → (leave
          (register_component draw hub session presence).0
          (register_component draw hub session presence).1.owner
        ≡ ok (register_component draw hub session presence).0)
      × (lookup any_owner (register_component draw hub session presence).0.sessions ≡ some session)
unfolding register_component owner_for leave
leave-register_component draw hub session presence force asked free =
    simp (asked, free, force, asked, free) (refl, lookup-insert_self any_owner session hub.sessions)
