-- ===== src/MasterHub/Tests.antt =====
-- The master hub with a few components.
use srnp.Base.{
  if◌then◌else◌, ℕ, ◌≡◌, refl, true, false, if◌then◌else◌, [], ◌∷◌, none, some, ℤ, pos, negsuc,
  codes, lookup, same, int_order,
}
use srnp.Numbers.{from_chars, scan}
use srnp.Wire.{ok}
use srnp.Messages.{IndicatePresence, any_owner}
use srnp.MasterHub.{
  HubSession, Hub, port_number, free_from, make_owner_id, owner_for, register_component,
  all_components, leave,
}
use srnp.MasterHub.Owners.{register_component-free, leave-register_component}

-- A generator that always draws the smallest id.
abbrev draw : ℤ → ℕ
draw seed = 1000

abbrev session : HubSession
session = record { address = codes "127.0.0.1"; port = codes "40000" }

abbrev presence : IndicatePresence
presence = record { port = codes "40000"; force_owner_id = false; owner_id = negsuc 0 }

abbrev hub : Hub
hub = record { sessions = (pos 1000, session) ∷ (pos 1001, session) ∷ []; sent = [] }

-- Ids 1000 and 1001 are taken.
next_id : (register_component draw hub session presence).1.owner ≡ pos 1002
unfolding register_component owner_for make_owner_id free_from lookup port_number from_chars scan
next_id = refl

register_component-free_example :
    (lookup (register_component draw hub session presence).1.owner hub.sessions ≡ none)
    × ((j : ℤ)
        → lookup j (register_component draw hub session presence).0.sessions ≡ (
            if same j (register_component draw hub session presence).1.owner
            then some session
            else lookup j hub.sessions))
    × ((register_component draw hub session presence).1.all_components
        ≡ all_components hub.sessions)
register_component-free_example = register_component-free draw hub session presence

abbrev forced : IndicatePresence
forced = record { port = codes "40000"; force_owner_id = true; owner_id = negsuc 0 }

minus_one_free : lookup any_owner hub.sessions ≡ none
unfolding lookup
minus_one_free = refl

leave-register_component_example :
    (leave
        (register_component draw hub session forced).0
        (register_component draw hub session forced).1.owner
      ≡ ok (register_component draw hub session forced).0)
    × (lookup any_owner (register_component draw hub session forced).0.sessions ≡ some session)
leave-register_component_example =
    leave-register_component draw hub session forced refl refl minus_one_free
