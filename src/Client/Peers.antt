-- ===== src/Client/Peers.antt =====
-- src/client.cpp: the sessions with the other components, as the master names them. `sessions_` holds
-- pointers; a session is under its owner's id as long as the table has it.
use srnp.Base.{true, List, [], ◌∷◌, none, some, ℤ, insert, erase, int_order, nat_order}
use srnp.Messages.{ComponentInfo, Operation, UpdateComponents, MasterMessage}
use srnp.Session.{Session, new_session, connect}
use srnp.Session
use srnp.Client.{Client, session_for}

unfoldable pub add_session : Client → ComponentInfo → Client
add_session c component = record c {
  sessions =
      insert component.owner (new_session component.ip component.port component.owner) c.sessions;
  components = insert component.owner component c.components;
}

-- The session goes out of the tables, and is closed: the second part.
unfoldable pub remove_session : Client → ℤ → Client × List Session
remove_session c owner = (
  record c { sessions = erase owner c.sessions; components = erase owner c.components },
  elim (session_for c owner) [ none ↦ [] | some session ↦ (Session.close session).0 ∷ [] ],
)

unfoldable pub add_sessions : Client → List ComponentInfo → Client
add_sessions c [] = c
add_sessions c (x ∷ xs) = add_sessions (add_session c x) xs

unfoldable pub on_welcome : Client → MasterMessage → Client
on_welcome c welcome =
    record (add_sessions (record c { owner_id = welcome.owner }) welcome.all_components) {
      ready = true;
    }

unfoldable pub on_component_update : Client → UpdateComponents → Client × List Session
on_component_update c update = elim update.operation [
  | Operation.add ↦ (add_session c update.component, [])
  | Operation.remove ↦ remove_session c update.component.owner
]

unfoldable pub close_all : List (ℤ × Session) → List Session
close_all [] = []
close_all ((owner, session) ∷ rest) = (Session.close session).0 ∷ close_all rest

unfoldable pub close : Client → Client × List Session
close c = (record c { sessions = [] }, close_all c.sessions)
