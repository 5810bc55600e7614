-- ===== src/Client/Table.antt =====
-- src/client.cpp: the table of sessions and the list of components, as the master changes them.
use srnp.Base.{
  ◌≡◌, refl, ap, ◌∙◌, Bool, true, false, ◌||◌, List, [], ◌∷◌, ℤ, if◌then◌else◌, is_some, lookup,
  int_order, same, lookup-insert, lookup-erase, arith,
}
use srnp.Messages.{ComponentInfo, Operation, UpdateComponents, MasterMessage}
use srnp.Session.{new_session}
use srnp.Client.{Client}
use srnp.Client.Peers.{add_session, remove_session, add_sessions, on_welcome, on_component_update}

-- A component that is listed has a session, and the other way round.
abbrev pub IsTable : Client → Type 0
IsTable c = (owner : ℤ) → is_some (lookup owner c.sessions) ≡ is_some (lookup owner c.components)

add_session-IsTable : (c : Client) (x : ComponentInfo) → IsTable c → IsTable (add_session c x)
unfolding add_session
add_session-IsTable c x v owner =
    rw
      (
        lookup-insert x.owner owner (new_session x.ip x.port x.owner) c.sessions,
        lookup-insert x.owner owner x c.components,
      )
      (ground (arith, v owner))

add_sessions-IsTable :
    (c : Client) (xs : List ComponentInfo) → IsTable c → IsTable (add_sessions c xs)
unfolding add_sessions
add_sessions-IsTable c [] v = v
add_sessions-IsTable c (x ∷ xs) v =
    add_sessions-IsTable (add_session c x) xs (add_session-IsTable c x v)

remove_session-IsTable : (c : Client) (owner : ℤ) → IsTable c → IsTable (remove_session c owner).0
unfolding remove_session
remove_session-IsTable c gone v owner =
    rw (lookup-erase gone owner c.sessions, lookup-erase gone owner c.components)
      (ground (arith, v owner))

-- Whether the notice is of a component that came.
abbrev pub is_addition : Operation → Bool
is_addition Operation.add = true
is_addition Operation.remove = false

-- The master's messages, one after the other.
unfoldable pub updated : Client → List UpdateComponents → Client
updated c [] = c
updated c (u ∷ us) = updated (on_component_update c u).0 us

updated-IsTable : (c : Client) (us : List UpdateComponents) → IsTable c → IsTable (updated c us)
unfolding updated on_component_update
updated-IsTable c [] v = v
updated-IsTable c (u ∷ us) v = updated-IsTable (on_component_update c u).0 us (once u.operation)
  where
    once : (o : Operation) → IsTable (on_component_update c (record u { operation = o })).0
    once Operation.add = add_session-IsTable c u.component v
    once Operation.remove = remove_session-IsTable c u.component.owner v

-- Whether a component is there after some notices: the last one about it says, else it is as before.
unfoldable pub is_there : ℤ → Bool → List UpdateComponents → Bool
is_there owner before [] = before
is_there owner before (u ∷ us) =
    is_there owner (if same owner u.component.owner then is_addition u.operation else before) us

unfoldable pub is_named : ℤ → List ComponentInfo → Bool
is_named owner [] = false
is_named owner (x ∷ xs) = same owner x.owner || is_named owner xs

lookup-add_session :
    (c : Client) (x : ComponentInfo) (owner : ℤ)
    → is_some (lookup owner (add_session c x).sessions)
      ≡ (same owner x.owner || is_some (lookup owner c.sessions))
unfolding add_session
lookup-add_session c x owner =
    rw (lookup-insert x.owner owner (new_session x.ip x.port x.owner) c.sessions) (ground arith)

lookup-add_sessions :
    (c : Client) (xs : List ComponentInfo) (owner : ℤ)
    → is_some (lookup owner (add_sessions c xs).sessions)
      ≡ (is_named owner xs || is_some (lookup owner c.sessions))
unfolding add_sessions is_named
lookup-add_sessions c [] owner = refl
lookup-add_sessions c (x ∷ xs) owner =
    ground (arith, lookup-add_sessions (add_session c x) xs owner, lookup-add_session c x owner)

lookup-on_component_update :
    (c : Client) (u : UpdateComponents) (owner : ℤ)
    → is_some (lookup owner (on_component_update c u).0.sessions) ≡ (
        if same owner u.component.owner
        then is_addition u.operation
        else is_some (lookup owner c.sessions))
unfolding on_component_update remove_session
lookup-on_component_update c u owner = once u.operation
  where
    once :
        (o : Operation)
        → is_some (lookup owner (on_component_update c (record u { operation = o })).0.sessions) ≡ (
            if same owner u.component.owner
            then is_addition o
            else is_some (lookup owner c.sessions))
    once Operation.add = lookup-add_session c u.component owner ∙ ground arith
    once Operation.remove = rw (lookup-erase u.component.owner owner c.sessions) (ground arith)

lookup-updated :
    (c : Client) (us : List UpdateComponents) (owner : ℤ)
    → is_some (lookup owner (updated c us).sessions)
      ≡ is_there owner (is_some (lookup owner c.sessions)) us
unfolding updated is_there
lookup-updated c [] owner = refl
lookup-updated c (u ∷ us) owner =
    lookup-updated (on_component_update c u).0 us owner
    ∙ ap (λ b. is_there owner b us) (lookup-on_component_update c u owner)

-- After the welcome and any notices of the master, the components that are listed are exactly those
-- that there is a session for. There is one for exactly those that the last notice about them adds, and,
-- without a notice, that the welcome names or that there was one for before.
pub on_welcome-IsTable :
    (c : Client) (welcome : MasterMessage) (us : List UpdateComponents) (owner : ℤ)
    → IsTable c
    → IsTable (updated (on_welcome c welcome) us)
      × (is_some (lookup owner (updated (on_welcome c welcome) us).sessions)
          ≡ is_there owner
              (is_named owner welcome.all_components || is_some (lookup owner c.sessions))
              us)
unfolding on_welcome
on_welcome-IsTable c welcome us owner v =
    let known = record c { owner_id = welcome.owner } in
    (
      updated-IsTable (on_welcome c welcome) us
          (add_sessions-IsTable known welcome.all_components v),
      lookup-updated (on_welcome c welcome) us owner
          ∙ ap (λ b. is_there owner b us) (lookup-add_sessions known welcome.all_components owner),
    )
