-- ===== src/Session/Tests.antt =====
-- A session on small histories.
use srnp.Base.{◌≡◌, refl, [], ◌∷◌, none, some, pos, codes, arith}
use srnp.Messages.{PairKey}
use srnp.Session.{Session, new_session, send, connect, queue}
use srnp.Session.Connecting.{connect-send}

abbrev session : Session
session = new_session (codes "127.0.0.1") (codes "40000") (pos 7)

abbrev t : PairKey
t = record { owner = pos 7; key = codes "t" }

connect-send_example :
    (connect (send session (1 ∷ []) (some t))).0 ≡ send (connect session).0 (1 ∷ []) (some t)
connect-send_example = connect-send session (1 ∷ []) (some t) refl refl (omega arith)

one_waits :
    (send session (1 ∷ []) none).pending ≡ record { bytes = 1 ∷ []; coalesce_key = none } ∷ []
unfolding send queue
one_waits = refl
