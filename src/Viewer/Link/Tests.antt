-- ===== src/Viewer/Link/Tests.antt =====
-- A viewer that finds no master, and then one.
use srnp.Base.{◌≡◌, refl, false, ◌++◌, [], ◌∷◌, none, some, pos, codes, arith}
use srnp.Messages.{any_owner, MasterMessage}
use srnp.Kernel.{Master, is_running, stopped}
use srnp.MasterHub.{all_components}
use srnp.MasterLink.{all_reachable, welcomed, read_reply}
use srnp.MasterLink.Registering.{read_reply-registration}
use srnp.MasterLink.Examples.{
  draw, hub, welcome, request, reply, built_request, built_reply, registered, short_port,
}
use srnp.Viewer.Link.{new_link, connect_loop}
use srnp.Viewer.Link.Connecting.{Settled, connect_loop-Settled}
use srnp.Viewer.Link.Attempts.{IsConnected}
use srnp.Viewer.Link.Reaching.{connect_loop-welcomed}

abbrev nobody : Master
nobody ip port = none

abbrev answering : Master
answering ip port = some (λ written. reply ++ [])

connect_loop-Settled_example : Settled (
    connect_loop 40000
      (codes "10.0.0.9")
      (codes "33133")
      any_owner
      (nobody ∷ answering ∷ [])
      (new_link stopped))
connect_loop-Settled_example =
    connect_loop-Settled 40000 (codes "10.0.0.9") (codes "33133") any_owner nobody (answering ∷ [])
      (new_link stopped)

idle : is_running stopped ≡ false
unfolding is_running
idle = refl

-- The welcome as the viewer reads it.
abbrev seen : MasterMessage
seen = record {
  owner = pos 7;
  all_components = all_reachable (codes "10.0.0.9") (all_components hub.sessions);
}

replied : read_reply (codes "10.0.0.9") (reply ++ []) ≡ welcomed seen []
replied =
    let (hello, reads, owner, known, replies) =
      read_reply-registration draw hub (codes "10.0.0.3") (codes "10.0.0.9") 40000 (pos 7) welcome
        request reply short_port built_request (omega arith) registered built_reply in
    replies []

connect_loop-welcomed_example : IsConnected (
    connect_loop 40000
      (codes "10.0.0.9")
      (codes "33133")
      (pos 7)
      (nobody ∷ answering ∷ nobody ∷ [])
      (new_link stopped))
connect_loop-welcomed_example =
    connect_loop-welcomed 40000 (codes "10.0.0.9") (codes "33133") (pos 7) (nobody ∷ []) answering
      (nobody ∷ []) (new_link stopped) (λ written. reply ++ []) request [] seen idle refl
      built_request replied
