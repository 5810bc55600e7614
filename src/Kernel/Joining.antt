-- ===== src/Kernel/Joining.antt =====
-- src/srnp_kernel.cpp and src/master_hub.cpp together: a node that starts at a running master.
use srnp.Base.{
  append-nil, lookup, int_order, ap, sym, ◌∙◌, ℕ, ◌≡◌, false, List, [], ◌++◌, some, ℤ, Text,
}
use srnp.Wire.{ok, MessageType, frame_of}
use srnp.Messages.{MasterMessage}
use srnp.Codec.{encode_master_message}
use srnp.Codec.RoundTrip.{IsPresence, IsMasterMessage}
use srnp.Channel.{Frame, received, read}
use srnp.MasterHub.{Hub, all_components, register_component, arrive}
use srnp.MasterLink.{all_reachable, welcomed, presence_of, registration, read_reply}
use srnp.MasterLink.Registering.{registering, read_reply-registration}
use srnp.Kernel.{done, Kernel, Master, is_running, initialize}
use srnp.Kernel.Calls.{get_owner_id}
use srnp.Kernel.Starting.{initialize-welcomed}

-- A process without a node starts one at a master that it reaches and that answers with the welcome
-- of its hub, and whatever comes later: the start succeeds, and the node has the owner id under which
-- the hub, once it has read the request, has its session.
pub initialize-arrive :
    (draw : ℤ → ℕ) (hub : Hub) (address : Text) (master : Master) (our_port : ℕ) (kernel : Kernel)
    → (master_ip master_port : Text) (desired : ℤ) (answer : List ℕ → List ℕ)
    → (request reply rest : List ℕ) (welcome : MasterMessage)
    → IsPresence (presence_of our_port desired)
    → IsMasterMessage welcome
    → is_running kernel ≡ false
    → master master_ip master_port ≡ some answer
    → registration our_port desired ≡ ok request
    → (register_component draw hub
        (registering address (presence_of our_port desired))
        (presence_of our_port desired)).1
      ≡ welcome
    → frame_of MessageType.master_message (encode_master_message welcome) ≡ ok reply
    → answer request ≡ reply ++ rest
    → ((initialize master our_port kernel master_ip master_port desired).1 ≡ done tt)
      × (hello : Frame) × (read request ≡ received hello [])
      × (get_owner_id (initialize master our_port kernel master_ip master_port desired).0
          ≡ done (arrive draw hub address hello).owner)
      × (lookup (arrive draw hub address hello).owner (arrive draw hub address hello).hub.sessions
          ≡ some (registering address (presence_of our_port desired)))
initialize-arrive draw hub address master our_port kernel master_ip master_port desired answer
      request reply rest welcome vp vm idle there asked registers built answers =
    let (hello, reads, owner, known, replies) =
      read_reply-registration draw hub address master_ip our_port desired welcome request reply vp
        asked vm registers built in
    let replied : read_reply master_ip (answer request)
        ≡ welcomed
            (record {
              owner = welcome.owner;
              all_components = all_reachable master_ip (all_components hub.sessions);
            })
            rest =
      rw answers (replies rest) in
    let (starts, id) =
      initialize-welcomed master our_port kernel master_ip master_port desired answer request rest
        (record {
          owner = welcome.owner;
          all_components = all_reachable master_ip (all_components hub.sessions);
        })
        idle there asked replied in
    (starts, hello, ap read (sym (append-nil request)) ∙ reads [], rw owner id, rw owner known)
