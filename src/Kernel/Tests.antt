-- ===== src/Kernel/Tests.antt =====
-- Starting a node, and the calls of a process that has none.
use srnp.Base.{
  lookup, int_order, ◌≡◌, ◌⊎◌, refl, sym, false, [], ◌∷◌, some, pos, negsuc, codes, text_eq,
  append-nil, arith,
}
use srnp.Numbers.{from_chars, scan}
use srnp.Messages.{any_owner}
use srnp.Channel.{Frame, received, read}
use srnp.MasterHub.{arrive}
use srnp.MasterLink.{presence_of}
use srnp.MasterLink.Registering.{registering}
use srnp.MasterLink.Examples.{
  draw, hub, welcome, request, reply, built_request, built_reply, registered, short_port,
}
use srnp.Kernel.{
  Master, done, thrown, not_a_number, no_number, Unreachable, unreachable, stopped, is_running,
  desired_owner, initialize,
}
use srnp.Kernel.Calls.{get_owner_id}
use srnp.Kernel.Starting.{IsNode, initialize-IsNode}
use srnp.Kernel.Joining.{initialize-arrive}

last_one :
    desired_owner any_owner
      (codes "--owner-id" ∷ codes "12x" ∷ codes "v" ∷ codes "--owner-id" ∷ codes "-3" ∷ [])
    ≡ done (negsuc 2)
unfolding desired_owner text_eq from_chars scan
last_one = refl

missing : desired_owner any_owner (codes "--owner-id" ∷ []) ≡ thrown no_number
unfolding desired_owner text_eq
missing = refl

no_digits :
    desired_owner any_owner (codes "--owner-id" ∷ codes "x" ∷ [])
    ≡ thrown (not_a_number (codes "x"))
unfolding desired_owner text_eq from_chars scan
no_digits = refl

abbrev answering : Master
answering ip port = some (λ written. reply)

idle : is_running stopped ≡ false
unfolding is_running
idle = refl

initialize-IsNode_example :
    IsNode (initialize answering 40000 stopped (codes "10.0.0.9") (codes "33133") (pos 7)).0
      × ((initialize answering 40000 stopped (codes "10.0.0.9") (codes "33133") (pos 7)).1
          ≡ done tt)
    ⊎ (why : Unreachable) × (initialize answering 40000 stopped
          (codes "10.0.0.9")
          (codes "33133")
          (pos 7)
        ≡ (stopped, thrown (unreachable why)))
initialize-IsNode_example =
    initialize-IsNode answering 40000 stopped (codes "10.0.0.9") (codes "33133") (pos 7) idle

initialize-arrive_example :
    ((initialize answering 40000 stopped (codes "10.0.0.9") (codes "33133") (pos 7)).1 ≡ done tt)
    × (hello : Frame) × (read request ≡ received hello [])
    × (get_owner_id
          (initialize answering 40000 stopped (codes "10.0.0.9") (codes "33133") (pos 7)).0
        ≡ done (arrive draw hub (codes "10.0.0.3") hello).owner)
    × (lookup
          (arrive draw hub (codes "10.0.0.3") hello).owner
          (arrive draw hub (codes "10.0.0.3") hello).hub.sessions
        ≡ some (registering (codes "10.0.0.3") (presence_of 40000 (pos 7))))
initialize-arrive_example =
    initialize-arrive draw hub (codes "10.0.0.3") answering 40000 stopped (codes "10.0.0.9")
      (codes "33133") (pos 7) (λ written. reply) request reply [] welcome short_port (omega arith)
      idle refl built_request registered built_reply (sym (append-nil reply))
