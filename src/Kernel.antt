-- ===== src/Kernel.antt =====
-- include/srnp/srnp_kernel.h and src/srnp_kernel.cpp: the one node of a process. Its pair space is its
-- client's. `Master` is what an address is connected to, if anything, and what comes back on what is
-- written there; `our_port` is the port that the acceptor was given.
pub mod Starting
pub mod Joining
pub mod Calls
mod Tests
use srnp.Base.{
  ℕ, Bool, true, false, not, List, [], ◌∷◌, Option, none, some, ℤ, Text, codes, text_eq,
  if◌then◌else◌, is_some,
}
use srnp.Numbers.{from_chars, fine}
use srnp.Wire.{Error, Result, ok, err}
use srnp.Messages.{any_owner, Pair, PairType, PairKey, ComponentInfo}
use srnp.PairSpace.{Callback, PairEntry, empty_space}
use srnp.Session.{Session}
use srnp.MasterLink.{registration, Reply, welcomed, broken, lost, read_reply}
use srnp.Client.{Client, new_client, valid_only}
use srnp.Client
use srnp.Client.Subscribing
use srnp.Client.Peers.{on_welcome}
use srnp.Client.Peers
use srnp.Client.MetaPairs

-- Why the master was not reached.
pub data Unreachable : Type 0 where
  no_connection : Unreachable
  no_exchange : Error → Unreachable

-- What is thrown: the `InitError`s, and what the client lets through.
pub data Failure : Type 0 where
  already_running no_node no_owner_id no_environment no_number : Failure
  not_a_number : Text → Failure
  unreachable : Unreachable → Failure
  passed_on : Error → Failure

pub data Answer (A : Type 0) : Type 0 where
  done : A → Answer A
  thrown : Failure → Answer A

-- The server that the constructor leaves: its owner id, and what the master sent behind the welcome.
pub record RunningServer : Type 0 where
  pub owner : ℤ
  pub unread : List ℕ

pub record Kernel : Type 0 where
  pub server_instance : Option RunningServer
  pub client_instance : Option Client

abbrev pub stopped : Kernel
stopped = record { server_instance = none; client_instance = none }

abbrev pub Master : Type 0
Master = Text → Text → Option (List ℕ → List ℕ)

unfoldable pub is_running : Kernel → Bool
is_running kernel = is_some kernel.client_instance

-- The sessions that the client closes; the rest of the node is gone.
unfoldable pub shutdown : Kernel → Kernel × List Session
shutdown kernel =
    (stopped, elim kernel.client_instance [ none ↦ [] | some c ↦ (Client.Peers.close c).1 ])

abbrev pub Started : Type 0
Started = Client × Answer RunningServer

abbrev welcome_to : Client → Reply → Started
welcome_to c (welcomed welcome rest) =
    (on_welcome c welcome, done (record { owner = welcome.owner; unread = rest }))
welcome_to c (broken e) = (c, thrown (unreachable (no_exchange e)))
welcome_to c lost = (c, thrown (unreachable no_connection))

abbrev register_at : Text → Client → (List ℕ → List ℕ) → Result (List ℕ) → Started
register_at master_ip c answer (err e) = (c, thrown (unreachable (no_exchange e)))
register_at master_ip c answer (ok request) = welcome_to c (read_reply master_ip (answer request))

-- The constructor of `Server`, as far as the registration; the threads and the loops come after it.
unfoldable pub start_server : Master → ℕ → Text → Text → Client → ℤ → Started
start_server master our_port master_ip master_port c desired_owner_id =
    elim (master master_ip master_port) [
      | none ↦ (c, thrown (unreachable no_connection))
      | some answer ↦ register_at master_ip c answer (registration our_port desired_owner_id)
    ]

-- The end of `initialize`: what the constructor threw, or the wait for the owner id.
unfoldable pub after_start : Started → Kernel × Answer Unit
after_start (c, thrown why) =
    ((shutdown (record { server_instance = none; client_instance = some c })).0, thrown why)
after_start (c, done server) =
    let node : Kernel = record { server_instance = some server; client_instance = some c } in
    if c.ready then (node, done tt) else ((shutdown node).0, thrown no_owner_id)

unfoldable pub initialize : Master → ℕ → Kernel → Text → Text → ℤ → Kernel × Answer Unit
initialize master our_port kernel master_ip master_port desired_owner_id =
    if is_running kernel
    then (kernel, thrown already_running)
    else after_start (
        start_server master our_port master_ip master_port (new_client empty_space)
          desired_owner_id)

-- The number behind each `--owner-id` of the command line, the last one in the end.
unfoldable pub desired_owner : ℤ → List Text → Answer ℤ
desired_owner desired [] = done desired
desired_owner desired (argument ∷ []) =
    if text_eq argument (codes "--owner-id") then thrown no_number else done desired
desired_owner desired (argument ∷ value ∷ arguments) =
    let read = from_chars desired value in
    let next =
      desired_owner (if text_eq argument (codes "--owner-id") then read.value else desired)
        (value ∷ arguments) in
    if text_eq argument (codes "--owner-id")
    then elim read.ec [ fine ↦ next | _ ↦ thrown (not_a_number value) ]
    else next

abbrev initialize_with : Master → ℕ → Kernel → Text → Text → Answer ℤ → Kernel × Answer Unit
initialize_with master our_port kernel master_ip master_port (thrown why) = (kernel, thrown why)
initialize_with master our_port kernel master_ip master_port (done desired) =
    initialize master our_port kernel master_ip master_port desired

-- `initialize(argc, argv)`, on the two variables of the environment and the arguments behind `argv[0]`.
unfoldable pub initialize_from :
    Master → ℕ → Kernel → Option Text → Option Text → List Text → Kernel × Answer Unit
initialize_from master our_port kernel (some master_ip) (some master_port) arguments =
    initialize_with master our_port kernel master_ip master_port (desired_owner any_owner arguments)
initialize_from master our_port kernel _ _ arguments = (kernel, thrown no_environment)
