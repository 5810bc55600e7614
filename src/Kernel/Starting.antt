-- ===== src/Kernel/Starting.antt =====
-- src/srnp_kernel.cpp: how a node starts, and what is there if it does not.
use srnp.Base.{
  ℕ, ◌≡◌, refl, ◌∙◌, ap, ◌⊎◌, inl, inr, true, false, List, [], ◌∷◌, some, ℤ, Text, lookup,
  int_order, arith, Option-cases,
}
use srnp.Wire.{Result, ok, err}
use srnp.Messages.{ComponentInfo, MasterMessage}
use srnp.PairSpace.{PairSpace, empty_space}
use srnp.PairSpace.Invariant.{IsSpace}
use srnp.PairSpace.Histories.{run, run_empty-IsSpace}
use srnp.Client.{Client, SubscriptionRecord, new_client}
use srnp.Client.Peers.{add_session, add_sessions, on_welcome}
use srnp.Client.Table.{IsTable, updated, on_welcome-IsTable}
use srnp.MasterLink.{registration, Reply, welcomed, broken, lost, read_reply}
use srnp.Kernel.Calls.{get_owner_id, query}
use srnp.Kernel.{
  Unreachable, no_connection, no_exchange, unreachable, done, thrown, RunningServer, Kernel,
  stopped, Master, is_running, shutdown, Started, welcome_to, register_at, start_server,
  after_start, initialize,
}

-- A node that other calls can use: the client is registered under the id that the server has.
pub record IsNode (kernel : Kernel) : Type 0 where
  pub client : Client
  pub server : RunningServer
  pub has_client : kernel.client_instance ≡ some client
  pub has_server : kernel.server_instance ≡ some server
  pub ready : client.ready ≡ true
  pub same_owner : client.owner_id ≡ server.owner
  pub space : IsSpace client.space
  pub table : IsTable client
  pub no_subscriptions : client.subscriptions ≡ []

abbrev identity : Client → PairSpace × ℤ × List (ℕ × SubscriptionRecord)
identity c = (c.space, c.owner_id, c.subscriptions)

identity-add_sessions :
    (c : Client) (xs : List ComponentInfo) → identity (add_sessions c xs) ≡ identity c
unfolding add_sessions add_session
identity-add_sessions c [] = refl
identity-add_sessions c (x ∷ xs) = identity-add_sessions (add_session c x) xs

new_client-IsTable : IsTable (new_client empty_space)
unfolding lookup
new_client-IsTable owner = refl

abbrev welcomed_client : MasterMessage → Client
welcomed_client welcome = on_welcome (new_client empty_space) welcome

after_start-IsNode :
    (welcome : MasterMessage) (server : RunningServer)
    → welcome.owner ≡ server.owner
    → IsNode (after_start (welcomed_client welcome, done server)).0
unfolding after_start on_welcome run add_sessions updated
after_start-IsNode welcome server e =
    let same_identity =
      identity-add_sessions (record (new_client empty_space) { owner_id = welcome.owner })
        welcome.all_components in
    record {
      client = welcomed_client welcome;
      server = server;
      has_client = refl;
      has_server = refl;
      ready = refl;
      same_owner = ap (λ k. k.1) same_identity ∙ e;
      space = rw (ap (λ k. k.0) same_identity) (run_empty-IsSpace [] (omega arith));
      table =
          (on_welcome-IsTable (new_client empty_space) welcome [] welcome.owner
            new_client-IsTable).0;
      no_subscriptions = ap (λ k. k.2) same_identity;
    }

abbrev Starts : Started → Type 0
Starts s =
    IsNode (after_start s).0 × ((after_start s).1 ≡ done tt)
    ⊎ (why : Unreachable) × (after_start s ≡ (stopped, thrown (unreachable why)))

welcome_to-Starts : (r : Reply) → Starts (welcome_to (new_client empty_space) r)
unfolding after_start shutdown on_welcome
welcome_to-Starts (welcomed welcome rest) = inl (after_start-IsNode welcome _ refl, refl)
welcome_to-Starts (broken e) = inr (no_exchange e, refl)
welcome_to-Starts lost = inr (no_connection, refl)

register_at-Starts :
    (master_ip : Text) (answer : List ℕ → List ℕ) (r : Result (List ℕ))
    → Starts (register_at master_ip (new_client empty_space) answer r)
unfolding after_start shutdown
register_at-Starts master_ip answer (err e) = inr (no_exchange e, refl)
register_at-Starts master_ip answer (ok request) =
    welcome_to-Starts (read_reply master_ip (answer request))

start_server-Starts :
    (master : Master) (our_port : ℕ) (master_ip master_port : Text) (desired : ℤ)
    → Starts (start_server master our_port master_ip master_port (new_client empty_space) desired)
unfolding start_server after_start shutdown
start_server-Starts master our_port master_ip master_port desired =
    elim (Option-cases (master master_ip master_port)) [
      | inl absent ↦ rw (absent, start_server) (inr (no_connection, refl))
      | inr (answer, there) ↦
          rw (there, start_server)
            (register_at-Starts master_ip answer (registration our_port desired))
    ]

-- A process without a node that starts one has a node that is ready, under the owner id of its server
-- and with its bookkeeping in order, or it has none, and is told that the master was not reached; it
-- never waits in vain for the owner id.
pub initialize-IsNode :
    (master : Master) (our_port : ℕ) (kernel : Kernel) (master_ip master_port : Text) (desired : ℤ)
    → is_running kernel ≡ false
    → IsNode (initialize master our_port kernel master_ip master_port desired).0
        × ((initialize master our_port kernel master_ip master_port desired).1 ≡ done tt)
      ⊎ (why : Unreachable) × (initialize master our_port kernel master_ip master_port desired
          ≡ (stopped, thrown (unreachable why)))
unfolding initialize
initialize-IsNode master our_port kernel master_ip master_port desired idle =
    rw idle (start_server-Starts master our_port master_ip master_port desired)

start_server-welcomed :
    (master : Master) (our_port : ℕ) (master_ip master_port : Text) (desired : ℤ)
    → (answer : List ℕ → List ℕ) (request rest : List ℕ) (welcome : MasterMessage)
    → master master_ip master_port ≡ some answer
    → registration our_port desired ≡ ok request
    → read_reply master_ip (answer request) ≡ welcomed welcome rest
    → start_server master our_port master_ip master_port (new_client empty_space) desired
      ≡ (welcomed_client welcome, done (record { owner = welcome.owner; unread = rest }))
unfolding start_server
start_server-welcomed master our_port master_ip master_port desired answer request rest welcome
      there asked answered =
    rw (there, start_server, asked, answered) refl

-- A node starts whenever its master is reached and welcomes it, under the owner id of the welcome.
pub initialize-welcomed :
    (master : Master) (our_port : ℕ) (kernel : Kernel) (master_ip master_port : Text) (desired : ℤ)
    → (answer : List ℕ → List ℕ) (request rest : List ℕ) (welcome : MasterMessage)
    → is_running kernel ≡ false
    → master master_ip master_port ≡ some answer
    → registration our_port desired ≡ ok request
    → read_reply master_ip (answer request) ≡ welcomed welcome rest
    → ((initialize master our_port kernel master_ip master_port desired).1 ≡ done tt)
      × (get_owner_id (initialize master our_port kernel master_ip master_port desired).0
          ≡ done welcome.owner)
unfolding initialize after_start get_owner_id query on_welcome
initialize-welcomed master our_port kernel master_ip master_port desired answer request rest welcome
      idle there asked answered =
    let same_identity =
      identity-add_sessions (record (new_client empty_space) { owner_id = welcome.owner })
        welcome.all_components in
    rw
      (
        idle,
        start_server-welcomed master our_port master_ip master_port desired answer request rest
            welcome there asked answered,
      )
      (refl, ap (λ k. done k.1) same_identity)
