-- ===== src/Viewer/Link/Attempts.antt =====
-- gui/srnp_link.cpp: one attempt of the worker.
use srnp.Base.{
  ℕ, ◌≡◌, ◌≢◌, ◌∙◌, refl, ◌⊎◌, inl, inr, Bool, true, false, [], none, some, is_some, lookup,
  text_eq, nat_order, ℤ, Text,
}
use srnp.Messages.{any_owner, wildcard_key}
use srnp.Client.{Client}
use srnp.Client.Subscriptions.{holds, holds-register_subscription}
use srnp.Client.Subscribing.{register_subscription, find_record}
use srnp.Client.Standing.{register_subscription-Answered}
use srnp.Wire.{ok, Result}
use srnp.Kernel.{Kernel, Master, Answer, done, thrown, is_running, initialize}
use srnp.Kernel.Calls.{answered, call}
use srnp.Kernel.Calls
use srnp.Kernel.Starting.{initialize-IsNode}
use srnp.Viewer.Link.{
  State, SrnpLink, subscribed_link, subscribe_to_all, attempted, then_subscribe, attempt,
}

-- The node's client holds the subscription to everything.
abbrev pub HoldsAll : Kernel → Type 0
HoldsAll kernel =
    (c : Client) × (kernel.client_instance ≡ some c)
    × (holds any_owner wildcard_key c.subscriptions ≡ true)

abbrev pub IsConnected : SrnpLink → Type 0
IsConnected link =
    (link.state ≡ State.connected)
    × HoldsAll link.kernel
    × (is_running link.kernel ≡ true)
    × (link.subscribed_to_all ≡ true)
    × (link.last_error ≡ none)

-- An attempt that succeeds.
abbrev pub Succeeds : SrnpLink × Bool → Type 0
Succeeds r = IsConnected r.0 × (r.1 ≡ true)

answered-Succeeds :
    (link : SrnpLink) (c : Client) (r : Client × Result ℕ) (handle : ℕ)
    → r.1 ≡ ok handle
    → holds any_owner wildcard_key r.0.subscriptions ≡ true
    → Succeeds (attempted (subscribed_link link (answered link.kernel r)))
unfolding is_running
answered-Succeeds link c (c', ok h) handle e held =
    ((refl, (c', refl, held), refl, refl, refl), refl)
answered-Succeeds link c (c', Result.err x) handle e held = absurd cc

-- A client without subscriptions then holds the one to everything.
holds-everything :
    (c : Client)
    → c.subscriptions ≡ []
    → holds any_owner wildcard_key (register_subscription c any_owner wildcard_key).0.subscriptions
      ≡ true
unfolding lookup find_record text_eq
holds-everything c empty =
    (holds-register_subscription c any_owner any_owner wildcard_key wildcard_key (rw empty refl)).0
    ∙ rw empty refl

subscribe_to_all-Succeeds :
    (link : SrnpLink) (c : Client)
    → link.kernel.client_instance ≡ some c
    → c.subscriptions ≡ []
    → Succeeds (attempted (subscribe_to_all link))
unfolding subscribe_to_all Calls.register_subscription call
subscribe_to_all-Succeeds link c there empty =
    let (handle, e) = register_subscription-Answered c in
    let called : call link.kernel (λ c. register_subscription c any_owner wildcard_key)
        ≡ answered link.kernel (register_subscription c any_owner wildcard_key) =
      simp (there, call) in
    rw called (
      answered-Succeeds link c (register_subscription c any_owner wildcard_key) handle e
        (holds-everything c empty))

then_subscribe-Succeeds :
    (link : SrnpLink) (r : Kernel × Answer Unit) (c : Client)
    → r.0.client_instance ≡ some c
    → c.subscriptions ≡ []
    → r.1 ≡ done tt
    → Succeeds (attempted (then_subscribe link r))
then_subscribe-Succeeds link (kernel, done u) c there empty e =
    subscribe_to_all-Succeeds (record link { kernel = kernel }) c there empty
then_subscribe-Succeeds link (kernel, thrown why) c there empty e = absurd (failed e)
  where
    failed : ¬ thrown why ≡ done tt
    failed h = cc

-- One that fails leaves no node behind.
abbrev pub Fails : SrnpLink × Bool → Type 0
Fails r =
    (r.0.state ≡ State.disconnected)
    × (is_some r.0.last_error ≡ true)
    × (is_running r.0.kernel ≡ false)
    × (r.1 ≡ false)

pub attempt-cases :
    (our_port : ℕ) (master_ip master_port : Text) (desired : ℤ) (link : SrnpLink) (master : Master)
    → is_running link.kernel ≡ false
    → Succeeds (attempt our_port master_ip master_port desired link master)
      ⊎ ((initialize master our_port link.kernel master_ip master_port desired).1 ≢ done tt)
        × Fails (attempt our_port master_ip master_port desired link master)
unfolding attempt is_running
attempt-cases our_port master_ip master_port desired link master idle =
    elim (initialize-IsNode master our_port link.kernel master_ip master_port desired idle) [
      | inl (node, starts) ↦ inl (
          then_subscribe-Succeeds (record link { state = State.connecting })
            (initialize master our_port link.kernel master_ip master_port desired) node.client
            node.has_client node.no_subscriptions starts)
      | inr (why, e) ↦ inr (rw e ((λ h. cc), (refl, refl, refl, refl)))
    ]
