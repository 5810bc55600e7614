-- ===== src/Viewer/Link.antt =====
-- gui/srnp_link.h and gui/srnp_link.cpp: the viewer's node, which a worker starts and starts again
-- until it runs. Each attempt finds a master or none, which is a list of them here; the worker is told
-- to stop when there are no more.
pub mod Attempts
pub mod Connecting
pub mod Reaching
mod Tests
use srnp.Base.{
  ℕ, zero, suc, Bool, true, false, not, ◌&&◌, ◌||◌, ◌==◌, List, [], ◌∷◌, Option, none, some, ℤ,
  Text, if◌then◌else◌,
}
use srnp.Messages.{any_owner, wildcard_key}
use srnp.Kernel.{Kernel, Master, Answer, done, thrown, Failure, is_running, shutdown, initialize}
use srnp.Kernel.Calls.{register_subscription, cancel_handle}

pub data State : Type 0 where
  disconnected connecting connected : State

-- `last_error` is what was thrown last, from which its text is made.
pub record SrnpLink : Type 0 where
  pub kernel : Kernel
  pub state : State
  pub last_error : Option Failure
  pub subscribed_to_all : Bool
  pub wildcard : ℕ

abbrev pub new_link : Kernel → SrnpLink
new_link kernel = record {
  kernel = kernel;
  state = State.disconnected;
  last_error = none;
  subscribed_to_all = false;
  wildcard = 0;
}

-- A failed call leaves the node that it leaves, and nothing else.
abbrev pub subscribed_link : SrnpLink → Kernel × Answer ℕ → SrnpLink × Answer Unit
subscribed_link link (kernel, thrown why) = (record link { kernel = kernel }, thrown why)
subscribed_link link (kernel, done handle) =
    (record link { kernel = kernel; wildcard = handle; subscribed_to_all = true }, done tt)

unfoldable pub subscribe_to_all : SrnpLink → SrnpLink × Answer Unit
subscribe_to_all link =
    subscribed_link link (register_subscription link.kernel any_owner wildcard_key)

-- What the `catch` of an attempt makes of it; `true` is the return from the loop.
abbrev pub attempted : SrnpLink × Answer Unit → SrnpLink × Bool
attempted (link, thrown why) =
    (record link { state = State.disconnected; last_error = some why }, false)
attempted (link, done u) = (record link { state = State.connected; last_error = none }, true)

abbrev pub then_subscribe : SrnpLink → Kernel × Answer Unit → SrnpLink × Answer Unit
then_subscribe link (kernel, thrown why) = (record link { kernel = kernel }, thrown why)
then_subscribe link (kernel, done u) = subscribe_to_all (record link { kernel = kernel })

unfoldable pub attempt : ℕ → Text → Text → ℤ → SrnpLink → Master → SrnpLink × Bool
attempt our_port master_ip master_port desired link master =
    let trying : SrnpLink = record link { state = State.connecting } in
    attempted
      (then_subscribe trying (initialize master our_port link.kernel master_ip master_port desired))

abbrev pub again : (SrnpLink → SrnpLink) → SrnpLink × Bool → SrnpLink
again later (link, true) = link
again later (link, false) = later link

unfoldable pub connect_loop : ℕ → Text → Text → ℤ → List Master → SrnpLink → SrnpLink
connect_loop our_port master_ip master_port desired [] link = link
connect_loop our_port master_ip master_port desired (master ∷ masters) link =
    again (connect_loop our_port master_ip master_port desired masters)
      (attempt our_port master_ip master_port desired link master)

abbrev pub is_connected : State → Bool
is_connected State.connected = true
is_connected _ = false

abbrev pub unsubscribed_link : SrnpLink → Kernel × Answer Bool → SrnpLink × Answer Unit
unsubscribed_link link (kernel, thrown why) = (record link { kernel = kernel }, thrown why)
unsubscribed_link link (kernel, done gone) =
    (record link { kernel = kernel; wildcard = 0; subscribed_to_all = false }, done tt)

abbrev pub same_bool : Bool → Bool → Bool
same_bool true b = b
same_bool false b = not b

unfoldable pub set_subscribed_to_all : SrnpLink → Bool → SrnpLink × Answer Unit
set_subscribed_to_all link wanted =
    if same_bool wanted link.subscribed_to_all || not (is_connected link.state)
    then (link, done tt)
    else if wanted
    then subscribe_to_all link
    else unsubscribed_link link (cancel_handle link.kernel link.wildcard)

-- The destructor, after the worker has joined: nothing is shut down that does not run.
unfoldable pub close_link : SrnpLink → SrnpLink
close_link link =
    if is_running link.kernel then record link { kernel = (shutdown link.kernel).0 } else link
