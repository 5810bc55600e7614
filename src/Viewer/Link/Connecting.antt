-- ===== src/Viewer/Link/Connecting.antt =====
-- gui/srnp_link.cpp: what the window sees of the worker.
use srnp.Base.{
  ℕ, ◌≡◌, refl, ◌⊎◌, inl, inr, Bool, true, false, List, [], ◌∷◌, ℤ, Text, is_some, Bool-cases,
}
use srnp.Kernel.{Master, is_running, initialize}
use srnp.Viewer.Link.{State, SrnpLink, attempt, again, connect_loop}
use srnp.Viewer.Link.Attempts.{IsConnected, attempt-cases}

-- How an attempt leaves the link: connected, or not, and then with an error to show.
abbrev pub Settled : SrnpLink → Type 0
Settled link =
    IsConnected link ⊎ (link.state ≡ State.disconnected) × (is_some link.last_error ≡ true)

attempt-Settled :
    (our_port : ℕ) (master_ip master_port : Text) (desired : ℤ) (link : SrnpLink) (master : Master)
    → Settled (attempt our_port master_ip master_port desired link master).0
unfolding attempt initialize
attempt-Settled our_port master_ip master_port desired link master =
    elim (Bool-cases (is_running link.kernel)) [
      | inl running ↦ rw running (inr (refl, refl))
      | inr idle ↦ elim (attempt-cases our_port master_ip master_port desired link master idle) [
        | inl succeeds ↦ inl succeeds.0
        | inr (unstarted, fails) ↦ inr (fails.0, fails.1)
      ]
    ]

again-Settled :
    (later : SrnpLink → SrnpLink) (r : SrnpLink × Bool)
    → Settled r.0
    → ((link : SrnpLink) → Settled link → Settled (later link))
    → Settled (again later r)
again-Settled later (link, true) settled go_on = settled
again-Settled later (link, false) settled go_on = go_on link settled

loop-Settled :
    (our_port : ℕ) (master_ip master_port : Text) (desired : ℤ) (masters : List Master)
    → (link : SrnpLink) → Settled link
    → Settled (connect_loop our_port master_ip master_port desired masters link)
unfolding connect_loop
loop-Settled our_port master_ip master_port desired [] link settled = settled
loop-Settled our_port master_ip master_port desired (m ∷ ms) link settled =
    again-Settled (connect_loop our_port master_ip master_port desired ms)
      (attempt our_port master_ip master_port desired link m)
      (attempt-Settled our_port master_ip master_port desired link m)
      (loop-Settled our_port master_ip master_port desired ms)

-- Whenever the worker has tried at all and stops, at the first attempt that succeeds or when it is told
-- to, the window either shows a link that is connected, and then the node runs and its client holds the
-- subscription to everything, or one that is not, and then there is an error to show.
pub connect_loop-Settled :
    (our_port : ℕ) (master_ip master_port : Text) (desired : ℤ) (master : Master)
    → (masters : List Master) (link : SrnpLink)
    → Settled (connect_loop our_port master_ip master_port desired (master ∷ masters) link)
unfolding connect_loop
connect_loop-Settled our_port master_ip master_port desired master masters link =
    again-Settled (connect_loop our_port master_ip master_port desired masters)
      (attempt our_port master_ip master_port desired link master)
      (attempt-Settled our_port master_ip master_port desired link master)
      (loop-Settled our_port master_ip master_port desired masters)
