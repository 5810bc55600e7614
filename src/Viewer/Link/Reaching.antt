-- ===== src/Viewer/Link/Reaching.antt =====
-- gui/srnp_link.cpp: the worker reaches a master that is there.
use srnp.Base.{ℕ, ◌≡◌, ◌⊎◌, inl, inr, Bool, true, false, List, [], ◌∷◌, ◌++◌, some, ℤ, Text}
use srnp.Messages.{MasterMessage}
use srnp.Wire.{ok}
use srnp.MasterLink.{registration, welcomed, read_reply}
use srnp.Kernel.{Master, is_running}
use srnp.Kernel.Starting.{initialize-welcomed}
use srnp.Viewer.Link.{SrnpLink, attempt, again, connect_loop}
use srnp.Viewer.Link.Attempts.{IsConnected, Succeeds, Fails, attempt-cases}

-- The loop ends with the first attempt that succeeds, and goes on after one that fails.
again-IsConnected :
    (later : SrnpLink → SrnpLink) (r : SrnpLink × Bool)
    → Succeeds r ⊎ Fails r
    → ((link : SrnpLink) → is_running link.kernel ≡ false → IsConnected (later link))
    → IsConnected (again later r)
again-IsConnected later (link, true) (inl succeeds) go_on = succeeds.0
again-IsConnected later (link, false) (inl succeeds) go_on = absurd cc
again-IsConnected later (link, true) (inr fails) go_on = absurd cc
again-IsConnected later (link, false) (inr fails) go_on = go_on link fails.2

-- Once one of the masters that the worker tries is reached and welcomes it, the worker ends, there or
-- before, with a link that is connected, a node that runs and whose client holds the subscription to
-- everything, and no error to show, whatever became of the attempts before it and whatever would come after.
pub connect_loop-welcomed :
    (our_port : ℕ) (master_ip master_port : Text) (desired : ℤ) (before : List Master)
    → (master : Master) (after : List Master) (link : SrnpLink) (answer : List ℕ → List ℕ)
    → (request rest : List ℕ) (welcome : MasterMessage) → is_running link.kernel ≡ false
    → master master_ip master_port ≡ some answer
    → registration our_port desired ≡ ok request
    → read_reply master_ip (answer request) ≡ welcomed welcome rest
    → IsConnected
        (connect_loop our_port master_ip master_port desired (before ++ master ∷ after) link)
unfolding connect_loop
connect_loop-welcomed our_port master_ip master_port desired [] master after link answer request
      rest welcome idle there asked replied =
    let starts =
      (initialize-welcomed master our_port link.kernel master_ip master_port desired answer request
        rest welcome idle there asked replied).0 in
    elim (attempt-cases our_port master_ip master_port desired link master idle) [
      | inl succeeds ↦ rw succeeds.1 succeeds.0
      | inr (unstarted, fails) ↦ absurd (unstarted starts)
    ]
connect_loop-welcomed our_port master_ip master_port desired (m ∷ before) master after link answer
      request rest welcome idle there asked replied =
    again-IsConnected
      (connect_loop our_port master_ip master_port desired (before ++ master ∷ after))
      (attempt our_port master_ip master_port desired link m)
      (elim (attempt-cases our_port master_ip master_port desired link m idle) [
        | inl succeeds ↦ inl succeeds
        | inr (unstarted, fails) ↦ inr fails
      ])
      (λ next still_idle.
        connect_loop-welcomed our_port master_ip master_port desired before master after next answer
          request rest welcome still_idle there asked replied)
