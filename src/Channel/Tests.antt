-- ===== src/Channel/Tests.antt =====
-- A channel on small histories.
use srnp.Base.{
  ◌++◌, ◌≡◌, ◌≤◌, ◌⊎◌, refl, true, false, List, ℕ, Bool, [], ◌∷◌, none, some, length, pos, codes,
  arith, text_eq,
}
use srnp.Messages.{PairKey, pair_key_order}
use srnp.Channel.{
  Channel, max_outbox_frames, new_channel, send, send_locked, make_room, enqueue, push,
  next_to_write, take_front,
}
use srnp.Channel.Index.{IsChannel}
use srnp.Channel.Sections.{cleared-IsChannel, send_locked-IsChannel}
use srnp.Channel.Threads.{
  System, Drain, ready, IsSystem, Reach, here, next, sends, takes, idle_system, Reach-idle-IsSystem,
}
use srnp.Channel.Draining.{drain_outbox, accepted, drain_outbox-accepted}
use srnp.Channel.Delivery.{plain_frames, when_plain, IsLast, send-plain_frames}

abbrev t : PairKey
t = record { owner = pos 7; key = codes "t" }

abbrev one_sent : Channel
one_sent = (send_locked new_channel (1 ∷ 2 ∷ []) (some t)).0

one_sent-IsChannel : IsChannel one_sent
one_sent-IsChannel =
    send_locked-IsChannel new_channel (1 ∷ 2 ∷ []) (some t)
      (cleared-IsChannel new_channel false false)

one_sent_open : one_sent.closed ≡ false
unfolding send_locked make_room enqueue push
one_sent_open = refl

send-plain_frames_example :
    ((send one_sent (3 ∷ []) (some t)).0.closed ≡ true)
      × (max_outbox_frames ≤ length (plain_frames one_sent.outbox))
    ⊎ ((send one_sent (3 ∷ []) (some t)).0.closed ≡ false)
      × (plain_frames (send one_sent (3 ∷ []) (some t)).0.outbox
          ≡ plain_frames one_sent.outbox ++ when_plain (some t) (3 ∷ []))
      × IsLast (some t) (3 ∷ []) (send one_sent (3 ∷ []) (some t)).0.outbox
send-plain_frames_example =
    send-plain_frames one_sent (3 ∷ []) (some t) one_sent-IsChannel one_sent_open

-- A send starts the drain, a second one finds it running, and the drain takes the first frame.
abbrev after_one : System
after_one = record {
  channel = (send_locked new_channel (1 ∷ 2 ∷ []) (some t)).0;
  drains = ready ∷ [];
  written = [];
}

abbrev after_two : System
after_two = record {
  channel = (send_locked after_one.channel (3 ∷ []) none).0;
  drains = ready ∷ [];
  written = [];
}

abbrev writing_first : System
writing_first = record {
  channel = (next_to_write after_two.channel).0;
  drains = Drain.writes (1 ∷ 2 ∷ []) ∷ [];
  written = [];
}

run_of_sends : Reach idle_system writing_first
unfolding send_locked make_room enqueue push next_to_write take_front
run_of_sends =
    next (next (next here (sends (1 ∷ 2 ∷ []) (some t) refl)) (sends (3 ∷ []) none refl))
      (takes [] [] refl refl)

Reach-idle-IsSystem_example : IsSystem writing_first × (length writing_first.drains ≤ 1)
Reach-idle-IsSystem_example = Reach-idle-IsSystem run_of_sends

-- The socket takes the first of the two frames and refuses the second.
abbrev takes_first : List ℕ → Bool
takes_first bytes = text_eq bytes (1 ∷ 2 ∷ [])

two_wait : length after_two.channel.outbox ≡ 2
unfolding send_locked make_room enqueue push
two_wait = refl

two_open : after_two.channel.closed ≡ false
unfolding send_locked make_room enqueue push
two_open = refl

drain_outbox-accepted_example :
    ((drain_outbox 3 takes_first after_two.channel).1
      ≡ accepted takes_first after_two.channel.outbox)
    × ((drain_outbox 3 takes_first after_two.channel).0.outbox ≡ [])
    × ((drain_outbox 3 takes_first after_two.channel).0.writing ≡ false)
    × ((drain_outbox 3 takes_first after_two.channel).0.closed ≡ false)
    × ((send (drain_outbox 3 takes_first after_two.channel).0 (5 ∷ []) none).1 ≡ true)
drain_outbox-accepted_example =
    drain_outbox-accepted 3 takes_first after_two.channel (5 ∷ []) none two_open
      (omega (arith, two_wait))
