-- ===== src/Channel/Threads.antt =====
-- src/session.cpp: any interleaving of the threads that use one channel. A thread that sends has
-- looked at `closed_` before it takes the lock, so the flag may have been set meanwhile. A drain is
-- between rounds, or waits for the write of a frame.
use srnp.Base.{
  subst, ap, sym, ◌∙◌, ℕ, ◌+◌, ◌≤◌, ◌≡◌, refl, Bool, true, false, List, [], ◌∷◌, ◌++◌, Option, none,
  some, length, length-append, arith,
}
use srnp.Messages.{PairKey, pair_key_order}
use srnp.Channel.{
  Channel, make_room, enqueue, Outcome, start_drain, push, without_oldest, send_locked, take_front,
  next_to_write, write_failed, new_channel,
}
use srnp.Channel.Index.{IsChannel}
use srnp.Channel.Sections.{cleared-IsChannel, send_locked-IsChannel, next_to_write-IsChannel}

pub data Drain : Type 0 where
  ready : Drain
  writes : List ℕ → Drain

-- The channel, its running drains, and the frames that the socket has taken.
pub record System : Type 0 where
  pub channel : Channel
  pub drains : List Drain
  pub written : List (List ℕ)

abbrev started : Outcome → List Drain
started start_drain = ready ∷ []
started _ = []

-- What a drain does with the frame that it took, or with none.
abbrev next_state : Option (List ℕ) → List Drain
next_state none = []
next_state (some bytes) = writes bytes ∷ []

pub data Step (s t : System) : Type 0 where
  sends :
      (frame : List ℕ) (key : Option PairKey)
      → t ≡ record s {
        channel = (send_locked s.channel frame key).0;
        drains = s.drains ++ started (send_locked s.channel frame key).1;
      }
      → Step s t
  sets_closed : t ≡ record s { channel = record s.channel { closed = true } } → Step s t
  clears : t ≡ record s { channel = record s.channel { outbox = []; coalescable = [] } } → Step s t
  takes :
      (before after : List Drain)
      → s.drains ≡ before ++ ready ∷ after
      → t ≡ record s {
        channel = (next_to_write s.channel).0;
        drains = before ++ (next_state (next_to_write s.channel).1 ++ after);
      }
      → Step s t
  finishes :
      (before after : List Drain) (bytes : List ℕ)
      → s.drains ≡ before ++ writes bytes ∷ after
      → t ≡ record s { drains = before ++ ready ∷ after; written = s.written ++ bytes ∷ [] }
      → Step s t
  fails :
      (before after : List Drain) (bytes : List ℕ)
      → s.drains ≡ before ++ writes bytes ∷ after
      → t ≡ record s { channel = write_failed s.channel; drains = before ++ after }
      → Step s t

pub data Reach (s : System) : System → Type 0 where
  here : Reach s s
  next : {t u : System} → Reach s t → Step t u → Reach s u

abbrev pub count : Bool → ℕ
count true = 1
count false = 0

-- `writing_` is set exactly while one drain runs, and there is never a second.
pub record IsSystem (s : System) : Type 0 where
  pub channel : IsChannel s.channel
  pub one_drain : length s.drains ≡ count s.channel.writing

make_room_writing :
    (c : Channel) (key : Option PairKey) (frame : List ℕ)
    → (make_room c key frame).0.writing ≡ c.writing
unfolding make_room without_oldest
make_room_writing c key frame = ground arith

-- A send starts a drain exactly when it sets `writing_`.
send_locked-started :
    (c : Channel) (frame : List ℕ) (key : Option PairKey)
    → count (send_locked c frame key).0.writing
      ≡ count c.writing + length (started (send_locked c frame key).1)
unfolding send_locked enqueue push
send_locked-started c frame key = ground (arith, make_room_writing c key frame)

-- A round of the drain ends it exactly when it resets `writing_`.
next_to_write_state :
    (c : Channel)
    → c.writing ≡ true
    → count (next_to_write c).0.writing ≡ length (next_state (next_to_write c).1)
unfolding next_to_write take_front
next_to_write_state c busy = ground arith

-- A drain that runs is the only one.
alone :
    (busy : Bool) (before after : List Drain) (d : Drain)
    → length (before ++ d ∷ after) ≡ count busy
    → (busy ≡ true) × (length before ≡ 0) × (length after ≡ 0)
alone true before after d e = (
  refl,
  omega (arith, e, length-append before (d ∷ after)),
  omega (arith, e, length-append before (d ∷ after)),
)
alone false before after d e = absurd (omega (arith, e, length-append before (d ∷ after)))

Step-IsSystem : {s t : System} → Step s t → IsSystem s → IsSystem t
unfolding write_failed
Step-IsSystem {s} (sends frame key e) v = subst IsSystem (sym e) (record {
  channel = send_locked-IsChannel s.channel frame key v.channel;
  one_drain = omega (
    arith,
    v.one_drain,
    send_locked-started s.channel frame key,
    length-append s.drains (started (send_locked s.channel frame key).1),
  );
})
Step-IsSystem {s} (sets_closed e) v = subst IsSystem (sym e) (record {
  channel = record {
    bounded = v.channel.bounded;
    ascending = v.channel.ascending;
    index = v.channel.index;
  };
  one_drain = v.one_drain;
})
Step-IsSystem {s} (clears e) v = subst IsSystem (sym e) (record {
  channel = cleared-IsChannel s.channel s.channel.writing s.channel.closed;
  one_drain = v.one_drain;
})
Step-IsSystem {s} (takes before after d e) v = subst IsSystem (sym e) (record {
  channel = next_to_write-IsChannel s.channel v.channel;
  one_drain =
      let (busy, first, last) =
        alone s.channel.writing before after ready (sym (ap length d) ∙ v.one_drain) in
      let state = next_state (next_to_write s.channel).1 in
      omega (
        arith,
        next_to_write_state s.channel busy,
        length-append before (state ++ after),
        length-append state after,
      );
})
Step-IsSystem {s} (finishes before after bytes d e) v = subst IsSystem (sym e) (record {
  channel = v.channel;
  one_drain = omega (
    arith,
    v.one_drain,
    ap length d,
    length-append before (ready ∷ after),
    length-append before (writes bytes ∷ after),
  );
})
Step-IsSystem {s} (fails before after bytes d e) v = subst IsSystem (sym e) (record {
  channel = cleared-IsChannel s.channel false s.channel.closed;
  one_drain =
      let (busy, first, last) =
        alone s.channel.writing before after (writes bytes) (sym (ap length d) ∙ v.one_drain) in
      omega (arith, length-append before after);
})

pub Reach-IsSystem : {s t : System} → IsSystem s → Reach s t → IsSystem t
Reach-IsSystem v here = v
Reach-IsSystem v (next r st) = Step-IsSystem st (Reach-IsSystem v r)

abbrev pub idle_system : System
idle_system = record { channel = new_channel; drains = []; written = [] }

-- However the threads that send, drain and close interleave on a new channel: the queue never holds
-- more than `max_outbox_frames` frames; an index entry is never dangling, and names the newest frame
-- of its key; and `writing_` is set exactly while a drain runs, so that there is never a second drain
-- and no two writes are in flight.
pub Reach-idle-IsSystem : {s : System} → Reach idle_system s → IsSystem s × (length s.drains ≤ 1)
Reach-idle-IsSystem r = let v = Reach-IsSystem idle-IsSystem r in (v, at_most_one _ v.one_drain)
  where
    idle-IsSystem : IsSystem idle_system
    idle-IsSystem = record { channel = cleared-IsChannel new_channel false false; one_drain = refl }

    at_most_one : (busy : Bool) {n : ℕ} → n ≡ count busy → n ≤ 1
    at_most_one true e = omega arith
    at_most_one false e = omega arith
