-- ===== src/MetaTrackers/Retargeting.antt =====
-- src/meta_pair_callback.cpp: a tracked meta-pair that says something new.
use srnp.Base.{
  sym, ap, none, true, ◌≡◌, ◌≢◌, refl, List, Option, some, ◌⊎◌, inl, inr, ℤ, lookup, same_iff,
  lookup-insert, lookup-insert_self, Bool-cases, arith,
}
use srnp.Messages.{pair_key_eq_sound, Pair, PairKey, key_of, pair_key_order}
use srnp.MetaValues.{parse_followed}
use srnp.Client.{Client}
use srnp.Kernel.{Answer, done, thrown, Failure}
use srnp.MetaTrackers.{
  MetaTracker, Tracking, Held, retarget, same_target, put_back, on_meta_pair_changed,
}
use srnp.MetaTrackers.Serving.{IsReady, Leaves, Turned, retarget-Leaves}

same_target_path : (a b : Option PairKey) → same_target a b ≡ true → b ≡ a
unfolding same_target
same_target_path none none e = refl
same_target_path none (some b) e = ground (arith, e)
same_target_path (some a) none e = ground (arith, e)
same_target_path (some a) (some b) e = ap some (sym (pair_key_eq_sound a b e))

abbrev working : Tracking → MetaTracker → Held
working s tracker = record { kernel = s.kernel; tracker = tracker }

-- How a change of a tracked meta-pair goes: it throws, or the tracker is turned to the target, at the
-- client of the node.
abbrev pub Retargeted :
    Client → MetaTracker → PairKey → Option PairKey → Tracking × Answer Unit → Type 0
Retargeted c0 tracker key target r =
    ((why : Failure) × (r.1 ≡ thrown why))
    ⊎ (t : MetaTracker) × (c : Client) × (r.1 ≡ done tt)
      × (lookup key r.0.trackers ≡ some t)
      × (r.0.kernel.client_instance ≡ some c)
      × Turned c0 tracker target c t

put_back-Retargeted :
    (c0 : Client) (tracker : MetaTracker) (key : PairKey) (trackers : List (PairKey × MetaTracker))
    (target : Option PairKey) (r : Held × Answer Unit)
    → Leaves (Turned c0 tracker target) r
    → Retargeted c0 tracker key target (put_back key trackers r)
put_back-Retargeted c0 tracker key trackers target (held, thrown why) v = inl (why, refl)
put_back-Retargeted c0 tracker key trackers target (held, done u) (c, there, turned) =
    inr (held.tracker, c, refl, lookup-insert_self key held.tracker trackers, there, turned)

put_back-others :
    (key k : PairKey) (trackers : List (PairKey × MetaTracker)) (r : Held × Answer Unit)
    → k ≢ key
    → lookup k (put_back key trackers r).0.trackers ≡ lookup k trackers
put_back-others key k trackers (held, answer) distinct =
    ground (arith, distinct, same_iff k key, lookup-insert key k held.tracker trackers)

-- When a meta-pair that is tracked changes, on a node in order that has room for one subscription and
-- one callback more, nothing happens if it names the pair that is followed. Otherwise, unless a call of
-- the node throws, its tracker is turned to the pair that it names now, or to none. The subscription of
-- the old pair is gone then, and no other. Without a new pair the old callback is called no more; with
-- one, that pair is subscribed to, besides what was, under the handle that the tracker has, or was
-- already, and the tracker's callback, if it has one, is called for it by the handle that it has. The
-- other trackers are as they were, also when a call throws.
pub on_meta_pair_changed-Retargeted :
    (s : Tracking) (now : ℤ) (metapair : Pair) (tracker : MetaTracker) (c : Client) (k : PairKey)
    → lookup (key_of metapair) s.trackers ≡ some tracker
    → s.kernel.client_instance ≡ some c
    → IsReady c
    → k ≢ key_of metapair
    → ((tracker.target ≡ parse_followed metapair.value)
          × (on_meta_pair_changed s now metapair ≡ (s, done tt))
        ⊎ Retargeted c tracker
            (key_of metapair)
            (parse_followed metapair.value)
            (on_meta_pair_changed s now metapair))
      × (lookup k (on_meta_pair_changed s now metapair).0.trackers ≡ lookup k s.trackers)
unfolding on_meta_pair_changed
on_meta_pair_changed-Retargeted s now metapair tracker c k tracked there ready distinct =
    let target = parse_followed metapair.value in
    elim (Bool-cases (same_target target tracker.target)) [
      | inl same_one ↦
          rw (tracked, on_meta_pair_changed, same_one)
            (inl (same_target_path target tracker.target same_one, refl), refl)
      | inr elsewhere ↦
          rw (tracked, on_meta_pair_changed, elsewhere)
            (
              inr (
                  put_back-Retargeted c tracker (key_of metapair) s.trackers target
                    (retarget now target (working s tracker))
                    (retarget-Leaves now target (working s tracker) c there ready)),
              put_back-others (key_of metapair) k s.trackers
                  (retarget now target (working s tracker)) distinct,
            )
    ]
