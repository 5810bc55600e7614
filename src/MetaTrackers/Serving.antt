-- ===== src/MetaTrackers/Serving.antt =====
-- src/meta_pair_callback.cpp: what the node does for a tracker, in its subscriptions and callbacks.
use srnp.Base.{
  ℕ, ◌≡◌, subst, refl, sym, ap, ◌∙◌, ◌⊎◌, inl, inr, true, List, Option, none, some, ℤ, ◌==◌, lookup,
  erase, nat_order, Bool-cases, arith, if◌then◌else◌,
}
use srnp.Wire.Results.{ok_injective}
use srnp.Wire.{Result, ok, err}
use srnp.Messages.{PairKey}
use srnp.PairSpace.{Callback}
use srnp.Client.{Client, SubscriptionRecord}
use srnp.Client
use srnp.Client.Subscriptions.{holds}
use srnp.Kernel.{Kernel, Answer, done, thrown}
use srnp.Kernel.Calls
use srnp.Kernel.Calls.{answered, call}
use srnp.MetaTrackers.{
  MetaTracker, Held, Move, proceed, before, after_call, release_callback, release_subscription,
  forget_target, release_target, subscribe_to, watch, acquire_target, retarget,
}
use srnp.MetaTrackers.Subscriptions.{
  IsFree, HoldsOneMore, cancel_handle_lem, register_subscription_lem,
}
use srnp.MetaTrackers.Callbacks.{
  IsUncalled, IsRoomy, callback_for, cancel_callback_lem, register_callback_lem,
}

-- A node in order, that has room for another subscription and another callback.
abbrev pub IsReady : Client → Type 0
IsReady c = IsFree c × IsRoomy c.space

-- What holds of the node's client and the tracker after a move, unless it throws.
abbrev pub Leaves : (Client → MetaTracker → Type 0) → Held × Answer Unit → Type 0
Leaves Q (held, thrown why) = Unit
Leaves Q (held, done u) = (c : Client) × (held.kernel.client_instance ≡ some c) × Q c held.tracker

pub before-Leaves :
    (Q R : Client → MetaTracker → Type 0) (first next : Move) (held : Held)
    → Leaves Q (first held)
    → ((h : Held) (c : Client)
        → h.kernel.client_instance ≡ some c
        → Q c h.tracker
        → Leaves R (next h))
    → Leaves R (before first next held)
unfolding before
before-Leaves Q R first next held done_first go_on = go (first held) done_first
  where
    go : (r : Held × Answer Unit) → Leaves Q r → Leaves R (proceed next r)
    go (held', thrown why) q = tt
    go (held', done u) (c, there, q) = go_on held' c there q

call-Leaves :
    {A : Type 0} (Q : Client → MetaTracker → Type 0) (tracker : MetaTracker)
    (keep : A → MetaTracker) (kernel : Kernel) (c : Client) (method : Client → Client × Result A)
    → kernel.client_instance ≡ some c
    → ((a : A) → (method c).1 ≡ ok a → Q (method c).0 (keep a))
    → Leaves Q (after_call tracker keep (call kernel method))
unfolding after_call call
call-Leaves {A = A} Q tracker keep kernel c method there q = rw (there, call) (go (method c) q)
  where
    go :
        (r : Client × Result A)
        → ((a : A) → r.1 ≡ ok a → Q r.0 (keep a))
        → Leaves Q (after_call tracker keep (answered kernel r))
    go (c', ok a) q = (c', refl, q a refl)
    go (c', err e) q = tt

-- A handle that a tracker had calls nothing any more, if it is one.
abbrev pub Uncalled : ℕ → Client → Type 0
Uncalled handle c = (handle ≡ 0) ⊎ IsUncalled c.space handle

-- The subscriptions without the one under a handle, if it is one.
abbrev pub without : ℕ → List (ℕ × SubscriptionRecord) → List (ℕ × SubscriptionRecord)
without handle subscriptions = if handle == 0 then subscriptions else erase handle subscriptions

abbrev Unwatched : Client → MetaTracker → Client → MetaTracker → Type 0
Unwatched c0 old c t =
    IsReady c
    × Uncalled old.target_callback c
    × (c.subscriptions ≡ c0.subscriptions)
    × (t.target_callback ≡ 0)
    × (t.target_subscription ≡ old.target_subscription)
    × (t.fn ≡ old.fn)

release_callback-Leaves :
    (held : Held) (c : Client)
    → held.kernel.client_instance ≡ some c
    → IsReady c
    → Leaves (Unwatched c held.tracker) (release_callback held)
unfolding release_callback Calls.cancel_callback Client.cancel_callback
release_callback-Leaves held c there (free, roomy) =
    elim (Bool-cases (held.tracker.target_callback == 0)) [
      | inl unset ↦
          let none_set : held.tracker.target_callback ≡ 0 = ground (arith, unset) in
          rw (unset, release_callback)
            (c, there, ((free, roomy), inl none_set, refl, none_set, refl, refl))
      | inr set ↦
          rw (set, release_callback)
            (call-Leaves (Unwatched c held.tracker) held.tracker _ held.kernel c _ there (λ a made.
              let (gone, roomy', same_table, same_next) =
                cancel_callback_lem c held.tracker.target_callback roomy in
              ((free, roomy'), inr gone, refl, refl, refl, refl)))
    ]

-- Nothing is done for a tracker any more: its callback is gone, and its subscription and no other.
abbrev pub Released : Client → MetaTracker → Client → MetaTracker → Type 0
Released c0 old c t =
    IsReady c
    × Uncalled old.target_callback c
    × (c.subscriptions ≡ without old.target_subscription c0.subscriptions)
    × (t.target_callback ≡ 0)
    × (t.target_subscription ≡ 0)
    × (t.fn ≡ old.fn)

release_subscription-Leaves :
    (c0 : Client) (old : MetaTracker) (held : Held) (c : Client)
    → held.kernel.client_instance ≡ some c
    → Unwatched c0 old c held.tracker
    → Leaves (Released c0 old) (release_subscription held)
unfolding release_subscription Calls.cancel_handle
release_subscription-Leaves c0 old held c there ((free, roomy), gone, same_table, unset, kept, fn) =
    elim (Bool-cases (held.tracker.target_subscription == 0)) [
      | inl none_set ↦
          rw (none_set, release_subscription)
            (
              c,
              there,
              (
                (free, roomy),
                gone,
                same_table ∙ rw (rw kept at none_set) refl,
                unset,
                ground (arith, none_set),
                fn,
              ),
            )
      | inr set ↦
          let (erased, same_space, free') =
            cancel_handle_lem c held.tracker.target_subscription free in
          rw (set, release_subscription)
            (call-Leaves (Released c0 old) held.tracker _ held.kernel c _ there (λ a made. (
              (free', rw same_space roomy),
              rw same_space gone,
              erased ∙ rw (same_table, kept) (rw (rw kept at set) refl),
              unset,
              refl,
              fn,
            )))
    ]

abbrev pub LetGo : Client → MetaTracker → Client → MetaTracker → Type 0
LetGo c0 old c t = Released c0 old c t × (t.target ≡ none)

pub release_target-Leaves :
    (held : Held) (c : Client)
    → held.kernel.client_instance ≡ some c
    → IsReady c
    → Leaves (LetGo c held.tracker) (release_target held)
unfolding release_target forget_target
release_target-Leaves held c there ready =
    before-Leaves (Unwatched c held.tracker) (LetGo c held.tracker) release_callback _ held
      (release_callback-Leaves held c there ready)
      (λ h c1 there1 unwatched.
        before-Leaves (Released c held.tracker) (LetGo c held.tracker) release_subscription
          forget_target h (release_subscription-Leaves c held.tracker h c1 there1 unwatched)
          (λ h2 c2 there2 released. (c2, there2, (released, refl))))

-- The callback of a tracker, if it has one, is called for its target, by the handle that it has.
abbrev pub Watches : Client → Option Callback → PairKey → ℕ → Type 0
Watches c none k handle = Unit
Watches c (some fn) k handle = callback_for c.space k handle ≡ some fn

-- The target is subscribed to, besides what was, under the handle that the tracker has, or by somebody
-- else already; and its callback is called for it.
abbrev pub Serves :
    List (ℕ × SubscriptionRecord) → Option Callback → PairKey → Client → MetaTracker → Type 0
Serves earlier fn k c t =
    HoldsOneMore earlier k.owner k.key c.subscriptions
    × ((lookup t.target_subscription c.subscriptions
          ≡ some (record { owner = k.owner; key = k.key }))
        ⊎ (t.target_subscription ≡ 0) × (holds k.owner k.key earlier ≡ true))
    × Watches c fn k t.target_callback

-- The target is subscribed to already, and not watched yet.
abbrev Subscribed :
    List (ℕ × SubscriptionRecord) → Option Callback → PairKey → Client → MetaTracker → Type 0
Subscribed earlier fn k c t =
    IsRoomy c.space
    × (t.target ≡ some k)
    × (t.fn ≡ fn)
    × HoldsOneMore earlier k.owner k.key c.subscriptions
    × ((lookup t.target_subscription c.subscriptions
          ≡ some (record { owner = k.owner; key = k.key }))
        ⊎ (t.target_subscription ≡ 0) × (holds k.owner k.key earlier ≡ true))

subscribe_to-Leaves :
    (k : PairKey) (held : Held) (c : Client)
    → held.kernel.client_instance ≡ some c
    → IsReady c
    → Leaves (Subscribed c.subscriptions held.tracker.fn k) (subscribe_to k held)
unfolding subscribe_to Calls.register_subscription
subscribe_to-Leaves k held c there (free, roomy) =
    call-Leaves (Subscribed c.subscriptions held.tracker.fn k) _ _ held.kernel c _ there
      (λ handle made.
        let (held_now, same_space, kept) =
          register_subscription_lem c k.owner k.key handle free made in
        (rw same_space roomy, refl, refl, held_now, kept))

abbrev pub Acquired :
    List (ℕ × SubscriptionRecord) → Option Callback → PairKey → Client → MetaTracker → Type 0
Acquired earlier fn k c t = (t.target ≡ some k) × Serves earlier fn k c t

watch-Leaves :
    (now : ℤ) (earlier : List (ℕ × SubscriptionRecord)) (fn : Option Callback) (k : PairKey)
    (held : Held) (c : Client)
    → held.kernel.client_instance ≡ some c
    → Subscribed earlier fn k c held.tracker
    → Leaves (Acquired earlier fn k) (watch now k held)
unfolding watch Calls.register_callback
watch-Leaves now earlier none k held c there (roomy, aimed, fn, held_now, kept) =
    rw (fn, watch) (c, there, (aimed, (held_now, kept, tt)))
watch-Leaves now earlier (some callback) k held c there (roomy, aimed, fn, held_now, kept) =
    let (called, same_table) = register_callback_lem c now k callback roomy in
    rw (fn, watch)
      (call-Leaves (Acquired earlier (some callback) k) held.tracker _ held.kernel c _ there
        (λ handle made.
          let same_handle : (Client.register_callback c now k.owner k.key callback).1 ≡ handle =
            ok_injective made in
          (
            aimed,
            (
              rw same_table held_now,
              rw same_table kept,
              ap (callback_for (Client.register_callback c now k.owner k.key callback).0.space k)
                    (sym same_handle)
                  ∙ called,
            ),
          )))

pub acquire_target-Leaves :
    (now : ℤ) (k : PairKey) (held : Held) (c : Client)
    → held.kernel.client_instance ≡ some c
    → IsReady c
    → Leaves (Acquired c.subscriptions held.tracker.fn k) (acquire_target now k held)
unfolding acquire_target
acquire_target-Leaves now k held c there ready =
    before-Leaves (Subscribed c.subscriptions held.tracker.fn k)
      (Acquired c.subscriptions held.tracker.fn k) (subscribe_to k) (watch now k) held
      (subscribe_to-Leaves k held c there ready)
      (λ h c1 there1 subscribed.
        watch-Leaves now c.subscriptions held.tracker.fn k h c1 there1 subscribed)

-- How a tracker is served once it was turned from what it had to a target, or to none: it has nothing
-- any more; or what it had is gone but for what the new target needs.
abbrev pub Turned : Client → MetaTracker → Option PairKey → Client → MetaTracker → Type 0
Turned c0 old none c t = LetGo c0 old c t
Turned c0 old (some k) c t =
    Acquired (without old.target_subscription c0.subscriptions) old.fn k c t

pub retarget-Leaves :
    (now : ℤ) (target : Option PairKey) (held : Held) (c : Client)
    → held.kernel.client_instance ≡ some c
    → IsReady c
    → Leaves (Turned c held.tracker target) (retarget now target held)
unfolding retarget
retarget-Leaves now none held c there ready = release_target-Leaves held c there ready
retarget-Leaves now (some k) held c there ready =
    before-Leaves (LetGo c held.tracker) (Turned c held.tracker (some k)) release_target
      (acquire_target now k) held (release_target-Leaves held c there ready)
      (λ h c1 there1 (released, none_now).
        let (ready1, gone, table, unset, unsubscribed, same_fn) = released in
        subst
          (λ fn.
            Leaves (Acquired (without held.tracker.target_subscription c.subscriptions) fn k)
              (acquire_target now k h))
          same_fn
          (subst (λ earlier. Leaves (Acquired earlier h.tracker.fn k) (acquire_target now k h))
            table (acquire_target-Leaves now k h c1 there1 ready1)))
