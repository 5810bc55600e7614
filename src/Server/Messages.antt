-- ===== src/Server/Messages.antt =====
-- src/server.cpp: what the handlers answer to subscriptions, updates and removals.
use srnp.Base.{
  ℕ, ◌≡◌, ◌≢◌, refl, ap, ◌∙◌, ◌⊎◌, inl, inr, Bool, true, false, ◌&&◌, ◌||◌, List, [], ◌∷◌, Option,
  none, some, ℤ, Text, ◌==ℤ◌, text_eq, same, ==ℤ_iff, text_eq_iff, arith, if◌then◌else◌, lookup,
  int_order, map_option, contains, Distinct, Option-cases, lookup-insert_self, subst,
}
use srnp.Wire.{Error, Result, ok, err, MessageType, frame_of}
use srnp.Messages.{wildcard_key, Pair, PairKey, Subscription, key_of, pair_key_order}
use srnp.Codec.{encode_pair}
use srnp.Session.{Session}
use srnp.Session
use srnp.PairSpace.{
  PairEntry, PairSpace, pair_key, find, copy_of, added_entry, entry_or_placeholder,
  add_subscription, with_subscriber,
}
use srnp.PairSpace.Subscribers.{subscribed, subscribed-add_subscription}
use srnp.Client.{valid_only, get_pair}
use srnp.Client.Fanning.{lookup-fan_out_pair}
use srnp.Server.{
  Server, space_of, with_space, current_pair, send_updates, subscribe, obey_subscription,
}
use srnp.Server.Spaces.{space-subscribe}

-- A subscription to one of our keys, from somebody else.
abbrev pub IsAccepted : Server → Subscription → Type 0
IsAccepted s m =
    (m.key ≢ wildcard_key)
    × (m.owner_id ≡ s.owner)
    × (m.subscriber ≢ s.owner)
    × (m.registering ≡ true)

obey_subscription-subscribe :
    (s : Server) (now : ℤ) (m : Subscription)
    → m.owner_id ≡ s.owner
    → m.subscriber ≢ s.owner
    → m.registering ≡ true
    → obey_subscription s now m ≡ subscribe s now m
unfolding obey_subscription
obey_subscription-subscribe s now m ours other starts =
    ground (arith, (==ℤ_iff m.owner_id s.owner).1 ours, other, ==ℤ_iff m.subscriber s.owner, starts)

-- How a pair is sent to a new subscriber: it is too large for a frame, which is thrown and reaches
-- nobody, or its frame goes into that session, under the pair's key, and into no other. No pair, no frame.
abbrev pub Greets : List (ℤ × Session) → ℤ → Option Pair → Server × Result Bool → Type 0
Greets sessions a none r = (r.1 ≡ ok true) × (r.0.client.sessions ≡ sessions)
Greets sessions a (some p) r =
    ((e : Error) × (frame_of MessageType.pair_update (encode_pair p) ≡ err e)
      × (r.1 ≡ err e)
      × (r.0.client.sessions ≡ sessions))
    ⊎ (frame : List ℕ) × (frame_of MessageType.pair_update (encode_pair p) ≡ ok frame)
      × (r.1 ≡ ok true)
      × ((b : ℤ)
          → lookup b r.0.client.sessions ≡ (
              if b ==ℤ a
              then map_option (λ s. Session.send s frame (some (key_of p))) (lookup b sessions)
              else lookup b sessions))

abbrev listed : Option Pair → List Pair
listed none = []
listed (some p) = p ∷ []

send_updates-Greets :
    (s : Server) (a : ℤ) (held : Option Pair)
    → Greets s.client.sessions a held (send_updates s (listed held) a)
unfolding send_updates contains
send_updates-Greets s a none = (refl, refl)
send_updates-Greets s a (some p) = elim (lookup-fan_out_pair s.client p (a ∷ []) one_only) [
  | inl (e, large, thrown) ↦
      inl (e, large, rw (thrown, send_updates) refl, rw (thrown, send_updates) refl)
  | inr (frame, client, built, sent, there) ↦ inr (
    frame,
    built,
    rw (sent, send_updates) refl,
    λ b. rw (sent, send_updates) (there b ∙ ground (arith, ==ℤ_iff b a)),
  )
]
  where
    one_only : Distinct (a ∷ [])
    one_only = (refl, tt)

pair-with_subscriber : (a : ℤ) (entry : PairEntry) → (with_subscriber a entry).pair ≡ entry.pair
pair-with_subscriber a entry = ground arith

-- A placeholder reads as no pair.
read-entry_or_placeholder :
    (space : PairSpace) (now owner : ℤ) (key : Text)
    → valid_only (some (entry_or_placeholder space now owner key).pair)
      ≡ valid_only (copy_of space owner key)
unfolding entry_or_placeholder copy_of valid_only added_entry
read-entry_or_placeholder space now owner key = elim (Option-cases (find space owner key)) [
  | inl absent ↦
      rw (absent, copy_of, entry_or_placeholder, added_entry) (rw (absent, added_entry) refl)
  | inr (there, found) ↦ rw (found, copy_of, entry_or_placeholder) refl
]

copy_of-add_subscription :
    (space : PairSpace) (now owner : ℤ) (key : Text) (a : ℤ)
    → copy_of (add_subscription space now owner key a) owner key
      ≡ some (with_subscriber a (entry_or_placeholder space now owner key)).pair
unfolding add_subscription copy_of find
copy_of-add_subscription space now owner key a =
    rw
      (
        lookup-insert_self (pair_key owner key)
            (with_subscriber a (entry_or_placeholder space now owner key)) space.pairs,
        copy_of,
      )
      refl

-- A subscriber more does not change what is read.
read-add_subscription :
    (space : PairSpace) (now owner : ℤ) (key : Text) (a : ℤ)
    → valid_only (copy_of (add_subscription space now owner key a) owner key)
      ≡ valid_only (copy_of space owner key)
read-add_subscription space now owner key a =
    ap valid_only (copy_of-add_subscription space now owner key a)
    ∙ (ap (λ p. valid_only (some p))
          (pair-with_subscriber a (entry_or_placeholder space now owner key))
        ∙ read-entry_or_placeholder space now owner key)

current_pair-Greets :
    (s : Server) (space : PairSpace) (owner : ℤ) (key : Text) (a : ℤ)
    → Greets s.client.sessions a
        (valid_only (copy_of space owner key))
        (send_updates s (current_pair space owner key) a)
current_pair-Greets s space owner key a = go (valid_only (copy_of space owner key))
  where
    go :
        (held : Option Pair)
        → Greets s.client.sessions a held
            (send_updates s (elim held as (λ x. List Pair) [ none ↦ [] | some p ↦ p ∷ [] ]) a)
    go none = send_updates-Greets s a none
    go (some p) = send_updates-Greets s a (some p)

-- A subscription to a key of this component, from another one, subscribes exactly its sender to
-- exactly that key. The pair that is read under the key, if there is one, is framed and goes into the
-- session with the new subscriber and no other, or is too large for a frame, which is thrown.
pub subscribed-obey_subscription :
    (s : Server) (now : ℤ) (m : Subscription) (j : PairKey) (a : ℤ)
    → IsAccepted s m
    → (subscribed (space_of (obey_subscription s now m).0) j a ≡ (
        subscribed (space_of s) j a
        || (same j (pair_key m.owner_id m.key) && (m.subscriber ==ℤ a))))
      × Greets s.client.sessions m.subscriber
          (get_pair s.client m.owner_id m.key)
          (obey_subscription s now m)
unfolding subscribe get_pair
subscribed-obey_subscription s now m j a (one, ours, other, starts) =
    let not_all : text_eq m.key wildcard_key ≡ false =
      ground (arith, one, text_eq_iff m.key wildcard_key) in
    let space = add_subscription (space_of s) now m.owner_id m.key m.subscriber in
    let obeyed = obey_subscription-subscribe s now m ours other starts in
    let reached : space_of (subscribe s now m).0 ≡ space =
      rw (space-subscribe s now m, not_all) refl in
    (
      rw (obeyed, reached)
          (subscribed-add_subscription (space_of s) now m.owner_id m.key m.subscriber j a),
      rw obeyed (
          rw (not_all, subscribe)
            (subst
              (λ held. Greets s.client.sessions m.subscriber held (
                send_updates (with_space s space) (current_pair space m.owner_id m.key)
                  m.subscriber))
              (read-add_subscription (space_of s) now m.owner_id m.key m.subscriber)
              (current_pair-Greets (with_space s space) space m.owner_id m.key m.subscriber))),
    )
