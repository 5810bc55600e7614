-- ===== src/Server/Spaces.antt =====
-- src/server.cpp: what the handlers do to the pair space.
use srnp.Base.{
  ◌≡◌, refl, ap, ◌∙◌, Bool, true, false, not, ◌&&◌, List, [], ◌∷◌, Option, none, some, ℤ, ◌==ℤ◌,
  text_eq, if◌then◌else◌, is_empty, Bool-cases, inl, inr,
}
use srnp.Wire.{Result, ok, err, MessageType}
use srnp.Messages.{wildcard_key, Pair, Subscription, RemovePairRequest, pair_key_order}
use srnp.PairSpace.{
  PairEntry, PairSpace, find, added_entry, add_pair, remove_pair, add_subscription,
  add_subscription_to_all,
}
use srnp.PairSpace.Invariant.{IsSpace}
use srnp.PairSpace.Preservation.{
  add_pair-IsSpace, remove_pair-IsSpace, add_subscription-IsSpace, remove_subscription-IsSpace,
  add_subscription_to_all-IsSpace, remove_subscription_to_all-IsSpace,
}
use srnp.Channel.{Frame}
use srnp.Client.{Client, fan_out_pair, fan_out_removal}
use srnp.Client.Pairs.{
  OnlySessions, fan_out_pair-OnlySessions, fan_out_removal-OnlySessions, skipped-OnlySessions,
}
use srnp.Server.{
  Server, space_of, with_space, forwarded, apply_and_notify, handle_incoming_pair,
  handle_pair_update, send_updates, subscribe, unsubscribe, obey_subscription, handle_subscription,
  obey_removal, handle_remove_pair, handle_pair_removed, handle,
}

space-forwarded :
    (s : Server) (r : Result Client)
    → OnlySessions s.client r
    → space_of (forwarded s r).0 ≡ space_of s
unfolding forwarded
space-forwarded s (err e) kept = refl
space-forwarded s (ok client) kept = ap (λ c. c.space) kept

pub space-apply_and_notify :
    (s : Server) (now : ℤ) (p : Pair)
    → space_of (apply_and_notify s now p).0 ≡ add_pair (space_of s) now p
unfolding apply_and_notify
space-apply_and_notify s now p = space-forwarded _ _ (
    skipped-OnlySessions _ (is_empty (added_entry (space_of s) now p).subscribers) _ (
      fan_out_pair-OnlySessions _ (added_entry (space_of s) now p).pair
        (added_entry (space_of s) now p).subscribers))

space-send_updates :
    (s : Server) (ps : List Pair) (subscriber : ℤ)
    → space_of (send_updates s ps subscriber).0 ≡ space_of s
unfolding send_updates
space-send_updates s [] subscriber = refl
space-send_updates s (p ∷ ps) subscriber =
    go (fan_out_pair s.client p (subscriber ∷ []))
      (fan_out_pair-OnlySessions s.client p (subscriber ∷ []))
      (λ client. space-send_updates (record s { client = client }) ps subscriber)
  where
    go :
        (r : Result Client)
        → OnlySessions s.client r
        → ((client : Client)
            → space_of (send_updates (record s { client = client }) ps subscriber).0 ≡ client.space)
        → space_of
            (elim r as (λ x. Server × Result Bool) [
              | err e ↦ (s, err e)
              | ok client ↦ send_updates (record s { client = client }) ps subscriber
            ]).0
          ≡ space_of s
    go (err e) kept later = refl
    go (ok client) kept later = later client ∙ ap (λ c. c.space) kept

-- What `subscribe` does to the space.
pub space-subscribe :
    (s : Server) (now : ℤ) (m : Subscription)
    → space_of (subscribe s now m).0 ≡ (
        if text_eq m.key wildcard_key
        then add_subscription_to_all (space_of s) m.subscriber
        else add_subscription (space_of s) now m.owner_id m.key m.subscriber)
unfolding subscribe
space-subscribe s now m = elim (Bool-cases (text_eq m.key wildcard_key)) [
  | inl all ↦ rw (all, subscribe) (space-send_updates _ _ m.subscriber)
  | inr one ↦ rw (one, subscribe) (space-send_updates _ _ m.subscriber)
]

subscribe-IsSpace :
    (s : Server) (now : ℤ) (m : Subscription)
    → IsSpace (space_of s)
    → IsSpace (space_of (subscribe s now m).0)
subscribe-IsSpace s now m v =
    rw (space-subscribe s now m) (elim (Bool-cases (text_eq m.key wildcard_key)) [
      | inl all ↦ rw all (add_subscription_to_all-IsSpace (space_of s) m.subscriber v)
      | inr one ↦ rw one (add_subscription-IsSpace (space_of s) now m.owner_id m.key m.subscriber v)
    ])

unsubscribe-IsSpace :
    (space : PairSpace) (m : Subscription) → IsSpace space → IsSpace (unsubscribe space m)
unfolding unsubscribe
unsubscribe-IsSpace space m v = elim (Bool-cases (text_eq m.key wildcard_key)) [
  | inl all ↦ rw all (remove_subscription_to_all-IsSpace space m.subscriber v)
  | inr one ↦ rw one (remove_subscription-IsSpace space m.owner_id m.key m.subscriber v)
]

-- A choice between two results keeps what both keep.
either-IsSpace :
    (b : Bool) (x y : Server × Result Bool)
    → IsSpace (space_of x.0)
    → IsSpace (space_of y.0)
    → IsSpace (space_of (if b then x else y).0)
either-IsSpace true x y v w = v
either-IsSpace false x y v w = w

obey_subscription-IsSpace :
    (s : Server) (now : ℤ) (m : Subscription)
    → IsSpace (space_of s)
    → IsSpace (space_of (obey_subscription s now m).0)
unfolding obey_subscription
obey_subscription-IsSpace s now m v =
    let ignored : Server × Result Bool = (s, ok true) in
    let ended : Server × Result Bool = (with_space s (unsubscribe (space_of s) m), ok true) in
    let obeyed : Server × Result Bool = if m.registering then subscribe s now m else ended in
    let from_another : Server × Result Bool =
      if m.subscriber ==ℤ s.owner then ignored else obeyed in
    either-IsSpace (not (text_eq m.key wildcard_key) && not (m.owner_id ==ℤ s.owner)) ignored
      from_another v
      (either-IsSpace (m.subscriber ==ℤ s.owner) ignored obeyed v (
        either-IsSpace m.registering (subscribe s now m) ended (subscribe-IsSpace s now m v)
          (unsubscribe-IsSpace (space_of s) m v)))

obey_removal-IsSpace :
    (s : Server) (m : RemovePairRequest)
    → IsSpace (space_of s)
    → IsSpace (space_of (obey_removal s m).0)
unfolding obey_removal
obey_removal-IsSpace s m v =
    either-IsSpace (not (m.owner ==ℤ s.owner)) (s, ok true) _ v
      (found (find (space_of s) m.owner m.key))
  where
    found :
        (e : Option PairEntry)
        → IsSpace (
            space_of
              (elim e as (λ x. Server × Result Bool) [
                | none ↦ (s, ok true)
                | some entry ↦
                    let removed = with_space s (remove_pair (space_of s) m.owner m.key) in
                    forwarded removed (
                      if is_empty entry.subscribers
                      then ok removed.client
                      else fan_out_removal removed.client m entry.subscribers)
              ]).0)
    found none = v
    found (some entry) =
        let removed = with_space s (remove_pair (space_of s) m.owner m.key) in
        rw
          (space-forwarded removed _ (
            skipped-OnlySessions removed.client (is_empty entry.subscribers) _
              (fan_out_removal-OnlySessions removed.client m entry.subscribers)))
          (remove_pair-IsSpace (space_of s) m.owner m.key v)

-- A payload that cannot be decoded changes nothing.
decoded-IsSpace :
    {A : Type 0} (s : Server) (r : Result A) (f : A → Server × Result Bool)
    → IsSpace (space_of s)
    → ((a : A) → IsSpace (space_of (f a).0))
    → IsSpace
        (space_of (elim r as (λ x. Server × Result Bool) [ err e ↦ (s, err e) | ok a ↦ f a ]).0)
decoded-IsSpace s (err e) f v w = v
decoded-IsSpace s (ok a) f v w = w a

apply_and_notify-IsSpace :
    (s : Server) (now : ℤ) (p : Pair)
    → IsSpace (space_of s)
    → IsSpace (space_of (apply_and_notify s now p).0)
apply_and_notify-IsSpace s now p v =
    rw (space-apply_and_notify s now p) (add_pair-IsSpace (space_of s) now p v)

-- Whatever frame a peer sends, of any type and with any payload, its handling keeps the bookkeeping
-- of the pair space consistent, also where it throws.
pub handle-IsSpace :
    (s : Server) (now : ℤ) (frame : Frame)
    → IsSpace (space_of s)
    → IsSpace (space_of (handle s now frame).0)
unfolding handle handle_incoming_pair handle_pair_update handle_subscription handle_remove_pair
    handle_pair_removed
handle-IsSpace s now frame v = by_type frame.header.type
  where
    by_type :
        (type : MessageType)
        → IsSpace (
            space_of
              (handle s now (record frame { header = record frame.header { type = type } })).0)
    by_type MessageType.pair =
        decoded-IsSpace s _ _ v
          (λ p. apply_and_notify-IsSpace s now (record p { owner = s.owner }) v)
    by_type MessageType.pair_update =
        decoded-IsSpace s _ _ v (λ p. apply_and_notify-IsSpace s now p v)
    by_type MessageType.subscription =
        decoded-IsSpace s _ _ v (λ m. obey_subscription-IsSpace s now m v)
    by_type MessageType.remove_pair = decoded-IsSpace s _ _ v (λ m. obey_removal-IsSpace s m v)
    by_type MessageType.pair_removed =
        decoded-IsSpace s _ _ v (λ m. remove_pair-IsSpace (space_of s) m.owner m.key v)
    by_type _ = v
