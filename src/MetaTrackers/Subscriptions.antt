-- ===== src/MetaTrackers/Subscriptions.antt =====
-- src/meta_pair_callback.cpp: what the calls of a tracker do at the client of the node.
use srnp.Base.{
  ℕ, ◌≡◌, refl, sym, ap, ◌∙◌, ◌⊎◌, inl, inr, Bool, true, false, List, [], ◌∷◌, Option, none, some,
  ℤ, Text, ◌+◌, ◌%◌, ◌^◌, ◌||◌, ◌==ℤ◌, lookup, erase, emplace, nat_order, lookup-erase,
  lookup-insert_self, Option-cases, Bool-cases, arith,
}
use srnp.Wire.Results.{ok_injective}
use srnp.Wire.{Result, ok, err, Encoder, MessageType}
use srnp.Messages.{any_owner}
use srnp.Codec.{encode_subscription}
use srnp.PairSpace.{PairSpace}
use srnp.Client.{Client, SubscriptionRecord, send_message}
use srnp.Client.Subscribing.{
  subscription_message, keys, send_to_each, send_subscription, is_record, find_record,
  after_sending, register_subscription, cancel_handle,
}
use srnp.Client.Subscriptions.{holds, holds-register_subscription}

-- What a message leaves as it was.
abbrev pub keeping : Client → PairSpace × ℕ × List (ℕ × SubscriptionRecord)
keeping c = (c.space, c.next_subscription_handle, c.subscriptions)

keeping-send_message :
    (c : Client) (owner : ℤ) (type : MessageType) (message : Encoder)
    → keeping (send_message c owner type message).0 ≡ keeping c
unfolding send_message
keeping-send_message c owner type message = ground arith

keeping-send_to_each :
    (c : Client) (owners : List ℤ) (key : Text) (registering : Bool)
    → keeping (send_to_each c owners key registering).0 ≡ keeping c
unfolding send_to_each
keeping-send_to_each c [] key registering = refl
keeping-send_to_each c (owner ∷ owners) key registering =
    let message = encode_subscription (subscription_message c owner key registering) in
    let sent = send_message c owner MessageType.subscription message in
    let kept = keeping-send_message c owner MessageType.subscription message in
    go sent.0 sent.1 kept (λ c'. keeping-send_to_each c' owners key registering)
  where
    go :
        (c' : Client) (r : Result Bool)
        → keeping c' ≡ keeping c
        → ((d : Client) → keeping (send_to_each d owners key registering).0 ≡ keeping d)
        → keeping
            (elim r as (λ x. Client × Result Bool) [
              | err e ↦ (c', err e)
              | ok there ↦ send_to_each c' owners key registering
            ]).0
          ≡ keeping c
    go c' (err e) kept rest = kept
    go c' (ok there) kept rest = rest c' ∙ kept

keeping-send_subscription :
    (c : Client) (owner : ℤ) (key : Text) (registering : Bool)
    → keeping (send_subscription c owner key registering).0 ≡ keeping c
unfolding send_subscription
keeping-send_subscription c owner key registering = elim (Bool-cases (owner ==ℤ any_owner)) [
  | inl all ↦ rw all (keeping-send_to_each c (keys c.sessions) key registering)
  | inr one ↦ rw one (
      keeping-send_message c owner MessageType.subscription
        (encode_subscription (subscription_message c owner key registering)))
]

keeping-after_sending :
    {A : Type 0} (a : A) (r : Client × Result Bool) → keeping (after_sending a r).0 ≡ keeping r.0
unfolding after_sending
keeping-after_sending a (c, err e) = refl
keeping-after_sending a (c, ok sent) = refl

-- The next handle is free.
abbrev pub IsFree : Client → Type 0
IsFree c = lookup ((c.next_subscription_handle + 1) % 2 ^ 64) c.subscriptions ≡ none

abbrev slot : PairSpace × ℕ × List (ℕ × SubscriptionRecord) → Option SubscriptionRecord
slot k = lookup ((k.1 + 1) % 2 ^ 64) k.2

erase_absent :
    (handle : ℕ) (m : List (ℕ × SubscriptionRecord)) → lookup handle m ≡ none → erase handle m ≡ m
unfolding lookup erase
erase_absent handle [] absent = refl
erase_absent handle ((h, r) ∷ m) absent = ground (arith, absent, erase_absent handle m)

-- Cancelling a subscription takes its handle out of the table.
pub cancel_handle_lem :
    (c : Client) (handle : ℕ)
    → IsFree c
    → ((cancel_handle c handle).0.subscriptions ≡ erase handle c.subscriptions)
      × ((cancel_handle c handle).0.space ≡ c.space)
      × IsFree (cancel_handle c handle).0
unfolding cancel_handle
cancel_handle_lem c handle free = elim (Option-cases (lookup handle c.subscriptions)) [
  | inl absent ↦
      rw (absent, cancel_handle) (sym (erase_absent handle c.subscriptions absent), refl, free)
  | inr (r, there) ↦
      let erased : Client = record c { subscriptions = erase handle c.subscriptions } in
      let kept =
        keeping-after_sending true (send_subscription erased r.owner r.key false)
        ∙ keeping-send_subscription erased r.owner r.key false in
      let next = (c.next_subscription_handle + 1) % 2 ^ 64 in
      rw (there, cancel_handle)
        (
          ap (λ k. k.2) kept,
          ap (λ k. k.0) kept,
          ap slot kept ∙ (lookup-erase handle next c.subscriptions ∙ ground (arith, free)),
        )
]

-- How a registration is kept: its handle has its record, or it is the invalid one, since the
-- subscription was held before.
abbrev pub IsKept : Client → ℤ → Text → Client → ℕ → Type 0
IsKept before owner key c handle =
    (lookup handle c.subscriptions ≡ some (record { owner = owner; key = key }))
    ⊎ (handle ≡ 0) × (holds owner key before.subscriptions ≡ true)

-- Exactly one owner and key more is held, unless it was held before.
abbrev pub HoldsOneMore :
    List (ℕ × SubscriptionRecord) → ℤ → Text → List (ℕ × SubscriptionRecord) → Type 0
HoldsOneMore earlier owner key table =
    (other : ℤ) (that : Text)
    → holds other that table
      ≡ (holds other that earlier || is_record other that (record { owner = owner; key = key }))

value-after_sending : (a b : ℕ) (r : Client × Result Bool) → (after_sending a r).1 ≡ ok b → a ≡ b
unfolding after_sending
value-after_sending a b (c, err e) made = absurd cc
value-after_sending a b (c, ok sent) made = ok_injective made

register_subscription-cases :
    (c : Client) (owner : ℤ) (key : Text) (handle : ℕ)
    → IsFree c
    → (register_subscription c owner key).1 ≡ ok handle
    → ((register_subscription c owner key).0.space ≡ c.space)
      × IsKept c owner key (register_subscription c owner key).0 handle
unfolding register_subscription
register_subscription-cases c owner key handle free =
    elim (Option-cases (find_record owner key c.subscriptions)) [
      | inr (there, found) ↦
          rw (found, register_subscription) (λ made. (refl, inr (sym (ok_injective made), refl)))
      | inl new ↦
          let h = (c.next_subscription_handle + 1) % 2 ^ 64 in
          let r : SubscriptionRecord = record { owner = owner; key = key } in
          let added : Client = record c {
            next_subscription_handle = h;
            subscriptions = emplace h r c.subscriptions;
          } in
          let kept =
            keeping-after_sending h (send_subscription added owner key true)
            ∙ keeping-send_subscription added owner key true in
          rw (new, register_subscription)
            (λ made. (
              ap (λ k. k.0) kept,
              inl (
                  rw (← value-after_sending h handle (send_subscription added owner key true) made)
                    (ap (λ k. lookup h k.2) kept
                      ∙ rw free (lookup-insert_self h r c.subscriptions))),
            ))
    ]

-- A subscription that is registered is held, and no other that was not.
pub register_subscription_lem :
    (c : Client) (owner : ℤ) (key : Text) (handle : ℕ)
    → IsFree c
    → (register_subscription c owner key).1 ≡ ok handle
    → HoldsOneMore c.subscriptions owner key (register_subscription c owner key).0.subscriptions
      × ((register_subscription c owner key).0.space ≡ c.space)
      × IsKept c owner key (register_subscription c owner key).0 handle
register_subscription_lem c owner key handle free made =
    let (same_space, kept) = register_subscription-cases c owner key handle free made in
    ((λ other that. (holds-register_subscription c owner other key that free).0), same_space, kept)
