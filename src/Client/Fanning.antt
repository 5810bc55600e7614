-- ===== src/Client/Fanning.antt =====
-- src/client.cpp: who gets what a component fans out.
use srnp.Base.{
  ℕ, ◌≡◌, ◌⊎◌, refl, List, [], ◌∷◌, Option, some, ℤ, if◌then◌else◌, lookup, int_order, same_iff,
  lookup-insert, contains, Distinct, map_option, Option-cases, inl, inr, ◌==ℤ◌, ==ℤ_iff, arith,
}
use srnp.Wire.{Error, ok, err, MessageType, frame_of}
use srnp.Wire.Results.{Result-cases}
use srnp.Codec.{encode_pair}
use srnp.Messages.{Pair, PairKey, key_of}
use srnp.Session.{Session}
use srnp.Session
use srnp.Client.{Client, sent_to, fan_out, fan_out_pair}

lookup-sent_to :
    (frame : List ℕ) (key : Option PairKey) (a b : ℤ) (sessions : List (ℤ × Session))
    → lookup a (sent_to b frame key sessions) ≡ (
        if a ==ℤ b
        then map_option (λ s. Session.send s frame key) (lookup a sessions)
        else lookup a sessions)
lookup-sent_to frame key a b sessions = elim (Option-cases (lookup b sessions)) [
  | inl absent ↦ rw (absent, sent_to) (ground (arith, absent, ==ℤ_iff a b))
  | inr (s, there) ↦
      rw (there, sent_to, lookup-insert b a (Session.send s frame key) sessions)
        (ground (arith, there, ==ℤ_iff a b, same_iff a b))
]

lookup-fan_out :
    (frame : List ℕ) (key : Option PairKey) (a : ℤ) (subscribers : List ℤ)
    (sessions : List (ℤ × Session))
    → Distinct subscribers
    → lookup a (fan_out frame key subscribers sessions) ≡ (
        if contains a subscribers
        then map_option (λ s. Session.send s frame key) (lookup a sessions)
        else lookup a sessions)
unfolding fan_out contains
lookup-fan_out frame key a [] sessions d = refl
lookup-fan_out frame key a (b ∷ rest) sessions d =
    rw
      (
        lookup-fan_out frame key a rest (sent_to b frame key sessions) d.1,
        lookup-sent_to frame key a b sessions,
      )
      (ground (arith, d.0, ==ℤ_iff a b, ==ℤ_iff b a))

-- An update that is fanned out goes to every subscriber that has a session, exactly once each if no
-- subscriber is listed twice, under the pair's key; no other session gets anything. A pair that is
-- too large for a frame is an error and reaches nobody.
pub lookup-fan_out_pair :
    (c : Client) (p : Pair) (subscribers : List ℤ)
    → Distinct subscribers
    → ((e : Error) × (frame_of MessageType.pair_update (encode_pair p) ≡ err e)
        × (fan_out_pair c p subscribers ≡ err e))
      ⊎ (frame : List ℕ) × (client : Client) × (frame_of MessageType.pair_update (encode_pair p)
          ≡ ok frame)
        × (fan_out_pair c p subscribers ≡ ok client)
        × ((a : ℤ)
            → lookup a client.sessions ≡ (
                if contains a subscribers
                then map_option (λ s. Session.send s frame (some (key_of p))) (lookup a c.sessions)
                else lookup a c.sessions))
unfolding fan_out_pair
lookup-fan_out_pair c p subscribers distinct =
    elim (Result-cases (frame_of MessageType.pair_update (encode_pair p))) [
      | inl (e, too_long) ↦ inl (e, too_long, rw (too_long, fan_out_pair) refl)
      | inr (frame, built) ↦ inr (
        frame,
        record c { sessions = fan_out frame (some (key_of p)) subscribers c.sessions },
        built,
        rw (built, fan_out_pair) refl,
        λ a. lookup-fan_out frame (some (key_of p)) a subscribers c.sessions distinct,
      )
    ]
