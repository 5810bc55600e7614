-- ===== src/Codec/Safety.antt =====
-- include/srnp/wire.h, src/codec.cpp: no decoder reads past the end of the bytes, whatever they are.
use srnp.Base.{
  ℕ, zero, suc, ◌+◌, ◌≤◌, ◌≡◌, List, [], length, Bool, true, false, ltb, ltb_false→le, ◌∷◌, ◌∙◌,
  Bool-cases, inl, inr, arith,
}
use srnp.Wire.{
  ok, ◌>>=◌, ◌>>◌, pure, guard, Error, Decoder, Reader, need, next_bytes, from_le, read_integer,
  read_signed, read_boolean, read_string,
}
use srnp.Wire.Actions.{bind-inverse}
use srnp.Codec.{
  read_enum, decode_pair, decode_subscription, decode_removal, decode_presence, decode_component,
  decode_update, decode_components, decode_master_message,
}

-- The reader has not run off the end of its bytes.
abbrev pub IsInside : Reader → Type 0
IsInside r = r.offset ≤ length r.bytes

-- A decoder that returns has left the bytes as they were, and its offset has not gone back and is
-- inside.
pub record Stays {A : Type 0} (p : Decoder A) : Type 0 where
  pub inside :
      (r : Reader) {a : A} {r' : Reader}
      → IsInside r
      → p r ≡ ok (a, r')
      → (r'.bytes ≡ r.bytes) × (r.offset ≤ r'.offset) × IsInside r'

Stays-pure : {A : Type 0} (a : A) → Stays (pure a)
unfolding pure
Stays-pure a = record { inside = λ r h e. ground (arith, e) }

Stays-guard : (b : Bool) (e : Error) → Stays (guard b e)
unfolding guard
Stays-guard true e = record { inside = λ r h c. ground (arith, c) }
Stays-guard false e = record { inside = λ r h c. cc }

Stays-bind :
    {A B : Type 0} (p : Decoder A) (f : A → Decoder B)
    → Stays p
    → ((a : A) → Stays (f a))
    → Stays (p >>= f)
Stays-bind p f h k = record {
  inside = λ r v e.
      let (a, t, first, rest) = bind-inverse p f r e in
      let (same_bytes, forward, inside) = h.inside r v first in
      let (same_bytes', forward', inside') = (k a).inside t inside rest in
      (same_bytes' ∙ same_bytes, omega arith, inside');
}

need_room :
    (n : ℕ) (r : Reader) {u : Unit} {t : Reader}
    → need n r ≡ ok (u, t)
    → (t ≡ r) × (r.offset + n ≤ length r.bytes)
unfolding need
need_room n r e = elim (Bool-cases (ltb (length r.bytes) (r.offset + n))) [
  | inl short ↦ cc (rw short at e)
  | inr room ↦ (ground (arith, rw room at e), ltb_false→le _ _ room)
]

-- Reading the bytes that a check has found.
next_bytes-IsInside :
    (n : ℕ) (r : Reader) {u : Unit} {t s : Reader} {x : List ℕ}
    → need n r ≡ ok (u, t)
    → next_bytes n t ≡ ok (x, s)
    → (s.bytes ≡ r.bytes) × (r.offset ≤ s.offset) × IsInside s
unfolding next_bytes
next_bytes-IsInside n r checked taken =
    let (same_reader, room) = need_room n r checked in ground arith

Stays-next_bytes : (n : ℕ) → Stays (need n >> next_bytes n)
Stays-next_bytes n = record {
  inside = λ r v e.
      let (u, t, checked, taken) = bind-inverse (need n) (λ _. next_bytes n) r e in
      next_bytes-IsInside n r checked taken;
}

Stays-read_integer : (n : ℕ) → Stays (read_integer n)
unfolding read_integer
Stays-read_integer n = record {
  inside = λ r v e.
      let (u, t, checked, rest) = bind-inverse (need n) _ r e in
      let (x, s, taken, last) = bind-inverse (next_bytes n) _ t rest in
      let (same_bytes, forward, inside) = next_bytes-IsInside n r checked taken in
      let (same_bytes', forward', inside') = (Stays-pure (from_le x)).inside s inside last in
      (same_bytes' ∙ same_bytes, omega arith, inside');
}

ruleset stays_rules = (Stays-pure, Stays-guard, Stays-bind, Stays-read_integer, Stays-next_bytes)

Stays-read_signed : (n : ℕ) → Stays (read_signed n)
unfolding read_signed
Stays-read_signed n = search stays_rules

Stays-read_boolean : Stays read_boolean
unfolding read_boolean
Stays-read_boolean = search stays_rules

Stays-read_string : Stays read_string
unfolding read_string
Stays-read_string = search stays_rules

Stays-read_enum : (highest : ℕ) → Stays (read_enum highest)
unfolding read_enum
Stays-read_enum highest = search stays_rules

ruleset stays_reads = (
  Stays-pure, Stays-bind, Stays-guard, Stays-read_integer, Stays-read_signed, Stays-read_boolean,
  Stays-read_string, Stays-read_enum,
)

Stays-decode_component : Stays decode_component
unfolding decode_component
Stays-decode_component = search stays_reads depth 9

Stays-decode_components : (n : ℕ) → Stays (decode_components n)
unfolding decode_components
Stays-decode_components zero = Stays-pure []
Stays-decode_components (suc n) =
    Stays-bind _ _ Stays-decode_component
      λ c. Stays-bind _ _ (Stays-decode_components n) λ cs. Stays-pure (c ∷ cs)

-- Whatever bytes a message is decoded from, a decoder that returns has read inside of them.
pub decoders-Stays :
    Stays decode_pair
    × Stays decode_subscription
    × Stays decode_removal
    × Stays decode_presence
    × Stays decode_component
    × Stays decode_update
    × Stays decode_master_message
unfolding decode_pair decode_subscription decode_removal decode_presence decode_update
    decode_master_message
decoders-Stays = (
  search stays_reads depth 12,
  search stays_reads depth 12,
  search stays_reads depth 12,
  search stays_reads depth 12,
  Stays-decode_component,
  search (stays_reads, Stays-decode_component) depth 12,
  search (stays_reads, Stays-decode_components) depth 12,
)
