-- ===== src/Wire/Actions.antt =====
-- include/srnp/wire.h: what each method of `Writer` appends, what each method of `Reader` takes off
-- the bytes that are left, and the two together for a value.
use srnp.Base.{
  subst, ℕ, ◌+◌, ◌≤◌, ◌<◌, ◌^◌, ◌≡◌, refl, ◌∙◌, Bool, true, false, not, List, [], ◌++◌,
  append_assoc, append-nil, ℤ, Text, length, length-append, drop-append, take-append, le→ltb_false,
  le→leb, lt→leb_false, ◌==◌, arith,
}
use srnp.Wire.{
  value_of, Result, guard, Error, ok, err, Action, ◌>>=◌, ◌>>◌, pure, Encoder, Decoder, Writer,
  Reader, reader, le_bytes, from_le, bits, signed, write_integer, write_signed, write_boolean,
  write_string, append_bytes, need, next_bytes, read_integer, read_signed, read_boolean,
  read_string, take_buffer, empty_writer, max_payload, string_too_long,
}
use srnp.Wire.Words.{IsSigned, length-le_bytes, from_le-le_bytes, signed-bits, bits_lt}

-- The encoder succeeds on any buffer, and appends these bytes to it.
pub record Writes (m : Encoder) (printed : List ℕ) : Type 0 where
  pub appends : (w : Writer) → m w ≡ ok (tt, record { buffer = w.buffer ++ printed })

-- A reader that has read `before` and has `rest` left.
abbrev pub placed : List ℕ → List ℕ → Reader
placed before rest = record { bytes = before ++ rest; offset = length before }

-- The decoder reads the value off these bytes, whatever stands around them.
pub record Reads {A : Type 0} (p : Decoder A) (printed : List ℕ) (a : A) : Type 0 where
  pub at_front :
      (before rest : List ℕ)
      → p (placed before (printed ++ rest)) ≡ ok (a, placed (before ++ printed) rest)

-- The encoder writes what the decoder reads as `a`.
pub record Codes {A : Type 0} (m : Encoder) (p : Decoder A) (a : A) : Type 0 where
  pub printed : List ℕ
  pub writes : Writes m printed
  pub reads : Reads p printed a

-- A step that succeeds hands its value and its state on.
pub bind-ok {ℓ} :
    {S A B : Type ℓ} (m : Action S A) (f : A → Action S B) (s : S) {t : S} {a : A}
    → m s ≡ ok (a, t)
    → (m >>= f) s ≡ f a t
unfolding ◌>>=◌
bind-ok m f s e = rw (e, ◌>>=◌)

pub bind-err {ℓ} :
    {S A B : Type ℓ} (m : Action S A) (f : A → Action S B) (s : S) {e : Error}
    → m s ≡ err e
    → (m >>= f) s ≡ err e
unfolding ◌>>=◌
bind-err m f s e = rw (e, ◌>>=◌)

split_result :
    {S A B : Type 0} (m : Result (A × S)) (f : A → Action S B) {b : B} {s' : S}
    → elim m [ err e ↦ err e | ok (a, t) ↦ f a t ] ≡ ok (b, s')
    → (a : A) × (t : S) × (m ≡ ok (a, t)) × (f a t ≡ ok (b, s'))
split_result (ok (a, t)) f e = (a, t, refl, e)
split_result (err x) f e = cc

-- Steps that succeed together succeed one after the other.
pub bind-inverse :
    {S A B : Type 0} (m : Action S A) (f : A → Action S B) (s : S) {b : B} {s' : S}
    → (m >>= f) s ≡ ok (b, s')
    → (a : A) × (t : S) × (m s ≡ ok (a, t)) × (f a t ≡ ok (b, s'))
unfolding ◌>>=◌
bind-inverse m f s e = split_result (m s) f e

pub value_of-ok {ℓ} :
    {S A : Type ℓ} (m : Result (A × S)) {a : A} → value_of m ≡ ok a → (s : S) × (m ≡ ok (a, s))
value_of-ok (ok (a, s)) e = (s, ground (arith, e))
value_of-ok (err x) e = cc

placed-append :
    (before x rest : List ℕ)
    → record { bytes = before ++ (x ++ rest); offset = length before + length x }
      ≡ placed (before ++ x) rest
placed-append before x rest = rw (append_assoc, length-append before x)

need-placed :
    (n : ℕ) (before x rest : List ℕ)
    → length x ≡ n
    → need n (placed before (x ++ rest)) ≡ ok (tt, placed before (x ++ rest))
unfolding need
need-placed n before x rest e = rw (
    le→ltb_false (length (before ++ (x ++ rest))) (length before + n)
      (omega (arith, e, length-append before (x ++ rest), length-append x rest)))

next_bytes-placed :
    (n : ℕ) (before x rest : List ℕ)
    → length x ≡ n
    → next_bytes n (placed before (x ++ rest)) ≡ ok (x, placed (before ++ x) rest)
unfolding next_bytes
next_bytes-placed n before x rest e =
    rw (← e, drop-append before (x ++ rest), take-append x rest, placed-append before x rest)

-- A decoder, and a function of what it reads.
pub Reads-map :
    {A B : Type 0} {p : Decoder A} {x : List ℕ} {a : A} (f : A → B)
    → Reads p x a
    → Reads (p >>= λ y. pure (f y)) x (f a)
unfolding pure
Reads-map {p = p} f h = record {
  at_front = λ before rest. bind-ok p (λ y. pure (f y)) _ (h.at_front before rest);
}

pub Reads-bind :
    {A B : Type 0} {p : Decoder A} {x y : List ℕ} {a : A} (f : A → Decoder B) {b : B}
    → Reads p x a
    → Reads (f a) y b
    → Reads (p >>= f) (x ++ y) b
Reads-bind {p = p} {x = x} {y = y} f h k = record {
  at_front = λ before rest.
      rw (append_assoc x y rest, ← append_assoc before x y)
        (bind-ok p f _ (h.at_front before (y ++ rest)) ∙ k.at_front (before ++ x) rest);
}

pub next_bytes-Reads : (n : ℕ) {x : List ℕ} → length x ≡ n → Reads (next_bytes n) x x
next_bytes-Reads n {x} e = record { at_front = λ before rest. next_bytes-placed n before x rest e }

-- A check of the bytes that the rest of the decoder reads.
pub Reads-need :
    {A : Type 0} (n : ℕ) {p : Decoder A} {x : List ℕ} {a : A}
    → length x ≡ n
    → Reads p x a
    → Reads (need n >>= λ _. p) x a
Reads-need n {p} {x} e h = record {
  at_front = λ before rest.
      bind-ok (need n) (λ _. p) _ (need-placed n before x rest e) ∙ h.at_front before rest;
}

read_integer-Reads : (n v : ℕ) → v < 256 ^ n → Reads (read_integer n) (le_bytes n v) v
unfolding read_integer
read_integer-Reads n v h = rw (from_le-le_bytes n v h) at (
    Reads-need n (length-le_bytes n v)
      (Reads-map from_le (next_bytes-Reads n (length-le_bytes n v))))

pub integer-Codes : (n v : ℕ) → v < 256 ^ n → Codes (write_integer n v) (read_integer n) v
unfolding write_integer
integer-Codes n v h = record {
  printed = le_bytes n v;
  writes = record { appends = λ w. refl };
  reads = read_integer-Reads n v h;
}

pub Writes-seq : {m n : Encoder} {x y : List ℕ} → Writes m x → Writes n y → Writes (m >> n) (x ++ y)
Writes-seq {m} {n} {x} {y} h k = record {
  appends = λ w.
      rw (← append_assoc w.buffer x y)
        (bind-ok m (λ _. n) w (h.appends w) ∙ k.appends (record { buffer = w.buffer ++ x }));
}

pub Codes-bind :
    {A B : Type 0} {m n : Encoder} {p : Decoder A} {a : A} (f : A → Decoder B) {b : B}
    → Codes m p a
    → Codes n (f a) b
    → Codes (m >> n) (p >>= f) b
Codes-bind f h k = record {
  printed = h.printed ++ k.printed;
  writes = Writes-seq h.writes k.writes;
  reads = Reads-bind f h.reads k.reads;
}

pub Codes-map :
    {A B : Type 0} {m : Encoder} {p : Decoder A} {a : A} (f : A → B)
    → Codes m p a
    → Codes m (p >>= λ y. pure (f y)) (f a)
Codes-map f h = record { printed = h.printed; writes = h.writes; reads = Reads-map f h.reads }

-- A check that passes writes and reads nothing.
pub Codes-guard :
    {A : Type 0} {m : Encoder} (b : Bool) (e : Error) {p : Decoder A} {a : A}
    → b ≡ true
    → Codes m p a
    → Codes m (guard b e >> p) a
unfolding guard ◌>>=◌
Codes-guard b e {p = p} h c = record {
  printed = c.printed;
  writes = c.writes;
  reads = record { at_front = λ before rest. rw (h, ◌>>=◌) (c.reads.at_front before rest) };
}

Reads-pure : {A : Type 0} (a : A) → Reads (pure a) [] a
unfolding pure
Reads-pure a = record { at_front = λ before rest. rw append-nil }

pub pure-Codes : {A : Type 0} (a : A) → Codes (pure tt) (pure a) a
unfolding pure
pure-Codes a = record {
  printed = [];
  writes = record { appends = λ w. rw append-nil };
  reads = Reads-pure a;
}

-- A value that is read, checked and returned.
pub Codes-checked :
    {A : Type 0} {m : Encoder} {p : Decoder A} {a : A} (test : A → Bool) (e : Error)
    → test a ≡ true
    → Codes m p a
    → Codes m (p >>= λ x. guard (test x) e >> pure x) a
unfolding ◌>>=◌ Codes-guard pure-Codes
Codes-checked {a = a} test e h c = record {
  printed = c.printed;
  writes = c.writes;
  reads = rw append-nil at (
      Reads-bind (λ x. guard (test x) e >> pure x) c.reads
        (Codes-guard (test a) e h (pure-Codes a)).reads);
}

pub signed-Codes :
    (n : ℕ) (a : ℤ) → 0 < 256 ^ n → IsSigned n a → Codes (write_signed n a) (read_signed n) a
unfolding write_signed read_signed
signed-Codes n a p h =
    rw (signed-bits n a h) at (Codes-map (signed n) (integer-Codes n (bits n a) (bits_lt n a p)))

pub boolean-Codes : (b : Bool) → Codes (write_boolean b) read_boolean b
unfolding write_boolean read_boolean
boolean-Codes true = Codes-map (λ n. not (n == 0)) (integer-Codes 1 1 (omega arith))
boolean-Codes false = Codes-map (λ n. not (n == 0)) (integer-Codes 1 0 (omega arith))

-- A string goes out behind its length, in four bytes.
pub string-Codes : (s : Text) → length s ≤ max_payload → Codes (write_string s) read_string s
unfolding ◌>>=◌ guard write_string read_string append_bytes write_integer
string-Codes s h = record {
  printed = le_bytes 4 (length s) ++ s;
  writes = record {
    appends =
        λ w. rw (le→leb _ max_payload h) (rw (append_assoc w.buffer (le_bytes 4 (length s)) s));
  };
  reads =
      Reads-bind (λ n. need n >>= λ _. next_bytes n) (read_integer-Reads 4 (length s) (omega arith))
        (Reads-need (length s) refl (next_bytes-Reads (length s) refl));
}

write_string-too_long :
    (s : Text) → max_payload < length s → (w : Writer) → write_string s w ≡ err string_too_long
unfolding ◌>>=◌ guard write_string
write_string-too_long s h w = rw (lt→leb_false _ max_payload h)

-- A fresh writer holds exactly what was written.
pub take_buffer-Writes : {m : Encoder} {x : List ℕ} → Writes m x → take_buffer m ≡ ok x
unfolding take_buffer
take_buffer-Writes h = rw (h.appends empty_writer, take_buffer)

-- A decoder that reads all of the bytes ends behind the last one.
pub Reads-whole :
    {A : Type 0} {p : Decoder A} {x : List ℕ} {a : A}
    → Reads p x a
    → p (reader x) ≡ ok (a, record { bytes = x; offset = length x })
Reads-whole {p = p} {x = x} h = rw append-nil at (h.at_front [] [])

-- Whatever bytes it is given, what the decoder returns satisfies `P`.
pub record Yields {A : Type 0} (P : A → Type 0) (p : Decoder A) : Type 0 where
  pub returns : (r : Reader) {a : A} {r' : Reader} → p r ≡ ok (a, r') → P a

pub Yields-pure : {A : Type 0} (P : A → Type 0) {a : A} → P a → Yields P (pure a)
unfolding pure
Yields-pure P {a} h = record { returns = λ r e. subst P (ground (arith, e)) h }

pub Yields-bind :
    {A B : Type 0} {P : B → Type 0} (p : Decoder A) (f : A → Decoder B)
    → ((a : A) → Yields P (f a))
    → Yields P (p >>= f)
Yields-bind p f h = record {
  returns = λ r e. let (a, t, first, rest) = bind-inverse p f r e in (h a).returns t rest;
}

-- What follows a check may rely on it.
pub Yields-guard :
    {B : Type 0} {P : B → Type 0} (b : Bool) (e : Error) (p : Decoder B)
    → (b ≡ true → Yields P p)
    → Yields P (guard b e >> p)
unfolding guard ◌>>=◌
Yields-guard true e p h = record { returns = λ r. (h refl).returns r }
Yields-guard false e p h = record { returns = λ r c. cc }
