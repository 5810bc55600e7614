-- ===== src/MasterLink/Listening.antt =====
-- src/server.cpp: the loop over the master's notices.
use srnp.Base.{
  ℕ, zero, suc, ◌<◌, ◌≡◌, ◌≢◌, refl, sym, ◌∙◌, inl, inr, List, [], ◌∷◌, ◌++◌, negsuc, Text, All,
  length, arith,
}
use srnp.Wire.{Result, ok, err, MessageType, frame_of}
use srnp.Wire.Results.{Result-cases, ok_injective, err_ok}
use srnp.Messages.{UpdateComponents}
use srnp.Codec.{encode_update, decode_update, decode_payload}
use srnp.Codec.RoundTrip.{IsComponent, update-RoundTrips}
use srnp.Channel.{Received, received, malformed, disconnected, read}
use srnp.Channel.Reading.{Consumes, read-Consumes, frame_with, read-frame_of}
use srnp.Server.{gone, out_of_fuel}
use srnp.Client.{Client}
use srnp.Client.Peers.{on_component_update}
use srnp.Client.Table.{updated}
use srnp.MasterLink.{reachable, notice, Listened, noticed, hear, listen}

noticed-ends :
    (c : Client) (r : Result UpdateComponents) (later : Client → Listened)
    → ((c' : Client) → (later c').1 ≢ out_of_fuel)
    → (noticed c r later).1 ≢ out_of_fuel
noticed-ends c (err e) later ends = λ same_end. cc
noticed-ends c (ok update) later ends = ends _

hear-ends :
    (later : Client → List ℕ → Listened) (master_ip : Text) (c : Client) (r : Received) (n : ℕ)
    → Consumes n r
    → ((c' : Client) (rest : List ℕ) → length rest < n → (later c' rest).1 ≢ out_of_fuel)
    → (hear later master_ip c r).1 ≢ out_of_fuel
unfolding hear
hear-ends later master_ip c (malformed e) n v ends = λ same_end. cc
hear-ends later master_ip c disconnected n v ends = λ same_end. cc
hear-ends later master_ip c (received got rest) n v ends =
    noticed-ends c (notice master_ip got) (λ c'. later c' rest) (λ c'. ends c' rest v)

-- The loop ends on every stream: fuel above its length is enough.
pub listen-ends :
    (fuel : ℕ) (master_ip : Text) (c : Client) (stream : List ℕ)
    → length stream < fuel
    → (listen fuel master_ip c stream).1 ≢ out_of_fuel
unfolding listen
listen-ends zero master_ip c stream enough = absurd (omega (arith, enough))
listen-ends (suc fuel) master_ip c stream enough =
    hear-ends (listen fuel master_ip) master_ip c (read stream) fuel
      (read-Consumes stream fuel (omega (arith, enough))) (listen-ends fuel master_ip)

-- The frames of the notices, one behind the other.
unfoldable pub notices : List UpdateComponents → Result (List ℕ)
notices [] = ok []
notices (u ∷ us) = elim (frame_of MessageType.update_components (encode_update u)) [
  | err e ↦ err e
  | ok frame ↦ elim (notices us) [ err e ↦ err e | ok frames ↦ ok (frame ++ frames) ]
]

abbrev told : Text → UpdateComponents → UpdateComponents
told master_ip u = record u { component = reachable master_ip u.component }

abbrev pub heard : Text → List UpdateComponents → List UpdateComponents
heard master_ip [] = []
heard master_ip (u ∷ us) = told master_ip u ∷ heard master_ip us

notices-parts :
    (u : UpdateComponents) (us : List UpdateComponents) (stream : List ℕ)
    → notices (u ∷ us) ≡ ok stream
    → (frame frames : List ℕ) × (frame_of MessageType.update_components (encode_update u)
        ≡ ok frame)
      × (notices us ≡ ok frames)
      × (stream ≡ frame ++ frames)
unfolding notices
notices-parts u us stream e =
    elim (Result-cases (frame_of MessageType.update_components (encode_update u))) [
      | inl (error, broken) ↦ absurd (err_ok {e = error} (sym (rw (broken, notices) refl) ∙ e))
      | inr (frame, framed) ↦ elim (Result-cases (notices us)) [
        | inl (error, broken) ↦
            absurd (err_ok {e = error} (sym (rw (framed, notices, broken) refl) ∙ e))
        | inr (frames, rest) ↦
            (frame, frames, framed, rest, ok_injective (sym e ∙ rw (framed, notices, rest) refl))
      ]
    ]

notice-update :
    (master_ip : Text) (u : UpdateComponents) (payload : List ℕ)
    → decode_payload decode_update payload ≡ ok u
    → notice master_ip (frame_with MessageType.update_components payload (negsuc 0))
      ≡ ok (told master_ip u)
unfolding notice
notice-update master_ip u payload decodes = rw (decodes, notice) refl

read-empty : read [] ≡ disconnected
unfolding read
read-empty = refl

-- What the master announces is what the client is told, in that order and with addresses that it can
-- reach, and the loop ends with the connection.
pub listen-notices :
    (us : List UpdateComponents) (fuel : ℕ) (master_ip : Text) (c : Client) (stream : List ℕ)
    → All (λ u. IsComponent u.component) us
    → notices us ≡ ok stream
    → length us < fuel
    → listen fuel master_ip c stream ≡ (updated c (heard master_ip us), gone)
unfolding notices listen updated hear
listen-notices us zero master_ip c stream v e enough = absurd (omega (arith, enough))
listen-notices [] (suc fuel) master_ip c stream v e enough = rw (← ok_injective e, read-empty) refl
listen-notices (u ∷ us) (suc fuel) master_ip c stream (vu, vus) e enough =
    let (frame, frames, framed, rest, parts) = notices-parts u us stream e in
    let (payload, decodes, reads) =
      read-frame_of MessageType.update_components encode_update decode_update u frame (λ e. cc)
        (update-RoundTrips u vu) framed in
    rw (parts, reads frames, hear, notice-update master_ip u payload decodes)
      (listen-notices us fuel master_ip (on_component_update c (told master_ip u)).0 frames vus rest
        (omega (arith, enough)))
