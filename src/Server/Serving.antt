-- ===== src/Server/Serving.antt =====
-- src/server.cpp and src/session.cpp: the loop over the frames of a connection.
use srnp.Base.{ℕ, zero, suc, ◌<◌, ◌≤◌, ◌≡◌, ◌≢◌, refl, Bool, List, ◌++◌, ℤ, length, arith}
use srnp.Wire.{Result, ok, err, MessageType, max_payload, frame}
use srnp.Wire.Words.{IsSigned}
use srnp.Channel.{Received, received, malformed, disconnected, read}
use srnp.Channel.Reading.{Consumes, read-Consumes, read-frame}
use srnp.Server.{Server, handle, End, out_of_fuel, served, turn, run}

served-ends :
    (r : Server × Result Bool) (next_frame : Server → Server × End)
    → ((s : Server) → (next_frame s).1 ≢ out_of_fuel)
    → (served r next_frame).1 ≢ out_of_fuel
unfolding served
served-ends (s, err e) next_frame ends = λ same_end. cc
served-ends (s, ok done) next_frame ends = ends s

turn-ends :
    (next_frame : Server → List ℕ → Server × End) (s : Server) (now : ℤ) (r : Received) (n : ℕ)
    → Consumes n r
    → ((s' : Server) (rest : List ℕ) → length rest < n → (next_frame s' rest).1 ≢ out_of_fuel)
    → (turn next_frame s now r).1 ≢ out_of_fuel
unfolding turn
turn-ends next_frame s now (malformed e) n v ends = λ same_end. cc
turn-ends next_frame s now disconnected n v ends = λ same_end. cc
turn-ends next_frame s now (received got rest) n v ends =
    served-ends (handle s now got) (λ s'. next_frame s' rest) (λ s'. ends s' rest v)

-- The loop ends on every stream, however the handlers go: fuel above the length of the stream is
-- enough, since every frame takes bytes off it.
pub run-ends :
    (fuel : ℕ) (clock : ℕ → ℤ) (s : Server) (stream : List ℕ)
    → length stream < fuel
    → (run fuel clock s stream).1 ≢ out_of_fuel
unfolding run
run-ends zero clock s stream enough = absurd (omega (arith, enough))
run-ends (suc fuel) clock s stream enough =
    turn-ends (run fuel clock) s (clock fuel) (read stream) fuel
      (read-Consumes stream fuel (omega (arith, enough))) (run-ends fuel clock)

-- A frame that `frame` builds is read back from the front of a stream, with its type, its subscriber
-- and its payload, and what is behind it stays: the loop handles it, and goes on with the rest.
pub run-frame :
    (type : MessageType) (payload : List ℕ) (subscriber : ℤ)
    → type ≢ MessageType.invalid
    → IsSigned 4 subscriber
    → length payload ≤ max_payload
    → (bytes : List ℕ) × (frame type payload subscriber ≡ ok bytes)
      × ((fuel : ℕ) (clock : ℕ → ℤ) (s : Server) (rest : List ℕ)
          → run (suc fuel) clock s (bytes ++ rest)
            ≡ served
                (handle s (clock fuel) (record {
                  header = record {
                    type = type;
                    payload_length = length payload;
                    subscriber = subscriber;
                  };
                  payload = payload;
                }))
                (λ s'. run fuel clock s' rest))
unfolding run turn
run-frame type payload subscriber known fits short =
    let (bytes, built, reads) = read-frame type payload subscriber known fits short in
    (bytes, built, λ fuel clock s rest. rw (reads rest, turn) refl)
