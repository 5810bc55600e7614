-- ===== src/Server/Replicas.antt =====
-- src/server.cpp and src/client.cpp together: what the owner of a pair fans out, as its subscriber
-- holds it.
use srnp.Base.{
  ℕ, suc, ◌≡◌, refl, sym, ap, List, [], ◌++◌, Option, none, some, ℤ, negsuc, length, ◌∙◌,
  Option-cases, inl, inr, values, arith,
}
use srnp.Client.{Client}
use srnp.Wire.{Result, ok, err, MessageType, frame_of}
use srnp.Messages.{Pair}
use srnp.Codec.{encode_pair, decode_pair, decode_payload}
use srnp.Codec.RoundTrip.{IsPair, decode-encode_pair}
use srnp.PairSpace.{
  Callback, PairEntry, PairSpace, copy_of, find, added_entry, universal_callbacks_of,
}
use srnp.PairSpace.Invariant.{IsSpace}
use srnp.PairSpace.Values.{expiry_or, added_pair, added-reads}
use srnp.Wire.Results.{ok_injective}
use srnp.Channel.Reading.{frame_of-payload}
use srnp.Server.{
  Server, space_of, calls, forwarded, apply_and_notify, handle_pair_update, handle, served, run,
}
use srnp.Server.Spaces.{space-apply_and_notify}
use srnp.Server.Serving.{run-frame}

-- The handler of an update that was encoded from a pair applies that pair.
handle-encoded :
    (s : Server) (now : ℤ) (p : Pair) (payload : List ℕ)
    → decode_payload decode_pair payload ≡ ok p
    → handle s now (record {
      header = record {
        type = MessageType.pair_update;
        payload_length = length payload;
        subscriber = negsuc 0;
      };
      payload = payload;
    })
      ≡ apply_and_notify s now p
unfolding handle handle_pair_update
handle-encoded s now p payload decodes = rw (decodes, handle_pair_update) refl

-- The callbacks for a key, in the order of their handles.
abbrev pub callbacks_at : Option PairEntry → List Callback
callbacks_at none = []
callbacks_at (some entry) = values entry.callbacks

-- What is done with the frames leaves the calls that were made.
called-forwarded : (s : Server) (r : Result Client) → (forwarded s r).0.called ≡ s.called
unfolding forwarded
called-forwarded s (err e) = refl
called-forwarded s (ok client) = refl

-- The pair as a subscriber holds it that applies it.
abbrev pub replica : PairSpace → ℤ → Pair → Pair
replica space now p = record p {
  write_time = now;
  expiry_time = expiry_or (copy_of space p.owner p.key) p.expiry_time;
}

callbacks-added_entry :
    (space : PairSpace) (now : ℤ) (p : Pair)
    → values (added_entry space now p).callbacks ≡ callbacks_at (find space p.owner p.key)
unfolding added_entry
callbacks-added_entry space now p = elim (Option-cases (find space p.owner p.key)) [
  | inl absent ↦ rw (absent, added_entry) refl
  | inr (entry, found) ↦ rw (found, added_entry) refl
]

called-apply_and_notify :
    (s : Server) (now : ℤ) (p : Pair)
    → IsSpace (space_of s)
    → (apply_and_notify s now p).0.called
      ≡ s.called
        ++ calls
            (replica (space_of s) now p)
            (universal_callbacks_of (space_of s) ++ callbacks_at (find (space_of s) p.owner p.key))
unfolding apply_and_notify
called-apply_and_notify s now p v =
    called-forwarded _ _
    ∙ ap (λ r. s.called ++ calls r.0 (universal_callbacks_of (space_of s) ++ r.1))
        (pair_of (added_pair (space_of s) now p v) (callbacks-added_entry (space_of s) now p))
  where
    pair_of :
        {q q' : Pair} {cs cs' : List Callback}
        → q ≡ q'
        → cs ≡ cs'
        → Path (Pair × List Callback) (q, cs) (q', cs')
    pair_of a b = rw (a, b) refl

-- The bytes that the owner of a pair fans out for it, anywhere in a connection, are read by the
-- subscriber's server as exactly that pair: it is applied, and the loop goes on with what is behind it.
-- The subscriber then holds the pair as the owner sent it, but for the time of the write, which is the
-- subscriber's own, and the expiry time of a copy that it had. Its callbacks for every pair have been
-- called with that copy, and then those for this one.
pub run-update :
    (p : Pair) (bytes : List ℕ) (fuel : ℕ) (clock : ℕ → ℤ) (s : Server) (rest : List ℕ)
    → IsPair p
    → frame_of MessageType.pair_update (encode_pair p) ≡ ok bytes
    → IsSpace (space_of s)
    → (run (suc fuel) clock s (bytes ++ rest)
        ≡ served (apply_and_notify s (clock fuel) p) (λ s'. run fuel clock s' rest))
      × (copy_of (space_of (apply_and_notify s (clock fuel) p).0) p.owner p.key
          ≡ some (replica (space_of s) (clock fuel) p))
      × ((apply_and_notify s (clock fuel) p).0.called
          ≡ s.called
            ++ calls (replica (space_of s) (clock fuel) p) (
                universal_callbacks_of (space_of s)
                ++ callbacks_at (find (space_of s) p.owner p.key)))
run-update p bytes fuel clock s rest fits built v =
    let (payload, encoded, decodes) = decode-encode_pair p fits in
    let (short, framed) =
      frame_of-payload MessageType.pair_update (encode_pair p) payload bytes encoded built in
    let (sent, same_frame, reads) =
      run-frame MessageType.pair_update payload (negsuc 0) (λ e. cc) (omega arith) short in
    let same_bytes : sent ≡ bytes = ok_injective (sym same_frame ∙ framed) in
    (
      rw (← same_bytes, reads fuel clock s rest, handle-encoded s (clock fuel) p payload decodes)
          refl,
      rw (space-apply_and_notify s (clock fuel) p) (added-reads (space_of s) (clock fuel) p v).0,
      called-apply_and_notify s (clock fuel) p v,
    )
