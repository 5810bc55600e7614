-- ===== src/MasterLink/Tests.antt =====
-- A component that registers with a master that has one other, and what it hears later.
use srnp.Base.{
  lookup, int_order, some, ℕ, ◌≡◌, refl, List, [], ◌∷◌, ◌++◌, pos, codes, arith, int_order,
}
use srnp.Wire.{
  ok, frame, frame_of, take_buffer, ◌>>=◌, write_integer, write_signed, write_string, append_bytes,
  guard, le_bytes, bits, encode_header, write_header,
}
use srnp.Messages.{UpdateComponents, Operation}
use srnp.Codec.{encode_component, encode_update}
use srnp.Channel.{Frame, received, read}
use srnp.MasterHub.{all_components, arrive}
use srnp.Client.{new_client}
use srnp.Client.Table.{updated}
use srnp.PairSpace.{empty_space}
use srnp.Server.{gone}
use srnp.MasterLink.{presence_of, all_reachable, welcomed, read_reply, listen}
use srnp.MasterLink.Registering.{registering, read_reply-registration}
use srnp.MasterLink.Listening.{notices, heard, listen-notices}
use srnp.MasterLink.Examples.{
  draw, hub, bytes_of, welcome, request, reply, built_request, built_reply, registered, short_port,
}

read_reply-registration_example :
    (hello : Frame) × ((more : List ℕ) → read (request ++ more) ≡ received hello more)
    × ((arrive draw hub (codes "10.0.0.3") hello).owner ≡ pos 7)
    × (lookup (pos 7) (arrive draw hub (codes "10.0.0.3") hello).hub.sessions
        ≡ some (registering (codes "10.0.0.3") (presence_of 40000 (pos 7))))
    × ((rest : List ℕ)
        → read_reply (codes "10.0.0.9") (reply ++ rest)
          ≡ welcomed
              (record {
                owner = pos 7;
                all_components = all_reachable (codes "10.0.0.9") (all_components hub.sessions);
              })
              rest)
read_reply-registration_example =
    read_reply-registration draw hub (codes "10.0.0.3") (codes "10.0.0.9") 40000 (pos 7) welcome
      request reply short_port built_request (omega arith) registered built_reply

abbrev arrived : UpdateComponents
arrived = record {
  operation = Operation.add;
  component = record { owner = pos 1001; ip = codes "127.0.0.1"; port = codes "40002" };
}

abbrev announcement : List ℕ
announcement = bytes_of (notices (arrived ∷ []))

built_notices : notices (arrived ∷ []) ≡ ok announcement
unfolding notices frame_of frame take_buffer ◌>>=◌ write_integer write_signed write_string
    append_bytes guard le_bytes bits encode_header write_header encode_update encode_component
built_notices = refl

listen-notices_example :
    listen 2 (codes "10.0.0.9") (new_client empty_space) announcement
    ≡ (updated (new_client empty_space) (heard (codes "10.0.0.9") (arrived ∷ [])), gone)
listen-notices_example =
    listen-notices (arrived ∷ []) 2 (codes "10.0.0.9") (new_client empty_space) announcement
      (omega arith) built_notices (omega arith)
