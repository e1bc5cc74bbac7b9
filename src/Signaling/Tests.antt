-- ===== src/Signaling/Tests.antt =====
-- Runs of src/signaling/signaling.c.
use tinyrtc.Prelude.{
  ℕ, ◌+◌, ◌*◌, ◌/◌, ◌≤◌, ◌<◌, ◌≡◌, ◌⊎◌, inl, refl, true, List, [], ◌∷◌, ◌++◌, arith, length, concat,
  map, none, some,
}
use tinyrtc.Signaling.{Incoming, Signaling, connected, byte, want}
use tinyrtc.Signaling.Frames.{message, sent, send_ws_frame, read_ws_frame, process}
use tinyrtc.Signaling.Stream.{stream}
use tinyrtc.Signaling.Exchange.{read_ws_frame-send_ws_frame}
use tinyrtc.Signaling.Safety.{IsValid, get_parts, process-IsValid}
use tinyrtc.Signaling.Fragmented.{
  first_part, middle_part, last_part, accept_all, Verdict, accept_all_lem,
}
use tinyrtc.Signaling.Base64.{base64_encode, encode_groups}
use tinyrtc.Signaling.Decoding.{decode, base64_encode_lem}
use tinyrtc.Signaling.Json.{
  offer_head, description_json, extract_sdp_value, message_type, offer, json_escape,
}
use tinyrtc.Signaling.Escaped.{escape_all, ends_with_backslash, extract_sdp_value-description_json}

abbrev client : Signaling
client = record { state = connected; recv_buf = []; message_buf = none }

abbrev mask : List ℕ
mask = 1 ∷ 2 ∷ 3 ∷ 4 ∷ []

-- The frame is followed by a byte of the next one.
read_ws_frame-send_ws_frame_example :
    (wire : List ℕ) × (send_ws_frame (λ _. true) client 1 mask (72 ∷ 105 ∷ [])
      ≡ (true, client, sent wire ∷ []))
    × (read_ws_frame (λ _. true) true mask client (stream wire (byte 129 ∷ want ∷ []))
        ≡ ((true, (true, client, message (72 ∷ 105 ∷ []) ∷ [])), byte 129 ∷ want ∷ []))
read_ws_frame-send_ws_frame_example =
    read_ws_frame-send_ws_frame (λ _. true) true mask mask (72 ∷ 105 ∷ []) client client
      (byte 129 ∷ want ∷ []) refl refl refl (omega arith)

accept_all_example :
    Verdict 5 ((1 ∷ []) ++ (concat ((2 ∷ 3 ∷ []) ∷ (4 ∷ []) ∷ []) ++ (5 ∷ []))) client (
      accept_all
        (λ _. true)
        true
        mask
        client
        (first_part (1 ∷ [])
          ∷ (map middle_part ((2 ∷ 3 ∷ []) ∷ (4 ∷ []) ∷ []) ++ (last_part (5 ∷ []) ∷ []))))
accept_all_example =
    accept_all_lem (λ _. true) mask client (1 ∷ []) (5 ∷ []) ((2 ∷ 3 ∷ []) ∷ (4 ∷ []) ∷ []) refl
      refl

-- "Man", "M" and a buffer that is too small.
man : base64_encode (77 ∷ 97 ∷ 110 ∷ []) 5 ≡ some (84 ∷ 87 ∷ 70 ∷ 117 ∷ [])
unfolding base64_encode encode_groups
man = refl

abbrev letter : List ℕ
letter = 77 ∷ []

base64_encode_example :
    ((text : List ℕ) × (base64_encode letter 4 ≡ some text)
      × (decode text ≡ letter)
      × (length text ≡ (length letter + 2) / 3 * 4)
      × (length text < 4))
    ⊎ (base64_encode letter 4 ≡ none) × (4 ≤ (length letter + 2) / 3 * 4)
base64_encode_example = base64_encode_lem letter 4 (omega arith, tt)

-- v=0, a line end and a quote.
abbrev text : List ℕ
text = 118 ∷ 61 ∷ 48 ∷ 13 ∷ 10 ∷ 34 ∷ []

escape_text : escape_all text ≡ 118 ∷ 61 ∷ 48 ∷ 92 ∷ 114 ∷ 92 ∷ 110 ∷ 92 ∷ 34 ∷ []
unfolding escape_all
escape_text = refl

extract_sdp_value-description_json_example :
    (json : List ℕ) × (description_json offer_head text ≡ some json)
    × (extract_sdp_value json ≡ some text)
unfolding escape_all ends_with_backslash
extract_sdp_value-description_json_example =
    extract_sdp_value-description_json offer_head text (inl refl) (omega arith) refl

type_of_offer : message_type (offer_head ++ text) ≡ some offer
unfolding message_type
type_of_offer = refl

-- An escape that does not fit is dropped, and what follows it is kept.
dropped : json_escape 3 (34 ∷ 34 ∷ 65 ∷ []) ≡ 92 ∷ 34 ∷ []
unfolding json_escape
dropped = refl

lost_quote : json_escape 3 (65 ∷ 34 ∷ 66 ∷ []) ≡ 65 ∷ 66 ∷ []
unfolding json_escape
lost_quote = refl

-- The first byte of a frame is gone when the second one is not there yet.
lost_byte :
    process (λ _. true) true mask client (byte 129 ∷ want ∷ byte 0 ∷ [])
    ≡ ((true, client, []), byte 0 ∷ [])
unfolding process
lost_byte = refl

-- The continuation of a message, whose frame is complete.
abbrev waiting : Signaling
waiting = record { state = connected; recv_buf = []; message_buf = some (1 ∷ 2 ∷ []) }

abbrev continuation : List Incoming
continuation = byte 128 ∷ byte 2 ∷ byte 3 ∷ byte 4 ∷ want ∷ []

process-IsValid_example :
    ((process (λ _. true) true mask waiting continuation).0.0 ≡ true)
    × ((process (λ _. true) true mask waiting continuation).0.1.state ≡ connected
        → IsValid (process (λ _. true) true mask waiting continuation).0.1)
unfolding get_parts
process-IsValid_example =
    process-IsValid (λ _. true) true mask waiting continuation
      (λ _. record { empty = refl; parts_fit = omega arith })

put_together :
    process (λ _. true) true mask waiting continuation
    ≡ ((true, client, message (1 ∷ 2 ∷ 3 ∷ 4 ∷ []) ∷ []), want ∷ [])
unfolding process
put_together = refl
