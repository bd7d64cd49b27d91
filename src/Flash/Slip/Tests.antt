-- ===== src/Flash/Slip/Tests.antt =====
-- Runs of the codec, and the theorems at concrete frames.
use hid_fi.Common.{ℕ, ◌≡◌, refl, false, List, [], ◌∷◌, ◌++◌, arith}
use hid_fi.Flash.Slip.{end, esc, escape, encode, new_decoder, push, feed}
use hid_fi.Flash.Slip.Resync.{ready, delivered}
use hid_fi.Flash.Slip.Escape.{unescape}
use hid_fi.Flash.Slip.Frames.{feed-body, feed-encode, feed-truncated_escape}

-- The crate's test frame with the special bytes.
round_trip :
    (feed new_decoder (encode (0x00 ∷ 0xC0 ∷ 0xDB ∷ 0x01 ∷ 0xDB ∷ 0xDC ∷ 0xC0 ∷ [])) []).1
    ≡ (0x00 ∷ 0xC0 ∷ 0xDB ∷ 0x01 ∷ 0xDB ∷ 0xDC ∷ 0xC0 ∷ []) ∷ []
unfolding feed encode push
round_trip = refl

-- A bad escape drops its frame and not the next.
bad_escape :
    (feed new_decoder (end ∷ 1 ∷ esc ∷ 0x42 ∷ 2 ∷ end ∷ encode (9 ∷ [])) []).1 ≡ (9 ∷ []) ∷ []
unfolding feed encode push
bad_escape = refl

feed-body_example :
    feed ready ((1 ∷ esc ∷ 0xDC ∷ []) ++ end ∷ []) []
    ≡ (ready, [] ++ delivered [] (unescape false (1 ∷ esc ∷ 0xDC ∷ [])))
feed-body_example = feed-body (1 ∷ esc ∷ 0xDC ∷ []) [] (omega arith)

feed-encode_example :
    feed new_decoder (encode (7 ∷ 0xC0 ∷ [])) []
    ≡ (ready, (push new_decoder end []).1 ++ (7 ∷ 0xC0 ∷ []) ∷ [])
feed-encode_example = feed-encode new_decoder 7 (0xC0 ∷ []) []

abbrev two_frames : List (List ℕ)
two_frames = (1 ∷ []) ∷ (2 ∷ 2 ∷ []) ∷ []

feed-truncated_escape_example :
    feed ready (escape (5 ∷ 6 ∷ []) ++ esc ∷ end ∷ []) [] ≡ (ready, [] ++ (5 ∷ 6 ∷ []) ∷ [])
feed-truncated_escape_example = feed-truncated_escape 5 (6 ∷ []) []
