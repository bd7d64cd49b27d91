-- ===== src/Flash/Proto/Tests.antt =====
-- The crate's test frames, and the theorems at concrete frames.
use hid_fi.Common.{ℕ, ◌≡◌, ◌≢◌, refl, none, some, List, [], ◌∷◌, ◌++◌, arith, All}
use hid_fi.Common.Bytes.{to_le_bytes, from_le_bytes, slice?}
use hid_fi.Flash.Proto.{
  Op, Response, op_code, request, checksum, parse_request, parse_response, status, from_u8,
  forbidden, payload, clear_force_download,
}
use hid_fi.Flash.Proto.Frames.{response, parse_request-request, parse_response_sound}
use hid_fi.Flash.Proto.Limits.{request-not_forbidden}

checksums : (checksum [] ≡ 0xEF) × (checksum (0xEF ∷ []) ≡ 0)
unfolding checksum
checksums = (refl, refl)

abbrev sample : List ℕ
sample = 0x01 ∷ 0x0A ∷ 2 ∷ 0 ∷ 0x78 ∷ 0x56 ∷ 0x34 ∷ 0x12 ∷ 0 ∷ 0 ∷ []

abbrev sample_response : Response
sample_response = record { op = 0x0A; value = 0x1234_5678; body = 0 ∷ 0 ∷ [] }

sample_parses : parse_response sample ≡ some sample_response
unfolding parse_response slice? from_le_bytes
sample_parses = refl

sample_status : status sample_response 0 ≡ some (0, 0)
unfolding status
sample_status = refl

length_past_the_frame : parse_response (0x01 ∷ 0x0A ∷ 9 ∷ 0 ∷ 0 ∷ 0 ∷ 0 ∷ 0 ∷ 0 ∷ []) ≡ none
unfolding parse_response slice? from_le_bytes
length_past_the_frame = refl

clear_payload :
    payload clear_force_download
    ≡ 0x2C ∷ 0x81 ∷ 0x00 ∷ 0x60 ∷ 0 ∷ 0 ∷ 0 ∷ 0 ∷ 1 ∷ 0 ∷ 0 ∷ 0 ∷ 0 ∷ 0 ∷ 0 ∷ 0 ∷ []
unfolding payload
clear_payload = refl

parse_request-request_example :
    parse_request (request Op.read_reg (0x44 ∷ 0x70 ∷ []) 7)
    ≡ some (record { op = op_code Op.read_reg; chk = 7; body = 0x44 ∷ 0x70 ∷ [] })
parse_request-request_example =
    parse_request-request Op.read_reg (0x44 ∷ 0x70 ∷ []) 7 (omega arith) (omega arith)

parse_response_sound_example :
    (rest : List ℕ) × (sample ≡ response 0x0A 0x1234_5678 ((0 ∷ 0 ∷ []) ++ rest) 2)
parse_response_sound_example =
    parse_response_sound sample sample_response (omega arith) sample_parses

request-not_forbidden_example :
    All (λ f. 0x04 ≢ f) forbidden × All (λ f. from_u8 f ≡ none) forbidden
unfolding request to_le_bytes
request-not_forbidden_example =
    request-not_forbidden Op.flash_end [] 0 0x04 (0 ∷ 0 ∷ 0 ∷ 0 ∷ 0 ∷ 0 ∷ []) refl
