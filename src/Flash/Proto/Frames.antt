-- ===== src/Flash/Proto/Frames.antt =====
-- Frames and their parsers agree, both ways.
use hid_fi.Common.{
  ℕ, ◌+◌, ◌%◌, ◌^◌, ◌<◌, ◌≡◌, refl, sym, ap, ltb, ltb-false, ◌∙◌, false, drop, take,
  take-append-drop, Option, none, some, List, [], ◌∷◌, ◌++◌, arith, length, length-append,
  append_assoc, append-nil, take, All, ◌>>=◌,
}
use hid_fi.Common.Bytes.{
  to_le_bytes, from_le_bytes, slice?, slice?_append, slice?_eq_some, to_le_bytes-from_le_bytes,
  length-to_le_bytes, from_le_bytes-to_le_bytes, IsByte,
}
use hid_fi.Flash.Proto.{Op, op_code, request, parse_request, Response, parse_response, parse_fields}

-- What the chip sends: `n` of the bytes behind the header are the data.
unfoldable pub response : ℕ → ℕ → List ℕ → ℕ → List ℕ
response op value bytes n = 0x01 ∷ op ∷ (to_le_bytes 2 n ++ (to_le_bytes 4 value ++ bytes))

module _ (dir op : ℕ) (len_bytes word body rest : List ℕ) where
  parse_fields-append :
      length len_bytes ≡ 2
      → length word ≡ 4
      → from_le_bytes len_bytes ≡ length body
      → parse_fields (dir ∷ op ∷ (len_bytes ++ (word ++ (body ++ rest))))
        ≡ some (record { op = op; value = from_le_bytes word; body = body })
  unfolding parse_fields
  parse_fields-append hl hw hb =
      rw (slice?_append (dir ∷ op ∷ []) len_bytes (word ++ (body ++ rest)) 2 4 refl (omega arith)) (
        rw
          (slice?_append (dir ∷ op ∷ len_bytes) word (body ++ rest) 4 8 (omega arith) (omega arith))
          (rw last_slice))
    where
      last_slice :
          slice?
            (dir ∷ op ∷ (len_bytes ++ (word ++ (body ++ rest))))
            8
            (8 + from_le_bytes len_bytes)
          ≡ some body
      last_slice =
          ap (λ (t : List ℕ). slice? (dir ∷ op ∷ t) 8 (8 + from_le_bytes len_bytes))
            (sym (append_assoc len_bytes word (body ++ rest)))
          ∙ slice?_append (dir ∷ op ∷ (len_bytes ++ word)) body rest 8 (8 + from_le_bytes len_bytes)
              (omega (arith, length-append len_bytes word))
              (omega (arith, length-append len_bytes word))

-- A frame as both sides lay it out, with anything behind it.
abbrev layout : ℕ → ℕ → ℕ → ℕ → List ℕ → List ℕ
layout dir op n value bytes = dir ∷ op ∷ (to_le_bytes 2 n ++ (to_le_bytes 4 value ++ bytes))

layout_long :
    (dir op n value : ℕ) (bytes : List ℕ) → ltb (length (layout dir op n value bytes)) 8 ≡ false
layout_long dir op n value bytes = ltb-false _ 8 (
    omega (
      arith,
      length-append (to_le_bytes 2 n) (to_le_bytes 4 value ++ bytes),
      length-append (to_le_bytes 4 value) bytes,
      length-to_le_bytes 2 n,
      length-to_le_bytes 4 value,
    ))

parse_fields-layout :
    (dir op n value : ℕ) (body rest : List ℕ)
    → n ≡ length body
    → n < 2 ^ 16
    → value < 2 ^ 32
    → parse_fields (layout dir op n value (body ++ rest))
      ≡ some (record { op = op; value = value; body = body })
parse_fields-layout dir op n value body rest hn hl hv =
    parse_fields-append dir op (to_le_bytes 2 n) (to_le_bytes 4 value) body rest
      (length-to_le_bytes 2 n) (length-to_le_bytes 4 value) (from_le_bytes-to_le_bytes 2 n hl ∙ hn)
    ∙ ap (λ (v : ℕ). some (record { op = op; value = v; body = body }))
        (from_le_bytes-to_le_bytes 4 value hv)

-- Every request built from 16 bits' worth of data and a 32-bit checksum is read back whole by the
-- other side.
pub parse_request-request :
    (op : Op) (body : List ℕ) (chk : ℕ)
    → length body < 2 ^ 16
    → chk < 2 ^ 32
    → parse_request (request op body chk)
      ≡ some (record { op = op_code op; chk = chk; body = body })
unfolding parse_request request
parse_request-request op body chk hl hc =
    rw (layout_long 0 (op_code op) (length body % 2 ^ 16) chk body) (rw fields_lem)
  where
    fields_lem :
        parse_fields (layout 0 (op_code op) (length body % 2 ^ 16) chk body)
        ≡ some (record { op = op_code op; value = chk; body = body })
    fields_lem =
        ap (λ (t : List ℕ). parse_fields (layout 0 (op_code op) (length body % 2 ^ 16) chk t))
          (sym (append-nil body))
        ∙ parse_fields-layout 0 (op_code op) (length body % 2 ^ 16) chk body [] (omega arith)
            (omega arith) hc

-- A response built from 16 bits' worth of data and a 32-bit value is read back whole, whatever
-- bytes stand behind it.
pub parse_response-response :
    (op value : ℕ) (body rest : List ℕ)
    → length body < 2 ^ 16
    → value < 2 ^ 32
    → parse_response (response op value (body ++ rest) (length body))
      ≡ some (record { op = op; value = value; body = body })
unfolding parse_response response
parse_response-response op value body rest hl hv =
    rw (layout_long 1 op (length body) value (body ++ rest))
      (parse_fields-layout 1 op (length body) value body rest refl hl hv)

read_body-inv :
    (op value : ℕ) (o : Option (List ℕ)) (r : Response)
    → (do body ← o; some (record { op = op; value = value; body = body })) ≡ some r
    → (o ≡ some r.body) × (op ≡ r.op) × (value ≡ r.value)
read_body-inv op value none r h = cc
read_body-inv op value (some b) r h = (ground arith, ground arith, ground arith)

module _ (d op l0 l1 v0 v1 v2 v3 : ℕ) (bs : List ℕ) (r : Response) where
  abbrev eight : List ℕ
  eight = d ∷ op ∷ l0 ∷ l1 ∷ v0 ∷ v1 ∷ v2 ∷ v3 ∷ bs

  abbrev len_word : ℕ
  len_word = from_le_bytes (l0 ∷ l1 ∷ [])

  fields_inv :
      parse_fields eight ≡ some r
      → (slice? eight 8 (8 + len_word) ≡ some r.body)
        × (op ≡ r.op)
        × (from_le_bytes (v0 ∷ v1 ∷ v2 ∷ v3 ∷ []) ≡ r.value)
  unfolding parse_fields
  fields_inv h =
      read_body-inv op (from_le_bytes (v0 ∷ v1 ∷ v2 ∷ v3 ∷ [])) (slice? eight 8 (8 + len_word)) r (
        rw (slice?_append (d ∷ op ∷ l0 ∷ l1 ∷ []) (v0 ∷ v1 ∷ v2 ∷ v3 ∷ []) bs 4 8 refl refl) at (
          rw (slice?_append (d ∷ op ∷ []) (l0 ∷ l1 ∷ []) (v0 ∷ v1 ∷ v2 ∷ v3 ∷ bs) 2 4 refl refl) at
            h))

  body_lem :
      slice? eight 8 (8 + len_word) ≡ some r.body
      → (length r.body ≡ len_word) × (r.body ++ drop len_word bs ≡ bs)
  body_lem h =
      let (e, _, cut) = slice?_eq_some eight r.body 8 (8 + len_word) h in
      (
        omega arith,
        ap (λ (t : List ℕ). t ++ drop len_word bs) (cut ∙ ap (λ (k : ℕ). take k bs) (omega arith))
            ∙ take-append-drop len_word bs,
      )

  response_of_parts :
      All IsByte eight
      → d ≡ 1
      → (slice? eight 8 (8 + len_word) ≡ some r.body)
        × (op ≡ r.op)
        × (from_le_bytes (v0 ∷ v1 ∷ v2 ∷ v3 ∷ []) ≡ r.value)
      → (rest : List ℕ) × (eight ≡ response r.op r.value (r.body ++ rest) (length r.body))
  unfolding response
  response_of_parts hb hd parts =
      let (e_len, e_body) = body_lem parts.0 in
      (
        drop len_word bs,
        rw
            (
              e_body,
              ap (to_le_bytes 2) e_len ∙ to_le_bytes-from_le_bytes (l0 ∷ l1 ∷ []) (omega arith),
              ap (to_le_bytes 4) (sym parts.2)
                  ∙ to_le_bytes-from_le_bytes (v0 ∷ v1 ∷ v2 ∷ v3 ∷ []) (omega arith),
            )
            (cc),
      )

-- An accepted frame is the layout of the fields that were read, so the data never reach past it.
pub parse_response_sound :
    (frame : List ℕ) (r : Response)
    → All IsByte frame
    → parse_response frame ≡ some r
    → (rest : List ℕ) × (frame ≡ response r.op r.value (r.body ++ rest) (length r.body))
unfolding parse_response
parse_response_sound (d ∷ op ∷ l0 ∷ l1 ∷ v0 ∷ v1 ∷ v2 ∷ v3 ∷ bs) r hb h =
    response_of_parts d op l0 l1 v0 v1 v2 v3 bs r hb (ground arith)
      (fields_inv d op l0 l1 v0 v1 v2 v3 bs r (ground arith))
parse_response_sound _ r hb h = cc
