-- ===== src/Flash/Slip/Frames.antt =====
-- The decoder on whole frames.
use hid_fi.Common.{
  ℕ, ◌≡◌, ◌≢◌, refl, sym, ap, ◌∙◌, false, List, [], ◌∷◌, ◌++◌, arith, All, All-append, append_assoc,
  append-nil,
}
use hid_fi.Flash.Slip.{end, esc, escape, encode, Decoder, push, feed}
use hid_fi.Flash.Slip.Escape.{
  NotEnd, escape-NotEnd, unescape, unescape-escape, unescape-escape_self,
}
use hid_fi.Flash.Slip.Resync.{ready, delivered, feed-append, feed-inside}

-- What a sender writes for several frames.
unfoldable pub encode_all : List (List ℕ) → List ℕ
encode_all [] = []
encode_all (f ∷ fs) = encode f ++ encode_all fs

-- Between two frames, any bytes up to an END deliver the one frame that they stand for, and
-- nothing when they are malformed or empty; the decoder is then between two frames again.
pub feed-body :
    (body : List ℕ) (out : List (List ℕ))
    → All NotEnd body
    → feed ready (body ++ end ∷ []) out ≡ (ready, out ++ delivered [] (unescape false body))
feed-body body out h = feed-inside body [] false out h

-- From any state, reached by whatever noise, the encoding of a non-empty frame is delivered as
-- the last frame, and the decoder ends between two frames.
pub feed-encode :
    (d : Decoder) (b : ℕ) (frame : List ℕ) (out : List (List ℕ))
    → feed d (encode (b ∷ frame)) out ≡ (ready, (push d end out).1 ++ (b ∷ frame) ∷ [])
unfolding encode feed push
feed-encode d b frame out =
    feed-body (escape (b ∷ frame)) (push d end out).1 (escape-NotEnd (b ∷ frame))
    ∙ rw (unescape-escape_self (b ∷ frame))

-- Frames encoded one after another are delivered in order, each once.
pub feed-encode_all :
    (frames out : List (List ℕ))
    → All (λ f. f ≢ []) frames
    → feed ready (encode_all frames) out ≡ (ready, out ++ frames)
unfolding encode_all push feed
feed-encode_all [] out h = rw append-nil
feed-encode_all ([] ∷ fs) out h = absurd (h.0 refl)
feed-encode_all ((b ∷ f) ∷ fs) out h =
    feed-append ready (encode (b ∷ f)) (encode_all fs) out
    ∙ ap (λ (r : Decoder × List (List ℕ)). feed r.0 (encode_all fs) r.1) (feed-encode ready b f out)
    ∙ feed-encode_all fs (out ++ (b ∷ f) ∷ []) h.1
    ∙ ap {B = Decoder × List (List ℕ)} (λ o. (ready, o)) (append_assoc out ((b ∷ f) ∷ []) fs)

-- An ESC that the END cuts off is dropped, and the frame before it is still delivered.
pub feed-truncated_escape :
    (b : ℕ) (frame : List ℕ) (out : List (List ℕ))
    → feed ready (escape (b ∷ frame) ++ esc ∷ end ∷ []) out ≡ (ready, out ++ (b ∷ frame) ∷ [])
unfolding unescape
feed-truncated_escape b frame out =
    ap (λ (t : List ℕ). feed ready t out)
      (sym (append_assoc (escape (b ∷ frame)) (esc ∷ []) (end ∷ [])))
    ∙ feed-body (escape (b ∷ frame) ++ esc ∷ []) out (
        All-append NotEnd (escape (b ∷ frame)) (esc ∷ []) (escape-NotEnd (b ∷ frame)) (omega arith))
    ∙ rw (unescape-escape (b ∷ frame) (esc ∷ [])) (rw append-nil)
