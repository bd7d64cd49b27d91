-- ===== src/Flash/Slip/Resync.antt =====
-- The decoder on the bytes up to an END, whatever state it is in.
use hid_fi.Common.{
  ℕ, ◌≡◌, ◌≢◌, refl, sym, ap, ◌∙◌, Bool, true, false, Option, none, some, List, [], ◌∷◌, ◌++◌,
  arith, ◌==◌, Bool-cases, All, append_assoc, append-nil, inl, inr, ◌>>=◌,
}
use hid_fi.Flash.Slip.{end, esc, esc_end, esc_esc, Decoder, push, feed}
use hid_fi.Flash.Slip.Escape.{NotEnd, unescape}

-- The decoder between two frames.
abbrev pub ready : Decoder
ready = record { buf = []; in_esc = false; bad = false; started = true }

-- A decoder that has seen an END.
abbrev pub inside : List ℕ → Bool → Bool → Decoder
inside buf in_esc bad = record { buf = buf; in_esc = in_esc; bad = bad; started = true }

abbrev pub non_empty : List ℕ → List (List ℕ)
non_empty [] = []
non_empty (x ∷ xs) = (x ∷ xs) ∷ []

-- The frames that a body stands for: one, or none when it is malformed or empty.
abbrev pub delivered : List ℕ → Option (List ℕ) → List (List ℕ)
delivered buf none = []
delivered buf (some r) = non_empty (buf ++ r)

feed_step :
    (d d' : Decoder) (b : ℕ) (bs : List ℕ) (out : List (List ℕ))
    → push d b out ≡ (d', out)
    → feed d (b ∷ bs) out ≡ feed d' bs out
unfolding feed
feed_step d d' b bs out p = ap (λ (r : Decoder × List (List ℕ)). feed r.0 bs r.1) p

pub feed-append :
    (d : Decoder) (xs ys : List ℕ) (out : List (List ℕ))
    → feed d (xs ++ ys) out ≡ feed (feed d xs out).0 ys (feed d xs out).1
unfolding feed
feed-append d [] ys out = refl
feed-append d (x ∷ xs) ys out = feed-append (push d x out).0 xs ys (push d x out).1

-- A byte inside a bad frame leaves it bad.
bad_step :
    (b : ℕ) (buf : List ℕ) (e : Bool) (out : List (List ℕ))
    → b ≢ end
    → (buf' : List ℕ) × (e' : Bool) × (push (inside buf e true) b out ≡ (inside buf' e' true, out))
unfolding push
bad_step b buf true out h = elim (Bool-cases (b == esc_end)) [
  | inl p ↦ (buf ++ end ∷ [], false, ground arith)
  | inr p ↦ elim (Bool-cases (b == esc_esc)) [
    | inl q ↦ (buf ++ esc ∷ [], false, ground arith)
    | inr q ↦ (buf, false, ground arith)
  ]
]
bad_step b buf false out h = elim (Bool-cases (b == esc)) [
  | inl p ↦ (buf, true, ground arith)
  | inr p ↦ (buf ++ b ∷ [], false, ground arith)
]

feed-bad :
    (body buf : List ℕ) (e : Bool) (out : List (List ℕ))
    → All NotEnd body
    → feed (inside buf e true) (body ++ end ∷ []) out ≡ (ready, out)
unfolding feed
feed-bad [] buf e out h = unfold push in (ground arith)
feed-bad (b ∷ bs) buf e out h =
    let (buf', e', p) = bad_step b buf e out h.0 in
    feed_step (inside buf e true) (inside buf' e' true) b (bs ++ end ∷ []) out p
    ∙ feed-bad bs buf' e' out h.1

push-end-inside :
    (buf : List ℕ) (e : Bool) (out : List (List ℕ))
    → push (inside buf e false) end out ≡ (ready, out ++ non_empty buf)
unfolding push
push-end-inside [] e out = ap {B = Decoder × List (List ℕ)} (λ o. (ready, o)) (sym (append-nil out))
push-end-inside (x ∷ xs) e out = refl

delivered-cons :
    (buf : List ℕ) (b : ℕ) (o : Option (List ℕ))
    → delivered buf (o >>= λ r. some (b ∷ r)) ≡ delivered (buf ++ b ∷ []) o
delivered-cons buf b none = refl
delivered-cons buf b (some r) = ap non_empty (sym (append_assoc buf (b ∷ []) r))

-- One byte that a good frame may hold: the rest of the frame is read from the next state.
advance :
    (b : ℕ) (bs buf buf' : List ℕ) (e e' : Bool) (out : List (List ℕ))
    → push (inside buf e false) b out ≡ (inside buf' e' false, out)
    → feed (inside buf' e' false) (bs ++ end ∷ []) out
      ≡ (ready, out ++ delivered buf' (unescape e' bs))
    → delivered buf' (unescape e' bs) ≡ delivered buf (unescape e (b ∷ bs))
    → feed (inside buf e false) (b ∷ bs ++ end ∷ []) out
      ≡ (ready, out ++ delivered buf (unescape e (b ∷ bs)))
advance b bs buf buf' e e' out p q r =
    feed_step (inside buf e false) (inside buf' e' false) b (bs ++ end ∷ []) out p
    ∙ q
    ∙ ap {B = Decoder × List (List ℕ)} (λ o. (ready, out ++ o)) r

-- Up to the next END, the decoder delivers exactly what the body stands for.
pub feed-inside :
    (body buf : List ℕ) (e : Bool) (out : List (List ℕ))
    → All NotEnd body
    → feed (inside buf e false) (body ++ end ∷ []) out
      ≡ (ready, out ++ delivered buf (unescape e body))
feed-inside [] buf e out h =
    unfold feed in (rw (push-end-inside buf e out) (unfold unescape in (rw append-nil)))
feed-inside (b ∷ bs) buf true out h = elim (Bool-cases (b == esc_end)) [
  | inl p ↦
      advance b bs buf (buf ++ end ∷ []) true false out (unfold push in (ground arith))
        (feed-inside bs (buf ++ end ∷ []) false out h.1)
        (unfold unescape in (rw p (sym (delivered-cons buf end (unescape false bs)))))
  | inr p ↦ elim (Bool-cases (b == esc_esc)) [
    | inl q ↦
        advance b bs buf (buf ++ esc ∷ []) true false out (unfold push in (ground arith))
          (feed-inside bs (buf ++ esc ∷ []) false out h.1)
          (unfold unescape in (rw (p, q) (sym (delivered-cons buf esc (unescape false bs)))))
    | inr q ↦
        feed_step (inside buf true false) (inside buf false true) b (bs ++ end ∷ []) out
          (unfold push in (ground arith))
        ∙ feed-bad bs buf false out h.1
        ∙ unfold unescape in (rw (p, q) (rw append-nil))
  ]
]
feed-inside (b ∷ bs) buf false out h = elim (Bool-cases (b == esc)) [
  | inl p ↦
      advance b bs buf buf false true out (unfold push in (ground arith))
        (feed-inside bs buf true out h.1) (unfold unescape in (rw p))
  | inr p ↦
      advance b bs buf (buf ++ b ∷ []) false false out (unfold push in (ground arith))
        (feed-inside bs (buf ++ b ∷ []) false out h.1)
        (unfold unescape in (rw p (sym (delivered-cons buf b (unescape false bs)))))
]
