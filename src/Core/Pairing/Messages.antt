-- ===== src/Core/Pairing/Messages.antt =====
-- The signed messages name their fields unambiguously.
use hid_fi.Common.{ℕ, ◌≡◌, ◌≢◌, refl, sym, ap, ap₂, ◌∙◌, [], ◌∷◌, ◌++◌, arith, All}
use hid_fi.Common.Text.{Text, codes, show_nat, read_from}
use hid_fi.Common.Decimal.{IsDigit, show_nat-IsDigit, read_from-show_nat}
use hid_fi.Core.Pairing.{bar, join_bar, beat_message, ota_message}

abbrev pub NoBar : Text → Type 0
NoBar = All (λ c. c ≢ bar)

head_eq : {x y : ℕ} {xs ys : Text} → x ∷ xs ≡ y ∷ ys → (x ≡ y) × (xs ≡ ys)
head_eq h = (cc, cc)

-- The first bar ends the first field.
first_field : (f g r s : Text) → NoBar f → NoBar g → f ++ bar ∷ r ≡ g ++ bar ∷ s → (f ≡ g) × (r ≡ s)
first_field [] [] r s hf hg h = (refl, cc)
first_field [] (y ∷ g) r s hf hg h = absurd (hg.0 (sym (head_eq h).0))
first_field (x ∷ f) [] r s hf hg h = absurd (hf.0 (head_eq h).0)
first_field (x ∷ f) (y ∷ g) r s hf hg h =
    let (e, t) = head_eq h in
    let (f-eq, r-eq) = first_field f g r s hf.1 hg.1 t in (ap₂ ◌∷◌ e f-eq, r-eq)

NoBar-before : (u r s : Text) → NoBar r → ¬ (r ≡ u ++ bar ∷ s)
NoBar-before [] [] s hr h = cc
NoBar-before [] (x ∷ r) s hr h = hr.0 (head_eq h).0
NoBar-before (y ∷ u) [] s hr h = cc
NoBar-before (y ∷ u) (x ∷ r) s hr h = NoBar-before u r s hr.1 (head_eq h).1

-- The last bar begins the last field.
last_field : (u v r s : Text) → NoBar r → NoBar s → u ++ bar ∷ r ≡ v ++ bar ∷ s → (u ≡ v) × (r ≡ s)
last_field [] [] r s hr hs h = (refl, cc)
last_field [] (y ∷ v) r s hr hs h = absurd (NoBar-before v r s hr (head_eq h).1)
last_field (x ∷ u) [] r s hr hs h = absurd (NoBar-before u s r hs (sym (head_eq h).1))
last_field (x ∷ u) (y ∷ v) r s hr hs h =
    let (e, t) = head_eq h in
    let (u-eq, r-eq) = last_field u v r s hr hs t in (ap₂ ◌∷◌ e u-eq, r-eq)

digits-NoBar : (xs : Text) → All IsDigit xs → NoBar xs
digits-NoBar [] h = tt
digits-NoBar (x ∷ xs) h = (λ e. omega arith, digits-NoBar xs h.1)

-- Two heartbeats with the same signed message agree in every field, when no text field of them
-- holds a bar.
pub beat_message-injective :
    (id id' : Text) (port port' : ℕ) (fp fp' tn tn' chal chal' : Text)
    → NoBar id
    → NoBar id'
    → NoBar fp
    → NoBar fp'
    → NoBar tn
    → NoBar tn'
    → beat_message id port fp tn chal ≡ beat_message id' port' fp' tn' chal'
    → (id ≡ id') × (port ≡ port') × (fp ≡ fp') × (tn ≡ tn') × (chal ≡ chal')
unfolding beat_message
beat_message-injective id id' port port' fp fp' tn tn' chal chal' i i' f f' t t' h =
    let r0 =
      first_field (codes "beat") (codes "beat") (join_bar id (show_nat port ∷ fp ∷ tn ∷ chal ∷ []))
        (join_bar id' (show_nat port' ∷ fp' ∷ tn' ∷ chal' ∷ [])) (omega arith) (omega arith) h in
    let r1 =
      first_field id id' (join_bar (show_nat port) (fp ∷ tn ∷ chal ∷ []))
        (join_bar (show_nat port') (fp' ∷ tn' ∷ chal' ∷ [])) i i' r0.1 in
    let r2 =
      first_field (show_nat port) (show_nat port') (join_bar fp (tn ∷ chal ∷ []))
        (join_bar fp' (tn' ∷ chal' ∷ [])) (digits-NoBar (show_nat port) (show_nat-IsDigit port))
        (digits-NoBar (show_nat port') (show_nat-IsDigit port')) r1.1 in
    let r3 = first_field fp fp' (join_bar tn (chal ∷ [])) (join_bar tn' (chal' ∷ [])) f f' r2.1 in
    let r4 = first_field tn tn' chal chal' t t' r3.1 in
    (
      r1.0,
      sym (read_from-show_nat port) ∙ ap (read_from 0) r2.0 ∙ read_from-show_nat port',
      r3.0,
      r4.0,
      r4.1,
    )

-- Two update requests with the same signed message agree in every field, whatever the address
-- holds, when no other field holds a bar.
pub ota_message-injective :
    (id id' act act' url url' chal chal' : Text)
    → NoBar id
    → NoBar id'
    → NoBar act
    → NoBar act'
    → NoBar chal
    → NoBar chal'
    → ota_message id act url chal ≡ ota_message id' act' url' chal'
    → (id ≡ id') × (act ≡ act') × (url ≡ url') × (chal ≡ chal')
unfolding ota_message
ota_message-injective id id' act act' url url' chal chal' i i' a a' c c' h =
    let r0 =
      first_field (codes "ota") (codes "ota") (join_bar id (act ∷ url ∷ chal ∷ []))
        (join_bar id' (act' ∷ url' ∷ chal' ∷ [])) (omega arith) (omega arith) h in
    let r1 =
      first_field id id' (join_bar act (url ∷ chal ∷ [])) (join_bar act' (url' ∷ chal' ∷ [])) i i'
        r0.1 in
    let r2 =
      first_field act act' (join_bar url (chal ∷ [])) (join_bar url' (chal' ∷ [])) a a' r1.1 in
    let r3 = last_field url url' chal chal' c c' r2.1 in (r1.0, r2.0, r3.0, r3.1)
