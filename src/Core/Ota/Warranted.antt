-- ===== src/Core/Ota/Warranted.antt =====
-- What a board needs: `verdicts` of ota.rs.
use hid_fi.Common.{
  ◌≡◌, ◌≢◌, ap, ◌∙◌, false, refl, inl, inr, ℕ, ◌≤◌, ◌<◌, arith, true, not, Option, none, some,
  ◌>>=◌, List, [], ◌∷◌, ◌++◌, ltb, Bool-cases, All, All-append,
}
use hid_fi.Common.Text.{Text, codes, is_some_text}
use hid_fi.Core.Ota.Versions.{Version, later, parse_version}
use hid_fi.Core.Ota.{
  comp_api_min, comp_api_max, BoardStatus, Latest, Verdict, up_to_date, verifying,
  update_board_first, update_companion_first, unknown, board_update, companion_update, or_one,
  protocol_verdicts, newer, board_verdicts, companion_newer, companion_verdicts, or_up_to_date,
  verdicts_of, of_firmware, verdicts,
}

-- When a verdict may be given about a board.
pub data Warranted (b : BoardStatus) (me : Text) (latest : Option Latest) : Verdict → Type 0 where
  unreadable : (b.firmware >>= parse_version) ≡ none → Warranted b me latest unknown
  proving :
      is_some_text b.ota_state (codes "pending_verify") ≡ true → Warranted b me latest verifying
  board_behind : or_one b.comp_api < comp_api_min → Warranted b me latest update_board_first
  companion_behind : comp_api_max < or_one b.comp_api → Warranted b me latest update_companion_first
  board_older :
      (l : Latest) (fw to : Version)
      → latest ≡ some l
      → (b.firmware >>= parse_version) ≡ some fw
      → parse_version l.firmware ≡ some to
      → later to fw ≡ true
      → Warranted b me latest
          (board_update l.firmware (not (is_some_text b.ota_layout (codes "two_slot"))))
  companion_older :
      (l : Latest) (c : Text) (mine to : Version)
      → latest ≡ some l
      → l.companion ≡ some c
      → parse_version me ≡ some mine
      → parse_version c ≡ some to
      → later to mine ≡ true
      → Warranted b me latest (companion_update c)
  nothing_newer :
      (fw : Version)
      → (b.firmware >>= parse_version) ≡ some fw
      → comp_api_min ≤ or_one b.comp_api
      → or_one b.comp_api ≤ comp_api_max
      → is_some_text b.ota_state (codes "pending_verify") ≡ false
      → ((l : Latest) (to : Version)
          → latest ≡ some l
          → parse_version l.firmware ≡ some to
          → later to fw ≡ false)
      → ((l : Latest) (c : Text) (mine to : Version)
          → latest ≡ some l
          → l.companion ≡ some c
          → parse_version me ≡ some mine
          → parse_version c ≡ some to
          → later to mine ≡ false)
      → Warranted b me latest up_to_date

newer_some :
    (o : Option Version) (v : Version)
    → newer o v ≡ true
    → (to : Version) × (o ≡ some to) × (later to v ≡ true)
newer_some none v h = cc
newer_some (some to) v h = (to, refl, h)

empty_parts : {A : Type 0} (xs ys : List A) → xs ++ ys ≡ [] → (xs ≡ []) × (ys ≡ [])
empty_parts [] ys h = (refl, h)
empty_parts (x ∷ xs) ys h = cc

protocol_fits : (api : ℕ) → protocol_verdicts api ≡ [] → (comp_api_min ≤ api) × (api ≤ comp_api_max)
unfolding protocol_verdicts
protocol_fits api h = ground arith

newer_none :
    (o : Option Version) (v to : Version) → newer o v ≡ false → o ≡ some to → later to v ≡ false
newer_none none v to h e = cc
newer_none (some x) v to h e = let is : x ≡ to = cc in rw is at h

no_board_verdict :
    (b : BoardStatus) (fw : Version) (latest : Option Latest) (l : Latest) (to : Version)
    → board_verdicts b fw latest ≡ []
    → latest ≡ some l
    → parse_version l.firmware ≡ some to
    → later to fw ≡ false
unfolding board_verdicts
no_board_verdict b fw none l to h e t = cc
no_board_verdict b fw (some k) l to h e t =
    let is : k ≡ l = cc in
    elim (Bool-cases (newer (parse_version k.firmware) fw)) [
      | inl p ↦ cc (rw p at h)
      | inr p ↦
          newer_none (parse_version k.firmware) fw to p
            (ap (λ (x : Latest). parse_version x.firmware) is ∙ t)
    ]

no_companion_newer :
    (c : Text) (o : Option Version) (mine to : Version)
    → companion_newer c o ≡ []
    → o ≡ some mine
    → parse_version c ≡ some to
    → later to mine ≡ false
no_companion_newer c none mine to h m t = cc
no_companion_newer c (some v) mine to h m t =
    let is : v ≡ mine = cc in
    elim (Bool-cases (newer (parse_version c) v)) [
      | inl p ↦ cc (rw p at h)
      | inr p ↦ newer_none (parse_version c) mine to (rw is at p) t
    ]

no_companion_in :
    (me : Text) (o : Option Text) (c : Text) (mine to : Version)
    → elim o [ none ↦ [] | some x ↦ companion_newer x (parse_version me) ] ≡ []
    → o ≡ some c
    → parse_version me ≡ some mine
    → parse_version c ≡ some to
    → later to mine ≡ false
no_companion_in me none c mine to h e m t = cc
no_companion_in me (some x) c mine to h e m t =
    let is : x ≡ c = cc in
    no_companion_newer x (parse_version me) mine to h m (ap parse_version is ∙ t)

no_companion_verdict :
    (me : Text) (latest : Option Latest) (l : Latest) (c : Text) (mine to : Version)
    → companion_verdicts me latest ≡ []
    → latest ≡ some l
    → l.companion ≡ some c
    → parse_version me ≡ some mine
    → parse_version c ≡ some to
    → later to mine ≡ false
unfolding companion_verdicts
no_companion_verdict me none l c mine to h e k m t = cc
no_companion_verdict me (some x) l c mine to h e k m t =
    let is : x ≡ l = cc in
    no_companion_in me x.companion c mine to h (ap (λ (y : Latest). y.companion) is ∙ k) m t

module _ (b : BoardStatus) (me : Text) where
  protocol-Warranted :
      (latest : Option Latest) → All (Warranted b me latest) (protocol_verdicts (or_one b.comp_api))
  unfolding protocol_verdicts
  protocol-Warranted latest = elim (Bool-cases (ltb (or_one b.comp_api) comp_api_min)) [
    | inl p ↦ rw p (board_behind (ground arith), tt)
    | inr p ↦ elim (Bool-cases (ltb comp_api_max (or_one b.comp_api))) [
      | inl q ↦ rw (p, q) (companion_behind (ground arith), tt)
      | inr q ↦ rw (p, q) tt
    ]
  ]

  board-Warranted :
      (fw : Version) (latest : Option Latest)
      → (b.firmware >>= parse_version) ≡ some fw
      → All (Warranted b me latest) (board_verdicts b fw latest)
  unfolding board_verdicts
  board-Warranted fw none e = tt
  board-Warranted fw (some l) e = elim (Bool-cases (newer (parse_version l.firmware) fw)) [
    | inl p ↦ let (to, t, k) = newer_some _ fw p in rw p (board_older l fw to refl e t k, tt)
    | inr p ↦ rw p tt
  ]

  companion_newer-Warranted :
      (l : Latest) (c : Text) (mine : Option Version)
      → l.companion ≡ some c
      → parse_version me ≡ mine
      → All (Warranted b me (some l)) (companion_newer c mine)
  companion_newer-Warranted l c none e m = tt
  companion_newer-Warranted l c (some mine) e m = elim (Bool-cases (newer (parse_version c) mine)) [
    | inl p ↦
        let (to, t, k) = newer_some _ mine p in rw p (companion_older l c mine to refl e m t k, tt)
    | inr p ↦ rw p tt
  ]

  released-Warranted :
      (l : Latest) (o : Option Text)
      → l.companion ≡ o
      → All
          (Warranted b me (some l))
          (elim o [ none ↦ [] | some c ↦ companion_newer c (parse_version me) ])
  released-Warranted l none e = tt
  released-Warranted l (some c) e = companion_newer-Warranted l c _ e refl

  companion-Warranted :
      (latest : Option Latest) → All (Warranted b me latest) (companion_verdicts me latest)
  unfolding companion_verdicts
  companion-Warranted none = tt
  companion-Warranted (some l) = released-Warranted l l.companion refl

  or_up_to_date-Warranted :
      (latest : Option Latest) (vs : List Verdict)
      → All (Warranted b me latest) vs
      → (vs ≡ [] → Warranted b me latest up_to_date)
      → All (Warranted b me latest) (or_up_to_date vs) × (or_up_to_date vs ≢ [])
  or_up_to_date-Warranted latest [] h k = ((k refl, tt), λ e. cc)
  or_up_to_date-Warranted latest (v ∷ vs) h k = (h, λ e. cc)

  quiet :
      (fw : Version) (latest : Option Latest)
      → is_some_text b.ota_state (codes "pending_verify") ≡ false
      → (b.firmware >>= parse_version) ≡ some fw
      → protocol_verdicts (or_one b.comp_api)
          ++ (board_verdicts b fw latest ++ companion_verdicts me latest)
        ≡ []
      → Warranted b me latest up_to_date
  quiet fw latest n e h =
      let (p, h') = empty_parts _ _ h in
      let (q, r) = empty_parts _ _ h' in
      let (low, high) = protocol_fits _ p in
      nothing_newer fw e low high n (λ l to. no_board_verdict b fw latest l to q)
        (λ l c mine to. no_companion_verdict me latest l c mine to r)

  verdicts_of-Warranted :
      (fw : Version) (latest : Option Latest)
      → (b.firmware >>= parse_version) ≡ some fw
      → All (Warranted b me latest) (verdicts_of b me latest fw) × (verdicts_of b me latest fw ≢ [])
  unfolding verdicts_of
  verdicts_of-Warranted fw latest e =
      elim (Bool-cases (is_some_text b.ota_state (codes "pending_verify"))) [
        | inl p ↦ rw p ((proving p, tt), λ x. cc)
        | inr p ↦ rw p (
            or_up_to_date-Warranted latest _
              (All-append _ _ _ (protocol-Warranted latest)
                (All-append _ _ _ (board-Warranted fw latest e) (companion-Warranted latest)))
              (quiet fw latest p e))
      ]

  of_firmware-Warranted :
      (o : Option Version) (latest : Option Latest)
      → (b.firmware >>= parse_version) ≡ o
      → All (Warranted b me latest) (of_firmware o (verdicts_of b me latest))
        × (of_firmware o (verdicts_of b me latest) ≢ [])
  of_firmware-Warranted none latest e = ((unreadable e, tt), λ x. cc)
  of_firmware-Warranted (some fw) latest e = verdicts_of-Warranted fw latest e

-- There is always a verdict, and each has its reason: an update is named only when a version that
-- can be read is later than the running one, which side comes first only when the protocol is out of
-- range, and that all is up to date only when the running version can be read, no firmware is being
-- proved, the protocol is in range, and no version of the release that can be read is later than the
-- board's or this computer's.
pub verdicts-Warranted :
    (b : BoardStatus) (me : Text) (latest : Option Latest)
    → All (Warranted b me latest) (verdicts b me latest) × (verdicts b me latest ≢ [])
unfolding verdicts
verdicts-Warranted b me latest = of_firmware-Warranted b me _ latest refl
