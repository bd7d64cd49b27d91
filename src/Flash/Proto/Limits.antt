-- ===== src/Flash/Proto/Limits.antt =====
-- What the crate can send at all.
use hid_fi.Common.{ℕ, ◌≡◌, ◌≢◌, refl, ◌↔◌, none, some, List, [], ◌∷◌, arith, All}
use hid_fi.Flash.Proto.{Op, op_code, all_ops, find_op, from_u8, forbidden, request}

find_op-code : (b : ℕ) (os : List Op) (o : Op) → find_op b os ≡ some o → op_code o ≡ b
unfolding find_op
find_op-code b [] o h = cc
find_op-code b (p ∷ os) o h = ground (arith, find_op-code b os o)

-- A byte names an operation exactly when it is that operation's code.
pub from_u8_iff : (b : ℕ) (o : Op) → (from_u8 b ≡ some o) ↔ (op_code o ≡ b)
unfolding from_u8
from_u8_iff b o = (λ h. find_op-code b all_ops o h, λ h. rw (← h) (from_code o))
  where
    from_code : (o : Op) → find_op (op_code o) all_ops ≡ some o
    from_code Op.flash_begin = refl
    from_code _ = refl

code_allowed : (op : Op) → All (λ f. op_code op ≢ f) forbidden
unfolding op_code
code_allowed Op.flash_begin = omega arith
code_allowed _ = omega arith

-- The operation byte of every frame that can be built is none of the forbidden codes, and no
-- forbidden code is read back as an operation.
pub request-not_forbidden :
    (op : Op) (bytes : List ℕ) (chk c : ℕ) (rest : List ℕ)
    → request op bytes chk ≡ 0 ∷ c ∷ rest
    → All (λ f. c ≢ f) forbidden × All (λ f. from_u8 f ≡ none) forbidden
unfolding request from_u8
request-not_forbidden op bytes chk c rest h =
    let e : op_code op ≡ c = cc h in
    (rw e at (code_allowed op), (refl, (refl, (refl, (refl, (refl, tt))))))
