-- ===== src/Common/Exec/Keeps.antt =====
-- Properties of the state that a computation keeps, whatever its outcome.
use hid_fi.Common.{Bool, true, false, if◌then◌else◌}
use hid_fi.Common.Exec.{
  Res, ok, err, panicked, M, pure, raise, panic, gets, lift, modify, continue, ◌>>=◌,
}

pub record Keeps {E S A : Type 0} (P : S → Type 0) (m : M E S A) : Type 0 where
  pub at : (s : S) → P s → P (m s).1

module _ {E S A : Type 0} {P : S → Type 0} where
  pub pure-Keeps : (a : A) → Keeps P (pure {E = E} {S = S} a)
  unfolding pure
  pure-Keeps a = record { at = λ s h. h }

  pub raise-Keeps : (e : E) → Keeps P (raise {S = S} {A = A} e)
  unfolding raise
  raise-Keeps e = record { at = λ s h. h }

  pub panic-Keeps : Keeps P (panic {E = E} {S = S} {A = A})
  unfolding panic
  panic-Keeps = record { at = λ s h. h }

  pub gets-Keeps : (f : S → A) → Keeps P (gets {E = E} f)
  unfolding gets
  gets-Keeps f = record { at = λ s h. h }

  pub lift-Keeps : (r : Res E A) → Keeps P (lift {S = S} r)
  unfolding lift
  lift-Keeps r = record { at = λ s h. h }

  pub if-Keeps : (b : Bool) (m n : M E S A) → Keeps P m → Keeps P n → Keeps P (if b then m else n)
  if-Keeps true m n hm hn = hm
  if-Keeps false m n hm hn = hn

pub modify-Keeps :
    {E S : Type 0} {P : S → Type 0} (f : S → S)
    → ((s : S) → P s → P (f s))
    → Keeps P (modify {E = E} f)
unfolding modify
modify-Keeps f h = record { at = h }

module _ {E S A B : Type 0} {P : S → Type 0} where
  continue-keeps :
      (r : Res E A) (f : A → M E S B) (s : S)
      → ((a : A) → Keeps P (f a))
      → P s
      → P (continue r f s).1
  continue-keeps (ok a) f s h p = (h a).at s p
  continue-keeps (err e) f s h p = p
  continue-keeps panicked f s h p = p

  pub bind-Keeps :
      (m : M E S A) (f : A → M E S B) → Keeps P m → ((a : A) → Keeps P (f a)) → Keeps P (m >>= f)
  unfolding ◌>>=◌
  bind-Keeps m f hm hf = record { at = λ s p. continue-keeps (m s).0 f (m s).1 hf (hm.at s p) }

-- From `P` a computation ends in `Q`, whatever its outcome.
pub record Enters {E S A : Type 0} (P Q : S → Type 0) (m : M E S A) : Type 0 where
  pub at : (s : S) → P s → Q (m s).1

pub bind-Enters :
    {E S A B : Type 0} {P Q : S → Type 0} (m : M E S A) (f : A → M E S B)
    → Enters P Q m
    → ((a : A) → Keeps Q (f a))
    → Enters P Q (m >>= f)
unfolding ◌>>=◌
bind-Enters m f hm hf = record { at = λ s p. continue-keeps (m s).0 f (m s).1 hf (hm.at s p) }

-- From `P` a computation ends in `Q`, which may tell its outcomes apart.
pub record Leads {E S A : Type 0} (P : S → Type 0) (Q : Res E A → S → Type 0) (m : M E S A)
    : Type 0 where
  pub at : (s : S) → P s → Q (m s).0 (m s).1

pub Keeps-Leads :
    {E S A : Type 0} {P : S → Type 0} {Q : Res E A → S → Type 0}
    (weaken : (r : Res E A) (s : S) → P s → Q r s) (m : M E S A)
    → Keeps P m
    → Leads P Q m
Keeps-Leads weaken m h = record { at = λ s p. weaken (m s).0 (m s).1 (h.at s p) }

module _ {E S A B : Type 0} {P : S → Type 0} {Q : Res E B → S → Type 0}
    (weaken : (r : Res E B) (s : S) → P s → Q r s) where
  continue-leads :
      (r : Res E A) (f : A → M E S B) (s : S)
      → ((a : A) → Leads P Q (f a))
      → P s
      → Q (continue r f s).0 (continue r f s).1
  continue-leads (ok a) f s h p = (h a).at s p
  continue-leads (err e) f s h p = weaken (err e) s p
  continue-leads panicked f s h p = weaken panicked s p

  pub bind-Leads :
      (m : M E S A) (f : A → M E S B)
      → Keeps P m
      → ((a : A) → Leads P Q (f a))
      → Leads P Q (m >>= f)
  unfolding ◌>>=◌
  bind-Leads m f hm hf = record { at = λ s p. continue-leads (m s).0 f (m s).1 hf (hm.at s p) }

pub ruleset keeps_rules = (pure-Keeps, raise-Keeps, panic-Keeps, gets-Keeps, lift-Keeps, bind-Keeps)
