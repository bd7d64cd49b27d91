-- ===== src/Common/Exec/Raises.antt =====
-- How a computation fails, where it does.
use hid_fi.Common.{◌≡◌, refl, ap, ◌∙◌, Bool, true, false, if◌then◌else◌}
use hid_fi.Common.Exec.{Res, ok, err, panicked, M, pure, raise, panic, ◌>>=◌, continue}

pub record Raises {E S A : Type 0} (Q : E → Type 0) (m : M E S A) : Type 0 where
  pub at : (s : S) (e : E) → (m s).0 ≡ err e → Q e

module _ {E S A : Type 0} {Q : E → Type 0} where
  pub pure-Raises : (a : A) → Raises Q (pure {S = S} a)
  unfolding pure
  pure-Raises a = record { at = λ s e h. cc }

  pub panic-Raises : Raises Q (panic {S = S} {A = A})
  unfolding panic
  panic-Raises = record { at = λ s e h. cc }

  pub raise-Raises : (x : E) → Q x → Raises Q (raise {S = S} {A = A} x)
  unfolding raise
  raise-Raises x q = record { at = λ s e h. let k : x ≡ e = cc in rw k at q }

  pub if-Raises :
      (b : Bool) (m n : M E S A) → Raises Q m → Raises Q n → Raises Q (if b then m else n)
  if-Raises true m n hm hn = hm
  if-Raises false m n hm hn = hn

module _ {E S A B : Type 0} {Q : E → Type 0} where
  continue_raises :
      (m : M E S A) (r : Res E A × S) (f : A → M E S B) (s : S) (e : E)
      → m s ≡ r
      → Raises Q m
      → ((a : A) → Raises Q (f a))
      → (continue r.0 f r.1).0 ≡ err e
      → Q e
  continue_raises m (ok a, s1) f s e k hm hf h = (hf a).at s1 e h
  continue_raises m (err x, s1) f s e k hm hf h = hm.at s e (ap (λ (p : Res E A × S). p.0) k ∙ cc)
  continue_raises m (panicked, s1) f s e k hm hf h = cc

  pub bind-Raises :
      (m : M E S A) (f : A → M E S B) → Raises Q m → ((a : A) → Raises Q (f a)) → Raises Q (m >>= f)
  unfolding ◌>>=◌
  bind-Raises m f hm hf = record { at = λ s e h. continue_raises m (m s) f s e refl hm hf h }
