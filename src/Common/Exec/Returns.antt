-- ===== src/Common/Exec/Returns.antt =====
-- What a computation returns, where it does.
use hid_fi.Common.{◌≡◌, refl, ap, Bool, true, false, if◌then◌else◌}
use hid_fi.Common.Exec.{Res, ok, err, panicked, M, pure, raise, panic, ◌>>=◌, bind_ok}
use hid_fi.Common.Exec.Keeps.{Keeps}

pub record Returns {E S A : Type 0} (Q : A → Type 0) (m : M E S A) : Type 0 where
  pub at : (s s' : S) (a : A) → m s ≡ (ok a, s') → Q a

module _ {E S A : Type 0} {Q : A → Type 0} where
  pub pure-Returns : (a : A) → Q a → Returns Q (pure {E = E} {S = S} a)
  unfolding pure
  pure-Returns a q = record { at = λ s s' b h. let e : a ≡ b = cc in rw e at q }

  pub raise-Returns : (e : E) → Returns Q (raise {E = E} {S = S} e)
  unfolding raise
  raise-Returns e = record { at = λ s s' b h. cc (ap (λ (p : Res E A × S). p.0) h) }

  pub panic-Returns : Returns Q (panic {E = E} {S = S})
  unfolding panic
  panic-Returns = record { at = λ s s' b h. cc (ap (λ (p : Res E A × S). p.0) h) }

  pub if-Returns :
      (b : Bool) (m n : M E S A) → Returns Q m → Returns Q n → Returns Q (if b then m else n)
  if-Returns true m n hm hn = hm
  if-Returns false m n hm hn = hn

module _ {E S A B : Type 0} {Q : B → Type 0} where
  pub bind-Returns :
      (m : M E S A) (f : A → M E S B) → ((a : A) → Returns Q (f a)) → Returns Q (m >>= f)
  bind-Returns m f h = record {
    at = λ s s' b e. let (a, s1, e1, e2) = bind_ok m f s s' b e in (h a).at s1 s' b e2;
  }

module _ {E S A B : Type 0} {R : A → Type 0} {Q : B → Type 0} where
  pub then-Returns :
      (m : M E S A) (f : A → M E S B)
      → Returns R m
      → ((a : A) → R a → Returns Q (f a))
      → Returns Q (m >>= f)
  then-Returns m f hm h = record {
    at = λ s s' b e.
        let (a, s1, e1, e2) = bind_ok m f s s' b e in (h a (hm.at s s1 a e1)).at s1 s' b e2;
  }

-- A sequence keeps what its first part keeps, and its second for what the first returns.
module _ {E S A B : Type 0} {P : S → Type 0} {Q : A → Type 0} where
  returned_keeps :
      (m : M E S A) (f : A → M E S B) (s : S) (r : Res E A × S)
      → m s ≡ r
      → Returns Q m
      → P r.1
      → ((a : A) → Q a → Keeps P (f a))
      → (let n : M E S A = λ _. r in P ((n >>= f) s).1)
  unfolding ◌>>=◌
  returned_keeps m f s (ok a, s1) e hm p hf = (hf a (hm.at s s1 a e)).at s1 p
  returned_keeps m f s (err x, s1) e hm p hf = p
  returned_keeps m f s (panicked, s1) e hm p hf = p

  pub then-Keeps :
      (m : M E S A) (f : A → M E S B)
      → Returns Q m
      → Keeps P m
      → ((a : A) → Q a → Keeps P (f a))
      → Keeps P (m >>= f)
  unfolding ◌>>=◌
  then-Keeps m f hm km hf = record { at = λ s p. returned_keeps m f s (m s) refl hm (km.at s p) hf }
