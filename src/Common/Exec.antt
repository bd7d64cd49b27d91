-- ===== src/Common/Exec.antt =====
-- Methods that change a state and may fail: what was changed before a failure stays. `panicked` is
-- a panic, such as an `expect` that fails or an index out of range.
pub mod Keeps
pub mod Returns
pub mod Raises
use mathlib.Core.Path.{◌≡◌, refl, ap}

pub data Res {ℓ} (E A : Type ℓ) : Type ℓ where
  ok : A → Res E A
  err : E → Res E A
  panicked : Res E A

abbrev pub M : Type 0 → Type 0 → Type 0 → Type 0
M E S A = S → Res E A × S

module _ {E S A : Type 0} where
  unfoldable pub pure : A → M E S A
  pure a s = (ok a, s)

  unfoldable pub raise : E → M E S A
  raise e s = (err e, s)

  unfoldable pub panic : M E S A
  panic s = (panicked, s)

  -- A field of the state.
  unfoldable pub gets : (S → A) → M E S A
  gets f s = (ok (f s), s)

  -- `?` on a result.
  unfoldable pub lift : Res E A → M E S A
  lift r s = (r, s)

unfoldable pub modify : {E S : Type 0} → (S → S) → M E S (Unit {0})
modify f s = (ok tt, f s)

module _ {E S A B : Type 0} where
  abbrev pub continue : Res E A → (A → M E S B) → M E S B
  continue (ok a) f s = f a s
  continue (err e) f s = (err e, s)
  continue panicked f s = (panicked, s)

  infixl 5 ◌>>=◌ ◌>>◌
  unfoldable pub ◌>>=◌ : M E S A → (A → M E S B) → M E S B
  ◌>>=◌ m f s = let (r, s') = m s in continue r f s'

  abbrev pub ◌>>◌ : M E S A → M E S B → M E S B
  m >> n = m >>= λ _. n

module _ {E S A B : Type 0} where
  continue_ok :
      (r : Res E A) (f : A → M E S B) (s s' : S) (b : B)
      → continue r f s ≡ (ok b, s')
      → (a : A) × (r ≡ ok a) × (f a s ≡ (ok b, s'))
  continue_ok (ok a) f s s' b h = (a, refl, h)
  continue_ok (err e) f s s' b h = cc (ap (λ (p : Res E B × S). p.0) h)
  continue_ok panicked f s s' b h = cc (ap (λ (p : Res E B × S). p.0) h)

  -- A sequence that returns has a first part that returns.
  pub bind_ok :
      (m : M E S A) (f : A → M E S B) (s s' : S) (b : B)
      → (m >>= f) s ≡ (ok b, s')
      → (a : A) × (s1 : S) × (m s ≡ (ok a, s1)) × (f a s1 ≡ (ok b, s'))
  unfolding ◌>>=◌
  bind_ok m f s s' b h =
      let (a, e, k) = continue_ok (m s).0 f (m s).1 s' b h in
      (a, (m s).1, ap (λ (r : Res E A). (r, (m s).1)) e, k)
