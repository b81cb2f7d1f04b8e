-- ===== src/Prelude/Steps.antt =====
-- Code that changes a state and may fail: a state to a value or an error, and the state after it.
use mathlib.Core.Path.{◌≡◌, refl, ap}
use mathlib.Core.Logic.{◌⊎◌, inl, inr}
use mathlib.Core.Option.{Option, none, some}
use pterodactyl_proxmox_back.Prelude.Result.{Result, ok, err}

abbrev pub Steps {ε σ ℓ} : Type ε → Type σ → Type ℓ → Type (ε ⊔ σ ⊔ ℓ)
Steps E S A = S → Result E A × S

module _ {ε σ ℓ κ} {E : Type ε} {S : Type σ} {A : Type ℓ} {B : Type κ} where
  abbrev pub continued : Result E A × S → (A → Steps E S B) → Result E B × S
  continued (ok a, s) f = f a s
  continued (err e, s) f = (err e, s)

  infixl 5 ◌>>=◌
  abbrev pub ◌>>=◌ : Steps E S A → (A → Steps E S B) → Steps E S B
  (m >>= f) s = continued (m s) f

module _ {ε σ κ} {E : Type ε} {S : Type σ} {B : Type κ} where
  infixl 5 ◌>>◌
  abbrev pub ◌>>◌ : Steps E S (Unit {0}) → Steps E S B → Steps E S B
  m >> k = m >>= λ _. k

module _ {ε ℓ} {E : Type ε} {A : Type ℓ} where
  abbrev pub optional : Result E A → Option A
  optional (ok a) = some a
  optional (err e) = none

module _ {ε σ ℓ} {E : Type ε} {S : Type σ} {A : Type ℓ} where
  abbrev pub return : A → Steps E S A
  return a s = (ok a, s)

  abbrev pub fail : E → Steps E S A
  fail e s = (err e, s)

  -- a call whose error is not passed on
  abbrev pub attempt : Steps E S A → Steps E S (Option A)
  attempt m s = (ok (optional ((m s).0)), (m s).1)

  abbrev pub after_error : Result E A × S → Steps E S (Unit {0}) → Result E A × S
  after_error (ok a, s) clean = (ok a, s)
  after_error (err e, s) clean = (err e, (clean s).1)

  -- `if err != nil { _ = clean(); return err }`
  abbrev pub or_clean : Steps E S A → Steps E S (Unit {0}) → Steps E S A
  or_clean m clean s = after_error (m s) clean

module _ {ε σ ℓ κ} {E : Type ε} {S : Type σ} {A : Type ℓ} {B : Type κ} where
  continued_ok :
      (f : A → Steps E S B) (r : Result E A × S) {b : B} {t : S}
      → continued r f ≡ (ok b, t)
      → (a : A) × (u : S) × (r ≡ (ok a, u)) × (f a u ≡ (ok b, t))
  continued_ok f (ok a, s) h = (a, s, refl, h)
  continued_ok f (err x, s) h = cc (ap (λ p. p.0) h)

  -- the first of two steps that succeed together
  pub bind_ok :
      (m : Steps E S A) (f : A → Steps E S B) {b : B} (s : S) {t : S}
      → (m >>= f) s ≡ (ok b, t)
      → (a : A) × (u : S) × (m s ≡ (ok a, u)) × (f a u ≡ (ok b, t))
  bind_ok m f s h = continued_ok f (m s) h

  continued_err :
      (f : A → Steps E S B) (r : Result E A × S) {e : E} {t : S}
      → continued r f ≡ (err e, t)
      → (r ≡ (err e, t)) ⊎ ((a : A) × (u : S) × (r ≡ (ok a, u)) × (f a u ≡ (err e, t)))
  continued_err f (ok a, s) h = inr (a, s, refl, h)
  continued_err f (err x, s) h = inl (error_pair x s h)
    where
      error_pair :
          (x : E) (s : S) {e : E} {t : S}
          → ◌≡◌ {A = Result E B × S} (err x, s) (err e, t)
          → ◌≡◌ {A = Result E A × S} (err x, s) (err e, t)
      error_pair x s h = ap (λ p. (elim p.0 [ ok b ↦ err x | err y ↦ err y ], p.1)) h

  -- which of two steps has failed
  pub bind_err :
      (m : Steps E S A) (f : A → Steps E S B) (s : S) {e : E} {t : S}
      → (m >>= f) s ≡ (err e, t)
      → (m s ≡ (err e, t)) ⊎ ((a : A) × (u : S) × (m s ≡ (ok a, u)) × (f a u ≡ (err e, t)))
  bind_err m f s h = continued_err f (m s) h

  -- what holds at the end of two steps, if it does when the first fails and after the second
  pub continued_end {κ2} :
      (Q : S → Type κ2) (r : Result E A × S) (f : A → Steps E S B)
      → ((e : E) → r.0 ≡ err e → Q r.1)
      → ((a : A) → r.0 ≡ ok a → Q ((f a r.1).1))
      → Q ((continued r f).1)
  continued_end Q (ok a, s) f h k = k a refl
  continued_end Q (err e, s) f h k = h e refl

  pub bind_run :
      (m : Steps E S A) (f : A → Steps E S B) {a : A} {s u : S}
      → m s ≡ (ok a, u)
      → (m >>= f) s ≡ f a u
  bind_run m f h = ap (λ r. continued r f) h

module _ {ε σ ℓ} {E : Type ε} {S : Type σ} {A : Type ℓ} where
  after_error_ok :
      (r : Result E A × S) (clean : Steps E S (Unit {0})) {a : A} {t : S}
      → after_error r clean ≡ (ok a, t)
      → r ≡ (ok a, t)
  after_error_ok (ok a, s) clean h = h
  after_error_ok (err x, s) clean h = cc (ap (λ p. p.0) h)

  pub or_clean_ok :
      (m : Steps E S A) (clean : Steps E S (Unit {0})) (s : S) {a : A} {t : S}
      → or_clean m clean s ≡ (ok a, t)
      → m s ≡ (ok a, t)
  or_clean_ok m clean s h = after_error_ok (m s) clean h
