-- ===== src/Prelude/Io.antt =====
-- Code that may fail and that changes a state: the state's changes stay when it fails.
use mathlib.Core.Path.{◌≡◌, refl}
use qdmav.Prelude.Errors.{Error, Result, ok, err}

abbrev pub Io {ℓ κ} : Type ℓ → Type κ → Type (ℓ ⊔ κ)
Io S A = S → Result A × S

abbrev pub return {ℓ κ} : {S : Type ℓ} {A : Type κ} → A → Io S A
return a s = (ok a, s)

abbrev pub fail {ℓ κ} : {S : Type ℓ} {A : Type κ} → Error → Io S A
fail e s = (err e, s)

abbrev pub resume {ℓ κ μ} :
    {S : Type ℓ} {A : Type κ} {B : Type μ} → Result A × S → (A → Io S B) → Result B × S
resume (ok a, s) f = f a s
resume (err e, s) f = (err e, s)

pub resume-ok {ℓ κ μ} :
    {S : Type ℓ} {A : Type κ} {B : Type μ} (r : Result A × S) (f : A → Io S B) {a : A}
    → r.0 ≡ ok a
    → resume r f ≡ f a r.1
resume-ok {A = A} (ok b, s) f h = rw (value h) refl
  where
    value : {b a : A} → ok b ≡ ok a → b ≡ a
    value e = cc
resume-ok (err e, s) f h = cc

infixl 5 ◌>>=◌ ◌>>◌
abbrev pub ◌>>=◌ {ℓ κ μ} : {S : Type ℓ} {A : Type κ} {B : Type μ} → Io S A → (A → Io S B) → Io S B
(m >>= f) s = resume (m s) f

abbrev pub ◌>>◌ {ℓ κ μ} : {S : Type ℓ} {A : Type κ} {B : Type μ} → Io S A → Io S B → Io S B
m >> k = m >>= λ _. k
