-- ===== src/Base/Exec.antt =====
-- A call that returns or throws: `throw e` carries the error.
use mathlib.Core.Path.{◌≡◌, refl}
use mathlib.Core.Logic.{◌⊎◌, inl, inr}
use mathlib.Core.Bool.{Bool}
use bet_advise.Base.Cond.{if◌then◌else◌}

pub data Exec {ℓ κ} (E : Type ℓ) (A : Type κ) : Type (ℓ ⊔ κ) where
  ok : A → Exec E A
  throw : E → Exec E A

infixl 5 ◌>>=◌ ◌>>◌
abbrev pub ◌>>=◌ {ℓ κ ι} :
    {E : Type ℓ} {A : Type κ} {B : Type ι} → Exec E A → (A → Exec E B) → Exec E B
ok a >>= f = f a
throw e >>= f = throw e

abbrev pub ◌>>◌ {ℓ κ} : {E : Type ℓ} {B : Type κ} → Exec E (Unit {0}) → Exec E B → Exec E B
m >> k = m >>= λ _. k

-- `if (c) throw e;`
abbrev pub throw_if {ℓ} : {E : Type ℓ} → Bool → E → Exec E (Unit {0})
throw_if c e = if c then throw e else ok tt

pub Exec-value {ℓ κ} :
    {E : Type ℓ} {A : Type κ} (m : Exec E A) → ((e : E) → ¬ (m ≡ throw e)) → (a : A) × (m ≡ ok a)
Exec-value (ok a) h = (a, refl)
Exec-value (throw e) h = absurd (h e refl)

pub Exec-cases {ℓ κ} :
    {E : Type ℓ} {A : Type κ} (m : Exec E A) → ((e : E) × (m ≡ throw e)) ⊎ ((a : A) × (m ≡ ok a))
Exec-cases (throw e) = inl (e, refl)
Exec-cases (ok a) = inr (a, refl)

-- A chain that returns has returned at each step.
pub bind-ok {ℓ κ ι} :
    {E : Type ℓ} {A : Type κ} {B : Type ι} (m : Exec E A) (f : A → Exec E B) (b : B)
    → (m >>= f) ≡ ok b
    → (a : A) × (m ≡ ok a) × (f a ≡ ok b)
bind-ok (ok a) f b h = (a, refl, h)
bind-ok (throw e) f b h = cc
