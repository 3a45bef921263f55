-- ===== src/Base/Do.antt =====
-- Steps that may panic, chained: `none` is the panic.
use mathlib.Core.Path.{◌≡◌, refl}
use mathlib.Core.Option.{Option, none, some}

infixl 5 ◌>>=◌
abbrev pub ◌>>=◌ {ℓ κ} : {A : Type ℓ} {B : Type κ} → Option A → (A → Option B) → Option B
none >>= f = none
some a >>= f = f a

pub not_none {ℓ} : {A : Type ℓ} {x : A} → ¬ (none ≡ some x)
not_none h = cc

pub some_inj {ℓ} : {A : Type ℓ} {x y : A} → some x ≡ some y → x ≡ y
some_inj h = cc

pub bind_none {ℓ κ} :
    {A : Type ℓ} {B : Type κ} (o : Option A) → Path (Option B) (o >>= λ a. none) none
bind_none none = refl
bind_none (some a) = refl

-- Where a chain of steps gives a value, so does its first step.
pub bind_some {ℓ κ} :
    {A : Type ℓ} {B : Type κ} (o : Option A) (f : A → Option B) (b : B)
    → (o >>= f) ≡ some b
    → (a : A) × (o ≡ some a) × (f a ≡ some b)
bind_some none f b h = absurd (not_none h)
bind_some (some a) f b h = (a, refl, h)
