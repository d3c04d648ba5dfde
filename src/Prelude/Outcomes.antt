-- ===== src/Prelude/Outcomes.antt =====
-- What a fallible operation on fuel returns. `out_of_fuel` has no counterpart in the program: each
-- operation has a theorem that the fuel it is given is enough.
use mathlib.Core.Path.{◌≡◌, refl, subst}
use mathlib.Core.Logic.{◌≢◌}
use mathlib.Core.Bool.{Bool, true, false}
use firefik.Prelude.Tests.{if◌then◌else◌}

pub data Outcome {ℓ} (E : Type 0) (A : Type ℓ) : Type ℓ where
  ok : A → Outcome E A
  err : E → Outcome E A
  out_of_fuel : Outcome E A

module _ {ℓ κ} {E : Type 0} {A : Type ℓ} {B : Type κ} where
  infixl 5 ◌>>=◌ ◌>>◌
  abbrev pub ◌>>=◌ : Outcome E A → (A → Outcome E B) → Outcome E B
  ok a >>= f = f a
  err e >>= f = err e
  out_of_fuel >>= f = out_of_fuel

  abbrev pub ◌>>◌ : Outcome E A → Outcome E B → Outcome E B
  m >> k = m >>= λ _. k

  -- Inversion of a successful chain.
  pub bind-eq-ok :
      (m : Outcome E A) (f : A → Outcome E B) {b : B}
      → (m >>= f) ≡ ok b
      → (a : A) × (m ≡ ok a) × (f a ≡ ok b)
  bind-eq-ok (ok a) f h = (a, refl, h)
  bind-eq-ok (err e) f h = cc
  bind-eq-ok out_of_fuel f h = cc

pub ok-injective {ℓ} :
    {E : Type 0} {A : Type ℓ} {a b : A} → ◌≡◌ {A = Outcome E A} (ok a) (ok b) → a ≡ b
ok-injective h = cc

-- The operation kept within its fuel, and `P` holds of its result if it has one.
pub data Delivers {ℓ κ} {E : Type 0} {A : Type ℓ} (P : A → Type κ)
    : Outcome E A → Type (ℓ ⊔ κ) where
  delivers : {a : A} → P a → Delivers P (ok a)
  refuses : {e : E} → Delivers P (err e)

module _ {ℓ κ} {E : Type 0} {A : Type ℓ} {P : A → Type κ} where
  pub Delivers-ok : {m : Outcome E A} {a : A} → Delivers P m → m ≡ ok a → P a
  Delivers-ok (delivers p) h = subst P (cc) p
  Delivers-ok refuses h = cc

  pub Delivers-total : {m : Outcome E A} → Delivers P m → m ≢ out_of_fuel
  Delivers-total (delivers p) = cc
  Delivers-total refuses = cc

  pub Delivers-if :
      (b : Bool) {x y : Outcome E A}
      → (b ≡ true → Delivers P x)
      → (b ≡ false → Delivers P y)
      → Delivers P (if b then x else y)
  Delivers-if true hx hy = hx refl
  Delivers-if false hx hy = hy refl

module _ {ℓ κ ℓ' κ'} {E : Type 0} {A : Type ℓ} {B : Type ℓ'} {P : A → Type κ}
    {Q : B → Type κ'} where
  pub Delivers-bind :
      {m : Outcome E A} {f : A → Outcome E B}
      → Delivers P m
      → ((a : A) → P a → Delivers Q (f a))
      → Delivers Q (m >>= f)
  Delivers-bind (delivers {a} p) k = k a p
  Delivers-bind refuses k = refuses

-- The same outcome under another postcondition.
module _ {ℓ κ κ'} {E : Type 0} {A : Type ℓ} {P : A → Type κ} {Q : A → Type κ'} where
  pub Delivers-map : {m : Outcome E A} → Delivers P m → ((a : A) → P a → Q a) → Delivers Q m
  Delivers-map (delivers {a} p) k = delivers (k a p)
  Delivers-map refuses k = refuses

pub Delivers-any {ℓ} :
    {E : Type 0} {A : Type ℓ} (m : Outcome E A) → m ≢ out_of_fuel → Delivers (λ _. Unit {0}) m
Delivers-any (ok a) h = delivers tt
Delivers-any (err e) h = refuses
Delivers-any out_of_fuel h = absurd (h refl)

pub Delivers-of {ℓ κ} :
    {E : Type 0} {A : Type ℓ} {P : A → Type κ} (m : Outcome E A)
    → m ≢ out_of_fuel
    → ((a : A) → m ≡ ok a → P a)
    → Delivers P m
Delivers-of (ok a) h k = delivers (k a refl)
Delivers-of (err e) h k = refuses
Delivers-of out_of_fuel h k = absurd (h refl)
