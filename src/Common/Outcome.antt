-- ===== src/Common/Outcome.antt =====
-- The outcome of code that may throw, and postconditions on it.
use mathlib.Core.Path.{◌≡◌, refl, subst}
use mathlib.Core.Bool.{Bool, true, false}

pub data Result {ℓ κ} (E : Type ℓ) (A : Type κ) : Type (ℓ ⊔ κ) where
  ok : A → Result E A
  err : E → Result E A

module _ {ℓ κ μ} {E : Type ℓ} {A : Type κ} {B : Type μ} where
  abbrev pub bind : Result E A → (A → Result E B) → Result E B
  bind (ok a) f = f a
  bind (err e) f = err e

  infixl 5 ◌>>=◌
  abbrev pub ◌>>=◌ : Result E A → (A → Result E B) → Result E B
  m >>= f = bind m f

infixl 5 ◌>>◌
abbrev pub ◌>>◌ {ℓ κ} : {E : Type ℓ} {B : Type κ} → Result E (Unit {0}) → Result E B → Result E B
m >> k = bind m λ _. k

-- `if (!test) throw e;`
abbrev pub require {ℓ} : {E : Type ℓ} → Bool → E → Result E (Unit {0})
require true e = ok tt
require false e = err e

-- `P` holds of the value, if there is one.
pub data Ensures {ℓ κ μ} {E : Type ℓ} {A : Type κ} (P : A → Type μ)
    : Result E A → Type (ℓ ⊔ κ ⊔ μ) where
  holds : {a : A} → P a → Ensures P (ok a)
  fails : {e : E} → Ensures P (err e)

module _ {ℓ κ μ} {E : Type ℓ} {A : Type κ} {P : A → Type μ} where
  pub Ensures-ok : {r : Result E A} {a : A} → Ensures P r → r ≡ ok a → P a
  Ensures-ok (holds p) e = subst P (cc) p
  Ensures-ok fails e = cc

  pub Ensures-require :
      (b : Bool) (e : E) {r : Result E A} → (b ≡ true → Ensures P r) → Ensures P (require b e >> r)
  Ensures-require true e h = h refl
  Ensures-require false e h = fails

  pub Ensures-bind {κ' μ'} :
      {B : Type κ'} {Q : B → Type μ'} {r : Result E A} {f : A → Result E B}
      → Ensures P r
      → ((x : A) → P x → Ensures Q (f x))
      → Ensures Q (bind r f)
  Ensures-bind (holds {a} p) next = next a p
  Ensures-bind fails next = fails

module _ {ℓ κ μ μ'} {E : Type ℓ} {A : Type κ} {P : A → Type μ} {Q : A → Type μ'} where
  pub Ensures-map : {r : Result E A} → Ensures P r → ((a : A) → P a → Q a) → Ensures Q r
  Ensures-map (holds {a} h) k = holds (k a h)
  Ensures-map fails k = fails

-- If the whole did not throw, neither part did.
pub >>=-eq-ok {ℓ κ μ} :
    {E : Type ℓ} {A : Type κ} {B : Type μ} (first : Result E A) (next : A → Result E B) {c : B}
    → bind first next ≡ ok c
    → (x : A) × (first ≡ ok x) × (next x ≡ ok c)
>>=-eq-ok (ok x) next e = (x, refl, e)
>>=-eq-ok (err fault) next e = cc

module _ {ℓ κ} {E : Type ℓ} {A : Type κ} where
  pub ok-injective : {a b : A} → ◌≡◌ {A = Result E A} (ok a) (ok b) → a ≡ b
  ok-injective h = cc
