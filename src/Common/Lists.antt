-- ===== src/Common/Lists.antt =====
-- Lists measured and indexed by native numbers, under the library's names.
use Prim.Native.Nat.{ℕ, zero, suc, ◌+◌, ◌<◌}
use mathlib.Core.Path.{◌≡◌, refl, ap, subst}
use mathlib.Core.List.{List, [], ◌∷◌, ◌++◌}
use mathlib.Core.Option.{Option, none, some}
use native.Mathlib.Omega.{arith}

module _ {ℓ} {A : Type ℓ} where
  abbrev pub length : List A → ℕ
  length [] = 0
  length (x ∷ xs) = suc (length xs)

  abbrev pub get_elem? : List A → ℕ → Option A
  get_elem? [] i = none
  get_elem? (x ∷ xs) zero = some x
  get_elem? (x ∷ xs) (suc i) = get_elem? xs i

  abbrev pub take : ℕ → List A → List A
  take zero xs = []
  take (suc n) [] = []
  take (suc n) (x ∷ xs) = x ∷ take n xs

  abbrev pub drop : ℕ → List A → List A
  drop zero xs = xs
  drop (suc n) [] = []
  drop (suc n) (x ∷ xs) = drop n xs

  abbrev pub All {κ} : (A → Type κ) → List A → Type κ
  All P [] = Unit
  All P (x ∷ xs) = P x × All P xs

  -- `P` holds of each element with its index, the first of which is `i`.
  abbrev pub AllFrom {κ} : (ℕ → A → Type κ) → ℕ → List A → Type κ
  AllFrom P i [] = Unit
  AllFrom P i (x ∷ xs) = P i x × AllFrom P (suc i) xs

module _ {ℓ} {A : Type ℓ} where
  pub length-append : (xs ys : List A) → length (xs ++ ys) ≡ length xs + length ys
  length-append [] ys = omega arith
  length-append (x ∷ xs) ys = omega (arith, length-append xs ys)

  pub take-append : (xs ys : List A) → take (length xs) (xs ++ ys) ≡ xs
  take-append [] ys = refl
  take-append (x ∷ xs) ys = ap (◌∷◌ x) (take-append xs ys)

  pub drop-append : (xs ys : List A) → drop (length xs) (xs ++ ys) ≡ ys
  drop-append [] ys = refl
  drop-append (x ∷ xs) ys = drop-append xs ys

  pub get_elem?-length : (xs ys : List A) (x : A) → get_elem? (xs ++ (x ∷ ys)) (length xs) ≡ some x
  get_elem?-length [] ys x = refl
  get_elem?-length (z ∷ xs) ys x = get_elem?-length xs ys x

  pub get_elem?-lt : (xs : List A) (i : ℕ) → i < length xs → (x : A) × (get_elem? xs i ≡ some x)
  get_elem?-lt [] i h = elim h [ ]
  get_elem?-lt (x ∷ xs) zero h = (x, refl)
  get_elem?-lt (x ∷ xs) (suc i) h = get_elem?-lt xs i (omega arith)

  pub All-append {κ} : (P : A → Type κ) (xs ys : List A) → All P xs → All P ys → All P (xs ++ ys)
  All-append P [] ys h k = k
  All-append P (x ∷ xs) ys h k = (h.0, All-append P xs ys h.1 k)

  pub All-map {κ κ'} :
      (P : A → Type κ) (Q : A → Type κ') (xs : List A) → ((a : A) → P a → Q a) → All P xs → All Q xs
  All-map P Q [] f h = tt
  All-map P Q (x ∷ xs) f h = (f x h.0, All-map P Q xs f h.1)

  some_injective : {x y : A} → some x ≡ some y → x ≡ y
  some_injective e = cc

  pub All-get_elem? {κ} :
      (P : A → Type κ) (xs : List A) (i : ℕ) {x : A} → All P xs → get_elem? xs i ≡ some x → P x
  All-get_elem? P [] i h e = cc
  All-get_elem? P (y ∷ xs) zero h e = subst P (some_injective e) h.0
  All-get_elem? P (y ∷ xs) (suc i) h e = All-get_elem? P xs i h.1 e

  pub AllFrom-get_elem? {κ} :
      (P : ℕ → A → Type κ) (i k : ℕ) (xs : List A) {x : A}
      → AllFrom P i xs
      → get_elem? xs k ≡ some x
      → P (i + k) x
  AllFrom-get_elem? P i k [] h e = cc
  AllFrom-get_elem? P i zero (y ∷ xs) {x} h e =
      subst (λ j. P j x) (omega arith) (subst (P i) (some_injective e) h.0)
  AllFrom-get_elem? P i (suc k) (y ∷ xs) {x} h e =
      subst (λ j. P j x) (omega arith) (AllFrom-get_elem? P (suc i) k xs h.1 e)

  pub AllFrom-append {κ} :
      (P : ℕ → A → Type κ) (i : ℕ) (xs : List A) (x : A)
      → AllFrom P i xs
      → P (i + length xs) x
      → AllFrom P i (xs ++ (x ∷ []))
  AllFrom-append P i [] x h p = (subst (λ j. P j x) (omega arith) p, tt)
  AllFrom-append P i (y ∷ xs) x h p =
      (h.0, AllFrom-append P (suc i) xs x h.1 (subst (λ j. P j x) (omega arith) p))

  pub AllFrom-map {κ μ} :
      (P : ℕ → A → Type κ) (Q : ℕ → A → Type μ) (i : ℕ) (xs : List A)
      → ((k : ℕ) (a : A) → P k a → Q k a)
      → AllFrom P i xs
      → AllFrom Q i xs
  AllFrom-map P Q i [] f h = tt
  AllFrom-map P Q i (x ∷ xs) f h = (f i x h.0, AllFrom-map P Q (suc i) xs f h.1)
