-- ===== src/Common/Decimal.antt =====
-- `std::to_string` of an unsigned number.
use Prim.Native.Nat.{ℕ, zero, suc, ◌+◌, ◌-◌, ◌*◌, ◌/◌, ◌%◌, ◌^◌, ◌<◌, ◌≤◌}
use mathlib.Core.List.{[], ◌∷◌}
use mathlib.Core.Bool.{Bool, true, false}
use muesli_bt.Common.Tests.{ltb, ltb→lt, ltb_false→le, if◌then◌else◌}
use muesli_bt.Common.Strings.{Text, is_empty}
use muesli_bt.Common.Lists.{All, length}
use native.Mathlib.Omega.{arith}
use mathlib.Core.Path.{◌≡◌, refl, ap, ◌∙◌}

-- A number has at most as many digits as its value plus one.
digits_from : ℕ → ℕ → Text → Text
digits_from zero n acc = acc
digits_from (suc fuel) n acc =
    let digit = (n % 10 + b'0') ∷ acc in
    let more = digits_from fuel (n / 10) digit in if ltb n 10 then digit else more

unfoldable pub to_string : ℕ → Text
unfolding digits_from
to_string n = digits_from (suc n) n []

module _ {ℓ} (P : ℕ → Type ℓ) (digit : (n : ℕ) → P (n % 10 + b'0')) where
  which : (b : Bool) (s t : Text) → All P s → All P t → All P (if b then s else t)
  which true s t h k = h
  which false s t h k = k

  digits_from-All : (fuel n : ℕ) (acc : Text) → All P acc → All P (digits_from fuel n acc)
  unfolding digits_from
  digits_from-All zero n acc h = h
  digits_from-All (suc fuel) n acc h =
      which (ltb n 10) _ _ (digit n, h) (digits_from-All fuel (n / 10) _ (digit n, h))

  -- What holds of every digit holds of the bytes of a number.
  pub to_string-All : (n : ℕ) → All P (to_string n)
  unfolding to_string
  to_string-All n = digits_from-All (suc n) n [] tt

-- `n` has at most `k` digits and one more.
abbrev pub Fits : ℕ → ℕ → Type 0
Fits zero n = n < 10
Fits (suc k) n = Fits k (n / 10)

length_if :
    (b : Bool) (s t : Text) (n : ℕ)
    → length s ≤ n
    → (b ≡ false → length t ≤ n)
    → length (if b then s else t) ≤ n
length_if true s t n h k = h
length_if false s t n h k = k refl

length-digits :
    (k fuel n : ℕ) (acc : Text) → Fits k n → length (digits_from fuel n acc) ≤ suc k + length acc
unfolding digits_from
length-digits k zero n acc h = omega arith
length-digits zero (suc fuel) n acc h =
    length_if (ltb n 10) _ _ _ (omega arith) (λ e. absurd (omega (arith, h, ltb_false→le n 10 e)))
length-digits (suc k) (suc fuel) n acc h =
    let rest = length-digits k fuel (n / 10) ((n % 10 + b'0') ∷ acc) h in
    length_if (ltb n 10) _ _ _ (omega arith) (λ _. omega (arith, rest))

pub length-to_string : (k n : ℕ) → Fits k n → length (to_string n) ≤ suc k
unfolding to_string
length-to_string k n h = omega (arith, length-digits k (suc n) n [] h)

u64-Fits : (n : ℕ) → n < 2 ^ 64 → Fits 19 n
u64-Fits n h = omega (arith, h)

pub length-to_string-u64 : (n : ℕ) → n < 2 ^ 64 → length (to_string n) ≤ 20
length-to_string-u64 n h = length-to_string 19 n (u64-Fits n h)

-- The number that decimal digits stand for, after those of `n`.
abbrev pub digits_value : ℕ → Text → ℕ
digits_value n [] = n
digits_value n (c ∷ text) = digits_value (n * 10 + (c - b'0')) text

value_if :
    (b : Bool) (s t : Text) (k : ℕ)
    → (b ≡ true → digits_value 0 s ≡ k)
    → (b ≡ false → digits_value 0 t ≡ k)
    → digits_value 0 (if b then s else t) ≡ k
value_if true s t k h l = h refl
value_if false s t k h l = l refl

digits_value-digits_from :
    (fuel n : ℕ) (acc : Text)
    → n ≤ fuel
    → digits_value 0 (digits_from (suc fuel) n acc) ≡ digits_value n acc
unfolding digits_from
digits_value-digits_from zero n acc h =
    value_if (ltb n 10) ((n % 10 + b'0') ∷ acc) _ _
      (λ e.
        ap (λ k. digits_value k acc) {x = 0 * 10 + (n % 10 + b'0' - b'0')} {y = n}
          (omega (arith, h)))
      (λ e. absurd (omega (arith, h, ltb_false→le n 10 e)))
digits_value-digits_from (suc fuel) n acc h =
    value_if (ltb n 10) ((n % 10 + b'0') ∷ acc) _ _
      (λ e.
        ap (λ k. digits_value k acc) {x = 0 * 10 + (n % 10 + b'0' - b'0')} {y = n}
          (omega (arith, ltb→lt n 10 e)))
      (λ e.
        digits_value-digits_from fuel (n / 10) _ (omega (arith, h, ltb_false→le n 10 e))
        ∙ ap (λ k. digits_value k acc) {x = n / 10 * 10 + (n % 10 + b'0' - b'0')} {y = n}
            (omega arith))

pub digits_value-to_string : (n : ℕ) → digits_value 0 (to_string n) ≡ n
unfolding to_string
digits_value-to_string n = digits_value-digits_from n n [] (omega arith)

is_empty_if :
    (b : Bool) (s t : Text)
    → is_empty s ≡ false
    → is_empty t ≡ false
    → is_empty (if b then s else t) ≡ false
is_empty_if true s t h k = h
is_empty_if false s t h k = k

digits_from_nonempty : (fuel n c : ℕ) (acc : Text) → is_empty (digits_from fuel n (c ∷ acc)) ≡ false
unfolding digits_from
digits_from_nonempty zero n c acc = refl
digits_from_nonempty (suc fuel) n c acc =
    is_empty_if (ltb n 10) _ _ refl (digits_from_nonempty fuel (n / 10) _ (c ∷ acc))

-- A number has a digit.
pub is_empty-to_string : (n : ℕ) → is_empty (to_string n) ≡ false
unfolding to_string digits_from
is_empty-to_string n = is_empty_if (ltb n 10) _ _ refl (digits_from_nonempty n (n / 10) _ [])
