-- ===== src/Lisp/Integers.antt =====
-- What the reader makes of the decimal text of an integer, in the range of `std::int64_t` or not.
use muesli_bt.Common.{
  suc, ◌^◌, ◌≡◌, refl, ap, ◌∙◌, Bool, Bool-cases, inl, inr, true, false, Option, none, ltb, ltb→lt,
  leb, if◌then◌else◌, if-false, Text, to_string, is_empty-to_string, to_string-All, ℤ, pos, negsuc,
  IsI64, ok, bind, arith, ℕ,
}
use muesli_bt.Value.{Value}
use muesli_bt.EventLog.Json.{integer_text}
use muesli_bt.Lisp.Reader.{
  positive_i64, negative_i64, from_chars, as_integer, or_symbol, only_one, read_one,
}
use muesli_bt.Lisp.Digits.{
  IsDigit, digit, natural-to_string, no_sign, from_chars-integer_text, atom_of-numeric,
  integer_text-IsToken, integer_text-IsNumeric,
}
use muesli_bt.Lisp.Layout.{token, read_all-Writes}

-- Whether a number is one of the 64-bit integers.
abbrev pub fits_i64 : ℤ → Bool
fits_i64 (pos n) = ltb n (2 ^ 63)
fits_i64 (negsuc n) = ltb n (2 ^ 63)

fits-IsI64 : (i : ℤ) → fits_i64 i ≡ true → IsI64 i
fits-IsI64 (pos n) h = ltb→lt n (2 ^ 63) h
fits-IsI64 (negsuc n) h = ltb→lt n (2 ^ 63) h

too_large : (i : ℤ) → fits_i64 i ≡ false → from_chars (integer_text i) ≡ none
unfolding integer_text from_chars
too_large (pos n) h =
    no_sign (to_string n) (is_empty-to_string n) (to_string-All IsDigit digit n)
    ∙ ap positive_i64 (natural-to_string n)
    ∙ if-false (ltb n (2 ^ 63)) _ _ h
too_large (negsuc n) h =
    ap negative_i64 (natural-to_string (suc n))
    ∙ if-false (leb (suc n) (2 ^ 63)) _ _ (ground (arith, h))

-- The value of the decimal text of an integer.
abbrev pub decimal_value : ℤ → Value
decimal_value i = if fits_i64 i then Value.integer i else Value.symbol (integer_text i)

from_chars-decimal :
    (i : ℤ)
    → or_symbol (integer_text i) (as_integer (from_chars (integer_text i))) ≡ decimal_value i
from_chars-decimal i = elim (Bool-cases (fits_i64 i)) [
  | inl h ↦
      ap (λ o. or_symbol (integer_text i) (as_integer o))
        (from_chars-integer_text i (fits-IsI64 i h))
      ∙ rw h refl
  | inr h ↦ ap (λ o. or_symbol (integer_text i) (as_integer o)) (too_large i h) ∙ rw h refl
]

-- The decimal text of every integer is read as that integer if it is in the range of `std::int64_t`,
-- and otherwise as the symbol of that text: a number out of range is neither wrapped nor clamped.
pub read_one-integer_text :
    (strtod : Text → Option ℕ) (i : ℤ)
    → read_one strtod (integer_text i)
      ≡ ok (if fits_i64 i then Value.integer i else Value.symbol (integer_text i))
unfolding read_one
read_one-integer_text strtod i =
    ap (λ r. bind r (only_one strtod)) (read_all-Writes strtod (token (integer_text-IsToken i)))
    ∙ ap ok
        (atom_of-numeric strtod (integer_text i) (integer_text-IsNumeric i) ∙ from_chars-decimal i)
