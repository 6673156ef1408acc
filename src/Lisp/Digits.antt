-- ===== src/Lisp/Digits.antt =====
-- The reader reads back the integers that the printer writes.
use muesli_bt.Common.{
  ℕ, suc, ◌+◌, ◌^◌, ◌%◌, ◌≡◌, refl, ◌∙◌, ap, true, false, ◌||◌, Option, some, [], ◌∷◌, All, ltb,
  leb, lt→ltb, le→leb, ◌==◌, if-true, if-false, Text, codes, text_eq, is_empty, to_string,
  to_string-All, digits_value-to_string, is_empty-to_string, ℤ, pos, negsuc, IsI64, arith,
}
use muesli_bt.EventLog.Json.{integer_text}
use muesli_bt.Value.{Value}
use muesli_bt.Lisp.Tokens.{IsInside, is_quote, IsToken}
use muesli_bt.Lisp.Printer.{contains, maybe_float}
use muesli_bt.Lisp.Reader.{
  is_digit, all_digits, is_number, natural, positive_i64, negative_i64, from_chars, as_integer,
  or_symbol, atom_of,
}

abbrev pub IsDigit : ℕ → Type 0
IsDigit c = is_digit c ≡ true

pub digit : (n : ℕ) → IsDigit (n % 10 + b'0')
digit n = ground arith

all_digits_iff : (text : Text) → All IsDigit text → all_digits text ≡ true
all_digits_iff [] h = refl
all_digits_iff (c ∷ text) h = rw h.0 (all_digits_iff text h.1)

is_number_of :
    (text : Text) → is_empty text ≡ false → all_digits text ≡ true → is_number text ≡ true
is_number_of [] e h = cc
is_number_of (c ∷ text) e h = h

pub natural-to_string : (n : ℕ) → natural (to_string n) ≡ some n
natural-to_string n =
    if-true (is_number (to_string n)) _ _ (
      is_number_of (to_string n) (is_empty-to_string n)
        (all_digits_iff (to_string n) (to_string-All IsDigit digit n)))
    ∙ ap some (digits_value-to_string n)

-- No digit is a minus sign.
pub no_sign :
    (text : Text)
    → is_empty text ≡ false
    → All IsDigit text
    → from_chars text ≡ positive_i64 (natural text)
unfolding from_chars
no_sign [] e h = cc
no_sign (c ∷ text) e h = if-false (c == b'-') _ _ (ground (arith, h.0))

pub from_chars-integer_text : (i : ℤ) → IsI64 i → from_chars (integer_text i) ≡ some i
unfolding integer_text from_chars
from_chars-integer_text (pos n) h =
    no_sign (to_string n) (is_empty-to_string n) (to_string-All IsDigit digit n)
    ∙ ap positive_i64 (natural-to_string n)
    ∙ if-true (ltb n (2 ^ 63)) _ _ (lt→ltb n (2 ^ 63) h)
from_chars-integer_text (negsuc n) h =
    ap negative_i64 (natural-to_string (suc n))
    ∙ if-true (leb (suc n) (2 ^ 63)) _ _ (le→leb (suc n) (2 ^ 63) h)

-- The bytes of an integer.
abbrev pub IsNumeric : ℕ → Type 0
IsNumeric c = ((c == b'-') || is_digit c) ≡ true

pub integer_text-IsNumeric : (i : ℤ) → All IsNumeric (integer_text i)
unfolding integer_text
integer_text-IsNumeric (pos n) = to_string-All IsNumeric (λ d. ground arith) n
integer_text-IsNumeric (negsuc n) = (refl, to_string-All IsNumeric (λ d. ground arith) (suc n))

contains_no :
    (d : ℕ) (text : Text)
    → ((c : ℕ) → IsNumeric c → (c == d) ≡ false)
    → All IsNumeric text
    → contains d text ≡ false
contains_no d [] k h = refl
contains_no d (c ∷ text) k h = rw (k c h.0) (contains_no d text k h.1)

no_float : (text : Text) → All IsNumeric text → maybe_float text ≡ false
no_float text h =
    rw
      (
        contains_no b'.' text (λ c n. ground (arith, n)) h,
        contains_no b'e' text (λ c n. ground (arith, n)) h,
        contains_no b'E' text (λ c n. ground (arith, n)) h,
      )
      refl

-- No text of this kind is the name of a constant.
no_constant :
    (d : ℕ) (text name : Text)
    → ((c : ℕ) → IsNumeric c → (c == d) ≡ false)
    → All IsNumeric text
    → text_eq text (d ∷ name) ≡ false
no_constant d [] name k h = refl
no_constant d (c ∷ text) name k h = rw (k c h.0) refl

-- A token of digits and signs is an integer, or else a symbol.
pub atom_of-numeric :
    (strtod : Text → Option ℕ) (text : Text)
    → All IsNumeric text
    → atom_of strtod text ≡ or_symbol text (as_integer (from_chars text))
unfolding atom_of
atom_of-numeric strtod text numeric =
    if-false (text_eq text (codes "#t")) _ _
      (no_constant b'#' text _ (λ c n. ground (arith, n)) numeric)
    ∙ if-false (text_eq text (codes "#f")) _ _
        (no_constant b'#' text _ (λ c n. ground (arith, n)) numeric)
    ∙ if-false (text_eq text (codes "nil")) _ _
        (no_constant b'n' text _ (λ c n. ground (arith, n)) numeric)
    ∙ if-false (maybe_float text) _ _ (no_float text numeric)

pub atom_of-integer_text :
    (strtod : Text → Option ℕ) (i : ℤ) → IsI64 i → atom_of strtod (integer_text i) ≡ Value.integer i
atom_of-integer_text strtod i h =
    let text = integer_text i in
    atom_of-numeric strtod text (integer_text-IsNumeric i)
    ∙ ap (λ o. or_symbol text (as_integer o)) (from_chars-integer_text i h)

numeric-IsInside : (text : Text) → All IsNumeric text → All IsInside text
numeric-IsInside [] h = tt
numeric-IsInside (c ∷ text) h = (inside c h.0, numeric-IsInside text h.1)
  where
    inside : (c : ℕ) → IsNumeric c → IsInside c
    inside c h = ground (arith, h)

numeric-IsToken : (text : Text) → is_empty text ≡ false → All IsNumeric text → IsToken text
numeric-IsToken [] e h = cc
numeric-IsToken (c ∷ text) e h = (no_quote c h.0, numeric-IsInside (c ∷ text) h)
  where
    no_quote : (c : ℕ) → IsNumeric c → is_quote c ≡ false
    no_quote c h = ground (arith, h)

pub integer_text-IsToken : (i : ℤ) → IsToken (integer_text i)
unfolding integer_text
integer_text-IsToken (pos n) =
    numeric-IsToken (to_string n) (is_empty-to_string n) (integer_text-IsNumeric (pos n))
integer_text-IsToken (negsuc n) =
    numeric-IsToken (integer_text (negsuc n)) refl (integer_text-IsNumeric (negsuc n))
