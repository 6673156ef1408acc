-- ===== src/Lisp/Enough.antt =====
-- The fuel of the reader is enough for every source.
use muesli_bt.Common.{
  ℕ, zero, suc, ◌+◌, ◌*◌, ◌≤◌, ◌<◌, ◌≡◌, subst, Bool, true, false, Option, none, some, List, [],
  ◌∷◌, length, ◌==◌, Text, codes, Result, ok, err, bind, arith,
}
use muesli_bt.Value.{Value}
use muesli_bt.Lisp.Reader.{
  Read, ReadError, parse_error, out_of_fuel, is_space, delimiter, skip_ws_and_comments,
  skip_comment, read_token, read_atom, unescape, and_byte, or_unknown, read_string,
  read_string_escape, as_string, as_list, in_form, read_unquote, read_from, read_skipped, and_item,
  then_items, list_skipped, read_expr, read_list, all_skipped, read_expressions, read_all,
}

-- The fuel was enough, and what is left is shorter than `n`.
abbrev IsAhead : (A : Type 0) → ℕ → Read A → Type 0
IsAhead A n (ok (v, rest)) = length rest < n
IsAhead A n (err (parse_error message incomplete)) = Unit
IsAhead A n (err out_of_fuel) = ⊥

IsAhead-≤ : (A : Type 0) (m n : ℕ) (r : Read A) → m ≤ n → IsAhead A m r → IsAhead A n r
IsAhead-≤ A m n (ok (v, rest)) k h = omega (arith, k, h)
IsAhead-≤ A m n (err (parse_error message incomplete)) k h = tt
IsAhead-≤ A m n (err out_of_fuel) k h = h

pub either :
    {A : Type 0} (P : A → Type 0) (b : Bool) (x y : A)
    → P x
    → P y
    → P (elim b [ true ↦ x | false ↦ y ])
either P true x y p q = p
either P false x y p q = q

mutual
  unfolding skip_ws_and_comments

  length-skip : (t : Text) → length (skip_ws_and_comments t) ≤ length t
  length-skip [] = omega arith
  length-skip (c ∷ t) =
      let h = length-skip t in
      let k = length-skip_comment t in
      either (λ r. length r ≤ suc (length t)) (is_space c) (skip_ws_and_comments t) _
        (omega (arith, h))
        (either (λ r. length r ≤ suc (length t)) (c == b';') (skip_comment t) (c ∷ t)
          (omega (arith, k)) (omega arith))

  length-skip_comment : (t : Text) → length (skip_comment t) ≤ length t
  length-skip_comment [] = omega arith
  length-skip_comment (c ∷ t) =
      let h = length-skip t in
      let k = length-skip_comment t in
      either (λ r. length r ≤ suc (length t)) (c == b'\n') (skip_ws_and_comments t) (skip_comment t)
        (omega (arith, h)) (omega (arith, k))

length-read_token : (t : Text) → length (read_token t).1 ≤ length t
unfolding read_token
length-read_token [] = omega arith
length-read_token (c ∷ t) =
    let h = length-read_token t in
    either (λ (r : Text × Text). length r.1 ≤ suc (length t)) (delimiter c) _ _ (omega arith)
      (omega (arith, h))

module _ (strtod : Text → Option ℕ) (source : Text) where
  and_byte-IsAhead :
      (n c : ℕ) (r : Read Text) → IsAhead Text n r → IsAhead Text n (and_byte strtod source c r)
  and_byte-IsAhead n c (ok (text, rest)) h = h
  and_byte-IsAhead n c (err (parse_error message incomplete)) h = tt
  and_byte-IsAhead n c (err out_of_fuel) h = h

  or_unknown-IsAhead :
      (n : ℕ) (o : Option ℕ) (rest : Text) (r : Read Text)
      → IsAhead Text n r
      → IsAhead Text n (or_unknown strtod source o rest r)
  or_unknown-IsAhead n none rest r h = tt
  or_unknown-IsAhead n (some c) rest r h = and_byte-IsAhead n c r h

  mutual
    unfolding read_string

    read_string-IsAhead : (t : Text) → IsAhead Text (suc (length t)) (read_string strtod source t)
    read_string-IsAhead [] = tt
    read_string-IsAhead (c ∷ t) =
        let n = suc (suc (length t)) in
        either (IsAhead Text n) (c == b'"') _ _ (omega arith) (
          either (IsAhead Text n) (c == b'\\') _ _
            (IsAhead-≤ Text (suc (length t)) n (read_string_escape strtod source t) (omega arith)
              (read_string_escape-IsAhead t))
            (and_byte-IsAhead n c (read_string strtod source t) (
              IsAhead-≤ Text (suc (length t)) n (read_string strtod source t) (omega arith)
                (read_string-IsAhead t))))

    read_string_escape-IsAhead :
        (t : Text) → IsAhead Text (suc (length t)) (read_string_escape strtod source t)
    read_string_escape-IsAhead [] = tt
    read_string_escape-IsAhead (c ∷ t) =
        let n = suc (suc (length t)) in
        or_unknown-IsAhead n (unescape strtod source c) t (read_string strtod source t) (
          IsAhead-≤ Text (suc (length t)) n (read_string strtod source t) (omega arith)
            (read_string-IsAhead t))

  as_string-IsAhead :
      (n : ℕ) (r : Read Text) → IsAhead Text n r → IsAhead Value n (as_string strtod source r)
  as_string-IsAhead n (ok (text, rest)) h = h
  as_string-IsAhead n (err (parse_error message incomplete)) h = tt
  as_string-IsAhead n (err out_of_fuel) h = h

  as_list-IsAhead :
      (n : ℕ) (r : Read (List Value))
      → IsAhead (List Value) n r
      → IsAhead Value n (as_list strtod source r)
  as_list-IsAhead n (ok (items, rest)) h = h
  as_list-IsAhead n (err (parse_error message incomplete)) h = tt
  as_list-IsAhead n (err out_of_fuel) h = h

  in_form-IsAhead :
      (n : ℕ) (name : Text) (r : Read Value)
      → IsAhead Value n r
      → IsAhead Value n (in_form strtod source name r)
  in_form-IsAhead n name (ok (v, rest)) h = h
  in_form-IsAhead n name (err (parse_error message incomplete)) h = tt
  in_form-IsAhead n name (err out_of_fuel) h = h

  and_item-IsAhead :
      (n : ℕ) (v : Value) (r : Read (List Value))
      → IsAhead (List Value) n r
      → IsAhead (List Value) n (and_item strtod source v r)
  and_item-IsAhead n v (ok (items, rest)) h = h
  and_item-IsAhead n v (err (parse_error message incomplete)) h = tt
  and_item-IsAhead n v (err out_of_fuel) h = h

  then_items-IsAhead :
      (n : ℕ) (list : Text → Read (List Value)) (r : Read Value)
      → ((t : Text) → length t < n → IsAhead (List Value) n (list t))
      → IsAhead Value n r
      → IsAhead (List Value) n (then_items strtod source list r)
  then_items-IsAhead n list (ok (v, rest)) f h = and_item-IsAhead n v (list rest) (f rest h)
  then_items-IsAhead n list (err (parse_error message incomplete)) f h = tt
  then_items-IsAhead n list (err out_of_fuel) f h = h

  -- What reads every text of at most `n` bytes, and something of it.
  abbrev Reads : (A : Type 0) → ℕ → (Text → Read A) → Type 0
  Reads A n read = (t : Text) → length t ≤ n → IsAhead A (length t) (read t)

  ahead :
      (A : Type 0) (n m : ℕ) (read : Text → Read A) (t : Text)
      → Reads A n read
      → length t ≤ n
      → length t ≤ m
      → IsAhead A m (read t)
  ahead A n m read t f k h = IsAhead-≤ A (length t) m (read t) h (f t k)

  unquote-IsAhead :
      (n : ℕ) (expression : Text → Read Value) (t : Text)
      → Reads Value n expression
      → length t ≤ n
      → IsAhead Value (suc (length t)) (read_unquote strtod source expression t)
  unquote-IsAhead n expression [] f k = tt
  unquote-IsAhead n expression (c ∷ t) f k =
      let m = suc (suc (length t)) in
      either (IsAhead Value m) (c == b'@') _ _
        (in_form-IsAhead m (codes "unquote-splicing") (expression t)
          (ahead Value n m expression t f (omega (arith, k)) (omega arith)))
        (in_form-IsAhead m (codes "unquote") (expression (c ∷ t))
          (ahead Value n m expression (c ∷ t) f k (omega arith)))

  from-IsAhead :
      (n : ℕ) (expression : Text → Read Value) (list : Text → Read (List Value)) (c : ℕ) (t : Text)
      → Reads Value n expression
      → Reads (List Value) n list
      → length t ≤ n
      → IsAhead Value (suc (length t)) (read_from strtod source expression list c t)
  unfolding read_atom
  from-IsAhead n expression list c t f g k =
      let m = suc (length t) in
      let form = ahead Value n m expression t f k (omega arith) in
      let token = length-read_token t in
      either (IsAhead Value m) (c == b'(') _ _
        (as_list-IsAhead m (list t) (ahead (List Value) n m list t g k (omega arith)))
        (either (IsAhead Value m) (c == b')') _ _ tt (
          either (IsAhead Value m) (c == b'\'') _ _
            (in_form-IsAhead m (codes "quote") (expression t) form)
            (either (IsAhead Value m) (c == b'`') _ _
              (in_form-IsAhead m (codes "quasiquote") (expression t) form)
              (either (IsAhead Value m) (c == b',') _ _ (unquote-IsAhead n expression t f k) (
                either (IsAhead Value m) (c == b'"') _ _
                  (as_string-IsAhead m (read_string strtod source t) (read_string-IsAhead t))
                  (omega (arith, token)))))))

  skipped-IsAhead :
      (n : ℕ) (expression : Text → Read Value) (list : Text → Read (List Value)) (t : Text)
      → Reads Value n expression
      → Reads (List Value) n list
      → length t ≤ suc n
      → IsAhead Value (length t) (read_skipped strtod source expression list t)
  skipped-IsAhead n expression list [] f g k = tt
  skipped-IsAhead n expression list (c ∷ t) f g k =
      from-IsAhead n expression list c t f g (omega (arith, k))

  list-IsAhead :
      (n : ℕ) (expression : Text → Read Value) (list : Text → Read (List Value)) (t : Text)
      → Reads Value (suc n) expression
      → Reads (List Value) n list
      → length t ≤ suc n
      → IsAhead (List Value) (length t) (list_skipped strtod source expression list t)
  list-IsAhead n expression list [] f g k = tt
  list-IsAhead n expression list (c ∷ t) f g k =
      let m = suc (length t) in
      either (IsAhead (List Value) m) (c == b')') _ _ (omega arith) (
        then_items-IsAhead m list (expression (c ∷ t))
          (λ r h. ahead (List Value) n m list r g (omega (arith, k, h)) (omega (arith, h)))
          (f (c ∷ t) k))

  mutual
    unfolding read_expr skip_ws_and_comments

    read_expr-IsAhead :
        (fuel n : ℕ) → 2 * n + 1 ≤ fuel → Reads Value n (read_expr strtod source fuel)
    read_expr-IsAhead zero n k t h = absurd (omega (arith, k))
    read_expr-IsAhead (suc fuel) zero k [] h = tt
    read_expr-IsAhead (suc fuel) zero k (c ∷ t) h = absurd (omega (arith, h))
    read_expr-IsAhead (suc fuel) (suc n) k t h =
        let skipped = skip_ws_and_comments t in
        let s = length-skip t in
        IsAhead-≤ Value (length skipped) (length t) _ s (
          skipped-IsAhead n (read_expr strtod source fuel) (read_list strtod source fuel) skipped
            (read_expr-IsAhead fuel n (omega (arith, k)))
            (read_list-IsAhead fuel n (omega (arith, k))) (omega (arith, s, h)))

    read_list-IsAhead :
        (fuel n : ℕ) → 2 * n + 2 ≤ fuel → Reads (List Value) n (read_list strtod source fuel)
    read_list-IsAhead zero n k t h = absurd (omega (arith, k))
    read_list-IsAhead (suc fuel) zero k [] h = tt
    read_list-IsAhead (suc fuel) zero k (c ∷ t) h = absurd (omega (arith, h))
    read_list-IsAhead (suc fuel) (suc n) k t h =
        let skipped = skip_ws_and_comments t in
        let s = length-skip t in
        IsAhead-≤ (List Value) (length skipped) (length t) _ s (
          list-IsAhead n (read_expr strtod source fuel) (read_list strtod source fuel) skipped
            (read_expr-IsAhead fuel (suc n) (omega (arith, k)))
            (read_list-IsAhead fuel n (omega (arith, k))) (omega (arith, s, h)))

  -- The fuel was enough for the expressions.
  abbrev IsFinished : Result ReadError (List Value) → Type 0
  IsFinished (ok values) = Unit
  IsFinished (err (parse_error message incomplete)) = Unit
  IsFinished (err out_of_fuel) = ⊥

  before-IsFinished :
      (v : Value) (r : Result ReadError (List Value))
      → IsFinished r
      → IsFinished (bind r (λ values. ok (v ∷ values)))
  before-IsFinished v (ok values) h = tt
  before-IsFinished v (err (parse_error message incomplete)) h = tt
  before-IsFinished v (err out_of_fuel) h = h

  then-IsFinished :
      (n : ℕ) (more : Text → Result ReadError (List Value)) (r : Read Value)
      → ((t : Text) → length t < n → IsFinished (more t))
      → IsAhead Value n r
      → IsFinished (bind r (λ (x : Value × Text). bind (more x.1) (λ values. ok (x.0 ∷ values))))
  then-IsFinished n more (ok (v, rest)) f h = before-IsFinished v (more rest) (f rest h)
  then-IsFinished n more (err (parse_error message incomplete)) f h = tt
  then-IsFinished n more (err out_of_fuel) f h = h

  all_skipped-IsFinished :
      (n : ℕ) (expression : Text → Read Value) (more : Text → Result ReadError (List Value))
      (t : Text)
      → Reads Value (suc n) expression
      → ((r : Text) → length r ≤ n → IsFinished (more r))
      → length t ≤ suc n
      → IsFinished (all_skipped strtod source expression more t)
  all_skipped-IsFinished n expression more [] f g k = tt
  all_skipped-IsFinished n expression more (c ∷ t) f g k =
      then-IsFinished (suc (length t)) more (expression (c ∷ t)) (λ r h. g r (omega (arith, k, h)))
        (f (c ∷ t) k)

  expressions-IsFinished :
      (fuel n : ℕ)
      → 2 * n + 2 ≤ fuel
      → (t : Text) → length t ≤ n
      → IsFinished (read_expressions strtod source fuel t)
  unfolding read_expressions skip_ws_and_comments
  expressions-IsFinished zero n k t h = absurd (omega (arith, k))
  expressions-IsFinished (suc fuel) zero k [] h = tt
  expressions-IsFinished (suc fuel) zero k (c ∷ t) h = absurd (omega (arith, h))
  expressions-IsFinished (suc fuel) (suc n) k t h =
      let s = length-skip t in
      all_skipped-IsFinished n (read_expr strtod source fuel) (read_expressions strtod source fuel)
        (skip_ws_and_comments t) (read_expr-IsAhead fuel (suc n) (omega (arith, k)))
        (expressions-IsFinished fuel n (omega (arith, k))) (omega (arith, s, h))

-- The reader comes to an end on every source: it gives the expressions or a parse error, and never
-- runs out of the fuel of twice the length.
pub read_all-out_of_fuel :
    (strtod : Text → Option ℕ) (source : Text) → ¬ (read_all strtod source ≡ err out_of_fuel)
unfolding read_all
read_all-out_of_fuel strtod source e = subst (IsFinished strtod source) e (
    expressions-IsFinished strtod source (2 * length source + 2) (length source) (omega arith)
      source (omega arith))
