-- ===== src/Value.antt =====
-- Lisp values as the reader builds them (include/muslisp/value.hpp, src/value.cpp). Cons cells are
-- never written to after `make_cons`, so a value is a tree. A value that is no data shows only what
-- the printer reads of it: the name of a primitive, the size of a container, the number of a handle.
use muesli_bt.Common.{
  ℕ, Bool, true, false, List, [], ◌∷◌, ◌≡◌, refl, ℤ, Text, Result, ok, err, ◌>>=◌,
}

pub data Value : Type 0 where
  nil : Value
  boolean : Bool → Value
  integer : ℤ → Value
  floating : ℕ → Value
  symbol : Text → Value
  string : Text → Value
  cons : Value → Value → Value
  primitive_fn : Text → Value
  closure : Value
  vec : ℕ → Value
  map : ℕ → Value
  pq : ℕ → Value
  rng : Value
  bt_def : ℤ → Value
  bt_instance : ℤ → Value
  image_handle : ℤ → Value
  blob_handle : ℤ → Value

pub data LispError : Type 0 where
  not_a_proper_list : LispError

unfoldable pub list_from_vector : List Value → Value
list_from_vector [] = nil
list_from_vector (v ∷ vs) = cons v (list_from_vector vs)

unfoldable pub vector_from_list : Value → Result LispError (List Value)
vector_from_list nil = ok []
vector_from_list (cons a d) = do items ← vector_from_list d; ok (a ∷ items)
vector_from_list _ = err not_a_proper_list

unfoldable pub is_proper_list : Value → Bool
is_proper_list nil = true
is_proper_list (cons a d) = is_proper_list d
is_proper_list _ = false

-- A list built from a vector gives the vector back.
pub vector_from_list-list_from_vector :
    (vs : List Value) → vector_from_list (list_from_vector vs) ≡ ok vs
unfolding vector_from_list list_from_vector
vector_from_list-list_from_vector [] = refl
vector_from_list-list_from_vector (v ∷ vs) = rw (vector_from_list-list_from_vector vs)
