-- ===== src/Compiler/Forms.antt =====
-- Each branch of `compile_form` numbers its node and gives it the children that its kind calls for.
use muesli_bt.Common.{
  ℕ, ◌<◌, ◌≡◌, refl, ◌⊎◌, inl, inr, Bool, true, false, Option, none, some, List, [], ◌∷◌, length,
  All, Text, Result, ok, err, require, Ensures, holds, fails, Ensures-map, arith, ltb→lt, ==→eq,
  Bool-cases, is_empty, text_eq, ◌-◌,
}
use muesli_bt.Ast.{NodeKind, invert}
use muesli_bt.Binary.Validate.{
  unnamed_leaf, Shape, named_leaf, decorator, planner, shape_of, check_shape,
}
use muesli_bt.Value.{Value}
use muesli_bt.Compiler.{
  CompileError, Compile, Form, composite, inverter, counted, leaf, utility, paired, form_of, forms,
  find_form, blank, count_of, leaf_of, compile_args, compile_form,
}
use muesli_bt.Compiler.Numbers.{
  Numbers, Numbers-bind, Numbers-lift, IsEmittable, IsLast, emit_node-Numbers,
}

abbrev pub option_list : {A : Type 0} → Option A → List A
option_list none = []
option_list (some a) = a ∷ []

-- The kind that a form's name selects has the shape that its branch builds.
abbrev pub HasFormShape : Form → Type 0
HasFormShape (composite k) = shape_of k ≡ Shape.composite
HasFormShape inverter = Unit
HasFormShape (counted k) = shape_of k ≡ decorator
HasFormShape (leaf k) = shape_of k ≡ named_leaf
HasFormShape (utility k) = shape_of k ≡ Shape.utility
HasFormShape (paired k) = shape_of k ≡ planner

find_form-HasFormShape :
    (name : Text) (l : List (Text × Form))
    → All (λ p. HasFormShape p.1) l
    → All HasFormShape (option_list (find_form name l))
find_form-HasFormShape name [] h = tt
find_form-HasFormShape name ((n, f) ∷ rest) h = elim (Bool-cases (text_eq name n)) [
  | inl e ↦ rw e (h.0, tt)
  | inr e ↦ rw e (find_form-HasFormShape name rest h.1)
]

pub form_of-HasFormShape : (name : Text) → All HasFormShape (option_list (form_of name))
unfolding form_of
form_of-HasFormShape name = find_form-HasFormShape name forms (
  refl,
  (
    refl,
    (
      refl,
      (
        refl,
        (
          refl,
          (
            refl,
            (
              refl,
              (
                tt,
                (
                  refl,
                  (
                    refl,
                    (refl, (refl, (refl, (refl, (refl, (refl, (refl, (refl, (refl, tt))))))))),
                  ),
                ),
              ),
            ),
          ),
        ),
      ),
    ),
  ),
)

-- The ids of `k` compiled forms.
abbrev pub AreIds : ℕ → List ℕ → ℕ → Type 0
AreIds k ids size = All (λ c. c < size) ids × (length ids ≡ k)

abbrev pub Anywhere : ℕ → Type 0
Anywhere _ = Unit

Numbers-weaken :
    {A : Type 0} (pre pre' : ℕ → Type 0) (m : Compile A) (post : A → ℕ → Type 0)
    → ((size : ℕ) → pre' size → pre size)
    → Numbers pre m post
    → Numbers pre' m post
Numbers-weaken pre pre' m post h n nodes =
    Ensures-map (n nodes) λ (a, nodes') p. (p.0, λ fits numbered q. p.1 fits numbered (h _ q))

Ensures-require_ok :
    (b : Bool) (e : CompileError) → Ensures (λ (_ : Unit {0}). b ≡ true) (require b e)
Ensures-require_ok true e = holds refl
Ensures-require_ok false e = fails

pub Ensures-any : {A : Type 0} (r : Result CompileError A) → Ensures (λ _. Unit {0}) r
Ensures-any (ok a) = holds tt
Ensures-any (err e) = fails

composite_shape :
    (k : NodeKind) (ids : List ℕ)
    → shape_of k ≡ Shape.composite
    → 0 < length ids
    → check_shape (shape_of k) ids [] ≡ ok tt
unfolding check_shape
composite_shape k [] shape h = elim h [ ]
composite_shape k (c ∷ cs) shape h = rw shape

decorator_shape :
    (k : NodeKind) (ids : List ℕ)
    → shape_of k ≡ decorator
    → length ids ≡ 1
    → check_shape (shape_of k) ids [] ≡ ok tt
unfolding check_shape
decorator_shape k ids shape h = rw (shape, h)

utility_shape : (k : NodeKind) → shape_of k ≡ Shape.utility → check_shape (shape_of k) [] [] ≡ ok tt
unfolding check_shape
utility_shape k shape = rw shape

planner_shape : (k : NodeKind) → shape_of k ≡ planner → check_shape (shape_of k) [] [] ≡ ok tt
unfolding check_shape
planner_shape k shape = rw shape

leaf_shape :
    (k : NodeKind) (leaf_name : Text)
    → shape_of k ≡ named_leaf
    → (check_shape (shape_of k) [] leaf_name ≡ ok tt)
      ⊎ ((check_shape (shape_of k) [] leaf_name ≡ err unnamed_leaf) × (is_empty leaf_name ≡ true))
unfolding check_shape
leaf_shape k [] shape = inr (rw shape, refl)
leaf_shape k (c ∷ cs) shape = inl (rw shape)

module _ (name : Text) (items : List Value) (children after_count : Compile (List ℕ))
    (children_ids : Numbers Anywhere children (AreIds (length items)))
    (after_ids : Numbers Anywhere after_count (AreIds (length items - 1))) where
  -- One lemma for each branch of `compile_form`.
  composite-Numbers :
      (k : NodeKind)
      → shape_of k ≡ Shape.composite
      → Numbers Anywhere (compile_form (some (composite k)) name items children after_count) IsLast
  unfolding compile_form
  composite-Numbers k shape =
      Numbers-lift Anywhere _ _ _ IsLast (Ensures-require_ok _ _) λ _ some_child.
        Numbers-bind Anywhere children (AreIds (length items)) _ IsLast children_ids λ ids.
          Numbers-weaken (IsEmittable (record (blank k) { children = ids }))
            (AreIds (length items) ids) _ IsLast
            (λ size h. record {
              children_in = h.0;
              shaped =
                  inl (composite_shape k ids shape (omega (arith, ltb→lt _ _ some_child, h.1)));
            })
            (emit_node-Numbers _)

  inverter-Numbers :
      Numbers Anywhere (compile_form (some inverter) name items children after_count) IsLast
  unfolding compile_form
  inverter-Numbers = Numbers-lift Anywhere _ _ _ IsLast (Ensures-require_ok _ _) λ _ one.
      Numbers-bind Anywhere children (AreIds (length items)) _ IsLast children_ids λ ids.
        Numbers-weaken (IsEmittable (record (blank invert) { children = ids }))
          (AreIds (length items) ids) _ IsLast
          (λ size h. record {
            children_in = h.0;
            shaped = inl (decorator_shape invert ids refl (omega (arith, ==→eq _ _ one, h.1)));
          })
          (emit_node-Numbers _)

  counted-Numbers :
      (k : NodeKind)
      → shape_of k ≡ decorator
      → Numbers Anywhere (compile_form (some (counted k)) name items children after_count) IsLast
  unfolding compile_form
  counted-Numbers k shape = Numbers-lift Anywhere _ _ _ IsLast (Ensures-require_ok _ _) λ _ two.
      Numbers-lift Anywhere _ _ _ IsLast (Ensures-any (count_of name items)) λ n _.
        Numbers-bind Anywhere after_count (AreIds (length items - 1)) _ IsLast after_ids λ ids.
          Numbers-weaken (IsEmittable (record (blank k) { children = ids; int_param = n }))
            (AreIds (length items - 1) ids) _ IsLast
            (λ size h. record {
              children_in = h.0;
              shaped = inl (decorator_shape k ids shape (omega (arith, ==→eq _ _ two, h.1)));
            })
            (emit_node-Numbers _)

  leaf-Numbers :
      (k : NodeKind)
      → shape_of k ≡ named_leaf
      → Numbers Anywhere (compile_form (some (leaf k)) name items children after_count) IsLast
  unfolding compile_form
  leaf-Numbers k shape =
      Numbers-lift Anywhere _ _ _ IsLast (Ensures-any (leaf_of name items)) λ (leaf_name, rest) _.
        Numbers-lift Anywhere _ _ _ IsLast (Ensures-any (compile_args rest)) λ args _.
          Numbers-weaken (IsEmittable (record (blank k) { leaf_name = leaf_name; args = args }))
            Anywhere _ IsLast
            (λ size h. record { children_in = tt; shaped = leaf_shape k leaf_name shape })
            (emit_node-Numbers _)

  utility-Numbers :
      (k : NodeKind)
      → shape_of k ≡ Shape.utility
      → Numbers Anywhere (compile_form (some (utility k)) name items children after_count) IsLast
  unfolding compile_form
  utility-Numbers k shape = Numbers-lift Anywhere _ _ _ IsLast (Ensures-require_ok _ _) λ _ _.
      Numbers-weaken (IsEmittable (blank k)) Anywhere _ IsLast
        (λ size h. record { children_in = tt; shaped = inl (utility_shape k shape) })
        (emit_node-Numbers _)

  paired-Numbers :
      (k : NodeKind)
      → shape_of k ≡ planner
      → Numbers Anywhere (compile_form (some (paired k)) name items children after_count) IsLast
  unfolding compile_form
  paired-Numbers k shape = Numbers-lift Anywhere _ _ _ IsLast (Ensures-require_ok _ _) λ _ _.
      Numbers-lift Anywhere _ _ _ IsLast (Ensures-any (compile_args items)) λ args _.
        Numbers-weaken (IsEmittable (record (blank k) { args = args })) Anywhere _ IsLast
          (λ size h. record { children_in = tt; shaped = inl (planner_shape k shape) })
          (emit_node-Numbers _)

  pub compile_form-Numbers :
      (f : Option Form)
      → All HasFormShape (option_list f)
      → Numbers Anywhere (compile_form f name items children after_count) IsLast
  compile_form-Numbers (some (composite k)) h = composite-Numbers k h.0
  compile_form-Numbers (some inverter) h = inverter-Numbers
  compile_form-Numbers (some (counted k)) h = counted-Numbers k h.0
  compile_form-Numbers (some (leaf k)) h = leaf-Numbers k h.0
  compile_form-Numbers (some (utility k)) h = utility-Numbers k h.0
  compile_form-Numbers (some (paired k)) h = paired-Numbers k h.0
  compile_form-Numbers none h = unknown-Numbers
    where
      unknown-Numbers : Numbers Anywhere (compile_form none name items children after_count) IsLast
      unknown-Numbers nodes = unfold compile_form in fails
