-- ===== src/Compiler/Numbering.antt =====
-- What the compiler emits: the ids are the indices, children come before their parents, and the root
-- is the last node.
use muesli_bt.Common.{
  ℕ, suc, ◌^◌, ◌≤◌, ◌≡◌, refl, sym, ap, ok-injective, >>=-eq-ok, subst, List, [], ◌∷◌, length,
  Result, ok, err, bind, Ensures, holds, fails, Ensures-bind, Ensures-map, Ensures-ok, arith, ◌-◌,
}
use muesli_bt.Ast.{Node, Definition}
use muesli_bt.Value.{Value, nil, cons, symbol, LispError, vector_from_list}
use muesli_bt.Compiler.{
  CompileError, lisp_result, form_of, compile_node, compile_children, compile_tail,
  compile_definition,
}
use muesli_bt.Compiler.Numbers.{IsNumbered, Grows, Numbers, IsLast}
use muesli_bt.Compiler.Forms.{form_of-HasFormShape, AreIds, Anywhere, compile_form-Numbers}

lisp_bind {μ} :
    {A B : Type 0} {P : B → Type μ} (r : Result LispError A) (f : A → Result CompileError B)
    → ((a : A) → r ≡ ok a → Ensures P (f a))
    → Ensures P (bind (lisp_result r) f)
lisp_bind (ok a) f h = h a refl
lisp_bind (err e) f h = fails

-- The items of a list are its head and those of its tail.
items_of_cons :
    (a d : Value) {items : List Value}
    → vector_from_list (cons a d) ≡ ok items
    → (rest : List Value) × (vector_from_list d ≡ ok rest) × (length items ≡ suc (length rest))
unfolding vector_from_list
items_of_cons a d h =
    let (rest, e, e') = >>=-eq-ok (vector_from_list d) _ h in
    (rest, e, sym (ap length (ok-injective e')))

no_items :
    {items : List Value} (nodes : List Node)
    → ◌≡◌ {A = Result LispError (List Value)} (ok []) (ok items)
    → Ensures {E = CompileError} (Grows Anywhere (AreIds (length items)) nodes) (ok ([], nodes))
no_items nodes e =
    holds (omega arith, λ fits numbered _. (numbered, (tt, ap length (ok-injective e))))

-- The first child, and then the others.
both :
    {k k' : ℕ} (id : ℕ) (ids : List ℕ) (nodes nodes₁ nodes₂ : List Node)
    → k' ≡ suc k
    → Grows Anywhere IsLast nodes (id, nodes₁)
    → Grows Anywhere (AreIds k) nodes₁ (ids, nodes₂)
    → Grows Anywhere (AreIds k') nodes (id ∷ ids, nodes₂)
both id ids nodes nodes₁ nodes₂ count p₁ p₂ = (
  omega (arith, p₁.0, p₂.0),
  λ fits numbered _.
      let (numbered₁, last) = p₁.1 (omega (arith, p₂.0, fits)) numbered tt in
      let (numbered₂, are_ids) = p₂.1 fits numbered₁ tt in
      (numbered₂, ((omega (arith, last, p₂.0), are_ids.0), omega (arith, count, are_ids.1))),
)

mutual
  unfolding compile_node vector_from_list

  compile_node-Numbers : (v : Value) → Numbers Anywhere (compile_node v) IsLast
  compile_node-Numbers (cons (symbol name) rest) nodes =
      lisp_bind (vector_from_list rest) _ λ items e.
        compile_form-Numbers name items (compile_children rest) (compile_tail rest)
          (compile_children-Numbers rest e) (compile_tail-Numbers rest e) (form_of name)
          (form_of-HasFormShape name) nodes
  compile_node-Numbers (cons _ rest) nodes = lisp_bind (vector_from_list rest) _ λ items e. fails
  compile_node-Numbers _ nodes = fails

  compile_children-Numbers :
      (v : Value) {items : List Value}
      → vector_from_list v ≡ ok items
      → Numbers Anywhere (compile_children v) (AreIds (length items))
  compile_children-Numbers nil e nodes = no_items nodes e
  compile_children-Numbers (cons form rest) e nodes =
      let (items', e', count) = items_of_cons form rest e in
      Ensures-bind (compile_node-Numbers form nodes) λ (id, nodes₁) p₁.
        Ensures-bind (compile_children-Numbers rest e' nodes₁)
          λ (ids, nodes₂) p₂. holds (both id ids nodes nodes₁ nodes₂ count p₁ p₂)
  compile_children-Numbers _ e nodes = cc

  compile_tail-Numbers :
      (v : Value) {items : List Value}
      → vector_from_list v ≡ ok items
      → Numbers Anywhere (compile_tail v) (AreIds (length items - 1))
  compile_tail-Numbers nil e nodes =
      holds (
        omega arith,
        λ fits numbered _. (numbered, (tt, omega (arith, ap length (ok-injective e)))),
      )
  compile_tail-Numbers (cons form rest) e nodes =
      let (items', e', count) = items_of_cons form rest e in
      Ensures-map (compile_children-Numbers rest e' nodes) λ (ids, nodes') p. (
        p.0,
        λ fits numbered h.
            let (numbered', are_ids) = p.1 fits numbered h in
            (numbered', (are_ids.0, omega (arith, count, are_ids.1))),
      )
  compile_tail-Numbers _ e nodes = cc

-- Every node of a compiled definition has its index for its id and smaller ids for its children, and
-- the root is the last node.
pub compile_definition-IsNumbered :
    (form : Value) (def : Definition)
    → compile_definition form ≡ ok def
    → length def.nodes ≤ 2 ^ 32
    → IsNumbered def.nodes × (suc def.root ≡ length def.nodes)
unfolding compile_definition
compile_definition-IsNumbered form def h fits =
    let ((root, nodes), e, e') = >>=-eq-ok (compile_node form []) _ h in
    let made = ok-injective e' in
    let grown = Ensures-ok (compile_node-Numbers form []) e in
    subst
      (λ (d : Definition).
        length d.nodes ≤ 2 ^ 32 → IsNumbered d.nodes × (suc d.root ≡ length d.nodes))
      made (λ few. grown.1 few tt tt) fits
