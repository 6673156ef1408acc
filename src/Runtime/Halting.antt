-- ===== src/Runtime/Halting.antt =====
-- On a compiled definition the loop of `halt_subtree_impl` ends: its fuel is the size of the subtree.
use muesli_bt.Common.{
  ℕ, zero, suc, ◌+◌, ◌≤◌, ◌<◌, ◌≡◌, refl, sym, ap, subst, inl, inr, Option, none, some, List, [],
  ◌∷◌, ◌++◌, length, get_elem?, get_elem?-lt, All, All-map, All-append, AllFrom-get_elem?, Text,
  Result, ok, err, bind, ok-injective, ◌⊎◌, arith,
}
use mathlib.Core.List.{reverse, reverse-cons}
use muesli_bt.Ast.{Node, Definition}
use muesli_bt.Compiler.Numbers.{IsNumberedNode, IsNumbered}
use muesli_bt.Runtime.State.{Host, State, Fault, foreign_exception}
use muesli_bt.Runtime.Halt.{
  node_children, children_of, total, subtree_size, get_node, halt_node, halt_loop,
  halt_subtree_impl,
}

-- A computation that ends well, or with an exception that no handler catches.
pub data Safe {S A : Type 0} (P : A × S → Type 0) : Result Fault (A × S) → Type 0 where
  holds : {r : A × S} → P r → Safe P (ok r)
  foreign : Safe P (err foreign_exception)

module _ {S A B : Type 0} where
  pub Safe-bind :
      {P : A × S → Type 0} {Q : B × S → Type 0} {r : Result Fault (A × S)}
      {f : A × S → Result Fault (B × S)}
      → Safe P r
      → ((a : A × S) → P a → Safe Q (f a))
      → Safe Q (bind r f)
  Safe-bind (holds {r} h) k = k r h
  Safe-bind foreign k = foreign

module _ {S A : Type 0} where
  pub Safe-map :
      {P Q : A × S → Type 0} {r : Result Fault (A × S)}
      → Safe P r
      → ((a : A × S) → P a → Q a)
      → Safe Q r
  Safe-map (holds {r} h) k = holds (k r h)
  Safe-map foreign k = foreign

module _ {S A : Type 0} {P : A × S → Type 0} where
  pub outcome :
      {r r' : Result Fault (A × S)}
      → r ≡ r'
      → Safe P r'
      → ((a : A) × (t : S) × (r ≡ ok (a, t))) ⊎ (r ≡ err foreign_exception)
  outcome e (holds {r = x} h) = inl (x.0, x.1, e)
  outcome e foreign = inr e

  pub Safe-ok : {r : Result Fault (A × S)} {a : A} {t : S} → r ≡ ok (a, t) → Safe P r → P (a, t)
  Safe-ok e (holds h) = subst P (ok-injective e) h
  Safe-ok e foreign = cc

total-append : (f : ℕ → ℕ) (xs ys : List ℕ) → total f (xs ++ ys) ≡ total f xs + total f ys
total-append f [] ys = omega arith
total-append f (x ∷ xs) ys = omega (arith, total-append f xs ys)

total-reverse : (f : ℕ → ℕ) (xs : List ℕ) → total f (reverse xs) ≡ total f xs
total-reverse f [] = refl
total-reverse f (x ∷ xs) =
    rw (reverse-cons x xs) (omega (arith, total-append f (reverse xs) (x ∷ []), total-reverse f xs))

total-cong : (f g : ℕ → ℕ) (xs : List ℕ) → All (λ x. f x ≡ g x) xs → total f xs ≡ total g xs
total-cong f g [] h = refl
total-cong f g (x ∷ xs) h = omega (arith, h.0, total-cong f g xs h.1)

All-reverse : (P : ℕ → Type 0) (xs : List ℕ) → All P xs → All P (reverse xs)
All-reverse P [] h = tt
All-reverse P (x ∷ xs) h =
    subst (All P) (sym (reverse-cons x xs))
      (All-append P (reverse xs) (x ∷ []) (All-reverse P xs h.1) (h.0, tt))

module _ (def : Definition) (numbered : IsNumbered def.nodes) where
  pub numbered_at : (i : ℕ) {n : Node} → get_elem? def.nodes i ≡ some n → IsNumberedNode i n
  numbered_at i {n} e =
      subst (λ j. IsNumberedNode j n) (omega arith)
        (AllFrom-get_elem? IsNumberedNode 0 i def.nodes numbered e)

  children_of-lt : (i : ℕ) → All (λ c. c < i) (children_of def i)
  children_of-lt i = go (get_elem? def.nodes i) refl
    where
      go : (o : Option Node) → get_elem? def.nodes i ≡ o → All (λ c. c < i) (node_children o)
      go none e = tt
      go (some n) e = (numbered_at i e).children_before

  -- A depth above the id is enough.
  size_stable : (d i : ℕ) → i < d → subtree_size def (suc d) i ≡ subtree_size def d i
  unfolding subtree_size
  size_stable zero i h = elim h [ ]
  size_stable (suc d) i h = ap suc (
      total-cong (subtree_size def (suc d)) (subtree_size def d) (children_of def i) (
        All-map (λ c. c < i) _ (children_of def i) (λ c lt. size_stable d c (omega arith))
          (children_of-lt i)))

  -- What the fuel of a round pays for.
  size_step :
      (d i : ℕ)
      → i < d
      → subtree_size def d i ≡ suc (total (subtree_size def d) (children_of def i))
  unfolding subtree_size
  size_step zero i h = elim h [ ]
  size_step (suc d) i h = ap suc (
      sym (
        total-cong (subtree_size def (suc d)) (subtree_size def d) (children_of def i) (
          All-map (λ c. c < i) _ (children_of def i) (λ c lt. size_stable d c (omega arith))
            (children_of-lt i))))

pub get_node_lem :
    {W P : Type 0} (host : Host W P) (def : Definition) (id : ℕ) (s : State W P) {n : Node}
    → get_elem? def.nodes id ≡ some n
    → get_node host def id s ≡ ok (n, s)
unfolding get_node
get_node_lem host def id s e = rw (e, get_node)

module _ {W P : Type 0} (host : Host W P) (def : Definition) (numbered : IsNumbered def.nodes)
    (R : State W P → State W P → Type 0) (R_refl : (s : State W P) → R s s)
    (R_trans : (s t u : State W P) → R s t → R t u → R s u)
    (R_halt : (n : Node) (id : ℕ) (reason : Text) (s : State W P)
      → R s (halt_node host def n id reason s)) where
  -- Whatever relation the rounds keep, the loop keeps.
  pub halt_loop-Safe :
      (fuel : ℕ) (reason : Text) (stack : List ℕ) (s : State W P)
      → total (subtree_size def (length def.nodes)) stack ≤ fuel
      → All (λ i. i < length def.nodes) stack
      → Safe (λ (_, t). R s t) (halt_loop host def fuel reason stack s)
  unfolding halt_loop
  halt_loop-Safe fuel reason [] s few h = holds (R_refl s)
  halt_loop-Safe zero reason (id ∷ stack) s few h =
      absurd (omega (arith, size_step def numbered (length def.nodes) id h.0))
  halt_loop-Safe (suc fuel) reason (id ∷ stack) s few h =
      let (n, e) = get_elem?-lt def.nodes id h.0 in
      let size = size_step def numbered (length def.nodes) id h.0 in
      let before = (numbered_at def numbered id e).children_before in
      let s₁ = halt_node host def n id reason s in
      let f = subtree_size def (length def.nodes) in
      rw (get_node_lem host def id s e) (
        Safe-map
          (halt_loop-Safe fuel reason (reverse n.children ++ stack) s₁
            (omega (
              arith,
              few,
              size,
              ap (λ o. total f (node_children o)) e,
              total-append f (reverse n.children) stack,
              total-reverse f n.children,
            ))
            (All-append _ (reverse n.children) stack
              (All-reverse _ n.children
                (All-map (λ c. c < id) _ n.children (λ c lt. omega (arith, h.0)) before))
              h.1))
          λ r k. R_trans s s₁ r.1 (R_halt n id reason s) k)

  pub halt_subtree_impl-Safe :
      (reason : Text) (root : ℕ) (s : State W P)
      → root < length def.nodes
      → Safe (λ (_, t). R s t) (halt_subtree_impl host def reason root s)
  unfolding halt_subtree_impl
  halt_subtree_impl-Safe reason root s h =
      halt_loop-Safe (subtree_size def (length def.nodes) root) reason (root ∷ []) s (omega arith)
        (h, tt)
