-- ===== src/Binary/Meaning.antt =====
-- What `validate_definition` decides, said without the loop.
use muesli_bt.Common.{
  ℕ, suc, ◌<◌, ◌≡◌, refl, subst, ◌↔◌, true, List, [], ◌∷◌, Text, ltb, ◌==◌, length, All, AllFrom,
  ok-injective, ok, require, >>=-eq-ok, arith, lt→ltb,
}
use muesli_bt.Ast.{Node, Definition}
use muesli_bt.Binary.Validate.{
  Shape, composite, decorator, named_leaf, utility, planner, shape_of, check_shape, check_children,
  check_node, check_nodes, validate_definition,
}
use muesli_bt.Binary.Load.{read_definition, load_definition_binary}
use muesli_bt.Binary.Bytes.{Bytes}

-- The children and the name that a kind of node calls for.
abbrev pub HasShape : Shape → List ℕ → Text → Type 0
HasShape composite children name = 0 < length children
HasShape decorator children name = length children ≡ 1
HasShape named_leaf children name = 0 < length name
HasShape utility children name = length children ≡ 0
HasShape planner children name = length children ≡ 0

-- A node at index `i` of `size`.
pub record IsValidNode (size i : ℕ) (n : Node) : Type 0 where
  pub id_eq : n.id ≡ i
  pub children_in : All (λ c. c < size) n.children
  pub shaped : HasShape (shape_of n.kind) n.children n.leaf_name

pub record IsValid (def : Definition) : Type 0 where
  pub root_in : def.root < length def.nodes
  pub nodes_valid : AllFrom (IsValidNode (length def.nodes)) 0 def.nodes

check_shape_iff :
    (s : Shape) (children : List ℕ) (name : Text)
    → (check_shape s children name ≡ ok tt) ↔ HasShape s children name
unfolding check_shape
check_shape_iff composite [] name = ((λ h. cc), λ h. elim h [ ])
check_shape_iff composite (c ∷ cs) name = ((λ h. omega arith), λ h. refl)
check_shape_iff decorator children name = ((λ h. ground arith), λ h. ground arith)
check_shape_iff named_leaf children [] = ((λ h. cc), λ h. elim h [ ])
check_shape_iff named_leaf children (c ∷ cs) = ((λ h. omega arith), λ h. refl)
check_shape_iff utility [] name = ((λ h. refl), λ h. refl)
check_shape_iff utility (c ∷ cs) name = ((λ h. cc), λ h. absurd (omega arith))
check_shape_iff planner [] name = ((λ h. refl), λ h. refl)
check_shape_iff planner (c ∷ cs) name = ((λ h. cc), λ h. absurd (omega arith))

check_children_iff :
    (size : ℕ) (cs : List ℕ) → (check_children size cs ≡ ok tt) ↔ All (λ c. c < size) cs
unfolding check_children
check_children_iff size [] = ((λ h. tt), λ h. refl)
check_children_iff size (c ∷ cs) = (
  (λ h.
      let (_, a, b) = >>=-eq-ok (require (ltb c size) _) _ h in
      (ground arith, (check_children_iff size cs).0 b)),
  λ h. rw (lt→ltb c size h.0) ((check_children_iff size cs).1 h.1),
)

check_node_iff : (size i : ℕ) (n : Node) → (check_node size i n ≡ ok tt) ↔ IsValidNode size i n
unfolding check_node
check_node_iff size i n = (
  (λ h.
      let (_, a, h') = >>=-eq-ok (require (n.id == i) _) _ h in
      let (_, b, c) = >>=-eq-ok (check_children size n.children) _ h' in
      record {
        id_eq = ground arith;
        children_in = (check_children_iff size n.children).0 b;
        shaped = (check_shape_iff (shape_of n.kind) n.children n.leaf_name).0 c;
      }),
  λ v.
      rw (same n.id i v.id_eq, (check_children_iff size n.children).1 v.children_in)
        ((check_shape_iff (shape_of n.kind) n.children n.leaf_name).1 v.shaped),
)
  where
    same : (a b : ℕ) → a ≡ b → (a == b) ≡ true
    same a b e = ground arith

check_nodes_iff :
    (size i : ℕ) (ns : List Node)
    → (check_nodes size i ns ≡ ok tt) ↔ AllFrom (IsValidNode size) i ns
unfolding check_nodes
check_nodes_iff size i [] = ((λ h. tt), λ h. refl)
check_nodes_iff size i (n ∷ ns) = (
  (λ h.
      let (_, a, b) = >>=-eq-ok (check_node size i n) _ h in
      ((check_node_iff size i n).0 a, (check_nodes_iff size (suc i) ns).0 b)),
  λ v. rw ((check_node_iff size i n).1 v.0) ((check_nodes_iff size (suc i) ns).1 v.1),
)

-- `validate_definition` accepts exactly the definitions whose root is in range, whose ids are the
-- indices of the nodes, whose children are in range, and whose nodes have the children and the name
-- that their kind calls for.
pub validate_definition_iff : (def : Definition) → (validate_definition def ≡ ok tt) ↔ IsValid def
unfolding validate_definition
validate_definition_iff def = (
  (λ h.
      let (_, a, h') = >>=-eq-ok (require (ltb 0 (length def.nodes)) _) _ h in
      let (_, b, c) = >>=-eq-ok (require (ltb def.root (length def.nodes)) _) _ h' in
      record {
        root_in = ground arith;
        nodes_valid = (check_nodes_iff (length def.nodes) 0 def.nodes).0 c;
      }),
  λ v.
      rw
        (
          lt→ltb 0 (length def.nodes) (omega (arith, v.root_in)),
          lt→ltb def.root (length def.nodes) v.root_in,
        )
        ((check_nodes_iff (length def.nodes) 0 def.nodes).1 v.nodes_valid),
)

-- Whatever bytes it is given, the loader returns valid definitions only.
pub load_definition_binary-IsValid :
    (bytes : Bytes) (def : Definition) → load_definition_binary bytes ≡ ok def → IsValid def
unfolding load_definition_binary
load_definition_binary-IsValid bytes def h =
    let ((d, rest), a, h') = >>=-eq-ok (read_definition bytes) _ h in
    let (_, b, c) = >>=-eq-ok (validate_definition d) _ h' in
    (validate_definition_iff def).0 (subst (λ e. validate_definition e ≡ ok tt) (ok-injective c) b)
