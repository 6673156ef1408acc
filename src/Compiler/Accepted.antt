-- ===== src/Compiler/Accepted.antt =====
-- What the loader's check says of a compiled definition.
use muesli_bt.Common.{
  ℕ, suc, ◌^◌, ◌≤◌, ◌<◌, ◌+◌, ◌≡◌, refl, ◌⊎◌, Bool, true, not, ◌&&◌, if◌then◌else◌, List, [], ◌∷◌,
  length, AllFrom, All, Text, is_empty, lt→ltb, eq→==, Result, ok, err, arith,
}
use muesli_bt.Ast.{Node, Definition}
use muesli_bt.Binary.Validate.{
  LoadError, unnamed_leaf, Shape, named_leaf, shape_of, check_shape, check_children, check_node,
  check_nodes, validate_definition,
}
use muesli_bt.Value.{Value}
use muesli_bt.Compiler.{compile_definition}
use muesli_bt.Compiler.Numbers.{IsNumberedNode}
use muesli_bt.Compiler.Numbering.{compile_definition-IsNumbered}

-- A `cond` or `act` node has a name.
leaf_is_named : Shape → Text → Bool
leaf_is_named named_leaf name = not (is_empty name)
leaf_is_named _ name = true

pub all_named : List Node → Bool
unfolding leaf_is_named
all_named [] = true
all_named (n ∷ ns) = leaf_is_named (shape_of n.kind) n.leaf_name && all_named ns

abbrev verdict : Bool → Result LoadError (Unit {0})
verdict named = if named then ok tt else err unnamed_leaf

shape_verdict :
    (s : Shape) (children : List ℕ) (name : Text)
    → (check_shape s children name ≡ ok tt)
      ⊎ ((check_shape s children name ≡ err unnamed_leaf) × (is_empty name ≡ true))
    → check_shape s children name ≡ verdict (leaf_is_named s name)
unfolding check_shape leaf_is_named
shape_verdict named_leaf children name h = ground arith
shape_verdict Shape.composite children name h = ground arith
shape_verdict Shape.decorator children name h = ground arith
shape_verdict Shape.utility children name h = ground arith
shape_verdict Shape.planner children name h = ground arith

children_in_range :
    (size i : ℕ) (cs : List ℕ) → i ≤ size → All (λ c. c < i) cs → check_children size cs ≡ ok tt
unfolding check_children
children_in_range size i [] h a = refl
children_in_range size i (c ∷ cs) h a =
    rw (lt→ltb c size (omega (arith, a.0))) (children_in_range size i cs h a.1)

check_nodes-verdict :
    (size i : ℕ) (ns : List Node)
    → i + length ns ≤ size
    → AllFrom IsNumberedNode i ns
    → check_nodes size i ns ≡ verdict (all_named ns)
unfolding check_nodes check_node all_named
check_nodes-verdict size i [] fits h = refl
check_nodes-verdict size i (n ∷ ns) fits h =
    rw
      (
        eq→== n.id i h.0.id_eq,
        children_in_range size i n.children (omega arith) h.0.children_before,
        shape_verdict (shape_of n.kind) n.children n.leaf_name h.0.shaped,
      )
      (ground (arith, check_nodes-verdict size (suc i) ns (omega arith) h.1))

-- `validate_definition` accepts a compiled definition unless a `cond` or `act` in it has the empty
-- string for its name, and then it says so.
pub validate-compile :
    (form : Value) (def : Definition)
    → compile_definition form ≡ ok def
    → length def.nodes ≤ 2 ^ 32
    → validate_definition def ≡ (if all_named def.nodes then ok tt else err unnamed_leaf)
unfolding validate_definition
validate-compile form def h fits =
    let (numbered, last) = compile_definition-IsNumbered form def h fits in
    rw
      (
        lt→ltb 0 (length def.nodes) (omega (arith, last)),
        lt→ltb def.root (length def.nodes) (omega (arith, last)),
      )
      (check_nodes-verdict (length def.nodes) 0 def.nodes (omega arith) numbered)
