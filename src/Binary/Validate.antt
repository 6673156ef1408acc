-- ===== src/Binary/Validate.antt =====
-- `validate_definition`: what a loaded definition must satisfy.
use muesli_bt.Common.{
  ℕ, suc, Bool, true, false, List, [], ◌∷◌, Text, is_empty, ltb, ◌==◌, not, length, Result, ok,
  bind, require, ◌>>◌,
}
use muesli_bt.Ast.{
  NodeKind, seq, sel, invert, repeat, retry, cond, act, succeed, fail, running, plan_action,
  vla_request, vla_wait, vla_cancel, mem_seq, mem_sel, async_seq, reactive_seq, reactive_sel, Node,
  Definition,
}

-- The messages of `bt.load`.
pub data LoadError : Type 0 where
  end_of_file invalid_header unsupported_version unsupported_endianness : LoadError
  no_nodes too_many_nodes invalid_node_kind too_many_children too_many_args : LoadError
  invalid_arg_kind string_too_large : LoadError
  no_definition_nodes root_out_of_range id_mismatch child_out_of_range : LoadError
  composite_without_child decorator_arity unnamed_leaf utility_with_children : LoadError
  planner_with_children : LoadError

-- The four shapes that the `switch` on the kind tells apart, and the named leaves.
pub data Shape : Type 0 where
  composite decorator named_leaf utility planner : Shape

abbrev pub shape_of : NodeKind → Shape
shape_of seq = composite
shape_of sel = composite
shape_of mem_seq = composite
shape_of mem_sel = composite
shape_of async_seq = composite
shape_of reactive_seq = composite
shape_of reactive_sel = composite
shape_of invert = decorator
shape_of repeat = decorator
shape_of retry = decorator
shape_of cond = named_leaf
shape_of act = named_leaf
shape_of succeed = utility
shape_of fail = utility
shape_of running = utility
shape_of plan_action = planner
shape_of vla_request = planner
shape_of vla_wait = planner
shape_of vla_cancel = planner

abbrev no_children : List ℕ → Bool
no_children [] = true
no_children (_ ∷ _) = false

unfoldable pub check_shape : Shape → List ℕ → Text → Result LoadError (Unit {0})
check_shape composite children name = require (not (no_children children)) composite_without_child
check_shape decorator children name = require (length children == 1) decorator_arity
check_shape named_leaf children name = require (not (is_empty name)) unnamed_leaf
check_shape utility children name = require (no_children children) utility_with_children
check_shape planner children name = require (no_children children) planner_with_children

unfoldable pub check_children : ℕ → List ℕ → Result LoadError (Unit {0})
check_children size [] = ok tt
check_children size (c ∷ cs) =
    bind (require (ltb c size) child_out_of_range) λ _. check_children size cs

-- The body of the loop at index `i`, of `size` nodes.
unfoldable pub check_node : ℕ → ℕ → Node → Result LoadError (Unit {0})
unfolding check_shape check_children
check_node size i n =
    require (n.id == i) id_mismatch
    >> (check_children size n.children >> check_shape (shape_of n.kind) n.children n.leaf_name)

unfoldable pub check_nodes : ℕ → ℕ → List Node → Result LoadError (Unit {0})
check_nodes size i [] = ok tt
check_nodes size i (n ∷ ns) = bind (check_node size i n) λ _. check_nodes size (suc i) ns

unfoldable pub validate_definition : Definition → Result LoadError (Unit {0})
validate_definition def =
    require (ltb 0 (length def.nodes)) no_definition_nodes
    >> (require (ltb def.root (length def.nodes)) root_out_of_range
        >> check_nodes (length def.nodes) 0 def.nodes)
