-- ===== src/Compiler.antt =====
-- The compiler from Lisp forms to definitions (src/bt/compiler.cpp). `compiler_state` is the list of
-- the nodes emitted so far; `compile_node` throws by the error of a `Result`.

pub mod Numbers
pub mod Forms
pub mod Numbering
pub mod Accepted
use muesli_bt.Common.{
  ℕ, ◌%◌, ◌^◌, not, Option, none, some, List, [], ◌∷◌, ◌++◌, length, ℤ, pos, is_negative, Text,
  codes, text_eq, ltb, ◌==◌, if◌then◌else◌, Result, ok, err, bind, require,
}
use muesli_bt.Ast.{
  NodeKind, seq, sel, invert, repeat, retry, cond, act, succeed, fail, running, plan_action,
  vla_request, vla_wait, vla_cancel, mem_seq, mem_sel, async_seq, reactive_seq, reactive_sel,
  ArgValue, Node, Definition,
}
use muesli_bt.Value.{Value, cons, symbol, LispError, vector_from_list}

pub data CompileError : Type 0 where
  form_not_list head_not_symbol : CompileError
  lisp : LispError → CompileError
  no_child : Text → CompileError
  wrong_arity : Text → ℕ → ℕ → CompileError
  count_not_integer count_negative : Text → CompileError
  no_leaf_name leaf_name_type : Text → CompileError
  odd_pairs : Text → CompileError
  bad_argument : CompileError
  unknown_form : Text → CompileError

-- A computation over the nodes emitted so far.
abbrev pub Compile : Type 0 → Type 0
Compile A = List Node → Result CompileError (A × List Node)

infixl 5 ◌>>=◌ ◌>>◌
abbrev pub ◌>>=◌ : {A B : Type 0} → Compile A → (A → Compile B) → Compile B
◌>>=◌ m f nodes = bind (m nodes) λ (a, nodes'). f a nodes'

abbrev pub ◌>>◌ : {B : Type 0} → Compile (Unit {0}) → Compile B → Compile B
m >> k = m >>= λ _. k

abbrev pub pure : {A : Type 0} → A → Compile A
pure a nodes = ok (a, nodes)

abbrev pub lift : {A : Type 0} → Result CompileError A → Compile A
lift r nodes = bind r λ a. ok (a, nodes)

abbrev pub lisp_result : {A : Type 0} → Result LispError A → Result CompileError A
lisp_result (ok a) = ok a
lisp_result (err e) = err (lisp e)

-- The branches of `compile_node`, with the kind that the form's name selects.
pub data Form : Type 0 where
  composite : NodeKind → Form
  inverter : Form
  counted : NodeKind → Form
  leaf : NodeKind → Form
  utility : NodeKind → Form
  paired : NodeKind → Form

abbrev pub find_form : Text → List (Text × Form) → Option Form
find_form name [] = none
find_form name ((n, f) ∷ rest) = if text_eq name n then some f else find_form name rest

abbrev pub forms : List (Text × Form)
forms =
    (codes "seq", composite seq)
    ∷ (codes "sel", composite sel)
    ∷ (codes "mem-seq", composite mem_seq)
    ∷ (codes "mem-sel", composite mem_sel)
    ∷ (codes "async-seq", composite async_seq)
    ∷ (codes "reactive-seq", composite reactive_seq)
    ∷ (codes "reactive-sel", composite reactive_sel)
    ∷ (codes "invert", inverter)
    ∷ (codes "repeat", counted repeat)
    ∷ (codes "retry", counted retry)
    ∷ (codes "cond", leaf cond)
    ∷ (codes "act", leaf act)
    ∷ (codes "succeed", utility succeed)
    ∷ (codes "fail", utility fail)
    ∷ (codes "running", utility running)
    ∷ (codes "plan-action", paired plan_action)
    ∷ (codes "vla-request", paired vla_request)
    ∷ (codes "vla-wait", paired vla_wait)
    ∷ (codes "vla-cancel", paired vla_cancel)
    ∷ []

-- The chain of tests on `form_name`.
unfoldable pub form_of : Text → Option Form
form_of name = find_form name forms

unfoldable pub compile_arg : Value → Result CompileError ArgValue
compile_arg Value.nil = ok ArgValue.nil
compile_arg (Value.boolean b) = ok (ArgValue.boolean b)
compile_arg (Value.integer i) = ok (ArgValue.integer i)
compile_arg (Value.floating f) = ok (ArgValue.floating f)
compile_arg (symbol s) = ok (ArgValue.symbol s)
compile_arg (Value.string s) = ok (ArgValue.string s)
compile_arg _ = err bad_argument

pub compile_args : List Value → Result CompileError (List ArgValue)
compile_args [] = ok []
compile_args (v ∷ vs) = bind (compile_arg v) λ a. bind (compile_args vs) λ as'. ok (a ∷ as')

-- `items` holds what follows the head of the form, so it is one shorter than the source's.
abbrev pub require_arity : Text → List Value → ℕ → Result CompileError (Unit {0})
require_arity name items expected =
    require (length items == expected) (wrong_arity name expected (length items))

-- The id is cast to `std::uint32_t`.
pub emit_node : Node → Compile ℕ
emit_node n nodes = let id = length nodes % 2 ^ 32 in ok (id, nodes ++ (record n { id = id } ∷ []))

abbrev pub blank : NodeKind → Node
blank k = record { kind = k; id = 0; children = []; leaf_name = []; args = []; int_param = pos 0 }

-- The count of `repeat` and `retry`.
pub count_of : Text → List Value → Result CompileError ℤ
count_of name (Value.integer n ∷ _) =
    bind (require (not (is_negative n)) (count_negative name)) λ _. ok n
count_of name _ = err (count_not_integer name)

-- The name of a `cond` or `act` leaf, with the values of its arguments.
pub leaf_of : Text → List Value → Result CompileError (Text × List Value)
leaf_of name [] = err (no_leaf_name name)
leaf_of name (symbol s ∷ rest) = ok (s, rest)
leaf_of name (Value.string s ∷ rest) = ok (s, rest)
leaf_of name _ = err (leaf_name_type name)

-- One form: `children` compiles the forms `items[1..]`, and `after_count` those of `items[2..]`.
unfoldable pub compile_form :
    Option Form → Text → List Value → Compile (List ℕ) → Compile (List ℕ) → Compile ℕ
unfolding emit_node count_of leaf_of compile_args
compile_form (some (composite k)) name items children after_count = do
  lift (require (ltb 0 (length items)) (no_child name))
  ids ← children
  emit_node (record (blank k) { children = ids })
compile_form (some inverter) name items children after_count = do
  lift (require_arity name items 1)
  ids ← children
  emit_node (record (blank invert) { children = ids })
compile_form (some (counted k)) name items children after_count = do
  lift (require_arity name items 2)
  n ← lift (count_of name items)
  ids ← after_count
  emit_node (record (blank k) { children = ids; int_param = n })
compile_form (some (leaf k)) name items children after_count = do
  (leaf_name, rest) ← lift (leaf_of name items)
  args ← lift (compile_args rest)
  emit_node (record (blank k) { leaf_name = leaf_name; args = args })
compile_form (some (utility k)) name items children after_count = do
  lift (require_arity name items 0)
  emit_node (blank k)
compile_form (some (paired k)) name items children after_count = do
  lift (require (length items % 2 == 0) (odd_pairs name))
  args ← lift (compile_args items)
  emit_node (record (blank k) { args = args })
compile_form none name items children after_count = λ nodes. err (unknown_form name)

unfoldable mutual
  unfolding compile_form form_of

  pub compile_node : Value → Compile ℕ
  compile_node (cons (symbol name) rest) nodes = bind (lisp_result (vector_from_list rest)) λ items.
      compile_form (form_of name) name items (compile_children rest) (compile_tail rest) nodes
  compile_node (cons head rest) nodes =
      bind (lisp_result (vector_from_list rest)) λ _. err head_not_symbol
  compile_node _ nodes = err form_not_list

  pub compile_children : Value → Compile (List ℕ)
  compile_children (cons form rest) nodes =
      bind (compile_node form nodes)
        λ (id, nodes'). bind (compile_children rest nodes') λ (ids, nodes''). ok (id ∷ ids, nodes'')
  compile_children _ nodes = ok ([], nodes)

  pub compile_tail : Value → Compile (List ℕ)
  compile_tail (cons _ rest) nodes = compile_children rest nodes
  compile_tail _ nodes = ok ([], nodes)

unfoldable pub compile_definition : Value → Result CompileError Definition
unfolding compile_node
compile_definition form = bind (compile_node form []) λ (root, nodes). ok (record {
  nodes = nodes;
  root = root;
  source_hash = [];
  canonical_dsl_hash = [];
  canonical_dsl = [];
})
