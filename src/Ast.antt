-- ===== src/Ast.antt =====
-- Behaviour tree definitions (include/bt/ast.hpp). An `arg_value` is a tagged union, so it is a data
-- type with a constructor for each `arg_kind`. A `double` is its 64-bit pattern.
use muesli_bt.Common.{ℕ, Bool, List, ℤ, Text}

pub data NodeKind : Type 0 where
  seq sel invert repeat retry cond act succeed fail running : NodeKind
  plan_action vla_request vla_wait vla_cancel : NodeKind
  mem_seq mem_sel async_seq reactive_seq reactive_sel : NodeKind

pub data ArgValue : Type 0 where
  nil : ArgValue
  boolean : Bool → ArgValue
  integer : ℤ → ArgValue
  floating : ℕ → ArgValue
  symbol : Text → ArgValue
  string : Text → ArgValue

-- `node_id` is a `std::uint32_t`.
pub record Node : Type 0 where
  pub kind : NodeKind
  pub id : ℕ
  pub children : List ℕ
  pub leaf_name : Text
  pub args : List ArgValue
  pub int_param : ℤ

pub record Definition : Type 0 where
  pub nodes : List Node
  pub root : ℕ
  pub source_hash : Text
  pub canonical_dsl_hash : Text
  pub canonical_dsl : Text
