-- ===== src/Compiler/Numbers.antt =====
-- Computations of the compiler that number the nodes they emit.
use muesli_bt.Common.{
  ℕ, suc, ◌%◌, ◌^◌, ◌≤◌, ◌<◌, ◌≡◌, ◌⊎◌, true, List, [], ◌∷◌, length, length-append, All, All-map,
  AllFrom, AllFrom-append, Result, ok, err, Ensures, holds, fails, Ensures-bind, Ensures-map, arith,
  is_empty,
}
use muesli_bt.Ast.{Node}
use muesli_bt.Binary.Validate.{unnamed_leaf, shape_of, check_shape}
use muesli_bt.Compiler.{CompileError, Compile, ◌>>=◌, lift, emit_node}

-- A node at index `i` whose children have smaller indices. `validate_definition` could object to its
-- shape only for an empty leaf name.
pub record IsNumberedNode (i : ℕ) (n : Node) : Type 0 where
  pub id_eq : n.id ≡ i
  pub children_before : All (λ c. c < i) n.children
  pub shaped :
      (check_shape (shape_of n.kind) n.children n.leaf_name ≡ ok tt)
      ⊎ ((check_shape (shape_of n.kind) n.children n.leaf_name ≡ err unnamed_leaf)
          × (is_empty n.leaf_name ≡ true))

abbrev pub IsNumbered : List Node → Type 0
IsNumbered = AllFrom IsNumberedNode 0

-- The `std::uint32_t` ids do not wrap.
abbrev pub Fits : List Node → Type 0
Fits nodes = length nodes ≤ 2 ^ 32

-- Nodes are only appended, and where they fit, `pre` of their number before gives `post` after.
abbrev pub Grows :
    {A : Type 0} → (ℕ → Type 0) → (A → ℕ → Type 0) → List Node → A × List Node → Type 0
Grows pre post nodes (a, nodes') =
    (length nodes ≤ length nodes')
    × (Fits nodes'
        → IsNumbered nodes
        → pre (length nodes)
        → IsNumbered nodes' × post a (length nodes'))

abbrev pub Numbers : {A : Type 0} → (ℕ → Type 0) → Compile A → (A → ℕ → Type 0) → Type 0
Numbers pre m post = (nodes : List Node) → Ensures (Grows pre post nodes) (m nodes)

pub Numbers-bind :
    {A B : Type 0} (pre : ℕ → Type 0) (m : Compile A) (mid : A → ℕ → Type 0) (f : A → Compile B)
    (post : B → ℕ → Type 0)
    → Numbers pre m mid
    → ((a : A) → Numbers (mid a) (f a) post)
    → Numbers pre (m >>= f) post
Numbers-bind pre m mid f post first then_ nodes = Ensures-bind (first nodes) λ (a, nodes₁) p₁.
    Ensures-map (then_ a nodes₁) λ (b, nodes₂) p₂. (
      omega (arith, p₁.0, p₂.0),
      λ fits numbered h.
          let (numbered₁, q) = p₁.1 (omega (arith, p₂.0, fits)) numbered h in p₂.1 fits numbered₁ q,
    )

pub Numbers-lift :
    {A B : Type 0} (pre : ℕ → Type 0) (good : A → Type 0) (r : Result CompileError A)
    (f : A → Compile B) (post : B → ℕ → Type 0)
    → Ensures good r
    → ((a : A) → good a → Numbers pre (f a) post)
    → Numbers pre (lift r >>= f) post
Numbers-lift pre good (ok a) f post (holds g) then_ nodes = then_ a g nodes
Numbers-lift pre good (err e) f post fails then_ nodes = fails

-- What a node must bring to be emitted as the node with the next id.
pub record IsEmittable (n : Node) (size : ℕ) : Type 0 where
  pub children_in : All (λ c. c < size) n.children
  pub shaped :
      (check_shape (shape_of n.kind) n.children n.leaf_name ≡ ok tt)
      ⊎ ((check_shape (shape_of n.kind) n.children n.leaf_name ≡ err unnamed_leaf)
          × (is_empty n.leaf_name ≡ true))

-- The new node is the last one.
abbrev pub IsLast : ℕ → ℕ → Type 0
IsLast id size = suc id ≡ size

pub emit_node-Numbers : (n : Node) → Numbers (IsEmittable n) (emit_node n) IsLast
unfolding emit_node
emit_node-Numbers n nodes = holds (
  omega (arith, length-append nodes (record n { id = length nodes % 2 ^ 32 } ∷ [])),
  λ fits numbered e.
      let grown = length-append nodes (record n { id = length nodes % 2 ^ 32 } ∷ []) in
      let id_eq : length nodes % 2 ^ 32 ≡ length nodes = omega (arith, grown, fits) in
      (
        AllFrom-append IsNumberedNode 0 nodes _ numbered (record {
          id_eq = omega (arith, id_eq);
          children_before = All-map _ _ n.children (λ c h. omega arith) e.children_in;
          shaped = e.shaped;
        }),
        omega (arith, grown, id_eq),
      ),
)
