-- ===== src/Runtime/Cleared.antt =====
-- What `halt_subtree_impl` does to the memory of the nodes.
use muesli_bt.Common.{
  ℕ, zero, suc, ◌≡◌, refl, sym, ◌∙◌, ap, subst, ◌⊎◌, inl, inr, true, false, Bool-cases, Option,
  none, some, Option-cases, List, [], ◌∷◌, ◌++◌, get_elem?, ◌==◌, ==→eq, eq→==, if◌then◌else◌, Text,
  ok, err, bind, ok-injective, arith,
}
use mathlib.Core.List.{reverse, reverse-cons}
use muesli_bt.Ast.{Node, Definition}
use muesli_bt.Runtime.State.{
  same, Memory, fresh, TraceEvent, Host, State, Fault, invalid_node_id, update, write_memory,
  emit_trace,
}
use muesli_bt.Runtime.Halt.{
  node_children, children_of, get_node, has_entry, is_act, halt_act, halt_node, halt_loop,
  halt_subtree_impl,
}
use muesli_bt.Runtime.Halting.{get_node_lem}
use muesli_bt.Runtime.Primitive.{IsPrimitive, halt_node-kept}

-- Node `j` is in the subtree of one of the nodes listed.
pub data IsBelow (def : Definition) (j : ℕ) : List ℕ → Type 0 where
  root : {rest : List ℕ} → IsBelow def j (j ∷ rest)
  inside : {i : ℕ} {rest : List ℕ} → IsBelow def j (children_of def i) → IsBelow def j (i ∷ rest)
  later : {i : ℕ} {rest : List ℕ} → IsBelow def j rest → IsBelow def j (i ∷ rest)

module _ (def : Definition) (j : ℕ) where
  IsBelow-left : {xs : List ℕ} (ys : List ℕ) → IsBelow def j xs → IsBelow def j (xs ++ ys)
  IsBelow-left ys root = root
  IsBelow-left ys (inside p) = inside p
  IsBelow-left ys (later p) = later (IsBelow-left ys p)

  IsBelow-right : (xs : List ℕ) {ys : List ℕ} → IsBelow def j ys → IsBelow def j (xs ++ ys)
  IsBelow-right [] p = p
  IsBelow-right (x ∷ xs) p = later (IsBelow-right xs p)

  IsBelow-append : (xs ys : List ℕ) → IsBelow def j (xs ++ ys) → IsBelow def j xs ⊎ IsBelow def j ys
  IsBelow-append [] ys p = inr p
  IsBelow-append (x ∷ xs) ys root = inl root
  IsBelow-append (x ∷ xs) ys (inside p) = inl (inside p)
  IsBelow-append (x ∷ xs) ys (later p) = elim (IsBelow-append xs ys p) [
    | inl q ↦ inl (later q)
    | inr q ↦ inr q
  ]

  IsBelow-reverse : (xs : List ℕ) → IsBelow def j (reverse xs) → IsBelow def j xs
  IsBelow-reverse [] p = p
  IsBelow-reverse (x ∷ xs) p =
      elim (IsBelow-append (reverse xs) (x ∷ []) (subst (IsBelow def j) (reverse-cons x xs) p)) [
        | inl q ↦ later (IsBelow-reverse xs q)
        | inr q ↦ IsBelow-left xs q
      ]

  reverse-IsBelow : (xs : List ℕ) → IsBelow def j xs → IsBelow def j (reverse xs)
  reverse-IsBelow [] p = p
  reverse-IsBelow (x ∷ xs) root =
      subst (IsBelow def j) (sym (reverse-cons x xs)) (IsBelow-right (reverse xs) root)
  reverse-IsBelow (x ∷ xs) (inside p) =
      subst (IsBelow def j) (sym (reverse-cons x xs)) (IsBelow-right (reverse xs) (inside p))
  reverse-IsBelow (x ∷ xs) (later p) =
      subst (IsBelow def j) (sym (reverse-cons x xs)) (IsBelow-left (x ∷ []) (reverse-IsBelow xs p))

  -- The stack of the next round, for a node `i` with the children `cs`.
  next-IsBelow :
      (i : ℕ) (cs stack : List ℕ)
      → children_of def i ≡ cs
      → ¬ (i ≡ j)
      → IsBelow def j (i ∷ stack)
      → IsBelow def j (reverse cs ++ stack)
  next-IsBelow i cs stack e differs root = absurd (differs refl)
  next-IsBelow i cs stack e differs (inside p) =
      IsBelow-left stack (reverse-IsBelow cs (subst (IsBelow def j) e p))
  next-IsBelow i cs stack e differs (later p) = IsBelow-right (reverse cs) p

  IsBelow-next :
      (i : ℕ) (cs stack : List ℕ)
      → children_of def i ≡ cs
      → IsBelow def j (reverse cs ++ stack)
      → IsBelow def j (i ∷ stack)
  IsBelow-next i cs stack e p = elim (IsBelow-append (reverse cs) stack p) [
    | inl q ↦ inside (subst (IsBelow def j) (sym e) (IsBelow-reverse cs q))
    | inr q ↦ later q
  ]

-- The memory of a node that was halted: an entry is reset, and none is made.
abbrev pub cleared : {P : Type 0} → Option (Memory P) → Option (Memory P)
cleared none = none
cleared (some _) = some fresh

cleared_twice : {P : Type 0} (o : Option (Memory P)) → cleared (cleared o) ≡ cleared o
cleared_twice none = refl
cleared_twice (some m) = refl

pub updated_elsewhere :
    {A : Type 0} (f : ℕ → A) (i j : ℕ) (x : A) → ¬ (i ≡ j) → update f i x j ≡ f j
updated_elsewhere f i j x h = elim (Bool-cases (j == i)) [
  | inl e ↦ absurd (h (sym (==→eq j i e)))
  | inr e ↦ rw e refl
]

pub updated_here : {A : Type 0} (f : ℕ → A) (i : ℕ) (x : A) → update f i x i ≡ x
updated_here f i x = rw (eq→== i i refl) refl

no_value : {A B : Type 0} {f : Fault} {a : A} → err f ≡ ok a → B
no_value e = cc

pub apart : {i j : ℕ} → (j == i) ≡ false → ¬ (i ≡ j)
apart d e = ground arith

module _ {W P : Type 0} (host : Host W P) (def : Definition) where
  elsewhere-IsPrimitive :
      (j : ℕ) → IsPrimitive {W = W} {P = P} (λ i. ¬ (i ≡ j)) (λ s t. t.memory j ≡ s.memory j)
  elsewhere-IsPrimitive j = record {
    here = λ s. refl;
    after = λ s t u p q. q ∙ p;
    wrote = λ id q m s. updated_elsewhere s.memory id j (some m) q;
    moved = λ w s. refl;
    warned = λ id s. refl;
    traced = λ ev p s. refl;
    logged = λ l s. refl;
    sent = λ ev s. refl;
  }

  -- A round leaves the memory of the other nodes alone.
  halt_node-elsewhere :
      (n : Node) (id j : ℕ) (reason : Text) (s : State W P)
      → ¬ (id ≡ j)
      → (halt_node host def n id reason s).memory j ≡ s.memory j
  halt_node-elsewhere n id j reason s differs =
      halt_node-kept host def _ _ (elsewhere-IsPrimitive j) n id differs reason s

  halted_entry :
      (id : ℕ) (o : Option (Memory P)) (t s : State W P)
      → s.memory id ≡ o
      → (if has_entry host def o then write_memory id fresh t else s).memory id ≡ cleared o
  halted_entry id none t s e = e
  halted_entry id (some m) t s e = updated_here t.memory id (some fresh)

  halt_node-here :
      (n : Node) (id : ℕ) (reason : Text) (s : State W P)
      → (halt_node host def n id reason s).memory id ≡ cleared (s.memory id)
  unfolding halt_node emit_trace
  halt_node-here n id reason s =
      let s₁ = emit_trace host (TraceEvent.node_halt id reason) s in
      halted_entry id (s₁.memory id)
        (if is_act host def n.kind then halt_act host def n id reason s₁ else s₁) s₁ refl
      ∙ ap cleared (same (λ x. x.memory id) host.trace_enabled _ s refl)

  get_node-none :
      (id : ℕ) (s : State W P)
      → get_elem? def.nodes id ≡ none
      → get_node host def id s ≡ err invalid_node_id
  unfolding get_node
  get_node-none id s e = rw (e, get_node) refl

  -- A round of the loop.
  halt_loop-step :
      (fuel : ℕ) (reason : Text) (id : ℕ) (stack : List ℕ) (s : State W P)
      {r : Unit {0} × State W P}
      → halt_loop host def (suc fuel) reason (id ∷ stack) s ≡ ok r
      → (n : Node) × (children_of def id ≡ n.children)
        × (halt_loop host def fuel reason
              (reverse n.children ++ stack)
              (halt_node host def n id reason s)
            ≡ ok r)
  unfolding halt_loop
  halt_loop-step fuel reason id stack s {r} e =
      let k = λ (x : Node × State W P).
        halt_loop host def fuel reason (reverse x.0.children ++ stack)
          (halt_node host def x.0 id reason x.1) in
      elim (Option-cases (get_elem? def.nodes id)) [
        | inl at ↦ no_value (ap (λ x. bind x k) (sym (get_node-none id s at)) ∙ e)
        | inr (n, at) ↦
            (n, ap node_children at, ap (λ x. bind x k) (sym (get_node_lem host def id s at)) ∙ e)
      ]

  after_round :
      (n : Node) (id j : ℕ) (reason : Text) (s : State W P) (m : Option (Memory P))
      → ((j == id) ≡ true) ⊎ ((j == id) ≡ false)
      → (m ≡ (halt_node host def n id reason s).memory j)
        ⊎ (m ≡ cleared ((halt_node host def n id reason s).memory j))
      → (m ≡ s.memory j) ⊎ (m ≡ cleared (s.memory j))
  after_round n id j reason s m (inl d) h =
      let at = ==→eq j id d in
      let here =
        ap (halt_node host def n id reason s).memory at
        ∙ halt_node-here n id reason s
        ∙ ap (λ i. cleared (s.memory i)) (sym at) in
      elim h [
        | inl e ↦ inr (e ∙ here)
        | inr e ↦ inr (e ∙ ap cleared here ∙ cleared_twice (s.memory j))
      ]
  after_round n id j reason s m (inr d) h =
      let there = halt_node-elsewhere n id j reason s (apart d) in
      elim h [ inl e ↦ inl (e ∙ there) | inr e ↦ inr (e ∙ ap cleared there) ]

  -- The loop resets entries and does nothing else to the memory.
  halt_loop-memory :
      (fuel : ℕ) (reason : Text) (j : ℕ) (stack : List ℕ) (s : State W P) {r : Unit {0} × State W P}
      → halt_loop host def fuel reason stack s ≡ ok r
      → (r.1.memory j ≡ s.memory j) ⊎ (r.1.memory j ≡ cleared (s.memory j))
  unfolding halt_loop
  halt_loop-memory fuel reason j [] s e = inl (sym (ap (λ x. x.1.memory j) (ok-injective e)))
  halt_loop-memory zero reason j (id ∷ stack) s e = cc
  halt_loop-memory (suc fuel) reason j (id ∷ stack) s {r} e =
      let (n, c, e') = halt_loop-step fuel reason id stack s e in
      after_round n id j reason s (r.1.memory j) (Bool-cases (j == id))
        (halt_loop-memory fuel reason j _ _ e')

  -- The nodes below the stack are reset.
  halt_loop-below :
      (fuel : ℕ) (reason : Text) (j : ℕ) (stack : List ℕ) (s : State W P) {r : Unit {0} × State W P}
      → halt_loop host def fuel reason stack s ≡ ok r
      → IsBelow def j stack
      → r.1.memory j ≡ cleared (s.memory j)
  unfolding halt_loop
  halt_loop-below fuel reason j [] s e p = elim p [ ]
  halt_loop-below zero reason j (id ∷ stack) s e p = cc
  halt_loop-below (suc fuel) reason j (id ∷ stack) s {r} e p =
      let (n, c, e') = halt_loop-step fuel reason id stack s e in
      elim (Bool-cases (j == id)) [
        | inl d ↦
            let at = ==→eq j id d in
            let here =
              ap (halt_node host def n id reason s).memory at
              ∙ halt_node-here n id reason s
              ∙ ap (λ i. cleared (s.memory i)) (sym at) in
            elim (halt_loop-memory fuel reason j _ _ e') [
              | inl k ↦ k ∙ here
              | inr k ↦ k ∙ ap cleared here ∙ cleared_twice (s.memory j)
            ]
        | inr d ↦
            halt_loop-below fuel reason j _ _ e'
              (next-IsBelow def j id n.children stack c (apart d) p)
            ∙ ap cleared (halt_node-elsewhere n id j reason s (apart d))
      ]

  -- The other nodes are not touched.
  halt_loop-beside :
      (fuel : ℕ) (reason : Text) (j : ℕ) (stack : List ℕ) (s : State W P) {r : Unit {0} × State W P}
      → halt_loop host def fuel reason stack s ≡ ok r
      → ¬ IsBelow def j stack
      → r.1.memory j ≡ s.memory j
  unfolding halt_loop
  halt_loop-beside fuel reason j [] s e p = sym (ap (λ x. x.1.memory j) (ok-injective e))
  halt_loop-beside zero reason j (id ∷ stack) s e p = cc
  halt_loop-beside (suc fuel) reason j (id ∷ stack) s {r} e p =
      let (n, c, e') = halt_loop-step fuel reason id stack s e in
      halt_loop-beside fuel reason j _ _ e' (λ q. p (IsBelow-next def j id n.children stack c q))
      ∙ halt_node-elsewhere n id j reason s
          (λ same_id. p (subst (λ i. IsBelow def j (i ∷ stack)) (sym same_id) root))

  -- Halting a subtree resets the memory of every node in it that has some, makes none, and leaves the
  -- memory of every other node as it was, whatever the halt callbacks and the scheduler do.
  pub halt_subtree_impl-memory :
      (reason : Text) (id : ℕ) (s t : State W P)
      → halt_subtree_impl host def reason id s ≡ ok (tt, t)
      → (j : ℕ)
      → (IsBelow def j (id ∷ []) → t.memory j ≡ cleared (s.memory j))
        × (¬ IsBelow def j (id ∷ []) → t.memory j ≡ s.memory j)
  unfolding halt_subtree_impl
  halt_subtree_impl-memory reason id s t e j =
      (halt_loop-below _ reason j (id ∷ []) s e, halt_loop-beside _ reason j (id ∷ []) s e)
