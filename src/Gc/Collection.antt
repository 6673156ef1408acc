-- ===== src/Gc/Collection.antt =====
-- What a collection leaves.
use muesli_bt.Common.{
  ℕ, ◌≡◌, refl, sym, ◌∙◌, ap, subst, inl, inr, Bool, true, false, Bool-cases, ◌==◌, All, Option,
  none, some, List, [], ◌∷◌,
}
use muesli_bt.Gc.Heap.{GcNode, Heap, node_at, sweep_nodes}
use muesli_bt.Gc.Marking.{
  Mem, IsPresent, IsChild, IsUnmarked, Reaches, root, child, has_node, children_of,
}
use muesli_bt.Gc.Sweeping.{IsDistinct, Survives, marked_from, sweep_nodes-Survives}
use muesli_bt.Gc.Collector.{
  Gc, Surroundings, CollectionReason, LifecycleEvent, heard_by, emit_lifecycle, mark_roots, sweep,
  roots_of, collection_of, begins, collected, collect_impl,
}

module _ {A : Type 0} (f : Gc → A)
    (ignores : (s : Gc) (heard : List (ℕ × LifecycleEvent))
      → f (record s { heard = heard }) ≡ f s) where
  quiet-heard_by : (l : Option ℕ) (ev : LifecycleEvent) (s : Gc) → f (heard_by l ev s) ≡ f s
  unfolding heard_by
  quiet-heard_by none ev s = refl
  quiet-heard_by (some l) ev s = ignores s ((l, ev) ∷ s.heard)

  quiet-emit_lifecycle : (ev : LifecycleEvent) (s : Gc) → f (emit_lifecycle ev s) ≡ f s
  unfolding emit_lifecycle
  quiet-emit_lifecycle ev s = quiet-heard_by s.lifecycle_listener ev s

module _ {A : Type 0} (f : Gc → A)
    (ignores : (s : Gc) (heard : List (ℕ × LifecycleEvent))
      → f (record s { heard = heard }) ≡ f s) where
  collected_ignores :
      (o : Surroundings) (is_forced : Bool) (s : Gc) (heard : List (ℕ × LifecycleEvent))
      → f (collected o is_forced (record s { heard = heard })) ≡ f (collected o is_forced s)
  unfolding collected mark_roots sweep
  collected_ignores o is_forced s heard = ignores _ heard

  -- What does not see the events sees only the collection itself.
  pub quiet-collect_impl :
      (o : Surroundings) (reason : CollectionReason) (is_forced : Bool) (s : Gc)
      → f (collect_impl o reason is_forced s) ≡ f (collected o is_forced s)
  unfolding collect_impl
  quiet-collect_impl o reason is_forced s =
      quiet-emit_lifecycle f ignores _ _
      ∙ quiet-emit_lifecycle (λ s. f (collected o is_forced s)) (collected_ignores o is_forced)
          (begins (collection_of reason is_forced s)) s

heap-collected :
    (o : Surroundings) (is_forced : Bool) (s : Gc)
    → (collected o is_forced s).heap ≡ sweep_nodes (marked_from (roots_of o s) s.heap)
unfolding collected mark_roots sweep
heap-collected o is_forced s = refl

pub heap-collect_impl :
    (o : Surroundings) (reason : CollectionReason) (is_forced : Bool) (s : Gc)
    → (collect_impl o reason is_forced s).heap ≡ sweep_nodes (marked_from (roots_of o s) s.heap)
heap-collect_impl o reason is_forced s =
    quiet-collect_impl (λ s. s.heap) (λ s heard. refl) o reason is_forced s
    ∙ heap-collected o is_forced s

-- After a collection of a heap in which no address occurs twice and nothing is marked, the nodes that
-- were reached from the roots are there as they were, and no others.
pub collect_impl-Survives :
    (o : Surroundings) (reason : CollectionReason) (is_forced : Bool) (s : Gc) (a : ℕ)
    → IsDistinct s.heap
    → IsUnmarked s.heap
    → Survives (roots_of o s) s.heap (collect_impl o reason is_forced s).heap a
collect_impl-Survives o reason is_forced s a d u =
    subst (λ h. Survives (roots_of o s) s.heap h a) (sym (heap-collect_impl o reason is_forced s))
      (sweep_nodes-Survives (roots_of o s) s.heap d u a)

roots-collected :
    (o : Surroundings) (is_forced : Bool) (s : Gc)
    → roots_of o (collected o is_forced s) ≡ roots_of o s
unfolding collected mark_roots sweep
roots-collected o is_forced s = refl

-- No pointer leads to an address without a node.
pub record IsClosed (roots : List ℕ) (h : Heap) : Type 0 where
  pub from_roots : (a : ℕ) → Mem a roots → IsPresent h a
  pub from_nodes : (a c : ℕ) → IsPresent h a → IsChild h a c → IsPresent h c

All-Mem : (P : ℕ → Type 0) (l : List ℕ) (a : ℕ) → All P l → Mem a l → P a
All-Mem P [] a p m = elim m [ ]
All-Mem P (b ∷ l) a p (inl e) = subst P (sym e) p.0
All-Mem P (b ∷ l) a p (inr m) = All-Mem P l a p.1 m

child_of_nodes :
    (P : ℕ → Type 0) (h : Heap) (a c : ℕ)
    → All (λ (n : GcNode). All P n.children) h
    → IsChild h a c
    → P c
unfolding node_at
child_of_nodes P [] a c k m = elim m [ ]
child_of_nodes P (n ∷ h) a c k m = elim (Bool-cases (n.address == a)) [
  | inl e ↦ All-Mem P n.children c k.0 (rw e at m)
  | inr e ↦ child_of_nodes P h a c k.1 (rw e at m)
]

-- It is enough to look at the roots and at the children of each node.
pub nodes-IsClosed :
    (roots : List ℕ) (h : Heap)
    → All (IsPresent h) roots
    → All (λ (n : GcNode). All (IsPresent h) n.children) h
    → IsClosed roots h
nodes-IsClosed roots h r k = record {
  from_roots = λ a m. All-Mem (IsPresent h) roots a r m;
  from_nodes = λ a c p m. child_of_nodes (IsPresent h) h a c k m;
}

module _ (roots : List ℕ) (h h' : Heap) (survives : (a : ℕ) → Survives roots h h' a)
    (closed : IsClosed roots h) where
  Reaches-IsPresent : (a : ℕ) → Reaches h roots a → IsPresent h a
  Reaches-IsPresent a (root m p) = p
  Reaches-IsPresent a (child r c p) = p

  reached_stays : (a : ℕ) → Reaches h roots a → IsPresent h' a
  reached_stays a r = stays (survives a)
    where
      stays : Survives roots h h' a → IsPresent h' a
      stays (inl (k, e)) = ap has_node e ∙ Reaches-IsPresent a r
      stays (inr (k, e)) = absurd (k r)

  stayed : (a : ℕ) → IsPresent h' a → Reaches h roots a × (node_at a h' ≡ node_at a h)
  stayed a p = was (survives a)
    where
      was : Survives roots h h' a → Reaches h roots a × (node_at a h' ≡ node_at a h)
      was (inl k) = k
      was (inr (k, e)) = let clash : false ≡ true = sym (ap has_node e) ∙ p in cc

  survivors-IsClosed : IsClosed roots h'
  survivors-IsClosed = record {
    from_roots = λ a m. reached_stays a (root m (closed.from_roots a m));
    from_nodes = λ a c p m.
        let (r, e) = stayed a p in
        let was_child = subst (λ o. Mem c (children_of o)) e m in
        reached_stays c
          (child r was_child (closed.from_nodes a c (Reaches-IsPresent a r) was_child));
  }

-- A collection leaves no pointer to a node that it freed: if every root and every child of a node was
-- the address of a node, it still is.
pub collect_impl-IsClosed :
    (o : Surroundings) (reason : CollectionReason) (is_forced : Bool) (s : Gc)
    → IsDistinct s.heap
    → IsUnmarked s.heap
    → IsClosed (roots_of o s) s.heap
    → IsClosed
        (roots_of o (collect_impl o reason is_forced s))
        (collect_impl o reason is_forced s).heap
collect_impl-IsClosed o reason is_forced s d u closed =
    subst (λ roots. IsClosed roots (collect_impl o reason is_forced s).heap)
      (sym (
        quiet-collect_impl (roots_of o) (λ s heard. refl) o reason is_forced s
        ∙ roots-collected o is_forced s))
      (survivors-IsClosed (roots_of o s) s.heap _
        (λ a. collect_impl-Survives o reason is_forced s a d u) closed)
