-- ===== src/Gc/Steps.antt =====
-- The states that a collector comes to, and what holds in all of them.
use muesli_bt.Common.{
  ℕ, suc, ◌+◌, ◌*◌, ◌≤◌, ◌≡◌, refl, sym, ◌∙◌, ap, subst, inl, inr, Bool, true, false, not, ◌&&◌,
  ◌-◌, Bool-cases, ltb, Option, none, some, List, [], ◌∷◌, length, ◌==◌, if◌then◌else◌, Text,
  Result, ok, Ensures, Ensures-ok, holds, fails, arith,
}
use muesli_bt.Gc.Heap.{GcNode, Heap, node_at, live_count}
use muesli_bt.Gc.Marking.{IsUnmarked, IsMarked, has_node}
use muesli_bt.Gc.Sweeping.{
  IsDistinct, marked_from, marked_from-Alike, Alike-IsDistinct, sweep_nodes-IsDistinct,
  sweep_nodes-IsUnmarked, live_count-length, live-freed_count, length-Alike,
}
use muesli_bt.Gc.Collector.{
  Gc, GcPolicy, new_gc, is_manual, is_between_ticks, is_fail_on_tick_gc, in_tick, Surroundings,
  CollectionReason, mark_roots, sweep, roots_of, collected, collect_impl, link_node,
  request_collection, maybe_collect, collect, enter_tick, exit_tick, register_root_env,
  unregister_root_env, add_root_slot, remove_root_slot, scope_add, scope_end,
}
use muesli_bt.Gc.Collection.{quiet-collect_impl}

abbrev pub addresses : Heap → List ℕ
addresses [] = []
addresses (n ∷ h) = n.address ∷ addresses h

-- The operations of the collector, and what the program does to the heap between them: it allocates at
-- an address that no node has, and it writes to nodes, whose marks and addresses it leaves alone.
pub data Step : Gc → Gc → Type 0 where
  allocates :
      {s : Gc} (n : GcNode)
      → n.marked ≡ false
      → has_node (node_at n.address s.heap) ≡ false
      → Step s (link_node n s)
  writes :
      {s : Gc} (h : Heap)
      → addresses h ≡ addresses s.heap
      → IsUnmarked h
      → Step s (record s { heap = h })
  requests : {s : Gc} → Step s (request_collection s)
  may_collect : {s t : Gc} (o : Surroundings) → maybe_collect o s ≡ ok t → Step s t
  collects : {s t : Gc} (o : Surroundings) → collect o s ≡ ok t → Step s t
  enters : {s : Gc} → Step s (enter_tick s)
  exits : {s : Gc} (o : Surroundings) → Step s (exit_tick o s)
  sets_policy : {s : Gc} (p : GcPolicy) → Step s (record s { policy = p })
  listens : {s : Gc} (l : Option ℕ) → Step s (record s { lifecycle_listener = l })
  registers_env : {s : Gc} (env : Option ℕ) → Step s (register_root_env env s)
  unregisters_env : {s : Gc} (env : ℕ) → Step s (unregister_root_env env s)
  adds_slot : {s : Gc} (slot : Option ℕ) → Step s (add_root_slot slot s)
  removes_slot : {s : Gc} (slot : Option ℕ) → Step s (remove_root_slot slot s)
  scope_adds : {s : Gc} (slot : Option ℕ) → Step s (scope_add slot s)
  scope_ends : {s : Gc} (begin_index : ℕ) → Step s (scope_end begin_index s)

pub data IsReachable : Gc → Type 0 where
  initial : IsReachable new_gc
  later : {s t : Gc} → IsReachable s → Step s t → IsReachable t

pub record Counts : Type 0 where
  pub heap : Heap
  pub current : ℕ
  pub total : ℕ
  pub freed : ℕ
  pub next_threshold : ℕ

abbrev pub counts : Gc → Counts
counts s = record {
  heap = s.heap;
  current = s.allocated_objects_current;
  total = s.total_allocated_objects;
  freed = s.freed_objects_total;
  next_threshold = s.next_gc_threshold;
}

pub record AreRight (c : Counts) : Type 0 where
  pub distinct : IsDistinct c.heap
  pub unmarked : IsUnmarked c.heap
  pub current : c.current ≡ length c.heap
  pub total : c.total ≡ c.freed + length c.heap
  pub enough : 256 ≤ c.next_threshold

abbrev pub IsAccounted : Gc → Type 0
IsAccounted s = AreRight (counts s)

new_unmarked :
    (b : ℕ) (n : GcNode) (h : Heap) → n.marked ≡ false → ¬ IsMarked h b → ¬ IsMarked (n ∷ h) b
unfolding node_at
new_unmarked b n h m u = elim (Bool-cases (n.address == b)) [
  | inl e ↦ rw e (λ k. let clash : false ≡ true = sym m ∙ k in cc)
  | inr e ↦ rw e u
]

link_node-IsAccounted :
    (n : GcNode) (s : Gc)
    → n.marked ≡ false
    → has_node (node_at n.address s.heap) ≡ false
    → IsAccounted s
    → IsAccounted (link_node n s)
unfolding link_node
link_node-IsAccounted n s m fresh h = record {
  distinct = (fresh, h.distinct);
  unmarked = λ b. new_unmarked b n s.heap m (h.unmarked b);
  current = ap suc h.current;
  total = omega (arith, h.total);
  enough = h.enough;
}

-- The addresses are all that is needed of the nodes.
pub has-addresses :
    (a : ℕ) (h h' : Heap)
    → addresses h' ≡ addresses h
    → has_node (node_at a h') ≡ has_node (node_at a h)
unfolding node_at
has-addresses a [] [] e = refl
has-addresses a [] (n' ∷ h') e = cc
has-addresses a (n ∷ h) [] e = cc
has-addresses a (n ∷ h) (n' ∷ h') e =
    let head : n'.address ≡ n.address = cc in
    let tail : addresses h' ≡ addresses h = cc in
    elim (Bool-cases (n.address == a)) [
      | inl f ↦ let same : (n'.address == a) ≡ true = ap (λ k. k == a) head ∙ f in rw (f, same) refl
      | inr f ↦
          let other : (n'.address == a) ≡ false = ap (λ k. k == a) head ∙ f in
          rw (f, other) (has-addresses a h h' tail)
    ]

IsDistinct-addresses : (h h' : Heap) → addresses h' ≡ addresses h → IsDistinct h → IsDistinct h'
IsDistinct-addresses [] [] e d = tt
IsDistinct-addresses [] (n' ∷ h') e d = cc
IsDistinct-addresses (n ∷ h) [] e d = cc
IsDistinct-addresses (n ∷ h) (n' ∷ h') e d =
    let head : n'.address ≡ n.address = cc in
    let tail : addresses h' ≡ addresses h = cc in
    (
      has-addresses n'.address h h' tail ∙ ap (λ a. has_node (node_at a h)) head ∙ d.0,
      IsDistinct-addresses h h' tail d.1,
    )

length-addresses : (h h' : Heap) → addresses h' ≡ addresses h → length h' ≡ length h
length-addresses [] [] e = refl
length-addresses [] (n' ∷ h') e = cc
length-addresses (n ∷ h) [] e = cc
length-addresses (n ∷ h) (n' ∷ h') e =
    let tail : addresses h' ≡ addresses h = cc in ap suc (length-addresses h h' tail)

writes-IsAccounted :
    (s : Gc) (h : Heap)
    → addresses h ≡ addresses s.heap
    → IsUnmarked h
    → IsAccounted s
    → IsAccounted (record s { heap = h })
writes-IsAccounted s h e u a =
    let size = length-addresses s.heap h e in
    record {
      distinct = IsDistinct-addresses s.heap h e a.distinct;
      unmarked = u;
      current = a.current ∙ sym size;
      total = omega (arith, a.total, size);
      enough = a.enough;
    }

collected-IsAccounted :
    (o : Surroundings) (is_forced : Bool) (s : Gc)
    → IsAccounted s
    → IsAccounted (collected o is_forced s)
unfolding collected mark_roots sweep
collected-IsAccounted o is_forced s h =
    let marked = marked_from (roots_of o s) s.heap in
    let alike = marked_from-Alike (roots_of o s) s.heap in
    let distinct = Alike-IsDistinct s.heap marked alike h.distinct in
    let size = length-Alike s.heap marked alike in
    let live = live_count-length marked in
    let all = live-freed_count marked in
    record {
      distinct = sweep_nodes-IsDistinct marked distinct;
      unmarked = sweep_nodes-IsUnmarked marked distinct;
      current = live;
      total = omega (arith, h.total, size, live, all);
      enough = at_least (live_count marked * 2);
    }
  where
    at_least : (n : ℕ) → 256 ≤ (if ltb 256 n then n else 256)
    at_least n = ground arith

collect_impl-IsAccounted :
    (o : Surroundings) (reason : CollectionReason) (is_forced : Bool) (s : Gc)
    → IsAccounted s
    → IsAccounted (collect_impl o reason is_forced s)
collect_impl-IsAccounted o reason is_forced s h =
    subst AreRight (sym (quiet-collect_impl counts (λ s heard. refl) o reason is_forced s))
      (collected-IsAccounted o is_forced s h)

abbrev Keeps : Result Text Gc → Type 0
Keeps r = Ensures IsAccounted r

when_kept : (b : Bool) (r q : Result Text Gc) → Keeps r → Keeps q → Keeps (if b then r else q)
when_kept true r q h k = h
when_kept false r q h k = k

maybe_collect-IsAccounted : (o : Surroundings) (s : Gc) → IsAccounted s → Keeps (maybe_collect o s)
unfolding maybe_collect
maybe_collect-IsAccounted o s h = when_kept (not s.collection_requested) _ _ (holds h) (
    when_kept (is_manual s.policy) _ _ (holds h) (
      when_kept (is_between_ticks s.policy && in_tick s) _ _ (holds h) (
        when_kept (is_fail_on_tick_gc s.policy && in_tick s) _ _ fails
          (holds (collect_impl-IsAccounted o _ false s h)))))

collect-IsAccounted : (o : Surroundings) (s : Gc) → IsAccounted s → Keeps (collect o s)
unfolding collect
collect-IsAccounted o s h =
    when_kept (is_fail_on_tick_gc s.policy && in_tick s) _ _ fails
      (holds (collect_impl-IsAccounted o CollectionReason.forced true s h))

exit_tick-IsAccounted : (o : Surroundings) (s : Gc) → IsAccounted s → IsAccounted (exit_tick o s)
unfolding exit_tick
exit_tick-IsAccounted o s h =
    let t : Gc = record s { tick_depth = s.tick_depth - 1 } in
    by_test ((t.tick_depth == 0) && (t.collection_requested && is_between_ticks t.policy)) t
      (collect_impl o CollectionReason.between_ticks false t) h
      (collect_impl-IsAccounted o CollectionReason.between_ticks false t h)
  where
    by_test :
        (b : Bool) (t u : Gc) → IsAccounted t → IsAccounted u → IsAccounted (if b then u else t)
    by_test true t u k l = l
    by_test false t u k l = k

register_root_env-IsAccounted :
    (env : Option ℕ) (s : Gc) → IsAccounted s → IsAccounted (register_root_env env s)
unfolding register_root_env
register_root_env-IsAccounted none s h = h
register_root_env-IsAccounted (some env) s h = h

add_root_slot-IsAccounted :
    (slot : Option ℕ) (s : Gc) → IsAccounted s → IsAccounted (add_root_slot slot s)
unfolding add_root_slot
add_root_slot-IsAccounted none s h = h
add_root_slot-IsAccounted (some slot) s h = h

Step-IsAccounted : (s t : Gc) → Step s t → IsAccounted s → IsAccounted t
unfolding request_collection enter_tick unregister_root_env remove_root_slot scope_add scope_end
Step-IsAccounted s t (allocates n m fresh) h = link_node-IsAccounted n s m fresh h
Step-IsAccounted s t (writes heap e u) h = writes-IsAccounted s heap e u h
Step-IsAccounted s t requests h = h
Step-IsAccounted s t (may_collect o e) h = Ensures-ok (maybe_collect-IsAccounted o s h) e
Step-IsAccounted s t (collects o e) h = Ensures-ok (collect-IsAccounted o s h) e
Step-IsAccounted s t enters h = h
Step-IsAccounted s t (exits o) h = exit_tick-IsAccounted o s h
Step-IsAccounted s t (sets_policy p) h = h
Step-IsAccounted s t (listens l) h = h
Step-IsAccounted s t (registers_env env) h = register_root_env-IsAccounted env s h
Step-IsAccounted s t (unregisters_env env) h = h
Step-IsAccounted s t (adds_slot slot) h = add_root_slot-IsAccounted slot s h
Step-IsAccounted s t (removes_slot slot) h = h
Step-IsAccounted s t (scope_adds slot) h = h
Step-IsAccounted s t (scope_ends n) h = h

nil-IsUnmarked : (b : ℕ) → ¬ IsMarked [] b
unfolding node_at
nil-IsUnmarked b e = cc

-- In every state that a collector comes to, no address occurs twice and nothing is marked, the counter
-- of current objects is their number, each object that was ever allocated is there or was counted as
-- freed, and the threshold is at least 256.
pub IsReachable-IsAccounted : (s : Gc) → IsReachable s → IsAccounted s
IsReachable-IsAccounted s initial = record {
  distinct = tt;
  unmarked = nil-IsUnmarked;
  current = refl;
  total = omega arith;
  enough = omega arith;
}
IsReachable-IsAccounted t (later {s = s} r step) =
    Step-IsAccounted s t step (IsReachable-IsAccounted s r)
