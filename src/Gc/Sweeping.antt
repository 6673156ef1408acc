-- ===== src/Gc/Sweeping.antt =====
-- Sweeping keeps the marked nodes, and counts them.
use muesli_bt.Common.{
  ℕ, suc, ◌+◌, ◌≤◌, ◌≡◌, ◌⊎◌, refl, sym, ◌∙◌, ap, subst, inl, inr, Bool, true, false, Bool-cases,
  Option, none, some, List, [], ◌∷◌, length, ◌==◌, ==→eq, if◌then◌else◌, arith,
}
use muesli_bt.Gc.Heap.{
  GcNode, Heap, node_at, mark_each, mark_node, unmarked_node, sweep_nodes, live_count, live_bytes,
  freed_count,
}
use muesli_bt.Gc.Marking.{
  IsUnmarked, Reaches, has_node, marked_of, skeleton, Alike, unmarked_count, mark_each-Reaches,
  mark_each-Marks, mark_node-Marks, without_mark, node_at-skeleton, has-without_mark,
  same_without_mark,
}

-- No two nodes have one address.
abbrev pub IsDistinct : Heap → Type 0
IsDistinct [] = Unit
IsDistinct (n ∷ h) = (has_node (node_at n.address h) ≡ false) × IsDistinct h

abbrev kept : Option GcNode → Option GcNode
kept none = none
kept (some n) = if n.marked then some (unmarked_node n) else none

kept-absent : (o : Option GcNode) → has_node o ≡ false → kept o ≡ none
kept-absent none e = refl
kept-absent (some n) e = cc

node_at-sweep_nodes :
    (b : ℕ) (h : Heap) → IsDistinct h → node_at b (sweep_nodes h) ≡ kept (node_at b h)
unfolding node_at sweep_nodes
node_at-sweep_nodes b [] d = refl
node_at-sweep_nodes b (n ∷ h) d =
    let rest = node_at-sweep_nodes b h d.1 in
    elim (Bool-cases (n.address == b)) [
      | inl e ↦
          let gone : kept (node_at b h) ≡ none =
            kept-absent (node_at b h)
              (ap (λ a. has_node (node_at a h)) (sym (==→eq n.address b e)) ∙ d.0) in
          elim (Bool-cases n.marked) [ inl m ↦ rw (m, e) refl | inr m ↦ rw (m, e) (rest ∙ gone) ]
      | inr e ↦ elim (Bool-cases n.marked) [ inl m ↦ rw (m, e) rest | inr m ↦ rw (m, e) rest ]
    ]

kept-unmarked : (o : Option GcNode) → ¬ (marked_of (kept o) ≡ true)
kept-unmarked none = λ e. cc
kept-unmarked (some n) = by_mark n.marked
  where
    by_mark : (b : Bool) → ¬ (marked_of (if b then some (unmarked_node n) else none) ≡ true)
    by_mark true = λ e. cc
    by_mark false = λ e. cc

pub sweep_nodes-IsUnmarked : (h : Heap) → IsDistinct h → IsUnmarked (sweep_nodes h)
sweep_nodes-IsUnmarked h d =
    λ b m. kept-unmarked (node_at b h) (ap marked_of (sym (node_at-sweep_nodes b h d)) ∙ m)

IsDistinct-skeleton : (h : Heap) → IsDistinct h → IsDistinct (skeleton h)
unfolding skeleton
IsDistinct-skeleton [] d = tt
IsDistinct-skeleton (n ∷ h) d = (
  ap has_node (node_at-skeleton n.address h) ∙ has-without_mark (node_at n.address h) ∙ d.0,
  IsDistinct-skeleton h d.1,
)

skeleton-IsDistinct : (h : Heap) → IsDistinct (skeleton h) → IsDistinct h
unfolding skeleton
skeleton-IsDistinct [] d = tt
skeleton-IsDistinct (n ∷ h) d = (
  sym (has-without_mark (node_at n.address h))
      ∙ ap has_node (sym (node_at-skeleton n.address h))
      ∙ d.0,
  skeleton-IsDistinct h d.1,
)

pub Alike-IsDistinct : (h h' : Heap) → Alike h h' → IsDistinct h → IsDistinct h'
Alike-IsDistinct h h' alike d =
    skeleton-IsDistinct h' (subst IsDistinct (sym alike) (IsDistinct-skeleton h d))

absent-sweep_nodes :
    (a : ℕ) (h : Heap)
    → has_node (node_at a h) ≡ false
    → has_node (node_at a (sweep_nodes h)) ≡ false
unfolding node_at sweep_nodes
absent-sweep_nodes a [] e = refl
absent-sweep_nodes a (n ∷ h) e = elim (Bool-cases (n.address == a)) [
  | inl f ↦ let clash : true ≡ false = rw f at e in cc
  | inr f ↦
      let rest = absent-sweep_nodes a h (rw f at e) in
      elim (Bool-cases n.marked) [ inl m ↦ rw (m, f) rest | inr m ↦ rw m rest ]
]

pub sweep_nodes-IsDistinct : (h : Heap) → IsDistinct h → IsDistinct (sweep_nodes h)
unfolding sweep_nodes
sweep_nodes-IsDistinct [] d = tt
sweep_nodes-IsDistinct (n ∷ h) d = by_mark n.marked (sweep_nodes-IsDistinct h d.1)
  where
    by_mark :
        (b : Bool)
        → IsDistinct (sweep_nodes h)
        → IsDistinct (if b then unmarked_node n ∷ sweep_nodes h else sweep_nodes h)
    by_mark true k = (absent-sweep_nodes n.address h d.0, k)
    by_mark false k = k

-- The bytes of all nodes.
unfoldable pub bytes_of : Heap → ℕ
bytes_of [] = 0
bytes_of (n ∷ h) = n.size_bytes + bytes_of h

pub live_count-length : (h : Heap) → live_count h ≡ length (sweep_nodes h)
unfolding live_count sweep_nodes
live_count-length [] = refl
live_count-length (n ∷ h) = elim (Bool-cases n.marked) [
  | inl m ↦ rw m (ap suc (live_count-length h))
  | inr m ↦ rw m (live_count-length h)
]

pub live_bytes-bytes_of : (h : Heap) → live_bytes h ≡ bytes_of (sweep_nodes h)
unfolding live_bytes sweep_nodes bytes_of
live_bytes-bytes_of [] = refl
live_bytes-bytes_of (n ∷ h) = elim (Bool-cases n.marked) [
  | inl m ↦ rw m (ap (λ k. n.size_bytes + k) (live_bytes-bytes_of h))
  | inr m ↦ rw m (live_bytes-bytes_of h)
]

pub live-freed_count : (h : Heap) → live_count h + freed_count h ≡ length h
unfolding live_count freed_count
live-freed_count [] = omega arith
live-freed_count (n ∷ h) =
    let rest = live-freed_count h in
    elim (Bool-cases n.marked) [
      | inl m ↦ rw m (omega (arith, rest))
      | inr m ↦ rw m (omega (arith, rest))
    ]

length-skeleton : (h : Heap) → length (skeleton h) ≡ length h
unfolding skeleton
length-skeleton [] = refl
length-skeleton (n ∷ h) = ap suc (length-skeleton h)

pub length-Alike : (h h' : Heap) → Alike h h' → length h' ≡ length h
length-Alike h h' alike = sym (length-skeleton h') ∙ ap length alike ∙ length-skeleton h

unmarked_count-length : (h : Heap) → unmarked_count h ≤ length h
unfolding unmarked_count
unmarked_count-length [] = omega arith
unmarked_count-length (n ∷ h) =
    let rest = unmarked_count-length h in
    elim (Bool-cases n.marked) [
      | inl m ↦ rw m (omega (arith, rest))
      | inr m ↦ rw m (omega (arith, rest))
    ]

-- The heap after marking from the roots, with fuel for every node.
abbrev pub marked_from : List ℕ → Heap → Heap
marked_from roots h = mark_each (mark_node (length h)) roots h

pub marked_from-Alike : (roots : List ℕ) (h : Heap) → Alike h (marked_from roots h)
marked_from-Alike roots h =
    (mark_each-Marks (mark_node (length h)) (length h) (mark_node-Marks (length h)) roots h
      (unmarked_count-length h)).alike

kept_node : (o : Option GcNode) → marked_of o ≡ true → kept o ≡ without_mark o
kept_node none m = cc
kept_node (some n) m = rw m refl

not_marked : (o : Option GcNode) → ¬ (marked_of o ≡ true) → (kept o ≡ none) × (without_mark o ≡ o)
not_marked none m = (refl, refl)
not_marked (some n) m = by_mark n refl
  where
    by_mark : (k : GcNode) → n ≡ k → (kept (some n) ≡ none) × (without_mark (some n) ≡ some n)
    by_mark k e = elim (Bool-cases n.marked) [
      | inl f ↦ absurd (m f)
      | inr f ↦ (rw f refl, ap some (ap (λ b. record n { marked = b }) (sym f)))
    ]

-- A node that is reached from the roots is kept as it is, and no other node is left.
abbrev pub Survives : List ℕ → Heap → Heap → ℕ → Type 0
Survives roots h h' b =
    (Reaches h roots b × (node_at b h' ≡ node_at b h))
    ⊎ ((¬ Reaches h roots b) × (node_at b h' ≡ none))

pub sweep_nodes-Survives :
    (roots : List ℕ) (h : Heap)
    → IsDistinct h
    → IsUnmarked h
    → (b : ℕ) → Survives roots h (sweep_nodes (marked_from roots h)) b
sweep_nodes-Survives roots h d u b =
    let h' = marked_from roots h in
    let alike = marked_from-Alike roots h in
    let found = node_at-sweep_nodes b h' (Alike-IsDistinct h h' alike d) in
    let reached = mark_each-Reaches (length h) roots h (unmarked_count-length h) u b in
    elim (Bool-cases (marked_of (node_at b h'))) [
      | inl m ↦ inl (
        reached.0 m,
        found
            ∙ kept_node (node_at b h') m
            ∙ same_without_mark h h' alike b
            ∙ (not_marked (node_at b h) (u b)).1,
      )
      | inr m ↦
          let not_reached : ¬ Reaches h roots b =
            λ r. (let clash : true ≡ false = sym (reached.1 r) ∙ m in cc) in
          inr (not_reached, found ∙ (not_marked (node_at b h') (λ k. not_reached (reached.0 k))).0)
    ]
