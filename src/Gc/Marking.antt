-- ===== src/Gc/Marking.antt =====
-- Marking from some addresses marks what is reachable from them.
use muesli_bt.Common.{
  ℕ, zero, suc, ◌≤◌, ◌<◌, ◌≡◌, refl, sym, ◌∙◌, ap, subst, ◌↔◌, ◌⊎◌, inl, inr, Bool, true, false,
  Bool-cases, Option, none, some, List, [], ◌∷◌, ◌==◌, ==→eq, if◌then◌else◌, arith,
}
use muesli_bt.Gc.Heap.{
  GcNode, Heap, node_at, set_marked, mark_each, mark_at, mark_node, unmarked_node,
}

abbrev pub Mem : ℕ → List ℕ → Type 0
Mem a [] = ⊥
Mem a (b ∷ l) = (a ≡ b) ⊎ Mem a l

abbrev pub marked_of : Option GcNode → Bool
marked_of none = false
marked_of (some n) = n.marked

abbrev pub IsMarked : Heap → ℕ → Type 0
IsMarked h a = marked_of (node_at a h) ≡ true

-- The heap without its marks.
unfoldable pub skeleton : Heap → Heap
skeleton [] = []
skeleton (n ∷ h) = unmarked_node n ∷ skeleton h

abbrev pub has_node : Option GcNode → Bool
has_node none = false
has_node (some _) = true

-- There is a node at this address.
abbrev pub IsPresent : Heap → ℕ → Type 0
IsPresent h a = has_node (node_at a h) ≡ true

abbrev pub children_of : Option GcNode → List ℕ
children_of none = []
children_of (some n) = n.children

abbrev pub IsChild : Heap → ℕ → ℕ → Type 0
IsChild h a c = Mem c (children_of (node_at a h))

-- Reached from one of the roots.
pub data Reaches (h : Heap) (roots : List ℕ) : ℕ → Type 0 where
  root : {a : ℕ} → Mem a roots → IsPresent h a → Reaches h roots a
  child : {a c : ℕ} → Reaches h roots a → IsChild h a c → IsPresent h c → Reaches h roots c

-- What a node has but for its mark.
abbrev pub without_mark : Option GcNode → Option GcNode
without_mark none = none
without_mark (some n) = some (unmarked_node n)

pub node_at-skeleton : (a : ℕ) (h : Heap) → node_at a (skeleton h) ≡ without_mark (node_at a h)
unfolding node_at skeleton
node_at-skeleton a [] = refl
node_at-skeleton a (n ∷ h) = elim (Bool-cases (n.address == a)) [
  | inl e ↦ rw e refl
  | inr e ↦ rw e (node_at-skeleton a h)
]

pub has-without_mark : (o : Option GcNode) → has_node (without_mark o) ≡ has_node o
has-without_mark none = refl
has-without_mark (some n) = refl

children-without_mark : (o : Option GcNode) → children_of (without_mark o) ≡ children_of o
children-without_mark none = refl
children-without_mark (some n) = refl

-- Heaps that differ in their marks only.
abbrev pub Alike : Heap → Heap → Type 0
Alike h h' = skeleton h' ≡ skeleton h

module _ (h h' : Heap) (alike : Alike h h') where
  pub same_without_mark : (a : ℕ) → without_mark (node_at a h') ≡ without_mark (node_at a h)
  same_without_mark a = sym (node_at-skeleton a h') ∙ ap (node_at a) alike ∙ node_at-skeleton a h

  pub same_has : (a : ℕ) → has_node (node_at a h') ≡ has_node (node_at a h)
  same_has a =
      sym (has-without_mark (node_at a h'))
      ∙ ap has_node (same_without_mark a)
      ∙ has-without_mark (node_at a h)

  pub same_children : (a : ℕ) → children_of (node_at a h') ≡ children_of (node_at a h)
  same_children a =
      sym (children-without_mark (node_at a h'))
      ∙ ap children_of (same_without_mark a)
      ∙ children-without_mark (node_at a h)

  pub Reaches-alike : (roots : List ℕ) (a : ℕ) → Reaches h' roots a → Reaches h roots a
  Reaches-alike roots a (root m p) = root m (sym (same_has a) ∙ p)
  Reaches-alike roots a (child {a = b} r c p) =
      child (Reaches-alike roots b r) (subst (Mem a) (same_children b) c) (sym (same_has a) ∙ p)

skeleton-set_marked : (a : ℕ) (h : Heap) → skeleton (set_marked a h) ≡ skeleton h
unfolding skeleton set_marked
skeleton-set_marked a [] = refl
skeleton-set_marked a (n ∷ h) = elim (Bool-cases (n.address == a)) [
  | inl e ↦ rw e (ap (λ k. unmarked_node n ∷ k) (skeleton-set_marked a h))
  | inr e ↦ rw e (ap (λ k. unmarked_node n ∷ k) (skeleton-set_marked a h))
]

node_at-set_marked :
    (a b : ℕ) (h : Heap) → (a == b) ≡ false → node_at b (set_marked a h) ≡ node_at b h
unfolding node_at set_marked
node_at-set_marked a b [] e = refl
node_at-set_marked a b (n ∷ h) e = elim (Bool-cases (n.address == a)) [
  | inl f ↦
      let other : (n.address == b) ≡ false = ap (λ k. k == b) (==→eq n.address a f) ∙ e in
      rw (f, other) (node_at-set_marked a b h e)
  | inr f ↦ rw f (ap (λ r. if n.address == b then some n else r) (node_at-set_marked a b h e))
]

IsMarked-set_marked : (a : ℕ) (h : Heap) → IsPresent h a → IsMarked (set_marked a h) a
unfolding node_at set_marked
IsMarked-set_marked a [] p = cc
IsMarked-set_marked a (n ∷ h) p = elim (Bool-cases (n.address == a)) [
  | inl e ↦ rw (e, e) refl
  | inr e ↦ rw (e, e) (IsMarked-set_marked a h (rw e at p))
]

-- Marking a node marks no other.
set_marked-only : (a b : ℕ) (h : Heap) → IsMarked (set_marked a h) b → (b ≡ a) ⊎ IsMarked h b
set_marked-only a b h m = elim (Bool-cases (a == b)) [
  | inl e ↦ inl (sym (==→eq a b e))
  | inr e ↦ inr (ap marked_of (sym (node_at-set_marked a b h e)) ∙ m)
]

set_marked-keeps : (a b : ℕ) (h : Heap) → IsMarked h b → IsMarked (set_marked a h) b
set_marked-keeps a b h m = elim (Bool-cases (a == b)) [
  | inl e ↦ subst (IsMarked (set_marked a h)) (==→eq a b e) (
      IsMarked-set_marked a h
        (subst (IsPresent h) (sym (==→eq a b e)) (marked_is_present (node_at b h) m)))
  | inr e ↦ ap marked_of (node_at-set_marked a b h e) ∙ m
]
  where
    marked_is_present : (o : Option GcNode) → marked_of o ≡ true → has_node o ≡ true
    marked_is_present none m = cc
    marked_is_present (some n) m = refl

-- How many nodes are left to mark.
unfoldable pub unmarked_count : Heap → ℕ
unmarked_count [] = 0
unmarked_count (n ∷ h) = if n.marked then unmarked_count h else suc (unmarked_count h)

count-set_marked : (a : ℕ) (h : Heap) → unmarked_count (set_marked a h) ≤ unmarked_count h
unfolding unmarked_count set_marked
count-set_marked a [] = omega arith
count-set_marked a (n ∷ h) =
    let rest = count-set_marked a h in
    elim (Bool-cases (n.address == a)) [
      | inl e ↦ elim (Bool-cases n.marked) [
        | inl m ↦ rw (e, m) rest
        | inr m ↦ rw (e, m) (omega (arith, rest))
      ]
      | inr e ↦ elim (Bool-cases n.marked) [
        | inl m ↦ rw (e, m) rest
        | inr m ↦ rw (e, m) (omega (arith, rest))
      ]
    ]

count-marks :
    (a : ℕ) (h : Heap) (n : GcNode)
    → node_at a h ≡ some n
    → n.marked ≡ false
    → unmarked_count (set_marked a h) < unmarked_count h
unfolding unmarked_count set_marked node_at
count-marks a [] n e m = cc
count-marks a (k ∷ h) n e m =
    let rest = count-set_marked a h in
    elim (Bool-cases (k.address == a)) [
      | inl f ↦
          let found : some k ≡ some n = rw f at e in
          let left : k.marked ≡ false = cc in rw (f, left) (omega (arith, rest))
      | inr f ↦
          let later : node_at a h ≡ some n = rw f at e in
          let fewer = count-marks a h n later m in
          elim (Bool-cases k.marked) [
            | inl d ↦ rw (f, d) fewer
            | inr d ↦ rw (f, d) (omega (arith, fewer))
          ]
    ]

unmarked_left :
    (a : ℕ) (h : Heap) (n : GcNode) → node_at a h ≡ some n → n.marked ≡ false → 0 < unmarked_count h
unmarked_left a h n e m = omega (arith, count-marks a h n e m)

-- What marking from the roots has done to a heap.
pub record Marks (roots : List ℕ) (h h' : Heap) : Type 0 where
  pub alike : Alike h h'
  pub fewer : unmarked_count h' ≤ unmarked_count h
  pub keeps : (b : ℕ) → IsMarked h b → IsMarked h' b
  pub target : (a : ℕ) → Mem a roots → IsPresent h a → IsMarked h' a
  pub sound : (b : ℕ) → IsMarked h' b → IsMarked h b ⊎ Reaches h roots b
  pub closed :
      (b : ℕ)
      → IsMarked h' b
      → IsMarked h b ⊎ ((c : ℕ) → IsChild h b c → IsPresent h c → IsMarked h' c)

only : (a b : ℕ) (P : ℕ → Type 0) → Mem b (a ∷ []) → P a → P b
only a b P (inl e) p = subst P (sym e) p
only a b P (inr e) p = elim e [ ]

-- Nothing was to do.
nothing : (a : ℕ) (h : Heap) → (IsPresent h a → IsMarked h a) → Marks (a ∷ []) h h
nothing a h m = record {
  alike = refl;
  fewer = omega arith;
  keeps = λ b k. k;
  target = λ b e. only a b (λ k. IsPresent h k → IsMarked h k) e m;
  sound = λ b k. inl k;
  closed = λ b k. inl k;
}

no_roots : (h : Heap) → Marks [] h h
no_roots h = record {
  alike = refl;
  fewer = omega arith;
  keeps = λ b k. k;
  target = λ b e p. elim e [ ];
  sound = λ b k. inl k;
  closed = λ b k. inl k;
}

more_roots :
    (h : Heap) (roots more : List ℕ)
    → ((a : ℕ) → Mem a roots → Mem a more)
    → (b : ℕ) → Reaches h roots b
    → Reaches h more b
more_roots h roots more k b (root m p) = root (k b m) p
more_roots h roots more k b (child {a = a} r c p) = child (more_roots h roots more k a r) c p

module _ (a : ℕ) (rest : List ℕ) (h h1 h2 : Heap) (first : Marks (a ∷ []) h h1)
    (second : Marks rest h1 h2) where
  both : Marks (a ∷ rest) h h2
  both = record {
    alike = second.alike ∙ first.alike;
    fewer = omega (arith, first.fewer, second.fewer);
    keeps = λ b k. second.keeps b (first.keeps b k);
    target = target_of;
    sound = λ b k. from_second b (second.sound b k);
    closed = λ b k. close b (second.closed b k);
  }
    where
      target_of : (b : ℕ) → Mem b (a ∷ rest) → IsPresent h b → IsMarked h2 b
      target_of b (inl e) p = second.keeps b (first.target b (inl e) p)
      target_of b (inr m) p = second.target b m (same_has h h1 first.alike b ∙ p)

      from_first :
          (b : ℕ) → IsMarked h b ⊎ Reaches h (a ∷ []) b → IsMarked h b ⊎ Reaches h (a ∷ rest) b
      from_first b (inl k) = inl k
      from_first b (inr r) = inr (
          more_roots h (a ∷ []) (a ∷ rest) (λ c m. only a c (λ k. Mem k (a ∷ rest)) m (inl refl)) b
            r)

      from_second :
          (b : ℕ) → IsMarked h1 b ⊎ Reaches h1 rest b → IsMarked h b ⊎ Reaches h (a ∷ rest) b
      from_second b (inl k) = from_first b (first.sound b k)
      from_second b (inr r) =
          inr (
            more_roots h rest (a ∷ rest) (λ c m. inr m) b (Reaches-alike h h1 first.alike rest b r))

      close_first :
          (b : ℕ)
          → IsMarked h b ⊎ ((c : ℕ) → IsChild h b c → IsPresent h c → IsMarked h1 c)
          → IsMarked h b ⊎ ((c : ℕ) → IsChild h b c → IsPresent h c → IsMarked h2 c)
      close_first b (inl k) = inl k
      close_first b (inr k) = inr (λ c e p. second.keeps c (k c e p))

      close :
          (b : ℕ)
          → IsMarked h1 b ⊎ ((c : ℕ) → IsChild h1 b c → IsPresent h1 c → IsMarked h2 c)
          → IsMarked h b ⊎ ((c : ℕ) → IsChild h b c → IsPresent h c → IsMarked h2 c)
      close b (inl k) = close_first b (first.closed b k)
      close b (inr k) = inr (λ c e p.
          k c (subst (Mem c) (sym (same_children h h1 first.alike b)) e)
            (same_has h h1 first.alike c ∙ p))

pub mark_each-Marks :
    (mark : ℕ → Heap → Heap) (limit : ℕ)
    → ((a : ℕ) (h : Heap) → unmarked_count h ≤ limit → Marks (a ∷ []) h (mark a h))
    → (roots : List ℕ) (h : Heap) → unmarked_count h ≤ limit
    → Marks roots h (mark_each mark roots h)
mark_each-Marks mark limit one [] h k = no_roots h
mark_each-Marks mark limit one (a ∷ roots) h k =
    let first = one a h k in
    both a roots h (mark a h) _ first
      (mark_each-Marks mark limit one roots (mark a h) (omega (arith, first.fewer, k)))

-- A node that is not marked is marked, and then its children.
module _ (a : ℕ) (h h2 : Heap) (n : GcNode) (at : node_at a h ≡ some n)
    (below : Marks n.children (set_marked a h) h2) where
  is_child : (b : ℕ) → Mem b n.children → IsChild h a b
  is_child b m = subst (λ o. Mem b (children_of o)) (sym at) m

  is_present : IsPresent h a
  is_present = ap has_node at

  h1 : Heap
  h1 = set_marked a h

  reached : (b : ℕ) → Reaches h n.children b → Reaches h (a ∷ []) b
  reached b (root m p) = child (root (inl refl) is_present) (is_child b m) p
  reached b (child {a = c} r m p) = child (reached c r) m p

  visited : Marks (a ∷ []) h h2
  unfolding h1
  visited = record {
    alike = below.alike ∙ skeleton-set_marked a h;
    fewer = omega (arith, below.fewer, count-set_marked a h);
    keeps = λ b k. below.keeps b (set_marked-keeps a b h k);
    target = λ b e p. below.keeps b (only a b (IsMarked h1) e (IsMarked-set_marked a h is_present));
    sound = λ b k. sound_of b (below.sound b k);
    closed = λ b k. closed_of b (below.closed b k);
  }
    where
      alike1 : Alike h h1
      alike1 = skeleton-set_marked a h

      here_or_before : (b : ℕ) → (b ≡ a) ⊎ IsMarked h b → IsMarked h b ⊎ Reaches h (a ∷ []) b
      here_or_before b (inl e) = inr (root (inl e) (subst (IsPresent h) (sym e) is_present))
      here_or_before b (inr k) = inl k

      sound_of :
          (b : ℕ) → IsMarked h1 b ⊎ Reaches h1 n.children b → IsMarked h b ⊎ Reaches h (a ∷ []) b
      sound_of b (inl k) = here_or_before b (set_marked-only a b h k)
      sound_of b (inr r) = inr (reached b (Reaches-alike h h1 alike1 n.children b r))

      targets : (c : ℕ) → IsChild h a c → IsPresent h c → IsMarked h2 c
      targets c m p =
          below.target c (subst (λ o. Mem c (children_of o)) at m) (same_has h h1 alike1 c ∙ p)

      close_here :
          (b : ℕ)
          → (b ≡ a) ⊎ IsMarked h b
          → IsMarked h b ⊎ ((c : ℕ) → IsChild h b c → IsPresent h c → IsMarked h2 c)
      close_here b (inl e) =
          inr (subst (λ k. (c : ℕ) → IsChild h k c → IsPresent h c → IsMarked h2 c) (sym e) targets)
      close_here b (inr k) = inl k

      closed_of :
          (b : ℕ)
          → IsMarked h1 b ⊎ ((c : ℕ) → IsChild h1 b c → IsPresent h1 c → IsMarked h2 c)
          → IsMarked h b ⊎ ((c : ℕ) → IsChild h b c → IsPresent h c → IsMarked h2 c)
      closed_of b (inl k) = close_here b (set_marked-only a b h k)
      closed_of b (inr k) = inr (λ c m p.
          k c (subst (Mem c) (sym (same_children h h1 alike1 b)) m) (same_has h h1 alike1 c ∙ p))

module _ (a fuel : ℕ) (h : Heap) where
  visit-Marks :
      ((b : ℕ) (k : Heap) → unmarked_count k ≤ fuel → Marks (b ∷ []) k (mark_node fuel b k))
      → unmarked_count h ≤ suc fuel
      → (o : Option GcNode) → node_at a h ≡ o
      → Marks (a ∷ []) h (mark_at a o (mark_node fuel) h)
  visit-Marks below k none at =
      nothing a h (λ p. let q : false ≡ true = ap has_node (sym at) ∙ p in cc)
  visit-Marks below k (some n) at = by_mark n.marked refl
    where
      by_mark :
          (b : Bool)
          → n.marked ≡ b
          → Marks
              (a ∷ [])
              h
              (elim b [ true ↦ h | false ↦ mark_each (mark_node fuel) n.children (set_marked a h) ])
      by_mark true e = nothing a h (λ _. ap marked_of at ∙ e)
      by_mark false e = visited a h _ n at (
          mark_each-Marks (mark_node fuel) fuel below n.children (set_marked a h)
            (omega (arith, k, count-marks a h n at e)))

-- With fuel for the nodes that are not marked yet, marking ends.
pub mark_node-Marks :
    (fuel a : ℕ) (h : Heap) → unmarked_count h ≤ fuel → Marks (a ∷ []) h (mark_node fuel a h)
unfolding mark_node
mark_node-Marks zero a h k = nothing a h (all_marked (node_at a h) refl)
  where
    all_marked : (o : Option GcNode) → node_at a h ≡ o → has_node o ≡ true → marked_of o ≡ true
    all_marked none at p = cc
    all_marked (some n) at p = elim (Bool-cases n.marked) [
      | inl e ↦ e
      | inr e ↦ absurd (omega (arith, k, unmarked_left a h n at e))
    ]
mark_node-Marks (suc fuel) a h k = visit-Marks a fuel h (mark_node-Marks fuel) k (node_at a h) refl

abbrev pub IsUnmarked : Heap → Type 0
IsUnmarked h = (b : ℕ) → ¬ IsMarked h b

-- Marking from some roots, in a heap in which nothing is marked, marks the nodes that are reached from
-- them and no others.
pub mark_each-Reaches :
    (fuel : ℕ) (roots : List ℕ) (h : Heap)
    → unmarked_count h ≤ fuel
    → IsUnmarked h
    → (b : ℕ) → IsMarked (mark_each (mark_node fuel) roots h) b ↔ Reaches h roots b
mark_each-Reaches fuel roots h k nil-IsUnmarked b = (into b, from b)
  where
    done : Marks roots h (mark_each (mark_node fuel) roots h)
    done = mark_each-Marks (mark_node fuel) fuel (mark_node-Marks fuel) roots h k

    marked_or : (b : ℕ) {P : Type 0} → IsMarked h b ⊎ P → P
    marked_or b (inl m) = absurd (nil-IsUnmarked b m)
    marked_or b (inr p) = p

    into : (b : ℕ) → IsMarked (mark_each (mark_node fuel) roots h) b → Reaches h roots b
    into b m = marked_or b (done.sound b m)

    from : (b : ℕ) → Reaches h roots b → IsMarked (mark_each (mark_node fuel) roots h) b
    from b (root m p) = done.target b m p
    from b (child {a = a} r c p) = marked_or a (done.closed a (from a r)) b c p
