-- ===== src/Runtime/Reactive.antt =====
-- What `reactive-seq` and `reactive-sel` remember from one tick to the next.
use muesli_bt.Common.{
  ℕ, suc, ◌+◌, ◌≡◌, refl, sym, ◌∙◌, ap, subst, true, false, ◌&&◌, Option, none, some, List, [], ◌∷◌,
  get_elem?, ltb, pos, codes, ok, bind, >>=-eq-ok, ok-injective, arith,
}
use muesli_bt.Ast.{Node, Definition}
use muesli_bt.Runtime.Status.{Status, success, failure, running}
use muesli_bt.Runtime.State.{Host, State, M, ◌>>◌, pure, modify, memory_at}
use muesli_bt.Runtime.Cleared.{updated_here}
use muesli_bt.Runtime.Composite.{
  prior_running_child, child_at, differs, previous_index, halt_previous,
  clear_reactive_running_child, remember_reactive_running_child, reactive_seq_loop,
  tick_reactive_seq, reactive_sel_loop, tick_reactive_sel,
}

module _ {W P : Type 0} (host : Host W P) (def : Definition) (tick : ℕ → M (State W P) Status) where
  -- After a tick that is running, the child is remembered that returned `running`. After any other,
  -- none is.
  abbrev pub Remembers : Node → Status → State W P → Type 0
  Remembers n running t =
      (c : ℕ) × (u v : State W P) × (prior_running_child (memory_at n.id t) n ≡ some c)
      × (tick c u ≡ ok (running, v))
  Remembers n success t = prior_running_child (memory_at n.id t) n ≡ none
  Remembers n failure t = prior_running_child (memory_at n.id t) n ≡ none

  cleared_memory :
      (n : Node) (s : State W P)
      → prior_running_child (memory_at n.id (clear_reactive_running_child n.id s)) n ≡ none
  unfolding prior_running_child
  cleared_memory n s =
      rw (updated_here s.memory n.id (some (record (memory_at n.id s) { b0 = false; i0 = pos 0 })))
        refl

  remembered_memory :
      (n : Node) (i c : ℕ) (s : State W P)
      → get_elem? n.children i ≡ some c
      → prior_running_child (memory_at n.id (remember_reactive_running_child n.id i s)) n ≡ some c
  unfolding prior_running_child child_at
  remembered_memory n i c s e =
      rw (updated_here s.memory n.id (some (record (memory_at n.id s) { b0 = true; i0 = pos i }))) e

  -- The children from `i` on.
  abbrev IsRest : Node → ℕ → List ℕ → Type 0
  IsRest n i cs = (k : ℕ) → get_elem? cs k ≡ get_elem? n.children (k + i)

  IsRest-next : (n : Node) (i c : ℕ) (cs : List ℕ) → IsRest n i (c ∷ cs) → IsRest n (suc i) cs
  IsRest-next n i c cs h k =
      h (suc k) ∙ ap (get_elem? n.children) {x = suc k + i} {y = k + suc i} (omega arith)

  first_of :
      (n : Node) (i c : ℕ) (cs : List ℕ) → IsRest n i (c ∷ cs) → get_elem? n.children i ≡ some c
  first_of n i c cs h = ap (get_elem? n.children) {x = i} {y = 0 + i} (omega arith) ∙ sym (h 0)

  -- A branch that ends by clearing the memory.
  ends_clear :
      (n : Node) (st₀ : Status) (m : M (State W P) (Unit {0})) (s : State W P) {st : Status}
      {t : State W P}
      → ((s : State W P) → Remembers n st₀ (clear_reactive_running_child n.id s))
      → (do m; modify (clear_reactive_running_child n.id); pure st₀) s ≡ ok (st, t)
      → Remembers n st t
  ends_clear n st₀ m s h e =
      let ((_, u), e₁, e₂) = >>=-eq-ok (m s) _ e in
      subst (λ (x : Status × State W P). Remembers n x.0 x.1) (ok-injective e₂) (h u)

  ends_remember :
      (n : Node) (i c : ℕ) (m : M (State W P) (Unit {0})) (s : State W P) {u v : State W P}
      {st : Status} {t : State W P}
      → get_elem? n.children i ≡ some c
      → tick c u ≡ ok (running, v)
      → (do m; modify (remember_reactive_running_child n.id i); pure running) s ≡ ok (st, t)
      → Remembers n st t
  ends_remember n i c m s {u} {v} at ran e =
      let ((_, w), e₁, e₂) = >>=-eq-ok (m s) _ e in
      subst (λ (x : Status × State W P). Remembers n x.0 x.1) (ok-injective e₂)
        (c, u, v, remembered_memory n i c w at, ran)

  -- A child was ticked, and `f`, `g` and `h` go on after its failure, its success and while it runs.
  abbrev by_status :
      M (State W P) Status
      → M (State W P) Status
      → M (State W P) Status
      → Status
      → M (State W P) Status
  by_status f g h st = elim st [ failure ↦ f | success ↦ g | running ↦ h ]

  after_child :
      (n : Node) (c : ℕ) (f g h : M (State W P) Status) (s : State W P) (st : Status)
      (t : State W P)
      → ((u : State W P) → f u ≡ ok (st, t) → Remembers n st t)
      → ((u : State W P) → g u ≡ ok (st, t) → Remembers n st t)
      → ((u : State W P) → tick c s ≡ ok (running, u) → h u ≡ ok (st, t) → Remembers n st t)
      → bind (tick c s) (λ (x : Status × State W P). by_status f g h x.0 x.1) ≡ ok (st, t)
      → Remembers n st t
  after_child n c f g h s st t kf kg kh e =
      let ((st', u), e₁, e₂) =
        >>=-eq-ok (tick c s) (λ (x : Status × State W P). by_status f g h x.0 x.1) e in
      branch st' u e₁ e₂
    where
      branch :
          (st' : Status) (u : State W P)
          → tick c s ≡ ok (st', u)
          → by_status f g h st' u ≡ ok (st, t)
          → Remembers n st t
      branch failure u e₁ e₂ = kf u e₂
      branch success u e₁ e₂ = kg u e₂
      branch running u e₁ e₂ = kh u e₁ e₂

  reactive_seq_loop-Remembers :
      (n : Node) (previous : Option ℕ) (i : ℕ) (cs : List ℕ)
      → IsRest n i cs
      → (s : State W P) (st : Status) (t : State W P)
      → reactive_seq_loop host def tick n previous i cs s ≡ ok (st, t)
      → Remembers n st t
  unfolding reactive_seq_loop
  reactive_seq_loop-Remembers n previous i [] rest s st t e =
      ends_clear n success
        (halt_previous host def tick previous (λ _. true) n.id (codes "reactive-seq completed")) s
        (cleared_memory n) e
  reactive_seq_loop-Remembers n previous i (c ∷ cs) rest s st t e =
      after_child n c _ (reactive_seq_loop host def tick n previous (suc i) cs) _ s st t
        (λ u.
          ends_clear n failure
            (halt_previous host def tick previous (λ _. true) c
              (codes "reactive-seq preempted on failure"))
            u (cleared_memory n))
        (λ u. reactive_seq_loop-Remembers n previous (suc i) cs (IsRest-next n i c cs rest) u st t)
        (λ u ran.
          ends_remember n i c
            (halt_previous host def tick previous (λ p. differs p c) c
              (codes "reactive-seq switched running child"))
            u (first_of n i c cs rest) ran)
        e

  reactive_sel_loop-Remembers :
      (n : Node) (previous : Option ℕ) (at i : ℕ) (cs : List ℕ)
      → IsRest n i cs
      → (s : State W P) (st : Status) (t : State W P)
      → reactive_sel_loop host def tick n previous at i cs s ≡ ok (st, t)
      → Remembers n st t
  unfolding reactive_sel_loop
  reactive_sel_loop-Remembers n previous at i [] rest s st t e =
      ends_clear n failure
        (halt_previous host def tick previous (λ _. true) n.id (codes "reactive-sel all failed")) s
        (cleared_memory n) e
  reactive_sel_loop-Remembers n previous at i (c ∷ cs) rest s st t e =
      let halted =
        halt_previous host def tick previous (λ p. ltb i at && differs p c) c
          (codes "reactive-sel switched to higher priority") in
      after_child n c (reactive_sel_loop host def tick n previous at (suc i) cs) _ _ s st t
        (λ u.
          reactive_sel_loop-Remembers n previous at (suc i) cs (IsRest-next n i c cs rest) u st t)
        (λ u. ends_clear n success halted u (cleared_memory n))
        (λ u ran. ends_remember n i c halted u (first_of n i c cs rest) ran) e

  whole : (n : Node) → IsRest n 0 n.children
  whole n k = ap (get_elem? n.children) {x = k} {y = k + 0} (omega arith)

  -- What a reactive sequence remembers: while it is running, a child that returned `running` to it in
  -- this tick; otherwise nothing. It is this child that a later tick halts.
  pub tick_reactive_seq-Remembers :
      (n : Node) (s : State W P) (st : Status) (t : State W P)
      → tick_reactive_seq host def tick n s ≡ ok (st, t)
      → Remembers n st t
  unfolding tick_reactive_seq
  tick_reactive_seq-Remembers n s st t =
      reactive_seq_loop-Remembers n (prior_running_child (memory_at n.id s) n) 0 n.children
        (whole n) _ st t

  -- The same of a reactive selector.
  pub tick_reactive_sel-Remembers :
      (n : Node) (s : State W P) (st : Status) (t : State W P)
      → tick_reactive_sel host def tick n s ≡ ok (st, t)
      → Remembers n st t
  unfolding tick_reactive_sel
  tick_reactive_sel-Remembers n s st t =
      reactive_sel_loop-Remembers n (prior_running_child (memory_at n.id s) n)
        (previous_index host def tick (memory_at n.id s) n) 0 n.children (whole n) _ st t
