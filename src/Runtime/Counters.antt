-- ===== src/Runtime/Counters.antt =====
-- `retry` and `repeat` over many ticks.
use muesli_bt.Common.{
  ℕ, zero, suc, ◌+◌, ◌<◌, ◌≡◌, refl, ◌∙◌, ap, Bool, false, some, List, ◌∷◌, leb, if◌then◌else◌, ℤ,
  pos, suc_ℤ, leb_ℤ, Result, ok, bind, arith,
}
use muesli_bt.Ast.{Node, Definition}
use muesli_bt.Runtime.Status.{Status, success, failure, running}
use muesli_bt.Runtime.State.{Host, State, Fault, M, memory_at, write_memory}
use muesli_bt.Runtime.Cleared.{updated_here}
use muesli_bt.Runtime.Composite.{
  count_failure, count_success, repeat_child, tick_retry, tick_repeat, set_i0,
}

lt→leb_false : (a b : ℕ) → b < a → leb a b ≡ false
lt→leb_false a b h = ground arith

plain : (a b : ℕ) → leb_ℤ (pos a) (pos b) ≡ leb a b
plain a b = ground arith

by_test :
    {S : Type 0} {b b' : Bool} (x y : Status) (s : S)
    → b ≡ b'
    → ◌≡◌ {A = Result Fault (Status × S)} (ok (if b then x else y, s)) (ok (if b' then x else y, s))
by_test x y s e = ap (λ b. ok (if b then x else y, s)) e

module _ {W P : Type 0} (host : Host W P) (def : Definition) (tick : ℕ → M (State W P) Status) where
  -- The child always returns `st`, and leaves the counter of `n` alone.
  abbrev pub AlwaysReturns : Node → Status → Type 0
  AlwaysReturns n st =
      (c : ℕ) × (rest : List ℕ) × (n.children ≡ c ∷ rest)
      × ((s : State W P)
          → (t : State W P) × (tick c s ≡ ok (st, t))
            × ((memory_at n.id t).i0 ≡ (memory_at n.id s).i0))

  -- Ticks in a row, and the status of the last.
  abbrev pub ticked : M (State W P) Status → ℕ → M (State W P) Status
  ticked m zero s = m s
  ticked m (suc k) s = bind (m s) λ (_, t). ticked m k t

  touched :
      (n : Node) (s : State W P)
      → (memory_at n.id (write_memory n.id (memory_at n.id s) s)).i0 ≡ (memory_at n.id s).i0
  touched n s = rw (updated_here s.memory n.id (some (memory_at n.id s))) refl

  counted : (n : Node) (i : ℤ) (s : State W P) → (memory_at n.id (set_i0 n.id i s)).i0 ≡ i
  counted n i s = rw (updated_here s.memory n.id (some (record (memory_at n.id s) { i0 = i }))) refl

  abbrev status_after : ℕ → ℕ → Status
  status_after limit i = if leb i limit then running else failure

  -- One failing tick of `retry`.
  retry_step :
      (n : Node) (limit i : ℕ) (s : State W P)
      → n.int_param ≡ pos limit
      → AlwaysReturns n failure
      → (memory_at n.id s).i0 ≡ pos i
      → (t : State W P) × (tick_retry host def tick n s ≡ ok (status_after limit (suc i), t))
        × ((memory_at n.id t).i0 ≡ pos (suc i))
  unfolding tick_retry count_failure
  retry_step n limit i s param (c, rest, children, child) i0 =
      let s₁ = write_memory n.id (memory_at n.id s) s in
      let (u, ran, kept) = child s₁ in
      let at = kept ∙ touched n s ∙ i0 in
      (
        set_i0 n.id (suc_ℤ (memory_at n.id u).i0) u,
        rw (children, tick_retry, ran, param, at) (by_test running failure _ (plain (suc i) limit)),
        counted n _ u ∙ ap suc_ℤ at,
      )

  -- A child that always fails makes `retry` run for `int_param` ticks and fail in every later one. The
  -- counter, which starts at `i`, counts all of them: failing does not reset it.
  pub tick_retry-failures :
      (n : Node) (limit i k : ℕ) (s : State W P)
      → n.int_param ≡ pos limit
      → AlwaysReturns n failure
      → (memory_at n.id s).i0 ≡ pos i
      → (t : State W P) × (ticked (tick_retry host def tick n) k s
          ≡ ok (if leb (suc i + k) limit then running else failure, t))
        × ((memory_at n.id t).i0 ≡ pos (suc i + k))
  tick_retry-failures n limit i zero s param child i0 =
      let (t, e, i0') = retry_step n limit i s param child i0 in
      (
        t,
        e ∙ ap (λ m. ok (status_after limit m, t)) {x = suc i} {y = suc i + 0} (omega arith),
        i0' ∙ ap pos {x = suc i} {y = suc i + 0} (omega arith),
      )
  tick_retry-failures n limit i (suc k) s param child i0 =
      let (t, e, i0') = retry_step n limit i s param child i0 in
      let (u, e', i0'') = tick_retry-failures n limit (suc i) k t param child i0' in
      (
        u,
        ap (λ r. bind r λ (_, x). ticked (tick_retry host def tick n) k x) e
            ∙ e'
            ∙ ap (λ m. ok (status_after limit m, u)) {x = suc (suc i) + k} {y = suc i + suc k}
                (omega arith),
        i0'' ∙ ap pos {x = suc (suc i) + k} {y = suc i + suc k} (omega arith),
      )

  -- One tick of `repeat` below its limit.
  repeat_step :
      (n : Node) (limit i : ℕ) (s : State W P)
      → n.int_param ≡ pos limit
      → AlwaysReturns n success
      → (memory_at n.id s).i0 ≡ pos i
      → i < limit
      → (t : State W P) × (tick_repeat host def tick n s
          ≡ ok (if leb limit (suc i) then success else running, t))
        × ((memory_at n.id t).i0 ≡ pos (suc i))
  unfolding tick_repeat repeat_child count_success
  repeat_step n limit i s param (c, rest, children, child) i0 below =
      let s₁ = write_memory n.id (memory_at n.id s) s in
      let (u, ran, kept) = child s₁ in
      let at = kept ∙ touched n s ∙ i0 in
      let more = plain limit i ∙ lt→leb_false limit i below in
      (
        set_i0 n.id (suc_ℤ (memory_at n.id u).i0) u,
        rw (children, tick_repeat, param, i0, more, repeat_child, ran, count_success, param, at)
            (by_test success running _ (plain limit (suc i))),
        counted n _ u ∙ ap suc_ℤ at,
      )

  -- A child that always succeeds makes `repeat` run until the tick in which the counter reaches
  -- `int_param`, which succeeds. The counter, which starts at `i`, is one more after every tick.
  pub tick_repeat-successes :
      (n : Node) (limit i k : ℕ) (s : State W P)
      → n.int_param ≡ pos limit
      → AlwaysReturns n success
      → (memory_at n.id s).i0 ≡ pos i
      → i + k < limit
      → (t : State W P) × (ticked (tick_repeat host def tick n) k s
          ≡ ok (if leb limit (suc i + k) then success else running, t))
        × ((memory_at n.id t).i0 ≡ pos (suc i + k))
  tick_repeat-successes n limit i zero s param child i0 below =
      let (t, e, i0') = repeat_step n limit i s param child i0 (omega (arith, below)) in
      (
        t,
        e
            ∙ ap (λ m. ok (if leb limit m then success else running, t)) {x = suc i} {y = suc i + 0}
                (omega arith),
        i0' ∙ ap pos {x = suc i} {y = suc i + 0} (omega arith),
      )
  tick_repeat-successes n limit i (suc k) s param child i0 below =
      let (t, e, i0') = repeat_step n limit i s param child i0 (omega (arith, below)) in
      let (u, e', i0'') =
        tick_repeat-successes n limit (suc i) k t param child i0' (omega (arith, below)) in
      (
        u,
        ap (λ r. bind r λ (_, x). ticked (tick_repeat host def tick n) k x) e
            ∙ e'
            ∙ ap (λ m. ok (if leb limit m then success else running, u)) {x = suc (suc i) + k}
                {y = suc i + suc k} (omega arith),
        i0'' ∙ ap pos {x = suc (suc i) + k} {y = suc i + suc k} (omega arith),
      )
