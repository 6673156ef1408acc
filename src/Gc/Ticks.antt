-- ===== src/Gc/Ticks.antt =====
-- Collections and ticks.
use muesli_bt.Common.{
  ℕ, ◌-◌, ◌≡◌, refl, sym, ◌∙◌, ap, subst, Bool, true, false, not, ◌&&◌, Bool-cases, inl, inr, ltb,
  ◌==◌, Option, none, some, ◌∷◌, if◌then◌else◌, if-true, if-false, Text, ok, err, ok-injective,
  ==→eq, ltb→lt, arith,
}
use muesli_bt.Gc.Heap.{GcNode, Heap, node_at}
use muesli_bt.Gc.Marking.{IsPresent}
use muesli_bt.Gc.Sweeping.{Survives}
use muesli_bt.Gc.Collector.{
  Gc, GcPolicy, Surroundings, CollectionReason, mark_roots, sweep, roots_of, collected,
  collect_impl, is_manual, is_between_ticks, is_fail_on_tick_gc, in_tick, link_node,
  request_collection, maybe_collect, collect, enter_tick, exit_tick, register_root_env,
  unregister_root_env, add_root_slot, remove_root_slot, scope_add, scope_end,
}
use muesli_bt.Gc.Collection.{quiet-collect_impl, collect_impl-Survives}
use muesli_bt.Gc.Steps.{
  Step, allocates, writes, requests, may_collect, collects, enters, exits, sets_policy, listens,
  registers_env, unregisters_env, adds_slot, removes_slot, scope_adds, scope_ends, IsReachable,
  IsReachable-IsAccounted, has-addresses,
}

-- In every state that a collector comes to, a collection that is asked for and not refused keeps the
-- nodes that are reached from the roots as they were, and no others.
pub collect-Survives :
    (o : Surroundings) (s t : Gc) (a : ℕ)
    → IsReachable s
    → collect o s ≡ ok t
    → Survives (roots_of o s) s.heap t.heap a
unfolding collect
collect-Survives o s t a r e =
    let h = IsReachable-IsAccounted s r in
    subst (λ h. Survives (roots_of o s) s.heap h a)
      (ap (λ s. s.heap) (not_refused (is_fail_on_tick_gc s.policy && in_tick s) _ _ e))
      (collect_impl-Survives o CollectionReason.forced true s a h.distinct h.unmarked)
  where
    not_refused :
        (b : Bool) (message : Text) (u : Gc) → (if b then err message else ok u) ≡ ok t → u ≡ t
    not_refused true message u k = cc
    not_refused false message u k = ok-injective k

-- The step is no forced collection and does not change the policy.
abbrev pub IsUnforced : {s t : Gc} → Step s t → Type 0
IsUnforced (collects _ _) = ⊥
IsUnforced (sets_policy _) = ⊥
IsUnforced _ = Unit

-- Steps within a tick: each state is in it.
pub data WithinTick : Gc → Gc → Type 0 where
  here : {s : Gc} → in_tick s ≡ true → WithinTick s s
  then_step :
      {s t u : Gc}
      → WithinTick s t
      → (step : Step t u) → IsUnforced step
      → in_tick u ≡ true
      → WithinTick s u

waits :
    (o : Surroundings) (s : Gc)
    → s.policy ≡ GcPolicy.between_ticks
    → in_tick s ≡ true
    → maybe_collect o s ≡ ok s
unfolding maybe_collect
waits o s p d = elim (Bool-cases s.collection_requested) [
  | inl c ↦
      if-false (not s.collection_requested) _ _ (ap not c)
      ∙ if-false (is_manual s.policy) _ _ (ap is_manual p)
      ∙ if-true (is_between_ticks s.policy && in_tick s) _ _
          (ap (λ b. b && in_tick s) (ap is_between_ticks p) ∙ d)
  | inr c ↦ if-true (not s.collection_requested) _ _ (ap not c)
]

depth-collect_impl :
    (o : Surroundings) (reason : CollectionReason) (is_forced : Bool) (s : Gc)
    → (collect_impl o reason is_forced s).tick_depth ≡ s.tick_depth
unfolding collected mark_roots sweep
depth-collect_impl o reason is_forced s =
    quiet-collect_impl (λ s. s.tick_depth) (λ s heard. refl) o reason is_forced s

left_of : (b c : Bool) → (b && c) ≡ true → b ≡ true
left_of true c e = refl
left_of false c e = cc

-- An exit after which the tick is not over collects nothing.
exit_within :
    (o : Surroundings) (s : Gc)
    → in_tick (exit_tick o s) ≡ true
    → exit_tick o s ≡ record s { tick_depth = s.tick_depth - 1 }
unfolding exit_tick in_tick
exit_within o s d =
    let t : Gc = record s { tick_depth = s.tick_depth - 1 } in
    not_over ((t.tick_depth == 0) && (t.collection_requested && is_between_ticks t.policy)) t
      (collect_impl o CollectionReason.between_ticks false t)
      (depth-collect_impl o CollectionReason.between_ticks false t)
      (λ e. ==→eq t.tick_depth 0 (left_of _ _ e)) d
  where
    not_over :
        (b : Bool) (t u : Gc)
        → u.tick_depth ≡ t.tick_depth
        → (b ≡ true → t.tick_depth ≡ 0)
        → ltb 0 (if b then u else t).tick_depth ≡ true
        → (if b then u else t) ≡ t
    not_over true t u e z d = absurd (omega (arith, ltb→lt 0 u.tick_depth d, e, z refl))
    not_over false t u e z d = refl

-- What is there and stays there as long as ticks wait for their end.
record Stays (a : ℕ) (s : Gc) : Type 0 where
  present : IsPresent s.heap a
  policy : s.policy ≡ GcPolicy.between_ticks

one_more : (a : ℕ) (n : GcNode) (h : Heap) → IsPresent h a → IsPresent (n ∷ h) a
unfolding node_at
one_more a n h p = elim (Bool-cases (n.address == a)) [ inl e ↦ rw e refl | inr e ↦ rw e p ]

Stays-register_root_env :
    (a : ℕ) (env : Option ℕ) (s : Gc) → Stays a s → Stays a (register_root_env env s)
unfolding register_root_env
Stays-register_root_env a none s h = h
Stays-register_root_env a (some env) s h = record { present = h.present; policy = h.policy }

Stays-add_root_slot :
    (a : ℕ) (slot : Option ℕ) (s : Gc) → Stays a s → Stays a (add_root_slot slot s)
unfolding add_root_slot
Stays-add_root_slot a none s h = h
Stays-add_root_slot a (some slot) s h = record { present = h.present; policy = h.policy }

Step-Stays :
    (a : ℕ) (s t : Gc) (step : Step s t)
    → IsUnforced step
    → in_tick s ≡ true
    → in_tick t ≡ true
    → Stays a s
    → Stays a t
unfolding link_node request_collection enter_tick unregister_root_env remove_root_slot scope_add
    scope_end
Step-Stays a s t (allocates n m fresh) k d d' h = record {
  present = one_more a n s.heap h.present;
  policy = h.policy;
}
Step-Stays a s t (writes heap e u) k d d' h = record {
  present = has-addresses a s.heap heap e ∙ h.present;
  policy = h.policy;
}
Step-Stays a s t requests k d d' h = record { present = h.present; policy = h.policy }
Step-Stays a s t (may_collect o e) k d d' h =
    subst (Stays a) (ok-injective (sym (waits o s h.policy d) ∙ e)) h
Step-Stays a s t (collects o e) k d d' h = elim k [ ]
Step-Stays a s t enters k d d' h = record { present = h.present; policy = h.policy }
Step-Stays a s t (exits o) k d d' h =
    subst (Stays a) (sym (exit_within o s d')) (record { present = h.present; policy = h.policy })
Step-Stays a s t (sets_policy p) k d d' h = elim k [ ]
Step-Stays a s t (listens l) k d d' h = record { present = h.present; policy = h.policy }
Step-Stays a s t (registers_env env) k d d' h = Stays-register_root_env a env s h
Step-Stays a s t (unregisters_env env) k d d' h = record { present = h.present; policy = h.policy }
Step-Stays a s t (adds_slot slot) k d d' h = Stays-add_root_slot a slot s h
Step-Stays a s t (removes_slot slot) k d d' h = record { present = h.present; policy = h.policy }
Step-Stays a s t (scope_adds slot) k d d' h = record { present = h.present; policy = h.policy }
Step-Stays a s t (scope_ends n) k d d' h = record { present = h.present; policy = h.policy }

within_tick : (s t : Gc) → WithinTick s t → in_tick t ≡ true
within_tick s t (here d) = d
within_tick s t (then_step w step k d) = d

run-Stays : (a : ℕ) (s t : Gc) → WithinTick s t → Stays a s → Stays a t
run-Stays a s t (here d) h = h
run-Stays a s u (then_step {t = t} w step k d) h =
    Step-Stays a t u step k (within_tick s t w) d (run-Stays a s t w h)

-- Under the policy between-ticks, no node is freed within a tick, unless a collection is forced or the
-- policy is changed: not by collections that are requested or that the threshold asks for, nor at the
-- end of a tick that is nested in another.
pub WithinTick-keeps :
    (a : ℕ) (s t : Gc)
    → WithinTick s t
    → s.policy ≡ GcPolicy.between_ticks
    → IsPresent s.heap a
    → IsPresent t.heap a
WithinTick-keeps a s t w p h = (run-Stays a s t w (record { present = h; policy = p })).present
