-- ===== src/Runtime/Sequences.antt =====
-- `seq`, `sel` and `mem-seq`: the laws between them, and where `mem-seq` goes on.
use muesli_bt.Common.{
  append-nil, ◌⊎◌, inl, inr, ◌↔◌, ℕ, zero, suc, ◌+◌, ◌<◌, ◌≡◌, refl, sym, ◌∙◌, ap, subst, codes,
  some, List, [], ◌∷◌, ◌++◌, length, get_elem?, drop, lt→ltb, pos, Result, ok, err, bind, >>=-eq-ok,
  ok-injective, arith,
}
use muesli_bt.Ast.{Node, Definition}
use muesli_bt.Runtime.Status.{Status, success, failure, running}
use muesli_bt.Runtime.State.{Host, State, Fault, M, ◌>>◌, pure, modify, memory_at}
use muesli_bt.Runtime.Halt.{halt_all_children}
use muesli_bt.Runtime.Cleared.{updated_here}
use muesli_bt.Runtime.Composite.{
  invert_status, clamp_child_index, set_i0, tick_seq, tick_sel, mem_seq_loop, tick_mem_seq,
}

module _ {W P : Type 0} where
  -- A tick with success and failure exchanged.
  abbrev pub inverted : Result Fault (Status × State W P) → Result Fault (Status × State W P)
  inverted r = bind r λ (st, s). ok (invert_status st, s)

  abbrev on_success : M (State W P) Status → Status → M (State W P) Status
  on_success k st = elim st [ failure ↦ pure failure | running ↦ pure running | success ↦ k ]

  abbrev on_failure : M (State W P) Status → Status → M (State W P) Status
  on_failure k st = elim st [ success ↦ pure success | running ↦ pure running | failure ↦ k ]

  next_inverted :
      (r : Result Fault (Status × State W P)) (k k' : M (State W P) Status)
      → ((t : State W P) → k t ≡ inverted (k' t))
      → (bind r λ (st, t). on_failure k st t)
        ≡ inverted (bind (inverted r) λ (st, t). on_success k' st t)
  unfolding invert_status
  next_inverted (err f) k k' h = refl
  next_inverted (ok (success, t)) k k' h = refl
  next_inverted (ok (running, t)) k k' h = refl
  next_inverted (ok (failure, t)) k k' h = h t

module _ {W P : Type 0} (host : Host W P) (def : Definition) (tick : ℕ → M (State W P) Status) where
  -- De Morgan: a selector is a sequence of the inverted children, inverted.
  pub tick_sel-inverted :
      (cs : List ℕ) (s : State W P)
      → tick_sel host def tick cs s ≡ inverted (tick_seq host def (λ c t. inverted (tick c t)) cs s)
  unfolding tick_sel tick_seq invert_status
  tick_sel-inverted [] s = refl
  tick_sel-inverted (c ∷ cs) s = next_inverted (tick c s) _ _ (tick_sel-inverted cs)

  -- The children succeed one after the other, each in the state that the one before it leaves.
  pub data Succeed : List ℕ → State W P → State W P → Type 0 where
    none_left : {s : State W P} → Succeed [] s s
    then_next :
        {c : ℕ} {cs : List ℕ} {s t u : State W P}
        → tick c s ≡ ok (success, t)
        → Succeed cs t u
        → Succeed (c ∷ cs) s u

  -- How a sequence of `cs` ends: all of them succeed, or the first of them that does not is ticked
  -- last, and its status is that of the sequence.
  abbrev pub IsLast : List ℕ → State W P → Status → State W P → Type 0
  IsLast cs s st t =
      (done : List ℕ) × (c : ℕ) × (rest : List ℕ) × (u : State W P) × (cs ≡ done ++ c ∷ rest)
      × Succeed done s u
      × (tick c u ≡ ok (st, t))
      × (¬ (st ≡ success))

  abbrev pub EndsWith : List ℕ → State W P → Status → State W P → Type 0
  EndsWith cs s st t = ((st ≡ success) × Succeed cs s t) ⊎ IsLast cs s st t

  EndsWith-next :
      (c : ℕ) (cs : List ℕ) (s u : State W P) (st : Status) (t : State W P)
      → tick c s ≡ ok (success, u)
      → EndsWith cs u st t
      → EndsWith (c ∷ cs) s st t
  EndsWith-next c cs s u st t e (inl (h, k)) = inl (h, then_next e k)
  EndsWith-next c cs s u st t e (inr (done, d, rest, v, split, k, ran, h)) =
      inr (c ∷ done, d, rest, v, ap (λ l. c ∷ l) split, then_next e k, ran, h)

  EndsWith-stop :
      (c : ℕ) (cs : List ℕ) (s u : State W P) (st' st : Status) (t : State W P)
      → tick c s ≡ ok (st', u)
      → ¬ (st' ≡ success)
      → ◌≡◌ {A = Result Fault (Status × State W P)} (ok (st', u)) (ok (st, t))
      → EndsWith (c ∷ cs) s st t
  EndsWith-stop c cs s u st' st t e h k =
      let same_status : st' ≡ st = ap (λ x. x.0) (ok-injective k) in
      inr ([], c, cs, s, refl, none_left, e ∙ k, λ l. h (same_status ∙ l))

  tick_seq-next :
      (c : ℕ) (cs : List ℕ) (s u : State W P) (st' st : Status) (t : State W P)
      → tick c s ≡ ok (st', u)
      → on_success (tick_seq host def tick cs) st' u ≡ ok (st, t)
      → (tick_seq host def tick cs u ≡ ok (st, t) → EndsWith cs u st t)
      → EndsWith (c ∷ cs) s st t
  tick_seq-next c cs s u success st t e k later = EndsWith-next c cs s u st t e (later k)
  tick_seq-next c cs s u failure st t e k later = EndsWith-stop c cs s u failure st t e (λ h. cc) k
  tick_seq-next c cs s u running st t e k later = EndsWith-stop c cs s u running st t e (λ h. cc) k

  tick_seq-EndsWith :
      (cs : List ℕ) (s : State W P) (st : Status) (t : State W P)
      → tick_seq host def tick cs s ≡ ok (st, t)
      → EndsWith cs s st t
  unfolding tick_seq
  tick_seq-EndsWith [] s st t e =
      let x = ok-injective e in
      inl (sym (ap (λ r. r.0) x), subst (Succeed [] s) (ap (λ r. r.1) x) none_left)
  tick_seq-EndsWith (c ∷ cs) s st t e =
      let ((st', u), e₁, e₂) =
        >>=-eq-ok (tick c s)
          (λ (x : Status × State W P). on_success (tick_seq host def tick cs) x.0 x.1) e in
      tick_seq-next c cs s u st' st t e₁ e₂ (tick_seq-EndsWith cs u st t)

  Succeed-tick_seq :
      (cs more : List ℕ) (s t : State W P)
      → Succeed cs s t
      → tick_seq host def tick (cs ++ more) s ≡ tick_seq host def tick more t
  unfolding tick_seq
  Succeed-tick_seq [] more s t none_left = refl
  Succeed-tick_seq (c ∷ cs) more s t (then_next e k) =
      rw (e, tick_seq) (Succeed-tick_seq cs more _ t k)

  stop_at :
      (c : ℕ) (rest : List ℕ) (u : State W P) (st : Status) (t : State W P)
      → tick c u ≡ ok (st, t)
      → ¬ (st ≡ success)
      → tick_seq host def tick (c ∷ rest) u ≡ ok (st, t)
  unfolding tick_seq
  stop_at c rest u success t e h = absurd (h refl)
  stop_at c rest u failure t e h = rw (e, tick_seq) refl
  stop_at c rest u running t e h = rw (e, tick_seq) refl

  EndsWith-tick_seq :
      (cs : List ℕ) (s : State W P) (st : Status) (t : State W P)
      → EndsWith cs s st t
      → tick_seq host def tick cs s ≡ ok (st, t)
  unfolding tick_seq
  EndsWith-tick_seq cs s st t (inl (h, k)) =
      ap (λ l. tick_seq host def tick l s) (sym (append-nil cs))
      ∙ Succeed-tick_seq cs [] s t k
      ∙ ap (λ x. ok (x, t)) (sym h)
  EndsWith-tick_seq cs s st t (inr (done, c, rest, u, split, k, ran, h)) =
      ap (λ l. tick_seq host def tick l s) split
      ∙ Succeed-tick_seq done (c ∷ rest) s u k
      ∙ stop_at c rest u st t ran h

  -- A sequence returns success exactly if all its children succeed one after the other, and another
  -- status exactly if that is the status of the first child that does not succeed; that child is the
  -- last one ticked, and the state is the one that the last tick leaves.
  pub tick_seq_iff :
      (cs : List ℕ) (s : State W P) (st : Status) (t : State W P)
      → (tick_seq host def tick cs s ≡ ok (st, t)) ↔ EndsWith cs s st t
  tick_seq_iff cs s st t = (tick_seq-EndsWith cs s st t, EndsWith-tick_seq cs s st t)

  -- The child at `i` returned `st` to the tick that ended in `t`.
  abbrev pub Stopped : List ℕ → ℕ → Status → Type 0
  Stopped cs i st =
      (c : ℕ) × (u v : State W P) × (get_elem? cs i ≡ some c) × (tick c u ≡ ok (st, v))

  -- ... and its index, counted from `i`, is in the memory of `n`.
  abbrev StoppedFrom : Node → ℕ → List ℕ → Status → State W P → Type 0
  StoppedFrom n i cs st t = (k : ℕ) × Stopped cs k st × ((memory_at n.id t).i0 ≡ pos (i + k))

  abbrev mem_seq_next : Node → ℕ → M (State W P) Status → Status → M (State W P) Status
  mem_seq_next n i k st = elim st [
    | running ↦ do modify (set_i0 n.id (pos i)); pure running
    | failure ↦ do modify (set_i0 n.id (pos i)); pure failure
    | success ↦ k
  ]

  stopped_here :
      (n : Node) (i c : ℕ) (cs : List ℕ) (s u : State W P) (st : Status)
      → tick c s ≡ ok (st, u)
      → (t : State W P) → t ≡ set_i0 n.id (pos i) u
      → StoppedFrom n i (c ∷ cs) st t
  stopped_here n i c cs s u st e t e' = (
    0,
    (c, s, u, refl, e),
    ap (λ x. (memory_at n.id x).i0) e'
        ∙ rw (updated_here u.memory n.id (some (record (memory_at n.id u) { i0 = pos i })))
            (ap pos (omega arith)),
  )

  stopped_next :
      (n : Node) (i c : ℕ) (cs : List ℕ) (s u : State W P) (st' : Status) (k : M (State W P) Status)
      (st : Status) (t : State W P)
      → tick c s ≡ ok (st', u)
      → mem_seq_next n i k st' u ≡ ok (st, t)
      → (k u ≡ ok (st, t) → StoppedFrom n (suc i) cs st t)
      → StoppedFrom n i (c ∷ cs) st t
  stopped_next n i c cs s u success k st t e e' later =
      let (j, (c', u', v', at, ran), i0) = later e' in
      (suc j, (c', u', v', at, ran), i0 ∙ ap pos (omega arith))
  stopped_next n i c cs s u failure k st t e e' later =
      let same_end = ok-injective e' in
      subst (λ x. StoppedFrom n i (c ∷ cs) x t) (ap (λ x. x.0) same_end)
        (stopped_here n i c cs s u failure e t (sym (ap (λ x. x.1) same_end)))
  stopped_next n i c cs s u running k st t e e' later =
      let same_end = ok-injective e' in
      subst (λ x. StoppedFrom n i (c ∷ cs) x t) (ap (λ x. x.0) same_end)
        (stopped_here n i c cs s u running e t (sym (ap (λ x. x.1) same_end)))

  mem_seq_loop-stops :
      (n : Node) (i : ℕ) (cs : List ℕ) (s : State W P) (st : Status) (t : State W P)
      → mem_seq_loop host def tick n i cs s ≡ ok (st, t)
      → ¬ (st ≡ success)
      → StoppedFrom n i cs st t
  unfolding mem_seq_loop
  mem_seq_loop-stops n i [] s st t e unfinished =
      let (x, e₁, e₂) =
        >>=-eq-ok
          (halt_all_children host def (codes "mem-seq complete") n.children (set_i0 n.id (pos 0) s))
          _ e in
      absurd (unfinished (sym (ap (λ x. x.0) (ok-injective e₂))))
  mem_seq_loop-stops n i (c ∷ cs) s st t e unfinished =
      let ((st', u), e₁, e₂) =
        >>=-eq-ok (tick c s)
          (λ (x : Status × State W P).
            mem_seq_next n i (mem_seq_loop host def tick n (suc i) cs) x.0 x.1)
          e in
      stopped_next n i c cs s u st' (mem_seq_loop host def tick n (suc i) cs) st t e₁ e₂
        λ e₃. mem_seq_loop-stops n (suc i) cs u st t e₃ unfinished

  get_elem?-drop : (k i : ℕ) (cs : List ℕ) → get_elem? (drop k cs) i ≡ get_elem? cs (k + i)
  get_elem?-drop zero i cs = ap (get_elem? cs) {x = i} {y = 0 + i} (omega arith)
  get_elem?-drop (suc k) i [] = refl
  get_elem?-drop (suc k) i (c ∷ cs) =
      get_elem?-drop k i cs
      ∙ ap (get_elem? (c ∷ cs)) {x = suc (k + i)} {y = suc k + i} (omega arith)

  get_elem?-in_range : (cs : List ℕ) (i : ℕ) {c : ℕ} → get_elem? cs i ≡ some c → i < length cs
  get_elem?-in_range [] i e = cc
  get_elem?-in_range (x ∷ cs) zero e = omega arith
  get_elem?-in_range (x ∷ cs) (suc i) e = omega (arith, get_elem?-in_range cs i e)

  clamp-in_range : (n : Node) (i : ℕ) → i < length n.children → clamp_child_index n (pos i) ≡ i
  unfolding clamp_child_index
  clamp-in_range n i h = rw (lt→ltb i (length n.children) h) refl

  -- When `mem-seq` does not succeed, its status is that of one of its children, and the next tick
  -- begins with that child.
  pub tick_mem_seq-resumes :
      (n : Node) (s : State W P) (st : Status) (t : State W P)
      → tick_mem_seq host def tick n s ≡ ok (st, t)
      → ¬ (st ≡ success)
      → Stopped n.children (clamp_child_index n (memory_at n.id t).i0) st
  unfolding tick_mem_seq clamp_child_index
  tick_mem_seq-resumes n s st t e unfinished =
      let first = clamp_child_index n (memory_at n.id s).i0 in
      let (k, (c, u, v, at, ran), i0) =
        mem_seq_loop-stops n first (drop first n.children) _ st t e unfinished in
      let at' = sym (get_elem?-drop first k n.children) ∙ at in
      subst (λ i. Stopped n.children i st)
        (sym
          (ap (clamp_child_index n) i0 ∙ clamp-in_range n _ (get_elem?-in_range n.children _ at')))
        (c, u, v, at', ran)
