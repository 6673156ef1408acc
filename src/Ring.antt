-- ===== src/Ring.antt =====
-- The bounded buffers of trace events and of log records: `trace_buffer` (src/bt/trace.cpp,
-- include/bt/trace.hpp) and `memory_log_sink` (src/bt/logging.cpp, include/bt/logging.hpp), which are
-- written alike. An event of type `A` stands with its sequence number, oldest first.
use muesli_bt.Common.{
  ℕ, zero, suc, ◌+◌, ◌-◌, ◌≤◌, ◌<◌, ◌≡◌, refl, sym, ◌∙◌, ap, ◌⊎◌, inl, inr, false, append-nil,
  append_assoc, Bool-cases, List, [], ◌∷◌, ◌++◌, length, length-append, drop, ◌==◌, ==→eq,
  if◌then◌else◌, arith,
}

pub record Ring (A : Type 0) : Type 0 where
  pub capacity : ℕ
  pub events : List (ℕ × A)
  pub sequence : ℕ

module _ {A : Type 0} where
  abbrev pub new_ring : ℕ → Ring A
  new_ring capacity = record { capacity = capacity; events = []; sequence = 0 }

  abbrev make_room : ℕ → List (ℕ × A) → List (ℕ × A)
  make_room capacity events = if length events == capacity then drop 1 events else events

  -- `trace_buffer::push` and `memory_log_sink::write`.
  unfoldable pub push : A → Ring A → Ring A
  push ev r =
      let number = suc r.sequence in
      if r.capacity == 0 then record r { sequence = number } else record r {
        sequence = number;
        events = make_room r.capacity r.events ++ (number, ev) ∷ [];
      }

  unfoldable pub snapshot : Ring A → List (ℕ × A)
  snapshot r = r.events

  unfoldable pub size : Ring A → ℕ
  size r = length r.events

  -- The sequence goes on.
  unfoldable pub clear : Ring A → Ring A
  clear r = record r { events = [] }

  abbrev pub push_all : List A → Ring A → Ring A
  push_all [] r = r
  push_all (x ∷ xs) r = push_all xs (push x r)

  -- Events with their numbers, from `suc n` on.
  abbrev pub numbered_from : ℕ → List A → List (ℕ × A)
  numbered_from n [] = []
  numbered_from n (x ∷ xs) = (suc n, x) ∷ numbered_from (suc n) xs

  length-numbered : (n : ℕ) (xs : List A) → length (numbered_from n xs) ≡ length xs
  length-numbered n [] = refl
  length-numbered n (x ∷ xs) = ap suc (length-numbered (suc n) xs)

  numbered-append :
      (n : ℕ) (xs : List A) (x : A)
      → numbered_from n (xs ++ x ∷ []) ≡ numbered_from n xs ++ (suc (n + length xs), x) ∷ []
  numbered-append n [] x = ap (λ k. (k, x) ∷ []) (omega arith)
  numbered-append n (y ∷ xs) x =
      ap (λ l. (suc n, y) ∷ l)
        (numbered-append (suc n) xs x
          ∙ ap (λ k. numbered_from (suc n) xs ++ (k, x) ∷ []) (omega arith))

-- The last `n` of a list.
abbrev pub last_of : {B : Type 0} → ℕ → List B → List B
last_of n l = drop (length l - n) l

module _ {B : Type 0} where
  drop-append : (k : ℕ) (l m : List B) → k ≤ length l → drop k (l ++ m) ≡ drop k l ++ m
  drop-append zero l m h = refl
  drop-append (suc k) [] m h = absurd (omega (arith, h))
  drop-append (suc k) (x ∷ l) m h = drop-append k l m (omega (arith, h))

  drop-drop : (k : ℕ) (l : List B) → drop 1 (drop k l) ≡ drop (suc k) l
  drop-drop zero l = refl
  drop-drop (suc k) [] = refl
  drop-drop (suc k) (x ∷ l) = drop-drop k l

  pub length-drop : (k : ℕ) (l : List B) → length (drop k l) ≡ length l - k
  length-drop zero l = omega arith
  length-drop (suc k) [] = omega arith
  length-drop (suc k) (x ∷ l) = omega (arith, length-drop k l)

  drop-nil : (k : ℕ) → ◌≡◌ {A = List B} (drop k []) []
  drop-nil zero = refl
  drop-nil (suc k) = refl

  pub drop-all : (k : ℕ) (l : List B) → length l ≤ k → drop k l ≡ []
  drop-all zero [] h = refl
  drop-all zero (x ∷ l) h = absurd (omega (arith, h))
  drop-all (suc k) [] h = refl
  drop-all (suc k) (x ∷ l) h = drop-all k l (omega (arith, h))

  -- One more element, for which room is made.
  pub last_of-append :
      (n : ℕ) (l : List B) (x : B)
      → 0 < n
      → (if length (last_of n l) == n then drop 1 (last_of n l) else last_of n l) ++ x ∷ []
        ≡ last_of n (l ++ x ∷ [])
  last_of-append n l x h =
      let k = length l - n in
      let longer = length-append l (x ∷ []) in
      let left = length-drop k l in
      elim (Bool-cases (length (last_of n l) == n)) [
        | inl e ↦
            let full = ==→eq (length (last_of n l)) n e in
            rw e (
              ap (λ m. m ++ x ∷ []) (drop-drop k l)
              ∙ sym (drop-append (suc k) l (x ∷ []) (omega (arith, full, left, h)))
              ∙ ap (λ i. drop i (l ++ x ∷ [])) {x = suc k} {y = length (l ++ x ∷ []) - n}
                  (omega (arith, full, left, h, longer)))
        | inr e ↦ rw e (
            sym (drop-append k l (x ∷ []) (omega arith))
            ∙ ap (λ i. drop i (l ++ x ∷ [])) {x = k} {y = length (l ++ x ∷ []) - n}
                (omega (arith, not_full (length (last_of n l)) n e, left, longer)))
      ]
    where
      not_full : (a b : ℕ) → (a == b) ≡ false → (a < b) ⊎ (b < a)
      not_full a b e = ground arith

module _ {A : Type 0} where
  -- What a buffer of this capacity holds after the events `all`.
  abbrev expected : ℕ → List A → Ring A
  expected capacity all = record {
    capacity = capacity;
    events = last_of capacity (numbered_from 0 all);
    sequence = length all;
  }

  push-expected :
      (capacity : ℕ) (all : List A) (x : A)
      → push x (expected capacity all) ≡ expected capacity (all ++ x ∷ [])
  unfolding push
  push-expected capacity all x =
      let grown = numbered-append 0 all x in
      let number : length (all ++ x ∷ []) ≡ suc (length all) =
        omega (arith, length-append all (x ∷ [])) in
      elim (Bool-cases (capacity == 0)) [
        | inl e ↦
            let zero_capacity = ==→eq capacity 0 e in
            rw (e, push)
              (same_ring capacity _ _ _ _
                (none_left capacity (numbered_from 0 all) zero_capacity
                  ∙ sym (none_left capacity (numbered_from 0 (all ++ x ∷ [])) zero_capacity))
                (sym number))
        | inr e ↦
            rw (e, push)
              (same_ring capacity _ _ _ _
                (ap
                    (λ i.
                      make_room capacity (last_of capacity (numbered_from 0 all)) ++ (i, x) ∷ [])
                    {x = suc (length all)} {y = suc (0 + length all)} (omega arith)
                  ∙ last_of-append capacity (numbered_from 0 all) (suc (0 + length all), x)
                      (positive capacity e)
                  ∙ ap (last_of capacity) (sym grown))
                (sym number))
      ]
    where
      same_ring :
          (c : ℕ) (l l' : List (ℕ × A)) (n n' : ℕ)
          → l ≡ l'
          → n ≡ n'
          → ◌≡◌ {A = Ring A}
              (record { capacity = c; events = l; sequence = n })
              (record { capacity = c; events = l'; sequence = n' })
      same_ring c l l' n n' e e' =
          ap (λ k. record { capacity = c; events = k; sequence = n }) e
          ∙ ap (λ k. record { capacity = c; events = l'; sequence = k }) e'

      none_left : (c : ℕ) (l : List (ℕ × A)) → c ≡ 0 → last_of c l ≡ []
      none_left c l e = drop-all (length l - c) l (omega (arith, e))

      positive : (c : ℕ) → (c == 0) ≡ false → 0 < c
      positive c e = ground arith

  push_all-expected :
      (capacity : ℕ) (all xs : List A)
      → push_all xs (expected capacity all) ≡ expected capacity (all ++ xs)
  push_all-expected capacity all [] = ap (expected capacity) (sym (append-nil all))
  push_all-expected capacity all (x ∷ xs) =
      ap (push_all xs) (push-expected capacity all x)
      ∙ push_all-expected capacity (all ++ x ∷ []) xs
      ∙ ap (expected capacity) (append_assoc all (x ∷ []) xs)

  -- A new buffer to which the events `xs` are pushed holds the last of them, as many as its capacity
  -- allows, each with its number, and counts them all.
  pub push_all-last :
      (capacity : ℕ) (xs : List A)
      → (snapshot (push_all xs (new_ring capacity)) ≡ last_of capacity (numbered_from 0 xs))
        × ((push_all xs (new_ring capacity)).sequence ≡ length xs)
  unfolding snapshot
  push_all-last capacity xs =
      let empty =
        ap (λ l. record { capacity = capacity; events = l; sequence = 0 })
          (sym (drop-nil (0 - capacity))) in
      let e = ap (push_all xs) empty ∙ push_all-expected capacity [] xs in
      (ap (λ r. r.events) e, ap (λ r. r.sequence) e)
