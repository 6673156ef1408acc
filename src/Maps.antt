-- ===== src/Maps.antt =====
-- `std::unordered_map` with text keys: an association list without duplicate keys, in no order that
-- the code relies on.
use muesli_bt.Common.{
  ◌≡◌, refl, ◌∙◌, ap, false, Bool-cases, inl, inr, Option, none, some, List, [], ◌∷◌, if◌then◌else◌,
  Text, text_eq, text_eq→eq, text_eq_refl,
}

abbrev pub Map : Type 0 → Type 0
Map V = List (Text × V)

module _ {V : Type 0} where
  unfoldable pub find : Text → Map V → Option V
  find key [] = none
  find key ((k, v) ∷ m) = if text_eq k key then some v else find key m

  -- `m[key] = value`.
  unfoldable pub insert : Text → V → Map V → Map V
  insert key value [] = (key, value) ∷ []
  insert key value ((k, v) ∷ m) =
      let rest = insert key value m in if text_eq k key then (k, value) ∷ m else (k, v) ∷ rest

  unfoldable pub erase : Text → Map V → Map V
  erase key [] = []
  erase key ((k, v) ∷ m) = let rest = erase key m in if text_eq k key then rest else (k, v) ∷ rest

  pub find-insert :
      (key : Text) (value : V) (m : Map V) → find key (insert key value m) ≡ some value
  unfolding find insert
  find-insert key value [] = rw (text_eq_refl key) refl
  find-insert key value ((k, v) ∷ m) = elim (Bool-cases (text_eq k key)) [
    | inl e ↦ rw (e, e) refl
    | inr e ↦ rw (e, e) (find-insert key value m)
  ]

  -- Another key.
  pub find-insert_other :
      (key other : Text) (value : V) (m : Map V)
      → text_eq key other ≡ false
      → find other (insert key value m) ≡ find other m
  unfolding find insert
  find-insert_other key other value [] h = rw h refl
  find-insert_other key other value ((k, v) ∷ m) h = elim (Bool-cases (text_eq k key)) [
    | inl e ↦
        let same = text_eq→eq k key e in
        let differs : text_eq k other ≡ false = ap (λ t. text_eq t other) same ∙ h in
        rw (e, differs) refl
    | inr e ↦
        rw e
          (ap (λ r. if text_eq k other then some v else r) (find-insert_other key other value m h))
  ]

  pub find-inserted :
      (key other : Text) (value : V) (m : Map V)
      → find other (insert key value m) ≡ (if text_eq key other then some value else find other m)
  find-inserted key other value m = elim (Bool-cases (text_eq key other)) [
    | inl h ↦ rw h (
        ap (λ k. find other (insert k value m)) (text_eq→eq key other h)
        ∙ find-insert other value m)
    | inr h ↦ rw h (find-insert_other key other value m h)
  ]

  pub find-erase : (key : Text) (m : Map V) → find key (erase key m) ≡ none
  unfolding find erase
  find-erase key [] = refl
  find-erase key ((k, v) ∷ m) = elim (Bool-cases (text_eq k key)) [
    | inl e ↦ rw e (find-erase key m)
    | inr e ↦ rw (e, e) (find-erase key m)
  ]

  pub find-erase_other :
      (key other : Text) (m : Map V)
      → text_eq key other ≡ false
      → find other (erase key m) ≡ find other m
  unfolding find erase
  find-erase_other key other [] h = refl
  find-erase_other key other ((k, v) ∷ m) h = elim (Bool-cases (text_eq k key)) [
    | inl e ↦
        let differs : text_eq k other ≡ false =
          ap (λ t. text_eq t other) (text_eq→eq k key e) ∙ h in
        rw (e, differs) (find-erase_other key other m h)
    | inr e ↦
        rw e (ap (λ r. if text_eq k other then some v else r) (find-erase_other key other m h))
  ]
