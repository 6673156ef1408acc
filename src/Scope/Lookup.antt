-- ===== src/Scope/Lookup.antt =====
-- What looking up a name in an environment finds, and what a definition changes.
use muesli_bt.Common.{
  ℕ, zero, suc, ◌+◌, ◌<◌, ◌≡◌, refl, sym, subst, ◌∙◌, ap, ◌⊎◌, inl, inr, Option, none, some, List,
  [], ◌∷◌, ◌++◌, length, get_elem?, get_elem?-lt, AllFrom, AllFrom-append, AllFrom-get_elem?,
  Option-cases, false, Text, text_eq, codes, Result, ok, err, ok-injective, arith,
}
use muesli_bt.Maps.{find, find-insert, find-insert_other}
use muesli_bt.Scope.{
  Env, LispError, name_error, make_env, bind_in, define, or_next, visit, lookup_from, lookup,
}

-- A parent is made before its children.
abbrev pub IsOlder : Option ℕ → ℕ → Type 0
IsOlder none i = Unit
IsOlder (some p) i = p < i

module _ {V : Type 0} where
  abbrev pub IsTree : List (Env V) → Type 0
  IsTree envs = AllFrom (λ i e. IsOlder e.parent i) 0 envs

  pub make_env-IsTree :
      (parent : Option ℕ) (envs : List (Env V))
      → IsOlder parent (length envs)
      → IsTree envs
      → IsTree ((make_env parent envs).1)
  unfolding make_env
  make_env-IsTree parent envs h k =
      AllFrom-append (λ i e. IsOlder e.parent i) 0 envs _ k (older parent (length envs) h)
    where
      older : (p : Option ℕ) (i : ℕ) → IsOlder p i → IsOlder p (0 + i)
      older none i h = tt
      older (some p) i h = omega (arith, h)

  -- `name` means `value` in the environment `i`, or in the nearest one above it that binds the name.
  pub data Sees (envs : List (Env V)) (name : Text) : ℕ → V → Type 0 where
    here :
        {i : ℕ} {e : Env V} {value : V}
        → get_elem? envs i ≡ some e
        → find name e.bindings ≡ some value
        → Sees envs name i value
    above :
        {i p : ℕ} {e : Env V} {value : V}
        → get_elem? envs i ≡ some e
        → find name e.bindings ≡ none
        → e.parent ≡ some p
        → Sees envs name p value
        → Sees envs name i value

  -- How looking up ends.
  abbrev pub Ends : List (Env V) → Text → ℕ → Result LispError V → Type 0
  Ends envs name i r =
      ((value : V) × (r ≡ ok value) × Sees envs name i value)
      ⊎ ((r ≡ err (name_error (codes "unbound symbol: " ++ name)))
          × ((value : V) → ¬ Sees envs name i value))

  -- Below an environment that does not bind the name, its parent's meaning is the only one.
  Sees-above :
      (envs : List (Env V)) (name : Text) (i : ℕ) (e : Env V)
      → get_elem? envs i ≡ some e
      → find name e.bindings ≡ none
      → (value : V) → Sees envs name i value
      → (p : ℕ) × (e.parent ≡ some p) × Sees envs name p value
  Sees-above envs name i e a b value (here {e = d} at found) =
      let same : some e ≡ some d = sym a ∙ at in cc
  Sees-above envs name i e a b value (above {p = p} {e = d} at missing up s) =
      let same : some e ≡ some d = sym a ∙ at in
      let is_same : e ≡ d = cc in (p, ap (λ x. x.parent) is_same ∙ up, s)

  Ends-above :
      (envs : List (Env V)) (name : Text) (i p : ℕ) (e : Env V)
      → get_elem? envs i ≡ some e
      → find name e.bindings ≡ none
      → e.parent ≡ some p
      → (r : Result LispError V) → Ends envs name p r
      → Ends envs name i r
  Ends-above envs name i p e a b c r (inl (value, h, s)) = inl (value, h, above a b c s)
  Ends-above envs name i p e a b c r (inr h) =
      inr (h.0, λ value s. unseen value (Sees-above envs name i e a b value s))
    where
      unseen : (value : V) → (q : ℕ) × (e.parent ≡ some q) × Sees envs name q value → ⊥
      unseen value (q, up, s) =
          let same : some p ≡ some q = sym c ∙ up in
          let is_same : q ≡ p = cc in h.1 value (subst (λ k. Sees envs name k value) is_same s)

  module _ (envs : List (Env V)) (name : Text) (fuel i : ℕ) (e : Env V)
      (at : get_elem? envs i ≡ some e)
      (rec : (p : ℕ) → p < i → Ends envs name p (lookup_from fuel (some p) name envs)) where
    parent-Ends :
        find name e.bindings ≡ none
        → (parent : Option ℕ) → e.parent ≡ parent
        → IsOlder parent (0 + i)
        → Ends envs name i (lookup_from fuel parent name envs)
    unfolding lookup_from
    parent-Ends missing none up older = inr (
      refl,
      λ value s.
          let (p, is_some, _) = Sees-above envs name i e at missing value s in
          let clash : none ≡ some p = sym up ∙ is_some in cc,
    )
    parent-Ends missing (some p) up older =
        Ends-above envs name i p e at missing up _ (rec p (omega (arith, older)))

    visit-Ends :
        IsOlder e.parent (0 + i) → Ends envs name i (lookup_from (suc fuel) (some i) name envs)
    unfolding lookup_from
    visit-Ends older = elim (Option-cases (find name e.bindings)) [
      | inl missing ↦ rw (at, missing) (parent-Ends missing e.parent refl older)
      | inr (value, found) ↦ rw (at, found) (inl (value, refl, here at found))
    ]

  lookup_from-Ends :
      (envs : List (Env V)) (name : Text)
      → IsTree envs
      → (fuel i : ℕ) → i < fuel
      → i < length envs
      → Ends envs name i (lookup_from fuel (some i) name envs)
  lookup_from-Ends envs name tree zero i h k = absurd (omega (arith, h))
  lookup_from-Ends envs name tree (suc fuel) i h k =
      let (e, at) = get_elem?-lt envs i k in
      visit-Ends envs name fuel i e at
        (λ p less. lookup_from-Ends envs name tree fuel p (omega arith) (omega arith))
        (AllFrom-get_elem? (λ i e. IsOlder e.parent i) 0 i envs tree at)

  -- Looking up a name in an environment ends. It gives the value that the nearest environment above
  -- gives the name, and the error says that there is none.
  pub lookup-Ends :
      (envs : List (Env V)) (name : Text) (i : ℕ)
      → IsTree envs
      → i < length envs
      → Ends envs name i (lookup (some i) name envs)
  unfolding lookup
  lookup-Ends envs name i tree h = lookup_from-Ends envs name tree (length envs) i h h

  length-bind_in :
      (name : Text) (value : V) (scope : ℕ) (envs : List (Env V))
      → length (bind_in name value scope envs) ≡ length envs
  unfolding bind_in
  length-bind_in name value scope [] = refl
  length-bind_in name value zero (e ∷ envs) = refl
  length-bind_in name value (suc scope) (e ∷ envs) = ap suc (length-bind_in name value scope envs)

  -- Another name is looked up alike in every environment.
  visit-bind_in :
      (name other : Text) (value : V)
      → text_eq name other ≡ false
      → (scope cursor : ℕ) (envs : List (Env V)) (next : Option ℕ → Result LispError V)
      → visit other (get_elem? (bind_in name value scope envs) cursor) next
        ≡ visit other (get_elem? envs cursor) next
  unfolding bind_in
  visit-bind_in name other value h scope cursor [] next = refl
  visit-bind_in name other value h zero zero (e ∷ envs) next =
      ap (λ f. or_next f e.parent next) (find-insert_other name other value e.bindings h)
  visit-bind_in name other value h zero (suc cursor) (e ∷ envs) next = refl
  visit-bind_in name other value h (suc scope) zero (e ∷ envs) next = refl
  visit-bind_in name other value h (suc scope) (suc cursor) (e ∷ envs) next =
      visit-bind_in name other value h scope cursor envs next

  visit-next :
      (name : Text) (e : Option (Env V)) (f g : Option ℕ → Result LispError V)
      → ((p : Option ℕ) → f p ≡ g p)
      → visit name e f ≡ visit name e g
  visit-next name none f g h = refl
  visit-next name (some e) f g h = by_found (find name e.bindings)
    where
      by_found : (v : Option V) → or_next v e.parent f ≡ or_next v e.parent g
      by_found none = h e.parent
      by_found (some v) = refl

  lookup_from-other :
      (name other : Text) (value : V) (scope : ℕ) (envs : List (Env V))
      → text_eq name other ≡ false
      → (fuel : ℕ) (cursor : Option ℕ)
      → lookup_from fuel cursor other (bind_in name value scope envs)
        ≡ lookup_from fuel cursor other envs
  unfolding lookup_from
  lookup_from-other name other value scope envs h zero none = refl
  lookup_from-other name other value scope envs h (suc fuel) none = refl
  lookup_from-other name other value scope envs h zero (some cursor) = refl
  lookup_from-other name other value scope envs h (suc fuel) (some cursor) =
      visit-bind_in name other value h scope cursor envs _
      ∙ visit-next other (get_elem? envs cursor) _ _
          (lookup_from-other name other value scope envs h fuel)

  visit-same :
      (name : Text) (value : V) (scope : ℕ) (envs : List (Env V))
      → scope < length envs
      → (next : Option ℕ → Result LispError V)
      → visit name (get_elem? (bind_in name value scope envs) scope) next ≡ ok value
  unfolding bind_in
  visit-same name value scope [] h next = absurd (omega (arith, h))
  visit-same name value zero (e ∷ envs) h next =
      ap (λ f. or_next f e.parent next) (find-insert name value e.bindings)
  visit-same name value (suc scope) (e ∷ envs) h next =
      visit-same name value scope envs (omega (arith, h)) next

  lookup_from-same :
      (name : Text) (value : V) (scope fuel : ℕ) (envs : List (Env V))
      → 0 < fuel
      → scope < length envs
      → lookup_from fuel (some scope) name (bind_in name value scope envs) ≡ ok value
  unfolding lookup_from
  lookup_from-same name value scope zero envs some_fuel h = absurd (omega (arith, some_fuel))
  lookup_from-same name value scope (suc fuel) envs some_fuel h =
      visit-same name value scope envs h _

  bound :
      (name : Text) (value : V) (scope : ℕ) (envs envs' : List (Env V))
      → define (some scope) name value envs ≡ ok envs'
      → bind_in name value scope envs ≡ envs'
  unfolding define
  bound name value scope envs envs' made = ok-injective made

  Defines : Text → V → ℕ → List (Env V) → List (Env V) → Type 0
  Defines name value scope envs envs' =
      (lookup (some scope) name envs' ≡ ok value)
      × ((other : Text) (cursor : Option ℕ)
          → text_eq name other ≡ false
          → lookup cursor other envs' ≡ lookup cursor other envs)

  bind_in-Defines :
      (name : Text) (value : V) (scope : ℕ) (envs : List (Env V))
      → scope < length envs
      → Defines name value scope envs (bind_in name value scope envs)
  unfolding Defines lookup
  bind_in-Defines name value scope envs h =
      let size = length-bind_in name value scope envs in
      (
        lookup_from-same name value scope (length (bind_in name value scope envs)) envs
            (omega (arith, size, h)) h,
        λ other cursor apart.
            ap (λ n. lookup_from n cursor other (bind_in name value scope envs)) size
            ∙ lookup_from-other name other value scope envs apart (length envs) cursor,
      )

  -- After a definition in an environment, the name has the value there, and every other name has in
  -- every environment the value that it had.
  pub lookup-define :
      (name : Text) (value : V) (scope : ℕ) (envs envs' : List (Env V))
      → scope < length envs
      → define (some scope) name value envs ≡ ok envs'
      → (lookup (some scope) name envs' ≡ ok value)
        × ((other : Text) (cursor : Option ℕ)
            → text_eq name other ≡ false
            → lookup cursor other envs' ≡ lookup cursor other envs)
  unfolding Defines
  lookup-define name value scope envs envs' h made =
      subst (Defines name value scope envs) (bound name value scope envs envs' made)
        (bind_in-Defines name value scope envs h)
