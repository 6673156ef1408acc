-- ===== src/Scope.antt =====
-- The environments of the Lisp evaluator (src/env.cpp): `make_env`, `define` and `lookup`. An
-- environment is named by its place in the list of all that were made, and `V` is the type of values.
-- The collector, which may free an environment that nothing reaches, is modelled in Gc.
pub mod Lookup
use muesli_bt.Common.{
  ℕ, zero, suc, ◌+◌, ◌≤◌, ◌<◌, ◌≡◌, ◌≢◌, refl, sym, subst, ◌∙◌, ap, ◌⊎◌, inl, inr, Option, none,
  some, List, [], ◌∷◌, ◌++◌, length, get_elem?, get_elem?-lt, AllFrom, AllFrom-append,
  AllFrom-get_elem?, Option-cases, Bool, false, Text, text_eq, codes, Result, ok, err, ok-injective,
  arith,
}
use muesli_bt.Maps.{Map, find, insert, find-insert, find-insert_other}

pub record Env (V : Type 0) : Type 0 where
  pub parent : Option ℕ
  pub bindings : Map V

pub data LispError : Type 0 where
  lisp_error : Text → LispError
  name_error : Text → LispError
  out_of_fuel : LispError

module _ {V : Type 0} where
  -- The environment made, and all with it.
  unfoldable pub make_env : Option ℕ → List (Env V) → ℕ × List (Env V)
  make_env parent envs = (length envs, envs ++ (record { parent = parent; bindings = [] }) ∷ [])

  unfoldable pub bind_in : Text → V → ℕ → List (Env V) → List (Env V)
  unfolding insert
  bind_in name value scope [] = []
  bind_in name value zero (e ∷ envs) = record e { bindings = insert name value e.bindings } ∷ envs
  bind_in name value (suc scope) (e ∷ envs) = e ∷ bind_in name value scope envs

  unfoldable pub define : Option ℕ → Text → V → List (Env V) → Result LispError (List (Env V))
  unfolding bind_in
  define none name value envs = err (lisp_error (codes "define: null environment"))
  define (some scope) name value envs = ok (bind_in name value scope envs)

  -- One environment of the loop of `lookup`: `next` goes on at its parent.
  abbrev pub or_next : Option V → Option ℕ → (Option ℕ → Result LispError V) → Result LispError V
  or_next (some value) parent next = ok value
  or_next none parent next = next parent

  abbrev pub visit : Text → Option (Env V) → (Option ℕ → Result LispError V) → Result LispError V
  visit name none next = err out_of_fuel
  visit name (some e) next = or_next (find name e.bindings) e.parent next

  unfoldable pub lookup_from : ℕ → Option ℕ → Text → List (Env V) → Result LispError V
  lookup_from fuel none name envs = err (name_error (codes "unbound symbol: " ++ name))
  lookup_from zero (some cursor) name envs = err out_of_fuel
  lookup_from (suc fuel) (some cursor) name envs =
      visit name (get_elem? envs cursor) (λ parent. lookup_from fuel parent name envs)

  -- A chain of parents has no more environments than there are.
  unfoldable pub lookup : Option ℕ → Text → List (Env V) → Result LispError V
  unfolding lookup_from
  lookup scope name envs = lookup_from (length envs) scope name envs
