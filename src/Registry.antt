-- ===== src/Registry.antt =====
-- The registered callbacks (src/bt/registry.cpp, include/bt/registry.hpp): conditions of type `C`,
-- actions of type `A` and the halt hooks of actions of type `H`. A hook that is given is a function that
-- can be called.
use muesli_bt.Common.{
  ◌≡◌, refl, ap, ◌∙◌, Bool-cases, inl, inr, Option, none, some, [], if◌then◌else◌, Text, text_eq,
  text_eq→eq,
}
use muesli_bt.Maps.{Map, find, insert, erase, find-inserted, find-erase, find-erase_other}

-- The hook of a name, or none.
abbrev pub set_halt : {H : Type 0} → Text → Option H → Map H → Map H
set_halt name (some halt) halts = insert name halt halts
set_halt name none halts = erase name halts

pub record Registry (C A H : Type 0) : Type 0 where
  pub conditions : Map C
  pub actions : Map A
  pub action_halts : Map H

module _ {C A H : Type 0} where
  abbrev pub new_registry : Registry C A H
  new_registry = record { conditions = []; actions = []; action_halts = [] }

  unfoldable pub register_condition : Text → C → Registry C A H → Registry C A H
  unfolding insert
  register_condition name fn r = record r { conditions = insert name fn r.conditions }

  unfoldable pub register_action : Text → A → Option H → Registry C A H → Registry C A H
  unfolding insert
  register_action name fn halt r = record r {
    action_halts = set_halt name halt r.action_halts;
    actions = insert name fn r.actions;
  }

  unfoldable pub clear : Registry C A H → Registry C A H
  clear r = new_registry

  unfoldable pub find_condition : Text → Registry C A H → Option C
  unfolding find
  find_condition name r = find name r.conditions

  unfoldable pub find_action : Text → Registry C A H → Option A
  unfolding find
  find_action name r = find name r.actions

  unfoldable pub find_action_halt : Text → Registry C A H → Option H
  unfolding find
  find_action_halt name r = find name r.action_halts

module _ {V : Type 0} where
  find_set :
      (key other : Text) (value : Option V) (m : Map V)
      → find other (set_halt key value m) ≡ (if text_eq key other then value else find other m)
  find_set key other (some value) m = find-inserted key other value m
  find_set key other none m = elim (Bool-cases (text_eq key other)) [
    | inl h ↦ rw h (ap (λ k. find other (erase k m)) (text_eq→eq key other h) ∙ find-erase other m)
    | inr h ↦ rw h (find-erase_other key other m h)
  ]

module _ {C A H : Type 0} where
  -- Registering an action replaces the function and the halt hook of that name, of which there is none
  -- left if none is given, and leaves those of every other name and all conditions as they were.
  pub find-register_action :
      (name other : Text) (fn : A) (halt : Option H) (r : Registry C A H)
      → (find_action other (register_action name fn halt r)
          ≡ (if text_eq name other then some fn else find_action other r))
        × (find_action_halt other (register_action name fn halt r)
            ≡ (if text_eq name other then halt else find_action_halt other r))
        × (find_condition other (register_action name fn halt r) ≡ find_condition other r)
  unfolding register_action find_action find_action_halt find_condition
  find-register_action name other fn halt r =
      (find-inserted name other fn r.actions, find_set name other halt r.action_halts, refl)
