-- ===== src/Examples/Heaps.antt =====
-- A heap with a cycle and environments, and the theorems applied to them.
use muesli_bt.Common.{
  ℕ, ◌≡◌, refl, true, false, Option, none, some, List, [], ◌∷◌, codes, Text, text_eq, ok, arith,
}
use muesli_bt.Registry.{
  Registry, register_action, find_action, find_action_halt, find_condition, find-register_action,
}
use muesli_bt.Scope.{Env, bind_in, define, lookup}
use muesli_bt.Scope.Lookup.{IsTree, Ends, lookup-Ends, lookup-define}
use muesli_bt.Gc.Heap.{GcNode, node_at}
use muesli_bt.Gc.Marking.{IsPresent}
use muesli_bt.Gc.Sweeping.{Survives}
use muesli_bt.Gc.Collector.{
  Gc, GcPolicy, new_gc, Surroundings, CollectionReason, roots_of, collect_impl, collect, link_node,
  enter_tick, scope_add, in_tick, request_collection,
}
use muesli_bt.Gc.Collection.{IsClosed, nodes-IsClosed, collect_impl-IsClosed}
use muesli_bt.Gc.Steps.{
  allocates, scope_adds, requests, IsReachable, initial, later, IsAccounted,
  IsReachable-IsAccounted,
}
use muesli_bt.Gc.Ticks.{WithinTick, here, then_step, collect-Survives, WithinTick-keeps}

abbrev global : Env ℕ
global = record { parent = none; bindings = (codes "x", 1) ∷ (codes "y", 2) ∷ [] }

abbrev envs : List (Env ℕ)
envs = global ∷ record { parent = some 0; bindings = (codes "x", 3) ∷ [] } ∷ []

abbrev envs_are_tree : IsTree envs
envs_are_tree = (tt, (omega arith, tt))

lookup-Ends_example : Ends envs (codes "y") 1 (lookup (some 1) (codes "y") envs)
lookup-Ends_example = lookup-Ends envs (codes "y") 1 envs_are_tree (omega arith)

abbrev defined : List (Env ℕ)
defined = bind_in (codes "y") 4 1 envs

is_defined : define (some 1) (codes "y") 4 envs ≡ ok defined
unfolding define
is_defined = refl

lookup-define_example :
    (lookup (some 1) (codes "y") defined ≡ ok 4)
    × ((other : Text) (cursor : Option ℕ)
        → text_eq (codes "y") other ≡ false
        → lookup cursor other defined ≡ lookup cursor other envs)
lookup-define_example = lookup-define (codes "y") 4 1 envs defined (omega arith) is_defined

-- Two nodes that point to each other, one of which a variable points to, and a third.
abbrev node : ℕ → List ℕ → GcNode
node a children = record { address = a; children = children; size_bytes = 16; marked = false }

abbrev surroundings : Surroundings
surroundings = record {
  variable = λ slot. some 1;
  interned_symbols = [];
  mark_ns = 1;
  sweep_ns = 1;
  pause_ns = 3;
}

abbrev gc : Gc
gc =
    scope_add (some 0) (
      link_node (node 1 (2 ∷ []))
        (link_node (node 2 (1 ∷ [])) (link_node (node 3 (1 ∷ [])) new_gc)))

gc_reached : IsReachable gc
unfolding link_node node_at
gc_reached =
    later
      (later
        (later (later initial (allocates (node 3 (1 ∷ [])) refl refl))
          (allocates (node 2 (1 ∷ [])) refl refl))
        (allocates (node 1 (2 ∷ [])) refl refl))
      (scope_adds (some 0))

IsReachable-IsAccounted_example : IsAccounted gc
IsReachable-IsAccounted_example = IsReachable-IsAccounted gc gc_reached

abbrev collected_gc : Gc
collected_gc = collect_impl surroundings CollectionReason.forced true gc

is_collected : collect surroundings gc ≡ ok collected_gc
unfolding collect scope_add link_node in_tick
is_collected = refl

collect-Survives_example : Survives (roots_of surroundings gc) gc.heap collected_gc.heap 3
collect-Survives_example = collect-Survives surroundings gc collected_gc 3 gc_reached is_collected

gc-IsClosed : IsClosed (roots_of surroundings gc) gc.heap
unfolding scope_add link_node node_at
gc-IsClosed =
    nodes-IsClosed (roots_of surroundings gc) gc.heap (refl, tt)
      ((refl, tt), ((refl, tt), ((refl, tt), tt)))

collect_impl-IsClosed_example : IsClosed (roots_of surroundings collected_gc) collected_gc.heap
collect_impl-IsClosed_example =
    collect_impl-IsClosed surroundings CollectionReason.forced true gc
      (IsReachable-IsAccounted gc gc_reached).distinct
      (IsReachable-IsAccounted gc gc_reached).unmarked gc-IsClosed

abbrev ticking_gc : Gc
ticking_gc = enter_tick (record gc { policy = GcPolicy.between_ticks })

-- Within the tick a collection is requested, and a node is allocated.
requested_gc : Gc
requested_gc = link_node (node 4 []) (request_collection ticking_gc)

within : WithinTick ticking_gc requested_gc
unfolding requested_gc in_tick enter_tick scope_add link_node node_at request_collection
within =
    then_step (then_step (here refl) requests tt refl) (allocates (node 4 []) refl refl) tt refl

is_present : IsPresent ticking_gc.heap 3
unfolding enter_tick scope_add link_node node_at
is_present = refl

between : ticking_gc.policy ≡ GcPolicy.between_ticks
unfolding enter_tick scope_add link_node
between = refl

WithinTick-keeps_example : IsPresent requested_gc.heap 3
WithinTick-keeps_example = WithinTick-keeps 3 ticking_gc requested_gc within between is_present

-- Registering an action without a hook forgets the hook that it had.
abbrev registry : Registry ℕ ℕ ℕ
registry = record {
  conditions = [];
  actions = (codes "go", 1) ∷ [];
  action_halts = (codes "go", 2) ∷ [];
}

find-register_action_example :
    (find_action (codes "go") (register_action (codes "go") 3 none registry) ≡ some 3)
    × (find_action_halt (codes "go") (register_action (codes "go") 3 none registry) ≡ none)
    × (find_condition (codes "go") (register_action (codes "go") 3 none registry)
        ≡ find_condition (codes "go") registry)
find-register_action_example = find-register_action (codes "go") (codes "go") 3 none registry
