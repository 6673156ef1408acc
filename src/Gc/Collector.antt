-- ===== src/Gc/Collector.antt =====
-- The collector `gc` (src/gc.cpp, include/muslisp/gc.hpp): its counters, policies, roots and events. A
-- root slot is a pointer to a variable, which has a number. Pointers that are null are `none`, and
-- those of a node, none of which is null, are its children. The counters do not reach their limits.
use muesli_bt.Common.{
  ℕ, zero, suc, ◌+◌, ◌-◌, ◌*◌, Bool, true, false, ◌&&◌, ◌||◌, not, Option, none, some, List, [],
  ◌∷◌, ◌++◌, length, ltb, ◌==◌, if◌then◌else◌, Text, codes, Result, ok, err,
}
use muesli_bt.Gc.Heap.{
  GcNode, Heap, mark_each, mark_node, sweep_nodes, live_count, live_bytes, freed_count,
}

pub data GcPolicy : Type 0 where
  default_policy between_ticks manual fail_on_tick_gc : GcPolicy

pub data CollectionReason : Type 0 where
  threshold requested forced between_ticks : CollectionReason

abbrev pub is_manual : GcPolicy → Bool
is_manual GcPolicy.manual = true
is_manual _ = false

abbrev pub is_between_ticks : GcPolicy → Bool
is_between_ticks GcPolicy.between_ticks = true
is_between_ticks _ = false

abbrev pub is_fail_on_tick_gc : GcPolicy → Bool
is_fail_on_tick_gc GcPolicy.fail_on_tick_gc = true
is_fail_on_tick_gc _ = false

-- `gc_lifecycle_event`, of which the beginning of a collection has a part.
pub record Collection : Type 0 where
  pub collection_id : ℕ
  pub reason : CollectionReason
  pub policy : GcPolicy
  pub forced : Bool
  pub in_tick : Bool
  pub heap_live_bytes_before : ℕ
  pub live_objects_before : ℕ

pub data LifecycleEvent : Type 0 where
  begins : Collection → LifecycleEvent
  ends :
      (c : Collection)
      (heap_live_bytes_after live_objects_after freed_objects mark_time_ns sweep_time_ns
        pause_time_ns : ℕ)
      → LifecycleEvent

pub record Gc : Type 0 where
  pub heap : Heap
  pub allocated_objects_current : ℕ
  pub total_allocated_objects : ℕ
  pub live_objects_after_last_gc : ℕ
  pub bytes_allocated : ℕ
  pub next_gc_threshold : ℕ
  pub collection_requested : Bool
  pub requested_reason : CollectionReason
  pub policy : GcPolicy
  pub tick_depth : ℕ
  pub collection_count : ℕ
  pub total_pause_ns : ℕ
  pub freed_objects_total : ℕ
  pub forced_collection_count : ℕ
  pub lifecycle_listener : Option ℕ
  pub heard : List (ℕ × LifecycleEvent)
  pub root_slots : List (Option ℕ)
  pub root_envs : List ℕ

abbrev pub new_gc : Gc
new_gc = record {
  heap = [];
  allocated_objects_current = 0;
  total_allocated_objects = 0;
  live_objects_after_last_gc = 0;
  bytes_allocated = 0;
  next_gc_threshold = 256;
  collection_requested = false;
  requested_reason = CollectionReason.requested;
  policy = GcPolicy.default_policy;
  tick_depth = 0;
  collection_count = 0;
  total_pause_ns = 0;
  freed_objects_total = 0;
  forced_collection_count = 0;
  lifecycle_listener = none;
  heard = [];
  root_slots = [];
  root_envs = [];
}

-- What a collection reads outside the collector: the variables, the interned symbols, the clock.
pub record Surroundings : Type 0 where
  pub variable : ℕ → Option ℕ
  pub interned_symbols : List ℕ
  pub mark_ns : ℕ
  pub sweep_ns : ℕ
  pub pause_ns : ℕ

unfoldable pub in_tick : Gc → Bool
in_tick s = ltb 0 s.tick_depth

unfoldable pub heard_by : Option ℕ → LifecycleEvent → Gc → Gc
heard_by none ev s = s
heard_by (some listener) ev s = record s { heard = (listener, ev) ∷ s.heard }

unfoldable pub emit_lifecycle : LifecycleEvent → Gc → Gc
unfolding heard_by
emit_lifecycle ev s = heard_by s.lifecycle_listener ev s

-- `link_node` of a new node.
unfoldable pub link_node : GcNode → Gc → Gc
link_node n s =
    let count = suc s.allocated_objects_current in
    let over = ltb s.next_gc_threshold count in
    record s {
      heap = n ∷ s.heap;
      allocated_objects_current = count;
      total_allocated_objects = suc s.total_allocated_objects;
      bytes_allocated = s.bytes_allocated + n.size_bytes;
      collection_requested = over || s.collection_requested;
      requested_reason = if over then CollectionReason.threshold else s.requested_reason;
    }

abbrev pub variables : (ℕ → Option ℕ) → List (Option ℕ) → List ℕ
variables variable [] = []
variables variable (none ∷ slots) = variables variable slots
variables variable (some slot ∷ slots) = elim (variable slot) [
  | none ↦ variables variable slots
  | some a ↦ a ∷ variables variable slots
]

-- From where a collection marks, in its order.
abbrev pub roots_of : Surroundings → Gc → List ℕ
roots_of o s = variables o.variable s.root_slots ++ (s.root_envs ++ o.interned_symbols)

-- Marking has fuel for every node.
unfoldable pub mark_roots : Surroundings → Gc → Gc
unfolding mark_node
mark_roots o s = record s { heap = mark_each (mark_node (length s.heap)) (roots_of o s) s.heap }

unfoldable pub sweep : Gc → Gc
unfolding sweep_nodes live_count live_bytes
sweep s =
    let live = live_count s.heap in
    record s {
      heap = sweep_nodes s.heap;
      allocated_objects_current = live;
      live_objects_after_last_gc = live;
      bytes_allocated = live_bytes s.heap;
      next_gc_threshold = if ltb 256 (live * 2) then live * 2 else 256;
      collection_requested = false;
      requested_reason = CollectionReason.requested;
    }

abbrev pub collection_of : CollectionReason → Bool → Gc → Collection
collection_of reason is_forced s = record {
  collection_id = suc s.collection_count;
  reason = reason;
  policy = s.policy;
  forced = is_forced;
  in_tick = in_tick s;
  heap_live_bytes_before = s.bytes_allocated;
  live_objects_before = s.allocated_objects_current;
}

-- The counters of a collection.
abbrev pub count_collection : Surroundings → Bool → ℕ → Gc → Gc
count_collection o is_forced freed s = record s {
  collection_count = suc s.collection_count;
  total_pause_ns = s.total_pause_ns + o.pause_ns;
  freed_objects_total = s.freed_objects_total + freed;
  forced_collection_count =
      if is_forced then suc s.forced_collection_count else s.forced_collection_count;
}

-- A collection but for its events.
unfoldable pub collected : Surroundings → Bool → Gc → Gc
unfolding mark_roots sweep freed_count
collected o is_forced s =
    let marked = mark_roots o s in
    count_collection o is_forced (freed_count marked.heap) (sweep marked)

unfoldable pub collect_impl : Surroundings → CollectionReason → Bool → Gc → Gc
unfolding emit_lifecycle collected mark_roots freed_count in_tick
collect_impl o reason is_forced s =
    let c = collection_of reason is_forced s in
    let begun = emit_lifecycle (begins c) s in
    let t = collected o is_forced begun in
    let freed = freed_count (mark_roots o begun).heap in
    emit_lifecycle
      (ends c t.bytes_allocated t.allocated_objects_current freed o.mark_ns o.sweep_ns o.pause_ns) t

unfoldable pub request_collection : Gc → Gc
request_collection s = record s {
  collection_requested = true;
  requested_reason = CollectionReason.requested;
}

unfoldable pub maybe_collect : Surroundings → Gc → Result Text Gc
unfolding collect_impl
maybe_collect o s =
    if not s.collection_requested
    then ok s
    else if is_manual s.policy
    then ok s
    else if is_between_ticks s.policy && in_tick s
    then ok s
    else if is_fail_on_tick_gc s.policy && in_tick s
    then err (codes "gc: collection requested during tick under fail-on-tick-gc policy")
    else ok (
        collect_impl o
          (if is_between_ticks s.policy then CollectionReason.between_ticks else s.requested_reason)
          false s)

unfoldable pub collect : Surroundings → Gc → Result Text Gc
unfolding collect_impl
collect o s =
    if is_fail_on_tick_gc s.policy && in_tick s
    then err (codes "gc: forced collection during tick under fail-on-tick-gc policy")
    else ok (collect_impl o CollectionReason.forced true s)

unfoldable pub enter_tick : Gc → Gc
enter_tick s = record s { tick_depth = suc s.tick_depth }

unfoldable pub exit_tick : Surroundings → Gc → Gc
unfolding collect_impl
exit_tick o s =
    let s = record s { tick_depth = s.tick_depth - 1 } in
    if (s.tick_depth == 0) && (s.collection_requested && is_between_ticks s.policy)
    then collect_impl o CollectionReason.between_ticks false s
    else s

-- Without the last of them that is equal.
abbrev pub is_in : ℕ → List ℕ → Bool
is_in a [] = false
is_in a (b ∷ l) = (a == b) || is_in a l

abbrev pub remove_last : ℕ → List ℕ → List ℕ
remove_last a [] = []
remove_last a (b ∷ l) =
    let rest = remove_last a l in if is_in a l then b ∷ rest else if b == a then l else b ∷ l

unfoldable pub register_root_env : Option ℕ → Gc → Gc
register_root_env none s = s
register_root_env (some env) s = record s { root_envs = s.root_envs ++ env ∷ [] }

unfoldable pub unregister_root_env : ℕ → Gc → Gc
unregister_root_env env s = record s { root_envs = remove_last env s.root_envs }

unfoldable pub add_root_slot : Option ℕ → Gc → Gc
add_root_slot none s = s
add_root_slot (some slot) s = record s { root_slots = s.root_slots ++ some slot ∷ [] }

abbrev is_same : Option ℕ → Option ℕ → Bool
is_same none none = true
is_same none (some _) = false
is_same (some _) none = false
is_same (some a) (some b) = a == b

abbrev pub is_in_slots : Option ℕ → List (Option ℕ) → Bool
is_in_slots a [] = false
is_in_slots a (b ∷ l) = is_same a b || is_in_slots a l

abbrev pub remove_last_slot : Option ℕ → List (Option ℕ) → List (Option ℕ)
remove_last_slot a [] = []
remove_last_slot a (b ∷ l) =
    let rest = remove_last_slot a l in
    if is_in_slots a l then b ∷ rest else if is_same b a then l else b ∷ l

unfoldable pub remove_root_slot : Option ℕ → Gc → Gc
remove_root_slot slot s = record s { root_slots = remove_last_slot slot s.root_slots }

-- `gc_root_scope`: it adds slots, null or not, and its end leaves as many as there were before it.
-- `resize` adds null slots where there are fewer.
unfoldable pub scope_add : Option ℕ → Gc → Gc
scope_add slot s = record s { root_slots = s.root_slots ++ slot ∷ [] }

abbrev pub resized : ℕ → List (Option ℕ) → List (Option ℕ)
resized zero l = []
resized (suc n) [] = none ∷ resized n []
resized (suc n) (slot ∷ l) = slot ∷ resized n l

unfoldable pub scope_end : ℕ → Gc → Gc
scope_end begin_index s = record s { root_slots = resized begin_index s.root_slots }
