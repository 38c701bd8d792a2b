-- ===== src/Collector.antt =====
-- The mark and sweep collector, elox/lib/memory.c, with the roots of elox/lib/vm.c (markFiberCtx) and
-- elox/lib/compiler.c (markCompilerRoots). The linked list of a heap is the list of its addresses, and
-- the two marker bits are two flags. Objects of the permanent heap are black from the start.
pub mod Refers
pub mod Reach
pub mod Mark
pub mod Work
pub mod Trace
pub mod Sweep
pub mod Bytes
pub mod Collect
pub mod Garbage
use slox.Release.{Sizes, freed_sizes, give_back}
use slox.Memory.{grow_capacity}
use slox.Object.{Object, obj_string, references, value_ref, array_refs, live_refs}
use slox.Prelude.{
  ℕ, zero, suc, ◌+◌, ◌-◌, ◌*◌, ◌%◌, ◌^◌, Bool, true, false, not, ◌&&◌, ◌||◌, List, [], ◌∷◌, ◌++◌,
  Option, none, some, length, map, outside, take, ltb, ◌==◌, if◌then◌else◌, ◌>>=◌,
}
use slox.Table.{Entry, StringObject, Table, table_remove_white}
use slox.Value.{Value}
use slox.ValueArray.{ValueArray}
use slox.ValueTable.{ValueTable}

-- what `markFiberCtx` reads of a fiber: the values below the stack's top, the functions of the
-- frames, the open upvalues, and the temporaries
pub record FiberCtx : Type 0 where
  pub stack : List Value
  pub frame_functions : List (Option ℕ)
  pub open_upvalues : List ℕ
  pub temps : List Value

-- a function that is being compiled, with the defaults of its arguments so far
pub record Compiling : Type 0 where
  pub function : Option ℕ
  pub default_args : List Value

pub record CompilerState : Type 0 where
  pub file_name : Option ℕ
  pub compilers : List Compiling

-- the references of the embedding program
pub data Handle : Type 0 where
  callable_handle : Value → Handle
  run_ctx_handle : Option FiberCtx → Handle

-- the part of the `VM` that a collection reads and changes
pub record Vm : Type 0 where
  pub main_heap : List ℕ
  pub store : ℕ → Object
  pub black : ℕ → Bool
  pub gray : ℕ → Bool
  pub gray_stack : List ℕ
  pub gray_capacity : ℕ
  pub gray_overflow : Bool
  pub bytes_allocated : ℕ
  pub next_gc : ℕ
  pub strings : Table
  pub init_fiber : Option FiberCtx
  pub global_names : ValueTable
  pub global_values : ValueArray
  pub compiler_states : List CompilerState
  pub handles : List Handle

abbrev pub put_flag : (ℕ → Bool) → ℕ → Bool → ℕ → Bool
put_flag flags a b x = if x == a then b else flags x

-- `markFiberCtx`
unfoldable pub fiber_refs : Option FiberCtx → List (Option ℕ)
fiber_refs none = []
fiber_refs (some fiber) =
    map value_ref fiber.stack
    ++ fiber.frame_functions
    ++ map (λ a. some a) fiber.open_upvalues
    ++ map value_ref fiber.temps

unfoldable pub compiling_refs : List Compiling → List (Option ℕ)
compiling_refs [] = []
compiling_refs (c ∷ cs) = c.function ∷ map value_ref c.default_args ++ compiling_refs cs

-- `markCompilerRoots`
unfoldable pub compiler_refs : List CompilerState → List (Option ℕ)
unfolding compiling_refs
compiler_refs [] = []
compiler_refs (s ∷ ss) = s.file_name ∷ compiling_refs s.compilers ++ compiler_refs ss

-- `markHandleSet`, with `markCallableHandle` and `markRunCtxHandle` of elox/lib/elox.c
unfoldable pub handle_refs : List Handle → List (Option ℕ)
unfolding fiber_refs
handle_refs [] = []
handle_refs (callable_handle callable ∷ hs) = value_ref callable ∷ handle_refs hs
handle_refs (run_ctx_handle fiber ∷ hs) = fiber_refs fiber ++ handle_refs hs

-- what `markRoots` marks, in order
unfoldable pub root_refs : Vm → List (Option ℕ)
unfolding fiber_refs compiler_refs handle_refs array_refs live_refs
root_refs vm =
    fiber_refs vm.init_fiber
    ++ live_refs (take vm.global_names.full_count vm.global_names.entries)
    ++ array_refs vm.global_values
    ++ compiler_refs vm.compiler_states
    ++ handle_refs vm.handles

-- the string at an address, as the table of interned strings reads it
unfoldable pub string_at : Object → Bool → StringObject
string_at (obj_string chars hash) marked = record {
  hash = hash;
  chars = chars;
  markers = if marked then 1 else 0;
}
string_at _ marked = record { hash = 0; chars = []; markers = if marked then 1 else 0 }

-- a key is of the permanent heap, where all is black, or of the main heap
unfoldable pub key_allocated : Vm → Option ℕ → Bool
key_allocated vm none = true
key_allocated vm (some k) = vm.black k || not (outside k vm.main_heap)

unfoldable pub keys_allocated : Vm → List Entry → Bool
unfolding key_allocated
keys_allocated vm [] = true
keys_allocated vm (e ∷ es) = key_allocated vm e.key && keys_allocated vm es

-- `object->markers != 0`
abbrev pub marked : Vm → ℕ → Bool
marked vm a = vm.black a || vm.gray a

abbrev pub ungray : ℕ → Vm → Vm
ungray a vm = record vm { gray = put_flag vm.gray a false }

abbrev pub unmark : ℕ → Vm → Vm
unmark a vm = record vm { black = put_flag vm.black a false; gray = put_flag vm.gray a false }

-- `alloc n` tells whether a gray stack of `n` entries can be allocated
module _ (alloc : ℕ → Bool) where
  -- the end of `markObject`: the object goes on the stack, unless the stack has overflowed
  unfoldable pub push_gray : ℕ → Vm → Vm
  push_gray a vm =
      let count = length vm.gray_stack in
      let capacity = grow_capacity vm.gray_capacity in
      if vm.gray_overflow
      then vm
      else if ltb vm.gray_capacity (count + 1)
      then if alloc capacity
        then record vm { gray_capacity = capacity; gray_stack = a ∷ vm.gray_stack }
        else record vm { gray_overflow = true }
      else record vm { gray_stack = a ∷ vm.gray_stack }

  abbrev pub blackened : ℕ → Vm → Vm
  blackened a vm = record vm { black = put_flag vm.black a true; gray = put_flag vm.gray a true }

  unfoldable pub mark_object : Option ℕ → Vm → Vm
  unfolding push_gray
  mark_object none vm = vm
  mark_object (some a) vm = if vm.black a then vm else push_gray a (blackened a vm)

  unfoldable pub mark_all : List (Option ℕ) → Vm → Vm
  unfolding mark_object
  mark_all [] vm = vm
  mark_all (r ∷ rs) vm = mark_all rs (mark_object r vm)

  -- `object->markers &= ~MARKER_GRAY` and `blackenObject`
  unfoldable pub blacken_object : ℕ → Vm → Vm
  unfolding mark_all
  blacken_object a vm = mark_all (references (vm.store a)) (ungray a vm)

  -- one round of `slowTraceReferences` over the objects that are left, with `haveGray`
  unfoldable pub scan_gray : List ℕ → Bool → Vm → Bool × Vm
  unfolding blacken_object
  scan_gray [] have vm = (have, vm)
  scan_gray (a ∷ later) have vm =
      scan_gray later (have || vm.gray a) (if vm.gray a then blacken_object a vm else vm)

  pub while_gray : (Vm → Option Vm) → Bool × Vm → Option Vm
  while_gray k (have, vm) = if have then k vm else some vm

  unfoldable pub slow_trace : ℕ → Vm → Option Vm
  unfolding scan_gray while_gray
  slow_trace zero vm = none
  slow_trace (suc fuel) vm = while_gray (slow_trace fuel) (scan_gray vm.main_heap false vm)

  -- `slowTraceReferences`, with a round for each object of the heap
  unfoldable pub slow_trace_references : Vm → Option Vm
  unfolding slow_trace
  slow_trace_references vm = slow_trace (suc (length vm.main_heap)) vm

  -- the loop of `traceReferences`: `k` is the loop after the round
  pub pop_gray : (Vm → Option Vm) → List ℕ → Vm → Option Vm
  unfolding blacken_object slow_trace_references
  pop_gray k [] vm = some vm
  pop_gray k (a ∷ rest) vm =
      let next = blacken_object a (record vm { gray_stack = rest }) in
      if next.gray_overflow then slow_trace_references next else k next

  unfoldable pub fast_trace : ℕ → Vm → Option Vm
  unfolding pop_gray
  fast_trace zero vm = none
  fast_trace (suc fuel) vm = pop_gray (fast_trace fuel) vm.gray_stack vm

  abbrev pub end_trace : Vm → Vm
  end_trace vm = record vm { gray_stack = []; gray_overflow = false }

  unfoldable pub trace_references : Vm → Option Vm
  unfolding slow_trace_references fast_trace
  trace_references vm =
      (if vm.gray_overflow
        then slow_trace_references vm
        else fast_trace (suc (length vm.main_heap + length vm.gray_stack)) vm)
      >>= λ t. some (end_trace t)

  module _ (sizes : Sizes) where
    -- `freeObject`
    abbrev pub free_object : ℕ → Vm → Vm
    free_object a vm = record vm {
      bytes_allocated = give_back (freed_sizes sizes (vm.store a)) vm.bytes_allocated;
    }

    -- the loop of `sweep`: the objects that stay, and the state
    unfoldable pub sweep_from : List ℕ → Vm → List ℕ × Vm
    sweep_from [] vm = ([], vm)
    sweep_from (a ∷ later) vm =
        let stays = marked vm a in
        let rest = sweep_from later (if stays then unmark a vm else free_object a vm) in
        (if stays then a ∷ rest.0 else rest.0, rest.1)

    unfoldable pub sweep : Vm → Vm
    unfolding sweep_from
    sweep vm = let r = sweep_from vm.main_heap vm in let t = r.1 in record t { main_heap = r.0 }

    -- The loop reads the object of every key, so that `none` stands for the undefined behaviour if one
    -- has been freed.
    unfoldable pub remove_white : Vm → Option Vm
    unfolding string_at keys_allocated
    remove_white vm =
        if keys_allocated vm vm.strings.entries
        then (table_remove_white (λ a. string_at (vm.store a) (marked vm a)) vm.strings
            >>= λ strings. some (record vm { strings = strings }))
        else none

    -- `nextGC`, a `size_t`
    abbrev pub set_next_gc : Vm → Vm
    set_next_gc vm = record vm { next_gc = vm.bytes_allocated * 2 % 2 ^ 64 }

    unfoldable pub collect_garbage : Vm → Option Vm
    unfolding mark_all trace_references remove_white sweep
    collect_garbage vm = do
      traced ← trace_references (mark_all (root_refs vm) vm)
      removed ← remove_white traced
      some (set_next_gc (sweep removed))
