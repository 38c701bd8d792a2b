-- ===== src/Tests/Heaps.antt =====
-- A small heap before a collection.
use mathlib.Core.List.{Memᴰ}
use mathlib.Core.List.Memᴰ
use slox.Collector
use slox.Collector.Refers
use slox.Collector.{Vm}
use slox.Object
use slox.Object.{Object, obj_array, obj_string}
use slox.Prelude.{
  ℕ, Bool, false, List, [], ◌∷◌, Option, none, some, replicate, ltb, ◌==◌, if◌then◌else◌,
}
use slox.Release.{Sizes}
use slox.Table.{empty_entry}
use slox.Value.{nil, obj}

-- an array that refers to itself and to a string
abbrev ring : Object
ring = obj_array (record { size = 2; capacity = 2; mod_count = 0; items = obj 1 ∷ obj 2 ∷ [] })

abbrev store : ℕ → Object
store a = if a == 1 then ring else obj_string (a ∷ []) a

abbrev no_flag : ℕ → Bool
no_flag a = false

-- a gray stack of at most 100 entries
abbrev alloc : ℕ → Bool
alloc n = ltb n 100

abbrev sizes : Sizes
sizes = record {
  pointer = 8;
  value = 16;
  entry = 24;
  table_entry = 40;
  line_start = 8;
  member_ref = 24;
  hash_map = 64;
  array = 40;
  bound_method = 40;
  method = 32;
  method_desc = 24;
  interface = 56;
  class = 300;
  closure = 40;
  native_closure = 48;
  function = 120;
  instance_ = 48;
  native = 40;
  string = 40;
  string_pair = 40;
  upvalue = 48;
}

-- the global holds the array; the string 3 is garbage, and still interned
abbrev small : Vm
small = record {
  main_heap = 1 ∷ 2 ∷ 3 ∷ [];
  store = store;
  black = no_flag;
  gray = no_flag;
  gray_stack = [];
  gray_capacity = 0;
  gray_overflow = false;
  bytes_allocated = 100;
  next_gc = 50;
  strings = record {
    count = 1;
    capacity = 8;
    shift = 29;
    entries = record { key = some 3; value = nil } ∷ replicate 7 empty_entry;
  };
  init_fiber = none;
  global_names = record {
    chains = [];
    entries = [];
    index_size = 0;
    data_size = 0;
    index_shift = 0;
    full_count = 0;
    live_count = 0;
    mod_count = 0;
  };
  global_values = record { count = 1; capacity = 8; values = obj 1 ∷ [] };
  compiler_states = [];
  handles = [];
}

abbrev one_ref : List (Option ℕ)
one_ref = some 1 ∷ []

abbrev two_refs : List (Option ℕ)
two_refs = some 1 ∷ some 2 ∷ []
