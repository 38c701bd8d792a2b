-- ===== src/Release.antt =====
-- What `freeObject` of elox/lib/memory.c gives back, with `freeTable`, `freeValueTable`,
-- `freeValueArray` and `freeChunk`: the sizes that it passes to `reallocate`, in order. The sizes of the
-- C types are parameters.
use slox.Chunk.{Chunk}
use slox.Object.{
  Object, obj_array, obj_bound_method, obj_class, obj_closure, obj_function, obj_hashmap,
  obj_instance, obj_interface, obj_method, obj_method_desc, obj_native, obj_native_closure,
  obj_string, obj_string_pair, obj_tuple, obj_upvalue,
}
use slox.Prelude.{ℕ, ◌+◌, ◌-◌, ◌*◌, ◌%◌, ◌^◌, List, [], ◌∷◌, ◌++◌, Option, none, some, length}
use slox.Table.{Table}
use slox.ValueArray.{ValueArray}
use slox.ValueTable.{ValueTable}

-- `sizeof` of the types
pub record Sizes : Type 0 where
  pub pointer : ℕ
  pub value : ℕ
  pub entry : ℕ
  pub table_entry : ℕ
  pub line_start : ℕ
  pub member_ref : ℕ
  pub hash_map : ℕ
  pub array : ℕ
  pub bound_method : ℕ
  pub method : ℕ
  pub method_desc : ℕ
  pub interface : ℕ
  pub class : ℕ
  pub closure : ℕ
  pub native_closure : ℕ
  pub function : ℕ
  pub instance_ : ℕ
  pub native : ℕ
  pub string : ℕ
  pub string_pair : ℕ
  pub upvalue : ℕ

abbrev pub table_sizes : Sizes → Table → List ℕ
table_sizes z table = z.entry * table.capacity ∷ []

-- `chains` are of four bytes each
abbrev pub value_table_sizes : Sizes → ValueTable → List ℕ
value_table_sizes z table = 4 * table.index_size ∷ z.table_entry * table.data_size ∷ []

abbrev pub value_array_sizes : Sizes → ValueArray → List ℕ
value_array_sizes z array = z.value * array.capacity ∷ []

-- the lines are counted with the capacity of the code
abbrev pub chunk_sizes : Sizes → Chunk → List ℕ
chunk_sizes z chunk =
    chunk.capacity ∷ z.line_start * chunk.capacity ∷ value_array_sizes z chunk.constants

pub rss_sizes : Sizes → Option (List (Option ℕ)) → List ℕ
rss_sizes z none = []
rss_sizes z (some rss) = z.pointer * length rss ∷ []

-- lists and tuples are counted as `size` pointers
unfoldable pub freed_sizes : Sizes → Object → List ℕ
unfolding rss_sizes
freed_sizes z (obj_hashmap items) = value_table_sizes z items ++ (z.hash_map ∷ [])
freed_sizes z (obj_tuple a) = z.pointer * a.size ∷ z.array ∷ []
freed_sizes z (obj_array a) = z.pointer * a.size ∷ z.array ∷ []
freed_sizes z (obj_bound_method receiver method) = z.bound_method ∷ []
freed_sizes z (obj_method clazz callable) = z.method ∷ []
freed_sizes z (obj_method_desc arity has_varargs) = z.method_desc ∷ []
freed_sizes z (obj_interface name methods) = table_sizes z methods ++ (z.interface ∷ [])
freed_sizes z (obj_class c) =
    table_sizes z c.fields
    ++ table_sizes z c.methods
    ++ table_sizes z c.statics
    ++ value_array_sizes z c.static_values
    ++ (z.member_ref * length c.member_refs ∷ [])
    ++ rss_sizes z c.rss_list
    ++ (z.class ∷ [])
freed_sizes z (obj_closure function upvalues) = z.pointer * length upvalues ∷ z.closure ∷ []
freed_sizes z (obj_native_closure native upvalues) =
    z.value * length upvalues ∷ z.native_closure ∷ []
freed_sizes z (obj_function f) = chunk_sizes z f.chunk ++ (z.value * f.arity ∷ z.function ∷ [])
freed_sizes z (obj_instance clazz fields) = value_array_sizes z fields ++ (z.instance_ ∷ [])
freed_sizes z (obj_native native) = z.value * native.arity ∷ z.native ∷ []
freed_sizes z (obj_string chars hash) = (length chars + 1) ∷ z.string ∷ []
freed_sizes z (obj_string_pair str1 str2) = z.string_pair ∷ []
freed_sizes z (obj_upvalue closed) = z.upvalue ∷ []

-- `bytesAllocated += 0 - oldSize` of `reallocate`, on a `size_t`, for each size
unfoldable pub give_back : List ℕ → ℕ → ℕ
give_back [] bytes = bytes
give_back (n ∷ ns) bytes = give_back ns ((bytes + (2 ^ 64 - n % 2 ^ 64)) % 2 ^ 64)
