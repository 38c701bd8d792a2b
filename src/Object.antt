-- ===== src/Object.antt =====
-- The heap objects, elox/include/elox/object.h, with the fields that refer to other objects or that
-- the modelled operations use, and the references that `blackenObject` of elox/lib/memory.c follows.
-- An object is named by its address; `none` is `NULL`.
use slox.Chunk.{Chunk}
use slox.Prelude.{ℕ, Bool, List, [], ◌∷◌, ◌++◌, Option, none, some, map, take, if◌then◌else◌}
use slox.Table.{Table, Entry}
use slox.Value.{Value, obj, is_undefined}
use slox.ValueArray.{ValueArray}
use slox.ValueTable.{ValueTable, TableEntry}

-- lists and tuples
pub record ObjArray : Type 0 where
  pub size : ℕ
  pub capacity : ℕ
  pub mod_count : ℕ
  pub items : List Value

pub record ObjFunction : Type 0 where
  pub arity : ℕ
  pub max_args : ℕ
  pub upvalue_count : ℕ
  pub chunk : Chunk
  pub name : Option ℕ
  pub parent_class : Option ℕ
  pub default_args : Option (List Value)

-- an entry of `memberRefs`: the index of a field, or the value of a member
pub data MemberRef : Type 0 where
  prop_index : ℕ → MemberRef
  member_value : Value → MemberRef

-- `rpt_display` and `rss_list` are those of `typeInfo`
pub record ObjClass : Type 0 where
  pub name : Option ℕ
  pub initializer : Value
  pub hash_code : Option ℕ
  pub equals : Option ℕ
  pub super : Value
  pub fields : Table
  pub methods : Table
  pub statics : Table
  pub static_values : ValueArray
  pub rpt_display : List (Option ℕ)
  pub rss_list : Option (List (Option ℕ))
  pub member_refs : List MemberRef

-- natives, with the upvalues of a native closure
pub record ObjNative : Type 0 where
  pub arity : ℕ
  pub default_args : Option (List Value)

pub data Object : Type 0 where
  obj_string : List ℕ → ℕ → Object
  obj_bound_method : Value → Option ℕ → Object
  obj_method : Option ℕ → Option ℕ → Object
  obj_method_desc : ℕ → Bool → Object
  obj_interface : Option ℕ → Table → Object
  obj_class : ObjClass → Object
  obj_closure : Option ℕ → List (Option ℕ) → Object
  obj_native_closure : ObjNative → List Value → Object
  obj_function : ObjFunction → Object
  obj_instance : Option ℕ → ValueArray → Object
  obj_native : ObjNative → Object
  obj_string_pair : Option ℕ → Option ℕ → Object
  obj_upvalue : Value → Object
  obj_array : ObjArray → Object
  obj_tuple : ObjArray → Object
  obj_hashmap : ValueTable → Object

-- the object that `markValue` marks
unfoldable pub value_ref : Value → Option ℕ
value_ref (obj a) = some a
value_ref _ = none

-- `markArray`
unfoldable pub array_refs : ValueArray → List (Option ℕ)
unfolding value_ref
array_refs array = map value_ref (take array.count array.values)

-- `markTable`
unfoldable pub entries_refs : List Entry → List (Option ℕ)
unfolding value_ref
entries_refs [] = []
entries_refs (e ∷ es) = e.key ∷ value_ref e.value ∷ entries_refs es

-- the loop of `markValueTable`
unfoldable pub live_refs : List TableEntry → List (Option ℕ)
unfolding value_ref is_undefined
live_refs [] = []
live_refs (e ∷ es) =
    if is_undefined e.key then live_refs es else value_ref e.key ∷ value_ref e.value ∷ live_refs es

unfoldable pub default_refs : ℕ → Option (List Value) → List (Option ℕ)
unfolding value_ref
default_refs arity none = []
default_refs arity (some args) = map value_ref (take arity args)

-- what `blackenObject` marks, in order
unfoldable pub references : Object → List (Option ℕ)
unfolding value_ref array_refs entries_refs live_refs default_refs
references (obj_hashmap items) = live_refs (take items.full_count items.entries)
references (obj_tuple a) = map value_ref (take a.size a.items)
references (obj_array a) = map value_ref (take a.size a.items)
references (obj_bound_method receiver method) = value_ref receiver ∷ method ∷ []
references (obj_method clazz callable) = clazz ∷ callable ∷ []
references (obj_method_desc arity has_varargs) = []
references (obj_interface name methods) =
    name ∷ entries_refs (take methods.capacity methods.entries)
references (obj_class c) =
    c.name ∷ entries_refs (take c.fields.capacity c.fields.entries)
    ++ entries_refs (take c.methods.capacity c.methods.entries)
    ++ entries_refs (take c.statics.capacity c.statics.entries)
    ++ array_refs c.static_values
    ++ value_ref c.initializer ∷ []
references (obj_closure function upvalues) = function ∷ upvalues
references (obj_native_closure native upvalues) = map value_ref upvalues
references (obj_function f) =
    f.name ∷ f.parent_class ∷ array_refs f.chunk.constants
    ++ f.chunk.file_name ∷ default_refs f.arity f.default_args
references (obj_instance clazz fields) = clazz ∷ array_refs fields
references (obj_upvalue closed) = value_ref closed ∷ []
references (obj_string_pair str1 str2) = str1 ∷ str2 ∷ []
references (obj_native native) = default_refs native.arity native.default_args
references (obj_string chars hash) = []
