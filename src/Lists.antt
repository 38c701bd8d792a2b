-- ===== src/Lists.antt =====
-- Lists and tuples: elox/lib/array/array.c, the operations on arrays of elox/lib/object.c, and
-- `computeSlice` of elox/include/elox/object.h. The items are as many as were allocated. The fields of
-- an iterator are those that `arrayIterator` and its methods write.

pub mod Removes
pub mod Iterates
pub mod Appends
use slox.Memory.{grow_capacity}
use slox.Object.{ObjArray}
use slox.Prelude.{
  ℕ, zero, suc, ◌+◌, ◌-◌, ◌%◌, ◌^◌, Bool, true, false, not, ◌||◌, List, [], ◌∷◌, ◌++◌, Option, none,
  some, length, take, drop, get_or, set, replicate, ltb, leb, ◌==◌, if◌then◌else◌, ◌>>=◌,
}
use slox.Value.{Value, nil, number}

-- the integers of the program
pub data ℤ : Type 0 where
  pos : ℕ → ℤ
  negsuc : ℕ → ℤ

-- the messages of `runtimeError`
pub data ArrayError : Type 0 where
  modified_during_iteration : ArrayError
  index_out_of_bounds : ArrayError
  illegal_iterator_state : ArrayError
  not_numbers : ArrayError

pub data Result (A : Type 0) : Type 0 where
  ok : A → Result A
  raised : ArrayError → Result A

pub record ArrayIterator : Type 0 where
  pub cursor : ℕ
  pub last_ret : ℤ
  pub mod_count : ℕ

-- the items in use
abbrev pub contents : ObjArray → List Value
contents a = take a.size a.items

-- `arrayIteratorHasNext`
unfoldable pub has_next : ArrayIterator → ObjArray → Bool
has_next it a = not (it.cursor == a.size)

-- `arrayIteratorNext`
unfoldable pub iterator_next : ArrayIterator → ObjArray → Result (Value × ArrayIterator)
iterator_next it a =
    if not (it.mod_count == a.mod_count)
    then raised modified_during_iteration
    else if leb a.size it.cursor
    then raised index_out_of_bounds
    else ok (
      get_or a.items it.cursor nil,
      record it { cursor = it.cursor + 1; last_ret = pos it.cursor },
    )

-- `removeAt`
unfoldable pub remove_at : ObjArray → ℕ → ObjArray
remove_at a index =
    let moved = take (a.size - index - 1) (drop (index + 1) a.items) in
    record a {
      mod_count = (a.mod_count + 1) % 2 ^ 32;
      items = take index a.items ++ (moved ++ drop (index + length moved) a.items);
      size = a.size - 1;
    }

pub remove_last : ℤ → ArrayIterator → ObjArray → Result (ArrayIterator × ObjArray)
unfolding remove_at
remove_last (negsuc n) it a = raised illegal_iterator_state
remove_last (pos index) it a =
    let b = remove_at a index in
    if not (it.mod_count == a.mod_count)
    then raised modified_during_iteration
    else ok (record { cursor = index; last_ret = negsuc 0; mod_count = b.mod_count }, b)

-- `arrayIteratorRemove`
unfoldable pub iterator_remove : ArrayIterator → ObjArray → Result (ArrayIterator × ObjArray)
unfolding remove_last
iterator_remove it a = remove_last it.last_ret it a

-- `arrayIterator`
abbrev pub array_iterator : ObjArray → ArrayIterator
array_iterator a = record { cursor = 0; last_ret = negsuc 0; mod_count = a.mod_count }

-- `arrayRemoveAt`
unfoldable pub array_remove_at : ObjArray → ℤ → Result ObjArray
unfolding remove_at
array_remove_at a (negsuc n) = raised index_out_of_bounds
array_remove_at a (pos index) =
    if leb a.size index then raised index_out_of_bounds else ok (remove_at a index)

-- `isValidArrayIndex`
unfoldable pub is_valid_array_index : ObjArray → ℤ → Bool
is_valid_array_index a (negsuc n) = false
is_valid_array_index a (pos index) = ltb index a.size

-- `realIndex`: a negative index counts from the end
unfoldable pub real_index : ℕ → ℤ → ℤ
real_index size (pos index) = pos index
real_index size (negsuc n) = if ltb n size then pos (size - suc n) else negsuc (n - size)

pub item_at : ObjArray → ℤ → Result Value
item_at a (negsuc n) = raised index_out_of_bounds
item_at a (pos index) =
    if leb a.size index then raised index_out_of_bounds else ok (get_or a.items index nil)

-- `arrayAtSafe`
unfoldable pub array_at_safe : ObjArray → ℤ → Result Value
unfolding real_index item_at
array_at_safe a index = item_at a (real_index a.size index)

-- `arraySet`
abbrev pub array_set : ObjArray → ℕ → Value → ObjArray
array_set a index v = record a { items = set a.items index v }

-- `arrayContains`; `equals` answers with the value of `valuesEquals` and whether it raised an error
unfoldable pub any_equal : (Value → Bool × Bool) → List Value → Bool
any_equal equals [] = false
any_equal equals (x ∷ xs) =
    let (same, error) = equals x in
    if same then true else if error then false else any_equal equals xs

unfoldable pub array_contains : (Value → Value → Bool × Bool) → ObjArray → Value → Bool
unfolding any_equal
array_contains equals a needle = any_equal (equals needle) (contents a)

-- `newArray`: `alloc n` tells whether `n` items can be allocated
unfoldable pub new_array : (ℕ → Bool) → ℕ → Option ObjArray
new_array alloc initial_size =
    if initial_size == 0
    then some (record { size = 0; capacity = 0; mod_count = 0; items = [] })
    else if alloc initial_size
    then some (record {
      size = 0;
      capacity = initial_size;
      mod_count = 0;
      items = replicate initial_size nil;
    })
    else none

-- what a call of `appendToArray` ends with; `outside` is the state before a write beyond the items
pub data Append : Type 0 where
  appended : ObjArray → Append
  refused : ObjArray → Append
  outside : ObjArray → Append

-- `array->items[array->size] = value`
unfoldable pub write_last : ObjArray → Value → Append
write_last a v =
    let b = record a { items = set a.items a.size v; size = a.size + 1 } in
    if ltb a.size (length a.items) then appended b else outside a

-- `appendToArray`: the array is reallocated with the old capacity, and no bytes are no memory
unfoldable pub append_to_array : (ℕ → Bool) → ObjArray → Value → Append
unfolding write_last
append_to_array alloc array v =
    let a = record array { mod_count = (array.mod_count + 1) % 2 ^ 32 } in
    if ltb a.capacity (a.size + 1)
    then if a.capacity == 0 || not (alloc a.capacity)
      then refused a
      else write_last (record a { capacity = grow_capacity a.capacity }) v
    else write_last a v

-- the number that a bound of a slice stands for; `to_int` is the conversion of a double to `int32_t`
unfoldable pub slice_bound : (ℕ → ℤ) → Value → ℕ → Option ℤ
slice_bound to_int nil default = some (pos default)
slice_bound to_int (number bits) default = some (to_int bits)
slice_bound to_int _ default = none

pub clamp_start : ℕ → ℤ → ℕ
clamp_start size (negsuc n) = 0
clamp_start size (pos start) = if ltb size start then size else start

pub not_negative : ℤ → ℕ
not_negative (negsuc n) = 0
not_negative (pos n) = n

-- `computeSlice`
unfoldable pub compute_slice : (ℕ → ℤ) → Value → Value → ℕ → Option (ℕ × ℕ)
unfolding slice_bound clamp_start not_negative
compute_slice to_int start end size = do
  s ← slice_bound to_int start 0
  e ← slice_bound to_int end size
  let first = clamp_start size s
  let last = not_negative e
  some (first, if ltb last first then first else if ltb size first then size else last)
