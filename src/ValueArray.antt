-- ===== src/ValueArray.antt =====
-- Growing arrays of values, elox/lib/ValueArray.c. `alloc n` tells whether `n` values can be
-- allocated, and the Boolean result whether they were.
pub mod Push
use slox.Memory.{grow_capacity}
use slox.Prelude.{
  ℕ, zero, ◌+◌, ◌-◌, Bool, true, false, List, [], ◌++◌, set, replicate, ltb, ◌==◌, if◌then◌else◌,
}
use slox.Value.{Value, nil}

pub record ValueArray : Type 0 where
  pub capacity : ℕ
  pub count : ℕ
  pub values : List Value

abbrev pub init_value_array : ValueArray
init_value_array = record { capacity = 0; count = 0; values = [] }

-- `freeValueArray`, apart from the return of the memory
abbrev pub free_value_array : ValueArray → ValueArray
free_value_array array = init_value_array

module _ (alloc : ℕ → Bool) where
  -- the values of a new array are not set; the count is 0
  unfoldable pub init_sized_value_array : ℕ → Bool × ValueArray
  init_sized_value_array size =
      if alloc size
      then (true, record { capacity = size; count = 0; values = replicate size nil })
      else (false, init_value_array)

  unfoldable pub init_empty_value_array : ℕ → Bool × ValueArray
  init_empty_value_array size =
      if size == 0
      then (true, init_value_array)
      else if alloc size
      then (true, record { capacity = size; count = size; values = replicate size nil })
      else (false, init_value_array)

  -- When the allocation fails, the array stays but its capacity does not.
  unfoldable pub grow_for_push : ValueArray → Bool × ValueArray
  grow_for_push array =
      let capacity = grow_capacity array.capacity in
      if ltb array.capacity (array.count + 1)
      then if alloc capacity
        then (
          true,
          record array {
            capacity = capacity;
            values = array.values ++ replicate (capacity - array.capacity) nil;
          },
        )
        else (false, record array { capacity = capacity })
      else (true, array)

  pub push_value : Value → Bool × ValueArray → Bool × ValueArray
  push_value value (false, array) = (false, array)
  push_value value (true, array) =
      (true, record array { values = set array.values array.count value; count = array.count + 1 })

  unfoldable pub value_array_push : ValueArray → Value → Bool × ValueArray
  unfolding push_value grow_for_push
  value_array_push array value = push_value value (grow_for_push array)
