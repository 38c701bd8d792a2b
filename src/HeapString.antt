-- ===== src/HeapString.antt =====
-- Strings that grow while they are built, `HeapCString` of elox/lib/object.c. `chars` has the bytes
-- that are allocated; those that are not written yet are `unset`.
pub mod Builds
use slox.Chunk.{copy_bytes}
use slox.Memory.{grow_capacity}
use slox.Prelude.{
  ℕ, ◌+◌, ◌-◌, Bool, true, false, List, [], ◌∷◌, ◌++◌, length, set, replicate, ltb, if◌then◌else◌,
}

pub record HeapString : Type 0 where
  pub length : ℕ
  pub capacity : ℕ
  pub chars : List ℕ

-- whether the memory lasted, and the string
abbrev pub Built : Type 0
Built = Bool × HeapString

-- `newCapacity` for `len` more bytes
unfoldable pub new_capacity : HeapString → ℕ → ℕ
new_capacity string len =
    let required = string.length + len + 2 in
    let grown = grow_capacity string.capacity in if ltb grown required then required else grown

module _ (alloc : ℕ → Bool) (unset : ℕ) where
  -- `initHeapStringWithSize`
  unfoldable pub init_heap_string_with_size : ℕ → HeapString → Built
  init_heap_string_with_size initial_capacity str =
      if alloc initial_capacity
      then (
        true,
        record {
          length = 0;
          capacity = initial_capacity;
          chars = set (replicate initial_capacity unset) 0 0;
        },
      )
      else (false, str)

  -- the growth at the head of `reserveHeapString`; `len + 1 > capacity - length - 1` is written
  -- without subtraction
  unfoldable pub make_available : HeapString → ℕ → Built
  unfolding new_capacity
  make_available string len =
      let capacity = new_capacity string len in
      if ltb string.capacity (string.length + len + 2)
      then if alloc capacity
        then (
          true,
          record string {
            capacity = capacity;
            chars = string.chars ++ replicate (capacity - string.capacity) unset;
          },
        )
        else (false, string)
      else (true, string)

  -- `string->length += len`, with the terminator
  pub extend : ℕ → Built → Built
  extend len (false, string) = (false, string)
  extend len (true, string) = (
    true,
    record string {
      length = string.length + len;
      chars = set string.chars (string.length + len) 0;
    },
  )

  -- `reserveHeapString`
  unfoldable pub reserve_heap_string : HeapString → ℕ → Built
  unfolding make_available extend
  reserve_heap_string string len = extend len (make_available string len)

  -- the bytes go to the place that was reserved, at the old length
  pub fill : ℕ → List ℕ → Built → Built
  unfolding copy_bytes
  fill at bytes (false, string) = (false, string)
  fill at bytes (true, string) = (true, record string { chars = copy_bytes string.chars at bytes })

  -- `heapStringAddString`
  unfoldable pub heap_string_add_string : HeapString → List ℕ → Built
  unfolding fill reserve_heap_string
  heap_string_add_string string str =
      fill string.length str (reserve_heap_string string (length str))

  -- `heapStringAddChar`
  unfoldable pub heap_string_add_char : HeapString → ℕ → Built
  unfolding fill reserve_heap_string
  heap_string_add_char string ch = fill string.length (ch ∷ []) (reserve_heap_string string 1)
