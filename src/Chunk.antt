-- ===== src/Chunk.antt =====
-- Bytecode chunks, elox/lib/chunk.c, elox/include/elox/chunk.h and elox/include/elox/opcodes.h.
pub mod Bytes
pub mod Lines
pub mod Marks
pub mod Writes
use slox.Memory.{grow_capacity}
use slox.Prelude.{
  ℕ, zero, suc, ◌+◌, ◌-◌, ◌/◌, Bool, true, false, ◌&&◌, ◌||◌, List, [], ◌∷◌, ◌++◌, Option, none,
  some, length, get_or, set, replicate, leb, ltb, ◌==◌, if◌then◌else◌,
}
use slox.Value.{Value}
use slox.ValueArray.{ValueArray, init_value_array, value_array_push}

pub data OpCode : Type 0 where
  op_const8 op_const16 op_immi op_nil op_true op_false op_pop op_popn op_swap op_num_varargs :
      OpCode
  op_expand_varargs op_expand op_peek op_get_local op_get_vararg op_get_global op_get_builtin :
      OpCode
  op_define_global op_set_local op_set_vararg op_set_global op_get_upvalue op_set_upvalue : OpCode
  op_get_prop op_get_member_prop op_map_get op_set_prop op_set_member_prop op_map_set op_get_super :
      OpCode
  op_equal op_greater op_less op_add op_subtract op_multiply op_divide op_modulo op_instanceof :
      OpCode
  op_in op_not op_negate op_jump op_jump_if_false op_loop op_call op_invoke op_member_invoke :
      OpCode
  op_super_invoke op_super_init op_closure op_close_upvalue op_return op_end op_intf op_class :
      OpCode
  op_inherit op_abs_method op_method op_static op_field op_close_class op_array_build op_index :
      OpCode
  op_index_store op_slice op_map_build op_throw op_push_exh op_unroll_exh op_unroll_exh_r : OpCode
  op_unroll_exh_f op_foreach_init op_unpack op_import op_data op_invalid : OpCode

pub record LineStart : Type 0 where
  pub offset : ℕ
  pub line : ℕ

pub record Chunk : Type 0 where
  pub count : ℕ
  pub capacity : ℕ
  pub code : List ℕ
  pub constants : ValueArray
  pub file_name : Option ℕ
  pub line_count : ℕ
  pub line_capacity : ℕ
  pub lines : List LineStart

abbrev pub init_chunk : Option ℕ → Chunk
init_chunk file_name = record {
  count = 0;
  capacity = 0;
  code = [];
  constants = init_value_array;
  file_name = file_name;
  line_count = 0;
  line_capacity = 0;
  lines = [];
}

-- `freeChunk`, apart from the return of the memory
abbrev pub free_chunk : Chunk → Chunk
free_chunk chunk = init_chunk none

abbrev pub no_line : LineStart
no_line = record { offset = 0; line = 0 }

-- `memcpy(code + at, data, len)`
unfoldable pub copy_bytes : List ℕ → ℕ → List ℕ → List ℕ
copy_bytes code at [] = code
copy_bytes code at (byte ∷ bytes) = copy_bytes (set code at byte) (at + 1) bytes

-- whether the memory lasted, and the chunk
abbrev pub Reserved : Type 0
Reserved = Bool × Chunk

-- how a write ends: done, the compile error for exhausted memory, or undefined behaviour, when the next
-- store would be outside the array that is allocated
pub data Written : Type 0 where
  written : Chunk → Written
  not_written : Chunk → Written
  outside : Chunk → Written

module _ (alloc : ℕ → Bool) where
  -- When the allocation fails, the array stays but its capacity does not.
  unfoldable pub reserve_code : Chunk → ℕ → Reserved
  reserve_code chunk len =
      let capacity = grow_capacity chunk.capacity in
      if ltb chunk.capacity (chunk.count + len)
      then if alloc capacity
        then (
          true,
          record chunk {
            capacity = capacity;
            code = chunk.code ++ replicate (capacity - chunk.capacity) 0;
          },
        )
        else (false, record chunk { capacity = capacity })
      else (true, chunk)

  unfoldable pub reserve_line : Chunk → Reserved
  reserve_line chunk =
      let capacity = grow_capacity chunk.line_capacity in
      if ltb chunk.line_capacity (chunk.line_count + 1)
      then if alloc capacity
        then (
          true,
          record chunk {
            line_capacity = capacity;
            lines = chunk.lines ++ replicate (capacity - chunk.line_capacity) no_line;
          },
        )
        else (false, record chunk { line_capacity = capacity })
      else (true, chunk)

  pub put_line : ℕ → Reserved → Written
  put_line line (false, chunk) = not_written chunk
  put_line line (true, chunk) =
      if ltb chunk.line_count (length chunk.lines)
      then written (record chunk {
        lines = set chunk.lines chunk.line_count (record { offset = chunk.count - 1; line = line });
        line_count = chunk.line_count + 1;
      })
      else outside chunk

  -- `lineCount > 0` and the last line is this one
  unfoldable pub same_line : Chunk → ℕ → Bool
  same_line chunk line =
      ltb 0 chunk.line_count && (get_or chunk.lines (chunk.line_count - 1) no_line).line == line

  pub put_code : List ℕ → ℕ → Reserved → Written
  unfolding put_line reserve_line same_line
  put_code bytes line (false, chunk) = not_written chunk
  put_code bytes line (true, chunk) =
      let stored = record chunk {
        code = copy_bytes chunk.code chunk.count bytes;
        count = chunk.count + length bytes;
      } in
      if leb (chunk.count + length bytes) (length chunk.code)
      then if same_line stored line then written stored else put_line line (reserve_line stored)
      else outside chunk

  unfoldable pub write_chunk : Chunk → List ℕ → ℕ → Written
  unfolding put_code reserve_code
  write_chunk chunk bytes line = put_code bytes line (reserve_code chunk (length bytes))

  pub constant_index : Chunk → Bool × ValueArray → Option ℕ × Chunk
  constant_index chunk (false, array) = (none, record chunk { constants = array })
  constant_index chunk (true, array) = (some (array.count - 1), record chunk { constants = array })

  -- `none` for -1
  unfoldable pub add_constant : Chunk → Value → Option ℕ × Chunk
  unfolding constant_index
  add_constant chunk value = constant_index chunk (value_array_push alloc chunk.constants value)

-- The search of `getLine` between `start` and `end - 1`. The C variable `end` is one less, and may
-- be -1; then `(start + end) / 2` is 0 as here.
unfoldable pub search_line : ℕ → List LineStart → ℕ → ℕ → ℕ → ℕ → Option ℕ
search_line zero lines count instruction start end = none
search_line (suc rounds) lines count instruction start end =
    let mid = (start + end - 1) / 2 in
    let line = get_or lines mid no_line in
    let below = search_line rounds lines count instruction start mid in
    let above = search_line rounds lines count instruction (mid + 1) end in
    if ltb instruction line.offset
    then below
    else if mid + 1 == count || ltb instruction (get_or lines (mid + 1) no_line).offset
    then some line.line
    else above

-- `none`: the search does not end
unfoldable pub get_line : Chunk → ℕ → Option ℕ
unfolding search_line
get_line chunk instruction =
    search_line (suc chunk.line_count) chunk.lines chunk.line_count instruction 0 chunk.line_count
