-- ===== src/Tests/Arrays.antt =====
-- Arrays, chunks and the table of strings at concrete contents.
use slox.Chunk.Lines.{FindsLine, get_line-Finds}
use slox.Chunk.Writes.{IsChunk, WriteResult, write_chunk-Writes}
use slox.Chunk.{Chunk, init_chunk, get_line, write_chunk}
use slox.Memory.{index_for}
use slox.Prelude.{
  ℕ, ◌<◌, Bool, [], ◌∷◌, Option, none, some, refl, arith, ltb, get_or, get_or-replicate, length,
  zero, suc, replicate, ◌≡◌, subst,
}
use slox.StringTable.Deletes.{Deletes, string_table_delete-Deletes}
use slox.StringTable.Indexed.{IsTable, keys}
use slox.StringTable.Linked.{Linked, Below}
use slox.StringTable.Stores.{Sets, string_table_set-Sets}
use slox.StringTable.{
  has_key, lookup, lookup_chain, string_table_delete, StringTable, new_entry, entry_of, bucket_of,
  string_table_set,
}
use slox.Table.{StringObject, is_key}
use slox.Value.{number, nil}
use slox.ValueArray.Push.{Pushes, Sized, value_array_push-Pushes}
use slox.ValueArray.{ValueArray, value_array_push}

abbrev alloc : ℕ → Bool
alloc n = ltb n 1000

-- eight values fill the array
abbrev full_array : ValueArray
full_array = record { capacity = 8; count = 8; values = replicate 8 (number 3) }

full_array-Sized : Sized full_array
full_array-Sized = record { width = refl; fits = omega arith }

value_array_push-Pushes_example :
    Pushes alloc full_array
      (number 4)
      full_array-Sized
      (value_array_push alloc full_array (number 4))
value_array_push-Pushes_example =
    value_array_push-Pushes alloc full_array (number 4) full_array-Sized

-- the code at 0 to 3 is of line 1, at 4 to 8 of line 2, and from 9 on of line 5
abbrev three_lines : Chunk
three_lines = record (init_chunk none) {
  count = 12;
  line_count = 3;
  lines =
      record { offset = 0; line = 1 }
      ∷ record { offset = 4; line = 2 }
      ∷ record { offset = 9; line = 5 }
      ∷ [];
}

get_line-Finds_example : FindsLine three_lines.lines 3 6 (get_line three_lines 6)
get_line-Finds_example = get_line-Finds three_lines 6 (omega arith) (omega arith)

abbrev heap : ℕ → StringObject
heap k = record { hash = 0; chars = k ∷ []; markers = 1 }

-- a table with one entry, whose key is 7, in the bucket 0
abbrev one_entry : StringTable
one_entry = record {
  chains = some 0 ∷ replicate 7 none;
  entries =
      record { key = some 7; value = nil; next = none }
      ∷ new_entry
      ∷ new_entry
      ∷ new_entry
      ∷ new_entry
      ∷ new_entry
      ∷ [];
  index_size = 8;
  data_size = 6;
  index_shift = 29;
  full_count = 1;
  live_count = 1;
}

one_heads : (b : ℕ) → Below 1 (get_or one_entry.chains b none)
one_heads zero = omega arith
one_heads (suc b) = rw (get_or-replicate {A = Option ℕ} 7 b none) tt

one_older : (i : ℕ) → i < 1 → Below i (entry_of one_entry.entries i).next
one_older zero lt = tt
one_older (suc i) lt = absurd (omega arith)

one_entry-Linked : Linked one_entry
one_entry-Linked = record { heads = one_heads; older = one_older; fits = omega arith; width = refl }

one_indexed :
    (i k : ℕ)
    → i < 1
    → (entry_of one_entry.entries i).key ≡ some k
    → lookup heap one_entry k ≡ some (some i)
unfolding lookup lookup_chain has_key index_for
one_indexed zero k lt e =
    let s : 7 ≡ k = cc in subst (λ k. lookup heap one_entry k ≡ some (some 0)) s refl
one_indexed (suc i) k lt e = absurd (omega (arith, lt))

one_entry-IsTable : IsTable heap one_entry
unfolding keys is_key
one_entry-IsTable = record { linked = one_entry-Linked; indexed = one_indexed; counted = refl }

bucket_lt : bucket_of heap one_entry.index_shift 5 < length one_entry.chains
unfolding index_for
bucket_lt = omega arith

string_table_set-Sets_example :
    Sets heap one_entry 5
      (number 9)
      one_entry-IsTable
      (string_table_set heap alloc one_entry 5 (number 9))
string_table_set-Sets_example =
    string_table_set-Sets heap one_entry 5 (number 9) one_entry-IsTable alloc bucket_lt
      (omega arith)

string_table_delete-Deletes_example :
    Deletes heap one_entry 7 one_entry-IsTable (string_table_delete heap one_entry 7)
string_table_delete-Deletes_example = string_table_delete-Deletes heap one_entry 7 one_entry-IsTable

empty-IsChunk : IsChunk (init_chunk none)
empty-IsChunk = record {
  lined = record {
    width = refl;
    fits = omega arith;
    rising = λ i j a b. absurd (omega (arith, b));
    below = λ i a. absurd (omega (arith, a));
  };
  code_width = refl;
  code_fits = omega arith;
}

write_chunk-Writes_example :
    WriteResult
      (λ n. ltb n 100)
      (init_chunk none)
      (1 ∷ 2 ∷ [])
      7
      (write_chunk (λ n. ltb n 100) (init_chunk none) (1 ∷ 2 ∷ []) 7)
write_chunk-Writes_example =
    write_chunk-Writes (λ n. ltb n 100) (init_chunk none) (1 ∷ 2 ∷ []) 7 empty-IsChunk (omega arith)
