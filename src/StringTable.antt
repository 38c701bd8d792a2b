-- ===== src/StringTable.antt =====
-- The insertion-ordered table of strings, elox/lib/StringTable.c and
-- elox/include/elox/StringTable.h. A key is the address of its string, `none` is `EST_TOMBSTONE`;
-- the index -1 is `none`. A result `none` says that a chain does not end, or that the behaviour is
-- undefined.
pub mod Linked
pub mod Indexed
pub mod Deletes
pub mod Stores
use slox.Memory.{ctz, index_for}
use slox.Prelude.{
  ℕ, zero, suc, ◌+◌, ◌-◌, ◌*◌, ◌/◌, Bool, true, false, List, [], ◌∷◌, Option, none, some, get_or,
  set, replicate, leb, ◌==◌, if◌then◌else◌, ◌>>=◌,
}
use slox.Table.{StringObject, is_key}
use slox.Value.{Value, nil}

pub record StringTableEntry : Type 0 where
  pub key : Option ℕ
  pub value : Value
  pub next : Option ℕ

pub record StringTable : Type 0 where
  pub chains : List (Option ℕ)
  pub entries : List StringTableEntry
  pub index_size : ℕ
  pub data_size : ℕ
  pub index_shift : ℕ
  pub full_count : ℕ
  pub live_count : ℕ

abbrev pub init_string_table : StringTable
init_string_table = record {
  chains = [];
  entries = [];
  index_size = 0;
  data_size = 0;
  index_shift = 0;
  full_count = 0;
  live_count = 0;
}

-- `freeStringTable`, apart from the return of the memory
abbrev pub free_string_table : StringTable → StringTable
free_string_table table = init_string_table

-- an entry of a new array, before it is written
abbrev pub new_entry : StringTableEntry
new_entry = record { key = none; value = nil; next = none }

abbrev pub entry_of : List StringTableEntry → ℕ → StringTableEntry
entry_of entries i = get_or entries i new_entry

-- `entry->key == key`
unfoldable pub has_key : Option ℕ → ℕ → Bool
has_key none key = false
has_key (some k) key = k == key

-- the loop of `lookup` from an index on
unfoldable pub lookup_chain : ℕ → List StringTableEntry → ℕ → Option ℕ → Option (Option ℕ)
unfolding has_key
lookup_chain fuel entries key none = some none
lookup_chain zero entries key (some i) = none
lookup_chain (suc fuel) entries key (some i) =
    let rest = lookup_chain fuel entries key (entry_of entries i).next in
    if has_key (entry_of entries i).key key then some (some i) else rest

-- the two results of an insertion, and the failed allocation
pub data Inserted : Type 0 where
  added : Bool → StringTable → Inserted
  no_memory : StringTable → Inserted

module _ (heap : ℕ → StringObject) where
  abbrev pub bucket_of : ℕ → ℕ → ℕ
  bucket_of shift key = index_for (heap key).hash shift

  unfoldable pub lookup : StringTable → ℕ → Option (Option ℕ)
  unfolding lookup_chain
  lookup table key =
      lookup_chain (suc table.full_count) table.entries key
        (get_or table.chains (bucket_of table.index_shift key) none)

  abbrev pub value_at : StringTable → Option ℕ → Option Value
  value_at table none = none
  value_at table (some i) = some (entry_of table.entries i).value

  unfoldable pub string_table_get : StringTable → ℕ → Option (Option Value)
  string_table_get table key =
      if table.live_count == 0 then some none else lookup table key >>= λ i. some (value_at table i)

  unfoldable pub string_table_get_index : StringTable → ℕ → Option (Option ℕ)
  string_table_get_index table key = if table.live_count == 0 then some none else lookup table key

  unfoldable pub string_table_contains : StringTable → ℕ → Option Bool
  unfolding is_key
  string_table_contains table key =
      if table.live_count == 0 then some false else lookup table key >>= λ i. some (is_key i)

  -- the new arrays with the number of the entries written
  pub record Copied : Type 0 where
    pub new_chains : List (Option ℕ)
    pub new_entries : List StringTableEntry
    pub written : ℕ

  -- an entry is appended to the new arrays and put at the head of its chain
  pub copy_live : ℕ → Option ℕ → Value → Copied → Copied
  copy_live shift none value c = c
  copy_live shift (some key) value c =
      let bucket = bucket_of shift key in
      record {
        new_chains = set c.new_chains bucket (some c.written);
        new_entries =
            set c.new_entries c.written
              (record { key = some key; value = value; next = get_or c.new_chains bucket none });
        written = c.written + 1;
      }

  -- the loop of `rehash` over the first `count` of the old entries
  unfoldable pub copy_entries : ℕ → List StringTableEntry → ℕ → Copied → Copied
  unfolding copy_live
  copy_entries shift [] count c = c
  copy_entries shift (e ∷ es) zero c = c
  copy_entries shift (e ∷ es) (suc count) c =
      copy_entries shift es count (copy_live shift e.key e.value c)

  -- In place, the loop increments `table` and not `i`: from the second round on it reads beyond the
  -- table.
  abbrev pub rehash_in_place : StringTable → Option (Bool × StringTable)
  rehash_in_place table =
      if table.data_size == 0
      then some (
        true,
        record table { chains = replicate table.index_size none; full_count = table.live_count },
      )
      else none

  abbrev pub rehashed : StringTable → ℕ → StringTable
  rehashed table size =
      let shift = 32 - ctz 32 size in
      let data_size = size * 3 / 4 in
      let c = copy_entries shift table.entries table.full_count (record {
        new_chains = replicate size none;
        new_entries = replicate data_size new_entry;
        written = 0;
      }) in
      record {
        chains = c.new_chains;
        entries = c.new_entries;
        index_size = size;
        data_size = data_size;
        index_shift = shift;
        full_count = table.live_count;
        live_count = table.live_count;
      }

  -- `alloc n` tells whether arrays for `n` chains can be allocated; false is the raised error
  unfoldable pub rehash : (ℕ → Bool) → StringTable → ℕ → Option (Bool × StringTable)
  unfolding copy_entries
  rehash alloc table new_size =
      let size = if new_size == 0 then 8 else new_size in
      if size == table.index_size
      then rehash_in_place table
      else if alloc size
      then some (true, rehashed table size)
      else some (false, table)

  -- the entry is appended and put at the head of its chain
  unfoldable pub append : StringTable → ℕ → Value → StringTable
  append table key value =
      let bucket = bucket_of table.index_shift key in
      record table {
        live_count = table.live_count + 1;
        full_count = table.full_count + 1;
        entries =
            set table.entries table.full_count
              (record { key = some key; value = value; next = get_or table.chains bucket none });
        chains = set table.chains bucket (some table.full_count);
      }

  pub append_if : ℕ → Value → Bool × StringTable → Option Inserted
  unfolding append
  append_if key value (false, table) = some (no_memory table)
  append_if key value (true, table) = some (added true (append table key value))

  unfoldable pub ready_to_append : (ℕ → Bool) → StringTable → Option (Bool × StringTable)
  unfolding rehash
  ready_to_append alloc table =
      if table.full_count == table.data_size
      then rehash alloc table (
          if leb (table.data_size * 3 / 4) table.live_count
          then 2 * table.index_size
          else table.index_size)
      else some (true, table)

  pub set_found : (ℕ → Bool) → StringTable → ℕ → Value → Option ℕ → Option Inserted
  unfolding append_if ready_to_append
  set_found alloc table key value none = ready_to_append alloc table >>= append_if key value
  set_found alloc table key value (some i) = some (
      added false (record table {
        entries = set table.entries i (record (entry_of table.entries i) { value = value });
      }))

  unfoldable pub string_table_set : (ℕ → Bool) → StringTable → ℕ → Value → Option Inserted
  unfolding set_found lookup
  string_table_set alloc table key value = do
    i ← if table.live_count == 0 then some none else lookup table key
    set_found alloc table key value i

  pub next_insert : (StringTable → Option Inserted) → Inserted → Option Inserted
  next_insert k (added new table) = k table
  next_insert k (no_memory table) = some (no_memory table)

  pub insert_entry :
      (ℕ → Bool)
      → Option ℕ
      → Value
      → (StringTable → Option Inserted)
      → StringTable
      → Option Inserted
  unfolding next_insert string_table_set
  insert_entry alloc none value k to = k to
  insert_entry alloc (some key) value k to = string_table_set alloc to key value >>= next_insert k

  -- the loop of `stringTableAddAll` over the first `count` entries
  unfoldable pub insert_entries :
      (ℕ → Bool) → List StringTableEntry → ℕ → StringTable → Option Inserted
  unfolding insert_entry
  insert_entries alloc [] count to = some (added true to)
  insert_entries alloc (e ∷ es) zero to = some (added true to)
  insert_entries alloc (e ∷ es) (suc count) to =
      insert_entry alloc e.key e.value (insert_entries alloc es count) to

  unfoldable pub string_table_add_all : (ℕ → Bool) → StringTable → StringTable → Option Inserted
  unfolding insert_entries
  string_table_add_all alloc from to = insert_entries alloc from.entries from.full_count to

  pub delete_found : StringTable → Option ℕ → Bool × StringTable
  delete_found table none = (false, table)
  delete_found table (some i) = (
    true,
    record table {
      entries = set table.entries i (record (entry_of table.entries i) { key = none });
      live_count = table.live_count - 1;
    },
  )

  unfoldable pub string_table_delete : StringTable → ℕ → Option (Bool × StringTable)
  unfolding delete_found lookup
  string_table_delete table key =
      if table.live_count == 0
      then some (false, table)
      else lookup table key >>= λ i. some (delete_found table i)
