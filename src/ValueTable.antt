-- ===== src/ValueTable.antt =====
-- The insertion-ordered table of values, elox/lib/ValueTable.c and elox/include/elox/ValueTable.h:
-- the representation of maps. `hash_value` and `values_equals` are `hashValue` and `valuesEquals`,
-- which call methods of the program that is run; `none` is a raised error. A key `undefined` marks
-- a deleted entry; the index -1 is `none`.
use slox.Memory.{ctz, index_for}
use slox.Prelude.{
  ℕ, zero, suc, ◌+◌, ◌-◌, ◌*◌, ◌/◌, ◌%◌, ◌^◌, Bool, true, false, List, [], ◌∷◌, Option, none, some,
  get_or, set, replicate, leb, ltb, ◌==◌, if◌then◌else◌,
}
use slox.Table.{is_key}
use slox.Value.{Value, nil, undefined, is_undefined}

pub record TableEntry : Type 0 where
  pub key : Value
  pub value : Value
  pub next : Option ℕ
  pub hash : ℕ

pub record ValueTable : Type 0 where
  pub chains : List (Option ℕ)
  pub entries : List TableEntry
  pub index_size : ℕ
  pub data_size : ℕ
  pub index_shift : ℕ
  pub full_count : ℕ
  pub live_count : ℕ
  pub mod_count : ℕ

abbrev pub init_value_table : ValueTable
init_value_table = record {
  chains = [];
  entries = [];
  index_size = 0;
  data_size = 0;
  index_shift = 0;
  full_count = 0;
  live_count = 0;
  mod_count = 0;
}

-- `freeValueTable`, apart from the return of the memory
abbrev pub free_value_table : ValueTable → ValueTable
free_value_table table = init_value_table

-- an entry of a new array, before it is written
abbrev pub unwritten : TableEntry
unwritten = record { key = undefined; value = nil; next = none; hash = 0 }

abbrev pub table_entry : List TableEntry → ℕ → TableEntry
table_entry entries i = get_or entries i unwritten

-- how an operation ends: with a result, with a raised error, or (a chain that does not end, a read
-- outside the table) with no defined behaviour
pub data Effect (A : Type 0) : Type 0 where
  result : A → Effect A
  raised : ValueTable → Effect A
  not_defined : Effect A

-- `valueTableGetNext` from `i` on, for at most `rounds` entries: an entry with the next index
unfoldable pub next_live : ℕ → List TableEntry → ℕ → Option (TableEntry × ℕ)
next_live zero entries i = none
next_live (suc rounds) entries i =
    let rest = next_live rounds entries (i + 1) in
    let e = table_entry entries i in if is_undefined e.key then rest else some (e, i + 1)

-- `none` for -1; a negative start is not modelled
unfoldable pub value_table_get_next : ValueTable → ℕ → Option (TableEntry × ℕ)
unfolding next_live
value_table_get_next table start = next_live (table.full_count - start) table.entries start

pub record NewArrays : Type 0 where
  pub new_chains : List (Option ℕ)
  pub new_entries : List TableEntry
  pub written : ℕ

-- an entry is appended to the new arrays and put at the head of its chain
unfoldable pub move_entry : ℕ → TableEntry → NewArrays → NewArrays
move_entry shift e c =
    let bucket = index_for e.hash shift in
    if is_undefined e.key then c else record {
      new_chains = set c.new_chains bucket (some c.written);
      new_entries =
          set c.new_entries c.written (record e { next = get_or c.new_chains bucket none });
      written = c.written + 1;
    }

-- the loop of `rehash` over the first `count` of the old entries
unfoldable pub move_entries : ℕ → List TableEntry → ℕ → NewArrays → NewArrays
unfolding move_entry
move_entries shift [] count c = c
move_entries shift (e ∷ es) zero c = c
move_entries shift (e ∷ es) (suc count) c = move_entries shift es count (move_entry shift e c)

-- In place, the loop increments `table` and not `i`: from the second round on it reads beyond the
-- table.
abbrev pub rehash_same_size : ValueTable → Effect ValueTable
rehash_same_size table =
    if table.data_size == 0
    then result
        (record table { chains = replicate table.index_size none; full_count = table.live_count })
    else not_defined

abbrev pub resized : ValueTable → ℕ → ValueTable
resized table size =
    let shift = 32 - ctz 32 size in
    let data_size = size * 3 / 4 in
    let c = move_entries shift table.entries table.full_count (record {
      new_chains = replicate size none;
      new_entries = replicate data_size unwritten;
      written = 0;
    }) in
    record table {
      chains = c.new_chains;
      entries = c.new_entries;
      index_size = size;
      data_size = data_size;
      index_shift = shift;
      full_count = table.live_count;
    }

-- the entry is appended and put at the head of its chain
unfoldable pub append_value : ValueTable → Value → Value → ℕ → ValueTable
append_value table key value hash =
    let bucket = index_for hash table.index_shift in
    record table {
      live_count = table.live_count + 1;
      full_count = table.full_count + 1;
      entries = set table.entries table.full_count (record {
        key = key;
        value = value;
        next = get_or table.chains bucket none;
        hash = hash;
      });
      chains = set table.chains bucket (some table.full_count);
    }

pub append_after : Value → Value → ℕ → Effect ValueTable → Effect (Bool × ValueTable)
unfolding append_value
append_after key value hash (result table) = result (true, append_value table key value hash)
append_after key value hash (raised table) = raised table
append_after key value hash not_defined = not_defined

-- `table->modCount++`
abbrev pub modified : ValueTable → ValueTable
modified table = record table { mod_count = (table.mod_count + 1) % 2 ^ 32 }

-- `alloc n` tells whether arrays for `n` chains can be allocated
module _ (alloc : ℕ → Bool) where
  unfoldable pub value_rehash : ValueTable → ℕ → Effect ValueTable
  unfolding move_entries
  value_rehash table new_size =
      let size = if new_size == 0 then 8 else new_size in
      if size == table.index_size
      then rehash_same_size table
      else if alloc size
      then result (resized table size)
      else raised table

  unfoldable pub make_space : ValueTable → Effect ValueTable
  unfolding value_rehash
  make_space table =
      if table.full_count == table.data_size
      then value_rehash table (
          if leb (table.data_size * 3 / 4) table.live_count
          then 2 * table.index_size
          else table.index_size)
      else result table

  pub set_at : ValueTable → Value → Value → ℕ → Option ℕ → Effect (Bool × ValueTable)
  unfolding make_space append_after
  set_at table key value hash none = append_after key value hash (make_space (modified table))
  set_at table key value hash (some i) = result (
    false,
    record table {
      entries = set table.entries i (record (table_entry table.entries i) { value = value });
    },
  )

module _ (hash_value : Value → Option ℕ) (values_equals : Value → Value → Option Bool) where
  -- one entry of a chain: `e` is the test for equality, `rest` the search of the other entries
  pub chain_step : ValueTable → ℕ → Option Bool → Effect (Option ℕ) → Effect (Option ℕ)
  chain_step table i none rest = raised table
  chain_step table i (some true) rest = result (some i)
  chain_step table i (some false) rest = rest

  -- the loop of `lookup` from an index on
  unfoldable pub value_chain : ℕ → ValueTable → Value → Option ℕ → Effect (Option ℕ)
  unfolding chain_step
  value_chain fuel table key none = result none
  value_chain zero table key (some i) = not_defined
  value_chain (suc fuel) table key (some i) =
      let e = table_entry table.entries i in
      let rest = value_chain fuel table key e.next in
      if is_undefined e.key then rest else chain_step table i (values_equals e.key key) rest

  unfoldable pub value_lookup : ValueTable → Value → ℕ → Effect (Option ℕ)
  unfolding value_chain
  value_lookup table key hash =
      value_chain (suc table.full_count) table key
        (get_or table.chains (index_for hash table.index_shift) none)

  -- the hash of the key, or its error, before what follows
  pub with_hash : {A : Type 0} → ValueTable → Option ℕ → (ℕ → Effect A) → Effect A
  with_hash table none k = raised table
  with_hash table (some hash) k = k hash

  pub on_found : {A : Type 0} → Effect (Option ℕ) → (Option ℕ → Effect A) → Effect A
  on_found (result i) k = k i
  on_found (raised table) k = raised table
  on_found not_defined k = not_defined

  pub found_at : ValueTable → Option ℕ → Option Value
  found_at table none = none
  found_at table (some i) = some (table_entry table.entries i).value

  unfoldable pub value_table_get : ValueTable → Value → Effect (Option Value)
  unfolding with_hash on_found found_at value_lookup
  value_table_get table key =
      if table.live_count == 0
      then result none
      else with_hash table (hash_value key)
          (λ hash. on_found (value_lookup table key hash) (λ i. result (found_at table i)))

  unfoldable pub value_table_contains : ValueTable → Value → Effect Bool
  unfolding with_hash on_found value_lookup is_key
  value_table_contains table key =
      if table.live_count == 0
      then result false
      else with_hash table (hash_value key)
          (λ hash. on_found (value_lookup table key hash) (λ i. result (is_key i)))

  unfoldable pub value_table_set :
      (ℕ → Bool) → ValueTable → Value → Value → Effect (Bool × ValueTable)
  unfolding with_hash on_found set_at value_lookup
  value_table_set alloc table key value = with_hash table (hash_value key) (λ hash.
      on_found (if ltb 0 table.live_count then value_lookup table key hash else result none)
        (set_at alloc table key value hash))

  pub erase : ValueTable → Option ℕ → Bool × ValueTable
  erase table none = (false, table)
  erase table (some i) = (
    true,
    record (modified table) {
      entries = set table.entries i (record (table_entry table.entries i) { key = undefined });
      live_count = table.live_count - 1;
    },
  )

  unfoldable pub value_table_delete : ValueTable → Value → Effect (Bool × ValueTable)
  unfolding with_hash on_found erase value_lookup
  value_table_delete table key =
      if table.live_count == 0
      then result (false, table)
      else with_hash table (hash_value key)
          (λ hash. on_found (value_lookup table key hash) (λ i. result (erase table i)))
