-- ===== src/Table.antt =====
-- The open-addressing table from interned strings to values, elox/lib/table.c and
-- elox/include/elox/table.h. A key is the address of its string; `none` is `NULL`. Capacities are
-- powers of two, so that `& (capacity - 1)` is the remainder by the capacity. `none` as the result
-- of a search means that it does not end within one turn round the table.
pub mod Probe
pub mod Placed
pub mod Rehash
pub mod Growth
pub mod Room
pub mod Map
pub mod Update
pub mod Delete
pub mod Distance
pub mod Shift
pub mod Closing
pub mod Removal
pub mod Search
pub mod Keys
pub mod Store
use slox.Memory.{grow_capacity, ctz, index_for}
use slox.Prelude.{
  ℕ, zero, suc, ◌+◌, ◌-◌, ◌*◌, ◌%◌, Bool, true, false, not, ◌&&◌, ◌||◌, List, [], ◌∷◌, Option, none,
  some, length, get_or, set, replicate, leb, ltb, ◌==◌, if◌then◌else◌, ◌>>=◌, bytes_equal,
}
use slox.Value.{Value, nil, is_nil}

-- what the table reads of an `ObjString`
pub record StringObject : Type 0 where
  pub hash : ℕ
  pub chars : List ℕ
  pub markers : ℕ

pub record Entry : Type 0 where
  pub key : Option ℕ
  pub value : Value

pub record Table : Type 0 where
  pub count : ℕ
  pub capacity : ℕ
  pub shift : ℕ
  pub entries : List Entry

abbrev pub empty_entry : Entry
empty_entry = record { key = none; value = nil }

-- the shift stays as it is
abbrev pub init_table : Table → Table
init_table table = record table { count = 0; capacity = 0; entries = [] }

-- `freeTable`, apart from the return of the memory
abbrev pub free_table : Table → Table
free_table table = init_table table

abbrev pub entry_at : List Entry → ℕ → Entry
entry_at entries i = get_or entries i empty_entry

-- the test that ends a search: an empty slot, or the key
unfoldable pub stops : Option ℕ → ℕ → Bool
stops none key = true
stops (some k) key = k == key

unfoldable pub find_slot : ℕ → List Entry → ℕ → ℕ → ℕ → Option ℕ
find_slot zero entries capacity key index = none
find_slot (suc turns) entries capacity key index =
    let rest = find_slot turns entries capacity key ((index + 1) % capacity) in
    if stops (entry_at entries index).key key then some index else rest

-- the new state with the result, or no memory
pub data Outcome : Type 0 where
  done : Bool → Table → Outcome
  out_of_memory : Table → Outcome

-- `key != NULL`, `dest->key == NULL`
unfoldable pub is_key : Option ℕ → Bool
is_key none = false
is_key (some k) = true

-- the slots at distance, `MODULO_DISTANCE`
unfoldable pub modulo_distance : ℕ → ℕ → ℕ → ℕ
modulo_distance capacity a b = if leb a b then b - a else capacity + b - a

-- `NEXT_ENTRY`
unfoldable pub next_entry : ℕ → ℕ → ℕ
next_entry capacity i = if i + 1 == capacity then 0 else i + 1

module _ (heap : ℕ → StringObject) where
  unfoldable pub home : ℕ → ℕ → ℕ
  home shift key = index_for (heap key).hash shift

  -- `findEntry`, as the index of the entry
  unfoldable pub find_entry : List Entry → ℕ → ℕ → ℕ → Option ℕ
  unfolding find_slot home
  find_entry entries capacity shift key = find_slot capacity entries capacity key (home shift key)

  pub found_value : List Entry → Option ℕ → Option (Option Value)
  found_value entries none = none
  found_value entries (some i) =
      some (if is_key (entry_at entries i).key then some (entry_at entries i).value else none)

  unfoldable pub table_get : Table → ℕ → Option (Option Value)
  unfolding found_value
  table_get table key =
      if table.count == 0
      then some none
      else found_value table.entries (find_entry table.entries table.capacity table.shift key)

  pub found_index : List Entry → Option ℕ → Option (Option ℕ)
  found_index entries none = none
  found_index entries (some i) = some (if is_key (entry_at entries i).key then some i else none)

  -- `tableGetIndex`, with `none` for -1
  unfoldable pub table_get_index : Table → ℕ → Option (Option ℕ)
  unfolding found_index
  table_get_index table key =
      if table.count == 0
      then some none
      else found_index table.entries (find_entry table.entries table.capacity table.shift key)

  pub write_slot : List Entry → ℕ → Value → Option ℕ → Option (List Entry)
  write_slot entries key value none = none
  write_slot entries key value (some i) =
      some (set entries i (record { key = some key; value = value }))

  -- a slot of the old table goes to its place in the new one, and is counted
  pub copy_entry : Option ℕ → Value → ℕ → ℕ → List Entry → ℕ → Option (List Entry × ℕ)
  unfolding write_slot
  copy_entry none value capacity shift entries count = some (entries, count)
  copy_entry (some key) value capacity shift entries count = do
    entries' ← write_slot entries key value (find_entry entries capacity shift key)
    some (entries', count + 1)

  -- the loop of `adjustCapacity` over the old entries
  unfoldable pub reinsert : List Entry → ℕ → ℕ → List Entry → ℕ → Option (List Entry × ℕ)
  unfolding copy_entry
  reinsert [] capacity shift entries count = some (entries, count)
  reinsert (e ∷ es) capacity shift entries count = do
    (entries', count') ← copy_entry e.key e.value capacity shift entries count
    reinsert es capacity shift entries' count'

  adjusted : ℕ → ℕ → List Entry × ℕ → Option (Bool × Table)
  adjusted capacity shift (entries, count) =
      some (true, record { count = count; capacity = capacity; shift = shift; entries = entries })

  -- `alloc n` tells whether an array of `n` entries can be allocated
  module _ (alloc : ℕ → Bool) where
    unfoldable pub adjust_capacity : Table → ℕ → Option (Bool × Table)
    unfolding reinsert adjusted
    adjust_capacity table new_capacity =
        let shift = 32 - ctz 32 new_capacity in
        if alloc new_capacity
        then reinsert table.entries new_capacity shift (replicate new_capacity empty_entry) 0
          >>= adjusted new_capacity shift
        else some (false, table)

    -- `table->count + 1 > table->capacity * TABLE_MAX_LOAD`, a load of 3/4
    unfoldable pub make_room : Table → Option (Bool × Table)
    unfolding adjust_capacity
    make_room table =
        if ltb (table.capacity * 3) ((table.count + 1) * 4)
        then adjust_capacity table (grow_capacity table.capacity)
        else some (true, table)

  -- `isNewKey && IS_NIL(entry->value)`
  unfoldable pub is_fresh : Entry → Bool
  is_fresh e = not (is_key e.key) && is_nil e.value

  pub store : Table → ℕ → Value → Option ℕ → Option Outcome
  unfolding is_fresh
  store table key value none = none
  store table key value (some i) =
      let e = entry_at table.entries i in
      some (
        done (not (is_key e.key)) (record table {
          count = if is_fresh e then table.count + 1 else table.count;
          entries = set table.entries i (record { key = some key; value = value });
        }))

  pub set_prepared : ℕ → Value → Bool × Table → Option Outcome
  unfolding store
  set_prepared key value (false, table) = some (out_of_memory table)
  set_prepared key value (true, table) =
      store table key value (find_entry table.entries table.capacity table.shift key)

  unfoldable pub table_set : (ℕ → Bool) → Table → ℕ → Value → Option Outcome
  unfolding set_prepared make_room
  table_set alloc table key value = make_room alloc table >>= set_prepared key value

  pub store_if_missing : Table → ℕ → Value → Option ℕ → Option (Value × Table)
  unfolding is_fresh
  store_if_missing table key value none = none
  store_if_missing table key value (some i) =
      let e = entry_at table.entries i in
      some (
        if is_fresh e
        then (
          value,
          record table {
            count = table.count + 1;
            entries = set table.entries i (record { key = some key; value = value });
          },
        )
        else (e.value, table))

  -- the result of the allocation is not tested here
  unfoldable pub table_set_if_missing : (ℕ → Bool) → Table → ℕ → Value → Option (Value × Table)
  unfolding store_if_missing make_room
  table_set_if_missing alloc table key value = do
    (_, t) ← make_room alloc table
    store_if_missing t key value (find_entry t.entries t.capacity t.shift key)

  -- whether the entry after the hole moves into it
  unfoldable pub moves_back : ℕ → ℕ → Option ℕ → ℕ → ℕ → Bool
  unfolding modulo_distance
  moves_back capacity shift none hole next = false
  moves_back capacity shift (some key) hole next =
      let natural = home shift key in
      ltb (modulo_distance capacity natural hole) (modulo_distance capacity natural next)

  -- the loop of `tableDelete`
  unfoldable pub close_hole : ℕ → List Entry → ℕ → ℕ → ℕ → ℕ → Option (List Entry)
  unfolding moves_back next_entry
  close_hole zero entries capacity shift hole next = none
  close_hole (suc turns) entries capacity shift hole next =
      let e = entry_at entries next in
      let moved = moves_back capacity shift e.key hole next in
      let rest =
        close_hole turns (if moved then set entries hole e else entries) capacity shift
          (if moved then next else hole) (next_entry capacity next) in
      if is_key e.key then rest else some (set entries hole empty_entry)

  pub delete_at : Table → Option ℕ → Option (Bool × Table)
  unfolding close_hole
  delete_at table none = some (false, table)
  delete_at table (some i) = do
    entries ←
        close_hole table.capacity table.entries table.capacity table.shift i
          (next_entry table.capacity i)
    some (true, record table { entries = entries; count = table.count - 1 })

  unfoldable pub table_delete : Table → ℕ → Option (Bool × Table)
  unfolding delete_at found_index
  table_delete table key = do
    i ← found_index table.entries (find_entry table.entries table.capacity table.shift key)
    delete_at table i

  pub add_rest : (Table → Option (Bool × Table)) → Outcome → Option (Bool × Table)
  add_rest k (done new table) = k table
  add_rest k (out_of_memory table) = some (false, table)

  -- one round: `k` is the loop over the other entries
  pub add_entry :
      (ℕ → Bool)
      → Option ℕ
      → Value
      → (Table → Option (Bool × Table))
      → Table
      → Option (Bool × Table)
  unfolding table_set add_rest
  add_entry alloc none value k to = k to
  add_entry alloc (some key) value k to = table_set alloc to key value >>= add_rest k

  pub add_entries : (ℕ → Bool) → List Entry → Table → Option (Bool × Table)
  unfolding add_entry
  add_entries alloc [] to = some (true, to)
  add_entries alloc (e ∷ es) to = add_entry alloc e.key e.value (add_entries alloc es) to

  -- false: the memory ran out
  unfoldable pub table_add_all : (ℕ → Bool) → Table → Table → Option (Bool × Table)
  unfolding add_entries
  table_add_all alloc from to = add_entries alloc from.entries to

  -- the test of `tableFindString` at a slot
  unfoldable pub stops_string : Option ℕ → List ℕ → ℕ → Bool
  unfolding bytes_equal
  stops_string none chars hash = true
  stops_string (some k) chars hash =
      length (heap k).chars == length chars
      && (heap k).hash == hash
      && bytes_equal (heap k).chars chars

  unfoldable pub find_string_slot : ℕ → List Entry → ℕ → List ℕ → ℕ → ℕ → Option ℕ
  unfolding stops_string
  find_string_slot zero entries capacity chars hash index = none
  find_string_slot (suc turns) entries capacity chars hash index =
      let rest = find_string_slot turns entries capacity chars hash ((index + 1) % capacity) in
      if stops_string (entry_at entries index).key chars hash then some index else rest

  -- `tableFindString`: the key of the slot where the search ends
  unfoldable pub table_find_string : Table → List ℕ → ℕ → Option (Option ℕ)
  unfolding find_string_slot
  table_find_string table chars hash =
      if table.count == 0
      then some none
      else find_string_slot table.capacity table.entries table.capacity chars hash
          (index_for hash table.shift)
        >>= λ i. some (entry_at table.entries i).key

  -- `tableGetString`
  unfoldable pub table_get_string : Table → List ℕ → ℕ → Option (Option Value)
  unfolding find_string_slot found_value
  table_get_string table chars hash =
      if table.count == 0
      then some none
      else found_value table.entries (
          find_string_slot table.capacity table.entries table.capacity chars hash
            (index_for hash table.shift))

  -- `entry->key != NULL && entry->key->obj.markers == 0`
  unfoldable pub is_white : Option ℕ → Bool
  is_white none = false
  is_white (some k) = (heap k).markers == 0

  pub delete_white : Option ℕ → Table → Option (Bool × Table)
  unfolding table_delete
  delete_white none table = some (false, table)
  delete_white (some k) table =
      if is_white (some k) then table_delete table k else some (false, table)

  -- the slots from `i` on, `rounds` of them
  unfoldable pub remove_white_from : ℕ → ℕ → Table → Option Table
  unfolding delete_white is_white
  remove_white_from zero i table = some table
  remove_white_from (suc rounds) i table = do
    (_, t) ← delete_white (entry_at table.entries i).key table
    remove_white_from rounds (i + 1) t

  unfoldable pub table_remove_white : Table → Option Table
  unfolding remove_white_from
  table_remove_white table = remove_white_from table.capacity 0 table
