-- ===== src/Tests/Tables.antt =====
-- The table of strings at concrete keys.
use slox.Memory
use slox.Prelude.{
  ℕ, ◌*◌, Bool, List, [], ◌∷◌, Option, none, some, ◌≡◌, refl, inl, arith, ltb, ◌>>=◌, ◌<◌, true,
  inr, subst,
}
use slox.Table
use slox.Table.Removal.{Removes, table_delete-Removes}
use slox.Table.Growth.{Valid}
use slox.Table.Update.{Binds, table_set-Binds, table_set-Sets}
use slox.Table.{
  StringObject, Entry, Table, Outcome, empty_entry, done, out_of_memory, init_table, table_set,
  table_get, table_delete,
}
use slox.Value.{number, is_nil}

-- the strings at the addresses 1, 2, ...: each has its address as its hash, times 7
abbrev heap : ℕ → StringObject
heap k = record { hash = k * 7; chars = k ∷ []; markers = 1 }

-- 1000 entries fit
abbrev alloc : ℕ → Bool
alloc n = ltb n 1000

abbrev new_table : Table
new_table = init_table (record { count = 0; capacity = 0; shift = 0; entries = [] })

table_set-Binds_example :
    Binds heap alloc new_table 3 (number 9) (table_set heap alloc new_table 3 (number 9))
table_set-Binds_example = table_set-Binds heap alloc new_table 3 (number 9) (inl refl) refl

-- What a test of the table computes with.
program : Unit {0}
unfolding Memory.grow_capacity Memory.ctz Memory.index_for Table.stops Table.find_slot Table.is_key
    Table.modulo_distance Table.next_entry Table.home Table.find_entry Table.table_get
    Table.reinsert Table.adjust_capacity Table.make_room Table.is_fresh Table.table_set
    Table.moves_back Table.close_hole Table.table_delete is_nil
program = tt

-- the state after a store
table_of : Option Outcome → Option Table
table_of none = none
table_of (some (done new t)) = some t
table_of (some (out_of_memory t)) = none

set_all : List ℕ → Table → Option Table
set_all [] t = some t
set_all (k ∷ ks) t = table_of (table_set heap alloc t k (number k)) >>= set_all ks

-- eight keys grow the table twice
grown_twice :
    (set_all (1 ∷ 2 ∷ 3 ∷ 4 ∷ 5 ∷ 6 ∷ 7 ∷ 8 ∷ []) new_table >>= λ t. table_get heap t 6)
    ≡ some (some (number 6))
unfolding program table_of set_all
grown_twice = refl

-- a deleted key is gone
deleted :
    (set_all (1 ∷ 2 ∷ 3 ∷ []) new_table >>= λ t.
    table_delete heap t 2 >>= λ r. table_get heap r.1 2)
    ≡ some none
unfolding program table_of set_all
deleted = refl

-- A store that succeeds leaves a valid table.
set-Valid :
    (t u : Table) (k : ℕ) (new : Bool)
    → Valid heap t
    → table_set heap alloc t k (number k) ≡ some (done new u)
    → Valid heap u
set-Valid t u k new valid run = elim (table_set-Sets heap alloc t k (number k) valid refl) [
  | inl (run', full, a) ↦ absurd (let f : out_of_memory t ≡ done new u = cc in cc)
  | inr (new', u', run', m) ↦
      let f : done new' u' ≡ done new u = cc in let e : u' ≡ u = cc in subst (Valid heap) e m.valid
]

abbrev total_of : Option Outcome → Table
total_of none = new_table
total_of (some (done new t)) = t
total_of (some (out_of_memory t)) = t

abbrev add : ℕ → Table → Table
add k t = total_of (table_set heap alloc t k (number k))

-- three keys; the last of them moves when the first is deleted
abbrev one_key : Table
one_key = add 1 new_table

abbrev two_keys : Table
two_keys = add 4 one_key

abbrev three_keys : Table
three_keys = add 7 two_keys

three_keys-Valid : Valid heap three_keys
unfolding program
three_keys-Valid =
    set-Valid two_keys three_keys 7 true
      (set-Valid one_key two_keys 4 true (set-Valid new_table one_key 1 true (inl refl) refl) refl)
      refl

three_keys-room : 0 < three_keys.capacity
unfolding program
three_keys-room = omega arith

table_delete-Removes_example : Removes heap three_keys 1 (table_delete heap three_keys 1)
table_delete-Removes_example =
    table_delete-Removes heap three_keys 1 three_keys-Valid three_keys-room
