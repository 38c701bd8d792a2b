-- ===== src/Tests/Strings.antt =====
-- Strings interned one after the other.
use slox.Prelude.{ℕ, true, List, [], ◌∷◌, Option, none, some, ◌≡◌, ◌↔◌, refl, ltb, inl, bytes_equal}
use slox.Memory
use slox.Strings
use slox.Strings.Interned.{
  CopyRefused, Ends, Interned, Refused, copy_string-Interns, copy_string_iff, take_string-Interns,
}
use slox.Strings.{Memory, Strings, copy_string, take_string}
use slox.Table
use slox.Value.{is_nil}

abbrev memory : Memory
memory = record { chars_fit = λ n. ltb n 1000; object_fits = true; alloc = λ n. ltb n 1000 }

-- no string yet
abbrev empty : Strings
empty = record {
  heap = λ a. record { hash = 0; chars = []; markers = 0 };
  fresh = 1;
  strings = record { count = 0; capacity = 0; shift = 0; entries = [] };
}

abbrev text : List ℕ
text = 120 ∷ 121 ∷ []

empty-Interned : Interned empty
empty-Interned = record {
  valid = inl refl;
  below = λ k (i, e). let f : none ≡ some k = e in absurd cc;
  hashed = λ k (i, e). let f : none ≡ some k = e in absurd cc;
  once = λ k l (i, e) h' c. let f : none ≡ some k = e in absurd cc;
}

copy_string-Interns_example :
    Ends (CopyRefused text empty empty-Interned memory) text empty (copy_string memory text empty)
copy_string-Interns_example = copy_string-Interns text empty empty-Interned memory refl

take_string-Interns_example : Ends (Refused memory empty) text empty (take_string memory text empty)
take_string-Interns_example = take_string-Interns text empty empty-Interned memory refl

state_of : Option (Option ℕ × Strings) → Strings
state_of none = empty
state_of (some (r, s)) = s

one_text : Strings
one_text = state_of (copy_string memory text empty)

-- What a test of interning computes with.
program : Unit {0}
unfolding Memory.grow_capacity Memory.ctz Memory.index_for Table.stops Table.find_slot Table.is_key
    Table.home Table.find_entry Table.reinsert Table.adjust_capacity Table.make_room Table.is_fresh
    Table.table_set Table.table_find_string Table.find_string_slot Table.stops_string bytes_equal
    Strings.hash_from Strings.hash_string Strings.allocate_string Strings.copy_string is_nil
program = tt

first_run : copy_string memory text empty ≡ some (some 1, one_text)
unfolding program one_text state_of
first_run = refl

second_run : copy_string memory text one_text ≡ some (some 1, one_text)
unfolding program one_text state_of
second_run = refl

abbrev first_address : ℕ
first_address = 1

copy_string_iff_example : (first_address ≡ first_address) ↔ (text ≡ text)
copy_string_iff_example =
    copy_string_iff memory empty one_text one_text text text 1 1 empty-Interned refl first_run
      second_run
