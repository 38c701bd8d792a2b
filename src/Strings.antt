-- ===== src/Strings.antt =====
-- Strings and their interning, elox/lib/object.c and `hashString` of elox/include/elox/object.h. An
-- allocation here does not run the collector; `fresh` is the address of the next object.
pub mod Interned
use slox.Prelude.{
  ℕ, ◌+◌, ◌*◌, ◌%◌, ◌^◌, Bool, List, [], ◌∷◌, Option, none, some, length, bit_xor, ◌==◌,
  if◌then◌else◌, ◌>>=◌,
}
use slox.Table.{StringObject, Table, Outcome, done, out_of_memory, table_find_string, table_set}
use slox.Value.{nil}

-- the loop of `hashString`
unfoldable pub hash_from : ℕ → List ℕ → ℕ
hash_from hash [] = hash
hash_from hash (c ∷ key) = hash_from (bit_xor hash c * 16777619 % 2 ^ 32) key

unfoldable pub hash_string : List ℕ → ℕ
unfolding hash_from
hash_string key = hash_from 2166136261 key

-- the strings of the heap, with the table of those that are interned
pub record Strings : Type 0 where
  pub heap : ℕ → StringObject
  pub fresh : ℕ
  pub strings : Table

-- `chars_fit` and `object_fits` tell whether the bytes and the object can be allocated, `alloc` whether
-- an array of entries can
pub record Memory : Type 0 where
  pub chars_fit : ℕ → Bool
  pub object_fits : Bool
  pub alloc : ℕ → Bool

abbrev pub put_string : (ℕ → StringObject) → ℕ → StringObject → ℕ → StringObject
put_string heap a string x = if x == a then string else heap x

-- the heap with the new object
abbrev pub with_string : Strings → List ℕ → ℕ → Strings
with_string s chars hash = record s {
  heap = put_string s.heap s.fresh (record { hash = hash; chars = chars; markers = 0 });
  fresh = s.fresh + 1;
}

-- the end of `allocateString`: `NULL` if the table could not grow
pub registered : Strings → ℕ → Outcome → Option ℕ × Strings
registered s a (done new table) = (some a, record s { strings = table })
registered s a (out_of_memory table) = (none, record s { strings = table })

unfoldable pub allocate_string : Memory → List ℕ → ℕ → Strings → Option (Option ℕ × Strings)
unfolding registered
allocate_string memory chars hash s =
    let t = with_string s chars hash in
    if memory.object_fits
    then table_set t.heap memory.alloc t.strings s.fresh nil
      >>= (λ o. some (registered t s.fresh o))
    else some (none, s)

pub or_allocate :
    (Strings → Option (Option ℕ × Strings)) → Strings → Option ℕ → Option (Option ℕ × Strings)
or_allocate allocate s none = allocate s
or_allocate allocate s (some interned) = some (some interned, s)

-- `takeString`
unfoldable pub take_string : Memory → List ℕ → Strings → Option (Option ℕ × Strings)
unfolding hash_string allocate_string or_allocate
take_string memory chars s =
    let hash = hash_string chars in
    table_find_string s.heap s.strings chars hash
    >>= or_allocate (allocate_string memory chars hash) s

-- `copyString`
unfoldable pub copy_string : Memory → List ℕ → Strings → Option (Option ℕ × Strings)
unfolding hash_string allocate_string or_allocate
copy_string memory chars s =
    let hash = hash_string chars in
    table_find_string s.heap s.strings chars hash
    >>= or_allocate
        (λ t.
          if memory.chars_fit (length chars + 1)
          then allocate_string memory chars hash t
          else some (none, t))
        s
