-- ===== src/StringTable/Stores.antt =====
-- Stores in the table of strings, `stringTableSet` of elox/lib/StringTable.c.
use slox.Prelude.{
  ℕ, zero, suc, ◌+◌, ◌≤◌, ◌<◌, sym, Bool, true, false, not, List, Option, none, some, ◌≡◌, ◌≢◌,
  refl, ap, ◌∙◌, arith, get_or, get_or-set_self, get_or-set_ne, length-set, set, length, Bool-cases,
  inl, inr, ==_iff, ◌==◌,
}
use slox.StringTable.Indexed.{
  IsTable, contains-lookup, empty-lookup, get-same, keys, keys-same, keys_one_more,
  lookup_chain-agree, positive,
}
use slox.StringTable.Linked.{Below, Linked, Finds, append-Linked, lookup-Finds}
use slox.StringTable.{
  StringTableEntry, StringTable, Inserted, added, append, append_if, bucket_of, entry_of, has_key,
  lookup, lookup_chain, new_entry, ready_to_append, set_found, string_table_contains,
  string_table_get, string_table_set,
}
use slox.Table.{StringObject, is_key}
use slox.Value.{Value}

unequal : (n m : ℕ) → n < m → (n == m) ≡ false
unequal n m lt = ground arith

has_key_self : (key : ℕ) → has_key (some key) key ≡ true
unfolding has_key
has_key_self key = (==_iff key key).1 refl

-- the keys and the links of two arrays of entries agree
abbrev Alike : List StringTableEntry → List StringTableEntry → Type 0
Alike es fs =
    (i : ℕ)
    → ((entry_of fs i).key ≡ (entry_of es i).key) × ((entry_of fs i).next ≡ (entry_of es i).next)

lookup_chain-Alike :
    (es fs : List StringTableEntry)
    → Alike es fs
    → (fuel key : ℕ) (start : Option ℕ)
    → lookup_chain fuel fs key start ≡ lookup_chain fuel es key start
unfolding lookup_chain
lookup_chain-Alike es fs h fuel key none = refl
lookup_chain-Alike es fs h zero key (some i) = refl
lookup_chain-Alike es fs h (suc fuel) key (some i) =
    let (k, n) = h i in rw (k, n, lookup_chain-Alike es fs h fuel key (entry_of es i).next) refl

module _ (heap : ℕ → StringObject) (t : StringTable) (key : ℕ) (v : Value) (l : Linked t) where
  -- the value changes at an entry
  abbrev rewritten : ℕ → StringTable
  rewritten i = record t { entries = set t.entries i (record (entry_of t.entries i) { value = v }) }

  rewritten-Alike : (i : ℕ) → i < length t.entries → Alike t.entries (rewritten i).entries
  rewritten-Alike i lt j = elim (Bool-cases (j == i)) [
    | inl e ↦
        let same : j ≡ i = ground arith in
        rw
          (
            same,
            get_or-set_self t.entries i (record (entry_of t.entries i) { value = v }) new_entry lt,
          )
          (refl, refl)
    | inr e ↦
        let other : i ≢ j = ground arith in
        rw
          (get_or-set_ne t.entries i j (record (entry_of t.entries i) { value = v }) new_entry
            other)
          (refl, refl)
  ]

  rewritten-Linked : (i : ℕ) → i < t.full_count → Linked (rewritten i)
  rewritten-Linked i lt = record {
    heads = l.heads;
    older = λ j h. rw ((rewritten-Alike i (omega (arith, l.fits, l.width)) j).1) (l.older j h);
    fits = l.fits;
    width = length-set t.entries i _ ∙ l.width;
  }

  appended-found :
      bucket_of heap t.index_shift key < length t.chains
      → t.full_count < t.data_size
      → lookup heap (append heap t key v) key ≡ some (some t.full_count)
  unfolding lookup lookup_chain append
  appended-found bucket room =
      let e =
        get_or-set_self t.chains (bucket_of heap t.index_shift key) (some t.full_count) none
          bucket in
      let f =
        get_or-set_self t.entries t.full_count
          (record {
            key = some key;
            value = v;
            next = get_or t.chains (bucket_of heap t.index_shift key) none;
          })
          new_entry (omega (arith, l.width)) in
      rw (e, f, has_key_self key) refl

  -- the state after a store: its chains are in order, and the key has the value
  record Stored (u : StringTable) : Type 0 where
    pub linked : Linked u
    pub live : 0 < u.live_count
    pub got : string_table_get heap u key ≡ some (some v)

  get_live :
      (u : StringTable) (i : ℕ)
      → 0 < u.live_count
      → lookup heap u key ≡ some (some i)
      → (entry_of u.entries i).value ≡ v
      → string_table_get heap u key ≡ some (some v)
  unfolding string_table_get
  get_live u i live found value =
      let nonzero : (u.live_count == 0) ≡ false = ground arith in rw (nonzero, found, value) refl

  append-Stored :
      bucket_of heap t.index_shift key < length t.chains
      → t.full_count < t.data_size
      → Stored (append heap t key v)
  unfolding append
  append-Stored bucket room = record {
    linked = append-Linked heap t key v l bucket room;
    live = omega arith;
    got = get_live (append heap t key v) t.full_count (omega arith) (appended-found bucket room) (
        ap (λ e. e.value)
          (get_or-set_self t.entries t.full_count _ new_entry (omega (arith, l.width))));
  }

  rewritten-Stored :
      (i : ℕ)
      → 0 < t.live_count
      → i < t.full_count
      → lookup heap t key ≡ some (some i)
      → Stored (rewritten i)
  unfolding lookup
  rewritten-Stored i live lt found = record {
    linked = rewritten-Linked i lt;
    live = live;
    got =
        get_live (rewritten i) i live
          (lookup_chain-Alike t.entries (rewritten i).entries
              (rewritten-Alike i (omega (arith, l.fits, l.width))) (suc t.full_count) key _
            ∙ found)
          (ap (λ e. e.value)
            (get_or-set_self t.entries i (record (entry_of t.entries i) { value = v }) new_entry
              (omega (arith, l.fits, l.width))));
  }

module _ (heap : ℕ → StringObject) (t : StringTable) (key : ℕ) (v : Value)
    (w : IsTable heap t) where
  -- a new entry is appended
  module _ (bucket : bucket_of heap t.index_shift key < length t.chains)
      (room : t.full_count < t.data_size) (none_found : lookup heap t key ≡ some none) where
    abbrev u : StringTable
    u = append heap t key v

    u-Linked : Linked u
    u-Linked = append-Linked heap t key v w.linked bucket room

    unfold_entries :
        u.entries
        ≡ set t.entries t.full_count (record {
          key = some key;
          value = v;
          next = get_or t.chains (bucket_of heap t.index_shift key) none;
        })
    unfolding append
    unfold_entries = refl

    last : entry_of u.entries t.full_count ≡ record {
      key = some key;
      value = v;
      next = get_or t.chains (bucket_of heap t.index_shift key) none;
    }
    last =
        ap (λ es. entry_of es t.full_count) unfold_entries
        ∙ get_or-set_self t.entries t.full_count _ new_entry
            (let width = w.linked.width in omega (arith, room, width))

    old : (j : ℕ) → j < t.full_count → entry_of u.entries j ≡ entry_of t.entries j
    old j lt =
        ap (λ es. entry_of es j) unfold_entries
        ∙ get_or-set_ne t.entries t.full_count j _ new_entry (λ e. omega (arith, lt, e))

    -- the chains of other keys skip the new entry
    walk :
        (c : ℕ) (start : Option ℕ) (fuel : ℕ)
        → Below t.full_count start
        → t.full_count ≤ fuel
        → lookup_chain fuel u.entries c start ≡ lookup_chain (suc t.full_count) t.entries c start
    walk c start fuel b le =
        lookup_chain-agree t u.entries c w.linked
          (λ j lt. (ap (λ x. has_key x.key c) (old j lt), ap (λ x. x.next) (old j lt))) t.full_count
          (suc t.full_count) fuel start b (omega arith) (omega arith) (omega (arith, le))

    lookup-other : (c : ℕ) → c ≢ key → lookup heap u c ≡ lookup heap t c
    unfolding lookup lookup_chain append has_key
    lookup-other c n =
        elim (Bool-cases (bucket_of heap t.index_shift c == bucket_of heap t.index_shift key)) [
          | inl s ↦
              let s' : bucket_of heap t.index_shift c ≡ bucket_of heap t.index_shift key =
                ground arith in
              let f : (key == c) ≡ false = ground (arith, n) in
              let head =
                get_or-set_self t.chains (bucket_of heap t.index_shift key) (some t.full_count) none
                  bucket in
              let rest =
                walk c (get_or t.chains (bucket_of heap t.index_shift key) none) (t.full_count + 1)
                  (w.linked.heads (bucket_of heap t.index_shift key)) (omega arith) in
              let first = last in rw (s', head, first, f) rest
          | inr d ↦
              let d' : bucket_of heap t.index_shift key ≢ bucket_of heap t.index_shift c =
                ground arith in
              rw
                (get_or-set_ne t.chains (bucket_of heap t.index_shift key)
                  (bucket_of heap t.index_shift c) (some t.full_count) none d')
                (walk c _ (suc (t.full_count + 1)) (w.linked.heads (bucket_of heap t.index_shift c))
                  (omega arith))
        ]

    append-IsTable : IsTable heap u
    unfolding keys is_key append
    append-IsTable = record {
      linked = u-Linked;
      indexed = λ i k lt e. elim (Bool-cases (i == t.full_count)) [
        | inl s ↦
            let s' : i ≡ t.full_count = ground arith in
            let f : some key ≡ some k =
              sym (ap (λ x. x.key) last) ∙ (ap (λ x. (entry_of u.entries x).key) (sym s') ∙ e) in
            let g : k ≡ key = cc in rw (g, s') (appended-found heap t key v w.linked bucket room)
        | inr d ↦
            let lt' : i < t.full_count = ground (arith, lt) in
            let e' : (entry_of t.entries i).key ≡ some k = sym (ap (λ x. x.key) (old i lt')) ∙ e in
            let found = w.indexed i k lt' e' in
            let n : k ≢ key = λ s.
              (let f : lookup heap t k ≡ some none = ap (lookup heap t) s ∙ none_found in cc) in
            lookup-other k n ∙ found
      ];
      counted = counts;
    }
      where
        counts : t.live_count + 1 ≡ keys (t.full_count + 1) u.entries
        counts =
            let c = w.counted in
            let same =
              keys-same t.full_count t.entries u.entries
                (λ j lt. ap (λ x. is_key x.key) (old j lt)) in
            let more = keys_one_more t.full_count u.entries key (ap (λ x. x.key) last) in
            omega (arith, c, same, more)

    append-other : (c : ℕ) → c ≢ key → string_table_get heap u c ≡ string_table_get heap t c
    append-other c n =
        get-same heap t u c w append-IsTable (lookup-other c n)
          (λ j lt e. ap (λ x. x.value) (old j lt))

  -- the value changes at the entry of the key
  module _ (i : ℕ) (lt : i < t.full_count) (here : (entry_of t.entries i).key ≡ some key) where
    abbrev changed : StringTable
    changed = rewritten heap t key v w.linked i

    inside : i < length t.entries
    inside =
        let fits = w.linked.fits in let width = w.linked.width in omega (arith, lt, fits, width)

    alike : Alike t.entries changed.entries
    alike = rewritten-Alike heap t key v w.linked i inside

    lookup-changed : (c : ℕ) → lookup heap changed c ≡ lookup heap t c
    unfolding lookup
    lookup-changed c = lookup_chain-Alike t.entries changed.entries alike (suc t.full_count) c _

    rewritten-IsTable : IsTable heap changed
    rewritten-IsTable = record {
      linked = rewritten-Linked heap t key v w.linked i lt;
      indexed = λ j k jl e. lookup-changed k ∙ w.indexed j k jl (sym ((alike j).0) ∙ e);
      counted =
          w.counted
          ∙ sym
              (keys-same t.full_count t.entries changed.entries (λ j jl. ap is_key ((alike j).0)));
    }

    rewritten-other :
        (c : ℕ) → c ≢ key → string_table_get heap changed c ≡ string_table_get heap t c
    rewritten-other c n =
        get-same heap t changed c w rewritten-IsTable (lookup-changed c) (λ j jl e. same j e)
      where
        same :
            (j : ℕ)
            → (entry_of t.entries j).key ≡ some c
            → (entry_of changed.entries j).value ≡ (entry_of t.entries j).value
        same j e =
            ap (λ x. x.value)
              (get_or-set_ne t.entries i j _ new_entry (λ s.
                (let f : some key ≡ some c =
                    sym here ∙ (ap (λ x. (entry_of t.entries x).key) s ∙ e) in
                  n cc)))

  -- what a store does where no growth is needed
  abbrev pub Sets : Option Inserted → Type 0
  Sets r =
      (new : Bool) × (u : StringTable) × (r ≡ some (added new u))
      × (string_table_contains heap t key ≡ some (not new))
      × IsTable heap u
      × (string_table_get heap u key ≡ some (some v))
      × ((c : ℕ) → c ≢ key → string_table_get heap u c ≡ string_table_get heap t c)

  appended-Sets :
      (alloc : ℕ → Bool)
      → bucket_of heap t.index_shift key < length t.chains
      → t.full_count < t.data_size
      → lookup heap t key ≡ some none
      → string_table_set heap alloc t key v ≡ some (added true (append heap t key v))
      → Sets (string_table_set heap alloc t key v)
  unfolding is_key
  appended-Sets alloc bucket room none_found run = (
    true,
    append heap t key v,
    run,
    rw none_found at (contains-lookup heap t w key),
    append-IsTable bucket room none_found,
    (append-Stored heap t key v w.linked bucket room).got,
    append-other bucket room none_found,
  )

  rewritten-Sets :
      (alloc : ℕ → Bool) (i : ℕ)
      → i < t.full_count
      → (entry_of t.entries i).key ≡ some key
      → 0 < t.live_count
      → lookup heap t key ≡ some (some i)
      → string_table_set heap alloc t key v ≡ some (added false (rewritten heap t key v w.linked i))
      → Sets (string_table_set heap alloc t key v)
  unfolding is_key
  rewritten-Sets alloc i lt here live found run = (
    false,
    changed i lt here,
    run,
    rw found at (contains-lookup heap t w key),
    rewritten-IsTable i lt here,
    (rewritten-Stored heap t key v w.linked i live lt found).got,
    rewritten-other i lt here,
  )

  -- For a table whose chains lead to older entries, with each key at the one entry where a lookup finds
  -- it and the live entries counted, with the key's bucket in range and an entry free:
  -- `stringTableSet` ends, its result is true exactly if the key was not in the table, the key is then
  -- found with the value, every other key is found as before, and the table is again such a table.
  pub string_table_set-Sets :
      (alloc : ℕ → Bool)
      → bucket_of heap t.index_shift key < length t.chains
      → t.full_count < t.data_size
      → Sets (string_table_set heap alloc t key v)
  unfolding string_table_set set_found ready_to_append append_if
  string_table_set-Sets alloc bucket room =
      let spare : (t.full_count == t.data_size) ≡ false = unequal t.full_count t.data_size room in
      elim (Bool-cases (t.live_count == 0)) [
        | inl z ↦
            let z' : t.live_count ≡ 0 = ground (arith, z) in
            appended-Sets alloc bucket room (empty-lookup heap t w key z') (rw (z, spare) refl)
        | inr z ↦ at spare z (lookup-Finds heap t key w.linked)
      ]
    where
      at :
          (t.full_count == t.data_size) ≡ false
          → (t.live_count == 0) ≡ false
          → (o : Option ℕ) × (lookup heap t key ≡ some o) × Finds t key o
          → Sets (string_table_set heap alloc t key v)
      at spare z (none, run, f) = appended-Sets alloc bucket room run (rw (z, run, spare) refl)
      at spare z (some i, run, (lt, here)) =
          rewritten-Sets alloc i lt here (positive t.live_count z) run (rw (z, run) refl)
