-- ===== src/StringTable/Deletes.antt =====
-- Deletions from the table of strings, `stringTableDelete` of elox/lib/StringTable.c.
use slox.Prelude.{
  ℕ, suc, ◌+◌, ◌-◌, ◌<◌, Bool, true, false, Option, none, some, ◌≡◌, ◌≢◌, refl, sym, ap, ◌∙◌, arith,
  get_or-set_self, get_or-set_ne, length-set, set, length, Bool-cases, inl, inr, ◌==◌,
  if◌then◌else◌,
}
use slox.StringTable.Indexed.{
  IsTable, contains-lookup, empty-lookup, get-lookup, get-same, keys, keys-less, lookup_chain-agree,
  positive,
}
use slox.StringTable.Linked.{Linked, Finds, lookup-Finds}
use slox.StringTable.{
  StringTable, bucket_of, delete_found, entry_of, has_key, lookup, new_entry, string_table_contains,
  string_table_delete, string_table_get,
}
use slox.Table.{StringObject, is_key}

module _ (heap : ℕ → StringObject) (t : StringTable) (key : ℕ) (l : Linked t) where
  -- the entry is marked as deleted
  abbrev without : ℕ → StringTable
  without i = record t {
    entries = set t.entries i (record (entry_of t.entries i) { key = none });
    live_count = t.live_count - 1;
  }

  same_next :
      (i j : ℕ)
      → i < length t.entries
      → (entry_of (without i).entries j).next ≡ (entry_of t.entries j).next
  same_next i j lt = elim (Bool-cases (j == i)) [
    | inl e ↦
        let same : j ≡ i = ground arith in
        rw
          (
            same,
            get_or-set_self t.entries i (record (entry_of t.entries i) { key = none }) new_entry lt,
          )
          refl
    | inr e ↦
        let other : i ≢ j = ground arith in
        rw
          (get_or-set_ne t.entries i j (record (entry_of t.entries i) { key = none }) new_entry
            other)
          refl
  ]

  without-Linked : (i : ℕ) → i < t.full_count → Linked (without i)
  without-Linked i lt = record {
    heads = l.heads;
    older = λ j h. rw (same_next i j (omega (arith, l.fits, l.width))) (l.older j h);
    fits = l.fits;
    width = length-set t.entries i _ ∙ l.width;
  }

  deleted :
      (i : ℕ)
      → i < length t.entries
      → entry_of (without i).entries i ≡ record (entry_of t.entries i) { key = none }
  deleted i lt = get_or-set_self t.entries i _ new_entry lt

  kept : (i j : ℕ) → j ≢ i → entry_of (without i).entries j ≡ entry_of t.entries j
  kept i j d = get_or-set_ne t.entries i j _ new_entry (λ e. d (sym e))

module _ (heap : ℕ → StringObject) (t : StringTable) (key : ℕ) (w : IsTable heap t) where
  -- the entry of the key is deleted
  module _ (i : ℕ) (lt : i < t.full_count) (here : (entry_of t.entries i).key ≡ some key)
      (run : lookup heap t key ≡ some (some i)) where
    abbrev u : StringTable
    u = without heap t key w.linked i

    inside : i < length t.entries
    inside =
        let fits = w.linked.fits in let width = w.linked.width in omega (arith, lt, fits, width)

    no_key : (entry_of u.entries i).key ≡ none
    no_key = ap (λ e. e.key) (deleted heap t key w.linked i inside)

    -- an entry that has a key still
    other_key :
        (j k : ℕ)
        → (entry_of u.entries j).key ≡ some k
        → (j ≢ i) × ((entry_of t.entries j).key ≡ some k)
    other_key j k e = elim (Bool-cases (j == i)) [
      | inl s ↦
          let s' : j ≡ i = ground arith in
          let f : none ≡ some k =
            sym no_key ∙ (ap (λ x. (entry_of u.entries x).key) (sym s') ∙ e) in
          absurd cc
      | inr d ↦
          let d' : j ≢ i = ground arith in
          (d', ap (λ x. x.key) (sym (kept heap t key w.linked i j d')) ∙ e)
    ]

    same_test :
        (c j : ℕ)
        → c ≢ key
        → has_key (entry_of u.entries j).key c ≡ has_key (entry_of t.entries j).key c
    unfolding has_key
    same_test c j n = elim (Bool-cases (j == i)) [
      | inl s ↦
          let s' : j ≡ i = ground arith in
          let f : (key == c) ≡ false = ground (arith, n) in rw (s', no_key, here, f) refl
      | inr d ↦
          let d' : j ≢ i = ground arith in
          ap (λ x. has_key x.key c) (kept heap t key w.linked i j d')
    ]

    lookup-other : (c : ℕ) → c ≢ key → lookup heap u c ≡ lookup heap t c
    unfolding lookup
    lookup-other c n =
        lookup_chain-agree t u.entries c w.linked
          (λ j l. (same_test c j n, same_next heap t key w.linked i j inside)) t.full_count
          (suc t.full_count) (suc t.full_count) _ (w.linked.heads (bucket_of heap t.index_shift c))
          (omega arith) (omega arith) (omega arith)

    -- the one entry with the key was this one
    unlike_key :
        (j k : ℕ) → j < t.full_count → j ≢ i → (entry_of t.entries j).key ≡ some k → k ≢ key
    unlike_key j k jl d e s =
        let f : lookup heap t key ≡ some (some j) = w.indexed j key jl (e ∙ ap some s) in d cc

    lookup-gone : lookup heap u key ≡ some none
    lookup-gone = of (lookup-Finds heap u key (without-Linked heap t key w.linked i lt))
      where
        of :
            (o : Option ℕ) × (lookup heap u key ≡ some o) × Finds u key o
            → lookup heap u key ≡ some none
        of (none, found, f) = found
        of (some j, found, (jl, e)) =
            let (d, e') = other_key j key e in absurd (unlike_key j key jl d e' refl)

    same_keys : keys t.full_count t.entries ≡ keys t.full_count u.entries + 1
    unfolding is_key
    same_keys =
        keys-less t.full_count i t.entries u.entries lt (rw here refl) (rw no_key refl)
          (λ j d. ap (λ x. is_key x.key) (kept heap t key w.linked i j d))

    without-IsTable : IsTable heap u
    without-IsTable = record {
      linked = without-Linked heap t key w.linked i lt;
      indexed = λ j k jl e.
          (let (d, e') = other_key j k e in
            lookup-other k (unlike_key j k jl d e') ∙ w.indexed j k jl e');
      counted = (let c = w.counted in omega (arith, c, same_keys));
    }

    same_value : (j : ℕ) → (entry_of u.entries j).value ≡ (entry_of t.entries j).value
    same_value j = elim (Bool-cases (j == i)) [
      | inl s ↦
          let s' : j ≡ i = ground arith in
          rw s' (ap (λ x. x.value) (deleted heap t key w.linked i inside))
      | inr d ↦ let d' : j ≢ i = ground arith in ap (λ x. x.value) (kept heap t key w.linked i j d')
    ]

    get-other : (c : ℕ) → c ≢ key → string_table_get heap u c ≡ string_table_get heap t c
    get-other c n =
        get-same heap t u c w without-IsTable (lookup-other c n) (λ j jl e. same_value j)

    get-gone : string_table_get heap u key ≡ some none
    get-gone = rw lookup-gone at (get-lookup heap u without-IsTable key)

  -- what a deletion does
  abbrev pub Deletes : Option (Bool × StringTable) → Type 0
  Deletes r =
      (gone : Bool) × (u : StringTable) × (r ≡ some (gone, u))
      × (string_table_contains heap t key ≡ some gone)
      × IsTable heap u
      × (t.live_count ≡ (if gone then u.live_count + 1 else u.live_count))
      × (u.full_count ≡ t.full_count)
      × (string_table_get heap u key ≡ some none)
      × ((c : ℕ) → c ≢ key → string_table_get heap u c ≡ string_table_get heap t c)

  absent-Deletes :
      string_table_delete heap t key ≡ some (false, t)
      → lookup heap t key ≡ some none
      → Deletes (string_table_delete heap t key)
  unfolding is_key
  absent-Deletes run none_found = (
    false,
    t,
    run,
    rw none_found at (contains-lookup heap t w key),
    w,
    refl,
    refl,
    rw none_found at (get-lookup heap t w key),
    λ c n. refl,
  )

  found-Deletes :
      (i : ℕ)
      → i < t.full_count
      → (entry_of t.entries i).key ≡ some key
      → lookup heap t key ≡ some (some i)
      → 0 < t.live_count
      → string_table_delete heap t key ≡ some (true, without heap t key w.linked i)
      → Deletes (string_table_delete heap t key)
  unfolding is_key
  found-Deletes i lt here found live run = (
    true,
    u i lt here found,
    run,
    rw found at (contains-lookup heap t w key),
    without-IsTable i lt here found,
    omega (arith, live),
    refl,
    get-gone i lt here found,
    get-other i lt here found,
  )

  -- For a table whose chains lead to older entries, with each key at the one entry where a lookup finds
  -- it and the live entries counted: `stringTableDelete` ends, its result is true exactly if the key
  -- was in the table, the count of live entries has then fallen by one, and that of all entries is the
  -- same. The key is not found any more, every other key is found as before, and the table is again such
  -- a table.
  pub string_table_delete-Deletes : Deletes (string_table_delete heap t key)
  unfolding string_table_delete delete_found
  string_table_delete-Deletes = elim (Bool-cases (t.live_count == 0)) [
    | inl z ↦
        let z' : t.live_count ≡ 0 = ground arith in
        absent-Deletes (rw z refl) (empty-lookup heap t w key z')
    | inr z ↦ at z (lookup-Finds heap t key w.linked)
  ]
    where
      at :
          (t.live_count == 0) ≡ false
          → (o : Option ℕ) × (lookup heap t key ≡ some o) × Finds t key o
          → Deletes (string_table_delete heap t key)
      at z (none, run, f) = absent-Deletes (rw (z, run) refl) run
      at z (some i, run, (lt, here)) =
          found-Deletes i lt here run (positive t.live_count z) (rw (z, run) refl)
