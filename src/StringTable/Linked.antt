-- ===== src/StringTable/Linked.antt =====
-- The order of the chains of the table of strings, and `lookup` of elox/lib/StringTable.c.
use slox.Prelude.{
  ℕ, zero, suc, ◌+◌, ◌≤◌, ◌<◌, true, Option, none, some, ◌≡◌, refl, ap, ◌∙◌, arith, get_or,
  get_or-set_self, get_or-set_ne, length-set, length, ◌≢◌, Bool-cases, inl, inr, ==_iff, ◌==◌,
}
use slox.StringTable.{
  StringTable, entry_of, append, new_entry, has_key, lookup_chain, lookup, bucket_of,
}
use slox.Table.{StringObject}
use slox.Value.{Value}

-- an index below `n`, or the end of a chain
abbrev pub Below : ℕ → Option ℕ → Type 0
Below n none = Unit
Below n (some i) = i < n

Below-suc : (n : ℕ) (o : Option ℕ) → Below n o → Below (n + 1) o
Below-suc n none b = tt
Below-suc n (some i) b = omega arith

-- every chain starts at a written entry, and goes on at an older one
pub record Linked (t : StringTable) : Type 0 where
  pub heads : (b : ℕ) → Below t.full_count (get_or t.chains b none)
  pub older : (i : ℕ) → i < t.full_count → Below i (entry_of t.entries i).next
  pub fits : t.full_count ≤ t.data_size
  pub width : length t.entries ≡ t.data_size

-- the entry at the index found has the key
abbrev pub Finds : StringTable → ℕ → Option ℕ → Type 0
Finds t key none = Unit
Finds t key (some i) = (i < t.full_count) × ((entry_of t.entries i).key ≡ some key)

has_key-some : (o : Option ℕ) (key : ℕ) → has_key o key ≡ true → o ≡ some key
unfolding has_key
has_key-some none key e = cc
has_key-some (some k) key e = ap some ((==_iff k key).0 e)

lookup_chain-Finds :
    (t : StringTable) (key : ℕ)
    → Linked t
    → (n fuel : ℕ) (start : Option ℕ) → Below n start
    → n ≤ t.full_count
    → n ≤ fuel
    → (o : Option ℕ) × (lookup_chain fuel t.entries key start ≡ some o) × Finds t key o
unfolding lookup_chain
lookup_chain-Finds t key l n fuel none b le lt = (none, refl, tt)
lookup_chain-Finds t key l n zero (some i) b le lt = absurd (omega arith)
lookup_chain-Finds t key l n (suc fuel) (some i) b le lt =
    elim (Bool-cases (has_key (entry_of t.entries i).key key)) [
      | inl e ↦ rw e (some i, refl, (omega arith, has_key-some _ key e))
      | inr e ↦ rw e (
          lookup_chain-Finds t key l i fuel (entry_of t.entries i).next (l.older i (omega arith))
            (omega arith) (omega arith))
    ]

-- If the chains of a table lead to older entries, `lookup` ends, and an index that it gives is that
-- of a written entry with the key.
pub lookup-Finds :
    (heap : ℕ → StringObject) (t : StringTable) (key : ℕ)
    → Linked t
    → (o : Option ℕ) × (lookup heap t key ≡ some o) × Finds t key o
unfolding lookup
lookup-Finds heap t key l =
    lookup_chain-Finds t key l t.full_count (suc t.full_count) _
      (l.heads (bucket_of heap t.index_shift key)) (omega arith) (omega arith)

-- the table after an entry is appended has its chains in order
module _ (heap : ℕ → StringObject) (t : StringTable) (key : ℕ) (v : Value) (l : Linked t)
    (bucket : bucket_of heap t.index_shift key < length t.chains)
    (room : t.full_count < t.data_size) where
  pub append-Linked : Linked (append heap t key v)
  unfolding append
  append-Linked = record {
    heads = λ b. elim (Bool-cases (b == bucket_of heap t.index_shift key)) [
      | inl e ↦
          let same : b ≡ bucket_of heap t.index_shift key = ground arith in
          rw
            (
              same,
              get_or-set_self t.chains (bucket_of heap t.index_shift key) (some t.full_count) none
                  bucket,
            )
            (omega arith)
      | inr e ↦
          let other : bucket_of heap t.index_shift key ≢ b = ground arith in
          rw
            (get_or-set_ne t.chains (bucket_of heap t.index_shift key) b (some t.full_count) none
              other)
            (Below-suc t.full_count _ (l.heads b))
    ];
    older = λ i lt. elim (Bool-cases (i == t.full_count)) [
      | inl e ↦
          let same : i ≡ t.full_count = ground arith in
          rw (same, get_or-set_self t.entries t.full_count _ new_entry (omega (arith, l.width)))
            (l.heads (bucket_of heap t.index_shift key))
      | inr e ↦
          let other : t.full_count ≢ i = ground arith in
          rw (get_or-set_ne t.entries t.full_count i _ new_entry other) (l.older i (omega arith))
    ];
    fits = omega arith;
    width = length-set t.entries t.full_count _ ∙ l.width;
  }
