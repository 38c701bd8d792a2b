-- ===== src/StringTable/Indexed.antt =====
-- What a lookup in the table of strings of elox/lib/StringTable.c finds, before and after a change.
use slox.Prelude.{
  ℕ, zero, suc, ◌+◌, ◌≤◌, ◌<◌, true, false, List, Option, none, some, ◌≡◌, ◌≢◌, refl, sym, ap, ◌∙◌,
  arith, Bool-cases, inl, inr, ◌==◌, if◌then◌else◌, ◌>>=◌,
}
use slox.StringTable.Linked.{Below, Finds, Linked, lookup-Finds}
use slox.StringTable.{
  StringTable, StringTableEntry, entry_of, has_key, lookup, lookup_chain, string_table_contains,
  string_table_get, value_at,
}
use slox.Table.{StringObject, is_key}

-- the number of the first `n` entries that have a key
unfoldable pub keys : ℕ → List StringTableEntry → ℕ
unfolding is_key
keys zero es = 0
keys (suc n) es = if is_key (entry_of es n).key then keys n es + 1 else keys n es

pub keys_one_more :
    (n : ℕ) (es : List StringTableEntry) (k : ℕ)
    → (entry_of es n).key ≡ some k
    → keys (n + 1) es ≡ keys n es + 1
unfolding keys is_key
keys_one_more n es k e = let s : n + 1 ≡ suc n = omega arith in rw (s, e) refl

pub positive : (n : ℕ) → (n == 0) ≡ false → 0 < n
positive n e = ground arith

pub keys-same :
    (n : ℕ) (es fs : List StringTableEntry)
    → ((j : ℕ) → j < n → is_key (entry_of fs j).key ≡ is_key (entry_of es j).key)
    → keys n fs ≡ keys n es
unfolding keys
keys-same zero es fs h = refl
keys-same (suc n) es fs h =
    rw (h n (omega arith), keys-same n es fs (λ j l. h j (omega (arith, l)))) refl

-- one key less
pub keys-less :
    (n i : ℕ) (es fs : List StringTableEntry)
    → i < n
    → is_key (entry_of es i).key ≡ true
    → is_key (entry_of fs i).key ≡ false
    → ((j : ℕ) → j ≢ i → is_key (entry_of fs j).key ≡ is_key (entry_of es j).key)
    → keys n es ≡ keys n fs + 1
unfolding keys
keys-less zero i es fs lt a b h = absurd (omega (arith, lt))
keys-less (suc n) i es fs lt a b h = elim (Bool-cases (n == i)) [
  | inl s ↦
      let s' : n ≡ i = ground arith in
      let same = keys-same n es fs (λ j l. h j (λ f. omega (arith, l, f, s'))) in
      rw (s', a, b)
        (ap (λ m. m + 1) (sym (ap (λ k. keys k fs) (sym s') ∙ (same ∙ ap (λ k. keys k es) s'))))
  | inr d ↦
      let d' : n ≢ i = ground arith in
      let rest = keys-less n i es fs (omega (arith, lt, d')) a b h in
      rw (h n d', rest)
        (elim (Bool-cases (is_key (entry_of es n).key)) [ inl e ↦ rw e refl | inr e ↦ rw e refl ])
]

no_keys :
    (n : ℕ) (es : List StringTableEntry)
    → keys n es ≡ 0
    → (j : ℕ) → j < n
    → is_key (entry_of es j).key ≡ false
unfolding keys
no_keys zero es z j lt = absurd (omega (arith, lt))
no_keys (suc n) es z j lt = elim (Bool-cases (is_key (entry_of es n).key)) [
  | inl e ↦ absurd (let f : keys n es + 1 ≡ 0 = rw e at z in omega (arith, f))
  | inr e ↦
      let f : keys n es ≡ 0 = rw e at z in
      elim (Bool-cases (j == n)) [
        | inl s ↦ let s' : j ≡ n = ground arith in rw s' e
        | inr d ↦ let d' : j ≢ n = ground arith in no_keys n es f j (omega (arith, lt, d'))
      ]
]

-- Two arrays whose entries below agree on a key lead to the same answer.
pub lookup_chain-agree :
    (t : StringTable) (fs : List StringTableEntry) (c : ℕ)
    → Linked t
    → ((j : ℕ)
        → j < t.full_count
        → (has_key (entry_of fs j).key c ≡ has_key (entry_of t.entries j).key c)
          × ((entry_of fs j).next ≡ (entry_of t.entries j).next))
    → (n fuel fuel' : ℕ) (start : Option ℕ) → Below n start
    → n ≤ t.full_count
    → n ≤ fuel
    → n ≤ fuel'
    → lookup_chain fuel' fs c start ≡ lookup_chain fuel t.entries c start
unfolding lookup_chain
lookup_chain-agree t fs c l h n fuel fuel' none b le lf lf' = refl
lookup_chain-agree t fs c l h n zero fuel' (some i) b le lf lf' = absurd (omega (arith, b, lf))
lookup_chain-agree t fs c l h n (suc fuel) zero (some i) b le lf lf' =
    absurd (omega (arith, b, lf'))
lookup_chain-agree t fs c l h n (suc fuel) (suc fuel') (some i) b le lf lf' =
    let (k, m) = h i (omega (arith, b, le)) in
    let rest =
      lookup_chain-agree t fs c l h i fuel fuel' (entry_of t.entries i).next
        (l.older i (omega (arith, b, le))) (omega (arith, b, le)) (omega (arith, b, lf))
        (omega (arith, b, lf')) in
    rw (k, m, rest) refl

module _ (heap : ℕ → StringObject) where
  -- the chains are in order, each key is at the one entry where a lookup finds it, and the live
  -- entries are counted
  pub record IsTable (t : StringTable) : Type 0 where
    pub linked : Linked t
    pub indexed :
        (i k : ℕ)
        → i < t.full_count
        → (entry_of t.entries i).key ≡ some k
        → lookup heap t k ≡ some (some i)
    pub counted : t.live_count ≡ keys t.full_count t.entries

  module _ (t : StringTable) (w : IsTable t) (c : ℕ) where
    -- in a table without live entries a lookup finds nothing
    pub empty-lookup : t.live_count ≡ 0 → lookup heap t c ≡ some none
    unfolding is_key
    empty-lookup z = of (lookup-Finds heap t c w.linked)
      where
        of : (o : Option ℕ) × (lookup heap t c ≡ some o) × Finds t c o → lookup heap t c ≡ some none
        of (none, run, f) = run
        of (some i, run, (lt, e)) =
            let n = w.counted in
            let f = no_keys t.full_count t.entries (omega (arith, n, z)) i lt in
            let g : is_key (entry_of t.entries i).key ≡ true = rw e refl in absurd cc

    pub get-lookup : string_table_get heap t c ≡ (lookup heap t c >>= λ i. some (value_at heap t i))
    unfolding string_table_get
    get-lookup = elim (Bool-cases (t.live_count == 0)) [
      | inl z ↦ let z' : t.live_count ≡ 0 = ground arith in rw (z, empty-lookup z') refl
      | inr z ↦ rw z refl
    ]

    pub contains-lookup :
        string_table_contains heap t c ≡ (lookup heap t c >>= λ i. some (is_key i))
    unfolding string_table_contains is_key
    contains-lookup = elim (Bool-cases (t.live_count == 0)) [
      | inl z ↦ let z' : t.live_count ≡ 0 = ground arith in rw (z, empty-lookup z') refl
      | inr z ↦ rw z refl
    ]

  -- a lookup that finds the same index, with the same value there
  pub get-same :
      (t u : StringTable) (c : ℕ)
      → IsTable t
      → IsTable u
      → lookup heap u c ≡ lookup heap t c
      → ((i : ℕ)
          → i < t.full_count
          → (entry_of t.entries i).key ≡ some c
          → (entry_of u.entries i).value ≡ (entry_of t.entries i).value)
      → string_table_get heap u c ≡ string_table_get heap t c
  get-same t u c w w' same h =
      get-lookup u w' c
      ∙ (ap (λ r. r >>= λ i. some (value_at heap u i)) same
          ∙ (of (lookup-Finds heap t c w.linked) ∙ sym (get-lookup t w c)))
    where
      of :
          (o : Option ℕ) × (lookup heap t c ≡ some o) × Finds t c o
          → (lookup heap t c >>= λ i. some (value_at heap u i))
            ≡ (lookup heap t c >>= λ i. some (value_at heap t i))
      of (none, run, f) = rw run refl
      of (some i, run, (lt, e)) = rw (run, h i lt e) refl
