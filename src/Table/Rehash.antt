-- ===== src/Table/Rehash.antt =====
-- The entries that `adjustCapacity` of elox/lib/table.c stores in the new array.
use slox.Prelude.{
  ℕ, suc, ◌+◌, ◌<◌, List, [], ◌∷◌, Option, none, some, ◌≡◌, ◌≢◌, refl, sym, ap, ◌∙◌, ◌⊎◌, inl, inr,
  arith, length, set, ◌==◌, if◌then◌else◌,
}
use slox.Table.Placed.{occupied, occupied-set, Placed, Ends, find_slot-Ends}
use slox.Table.Probe.{key_at}
use slox.Table.Store.{Reads, keyed, after, set-Placed, Clean, set-Clean, set-Reads}
use slox.Table.{StringObject, Entry, is_key, home, find_entry, write_slot, copy_entry, reinsert}
use slox.Value.{Value}

abbrev pub override : Option ℕ → Value → ℕ → Option Value → Option Value
override none v c o = o
override (some k) v c o = if c == k then some v else o

-- what a key reads after the entries of a list have been stored in order
abbrev pub over : List Entry → ℕ → Option Value → Option Value
over [] c o = o
over (e ∷ es) c o = over es c (override e.key e.value c o)

abbrev weight : Option ℕ → ℕ
weight none = 0
weight (some k) = 1

weight-is_key : (o : Option ℕ) → (if is_key o then 1 else 0) ≡ weight o
unfolding is_key
weight-is_key none = refl
weight-is_key (some k) = refl

pub occupied-nil : occupied [] ≡ 0
unfolding occupied
occupied-nil = refl

pub occupied-cons : (e : Entry) (es : List Entry) → occupied (e ∷ es) ≡ weight e.key + occupied es
unfolding occupied
occupied-cons e es = rw (weight-is_key e.key) refl

module _ (heap : ℕ → StringObject) (capacity shift : ℕ) where
  abbrev pub homes : ℕ → ℕ
  homes = home heap shift

  record Copies (key : Option ℕ) (v : Value) (es es' : List Entry) : Type 0 where
    placed : Placed homes capacity es'
    filled : occupied es' ≡ occupied es + weight key
    reads : (c : ℕ) (o : Option Value) → Reads es c o → Reads es' c (override key v c o)
    clean : Clean es → Clean es'
    keys : (j c : ℕ) → key_at es' j ≡ some c → (key ≡ some c) ⊎ ((i : ℕ) × (key_at es i ≡ some c))

  copy_entry-Copies :
      (key : Option ℕ) (v : Value) (es : List Entry) (count : ℕ)
      → Placed homes capacity es
      → occupied es < capacity
      → ((k j : ℕ) → key ≡ some k → key_at es j ≢ some k)
      → (es' : List Entry) × (copy_entry heap key v capacity shift es count
          ≡ some (es', count + weight key))
        × Copies key v es es'
  unfolding copy_entry write_slot find_entry is_key
  copy_entry-Copies none v es count p room fresh = (
    es,
    ap (λ n. some (es, n)) (omega arith),
    record {
      placed = p;
      filled = omega arith;
      reads = λ c o r. r;
      clean = λ h. h;
      keys = λ j c e. inr (j, e);
    },
  )
  copy_entry-Copies (some k) v es count p room fresh =
      let (i, run, end) = find_slot-Ends homes capacity es k p room in
      (
        set es i (keyed k v),
        rw run refl,
        record {
          placed = set-Placed homes capacity es k i v p end;
          filled = new_key i end;
          reads = set-Reads homes capacity es k i v p end;
          clean = set-Clean homes capacity es k i v p end;
          keys = λ j c e. of_after j c (after homes capacity es k i v p end j c e);
        },
      )
    where
      new_key :
          (i : ℕ) → Ends homes capacity es k i → occupied (set es i (keyed k v)) ≡ occupied es + 1
      new_key i end =
          let h : i < length es = omega (arith, p.width, end.in_range) in
          elim end.found [
            | inl f ↦ absurd (fresh k i refl f)
            | inr f ↦ let n = f.0 in occupied-set es i k v h ∙ (rw n refl)
          ]

      of_after :
          {i : ℕ} (j c : ℕ)
          → (j ≡ i) × (c ≡ k) ⊎ (j ≢ i) × (key_at es j ≡ some c)
          → (some k ≡ some c) ⊎ ((i : ℕ) × (key_at es i ≡ some c))
      of_after j c (inl x) = inl (ap some (sym x.1))
      of_after j c (inr x) = inr (j, x.1)

  abbrev pub AreDistinct : List Entry → Type 0
  AreDistinct rest = (i j k : ℕ) → key_at rest i ≡ some k → key_at rest j ≡ some k → i ≡ j

  abbrev pub AreApart : List Entry → List Entry → Type 0
  AreApart rest es = (i j k : ℕ) → key_at rest i ≡ some k → key_at es j ≢ some k

  pub record Reinserted (rest es es' : List Entry) : Type 0 where
    pub placed : Placed homes capacity es'
    pub filled : occupied es' ≡ occupied es + occupied rest
    pub reads : (c : ℕ) (o : Option Value) → Reads es c o → Reads es' c (over rest c o)
    pub clean : Clean es → Clean es'

  pub reinsert-Reinserted :
      (rest es : List Entry) (count : ℕ)
      → Placed homes capacity es
      → occupied es + occupied rest < capacity
      → AreDistinct rest
      → AreApart rest es
      → (es' : List Entry) × (reinsert heap rest capacity shift es count
          ≡ some (es', count + occupied rest))
        × Reinserted rest es es'
  unfolding reinsert
  reinsert-Reinserted [] es count p room distinct apart = (
    es,
    ap (λ n. some (es, n)) (omega (arith, occupied-nil)),
    record { placed = p; filled = omega (arith, occupied-nil); reads = λ c o r. r; clean = λ h. h },
  )
  reinsert-Reinserted (e ∷ rest) es count p room distinct apart =
      let cons = occupied-cons e rest in
      let (es', run, c) =
        copy_entry-Copies e.key e.value es count p (omega arith) (λ k j h. apart 0 j k h) in
      let (es'', run', r) =
        reinsert-Reinserted rest es' (count + weight e.key) c.placed (omega (arith, c.filled))
          (λ i j k x y. omega (arith, distinct (suc i) (suc j) k x y))
          (λ i j k x y. apart_later es' i j k x (c.keys j k y)) in
      (
        es'',
        rw run (run' ∙ ap (λ n. some (es'', n)) (omega arith)),
        record {
          placed = r.placed;
          filled = omega (arith, r.filled, c.filled);
          reads = λ k o x. r.reads k _ (c.reads k o x);
          clean = λ h. r.clean (c.clean h);
        },
      )
    where
      apart_later :
          (es' : List Entry) (i j k : ℕ)
          → key_at rest i ≡ some k
          → (e.key ≡ some k) ⊎ ((m : ℕ) × (key_at es m ≡ some k))
          → ⊥
      apart_later es' i j k x (inl y) = absurd (omega (arith, distinct 0 (suc i) k y x))
      apart_later es' i j k x (inr (m, y)) = apart (suc i) m k x y
