-- ===== src/Table/Growth.antt =====
-- The invariant of the table, and `adjustCapacity` of elox/lib/table.c.

use slox.Memory.Slots.{ctz-pow, index_for-lt}
use slox.Prelude.{
  ℕ, zero, suc, ◌+◌, ◌-◌, ◌*◌, ◌^◌, ◌≤◌, ◌<◌, Bool, true, List, [], ◌∷◌, Option, none, some, ◌≡◌,
  refl, sym, ap, ◌∙◌, ◌⊎◌, inl, inr, arith, length-replicate, get_or-replicate, replicate, subst,
  ◌==◌, Bool-cases, Option-cases, ==_iff,
}
use slox.Table.Placed.{occupied, Placed}
use slox.Table.Probe.{key_at}
use slox.Table.Rehash.{over, reinsert-Reinserted, occupied-nil, occupied-cons}
use slox.Table.Store.{Reads, keyed, Clean}
use slox.Table.{
  StringObject, Entry, Table, empty_entry, entry_at, home, reinsert, adjusted, adjust_capacity,
  init_table,
}
use slox.Value.{Value}

-- an array of entries is in place: `2 ^ k` slots, at most three quarters of them full
pub record Sound (heap : ℕ → StringObject) (k : ℕ) (t : Table) : Type 0 where
  pub low : 3 ≤ k
  pub high : k ≤ 30
  pub capacity : t.capacity ≡ 2 ^ k
  pub shift : t.shift ≡ 32 - k
  pub placed : Placed (home heap t.shift) t.capacity t.entries
  pub load : occupied t.entries * 4 ≤ t.capacity * 3
  pub counted : t.count ≡ occupied t.entries
  pub clean : Clean t.entries

-- the tables that the operations meet
abbrev pub Valid : (ℕ → StringObject) → Table → Type 0
Valid heap t = (t ≡ init_table t) ⊎ ((k : ℕ) × Sound heap k t)

override_none : (es : List Entry) (c : ℕ) (o : Option Value) → Reads es c none → over es c o ≡ o
override_none [] c o r = refl
override_none (e ∷ es) c o r = elim (Option-cases e.key) [
  | inl n ↦ rw n (override_none es c o (λ j x. r (suc j) x))
  | inr (k, s) ↦ elim (Bool-cases (c == k)) [
    | inl same ↦ let same' : c ≡ k = ground arith in absurd (r 0 (rw same' s))
    | inr other ↦ rw (s, other) (override_none es c o (λ j x. r (suc j) x))
  ]
]

abbrev AreDistinct : List Entry → Type 0
AreDistinct es = (i j k : ℕ) → key_at es i ≡ some k → key_at es j ≡ some k → i ≡ j

override_some :
    (es : List Entry) (c i : ℕ) (v : Value) (o : Option Value)
    → AreDistinct es
    → entry_at es i ≡ keyed c v
    → over es c o ≡ some v
override_some [] c i v o d e = absurd (let f : none ≡ some c = ap (λ x. x.key) e in cc)
override_some (e ∷ es) c zero v o d at =
    let e' : (c == c) ≡ true = (==_iff c c).1 refl in
    rw (at, e')
      (override_none es c (some v)
        (λ j x. absurd (omega (arith, d 0 (suc j) c (ap (λ x. x.key) at) x))))
override_some (e ∷ es) c (suc i) v o d at =
    override_some es c i v _ (λ i j k x y. omega (arith, d (suc i) (suc j) k x y)) at

-- storing every entry of a table in an empty one gives what the table holds
over-Reads :
    (es : List Entry) (c : ℕ) (o : Option Value)
    → AreDistinct es
    → Reads es c o
    → over es c none ≡ o
over-Reads es c none d r = override_none es c none r
over-Reads es c (some v) d (i, e) = override_some es c i v none d e

pub key_at-replicate : (n j : ℕ) → key_at (replicate n empty_entry) j ≡ none
key_at-replicate n j = ap (λ e. e.key) (get_or-replicate n j empty_entry)

occupied-replicate : (n : ℕ) → occupied (replicate n empty_entry) ≡ 0
occupied-replicate zero = occupied-nil
occupied-replicate (suc n) =
    omega (arith, occupied-cons empty_entry (replicate n empty_entry), occupied-replicate n)

module _ (heap : ℕ → StringObject) where
  homes_lt : (k : ℕ) → k ≤ 32 → (c : ℕ) → home heap (32 - k) c < 2 ^ k
  unfolding home
  homes_lt k h c = index_for-lt (heap c).hash k h

  empty-Placed :
      (k : ℕ) → k ≤ 32 → Placed (home heap (32 - k)) (2 ^ k) (replicate (2 ^ k) empty_entry)
  empty-Placed k h = record {
    width = length-replicate (2 ^ k) empty_entry;
    homes_lt = homes_lt k h;
    unique = λ i j c x y. let z = key_at-replicate (2 ^ k) i in cc;
    trail = λ i c x. let z = key_at-replicate (2 ^ k) i in let f : none ≡ some c = sym z ∙ x in cc;
  }

  -- the table in a larger array
  pub record Roomier (k : ℕ) (t t' : Table) : Type 0 where
    pub sound : Sound heap k t'
    pub same_count : t'.count ≡ occupied t.entries
    pub same_keys : occupied t'.entries ≡ occupied t.entries
    pub holds : (c : ℕ) (o : Option Value) → Reads t.entries c o → Reads t'.entries c o

  module _ (k : ℕ) (t : Table) (low : 3 ≤ k) (high : k ≤ 30) where
    moved :
        occupied t.entries < 2 ^ k
        → occupied t.entries * 4 ≤ 2 ^ k * 3
        → AreDistinct t.entries
        → (r : List Entry × ℕ) × (reinsert heap t.entries
              (2 ^ k)
              (32 - k)
              (replicate (2 ^ k) empty_entry)
              0
            ≡ some r)
          × Roomier k t (record { count = r.1; capacity = 2 ^ k; shift = 32 - k; entries = r.0 })
    moved room load distinct =
        let empty = occupied-replicate (2 ^ k) in
        let (es, run, r) =
          reinsert-Reinserted heap (2 ^ k) (32 - k) t.entries (replicate (2 ^ k) empty_entry) 0
            (empty-Placed k (omega arith)) (omega arith) distinct
            (λ i j c x y. let z = key_at-replicate (2 ^ k) j in cc) in
        let filled : occupied es ≡ occupied t.entries = omega (arith, r.filled) in
        (
          (es, 0 + occupied t.entries),
          run,
          record {
            sound = record {
              low = low;
              high = high;
              capacity = refl;
              shift = refl;
              placed = r.placed;
              load = rw filled load;
              counted = omega (arith, filled);
              clean = r.clean (λ j x. ap (λ e. e.value) (get_or-replicate (2 ^ k) j empty_entry));
            };
            same_count = omega arith;
            same_keys = filled;
            holds = λ c o h.
                let same = over-Reads t.entries c o distinct h in
                subst (Reads es c) same
                  (r.reads c none (λ j x. let z = key_at-replicate (2 ^ k) j in cc));
          },
        )

  keys_distinct : (k : ℕ) (t : Table) → Sound heap k t → AreDistinct t.entries
  keys_distinct k t s = s.placed.unique

  pub init-AreDistinct : AreDistinct []
  init-AreDistinct i j k x y = let f : none ≡ some k = x in cc

  module _ (alloc : ℕ → Bool) where
    -- what `adjust_capacity` gives, by what the allocation gives
    pub adjust_capacity-moves :
        (k : ℕ) (t : Table)
        → 3 ≤ k
        → k ≤ 30
        → occupied t.entries < 2 ^ k
        → occupied t.entries * 4 ≤ 2 ^ k * 3
        → AreDistinct t.entries
        → alloc (2 ^ k) ≡ true
        → (t' : Table) × (adjust_capacity heap alloc t (2 ^ k) ≡ some (true, t')) × Roomier k t t'
    unfolding adjust_capacity adjusted
    adjust_capacity-moves k t low high room load distinct a =
        let (r, run, m) = moved k t low high room load distinct in
        let c = ctz-pow k (omega arith) in (_, rw (a, c, run) refl, m)
