-- ===== src/Table/Placed.antt =====
-- Well-formed slots of the table of elox/lib/table.c, and a search of them.
use native.Mathlib.Nat.{mod-lt, mod-eq_of_lt, add-zero}
use slox.Prelude.{
  ℕ, zero, suc, ◌+◌, ◌≤◌, ◌<◌, true, false, List, [], ◌∷◌, Option, none, some, ◌≡◌, ◌≢◌, refl, sym,
  ap, ◌⊎◌, inl, inr, arith, length, set, ltb, ◌==◌, if◌then◌else◌, Bool-cases, Option-cases, ==_iff,
}
use slox.Table.Probe.{slot, key_at, slot_distance, find_slot-First, First}
use slox.Table.{Entry, stops, find_slot, is_key}
use slox.Value.{Value}

-- the number of keys
unfoldable pub occupied : List Entry → ℕ
unfolding is_key
occupied [] = 0
occupied (e ∷ es) = (if is_key e.key then 1 else 0) + occupied es

occupied-le : (es : List Entry) → occupied es ≤ length es
unfolding occupied
occupied-le [] = omega arith
occupied-le (e ∷ es) = ground (arith, occupied-le es)

pub free_slot :
    (es : List Entry) → occupied es < length es → (z : ℕ) × (z < length es) × (key_at es z ≡ none)
unfolding occupied
free_slot [] h = absurd (omega arith)
free_slot (e ∷ es) h = elim (Option-cases e.key) [
  | inl n ↦ (0, omega arith, n)
  | inr (k, s) ↦ let (z, lt, n) = free_slot es (later k s) in (suc z, omega arith, n)
]
  where
    later : (k : ℕ) → e.key ≡ some k → occupied es < length es
    later k s = ground arith

pub occupied-set :
    (es : List Entry) (i : ℕ) (k : ℕ) (v : Value)
    → i < length es
    → occupied (set es i (record { key = some k; value = v }))
      ≡ occupied es + (if is_key (key_at es i) then 0 else 1)
unfolding occupied
occupied-set [] i k v h = absurd (omega arith)
occupied-set (e ∷ es) zero k v h = ground arith
occupied-set (e ∷ es) (suc i) k v h = omega (arith, occupied-set es i k v (omega arith))

module _ (homes : ℕ → ℕ) where
  -- between home and place
  abbrev pub Trail : List Entry → ℕ → ℕ → ℕ → Type 0
  Trail es capacity k i =
      (d : ℕ) × (d < capacity)
      × (i ≡ slot capacity (homes k) d)
      × ((e : ℕ) → e < d → key_at es (slot capacity (homes k) e) ≢ none)

  pub record Placed (capacity : ℕ) (es : List Entry) : Type 0 where
    pub width : length es ≡ capacity
    pub homes_lt : (k : ℕ) → homes k < capacity
    pub unique : (i j k : ℕ) → key_at es i ≡ some k → key_at es j ≡ some k → i ≡ j
    pub trail : (i k : ℕ) → key_at es i ≡ some k → Trail es capacity k i

  -- the slot where the search for `k` ends
  pub record Ends (capacity : ℕ) (es : List Entry) (k i : ℕ) : Type 0 where
    pub in_range : i < capacity
    pub way : Trail es capacity k i
    pub found : (key_at es i ≡ some k) ⊎ (key_at es i ≡ none) × ((j : ℕ) → key_at es j ≢ some k)

  -- a slot that ends the search is the key's, or is empty
  stopped : (o : Option ℕ) (k : ℕ) → stops o k ≡ true → (o ≡ some k) ⊎ (o ≡ none)
  unfolding stops
  stopped none k s = inr refl
  stopped (some j) k s = inl (ap some ((==_iff j k).0 s))

  stops-some : (o : Option ℕ) (k : ℕ) → o ≡ some k → stops o k ≡ true
  unfolding stops
  stops-some o k e = rw e ((==_iff k k).1 refl)

  stops-none : (o : Option ℕ) (k : ℕ) → o ≡ none → stops o k ≡ true
  unfolding stops
  stops-none o k e = rw e refl

  module _ (capacity : ℕ) (es : List Entry) (k : ℕ) (p : Placed capacity es) where
    -- if the search ends at an empty slot, the key is nowhere
    nowhere :
        (d : ℕ)
        → key_at es (slot capacity (homes k) d) ≡ none
        → ((j : ℕ) → j < d → stops (key_at es (slot capacity (homes k) j)) k ≡ false)
        → (i : ℕ) → key_at es i ≢ some k
    nowhere d n before i e = let t = p.trail i k e in at t.0 t.2 t.3
      where
        at :
            (f : ℕ)
            → i ≡ slot capacity (homes k) f
            → ((g : ℕ) → g < f → key_at es (slot capacity (homes k) g) ≢ none)
            → ⊥
        at f same way = elim (Bool-cases (ltb d f)) [
          | inl lt ↦ way d (ground arith) n
          | inr ge ↦ elim (Bool-cases (f == d)) [
            | inl eq ↦
                let eq' : f ≡ d = ground arith in
                let here : key_at es i ≡ none = rw (same, eq') n in cc
            | inr ne ↦
                let later = before f (ground arith) in
                let now : stops (key_at es (slot capacity (homes k) f)) k ≡ true =
                  stops-some _ k (rw (sym same) e) in
                cc
          ]
        ]

    Ends-First :
        (m : ℕ) (r : Option ℕ)
        → m < capacity
        → First es capacity k (homes k) 0 m r
        → (i : ℕ) × (r ≡ some i) × Ends capacity es k i
    Ends-First m r lt (e, le, run, st, before) = (
      slot capacity (homes k) e,
      run,
      record {
        in_range = mod-lt (homes k + e) (omega arith);
        way = (
          e,
          omega arith,
          refl,
          λ j l n. let b = before j (omega arith) l in let c = stops-none _ k n in cc,
        );
        found = elim (stopped _ k st) [
          | inl s ↦ inl s
          | inr n ↦ inr (n, nowhere e n (λ j l. before j (omega arith) l))
        ];
      },
    )

    -- With a free slot the search ends: at the key, or at an empty slot if the key is nowhere.
    pub find_slot-Ends :
        occupied es < capacity
        → (i : ℕ) × (find_slot capacity es capacity k (homes k) ≡ some i) × Ends capacity es k i
    find_slot-Ends room =
        let free = free_slot es (omega (arith, p.width)) in
        let (m, lt, z) =
          slot_distance capacity (homes k) free.0 (p.homes_lt k) (omega (arith, free.1, p.width)) in
        Ends-First m _ lt (
          find_slot-First es capacity k (homes k) capacity 0 m (homes k) (home_slot p) (omega arith)
            (omega arith) (stops-none _ k (rw z free.2)))
      where
        home_slot : Placed capacity es → homes k ≡ slot capacity (homes k) 0
        home_slot q = rw add-zero (sym (mod-eq_of_lt (q.homes_lt k)))
