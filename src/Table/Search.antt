-- ===== src/Table/Search.antt =====
-- `tableFindString` of elox/lib/table.c: a search by the text of a string instead of its address.
use native.Mathlib.Nat.{mod-add-mod, mod-eq_of_lt, add_assoc, add-zero}
use slox.Memory.Slots.{index_for-lt}
use slox.Memory.{index_for}
use slox.Prelude.{
  ℕ, zero, suc, ◌+◌, ◌%◌, ◌≤◌, ◌<◌, Bool, true, false, ◌&&◌, List, Option, none, some, ◌≡◌, ◌≢◌,
  refl, sym, ap, ◌∙◌, inl, inr, arith, length, ◌==◌, ==_iff, ltb, Bool-cases, bytes_equal,
  bytes_equal_sound, bytes_equal_refl, ◌>>=◌,
}
use slox.Table.Growth.{Sound, Valid}
use slox.Table.Map.{vacant}
use slox.Table.Placed.{free_slot, occupied}
use slox.Table.Probe.{key_at, slot, slot_distance}
use slox.Table.Room.{has_room}
use slox.Table.{
  Entry, StringObject, Table, entry_at, find_string_slot, home, stops_string, table_find_string,
}

module _ (heap : ℕ → StringObject) (chars : List ℕ) (hash : ℕ) where
  -- the string with these bytes and this hash
  abbrev pub Matches : ℕ → Type 0
  Matches k = ((heap k).chars ≡ chars) × ((heap k).hash ≡ hash)

  stops_string-Matches : (k : ℕ) → Matches k → stops_string heap (some k) chars hash ≡ true
  unfolding stops_string
  stops_string-Matches k (c, h) =
      rw (c, h, (==_iff hash hash).1 refl, (==_iff (length chars) (length chars)).1 refl)
        (bytes_equal_refl chars)

  Matches-stops_string : (k : ℕ) → stops_string heap (some k) chars hash ≡ true → Matches k
  unfolding stops_string
  Matches-stops_string k e =
      both (length (heap k).chars == length chars) ((heap k).hash == hash)
        (bytes_equal (heap k).chars chars) e (λ h. (==_iff (heap k).hash hash).0 h)
        (bytes_equal_sound (heap k).chars chars)
    where
      both :
          (a b c : Bool)
          → (a && b && c) ≡ true
          → (b ≡ true → (heap k).hash ≡ hash)
          → (c ≡ true → (heap k).chars ≡ chars)
          → Matches k
      both true true true e f g = (g refl, f refl)
      both true true false e f g = absurd cc
      both true false c e f g = absurd cc
      both false b c e f g = absurd cc

  module _ (es : List Entry) (capacity h : ℕ) where
    abbrev stops_at : ℕ → Bool
    stops_at d = stops_string heap (key_at es (slot capacity h d)) chars hash

    -- the first slot from distance `d` on where the search stops
    abbrev First : ℕ → Option ℕ → Type 0
    First d r =
        (e : ℕ) × (r ≡ some (slot capacity h e))
        × (stops_at e ≡ true)
        × ((j : ℕ) → d ≤ j → j < e → stops_at j ≡ false)

    find_string_slot-First :
        (turns d m index : ℕ)
        → index ≡ slot capacity h d
        → d ≤ m
        → m < d + turns
        → stops_at m ≡ true
        → First d (find_string_slot heap turns es capacity chars hash index)
    unfolding find_string_slot
    find_string_slot-First zero d m index at le lt s = absurd (omega arith)
    find_string_slot-First (suc turns) d m index at le lt s = elim (Bool-cases (stops_at d)) [
      | inl e ↦ rw (at, e) (d, refl, e, λ j p q. absurd (omega arith))
      | inr e ↦
          let ne : d ≢ m = λ q. cc (ap stops_at q) in
          let next : (index + 1) % capacity ≡ slot capacity h (d + 1) =
            rw (at, mod-add-mod, add_assoc) refl in
          let (f, run, st, before) =
            find_string_slot-First turns (d + 1) m ((index + 1) % capacity) next (omega arith)
              (omega arith) s in
          rw (at, e)
            (
              f,
              (rw at at run),
              st,
              λ j p q. elim (Bool-cases (j == d)) [
                | inl same ↦ let same' : j ≡ d = ground arith in rw same' e
                | inr other ↦ before j (ground arith) q
              ],
            )
    ]

  -- what the search finds: a key with that text, or no key has it
  abbrev pub Finds : Table → Option ℕ → Type 0
  Finds t none = (i k : ℕ) → key_at t.entries i ≡ some k → ¬ Matches k
  Finds t (some k) = Matches k × ((i : ℕ) × (key_at t.entries i ≡ some k))

  module _ (x : ℕ) (t : Table) (s : Sound heap x t) where
    start : ℕ
    start = index_for hash t.shift

    start-lt : start < t.capacity
    unfolding start
    start-lt =
        let high = s.high in rw (s.shift, s.capacity) (index_for-lt hash x (omega (arith, high)))

    -- the search stops at an empty slot: no key has the text
    nowhere :
        (d : ℕ)
        → key_at t.entries (slot t.capacity start d) ≡ none
        → ((j : ℕ) → 0 ≤ j → j < d → stops_at t.entries t.capacity start j ≡ false)
        → Finds t none
    unfolding start home
    nowhere d n before i k e m = let way = s.placed.trail i k e in at way.0 way.2 way.3
      where
        same_home : home heap t.shift k ≡ index_for hash t.shift
        same_home = ap (λ h. index_for h t.shift) m.1

        at :
            (f : ℕ)
            → i ≡ slot t.capacity (home heap t.shift k) f
            → ((g : ℕ) → g < f → key_at t.entries (slot t.capacity (home heap t.shift k) g) ≢ none)
            → ⊥
        at f same way = elim (Bool-cases (ltb d f)) [
          | inl lt ↦ way d (ground arith) (rw same_home n)
          | inr ge ↦ elim (Bool-cases (f == d)) [
            | inl eq ↦
                let eq' : f ≡ d = ground arith in
                let here : key_at t.entries i ≡ none = rw (same, same_home, eq') n in cc
            | inr ne ↦
                let early = before f (omega arith) (ground arith) in
                let place : i ≡ slot t.capacity (index_for hash t.shift) f = rw same_home at same in
                let now : stops_at t.entries t.capacity (index_for hash t.shift) f ≡ true =
                  rw (sym place, e) (stops_string-Matches k m) in
                cc
          ]
        ]

    stopped-Finds :
        First t.entries t.capacity start 0
          (find_string_slot heap t.capacity t.entries t.capacity chars hash start)
        → (r : Option ℕ) × ((find_string_slot heap t.capacity t.entries t.capacity chars hash start
              >>= λ i. some (entry_at t.entries i).key)
            ≡ some r)
          × Finds t r
    stopped-Finds (e, run, st, before) = (
      key_at t.entries (slot t.capacity start e),
      ap (λ q. q >>= λ i. some (entry_at t.entries i).key) run,
      found (key_at t.entries (slot t.capacity start e)) refl,
    )
      where
        found : (o : Option ℕ) → key_at t.entries (slot t.capacity start e) ≡ o → Finds t o
        found none n = nowhere e n before
        found (some k) f = (
          Matches-stops_string k (ap (λ o. stops_string heap o chars hash) (sym f) ∙ st),
          (slot t.capacity start e, f),
        )

    find-Sound : (r : Option ℕ) × (table_find_string heap t chars hash ≡ some r) × Finds t r
    unfolding table_find_string start stops_string
    find-Sound = elim (Bool-cases (t.count == 0)) [
      | inl z ↦
          let n = s.counted in
          let z' : occupied t.entries ≡ 0 = ground arith in
          (none, rw z refl, λ i k e. let f = vacant t.entries z' i in cc)
      | inr z ↦
          let width = s.placed.width in
          let free = free_slot t.entries (omega (arith, has_room heap x t s, width)) in
          let (m, lt, at) =
            slot_distance t.capacity (index_for hash t.shift) free.0 start-lt
              (omega (arith, free.1, width)) in
          let first =
            find_string_slot-First t.entries t.capacity (index_for hash t.shift) t.capacity 0 m
              (index_for hash t.shift)
              (sym (
                ap (λ i. i % t.capacity) (add-zero (index_for hash t.shift))
                ∙ mod-eq_of_lt start-lt))
              (omega arith) (omega (arith, lt)) (rw (at, free.2) refl) in
          let (r, run, f) = stopped-Finds first in (r, rw z run, f)
    ]

  -- For a valid table `tableFindString` ends, with a key that has the bytes and the hash, or with none
  -- if no key of the table has them.
  pub table_find_string-Finds :
      (t : Table)
      → Valid heap t
      → (r : Option ℕ) × (table_find_string heap t chars hash ≡ some r) × Finds t r
  unfolding table_find_string
  table_find_string-Finds t (inl e) =
      rw e (none, refl, λ i k x. let f : none ≡ some k = x in absurd cc)
  table_find_string-Finds t (inr (x, s)) = find-Sound x t s
