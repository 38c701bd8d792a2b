-- ===== src/Table/Probe.antt =====
-- The slots that a search round the table meets, `findEntry` of elox/include/elox/table.h.
use native.Mathlib.Nat.{mod-add-mod, mod-eq_of_lt, add_assoc, add-mod_right}
use slox.Prelude.{
  ℕ, zero, suc, ◌+◌, ◌-◌, ◌%◌, ◌≤◌, ◌<◌, Bool, true, false, List, Option, some, ◌≡◌, ◌≢◌, refl, ap,
  inl, inr, arith, leb, ◌==◌, Bool-cases,
}
use slox.Table.{Entry, entry_at, stops, find_slot}

-- the `d`-th slot of the search that begins at `h`
abbrev pub slot : ℕ → ℕ → ℕ → ℕ
slot capacity h d = (h + d) % capacity

abbrev pub key_at : List Entry → ℕ → Option ℕ
key_at es i = (entry_at es i).key

next_slot : (capacity h d : ℕ) → (slot capacity h d + 1) % capacity ≡ slot capacity h (d + 1)
next_slot capacity h d = rw (mod-add-mod, add_assoc)

-- every slot is met within one turn
pub slot_distance :
    (capacity h z : ℕ)
    → h < capacity
    → z < capacity
    → (d : ℕ) × (d < capacity) × (slot capacity h d ≡ z)
slot_distance capacity h z hl zl = elim (Bool-cases (leb h z)) [
  | inl e ↦
      let f : h ≤ z = ground arith in
      let g : h + (z - h) ≡ z = omega arith in (z - h, omega arith, rw g (mod-eq_of_lt zl))
  | inr e ↦
      let f : z < h = ground arith in
      let g : h + (z + capacity - h) ≡ z + capacity = omega arith in
      (z + capacity - h, omega arith, rw (g, add-mod_right, mod-eq_of_lt zl))
]

module _ (es : List Entry) (capacity key h : ℕ) where
  abbrev pub stops_at : ℕ → Bool
  stops_at d = stops (key_at es (slot capacity h d)) key

  -- what a search from distance `d` on finds, within `m`
  abbrev pub First : ℕ → ℕ → Option ℕ → Type 0
  First d m r =
      (e : ℕ) × (e ≤ m)
      × (r ≡ some (slot capacity h e))
      × (stops_at e ≡ true)
      × ((j : ℕ) → d ≤ j → j < e → stops_at j ≡ false)

  pub find_slot-First :
      (turns d m index : ℕ)
      → index ≡ slot capacity h d
      → d ≤ m
      → m < d + turns
      → stops_at m ≡ true
      → First d m (find_slot turns es capacity key index)
  unfolding find_slot
  find_slot-First zero d m index at le lt s = absurd (omega arith)
  find_slot-First (suc turns) d m index at le lt s = elim (Bool-cases (stops_at d)) [
    | inl e ↦ rw (at, e) (d, le, refl, e, λ j p q. absurd (omega arith))
    | inr e ↦
        let ne : d ≢ m = λ q. cc (ap stops_at q) in
        let (f, fle, run, st, before) =
          find_slot-First turns (d + 1) m ((index + 1) % capacity) (rw at (next_slot capacity h d))
            (omega arith) (omega arith) s in
        rw (at, e)
          (
            f,
            fle,
            (rw at at run),
            st,
            λ j p q. elim (Bool-cases (j == d)) [
              | inl same ↦ let same' : j ≡ d = ground arith in rw same' e
              | inr other ↦ before j (ground arith) q
            ],
          )
  ]
