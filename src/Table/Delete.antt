-- ===== src/Table/Delete.antt =====
-- `tableDelete` and `tableRemoveWhite` of elox/lib/table.c come to an end: an empty slot stops the
-- search, and stops the loop that closes the hole.
use native.Mathlib.Nat.{mod-lt, mod-eq_of_lt, add-mod_right, add-zero, zero-add}
use slox.Memory.Slots.{index_for-lt}
use slox.Prelude.{
  ℕ, zero, suc, ◌+◌, ◌-◌, ◌^◌, ◌%◌, ◌≤◌, ◌<◌, Bool, true, false, List, Option, none, some, ◌≡◌, ◌≢◌,
  refl, sym, ap, ◌∙◌, subst, inl, inr, arith, length, set, length-set, get_or-set_self,
  get_or-set_ne, ◌==◌, ==_iff, if◌then◌else◌, Bool-cases, ◌>>=◌,
}
use slox.Table.Growth.{Sound}
use slox.Table.Placed.{free_slot}
use slox.Table.Probe.{find_slot-First, key_at, slot, slot_distance}
use slox.Table.Room.{has_room}
use slox.Table.{
  Entry, StringObject, Table, close_hole, delete_at, delete_white, empty_entry, entry_at,
  find_entry, found_index, home, is_key, is_white, moves_back, next_entry, remove_white_from, stops,
  table_delete, table_remove_white,
}

-- the slots of an array that has an empty one
pub record HasSpace (t : Table) : Type 0 where
  pub exponent : ℕ
  pub high : exponent ≤ 32
  pub capacity : t.capacity ≡ 2 ^ exponent
  pub shift : t.shift ≡ 32 - exponent
  pub width : length t.entries ≡ t.capacity
  pub free : (z : ℕ) × (z < t.capacity) × (key_at t.entries z ≡ none)

next_slot :
    (capacity next d : ℕ)
    → next < capacity
    → (next + suc d) % capacity ≡ (next_entry capacity next + d) % capacity
unfolding next_entry
next_slot capacity next d lt = elim (Bool-cases (next + 1 == capacity)) [
  | inl e ↦
      let e' : next + 1 ≡ capacity = ground arith in
      let f : next + suc d ≡ d + capacity = omega arith in
      rw (e, f) (add-mod_right d capacity ∙ sym (ap (λ i. i % capacity) (zero-add d)))
  | inr e ↦ let f : next + suc d ≡ next + 1 + d = omega arith in rw (e, f) refl
]

pub next_entry-lt : (capacity next : ℕ) → next < capacity → next_entry capacity next < capacity
unfolding next_entry
next_entry-lt capacity next lt = ground arith

key_at-set_self :
    (es : List Entry) (i : ℕ) (e : Entry) → i < length es → key_at (set es i e) i ≡ e.key
key_at-set_self es i e lt = ap (λ x. x.key) (get_or-set_self es i e empty_entry lt)

key_at-set_ne :
    (es : List Entry) (i j : ℕ) (e : Entry) → i ≢ j → key_at (set es i e) j ≡ key_at es j
key_at-set_ne es i j e d = ap (λ x. x.key) (get_or-set_ne es i j e empty_entry d)

no_key : {o : Option ℕ} → o ≡ none → is_key o ≡ false
unfolding is_key
no_key n = rw n refl

module _ (heap : ℕ → StringObject) (capacity shift : ℕ) where
  -- the loop ends, and leaves an empty slot behind
  abbrev pub Closes : Option (List Entry) → Type 0
  Closes r =
      (es : List Entry) × (r ≡ some es)
      × (length es ≡ capacity)
      × (z : ℕ) × (z < capacity)
      × (key_at es z ≡ none)

  cleared-Closes :
      (es : List Entry) (hole : ℕ)
      → length es ≡ capacity
      → hole < capacity
      → Closes (some (set es hole empty_entry))
  cleared-Closes es hole width lt = (
    set es hole empty_entry,
    refl,
    length-set es hole empty_entry ∙ width,
    hole,
    lt,
    key_at-set_self es hole empty_entry (omega (arith, width, lt)),
  )

  -- with that many turns, if the hole holds a key and the first empty slot is near
  abbrev Closing : ℕ → Type 0
  Closing turns =
      (es : List Entry) (hole next d : ℕ)
      → length es ≡ capacity
      → hole < capacity
      → next < capacity
      → d < turns
      → is_key (key_at es hole) ≡ true
      → key_at es ((next + d) % capacity) ≡ none
      → Closes (close_hole heap turns es capacity shift hole next)

  step-Closes :
      (turns : ℕ)
      → Closing turns
      → (es : List Entry) (hole next d : ℕ) → length es ≡ capacity
      → hole < capacity
      → next < capacity
      → d < suc turns
      → is_key (key_at es hole) ≡ true
      → key_at es ((next + d) % capacity) ≡ none
      → is_key (key_at es next) ≡ true
      → (moved : Bool)
      → Closes (
          close_hole heap turns
            (if moved then set es hole (entry_at es next) else es)
            capacity
            shift
            (if moved then next else hole)
            (next_entry capacity next))
  step-Closes turns ih es hole next zero width hl nl lt full free e moved =
      let here = add-zero next in
      let n : key_at es next ≡ none =
        subst (λ i. key_at es i ≡ none) (ap (λ i. i % capacity) here ∙ mod-eq_of_lt nl) free in
      let f = no_key n in absurd cc
  step-Closes turns ih es hole next (suc d) width hl nl lt full free e false =
      ih es hole (next_entry capacity next) d width hl (next_entry-lt capacity next nl)
        (omega (arith, lt)) full
        (subst (λ i. key_at es i ≡ none) (next_slot capacity next d nl) free)
  step-Closes turns ih es hole next (suc d) width hl nl lt full free e true =
      ih (set es hole (entry_at es next)) next (next_entry capacity next) d
        (length-set es hole (entry_at es next) ∙ width) nl (next_entry-lt capacity next nl)
        (omega (arith, lt)) still (key_at-set_ne es hole _ (entry_at es next) apart ∙ gone)
    where
      gone : key_at es ((next_entry capacity next + d) % capacity) ≡ none
      gone = subst (λ i. key_at es i ≡ none) (next_slot capacity next d nl) free

      apart : hole ≢ (next_entry capacity next + d) % capacity
      apart s = let n : key_at es hole ≡ none = ap (key_at es) s ∙ gone in let f = no_key n in cc

      still : is_key (key_at (set es hole (entry_at es next)) next) ≡ true
      still = elim (Bool-cases (hole == next)) [
        | inl s ↦
            let s' : hole ≡ next = (==_iff hole next).0 s in
            let k = key_at-set_self es hole (entry_at es next) (omega (arith, width, hl)) in
            ap (λ i. is_key (key_at (set es hole (entry_at es next)) i)) (sym s')
            ∙ (ap is_key k ∙ e)
        | inr s ↦
            let s' : hole ≢ next = λ t. let u = (==_iff hole next).1 t in cc in
            ap is_key (key_at-set_ne es hole next (entry_at es next) s') ∙ e
      ]

  close_hole-Closes : (turns : ℕ) → Closing turns
  unfolding close_hole
  close_hole-Closes zero es hole next d width hl nl lt full free = absurd (omega arith)
  close_hole-Closes (suc turns) es hole next d width hl nl lt full free =
      elim (Bool-cases (is_key (key_at es next))) [
        | inr e ↦ rw e (cleared-Closes es hole width hl)
        | inl e ↦ rw e (
            step-Closes turns (close_hole-Closes turns) es hole next d width hl nl lt full free e
              (moves_back heap capacity shift (key_at es next) hole next))
      ]

module _ (heap : ℕ → StringObject) where
  home-lt : (t : Table) → HasSpace t → (k : ℕ) → home heap t.shift k < t.capacity
  unfolding home
  home-lt t s k = rw (s.shift, s.capacity) (index_for-lt (heap k).hash s.exponent s.high)

  -- what an operation leaves of the array
  abbrev Deletes : Option (Bool × Table) → Type 0
  Deletes r = (b : Bool) × (t : Table) × (r ≡ some (b, t)) × HasSpace t

  -- the search ends in the array
  find_entry-ends :
      (t : Table) (key : ℕ)
      → HasSpace t
      → (i : ℕ) × (find_entry heap t.entries t.capacity t.shift key ≡ some i) × (i < t.capacity)
  unfolding find_entry stops
  find_entry-ends t key s =
      let (z, zl, free) = s.free in
      let h = home heap t.shift key in
      let (m, ml, at) = slot_distance t.capacity h z (home-lt t s key) zl in
      let first =
        find_slot-First t.entries t.capacity key h t.capacity 0 m h
          (sym (
            ap (λ i. i % t.capacity) (add-zero (home heap t.shift key))
            ∙ mod-eq_of_lt (home-lt t s key)))
          (omega arith) (omega (arith, ml)) (rw (at, free) refl) in
      let (e, le, run, st, before) = first in
      (slot t.capacity h e, run, mod-lt (h + e) (omega (arith, zl)))

  -- the loop from a slot that holds a key
  pub close_at-Closes :
      (t : Table) (i : ℕ)
      → HasSpace t
      → i < t.capacity
      → is_key (key_at t.entries i) ≡ true
      → Closes heap t.capacity t.shift
          (close_hole heap t.capacity t.entries t.capacity t.shift i (next_entry t.capacity i))
  close_at-Closes t i s lt full =
      let (z, zl, free) = s.free in
      let nl = next_entry-lt t.capacity i lt in
      let (d, dl, at) = slot_distance t.capacity (next_entry t.capacity i) z nl zl in
      close_hole-Closes heap t.capacity t.shift t.capacity t.entries i (next_entry t.capacity i) d
        s.width lt nl dl full (subst (λ j. key_at t.entries j ≡ none) (sym at) free)

  pub closed-HasSpace :
      (t : Table) (es : List Entry)
      → HasSpace t
      → length es ≡ t.capacity
      → (z : ℕ) × (z < t.capacity) × (key_at es z ≡ none)
      → HasSpace (record t { entries = es; count = t.count - 1 })
  closed-HasSpace t es s width free = record {
    exponent = s.exponent;
    high = s.high;
    capacity = s.capacity;
    shift = s.shift;
    width = width;
    free = free;
  }

  delete_at-Deletes :
      (t : Table) (i : ℕ)
      → HasSpace t
      → i < t.capacity
      → is_key (key_at t.entries i) ≡ true
      → Deletes (delete_at heap t (some i))
  unfolding delete_at
  delete_at-Deletes t i s lt full =
      let (es, run, width, z, zl, free) = close_at-Closes t i s lt full in
      (
        true,
        record t { entries = es; count = t.count - 1 },
        ap (λ r. r >>= λ es. some (true, record t { entries = es; count = t.count - 1 })) run,
        closed-HasSpace t es s width (z, zl, free),
      )

  -- the deletion ends, and an empty slot is left
  table_delete-Deletes : (t : Table) (key : ℕ) → HasSpace t → Deletes (table_delete heap t key)
  unfolding table_delete found_index delete_at
  table_delete-Deletes t key s =
      let (i, run, lt) = find_entry-ends t key s in
      let step : table_delete heap t key
          ≡ (found_index heap t.entries (some i) >>= λ j. delete_at heap t j) =
        ap (λ r. found_index heap t.entries r >>= λ j. delete_at heap t j) run in
      subst Deletes (sym step) (at i lt (is_key (key_at t.entries i)) refl)
    where
      at :
          (i : ℕ)
          → i < t.capacity
          → (b : Bool) → is_key (key_at t.entries i) ≡ b
          → Deletes (some (if b then some i else none) >>= λ j. delete_at heap t j)
      at i lt true e = delete_at-Deletes t i s lt e
      at i lt false e = (false, t, refl, s)

  delete_white-Deletes : (o : Option ℕ) (t : Table) → HasSpace t → Deletes (delete_white heap o t)
  unfolding delete_white
  delete_white-Deletes none t s = (false, t, refl, s)
  delete_white-Deletes (some k) t s = choose (is_white heap (some k))
    where
      choose : (b : Bool) → Deletes (if b then table_delete heap t k else some (false, t))
      choose true = table_delete-Deletes t k s
      choose false = (false, t, refl, s)

  remove_white_from-ends :
      (rounds i : ℕ) (t : Table)
      → HasSpace t
      → (u : Table) × (remove_white_from heap rounds i t ≡ some u) × HasSpace u
  unfolding remove_white_from
  remove_white_from-ends zero i t s = (t, refl, s)
  remove_white_from-ends (suc rounds) i t s =
      let (b, u, run, s') = delete_white-Deletes (entry_at t.entries i).key t s in
      let (w, run', s'') = remove_white_from-ends rounds (i + 1) u s' in
      (w, ap (λ r. r >>= λ p. remove_white_from heap rounds (i + 1) p.1) run ∙ run', s'')

  pub table_remove_white-ends :
      (t : Table) → HasSpace t → (u : Table) × (table_remove_white heap t ≡ some u) × HasSpace u
  unfolding table_remove_white
  table_remove_white-ends t s = remove_white_from-ends t.capacity 0 t s

  pub Sound-HasSpace : (k : ℕ) (t : Table) → Sound heap k t → HasSpace t
  Sound-HasSpace k t s =
      let width = s.placed.width in
      let (z, lt, free) = free_slot t.entries (omega (arith, has_room heap k t s, width)) in
      record {
        exponent = k;
        high = (let h = s.high in omega (arith, h));
        capacity = s.capacity;
        shift = s.shift;
        width = width;
        free = (z, omega (arith, lt, width), free);
      }
