-- ===== src/Table/Removal.antt =====
-- What `tableDelete` of elox/lib/table.c leaves in the slots.
use native.Mathlib.Nat.{mod-lt}
use slox.Prelude.{
  ℕ, zero, suc, ◌+◌, ◌-◌, ◌≤◌, ◌<◌, Bool, true, false, List, Option, none, some, ◌≡◌, ◌≢◌, refl,
  sym, ap, ◌∙◌, subst, inl, inr, arith, length, set, length-set, ◌==◌, if◌then◌else◌, Bool-cases,
  ◌>>=◌,
}
use slox.Table.Delete.{Sound-HasSpace, close_at-Closes, next_entry-lt}
use slox.Table.Growth.{Sound, Valid}
use slox.Table.Map.{Reads-unique, Valid-distinct, table_get-Reads}
use slox.Table.Closing.{Shifted, close_hole-Shifted}
use slox.Table.Distance.{far, far-slot, far_ne, far_one, slot-far}
use slox.Table.Placed.{Trail, find_slot-Ends}
use slox.Table.Shift.{Open}
use slox.Table.Probe.{key_at}
use slox.Table.Room.{has_room, pow_ge}
use slox.Table.Store.{Reads, keyed, entry_at-set}
use slox.Table.{
  Entry, StringObject, Table, close_hole, delete_at, empty_entry, entry_at, find_entry, found_index,
  home, is_key, moves_back, next_entry, table_delete, table_get,
}
use slox.Value.{Value}

-- what the slots other than the hole hold under a key
abbrev Beside : List Entry → ℕ → ℕ → Option Value → Type 0
Beside es hole k none = (j : ℕ) → j ≢ hole → key_at es j ≢ some k
Beside es hole k (some v) = (i : ℕ) × (i ≢ hole) × (entry_at es i ≡ keyed k v)

module _ (es : List Entry) (hole : ℕ) (c : ℕ) (lt : hole < length es) where
  at_hole : (e : Entry) (j : ℕ) → j ≡ hole → entry_at (set es hole e) j ≡ e
  at_hole e j s =
      let s' : (j == hole) ≡ true = ground arith in rw s' at (entry_at-set es hole j e lt)

  elsewhere : (e : Entry) (j : ℕ) → j ≢ hole → entry_at (set es hole e) j ≡ entry_at es j
  elsewhere e j d =
      let d' : (j == hole) ≡ false = ground arith in rw d' at (entry_at-set es hole j e lt)

  -- the next entry moves into the hole, and is the new hole
  moved-Beside :
      (next : ℕ) (o : Option Value)
      → Beside es hole c o
      → Beside (set es hole (entry_at es next)) next c o
  moved-Beside next none b = λ j d e. elim (Bool-cases (j == hole)) [
    | inl s ↦
        let s' : j ≡ hole = ground arith in
        b next (λ f. d (s' ∙ sym f)) (ap (λ x. x.key) (sym (at_hole (entry_at es next) j s')) ∙ e)
    | inr n ↦
        let n' : j ≢ hole = ground arith in
        b j n' (ap (λ x. x.key) (sym (elsewhere (entry_at es next) j n')) ∙ e)
  ]
  moved-Beside next (some v) (i, d, e) = elim (Bool-cases (i == next)) [
    | inl s ↦
        let s' : i ≡ next = ground arith in
        (
          hole,
          (λ f. d (s' ∙ sym f)),
          at_hole (entry_at es next) hole refl ∙ (ap (entry_at es) (sym s') ∙ e),
        )
    | inr n ↦ let n' : i ≢ next = ground arith in (i, n', elsewhere (entry_at es next) i d ∙ e)
  ]

  -- the hole is cleared at last
  cleared-Reads : (o : Option Value) → Beside es hole c o → Reads (set es hole empty_entry) c o
  cleared-Reads none b = λ j e. elim (Bool-cases (j == hole)) [
    | inl s ↦
        let s' : j ≡ hole = ground arith in
        let f : none ≡ some c = ap (λ x. x.key) (sym (at_hole empty_entry j s')) ∙ e in cc
    | inr n ↦
        let n' : j ≢ hole = ground arith in
        b j n' (ap (λ x. x.key) (sym (elsewhere empty_entry j n')) ∙ e)
  ]
  cleared-Reads (some v) (i, d, e) = (i, elsewhere empty_entry i d ∙ e)

module _ (heap : ℕ → StringObject) (capacity shift : ℕ) where
  abbrev Shifting : ℕ → Type 0
  Shifting turns =
      (es fs : List Entry) (hole next : ℕ)
      → length es ≡ capacity
      → hole < capacity
      → next < capacity
      → close_hole heap turns es capacity shift hole next ≡ some fs
      → (c : ℕ) (o : Option Value) → Beside es hole c o
      → Reads fs c o

  step-Reads :
      (turns : ℕ)
      → Shifting turns
      → (es fs : List Entry) (hole next : ℕ) → length es ≡ capacity
      → hole < capacity
      → next < capacity
      → (moved : Bool)
      → close_hole heap turns
          (if moved then set es hole (entry_at es next) else es)
          capacity
          shift
          (if moved then next else hole)
          (next_entry capacity next)
        ≡ some fs
      → (c : ℕ) (o : Option Value) → Beside es hole c o
      → Reads fs c o
  step-Reads turns ih es fs hole next width hl nl false run c o b =
      ih es fs hole _ width hl (next_entry-lt capacity next nl) run c o b
  step-Reads turns ih es fs hole next width hl nl true run c o b =
      ih (set es hole (entry_at es next)) fs next _ (length-set es hole (entry_at es next) ∙ width)
        nl (next_entry-lt capacity next nl) run c o
        (moved-Beside es hole c (omega (arith, width, hl)) next o b)

  -- the loop moves entries, and loses none of them but that of the hole
  close_hole-Reads : (turns : ℕ) → Shifting turns
  unfolding close_hole
  close_hole-Reads zero es fs hole next width hl nl = λ run. absurd cc
  close_hole-Reads (suc turns) es fs hole next width hl nl =
      elim (Bool-cases (is_key (key_at es next))) [
        | inr n ↦ rw n λ run c o b.
            (let e : set es hole empty_entry ≡ fs = cc in
              subst (λ l. Reads l c o) e (cleared-Reads es hole c (omega (arith, width, hl)) o b))
        | inl k ↦ rw k (
            step-Reads turns (close_hole-Reads turns) es fs hole next width hl nl
              (moves_back heap capacity shift (key_at es next) hole next))
      ]

abbrev pub is_held : Option Value → Bool
is_held none = false
is_held (some v) = true

module _ (heap : ℕ → StringObject) (t : Table) (key : ℕ) where
  -- what a deletion of `key` does: the key was looked up to `o` before
  abbrev pub Removes : Option (Bool × Table) → Type 0
  Removes r =
      (o : Option Value) × (u : Table) × (table_get heap t key ≡ some o)
      × (r ≡ some (is_held o, u))
      × Valid heap u
      × (u.capacity ≡ t.capacity)
      × (u.count ≡ (if is_held o then t.count - 1 else t.count))
      × ((c : ℕ)
          → (p : Option Value) × (table_get heap t c ≡ some p)
            × (table_get heap u c ≡ some (if c == key then none else p)))

  -- lookups follow what the slots hold
  get-removed :
      (u : Table)
      → Valid heap t
      → Valid heap u
      → Reads u.entries key none
      → ((c : ℕ) (p : Option Value) → c ≢ key → Reads t.entries c p → Reads u.entries c p)
      → (c : ℕ)
      → (p : Option Value) × (table_get heap t c ≡ some p)
        × (table_get heap u c ≡ some (if c == key then none else p))
  get-removed u valid valid' gone others c =
      let (p, run, held) = table_get-Reads heap t c valid in
      let (p', run', held') = table_get-Reads heap u c valid' in
      let same =
        Reads-unique u.entries c p' _ (Valid-distinct heap u valid') held' (after p held) in
      (p, run, run' ∙ ap some same)
    where
      after :
          (p : Option Value)
          → Reads t.entries c p
          → Reads u.entries c (if c == key then none else p)
      after p held = elim (Bool-cases (c == key)) [
        | inl e ↦ let e' : c ≡ key = ground arith in rw (e, e') gone
        | inr n ↦ let n' : c ≢ key = ground arith in rw n (others c p n' held)
      ]

  module _ (x : ℕ) (s : Sound heap x t) where
    -- all but the key are beside the slot that holds the key
    apart-Beside :
        (i : ℕ)
        → key_at t.entries i ≡ some key
        → (c : ℕ) (p : Option Value) → c ≢ key
        → Reads t.entries c p
        → Beside t.entries i c p
    apart-Beside i k c none d r = λ j n e. r j e
    apart-Beside i k c (some v) d (j, e) = (
      j,
      (λ f.
          let g : some c ≡ some key = ap (λ x. x.key) (sym e) ∙ (ap (key_at t.entries) f ∙ k) in
          d cc),
      e,
    )

    -- the loop starts at the slot of the key
    started-Open :
        (i : ℕ)
        → i < t.capacity
        → key_at t.entries i ≡ some key
        → Open heap t.capacity t.shift s.placed.homes_lt t.entries i (next_entry t.capacity i)
    started-Open i lt k = record {
      width = s.placed.width;
      hole_lt = lt;
      next_lt = next_entry-lt t.capacity i lt;
      filled = λ e. let f : some key ≡ none = sym k ∙ e in cc;
      inside = inside;
      unique = λ a b c d d' e f. s.placed.unique a b c e f;
      way = λ j c m d e ml l. on_way j c m e ml l (s.placed.trail j c e);
      gap = λ j c d e l.
          (let p = far_ne t.capacity i j lt (inside j c e) (λ f. d (sym f)) in
            omega (arith, p, one));
      ahead = omega (arith, one);
      free = first_free (Sound-HasSpace heap x t s).free;
    }
      where
        big : 1 < t.capacity
        big = let b = pow_ge x s.low in let c = s.capacity in omega (arith, b, c)

        one : far t.capacity i (next_entry t.capacity i) ≡ 1
        one = far_one t.capacity i lt big

        inside : (j c : ℕ) → key_at t.entries j ≡ some c → j < t.capacity
        inside j c e =
            let (d, dl, at, way) = s.placed.trail j c e in
            subst (λ y. y < t.capacity) (sym at)
              (mod-lt (home heap t.shift c + d) (omega (arith, lt)))

        first_free :
            (z : ℕ) × (z < t.capacity) × (key_at t.entries z ≡ none)
            → (z : ℕ) × (z < t.capacity)
              × (key_at t.entries z ≡ none)
              × (far t.capacity i (next_entry t.capacity i) ≤ far t.capacity i z)
        first_free (z, zl, n) =
            let apart : i ≢ z =
              λ f. (let g : some key ≡ none = sym k ∙ (ap (key_at t.entries) f ∙ n) in cc) in
            let p = far_ne t.capacity i z lt zl apart in (z, zl, n, omega (arith, p, one))

        on_way :
            (j c m : ℕ)
            → key_at t.entries j ≡ some c
            → m < t.capacity
            → far t.capacity (home heap t.shift c) m < far t.capacity (home heap t.shift c) j
            → Trail (home heap t.shift) t.entries t.capacity c j
            → key_at t.entries m ≢ none
        on_way j c m e ml l (d, dl, at, way) =
            let h = s.placed.homes_lt c in
            let same =
              ap (far t.capacity (home heap t.shift c)) at
              ∙ far-slot t.capacity (home heap t.shift c) d h dl in
            subst (λ y. key_at t.entries y ≢ none)
              (slot-far t.capacity (home heap t.shift c) m h ml)
              (way (far t.capacity (home heap t.shift c) m) (omega (arith, l, same)))

    left-Sound :
        (es : List Entry)
        → Shifted heap t.capacity t.shift s.placed.homes_lt t.entries es
        → Sound heap x (record t { entries = es; count = t.count - 1 })
    left-Sound es r = record {
      low = s.low;
      high = s.high;
      capacity = s.capacity;
      shift = s.shift;
      placed = r.placed;
      load = (let l = s.load in let f = r.fewer in omega (arith, l, f));
      counted = (let c = s.counted in let f = r.fewer in omega (arith, c, f));
      clean = r.clean;
    }

    found-Removes :
        (i : ℕ) (v : Value)
        → i < t.capacity
        → key_at t.entries i ≡ some key
        → table_get heap t key ≡ some (some v)
        → Removes (delete_at heap t (some i))
    unfolding delete_at is_key
    found-Removes i v lt k got =
        let space = Sound-HasSpace heap x t s in
        let (es, run, width, y, yl, free) = close_at-Closes heap t i space lt (rw k refl) in
        let reads =
          close_hole-Reads heap t.capacity t.shift t.capacity t.entries es i
            (next_entry t.capacity i) space.width lt (next_entry-lt t.capacity i lt) run in
        let shifted =
          close_hole-Shifted heap t.capacity t.shift s.placed.homes_lt t.capacity t.entries es i
            (next_entry t.capacity i) (started-Open i lt k) s.clean run in
        let valid = inr (x, left-Sound es shifted) in
        (
          some v,
          record t { entries = es; count = t.count - 1 },
          got,
          ap (λ r. r >>= λ es. some (true, record t { entries = es; count = t.count - 1 })) run,
          valid,
          refl,
          refl,
          get-removed (record t { entries = es; count = t.count - 1 }) (inr (x, s)) valid
              (reads key none (λ j d e. d (s.placed.unique j i key e k)))
              (λ c p d r. reads c p (apart-Beside i k c p d r)),
        )

    absent-Removes :
        table_get heap t key ≡ some none → Reads t.entries key none → Removes (some (false, t))
    absent-Removes got r = (
      none,
      t,
      got,
      refl,
      inr (x, s),
      refl,
      refl,
      get-removed t (inr (x, s)) (inr (x, s)) r (λ c p d h. h),
    )

    sound-Removes : Removes (table_delete heap t key)
    unfolding table_delete found_index delete_at find_entry is_key
    sound-Removes =
        let (i, run, end) =
          find_slot-Ends (home heap t.shift) t.capacity t.entries key s.placed
            (has_room heap x t s) in
        let (o, got, held) = table_get-Reads heap t key (inr (x, s)) in
        let step : table_delete heap t key
            ≡ (found_index heap t.entries (some i) >>= λ j. delete_at heap t j) =
          ap (λ r. found_index heap t.entries r >>= λ j. delete_at heap t j) run in
        subst Removes (sym step) (elim end.found [
          | inl k ↦ rw k (present i end.in_range k o got held)
          | inr (n, nowhere) ↦ rw n (missing nowhere o got held)
        ])
      where
        present :
            (i : ℕ)
            → i < t.capacity
            → key_at t.entries i ≡ some key
            → (o : Option Value) → table_get heap t key ≡ some o
            → Reads t.entries key o
            → Removes (delete_at heap t (some i))
        present i lt k none got r = absurd (r i k)
        present i lt k (some v) got r = found-Removes i v lt k got

        missing :
            ((j : ℕ) → key_at t.entries j ≢ some key)
            → (o : Option Value) → table_get heap t key ≡ some o
            → Reads t.entries key o
            → Removes (some (false, t))
        missing nowhere none got r = absent-Removes got r
        missing nowhere (some v) got (j, e) = absurd (nowhere j (ap (λ x. x.key) e))

  -- For a valid table with an array, `tableDelete` ends. Its result says whether a lookup of the key
  -- found it before, and the count has fallen by one exactly then. The capacity is the same, the new
  -- table is valid, and every lookup ends: of the key it finds nothing, and of every other key what it
  -- found before.
  pub table_delete-Removes : Valid heap t → 0 < t.capacity → Removes (table_delete heap t key)
  table_delete-Removes (inl e) lt =
      let z : t.capacity ≡ 0 = ap (λ t. t.capacity) e in absurd (omega (arith, z, lt))
  table_delete-Removes (inr (x, s)) lt = sound-Removes x s
