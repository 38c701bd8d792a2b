-- ===== src/Table/Update.antt =====
-- `tableSet` of elox/lib/table.c on every branch, growth and exhausted memory included.
use slox.Memory.{grow_capacity}
use slox.Prelude.{
  ℕ, ◌+◌, ◌*◌, ◌^◌, ◌<◌, Bool, true, false, Option, none, some, ◌≡◌, refl, ap, ◌∙◌, ◌⊎◌, inl, inr,
  ◌==◌, if◌then◌else◌,
}
use slox.Table.Growth.{Valid}
use slox.Table.Map.{Reads-unique, Updated, stored, table_get-Reads, Valid-distinct}
use slox.Table.Placed.{find_slot-Ends}
use slox.Table.Room.{Ready, has_room, make_room-Room}
use slox.Table.Store.{Reads}
use slox.Table.{
  StringObject, Table, Outcome, done, out_of_memory, find_entry, home, set_prepared, table_get,
  table_set,
}
use slox.Value.{Value}

module _ (heap : ℕ → StringObject) (alloc : ℕ → Bool) (t : Table) (key : ℕ) (v : Value) where
  -- what the key held before the table was made roomier
  held_before :
      (t' : Table) (w : Value)
      → Valid heap t
      → Ready heap t t'
      → Reads t'.entries key (some w)
      → (w : Value) × Reads t.entries key (some w)
  held_before t' w valid r h =
      let (o, run, held) = table_get-Reads heap t key valid in
      from o held
        (Reads-unique t'.entries key (some w) o r.sound.placed.unique h (r.holds key o held))
    where
      from :
          (o : Option Value)
          → Reads t.entries key o
          → some w ≡ o
          → (w : Value) × Reads t.entries key (some w)
      from none held e = absurd cc
      from (some u) held e = (u, held)

  -- after `make_room`
  through :
      (t' u : Table) (new : Bool)
      → Valid heap t
      → Ready heap t t'
      → Updated heap t' key v new u
      → Updated heap t key v new u
  through t' u new valid r m = record {
    valid = m.valid;
    reads = λ c o h. m.reads c o (r.holds c o h);
    fresh = λ e. before (table_get-Reads heap t key valid) (m.fresh e);
    known = λ e. let (w, h) = m.known e in held_before t' w valid r h;
    count = m.count ∙ ap (λ n. if new then n + 1 else n) r.same_count;
  }
    where
      before :
          (o : Option Value) × (table_get heap t key ≡ some o) × Reads t.entries key o
          → Reads t'.entries key none
          → Reads t.entries key none
      before (none, run, h) f = h
      before (some w, run, h) f =
          let (j, e) = r.holds key (some w) h in absurd (f j (ap (λ x. x.key) e))

  set-Ready :
      (t' : Table)
      → Valid heap t
      → Ready heap t t'
      → (new : Bool) × (u : Table) × (set_prepared heap key v (true, t') ≡ some (done new u))
        × Updated heap t key v new u
  unfolding set_prepared find_entry
  set-Ready t' valid r =
      let s = r.sound in
      let (i, run, end) =
        find_slot-Ends (home heap t'.shift) t'.capacity t'.entries key s.placed
          (has_room heap r.exponent t' s) in
      let (new, u, run', m) = stored heap r.exponent t' key i v s end r.room in
      (new, u, (rw run run'), through t' u new valid r m)

  -- the memory runs out and the table is as it was, or `key` is bound to `v`
  abbrev pub Sets : Option Outcome → Type 0
  Sets r =
      (r ≡ some (out_of_memory t))
        × (t.capacity * 3 < (t.count + 1) * 4)
        × (alloc (grow_capacity t.capacity) ≡ false)
      ⊎ (new : Bool) × (u : Table) × (r ≡ some (done new u)) × Updated heap t key v new u

  pub table_set-Sets : Valid heap t → alloc (2 ^ 31) ≡ false → Sets (table_set heap alloc t key v)
  unfolding table_set set_prepared
  table_set-Sets valid limit = elim (make_room-Room heap alloc t valid limit) [
    | inl (run, full, a) ↦ inl (rw run refl, full, a)
    | inr (t', run, r) ↦
        let (new, u, run', m) = set-Ready t' valid r in inr (new, u, (rw run run'), m)
  ]

  -- a lookup after a store
  get-set :
      (new : Bool) (u : Table)
      → Valid heap t
      → Updated heap t key v new u
      → (c : ℕ)
      → (o : Option Value) × (table_get heap t c ≡ some o)
        × (table_get heap u c ≡ some (if c == key then some v else o))
  get-set new u valid m c =
      let (o, run, held) = table_get-Reads heap t c valid in
      let (o', run', held') = table_get-Reads heap u c m.valid in
      let same =
        Reads-unique u.entries c o' _ (Valid-distinct heap u m.valid) held' (m.reads c o held) in
      (o, run, run' ∙ ap some same)

  abbrev pub is_absent : Option Value → Bool
  is_absent none = true
  is_absent (some w) = false

  -- what a call of `table_set` does: the key was looked up to `o` before
  abbrev pub Binds : Option Outcome → Type 0
  Binds r =
      (r ≡ some (out_of_memory t))
        × (t.capacity * 3 < (t.count + 1) * 4)
        × (alloc (grow_capacity t.capacity) ≡ false)
      ⊎ (o : Option Value) × (u : Table) × (table_get heap t key ≡ some o)
        × (r ≡ some (done (is_absent o) u))
        × Valid heap u
        × (u.count ≡ (if is_absent o then t.count + 1 else t.count))
        × ((c : ℕ)
            → (p : Option Value) × (table_get heap t c ≡ some p)
              × (table_get heap u c ≡ some (if c == key then some v else p)))

  -- For a valid table and an allocator that refuses an array of 2^31 entries: `tableSet` ends.
  -- Either the table had to grow (four times the next count is above three times the capacity), the
  -- allocation of the larger array failed and the table is unchanged, or the result
  -- says whether a lookup of the key found nothing before, the new table is valid, its count has
  -- grown by one exactly if the key is new, and every lookup ends and gives the value stored under
  -- the key, and what it gave before under every other key.
  pub table_set-Binds : Valid heap t → alloc (2 ^ 31) ≡ false → Binds (table_set heap alloc t key v)
  table_set-Binds valid limit = elim (table_set-Sets valid limit) [
    | inl x ↦ inl x
    | inr (new, u, run, m) ↦ inr (bound new u run m (table_get-Reads heap t key valid))
  ]
    where
      bound :
          (new : Bool) (u : Table)
          → table_set heap alloc t key v ≡ some (done new u)
          → Updated heap t key v new u
          → (o : Option Value) × (table_get heap t key ≡ some o) × Reads t.entries key o
          → (o : Option Value) × (u : Table) × (table_get heap t key ≡ some o)
            × (table_set heap alloc t key v ≡ some (done (is_absent o) u))
            × Valid heap u
            × (u.count ≡ (if is_absent o then t.count + 1 else t.count))
            × ((c : ℕ)
                → (p : Option Value) × (table_get heap t c ≡ some p)
                  × (table_get heap u c ≡ some (if c == key then some v else p)))
      bound true u run m (none, g, h) = (none, u, g, run, m.valid, m.count, get-set true u valid m)
      bound true u run m (some w, g, (i, e)) = absurd (m.fresh refl i (ap (λ x. x.key) e))
      bound false u run m (none, g, h) =
          let (w, (i, e)) = m.known refl in absurd (h i (ap (λ x. x.key) e))
      bound false u run m (some w, g, h) =
          (some w, u, g, run, m.valid, m.count, get-set false u valid m)
