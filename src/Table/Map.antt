-- ===== src/Table/Map.antt =====
-- `tableGet` and the last part of `tableSet`, elox/lib/table.c, as operations on a map.

use slox.Prelude.{
  ℕ, zero, suc, ◌+◌, ◌*◌, ◌≤◌, ◌<◌, Bool, true, false, List, [], ◌∷◌, Option, none, some, ◌≡◌, ◌≢◌,
  refl, sym, ap, ◌∙◌, inl, inr, arith, ◌==◌, if◌then◌else◌, length, set, Bool-cases, Option-cases,
}
use slox.Table.Growth.{Sound, Valid}
use slox.Table.Placed.{occupied, occupied-set, Ends, find_slot-Ends}
use slox.Table.Probe.{key_at}
use slox.Table.Rehash.{occupied-cons}
use slox.Table.Room.{has_room}
use slox.Table.Store.{Reads, keyed, set-Placed, set-Reads, set-Clean}
use slox.Table.{
  StringObject, Entry, Table, done, entry_at, find_entry, found_value, home, is_fresh, is_key,
  store, table_get,
}
use slox.Value.{Value, is_nil}

pub vacant : (es : List Entry) → occupied es ≡ 0 → (j : ℕ) → key_at es j ≡ none
vacant [] h j = refl
vacant (e ∷ es) h zero = elim (Option-cases e.key) [
  | inl n ↦ n
  | inr (k, s) ↦ let w = ap is_key s in let c = occupied-cons e es in absurd (ground arith)
]
vacant (e ∷ es) h (suc j) = vacant es (omega (arith, h, occupied-cons e es)) j

-- what is held under a key is determined
pub Reads-unique :
    (es : List Entry) (c : ℕ) (o o' : Option Value)
    → ((i j k : ℕ) → key_at es i ≡ some k → key_at es j ≡ some k → i ≡ j)
    → Reads es c o
    → Reads es c o'
    → o ≡ o'
Reads-unique es c none none d r s = refl
Reads-unique es c none (some v) d r (i, e) = absurd (r i (ap (λ x. x.key) e))
Reads-unique es c (some v) none d (i, e) s = absurd (s i (ap (λ x. x.key) e))
Reads-unique es c (some v) (some u) d (i, e) (j, f) =
    let same = d i j c (ap (λ x. x.key) e) (ap (λ x. x.key) f) in
    let f' : entry_at es i ≡ keyed c u = rw same f in ap some (ap (λ x. x.value) (sym e ∙ f'))

module _ (heap : ℕ → StringObject) where
  unfoldable get_found : Table → ℕ → ℕ → Option Value
  unfolding is_key
  get_found t k i = if is_key (key_at t.entries i) then some (entry_at t.entries i).value else none

  get_found-Reads :
      (t : Table) (k i : ℕ)
      → Ends (home heap t.shift) t.capacity t.entries k i
      → Reads t.entries k (get_found t k i)
  unfolding get_found is_key
  get_found-Reads t k i end = elim end.found [
    | inl f ↦ rw f (i, entry_of f)
    | inr f ↦ let n = f.0 in rw n f.1
  ]
    where
      entry_of :
          key_at t.entries i ≡ some k → entry_at t.entries i ≡ keyed k (entry_at t.entries i).value
      entry_of f = ap (λ x. record { key = x; value = (entry_at t.entries i).value }) f

  pub Valid-distinct :
      (t : Table)
      → Valid heap t
      → (i j k : ℕ) → key_at t.entries i ≡ some k
      → key_at t.entries j ≡ some k
      → i ≡ j
  Valid-distinct t (inl e) = rw e (λ i j k x y. let f : none ≡ some k = x in cc)
  Valid-distinct t (inr (x, s)) = s.placed.unique

  get-Sound :
      (t : Table) (x key : ℕ)
      → Sound heap x t
      → (o : Option Value) × (table_get heap t key ≡ some o) × Reads t.entries key o
  unfolding table_get found_value find_entry get_found is_key
  get-Sound t x key s = elim (Bool-cases (t.count == 0)) [
    | inl z ↦
        let n = s.counted in
        let z' : occupied t.entries ≡ 0 = ground arith in
        (none, rw z refl, λ j e. let f = vacant t.entries z' j in cc)
    | inr z ↦
        let room : occupied t.entries < t.capacity = has_room heap x t s in
        let (i, run, end) =
          find_slot-Ends (home heap t.shift) t.capacity t.entries key s.placed room in
        (get_found t key i, rw (z, run) refl, get_found-Reads t key i end)
  ]

  -- A lookup ends, and gives what the table holds under the key.
  pub table_get-Reads :
      (t : Table) (key : ℕ)
      → Valid heap t
      → (o : Option Value) × (table_get heap t key ≡ some o) × Reads t.entries key o
  unfolding table_get
  table_get-Reads t key (inl e) = rw e (none, refl, λ j x. let f : none ≡ some key = x in cc)
  table_get-Reads t key (inr (x, s)) = get-Sound t x key s

  -- the same key is held or not
  abbrev Same : Table → Table → Type 0
  Same t u = (c : ℕ) (o : Option Value) → Reads t.entries c o → Reads u.entries c o

  -- a valid table with `key` bound to `v`, and everything else as in `t`
  pub record Updated (t : Table) (key : ℕ) (v : Value) (new : Bool) (u : Table) : Type 0 where
    pub valid : Valid heap u
    pub reads :
        (c : ℕ) (o : Option Value)
        → Reads t.entries c o
        → Reads u.entries c (if c == key then some v else o)
    pub fresh : new ≡ true → Reads t.entries key none
    pub known : new ≡ false → (w : Value) × Reads t.entries key (some w)
    pub count : u.count ≡ (if new then t.count + 1 else t.count)

  module _ (x : ℕ) (t : Table) (key i : ℕ) (v : Value) (s : Sound heap x t)
      (end : Ends (home heap t.shift) t.capacity t.entries key i) where
    within : i < length t.entries
    within = omega (arith, s.placed.width, end.in_range)

    -- the invariant after the store, once the new count is known
    Sound-set :
        (n : ℕ)
        → n ≡ occupied (set t.entries i (keyed key v))
        → n * 4 ≤ t.capacity * 3
        → Sound heap x (record t { count = n; entries = set t.entries i (keyed key v) })
    Sound-set n counted load = record {
      low = s.low;
      high = s.high;
      capacity = s.capacity;
      shift = s.shift;
      placed = set-Placed (home heap t.shift) t.capacity t.entries key i v s.placed end;
      load = omega (arith, counted, load);
      counted = counted;
      clean = set-Clean (home heap t.shift) t.capacity t.entries key i v s.placed end s.clean;
    }

    abbrev pub Stored : Type 0
    Stored =
        (new : Bool) × (u : Table) × (store heap t key v (some i) ≡ some (done new u))
        × Updated t key v new u

    store_known : key_at t.entries i ≡ some key → Stored
    unfolding store is_fresh is_key
    store_known f =
        let same : t.count ≡ occupied (set t.entries i (keyed key v)) =
          s.counted ∙ sym (occupied-set t.entries i key v within ∙ (rw f (omega arith))) in
        (
          false,
          record t { entries = set t.entries i (keyed key v) },
          rw f refl,
          record {
            valid = inr (x, Sound-set t.count same (omega (arith, s.counted, s.load)));
            reads = set-Reads (home heap t.shift) t.capacity t.entries key i v s.placed end;
            fresh = λ e. cc;
            known = λ e. ((entry_at t.entries i).value, held f);
            count = refl;
          },
        )
      where
        held :
            key_at t.entries i ≡ some key → Reads t.entries key (some (entry_at t.entries i).value)
        held f = (i, ap (λ x. record { key = x; value = (entry_at t.entries i).value }) f)

    store_new :
        (occupied t.entries + 1) * 4 ≤ t.capacity * 3
        → key_at t.entries i ≡ none
        → ((j : ℕ) → key_at t.entries j ≢ some key)
        → Stored
    unfolding store is_fresh is_key is_nil
    store_new room f nowhere =
        let more : t.count + 1 ≡ occupied (set t.entries i (keyed key v)) =
          ap (λ n. n + 1) s.counted ∙ sym (occupied-set t.entries i key v within ∙ (rw f refl)) in
        let blank = s.clean i f in
        (
          true,
          record t { count = t.count + 1; entries = set t.entries i (keyed key v) },
          rw (f, blank) refl,
          record {
            valid = inr (x, Sound-set (t.count + 1) more (omega (arith, s.counted, room)));
            reads = set-Reads (home heap t.shift) t.capacity t.entries key i v s.placed end;
            fresh = λ e. nowhere;
            known = λ e. absurd cc;
            count = refl;
          },
        )

    pub stored : (occupied t.entries + 1) * 4 ≤ t.capacity * 3 → Stored
    stored room = elim end.found [ inl f ↦ store_known f | inr f ↦ store_new room f.0 f.1 ]
