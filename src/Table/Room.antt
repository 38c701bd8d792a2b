-- ===== src/Table/Room.antt =====
-- The growth at the head of `tableSet` of elox/lib/table.c.
use native.Mathlib.Nat.{pow-suc, pow-le-pow_right}
use slox.Memory.{grow_capacity}
use slox.Prelude.{
  ℕ, suc, ◌+◌, ◌*◌, ◌^◌, ◌≤◌, ◌<◌, Bool, true, false, Option, some, ◌≡◌, ◌≢◌, refl, sym, ap, ◌∙◌,
  ◌⊎◌, inl, inr, arith, ltb, Bool-cases,
}
use slox.Table.Growth.{Sound, Valid, Roomier, adjust_capacity-moves, init-AreDistinct}
use slox.Table.Placed.{occupied}
use slox.Table.Probe.{key_at}
use slox.Table.Rehash.{occupied-nil}
use slox.Table.Store.{Reads}
use slox.Table.{StringObject, Table, adjust_capacity, init_table, make_room}
use slox.Value.{Value}

pub pow_ge : (k : ℕ) → 3 ≤ k → 8 ≤ 2 ^ k
pow_ge k h = pow-le-pow_right (omega arith) h

first_growth : grow_capacity 0 ≡ 2 ^ 3
unfolding grow_capacity
first_growth = refl

pub has_room :
    (heap : ℕ → StringObject) (k : ℕ) (t : Table) → Sound heap k t → occupied t.entries < t.capacity
has_room heap k t s = let big = pow_ge k s.low in omega (arith, s.capacity, s.load)

-- a table with room for one more key, that holds what `t` holds
pub record Ready (heap : ℕ → StringObject) (t t' : Table) : Type 0 where
  pub exponent : ℕ
  pub sound : Sound heap exponent t'
  pub room : (occupied t'.entries + 1) * 4 ≤ t'.capacity * 3
  pub same_count : t'.count ≡ t.count
  pub holds : (c : ℕ) (o : Option Value) → Reads t.entries c o → Reads t'.entries c o

-- the table has to grow and the memory runs out, or the table is ready
abbrev pub Room : (ℕ → StringObject) → (ℕ → Bool) → Table → Option (Bool × Table) → Type 0
Room heap alloc t r =
    (r ≡ some (false, t))
      × (t.capacity * 3 < (t.count + 1) * 4)
      × (alloc (grow_capacity t.capacity) ≡ false)
    ⊎ (t' : Table) × (r ≡ some (true, t')) × Ready heap t t'

module _ (heap : ℕ → StringObject) (alloc : ℕ → Bool) (t : Table) where
  Ready-Roomier :
      (k : ℕ) (t' : Table)
      → (occupied t.entries + 1) * 4 ≤ 2 ^ k * 3
      → t.count ≡ occupied t.entries
      → Roomier heap k t t'
      → Ready heap t t'
  Ready-Roomier k t' room counted m = record {
    exponent = k;
    sound = m.sound;
    room = (let c = m.sound.capacity in omega (arith, m.same_keys, c));
    same_count = omega (arith, m.same_count, counted);
    holds = m.holds;
  }

  grown :
      (k : ℕ)
      → 3 ≤ k
      → k ≤ 30
      → grow_capacity t.capacity ≡ 2 ^ k
      → (occupied t.entries + 1) * 4 ≤ 2 ^ k * 3
      → t.count ≡ occupied t.entries
      → ((i j c : ℕ) → key_at t.entries i ≡ some c → key_at t.entries j ≡ some c → i ≡ j)
      → ltb (t.capacity * 3) ((t.count + 1) * 4) ≡ true
      → alloc (2 ^ k) ≡ true
      → Room heap alloc t (make_room heap alloc t)
  unfolding make_room
  grown k low high g room counted distinct full a =
      let grows : make_room heap alloc t ≡ adjust_capacity heap alloc t (2 ^ k) =
        rw (full, g) refl in
      let (t', run, m) =
        adjust_capacity-moves heap alloc k t low high (omega arith) (omega arith) distinct a in
      inr (t', grows ∙ run, Ready-Roomier k t' room counted m)

  no_memory :
      alloc (grow_capacity t.capacity) ≡ false
      → ltb (t.capacity * 3) ((t.count + 1) * 4) ≡ true
      → Room heap alloc t (make_room heap alloc t)
  unfolding make_room adjust_capacity
  no_memory a full = inl (rw (full, a) refl, ground (arith, full), a)

  enough :
      (k : ℕ)
      → Sound heap k t
      → ltb (t.capacity * 3) ((t.count + 1) * 4) ≡ false
      → Room heap alloc t (make_room heap alloc t)
  unfolding make_room
  enough k s spare = inr (
    t,
    rw spare refl,
    record {
      exponent = k;
      sound = s;
      room = (let c = s.counted in ground arith);
      same_count = refl;
      holds = λ c o h. h;
    },
  )

  grow_power : (k : ℕ) → 3 ≤ k → t.capacity ≡ 2 ^ k → grow_capacity t.capacity ≡ 2 ^ suc k
  unfolding grow_capacity
  grow_power k low c =
      let big = pow_ge k low in let double : 2 ^ suc k ≡ 2 ^ k * 2 = pow-suc 2 k in ground arith

  more : (k : ℕ) → Sound heap k t → (occupied t.entries + 1) * 4 ≤ 2 ^ suc k * 3
  more k s =
      let big = pow_ge k s.low in
      let double : 2 ^ suc k ≡ 2 ^ k * 2 = pow-suc 2 k in omega (arith, s.load, s.capacity)

  -- Making room either runs out of memory, the table unchanged, or gives a table that is ready.
  pub make_room-Room :
      Valid heap t → alloc (2 ^ 31) ≡ false → Room heap alloc t (make_room heap alloc t)
  make_room-Room v limit = elim (Bool-cases (ltb (t.capacity * 3) ((t.count + 1) * 4))) [
    | inl full ↦ elim (Bool-cases (alloc (grow_capacity t.capacity))) [
      | inr a ↦ no_memory a full
      | inl a ↦ elim v [ inl e ↦ from_empty e full a | inr (k, s) ↦ from_sound k s full a ]
    ]
    | inr spare ↦ elim v [
      | inl e ↦
          let c : t.capacity ≡ 0 = ap (λ t. t.capacity) e in
          let n : t.count ≡ 0 = ap (λ t. t.count) e in absurd (ground arith)
      | inr (k, s) ↦ enough k s spare
    ]
  ]
    where
      from_empty :
          t ≡ init_table t
          → ltb (t.capacity * 3) ((t.count + 1) * 4) ≡ true
          → alloc (grow_capacity t.capacity) ≡ true
          → Room heap alloc t (make_room heap alloc t)
      from_empty e full a =
          let c : t.capacity ≡ 0 = ap (λ t. t.capacity) e in
          let g : grow_capacity t.capacity ≡ 2 ^ 3 = ap grow_capacity c ∙ first_growth in
          let n : occupied t.entries ≡ 0 = ap (λ t. occupied t.entries) e ∙ occupied-nil in
          let m : t.count ≡ 0 = ap (λ t. t.count) e in
          grown 3 (omega arith) (omega arith) g (omega arith) (omega arith)
            (rw e (init-AreDistinct heap)) full (rw (sym g) a)

      from_sound :
          (k : ℕ)
          → Sound heap k t
          → ltb (t.capacity * 3) ((t.count + 1) * 4) ≡ true
          → alloc (grow_capacity t.capacity) ≡ true
          → Room heap alloc t (make_room heap alloc t)
      from_sound k s full a =
          let g = grow_power k s.low s.capacity in
          let small : suc k ≢ 31 = λ e.
            (let b : alloc (2 ^ 31) ≡ true =
                ap (λ n. alloc (2 ^ n)) (sym e) ∙ (ap alloc (sym g) ∙ a) in
              cc) in
          grown (suc k) (let l = s.low in omega arith) (let l = s.high in omega arith) g (more k s)
            s.counted s.placed.unique full (rw (sym g) a)
