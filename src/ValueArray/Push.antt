-- ===== src/ValueArray/Push.antt =====
-- What `valueArrayPush` of elox/lib/ValueArray.c does to the values of an array.
use slox.Memory.Slots.{grow_lt}
use slox.Memory.{grow_capacity}
use slox.Prelude.{
  ℕ, ◌+◌, ◌-◌, ◌≤◌, ◌<◌, Bool, true, false, List, ◌≡◌, refl, ◌∙◌, ◌⊎◌, inl, inr, arith, ◌++◌,
  get_or, get_or-set_self, get_or-set_ne, get_or-append, length, length-append, length-replicate,
  length-set, set, replicate, ltb, Bool-cases,
}
use slox.ValueArray.{ValueArray, value_array_push, grow_for_push, push_value}
use slox.Value.{Value, nil}

-- the capacity is the number of the values that there is room for
pub record Sized (a : ValueArray) : Type 0 where
  pub width : length a.values ≡ a.capacity
  pub fits : a.count ≤ a.capacity

-- `b` holds the values of `a`, and `v` after them
pub record Pushed (a : ValueArray) (v : Value) (b : ValueArray) : Type 0 where
  pub sized : Sized b
  pub count : b.count ≡ a.count + 1
  pub last : get_or b.values a.count nil ≡ v
  pub kept : (i : ℕ) → i < a.count → get_or b.values i nil ≡ get_or a.values i nil

module _ (alloc : ℕ → Bool) (a : ValueArray) (v : Value) (s : Sized a) where
  stored :
      (values : List Value) (capacity : ℕ)
      → length values ≡ capacity
      → a.count < capacity
      → ((i : ℕ) → i < a.count → get_or values i nil ≡ get_or a.values i nil)
      → Pushed a v
          (record { capacity = capacity; count = a.count + 1; values = set values a.count v })
  stored values capacity width room kept = record {
    sized = record { width = length-set values a.count v ∙ width; fits = omega arith };
    count = refl;
    last = get_or-set_self values a.count v nil (omega arith);
    kept = λ i lt. get_or-set_ne values a.count i v nil (omega arith) ∙ kept i lt;
  }

  abbrev pub Pushes : Bool × ValueArray → Type 0
  Pushes r =
      ((b : ValueArray) × (r ≡ (true, b)) × Pushed a v b)
      ⊎ (alloc (grow_capacity a.capacity) ≡ false)
        × (a.count ≡ a.capacity)
        × (r ≡ (false, record a { capacity = grow_capacity a.capacity }))

  -- For an array whose capacity is the room that it has: `valueArrayPush` either appends the value,
  -- keeps the others and the invariant, or the array was full, the allocation failed, and only the
  -- capacity has changed, to the size that was not allocated.
  pub value_array_push-Pushes : Pushes (value_array_push alloc a v)
  unfolding value_array_push grow_for_push push_value
  value_array_push-Pushes = elim (Bool-cases (ltb a.capacity (a.count + 1))) [
    | inl full ↦
        let at : a.count ≡ a.capacity = omega (arith, s.fits, ltb_le full) in
        elim (Bool-cases (alloc (grow_capacity a.capacity))) [
          | inl ok ↦
              rw (full, ok)
                (inl (
                  _,
                  refl,
                  stored (a.values ++ replicate (grow_capacity a.capacity - a.capacity) nil)
                      (grow_capacity a.capacity) (wide s.width) (omega (arith, grow_lt a.capacity))
                      (λ i lt. get_or-append a.values _ i nil (omega (arith, s.width))),
                ))
          | inr refused ↦ rw (full, refused) (inr (refl, at, refl))
        ]
    | inr room ↦
        rw room (inl (_, refl, stored a.values a.capacity s.width (ltb_false room) (λ i lt. refl)))
  ]
    where
      ltb_le : ltb a.capacity (a.count + 1) ≡ true → a.capacity < a.count + 1
      ltb_le e = ground arith

      ltb_false : ltb a.capacity (a.count + 1) ≡ false → a.count < a.capacity
      ltb_false e = ground arith

      wide :
          length a.values ≡ a.capacity
          → length (a.values ++ replicate (grow_capacity a.capacity - a.capacity) nil)
            ≡ grow_capacity a.capacity
      wide w = omega (
        arith,
        length-append a.values (replicate (grow_capacity a.capacity - a.capacity) nil),
        length-replicate (grow_capacity a.capacity - a.capacity) nil,
        grow_lt a.capacity,
        w,
      )
