-- ===== src/Lists/Appends.antt =====
-- `appendToArray` and the access to items by index of elox/lib/object.c, and `computeSlice` of
-- elox/include/elox/object.h.
use slox.Lists.Removes.{IsArray}
use slox.Lists.{
  Append, append_to_array, appended, array_at_safe, clamp_start, compute_slice, contents,
  index_out_of_bounds, item_at, negsuc, not_negative, ok, outside, pos, raised, real_index, refused,
  slice_bound, write_last, ℤ,
}
use slox.Memory.{grow_capacity}
use slox.Object.{ObjArray}
use slox.Prelude.{
  ℕ, zero, suc, ◌+◌, ◌-◌, ◌%◌, ◌^◌, ◌≤◌, ◌<◌, min, max, Bool, true, false, not, ◌||◌, List, [], ◌∷◌,
  ◌++◌, some, ◌≡◌, refl, sym, ap, ◌∙◌, ◌⊎◌, inl, inr, arith, length, length-set, take-set, take,
  get_or, set, ltb, leb, ◌==◌, if◌then◌else◌, Bool-cases,
}
use slox.Value.{Value, nil}

-- what a call on a list ends with: the value is the last item, or the list is full
abbrev pub Appends : ObjArray → Value → Append → Type 0
Appends a v r =
    (a.size < a.capacity)
      × ((b : ObjArray) × (r ≡ appended b) × IsArray b × (contents b ≡ contents a ++ v ∷ []))
    ⊎ (a.size ≡ a.capacity)
      × ((b : ObjArray) × ((r ≡ refused b) ⊎ (r ≡ outside b)) × (contents b ≡ contents a))

module _ (alloc : ℕ → Bool) (a : ObjArray) (v : Value) (w : IsArray a) where
  -- For a list whose items are those that were allocated, `appendToArray` adds the value after the
  -- others if the size is below the capacity. A full list does not grow: the call fails, or it writes
  -- beyond the items.
  pub append_to_array-Appends : Appends a v (append_to_array alloc a v)
  unfolding append_to_array write_last
  append_to_array-Appends = elim (Bool-cases (ltb a.capacity (a.size + 1))) [
    | inr room ↦
        let width = w.width in
        let lt : a.size < a.capacity = ground (arith, room) in
        let inside : ltb a.size (length a.items) ≡ true = ground (arith, lt, width) in
        inl (
          lt,
          (
            record a {
              mod_count = (a.mod_count + 1) % 2 ^ 32;
              items = set a.items a.size v;
              size = a.size + 1;
            },
            (rw (room, inside) refl),
            record { width = length-set a.items a.size v ∙ width; fits = omega (arith, lt) },
            take-set a.items a.size v (omega (arith, lt, width)),
          ),
        )
    | inl full ↦
        let width = w.width in
        let fits = w.fits in
        let e : a.size ≡ a.capacity = ground (arith, full, fits) in
        inr (
          e,
          elim (Bool-cases (a.capacity == 0 || not (alloc a.capacity))) [
            | inl out ↦ (
              record a { mod_count = (a.mod_count + 1) % 2 ^ 32 },
              inl (rw (full, out) refl),
              refl,
            )
            | inr more ↦
                let beyond : ltb a.size (length a.items) ≡ false = ground (arith, e, width) in
                (
                  record a {
                    mod_count = (a.mod_count + 1) % 2 ^ 32;
                    capacity = grow_capacity a.capacity;
                  },
                  inr (rw (full, more, beyond) refl),
                  refl,
                )
          ],
        )
  ]

take-get_or : (l : List Value) (n i : ℕ) → i < n → get_or (take n l) i nil ≡ get_or l i nil
take-get_or l zero i lt = absurd (omega (arith, lt))
take-get_or [] (suc n) i lt = refl
take-get_or (x ∷ xs) (suc n) zero lt = refl
take-get_or (x ∷ xs) (suc n) (suc i) lt = take-get_or xs n i (omega (arith, lt))

-- `arrayAtSafe` gives the item at an index below the size, counted from 0, and from the end for the
-- indices from -1 down; for every other index it raises an error.
pub array_at_safe-Indexes :
    (a : ObjArray) (i : ℕ)
    → (i < a.size
        → (array_at_safe a (pos i) ≡ ok (get_or (contents a) i nil))
          × (array_at_safe a (negsuc i) ≡ ok (get_or (contents a) (a.size - suc i) nil)))
      × (a.size ≤ i
          → (array_at_safe a (pos i) ≡ raised index_out_of_bounds)
            × (array_at_safe a (negsuc i) ≡ raised index_out_of_bounds))
unfolding array_at_safe real_index item_at
array_at_safe-Indexes a i = (
  λ lt.
      let inside : leb a.size i ≡ false = ground (arith, lt) in
      let low : ltb i a.size ≡ true = ground (arith, lt) in
      let inside' : leb a.size (a.size - suc i) ≡ false = ground (arith, lt) in
      (
        (rw inside (ap ok (sym (take-get_or a.items a.size i lt)))),
        (rw (low, inside')
            (ap ok (sym (take-get_or a.items a.size (a.size - suc i) (omega (arith, lt)))))),
      ),
  λ le.
      let past : leb a.size i ≡ true = ground (arith, le) in
      let high : ltb i a.size ≡ false = ground (arith, le) in ((rw past refl), (rw high refl)),
)

clamp_start-min : (size : ℕ) (s : ℤ) → clamp_start size s ≡ min size (not_negative s)
unfolding clamp_start not_negative
clamp_start-min size (pos n) = ground arith
clamp_start-min size (negsuc n) = omega arith

-- For bounds that are numbers or nil, `computeSlice` gives a start between 0 and the size, and an end
-- that is the given one, or the start if that is larger. An end beyond the size stays so.
pub compute_slice-Clamps :
    (to_int : ℕ → ℤ) (start end : Value) (size : ℕ) (s e : ℤ)
    → slice_bound to_int start 0 ≡ some s
    → slice_bound to_int end size ≡ some e
    → compute_slice to_int start end size
      ≡ some (min size (not_negative s), max (min size (not_negative s)) (not_negative e))
unfolding compute_slice
compute_slice-Clamps to_int start end size s e f g =
    rw (f, g, clamp_start-min size s)
      (ap some
        (ap (λ last. (min size (not_negative s), last)) (ends (not_negative s) (not_negative e))))
  where
    ends :
        (first last : ℕ)
        → (if ltb last (min size first)
            then min size first
            else if ltb size (min size first)
            then size
            else last)
          ≡ max (min size first) last
    ends first last = ground arith
