-- ===== src/Lists/Iterates.antt =====
-- The iterator of elox/lib/array/array.c.
use native.Mathlib.Nat.{mod-eq_of_lt}
use slox.Lists.Removes.{
  IsArray, contents-split, length-append, length-before, length-take, remove_at-IsArray,
  remove_at-contents,
}
use slox.Lists.{
  ArrayIterator, array_iterator, contents, has_next, index_out_of_bounds, iterator_next,
  iterator_remove, modified_during_iteration, negsuc, ok, pos, raised, remove_at, remove_last,
}
use slox.Object.{ObjArray}
use slox.Prelude.{
  append_one, ℕ, zero, suc, ◌+◌, ◌-◌, ◌%◌, ◌^◌, ◌<◌, true, false, not, List, [], ◌∷◌, ◌++◌, ◌≡◌,
  refl, sym, ap, ◌∙◌, inl, inr, arith, length, take, drop, get_or, leb, ◌==◌, ==_iff, if◌then◌else◌,
  Bool-cases,
}
use slox.Value.{Value, nil}

-- the iterator is between two stretches of the items, and has not missed a change
pub record IsBetween (it : ArrayIterator) (a : ObjArray) (before after : List Value) : Type 0 where
  pub array : IsArray a
  pub items : contents a ≡ before ++ after
  pub cursor : it.cursor ≡ length before
  pub same_count : it.mod_count ≡ a.mod_count

-- the iterator has just passed `x`, which it can remove
pub record HasPassed (it : ArrayIterator) (a : ObjArray) (before : List Value) (x : Value)
    (after : List Value) : Type 0 where
  pub between : IsBetween it a (before ++ x ∷ []) after
  pub last : it.last_ret ≡ pos (length before)

append_inj :
    (xs xs' ys ys' : List Value)
    → xs ++ ys ≡ xs' ++ ys'
    → length xs ≡ length xs'
    → (xs ≡ xs') × (ys ≡ ys')
append_inj [] [] ys ys' e l = (refl, e)
append_inj [] (x ∷ xs') ys ys' e l = absurd (omega (arith, l))
append_inj (x ∷ xs) [] ys ys' e l = absurd (omega (arith, l))
append_inj (x ∷ xs) (x' ∷ xs') ys ys' e l =
    let h : x ≡ x' = cc in
    let t : xs ++ ys ≡ xs' ++ ys' = cc in
    let (f, g) = append_inj xs xs' ys ys' t (omega (arith, l)) in ((rw (h, f) refl), g)

get_or-middle :
    (xs : List Value) (x : Value) (ys : List Value) → get_or (xs ++ x ∷ ys) (length xs) nil ≡ x
get_or-middle [] x ys = refl
get_or-middle (z ∷ xs) x ys = get_or-middle xs x ys

get_or-take : (l : List Value) (n i : ℕ) → i < n → get_or (take n l) i nil ≡ get_or l i nil
get_or-take l zero i lt = absurd (omega (arith, lt))
get_or-take [] (suc n) i lt = refl
get_or-take (x ∷ xs) (suc n) zero lt = refl
get_or-take (x ∷ xs) (suc n) (suc i) lt = get_or-take xs n i (omega (arith, lt))

pub array_iterator-IsBetween :
    (a : ObjArray) → IsArray a → IsBetween (array_iterator a) a [] (contents a)
array_iterator-IsBetween a w = record { array = w; items = refl; cursor = refl; same_count = refl }

module _ (it : ArrayIterator) (a : ObjArray) (before after : List Value)
    (b : IsBetween it a before after) where
  size_parts : a.size ≡ length before + length after
  size_parts =
      let width = b.array.width in
      let fits = b.array.fits in
      omega (
        arith,
        length-take a.size a.items (omega (arith, width, fits)),
        ap length b.items,
        length-append before after,
      )

  same_test : (it.mod_count == a.mod_count) ≡ true
  same_test = (==_iff it.mod_count a.mod_count).1 b.same_count

  at_end :
      length after ≡ 0 → (has_next it a ≡ false) × (iterator_next it a ≡ raised index_out_of_bounds)
  unfolding has_next iterator_next
  at_end n =
      let c = b.cursor in
      let e : it.cursor ≡ a.size = omega (arith, size_parts, n, c) in
      let past : leb a.size it.cursor ≡ true = ground (arith, e) in
      ((rw ((==_iff it.cursor a.size).1 e) refl), (rw (same_test, past) refl))

  has_more : 0 < length after → has_next it a ≡ true
  unfolding has_next
  has_more n =
      let c = b.cursor in
      let e : it.cursor < a.size = omega (arith, size_parts, n, c) in ground (arith, e)

  passes :
      (x : Value) (later : List Value)
      → after ≡ x ∷ later
      → (next : ArrayIterator) × (iterator_next it a ≡ ok (x, next))
        × HasPassed next a before x later
  unfolding iterator_next
  passes x later s =
      let c = b.cursor in
      let parts = b.items ∙ ap (λ l. before ++ l) s in
      let inside : it.cursor < a.size = omega (arith, size_parts, c, ap length s) in
      let past : leb a.size it.cursor ≡ false = ground (arith, inside) in
      let item : get_or a.items it.cursor nil ≡ x =
        sym (get_or-take a.items a.size it.cursor inside)
        ∙ (ap (λ l. get_or l it.cursor nil) parts
            ∙ (ap (λ i. get_or (before ++ x ∷ later) i nil) c ∙ get_or-middle before x later)) in
      (
        record it { cursor = it.cursor + 1; last_ret = pos it.cursor },
        (rw (same_test, past, item) refl),
        record {
          between = record {
            array = b.array;
            items = parts ∙ sym (append_one before x later);
            cursor = omega (arith, c, length-append before (x ∷ []));
            same_count = b.same_count;
          };
          last = ap pos c;
        },
      )

-- the item that the iterator has passed is removed, and the iteration goes on behind it
pub iterator_remove-IsBetween :
    (it : ArrayIterator) (a : ObjArray) (before : List Value) (x : Value) (after : List Value)
    → HasPassed it a before x after
    → (it' : ArrayIterator) × (a' : ObjArray) × (iterator_remove it a ≡ ok (it', a'))
      × IsBetween it' a' before after
unfolding iterator_remove remove_last
iterator_remove-IsBetween it a before x after p =
    let b = p.between in
    let parts = b.items ∙ append_one before x after in
    let w = b.array in
    let inside : length before < a.size =
      omega (arith, size_parts it a (before ++ x ∷ []) after b, length-append before (x ∷ [])) in
    let i = length before in
    let split =
      append_inj (take i a.items) before
        (get_or a.items i nil ∷ take (a.size - i - 1) (drop (i + 1) a.items)) (x ∷ after)
        (sym (contents-split a i w inside) ∙ parts) (length-before a i w inside) in
    let rest : take (a.size - i - 1) (drop (i + 1) a.items) ≡ after = tail_eq split.1 in
    let c : remove_at a i ≡ remove_at a i = refl in
    (
      record { cursor = i; last_ret = negsuc 0; mod_count = (remove_at a i).mod_count },
      remove_at a i,
      ap (λ l. remove_last l it a) p.last
          ∙ ap
              (λ t.
                if not t
                then raised modified_during_iteration
                else ok (
                  record { cursor = i; last_ret = negsuc 0; mod_count = (remove_at a i).mod_count },
                  remove_at a i,
                ))
              (same_test it a (before ++ x ∷ []) after b),
      record {
        array = remove_at-IsArray a i w inside;
        items =
            remove_at-contents a i w inside
            ∙ (ap (λ l. l ++ take (a.size - i - 1) (drop (i + 1) a.items)) split.0
                ∙ ap (λ l. before ++ l) rest);
        cursor = refl;
        same_count = refl;
      },
    )
  where
    tail_eq : {y z : Value} {ys zs : List Value} → y ∷ ys ≡ z ∷ zs → ys ≡ zs
    tail_eq e = cc

-- what the methods of the iterator do between `before` and `after`
pub Walks : ArrayIterator → ObjArray → List Value → List Value → Type 0
Walks it a before [] = (has_next it a ≡ false) × (iterator_next it a ≡ raised index_out_of_bounds)
Walks it a before (x ∷ later) =
    (has_next it a ≡ true)
    × ((next : ArrayIterator) × (iterator_next it a ≡ ok (x, next))
        × IsBetween next a (before ++ x ∷ []) later
        × ((it' : ArrayIterator) × (a' : ObjArray) × (iterator_remove next a ≡ ok (it', a'))
            × IsBetween it' a' before later))

-- For an iterator of an array between the items that it has passed and the others, with no change of
-- the array that it does not know of: if there are no others, `hasNext` is false and `next` raises an
-- error. Otherwise `hasNext` is true, `next` gives the first of the others and passes it, and
-- `remove`, called then, takes just this item from the array and leaves the iterator in its place.
pub iterator_next-Walks :
    (it : ArrayIterator) (a : ObjArray) (before after : List Value)
    → IsBetween it a before after
    → Walks it a before after
unfolding Walks
iterator_next-Walks it a before [] b = at_end it a before [] b refl
iterator_next-Walks it a before (x ∷ later) b =
    let (next, run, p) = passes it a before (x ∷ later) b x later refl in
    (
      has_more it a before (x ∷ later) b (omega arith),
      (next, run, p.between, iterator_remove-IsBetween next a before x later p),
    )

changed_count : (n m : ℕ) → n ≡ m → m < 2 ^ 32 → (n == (m + 1) % 2 ^ 32) ≡ false
changed_count n m e lt = elim (Bool-cases (m + 1 == 2 ^ 32)) [
  | inl s ↦
      let s' : m + 1 ≡ 2 ^ 32 = (==_iff (m + 1) (2 ^ 32)).0 s in
      let z : (m + 1) % 2 ^ 32 ≡ 0 = ap (λ k. k % 2 ^ 32) s' in rw z (ground (arith, e, s'))
  | inr d ↦
      let low : m + 1 < 2 ^ 32 = ground (arith, lt) in rw (mod-eq_of_lt low) (ground (arith, e))
]

-- An iterator that has not missed a change of its array, with a `modCount` below 2^32, raises an error
-- from `next`, and from `remove` if it has passed an item, after an item is removed behind its back.
pub iterator_next-Modified :
    (it : ArrayIterator) (a : ObjArray) (i j : ℕ)
    → it.mod_count ≡ a.mod_count
    → a.mod_count < 2 ^ 32
    → (iterator_next it (remove_at a i) ≡ raised modified_during_iteration)
      × (iterator_remove (record it { last_ret = pos j }) (remove_at a i)
          ≡ raised modified_during_iteration)
unfolding iterator_next remove_at iterator_remove remove_last
iterator_next-Modified it a i j e lt =
    let d = changed_count it.mod_count a.mod_count e lt in ((rw d refl), (rw d refl))
