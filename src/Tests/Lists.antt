-- ===== src/Tests/Lists.antt =====
-- A list of two items, with room for four.
use slox.Lists
use slox.Lists.Appends.{
  Appends, append_to_array-Appends, array_at_safe-Indexes, compute_slice-Clamps,
}
use slox.Lists.Iterates.{
  Walks, array_iterator-IsBetween, iterator_next-Modified, iterator_next-Walks,
}
use slox.Lists.Removes.{IsArray}
use slox.Lists.{
  append_to_array, array_at_safe, array_iterator, compute_slice, contents, index_out_of_bounds,
  iterator_next, iterator_remove, modified_during_iteration, negsuc, ok, pos, raised, remove_at,
  slice_bound, ℤ,
}
use slox.Object.{ObjArray}
use slox.Prelude.{ℕ, ◌-◌, ◌≤◌, ◌<◌, Bool, [], ◌∷◌, some, ◌≡◌, refl, arith, get_or, ltb, min, max}
use slox.Value.{nil, number, obj}

abbrev two_items : ObjArray
two_items = record { size = 2; capacity = 4; mod_count = 5; items = obj 1 ∷ obj 2 ∷ nil ∷ nil ∷ [] }

abbrev alloc : ℕ → Bool
alloc n = ltb n 100

two_items-IsArray : IsArray two_items
two_items-IsArray = record { width = refl; fits = omega arith }

iterator_next-Walks_example : Walks (array_iterator two_items) two_items [] (contents two_items)
iterator_next-Walks_example =
    iterator_next-Walks (array_iterator two_items) two_items [] (contents two_items)
      (array_iterator-IsBetween two_items two_items-IsArray)

iterator_next-Modified_example :
    (iterator_next (array_iterator two_items) (remove_at two_items 0)
      ≡ raised modified_during_iteration)
    × (iterator_remove
          (record (array_iterator two_items) { last_ret = pos 0 })
          (remove_at two_items 0)
        ≡ raised modified_during_iteration)
iterator_next-Modified_example =
    iterator_next-Modified (array_iterator two_items) two_items 0 0 refl (omega arith)

append_to_array-Appends_example : Appends two_items nil (append_to_array alloc two_items nil)
append_to_array-Appends_example = append_to_array-Appends alloc two_items nil two_items-IsArray

array_at_safe-Indexes_example :
    (1 < two_items.size
      → (array_at_safe two_items (pos 1) ≡ ok (get_or (contents two_items) 1 nil))
        × (array_at_safe two_items (negsuc 1)
            ≡ ok (get_or (contents two_items) (two_items.size - 2) nil)))
    × (two_items.size ≤ 1
        → (array_at_safe two_items (pos 1) ≡ raised index_out_of_bounds)
          × (array_at_safe two_items (negsuc 1) ≡ raised index_out_of_bounds))
array_at_safe-Indexes_example = array_at_safe-Indexes two_items 1

-- the end is beyond the size
abbrev five : ℕ → ℤ
five bits = pos 5

compute_slice-Clamps_example :
    compute_slice five nil (number 0) 2
    ≡ some (
      min 2 (Lists.not_negative (pos 0)),
      max (min 2 (Lists.not_negative (pos 0))) (Lists.not_negative (pos 5)),
    )
unfolding Lists.slice_bound
compute_slice-Clamps_example = compute_slice-Clamps five nil (number 0) 2 (pos 0) (pos 5) refl refl
