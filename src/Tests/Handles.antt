-- ===== src/Tests/Handles.antt =====
-- A set with two handles.
use slox.HandleSet
use slox.HandleSet.Walks
use slox.HandleSet.Removal.{handle_set_remove-IsRing}
use slox.HandleSet.Ring.{IsRing, handle_set_add-IsRing, init_handle_set-IsRing}
use slox.HandleSet.Walks.{free_handle_set-IsRing, mark_handle_set-IsRing}
use slox.HandleSet.{
  Links, free_handle_set, handle_set_add, handle_set_remove, init_handle_set, mark_handle_set,
}
use slox.Prelude.{outside_not_member, ℕ, List, [], ◌∷◌, none, some, ◌≡◌, refl, arith}

abbrev unset : Links
unset = record { next = λ a. 0; prev = λ a. 0; freed = [] }

abbrev no_handles : Links
no_handles = (init_handle_set (some 9) unset).2

abbrev one_handle : Links
one_handle = handle_set_add 9 1 no_handles

abbrev two_handles : Links
two_handles = handle_set_add 9 2 one_handle

abbrev two : List ℕ
two = 2 ∷ 1 ∷ []

one_handle-IsRing : IsRing one_handle 9 (1 ∷ [])
one_handle-IsRing =
    handle_set_add-IsRing no_handles 9 1 [] (init_handle_set-IsRing 9 unset)
      (outside_not_member 1 (9 ∷ []) refl)

handle_set_add-IsRing_example : IsRing two_handles 9 two
handle_set_add-IsRing_example =
    handle_set_add-IsRing one_handle 9 2 (1 ∷ []) one_handle-IsRing
      (outside_not_member 2 (9 ∷ 1 ∷ []) refl)

two_handles-IsRing : IsRing two_handles 9 two
two_handles-IsRing =
    handle_set_add-IsRing one_handle 9 2 (1 ∷ []) one_handle-IsRing
      (outside_not_member 2 (9 ∷ 1 ∷ []) refl)

handle_set_remove-IsRing_example :
    IsRing (handle_set_remove (some 1) two_handles) 9 (2 ∷ [])
    × ((handle_set_remove (some 1) two_handles).freed ≡ 1 ∷ two_handles.freed)
handle_set_remove-IsRing_example =
    handle_set_remove-IsRing two_handles 9 1 (2 ∷ []) [] two_handles-IsRing

mark_handle_set-IsRing_example : mark_handle_set 3 (record { head = some 9 }) two_handles ≡ some two
mark_handle_set-IsRing_example =
    mark_handle_set-IsRing 3 two_handles 9 two two_handles-IsRing (omega arith)

free_handle_set-IsRing_example :
    free_handle_set 3 (record { head = some 9 }) two_handles
    ≡ some (record { head = none }, record two_handles { freed = 9 ∷ 1 ∷ 2 ∷ two_handles.freed })
unfolding HandleSet.Walks.reversed_onto
free_handle_set-IsRing_example =
    free_handle_set-IsRing 3 two_handles 9 two two_handles-IsRing (omega arith)
