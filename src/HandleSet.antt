-- ===== src/HandleSet.antt =====
-- The set of handles, elox/lib/handleSet.c: a doubly linked ring, with a head that is no handle. The
-- fields `next` and `prev` of all handles are two functions of the address. `none` as the result of a
-- walk means that the fuel does not suffice.
pub mod Ring
pub mod Removal
pub mod Walks
use slox.Prelude.{
  ℕ, zero, suc, Bool, List, [], ◌∷◌, ◌++◌, Option, none, some, ◌==◌, if◌then◌else◌, ◌>>=◌,
}

pub record Links : Type 0 where
  pub next : ℕ → ℕ
  pub prev : ℕ → ℕ
  -- the handles that were freed, the last one first
  pub freed : List ℕ

pub record HandleSet : Type 0 where
  pub head : Option ℕ

abbrev pub put : (ℕ → ℕ) → ℕ → ℕ → ℕ → ℕ
put f a v x = if x == a then v else f x

abbrev pub set_next : ℕ → ℕ → Links → Links
set_next a v s = record s { next = put s.next a v }

abbrev pub set_prev : ℕ → ℕ → Links → Links
set_prev a v s = record s { prev = put s.prev a v }

abbrev pub free_handle : ℕ → Links → Links
free_handle a s = record s { freed = a ∷ s.freed }

-- `fresh` is the new head, if one can be allocated
unfoldable pub init_handle_set : Option ℕ → Links → Bool × HandleSet × Links
init_handle_set none s = (Bool.false, record { head = none }, s)
init_handle_set (some h) s = (Bool.true, record { head = some h }, set_next h h (set_prev h h s))

-- `handleSetAdd` for a set with the head `head`
unfoldable pub handle_set_add : ℕ → ℕ → Links → Links
handle_set_add head handle s =
    let s1 = set_next handle (s.next head) s in
    let s2 = set_prev handle head s1 in
    let s3 = set_prev (s2.next head) handle s2 in set_next head handle s3

unfoldable pub handle_set_remove : Option ℕ → Links → Links
handle_set_remove none s = s
handle_set_remove (some handle) s =
    let s1 = set_prev (s.next handle) (s.prev handle) s in
    let s2 = set_next (s1.prev handle) (s1.next handle) s1 in free_handle handle s2

-- the handles that the loop of `markHandleSet` comes to
unfoldable pub walk_handles : ℕ → (ℕ → ℕ) → ℕ → ℕ → Option (List ℕ)
walk_handles zero next head handle = none
walk_handles (suc fuel) next head handle =
    let rest = walk_handles fuel next head (next handle) in
    if handle == head then some [] else rest >>= λ later. some (handle ∷ later)

-- the handles that `markHandleSet` marks, in order
unfoldable pub mark_handle_set : ℕ → HandleSet → Links → Option (List ℕ)
unfolding walk_handles
mark_handle_set fuel set s = marks set.head
  where
    marks : Option ℕ → Option (List ℕ)
    marks none = some []
    marks (some head) = walk_handles fuel s.next head (s.next head)

-- the loop of `freeHandleSet`
unfoldable pub free_handles : ℕ → ℕ → ℕ → Links → Option Links
free_handles zero head current s = none
free_handles (suc fuel) head current s =
    let rest = free_handles fuel head (s.next current) (free_handle current s) in
    if current == head then some s else rest

unfoldable pub free_handle_set : ℕ → HandleSet → Links → Option (HandleSet × Links)
unfolding free_handles
free_handle_set fuel set s = frees set.head
  where
    frees : Option ℕ → Option (HandleSet × Links)
    frees none = some (set, s)
    frees (some head) = free_handles fuel head (s.next head) s >>= λ t.
        some (record { head = none }, free_handle head t)
