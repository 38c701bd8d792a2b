-- ===== src/Text/Search.antt =====
-- The search for a text in another, `memmem` of elox/lib/string/string.c, which is there where the
-- C library has none, and `stringContains`. The result is the offset; `none` outside means that the
-- loop does not end.
pub mod Finds
use slox.Prelude.{
  ℕ, zero, suc, ◌+◌, Bool, true, false, not, ◌&&◌, List, [], ◌∷◌, Option, none, some, bytes_equal,
  drop, get_or, length, ltb, take, ◌==◌, if◌then◌else◌, ◌>>=◌,
}

-- `memchr`
unfoldable pub memchr : ℕ → List ℕ → ℕ → Option ℕ
memchr c [] at = none
memchr c (y ∷ ys) at = let rest = memchr c ys (at + 1) in if y == c then some at else rest

-- `k` and `ell`
abbrev pub skip_other : ℕ → ℕ → ℕ
skip_other x0 x1 = if x0 == x1 then 2 else 1

abbrev pub skip_same : ℕ → ℕ → ℕ
skip_same x0 x1 = if x0 == x1 then 1 else 2

-- the loop over the offsets for a needle of two bytes or more
unfoldable pub find_from : ℕ → ℕ → ℕ → List ℕ → List ℕ → ℕ → Option (Option ℕ)
unfolding bytes_equal
find_from zero x0 x1 xs y j = none
find_from (suc fuel) x0 x1 xs y j =
    let other = not (x1 == get_or y (j + 1) 0) in
    let here = bytes_equal xs (take (length xs) (drop (j + 2) y)) && x0 == get_or y j 0 in
    let rest =
      find_from fuel x0 x1 xs y (if other then j + skip_other x0 x1 else j + skip_same x0 x1) in
    if ltb (length y) (j + (length xs + 2))
    then some none
    else if other
    then rest
    else if here
    then some (some j)
    else rest

unfoldable pub memmem : List ℕ → List ℕ → Option (Option ℕ)
unfolding memchr find_from
memmem y [] = some none
memmem y (x0 ∷ []) = some (memchr x0 y 0)
memmem y (x0 ∷ x1 ∷ xs) =
    if ltb (length y) (length xs + 2) then some none else find_from (suc (length y)) x0 x1 xs y 0

is_found : Option ℕ → Bool
is_found none = false
is_found (some j) = true

-- `stringContains`
unfoldable pub string_contains : List ℕ → List ℕ → Option Bool
unfolding memmem is_found
string_contains seq needle = memmem seq needle >>= λ r. some (is_found r)
