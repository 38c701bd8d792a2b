-- ===== src/Text/Trim.antt =====
-- `stringTrim`, `stringStartsWith` and `stringEndsWith` of elox/lib/string/string.c, on byte texts.
pub mod Trims
use slox.Prelude.{
  ℕ, zero, suc, ◌+◌, ◌-◌, Bool, true, false, List, [], ◌∷◌, bytes_equal, drop, get_or, length, ltb,
  take, if◌then◌else◌,
}
use slox.Text.Ctype.{is_whitespace}

-- the loop that raises `a`
unfoldable pub leading : List ℕ → ℕ
leading [] = 0
leading (c ∷ cs) = let rest = leading cs in if is_whitespace c then suc rest else 0

-- the loop that lowers `b`
unfoldable pub trailing : ℕ → List ℕ → ℕ
trailing zero str = 0
trailing (suc b) str =
    let rest = trailing b str in if is_whitespace (get_or str b 0) then rest else suc b

unfoldable pub string_trim : List ℕ → List ℕ
unfolding leading trailing
string_trim str =
    let a = leading str in
    let b = trailing (length str) str in if ltb a b then take (b - a) (drop a str) else []

unfoldable pub string_starts_with : List ℕ → List ℕ → Bool
unfolding bytes_equal
string_starts_with str prefix =
    if ltb (length str) (length prefix)
    then false
    else bytes_equal (take (length prefix) str) prefix

unfoldable pub string_ends_with : List ℕ → List ℕ → Bool
unfolding bytes_equal
string_ends_with str suffix =
    if ltb (length str) (length suffix)
    then false
    else bytes_equal (take (length suffix) (drop (length str - length suffix) str)) suffix
