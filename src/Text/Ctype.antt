-- ===== src/Text/Ctype.antt =====
-- The character classes of elox/lib/string/string.c and elox/include/elox/builtins/string.h.
-- The C table has 128 rows written out; the 128 bytes above them are 0 in both.
use slox.Prelude.{ℕ, Bool, not, List, [], ◌∷◌, get_or, bit_and, bit_or, ◌==◌}

abbrev pub alpha_mask : ℕ
alpha_mask = 0x1

abbrev pub digit_mask : ℕ
digit_mask = 0x2

abbrev pub hex_mask : ℕ
hex_mask = 0x4

abbrev pub ws_mask : ℕ
ws_mask = 0x8

-- `W` is 8, `A` is 1, `AH` is 5 and `DH` is 6.
abbrev pub elox_c_table : List ℕ
elox_c_table =
    0 ∷ 0 ∷ 0 ∷ 0 ∷ 0 ∷ 0 ∷ 0 ∷ 0 ∷ 0 ∷ 8 ∷ 8 ∷ 0 ∷ 0 ∷ 8 ∷ 0 ∷ 0 ∷ 0 ∷ 0 ∷ 0 ∷ 0 ∷ 0 ∷ 0 ∷ 0 ∷ 0
    ∷ 0 ∷ 0 ∷ 0 ∷ 0 ∷ 0 ∷ 0 ∷ 0 ∷ 0 ∷ 8 ∷ 0 ∷ 0 ∷ 0 ∷ 0 ∷ 0 ∷ 0 ∷ 0 ∷ 0 ∷ 0 ∷ 0 ∷ 0 ∷ 0 ∷ 0 ∷ 0 ∷ 0
    ∷ 6 ∷ 6 ∷ 6 ∷ 6 ∷ 6 ∷ 6 ∷ 6 ∷ 6 ∷ 6 ∷ 6 ∷ 0 ∷ 0 ∷ 0 ∷ 0 ∷ 0 ∷ 0 ∷ 0 ∷ 5 ∷ 5 ∷ 5 ∷ 5 ∷ 5 ∷ 5 ∷ 1
    ∷ 1 ∷ 1 ∷ 1 ∷ 1 ∷ 1 ∷ 1 ∷ 1 ∷ 1 ∷ 1 ∷ 1 ∷ 1 ∷ 1 ∷ 1 ∷ 1 ∷ 1 ∷ 1 ∷ 1 ∷ 1 ∷ 1 ∷ 0 ∷ 0 ∷ 0 ∷ 0 ∷ 1
    ∷ 0 ∷ 5 ∷ 5 ∷ 5 ∷ 5 ∷ 5 ∷ 5 ∷ 1 ∷ 1 ∷ 1 ∷ 1 ∷ 1 ∷ 1 ∷ 1 ∷ 1 ∷ 1 ∷ 1 ∷ 1 ∷ 1 ∷ 1 ∷ 1 ∷ 1 ∷ 1 ∷ 1
    ∷ 1 ∷ 1 ∷ 1 ∷ 0 ∷ 0 ∷ 0 ∷ 0 ∷ 0 ∷ []

-- `(eloxCTable[c] & mask) != 0`
unfoldable pub has_class : ℕ → ℕ → Bool
has_class mask c = not (bit_and (get_or elox_c_table c 0) mask == 0)

unfoldable pub is_alpha : ℕ → Bool
unfolding has_class
is_alpha c = has_class alpha_mask c

unfoldable pub is_alnum : ℕ → Bool
unfolding has_class
is_alnum c = has_class (bit_or alpha_mask digit_mask) c

unfoldable pub is_digit : ℕ → Bool
unfolding has_class
is_digit c = has_class digit_mask c

unfoldable pub is_hex : ℕ → Bool
unfolding has_class
is_hex c = has_class hex_mask c

unfoldable pub is_whitespace : ℕ → Bool
unfolding has_class
is_whitespace c = has_class ws_mask c
