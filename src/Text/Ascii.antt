-- ===== src/Text/Ascii.antt =====
-- The tables of character classes and of letter cases against the ranges that they stand for.
use slox.Prelude.{
  ℕ, ◌+◌, ◌-◌, ◌<◌, Bool, true, false, not, ◌&&◌, ◌||◌, List, [], ◌∷◌, ◌≡◌, refl, get_or, leb, ◌==◌,
  ==_iff, if◌then◌else◌, map, all_below, all_below_sound,
}
use slox.Text.Case.{upper_lookup, lower_lookup, translate, string_upper, string_lower}
use slox.Text.Ctype.{has_class, is_alpha, is_alnum, is_digit, is_hex, is_whitespace}

-- `lo <= c && c <= hi`
abbrev within : ℕ → ℕ → ℕ → Bool
within lo hi c = leb lo c && leb c hi

abbrev pub letter : ℕ → Bool
letter c = within b'a' b'z' c || within b'A' b'Z' c || c == b'_'

abbrev pub digit : ℕ → Bool
digit c = within b'0' b'9' c

abbrev same : Bool → Bool → Bool
same true b = b
same false b = not b

same_iff : (a b : Bool) → same a b ≡ true → a ≡ b
same_iff true true e = refl
same_iff false false e = refl
same_iff true false e = cc
same_iff false true e = cc

-- two tests agree on every byte if they do on each of the 256
agree :
    (f g : ℕ → Bool) → all_below 256 (λ c. same (f c) (g c)) ≡ true → (c : ℕ) → c < 256 → f c ≡ g c
agree f g h c lt = same_iff (f c) (g c) (all_below_sound 256 (λ c. same (f c) (g c)) c h lt)

letters : all_below 256 (λ c. same (is_alpha c) (letter c)) ≡ true
unfolding all_below has_class is_alpha
letters = refl

digits : all_below 256 (λ c. same (is_digit c) (digit c)) ≡ true
unfolding all_below has_class is_digit
digits = refl

word_bytes : all_below 256 (λ c. same (is_alnum c) (letter c || digit c)) ≡ true
unfolding all_below has_class is_alnum
word_bytes = refl

abbrev pub hex_digit : ℕ → Bool
hex_digit c = digit c || within b'a' b'f' c || within b'A' b'F' c

hex_digits : all_below 256 (λ c. same (is_hex c) (hex_digit c)) ≡ true
unfolding all_below has_class is_hex
hex_digits = refl

abbrev pub blank : ℕ → Bool
blank c = within 9 10 c || c == 13 || c == 32

blanks : all_below 256 (λ c. same (is_whitespace c) (blank c)) ≡ true
unfolding all_below has_class is_whitespace
blanks = refl

-- For a byte: each class test of the table answers the range of characters it is named for.
pub classes :
    (c : ℕ)
    → c < 256
    → (is_alpha c ≡ letter c)
      × (is_digit c ≡ digit c)
      × (is_alnum c ≡ (letter c || digit c))
      × (is_hex c ≡ hex_digit c)
      × (is_whitespace c ≡ blank c)
classes c h = (
  agree is_alpha letter letters c h,
  agree is_digit digit digits c h,
  agree is_alnum _ word_bytes c h,
  agree is_hex hex_digit hex_digits c h,
  agree is_whitespace blank blanks c h,
)

abbrev pub upper_letter : ℕ → ℕ
upper_letter c = if within b'a' b'z' c then c - 32 else c

abbrev pub lower_letter : ℕ → ℕ
lower_letter c = if within b'A' b'Z' c then c + 32 else c

upper_table : all_below 256 (λ c. get_or upper_lookup c 0 == upper_letter c) ≡ true
unfolding all_below
upper_table = refl

lower_table : all_below 256 (λ c. get_or lower_lookup c 0 == lower_letter c) ≡ true
unfolding all_below
lower_table = refl

abbrev pub AreBytes : List ℕ → Type 0
AreBytes [] = Unit
AreBytes (c ∷ cs) = (c < 256) × AreBytes cs

translate-map :
    (table : List ℕ) (f : ℕ → ℕ)
    → all_below 256 (λ c. get_or table c 0 == f c) ≡ true
    → (text : List ℕ) → AreBytes text
    → translate table text ≡ map f text
unfolding translate
translate-map table f h [] b = refl
translate-map table f h (c ∷ cs) (lt, b) =
    let e = all_below_sound 256 (λ c. get_or table c 0 == f c) c h lt in
    rw ((==_iff (get_or table c 0) (f c)).0 e, translate-map table f h cs b) refl

-- For a text of bytes: `upper` and `lower` change exactly the ASCII letters of the other case, by
-- 32, and leave every other byte.
pub cases :
    (text : List ℕ)
    → AreBytes text
    → (string_upper text ≡ map upper_letter text) × (string_lower text ≡ map lower_letter text)
unfolding string_upper string_lower
cases text b = (
  translate-map upper_lookup upper_letter upper_table text b,
  translate-map lower_lookup lower_letter lower_table text b,
)
