-- ===== src/Tests/Texts.antt =====
-- The text tables at concrete bytes.
use slox.HeapString.Builds.{Adds, heap_string_add_string-Adds}
use slox.HeapString.{HeapString, heap_string_add_char, heap_string_add_string}
use slox.Prelude.{◌||◌, ℕ, Bool, Option, some, [], ◌∷◌, ◌≡◌, refl, arith, ltb, map}
use slox.Text.Ascii.{classes, cases, letter, digit, hex_digit, blank, upper_letter, lower_letter}
use slox.Text.Case.{string_upper, string_lower}
use slox.Text.Search.Finds.{Answers, memmem-Answers}
use slox.Text.Search.{memmem}
use slox.Text.Ctype.{is_alpha, is_alnum, is_digit, is_hex, is_whitespace}
use slox.Text.Trim.Trims.{Trims, string_trim-Trims}
use slox.Text.Trim.{string_trim}

classes_example :
    (is_alpha 0x5f ≡ letter 0x5f)
    × (is_digit 0x5f ≡ digit 0x5f)
    × (is_alnum 0x5f ≡ (letter 0x5f || digit 0x5f))
    × (is_hex 0x5f ≡ hex_digit 0x5f)
    × (is_whitespace 0x5f ≡ blank 0x5f)
classes_example = classes 0x5f (omega arith)

cases_example :
    (string_upper (b'a' ∷ b'Z' ∷ 0xe9 ∷ []) ≡ map upper_letter (b'a' ∷ b'Z' ∷ 0xe9 ∷ []))
    × (string_lower (b'a' ∷ b'Z' ∷ 0xe9 ∷ []) ≡ map lower_letter (b'a' ∷ b'Z' ∷ 0xe9 ∷ []))
cases_example = cases (b'a' ∷ b'Z' ∷ 0xe9 ∷ []) (omega arith, (omega arith, (omega arith, tt)))

abbrev alloc : ℕ → Bool
alloc n = ltb n 100

-- no byte yet, with the terminator
abbrev no_text : HeapString
no_text = record { length = 0; capacity = 2; chars = 0 ∷ 0 ∷ [] }

heap_string_add_string-Adds_example :
    Adds alloc no_text (120 ∷ 121 ∷ []) (heap_string_add_string alloc 255 no_text (120 ∷ 121 ∷ []))
    × Adds alloc no_text (122 ∷ []) (heap_string_add_char alloc 255 no_text 122)
heap_string_add_string-Adds_example =
    heap_string_add_string-Adds alloc 255 no_text (120 ∷ 121 ∷ []) 122
      (record { width = refl; room = omega arith; terminator = refl })

-- "aab" in "aaab"
memmem-Answers_example :
    (r : Option ℕ) × (memmem (97 ∷ 97 ∷ 97 ∷ 98 ∷ []) (97 ∷ 97 ∷ 98 ∷ []) ≡ some r)
    × Answers (97 ∷ 97 ∷ 98 ∷ []) (97 ∷ 97 ∷ 97 ∷ 98 ∷ []) r
memmem-Answers_example = memmem-Answers (97 ∷ 97 ∷ 97 ∷ 98 ∷ []) (97 ∷ 97 ∷ 98 ∷ []) (omega arith)

string_trim-Trims_example : Trims (32 ∷ 97 ∷ 32 ∷ []) (string_trim (32 ∷ 97 ∷ 32 ∷ []))
string_trim-Trims_example = string_trim-Trims (32 ∷ 97 ∷ 32 ∷ [])
