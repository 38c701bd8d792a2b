-- ===== src/Tests/Scanning.antt =====
-- Runs of the scanner, and its theorems at concrete sources.
use slox.Prelude.{
  ℕ, List, [], ◌∷◌, ◌++◌, Option, none, some, ◌≡◌, ◌↔◌, refl, arith, bytes, while, bytes_equal,
}
use slox.Scanner.Keywords.Spelling.{spelling, identifier_type_iff}
use slox.Scanner.Keywords.{
  identifier_type, check_keyword, keyword_a, keyword_c, keyword_e, keyword_f, keyword_fo,
  keyword_for, keyword_i, keyword_im, keyword_in, keyword_t, keyword_th, keyword_tr,
}
use slox.Scanner.Literals
use slox.Scanner.Literals.Writes.{AreBytes-uint8}
use slox.Scanner.Moves.{Within}
use slox.Scanner.Scan
use slox.Scanner.Scan.{scan_token}
use slox.Scanner.Scan.Total.{Tokenizes, scan_token-Tokenizes}
use slox.Scanner.State
use slox.Scanner.State.{Scanner, init_scanner}
use slox.Scanner.Token
use slox.Scanner.Token.{TokenType, Token, slice, message}
use slox.Scanner.Utf8
use slox.Scanner.Whitespace
use slox.Scanner.Whitespace.Progress.{Leaves, skip_whitespace-Leaves}
use slox.Scanner.Whitespace.{skip_whitespace}
use slox.Text.Ctype

-- A C string: the bytes of an ASCII text and the terminator.
abbrev c_string : List ℕ → List ℕ
c_string text = text ++ 0 ∷ []

-- What a test of the scanner computes with.
program : Unit {0}
unfolding while bytes_equal Ctype.is_alpha Ctype.is_digit Ctype.is_hex Ctype.has_class
    State.scan_peek State.is_at_end State.scan_look_back State.scan_peek_next State.matches
    State.matches2 State.make_token State.make_trimmed_token State.make_error_token identifier_type
    check_keyword keyword_a keyword_c keyword_e keyword_f keyword_fo keyword_for keyword_i
    keyword_im keyword_in keyword_t keyword_th keyword_tr Utf8.utf8_decode Utf8.utf8d
    Utf8.utf8_bytes Whitespace.comment_step Whitespace.skip_comment Whitespace.in_line_comment
    Whitespace.skip_line_comment Whitespace.skip_one Whitespace.skip_loop Whitespace.skip_whitespace
    Literals.in_identifier Literals.identifier Literals.fraction Literals.number_end Literals.number
    Literals.utf8_loop Literals.utf8_advance Literals.write_bytes Literals.output_utf8
    Literals.crt_f_string Literals.set_crt_f_string Literals.open_brace Literals.scan_char
    Literals.escape_char Literals.hex_value Literals.unicode_char Literals.string_char
    Literals.string_round Literals.string_loop Literals.string_type Literals.string
    Literals.raw_string_loop Literals.raw_string Literals.f_string Scan.one_or_two Scan.scan_word
    Scan.right_brace Scan.scan_colon Scan.scan_dot Scan.scan_operator Scan.scan_punctuation
    Scan.scan_first Scan.scan_token
program = tt

token_of : Option (Token × Scanner) → Option Token
token_of none = none
token_of (some (t, s)) = some t

-- `  while(x) # note`
scan_while :
    token_of (scan_token (init_scanner (c_string (bytes "  while(x)"))))
    ≡ some (record { text = slice 2 5; type = Token.token_while; line = 1 })
unfolding program token_of
scan_while = refl

abbrev greeting : List ℕ
greeting = c_string (b'"' ∷ b'a' ∷ b'\\' ∷ b'n' ∷ b'"' ∷ b';' ∷ [])

scan_string :
    token_of (scan_token (init_scanner greeting))
    ≡ some (record { text = slice 0 4; type = Token.token_string; line = 1 })
unfolding program token_of
scan_string = refl

greeting-Within : Within 6 (init_scanner greeting)
greeting-Within = record {
  nul = refl;
  room = omega arith;
  uint8 = AreBytes-uint8 greeting (omega arith);
  bound = omega arith;
}

scan_token-Tokenizes_example :
    Tokenizes 6 (init_scanner greeting) (scan_token (init_scanner greeting))
scan_token-Tokenizes_example = scan_token-Tokenizes 6 (init_scanner greeting) greeting-Within

identifier_type_iff_example :
    (identifier_type (bytes "foreach") ≡ Token.token_foreach)
    ↔ (spelling Token.token_foreach ≡ some (bytes "foreach"))
identifier_type_iff_example =
    identifier_type_iff (bytes "foreach") Token.token_foreach (ground arith)

-- a blank and an unterminated comment
abbrev blanks : List ℕ
blanks = c_string (b' ' ∷ b'#' ∷ b'*' ∷ b'a' ∷ [])

skip_whitespace-Leaves_example :
    Leaves 4 (init_scanner blanks) (skip_whitespace (init_scanner blanks))
skip_whitespace-Leaves_example = skip_whitespace-Leaves 4 (init_scanner blanks) (record {
  nul = refl;
  room = omega arith;
  uint8 = AreBytes-uint8 blanks (omega arith);
  bound = omega arith;
})
