-- ===== src/Scanner/Scan.antt =====
-- `scanToken` of elox/lib/scanner.c.
pub mod Total
use slox.Prelude.{
  ℕ, ◌+◌, ◌-◌, ◌%◌, ◌^◌, Bool, true, false, ◌&&◌, Option, none, some, ltb, ◌==◌, if◌then◌else◌,
}
use slox.Scanner.Literals.{
  identifier, number, string, raw_string, f_string, crt_f_string, set_crt_f_string,
}
use slox.Scanner.State.{
  Scanner, scan_peek, is_at_end, advance, matches, matches2, make_token, make_error_token,
}
use slox.Scanner.Token
use slox.Scanner.Token.{Token, TokenType}
use slox.Scanner.Whitespace.{skip_whitespace}
use slox.Text.Ctype.{is_alpha, is_digit}

-- `return makeToken(scanner, type)` at `s`
abbrev give : Scanner → TokenType → Option (Token × Scanner)
give s type = some (make_token s type, s)

-- `makeToken(scanner, advanceIfMatch(scanner, '=') ? long : short)`
unfoldable pub one_or_two : Scanner → ℕ → TokenType → TokenType → Option (Token × Scanner)
one_or_two s expected long short =
    if matches s expected then give (advance s) long else give s short

-- after a letter `c`, the prefixes of raw strings and f-strings
unfoldable pub scan_word : Scanner → ℕ → Option (Token × Scanner)
scan_word s c =
    if c == b'r' && matches s b'"'
    then raw_string (record (advance s) { start = s.start + 1 }) b'"'
    else if c == b'r' && matches s b'\''
    then raw_string (record (advance s) { start = s.start + 1 }) b'\''
    else if c == b'f' && matches s b'"'
    then f_string (record (advance s) { start = s.start + 1 }) b'"'
    else if c == b'f' && matches s b'\''
    then f_string (record (advance s) { start = s.start + 1 }) b'\''
    else some (identifier s)

-- `case '}'`: the end of an interpolated expression goes back to its f-string
unfoldable pub right_brace : Scanner → Option (Token × Scanner)
right_brace s =
    let f = crt_f_string s in
    if ltb 0 s.open_f_strings
    then if f.open_braces == 1
      then string (set_crt_f_string s (record f { open_braces = 0 })) (f.delim % 256) true false
      else give
          (set_crt_f_string s (record f { open_braces = (f.open_braces + (2 ^ 16 - 1)) % 2 ^ 16 }))
          Token.token_right_brace
    else give s Token.token_right_brace

unfoldable pub scan_colon : Scanner → Option (Token × Scanner)
scan_colon s =
    if matches s b':'
    then give (advance s) Token.token_double_colon
    else if matches s b'='
    then give (advance s) Token.token_colon_equal
    else give s Token.token_colon

unfoldable pub scan_dot : Scanner → Option (Token × Scanner)
unfolding one_or_two
scan_dot s =
    if matches2 s b'.' b'.'
    then give (advance (advance s)) Token.token_ellipsis
    else one_or_two s b'.' Token.token_dot_dot Token.token_dot

-- the last cases of the `switch`
unfoldable pub scan_operator : Scanner → ℕ → Option (Token × Scanner)
unfolding one_or_two
scan_operator s c =
    if c == b'-'
    then one_or_two s b'=' Token.token_minus_equal Token.token_minus
    else if c == b'+'
    then one_or_two s b'=' Token.token_plus_equal Token.token_plus
    else if c == b'/'
    then one_or_two s b'=' Token.token_slash_equal Token.token_slash
    else if c == b'%'
    then one_or_two s b'=' Token.token_percent_equal Token.token_percent
    else if c == b'*'
    then one_or_two s b'=' Token.token_star_equal Token.token_star
    else if c == b'!'
    then one_or_two s b'=' Token.token_bang_equal Token.token_bang
    else if c == b'='
    then one_or_two s b'=' Token.token_equal_equal Token.token_equal
    else if c == b'<'
    then one_or_two s b'=' Token.token_less_equal Token.token_less
    else if c == b'>'
    then one_or_two s b'=' Token.token_greater_equal Token.token_greater
    else if c == b'"'
    then string s b'"' false false
    else if c == b'\''
    then string s b'\'' false false
    else some (make_error_token s "Unexpected character.", s)

-- the first cases of the `switch`
unfoldable pub scan_punctuation : Scanner → ℕ → Option (Token × Scanner)
unfolding right_brace scan_colon scan_dot scan_operator
scan_punctuation s c =
    if c == b'('
    then give s Token.token_left_paren
    else if c == b')'
    then give s Token.token_right_paren
    else if c == b'{'
    then give s Token.token_left_brace
    else if c == b'}'
    then right_brace s
    else if c == b'['
    then give s Token.token_left_bracket
    else if c == b']'
    then give s Token.token_right_bracket
    else if c == b':'
    then scan_colon s
    else if c == b';'
    then give s Token.token_semicolon
    else if c == b','
    then give s Token.token_comma
    else if c == b'.'
    then scan_dot s
    else scan_operator s c

-- after the white space, at the token's first byte
unfoldable pub scan_first : Scanner → Option (Token × Scanner)
unfolding scan_word scan_punctuation
scan_first s =
    let c = scan_peek s in
    let s' = advance s in
    if is_at_end s
    then give s Token.token_eof
    else if is_alpha c
    then scan_word s' c
    else if is_digit c
    then some (number s')
    else scan_punctuation s' c

pub after_whitespace : Option (Bool × Scanner) → Option (Token × Scanner)
unfolding scan_first
after_whitespace none = none
after_whitespace (some (false, s)) = some (make_error_token s "Unterminated comment", s)
after_whitespace (some (true, s)) = scan_first (record s { start = s.current })

unfoldable pub scan_token : Scanner → Option (Token × Scanner)
unfolding after_whitespace skip_whitespace
scan_token s = after_whitespace (skip_whitespace s)
