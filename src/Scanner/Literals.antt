-- ===== src/Scanner/Literals.antt =====
-- Identifiers, numbers and string literals, elox/lib/scanner.c. A string literal is decoded in
-- place: `output` runs behind `current` in the same buffer.
pub mod CodePoint
pub mod Strings
pub mod InPlace
pub mod Writes
use slox.Prelude.{
  ℕ, zero, suc, ◌+◌, ◌-◌, ◌*◌, ◌%◌, ◌^◌, Bool, true, false, ◌&&◌, ◌||◌, List, [], ◌∷◌, Option, none,
  some, length, get_or, set, while, leb, ltb, ◌==◌, if◌then◌else◌,
}
use slox.Scanner.Keywords.{identifier_type}
use slox.Scanner.State.{
  max_interp_depth, FString, Scanner, no_f_string, scan_peek, is_at_end, scan_look_back,
  scan_peek_next, advance, make_token, make_trimmed_token, make_error_token, lexeme,
}
use slox.Scanner.Token.{
  Token, TokenType, token_number, token_string, token_fstring_start, token_fstring,
  token_fstring_end,
}
use slox.Scanner.Utf8.{Decoder, utf8_accept, utf8_reject, utf8_decode, utf8_bytes}
use slox.Text.Ctype.{is_alpha, is_digit, is_hex}

abbrev pub invalid_utf8 : ℕ
invalid_utf8 = 0xffff_ffff

unfoldable pub in_identifier : Scanner → Bool
in_identifier s = is_alpha (scan_peek s) || is_digit (scan_peek s)

unfoldable pub identifier : Scanner → Token × Scanner
identifier s =
    let s' = while (suc (length s.source)) in_identifier advance s in
    (make_token s' (identifier_type (lexeme s')), s')

abbrev pub advance_while : (ℕ → Bool) → Scanner → Scanner
advance_while class s = while (suc (length s.source)) (λ t. class (scan_peek t)) advance s

unfoldable pub fraction : Scanner → Scanner
fraction s =
    if scan_peek s == b'.' && is_digit (scan_peek_next s)
    then advance_while is_digit (advance s)
    else s

unfoldable pub number_end : Scanner → Scanner
unfolding fraction
number_end s =
    if scan_look_back s == b'0' && (scan_peek s == b'x' || scan_peek s == b'X')
    then advance_while is_hex (advance s)
    else fraction (advance_while is_digit s)

unfoldable pub number : Scanner → Token × Scanner
number s = (make_token (number_end s) token_number, number_end s)

-- The loop of `utf8_advance`: a code point or `invalid_utf8`.
unfoldable pub utf8_loop : ℕ → Decoder → Scanner → Option (ℕ × Scanner)
utf8_loop zero d s = none
utf8_loop (suc fuel) d s =
    let ch = scan_peek s in
    let s' = advance s in
    let d' = utf8_decode d ch in
    let rest = utf8_loop fuel d' s' in
    if d'.state == utf8_accept
    then some (d'.codepoint, s')
    else if d'.state == utf8_reject
    then some (invalid_utf8, s')
    else if ltb 0 ch
    then rest
    else some (d'.codepoint, s')

unfoldable pub utf8_advance : Scanner → Option (ℕ × Scanner)
unfolding utf8_loop
utf8_advance s = utf8_loop (suc (length s.source)) (record { state = utf8_accept; codepoint = 0 }) s

-- stores at successive places
unfoldable pub write_bytes : List ℕ → ℕ → List ℕ → List ℕ
write_bytes buffer i [] = buffer
write_bytes buffer i (b ∷ bs) = write_bytes (set buffer i b) (i + 1) bs

pub data SsMode : Type 0 where
  scan escape unicode : SsMode

-- the variables of `string`
pub record Literal : Type 0 where
  pub scanner : Scanner
  pub output : ℕ
  pub mode : SsMode
  pub num_u_chars : ℕ
  pub codepoint : ℕ
  pub complete : Bool
  pub end_f_string : Bool

-- `outputUtf8(cp, &output)`: nothing is written where there is no encoding
pub put : List ℕ → Literal → Literal
put bs l = record l {
  scanner = record (l.scanner) { source = write_bytes (l.scanner).source l.output bs };
  output = l.output + length bs;
}

pub put_encoded : Option (List ℕ) → Literal → Literal
unfolding put
put_encoded none l = l
put_encoded (some bs) l = put bs l

unfoldable pub output_utf8 : ℕ → Literal → Literal
unfolding put_encoded
output_utf8 cp l = put_encoded (utf8_bytes cp) l

-- `scanner->fStrings[scanner->openFStrings - 1]`
unfoldable pub crt_f_string : Scanner → FString
crt_f_string s = get_or s.f_strings (s.open_f_strings - 1) no_f_string

unfoldable pub set_crt_f_string : Scanner → FString → Scanner
set_crt_f_string s f = record s { f_strings = set s.f_strings (s.open_f_strings - 1) f }

-- `crtFString->openBraces++; crtFString->hasExpr = true`
unfoldable pub open_brace : Scanner → Scanner
unfolding set_crt_f_string crt_f_string
open_brace s =
    let f = crt_f_string s in
    set_crt_f_string s (record f { open_braces = (f.open_braces + 1) % 2 ^ 16; has_expr = true })

-- a round of the loop goes on with new variables, or returns an error token
pub data Round : Type 0 where
  go : Literal → Round
  fail : Token → Scanner → Round

unfoldable pub scan_char : ℕ → Bool → ℕ → Literal → Round
unfolding output_utf8 open_brace
scan_char delimiter f_string cp l =
    if cp == delimiter
    then go (record (output_utf8 cp l) { complete = true; end_f_string = true })
    else if cp == b'\\'
    then go (record l { mode = SsMode.escape })
    else if cp == 0
    then fail (make_error_token l.scanner "Unterminated string") l.scanner
    else if cp == invalid_utf8
    then fail (make_error_token l.scanner "Invalid UTF-8 character") l.scanner
    else if f_string && cp == b'{'
    then go (record (output_utf8 cp l) {
      scanner = open_brace (output_utf8 cp l).scanner;
      complete = true;
    })
    else go (output_utf8 cp l)

unfoldable pub escape_char : ℕ → Literal → Round
unfolding output_utf8 put
escape_char cp l =
    if cp == b'\'' || cp == b'\\' || cp == b'"'
    then go (record (output_utf8 cp l) { mode = SsMode.scan })
    else if cp == b'n'
    then go (record (put (b'\n' ∷ []) l) { mode = SsMode.scan })
    else if cp == b'r'
    then go (record (put (b'\r' ∷ []) l) { mode = SsMode.scan })
    else if cp == b't'
    then go (record (put (b'\t' ∷ []) l) { mode = SsMode.scan })
    else if cp == b'u'
    then go (record l { mode = SsMode.unicode; num_u_chars = 0; codepoint = 0 })
    else if cp == 0
    then fail (make_error_token l.scanner "Unterminated string") l.scanner
    else if cp == invalid_utf8
    then fail (make_error_token l.scanner "Invalid UTF-8 character") l.scanner
    else fail (make_error_token l.scanner "Invalid escape sequence") l.scanner

-- the value of a hexadecimal digit
unfoldable pub hex_value : ℕ → Option ℕ
hex_value cp =
    if leb b'0' cp && leb cp b'9'
    then some (cp - b'0')
    else if leb b'a' cp && leb cp b'f'
    then some (cp - b'a' + 10)
    else if leb b'A' cp && leb cp b'F'
    then some (cp - b'A' + 10)
    else none

-- the end of a `\u` escape, with what `outputUtf8` makes of its code point
pub end_unicode : Option (List ℕ) → Literal → Round
unfolding put
end_unicode none l = fail (make_error_token l.scanner "Invalid UTF-8 unicode escape") l.scanner
end_unicode (some bs) l = go (record (put bs l) { mode = SsMode.scan })

-- In the sum the operands of the source's `|` have no bit in common.
abbrev pub add_digit : ℕ → Literal → Literal
add_digit digit l = record l {
  codepoint = l.codepoint * 2 ^ 4 % 2 ^ 32 + digit;
  num_u_chars = l.num_u_chars + 1;
}

pub unicode_digit : Option ℕ → Literal → Round
unfolding end_unicode
unicode_digit none l =
    fail (make_error_token l.scanner "Invalid character in Unicode escape") l.scanner
unicode_digit (some digit) l =
    let l' = add_digit digit l in
    if l'.num_u_chars == 4 then end_unicode (utf8_bytes l'.codepoint) l' else go l'

unfoldable pub unicode_char : ℕ → Literal → Round
unfolding hex_value unicode_digit
unicode_char cp l = unicode_digit (hex_value cp) l

-- the `switch (mode)`
unfoldable pub string_char : SsMode → ℕ → Bool → ℕ → Literal → Round
unfolding scan_char escape_char unicode_char
string_char SsMode.scan delimiter f_string cp l = scan_char delimiter f_string cp l
string_char SsMode.escape delimiter f_string cp l = escape_char cp l
string_char SsMode.unicode delimiter f_string cp l = unicode_char cp l

-- the rest of a round, after the code point has been read
pub after_read : ℕ → Bool → Literal → Option (ℕ × Scanner) → Option Round
unfolding string_char
after_read delimiter f_string l none = none
after_read delimiter f_string l (some (cp, s)) =
    some (string_char l.mode delimiter f_string cp (record l { scanner = s }))

unfoldable pub string_round : ℕ → Bool → Literal → Option Round
unfolding after_read
string_round delimiter f_string l =
    if is_at_end l.scanner
    then some (fail (make_error_token l.scanner "Unterminated string") l.scanner)
    else after_read delimiter f_string l (utf8_advance l.scanner)

-- `while (!complete)`, where `k` is the next round
pub while_incomplete : (Literal → Option Round) → Option Round → Option Round
while_incomplete k none = none
while_incomplete k (some (fail t s)) = some (fail t s)
while_incomplete k (some (go l)) = if l.complete then some (go l) else k l

unfoldable pub string_loop : ℕ → ℕ → Bool → Literal → Option Round
unfolding string_round while_incomplete
string_loop zero delimiter f_string l = none
string_loop (suc fuel) delimiter f_string l =
    while_incomplete (string_loop fuel delimiter f_string) (string_round delimiter f_string l)

-- what follows the loop: the token's type, and the f-string that is closed
unfoldable pub string_type : Bool → Bool → Literal → TokenType × Scanner
unfolding crt_f_string
string_type f_string f_string_start l =
    let s = l.scanner in
    if f_string
    then if l.end_f_string
      then (
        if (crt_f_string s).has_expr then token_fstring_end else token_string,
        record s { open_f_strings = (s.open_f_strings + 255) % 256 },
      )
      else (if f_string_start then token_fstring_start else token_fstring, s)
    else (token_string, s)

pub string_token : Bool → Bool → ℕ → Round → Token × Scanner
unfolding string_type
string_token f_string f_string_start start (fail t s) = (t, s)
string_token f_string f_string_start start (go l) =
    let (type, s) = string_type f_string f_string_start l in
    (make_trimmed_token s type (l.output - start + 1), s)

abbrev pub string_start : Scanner → Literal
string_start s = record {
  scanner = s;
  output = s.current;
  mode = SsMode.scan;
  num_u_chars = 0;
  codepoint = 0;
  complete = false;
  end_f_string = false;
}

pub end_string : Bool → Bool → ℕ → Option Round → Option (Token × Scanner)
unfolding string_token
end_string f_string f_string_start start none = none
end_string f_string f_string_start start (some r) =
    some (string_token f_string f_string_start start r)

unfoldable pub string : Scanner → ℕ → Bool → Bool → Option (Token × Scanner)
unfolding end_string string_loop
string s delimiter f_string f_string_start =
    end_string f_string f_string_start s.current
      (string_loop (suc (length s.source)) delimiter f_string (string_start s))

unfoldable pub raw_string_loop : ℕ → ℕ → Scanner → Option (Token × Scanner)
raw_string_loop zero delimiter s = none
raw_string_loop (suc fuel) delimiter s =
    let rest = raw_string_loop fuel delimiter (advance s) in
    if is_at_end s
    then some (make_error_token s "Unterminated string", s)
    else if scan_peek s == delimiter
    then some (make_token (advance s) token_string, advance s)
    else rest

unfoldable pub raw_string : Scanner → ℕ → Option (Token × Scanner)
unfolding raw_string_loop
raw_string s delimiter = raw_string_loop (suc (length s.source)) delimiter s

unfoldable pub f_string : Scanner → ℕ → Option (Token × Scanner)
f_string s delimiter =
    if leb max_interp_depth s.open_f_strings
    then some (make_error_token s "Interpolation nesting limit exceeded", s)
    else string
        (record s {
          f_strings =
              set s.f_strings s.open_f_strings
                (record { delim = delimiter; has_expr = false; open_braces = 0 });
          open_f_strings = (s.open_f_strings + 1) % 256;
        })
        delimiter true true
