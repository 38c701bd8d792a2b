-- ===== src/Scanner/State.antt =====
-- The scanner's state and its primitive moves, elox/lib/scanner.c.
-- The pointers are offsets into the buffer; a read past the buffer's end gives 0.
use slox.Prelude.{
  ℕ, ◌+◌, ◌-◌, Bool, false, not, ◌&&◌, List, replicate, get_or, take, drop, ◌==◌, if◌then◌else◌,
}
use slox.Scanner.Token.{TokenType, token_error, Token, slice, message}
use Prim.Native.String.{String}

abbrev pub max_interp_depth : ℕ
max_interp_depth = 8

pub record FString : Type 0 where
  pub delim : ℕ
  pub has_expr : Bool
  pub open_braces : ℕ

pub record Scanner : Type 0 where
  pub source : List ℕ
  pub start : ℕ
  pub current : ℕ
  pub line : ℕ
  pub open_f_strings : ℕ
  pub f_strings : List FString

abbrev pub no_f_string : FString
no_f_string = record { delim = 0; has_expr = false; open_braces = 0 }

-- `initScanner`, on a zeroed structure
abbrev pub init_scanner : List ℕ → Scanner
init_scanner source = record {
  source = source;
  start = 0;
  current = 0;
  line = 1;
  open_f_strings = 0;
  f_strings = replicate max_interp_depth no_f_string;
}

unfoldable pub scan_peek : Scanner → ℕ
scan_peek s = get_or s.source s.current 0

unfoldable pub is_at_end : Scanner → Bool
unfolding scan_peek
is_at_end s = scan_peek s == 0

unfoldable pub scan_look_back : Scanner → ℕ
scan_look_back s = get_or s.source (s.current - 1) 0

unfoldable pub scan_peek_next : Scanner → ℕ
unfolding is_at_end
scan_peek_next s = if is_at_end s then 0 else get_or s.source (s.current + 1) 0

-- `advance` without its result, which is the byte that `scan_peek` shows before it
abbrev pub advance : Scanner → Scanner
advance s = record s { current = s.current + 1 }

-- `advanceIfMatch`: the test, and then the scanner after a match
unfoldable pub matches : Scanner → ℕ → Bool
unfolding is_at_end
matches s expected = not (is_at_end s) && scan_peek s == expected

-- the test of `advanceIfMatch2`; without a match the scanner is where it was
unfoldable pub matches2 : Scanner → ℕ → ℕ → Bool
unfolding matches
matches2 s xa xb = matches s xa && matches (advance s) xb

unfoldable pub make_token : Scanner → TokenType → Token
make_token s type = record {
  text = slice s.start (s.current - s.start);
  type = type;
  line = s.line;
}

unfoldable pub make_trimmed_token : Scanner → TokenType → ℕ → Token
make_trimmed_token s type len = record { text = slice s.start len; type = type; line = s.line }

unfoldable pub make_error_token : Scanner → String → Token
make_error_token s text = record { text = message text; type = token_error; line = s.line }

-- the bytes from `start` to `current`
abbrev pub lexeme : Scanner → List ℕ
lexeme s = take (s.current - s.start) (drop s.start s.source)
