-- ===== src/Scanner/Token.antt =====
-- Tokens, elox/include/elox/scanner.h.
use slox.Prelude.{ℕ}
use Prim.Native.String.{String}

pub data TokenType : Type 0 where
  token_left_paren token_right_paren token_left_brace token_right_brace : TokenType
  token_left_bracket token_right_bracket : TokenType
  token_colon token_double_colon token_comma token_dot token_dot_dot token_ellipsis : TokenType
  token_minus token_percent token_plus token_semicolon token_slash token_star : TokenType
  token_bang token_bang_equal token_equal token_equal_equal token_colon_equal : TokenType
  token_greater token_greater_equal token_less token_less_equal : TokenType
  token_plus_equal token_minus_equal token_slash_equal token_star_equal : TokenType
  token_percent_equal : TokenType
  token_identifier token_string token_number : TokenType
  token_fstring_start token_fstring token_fstring_end : TokenType
  token_and token_break token_catch token_continue token_class token_else token_extends : TokenType
  token_false token_finally token_for token_foreach token_from token_function token_if : TokenType
  token_implements token_import token_in token_instanceof token_interface token_nil : TokenType
  token_or token_return token_super token_this token_throw token_true token_try : TokenType
  token_while token_abstract token_global token_local token_error token_eof : TokenType

-- `token.string`: a piece of the source buffer (offset and length), or the text of an error.
pub data TokenText : Type 0 where
  slice : ℕ → ℕ → TokenText
  message : String → TokenText

pub record Token : Type 0 where
  pub text : TokenText
  pub type : TokenType
  pub line : ℕ
