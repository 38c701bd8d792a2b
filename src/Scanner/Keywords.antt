-- ===== src/Scanner/Keywords.antt =====
-- `identifierType` of elox/lib/scanner.c, on the bytes between `start` and `current`. Each letter
-- of the outer `switch` that has an inner one is a function of its own.
pub mod Spelling
use slox.Prelude.{
  ℕ, ◌+◌, ◌&&◌, List, length, get_or, take, drop, bytes, bytes_equal, ltb, ◌==◌, if◌then◌else◌,
}
use slox.Scanner.Token.{
  TokenType, token_identifier, token_and, token_break, token_catch, token_continue, token_class,
  token_else, token_extends, token_false, token_finally, token_for, token_foreach, token_from,
  token_function, token_if, token_implements, token_import, token_in, token_instanceof,
  token_interface, token_nil, token_or, token_return, token_super, token_this, token_throw,
  token_true, token_try, token_while, token_abstract, token_global, token_local,
}

-- `checkKeyword(scanner, start, length, rest, type)`
unfoldable pub check_keyword : List ℕ → ℕ → ℕ → List ℕ → TokenType → TokenType
check_keyword lex start len rest type =
    if length lex == start + len && bytes_equal (take len (drop start lex)) rest
    then type
    else token_identifier

-- `start[i]`
abbrev pub letter : List ℕ → ℕ → ℕ
letter lex i = get_or lex i 0

unfoldable pub keyword_a : List ℕ → TokenType
keyword_a lex =
    if ltb 1 (length lex)
    then if letter lex 1 == b'b'
      then check_keyword lex 2 6 (bytes "stract") token_abstract
      else if letter lex 1 == b'n'
      then check_keyword lex 2 1 (bytes "d") token_and
      else token_identifier
    else token_identifier

unfoldable pub keyword_c : List ℕ → TokenType
keyword_c lex =
    if ltb 1 (length lex)
    then if letter lex 1 == b'a'
      then check_keyword lex 2 3 (bytes "tch") token_catch
      else if letter lex 1 == b'l'
      then check_keyword lex 2 3 (bytes "ass") token_class
      else if letter lex 1 == b'o'
      then check_keyword lex 2 6 (bytes "ntinue") token_continue
      else token_identifier
    else token_identifier

unfoldable pub keyword_e : List ℕ → TokenType
keyword_e lex =
    if ltb 1 (length lex)
    then if letter lex 1 == b'l'
      then check_keyword lex 2 2 (bytes "se") token_else
      else if letter lex 1 == b'x'
      then check_keyword lex 2 5 (bytes "tends") token_extends
      else token_identifier
    else token_identifier

-- after `for`
unfoldable pub keyword_for : List ℕ → TokenType
keyword_for lex =
    if ltb 3 (length lex)
    then if letter lex 3 == b'e'
      then check_keyword lex 3 4 (bytes "each") token_foreach
      else check_keyword lex 3 0 (bytes "") token_for
    else check_keyword lex 3 0 (bytes "") token_for

-- after `fo`
unfoldable pub keyword_fo : List ℕ → TokenType
keyword_fo lex =
    if ltb 2 (length lex) && letter lex 2 == b'r'
    then keyword_for lex
    else check_keyword lex 2 1 (bytes "r") token_for

unfoldable pub keyword_f : List ℕ → TokenType
keyword_f lex =
    if ltb 1 (length lex)
    then if letter lex 1 == b'a'
      then check_keyword lex 2 3 (bytes "lse") token_false
      else if letter lex 1 == b'i'
      then check_keyword lex 2 5 (bytes "nally") token_finally
      else if letter lex 1 == b'o'
      then keyword_fo lex
      else if letter lex 1 == b'r'
      then check_keyword lex 2 2 (bytes "om") token_from
      else if letter lex 1 == b'u'
      then check_keyword lex 2 6 (bytes "nction") token_function
      else token_identifier
    else token_identifier

-- after `im`
unfoldable pub keyword_im : List ℕ → TokenType
keyword_im lex =
    if ltb 2 (length lex) && letter lex 2 == b'p' && ltb 3 (length lex)
    then if letter lex 3 == b'o'
      then check_keyword lex 3 3 (bytes "ort") token_import
      else check_keyword lex 3 7 (bytes "lements") token_implements
    else token_identifier

-- after `in`
unfoldable pub keyword_in : List ℕ → TokenType
keyword_in lex =
    if ltb 2 (length lex)
    then if letter lex 2 == b's'
      then check_keyword lex 2 8 (bytes "stanceof") token_instanceof
      else if letter lex 2 == b't'
      then check_keyword lex 2 7 (bytes "terface") token_interface
      else check_keyword lex 2 0 (bytes "") token_in
    else check_keyword lex 2 0 (bytes "") token_in

unfoldable pub keyword_i : List ℕ → TokenType
keyword_i lex =
    if ltb 1 (length lex)
    then if letter lex 1 == b'f'
      then check_keyword lex 2 0 (bytes "") token_if
      else if letter lex 1 == b'm'
      then keyword_im lex
      else if letter lex 1 == b'n'
      then keyword_in lex
      else token_identifier
    else token_identifier

-- after `th`
unfoldable pub keyword_th : List ℕ → TokenType
keyword_th lex =
    if ltb 2 (length lex)
    then if letter lex 2 == b'i'
      then check_keyword lex 3 1 (bytes "s") token_this
      else if letter lex 2 == b'r'
      then check_keyword lex 3 2 (bytes "ow") token_throw
      else token_identifier
    else token_identifier

-- after `tr`
unfoldable pub keyword_tr : List ℕ → TokenType
keyword_tr lex =
    if ltb 2 (length lex)
    then if letter lex 2 == b'u'
      then check_keyword lex 3 1 (bytes "e") token_true
      else if letter lex 2 == b'y'
      then check_keyword lex 3 0 (bytes "") token_try
      else token_identifier
    else token_identifier

unfoldable pub keyword_t : List ℕ → TokenType
keyword_t lex =
    if ltb 1 (length lex)
    then if letter lex 1 == b'h'
      then keyword_th lex
      else if letter lex 1 == b'r'
      then keyword_tr lex
      else token_identifier
    else token_identifier

unfoldable pub identifier_type : List ℕ → TokenType
identifier_type lex =
    let c = letter lex 0 in
    if c == b'a'
    then keyword_a lex
    else if c == b'b'
    then check_keyword lex 1 4 (bytes "reak") token_break
    else if c == b'c'
    then keyword_c lex
    else if c == b'e'
    then keyword_e lex
    else if c == b'f'
    then keyword_f lex
    else if c == b'g'
    then check_keyword lex 1 5 (bytes "lobal") token_global
    else if c == b'i'
    then keyword_i lex
    else if c == b'l'
    then check_keyword lex 1 4 (bytes "ocal") token_local
    else if c == b'n'
    then check_keyword lex 1 2 (bytes "il") token_nil
    else if c == b'o'
    then check_keyword lex 1 1 (bytes "r") token_or
    else if c == b'r'
    then check_keyword lex 1 5 (bytes "eturn") token_return
    else if c == b's'
    then check_keyword lex 1 4 (bytes "uper") token_super
    else if c == b't'
    then keyword_t lex
    else if c == b'w'
    then check_keyword lex 1 4 (bytes "hile") token_while
    else token_identifier
