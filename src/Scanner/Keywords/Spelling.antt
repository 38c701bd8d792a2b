-- ===== src/Scanner/Keywords/Spelling.antt =====
-- The keywords of the language as a table, against the decision tree of `identifierType`.
use slox.Prelude.{
  ℕ, ◌+◌, zero, suc, true, ◌&&◌, List, [], ◌∷◌, Option, none, some, ◌≡◌, refl, sym, ap, ◌∙◌, ◌⊎◌,
  inl, inr, ◌↔◌, ◌≢◌, arith, length, take, drop, bytes, bytes_equal, bytes_equal_sound, ◌==◌,
  if◌then◌else◌, Bool-cases, ==_iff,
}
use slox.Scanner.Token
use slox.Scanner.Token.{TokenType, token_identifier, token_and}
use slox.Scanner.Keywords.{
  check_keyword, keyword_a, keyword_c, keyword_e, keyword_for, keyword_fo, keyword_f, keyword_im,
  keyword_in, keyword_i, keyword_th, keyword_tr, keyword_t, identifier_type,
}

-- the text of a keyword; `none` for the tokens that are not keywords
abbrev pub spelling : TokenType → Option (List ℕ)
spelling Token.token_and = some (bytes "and")
spelling Token.token_break = some (bytes "break")
spelling Token.token_catch = some (bytes "catch")
spelling Token.token_continue = some (bytes "continue")
spelling Token.token_class = some (bytes "class")
spelling Token.token_else = some (bytes "else")
spelling Token.token_extends = some (bytes "extends")
spelling Token.token_false = some (bytes "false")
spelling Token.token_finally = some (bytes "finally")
spelling Token.token_for = some (bytes "for")
spelling Token.token_foreach = some (bytes "foreach")
spelling Token.token_from = some (bytes "from")
spelling Token.token_function = some (bytes "function")
spelling Token.token_if = some (bytes "if")
spelling Token.token_implements = some (bytes "implements")
spelling Token.token_import = some (bytes "import")
spelling Token.token_in = some (bytes "in")
spelling Token.token_instanceof = some (bytes "instanceof")
spelling Token.token_interface = some (bytes "interface")
spelling Token.token_nil = some (bytes "nil")
spelling Token.token_or = some (bytes "or")
spelling Token.token_return = some (bytes "return")
spelling Token.token_super = some (bytes "super")
spelling Token.token_this = some (bytes "this")
spelling Token.token_throw = some (bytes "throw")
spelling Token.token_true = some (bytes "true")
spelling Token.token_try = some (bytes "try")
spelling Token.token_while = some (bytes "while")
spelling Token.token_abstract = some (bytes "abstract")
spelling Token.token_global = some (bytes "global")
spelling Token.token_local = some (bytes "local")
spelling _ = none

-- `t` is no keyword, or the one that `lex` spells
abbrev Spells : List ℕ → TokenType → Type 0
Spells lex t = (t ≡ token_identifier) ⊎ (spelling t ≡ some lex)

take_all : (xs : List ℕ) (n : ℕ) → length xs ≡ n → take n xs ≡ xs
take_all [] zero h = refl
take_all [] (suc n) h = refl
take_all (x ∷ xs) zero h = absurd (omega arith)
take_all (x ∷ xs) (suc n) h = ap (◌∷◌ x) (take_all xs n (omega arith))

length-drop_eq : (xs : List ℕ) (k n : ℕ) → length xs ≡ k + n → length (drop k xs) ≡ n
length-drop_eq xs zero n h = omega arith
length-drop_eq [] (suc k) n h = omega arith
length-drop_eq (x ∷ xs) (suc k) n h = length-drop_eq xs k n (omega arith)

-- A leaf of the tree gives its keyword only where all bytes from `start` on are the expected ones.
check_keyword-cases :
    (lex : List ℕ) (start len : ℕ) (rest : List ℕ) (t : TokenType)
    → (check_keyword lex start len rest t ≡ token_identifier)
      ⊎ ((check_keyword lex start len rest t ≡ t) × (drop start lex ≡ rest))
unfolding check_keyword
check_keyword-cases lex start len rest t =
    elim (Bool-cases (length lex == start + len && bytes_equal (take len (drop start lex)) rest)) [
      | inr e ↦ inl (rw e)
      | inl e ↦
          let n : length lex ≡ start + len = ground arith in
          let b : bytes_equal (take len (drop start lex)) rest ≡ true = ground arith in
          inr (
            rw e,
            sym (take_all (drop start lex) len (length-drop_eq lex start len n))
                ∙ bytes_equal_sound _ rest b,
          )
    ]

keyword_a-Spells : (r : List ℕ) → Spells (b'a' ∷ r) (keyword_a (b'a' ∷ r))
unfolding keyword_a
keyword_a-Spells [] = ground (
  arith,
  check_keyword-cases (b'a' ∷ []) 2 6 (bytes "stract") Token.token_abstract,
  check_keyword-cases (b'a' ∷ []) 2 1 (bytes "d") Token.token_and,
)
keyword_a-Spells (b ∷ r) = ground (
  arith,
  check_keyword-cases (b'a' ∷ b ∷ r) 2 6 (bytes "stract") Token.token_abstract,
  check_keyword-cases (b'a' ∷ b ∷ r) 2 1 (bytes "d") Token.token_and,
)

keyword_c-Spells : (r : List ℕ) → Spells (b'c' ∷ r) (keyword_c (b'c' ∷ r))
unfolding keyword_c
keyword_c-Spells [] = ground (
  arith,
  check_keyword-cases (b'c' ∷ []) 2 3 (bytes "tch") Token.token_catch,
  check_keyword-cases (b'c' ∷ []) 2 3 (bytes "ass") Token.token_class,
  check_keyword-cases (b'c' ∷ []) 2 6 (bytes "ntinue") Token.token_continue,
)
keyword_c-Spells (b ∷ r) = ground (
  arith,
  check_keyword-cases (b'c' ∷ b ∷ r) 2 3 (bytes "tch") Token.token_catch,
  check_keyword-cases (b'c' ∷ b ∷ r) 2 3 (bytes "ass") Token.token_class,
  check_keyword-cases (b'c' ∷ b ∷ r) 2 6 (bytes "ntinue") Token.token_continue,
)

keyword_e-Spells : (r : List ℕ) → Spells (b'e' ∷ r) (keyword_e (b'e' ∷ r))
unfolding keyword_e
keyword_e-Spells [] = ground (
  arith,
  check_keyword-cases (b'e' ∷ []) 2 2 (bytes "se") Token.token_else,
  check_keyword-cases (b'e' ∷ []) 2 5 (bytes "tends") Token.token_extends,
)
keyword_e-Spells (b ∷ r) = ground (
  arith,
  check_keyword-cases (b'e' ∷ b ∷ r) 2 2 (bytes "se") Token.token_else,
  check_keyword-cases (b'e' ∷ b ∷ r) 2 5 (bytes "tends") Token.token_extends,
)

keyword_for-Spells :
    (r : List ℕ) → Spells (b'f' ∷ b'o' ∷ b'r' ∷ r) (keyword_for (b'f' ∷ b'o' ∷ b'r' ∷ r))
unfolding keyword_for
keyword_for-Spells [] = ground (
  arith,
  check_keyword-cases (b'f' ∷ b'o' ∷ b'r' ∷ []) 3 4 (bytes "each") Token.token_foreach,
  check_keyword-cases (b'f' ∷ b'o' ∷ b'r' ∷ []) 3 0 (bytes "") Token.token_for,
)
keyword_for-Spells (b ∷ r) = ground (
  arith,
  check_keyword-cases (b'f' ∷ b'o' ∷ b'r' ∷ b ∷ r) 3 4 (bytes "each") Token.token_foreach,
  check_keyword-cases (b'f' ∷ b'o' ∷ b'r' ∷ b ∷ r) 3 0 (bytes "") Token.token_for,
)

keyword_fo-Spells : (r : List ℕ) → Spells (b'f' ∷ b'o' ∷ r) (keyword_fo (b'f' ∷ b'o' ∷ r))
unfolding keyword_fo
keyword_fo-Spells [] = ground (
  arith,
  check_keyword-cases (b'f' ∷ b'o' ∷ []) 2 1 (bytes "r") Token.token_for,
  keyword_for-Spells [],
)
keyword_fo-Spells (b ∷ r) = ground (
  arith,
  check_keyword-cases (b'f' ∷ b'o' ∷ b ∷ r) 2 1 (bytes "r") Token.token_for,
  keyword_for-Spells r,
)

keyword_f-Spells : (r : List ℕ) → Spells (b'f' ∷ r) (keyword_f (b'f' ∷ r))
unfolding keyword_f
keyword_f-Spells [] = ground (
  arith,
  check_keyword-cases (b'f' ∷ []) 2 3 (bytes "lse") Token.token_false,
  check_keyword-cases (b'f' ∷ []) 2 5 (bytes "nally") Token.token_finally,
  check_keyword-cases (b'f' ∷ []) 2 2 (bytes "om") Token.token_from,
  check_keyword-cases (b'f' ∷ []) 2 6 (bytes "nction") Token.token_function,
  keyword_fo-Spells [],
)
keyword_f-Spells (b ∷ r) = ground (
  arith,
  check_keyword-cases (b'f' ∷ b ∷ r) 2 3 (bytes "lse") Token.token_false,
  check_keyword-cases (b'f' ∷ b ∷ r) 2 5 (bytes "nally") Token.token_finally,
  check_keyword-cases (b'f' ∷ b ∷ r) 2 2 (bytes "om") Token.token_from,
  check_keyword-cases (b'f' ∷ b ∷ r) 2 6 (bytes "nction") Token.token_function,
  keyword_fo-Spells r,
)

keyword_im-Spells : (r : List ℕ) → Spells (b'i' ∷ b'm' ∷ r) (keyword_im (b'i' ∷ b'm' ∷ r))
unfolding keyword_im
keyword_im-Spells [] = ground (
  arith,
  check_keyword-cases (b'i' ∷ b'm' ∷ []) 3 3 (bytes "ort") Token.token_import,
  check_keyword-cases (b'i' ∷ b'm' ∷ []) 3 7 (bytes "lements") Token.token_implements,
)
keyword_im-Spells (b ∷ []) = ground (
  arith,
  check_keyword-cases (b'i' ∷ b'm' ∷ (b ∷ [])) 3 3 (bytes "ort") Token.token_import,
  check_keyword-cases (b'i' ∷ b'm' ∷ (b ∷ [])) 3 7 (bytes "lements") Token.token_implements,
)
keyword_im-Spells (b ∷ d ∷ r) = ground (
  arith,
  check_keyword-cases (b'i' ∷ b'm' ∷ b ∷ d ∷ r) 3 3 (bytes "ort") Token.token_import,
  check_keyword-cases (b'i' ∷ b'm' ∷ b ∷ d ∷ r) 3 7 (bytes "lements") Token.token_implements,
)

keyword_in-Spells : (r : List ℕ) → Spells (b'i' ∷ b'n' ∷ r) (keyword_in (b'i' ∷ b'n' ∷ r))
unfolding keyword_in
keyword_in-Spells [] = ground (
  arith,
  check_keyword-cases (b'i' ∷ b'n' ∷ []) 2 8 (bytes "stanceof") Token.token_instanceof,
  check_keyword-cases (b'i' ∷ b'n' ∷ []) 2 7 (bytes "terface") Token.token_interface,
  check_keyword-cases (b'i' ∷ b'n' ∷ []) 2 0 (bytes "") Token.token_in,
)
keyword_in-Spells (b ∷ r) = ground (
  arith,
  check_keyword-cases (b'i' ∷ b'n' ∷ b ∷ r) 2 8 (bytes "stanceof") Token.token_instanceof,
  check_keyword-cases (b'i' ∷ b'n' ∷ b ∷ r) 2 7 (bytes "terface") Token.token_interface,
  check_keyword-cases (b'i' ∷ b'n' ∷ b ∷ r) 2 0 (bytes "") Token.token_in,
)

keyword_i-Spells : (r : List ℕ) → Spells (b'i' ∷ r) (keyword_i (b'i' ∷ r))
unfolding keyword_i
keyword_i-Spells [] = ground (
  arith,
  check_keyword-cases (b'i' ∷ []) 2 0 (bytes "") Token.token_if,
  keyword_im-Spells [],
  keyword_in-Spells [],
)
keyword_i-Spells (b ∷ r) = ground (
  arith,
  check_keyword-cases (b'i' ∷ b ∷ r) 2 0 (bytes "") Token.token_if,
  keyword_im-Spells r,
  keyword_in-Spells r,
)

keyword_th-Spells : (r : List ℕ) → Spells (b't' ∷ b'h' ∷ r) (keyword_th (b't' ∷ b'h' ∷ r))
unfolding keyword_th
keyword_th-Spells [] = ground (
  arith,
  check_keyword-cases (b't' ∷ b'h' ∷ []) 3 1 (bytes "s") Token.token_this,
  check_keyword-cases (b't' ∷ b'h' ∷ []) 3 2 (bytes "ow") Token.token_throw,
)
keyword_th-Spells (b ∷ r) = ground (
  arith,
  check_keyword-cases (b't' ∷ b'h' ∷ b ∷ r) 3 1 (bytes "s") Token.token_this,
  check_keyword-cases (b't' ∷ b'h' ∷ b ∷ r) 3 2 (bytes "ow") Token.token_throw,
)

keyword_tr-Spells : (r : List ℕ) → Spells (b't' ∷ b'r' ∷ r) (keyword_tr (b't' ∷ b'r' ∷ r))
unfolding keyword_tr
keyword_tr-Spells [] = ground (
  arith,
  check_keyword-cases (b't' ∷ b'r' ∷ []) 3 1 (bytes "e") Token.token_true,
  check_keyword-cases (b't' ∷ b'r' ∷ []) 3 0 (bytes "") Token.token_try,
)
keyword_tr-Spells (b ∷ r) = ground (
  arith,
  check_keyword-cases (b't' ∷ b'r' ∷ b ∷ r) 3 1 (bytes "e") Token.token_true,
  check_keyword-cases (b't' ∷ b'r' ∷ b ∷ r) 3 0 (bytes "") Token.token_try,
)

keyword_t-Spells : (r : List ℕ) → Spells (b't' ∷ r) (keyword_t (b't' ∷ r))
unfolding keyword_t
keyword_t-Spells [] = ground (arith, keyword_th-Spells [], keyword_tr-Spells [])
keyword_t-Spells (b ∷ r) = ground (arith, keyword_th-Spells r, keyword_tr-Spells r)

module _ (c : ℕ) (r : List ℕ) where
  Spells_if :
      (k : ℕ) (f : List ℕ → TokenType) (u : TokenType)
      → Spells (k ∷ r) (f (k ∷ r))
      → Spells (c ∷ r) u
      → Spells (c ∷ r) (if c == k then f (c ∷ r) else u)
  Spells_if k f u yes_k no_k = elim (Bool-cases (c == k)) [
    | inl e ↦ rw (e, (==_iff c k).0 e) yes_k
    | inr e ↦ rw e no_k
  ]

check_keyword-Spells :
    (k : ℕ) (r : List ℕ) (len : ℕ) (rest : List ℕ) (t : TokenType)
    → spelling t ≡ some (k ∷ rest)
    → Spells (k ∷ r) (check_keyword (k ∷ r) 1 len rest t)
check_keyword-Spells k r len rest t s = elim (check_keyword-cases (k ∷ r) 1 len rest t) [
  | inl e ↦ inl e
  | inr e ↦ inr (rw (e.0, e.1) s)
]

-- Whatever the lexeme, its type is that of an identifier or of the keyword that it spells.
identifier_type-Spells : (lex : List ℕ) → Spells lex (identifier_type lex)
unfolding identifier_type
identifier_type-Spells [] = inl refl
identifier_type-Spells (c ∷ r) = Spells_if c r b'a' keyword_a _ (keyword_a-Spells r) (
    Spells_if c r b'b' (λ x. check_keyword x 1 4 (bytes "reak") Token.token_break) _
      (check_keyword-Spells b'b' r 4 (bytes "reak") Token.token_break refl)
      (Spells_if c r b'c' keyword_c _ (keyword_c-Spells r) (
        Spells_if c r b'e' keyword_e _ (keyword_e-Spells r) (
          Spells_if c r b'f' keyword_f _ (keyword_f-Spells r) (
            Spells_if c r b'g' (λ x. check_keyword x 1 5 (bytes "lobal") Token.token_global) _
              (check_keyword-Spells b'g' r 5 (bytes "lobal") Token.token_global refl)
              (Spells_if c r b'i' keyword_i _ (keyword_i-Spells r) (
                Spells_if c r b'l' (λ x. check_keyword x 1 4 (bytes "ocal") Token.token_local) _
                  (check_keyword-Spells b'l' r 4 (bytes "ocal") Token.token_local refl)
                  (Spells_if c r b'n' (λ x. check_keyword x 1 2 (bytes "il") Token.token_nil) _
                    (check_keyword-Spells b'n' r 2 (bytes "il") Token.token_nil refl)
                    (Spells_if c r b'o' (λ x. check_keyword x 1 1 (bytes "r") Token.token_or) _
                      (check_keyword-Spells b'o' r 1 (bytes "r") Token.token_or refl)
                      (Spells_if c r b'r'
                        (λ x. check_keyword x 1 5 (bytes "eturn") Token.token_return) _
                        (check_keyword-Spells b'r' r 5 (bytes "eturn") Token.token_return refl)
                        (Spells_if c r b's'
                          (λ x. check_keyword x 1 4 (bytes "uper") Token.token_super) _
                          (check_keyword-Spells b's' r 4 (bytes "uper") Token.token_super refl)
                          (Spells_if c r b't' keyword_t _ (keyword_t-Spells r) (
                            Spells_if c r b'w'
                              (λ x. check_keyword x 1 4 (bytes "hile") Token.token_while) _
                              (check_keyword-Spells b'w' r 4 (bytes "hile") Token.token_while refl)
                              (inl refl))))))))))))))

spelled :
    (t : TokenType) (a k : List ℕ) → some a ≡ some k → identifier_type a ≡ t → identifier_type k ≡ t
spelled t a k h e = let d : a ≡ k = cc in rw d at e

-- Every keyword is recognised.
identifier_type-spelling :
    (t : TokenType) (k : List ℕ) → spelling t ≡ some k → identifier_type k ≡ t
unfolding identifier_type keyword_a keyword_c keyword_e keyword_f keyword_fo keyword_for keyword_i
    keyword_im keyword_in keyword_t keyword_th keyword_tr check_keyword bytes_equal
identifier_type-spelling Token.token_and k h = spelled Token.token_and (bytes "and") k h refl
identifier_type-spelling Token.token_break k h = spelled Token.token_break (bytes "break") k h refl
identifier_type-spelling Token.token_catch k h = spelled Token.token_catch (bytes "catch") k h refl
identifier_type-spelling Token.token_continue k h =
    spelled Token.token_continue (bytes "continue") k h refl
identifier_type-spelling Token.token_class k h = spelled Token.token_class (bytes "class") k h refl
identifier_type-spelling Token.token_else k h = spelled Token.token_else (bytes "else") k h refl
identifier_type-spelling Token.token_extends k h =
    spelled Token.token_extends (bytes "extends") k h refl
identifier_type-spelling Token.token_false k h = spelled Token.token_false (bytes "false") k h refl
identifier_type-spelling Token.token_finally k h =
    spelled Token.token_finally (bytes "finally") k h refl
identifier_type-spelling Token.token_for k h = spelled Token.token_for (bytes "for") k h refl
identifier_type-spelling Token.token_foreach k h =
    spelled Token.token_foreach (bytes "foreach") k h refl
identifier_type-spelling Token.token_from k h = spelled Token.token_from (bytes "from") k h refl
identifier_type-spelling Token.token_function k h =
    spelled Token.token_function (bytes "function") k h refl
identifier_type-spelling Token.token_if k h = spelled Token.token_if (bytes "if") k h refl
identifier_type-spelling Token.token_implements k h =
    spelled Token.token_implements (bytes "implements") k h refl
identifier_type-spelling Token.token_import k h =
    spelled Token.token_import (bytes "import") k h refl
identifier_type-spelling Token.token_in k h = spelled Token.token_in (bytes "in") k h refl
identifier_type-spelling Token.token_instanceof k h =
    spelled Token.token_instanceof (bytes "instanceof") k h refl
identifier_type-spelling Token.token_interface k h =
    spelled Token.token_interface (bytes "interface") k h refl
identifier_type-spelling Token.token_nil k h = spelled Token.token_nil (bytes "nil") k h refl
identifier_type-spelling Token.token_or k h = spelled Token.token_or (bytes "or") k h refl
identifier_type-spelling Token.token_return k h =
    spelled Token.token_return (bytes "return") k h refl
identifier_type-spelling Token.token_super k h = spelled Token.token_super (bytes "super") k h refl
identifier_type-spelling Token.token_this k h = spelled Token.token_this (bytes "this") k h refl
identifier_type-spelling Token.token_throw k h = spelled Token.token_throw (bytes "throw") k h refl
identifier_type-spelling Token.token_true k h = spelled Token.token_true (bytes "true") k h refl
identifier_type-spelling Token.token_try k h = spelled Token.token_try (bytes "try") k h refl
identifier_type-spelling Token.token_while k h = spelled Token.token_while (bytes "while") k h refl
identifier_type-spelling Token.token_abstract k h =
    spelled Token.token_abstract (bytes "abstract") k h refl
identifier_type-spelling Token.token_global k h =
    spelled Token.token_global (bytes "global") k h refl
identifier_type-spelling Token.token_local k h = spelled Token.token_local (bytes "local") k h refl
identifier_type-spelling _ k h = cc

-- For every lexeme and every keyword token, the scanner's decision tree answers that token exactly
-- when the lexeme is the keyword's text.
pub identifier_type_iff :
    (lex : List ℕ) (t : TokenType)
    → t ≢ token_identifier
    → (identifier_type lex ≡ t) ↔ (spelling t ≡ some lex)
identifier_type_iff lex t n = (
  λ e. elim (identifier_type-Spells lex) [ inl i ↦ absurd (n (sym e ∙ i)) | inr s ↦ rw e at s ],
  identifier_type-spelling t lex,
)
