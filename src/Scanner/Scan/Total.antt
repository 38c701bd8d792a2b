-- ===== src/Scanner/Scan/Total.antt =====
-- What `scanToken` of elox/lib/scanner.c does to the buffer and its place in it.
use slox.Prelude.{
  ℕ, ◌+◌, ◌-◌, ◌≤◌, ◌<◌, ◌%◌, ◌^◌, Bool, true, false, ◌&&◌, ◌||◌, Option, some, ◌≡◌, ◌≢◌, refl, ◌⊎◌,
  inl, inr, arith, ltb, ◌==◌, if◌then◌else◌, Bool-cases,
}
use slox.Scanner.Literals.Strings.{string-Scans, raw_string-Scans, f_string-Scans}
use slox.Scanner.Literals.{
  identifier, in_identifier, number, number_end, fraction, advance_while, raw_string, f_string,
  crt_f_string, set_crt_f_string,
}
use slox.Scanner.Moves.{
  Within, Moves, Moves-trans, Moves-to, Within-after, Within-Advanced, advance-Within, at_end_iff,
  Advanced, Advanced-self, Advanced-trans, Advanced-Moves, advance-Advanced, while-Advanced,
}
use slox.Scanner.Scan.{
  one_or_two, scan_word, right_brace, scan_colon, scan_dot, scan_operator, scan_punctuation,
  scan_first, after_whitespace, scan_token,
}
use slox.Scanner.Scanned.{Scanned, Scans, Scans-after, make_token-Scans, make_error_token-Scans}
use slox.Scanner.State.{
  Scanner, FString, scan_peek, scan_peek_next, scan_look_back, is_at_end, advance, matches,
  matches2, make_token, make_error_token,
}
use slox.Scanner.Token
use slox.Scanner.Token.{Token, TokenType, token_number, token_eof}
use slox.Scanner.Whitespace.Progress.{skip_whitespace-Leaves}
use slox.Text.Ctype.{is_alpha, is_digit, is_hex}

not_nul : (class : ℕ → Bool) → class 0 ≡ false → (c : ℕ) → class c ≡ true → c ≢ 0
not_nul class z c h e = let k : class 0 ≡ true = rw e at h in cc

module _ {n : ℕ} {s : Scanner} (w : Within n s) where
  advance_while-Advanced :
      (class : ℕ → Bool) → class 0 ≡ false → Advanced n s (advance_while class s)
  advance_while-Advanced class z =
      (while-Advanced (λ t. class (scan_peek t)) (λ t h. not_nul class z (scan_peek t) h) n s w).0

  matches-Advanced : (k : ℕ) → matches s k ≡ true → Advanced n s (advance s)
  unfolding matches
  matches-Advanced k h = advance-Advanced s.line w (omega arith) (at_end_iff s (ground arith))

is_digit_nul : is_digit 0 ≡ false
unfolding is_digit
is_digit_nul = refl

is_hex_nul : is_hex 0 ≡ false
unfolding is_hex
is_hex_nul = refl

is_alpha_nul : is_alpha 0 ≡ false
unfolding is_alpha
is_alpha_nul = refl

in_identifier_sound : (s : Scanner) → in_identifier s ≡ true → scan_peek s ≢ 0
unfolding in_identifier
in_identifier_sound s h =
    not_nul (λ c. is_alpha c || is_digit c) (rw (is_alpha_nul, is_digit_nul)) (scan_peek s) h

fraction-Advanced : (n : ℕ) (s : Scanner) → Within n s → Advanced n s (fraction s)
unfolding fraction
fraction-Advanced n s w = elim (Bool-cases (scan_peek s == b'.' && is_digit (scan_peek_next s))) [
  | inl e ↦
      let p : scan_peek s ≢ 0 = ground arith in
      let a = advance-Advanced s.line w (omega arith) p in
      rw e (Advanced-trans a (advance_while-Advanced (advance-Within w p) is_digit is_digit_nul))
  | inr e ↦ rw e (Advanced-self n s w.bound)
]

number_end-Advanced : (n : ℕ) (s : Scanner) → Within n s → Advanced n s (number_end s)
unfolding number_end
number_end-Advanced n s w =
    elim (Bool-cases (scan_look_back s == b'0' && (scan_peek s == b'x' || scan_peek s == b'X'))) [
      | inl e ↦
          let p : scan_peek s ≢ 0 = ground arith in
          let a = advance-Advanced s.line w (omega arith) p in
          rw e (Advanced-trans a (advance_while-Advanced (advance-Within w p) is_hex is_hex_nul))
      | inr e ↦
          let a = advance_while-Advanced w is_digit is_digit_nul in
          rw e (Advanced-trans a (fraction-Advanced n _ (Within-Advanced w a)))
    ]

if-Scans :
    {n : ℕ} {s : Scanner} {x y : Option (Token × Scanner)} (b : Bool)
    → (b ≡ true → Scans n s x)
    → (b ≡ false → Scans n s y)
    → Scans n s (if b then x else y)
if-Scans true p q = p refl
if-Scans false p q = q refl

module _ (n : ℕ) (s : Scanner) (w : Within n s) (le : s.start + 1 ≤ s.current) where
  here : Moves s s
  here = Moves-to s s refl (omega arith) (omega arith)

  give-Scans : (type : TokenType) → Scans n s (some (make_token s type, s))
  give-Scans type = make_token-Scans s type here w.bound (omega arith)

  identifier-Scans : Scans n s (some (identifier s))
  unfolding identifier
  identifier-Scans =
      let a = (while-Advanced in_identifier in_identifier_sound n s w).0 in
      make_token-Scans _ _ (Advanced-Moves a) a.bound (omega (arith, a.start, a.forward))

  number-Scans : Scans n s (some (number s))
  unfolding number
  number-Scans =
      let a = number_end-Advanced n s w in
      make_token-Scans _ _ (Advanced-Moves a) a.bound (omega (arith, a.start, a.forward))

  -- after a match of one more byte
  give_next-Scans :
      (k : ℕ) (type : TokenType)
      → matches s k ≡ true
      → Scans n s (some (make_token (advance s) type, advance s))
  give_next-Scans k type h =
      let a = matches-Advanced w k h in
      make_token-Scans (advance s) type (Advanced-Moves a) a.bound (omega arith)

  one_or_two-Scans : (k : ℕ) (long short : TokenType) → Scans n s (one_or_two s k long short)
  unfolding one_or_two
  one_or_two-Scans k long short =
      if-Scans (matches s k) (give_next-Scans k long) (λ _. give-Scans short)

  -- the start of a literal with a prefix: the prefix is not part of the token
  prefixed :
      (k : ℕ) (r : Scanner → Option (Token × Scanner))
      → matches s k ≡ true
      → ((t : Scanner) → Within n t → t.start + 1 ≤ t.current → Scans n t (r t))
      → Scans n s (r (record (advance s) { start = s.start + 1 }))
  prefixed k r h scans =
      let a = matches-Advanced w k h in
      let t = record (advance s) { start = s.start + 1 } in
      let m : Moves s t = Moves-to s t refl (omega arith) (omega arith) in
      Scans-after (r t) m (scans t (Within-after w m a.bound) (omega arith))

  scan_word-Scans : (c : ℕ) → Scans n s (scan_word s c)
  unfolding scan_word
  scan_word-Scans c =
      if-Scans (c == b'r' && matches s b'"')
        (λ e.
          prefixed b'"' (λ t. raw_string t b'"') (ground arith)
            (λ t v l. raw_string-Scans n t b'"' v (omega arith)))
        (λ _.
          if-Scans (c == b'r' && matches s b'\'')
            (λ e.
              prefixed b'\'' (λ t. raw_string t b'\'') (ground arith)
                (λ t v l. raw_string-Scans n t b'\'' v (omega arith)))
            (λ _.
              if-Scans (c == b'f' && matches s b'"')
                (λ e.
                  prefixed b'"' (λ t. f_string t b'"') (ground arith)
                    (λ t v l. f_string-Scans n t b'"' v (omega arith) l))
                (λ _.
                  if-Scans (c == b'f' && matches s b'\'')
                    (λ e.
                      prefixed b'\'' (λ t. f_string t b'\'') (ground arith)
                        (λ t v l. f_string-Scans n t b'\'' v (omega arith) l))
                    (λ _. identifier-Scans))))

  set_crt-Moves : (f : FString) → Moves s (set_crt_f_string s f)
  unfolding set_crt_f_string
  set_crt-Moves f = record {
    width = refl;
    forward = omega arith;
    lines = omega arith;
    unread = λ i _. refl;
    before = λ i _. refl;
    uint8 = λ u. u;
  }

  set_crt_start : (f : FString) → (set_crt_f_string s f).start ≡ s.start
  unfolding set_crt_f_string
  set_crt_start f = refl

  set_crt_current : (f : FString) → (set_crt_f_string s f).current ≡ s.current
  unfolding set_crt_f_string
  set_crt_current f = refl

module _ (n : ℕ) (s : Scanner) (w : Within n s) (le : s.start + 1 ≤ s.current) where
  set_crt-Scans :
      (f : FString) (r : Option (Token × Scanner))
      → ((t : Scanner)
          → t ≡ set_crt_f_string s f
          → Within n t
          → t.start + 1 ≤ t.current
          → Scans n t r)
      → Scans n s r
  set_crt-Scans f r scans =
      let t = set_crt_f_string s f in
      let m = set_crt-Moves n s w le f in
      Scans-after r m (
        scans t refl (Within-after w m (rw (set_crt_current n s w le f) w.bound))
          (rw (set_crt_current n s w le f, set_crt_start n s w le f) le))

  right_brace-Scans : Scans n s (right_brace s)
  unfolding right_brace
  right_brace-Scans =
      let f = crt_f_string s in
      if-Scans (ltb 0 s.open_f_strings)
        (λ _.
          if-Scans (f.open_braces == 1)
            (λ _.
              set_crt-Scans (record f { open_braces = 0 }) _
                (λ t e v l.
                  rw (← e) (string-Scans n t v (f.delim % 256) true false (omega arith) l)))
            (λ _.
              set_crt-Scans (record f { open_braces = (f.open_braces + (2 ^ 16 - 1)) % 2 ^ 16 }) _
                (λ t e v l. rw (← e) (give-Scans n t v l Token.token_right_brace))))
        (λ _. give-Scans n s w le Token.token_right_brace)

  scan_colon-Scans : Scans n s (scan_colon s)
  unfolding scan_colon
  scan_colon-Scans =
      if-Scans (matches s b':') (give_next-Scans n s w le b':' Token.token_double_colon) (λ _.
        if-Scans (matches s b'=') (give_next-Scans n s w le b'=' Token.token_colon_equal)
          (λ _. give-Scans n s w le Token.token_colon))

  scan_dot-Scans : Scans n s (scan_dot s)
  unfolding scan_dot matches2
  scan_dot-Scans =
      if-Scans (matches2 s b'.' b'.')
        (λ e.
          let a = matches-Advanced w b'.' (ground arith) in
          let v = Within-Advanced w a in
          Scans-after _ (Advanced-Moves a) (
            give_next-Scans n (advance s) v (omega arith) b'.' Token.token_ellipsis (ground arith)))
        (λ _. one_or_two-Scans n s w le b'.' Token.token_dot_dot Token.token_dot)

  scan_operator-Scans : (c : ℕ) → Scans n s (scan_operator s c)
  unfolding scan_operator
  scan_operator-Scans c =
      let two = one_or_two-Scans n s w le b'=' in
      if-Scans (c == b'-') (λ _. two Token.token_minus_equal Token.token_minus)
        (λ _.
          if-Scans (c == b'+') (λ _. two Token.token_plus_equal Token.token_plus)
            (λ _.
              if-Scans (c == b'/') (λ _. two Token.token_slash_equal Token.token_slash)
                (λ _.
                  if-Scans (c == b'%') (λ _. two Token.token_percent_equal Token.token_percent)
                    (λ _.
                      if-Scans (c == b'*') (λ _. two Token.token_star_equal Token.token_star)
                        (λ _.
                          if-Scans (c == b'!') (λ _. two Token.token_bang_equal Token.token_bang)
                            (λ _.
                              if-Scans (c == b'=')
                                (λ _. two Token.token_equal_equal Token.token_equal)
                                (λ _.
                                  if-Scans (c == b'<')
                                    (λ _. two Token.token_less_equal Token.token_less)
                                    (λ _.
                                      if-Scans (c == b'>')
                                        (λ _. two Token.token_greater_equal Token.token_greater)
                                        (λ _.
                                          if-Scans (c == b'"')
                                            (λ _.
                                              string-Scans n s w b'"' false false (omega arith) le)
                                            (λ _.
                                              if-Scans (c == b'\'')
                                                (λ _.
                                                  string-Scans n s w b'\'' false false (omega arith)
                                                    le)
                                                (λ _.
                                                  make_error_token-Scans s _ (here n s w le)
                                                    w.bound)))))))))))

  scan_punctuation-Scans : (c : ℕ) → Scans n s (scan_punctuation s c)
  unfolding scan_punctuation
  scan_punctuation-Scans c =
      let one = give-Scans n s w le in
      if-Scans (c == b'(') (λ _. one Token.token_left_paren)
        (λ _.
          if-Scans (c == b')') (λ _. one Token.token_right_paren)
            (λ _.
              if-Scans (c == b'{') (λ _. one Token.token_left_brace)
                (λ _.
                  if-Scans (c == b'}') (λ _. right_brace-Scans)
                    (λ _.
                      if-Scans (c == b'[') (λ _. one Token.token_left_bracket)
                        (λ _.
                          if-Scans (c == b']') (λ _. one Token.token_right_bracket)
                            (λ _.
                              if-Scans (c == b':') (λ _. scan_colon-Scans)
                                (λ _.
                                  if-Scans (c == b';') (λ _. one Token.token_semicolon)
                                    (λ _.
                                      if-Scans (c == b',') (λ _. one Token.token_comma)
                                        (λ _.
                                          if-Scans (c == b'.') (λ _. scan_dot-Scans)
                                            (λ _. scan_operator-Scans c))))))))))

-- a token, and at least one byte further unless the end is reached
abbrev pub Tokenizes : ℕ → Scanner → Option (Token × Scanner) → Type 0
Tokenizes n s r =
    (t : Token) × (s' : Scanner) × (r ≡ some (t, s'))
    × Scanned n s t s'
    × ((t.type ≡ token_eof) ⊎ (s.current < s'.current))

scan_first-Tokenizes :
    (n : ℕ) (s : Scanner) → Within n s → s.start ≡ s.current → Tokenizes n s (scan_first s)
unfolding scan_first make_token
scan_first-Tokenizes n s w st = elim (Bool-cases (is_at_end s)) [
  | inl e ↦ rw e (
    _,
    s,
    refl,
    record {
      moves = Moves-to s s refl (omega arith) (omega arith);
      bound = inl w.bound;
      text = omega arith;
    },
    inl refl,
  )
  | inr e ↦
      let p = at_end_iff s e in
      let v = advance-Within w p in
      let le : s.start + 1 ≤ (advance s).current = omega arith in
      let c = scan_peek s in
      rw e (
        further (
          if-Scans (is_alpha c) (λ _. scan_word-Scans n (advance s) v le c)
            (λ _.
              if-Scans (is_digit c) (λ _. number-Scans n (advance s) v le)
                (λ _. scan_punctuation-Scans n (advance s) v le c))))
]
  where
    further : {r : Option (Token × Scanner)} → Scans n (advance s) r → Tokenizes n s r
    further (t, s', e, h) = (
      t,
      s',
      e,
      record {
        moves = Moves-trans (Moves-to s (advance s) refl (omega arith) (omega arith)) h.moves;
        bound = h.bound;
        text = h.text;
      },
      inr (omega (arith, h.moves.forward)),
    )

-- For a scanner inside a buffer of bytes with its terminator at `n`: `scanToken` returns a token
-- (no loop of it runs out of fuel) and a scanner that is at the terminator or before it, or one
-- byte beyond it with an error token. The bytes from the new place on are the ones that were there,
-- as are those before the old place, the line number does not fall, the token's text ends by the
-- new place, and the scanner is further on unless the token is the end of the source.
pub scan_token-Tokenizes : (n : ℕ) (s : Scanner) → Within n s → Tokenizes n s (scan_token s)
unfolding scan_token after_whitespace make_error_token
scan_token-Tokenizes n s w = let (b, u, e, a, f) = skip_whitespace-Leaves n s w in rw e (at b u a f)
  where
    at :
        (b : Bool) (u : Scanner)
        → Advanced n s u
        → (b ≡ false → s.current < u.current)
        → Tokenizes n s (after_whitespace (some (b, u)))
    at false u a f = (
      _,
      u,
      refl,
      record { moves = Advanced-Moves a; bound = inl a.bound; text = tt },
      inr (f refl),
    )
    at true u a f =
        let v = record u { start = u.current } in
        let m : Moves s v = Moves-to s v a.same a.forward a.lines in
        let (t, s', e, h, p) = scan_first-Tokenizes n v (Within-after w m a.bound) refl in
        (
          t,
          s',
          e,
          record { moves = Moves-trans m h.moves; bound = h.bound; text = h.text },
          further p,
        )
      where
        further : {A : Type 0} {k : ℕ} → A ⊎ (u.current < k) → A ⊎ (s.current < k)
        further (inl x) = inl x
        further (inr x) = inr (omega (arith, a.forward))
