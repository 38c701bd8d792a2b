-- ===== src/Scanner/Literals/Strings.antt =====
-- The tokens of `string`, `rawString` and `fString` of elox/lib/scanner.c.
use slox.Prelude.{
  ℕ, zero, suc, ◌+◌, ◌-◌, ◌≤◌, ◌<◌, ◌%◌, Bool, true, false, Option, some, ◌≡◌, refl, inl, inr,
  arith, length, leb, set, ◌==◌, if◌then◌else◌, Bool-cases,
}
use native.Mathlib.Nat.{zero-add}
use slox.Scanner.Literals.CodePoint.{Reads, utf8_advance-Reads}
use slox.Scanner.Literals.InPlace.{Decoding, Rounded, pending, string_char-Rounded}
use slox.Scanner.Literals.{
  utf8_advance, Literal, Round, go, fail, after_read, string_round, while_incomplete, string_loop,
  string_type, string_token, string_start, end_string, string, raw_string_loop, raw_string,
  f_string,
}
use slox.Scanner.Moves.{
  Within, Moves-trans, Moves-to, Within-after, advance-Within, peek_lt, at_end_iff, Advanced-Moves,
  advance-Advanced,
}
use slox.Scanner.Scanned.{Scanned, Scans, Scans-after, make_token-Scans, make_error_token-Scans}
use slox.Scanner.State.{
  max_interp_depth, Scanner, scan_peek, is_at_end, advance, make_error_token, make_trimmed_token,
}
use slox.Scanner.Token.{token_string}

module _ (n : ℕ) (s₀ : Scanner) (w₀ : Within n s₀) where
  -- a round, or the loop, from a place `c` ends in `r`
  abbrev Goes : ℕ → ℕ → Round → Type 0
  Goes c c' (go l) = c < c'
  Goes c c' (fail t s) = c ≤ c'

  abbrev pub Ends : ℕ → Option Round → Type 0
  Ends c r = (rd : Round) × (c' : ℕ) × (r ≡ some rd) × Rounded n s₀ c' rd × Goes c c' rd

  still-Within :
      {c : ℕ} (l : Literal)
      → Decoding n s₀ c l.scanner l.output (pending l.mode l.num_u_chars)
      → Within n l.scanner
  still-Within l d = Within-after w₀ d.moves (omega (arith, d.at, d.bound))

  Goes-of : (c c' : ℕ) (rd : Round) → c < c' → Goes c c' rd
  Goes-of c c' (go l) h = h
  Goes-of c c' (fail t s) h = omega arith

  string_round-Ends :
      (delimiter : ℕ) (f : Bool) (c : ℕ) (l : Literal)
      → delimiter < 256
      → Decoding n s₀ c l.scanner l.output (pending l.mode l.num_u_chars)
      → Ends c (string_round delimiter f l)
  unfolding string_round after_read make_error_token
  string_round-Ends delimiter f c l lt d = elim (Bool-cases (is_at_end l.scanner)) [
    | inl e ↦ rw e (
      _,
      c,
      refl,
      record {
        moves = d.moves;
        at = d.at;
        bound = omega (arith, d.bound);
        error = refl;
        said = _;
        text = refl;
      },
      omega arith,
    )
    | inr e ↦ rw e (read (utf8_advance-Reads n l.scanner (still-Within l d) e))
  ]
    where
      read :
          Reads n 0 l.scanner (utf8_advance l.scanner)
          → Ends c (after_read delimiter f l (utf8_advance l.scanner))
      read (cp, c', e, lt', code) =
          let s' = record (l.scanner) { current = c' } in
          rw e (
            _,
            c',
            refl,
            string_char-Rounded n s₀ c' (c' - (l.scanner).current) cp (record l { scanner = s' })
                l.mode delimiter f refl lt
                (record {
                  moves =
                      Moves-trans d.moves (Moves-to l.scanner s' refl (omega arith) (omega arith));
                  at = refl;
                  start = d.start;
                  low = d.low;
                  high = omega (arith, d.high, d.at);
                  some_byte = omega arith;
                  code = rw zero-add at code;
                }),
            Goes-of c c' _ (omega (arith, d.at)),
          )

  Ends-later : {c c' : ℕ} (r : Option Round) → c < c' → Ends c' r → Ends c r
  Ends-later {c} {c'} r lt (rd, d, e, h, g) = (rd, d, e, h, later rd g)
    where
      later : (rd : Round) → Goes c' d rd → Goes c d rd
      later (go l) g = omega arith
      later (fail t s) g = omega arith

  if-Ends :
      {c : ℕ} {x y : Option Round} (b : Bool) → Ends c x → Ends c y → Ends c (if b then x else y)
  if-Ends true p q = p
  if-Ends false p q = q

  while_incomplete-Ends :
      (c c' : ℕ) (k : Literal → Option Round) (rd : Round)
      → Rounded n s₀ c' rd
      → Goes c c' rd
      → ((l : Literal)
          → c < c'
          → Decoding n s₀ c' l.scanner l.output (pending l.mode l.num_u_chars)
          → Ends c' (k l))
      → Ends c (while_incomplete k (some rd))
  unfolding while_incomplete
  while_incomplete-Ends c c' k (fail t s) h g ih = (_, c', refl, h, g)
  while_incomplete-Ends c c' k (go l) h g ih =
      if-Ends l.complete (_, c', refl, h, g) (Ends-later (k l) g (ih l g h))

  string_loop-Ends :
      (fuel delimiter : ℕ) (f : Bool) (c : ℕ) (l : Literal)
      → delimiter < 256
      → n - c < fuel
      → Decoding n s₀ c l.scanner l.output (pending l.mode l.num_u_chars)
      → Ends c (string_loop fuel delimiter f l)
  unfolding string_loop
  string_loop-Ends zero delimiter f c l lt h d = absurd (omega arith)
  string_loop-Ends (suc fuel) delimiter f c l lt h d =
      let (rd, c', e, r, g) = string_round-Ends delimiter f c l lt d in
      rw e (
        while_incomplete-Ends c c' (string_loop fuel delimiter f) rd r g (λ l' further d'.
          string_loop-Ends fuel delimiter f c' l' lt (omega (arith, d'.bound)) d'))

  string_start-Decoding : Decoding n s₀ s₀.current s₀ s₀.current 0
  string_start-Decoding = record {
    moves = Moves-to s₀ s₀ refl (omega arith) (omega arith);
    at = refl;
    start = refl;
    bound = w₀.bound;
    low = omega arith;
    high = omega arith;
  }

  string_type-same :
      (f f_start : Bool) (l : Literal)
      → ((string_type f f_start l).1.source ≡ (l.scanner).source)
        × ((string_type f f_start l).1.current ≡ (l.scanner).current)
        × ((string_type f f_start l).1.line ≡ (l.scanner).line)
        × ((string_type f f_start l).1.start ≡ (l.scanner).start)
  unfolding string_type
  string_type-same f f_start l = ground arith

  string_token-Scanned :
      (f f_start : Bool) (c : ℕ) (rd : Round)
      → s₀.start + 1 ≤ s₀.current
      → Rounded n s₀ c rd
      → let r = string_token f f_start s₀.current rd in Scanned n s₀ r.0 r.1
  unfolding string_token make_trimmed_token
  string_token-Scanned f f_start c (go l) le d =
      let (source, current, line, start) = string_type-same f f_start l in
      record {
        moves = Moves-trans d.moves (Moves-to l.scanner _ source (omega arith) (omega arith));
        bound = inl (omega (arith, d.at, d.bound));
        text = omega (arith, d.at, d.high, d.low, d.start);
      }
  string_token-Scanned f f_start c (fail t s) le h = record {
    moves = h.moves;
    bound = inr (omega (arith, h.at, h.bound), h.error);
    text = rw h.text tt;
  }

  -- A string literal ends: the token's text lies in the buffer, and the bytes that the scanner has
  -- not read are the ones that were there.
  pub string-Scans :
      (delimiter : ℕ) (f f_start : Bool)
      → delimiter < 256
      → s₀.start + 1 ≤ s₀.current
      → Scans n s₀ (string s₀ delimiter f f_start)
  unfolding string end_string
  string-Scans delimiter f f_start lt le =
      let (rd, c, e, r, _) =
        string_loop-Ends (suc (length s₀.source)) delimiter f s₀.current (string_start s₀) lt
          (omega (arith, w₀.room)) string_start-Decoding in
      rw e (_, _, refl, string_token-Scanned f f_start c rd le r)

raw_string_loop-Scans :
    (n fuel delimiter : ℕ) (s : Scanner)
    → Within n s
    → s.start ≤ s.current
    → n - s.current < fuel
    → Scans n s (raw_string_loop fuel delimiter s)
unfolding raw_string_loop
raw_string_loop-Scans n zero delimiter s w le h = absurd (omega arith)
raw_string_loop-Scans n (suc fuel) delimiter s w le h = elim (Bool-cases (is_at_end s)) [
  | inl e ↦ rw e (
      make_error_token-Scans s "Unterminated string" (Moves-to s s refl (omega arith) (omega arith))
        w.bound)
  | inr e ↦
      let p = at_end_iff s e in
      let a = advance-Advanced s.line w (omega arith) p in
      rw e (elim (Bool-cases (scan_peek s == delimiter)) [
        | inl f ↦
            rw f
              (make_token-Scans (advance s) token_string (Advanced-Moves a) a.bound (omega arith))
        | inr f ↦ rw f (
            Scans-after (raw_string_loop fuel delimiter (advance s)) (Advanced-Moves a) (
              raw_string_loop-Scans n fuel delimiter (advance s) (advance-Within w p) (omega arith)
                (omega (arith, peek_lt w p))))
      ])
]

pub raw_string-Scans :
    (n : ℕ) (s : Scanner) (delimiter : ℕ)
    → Within n s
    → s.start ≤ s.current
    → Scans n s (raw_string s delimiter)
unfolding raw_string
raw_string-Scans n s delimiter w le =
    raw_string_loop-Scans n (suc (length s.source)) delimiter s w le (omega (arith, w.room))

pub f_string-Scans :
    (n : ℕ) (s : Scanner) (delimiter : ℕ)
    → Within n s
    → delimiter < 256
    → s.start + 1 ≤ s.current
    → Scans n s (f_string s delimiter)
unfolding f_string
f_string-Scans n s delimiter w lt le = elim (Bool-cases (leb max_interp_depth s.open_f_strings)) [
  | inl e ↦
      rw e (make_error_token-Scans s _ (Moves-to s s refl (omega arith) (omega arith)) w.bound)
  | inr e ↦
      let m = Moves-to s (opened s) refl (omega arith) (omega arith) in
      rw e (
        Scans-after _ m
          (string-Scans n (opened s) (Within-after w m w.bound) delimiter true true lt le))
]
  where
    opened : Scanner → Scanner
    opened s = record s {
      f_strings =
          set s.f_strings s.open_f_strings
            (record { delim = delimiter; has_expr = false; open_braces = 0 });
      open_f_strings = (s.open_f_strings + 1) % 256;
    }
