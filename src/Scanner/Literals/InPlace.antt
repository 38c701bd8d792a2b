-- ===== src/Scanner/Literals/InPlace.antt =====
-- The decoding of a string literal in place: where it writes, and what it has read.
use slox.Prelude.{
  ℕ, ◌+◌, ◌≤◌, ◌<◌, Bool, true, false, ◌&&◌, ◌||◌, List, [], ◌∷◌, Option, none, some, ◌≡◌, ◌≢◌,
  refl, ◌⊎◌, inl, inr, ◌∙◌, arith, length, ◌==◌, if◌then◌else◌, Bool-cases,
}
use slox.Scanner.Literals.Writes.{
  AreBytes, length-write_bytes, get_or-write_bytes, write_bytes_uint8, Encodes, utf8_bytes-Encodes,
}
use slox.Scanner.Literals.{
  invalid_utf8, SsMode, Literal, put, put_encoded, output_utf8, Round, go, fail, scan_char,
  escape_char, hex_value, unicode_digit, end_unicode, add_digit, string_char, open_brace,
}
use slox.Scanner.Moves.{Moves}
use slox.Scanner.State.{Scanner, make_error_token}
use slox.Scanner.Token.{Token, token_error, message}
use slox.Scanner.Utf8.Tables.{Fits}
use slox.Scanner.Utf8.{utf8_bytes}
use Prim.Native.String.{String}

-- the digits of an escape that have been read and not yet written
abbrev pub pending : SsMode → ℕ → ℕ
pending SsMode.unicode k = k
pending SsMode.scan k = 0
pending SsMode.escape k = 0

put_encoded-mode : (o : Option (List ℕ)) (l : Literal) → (put_encoded o l).mode ≡ l.mode
unfolding put_encoded
put_encoded-mode none l = refl
put_encoded-mode (some bs) l = refl

module _ (n : ℕ) (s₀ : Scanner) where
  -- Between two rounds: the scanner `s` stands at `c`, all output is behind `out`, and `k` bytes
  -- after it are read and not yet written.
  pub record Decoding (c : ℕ) (s : Scanner) (out k : ℕ) : Type 0 where
    pub moves : Moves s₀ s
    pub at : s.current ≡ c
    pub start : s.start ≡ s₀.start
    pub bound : c ≤ n
    pub low : s₀.current ≤ out
    pub high : out + k ≤ c

  -- the error token, and the scanner beside it
  pub record Failed (c : ℕ) (t : Token) (s : Scanner) : Type 0 where
    pub moves : Moves s₀ s
    pub at : s.current ≡ c
    pub bound : c ≤ n + 1
    pub error : t.type ≡ token_error
    pub said : String
    pub text : t.text ≡ message said

  abbrev pub Rounded : ℕ → Round → Type 0
  Rounded c (go l) = Decoding c l.scanner l.output (pending l.mode l.num_u_chars)
  Rounded c (fail t s) = Failed c t s

  -- inside a round, after a code point of `w` bytes
  pub record Read (c w cp : ℕ) (s : Scanner) (out k : ℕ) : Type 0 where
    pub moves : Moves s₀ s
    pub at : s.current ≡ c
    pub start : s.start ≡ s₀.start
    pub low : s₀.current ≤ out
    pub high : out + k + w ≤ c
    pub some_byte : 1 ≤ w
    pub code : (c ≤ n) × Fits w cp ⊎ (c ≤ n + 1) × (cp ≡ invalid_utf8)

  pub less_pending :
      {c : ℕ} {s : Scanner} {out : ℕ} (j k : ℕ) → j ≤ k → Decoding c s out k → Decoding c s out j
  less_pending j k le d = record {
    moves = d.moves;
    at = d.at;
    start = d.start;
    bound = d.bound;
    low = d.low;
    high = omega (arith, d.high);
  }

  put-Decoding :
      (c k : ℕ) (bs : List ℕ) (l : Literal)
      → AreBytes bs
      → length bs ≤ k
      → Decoding c l.scanner l.output k
      → Decoding c (put bs l).scanner (put bs l).output 0
  unfolding put
  put-Decoding c k bs l b fits d =
      let m = d.moves in
      record {
        moves = record {
          width = length-write_bytes (l.scanner).source l.output bs ∙ m.width;
          forward = m.forward;
          lines = m.lines;
          unread = λ i h.
              get_or-write_bytes (l.scanner).source l.output bs i
                (inr (omega (arith, d.high, d.at)))
              ∙ m.unread i h;
          before = λ i h.
              get_or-write_bytes (l.scanner).source l.output bs i (inl (omega (arith, d.low)))
              ∙ m.before i h;
          uint8 = λ u. write_bytes_uint8 (l.scanner).source l.output bs b (m.uint8 u);
        };
        at = d.at;
        start = d.start;
        bound = d.bound;
        low = omega (arith, d.low);
        high = omega (arith, d.high);
      }

  put_encoded-Decoding :
      (c k cp : ℕ) (o : Option (List ℕ)) (l : Literal)
      → Encodes cp o
      → (length_bound : (bs : List ℕ) → o ≡ some bs → length bs ≤ k)
      → Decoding c l.scanner l.output k
      → Decoding c (put_encoded o l).scanner (put_encoded o l).output 0
  unfolding put_encoded
  put_encoded-Decoding c k cp none l e b d = record {
    moves = d.moves;
    at = d.at;
    start = d.start;
    bound = d.bound;
    low = d.low;
    high = omega (arith, d.high);
  }
  put_encoded-Decoding c k cp (some bs) l e b d = put-Decoding c k bs l e.0 (b bs refl) d

  module _ (c w cp : ℕ) (l : Literal) (k : ℕ) (r : Read c w cp l.scanner l.output k) where
    failed : (text : String) → Failed c (make_error_token l.scanner text) l.scanner
    unfolding make_error_token
    failed text = record {
      moves = r.moves;
      at = r.at;
      bound = ground (arith, r.code);
      error = refl;
      said = text;
      text = refl;
    }

    -- a code point that is a byte or comes from bytes is not the invalid one
    kept : cp ≢ invalid_utf8 → (c ≤ n) × Fits w cp
    kept h = elim r.code [ inl e ↦ e | inr e ↦ absurd (h e.1) ]

    unwritten : cp ≢ invalid_utf8 → Decoding c l.scanner l.output (k + w)
    unwritten h = record {
      moves = r.moves;
      at = r.at;
      start = r.start;
      bound = (kept h).0;
      low = r.low;
      high = omega (arith, r.high);
    }

    output_utf8-Decoding :
        cp ≢ invalid_utf8 → Decoding c (output_utf8 cp l).scanner (output_utf8 cp l).output 0
    unfolding output_utf8
    output_utf8-Decoding h =
        put_encoded-Decoding c (k + w) cp (utf8_bytes cp) l (utf8_bytes-Encodes cp)
          (λ bs e.
            let q : (v : ℕ) → 1 ≤ v → Fits v cp → length bs ≤ v =
              (rw e at (utf8_bytes-Encodes cp)).1 in
            omega (arith, q w r.some_byte (kept h).1))
          (unwritten h)

  open_brace-Decoding :
      (c : ℕ) (s : Scanner) (out k : ℕ) → Decoding c s out k → Decoding c (open_brace s) out k
  unfolding open_brace
  open_brace-Decoding c s out k d =
      let m = d.moves in
      record {
        moves = record {
          width = m.width;
          forward = m.forward;
          lines = m.lines;
          unread = m.unread;
          before = m.before;
          uint8 = m.uint8;
        };
        at = d.at;
        start = d.start;
        bound = d.bound;
        low = d.low;
        high = d.high;
      }

  module _ (c w cp : ℕ) (l : Literal) where
    output_utf8-pending :
        l.mode ≡ SsMode.scan → pending (output_utf8 cp l).mode (output_utf8 cp l).num_u_chars ≡ 0
    unfolding output_utf8
    output_utf8-pending e = rw (put_encoded-mode (utf8_bytes cp) l, e)

    scan_char-Rounded :
        (delimiter : ℕ) (f_string : Bool)
        → delimiter < 256
        → l.mode ≡ SsMode.scan
        → Read c w cp l.scanner l.output 0
        → Rounded c (scan_char delimiter f_string cp l)
    unfolding scan_char
    scan_char-Rounded delimiter f_string lt mode r =
        let pend = output_utf8-pending mode in
        elim (Bool-cases (cp == delimiter)) [
          | inl e ↦ rw (e, pend) (output_utf8-Decoding c w cp l 0 r (ground arith))
          | inr e ↦ rw e (elim (Bool-cases (cp == b'\\')) [
            | inl f ↦
                rw f (less_pending 0 (0 + w) (omega arith) (unwritten c w cp l 0 r (ground arith)))
            | inr f ↦ rw f (elim (Bool-cases (cp == 0)) [
              | inl g ↦ rw g (failed c w cp l 0 r "Unterminated string")
              | inr g ↦ rw g (elim (Bool-cases (cp == invalid_utf8)) [
                | inl h ↦ rw h (failed c w cp l 0 r "Invalid UTF-8 character")
                | inr h ↦
                    let d = output_utf8-Decoding c w cp l 0 r (ground arith) in
                    rw h (elim (Bool-cases (f_string && cp == b'{')) [
                      | inl k ↦ rw (k, pend) (open_brace-Decoding c _ _ 0 d)
                      | inr k ↦ rw (k, pend) d
                    ])
              ])
            ])
          ])
        ]

    escape_char-Rounded : Read c w cp l.scanner l.output 0 → Rounded c (escape_char cp l)
    unfolding escape_char
    escape_char-Rounded r = elim (Bool-cases (cp == b'\'' || cp == b'\\' || cp == b'"')) [
      | inl e ↦ rw e (output_utf8-Decoding c w cp l 0 r (ground arith))
      | inr e ↦ rw e (elim (Bool-cases (cp == b'n')) [
        | inl f ↦ rw f (put_byte b'\n' (omega arith) (ground arith))
        | inr f ↦ rw f (elim (Bool-cases (cp == b'r')) [
          | inl g ↦ rw g (put_byte b'\r' (omega arith) (ground arith))
          | inr g ↦ rw g (elim (Bool-cases (cp == b't')) [
            | inl h ↦ rw h (put_byte b'\t' (omega arith) (ground arith))
            | inr h ↦ rw h (elim (Bool-cases (cp == b'u')) [
              | inl k ↦
                  rw k
                    (less_pending 0 (0 + w) (omega arith) (unwritten c w cp l 0 r (ground arith)))
              | inr k ↦ rw k (rest (Bool-cases (cp == 0)) (Bool-cases (cp == invalid_utf8)))
            ])
          ])
        ])
      ])
    ]
      where
        put_byte :
            (b : ℕ)
            → b < 256
            → cp ≢ invalid_utf8
            → Decoding c (put (b ∷ []) l).scanner (put (b ∷ []) l).output 0
        put_byte b lt h =
            put-Decoding c (0 + w) (b ∷ []) l (lt, tt) (omega (arith, r.some_byte))
              (unwritten c w cp l 0 r h)

        rest :
            ((cp == 0) ≡ true) ⊎ ((cp == 0) ≡ false)
            → ((cp == invalid_utf8) ≡ true) ⊎ ((cp == invalid_utf8) ≡ false)
            → Rounded c (
                if cp == 0
                then fail (make_error_token l.scanner "Unterminated string") l.scanner
                else if cp == invalid_utf8
                then fail (make_error_token l.scanner "Invalid UTF-8 character") l.scanner
                else fail (make_error_token l.scanner "Invalid escape sequence") l.scanner)
        rest (inl e) _ = rw e (failed c w cp l 0 r "Unterminated string")
        rest (inr e) (inl f) = rw (e, f) (failed c w cp l 0 r "Invalid UTF-8 character")
        rest (inr e) (inr f) = rw (e, f) (failed c w cp l 0 r "Invalid escape sequence")

    end_unicode-Rounded :
        (o : Option (List ℕ)) (digit : ℕ)
        → l.num_u_chars + 1 ≡ 4
        → cp ≢ invalid_utf8
        → Read c w cp l.scanner l.output l.num_u_chars
        → (code : ℕ) → Encodes code o
        → Rounded c (end_unicode o (add_digit digit l))
    unfolding end_unicode
    end_unicode-Rounded none digit four h r code e =
        failed c w cp l l.num_u_chars r "Invalid UTF-8 unicode escape"
    end_unicode-Rounded (some bs) digit four h r code e =
        put-Decoding c (l.num_u_chars + w) bs (add_digit digit l) e.0
          (omega (arith, e.2, r.some_byte)) (unwritten c w cp l l.num_u_chars r h)

    unicode_digit-Rounded :
        (o : Option ℕ)
        → ((d : ℕ) → o ≡ some d → cp ≢ invalid_utf8)
        → l.mode ≡ SsMode.unicode
        → Read c w cp l.scanner l.output l.num_u_chars
        → Rounded c (unicode_digit o l)
    unfolding unicode_digit
    unicode_digit-Rounded none h mode r =
        failed c w cp l l.num_u_chars r "Invalid character in Unicode escape"
    unicode_digit-Rounded (some d) h mode r = elim (Bool-cases (l.num_u_chars + 1 == 4)) [
      | inl e ↦ rw e (
          end_unicode-Rounded (utf8_bytes (add_digit d l).codepoint) d (ground arith) (h d refl) r _
            (utf8_bytes-Encodes (add_digit d l).codepoint))
      | inr e ↦
          rw (e, mode)
            (less_pending (l.num_u_chars + 1) (l.num_u_chars + w) (omega (arith, r.some_byte))
              (unwritten c w cp l l.num_u_chars r (h d refl)))
    ]

hex_value-some : (cp d : ℕ) → hex_value cp ≡ some d → cp ≢ invalid_utf8
unfolding hex_value
hex_value-some cp d e f = ground arith

module _ (n : ℕ) (s₀ : Scanner) (c w cp : ℕ) (l : Literal) where
  pub string_char-Rounded :
      (mode : SsMode) (delimiter : ℕ) (f_string : Bool)
      → l.mode ≡ mode
      → delimiter < 256
      → Read n s₀ c w cp l.scanner l.output (pending mode l.num_u_chars)
      → Rounded n s₀ c (string_char mode delimiter f_string cp l)
  unfolding string_char
  string_char-Rounded SsMode.scan delimiter f_string mode lt r =
      scan_char-Rounded n s₀ c w cp l delimiter f_string lt mode r
  string_char-Rounded SsMode.escape delimiter f_string mode lt r =
      escape_char-Rounded n s₀ c w cp l r
  string_char-Rounded SsMode.unicode delimiter f_string mode lt r =
      unicode_digit-Rounded n s₀ c w cp l (hex_value cp) (hex_value-some cp) mode r
