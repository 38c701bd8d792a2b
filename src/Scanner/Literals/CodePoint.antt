-- ===== src/Scanner/Literals/CodePoint.antt =====
-- How far `utf8_advance` of elox/lib/scanner.c reads.
use slox.Prelude.{
  ℕ, zero, suc, ◌+◌, ◌-◌, ◌≤◌, ◌<◌, false, Option, some, ◌≡◌, ◌≢◌, refl, ◌⊎◌, inl, inr, arith,
  length, ltb, ◌==◌, if◌then◌else◌, Bool-cases,
}
use slox.Scanner.Literals.{invalid_utf8, utf8_loop, utf8_advance}
use slox.Scanner.Moves.{Within, peek_lt, at_end_iff, peek_uint8, advance-Within}
use slox.Scanner.State.{Scanner, scan_peek, is_at_end, advance}
use slox.Scanner.Utf8.Tables.{Fits, Pending, Decodes, decode_first, decode_next, decode_nul}
use slox.Scanner.Utf8.{Decoder, utf8_accept, utf8_reject, utf8_decode}

-- `w` bytes of a sequence lie before `s`; the code point ends at `c`
abbrev pub Reads : ℕ → ℕ → Scanner → Option (ℕ × Scanner) → Type 0
Reads n w s r =
    (cp : ℕ) × (c : ℕ) × (r ≡ some (cp, record s { current = c }))
    × (s.current < c)
    × ((c ≤ n) × Fits (w + (c - s.current)) cp ⊎ (c ≤ n + 1) × (cp ≡ invalid_utf8))

abbrev Result : Type 0
Result = Option (ℕ × Scanner)

Reads-round :
    (n w ch : ℕ) (d' : Decoder) (s : Scanner) (rest : Result)
    → s.current ≤ n
    → (ch ≡ 0 → d'.state ≡ 12)
    → (ch ≢ 0 → s.current < n)
    → Decodes (w + 1) d'
    → (ch ≢ 0 → Pending (w + 1) d' → Reads n (w + 1) (advance s) rest)
    → Reads n w s (
        if d'.state == utf8_accept
        then some (d'.codepoint, advance s)
        else if d'.state == utf8_reject
        then some (invalid_utf8, advance s)
        else if ltb 0 ch
        then rest
        else some (d'.codepoint, advance s))
Reads-round n w ch d' s rest le nul lt dec ih = elim (Bool-cases (d'.state == utf8_accept)) [
  | inl e ↦
      rw e (
        d'.codepoint,
        s.current + 1,
        refl,
        omega arith,
        inl (ground arith, accepted (ground arith)),
      )
  | inr e ↦ rw e (elim (Bool-cases (d'.state == utf8_reject)) [
    | inl f ↦ rw f (invalid_utf8, s.current + 1, refl, omega arith, inr (omega arith, refl))
    | inr f ↦ rw f (elim (Bool-cases (ltb 0 ch)) [
      | inl g ↦ rw g (later (ih (ground arith) (pending (ground arith) (ground arith))))
      | inr g ↦ absurd (ground arith)
    ])
  ])
]
  where
    accepted : d'.state ≡ 0 → Fits (w + (s.current + 1 - s.current)) d'.codepoint
    accepted e =
        let h : w + (s.current + 1 - s.current) ≡ w + 1 = omega arith in rw h (ground arith)

    pending : d'.state ≢ 0 → d'.state ≢ 12 → Pending (w + 1) d'
    pending e f = elim dec [
      | inl (h, _) ↦ absurd (e h)
      | inr (inl h) ↦ absurd (f h)
      | inr (inr h) ↦ h
    ]

    later : Reads n (w + 1) (advance s) rest → Reads n w s rest
    later (cp, c, e, h, r) =
        let k : w + (c - s.current) ≡ w + 1 + (c - (s.current + 1)) = omega arith in
        (cp, c, e, omega arith, rw k r)

utf8_loop-Reads :
    (n fuel w : ℕ) (d : Decoder) (s : Scanner)
    → Within n s
    → n - s.current < fuel
    → Pending w d
    → Reads n w s (utf8_loop fuel d s)
unfolding utf8_loop
utf8_loop-Reads n zero w d s b h p = absurd (omega arith)
utf8_loop-Reads n (suc fuel) w d s b h p =
    Reads-round n w (scan_peek s) (utf8_decode d (scan_peek s)) s _ b.bound
      (λ e. rw e (decode_nul w d p)) (λ e. peek_lt b e)
      (decode_next w d (scan_peek s) (peek_uint8 b) p)
      (λ e q.
        utf8_loop-Reads n fuel (w + 1) (utf8_decode d (scan_peek s)) (advance s)
          (advance-Within b e) (omega (arith, peek_lt b e)) q)

-- From a byte that is not the terminator, `utf8_advance` ends.
pub utf8_advance-Reads :
    (n : ℕ) (s : Scanner) → Within n s → is_at_end s ≡ false → Reads n 0 s (utf8_advance s)
unfolding utf8_advance
utf8_advance-Reads n s b e =
    let d : Decoder = record { state = utf8_accept; codepoint = 0 } in
    let p = at_end_iff s e in
    Reads-round n 0 (scan_peek s) (utf8_decode d (scan_peek s)) s _ b.bound (λ z. absurd (p z))
      (λ z. peek_lt b z) (decode_first (scan_peek s) (peek_uint8 b))
      (λ z q.
        utf8_loop-Reads n (length s.source) 1 (utf8_decode d (scan_peek s)) (advance s)
          (advance-Within b z) (omega (arith, b.room, peek_lt b z)) q)
