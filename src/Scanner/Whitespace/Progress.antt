-- ===== src/Scanner/Whitespace/Progress.antt =====
-- Where `skipWhitespace` of elox/lib/scanner.c goes.
use slox.Prelude.{
  ℕ, zero, suc, ◌+◌, ◌-◌, ◌≤◌, ◌<◌, Bool, true, false, Option, none, some, ◌≡◌, ◌≢◌, refl, arith,
  length, ◌==◌, inl, inr, Bool-cases, ◌||◌,
}
use slox.Scanner.State.{Scanner, scan_peek, scan_peek_next, is_at_end, advance}
use slox.Scanner.Moves.{
  Within, Advanced, Advanced-self, Advanced-trans, Within-Advanced, advance-Advanced, at_end_iff,
  while-Advanced, scan_peek_same,
}
use slox.Scanner.Whitespace.{
  WssState, comment_after, comment_advance, skip_comment, in_line_comment, skip_line_comment,
  Skipped, again, stop, out_of_fuel, after_comment, skip_one, after_one, skip_loop, skip_whitespace,
}

abbrev Skips : ℕ → Scanner → Option (Bool × Scanner) → Type 0
Skips n s r = (b : Bool) × (s' : Scanner) × (r ≡ some (b, s')) × Advanced n s s'

Skips-more :
    {n : ℕ} {s t : Scanner} {r : Option (Bool × Scanner)}
    → Advanced n s t
    → Skips n t r
    → Skips n s r
Skips-more a (b, u, e, h) = (b, u, e, Advanced-trans a h)

comment_advance-Advanced :
    (n : ℕ) (s : Scanner) → Within n s → scan_peek s ≢ 0 → Advanced n s (comment_advance s)
comment_advance-Advanced n s w p = elim (Bool-cases (scan_peek s == b'\n')) [
  | inl e ↦ rw e (advance-Advanced (s.line + 1) w (omega arith) p)
  | inr e ↦ rw e (advance-Advanced s.line w (omega arith) p)
]

comment_advance_lt : (s : Scanner) → s.current < (comment_advance s).current
comment_advance_lt s = ground arith

comment_after-Skips :
    (n : ℕ) (k : WssState → Scanner → Option (Bool × Scanner)) (state : WssState) (s : Scanner)
    → s.current ≤ n
    → ((t : WssState) → Skips n s (k t s))
    → Skips n s (comment_after k state s)
unfolding comment_after
comment_after-Skips n k WssState.wss_scan s h ih = ih WssState.wss_scan
comment_after-Skips n k WssState.wss_star s h ih = ih WssState.wss_star
comment_after-Skips n k WssState.wss_done s h ih = (true, s, refl, Advanced-self n s h)

skip_comment-Skips :
    (n fuel : ℕ) (state : WssState) (s : Scanner)
    → Within n s
    → n - s.current < fuel
    → Skips n s (skip_comment fuel state s)
unfolding skip_comment
skip_comment-Skips n zero state s w h = absurd (omega arith)
skip_comment-Skips n (suc fuel) state s w h = elim (Bool-cases (is_at_end s)) [
  | inl e ↦ rw e (false, s, refl, Advanced-self n s w.bound)
  | inr e ↦
      let p : scan_peek s ≢ 0 = at_end_iff s e in
      let a = comment_advance-Advanced n s w p in
      let lt = comment_advance_lt s in
      rw e (
        Skips-more a (
          comment_after-Skips n (skip_comment fuel) _ (comment_advance s) a.bound (λ t.
            skip_comment-Skips n fuel t (comment_advance s) (Within-Advanced w a)
              (omega (arith, a.bound)))))
]

-- a round ends the loop, or goes on further to the right
abbrev Rounds : ℕ → Scanner → Skipped → Type 0
Rounds n s (again s') = Advanced n s s' × (s.current < s'.current)
Rounds n s (stop b s') = Advanced n s s' × (b ≡ false → s.current < s'.current)
Rounds n s out_of_fuel = ⊥

after_comment-Rounds :
    (n : ℕ) (s t : Scanner) (r : Option (Bool × Scanner))
    → Advanced n s t
    → s.current < t.current
    → Skips n t r
    → Rounds n s (after_comment r)
unfolding after_comment
after_comment-Rounds n s t none a lt (b, u, e, h) = cc
after_comment-Rounds n s t (some (true, v)) a lt (b, u, e, h) =
    let d : v ≡ u = cc in rw d (Advanced-trans a h, omega (arith, h.forward))
after_comment-Rounds n s t (some (false, v)) a lt (b, u, e, h) =
    let d : v ≡ u = cc in rw d (Advanced-trans a h, λ _. omega (arith, h.forward))

in_line_comment_sound : (s : Scanner) → in_line_comment s ≡ true → scan_peek s ≢ 0
unfolding in_line_comment is_at_end
in_line_comment_sound s h e = ground arith

in_line_comment_same :
    (s t : Scanner) → scan_peek t ≡ scan_peek s → in_line_comment t ≡ in_line_comment s
unfolding in_line_comment is_at_end
in_line_comment_same s t e = rw e

in_line_comment_hash : (s : Scanner) → scan_peek s ≡ b'#' → in_line_comment s ≡ true
unfolding in_line_comment is_at_end
in_line_comment_hash s e = ground arith

skip_line_comment-Rounds :
    (n : ℕ) (s : Scanner)
    → Within n s
    → in_line_comment s ≡ true
    → Rounds n s (again (skip_line_comment s))
unfolding skip_line_comment
skip_line_comment-Rounds n s w h =
    let (a, stopped) = while-Advanced in_line_comment in_line_comment_sound n s w in
    (a, further _ a stopped)
  where
    further : (t : Scanner) → Advanced n s t → in_line_comment t ≡ false → s.current < t.current
    further t a e = elim (Bool-cases (s.current == t.current)) [
      | inl d ↦
          let d' : t.current ≡ s.current = ground arith in
          cc (in_line_comment_same s t (scan_peek_same s t a.same d'))
      | inr d ↦ let d' : s.current ≢ t.current = ground arith in omega (arith, a.forward)
    ]

skip_one-Rounds : (n : ℕ) (s : Scanner) → Within n s → Rounds n s (skip_one s)
unfolding skip_one
skip_one-Rounds n s w = elim (Bool-cases (c == b' ' || c == b'\r' || c == b'\t')) [
  | inl e ↦ rw e (advance-Advanced s.line w (omega arith) (ground arith), omega arith)
  | inr e ↦ rw e (elim (Bool-cases (c == b'\n')) [
    | inl f ↦ rw f (advance-Advanced (s.line + 1) w (omega arith) (ground arith), omega arith)
    | inr f ↦ rw f (elim (Bool-cases (c == b'#')) [
      | inl g ↦ rw g (elim (Bool-cases (scan_peek_next s == b'*')) [
        | inl m ↦
            let a = advance-Advanced s.line w (omega arith) (ground arith) in
            rw m (
              after_comment-Rounds n s (advance s) _ a (omega arith) (
                skip_comment-Skips n (suc (length s.source)) WssState.wss_scan (advance s)
                  (Within-Advanced w a) (omega (arith, w.room))))
        | inr m ↦ rw m (skip_line_comment-Rounds n s w (in_line_comment_hash s (ground arith)))
      ])
      | inr g ↦ rw g (Advanced-self n s w.bound, λ z. cc)
    ])
  ])
]
  where
    c : ℕ
    c = scan_peek s

-- what the whole loop does: it leaves at `b`, and is further on if it leaves inside a comment
abbrev pub Leaves : ℕ → Scanner → Option (Bool × Scanner) → Type 0
Leaves n s r =
    (b : Bool) × (s' : Scanner) × (r ≡ some (b, s'))
    × Advanced n s s'
    × (b ≡ false → s.current < s'.current)

Leaves-more :
    {n : ℕ} {s t : Scanner} {r : Option (Bool × Scanner)}
    → Advanced n s t
    → Leaves n t r
    → Leaves n s r
Leaves-more a (b, u, e, h, f) = (b, u, e, Advanced-trans a h, λ z. omega (arith, f z, a.forward))

after_one-Leaves :
    (n : ℕ) (s : Scanner) (k : Scanner → Option (Bool × Scanner)) (r : Skipped)
    → Rounds n s r
    → ((t : Scanner) → Advanced n s t → s.current < t.current → Leaves n t (k t))
    → Leaves n s (after_one k r)
unfolding after_one
after_one-Leaves n s k (again t) h ih = Leaves-more h.0 (ih t h.0 h.1)
after_one-Leaves n s k (stop b t) h ih = (b, t, refl, h.0, h.1)
after_one-Leaves n s k out_of_fuel h ih = absurd h

skip_loop-Leaves :
    (n fuel : ℕ) (s : Scanner) → Within n s → n - s.current < fuel → Leaves n s (skip_loop fuel s)
unfolding skip_loop
skip_loop-Leaves n zero s w h = absurd (omega arith)
skip_loop-Leaves n (suc fuel) s w h =
    after_one-Leaves n s (skip_loop fuel) (skip_one s) (skip_one-Rounds n s w)
      (λ t a lt. skip_loop-Leaves n fuel t (Within-Advanced w a) (omega (arith, a.bound)))

-- For a scanner inside a terminated buffer, skipping white space and comments ends: the fuel is
-- enough, the buffer is unchanged, and the scanner is not beyond the terminator.
pub skip_whitespace-Leaves : (n : ℕ) (s : Scanner) → Within n s → Leaves n s (skip_whitespace s)
unfolding skip_whitespace
skip_whitespace-Leaves n s w =
    skip_loop-Leaves n (suc (length s.source)) s w (omega (arith, w.room))
