-- ===== src/Scanner/Moves.antt =====
-- Where the scanner's pointers stand in the source buffer, and which bytes of it may change.
use slox.Prelude.{
  ℕ, suc, ◌-◌, ◌≤◌, ◌<◌, ◌≡◌, ◌≢◌, refl, ◌∙◌, arith, length, get_or, Bool, true, false, while,
  while_inv, ◌==◌, inl, inr, Bool-cases,
}
use slox.Scanner.State.{Scanner, scan_peek, is_at_end, advance}

-- `n` is the offset of the buffer's terminator, and the scanner has not read past it.
pub record Within (n : ℕ) (s : Scanner) : Type 0 where
  pub nul : get_or s.source n 0 ≡ 0
  pub room : n < length s.source
  pub uint8 : (i : ℕ) → get_or s.source i 0 < 256
  pub bound : s.current ≤ n

-- From `s` to `s'` the scanner goes forward, and what it has not read stays as it was, as does
-- what it had read before.
pub record Moves (s s' : Scanner) : Type 0 where
  pub width : length s'.source ≡ length s.source
  pub forward : s.current ≤ s'.current
  pub lines : s.line ≤ s'.line
  pub unread : (i : ℕ) → s'.current ≤ i → get_or s'.source i 0 ≡ get_or s.source i 0
  pub before : (i : ℕ) → i < s.current → get_or s'.source i 0 ≡ get_or s.source i 0
  pub uint8 : ((i : ℕ) → get_or s.source i 0 < 256) → (i : ℕ) → get_or s'.source i 0 < 256

pub Moves-trans : {a b c : Scanner} → Moves a b → Moves b c → Moves a c
Moves-trans p q = record {
  width = q.width ∙ p.width;
  forward = omega arith;
  lines = omega arith;
  unread = λ i h. q.unread i h ∙ p.unread i (omega arith);
  before = λ i h. q.before i (omega arith) ∙ p.before i h;
  uint8 = λ u. q.uint8 (p.uint8 u);
}

-- the buffer is the same
pub Moves-to :
    (s s' : Scanner) → s'.source ≡ s.source → s.current ≤ s'.current → s.line ≤ s'.line → Moves s s'
Moves-to s s' e h l = record {
  width = rw e;
  forward = h;
  lines = l;
  unread = λ i _. rw e;
  before = λ i _. rw e;
  uint8 = λ u i. rw e (u i);
}

pub Within-after : {n : ℕ} {s s' : Scanner} → Within n s → Moves s s' → s'.current ≤ n → Within n s'
Within-after {n} w m h = record {
  nul = m.unread n h ∙ w.nul;
  room = rw m.width w.room;
  uint8 = m.uint8 w.uint8;
  bound = h;
}

-- before the terminator there is room to advance
pub peek_lt : {n : ℕ} {s : Scanner} → Within n s → scan_peek s ≢ 0 → s.current < n
unfolding scan_peek
peek_lt {n} {s} w h = elim (Bool-cases (s.current == n)) [
  | inl e ↦ let d : s.current ≡ n = ground arith in absurd (h (rw d w.nul))
  | inr e ↦ let d : s.current ≢ n = ground arith in omega (arith, w.bound)
]

pub at_end_iff : (s : Scanner) → is_at_end s ≡ false → scan_peek s ≢ 0
unfolding is_at_end
at_end_iff s h e = ground arith

-- what a loop that only advances reaches
pub record Advanced (n : ℕ) (s s' : Scanner) : Type 0 where
  pub same : s'.source ≡ s.source
  pub forward : s.current ≤ s'.current
  pub lines : s.line ≤ s'.line
  pub start : s'.start ≡ s.start
  pub bound : s'.current ≤ n

pub Advanced-Moves : {n : ℕ} {s s' : Scanner} → Advanced n s s' → Moves s s'
Advanced-Moves {n} {s} {s'} a = Moves-to s s' a.same a.forward a.lines

pub Advanced-self : (n : ℕ) (s : Scanner) → s.current ≤ n → Advanced n s s
Advanced-self n s h = record {
  same = refl;
  forward = omega arith;
  lines = omega arith;
  start = refl;
  bound = h;
}

pub Advanced-trans : {n : ℕ} {a b c : Scanner} → Advanced n a b → Advanced n b c → Advanced n a c
Advanced-trans p q = record {
  same = q.same ∙ p.same;
  forward = omega (arith, p.forward, q.forward);
  lines = omega (arith, p.lines, q.lines);
  start = q.start ∙ p.start;
  bound = q.bound;
}

pub Within-Advanced : {n : ℕ} {s s' : Scanner} → Within n s → Advanced n s s' → Within n s'
Within-Advanced w a = Within-after w (Advanced-Moves a) a.bound

-- a step over a byte that is not the terminator
pub advance-Advanced :
    {n : ℕ} {s : Scanner} (l : ℕ)
    → Within n s
    → s.line ≤ l
    → scan_peek s ≢ 0
    → Advanced n s (advance (record s { line = l }))
advance-Advanced {n} {s} l w h p = record {
  same = refl;
  forward = omega arith;
  lines = h;
  start = refl;
  bound = omega (arith, peek_lt w p);
}

module _ (test : Scanner → Bool) (stops : (s : Scanner) → test s ≡ true → scan_peek s ≢ 0) where
  pub while-Advanced :
      (n : ℕ) (s : Scanner)
      → Within n s
      → Advanced n s (while (suc (length s.source)) test advance s)
        × (test (while (suc (length s.source)) test advance s) ≡ false)
  while-Advanced n s w =
      while_inv (Advanced n s) (λ t. n - t.current) test advance
        (λ t a h.
          let lt : t.current < n =
            peek_lt (Within-after w (Advanced-Moves a) a.bound) (stops t h) in
          (
            record {
              same = a.same;
              forward = omega (arith, a.forward);
              lines = a.lines;
              start = a.start;
              bound = omega (arith, lt);
            },
            omega arith,
          ))
        (suc (length s.source)) s (omega (arith, w.room))
        (record {
          same = refl;
          forward = omega arith;
          lines = omega arith;
          start = refl;
          bound = w.bound;
        })

pub scan_peek_same :
    (s t : Scanner) → t.source ≡ s.source → t.current ≡ s.current → scan_peek t ≡ scan_peek s
unfolding scan_peek
scan_peek_same s t e d = rw (e, d)

pub peek_uint8 : {n : ℕ} {s : Scanner} → Within n s → scan_peek s < 256
unfolding scan_peek
peek_uint8 {n} {s} w = w.uint8 s.current

pub advance-Within : {n : ℕ} {s : Scanner} → Within n s → scan_peek s ≢ 0 → Within n (advance s)
advance-Within {n} {s} w e = Within-Advanced w (advance-Advanced s.line w (omega arith) e)
