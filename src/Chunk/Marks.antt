-- ===== src/Chunk/Marks.antt =====
-- The starts of lines that `writeChunk` adds, against `getLine`, elox/lib/chunk.c.
use slox.Chunk.Lines.{Covers, get_line-Finds, offset_at}
use slox.Chunk.{Chunk, LineStart, get_line, no_line, search_line}
use slox.Prelude.{
  ℕ, zero, suc, ◌+◌, ◌-◌, ◌≤◌, ◌<◌, List, some, ◌≡◌, sym, ap, ◌∙◌, ◌⊎◌, inl, inr, arith, length,
  length-set, get_or, get_or-set_ne, get_or-set_self, set, ltb, ◌==◌, Bool-cases,
}

abbrev pub line_at : List LineStart → ℕ → ℕ
line_at lines i = (get_or lines i no_line).line

-- the starts of lines rise, and are inside the code
pub record IsLined (c : Chunk) : Type 0 where
  pub width : length c.lines ≡ c.line_capacity
  pub fits : c.line_count ≤ c.line_capacity
  pub rising : (i j : ℕ) → i < j → j < c.line_count → offset_at c.lines i < offset_at c.lines j
  pub below : (i : ℕ) → i < c.line_count → offset_at c.lines i < c.count

Covers-unique :
    (c : Chunk) (instruction m n : ℕ)
    → IsLined c
    → Covers c.lines c.line_count instruction m
    → Covers c.lines c.line_count instruction n
    → m < n
    → ⊥
Covers-unique c instruction m n w (ml, mo, mn) (nl, no', nn) lt = elim mn [
  | inl e ↦ omega (arith, e, nl, lt)
  | inr f ↦ elim (Bool-cases (m + 1 == n)) [
    | inl s ↦ let s' : m + 1 ≡ n = ground arith in omega (arith, ap (offset_at c.lines) s', f, no')
    | inr d ↦
        let l : m + 1 < n = ground arith in
        let r = w.rising (m + 1) n l nl in omega (arith, r, f, no')
  ]
]

-- the start that covers an instruction gives its line
get_line-Covers :
    (c : Chunk) (instruction m : ℕ)
    → IsLined c
    → Covers c.lines c.line_count instruction m
    → get_line c instruction ≡ some (line_at c.lines m)
get_line-Covers c instruction m w cov =
    let (ml, mo, mn) = cov in
    let (n, run, cov') = get_line-Finds c instruction (omega (arith, ml)) (first m ml mo) in
    run ∙ ap (λ i. some (line_at c.lines i)) (same n cov')
  where
    first :
        (m : ℕ)
        → m < c.line_count
        → offset_at c.lines m ≤ instruction
        → offset_at c.lines 0 ≤ instruction
    first zero ml mo = mo
    first (suc m) ml mo = let r = w.rising 0 (suc m) (omega arith) ml in omega (arith, r, mo)

    same : (n : ℕ) → Covers c.lines c.line_count instruction n → n ≡ m
    same n cov' = elim (Bool-cases (ltb n m)) [
      | inl l ↦ absurd (Covers-unique c instruction n m w cov' cov (ground arith))
      | inr g ↦ elim (Bool-cases (ltb m n)) [
        | inl l ↦ absurd (Covers-unique c instruction m n w cov cov' (ground arith))
        | inr h ↦ ground arith
      ]
    ]

-- what a write of some bytes for a line leaves of the lines
pub record Marks (c : Chunk) (line : ℕ) (len : ℕ) (d : Chunk) : Type 0 where
  pub fit : IsLined d
  pub longer : d.count ≡ c.count + len
  -- the last byte is on that line
  pub here : get_line d (d.count - 1) ≡ some line
  -- the instructions before are where they were
  pub kept :
      (i : ℕ)
      → 0 < c.line_count
      → offset_at c.lines 0 ≤ i
      → i < c.count
      → get_line d i ≡ get_line c i

-- still on the same line
pub same-Marks :
    (c d : Chunk) (line len : ℕ)
    → IsLined c
    → 0 < len
    → 0 < c.line_count
    → line_at c.lines (c.line_count - 1) ≡ line
    → d.lines ≡ c.lines
    → d.line_count ≡ c.line_count
    → d.line_capacity ≡ c.line_capacity
    → d.count ≡ c.count + len
    → Marks c line len d
unfolding get_line
same-Marks c d line len w more some_line e l n cap longer = record {
  fit = fit;
  longer = longer;
  here = last;
  kept = λ i s f b. kept i;
}
  where
    fit : IsLined d
    fit = record {
      width = (let width = w.width in ap length l ∙ (width ∙ sym cap));
      fits = (let fits = w.fits in omega (arith, n, cap, fits));
      rising = λ i j a b.
          (let r = w.rising i j a (omega (arith, b, n)) in
            omega (arith, r, ap (λ l. offset_at l i) l, ap (λ l. offset_at l j) l));
      below = λ i a.
          (let r = w.below i (omega (arith, a, n)) in
            omega (arith, r, ap (λ l. offset_at l i) l, longer));
    }

    last : get_line d (d.count - 1) ≡ some line
    last =
        let k = d.line_count - 1 in
        let r = fit.below k (omega (arith, n, some_line)) in
        get_line-Covers d (d.count - 1) k fit
          (omega (arith, n, some_line), omega (arith, r), inl (omega (arith, n, some_line)))
        ∙ ap some (ap (λ l. line_at l k) l ∙ (ap (λ m. line_at c.lines (m - 1)) n ∙ e))

    kept : (i : ℕ) → get_line d i ≡ get_line c i
    kept i =
        ap (λ l. search_line (suc d.line_count) l d.line_count i 0 d.line_count) l
        ∙ ap (λ m. search_line (suc m) c.lines m i 0 m) n

-- a new line start after the old ones
module _ (c d : Chunk) (line len : ℕ) (lines : List LineStart) (w : IsLined c) (more : 0 < len)
    (room : c.line_count < length lines)
    (same : (i : ℕ) → i < c.line_count → get_or lines i no_line ≡ get_or c.lines i no_line)
    (put : d.lines ≡ set lines c.line_count (record { offset = c.count + len - 1; line = line }))
    (n : d.line_count ≡ c.line_count + 1) (cap : d.line_capacity ≡ length lines)
    (longer : d.count ≡ c.count + len) where
  old : (i : ℕ) → i < c.line_count → get_or d.lines i no_line ≡ get_or c.lines i no_line
  old i lt =
      ap (λ l. get_or l i no_line) put
      ∙ (get_or-set_ne lines c.line_count i _ no_line (omega (arith, lt)) ∙ same i lt)

  new : get_or d.lines c.line_count no_line ≡ record { offset = c.count + len - 1; line = line }
  new =
      ap (λ l. get_or l c.line_count no_line) put
      ∙ get_or-set_self lines c.line_count _ no_line room

  old_offset : (i : ℕ) → i < c.line_count → offset_at d.lines i ≡ offset_at c.lines i
  old_offset i lt = ap (λ s. s.offset) (old i lt)

  new_offset : offset_at d.lines c.line_count ≡ c.count + len - 1
  new_offset = ap (λ s. s.offset) new

  fit : IsLined d
  fit = record {
    width = ap length put ∙ (length-set lines c.line_count _ ∙ sym cap);
    fits = omega (arith, n, cap, room);
    rising = λ i j a b. elim (Bool-cases (j == c.line_count)) [
      | inl s ↦
          let s' : j ≡ c.line_count = ground arith in
          let lt : i < c.line_count = omega (arith, a, s') in
          let r = w.below i lt in
          omega (arith, r, old_offset i lt, ap (offset_at d.lines) s', new_offset, more)
      | inr t ↦
          let lt : j < c.line_count = ground (arith, b, n) in
          let r = w.rising i j a lt in
          omega (arith, r, old_offset i (omega (arith, a, lt)), old_offset j lt)
    ];
    below = λ i a. elim (Bool-cases (i == c.line_count)) [
      | inl s ↦
          let s' : i ≡ c.line_count = ground arith in
          omega (arith, ap (offset_at d.lines) s', new_offset, longer, more)
      | inr t ↦
          let lt : i < c.line_count = ground (arith, a, n) in
          let r = w.below i lt in omega (arith, r, old_offset i lt, longer)
    ];
  }

  here : get_line d (d.count - 1) ≡ some line
  here =
      get_line-Covers d (d.count - 1) c.line_count fit
        (omega (arith, n), omega (arith, new_offset, longer), inl (omega (arith, n)))
      ∙ ap some (ap (λ s. s.line) new)

  kept :
      (i : ℕ)
      → 0 < c.line_count
      → offset_at c.lines 0 ≤ i
      → i < c.count
      → get_line d i ≡ get_line c i
  kept i some_line from inside =
      let (m, run, (ml, mo, mn)) = get_line-Finds c i some_line from in
      get_line-Covers d i m fit
        (omega (arith, ml, n), omega (arith, mo, old_offset m ml), inr (next m ml mn))
      ∙ (ap (λ s. some s.line) (old m ml) ∙ sym run)
    where
      next :
          (m : ℕ)
          → m < c.line_count
          → (m + 1 ≡ c.line_count) ⊎ (i < offset_at c.lines (m + 1))
          → i < offset_at d.lines (m + 1)
      next m ml mn = elim (Bool-cases (m + 1 == c.line_count)) [
        | inl s ↦
            let s' : m + 1 ≡ c.line_count = ground arith in
            omega (arith, ap (offset_at d.lines) s', new_offset, inside, more)
        | inr t ↦
            let lt : m + 1 < c.line_count = ground (arith, ml) in
            elim mn [
              | inl e ↦ absurd (omega (arith, e, lt))
              | inr f ↦ omega (arith, f, old_offset (m + 1) lt)
            ]
      ]

  pub new-Marks : Marks c line len d
  new-Marks = record { fit = fit; longer = longer; here = here; kept = kept }
