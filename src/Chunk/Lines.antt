-- ===== src/Chunk/Lines.antt =====
-- The binary search of `getLine` of elox/lib/chunk.c.
use slox.Chunk.{Chunk, LineStart, no_line, search_line, get_line}
use slox.Prelude.{
  ℕ, zero, suc, ◌+◌, ◌-◌, ◌/◌, ◌≤◌, ◌<◌, true, false, ◌||◌, List, Option, some, ◌≡◌, ◌≢◌, ◌∙◌, ap,
  refl, ◌⊎◌, inl, inr, arith, get_or, ltb, ◌==◌, Bool-cases,
}

abbrev pub offset_at : List LineStart → ℕ → ℕ
offset_at lines i = (get_or lines i no_line).offset

-- the last line start at or before an instruction, in a search from there on
abbrev pub Covers : List LineStart → ℕ → ℕ → ℕ → Type 0
Covers lines count instruction m =
    (m < count)
    × (offset_at lines m ≤ instruction)
    × ((m + 1 ≡ count) ⊎ (instruction < offset_at lines (m + 1)))

abbrev pub FindsLine : List LineStart → ℕ → ℕ → Option ℕ → Type 0
FindsLine lines count instruction r =
    (m : ℕ) × (r ≡ some (get_or lines m no_line).line) × Covers lines count instruction m

ltb_lt : (a b : ℕ) → ltb a b ≡ true → a < b
ltb_lt a b e = ground arith

ltb_ge : (a b : ℕ) → ltb a b ≡ false → b ≤ a
ltb_ge a b e = ground arith

last_or : (a count i o : ℕ) → (a == count || ltb i o) ≡ true → (a ≡ count) ⊎ (i < o)
last_or a count i o e = elim (Bool-cases (a == count)) [
  | inl s ↦ inl (ground arith)
  | inr d ↦ inr (ground arith)
]

not_last : (a count i o : ℕ) → (a == count || ltb i o) ≡ false → (o ≤ i)
not_last a count i o e = ground arith

after :
    (offset : ℕ → ℕ) (start mid instruction : ℕ)
    → start ≤ mid
    → offset start ≤ instruction
    → instruction < offset mid
    → start < mid
after offset start mid instruction l f b = elim (Bool-cases (start == mid)) [
  | inl s ↦ let same : start ≡ mid = ground arith in absurd (omega (arith, ap offset same, f, b))
  | inr d ↦ ground arith
]

is_not : (a count i o : ℕ) → (a == count || ltb i o) ≡ false → a ≢ count
is_not a count i o e s = ground arith

further :
    (offset : ℕ → ℕ) (count end mid instruction : ℕ)
    → mid < end
    → (mid + 1 == count || ltb instruction (offset (mid + 1))) ≡ false
    → (end ≡ count) ⊎ (instruction < offset end)
    → mid + 1 < end
further offset count end mid instruction h l to = elim (Bool-cases (mid + 1 == end)) [
  | inr d ↦ ground arith
  | inl s ↦
      let same : mid + 1 ≡ end = ground arith in
      elim to [
        | inl e ↦ absurd (is_not (mid + 1) count instruction _ l (same ∙ e))
        | inr b ↦
            absurd (omega (arith, ap offset same, not_last (mid + 1) count instruction _ l, b))
      ]
]

module _ (lines : List LineStart) (count instruction : ℕ) where
  search_line-Finds :
      (rounds start end : ℕ)
      → start < end
      → end ≤ count
      → offset_at lines start ≤ instruction
      → (end ≡ count) ⊎ (instruction < offset_at lines end)
      → end ≤ start + rounds
      → FindsLine lines count instruction (search_line rounds lines count instruction start end)
  unfolding search_line
  search_line-Finds zero start end lt le from to enough = absurd (omega arith)
  search_line-Finds (suc rounds) start end lt le from to enough =
      let mid = (start + end - 1) / 2 in
      let low : start ≤ (start + end - 1) / 2 = omega arith in
      let high : (start + end - 1) / 2 < end = omega arith in
      elim (Bool-cases (ltb instruction (offset_at lines mid))) [
        | inl below ↦ rw below (
            search_line-Finds rounds start mid
              (after (offset_at lines) start mid instruction low from (ltb_lt _ _ below))
              (omega arith) from (inr (ltb_lt _ _ below)) (omega arith))
        | inr above ↦
            elim (Bool-cases (mid + 1 == count || ltb instruction (offset_at lines (mid + 1)))) [
              | inl here ↦
                  rw (above, here)
                    (
                      mid,
                      refl,
                      (
                        omega (arith, high),
                        ltb_ge _ _ above,
                        last_or (mid + 1) count instruction _ here,
                      ),
                    )
              | inr later ↦
                  let from' = not_last (mid + 1) count instruction _ later in
                  rw (above, later)
                    (search_line-Finds rounds (mid + 1) end
                      (further (offset_at lines) count end mid instruction high later to) le from'
                      to (omega arith))
            ]
      ]

-- For a chunk with a line, and an instruction at or after the first line start: `getLine` ends, and
-- gives the line of a start that is at or before the instruction, while the next start, if there is
-- one, is after it.
pub get_line-Finds :
    (chunk : Chunk) (instruction : ℕ)
    → 0 < chunk.line_count
    → (get_or chunk.lines 0 no_line).offset ≤ instruction
    → FindsLine chunk.lines chunk.line_count instruction (get_line chunk instruction)
unfolding get_line
get_line-Finds chunk instruction some_line from =
    search_line-Finds chunk.lines chunk.line_count instruction (suc chunk.line_count) 0
      chunk.line_count some_line (omega arith) from (inl refl) (omega arith)
