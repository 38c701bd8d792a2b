-- ===== src/Chunk/Writes.antt =====
-- `writeChunk` of elox/lib/chunk.c on every branch.
use slox.Chunk.Bytes.{copy_bytes-take, length-copy_bytes}
use slox.Chunk.Marks.{IsLined, Marks, line_at, new-Marks, same-Marks}
use slox.Chunk.{
  Chunk, LineStart, Written, copy_bytes, no_line, not_written, outside, put_code, put_line,
  reserve_code, reserve_line, same_line, write_chunk, written,
}
use slox.Memory.Slots.{grow_lt}
use slox.Memory.{grow_capacity}
use slox.Prelude.{
  ℕ, ◌+◌, ◌-◌, ◌≤◌, ◌<◌, Bool, true, false, ◌&&◌, List, ◌++◌, ◌≡◌, refl, sym, ap, ◌∙◌, ◌⊎◌, inl,
  inr, arith, leb, length, length-append, length-replicate, get_or, get_or-append, replicate, ltb,
  take, take-append, ◌==◌, Bool-cases,
}

-- the arrays have the capacities that the chunk tells, and the starts of lines rise and are inside
-- the code
pub record IsChunk (c : Chunk) : Type 0 where
  pub lined : IsLined c
  pub code_width : length c.code ≡ c.capacity
  pub code_fits : c.count ≤ c.capacity

-- the code so far
abbrev pub code_of : Chunk → List ℕ
code_of c = take c.count c.code

-- what a write of `bytes` for a line leaves
pub record Writes (c : Chunk) (bytes : List ℕ) (line : ℕ) (d : Chunk) : Type 0 where
  pub fit : IsChunk d
  pub marks : Marks c line (length bytes) d
  pub code : code_of d ≡ code_of c ++ bytes

-- an array has to grow, and the memory is refused
abbrev pub Refused : (ℕ → Bool) → Chunk → List ℕ → Type 0
Refused alloc c bytes =
    (c.capacity < c.count + length bytes) × (alloc (grow_capacity c.capacity) ≡ false)
    ⊎ (c.line_count ≡ c.line_capacity) × (alloc (grow_capacity c.line_capacity) ≡ false)

-- the write is done; or memory is refused; or the bytes do not fit into the code, even when it grows
pub data WriteResult (alloc : ℕ → Bool) (c : Chunk) (bytes : List ℕ) (line : ℕ)
    : Written → Type 0 where
  done : (d : Chunk) → Writes c bytes line d → WriteResult alloc c bytes line (written d)
  refused : (d : Chunk) → Refused alloc c bytes → WriteResult alloc c bytes line (not_written d)
  too_long :
      (d : Chunk)
      → grow_capacity c.capacity < c.count + length bytes
      → WriteResult alloc c bytes line (outside d)

module _ (alloc : ℕ → Bool) (c : Chunk) (bytes : List ℕ) (line : ℕ) (w : IsChunk c)
    (more : 0 < length bytes) where
  -- with room for the code
  module _ (code : List ℕ) (capacity : ℕ) (width : length code ≡ capacity)
      (room : c.count + length bytes ≤ capacity) (same_code : take c.count code ≡ code_of c) where
    abbrev reserved : Chunk
    reserved = record c { capacity = capacity; code = code }

    abbrev stored : Chunk
    stored = record reserved {
      code = copy_bytes code c.count bytes;
      count = c.count + length bytes;
    }

    done-Writes :
        (d : Chunk)
        → d.code ≡ stored.code
        → d.count ≡ stored.count
        → d.capacity ≡ capacity
        → Marks c line (length bytes) d
        → Writes c bytes line d
    done-Writes d same count size m = record {
      fit = record {
        lined = m.fit;
        code_width = ap length same ∙ (length-copy_bytes code c.count bytes ∙ (width ∙ sym size));
        code_fits = omega (arith, count, size, room);
      };
      marks = m;
      code =
          ap (λ n. take n d.code) count
          ∙ (ap (take (c.count + length bytes)) same
              ∙ (copy_bytes-take code c.count bytes (omega (arith, width, room))
                  ∙ ap (λ l. l ++ bytes) same_code));
    }

    -- a start of a line, with room for it
    marked-WriteResult :
        (lines : List LineStart) (line_capacity : ℕ)
        → length lines ≡ line_capacity
        → c.line_count < line_capacity
        → ((i : ℕ) → i < c.line_count → get_or lines i no_line ≡ get_or c.lines i no_line)
        → WriteResult alloc c bytes line (
            put_line alloc line
              (true, record stored { lines = lines; line_capacity = line_capacity }))
    unfolding put_line
    marked-WriteResult lines line_capacity size lt same =
        let fits : ltb c.line_count (length lines) ≡ true = ground (arith, size, lt) in
        rw fits (
          done _ (
            done-Writes _ refl refl refl (
              new-Marks c _ line (length bytes) lines w.lined more (omega (arith, lt, size)) same
                refl refl (sym size) refl)))

    put_line-WriteResult :
        WriteResult alloc c bytes line (put_line alloc line (reserve_line alloc stored))
    unfolding reserve_line put_line
    put_line-WriteResult = elim (Bool-cases (ltb c.line_capacity (c.line_count + 1))) [
      | inr spare ↦ rw spare (
          marked-WriteResult c.lines c.line_capacity w.lined.width (ground (arith, spare))
            (λ i l. refl))
      | inl full ↦ elim (Bool-cases (alloc (grow_capacity c.line_capacity))) [
        | inr out ↦ rw (full, out) (put_line-refused out full)
        | inl fine ↦
            let more_lines = replicate (grow_capacity c.line_capacity - c.line_capacity) no_line in
            let wide = w.lined.width in
            let fits = w.lined.fits in
            let bigger = grow_lt c.line_capacity in
            let size =
              length-append c.lines more_lines
              ∙ ap (λ k. length c.lines + k)
                  (length-replicate (grow_capacity c.line_capacity - c.line_capacity) no_line) in
            rw (full, fine)
              (marked-WriteResult (c.lines ++ more_lines) (grow_capacity c.line_capacity)
                (omega (arith, size, wide, bigger)) (omega (arith, fits, bigger))
                (λ i l. get_or-append c.lines more_lines i no_line (omega (arith, l, wide, fits))))
      ]
    ]
      where
        put_line-refused :
            alloc (grow_capacity c.line_capacity) ≡ false
            → ltb c.line_capacity (c.line_count + 1) ≡ true
            → WriteResult alloc c bytes line (
                put_line alloc line
                  (false, record stored { line_capacity = grow_capacity c.line_capacity }))
        put_line-refused out full =
            let fits = w.lined.fits in refused _ (inr (ground (arith, full, fits), out))

    put_code-WriteResult :
        WriteResult alloc c bytes line (put_code alloc bytes line (true, reserved))
    unfolding put_code same_line
    put_code-WriteResult =
        let fits : leb (c.count + length bytes) (length code) ≡ true =
          ground (arith, width, room) in
        rw fits
          (elim (Bool-cases (ltb 0 c.line_count && line_at c.lines (c.line_count - 1) == line)) [
            | inl same ↦
                let some_line : 0 < c.line_count = ground (arith, same) in
                let e : line_at c.lines (c.line_count - 1) ≡ line = ground (arith, same) in
                rw same (
                  done _ (
                    done-Writes _ refl refl refl (
                      same-Marks c _ line (length bytes) w.lined more some_line e refl refl refl
                        refl)))
            | inr other ↦ rw other put_line-WriteResult
          ])

  too_short :
      (code : List ℕ)
      → length code ≡ grow_capacity c.capacity
      → leb (c.count + length bytes) (grow_capacity c.capacity) ≡ false
      → WriteResult alloc c bytes line (
          put_code alloc bytes line
            (true, record c { capacity = grow_capacity c.capacity; code = code }))
  unfolding put_code
  too_short code size short =
      let e : leb (c.count + length bytes) (length code) ≡ false =
        ap (leb (c.count + length bytes)) size ∙ short in
      rw e (too_long _ (ground (arith, short)))

  -- the larger array of code
  grown-WriteResult :
      alloc (grow_capacity c.capacity) ≡ true
      → WriteResult alloc c bytes line (
          put_code alloc bytes line (
            true,
            record c {
              capacity = grow_capacity c.capacity;
              code = c.code ++ replicate (grow_capacity c.capacity - c.capacity) 0;
            },
          ))
  grown-WriteResult fine =
      let more_code : List ℕ = replicate (grow_capacity c.capacity - c.capacity) 0 in
      let wide = w.code_width in
      let fits = w.code_fits in
      let bigger = grow_lt c.capacity in
      let size : length (c.code ++ more_code) ≡ grow_capacity c.capacity = omega (
        arith,
        length-append c.code more_code,
        length-replicate {A = ℕ} (grow_capacity c.capacity - c.capacity) 0,
        wide,
        bigger,
      ) in
      elim (Bool-cases (leb (c.count + length bytes) (grow_capacity c.capacity))) [
        | inl room ↦
            put_code-WriteResult (c.code ++ more_code) (grow_capacity c.capacity) size
              (ground (arith, room))
              (take-append c.code more_code c.count (omega (arith, wide, fits)))
        | inr short ↦ too_short (c.code ++ more_code) size short
      ]

  -- For a chunk whose arrays have their capacities, and whose line starts rise and are inside its code,
  -- and one byte or more: if `writeChunk` succeeds, the code is what it was and then the bytes,
  -- `getLine` gives their line for the last of them, and for the instructions before, from the first
  -- line start on, what it gave; and the new chunk is again such a chunk. If it fails, the code or the
  -- lines had to grow and the larger array was refused. Its stores leave the array of code only if the
  -- bytes are too many for the code grown once.
  pub write_chunk-Writes : WriteResult alloc c bytes line (write_chunk alloc c bytes line)
  unfolding write_chunk reserve_code put_code
  write_chunk-Writes = elim (Bool-cases (ltb c.capacity (c.count + length bytes))) [
    | inr room ↦
        rw room (put_code-WriteResult c.code c.capacity w.code_width (ground (arith, room)) refl)
    | inl full ↦ elim (Bool-cases (alloc (grow_capacity c.capacity))) [
      | inr out ↦ rw (full, out) (put_code-refused out full)
      | inl fine ↦ rw (full, fine) (grown-WriteResult fine)
    ]
  ]
    where
      put_code-refused :
          alloc (grow_capacity c.capacity) ≡ false
          → ltb c.capacity (c.count + length bytes) ≡ true
          → WriteResult alloc c bytes line
              (put_code alloc bytes line (false, record c { capacity = grow_capacity c.capacity }))
      put_code-refused out full = refused _ (inl (ground (arith, full), out))
