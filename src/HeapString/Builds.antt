-- ===== src/HeapString/Builds.antt =====
-- Building a string, elox/lib/object.c.
use slox.Chunk.Bytes.{copy_bytes-after, copy_bytes-take, length-copy_bytes}
use slox.Chunk.{copy_bytes}
use slox.HeapString.{
  Built, HeapString, extend, fill, heap_string_add_char, heap_string_add_string,
  init_heap_string_with_size, make_available, new_capacity, reserve_heap_string,
}
use slox.Prelude.{
  ℕ, ◌+◌, ◌-◌, ◌≤◌, ◌<◌, Bool, true, false, List, [], ◌∷◌, ◌++◌, ◌≡◌, refl, sym, ap, ◌∙◌, ◌⊎◌, inl,
  inr, arith, length, length-set, length-append, length-replicate, take, take-set_past, take-append,
  set, replicate, get_or, get_or-set_self, ltb, Bool-cases,
}

-- the bytes of the string so far
abbrev pub text : HeapString → List ℕ
text s = take s.length s.chars

-- the bytes fit, with the terminator after them
pub record IsTerminated (s : HeapString) : Type 0 where
  pub width : length s.chars ≡ s.capacity
  pub room : s.length < s.capacity
  pub terminator : get_or s.chars s.length 1 ≡ 0

-- a string that holds what `s` holds and then `bytes`
pub record Extended (s : HeapString) (bytes : List ℕ) (t : HeapString) : Type 0 where
  pub terminated : IsTerminated t
  pub longer : t.length ≡ s.length + length bytes
  pub holds : text t ≡ text s ++ bytes

-- there is room for `len` bytes and the terminator
record Roomy (s : HeapString) (len : ℕ) (t : HeapString) : Type 0 where
  width : length t.chars ≡ t.capacity
  enough : s.length + len < t.capacity
  same : t.length ≡ s.length
  holds : text t ≡ text s

new_capacity-enough : (s : HeapString) (len : ℕ) → s.length + len + 2 ≤ new_capacity s len
unfolding new_capacity
new_capacity-enough s len = ground arith

-- the memory lasts, or an array of the new capacity is refused and nothing is changed
abbrev pub Adds : (ℕ → Bool) → HeapString → List ℕ → Built → Type 0
Adds alloc s bytes r =
    ((t : HeapString) × (r ≡ (true, t)) × Extended s bytes t)
    ⊎ (r ≡ (false, s)) × (alloc (new_capacity s (length bytes)) ≡ false)

module _ (alloc : ℕ → Bool) (unset : ℕ) where
  -- the bytes after the terminator is moved
  filled-Extended :
      (s t : HeapString) (bytes : List ℕ)
      → Roomy s (length bytes) t
      → Extended s bytes (record t {
        length = t.length + length bytes;
        chars = copy_bytes (set t.chars (t.length + length bytes) 0) s.length bytes;
      })
  filled-Extended s t bytes r =
      let width = r.width in
      let enough = r.enough in
      let same = r.same in
      let moved = set t.chars (t.length + length bytes) 0 in
      let size = length-set t.chars (t.length + length bytes) 0 in
      record {
        terminated = record {
          width = length-copy_bytes moved s.length bytes ∙ (size ∙ width);
          room = omega (arith, same, enough);
          terminator =
              copy_bytes-after moved s.length bytes (t.length + length bytes) 1
                (omega (arith, same))
              ∙ get_or-set_self t.chars (t.length + length bytes) 0 1
                  (omega (arith, width, same, enough));
        };
        longer = omega (arith, same);
        holds =
            ap (λ n. take (n + length bytes) (copy_bytes moved s.length bytes)) same
            ∙ (copy_bytes-take moved s.length bytes (omega (arith, size, width, enough))
                ∙ ap (λ l. l ++ bytes)
                    (take-set_past t.chars s.length (t.length + length bytes) 0
                        (omega (arith, same))
                      ∙ (ap (λ n. take n t.chars) (sym same) ∙ r.holds)));
      }

  -- growth, if it is needed
  make_available-Roomy :
      (s : HeapString) (len : ℕ)
      → IsTerminated s
      → ((t : HeapString) × (make_available alloc unset s len ≡ (true, t)) × Roomy s len t)
        ⊎ (make_available alloc unset s len ≡ (false, s)) × (alloc (new_capacity s len) ≡ false)
  unfolding make_available
  make_available-Roomy s len w = elim (Bool-cases (ltb s.capacity (s.length + len + 2))) [
    | inr fits ↦
        let width = w.width in
        inl (
          s,
          (rw fits refl),
          record { width = width; enough = ground (arith, fits); same = refl; holds = refl },
        )
    | inl full ↦ elim (Bool-cases (alloc (new_capacity s len))) [
      | inr out ↦ inr ((rw (full, out) refl), out)
      | inl fine ↦
          let width = w.width in
          let room = w.room in
          let big = new_capacity-enough s len in
          let more = replicate (new_capacity s len - s.capacity) unset in
          let grows : s.capacity < s.length + len + 2 = ground (arith, full) in
          inl (
            record s { capacity = new_capacity s len; chars = s.chars ++ more },
            (rw (full, fine) refl),
            record {
              width = omega (
                arith,
                length-append s.chars more,
                length-replicate (new_capacity s len - s.capacity) unset,
                width,
                big,
                grows,
              );
              enough = omega (arith, big);
              same = refl;
              holds = take-append s.chars more s.length (omega (arith, width, room));
            },
          )
    ]
  ]

  add-Adds :
      (s : HeapString) (bytes : List ℕ)
      → IsTerminated s
      → Adds alloc s bytes
          (fill alloc unset s.length bytes (reserve_heap_string alloc unset s (length bytes)))
  unfolding fill reserve_heap_string extend
  add-Adds s bytes w = elim (make_available-Roomy s (length bytes) w) [
    | inl (t, run, r) ↦ inl (
      _,
      ap (λ b. fill alloc unset s.length bytes (extend alloc unset (length bytes) b)) run,
      filled-Extended s t bytes r,
    )
    | inr (run, out) ↦
        inr
          (ap (λ b. fill alloc unset s.length bytes (extend alloc unset (length bytes) b)) run, out)
  ]

  -- To a string with its terminator, `heapStringAddString` adds the bytes at the end, and the
  -- terminator is after them, inside the bytes that are allocated; or the allocation of a larger array
  -- fails, and nothing is changed. `heapStringAddChar` does the same for one byte.
  pub heap_string_add_string-Adds :
      (s : HeapString) (bytes : List ℕ) (ch : ℕ)
      → IsTerminated s
      → Adds alloc s bytes (heap_string_add_string alloc unset s bytes)
        × Adds alloc s (ch ∷ []) (heap_string_add_char alloc unset s ch)
  unfolding heap_string_add_string heap_string_add_char
  heap_string_add_string-Adds s bytes ch w = (add-Adds s bytes w, add-Adds s (ch ∷ []) w)

  -- `initHeapStringWithSize` with room for the terminator gives an empty string, or fails.
  pub init_heap_string_with_size-IsTerminated :
      (size : ℕ) (s : HeapString)
      → 0 < size
      → ((t : HeapString) × (init_heap_string_with_size alloc unset size s ≡ (true, t))
          × IsTerminated t
          × (text t ≡ []))
        ⊎ (init_heap_string_with_size alloc unset size s ≡ (false, s)) × (alloc size ≡ false)
  unfolding init_heap_string_with_size
  init_heap_string_with_size-IsTerminated size s lt = elim (Bool-cases (alloc size)) [
    | inr out ↦ inr ((rw out refl), out)
    | inl fine ↦
        let size_of = length-replicate size unset in
        inl (
          record { length = 0; capacity = size; chars = set (replicate size unset) 0 0 },
          (rw fine refl),
          record {
            width = length-set (replicate size unset) 0 0 ∙ size_of;
            room = lt;
            terminator = get_or-set_self (replicate size unset) 0 0 1 (omega (arith, size_of, lt));
          },
          refl,
        )
  ]
