-- ===== src/Chunk/Bytes.antt =====
-- What `memcpy` into the code of a chunk, or into the bytes of a string, leaves.
use slox.Chunk.{copy_bytes}
use slox.Prelude.{
  ℕ, suc, ◌+◌, ◌≤◌, List, [], ◌∷◌, ◌++◌, ◌≡◌, refl, ap, ◌∙◌, arith, length, length-set, take,
  take-set, append_one, set, get_or, get_or-set_ne,
}

pub length-copy_bytes :
    (code : List ℕ) (at : ℕ) (bytes : List ℕ) → length (copy_bytes code at bytes) ≡ length code
unfolding copy_bytes
length-copy_bytes code at [] = refl
length-copy_bytes code at (b ∷ bytes) =
    length-copy_bytes (set code at b) (at + 1) bytes ∙ length-set code at b

pub copy_bytes-take :
    (code : List ℕ) (at : ℕ) (bytes : List ℕ)
    → at + length bytes ≤ length code
    → take (at + length bytes) (copy_bytes code at bytes) ≡ take at code ++ bytes
unfolding copy_bytes
copy_bytes-take code at [] le =
    let e : at + 0 ≡ at = omega arith in ap (λ n. take n code) e ∙ append_nil (take at code)
  where
    append_nil : (l : List ℕ) → l ≡ l ++ []
    append_nil [] = refl
    append_nil (x ∷ xs) = ap (λ l. x ∷ l) (append_nil xs)
copy_bytes-take code at (b ∷ bytes) le =
    let e : at + suc (length bytes) ≡ at + 1 + length bytes = omega arith in
    ap (λ n. take n (copy_bytes (set code at b) (at + 1) bytes)) e
    ∙ (copy_bytes-take (set code at b) (at + 1) bytes (omega (arith, le, length-set code at b))
        ∙ (ap (λ l. l ++ bytes) (take-set code at b (omega (arith, le)))
            ∙ append_one (take at code) b bytes))

pub copy_bytes-after :
    (code : List ℕ) (at : ℕ) (bytes : List ℕ) (i d : ℕ)
    → at + length bytes ≤ i
    → get_or (copy_bytes code at bytes) i d ≡ get_or code i d
unfolding copy_bytes
copy_bytes-after code at [] i d le = refl
copy_bytes-after code at (b ∷ bytes) i d le =
    copy_bytes-after (set code at b) (at + 1) bytes i d (omega (arith, le))
    ∙ get_or-set_ne code at i b d (λ e. omega (arith, le, e))
