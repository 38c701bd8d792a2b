-- ===== src/Scanner/Literals/Writes.antt =====
-- Stores into the source buffer: their length, their range, and that they are bytes.
use slox.Prelude.{
  ℕ, zero, suc, ◌+◌, ◌/◌, ◌%◌, ◌^◌, ◌≤◌, ◌<◌, Bool, true, List, [], ◌∷◌, Option, none, some, ◌≡◌,
  refl, ◌⊎◌, inl, inr, ◌∙◌, arith, length, get_or, set, length-set, get_or-set_ne, bit_or, ltb, leb,
  all_below, all_below_sound, Bool-cases,
}
use slox.Scanner.Literals.{write_bytes}
use slox.Scanner.Utf8.{utf8_bytes}
use slox.Scanner.Utf8.Tables.{Fits}

abbrev pub AreBytes : List ℕ → Type 0
AreBytes [] = Unit
AreBytes (b ∷ bs) = (b < 256) × AreBytes bs

pub length-write_bytes :
    (xs : List ℕ) (i : ℕ) (bs : List ℕ) → length (write_bytes xs i bs) ≡ length xs
unfolding write_bytes
length-write_bytes xs i [] = refl
length-write_bytes xs i (b ∷ bs) = length-write_bytes (set xs i b) (i + 1) bs ∙ length-set xs i b

pub get_or-write_bytes :
    (xs : List ℕ) (i : ℕ) (bs : List ℕ) (j : ℕ)
    → (j < i) ⊎ (i + length bs ≤ j)
    → get_or (write_bytes xs i bs) j 0 ≡ get_or xs j 0
unfolding write_bytes
get_or-write_bytes xs i [] j h = refl
get_or-write_bytes xs i (b ∷ bs) j h =
    get_or-write_bytes (set xs i b) (i + 1) bs j (omega arith)
    ∙ get_or-set_ne xs i j b 0 (omega arith)

set_uint8 :
    (xs : List ℕ) (i b : ℕ)
    → b < 256
    → ((j : ℕ) → get_or xs j 0 < 256)
    → (j : ℕ) → get_or (set xs i b) j 0 < 256
set_uint8 [] i b h all j = all j
set_uint8 (x ∷ xs) zero b h all zero = h
set_uint8 (x ∷ xs) zero b h all (suc j) = all (suc j)
set_uint8 (x ∷ xs) (suc i) b h all zero = all zero
set_uint8 (x ∷ xs) (suc i) b h all (suc j) = set_uint8 xs i b h (λ k. all (suc k)) j

pub write_bytes_uint8 :
    (xs : List ℕ) (i : ℕ) (bs : List ℕ)
    → AreBytes bs
    → ((j : ℕ) → get_or xs j 0 < 256)
    → (j : ℕ) → get_or (write_bytes xs i bs) j 0 < 256
unfolding write_bytes
write_bytes_uint8 xs i [] h all = all
write_bytes_uint8 xs i (b ∷ bs) h all =
    write_bytes_uint8 (set xs i b) (i + 1) bs h.1 (set_uint8 xs i b h.0 all)

marked : ℕ → ℕ → Bool
marked mask x = ltb (bit_or x mask) 256

marked_80 : all_below 64 (marked 0x80) ≡ true
unfolding all_below marked
marked_80 = refl

marked_c0 : all_below 32 (marked 0xc0) ≡ true
unfolding all_below marked
marked_c0 = refl

marked_e0 : all_below 16 (marked 0xe0) ≡ true
unfolding all_below marked
marked_e0 = refl

marked_f0 : all_below 8 (marked 0xf0) ≡ true
unfolding all_below marked
marked_f0 = refl

marked_sound : (k mask x : ℕ) → all_below k (marked mask) ≡ true → x < k → bit_or x mask < 256
unfolding marked
marked_sound k mask x t h = let e = all_below_sound k (marked mask) x t h in ground arith

abbrev pub Encodes : ℕ → Option (List ℕ) → Type 0
Encodes cp none = Unit
Encodes cp (some bs) = AreBytes bs × ((w : ℕ) → 1 ≤ w → Fits w cp → length bs ≤ w) × (length bs ≤ 4)

-- The encoder writes bytes, at most as many as the code point was read from, and at most four.
pub utf8_bytes-Encodes : (cp : ℕ) → Encodes cp (utf8_bytes cp)
unfolding utf8_bytes
utf8_bytes-Encodes cp = elim (Bool-cases (leb cp 0x7f)) [
  | inl e ↦ rw e ((ground arith, tt), λ w h f. omega arith, omega arith)
  | inr e ↦ rw e (elim (Bool-cases (leb cp 0x7ff)) [
    | inl f ↦ rw f (
      (
        marked_sound 32 0xc0 (cp / 2 ^ 6 % 0x20) marked_c0 (omega arith),
        (marked_sound 64 0x80 (cp % 0x40) marked_80 (omega arith), tt),
      ),
      λ w h g. ground arith,
      omega arith,
    )
    | inr f ↦ rw f (elim (Bool-cases (leb cp 0xffff)) [
      | inl g ↦ rw g (
        (
          marked_sound 16 0xe0 (cp / 2 ^ 12 % 0x10) marked_e0 (omega arith),
          (
            marked_sound 64 0x80 (cp / 2 ^ 6 % 0x40) marked_80 (omega arith),
            (marked_sound 64 0x80 (cp % 0x40) marked_80 (omega arith), tt),
          ),
        ),
        λ w h k. ground arith,
        omega arith,
      )
      | inr g ↦ rw g (elim (Bool-cases (leb cp 0x10ffff)) [
        | inl k ↦ rw k (
          (
            marked_sound 8 0xf0 (cp / 2 ^ 18 % 0x8) marked_f0 (omega arith),
            (
              marked_sound 64 0x80 (cp / 2 ^ 12 % 0x40) marked_80 (omega arith),
              (
                marked_sound 64 0x80 (cp / 2 ^ 6 % 0x40) marked_80 (omega arith),
                (marked_sound 64 0x80 (cp % 0x40) marked_80 (omega arith), tt),
              ),
            ),
          ),
          λ w h m. ground arith,
          omega arith,
        )
        | inr k ↦ rw k tt
      ])
    ])
  ])
]

pub AreBytes-uint8 : (xs : List ℕ) → AreBytes xs → (i : ℕ) → get_or xs i 0 < 256
AreBytes-uint8 [] h i = omega arith
AreBytes-uint8 (x ∷ xs) h zero = h.0
AreBytes-uint8 (x ∷ xs) h (suc i) = AreBytes-uint8 xs h.1 i
