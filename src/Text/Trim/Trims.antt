-- ===== src/Text/Trim/Trims.antt =====
-- What `stringTrim` of elox/lib/string/string.c leaves.
use slox.Prelude.{
  ℕ, zero, suc, ◌+◌, ◌-◌, ◌≤◌, ◌<◌, Bool, true, false, List, [], ◌∷◌, ◌≡◌, refl, ap, ◌∙◌, ◌⊎◌, inl,
  inr, arith, drop, get_or, length, ltb, take, Bool-cases,
}
use slox.Text.Ctype.{is_whitespace}
use slox.Text.Trim.{leading, string_trim, trailing}

abbrev blank_at : List ℕ → ℕ → Bool
blank_at str i = is_whitespace (get_or str i 0)

leading-blank :
    (str : List ℕ)
    → (leading str ≤ length str)
      × ((i : ℕ) → i < leading str → blank_at str i ≡ true)
      × ((leading str ≡ length str) ⊎ (blank_at str (leading str) ≡ false))
unfolding leading
leading-blank [] = (omega arith, λ i lt. absurd (omega (arith, lt)), inl refl)
leading-blank (c ∷ cs) = elim (Bool-cases (is_whitespace c)) [
  | inr e ↦ rw e (omega arith, λ i lt. absurd (omega (arith, lt)), inr e)
  | inl e ↦
      let (le, all, end) = leading-blank cs in
      rw e (
        omega (arith, le),
        λ i lt. at e all i lt,
        elim end [ inl s ↦ inl (ap suc s) | inr f ↦ inr f ],
      )
]
  where
    at :
        is_whitespace c ≡ true
        → ((i : ℕ) → i < leading cs → blank_at cs i ≡ true)
        → (i : ℕ) → i < suc (leading cs)
        → blank_at (c ∷ cs) i ≡ true
    at e all zero lt = e
    at e all (suc i) lt = all i (omega (arith, lt))

trailing-blank :
    (b : ℕ) (str : List ℕ)
    → (trailing b str ≤ b)
      × ((i : ℕ) → trailing b str ≤ i → i < b → blank_at str i ≡ true)
      × ((trailing b str ≡ 0) ⊎ (blank_at str (trailing b str - 1) ≡ false))
unfolding trailing
trailing-blank zero str = (omega arith, λ i le lt. absurd (omega (arith, lt)), inl refl)
trailing-blank (suc b) str = elim (Bool-cases (blank_at str b)) [
  | inr e ↦
      let z : suc b - 1 ≡ b = omega arith in
      rw e (omega arith, λ i le lt. absurd (omega (arith, le, lt)), inr (ap (blank_at str) z ∙ e))
  | inl e ↦
      let (le, all, end) = trailing-blank b str in
      rw e (omega (arith, le), λ i ge lt. at e all i ge lt (ltb i b) refl, end)
]
  where
    at :
        blank_at str b ≡ true
        → ((i : ℕ) → trailing b str ≤ i → i < b → blank_at str i ≡ true)
        → (i : ℕ) → trailing b str ≤ i
        → i < suc b
        → (t : Bool) → ltb i b ≡ t
        → blank_at str i ≡ true
    at e all i ge lt true s = all i ge (ground (arith, s))
    at e all i ge lt false s =
        let same : i ≡ b = ground (arith, s, lt) in ap (blank_at str) same ∙ e

-- a stretch of the text with blanks before and after, and none at its ends
abbrev pub Trims : List ℕ → List ℕ → Type 0
Trims str r =
    (a : ℕ) × (n : ℕ) × (r ≡ take n (drop a str))
    × (a + n ≤ length str)
    × ((i : ℕ) → i < a → is_whitespace (get_or str i 0) ≡ true)
    × ((i : ℕ) → a + n ≤ i → i < length str → is_whitespace (get_or str i 0) ≡ true)
    × ((n ≡ 0)
        ⊎ (is_whitespace (get_or str a 0) ≡ false)
          × (is_whitespace (get_or str (a + n - 1) 0) ≡ false))

-- `stringTrim` gives a stretch of the text. All bytes before it and after it are white space, and if
-- it is not empty, its first and its last byte are not.
pub string_trim-Trims : (str : List ℕ) → Trims str (string_trim str)
unfolding string_trim
string_trim-Trims str =
    let (le, before, first) = leading-blank str in
    let (ge, after, last) = trailing-blank (length str) str in
    elim (Bool-cases (ltb (leading str) (trailing (length str) str))) [
      | inl lt ↦
          let less : leading str < trailing (length str) str = ground (arith, lt) in
          let e : leading str + (trailing (length str) str - leading str)
              ≡ trailing (length str) str =
            omega (arith, less) in
          rw lt (
            leading str,
            trailing (length str) str - leading str,
            refl,
            omega (arith, less, ge),
            before,
            λ i l m. after i (omega (arith, l, e)) m,
            inr (
              elim first [ inl s ↦ absurd (omega (arith, s, less, ge)) | inr f ↦ f ],
              elim last [
                | inl s ↦ absurd (omega (arith, s, less))
                | inr f ↦ ap (λ k. blank_at str (k - 1)) e ∙ f
              ],
            ),
          )
      | inr no' ↦
          let more : trailing (length str) str ≤ leading str = ground (arith, no') in
          rw no' (
            leading str,
            0,
            refl,
            omega (arith, le),
            before,
            λ i l m. after i (omega (arith, l, more)) m,
            inl refl,
          )
    ]
