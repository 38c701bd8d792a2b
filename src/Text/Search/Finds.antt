-- ===== src/Text/Search/Finds.antt =====
-- What `memmem` of elox/lib/string/string.c finds.
use slox.Prelude.{
  ℕ, zero, suc, ◌+◌, ◌≤◌, ◌<◌, Bool, true, false, ◌&&◌, List, [], ◌∷◌, Option, none, some, ◌≡◌, ◌≢◌,
  refl, sym, ap, ◌∙◌, subst, ◌⊎◌, inl, inr, arith, bytes_equal, bytes_equal_sound, bytes_equal_refl,
  drop, get_or, length, ltb, take, ◌==◌, ==_iff, Bool-cases,
}
use slox.Text.Search.{find_from, memchr, memmem, skip_other, skip_same}

-- the needle stands at the offset
abbrev pub Occurs : List ℕ → List ℕ → ℕ → Type 0
Occurs x y j = (j + length x ≤ length y) × (take (length x) (drop j y) ≡ x)

-- the first place of the needle, or none if it has no place
abbrev pub Answers : List ℕ → List ℕ → Option ℕ → Type 0
Answers x y none = (j : ℕ) → ¬ Occurs x y j
Answers x y (some j) = Occurs x y j × ((i : ℕ) → i < j → ¬ Occurs x y i)

drop-unfold : (y : List ℕ) (j : ℕ) → j < length y → drop j y ≡ get_or y j 0 ∷ drop (j + 1) y
drop-unfold [] j lt = absurd (omega (arith, lt))
drop-unfold (b ∷ y) zero lt = refl
drop-unfold (b ∷ y) (suc j) lt =
    let e : suc j + 1 ≡ suc (j + 1) = omega arith in
    drop-unfold y j (omega (arith, lt)) ∙ ap (λ k. get_or y j 0 ∷ drop k (b ∷ y)) (sym e)

module _ (x0 x1 : ℕ) (xs y : List ℕ) where
  abbrev needle : List ℕ
  needle = x0 ∷ x1 ∷ xs

  -- the text at an offset
  at_offset :
      (j : ℕ)
      → j + (length xs + 2) ≤ length y
      → take (length needle) (drop j y)
        ≡ get_or y j 0 ∷ get_or y (j + 1) 0 ∷ take (length xs) (drop (j + 2) y)
  at_offset j le =
      let e : j + 1 + 1 ≡ j + 2 = omega arith in
      ap (take (length needle)) (drop-unfold y j (omega (arith, le)))
      ∙ (ap (λ d. get_or y j 0 ∷ take (suc (length xs)) d)
            (drop-unfold y (j + 1) (omega (arith, le)))
          ∙ ap (λ k. get_or y j 0 ∷ get_or y (j + 1) 0 ∷ take (length xs) (drop k y)) e)

  first_byte : (j : ℕ) → Occurs needle y j → get_or y j 0 ≡ x0
  first_byte j (le, e) = let f = sym (at_offset j (omega (arith, le))) ∙ e in cc

  second_byte : (j : ℕ) → Occurs needle y j → get_or y (j + 1) 0 ≡ x1
  second_byte j (le, e) = let f = sym (at_offset j (omega (arith, le))) ∙ e in cc

  other_bytes : (j : ℕ) → Occurs needle y j → take (length xs) (drop (j + 2) y) ≡ xs
  other_bytes j (le, e) = let f = sym (at_offset j (omega (arith, le))) ∙ e in cc

  abbrev Found : ℕ → Option (Option ℕ) → Type 0
  Found j q =
      ((i : ℕ) → i < j → ¬ Occurs needle y i) → (r : Option ℕ) × (q ≡ some r) × Answers needle y r

  -- `j` and the offset skipped after it are no place, if the second byte is another
  passed_other :
      (j : ℕ)
      → get_or y (j + 1) 0 ≢ x1
      → ((i : ℕ) → i < j → ¬ Occurs needle y i)
      → (i : ℕ) → i < j + skip_other x0 x1
      → ¬ Occurs needle y i
  passed_other j d before i lt o = elim (Bool-cases (ltb i j)) [
    | inl l ↦ before i (ground arith) o
    | inr g ↦ elim (Bool-cases (i == j)) [
      | inl e ↦ let e' : i ≡ j = ground arith in d (second_byte j (subst (Occurs needle y) e' o))
      | inr n ↦ elim (Bool-cases (x0 == x1)) [
        | inl s ↦
            let s' : x0 ≡ x1 = (==_iff x0 x1).0 s in
            let e' : i ≡ j + 1 = ground arith in
            d (first_byte (j + 1) (subst (Occurs needle y) e' o) ∙ s')
        | inr t ↦ ground arith
      ]
    ]
  ]

  passed_same :
      (j : ℕ)
      → get_or y (j + 1) 0 ≡ x1
      → ¬ Occurs needle y j
      → ((i : ℕ) → i < j → ¬ Occurs needle y i)
      → (i : ℕ) → i < j + skip_same x0 x1
      → ¬ Occurs needle y i
  passed_same j s not_here before i lt o = elim (Bool-cases (ltb i j)) [
    | inl l ↦ before i (ground arith) o
    | inr g ↦ elim (Bool-cases (i == j)) [
      | inl e ↦ let e' : i ≡ j = ground arith in not_here (subst (Occurs needle y) e' o)
      | inr n ↦ elim (Bool-cases (x0 == x1)) [
        | inl t ↦ ground arith
        | inr t ↦
            let e' : i ≡ j + 1 = ground arith in
            let f = sym (first_byte (j + 1) (subst (Occurs needle y) e' o)) ∙ s in
            let t' = (==_iff x0 x1).1 f in cc
      ]
    ]
  ]

  abbrev here : ℕ → Bool
  here j = bytes_equal xs (take (length xs) (drop (j + 2) y)) && x0 == get_or y j 0

  here-Occurs :
      (j : ℕ)
      → j + (length xs + 2) ≤ length y
      → get_or y (j + 1) 0 ≡ x1
      → here j ≡ true
      → Occurs needle y j
  here-Occurs j le s h =
      let rest : xs ≡ take (length xs) (drop (j + 2) y) =
        bytes_equal_sound xs (take (length xs) (drop (j + 2) y)) (and_left _ _ h) in
      let first : x0 ≡ get_or y j 0 = (==_iff x0 (get_or y j 0)).0 (and_right _ _ h) in
      (
        omega (arith, le),
        at_offset j le
            ∙ (ap (λ b. b ∷ get_or y (j + 1) 0 ∷ take (length xs) (drop (j + 2) y)) (sym first)
                ∙ (ap (λ b. x0 ∷ b ∷ take (length xs) (drop (j + 2) y)) s
                    ∙ ap (λ l. x0 ∷ x1 ∷ l) (sym rest))),
      )
    where
      and_left : (a b : Bool) → (a && b) ≡ true → a ≡ true
      and_left true b e = refl
      and_left false b e = e

      and_right : (a b : Bool) → (a && b) ≡ true → b ≡ true
      and_right true b e = e
      and_right false b e = absurd (let f : false ≡ true = e in cc)

  Occurs-here : (j : ℕ) → Occurs needle y j → here j ≡ true
  Occurs-here j o =
      rw (other_bytes j o, first_byte j o, bytes_equal_refl xs, (==_iff x0 x0).1 refl) refl

  find_from-Found :
      (fuel j : ℕ) → j ≤ length y → length y < j + fuel → Found j (find_from fuel x0 x1 xs y j)
  unfolding find_from
  find_from-Found zero j le lt before = absurd (omega (arith, le, lt))
  find_from-Found (suc fuel) j le lt before =
      elim (Bool-cases (ltb (length y) (j + (length xs + 2)))) [
        | inl out ↦ rw out (none, refl, too_far (ground (arith, out)))
        | inr fits ↦
            let fits' : j + (length xs + 2) ≤ length y = ground (arith, fits) in
            elim (Bool-cases (x1 == get_or y (j + 1) 0)) [
              | inr other ↦
                  let d : get_or y (j + 1) 0 ≢ x1 =
                    λ e. let t = (==_iff x1 (get_or y (j + 1) 0)).1 (sym e) in cc in
                  let small : 1 ≤ skip_other x0 x1 = ground arith in
                  let small' : skip_other x0 x1 ≤ 2 = ground arith in
                  rw (fits, other)
                    (find_from-Found fuel (j + skip_other x0 x1) (omega (arith, fits', small'))
                      (omega (arith, lt, small)) (passed_other j d before))
              | inl same ↦
                  let s : get_or y (j + 1) 0 ≡ x1 = sym ((==_iff x1 (get_or y (j + 1) 0)).0 same) in
                  elim (Bool-cases (here j)) [
                    | inl h ↦ rw (fits, same, h) (some j, refl, (here-Occurs j fits' s h, before))
                    | inr n ↦
                        let not_here : ¬ Occurs needle y j = λ o. let h = Occurs-here j o in cc in
                        let small : 1 ≤ skip_same x0 x1 = ground arith in
                        let small' : skip_same x0 x1 ≤ 2 = ground arith in
                        rw (fits, same, n)
                          (find_from-Found fuel (j + skip_same x0 x1) (omega (arith, fits', small'))
                            (omega (arith, lt, small)) (passed_same j s not_here before))
                  ]
            ]
      ]
    where
      too_far : length y < j + (length xs + 2) → (i : ℕ) → ¬ Occurs needle y i
      too_far short i o = elim (Bool-cases (ltb i j)) [
        | inl l ↦ before i (ground arith) o
        | inr g ↦
            (let fits = o.0 in let ge : j ≤ i = ground (arith, g) in omega (arith, fits, ge, short))
      ]

memchr-Answers :
    (c : ℕ) (ys : List ℕ) (at : ℕ)
    → ((j : ℕ) × (memchr c ys at ≡ some (at + j)) × Answers (c ∷ []) ys (some j))
      ⊎ (memchr c ys at ≡ none) × Answers (c ∷ []) ys none
unfolding memchr
memchr-Answers c [] at = inr (refl, λ j o. omega (arith, o.0))
memchr-Answers c (y ∷ ys) at = elim (Bool-cases (y == c)) [
  | inl e ↦
      let e' : y ≡ c = (==_iff y c).0 e in
      let z : at + 0 ≡ at = omega arith in
      inl (
        0,
        rw e (ap some (sym z)),
        ((omega arith, ap (λ b. b ∷ []) e'), λ i lt o. omega (arith, lt)),
      )
  | inr d ↦ elim (memchr-Answers c ys (at + 1)) [
    | inl (j, run, ((le, f), before)) ↦
        let z : at + 1 + j ≡ at + suc j = omega arith in
        inl (
          suc j,
          rw d (run ∙ ap some z),
          ((omega (arith, le), f), λ i lt o. earlier d before i lt o),
        )
    | inr (run, never) ↦ inr (rw d run, λ i o. nowhere d never i o)
  ]
]
  where
    not_first : (y == c) ≡ false → ¬ Occurs (c ∷ []) (y ∷ ys) 0
    not_first d o = let f = o.1 in let h : y ≡ c = cc in let t = (==_iff y c).1 h in cc

    earlier :
        {j : ℕ}
        → (y == c) ≡ false
        → ((i : ℕ) → i < j → ¬ Occurs (c ∷ []) ys i)
        → (i : ℕ) → i < suc j
        → ¬ Occurs (c ∷ []) (y ∷ ys) i
    earlier d before zero lt o = not_first d o
    earlier d before (suc i) lt (le, f) = before i (omega (arith, lt)) (omega (arith, le), f)

    nowhere :
        (y == c) ≡ false
        → ((i : ℕ) → ¬ Occurs (c ∷ []) ys i)
        → (i : ℕ) → ¬ Occurs (c ∷ []) (y ∷ ys) i
    nowhere d never zero o = not_first d o
    nowhere d never (suc i) (le, f) = never i (omega (arith, le), f)

-- For a needle that is not empty `memmem` ends, and gives the first offset where the needle stands in
-- the text, or none if it stands nowhere.
pub memmem-Answers :
    (y x : List ℕ) → 0 < length x → (r : Option ℕ) × (memmem y x ≡ some r) × Answers x y r
unfolding memmem
memmem-Answers y [] lt = absurd (omega (arith, lt))
memmem-Answers y (x0 ∷ []) lt = elim (memchr-Answers x0 y 0) [
  | inl (j, run, a) ↦ let z : 0 + j ≡ j = omega arith in (some j, ap some (run ∙ ap some z), a)
  | inr (run, a) ↦ (none, ap some run, a)
]
memmem-Answers y (x0 ∷ x1 ∷ xs) lt = elim (Bool-cases (ltb (length y) (length xs + 2))) [
  | inl short ↦
      let s : length y < length xs + 2 = ground (arith, short) in
      rw short (none, refl, λ i o. (let fits = o.0 in omega (arith, fits, s)))
  | inr long ↦ rw long (
      find_from-Found x0 x1 xs y (suc (length y)) 0 (omega arith) (omega arith)
        (λ i l o. omega (arith, l)))
]
