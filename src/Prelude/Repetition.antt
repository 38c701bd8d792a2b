-- ===== src/Prelude/Repetition.antt =====
-- Lists without repetition.
use Prim.Native.Nat.{ℕ}
use mathlib.Core.List.{List, [], ◌∷◌, ◌++◌, Memᴰ}
use mathlib.Core.List.Memᴰ
use mathlib.Core.Logic.{◌⊎◌, inl, inr, ◌≢◌}
use mathlib.Core.Bool.{Bool, true, false}
use mathlib.Core.Path.{◌≡◌, refl, subst}
use slox.Prelude.Tests.{◌==◌, ==_iff, if◌then◌else◌, Bool-cases}

abbrev pub Distinct : List ℕ → Type 0
Distinct [] = Unit
Distinct (a ∷ later) = ¬ Memᴰ a later × Distinct later

pub Distinct-left : (xs ys : List ℕ) → Distinct (xs ++ ys) → Distinct xs
Distinct-left [] ys d = tt
Distinct-left (x ∷ xs) ys (n, d) = (λ m. n (Memᴰ.append_left ys m), Distinct-left xs ys d)

pub Distinct-right : (xs ys : List ℕ) → Distinct (xs ++ ys) → Distinct ys
Distinct-right [] ys d = d
Distinct-right (x ∷ xs) ys (n, d) = Distinct-right xs ys d

pub Distinct-apart : (xs ys : List ℕ) (a : ℕ) → Distinct (xs ++ ys) → Memᴰ a xs → ¬ Memᴰ a ys
Distinct-apart [] ys a d m n = Memᴰ.not-nil m
Distinct-apart (x ∷ xs) ys a (o, d) m n = elim (Memᴰ.cases_cons m) [
  | inl e ↦ o (Memᴰ.append_right xs (subst (λ y. Memᴰ y ys) e n))
  | inr m' ↦ Distinct-apart xs ys a d m' n
]

-- without one of its members
pub Distinct-without : (xs ys : List ℕ) (a : ℕ) → Distinct (xs ++ a ∷ ys) → Distinct (xs ++ ys)
Distinct-without [] ys a (n, d) = d
Distinct-without (x ∷ xs) ys a (n, d) =
    (λ m. n (within (Memᴰ.append_cases xs m)), Distinct-without xs ys a d)
  where
    within : Memᴰ x xs ⊎ Memᴰ x ys → Memᴰ x (xs ++ a ∷ ys)
    within (inl m) = Memᴰ.append_left (a ∷ ys) m
    within (inr m) = Memᴰ.append_right xs (Memᴰ.tail m)

pub member_ne : {a x : ℕ} {xs : List ℕ} → ¬ Memᴰ a xs → Memᴰ x xs → x ≢ a
member_ne {a} {x} {xs} n m e = n (subst (λ y. Memᴰ y xs) e m)

abbrev pub outside : ℕ → List ℕ → Bool
outside a [] = true
outside a (x ∷ xs) = if a == x then false else outside a xs

pub outside_not_member : (a : ℕ) (l : List ℕ) → outside a l ≡ true → ¬ Memᴰ a l
outside_not_member a [] e m = Memᴰ.not-nil m
outside_not_member a (x ∷ xs) e m = elim (Bool-cases (a == x)) [
  | inl s ↦ let f : outside a (x ∷ xs) ≡ false = rw s refl in cc
  | inr d ↦
      let f : outside a xs ≡ true = rw d at e in
      elim (Memᴰ.cases_cons m) [
        | inl s ↦ (let t = (==_iff a x).1 s in cc)
        | inr m' ↦ outside_not_member a xs f m'
      ]
]
