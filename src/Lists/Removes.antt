-- ===== src/Lists/Removes.antt =====
-- `removeAt` of elox/lib/array/array.c on the items of an array.

use slox.Lists.{contents, remove_at}
use slox.Object.{ObjArray}
use slox.Prelude.{
  ℕ, zero, suc, ◌+◌, ◌-◌, ◌≤◌, ◌<◌, List, [], ◌∷◌, ◌++◌, ◌≡◌, refl, sym, ap, ◌∙◌, arith, length,
  take, drop, get_or,
}
use slox.Value.{Value, nil}

-- the items are those that were allocated, and are enough
pub record IsArray (a : ObjArray) : Type 0 where
  pub width : length a.items ≡ a.capacity
  pub fits : a.size ≤ a.capacity

pub length-take : (n : ℕ) (l : List Value) → n ≤ length l → length (take n l) ≡ n
length-take zero l le = refl
length-take (suc n) [] le = absurd (omega (arith, le))
length-take (suc n) (x ∷ xs) le = ap suc (length-take n xs (omega (arith, le)))

pub length-drop : (n : ℕ) (l : List Value) → length (drop n l) ≡ length l - n
length-drop zero l = omega arith
length-drop (suc n) [] = omega arith
length-drop (suc n) (x ∷ xs) = omega (arith, length-drop n xs)

pub length-append : (xs ys : List Value) → length (xs ++ ys) ≡ length xs + length ys
length-append [] ys = omega arith
length-append (x ∷ xs) ys = omega (arith, length-append xs ys)

take-append_more : (xs ys : List Value) (n : ℕ) → take (length xs + n) (xs ++ ys) ≡ xs ++ take n ys
take-append_more [] ys n = let e : 0 + n ≡ n = omega arith in ap (λ m. take m ys) e
take-append_more (x ∷ xs) ys n =
    let e : suc (length xs) + n ≡ suc (length xs + n) = omega arith in
    ap (λ m. take m (x ∷ xs ++ ys)) e ∙ ap (λ l. x ∷ l) (take-append_more xs ys n)

-- the items before `i`, and those after it, are those in use
take-split :
    (l : List Value) (i n : ℕ)
    → i < n
    → n ≤ length l
    → take n l ≡ take i l ++ get_or l i nil ∷ take (n - i - 1) (drop (i + 1) l)
take-split [] i n lt le = absurd (omega (arith, lt, le))
take-split (x ∷ xs) i zero lt le = absurd (omega (arith, lt))
take-split (x ∷ xs) zero (suc n) lt le =
    let e : suc n - 0 - 1 ≡ n = omega arith in ap (λ m. x ∷ take m xs) (sym e)
take-split (x ∷ xs) (suc i) (suc n) lt le =
    let e : suc n - suc i - 1 ≡ n - i - 1 = omega arith in
    let f : suc i + 1 ≡ suc (i + 1) = omega arith in
    let before : List Value = x ∷ take i xs in
    let here : Value = get_or xs i nil in
    ap (λ l. x ∷ l) (take-split xs i n (omega (arith, lt)) (omega (arith, le)))
    ∙ (ap (λ m. before ++ here ∷ take m (drop (i + 1) xs)) (sym e)
        ∙ ap (λ d. before ++ here ∷ take (suc n - suc i - 1) (drop d (x ∷ xs))) (sym f))

module _ (a : ObjArray) (i : ℕ) (w : IsArray a) (lt : i < a.size) where
  later : List Value
  later = take (a.size - i - 1) (drop (i + 1) a.items)

  length-later : length later ≡ a.size - i - 1
  unfolding later
  length-later =
      let fits = w.fits in
      let width = w.width in
      length-take (a.size - i - 1) (drop (i + 1) a.items)
        (omega (arith, length-drop (i + 1) a.items, fits, width, lt))

  pub length-before : length (take i a.items) ≡ i
  length-before =
      let fits = w.fits in
      let width = w.width in length-take i a.items (omega (arith, fits, width, lt))

  -- the item at `i` is between what comes before and what comes after
  pub contents-split :
      contents a
      ≡ take i a.items ++ get_or a.items i nil ∷ take (a.size - i - 1) (drop (i + 1) a.items)
  contents-split =
      let fits = w.fits in
      let width = w.width in take-split a.items i a.size lt (omega (arith, fits, width))

  pub remove_at-contents :
      contents (remove_at a i) ≡ take i a.items ++ take (a.size - i - 1) (drop (i + 1) a.items)
  unfolding remove_at later
  remove_at-contents =
      let e : a.size - 1 ≡ length (take i a.items) + (length later + 0) =
        omega (arith, length-before, length-later, lt) in
      ap (λ n. take n (take i a.items ++ (later ++ drop (i + length later) a.items))) e
      ∙ (take-append_more (take i a.items) (later ++ drop (i + length later) a.items)
            (length later + 0)
          ∙ (ap (λ l. take i a.items ++ l)
                (take-append_more later (drop (i + length later) a.items) 0)
              ∙ ap (λ l. take i a.items ++ l) (append_nil later)))
    where
      append_nil : (l : List Value) → l ++ [] ≡ l
      append_nil [] = refl
      append_nil (x ∷ xs) = ap (λ r. x ∷ r) (append_nil xs)

  pub remove_at-IsArray : IsArray (remove_at a i)
  unfolding remove_at later
  remove_at-IsArray =
      let fits = w.fits in
      let width = w.width in
      record {
        width = omega (
          arith,
          length-append (take i a.items) (later ++ drop (i + length later) a.items),
          length-append later (drop (i + length later) a.items),
          length-drop (i + length later) a.items,
          length-before,
          length-later,
          width,
          fits,
          lt,
        );
        fits = omega (arith, fits, lt);
      }
