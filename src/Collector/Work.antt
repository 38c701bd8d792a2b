-- ===== src/Collector/Work.antt =====
-- What is left to do while the collector traces: a measure that each object falls in at most twice.
use mathlib.Core.List.{Memᴰ}
use slox.Collector.Mark.{Pushed, push_gray-Pushed, put_flag_self, put_flag_cases, mark_object-Tri}
use slox.Collector.Reach.{IsClosed, Live-mem, Tri}
use slox.Collector.{Vm, blackened, mark_all, mark_object, push_gray}
use slox.Prelude.{
  ℕ, ◌+◌, ◌≤◌, ◌<◌, Bool, true, false, List, [], ◌∷◌, Option, none, some, ◌≡◌, refl, ap, inl, inr,
  arith, length, Bool-cases, if◌then◌else◌,
}

unfoldable pub total : (ℕ → ℕ) → List ℕ → ℕ
total f [] = 0
total f (x ∷ xs) = f x + total f xs

pub total-le : (f g : ℕ → ℕ) → ((x : ℕ) → f x ≤ g x) → (xs : List ℕ) → total f xs ≤ total g xs
unfolding total
total-le f g h [] = omega arith
total-le f g h (x ∷ xs) = omega (arith, h x, total-le f g h xs)

pub total-lt :
    (f g : ℕ → ℕ) (a : ℕ)
    → ((x : ℕ) → f x ≤ g x)
    → f a < g a
    → (xs : List ℕ) → Memᴰ a xs
    → total f xs < total g xs
unfolding total
total-lt f g a h lt [] m = elim m [ ]
total-lt f g a h lt (x ∷ xs) (Memᴰ.head e) = omega (arith, ap f e, ap g e, lt, total-le f g h xs)
total-lt f g a h lt (x ∷ xs) (Memᴰ.tail m) = omega (arith, h x, total-lt f g a h lt xs m)

pub total-length : (f : ℕ → ℕ) → ((x : ℕ) → f x ≤ 1) → (xs : List ℕ) → total f xs ≤ length xs
unfolding total
total-length f h [] = omega arith
total-length f h (x ∷ xs) = omega (arith, h x, total-length f h xs)

-- an object that is still white
abbrev pub white_weight : Vm → ℕ → ℕ
white_weight vm x = if vm.black x then 0 else 1

-- an object that is white or gray
abbrev pub open_weight : Vm → ℕ → ℕ
open_weight vm x = if vm.black x then (if vm.gray x then 1 else 0) else 1

pub white_weight-le : (vm : Vm) (x : ℕ) → white_weight vm x ≤ 1
white_weight-le vm x = ground arith

pub open_weight-le : (vm : Vm) (x : ℕ) → open_weight vm x ≤ 1
open_weight-le vm x = ground arith

module _ (alloc : ℕ → Bool) where
  module _ (vm t : Vm) (a : ℕ) (white : vm.black a ≡ false)
      (p : Pushed a (blackened alloc a vm) t) where
    white_falls : (x : ℕ) → white_weight t x ≤ white_weight vm x
    white_falls x =
        rw (ap (λ f. f x) p.same_black) (ground (arith, put_flag_cases vm.black a true x))

    white_falls_at : white_weight t a < white_weight vm a
    white_falls_at =
        rw (ap (λ f. f a) p.same_black, put_flag_self vm.black a true, white) (omega arith)

    open_stays : (x : ℕ) → open_weight t x ≤ open_weight vm x
    open_stays x = elim (put_flag_cases vm.black a true x) [
      | inl s ↦ rw (s, white) (open_weight-le t a)
      | inr d ↦
          rw (ap (λ f. f x) p.same_black, ap (λ f. f x) p.same_gray, d.1)
            (ground (arith, put_flag_cases vm.gray a true x, d.0))
    ]

  mark_object-open :
      (r : Option ℕ) (vm : Vm) (x : ℕ) → open_weight (mark_object alloc r vm) x ≤ open_weight vm x
  unfolding mark_object
  mark_object-open none vm x = omega arith
  mark_object-open (some a) vm x = elim (Bool-cases (vm.black a)) [
    | inl e ↦ rw e (omega arith)
    | inr e ↦ rw e (open_stays vm _ a e (push_gray-Pushed alloc a (blackened alloc a vm)) x)
  ]

  pub mark_all-open :
      (rs : List (Option ℕ)) (vm : Vm) (x : ℕ)
      → open_weight (mark_all alloc rs vm) x ≤ open_weight vm x
  unfolding mark_all
  mark_all-open [] vm x = omega arith
  mark_all-open (r ∷ rs) vm x =
      omega (arith, mark_all-open rs (mark_object alloc r vm) x, mark_object-open r vm x)

  -- the white objects of the heap and those on the stack
  abbrev pub waiting : List ℕ → Vm → ℕ
  waiting heap vm = total (white_weight vm) heap + length vm.gray_stack

  module _ (start : Vm) (c : IsClosed start) where
    mark_object-waiting :
        (r : Option ℕ) (rs : List (Option ℕ)) (vm : Vm)
        → Tri start vm (r ∷ rs)
        → waiting start.main_heap (mark_object alloc r vm) ≤ waiting start.main_heap vm
    unfolding mark_object
    mark_object-waiting none rs vm tri = omega arith
    mark_object-waiting (some a) rs vm tri = elim (Bool-cases (vm.black a)) [
      | inl e ↦ rw e (omega arith)
      | inr e ↦
          let p = push_gray-Pushed alloc a (blackened alloc a vm) in
          let fall =
            total-lt (white_weight (push_gray alloc a (blackened alloc a vm))) (white_weight vm) a
              (white_falls vm _ a e p) (white_falls_at vm _ a e p) start.main_heap (in_heap e) in
          rw e (omega (arith, fall, p.longer))
    ]
      where
        in_heap : vm.black a ≡ false → Memᴰ a start.main_heap
        in_heap e = elim (tri.queued a (Memᴰ.head refl)) [
          | inl k ↦ let n = tri.kept a k in absurd cc
          | inr l ↦ Live-mem start a c l
        ]

    pub mark_all-waiting :
        (rs : List (Option ℕ)) (vm : Vm)
        → Tri start vm rs
        → waiting start.main_heap (mark_all alloc rs vm) ≤ waiting start.main_heap vm
    unfolding mark_all
    mark_all-waiting [] vm tri = omega arith
    mark_all-waiting (r ∷ rs) vm tri = omega (
      arith,
      mark_object-waiting r rs vm tri,
      mark_all-waiting rs (mark_object alloc r vm) (mark_object-Tri alloc start vm r rs tri),
    )
