-- ===== src/Collector/Mark.antt =====
-- `markObject` of elox/lib/memory.c keeps the three colours.
use mathlib.Core.List.{Memᴰ}
use mathlib.Core.List.Memᴰ
use slox.Collector.Reach.{Live, Due, Tri, ref_known}
use slox.Collector.{
  Vm, put_flag, root_refs, push_gray, blackened, mark_object, mark_all, ungray, blacken_object,
}
use slox.Memory.{grow_capacity}
use slox.Object.{references}
use slox.Prelude.{
  ℕ, ◌+◌, ◌≤◌, Bool, true, false, List, [], ◌∷◌, Option, none, some, ◌≡◌, ◌≢◌, refl, sym, ap, ◌∙◌,
  subst, ◌⊎◌, inl, inr, arith, ◌==◌, ==_iff, ltb, length, Bool-cases,
}

pub put_flag_self : (f : ℕ → Bool) (a : ℕ) (b : Bool) → put_flag f a b a ≡ b
put_flag_self f a b = rw ((==_iff a a).1 refl) refl

pub put_flag_ne : (f : ℕ → Bool) (a : ℕ) (b : Bool) (x : ℕ) → x ≢ a → put_flag f a b x ≡ f x
put_flag_ne f a b x d = elim (Bool-cases (x == a)) [
  | inl e ↦ absurd (d ((==_iff x a).0 e))
  | inr e ↦ rw e refl
]

false_ne_true : false ≢ true
false_ne_true e = cc

-- a raised flag was raised already, or is the new one
pub put_flag_cases :
    (f : ℕ → Bool) (a : ℕ) (b : Bool) (x : ℕ) → (x ≡ a) ⊎ (x ≢ a) × (put_flag f a b x ≡ f x)
put_flag_cases f a b x = elim (Bool-cases (x == a)) [
  | inl e ↦ inl ((==_iff x a).0 e)
  | inr e ↦ let d : x ≢ a = λ s. let t = (==_iff x a).1 s in cc in inr (d, put_flag_ne f a b x d)
]

-- what the push of a gray object leaves alone, and what the stack has then
pub record Pushed (a : ℕ) (w t : Vm) : Type 0 where
  pub same_store : t.store ≡ w.store
  pub same_heap : t.main_heap ≡ w.main_heap
  pub same_roots : root_refs t ≡ root_refs w
  pub same_strings : t.strings ≡ w.strings
  pub same_black : t.black ≡ w.black
  pub same_gray : t.gray ≡ w.gray
  pub pushed :
      t.gray_overflow ≡ false
      → (w.gray_overflow ≡ false)
        × Memᴰ a t.gray_stack
        × ((b : ℕ) → Memᴰ b w.gray_stack → Memᴰ b t.gray_stack)
  pub only : (b : ℕ) → Memᴰ b t.gray_stack → (b ≡ a) ⊎ Memᴰ b w.gray_stack
  pub longer : length t.gray_stack ≤ length w.gray_stack + 1

module _ (alloc : ℕ → Bool) where
  pub push_gray-Pushed : (a : ℕ) (w : Vm) → Pushed a w (push_gray alloc a w)
  unfolding push_gray root_refs
  push_gray-Pushed a w = elim (Bool-cases w.gray_overflow) [
    | inl o ↦ rw o (record {
      same_store = refl;
      same_heap = refl;
      same_roots = refl;
      same_strings = refl;
      same_black = refl;
      same_gray = refl;
      pushed = λ n. absurd cc;
      only = λ b m. inr m;
      longer = omega arith;
    })
    | inr o ↦ elim (Bool-cases (ltb w.gray_capacity (length w.gray_stack + 1))) [
      | inl full ↦ elim (Bool-cases (alloc (grow_capacity w.gray_capacity))) [
        | inl fits ↦
            rw (o, full, fits)
              (record {
                same_store = refl;
                same_heap = refl;
                same_roots = refl;
                same_strings = refl;
                same_black = refl;
                same_gray = refl;
                pushed = λ n. (refl, Memᴰ.head refl, λ b m. Memᴰ.tail m);
                only = λ b m. Memᴰ.cases_cons m;
                longer = omega arith;
              })
        | inr refused ↦
            rw (o, full, refused)
              (record {
                same_store = refl;
                same_heap = refl;
                same_roots = refl;
                same_strings = refl;
                same_black = refl;
                same_gray = refl;
                pushed = λ n. absurd cc;
                only = λ b m. inr m;
                longer = omega arith;
              })
      ]
      | inr room ↦
          rw (o, room)
            (record {
              same_store = refl;
              same_heap = refl;
              same_roots = refl;
              same_strings = refl;
              same_black = refl;
              same_gray = refl;
              pushed = λ n. (refl, Memᴰ.head refl, λ b m. Memᴰ.tail m);
              only = λ b m. Memᴰ.cases_cons m;
              longer = omega arith;
            })
    ]
  ]

  -- marking a white object
  module _ (start vm t : Vm) (a : ℕ) (rs : List (Option ℕ)) (tri : Tri start vm (some a ∷ rs))
      (white : vm.black a ≡ false) (p : Pushed a (blackened alloc a vm) t) where
    black_at : (x : ℕ) → t.black x ≡ put_flag vm.black a true x
    black_at x = ap (λ f. f x) p.same_black

    gray_at : (x : ℕ) → t.gray x ≡ put_flag vm.gray a true x
    gray_at x = ap (λ f. f x) p.same_gray

    now_black : t.black a ≡ true
    now_black = black_at a ∙ put_flag_self vm.black a true

    still_black : (x : ℕ) → vm.black x ≡ true → t.black x ≡ true
    still_black x e = elim (put_flag_cases vm.black a true x) [
      | inl s ↦ rw s now_black
      | inr d ↦ black_at x ∙ (d.1 ∙ e)
    ]

    was_black : (x : ℕ) → t.black x ≡ true → (x ≡ a) ⊎ (vm.black x ≡ true)
    was_black x e = elim (put_flag_cases vm.black a true x) [
      | inl s ↦ inl s
      | inr d ↦ inr (sym d.1 ∙ (sym (black_at x) ∙ e))
    ]

    was_gray : (x : ℕ) → t.gray x ≡ true → (x ≡ a) ⊎ (vm.gray x ≡ true)
    was_gray x e = elim (put_flag_cases vm.gray a true x) [
      | inl s ↦ inl s
      | inr d ↦ inr (sym d.1 ∙ (sym (gray_at x) ∙ e))
    ]

    not_gray : (x : ℕ) → t.gray x ≡ false → (x ≢ a) × (vm.gray x ≡ false)
    not_gray x e = elim (put_flag_cases vm.gray a true x) [
      | inl s ↦
          let g : t.gray a ≡ true = gray_at a ∙ put_flag_self vm.gray a true in
          let h : t.gray a ≡ false = rw (sym s) e in absurd cc
      | inr d ↦ (d.0, sym d.1 ∙ (sym (gray_at x) ∙ e))
    ]

    due : (b : ℕ) → Due vm (some a ∷ rs) b → Due t rs b
    due b (inl e) = inl (still_black b e)
    due b (inr (Memᴰ.head e)) = inl (let s : b ≡ a = cc in rw s now_black)
    due b (inr (Memᴰ.tail m)) = inr m

    is_Live : Live start a
    is_Live = elim (tri.queued a (Memᴰ.head refl)) [
      | inl e ↦ let k = tri.kept a e in absurd cc
      | inr l ↦ l
    ]

    marked-Tri : Tri start t rs
    unfolding root_refs
    marked-Tri = record {
      same_store = p.same_store ∙ tri.same_store;
      same_heap = p.same_heap ∙ tri.same_heap;
      same_roots = p.same_roots ∙ (blackened_roots ∙ tri.same_roots);
      same_strings = p.same_strings ∙ tri.same_strings;
      gray_black = λ x g. elim (was_gray x g) [
        | inl s ↦ (rw s now_black, subst (Live start) (sym s) is_Live)
        | inr h ↦ let (b, l) = tri.gray_black x h in (still_black x b, l)
      ];
      kept = λ x e. still_black x (tri.kept x e);
      sound = λ x e. elim (was_black x e) [
        | inl s ↦ inr (subst (Live start) (sym s) is_Live)
        | inr b ↦ tri.sound x b
      ];
      closed = λ x b l e g m.
          let (d, g') = not_gray x g in
          elim (was_black x e) [ inl s ↦ absurd (d s) | inr e' ↦ due b (tri.closed x b l e' g' m) ];
      rooted = λ b m. due b (tri.rooted b m);
      listed = λ o x g.
          let (o', here, more) = p.pushed o in
          elim (was_gray x g) [ inl s ↦ Memᴰ.cast s here | inr h ↦ more x (tri.listed o' x h) ];
      stacked = λ b m. elim (p.only b m) [
        | inl s ↦ subst (Live start) (sym s) is_Live
        | inr m' ↦ tri.stacked b m'
      ];
      queued = λ b m. tri.queued b (Memᴰ.tail m);
    }
      where
        blackened_roots : root_refs (blackened alloc a vm) ≡ root_refs vm
        blackened_roots = refl

  -- a reference that needs no mark
  skipped-Tri :
      (start vm : Vm) (r : Option ℕ) (rs : List (Option ℕ))
      → Tri start vm (r ∷ rs)
      → ((b : ℕ) → r ≡ some b → vm.black b ≡ true)
      → Tri start vm rs
  skipped-Tri start vm r rs tri known = record {
    same_store = tri.same_store;
    same_heap = tri.same_heap;
    same_roots = tri.same_roots;
    same_strings = tri.same_strings;
    gray_black = tri.gray_black;
    kept = tri.kept;
    sound = tri.sound;
    closed = λ x b l e g m. due b (tri.closed x b l e g m);
    rooted = λ b m. due b (tri.rooted b m);
    listed = tri.listed;
    stacked = tri.stacked;
    queued = λ b m. tri.queued b (Memᴰ.tail m);
  }
    where
      due : (b : ℕ) → Due vm (r ∷ rs) b → Due vm rs b
      due b (inl e) = inl e
      due b (inr (Memᴰ.head e)) = inl (known b (sym e))
      due b (inr (Memᴰ.tail m)) = inr m

  pub mark_object-Tri :
      (start vm : Vm) (r : Option ℕ) (rs : List (Option ℕ))
      → Tri start vm (r ∷ rs)
      → Tri start (mark_object alloc r vm) rs
  unfolding mark_object
  mark_object-Tri start vm none rs tri = skipped-Tri start vm none rs tri (λ b e. absurd cc)
  mark_object-Tri start vm (some a) rs tri = elim (Bool-cases (vm.black a)) [
    | inl e ↦
        rw e (skipped-Tri start vm (some a) rs tri (λ b s. let t : a ≡ b = cc in rw (sym t) e))
    | inr e ↦ rw e (marked-Tri start vm _ a rs tri e (push_gray-Pushed a (blackened alloc a vm)))
  ]

  pub mark_all-Tri :
      (start vm : Vm) (rs : List (Option ℕ)) → Tri start vm rs → Tri start (mark_all alloc rs vm) []
  unfolding mark_all
  mark_all-Tri start vm [] tri = tri
  mark_all-Tri start vm (r ∷ rs) tri =
      mark_all-Tri start (mark_object alloc r vm) rs (mark_object-Tri start vm r rs tri)

  -- a live object leaves the grays and the stack, and its references are due
  pub ungray-Tri :
      (start vm : Vm) (a : ℕ) (stack : List ℕ)
      → Tri start vm []
      → Live start a
      → ((x : ℕ) → x ≢ a → Memᴰ x vm.gray_stack → Memᴰ x stack)
      → ((x : ℕ) → Memᴰ x stack → Memᴰ x vm.gray_stack)
      → Tri start (ungray a (record vm { gray_stack = stack })) (references (start.store a))
  unfolding root_refs
  ungray-Tri start vm a stack tri live others within = record {
    same_store = tri.same_store;
    same_heap = tri.same_heap;
    same_roots = tri.same_roots;
    same_strings = tri.same_strings;
    gray_black = λ x g. elim (put_flag_cases vm.gray a false x) [
      | inl s ↦ absurd (lowered x s g)
      | inr d ↦ tri.gray_black x (sym d.1 ∙ g)
    ];
    kept = tri.kept;
    sound = tri.sound;
    closed = λ x b l e g m. elim (put_flag_cases vm.gray a false x) [
      | inl s ↦ inr (subst (λ y. Memᴰ (some b) (references (start.store y))) s m)
      | inr d ↦ inl (black_of b (tri.closed x b l e (sym d.1 ∙ g) m))
    ];
    rooted = λ b m. inl (black_of b (tri.rooted b m));
    listed = λ o x g. elim (put_flag_cases vm.gray a false x) [
      | inl s ↦ absurd (lowered x s g)
      | inr d ↦ others x d.0 (tri.listed o x (sym d.1 ∙ g))
    ];
    stacked = λ x m. tri.stacked x (within x m);
    queued = λ b m. ref_known start a b live m;
  }
    where
      lowered : (x : ℕ) → x ≡ a → put_flag vm.gray a false x ≢ true
      lowered x s g =
          let n = ap (put_flag vm.gray a false) s ∙ put_flag_self vm.gray a false in
          false_ne_true (sym n ∙ g)

      black_of : (b : ℕ) → Due vm [] b → vm.black b ≡ true
      black_of b (inl e) = e
      black_of b (inr m) = absurd (Memᴰ.not-nil m)

  pub blacken_object-refs :
      (start vm : Vm) (a : ℕ) (stack : List ℕ)
      → Tri start vm []
      → blacken_object alloc a (record vm { gray_stack = stack })
        ≡ mark_all alloc (references (start.store a)) (ungray a (record vm { gray_stack = stack }))
  unfolding blacken_object
  blacken_object-refs start vm a stack tri =
      ap (λ rs. mark_all alloc rs (ungray a (record vm { gray_stack = stack })))
        (ap (λ f. references (f a)) tri.same_store)
