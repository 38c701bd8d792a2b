-- ===== src/Collector/Sweep.antt =====
-- `sweep` of elox/lib/memory.c: the marked objects stay, unmarked.
use mathlib.Core.List.{Memᴰ}
use mathlib.Core.List.Memᴰ
use slox.Release.{Sizes}
use slox.Collector.Mark.{put_flag_self, put_flag_ne, put_flag_cases}
use slox.Collector.{Vm, free_object, marked, put_flag, root_refs, sweep, sweep_from, unmark}
use slox.Prelude.{
  Distinct, ℕ, Bool, true, false, ◌||◌, List, [], ◌∷◌, ◌≡◌, ◌≢◌, refl, sym, ap, ◌∙◌, subst, inl,
  inr, if◌then◌else◌,
}

-- what the loop does with the objects of `l`
pub record Swept (vm : Vm) (l kept : List ℕ) (t : Vm) : Type 0 where
  pub same_store : t.store ≡ vm.store
  pub same_roots : root_refs t ≡ root_refs vm
  pub same_strings : t.strings ≡ vm.strings
  pub same_stack : t.gray_stack ≡ vm.gray_stack
  pub elsewhere : (x : ℕ) → ¬ Memᴰ x l → (t.black x ≡ vm.black x) × (t.gray x ≡ vm.gray x)
  pub unmarked : (x : ℕ) → Memᴰ x l → (t.black x ≡ false) × (t.gray x ≡ false)
  pub lowered : (x : ℕ) → vm.gray x ≡ false → t.gray x ≡ false
  pub stays : (x : ℕ) → Memᴰ x l → marked vm x ≡ true → Memᴰ x kept
  pub goes : (x : ℕ) → Memᴰ x kept → Memᴰ x l × (marked vm x ≡ true)
  pub distinct : Distinct kept

not_marked : (vm : Vm) (x : ℕ) → marked vm x ≡ false → (vm.black x ≡ false) × (vm.gray x ≡ false)
not_marked vm x e = or_false (vm.black x) (vm.gray x) e
  where
    or_false : (b c : Bool) → (b || c) ≡ false → (b ≡ false) × (c ≡ false)
    or_false true c e = absurd cc
    or_false false c e = (refl, e)

pub apart : (a x : ℕ) (l : List ℕ) → ¬ Memᴰ a l → Memᴰ x l → x ≢ a
apart a x l n m s = n (subst (λ y. Memᴰ y l) s m)

elsewhere_head : (a x : ℕ) (l : List ℕ) → ¬ Memᴰ x (a ∷ l) → (x ≢ a) × ¬ Memᴰ x l
elsewhere_head a x l n = (λ s. n (Memᴰ.head s), λ m. n (Memᴰ.tail m))

pub unmark-marked : (a x : ℕ) (vm : Vm) → x ≢ a → marked (unmark a vm) x ≡ marked vm x
unmark-marked a x vm d = rw (put_flag_ne vm.black a false x d, put_flag_ne vm.gray a false x d) refl

lower_flag : (f : ℕ → Bool) (a x : ℕ) → f x ≡ false → put_flag f a false x ≡ false
lower_flag f a x e = elim (put_flag_cases f a false x) [
  | inl s ↦ rw s (put_flag_self f a false)
  | inr d ↦ d.1 ∙ e
]

-- the first object is marked, and stays
stays-Swept :
    (vm : Vm) (a : ℕ) (later kept : List ℕ) (t : Vm)
    → ¬ Memᴰ a later
    → marked vm a ≡ true
    → Swept (unmark a vm) later kept t
    → Swept vm (a ∷ later) (a ∷ kept) t
unfolding root_refs
stays-Swept vm a later kept t n here s = record {
  same_store = s.same_store;
  same_roots = s.same_roots;
  same_strings = s.same_strings;
  same_stack = s.same_stack;
  elsewhere = λ x o.
      let (d, o') = elsewhere_head a x later o in
      let (b, g) = s.elsewhere x o' in
      (b ∙ put_flag_ne vm.black a false x d, g ∙ put_flag_ne vm.gray a false x d);
  unmarked = λ x m. elim (Memᴰ.cases_cons m) [
    | inl e ↦
        let (b, g) = s.elsewhere a n in
        rw e (b ∙ put_flag_self vm.black a false, g ∙ put_flag_self vm.gray a false)
    | inr m' ↦ s.unmarked x m'
  ];
  lowered = λ x e. s.lowered x (lower_flag vm.gray a x e);
  stays = λ x m e. elim (Memᴰ.cases_cons m) [
    | inl h ↦ Memᴰ.head h
    | inr m' ↦ Memᴰ.tail (s.stays x m' (unmark-marked a x vm (apart a x later n m') ∙ e))
  ];
  goes = λ x m. elim (Memᴰ.cases_cons m) [
    | inl h ↦ (Memᴰ.head h, ap (marked vm) h ∙ here)
    | inr m' ↦
        let (m'', e) = s.goes x m' in
        (Memᴰ.tail m'', sym (unmark-marked a x vm (apart a x later n m'')) ∙ e)
  ];
  distinct = (λ m. n (s.goes a m).0, s.distinct);
}

module _ (alloc : ℕ → Bool) (sizes : Sizes) where
  -- the first object is not marked, and goes
  goes-Swept :
      (vm : Vm) (a : ℕ) (later kept : List ℕ) (t : Vm)
      → ¬ Memᴰ a later
      → marked vm a ≡ false
      → Swept (free_object alloc sizes a vm) later kept t
      → Swept vm (a ∷ later) kept t
  unfolding root_refs
  goes-Swept vm a later kept t n here s = record {
    same_store = s.same_store;
    same_roots = s.same_roots;
    same_strings = s.same_strings;
    same_stack = s.same_stack;
    elsewhere = λ x o. s.elsewhere x (elsewhere_head a x later o).1;
    unmarked = λ x m. elim (Memᴰ.cases_cons m) [
      | inl e ↦
          let (b, g) = s.elsewhere a n in
          let (b', g') = not_marked vm a here in rw e (b ∙ b', g ∙ g')
      | inr m' ↦ s.unmarked x m'
    ];
    lowered = s.lowered;
    stays = λ x m e. elim (Memᴰ.cases_cons m) [
      | inl h ↦ (let f = ap (marked vm) h ∙ here in absurd cc)
      | inr m' ↦ s.stays x m' e
    ];
    goes = λ x m. let (m', e) = s.goes x m in (Memᴰ.tail m', e);
    distinct = s.distinct;
  }

  sweep_from-Swept :
      (l : List ℕ) (vm : Vm)
      → Distinct l
      → Swept vm l (sweep_from alloc sizes l vm).0 (sweep_from alloc sizes l vm).1
  unfolding sweep_from
  sweep_from-Swept [] vm d = record {
    same_store = refl;
    same_roots = refl;
    same_strings = refl;
    same_stack = refl;
    elsewhere = λ x n. (refl, refl);
    unmarked = λ x m. absurd (Memᴰ.not-nil m);
    lowered = λ x e. e;
    stays = λ x m e. m;
    goes = λ x m. absurd (Memᴰ.not-nil m);
    distinct = d;
  }
  sweep_from-Swept (a ∷ later) vm (n, d) =
      choose (marked vm a) refl (sweep_from-Swept later (unmark a vm) d)
        (sweep_from-Swept later (free_object alloc sizes a vm) d)
    where
      choose :
          (b : Bool)
          → marked vm a ≡ b
          → Swept
              (unmark a vm)
              later
              (sweep_from alloc sizes later (unmark a vm)).0
              (sweep_from alloc sizes later (unmark a vm)).1
          → Swept
              (free_object alloc sizes a vm)
              later
              (sweep_from alloc sizes later (free_object alloc sizes a vm)).0
              (sweep_from alloc sizes later (free_object alloc sizes a vm)).1
          → Swept vm
              (a ∷ later)
              (if b
                then a
                  ∷ (sweep_from alloc sizes later
                      (if b then unmark a vm else free_object alloc sizes a vm)).0
                else (sweep_from alloc sizes later
                    (if b then unmark a vm else free_object alloc sizes a vm)).0)
              (sweep_from alloc sizes later
                (if b then unmark a vm else free_object alloc sizes a vm)).1
      choose true e s g = stays-Swept vm a later _ _ n e s
      choose false e s g = goes-Swept vm a later _ _ n e g

  pub sweep-Swept :
      (vm : Vm)
      → Distinct vm.main_heap
      → Swept vm vm.main_heap (sweep alloc sizes vm).main_heap (sweep alloc sizes vm)
  unfolding sweep root_refs
  sweep-Swept vm d =
      let s = sweep_from-Swept vm.main_heap vm d in
      record {
        same_store = s.same_store;
        same_roots = s.same_roots;
        same_strings = s.same_strings;
        same_stack = s.same_stack;
        elsewhere = s.elsewhere;
        unmarked = s.unmarked;
        lowered = s.lowered;
        stays = s.stays;
        goes = s.goes;
        distinct = s.distinct;
      }
