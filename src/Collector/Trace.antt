-- ===== src/Collector/Trace.antt =====
-- The two loops that trace references, elox/lib/memory.c.
use mathlib.Core.List.{Memᴰ}
use mathlib.Core.List.Memᴰ
use slox.Collector.Mark.{ungray-Tri, blacken_object-refs, mark_all-Tri, put_flag_self}
use slox.Collector.Reach.{IsClosed, Live-mem, Tri, start-Tri}
use slox.Collector.Work.{
  total, total-lt, total-length, white_weight, white_weight-le, open_weight, open_weight-le,
  mark_all-open, mark_all-waiting, waiting,
}
use slox.Collector.{
  Vm, blacken_object, end_trace, fast_trace, mark_all, pop_gray, root_refs, scan_gray, slow_trace,
  slow_trace_references, trace_references, ungray, while_gray,
}
use slox.Object.{references}
use slox.Prelude.{
  ℕ, zero, suc, ◌+◌, ◌≤◌, ◌<◌, Bool, true, false, ◌||◌, List, [], ◌∷◌, Option, some, ◌≡◌, ◌≢◌, refl,
  sym, ap, ◌∙◌, subst, ◌⊎◌, inl, inr, arith, length, Bool-cases, if◌then◌else◌, ◌>>=◌,
}

-- everything live is black, and nothing is gray
pub record Traced (start vm : Vm) : Type 0 where
  pub tri : Tri start vm []
  pub no_gray : (a : ℕ) → vm.gray a ≡ false

abbrev pub Traces : Vm → Option Vm → Type 0
Traces start r = (t : Vm) × (r ≡ some t) × Traced start t

Traced-of : (start vm : Vm) → Tri start vm [] → ((a : ℕ) → vm.gray a ≢ true) → Traced start vm
Traced-of start vm tri h = record {
  tri = tri;
  no_gray = λ a. elim (Bool-cases (vm.gray a)) [ inl g ↦ absurd (h a g) | inr g ↦ g ];
}

or_true : (b : Bool) → (b || true) ≡ true
or_true true = refl
or_true false = refl

or_false : (b : Bool) → (b || false) ≡ b
or_false true = refl
or_false false = refl

scan_gray_visits :
    (alloc : ℕ → Bool) (a : ℕ) (later : List ℕ) (have : Bool) (vm : Vm)
    → vm.gray a ≡ true
    → scan_gray alloc (a ∷ later) have vm ≡ scan_gray alloc later true (blacken_object alloc a vm)
unfolding scan_gray
scan_gray_visits alloc a later have vm g = rw (g, or_true have) refl

scan_gray_skips :
    (alloc : ℕ → Bool) (a : ℕ) (later : List ℕ) (have : Bool) (vm : Vm)
    → vm.gray a ≡ false
    → scan_gray alloc (a ∷ later) have vm ≡ scan_gray alloc later have vm
unfolding scan_gray
scan_gray_skips alloc a later have vm g = rw (g, or_false have) refl

module _ (alloc : ℕ → Bool) (start : Vm) (c : IsClosed start) where
  -- a gray object is looked into, in place
  visit-Tri :
      (vm : Vm) (a : ℕ)
      → Tri start vm []
      → vm.gray a ≡ true
      → Tri start (blacken_object alloc a vm) []
  visit-Tri vm a tri g =
      let l = (tri.gray_black a g).1 in
      let u = ungray-Tri alloc start vm a vm.gray_stack tri l (λ x d m. m) (λ x m. m) in
      subst (λ t. Tri start t []) (sym (blacken_object-refs alloc start vm a vm.gray_stack tri))
        (mark_all-Tri alloc start _ _ u)

  ungray_open : (vm : Vm) (a x : ℕ) → open_weight (ungray a vm) x ≤ open_weight vm x
  ungray_open vm a x = ground arith

  visit-open : (vm : Vm) (a x : ℕ) → open_weight (blacken_object alloc a vm) x ≤ open_weight vm x
  unfolding blacken_object
  visit-open vm a x =
      omega
        (arith, mark_all-open alloc (references (vm.store a)) (ungray a vm) x, ungray_open vm a x)

  visit_falls :
      (vm : Vm) (a : ℕ)
      → vm.black a ≡ true
      → vm.gray a ≡ true
      → open_weight (blacken_object alloc a vm) a < open_weight vm a
  unfolding blacken_object
  visit_falls vm a b g =
      let m = mark_all-open alloc (references (vm.store a)) (ungray a vm) a in
      let zero_left : open_weight (ungray a vm) a ≡ 0 =
        rw (b, put_flag_self vm.gray a false) refl in
      let one_now : open_weight vm a ≡ 1 = rw (b, g) refl in omega (arith, m, zero_left, one_now)

  -- what a round over some of the objects does: nothing, if none of them is gray
  abbrev Scanned : List ℕ → Bool → Vm → Bool × Vm → Type 0
  Scanned l have vm r =
      Tri start r.1 []
      × ((x : ℕ) → open_weight r.1 x ≤ open_weight vm x)
      × ((have ≡ true) × (r.0 ≡ true)
          ⊎ (r.0 ≡ true)
            × (total (open_weight r.1) start.main_heap < total (open_weight vm) start.main_heap)
          ⊎ (have ≡ false) × (r ≡ (false, vm)) × ((x : ℕ) → Memᴰ x l → vm.gray x ≡ false))

  raised : (later : List ℕ) (next : Vm) (r : Bool × Vm) → Scanned later true next r → r.0 ≡ true
  raised later next r (t, down, inl x) = x.1
  raised later next r (t, down, inr (inl x)) = x.0
  raised later next r (t, down, inr (inr x)) = absurd (let e = x.0 in cc)

  visited-Scanned :
      (a : ℕ) (later : List ℕ) (have : Bool) (vm next : Vm) (r : Bool × Vm)
      → Memᴰ a start.main_heap
      → Scanned later true next r
      → open_weight next a < open_weight vm a
      → ((x : ℕ) → open_weight next x ≤ open_weight vm x)
      → Scanned (a ∷ later) have vm r
  visited-Scanned a later have vm next r m s lt le =
      let down = s.1 in
      (
        s.0,
        λ x. omega (arith, down x, le x),
        inr (
            inl (
              raised later next r s,
              total-lt (open_weight r.1) (open_weight vm) a (λ x. omega (arith, down x, le x))
                  (omega (arith, down a, lt)) start.main_heap m,
            )),
      )

  skipped-Scanned :
      (a : ℕ) (later : List ℕ) (have : Bool) (vm : Vm) (r : Bool × Vm)
      → vm.gray a ≡ false
      → Scanned later have vm r
      → Scanned (a ∷ later) have vm r
  skipped-Scanned a later have vm r g (t, down, inl x) = (t, down, inl x)
  skipped-Scanned a later have vm r g (t, down, inr (inl x)) = (t, down, inr (inl x))
  skipped-Scanned a later have vm r g (t, down, inr (inr (h, same, none_gray))) =
      (t, down, inr (inr (h, same, λ x m. later_gray x (Memᴰ.cases_cons m))))
    where
      later_gray : (x : ℕ) → (x ≡ a) ⊎ Memᴰ x later → vm.gray x ≡ false
      later_gray x (inl e) = rw e g
      later_gray x (inr m) = none_gray x m

  scan_gray-Scanned :
      (l : List ℕ) (have : Bool) (vm : Vm)
      → ((x : ℕ) → Memᴰ x l → Memᴰ x start.main_heap)
      → Tri start vm []
      → Scanned l have vm (scan_gray alloc l have vm)
  unfolding scan_gray
  scan_gray-Scanned [] true vm within tri = (tri, λ x. omega arith, inl (refl, refl))
  scan_gray-Scanned [] false vm within tri =
      (tri, λ x. omega arith, inr (inr (refl, refl, λ x m. absurd (Memᴰ.not-nil m))))
  scan_gray-Scanned (a ∷ later) have vm within tri = elim (Bool-cases (vm.gray a)) [
    | inl g ↦
        let next = blacken_object alloc a vm in
        subst (Scanned (a ∷ later) have vm) (sym (scan_gray_visits alloc a later have vm g)) (
          visited-Scanned a later have vm next (scan_gray alloc later true next)
            (within a (Memᴰ.head refl))
            (scan_gray-Scanned later true next (λ x m. within x (Memᴰ.tail m))
              (visit-Tri vm a tri g))
            (visit_falls vm a (tri.gray_black a g).0 g) (visit-open vm a))
    | inr g ↦ subst (Scanned (a ∷ later) have vm) (sym (scan_gray_skips alloc a later have vm g)) (
        skipped-Scanned a later have vm (scan_gray alloc later have vm) g
          (scan_gray-Scanned later have vm (λ x m. within x (Memᴰ.tail m)) tri))
  ]

  round-Traces :
      (fuel : ℕ) (vm : Vm) (r : Bool × Vm)
      → ((next : Vm)
          → Tri start next []
          → total (open_weight next) start.main_heap < fuel
          → Traces start (slow_trace alloc fuel next))
      → total (open_weight vm) start.main_heap ≤ fuel
      → Scanned start.main_heap false vm r
      → Traces start (while_gray alloc (slow_trace alloc fuel) r)
  unfolding while_gray
  round-Traces fuel vm (have, next) ih le (t, down, inl x) = absurd (let e = x.0 in cc)
  round-Traces fuel vm (have, next) ih le (t, down, inr (inl (e, lt))) =
      rw e (ih next t (omega (arith, lt, le)))
  round-Traces fuel vm (have, next) ih le (t, down, inr (inr (h, same, none_gray))) =
      rw (ap (λ r. r.0) same) (next, refl, Traced-of start next t still)
    where
      still : (a : ℕ) → next.gray a ≢ true
      still a g =
          let m = Live-mem start a c (t.gray_black a g).1 in
          let n : next.gray a ≡ false = ap (λ r. r.1.gray a) same ∙ none_gray a m in cc

  slow_trace-Traces :
      (fuel : ℕ) (vm : Vm)
      → Tri start vm []
      → total (open_weight vm) start.main_heap < fuel
      → Traces start (slow_trace alloc fuel vm)
  unfolding slow_trace
  slow_trace-Traces zero vm tri lt = absurd (omega (arith, lt))
  slow_trace-Traces (suc fuel) vm tri lt =
      round-Traces fuel vm (scan_gray alloc vm.main_heap false vm) (slow_trace-Traces fuel)
        (omega (arith, lt))
        (subst (λ l. Scanned l false vm (scan_gray alloc vm.main_heap false vm)) tri.same_heap
          (scan_gray-Scanned vm.main_heap false vm (λ x m. subst (Memᴰ x) tri.same_heap m) tri))

  slow_trace_references-Traces :
      (vm : Vm) → Tri start vm [] → Traces start (slow_trace_references alloc vm)
  unfolding slow_trace_references
  slow_trace_references-Traces vm tri = slow_trace-Traces (suc (length vm.main_heap)) vm tri (
      omega (
        arith,
        total-length (open_weight vm) (open_weight-le vm) start.main_heap,
        ap length tri.same_heap,
      ))

  pop_gray-Traces :
      (k : Vm → Option Vm) (fuel : ℕ)
      → ((next : Vm)
          → Tri start next []
          → next.gray_overflow ≡ false
          → waiting alloc start.main_heap next < fuel
          → Traces start (k next))
      → (stack : List ℕ) (vm : Vm) → vm.gray_stack ≡ stack
      → Tri start vm []
      → vm.gray_overflow ≡ false
      → waiting alloc start.main_heap vm ≤ fuel
      → Traces start (pop_gray alloc k stack vm)
  unfolding pop_gray
  pop_gray-Traces k fuel ih [] vm e tri o le =
      (vm, refl, Traced-of start vm tri (λ a g. Memᴰ.not-nil (subst (Memᴰ a) e (tri.listed o a g))))
  pop_gray-Traces k fuel ih (a ∷ rest) vm e tri o le = elim (Bool-cases next.gray_overflow) [
    | inl over ↦ rw over (slow_trace_references-Traces next next-Tri)
    | inr fits ↦ rw fits (ih next next-Tri fits (omega (arith, next-waiting, le, ap length e)))
  ]
    where
      next : Vm
      next = blacken_object alloc a (record vm { gray_stack = rest })

      others : (x : ℕ) → x ≢ a → Memᴰ x vm.gray_stack → Memᴰ x rest
      others x d m = elim (Memᴰ.cases_cons (subst (Memᴰ x) e m)) [
        | inl s ↦ absurd (d s)
        | inr m' ↦ m'
      ]

      popped-Tri :
          Tri start (ungray a (record vm { gray_stack = rest })) (references (start.store a))
      popped-Tri =
          ungray-Tri alloc start vm a rest tri
            (tri.stacked a (subst (Memᴰ a) (sym e) (Memᴰ.head refl))) others
            (λ x m. subst (Memᴰ x) (sym e) (Memᴰ.tail m))

      next-Tri : Tri start next []
      next-Tri =
          subst (λ t. Tri start t []) (sym (blacken_object-refs alloc start vm a rest tri))
            (mark_all-Tri alloc start _ _ popped-Tri)

      next-waiting :
          waiting alloc start.main_heap next ≤ total (white_weight vm) start.main_heap + length rest
      next-waiting =
          subst
            (λ t.
              waiting alloc start.main_heap t
              ≤ total (white_weight vm) start.main_heap + length rest)
            (sym (blacken_object-refs alloc start vm a rest tri))
            (mark_all-waiting alloc start c _ _ popped-Tri)

  fast_trace-Traces :
      (fuel : ℕ) (vm : Vm)
      → Tri start vm []
      → vm.gray_overflow ≡ false
      → waiting alloc start.main_heap vm < fuel
      → Traces start (fast_trace alloc fuel vm)
  unfolding fast_trace
  fast_trace-Traces zero vm tri o lt = absurd (omega (arith, lt))
  fast_trace-Traces (suc fuel) vm tri o lt =
      pop_gray-Traces (fast_trace alloc fuel) fuel (fast_trace-Traces fuel) vm.gray_stack vm refl
        tri o (omega (arith, lt))

  either-Traces :
      (vm : Vm) (over : Bool)
      → vm.gray_overflow ≡ over
      → Tri start vm []
      → Traces start (
          if over
          then slow_trace_references alloc vm
          else fast_trace alloc (suc (length vm.main_heap + length vm.gray_stack)) vm)
  either-Traces vm true e tri = slow_trace_references-Traces vm tri
  either-Traces vm false e tri = fast_trace-Traces _ vm tri e (
      omega (
        arith,
        total-length (white_weight vm) (white_weight-le vm) start.main_heap,
        ap length tri.same_heap,
      ))

  trace-Traces :
      (vm : Vm)
      → Tri start vm []
      → (t : Vm) × (trace_references alloc vm ≡ some (end_trace alloc t)) × Traced start t
  unfolding trace_references
  trace-Traces vm tri =
      let (t, e, traced) = either-Traces vm vm.gray_overflow refl tri in
      (t, ap (λ r. r >>= λ x. some (end_trace alloc x)) e, traced)

  -- marking from the roots and tracing ends, with everything live black
  pub trace_references-Traces :
      (t : Vm) × (trace_references alloc (mark_all alloc (root_refs start) start)
        ≡ some (end_trace alloc t))
      × Traced start t
  trace_references-Traces =
      trace-Traces (mark_all alloc (root_refs start) start)
        (mark_all-Tri alloc start start (root_refs start) (start-Tri start c))
