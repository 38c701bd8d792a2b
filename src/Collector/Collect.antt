-- ===== src/Collector/Collect.antt =====
-- `collectGarbage` of elox/lib/memory.c as a whole: its phases one after the other.
use mathlib.Core.List.{Memᴰ}
use slox.Release.{Sizes}
use slox.Collector.Reach.{IsClosed, Known, Live, Live-black, Live-mem, ref_known, root_known}
use slox.Collector.Sweep.{Swept, sweep-Swept}
use slox.Collector.Trace.{Traced, trace_references-Traces}
use slox.Collector.{
  Vm, collect_garbage, end_trace, key_allocated, keys_allocated, marked, remove_white, root_refs,
  set_next_gc, string_at, sweep,
}
use slox.Object.{references}
use slox.Prelude.{
  Distinct, outside, outside_not_member, Bool-cases, ℕ, zero, suc, Bool, true, false, ◌||◌, List,
  [], ◌∷◌, none, Option, some, ◌≡◌, refl, sym, ap, ◌∙◌, subst, ◌⊎◌, inl, inr, ◌>>=◌,
}
use slox.Table.Delete.{HasSpace, table_remove_white-ends}
use slox.Table.Probe.{key_at}
use slox.Table.{Entry, Table}

-- what the collection leaves: the live objects and no others, unmarked, in an unchanged store
pub record KeptLive (start t : Vm) : Type 0 where
  pub same_store : t.store ≡ start.store
  pub same_roots : root_refs t ≡ root_refs start
  pub sound : (a : ℕ) → Memᴰ a t.main_heap → Live start a
  pub complete : (a : ℕ) → Live start a → Memᴰ a t.main_heap
  pub permanent : (a : ℕ) → start.black a ≡ true → t.black a ≡ true
  pub fit : IsClosed t

abbrev pub Keeps : Vm → Option Vm → Type 0
Keeps start r = (t : Vm) × (r ≡ some t) × KeptLive start t

-- the keys of the table of strings are objects that are not freed
abbrev pub KeysKnown : Vm → Type 0
KeysKnown vm = (j k : ℕ) → key_at vm.strings.entries j ≡ some k → Known vm k

key_allocated-true :
    (vm : Vm) (o : Option ℕ) → ((k : ℕ) → o ≡ some k → Known vm k) → key_allocated vm o ≡ true
unfolding key_allocated
key_allocated-true vm none h = refl
key_allocated-true vm (some k) h = elim (h k refl) [
  | inl b ↦ rw b refl
  | inr m ↦ elim (Bool-cases (outside k vm.main_heap)) [
    | inl o ↦ absurd (outside_not_member k vm.main_heap o m)
    | inr i ↦ rw i (or_true (vm.black k))
  ]
]
  where
    or_true : (b : Bool) → (b || true) ≡ true
    or_true true = refl
    or_true false = refl

keys_allocated-true :
    (vm : Vm) (es : List Entry)
    → ((j k : ℕ) → key_at es j ≡ some k → Known vm k)
    → keys_allocated vm es ≡ true
unfolding keys_allocated
keys_allocated-true vm [] h = refl
keys_allocated-true vm (e ∷ es) h =
    rw
      (
        key_allocated-true vm e.key (λ k s. h zero k s),
        keys_allocated-true vm es (λ j k s. h (suc j) k s),
      )
      refl

module _ (alloc : ℕ → Bool) (sizes : Sizes) where
  -- the loop over the table of strings ends, and changes nothing else
  remove_white-ends :
      (vm : Vm)
      → HasSpace vm.strings
      → KeysKnown vm
      → (u : Table) × (remove_white alloc sizes vm ≡ some (record vm { strings = u })) × HasSpace u
  unfolding remove_white
  remove_white-ends vm s keys =
      let (u, run, s') =
        table_remove_white-ends (λ a. string_at (vm.store a) (marked vm a)) vm.strings s in
      let allocated = keys_allocated-true vm vm.strings.entries keys in
      (
        u,
        (rw allocated (ap (λ r. r >>= λ strings. some (record vm { strings = strings })) run)),
        s',
      )

  -- tracing frees nothing
  Traced-KeysKnown :
      (start vm : Vm) → Traced start vm → KeysKnown start → KeysKnown (end_trace alloc vm)
  Traced-KeysKnown start vm traced keys j k e =
      elim (keys j k (ap (λ t. key_at t.entries j) (sym traced.tri.same_strings) ∙ e)) [
        | inl b ↦ inl (traced.tri.kept k b)
        | inr m ↦ inr (subst (Memᴰ k) (sym traced.tri.same_heap) m)
      ]

  module _ (start : Vm) (c : IsClosed start) (vm : Vm) (traced : Traced start vm) (strings : Table)
      (space : HasSpace strings) where
    -- the state that is swept
    abbrev ready : Vm
    ready = record (end_trace alloc vm) { strings = strings }

    abbrev after : Vm
    after = set_next_gc alloc sizes (sweep alloc sizes ready)

    swept : Swept ready vm.main_heap after.main_heap (sweep alloc sizes ready)
    swept = sweep-Swept alloc sizes ready (subst Distinct (sym traced.tri.same_heap) c.distinct)

    heap_of : (a : ℕ) → Memᴰ a start.main_heap → Memᴰ a vm.main_heap
    heap_of a m = subst (Memᴰ a) (sym traced.tri.same_heap) m

    Live-of : (a : ℕ) → Memᴰ a after.main_heap → Live start a
    Live-of a m =
        let (m', e) = swept.goes a m in
        let m'' = subst (Memᴰ a) traced.tri.same_heap m' in
        elim (traced.tri.sound a (black_of (vm.black a) (vm.gray a) e (traced.no_gray a))) [
          | inl b ↦ let w = c.white a m'' in absurd cc
          | inr l ↦ l
        ]
      where
        black_of : (b g : Bool) → (b || g) ≡ true → g ≡ false → b ≡ true
        black_of true g e n = refl
        black_of false g e n = absurd cc

    stays : (a : ℕ) → Live start a → Memᴰ a after.main_heap
    stays a l =
        swept.stays a (heap_of a (Live-mem start a c l))
          (rw (Live-black start vm traced.tri (λ x l'. traced.no_gray x) a l) refl)

    -- a permanent object stays black
    still_black : (a : ℕ) → start.black a ≡ true → after.black a ≡ true
    unfolding root_refs
    still_black a b =
        let out : ¬ Memᴰ a vm.main_heap =
          λ m. let w = c.white a (subst (Memᴰ a) traced.tri.same_heap m) in cc in
        (swept.elsewhere a out).0 ∙ traced.tri.kept a b

    Known-after : (b : ℕ) → (start.black b ≡ true) ⊎ Live start b → Known after b
    Known-after b (inl e) = inl (still_black b e)
    Known-after b (inr l) = inr (stays b l)

    not_gray : (a : ℕ) → after.gray a ≡ false
    not_gray a = swept.lowered a (traced.no_gray a)

    after-KeptLive : KeptLive start after
    unfolding root_refs
    after-KeptLive = record {
      same_store = swept.same_store ∙ traced.tri.same_store;
      same_roots = swept.same_roots ∙ traced.tri.same_roots;
      sound = Live-of;
      complete = stays;
      permanent = still_black;
      fit = record {
        white = λ a m. (swept.unmarked a (swept.goes a m).0).0;
        distinct = swept.distinct;
        strings = subst HasSpace (sym swept.same_strings) space;
        idle = swept.same_stack;
        no_gray = not_gray;
        roots = λ b m. Known-after b (
            root_known start b
              (subst (Memᴰ (some b)) (swept.same_roots ∙ traced.tri.same_roots) m));
        refs = λ a b m r. Known-after b (
            ref_known start a b (Live-of a m) (
              subst (λ f. Memᴰ (some b) (references (f a)))
                (swept.same_store ∙ traced.tri.same_store) r));
      };
    }

  -- The phases one after the other, if the keys of the table of strings are allocated.
  pub collect_garbage-Keeps :
      (start : Vm)
      → IsClosed start
      → KeysKnown start
      → Keeps start (collect_garbage alloc sizes start)
  unfolding collect_garbage
  collect_garbage-Keeps start c keys =
      let (vm, run, traced) = trace_references-Traces alloc start c in
      let ended = end_trace alloc vm in
      let (u, removed, space) =
        remove_white-ends ended (subst HasSpace (sym traced.tri.same_strings) c.strings)
          (Traced-KeysKnown start vm traced keys) in
      let finish : Vm → Option Vm = λ t. some (set_next_gc alloc sizes (sweep alloc sizes t)) in
      (
        set_next_gc alloc sizes (sweep alloc sizes (record ended { strings = u })),
        ap (λ r. r >>= λ t. remove_white alloc sizes t >>= finish) run
            ∙ ap (λ r. r >>= finish) removed,
        after-KeptLive start c vm traced u space,
      )
