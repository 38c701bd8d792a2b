-- ===== src/Collector/Reach.antt =====
-- Reachability in the heap, and the invariant of marking: the three colours.
use mathlib.Core.List.{Memᴰ}
use mathlib.Core.List.Memᴰ
use slox.Collector.{Vm, root_refs}
use slox.Object.{references}
use slox.Table.Delete.{HasSpace}
use slox.Prelude.{
  Distinct, ℕ, true, false, List, [], Option, some, ◌≡◌, refl, ◌⊎◌, inl, inr, Bool-cases, subst,
}

-- an object that the roots lead to, through objects of the main heap only: the collector does not
-- look into the objects that are black from the start
pub data Live (start : Vm) : ℕ → Type 0 where
  root : (a : ℕ) → Memᴰ (some a) (root_refs start) → start.black a ≡ false → Live start a
  step :
      (a b : ℕ)
      → Live start a
      → Memᴰ (some b) (references (start.store a))
      → start.black b ≡ false
      → Live start b

-- a permanent object, or one of the main heap
abbrev pub Known : Vm → ℕ → Type 0
Known start b = (start.black b ≡ true) ⊎ Memᴰ b start.main_heap

pub Live-white : (start : Vm) (a : ℕ) → Live start a → start.black a ≡ false
Live-white start a (root _ m w) = w
Live-white start a (step b _ l m w) = w

-- no reference leads out of the two heaps, nothing of the main heap is marked, and
-- the table of strings has an empty slot
pub record IsClosed (start : Vm) : Type 0 where
  pub white : (a : ℕ) → Memᴰ a start.main_heap → start.black a ≡ false
  pub distinct : Distinct start.main_heap
  pub strings : HasSpace start.strings
  pub idle : start.gray_stack ≡ []
  pub no_gray : (a : ℕ) → start.gray a ≡ false
  pub roots : (b : ℕ) → Memᴰ (some b) (root_refs start) → Known start b
  pub refs :
      (a b : ℕ)
      → Memᴰ a start.main_heap
      → Memᴰ (some b) (references (start.store a))
      → Known start b

known_white : (start : Vm) (b : ℕ) → Known start b → start.black b ≡ false → Memᴰ b start.main_heap
known_white start b (inl e) w = cc
known_white start b (inr m) w = m

pub Live-mem : (start : Vm) (a : ℕ) → IsClosed start → Live start a → Memᴰ a start.main_heap
Live-mem start a c (root _ m w) = known_white start a (c.roots a m) w
Live-mem start a c (step b _ l m w) = known_white start a (c.refs b a (Live-mem start b c l) m) w

-- black, or still to be marked
abbrev pub Due : Vm → List (Option ℕ) → ℕ → Type 0
Due vm pending b = (vm.black b ≡ true) ⊎ Memᴰ (some b) pending

-- between `start` and `vm` the collector has marked, and `pending` are the references it goes on with
pub record Tri (start vm : Vm) (pending : List (Option ℕ)) : Type 0 where
  pub same_store : vm.store ≡ start.store
  pub same_heap : vm.main_heap ≡ start.main_heap
  pub same_roots : root_refs vm ≡ root_refs start
  pub same_strings : vm.strings ≡ start.strings
  pub gray_black : (a : ℕ) → vm.gray a ≡ true → (vm.black a ≡ true) × Live start a
  pub kept : (a : ℕ) → start.black a ≡ true → vm.black a ≡ true
  pub sound : (a : ℕ) → vm.black a ≡ true → (start.black a ≡ true) ⊎ Live start a
  pub closed :
      (a b : ℕ)
      → Live start a
      → vm.black a ≡ true
      → vm.gray a ≡ false
      → Memᴰ (some b) (references (start.store a))
      → Due vm pending b
  pub rooted : (b : ℕ) → Memᴰ (some b) (root_refs start) → Due vm pending b
  pub listed : vm.gray_overflow ≡ false → (a : ℕ) → vm.gray a ≡ true → Memᴰ a vm.gray_stack
  pub stacked : (a : ℕ) → Memᴰ a vm.gray_stack → Live start a
  pub queued : (b : ℕ) → Memᴰ (some b) pending → (start.black b ≡ true) ⊎ Live start b

pub root_known :
    (start : Vm) (b : ℕ) → Memᴰ (some b) (root_refs start) → (start.black b ≡ true) ⊎ Live start b
root_known start b m = elim (Bool-cases (start.black b)) [
  | inl e ↦ inl e
  | inr w ↦ inr (root b m w)
]

pub ref_known :
    (start : Vm) (a b : ℕ)
    → Live start a
    → Memᴰ (some b) (references (start.store a))
    → (start.black b ≡ true) ⊎ Live start b
ref_known start a b l m = elim (Bool-cases (start.black b)) [
  | inl e ↦ inl e
  | inr w ↦ inr (step a b l m w)
]

empty_stack : {a : ℕ} {l : List ℕ} → l ≡ [] → Memᴰ a l → ⊥
empty_stack {a} e m = Memᴰ.not-nil (subst (Memᴰ a) e m)

-- the state when marking begins
pub start-Tri : (start : Vm) → IsClosed start → Tri start start (root_refs start)
start-Tri start c = record {
  same_store = refl;
  same_heap = refl;
  same_roots = refl;
  same_strings = refl;
  gray_black = λ a g. let n = c.no_gray a in cc;
  kept = λ a e. e;
  sound = λ a e. inl e;
  closed = λ a b l e g m. let w = Live-white start a l in cc;
  rooted = λ b m. inr m;
  listed = λ o a g. let n = c.no_gray a in cc;
  stacked = λ a m. absurd (empty_stack c.idle m);
  queued = λ b m. root_known start b m;
}

-- With nothing gray and nothing pending, what is live is black.
pub Live-black :
    (start vm : Vm)
    → Tri start vm []
    → ((a : ℕ) → Live start a → vm.gray a ≡ false)
    → (a : ℕ) → Live start a
    → vm.black a ≡ true
Live-black start vm t g a (root _ m w) = none_due (t.rooted a m)
  where
    none_due : Due vm [] a → vm.black a ≡ true
    none_due (inl e) = e
    none_due (inr n) = absurd (Memᴰ.not-nil n)
Live-black start vm t g a (step b _ l m w) =
    none_due (t.closed b a l (Live-black start vm t g b l) (g b l) m)
  where
    none_due : Due vm [] a → vm.black a ≡ true
    none_due (inl e) = e
    none_due (inr n) = absurd (Memᴰ.not-nil n)
