-- ===== src/Collector/Garbage.antt =====
-- What `collectGarbage` of elox/lib/memory.c keeps, in terms of the pointers of objects and roots.
use mathlib.Core.List.{Memᴰ}
use slox.Collector.Collect.{KeptLive}
use slox.Collector.Reach.{IsClosed, Known, Live-mem}
use slox.Collector.Refers.{IsRoot, IsRoot-root_refs, Refers, Refers-references, Skipped}
use slox.Collector.{Vm}
use slox.Prelude.{Distinct, ℕ, true, false, [], Option, some, ◌≡◌, sym, ap, subst, ◌⊎◌, inl, inr}
use slox.Table.Delete.{HasSpace}

-- An object that pointers lead to from the roots, whether the collector follows them or not, through
-- objects of the main heap.
pub data Reachable (start : Vm) : ℕ → Type 0 where
  held : (a : ℕ) → IsRoot a start → start.black a ≡ false → Reachable start a
  pointed :
      (a b : ℕ)
      → Reachable start a
      → Refers b (start.store a) ⊎ Skipped b (start.store a)
      → start.black b ≡ false
      → Reachable start b

-- Pointers do not leave the two heaps, nothing of the main heap is marked, the table of strings has an
-- empty slot, and a pointer that the collector does not follow leads to a permanent object or to one
-- that the same object refers to also.
pub record IsHeap (start : Vm) : Type 0 where
  pub white : (a : ℕ) → Memᴰ a start.main_heap → start.black a ≡ false
  pub distinct : Distinct start.main_heap
  pub strings : HasSpace start.strings
  pub idle : start.gray_stack ≡ []
  pub no_gray : (a : ℕ) → start.gray a ≡ false
  pub roots : (b : ℕ) → IsRoot b start → Known start b
  pub refs : (a b : ℕ) → Memᴰ a start.main_heap → Refers b (start.store a) → Known start b
  pub skipped :
      (a b : ℕ)
      → Memᴰ a start.main_heap
      → Skipped b (start.store a)
      → (start.black b ≡ true) ⊎ Refers b (start.store a)

-- what the collection leaves: the reachable objects and no others, in an unchanged store
pub record Collected (start t : Vm) : Type 0 where
  pub same_store : t.store ≡ start.store
  pub same_roots : (b : ℕ) → (IsRoot b start → IsRoot b t) × (IsRoot b t → IsRoot b start)
  pub sound : (a : ℕ) → Memᴰ a t.main_heap → Reachable start a
  pub complete : (a : ℕ) → Reachable start a → Memᴰ a t.main_heap
  pub fit : IsHeap t

abbrev pub Collects : Vm → Option Vm → Type 0
Collects start r = (t : Vm) × (r ≡ some t) × Collected start t

module _ (start : Vm) (h : IsHeap start) where
  closed : IsClosed start
  closed = record {
    white = h.white;
    distinct = h.distinct;
    strings = h.strings;
    idle = h.idle;
    no_gray = h.no_gray;
    roots = λ b m. h.roots b ((IsRoot-root_refs b start).1 m);
    refs = λ a b m r. h.refs a b m ((Refers-references b (start.store a)).1 r);
  }

  module _ (t : Vm) (k : KeptLive start t) where
    same_object : (a : ℕ) → t.store a ≡ start.store a
    same_object a = ap (λ f. f a) k.same_store

    skipped_after :
        (a b : ℕ)
        → Memᴰ a t.main_heap
        → Skipped b (t.store a)
        → (t.black b ≡ true) ⊎ Refers b (t.store a)
    skipped_after a b m s =
        elim (h.skipped a b (Live-mem start a closed (k.sound a m))
          (subst (Skipped b) (same_object a) s)) [
            | inl e ↦ inl (k.permanent b e)
            | inr r ↦ inr (subst (Refers b) (sym (same_object a)) r)
          ]

    fit : IsHeap t
    fit = record {
      white = k.fit.white;
      distinct = k.fit.distinct;
      strings = k.fit.strings;
      idle = k.fit.idle;
      no_gray = k.fit.no_gray;
      roots = λ b r. k.fit.roots b ((IsRoot-root_refs b t).0 r);
      refs = λ a b m r. k.fit.refs a b m ((Refers-references b (t.store a)).0 r);
      skipped = skipped_after;
    }
