-- ===== src/Collector/Bytes.antt =====
-- What `sweep` of elox/lib/memory.c gives back of the bytes that are allocated.
use slox.Collector.Work.{total}
use slox.Collector.{Vm, marked}
use slox.Prelude.{ℕ, ◌+◌, ◌%◌, ◌^◌, Bool, List, [], ◌∷◌, ◌≡◌, if◌then◌else◌}
use slox.Release.{Sizes, freed_sizes}

pub sum : List ℕ → ℕ
sum [] = 0
sum (n ∷ ns) = n + sum ns

module _ (alloc : ℕ → Bool) (sizes : Sizes) where
  -- the sum of the sizes that are given back for an object that is swept
  abbrev pub dead_bytes : Vm → ℕ → ℕ
  dead_bytes vm x = if marked vm x then 0 else sum (freed_sizes sizes (vm.store x))

  -- the books are kept
  abbrev Balanced : List ℕ → Vm → Vm → Type 0
  Balanced l vm t =
      (t.bytes_allocated + total (dead_bytes vm) l) % 2 ^ 64 ≡ vm.bytes_allocated % 2 ^ 64
