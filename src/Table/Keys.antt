-- ===== src/Table/Keys.antt =====
-- The keys of the table of elox/lib/table.c before and after a store.
use slox.Memory.Slots.{index_for-lt}
use slox.Prelude.{
  ℕ, Bool, true, false, Option, none, some, ◌≡◌, refl, sym, ap, subst, ◌⊎◌, inl, inr, arith, ◌==◌,
  ==_iff, if◌then◌else◌, Bool-cases,
}
use slox.Table.Growth.{Sound, Valid}
use slox.Table.Map.{Updated, table_get-Reads}
use slox.Table.Placed.{Trail}
use slox.Table.Probe.{key_at}
use slox.Table.Store.{Reads}
use slox.Table.{StringObject, Table, home}
use slox.Value.{Value}

-- a key of the table
abbrev pub IsKey : Table → ℕ → Type 0
IsKey t k = (i : ℕ) × (key_at t.entries i ≡ some k)

module _ (heap heap' : ℕ → StringObject) (t : Table)
    (same : (k : ℕ) → IsKey t k → heap' k ≡ heap k) where
  Sound-heap : (x : ℕ) → Sound heap x t → Sound heap' x t
  unfolding home
  Sound-heap x s = record {
    low = s.low;
    high = s.high;
    capacity = s.capacity;
    shift = s.shift;
    load = s.load;
    counted = s.counted;
    clean = s.clean;
    placed = record {
      width = s.placed.width;
      unique = s.placed.unique;
      homes_lt = λ k.
          (let high = s.high in
            rw (s.shift, s.capacity) (index_for-lt (heap' k).hash x (omega (arith, high))));
      trail = λ i k e.
          let same_home : home heap t.shift k ≡ home heap' t.shift k =
            ap (λ o. home (λ a. o) t.shift k) (sym (same k (i, e))) in
          subst (λ h. Trail (λ a. h) t.entries t.capacity k i) same_home (s.placed.trail i k e);
    };
  }

  -- a heap that is the same at the keys
  pub Valid-heap : Valid heap t → Valid heap' t
  Valid-heap (inl e) = inl e
  Valid-heap (inr (x, s)) = inr (x, Sound-heap x s)

IsKey-of : (t : Table) (k : ℕ) (o : Option Value) → Reads t.entries k o → (o ≡ none → ⊥) → IsKey t k
IsKey-of t k none r n = absurd (n refl)
IsKey-of t k (some v) (i, e) n = (i, ap (λ x. x.key) e)

Reads-IsKey :
    (t : Table) (k : ℕ) (o : Option Value) → Reads t.entries k o → IsKey t k → (o ≡ none → ⊥)
Reads-IsKey t k none r (i, e) n = r i e
Reads-IsKey t k (some v) r (i, e) n = let f : some v ≡ none = n in cc

module _ (heap : ℕ → StringObject) (t u : Table) (key : ℕ) (v : Value) (new : Bool)
    (valid : Valid heap t) (m : Updated heap t key v new u) where
  pub stored-IsKey : IsKey u key
  stored-IsKey =
      let (o, run, held) = table_get-Reads heap t key valid in
      IsKey-of u key _ (m.reads key o held)
        (λ n. let e = (==_iff key key).1 refl in let f : some v ≡ none = rw e at n in cc)

  pub kept-IsKey : (k : ℕ) → IsKey t k → IsKey u k
  kept-IsKey k h =
      let (o, run, held) = table_get-Reads heap t k valid in
      IsKey-of u k _ (m.reads k o held) (still o (Reads-IsKey t k o held h) (k == key))
    where
      still :
          (o : Option Value) → (o ≡ none → ⊥) → (b : Bool) → (if b then some v else o) ≡ none → ⊥
      still o d true e = let f : some v ≡ none = e in cc
      still o d false e = d e

  pub known-IsKey : (k : ℕ) → IsKey u k → (k ≡ key) ⊎ IsKey t k
  known-IsKey k h = elim (Bool-cases (k == key)) [
    | inl e ↦ inl ((==_iff k key).0 e)
    | inr d ↦
        let (o, run, held) = table_get-Reads heap t k valid in
        let r : Reads u.entries k o = rw d at (m.reads k o held) in
        inr (IsKey-of t k o held (Reads-IsKey u k o r h))
  ]
