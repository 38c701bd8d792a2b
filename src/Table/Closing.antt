-- ===== src/Table/Closing.antt =====
-- The loop of `tableDelete` of elox/lib/table.c as a whole: what it leaves is well formed.
use slox.Prelude.{
  ℕ, zero, suc, ◌+◌, ◌<◌, Bool, true, false, List, [], ◌∷◌, none, some, ◌≡◌, refl, sym, ap, ◌∙◌,
  subst, inl, inr, arith, length, set, ltb, ◌==◌, if◌then◌else◌, Bool-cases, Option-cases,
}
use slox.Table.Distance.{far}
use slox.Table.Placed.{Placed, occupied, occupied-set}
use slox.Table.Probe.{key_at}
use slox.Table.Shift.{Open, cleared-Placed, moved-Open, stays-Open}
use slox.Table.Store.{Clean, entry_at-set, keyed}
use slox.Table.{
  Entry, StringObject, close_hole, empty_entry, entry_at, home, is_key, moves_back, next_entry,
}

-- one key less
occupied-clear :
    (es : List Entry) (i k : ℕ)
    → key_at es i ≡ some k
    → occupied es ≡ occupied (set es i empty_entry) + 1
unfolding occupied is_key
occupied-clear [] i k e = absurd (let f : none ≡ some k = e in cc)
occupied-clear (x ∷ es) zero k e = rw e (omega arith)
occupied-clear (x ∷ es) (suc i) k e = let r = occupied-clear es i k e in omega (arith, r)

module _ (heap : ℕ → StringObject) (capacity shift : ℕ)
    (homes_lt : (k : ℕ) → home heap shift k < capacity) where
  -- what the loop leaves
  pub record Shifted (es fs : List Entry) : Type 0 where
    pub placed : Placed (home heap shift) capacity fs
    pub clean : Clean fs
    pub fewer : occupied es ≡ occupied fs + 1

  module _ (es : List Entry) (hole next : ℕ) (o : Open heap capacity shift homes_lt es hole next)
      (clean : Clean es) where
    within : hole < length es
    within = let w = o.width in let l = o.hole_lt in omega (arith, w, l)

    Clean-set : (e : Entry) → (e.key ≡ none → e.value ≡ empty_entry.value) → Clean (set es hole e)
    Clean-set e h j n = elim (Bool-cases (j == hole)) [
      | inl s ↦
          let at : entry_at (set es hole e) j ≡ e = rw s at (entry_at-set es hole j e within) in
          ap (λ x. x.value) at ∙ h (sym (ap (λ x. x.key) at) ∙ n)
      | inr d ↦
          let at : entry_at (set es hole e) j ≡ entry_at es j =
            rw d at (entry_at-set es hole j e within) in
          ap (λ x. x.value) at ∙ clean j (sym (ap (λ x. x.key) at) ∙ n)
    ]

    cleared-Shifted : key_at es next ≡ none → Shifted es (set es hole empty_entry)
    cleared-Shifted n = record {
      placed = cleared-Placed heap capacity shift homes_lt es hole next o n;
      clean = Clean-set empty_entry (λ e. refl);
      fewer = elim (Option-cases (key_at es hole)) [
        | inl e ↦ absurd (o.filled e)
        | inr (k, e) ↦ occupied-clear es hole k e
      ];
    }

    same_occupied :
        (k : ℕ) → key_at es next ≡ some k → occupied (set es hole (entry_at es next)) ≡ occupied es
    unfolding is_key
    same_occupied k e = elim (Option-cases (key_at es hole)) [
      | inl f ↦ absurd (o.filled f)
      | inr (c, f) ↦
          let same : entry_at es next ≡ keyed k (entry_at es next).value =
            ap (λ x. record { key = x; value = (entry_at es next).value }) e in
          let g = occupied-set es hole k (entry_at es next).value within in
          let h : ◌≡◌ {A = ℕ} (if is_key (key_at es hole) then 0 else 1) 0 = rw f refl in
          ap (λ x. occupied (set es hole x)) same ∙ omega (arith, g, h)
    ]

  abbrev Shifts : ℕ → Type 0
  Shifts turns =
      (es fs : List Entry) (hole next : ℕ)
      → Open heap capacity shift homes_lt es hole next
      → Clean es
      → close_hole heap turns es capacity shift hole next ≡ some fs
      → Shifted es fs

  step-Shifted :
      (turns : ℕ)
      → Shifts turns
      → (es fs : List Entry) (hole next k : ℕ) → Open heap capacity shift homes_lt es hole next
      → Clean es
      → key_at es next ≡ some k
      → (b : Bool)
      → ltb (far capacity (home heap shift k) hole) (far capacity (home heap shift k) next) ≡ b
      → close_hole heap turns
          (if b then set es hole (entry_at es next) else es)
          capacity
          shift
          (if b then next else hole)
          (next_entry capacity next)
        ≡ some fs
      → Shifted es fs
  step-Shifted turns ih es fs hole next k o clean e true lt run =
      let r =
        ih (set es hole (entry_at es next)) fs next _
          (moved-Open heap capacity shift homes_lt es hole next o k e (ground (arith, lt)))
          (Clean-set es hole next o clean (entry_at es next) (λ n. clean next n)) run in
      record {
        placed = r.placed;
        clean = r.clean;
        fewer = sym (same_occupied es hole next o clean k e) ∙ r.fewer;
      }
  step-Shifted turns ih es fs hole next k o clean e false lt run =
      ih es fs hole _
        (stays-Open heap capacity shift homes_lt es hole next o k e (ground (arith, lt))) clean run

  pub close_hole-Shifted : (turns : ℕ) → Shifts turns
  unfolding close_hole moves_back is_key
  close_hole-Shifted zero es fs hole next o clean = λ run. absurd cc
  close_hole-Shifted (suc turns) es fs hole next o clean = elim (Option-cases (key_at es next)) [
    | inl n ↦ rw n λ run.
        (let e : set es hole empty_entry ≡ fs = cc in
          subst (Shifted es) e (cleared-Shifted es hole next o clean n))
    | inr (k, e) ↦ rw e λ run.
        (step-Shifted turns (close_hole-Shifted turns) es fs hole next k o clean e
          (ltb (far capacity (home heap shift k) hole) (far capacity (home heap shift k) next)) refl
          run)
  ]
