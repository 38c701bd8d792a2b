-- ===== src/Table/Store.antt =====
-- A store at the slot where a search ended, as an update of what the slots hold.
use slox.Prelude.{
  ℕ, ◌<◌, List, Option, none, some, ◌≡◌, ◌≢◌, sym, ap, ◌∙◌, ◌⊎◌, inl, inr, arith, length,
  get_or-set_self, get_or-set_ne, length-set, set, ◌==◌, if◌then◌else◌, Bool-cases,
}
use slox.Table.Placed.{Trail, Placed, Ends}
use slox.Table.Probe.{key_at}
use slox.Table.{Entry, empty_entry, entry_at}
use slox.Value.{Value, nil}

-- what the slots hold under a key
abbrev pub Reads : List Entry → ℕ → Option Value → Type 0
Reads es k none = (j : ℕ) → key_at es j ≢ some k
Reads es k (some v) = (i : ℕ) × (entry_at es i ≡ record { key = some k; value = v })

-- a slot without a key holds nil
abbrev pub Clean : List Entry → Type 0
Clean es = (j : ℕ) → key_at es j ≡ none → (entry_at es j).value ≡ nil

abbrev pub keyed : ℕ → Value → Entry
keyed k v = record { key = some k; value = v }

-- a slot after a store at `i`
pub entry_at-set :
    (es : List Entry) (i j : ℕ) (e : Entry)
    → i < length es
    → entry_at (set es i e) j ≡ (if j == i then e else entry_at es j)
entry_at-set es i j e h = elim (Bool-cases (j == i)) [
  | inl s ↦ let s' : j ≡ i = ground arith in rw (s, s') (get_or-set_self es i e empty_entry h)
  | inr d ↦ let d' : i ≢ j = ground arith in rw d (get_or-set_ne es i j e empty_entry d')
]

module _ (homes : ℕ → ℕ) (capacity : ℕ) (es : List Entry) (k i : ℕ) (v : Value)
    (p : Placed homes capacity es) (end : Ends homes capacity es k i) where
  at : (j : ℕ) → entry_at (set es i (keyed k v)) j ≡ (if j == i then keyed k v else entry_at es j)
  at j = entry_at-set es i j (keyed k v) (omega (arith, p.width, end.in_range))

  -- where a key stands after the store
  pub after :
      (j c : ℕ)
      → key_at (set es i (keyed k v)) j ≡ some c
      → (j ≡ i) × (c ≡ k) ⊎ (j ≢ i) × (key_at es j ≡ some c)
  after j c e = elim (Bool-cases (j == i)) [
    | inl s ↦
        let a : entry_at (set es i (keyed k v)) j ≡ keyed k v = rw s at (at j) in
        inl (ground arith, cc (ap (λ x. x.key) a))
    | inr d ↦
        let a : entry_at (set es i (keyed k v)) j ≡ entry_at es j = rw d at (at j) in
        inr (ground arith, sym (ap (λ x. x.key) a) ∙ e)
  ]

  pub set-Clean : Clean es → Clean (set es i (keyed k v))
  set-Clean h j n = elim (Bool-cases (j == i)) [
    | inl s ↦
        let a : entry_at (set es i (keyed k v)) j ≡ keyed k v = rw s at (at j) in
        let b : key_at (set es i (keyed k v)) j ≡ some k = ap (λ x. x.key) a in cc
    | inr d ↦
        let a : entry_at (set es i (keyed k v)) j ≡ entry_at es j = rw d at (at j) in
        ap (λ x. x.value) a ∙ h j (sym (ap (λ x. x.key) a) ∙ n)
  ]

  elsewhere : (j : ℕ) → j ≢ i → key_at es j ≢ some k
  elsewhere j d e = elim end.found [ inl f ↦ d (p.unique j i k e f) | inr f ↦ f.1 j e ]

  still_filled : (j : ℕ) → key_at es j ≢ none → key_at (set es i (keyed k v)) j ≢ none
  still_filled j f e = elim (Bool-cases (j == i)) [
    | inl s ↦
        let a : entry_at (set es i (keyed k v)) j ≡ keyed k v = rw s at (at j) in
        cc (ap (λ x. x.key) a)
    | inr d ↦
        let a : entry_at (set es i (keyed k v)) j ≡ entry_at es j = rw d at (at j) in
        f (sym (ap (λ x. x.key) a) ∙ e)
  ]

  Trail-after :
      (c j : ℕ) → Trail homes es capacity c j → Trail homes (set es i (keyed k v)) capacity c j
  Trail-after c j (d, lt, same, way) = (d, lt, same, λ e l. still_filled _ (way e l))

  pub set-Placed : Placed homes capacity (set es i (keyed k v))
  set-Placed = record {
    width = length-set es i (keyed k v) ∙ p.width;
    homes_lt = p.homes_lt;
    unique = λ a b c x y. once a b c (after a c x) (after b c y);
    trail = λ a c x. trail_of a c (after a c x);
  }
    where
      once :
          (a b c : ℕ)
          → (a ≡ i) × (c ≡ k) ⊎ (a ≢ i) × (key_at es a ≡ some c)
          → (b ≡ i) × (c ≡ k) ⊎ (b ≢ i) × (key_at es b ≡ some c)
          → a ≡ b
      once a b c (inl x) (inl y) = omega (arith, x.0, y.0)
      once a b c (inl x) (inr y) = absurd (elsewhere b y.0 (y.1 ∙ ap some x.1))
      once a b c (inr x) (inl y) = absurd (elsewhere a x.0 (x.1 ∙ ap some y.1))
      once a b c (inr x) (inr y) = p.unique a b c x.1 y.1

      trail_of :
          (a c : ℕ)
          → (a ≡ i) × (c ≡ k) ⊎ (a ≢ i) × (key_at es a ≡ some c)
          → Trail homes (set es i (keyed k v)) capacity c a
      trail_of a c (inl x) = rw (x.0, x.1) (Trail-after k i end.way)
      trail_of a c (inr x) = Trail-after c a (p.trail a c x.1)

  -- the store is an update at the key
  pub set-Reads :
      (c : ℕ) (o : Option Value)
      → Reads es c o
      → Reads (set es i (keyed k v)) c (if c == k then some v else o)
  set-Reads c o r = elim (Bool-cases (c == k)) [
    | inl s ↦
        let s' : c ≡ k = ground arith in
        rw (s, s')
          (i, get_or-set_self es i (keyed k v) empty_entry (omega (arith, p.width, end.in_range)))
    | inr d ↦ rw d (kept o r (ground arith))
  ]
    where
      kept : (o : Option Value) → Reads es c o → c ≢ k → Reads (set es i (keyed k v)) c o
      kept none r n = λ j e. elim (after j c e) [ inl x ↦ n x.1 | inr x ↦ r j x.1 ]
      kept (some u) (j, e) n = elim (Bool-cases (j == i)) [
        | inl s ↦
            let s' : j ≡ i = ground arith in
            let f : key_at es i ≡ some c = rw s' at (ap (λ x. x.key) e) in
            elim end.found [
              | inl g ↦ let h : c ≡ k = cc in absurd (n h)
              | inr g ↦ let h = g.0 in cc
            ]
        | inr d ↦ (j, rw d at (at j) ∙ e)
      ]
