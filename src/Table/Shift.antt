-- ===== src/Table/Shift.antt =====
-- The loop of `tableDelete` of elox/lib/table.c keeps every key within reach of its home.
use native.Mathlib.Nat.{mod-lt}
use slox.Prelude.{
  ℕ, ◌+◌, ◌≤◌, ◌<◌, true, false, List, none, some, ◌≡◌, ◌≢◌, ◌⊎◌, sym, ap, ◌∙◌, subst, inl, inr,
  arith, length, set, length-set, ◌==◌, Bool-cases,
}
use slox.Table.Delete.{next_entry-lt}
use slox.Table.Placed.{Placed, Trail}
use slox.Table.Distance.{
  far, far-lt, far-next, far-slot, far_inj, far_ne, far_one, far_self, far_through, round_lt,
  slot-far, strict,
}
use slox.Table.Probe.{key_at, slot}
use slox.Table.Store.{entry_at-set}
use slox.Table.{Entry, StringObject, empty_entry, entry_at, home, next_entry}

module _ (heap : ℕ → StringObject) (capacity shift : ℕ)
    (homes_lt : (k : ℕ) → home heap shift k < capacity) where
  abbrev pub homes : ℕ → ℕ
  homes k = home heap shift k

  -- the loop with its hole at `hole`, before `next`
  pub record Open (es : List Entry) (hole next : ℕ) : Type 0 where
    pub width : length es ≡ capacity
    pub hole_lt : hole < capacity
    pub next_lt : next < capacity
    pub filled : key_at es hole ≢ none
    pub inside : (j c : ℕ) → key_at es j ≡ some c → j < capacity
    pub unique :
        (i j c : ℕ) → i ≢ hole → j ≢ hole → key_at es i ≡ some c → key_at es j ≡ some c → i ≡ j
    pub way :
        (j c m : ℕ)
        → j ≢ hole
        → key_at es j ≡ some c
        → m < capacity
        → far capacity (homes c) m < far capacity (homes c) j
        → key_at es m ≢ none
    -- keys that were looked for across the hole are still ahead
    pub gap :
        (j c : ℕ)
        → j ≢ hole
        → key_at es j ≡ some c
        → far capacity (homes c) hole < far capacity (homes c) j
        → far capacity hole next ≤ far capacity hole j
    pub ahead : 0 < far capacity hole next
    pub free :
        (z : ℕ) × (z < capacity)
        × (key_at es z ≡ none)
        × (far capacity hole next ≤ far capacity hole z)

  module _ (es : List Entry) (hole next : ℕ) (o : Open es hole next) where
    pub at_hole : (e : Entry) (j : ℕ) → j ≡ hole → key_at (set es hole e) j ≡ e.key
    at_hole e j s =
        let s' : (j == hole) ≡ true = ground arith in
        let lt : hole < length es = (let w = o.width in let l = o.hole_lt in omega (arith, w, l)) in
        ap (λ x. x.key) (rw s' at (entry_at-set es hole j e lt))

    pub elsewhere : (e : Entry) (j : ℕ) → j ≢ hole → key_at (set es hole e) j ≡ key_at es j
    elsewhere e j d =
        let d' : (j == hole) ≡ false = ground arith in
        let lt : hole < length es = (let w = o.width in let l = o.hole_lt in omega (arith, w, l)) in
        ap (λ x. x.key) (rw d' at (entry_at-set es hole j e lt))

    -- at the empty slot the hole can be cleared
    pub cleared-Placed : key_at es next ≡ none → Placed homes capacity (set es hole empty_entry)
    cleared-Placed n = record {
      width = length-set es hole empty_entry ∙ o.width;
      homes_lt = homes_lt;
      unique = λ i j c e f.
          (let (d, e') = other i c e in let (d', f') = other j c f in o.unique i j c d d' e' f');
      trail = λ j c e. (let (d, e') = other j c e in trail j c d e');
    }
      where
        other :
            (j c : ℕ)
            → key_at (set es hole empty_entry) j ≡ some c
            → (j ≢ hole) × (key_at es j ≡ some c)
        other j c e = elim (Bool-cases (j == hole)) [
          | inl s ↦
              let s' : j ≡ hole = ground arith in
              let f : none ≡ some c = sym (at_hole empty_entry j s') ∙ e in absurd cc
          | inr d ↦ let d' : j ≢ hole = ground arith in (d', sym (elsewhere empty_entry j d') ∙ e)
        ]

        -- the way to a key does not lead through the hole
        past :
            (j c m : ℕ)
            → j ≢ hole
            → key_at es j ≡ some c
            → far capacity (homes c) m < far capacity (homes c) j
            → m ≢ hole
        past j c m d e lt s =
            let jl = o.inside j c e in
            let lt' : far capacity (homes c) hole < far capacity (homes c) j =
              subst (λ x. far capacity (homes c) x < far capacity (homes c) j) s lt in
            let through =
              far_through capacity (homes c) hole next j (homes_lt c) o.hole_lt o.next_lt jl lt'
                (o.gap j c d e lt') in
            let apart : next ≢ j =
              λ f. (let g : none ≡ some c = sym n ∙ (ap (key_at es) f ∙ e) in cc) in
            let differ = far_inj capacity (homes c) next j (homes_lt c) o.next_lt jl apart in
            o.way j c next d e o.next_lt
              (strict (far capacity (homes c) next) (far capacity (homes c) j) through differ) n

        step :
            (j c : ℕ)
            → j ≢ hole
            → key_at es j ≡ some c
            → (x : ℕ) → x < far capacity (homes c) j
            → key_at (set es hole empty_entry) (slot capacity (homes c) x) ≢ none
        step j c d e x lt f =
            let jl = o.inside j c e in
            let xl : x < capacity =
              (let b = far-lt capacity (homes c) j (homes_lt c) jl in omega (arith, lt, b)) in
            let m = slot capacity (homes c) x in
            let lt' : far capacity (homes c) m < far capacity (homes c) j =
              subst (λ y. y < far capacity (homes c) j)
                (sym (far-slot capacity (homes c) x (homes_lt c) xl)) lt in
            let apart = past j c m d e lt' in
            o.way j c m d e (mod-lt (homes c + x) (omega (arith, xl))) lt'
              (sym (elsewhere empty_entry m apart) ∙ f)

        trail :
            (j c : ℕ)
            → j ≢ hole
            → key_at es j ≡ some c
            → Trail homes (set es hole empty_entry) capacity c j
        trail j c d e =
            let jl = o.inside j c e in
            (
              far capacity (homes c) j,
              far-lt capacity (homes c) j (homes_lt c) jl,
              sym (slot-far capacity (homes c) j (homes_lt c) jl),
              λ x lt f. step j c d e x lt f,
            )

    -- the empty slot is further on, and not reached by the next entry
    module _ (k : ℕ) (here : key_at es next ≡ some k) where
      beyond :
          (z : ℕ)
          → z < capacity
          → key_at es z ≡ none
          → far capacity hole next ≤ far capacity hole z
          → far capacity hole next < far capacity hole z
      beyond z zl n le =
          let apart : next ≢ z =
            λ f. (let g : some k ≡ none = sym here ∙ (ap (key_at es) f ∙ n) in cc) in
          strict (far capacity hole next) (far capacity hole z) le
            (far_inj capacity hole next z o.hole_lt o.next_lt zl apart)

      not_round : next_entry capacity next ≢ hole
      not_round =
          let (z, zl, n, le) = o.free in
          round_lt capacity hole next z o.hole_lt o.next_lt zl (beyond z zl n le)

      further : far capacity hole (next_entry capacity next) ≡ far capacity hole next + 1
      further = far-next capacity hole next o.hole_lt o.next_lt not_round

      -- the entry stays
      pub stays-Open :
          far capacity (homes k) next ≤ far capacity (homes k) hole
          → Open es hole (next_entry capacity next)
      stays-Open le = record {
        width = o.width;
        hole_lt = o.hole_lt;
        next_lt = next_entry-lt capacity next o.next_lt;
        filled = o.filled;
        inside = o.inside;
        unique = o.unique;
        way = o.way;
        gap = λ j c d e lt.
            (let g = o.gap j c d e lt in
              let apart : next ≢ j = λ f.
                (let s : some k ≡ some c = sym here ∙ (ap (key_at es) f ∙ e) in
                  let s' : k ≡ c = cc in
                  omega (
                    arith,
                    lt,
                    le,
                    ap (λ x. far capacity (homes x) hole) s',
                    ap (λ x. far capacity (homes x) next) s',
                    ap (far capacity (homes c)) f,
                  )) in
              let u =
                strict (far capacity hole next) (far capacity hole j) g
                  (far_inj capacity hole next j o.hole_lt o.next_lt (o.inside j c e) apart) in
              omega (arith, u, further));
        ahead = omega (arith, further);
        free =
            (let (z, zl, n, le') = o.free in
              let u = beyond z zl n le' in (z, zl, n, omega (arith, u, further)));
      }

      -- the entry moves into the hole
      abbrev pub moved : List Entry
      moved = set es hole (entry_at es next)

      pub hole_ne : hole ≢ next
      hole_ne s = let a = o.ahead in far_self capacity hole next s a

      moved_key :
          (j c : ℕ)
          → key_at moved j ≡ some c
          → (j ≡ hole) × (c ≡ k) ⊎ (j ≢ hole) × (key_at es j ≡ some c)
      moved_key j c e = elim (Bool-cases (j == hole)) [
        | inl s ↦
            let s' : j ≡ hole = ground arith in
            let f : some k ≡ some c = sym here ∙ (sym (at_hole (entry_at es next) j s') ∙ e) in
            inl (s', cc)
        | inr d ↦
            let d' : j ≢ hole = ground arith in
            inr (d', sym (elsewhere (entry_at es next) j d') ∙ e)
      ]

      still_filled : (m : ℕ) → key_at es m ≢ none → key_at moved m ≢ none
      still_filled m f e = elim (Bool-cases (m == hole)) [
        | inl s ↦
            let s' : m ≡ hole = ground arith in
            let g : some k ≡ none = sym here ∙ (sym (at_hole (entry_at es next) m s') ∙ e) in cc
        | inr d ↦
            let d' : m ≢ hole = ground arith in f (sym (elsewhere (entry_at es next) m d') ∙ e)
      ]

      pub next_filled : key_at es next ≢ none
      next_filled e = let g : some k ≡ none = sym here ∙ e in cc

      pub moved-Open :
          far capacity (homes k) hole < far capacity (homes k) next
          → Open moved next (next_entry capacity next)
      moved-Open lt = record {
        width = length-set es hole (entry_at es next) ∙ o.width;
        hole_lt = o.next_lt;
        next_lt = next_entry-lt capacity next o.next_lt;
        filled = still_filled next next_filled;
        inside = λ j c e. elim (moved_key j c e) [
          | inl x ↦ (let l = o.hole_lt in omega (arith, l, x.0))
          | inr x ↦ o.inside j c x.1
        ];
        unique = λ i j c d d' e f. once i j c d d' (moved_key i c e) (moved_key j c f);
        way = λ j c m d e ml l. still_filled m (clear j c m d (moved_key j c e) ml l);
        gap = λ j c d e l.
            (let far1 = far_one capacity next o.next_lt big in
              let p =
                far_ne capacity next j o.next_lt (inside_moved j c (moved_key j c e))
                  (λ f. d (sym f)) in
              omega (arith, far1, p));
        ahead = (let far1 = far_one capacity next o.next_lt big in omega (arith, far1));
        free =
            (let (z, zl, n, le) = o.free in
              let far1 = far_one capacity next o.next_lt big in
              let apart : next ≢ z =
                λ f. (let g : some k ≡ none = sym here ∙ (ap (key_at es) f ∙ n) in cc) in
              let p = far_ne capacity next z o.next_lt zl apart in
              (
                z,
                zl,
                elsewhere (entry_at es next) z (λ f. o.filled (ap (key_at es) (sym f) ∙ n)) ∙ n,
                omega (arith, far1, p),
              ));
      }
        where
          big : 1 < capacity
          big = let a = o.hole_lt in let b = o.next_lt in omega (arith, a, b, hole_ne)

          inside_moved :
              (j c : ℕ) → (j ≡ hole) × (c ≡ k) ⊎ (j ≢ hole) × (key_at es j ≡ some c) → j < capacity
          inside_moved j c (inl x) = let l = o.hole_lt in omega (arith, l, x.0)
          inside_moved j c (inr x) = o.inside j c x.1

          once :
              (i j c : ℕ)
              → i ≢ next
              → j ≢ next
              → (i ≡ hole) × (c ≡ k) ⊎ (i ≢ hole) × (key_at es i ≡ some c)
              → (j ≡ hole) × (c ≡ k) ⊎ (j ≢ hole) × (key_at es j ≡ some c)
              → i ≡ j
          once i j c d d' (inl x) (inl y) = x.0 ∙ sym y.0
          once i j c d d' (inl x) (inr y) =
              absurd
                (d' (o.unique j next c y.0 (λ f. hole_ne (sym f)) y.1 (here ∙ ap some (sym x.1))))
          once i j c d d' (inr x) (inl y) =
              absurd
                (d (o.unique i next c x.0 (λ f. hole_ne (sym f)) x.1 (here ∙ ap some (sym y.1))))
          once i j c d d' (inr x) (inr y) = o.unique i j c x.0 y.0 x.1 y.1

          clear :
              (j c m : ℕ)
              → j ≢ next
              → (j ≡ hole) × (c ≡ k) ⊎ (j ≢ hole) × (key_at es j ≡ some c)
              → m < capacity
              → far capacity (homes c) m < far capacity (homes c) j
              → key_at es m ≢ none
          clear j c m d (inl (s, t)) ml l =
              o.way next k m (λ f. hole_ne (sym f)) here ml
                (omega (
                  arith,
                  l,
                  lt,
                  ap (λ x. far capacity (homes x) m) t,
                  ap (λ x. far capacity (homes x) j) t,
                  ap (far capacity (homes k)) s,
                ))
          clear j c m d (inr x) ml l = o.way j c m x.0 x.1 ml l
