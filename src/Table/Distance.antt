-- ===== src/Table/Distance.antt =====
-- The distances of elox/lib/table.c, `MODULO_DISTANCE`, round the circle of slots.
use native.Mathlib.Nat.{add-mod_right, mod-eq_of_lt}
use slox.Prelude.{
  ℕ, ◌+◌, ◌-◌, ◌%◌, ◌≤◌, ◌<◌, true, false, ◌≡◌, ◌≢◌, ap, ◌∙◌, inl, inr, arith, leb, Bool-cases,
}
use slox.Table.Probe.{slot}
use slox.Table.{modulo_distance, next_entry}

pub strict : (a b : ℕ) → a ≤ b → a ≢ b → a < b
strict a b le d = omega (arith, le, d)

module _ (capacity : ℕ) where
  abbrev pub far : ℕ → ℕ → ℕ
  far a b = modulo_distance capacity a b

  pub slot-far : (h m : ℕ) → h < capacity → m < capacity → slot capacity h (far h m) ≡ m
  unfolding modulo_distance
  slot-far h m hl ml = elim (Bool-cases (leb h m)) [
    | inl e ↦ let g : h + (m - h) ≡ m = ground arith in rw (e, g) (mod-eq_of_lt ml)
    | inr e ↦
        let g : h + (capacity + m - h) ≡ m + capacity = ground arith in
        rw (e, g, add-mod_right) (mod-eq_of_lt ml)
  ]

  pub far-slot : (h d : ℕ) → h < capacity → d < capacity → far h (slot capacity h d) ≡ d
  unfolding modulo_distance
  far-slot h d hl dl = elim (Bool-cases (leb capacity (h + d))) [
    | inr e ↦
        let l : h + d < capacity = ground arith in
        let s : (h + d) % capacity ≡ h + d = mod-eq_of_lt l in
        let f : leb h (h + d) ≡ true = ground arith in rw (s, f) (omega arith)
    | inl e ↦
        let g : h + d ≡ h + d - capacity + capacity = ground arith in
        let l : h + d - capacity < capacity = ground arith in
        let s : (h + d) % capacity ≡ h + d - capacity =
          ap (λ n. n % capacity) g ∙ (add-mod_right (h + d - capacity) capacity ∙ mod-eq_of_lt l) in
        let f : leb h (h + d - capacity) ≡ false = ground arith in rw (s, f) (ground arith)
  ]

  pub far-lt : (a b : ℕ) → a < capacity → b < capacity → far a b < capacity
  unfolding modulo_distance
  far-lt a b al bl = ground arith

  pub far-next :
      (a b : ℕ)
      → a < capacity
      → b < capacity
      → next_entry capacity b ≢ a
      → far a (next_entry capacity b) ≡ far a b + 1
  unfolding modulo_distance next_entry
  far-next a b al bl n = ground arith

  pub far_one : (b : ℕ) → b < capacity → 1 < capacity → far b (next_entry capacity b) ≡ 1
  unfolding modulo_distance next_entry
  far_one b bl big = ground arith

  pub far_ne : (a b : ℕ) → a < capacity → b < capacity → a ≢ b → 0 < far a b
  unfolding modulo_distance
  far_ne a b al bl d = ground arith

  pub far_inj : (a b c : ℕ) → a < capacity → b < capacity → c < capacity → b ≢ c → far a b ≢ far a c
  unfolding modulo_distance
  far_inj a b c al bl cl d e = ground arith

  pub far_self : (a b : ℕ) → a ≡ b → 0 < far a b → ⊥
  unfolding modulo_distance
  far_self a b s l = ground arith

  pub round_lt :
      (a b z : ℕ)
      → a < capacity
      → b < capacity
      → z < capacity
      → far a b < far a z
      → next_entry capacity b ≢ a
  unfolding modulo_distance next_entry
  round_lt a b z al bl zl lt e = ground arith

  -- around the circle
  pub far_through :
      (h a b c : ℕ)
      → h < capacity
      → a < capacity
      → b < capacity
      → c < capacity
      → far h a < far h c
      → far a b ≤ far a c
      → far h b ≤ far h c
  unfolding modulo_distance
  far_through h a b c hl al bl cl lt le = ground arith
