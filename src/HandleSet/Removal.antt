-- ===== src/HandleSet/Removal.antt =====
-- `handleSetRemove` of elox/lib/handleSet.c.
use mathlib.Core.List.{Memᴰ}
use mathlib.Core.List.Memᴰ
use slox.HandleSet.Ring.{
  IsRing, Way, Way-end, Way-join, Way-next, Way-prev, Way-same, Way-split, put_ne, put_self,
}
use slox.HandleSet.{Links, put, handle_set_remove}
use slox.Prelude.{
  Distinct, Distinct-left, Distinct-right, Distinct-apart, Distinct-without, ℕ, List, [], ◌∷◌, ◌++◌,
  some, ◌≡◌, ◌≢◌, refl, sym, ap, ◌∙◌, subst, ◌⊎◌, inl, inr,
}

module _ (s : Links) (head handle : ℕ) (before after : List ℕ)
    (r : IsRing s head (before ++ handle ∷ after)) where
  parts : Way s.next s.prev head before handle × Way s.next s.prev handle after head
  parts = Way-split s.next s.prev head before handle after head r.way

  next' : ℕ → ℕ
  next' = (handle_set_remove (some handle) s).next

  prev' : ℕ → ℕ
  prev' = (handle_set_remove (some handle) s).prev

  apart : (x : ℕ) → Memᴰ x (head ∷ before) → ¬ Memᴰ x (handle ∷ after)
  apart x m = Distinct-apart (head ∷ before) (handle ∷ after) x r.distinct m

  rest-Distinct : Distinct (handle ∷ after)
  rest-Distinct = Distinct-right (head ∷ before) (handle ∷ after) r.distinct

  not_first : (x : ℕ) → Memᴰ x before → x ≢ s.next handle
  not_first x m e =
      elim (Memᴰ.append_cases after (Way-next s.next s.prev handle after head parts.1)) [
        | inl n ↦ apart x (Memᴰ.tail m) (Memᴰ.tail (subst (λ y. Memᴰ y after) (sym e) n))
        | inr n ↦ elim (Memᴰ.cases_cons n) [
          | inl h ↦
              r.distinct.0
                (Memᴰ.append_left (handle ∷ after) (subst (λ y. Memᴰ y before) (e ∙ h) m))
          | inr o ↦ Memᴰ.not-nil o
        ]
      ]

  own_next : handle ≢ s.next handle
  own_next e = elim (Memᴰ.append_cases after (Way-next s.next s.prev handle after head parts.1)) [
    | inl n ↦ rest-Distinct.0 (subst (λ y. Memᴰ y after) (sym e) n)
    | inr n ↦ elim (Memᴰ.cases_cons n) [
      | inl h ↦ apart head (Memᴰ.head refl) (Memᴰ.head (sym (e ∙ h)))
      | inr o ↦ Memᴰ.not-nil o
    ]
  ]

  own_prev : put s.prev (s.next handle) (s.prev handle) handle ≡ s.prev handle
  own_prev = put_ne s.prev (s.next handle) (s.prev handle) handle own_next

  next_at : next' (s.prev handle) ≡ s.next handle
  unfolding handle_set_remove next'
  next_at =
      ap (λ i. put s.next i (s.next handle) (s.prev handle)) own_prev
      ∙ put_self s.next (s.prev handle) (s.next handle)

  next_else : (x : ℕ) → x ≢ s.prev handle → next' x ≡ s.next x
  unfolding handle_set_remove next'
  next_else x d =
      ap (λ i. put s.next i (s.next handle) x) own_prev
      ∙ put_ne s.next (s.prev handle) (s.next handle) x d

  prev_at : prev' (s.next handle) ≡ s.prev handle
  unfolding handle_set_remove prev'
  prev_at = put_self s.prev (s.next handle) (s.prev handle)

  prev_else : (x : ℕ) → x ≢ s.next handle → prev' x ≡ s.prev x
  unfolding handle_set_remove prev'
  prev_else x d = put_ne s.prev (s.next handle) (s.prev handle) x d

  -- the stretch before the handle now ends at what comes after it
  first_part : Way next' prev' head before (s.next handle)
  first_part =
      Way-end s.next s.prev next' prev' head before handle (s.next handle)
        (Distinct-left (head ∷ before) (handle ∷ after) r.distinct) parts.0 next_at prev_at
        next_else (λ x m. prev_else x (not_first x m))

  joined :
      (l : List ℕ)
      → Way s.next s.prev handle l head
      → Distinct l
      → ¬ Memᴰ head l
      → ((x : ℕ) → Memᴰ x (head ∷ before) → ¬ Memᴰ x l)
      → Way next' prev' head (before ++ l) head
  joined [] (e, f) d o a =
      subst (λ l. Way next' prev' head l head) (append_nil before)
        (subst (λ y. Way next' prev' head before y) e first_part)
    where
      append_nil : (l : List ℕ) → l ≡ l ++ []
      append_nil [] = refl
      append_nil (x ∷ xs) = ap (λ l. x ∷ l) (append_nil xs)
  joined (y ∷ ys) ((e, f), w) (n, d) o a =
      Way-join next' prev' head before y ys head
        (subst (λ z. Way next' prev' head before z) e first_part)
        (Way-same s.next s.prev next' prev' y ys head
          (λ x m. next_else x (λ t.
            a (s.prev handle) (Way-prev s.next s.prev head before handle parts.0)
              (subst (λ z. Memᴰ z (y ∷ ys)) t m)))
          (λ x m.
            prev_else x
              (λ t. later (Memᴰ.append_cases ys (subst (λ z. Memᴰ z (ys ++ head ∷ [])) (t ∙ e) m))))
          w)
    where
      later : Memᴰ y ys ⊎ Memᴰ y (head ∷ []) → ⊥
      later (inl m) = n m
      later (inr (Memᴰ.head t)) = o (Memᴰ.head (sym t))
      later (inr (Memᴰ.tail m)) = Memᴰ.not-nil m

  -- From a ring of different handles, `handleSetRemove` takes the given one: the others are a ring in
  -- their order, and the handle is freed.
  pub handle_set_remove-IsRing :
      IsRing (handle_set_remove (some handle) s) head (before ++ after)
      × ((handle_set_remove (some handle) s).freed ≡ handle ∷ s.freed)
  unfolding handle_set_remove next' prev'
  handle_set_remove-IsRing = (
    record {
      distinct = Distinct-without (head ∷ before) after handle r.distinct;
      way =
          joined after parts.1 rest-Distinct.1 (λ m. apart head (Memᴰ.head refl) (Memᴰ.tail m))
            (λ x m n. apart x m (Memᴰ.tail n));
    },
    refl,
  )
