-- ===== src/HandleSet/Ring.antt =====
-- `handleSetAdd` and `handleSetRemove` of elox/lib/handleSet.c keep the ring.
use mathlib.Core.List.{Memᴰ}
use mathlib.Core.List.Memᴰ
use slox.HandleSet.{Links, put, handle_set_add, init_handle_set}
use slox.Prelude.{
  Distinct, ℕ, List, [], ◌∷◌, ◌++◌, some, ◌≡◌, ◌≢◌, refl, sym, ap, ◌∙◌, subst, ◌⊎◌, inl, inr, ◌==◌,
  ==_iff, Bool-cases,
}

-- the links lead from `a` through the list to `h`, and back
abbrev pub Way : (ℕ → ℕ) → (ℕ → ℕ) → ℕ → List ℕ → ℕ → Type 0
Way next prev a [] h = (next a ≡ h) × (prev h ≡ a)
Way next prev a (x ∷ xs) h = ((next a ≡ x) × (prev x ≡ a)) × Way next prev x xs h

-- a ring of different handles, from the head on
pub record IsRing (s : Links) (head : ℕ) (l : List ℕ) : Type 0 where
  pub distinct : Distinct (head ∷ l)
  pub way : Way s.next s.prev head l head

pub put_self : (f : ℕ → ℕ) (a v : ℕ) → put f a v a ≡ v
put_self f a v = rw ((==_iff a a).1 refl) refl

pub put_ne : (f : ℕ → ℕ) (a v x : ℕ) → x ≢ a → put f a v x ≡ f x
put_ne f a v x d = elim (Bool-cases (x == a)) [
  | inl e ↦ absurd (d ((==_iff x a).0 e))
  | inr e ↦ rw e refl
]

module _ (next prev next' prev' : ℕ → ℕ) where
  -- links that are the same on a stretch
  pub Way-same :
      (a : ℕ) (l : List ℕ) (h : ℕ)
      → ((x : ℕ) → Memᴰ x (a ∷ l) → next' x ≡ next x)
      → ((x : ℕ) → Memᴰ x (l ++ h ∷ []) → prev' x ≡ prev x)
      → Way next prev a l h
      → Way next' prev' a l h
  Way-same a [] h n p (e, f) = (n a (Memᴰ.head refl) ∙ e, p h (Memᴰ.head refl) ∙ f)
  Way-same a (x ∷ xs) h n p ((e, f), w) = (
    (n a (Memᴰ.head refl) ∙ e, p x (Memᴰ.head refl) ∙ f),
    Way-same x xs h (λ y m. n y (Memᴰ.tail m)) (λ y m. p y (Memᴰ.tail m)) w,
  )

pub Way-join :
    (next prev : ℕ → ℕ) (a : ℕ) (l : List ℕ) (x : ℕ) (r : List ℕ) (h : ℕ)
    → Way next prev a l x
    → Way next prev x r h
    → Way next prev a (l ++ x ∷ r) h
Way-join next prev a [] x r h v w = (v, w)
Way-join next prev a (y ∷ l) x r h (e, v) w = (e, Way-join next prev y l x r h v w)

pub Way-split :
    (next prev : ℕ → ℕ) (a : ℕ) (l : List ℕ) (x : ℕ) (r : List ℕ) (h : ℕ)
    → Way next prev a (l ++ x ∷ r) h
    → Way next prev a l x × Way next prev x r h
Way-split next prev a [] x r h w = w
Way-split next prev a (y ∷ l) x r h (e, w) =
    let (v, w') = Way-split next prev y l x r h w in ((e, v), w')

-- the last of a stretch
pub Way-prev :
    (next prev : ℕ → ℕ) (a : ℕ) (l : List ℕ) (h : ℕ) → Way next prev a l h → Memᴰ (prev h) (a ∷ l)
Way-prev next prev a [] h (e, f) = Memᴰ.head f
Way-prev next prev a (x ∷ xs) h (e, w) = Memᴰ.tail (Way-prev next prev x xs h w)

-- the first of a stretch, or its end
pub Way-next :
    (next prev : ℕ → ℕ) (a : ℕ) (l : List ℕ) (h : ℕ)
    → Way next prev a l h
    → Memᴰ (next a) (l ++ h ∷ [])
Way-next next prev a [] h (e, f) = Memᴰ.head e
Way-next next prev a (x ∷ xs) h (e, w) = Memᴰ.head e.0

module _ (next prev next' prev' : ℕ → ℕ) where
  -- a stretch that ends at `n` instead of `h`
  pub Way-end :
      (a : ℕ) (l : List ℕ) (h n : ℕ)
      → Distinct (a ∷ l)
      → Way next prev a l h
      → next' (prev h) ≡ n
      → prev' n ≡ prev h
      → ((x : ℕ) → x ≢ prev h → next' x ≡ next x)
      → ((x : ℕ) → Memᴰ x l → prev' x ≡ prev x)
      → Way next' prev' a l n
  Way-end a [] h n d (e, f) there back nx px = (ap next' (sym f) ∙ there, back ∙ f)
  Way-end a (x ∷ xs) h n (o, d) ((e, f), w) there back nx px =
      let other : a ≢ prev h =
        λ s. o (subst (λ y. Memᴰ y (x ∷ xs)) (sym s) (Way-prev next prev x xs h w)) in
      (
        (nx a other ∙ e, px x (Memᴰ.head refl) ∙ f),
        Way-end x xs h n d w there back nx (λ y m. px y (Memᴰ.tail m)),
      )

  -- a stretch that starts at `b` instead of `a`
  Way-start :
      (a b : ℕ) (l : List ℕ) (h : ℕ)
      → Way next prev a l h
      → next' b ≡ next a
      → prev' (next a) ≡ b
      → ((x : ℕ) → Memᴰ x l → next' x ≡ next x)
      → ((x : ℕ) → Memᴰ x (l ++ h ∷ []) → x ≢ next a → prev' x ≡ prev x)
      → Distinct (l ++ h ∷ [])
      → Way next' prev' b l h
  Way-start a b [] h (e, f) there back nx px d = (there ∙ e, ap prev' (sym e) ∙ back)
  Way-start a b (x ∷ xs) h ((e, f), w) there back nx px (o, d) = (
    (there ∙ e, ap prev' (sym e) ∙ back),
    Way-same next prev next' prev' x xs h nx
        (λ y m. px y (Memᴰ.tail m) (λ s. o (subst (λ z. Memᴰ z (xs ++ h ∷ [])) (s ∙ e) m))) w,
  )

-- the head at the other end
Distinct-turn : (h : ℕ) (l : List ℕ) → ¬ Memᴰ h l → Distinct l → Distinct (l ++ h ∷ [])
Distinct-turn h [] n d = (λ m. Memᴰ.not-nil m, tt)
Distinct-turn h (x ∷ xs) n (o, d) =
    (λ m. within (Memᴰ.append_cases xs m), Distinct-turn h xs (λ m. n (Memᴰ.tail m)) d)
  where
    within : Memᴰ x xs ⊎ Memᴰ x (h ∷ []) → ⊥
    within (inl m) = o m
    within (inr (Memᴰ.head e)) = n (Memᴰ.head (sym e))
    within (inr (Memᴰ.tail m)) = Memᴰ.not-nil m

pub init_handle_set-IsRing : (h : ℕ) (s : Links) → IsRing (init_handle_set (some h) s).2 h []
unfolding init_handle_set
init_handle_set-IsRing h s = record {
  distinct = (λ m. Memᴰ.not-nil m, tt);
  way = (put_self s.next h h, put_self s.prev h h);
}

-- To a ring of different handles, `handleSetAdd` adds a handle that is not in it and is not the head:
-- it comes first in the new ring, and the others stay in their order.
pub handle_set_add-IsRing :
    (s : Links) (head handle : ℕ) (l : List ℕ)
    → IsRing s head l
    → ¬ Memᴰ handle (head ∷ l)
    → IsRing (handle_set_add head handle s) head (handle ∷ l)
unfolding handle_set_add
handle_set_add-IsRing s head handle l r out = record {
  distinct = (λ m. new_head (Memᴰ.cases_cons m), (λ m. out (Memᴰ.tail m), r.distinct.1));
  way = (
    (
      put_self next1 head handle,
      put_ne prev1 (next1 head) handle handle other_first ∙ put_self s.prev handle head,
    ),
    Way-start s.next s.prev next' prev' head handle l head r.way
        (put_ne next1 head handle handle other ∙ put_self s.next handle (s.next head))
        (ap (λ i. put prev1 (next1 head) handle i) (sym first) ∙ put_self prev1 (next1 head) handle)
        (λ x m.
          put_ne next1 head handle x (λ e. r.distinct.0 (subst (λ y. Memᴰ y l) e m))
          ∙ put_ne s.next handle (s.next head) x (λ e. out (Memᴰ.tail (subst (λ y. Memᴰ y l) e m))))
        (λ x m d.
          put_ne prev1 (next1 head) handle x (λ e. d (e ∙ first))
          ∙ put_ne s.prev handle head x (λ e. outside (subst (λ y. Memᴰ y (l ++ head ∷ [])) e m)))
        (Distinct-turn head l r.distinct.0 r.distinct.1),
  );
}
  where
    next1 : ℕ → ℕ
    next1 = put s.next handle (s.next head)

    prev1 : ℕ → ℕ
    prev1 = put s.prev handle head

    next' : ℕ → ℕ
    next' = put next1 head handle

    prev' : ℕ → ℕ
    prev' = put prev1 (next1 head) handle

    other : handle ≢ head
    other e = out (Memᴰ.head e)

    first : next1 head ≡ s.next head
    first = put_ne s.next handle (s.next head) head (λ e. other (sym e))

    outside : ¬ Memᴰ handle (l ++ head ∷ [])
    outside m = elim (Memᴰ.append_cases l m) [
      | inl n ↦ out (Memᴰ.tail n)
      | inr n ↦ elim (Memᴰ.cases_cons n) [ inl e ↦ other e | inr o ↦ Memᴰ.not-nil o ]
    ]

    other_first : handle ≢ next1 head
    other_first e = outside (
        subst (λ y. Memᴰ y (l ++ head ∷ [])) (sym (e ∙ first))
          (Way-next s.next s.prev head l head r.way))

    new_head : (head ≡ handle) ⊎ Memᴰ head l → ⊥
    new_head (inl e) = other (sym e)
    new_head (inr m) = r.distinct.0 m
