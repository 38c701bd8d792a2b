-- ===== src/HandleSet/Walks.antt =====
-- The loops of elox/lib/handleSet.c round the ring.
use mathlib.Core.List.{Memᴰ}
use slox.HandleSet.Ring.{IsRing, Way}
use slox.HandleSet.{
  Links, free_handle, free_handle_set, free_handles, mark_handle_set, walk_handles,
}
use slox.Prelude.{
  ℕ, zero, suc, ◌<◌, List, [], ◌∷◌, none, some, ◌≡◌, ◌≢◌, refl, sym, ap, ◌∙◌, subst, arith, ◌==◌,
  ==_iff, length, if◌then◌else◌, ◌>>=◌, Bool-cases, inl, inr, false,
}

differs : (a b : ℕ) → a ≢ b → (a == b) ≡ false
differs a b d = elim (Bool-cases (a == b)) [ inl e ↦ absurd (d ((==_iff a b).0 e)) | inr e ↦ e ]

-- the walk from one handle on
walk_handles-Way :
    (fuel : ℕ) (next prev : ℕ → ℕ) (head a : ℕ) (l : List ℕ)
    → Way next prev a l head
    → ¬ Memᴰ head l
    → length l < fuel
    → walk_handles fuel next head (next a) ≡ some l
unfolding walk_handles
walk_handles-Way zero next prev head a l w n lt = absurd (omega (arith, lt))
walk_handles-Way (suc fuel) next prev head a [] w n lt = rw ((==_iff (next a) head).1 w.0) refl
walk_handles-Way (suc fuel) next prev head a (x ∷ xs) ((e, f), w) n lt =
    let d : next a ≢ head = λ t. n (Memᴰ.head (sym t ∙ e)) in
    let rest =
      walk_handles-Way fuel next prev head x xs w (λ m. n (Memᴰ.tail m)) (omega (arith, lt)) in
    rw (differs (next a) head d, e, rest) refl

-- For a ring of different handles, and more rounds than it has handles, `markHandleSet` marks each of them once, in order.
pub mark_handle_set-IsRing :
    (fuel : ℕ) (s : Links) (head : ℕ) (l : List ℕ)
    → IsRing s head l
    → length l < fuel
    → mark_handle_set fuel (record { head = some head }) s ≡ some l
unfolding mark_handle_set
mark_handle_set-IsRing fuel s head l r lt =
    walk_handles-Way fuel s.next s.prev head head l r.way r.distinct.0 lt

unfoldable pub reversed_onto : List ℕ → List ℕ → List ℕ
reversed_onto [] done = done
reversed_onto (x ∷ xs) done = reversed_onto xs (x ∷ done)

free_handles-Way :
    (fuel : ℕ) (prev : ℕ → ℕ) (head a : ℕ) (l : List ℕ) (s : Links)
    → Way s.next prev a l head
    → ¬ Memᴰ head l
    → length l < fuel
    → free_handles fuel head (s.next a) s ≡ some (record s { freed = reversed_onto l s.freed })
unfolding free_handles reversed_onto
free_handles-Way zero prev head a l s w n lt = absurd (omega (arith, lt))
free_handles-Way (suc fuel) prev head a [] s w n lt = rw ((==_iff (s.next a) head).1 w.0) refl
free_handles-Way (suc fuel) prev head a (x ∷ xs) s ((e, f), w) n lt =
    let d : s.next a ≢ head = λ t. n (Memᴰ.head (sym t ∙ e)) in
    let rest =
      free_handles-Way fuel prev head x xs (free_handle x s) w (λ m. n (Memᴰ.tail m))
        (omega (arith, lt)) in
    subst
      (λ y.
        (if y == head then some s else free_handles fuel head (s.next y) (free_handle y s))
        ≡ some (record s { freed = reversed_onto xs (x ∷ s.freed) }))
      (sym e) (rw (differs x head (λ t. d (e ∙ t))) rest)

-- For a ring of different handles, and more rounds than it has handles, `freeHandleSet` frees each
-- handle once, in order, then the head, which is none of them, and leaves a set without one.
pub free_handle_set-IsRing :
    (fuel : ℕ) (s : Links) (head : ℕ) (l : List ℕ)
    → IsRing s head l
    → length l < fuel
    → free_handle_set fuel (record { head = some head }) s
      ≡ some (record { head = none }, record s { freed = head ∷ reversed_onto l s.freed })
unfolding free_handle_set
free_handle_set-IsRing fuel s head l r lt =
    ap (λ t. t >>= λ t. some (record { head = none }, free_handle head t))
      (free_handles-Way fuel s.prev head head l s r.way r.distinct.0 lt)
