-- ===== src/Memory/Slots.antt =====
-- The range of `indexFor` of elox/include/elox/table.h, and growth.

use slox.Memory.{ctz, grow_capacity, index_for}
use slox.Prelude.{
  ℕ, ◌-◌, ◌*◌, ◌/◌, ◌%◌, ◌^◌, ◌≤◌, ◌<◌, true, ◌≡◌, refl, arith, ◌==◌, all_below, all_below_sound,
}

split_word : all_below 33 (λ k. 2 ^ k * 2 ^ (32 - k) == 2 ^ 32) ≡ true
unfolding all_below
split_word = refl

trailing : all_below 32 (λ k. ctz 32 (2 ^ k) == k) ≡ true
unfolding all_below ctz
trailing = refl

pub ctz-pow : (k : ℕ) → k < 32 → ctz 32 (2 ^ k) ≡ k
ctz-pow k h = let e = all_below_sound 32 _ k trailing h in ground arith

div_lt : (x a b : ℕ) → x < a * b → x / b < a
div_lt x a b h = grind arith

pub index_for-lt : (h k : ℕ) → k ≤ 32 → index_for h (32 - k) < 2 ^ k
unfolding index_for
index_for-lt h k le =
    let e = all_below_sound 33 (λ k. 2 ^ k * 2 ^ (32 - k) == 2 ^ 32) k split_word (omega arith) in
    let f : 2 ^ k * 2 ^ (32 - k) ≡ 2 ^ 32 = ground arith in
    div_lt (h * 2654435769 % 2 ^ 32) (2 ^ k) (2 ^ (32 - k)) (omega arith)

pub grow_lt : (c : ℕ) → c < grow_capacity c
unfolding grow_capacity
grow_lt c = ground arith
