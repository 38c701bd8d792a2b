-- ===== src/Value.antt =====
-- Values, elox/include/elox/value.h, in the layout without NaN boxing.
use slox.Prelude.{ℕ, Bool, true, false}

-- A number is the bit pattern of its double, an object its address.
pub data Value : Type 0 where
  number : ℕ → Value
  nil : Value
  bool : Bool → Value
  exception : Value
  undefined : Value
  obj : ℕ → Value

unfoldable pub is_nil : Value → Bool
is_nil nil = true
is_nil _ = false

unfoldable pub is_undefined : Value → Bool
is_undefined undefined = true
is_undefined _ = false
