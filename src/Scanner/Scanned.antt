-- ===== src/Scanner/Scanned.antt =====
-- What holds of every token: where the scanner stands after it, and which bytes are its text.
use slox.Prelude.{ℕ, ◌+◌, ◌≤◌, Option, some, ◌≡◌, refl, ◌⊎◌, inl, arith}
use slox.Scanner.Moves.{Moves, Moves-trans}
use slox.Scanner.State.{Scanner, make_token, make_error_token}
use slox.Scanner.Token.{Token, TokenType, TokenText, slice, message, token_error}
use Prim.Native.String.{String}

-- the text ends at or before `c`
abbrev pub EndsBy : TokenText → ℕ → Type 0
EndsBy (slice offset len) c = offset + len ≤ c
EndsBy (message text) c = Unit

-- From `s` the scanner made the token `t` and went to `s'`, in a buffer with its terminator at `n`.
pub record Scanned (n : ℕ) (s : Scanner) (t : Token) (s' : Scanner) : Type 0 where
  pub moves : Moves s s'
  pub bound : (s'.current ≤ n) ⊎ (s'.current ≤ n + 1) × (t.type ≡ token_error)
  pub text : EndsBy t.text s'.current

abbrev pub Scans : ℕ → Scanner → Option (Token × Scanner) → Type 0
Scans n s r = (t : Token) × (s' : Scanner) × (r ≡ some (t, s')) × Scanned n s t s'

pub Scans-after :
    {n : ℕ} {s u : Scanner} (r : Option (Token × Scanner)) → Moves s u → Scans n u r → Scans n s r
Scans-after r m (t, s', e, h) =
    (t, s', e, record { moves = Moves-trans m h.moves; bound = h.bound; text = h.text })

pub make_token-Scans :
    {n : ℕ} {s : Scanner} (s' : Scanner) (type : TokenType)
    → Moves s s'
    → s'.current ≤ n
    → s'.start ≤ s'.current
    → Scans n s (some (make_token s' type, s'))
unfolding make_token
make_token-Scans s' type m h le =
    (_, s', refl, record { moves = m; bound = inl h; text = omega arith })

pub make_error_token-Scans :
    {n : ℕ} {s : Scanner} (s' : Scanner) (text : String)
    → Moves s s'
    → s'.current ≤ n
    → Scans n s (some (make_error_token s' text, s'))
unfolding make_error_token
make_error_token-Scans s' text m h = (_, s', refl, record { moves = m; bound = inl h; text = tt })
