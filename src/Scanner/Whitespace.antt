-- ===== src/Scanner/Whitespace.antt =====
-- `skipWhitespace` of elox/lib/scanner.c. `none` means that the fuel ran out.
pub mod Progress
use slox.Prelude.{
  ℕ, zero, suc, ◌+◌, Bool, true, false, not, ◌&&◌, ◌||◌, Option, none, some, length, while, ◌==◌,
  if◌then◌else◌,
}
use slox.Scanner.State.{Scanner, scan_peek, scan_peek_next, is_at_end, advance}

pub data WssState : Type 0 where
  wss_scan wss_star wss_done : WssState

abbrev pub next_line : Scanner → Scanner
next_line s = record s { line = s.line + 1 }

-- one round of the loop over a multi-line comment, on the byte that was read
unfoldable pub comment_step : WssState → ℕ → WssState
comment_step WssState.wss_scan ch = if ch == b'*' then WssState.wss_star else WssState.wss_scan
comment_step WssState.wss_star ch = if ch == b'#' then WssState.wss_done else WssState.wss_scan
comment_step WssState.wss_done ch = WssState.wss_done

-- `if (state == WSS_DONE) break`, or the next round `k`
pub comment_after :
    (WssState → Scanner → Option (Bool × Scanner)) → WssState → Scanner → Option (Bool × Scanner)
comment_after k WssState.wss_done s = some (true, s)
comment_after k WssState.wss_scan s = k WssState.wss_scan s
comment_after k WssState.wss_star s = k WssState.wss_star s

-- The scanner after a byte of a comment.
abbrev pub comment_advance : Scanner → Scanner
comment_advance s = advance (if scan_peek s == b'\n' then next_line s else s)

-- The inner `while`; the result says whether the comment was closed.
unfoldable pub skip_comment : ℕ → WssState → Scanner → Option (Bool × Scanner)
unfolding comment_after
skip_comment zero state s = none
skip_comment (suc fuel) state s =
    if is_at_end s
    then some (false, s)
    else comment_after (skip_comment fuel) (comment_step state (scan_peek s)) (comment_advance s)

unfoldable pub in_line_comment : Scanner → Bool
in_line_comment s = not (scan_peek s == b'\n') && not (is_at_end s)

unfoldable pub skip_line_comment : Scanner → Scanner
skip_line_comment s = while (suc (length s.source)) in_line_comment advance s

-- What one round of the outer loop does at the byte `c`.
pub data Skipped : Type 0 where
  again : Scanner → Skipped
  stop : Bool → Scanner → Skipped
  out_of_fuel : Skipped

pub after_comment : Option (Bool × Scanner) → Skipped
after_comment none = out_of_fuel
after_comment (some (true, s)) = again s
after_comment (some (false, s)) = stop false s

unfoldable pub skip_one : Scanner → Skipped
unfolding after_comment
skip_one s =
    let c = scan_peek s in
    if c == b' ' || c == b'\r' || c == b'\t'
    then again (advance s)
    else if c == b'\n'
    then again (advance (next_line s))
    else if c == b'#'
    then if scan_peek_next s == b'*'
      then after_comment (skip_comment (suc (length s.source)) WssState.wss_scan (advance s))
      else again (skip_line_comment s)
    else stop true s

pub after_one : (Scanner → Option (Bool × Scanner)) → Skipped → Option (Bool × Scanner)
after_one k (again s) = k s
after_one k (stop b s) = some (b, s)
after_one k out_of_fuel = none

unfoldable pub skip_loop : ℕ → Scanner → Option (Bool × Scanner)
unfolding after_one
skip_loop zero s = none
skip_loop (suc fuel) s = after_one (skip_loop fuel) (skip_one s)

-- true: at a byte that starts a token; false: in an unterminated comment
unfoldable pub skip_whitespace : Scanner → Option (Bool × Scanner)
unfolding skip_loop
skip_whitespace s = skip_loop (suc (length s.source)) s
