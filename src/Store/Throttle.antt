-- ===== src/Store/Throttle.antt =====
-- internal/store/throttle.go. The channel `sem` is its capacity and the tokens in it.
use dbstore.Common.{
  ℕ, zero, suc, ◌+◌, ℤ, pos, negsuc, ◌≡◌, Option, none, some, Bool, true, false, ltb, if◌then◌else◌,
  arith,
}
use dbstore.Store.Errors.{Error, Result, ok, err}

pub data Throttle : Type 0 where
  unlimited : Throttle
  sem : (cap len : ℕ) → Throttle

-- The loop that fills the channel: `rounds` sends into a buffer of `cap` places.
fill : ℕ → ℕ → ℕ → Throttle
fill cap zero len = sem cap len
fill cap (suc rounds) len = fill cap rounds (suc len)

unfoldable pub new_throttle : ℤ → Throttle
unfolding fill
new_throttle (pos zero) = unlimited
new_throttle (pos (suc n)) = fill (suc n) (suc n) 0
new_throttle (negsuc n) = unlimited

-- The check of the context before the fast path and the select.
unfoldable pub acquire_check : Option Error → Throttle → Result Bool
acquire_check (some e) t = err e
acquire_check none unlimited = ok true
acquire_check none (sem cap len) = ok false

-- A receive from `sem`; `none` blocks.
unfoldable pub receive : Throttle → Option Throttle
receive unlimited = none
receive (sem cap zero) = none
receive (sem cap (suc len)) = some (sem cap len)

-- `Release`: a send to `sem`; `none` blocks, on a full buffer.
unfoldable pub release : Throttle → Option Throttle
release unlimited = some unlimited
release (sem cap len) = if ltb len cap then some (sem cap (suc len)) else none

-- The tokens in the channel, and its capacity.
abbrev pub tokens : Throttle → ℕ
tokens unlimited = 0
tokens (sem cap len) = len

abbrev pub capacity : Throttle → ℕ
capacity unlimited = 0
capacity (sem cap len) = cap

fill_lem : (cap rounds len : ℕ) → fill cap rounds len ≡ sem cap (rounds + len)
unfolding fill
fill_lem cap zero len = ground arith
fill_lem cap (suc rounds) len = ground (arith, fill_lem cap rounds (suc len))

-- A limit that is not positive means no throttle; any other starts with all its tokens.
pub new_throttle_lem : (n : ℕ) → new_throttle (pos (suc n)) ≡ sem (suc n) (suc n)
unfolding new_throttle
new_throttle_lem n = ground (arith, fill_lem (suc n) (suc n) 0)
