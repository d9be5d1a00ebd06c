-- ===== src/Store/Errors.antt =====
-- The errors that internal/store returns or passes on, and `errors.Is` over them.
use dbstore.Common.{ℕ, Bool, true, false, String}

pub data Error : Type 0 where
  name_required directory_closed : Error
  already_registered not_registered no_longer_registered unknown_driver : String → Error
  -- `fmt.Errorf("dbstore: open %q: %w", name, err)`
  opening : String → Error → Error
  configure_name_required : Error
  -- `fmt.Errorf("configure source %q: %w", name, err)`
  configuring : String → Error → Error
  -- `ErrNotFound`, `context.Canceled` and `context.DeadlineExceeded`
  not_found canceled deadline_exceeded : Error
  -- What a panic of `fn` is reported as.
  panicked : Error
  -- Any other error of a driver, a client or `fn`.
  external : ℕ → Error

pub data Result {ℓ} (A : Type ℓ) : Type ℓ where
  ok : A → Result A
  err : Error → Result A

-- `errors.Is(err, ErrNotFound)`: the chain of wrapped errors is searched.
unfoldable pub is_not_found : Error → Bool
is_not_found not_found = true
is_not_found (opening name e) = is_not_found e
is_not_found (configuring name e) = is_not_found e
is_not_found _ = false

-- `errors.Is(err, context.Canceled) || errors.Is(err, context.DeadlineExceeded)`
unfoldable pub is_canceled : Error → Bool
is_canceled canceled = true
is_canceled deadline_exceeded = true
is_canceled (opening name e) = is_canceled e
is_canceled (configuring name e) = is_canceled e
is_canceled _ = false
