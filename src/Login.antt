-- ===== src/Login.antt =====
-- The login rate limiter of brisk-control/internal/adminauth/ratelimit.go. Every method holds the
-- mutex from start to end, so it is one function on the map. The zero time.Time is 0, which is
-- before every time of use.
pub mod Lockout
mod Examples
use brisk.Prelude.{
  ℕ, suc, ◌+◌, ◌-◌, Bytes, Option, none, some, Bool, true, false, List, [], ◌∷◌, leb, ltb,
  if◌then◌else◌, Assoc, lookup, insert, erase,
}

pub record FailState : Type 0 where
  pub count : ℕ
  pub first : ℕ
  pub locked_until : ℕ

pub record LoginLimiter : Type 0 where
  pub fails : Assoc FailState
  pub max : ℕ
  pub window : ℕ
  pub lockout : ℕ

unfoldable pub new_login_limiter : ℕ → ℕ → ℕ → LoginLimiter
new_login_limiter max window lockout = record {
  fails = [];
  max = max;
  window = window;
  lockout = lockout;
}

abbrev pub unlocked_at : ℕ → Option FailState → Bool
unlocked_at now none = true
unlocked_at now (some s) = leb s.locked_until now

unfoldable pub allowed : LoginLimiter → Bytes → ℕ → Bool
allowed l key now = unlocked_at now (lookup key l.fails)

abbrev pub fresh : ℕ → FailState
fresh now = record { count = 0; first = now; locked_until = 0 }

-- `s == nil || now.Sub(s.first) > l.window` starts a new window
abbrev pub window_state : ℕ → ℕ → Option FailState → FailState
window_state window now none = fresh now
window_state window now (some s) = if ltb window (now - s.first) then fresh now else s

unfoldable pub record_failure : ℕ → ℕ → ℕ → FailState → FailState
record_failure max lockout now s =
    let counted = record s { count = suc s.count } in
    if leb max (suc s.count) then record counted { locked_until = now + lockout } else counted

-- the new limiter, and whether the key is locked now
unfoldable pub fail : LoginLimiter → Bytes → ℕ → LoginLimiter × Bool
unfolding record_failure
fail l key now =
    let s = record_failure l.max l.lockout now (window_state l.window now (lookup key l.fails)) in
    (record l { fails = insert key s l.fails }, ltb now s.locked_until)

unfoldable pub reset : LoginLimiter → Bytes → LoginLimiter
reset l key = record l { fails = erase key l.fails }
