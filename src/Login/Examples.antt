-- ===== src/Login/Examples.antt =====
-- Two failures with a limit of two.
use brisk.Prelude.{codes, ◌≡◌, refl, false, [], ◌∷◌, lookup, arith}
use brisk.Login.{LoginLimiter, allowed}
use brisk.Login.Lockout.{allowed-fail_all, fail_all}

abbrev limiter : LoginLimiter
limiter = record { fails = []; max = 2; window = 60; lockout = 300 }

-- the second failure is at 40; at 339 the key is still locked
allowed-fail_all_example :
    allowed (fail_all limiter (codes "ip") (10 ∷ 40 ∷ [])) (codes "ip") 339 ≡ false
unfolding lookup
allowed-fail_all_example =
    allowed-fail_all limiter (codes "ip") 10 (40 ∷ []) 339 refl (omega arith, tt)
