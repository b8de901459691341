-- ===== src/Login/Lockout.antt =====
-- Proofs about the limiter of brisk-control/internal/adminauth/ratelimit.go.
use brisk.Prelude.{
  ℕ, suc, ◌+◌, ◌-◌, ◌≤◌, ◌≡◌, ◌≢◌, refl, subst, ◌∙◌, ap, Bytes, str_eq, str_eq_iff, str_eq_refl,
  All, length, none, some, true, List, [], ◌∷◌, leb, arith, if◌then◌else◌, lookup, lookup-insert,
  lookup-erase,
}
use brisk.Login.{
  FailState, LoginLimiter, unlocked_at, allowed, window_state, record_failure, fail, reset,
}

-- the state of a key after a failure at `now`
abbrev after : LoginLimiter → Bytes → ℕ → FailState
after l key now =
    record_failure l.max l.lockout now (window_state l.window now (lookup key l.fails))

lookup-fail :
    (l : LoginLimiter) (key j : Bytes) (now : ℕ)
    → lookup j (fail l key now).0.fails
      ≡ (if str_eq key j then some (after l key now) else lookup j l.fails)
unfolding fail
lookup-fail l key j now = lookup-insert key j _ l.fails

-- A failure, or a reset, of one key leaves every other key's verdict at any time as it was.
allowed-fail_ne :
    (l : LoginLimiter) (key j : Bytes) (now later : ℕ)
    → key ≢ j
    → (allowed (fail l key now).0 j later ≡ allowed l j later)
      × (allowed (reset l key) j later ≡ allowed l j later)
unfolding allowed reset
allowed-fail_ne l key j now later ne = (
  ap (unlocked_at later) (lookup-fail l key j now ∙ ground (arith, str_eq_iff key j, ne)),
  ap (unlocked_at later) (lookup-erase key j l.fails ∙ ground (arith, str_eq_iff key j, ne)),
)

-- After a reset the key may attempt a login.
pub allowed-reset :
    (l : LoginLimiter) (key : Bytes) (now : ℕ) → allowed (reset l key) key now ≡ true
unfolding allowed reset
allowed-reset l key now = rw (lookup-erase, str_eq_refl)

-- `n` failures of one key at the times of the list
unfoldable pub fail_all : LoginLimiter → Bytes → List ℕ → LoginLimiter
fail_all l key [] = l
fail_all l key (t ∷ ts) = fail_all (fail l key t).0 key ts

abbrev pub last_of : ℕ → List ℕ → ℕ
last_of t [] = t
last_of t (u ∷ us) = last_of u us

abbrev pub InWindow : LoginLimiter → ℕ → List ℕ → Type 0
InWindow l first = All (λ t. t - first ≤ l.window)

-- The state of a key after `n` failures in the window opened at `first`, the last at `last`.
record Burst (l : LoginLimiter) (key : Bytes) (first n last : ℕ) : Type 0 where
  state : FailState
  found : lookup key l.fails ≡ some state
  opened : state.first ≡ first
  counted : state.count ≡ n
  locked : state.locked_until ≡ (if leb l.max n then last + l.lockout else 0)

Burst-first :
    (l : LoginLimiter) (key : Bytes) (t : ℕ)
    → lookup key l.fails ≡ none
    → Burst (fail l key t).0 key t 1 t
unfolding fail
Burst-first l key t absent = record {
  state = after l key t;
  found = lookup-insert key key _ l.fails ∙ rw str_eq_refl;
  opened = unfold record_failure in rw absent (ground arith);
  counted = unfold record_failure in rw absent (ground arith);
  locked = unfold record_failure in rw absent (ground arith);
}

-- one more failure in the window
failure_opened :
    (max lockout window now : ℕ) (s : FailState)
    → now - s.first ≤ window
    → (record_failure max lockout now (window_state window now (some s))).first ≡ s.first
unfolding record_failure
failure_opened max lockout window now s h = ground arith

failure_counted :
    (max lockout window now : ℕ) (s : FailState)
    → now - s.first ≤ window
    → (record_failure max lockout now (window_state window now (some s))).count ≡ suc s.count
unfolding record_failure
failure_counted max lockout window now s h = ground arith

failure_locked :
    (max lockout window now last : ℕ) (s : FailState)
    → now - s.first ≤ window
    → s.locked_until ≡ (if leb max s.count then last + lockout else 0)
    → (record_failure max lockout now (window_state window now (some s))).locked_until
      ≡ (if leb max (suc s.count) then now + lockout else 0)
unfolding record_failure
failure_locked max lockout window now last s h e = ground arith

Burst-next :
    (l : LoginLimiter) (key : Bytes) (first n last now : ℕ)
    → Burst l key first n last
    → now - first ≤ l.window
    → Burst (fail l key now).0 key first (suc n) now
unfolding fail
Burst-next l key first n last now b h =
    let s = b.state in
    let near : now - s.first ≤ l.window = rw b.opened h in
    record {
      state = after l key now;
      found = lookup-insert key key _ l.fails ∙ rw str_eq_refl;
      opened = rw b.found (failure_opened l.max l.lockout l.window now s near ∙ b.opened);
      counted = rw b.found (failure_counted l.max l.lockout l.window now s near ∙ ap suc b.counted);
      locked =
          rw (b.found, ← b.counted)
            (failure_locked l.max l.lockout l.window now last s near (rw b.counted b.locked));
    }

Burst-fail_all :
    (l : LoginLimiter) (key : Bytes) (first n last : ℕ) (ts : List ℕ)
    → Burst l key first n last
    → InWindow l first ts
    → Burst (fail_all l key ts) key first (n + length ts) (last_of last ts)
unfolding fail_all fail
Burst-fail_all l key first n last [] b h = subst (λ k. Burst l key first k last) (omega arith) b
Burst-fail_all l key first n last (t ∷ ts) b h =
    subst (λ k. Burst (fail_all (fail l key t).0 key ts) key first k (last_of t ts)) (omega arith)
      (Burst-fail_all (fail l key t).0 key first (suc n) t ts
        (Burst-next l key first n last t b h.0) h.1)

fail_all-limits :
    (l : LoginLimiter) (key : Bytes) (ts : List ℕ)
    → ((fail_all l key ts).max ≡ l.max) × ((fail_all l key ts).lockout ≡ l.lockout)
unfolding fail_all fail
fail_all-limits l key [] = (refl, refl)
fail_all-limits l key (t ∷ ts) = fail_all-limits (fail l key t).0 key ts

locked_lem :
    (max lockout max' lockout' last n now locked : ℕ)
    → max' ≡ max
    → lockout' ≡ lockout
    → locked ≡ (if leb max' (1 + n) then last + lockout' else 0)
    → leb locked now ≡ (if leb max (suc n) then leb (last + lockout) now else true)
locked_lem max lockout max' lockout' last n now locked p q e = ground arith

-- After failures of a key with no record, all in the window that the first opens: with fewer than
-- max of them the key is allowed at every time; with max or more it is allowed exactly from the
-- lockout after the last failure on.
pub allowed-fail_all :
    (l : LoginLimiter) (key : Bytes) (t : ℕ) (ts : List ℕ) (now : ℕ)
    → lookup key l.fails ≡ none
    → InWindow l t ts
    → allowed (fail_all l key (t ∷ ts)) key now
      ≡ (if leb l.max (length (t ∷ ts)) then leb (last_of t ts + l.lockout) now else true)
unfolding allowed fail_all fail
allowed-fail_all l key t ts now absent near =
    let l' = (fail l key t).0 in
    let b = Burst-fail_all l' key t 1 t ts (Burst-first l key t absent) near in
    let (same_max, same_lockout) = fail_all-limits l' key ts in
    rw b.found (
      locked_lem l.max l.lockout _ _ (last_of t ts) (length ts) now b.state.locked_until same_max
        same_lockout b.locked)
