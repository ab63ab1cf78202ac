-- ===== src/Time/Order.antt =====
-- The comparisons of utime.h order times by the nanoseconds that they stand for, and sums and
-- differences are those of nanoseconds, as long as nothing wraps.
use alarm.Base.{ℕ, ◌+◌, ◌*◌, ◌^◌, ◌≤◌, ◌<◌, ◌≡◌, ◌↔◌, ◌≢◌, true, false, arith}
use alarm.Time.{UTime, add, sub, gt, lt, eq, ge, le}

abbrev pub nanos : UTime → ℕ
nanos t = t.tv_sec * 1000000000 + t.tv_nsec

-- A whole second is carried.
abbrev pub IsNormal : UTime → Type 0
IsNormal t = t.tv_nsec < 1000000000

lt_iff : (a b : UTime) → IsNormal a → IsNormal b → (lt a b ≡ true) ↔ (nanos a < nanos b)
unfolding lt
lt_iff a b ha hb = (λ e. ground arith, λ h. ground arith)

-- On normal times the comparisons <, >, <=, >= and == are those of the nanoseconds.
pub comparisons :
    (a b : UTime)
    → IsNormal a
    → IsNormal b
    → ((lt a b ≡ true) ↔ (nanos a < nanos b))
      × ((gt a b ≡ true) ↔ (nanos b < nanos a))
      × ((le a b ≡ true) ↔ (nanos a ≤ nanos b))
      × ((ge a b ≡ true) ↔ (nanos b ≤ nanos a))
      × ((eq a b ≡ true) ↔ (nanos a ≡ nanos b))
unfolding lt gt le ge eq
comparisons a b ha hb = (
  lt_iff a b ha hb,
  (λ e. ground arith, λ h. ground arith),
  (λ e. ground arith, λ h. ground arith),
  (λ e. ground arith, λ h. ground arith),
  (λ e. ground arith, λ h. ground arith),
)

-- The order of the multimap is total and transitive on all times, normal or not.
pub lt_irrefl : (a : UTime) → lt a a ≡ false
unfolding lt
lt_irrefl a = ground arith

pub lt_trans : (a b c : UTime) → lt a b ≡ true → lt b c ≡ true → lt a c ≡ true
unfolding lt
lt_trans a b c h k = ground arith

pub lt-false_trans : (a b c : UTime) → lt b a ≡ false → lt c b ≡ false → lt c a ≡ false
unfolding lt
lt-false_trans a b c h k = ground arith

pub lt_asymm : (a b : UTime) → lt a b ≡ true → lt b a ≡ false
unfolding lt
lt_asymm a b h = ground arith

pub gt-lt : (a b : UTime) → gt a b ≡ lt b a
unfolding gt lt
gt-lt a b = ground arith

-- Adding normal times adds their nanoseconds, if the seconds fit.
pub nanos-add :
    (a b : UTime)
    → IsNormal a
    → IsNormal b
    → a.tv_sec + b.tv_sec + 1 < 2 ^ 32
    → nanos (add a b) ≡ nanos a + nanos b
unfolding add
nanos-add a b ha hb h = ground arith

-- Subtracting a normal time from the sum of it and another gives the other back, in nanoseconds, if the seconds fit.
pub sub-add :
    (a b : UTime)
    → IsNormal a
    → IsNormal b
    → a.tv_sec + b.tv_sec + 1 < 2 ^ 32
    → nanos (sub (add a b) b) ≡ nanos a
unfolding add sub
sub-add a b ha hb h = ground arith

-- A sum of normal times is normal except where the nanoseconds add up to exactly one second, which
-- `normalize` does not carry.
pub add-IsNormal_iff :
    (a b : UTime)
    → IsNormal a
    → IsNormal b
    → IsNormal (add a b) ↔ (a.tv_nsec + b.tv_nsec ≢ 1000000000)
unfolding add
add-IsNormal_iff a b ha hb = (λ h. ground arith, λ h. ground arith)
