-- ===== src/Time.antt =====
-- voice_server/util/utime.h (and the copies in userOnline/src and deviceOnline/src): a time as two
-- uint32_t, whose sums and differences wrap.
pub mod Order
mod Tests
use alarm.Base.{ℕ, ◌+◌, ◌-◌, ◌*◌, ◌/◌, ◌%◌, ◌^◌, Bool, not, ◌&&◌, ◌||◌, ltb, ◌==◌, if◌then◌else◌}

pub record UTime : Type 0 where
  pub tv_sec : ℕ
  pub tv_nsec : ℕ

unfoldable pub normalize : UTime → UTime
normalize t =
    if ltb 1000000000 t.tv_nsec
    then record {
      tv_sec = (t.tv_sec + t.tv_nsec / 1000000000) % 2 ^ 32;
      tv_nsec = t.tv_nsec % 1000000000;
    }
    else t

-- `operator+=(const UTime &)`
unfoldable pub add : UTime → UTime → UTime
unfolding normalize
add a b =
    normalize (record {
      tv_sec = (a.tv_sec + b.tv_sec) % 2 ^ 32;
      tv_nsec = (a.tv_nsec + b.tv_nsec) % 2 ^ 32;
    })

-- A non-negative double number of seconds, as the code reads it: `trunc(f)`, and the whole part of
-- `(f - trunc(f)) * 1000000000.0`.
pub record Seconds : Type 0 where
  pub whole : ℕ
  pub nanos : ℕ

-- `operator+=(const double)`
unfoldable pub add_seconds : UTime → Seconds → UTime
unfolding normalize
add_seconds a f =
    normalize
      (record { tv_sec = (a.tv_sec + f.whole) % 2 ^ 32; tv_nsec = (a.tv_nsec + f.nanos) % 2 ^ 32 })

-- `operator-=` and `operator-`
unfoldable pub sub : UTime → UTime → UTime
sub a b = record {
  tv_sec =
      (a.tv_sec + 2 ^ 32 + 2 ^ 32 - b.tv_sec - (if ltb a.tv_nsec b.tv_nsec then 1 else 0)) % 2 ^ 32;
  tv_nsec =
      if ltb a.tv_nsec b.tv_nsec
      then (a.tv_nsec + 1000000000 + 2 ^ 32 - b.tv_nsec) % 2 ^ 32
      else a.tv_nsec - b.tv_nsec;
}

unfoldable pub gt : UTime → UTime → Bool
gt a b = ltb b.tv_sec a.tv_sec || ((a.tv_sec == b.tv_sec) && ltb b.tv_nsec a.tv_nsec)

unfoldable pub lt : UTime → UTime → Bool
lt a b = ltb a.tv_sec b.tv_sec || ((a.tv_sec == b.tv_sec) && ltb a.tv_nsec b.tv_nsec)

unfoldable pub eq : UTime → UTime → Bool
eq a b = (a.tv_sec == b.tv_sec) && (a.tv_nsec == b.tv_nsec)

unfoldable pub ge : UTime → UTime → Bool
unfolding lt
ge a b = not (lt a b)

unfoldable pub le : UTime → UTime → Bool
unfolding gt
le a b = not (gt a b)
