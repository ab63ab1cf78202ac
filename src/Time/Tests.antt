-- ===== src/Time/Tests.antt =====
-- Concrete times through the operations of utime.h.
use alarm.Base.{◌≡◌, refl}
use alarm.Time.{UTime, add}

abbrev early : UTime
early = record { tv_sec = 5; tv_nsec = 400000000 }

abbrev span : UTime
span = record { tv_sec = 2; tv_nsec = 600000000 }

abbrev later : UTime
later = record { tv_sec = 5; tv_nsec = 700000000 }

not_carried : (add early span).tv_nsec ≡ 1000000000
unfolding add
not_carried = refl
