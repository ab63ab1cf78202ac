-- ===== src/Timers/Tests.antt =====
-- A pushed message that is answered, and one that times out.
use alarm.Base.{ℕ, ◌+◌, ◌≡◌, refl, arith, false, [], ◌∷◌, List, some, none}
use alarm.Base.Maps.{nat_eq, lookup, insert, erase}
use alarm.Time.{UTime, gt, lt}
use alarm.Timers.{Node, PushMsgContext, PushMsgTimerQueue, empty, add_event_at, pop_due, drain}
use alarm.Timers.Schedule.{find_mid}
use alarm.Timers.Valid.{IsValid, pending}
use alarm.Timers.Drain.{Drained, drain_lem}
use alarm.Timers.Ledger.{
  Call, push, answer, turn, State, run, occurrences, waiting, pushes, exactly_once,
}

abbrev at : ℕ → UTime
at s = record { tv_sec = s; tv_nsec = 0 }

abbrev ct : ℕ → PushMsgContext
ct mid = record { recv_mid = 100; recv_cfd = 4; push_mid = mid; response_type = 1003 }

abbrev first : Node
first = record { node = 0; when = at 10; ct = ct 7 }

-- Message 7 waits until the tenth second.
abbrev one : PushMsgTimerQueue
one = record {
  schedule = first ∷ [];
  events = (7, 0) ∷ [];
  next_node = 1;
  signals = 1;
  stop = false;
}

one-IsValid : IsValid one
unfolding find_mid lookup
one-IsValid = record {
  sorted = (tt, tt);
  below = (omega arith, tt);
  nodes_differ = (tt, tt);
  mids_differ = (tt, tt);
  indexed = λ mid. ground arith;
}

seven_waits : pending 7 one ≡ some first
unfolding find_mid
seven_waits = refl

nine_is_new : pending 9 one ≡ none
unfolding find_mid
nine_is_new = refl

abbrev calls : List Call
calls = push (at 10) (ct 7) ∷ push (at 5) (ct 9) ∷ turn (at 6) ∷ answer 7 ∷ answer 9 ∷ []

exactly_once_example :
    (t : State) × (run calls (record { queue = empty; done = [] }) ≡ some t)
    × ((mid : ℕ) → occurrences mid t.done + waiting (pending mid t.queue) ≡ pushes mid calls)
exactly_once_example = exactly_once calls (λ mid. ground arith)

abbrev more_calls : List Call
more_calls = push (at 5) (ct 9) ∷ answer 7 ∷ []

abbrev state_one : State
state_one = record { queue = one; done = [] }

abbrev two : PushMsgTimerQueue
two = record {
  schedule = record { node = 1; when = at 5; ct = ct 9 } ∷ first ∷ [];
  events = (9, 1) ∷ (7, 0) ∷ [];
  next_node = 2;
  signals = 2;
  stop = false;
}

add_two : add_event_at (at 5) 9 (ct 9) one ≡ some two
unfolding add_event_at lookup lt insert
add_two = refl

abbrev spent : PushMsgTimerQueue
spent = record one { schedule = []; events = [] }

pops : pop_due (at 10) one ≡ some (ct 7, spent)
unfolding pop_due gt erase
pops = refl

early_break : pop_due (at 9) one ≡ none
unfolding pop_due gt
early_break = refl

drain_lem_example : Drained (at 10) one (drain 2 (at 10) one)
drain_lem_example = drain_lem 2 (at 10) one one-IsValid (omega arith)
