-- ===== src/Timers.antt =====
-- voice_server/src/push_msg_timer_queue.cc: the pushed messages that wait for a device's answer.
-- The multimap `schedule_` is its list of nodes in order, and an iterator is a node's number; `events_`
-- finds the node of a message id. `none` is a failed assertion or a dangling iterator. The mutex
-- makes each function, and each turn of the thread's inner loop up to `mutex_.Unlock()`, one step.
pub mod Schedule
pub mod Lookup
pub mod Valid
pub mod Cancel
pub mod Expire
pub mod Drain
pub mod Ledger
mod Tests
use alarm.Base.{
  ℕ, zero, suc, ◌+◌, Bool, true, false, List, [], ◌∷◌, Option, none, some, ◌==◌, if◌then◌else◌,
}
use alarm.Base.Maps.{nat_eq, lookup, insert, erase}
use alarm.Time.{UTime, Seconds, add_seconds, lt, gt}

pub record PushMsgInfo : Type 0 where
  pub recv_mid : ℕ
  pub recv_cfd : ℕ
  pub push_mid : ℕ
  pub response_type : ℕ

pub record PushMsgContext : Type 0 where
  pub recv_mid : ℕ
  pub recv_cfd : ℕ
  pub push_mid : ℕ
  pub response_type : ℕ

pub record Node : Type 0 where
  pub node : ℕ
  pub when : UTime
  pub ct : PushMsgContext

-- `signals` counts the calls of `cond_.Signal()`.
pub record PushMsgTimerQueue : Type 0 where
  pub schedule : List Node
  pub events : List (ℕ × ℕ)
  pub next_node : ℕ
  pub signals : ℕ
  pub stop : Bool

abbrev pub empty : PushMsgTimerQueue
empty = record { schedule = []; events = []; next_node = 0; signals = 0; stop = false }

-- `multimap::insert`: behind the nodes that are not later.
unfoldable pub insert_node : Node → List Node → List Node
insert_node n [] = n ∷ []
insert_node n (x ∷ xs) =
    let rest = insert_node n xs in if lt n.when x.when then n ∷ x ∷ xs else x ∷ rest

-- Through an iterator: the node, and the map without it.
unfoldable pub find_node : ℕ → List Node → Option Node
find_node i [] = none
find_node i (x ∷ xs) = if x.node == i then some x else find_node i xs

unfoldable pub erase_node : ℕ → List Node → List Node
erase_node i [] = []
erase_node i (x ∷ xs) = let rest = erase_node i xs in if x.node == i then xs else x ∷ rest

-- `iter == schedule_.begin()`
unfoldable pub is_begin : ℕ → List Node → Bool
is_begin i [] = false
is_begin i (x ∷ xs) = x.node == i

unfoldable pub add_event_at :
    UTime → ℕ → PushMsgContext → PushMsgTimerQueue → Option PushMsgTimerQueue
unfolding insert_node is_begin
add_event_at when mid ct q =
    let schedule' = insert_node (record { node = q.next_node; when = when; ct = ct }) q.schedule in
    elim (lookup mid q.events) [
      | some i ↦ none
      | none ↦ some (record q {
        schedule = schedule';
        events = insert mid q.next_node q.events;
        next_node = suc q.next_node;
        signals = if is_begin q.next_node schedule' then suc q.signals else q.signals;
      })
    ]

-- The first argument is `GetClockNow()`.
unfoldable pub add_event_after :
    UTime → Seconds → ℕ → PushMsgContext → PushMsgTimerQueue → Option PushMsgTimerQueue
add_event_after now seconds mid ct q = add_event_at (add_seconds now seconds) mid ct q

unfoldable pub cancel_event_unlocked : ℕ → PushMsgTimerQueue → Option PushMsgTimerQueue
unfolding find_node erase_node
cancel_event_unlocked mid q = elim (lookup mid q.events) [
  | none ↦ some q
  | some i ↦ elim (find_node i q.schedule) [
    | none ↦ none
    | some n ↦ some (record q { schedule = erase_node i q.schedule; events = erase mid q.events })
  ]
]

unfoldable pub cancel_event : ℕ → PushMsgTimerQueue → Option PushMsgTimerQueue
unfolding cancel_event_unlocked
cancel_event mid q = cancel_event_unlocked mid q

abbrev pub info_of : PushMsgContext → PushMsgInfo
info_of ct = record {
  recv_mid = ct.recv_mid;
  recv_cfd = ct.recv_cfd;
  push_mid = ct.push_mid;
  response_type = ct.response_type;
}

-- The inner `none` is the return of -ERROR_ITEM_NOT_EXIST; on `some` the function returns 0.
unfoldable pub get_and_cancel_event :
    ℕ → PushMsgTimerQueue → Option (Option PushMsgInfo × PushMsgTimerQueue)
unfolding cancel_event_unlocked
get_and_cancel_event mid q = elim (lookup mid q.events) [
  | none ↦ some (none, q)
  | some i ↦ elim (find_node i q.schedule) [
    | none ↦ none
    | some n ↦ elim (cancel_event_unlocked mid q) [
      | none ↦ none
      | some q' ↦ some (some (info_of n.ct), q')
    ]
  ]
]

unfoldable pub shutdown : PushMsgTimerQueue → PushMsgTimerQueue
shutdown q = record q { stop = true; signals = suc q.signals }

-- One turn of the inner loop of `Entry` at the time `now`: the context that is completed after the
-- unlock, or the `break` (also where the schedule is empty).
unfoldable pub pop_due : UTime → PushMsgTimerQueue → Option (PushMsgContext × PushMsgTimerQueue)
pop_due now q = elim q.schedule [
  | [] ↦ none
  | n ∷ rest ↦
      if gt n.when now
      then none
      else some (n.ct, record q { schedule = rest; events = erase n.ct.push_mid q.events })
]

-- The inner loop with no other thread between: the contexts that are completed, in order.
unfoldable pub drain : ℕ → UTime → PushMsgTimerQueue → List PushMsgContext × PushMsgTimerQueue
unfolding pop_due
drain zero now q = ([], q)
drain (suc fuel) now q = elim (pop_due now q) [
  | none ↦ ([], q)
  | some (ct, q') ↦ let (done, q'') = drain fuel now q' in (ct ∷ done, q'')
]
