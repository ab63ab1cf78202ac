-- ===== src/PushQueue.antt =====
-- deviceOnline/src/push_msg_queue.cc: messages to be pushed to devices, and those that wait for the
-- device's response. A `Context *` is a number; `Complete` runs `Finish`, which replies to whom the
-- message came from, and deletes the context: `completed` has the contexts and the codes they were
-- completed with, the newest first, and `none` is the use of a deleted one. Each mutex makes each
-- function one step.
pub mod Waiting
mod Tests
use alarm.Base.{
  ℕ, suc, Bool, true, false, List, [], ◌∷◌, ◌++◌, Option, none, some, ◌==◌, if◌then◌else◌,
}
use alarm.Base.Bytes.{Bytes}
use alarm.Base.Int.{ℤ}
use alarm.Base.Maps.{nat_eq, lookup, insert}

pub record PushMsg : Type 0 where
  pub push_cnt : ℕ
  pub dev_id : Bytes
  pub push_msg : Bytes
  pub ct : Option ℕ

-- Both queues; `signals` counts the calls of `queue_cond_.Signal()`.
pub record PushQueues : Type 0 where
  pub push_msg_queue : List PushMsg
  pub wait_finish_msg_queue : List (ℕ × PushMsg)
  pub completed : List (ℕ × ℤ)
  pub signals : ℕ
  pub stop : Bool

-- `ct->Complete(ret)`, or nothing where `ct` is NULL.
unfoldable pub complete : Option ℕ → ℤ → PushQueues → Option PushQueues
unfolding lookup
complete none ret q = some q
complete (some ct) ret q = elim (lookup ct q.completed) [
  | some deleted ↦ none
  | none ↦ some (record q { completed = (ct, ret) ∷ q.completed })
]

-- `map::insert`: a message whose number is there already is not stored.
unfoldable pub submit_wait_finish_push_msg : ℕ → PushMsg → PushQueues → PushQueues
submit_wait_finish_push_msg push_cnt push_msg q = record q {
  wait_finish_msg_queue = insert push_cnt push_msg q.wait_finish_msg_queue;
}

-- The entry stays in the map.
unfoldable pub finish_push_msg : ℕ → ℤ → PushQueues → Option PushQueues
unfolding complete
finish_push_msg push_cnt ret q = elim (lookup push_cnt q.wait_finish_msg_queue) [
  | none ↦ some q
  | some push_msg ↦ complete push_msg.ct ret q
]

unfoldable pub submit_msg : PushMsg → PushQueues → PushQueues
submit_msg push_msg q = record q {
  push_msg_queue = q.push_msg_queue ++ (push_msg ∷ []);
  signals = suc q.signals;
}

unfoldable pub stop_queue : PushQueues → PushQueues
stop_queue q = record q { stop = true; signals = suc q.signals }
