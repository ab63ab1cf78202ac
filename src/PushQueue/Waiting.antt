-- ===== src/PushQueue/Waiting.antt =====
-- A message that was pushed and waits for its response: the first response completes its context, and
-- what the map keeps afterwards.
use alarm.Base.{
  ℕ, ◌≡◌, refl, ◌∷◌, none, some, arith, Option, Option-cases, inl, inr, ==_iff, ◌==◌, if◌then◌else◌,
}
use alarm.Base.Int.{ℤ}
use alarm.Base.Maps.{nat_eq, lookup, lookup-insert, insert, insert_present}
use alarm.PushQueue.{PushMsg, PushQueues, complete, submit_wait_finish_push_msg, finish_push_msg}

-- A message whose number is new, and whose context was not completed, waits once it is submitted; the
-- first response under its number completes its context with the response's code and nothing else,
-- and the second one uses the context after it was deleted.
pub second_response_faults :
    (msg : PushMsg) (ct : ℕ) (ret again : ℤ) (q : PushQueues)
    → msg.ct ≡ some ct
    → lookup msg.push_cnt q.wait_finish_msg_queue ≡ none
    → lookup ct q.completed ≡ none
    → (q' : PushQueues) × (finish_push_msg msg.push_cnt ret
          (submit_wait_finish_push_msg msg.push_cnt msg q)
        ≡ some q')
      × (q'.completed ≡ (ct, ret) ∷ q.completed)
      × (finish_push_msg msg.push_cnt again q' ≡ none)
unfolding finish_push_msg submit_wait_finish_push_msg complete lookup insert
second_response_faults msg ct ret again q c new fresh = (
  record (submit_wait_finish_push_msg msg.push_cnt msg q) { completed = (ct, ret) ∷ q.completed },
  ground (arith, c, new, fresh),
  refl,
  ground (arith, c, new, fresh),
)

-- A message whose number is there already is lost: the response under its number completes the older
-- message's context.
pub same_number_lost :
    (old msg : PushMsg) (ct : ℕ) (ret : ℤ) (q : PushQueues)
    → lookup msg.push_cnt q.wait_finish_msg_queue ≡ some old
    → old.ct ≡ some ct
    → lookup ct q.completed ≡ none
    → (submit_wait_finish_push_msg msg.push_cnt msg q ≡ q)
      × (finish_push_msg msg.push_cnt ret q
          ≡ some (record q { completed = (ct, ret) ∷ q.completed }))
unfolding finish_push_msg submit_wait_finish_push_msg complete
same_number_lost old msg ct ret q there c fresh = (
  rw (insert_present msg.push_cnt msg old q.wait_finish_msg_queue there) refl,
  ground (arith, c, there, fresh),
)

-- The messages that wait once `msg` was submitted: under its number an older one stays, and the messages
-- under the other numbers are as they were.
abbrev pub waits_with : PushMsg → PushQueues → ℕ → Option PushMsg
waits_with msg q number = elim (lookup number q.wait_finish_msg_queue) [
  | some older ↦ some older
  | none ↦ if msg.push_cnt == number then some msg else none
]

pub submit_wait_lem :
    (msg : PushMsg) (q : PushQueues) (number : ℕ)
    → lookup number (submit_wait_finish_push_msg msg.push_cnt msg q).wait_finish_msg_queue
      ≡ waits_with msg q number
unfolding submit_wait_finish_push_msg
submit_wait_lem msg q number = elim (Option-cases (lookup msg.push_cnt q.wait_finish_msg_queue)) [
  | inl new ↦ ground (
    arith,
    new,
    lookup-insert msg.push_cnt number msg q.wait_finish_msg_queue new,
    Option-cases (lookup number q.wait_finish_msg_queue),
    ==_iff msg.push_cnt number,
  )
  | inr (old, there) ↦ ground (
    arith,
    there,
    insert_present msg.push_cnt msg old q.wait_finish_msg_queue there,
    Option-cases (lookup number q.wait_finish_msg_queue),
    ==_iff msg.push_cnt number,
  )
]
