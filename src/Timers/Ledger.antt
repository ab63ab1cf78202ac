-- ===== src/Timers/Ledger.antt =====
-- Any interleaving of the worker threads' calls and the timer thread's turns: each pushed message is
-- completed once, by the device's answer or by the timeout, or waits still.
use alarm.Base.{
  ℕ, suc, ◌+◌, ◌≤◌, ◌≡◌, refl, List, [], ◌∷◌, Option, none, some, arith, ◌==◌, if◌then◌else◌,
  Option-cases, inl, inr, ap, ◌∙◌,
}
use alarm.Time.{UTime}
use alarm.Timers.{
  empty, Node, PushMsgContext, PushMsgInfo, PushMsgTimerQueue, add_event_at, get_and_cancel_event,
  pop_due,
}
use alarm.Timers.Lookup.{find_mid_mid, find_mid-NoMid}
use alarm.Timers.Valid.{IsValid, pending, add_event_at_lem, add_event_at_twice, empty-IsValid}
use alarm.Timers.Cancel.{get_and_cancel_event_waiting, get_and_cancel_event_absent}
use alarm.Timers.Expire.{pop_due_lem}

-- A push to a device, a device's answer, and a turn of the timer thread at a time.
pub data Call : Type 0 where
  push : UTime → PushMsgContext → Call
  answer : ℕ → Call
  turn : UTime → Call

-- The queue, and the message ids that were completed, the newest first.
pub record State : Type 0 where
  pub queue : PushMsgTimerQueue
  pub done : List ℕ

abbrev answered : State → Option PushMsgInfo × PushMsgTimerQueue → State
answered s (none, q) = record s { queue = q }
answered s (some info, q) = record { queue = q; done = info.push_mid ∷ s.done }

abbrev timed_out : State → Option (PushMsgContext × PushMsgTimerQueue) → State
timed_out s none = s
timed_out s (some (ct, q)) = record { queue = q; done = ct.push_mid ∷ s.done }

pub step : Call → State → Option State
step (push when ct) s = elim (add_event_at when ct.push_mid ct s.queue) [
  | none ↦ none
  | some q ↦ some (record s { queue = q })
]
step (answer mid) s = elim (get_and_cancel_event mid s.queue) [
  | none ↦ none
  | some r ↦ some (answered s r)
]
step (turn now) s = some (timed_out s (pop_due now s.queue))

pub run : List Call → State → Option State
run [] s = some s
run (c ∷ cs) s = elim (step c s) [ none ↦ none | some t ↦ run cs t ]

abbrev pub occurrences : ℕ → List ℕ → ℕ
occurrences mid [] = 0
occurrences mid (x ∷ xs) = if x == mid then suc (occurrences mid xs) else occurrences mid xs

abbrev pub waiting : Option Node → ℕ
waiting none = 0
waiting (some n) = 1

-- How often a message id was pushed.
abbrev pub pushes : ℕ → List Call → ℕ
pushes mid [] = 0
pushes mid (push when ct ∷ cs) = if ct.push_mid == mid then suc (pushes mid cs) else pushes mid cs
pushes mid (answer m ∷ cs) = pushes mid cs
pushes mid (turn now ∷ cs) = pushes mid cs

-- What is completed and what waits, counted for a message id.
abbrev pub account : ℕ → State → ℕ
account mid s = occurrences mid s.done + waiting (pending mid s.queue)

abbrev Kept : Call → State → State → Type 0
Kept c s t =
    IsValid t.queue
    × ((mid : ℕ) → account mid t ≡ account mid s + pushes mid (c ∷ []))
    × ((mid : ℕ)
        → waiting (pending mid t.queue) ≤ waiting (pending mid s.queue) + pushes mid (c ∷ []))

push-Kept :
    (when : UTime) (ct : PushMsgContext) (s t : State) (o : Option Node)
    → IsValid s.queue
    → pending ct.push_mid s.queue ≡ o
    → step (push when ct) s ≡ some t
    → Kept (push when ct) s t
unfolding step
push-Kept when ct s t (some n) v p e =
    absurd (cc (add_event_at_twice when ct.push_mid ct s.queue n v p))
push-Kept when ct s t none v p e =
    let (q, a, w, view) = add_event_at_lem when ct s.queue v p in
    let same : t ≡ record s { queue = q } = ground (arith, a) in
    rw same (w, λ mid. ground (arith, view mid), λ mid. ground (arith, view mid))

answer-Kept :
    (m : ℕ) (s t : State) (o : Option Node)
    → IsValid s.queue
    → pending m s.queue ≡ o
    → step (answer m) s ≡ some t
    → Kept (answer m) s t
unfolding step
answer-Kept m s t none v p e =
    let same : t ≡ s = ground (arith, get_and_cancel_event_absent m s.queue v p) in
    rw same (v, λ mid. omega arith, λ mid. omega arith)
answer-Kept m s t (some n) v p e =
    let (q, a, w, view) = get_and_cancel_event_waiting m s.queue n v p in
    let same : t ≡ record { queue = q; done = n.ct.push_mid ∷ s.done } = ground (arith, a) in
    rw same (
      w,
      λ mid. ground (arith, view mid, find_mid_mid m s.queue.schedule n p),
      λ mid. ground (arith, view mid),
    )

turn-Kept :
    (now : UTime) (s t : State) → IsValid s.queue → step (turn now) s ≡ some t → Kept (turn now) s t
unfolding step
turn-Kept now s t v e = elim (Option-cases (pop_due now s.queue)) [
  | inl idle ↦
      let same : t ≡ s = ground (arith, idle) in rw same (v, λ mid. omega arith, λ mid. omega arith)
  | inr ((ct, q), d) ↦
      let (n, c, p, _, _, w, view) = pop_due_lem now s.queue q ct v d in
      let same : t ≡ record { queue = q; done = ct.push_mid ∷ s.done } = ground (arith, d) in
      rw same (w, λ mid. ground (arith, view mid), λ mid. ground (arith, view mid))
]

step-Kept : (c : Call) (s t : State) → IsValid s.queue → step c s ≡ some t → Kept c s t
step-Kept (push when ct) s t v e = push-Kept when ct s t (pending ct.push_mid s.queue) v refl e
step-Kept (answer m) s t v e = answer-Kept m s t (pending m s.queue) v refl e
step-Kept (turn now) s t v e = turn-Kept now s t v e

-- No id is pushed while it waits.
abbrev pub Fresh : List Call → State → Type 0
Fresh cs s = (mid : ℕ) → pushes mid cs + waiting (pending mid s.queue) ≤ 1

not_waiting : (o : Option Node) → waiting o ≡ 0 → o ≡ none
not_waiting none h = refl
not_waiting (some n) h = absurd (omega arith)

answer_total :
    (m : ℕ) (s : State) (o : Option Node)
    → IsValid s.queue
    → pending m s.queue ≡ o
    → (t : State) × (step (answer m) s ≡ some t)
unfolding step
answer_total m s none v p = (s, ground (arith, get_and_cancel_event_absent m s.queue v p))
answer_total m s (some n) v p =
    let (q, a, _, _) = get_and_cancel_event_waiting m s.queue n v p in
    (record { queue = q; done = n.ct.push_mid ∷ s.done }, ground (arith, a))

step_total :
    (c : Call) (cs : List Call) (s : State)
    → IsValid s.queue
    → Fresh (c ∷ cs) s
    → (t : State) × (step c s ≡ some t)
unfolding step
step_total (push when ct) cs s v f =
    let (q, a, w, view) =
      add_event_at_lem when ct s.queue v
        (not_waiting (pending ct.push_mid s.queue) (ground (arith, f ct.push_mid))) in
    (record s { queue = q }, ground (arith, a))
step_total (answer m) cs s v f = answer_total m s (pending m s.queue) v refl
step_total (turn now) cs s v f = (timed_out s (pop_due now s.queue), refl)

pushes-cons :
    (mid : ℕ) (c : Call) (cs : List Call)
    → pushes mid (c ∷ cs) ≡ pushes mid (c ∷ []) + pushes mid cs
pushes-cons mid (push when ct) cs = ground arith
pushes-cons mid (answer m) cs = omega arith
pushes-cons mid (turn now) cs = omega arith

run-cons : (c : Call) (cs : List Call) (s t : State) → step c s ≡ some t → run (c ∷ cs) s ≡ run cs t
unfolding run
run-cons c cs s t e = ground arith

-- From a valid queue, calls that push no message id while it waits all succeed, keep the invariant, and
-- keep account of every id: it is completed as often as it was pushed, but for one that waits.
pub run_lem :
    (cs : List Call) (s : State)
    → IsValid s.queue
    → Fresh cs s
    → (t : State) × (run cs s ≡ some t)
      × IsValid t.queue
      × ((mid : ℕ) → account mid t ≡ account mid s + pushes mid cs)
run_lem [] s v f = (s, unfold run in refl, v, λ mid. omega arith)
run_lem (c ∷ cs) s v f =
    let (t, e) = step_total c cs s v f in
    let (w, count, less) = step-Kept c s t v e in
    let (u, r, x, total) =
      run_lem cs t w (λ mid. omega (arith, f mid, less mid, pushes-cons mid c cs)) in
    (
      u,
      run-cons c cs s t e ∙ r,
      x,
      λ mid. omega (arith, total mid, count mid, pushes-cons mid c cs),
    )

-- From an empty queue, under message ids that are pushed at most once, in any interleaving of pushes,
-- answers and turns of the timer thread: no assertion fails and no iterator dangles, and each id that
-- was pushed is either completed exactly once or still waits, and no other id is completed.
pub exactly_once :
    (cs : List Call)
    → ((mid : ℕ) → pushes mid cs ≤ 1)
    → (t : State) × (run cs (record { queue = empty; done = [] }) ≡ some t)
      × ((mid : ℕ) → occurrences mid t.done + waiting (pending mid t.queue) ≡ pushes mid cs)
exactly_once cs f =
    let (t, r, v, total) =
      run_lem cs (record { queue = empty; done = [] }) empty-IsValid
        (λ mid. omega (arith, f mid, ap waiting (nothing mid))) in
    (t, r, λ mid. omega (arith, total mid, ap waiting (nothing mid)))
  where
    nothing : (mid : ℕ) → pending mid empty ≡ none
    nothing mid = find_mid-NoMid mid [] tt
