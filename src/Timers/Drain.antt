-- ===== src/Timers/Drain.antt =====
-- The inner loop of `Entry` where no other thread comes between: it completes the front of the
-- schedule, all of it due, and leaves nothing that is due.
use alarm.Base.{
  ℕ, zero, suc, ◌<◌, ◌≡◌, refl, false, true, List, [], ◌∷◌, ◌++◌, map, none, some, arith, length,
  All, Option-cases, inl, inr, ap, ◌∙◌,
}
use alarm.Time.{UTime, gt}
use alarm.Timers.{Node, PushMsgContext, PushMsgTimerQueue, pop_due, drain}
use alarm.Timers.Valid.{IsValid}
use alarm.Timers.Expire.{pop_due_lem, pop_due_break}

-- The front of the schedule that was completed, and the queue that is left.
abbrev pub Drained : UTime → PushMsgTimerQueue → List PushMsgContext × PushMsgTimerQueue → Type 0
Drained now q r =
    (front : List Node) × (q.schedule ≡ front ++ r.1.schedule)
    × (r.0 ≡ map (λ n. n.ct) front)
    × All (λ n. gt n.when now ≡ false) front
    × All (λ n. gt n.when now ≡ true) r.1.schedule
    × IsValid r.1

popped_first :
    (now : UTime) (q q' : PushMsgTimerQueue) (ct : PushMsgContext) (xs : List Node)
    → q.schedule ≡ xs
    → pop_due now q ≡ some (ct, q')
    → (n : Node) × (n.ct ≡ ct) × (q.schedule ≡ n ∷ q'.schedule) × (gt n.when now ≡ false)
unfolding pop_due
popped_first now q q' ct [] s e = cc
popped_first now q q' ct (n ∷ rest) s e = (n, ground arith, ground arith, ground arith)

drain-none :
    (fuel : ℕ) (now : UTime) (q : PushMsgTimerQueue)
    → pop_due now q ≡ none
    → drain (suc fuel) now q ≡ ([], q)
unfolding drain
drain-none fuel now q e = ground (arith, e)

drain-some :
    (fuel : ℕ) (now : UTime) (q q' : PushMsgTimerQueue) (ct : PushMsgContext)
    → pop_due now q ≡ some (ct, q')
    → drain (suc fuel) now q ≡ (ct ∷ (drain fuel now q').0, (drain fuel now q').1)
unfolding drain
drain-some fuel now q q' ct e = ground (arith, e)

-- On a valid queue, with more fuel than there are messages, the loop completes exactly those at the front of the schedule
-- whose time has come, in order of time; what is left is all still to come, and valid.
pub drain_lem :
    (fuel : ℕ) (now : UTime) (q : PushMsgTimerQueue)
    → IsValid q
    → length q.schedule < fuel
    → Drained now q (drain fuel now q)
drain_lem zero now q v h = absurd (omega arith)
drain_lem (suc fuel) now q v h = elim (Option-cases (pop_due now q)) [
  | inl stop ↦ rw (drain-none fuel now q stop) ([], refl, refl, tt, pop_due_break now q v stop, v)
  | inr ((ct, q'), e) ↦
      let (n, c, s, due) = popped_first now q q' ct q.schedule refl e in
      let (_, _, _, _, _, v', _) = pop_due_lem now q q' ct v e in
      let (front, split, done, all_due, all_late, w) =
        drain_lem fuel now q' v' (omega (arith, ap length s)) in
      rw (drain-some fuel now q q' ct e)
        (n ∷ front, s ∙ ap (◌∷◌ n) split, cc, (due, all_due), all_late, w)
]
