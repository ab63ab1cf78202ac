-- ===== src/Intake/Draining.antt =====
-- A worker that reads all the bytes in its pipe takes all that waits for it, but for what the master
-- could not write a byte for.
use alarm.Base.{
  ℕ, suc, ◌≡◌, refl, sym, ap, ◌∙◌, Bool, List, [], ◌∷◌, Option, none, some, arith, All, length,
  if_true, ==_refl, ◌<◌,
}
use mathlib.Core.List.{append-nil}
use alarm.Intake.{ConnInfo, Intake, Reach, wakes, recv_notified_cb, take_conn}
use alarm.Intake.Share.{share, sent}
use alarm.Intake.Served.{IsServed, recv_full}
use alarm.Intake.Turns.{Reach-IsServed}

-- The worker is woken once for each of `made`.
unfoldable pub recv_all : List Bool → ℕ → Intake → Option Intake
recv_all [] t w = some w
recv_all (made ∷ later) t w = elim (recv_notified_cb made t w) [
  | none ↦ none
  | some w' ↦ recv_all later t w'
]

recv_next :
    (made : Bool) (later : List Bool) (t : ℕ) (w w1 w' : Intake)
    → recv_notified_cb made t w ≡ some w1
    → recv_all later t w1 ≡ some w'
    → recv_all (made ∷ later) t w ≡ some w'
unfolding recv_all
recv_next made later t w w1 w' e f = rw (recv_all, e) f

-- What `made` says, one for each byte: all are read, and the master is where it was.
module _ (n t : ℕ) (fds : List ℕ) (real : All (λ fd. 0 < fd) fds) where
  record Drained (w w' : Intake) : Type 0 where
    reached : Reach n fds w'
    empty : w'.pipe t ≡ 0
    notifying : w'.notifying ≡ w.notifying
    missed : w'.missed ≡ w.missed

  -- A connection waits for each byte.
  front :
      (m : ℕ) (q : List ConnInfo) (w : Intake)
      → IsServed n fds w
      → w.pipe t ≡ suc m
      → w.conn_info_queue t ≡ q
      → (c : ConnInfo) × (rest : List ConnInfo) × (w.conn_info_queue t ≡ c ∷ rest) × (0 < c.cfd)
  front m [] w v p q = absurd (ground (arith, v.woken t, p, q))
  front m (c ∷ rest) w v p q = (c, rest, q, (rw q at (v.positive real t)).0)

  wake_all :
      (made : List Bool) (w : Intake)
      → Reach n fds w
      → w.pipe t ≡ length made
      → (w' : Intake) × (recv_all made t w ≡ some w') × Drained w w'
  unfolding recv_all take_conn
  wake_all [] w r e = (w, refl, record { reached = r; empty = e; notifying = refl; missed = refl })
  wake_all (m ∷ ms) w r e =
      let (c, rest, q, h) = front (length ms) (w.conn_info_queue t) w (Reach-IsServed r) e refl in
      let taken = recv_full w m t (length ms) c rest e q h in
      let (w', f, d) =
        wake_all ms (take_conn m t (length ms) c rest w) (wakes m t r taken)
          (if_true _ _ (==_refl t)) in
      (
        w',
        recv_next m ms t w _ w' taken f,
        record { reached = d.reached; empty = d.empty; notifying = d.notifying; missed = d.missed },
      )

none_left : {A : Type 0} (xs : List A) → length xs ≡ 0 → xs ≡ []
none_left [] e = refl
none_left (x ∷ xs) e = absurd (ground (arith, e))

-- From any state that the master and the workers come to, when the master is not between its steps and no
-- write to the pipe of worker `t` has failed, where the accepted sockets are above 0: once the worker has been woken for each byte in its pipe,
-- whether or not libevent can serve the connections, its queue is empty, and what it took is exactly its
-- share of the accepted sockets, in the order in which they came.
pub recv_all_lem :
    (n t : ℕ) (fds : List ℕ) (made : List Bool) (w : Intake)
    → Reach n fds w
    → All (λ fd. 0 < fd) fds
    → w.pipe t ≡ length made
    → w.notifying ≡ none
    → w.missed t ≡ 0
    → (w' : Intake) × (recv_all made t w ≡ some w')
      × (w'.conn_info_queue t ≡ [])
      × (sent (w'.taken t) ≡ share n t 0 fds)
recv_all_lem n t fds made w r p e q m =
    let (w', f, d) = wake_all n t fds p made w r e in
    let v = Reach-IsServed d.reached in
    let left =
      none_left (w'.conn_info_queue t)
        (ground (arith, v.woken t, d.empty, d.notifying ∙ q, ap (λ f. f t) d.missed ∙ m)) in
    (w', f, left, sym (append-nil (sent (w'.taken t))) ∙ (rw left at (v.in_turn t)))

-- A connection whose byte the master could not write stays: when a worker's pipe is empty and the master
-- is not between its steps, as many connections wait for the worker as writes failed, and its callback
-- takes none of them.
pub missed_stuck :
    (n t : ℕ) (fds : List ℕ) (w : Intake)
    → Reach n fds w
    → w.pipe t ≡ 0
    → w.notifying ≡ none
    → (length (w.conn_info_queue t) ≡ w.missed t)
      × ((made : Bool) → recv_notified_cb made t w ≡ some w)
unfolding recv_notified_cb
missed_stuck n t fds w r p q =
    (ground (arith, (Reach-IsServed r).woken t, p, q), λ made. ground (arith, p))
