-- ===== src/Intake/Turns.antt =====
-- The connections come to the workers in turn, and no worker takes from an empty queue.
use alarm.Base.{
  ℕ, zero, suc, ◌≡◌, refl, sym, ◌∙◌, Bool, false, List, [], ◌∷◌, ◌++◌, none, some, arith,
  Bool-cases, ◌⊎◌, inl, inr, ◌==◌,
}
use alarm.Intake.{
  ConnInfo, Intake, Reach, starts, accepts, notifies, wakes, stops, accept_cb, recv_notified_cb,
  take_conn,
}
use alarm.Intake.Served.{
  IsServed, init-IsServed, accept_inv, hand_over-IsServed, write_byte-IsServed, take_conn-IsServed,
  recv_full, stop-IsServed,
}

-- The callback goes on, or the assertion on the socket at the front fails.
abbrev pub Received : ℕ → List ℕ → Intake → Bool → ℕ → Type 0
Received n fds w made t =
    ((w' : Intake) × (recv_notified_cb made t w ≡ some w') × IsServed n fds w')
    ⊎ ((c : ConnInfo) × (rest : List ConnInfo) × (w.conn_info_queue t ≡ c ∷ rest)
        × (c.cfd ≡ 0)
        × (recv_notified_cb made t w ≡ none))

recv-IsServed :
    (n : ℕ) (fds : List ℕ) (w : Intake) (made : Bool) (t : ℕ)
    → IsServed n fds w
    → Received n fds w made t
unfolding recv_notified_cb
recv-IsServed n fds w made t v = by_queue (w.pipe t) (w.conn_info_queue t) refl refl
  where
    by_queue :
        (p : ℕ) (q : List ConnInfo)
        → w.pipe t ≡ p
        → w.conn_info_queue t ≡ q
        → Received n fds w made t
    by_queue zero q ep eq = inl (w, ground (arith, ep), v)
    by_queue (suc m) [] ep eq = absurd (ground (arith, v.woken t, ep, eq))
    by_queue (suc m) (c ∷ rest) ep eq = elim (Bool-cases (c.cfd == 0)) [
      | inl z ↦ inr (c, rest, eq, ground arith, ground (arith, ep, eq))
      | inr z ↦ inl (
        take_conn made t m c rest w,
        recv_full w made t m c rest ep eq (ground arith),
        take_conn-IsServed n fds w made t m c rest ep eq v,
      )
    ]

some_inj : {A : Type 0} (a b : A) → some a ≡ some b → a ≡ b
some_inj a b e = cc e

accepted-IsServed :
    (n : ℕ) (fds : List ℕ) (w w' : Intake) (fd : ℕ)
    → w.notifying ≡ none
    → w.stop ≡ false
    → accept_cb (some fd) w ≡ some w'
    → IsServed n fds w
    → IsServed n (fds ++ (fd ∷ [])) w'
accepted-IsServed n fds w w' fd q s e v =
    rw (sym (accept_inv fd w w' s e)) (hand_over-IsServed n fds w fd v q)

received-IsServed :
    (n : ℕ) (fds : List ℕ) (w w' : Intake) (made : Bool) (t : ℕ)
    → recv_notified_cb made t w ≡ some w'
    → IsServed n fds w
    → IsServed n fds w'
received-IsServed n fds w w' made t e v = elim (recv-IsServed n fds w made t v) [
  | inl (x, r, i) ↦ rw (some_inj w' x (sym e ∙ r)) i
  | inr (c, rest, q, z, r) ↦ absurd (ground (arith, e, r))
]

pub Reach-IsServed : {n : ℕ} {fds : List ℕ} {w : Intake} → Reach n fds w → IsServed n fds w
Reach-IsServed starts = init-IsServed _
Reach-IsServed (accepts fd r q s e) = accepted-IsServed _ _ _ _ fd q s e (Reach-IsServed r)
Reach-IsServed (notifies wrote r) = write_byte-IsServed _ _ _ wrote (Reach-IsServed r)
Reach-IsServed (wakes made t r e) = received-IsServed _ _ _ _ made t e (Reach-IsServed r)
Reach-IsServed (stops r) = stop-IsServed _ _ _ (Reach-IsServed r)
