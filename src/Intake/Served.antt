-- ===== src/Intake/Served.antt =====
-- What holds of the master and the workers between their steps, and that the steps keep it.
use mathlib.Core.List.{append_assoc}
use alarm.Base.{
  ℕ, suc, ◌+◌, ◌%◌, ◌^◌, ◌<◌, ◌≡◌, refl, sym, ap, ◌∙◌, Bool, true, false, List, [], ◌∷◌, ◌++◌,
  Option, none, some, arith, All, All-append, length, length-append, Bool-cases, Option-cases,
  ==_refl, ◌==◌, if◌then◌else◌,
}
use alarm.Intake.{
  ConnInfo, Intake, master_init, hand_over, accept_cb, write_byte, recv_notified_cb, put_conn_info,
  pick_one_worker, at_lem, at_two, take_conn,
}
use alarm.Intake.Share.{share, share-own, share-other, sent, sent-snoc}

-- The byte that `AcceptCb` is about to write.
abbrev pub owed : Option ℕ → ℕ → ℕ
owed none t = 0
owed (some s) t = if t == s then 1 else 0

-- What was taken for a worker, and then what waits for it, is its share; each connection that waits has
-- its byte, but for the writes that failed.
pub record IsServed (n : ℕ) (fds : List ℕ) (w : Intake) : Type 0 where
  pub workers : w.worker_count ≡ n
  pub count : w.conn_count ≡ length fds % 2 ^ 64
  pub in_turn : (t : ℕ) → sent (w.taken t) ++ sent (w.conn_info_queue t) ≡ share n t 0 fds
  pub woken : (t : ℕ) → w.pipe t + (owed w.notifying t + w.missed t) ≡ length (w.conn_info_queue t)
  pub positive : All (λ fd. 0 < fd) fds → (t : ℕ) → All (λ c. 0 < c.cfd) (w.conn_info_queue t)

pub init-IsServed : (n : ℕ) → IsServed n [] (master_init n)
unfolding master_init share
init-IsServed n = record {
  workers = refl;
  count = refl;
  in_turn = λ t. refl;
  woken = λ t. refl;
  positive = λ p t. tt;
}

pub accept_inv :
    (fd : ℕ) (w w' : Intake)
    → w.stop ≡ false
    → accept_cb (some fd) w ≡ some w'
    → hand_over fd (w.conn_count % w.worker_count) w ≡ w'
unfolding accept_cb pick_one_worker
accept_inv fd w w' s e = ground (arith, s, Option-cases (pick_one_worker w))

length-snoc : {A : Type 0} (xs : List A) (x : A) → length (xs ++ (x ∷ [])) ≡ suc (length xs)
length-snoc xs x = omega (arith, length-append xs (x ∷ []))

All-snoc :
    (fds : List ℕ) (fd : ℕ) → All (λ x. 0 < x) (fds ++ (fd ∷ [])) → All (λ x. 0 < x) fds × (0 < fd)
All-snoc [] fd p = (tt, p.0)
All-snoc (x ∷ fds) fd p = let (a, b) = All-snoc fds fd p.1 in ((p.0, a), b)

module _ (n : ℕ) (fds : List ℕ) (w : Intake) (fd : ℕ) (v : IsServed n fds w) where
  abbrev to : ℕ
  to = w.conn_count % w.worker_count

  next : (length fds % 2 ^ 64) % n ≡ to
  next = cc (v.count, v.workers)

  hand_over-in_turn :
      (t : ℕ)
      → sent (w.taken t) ++ sent ((hand_over fd to w).conn_info_queue t)
        ≡ share n t 0 (fds ++ (fd ∷ []))
  unfolding hand_over put_conn_info
  hand_over-in_turn =
      at_lem (λ t q. sent (w.taken t) ++ sent q ≡ share n t 0 (fds ++ (fd ∷ []))) to _
        w.conn_info_queue
        (ap (λ l. sent (w.taken to) ++ l) (sent-snoc (w.conn_info_queue to) _)
          ∙ sym (append_assoc (sent (w.taken to)) (sent (w.conn_info_queue to)) _)
          ∙ ap (λ l. l ++ ((suc w.conn_count % 2 ^ 64, fd) ∷ [])) (v.in_turn to)
          ∙ ap (λ i. share n to 0 fds ++ ((suc i % 2 ^ 64, fd) ∷ [])) v.count
          ∙ sym (share-own n to fds fd next))
        (λ t e. v.in_turn t ∙ sym (share-other n t fds fd (λ q. e (q ∙ next))))

  hand_over-woken :
      w.notifying ≡ none
      → (t : ℕ)
      → w.pipe t + (owed (some to) t + w.missed t) ≡ length ((hand_over fd to w).conn_info_queue t)
  unfolding hand_over put_conn_info
  hand_over-woken q =
      at_lem (λ t l. w.pipe t + (owed (some to) t + w.missed t) ≡ length l) to _ w.conn_info_queue
        (one_more ∙ sym (length-snoc (w.conn_info_queue to) _))
        (λ t e. ground (arith, v.woken t, q, e))
    where
      one_more : w.pipe to + (owed (some to) to + w.missed to) ≡ suc (length (w.conn_info_queue to))
      one_more = ground (arith, v.woken to, q, ==_refl to)

  hand_over-positive :
      All (λ x. 0 < x) (fds ++ (fd ∷ []))
      → (t : ℕ) → All (λ c. 0 < c.cfd) ((hand_over fd to w).conn_info_queue t)
  unfolding hand_over put_conn_info
  hand_over-positive p =
      at_lem (λ t q. All (λ c. 0 < c.cfd) q) to _ w.conn_info_queue
        (All-append _ (w.conn_info_queue to) _ (v.positive (All-snoc fds fd p).0 to)
          ((All-snoc fds fd p).1, tt))
        (λ t e. v.positive (All-snoc fds fd p).0 t)

  pub hand_over-IsServed : w.notifying ≡ none → IsServed n (fds ++ (fd ∷ [])) (hand_over fd to w)
  unfolding hand_over put_conn_info
  hand_over-IsServed q = record {
    workers = v.workers;
    count = omega (arith, v.count, length-append fds (fd ∷ []));
    in_turn = hand_over-in_turn;
    woken = hand_over-woken q;
    positive = hand_over-positive;
  }

pub write_byte-IsServed :
    (n : ℕ) (fds : List ℕ) (w : Intake) (wrote : Bool)
    → IsServed n fds w
    → IsServed n fds (write_byte wrote w)
unfolding write_byte
write_byte-IsServed n fds w wrote v = record {
  workers = v.workers;
  count = v.count;
  in_turn = v.in_turn;
  woken = λ t. ground (arith, v.woken t, Bool-cases wrote, Option-cases w.notifying);
  positive = v.positive;
}

pub take_conn-IsServed :
    (n : ℕ) (fds : List ℕ) (w : Intake) (made : Bool) (t m : ℕ) (c : ConnInfo)
    (rest : List ConnInfo)
    → w.pipe t ≡ suc m
    → w.conn_info_queue t ≡ c ∷ rest
    → IsServed n fds w
    → IsServed n fds (take_conn made t m c rest w)
unfolding take_conn
take_conn-IsServed n fds w made t m c rest p q v = record {
  workers = v.workers;
  count = v.count;
  in_turn =
      at_two (λ u a l. sent a ++ sent l ≡ share n u 0 fds) t _ rest w.taken w.conn_info_queue
        (ap (λ l. l ++ sent rest) (sent-snoc (w.taken t) _)
          ∙ append_assoc (sent (w.taken t)) _ (sent rest)
          ∙ (rw q at (v.in_turn t)))
        (λ u e. v.in_turn u);
  woken =
      at_two (λ u a l. a + (owed w.notifying u + w.missed u) ≡ length l) t m rest w.pipe
        w.conn_info_queue (omega (arith, rw (p, q) at (v.woken t))) (λ u e. v.woken u);
  positive = λ p.
      at_lem (λ t q. All (λ c. 0 < c.cfd) q) t _ w.conn_info_queue (rw q at (v.positive p t)).1
        (λ t e. v.positive p t);
}

pub recv_full :
    (w : Intake) (made : Bool) (t m : ℕ) (c : ConnInfo) (rest : List ConnInfo)
    → w.pipe t ≡ suc m
    → w.conn_info_queue t ≡ c ∷ rest
    → 0 < c.cfd
    → recv_notified_cb made t w ≡ some (take_conn made t m c rest w)
unfolding recv_notified_cb
recv_full w made t m c rest p q h = ground (arith, p, q, h)

pub stop-IsServed :
    (n : ℕ) (fds : List ℕ) (w : Intake)
    → IsServed n fds w
    → IsServed n fds (record w { stop = true })
stop-IsServed n fds w v = record {
  workers = v.workers;
  count = v.count;
  in_turn = v.in_turn;
  woken = v.woken;
  positive = v.positive;
}
