-- ===== src/Intake.antt =====
-- voice_server/src/master.cc and worker.cc: how a connection comes to a worker. `Master::AcceptCb`
-- accepts it, picks a worker in turn, puts it on the worker's queue and writes a byte to the worker's
-- pipe; `Worker::RecvNotifiedCb` reads a byte and takes the connection at the front. The threads meet
-- at the queue, which has a mutex, and at the pipe, so that `AcceptCb` is two steps: up to
-- `PutConnInfo`, and the write. A worker is its index in `workers_`.
pub mod Share
pub mod Served
pub mod Turns
pub mod Draining
mod Tests
use alarm.Base.{
  ℕ, zero, suc, ◌+◌, ◌%◌, ◌^◌, ◌<◌, ◌≡◌, Bool, true, false, not, List, [], ◌∷◌, ◌++◌, Option, none,
  some, ◌==◌, if◌then◌else◌, ◌≢◌, Bool-cases, inl, inr, ==_iff, arith,
}

-- `buffer_event`: whether it was made.
pub record ConnInfo : Type 0 where
  pub conn_id : ℕ
  pub cfd : ℕ
  pub worker : ℕ
  pub buffer_event : Bool

-- `taken` has what `RecvNotifiedCb` took for a worker, in that order, with or without a bufferevent;
-- `notifying` is the worker that `AcceptCb` is about to write to; `missed` counts, for the theorems, the
-- writes to a worker's pipe that failed.
pub record Intake : Type 0 where
  pub stop : Bool
  pub worker_count : ℕ
  pub conn_count : ℕ
  pub conn_info_queue : ℕ → List ConnInfo
  pub pipe : ℕ → ℕ
  pub taken : ℕ → List ConnInfo
  pub notifying : Option ℕ
  pub missed : ℕ → ℕ

abbrev pub at {ℓ} : {A : Type ℓ} → ℕ → A → (ℕ → A) → ℕ → A
at t v f x = if x == t then v else f x

-- A property of each worker's values: to be shown for the worker that changes, and for the others.
pub at_two {ℓ κ μ} :
    {A : Type ℓ} {B : Type κ} (P : ℕ → A → B → Type μ) (t : ℕ) (a : A) (b : B) (f : ℕ → A)
    (g : ℕ → B)
    → P t a b
    → ((u : ℕ) → u ≢ t → P u (f u) (g u))
    → (u : ℕ) → P u (at t a f u) (at t b g u)
at_two P t a b f g p q u = elim (Bool-cases (u == t)) [
  | inl e ↦ rw e (rw ((==_iff u t).0 e) p)
  | inr e ↦ rw e (q u (ground arith))
]

pub at_lem {ℓ κ} :
    {A : Type ℓ} (P : ℕ → A → Type κ) (t : ℕ) (a : A) (f : ℕ → A)
    → P t a
    → ((u : ℕ) → u ≢ t → P u (f u))
    → (u : ℕ) → P u (at t a f u)
at_lem P t a f p q u = at_two (λ i x y. P i x) t a a f f p q u

-- `Master::Master`, and the workers that `Init` makes.
unfoldable pub master_init : ℕ → Intake
master_init worker_count = record {
  stop = false;
  worker_count = worker_count;
  conn_count = 0;
  conn_info_queue = λ t. [];
  pipe = λ t. 0;
  taken = λ t. [];
  notifying = none;
  missed = λ t. 0;
}

-- With no worker the remainder is undefined: `none`.
unfoldable pub pick_one_worker : Intake → Option ℕ
pick_one_worker w = if w.worker_count == 0 then none else some (w.conn_count % w.worker_count)

unfoldable pub put_conn_info : ConnInfo → ℕ → Intake → Intake
put_conn_info c t w = record w {
  conn_info_queue = at t (w.conn_info_queue t ++ (c ∷ [])) w.conn_info_queue;
}

-- `++conn_count_`, the new `ConnectionInfo`, and `PutConnInfo`; `HandleConnect` writes to the log.
unfoldable pub hand_over : ℕ → ℕ → Intake → Intake
unfolding put_conn_info
hand_over cfd t w =
    let count = suc w.conn_count % 2 ^ 64 in
    let c : ConnInfo = record { conn_id = count; cfd = cfd; worker = t; buffer_event = false } in
    put_conn_info c t (record w { conn_count = count; notifying = some t })

-- `AcceptCb` up to the write. The argument is what `AcceptClient` returned, `none` if it failed.
unfoldable pub accept_cb : Option ℕ → Intake → Option Intake
unfolding pick_one_worker hand_over
accept_cb cfd w = if w.stop then some w else elim cfd [
  | none ↦ some w
  | some fd ↦ elim (pick_one_worker w) [ none ↦ none | some t ↦ some (hand_over fd t w) ]
]

-- One more for the worker, if there is one and `b` holds.
abbrev pub bump : Bool → Option ℕ → (ℕ → ℕ) → ℕ → ℕ
bump b none f = f
bump b (some t) f = if b then at t (suc (f t)) f else f

-- `write(notified_wfd, "c", 1)`; the code does not look at the result.
unfoldable pub write_byte : Bool → Intake → Intake
write_byte wrote w = record w {
  notifying = none;
  pipe = bump wrote w.notifying w.pipe;
  missed = bump (not wrote) w.notifying w.missed;
}

-- What a worker that has read its byte, of `suc n`, does with the connection at the front. `made`:
-- `bufferevent_socket_new` succeeded.
unfoldable pub take_conn : Bool → ℕ → ℕ → ConnInfo → List ConnInfo → Intake → Intake
take_conn made t n c rest w = record w {
  pipe = at t n w.pipe;
  conn_info_queue = at t rest w.conn_info_queue;
  taken = at t (w.taken t ++ (record c { buffer_event = made } ∷ [])) w.taken;
}

-- `front` and `pop_front` of an empty queue are undefined, and `cfd > 0` is asserted.
unfoldable pub recv_notified_cb : Bool → ℕ → Intake → Option Intake
unfolding take_conn
recv_notified_cb made t w = elim (w.pipe t) [
  | zero ↦ some w
  | suc n ↦ elim (w.conn_info_queue t) [
    | [] ↦ none
    | c ∷ rest ↦ if c.cfd == 0 then none else some (take_conn made t n c rest w)
  ]
]

-- What the master and the workers can come to, in any interleaving of their steps, and the sockets that
-- were accepted till then. A worker's step may come between the two of `AcceptCb`.
pub data Reach (n : ℕ) : List ℕ → Intake → Type 0 where
  starts : Reach n [] (master_init n)
  accepts :
      {fds : List ℕ} {w w' : Intake} (fd : ℕ)
      → Reach n fds w
      → w.notifying ≡ none
      → w.stop ≡ false
      → accept_cb (some fd) w ≡ some w'
      → Reach n (fds ++ (fd ∷ [])) w'
  notifies :
      {fds : List ℕ} {w : Intake} (wrote : Bool) → Reach n fds w → Reach n fds (write_byte wrote w)
  wakes :
      {fds : List ℕ} {w w' : Intake} (made : Bool) (t : ℕ)
      → Reach n fds w
      → recv_notified_cb made t w ≡ some w'
      → Reach n fds w'
  stops : {fds : List ℕ} {w : Intake} → Reach n fds w → Reach n fds (record w { stop = true })
