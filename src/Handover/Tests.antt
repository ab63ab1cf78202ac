-- ===== src/Handover/Tests.antt =====
-- Two workers: a connection comes; and the first worker takes one that waits.
use alarm.Base.{
  ℕ, zero, suc, ◌<◌, ◌≡◌, ◌≢◌, refl, arith, false, List, [], ◌∷◌, none, some, All, ◌==◌,
}
use alarm.ConnPool.{conn_init, PooledConn, Pool}
use alarm.ConnPool.Ownership.{initial-IsPool}
use alarm.ConnQueue.{Items, conn_queue_init}
use alarm.ConnQueue.Chain.{NotIn}
use alarm.ConnQueue.Fifo.{IsQueue}
use alarm.Handover.{Workers, dispatch_sfd_to_worker}
use alarm.Handover.Delivery.{IsHanded, waiting, behind, dispatch_lem}
use alarm.Handover.Turn.{IsTurn}
use alarm.Handover.Taking.{Takes, process_lem}

abbrev blank : PooledConn
blank = record {
  sfd = 0;
  id = 0;
  rlen = 0;
  wlen = 0;
  is_verify = false;
  thread = 0;
  is_login = false;
  is_online = false;
  dev_id = [];
}

abbrev items : Items
items x = record { sfd = 7; id = 1; next = none }

abbrev pool : Pool
pool = record { free = conn_init; allocated = 0; conns = λ x. blank; freed = [] }

abbrev idle : Workers
idle = record {
  items = items;
  free = record { allocated = 0; cqi_freelist = none };
  queues = λ t. conn_queue_init;
  pipes = λ t. 0;
  last_thread = none;
  pool = pool;
  closed = [];
}

abbrev nothing : ℕ → List ℕ
nothing t = []

idle-IsHanded : IsHanded idle [] nothing
idle-IsHanded = record {
  free = record { chain = refl; distinct = tt; below = tt };
  queues = λ t. record { chain = refl; ends = refl; distinct = tt };
  owned = λ t. tt;
  apart = λ t u n. tt;
}

dispatch_lem_example :
    (tid : ℕ) × (w' : Workers) × (ys : List ℕ) × (ps : ℕ → List ℕ) × (dispatch_sfd_to_worker 2
        (1 == 1)
        7
        1
        idle
      ≡ some w')
    × IsTurn 2 none tid
    × IsHanded w' ys ps
    × ((t : ℕ) → waiting w' ps t ≡ behind tid (7, 1) (waiting idle nothing) t)
    × (w'.last_thread ≡ some tid)
dispatch_lem_example = dispatch_lem 2 (1 == 1) 7 1 idle [] nothing idle-IsHanded (omega arith)

-- Two values of the workers: the first one's, and that of all others.
abbrev first : {A : Type 0} → A → A → ℕ → A
first a b zero = a
first a b (suc t) = b

abbrev woken : Workers
woken = record {
  items = items;
  free = record { allocated = 1; cqi_freelist = none };
  queues = first (record { head = some 0; tail = some 0 }) conn_queue_init;
  pipes = first 1 0;
  last_thread = some 0;
  pool = pool;
  closed = [];
}

abbrev first_only : ℕ → List ℕ
first_only = first (0 ∷ []) []

first_only-IsQueue : (t : ℕ) → IsQueue items (woken.queues t) (first_only t)
first_only-IsQueue zero = record { chain = (refl, refl); ends = refl; distinct = (tt, tt) }
first_only-IsQueue (suc t) = record { chain = refl; ends = refl; distinct = tt }

first_only-owned : (t : ℕ) → All (λ x. (x < 1) × NotIn x []) (first_only t)
first_only-owned zero = ((omega arith, tt), tt)
first_only-owned (suc t) = tt

first_only-apart : (t u : ℕ) → t ≢ u → All (λ x. NotIn x (first_only u)) (first_only t)
first_only-apart zero zero n = absurd (n refl)
first_only-apart zero (suc u) n = (tt, tt)
first_only-apart (suc t) zero n = tt
first_only-apart (suc t) (suc u) n = tt

woken-IsHanded : IsHanded woken [] first_only
woken-IsHanded = record {
  free = record { chain = refl; distinct = tt; below = tt };
  queues = first_only-IsQueue;
  owned = first_only-owned;
  apart = first_only-apart;
}

process_lem_example : Takes 0 7 1 [] woken (waiting woken first_only) (λ c. false)
process_lem_example =
    process_lem woken [] first_only 0 0 7 1 [] [] (λ c. false) woken-IsHanded
      (initial-IsPool (λ x. blank)) refl refl
