-- ===== src/ConnPool/Ownership.antt =====
-- Which connections are open, and which are free: no connection is handed out while it is open.
use alarm.Base.{
  ℕ, ◌<◌, ◌≡◌, ◌≢◌, refl, ap, ◌∙◌, Bool, true, false, List, [], ◌∷◌, ◌++◌, none, some, arith,
  All-append, All-map, ◌==◌, if◌then◌else◌,
}
use alarm.Base.Run.{pure, >>=-some}
use alarm.ConnPool.{
  FreeConns, conn_init, PooledConn, Pool, set_conn, obtain, opened, give_back, conn_new, conn_close,
}
use alarm.ConnPool.Obtaining.{IsPool, All-with-NotIn, NotIn_of_All, obtain_lem, give_back_lem}
use alarm.ConnPool.Stack.{conn_init_lem}
use alarm.ConnQueue.Chain.{NotIn}
use alarm.ConnQueue.Fifo.{Distinct-snoc}

abbrev pub opening : ℕ → (ℕ → Bool) → ℕ → Bool
opening c is_open x = if x == c then true else is_open x

abbrev pub closing : ℕ → (ℕ → Bool) → ℕ → Bool
closing c is_open x = if x == c then false else is_open x

-- A connection as one that was just accepted finds it; the device's name is what it was.
pub record IsNew (sfd id thread : ℕ) (old new : PooledConn) : Type 0 where
  pub its_sfd : new.sfd ≡ sfd
  pub its_id : new.id ≡ id
  pub its_thread : new.thread ≡ thread
  pub nothing_read : new.rlen ≡ 0
  pub nothing_to_write : new.wlen ≡ 0
  pub verified : new.is_verify ≡ true
  pub not_login : new.is_login ≡ false
  pub not_online : new.is_online ≡ false
  pub same_dev_id : new.dev_id ≡ old.dev_id

-- What `conn_new` leaves: `p'` differs from `p` in the connection `c` only, which is as a new one.
abbrev pub OnlyOpened : ℕ → ℕ → ℕ → ℕ → Pool → Pool → Type 0
OnlyOpened c sfd id thread p p' =
    IsNew sfd id thread (p.conns c) (p'.conns c)
    × ((z : ℕ) → z ≢ c → p'.conns z ≡ p.conns z)
    × (p'.freed ≡ p.freed)

opened-IsNew :
    (sfd id thread : ℕ) (old : PooledConn) → IsNew sfd id thread old (opened sfd id thread old)
opened-IsNew sfd id thread old = record {
  its_sfd = refl;
  its_id = refl;
  its_thread = refl;
  nothing_read = refl;
  nothing_to_write = refl;
  verified = refl;
  not_login = refl;
  not_online = refl;
  same_dev_id = refl;
}

-- `obtain` and the writes of `conn_new`.
abbrev written : ℕ → ℕ → ℕ → ℕ → Pool → Pool
written c sfd id thread p = record p {
  conns = set_conn c (opened sfd id thread (p.conns c)) p.conns;
}

conn_new-made :
    (p p' : Pool) (c sfd id thread : ℕ)
    → obtain p ≡ some (c, p')
    → conn_new true sfd id thread p ≡ some (some c, written c sfd id thread p')
unfolding conn_new
conn_new-made p p' c sfd id thread e = >>=-some obtain _ p p' c e

conn_new-failed :
    (p p' : Pool) (f : FreeConns) (c sfd id thread : ℕ)
    → obtain p ≡ some (c, p')
    → give_back c (written c sfd id thread p')
      ≡ some (tt, record (written c sfd id thread p') { free = f })
    → conn_new false sfd id thread p ≡ some (none, record (written c sfd id thread p') { free = f })
unfolding conn_new
conn_new-failed p p' f c sfd id thread e g =
    >>=-some obtain _ p p' c e
    ∙ >>=-some (give_back c) (λ _. pure none) (written c sfd id thread p')
        (record (written c sfd id thread p') { free = f }) tt g

written_lem :
    (c sfd id thread : ℕ) (p p' q : Pool)
    → p'.conns ≡ p.conns
    → p'.freed ≡ p.freed
    → q.conns ≡ (written c sfd id thread p').conns
    → q.freed ≡ p'.freed
    → OnlyOpened c sfd id thread p q
written_lem c sfd id thread p p' q a b d e = (
  rw (is_new ∙ ap (λ f. opened sfd id thread (f c)) a) (opened-IsNew sfd id thread (p.conns c)),
  λ z n. rw (d, a) (ground arith),
  e ∙ b,
)
  where
    is_new : q.conns c ≡ opened sfd id thread (p'.conns c)
    is_new = rw d (ground arith)

-- Where the bufferevent is made, the connection that `conn_new` gives was not open; it has the socket, the id
-- and the thread, nothing is read or to be written, it is verified and neither logged in nor online, only
-- its device's name stays what it was, and no other connection is touched. It is open now, and not free.
pub conn_new_lem :
    (p : Pool) (xs : List ℕ) (is_open : ℕ → Bool) (sfd id thread : ℕ)
    → IsPool p xs is_open
    → (c : ℕ) × (p' : Pool) × (ys : List ℕ) × (conn_new true sfd id thread p ≡ some (some c, p'))
      × (is_open c ≡ false)
      × IsPool p' ys (opening c is_open)
      × OnlyOpened c sfd id thread p p'
conn_new_lem p xs is_open sfd id thread v =
    let (c, p', ys, o) = obtain_lem p xs is_open v in
    (
      c,
      written c sfd id thread p',
      ys,
      conn_new-made p p' c sfd id thread o.run,
      o.not_open,
      record {
        stack = o.stack;
        distinct = o.distinct;
        idle =
            All-with-NotIn (λ x. (is_open x ≡ false) × (x < p'.allocated))
              (λ x. (opening c is_open x ≡ false) × (x < p'.allocated)) c ys
              (λ x n h. (ground (arith, h.0), h.1)) o.apart o.idle;
        below = λ x e. ground (arith, o.here, o.more, v.below x);
      },
      written_lem c sfd id thread p p' (written c sfd id thread p') o.conns o.freed refl refl,
    )

-- Where it is not made, NULL is given and no connection is opened: the one that was obtained is free.
pub conn_new_fails :
    (p : Pool) (xs : List ℕ) (is_open : ℕ → Bool) (sfd id thread : ℕ)
    → IsPool p xs is_open
    → (c : ℕ) × (p' : Pool) × (ys : List ℕ) × (conn_new false sfd id thread p ≡ some (none, p'))
      × (is_open c ≡ false)
      × IsPool p' (ys ++ (c ∷ [])) is_open
      × OnlyOpened c sfd id thread p p'
conn_new_fails p xs is_open sfd id thread v =
    let (c, p', ys, o) = obtain_lem p xs is_open v in
    let (f, back, st) = give_back_lem (written c sfd id thread p') c ys o.stack in
    let q = record (written c sfd id thread p') { free = f } in
    (
      c,
      q,
      ys,
      conn_new-failed p p' f c sfd id thread o.run back,
      o.not_open,
      record {
        stack = st;
        distinct = Distinct-snoc c ys o.distinct o.apart;
        idle = All-append _ ys (c ∷ []) o.idle ((o.not_open, o.here), tt);
        below = λ x e. omega (arith, o.more, v.below x e);
      },
      written_lem c sfd id thread p p' q o.conns o.freed refl refl,
    )

-- An open connection that is closed is free, on top of the others, and is not open any longer; nothing is
-- deleted, and no connection is touched.
pub conn_close_lem :
    (p : Pool) (xs : List ℕ) (is_open : ℕ → Bool) (c : ℕ)
    → IsPool p xs is_open
    → is_open c ≡ true
    → (p' : Pool) × (conn_close c p ≡ some (tt, p'))
      × IsPool p' (xs ++ (c ∷ [])) (closing c is_open)
      × (p'.conns ≡ p.conns)
      × (p'.freed ≡ p.freed)
unfolding conn_close
conn_close_lem p xs is_open c v e =
    let (f, run, st) = give_back_lem p c xs v.stack in
    let apart : NotIn c xs =
      NotIn_of_All (λ x. (is_open x ≡ false) × (x < p.allocated)) c xs
        (λ x h same. cc (h.0, same, e)) v.idle in
    (
      record p { free = f },
      run,
      record {
        stack = st;
        distinct = Distinct-snoc c xs v.distinct apart;
        idle =
            All-append _ xs (c ∷ [])
              (All-map (λ x. (is_open x ≡ false) × (x < p.allocated))
                (λ x. (closing c is_open x ≡ false) × (x < p.allocated)) xs
                (λ x h. (ground (arith, h.0), h.1)) v.idle)
              ((ground arith, v.below c e), tt);
        below = λ x h. v.below x (ground (arith, h));
      },
      refl,
      refl,
    )

pub initial-IsPool :
    (conns : ℕ → PooledConn)
    → IsPool (record { free = conn_init; allocated = 0; conns = conns; freed = [] }) [] (λ c. false)
initial-IsPool conns = record { stack = conn_init_lem; distinct = tt; idle = tt; below = λ c e. cc }
