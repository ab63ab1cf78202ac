-- ===== src/ConnPool.antt =====
-- deviceOnline/src/worker_threads.cc (userOnline/src has the same code, without `is_login`): the list of free connections, a
-- vector that is used as a stack, and `conn_new` and `conn_close`. A `conn *` is a number, in the order
-- of creation, NULL is `none`, and the result `none` is an exception of `at`. Left out: a `new` that
-- runs out of memory, and more connections than an `int` counts.
pub mod Stack
pub mod Obtaining
pub mod Ownership
mod Tests
use alarm.Base.{
  ℕ, zero, suc, ◌+◌, ◌-◌, ◌*◌, Bool, true, false, List, [], ◌∷◌, ◌++◌, Option, none, some, take,
  length, get_elem?, ltb, ◌==◌, if◌then◌else◌,
}
use alarm.Base.Bytes.{Bytes}
use alarm.Base.Run.{Run, ◌>>=◌, ◌>>◌, pure}

pub record FreeConns : Type 0 where
  pub vec_freeconn : List (Option ℕ)
  pub freetotal : ℕ
  pub freecurr : ℕ

-- `vector::resize` puts NULL in the new places.
unfoldable pub resize : ℕ → List (Option ℕ) → List (Option ℕ)
resize zero vec = []
resize (suc n) [] = none ∷ resize n []
resize (suc n) (x ∷ vec) = x ∷ resize n vec

-- `vec.at(i) = c`
unfoldable pub put_at : ℕ → Option ℕ → List (Option ℕ) → Option (List (Option ℕ))
put_at i c [] = none
put_at zero c (x ∷ vec) = some (c ∷ vec)
put_at (suc i) c (x ∷ vec) = elim (put_at i c vec) [ none ↦ none | some vec' ↦ some (x ∷ vec') ]

unfoldable pub conn_init : FreeConns
unfolding resize
conn_init = record { vec_freeconn = resize 200 []; freetotal = 200; freecurr = 0 }

unfoldable pub conn_from_freelist : Run FreeConns (Option ℕ)
conn_from_freelist f =
    if ltb 0 f.freecurr
    then elim (get_elem? f.vec_freeconn (f.freecurr - 1)) [
      | none ↦ none
      | some c ↦ some (c, record f { freecurr = f.freecurr - 1 })
    ]
    else some (none, f)

-- The part behind the choice of the size.
unfoldable pub put_free : ℕ → FreeConns → Option (Bool × FreeConns)
unfolding put_at
put_free c f = elim (put_at f.freecurr (some c) f.vec_freeconn) [
  | none ↦ none
  | some vec ↦ some (true, record f { vec_freeconn = vec; freecurr = suc f.freecurr })
]

unfoldable pub conn_add_to_freelist : ℕ → Run FreeConns Bool
unfolding put_free resize
conn_add_to_freelist c f =
    if ltb f.freecurr f.freetotal
    then put_free c f
    else put_free c (record f {
      vec_freeconn = resize (f.freetotal * 2) f.vec_freeconn;
      freetotal = f.freetotal * 2;
    })

-- `conn`, without its buffers.
pub record PooledConn : Type 0 where
  pub sfd : ℕ
  pub id : ℕ
  pub rlen : ℕ
  pub wlen : ℕ
  pub is_verify : Bool
  pub thread : ℕ
  pub is_login : Bool
  pub is_online : Bool
  pub dev_id : Bytes

-- `freed` has the connections on which `conn_free` was called.
pub record Pool : Type 0 where
  pub free : FreeConns
  pub allocated : ℕ
  pub conns : ℕ → PooledConn
  pub freed : List ℕ

abbrev pub in_free : {A : Type 0} → Run FreeConns A → Run Pool A
in_free m p = elim (m p.free) [ none ↦ none | some (a, f) ↦ some (a, record p { free = f }) ]

abbrev pub set_conn : ℕ → PooledConn → (ℕ → PooledConn) → ℕ → PooledConn
set_conn c v conns x = if x == c then v else conns x

-- The connection from the list, or a new one.
unfoldable pub obtain : Run Pool ℕ
unfolding conn_from_freelist
obtain = do
  c ← in_free conn_from_freelist
  elim c [
    | some c ↦ pure c
    | none ↦ λ (p : Pool). some (p.allocated, record p { allocated = suc p.allocated })
  ]

-- What `conn_new` writes: `dev_id` stays.
abbrev pub opened : ℕ → ℕ → ℕ → PooledConn → PooledConn
opened sfd id thread v = record v {
  sfd = sfd;
  id = id;
  rlen = 0;
  wlen = 0;
  is_verify = true;
  thread = thread;
  is_login = false;
  is_online = false;
}

abbrev pub write_conn : ℕ → (PooledConn → PooledConn) → Run Pool (Unit {0})
write_conn c f p = some (tt, record p { conns = set_conn c (f (p.conns c)) p.conns })

-- Back on the list, or freed.
unfoldable pub give_back : ℕ → Run Pool (Unit {0})
unfolding conn_add_to_freelist
give_back c = do
  added ← in_free (conn_add_to_freelist c)
  if added then pure tt else λ (p : Pool). some (tt, record p { freed = c ∷ p.freed })

-- libevent: whether `bufferevent_socket_new` makes one.
unfoldable pub conn_new : Bool → ℕ → ℕ → ℕ → Run Pool (Option ℕ)
unfolding obtain give_back
conn_new made sfd id thread = do
  c ← obtain
  write_conn c (opened sfd id thread)
  if made then pure (some c) else (do give_back c; pure none)

-- Without `bufferevent_free`, libevent's.
unfoldable pub conn_close : ℕ → Run Pool (Unit {0})
unfolding give_back
conn_close c = give_back c
