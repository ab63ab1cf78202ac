-- ===== src/Device/Session.antt =====
-- A device's session: what its login stores, and what is left of it when the connection ends.
use alarm.Base.{
  ℕ, ◌≡◌, refl, ap, ◌∙◌, true, false, [], ◌∷◌, ◌&&◌, ◌==◌, ◌++◌, Option, none, some, if◌then◌else◌,
  if_true,
}
use alarm.Base.Bytes.{Bytes, bytes_eq}
use alarm.Base.Int.{pos, neg}
use alarm.Base.Maps.{nat_eq, erase}
use alarm.Base.Run.{Run, >>=-some}
use alarm.Device.{
  Conn, Env, Server, peer, no_peer, in_redis, own_addresses, register_device, device_login,
  device_beacon, client_tcp_error_cb, cleared,
}
use alarm.Errors.{error_device_not_login}
use alarm.Redis.{Redis, Field, field_fd}
use alarm.Redis.Addresses.{Holds, set_addr_lem, remove_device_lem}
use alarm.Redis.Cache.{
  Addresses, set_device_fd_cache, set_device_addr_cache, remove_device_from_cache,
}
use alarm.Redis.Commands.{Serves, Unbroken, print_int, value}
use alarm.Redis.Store.{set_fd_lem}

module _ {S : Type 0} (env : Env S) where
  abbrev pub logged_in : Bytes → Conn → Conn
  logged_in dev_id c = record c { is_login = true; dev_id = dev_id }

  pub in_redis-some :
      {A : Type 0} (m : Run (Redis S) A) (w : Server S) (r' : Redis S) (a : A)
      → m w.redis ≡ some (a, r')
      → in_redis env m w ≡ some (a, record w { redis = r' })
  in_redis-some {A = A} m w r' a e =
      ap
        (λ (o : Option (A × Redis S)). elim o [
          | none ↦ none
          | some (b, r) ↦ some (b, record w { redis = r })
        ])
        e

  -- A device that fails to log in because its address cannot be found is logged in nevertheless: the
  -- next login on the connection is answered with 0, and nothing is stored of the device, nor is
  -- anyone told.
  pub failed_login_accepted :
      (dev_id again : Bytes) (errno : ℕ) (w : Server S)
      → w.conn.is_login ≡ false
      → env.getpeername w.conn.sfd ≡ no_peer errno
      → let w' : Server S = record w { conn = logged_in dev_id (w.conn) } in
        (device_login env dev_id w ≡ some (neg errno, w'))
        × (device_login env again w' ≡ some (pos 0, w'))
  unfolding device_login
  failed_login_accepted dev_id again errno w out e = (rw (out, e) refl, refl)

  -- A connection that ends without a beacon after the login leaves what redis has of the device, and
  -- no one is told that it is gone; a beacon before the login is refused.
  pub no_beacon_no_cleanup :
      (w : Server S)
      → w.conn.is_online ≡ false
      → (client_tcp_error_cb env w
          ≡ some (tt, cleared env (record w { csfd_ids = erase w.conn.sfd w.csfd_ids })))
        × (w.conn.is_login ≡ false
            → device_beacon env (pos 0) w ≡ some (neg error_device_not_login, w))
  unfolding client_tcp_error_cb device_beacon
  no_beacon_no_cleanup w off = (rw off refl, λ out. rw out refl)

module _ {S : Type 0} (env : Env S) (serves : Serves env.connects env.redis_command) where
  -- The server's own addresses with the ports 15030 and 15031, and the device's.
  abbrev pub addresses : Bytes → Addresses
  addresses ip = record {
    public_addr = env.public_addr ++ (58 ∷ 49 ∷ 53 ∷ 48 ∷ 51 ∷ 48 ∷ []);
    private_addr = env.private_addr ++ (58 ∷ 49 ∷ 53 ∷ 48 ∷ 51 ∷ 49 ∷ []);
    dev_ip = ip;
  }

  -- Redis has the device's socket and addresses, as a login stores them.
  abbrev pub Registered : Bytes → ℕ → Bytes → S → Type 0
  Registered dev_id sfd ip s =
      (value env.connects env.redis_command serves dev_id field_fd s ≡ some (print_int sfd))
      × Holds env.connects env.redis_command serves dev_id (addresses ip) s

  abbrev pub after_login : Bytes → Redis S → Server S → Server S
  after_login dev_id r w = record w {
    conn = logged_in env dev_id (w.conn);
    redis = r;
    notices = (dev_id, true) ∷ w.notices;
  }

  -- With a redis server that serves, the first login of a connection whose address is known is answered
  -- with 0: redis has the device's socket and addresses in the database of the devices, whatever a context had
  -- selected before, the connection is logged in as the device, and
  -- the device is announced as online.
  pub device_login_lem :
      (dev_id ip : Bytes) (w : Server S)
      → w.conn.is_login ≡ false
      → env.getpeername w.conn.sfd ≡ peer ip
      → Unbroken w.redis
      → (r : Redis S) × (device_login env dev_id w ≡ some (pos 0, after_login dev_id r w))
        × Unbroken r
        × Registered dev_id w.conn.sfd ip r.server
  unfolding device_login register_device
  device_login_lem dev_id ip w out p u =
      let (r1, e1, u1, f1) =
        set_fd_lem env.connects env.redis_command serves dev_id w.conn.sfd w.redis u in
      let (r2, e2, u2, s2) =
        set_addr_lem env.connects env.redis_command serves dev_id (own_addresses env ip) r1 u1 in
      let w0 : Server S = record w { conn = logged_in env dev_id (w.conn) } in
      let w1 : Server S = record w0 { redis = r1 } in
      let w2 : Server S = record w0 { redis = r2 } in
      (
        r2,
        rw (out, p)
            (>>=-some
                (in_redis env
                  (set_device_fd_cache env.connects env.redis_command dev_id w.conn.sfd))
                _ w0 w1 (pos 0)
                (in_redis-some env
                  (set_device_fd_cache env.connects env.redis_command dev_id w.conn.sfd) w0 r1
                  (pos 0) e1)
              ∙ >>=-some
                  (in_redis env (
                    set_device_addr_cache env.connects env.redis_command dev_id
                      (own_addresses env ip)))
                  _ w1 w2 (pos 0)
                  (in_redis-some env
                    (set_device_addr_cache env.connects env.redis_command dev_id
                      (own_addresses env ip))
                    w1 r2 (pos 0) e2)),
        u2,
        (s2.1 dev_id ∙ f1, s2.0),
      )

  -- With a redis server that serves, the end of a connection that is online as a device removes all of the
  -- device's fields from redis, in the database of the devices, and nothing else; the device is announced
  -- as offline, and the connection is taken out of the table, is neither logged in nor online nor of a
  -- device any longer, and is closed.
  pub online_cleanup :
      (w : Server S)
      → w.conn.is_online ≡ true
      → Unbroken w.redis
      → (r : Redis S) × (client_tcp_error_cb env w
          ≡ some (
            tt,
            record w {
              conn = record (w.conn) { is_login = false; is_online = false; dev_id = [] };
              csfd_ids = erase w.conn.sfd w.csfd_ids;
              redis = r;
              notices = (w.conn.dev_id, false) ∷ w.notices;
              closed = true;
            },
          ))
        × Unbroken r
        × ((m : ℕ) (d : Bytes) (f : Field)
            → serves.value m d f r.server ≡ (
                if (m == 6) && bytes_eq w.conn.dev_id d
                then none
                else serves.value m d f w.redis.server))
  unfolding client_tcp_error_cb
  online_cleanup w on u =
      let (r, e, v, gone) =
        remove_device_lem env.connects env.redis_command serves w.conn.dev_id w.redis u in
      let w1 : Server S = record w { csfd_ids = erase w.conn.sfd w.csfd_ids } in
      (
        r,
        if_true _ _ on
            ∙ (>>=-some
                (in_redis env
                  (remove_device_from_cache env.connects env.redis_command w.conn.dev_id))
                _ w1 (record w1 { redis = r }) (pos 0)
                (in_redis-some env
                  (remove_device_from_cache env.connects env.redis_command w.conn.dev_id) w1 r
                  (pos 0) e)),
        v,
        gone,
      )
