-- ===== src/User/Sessions.antt =====
-- The first beacon of a session stores the user's socket; a later one under another session does not.
use alarm.Base.{◌≡◌, refl, ap, ◌∙◌, Bool, true, false, not, Option, none, some, if◌then◌else◌}
use alarm.Base.Bytes.{Bytes, bytes_eq, bytes_eq_refl}
use alarm.Base.Int.{ℤ, pos, neg}
use alarm.Base.Run.{Run, pure, >>=-some}
use alarm.Errors.{error_session_id_not_exist}
use alarm.Redis.{Redis}
use alarm.Redis.Commands.{print_int, Unbroken}
use alarm.User.{UserEnv, UserServer, on_redis, forget_fd, go_online, user_beacon}
use alarm.User.Cache.{session_key, set_guid_fd_cache, remove_guid_fd_from_cache, check_session_id}
use alarm.User.Serving.{UserServes, Same, set_lem, remove_lem, check_lem, check_answer}

-- The connection after a beacon of the session `guid`, and the redis that is left.
abbrev pub seen : {S : Type 0} → Bool → Bytes → Redis S → UserServer S → UserServer S
seen is_online guid r w = record w {
  conn = record { sfd = w.conn.sfd; is_online = is_online; guid = guid };
  redis = r;
}

module _ {S : Type 0} (env : UserEnv S) where
  on_redis-some :
      {A : Type 0} (m : Run (Redis S) A) (w : UserServer S) (a : A) (r : Redis S)
      → m w.redis ≡ some (a, r)
      → on_redis env m w ≡ some (a, record w { redis = r })
  on_redis-some {A = A} m w a r e =
      ap
        (λ (o : Option (A × Redis S)). elim o [
          | none ↦ none
          | some (b, r') ↦ some (b, record w { redis = r' })
        ])
        e

  check : Bytes → Run (UserServer S) ℤ
  check guid = on_redis env (check_session_id env.connects env.redis_command guid)

  named : Bytes → UserServer S → UserServer S
  named guid w = seen w.conn.is_online guid w.redis w

  beacon-checked :
      (guid : Bytes) (w : UserServer S) (r : Redis S)
      → check_session_id env.connects env.redis_command guid w.redis ≡ some (pos 0, r)
      → user_beacon env (pos 0) guid w ≡ go_online env guid (seen w.conn.is_online guid r w)
  unfolding user_beacon check named
  beacon-checked guid w r e =
      >>=-some (check guid) _ (named guid w) (seen w.conn.is_online guid r w) (pos 0) (
        on_redis-some (check_session_id env.connects env.redis_command guid) (named guid w) (pos 0)
          r e)

  stores :
      (guid : Bytes) (w : UserServer S) (r' : Redis S)
      → w.conn.is_online ≡ false
      → set_guid_fd_cache env.connects env.redis_command w.conn.guid w.conn.sfd w.redis
        ≡ some (pos 0, r')
      → go_online env guid w ≡ some (pos 0, seen true w.conn.guid r' w)
  unfolding go_online
  stores guid w r' off e =
      rw (off, go_online)
        (>>=-some
          (on_redis env (set_guid_fd_cache env.connects env.redis_command w.conn.guid w.conn.sfd)) _
          (seen true w.conn.guid w.redis w) (seen true w.conn.guid r' w) (pos 0)
          (on_redis-some (set_guid_fd_cache env.connects env.redis_command w.conn.guid w.conn.sfd)
            (seen true w.conn.guid w.redis w) (pos 0) r' e))

  neither :
      (b c : Bool) (m n : Run (UserServer S) ℤ) (w : UserServer S)
      → b ≡ true
      → c ≡ true
      → (if not b then m else if not c then n else pure (pos 0)) w ≡ some (pos 0, w)
  neither true true m n w e f = refl
  neither true false m n w e f = cc
  neither false c m n w e f = cc

  idles :
      (guid : Bytes) (w : UserServer S)
      → w.conn.is_online ≡ true
      → w.conn.guid ≡ guid
      → go_online env guid w ≡ some (pos 0, w)
  unfolding go_online
  idles guid w on same =
      neither w.conn.is_online (bytes_eq w.conn.guid guid) _ _ w on
        (ap (λ (g : Bytes). bytes_eq g guid) same ∙ bytes_eq_refl guid)

  refused :
      (guid : Bytes) (w : UserServer S) (r r' : Redis S)
      → check_session_id env.connects env.redis_command guid w.redis
        ≡ some (neg error_session_id_not_exist, r)
      → remove_guid_fd_from_cache env.connects env.redis_command guid r ≡ some (pos 0, r')
      → user_beacon env (pos 0) guid w ≡ some (neg error_session_id_not_exist, seen false guid r' w)
  unfolding user_beacon check named
  refused guid w r r' e f =
      >>=-some (check guid) _ (named guid w) (seen w.conn.is_online guid r w)
        (neg error_session_id_not_exist)
        (on_redis-some (check_session_id env.connects env.redis_command guid) (named guid w)
          (neg error_session_id_not_exist) r e)
      ∙ >>=-some (forget_fd env guid) (λ ret. pure (neg error_session_id_not_exist))
          (seen false guid r w) (seen false guid r' w) (pos 0)
          (on_redis-some (remove_guid_fd_from_cache env.connects env.redis_command guid)
            (seen false guid r w) (pos 0) r' f)

  module _ (serves : UserServes env.connects env.redis_command) (guid : Bytes) (w : UserServer S)
      (unbroken : Unbroken w.redis) where
    -- Whether the session exists, and what is stored for each.
    abbrev pub in_force : Bool
    in_force = serves.is_session (session_key guid) w.redis.server

    abbrev pub fd_of : Bytes → S → Option Bytes
    fd_of = serves.fd_of

    checked :
        (b : Bool)
        → in_force ≡ b
        → (r : Redis S) × (check_session_id env.connects env.redis_command guid w.redis
            ≡ some (check_answer env.connects env.redis_command serves b, r))
          × Unbroken r
          × Same env.connects env.redis_command serves w.redis.server r.server
    checked b h =
        let (r, e, u, same) =
          check_lem env.connects env.redis_command serves guid w.redis unbroken in
        (
          r,
          e ∙ ap (λ (c : Bool). some (check_answer env.connects env.redis_command serves c, r)) h,
          u,
          same,
        )

    -- With a redis that serves, the first beacon of a session that exists is answered with 0, the connection
    -- is online under the session, and its socket is stored for it; no other session's is touched. A
    -- session that does not exist is refused with its error, the connection is not online, and what was
    -- stored for the session is removed.
    pub first_beacon :
        w.conn.is_online ≡ false
        → (r : Redis S) × (user_beacon env (pos 0) guid w ≡ (
            if in_force
            then some (pos 0, seen true guid r w)
            else some (neg error_session_id_not_exist, seen false guid r w)))
          × ((h : Bytes)
              → fd_of h r.server ≡ (
                  if bytes_eq guid h
                  then (if in_force then some (print_int w.conn.sfd) else none)
                  else fd_of h w.redis.server))
    first_beacon off = by_session in_force refl
      where
        by_session :
            (b : Bool)
            → in_force ≡ b
            → (r : Redis S) × (user_beacon env (pos 0) guid w ≡ (
                if in_force
                then some (pos 0, seen true guid r w)
                else some (neg error_session_id_not_exist, seen false guid r w)))
              × ((h : Bytes)
                  → fd_of h r.server ≡ (
                      if bytes_eq guid h
                      then (if in_force then some (print_int w.conn.sfd) else none)
                      else fd_of h w.redis.server))
        by_session true h =
            let (r, e, u, same) = checked true h in
            let (r', f, u', v) =
              set_lem env.connects env.redis_command serves guid w.conn.sfd r u in
            (
              r',
              rw h (
                  beacon-checked guid w r e
                  ∙ stores guid (seen w.conn.is_online guid r w) r' off f),
              λ k. rw h ((v k).0 ∙ rw (same k).0 refl),
            )
        by_session false h =
            let (r, e, u, same) = checked false h in
            let (r', f, u', v) = remove_lem env.connects env.redis_command serves guid r u in
            (r', rw h (refused guid w r r' e f), λ k. rw h ((v k).0 ∙ rw (same k).0 refl))

    -- With a redis that serves, a beacon of a session that exists, on a connection that is online already,
    -- is answered with 0 and puts the connection under that session, but stores nothing and removes nothing:
    -- a user whose session has changed is found under the old one only.
    pub session_change_lost :
        w.conn.is_online ≡ true
        → in_force ≡ true
        → (r : Redis S) × (user_beacon env (pos 0) guid w ≡ some (pos 0, seen true guid r w))
          × ((h : Bytes) → fd_of h r.server ≡ fd_of h w.redis.server)
    session_change_lost on there =
        let (r, e, u, same) = checked true there in
        (
          r,
          beacon-checked guid w r e
              ∙ idles guid (seen w.conn.is_online guid r w) on refl
              ∙ ap (λ (b : Bool). some (pos 0, seen b guid r w)) on,
          λ h. (same h).0,
        )
