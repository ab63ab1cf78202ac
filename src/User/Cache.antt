-- ===== src/User/Cache.antt =====
-- userOnline/src/logic_opt.cc: what `CLogicOpt` keeps of a user in redis, the socket under the session's
-- id, and its look at the sessions. The result of `SelectDB` is not looked at.
use alarm.Base.{ℕ, Bool, [], ◌∷◌, ◌++◌, Option, none, some, if◌then◌else◌}
use alarm.Base.Bytes.{Bytes}
use alarm.Base.Int.{ℤ, pos, neg}
use alarm.Base.Run.{Run, ◌>>=◌, pure}
use alarm.Errors.{error_set_guid_fd_cache, error_session_id_not_exist}
use alarm.Redis.{Redis, Command, Reply, get_redis_context, release_redis_context, select_db, del}
use alarm.Redis.Cache.{atoi}
use alarm.Redis.Opt.{set_number, get_value, hexists}

-- `SESSION`
abbrev pub session : ℕ
session = 0

-- `REDIS_CLIENT_INFO`
abbrev pub redis_client_info : ℕ
redis_client_info = 7

-- `"sess:" + guid`
abbrev pub session_key : Bytes → Bytes
session_key guid = (115 ∷ 101 ∷ 115 ∷ 115 ∷ 58 ∷ []) ++ guid

-- `"username"`
abbrev pub username : Bytes
username = 117 ∷ 115 ∷ 101 ∷ 114 ∷ 110 ∷ 97 ∷ 109 ∷ 101 ∷ []

module _ {S : Type 0} (connects : ℕ → S → Bool)
    (redis_command : ℕ → Command → S → Option Reply × S) where
  -- The frame of the four functions.
  unfoldable pub with_database : {A : Type 0} → ℕ → (ℕ → Run (Redis S) A) → Run (Redis S) A
  with_database db f = do
    conn ← get_redis_context connects
    selected ← select_db redis_command conn db
    a ← f conn
    (λ (r : Redis S). some (a, release_redis_context conn r))

  unfoldable pub set_guid_fd_cache : Bytes → ℕ → Run (Redis S) ℤ
  unfolding with_database
  set_guid_fd_cache guid fd = with_database redis_client_info (λ conn. do
    ok ← set_number redis_command conn guid (pos fd)
    pure (if ok then pos 0 else neg error_set_guid_fd_cache))

  -- The file descriptor, or `none` for the error code.
  unfoldable pub get_guid_fd_from_cache : Bytes → Run (Redis S) (Option ℤ)
  unfolding with_database atoi
  get_guid_fd_from_cache guid = with_database redis_client_info (λ conn. do
    fd_str ← get_value redis_command conn guid
    elim fd_str [ none ↦ pure none | some s ↦ pure (some (atoi s)) ])

  unfoldable pub remove_guid_fd_from_cache : Bytes → Run (Redis S) ℤ
  unfolding with_database
  remove_guid_fd_from_cache guid =
      with_database redis_client_info (λ conn. do ok ← del redis_command conn guid; pure (pos 0))

  unfoldable pub check_session_id : Bytes → Run (Redis S) ℤ
  unfolding with_database
  check_session_id guid = with_database session (λ conn. do
    there ← hexists redis_command conn (session_key guid) username
    pure (if there then pos 0 else neg error_session_id_not_exist))
