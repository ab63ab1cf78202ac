-- ===== src/Redis.antt =====
-- deviceOnline/src/redis_conn_pool.cc and redis_opt.cc (userOnline/src has the same code, but for `Hget`): the
-- pool of connections to redis, and the commands that the device cache uses. A `redisContext *` is a number,
-- in the order of creation; `freed` has those that `redisFree` was called on. hiredis and the server
-- behind it are the parameters `redis_command` and `connects`. `none` is a failed assertion or the use
-- of a freed context. The pool's mutex makes getting and releasing a context one step each.
pub mod Pool
pub mod Cache
pub mod Commands
pub mod Store
pub mod Addresses
pub mod Broken
pub mod Scanning
pub mod Answers
pub mod Opt
pub mod Replies
pub mod Example
mod Tests
use alarm.Base.{
  ℕ, zero, suc, Bool, true, false, List, [], ◌∷◌, ◌++◌, Option, none, some, ◌==◌, ◌||◌,
  if◌then◌else◌,
}
use alarm.Base.Bytes.{Bytes}
use alarm.Base.Int.{ℤ}
use alarm.Base.Run.{Run, ◌>>=◌, ◌>>◌, pure, fault}

-- `REDIS_FIELD_FD` and the others of a device's hash.
pub data Field : Type 0 where
  field_fd : Field
  field_public_addr : Field
  field_private_addr : Field
  field_dev_ip : Field

-- The commands by their format strings and arguments; `HSET` with %d and with %s, `SET` with %s, %d
-- and %ld. A `text` is a format string that was put together; hiredis cuts it at its spaces.
pub data Command : Type 0 where
  select : ℕ → Command
  hset_int : Bytes → Field → ℕ → Command
  hset_str : Bytes → Field → Bytes → Command
  hget_field : Bytes → Field → Command
  hdel_field : Bytes → Field → Command
  del_key : Bytes → Command
  set_string : Bytes → Bytes → Command
  set_int : Bytes → ℤ → Command
  set_long : Bytes → ℤ → Command
  get_key : Bytes → Command
  incr_key : Bytes → Command
  lpush_key : Bytes → Bytes → Command
  rpush_key : Bytes → Bytes → Command
  lpop_key : Bytes → Command
  llen_key : Bytes → Command
  lrange_key : Bytes → Command
  sadd_key : Bytes → Bytes → Command
  smembers_key : Bytes → Command
  hvals_key : Bytes → Command
  hlen_key : Bytes → Command
  hexists_field : Bytes → Bytes → Command
  expire_key : Bytes → ℤ → Command
  exists_key : Bytes → Command
  scan_from : ℤ → Command
  hscan_from : ℤ → Command
  text : Bytes → Command

-- `redisReply`, by its type; NULL is `none` of an Option. `Elements` is `element` of an array.
mutual
  pub data Reply : Type 0 where
    reply_integer : ℤ → Reply
    reply_status : Bytes → Reply
    reply_string : Bytes → Reply
    reply_nil : Reply
    reply_error : Bytes → Reply
    reply_array : Elements → Reply

  pub data Elements : Type 0 where
    no_elements : Elements
    element : Reply → Elements → Elements
    null_element : Elements → Elements

pub record Redis (S : Type 0) : Type 0 where
  pub queue_redis_context : List ℕ
  pub opened : ℕ
  pub freed : List ℕ
  pub server : S

-- The walk that looks for a context in the queue.
unfoldable pub found : ℕ → List ℕ → Bool
found c [] = false
found c (x ∷ xs) = (x == c) || found c xs

unfoldable pub release_redis_context : {S : Type 0} → ℕ → Redis S → Redis S
release_redis_context conn r =
    if found conn r.queue_redis_context
    then r
    else record r { queue_redis_context = r.queue_redis_context ++ (conn ∷ []) }

module _ {S : Type 0} (connects : ℕ → S → Bool) where
  -- `none`: the connection was not made.
  unfoldable pub create_new_redis_context : Redis S → Option (ℕ × Redis S)
  create_new_redis_context r =
      if connects r.opened r.server
      then some (r.opened, record r { opened = suc r.opened })
      else none

  unfoldable pub get_redis_context : Run (Redis S) ℕ
  unfolding create_new_redis_context
  get_redis_context r = elim r.queue_redis_context [
    | [] ↦ create_new_redis_context r
    | conn ∷ rest ↦ some (conn, record r { queue_redis_context = rest })
  ]

  -- `Init`, for the contexts that are still to be made.
  unfoldable pub init : ℕ → Redis S → Bool × Redis S
  unfolding create_new_redis_context
  init zero r = (true, r)
  init (suc i) r = elim (create_new_redis_context r) [
    | none ↦ (false, r)
    | some (conn, r') ↦
        init i (record r' { queue_redis_context = r'.queue_redis_context ++ (conn ∷ []) })
  ]

abbrev pub is_integer : Option Reply → Bool
is_integer (some (reply_integer n)) = true
is_integer _ = false

module _ {S : Type 0} (redis_command : ℕ → Command → S → Option Reply × S) where
  -- Where the reply is NULL the context is freed, but `conn_` and its copies keep the pointer.
  unfoldable pub send_command : ℕ → Command → Run (Redis S) (Option Reply)
  unfolding found
  send_command conn c r =
      let (reply, server) = redis_command conn c r.server in
      if found conn r.freed then none else elim reply [
        | none ↦ some (none, record r { server = server; freed = conn ∷ r.freed })
        | some x ↦ some (some x, record r { server = server })
      ]

  unfoldable pub select_db : ℕ → ℕ → Run (Redis S) Bool
  unfolding send_command
  select_db conn db_num = do
    reply ← send_command conn (select db_num)
    elim reply [ none ↦ pure false | some (reply_error s) ↦ pure false | some _ ↦ pure true ]

  unfoldable pub hset_number : ℕ → Bytes → Field → ℕ → Run (Redis S) Bool
  unfolding send_command
  hset_number conn key field value = do
    reply ← send_command conn (hset_int key field value)
    pure (is_integer reply)

  unfoldable pub hset : ℕ → Bytes → Field → Bytes → Run (Redis S) Bool
  unfolding send_command
  hset conn key field value = do
    reply ← send_command conn (hset_str key field value)
    pure (is_integer reply)

  -- The value, or `none` where the function returns false. An integer or an array has no `str`.
  -- Of deviceOnline; in userOnline, which does not call it, `Hget` also returns true for a nil reply.
  unfoldable pub hget : ℕ → Bytes → Field → Run (Redis S) (Option Bytes)
  unfolding send_command
  hget conn key field = do
    reply ← send_command conn (hget_field key field)
    elim reply [
      | none ↦ pure none
      | some (reply_error s) ↦ pure none
      | some reply_nil ↦ pure none
      | some (reply_string value) ↦ pure (some value)
      | some (reply_status value) ↦ pure (some value)
      | some (reply_integer n) ↦ fault
      | some (reply_array es) ↦ fault
    ]

  unfoldable pub hdel : ℕ → Bytes → Field → Run (Redis S) Bool
  unfolding send_command
  hdel conn key field = do reply ← send_command conn (hdel_field key field); pure (is_integer reply)

  unfoldable pub del : ℕ → Bytes → Run (Redis S) Bool
  unfolding send_command
  del conn key = do reply ← send_command conn (del_key key); pure (is_integer reply)
