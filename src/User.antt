-- ===== src/User.antt =====
-- userOnline/src/logic_opt.cc, worker_threads.cc and push_msg_queue.cc: what a user's connection does, and
-- the thread that pushes messages to users. libjson reads and builds the messages, as in Device. A
-- message to be pushed is as in PushQueue, with the number `push_mid` and the user's `guid` in the places of
-- `push_cnt` and `dev_id`. The connection is never NULL here.
pub mod Cache
pub mod Serving
pub mod Sessions
pub mod Clearing
mod Tests
use alarm.Base.{
  ℕ, Bool, true, false, not, List, [], ◌∷◌, ◌++◌, Option, none, some, ◌==◌, if◌then◌else◌,
}
use alarm.Base.Bytes.{Bytes, bytes_eq}
use alarm.Base.Int.{ℤ, pos, negsuc, neg, is_zero}
use alarm.Base.Maps.{nat_eq, erase}
use alarm.Base.Run.{Run, ◌>>=◌, ◌>>◌, pure}
use alarm.Errors.{
  error_parse_beacon, error_set_guid_fd_cache, error_get_user_fd_from_cache, error_fd_invalid,
  error_push_message, error_parse_msg,
}
use alarm.Net.{SendReply, write_sfd}
use alarm.PushQueue.{PushMsg, PushQueues, complete, submit_wait_finish_push_msg, finish_push_msg}
use alarm.Redis.{Redis, Command, Reply}
use alarm.Text.{crlf}
use Cache.{set_guid_fd_cache, get_guid_fd_from_cache, remove_guid_fd_from_cache, check_session_id}

-- `conn`, the fields that the logic uses.
pub record UserConn : Type 0 where
  pub sfd : ℕ
  pub is_online : Bool
  pub guid : Bytes

-- A beacon, with what `JsonParseBeacon` returns and the session; another method is a push's response,
-- with the number of the push and the code in it, or `none` where that cannot be read.
pub data UserRequest : Type 0 where
  beacon : ℤ → Bytes → UserRequest
  push_resp : ℕ → Option ℤ → UserRequest

pub record UserEnv (S : Type 0) : Type 0 where
  pub connects : ℕ → S → Bool
  pub redis_command : ℕ → Command → S → Option Reply × S
  pub json_parse : Bytes → Option UserRequest
  pub json_join_beacon_res : ℤ → Bytes
  pub escape : Bytes → Bytes
  pub replies : List (ℕ × Bytes) → ℕ → Bytes → List SendReply

-- `logouts`: the sessions whose end was submitted for the web server, newest first. `wire` and
-- `closed` as in Device.
pub record UserServer (S : Type 0) : Type 0 where
  pub conn : UserConn
  pub csfd_ids : List (ℕ × ℕ)
  pub redis : Redis S
  pub queues : PushQueues
  pub logouts : List Bytes
  pub wire : List (ℕ × Bytes)
  pub closed : Bool

module _ {S : Type 0} (env : UserEnv S) where
  abbrev pub set_online : Bool → Run (UserServer S) (Unit {0})
  set_online b w = some (tt, record w { conn = record (w.conn) { is_online = b } })

  abbrev pub set_session : Bytes → Run (UserServer S) (Unit {0})
  set_session guid w = some (tt, record w { conn = record (w.conn) { guid = guid } })

  abbrev pub conn_of : Run (UserServer S) UserConn
  conn_of w = some (w.conn, w)

  abbrev pub on_redis : {A : Type 0} → Run (Redis S) A → Run (UserServer S) A
  on_redis m w = elim (m w.redis) [ none ↦ none | some (a, r) ↦ some (a, record w { redis = r }) ]

  abbrev pub on_queues : (PushQueues → Option PushQueues) → Run (UserServer S) (Unit {0})
  on_queues f w = elim (f w.queues) [ none ↦ none | some q ↦ some (tt, record w { queues = q }) ]

  abbrev pub store_fd : Bytes → ℕ → Run (UserServer S) ℤ
  store_fd guid fd = do
    ret ← on_redis (set_guid_fd_cache env.connects env.redis_command guid fd)
    pure (if is_zero ret then pos 0 else neg error_set_guid_fd_cache)

  abbrev pub forget_fd : Bytes → Run (UserServer S) ℤ
  forget_fd guid = on_redis (remove_guid_fd_from_cache env.connects env.redis_command guid)

  -- The part of `UserBeacon` behind the check of the session.
  unfoldable pub go_online : Bytes → Run (UserServer S) ℤ
  go_online session_id = do
    c ← conn_of
    if not c.is_online
        then (do set_online true; store_fd c.guid c.sfd)
        else if not (bytes_eq c.guid session_id)
        then (do ret ← forget_fd c.guid; store_fd c.guid c.sfd)
        else pure (pos 0)

  unfoldable pub user_beacon : ℤ → Bytes → Run (UserServer S) ℤ
  unfolding go_online
  user_beacon parse_ret session_id =
      if not (is_zero parse_ret) then pure (neg error_parse_beacon) else (do
        set_session session_id
        ret ← on_redis (check_session_id env.connects env.redis_command session_id)
        if not (is_zero ret)
            then (do set_online false; removed ← forget_fd session_id; pure ret)
            else go_online session_id)

  unfoldable pub handle_push_msg_resp : ℕ → Option ℤ → Run (UserServer S) (Unit {0})
  handle_push_msg_resp push_mid none = on_queues (finish_push_msg push_mid (neg error_parse_msg))
  handle_push_msg_resp push_mid (some msg_ret) = on_queues (finish_push_msg push_mid msg_ret)

  unfoldable pub write_text : ℕ → Bytes → Run (UserServer S) Bool
  write_text fd text w =
      let msg = env.escape text ++ crlf in
      let written = write_sfd (env.replies w.wire fd msg) msg in
      some (written.success, record w { wire = (fd, written.taken) ∷ w.wire })

  unfoldable pub start_logic_opt : Bytes → Run (UserServer S) (Unit {0})
  unfolding user_beacon handle_push_msg_resp write_text
  start_logic_opt message = elim (env.json_parse message) [
    | none ↦ pure tt
    | some (push_resp push_mid msg_ret) ↦ handle_push_msg_resp push_mid msg_ret
    | some (beacon parse_ret session_id) ↦ do
      ret ← user_beacon parse_ret session_id
      c ← conn_of
      sent ← write_text c.sfd (env.json_join_beacon_res ret)
      pure tt
  ]

  -- `ClientTcpErrorCb`; `eof` is the flag BEV_EVENT_EOF of the event.
  unfoldable pub client_tcp_error_cb : Bool → Run (UserServer S) (Unit {0})
  client_tcp_error_cb eof = do
    c ← conn_of
    (λ (w : UserServer S). some (tt, record w { csfd_ids = erase c.sfd w.csfd_ids }))
    if c.is_online
        then (do
          removed ← forget_fd c.guid
          if eof
              then pure tt
              else (λ (w : UserServer S). some (tt, record w { logouts = c.guid ∷ w.logouts })))
        else pure tt
    (λ (w : UserServer S).
        some
          (tt, record w { conn = record (w.conn) { is_online = false; guid = [] }; closed = true }))

  -- A turn of the inner loop of `PushMsgQueue::Entry`, where the queue is not empty.
  unfoldable pub push_front : PushMsg → Run (UserServer S) (Unit {0})
  unfolding write_text
  push_front msg = do
    cached ← on_redis (get_guid_fd_from_cache env.connects env.redis_command msg.dev_id)
    elim cached [
      | none ↦ on_queues (complete msg.ct (neg error_get_user_fd_from_cache))
      | some (negsuc n) ↦ on_queues (complete msg.ct (neg error_fd_invalid))
      | some (pos fd) ↦ do
        sent ← write_text fd msg.push_msg
        if sent
            then on_queues (λ q. some (submit_wait_finish_push_msg msg.push_cnt msg q))
            else on_queues (complete msg.ct (neg error_push_message))
    ]
