-- ===== src/Device.antt =====
-- deviceOnline/src/logic_opt.cc and worker_threads.cc: what a device's connection does, from its login
-- to its end, and the thread that pushes messages to devices. libjson builds and reads the messages:
-- what it reads is a `Request`, and the texts are parameters. The connection is never NULL here.
pub mod Session
pub mod Pushing
mod Tests
use alarm.Base.{
  ℕ, suc, Bool, true, false, not, List, [], ◌∷◌, ◌++◌, Option, none, some, ltb, ◌==◌, if◌then◌else◌,
}
use alarm.Base.Bytes.{Bytes}
use alarm.Base.Int.{ℤ, pos, negsuc, neg, is_zero}
use alarm.Base.Maps.{nat_eq, erase}
use alarm.Base.Run.{Run, ◌>>=◌, ◌>>◌, pure, get}
use alarm.Errors.{
  error_set_device_fd_cache, error_get_device_fd_from_cache, error_fd_invalid, error_push_message,
  error_device_not_login, error_parse_msg,
}
use alarm.Net.{SendReply, Written, write_sfd}
use alarm.PushQueue.{PushMsg, PushQueues, complete, submit_wait_finish_push_msg, finish_push_msg}
use alarm.Redis.{Redis, Command, Reply}
use alarm.Text.{crlf}
use alarm.Redis.Cache.{
  Addresses, set_device_fd_cache, set_device_addr_cache, get_device_fd_from_cache,
  remove_device_from_cache,
}

-- `conn`, the fields that the logic uses.
pub record Conn : Type 0 where
  pub sfd : ℕ
  pub is_login : Bool
  pub is_online : Bool
  pub dev_id : Bytes

-- What libjson reads: a login's device or an error; a beacon or an error; another method is a push's
-- response, with the number of the push and the code in it, or `none` where that cannot be read.
pub data Request : Type 0 where
  login_error : ℤ → Request
  login : Bytes → Request
  keep_online : ℤ → Request
  push_resp : ℕ → Option ℤ → Request

-- `getpeername`: the peer's address or `errno`.
pub data Peer : Type 0 where
  peer : Bytes → Peer
  no_peer : ℕ → Peer

pub record Env (S : Type 0) : Type 0 where
  pub connects : ℕ → S → Bool
  pub redis_command : ℕ → Command → S → Option Reply × S
  pub json_parse : Bytes → Option Request
  pub json_join_login_res : ℤ → Bytes
  pub json_join_beacon_res : ℤ → Bytes
  pub escape : Bytes → Bytes
  pub getpeername : ℕ → Peer
  pub public_addr : Bytes
  pub private_addr : Bytes
  pub replies : List (ℕ × Bytes) → ℕ → Bytes → List SendReply

-- `notices`: the state notices that were submitted for the web server, 1 as true, newest first. `wire`:
-- what was put on each socket, newest first. `closed`: the connection's bufferevent was freed and the
-- connection put on the free list.
pub record Server (S : Type 0) : Type 0 where
  pub conn : Conn
  pub csfd_ids : List (ℕ × ℕ)
  pub redis : Redis S
  pub queues : PushQueues
  pub notices : List (Bytes × Bool)
  pub wire : List (ℕ × Bytes)
  pub closed : Bool

module _ {S : Type 0} (env : Env S) where
  abbrev pub set_conn : Conn → Run (Server S) (Unit {0})
  set_conn c w = some (tt, record w { conn = c })

  abbrev pub in_redis : {A : Type 0} → Run (Redis S) A → Run (Server S) A
  in_redis m w = elim (m w.redis) [ none ↦ none | some (a, r) ↦ some (a, record w { redis = r }) ]

  abbrev pub in_queues : (PushQueues → Option PushQueues) → Run (Server S) (Unit {0})
  in_queues f w = elim (f w.queues) [ none ↦ none | some q ↦ some (tt, record w { queues = q }) ]

  abbrev pub notify : Bytes → Bool → Run (Server S) (Unit {0})
  notify dev_id online w = some (tt, record w { notices = (dev_id, online) ∷ w.notices })

  -- A text with its line breaks replaced, and one behind it.
  unfoldable pub write_text : ℕ → Bytes → Run (Server S) Bool
  write_text fd text w =
      let msg = env.escape text ++ crlf in
      let written = write_sfd (env.replies w.wire fd msg) msg in
      some (written.success, record w { wire = (fd, written.taken) ∷ w.wire })

  abbrev pub own_addresses : Bytes → Addresses
  own_addresses dev_ip = record {
    public_addr = env.public_addr ++ (58 ∷ 49 ∷ 53 ∷ 48 ∷ 51 ∷ 48 ∷ []);
    private_addr = env.private_addr ++ (58 ∷ 49 ∷ 53 ∷ 48 ∷ 51 ∷ 49 ∷ []);
    dev_ip = dev_ip;
  }

  -- The part of `DeviceLogin` that stores the device, once its address is known.
  unfoldable pub register_device : Bytes → ℕ → Bytes → Run (Server S) ℤ
  register_device dev_id sfd dev_ip = do
    fd_ret ← in_redis (set_device_fd_cache env.connects env.redis_command dev_id sfd)
    if not (is_zero fd_ret) then pure (neg error_set_device_fd_cache) else (do
      ret ←
          in_redis
            (set_device_addr_cache env.connects env.redis_command dev_id (own_addresses dev_ip))
      if not (is_zero ret) then pure ret else (do notify dev_id true; pure (pos 0)))

  unfoldable pub device_login : Bytes → Run (Server S) ℤ
  unfolding register_device
  device_login dev_id w =
      if w.conn.is_login
      then some (pos 0, w)
      else (do
        set_conn (record (w.conn) { is_login = true; dev_id = dev_id })
        elim (env.getpeername w.conn.sfd) [
          | no_peer errno ↦ pure (neg errno)
          | peer dev_ip ↦ register_device dev_id w.conn.sfd dev_ip
        ])
          w

  unfoldable pub device_beacon : ℤ → Run (Server S) ℤ
  device_beacon parse_ret w =
      if not (is_zero parse_ret)
      then some (parse_ret, w)
      else if not w.conn.is_login
      then some (neg error_device_not_login, w)
      else some (pos 0, record w { conn = record (w.conn) { is_online = true } })

  unfoldable pub handle_push_msg_resp : ℕ → Option ℤ → Run (Server S) (Unit {0})
  handle_push_msg_resp push_cnt none = in_queues (finish_push_msg push_cnt (neg error_parse_msg))
  handle_push_msg_resp push_cnt (some msg_ret) = in_queues (finish_push_msg push_cnt msg_ret)

  abbrev pub respond : Bytes → Run (Server S) (Unit {0})
  respond text w = elim (write_text w.conn.sfd text w) [
    | none ↦ none
    | some (sent, w') ↦ some (tt, w')
  ]

  unfoldable pub start_logic_opt : Bytes → Run (Server S) (Unit {0})
  unfolding device_login device_beacon handle_push_msg_resp write_text
  start_logic_opt message = elim (env.json_parse message) [
    | none ↦ pure tt
    | some (login_error ret) ↦ respond (env.json_join_login_res ret)
    | some (login dev_id) ↦ do ret ← device_login dev_id; respond (env.json_join_login_res ret)
    | some (keep_online parse_ret) ↦ do
      ret ← device_beacon parse_ret
      respond (env.json_join_beacon_res ret)
    | some (push_resp push_cnt msg_ret) ↦ handle_push_msg_resp push_cnt msg_ret
  ]

  abbrev pub cleared : Server S → Server S
  cleared w = record w {
    conn = record (w.conn) { is_login = false; is_online = false; dev_id = [] };
    closed = true;
  }

  abbrev pub clean_up : Run (Server S) (Unit {0})
  clean_up w = some (tt, cleared w)

  -- `ClientTcpErrorCb`: a timeout, the end of the stream or an error.
  unfoldable pub client_tcp_error_cb : Run (Server S) (Unit {0})
  client_tcp_error_cb w =
      let w1 = record w { csfd_ids = erase w.conn.sfd w.csfd_ids } in
      if w.conn.is_online
      then (do
        ret ← in_redis (remove_device_from_cache env.connects env.redis_command w.conn.dev_id)
        notify w.conn.dev_id false
        clean_up)
          w1
      else clean_up w1

  -- A turn of the inner loop of `PushMsgQueue::Entry`, where the queue is not empty. A file descriptor
  -- below 0 is refused.
  unfoldable pub push_front : PushMsg → Run (Server S) (Unit {0})
  unfolding write_text
  push_front msg = do
    cached ← in_redis (get_device_fd_from_cache env.connects env.redis_command msg.dev_id)
    elim cached [
      | none ↦ in_queues (complete msg.ct (neg error_get_device_fd_from_cache))
      | some (negsuc n) ↦ in_queues (complete msg.ct (neg error_fd_invalid))
      | some (pos fd) ↦ do
        sent ← write_text fd msg.push_msg
        if sent
            then in_queues (λ q. some (submit_wait_finish_push_msg msg.push_cnt msg q))
            else in_queues (complete msg.ct (neg error_push_message))
    ]

  unfoldable pub push_turn : Run (Server S) (Unit {0})
  unfolding push_front
  push_turn w = elim w.queues.push_msg_queue [
    | [] ↦ some (tt, w)
    | msg ∷ rest ↦
        push_front msg (record w { queues = record (w.queues) { push_msg_queue = rest } })
  ]
