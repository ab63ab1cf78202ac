-- ===== src/Device/Tests.antt =====
-- A camera that logs in, is pushed a message and goes.
use alarm.Base.{ℕ, ◌≡◌, refl, arith, true, false, ◌==◌, ◌&&◌, [], ◌∷◌, none, some, if◌then◌else◌}
use alarm.Base.Bytes.{Bytes, bytes_eq}
use alarm.Base.Int.{pos}
use alarm.Base.Maps.{nat_eq, erase, lookup}
use alarm.Device.{
  Env, Server, peer, no_peer, keep_online, device_login, client_tcp_error_cb, push_turn,
}
use alarm.Device.Pushing.{push_turn_sends}
use alarm.Device.Session.{logged_in, Registered, after_login, device_login_lem, online_cleanup}
use alarm.Text.{crlf}
use alarm.Net.{sent, broken, write_sfd, write_loop}
use alarm.PushQueue.{PushMsg, PushQueues}
use alarm.Redis.{Redis, Field}
use alarm.Redis.Commands.{Unbroken, print_int}
use alarm.Redis.Example.{Store, empty_store, always, serve, serves}
use alarm.Redis.Store.{Same}

abbrev camera : Bytes
camera = 99 ∷ 49 ∷ []

-- Socket 7 has an address. Socket 9 is broken.
abbrev env : Env Store
env = record {
  connects = always;
  redis_command = serve;
  json_parse = λ text. some (keep_online (pos 0));
  json_join_login_res = λ ret. 1 ∷ [];
  json_join_beacon_res = λ ret. 2 ∷ [];
  escape = λ text. text;
  getpeername = λ sfd. if bytes_eq (sfd ∷ []) (7 ∷ []) then peer (10 ∷ []) else no_peer 107;
  public_addr = 20 ∷ [];
  private_addr = 30 ∷ [];
  replies = λ wire fd msg. if bytes_eq (fd ∷ []) (9 ∷ []) then broken ∷ [] else sent 1000 ∷ [];
}

abbrev no_messages : PushQueues
no_messages = record {
  push_msg_queue = [];
  wait_finish_msg_queue = [];
  completed = [];
  signals = 0;
  stop = false;
}

abbrev redis : Redis Store
redis = record { queue_redis_context = 0 ∷ []; opened = 1; freed = []; server = empty_store }

abbrev connected : ℕ → Server Store
connected sfd = record {
  conn = record { sfd = sfd; is_login = false; is_online = false; dev_id = [] };
  csfd_ids = (sfd, 3) ∷ [];
  redis = redis;
  queues = no_messages;
  notices = [];
  wire = [];
  closed = false;
}

device_login_lem_example :
    (r : Redis Store) × (device_login env camera (connected 7)
      ≡ some (pos 0, after_login env serves camera r (connected 7)))
    × Unbroken r
    × Registered env serves camera 7 (10 ∷ []) r.server
unfolding bytes_eq
device_login_lem_example = device_login_lem env serves camera (10 ∷ []) (connected 7) refl refl refl

abbrev half_logged : Server Store
half_logged = record (connected 8) { conn = logged_in env camera ((connected 8).conn) }

abbrev online : Server Store
online = record (connected 7) {
  conn = record { sfd = 7; is_login = true; is_online = true; dev_id = camera };
}

online_cleanup_example :
    (r : Redis Store) × (client_tcp_error_cb env online
      ≡ some (
        tt,
        record online {
          conn = record { sfd = 7; is_login = false; is_online = false; dev_id = [] };
          csfd_ids = erase 7 ((7, 3) ∷ []);
          redis = r;
          notices = (camera, false) ∷ [];
          closed = true;
        },
      ))
    × Unbroken r
    × ((m : ℕ) (d : Bytes) (f : Field)
        → r.server.values m d f ≡ (if (m == 6) && bytes_eq camera d then none else none))
online_cleanup_example = online_cleanup env serves online refl refl

abbrev message : PushMsg
message = record { push_cnt = 4; dev_id = camera; push_msg = 5 ∷ 6 ∷ []; ct = some 30 }

-- The camera's socket in redis, among the devices, is `fd`, and a message is to be pushed to it.
abbrev pushing_to : ℕ → Server Store
pushing_to fd = record (connected 7) {
  redis = record redis {
    server = record empty_store { values = λ m d f. if m == 6 then some (print_int fd) else none };
  };
  queues = record no_messages { push_msg_queue = message ∷ [] };
}

push_turn_sends_example :
    (r : Redis Store) × (q : PushQueues) × (push_turn env (pushing_to 7)
      ≡ some (tt, record (pushing_to 7) { redis = r; queues = q; wire = (7, 5 ∷ 6 ∷ crlf) ∷ [] }))
    × Unbroken r
    × Same always serve serves ((pushing_to 7).redis.server) r.server
    × (q.push_msg_queue ≡ [])
    × (q.completed ≡ [])
    × ((number : ℕ)
        → lookup number q.wait_finish_msg_queue ≡ (if 4 == number then some message else none))
unfolding write_sfd write_loop bytes_eq lookup
push_turn_sends_example =
    push_turn_sends env serves (pushing_to 7) message [] 7 refl refl (omega arith) refl refl
