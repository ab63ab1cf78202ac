-- ===== src/Device/Pushing.antt =====
-- The thread that pushes messages to devices, one turn of its loop.
use mathlib.Core.List.{append-nil}
use alarm.Base.{
  ℕ, ◌<◌, ◌^◌, ◌≡◌, refl, sym, ap, ◌==◌, ◌∙◌, Bool, true, false, List, [], ◌∷◌, ◌++◌, Option, none,
  some, arith, if◌then◌else◌,
}
use alarm.Base.Bytes.{Bytes}
use alarm.Base.Int.{ℤ, pos, neg}
use alarm.Base.Maps.{nat_eq, lookup}
use alarm.Base.Run.{>>=-some}
use alarm.Text.{crlf}
use alarm.Device.{Env, Server, in_redis, in_queues, write_text, push_front, push_turn}
use alarm.Device.Session.{in_redis-some}
use alarm.Errors.{error_push_message}
use alarm.Net.{Written, write_sfd}
use alarm.Net.Write.{write_sfd_lem}
use alarm.PushQueue.{PushMsg, PushQueues, complete, submit_wait_finish_push_msg}
use alarm.PushQueue.Waiting.{submit_wait_lem}
use alarm.Redis.{Redis, field_fd}
use alarm.Redis.Cache.{get_device_fd_from_cache}
use alarm.Redis.Commands.{Serves, Unbroken, print_int, value}
use alarm.Redis.Store.{Same, get_fd_lem}

-- What `WriteSfd` took where it succeeded is the message.
taken_whole : (w : Written) (msg left : Bytes) → msg ≡ w.taken ++ left → left ≡ [] → w.taken ≡ msg
taken_whole w msg left e h = sym (e ∙ ap (◌++◌ w.taken) h ∙ append-nil w.taken)

completes :
    (o : Option ℕ) (ct : ℕ) (ret : ℤ) (q : PushQueues)
    → o ≡ some ct
    → lookup ct q.completed ≡ none
    → complete o ret q ≡ some (record q { completed = (ct, ret) ∷ q.completed })
unfolding complete
completes o ct ret q c fresh = ground (arith, c, fresh)

module _ {S : Type 0} (env : Env S) where
  in_queues-some :
      (f : PushQueues → Option PushQueues) (v : Server S) (q : PushQueues)
      → f v.queues ≡ some q
      → in_queues env f v ≡ some (tt, record v { queues = q })
  in_queues-some f v q e =
      ap
        (λ (o : Option PushQueues). elim o [
          | none ↦ none
          | some p ↦ some (tt, record v { queues = p })
        ])
        e

  abbrev pub pushed_text : PushMsg → Bytes
  pushed_text msg = env.escape msg.push_msg ++ crlf

  -- How a message's text fares on the socket `fd`.
  abbrev pub pushing : Server S → ℕ → PushMsg → Written
  pushing w fd msg = write_sfd (env.replies w.wire fd (pushed_text msg)) (pushed_text msg)

  -- The server after the first message was taken off the queue and its text put on the socket.
  abbrev pub off_queue : Redis S → List PushMsg → ℕ → Bytes → Server S → Server S
  off_queue r rest fd taken w = record w {
    redis = r;
    queues = record (w.queues) { push_msg_queue = rest };
    wire = (fd, taken) ∷ w.wire;
  }

module _ {S : Type 0} (env : Env S) (serves : Serves env.connects env.redis_command) (w : Server S)
    (msg : PushMsg) (rest : List PushMsg) (fd : ℕ) (front : w.queues.push_msg_queue ≡ msg ∷ rest)
    (stored : value env.connects env.redis_command serves msg.dev_id field_fd w.redis.server
      ≡ some (print_int fd))
    (small : fd < 2 ^ 31) (unbroken : Unbroken w.redis) where
  abbrev start : Server S
  start = record w { queues = record (w.queues) { push_msg_queue = rest } }

  -- The turn up to the result of `WriteSfd`.
  turn_sends :
      (r : Redis S)
      → get_device_fd_from_cache env.connects env.redis_command msg.dev_id w.redis
        ≡ some (some (pos fd), r)
      → (b : Bool) → (pushing env w fd msg).success ≡ b
      → push_turn env w
        ≡ (if b
              then in_queues env (λ q. some (submit_wait_finish_push_msg msg.push_cnt msg q))
              else in_queues env (complete msg.ct (neg error_push_message)))
            (off_queue env r rest fd (pushing env w fd msg).taken w)
  unfolding push_turn push_front write_text
  turn_sends r e b ok = rw front (
      >>=-some (in_redis env (get_device_fd_from_cache env.connects env.redis_command msg.dev_id)) _
        start (record start { redis = r }) (some (pos fd))
        (in_redis-some env (get_device_fd_from_cache env.connects env.redis_command msg.dev_id)
          start r (some (pos fd)) e)
      ∙ ap
          (λ (sent : Bool).
            (if sent
                then in_queues env (λ q. some (submit_wait_finish_push_msg msg.push_cnt msg q))
                else in_queues env (complete msg.ct (neg error_push_message)))
              (off_queue env r rest fd (pushing env w fd msg).taken w))
          ok)

  -- Where redis, a server that serves, has the device's socket and `WriteSfd` succeeds, the first message of
  -- the queue is taken off and its text, escaped and with a line break behind it, put on that socket whole;
  -- under its number it waits for the response then, unless an older message waits under that number, which
  -- goes on waiting in its place; what waits under other numbers waits on, and no context is completed.
  pub push_turn_sends :
      (pushing env w fd msg).success ≡ true
      → (r : Redis S) × (q : PushQueues) × (push_turn env w
          ≡ some (
            tt,
            record w {
              redis = r;
              queues = q;
              wire = (fd, env.escape msg.push_msg ++ crlf) ∷ w.wire;
            },
          ))
        × Unbroken r
        × Same env.connects env.redis_command serves w.redis.server r.server
        × (q.push_msg_queue ≡ rest)
        × (q.completed ≡ w.queues.completed)
        × ((number : ℕ)
            → lookup number q.wait_finish_msg_queue
              ≡ (elim (lookup number w.queues.wait_finish_msg_queue) [
                | some older ↦ some older
                | none ↦ if msg.push_cnt == number then some msg else none
              ]))
  unfolding submit_wait_finish_push_msg
  push_turn_sends ok =
      let (r, e, u, same) =
        get_fd_lem env.connects env.redis_command serves msg.dev_id fd w.redis unbroken small
          stored in
      let (left, whole, done) =
        write_sfd_lem (env.replies w.wire fd (pushed_text env msg)) (pushed_text env msg) in
      let all = taken_whole (pushing env w fd msg) (pushed_text env msg) left whole (done.0 ok) in
      let taken_off = record (w.queues) { push_msg_queue = rest } in
      (
        r,
        submit_wait_finish_push_msg msg.push_cnt msg taken_off,
        turn_sends r e true ok
            ∙ ap
                (λ (t : Bytes).
                  in_queues env (λ q. some (submit_wait_finish_push_msg msg.push_cnt msg q))
                    (off_queue env r rest fd t w))
                all,
        u,
        same,
        refl,
        refl,
        λ number. submit_wait_lem msg taken_off number,
      )

  -- Where `WriteSfd` fails the message does not wait: its context is completed with
  -- -ERROR_PUSH_MESSAGE, so that whom it came from hears of it.
  pub push_turn_fails :
      (ct : ℕ)
      → msg.ct ≡ some ct
      → lookup ct w.queues.completed ≡ none
      → (pushing env w fd msg).success ≡ false
      → (r : Redis S) × (push_turn env w
          ≡ some (
            tt,
            record w {
              redis = r;
              queues = record (w.queues) {
                push_msg_queue = rest;
                completed = (ct, neg error_push_message) ∷ w.queues.completed;
              };
              wire = (fd, (pushing env w fd msg).taken) ∷ w.wire;
            },
          ))
        × Unbroken r
        × Same env.connects env.redis_command serves w.redis.server r.server
  push_turn_fails ct c fresh ok =
      let (r, e, u, same) =
        get_fd_lem env.connects env.redis_command serves msg.dev_id fd w.redis unbroken small
          stored in
      (
        r,
        turn_sends r e false ok
            ∙ in_queues-some env (complete msg.ct (neg error_push_message)) _ _
                (completes msg.ct ct (neg error_push_message) _ c fresh),
        u,
        same,
      )
