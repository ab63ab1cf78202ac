-- ===== src/Dispatcher/Forwarding.antt =====
-- What is forwarded to a device waits for its answer, and the answer, or the timeout, goes back to the
-- client that sent the message.
use alarm.Base.{ℕ, ◌+◌, ◌%◌, ◌^◌, ◌≡◌, true, ◌∷◌, none, some, arith, ◌==◌, if◌then◌else◌}
use alarm.Base.Bytes.{Bytes}
use alarm.Base.Int.{pos, to_i32}
use alarm.Base.Maps.{bytes_Eq}
use alarm.Coding.{decode_fixed32}
use alarm.Connection.{World, Env}
use alarm.Dispatcher.Handler.{
  Slice, assign, send_msg, sending, increment_and_get, forward_msg_to_dev,
}
use alarm.Dispatcher.Push.{
  route_of_conn, context, forward_start_send, handle_client_start_send, handle_on_push_start_send,
  forward_send_voice, handle_client_send_voice, handle_on_push_client_voice,
}
use alarm.Time.{add_seconds}
use alarm.Timers.{Node, PushMsgTimerQueue, add_event_after}
use alarm.Timers.Valid.{IsValid, pending, new_node, add_event_at_lem}
use alarm.Timers.Cancel.{get_and_cancel_event_waiting, get_and_cancel_event_absent}
use alarm.Tlv.{
  type_on_client_start_send, type_on_client_send_voice_data, pack_start_send_push_msg,
  pack_start_send_resp_msg, pack_send_voice_push_msg, pack_client_send_voice_resp_msg,
}
use alarm.VoiceChannel.{routed}

-- The state after a message was put through to a device, and waits in `q`.
abbrev pub forwarded : Env → ℕ → Bytes → ℕ → PushMsgTimerQueue → World → World
forwarded env fd msg push_mid q w = record w {
  push_msg_mid = push_mid;
  wire = (fd, (sending env w fd msg).taken) ∷ w.wire;
  push_msg_timer_queue = q;
}

-- `g_push_msg_mid` after one more message.
abbrev pub next_mid : World → ℕ
next_mid w = (w.push_msg_mid + 1) % 2 ^ 32

-- The node that waits for the answer to the next message.
abbrev pub awaiting : Env → ℕ → ℕ → World → Node
awaiting env mid response_type w =
    new_node (add_seconds env.now env.push_timeout)
      (context mid w.conn.cfd (next_mid w) response_type) w.push_msg_timer_queue

module _ (env : Env) (mid fd : ℕ) (cmd : Slice) (w : World) (route : route_of_conn w ≡ routed fd)
    (valid : IsValid w.push_msg_timer_queue)
    (fresh : pending (next_mid w) w.push_msg_timer_queue ≡ none) where
  -- Where the client has a route, the timer queue is valid and the next id of the counter does not wait
  -- in it, a start of a message without a value, if `WriteSfd` gets it through, reaches the device under
  -- that id; nothing is said to the client, the id waits for the device's answer until the timeout,
  -- and the queue stays valid.
  pub start_send_forwards :
      cmd.size ≡ 0
      → (sending env w fd (pack_start_send_push_msg (next_mid w))).success ≡ true
      → (q : PushMsgTimerQueue) × (handle_client_start_send env mid cmd w
          ≡ some (pos 0, forwarded env fd (pack_start_send_push_msg (next_mid w)) (next_mid w) q w))
        × IsValid q
        × ((k : ℕ)
            → pending k q ≡ (
                if next_mid w == k
                then some (awaiting env mid type_on_client_start_send w)
                else pending k w.push_msg_timer_queue))
  unfolding handle_client_start_send forward_start_send increment_and_get forward_msg_to_dev
      send_msg add_event_after
  start_send_forwards hs ok =
      let (q, a, v, p) =
        add_event_at_lem (add_seconds env.now env.push_timeout)
          (context mid w.conn.cfd (next_mid w) type_on_client_start_send) w.push_msg_timer_queue
          valid fresh in
      (q, ground (arith, a, route), v, p)

  -- Where the client has a route, the timer queue is valid and the next id of the counter does not wait
  -- in it, voice data, if `WriteSfd` gets it through, reaches the device under that id with its bytes as
  -- they are; nothing is said to the client, the id waits for the device's answer until the timeout,
  -- and the queue stays valid.
  pub send_voice_forwards :
      (voice : Bytes)
      → assign cmd.here cmd.size ≡ some voice
      → (sending env w fd (pack_send_voice_push_msg (next_mid w) voice)).success ≡ true
      → (q : PushMsgTimerQueue) × (handle_client_send_voice env mid cmd w
          ≡ some (
            pos 0,
            forwarded env fd (pack_send_voice_push_msg (next_mid w) voice) (next_mid w) q w,
          ))
        × IsValid q
        × ((k : ℕ)
            → pending k q ≡ (
                if next_mid w == k
                then some (awaiting env mid type_on_client_send_voice_data w)
                else pending k w.push_msg_timer_queue))
  unfolding handle_client_send_voice forward_send_voice increment_and_get forward_msg_to_dev
      send_msg add_event_after
  send_voice_forwards voice hv ok =
      let (q, a, v, p) =
        add_event_at_lem (add_seconds env.now env.push_timeout)
          (context mid w.conn.cfd (next_mid w) type_on_client_send_voice_data)
          w.push_msg_timer_queue valid fresh in
      (q, ground (arith, a, route, hv), v, p)

-- The state after the answer to a message was passed to the socket `fd`.
abbrev pub replied : Env → ℕ → Bytes → PushMsgTimerQueue → World → World
replied env fd msg q w = record w {
  wire = (fd, (sending env w fd msg).taken) ∷ w.wire;
  push_msg_timer_queue = q;
}

-- On a valid timer queue, a device's answer, of either command, to a message that waits is passed to the
-- client's socket under the client's id and with the device's code; the message waits no longer, every
-- other waits as before, the queue stays valid, and the handler returns 0.
pub answer_replies :
    (env : Env) (mid v : ℕ) (cmd : Slice) (n : Node) (w : World)
    → decode_fixed32 cmd.here ≡ some v
    → IsValid w.push_msg_timer_queue
    → pending mid w.push_msg_timer_queue ≡ some n
    → (q : PushMsgTimerQueue) × (handle_on_push_start_send env mid cmd w
        ≡ some (
          pos 0,
          replied env n.ct.recv_cfd (pack_start_send_resp_msg n.ct.recv_mid (to_i32 v)) q w,
        ))
      × (handle_on_push_client_voice env mid cmd w
          ≡ some (
            pos 0,
            replied env n.ct.recv_cfd
                (pack_client_send_voice_resp_msg n.ct.recv_mid (to_i32 v))
                q
                w,
          ))
      × IsValid q
      × ((k : ℕ) → pending k q ≡ (if mid == k then none else pending k w.push_msg_timer_queue))
unfolding handle_on_push_start_send handle_on_push_client_voice send_msg
answer_replies env mid v cmd n w d valid p =
    let (q, a, vq, view) = get_and_cancel_event_waiting mid w.push_msg_timer_queue n valid p in
    (q, ground (arith, a), ground (arith, a), vq, view)

-- On a valid timer queue, an answer to a message that does not wait (it was answered or timed out)
-- changes nothing and sends nothing, and the handler returns 0.
pub late_answer_ignored :
    (env : Env) (mid v : ℕ) (cmd : Slice) (w : World)
    → decode_fixed32 cmd.here ≡ some v
    → IsValid w.push_msg_timer_queue
    → pending mid w.push_msg_timer_queue ≡ none
    → (handle_on_push_start_send env mid cmd w ≡ some (pos 0, w))
      × (handle_on_push_client_voice env mid cmd w ≡ some (pos 0, w))
unfolding handle_on_push_start_send handle_on_push_client_voice
late_answer_ignored env mid v cmd w d valid p =
    let a = get_and_cancel_event_absent mid w.push_msg_timer_queue valid p in
    (ground (arith, a), ground (arith, a))
