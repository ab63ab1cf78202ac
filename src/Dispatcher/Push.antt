-- ===== src/Dispatcher/Push.antt =====
-- dispatcher.cc: the handlers that forward a client's messages to its device, and those that take the
-- device's answers; and the end of the wait, `PushMsgContext::Finish`.
use alarm.Base.{ℕ, ◌+◌, ◌*◌, not, ◌||◌, [], Option, none, some, ◌==◌, if◌then◌else◌}
use alarm.Base.Bytes.{bytes_eq}
use alarm.Base.Int.{ℤ, pos, neg, is_zero, to_i32}
use alarm.Connection.{World, Env, guid_client}
use alarm.Dispatcher.Handler.{
  M, ◌>>=◌, ◌>>◌, pure, lift, get, set_timers, read32, Slice, assign, increment_and_get, send_msg,
  send_response, forward_msg_to_dev,
}
use alarm.Errors.{error_tlv_len_not_0, error_client_not_build_vc, error_cannot_find_dev_for_client}
use alarm.Time.{UTime}
use alarm.Timers.{PushMsgContext, get_and_cancel_event, pop_due}
use alarm.Tlv.{
  type_on_client_start_send, type_on_client_send_voice_data, msg_header_size, encode_resp_msg,
  pack_start_send_push_msg, pack_start_send_resp_msg, pack_send_voice_push_msg,
  pack_client_send_voice_resp_msg,
}
use alarm.VoiceChannel.{Route, routed, failed, route_client_to_dev}

-- Where the connection's client sends to. The local `dev_id` is empty, and stays so: it is passed to
-- `RouteClientToDev` by value.
unfoldable pub route_of_conn : World → Route
route_of_conn w =
    if not (w.conn.guid_type == guid_client) || bytes_eq w.conn.guid []
    then failed (neg error_client_not_build_vc)
    else elim (route_client_to_dev w.conn.guid [] w.vc_manager) [
      | failed ret ↦ failed (neg error_cannot_find_dev_for_client)
      | routed dev_fd ↦ routed dev_fd
    ]

abbrev pub context : ℕ → ℕ → ℕ → ℕ → PushMsgContext
context mid cfd push_mid response_type = record {
  recv_mid = mid;
  recv_cfd = cfd;
  push_mid = push_mid;
  response_type = response_type;
}

-- The code to reply with, or `none` where the message is on its way to the device.
abbrev pub reply_of : ℤ → Option ℤ
reply_of ret = if is_zero ret then none else some ret

module _ (env : Env) where
  unfoldable pub forward_start_send : ℕ → Slice → M (Option ℤ)
  unfolding route_of_conn increment_and_get forward_msg_to_dev
  forward_start_send mid cmd_value w =
      if not (cmd_value.size == 0)
      then some (some (neg error_tlv_len_not_0), w)
      else elim (route_of_conn w) [
        | failed ret ↦ some (some ret, w)
        | routed dev_fd ↦
            (do
              push_mid ← increment_and_get
              ret ←
                  forward_msg_to_dev env dev_fd push_mid (pack_start_send_push_msg push_mid)
                    (context mid w.conn.cfd push_mid type_on_client_start_send)
              pure (reply_of ret))
              w
      ]

  unfoldable pub handle_client_start_send : ℕ → Slice → M ℤ
  unfolding forward_start_send send_response
  handle_client_start_send mid cmd_value = do
    reply ← forward_start_send mid cmd_value
    elim reply [
      | none ↦ pure (pos 0)
      | some ret ↦ send_response env (pack_start_send_resp_msg mid ret) (pos 0)
    ]

  unfoldable pub handle_on_push_start_send : ℕ → Slice → M ℤ
  unfolding send_msg
  handle_on_push_start_send mid cmd_value = do
    on_push_ret ← read32 cmd_value.here
    w ← get
    (info, q) ← lift (get_and_cancel_event mid w.push_msg_timer_queue)
    set_timers q
    elim info [
      | none ↦ pure (pos 0)
      | some i ↦ do
        ret ← send_msg env i.recv_cfd (pack_start_send_resp_msg i.recv_mid (to_i32 on_push_ret))
        pure (pos 0)
    ]

  unfoldable pub forward_send_voice : ℕ → Slice → M (Option ℤ)
  unfolding route_of_conn increment_and_get forward_msg_to_dev assign
  forward_send_voice mid cmd_value w = elim (route_of_conn w) [
    | failed ret ↦ some (some ret, w)
    | routed dev_fd ↦
        (do
          push_mid ← increment_and_get
          voice ← lift (assign cmd_value.here cmd_value.size)
          ret ←
              forward_msg_to_dev env dev_fd push_mid (pack_send_voice_push_msg push_mid voice)
                (context mid w.conn.cfd push_mid type_on_client_send_voice_data)
          pure (reply_of ret))
          w
  ]

  unfoldable pub handle_client_send_voice : ℕ → Slice → M ℤ
  unfolding forward_send_voice send_response
  handle_client_send_voice mid cmd_value = do
    reply ← forward_send_voice mid cmd_value
    elim reply [
      | none ↦ pure (pos 0)
      | some ret ↦ send_response env (pack_client_send_voice_resp_msg mid ret) (pos 0)
    ]

  unfoldable pub handle_on_push_client_voice : ℕ → Slice → M ℤ
  unfolding send_msg
  handle_on_push_client_voice mid cmd_value = do
    on_push_ret ← read32 cmd_value.here
    w ← get
    (info, q) ← lift (get_and_cancel_event mid w.push_msg_timer_queue)
    set_timers q
    elim info [
      | none ↦ pure (pos 0)
      | some i ↦ do
        ret ←
            send_msg env i.recv_cfd
              (pack_client_send_voice_resp_msg i.recv_mid (to_i32 on_push_ret))
        pure (pos 0)
    ]

  -- `PushMsgContext::Finish`: the client hears that the device did not answer.
  unfoldable pub finish : PushMsgContext → M (Unit {0})
  unfolding send_msg
  finish ct = do
    ret ← send_msg env ct.recv_cfd (encode_resp_msg ct (3 * (msg_header_size + 4)))
    pure tt

  -- A turn of the timer thread: a message that is due is taken out and completed.
  unfoldable pub timer_turn : UTime → M (Unit {0})
  unfolding finish
  timer_turn now w = elim (pop_due now w.push_msg_timer_queue) [
    | none ↦ some (tt, w)
    | some (ct, q) ↦ finish ct (record w { push_msg_timer_queue = q })
  ]
