-- ===== src/Dispatcher/Channels.antt =====
-- dispatcher.cc: the handlers of heartbeats, and those that build and free voice channels.
use alarm.Base.{ℕ, Option, none, some, ltb, ◌==◌, drop, if◌then◌else◌}
use alarm.Base.Bytes.{Bytes}
use alarm.Base.Int.{ℤ, pos, neg}
use alarm.Coding.{decode_fixed32}
use alarm.Connection.{Env, guid_client, guid_dev}
use alarm.Dispatcher.Handler.{
  M, ◌>>=◌, ◌>>◌, pure, lift, get, set_vc_manager, set_guid, read32, Slice, assign, read_id,
  send_response,
}
use alarm.Errors.{
  error_tlv_parse_client_id, error_tlv_parse_dev_id, error_client_vc_invalid, error_dev_vc_invalid,
}
use alarm.Tlv.{
  type_client_id, type_dev_id, max_guid_len, msg_header_size, pack_heart_beat_resp_msg,
  pack_client_build_vc_resp_msg, pack_client_free_vc_resp_msg,
}
use alarm.VoiceChannel.{connect_by_client, connect_by_dev, disconnect_by_client, disconnect_by_dev}

-- The identifier of a heartbeat is read and only logged; the result is `ret`.
unfoldable pub heartbeat_id : Bytes → ℤ → Option ℤ
unfolding assign
heartbeat_id here error = elim (decode_fixed32 (drop 4 here)) [
  | none ↦ none
  | some len ↦
      if ltb max_guid_len len
      then some error
      else elim (assign (drop msg_header_size here) len) [ none ↦ none | some guid ↦ some (pos 0) ]
]

unfoldable pub heartbeat_ret : ℕ → Bytes → Option ℤ
unfolding heartbeat_id
heartbeat_ret type here =
    if type == type_client_id
    then heartbeat_id here (neg error_tlv_parse_client_id)
    else if type == type_dev_id
    then heartbeat_id here (neg error_tlv_parse_dev_id)
    else some (pos 0)

-- What a handler does once both identifiers are read: its return code, and the state.
unfoldable pub build_client : Bytes → Bytes → M ℤ
build_client client_id dev_id = do
  set_guid guid_client client_id
  w ← get
  set_vc_manager (
      connect_by_client client_id
        (record {
          client_id = client_id;
          client_fd = w.conn.cfd;
          client_bev = w.conn.buffer_event;
          dev_id = dev_id;
        })
        w.vc_manager)
  pure (pos 0)

unfoldable pub build_dev : Bytes → Bytes → M ℤ
build_dev client_id dev_id = do
  set_guid guid_dev dev_id
  w ← get
  set_vc_manager (
      connect_by_dev dev_id
        (record {
          dev_id = dev_id;
          dev_fd = w.conn.cfd;
          dev_bev = w.conn.buffer_event;
          client_id = client_id;
        })
        w.vc_manager)
  pure (pos 0)

unfoldable pub free_client : Bytes → Bytes → M ℤ
free_client client_id dev_id = do
  w ← get
  set_vc_manager (disconnect_by_client client_id dev_id w.vc_manager)
  pure (pos 0)

unfoldable pub free_dev : Bytes → Bytes → M ℤ
free_dev client_id dev_id = do
  w ← get
  set_vc_manager (disconnect_by_dev dev_id client_id w.vc_manager)
  pure (pos 0)

-- The part that the four handlers share word for word: two identifiers, the client's first.
unfoldable pub with_ids : Bytes → (Bytes → Bytes → M ℤ) → M ℤ
unfolding read_id
with_ids here act = do
  c ← lift (read_id here)
  elim c [
    | none ↦ pure (neg error_tlv_parse_client_id)
    | some (client_id, rest) ↦ do
      d ← lift (read_id rest)
      elim d [
        | none ↦ pure (neg error_tlv_parse_dev_id)
        | some (dev_id, end) ↦ act client_id dev_id
      ]
  ]

module _ (env : Env) where
  unfoldable pub handle_heartbeat : ℕ → Slice → M ℤ
  unfolding heartbeat_ret send_response
  handle_heartbeat mid cmd_value = do
    type ← read32 cmd_value.here
    ret ← lift (heartbeat_ret type cmd_value.here)
    send_response env (pack_heart_beat_resp_msg mid ret) (pos 0)

  unfoldable pub handle_client_build_vc : ℕ → Slice → M ℤ
  unfolding build_client send_response
  handle_client_build_vc mid cmd_value = do
    ret ← with_ids cmd_value.here build_client
    send_response env (pack_client_build_vc_resp_msg mid ret) (pos 0)

  -- Returning an error makes the caller close the connection.
  unfoldable pub handle_client_free_vc : ℕ → Slice → M ℤ
  unfolding free_client send_response
  handle_client_free_vc mid cmd_value = do
    ret ← with_ids cmd_value.here free_client
    send_response env (pack_client_free_vc_resp_msg mid ret) (neg error_client_vc_invalid)

  -- The device gets the client's reply: `PackClientBuildVcRespMsg`.
  unfoldable pub handle_dev_build_vc : ℕ → Slice → M ℤ
  unfolding build_dev send_response
  handle_dev_build_vc mid cmd_value = do
    ret ← with_ids cmd_value.here build_dev
    send_response env (pack_client_build_vc_resp_msg mid ret) (pos 0)

  -- Here too: `PackClientFreeVcRespMsg`.
  unfoldable pub handle_dev_free_vc : ℕ → Slice → M ℤ
  unfolding free_dev send_response
  handle_dev_free_vc mid cmd_value = do
    ret ← with_ids cmd_value.here free_dev
    send_response env (pack_client_free_vc_resp_msg mid ret) (neg error_dev_vc_invalid)
