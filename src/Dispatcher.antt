-- ===== src/Dispatcher.antt =====
-- voice_server/src/dispatcher.cc: `TlvDispatcher::HandleMsg`, which reads a message's id, command and
-- value and calls the command's handler.
pub mod Handler
pub mod Channels
pub mod Push
pub mod Parse
pub mod Sound
pub mod Building
pub mod Sending
pub mod Forwarding
pub mod Quiet
pub mod Keeping
pub mod Invariant
mod Tests
use alarm.Base.{
  ℕ, ◌+◌, ◌%◌, ◌^◌, Bool, true, false, not, ◌||◌, List, [], ◌∷◌, ◌++◌, Option, none, some, length,
  drop, ◌==◌, if◌then◌else◌,
}
use alarm.Base.Bytes.{Bytes}
use alarm.Base.Int.{ℤ, pos, neg}
use alarm.Connection.{Env}
use alarm.Errors.{error_tlv_parse_mid, error_tlv_parse_cmd}
use alarm.Tlv.{
  msg_header_size, type_mid, type_heartbeat, type_client_build_vc, type_client_start_send,
  type_push_client_start_send, type_client_send_voice_data, type_push_client_voice_data,
  type_client_free_vc, type_dev_build_vc, type_dev_free_vc,
}
use Handler.{M, ◌>>=◌, pure, fault, read32, Slice}
use Channels.{
  handle_heartbeat, handle_client_build_vc, handle_client_free_vc, handle_dev_build_vc,
  handle_dev_free_vc,
}
use Push.{
  handle_client_start_send, handle_on_push_start_send, handle_client_send_voice,
  handle_on_push_client_voice,
}

-- The value of the command: a message id, a command and a slice.
pub record Command : Type 0 where
  pub mid : ℕ
  pub cmd : ℕ
  pub value : Slice

pub data Parsed : Type 0 where
  refused : ℤ → Parsed
  command : Command → Parsed

-- `tlv_data.c_str()` is the message with a terminator behind it.
abbrev pub c_str : Bytes → Bytes
c_str s = s ++ (0 ∷ [])

unfoldable pub parse_msg : Bytes → M Parsed
parse_msg tlv_data = do
  mid_type ← read32 (c_str tlv_data)
  mid_len ← read32 (drop 4 (c_str tlv_data))
  mid ← read32 (drop 8 (c_str tlv_data))
  if not (mid_type == type_mid) || not (mid_len == 4)
      then pure (refused (neg error_tlv_parse_mid))
      else (do
        let parsing_ptr = drop (msg_header_size + mid_len) (c_str tlv_data)
        cmd ← read32 parsing_ptr
        len ← read32 (drop 4 parsing_ptr)
        let value : Slice = record { here = drop msg_header_size parsing_ptr; size = len }
        let expected = (msg_header_size + mid_len + msg_header_size + len) % 2 ^ 32
        if not (length tlv_data == expected)
            then pure (refused (neg error_tlv_parse_cmd))
            else pure (command (record { mid = mid; cmd = cmd; value = value })))

module _ (env : Env) where
  -- The `switch`. Where no case fits, `ret` is read though it was never set.
  unfoldable pub dispatch : Command → M ℤ
  dispatch c =
      if c.cmd == type_heartbeat
      then handle_heartbeat env c.mid c.value
      else if c.cmd == type_client_build_vc
      then handle_client_build_vc env c.mid c.value
      else if c.cmd == type_client_start_send
      then handle_client_start_send env c.mid c.value
      else if c.cmd == type_push_client_start_send
      then handle_on_push_start_send env c.mid c.value
      else if c.cmd == type_client_send_voice_data
      then handle_client_send_voice env c.mid c.value
      else if c.cmd == type_push_client_voice_data
      then handle_on_push_client_voice env c.mid c.value
      else if c.cmd == type_client_free_vc
      then handle_client_free_vc env c.mid c.value
      else if c.cmd == type_dev_build_vc
      then handle_dev_build_vc env c.mid c.value
      else if c.cmd == type_dev_free_vc
      then handle_dev_free_vc env c.mid c.value
      else fault

  unfoldable pub handle_msg : Bytes → M ℤ
  unfolding parse_msg dispatch
  handle_msg tlv_data = do
    p ← parse_msg tlv_data
    elim p [ refused ret ↦ pure ret | command c ↦ dispatch c ]
