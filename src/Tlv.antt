-- ===== src/Tlv.antt =====
-- voice_server/src/tlv_define.h and the functions of dispatcher.cc and push_msg_timer_queue.cc that
-- build messages: blocks of a type, a length and a value, each number a uint32_t.
pub mod Layout
mod Tests
use alarm.Base.{ℕ, ◌+◌, ◌%◌, ◌^◌, [], ◌++◌, length}
use alarm.Base.Bytes.{Bytes}
use alarm.Base.Int.{ℤ, neg, to_u32}
use alarm.Coding.{put_fixed32}
use alarm.Errors.{error_recv_push_msg_resp_timeout}
use alarm.Timers.{PushMsgContext}

abbrev pub type_length : ℕ
type_length = 0

abbrev pub type_mid : ℕ
type_mid = 1

abbrev pub type_client_id : ℕ
type_client_id = 2

abbrev pub type_dev_id : ℕ
type_dev_id = 3

abbrev pub type_heartbeat : ℕ
type_heartbeat = 4

abbrev pub type_on_heartbeat : ℕ
type_on_heartbeat = 5

abbrev pub type_client_build_vc : ℕ
type_client_build_vc = 1000

abbrev pub type_on_client_build_vc : ℕ
type_on_client_build_vc = 1001

abbrev pub type_client_start_send : ℕ
type_client_start_send = 1002

abbrev pub type_on_client_start_send : ℕ
type_on_client_start_send = 1003

abbrev pub type_client_send_voice_data : ℕ
type_client_send_voice_data = 1004

abbrev pub type_on_client_send_voice_data : ℕ
type_on_client_send_voice_data = 1005

abbrev pub type_client_free_vc : ℕ
type_client_free_vc = 1006

abbrev pub type_on_client_free_vc : ℕ
type_on_client_free_vc = 1007

abbrev pub type_push_client_start_send : ℕ
type_push_client_start_send = 1008

abbrev pub type_push_client_voice_data : ℕ
type_push_client_voice_data = 1010

abbrev pub type_dev_build_vc : ℕ
type_dev_build_vc = 2000

abbrev pub type_on_dev_build_vc : ℕ
type_on_dev_build_vc = 2001

abbrev pub type_dev_free_vc : ℕ
type_dev_free_vc = 2004

abbrev pub type_on_dev_free_vc : ℕ
type_on_dev_free_vc = 2005

-- `kMsgHeaderSize` and `MAX_GUID_LEN`
abbrev pub msg_header_size : ℕ
msg_header_size = 8

abbrev pub max_guid_len : ℕ
max_guid_len = 256

unfoldable pub encode_common_tlv : Bytes → ℕ → ℕ → Bytes
encode_common_tlv resp_msg msg_len mid =
    put_fixed32
      (put_fixed32
        (put_fixed32 (put_fixed32 (put_fixed32 (put_fixed32 resp_msg type_length) 4) msg_len)
          type_mid)
        4)
      mid

unfoldable pub encode_ret : Bytes → ℕ → ℤ → Bytes
encode_ret resp_msg on_cmd ret =
    put_fixed32 (put_fixed32 (put_fixed32 resp_msg on_cmd) 4) (to_u32 ret)

unfoldable pub pack_heart_beat_resp_msg : ℕ → ℤ → Bytes
unfolding encode_common_tlv encode_ret
pack_heart_beat_resp_msg mid ret =
    encode_ret
      (encode_common_tlv [] (msg_header_size + 4 + msg_header_size + 4 + msg_header_size) mid)
      type_on_heartbeat ret

unfoldable pub pack_client_build_vc_resp_msg : ℕ → ℤ → Bytes
unfolding encode_common_tlv encode_ret
pack_client_build_vc_resp_msg mid ret =
    encode_ret
      (encode_common_tlv [] (msg_header_size + 4 + msg_header_size + 4 + msg_header_size + 4) mid)
      type_on_client_build_vc ret

-- `PackStartSendPushMsg`, given the message id that the counter gave.
unfoldable pub pack_start_send_push_msg : ℕ → Bytes
unfolding encode_common_tlv
pack_start_send_push_msg push_mid =
    put_fixed32
      (put_fixed32
        (encode_common_tlv [] (msg_header_size + 4 + msg_header_size + 4 + msg_header_size)
          push_mid)
        type_push_client_start_send)
      0

unfoldable pub pack_start_send_resp_msg : ℕ → ℤ → Bytes
unfolding encode_common_tlv
pack_start_send_resp_msg mid ret =
    put_fixed32
      (put_fixed32
        (encode_common_tlv [] (msg_header_size + 4 + msg_header_size + 4 + msg_header_size) mid)
        type_on_client_start_send)
      (to_u32 ret)

-- `PackSendVoicePushMsg`, given the message id that the counter gave, and the slice's bytes.
unfoldable pub pack_send_voice_push_msg : ℕ → Bytes → Bytes
unfolding encode_common_tlv
pack_send_voice_push_msg push_mid voice =
    put_fixed32
      (put_fixed32
        (encode_common_tlv []
          ((msg_header_size + 4 + msg_header_size + 4 + msg_header_size + length voice) % 2 ^ 32)
          push_mid)
        type_push_client_voice_data)
      (length voice % 2 ^ 32)
    ++ voice

unfoldable pub pack_client_send_voice_resp_msg : ℕ → ℤ → Bytes
unfolding encode_common_tlv
pack_client_send_voice_resp_msg mid ret =
    put_fixed32
      (put_fixed32
        (encode_common_tlv [] (msg_header_size + 4 + msg_header_size + 4 + msg_header_size) mid)
        type_on_client_send_voice_data)
      (to_u32 ret)

unfoldable pub pack_client_free_vc_resp_msg : ℕ → ℤ → Bytes
unfolding encode_common_tlv encode_ret
pack_client_free_vc_resp_msg mid ret =
    encode_ret
      (encode_common_tlv [] (msg_header_size + 4 + msg_header_size + 4 + msg_header_size + 4) mid)
      type_on_client_free_vc ret

-- These two are never called.
unfoldable pub pack_dev_build_vc_resp_msg : ℕ → ℤ → Bytes
unfolding encode_common_tlv encode_ret
pack_dev_build_vc_resp_msg mid ret =
    encode_ret
      (encode_common_tlv [] (msg_header_size + 4 + msg_header_size + 4 + msg_header_size + 4) mid)
      type_on_dev_build_vc ret

unfoldable pub pack_dev_free_vc_resp_msg : ℕ → ℤ → Bytes
unfolding encode_common_tlv encode_ret
pack_dev_free_vc_resp_msg mid ret =
    encode_ret
      (encode_common_tlv [] (msg_header_size + 4 + msg_header_size + 4 + msg_header_size + 4) mid)
      type_on_dev_free_vc ret

-- `PushMsgContext::EncodeRespMsg`, as `Finish` calls it: the reply where the device does not answer.
unfoldable pub encode_resp_msg : PushMsgContext → ℕ → Bytes
encode_resp_msg ct msg_len =
    put_fixed32
      (put_fixed32
        (put_fixed32
          (put_fixed32
            (put_fixed32
              (put_fixed32 (put_fixed32 (put_fixed32 (put_fixed32 [] type_length) 4) msg_len)
                type_mid)
              4)
            ct.recv_mid)
          ct.response_type)
        4)
      (to_u32 (neg error_recv_push_msg_resp_timeout))
