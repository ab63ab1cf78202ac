-- ===== src/Tlv/Layout.antt =====
-- The messages that the server sends: each declares its own length, but for the heartbeat's answer.
use alarm.Base.{ℕ, ◌+◌, ◌^◌, ◌<◌, ◌≡◌, refl, Option, some, arith, length, drop}
use alarm.Base.Bytes.{Bytes}
use alarm.Base.Int.{ℤ}
use alarm.Coding.{put_fixed32, encode_fixed32, decode_fixed32}
use alarm.Timers.{PushMsgContext}
use alarm.Tlv.{
  pack_heart_beat_resp_msg, pack_client_build_vc_resp_msg, pack_start_send_push_msg,
  pack_start_send_resp_msg, pack_send_voice_push_msg, pack_client_send_voice_resp_msg,
  pack_client_free_vc_resp_msg, pack_dev_build_vc_resp_msg, pack_dev_free_vc_resp_msg,
  encode_resp_msg,
}

-- The length that a message declares: the value of its first block.
unfoldable pub declared : Bytes → Option ℕ
declared msg = decode_fixed32 (drop 8 msg)

abbrev pub DeclaresLength : Bytes → Type 0
DeclaresLength msg = declared msg ≡ some (length msg)

-- Each reply and push of fixed size but the heartbeat's answer declares, in its first block, the length
-- that it has; the reply to a timeout does where it is built with the length 36 that `Finish` passes.
pub fixed_size_lengths :
    (mid : ℕ) (ret : ℤ) (ct : PushMsgContext)
    → DeclaresLength (pack_client_build_vc_resp_msg mid ret)
      × DeclaresLength (pack_start_send_push_msg mid)
      × DeclaresLength (pack_start_send_resp_msg mid ret)
      × DeclaresLength (pack_client_send_voice_resp_msg mid ret)
      × DeclaresLength (pack_client_free_vc_resp_msg mid ret)
      × DeclaresLength (pack_dev_build_vc_resp_msg mid ret)
      × DeclaresLength (pack_dev_free_vc_resp_msg mid ret)
      × DeclaresLength (encode_resp_msg ct 36)
unfolding declared put_fixed32 encode_fixed32 decode_fixed32 pack_client_build_vc_resp_msg
    pack_start_send_push_msg pack_start_send_resp_msg pack_client_send_voice_resp_msg
    pack_client_free_vc_resp_msg pack_dev_build_vc_resp_msg pack_dev_free_vc_resp_msg
    encode_resp_msg
fixed_size_lengths mid ret ct = (refl, refl, refl, refl, refl, refl, refl, refl)

-- A pushed voice message declares its length in its first block, if that fits a uint32_t.
pub voice_length :
    (mid : ℕ) (voice : Bytes)
    → 32 + length voice < 2 ^ 32
    → DeclaresLength (pack_send_voice_push_msg mid voice)
unfolding declared put_fixed32 encode_fixed32 decode_fixed32 pack_send_voice_push_msg
voice_length mid voice h = ground arith

-- The heartbeat's answer declares four bytes less than it has.
pub heartbeat_length :
    (mid : ℕ) (ret : ℤ)
    → (declared (pack_heart_beat_resp_msg mid ret) ≡ some 32)
      × (length (pack_heart_beat_resp_msg mid ret) ≡ 36)
unfolding declared put_fixed32 encode_fixed32 decode_fixed32 pack_heart_beat_resp_msg
heartbeat_length mid ret = (refl, refl)
