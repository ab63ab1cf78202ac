-- ===== src/Connection.antt =====
-- voice_server/src/connection.h, and the state that a handler of dispatcher.cc can reach: the
-- connection of the message, the dispatcher's channels and timers, the counter of pushed messages,
-- and what was put on each socket.
use alarm.Base.{ℕ, List}
use alarm.Base.Bytes.{Bytes}
use alarm.Net.{SendReply}
use alarm.Time.{UTime, Seconds}
use alarm.Timers.{PushMsgTimerQueue}
use alarm.VoiceChannel.{VoiceChannelManager}

-- The fields that the handlers read or set. A `guid_type` of 0 is what `memset` leaves.
pub record ConnectionInfo : Type 0 where
  pub cfd : ℕ
  pub buffer_event : ℕ
  pub guid_type : ℕ
  pub guid : Bytes

-- `GUID_CLIENT` and `GUID_DEV`
abbrev pub guid_client : ℕ
guid_client = 1

abbrev pub guid_dev : ℕ
guid_dev = 2

-- `wire` has the bytes that each `WriteSfd` got through, with their socket, newest first.
pub record World : Type 0 where
  pub conn : ConnectionInfo
  pub vc_manager : VoiceChannelManager
  pub push_msg_timer_queue : PushMsgTimerQueue
  pub push_msg_mid : ℕ
  pub wire : List (ℕ × Bytes)

-- What the program does not decide: the kernel's replies to the calls of `send` for a message, given
-- the traffic before it, the clock, and `tlv_push_msg_timeout` of the configuration.
pub record Env : Type 0 where
  pub replies : List (ℕ × Bytes) → ℕ → Bytes → List SendReply
  pub now : UTime
  pub push_timeout : Seconds
