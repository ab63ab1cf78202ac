-- ===== src/Dispatcher/Handler.antt =====
-- The steps that the handlers of dispatcher.cc are made of: a state monad with faults over `World`, reads
-- through pointers into the message, and `SendMsg`. `none` is undefined behaviour: a read past the end
-- of the message and its terminator, a failed assertion, or the use of a variable that was never set.
use alarm.Base.{
  ℕ, ◌+◌, ◌%◌, ◌^◌, ◌∷◌, Option, none, some, length, take, drop, ltb, leb, if◌then◌else◌,
}
use alarm.Base.Bytes.{Bytes}
use alarm.Base.Int.{ℤ, pos, neg, is_zero}
pub use alarm.Base.Run.{◌>>=◌, ◌>>◌, pure, fault, lift, get}
use alarm.Base.Run.{Run}
use alarm.Coding.{decode_fixed32}
use alarm.Connection.{World, Env}
use alarm.Errors.{error_tlv_send_msg}
use alarm.Net.{Written, write_sfd}
use alarm.Timers.{PushMsgTimerQueue, PushMsgContext, add_event_after}
use alarm.Tlv.{max_guid_len, msg_header_size}
use alarm.VoiceChannel.{VoiceChannelManager}

abbrev pub M : Type 0 → Type 0
M A = Run World A

abbrev pub set_vc_manager : VoiceChannelManager → M (Unit {0})
set_vc_manager m w = some (tt, record w { vc_manager = m })

abbrev pub set_timers : PushMsgTimerQueue → M (Unit {0})
set_timers q w = some (tt, record w { push_msg_timer_queue = q })

-- `conn_info->guid_type = …; conn_info->guid = …;`
abbrev pub set_guid : ℕ → Bytes → M (Unit {0})
set_guid guid_type guid w =
    some (tt, record w { conn = record (w.conn) { guid_type = guid_type; guid = guid } })

-- `DecodeFixed32(p)`
abbrev pub read32 : Bytes → M ℕ
read32 p = lift (decode_fixed32 p)

-- A slice points into the message: `here` is what stands from its pointer to the terminator, and may be
-- shorter or longer than `size`.
pub record Slice : Type 0 where
  pub here : Bytes
  pub size : ℕ

-- `string(p, len)`
unfoldable pub assign : Bytes → ℕ → Option Bytes
assign p len = if leb len (length p) then some (take len p) else none

-- An identifier of at most `MAX_GUID_LEN` bytes with its header, and what follows it; the inner `none` is
-- the error that it is longer. The type in the header is read and not looked at.
unfoldable pub read_id : Bytes → Option (Option (Bytes × Bytes))
unfolding assign
read_id p = elim (decode_fixed32 p) [
  | none ↦ none
  | some type ↦ elim (decode_fixed32 (drop 4 p)) [
    | none ↦ none
    | some len ↦
        if ltb max_guid_len len then some none else elim (assign (drop msg_header_size p) len) [
          | none ↦ none
          | some id ↦ some (some (id, drop len (drop msg_header_size p)))
        ]
  ]
]

-- `g_push_msg_mid.incrementAndGet()`
unfoldable pub increment_and_get : M ℕ
increment_and_get w =
    let mid = (w.push_msg_mid + 1) % 2 ^ 32 in some (mid, record w { push_msg_mid = mid })

module _ (env : Env) where
  unfoldable pub send_msg : ℕ → Bytes → M ℤ
  send_msg fd msg w =
      let written = write_sfd (env.replies w.wire fd msg) msg in
      some (
        if written.success then pos 0 else neg error_tlv_send_msg,
        record w { wire = (fd, written.taken) ∷ w.wire },
      )

  -- The end of each handler, from `SEND_RESPONSE` on: the reply goes to the connection.
  unfoldable pub send_response : Bytes → ℤ → M ℤ
  unfolding send_msg
  send_response resp_msg ret w = elim (send_msg w.conn.cfd resp_msg w) [
    | none ↦ none
    | some (sent, w') ↦ some (if is_zero sent then ret else neg error_tlv_send_msg, w')
  ]

  unfoldable pub forward_msg_to_dev : ℕ → ℕ → Bytes → PushMsgContext → M ℤ
  unfolding send_msg
  forward_msg_to_dev push_fd push_mid push_msg ct w = elim (send_msg push_fd push_msg w) [
    | none ↦ none
    | some (ret, w') ↦
        if is_zero ret
        then (elim (add_event_after env.now env.push_timeout push_mid ct w'.push_msg_timer_queue) [
          | none ↦ none
          | some q ↦ some (pos 0, record w' { push_msg_timer_queue = q })
        ])
        else some (ret, w')
  ]

-- How a message to a socket fares in the state `w`.
abbrev pub sending : Env → World → ℕ → Bytes → Written
sending env w fd msg = write_sfd (env.replies w.wire fd msg) msg
