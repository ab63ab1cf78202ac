-- ===== src/Dispatcher/Tests.antt =====
-- A client and a camera through the handlers of dispatcher.cc.
use alarm.Base.{ℕ, ◌≡◌, refl, arith, false, [], ◌∷◌, ◌++◌, some, none, length, ◌==◌, if◌then◌else◌}
use alarm.Base.Bytes.{Bytes, bytes_eq}
use alarm.Base.Int.{pos, neg, to_i32}
use alarm.Base.Maps.{lookup, equal_range, insert}
use alarm.Coding.{encode_fixed32, decode_fixed32, put_fixed32}
use alarm.Connection.{World, Env, ConnectionInfo, guid_client}
use alarm.Dispatcher.{command, parse_msg, c_str, dispatch, handle_msg}
use alarm.Dispatcher.Building.{client_entry, built, ids}
use alarm.Dispatcher.Forwarding.{forwarded, awaiting, replied, start_send_forwards, answer_replies}
use alarm.Dispatcher.Handler.{Slice, increment_and_get, forward_msg_to_dev, send_msg}
use alarm.Dispatcher.Invariant.{handle_msg_keeps}
use alarm.Dispatcher.Parse.{request, requested, parse_msg-request}
use alarm.Dispatcher.Push.{
  forward_start_send, forward_send_voice, route_of_conn, handle_client_start_send,
  handle_on_push_start_send, handle_on_push_client_voice,
}
use alarm.Dispatcher.Sending.{built_client_cannot_send}
use alarm.Dispatcher.Sound.{parse_msg_sound}
use alarm.Errors.{error_cannot_find_dev_for_client}
use alarm.Net.{sent, write_sfd, write_loop}
use alarm.Timers.{Node, PushMsgTimerQueue, add_event_after, add_event_at}
use alarm.Timers.Schedule.{find_mid}
use alarm.Timers.Valid.{IsValid, pending, empty-IsValid}
use alarm.Timers.{empty}
use alarm.Tlv.{
  type_on_client_start_send, pack_start_send_push_msg, pack_start_send_resp_msg,
  pack_client_send_voice_resp_msg,
}
use alarm.VoiceChannel.{
  VoiceChannelManager, connect_by_client, routed, route_client_to_dev, find_channel,
}

abbrev alice : Bytes
alice = 97 ∷ []

abbrev camera : Bytes
camera = 99 ∷ 49 ∷ []

-- Every send takes the whole message.
abbrev env : Env
env = record {
  replies = λ wire fd msg. sent 100000 ∷ [];
  now = record { tv_sec = 100; tv_nsec = 0 };
  push_timeout = record { whole = 5; nanos = 0 };
}

abbrev no_channels : VoiceChannelManager
no_channels = record { client_vc_map = []; dev_vc_map = []; freed = [] }

abbrev connected : ConnectionInfo
connected = record { cfd = 5; buffer_event = 50; guid_type = 0; guid = [] }

abbrev start : World
start = record {
  conn = connected;
  vc_manager = no_channels;
  push_msg_timer_queue = empty;
  push_msg_mid = 40;
  wire = [];
}

-- A heartbeat that names alice.
abbrev heartbeat_value : Bytes
heartbeat_value = 2 ∷ 0 ∷ 0 ∷ 0 ∷ 1 ∷ 0 ∷ 0 ∷ 0 ∷ 97 ∷ []

parse_msg-request_example :
    parse_msg (request 3 4 heartbeat_value) start
    ≡ some (command (requested 3 4 heartbeat_value), start)
parse_msg-request_example =
    parse_msg-request 3 4 heartbeat_value start (omega arith) (omega arith) (omega arith)

abbrev tlv_data : Bytes
tlv_data =
    1 ∷ 0 ∷ 0 ∷ 0 ∷ 4 ∷ 0 ∷ 0 ∷ 0 ∷ 3 ∷ 0 ∷ 0 ∷ 0 ∷ 4 ∷ 0 ∷ 0 ∷ 0 ∷ 9 ∷ 0 ∷ 0 ∷ 0 ∷ heartbeat_value

parse_msg_sound_example :
    (value : Bytes) × (tlv_data ≡ request 3 4 value)
    × (9 ≡ length value)
    × (c_str heartbeat_value ≡ c_str value)
    × (start ≡ start)
unfolding parse_msg decode_fixed32
parse_msg_sound_example =
    parse_msg_sound tlv_data (requested 3 4 heartbeat_value) start start (omega arith) refl

abbrev start_value : Slice
start_value = record { here = 0 ∷ []; size = 0 }

abbrev voice_value : Slice
voice_value = record { here = 7 ∷ 8 ∷ 0 ∷ []; size = 2 }

abbrev alice_built : World
alice_built =
    built env guid_client alice
      (connect_by_client alice (client_entry alice camera start) no_channels) [] start

built_client_cannot_send_example :
    (forward_start_send env 9 start_value alice_built
      ≡ some (some (neg error_cannot_find_dev_for_client), alice_built))
    × (forward_send_voice env 9 voice_value alice_built
        ≡ some (some (neg error_cannot_find_dev_for_client), alice_built))
built_client_cannot_send_example =
    built_client_cannot_send env 9 start_value voice_value alice camera [] start (λ e. ground arith)
      (λ e. ground arith) refl

abbrev build_value : Slice
build_value = record { here = ids 2 alice 3 camera ++ (0 ∷ []); size = 19 }

-- A client that named no device, and a device that has no name: the one pair that is routed.
abbrev unnamed : World
unnamed = record start {
  conn = record { cfd = 5; buffer_event = 50; guid_type = 1; guid = alice };
  vc_manager = record {
    client_vc_map =
        (alice, record { client_id = alice; client_fd = 5; client_bev = 50; dev_id = [] }) ∷ [];
    dev_vc_map = ([], record { dev_id = []; dev_fd = 7; dev_bev = 70; client_id = alice }) ∷ [];
    freed = [];
  };
}

unnamed_routed : route_of_conn unnamed ≡ routed 7
unfolding route_of_conn route_client_to_dev find_channel lookup equal_range bytes_eq
unnamed_routed = refl

none_waits : (mid : ℕ) → pending mid empty ≡ none
unfolding find_mid
none_waits mid = refl

start_send_forwards_example :
    (q : PushMsgTimerQueue) × (handle_client_start_send env 9 start_value unnamed
      ≡ some (pos 0, forwarded env 7 (pack_start_send_push_msg 41) 41 q unnamed))
    × IsValid q
    × ((k : ℕ)
        → pending k q ≡ (
            if 41 == k
            then some (awaiting env 9 type_on_client_start_send unnamed)
            else pending k empty))
unfolding write_sfd write_loop pack_start_send_push_msg encode_fixed32 put_fixed32
start_send_forwards_example =
    start_send_forwards env 9 7 start_value unnamed unnamed_routed empty-IsValid (none_waits 41)
      refl refl

abbrev waiting : Node
waiting = record {
  node = 0;
  when = record { tv_sec = 105; tv_nsec = 0 };
  ct = record { recv_mid = 9; recv_cfd = 5; push_mid = 41; response_type = 1003 };
}

abbrev one_waits : World
one_waits = record start {
  push_msg_timer_queue = record {
    schedule = waiting ∷ [];
    events = (41, 0) ∷ [];
    next_node = 1;
    signals = 1;
    stop = false;
  };
}

one_waits-IsValid : IsValid (one_waits.push_msg_timer_queue)
unfolding find_mid lookup
one_waits-IsValid = record {
  sorted = (tt, tt);
  below = (omega arith, tt);
  nodes_differ = (tt, tt);
  mids_differ = (tt, tt);
  indexed = λ mid. ground arith;
}

abbrev answer_value : Slice
answer_value = record { here = 0 ∷ 0 ∷ 0 ∷ 0 ∷ 0 ∷ []; size = 4 }

answer_replies_example :
    (q : PushMsgTimerQueue) × (handle_on_push_start_send env 41 answer_value one_waits
      ≡ some (pos 0, replied env 5 (pack_start_send_resp_msg 9 (to_i32 0)) q one_waits))
    × (handle_on_push_client_voice env 41 answer_value one_waits
        ≡ some (pos 0, replied env 5 (pack_client_send_voice_resp_msg 9 (to_i32 0)) q one_waits))
    × IsValid q
    × ((k : ℕ)
        → pending k q ≡ (if 41 == k then none else pending k (one_waits.push_msg_timer_queue)))
unfolding decode_fixed32 find_mid
answer_replies_example =
    answer_replies env 41 0 answer_value waiting one_waits refl one_waits-IsValid refl

-- The client's message that starts its device sending, and where it leads.
abbrev start_send_data : Bytes
start_send_data =
    1 ∷ 0 ∷ 0 ∷ 0 ∷ 4 ∷ 0 ∷ 0 ∷ 0 ∷ 9 ∷ 0 ∷ 0 ∷ 0 ∷ 234 ∷ 3 ∷ 0 ∷ 0 ∷ 0 ∷ 0 ∷ 0 ∷ 0 ∷ []

abbrev pushed : World
pushed =
    forwarded env 7 (pack_start_send_push_msg 41) 41
      (record {
        schedule = awaiting env 9 type_on_client_start_send unnamed ∷ [];
        events = (41, 0) ∷ [];
        next_node = 1;
        signals = 1;
        stop = false;
      })
      unnamed

start_send_handled : handle_msg env start_send_data unnamed ≡ some (pos 0, pushed)
unfolding handle_msg parse_msg dispatch handle_client_start_send forward_start_send
    increment_and_get forward_msg_to_dev send_msg add_event_after add_event_at write_sfd write_loop
    decode_fixed32 route_of_conn route_client_to_dev find_channel lookup equal_range bytes_eq
    pack_start_send_push_msg put_fixed32 encode_fixed32 insert
start_send_handled = refl

handle_msg_keeps_example : IsValid (pushed.push_msg_timer_queue)
handle_msg_keeps_example =
    handle_msg_keeps env start_send_data unnamed pushed (pos 0) empty-IsValid (none_waits 41)
      start_send_handled
