-- ===== src/Dispatcher/Sending.antt =====
-- The handlers that forward a client's messages, and those that pass the device's answers on.
use alarm.Base.{ℕ, ◌≡◌, ◌≢◌, refl, List, [], ◌∷◌, some, arith}
use alarm.Base.Bytes.{Bytes, bytes_eq_iff}
use alarm.Base.Int.{ℤ, neg}
use alarm.Base.Maps.{bytes_Eq}
use alarm.Connection.{World, Env, guid_client}
use alarm.Dispatcher.Handler.{Slice}
use alarm.Dispatcher.Building.{client_entry, built}
use alarm.Dispatcher.Push.{route_of_conn, forward_start_send, forward_send_voice}
use alarm.Errors.{error_client_vc_invalid, error_cannot_find_dev_for_client}
use alarm.VoiceChannel.{
  failed, ClientVcInfo, DevVcInfo, VoiceChannelManager, route_client_to_dev, connect_by_client,
}
use alarm.VoiceChannel.Queues.{client_of, channels}
use alarm.VoiceChannel.Routing.{route-route_view, route_view}
use alarm.VoiceChannel.View.{client_of-connect_by_client}

named_unrouted :
    (c : Bytes) (m : VoiceChannelManager) (i : ClientVcInfo)
    → client_of c m ≡ some i
    → i.dev_id ≢ []
    → (ret : ℤ) × (route_client_to_dev c [] m ≡ failed ret)
named_unrouted c m i h ne = by_channels (channels [] c m) (route-route_view c [] m)
  where
    by_channels :
        (ds : List DevVcInfo)
        → route_client_to_dev c [] m ≡ route_view [] (client_of c m) ds
        → (ret : ℤ) × (route_client_to_dev c [] m ≡ failed ret)
    by_channels [] e = (neg error_client_vc_invalid, ground (arith, bytes_eq_iff i.dev_id []))
    by_channels (d ∷ ds) e = (neg error_client_vc_invalid, ground (arith, bytes_eq_iff i.dev_id []))

-- A client whose entry names its device is never routed: the handlers look the empty name up.
pub named_client_unrouted :
    (w : World) (i : ClientVcInfo)
    → w.conn.guid_type ≡ guid_client
    → w.conn.guid ≢ []
    → client_of w.conn.guid w.vc_manager ≡ some i
    → i.dev_id ≢ []
    → route_of_conn w ≡ failed (neg error_cannot_find_dev_for_client)
unfolding route_of_conn
named_client_unrouted w i t g h ne =
    let (ret, r) = named_unrouted w.conn.guid w.vc_manager i h ne in
    ground (arith, r, bytes_eq_iff w.conn.guid [])

-- A client that has just built a channel to a device, both with names that are not empty, can send the
-- device neither the start of a message nor voice: both handlers go on to reply that no device is
-- found, and change nothing.
pub built_client_cannot_send :
    (env : Env) (mid : ℕ) (start voice : Slice) (client_id dev_id reply : Bytes) (w : World)
    → client_id ≢ []
    → dev_id ≢ []
    → start.size ≡ 0
    → let w' =
        built env guid_client client_id
          (connect_by_client client_id (client_entry client_id dev_id w) w.vc_manager)
          reply
          w in
      (forward_start_send env mid start w' ≡ some (some (neg error_cannot_find_dev_for_client), w'))
      × (forward_send_voice env mid voice w'
          ≡ some (some (neg error_cannot_find_dev_for_client), w'))
unfolding forward_start_send forward_send_voice
built_client_cannot_send env mid start voice client_id dev_id reply w hc hd hs =
    let w' =
      built env guid_client client_id
        (connect_by_client client_id (client_entry client_id dev_id w) w.vc_manager) reply w in
    let entry : client_of client_id w'.vc_manager ≡ some (client_entry client_id dev_id w) =
      ground (
        arith,
        client_of-connect_by_client client_id [] client_id [] w.vc_manager
            (client_entry client_id dev_id w),
        bytes_eq_iff client_id client_id,
      ) in
    let unrouted = named_client_unrouted w' (client_entry client_id dev_id w) refl hc entry hd in
    (ground (arith, unrouted), ground (arith, unrouted))
