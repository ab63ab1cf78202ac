-- ===== src/VoiceChannel/Routing.antt =====
-- `RouteClientToDev` after the operations of voice_channel.cc, stated on the manager's view.
use alarm.Base.{ℕ, ◌≡◌, refl, ◌≢◌, ◌↔◌, List, [], ◌∷◌, Option, none, some, arith, if◌then◌else◌}
use alarm.Base.Bytes.{Bytes, bytes_eq, bytes_eq_iff}
use alarm.Base.Int.{neg}
use alarm.Base.Maps.{bytes_Eq}
use alarm.Errors.{error_client_vc_invalid, error_dev_vc_invalid}
use alarm.VoiceChannel.{
  ClientVcInfo, DevVcInfo, VoiceChannelManager, Route, routed, failed, connect_by_client,
  connect_by_dev, disconnect_by_client, disconnect_by_dev, route_client_to_dev,
}
use alarm.VoiceChannel.Queues.{client_of, channels, head?, find_channel-channels}
use alarm.VoiceChannel.View.{
  without, client_of-connect_by_client, channels-connect_by_client, client_of-connect_by_dev,
  channels-connect_by_dev, client_of-disconnect_by_client, client_of-drop_client,
  channels-disconnect_by_client, client_of-disconnect_by_dev, channels-disconnect_by_dev,
}

-- The route as the view determines it.
abbrev pub route_view : Bytes → Option ClientVcInfo → List DevVcInfo → Route
route_view dev none ds = failed (neg error_client_vc_invalid)
route_view dev (some i) [] =
    if bytes_eq i.dev_id dev
    then failed (neg error_dev_vc_invalid)
    else failed (neg error_client_vc_invalid)
route_view dev (some i) (d ∷ ds) =
    if bytes_eq i.dev_id dev then routed d.dev_fd else failed (neg error_client_vc_invalid)

pub route-route_view :
    (c dev : Bytes) (m : VoiceChannelManager)
    → route_client_to_dev c dev m ≡ route_view dev (client_of c m) (channels dev c m)
unfolding route_client_to_dev
route-route_view c dev m = ground (arith, find_channel-channels dev c m.dev_vc_map)

-- The client's entry names the device, and the oldest channel has the descriptor.
abbrev pub Leads : Bytes → ℕ → Option ClientVcInfo → List DevVcInfo → Type 0
Leads dev fd o ds =
    (i : ClientVcInfo) × (d : DevVcInfo) × (o ≡ some i)
    × (i.dev_id ≡ dev)
    × (head? ds ≡ some d)
    × (d.dev_fd ≡ fd)

route_view-Leads :
    (dev : Bytes) (fd : ℕ) (o : Option ClientVcInfo) (ds : List DevVcInfo)
    → route_view dev o ds ≡ routed fd
    → Leads dev fd o ds
route_view-Leads dev fd none ds e = cc
route_view-Leads dev fd (some i) [] e = ground arith
route_view-Leads dev fd (some i) (d ∷ ds) e =
    (i, d, refl, ground (arith, bytes_eq_iff i.dev_id dev), refl, ground arith)

Leads-route_view :
    (dev : Bytes) (fd : ℕ) (o : Option ClientVcInfo) (ds : List DevVcInfo)
    → Leads dev fd o ds
    → route_view dev o ds ≡ routed fd
Leads-route_view dev fd none ds (i, d, a, b, x, y) = cc
Leads-route_view dev fd (some j) [] (i, d, a, b, x, y) = cc
Leads-route_view dev fd (some j) (d' ∷ ds) (i, d, a, b, x, y) =
    ground (arith, bytes_eq_iff j.dev_id dev)

-- A client is routed to a file descriptor exactly when the client's entry names the device and the
-- oldest channel that the device has open for the client has that descriptor.
pub routed_iff :
    (c dev : Bytes) (fd : ℕ) (m : VoiceChannelManager)
    → (route_client_to_dev c dev m ≡ routed fd) ↔ Leads dev fd (client_of c m) (channels dev c m)
routed_iff c dev fd m = rw (route-route_view c dev m) (
  route_view-Leads dev fd (client_of c m) (channels dev c m),
  Leads-route_view dev fd (client_of c m) (channels dev c m),
)

-- A device channel that connects after the client, or before it, is the one that the client is
-- routed to, if the device had no channel open for the client before.
pub connect_routes :
    (c dev : Bytes) (i : ClientVcInfo) (d : DevVcInfo) (m : VoiceChannelManager)
    → i.dev_id ≡ dev
    → d.client_id ≡ c
    → channels dev c m ≡ []
    → (route_client_to_dev c dev (connect_by_dev dev d (connect_by_client c i m)) ≡ routed d.dev_fd)
      × (route_client_to_dev c dev (connect_by_client c i (connect_by_dev dev d m))
          ≡ routed d.dev_fd)
connect_routes c dev i d m hi hd h = (
  ground (
    arith,
    route-route_view c dev (connect_by_dev dev d (connect_by_client c i m)),
    client_of-connect_by_dev c dev c dev (connect_by_client c i m) d,
    channels-connect_by_dev c dev c dev (connect_by_client c i m) d,
    client_of-connect_by_client c dev c dev m i,
    channels-connect_by_client c dev c dev m i,
    bytes_eq_iff c c,
    bytes_eq_iff dev dev,
    bytes_eq_iff i.dev_id dev,
    bytes_eq_iff d.client_id c,
  ),
  ground (
    arith,
    route-route_view c dev (connect_by_client c i (connect_by_dev dev d m)),
    client_of-connect_by_client c dev c dev (connect_by_dev dev d m) i,
    channels-connect_by_client c dev c dev (connect_by_dev dev d m) i,
    channels-connect_by_dev c dev c dev m d,
    bytes_eq_iff c c,
    bytes_eq_iff dev dev,
    bytes_eq_iff i.dev_id dev,
    bytes_eq_iff d.client_id c,
  ),
)

route-connect_by_dev_again :
    (c dev : Bytes) (old d : DevVcInfo) (rest : List DevVcInfo) (m : VoiceChannelManager)
    → d.client_id ≡ c
    → channels dev c m ≡ old ∷ rest
    → route_client_to_dev c dev (connect_by_dev dev d m) ≡ route_client_to_dev c dev m
route-connect_by_dev_again c dev old d rest m hd h = ground (
  arith,
  route-route_view c dev m,
  route-route_view c dev (connect_by_dev dev d m),
  client_of-connect_by_dev c dev c dev m d,
  channels-connect_by_dev c dev c dev m d,
  bytes_eq_iff dev dev,
  bytes_eq_iff d.client_id c,
)

-- Where the device has a channel open for the client already, another one that it opens is never
-- routed to: the route is what it was, and the bufferevent of the channel that it leads to is freed.
pub reconnect_dev_stale :
    (c dev : Bytes) (old d : DevVcInfo) (rest : List DevVcInfo) (m : VoiceChannelManager)
    → d.client_id ≡ c
    → channels dev c m ≡ old ∷ rest
    → (route_client_to_dev c dev (connect_by_dev dev d m) ≡ route_client_to_dev c dev m)
      × ((connect_by_dev dev d m).freed ≡ old.dev_bev ∷ m.freed)
reconnect_dev_stale c dev old d rest m hd h = (
  route-connect_by_dev_again c dev old d rest m hd h,
  unfold connect_by_dev in ground (arith, find_channel-channels dev c m.dev_vc_map),
)

-- A client that has an entry and connects again gets its new entry, but the bufferevent that is freed
-- is the one of the new entry, and the old one is not.
pub reconnect_client_frees_new :
    (c : Bytes) (old i : ClientVcInfo) (m : VoiceChannelManager)
    → client_of c m ≡ some old
    → (client_of c (connect_by_client c i m) ≡ some i)
      × ((connect_by_client c i m).freed ≡ i.client_bev ∷ m.freed)
reconnect_client_frees_new c old i m h = (
  ground (arith, client_of-connect_by_client c [] c [] m i, bytes_eq_iff c c),
  unfold connect_by_client in ground arith,
)

-- Disconnecting a pair, from either side, leaves the client without a route to the device: the client's
-- entry, if it named the device, is gone.
pub disconnect_clears :
    (c dev : Bytes) (m : VoiceChannelManager)
    → (route_client_to_dev c dev (disconnect_by_client c dev m)
        ≡ failed (neg error_client_vc_invalid))
      × (route_client_to_dev c dev (disconnect_by_dev dev c m)
          ≡ failed (neg error_client_vc_invalid))
disconnect_clears c dev m = (
  rw route-route_view (
      rw (client_of-disconnect_by_client c dev c dev m, client_of-drop_client c dev c dev m)
        (cleared (client_of c m) (channels dev c (disconnect_by_client c dev m)))),
  rw route-route_view (
      rw (client_of-disconnect_by_dev c dev c dev m)
        (cleared (client_of c m) (channels dev c (disconnect_by_dev dev c m)))),
)
  where
    cleared :
        (o : Option ClientVcInfo) (ds : List DevVcInfo)
        → route_view dev (if bytes_eq c c then without dev o else o) ds
          ≡ failed (neg error_client_vc_invalid)
    cleared none ds = ground (arith, bytes_eq_iff c c)
    cleared (some i) [] = ground (arith, bytes_eq_iff c c)
    cleared (some i) (d ∷ ds) = ground (arith, bytes_eq_iff c c)

-- What one client and its devices do leaves the routes of every other client as they are.
pub other_routes :
    (c c' dev dev' : Bytes) (i : ClientVcInfo) (d : DevVcInfo) (m : VoiceChannelManager)
    → c' ≢ c
    → d.client_id ≡ c'
    → (route_client_to_dev c dev (connect_by_client c' i m) ≡ route_client_to_dev c dev m)
      × (route_client_to_dev c dev (connect_by_dev dev' d m) ≡ route_client_to_dev c dev m)
      × (route_client_to_dev c dev (disconnect_by_client c' dev' m) ≡ route_client_to_dev c dev m)
      × (route_client_to_dev c dev (disconnect_by_dev dev' c' m) ≡ route_client_to_dev c dev m)
other_routes c c' dev dev' i d m ne hd = (
  ground (
    arith,
    same (connect_by_client c' i m),
    client_of-connect_by_client c dev c' dev' m i,
    channels-connect_by_client c dev c' dev' m i,
    bytes_eq_iff c' c,
  ),
  ground (
    arith,
    same (connect_by_dev dev' d m),
    client_of-connect_by_dev c dev c' dev' m d,
    channels-connect_by_dev c dev c' dev' m d,
    bytes_eq_iff d.client_id c,
  ),
  ground (
    arith,
    same (disconnect_by_client c' dev' m),
    client_of-disconnect_by_client c dev c' dev' m,
    client_of-drop_client c dev c' dev' m,
    channels-disconnect_by_client c dev c' dev' m,
    bytes_eq_iff c' c,
  ),
  ground (
    arith,
    same (disconnect_by_dev dev' c' m),
    client_of-disconnect_by_dev c dev c' dev' m,
    channels-disconnect_by_dev c dev c' dev' m,
    bytes_eq_iff c' c,
  ),
)
  where
    same :
        (m' : VoiceChannelManager)
        → client_of c m' ≡ client_of c m
        → channels dev c m' ≡ channels dev c m
        → route_client_to_dev c dev m' ≡ route_client_to_dev c dev m
    same m' p q = ground (arith, route-route_view c dev m, route-route_view c dev m')
