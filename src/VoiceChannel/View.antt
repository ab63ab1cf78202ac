-- ===== src/VoiceChannel/View.antt =====
-- The view of the manager after each operation: the clients' entries and the queues of channels.
use alarm.Base.{◌≡◌, [], ◌∷◌, ◌++◌, Option, none, some, arith, ◌&&◌, if◌then◌else◌}
use alarm.Base.Bytes.{Bytes, bytes_eq, bytes_eq_iff}
use alarm.Base.Maps.{bytes_Eq, erase, lookup-erase, lookup-insert}
use alarm.VoiceChannel.{
  ClientVcInfo, DevVcInfo, VoiceChannelManager, connect_by_client, connect_by_dev, drop_client,
  disconnect_by_client, close_client, disconnect_by_dev, erase_channel,
}
use alarm.VoiceChannel.Queues.{
  client_of, channels, tail, find_channel-channels, channels_of-multi_insert,
  channels_of-erase_channel,
}

-- The entry that is left where the pair is disconnected: none if it named the device.
abbrev pub without : Bytes → Option ClientVcInfo → Option ClientVcInfo
without dev none = none
without dev (some i) = if bytes_eq i.dev_id dev then none else some i

-- The view after each operation.
module _ (c dev c' dev' : Bytes) (m : VoiceChannelManager) where
  pub client_of-connect_by_client :
      (i : ClientVcInfo)
      → client_of c (connect_by_client c' i m) ≡ (if bytes_eq c' c then some i else client_of c m)
  unfolding connect_by_client
  client_of-connect_by_client i = ground (
    arith,
    lookup-insert c' c i m.client_vc_map,
    lookup-insert c' c i (erase c' m.client_vc_map),
    lookup-erase c' c m.client_vc_map,
    lookup-erase c' c' m.client_vc_map,
    bytes_eq_iff c' c',
  )

  pub channels-connect_by_client :
      (i : ClientVcInfo) → channels dev c (connect_by_client c' i m) ≡ channels dev c m
  unfolding connect_by_client
  channels-connect_by_client i = ground arith

  pub client_of-connect_by_dev :
      (d : DevVcInfo) → client_of c (connect_by_dev dev' d m) ≡ client_of c m
  unfolding connect_by_dev
  client_of-connect_by_dev d = ground arith

  pub channels-connect_by_dev :
      (d : DevVcInfo)
      → channels dev c (connect_by_dev dev' d m) ≡ (
          if bytes_eq dev' dev && bytes_eq d.client_id c
          then channels dev c m ++ (d ∷ [])
          else channels dev c m)
  unfolding connect_by_dev
  channels-connect_by_dev d = ground (arith, channels_of-multi_insert dev c dev' d m.dev_vc_map)

  pub client_of-disconnect_by_client :
      client_of c (disconnect_by_client c' dev' m) ≡ client_of c (drop_client c' dev' m)
  unfolding disconnect_by_client
  client_of-disconnect_by_client = ground arith

  channels-drop_client : channels dev c (drop_client c' dev' m) ≡ channels dev c m
  unfolding drop_client
  channels-drop_client = ground arith

  channels-close_client : channels dev c (close_client c' dev' m) ≡ channels dev c m
  unfolding close_client
  channels-close_client = ground arith

  pub client_of-drop_client :
      client_of c (drop_client c' dev' m)
      ≡ (if bytes_eq c' c then without dev' (client_of c m) else client_of c m)
  unfolding drop_client
  client_of-drop_client = ground (arith, lookup-erase c' c m.client_vc_map, bytes_eq_iff c' c)

  client_of-close_client :
      client_of c (close_client c' dev' m)
      ≡ (if bytes_eq c' c then without dev' (client_of c m) else client_of c m)
  unfolding close_client
  client_of-close_client = ground (arith, lookup-erase c' c m.client_vc_map, bytes_eq_iff c' c)

module _ (c dev c' dev' : Bytes) (m : VoiceChannelManager) where
  pub channels-disconnect_by_client :
      channels dev c (disconnect_by_client c' dev' m)
      ≡ (if bytes_eq dev' dev && bytes_eq c' c then tail (channels dev c m) else channels dev c m)
  unfolding disconnect_by_client
  channels-disconnect_by_client = ground (
    arith,
    find_channel-channels dev' c' (drop_client c' dev' m).dev_vc_map,
    channels-drop_client c dev c' dev' m,
    channels-drop_client c' dev' c' dev' m,
    channels_of-erase_channel dev c dev' c' (drop_client c' dev' m).dev_vc_map,
    bytes_eq_iff c' c,
    bytes_eq_iff dev' dev,
  )

  pub client_of-disconnect_by_dev :
      client_of c (disconnect_by_dev dev' c' m)
      ≡ (if bytes_eq c' c then without dev' (client_of c m) else client_of c m)
  unfolding disconnect_by_dev
  client_of-disconnect_by_dev =
      client_of-close_client c dev c' dev'
        (record m { dev_vc_map = erase_channel dev' c' m.dev_vc_map })

  pub channels-disconnect_by_dev :
      channels dev c (disconnect_by_dev dev' c' m)
      ≡ (if bytes_eq dev' dev && bytes_eq c' c then tail (channels dev c m) else channels dev c m)
  unfolding disconnect_by_dev
  channels-disconnect_by_dev = ground (
    arith,
    channels-close_client c dev c' dev'
        (record m { dev_vc_map = erase_channel dev' c' m.dev_vc_map }),
    channels_of-erase_channel dev c dev' c' m.dev_vc_map,
  )
