-- ===== src/VoiceChannel.antt =====
-- voice_server/src/voice_channel.cc: which device a client's voice goes to. A `bufferevent *` is a
-- number, and `freed` records the calls of `bufferevent_free`, newest first. The mutex makes each
-- call one step. The order of a multimap's keys is not observed, so an entry goes to the end.
pub mod Queues
pub mod View
pub mod Routing
mod Tests
use alarm.Base.{ℕ, Bool, true, false, not, List, [], ◌∷◌, Option, none, some, if◌then◌else◌}
use alarm.Base.Bytes.{Bytes, bytes_eq}
use alarm.Base.Int.{ℤ, neg}
use alarm.Base.Maps.{bytes_Eq, lookup, erase, insert, equal_range, multi_insert}
use alarm.Errors.{error_client_vc_invalid, error_dev_vc_invalid}

pub record ClientVcInfo : Type 0 where
  pub client_id : Bytes
  pub client_fd : ℕ
  pub client_bev : ℕ
  pub dev_id : Bytes

pub record DevVcInfo : Type 0 where
  pub dev_id : Bytes
  pub dev_fd : ℕ
  pub dev_bev : ℕ
  pub client_id : Bytes

pub record VoiceChannelManager : Type 0 where
  pub client_vc_map : List (Bytes × ClientVcInfo)
  pub dev_vc_map : List (Bytes × DevVcInfo)
  pub freed : List ℕ

abbrev pub empty : VoiceChannelManager
empty = record { client_vc_map = []; dev_vc_map = []; freed = [] }

unfoldable pub connect_by_client : Bytes → ClientVcInfo → VoiceChannelManager → VoiceChannelManager
connect_by_client client_id client_vc_info m = elim (lookup client_id m.client_vc_map) [
  | none ↦ record m { client_vc_map = insert client_id client_vc_info m.client_vc_map }
  | some old ↦ record m {
    client_vc_map = insert client_id client_vc_info (erase client_id m.client_vc_map);
    freed = client_vc_info.client_bev ∷ m.freed;
  }
]

-- The first channel of the range that belongs to the client.
unfoldable pub find_channel : Bytes → List DevVcInfo → Option DevVcInfo
find_channel client_id [] = none
find_channel client_id (d ∷ ds) =
    if bytes_eq d.client_id client_id then some d else find_channel client_id ds

unfoldable pub connect_by_dev : Bytes → DevVcInfo → VoiceChannelManager → VoiceChannelManager
connect_by_dev dev_id dev_vc_info m =
    let inserted = multi_insert dev_id dev_vc_info m.dev_vc_map in
    elim (find_channel dev_vc_info.client_id (equal_range dev_id m.dev_vc_map)) [
      | none ↦ record m { dev_vc_map = inserted }
      | some old ↦ record m { dev_vc_map = inserted; freed = old.dev_bev ∷ m.freed }
    ]

-- `dev_vc_map_.erase(dev_iter)` at the first channel of the device that belongs to the client.
unfoldable pub erase_channel : Bytes → Bytes → List (Bytes × DevVcInfo) → List (Bytes × DevVcInfo)
erase_channel dev_id client_id [] = []
erase_channel dev_id client_id ((k, d) ∷ m) =
    let rest = erase_channel dev_id client_id m in
    if bytes_eq k dev_id
    then (if bytes_eq d.client_id client_id then m else (k, d) ∷ rest)
    else (k, d) ∷ rest

-- The client's entry goes if it names the device; its bufferevent lives until the reply is sent.
unfoldable pub drop_client : Bytes → Bytes → VoiceChannelManager → VoiceChannelManager
drop_client client_id dev_id m = elim (lookup client_id m.client_vc_map) [
  | none ↦ m
  | some client_vc_info ↦
      if bytes_eq client_vc_info.dev_id dev_id
      then record m { client_vc_map = erase client_id m.client_vc_map }
      else m
]

unfoldable pub disconnect_by_client : Bytes → Bytes → VoiceChannelManager → VoiceChannelManager
unfolding drop_client
disconnect_by_client client_id dev_id m =
    let m' = drop_client client_id dev_id m in
    elim (find_channel client_id (equal_range dev_id m'.dev_vc_map)) [
      | none ↦ m'
      | some d ↦ record m' {
        dev_vc_map = erase_channel dev_id client_id m'.dev_vc_map;
        freed = d.dev_bev ∷ m'.freed;
      }
    ]

-- The client's entry goes if it names the device, and its bufferevent is freed.
unfoldable pub close_client : Bytes → Bytes → VoiceChannelManager → VoiceChannelManager
close_client client_id dev_id m = elim (lookup client_id m.client_vc_map) [
  | none ↦ m
  | some client_vc_info ↦
      if bytes_eq client_vc_info.dev_id dev_id
      then record m {
        client_vc_map = erase client_id m.client_vc_map;
        freed = client_vc_info.client_bev ∷ m.freed;
      }
      else m
]

unfoldable pub disconnect_by_dev : Bytes → Bytes → VoiceChannelManager → VoiceChannelManager
unfolding close_client
disconnect_by_dev dev_id client_id m =
    close_client client_id dev_id
      (record m { dev_vc_map = erase_channel dev_id client_id m.dev_vc_map })

-- What `RouteClientToDev` returns, with the `dev_fd` that it sets where it returns 0.
pub data Route : Type 0 where
  routed : ℕ → Route
  failed : ℤ → Route

-- `dev_id` is passed by value: the caller's string is read and never set.
unfoldable pub route_client_to_dev : Bytes → Bytes → VoiceChannelManager → Route
route_client_to_dev client_id dev_id m = elim (lookup client_id m.client_vc_map) [
  | none ↦ failed (neg error_client_vc_invalid)
  | some client_vc_info ↦
      if not (bytes_eq client_vc_info.dev_id dev_id)
      then failed (neg error_client_vc_invalid)
      else elim (find_channel client_id (equal_range dev_id m.dev_vc_map)) [
        | none ↦ failed (neg error_dev_vc_invalid)
        | some d ↦ routed d.dev_fd
      ]
]
