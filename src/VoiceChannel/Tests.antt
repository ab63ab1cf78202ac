-- ===== src/VoiceChannel/Tests.antt =====
-- Two clients and a camera through the manager of voice channels.
use alarm.Base.{◌≡◌, ◌↔◌, refl, [], ◌∷◌}
use alarm.Base.Bytes.{Bytes, bytes_eq}
use alarm.Base.Int.{neg}
use alarm.Base.Maps.{bytes_Eq, lookup, erase, insert, equal_range}
use alarm.Errors.{error_client_vc_invalid, error_dev_vc_invalid}
use alarm.VoiceChannel.{
  ClientVcInfo, DevVcInfo, VoiceChannelManager, empty, routed, failed, connect_by_client,
  connect_by_dev, disconnect_by_client, disconnect_by_dev, route_client_to_dev, find_channel,
}
use alarm.VoiceChannel.Queues.{client_of, channels, of_client, channels_of}
use alarm.VoiceChannel.Routing.{Leads, routed_iff, connect_routes, disconnect_clears}

abbrev alice : Bytes
alice = 97 ∷ []

abbrev bob : Bytes
bob = 98 ∷ []

abbrev camera : Bytes
camera = 99 ∷ 49 ∷ []

abbrev alice_entry : ClientVcInfo
alice_entry = record { client_id = alice; client_fd = 5; client_bev = 50; dev_id = camera }

abbrev bob_entry : ClientVcInfo
bob_entry = record { client_id = bob; client_fd = 6; client_bev = 60; dev_id = camera }

abbrev channel : DevVcInfo
channel = record { dev_id = camera; dev_fd = 7; dev_bev = 70; client_id = alice }

abbrev second_channel : DevVcInfo
second_channel = record { dev_id = camera; dev_fd = 8; dev_bev = 80; client_id = alice }

abbrev both : VoiceChannelManager
both = record {
  client_vc_map = (alice, alice_entry) ∷ [];
  dev_vc_map = (camera, channel) ∷ [];
  freed = [];
}

routed_iff_example :
    (route_client_to_dev alice camera both ≡ routed 7)
    ↔ Leads camera 7 (client_of alice both) (channels camera alice both)
routed_iff_example = routed_iff alice camera 7 both

connect_routes_example :
    (route_client_to_dev alice camera
        (connect_by_dev camera channel (connect_by_client alice alice_entry empty))
      ≡ routed 7)
    × (route_client_to_dev alice camera
          (connect_by_client alice alice_entry (connect_by_dev camera channel empty))
        ≡ routed 7)
unfolding channels_of of_client equal_range bytes_eq
connect_routes_example = connect_routes alice camera alice_entry channel empty refl refl refl

disconnect_clears_example :
    (route_client_to_dev alice camera (disconnect_by_client alice camera both)
      ≡ failed (neg error_client_vc_invalid))
    × (route_client_to_dev alice camera (disconnect_by_dev camera alice both)
        ≡ failed (neg error_client_vc_invalid))
disconnect_clears_example = disconnect_clears alice camera both

abbrev bob_channel : DevVcInfo
bob_channel = record { dev_id = camera; dev_fd = 9; dev_bev = 90; client_id = bob }

is_routed : route_client_to_dev alice camera both ≡ routed 7
unfolding route_client_to_dev find_channel lookup equal_range bytes_eq
is_routed = refl

no_channel :
    route_client_to_dev bob camera (connect_by_client bob bob_entry both)
    ≡ failed (neg error_dev_vc_invalid)
unfolding route_client_to_dev connect_by_client find_channel lookup insert erase equal_range
    bytes_eq
no_channel = refl
