-- ===== src/VoiceChannel/Queues.antt =====
-- The manager seen from outside: a client's entry, and for a device and a client the queue of the
-- channels that the device has opened for it, oldest first.
use mathlib.Core.List.{append-nil}
use alarm.Base.{◌≡◌, refl, List, [], ◌∷◌, ◌++◌, Option, none, some, arith, ◌&&◌, if◌then◌else◌}
use alarm.Base.Bytes.{Bytes, bytes_eq, bytes_eq_iff}
use alarm.Base.Maps.{bytes_Eq, lookup, equal_range, multi_insert, equal_range-multi_insert}
use alarm.VoiceChannel.{ClientVcInfo, DevVcInfo, VoiceChannelManager, find_channel, erase_channel}

unfoldable pub of_client : Bytes → List DevVcInfo → List DevVcInfo
of_client c [] = []
of_client c (d ∷ ds) =
    let rest = of_client c ds in if bytes_eq d.client_id c then d ∷ rest else rest

unfoldable pub channels_of : Bytes → Bytes → List (Bytes × DevVcInfo) → List DevVcInfo
channels_of dev c m = of_client c (equal_range dev m)

abbrev pub head? : List DevVcInfo → Option DevVcInfo
head? [] = none
head? (d ∷ ds) = some d

abbrev pub tail : List DevVcInfo → List DevVcInfo
tail [] = []
tail (d ∷ ds) = ds

abbrev pub client_of : Bytes → VoiceChannelManager → Option ClientVcInfo
client_of c m = lookup c m.client_vc_map

abbrev pub channels : Bytes → Bytes → VoiceChannelManager → List DevVcInfo
channels dev c m = channels_of dev c m.dev_vc_map

find_channel-of_client :
    (c : Bytes) (ds : List DevVcInfo) → find_channel c ds ≡ head? (of_client c ds)
unfolding find_channel of_client
find_channel-of_client c [] = refl
find_channel-of_client c (d ∷ ds) = ground (arith, find_channel-of_client c ds)

pub find_channel-channels :
    (dev c : Bytes) (m : List (Bytes × DevVcInfo))
    → find_channel c (equal_range dev m) ≡ head? (channels_of dev c m)
unfolding channels_of
find_channel-channels dev c m = find_channel-of_client c (equal_range dev m)

of_client-append :
    (c : Bytes) (ds es : List DevVcInfo) → of_client c (ds ++ es) ≡ of_client c ds ++ of_client c es
unfolding of_client
of_client-append c [] es = refl
of_client-append c (d ∷ ds) es = ground (arith, of_client-append c ds es)

pub channels_of-multi_insert :
    (dev c dev' : Bytes) (d : DevVcInfo) (m : List (Bytes × DevVcInfo))
    → channels_of dev c (multi_insert dev' d m) ≡ (
        if bytes_eq dev' dev && bytes_eq d.client_id c
        then channels_of dev c m ++ (d ∷ [])
        else channels_of dev c m)
unfolding channels_of of_client
channels_of-multi_insert dev c dev' d m = ground (
  arith,
  equal_range-multi_insert dev' dev d m,
  of_client-append c (equal_range dev m) (d ∷ []),
  append-nil (of_client c (equal_range dev m)),
)

-- `erase_channel` takes the oldest channel of the pair, and no other.
pub channels_of-erase_channel :
    (dev c dev' c' : Bytes) (m : List (Bytes × DevVcInfo))
    → channels_of dev c (erase_channel dev' c' m) ≡ (
        if bytes_eq dev' dev && bytes_eq c' c
        then tail (channels_of dev c m)
        else channels_of dev c m)
unfolding channels_of of_client erase_channel equal_range
channels_of-erase_channel dev c dev' c' [] = ground arith
channels_of-erase_channel dev c dev' c' ((k, d) ∷ m) = ground (
  arith,
  channels_of-erase_channel dev c dev' c' m,
  bytes_eq_iff dev' dev,
  bytes_eq_iff c' c,
  bytes_eq_iff k dev,
  bytes_eq_iff k dev',
  bytes_eq_iff d.client_id c,
  bytes_eq_iff d.client_id c',
)
