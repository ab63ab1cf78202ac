-- ===== src/Dispatcher/Building.antt =====
-- The handlers that build voice channels, on messages of the protocol.
use alarm.Base.{
  ℕ, ◌<◌, ◌≤◌, ◌≡◌, refl, ◌∷◌, ◌++◌, none, some, arith, length, length-append, drop-append,
  take-append, if◌then◌else◌,
}
use mathlib.Core.List.{append_assoc}
use alarm.Base.Bytes.{Bytes}
use alarm.Base.Int.{ℤ, pos, neg, IsU32}
use alarm.Coding.{encode_fixed32, decode_fixed32}
use alarm.Connection.{World, Env, guid_client, guid_dev}
use alarm.Dispatcher.Handler.{M, Slice, assign, read_id, send_response, send_msg, sending}
use alarm.Dispatcher.Channels.{
  with_ids, build_client, build_dev, handle_client_build_vc, handle_dev_build_vc,
}
use alarm.Errors.{error_tlv_send_msg}
use alarm.Tlv.{pack_client_build_vc_resp_msg}
use alarm.VoiceChannel.{
  VoiceChannelManager, ClientVcInfo, DevVcInfo, connect_by_client, connect_by_dev,
}

-- An identifier with its header.
unfoldable pub id_block : ℕ → Bytes → Bytes
id_block type id = encode_fixed32 type ++ (encode_fixed32 (length id) ++ id)

assign-append : (id rest : Bytes) → assign (id ++ rest) (length id) ≡ some id
unfolding assign
assign-append id rest = ground (arith, length-append id rest, take-append id rest)

-- An identifier that is short enough is read, with what follows it.
pub read_id-id_block :
    (type : ℕ) (id rest : Bytes)
    → IsU32 type
    → length id ≤ 256
    → read_id (id_block type id ++ rest) ≡ some (some (id, rest))
unfolding read_id id_block encode_fixed32 decode_fixed32
read_id-id_block type id rest ht h = ground (arith, assign-append id rest, drop-append id rest)

-- One that declares a greater length is refused, whatever stands behind its header.
pub read_id-long :
    (type len : ℕ) (rest : Bytes)
    → IsU32 type
    → IsU32 len
    → 256 < len
    → read_id (encode_fixed32 type ++ (encode_fixed32 len ++ rest)) ≡ some none
unfolding read_id encode_fixed32 decode_fixed32
read_id-long type len rest ht hl h = ground arith

-- Both identifiers, as the four handlers read them.
unfoldable pub ids : ℕ → Bytes → ℕ → Bytes → Bytes
ids client_type client_id dev_type dev_id =
    id_block client_type client_id ++ id_block dev_type dev_id

pub with_ids-ids :
    (s t : ℕ) (client_id dev_id rest : Bytes) (act : Bytes → Bytes → M ℤ) (w : World)
    → IsU32 s
    → IsU32 t
    → length client_id ≤ 256
    → length dev_id ≤ 256
    → with_ids (ids s client_id t dev_id ++ rest) act w ≡ act client_id dev_id w
unfolding with_ids ids
with_ids-ids s t client_id dev_id rest act w hs ht hc hd = rw append_assoc (
    rw
      (
        read_id-id_block s client_id (id_block t dev_id ++ rest) hs hc,
        read_id-id_block t dev_id rest ht hd,
      )
      refl)

abbrev pub client_entry : Bytes → Bytes → World → ClientVcInfo
client_entry client_id dev_id w = record {
  client_id = client_id;
  client_fd = w.conn.cfd;
  client_bev = w.conn.buffer_event;
  dev_id = dev_id;
}

abbrev pub dev_entry : Bytes → Bytes → World → DevVcInfo
dev_entry client_id dev_id w = record {
  dev_id = dev_id;
  dev_fd = w.conn.cfd;
  dev_bev = w.conn.buffer_event;
  client_id = client_id;
}

-- The state after a channel was built and `reply` sent to the connection.
abbrev pub built : Env → ℕ → Bytes → VoiceChannelManager → Bytes → World → World
built env guid_type guid m reply w = record w {
  conn = record (w.conn) { guid_type = guid_type; guid = guid };
  vc_manager = m;
  wire = (w.conn.cfd, (sending env w w.conn.cfd reply).taken) ∷ w.wire;
}

-- What the handler returns after its reply.
abbrev pub answer_code : Env → Bytes → World → ℤ
answer_code env reply w =
    if (sending env w w.conn.cfd reply).success then pos 0 else neg error_tlv_send_msg

module _ (env : Env) (mid s t size : ℕ) (client_id dev_id rest : Bytes) (w : World) (hs : IsU32 s)
    (ht : IsU32 t) where
  abbrev value : Slice
  value = record { here = ids s client_id t dev_id ++ rest; size = size }

  -- A client that names itself and a device in at most 256 bytes each is connected to it, its
  -- connection is marked as the client's, and a reply with the code 0 is sent to it; the handler returns
  -- 0 where that reply gets through, and -ERROR_TLV_SEND_MSG where not.
  pub client_build_vc :
      length client_id ≤ 256
      → length dev_id ≤ 256
      → let reply = pack_client_build_vc_resp_msg mid (pos 0) in
        handle_client_build_vc env mid value w
        ≡ some (
          answer_code env reply w,
          built env guid_client client_id
              (connect_by_client client_id (client_entry client_id dev_id w) w.vc_manager)
              reply
              w,
        )
  unfolding handle_client_build_vc build_client send_response send_msg
  client_build_vc hc hd = ground (arith, with_ids-ids s t client_id dev_id rest build_client w)

  -- A device that names a client and itself in at most 256 bytes each is connected to it, and its
  -- connection is marked as the device's; but the reply that it gets is the one for clients, with
  -- TYPE_ON_CLIENT_BUILD_VC.
  pub dev_build_vc :
      length client_id ≤ 256
      → length dev_id ≤ 256
      → let reply = pack_client_build_vc_resp_msg mid (pos 0) in
        handle_dev_build_vc env mid value w
        ≡ some (
          answer_code env reply w,
          built env guid_dev dev_id
              (connect_by_dev dev_id (dev_entry client_id dev_id w) w.vc_manager)
              reply
              w,
        )
  unfolding handle_dev_build_vc build_dev send_response send_msg
  dev_build_vc hc hd = ground (arith, with_ids-ids s t client_id dev_id rest build_dev w)
