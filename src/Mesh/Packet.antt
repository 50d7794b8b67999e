-- ===== src/Mesh/Packet.antt =====
-- The NetworkPacket of main/src/mesh/halow_sync_bridge.c as far as the receive handler reads it, what
-- it tells packets apart by, and `send_reliable_ack`. Enumerations are their numbers.
use edge_device_esp.Base.{
  ℕ, Bool, true, false, ◌&&◌, ◌||◌, not, ltb, ◌==◌, same_bytes, if◌then◌else◌, List, [], ◌∷◌,
  Option, none, some, length, take,
}
use edge_device_esp.Mesh.Routes.{Route, mac_bits, mac_is_zero, mac_is_broadcast, next_hop_or}
use edge_device_esp.Mesh.Wire.{Prefix, is_public_channel}

-- ai_edgez_halow_Operation and ai_edgez_halow_Mime, as far as they are tested or set.
abbrev pub request_op : ℕ
request_op = 1

abbrev pub acknowledge_op : ℕ
acknowledge_op = 3

abbrev pub broadcast_op : ℕ
broadcast_op = 9

abbrev pub mime_text : ℕ
mime_text = 1

abbrev pub mime_voice : ℕ
mime_voice = 2

abbrev pub mime_binary : ℕ
mime_binary = 5

abbrev pub mime_voice_call : ℕ
mime_voice_call = 6

-- `which_body`, as far as it is tested; `other` is a beacon or no body.
pub data Body : Type 0 where
  msg payload report status init device_settings script_config location_update : Body
  routing_table other : Body

-- `ai_edgez_halow_MessageBody`; the sequence number as `uint32_t`.
pub record Message : Type 0 where
  pub id_high : ℕ
  pub id_low : ℕ
  pub sequence : ℕ
  pub mime : ℕ
  pub payload : List ℕ

-- `ai_edgez_halow_NetworkPacket`. The bodies are a union: `message` is what it reads as a message,
-- whichever body was stored, and `raw` what it reads as raw bytes.
pub record NetworkPacket : Type 0 where
  pub from : ℕ
  pub to : ℕ
  pub operation : ℕ
  pub interface : ℕ
  pub body : Body
  pub message : Message
  pub raw : List ℕ

abbrev pub is_msg : NetworkPacket → Bool
is_msg m = elim m.body [ msg ↦ true | _ ↦ false ]

abbrev pub is_report : NetworkPacket → Bool
is_report m = elim m.body [ report ↦ true | _ ↦ false ]

-- A body that the receive handler does not accept.
abbrev pub is_other : NetworkPacket → Bool
is_other m = elim m.body [ msg ↦ false | payload ↦ false | report ↦ false | _ ↦ true ]

abbrev pub is_ack : NetworkPacket → Bool
is_ack m = m.operation == acknowledge_op

abbrev pub has_no_id : NetworkPacket → Bool
has_no_id m = m.message.id_high == 0 && m.message.id_low == 0

-- `reliable_packet_is_direct_unicast`.
unfoldable pub is_direct_unicast : NetworkPacket → Bool
is_direct_unicast m =
    is_msg m
    && not (is_ack m)
    && not (has_no_id m)
    && not (mac_is_zero m.to)
    && not (mac_is_broadcast m.to)
    && not (is_public_channel (mac_bits m.to))

abbrev pub starts_with : List ℕ → List ℕ → Bool
starts_with magic bytes = same_bytes (take (length magic) bytes) magic

abbrev pub is_binary_request : NetworkPacket → Bool
is_binary_request m = m.operation == request_op && is_msg m && m.message.mime == mime_binary

-- A request for a chunk: 14 bytes, 'G' 'B' 'R' 2.
abbrev pub is_chunk_size : NetworkPacket → Bool
is_chunk_size m = length m.message.payload == 14

-- `global_buffer_packet_is_request`: 'G' 'B' 'R' 1 in 8 bytes, or 'G' 'B' 'R' 2 in 14.
unfoldable pub is_buffer_request : NetworkPacket → Bool
is_buffer_request m =
    is_binary_request m
    && ((length m.message.payload == 8
          && starts_with (0x47 ∷ 0x42 ∷ 0x52 ∷ 1 ∷ []) m.message.payload)
        || (is_chunk_size m && starts_with (0x47 ∷ 0x42 ∷ 0x52 ∷ 2 ∷ []) m.message.payload))

-- `global_buffer_packet_is_status`: 'G' 'B' 'S' 1 in 16 bytes.
unfoldable pub is_buffer_status : NetworkPacket → Bool
is_buffer_status m =
    is_msg m
    && m.message.mime == mime_binary
    && length m.message.payload == 16
    && starts_with (0x47 ∷ 0x42 ∷ 0x53 ∷ 1 ∷ []) m.message.payload

-- `global_buffer_packet_is_chunk`: 'E' 'V' '2' and more than a header of 20 bytes.
unfoldable pub is_buffer_chunk : NetworkPacket → Bool
is_buffer_chunk m =
    is_binary_request m
    && ltb 20 (length m.message.payload)
    && starts_with (0x45 ∷ 0x56 ∷ 0x32 ∷ []) m.message.payload

-- `global_buffer_packet_is_sensor_exchange`.
unfoldable pub is_sensor_exchange : NetworkPacket → Bool
is_sensor_exchange m =
    (is_ack m && is_msg m && not (m.message.sequence == 0))
    || is_buffer_request m
    || is_buffer_status m
    || is_buffer_chunk m

-- ai_edgez_halow_Interface_HALOW.
abbrev pub halow_interface : ℕ
halow_interface = 5

-- The packet that acknowledges another. It is only encoded, so the other view of its body is empty.
abbrev pub ack_of : (self : ℕ) → NetworkPacket → NetworkPacket
ack_of self m = record {
  from = self;
  to = m.from;
  operation = acknowledge_op;
  interface = halow_interface;
  body = msg;
  message = record {
    id_high = m.message.id_high;
    id_low = m.message.id_low;
    sequence = m.message.sequence;
    mime = mime_text;
    payload = [];
  };
  raw = [];
}

abbrev pub ack_route : (self max_hop : ℕ) → NetworkPacket → Prefix
ack_route self max_hop m = record {
  id_high = m.message.id_high;
  id_low = m.message.id_low;
  sequence = m.message.sequence;
  from = self;
  to = m.from;
  max_hop = max_hop;
  hop = 0;
}

-- No acknowledgement for these: the sender or the message has no identity, the packet is one itself,
-- a voice call, or part of a buffer transfer; nor in device mode.
abbrev pub is_unacknowledged : (device_mode : Bool) → NetworkPacket → Bool
is_unacknowledged device_mode m =
    m.from == 0
    || is_ack m
    || m.message.mime == mime_voice_call
    || has_no_id m
    || is_sensor_exchange m
    || device_mode

-- `send_reliable_ack`: the route, the next hop and the encoded packet that are handed to
-- `halow_send_mesh_payload_via`, if any.
unfoldable pub reliable_ack :
    (device_mode : Bool)
    → (encode : NetworkPacket → Option (List ℕ)) → (lookup : ℕ → Option Route) → (self max_hop : ℕ)
    → NetworkPacket
    → Option (Prefix × ℕ × List ℕ)
reliable_ack device_mode encode lookup self max_hop m =
    if is_unacknowledged device_mode m then none else elim (encode (ack_of self m)) [
      | none ↦ none
      | some encoded ↦ some (ack_route self max_hop m, next_hop_or lookup m.from m.from, encoded)
    ]
