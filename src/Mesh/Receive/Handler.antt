-- ===== src/Mesh/Receive/Handler.antt =====
-- The handler itself: what follows when a frame is not relayed, and the checks before.
use edge_device_esp.Base.{
  ℕ, ◌+◌, ◌*◌, ◌%◌, ◌^◌, Bool, true, false, ◌&&◌, ◌||◌, not, ltb, leb, ◌==◌, if◌then◌else◌, List,
  [], ◌∷◌, ◌++◌, Option, none, some, length, take, drop, get_or,
}
use edge_device_esp.Base.EspErr.{EspErr, is_ok}
use edge_device_esp.Mesh.Seen
use edge_device_esp.Mesh.Dedupe
use edge_device_esp.Mesh.Reliable.{ack}
use edge_device_esp.Mesh.Routes.{mac_bits, next_hop_or}
use edge_device_esp.Mesh.Realtime.{is_speed_frame}
use edge_device_esp.Mesh.Speech.{read_be, be48_bytes}
use edge_device_esp.Mesh.GlobalBuffer.{busy_retry_ms, start_for_requester}
use edge_device_esp.Mesh.GlobalBuffer.Chunk.{send_status}
use edge_device_esp.Mesh.Wire.{Prefix, packet_size, prefix_len, is_public_channel, split_prefix}
use edge_device_esp.Mesh.Packet.{
  NetworkPacket, Body, is_msg, is_report, is_other, is_ack, is_direct_unicast, is_chunk_size,
  is_buffer_request, is_buffer_chunk, reliable_ack, broadcast_op, halow_interface, mime_voice_call,
}
use edge_device_esp.Mesh.Receive.{
  Bridge, Env, Act, Outcome, done, rejected, channel_enabled, self_or_zero, target_is_local, relay,
  speed_notify, voice_notify, is_voice_frame,
}

-- A frame on its way through the handler: its prefix, what is behind it, the decoded packet, the
-- station that it was heard from, whether its type is that of a report, and whether BATMAN delivered
-- it to this station.
pub record Arrival : Type 0 where
  pub prefix : Option Prefix
  pub body : List ℕ
  pub decoded : Bool
  pub content : NetworkPacket
  pub remote : Option ℕ
  pub is_report_type : Bool
  pub batman_delivered : Bool

abbrev pub source_of : Arrival → NetworkPacket → ℕ
source_of a m = elim a.prefix [ none ↦ m.from | some p ↦ p.from ]

abbrev pub target_of : Arrival → NetworkPacket → ℕ
target_of a m = elim a.prefix [ none ↦ m.to | some p ↦ p.to ]

abbrev pub has_prefix : Arrival → Bool
has_prefix a = elim a.prefix [ none ↦ false | some p ↦ true ]

-- What a copy of a delivery is known by. Acknowledgements, reports and chunks of a buffer have no
-- message of their own to go by.
abbrev pub dedupe_message : (beacon : Bool) → Arrival → NetworkPacket → List ℕ
dedupe_message beacon a m =
    if beacon || (a.decoded && (is_ack m || is_report m || is_buffer_chunk m))
    then a.body
    else m.message.payload

-- A chunk goes to the phone as 'G' 'B' 'D' 1, its source and the chunk of at most 240 bytes.
abbrev pub media_notify : NetworkPacket → List Act
media_notify m =
    if ltb 240 (length m.message.payload)
    then []
    else Act.voice_frame ((0x47 ∷ 0x42 ∷ 0x44 ∷ 1 ∷ []) ++ (be48_bytes m.from ++ m.message.payload))
      ∷ []

-- How a packet behind a prefix goes to the phone: as it came, but for voice and buffer chunks.
abbrev pub notify_original : Env → Arrival → NetworkPacket → List Act
notify_original env a m =
    if is_msg m && m.message.mime == mime_voice_call
    then Act.voice_frame a.body ∷ []
    else if env.media_active && is_msg m && is_buffer_chunk m
    then media_notify m
    else Act.frame env.forwarding a.body ∷ []

abbrev pub notify_acts : Env → Arrival → NetworkPacket → List Act
notify_acts env a m =
    if has_prefix a && a.decoded then notify_original env a m else Act.packet m ∷ []

-- The end of the handler: nothing for a public channel that is switched off, nothing for a copy.
unfoldable pub notify : Env → (beacon : Bool) → Arrival → NetworkPacket → Bridge → Outcome
notify env beacon a m s =
    let counted : Bridge = record s { from_radio_seq = (s.from_radio_seq + 1) % 2 ^ 16 } in
    let checked =
      Dedupe.check_and_add (Dedupe.checksum_of (source_of a m) (dedupe_message beacon a m))
        env.now_ms s.delivered in
    let noted : Bridge = record counted { delivered = checked.0 } in
    if is_public_channel (target_of a m) && not (channel_enabled env.channel_mask (target_of a m))
    then done counted []
    else if checked.1
    then done noted []
    else done noted (notify_acts env a m)

-- No packet could be decoded: the bytes are a beacon. Its packet starts from what the decoder left.
abbrev pub beacon_packet : (from : ℕ) → Arrival → NetworkPacket
beacon_packet from a = record a.content {
  from = from;
  operation = broadcast_op;
  interface = halow_interface;
  body = Body.payload;
  raw = a.body;
}

abbrev pub process_beacon_from : Env → (from : ℕ) → Arrival → Bridge → Outcome
process_beacon_from env from a s =
    if length a.body == 0 || ltb 440 (length a.body)
    then rejected s
    else notify env true a (beacon_packet from a) s

abbrev pub process_beacon : Env → Arrival → Bridge → Outcome
process_beacon env a s = elim a.prefix [
  | some p ↦ process_beacon_from env p.from a s
  | none ↦ elim a.remote [ none ↦ rejected s | some mac ↦ process_beacon_from env mac a s ]
]

-- A request for the sampled buffer: the length that is expected of it, or the group and the index of
-- a chunk.
abbrev pub expected_length : NetworkPacket → ℕ
expected_length m = if is_chunk_size m then 0 else read_be 0 (take 4 (drop 4 m.message.payload))

abbrev pub requested_group : NetworkPacket → ℕ
requested_group m = if is_chunk_size m then read_be 0 (take 8 (drop 4 m.message.payload)) else 0

abbrev pub requested_index : NetworkPacket → Option ℕ
requested_index m =
    if is_chunk_size m then some (read_be 0 (take 2 (drop 12 m.message.payload))) else none

-- EDGEZ_GLOBAL_BUFFER_STATUS_BUSY, _NOT_FOUND and _ERROR, with the time after which to ask again.
abbrev pub status_of : EspErr → ℕ × ℕ
status_of EspErr.invalid_state = (1, busy_retry_ms)
status_of EspErr.not_found = (2, 0)
status_of e = (3, 0)

abbrev pub request_acts : Env → (available : ℕ) → NetworkPacket → EspErr → List Act
request_acts env available m e =
    if is_ok e
    then []
    else Act.replies (send_status env.platform m.from (status_of e).0 (status_of e).1 available).1
      ∷ []

unfoldable pub serve_request : Env → NetworkPacket → Bridge → Bridge × List Act
serve_request env m s =
    let started =
      start_for_requester env.platform m.from m.message.id_high m.message.id_low (expected_length m)
        (requested_group m) (requested_index m) s.transfer in
    (
      record s { transfer = started.1 },
      request_acts env (s.transfer.buffer.serving_length % 2 ^ 32) m started.0,
    )

-- The acknowledgement of a message to one station, before the message is looked at.
abbrev pub ack_acts : Env → NetworkPacket → List Act
ack_acts env m =
    if not (is_direct_unicast m)
    then []
    else elim (reliable_ack env.device_mode env.encode env.platform.lookup
        (self_or_zero env.platform.self_mac) env.platform.max_hop m) [
          | none ↦ []
          | some (route, next_hop, encoded) ↦ Act.acknowledges route next_hop encoded ∷ []
        ]

abbrev pub before : List Act → Outcome → Outcome
before acts (r, s, acts') = (r, s, acts ++ acts')

-- A packet for this station that is no numbered acknowledgement.
abbrev pub accept_packet : Env → Arrival → NetworkPacket → Bridge → Outcome
accept_packet env a m s =
    let served = serve_request env m s in
    before (ack_acts env m)
      (if is_buffer_request m then done served.0 served.1 else notify env false a m s)

abbrev pub key_of_packet : NetworkPacket → Seen.Key
key_of_packet m = record {
  high = m.message.id_high;
  low = m.message.id_low;
  sequence = m.message.sequence;
}

unfoldable pub receive_packet : Env → Arrival → NetworkPacket → Bridge → Outcome
receive_packet env a m s =
    if is_ack m && not (m.message.sequence == 0)
    then done (record s { pending = (ack (key_of_packet m) s.pending).0 }) []
    else accept_packet env a m s

-- A message without a prefix for another station: it gets its first prefix.
abbrev pub first_prefix : Env → NetworkPacket → Prefix
first_prefix env m = record {
  id_high = m.message.id_high;
  id_low = m.message.id_low;
  sequence = m.message.sequence;
  from = m.from;
  to = m.to;
  max_hop = env.platform.max_hop % 256;
  hop = 1;
}

unfoldable pub relay_message : Env → Arrival → NetworkPacket → Bridge → Outcome
relay_message env a m s =
    let visited = Seen.drop_higher_hop (key_of_packet m) 0 s.seen in
    let s' : Bridge = record s { seen = visited.0 } in
    if visited.1
    then done s' []
    else done s'
        (Act.forwards (first_prefix env m) (next_hop_or env.platform.lookup m.to m.to) a.body ∷ [])

unfoldable pub process_packet : Env → Arrival → NetworkPacket → Bridge → Outcome
process_packet env a m s =
    if not (is_ack m) && is_other m
    then rejected s
    else if not (has_prefix a)
        && is_msg m
        && not (target_is_local env (mac_bits m.to))
        && not a.batman_delivered
    then relay_message env a m s
    else receive_packet env a m s

unfoldable pub process : Env → Arrival → Bridge → Outcome
process env a s =
    if a.is_report_type && not (a.decoded && is_report a.content)
    then rejected s
    else if a.decoded
    then process_packet env a a.content s
    else process_beacon env a s

-- What was read of a frame before the decoder.
abbrev pub arrival :
    (prefix : Option Prefix) (body : List ℕ)
    → Bool × NetworkPacket
    → (remote : Option ℕ) (is_report_type batman_delivered : Bool) → Arrival
arrival prefix body decoded remote is_report_type batman_delivered = record {
  prefix = prefix;
  body = body;
  decoded = decoded.0;
  content = decoded.1;
  remote = remote;
  is_report_type = is_report_type;
  batman_delivered = batman_delivered;
}

-- NetworkPacket_init_zero.
abbrev pub no_packet : NetworkPacket
no_packet = record {
  from = 0;
  to = 0;
  operation = 0;
  interface = 0;
  body = Body.other;
  message = record { id_high = 0; id_low = 0; sequence = 0; mime = 0; payload = [] };
  raw = [];
}

-- A frame with a prefix.
unfoldable pub receive_routed :
    Env
    → (ingress : ℕ) → Prefix
    → (body : List ℕ) (remote : Option ℕ) (is_report_type batman_delivered : Bool) → Bridge
    → Outcome
receive_routed env ingress p body remote is_report_type batman_delivered s =
    if not (target_is_local env (mac_bits p.to)) && not batman_delivered
    then relay env ingress p body s
    else if is_speed_frame body
    then done s (speed_notify p body)
    else if is_voice_frame body
    then done s (voice_notify p body)
    else process env
        (arrival (some p) body (env.decode body) remote is_report_type batman_delivered) s

-- A frame without one is decoded if it is no longer than a packet.
unfoldable pub receive_plain :
    Env
    → (payload : List ℕ) (remote : Option ℕ) (is_report_type batman_delivered : Bool) → Bridge
    → Outcome
receive_plain env payload remote is_report_type batman_delivered s =
    process env
      (arrival none payload
        (if leb (length payload) packet_size then env.decode payload else (false, no_packet)) remote
        is_report_type batman_delivered)
      s

-- The address that the frame was heard from: the radio's, or else the Ethernet source.
abbrev pub ingress_of : (header : List ℕ) → Option ℕ → ℕ
ingress_of header none = read_be 0 (take 6 (drop 6 header))
ingress_of header (some mac) = if mac == 0 then read_be 0 (take 6 (drop 6 header)) else mac

abbrev pub ethertype_of : List ℕ → ℕ
ethertype_of header = get_or header 12 0 * 256 + get_or header 13 0

abbrev pub is_report_frame : List ℕ → Bool
is_report_frame header = ethertype_of header == 0x88b6

abbrev pub is_refused : Env → (header payload : List ℕ) → Bool
is_refused env header payload =
    not env.licensed
    || ltb (length header) 14
    || length payload == 0
    || (not (ethertype_of header == 0x88b5) && not (is_report_frame header))
    || ltb (prefix_len + packet_size) (length payload)

-- The whole handler, for a header and a payload that are there.
unfoldable pub handle_rx_frame :
    Env → (header payload : List ℕ) (remote : Option ℕ) (batman_delivered : Bool) → Bridge → Outcome
handle_rx_frame env header payload remote batman_delivered s =
    if is_refused env header payload then rejected s else elim (split_prefix payload) [
      | none ↦ receive_plain env payload remote (is_report_frame header) batman_delivered s
      | some p ↦
          receive_routed env (ingress_of header remote) p (drop prefix_len payload) remote
            (is_report_frame header) batman_delivered s
    ]
