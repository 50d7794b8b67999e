-- ===== src/Mesh/Receive.antt =====
-- `halow_sync_bridge_handle_rx_frame` of main/src/mesh/halow_sync_bridge.c: what the bridge does with a
-- frame from the radio. It relays a frame for another station, hands one for this station to the
-- phone, consumes acknowledgements and requests for the sampled buffer, and drops copies. The
-- critical sections of the tables are single steps. What the platform answers during the call is an
-- argument, the protobuf decoder and encoder among it; the trace of a speed test is left out. The
-- relay is here, the handler in Receive/Handler.
pub mod Handler
pub mod Relaying
pub mod Ways
pub mod Delivery
pub mod Repeat
pub mod Voice
use edge_device_esp.Base.{
  ℕ, ◌+◌, ◌-◌, ◌*◌, ◌%◌, ◌/◌, ◌^◌, Bool, true, false, ◌&&◌, ◌||◌, not, ltb, leb, ◌==◌,
  if◌then◌else◌, List, [], ◌∷◌, ◌++◌, Option, none, some, length, take, drop, get_or,
}
use edge_device_esp.Base.EspErr.{EspErr, is_ok}
use edge_device_esp.Sampling.Buffer.{Buffer}
use edge_device_esp.Mesh.Seen
use edge_device_esp.Mesh.Dedupe
use edge_device_esp.Mesh.Reliable.{Pending, ack}
use edge_device_esp.Mesh.Routes.{
  mac_bits, mac_is_zero, mac_is_broadcast, batman_route_lookup, next_hop_or,
}
use edge_device_esp.Mesh.Realtime.{Item, Realtime, is_speed_frame, enqueue}
use edge_device_esp.Mesh.Speech.{read_be, be32_bytes, be48_bytes, voice_magic, transfer_id}
use edge_device_esp.Mesh.GlobalBuffer
use edge_device_esp.Mesh.GlobalBuffer.{Transfer, busy_retry_ms, start_for_requester}
use edge_device_esp.Mesh.GlobalBuffer.Chunk.{send_status}
use edge_device_esp.Mesh.Wire.{Prefix, packet_size, prefix_len, is_public_channel, split_prefix}
use edge_device_esp.Mesh.Packet.{
  NetworkPacket, Body, is_msg, is_report, is_other, is_ack, is_direct_unicast, starts_with,
  is_chunk_size, is_buffer_request, is_buffer_chunk, reliable_ack, broadcast_op, halow_interface,
  mime_voice_call,
}

-- The tables that the handler shares with the rest of the bridge.
pub record Bridge : Type 0 where
  pub seen : Seen.State
  pub delivered : List Dedupe.Entry
  pub pending : List Pending
  pub realtime : Realtime
  pub transfer : Transfer
  pub from_radio_seq : ℕ

-- What the platform answers during one call. `decode` tells whether `pb_decode` succeeded, and what
-- it left; `media_active` that the active interface is BLE or USB; `forwarding` what
-- `halow_sync_bridge_forwarding_enabled` answers.
pub record Env : Type 0 where
  pub licensed : Bool
  pub device_mode : Bool
  pub forwarding : Bool
  pub media_active : Bool
  pub channel_mask : ℕ
  pub now_ms : ℕ
  pub decode : List ℕ → Bool × NetworkPacket
  pub encode : NetworkPacket → Option (List ℕ)
  pub platform : GlobalBuffer.Platform

-- The calls that leave the bridge: `halow_forward_mesh_payload` and `halow_send_mesh_payload_via`, the
-- reply to a request for the buffer, and `bridge_send_voice_frame`, `bridge_send_frame` and
-- `send_network_packet` towards the phone.
pub data Act : Type 0 where
  forwards : Prefix → (next_hop : ℕ) → List ℕ → Act
  acknowledges : Prefix → (next_hop : ℕ) → List ℕ → Act
  replies : List GlobalBuffer.Act → Act
  voice_frame : List ℕ → Act
  frame : (use_forward_channel : Bool) → List ℕ → Act
  packet : NetworkPacket → Act

-- The result, the tables, and the calls in their order.
abbrev pub Outcome : Type 0
Outcome = Bool × Bridge × List Act

abbrev pub done : Bridge → List Act → Outcome
done s acts = (true, s, acts)

abbrev pub rejected : Bridge → Outcome
rejected s = (false, s, [])

-- `halow_sync_public_channel_enabled`.
abbrev pub channel_enabled : (mask id : ℕ) → Bool
channel_enabled mask id = is_public_channel id && mask / 2 ^ ((id - 38801) / 2) % 2 == 1

abbrev pub is_self : Option ℕ → ℕ → Bool
is_self none target = false
is_self (some self) target = target == self

abbrev pub self_or_zero : Option ℕ → ℕ
self_or_zero none = 0
self_or_zero (some self) = self

-- `target_is_local`, of an address that was cut to 48 bits.
unfoldable pub target_is_local : Env → ℕ → Bool
target_is_local env target =
    mac_is_zero target
    || mac_is_broadcast target
    || is_public_channel target
    || is_self env.platform.self_mac target

-- A version 3 frame of at most 3 hops that names a transfer.
abbrev pub speed_relayable : Prefix → List ℕ → Bool
speed_relayable p body = get_or body 4 0 == 3 && leb p.max_hop 3 && not (transfer_id body == 0)

-- A target that is no address, or a way back to the station that the frame came from.
abbrev pub goes_back : Env → (ingress : ℕ) → Prefix → Bool
goes_back env ingress p =
    leb (mac_bits p.to) 0xffffffff
    || mac_bits p.to == ingress
    || elim (batman_route_lookup env.platform.lookup p.to) [
      | none ↦ false
      | some hop ↦ mac_bits hop == ingress
    ]

abbrev pub key_of : Prefix → Seen.Key
key_of p = record { high = p.id_high; low = p.id_low; sequence = p.sequence }

-- The prefix with one hop more.
abbrev pub next_prefix : Prefix → Prefix
next_prefix p = record p { hop = p.hop + 1 }

abbrev pub relayed_item : (next_hop : ℕ) → Prefix → List ℕ → Item
relayed_item next_hop p body = record {
  payload = body;
  from = p.from;
  to = p.to;
  next_hop = next_hop;
  message_id_high = p.id_high;
  message_id_low = p.id_low;
  max_hop = p.max_hop;
  sequence = p.sequence;
  forward_from_mobile = true;
  mobile_initial_hop = p.hop + 1;
}

-- A frame that is neither dropped nor a copy: a speed frame joins the transmit queue, another one is
-- forwarded.
abbrev pub queue_speed : Env → (next_hop : ℕ) → Prefix → List ℕ → Bridge → Bridge
queue_speed env next_hop p body s = record s {
  realtime =
      (enqueue packet_size env.platform.lookup env.now_ms (relayed_item next_hop p body)
        s.realtime).1;
}

abbrev pub pass_on : Env → (next_hop : ℕ) → Prefix → List ℕ → Bridge → Outcome
pass_on env next_hop p body s =
    if is_speed_frame body
    then done (queue_speed env next_hop p body s) []
    else done s (Act.forwards (next_prefix p) next_hop body ∷ [])

-- A frame with a prefix for another station.
unfoldable pub relay : Env → (ingress : ℕ) → Prefix → List ℕ → Bridge → Outcome
relay env ingress p body s =
    let visited = Seen.drop_higher_hop (key_of p) p.hop s.seen in
    let s' : Bridge = record s { seen = visited.0 } in
    if is_speed_frame body && not (speed_relayable p body)
    then done s []
    else if goes_back env ingress p
    then done s []
    else if visited.1
    then done s' []
    else pass_on env (next_hop_or env.platform.lookup p.to p.to) p body s'

-- A speed frame for this station goes to the phone behind its source.
abbrev pub speed_notify : Prefix → List ℕ → List Act
speed_notify p body =
    if ltb packet_size (length body) then [] else Act.voice_frame (be48_bytes p.from ++ body) ∷ []

-- A voice frame loses its mark, and gets its source and its sequence number.
abbrev pub voice_notify : Prefix → List ℕ → List Act
voice_notify p body =
    if ltb packet_size (length (drop 4 body))
    then []
    else Act.voice_frame (be48_bytes p.from ++ (be32_bytes p.sequence ++ drop 4 body)) ∷ []

abbrev pub is_voice_frame : List ℕ → Bool
is_voice_frame body = ltb 16 (length body) && starts_with voice_magic body
