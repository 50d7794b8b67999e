-- ===== src/Mesh/Wire.antt =====
-- A routed payload on the wire: the route prefix of 38 bytes, as
-- main/src/platform/esp32/halow_interface_app.cpp (`send_mesh_payload_internal`) writes it and
-- main/src/mesh/halow_sync_bridge.c (`halow_sync_bridge_handle_rx_frame`) reads it, and the public
-- channels. License, radio state and own address are what the platform answers. The mark of
-- foreground traffic, which the radio driver keeps, is left out.
pub mod RoundTrip
use edge_device_esp.Base.{
  ℕ, ◌+◌, ◌-◌, ◌%◌, ◌/◌, ◌^◌, Bool, true, false, ◌&&◌, ◌||◌, not, ltb, leb, ◌==◌, same_bytes,
  if◌then◌else◌, List, [], ◌∷◌, ◌++◌, Option, none, some, length, take, drop, get_or,
}
use edge_device_esp.Base.EspErr.{EspErr}
use edge_device_esp.Mesh.Routes.{mac_bits, mac_is_zero, mac_is_broadcast}
use edge_device_esp.Mesh.Realtime.{Item, speed_magic}
use edge_device_esp.Mesh.Speech.{read_be, be32_bytes, be48_bytes}

-- `halow_sync_is_public_channel`: 38801, 38803, up to 38809.
abbrev pub is_public_channel : ℕ → Bool
is_public_channel id = leb 38801 id && leb id 38809 && (id - 38801) % 2 == 0

-- ai_edgez_halow_NetworkPacket_size and EDGEZ_ROUTE_PREFIX_LEN.
abbrev pub packet_size : ℕ
packet_size = 702

abbrev pub prefix_len : ℕ
prefix_len = 38

pub record Prefix : Type 0 where
  pub id_high : ℕ
  pub id_low : ℕ
  pub sequence : ℕ
  pub from : ℕ
  pub to : ℕ
  pub max_hop : ℕ
  pub hop : ℕ

-- `write_u64_be`.
abbrev pub be64_bytes : ℕ → List ℕ
be64_bytes v = be32_bytes (v / 2 ^ 32) ++ be32_bytes v

-- `(uint8_t)((v > UINT8_MAX) ? UINT8_MAX : v)`.
abbrev pub clamp_byte : ℕ → ℕ
clamp_byte v = if ltb 255 v then 255 else v

abbrev pub prefix_bytes : Prefix → List ℕ
prefix_bytes p =
    be64_bytes p.id_high
    ++ (be64_bytes p.id_low
        ++ (be32_bytes p.sequence
            ++ (be64_bytes p.from
                ++ (be64_bytes p.to ++ (clamp_byte p.max_hop ∷ clamp_byte p.hop ∷ [])))))

-- The reader: what the first 38 bytes say, and whether they can be a prefix.
unfoldable pub read_prefix : List ℕ → Prefix
read_prefix payload = record {
  id_high = read_be 0 (take 8 payload);
  id_low = read_be 0 (take 8 (drop 8 payload));
  sequence = read_be 0 (take 4 (drop 16 payload));
  from = read_be 0 (take 8 (drop 20 payload));
  to = read_be 0 (take 8 (drop 28 payload));
  max_hop = get_or payload 36 0;
  hop = get_or payload 37 0;
}

abbrev pub is_candidate : Prefix → Bool
is_candidate p =
    (not (p.id_high == 0) || not (p.id_low == 0)) && ltb p.from (2 ^ 48) && ltb p.to (2 ^ 48)

unfoldable pub split_prefix : List ℕ → Option Prefix
split_prefix payload =
    if ltb prefix_len (length payload) && is_candidate (read_prefix payload)
    then some (read_prefix payload)
    else none

-- What the sender asks the platform.
pub record Sender : Type 0 where
  pub licensed : Bool
  pub started : Bool
  pub self_mac : Option ℕ

-- What becomes of a payload: an error, or a frame for the BATMAN layer, whose answer is then the
-- result. A unicast names its destination, and perhaps the first radio hop.
pub data Sending : Type 0 where
  refused : EspErr → Sending
  unicast : (dest : ℕ) → (frame : List ℕ) → (forced : Option ℕ) → Sending
  broadcast : (frame : List ℕ) → Sending

-- The Ethernet header: destination, source and type.
abbrev pub ethernet : (dest source ethertype : ℕ) → List ℕ → List ℕ
ethernet dest source ethertype body =
    be48_bytes dest ++ (be48_bytes source ++ (ethertype / 256 ∷ ethertype % 256 ∷ body))

-- EDGEZ_BATADV_MAX_PACKET_LEN less the header of a broadcast or of a unicast, and less 14.
abbrev pub broadcast_capacity : ℕ
broadcast_capacity = 484

abbrev pub unicast_capacity : ℕ
unicast_capacity = 488

abbrev pub send_report : Option ℕ → List ℕ → Sending
send_report self payload =
    if ltb broadcast_capacity (length payload) then refused EspErr.invalid_size else elim self [
      | none ↦ refused EspErr.invalid_state
      | some mac ↦ broadcast (ethernet 0xffffffffffff mac 0x88b6 payload)
    ]

abbrev pub send_broadcast : Option ℕ → List ℕ → Sending
send_broadcast self routed =
    if ltb broadcast_capacity (length routed) then refused EspErr.invalid_size else elim self [
      | none ↦ refused EspErr.invalid_state
      | some mac ↦ broadcast (ethernet 0xffffffffffff mac 0x88b5 routed)
    ]

-- Only a speed frame of mode 2 that starts here may name its first hop.
abbrev pub forced_hop : Prefix → (next_hop : ℕ) → List ℕ → Option ℕ
forced_hop p next_hop payload =
    if p.max_hop == 2
      && p.hop == 0
      && not (next_hop == mac_bits p.to)
      && leb 4 (length payload)
      && same_bytes (take 4 payload) speed_magic
      && not (mac_is_zero next_hop)
      && not (mac_is_broadcast next_hop)
    then some (mac_bits next_hop)
    else none

abbrev pub send_unicast : Option ℕ → Prefix → (next_hop : ℕ) → (payload routed : List ℕ) → Sending
send_unicast none p next_hop payload routed = refused EspErr.invalid_state
send_unicast (some mac) p next_hop payload routed =
    if ltb unicast_capacity (length routed)
    then refused EspErr.invalid_size
    else unicast (mac_bits p.to) (ethernet (mac_bits p.to) mac 0x88b5 routed)
        (forced_hop p next_hop payload)

-- `send_mesh_payload_internal`; `report` says that the type is HALOW_SYNC_REPORT_ETHERTYPE.
unfoldable pub send_mesh_payload :
    Sender → Prefix → (next_hop : ℕ) → (report : Bool) → List ℕ → Sending
send_mesh_payload s p next_hop report payload =
    if not s.licensed
    then refused EspErr.not_allowed
    else if length payload == 0
    then refused EspErr.invalid_arg
    else if not s.started
    then refused EspErr.invalid_state
    else if report
    then send_report s.self_mac payload
    else if ltb packet_size (length payload)
    then refused EspErr.invalid_size
    else if is_public_channel p.to || mac_is_zero p.to || mac_is_broadcast p.to
    then send_broadcast s.self_mac (prefix_bytes p ++ payload)
    else send_unicast s.self_mac p next_hop payload (prefix_bytes p ++ payload)

-- How `voice_tx_task` sends an item: a frame that is relayed has hops behind it.
abbrev pub item_prefix : Item → Prefix
item_prefix item = record {
  id_high = item.message_id_high;
  id_low = item.message_id_low;
  sequence = item.sequence;
  from = item.from;
  to = item.to;
  max_hop = item.max_hop;
  hop = if item.forward_from_mobile then item.mobile_initial_hop else 0;
}

abbrev pub send_item : Sender → Item → Sending
send_item s item = send_mesh_payload s (item_prefix item) item.next_hop false item.payload
