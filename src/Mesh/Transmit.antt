-- ===== src/Mesh/Transmit.antt =====
-- `halow_sync_bridge_handle_to_radio` of main/src/mesh/halow_sync_bridge.c: what the bridge does with a
-- packet from the phone. Messages, also those that acknowledge one, go to the radio, voice calls into
-- the transmit queue, and a message to one station is kept until it is acknowledged. The handlers of
-- the other bodies (settings, scripts, location, start of the radio, routing table) and the beacon
-- decoder are calls whose answers are arguments.
pub mod Kept
pub mod Acknowledged
use edge_device_esp.Base.{
  ℕ, ◌+◌, ◌%◌, ◌/◌, ◌^◌, Bool, true, false, ◌&&◌, ◌||◌, not, ltb, leb, ◌==◌, if◌then◌else◌, List,
  [], ◌∷◌, Option, none, some, length,
}
use edge_device_esp.Base.EspErr.{EspErr, is_ok}
use edge_device_esp.Factory.{
  mobile_control, license_authorize, sdk_release_authorize, sdk_release_is_authorized,
}
use edge_device_esp.Mesh.Reliable.{store}
use edge_device_esp.Mesh.Routes.{Route, batman_route_lookup_hop, next_hop_or}
use edge_device_esp.Mesh.Realtime.{Item, enqueue}
use edge_device_esp.Mesh.Wire.{Prefix, packet_size, is_public_channel}
use edge_device_esp.Mesh.Packet.{
  NetworkPacket, Body, is_msg, is_ack, is_direct_unicast, is_sensor_exchange, mime_text, mime_voice,
  mime_voice_call,
}
use edge_device_esp.Mesh.Receive.{Bridge, channel_enabled}
use edge_device_esp.Mesh.Receive.Handler.{key_of_packet}

-- What the platform answers during one call. `handled` is the result of the handler of a body, and
-- whether it sent a status; `release` are the three fields of a start packet that name the software.
pub record Env : Type 0 where
  pub release : NetworkPacket → List ℕ × List ℕ × List ℕ
  pub forwarding : Bool
  pub channel_mask : ℕ
  pub max_hop : ℕ
  pub now_ms : ℕ
  pub lookup : ℕ → Option Route
  pub decode : List ℕ → Bool × NetworkPacket
  pub is_beacon : List ℕ → Bool
  pub handled : NetworkPacket → EspErr × Bool
  pub radio : Prefix → (next_hop : ℕ) → List ℕ → EspErr

-- The calls that leave the function: `halow_send_mesh_payload_via`, `halow_forward_mesh_payload`,
-- `send_status_frame`, and the handler of a body.
pub data Act : Type 0 where
  sends : Prefix → (next_hop : ℕ) → List ℕ → Act
  forwards : Prefix → (next_hop : ℕ) → List ℕ → Act
  status_frame : NetworkPacket → Act
  handles : NetworkPacket → Act

-- The result, `*sent_status_response`, the tables and the calls.
abbrev pub Outcome : Type 0
Outcome = EspErr × Bool × Bridge × List Act

abbrev pub refused : EspErr → Bridge → Outcome
refused e s = (e, false, s, [])

-- A packet that comes by the forward interface, or by BLE while forwarding is on, has a hop behind
-- it; ai_edgez_halow_Interface_BLE is 2.
abbrev pub is_forwarded : Env → (via_forward : Bool) → NetworkPacket → Bool
is_forwarded env via_forward m = via_forward || (env.forwarding && m.interface == 2)

abbrev pub packet_prefix : Env → (forward : Bool) → NetworkPacket → Prefix
packet_prefix env forward m = record {
  id_high = m.message.id_high;
  id_low = m.message.id_low;
  sequence = m.message.sequence;
  from = m.from;
  to = m.to;
  max_hop = env.max_hop;
  hop = if forward then 1 else 0;
}

abbrev pub packet_hop : Env → NetworkPacket → ℕ
packet_hop env m = next_hop_or env.lookup m.to m.to

abbrev pub send_act : Env → (forward : Bool) → List ℕ → NetworkPacket → Act
send_act env forward payload m =
    if forward
    then Act.forwards (packet_prefix env forward m) (packet_hop env m) payload
    else Act.sends (packet_prefix env forward m) (packet_hop env m) payload

abbrev pub radio_answer : Env → (forward : Bool) → List ℕ → NetworkPacket → EspErr
radio_answer env forward payload m =
    env.radio (packet_prefix env forward m) (packet_hop env m) payload

abbrev pub route_hop : Env → NetworkPacket → Option ℕ
route_hop env m = elim (batman_route_lookup_hop env.lookup m.to) [
  | none ↦ none
  | some route ↦ some route.1
]

-- `reliable_pending_store` for a message that the radio took.
abbrev pub keep_pending : Env → List ℕ → NetworkPacket → Bridge → Bridge
keep_pending env payload m s = record s {
  pending =
      store packet_size env.now_ms env.max_hop (route_hop env m) (key_of_packet m) m.from m.to
        (packet_hop env m) payload s.pending;
}

-- Messages that are sent again until they are acknowledged.
abbrev pub is_reliable : NetworkPacket → Bool
is_reliable m = is_direct_unicast m && not (is_sensor_exchange m)

abbrev pub call_item : Env → (forward : Bool) → List ℕ → NetworkPacket → Item
call_item env forward payload m = record {
  payload = payload;
  from = m.from;
  to = m.to;
  next_hop = packet_hop env m;
  message_id_high = m.message.id_high;
  message_id_low = m.message.id_low;
  max_hop = env.max_hop;
  sequence = m.message.sequence;
  forward_from_mobile = forward;
  mobile_initial_hop = if forward then 1 else 0;
}

abbrev pub queue_call : Env → (forward : Bool) → List ℕ → NetworkPacket → Bridge → Outcome
queue_call env forward payload m s =
    let queued =
      enqueue packet_size env.lookup env.now_ms (call_item env forward payload m) s.realtime in
    (queued.0, false, record s { realtime = queued.1 }, [])

unfoldable pub send_message : Env → (forward : Bool) → List ℕ → NetworkPacket → Bridge → Outcome
send_message env forward payload m s = (
  radio_answer env forward payload m,
  false,
  if is_ok (radio_answer env forward payload m) && is_reliable m
      then keep_pending env payload m s
      else s,
  send_act env forward payload m ∷ [],
)

-- Only texts and recorded voice may go to a public channel, and only if it is switched on.
abbrev pub is_conversation : NetworkPacket → Bool
is_conversation m = m.message.mime == mime_text || m.message.mime == mime_voice

unfoldable pub handle_message : Env → (forward : Bool) → List ℕ → NetworkPacket → Bridge → Outcome
handle_message env forward payload m s =
    if is_public_channel m.to && not (is_conversation m)
    then refused EspErr.not_supported s
    else if is_public_channel m.to && not (channel_enabled env.channel_mask m.to)
    then refused EspErr.invalid_state s
    else if m.message.mime == mime_voice_call
    then queue_call env forward payload m s
    else send_message env forward payload m s

-- At most EDGEZ_BEACON_TEXT_MAX_LEN bytes.
abbrev pub has_beacon : Env → NetworkPacket → Bool
has_beacon env m = not (length m.raw == 0) && leb (length m.raw) 480 && env.is_beacon m.raw

abbrev pub with_status : EspErr → List Act → Bridge → Outcome
with_status e acts s = (e, true, s, acts)

-- The switch over the body.
unfoldable pub handle_body :
    Env → (forward : Bool) → List ℕ → NetworkPacket → Bridge → Body → Outcome
handle_body env forward payload m s Body.msg = handle_message env forward payload m s
handle_body env forward payload m s Body.status = with_status EspErr.ok (Act.status_frame m ∷ []) s
handle_body env forward payload m s Body.init =
    with_status (env.handled m).0 (Act.handles m ∷ Act.status_frame m ∷ []) s
handle_body env forward payload m s Body.payload =
    if has_beacon env m
    then with_status (env.handled m).0 (Act.handles m ∷ Act.status_frame m ∷ []) s
    else with_status EspErr.invalid_arg (Act.status_frame m ∷ []) s
handle_body env forward payload m s Body.device_settings =
    ((env.handled m).0, (env.handled m).1, s, Act.handles m ∷ [])
handle_body env forward payload m s Body.script_config =
    with_status (env.handled m).0 (Act.handles m ∷ []) s
handle_body env forward payload m s Body.location_update =
    ((env.handled m).0, (env.handled m).1, s, Act.handles m ∷ [])
handle_body env forward payload m s Body.routing_table =
    with_status (env.handled m).0 (Act.handles m ∷ []) s
handle_body env forward payload m s Body.report = refused EspErr.invalid_arg s
handle_body env forward payload m s Body.other = refused EspErr.invalid_arg s

abbrev pub is_init : NetworkPacket → Bool
is_init m = elim m.body [ Body.init ↦ true | _ ↦ false ]

abbrev pub is_status : NetworkPacket → Bool
is_status m = elim m.body [ Body.status ↦ true | _ ↦ false ]

-- EDGEZ_LICENSE_CAP_MOBILE_CONTROL.
abbrev pub device_authorized : Bool
device_authorized = license_authorize mobile_control

abbrev pub sdk_authorized : Env → NetworkPacket → Bool
sdk_authorized env m =
    if is_init m && device_authorized
    then sdk_release_authorize (env.release m).0 (env.release m).1 (env.release m).2
    else sdk_release_is_authorized

-- A status may be asked for at any time; the rest needs a licensed device and an authorized software.
unfoldable pub is_authorized : Env → NetworkPacket → Bool
is_authorized env m = is_status m || (device_authorized && sdk_authorized env m)

abbrev pub accept_mobile : Env → (via_forward : Bool) → List ℕ → NetworkPacket → Bridge → Outcome
accept_mobile env via_forward payload m s =
    let forward = is_forwarded env via_forward m in
    if via_forward && not env.forwarding
    then refused EspErr.invalid_state s
    else if is_ack m && is_msg m
    then (radio_answer env forward payload m, false, s, send_act env forward payload m ∷ [])
    else handle_body env forward payload m s m.body

-- The whole function.
unfoldable pub handle_to_radio : Env → (via_forward : Bool) → List ℕ → Bridge → Outcome
handle_to_radio env via_forward payload s =
    let decoded = env.decode payload in
    if not decoded.0
    then refused EspErr.invalid_arg s
    else if not (is_authorized env decoded.1)
    then with_status EspErr.not_allowed (Act.status_frame decoded.1 ∷ []) s
    else accept_mobile env via_forward payload decoded.1 s
