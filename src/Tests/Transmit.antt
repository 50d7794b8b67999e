-- ===== src/Tests/Transmit.antt =====
-- Concrete runs of the handler for packets of the phone.
use edge_device_esp.Base.{ℕ, ◌≡◌, refl, true, false, [], ◌∷◌, none, some, replicate, arith}
use edge_device_esp.Base.EspErr.{EspErr}
use edge_device_esp.Sampling.Buffer.{initial}
use edge_device_esp.Mesh.GlobalBuffer.{cleared}
use edge_device_esp.Mesh.Routes.{batman_route_lookup}
use edge_device_esp.Mesh.Dedupe.{check_and_add, touch, pick_slot, checksum_of, fnv1a64_update}
use edge_device_esp.Mesh.Wire.{Prefix, Sender, send_mesh_payload}
use edge_device_esp.Mesh.Wire.RoundTrip.{IsPrefix}
use edge_device_esp.Mesh.Packet.{
  NetworkPacket, Body, ack_of, ack_route, is_direct_unicast, is_sensor_exchange, is_buffer_request,
  is_buffer_status, is_buffer_chunk,
}
use edge_device_esp.Mesh.Receive
use edge_device_esp.Mesh.Receive.{Bridge}
use edge_device_esp.Mesh.Receive.Voice.{IsStation, over_the_air}
use edge_device_esp.Mesh.Transmit.{Env, handle_to_radio}
use edge_device_esp.Mesh.Transmit.Kept.{
  IsKept, IsSilent, handle_to_radio-IsKept, handle_to_radio-IsSilent,
}
use edge_device_esp.Mesh.Transmit.Acknowledged.{
  acts_of, IsRetired, over_the_air-ack, over_the_air-message,
}

-- A text from station 0x220000000005 to station 0x220000000007.
abbrev text : NetworkPacket
text = record {
  from = 0x220000000005;
  to = 0x220000000007;
  operation = 1;
  interface = 2;
  body = Body.msg;
  message = record { id_high = 1; id_low = 2; sequence = 3; mime = 1; payload = 7 ∷ 8 ∷ [] };
  raw = 7 ∷ 8 ∷ [];
}

abbrev bridge : Bridge
bridge = record {
  seen = record {
    table =
        replicate 32 (record {
          valid = false;
          key = record { high = 0; low = 0; sequence = 0 };
          best_hop = 0;
        });
    replace_index = 0;
  };
  delivered = replicate 4 (record { valid = false; checksum = 0; last_seen_ms = 0 });
  pending = replicate 24 (record {
    valid = false;
    key = record { high = 0; low = 0; sequence = 0 };
    source = 0;
    target = 0;
    next_hop = 0;
    max_hop = 0;
    attempts = 0;
    last_send_ms = 0;
    ack_timeout_ms = 0;
    payload = [];
  });
  realtime = record {
    created = true;
    queue = [];
    paths = replicate 4 (record { valid = false; target = 0; sampled_ms = 0; limit = 4 });
    replace_index = 0;
    drops = 0;
    send_failures = 0;
  };
  transfer = cleared initial;
  from_radio_seq = 0;
}

-- A phone with BLE, whose software is authorized.
abbrev phone : Env
phone = record {
  release = λ m. ([], [], []);
  forwarding = true;
  channel_mask = 31;
  max_hop = 4;
  now_ms = 1000;
  lookup = λ target. none;
  decode = λ bytes. (true, text);
  is_beacon = λ bytes. false;
  handled = λ m. (EspErr.ok, false);
  radio = λ p hop bytes. EspErr.ok;
}

-- The text comes by BLE, and so it is forwarded.
handle_to_radio-IsKept_example :
    IsKept phone true (1 ∷ 2 ∷ []) text bridge (handle_to_radio phone false (1 ∷ 2 ∷ []) bridge)
unfolding is_direct_unicast is_sensor_exchange is_buffer_request is_buffer_status is_buffer_chunk
handle_to_radio-IsKept_example =
    handle_to_radio-IsKept phone false (1 ∷ 2 ∷ []) text bridge refl refl refl refl (omega arith)
      (omega arith) (omega arith)

-- A packet with settings, that calls itself an acknowledgement.
abbrev settings : Env
settings = record phone {
  decode = λ bytes. (true, record text { operation = 3; body = Body.device_settings });
}

handle_to_radio-IsSilent_example :
    IsSilent bridge (handle_to_radio settings false (1 ∷ 2 ∷ []) bridge)
handle_to_radio-IsSilent_example = handle_to_radio-IsSilent settings false (1 ∷ 2 ∷ []) bridge refl

-- The two stations: `peer` has address 0x220000000007, `home` 0x220000000005.
abbrev station_env : (self : ℕ) → NetworkPacket → Receive.Env
station_env self m = record {
  licensed = true;
  device_mode = false;
  forwarding = false;
  media_active = true;
  channel_mask = 31;
  now_ms = 1000;
  decode = λ bytes. (true, m);
  encode = λ answer. some (1 ∷ []);
  platform = record {
    self_mac = some self;
    id_high = 1;
    id_low = 1;
    status_id_high = 1;
    status_id_low = 1;
    max_hop = 4;
    lookup = λ target. none;
    encode = λ packet. none;
    radio = λ bytes. EspErr.ok;
    lease_created = true;
  };
}

abbrev transmitter : ℕ → Sender
transmitter mac = record { licensed = true; started = true; self_mac = some mac }

abbrev text_route : Prefix
text_route = record {
  id_high = 1;
  id_low = 2;
  sequence = 3;
  from = 0x220000000005;
  to = 0x220000000007;
  max_hop = 4;
  hop = 0;
}

text_route-IsPrefix : IsPrefix text_route
text_route-IsPrefix = record {
  id_high = omega arith;
  id_low = omega arith;
  id = refl;
  sequence = omega arith;
  from = omega arith;
  to = omega arith;
  max_hop = omega arith;
  hop = omega arith;
}

ack_route-IsPrefix : IsPrefix (ack_route 0x220000000007 4 text)
ack_route-IsPrefix = record {
  id_high = omega arith;
  id_low = omega arith;
  id = refl;
  sequence = omega arith;
  from = omega arith;
  to = omega arith;
  max_hop = omega arith;
  hop = omega arith;
}

peer-IsStation : IsStation 0x220000000007
unfolding IsStation
peer-IsStation = (omega arith, refl)

home-IsStation : IsStation 0x220000000005
unfolding IsStation
home-IsStation = (omega arith, refl)

abbrev home : Receive.Env
home = station_env 0x220000000005 (ack_of 0x220000000007 text)

over_the_air-ack_example : IsRetired text (
    over_the_air
      (send_mesh_payload
        (transmitter 0x220000000007)
        (ack_route 0x220000000007 4 text)
        0x220000000005
        false
        (1 ∷ []))
      home
      none
      bridge)
over_the_air-ack_example =
    over_the_air-ack (transmitter 0x220000000007) 0x220000000007 4 0x220000000005 0x220000000007
      text (1 ∷ []) home none bridge refl ack_route-IsPrefix home-IsStation (omega arith)
      (omega arith) (refl, refl) refl refl refl

abbrev peer : Receive.Env
peer = station_env 0x220000000007 text

not_delivered :
    (check_and_add
      (checksum_of text_route.from text.message.payload)
      peer.now_ms
      bridge.delivered).1
    ≡ false
unfolding check_and_add touch pick_slot checksum_of fnv1a64_update
not_delivered = refl

over_the_air-message_example :
    acts_of (
      over_the_air
        (send_mesh_payload
          (transmitter 0x220000000005)
          text_route
          0x220000000007
          false
          (1 ∷ 2 ∷ []))
        peer
        none
        bridge)
    ≡ Receive.Act.acknowledges (ack_route 0x220000000007 4 text) 0x220000000005 (1 ∷ [])
      ∷ Receive.Act.frame false (1 ∷ 2 ∷ [])
      ∷ []
unfolding is_direct_unicast is_sensor_exchange is_buffer_request is_buffer_status is_buffer_chunk
    batman_route_lookup
over_the_air-message_example =
    over_the_air-message (transmitter 0x220000000005) text_route 0x220000000007 0x220000000005
      (1 ∷ 2 ∷ []) (1 ∷ []) text peer none bridge refl text_route-IsPrefix peer-IsStation
      (omega arith) (omega arith) (refl, refl) refl refl refl refl refl refl refl not_delivered
