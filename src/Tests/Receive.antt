-- ===== src/Tests/Receive.antt =====
-- Concrete runs of the receive handler.
use edge_device_esp.Base.{
  ℕ, ◌≡◌, refl, true, false, List, [], ◌∷◌, ◌++◌, none, some, replicate, take, arith,
}
use mathlib.Core.List.{map}
use edge_device_esp.Base.EspErr.{EspErr}
use edge_device_esp.Sampling.Buffer.{initial}
use edge_device_esp.Mesh.Seen.Laws as SeenLaws
use edge_device_esp.Mesh.Routes.{batman_route_lookup}
use edge_device_esp.Mesh.Speech
use edge_device_esp.Mesh.Speech.{read_be, be48_bytes, be32_bytes}
use edge_device_esp.Mesh.Speech.Laws.{voice_item}
use edge_device_esp.Mesh.GlobalBuffer.{cleared}
use edge_device_esp.Mesh.Wire.{
  Prefix, Sender, split_prefix, read_prefix, send_item, item_prefix, ethernet, prefix_bytes,
}
use edge_device_esp.Mesh.Wire.RoundTrip.{IsPrefix}
use edge_device_esp.Mesh.Packet.{
  NetworkPacket, Body, is_direct_unicast, reliable_ack, is_sensor_exchange, is_buffer_request,
  is_buffer_status, is_buffer_chunk,
}
use edge_device_esp.Mesh.Dedupe.{check_and_add, touch, pick_slot, checksum_of, fnv1a64_update}
use edge_device_esp.Mesh.Receive.{Bridge, Env, Act, done, rejected, relay, target_is_local}
use edge_device_esp.Mesh.Receive.Handler.{
  handle_rx_frame, receive_routed, process, process_packet, receive_packet, notify,
}
use edge_device_esp.Mesh.Receive.Relaying.{IsRelayable, relay-higher_copy, limited, relay-max_hop}
use edge_device_esp.Mesh.Receive.Ways.{at}
use edge_device_esp.Mesh.Receive.Delivery.{
  sends_on, tells_phone, NoneOf, SameRelay, handle_rx_frame-delivered, handle_rx_frame-rejected,
}
use edge_device_esp.Mesh.Receive.Repeat.{handle_rx_frame-repeat}
use edge_device_esp.Mesh.Receive.Voice.{IsStation, over_the_air, over_the_air-voice_item}

abbrev bridge : Bridge
bridge = record {
  seen = record {
    table =
        replicate 32 (record {
          valid = false;
          key = record { high = 0; low = 0; sequence = 0 };
          best_hop = 0;
        });
    replace_index = 0;
  };
  delivered = replicate 4 (record { valid = false; checksum = 0; last_seen_ms = 0 });
  pending = [];
  realtime = record {
    created = true;
    queue = [];
    paths = replicate 4 (record { valid = false; target = 0; sampled_ms = 0; limit = 4 });
    replace_index = 0;
    drops = 0;
    send_failures = 0;
  };
  transfer = cleared initial;
  from_radio_seq = 0;
}

bridge-IsValid : SeenLaws.IsValid bridge.seen
bridge-IsValid = record { size = refl; index = omega arith }

-- A text for station 0x220000000007.
abbrev text : List ℕ → NetworkPacket
text bytes = record {
  from = 0x220000000005;
  to = 0x220000000007;
  operation = 1;
  interface = 5;
  body = Body.msg;
  message = record { id_high = 1; id_low = 2; sequence = 3; mime = 1; payload = bytes };
  raw = bytes;
}

abbrev env : Env
env = record {
  licensed = true;
  device_mode = false;
  forwarding = true;
  media_active = true;
  channel_mask = 31;
  now_ms = 1000;
  decode = λ bytes. (true, text bytes);
  encode = λ m. some (1 ∷ []);
  platform = record {
    self_mac = some 0x220000000007;
    id_high = 1;
    id_low = 1;
    status_id_high = 1;
    status_id_low = 1;
    max_hop = 4;
    lookup = λ target. some (record { next_hop = 0x220000000009; hops = 2; tq = 200; age_ms = 10 });
    encode = λ packet. none;
    radio = λ bytes. EspErr.ok;
    lease_created = true;
  };
}

abbrev route : (to : ℕ) → Prefix
route to = record {
  id_high = 1;
  id_low = 2;
  sequence = 3;
  from = 0x220000000005;
  to = to;
  max_hop = 4;
  hop = 1;
}

-- A text of three bytes, as it comes over the air.
abbrev header : List ℕ
header = take 14 (ethernet 0x220000000007 0x220000000005 0x88b5 [])

abbrev local_text : List ℕ
local_text = prefix_bytes (route 0x220000000007) ++ (7 ∷ 8 ∷ 9 ∷ [])

told_once :
    (handle_rx_frame env header local_text none true bridge).2
    ≡ Act.acknowledges
        (record {
          id_high = 1;
          id_low = 2;
          sequence = 3;
          from = 0x220000000007;
          to = 0x220000000005;
          max_hop = 4;
          hop = 0;
        })
        0x220000000009
        (1 ∷ [])
      ∷ Act.frame true (7 ∷ 8 ∷ 9 ∷ [])
      ∷ []
unfolding handle_rx_frame split_prefix read_prefix read_be receive_routed target_is_local process
    process_packet receive_packet is_direct_unicast reliable_ack is_sensor_exchange
    is_buffer_request is_buffer_status is_buffer_chunk batman_route_lookup notify check_and_add
    touch pick_slot checksum_of fnv1a64_update
told_once = refl

relayable : IsRelayable env 5 (route 0x220000000008) (7 ∷ [])
unfolding IsRelayable batman_route_lookup
relayable = (refl, refl)

relay-higher_copy_example :
    let first = (relay env 5 (route 0x220000000008) (7 ∷ []) bridge).1 in
    let second = relay env 6 (record (route 0x220000000008) { hop = 3 }) (7 ∷ []) first in
    (second.2 ≡ []) × (second.1.realtime ≡ first.realtime)
relay-higher_copy_example =
    relay-higher_copy env env 5 6 3 (route 0x220000000008) (7 ∷ []) (7 ∷ []) bridge bridge-IsValid
      refl relayable (omega arith) (omega arith)

handle_rx_frame-delivered_example :
    NoneOf sends_on (handle_rx_frame env header local_text none true bridge).2
    × SameRelay bridge (handle_rx_frame env header local_text none true bridge).1
handle_rx_frame-delivered_example = handle_rx_frame-delivered env header local_text none bridge

refused_short : (handle_rx_frame env (1 ∷ 2 ∷ []) local_text none true bridge).0 ≡ false
unfolding handle_rx_frame
refused_short = refl

handle_rx_frame-rejected_example :
    handle_rx_frame env (1 ∷ 2 ∷ []) local_text none true bridge ≡ rejected bridge
handle_rx_frame-rejected_example =
    handle_rx_frame-rejected env (1 ∷ 2 ∷ []) local_text none true bridge refused_short

handle_rx_frame-repeat_example :
    NoneOf tells_phone
      (handle_rx_frame
        (at 3000 env)
        header
        local_text
        none
        true
        (handle_rx_frame (at 1000 env) header local_text none true bridge).1).2
handle_rx_frame-repeat_example =
    handle_rx_frame-repeat env 1000 3000 header local_text none true bridge (omega arith)
      (omega arith) refl

abbrev phone : Speech.Platform
phone = record {
  self_mac = some 0x220000000005;
  id_high = 1;
  id_low = 2;
  peers = record { lookup = λ target. none; select_direct_peer = λ a b c key. none };
  now_ms = 100;
}

abbrev sound : List ℕ
sound = replicate 20 7

abbrev radio : Sender
radio = record { licensed = true; started = true; self_mac = some 0x220000000005 }

voice_prefix : IsPrefix (item_prefix (voice_item phone 0x220000000005 0x220000000007 4 9 sound))
unfolding voice_item
voice_prefix = record {
  id_high = omega arith;
  id_low = omega arith;
  id = refl;
  sequence = omega arith;
  from = omega arith;
  to = omega arith;
  max_hop = omega arith;
  hop = omega arith;
}

station : IsStation 0x220000000007
unfolding IsStation
station = (omega arith, refl)

over_the_air-voice_item_example :
    over_the_air
      (send_item radio (voice_item phone 0x220000000005 0x220000000007 4 9 sound))
      env
      none
      bridge
    ≡ some
        (done bridge (Act.voice_frame (be48_bytes 0x220000000005 ++ (be32_bytes 9 ++ sound)) ∷ []))
over_the_air-voice_item_example =
    over_the_air-voice_item radio 0x220000000005 phone 0x220000000005 0x220000000007 4 9 sound env
      none bridge refl voice_prefix station (omega arith) (omega arith) refl

-- A frame with 9 hops behind it, under a limit of 200 and under one of 4.
relay-max_hop_example :
    relay env 5 (record (route 0x220000000008) { hop = 9; max_hop = 4 }) (7 ∷ []) bridge ≡ (
      (relay env 5 (record (route 0x220000000008) { hop = 9; max_hop = 200 }) (7 ∷ []) bridge).0,
      (relay env 5 (record (route 0x220000000008) { hop = 9; max_hop = 200 }) (7 ∷ []) bridge).1,
      map
          (limited 4)
          (relay env 5
            (record (route 0x220000000008) { hop = 9; max_hop = 200 })
            (7 ∷ [])
            bridge).2,
    )
relay-max_hop_example =
    relay-max_hop env 5 4 (record (route 0x220000000008) { hop = 9; max_hop = 200 }) (7 ∷ []) bridge
      refl
