-- ===== src/Mesh/Transmit/Acknowledged.antt =====
-- A message from one station to another, and its acknowledgement back.
use edge_device_esp.Base.{
  ℕ, ◌<◌, ◌≤◌, ◌≡◌, refl, ap, ◌∙◌, true, false, ◌&&◌, not, ◌==◌, ==_refl, List, [], ◌∷◌, ◌++◌,
  Option, none, some, length, arith,
}
use mathlib.Core.Bool.{and-false}
use edge_device_esp.Mesh.Dedupe.{check_and_add, checksum_of}
use edge_device_esp.Mesh.Reliable.{ack}
use edge_device_esp.Mesh.Reliable.Laws.{is_active-ack}
use edge_device_esp.Mesh.Routes.{mac_bits, next_hop_or}
use edge_device_esp.Mesh.Realtime.{is_speed_frame}
use edge_device_esp.Mesh.Wire.{Prefix, Sender, is_public_channel, send_mesh_payload}
use edge_device_esp.Mesh.Wire.RoundTrip.{IsPrefix}
use edge_device_esp.Mesh.Packet.{
  NetworkPacket, is_ack, is_other, ack_of, ack_route, reliable_ack, mime_voice_call,
}
use edge_device_esp.Mesh.Receive.{
  Bridge, Env, Act, Outcome, done, self_or_zero, target_is_local, is_voice_frame,
}
use edge_device_esp.Mesh.Receive.Handler.{
  arrival, notify, key_of_packet, ack_acts, receive_packet, process_packet, process, receive_routed,
}
use edge_device_esp.Mesh.Receive.Voice.{IsStation, over_the_air, over_the_air-send_mesh_payload}
use edge_device_esp.Mesh.Transmit.{is_reliable}
use edge_device_esp.Mesh.Transmit.Kept.{
  reliable_unicast, reliable_exchange, reliable_msg, reliable_unacked, reliable_id,
  reliable_request, reliable_chunk, only_msg, waits,
}

-- Bytes that are neither a speed nor a voice frame.
abbrev pub IsPacket : List ℕ → Type 0
IsPacket payload = (is_speed_frame payload ≡ false) × (is_voice_frame payload ≡ false)

receive_routed-process :
    (env : Env) (ingress : ℕ) (p : Prefix) (payload : List ℕ) (m : NetworkPacket)
    (remote : Option ℕ) (s : Bridge)
    → IsPacket payload
    → env.decode payload ≡ (true, m)
    → is_other m ≡ false
    → receive_routed env ingress p payload remote false true s
      ≡ receive_packet env (arrival (some p) payload (true, m) remote false true) m s
unfolding receive_routed process process_packet
receive_routed-process env ingress p payload m remote s (sp, v) d o =
    rw
      (
        and-false (not (target_is_local env (mac_bits p.to))),
        sp,
        v,
        d,
        o,
        and-false (not (is_ack m)),
      )
      refl

-- What the station does that a packet was sent to.
over_the_air-packet :
    (tx : Sender) (p : Prefix) (next_hop mac : ℕ) (payload : List ℕ) (m : NetworkPacket) (env : Env)
    (remote : Option ℕ) (s : Bridge)
    → tx ≡ record { licensed = true; started = true; self_mac = some mac }
    → IsPrefix p
    → IsStation p.to
    → 0 < length payload
    → length payload ≤ 450
    → IsPacket payload
    → env.licensed ≡ true
    → env.decode payload ≡ (true, m)
    → is_other m ≡ false
    → over_the_air (send_mesh_payload tx p next_hop false payload) env remote s
      ≡ some (receive_packet env (arrival (some p) payload (true, m) remote false true) m s)
over_the_air-packet tx p next_hop mac payload m env remote s e v st l k raw lic d o =
    over_the_air-send_mesh_payload tx p next_hop mac payload env remote s e v st l k lic
    ∙ ap some (receive_routed-process env _ p payload m remote s raw d o)

-- The packet is consumed as an acknowledgement: the phone is told nothing, nothing is sent, and the
-- message that it names no longer waits.
unfoldable pub IsRetired : NetworkPacket → Option Outcome → Type 0
IsRetired m r = (s : Bridge) × (r ≡ some (done s [])) × (waits m s ≡ false)

-- The acknowledgement that a station sends for a message with a sequence number ends the message's
-- wait at the station that it is sent to, whatever the tables of that station hold by then.
pub over_the_air-ack :
    (tx : Sender) (self max_hop next_hop mac : ℕ) (m : NetworkPacket) (bytes : List ℕ) (env : Env)
    (remote : Option ℕ) (s : Bridge)
    → tx ≡ record { licensed = true; started = true; self_mac = some mac }
    → IsPrefix (ack_route self max_hop m)
    → IsStation m.from
    → 0 < length bytes
    → length bytes ≤ 450
    → IsPacket bytes
    → env.licensed ≡ true
    → env.decode bytes ≡ (true, ack_of self m)
    → (m.message.sequence == 0) ≡ false
    → IsRetired m (
        over_the_air
          (send_mesh_payload tx (ack_route self max_hop m) next_hop false bytes)
          env
          remote
          s)
unfolding IsRetired waits receive_packet
over_the_air-ack tx self max_hop next_hop mac m bytes env remote s e v st l k raw lic d q = (
  record s { pending = (ack (key_of_packet m) s.pending).0 },
  over_the_air-packet tx (ack_route self max_hop m) next_hop mac bytes (ack_of self m) env remote s
        e v st l k raw lic d refl
      ∙ rw q refl,
  is_active-ack (key_of_packet m) (key_of_packet m) s.pending
      ∙ ground
          (arith, ==_refl m.message.id_high, ==_refl m.message.id_low, ==_refl m.message.sequence),
)

-- The calls that handling a received frame makes.
abbrev pub acts_of : Option Outcome → List Act
acts_of none = []
acts_of (some r) = r.2

acknowledged :
    (env : Env) (m : NetworkPacket) (bytes : List ℕ)
    → is_reliable m ≡ true
    → (m.message.mime == mime_voice_call) ≡ false
    → (m.from == 0) ≡ false
    → env.device_mode ≡ false
    → env.encode (ack_of (self_or_zero env.platform.self_mac) m) ≡ some bytes
    → ack_acts env m
      ≡ Act.acknowledges
          (ack_route (self_or_zero env.platform.self_mac) env.platform.max_hop m)
          (next_hop_or env.platform.lookup m.from m.from)
          bytes
        ∷ []
unfolding reliable_ack
acknowledged env m bytes r v z d e =
    rw
      (
        reliable_unicast m r,
        reliable_unacked m r,
        reliable_id m r,
        reliable_exchange m r,
        v,
        z,
        d,
        e,
      )
      refl

receive_packet-message :
    (env : Env) (p : Prefix) (payload : List ℕ) (m : NetworkPacket) (remote : Option ℕ) (s : Bridge)
    → is_reliable m ≡ true
    → (m.message.mime == mime_voice_call) ≡ false
    → is_public_channel p.to ≡ false
    → (check_and_add (checksum_of p.from m.message.payload) env.now_ms s.delivered).1 ≡ false
    → (receive_packet env (arrival (some p) payload (true, m) remote false true) m s).2
      ≡ ack_acts env m ++ (Act.frame env.forwarding payload ∷ [])
unfolding receive_packet notify
receive_packet-message env p payload m remote s r v pub' c =
    let (o, rep, body) = only_msg m (reliable_msg m r) in
    rw
      (
        reliable_unacked m r,
        reliable_request m r,
        pub',
        rep,
        reliable_chunk m r,
        c,
        v,
        reliable_msg m r,
        and-false (env.media_active && true),
      )
      refl

-- A message of the phone that is kept until it is acknowledged, and that has a sender and is no voice
-- call: the station that it is sent to hands it to its own phone unchanged, and sends the
-- acknowledgement of that message back to its sender, if it did not deliver the message before, is
-- not in device mode and can encode the answer.
pub over_the_air-message :
    (tx : Sender) (p : Prefix) (next_hop mac : ℕ) (payload bytes : List ℕ) (m : NetworkPacket)
    (env : Env) (remote : Option ℕ) (s : Bridge)
    → tx ≡ record { licensed = true; started = true; self_mac = some mac }
    → IsPrefix p
    → IsStation p.to
    → 0 < length payload
    → length payload ≤ 450
    → IsPacket payload
    → env.licensed ≡ true
    → env.decode payload ≡ (true, m)
    → is_reliable m ≡ true
    → (m.message.mime == mime_voice_call) ≡ false
    → (m.from == 0) ≡ false
    → env.device_mode ≡ false
    → env.encode (ack_of (self_or_zero env.platform.self_mac) m) ≡ some bytes
    → (check_and_add (checksum_of p.from m.message.payload) env.now_ms s.delivered).1 ≡ false
    → acts_of (over_the_air (send_mesh_payload tx p next_hop false payload) env remote s)
      ≡ Act.acknowledges
          (ack_route (self_or_zero env.platform.self_mac) env.platform.max_hop m)
          (next_hop_or env.platform.lookup m.from m.from)
          bytes
        ∷ Act.frame env.forwarding payload
        ∷ []
unfolding IsStation
over_the_air-message tx p next_hop mac payload bytes m env remote s e valid st l k raw lic d r v z
      dm enc c =
    let (o, rep, body) = only_msg m (reliable_msg m r) in
    let station : is_public_channel p.to ≡ false = ground (arith, st.1) in
    ap acts_of
      (over_the_air-packet tx p next_hop mac payload m env remote s e valid st l k raw lic d o)
    ∙ receive_packet-message env p payload m remote s r v station c
    ∙ ap (λ acts. acts ++ (Act.frame env.forwarding payload ∷ []))
        (acknowledged env m bytes r v z dm enc)
