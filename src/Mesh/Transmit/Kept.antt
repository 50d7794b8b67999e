-- ===== src/Mesh/Transmit/Kept.antt =====
-- What becomes of a packet from the phone: which go to the radio, with what, and which are kept.
use edge_device_esp.Base.{
  ℕ, ◌^◌, ◌<◌, ◌≤◌, ◌≡◌, refl, ap, inl, inr, Bool, true, false, ◌&&◌, ◌||◌, not, if◌then◌else◌,
  ◌==◌, List, [], ◌∷◌, length, All, Bool-cases, arith,
}
use mathlib.Core.Bool.{and-false}
use edge_device_esp.Base.EspErr.{is_ok}
use edge_device_esp.Mesh.Reliable.{is_active}
use edge_device_esp.Mesh.Reliable.Laws.{store-is_active}
use edge_device_esp.Mesh.Routes.{mac_bits, next_hop_or}
use edge_device_esp.Mesh.Wire.{Prefix, packet_size, is_public_channel}
use edge_device_esp.Mesh.Packet.{
  NetworkPacket, Body, is_msg, is_ack, is_other, has_no_id, is_report, is_direct_unicast,
  is_sensor_exchange, is_buffer_request, is_buffer_chunk, mime_voice_call,
}
use edge_device_esp.Mesh.Receive.{Bridge}
use edge_device_esp.Mesh.Receive.Handler.{key_of_packet}
use edge_device_esp.Mesh.Transmit.{
  Env, Act, Outcome, is_forwarded, packet_hop, route_hop, is_reliable, send_message, handle_message,
  has_beacon, handle_body, is_authorized, handle_to_radio, send_act,
}

module _ (m : NetworkPacket) (h : is_reliable m ≡ true) where
  pub reliable_unicast : is_direct_unicast m ≡ true
  reliable_unicast = ground arith

  pub reliable_exchange : is_sensor_exchange m ≡ false
  reliable_exchange = ground arith

  pub reliable_msg : is_msg m ≡ true
  unfolding is_direct_unicast
  reliable_msg = ground arith

  pub reliable_unacked : is_ack m ≡ false
  unfolding is_direct_unicast
  reliable_unacked = ground arith

  pub reliable_id : has_no_id m ≡ false
  unfolding is_direct_unicast
  reliable_id = ground arith

  pub reliable_request : is_buffer_request m ≡ false
  unfolding is_sensor_exchange
  reliable_request = ground arith

  pub reliable_chunk : is_buffer_chunk m ≡ false
  unfolding is_sensor_exchange
  reliable_chunk = ground arith

-- A message has no other body.
pub only_msg :
    (m : NetworkPacket)
    → is_msg m ≡ true
    → (is_other m ≡ false) × (is_report m ≡ false) × (m.body ≡ Body.msg)
only_msg m h = go m.body h
  where
    go :
        (b : Body)
        → (elim b [ Body.msg ↦ true | _ ↦ false ]) ≡ true
        → ((elim b [ Body.msg ↦ false | Body.payload ↦ false | Body.report ↦ false | _ ↦ true ])
            ≡ false)
          × ((elim b [ Body.report ↦ true | _ ↦ false ]) ≡ false)
          × (b ≡ Body.msg)
    go Body.msg e = (refl, refl, refl)
    go Body.payload e = cc
    go Body.report e = cc
    go Body.status e = cc
    go Body.init e = cc
    go Body.device_settings e = cc
    go Body.script_config e = cc
    go Body.location_update e = cc
    go Body.routing_table e = cc
    go Body.other e = cc

public_small : (id : ℕ) → is_public_channel id ≡ true → id < 2 ^ 48
public_small id h = ground arith

private_mac : (m : NetworkPacket) → is_reliable m ≡ true → is_public_channel (mac_bits m.to) ≡ false
unfolding is_direct_unicast
private_mac m h = ground arith

public_mac : (id : ℕ) → is_public_channel id ≡ true → mac_bits id ≡ id
public_mac id h = omega (arith, public_small id h)

reliable_public : (m : NetworkPacket) → is_reliable m ≡ true → is_public_channel m.to ≡ false
unfolding is_direct_unicast
reliable_public m h = elim (Bool-cases (is_public_channel m.to)) [
  | inr e ↦ e
  | inl e ↦ cc (private_mac m h, ap is_public_channel (public_mac m.to e))
]

-- The packet waits for its acknowledgement.
unfoldable pub waits : NetworkPacket → Bridge → Bool
waits m s = is_active (key_of_packet m) s.pending

-- The prefix that a packet of the phone is sent behind: the identity and the stations that the packet
-- names, and one hop if it is forwarded.
abbrev pub prefix_for : (max_hop : ℕ) → (forward : Bool) → NetworkPacket → Prefix
prefix_for max_hop forward m = record {
  id_high = m.message.id_high;
  id_low = m.message.id_low;
  sequence = m.message.sequence;
  from = m.from;
  to = m.to;
  max_hop = max_hop;
  hop = if forward then 1 else 0;
}

abbrev pub given : (forward : Bool) → Prefix → (next_hop : ℕ) → List ℕ → Act
given true p next_hop payload = Act.forwards p next_hop payload
given false p next_hop payload = Act.sends p next_hop payload

-- A message to one station is kept if the radio took it.
unfoldable pub IsKept : Env → (forward : Bool) → List ℕ → NetworkPacket → Bridge → Outcome → Type 0
IsKept env forward payload m s (e, told, s', acts) =
    let p = prefix_for env.max_hop forward m in
    let next_hop = next_hop_or env.lookup m.to m.to in
    (e ≡ env.radio p next_hop payload)
    × (told ≡ false)
    × (acts ≡ given forward p next_hop payload ∷ [])
    × (is_ok e ≡ true → waits m s' ≡ true)
    × (is_ok e ≡ false → s' ≡ s)

send_act_lem :
    (env : Env) (forward : Bool) (payload : List ℕ) (m : NetworkPacket)
    → send_act env forward payload m
      ≡ given forward (prefix_for env.max_hop forward m) (next_hop_or env.lookup m.to m.to) payload
send_act_lem env true payload m = refl
send_act_lem env false payload m = refl

send_message-IsKept :
    (env : Env) (forward : Bool) (payload : List ℕ) (m : NetworkPacket) (s : Bridge)
    → is_reliable m ≡ true
    → 0 < length payload
    → length payload ≤ packet_size
    → 0 < length s.pending
    → IsKept env forward payload m s (send_message env forward payload m s)
unfolding send_message IsKept waits
send_message-IsKept env forward payload m s r l k t = rw r (
  refl,
  refl,
  ap (λ act. act ∷ []) (send_act_lem env forward payload m),
  (λ e. rw e (
      store-is_active packet_size env.now_ms env.max_hop (route_hop env m) (key_of_packet m) m.from
        m.to (packet_hop env m) payload s.pending l k t)),
  (λ e. rw e refl),
)

handle_body_msg :
    (env : Env) (forward : Bool) (payload : List ℕ) (m : NetworkPacket) (s : Bridge) (b : Body)
    → b ≡ Body.msg
    → handle_body env forward payload m s b ≡ handle_message env forward payload m s
unfolding handle_body
handle_body_msg env forward payload m s b e = rw e refl

-- Nobody is refused: every authorization answers true.
all_authorized : (env : Env) (m : NetworkPacket) → is_authorized env m ≡ true
unfolding is_authorized
all_authorized env m = ground arith

-- A message of the phone to one station, which has an id and is no acknowledgement, no voice call and
-- no part of a buffer transfer, and whose 1 to 702 bytes can be decoded, is handed to the radio with
-- these bytes, its ids and its target, towards the next hop that the routes give or else the target;
-- the phone hears what the radio answers. It is forwarded, with one hop behind it, if it came by the
-- forward interface or by BLE while forwarding is on, and sent without a hop otherwise; by the forward
-- interface only while forwarding is on. If the radio took it, it then waits for its acknowledgement,
-- in a table that has at least one slot; if not, no table changes.
pub handle_to_radio-IsKept :
    (env : Env) (via_forward : Bool) (payload : List ℕ) (m : NetworkPacket) (s : Bridge)
    → env.decode payload ≡ (true, m)
    → (via_forward && not env.forwarding) ≡ false
    → is_reliable m ≡ true
    → (m.message.mime == mime_voice_call) ≡ false
    → 0 < length payload
    → length payload ≤ packet_size
    → 0 < length s.pending
    → IsKept env
        (via_forward || (env.forwarding && m.interface == 2))
        payload
        m
        s
        (handle_to_radio env via_forward payload s)
unfolding handle_to_radio handle_message
handle_to_radio-IsKept env via_forward payload m s d f r c l k t =
    let (o, p, body) = only_msg m (reliable_msg m r) in
    rw
      (
        d,
        all_authorized env m,
        f,
        reliable_unacked m r,
        handle_body_msg env (is_forwarded env via_forward m) payload m s m.body body,
        reliable_public m r,
        c,
      )
      (send_message-IsKept env (is_forwarded env via_forward m) payload m s r l k t)

-- A call that gives a packet to the radio.
abbrev pub is_transmission : Act → Bool
is_transmission (Act.sends p hop bytes) = true
is_transmission (Act.forwards p hop bytes) = true
is_transmission (Act.handles m) = false
is_transmission (Act.status_frame m) = false

-- No table has changed, and the radio was given nothing.
unfoldable pub IsSilent : Bridge → Outcome → Type 0
IsSilent s (e, told, s', acts) = (s' ≡ s) × All (λ act. is_transmission act ≡ false) acts

handle_body-IsSilent :
    (env : Env) (forward : Bool) (payload : List ℕ) (m : NetworkPacket) (s : Bridge) (b : Body)
    → (elim b [ Body.msg ↦ true | _ ↦ false ]) ≡ false
    → IsSilent s (handle_body env forward payload m s b)
unfolding handle_body IsSilent
handle_body-IsSilent env forward payload m s Body.msg e = cc
handle_body-IsSilent env forward payload m s Body.status e = (refl, (refl, tt))
handle_body-IsSilent env forward payload m s Body.init e = (refl, (refl, (refl, tt)))
handle_body-IsSilent env forward payload m s Body.payload e = elim (Bool-cases (has_beacon env m)) [
  | inl b ↦ rw b (refl, (refl, (refl, tt)))
  | inr b ↦ rw b (refl, (refl, tt))
]
handle_body-IsSilent env forward payload m s Body.device_settings e = (refl, (refl, tt))
handle_body-IsSilent env forward payload m s Body.script_config e = (refl, (refl, tt))
handle_body-IsSilent env forward payload m s Body.location_update e = (refl, (refl, tt))
handle_body-IsSilent env forward payload m s Body.routing_table e = (refl, (refl, tt))
handle_body-IsSilent env forward payload m s Body.report e = (refl, tt)
handle_body-IsSilent env forward payload m s Body.other e = (refl, tt)

-- Only packets with a message body go to the mesh: for bytes that cannot be decoded, and for a packet
-- with any other body, even one whose operation is an acknowledgement, neither of the two calls that
-- send a payload is made, and no table of the bridge changes. A beacon is requested by another call,
-- and what the handlers of settings, scripts and location call in turn is left out.
pub handle_to_radio-IsSilent :
    (env : Env) (via_forward : Bool) (payload : List ℕ) (s : Bridge)
    → ((env.decode payload).0 && is_msg (env.decode payload).1) ≡ false
    → IsSilent s (handle_to_radio env via_forward payload s)
unfolding handle_to_radio IsSilent
handle_to_radio-IsSilent env via_forward payload s h =
    let m = (env.decode payload).1 in
    elim (Bool-cases (env.decode payload).0) [
      | inr d ↦ rw d (refl, tt)
      | inl d ↦
          let no_msg : is_msg m ≡ false = rw d at h in
          rw (d, all_authorized env m)
            (elim (Bool-cases (via_forward && not env.forwarding)) [
              | inl f ↦ rw f (refl, tt)
              | inr f ↦
                  rw (f, no_msg, and-false (is_ack m))
                    (handle_body-IsSilent env (is_forwarded env via_forward m) payload m s m.body
                      no_msg)
            ])
    ]
