-- ===== src/Mesh/Receive/Repeat.antt =====
-- A frame that comes again within 5 seconds is not given to the phone again.
use edge_device_esp.Base.{
  ℕ, ◌<◌, ◌≤◌, ◌≡◌, refl, inl, inr, Bool, true, false, ◌&&◌, ◌||◌, not, List, [], Option, length,
  drop, Bool-cases,
}
use edge_device_esp.Base.Words.{sub32}
use edge_device_esp.Mesh.Seen.{drop_higher_hop}
use edge_device_esp.Mesh.Dedupe.{check_and_add, checksum_of}
use edge_device_esp.Mesh.Dedupe.Laws.{check_and_add-recorded}
use edge_device_esp.Mesh.Realtime.{is_speed_frame}
use edge_device_esp.Mesh.Wire.{Prefix, prefix_len, is_public_channel}
use edge_device_esp.Mesh.Packet.{NetworkPacket}
use edge_device_esp.Mesh.Receive.{Bridge, Env, Outcome, channel_enabled, is_voice_frame, relay}
use edge_device_esp.Mesh.Receive.Handler.{
  Arrival, source_of, target_of, dedupe_message, notify, serve_request, ack_acts, key_of_packet,
  relay_message, handle_rx_frame,
}
use edge_device_esp.Mesh.Receive.Relaying.{sent_on, IsRelayed, relay-IsRelayed}
use edge_device_esp.Mesh.Receive.Ways.{
  Way, refuse, pass, first, speed, voice, consume, serve, deliver, beacon, follow, Permits, at,
  handle_rx_frame-GoesOneWay,
}
use edge_device_esp.Mesh.Receive.Delivery.{
  tells_phone, NoneOf, NoneOf-append, ack_acts-NoneOf, request_acts-NoneOf,
}

sent_on-NoneOf : (env : Env) (p : Prefix) (body : List ℕ) → NoneOf tells_phone (sent_on env p body)
sent_on-NoneOf env p body = elim (Bool-cases (is_speed_frame body)) [
  | inl e ↦ rw e tt
  | inr e ↦ rw e (refl, tt)
]

relay-NoneOf :
    (env : Env) (ingress : ℕ) (p : Prefix) (body : List ℕ) (s : Bridge)
    → NoneOf tells_phone (relay env ingress p body s).2
relay-NoneOf env ingress p body s =
    go (relay env ingress p body s) (relay-IsRelayed env ingress p body s)
  where
    go : (r : Outcome) → IsRelayed env ingress p body s r → NoneOf tells_phone r.2
    go r h =
        unfold IsRelayed in
        elim h [
          | inl e ↦ rw e tt
          | inr (inl e) ↦ rw e tt
          | inr (inr (away, far, e)) ↦ rw e (sent_on-NoneOf env p body)
        ]

relay_message-NoneOf :
    (env : Env) (a : Arrival) (m : NetworkPacket) (s : Bridge)
    → NoneOf tells_phone (relay_message env a m s).2
unfolding relay_message
relay_message-NoneOf env a m s = elim (Bool-cases (drop_higher_hop (key_of_packet m) 0 s.seen).1) [
  | inl e ↦ rw e tt
  | inr e ↦ rw e (refl, tt)
]

module _ (env : Env) (now later : ℕ) (s : Bridge) (soon : sub32 later now ≤ 5000)
    (room : 0 < length s.delivered) where
  -- The second time the packet is on record, or its channel is still switched off.
  notify_again :
      (b : Bool) (a : Arrival) (m : NetworkPacket)
      → (notify (at later env) b a m (notify (at now env) b a m s).1).2 ≡ []
  unfolding notify
  notify_again b a m =
      elim (Bool-cases (
        is_public_channel (target_of a m)
        && not (channel_enabled env.channel_mask (target_of a m)))) [
          | inl e ↦ rw e refl
          | inr e ↦
              let c = checksum_of (source_of a m) (dedupe_message b a m) in
              let (answer, size, again) =
                check_and_add-recorded c now later s.delivered room soon in
              rw e (elim (Bool-cases (check_and_add c now s.delivered).1) [
                | inl d ↦ rw (d, again) refl
                | inr d ↦ rw (d, again) refl
              ])
        ]

  follow_again :
      (d : Bool) (w : Way)
      → Permits d false w
      → NoneOf tells_phone (follow (at later env) w (follow (at now env) w s).1).2
  unfolding follow serve_request
  follow_again d refuse h = tt
  follow_again d (pass ingress p body) h = relay-NoneOf (at later env) ingress p body _
  follow_again d (first a m) h = relay_message-NoneOf (at later env) a m _
  follow_again d (speed p body) h = cc
  follow_again d (voice p body) h = cc
  follow_again d (consume m) h = tt
  follow_again d (serve m) h =
      NoneOf-append tells_phone (ack_acts (at later env) m) _
        (ack_acts-NoneOf tells_phone (at later env) m (λ p hop bytes. refl))
        (request_acts-NoneOf tells_phone (at later env) _ m _ (λ acts. refl))
  follow_again d (deliver a m) h =
      NoneOf-append tells_phone (ack_acts (at later env) m) _
        (ack_acts-NoneOf tells_phone (at later env) m (λ p hop bytes. refl))
        (rw (notify_again false a m) tt)
  follow_again d (beacon a m) h = rw (notify_again true a m) tt

-- When the same frame is handled again within 5 seconds of the first time, with nothing in between,
-- the phone is told nothing the second time; only the bytes of speed and voice frames, which are not
-- decoded, are given to it each time.
pub handle_rx_frame-repeat :
    (env : Env) (now later : ℕ) (header payload : List ℕ) (remote : Option ℕ) (d : Bool)
    (s : Bridge)
    → sub32 later now ≤ 5000
    → 0 < length s.delivered
    → (is_speed_frame (drop prefix_len payload) || is_voice_frame (drop prefix_len payload)) ≡ false
    → NoneOf tells_phone
        (handle_rx_frame
          (at later env)
          header
          payload
          remote
          d
          (handle_rx_frame (at now env) header payload remote d s).1).2
handle_rx_frame-repeat env now later header payload remote d s soon room raw =
    let (w, same, ok) = handle_rx_frame-GoesOneWay env header payload remote d in
    rw (same now s, same later (follow (at now env) w s).1)
      (follow_again env now later s soon room d w (rw raw at ok))
