-- ===== src/Mesh/Receive/Ways.antt =====
-- The ways a frame can go through the handler. Which one it goes is decided by the frame, the station
-- and the decoder alone: neither the tables nor the clock have a say.
use edge_device_esp.Base.{
  ℕ, ◌≡◌, refl, inl, inr, Bool, true, false, ◌&&◌, ◌||◌, not, ltb, leb, ◌==◌, if◌then◌else◌, List,
  [], Option, none, some, length, drop, Bool-cases, arith,
}
use mathlib.Core.Bool.{or-true}
use edge_device_esp.Mesh.Reliable.{ack}
use edge_device_esp.Mesh.Routes.{mac_bits}
use edge_device_esp.Mesh.Realtime.{is_speed_frame}
use edge_device_esp.Mesh.Wire.{Prefix, packet_size, prefix_len, split_prefix}
use edge_device_esp.Mesh.Packet.{
  NetworkPacket, is_msg, is_other, is_report, is_ack, is_buffer_request,
}
use edge_device_esp.Mesh.Receive.{
  Bridge, Env, Outcome, done, rejected, target_is_local, relay, speed_notify, voice_notify,
  is_voice_frame,
}
use edge_device_esp.Mesh.Receive.Handler.{
  Arrival, has_prefix, notify, beacon_packet, process_beacon_from, process_beacon, serve_request,
  ack_acts, before, key_of_packet, receive_packet, relay_message, process_packet, process, arrival,
  no_packet, receive_routed, receive_plain, ingress_of, is_report_frame, is_refused,
  handle_rx_frame,
}

pub data Way : Type 0 where
  refuse : Way
  pass : (ingress : ℕ) → Prefix → List ℕ → Way
  first : Arrival → NetworkPacket → Way
  speed : Prefix → List ℕ → Way
  voice : Prefix → List ℕ → Way
  consume : NetworkPacket → Way
  serve : NetworkPacket → Way
  deliver : Arrival → NetworkPacket → Way
  beacon : Arrival → NetworkPacket → Way

-- What each way does.
unfoldable pub follow : Env → Way → Bridge → Outcome
follow env refuse s = rejected s
follow env (pass ingress p body) s = relay env ingress p body s
follow env (first a m) s = relay_message env a m s
follow env (speed p body) s = done s (speed_notify p body)
follow env (voice p body) s = done s (voice_notify p body)
follow env (consume m) s = done (record s { pending = (ack (key_of_packet m) s.pending).0 }) []
follow env (serve m) s =
    before (ack_acts env m) (done (serve_request env m s).0 (serve_request env m s).1)
follow env (deliver a m) s = before (ack_acts env m) (notify env false a m s)
follow env (beacon a m) s = notify env true a m s

-- A frame that BATMAN delivered goes no way that sends it on, and only the bytes of a speed or voice
-- frame (`raw`) go undecoded to the phone.
abbrev pub Permits : (batman_delivered raw : Bool) → Way → Type 0
Permits batman_delivered raw refuse = Unit
Permits batman_delivered raw (pass ingress p body) = batman_delivered ≡ false
Permits batman_delivered raw (first a m) = batman_delivered ≡ false
Permits batman_delivered raw (speed p body) = raw ≡ true
Permits batman_delivered raw (voice p body) = raw ≡ true
Permits batman_delivered raw (consume m) = Unit
Permits batman_delivered raw (serve m) = Unit
Permits batman_delivered raw (deliver a m) = Unit
Permits batman_delivered raw (beacon a m) = Unit

-- The same station and decoder at another time.
abbrev pub at : ℕ → Env → Env
at now env = record env { now_ms = now }

-- One way serves at every time and for every state of the tables.
abbrev pub GoesOneWay :
    Env → (batman_delivered raw : Bool) → ((now : ℕ) → Bridge → Outcome) → Type 0
GoesOneWay env batman_delivered raw f =
    (w : Way) × ((now : ℕ) (s : Bridge) → f now s ≡ follow (at now env) w s)
    × Permits batman_delivered raw w

module _ (env : Env) (d raw : Bool) where
  choose :
      (test : Bool) (f g : ℕ → Bridge → Outcome)
      → (test ≡ true → GoesOneWay env d raw f)
      → (test ≡ false → GoesOneWay env d raw g)
      → GoesOneWay env d raw (λ now s. if test then f now s else g now s)
  choose true f g k l = k refl
  choose false f g k l = l refl

  way : (w : Way) → Permits d raw w → GoesOneWay env d raw (λ now s. follow (at now env) w s)
  way w ok = (w, (λ now s. refl), ok)

  receive_packet-GoesOneWay :
      (a : Arrival) (m : NetworkPacket)
      → GoesOneWay env d raw (λ now s. receive_packet (at now env) a m s)
  unfolding receive_packet follow
  receive_packet-GoesOneWay a m =
      choose (is_ack m && not (m.message.sequence == 0)) _ _ (λ e. way (consume m) tt)
        (λ e. elim (Bool-cases (is_buffer_request m)) [
          | inl q ↦ (serve m, (λ now s. rw q refl), tt)
          | inr q ↦ (deliver a m, (λ now s. rw q refl), tt)
        ])

  process_packet-GoesOneWay :
      (a : Arrival) (m : NetworkPacket)
      → a.batman_delivered ≡ d
      → GoesOneWay env d raw (λ now s. process_packet (at now env) a m s)
  unfolding process_packet follow target_is_local
  process_packet-GoesOneWay a m h =
      choose (not (is_ack m) && is_other m) _ _ (λ e. way refuse tt)
        (λ e.
          choose
            (not (has_prefix a)
              && is_msg m
              && not (target_is_local env (mac_bits m.to))
              && not a.batman_delivered)
            _ _ (λ r. way (first a m) (ground arith)) (λ r. receive_packet-GoesOneWay a m))

  process_beacon_from-GoesOneWay :
      (from : ℕ) (a : Arrival)
      → GoesOneWay env d raw (λ now s. process_beacon_from (at now env) from a s)
  unfolding follow
  process_beacon_from-GoesOneWay from a =
      choose (length a.body == 0 || ltb 440 (length a.body)) _ _ (λ e. way refuse tt)
        (λ e. way (beacon a (beacon_packet from a)) tt)

  process_beacon-GoesOneWay :
      (a : Arrival) → GoesOneWay env d raw (λ now s. process_beacon (at now env) a s)
  unfolding follow
  process_beacon-GoesOneWay a = go a.prefix a.remote
    where
      go :
          (prefix : Option Prefix) (remote : Option ℕ)
          → GoesOneWay env d raw (λ now s. elim prefix [
            | some p ↦ process_beacon_from (at now env) p.from a s
            | none ↦ elim remote [
              | none ↦ rejected s
              | some mac ↦ process_beacon_from (at now env) mac a s
            ]
          ])
      go (some p) remote = process_beacon_from-GoesOneWay p.from a
      go none none = way refuse tt
      go none (some mac) = process_beacon_from-GoesOneWay mac a

  process-GoesOneWay :
      (a : Arrival)
      → a.batman_delivered ≡ d
      → GoesOneWay env d raw (λ now s. process (at now env) a s)
  unfolding process follow
  process-GoesOneWay a h =
      choose (a.is_report_type && not (a.decoded && is_report a.content)) _ _ (λ e. way refuse tt)
        (λ e.
          choose a.decoded _ _ (λ k. process_packet-GoesOneWay a a.content h)
            (λ k. process_beacon-GoesOneWay a))

receive_routed-GoesOneWay :
    (env : Env) (ingress : ℕ) (p : Prefix) (body : List ℕ) (remote : Option ℕ) (r d : Bool)
    → GoesOneWay env d
        (is_speed_frame body || is_voice_frame body)
        (λ now s. receive_routed (at now env) ingress p body remote r d s)
unfolding receive_routed follow target_is_local
receive_routed-GoesOneWay env ingress p body remote r d =
    let raw = is_speed_frame body || is_voice_frame body in
    choose env d raw (not (target_is_local env (mac_bits p.to)) && not d) _ _
      (λ e. way env d raw (pass ingress p body) (ground arith))
      (λ e.
        choose env d raw (is_speed_frame body) _ _ (λ f. way env d raw (speed p body) (rw f refl))
          (λ f.
            choose env d raw (is_voice_frame body) _ _
              (λ v. way env d raw (voice p body) (rw v (or-true (is_speed_frame body))))
              (λ v.
                process-GoesOneWay env d raw (arrival (some p) body (env.decode body) remote r d)
                  refl)))

-- Every frame goes one way, whatever the tables hold and whatever the time is.
pub handle_rx_frame-GoesOneWay :
    (env : Env) (header payload : List ℕ) (remote : Option ℕ) (d : Bool)
    → GoesOneWay env d
        (is_speed_frame (drop prefix_len payload) || is_voice_frame (drop prefix_len payload))
        (λ now s. handle_rx_frame (at now env) header payload remote d s)
unfolding handle_rx_frame follow receive_plain
handle_rx_frame-GoesOneWay env header payload remote d =
    let body : List ℕ = drop prefix_len payload in
    let raw = is_speed_frame body || is_voice_frame body in
    let r = is_report_frame header in
    choose env d raw (is_refused env header payload) _ _ (λ e. way env d raw refuse tt)
      (λ e.
        elim (split_prefix payload)
          as (λ prefix. GoesOneWay env d raw (λ now s. elim prefix [
            | none ↦ receive_plain (at now env) payload remote r d s
            | some p ↦ receive_routed (at now env) (ingress_of header remote) p body remote r d s
          ])) [
            | none ↦
                process-GoesOneWay env d raw
                  (arrival none payload
                    (if leb (length payload) packet_size
                      then env.decode payload
                      else (false, no_packet))
                    remote r d)
                  refl
            | some p ↦ receive_routed-GoesOneWay env (ingress_of header remote) p body remote r d
          ])
