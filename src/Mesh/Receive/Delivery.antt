-- ===== src/Mesh/Receive/Delivery.antt =====
-- What the handler does whichever way a frame goes: a refused frame changes nothing, a frame that
-- BATMAN delivered is not sent on, and a frame that comes twice reaches the phone once.
use edge_device_esp.Base.{
  ℕ, ◌≡◌, refl, inl, inr, Bool, true, false, ◌&&◌, not, ltb, ◌==◌, List, [], ◌∷◌, ◌++◌, Option,
  none, some, length, drop, All, Bool-cases,
}
use edge_device_esp.Base.EspErr.{EspErr, is_ok}
use edge_device_esp.Mesh.GlobalBuffer
use edge_device_esp.Mesh.Dedupe.{check_and_add, checksum_of}
use edge_device_esp.Mesh.Seen.{drop_higher_hop}
use edge_device_esp.Mesh.Wire.{Prefix, packet_size, is_public_channel}
use edge_device_esp.Mesh.Packet.{
  NetworkPacket, is_msg, is_buffer_chunk, is_direct_unicast, reliable_ack, mime_voice_call,
}
use edge_device_esp.Mesh.Receive.{
  Bridge, Env, Act, Outcome, rejected, channel_enabled, self_or_zero, relay,
}
use edge_device_esp.Mesh.Receive.Handler.{
  Arrival, has_prefix, source_of, target_of, dedupe_message, notify_acts, notify, serve_request,
  request_acts, ack_acts, key_of_packet, relay_message, handle_rx_frame,
}
use edge_device_esp.Mesh.Receive.Relaying.{IsRelayed, relay-IsRelayed}
use edge_device_esp.Mesh.Receive.Ways.{
  Way, refuse, pass, first, speed, voice, consume, serve, deliver, beacon, follow, Permits,
  handle_rx_frame-GoesOneWay,
}

-- A call that sends a received frame on, and one that gives it to the phone.
abbrev pub sends_on : Act → Bool
sends_on (Act.forwards p hop bytes) = true
sends_on (Act.acknowledges p hop bytes) = false
sends_on (Act.replies acts) = false
sends_on (Act.voice_frame bytes) = false
sends_on (Act.frame forward bytes) = false
sends_on (Act.packet m) = false

abbrev pub tells_phone : Act → Bool
tells_phone (Act.forwards p hop bytes) = false
tells_phone (Act.acknowledges p hop bytes) = false
tells_phone (Act.replies acts) = false
tells_phone (Act.voice_frame bytes) = true
tells_phone (Act.frame forward bytes) = true
tells_phone (Act.packet m) = true

abbrev pub NoneOf : (Act → Bool) → List Act → Type 0
NoneOf test acts = All (λ act. test act ≡ false) acts

pub NoneOf-append :
    (test : Act → Bool) (xs ys : List Act)
    → NoneOf test xs
    → NoneOf test ys
    → NoneOf test (xs ++ ys)
NoneOf-append test [] ys h k = k
NoneOf-append test (x ∷ xs) ys (a, h) k = (a, NoneOf-append test xs ys h k)

-- An acknowledgement is neither.
pub ack_acts-NoneOf :
    (test : Act → Bool) (env : Env) (m : NetworkPacket)
    → ((p : Prefix) (hop : ℕ) (bytes : List ℕ) → test (Act.acknowledges p hop bytes) ≡ false)
    → NoneOf test (ack_acts env m)
ack_acts-NoneOf test env m h = elim (Bool-cases (not (is_direct_unicast m))) [
  | inl e ↦ rw e tt
  | inr e ↦ rw e (
      go (
        reliable_ack env.device_mode env.encode env.platform.lookup
          (self_or_zero env.platform.self_mac) env.platform.max_hop m))
]
  where
    go :
        (r : Option (Prefix × ℕ × List ℕ))
        → NoneOf test (elim r [
          | none ↦ []
          | some (route, next_hop, encoded) ↦ Act.acknowledges route next_hop encoded ∷ []
        ])
    go none = tt
    go (some (route, next_hop, encoded)) = (h route next_hop encoded, tt)

pub request_acts-NoneOf :
    (test : Act → Bool) (env : Env) (available : ℕ) (m : NetworkPacket) (e : EspErr)
    → ((acts : List GlobalBuffer.Act) → test (Act.replies acts) ≡ false)
    → NoneOf test (request_acts env available m e)
request_acts-NoneOf test env available m e h = elim (Bool-cases (is_ok e)) [
  | inl o ↦ rw o tt
  | inr o ↦ rw o (h _, tt)
]

-- The tables that only a relayed frame changes.
unfoldable pub SameRelay : Bridge → Bridge → Type 0
SameRelay s s' = (s'.seen ≡ s.seen) × (s'.realtime ≡ s.realtime)

-- The end of the handler neither sends on nor touches those tables.
notify_acts-NoneOf :
    (env : Env) (a : Arrival) (m : NetworkPacket) → NoneOf sends_on (notify_acts env a m)
notify_acts-NoneOf env a m = elim (Bool-cases (has_prefix a && a.decoded)) [
  | inr e ↦ rw e (refl, tt)
  | inl e ↦ rw e (elim (Bool-cases (is_msg m && m.message.mime == mime_voice_call)) [
    | inl v ↦ rw v (refl, tt)
    | inr v ↦ rw v (elim (Bool-cases (env.media_active && is_msg m && is_buffer_chunk m)) [
      | inr c ↦ rw c (refl, tt)
      | inl c ↦ rw c (elim (Bool-cases (ltb 240 (length m.message.payload))) [
        | inl l ↦ rw l tt
        | inr l ↦ rw l (refl, tt)
      ])
    ])
  ])
]

notify-stays :
    (env : Env) (b : Bool) (a : Arrival) (m : NetworkPacket) (s : Bridge)
    → NoneOf sends_on (notify env b a m s).2 × SameRelay s (notify env b a m s).1
unfolding notify SameRelay
notify-stays env b a m s =
    elim (Bool-cases (
      is_public_channel (target_of a m)
      && not (channel_enabled env.channel_mask (target_of a m)))) [
        | inl e ↦ rw e (tt, (refl, refl))
        | inr e ↦
            rw e
              (elim (Bool-cases
                (check_and_add (checksum_of (source_of a m) (dedupe_message b a m)) env.now_ms
                  s.delivered).1) [
                    | inl c ↦ rw c (tt, (refl, refl))
                    | inr c ↦ rw c (notify_acts-NoneOf env a m, (refl, refl))
                  ])
      ]

follow-stays :
    (env : Env) (raw : Bool) (w : Way) (s : Bridge)
    → Permits true raw w
    → NoneOf sends_on (follow env w s).2 × SameRelay s (follow env w s).1
unfolding follow SameRelay serve_request
follow-stays env raw refuse s h = (tt, (refl, refl))
follow-stays env raw (pass ingress p body) s h = cc
follow-stays env raw (first a m) s h = cc
follow-stays env raw (speed p body) s h = elim (Bool-cases (ltb packet_size (length body))) [
  | inl e ↦ rw e (tt, (refl, refl))
  | inr e ↦ rw e ((refl, tt), (refl, refl))
]
follow-stays env raw (voice p body) s h =
    elim (Bool-cases (ltb packet_size (length (drop 4 body)))) [
      | inl e ↦ rw e (tt, (refl, refl))
      | inr e ↦ rw e ((refl, tt), (refl, refl))
    ]
follow-stays env raw (consume m) s h = (tt, (refl, refl))
follow-stays env raw (serve m) s h = (
  NoneOf-append sends_on (ack_acts env m) _ (ack_acts-NoneOf sends_on env m (λ p hop bytes. refl))
      (request_acts-NoneOf sends_on env _ m _ (λ acts. refl)),
  (refl, refl),
)
follow-stays env raw (deliver a m) s h =
    let (quiet, same) = notify-stays env false a m s in
    (
      NoneOf-append sends_on (ack_acts env m) _
          (ack_acts-NoneOf sends_on env m (λ p hop bytes. refl)) quiet,
      same,
    )
follow-stays env raw (beacon a m) s h = notify-stays env true a m s

-- A frame that the BATMAN layer delivered to this station is not sent on, whatever its prefix or its
-- packet say of the target, and neither the table of seen messages nor the transmit queue changes.
pub handle_rx_frame-delivered :
    (env : Env) (header payload : List ℕ) (remote : Option ℕ) (s : Bridge)
    → NoneOf sends_on (handle_rx_frame env header payload remote true s).2
      × SameRelay s (handle_rx_frame env header payload remote true s).1
handle_rx_frame-delivered env header payload remote s =
    let (w, same, ok) = handle_rx_frame-GoesOneWay env header payload remote true in
    rw (same env.now_ms s) (follow-stays env _ w s ok)

relay_accepts :
    (env : Env) (ingress : ℕ) (p : Prefix) (body : List ℕ) (s : Bridge)
    → (relay env ingress p body s).0 ≡ true
relay_accepts env ingress p body s =
    go (relay env ingress p body s) (relay-IsRelayed env ingress p body s)
  where
    go : (r : Outcome) → IsRelayed env ingress p body s r → r.0 ≡ true
    go r h =
        unfold IsRelayed in
        elim h [
          | inl e ↦ rw e refl
          | inr (inl e) ↦ rw e refl
          | inr (inr (away, far, e)) ↦ rw e refl
        ]

relay_message_accepts :
    (env : Env) (a : Arrival) (m : NetworkPacket) (s : Bridge) → (relay_message env a m s).0 ≡ true
unfolding relay_message
relay_message_accepts env a m s = elim (Bool-cases (drop_higher_hop (key_of_packet m) 0 s.seen).1) [
  | inl e ↦ rw e refl
  | inr e ↦ rw e refl
]

notify_accepts :
    (env : Env) (b : Bool) (a : Arrival) (m : NetworkPacket) (s : Bridge)
    → (notify env b a m s).0 ≡ true
unfolding notify
notify_accepts env b a m s =
    elim (Bool-cases (
      is_public_channel (target_of a m)
      && not (channel_enabled env.channel_mask (target_of a m)))) [
        | inl e ↦ rw e refl
        | inr e ↦
            rw e
              (elim (Bool-cases
                (check_and_add (checksum_of (source_of a m) (dedupe_message b a m)) env.now_ms
                  s.delivered).1) [ inl c ↦ rw c refl | inr c ↦ rw c refl ])
      ]

follow-rejected :
    (env : Env) (w : Way) (s : Bridge) → (follow env w s).0 ≡ false → follow env w s ≡ rejected s
unfolding follow
follow-rejected env refuse s h = refl
follow-rejected env (pass ingress p body) s h = cc (relay_accepts env ingress p body s)
follow-rejected env (first a m) s h = cc (relay_message_accepts env a m s)
follow-rejected env (speed p body) s h = cc
follow-rejected env (voice p body) s h = cc
follow-rejected env (consume m) s h = cc
follow-rejected env (serve m) s h = cc
follow-rejected env (deliver a m) s h = cc (notify_accepts env false a m s)
follow-rejected env (beacon a m) s h = cc (notify_accepts env true a m s)

-- When the handler answers false, nothing was sent, the phone was told nothing, and no table changed.
pub handle_rx_frame-rejected :
    (env : Env) (header payload : List ℕ) (remote : Option ℕ) (d : Bool) (s : Bridge)
    → (handle_rx_frame env header payload remote d s).0 ≡ false
    → handle_rx_frame env header payload remote d s ≡ rejected s
handle_rx_frame-rejected env header payload remote d s h =
    let (w, same, ok) = handle_rx_frame-GoesOneWay env header payload remote d in
    rw (same env.now_ms s) (follow-rejected env w s (rw (same env.now_ms s) at h))
