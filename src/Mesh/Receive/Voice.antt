-- ===== src/Mesh/Receive/Voice.antt =====
-- A voice frame from one station to another: what one phone hands over is what the other one gets.
use edge_device_esp.Base.{
  ℕ, ◌^◌, ◌<◌, ◌≤◌, ◌≡◌, refl, ap, ◌∙◌, Bool, true, false, ◌||◌, not, ltb, leb, ◌==◌, List, [], ◌∷◌,
  ◌++◌, Option, none, some, length, take, drop, arith,
}
use mathlib.Core.Bool.{and-false}
use edge_device_esp.Mesh.Routes.{mac_bits, mac_is_zero, mac_is_broadcast}
use edge_device_esp.Mesh.Speech.{Platform, be32_bytes, be48_bytes, voice_magic}
use edge_device_esp.Mesh.Speech.Laws.{voice_item}
use edge_device_esp.Mesh.Wire.{
  Prefix, Sender, Sending, packet_size, prefix_len, is_public_channel, prefix_bytes, split_prefix,
  ethernet, forced_hop, send_mesh_payload, item_prefix, send_item,
}
use edge_device_esp.Mesh.Wire.RoundTrip.{IsPrefix, split_prefix-prefix_bytes}
use edge_device_esp.Mesh.Receive.{Bridge, Env, Act, Outcome, done, target_is_local}
use edge_device_esp.Mesh.Receive.Handler.{
  is_report_frame, is_refused, ingress_of, receive_routed, handle_rx_frame,
}

-- The frame of a unicast reaches the receive handler of its destination, split behind its Ethernet
-- header and marked as delivered by BATMAN.
abbrev pub over_the_air : Sending → Env → Option ℕ → Bridge → Option Outcome
over_the_air (Sending.refused e) env remote s = none
over_the_air (Sending.broadcast frame) env remote s = none
over_the_air (Sending.unicast dest frame forced) env remote s =
    some (handle_rx_frame env (take 14 frame) (drop 14 frame) remote true s)

-- The address of one station, not of several and not of none.
unfoldable pub IsStation : ℕ → Type 0
IsStation mac =
    (mac < 2 ^ 48) × ((is_public_channel mac || mac_is_zero mac || mac_is_broadcast mac) ≡ false)

-- What the sender puts on the air.
abbrev pub unicast_frame : Prefix → (mac : ℕ) → List ℕ → List ℕ
unicast_frame p mac payload = ethernet (mac_bits p.to) mac 0x88b5 (prefix_bytes p ++ payload)

send_mesh_payload-unicast :
    (tx : Sender) (p : Prefix) (next_hop mac : ℕ) (payload : List ℕ)
    → tx ≡ record { licensed = true; started = true; self_mac = some mac }
    → IsStation p.to
    → 0 < length payload
    → length payload ≤ 450
    → send_mesh_payload tx p next_hop false payload
      ≡ Sending.unicast
          (mac_bits p.to)
          (unicast_frame p mac payload)
          (forced_hop p next_hop payload)
unfolding send_mesh_payload IsStation
send_mesh_payload-unicast tx p next_hop mac payload e (h, station) l m =
    let some' : (length payload == 0) ≡ false = ground arith in
    let small : ltb packet_size (length payload) ≡ false = ground arith in
    let fits : ltb 488 (length (prefix_bytes p ++ payload)) ≡ false = ground arith in
    rw (e, some', small, station, fits) refl

handle_rx_frame-routed :
    (env : Env) (header payload : List ℕ) (remote : Option ℕ) (d : Bool) (s : Bridge) (p : Prefix)
    → is_refused env header payload ≡ false
    → split_prefix payload ≡ some p
    → handle_rx_frame env header payload remote d s
      ≡ receive_routed env
          (ingress_of header remote)
          p
          (drop prefix_len payload)
          remote
          (is_report_frame header)
          d
          s
unfolding handle_rx_frame
handle_rx_frame-routed env header payload remote d s p e f = rw (e, f) refl

unrefused :
    (env : Env) (p : Prefix) (mac : ℕ) (payload : List ℕ)
    → env.licensed ≡ true
    → length payload ≤ 450
    → is_refused env (take 14 (unicast_frame p mac payload)) (drop 14 (unicast_frame p mac payload))
      ≡ false
unrefused env p mac payload lic m =
    let short : ltb 740 (length (prefix_bytes p ++ payload)) ≡ false = ground arith in
    let long : (length (prefix_bytes p ++ payload) == 0) ≡ false = ground arith in
    rw (lic, long, short) refl

-- What is sent to a station is handled there as a frame with that prefix and that payload.
pub over_the_air-send_mesh_payload :
    (tx : Sender) (p : Prefix) (next_hop mac : ℕ) (payload : List ℕ) (env : Env) (remote : Option ℕ)
    (s : Bridge)
    → tx ≡ record { licensed = true; started = true; self_mac = some mac }
    → IsPrefix p
    → IsStation p.to
    → 0 < length payload
    → length payload ≤ 450
    → env.licensed ≡ true
    → over_the_air (send_mesh_payload tx p next_hop false payload) env remote s
      ≡ some (
          receive_routed env
            (ingress_of (take 14 (unicast_frame p mac payload)) remote)
            p
            payload
            remote
            false
            true
            s)
over_the_air-send_mesh_payload tx p next_hop mac payload env remote s e v st l m lic =
    rw (send_mesh_payload-unicast tx p next_hop mac payload e st l m) (
      ap some (
        handle_rx_frame-routed env (take 14 (unicast_frame p mac payload))
          (drop 14 (unicast_frame p mac payload)) remote true s p
          (unrefused env p mac payload lic m) (split_prefix-prefix_bytes p payload v l)))

receive_routed-voice :
    (env : Env) (ingress : ℕ) (p : Prefix) (crypto : List ℕ) (remote : Option ℕ) (s : Bridge)
    → 12 < length crypto
    → length crypto ≤ 446
    → receive_routed env ingress p (voice_magic ++ crypto) remote false true s
      ≡ done s (Act.voice_frame (be48_bytes p.from ++ (be32_bytes p.sequence ++ crypto)) ∷ [])
unfolding receive_routed
receive_routed-voice env ingress p crypto remote s l m =
    let voice : ltb 16 (length (voice_magic ++ crypto)) ≡ true = ground arith in
    let small : ltb packet_size (length crypto) ≡ false = ground arith in
    rw
      (
        and-false (not (target_is_local env (mac_bits p.to))),
        and-false (leb 26 (length (voice_magic ++ crypto))),
        voice,
        small,
      )
      refl

-- The sound of a voice frame, of at most 446 bytes, that was queued for another station arrives at
-- that station, when the radio carries the frame there: its phone is given the sound unchanged,
-- behind the address of the sending station and the sequence number of the frame, and nothing else
-- happens.
pub over_the_air-voice_item :
    (tx : Sender) (mac : ℕ) (p : Platform) (from to max_hop seq : ℕ) (crypto : List ℕ) (env : Env)
    (remote : Option ℕ) (s : Bridge)
    → tx ≡ record { licensed = true; started = true; self_mac = some mac }
    → IsPrefix (item_prefix (voice_item p from to max_hop seq crypto))
    → IsStation to
    → 12 < length crypto
    → length crypto ≤ 446
    → env.licensed ≡ true
    → over_the_air (send_item tx (voice_item p from to max_hop seq crypto)) env remote s
      ≡ some (done s (Act.voice_frame (be48_bytes from ++ (be32_bytes seq ++ crypto)) ∷ []))
unfolding voice_item
over_the_air-voice_item tx mac p from to max_hop seq crypto env remote s e v st l m lic =
    let item = voice_item p from to max_hop seq crypto in
    over_the_air-send_mesh_payload tx (item_prefix item) item.next_hop mac (voice_magic ++ crypto)
      env remote s e v st (omega arith) (omega arith) lic
    ∙ ap some (
        receive_routed-voice env
          (ingress_of (take 14 (unicast_frame (item_prefix item) mac (voice_magic ++ crypto)))
            remote)
          (item_prefix item) crypto remote s l m)
