-- ===== src/Mesh/Speech/Laws.antt =====
-- What a frame from the phone puts into the transmit queue.
use edge_device_esp.Base.{
  ℕ, ◌+◌, ◌-◌, ◌^◌, ◌≤◌, ◌<◌, ◌≡◌, refl, ◌⊎◌, inl, inr, true, false, ◌||◌, not, ltb, leb, ◌==◌,
  List, [], ◌∷◌, ◌++◌, Option, none, some, length, Bool-cases, arith,
}
use mathlib.Core.Bool.{and-false}
use edge_device_esp.Base.EspErr.{EspErr, is_ok}
use edge_device_esp.Mesh.Routes.{Pin, mac_is_zero, next_hop_or}
use edge_device_esp.Mesh.Realtime.{Item, Realtime, is_speed, enqueue, path_limit}
use edge_device_esp.Mesh.Realtime.Queue.{IsValid, IsQueued, enqueue-voice}
use edge_device_esp.Mesh.Speech.{
  Platform, read_be48, read_be32, route_frame, destination, sequence, carried, voice_magic, item_of,
  handle_voice, is_speed_header, speed_rejected, speed_hop, speed_via, speed_from, handle_speed,
}

-- The item of a voice frame: the sound behind a mark, on the route that the frame names.
unfoldable pub voice_item : Platform → (from to max_hop seq : ℕ) → List ℕ → Item
voice_item p from to max_hop seq crypto = record {
  payload = voice_magic ++ crypto;
  from = from;
  to = to;
  next_hop = next_hop_or p.peers.lookup to to;
  message_id_high = p.id_high;
  message_id_low = p.id_low;
  max_hop = max_hop;
  sequence = seq;
  forward_from_mobile = false;
  mobile_initial_hop = 0;
}

not_speed : (crypto : List ℕ) → is_speed (voice_magic ++ crypto) ≡ false
not_speed crypto = and-false (leb 4 (length (voice_magic ++ crypto)))

read_route :
    (p : Platform) (from to max_hop seq : ℕ) (crypto : List ℕ)
    → to < 2 ^ 48
    → seq < 2 ^ 32
    → item_of p from
        (next_hop_or p.peers.lookup
          (destination (route_frame to max_hop seq crypto))
          (destination (route_frame to max_hop seq crypto)))
        (route_frame to max_hop seq crypto)
        (voice_magic ++ carried (route_frame to max_hop seq crypto))
      ≡ voice_item p from to max_hop seq crypto
unfolding voice_item
read_route p from to max_hop seq crypto h k = rw (read_be48 to h, read_be32 seq k) refl

-- A voice frame of the phone with a destination, a sequence number and more than a nonce behind them
-- is always taken: the sound goes to the end of the queue behind the voice mark, for the
-- destination, the mode and the sequence number that the phone wrote, over the route there; the
-- oldest frame makes room only when the limit of the path is reached.
pub handle_voice-route_frame :
    (size_limit : ℕ) (p : Platform) (from to max_hop seq : ℕ) (crypto : List ℕ) (s : Realtime)
    → IsValid s
    → s.created ≡ true
    → p.self_mac ≡ some from
    → 0 < to
    → to < 2 ^ 48
    → 0 < seq
    → seq < 2 ^ 32
    → 12 < length crypto
    → length crypto + 4 ≤ size_limit
    → ((handle_voice size_limit p (route_frame to max_hop seq crypto) s).0 ≡ EspErr.ok)
      × IsQueued
          (path_limit p.peers.lookup p.now_ms to s).0
          (voice_item p from to max_hop seq crypto)
          s
          (handle_voice size_limit p (route_frame to max_hop seq crypto) s).1
unfolding handle_voice voice_item
handle_voice-route_frame size_limit p from to max_hop seq crypto s v c self h0 h1 k0 k1 l m =
    let frame : List ℕ = route_frame to max_hop seq crypto in
    let dest : destination frame ≡ to = read_be48 to h1 in
    let number : sequence frame ≡ seq = read_be32 seq k1 in
    let guard : (leb (length frame) 23 || mac_is_zero (destination frame) || sequence frame == 0)
        ≡ false =
      rw (dest, number) (ground arith) in
    let small : ltb size_limit (length frame - 11) ≡ false = ground arith in
    let item : Item = voice_item p from to max_hop seq crypto in
    let (ok, limit, queued) =
      enqueue-voice size_limit p.peers.lookup p.now_ms item s v c (omega arith) (omega arith)
        (not_speed crypto) in
    rw (guard, self, small, read_route p from to max_hop seq crypto h1 k1) (ok, queued)

header-is_speed : (frame : List ℕ) → is_speed_header frame ≡ true → is_speed frame ≡ true
header-is_speed frame h = ground arith

-- What becomes of a speed frame: it joins the queue as it is, behind all that wait, or nothing in
-- the queue changes.
pub IsSpeedResult : Platform → List ℕ → Realtime → EspErr × Realtime → Type 0
IsSpeedResult p payload s (e, s') =
    ((e ≡ EspErr.ok)
      × ((from : ℕ) × (hop : ℕ) × (s'.queue
            ≡ s.queue ++ (item_of p from hop payload (carried payload) ∷ []))))
    ⊎ ((is_ok e ≡ false) × (s'.queue ≡ s.queue))

enqueue_speed_frame :
    (size_limit : ℕ) (p : Platform) (from hop : ℕ) (payload : List ℕ) (s : Realtime)
    → is_speed (carried payload) ≡ true
    → IsSpeedResult p payload s (
        enqueue size_limit p.peers.lookup p.now_ms (item_of p from hop payload (carried payload)) s)
unfolding enqueue IsSpeedResult
enqueue_speed_frame size_limit p from hop payload s h =
    elim (Bool-cases (
      not s.created
      || length (carried payload) == 0
      || ltb size_limit (length (carried payload)))) [
        | inl e ↦ rw e (inr (refl, refl))
        | inr e ↦
            rw (e, h)
              (elim (Bool-cases (ltb (length s.queue) 32)) [
                | inl room ↦ rw room (inl (refl, (from, hop, refl)))
                | inr full ↦ rw full (inr (refl, refl))
              ])
      ]

speed_via_lem :
    (size_limit : ℕ) (p : Platform) (from : ℕ) (payload : List ℕ) (hop : Option ℕ) (s : Realtime)
    → is_speed_header (carried payload) ≡ true
    → IsSpeedResult p payload s (speed_via size_limit p from payload hop s)
unfolding IsSpeedResult
speed_via_lem size_limit p from payload none s h = inr (refl, refl)
speed_via_lem size_limit p from payload (some hop) s h =
    enqueue_speed_frame size_limit p from hop payload s (header-is_speed (carried payload) h)

speed_from_lem :
    (size_limit : ℕ) (p : Platform) (payload : List ℕ) (self : Option ℕ) (s : Realtime)
    (pins : List Pin)
    → is_speed_header (carried payload) ≡ true
    → IsSpeedResult p payload s (
      (speed_from size_limit p payload self s pins).0,
      (speed_from size_limit p payload self s pins).1.0,
    )
unfolding IsSpeedResult
speed_from_lem size_limit p payload none s pins h = inr (refl, refl)
speed_from_lem size_limit p payload (some from) s pins h =
    speed_via_lem size_limit p from payload (speed_hop p from payload pins).0 s h

-- A speed frame never takes the place of a waiting frame: either it joins the queue behind all that
-- wait, and then its header was right and it is sent on as the phone gave it, or it is refused with
-- an error and the queue is as before.
pub handle_speed-queue :
    (size_limit : ℕ) (p : Platform) (payload : List ℕ) (s : Realtime) (pins : List Pin)
    → ((speed_rejected payload ≡ false)
        ⊎ ((handle_speed size_limit p payload s pins).0 ≡ EspErr.invalid_arg))
      × IsSpeedResult p payload s (
        (handle_speed size_limit p payload s pins).0,
        (handle_speed size_limit p payload s pins).1.0,
      )
unfolding handle_speed IsSpeedResult
handle_speed-queue size_limit p payload s pins = elim (Bool-cases (speed_rejected payload)) [
  | inl e ↦ rw e (inr refl, inr (refl, refl))
  | inr e ↦ rw e (inl refl, speed_from_lem size_limit p payload p.self_mac s pins (ground arith))
]
