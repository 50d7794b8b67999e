-- ===== src/Mesh/Speech.antt =====
-- The frames that the phone hands over for the radio, main/src/mesh/halow_sync_bridge.c:
-- `halow_sync_bridge_handle_voice_to_radio` and `halow_sync_bridge_handle_speed_to_radio`. A frame
-- starts with a destination of 6 bytes, a mode and a sequence number of 4 bytes. What the platform
-- answers is an argument. The trace of a speed test is not modelled: it is only logged.
pub mod Laws
use edge_device_esp.Base.{
  ℕ, ◌+◌, ◌-◌, ◌*◌, ◌%◌, ◌/◌, ◌^◌, ◌≤◌, ◌<◌, ◌≡◌, refl, sym, ap, ◌∙◌, Bool, true, false, ◌&&◌, ◌||◌,
  not, ltb, leb, ◌==◌, same_bytes, if◌then◌else◌, List, [], ◌∷◌, ◌++◌, Option, none, some, length,
  take, drop, get_or, arith,
}
use edge_device_esp.Base.EspErr.{EspErr, is_ok}
use edge_device_esp.Mesh.Routes.{Route, Pin, Peers, mac_is_zero, next_hop_or, two_hop_waypoint}
use edge_device_esp.Mesh.Realtime.{Item, Realtime, speed_magic, enqueue}

-- What the platform answers during one call.
pub record Platform : Type 0 where
  pub self_mac : Option ℕ
  pub id_high : ℕ
  pub id_low : ℕ
  pub peers : Peers
  pub now_ms : ℕ

-- `read_u32_be`, `read_u64_be`, and the loop over the bytes of an address: the most significant byte
-- comes first.
unfoldable pub read_be : (acc : ℕ) → List ℕ → ℕ
read_be acc [] = acc
read_be acc (b ∷ bs) = read_be (acc * 256 + b) bs

abbrev pub destination : List ℕ → ℕ
destination payload = read_be 0 (take 6 payload)

abbrev pub mode : List ℕ → ℕ
mode payload = get_or payload 6 0

abbrev pub sequence : List ℕ → ℕ
sequence payload = read_be 0 (take 4 (drop 7 payload))

-- What is behind the route of 11 bytes.
abbrev pub carried : List ℕ → List ℕ
carried payload = drop 11 payload

-- EDGEZ_VOICE_RAW_MAGIC, 'V' 'C' 'R' 2.
abbrev pub voice_magic : List ℕ
voice_magic = 0x56 ∷ 0x43 ∷ 0x52 ∷ 2 ∷ []

abbrev pub item_of : Platform → (from next_hop : ℕ) → (payload sent : List ℕ) → Item
item_of p from next_hop payload sent = record {
  payload = sent;
  from = from;
  to = destination payload;
  next_hop = next_hop;
  message_id_high = p.id_high;
  message_id_low = p.id_low;
  max_hop = mode payload;
  sequence = sequence payload;
  forward_from_mobile = false;
  mobile_initial_hop = 0;
}

abbrev pub voice_from :
    (size_limit : ℕ) → Platform → List ℕ → Option ℕ → Realtime → EspErr × Realtime
voice_from size_limit p payload none s = (EspErr.invalid_state, s)
voice_from size_limit p payload (some from) s =
    if ltb size_limit (length payload - 11)
    then (EspErr.invalid_size, s)
    else enqueue size_limit p.peers.lookup p.now_ms
        (item_of p from (next_hop_or p.peers.lookup (destination payload) (destination payload))
          payload (voice_magic ++ carried payload))
        s

unfoldable pub handle_voice : (size_limit : ℕ) → Platform → List ℕ → Realtime → EspErr × Realtime
handle_voice size_limit p payload s =
    if leb (length payload) 23 || mac_is_zero (destination payload) || sequence payload == 0
    then (EspErr.invalid_arg, s)
    else voice_from size_limit p payload p.self_mac s

-- The header of a speed frame is version 3 behind the magic, and names a transfer.
abbrev pub transfer_id : List ℕ → ℕ
transfer_id frame = read_be 0 (take 8 (drop 6 frame))

abbrev pub is_speed_header : List ℕ → Bool
is_speed_header frame =
    leb 26 (length frame)
    && same_bytes (take 4 frame) speed_magic
    && get_or frame 4 0 == 3
    && not (transfer_id frame == 0)

abbrev pub speed_rejected : List ℕ → Bool
speed_rejected payload =
    ltb (length payload) 37
    || mac_is_zero (destination payload)
    || sequence payload == 0
    || ltb 3 (mode payload)
    || not (is_speed_header (carried payload))

-- With mode 2 the frame goes by a waypoint, and only if there is one.
abbrev pub speed_hop : Platform → (from : ℕ) → List ℕ → List Pin → Option ℕ × List Pin
speed_hop p from payload pins =
    if mode payload == 2
    then two_hop_waypoint p.peers p.now_ms (destination payload) from
        (transfer_id (carried payload)) pins
    else (some (destination payload), pins)

abbrev pub speed_via :
    (size_limit : ℕ) → Platform → (from : ℕ) → List ℕ → Option ℕ → Realtime → EspErr × Realtime
speed_via size_limit p from payload none s = (EspErr.not_found, s)
speed_via size_limit p from payload (some hop) s =
    enqueue size_limit p.peers.lookup p.now_ms (item_of p from hop payload (carried payload)) s

abbrev pub speed_from :
    (size_limit : ℕ)
    → Platform
    → List ℕ
    → Option ℕ
    → Realtime
    → List Pin
    → EspErr × (Realtime × List Pin)
speed_from size_limit p payload none s pins = (EspErr.invalid_state, (s, pins))
speed_from size_limit p payload (some from) s pins =
    let hop = speed_hop p from payload pins in
    let r = speed_via size_limit p from payload hop.0 s in (r.0, (r.1, hop.1))

unfoldable pub handle_speed :
    (size_limit : ℕ) → Platform → List ℕ → Realtime → List Pin → EspErr × (Realtime × List Pin)
handle_speed size_limit p payload s pins =
    if speed_rejected payload
    then (EspErr.invalid_arg, (s, pins))
    else speed_from size_limit p payload p.self_mac s pins

-- The bytes of an address and of a sequence number in network order.
abbrev pub be48_bytes : ℕ → List ℕ
be48_bytes v =
    v / 2 ^ 40 % 256
    ∷ v / 2 ^ 32 % 256
    ∷ v / 2 ^ 24 % 256
    ∷ v / 2 ^ 16 % 256
    ∷ v / 2 ^ 8 % 256
    ∷ v % 256
    ∷ []

abbrev pub be32_bytes : ℕ → List ℕ
be32_bytes v = v / 2 ^ 24 % 256 ∷ v / 2 ^ 16 % 256 ∷ v / 2 ^ 8 % 256 ∷ v % 256 ∷ []

pub read_be48 : (v : ℕ) → v < 2 ^ 48 → read_be 0 (be48_bytes v) ≡ v
unfolding read_be
read_be48 v h = omega arith

pub read_be32 : (v : ℕ) → v < 2 ^ 32 → read_be 0 (be32_bytes v) ≡ v
unfolding read_be
read_be32 v h = omega arith

-- What the phone sends: the route and the encrypted sound.
abbrev pub route_frame : (to max_hop sequence : ℕ) → List ℕ → List ℕ
route_frame to max_hop seq crypto = be48_bytes to ++ (max_hop ∷ (be32_bytes seq ++ crypto))
