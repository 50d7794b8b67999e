-- ===== src/Openmanet/Comms.antt =====
-- main/src/platform/esp32/openmanet_comms.c: a speech frame of the phone becomes an RTP packet in UDP,
-- IPv4 and Ethernet for the BATMAN layer, and such a packet becomes a frame for the phone. Addresses
-- are numbers; the station's own address, random numbers and the set of public channels are arguments.
pub mod RoundTrip
pub mod Checksum
use edge_device_esp.Base.{
  ℕ, ◌+◌, ◌-◌, ◌*◌, ◌/◌, ◌%◌, ◌^◌, Bool, true, false, ◌&&◌, ◌||◌, not, ltb, leb, ◌==◌, same_bytes,
  if◌then◌else◌, List, [], ◌∷◌, ◌++◌, Option, none, some, length, take, drop, get_or, zero, suc,
}
use edge_device_esp.Base.EspErr.{EspErr}
use edge_device_esp.Mesh.Speech.{read_be, be32_bytes, be48_bytes}
use edge_device_esp.Mesh.Routes.{mac_is_zero, mac_is_broadcast}
use edge_device_esp.Mesh.Wire.{is_public_channel, ethernet}
use edge_device_esp.Mesh.Receive.{channel_enabled}

-- 'O' 'M' 'C' 1 and 'O' 'M' 'C' 2.
abbrev pub group_magic : List ℕ
group_magic = b'O' ∷ b'M' ∷ b'C' ∷ 1 ∷ []

abbrev pub peer_magic : List ℕ
peer_magic = b'O' ∷ b'M' ∷ b'C' ∷ 2 ∷ []

abbrev pub group_ip : List ℕ
group_ip = 239 ∷ 192 ∷ 41 ∷ 1 ∷ []

abbrev pub group_mac : ℕ
group_mac = 0x01005e402901

-- PEER_UDP_PORT and MAX_OPUS_PAYLOAD.
abbrev pub peer_port : ℕ
peer_port = 38800

abbrev pub max_opus : ℕ
max_opus = 444

abbrev pub be16_bytes : ℕ → List ℕ
be16_bytes v = v / 256 % 256 ∷ v % 256 ∷ []

abbrev pub read_be16 : List ℕ → ℕ
read_be16 p = get_or p 0 0 * 256 + get_or p 1 0

-- The words of a header, added in a `uint32_t`; an odd byte at the end is left out.
unfoldable pub sum_words : (sum : ℕ) → List ℕ → ℕ
sum_words sum [] = sum
sum_words sum (hi ∷ []) = sum
sum_words sum (hi ∷ lo ∷ bytes) = sum_words ((sum + (hi * 256 + lo)) % 2 ^ 32) bytes

-- The loop that adds the carries, on fuel: two rounds are enough for every `uint32_t`.
unfoldable pub fold_carry : (fuel sum : ℕ) → ℕ
fold_carry zero sum = sum
fold_carry (suc fuel) sum =
    let rest = fold_carry fuel (sum % 2 ^ 16 + sum / 2 ^ 16) in
    if sum / 2 ^ 16 == 0 then sum else rest

unfoldable pub ipv4_checksum : List ℕ → ℕ
ipv4_checksum bytes = 65535 - fold_carry 2 (sum_words 0 bytes) % 2 ^ 16

-- s_sequence, s_timestamp, s_ssrc.
pub record Rtp : Type 0 where
  pub sequence : ℕ
  pub timestamp : ℕ
  pub ssrc : ℕ

-- What the platform answers: the station's address, what `esp_random` gives, the mask of the channels.
pub record Env : Type 0 where
  pub self_mac : Option ℕ
  pub random_ssrc : ℕ
  pub random_sequence : ℕ
  pub random_timestamp : ℕ
  pub channel_mask : ℕ

-- The source is chosen with the first frame.
abbrev pub seeded : Env → (mac : ℕ) → Rtp → Rtp
seeded env mac s =
    if s.ssrc == 0
    then record {
      sequence = env.random_sequence % 2 ^ 16;
      timestamp = env.random_timestamp % 2 ^ 32;
      ssrc = if mac % 2 ^ 32 == 0 then env.random_ssrc % 2 ^ 32 else mac % 2 ^ 32;
    }
    else s

abbrev pub link_local : (mac : ℕ) → List ℕ
link_local mac = 169 ∷ 254 ∷ mac / 256 % 256 ∷ mac % 256 ∷ []

-- The header of 20 bytes, with its checksum.
abbrev pub ip_header : (total id ttl checksum : ℕ) → (source dest : List ℕ) → List ℕ
ip_header total id ttl checksum source dest =
    0x45
    ∷ 0
    ∷ (be16_bytes total
        ++ (be16_bytes id ++ (0 ∷ 0 ∷ ttl ∷ 17 ∷ (be16_bytes checksum ++ (source ++ dest)))))

abbrev pub udp_header : (port size : ℕ) → List ℕ
udp_header port size = be16_bytes port ++ (be16_bytes port ++ (be16_bytes size ++ (0 ∷ 0 ∷ [])))

abbrev pub rtp_header : Rtp → List ℕ
rtp_header s = 0x80 ∷ 111 ∷ (be16_bytes s.sequence ++ (be32_bytes s.timestamp ++ be32_bytes s.ssrc))

abbrev pub checksum_of : (total id ttl : ℕ) → (source dest : List ℕ) → ℕ
checksum_of total id ttl source dest = ipv4_checksum (ip_header total id ttl 0 source dest)

-- The packet behind the Ethernet header.
abbrev pub packet : (ttl port : ℕ) → (source dest : List ℕ) → Rtp → (opus : List ℕ) → List ℕ
packet ttl port source dest s opus =
    ip_header (40 + length opus) s.sequence ttl
      (checksum_of (40 + length opus) s.sequence ttl source dest) source dest
    ++ (udp_header port (20 + length opus) ++ (rtp_header s ++ opus))

-- What is handed to `halow_interface_app_send_batman_payload` or to the broadcast one.
pub data Sending : Type 0 where
  refused : EspErr → Sending
  unicast : (dest : ℕ) → (frame : List ℕ) → Sending
  broadcast : (frame : List ℕ) → Sending

abbrev pub numbered : Rtp → Rtp
numbered s = record s { sequence = (s.sequence + 1) % 2 ^ 16 }

abbrev pub later : Rtp → Rtp
later s = record s { timestamp = (s.timestamp + 960) % 2 ^ 32 }

unfoldable pub send_peer : Env → (dest : ℕ) → (opus : List ℕ) → Rtp → Sending × Rtp
send_peer env dest opus s =
    if mac_is_zero dest || mac_is_broadcast dest
    then (refused EspErr.invalid_arg, s)
    else elim env.self_mac [
      | none ↦ (refused EspErr.invalid_state, s)
      | some mac ↦
          let next = numbered (seeded env mac s) in
          (
            unicast dest (
                ethernet dest mac 0x0800
                  (packet 64 peer_port (link_local mac) (link_local dest) next opus)),
            later next,
          )
    ]

unfoldable pub send_group : Env → (port : ℕ) → (opus : List ℕ) → Rtp → Sending × Rtp
send_group env port opus s =
    if not (is_public_channel port)
    then (refused EspErr.invalid_arg, s)
    else if not (channel_enabled env.channel_mask port)
    then (refused EspErr.invalid_state, s)
    else elim env.self_mac [
      | none ↦ (refused EspErr.invalid_state, s)
      | some mac ↦
          let next = numbered (seeded env mac s) in
          (
            broadcast
                (ethernet group_mac mac 0x0800 (packet 1 port (link_local mac) group_ip next opus)),
            later next,
          )
    ]

-- A frame of the phone: its magic, an address of 6 bytes or a port of 2, and the sound.
abbrev pub carries : (header_len : ℕ) → List ℕ → Bool
carries header_len payload =
    ltb header_len (length payload) && leb (length payload) (header_len + max_opus)

-- `openmanet_comms_send_phone_frame`.
unfoldable pub send_phone_frame : Env → List ℕ → Rtp → Sending × Rtp
send_phone_frame env payload s =
    if leb (length payload) 4
    then (refused EspErr.invalid_arg, s)
    else if same_bytes (take 4 payload) peer_magic
    then (if carries 10 payload
        then send_peer env (read_be 0 (take 6 (drop 4 payload))) (drop 10 payload) s
        else (refused EspErr.invalid_arg, s))
    else if same_bytes (take 4 payload) group_magic
    then (if carries 6 payload
        then send_group env (read_be16 (drop 4 payload)) (drop 6 payload) s
        else (refused EspErr.invalid_arg, s))
    else (refused EspErr.invalid_arg, s)

-- What a received frame comes to: the result, and the frame for the phone.
abbrev pub Handled : Type 0
Handled = Bool × Option (List ℕ)

abbrev pub ignored : Handled
ignored = (false, none)

abbrev pub dropped : Handled
dropped = (true, none)

-- The header of a frame for the phone: its magic, the sender's address or the port, and the source and
-- the number of the RTP packet.
abbrev pub notify_header :
    (is_peer : Bool) → (frame : List ℕ) → (port : ℕ) → (rtp : List ℕ) → List ℕ
notify_header is_peer frame port rtp =
    let tail = take 4 (drop 8 rtp) ++ take 2 (drop 2 rtp) in
    if is_peer
    then peer_magic ++ (take 6 (drop 6 frame) ++ tail)
    else group_magic ++ (be16_bytes port ++ tail)

abbrev pub handle_opus :
    (is_peer : Bool)
    → (frame : List ℕ) → (port udp_len : ℕ) → (rtp : List ℕ) → (rtp_len : ℕ) → Handled
handle_opus is_peer frame port udp_len rtp rtp_len =
    let opus_len = udp_len - 8 - rtp_len in
    if leb udp_len (8 + rtp_len) || ltb max_opus opus_len
    then dropped
    else (true, some (notify_header is_peer frame port rtp ++ take opus_len (drop rtp_len rtp)))

-- The header of 12 bytes, the contributing sources, and the extension.
abbrev pub sources_len : (rtp : List ℕ) → ℕ
sources_len rtp = 12 + get_or rtp 0 0 % 16 * 4

abbrev pub has_extension : (rtp : List ℕ) → Bool
has_extension rtp = get_or rtp 0 0 / 16 % 2 == 1

abbrev pub extended_len : (rtp : List ℕ) → ℕ
extended_len rtp = sources_len rtp + 4 + read_be16 (drop (sources_len rtp + 2) rtp) * 4

unfoldable pub handle_rtp :
    (is_peer : Bool) → (frame : List ℕ) → (port udp_len : ℕ) → (rtp : List ℕ) → Handled
handle_rtp is_peer frame port udp_len rtp =
    if not (get_or rtp 0 0 / 64 == 2) || not (get_or rtp 1 0 % 128 == 111)
    then dropped
    else if not (has_extension rtp)
    then handle_opus is_peer frame port udp_len rtp (sources_len rtp)
    else if ltb udp_len (8 + sources_len rtp + 4)
    then dropped
    else handle_opus is_peer frame port udp_len rtp (extended_len rtp)

abbrev pub is_group : (port : ℕ) → (ip : List ℕ) → Bool
is_group port ip = is_public_channel port && same_bytes (take 4 (drop 16 ip)) group_ip

abbrev pub is_peer : (port : ℕ) → (frame : List ℕ) → Bool
is_peer port frame = port == peer_port && not (same_bytes (take 6 frame) (be48_bytes group_mac))

unfoldable pub handle_udp :
    (channel_mask : ℕ) → (frame ip : List ℕ) → (ihl : ℕ) → (udp : List ℕ) → Handled
handle_udp channel_mask frame ip ihl udp =
    let port = read_be16 (drop 2 udp) in
    let udp_len = read_be16 (drop 4 udp) in
    if (not (is_group port ip) && not (is_peer port frame))
      || ltb udp_len 21
      || ltb (length frame) (14 + ihl + udp_len)
    then ignored
    else if is_group port ip && not (channel_enabled channel_mask port)
    then dropped
    else handle_rtp (is_peer port frame) frame port udp_len (drop 8 udp)

-- `openmanet_comms_handle_frame`.
unfoldable pub handle_frame : (channel_mask : ℕ) → (frame : List ℕ) → Handled
handle_frame channel_mask frame =
    let ip = drop 14 frame in
    let ihl = get_or ip 0 0 % 16 * 4 in
    if ltb (length frame) 55 || not (read_be16 (drop 12 frame) == 0x0800)
    then ignored
    else if not (get_or ip 0 0 / 16 == 4)
        || ltb ihl 20
        || ltb (length frame) (14 + ihl + 8)
        || not (get_or ip 9 0 == 17)
    then ignored
    else handle_udp channel_mask frame ip ihl (drop ihl ip)
