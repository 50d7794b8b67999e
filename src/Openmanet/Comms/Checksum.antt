-- ===== src/Openmanet/Comms/Checksum.antt =====
-- The checksum of the IPv4 header that is sent.
use edge_device_esp.Base.{
  ℕ, ◌+◌, ◌-◌, ◌*◌, ◌/◌, ◌%◌, ◌^◌, ◌<◌, ◌≤◌, ◌≡◌, ap, ◌∙◌, refl, true, ◌||◌, not, leb, same_bytes,
  List, [], ◌∷◌, Option, none, some, length, length-drop, take, drop, Bool-cases, ltb, ◌⊎◌, inl,
  inr, arith,
}
use edge_device_esp.Mesh.Routes.{mac_is_zero, mac_is_broadcast}
use edge_device_esp.Mesh.Wire.{is_public_channel}
use edge_device_esp.Mesh.Receive.{channel_enabled}
use edge_device_esp.Openmanet.Comms.{
  Env, Rtp, Sending, send_peer, send_group, send_phone_frame, numbered, seeded, packet, link_local,
  peer_port, peer_magic, group_magic, carries, sum_words, fold_carry, ipv4_checksum, ip_header,
  checksum_of,
}

-- Two rounds leave no carry of a 32-bit sum.
pub fold_carry_ends : (sum : ℕ) → sum < 2 ^ 32 → fold_carry 2 sum < 2 ^ 16
unfolding fold_carry
fold_carry_ends sum h = ground arith

fold_lem :
    (sum : ℕ)
    → sum < 2 ^ 20
    → fold_carry 2 sum
      ≡ (sum % 2 ^ 16 + sum / 2 ^ 16) % 2 ^ 16 + (sum % 2 ^ 16 + sum / 2 ^ 16) / 2 ^ 16
unfolding fold_carry
fold_lem sum h = ground arith

-- A sum and its complement are a multiple of 65535.
multiple :
    (sum q r f : ℕ)
    → sum ≡ q * 65536 + r
    → r < 65536
    → q < 8
    → f ≡ (r + q) % 2 ^ 16 + (r + q) / 2 ^ 16
    → (sum + (65535 - f % 2 ^ 16) ≡ 65535 * q + 65535)
      ⊎ (sum + (65535 - f % 2 ^ 16) ≡ 65535 * (q + 1) + 65535)
multiple sum q r f e h k g = elim (Bool-cases (ltb (r + q) 65536)) [
  | inl l ↦
      let small : r + q < 65536 = ground arith in
      let f' : f ≡ r + q = omega (arith, g, small) in inl (omega (arith, e, f', small))
  | inr l ↦
      let big : 65536 ≤ r + q = ground arith in
      let f' : f ≡ r + q - 65535 = omega (arith, g, big) in inr (omega (arith, e, f', big))
]

-- The words of the header, with its checksum.
header_sum :
    (total id ttl checksum a b c d e f g i : ℕ)
    → total < 2 ^ 16
    → id < 2 ^ 16
    → ttl < 256
    → checksum < 2 ^ 16
    → (a < 256) × (b < 256) × (c < 256) × (d < 256)
    → (e < 256) × (f < 256) × (g < 256) × (i < 256)
    → sum_words 0 (ip_header total id ttl checksum (a ∷ b ∷ c ∷ d ∷ []) (e ∷ f ∷ g ∷ i ∷ []))
      ≡ 17681
        + total
        + id
        + ttl * 256
        + (a * 256 + b)
        + (c * 256 + d)
        + (e * 256 + f)
        + (g * 256 + i)
        + checksum
unfolding sum_words
header_sum total id ttl checksum a b c d e f g i h0 h1 h2 h3 (h4, h5, h6, h7) (h8, h9, h10, h11) =
    let w1 : total / 256 % 256 * 256 + total % 256 ≡ total = omega arith in
    let w2 : id / 256 % 256 * 256 + id % 256 ≡ id = omega arith in
    let w5 : checksum / 256 % 256 * 256 + checksum % 256 ≡ checksum = omega arith in
    rw (w1, w2, w5) (omega arith)

-- The sum without the checksum.
abbrev bare : (total id ttl a b c d e f g i : ℕ) → ℕ
bare total id ttl a b c d e f g i =
    sum_words 0 (ip_header total id ttl 0 (a ∷ b ∷ c ∷ d ∷ []) (e ∷ f ∷ g ∷ i ∷ []))

-- The sum of the 16-bit words of a header, as plain numbers.
pub words : List ℕ → ℕ
words [] = 0
words (hi ∷ []) = 0
words (hi ∷ lo ∷ bytes) = hi * 256 + lo + words bytes

header_words :
    (total id ttl checksum a b c d e f g i : ℕ)
    → total < 2 ^ 16
    → id < 2 ^ 16
    → checksum < 2 ^ 16
    → words (ip_header total id ttl checksum (a ∷ b ∷ c ∷ d ∷ []) (e ∷ f ∷ g ∷ i ∷ []))
      ≡ 17681
        + total
        + id
        + ttl * 256
        + (a * 256 + b)
        + (c * 256 + d)
        + (e * 256 + f)
        + (g * 256 + i)
        + checksum
unfolding words
header_words total id ttl checksum a b c d e f g i h0 h1 h3 =
    let w1 : total / 256 % 256 * 256 + total % 256 ≡ total = omega arith in
    let w2 : id / 256 % 256 * 256 + id % 256 ≡ id = omega arith in
    let w5 : checksum / 256 % 256 * 256 + checksum % 256 ≡ checksum = omega arith in
    rw (w1, w2, w5) (omega arith)

complement : (sum : ℕ) → sum < 2 ^ 19 → (sum + (65535 - fold_carry 2 sum % 2 ^ 16)) % 65535 ≡ 0
complement sum k =
    elim (multiple sum (sum / 65536) (sum % 65536) (fold_carry 2 sum) (omega arith) (omega arith)
      (omega arith) (fold_lem sum (omega arith))) [
        | inl e ↦ omega (arith, e)
        | inr e ↦ omega (arith, e)
      ]

ip_header_verified :
    (total id ttl a b c d e f g i : ℕ)
    → total < 2 ^ 16
    → id < 2 ^ 16
    → ttl < 256
    → (a < 256) × (b < 256) × (c < 256) × (d < 256)
    → (e < 256) × (f < 256) × (g < 256) × (i < 256)
    → let source = a ∷ b ∷ c ∷ d ∷ [] in
      let dest = e ∷ f ∷ g ∷ i ∷ [] in
      words (ip_header total id ttl (checksum_of total id ttl source dest) source dest) % 65535 ≡ 0
unfolding ipv4_checksum
ip_header_verified total id ttl a b c d e f g i h0 h1 h2 h3 h4 =
    ap (λ t. t % 65535) whole
    ∙ complement (bare total id ttl a b c d e f g i)
        (omega (arith, bare_sum, h3.0, h3.1, h3.2, h3.3, h4.0, h4.1, h4.2, h4.3))
  where
    bare_sum :
        (bare total id ttl a b c d e f g i)
        ≡ 17681
          + total
          + id
          + ttl * 256
          + (a * 256 + b)
          + (c * 256 + d)
          + (e * 256 + f)
          + (g * 256 + i)
          + 0
    bare_sum = header_sum total id ttl 0 a b c d e f g i h0 h1 h2 (omega arith) h3 h4

    whole :
        words (
          ip_header total id ttl
            (checksum_of total id ttl (a ∷ b ∷ c ∷ d ∷ []) (e ∷ f ∷ g ∷ i ∷ []))
            (a ∷ b ∷ c ∷ d ∷ [])
            (e ∷ f ∷ g ∷ i ∷ []))
        ≡ (bare total id ttl a b c d e f g i)
          + (65535 - fold_carry 2 (bare total id ttl a b c d e f g i) % 2 ^ 16)
    whole =
        header_words total id ttl
          (65535 - fold_carry 2 (bare total id ttl a b c d e f g i) % 2 ^ 16) a b c d e f g i h0 h1
          (omega arith)
        ∙ omega (arith, bare_sum)

-- The IPv4 header of what is handed to BATMAN.
abbrev pub header_of : Sending → List ℕ
header_of (Sending.refused e) = []
header_of (Sending.unicast dest frame) = take 20 (drop 14 frame)
header_of (Sending.broadcast frame) = take 20 (drop 14 frame)

below : (v : ℕ) → v % 256 < 256
below v = omega arith

known : (self : Option ℕ) → (self ≡ none) ⊎ ((mac : ℕ) × (self ≡ some mac))
known none = inl refl
known (some mac) = inr (mac, refl)

packet_verified :
    (ttl port mac a b c d : ℕ) (s : Rtp) (opus : List ℕ)
    → ttl < 256
    → length opus ≤ 444
    → (a < 256) × (b < 256) × (c < 256) × (d < 256)
    → words (take 20 (packet ttl port (link_local mac) (a ∷ b ∷ c ∷ d ∷ []) (numbered s) opus))
        % 65535
      ≡ 0
packet_verified ttl port mac a b c d s opus t l h =
    ip_header_verified (40 + length opus) ((s.sequence + 1) % 2 ^ 16) ttl 169 254 (mac / 256 % 256)
      (mac % 256) a b c d (omega arith) (omega arith) t
      (omega arith, omega arith, below (mac / 256), below mac) h

send_peer_verified :
    (env : Env) (dest : ℕ) (opus : List ℕ) (s : Rtp)
    → length opus ≤ 444
    → words (header_of (send_peer env dest opus s).0) % 65535 ≡ 0
unfolding send_peer words
send_peer_verified env dest opus s l =
    elim (Bool-cases (mac_is_zero dest || mac_is_broadcast dest)) [
      | inl e ↦ rw e refl
      | inr e ↦ rw e (elim (known env.self_mac) [
        | inl none' ↦ rw none' refl
        | inr (mac, some') ↦ rw some' (
            packet_verified 64 peer_port mac 169 254 (dest / 256 % 256) (dest % 256)
              (seeded env mac s) opus (omega arith) l
              (omega arith, omega arith, below (dest / 256), below dest))
      ])
    ]

send_group_verified :
    (env : Env) (port : ℕ) (opus : List ℕ) (s : Rtp)
    → length opus ≤ 444
    → words (header_of (send_group env port opus s).0) % 65535 ≡ 0
unfolding send_group words
send_group_verified env port opus s l =
    elim (Bool-cases (not (channel_enabled env.channel_mask port))) [
      | inl e ↦ elim (Bool-cases (not (is_public_channel port))) [
        | inl f ↦ rw f refl
        | inr f ↦ rw (e, f) refl
      ]
      | inr e ↦ elim (Bool-cases (not (is_public_channel port))) [
        | inl f ↦ rw f refl
        | inr f ↦
            rw (e, f)
              (elim (known env.self_mac) [
                | inl none' ↦ rw none' refl
                | inr (mac, some') ↦ rw some' (
                    packet_verified 1 port mac 239 192 41 1 (seeded env mac s) opus (omega arith) l
                      (omega arith, omega arith, omega arith, omega arith))
              ])
      ]
    ]

carried : (n : ℕ) (payload : List ℕ) → carries n payload ≡ true → length (drop n payload) ≤ 444
carried n payload h = ground (arith, length-drop n payload)

-- Whatever the phone hands over: the IPv4 header of the frame that is sent for it, if one is, has the
-- right checksum. The one's complement sum of its 16-bit words, the checksum among them, is all ones,
-- which is to say that the words add up to a multiple of 65535.
pub send_phone_frame-checksum :
    (env : Env) (payload : List ℕ) (s : Rtp)
    → words (header_of (send_phone_frame env payload s).0) % 65535 ≡ 0
unfolding send_phone_frame words
send_phone_frame-checksum env payload s = elim (Bool-cases (leb (length payload) 4)) [
  | inl e ↦ rw e refl
  | inr e ↦ rw e (elim (Bool-cases (same_bytes (take 4 payload) peer_magic)) [
    | inl m ↦ rw m (elim (Bool-cases (carries 10 payload)) [
      | inr c ↦ rw c refl
      | inl c ↦ rw c (send_peer_verified env _ (drop 10 payload) s (carried 10 payload c))
    ])
    | inr m ↦ rw m (elim (Bool-cases (same_bytes (take 4 payload) group_magic)) [
      | inr g ↦ rw g refl
      | inl g ↦ rw g (elim (Bool-cases (carries 6 payload)) [
        | inr c ↦ rw c refl
        | inl c ↦ rw c (send_group_verified env _ (drop 6 payload) s (carried 6 payload c))
      ])
    ])
  ])
]
