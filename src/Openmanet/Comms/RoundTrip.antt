-- ===== src/Openmanet/Comms/RoundTrip.antt =====
-- Speech from one station to another: what a phone sends is what the other phones get.
use edge_device_esp.Base.{
  ℕ, ◌+◌, ◌-◌, ◌/◌, ◌%◌, ◌^◌, ◌<◌, ◌≤◌, ◌≡◌, refl, sym, ap, ◌∙◌, Bool, true, false, ◌&&◌, ◌||◌, not,
  ltb, leb, ◌==◌, same_bytes, if◌then◌else◌, List, [], ◌∷◌, ◌++◌, some, length, take, drop,
  Bool-cases, inl, inr, arith,
}
use edge_device_esp.Mesh.Speech.{read_be, be32_bytes, be48_bytes, read_be48}
use edge_device_esp.Mesh.Routes.{mac_is_zero, mac_is_broadcast}
use edge_device_esp.Mesh.Wire.{is_public_channel, ethernet}
use edge_device_esp.Mesh.Receive.{channel_enabled}
use edge_device_esp.Openmanet.Comms.{
  Env, Rtp, Sending, group_magic, peer_magic, group_mac, peer_port, be16_bytes, read_be16,
  link_local, packet, numbered, seeded, is_group, is_peer, handle_rtp, handle_udp, handle_frame,
  send_peer, send_group, send_phone_frame,
}

read-be16_bytes : (v : ℕ) → v < 2 ^ 16 → read_be16 (be16_bytes v) ≡ v
read-be16_bytes v h = omega arith

handle_udp_lem :
    (mask : ℕ) (frame ip : List ℕ) (ihl : ℕ) (udp : List ℕ) (port udp_len : ℕ)
    → read_be16 (drop 2 udp) ≡ port
    → read_be16 (drop 4 udp) ≡ udp_len
    → (not (is_group port ip) && not (is_peer port frame)) ≡ false
    → (is_group port ip && not (channel_enabled mask port)) ≡ false
    → ltb udp_len 21 ≡ false
    → ltb (length frame) (14 + ihl + udp_len) ≡ false
    → handle_udp mask frame ip ihl udp
      ≡ handle_rtp (is_peer port frame) frame port udp_len (drop 8 udp)
unfolding handle_udp
handle_udp_lem mask frame ip ihl udp port udp_len e f g u l r = rw (e, f, g, u, l, r) refl

take-length : (xs : List ℕ) → take (length xs) xs ≡ xs
take-length [] = refl
take-length (x ∷ xs) = ap (λ r. x ∷ r) (take-length xs)

-- What follows the magic in a frame for the phone: the sender or the port, source, number and sound.
abbrev pub heard : Rtp → (opus : List ℕ) → List ℕ
heard s opus = be32_bytes s.ssrc ++ (be16_bytes s.sequence ++ opus)

module _ (mask d mac ttl port a b c e : ℕ) (s : Rtp) (opus : List ℕ) (h : 0 < length opus)
    (k : length opus ≤ 444) (p : port < 2 ^ 16) where
  abbrev dest_ip : List ℕ
  dest_ip = a ∷ b ∷ c ∷ e ∷ []

  abbrev sent : List ℕ
  sent = ethernet d mac 0x0800 (packet ttl port (link_local mac) dest_ip s opus)

  frame-udp : handle_frame mask sent ≡ handle_udp mask sent (drop 14 sent) 20 (drop 34 sent)
  unfolding handle_frame
  frame-udp =
      let long : ltb (length sent) 55 ≡ false = ground arith in
      let room : ltb (length sent) 42 ≡ false = ground arith in rw (long, room) refl

  udp-rtp :
      (not (is_group port (drop 14 sent)) && not (is_peer port sent)) ≡ false
      → (is_group port (drop 14 sent) && not (channel_enabled mask port)) ≡ false
      → handle_udp mask sent (drop 14 sent) 20 (drop 34 sent)
        ≡ handle_rtp (is_peer port sent) sent port (20 + length opus) (drop 42 sent)
  udp-rtp g u =
      handle_udp_lem mask sent (drop 14 sent) 20 (drop 34 sent) port (20 + length opus)
        (read-be16_bytes port p) (read-be16_bytes (20 + length opus) (omega arith)) g u
        (ground arith) (ground arith)

  rtp-opus :
      (peer : Bool)
      → handle_rtp peer sent port (20 + length opus) (drop 42 sent) ≡ (
        true,
        some (
            if peer
            then peer_magic ++ (be48_bytes mac ++ heard s opus)
            else group_magic ++ (be16_bytes port ++ heard s opus)),
      )
  unfolding handle_rtp
  rtp-opus peer =
      let size : 20 + length opus - 8 - 12 ≡ length opus = omega arith in
      let some' : leb (20 + length opus) 20 ≡ false = ground arith in
      let small : ltb 444 (length opus) ≡ false = ground arith in
      elim (Bool-cases peer) [
        | inl e ↦ rw (e, size, some', small, take-length opus) refl
        | inr e ↦ rw (e, size, some', small, take-length opus) refl
      ]

  frame-heard :
      (peer : Bool)
      → is_peer port sent ≡ peer
      → (not (is_group port (drop 14 sent)) && not peer) ≡ false
      → (is_group port (drop 14 sent) && not (channel_enabled mask port)) ≡ false
      → handle_frame mask sent ≡ (
        true,
        some (
            if peer
            then peer_magic ++ (be48_bytes mac ++ heard s opus)
            else group_magic ++ (be16_bytes port ++ heard s opus)),
      )
  frame-heard peer e g u = frame-udp ∙ udp-rtp (rw e g) u ∙ rw e (rtp-opus peer)

public_port :
    (port : ℕ) → is_public_channel port ≡ true → (port < 2 ^ 16) × ((port == peer_port) ≡ false)
public_port port h = (ground arith, ground arith)

send_phone_frame-group :
    (env : Env) (port : ℕ) (opus : List ℕ) (s : Rtp)
    → port < 2 ^ 16
    → 0 < length opus
    → length opus ≤ 444
    → send_phone_frame env (group_magic ++ (be16_bytes port ++ opus)) s ≡ send_group env port opus s
unfolding send_phone_frame
send_phone_frame-group env port opus s p h k =
    let some' : ltb 6 (length (group_magic ++ (be16_bytes port ++ opus))) ≡ true = ground arith in
    let small : leb (length (group_magic ++ (be16_bytes port ++ opus))) 450 ≡ true = ground arith in
    let long : leb (length (group_magic ++ (be16_bytes port ++ opus))) 4 ≡ false = ground arith in
    rw (long, some', small, read-be16_bytes port p) refl

-- A frame that starts with the address it goes to, and what a station makes of it for its phone.
unfoldable pub IsHeard : (mask dest : ℕ) → (frame notified : List ℕ) → Type 0
IsHeard mask dest frame notified =
    (take 6 frame ≡ be48_bytes dest) × (handle_frame mask frame ≡ (true, some notified))

-- Sound of 1 to 444 bytes that a phone sends to a public channel, which both stations have switched on:
-- the sending station broadcasts a frame with the group's address, and every station that gets the
-- frame gives its phone the sound unchanged, behind the channel and the source and number of the RTP
-- packet.
pub send_phone_frame-IsHeard :
    (env : Env) (mask mac port : ℕ) (opus : List ℕ) (s : Rtp)
    → env.self_mac ≡ some mac
    → channel_enabled env.channel_mask port ≡ true
    → channel_enabled mask port ≡ true
    → 0 < length opus
    → length opus ≤ 444
    → let sent = send_phone_frame env (group_magic ++ (be16_bytes port ++ opus)) s in
      (frame : List ℕ) × (sent.0 ≡ Sending.broadcast frame)
      × IsHeard mask 0x01005e402901 frame (group_magic ++ (be16_bytes port ++ heard sent.1 opus))
unfolding send_group IsHeard
send_phone_frame-IsHeard env mask mac port opus s e on on' h k =
    let c : is_public_channel port ≡ true = ground arith in
    let (p, other) = public_port port c in
    rw (send_phone_frame-group env port opus s p h k) (
      rw (on, c, e)
        (
          _,
          refl,
          (
            refl,
            frame-heard mask group_mac mac 1 port 239 192 41 1 (numbered (seeded env mac s)) opus h
                k p false (rw other refl) (rw c refl) (rw (on', c) refl),
          ),
        ))

send_phone_frame-peer :
    (env : Env) (dest : ℕ) (opus : List ℕ) (s : Rtp)
    → dest < 2 ^ 48
    → 0 < length opus
    → length opus ≤ 444
    → send_phone_frame env (peer_magic ++ (be48_bytes dest ++ opus)) s ≡ send_peer env dest opus s
unfolding send_phone_frame
send_phone_frame-peer env dest opus s p h k =
    let some' : ltb 10 (length (peer_magic ++ (be48_bytes dest ++ opus))) ≡ true = ground arith in
    let small : leb (length (peer_magic ++ (be48_bytes dest ++ opus))) 454 ≡ true = ground arith in
    let long : leb (length (peer_magic ++ (be48_bytes dest ++ opus))) 4 ≡ false = ground arith in
    rw (long, some', small, read_be48 dest p) refl

same_bytes_eq : (xs ys : List ℕ) → same_bytes xs ys ≡ true → xs ≡ ys
same_bytes_eq [] [] h = refl
same_bytes_eq [] (y ∷ ys) h = cc
same_bytes_eq (x ∷ xs) [] h = cc
same_bytes_eq (x ∷ xs) (y ∷ ys) h =
    let first : x ≡ y = ground arith in
    rw first (ap (λ r. y ∷ r) (same_bytes_eq xs ys (ground arith)))

other_mac :
    (dest : ℕ)
    → dest < 2 ^ 48
    → (dest == group_mac) ≡ false
    → same_bytes (be48_bytes dest) (be48_bytes group_mac) ≡ false
other_mac dest h e = elim (Bool-cases (same_bytes (be48_bytes dest) (be48_bytes group_mac))) [
  | inr f ↦ f
  | inl f ↦
      let same : dest ≡ group_mac =
        sym (read_be48 dest h)
        ∙ ap (read_be 0) (same_bytes_eq (be48_bytes dest) (be48_bytes group_mac) f)
        ∙ read_be48 group_mac (omega arith) in
      absurd (ground (arith, same))
]

-- Sound of 1 to 444 bytes that a phone sends to one station, whose address is neither empty nor that of
-- several stations: a frame with that address is handed to BATMAN for that station, and there its phone
-- gets the sound unchanged, behind the address of the sender and the source and number of the RTP
-- packet.
pub send_phone_frame-IsHeard_peer :
    (env : Env) (mask mac dest : ℕ) (opus : List ℕ) (s : Rtp)
    → env.self_mac ≡ some mac
    → dest < 2 ^ 48
    → (mac_is_zero dest || mac_is_broadcast dest || dest == group_mac) ≡ false
    → 0 < length opus
    → length opus ≤ 444
    → let sent = send_phone_frame env (peer_magic ++ (be48_bytes dest ++ opus)) s in
      (frame : List ℕ) × (sent.0 ≡ Sending.unicast dest frame)
      × IsHeard mask dest frame (peer_magic ++ (be48_bytes mac ++ heard sent.1 opus))
unfolding send_peer IsHeard
send_phone_frame-IsHeard_peer env mask mac dest opus s e l z h k =
    let station : (mac_is_zero dest || mac_is_broadcast dest) ≡ false = ground arith in
    let other = other_mac dest l (ground arith) in
    rw (send_phone_frame-peer env dest opus s l h k) (
      rw (station, e)
        (
          _,
          refl,
          (
            refl,
            frame-heard mask dest mac 64 peer_port 169 254 (dest / 256 % 256) (dest % 256)
                (numbered (seeded env mac s)) opus h k (omega arith) true (rw other refl) refl refl,
          ),
        ))
