-- ===== src/Tests/Openmanet.antt =====
-- Speech frames of OpenMANET on concrete bytes.
use edge_device_esp.Base.{ℕ, ◌%◌, List, ◌≡◌, refl, arith, [], ◌∷◌, some}
use edge_device_esp.Mesh.Speech.{read_be}
use edge_device_esp.Openmanet.Comms.{Env, Rtp, Sending, send_phone_frame, send_group, send_peer}
use edge_device_esp.Openmanet.Comms.RoundTrip.{
  IsHeard, send_phone_frame-IsHeard, send_phone_frame-IsHeard_peer,
}
use edge_device_esp.Openmanet.Comms.Checksum.{words, header_of, send_phone_frame-checksum}

abbrev env : Env
env = record {
  self_mac = some 0x220000000005;
  random_ssrc = 1;
  random_sequence = 9;
  random_timestamp = 100;
  channel_mask = 31;
}

abbrev rtp : Rtp
rtp = record { sequence = 9; timestamp = 960; ssrc = 77 }

-- Channel 38801.
abbrev group_frame : List ℕ
group_frame = 79 ∷ 77 ∷ 67 ∷ 1 ∷ 151 ∷ 145 ∷ 7 ∷ 8 ∷ 9 ∷ []

send_phone_frame-IsHeard_example :
    (frame : List ℕ) × ((send_phone_frame env group_frame rtp).0 ≡ Sending.broadcast frame)
    × IsHeard 1 0x01005e402901 frame
        (79 ∷ 77 ∷ 67 ∷ 1 ∷ 151 ∷ 145 ∷ 0 ∷ 0 ∷ 0 ∷ 77 ∷ 0 ∷ 10 ∷ 7 ∷ 8 ∷ 9 ∷ [])
unfolding send_phone_frame send_group
send_phone_frame-IsHeard_example =
    send_phone_frame-IsHeard env 1 0x220000000005 38801 (7 ∷ 8 ∷ 9 ∷ []) rtp refl refl refl
      (omega arith) (omega arith)

-- Station 0x220000000007.
abbrev peer_frame : List ℕ
peer_frame = 79 ∷ 77 ∷ 67 ∷ 2 ∷ 34 ∷ 0 ∷ 0 ∷ 0 ∷ 0 ∷ 7 ∷ 7 ∷ 8 ∷ 9 ∷ []

send_phone_frame-IsHeard_peer_example :
    (frame : List ℕ) × ((send_phone_frame env peer_frame rtp).0
      ≡ Sending.unicast 0x220000000007 frame)
    × IsHeard 0 0x220000000007 frame
        (79 ∷ 77 ∷ 67 ∷ 2 ∷ 34 ∷ 0 ∷ 0 ∷ 0 ∷ 0 ∷ 5 ∷ 0 ∷ 0 ∷ 0 ∷ 77 ∷ 0 ∷ 10 ∷ 7 ∷ 8 ∷ 9 ∷ [])
unfolding send_phone_frame send_peer read_be
send_phone_frame-IsHeard_peer_example =
    send_phone_frame-IsHeard_peer env 0 0x220000000005 0x220000000007 (7 ∷ 8 ∷ 9 ∷ []) rtp refl
      (omega arith) refl (omega arith) (omega arith)

send_phone_frame-checksum_example :
    words (header_of (send_phone_frame env group_frame rtp).0) % 65535 ≡ 0
send_phone_frame-checksum_example = send_phone_frame-checksum env group_frame rtp
