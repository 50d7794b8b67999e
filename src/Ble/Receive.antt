-- ===== src/Ble/Receive.antt =====
-- Reassembly of mobile frames from GATT writes: `ble_control_process_rx`, and the control and
-- forward channels of `ble_control_gatt_access`, of ble_control.c. A frame is passed to
-- `Protocol.Frame.handle_frame`; the outcomes are listed in order. The list is the channel's
-- buffer, `rx_buf[0 .. rx_len)`, of 2 * 516 bytes.
pub mod Laws
pub mod Stream
use edge_device_esp.Base.{
  ℕ, zero, suc, ◌+◌, ◌-◌, Bool, true, false, ◌&&◌, ◌||◌, not, ltb, ◌==◌, if◌then◌else◌,
}
use edge_device_esp.Base.{List, [], ◌∷◌, ◌++◌, length, take, drop, Option, none, some}
use edge_device_esp.Base.Words.{word16}
use edge_device_esp.Protocol.Frame.{Outcome, handle_frame}

-- One round of the loop: wait for more, drop everything, or take a frame.
pub data Round : Type 0 where
  wait discard : Round
  whole : List ℕ → List ℕ → Round

pub round_of : ℕ → List ℕ → Round
round_of payload_len rx =
    if ltb 512 payload_len
    then discard
    else if ltb (length rx) (4 + payload_len)
    then wait
    else whole (take (4 + payload_len) rx) (drop (4 + payload_len) rx)

pub round : List ℕ → Round
round (a ∷ b ∷ lo ∷ hi ∷ rest) =
    if not (a == b'E') || not (b == b'Z')
    then discard
    else round_of (word16 lo hi) (a ∷ b ∷ lo ∷ hi ∷ rest)
round short = wait

-- The loop, on fuel: what was done with each frame, and the buffer that is left.
pub process_loop : ℕ → Bool → List ℕ → List Outcome × List ℕ
process_loop zero forward rx = ([], rx)
process_loop (suc fuel) forward rx = elim (round rx) [
  | wait ↦ ([], rx)
  | discard ↦ ([], [])
  | whole frame rest ↦
      let (done, left) = process_loop fuel forward rest in
      (handle_frame (some frame) forward ∷ done, left)
]

-- `ble_control_process_rx`: `forward` says that the channel is the forward channel, `enabled` what
-- `halow_sync_bridge_forwarding_enabled` answers.
pub process_rx : Bool → Bool → List ℕ → List Outcome × List ℕ
process_rx forward enabled rx =
    if forward && not enabled then ([], []) else process_loop (length rx) forward rx

-- `ble_control_gatt_access` on these channels: ATT result code, outcomes, buffer. `secured` says
-- that the connection is the secured one, `is_write` that the operation is a write, and `flat` is
-- `ble_hs_mbuf_to_flat` on what was written: what it copies into a given room, or none.
pub gatt_write :
    Bool → Bool → Bool → Bool → (ℕ → Option (List ℕ)) → List ℕ → ℕ × List Outcome × List ℕ
gatt_write secured is_write forward enabled flat rx =
    if not secured
    then (0x05, [], rx)
    else if not is_write
    then (0x0e, [], rx)
    else if forward && not enabled
    then (0x03, [], [])
    else (let rx' = if 1032 - length rx == 0 then [] else rx in
        elim (flat (1032 - length rx')) [
          | none ↦ (0x0e, [], rx')
          | some copied ↦
              let (done, left) = process_rx forward enabled (rx' ++ copied) in (0, done, left)
        ])

-- Writes one after the other on a secured connection, with forwarding enabled: all the outcomes.
pub writes : (ℕ → List ℕ → Option (List ℕ)) → Bool → List (List ℕ) → List ℕ → List Outcome × List ℕ
writes flat forward [] rx = ([], rx)
writes flat forward (chunk ∷ chunks) rx =
    let (code, done, left) = gatt_write true true forward true (λ room. flat room chunk) rx in
    let (more, rest) = writes flat forward chunks left in (done ++ more, rest)
