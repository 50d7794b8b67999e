-- ===== src/Usb/Stream.antt =====
-- The byte stream of usb_control_transport.c: what `usb_write_stream_payload` writes, and the loop
-- of `usb_consume_rx` over the receive buffer, with the handling of one frame as a parameter (it
-- is `Usb.Session.handle_frame`). The list is `s_rx_buffer[0 .. s_rx_len)`.
pub mod Chunks
pub mod Frames
use edge_device_esp.Base.{ℕ, zero, suc, ◌+◌, ◌/◌, ◌%◌, ◌<◌, ◌≤◌, Bool, true, false, ◌&&◌, ◌||◌}
use edge_device_esp.Base.{List, [], ◌∷◌, ◌++◌, ltb, ◌==◌, if◌then◌else◌, length, take, drop}
use edge_device_esp.Base.Words.{word16}

-- `USB_STREAM_MAGIC_0`, `USB_STREAM_MAGIC_1`, `EDGEZ_FRAME_MAX_PAYLOAD`.
abbrev pub magic_0 : ℕ
magic_0 = 0x94

abbrev pub magic_1 : ℕ
magic_1 = 0xC3

abbrev pub max_payload : ℕ
max_payload = 512

abbrev pub fits : List ℕ → Bool
fits payload = ltb 0 (length payload) && ltb (length payload) (max_payload + 1)

-- The frame that `usb_write_stream_payload` builds round a payload: magic, big-endian length.
abbrev pub stream_frame : List ℕ → List ℕ
stream_frame payload =
    magic_0 ∷ magic_1 ∷ length payload / 256 % 256 ∷ length payload % 256 ∷ payload

-- What one round of `usb_consume_rx` finds at the front of the buffer: it returns and waits for
-- more bytes, drops one byte, or takes a whole frame and goes on behind it.
pub data Scan : Type 0 where
  wait skip : Scan
  frame : List ℕ → List ℕ → Scan

pub scan_body : ℕ → List ℕ → Scan
scan_body payload_len body =
    if payload_len == 0 || ltb max_payload payload_len
    then skip
    else if ltb (length body) payload_len
    then wait
    else frame (take payload_len body) (drop payload_len body)

pub scan_header : List ℕ → Scan
unfolding scan_body
scan_header [] = wait
scan_header (hi ∷ []) = wait
scan_header (hi ∷ lo ∷ body) = scan_body (word16 lo hi) body

pub scan : List ℕ → Scan
unfolding scan_header
scan [] = wait
scan (a ∷ []) = wait
scan (a ∷ b ∷ rest) = if a == magic_0 && b == magic_1 then scan_header rest else skip

module _ {ℓ} {S : Type ℓ} (handle : List ℕ → S → S) where
  -- The loop, on fuel. Each round that goes on takes a byte at least.
  pub consume_loop : ℕ → List ℕ → S → List ℕ × S
  consume_loop zero rx s = (rx, s)
  consume_loop (suc fuel) rx s = elim (scan rx) [
    | wait ↦ (rx, s)
    | skip ↦ consume_loop fuel (drop 1 rx) s
    | frame payload rest ↦ consume_loop fuel rest (handle payload s)
  ]

  unfoldable pub consume : List ℕ → S → List ℕ × S
  unfolding consume_loop scan
  consume rx s = consume_loop (length rx) rx s

  -- The receive part of `usb_rx_task`: a chunk from the UART is appended, after the buffer was
  -- reset if it would not hold the chunk (`USB_RX_BUFFER_SIZE` is 516 * 64).
  pub receive : List ℕ → List ℕ × S → List ℕ × S
  unfolding consume
  receive chunk (rx, s) =
      consume ((if ltb 33024 (length rx + length chunk) then [] else rx) ++ chunk) s

  pub receive_all : List (List ℕ) → List ℕ × S → List ℕ × S
  unfolding receive
  receive_all [] st = st
  receive_all (chunk ∷ chunks) st = receive_all chunks (receive chunk st)
