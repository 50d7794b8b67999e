-- ===== src/Tests/Usb.antt =====
-- The USB transport on concrete bytes.
use edge_device_esp.Base.{ℕ, ◌≡◌, ◌≤◌, refl, arith, true, false, List, [], ◌∷◌, ◌++◌, ◌⊎◌}
use edge_device_esp.Base.{length, take, drop, replicate, flatten}
use edge_device_esp.Usb.Stream.{wait, scan, stream_frame, consume, receive_all}
use edge_device_esp.Usb.Stream.Chunks.{consume_ends, receive_all-flatten}
use edge_device_esp.Usb.Stream.Frames.{stream_frames}
use edge_device_esp.Usb.Session.{Session, Env, log, control, handle_frame}
use edge_device_esp.Usb.Session.Control.{IsHandshake, IsValid, handle_frame-locked}
use edge_device_esp.Usb.Session.Delivery.{
  IsPlain, deliveries, enqueued, receive_all-deliveries, receive_all-handshake,
}
use edge_device_esp.Usb.Queue.{Queue}
use edge_device_esp.Usb.Queue.Fifo
use edge_device_esp.Usb.Queue.Fifo.{push-contents, pop-contents, update_gap-bounds}

abbrev collect : List ℕ → List (List ℕ) → List (List ℕ)
collect p ps = ps ++ (p ∷ [])

abbrev voice : List ℕ
voice = b'V' ∷ b'C' ∷ 2 ∷ 9 ∷ []

abbrev plain : List ℕ
plain = 10 ∷ 20 ∷ []

abbrev both : List (List ℕ)
both = voice ∷ plain ∷ []

-- The frames of both payloads, cut inside the first header.
abbrev cut : List (List ℕ)
cut = take 3 (stream_frames both) ∷ drop 3 (stream_frames both) ∷ []

abbrev session : Session
session = record {
  initialized = true;
  lock = true;
  mode = control;
  gap = 3;
  last_activity = 0;
  handled = 0;
  trace = [];
}

abbrev closed : Session
closed = record session { mode = log }

abbrev answers : Env
answers = record { now = 70; locked = true; drained = true; written = true; ble = false }

-- A handshake request with sequence number 5 and log level 3.
abbrev ping : List ℕ
ping = b'E' ∷ b'Z' ∷ 1 ∷ 1 ∷ 5 ∷ 0 ∷ 17 ∷ 0 ∷ (replicate 16 7 ++ (3 ∷ []))

consume_test :
    consume collect (1 ∷ 2 ∷ (stream_frame plain ++ (0x94 ∷ []))) [] ≡ (0x94 ∷ [], plain ∷ [])
unfolding consume
consume_test = refl

consume_ends_example :
    (scan (consume collect (take 3 (stream_frame plain)) []).0 ≡ wait)
    × (length (consume collect (take 3 (stream_frame plain)) []).0 ≤ 515)
consume_ends_example = consume_ends collect (take 3 (stream_frame plain)) []

receive_all-flatten_example : receive_all collect cut ([], []) ≡ consume collect (flatten cut) []
receive_all-flatten_example = receive_all-flatten collect cut [] (omega arith, (omega arith, tt))

handle_frame-locked_example :
    (handle_frame 5 (λ n. answers) voice closed ≡ record closed { last_activity = 70; handled = 1 })
    ⊎ IsHandshake voice
handle_frame-locked_example = handle_frame-locked 5 (λ n. answers) voice closed refl

ping-IsHandshake : IsHandshake ping
ping-IsHandshake = record {
  legacy = refl;
  kind = refl;
  size = refl;
  field = refl;
  level = omega arith;
}

session-IsValid : IsValid session
session-IsValid = record { gap_low = omega arith; gap_high = omega arith; settled = λ e. cc }

voice-IsPlain : IsPlain voice
voice-IsPlain = record {
  sendable = (omega arith, omega arith);
  no_command = refl;
  no_legacy = refl;
}

plain-IsPlain : IsPlain plain
plain-IsPlain = record {
  sendable = (omega arith, omega arith);
  no_command = refl;
  no_legacy = refl;
}

receive_all-deliveries_example :
    ((receive_all (handle_frame 5 (λ n. answers)) cut ([], session)).0 ≡ [])
    × ((receive_all (handle_frame 5 (λ n. answers)) cut ([], session)).1.trace ≡ deliveries both)
receive_all-deliveries_example =
    receive_all-deliveries 5 (λ n. answers) both cut session refl
      (voice-IsPlain, (plain-IsPlain, tt)) (omega arith, (omega arith, tt)) refl

-- Three slots, of which the last and the first are in use.
abbrev wrapped : Queue
wrapped = record {
  frames = plain ∷ [] ∷ voice ∷ [];
  capacity = 3;
  head = 2;
  tail = 1;
  items = 2;
  spaces = 1;
}

wrapped-IsValid : Fifo.IsValid wrapped
wrapped-IsValid = record { slots = refl; head_in = omega arith; full = refl; tail_at = refl }

-- A payload too early, the handshake, and a payload.
abbrev opening : List (List ℕ)
opening = stream_frames (voice ∷ ping ∷ plain ∷ []) ∷ []

receive_all-handshake_example :
    enqueued (receive_all (handle_frame 5 (λ n. answers)) opening ([], closed)).1.trace ≡ plain ∷ []
receive_all-handshake_example =
    receive_all-handshake 5 (λ n. answers) (voice ∷ []) ping (plain ∷ []) opening closed
      (refl, refl, refl) (voice-IsPlain, tt) ping-IsHandshake (plain-IsPlain, tt) (refl, refl, refl)
      (omega arith, tt) refl
