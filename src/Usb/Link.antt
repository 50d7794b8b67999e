-- ===== src/Usb/Link.antt =====
-- The two directions of usb_control_transport.c behind its receive loop: a queue for control frames, one
-- for realtime frames, the semaphore that wakes their task, and the two tasks
-- (`usb_mobile_to_halow_task`, `usb_halow_to_mobile_task`). A call that waits without limit and finds
-- the queue full changes nothing: it is made again when there is space.
pub mod Held
pub mod Refine
pub mod Drain
pub mod Path
use edge_device_esp.Base.{
  ℕ, ◌+◌, ◌-◌, Bool, true, false, ◌&&◌, ◌||◌, not, ltb, ◌==◌, same_bytes, if◌then◌else◌, List, [],
  ◌∷◌, ◌++◌, Option, none, some, length, take, drop, get_or,
}
use edge_device_esp.Base.EspErr.{EspErr, is_ok}
use edge_device_esp.Protocol.Frame.{Outcome, frame_of, handle_frame}
use edge_device_esp.Usb.Queue.{Queue, new_queue, push, take_next, update_gap}
use edge_device_esp.Usb.Session.{Session, Event, emit, write_stream, send_legacy_echo}

-- The queues of one direction and the count of their semaphore.
pub record Link : Type 0 where
  pub control_queue : Queue
  pub realtime_queue : Queue
  pub work : ℕ

-- USB_CONTROL_QUEUE_FRAMES and USB_REALTIME_QUEUE_FRAMES.
abbrev pub new_link : Link
new_link = record { control_queue = new_queue 64; realtime_queue = new_queue 256; work = 0 }

-- A counting semaphore is not given beyond its maximum.
abbrev pub give : (most n : ℕ) → ℕ
give most n = if ltb n most then n + 1 else n

abbrev pub give_work : Link → ℕ
give_work l = give (l.control_queue.capacity + l.realtime_queue.capacity) l.work

-- `usb_priority_queue_push`, with the queue that its callers choose.
abbrev pub push_control : (locked : Bool) → List ℕ → Link → Link × Bool
push_control locked p l =
    let pushed = push locked p l.control_queue in
    if pushed.1
    then (record l { control_queue = pushed.0; work = give_work l }, true)
    else (l, false)

abbrev pub push_realtime : (locked : Bool) → List ℕ → Link → Link × Bool
push_realtime locked p l =
    let pushed = push locked p l.realtime_queue in
    if pushed.1
    then (record l { realtime_queue = pushed.0; work = give_work l }, true)
    else (l, false)

unfoldable pub priority_push : (locked realtime : Bool) → List ℕ → Link → Link × Bool
priority_push locked realtime p l =
    if realtime then push_realtime locked p l else push_control locked p l

-- What a task takes when it is woken; it sleeps while there is no work. The mutex is waited for.
unfoldable pub take_frame : Link → Link × Option (List ℕ)
take_frame l =
    let taken = take_next true l.control_queue l.realtime_queue in
    if l.work == 0 then (l, none) else (
      record l { control_queue = taken.0; realtime_queue = taken.1; work = l.work - 1 },
      taken.2,
    )

-- `usb_send_payload`, and so `usb_control_transport_send_frame` (without a prefix) and
-- `usb_control_transport_send_voice_frame` (behind 'V' 'C' 2).
unfoldable pub send_payload : (is_connected : Bool) → (prefix payload : List ℕ) → Link → Link
send_payload is_connected prefix payload l =
    if not is_connected || ltb 512 (length prefix + length payload)
    then l
    else (priority_push true (not (length prefix == 0)) (prefix ++ payload) l).0

-- `usb_control_transport_send_log_frame`, which does not wait: `locked` tells whether the mutex is free.
unfoldable pub send_log_frame : (is_connected locked : Bool) → (payload : List ℕ) → Link → Link
send_log_frame is_connected locked payload l =
    if not is_connected || length payload == 0 || ltb 512 (length payload)
    then l
    else (priority_push locked true payload l).0

abbrev pub voice_mark : List ℕ
voice_mark = b'V' ∷ b'C' ∷ 2 ∷ []

abbrev pub speed_mark : List ℕ
speed_mark = b'S' ∷ b'T' ∷ 2 ∷ []

-- A turn of `usb_halow_to_mobile_task`.
abbrev pub to_mobile : Link → Session → Link × Session
to_mobile l s = elim (take_frame l).1 [
  | none ↦ ((take_frame l).0, s)
  | some p ↦ ((take_frame l).0, write_stream p s)
]

-- A call of `usb_process_payload` that leaves the file.
pub data Call : Type 0 where
  voice_to_radio : List ℕ → Call
  phone_frame : List ℕ → Call
  speed_to_radio : List ℕ → Call
  protocol : Outcome → Call

-- What `halow_sync_bridge_handle_voice_to_radio` and `openmanet_comms_send_phone_frame` answer.
pub record Answers : Type 0 where
  pub voice : List ℕ → EspErr
  pub phone : List ℕ → EspErr

-- The state of the task towards the radio.
pub record Worker : Type 0 where
  pub session : Session
  pub low_pressure : ℕ
  pub calls : List Call

abbrev pub call : Call → Worker → Worker
call c w = record w { calls = w.calls ++ (c ∷ []) }

-- USB_LEGACY_TX_ACK.
abbrev pub tx_ack : Worker → Worker
tx_ack w = record w { session = send_legacy_echo 3 0 [] w.session }

abbrev pub is_marked : (mark payload : List ℕ) → Bool
is_marked mark payload = ltb 3 (length payload) && same_bytes (take 3 payload) mark

-- A frame of OpenMANET speech: 'O' 'M' 'C' and 1 or 2.
abbrev pub is_comms : List ℕ → Bool
is_comms realtime =
    ltb 4 (length realtime)
    && same_bytes (take 3 realtime) (b'O' ∷ b'M' ∷ b'C' ∷ [])
    && (get_or realtime 3 0 == 1 || get_or realtime 3 0 == 2)

abbrev pub process_voice : Answers → List ℕ → Worker → Worker
process_voice answers realtime w =
    let answer = if is_comms realtime then answers.phone realtime else answers.voice realtime in
    let called =
      call (if is_comms realtime then phone_frame realtime else voice_to_radio realtime) w in
    if is_ok answer then tx_ack called else called

-- USB_LEGACY_FLOW_CONTROL tells the host a gap that changed.
abbrev pub tell_gap : Option ℕ → Session → Session
tell_gap none s = s
tell_gap (some gap) s = send_legacy_echo 4 gap [] s

-- `usb_update_mobile_gap_from_pressure`.
abbrev pub relieve : (depth : ℕ) → Worker → Worker
relieve depth w =
    let pressed = update_gap depth w.session.gap w.low_pressure in
    record w {
      session = tell_gap pressed.2 (record w.session { gap = pressed.0 });
      low_pressure = pressed.1;
    }

abbrev pub process_protocol : List ℕ → Worker → Worker
process_protocol p w = tx_ack (
    call (protocol (handle_frame (some (frame_of p)) false))
      (record w { session = emit Event.active_usb w.session }))

-- `usb_process_payload`; `depth` is what waits in the realtime queue.
unfoldable pub process_payload : Answers → (depth : ℕ) → List ℕ → Worker → Worker
process_payload answers depth p w =
    if is_marked voice_mark p
    then process_voice answers (drop 3 p) w
    else if is_marked speed_mark p
    then relieve depth (call (speed_to_radio (drop 3 p)) w)
    else process_protocol p w

-- A turn of `usb_mobile_to_halow_task`.
abbrev pub to_radio : Answers → Link → Worker → Link × Worker
to_radio answers l w = elim (take_frame l).1 [
  | none ↦ ((take_frame l).0, w)
  | some p ↦ ((take_frame l).0, process_payload answers (take_frame l).0.realtime_queue.items p w)
]
