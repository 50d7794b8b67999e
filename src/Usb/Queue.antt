-- ===== src/Usb/Queue.antt =====
-- `usb_frame_queue_t` of usb_control_transport.c and its push and pop. The counts of the semaphores
-- `items` and `spaces` are fields; what taking the mutex answers is an argument, and so is what the
-- code does when a count is 0: the time to wait is over.
pub mod Fifo
use edge_device_esp.Base.{ℕ, ◌+◌, ◌-◌, ◌%◌, Bool, true, false, ◌||◌, not, ltb, ◌==◌, if◌then◌else◌}
use edge_device_esp.Base.{List, [], ◌∷◌, length, get_or, set, replicate, Option, none, some}

-- A slot is the payload, `payload[0 .. len)`.
pub record Queue : Type 0 where
  pub frames : List (List ℕ)
  pub capacity : ℕ
  pub head : ℕ
  pub tail : ℕ
  pub items : ℕ
  pub spaces : ℕ

-- `usb_frame_queue_init`, when every allocation succeeds.
abbrev pub new_queue : ℕ → Queue
new_queue capacity = record {
  frames = replicate capacity [];
  capacity = capacity;
  head = 0;
  tail = 0;
  items = 0;
  spaces = capacity;
}

-- `usb_frame_queue_deinit`: all is zero.
abbrev pub deinit : Queue → Queue
deinit q = record { frames = []; capacity = 0; head = 0; tail = 0; items = 0; spaces = 0 }

-- `usb_frame_queue_init`; `created` tells whether the slots and the semaphores could be allocated.
abbrev pub init : (created : Bool) → (capacity : ℕ) → Queue → Queue × Bool
init created capacity q =
    if capacity == 0
    then (q, false)
    else if not created
    then (deinit q, false)
    else (new_queue capacity, true)

-- `usb_frame_queue_push`: `locked` says whether the mutex is got in time.
unfoldable pub push : Bool → List ℕ → Queue → Queue × Bool
push locked payload q =
    if length payload == 0 || ltb 512 (length payload)
    then (q, false)
    else if q.spaces == 0
    then (q, false)
    else if not locked
    then (q, false)
    else (
      record q {
        frames = set q.frames q.tail payload;
        tail = (q.tail + 1) % q.capacity;
        items = q.items + 1;
        spaces = q.spaces - 1;
      },
      true,
    )

-- `usb_frame_queue_pop`.
unfoldable pub pop : Bool → Queue → Queue × Option (List ℕ)
pop locked q = if q.items == 0 then (q, none) else if not locked then (q, none) else (
  record q { head = (q.head + 1) % q.capacity; items = q.items - 1; spaces = q.spaces + 1 },
  some (get_or q.frames q.head []),
)

-- The choice of `usb_mobile_to_halow_task` and `usb_halow_to_mobile_task`: control before realtime.
unfoldable pub take_next : Bool → Queue → Queue → Queue × Queue × Option (List ℕ)
take_next locked control_queue realtime_queue =
    let (control', first) = pop locked control_queue in
    let (realtime', second) = pop locked realtime_queue in
    elim first [
      | some frame ↦ (control', realtime_queue, some frame)
      | none ↦ (control', realtime', second)
    ]

-- `usb_update_mobile_gap_from_pressure` for a realtime queue of `depth` frames: the gap, the count of
-- frames under low pressure (a `uint16_t`), and the gap that the host is told, if it changed.
pub update_gap : ℕ → ℕ → ℕ → ℕ × ℕ × Option ℕ
update_gap depth gap low =
    let low' = (low + 1) % 65536 in
    let told = λ (next : ℕ). if next == gap then none else some next in
    if not (ltb depth 192)
    then (let next = if ltb gap 10 then gap + 1 else 10 in (next, 0, told next))
    else if not (ltb 64 depth)
    then (if not (ltb low' 64)
        then (let next = if ltb 1 gap then gap - 1 else 1 in (next, 0, told next))
        else (gap, low', none))
    else (gap, 0, none)
