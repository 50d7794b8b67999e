-- ===== src/Usb/Session.antt =====
-- The session of usb_control_transport.c: transport mode, inter-frame gap, last host activity, the
-- handshake, and what `usb_consume_rx` does with one frame. Everything that the code calls outside
-- the file is an event of a trace, oldest first; what the RTOS and the UART driver answer is an
-- `Env`, one for each frame.
pub mod Delivery
pub mod Control
use edge_device_esp.Base.{ℕ, ◌+◌, ◌-◌, ◌/◌, ◌%◌, ◌≤◌, Bool, true, false, ◌&&◌, ◌||◌, not}
use edge_device_esp.Base.{List, [], ◌∷◌, ◌++◌, ltb, leb, ◌==◌, if◌then◌else◌, same_bytes}
use edge_device_esp.Base.{length, take, drop, get_or}
use edge_device_esp.Base.Words.{word16, le16_bytes, sub32}
use edge_device_esp.Usb.Stream.{fits, consume}

-- `usb_transport_mode_t`.
pub data Mode : Type 0 where
  log entering control : Mode

pub data Event : Type 0 where
  -- a payload handed to `usb_write_raw` behind its stream header
  stream : List ℕ → Event
  -- a payload put into the realtime (`true`) or control queue towards the radio
  enqueue : Bool → List ℕ → Event
  -- `halow_sync_bridge_queue_log_frame`
  log_frame : List ℕ → Event
  -- `esp_log_level_set(tag, level)`, followed by `usb_apply_log_exclusions`
  log_level : List ℕ → ℕ → Event
  -- `halow_sync_bridge_set_log_stream_enabled`
  log_stream : Bool → Event
  -- `halow_sync_bridge_request_log_level_test`
  log_test : Event
  -- `halow_sync_bridge_note_usb_connected`
  usb_connected : Bool → Event
  -- `halow_sync_bridge_note_active_interface(HALOW_SYNC_ACTIVE_INTERFACE_USB)`
  active_usb : Event
  -- `ble_control_cap_log_level_for_ble`
  cap_ble_log : Event

-- The file's static variables. `lock` says that `s_tx_lock` was created. `handled` counts the
-- frames, to pick the answers of the environment.
pub record Session : Type 0 where
  pub initialized : Bool
  pub lock : Bool
  pub mode : Mode
  pub gap : ℕ
  pub last_activity : ℕ
  pub handled : ℕ
  pub trace : List Event

-- What the platform answers while one frame is handled: the clock in ms, whether the transmit lock
-- is got in time, whether the UART drains, whether the pong goes out, whether BLE is connected.
pub record Env : Type 0 where
  pub now : ℕ
  pub locked : Bool
  pub drained : Bool
  pub written : Bool
  pub ble : Bool

abbrev pub is_control : Mode → Bool
is_control log = false
is_control entering = false
is_control control = true

abbrev pub is_log : Mode → Bool
is_log log = true
is_log entering = false
is_log control = false

-- `usb_control_transport_is_connected`.
abbrev pub connected : Session → Bool
connected s = s.initialized && is_control s.mode

abbrev pub emit : Event → Session → Session
emit e s = record s { trace = s.trace ++ (e ∷ []) }

-- `usb_write_stream_payload`, through `usb_write_raw`: nothing is written unless connected.
abbrev pub write_stream : List ℕ → Session → Session
write_stream payload s =
    if fits payload && connected s && s.lock then emit (stream payload) s else s

-- The frame of `usb_send_legacy_echo`: "EZ", version 1, type, sequence, length, payload.
abbrev pub legacy_frame : ℕ → ℕ → List ℕ → List ℕ
legacy_frame kind sequence payload =
    b'E' ∷ b'Z' ∷ 1 ∷ kind ∷ (le16_bytes sequence ++ (le16_bytes (length payload) ++ payload))

abbrev pub send_legacy_echo : ℕ → ℕ → List ℕ → Session → Session
send_legacy_echo kind sequence payload s =
    if ltb 256 (length payload) then s else write_stream (legacy_frame kind sequence payload) s

-- `usb_control_transport_exit`. The drain before the mode changes has no result that is read.
pub exit : Env → Session → Session
exit env s =
    if not s.initialized
    then s
    else if s.lock && env.locked
    then (let logged = record s { mode = log } in
        let capped = if env.ble then emit cap_ble_log logged else logged in
        emit (usb_connected false) capped)
    else s

-- A C string ends at its first NUL byte.
abbrev pub c_string : List ℕ → List ℕ
c_string [] = []
c_string (b ∷ bs) = if b == 0 then [] else b ∷ c_string bs

-- `usb_set_log_level`; `max_level` is `CONFIG_LOG_MAXIMUM_LEVEL`, and `ESP_LOG_VERBOSE` is 5.
pub set_log_level : ℕ → ℕ → List ℕ → Session → Session
set_log_level max_level requested tag_data s =
    if ltb 5 requested || leb 64 (length tag_data)
    then emit (log_frame (b'L' ∷ b'G' ∷ 2 ∷ 3 ∷ 0xff ∷ [])) s
    else (let tag = c_string (if length tag_data == 0 then b'*' ∷ [] else tag_data) in
        let level = if ltb max_level requested then max_level else requested in
        let s1 = emit (log_stream true) (emit (log_level tag level) s) in
        let s2 = emit (log_frame (b'L' ∷ b'G' ∷ 2 ∷ 3 ∷ level ∷ tag)) s1 in
        if level == 0 then emit (log_stream false) s2 else emit log_test s2)

-- The part of `usb_enter_control_mode_with_pong` behind the compare-exchange.
pub claim_uart : Env → ℕ → List ℕ → Session → Session × Bool
claim_uart env sequence nonce s =
    let level = get_or nonce 16 0 in
    let leveled = emit (log_level (b'*' ∷ []) level) (record s { mode = entering }) in
    if not env.locked
    then (record leveled { mode = log }, false)
    else if env.drained && env.written
    then (let ponged = record (emit (stream (legacy_frame 2 sequence nonce)) leveled) {
      mode = control;
      last_activity = env.now;
    } in
        let s1 = emit (log_stream (not (level == 0))) (emit (usb_connected true) ponged) in
        (if level == 0 then s1 else emit log_test s1, true))
    else (record leveled { mode = log }, false)

-- `usb_enter_control_mode_with_pong`: 16 bytes of nonce and a log level answer with a pong.
pub enter_control : Env → ℕ → List ℕ → Session → Session × Bool
enter_control env sequence nonce s =
    if not s.initialized || not s.lock || not (length nonce == 17) || ltb 5 (get_or nonce 16 0)
    then (s, false)
    else if connected s
    then (send_legacy_echo 2 sequence nonce s, true)
    else if is_log s.mode
    then claim_uart env sequence nonce s
    else (s, false)

-- The tests by which `usb_consume_rx` tells payloads apart.
abbrev pub is_set_level : List ℕ → Bool
is_set_level p =
    leb 5 (length p)
    && get_or p 0 0 == b'L'
    && get_or p 1 0 == b'G'
    && get_or p 2 0 == 2
    && get_or p 3 0 == 2

abbrev pub is_legacy : List ℕ → Bool
is_legacy p =
    leb 8 (length p)
    && get_or p 0 0 == b'E'
    && get_or p 1 0 == b'Z'
    && get_or p 2 0 == 1
    && (get_or p 3 0 == 1 || get_or p 3 0 == 2 || get_or p 3 0 == 4 || get_or p 3 0 == 8)

abbrev pub is_realtime : List ℕ → Bool
is_realtime p =
    ltb 3 (length p)
    && (same_bytes (take 3 p) (b'V' ∷ b'C' ∷ 2 ∷ [])
        || same_bytes (take 3 p) (b'S' ∷ b'T' ∷ 2 ∷ []))

-- A legacy frame whose length field says what its length is.
pub handle_legacy : Env → List ℕ → Session → Session
handle_legacy env p s =
    let sequence = word16 (get_or p 4 0) (get_or p 5 0) in
    if get_or p 3 0 == 1
    then (let (s', ok) = enter_control env sequence (drop 8 p) s in
        if ok then emit active_usb s' else s')
    else if get_or p 3 0 == 4
    then (if not (connected s)
        then s
        else if leb 1 sequence && leb sequence 10
        then record s { gap = sequence }
        else s)
    else if get_or p 3 0 == 8
    then (if connected s then exit env (send_legacy_echo 9 sequence [] s) else s)
    else s

pub dispatch : ℕ → Env → List ℕ → Session → Session
dispatch max_level env p s =
    if is_set_level p
    then (if connected s then set_log_level max_level (get_or p 4 0) (drop 5 p) s else s)
    else if is_legacy p
    then (let echo_len = word16 (get_or p 6 0) (get_or p 7 0) in
        if leb echo_len 256 && length p == 8 + echo_len then handle_legacy env p s else s)
    else if not (connected s)
    then s
    else emit (enqueue (is_realtime p) p) (emit active_usb s)

-- The body of the loop of `usb_consume_rx` for a whole frame.
pub handle_frame : ℕ → (ℕ → Env) → List ℕ → Session → Session
handle_frame max_level env p s =
    let e = env s.handled in
    dispatch max_level e p (record s { last_activity = e.now; handled = s.handled + 1 })

-- `usb_consume_rx`: buffer and session afterwards.
pub consume_rx : ℕ → (ℕ → Env) → List ℕ → Session → List ℕ × Session
consume_rx max_level env rx s = consume (handle_frame max_level env) rx s

-- The branch of `usb_rx_task` for a read without bytes: 25 s without a frame end the session.
pub idle : Env → Session → Session
idle env s = if connected s && leb 25000 (sub32 env.now s.last_activity) then exit env s else s
