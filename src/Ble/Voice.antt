-- ===== src/Ble/Voice.antt =====
-- The voice channel of ble_control.c: `ble_control_handle_log_command` and the part of
-- `ble_control_gatt_access` for it. Log calls are those of Usb.Session, the calls towards the radio
-- those of Usb.Link.
use edge_device_esp.Base.{
  ℕ, ◌≤◌, ◌≡◌, refl, inl, inr, Bool, true, false, ◌||◌, not, ltb, leb, ◌==◌, if◌then◌else◌, List,
  [], ◌∷◌, ◌++◌, Option, none, some, length, drop, get_or, Bool-cases, arith,
}
use edge_device_esp.Base.EspErr.{EspErr, is_ok}
use edge_device_esp.Usb.Session.{Event, is_set_level, c_string}
use edge_device_esp.Usb.Link.{
  Call, Answers, Worker, voice_mark, speed_mark, is_marked, is_comms, process_payload,
}
use edge_device_esp.Usb.Link.Path.{voice_call, call_of, process_payload-calls}

-- The level is at most ESP_LOG_DEBUG, 4, over BLE.
abbrev pub capped : (max_level requested : ℕ) → ℕ
capped max_level requested =
    if ltb max_level (if ltb 4 requested then 4 else requested)
    then max_level
    else if ltb 4 requested
    then 4
    else requested

abbrev pub tag_of : List ℕ → List ℕ
tag_of tag_data = c_string (if length tag_data == 0 then b'*' ∷ [] else tag_data)

-- The answer to a level that was set, with the test records that follow; level 0 ends the stream.
abbrev pub apply_level : (level : ℕ) → (tag : List ℕ) → List Event
apply_level level tag =
    Event.log_level tag level
    ∷ Event.log_stream true
    ∷ Event.log_frame (b'L' ∷ b'G' ∷ 2 ∷ 3 ∷ level ∷ tag)
    ∷ (if level == 0 then Event.log_stream false else Event.log_test)
    ∷ []

-- `ble_control_handle_log_command` for a payload that is one.
unfoldable pub log_command : (max_level : ℕ) → List ℕ → List Event
log_command max_level p =
    if leb 64 (length (drop 5 p)) || ltb 5 (get_or p 4 0)
    then Event.log_frame (b'L' ∷ b'G' ∷ 2 ∷ 3 ∷ 0xff ∷ []) ∷ []
    else apply_level (capped max_level (get_or p 4 0)) (tag_of (drop 5 p))

-- The ATT result, the calls towards the radio, and the log calls.
abbrev pub Written : Type 0
Written = ℕ × List Call × List Event

abbrev pub att_code : EspErr → ℕ
att_code e = if is_ok e then 0 else 0x0e

abbrev pub write_voice : Answers → List ℕ → Written
write_voice answers realtime = (
  att_code (if is_comms realtime then answers.phone realtime else answers.voice realtime),
  voice_call realtime ∷ [],
  [],
)

-- What was written, of 1 to 512 bytes. `speed` is what `halow_sync_bridge_handle_speed_to_radio`
-- answers.
unfoldable pub voice_packet :
    (max_level : ℕ) → Answers → (speed : List ℕ → EspErr) → List ℕ → Written
voice_packet max_level answers speed p =
    if is_set_level p
    then (0, [], log_command max_level p)
    else if leb (length p) 3
    then (0x0d, [], [])
    else if is_marked voice_mark p
    then write_voice answers (drop 3 p)
    else if is_marked speed_mark p
    then (att_code (speed (drop 3 p)), Call.speed_to_radio (drop 3 p) ∷ [], [])
    else (0x0d, [], [])

-- A write to the channel; `flat` is `ble_hs_mbuf_to_flat` into a room of 512 bytes.
unfoldable pub voice_write :
    (secured is_write : Bool)
    → (max_level : ℕ) → Answers
    → (speed : List ℕ → EspErr) → (flat : ℕ → Option (List ℕ)) → Written
voice_write secured is_write max_level answers speed flat =
    if not secured
    then (0x05, [], [])
    else if not is_write
    then (0x0e, [], [])
    else elim (flat 512) [
      | none ↦ (0x0d, [], [])
      | some p ↦ if length p == 0 then (0x0d, [], []) else voice_packet max_level answers speed p
    ]

voice_packet-calls :
    (max_level : ℕ) (answers : Answers) (speed : List ℕ → EspErr) (p : List ℕ)
    → is_set_level p ≡ false
    → (is_marked voice_mark p || is_marked speed_mark p) ≡ true
    → (voice_packet max_level answers speed p).1 ≡ call_of p ∷ []
unfolding voice_packet
voice_packet-calls max_level answers speed p n m =
    let long : leb (length p) 3 ≡ false = ground arith in
    elim (Bool-cases (is_marked voice_mark p)) [
      | inl v ↦ rw (n, long, v) refl
      | inr v ↦ let s : is_marked speed_mark p ≡ true = ground arith in rw (n, long, v, s) refl
    ]

-- A voice or speed frame of at most 512 bytes that a secured phone writes over BLE makes the call that
-- the same bytes make when the host sends them over USB.
pub voice_write-process_payload :
    (max_level : ℕ) (answers : Answers) (speed : List ℕ → EspErr) (flat : ℕ → Option (List ℕ))
    (p : List ℕ) (depth : ℕ) (w : Worker)
    → flat 512 ≡ some p
    → length p ≤ 512
    → is_set_level p ≡ false
    → (is_marked voice_mark p || is_marked speed_mark p) ≡ true
    → (process_payload answers depth p w).calls
      ≡ w.calls ++ (voice_write true true max_level answers speed flat).1
unfolding voice_write
voice_write-process_payload max_level answers speed flat p depth w e l n m =
    let some' : (length p == 0) ≡ false = ground arith in
    rw (e, some', voice_packet-calls max_level answers speed p n m)
      (process_payload-calls answers depth p w l)
