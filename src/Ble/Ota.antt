-- ===== src/Ble/Ota.antt =====
-- The firmware update over BLE, `ble_control_process_ota_write` of ble_control.c, as a state
-- machine. The OTA library, the GATT stack and the RTOS are outside: their answers to one packet
-- are an `Answers`, the calls with an effect are a trace.
pub mod Laws
use edge_device_esp.Base.{
  ℕ, ◌+◌, ◌-◌, Bool, true, false, ◌&&◌, ◌||◌, not, ltb, leb, ◌==◌, if◌then◌else◌,
}
use edge_device_esp.Base.{List, [], ◌∷◌, ◌++◌, length, drop, get_or, Option, none, some}
use edge_device_esp.Base.Words.{word32, le32_bytes, sub32}

pub data Call : Type 0 where
  -- `esp_ota_begin` with its size argument, if it succeeds
  begin : ℕ → Call
  -- `esp_ota_write`, if it succeeds
  write : List ℕ → Call
  -- `esp_ota_abort`
  abort : Call
  -- `esp_ota_set_boot_partition`, if it succeeds
  set_boot : Call
  -- a status notification of 5 bytes that reaches `ble_gatts_notify_custom`
  notify : ℕ → ℕ → Call
  -- the restart task is created
  restart : Call

-- `s_ble_ota_handle` (is it 0?), `s_ble_ota_expected_size`, `s_ble_ota_received_size`, and whether a
-- secured connection with a status characteristic is there. The partition that is written belongs
-- to the handle.
pub record Ota : Type 0 where
  pub opened : Bool
  pub expected : ℕ
  pub received : ℕ
  pub can_notify : Bool
  pub trace : List Call

-- What the platform answers while one packet is handled. Error codes are `uint32_t`, 0 is ESP_OK.
-- `partition` is the size of the next update partition, if there is one.
pub record Answers : Type 0 where
  pub partition : Option ℕ
  pub begin_err : ℕ
  pub write_err : ℕ
  pub end_err : ℕ
  pub boot_err : ℕ

abbrev pub call : Call → Ota → Ota
call c o = record o { trace = o.trace ++ (c ∷ []) }

-- `ble_control_ota_notify`.
abbrev pub send_status : ℕ → ℕ → Ota → Ota
send_status status value o = if o.can_notify then call (notify status value) o else o

-- `ble_control_ota_reset`.
abbrev pub reset : Bool → Ota → Ota
reset abort_update o =
    let o' = if abort_update && o.opened then call abort o else o in
    record o' { opened = false; expected = 0; received = 0 }

-- The end of the function, for every command that failed.
abbrev pub fail : ℕ → Ota → Ota × ℕ
fail err o = (reset true (send_status 2 err o), 0x0e)

-- BLE_OTA_BEGIN, with a partition of `capacity` bytes.
pub begin_in : Answers → ℕ → ℕ → Ota → Ota × ℕ
begin_in a size capacity o =
    if size == 0 || ltb capacity size
    then fail 0x104 o
    else if a.begin_err == 0
    then (
      send_status 1 size (record (call (begin size) (reset true o)) {
        opened = true;
        expected = size;
        received = 0;
      }),
      0,
    )
    else fail a.begin_err (reset true o)

pub begin_with : Answers → ℕ → Option ℕ → Ota → Ota × ℕ
begin_with a size none o = fail 0x104 o
begin_with a size (some capacity) o = begin_in a size capacity o

pub begin_update : Answers → List ℕ → Ota → Ota × ℕ
begin_update a packet o =
    let size =
      word32 (get_or packet 1 0) (get_or packet 2 0) (get_or packet 3 0) (get_or packet 4 0) in
    if length packet == 5 then begin_with a size a.partition o else fail 0x102 o

-- BLE_OTA_DATA.
pub data_update : Answers → List ℕ → Ota → Ota × ℕ
data_update a packet o =
    let offset =
      word32 (get_or packet 1 0) (get_or packet 2 0) (get_or packet 3 0) (get_or packet 4 0) in
    let block = drop 5 packet in
    if leb (length packet) 5 || not o.opened
    then fail 0x103 o
    else if not (offset == o.received) || ltb (sub32 o.expected o.received) (length block)
    then fail 0x102 o
    else if a.write_err == 0
    then (record (call (write block) o) { received = o.received + length block }, 0)
    else fail a.write_err o

-- BLE_OTA_END.
pub end_update : Answers → List ℕ → Ota → Ota × ℕ
end_update a packet o =
    if not (length packet == 1) || not o.opened || not (o.received == o.expected)
    then fail 0x103 o
    else if not (a.end_err == 0)
    then fail a.end_err o
    else if not (a.boot_err == 0)
    then fail a.boot_err o
    else (call restart (send_status 3 o.received (reset false (call set_boot o))), 0)

-- The whole function: `none` for a packet that could not be copied out (`rc != 0`).
pub process : Answers → Option (List ℕ) → Ota → Ota × ℕ
process a none o = (send_status 2 0x102 o, 0x0d)
process a (some []) o = (send_status 2 0x102 o, 0x0d)
process a (some (command ∷ rest)) o =
    let packet = command ∷ rest in
    if command == 1
    then begin_update a packet o
    else if command == 2
    then data_update a packet o
    else if command == 3
    then end_update a packet o
    else if command == 4
    then (send_status 4 0 (reset true o), 0)
    else fail 0x106 o

-- Packets one after the other, each with the platform's answers to it.
pub run : List (Answers × Option (List ℕ)) → Ota → Ota
run [] o = o
run ((a, packet) ∷ rest) o = run rest (process a packet o).0
