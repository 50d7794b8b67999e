-- ===== src/Mesh/Power.antt =====
-- The power policy of main/src/mesh/halow_sync_bridge.c: what the kind of device allows, the deadlines
-- that a lost connection sets, and a round of `device_mode_ble_shutdown_task`. The clock and the state
-- of BLE and USB are the platform's; the state of BLE is kept here since the task switches BLE off.
pub mod Laws
use edge_device_esp.Base.{
  ℕ, ◌+◌, ◌-◌, ◌*◌, ◌%◌, ◌^◌, ◌<◌, Bool, true, false, ◌&&◌, ◌||◌, not, ltb, leb, if◌then◌else◌,
  List, [], ◌∷◌, ◌++◌,
}
use edge_device_esp.Base.Words.{sub32}

-- `ai_edgez_halow_DeviceType`; `other` is any value outside the enumeration.
pub data DeviceType : Type 0 where
  unspecified : DeviceType
  unknown : DeviceType
  user : DeviceType
  beacon : DeviceType
  sensor : DeviceType
  relay : DeviceType
  other : DeviceType

pub is_device_profile : DeviceType → Bool
is_device_profile DeviceType.beacon = true
is_device_profile DeviceType.sensor = true
is_device_profile t = false

pub is_autonomous : DeviceType → Bool
is_autonomous DeviceType.beacon = true
is_autonomous DeviceType.sensor = true
is_autonomous DeviceType.relay = true
is_autonomous t = false

unfoldable pub normalize : DeviceType → (legacy_device_mode : Bool) → DeviceType
normalize DeviceType.user legacy = DeviceType.user
normalize DeviceType.beacon legacy = DeviceType.beacon
normalize DeviceType.sensor legacy = DeviceType.sensor
normalize DeviceType.relay legacy = DeviceType.relay
normalize t legacy = if legacy then DeviceType.beacon else DeviceType.user

unfoldable pub uses_user_idle_sleep : DeviceType → Bool
uses_user_idle_sleep DeviceType.unspecified = true
uses_user_idle_sleep DeviceType.unknown = true
uses_user_idle_sleep DeviceType.user = true
uses_user_idle_sleep t = false

pub uses_status_led : DeviceType → Bool
uses_status_led DeviceType.beacon = false
uses_status_led DeviceType.sensor = false
uses_status_led t = true

-- `halow_sync_active_interface_t`.
pub data Interface : Type 0 where
  no_interface : Interface
  ble : Interface
  usb : Interface

-- The variables under `s_ble_shutdown_lock`, the active interface, the kind of device, and what the
-- platform says of BLE and USB.
pub record Power : Type 0 where
  pub device_type : DeviceType
  pub active_interface : Interface
  pub ble_enabled : Bool
  pub ble_connected : Bool
  pub usb_connected : Bool
  pub shutdown_pending : Bool
  pub shutdown_deadline_ms : ℕ
  pub sleep_pending : Bool
  pub sleep_deadline_ms : ℕ
  pub halow_shutdown_pending : Bool
  pub profile_reports : ℕ

-- What the policy has the platform do.
pub data Act : Type 0 where
  unloads_halow : Act
  disables_ble : Act
  prepares_led : Act
  prepares_network : Act
  sleeps : Act

-- BLE_DISCONNECTED_WINDOW_MS, DEVICE_DEEP_SLEEP_WINDOW_MS, USER_DISCONNECT_DEEP_SLEEP_WINDOW_MS.
abbrev pub ble_window_ms : ℕ
ble_window_ms = 120000

abbrev pub sleep_window_ms : ℕ
sleep_window_ms = 180000

abbrev pub user_sleep_window_ms : ℕ
user_sleep_window_ms = 60000

-- `bridge_has_connected_interface` and `device_sleep_policy_enabled`.
abbrev pub has_connected_interface : Power → Bool
has_connected_interface s = s.ble_connected || s.usb_connected

abbrev pub sleep_policy_enabled : Power → Bool
sleep_policy_enabled s = uses_user_idle_sleep s.device_type

abbrev pub cancel_shutdown : Power → Power
cancel_shutdown s = record s { shutdown_pending = false; shutdown_deadline_ms = 0 }

abbrev pub cancel_sleep : Power → Power
cancel_sleep s = record s { sleep_pending = false; sleep_deadline_ms = 0 }

abbrev pub schedule_shutdown : (now delay : ℕ) → Power → Power
schedule_shutdown now delay s =
    if not s.ble_enabled || has_connected_interface s
    then cancel_shutdown s
    else record s { shutdown_deadline_ms = (now + delay) % 2 ^ 32; shutdown_pending = true }

abbrev pub schedule_sleep : (now delay : ℕ) → Power → Power
schedule_sleep now delay s =
    if not (sleep_policy_enabled s) || has_connected_interface s
    then cancel_sleep s
    else record s { sleep_deadline_ms = (now + delay) % 2 ^ 32; sleep_pending = true }

-- `ble_disconnect_power_policy_schedule`.
unfoldable pub disconnect_policy : (now : ℕ) → Power → Power
disconnect_policy now s =
    let delay =
      if uses_user_idle_sleep s.device_type then user_sleep_window_ms else sleep_window_ms in
    let scheduled : Power = schedule_sleep now delay (schedule_shutdown now ble_window_ms s) in
    if uses_user_idle_sleep s.device_type
    then record scheduled { halow_shutdown_pending = true }
    else scheduled

-- `boot_power_policy_schedule`; the time since the start counts.
unfoldable pub boot_policy : (uptime : ℕ) → Power → Power
boot_policy uptime s =
    schedule_sleep uptime (if ltb uptime sleep_window_ms then sleep_window_ms - uptime else 0)
      (schedule_shutdown uptime (if ltb uptime ble_window_ms then ble_window_ms - uptime else 0) s)

abbrev pub cancel_all : Power → Power
cancel_all s = record (cancel_sleep (cancel_shutdown s)) { halow_shutdown_pending = false }

abbrev pub leave : Interface → Interface → Interface
leave Interface.ble Interface.ble = Interface.no_interface
leave Interface.usb Interface.usb = Interface.no_interface
leave gone i = i

abbrev pub when_idle : (now : ℕ) → Power → Power
when_idle now s = if has_connected_interface s then s else disconnect_policy now s

-- `halow_sync_bridge_note_ble_connected`, with the platform's state as it is by then.
unfoldable pub note_ble_connected : (now : ℕ) → Bool → Power → Power
note_ble_connected now true s =
    cancel_all
      (record s { ble_connected = true; active_interface = Interface.ble; profile_reports = 3 })
note_ble_connected now false s = when_idle now (record s {
  ble_connected = false;
  active_interface = leave Interface.ble s.active_interface;
  profile_reports = 0;
})

-- `halow_sync_bridge_note_usb_connected`.
unfoldable pub note_usb_connected : (now : ℕ) → Bool → Power → Power
note_usb_connected now true s = cancel_all (record s {
  usb_connected = true;
  active_interface = if s.ble_connected then s.active_interface else Interface.usb;
})
note_usb_connected now false s =
    when_idle now (record s {
      usb_connected = false;
      active_interface = leave Interface.usb s.active_interface;
    })

-- `(int32_t)(now_ms - deadline_ms) >= 0`.
abbrev pub is_reached : (now deadline : ℕ) → Bool
is_reached now deadline = ltb (sub32 now deadline) (2 ^ 31)

abbrev pub unload_halow : Power → Power × List Act
unload_halow s =
    if s.halow_shutdown_pending && sleep_policy_enabled s
    then (record s { halow_shutdown_pending = false }, unloads_halow ∷ [])
    else (s, [])

-- BLE is off after the call, or as it was when the call fails: `off` is the platform's answer.
abbrev pub disable_ble : (off : Bool) → Power → Power
disable_ble off s = record s { ble_enabled = s.ble_enabled && not off }

abbrev pub shut_ble : (now : ℕ) (off : Bool) → Power → Power × List Act
shut_ble now off s =
    if s.shutdown_pending && is_reached now s.shutdown_deadline_ms
    then (disable_ble off (cancel_shutdown s), disables_ble ∷ [])
    else (s, [])

-- The end of a round; behind `sleeps` the device starts anew.
abbrev pub go_to_sleep : Power → Power × List Act
go_to_sleep s = (
  cancel_sleep (cancel_shutdown s),
  prepares_led
      ∷ ((if s.ble_enabled then disables_ble ∷ [] else []) ++ (prepares_network ∷ sleeps ∷ [])),
)

abbrev pub sleep_when_due : (now : ℕ) → Power → Power × List Act
sleep_when_due now s =
    if not s.sleep_pending
    then (s, [])
    else if not (sleep_policy_enabled s)
    then (cancel_sleep s, [])
    else if not (is_reached now s.sleep_deadline_ms)
    then (s, [])
    else go_to_sleep s

-- One round of `device_mode_ble_shutdown_task`.
unfoldable pub round : (now : ℕ) (off : Bool) → Power → Power × List Act
round now off s =
    let first = unload_halow s in
    let second = shut_ble now off first.0 in
    let third = sleep_when_due now second.0 in
    if has_connected_interface s
    then (cancel_all s, [])
    else (third.0, first.1 ++ (second.1 ++ third.1))
