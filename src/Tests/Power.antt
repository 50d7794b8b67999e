-- ===== src/Tests/Power.antt =====
-- Concrete runs of the power policy.
use edge_device_esp.Base.{◌≡◌, refl, true, false, [], ◌∷◌, arith}
use edge_device_esp.Mesh.Power.{
  DeviceType, Interface, Power, sleep_policy_enabled, uses_user_idle_sleep, note_ble_connected,
  round,
}
use edge_device_esp.Mesh.Power.Laws.{has_sleep, later, rounds, disconnected_sleeps}

abbrev connected_user : Power
connected_user = record {
  device_type = DeviceType.user;
  active_interface = Interface.ble;
  ble_enabled = true;
  ble_connected = true;
  usb_connected = false;
  shutdown_pending = false;
  shutdown_deadline_ms = 0;
  sleep_pending = false;
  sleep_deadline_ms = 0;
  halow_shutdown_pending = false;
  profile_reports = 0;
}

user_policy : sleep_policy_enabled connected_user ≡ true
unfolding uses_user_idle_sleep
user_policy = refl

disconnected_sleeps_example :
    (has_sleep
        (rounds 1000
          ((500, true) ∷ (59000, true) ∷ [])
          (note_ble_connected 1000 false connected_user)).1
      ≡ false)
    × (has_sleep
          (round
            (later 1000 61000)
            true
            (rounds 1000
              ((500, true) ∷ (59000, true) ∷ [])
              (note_ble_connected 1000 false connected_user)).0).1
        ≡ true)
disconnected_sleeps_example =
    disconnected_sleeps 1000 ((500, true) ∷ (59000, true) ∷ []) 61000 true connected_user
      (omega arith) (omega arith, (omega arith, tt)) (omega arith) (omega arith) refl user_policy
