-- ===== src/Mesh/Power/Laws.antt =====
-- When the device sleeps, and when it does not.
use edge_device_esp.Base.{
  ℕ, ◌+◌, ◌%◌, ◌^◌, ◌≤◌, ◌<◌, ◌≡◌, refl, ◌∙◌, Bool, true, false, ◌&&◌, ◌||◌, not, leb, List, [],
  ◌∷◌, ◌++◌, All, arith,
}
use edge_device_esp.Base.Words.{IsU32}
use edge_device_esp.Mesh.Power.{
  Power, Act, user_sleep_window_ms, has_connected_interface, sleep_policy_enabled, cancel_all,
  disconnect_policy, note_ble_connected, note_usb_connected, is_reached, round,
}

pub has_sleep : List Act → Bool
has_sleep [] = false
has_sleep (Act.sleeps ∷ acts) = true
has_sleep (act ∷ acts) = has_sleep acts

-- A round puts the device to sleep exactly when no interface is connected, a sleep is pending, the
-- kind of device allows it and its deadline is reached.
pub round_sleeps :
    (now : ℕ) (off : Bool) (s : Power)
    → has_sleep (round now off s).1 ≡ (
        not (has_connected_interface s)
        && s.sleep_pending
        && sleep_policy_enabled s
        && is_reached now s.sleep_deadline_ms)
unfolding round has_sleep
round_sleeps now off s = ground arith

-- The clock `d` milliseconds later; it goes round at 2^32.
abbrev pub later : ℕ → ℕ → ℕ
later now d = (now + d) % 2 ^ 32

-- A device of a user that is asleep-bound: nothing is connected, and the deadline stands.
pub IsWaiting : ℕ → Power → Type 0
IsWaiting deadline s =
    (has_connected_interface s ≡ false)
    × (sleep_policy_enabled s ≡ true)
    × (s.sleep_pending ≡ true)
    × (s.sleep_deadline_ms ≡ deadline)

reached_later :
    (now d window : ℕ)
    → IsU32 now
    → d < 2 ^ 31
    → window < 2 ^ 31
    → is_reached (later now d) (later now window) ≡ leb window d
reached_later now d window u h k = ground arith

-- A round before the deadline leaves the device waiting and awake.
round_early :
    (now : ℕ) (off : Bool) (deadline : ℕ) (s : Power)
    → IsWaiting deadline s
    → is_reached now deadline ≡ false
    → IsWaiting deadline (round now off s).0 × (has_sleep (round now off s).1 ≡ false)
unfolding round IsWaiting has_sleep
round_early now off deadline s (c, p, e, d) h = ground arith

round_due :
    (now : ℕ) (off : Bool) (deadline : ℕ) (s : Power)
    → IsWaiting deadline s
    → is_reached now deadline ≡ true
    → has_sleep (round now off s).1 ≡ true
unfolding IsWaiting
round_due now off deadline s (c, p, e, d) h = rw (round_sleeps now off s) (ground arith)

disconnected-IsWaiting :
    (now : ℕ) (s : Power)
    → s.usb_connected ≡ false
    → sleep_policy_enabled s ≡ true
    → IsWaiting (later now user_sleep_window_ms) (note_ble_connected now false s)
unfolding note_ble_connected disconnect_policy IsWaiting
disconnected-IsWaiting now s u p = ground arith

-- Rounds of the task, each some milliseconds after the connection was lost, and what they do.
unfoldable pub rounds : (now : ℕ) → List (ℕ × Bool) → Power → Power × List Act
rounds now [] s = (s, [])
rounds now ((d, off) ∷ ds) s =
    let step = round (later now d) off s in
    let rest = rounds now ds step.0 in (rest.0, step.1 ++ rest.1)

abbrev pub IsEarly : ℕ × Bool → Type 0
IsEarly (d, off) = d < user_sleep_window_ms

has_sleep-append : (xs ys : List Act) → has_sleep (xs ++ ys) ≡ (has_sleep xs || has_sleep ys)
unfolding has_sleep
has_sleep-append [] ys = refl
has_sleep-append (Act.sleeps ∷ xs) ys = refl
has_sleep-append (Act.unloads_halow ∷ xs) ys = has_sleep-append xs ys
has_sleep-append (Act.disables_ble ∷ xs) ys = has_sleep-append xs ys
has_sleep-append (Act.prepares_led ∷ xs) ys = has_sleep-append xs ys
has_sleep-append (Act.prepares_network ∷ xs) ys = has_sleep-append xs ys

rounds_early :
    (now : ℕ) (ds : List (ℕ × Bool)) (s : Power)
    → IsU32 now
    → All IsEarly ds
    → IsWaiting (later now user_sleep_window_ms) s
    → IsWaiting (later now user_sleep_window_ms) (rounds now ds s).0
      × (has_sleep (rounds now ds s).1 ≡ false)
unfolding rounds has_sleep
rounds_early now [] s u a w = (w, refl)
rounds_early now ((d, off) ∷ ds) s u (h, hs) w =
    let early : is_reached (later now d) (later now user_sleep_window_ms) ≡ false =
      reached_later now d user_sleep_window_ms u (omega arith) (omega arith) ∙ ground arith in
    let (w', quiet) = round_early (later now d) off (later now user_sleep_window_ms) s w early in
    let (w2, quiet2) = rounds_early now ds (round (later now d) off s).0 u hs w' in
    (
      w2,
      has_sleep-append (round (later now d) off s).1 (rounds now ds (round (later now d) off s).0).1
          ∙ rw (quiet, quiet2) refl,
    )

-- After BLE is lost on a device of a user, with no USB connection: no round in the first minute puts
-- it to sleep, however many there are, and as nothing connects, the first round after that minute
-- does.
pub disconnected_sleeps :
    (now : ℕ) (ds : List (ℕ × Bool)) (d : ℕ) (off : Bool) (s : Power)
    → IsU32 now
    → All IsEarly ds
    → user_sleep_window_ms ≤ d
    → d < 2 ^ 31
    → s.usb_connected ≡ false
    → sleep_policy_enabled s ≡ true
    → (has_sleep (rounds now ds (note_ble_connected now false s)).1 ≡ false)
      × (has_sleep (round (later now d) off (rounds now ds (note_ble_connected now false s)).0).1
          ≡ true)
disconnected_sleeps now ds d off s u a h k no_usb policy =
    let w = disconnected-IsWaiting now s no_usb policy in
    let (w', quiet) = rounds_early now ds (note_ble_connected now false s) u a w in
    (
      quiet,
      round_due (later now d) off (later now user_sleep_window_ms) _ w'
          (reached_later now d user_sleep_window_ms u k (omega arith) ∙ ground arith),
    )

connected_round :
    (now : ℕ) (off : Bool) (s : Power)
    → has_connected_interface s ≡ true
    → round now off s ≡ (cancel_all s, [])
unfolding round
connected_round now off s h = rw h refl

connected_rounds :
    (now : ℕ) (ds : List (ℕ × Bool)) (s : Power)
    → has_connected_interface s ≡ true
    → (rounds now ds s).1 ≡ []
unfolding rounds
connected_rounds now [] s h = refl
connected_rounds now ((d, off) ∷ ds) s h =
    rw (connected_round (later now d) off s h) (connected_rounds now ds (cancel_all s) h)

-- While BLE or USB is connected, no round does anything: no sleep, no end of BLE or HaLow, whatever
-- was pending before the connection.
pub connected_stays :
    (now : ℕ) (ds : List (ℕ × Bool)) (s : Power)
    → ((rounds now ds (note_ble_connected now true s)).1 ≡ [])
      × ((rounds now ds (note_usb_connected now true s)).1 ≡ [])
unfolding note_ble_connected note_usb_connected
connected_stays now ds s =
    (connected_rounds now ds _ refl, connected_rounds now ds _ (ground arith))
