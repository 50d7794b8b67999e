-- ===== src/Tests/Radio.antt =====
-- Concrete runs of the route pins, of the transmit queue and of the frames from the phone.
use edge_device_esp.Base.{
  ℕ, zero, suc, ◌+◌, ◌<◌, ◌≡◌, refl, true, false, List, [], ◌∷◌, none, some, replicate, All, arith,
}
use edge_device_esp.Base.EspErr.{EspErr}
use edge_device_esp.Mesh.Routes.{Peers, Pin, two_hop_waypoint, batman_route_lookup_hop, pin_get}
use edge_device_esp.Mesh.Routes.Pins.{frames, two_hop_waypoint-frames}
use edge_device_esp.Mesh.Realtime.{Item, Realtime, retryable}
use edge_device_esp.Mesh.Realtime.Order.{Event}
use edge_device_esp.Mesh.Speech.{Platform}
use edge_device_esp.Mesh.Speech.Laws.{}

abbrev no_pin : Pin
no_pin = record {
  valid = false;
  key = record { source = 0; target = 0; transfer_id = 0; requested_hops = 0; completed_hop = 0 };
  next_hop = 0;
  last_used_ms = 0;
}

-- A route of two links by way of 9, and one by way of 8.
abbrev by_nine : Peers
by_nine = record {
  lookup = λ target. some (record { next_hop = 9; hops = 2; tq = 200; age_ms = 10 });
  select_direct_peer = λ a b c key. none;
}

abbrev by_eight : Peers
by_eight = record {
  lookup = λ target. some (record { next_hop = 8; hops = 2; tq = 200; age_ms = 10 });
  select_direct_peer = λ a b c key. none;
}

first_waypoint : (two_hop_waypoint by_nine 100 5 6 7 (no_pin ∷ [])).0 ≡ some 9
unfolding two_hop_waypoint pin_get batman_route_lookup_hop
first_waypoint = refl

two_hop_waypoint-frames_example :
    All
      (λ r. r ≡ some 9)
      (frames
        ((by_eight, 500) ∷ (by_eight, 80000) ∷ [])
        100
        5
        6
        7
        (two_hop_waypoint by_nine 100 5 6 7 (no_pin ∷ [])).1)
two_hop_waypoint-frames_example =
    two_hop_waypoint-frames by_nine ((by_eight, 500) ∷ (by_eight, 80000) ∷ []) 100 5 6 7 9
      (no_pin ∷ []) (omega arith) (omega arith) (omega arith, (omega arith, tt)) first_waypoint

abbrev voice : ℕ → Item
voice n = record {
  payload = 0x56 ∷ n ∷ [];
  from = 5;
  to = 6;
  next_hop = 9;
  message_id_high = 1;
  message_id_low = n;
  max_hop = 3;
  sequence = n;
  forward_from_mobile = false;
  mobile_initial_hop = 0;
}

abbrev waiting : Realtime
waiting = record {
  created = true;
  queue = voice 1 ∷ voice 2 ∷ voice 3 ∷ voice 4 ∷ [];
  paths = replicate 4 (record { valid = false; target = 0; sampled_ms = 0; limit = 4 });
  replace_index = 0;
  drops = 0;
  send_failures = 0;
}

abbrev history : List Event
history =
    Event.enqueues (λ target. none) 100 (voice 5)
    ∷ Event.transmits (λ n. EspErr.ok)
    ∷ Event.enqueues (λ target. none) 120 (voice 6)
    ∷ []

abbrev second_time : ℕ → EspErr
second_time zero = EspErr.timeout
second_time (suc zero) = EspErr.timeout
second_time (suc (suc n)) = EspErr.ok

first_times : (j : ℕ) → j < 1 → retryable false (second_time (j + 1)) ≡ true
first_times zero h = refl
first_times (suc j) h = absurd (omega arith)

abbrev platform : Platform
platform = record { self_mac = some 5; id_high = 1; id_low = 2; peers = by_nine; now_ms = 100 }

abbrev sound : List ℕ
sound = replicate 20 9
