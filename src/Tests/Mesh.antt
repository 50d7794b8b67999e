-- ===== src/Tests/Mesh.antt =====
-- The mesh tables on concrete packets.
use edge_device_esp.Base.{◌≡◌, ◌≢◌, ◌≤◌, refl, arith, true, false, List, [], ◌∷◌, replicate}
use edge_device_esp.Base.{none, All}
use edge_device_esp.Mesh.Seen.{Key, State, copies}
use edge_device_esp.Mesh.Seen.Laws.{
  lookup, dropped, on_record, better, worse, copies-dropped, drop_higher_hop_lem,
  drop_higher_hop-frame,
}
use edge_device_esp.Mesh.Seen.Laws as SeenLaws
use edge_device_esp.Mesh.Reliable.{Pending}
use edge_device_esp.Mesh.Reliable.Budget.{IsBounded, rounds, rounds_bounded}
use edge_device_esp.Mesh.Dedupe.{Entry, check_and_add}
use edge_device_esp.Mesh.Dedupe.Laws.{recorded, has_room, check_and_add-keeps}

abbrev key : Key
key = record { high = 1; low = 2; sequence = 3 }

abbrev other_key : Key
other_key = record { high = 1; low = 2; sequence = 4 }

abbrev seen : State
seen = record {
  table =
      record { valid = true; key = key; best_hop = 3 }
      ∷ replicate 31 (record { valid = false; key = key; best_hop = 0 });
  replace_index = 1;
}

seen-IsValid : SeenLaws.IsValid seen
seen-IsValid = record { size = refl; index = omega arith }

copies-dropped_example :
    copies key (4 ∷ 2 ∷ 3 ∷ 0 ∷ 5 ∷ 6 ∷ []) seen
    ≡ dropped (on_record (lookup key seen.table)) (4 ∷ 2 ∷ 3 ∷ 0 ∷ 5 ∷ 6 ∷ [])
copies-dropped_example = copies-dropped key (4 ∷ 2 ∷ 3 ∷ 0 ∷ 5 ∷ 6 ∷ []) seen-IsValid refl

seen_key : lookup key seen.table ≢ none
unfolding lookup
seen_key e = cc

abbrev pending : Pending
pending = record {
  valid = true;
  key = key;
  source = 10;
  target = 11;
  next_hop = 12;
  max_hop = 4;
  attempts = 1;
  last_send_ms = 100;
  ack_timeout_ms = 250;
  payload = 9 ∷ [];
}

-- A free entry, as the table of 24 starts.
abbrev free : Pending
free = record {
  valid = false;
  key = record { high = 0; low = 0; sequence = 0 };
  source = 0;
  target = 0;
  next_hop = 0;
  max_hop = 0;
  attempts = 0;
  last_send_ms = 0;
  ack_timeout_ms = 0;
  payload = [];
}

abbrev waiting : List Pending
waiting = pending ∷ record pending { key = other_key } ∷ replicate 22 free

waiting-IsBounded : All IsBounded waiting
waiting-IsBounded = ground arith

rounds_bounded_example : (rounds 255 (400 ∷ 700 ∷ 1000 ∷ []) waiting).1 ≤ 72
rounds_bounded_example =
    rounds_bounded 255 (400 ∷ 700 ∷ 1000 ∷ []) waiting waiting-IsBounded (omega arith)

abbrev deliveries : List Entry
deliveries =
    record { valid = true; checksum = 77; last_seen_ms = 100 }
    ∷ record { valid = false; checksum = 0; last_seen_ms = 0 }
    ∷ []

deliveries_room : has_room 200 deliveries ≡ true
unfolding has_room
deliveries_room = refl

check_and_add-keeps_example :
    recorded 77 200 (check_and_add 88 200 deliveries).0 ≡ recorded 77 200 deliveries
check_and_add-keeps_example = check_and_add-keeps 88 200 77 deliveries (omega arith) deliveries_room
