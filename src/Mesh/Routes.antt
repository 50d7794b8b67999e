-- ===== src/Mesh/Routes.antt =====
-- Addresses and routes of main/src/mesh/halow_sync_bridge.c: the 48-bit addresses, the two lookups in
-- the BATMAN table, and the pins that keep a speed test on one route. The table itself belongs to the
-- routing library and is an argument, `lookup`.
pub mod Pins
use edge_device_esp.Base.{
  ℕ, ◌+◌, ◌-◌, ◌*◌, ◌%◌, ◌/◌, ◌^◌, Bool, true, false, ◌&&◌, ◌||◌, not, ltb, leb, ◌==◌,
  if◌then◌else◌, List, [], ◌∷◌, Option, none, some, set,
}
use edge_device_esp.Base.Words.{sub32}

-- `target &= 0xffffffffffff`.
abbrev pub mac_bits : ℕ → ℕ
mac_bits mac = mac % 2 ^ 48

abbrev pub mac_is_broadcast : ℕ → Bool
mac_is_broadcast mac = mac_bits mac == 0xffffffffffff

abbrev pub mac_is_zero : ℕ → Bool
mac_is_zero mac = mac_bits mac == 0

-- What `halow_lookup_route` answers: the next hop as an address of 48 bits, the number of links,
-- the link quality and the age of the route.
pub record Route : Type 0 where
  pub next_hop : ℕ
  pub hops : ℕ
  pub tq : ℕ
  pub age_ms : ℕ

unfoldable pub batman_route_lookup : (ℕ → Option Route) → ℕ → Option ℕ
batman_route_lookup lookup target =
    if mac_is_zero target || mac_is_broadcast target
    then none
    else elim (lookup (mac_bits target)) [
      | none ↦ none
      | some route ↦ if route.next_hop == 0 then none else some route.next_hop
    ]

-- With the hop count of the speed policy, in which a direct neighbour is 0 hops away.
unfoldable pub batman_route_lookup_hop : (ℕ → Option Route) → ℕ → Option (ℕ × ℕ)
batman_route_lookup_hop lookup target =
    if mac_is_zero target || mac_is_broadcast target
    then none
    else elim (lookup (mac_bits target)) [
      | none ↦ none
      | some route ↦
          if route.hops == 0 || route.next_hop == 0
          then none
          else some (route.next_hop, (route.hops - 1) % 256)
    ]

-- `uint64_t next_hop = target; (void)batman_route_lookup(target, &next_hop);`
abbrev pub next_hop_or : (ℕ → Option Route) → (target otherwise : ℕ) → ℕ
next_hop_or lookup target otherwise = elim (batman_route_lookup lookup target) [
  | none ↦ otherwise
  | some hop ↦ hop
]

-- What a pin is for.
pub record PinKey : Type 0 where
  pub source : ℕ
  pub target : ℕ
  pub transfer_id : ℕ
  pub requested_hops : ℕ
  pub completed_hop : ℕ

-- `edgez_speed_route_pin_t`.
pub record Pin : Type 0 where
  pub valid : Bool
  pub key : PinKey
  pub next_hop : ℕ
  pub last_used_ms : ℕ

-- EDGEZ_SPEED_ROUTE_PIN_TTL_MS.
abbrev pub pin_ttl_ms : ℕ
pin_ttl_ms = 90000

abbrev pub same_pin : PinKey → PinKey → Bool
same_pin a b =
    a.source == b.source
    && a.target == b.target
    && a.transfer_id == b.transfer_id
    && a.requested_hops == b.requested_hops
    && a.completed_hop == b.completed_hop

abbrev pub expire : ℕ → Pin → Pin
expire now pin =
    if pin.valid && leb pin_ttl_ms (sub32 now pin.last_used_ms)
    then record pin { valid = false }
    else pin

abbrev pub hit : PinKey → Pin → Bool
hit key pin = pin.valid && same_pin pin.key key

-- The loop drops the pins that are too old until it finds the one asked for.
unfoldable pub pin_get : (now : ℕ) → PinKey → List Pin → Option ℕ × List Pin
pin_get now key [] = (none, [])
pin_get now key (pin ∷ pins) =
    let rest = pin_get now key pins in
    if hit key (expire now pin)
    then (some pin.next_hop, record pin { last_used_ms = now } ∷ pins)
    else (rest.0, expire now pin ∷ rest.1)

-- The slot of a new pin: the first that is free or has the same key, else the oldest. `slot` and
-- `oldest_age` are what the loop has found so far.
unfoldable pub pin_slot : (now : ℕ) → PinKey → List Pin → (i slot oldest_age : ℕ) → ℕ
pin_slot now key [] i slot oldest_age = slot
pin_slot now key (pin ∷ pins) i slot oldest_age =
    let further =
      if leb oldest_age (sub32 now pin.last_used_ms)
      then pin_slot now key pins (i + 1) i (sub32 now pin.last_used_ms)
      else pin_slot now key pins (i + 1) slot oldest_age in
    if not pin.valid || same_pin pin.key key then i else further

unfoldable pub pin_put : (now : ℕ) → PinKey → (next_hop : ℕ) → List Pin → List Pin
pin_put now key next_hop pins =
    set pins (pin_slot now key pins 0 0 0)
      (record { valid = true; key = key; next_hop = next_hop; last_used_ms = now })

-- What the two-hop policy asks the platform: the route table and a direct peer other than three
-- addresses (`halow_select_direct_peer`, by a key).
pub record Peers : Type 0 where
  pub lookup : ℕ → Option Route
  pub select_direct_peer : (a b c key : ℕ) → Option ℕ

abbrev pub random_direct_peer : Peers → (a b c key : ℕ) → Option ℕ
random_direct_peer peers a b c key =
    peers.select_direct_peer (mac_bits a) (mac_bits b) (mac_bits c) key

abbrev pub waypoint_key : (target source transfer_id : ℕ) → PinKey
waypoint_key target source transfer_id = record {
  source = source;
  target = target;
  transfer_id = transfer_id;
  requested_hops = 2;
  completed_hop = 0;
}

-- The waypoint without a pin: the first hop of a route of two links, or another direct peer when
-- the target is a neighbour.
abbrev pub fresh_waypoint : Peers → (target source transfer_id : ℕ) → Option ℕ
fresh_waypoint peers target source transfer_id =
    elim (batman_route_lookup_hop peers.lookup target) [
      | none ↦ none
      | some route ↦
          if route.1 == 1
          then some route.0
          else if route.1 == 0
          then random_direct_peer peers target source 0 transfer_id
          else none
    ]

abbrev pub settle_waypoint :
    (now : ℕ) → PinKey → Option ℕ → Option ℕ → List Pin → Option ℕ × List Pin
settle_waypoint now key (some pinned) fresh pins = (some pinned, pins)
settle_waypoint now key none none pins = (none, pins)
settle_waypoint now key none (some waypoint) pins = (some waypoint, pin_put now key waypoint pins)

unfoldable pub two_hop_waypoint :
    Peers → (now target source transfer_id : ℕ) → List Pin → Option ℕ × List Pin
two_hop_waypoint peers now target source transfer_id pins =
    let key = waypoint_key target source transfer_id in
    let found = pin_get now key pins in
    settle_waypoint now key found.0 (fresh_waypoint peers target source transfer_id) found.1
