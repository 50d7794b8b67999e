-- ===== src/Mesh/Topology.antt =====
-- The topology peers of main/src/mesh/halow_sync_bridge.c: the table of the radios this one has heard
-- or is connected to, and the peers of a report. A `float` is its IEEE 754 bit pattern. What the radio
-- says of its authorized peers is an argument.
pub mod Table
pub mod Report
pub mod Noted
use edge_device_esp.Base.{
  ℕ, ◌+◌, ◌-◌, ◌*◌, ◌^◌, ◌%◌, zero, suc, Bool, true, false, ◌&&◌, ◌||◌, not, ltb, leb, ◌==◌,
  if◌then◌else◌, List, [], ◌∷◌, ◌++◌, Option, none, some, length,
}
use edge_device_esp.Base.Int.{ℤ, pos, negsuc}
use edge_device_esp.Base.Words.{sub32}
use edge_device_esp.Mesh.Routes.{mac_bits, mac_is_zero, mac_is_broadcast}
use edge_device_esp.Mesh.Dedupe.{first}

-- `ai_edgez_halow_SensorData`, and its `which_value` with the value.
pub data Value : Type 0 where
  bool_value : Bool → Value
  int_value : ℤ → Value
  float_value : ℕ → Value

pub record SensorData : Type 0 where
  pub kind : ℕ
  pub value : Value

-- `edgez_topology_peer_t`.
pub record Peer : Type 0 where
  pub valid : Bool
  pub heard_beacon : Bool
  pub connected : Bool
  pub peer_id : ℕ
  pub encoded_rssi : ℕ
  pub last_seen_ms : ℕ
  pub beacon_last_seen_ms : ℕ
  pub connected_last_seen_ms : ℕ
  pub sensor_data : List SensorData

-- What `memset` leaves.
abbrev pub no_peer : Peer
no_peer = record {
  valid = false;
  heard_beacon = false;
  connected = false;
  peer_id = 0;
  encoded_rssi = 0;
  last_seen_ms = 0;
  beacon_last_seen_ms = 0;
  connected_last_seen_ms = 0;
  sensor_data = [];
}

-- `topology_encode_rssi`, of an `int32_t`; EDGEZ_TOPOLOGY_RSSI_OFFSET is 1000.
abbrev pub encode_rssi : ℤ → ℕ
encode_rssi (pos n) = if n == 0 then 999 else 1000
encode_rssi (negsuc n) = if ltb (n + 1) 1000 then 1000 - (n + 1) else 1000

-- `rssi_dbm <= 0 && rssi_dbm > -EDGEZ_TOPOLOGY_RSSI_OFFSET`.
abbrev pub is_measured : ℤ → Bool
is_measured (pos n) = n == 0
is_measured (negsuc n) = ltb (n + 1) 1000

-- INT32_MIN, for an unknown signal.
abbrev pub int32_min : ℤ
int32_min = negsuc 2147483647

abbrev pub is_peer : ℕ → Peer → Bool
is_peer id p = p.valid && p.peer_id == id

-- The slot of a peer: its own, else the first free one, else the one seen least recently.
unfoldable pub find_slot : ℕ → List Peer → (i : ℕ) → Option ℕ → (oldest_seen oldest_slot : ℕ) → ℕ
find_slot id [] i none oldest_seen oldest_slot = oldest_slot
find_slot id [] i (some slot) oldest_seen oldest_slot = slot
find_slot id (p ∷ ps) i slot oldest_seen oldest_slot =
    let older = ltb p.last_seen_ms oldest_seen in
    let further =
      find_slot id ps (i + 1) (first (not p.valid) i slot)
        (if older then p.last_seen_ms else oldest_seen) (if older then i else oldest_slot) in
    if is_peer id p then i else further

-- The slot's entry after the note; an entry of another peer is cleared first.
abbrev pub noted : (now id : ℕ) → ℤ → (heard_beacon connected : Bool) → Peer → Peer
noted now id rssi heard_beacon connected p =
    let old = if is_peer id p then p else no_peer in
    record old {
      valid = true;
      heard_beacon = old.heard_beacon || heard_beacon;
      connected = old.connected || connected;
      peer_id = id;
      encoded_rssi =
          if is_measured rssi
          then encode_rssi rssi
          else if old.encoded_rssi == 0
          then 1000
          else old.encoded_rssi;
      last_seen_ms = now;
      beacon_last_seen_ms = if heard_beacon then now else old.beacon_last_seen_ms;
      connected_last_seen_ms = if connected then now else old.connected_last_seen_ms;
    }

abbrev pub modify : (Peer → Peer) → ℕ → List Peer → List Peer
modify f i [] = []
modify f zero (p ∷ ps) = f p ∷ ps
modify f (suc i) (p ∷ ps) = p ∷ modify f i ps

-- `topology_note_peer`.
unfoldable pub note_peer :
    (now peer_id : ℕ) → ℤ → (heard_beacon connected : Bool) → List Peer → List Peer
note_peer now peer_id rssi heard_beacon connected table =
    let id = mac_bits peer_id in
    if mac_is_zero id || mac_is_broadcast id
    then table
    else modify (noted now id rssi heard_beacon connected) (find_slot id table 0 none 0xffffffff 0)
        table

-- A magnitude: a `float` without its sign.
abbrev pub magnitude : ℕ → ℕ
magnitude bits = bits % 2 ^ 31

-- `location_is_valid`: at most 90.0 and 180.0 in magnitude, and not both 0; an infinity and a NaN have
-- a greater magnitude.
unfoldable pub location_is_valid : (latitude longitude : ℕ) → Bool
location_is_valid latitude longitude =
    ltb (magnitude latitude) 0x7f800000
    && ltb (magnitude longitude) 0x7f800000
    && leb (magnitude latitude) 0x42b40000
    && leb (magnitude longitude) 0x43340000
    && (not (magnitude latitude == 0) || not (magnitude longitude == 0))

-- The location that a beacon gives: its fields, overridden by its sensors.
pub record Location : Type 0 where
  pub latitude : ℕ
  pub longitude : ℕ
  pub has_latitude : Bool
  pub has_longitude : Bool

abbrev pub locate_value : (kind : ℕ) → Value → Location → Location
locate_value kind (bool_value b) at = at
locate_value kind (int_value n) at = at
locate_value kind (float_value f) at =
    if kind == 3
    then record at { latitude = f; has_latitude = true }
    else if kind == 4
    then record at { longitude = f; has_longitude = true }
    else at

pub locate : List SensorData → Location → Location
locate [] at = at
locate (entry ∷ entries) at = locate entries (locate_value entry.kind entry.value at)

-- The other sensors, until there are 7 entries.
pub other_sensors : List SensorData → List SensorData → List SensorData
other_sensors [] kept = kept
other_sensors (entry ∷ entries) kept =
    if not (ltb (length kept) 7)
    then kept
    else if entry.kind == 3 || entry.kind == 4
    then other_sensors entries kept
    else other_sensors entries (kept ++ (entry ∷ []))

-- What `topology_note_peer_sensor_data` stores for a beacon with this location and these sensors.
pub sensors_of : (latitude longitude : ℕ) → List SensorData → List SensorData
sensors_of latitude longitude sensors =
    let at = locate sensors (record {
      latitude = latitude;
      longitude = longitude;
      has_latitude = false;
      has_longitude = false;
    }) in
    let same = (at.has_latitude && at.has_longitude) || not (at.has_latitude || at.has_longitude) in
    other_sensors sensors (
      if same && location_is_valid at.latitude at.longitude
      then record { kind = 3; value = float_value at.latitude }
        ∷ record { kind = 4; value = float_value at.longitude }
        ∷ []
      else [])

pub store_sensors : (id : ℕ) → List SensorData → List Peer → List Peer
store_sensors id sensors [] = []
store_sensors id sensors (p ∷ ps) =
    let rest = store_sensors id sensors ps in
    if is_peer id p then record p { sensor_data = sensors } ∷ ps else p ∷ rest

-- `topology_note_peer_sensor_data`.
pub note_peer_sensor_data :
    (peer_id latitude longitude : ℕ) → List SensorData → List Peer → List Peer
note_peer_sensor_data peer_id latitude longitude sensors table =
    store_sensors (mac_bits peer_id) (sensors_of latitude longitude sensors) table

-- `ai_edgez_halow_Peer`; the two route fields stay 0.
pub record ReportPeer : Type 0 where
  pub id : ℕ
  pub rssi : ℕ
  pub sensor_data : List SensorData

abbrev pub report_peer : Peer → ReportPeer
report_peer p = record {
  id = p.peer_id;
  rssi = if not (p.encoded_rssi == 0) then p.encoded_rssi else 1000;
  sensor_data = p.sensor_data;
}

-- EDGEZ_TOPOLOGY_CONNECTED_MS and EDGEZ_TOPOLOGY_RECENT_MS.
abbrev pub connected_is_fresh : ℕ → Peer → Bool
connected_is_fresh now p = p.connected && leb (sub32 now p.connected_last_seen_ms) 90000

abbrev pub beacon_is_fresh : ℕ → Peer → Bool
beacon_is_fresh now p = p.heard_beacon && leb (sub32 now p.beacon_last_seen_ms) 300000

-- The two loops of the report, and EDGEZ_TOPOLOGY_MAX_PEERS.
unfoldable pub add_connected : (now : ℕ) → List Peer → List ReportPeer → List ReportPeer
add_connected now [] peers = peers
add_connected now (p ∷ ps) peers = add_connected now ps (
    if p.valid && connected_is_fresh now p && ltb (length peers) 6
    then peers ++ (report_peer p ∷ [])
    else peers)

unfoldable pub add_heard : (now : ℕ) → List Peer → List ReportPeer → List ReportPeer
add_heard now [] peers = peers
add_heard now (p ∷ ps) peers =
    let further = add_heard now ps (
      if not p.valid || connected_is_fresh now p || not (beacon_is_fresh now p)
      then peers
      else peers ++ (report_peer p ∷ [])) in
    if ltb (length peers) 6 then further else peers

unfoldable pub report_peers : (now : ℕ) → List Peer → List ReportPeer
report_peers now table = add_heard now table (add_connected now table [])

-- The peers the radio is authorized with, each with the clock when it is noted and its signal, if that
-- is known.
pub note_authorized : List (ℕ × ℕ × Option ℤ) → List Peer → List Peer
note_authorized [] table = table
note_authorized ((now, peer_id, none) ∷ rest) table =
    note_authorized rest (note_peer now peer_id int32_min false true table)
note_authorized ((now, peer_id, some rssi) ∷ rest) table =
    note_authorized rest (note_peer now peer_id rssi false true table)

-- `halow_sync_bridge_fill_report_peers`: the table afterwards and the report's peers.
pub fill_report_peers :
    (now : ℕ) → List (ℕ × ℕ × Option ℤ) → List Peer → List Peer × List ReportPeer
fill_report_peers now authorized table =
    let table' = note_authorized authorized table in (table', report_peers now table')

-- `halow_sync_bridge_notify_batman_peer`, for an originator as a 48-bit number.
pub notify_batman_peer : (now originator : ℕ) → ℤ → (direct : Bool) → List Peer → List Peer
notify_batman_peer now originator rssi direct table =
    if originator == 0
    then table
    else note_peer now originator (if direct then rssi else int32_min) false direct table
