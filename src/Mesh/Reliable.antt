-- ===== src/Mesh/Reliable.antt =====
-- The reliable packets of main/src/mesh/halow_sync_bridge.c: `reliable_pending_store`,
-- `reliable_pending_ack`, `reliable_pending_is_active` and a round of `reliable_tx_task`, over the
-- table of 24 packets that wait for an acknowledgement. Clock and routes are arguments: they come
-- from the RTOS and from the routing library.
pub mod Laws
pub mod Budget
use edge_device_esp.Base.{
  ℕ, ◌+◌, ◌*◌, ◌<◌, Bool, true, false, ◌&&◌, ◌||◌, not, ltb, leb, ◌==◌, if◌then◌else◌,
}
use edge_device_esp.Base.{List, [], ◌∷◌, Option, none, some, set, get_or, length}
use edge_device_esp.Base.Words.{sub32}
use edge_device_esp.Mesh.Seen.{Key, same_key}

-- `edgez_reliable_pending_t`.
pub record Pending : Type 0 where
  pub valid : Bool
  pub key : Key
  pub source : ℕ
  pub target : ℕ
  pub next_hop : ℕ
  pub max_hop : ℕ
  pub attempts : ℕ
  pub last_send_ms : ℕ
  pub ack_timeout_ms : ℕ
  pub payload : List ℕ

abbrev pub matches : Key → Pending → Bool
matches k e = e.valid && same_key e.key k

-- The loop of `reliable_pending_store`: the entry of this packet, else the first free one, else the
-- one that was sent first. `free` and `replace` are what the loop has found so far.
pub choose_slot : Key → List Pending → ℕ → Option ℕ → ℕ → ℕ → ℕ
choose_slot k [] i none oldest replace = replace
choose_slot k [] i (some free) oldest replace = free
choose_slot k (e ∷ es) i free oldest replace =
    if matches k e
    then i
    else choose_slot k es (i + 1)
        (elim free [ none ↦ if e.valid then none else some i | some f ↦ some f ])
        (if ltb e.last_send_ms oldest then e.last_send_ms else oldest)
        (if ltb e.last_send_ms oldest then i else replace)

-- 250 ms, and 180 ms for every hop behind the first, up to 1200 ms. A packet without a route has
-- the time of a direct one.
pub ack_timeout : Option ℕ → ℕ
ack_timeout none = 250
ack_timeout (some route_hop) =
    if ltb 1200 (250 + route_hop * 180) then 1200 else 250 + route_hop * 180

-- What a packet is stored with: `size_limit` is ai_edgez_halow_NetworkPacket_size.
pub store :
    (size_limit now max_hop : ℕ)
    → Option ℕ
    → (key : Key) (source target next_hop : ℕ) (payload : List ℕ) → List Pending
    → List Pending
store size_limit now max_hop route_hop key source target next_hop payload table =
    if length payload == 0 || ltb size_limit (length payload)
    then table
    else set table (choose_slot key table 0 none 0xffffffff 0) (record {
      valid = true;
      key = key;
      source = source;
      target = target;
      next_hop = next_hop;
      max_hop = max_hop;
      attempts = 1;
      last_send_ms = now;
      ack_timeout_ms = ack_timeout route_hop;
      payload = payload;
    })

-- An acknowledgement takes out the packet that it names; sequence 0 names every packet of the
-- message id.
abbrev pub acked : Key → Pending → Bool
acked k e =
    e.valid
    && e.key.high == k.high
    && e.key.low == k.low
    && (e.key.sequence == k.sequence || k.sequence == 0)

pub ack : Key → List Pending → List Pending × Bool
ack k [] = ([], false)
ack k (e ∷ es) =
    let (es', matched) = ack k es in
    if acked k e then (record e { valid = false } ∷ es', true) else (e ∷ es', matched)

pub is_active : Key → List Pending → Bool
is_active k [] = false
is_active k (e ∷ es) = matches k e || is_active k es

-- What the critical section of `reliable_tx_task` comes out with.
pub data Retry : Type 0 where
  idle : Retry
  exhausted : Key → ℕ → Retry
  unloadable : Retry
  resend : Pending → Retry

abbrev pub timeout_of : Pending → ℕ
timeout_of e = if e.ack_timeout_ms == 0 then 240 else e.ack_timeout_ms

abbrev pub is_due : ℕ → Pending → Bool
is_due now e = e.valid && leb (timeout_of e) (sub32 now e.last_send_ms)

-- One entry that is due: given up after the third attempt, sent again otherwise.
pub retry_entry : ℕ → ℕ → Pending → Pending × Retry
retry_entry size_limit now e =
    let again = record e { attempts = e.attempts + 1; last_send_ms = now } in
    if leb 3 e.attempts
    then (record e { valid = false }, exhausted e.key e.attempts)
    else if leb (length e.payload) size_limit
    then (again, resend again)
    else (record again { valid = false }, unloadable)

-- The loop: the first entry that is due.
pub retry_scan : ℕ → ℕ → List Pending → List Pending × Retry
retry_scan size_limit now [] = ([], idle)
retry_scan size_limit now (e ∷ es) =
    let (es', r) = retry_scan size_limit now es in
    let (e', own) = retry_entry size_limit now e in
    if is_due now e then (e' ∷ es, own) else (e ∷ es', r)

-- A packet given to `halow_send_mesh_payload_via`.
pub record Sent : Type 0 where
  pub key : Key
  pub next_hop : ℕ
  pub payload : List ℕ

-- After the critical section: nothing is sent for an entry that an acknowledgement has taken out
-- of `table` meanwhile; the next hop is looked up anew (`batman_route_lookup`).
pub finish_retry : List Pending → Option ℕ → Retry → Option Sent
finish_retry table route idle = none
finish_retry table route (exhausted k n) = none
finish_retry table route unloadable = none
finish_retry table route (resend e) =
    if is_active e.key table
    then some (record {
      key = e.key;
      next_hop = elim route [ none ↦ e.next_hop | some hop ↦ hop ];
      payload = e.payload;
    })
    else none
