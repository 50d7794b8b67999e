-- ===== src/Mesh/Realtime.antt =====
-- The transmit queue for voice and speed-test frames of main/src/mesh/halow_sync_bridge.c: the limit
-- that the quality of a path sets, `voice_tx_enqueue`, and what `voice_tx_task` does with one frame.
-- The clock, the route table and the radio's answers are arguments.
pub mod Queue
pub mod Order
pub mod Sender
use edge_device_esp.Base.{
  ℕ, zero, suc, ◌+◌, ◌-◌, ◌*◌, ◌%◌, ◌^◌, Bool, true, false, ◌&&◌, ◌||◌, not, ltb, leb, ◌==◌,
  same_bytes, if◌then◌else◌, List, [], ◌∷◌, ◌++◌, Option, none, some, length, take, get_or, set,
  min,
}
use edge_device_esp.Base.Words.{sub32}
use edge_device_esp.Base.EspErr.{EspErr, is_ok}
use edge_device_esp.Mesh.Routes.{Route}

-- `edgez_voice_tx_item_t`.
pub record Item : Type 0 where
  pub payload : List ℕ
  pub from : ℕ
  pub to : ℕ
  pub next_hop : ℕ
  pub message_id_high : ℕ
  pub message_id_low : ℕ
  pub max_hop : ℕ
  pub sequence : ℕ
  pub forward_from_mobile : Bool
  pub mobile_initial_hop : ℕ

-- `edgez_realtime_path_cache_t`, without the fields that are only logged.
pub record CachedPath : Type 0 where
  pub valid : Bool
  pub target : ℕ
  pub sampled_ms : ℕ
  pub limit : ℕ

-- The queue, the path cache and the counters of lost frames. `created` tells that the queue exists.
pub record Realtime : Type 0 where
  pub created : Bool
  pub queue : List Item
  pub paths : List CachedPath
  pub replace_index : ℕ
  pub drops : ℕ
  pub send_failures : ℕ

-- EDGEZ_REALTIME_TX_QUEUE_DEPTH, EDGEZ_REALTIME_PATH_CACHE_TTL_MS, EDGEZ_REALTIME_PATH_CACHE_SIZE.
abbrev pub queue_depth : ℕ
queue_depth = 32

abbrev pub path_ttl_ms : ℕ
path_ttl_ms = 250

abbrev pub path_slots : ℕ
path_slots = 4

-- EDGEZ_SPEED_RAW_MAGIC, 'E' 'Z' 'S' 'T'.
abbrev pub speed_magic : List ℕ
speed_magic = 0x45 ∷ 0x5a ∷ 0x53 ∷ 0x54 ∷ []

abbrev pub quality_limit : ℕ → ℕ
quality_limit tq =
    if leb 208 tq then queue_depth else if leb 160 tq then 12 else if leb 112 tq then 8 else 4

abbrev pub hop_limit : (hops limit : ℕ) → ℕ
hop_limit hops limit =
    if leb 3 hops && ltb 4 limit then 4 else if hops == 2 && ltb 8 limit then 8 else limit

abbrev pub age_limit : (age_ms limit : ℕ) → ℕ
age_limit age_ms limit = if ltb 4000 age_ms && ltb 4 limit then 4 else limit

unfoldable pub route_limit : Option Route → ℕ
route_limit none = 4
route_limit (some route) = age_limit route.age_ms (hop_limit route.hops (quality_limit route.tq))

abbrev pub is_cached : (now target : ℕ) → CachedPath → Bool
is_cached now target path =
    path.valid && path.target == target && ltb (sub32 now path.sampled_ms) path_ttl_ms

unfoldable pub cached_limit : (now target : ℕ) → List CachedPath → Option ℕ
cached_limit now target [] = none
cached_limit now target (path ∷ paths) =
    let rest = cached_limit now target paths in
    if is_cached now target path then some path.limit else rest

-- `realtime_tx_path_limit`: the limit, from the cache or from the route, which is then cached.
unfoldable pub path_limit : (lookup : ℕ → Option Route) (now target : ℕ) → Realtime → ℕ × Realtime
path_limit lookup now target s = elim (cached_limit now target s.paths) [
  | some limit ↦ (limit, s)
  | none ↦ (
    route_limit (lookup (target % 2 ^ 48)),
    record s {
      paths = set s.paths s.replace_index (record {
        valid = true;
        target = target;
        sampled_ms = now;
        limit = route_limit (lookup (target % 2 ^ 48));
      });
      replace_index = (s.replace_index + 1) % path_slots;
    },
  )
]

-- `xQueueReceive` without waiting.
abbrev pub drop_oldest : List Item → List Item
drop_oldest [] = []
drop_oldest (item ∷ items) = items

abbrev pub is_empty : List Item → Bool
is_empty [] = true
is_empty (item ∷ items) = false

-- `xQueueSend` without waiting: whether the queue took the item, and the queue.
abbrev pub queue_send : Item → List Item → Bool × List Item
queue_send item items =
    if ltb (length items) queue_depth then (true, items ++ (item ∷ [])) else (false, items)

abbrev pub is_speed : List ℕ → Bool
is_speed payload = leb 4 (length payload) && same_bytes (take 4 payload) speed_magic

abbrev pub count_drop : Realtime → Realtime
count_drop s = record s { drops = (s.drops + 1) % 2 ^ 32 }

abbrev pub sent_result : Bool → EspErr
sent_result true = EspErr.ok
sent_result false = EspErr.timeout

abbrev pub enqueue_speed : Item → Realtime → EspErr × Realtime
enqueue_speed item s =
    let sent = queue_send item s.queue in
    if sent.0 then (EspErr.ok, record s { queue = sent.1 }) else (EspErr.timeout, count_drop s)

abbrev pub drop_and_send : Item → Realtime → EspErr × Realtime
drop_and_send item s =
    let sent = queue_send item (drop_oldest s.queue) in
    (sent_result sent.0, count_drop (record s { queue = sent.1 }))

-- When the first send finds no room, the oldest frame goes and the send is tried once more.
abbrev pub send_or_drop : Item → Realtime → EspErr × Realtime
send_or_drop item s =
    let sent = queue_send item s.queue in
    if sent.0
    then (EspErr.ok, record s { queue = sent.1 })
    else if is_empty s.queue
    then (EspErr.timeout, s)
    else drop_and_send item s

abbrev pub enqueue_voice : (limit : ℕ) → Item → Realtime → EspErr × Realtime
enqueue_voice limit item s =
    if leb limit (length s.queue) && not (is_empty s.queue)
    then drop_and_send item s
    else send_or_drop item s

-- `voice_tx_enqueue`; `size_limit` is ai_edgez_halow_NetworkPacket_size.
unfoldable pub enqueue :
    (size_limit : ℕ) (lookup : ℕ → Option Route) (now : ℕ) → Item → Realtime → EspErr × Realtime
enqueue size_limit lookup now item s =
    if not s.created || length item.payload == 0 || ltb size_limit (length item.payload)
    then (EspErr.invalid_arg, s)
    else if is_speed item.payload
    then enqueue_speed item s
    else let found = path_limit lookup now item.to s in enqueue_voice found.0 item found.1

-- What one frame does to the radio: a call that sends or forwards the item, and a delay.
pub data Act : Type 0 where
  sends : Item → Act
  waits : ℕ → Act

abbrev pub is_speed_frame : List ℕ → Bool
is_speed_frame payload = leb 26 (length payload) && same_bytes (take 4 payload) speed_magic

abbrev pub max_attempts : List ℕ → ℕ
max_attempts payload = if is_speed_frame payload then 8 else 3

abbrev pub retry_delay : (speed : Bool) (attempts : ℕ) → ℕ
retry_delay true attempts = min 50 (10 * attempts)
retry_delay false attempts = 15

-- ESP_ERR_TIMEOUT is worth a retry, and with a prebuilt adapter (`legacy`) ESP_FAIL is too.
abbrev pub retryable : (legacy : Bool) → EspErr → Bool
retryable legacy EspErr.timeout = true
retryable legacy EspErr.fail = legacy
retryable legacy e = false

-- The loop of `voice_tx_task` over one frame. `left` is the number of attempts left, `attempts` the
-- number made; the radio answers by the attempt.
unfoldable pub attempt :
    (legacy : Bool) (radio : ℕ → EspErr) (item : Item) (left attempts : ℕ) → EspErr × List Act
attempt legacy radio item zero attempts = (EspErr.fail, [])
attempt legacy radio item (suc left) attempts =
    let rest = attempt legacy radio item left (attempts + 1) in
    let err = radio (attempts + 1) in
    if is_ok err || not (retryable legacy err) || left == 0 then (err, Act.sends item ∷ []) else (
      rest.0,
      Act.sends item
          ∷ Act.waits (retry_delay (is_speed_frame item.payload) (attempts + 1))
          ∷ rest.1,
    )

-- One turn of the task: the oldest frame is taken and tried, a failure is counted.
abbrev pub settle_sent : EspErr × List Act → Realtime → Realtime × List Act
settle_sent (e, acts) s =
    (if is_ok e then s else record s { send_failures = (s.send_failures + 1) % 2 ^ 32 }, acts)

unfoldable pub turn : (legacy : Bool) (radio : ℕ → EspErr) → Realtime → Realtime × List Act
turn legacy radio s = elim s.queue [
  | [] ↦ (s, [])
  | item ∷ items ↦
      settle_sent (attempt legacy radio item (max_attempts item.payload) 0)
        (record s { queue = items })
]
