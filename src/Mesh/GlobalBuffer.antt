-- ===== src/Mesh/GlobalBuffer.antt =====
-- The transfer of the sampled buffer to a requester, main/src/mesh/halow_sync_bridge.c: a requester
-- starts a transfer of the whole snapshot or of one chunk, and each turn of the reliable task sends
-- one chunk. The snapshot is read from the serving buffer of Sampling.Buffer under its lease. The
-- sections of the source that run under `s_global_buffer_tx_lock` and the calls between them are one
-- step here. Clock, addresses, encoder and radio are what the platform answers.
pub mod Chunk
pub mod Phase
pub mod Turn
pub mod Pieces
pub mod Lease
pub mod Delivery
pub mod Pull
use edge_device_esp.Base.{
  ℕ, zero, suc, ◌+◌, ◌-◌, ◌*◌, ◌%◌, ◌/◌, ◌^◌, Bool, true, false, ◌&&◌, ◌||◌, not, ltb, leb, ◌==◌,
  if◌then◌else◌, List, [], ◌∷◌, ◌++◌, Option, none, some, length, get_or, set, take, drop,
  replicate,
}
use edge_device_esp.Base.Words.{sub32, le16_bytes, le32_bytes}
use edge_device_esp.Base.EspErr.{EspErr, is_ok}
use edge_device_esp.Sampling.Buffer.{Buffer, acquire, release}
use edge_device_esp.Mesh.Routes.{Route, mac_bits, mac_is_zero, mac_is_broadcast, next_hop_or}

-- `edgez_global_buffer_target_t`.
pub record Target : Type 0 where
  pub active : Bool
  pub target : ℕ
  pub next_hop : ℕ
  pub message_id_high : ℕ
  pub message_id_low : ℕ
  pub chunk_sequence : ℕ
  pub next_offset : ℕ
  pub end_offset : ℕ
  pub chunk_group_id : ℕ

-- The static variables of the transfer, and the buffer of the sampling component. `has_data` tells
-- that the data pointer is set; it then points to the serving buffer.
pub record Transfer : Type 0 where
  pub targets : List Target
  pub has_data : Bool
  pub data_length : ℕ
  pub target_count : ℕ
  pub target_index : ℕ
  pub tx_active : Bool
  pub serving_acquired : Bool
  pub requester : ℕ
  pub request_id_high : ℕ
  pub request_id_low : ℕ
  pub targets_completed : ℕ
  pub send_pending : Bool
  pub buffer : Buffer

-- The fields of a NetworkPacket that this code sets, but for the interface, which is HALOW, and the
-- mime type, which is BINARY. `response` tells the operation RESPONSE from REQUEST.
pub record Packet : Type 0 where
  pub response : Bool
  pub from : ℕ
  pub to : ℕ
  pub message_id_high : ℕ
  pub message_id_low : ℕ
  pub sequence : ℕ
  pub payload : List ℕ

-- What the platform answers during one call: the encoder gives the bytes of a packet or fails, the
-- radio takes the bytes or reports an error.
pub record Platform : Type 0 where
  pub self_mac : Option ℕ
  pub id_high : ℕ
  pub id_low : ℕ
  pub status_id_high : ℕ
  pub status_id_low : ℕ
  pub max_hop : ℕ
  pub lookup : ℕ → Option Route
  pub encode : Packet → Option (List ℕ)
  pub radio : List ℕ → EspErr
  pub lease_created : Bool

-- What is handed to the radio: a packet in its encoded form, for a next hop.
pub data Act : Type 0 where
  sends : (encoded : List ℕ) → Packet → (next_hop max_hop : ℕ) → Act

-- EDGEZ_GLOBAL_BUFFER_CHUNK_SIZE, EDGEZ_GLOBAL_BUFFER_TARGET_TABLE_SIZE,
-- EDGEZ_GLOBAL_BUFFER_BUSY_RETRY_MS.
abbrev pub chunk_size : ℕ
chunk_size = 220

abbrev pub table_size : ℕ
table_size = 16

abbrev pub busy_retry_ms : ℕ
busy_retry_ms = 2000

abbrev pub no_target : Target
no_target = record {
  active = false;
  target = 0;
  next_hop = 0;
  message_id_high = 0;
  message_id_low = 0;
  chunk_sequence = 0;
  next_offset = 0;
  end_offset = 0;
  chunk_group_id = 0;
}

abbrev pub cleared : Buffer → Transfer
cleared buffer = record {
  targets = replicate table_size no_target;
  has_data = false;
  data_length = 0;
  target_count = 0;
  target_index = 0;
  tx_active = false;
  serving_acquired = false;
  requester = 0;
  request_id_high = 0;
  request_id_low = 0;
  targets_completed = 0;
  send_pending = false;
  buffer = buffer;
}

-- `global_buffer_tx_reset_state`: the lease goes back if it was taken.
unfoldable pub reset_state : Transfer → Transfer
reset_state s = cleared (if s.serving_acquired then release s.buffer else s.buffer)

-- `global_buffer_tx_schedule_send`; the worker that it wakes looks at the flag.
abbrev pub schedule_send : Transfer → Transfer
schedule_send s = if s.tx_active then record s { send_pending = true } else s

-- The transfer of the bytes from one offset to another to a requester.
abbrev pub begin_transfer :
    Platform → (requester group start stop sequence len : ℕ) → Transfer → Transfer
begin_transfer p requester group start stop sequence len s = schedule_send (record s {
  targets = set (replicate table_size no_target) 0 (record {
    active = true;
    target = requester;
    next_hop = next_hop_or p.lookup requester requester;
    message_id_high = 0;
    message_id_low = 0;
    chunk_sequence = sequence;
    next_offset = start;
    end_offset = stop;
    chunk_group_id = group;
  });
  targets_completed = 0;
  has_data = true;
  data_length = len;
  target_count = 1;
  tx_active = true;
  serving_acquired = true;
  target_index = 0;
})

abbrev pub give_back : EspErr → Transfer → EspErr × Transfer
give_back e s = (e, reset_state (record s { buffer = release s.buffer }))

-- A chunk request names a chunk by its index, a full request none.
abbrev pub start_offsets :
    Platform → (requester group : ℕ) → Option ℕ → (len : ℕ) → Transfer → EspErr × Transfer
start_offsets p requester group none len s =
    (EspErr.ok, begin_transfer p requester group 0 len 0 len s)
start_offsets p requester group (some index) len s =
    if group == 0 || leb len (index * chunk_size) then give_back EspErr.invalid_arg s else (
      EspErr.ok,
      begin_transfer p requester group (index * chunk_size)
          (if ltb len (index * chunk_size + chunk_size)
            then len
            else index * chunk_size + chunk_size)
          index len s,
    )

-- With the answer of `sampling_buffer_acquire`. A snapshot that another length was expected of goes
-- back.
abbrev pub start_acquired :
    Platform
    → (requester expected group : ℕ) → Option ℕ
    → Transfer
    → EspErr × (List ℕ × Buffer)
    → EspErr × Transfer
start_acquired p requester expected group index s (e, (bytes, buffer)) =
    if not (is_ok e) || length bytes == 0 || leb (2 ^ 32) (length bytes)
    then (if is_ok e then EspErr.not_found else e, reset_state (record s { buffer = buffer }))
    else if not (expected == 0) && not (length bytes == expected)
    then give_back EspErr.not_found (record s { buffer = buffer })
    else start_offsets p requester group index (length bytes) (record s { buffer = buffer })

abbrev pub is_duplicate : (requester id_high id_low : ℕ) → Transfer → Bool
is_duplicate requester id_high id_low s =
    s.requester == requester && s.request_id_high == id_high && s.request_id_low == id_low

-- `global_buffer_tx_start_for_requester`. The slot is reserved before the snapshot is acquired.
unfoldable pub start_for_requester :
    Platform
    → (requester id_high id_low expected group : ℕ) → Option ℕ
    → Transfer
    → EspErr × Transfer
start_for_requester p requester id_high id_low expected group index s =
    let reserved : Transfer = record s {
      tx_active = true;
      requester = mac_bits requester;
      request_id_high = id_high;
      request_id_low = id_low;
    } in
    if mac_is_zero requester || mac_is_broadcast requester
    then (EspErr.invalid_arg, s)
    else if s.tx_active
    then (
      if is_duplicate (mac_bits requester) id_high id_low s
          then EspErr.ok
          else EspErr.invalid_state,
      s,
    )
    else start_acquired p (mac_bits requester) expected group index reserved
        (acquire p.lease_created s.buffer)
