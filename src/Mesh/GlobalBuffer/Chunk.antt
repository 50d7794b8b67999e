-- ===== src/Mesh/GlobalBuffer/Chunk.antt =====
-- Sending a transfer chunk by chunk: `global_buffer_tx_send_current_chunk`,
-- `global_buffer_send_status` and the part of `reliable_tx_task` that calls them.
use edge_device_esp.Base.{
  ℕ, zero, suc, ◌+◌, ◌-◌, ◌%◌, ◌/◌, ◌^◌, Bool, true, false, ◌&&◌, ◌||◌, not, ltb, leb, ◌==◌,
  if◌then◌else◌, List, [], ◌∷◌, ◌++◌, Option, none, some, get_or, set, take, drop,
}
use edge_device_esp.Base.Words.{sub32, le16_bytes, le32_bytes}
use edge_device_esp.Base.EspErr.{EspErr, is_ok}
use edge_device_esp.Sampling.Buffer.{Buffer}
use edge_device_esp.Mesh.Routes.{mac_bits, next_hop_or}
use edge_device_esp.Mesh.GlobalBuffer.{
  Target, Transfer, Packet, Platform, Act, chunk_size, busy_retry_ms, no_target, reset_state,
  schedule_send,
}

-- The bytes of a 64-bit word, the least significant first.
abbrev pub le64_bytes : ℕ → List ℕ
le64_bytes v = le32_bytes v ++ le32_bytes (v / 2 ^ 32)

-- The header of a chunk: 'E' 'V' '2', the group, a spare word, the number of chunks, the index of
-- this one and a spare byte.
abbrev pub chunk_header : (group total index : ℕ) → List ℕ
chunk_header group total index =
    (0x45 ∷ 0x56 ∷ 0x32 ∷ [])
    ++ (le64_bytes group
        ++ ((0 ∷ 0 ∷ 0 ∷ 0 ∷ []) ++ (le16_bytes total ++ (le16_bytes index ++ (0 ∷ [])))))

abbrev pub total_chunks : ℕ → ℕ
total_chunks len =
    if (len + 219) % 2 ^ 32 / chunk_size % 2 ^ 16 == 0
    then 1
    else (len + 219) % 2 ^ 32 / chunk_size % 2 ^ 16

-- The bytes that the data pointer gives from an offset.
abbrev pub data_at : Buffer → (offset n : ℕ) → List ℕ
data_at buffer offset n = elim buffer.serving [
  | none ↦ []
  | some block ↦ take n (drop offset block)
]

abbrev pub current : Transfer → Target
current s = get_or s.targets s.target_index no_target

abbrev pub is_finished : Target → Bool
is_finished t = not t.active || leb t.end_offset t.next_offset

-- The inner loop passes over the targets that are finished; `left` counts the targets to look at.
unfoldable pub skip_finished : (left : ℕ) → Transfer → Transfer
skip_finished zero s = s
skip_finished (suc left) s =
    let rest = skip_finished left (record s {
      targets = set s.targets s.target_index (record (current s) { active = false });
      target_index = s.target_index + 1;
    }) in
    if is_finished (current s) then rest else s

-- A target gets a message id with its first chunk.
abbrev pub is_unnamed : Target → Bool
is_unnamed t = t.message_id_high == 0 && t.message_id_low == 0

abbrev pub named : Platform → Target → Target
named p t = record t {
  message_id_high = if is_unnamed t then p.id_high else t.message_id_high;
  message_id_low = if is_unnamed t then p.id_low else t.message_id_low;
}

abbrev pub data_size : Target → ℕ
data_size t =
    if ltb chunk_size (t.end_offset - t.next_offset)
    then chunk_size
    else t.end_offset - t.next_offset

abbrev pub group_of : Target → ℕ
group_of t = if t.chunk_group_id == 0 then t.message_id_low else t.chunk_group_id

-- The packet with the next chunk of a target; its index is the sequence number less one.
abbrev pub chunk_packet : (from : ℕ) → Transfer → Target → Packet
chunk_packet from s t = record {
  response = false;
  from = from;
  to = t.target;
  message_id_high = t.message_id_high;
  message_id_low = t.message_id_low;
  sequence = (t.chunk_sequence + 1) % 2 ^ 32;
  payload =
      chunk_header (group_of t) (total_chunks s.data_length)
        (sub32 ((t.chunk_sequence + 1) % 2 ^ 32) 1 % 2 ^ 16)
      ++ data_at s.buffer t.next_offset (data_size t);
}

-- `global_buffer_send_status`: 'G' 'B' 'S' 1, the status and two words, the most significant byte
-- first.
abbrev pub be32_bytes : ℕ → List ℕ
be32_bytes v = v / 2 ^ 24 % 256 ∷ v / 2 ^ 16 % 256 ∷ v / 2 ^ 8 % 256 ∷ v % 256 ∷ []

abbrev pub status_payload : (status retry_after_ms available : ℕ) → List ℕ
status_payload status retry_after_ms available =
    (0x47 ∷ 0x42 ∷ 0x53 ∷ 1 ∷ status ∷ 0 ∷ 0 ∷ 0 ∷ [])
    ++ (be32_bytes retry_after_ms ++ be32_bytes available)

abbrev pub status_packet : Platform → (from requester status retry_after_ms available : ℕ) → Packet
status_packet p from requester status retry_after_ms available = record {
  response = true;
  from = from;
  to = mac_bits requester;
  message_id_high = p.status_id_high;
  message_id_low = p.status_id_low;
  sequence = 1;
  payload = status_payload status retry_after_ms available;
}

-- Encoding and sending a packet: the error, and what left.
abbrev pub transmit : Platform → Packet → (next_hop : ℕ) → Option (List ℕ) → EspErr × List Act
transmit p packet next_hop none = (EspErr.fail, [])
transmit p packet next_hop (some encoded) =
    (p.radio encoded, Act.sends encoded packet next_hop p.max_hop ∷ [])

abbrev pub status_from :
    Platform → (requester status retry_after_ms available : ℕ) → Option ℕ → EspErr × List Act
status_from p requester status retry_after_ms available none = (EspErr.invalid_state, [])
status_from p requester status retry_after_ms available (some from) =
    transmit p (status_packet p from requester status retry_after_ms available)
      (next_hop_or p.lookup (mac_bits requester) (mac_bits requester))
      (p.encode (status_packet p from requester status retry_after_ms available))

unfoldable pub send_status :
    Platform → (requester status retry_after_ms available : ℕ) → EspErr × List Act
send_status p requester status retry_after_ms available =
    status_from p requester status retry_after_ms available p.self_mac

-- The last chunk of a target, and of the transfer if there is no further one.
abbrev pub finish_target : Target → Transfer → Transfer
finish_target moved s =
    let next : Transfer = record s {
      targets = set s.targets s.target_index (record moved { active = false });
      targets_completed = if ltb s.targets_completed 255 then s.targets_completed + 1 else 255;
      target_index = s.target_index + 1;
    } in
    if leb s.target_count (s.target_index + 1) then reset_state next else next

-- After a chunk: the target moves on, and the transfer ends with its last target.
abbrev pub advance : Target → Transfer → Transfer
advance t s =
    let moved : Target = record t { next_offset = t.next_offset + data_size t } in
    if leb moved.end_offset moved.next_offset
    then finish_target moved s
    else schedule_send (record s { targets = set s.targets s.target_index moved })

-- A chunk that could not be encoded or sent ends the transfer, and the requester hears that the
-- device is busy.
abbrev pub settle_chunk : Platform → Target → Transfer → EspErr × List Act → Transfer × List Act
settle_chunk p t s (e, acts) =
    if is_ok e
    then (advance t s, acts)
    else (reset_state s, acts ++ (send_status p t.target 1 busy_retry_ms s.buffer.serving_length).1)

-- Between the two locked sections the target carries its id and its new sequence number.
abbrev pub send_chunk : Platform → (from : ℕ) → Transfer → Transfer × List Act
send_chunk p from s =
    let t : Target = named p (current s) in
    let packet : Packet = chunk_packet from s t in
    let noted : Target = record t { chunk_sequence = (t.chunk_sequence + 1) % 2 ^ 32 } in
    settle_chunk p noted (record s { targets = set s.targets s.target_index noted })
      (transmit p packet t.next_hop (p.encode packet))

abbrev pub is_idle : Transfer → Bool
is_idle s =
    not s.tx_active
    || not s.has_data
    || s.data_length == 0
    || s.target_count == 0
    || leb s.target_count s.target_index

abbrev pub send_from : Platform → Option ℕ → Transfer → Transfer × List Act
send_from p none s = (reset_state s, [])
send_from p (some from) s =
    let skipped = skip_finished (s.target_count - s.target_index) s in
    if is_idle s || leb skipped.target_count skipped.target_index
    then (reset_state (if is_idle s then s else skipped), [])
    else send_chunk p from skipped

-- `global_buffer_tx_send_current_chunk`. Behind the inner loop the target has bytes left, so the
-- branch of the source for an empty chunk is not taken.
unfoldable pub send_current_chunk : Platform → Transfer → Transfer × List Act
send_current_chunk p s = send_from p p.self_mac s

-- What one turn of `reliable_tx_task` does for the transfer.
unfoldable pub turn : Platform → Transfer → Transfer × List Act
turn p s =
    if s.send_pending then send_current_chunk p (record s { send_pending = false }) else (s, [])
