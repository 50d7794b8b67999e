-- ===== src/Mesh/GlobalBuffer/Phase.antt =====
-- The phases of a transfer: idle, or one requester served under the lease; a request and a call of the
-- sampling component lead from phase to phase.
use edge_device_esp.Base.{
  ℕ, ◌*◌, ◌^◌, ◌≤◌, ◌<◌, ◌≡◌, refl, sym, ap, ◌∙◌, inl, inr, true, false, ◌&&◌, ◌||◌, not, leb, ◌==◌,
  List, ◌∷◌, Option, none, some, length, replicate, Bool-cases, arith,
}
use mathlib.Core.Path.{subst}
use edge_device_esp.Base.EspErr.{EspErr, is_ok}
use edge_device_esp.Sampling.Buffer.{Buffer, acquire, release}
use edge_device_esp.Sampling.Buffer.Laws.{IsValid, IsBlock-bound}
use edge_device_esp.Sampling.Buffer.Lease.{
  Call, IsAnswered, call, call-IsKept, IsKept, is_held, length-served, release_lem, acquire_lem,
  IsAcquired,
}
use edge_device_esp.Mesh.Routes.{mac_bits, mac_is_zero, mac_is_broadcast}
use edge_device_esp.Mesh.GlobalBuffer.{
  Target, Transfer, Platform, chunk_size, no_target, cleared, reset_state, start_offsets,
  start_acquired, start_for_requester,
}
use edge_device_esp.Mesh.GlobalBuffer.Chunk.{}

-- The state of a transfer to one requester, with the target as it stands.
abbrev pub serving_state : Target → (requester id_high id_low : ℕ) → Buffer → Transfer
serving_state t requester id_high id_low b = record {
  targets = t ∷ replicate 15 no_target;
  has_data = true;
  data_length = b.serving_length;
  target_count = 1;
  target_index = 0;
  tx_active = true;
  serving_acquired = true;
  requester = requester;
  request_id_high = id_high;
  request_id_low = id_low;
  targets_completed = 0;
  send_pending = true;
  buffer = b;
}

-- The two phases between two steps: nothing is served and the lease is free, or one target has bytes
-- left within the served copy, the lease is out and a turn is pending.
pub data Phase : Transfer → Type 0 where
  idle : (b : Buffer) → IsValid b → is_held b ≡ false → Phase (cleared b)
  serving :
      (t : Target) (requester id_high id_low : ℕ) (b : Buffer)
      → IsValid b
      → is_held b ≡ true
      → t.active ≡ true
      → t.next_offset < t.end_offset
      → t.end_offset ≤ b.serving_length
      → t.next_offset ≡ t.chunk_sequence * chunk_size
      → Phase (serving_state t requester id_high id_low b)

pub released-Phase : (b : Buffer) → IsValid b → Phase (cleared (release b))
released-Phase b v = let (v', same, free) = release_lem b v in idle (release b) v' free

start_offsets-Phase :
    (p : Platform) (requester id_high id_low group : ℕ) (index : Option ℕ) (b b' : Buffer)
    → IsValid b'
    → is_held b' ≡ true
    → 0 < b'.serving_length
    → Phase
        (start_offsets p requester group index b'.serving_length (record (cleared b) {
          tx_active = true;
          requester = requester;
          request_id_high = id_high;
          request_id_low = id_low;
          buffer = b';
        })).1
unfolding reset_state
start_offsets-Phase p requester id_high id_low group none b b' v h l =
    serving _ requester id_high id_low b' v h refl l (omega arith) (omega arith)
start_offsets-Phase p requester id_high id_low group (some index) b b' v h l =
    elim (Bool-cases (group == 0 || leb b'.serving_length (index * chunk_size))) [
      | inl e ↦ rw e (released-Phase b' v)
      | inr e ↦
          rw e (serving _ requester id_high id_low b' v h refl (ground arith) (ground arith) refl)
    ]

start_acquired-Phase :
    (p : Platform) (requester id_high id_low expected group : ℕ) (index : Option ℕ) (b : Buffer)
    (r : EspErr × (List ℕ × Buffer))
    → is_held b ≡ false
    → IsAcquired b r
    → Phase
        (start_acquired p requester expected group index
          (record (cleared b) {
            tx_active = true;
            requester = requester;
            request_id_high = id_high;
            request_id_low = id_low;
          })
          r).1
unfolding IsAcquired reset_state
start_acquired-Phase p requester id_high id_low expected group index b (e, (bytes, b')) free
      (v, same, inr (failed, none_given, held)) =
    rw failed (idle b' v (held ∙ free))
start_acquired-Phase p requester id_high id_low expected group index b (e, (bytes, b')) free
      (v, same, inl (good, given, some_bytes, held, was_free)) =
    let len : length bytes ≡ b'.serving_length =
      ap length (given ∙ sym same) ∙ length-served b' v in
    let small : b'.serving_length ≤ 16384 =
      omega
        (arith, IsBlock-bound b'.serving b'.serving_capacity v.serving_block, v.serving_bound) in
    let guard : (not (is_ok e) || length bytes == 0 || leb (2 ^ 32) (length bytes)) ≡ false =
      rw good (ground arith) in
    rw guard (elim (Bool-cases (not (expected == 0) && not (length bytes == expected))) [
      | inl m ↦ rw m (released-Phase b' v)
      | inr m ↦
          rw (m, len)
            (start_offsets-Phase p requester id_high id_low group index b b' v held (omega arith))
    ])

-- A request leaves the transfer in one of its phases.
pub start-Phase :
    (p : Platform) (requester id_high id_low expected group : ℕ) (index : Option ℕ) (s : Transfer)
    → Phase s
    → Phase (start_for_requester p requester id_high id_low expected group index s).1
unfolding start_for_requester
start-Phase p requester id_high id_low expected group index _ (idle b v free) =
    elim (Bool-cases (mac_is_zero requester || mac_is_broadcast requester)) [
      | inl e ↦ rw e (idle b v free)
      | inr e ↦ rw e (
          start_acquired-Phase p (mac_bits requester) id_high id_low expected group index b
            (acquire p.lease_created b) free (acquire_lem p.lease_created b v))
    ]
start-Phase p requester id_high id_low expected group index _ (serving t r h l b v held a n m i) =
    elim (Bool-cases (mac_is_zero requester || mac_is_broadcast requester)) [
      | inl e ↦ rw e (serving t r h l b v held a n m i)
      | inr e ↦ rw e (serving t r h l b v held a n m i)
    ]

unfoldable pub call_buffer : Call → Transfer → Transfer
call_buffer c s = record s { buffer = call c s.buffer }

pub call-Phase : (c : Call) (s : Transfer) → IsAnswered c → Phase s → Phase (call_buffer c s)
unfolding call_buffer IsKept
call-Phase c _ a (idle b v free) =
    let (v', held, kept) = call-IsKept c b a v in idle (call c b) v' (held ∙ free)
call-Phase c _ a (serving t r h l b v held ac n m i) =
    let (v', same_held, kept) = call-IsKept c b a v in
    let len : (call c b).serving_length ≡ b.serving_length = elim kept [
      | inl free ↦ absurd (ground arith)
      | inr same ↦ sym (length-served (call c b) v') ∙ ap length same ∙ length-served b v
    ] in
    subst (λ k. Phase (record (serving_state t r h l (call c b)) { data_length = k })) len
      (serving t r h l (call c b) v' (same_held ∙ held) ac n (omega arith) i)
