-- ===== src/Mesh/GlobalBuffer/Turn.antt =====
-- A turn of the reliable task in each phase of a transfer.
use edge_device_esp.Base.{
  ℕ, ◌+◌, ◌-◌, ◌*◌, ◌%◌, ◌^◌, ◌≤◌, ◌<◌, ◌≡◌, refl, sym, ap, ◌∙◌, inl, inr, Bool, true, false, leb,
  if◌then◌else◌, List, [], none, some, Bool-cases, Option-cases, arith,
}
use mathlib.Core.Path.{subst}
use edge_device_esp.Base.EspErr.{EspErr, is_ok}
use edge_device_esp.Sampling.Buffer.{Buffer, release}
use edge_device_esp.Sampling.Buffer.Laws.{IsValid, IsBlock-bound}
use edge_device_esp.Sampling.Buffer.Lease.{is_held}
use edge_device_esp.Mesh.GlobalBuffer.{
  Target, Transfer, Packet, Platform, Act, chunk_size, cleared, reset_state,
}
use edge_device_esp.Mesh.GlobalBuffer.Chunk.{
  is_finished, skip_finished, named, data_size, settle_chunk, send_chunk, is_idle, send_from,
  send_current_chunk, turn, chunk_packet, transmit,
}
use edge_device_esp.Mesh.GlobalBuffer.Phase.{serving_state, Phase, idle, serving, released-Phase}

-- The target with its id, and with the number of the chunk that is being sent.
abbrev pub noted : Platform → Target → Target
noted p t = record (named p t) { chunk_sequence = (t.chunk_sequence + 1) % 2 ^ 32 }

abbrev pub moved : Platform → Target → Target
moved p t = record (noted p t) { next_offset = t.next_offset + data_size t }

-- The state after a chunk that the radio took.
unfoldable pub after_chunk : Platform → Target → (r h l : ℕ) → Buffer → Transfer
after_chunk p t r h l b =
    if leb t.end_offset (t.next_offset + data_size t)
    then cleared (release b)
    else serving_state (moved p t) r h l b

if_false : (b : Bool) (x y : Transfer) → b ≡ false → (if b then x else y) ≡ y
if_false b x y e = rw e refl

send_ready :
    (p : Platform) (from : ℕ) (s : Transfer)
    → is_idle s ≡ false
    → leb s.target_count s.target_index ≡ false
    → skip_finished (s.target_count - s.target_index) s ≡ s
    → send_from p (some from) s ≡ send_chunk p from s
send_ready p from s busy more same = rw (busy, same, more) refl

-- A turn of a transfer, up to what the encoder and the radio answer.
pub turn_serving :
    (p : Platform) (from : ℕ) (t : Target) (r h l : ℕ) (b : Buffer)
    → p.self_mac ≡ some from
    → t.active ≡ true
    → t.next_offset < t.end_offset
    → t.end_offset ≤ b.serving_length
    → turn p (serving_state t r h l b)
      ≡ settle_chunk p
          (noted p t)
          (record (serving_state (noted p t) r h l b) { send_pending = false })
          (transmit p
            (chunk_packet from (serving_state t r h l b) (named p t))
            t.next_hop
            (p.encode (chunk_packet from (serving_state t r h l b) (named p t))))
unfolding turn send_current_chunk skip_finished
turn_serving p from t r h l b self a n m =
    let s : Transfer = record (serving_state t r h l b) { send_pending = false } in
    let busy : is_idle s ≡ false = ground arith in
    let left : is_finished t ≡ false = ground arith in
    let stays : skip_finished 1 s ≡ s = if_false (is_finished t) _ s left in
    ap (λ o. send_from p o s) self ∙ send_ready p from s busy refl stays

pub settle_taken :
    (p : Platform) (t : Target) (r h l : ℕ) (b : Buffer) (sent : EspErr × List Act)
    → is_ok sent.0 ≡ true
    → settle_chunk p
        (noted p t)
        (record (serving_state (noted p t) r h l b) { send_pending = false })
        sent
      ≡ (after_chunk p t r h l b, sent.1)
unfolding after_chunk reset_state
settle_taken p t r h l b (e, acts) good =
    rw good (elim (Bool-cases (leb t.end_offset (t.next_offset + data_size t))) [
      | inl d ↦ rw d refl
      | inr d ↦ rw d refl
    ])

settle_refused :
    (p : Platform) (t : Target) (r h l : ℕ) (b : Buffer) (sent : EspErr × List Act)
    → is_ok sent.0 ≡ false
    → (settle_chunk p
        (noted p t)
        (record (serving_state (noted p t) r h l b) { send_pending = false })
        sent).0
      ≡ cleared (release b)
unfolding reset_state
settle_refused p t r h l b (e, acts) bad = rw bad refl

after_chunk-Phase :
    (p : Platform) (t : Target) (r h l : ℕ) (b : Buffer)
    → IsValid b
    → is_held b ≡ true
    → t.active ≡ true
    → t.next_offset < t.end_offset
    → t.end_offset ≤ b.serving_length
    → t.next_offset ≡ t.chunk_sequence * chunk_size
    → Phase (after_chunk p t r h l b)
unfolding after_chunk
after_chunk-Phase p t r h l b v held a n m i =
    elim (Bool-cases (leb t.end_offset (t.next_offset + data_size t))) [
      | inl d ↦ rw d (released-Phase b v)
      | inr d ↦
          let bound : b.serving_length ≤ 16384 =
            omega (
              arith,
              IsBlock-bound b.serving b.serving_capacity v.serving_block,
              v.serving_bound,
            ) in
          rw d (serving (moved p t) r h l b v held a (ground arith) m (ground arith))
    ]

pub turn_idle : (p : Platform) (b : Buffer) → turn p (cleared b) ≡ (cleared b, [])
unfolding turn
turn_idle p b = refl

turn_unknown :
    (p : Platform) (t : Target) (r h l : ℕ) (b : Buffer)
    → p.self_mac ≡ none
    → turn p (serving_state t r h l b) ≡ (cleared (release b), [])
unfolding turn send_current_chunk reset_state
turn_unknown p t r h l b e =
    ap (λ o. send_from p o (record (serving_state t r h l b) { send_pending = false })) e

pub turn-Phase : (p : Platform) (s : Transfer) → Phase s → Phase (turn p s).0
turn-Phase p _ (idle b v free) = subst (λ q. Phase q.0) (sym (turn_idle p b)) (idle b v free)
turn-Phase p _ (serving t r h l b v held a n m i) = elim (Option-cases p.self_mac) [
  | inl none_known ↦
      subst (λ q. Phase q.0) (sym (turn_unknown p t r h l b none_known)) (released-Phase b v)
  | inr (from, self) ↦
      let packet : Packet = chunk_packet from (serving_state t r h l b) (named p t) in
      let sent : EspErr × List Act = transmit p packet t.next_hop (p.encode packet) in
      subst (λ q. Phase q.0) (sym (turn_serving p from t r h l b self a n m))
        (elim (Bool-cases (is_ok sent.0)) [
          | inl good ↦
              subst (λ q. Phase q.0) (sym (settle_taken p t r h l b sent good))
                (after_chunk-Phase p t r h l b v held a n m i)
          | inr bad ↦ subst Phase (sym (settle_refused p t r h l b sent bad)) (released-Phase b v)
        ])
]
