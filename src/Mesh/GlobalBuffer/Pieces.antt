-- ===== src/Mesh/GlobalBuffer/Pieces.antt =====
-- The chunks that some bytes are sent in, what a receiver makes of them, and the chunk that a turn
-- sends.
use edge_device_esp.Base.{
  ℕ, zero, suc, ◌+◌, ◌-◌, ◌*◌, ◌%◌, ◌^◌, ◌≤◌, ◌<◌, ◌≡◌, refl, sym, ap, ◌∙◌, inl, inr, false, ltb,
  List, [], ◌∷◌, ◌++◌, Option, none, some, length, take, drop, All, Bool-cases, arith,
}
use edge_device_esp.Base.EspErr.{EspErr}
use edge_device_esp.Sampling.Buffer.{Buffer}
use edge_device_esp.Sampling.Buffer.Laws.{IsValid, served, prefix, IsBlock-bound}
use edge_device_esp.Sampling.Buffer.Lease.{Call, IsAnswered, is_held, length-served}
use edge_device_esp.Mesh.GlobalBuffer.{Target, Transfer, Packet, Platform, Act, chunk_size, cleared}
use edge_device_esp.Mesh.GlobalBuffer.Chunk.{named, data_size, turn, chunk_packet}
use edge_device_esp.Mesh.GlobalBuffer.Phase.{serving_state}
use edge_device_esp.Sampling.Buffer.Lease.{calls, calls-free}
use edge_device_esp.Base.{take-append-drop, length-take, length-drop}
use edge_device_esp.Base.Memory.{take-drop, take-take, drop_all, take_all, take_nil, drop-drop}
use edge_device_esp.Base.Words.{sub32}
use edge_device_esp.Mesh.GlobalBuffer.Chunk.{chunk_header, total_chunks, data_at, group_of}
use edge_device_esp.Mesh.GlobalBuffer.Turn.{moved, turn_idle}

read_prefix :
    (o : Option (List ℕ)) (k n len : ℕ)
    → k + n ≤ len
    → (elim o [ none ↦ [] | some block ↦ take n (drop k block) ]) ≡ take n (drop k (prefix len o))
read_prefix none k n len h = sym (ap (take n) (drop_all k [] (omega arith)) ∙ take_nil n)
read_prefix (some block) k n len h =
    take-drop n k block
    ∙ ap (drop k) (sym (take-take (k + n) len block h))
    ∙ sym (take-drop n k (take len block))

-- What the data pointer gives is the served copy, within its length.
pub data_at-served :
    (b : Buffer) (k n : ℕ) → k + n ≤ b.serving_length → data_at b k n ≡ take n (drop k (served b))
unfolding served
data_at-served b k n h = read_prefix b.serving k n b.serving_length h

-- A platform that knows the address of the device, encodes every packet and finds the radio free.
abbrev pub well : (encoder : Packet → List ℕ) (from : ℕ) → Platform → Platform
well encoder from p = record p {
  self_mac = some from;
  encode = λ packet. some (encoder packet);
  radio = λ encoded. EspErr.ok;
}

-- Rounds: some calls of the sampling component, then a turn of the task.
unfoldable pub run_rounds :
    (encoder : Packet → List ℕ) (from : ℕ)
    → List (List Call × Platform)
    → Transfer
    → Transfer × List Act
run_rounds encoder from [] s = (s, [])
run_rounds encoder from ((cs, p) ∷ rounds) s =
    let step = turn (well encoder from p) (record s { buffer = calls cs s.buffer }) in
    let rest = run_rounds encoder from rounds step.0 in (rest.0, step.1 ++ rest.1)

unfoldable pub payloads : List Act → List (List ℕ)
payloads [] = []
payloads (Act.sends encoded packet next_hop max_hop ∷ acts) = packet.payload ∷ payloads acts

-- The chunks of some bytes: each has its header and the next 220 bytes.
unfoldable pub pieces : (n group total index : ℕ) → List ℕ → List (List ℕ)
pieces zero group total index bytes = []
pieces (suc n) group total index [] = []
pieces (suc n) group total index (b ∷ bytes) =
    (chunk_header group total index ++ take chunk_size (b ∷ bytes))
    ∷ pieces n group total (index + 1) (drop chunk_size (b ∷ bytes))

pub pieces_step :
    (n group total index : ℕ) (bytes : List ℕ)
    → 0 < length bytes
    → pieces (suc n) group total index bytes
      ≡ (chunk_header group total index ++ take chunk_size bytes)
        ∷ pieces n group total (index + 1) (drop chunk_size bytes)
unfolding pieces
pieces_step n g t i [] h = absurd (omega arith)
pieces_step n g t i (b ∷ bytes) h = refl

pub pieces_nil : (n group total index : ℕ) → pieces n group total index [] ≡ []
unfolding pieces
pieces_nil zero g t i = refl
pieces_nil (suc n) g t i = refl

-- What a receiver gets that takes the headers off and joins the chunks.
pub joined : List (List ℕ) → List ℕ
joined [] = []
joined (chunk ∷ chunks) = drop 20 chunk ++ joined chunks

pub joined-pieces :
    (n group total index : ℕ) (bytes : List ℕ)
    → length bytes ≤ n * chunk_size
    → joined (pieces n group total index bytes) ≡ bytes
unfolding joined pieces
joined-pieces zero g t i [] h = refl
joined-pieces zero g t i (b ∷ bytes) h = absurd (omega arith)
joined-pieces (suc n) g t i [] h = refl
joined-pieces (suc n) g t i (b ∷ bytes) h =
    ap (λ r. b ∷ (take 219 bytes ++ r))
      (joined-pieces n g t (i + 1) (drop 219 bytes) (omega (arith, length-drop 219 bytes)))
    ∙ ap (λ r. b ∷ r) (take-append-drop 219 bytes)

-- Rounds after the end of a transfer send nothing.
pub idle_rounds :
    (encoder : Packet → List ℕ) (from : ℕ) (rounds : List (List Call × Platform)) (b : Buffer)
    → All (λ round. All IsAnswered round.0) rounds
    → IsValid b
    → is_held b ≡ false
    → (payloads (run_rounds encoder from rounds (cleared b)).1 ≡ [])
      × ((run_rounds encoder from rounds (cleared b)).0.tx_active ≡ false)
      × (is_held (run_rounds encoder from rounds (cleared b)).0.buffer ≡ false)
unfolding run_rounds payloads
idle_rounds encoder from [] b a v free = (refl, refl, free)
idle_rounds encoder from ((cs, p) ∷ rounds) b (a, more) v free =
    let (v', free') = calls-free cs b a v free in
    rw (turn_idle (well encoder from p) (calls cs b))
      (idle_rounds encoder from rounds (calls cs b) more v' free')

-- The bytes of the served copy that a target still has to get.
unfoldable pub todo : Target → List ℕ → List ℕ
todo t bytes = take (t.end_offset - t.next_offset) (drop t.next_offset bytes)

pub length-todo :
    (t : Target) (bytes : List ℕ)
    → t.end_offset ≤ length bytes
    → length (todo t bytes) ≡ t.end_offset - t.next_offset
unfolding todo
length-todo t bytes h = omega (
  arith,
  length-take (t.end_offset - t.next_offset) (drop t.next_offset bytes),
  length-drop t.next_offset bytes,
)

take-todo :
    (t : Target) (bytes : List ℕ)
    → t.end_offset ≤ length bytes
    → take (data_size t) (drop t.next_offset bytes) ≡ take chunk_size (todo t bytes)
unfolding todo
take-todo t bytes h = elim (Bool-cases (ltb chunk_size (t.end_offset - t.next_offset))) [
  | inl e ↦ rw e (
      sym (
        take-take chunk_size (t.end_offset - t.next_offset) (drop t.next_offset bytes)
          (ground arith)))
  | inr e ↦ rw e (
      sym (
        take_all chunk_size _
          (ground (arith, length-take (t.end_offset - t.next_offset) (drop t.next_offset bytes)))))
]

pub todo-moved :
    (p : Platform) (t : Target) (bytes : List ℕ)
    → chunk_size < t.end_offset - t.next_offset
    → todo (moved p t) bytes ≡ drop chunk_size (todo t bytes)
unfolding todo
todo-moved p t bytes h =
    let full : data_size t ≡ chunk_size = ground arith in
    let left : t.end_offset - t.next_offset ≡ chunk_size + (t.end_offset - (t.next_offset + 220)) =
      omega arith in
    rw full (
      ap (take (t.end_offset - (t.next_offset + 220)))
        (sym (drop-drop chunk_size t.next_offset bytes))
      ∙ take-drop (t.end_offset - (t.next_offset + 220)) chunk_size (drop t.next_offset bytes)
      ∙ ap (λ k. drop chunk_size (take k (drop t.next_offset bytes))) (sym left))

-- The payload of the packet with the next chunk.
pub chunk_payload :
    (p : Platform) (from : ℕ) (t : Target) (r h l : ℕ) (b : Buffer)
    → IsValid b
    → t.next_offset < t.end_offset
    → t.end_offset ≤ b.serving_length
    → t.next_offset ≡ t.chunk_sequence * chunk_size
    → (chunk_packet from (serving_state t r h l b) (named p t)).payload
      ≡ chunk_header (group_of (named p t)) (total_chunks b.serving_length) t.chunk_sequence
        ++ take chunk_size (todo t (served b))
chunk_payload p from t r h l b v n m i =
    let bound : b.serving_length ≤ 16384 =
      omega (arith, IsBlock-bound b.serving b.serving_capacity v.serving_block, v.serving_bound) in
    let index : sub32 ((t.chunk_sequence + 1) % 2 ^ 32) 1 % 2 ^ 16 ≡ t.chunk_sequence =
      omega arith in
    let inside : t.next_offset + data_size t ≤ b.serving_length = ground arith in
    let read : data_at b t.next_offset (data_size t) ≡ take chunk_size (todo t (served b)) =
      data_at-served b t.next_offset (data_size t) inside
      ∙ take-todo t (served b) (omega (arith, length-served b v)) in
    ap
      (λ k.
        chunk_header (group_of (named p t)) (total_chunks b.serving_length) k
        ++ data_at b t.next_offset (data_size t))
      index
    ∙ ap
        (λ d.
          chunk_header (group_of (named p t)) (total_chunks b.serving_length) t.chunk_sequence ++ d)
        read
