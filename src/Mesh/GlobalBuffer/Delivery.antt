-- ===== src/Mesh/GlobalBuffer/Delivery.antt =====
-- The rounds of a transfer to its end, over a platform that knows the address of the device, encodes
-- every packet and finds the radio free.
use edge_device_esp.Base.{
  ℕ, suc, ◌+◌, ◌-◌, ◌*◌, ◌≤◌, ◌<◌, ◌≡◌, refl, sym, ap, ◌∙◌, inl, inr, true, false, leb, List, [],
  ◌∷◌, ◌++◌, some, length, take, drop, All, Bool-cases, arith,
}
use mathlib.Core.Path.{subst}
use edge_device_esp.Sampling.Buffer.{Buffer, release}
use edge_device_esp.Sampling.Buffer.Laws.{IsValid, served, IsBlock-bound}
use edge_device_esp.Sampling.Buffer.Lease.{Call, IsAnswered, is_held, length-served, release_lem}
use edge_device_esp.Mesh.GlobalBuffer.{Target, Transfer, Packet, Platform, Act, chunk_size}
use edge_device_esp.Mesh.GlobalBuffer.Chunk.{named, data_size, turn, chunk_packet, transmit}
use edge_device_esp.Mesh.GlobalBuffer.Phase.{serving_state}
use edge_device_esp.Sampling.Buffer.Lease.{calls, calls-lent}
use edge_device_esp.Base.Memory.{drop_all}
use edge_device_esp.Mesh.GlobalBuffer.Chunk.{chunk_header, total_chunks, is_unnamed, group_of}
use edge_device_esp.Mesh.GlobalBuffer.Turn.{moved, after_chunk, turn_serving, settle_taken}
use edge_device_esp.Mesh.GlobalBuffer.Pieces.{
  well, run_rounds, payloads, pieces, pieces_step, pieces_nil, idle_rounds, todo, length-todo,
  todo-moved, chunk_payload,
}

-- A turn over a good platform sends one chunk.
turn-well :
    (encoder : Packet → List ℕ) (from : ℕ) (p : Platform) (t : Target) (r h l : ℕ) (b : Buffer)
    → t.active ≡ true
    → t.next_offset < t.end_offset
    → t.end_offset ≤ b.serving_length
    → turn (well encoder from p) (serving_state t r h l b) ≡ (
      after_chunk p t r h l b,
      Act.sends
            (encoder (chunk_packet from (serving_state t r h l b) (named p t)))
            (chunk_packet from (serving_state t r h l b) (named p t))
            t.next_hop
            p.max_hop
          ∷ [],
    )
unfolding after_chunk
turn-well encoder from p t r h l b a n m =
    turn_serving (well encoder from p) from t r h l b refl a n m
    ∙ settle_taken (well encoder from p) t r h l b
        (transmit (well encoder from p) (chunk_packet from (serving_state t r h l b) (named p t))
          t.next_hop (some (encoder (chunk_packet from (serving_state t r h l b) (named p t)))))
        refl

-- The sampling component's calls leave a transfer as it is.
calls_serving :
    (cs : List Call) (t : Target) (r h l : ℕ) (b : Buffer)
    → IsValid b
    → IsValid (calls cs b)
    → served (calls cs b) ≡ served b
    → record (serving_state t r h l b) { buffer = calls cs b } ≡ serving_state t r h l (calls cs b)
calls_serving cs t r h l b v v' same =
    let len : b.serving_length ≡ (calls cs b).serving_length =
      sym (length-served b v) ∙ ap length (sym same) ∙ length-served (calls cs b) v' in
    ap (λ k. record (serving_state t r h l (calls cs b)) { data_length = k }) len

-- What the rounds from here on have to bring about: the rest of the bytes in chunks, and the end of
-- the transfer with the lease free.
unfoldable pub IsDelivered : (n group total index : ℕ) → List ℕ → Transfer × List Act → Type 0
IsDelivered n group total index bytes (s, acts) =
    (payloads acts ≡ pieces n group total index bytes)
    × ((s.tx_active ≡ false) × (is_held s.buffer ≡ false))

last_fits :
    (t : Target)
    → leb t.end_offset (t.next_offset + data_size t) ≡ true
    → t.end_offset - t.next_offset ≤ chunk_size
last_fits t d = ground arith

after-IsDelivered :
    (encoder : Packet → List ℕ) (from : ℕ) (rounds : List (List Call × Platform)) (p : Platform)
    (t : Target) (r h l : ℕ) (b : Buffer) (group : ℕ)
    → All (λ round. All IsAnswered round.0) rounds
    → IsValid b
    → t.next_offset < t.end_offset
    → t.end_offset ≤ b.serving_length
    → (chunk_size < t.end_offset - t.next_offset
        → IsDelivered
            (length rounds)
            group
            (total_chunks b.serving_length)
            (t.chunk_sequence + 1)
            (drop chunk_size (todo t (served b)))
            (run_rounds encoder from rounds (serving_state (moved p t) r h l b)))
    → IsDelivered
        (length rounds)
        group
        (total_chunks b.serving_length)
        (t.chunk_sequence + 1)
        (drop chunk_size (todo t (served b)))
        (run_rounds encoder from rounds (after_chunk p t r h l b))
unfolding after_chunk IsDelivered
after-IsDelivered encoder from rounds p t r h l b g a v n m go =
    elim (Bool-cases (leb t.end_offset (t.next_offset + data_size t))) [
      | inr d ↦ rw d (go (ground arith))
      | inl d ↦
          let (v', same, free) = release_lem b v in
          let (none_sent, ended, free') = idle_rounds encoder from rounds (release b) a v' free in
          let nothing : drop chunk_size (todo t (served b)) ≡ [] =
            drop_all chunk_size (todo t (served b)) (
              omega (
                arith,
                last_fits t d,
                length-todo t (served b) (omega (arith, length-served b v)),
              )) in
          rw (d, nothing, pieces_nil) (none_sent, (ended, free'))
    ]

-- The first of some rounds, when the others do what is left after its chunk.
first-IsDelivered :
    (encoder : Packet → List ℕ) (from : ℕ) (cs : List Call) (p : Platform)
    (rounds : List (List Call × Platform)) (t : Target) (r h l : ℕ) (b : Buffer) (group : ℕ)
    → All IsAnswered cs
    → IsValid b
    → is_held b ≡ true
    → t.active ≡ true
    → t.next_offset < t.end_offset
    → t.end_offset ≤ b.serving_length
    → t.next_offset ≡ t.chunk_sequence * chunk_size
    → group_of (named p t) ≡ group
    → IsDelivered
        (length rounds)
        group
        (total_chunks (calls cs b).serving_length)
        (t.chunk_sequence + 1)
        (drop chunk_size (todo t (served (calls cs b))))
        (run_rounds encoder from rounds (after_chunk p t r h l (calls cs b)))
    → IsDelivered
        (suc (length rounds))
        group
        (total_chunks b.serving_length)
        t.chunk_sequence
        (todo t (served b))
        (run_rounds encoder from ((cs, p) ∷ rounds) (serving_state t r h l b))
unfolding IsDelivered run_rounds payloads
first-IsDelivered encoder from cs p rounds t r h l b g a v held ac n m i e (rest, ended) =
    let (v', same, held') = calls-lent cs b a v held in
    let len : (calls cs b).serving_length ≡ b.serving_length =
      sym (length-served (calls cs b) v') ∙ ap length same ∙ length-served b v in
    let some_left : 0 < length (todo t (served b)) =
      omega (arith, length-todo t (served b) (omega (arith, length-served b v))) in
    let m' : t.end_offset ≤ (calls cs b).serving_length = omega arith in
    rw
      (
        calls_serving cs t r h l b v v' same,
        turn-well encoder from p t r h l (calls cs b) ac n m',
        pieces_step (length rounds) g (total_chunks b.serving_length) t.chunk_sequence
            (todo t (served b)) some_left,
      )
      (
        ap
              (λ chunk.
                chunk
                ∷ payloads (run_rounds encoder from rounds (after_chunk p t r h l (calls cs b))).1)
              (chunk_payload p from t r h l (calls cs b) v' n m' i
                ∙ ap
                    (λ k.
                      chunk_header k (total_chunks (calls cs b).serving_length) t.chunk_sequence
                      ++ take chunk_size (todo t (served (calls cs b))))
                    e
                ∙ ap
                    (λ k.
                      chunk_header g (total_chunks k) t.chunk_sequence
                      ++ take chunk_size (todo t (served (calls cs b))))
                    len
                ∙ ap
                    (λ bytes.
                      chunk_header g (total_chunks b.serving_length) t.chunk_sequence
                      ++ take chunk_size (todo t bytes))
                    same)
            ∙ ap
                (λ chunks.
                  (chunk_header g (total_chunks b.serving_length) t.chunk_sequence
                    ++ take chunk_size (todo t (served b)))
                  ∷ chunks)
                (rest
                  ∙ ap
                      (λ k.
                        pieces (length rounds) g (total_chunks k) (t.chunk_sequence + 1)
                          (drop chunk_size (todo t (served (calls cs b)))))
                      len
                  ∙ ap
                      (λ bytes.
                        pieces (length rounds) g (total_chunks b.serving_length)
                          (t.chunk_sequence + 1) (drop chunk_size (todo t bytes)))
                      same),
        ended,
      )

recast :
    (n total : ℕ) {g g' i i' : ℕ} {bytes bytes' : List ℕ} (r : Transfer × List Act)
    → g ≡ g'
    → i ≡ i'
    → bytes ≡ bytes'
    → IsDelivered n g total i bytes r
    → IsDelivered n g' total i' bytes' r
recast n total {g' = g'} {i = i} {i' = i'} {bytes = bytes} r eg ei eb d =
    subst (λ xs. IsDelivered n g' total i' xs r) eb
      (subst (λ k. IsDelivered n g' total k bytes r) ei
        (subst (λ k. IsDelivered n k total i bytes r) eg d))

-- The numbers of a target after a full chunk.
moved_facts :
    (p : Platform) (t : Target) (n : ℕ) (b : Buffer)
    → IsValid b
    → t.end_offset ≤ b.serving_length
    → t.next_offset ≡ t.chunk_sequence * chunk_size
    → t.end_offset - t.next_offset ≤ suc n * chunk_size
    → chunk_size < t.end_offset - t.next_offset
    → ((moved p t).next_offset < t.end_offset)
      × ((moved p t).chunk_sequence ≡ t.chunk_sequence + 1)
      × ((moved p t).next_offset ≡ (moved p t).chunk_sequence * chunk_size)
      × (t.end_offset - (moved p t).next_offset ≤ n * chunk_size)
moved_facts p t n b v m i k long =
    let bound : b.serving_length ≤ 16384 =
      omega (arith, IsBlock-bound b.serving b.serving_capacity v.serving_block, v.serving_bound) in
    let full : data_size t ≡ chunk_size = ground arith in
    rw full (omega arith, omega arith, omega arith, omega arith)

-- One round and those after it, when those do what is left after a full chunk.
pub round-IsDelivered :
    (encoder : Packet → List ℕ) (from : ℕ) (cs : List Call) (p : Platform)
    (rounds : List (List Call × Platform)) (t : Target) (r h l : ℕ) (b : Buffer)
    → All IsAnswered cs
    → All (λ round. All IsAnswered round.0) rounds
    → IsValid b
    → is_held b ≡ true
    → t.active ≡ true
    → t.next_offset < t.end_offset
    → t.end_offset ≤ b.serving_length
    → t.next_offset ≡ t.chunk_sequence * chunk_size
    → t.end_offset - t.next_offset ≤ suc (length rounds) * chunk_size
    → ((b' : Buffer)
        → IsValid b'
        → is_held b' ≡ true
        → t.end_offset ≤ b'.serving_length
        → (moved p t).next_offset < t.end_offset
        → (moved p t).next_offset ≡ (moved p t).chunk_sequence * chunk_size
        → t.end_offset - (moved p t).next_offset ≤ length rounds * chunk_size
        → IsDelivered
            (length rounds)
            (group_of (moved p t))
            (total_chunks b'.serving_length)
            (moved p t).chunk_sequence
            (todo (moved p t) (served b'))
            (run_rounds encoder from rounds (serving_state (moved p t) r h l b')))
    → IsDelivered
        (suc (length rounds))
        (group_of (named p t))
        (total_chunks b.serving_length)
        t.chunk_sequence
        (todo t (served b))
        (run_rounds encoder from ((cs, p) ∷ rounds) (serving_state t r h l b))
round-IsDelivered encoder from cs p rounds t r h l b a more v held ac n m i k rest =
    let (v', same, held') = calls-lent cs b a v held in
    let m' : t.end_offset ≤ (calls cs b).serving_length =
      omega (arith, m, length-served b v, length-served (calls cs b) v', ap length same) in
    first-IsDelivered encoder from cs p rounds t r h l b (group_of (named p t)) a v held ac n m i
      refl
      (after-IsDelivered encoder from rounds p t r h l (calls cs b) (group_of (named p t)) more v' n
        m'
        (λ long.
          let (n2, s2, i2, k2) = moved_facts p t (length rounds) (calls cs b) v' m' i k long in
          recast (length rounds) (total_chunks (calls cs b).serving_length) _ refl s2
            (todo-moved p t (served (calls cs b)) long) (rest (calls cs b) v' held' m' n2 i2 k2)))

-- The chunks of a target that has its id.
pub named-IsDelivered :
    (encoder : Packet → List ℕ) (from : ℕ) (rounds : List (List Call × Platform)) (t : Target)
    (r h l : ℕ) (b : Buffer)
    → All (λ round. All IsAnswered round.0) rounds
    → IsValid b
    → is_held b ≡ true
    → t.active ≡ true
    → t.next_offset < t.end_offset
    → t.end_offset ≤ b.serving_length
    → t.next_offset ≡ t.chunk_sequence * chunk_size
    → is_unnamed t ≡ false
    → t.end_offset - t.next_offset ≤ length rounds * chunk_size
    → IsDelivered
        (length rounds)
        (group_of t)
        (total_chunks b.serving_length)
        t.chunk_sequence
        (todo t (served b))
        (run_rounds encoder from rounds (serving_state t r h l b))
named-IsDelivered encoder from [] t r h l b a v held ac n m i u k = absurd (omega arith)
named-IsDelivered encoder from ((cs, p) ∷ rounds) t r h l b (a, more) v held ac n m i u k =
    let id : named p t ≡ t = rw u refl in
    subst
      (λ g.
        IsDelivered (suc (length rounds)) g (total_chunks b.serving_length) t.chunk_sequence
          (todo t (served b))
          (run_rounds encoder from ((cs, p) ∷ rounds) (serving_state t r h l b)))
      (ap group_of id)
      (round-IsDelivered encoder from cs p rounds t r h l b a more v held ac n m i k
        (λ b' v' held' m' n' i' k'.
          named-IsDelivered encoder from rounds (moved p t) r h l b' more v' held' ac n' m' i'
            (ap is_unnamed id ∙ u) k'))
