-- ===== src/Mesh/GlobalBuffer/Pull.antt =====
-- A request that is accepted, and the rounds that answer it: the chunks that leave the device carry
-- the served copy, in order, while the sampling component goes on.
use edge_device_esp.Base.{
  ℕ, suc, min, ◌+◌, ◌-◌, ◌*◌, ◌^◌, ◌≤◌, ◌<◌, ◌≡◌, refl, sym, ap, ◌∙◌, ◌⊎◌, inl, inr, true, false,
  ◌&&◌, ◌||◌, not, ltb, leb, ◌==◌, if◌then◌else◌, List, [], ◌∷◌, ◌++◌, Option, none, some, length,
  take, drop, All, Bool-cases, arith,
}
use edge_device_esp.Base.EspErr.{EspErr}
use edge_device_esp.Sampling.Buffer.{Buffer, acquire}
use edge_device_esp.Sampling.Buffer.Laws.{IsValid, served, IsBlock-bound}
use edge_device_esp.Sampling.Buffer.Lease.{
  Call, IsAnswered, is_held, length-served, acquire_free, relet,
}
use edge_device_esp.Mesh.Routes.{mac_bits, mac_is_zero, mac_is_broadcast, next_hop_or}
use edge_device_esp.Mesh.GlobalBuffer.{
  Target, Transfer, Packet, Platform, chunk_size, cleared, start_offsets, start_acquired,
  start_for_requester,
}
use edge_device_esp.Mesh.GlobalBuffer.Chunk.{named}
use edge_device_esp.Mesh.GlobalBuffer.Phase.{serving_state}
use edge_device_esp.Base.{length-drop}
use edge_device_esp.Base.Memory.{drop_all, take_all}
use edge_device_esp.Mesh.GlobalBuffer.Chunk.{chunk_header, total_chunks, is_unnamed, group_of}
use edge_device_esp.Mesh.GlobalBuffer.Turn.{moved}
use edge_device_esp.Mesh.GlobalBuffer.Pieces.{
  run_rounds, payloads, pieces, pieces_step, pieces_nil, joined, joined-pieces, todo, length-todo,
}
use edge_device_esp.Mesh.GlobalBuffer.Delivery.{IsDelivered, named-IsDelivered, round-IsDelivered}

-- The target of a full request, and that of a request for one chunk.
fresh_target : Platform → (requester start stop sequence group : ℕ) → Target
fresh_target p requester start stop sequence group = record {
  active = true;
  target = requester;
  next_hop = next_hop_or p.lookup requester requester;
  message_id_high = 0;
  message_id_low = 0;
  chunk_sequence = sequence;
  next_offset = start;
  end_offset = stop;
  chunk_group_id = group;
}

lent : Buffer → Buffer
lent b = record b { lease = some false }

reserved : (requester id_high id_low : ℕ) → Buffer → Transfer
reserved requester id_high id_low b = record (cleared b) {
  tx_active = true;
  requester = mac_bits requester;
  request_id_high = id_high;
  request_id_low = id_low;
}

-- A proper request to an idle device gets as far as its snapshot.
start_idle :
    (p : Platform) (requester id_high id_low expected group : ℕ) (index : Option ℕ) (b : Buffer)
    → (mac_is_zero requester || mac_is_broadcast requester) ≡ false
    → p.lease_created ≡ true
    → IsValid b
    → is_held b ≡ false
    → 0 < b.serving_length
    → (expected ≡ 0) ⊎ (expected ≡ b.serving_length)
    → start_for_requester p requester id_high id_low expected group index (cleared b)
      ≡ start_offsets p
          (mac_bits requester)
          group
          index
          b.serving_length
          (record (reserved requester id_high id_low b) { buffer = lent b })
unfolding start_for_requester lent reserved
start_idle p requester id_high id_low expected group index b proper made v free some_bytes e =
    let got : acquire p.lease_created b ≡ (EspErr.ok, (served b, lent b)) =
      ap (λ c. acquire c b) made ∙ acquire_free b v free some_bytes in
    let len : length (served b) ≡ b.serving_length = length-served b v in
    let small : b.serving_length ≤ 16384 =
      omega (arith, IsBlock-bound b.serving b.serving_capacity v.serving_block, v.serving_bound) in
    let usable : (length (served b) == 0 || leb (2 ^ 32) (length (served b))) ≡ false =
      ground arith in
    let same : (not (expected == 0) && not (length (served b) == expected)) ≡ false =
      ground arith in
    rw proper (
      ap
        (start_acquired p (mac_bits requester) expected group index
          (reserved requester id_high id_low b))
        got
      ∙ rw (usable, same, len) refl)

start_full :
    (p : Platform) (requester id_high id_low expected : ℕ) (b : Buffer)
    → (mac_is_zero requester || mac_is_broadcast requester) ≡ false
    → p.lease_created ≡ true
    → IsValid b
    → is_held b ≡ false
    → 0 < b.serving_length
    → (expected ≡ 0) ⊎ (expected ≡ b.serving_length)
    → start_for_requester p requester id_high id_low expected 0 none (cleared b) ≡ (
      EspErr.ok,
      serving_state
          (fresh_target p (mac_bits requester) 0 b.serving_length 0 0)
          (mac_bits requester)
          id_high
          id_low
          (lent b),
    )
unfolding fresh_target lent reserved
start_full p requester id_high id_low expected b proper made v free some_bytes e =
    start_idle p requester id_high id_low expected 0 none b proper made v free some_bytes e

-- A request for one chunk names the group it belongs to and a chunk that is there.
start_chunk :
    (p : Platform) (requester id_high id_low group index : ℕ) (b : Buffer)
    → (mac_is_zero requester || mac_is_broadcast requester) ≡ false
    → p.lease_created ≡ true
    → IsValid b
    → is_held b ≡ false
    → 0 < group
    → index * chunk_size < b.serving_length
    → start_for_requester p requester id_high id_low 0 group (some index) (cleared b) ≡ (
      EspErr.ok,
      serving_state
          (fresh_target p
            (mac_bits requester)
            (index * chunk_size)
            (min b.serving_length (index * chunk_size + chunk_size))
            index
            group)
          (mac_bits requester)
          id_high
          id_low
          (lent b),
    )
unfolding fresh_target lent reserved
start_chunk p requester id_high id_low group index b proper made v free g l =
    let there : (group == 0 || leb b.serving_length (index * chunk_size)) ≡ false = ground arith in
    let stop : (if ltb b.serving_length (index * chunk_size + chunk_size)
          then b.serving_length
          else index * chunk_size + chunk_size)
        ≡ min b.serving_length (index * chunk_size + chunk_size) =
      ground arith in
    start_idle p requester id_high id_low 0 group (some index) b proper made v free (omega arith)
      (inl refl)
    ∙ rw (there, stop) refl

-- The rounds of a target that gets its id with the first chunk.
fresh-IsDelivered :
    (encoder : Packet → List ℕ) (from : ℕ) (cs : List Call) (p : Platform)
    (rounds : List (List Call × Platform)) (t : Target) (r h l : ℕ) (b : Buffer)
    → All IsAnswered cs
    → All (λ round. All IsAnswered round.0) rounds
    → IsValid b
    → is_held b ≡ true
    → t.active ≡ true
    → t.next_offset < t.end_offset
    → t.end_offset ≤ b.serving_length
    → t.next_offset ≡ t.chunk_sequence * chunk_size
    → t.end_offset - t.next_offset ≤ suc (length rounds) * chunk_size
    → is_unnamed (named p t) ≡ false
    → IsDelivered
        (suc (length rounds))
        (group_of (named p t))
        (total_chunks b.serving_length)
        t.chunk_sequence
        (todo t (served b))
        (run_rounds encoder from ((cs, p) ∷ rounds) (serving_state t r h l b))
fresh-IsDelivered encoder from cs p rounds t r h l b a more v held ac n m i k u =
    round-IsDelivered encoder from cs p rounds t r h l b a more v held ac n m i k
      (λ b' v' held' m' n' i' k'.
        named-IsDelivered encoder from rounds (moved p t) r h l b' more v' held' ac n' m' i' u k')

-- A request for the whole copy, from a proper address and for any length or for the right one, while
-- nothing is served and there is a copy, is accepted. The turns that follow send the copy in chunks
-- of 220 bytes in order, each behind a header with the group, the number of chunks and its index; a
-- receiver that takes the headers off and joins the chunks has the copy as it was at the request,
-- whatever the sampling component does between the turns. With a turn for every 220 bytes the
-- transfer ends, and the lease is free again. The device knows its address, encodes every packet and
-- finds the radio free, and the first message id is not zero.
pub pull_delivers :
    (encoder : Packet → List ℕ) (from : ℕ) (p : Platform) (requester id_high id_low expected : ℕ)
    (b : Buffer) (cs : List Call) (q : Platform) (rounds : List (List Call × Platform))
    → (mac_is_zero requester || mac_is_broadcast requester) ≡ false
    → p.lease_created ≡ true
    → IsValid b
    → is_held b ≡ false
    → 0 < b.serving_length
    → (expected ≡ 0) ⊎ (expected ≡ b.serving_length)
    → All IsAnswered cs
    → All (λ round. All IsAnswered round.0) rounds
    → 0 < q.id_low
    → b.serving_length ≤ suc (length rounds) * chunk_size
    → ((start_for_requester p requester id_high id_low expected 0 none (cleared b)).0 ≡ EspErr.ok)
      × IsDelivered (suc (length rounds)) q.id_low (total_chunks b.serving_length) 0 (served b) (
          run_rounds encoder from
            ((cs, q) ∷ rounds)
            (start_for_requester p requester id_high id_low expected 0 none (cleared b)).1)
      × (joined (
            payloads
              (run_rounds encoder from
                ((cs, q) ∷ rounds)
                (start_for_requester p requester id_high id_low expected 0 none (cleared b)).1).1)
          ≡ served b)
unfolding fresh_target lent served todo IsDelivered
pull_delivers encoder from p requester id_high id_low expected b cs q rounds proper made v free
      some_bytes e a more fresh_id enough =
    let t : Target = fresh_target p (mac_bits requester) 0 b.serving_length 0 0 in
    let begun = start_full p requester id_high id_low expected b proper made v free some_bytes e in
    let whole : todo t (served b) ≡ served b =
      take_all (b.serving_length - 0) (served b) (omega (arith, length-served b v)) in
    let unnamed_no : is_unnamed (named q t) ≡ false = ground arith in
    let (sent, ended) =
      fresh-IsDelivered encoder from cs q rounds t (mac_bits requester) id_high id_low (lent b) a
        more (relet v) refl refl some_bytes (omega arith) refl (omega arith) unnamed_no in
    let chunks : payloads
          (run_rounds encoder from ((cs, q) ∷ rounds)
            (serving_state t (mac_bits requester) id_high id_low (lent b))).1
        ≡ pieces (suc (length rounds)) q.id_low (total_chunks b.serving_length) 0 (served b) =
      sent ∙ ap (pieces (suc (length rounds)) q.id_low (total_chunks b.serving_length) 0) whole in
    rw begun (
      refl,
      (chunks, ended),
      ap joined chunks
          ∙ joined-pieces (suc (length rounds)) q.id_low (total_chunks b.serving_length) 0
              (served b) (omega (arith, length-served b v)),
    )

chunk_bytes :
    (start len : ℕ) (xs : List ℕ)
    → length xs ≡ len
    → take (min len (start + chunk_size) - start) (drop start xs) ≡ take chunk_size (drop start xs)
chunk_bytes start len xs h = elim (Bool-cases (leb (start + chunk_size) len)) [
  | inl e ↦
      let full : min len (start + chunk_size) - start ≡ chunk_size = ground arith in rw full refl
  | inr e ↦
      take_all _ (drop start xs) (ground (arith, length-drop start xs))
      ∙ sym (take_all chunk_size (drop start xs) (ground (arith, length-drop start xs)))
]

one_piece :
    (n group total index : ℕ) (bytes : List ℕ)
    → 0 < length bytes
    → length bytes ≤ chunk_size
    → pieces (suc n) group total index bytes ≡ (chunk_header group total index ++ bytes) ∷ []
one_piece n g t i bytes h k =
    pieces_step n g t i bytes h
    ∙ ap (λ r. (chunk_header g t i ++ take chunk_size bytes) ∷ r)
        (ap (pieces n g t (i + 1)) (drop_all chunk_size bytes k) ∙ pieces_nil n g t (i + 1))
    ∙ ap (λ r. (chunk_header g t i ++ r) ∷ []) (take_all chunk_size bytes k)

-- A request for one chunk that is there, of a group that is not 0, is accepted while nothing is
-- served. The next turn sends exactly that chunk, under the group that the requester named, and
-- turns after it send nothing; the lease is free again.
pub pull_chunk :
    (encoder : Packet → List ℕ) (from : ℕ) (p : Platform) (requester id_high id_low group index : ℕ)
    (b : Buffer) (cs : List Call) (q : Platform) (rounds : List (List Call × Platform))
    → (mac_is_zero requester || mac_is_broadcast requester) ≡ false
    → p.lease_created ≡ true
    → IsValid b
    → is_held b ≡ false
    → 0 < group
    → index * chunk_size < b.serving_length
    → All IsAnswered cs
    → All (λ round. All IsAnswered round.0) rounds
    → 0 < q.id_low
    → let begun = start_for_requester p requester id_high id_low 0 group (some index) (cleared b) in
      let done = run_rounds encoder from ((cs, q) ∷ rounds) begun.1 in
      (begun.0 ≡ EspErr.ok)
      × (payloads done.1
          ≡ (chunk_header group (total_chunks b.serving_length) index
              ++ take chunk_size (drop (index * chunk_size) (served b)))
            ∷ [])
      × (done.0.tx_active ≡ false)
      × (is_held done.0.buffer ≡ false)
unfolding fresh_target lent served todo IsDelivered
pull_chunk encoder from p requester id_high id_low group index b cs q rounds proper made v free g l
      a more fresh_id =
    let stop : ℕ = min b.serving_length (index * chunk_size + chunk_size) in
    let t : Target = fresh_target p (mac_bits requester) (index * chunk_size) stop index group in
    let begun = start_chunk p requester id_high id_low group index b proper made v free g l in
    let unnamed_no : is_unnamed (named q t) ≡ false = ground arith in
    let own : group_of (named q t) ≡ group = ground arith in
    let size : length (todo t (served b)) ≡ stop - index * chunk_size =
      length-todo t (served b) (omega (arith, length-served b v)) in
    let (sent, (ended, free')) =
      fresh-IsDelivered encoder from cs q rounds t (mac_bits requester) id_high id_low (lent b) a
        more (relet v) refl refl (omega arith) (omega arith) refl (omega arith) unnamed_no in
    let alone : pieces (suc (length rounds)) (group_of (named q t)) (total_chunks b.serving_length)
          index (todo t (served b))
        ≡ (chunk_header group (total_chunks b.serving_length) index
            ++ take chunk_size (drop (index * chunk_size) (served b)))
          ∷ [] =
      ap
        (λ k.
          pieces (suc (length rounds)) k (total_chunks b.serving_length) index (todo t (served b)))
        own
      ∙ one_piece (length rounds) group (total_chunks b.serving_length) index (todo t (served b))
          (omega arith) (omega arith)
      ∙ ap (λ r. (chunk_header group (total_chunks b.serving_length) index ++ r) ∷ [])
          (chunk_bytes (index * chunk_size) b.serving_length (served b) (length-served b v)) in
    rw begun (refl, sent ∙ alone, ended, free')
