-- ===== src/Mesh/GlobalBuffer/Lease.antt =====
-- The transfer and the lease on the served copy: one transfer at a time, which holds the lease from
-- its start to its end.
use edge_device_esp.Base.{ℕ, ◌≡◌, refl, List, [], ◌∷◌, Option, All, arith}
use edge_device_esp.Sampling.Buffer.{initial}
use edge_device_esp.Sampling.Buffer.Laws.{IsValid, IsBlock}
use edge_device_esp.Sampling.Buffer.Lease.{Call, IsAnswered, is_held}
use edge_device_esp.Mesh.GlobalBuffer.{Transfer, Platform, cleared, start_for_requester}
use edge_device_esp.Mesh.GlobalBuffer.Chunk.{turn}
use edge_device_esp.Mesh.GlobalBuffer.Phase.{
  Phase, idle, serving, call_buffer, start-Phase, call-Phase,
}
use edge_device_esp.Mesh.GlobalBuffer.Turn.{turn-Phase}

-- What can happen: a request from the mesh, a turn of the task, a call of the sampling component.
pub data Event : Type 0 where
  requested :
      (p : Platform) (requester id_high id_low expected group : ℕ) (index : Option ℕ) → Event
  turned : Platform → Event
  sampled : Call → Event

unfoldable pub IsPossible : Event → Type 0
IsPossible (Event.requested p requester id_high id_low expected group index) = Unit
IsPossible (Event.turned p) = Unit
IsPossible (Event.sampled c) = IsAnswered c

pub handle : Event → Transfer → Transfer
handle (Event.requested p requester id_high id_low expected group index) s =
    (start_for_requester p requester id_high id_low expected group index s).1
handle (Event.turned p) s = (turn p s).0
handle (Event.sampled c) s = call_buffer c s

pub run : List Event → Transfer → Transfer
run [] s = s
run (e ∷ es) s = run es (handle e s)

handle-Phase : (e : Event) (s : Transfer) → IsPossible e → Phase s → Phase (handle e s)
unfolding handle IsPossible
handle-Phase (Event.requested p requester id_high id_low expected group index) s h v =
    start-Phase p requester id_high id_low expected group index s v
handle-Phase (Event.turned p) s h v = turn-Phase p s v
handle-Phase (Event.sampled c) s h v = call-Phase c s h v

run-Phase : (es : List Event) (s : Transfer) → All IsPossible es → Phase s → Phase (run es s)
unfolding run
run-Phase [] s h v = v
run-Phase (e ∷ es) s (h, hs) v = run-Phase es (handle e s) hs (handle-Phase e s h v)

-- What a phase says of the variables.
pub IsBalanced : Transfer → Type 0
IsBalanced s =
    IsValid s.buffer
    × (is_held s.buffer ≡ s.serving_acquired)
    × (s.tx_active ≡ s.serving_acquired)
    × (s.send_pending ≡ s.serving_acquired)

phase-IsBalanced : (s : Transfer) → Phase s → IsBalanced s
unfolding IsBalanced
phase-IsBalanced _ (idle b v free) = (v, free, refl, refl)
phase-IsBalanced _ (serving t r h l b v held a n m i) = (v, held, refl, refl)

initial-IsValid : IsValid initial
unfolding IsBlock
initial-IsValid = record {
  working_block = refl;
  serving_block = refl;
  length_bound = omega arith;
  serving_bound = omega arith;
}

-- From the start of the device on, whatever requests, turns, answers of the platform and calls of the
-- sampling component follow each other: the lease on the served copy is out exactly while a transfer
-- is active, a transfer that is active always has a turn pending, and the buffers stay valid. So
-- every lease that is taken goes back when its transfer ends, completed or failed.
pub run-IsBalanced : (es : List Event) → All IsPossible es → IsBalanced (run es (cleared initial))
run-IsBalanced es h = phase-IsBalanced _ (run-Phase es _ h (idle initial initial-IsValid refl))
