-- ===== src/Tests/Sampling.antt =====
-- Concrete runs of the sampling buffers and of the transfer that serves them.
use edge_device_esp.Base.{
  ℕ, ◌≡◌, inr, refl, Bool, true, false, List, [], ◌∷◌, Option, none, some, replicate,
  length-replicate, All, arith,
}
use edge_device_esp.Base.EspErr.{EspErr}
use edge_device_esp.Sampling.Buffer.{Buffer, initial, write_at}
use edge_device_esp.Sampling.Buffer.Laws.{IsBlock, IsValid, served}
use edge_device_esp.Sampling.Buffer.Writes.{IsWritten, write_at_lem}
use edge_device_esp.Sampling.Buffer.Lease.{Call, IsAnswered, calls, calls-lent, is_held}
use edge_device_esp.Mesh.GlobalBuffer.{Platform, cleared, start_for_requester}
use edge_device_esp.Mesh.GlobalBuffer.Chunk.{total_chunks}
use edge_device_esp.Mesh.GlobalBuffer.Lease.{Event, IsPossible, IsBalanced, run, run-IsBalanced}
use edge_device_esp.Mesh.GlobalBuffer.Pieces.{run_rounds, payloads, joined}
use edge_device_esp.Mesh.GlobalBuffer.Delivery.{IsDelivered}
use edge_device_esp.Mesh.GlobalBuffer.Pull.{pull_delivers}

-- Two blocks of the heap, and buffers with 300 bytes in both.
abbrev block : List ℕ
block = replicate 16384 7

block-IsBlock : IsBlock (some block) 0
unfolding IsBlock
block-IsBlock = (length-replicate {A = ℕ} 16384 7, omega arith)

block-full : IsBlock (some block) 16384
unfolding IsBlock
block-full = (length-replicate {A = ℕ} 16384 7, omega arith)

abbrev filled : Option Bool → Buffer
filled lease = record {
  working = some block;
  capacity = 16384;
  working_length = 300;
  serving = some block;
  serving_capacity = 16384;
  serving_length = 300;
  lease = lease;
}

filled-IsValid : (lease : Option Bool) → IsValid (filled lease)
filled-IsValid lease = record {
  working_block = block-full;
  serving_block = block-full;
  length_bound = omega arith;
  serving_bound = omega arith;
}

none_given : IsBlock none 0
unfolding IsBlock
none_given = refl

write_at_lem_example :
    IsWritten
      (filled none)
      310
      (1 ∷ 2 ∷ [])
      (write_at (some block) none 310 (1 ∷ 2 ∷ []) (filled none))
write_at_lem_example =
    write_at_lem (some block) none 310 (1 ∷ 2 ∷ []) (filled none) block-IsBlock none_given
      (filled-IsValid none)

abbrev busy_calls : List Call
busy_calls = Call.resets ∷ Call.appends none none (9 ∷ []) ∷ Call.publishes true ∷ []

busy_calls-IsAnswered : All IsAnswered busy_calls
unfolding IsAnswered
busy_calls-IsAnswered = (tt, ((none_given, none_given), (tt, tt)))

calls-lent_example :
    IsValid (calls busy_calls (filled (some false)))
    × (served (calls busy_calls (filled (some false))) ≡ served (filled (some false)))
    × (is_held (calls busy_calls (filled (some false))) ≡ true)
calls-lent_example =
    calls-lent busy_calls (filled (some false)) busy_calls-IsAnswered (filled-IsValid (some false))
      refl

abbrev platform : Platform
platform = record {
  self_mac = some 5;
  id_high = 1;
  id_low = 2;
  status_id_high = 3;
  status_id_low = 4;
  max_hop = 3;
  lookup = λ target. none;
  encode = λ packet. some packet.payload;
  radio = λ encoded. EspErr.ok;
  lease_created = true;
}

pull_delivers_example :
    ((start_for_requester platform 77 1 2 300 0 none (cleared (filled none))).0 ≡ EspErr.ok)
    × IsDelivered 2 2 (total_chunks 300) 0 (served (filled none)) (
        run_rounds
          (λ packet. packet.payload)
          5
          ((busy_calls, platform) ∷ (busy_calls, platform) ∷ [])
          (start_for_requester platform 77 1 2 300 0 none (cleared (filled none))).1)
    × (joined (
          payloads
            (run_rounds
              (λ packet. packet.payload)
              5
              ((busy_calls, platform) ∷ (busy_calls, platform) ∷ [])
              (start_for_requester platform 77 1 2 300 0 none (cleared (filled none))).1).1)
        ≡ served (filled none))
pull_delivers_example =
    pull_delivers (λ packet. packet.payload) 5 platform 77 1 2 300 (filled none) busy_calls platform
      ((busy_calls, platform) ∷ []) refl refl (filled-IsValid none) refl (omega arith) (inr refl)
      busy_calls-IsAnswered (busy_calls-IsAnswered, tt) (omega arith) (omega arith)

abbrev history : List Event
history =
    Event.sampled (Call.appends (some block) (some block) (1 ∷ 2 ∷ 3 ∷ []))
    ∷ Event.sampled (Call.publishes true)
    ∷ Event.requested platform 77 1 2 3 0 none
    ∷ Event.requested platform 78 1 3 0 0 none
    ∷ Event.turned platform
    ∷ []

history-IsPossible : All IsPossible history
unfolding IsPossible IsAnswered
history-IsPossible = ((block-IsBlock, block-IsBlock), (tt, (tt, (tt, (tt, tt)))))

run-IsBalanced_example : IsBalanced (run history (cleared initial))
run-IsBalanced_example = run-IsBalanced history history-IsPossible
