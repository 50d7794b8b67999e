-- ===== src/Mesh/Realtime/Order.antt =====
-- Histories of the transmit queue: calls of `voice_tx_enqueue` and turns of `voice_tx_task` in any
-- order. The frames leave in the order in which they came, whatever is given up in between.
use edge_device_esp.Base.{ℕ, ◌≤◌, ◌≡◌, ◌⊎◌, Bool, List, [], ◌∷◌, ◌++◌, Option, All}
use mathlib.Core.List.{Sublistᴰ}
use mathlib.Core.List.Sublistᴰ
use edge_device_esp.Base.EspErr.{EspErr}
use edge_device_esp.Mesh.Routes.{Route}
use edge_device_esp.Mesh.Realtime.{
  Item, Act, Realtime, drop_oldest, enqueue, max_attempts, attempt, turn,
}
use edge_device_esp.Mesh.Realtime.Sender.{calls_made, IsOf}

-- One event in the life of the queue, with what the environment answers.
pub data Event : Type 0 where
  enqueues : (lookup : ℕ → Option Route) (now : ℕ) → Item → Event
  transmits : (radio : ℕ → EspErr) → Event

pub handle : (size_limit : ℕ) (legacy : Bool) → Event → Realtime → Realtime
handle size_limit legacy (Event.enqueues lookup now item) s =
    (enqueue size_limit lookup now item s).1
handle size_limit legacy (Event.transmits radio) s = (turn legacy radio s).0

pub run : (size_limit : ℕ) (legacy : Bool) → List Event → Realtime → Realtime
run size_limit legacy [] s = s
run size_limit legacy (e ∷ es) s = run size_limit legacy es (handle size_limit legacy e s)

-- The items that the events bring, and those that the task takes for the radio.
pub offered : List Event → List Item
offered [] = []
offered (Event.enqueues lookup now item ∷ es) = item ∷ offered es
offered (Event.transmits radio ∷ es) = offered es

-- What the radio is called with in one turn, and the frame of the first call.
abbrev pub first_sent : List Act → List Item
first_sent [] = []
first_sent (Act.sends item ∷ acts) = item ∷ []
first_sent (Act.waits ms ∷ acts) = first_sent acts

-- The calls of each turn, in order, and the frames that they are about.
pub turns : (size_limit : ℕ) (legacy : Bool) → List Event → Realtime → List (List Act)
turns size_limit legacy [] s = []
turns size_limit legacy (Event.enqueues lookup now item ∷ es) s =
    turns size_limit legacy es (enqueue size_limit lookup now item s).1
turns size_limit legacy (Event.transmits radio ∷ es) s =
    (turn legacy radio s).1 ∷ turns size_limit legacy es (turn legacy radio s).0

pub sent : List (List Act) → List Item
sent [] = []
sent (acts ∷ more) = first_sent acts ++ sent more

-- All calls of a turn send the same frame: 8 at most, and 3 at most if it is no speed frame.
abbrev pub IsOneFrame : List Act → Type 0
IsOneFrame acts =
    (calls_made acts ≤ 8)
    × All (λ item. All (IsOf item) acts × (calls_made acts ≤ max_attempts item.payload))
        (first_sent acts)

-- A queue after one more frame: as it was, or with the frame behind, or without the oldest and with
-- the frame behind.
HasTaken : Item → (before after : List Item) → Type 0
HasTaken item q q' = (q' ≡ q) ⊎ ((q' ≡ q ++ (item ∷ [])) ⊎ (q' ≡ drop_oldest q ++ (item ∷ [])))

-- A turn on a queue of which the items are known.
turn_acts : (legacy : Bool) (radio : ℕ → EspErr) → List Item → List Act
turn_acts legacy radio [] = []
turn_acts legacy radio (item ∷ items) = (attempt legacy radio item (max_attempts item.payload) 0).1
