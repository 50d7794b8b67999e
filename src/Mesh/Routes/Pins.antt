-- ===== src/Mesh/Routes/Pins.antt =====
-- The pins of a speed test: a pin is found again as long as its frames are less than
-- EDGEZ_SPEED_ROUTE_PIN_TTL_MS apart, so a transfer keeps its waypoint while the routes change.
use edge_device_esp.Base.{
  ℕ, zero, suc, ◌+◌, ◌%◌, ◌^◌, ◌<◌, ◌≡◌, refl, ap, ◌∙◌, ◌⊎◌, inl, inr, true, false, ◌||◌, not, leb,
  ==_refl, List, [], ◌∷◌, Option, none, some, length, take, set, All, Bool-cases, arith,
}
use mathlib.Core.Bool.{and-false}
use edge_device_esp.Base.Words.{sub32, IsU32, sub32-add}
use edge_device_esp.Mesh.Routes.{
  PinKey, Pin, pin_ttl_ms, same_pin, expire, hit, pin_get, pin_slot, pin_put, Peers, waypoint_key,
  fresh_waypoint, settle_waypoint, two_hop_waypoint,
}

-- The clock `d` milliseconds later; it goes round at 2^32.
abbrev pub later : ℕ → ℕ → ℕ
later now d = (now + d) % 2 ^ 32

same_pin_refl : (k : PinKey) → same_pin k k ≡ true
same_pin_refl k = ground (
  arith,
  ==_refl k.source,
  ==_refl k.target,
  ==_refl k.transfer_id,
  ==_refl k.requested_hops,
  ==_refl k.completed_hop,
)

expire-hit : (now : ℕ) (k : PinKey) (pin : Pin) → hit k pin ≡ false → hit k (expire now pin) ≡ false
expire-hit now k pin h = ground arith

unexpired : (now : ℕ) (k : PinKey) (pin : Pin) → hit k (expire now pin) ≡ true → hit k pin ≡ true
unexpired now k pin h = ground arith

-- A pin used now is found `d` milliseconds later.
fresh-hit :
    (now d : ℕ) (k : PinKey) (pin : Pin)
    → IsU32 now
    → d < pin_ttl_ms
    → hit k pin ≡ true
    → hit k (expire (later now d) (record pin { last_used_ms = now })) ≡ true
fresh-hit now d k pin u l h =
    let age : leb pin_ttl_ms (sub32 (later now d) now) ≡ false =
      rw (sub32-add now d u (omega arith)) (ground arith) in
    rw (age, and-false pin.valid) h

-- A pin that was found is found again within its time.
pub pin_get-pin_get :
    (now d : ℕ) (k : PinKey) (w : ℕ) (pins : List Pin)
    → IsU32 now
    → d < pin_ttl_ms
    → (pin_get now k pins).0 ≡ some w
    → (pin_get (later now d) k (pin_get now k pins).1).0 ≡ some w
unfolding pin_get
pin_get-pin_get now d k w [] u l h = h
pin_get-pin_get now d k w (pin ∷ pins) u l h = elim (Bool-cases (hit k (expire now pin))) [
  | inl e ↦ rw (e, fresh-hit now d k pin u l (unexpired now k pin e)) (rw e at h)
  | inr e ↦
      rw (e, expire-hit (later now d) k (expire now pin) e)
        (pin_get-pin_get now d k w pins u l (rw e at h))
]

NoneHit : PinKey → List Pin → Type 0
NoneHit k pins = All (λ pin. hit k pin ≡ false) pins

-- What the loop for a slot ends with: a position before which no pin has the key, or, when no pin
-- has it, the best position so far.
IsSlot : PinKey → List Pin → (i slot result : ℕ) → Type 0
IsSlot k pins i slot result =
    ((result ≡ slot) × NoneHit k pins)
    ⊎ ((j : ℕ) × (result ≡ i + j) × (j < length pins) × NoneHit k (take j pins))

next-IsSlot :
    (k : PinKey) (pin : Pin) (pins : List Pin) (i slot slot' result : ℕ)
    → hit k pin ≡ false
    → (slot' ≡ slot) ⊎ (slot' ≡ i)
    → IsSlot k pins (i + 1) slot' result
    → IsSlot k (pin ∷ pins) i slot result
unfolding IsSlot NoneHit
next-IsSlot k pin pins i slot slot' r h (inl same) (inl (e, n)) = inl (e ∙ same, (h, n))
next-IsSlot k pin pins i slot slot' r h (inr here) (inl (e, n)) =
    inr (0, e ∙ here ∙ omega arith, omega arith, tt)
next-IsSlot k pin pins i slot slot' r h c (inr (j, e, l, n)) =
    inr (suc j, e ∙ omega arith, omega arith, (h, n))

here : (k : PinKey) (pin : Pin) (pins : List Pin) (i slot : ℕ) → IsSlot k (pin ∷ pins) i slot i
unfolding IsSlot NoneHit
here k pin pins i slot = inr (0, omega arith, omega arith, tt)

nothing_left : (k : PinKey) (i slot : ℕ) → IsSlot k [] i slot slot
unfolding IsSlot NoneHit
nothing_left k i slot = inl (refl, tt)

pin_slot_lem :
    (now : ℕ) (k : PinKey) (pins : List Pin) (i slot age : ℕ)
    → IsSlot k pins i slot (pin_slot now k pins i slot age)
unfolding pin_slot
pin_slot_lem now k [] i slot age = nothing_left k i slot
pin_slot_lem now k (pin ∷ pins) i slot age =
    elim (Bool-cases (not pin.valid || same_pin pin.key k)) [
      | inl e ↦ rw e (here k pin pins i slot)
      | inr e ↦ rw e (elim (Bool-cases (leb age (sub32 now pin.last_used_ms))) [
        | inl o ↦ rw o (
            next-IsSlot k pin pins i slot i _ (ground arith) (inr refl)
              (pin_slot_lem now k pins (i + 1) i (sub32 now pin.last_used_ms)))
        | inr o ↦ rw o (
            next-IsSlot k pin pins i slot slot _ (ground arith) (inl refl)
              (pin_slot_lem now k pins (i + 1) slot age))
      ])
    ]

-- A new pin is found within its time, whatever the pins were.
set-pin_get :
    (now d : ℕ) (k : PinKey) (w j : ℕ) (pins : List Pin)
    → IsU32 now
    → d < pin_ttl_ms
    → j < length pins
    → NoneHit k (take j pins)
    → (pin_get
        (later now d)
        k
        (set pins j (record { valid = true; key = k; next_hop = w; last_used_ms = now }))).0
      ≡ some w
unfolding pin_get NoneHit
set-pin_get now d k w j [] u l h n = absurd (omega arith)
set-pin_get now d k w zero (pin ∷ pins) u l h n =
    let new : Pin = record { valid = true; key = k; next_hop = w; last_used_ms = now } in
    rw (fresh-hit now d k new u l (same_pin_refl k)) refl
set-pin_get now d k w (suc j) (pin ∷ pins) u l h (first, n) =
    rw (expire-hit (later now d) k pin first) (set-pin_get now d k w j pins u l (omega arith) n)

zero_add : (j : ℕ) → 0 + j ≡ j
zero_add j = omega arith

first_none : (k : PinKey) (pins : List Pin) → NoneHit k (take 0 pins)
unfolding NoneHit
first_none k pins = tt

pub pin_get-pin_put :
    (now d : ℕ) (k : PinKey) (w : ℕ) (pins : List Pin)
    → IsU32 now
    → d < pin_ttl_ms
    → 0 < length pins
    → (pin_get (later now d) k (pin_put now k w pins)).0 ≡ some w
unfolding pin_put IsSlot
pin_get-pin_put now d k w pins u l h = elim (pin_slot_lem now k pins 0 0 0) [
  | inl (e, n) ↦ rw e (set-pin_get now d k w 0 pins u l h (first_none k pins))
  | inr (j, e, b, n) ↦ rw (e ∙ zero_add j) (set-pin_get now d k w j pins u l b n)
]

length-pin_get :
    (now : ℕ) (k : PinKey) (pins : List Pin) → length (pin_get now k pins).1 ≡ length pins
unfolding pin_get
length-pin_get now k [] = refl
length-pin_get now k (pin ∷ pins) = elim (Bool-cases (hit k (expire now pin))) [
  | inl e ↦ rw e refl
  | inr e ↦ rw e (ap suc (length-pin_get now k pins))
]

-- The waypoints of a transfer's further frames: each comes some time after the one before, and
-- finds the route table and the neighbours as they are by then.
unfoldable pub frames :
    List (Peers × ℕ) → (now target source transfer_id : ℕ) → List Pin → List (Option ℕ)
frames [] now target source transfer_id pins = []
frames ((peers, d) ∷ more) now target source transfer_id pins =
    let step = two_hop_waypoint peers (later now d) target source transfer_id pins in
    step.0 ∷ frames more (later now d) target source transfer_id step.1

waypoint_again :
    (peers : Peers) (now t s x w : ℕ) (pins : List Pin)
    → (pin_get now (waypoint_key t s x) pins).0 ≡ some w
    → ((two_hop_waypoint peers now t s x pins).0 ≡ some w)
      × ((two_hop_waypoint peers now t s x pins).1 ≡ (pin_get now (waypoint_key t s x) pins).1)
unfolding two_hop_waypoint
waypoint_again peers now t s x w pins h = (rw h refl, rw h refl)

abbrev pub IsSoon : Peers × ℕ → Type 0
IsSoon (peers, d) = d < pin_ttl_ms

frames_held :
    (more : List (Peers × ℕ)) (now t s x w : ℕ) (pins : List Pin)
    → All IsSoon more
    → ((d : ℕ) → d < pin_ttl_ms → (pin_get (later now d) (waypoint_key t s x) pins).0 ≡ some w)
    → All (λ r. r ≡ some w) (frames more now t s x pins)
unfolding frames
frames_held [] now t s x w pins soon h = tt
frames_held ((peers, d) ∷ more) now t s x w pins (l, soon) h =
    let (same, kept) = waypoint_again peers (later now d) t s x w pins (h d l) in
    (
      same,
      rw kept (
          frames_held more (later now d) t s x w _ soon (λ d' l'.
            pin_get-pin_get (later now d) d' (waypoint_key t s x) w pins (omega arith) l' (h d l))),
    )

settle_held :
    (now d : ℕ) (k : PinKey) (w : ℕ) (found fresh : Option ℕ) (pins : List Pin)
    → IsU32 now
    → d < pin_ttl_ms
    → 0 < length pins
    → (found ≡ some w → (pin_get (later now d) k pins).0 ≡ some w)
    → (settle_waypoint now k found fresh pins).0 ≡ some w
    → (pin_get (later now d) k (settle_waypoint now k found fresh pins).1).0 ≡ some w
settle_held now d k w (some pinned) fresh pins u l n again h = again h
settle_held now d k w none none pins u l n again h = absurd (ground arith)
settle_held now d k w none (some v) pins u l n again h = pin_get-pin_put now d k v pins u l n ∙ h

first_held :
    (peers : Peers) (now t s x w : ℕ) (pins : List Pin)
    → IsU32 now
    → 0 < length pins
    → (two_hop_waypoint peers now t s x pins).0 ≡ some w
    → (d : ℕ) → d < pin_ttl_ms
    → (pin_get (later now d) (waypoint_key t s x) (two_hop_waypoint peers now t s x pins).1).0
      ≡ some w
unfolding two_hop_waypoint
first_held peers now t s x w pins u n h d l =
    let k : PinKey = waypoint_key t s x in
    settle_held now d k w (pin_get now k pins).0 (fresh_waypoint peers t s x) (pin_get now k pins).1
      u l (ground (arith, length-pin_get now k pins)) (pin_get-pin_get now d k w pins u l) h

-- The waypoint that a two-hop transfer has at one frame, it has at every further frame that comes
-- less than the pins' time after the one before, whatever the route table and the neighbours answer
-- by then, as long as no other transfer asks for a waypoint in between.
pub two_hop_waypoint-frames :
    (peers : Peers) (more : List (Peers × ℕ)) (now t s x w : ℕ) (pins : List Pin)
    → IsU32 now
    → 0 < length pins
    → All IsSoon more
    → (two_hop_waypoint peers now t s x pins).0 ≡ some w
    → All (λ r. r ≡ some w) (frames more now t s x (two_hop_waypoint peers now t s x pins).1)
two_hop_waypoint-frames peers more now t s x w pins u n soon h =
    frames_held more now t s x w _ soon (first_held peers now t s x w pins u n h)
