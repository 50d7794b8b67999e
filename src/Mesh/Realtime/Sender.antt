-- ===== src/Mesh/Realtime/Sender.antt =====
-- The attempts that `voice_tx_task` makes with one frame: how many, how long they take, and when
-- they succeed.
use edge_device_esp.Base.{
  ℕ, zero, suc, ◌+◌, ◌≤◌, ◌<◌, ◌≡◌, refl, ap, ◌∙◌, inl, inr, Bool, true, false, ◌||◌, not, ◌==◌,
  List, [], ◌∷◌, All, Bool-cases, arith,
}
use mathlib.Core.Bool.{or-true}
use edge_device_esp.Base.EspErr.{EspErr, is_ok}
use edge_device_esp.Mesh.Realtime.{
  Item, Act, is_speed_frame, max_attempts, retry_delay, retryable, attempt,
}

-- The calls of the radio among what a frame does, and the milliseconds spent waiting.
unfoldable pub calls_made : List Act → ℕ
calls_made [] = 0
calls_made (Act.sends item ∷ acts) = suc (calls_made acts)
calls_made (Act.waits ms ∷ acts) = calls_made acts

pub waited : List Act → ℕ
waited [] = 0
waited (Act.sends item ∷ acts) = waited acts
waited (Act.waits ms ∷ acts) = ms + waited acts

pub IsOf : Item → Act → Type 0
IsOf item (Act.sends sent) = sent ≡ item
IsOf item (Act.waits ms) = ms ≤ 50

-- The longest wait that is still possible after `attempts` attempts.
budget : (speed : Bool) (left attempts : ℕ) → ℕ
budget speed zero attempts = 0
budget speed (suc zero) attempts = 0
budget speed (suc (suc left)) attempts =
    retry_delay speed (attempts + 1) + budget speed (suc left) (attempts + 1)

retry_delay-bound : (speed : Bool) (attempts : ℕ) → retry_delay speed attempts ≤ 50
retry_delay-bound true attempts = omega arith
retry_delay-bound false attempts = omega arith

budget-bound : (payload : List ℕ) → budget (is_speed_frame payload) (max_attempts payload) 0 ≤ 250
unfolding budget
budget-bound payload = elim (Bool-cases (is_speed_frame payload)) [
  | inl e ↦ rw e (omega arith)
  | inr e ↦ rw e (omega arith)
]

retryable_failed : (legacy : Bool) (e : EspErr) → retryable legacy e ≡ true → is_ok e ≡ false
retryable_failed legacy e h = ground arith

attempt_bounded :
    (legacy : Bool) (radio : ℕ → EspErr) (item : Item) (left attempts : ℕ)
    → 0 < left
    → (0 < calls_made (attempt legacy radio item left attempts).1)
      × (calls_made (attempt legacy radio item left attempts).1 ≤ left)
      × (waited (attempt legacy radio item left attempts).1
          ≤ budget (is_speed_frame item.payload) left attempts)
      × All (IsOf item) (attempt legacy radio item left attempts).1
unfolding attempt calls_made waited IsOf budget
attempt_bounded legacy radio item zero attempts h = absurd (omega arith)
attempt_bounded legacy radio item (suc zero) attempts h =
    rw (or-true (is_ok (radio (attempts + 1)) || not (retryable legacy (radio (attempts + 1)))))
      (omega arith, omega arith, omega arith, (refl, tt))
attempt_bounded legacy radio item (suc (suc left)) attempts h =
    let (some_call, few, short, own) =
      attempt_bounded legacy radio item (suc left) (attempts + 1) (omega arith) in
    elim (Bool-cases (
      is_ok (radio (attempts + 1))
      || not (retryable legacy (radio (attempts + 1)))
      || suc left == 0)) [
        | inl e ↦ rw e (omega arith, omega arith, omega arith, (refl, tt))
        | inr e ↦ rw e (
          omega arith,
          omega arith,
          omega arith,
          (refl, (retry_delay-bound (is_speed_frame item.payload) (attempts + 1), own)),
        )
      ]

-- One frame costs the radio at least one call and at most eight, three for voice, all of this frame,
-- and the waits between them are 250 ms at most.
pub attempt-bounds :
    (legacy : Bool) (radio : ℕ → EspErr) (item : Item)
    → (0 < calls_made (attempt legacy radio item (max_attempts item.payload) 0).1)
      × (calls_made (attempt legacy radio item (max_attempts item.payload) 0).1
          ≤ max_attempts item.payload)
      × (waited (attempt legacy radio item (max_attempts item.payload) 0).1 ≤ 250)
      × All (IsOf item) (attempt legacy radio item (max_attempts item.payload) 0).1
attempt-bounds legacy radio item =
    let (some_call, few, short, own) =
      attempt_bounded legacy radio item (max_attempts item.payload) 0 (ground arith) in
    (some_call, few, omega (arith, short, budget-bound item.payload), own)

attempt_reaches :
    (legacy : Bool) (radio : ℕ → EspErr) (item : Item) (left attempts k : ℕ)
    → k < left
    → radio (attempts + k + 1) ≡ EspErr.ok
    → ((j : ℕ) → j < k → (retryable legacy (radio (attempts + j + 1)) ≡ true))
    → ((attempt legacy radio item left attempts).0 ≡ EspErr.ok)
      × (calls_made (attempt legacy radio item left attempts).1 ≡ k + 1)
unfolding attempt calls_made
attempt_reaches legacy radio item zero attempts k l e r = absurd (omega arith)
attempt_reaches legacy radio item (suc left) attempts zero l e r =
    let now : radio (attempts + 1) ≡ EspErr.ok = ap radio {x = attempts + 1} (omega arith) ∙ e in
    rw now (refl, omega arith)
attempt_reaches legacy radio item (suc left) attempts (suc k) l e r =
    let later =
      attempt_reaches legacy radio item left (attempts + 1) k (omega arith)
        (ap radio {x = attempts + 1 + k + 1} (omega arith) ∙ e)
        (λ j h.
          ap (λ i. retryable legacy (radio i)) {x = attempts + 1 + j + 1} (omega arith)
          ∙ r (suc j) (omega arith)) in
    let retried : retryable legacy (radio (attempts + 1)) ≡ true =
      ap (λ i. retryable legacy (radio i)) {x = attempts + 1} (omega arith) ∙ r 0 (omega arith) in
    let failed : is_ok (radio (attempts + 1)) ≡ false =
      retryable_failed legacy (radio (attempts + 1)) retried in
    let more : (left == 0) ≡ false = ground arith in
    rw (failed, retried, more) (later.0, omega (arith, later.1))

-- A frame that the radio takes at attempt k + 1, within the number allowed, goes out when every
-- attempt before failed in a way that is worth a retry; and the radio is called k + 1 times.
pub attempt_delivers :
    (legacy : Bool) (radio : ℕ → EspErr) (item : Item) (k : ℕ)
    → k < max_attempts item.payload
    → radio (k + 1) ≡ EspErr.ok
    → ((j : ℕ) → j < k → (retryable legacy (radio (j + 1)) ≡ true))
    → ((attempt legacy radio item (max_attempts item.payload) 0).0 ≡ EspErr.ok)
      × (calls_made (attempt legacy radio item (max_attempts item.payload) 0).1 ≡ k + 1)
attempt_delivers legacy radio item k l e r =
    attempt_reaches legacy radio item (max_attempts item.payload) 0 k l
      (ap radio {x = 0 + k + 1} (omega arith) ∙ e)
      (λ j h. ap (λ i. retryable legacy (radio i)) {x = 0 + j + 1} (omega arith) ∙ r j h)
