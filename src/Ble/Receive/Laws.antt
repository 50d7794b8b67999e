-- ===== src/Ble/Receive/Laws.antt =====
-- The rounds of the loop of `ble_control_process_rx` in ble_control.c, and what they leave behind.
use edge_device_esp.Base.{ℕ, zero, suc, ◌+◌, ◌≤◌, ◌≡◌, refl, arith, Bool-cases, inl, inr, ◌⊎◌}
use edge_device_esp.Base.{Bool, ◌&&◌, ◌||◌, not, ◌==◌}
use edge_device_esp.Base.{List, [], ◌∷◌, ◌++◌, length, some, length-drop, length-take}
use edge_device_esp.Base.Words.{word16}
use edge_device_esp.Protocol.Frame.{handle_frame}
use edge_device_esp.Ble.Receive.{
  Round, wait, discard, whole, round, round_of, process_loop, process_rx,
}

abbrev pub Said : List ℕ → Round → Type 0
Said rx wait = length rx ≤ 515
Said rx discard = 4 ≤ length rx
Said rx (whole frame rest) = (4 ≤ length frame) × (length rest + length frame ≡ length rx)

round_of_lem : (n : ℕ) (rx : List ℕ) → 4 ≤ length rx → Said rx (round_of n rx)
unfolding round_of
round_of_lem n rx h = ground (arith, length-take (4 + n) rx, length-drop (4 + n) rx)

round_lem : (rx : List ℕ) → Said rx (round rx)
unfolding round
round_lem [] = omega arith
round_lem (a ∷ []) = omega arith
round_lem (a ∷ b ∷ []) = omega arith
round_lem (a ∷ b ∷ c ∷ []) = omega arith
round_lem (a ∷ b ∷ lo ∷ hi ∷ r) = elim (Bool-cases (not (a == b'E') || not (b == b'Z'))) [
  | inl e ↦ rw e (omega arith)
  | inr e ↦ rw e (round_of_lem (word16 lo hi) (a ∷ b ∷ lo ∷ hi ∷ r) (omega arith))
]

pub Round-cases :
    (r : Round) → (r ≡ wait) ⊎ (r ≡ discard) ⊎ ((p : List ℕ) × (t : List ℕ) × (r ≡ whole p t))
Round-cases wait = inl refl
Round-cases discard = inr (inl refl)
Round-cases (whole p t) = inr (inr (p, t, refl))

pub whole_less : (rx p t : List ℕ) (f : ℕ) → round rx ≡ whole p t → length rx ≤ suc f → length t ≤ f
whole_less rx p t f e h = let s : Said rx (whole p t) = rw e at (round_lem rx) in omega (arith, s)

-- One round of the loop, for each answer of `round`.
pub loop_wait :
    (f : ℕ) (b : Bool) (rx : List ℕ) → round rx ≡ wait → process_loop (suc f) b rx ≡ ([], rx)
unfolding process_loop
loop_wait f b rx e = rw (e, process_loop)

pub loop_discard :
    (f : ℕ) (b : Bool) (rx : List ℕ) → round rx ≡ discard → process_loop (suc f) b rx ≡ ([], [])
unfolding process_loop
loop_discard f b rx e = rw (e, process_loop)

pub loop_whole :
    (f : ℕ) (b : Bool) (rx p t : List ℕ)
    → round rx ≡ whole p t
    → process_loop (suc f) b rx
      ≡ (handle_frame (some p) b ∷ (process_loop f b t).0, (process_loop f b t).1)
unfolding process_loop
loop_whole f b rx p t e = rw (e, process_loop)

pub loop_waits :
    (f : ℕ) (b : Bool) (rx : List ℕ) → length rx ≤ f → round (process_loop f b rx).1 ≡ wait
loop_waits zero b [] h = unfold process_loop round in refl
loop_waits zero b (x ∷ rx) h = absurd (omega arith)
loop_waits (suc f) b rx h = elim (Round-cases (round rx)) [
  | inl e ↦ rw (loop_wait f b rx e) e
  | inr (inl e) ↦ rw (loop_discard f b rx e) (unfold round in refl)
  | inr (inr (p, t, e)) ↦ rw (loop_whole f b rx p t e) (loop_waits f b t (whole_less rx p t f e h))
]

-- `ble_control_process_rx` ends by one of its returns: on no buffer does the fuel of the model
-- run out, and at most 515 bytes stay in the buffer.
pub process_rx_ends :
    (forward enabled : Bool) (rx : List ℕ)
    → (round (process_rx forward enabled rx).1 ≡ wait)
      × (length (process_rx forward enabled rx).1 ≤ 515)
process_rx_ends forward enabled rx = (w, rw w at (round_lem (process_rx forward enabled rx).1))
  where
    w : round (process_rx forward enabled rx).1 ≡ wait
    w = elim (Bool-cases (forward && not enabled)) [
      | inl e ↦ unfold process_rx round in rw e refl
      | inr e ↦ unfold process_rx in rw e (loop_waits (length rx) forward rx (omega arith))
    ]

-- More bytes behind the buffer change no answer but `wait`.
abbrev pub Extends : Round → List ℕ → Round → Type 0
Extends wait more r = Unit
Extends discard more r = r ≡ discard
Extends (whole p t) more r = r ≡ whole p (t ++ more)
