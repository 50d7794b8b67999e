-- ===== src/Usb/Link/Drain.antt =====
-- Frames that are sent into empty queues, and the turns of the task between them and after them.
use edge_device_esp.Base.{
  ℕ, zero, suc, ◌+◌, ◌-◌, ◌<◌, ◌≤◌, ◌≡◌, refl, ◌∙◌, inl, inr, Bool, true, false, ◌||◌, not, ltb,
  ◌==◌, if◌then◌else◌, List, [], ◌∷◌, ◌++◌, length, length-append, All, length-replicate,
  Bool-cases, arith,
}
use mathlib.Core.List.{append_assoc}
use edge_device_esp.Usb.Stream.Frames.{Sendable}
use edge_device_esp.Usb.Queue.{new_queue}
use edge_device_esp.Usb.Queue.Fifo.{IsValid}
use edge_device_esp.Usb.Session.{is_realtime}
use edge_device_esp.Usb.Link.{new_link}
use edge_device_esp.Usb.Link.Held.{put}
use edge_device_esp.Usb.Link.Refine.{Step, send, take, Shows, run, list_run, run_refines}

abbrev pub same_kind : Bool → Bool → Bool
same_kind true b = b
same_kind false b = not b

-- The frames of one kind, and the steps that send a list and take as many.
abbrev pub of_kind : (realtime : Bool) → List (List ℕ) → List (List ℕ)
of_kind realtime [] = []
of_kind realtime (p ∷ ps) =
    if same_kind (is_realtime p) realtime then p ∷ of_kind realtime ps else of_kind realtime ps

abbrev pub sends : List (List ℕ) → List Step
sends [] = []
sends (p ∷ ps) = send (is_realtime p) p ∷ sends ps

abbrev pub takes : ℕ → List Step
takes zero = []
takes (suc n) = take ∷ takes n

-- The task has `turns k` turns before the frame of number k comes.
abbrev pub woven : (turns : ℕ → ℕ) → List Step → List Step
woven turns [] = []
woven turns (s ∷ ss) = takes (turns 0) ++ s ∷ woven (λ k. turns (suc k)) ss

put_room :
    (size n : ℕ) (p : List ℕ) (xs : List (List ℕ))
    → Sendable p
    → length xs + suc n ≤ size
    → put size p xs ≡ xs ++ (p ∷ [])
put_room size n p xs (h, k) l =
    let ok : (length p == 0 || ltb 512 (length p)) ≡ false = ground arith in
    let room : (length xs == size) ≡ false = ground arith in rw (ok, room) refl

grown :
    (size n : ℕ) (p : List ℕ) (xs : List (List ℕ))
    → length xs + suc n ≤ size
    → length (xs ++ (p ∷ [])) + n ≤ size
grown size n p xs l = omega (arith, length-append xs (p ∷ []))

-- A frame of one kind that was put in a queue.
abbrev IsOf : (realtime : Bool) → List ℕ → Type 0
IsOf realtime p = (is_realtime p ≡ realtime) × (length p ≤ 512)

abbrev AllOf : (realtime : Bool) → List (List ℕ) → Type 0
AllOf realtime ps = All (IsOf realtime) ps

AllOf-append :
    (b : Bool) (xs : List (List ℕ)) (p : List ℕ) → AllOf b xs → IsOf b p → AllOf b (xs ++ (p ∷ []))
AllOf-append b [] p h k = (k, tt)
AllOf-append b (x ∷ xs) p (h, hs) k = (h, AllOf-append b xs p hs k)

-- Frames of at most 512 bytes that hold what was waiting and what comes, each kind in its order.
abbrev pub Keeps : (taken controls realtimes : List (List ℕ)) → Type 0
Keeps taken controls realtimes =
    All (λ p. length p ≤ 512) taken
    × (of_kind false taken ≡ controls)
    × (of_kind true taken ≡ realtimes)

Keeps-control :
    (x : List ℕ) (taken cs rs : List (List ℕ))
    → IsOf false x
    → Keeps taken cs rs
    → Keeps (x ∷ taken) (x ∷ cs) rs
Keeps-control x taken cs rs (e, l) (short, c, r) = ((l, short), rw (e, c) refl, rw (e, r) refl)

Keeps-realtime :
    (y : List ℕ) (taken cs rs : List (List ℕ))
    → IsOf true y
    → Keeps taken cs rs
    → Keeps (y ∷ taken) cs (y ∷ rs)
Keeps-realtime y taken cs rs (e, l) (short, c, r) = ((l, short), rw (e, c) refl, rw (e, r) refl)

module _ (sizes : ℕ × ℕ) where
  -- A run of the task from two lists of waiting frames, when `cs` and `rs` still come.
  abbrev Ends : List Step → (xs ys cs rs : List (List ℕ)) → Type 0
  Ends steps xs ys cs rs = Keeps (list_run sizes steps (xs, ys)).1 (xs ++ cs) (ys ++ rs)

  take-Ends :
      (steps : List Step) (xs ys cs rs : List (List ℕ))
      → AllOf false xs
      → AllOf true ys
      → ((vs ws : List (List ℕ))
          → AllOf false vs
          → AllOf true ws
          → length vs ≤ length xs
          → length ws ≤ length ys
          → length vs + length ws ≡ length xs + length ys - 1
          → Ends steps vs ws cs rs)
      → Ends (take ∷ steps) xs ys cs rs
  unfolding list_run
  take-Ends steps [] [] cs rs h k next = next [] [] tt tt (omega arith) (omega arith) refl
  take-Ends steps [] (y ∷ ys) cs rs h (k, ks) next =
      Keeps-realtime y (list_run sizes steps ([], ys)).1 cs (ys ++ rs) k
        (next [] ys tt ks (omega arith) (omega arith) (omega arith))
  take-Ends steps (x ∷ xs) ys cs rs (h, hs) k next =
      Keeps-control x (list_run sizes steps (xs, ys)).1 (xs ++ cs) (ys ++ rs) h
        (next xs ys hs k (omega arith) (omega arith) (omega arith))

  takes-Ends_rest :
      (n : ℕ) (xs ys : List (List ℕ))
      → AllOf false xs
      → AllOf true ys
      → length xs + length ys ≤ n
      → Ends (takes n) xs ys [] []
  unfolding list_run
  takes-Ends_rest zero [] [] h k l = (tt, refl, refl)
  takes-Ends_rest zero [] (y ∷ ys) h k l = absurd (omega arith)
  takes-Ends_rest zero (x ∷ xs) ys h k l = absurd (omega arith)
  takes-Ends_rest (suc n) xs ys h k l =
      take-Ends (takes n) xs ys [] [] h k
        (λ vs ws a b c d e. takes-Ends_rest n vs ws a b (omega arith))

  takes-Ends :
      (n : ℕ) (steps : List Step) (xs ys cs rs : List (List ℕ))
      → AllOf false xs
      → AllOf true ys
      → ((vs ws : List (List ℕ))
          → AllOf false vs
          → AllOf true ws
          → length vs ≤ length xs
          → length ws ≤ length ys
          → Ends steps vs ws cs rs)
      → Ends (takes n ++ steps) xs ys cs rs
  takes-Ends zero steps xs ys cs rs h k next = next xs ys h k (omega arith) (omega arith)
  takes-Ends (suc n) steps xs ys cs rs h k next =
      take-Ends (takes n ++ steps) xs ys cs rs h k (λ vs ws a b c d e.
        takes-Ends n steps vs ws cs rs a b
          (λ vs' ws' a' b' c' d'. next vs' ws' a' b' (omega arith) (omega arith)))

  send-Ends :
      (p : List ℕ) (ps : List (List ℕ)) (steps : List Step) (xs ys : List (List ℕ))
      → Sendable p
      → AllOf false xs
      → AllOf true ys
      → length xs + suc (length ps) ≤ sizes.0
      → length ys + suc (length ps) ≤ sizes.1
      → ((vs ws : List (List ℕ))
          → AllOf false vs
          → AllOf true ws
          → length vs + length ps ≤ sizes.0
          → length ws + length ps ≤ sizes.1
          → length vs + length ws ≡ length xs + suc (length ys)
          → Ends steps vs ws (of_kind false ps) (of_kind true ps))
      → Ends (send (is_realtime p) p ∷ steps) xs ys (of_kind false (p ∷ ps)) (of_kind true (p ∷ ps))
  unfolding list_run
  send-Ends p ps steps xs ys s h k l m next = elim (Bool-cases (is_realtime p)) [
    | inl e ↦
        let ends =
          next xs (ys ++ (p ∷ [])) h (AllOf-append true ys p k (e, s.1)) (omega arith)
            (grown sizes.1 (length ps) p ys m) (omega (arith, length-append ys (p ∷ []))) in
        let e₂ = append_assoc ys (p ∷ []) (of_kind true ps) in
        rw (e, put_room sizes.1 (length ps) p ys s m) (ends.0, ends.1, ends.2 ∙ e₂)
    | inr e ↦
        let ends =
          next (xs ++ (p ∷ [])) ys (AllOf-append false xs p h (e, s.1)) k
            (grown sizes.0 (length ps) p xs l) (omega arith)
            (omega (arith, length-append xs (p ∷ []))) in
        let e₂ = append_assoc xs (p ∷ []) (of_kind false ps) in
        rw (e, put_room sizes.0 (length ps) p xs s l) (ends.0, ends.1 ∙ e₂, ends.2)
  ]

  woven-Ends :
      (turns : ℕ → ℕ) (ps : List (List ℕ)) (n : ℕ) (xs ys : List (List ℕ))
      → All Sendable ps
      → AllOf false xs
      → AllOf true ys
      → length xs + length ps ≤ sizes.0
      → length ys + length ps ≤ sizes.1
      → length xs + length ys + length ps ≤ n
      → Ends (woven turns (sends ps) ++ takes n) xs ys (of_kind false ps) (of_kind true ps)
  woven-Ends turns [] n xs ys s h k l m b = takes-Ends_rest n xs ys h k (omega arith)
  woven-Ends turns (p ∷ ps) n xs ys (s, ss) h k l m b =
      let rest = woven (λ i. turns (suc i)) (sends ps) in
      rw (append_assoc (takes (turns 0)) (send (is_realtime p) p ∷ rest) (takes n)) (
        takes-Ends (turns 0) (send (is_realtime p) p ∷ (rest ++ takes n)) xs ys
          (of_kind false (p ∷ ps)) (of_kind true (p ∷ ps)) h k
          (λ vs ws a b' c d.
            send-Ends p ps (rest ++ takes n) vs ws s a b' (omega arith) (omega arith)
              (λ vs' ws' a₂ b₂ c₂ d₂ e₂.
                woven-Ends (λ i. turns (suc i)) ps n vs' ws' ss a₂ b₂ c₂ d₂ (omega arith))))

pub new_link-Shows : Shows (64, 256) ([], []) new_link
new_link-Shows = record {
  control = record { valid = new 64 (omega arith); list = refl; slots = refl };
  realtime = record { valid = new 256 (omega arith); list = refl; slots = refl };
  counted = refl;
}
  where
    new : (n : ℕ) → 0 < n → IsValid (new_queue n)
    new n h = record {
      slots = length-replicate n [];
      head_in = h;
      full = omega arith;
      tail_at = ground arith;
    }

-- What the lists give when every frame has come and the task has had that many turns more.
abbrev pub list_taken : List Step → List (List ℕ)
list_taken steps = (list_run (64, 256) steps ([], [])).1

pub list_taken-Keeps :
    (turns : ℕ → ℕ) (ps : List (List ℕ))
    → All Sendable ps
    → length ps ≤ 64
    → Keeps
        (list_taken (woven turns (sends ps) ++ takes (length ps)))
        (of_kind false ps)
        (of_kind true ps)
list_taken-Keeps turns ps h l =
    woven-Ends (64, 256) turns ps (length ps) [] [] h tt tt (omega arith) (omega arith)
      (omega arith)

pub run-list_taken : (steps : List Step) → (run steps new_link).1 ≡ list_taken steps
run-list_taken steps = (run_refines (64, 256) steps ([], []) new_link new_link-Shows).1
