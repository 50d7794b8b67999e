-- ===== src/Usb/Link/Refine.antt =====
-- The two queues of a direction as two lists, control before realtime.
use edge_device_esp.Base.{
  ℕ, ◌+◌, ◌-◌, ◌<◌, ◌≤◌, ◌≡◌, refl, ap, ◌∙◌, inl, inr, Bool, true, false, not, ltb, ◌==◌, List, [],
  ◌∷◌, Option, none, some, length, length-append, Bool-cases, arith,
}
use edge_device_esp.Usb.Queue.{Queue, push, pop, take_next}
use edge_device_esp.Usb.Link.{Link, give, push_control, push_realtime, priority_push, take_frame}
use edge_device_esp.Usb.Link.Held.{
  Holds, is_refused, put, push-Holds, pop-Holds_empty, pop-Holds, fits_lem,
}

-- What a link of two queues shows: two lists, and a semaphore that counts what waits in both.
pub record Shows (sizes : ℕ × ℕ) (waiting : List (List ℕ) × List (List ℕ)) (l : Link) : Type 0 where
  pub control : Holds sizes.0 waiting.0 l.control_queue
  pub realtime : Holds sizes.1 waiting.1 l.realtime_queue
  pub counted : l.work ≡ length waiting.0 + length waiting.1

-- A frame is sent into one of the queues, or the task takes one.
pub data Step : Type 0 where
  send : (realtime : Bool) → List ℕ → Step
  take : Step

-- A step of the code, with the frame that the task takes.
abbrev pub step : Step → Link → Link × Option (List ℕ)
step (send realtime p) l = ((priority_push true realtime p l).0, none)
step take l = take_frame l

-- The same on two lists: control goes before realtime.
abbrev pub Lists : Type 0
Lists = List (List ℕ) × List (List ℕ)

abbrev pub list_take : Lists → Lists × Option (List ℕ)
list_take ([], []) = (([], []), none)
list_take ([], y ∷ ys) = (([], ys), some y)
list_take (x ∷ xs, ys) = ((xs, ys), some x)

abbrev pub list_send : (sizes : ℕ × ℕ) (realtime : Bool) → List ℕ → Lists → Lists
list_send sizes true p (xs, ys) = (xs, put sizes.1 p ys)
list_send sizes false p (xs, ys) = (put sizes.0 p xs, ys)

abbrev pub list_step : (sizes : ℕ × ℕ) → Step → Lists → Lists × Option (List ℕ)
list_step sizes (send realtime p) w = (list_send sizes realtime p w, none)
list_step sizes take w = list_take w

-- Runs of steps, with the frames that were taken, in order.
abbrev pub keep : Option (List ℕ) → List (List ℕ) → List (List ℕ)
keep none ps = ps
keep (some p) ps = p ∷ ps

unfoldable pub run : List Step → Link → Link × List (List ℕ)
run [] l = (l, [])
run (s ∷ ss) l = let (l', p) = step s l in let (l'', ps) = run ss l' in (l'', keep p ps)

unfoldable pub list_run : (sizes : ℕ × ℕ) → List Step → Lists → Lists × List (List ℕ)
list_run sizes [] w = (w, [])
list_run sizes (s ∷ ss) w =
    let (w', p) = list_step sizes s w in let (w'', ps) = list_run sizes ss w' in (w'', keep p ps)

put_counted :
    (size most n other : ℕ) (p : List ℕ) (xs : List (List ℕ))
    → n ≡ length xs + other
    → length xs ≤ size
    → size + other ≤ most
    → is_refused size p xs ≡ false
    → give most n ≡ length (put size p xs) + other
put_counted size most n other p xs e l k r =
    let room : ltb n most ≡ true = ground arith in
    rw (r, room) (omega (arith, e, length-append xs (p ∷ [])))

module _ (sizes : ℕ × ℕ) (p : List ℕ) (w : Lists) (l : Link) (h : Shows sizes w l) where
  send_control : Shows sizes (put sizes.0 p w.0, w.1) (push_control true p l).0
  send_control =
      let (held, told) = push-Holds sizes.0 p w.0 l.control_queue h.control in
      elim (Bool-cases (is_refused sizes.0 p w.0)) [
        | inl e ↦ let t : (push true p l.control_queue).1 ≡ false = told ∙ ap not e in rw (t, e) h
        | inr e ↦
            let t : (push true p l.control_queue).1 ≡ true = told ∙ ap not e in
            rw t (record {
              control = held;
              realtime = h.realtime;
              counted =
                  put_counted sizes.0 (l.control_queue.capacity + l.realtime_queue.capacity) l.work
                    (length w.1) p w.0 h.counted (fits_lem sizes.0 w.0 l.control_queue h.control)
                    fits e;
            })
      ]
    where
      fits : sizes.0 + length w.1 ≤ l.control_queue.capacity + l.realtime_queue.capacity
      fits = omega (
        arith,
        h.control.slots,
        h.realtime.slots,
        fits_lem sizes.1 w.1 l.realtime_queue h.realtime,
      )

  send_realtime : Shows sizes (w.0, put sizes.1 p w.1) (push_realtime true p l).0
  send_realtime =
      let (held, told) = push-Holds sizes.1 p w.1 l.realtime_queue h.realtime in
      elim (Bool-cases (is_refused sizes.1 p w.1)) [
        | inl e ↦ let t : (push true p l.realtime_queue).1 ≡ false = told ∙ ap not e in rw (t, e) h
        | inr e ↦
            let t : (push true p l.realtime_queue).1 ≡ true = told ∙ ap not e in
            rw t (record {
              control = h.control;
              realtime = held;
              counted =
                  put_counted sizes.1 (l.control_queue.capacity + l.realtime_queue.capacity) l.work
                    (length w.0) p w.1 (omega (arith, h.counted))
                    (fits_lem sizes.1 w.1 l.realtime_queue h.realtime) fits e
                  ∙ omega arith;
            })
      ]
    where
      fits : sizes.1 + length w.0 ≤ l.control_queue.capacity + l.realtime_queue.capacity
      fits =
          omega (
            arith,
            h.control.slots,
            h.realtime.slots,
            fits_lem sizes.0 w.0 l.control_queue h.control,
          )

send-Shows :
    (sizes : ℕ × ℕ) (realtime : Bool) (p : List ℕ) (w : Lists) (l : Link)
    → Shows sizes w l
    → Shows sizes (list_send sizes realtime p w) (priority_push true realtime p l).0
unfolding priority_push
send-Shows sizes true p w l h = send_realtime sizes p w l h
send-Shows sizes false p w l h = send_control sizes p w l h

-- A woken task takes the first control frame, or else the first realtime frame.
take_empty : (l : Link) → l.work ≡ 0 → take_frame l ≡ (l, none)
unfolding take_frame
take_empty l e = let z : (l.work == 0) ≡ true = ground arith in rw z refl

take_some :
    (l : Link)
    → 0 < l.work
    → take_frame l ≡ (
        let taken = take_next true l.control_queue l.realtime_queue in
        (
          record l { control_queue = taken.0; realtime_queue = taken.1; work = l.work - 1 },
          taken.2,
        ))
unfolding take_frame
take_some l e = let z : (l.work == 0) ≡ false = ground arith in rw z refl

take_next_control :
    (c r : Queue) (p : List ℕ)
    → (pop true c).1 ≡ some p
    → take_next true c r ≡ ((pop true c).0, r, some p)
unfolding take_next
take_next_control c r p e = rw (take_next, e) refl

take_next_realtime :
    (c r : Queue)
    → pop true c ≡ (c, none)
    → take_next true c r ≡ (c, (pop true r).0, (pop true r).1)
unfolding take_next
take_next_realtime c r e =
    rw (take_next, e) (ap (λ t. (t, (pop true r).0, (pop true r).1)) (ap (λ t. t.0) e))

take-Shows :
    (sizes : ℕ × ℕ) (w : Lists) (l : Link)
    → Shows sizes w l
    → Shows sizes (list_take w).0 (take_frame l).0 × ((take_frame l).1 ≡ (list_take w).1)
take-Shows sizes ([], []) l h = rw (take_empty l h.counted) (h, refl)
take-Shows sizes ([], y ∷ ys) l h =
    let (held, e) = pop-Holds sizes.1 y ys l.realtime_queue h.realtime in
    rw
      (
        take_some l (omega (arith, h.counted)),
        take_next_realtime l.control_queue l.realtime_queue
            (pop-Holds_empty sizes.0 l.control_queue h.control),
      )
      (record { control = h.control; realtime = held; counted = omega (arith, h.counted) }, e)
take-Shows sizes (x ∷ xs, ys) l h =
    let (held, e) = pop-Holds sizes.0 x xs l.control_queue h.control in
    rw
      (
        take_some l (omega (arith, h.counted)),
        take_next_control l.control_queue l.realtime_queue x e,
      )
      (record { control = held; realtime = h.realtime; counted = omega (arith, h.counted) }, refl)

step-Shows :
    (sizes : ℕ × ℕ) (s : Step) (w : Lists) (l : Link)
    → Shows sizes w l
    → Shows sizes (list_step sizes s w).0 (step s l).0 × ((step s l).1 ≡ (list_step sizes s w).1)
step-Shows sizes (send realtime p) w l h = (send-Shows sizes realtime p w l h, refl)
step-Shows sizes take w l h = take-Shows sizes w l h

-- Two rings and a semaphore are two bounded lists: whatever frames are sent, in whatever turns the
-- task takes them, the task takes exactly the frames that it would take from the lists, control before
-- realtime and each kind in the order of sending, and it sleeps only when no frame waits. A frame of
-- no bytes or of more than 512, and one that finds its queue full, is not put in.
pub run_refines :
    (sizes : ℕ × ℕ) (steps : List Step) (w : Lists) (l : Link)
    → Shows sizes w l
    → Shows sizes (list_run sizes steps w).0 (run steps l).0
      × ((run steps l).1 ≡ (list_run sizes steps w).1)
unfolding run list_run
run_refines sizes [] w l h = (h, refl)
run_refines sizes (s ∷ ss) w l h =
    let (next, taken) = step-Shows sizes s w l h in
    let (last, rest') = run_refines sizes ss (list_step sizes s w).0 (step s l).0 next in
    (last, rw (taken, rest') refl)
