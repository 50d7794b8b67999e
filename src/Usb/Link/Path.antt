-- ===== src/Usb/Link/Path.antt =====
-- From the bytes of the host to the calls of the radio bridge: the receive loop, the queues and the task
-- that takes frames out of them.
use edge_device_esp.Base.{
  ℕ, ◌≤◌, ◌≡◌, refl, sym, ap, ◌∙◌, inl, inr, Bool, true, false, if◌then◌else◌, List, [], ◌∷◌, ◌++◌,
  Option, none, some, length, drop, drop-length_append, All, flatten, Bool-cases,
}
use mathlib.Core.List.{append_assoc, append-nil, map}
use edge_device_esp.Base.EspErr.{is_ok}
use edge_device_esp.Protocol.Frame.{Outcome, is_request, handle_frame-frame_of}
use edge_device_esp.Usb.Stream.{receive_all}
use edge_device_esp.Usb.Stream.Frames.{stream_frames}
use edge_device_esp.Usb.Session.{Session, Env, Event, connected, is_realtime, handle_frame}
use edge_device_esp.Usb.Session.Delivery.{
  IsPlain, deliveries, plain-Sendable, receive_all-deliveries,
}
use edge_device_esp.Usb.Link.Drain.{
  of_kind, sends, takes, woven, list_taken, list_taken-Keeps, run-list_taken,
}
use edge_device_esp.Usb.Link.{
  Link, Call, Answers, Worker, new_link, take_frame, voice_mark, speed_mark, is_marked, is_comms,
  call, tx_ack, process_voice, process_payload, to_radio,
}
use edge_device_esp.Usb.Link.Refine.{Step, send, take, keep, run, step}

-- The call that hands a payload over.
abbrev pub voice_call : List ℕ → Call
voice_call realtime =
    if is_comms realtime then Call.phone_frame realtime else Call.voice_to_radio realtime

abbrev pub call_of : List ℕ → Call
call_of p =
    if is_marked voice_mark p
    then voice_call (drop 3 p)
    else if is_marked speed_mark p
    then Call.speed_to_radio (drop 3 p)
    else Call.protocol (if is_request p then Outcome.lua p else Outcome.to_radio p false)

pub process_payload-calls :
    (answers : Answers) (depth : ℕ) (p : List ℕ) (w : Worker)
    → length p ≤ 512
    → (process_payload answers depth p w).calls ≡ w.calls ++ (call_of p ∷ [])
unfolding process_payload
process_payload-calls answers depth p w l = elim (Bool-cases (is_marked voice_mark p)) [
  | inl v ↦ rw v (voice (drop 3 p))
  | inr v ↦ rw v (elim (Bool-cases (is_marked speed_mark p)) [
    | inl s ↦ rw s refl
    | inr s ↦ rw s (ap (λ o. w.calls ++ (Call.protocol o ∷ [])) (handle_frame-frame_of p false l))
  ])
]
  where
    answered : (b : Bool) (r : List ℕ) (v : Worker) → (if b then tx_ack v else v).calls ≡ v.calls
    answered true r v = refl
    answered false r v = refl

    voice : (r : List ℕ) → (process_voice answers r w).calls ≡ w.calls ++ (voice_call r ∷ [])
    voice r =
        answered (is_ok (if is_comms r then answers.phone r else answers.voice r)) r
          (call (voice_call r) w)

-- The steps of the task with what it does with a frame.
abbrev pub work : Answers → Step → Link × Worker → Link × Worker
work answers (send realtime p) (l, w) = ((step (send realtime p) l).0, w)
work answers take (l, w) = to_radio answers l w

pub work_run : Answers → List Step → Link × Worker → Link × Worker
work_run answers [] state = state
work_run answers (s ∷ ss) state = work_run answers ss (work answers s state)

abbrev pub IsShort : List ℕ → Type 0
IsShort p = length p ≤ 512

-- What the task does with what it took.
abbrev pub handled : Answers → Link → Worker → Option (List ℕ) → Worker
handled answers l w none = w
handled answers l w (some p) = process_payload answers l.realtime_queue.items p w

taken-calls :
    (answers : Answers) (l : Link) (w : Worker) (taken : Option (List ℕ)) (ps : List (List ℕ))
    → All IsShort (keep taken ps)
    → All IsShort ps
      × ((handled answers l w taken).calls ++ map call_of ps
          ≡ w.calls ++ map call_of (keep taken ps))
taken-calls answers l w none ps h = (h, refl)
taken-calls answers l w (some p) ps (h, hs) = (
  hs,
  ap (λ calls. calls ++ map call_of ps) (process_payload-calls answers l.realtime_queue.items p w h)
      ∙ append_assoc w.calls (call_of p ∷ []) (map call_of ps),
)

to_radio_lem :
    (answers : Answers) (l : Link) (w : Worker)
    → to_radio answers l w ≡ ((take_frame l).0, handled answers (take_frame l).0 w (take_frame l).1)
to_radio_lem answers l w = go (take_frame l).0 (take_frame l).1
  where
    go :
        (l' : Link) (taken : Option (List ℕ))
        → ◌≡◌ {A = Link × Worker}
            (elim taken as (λ k. Link × Worker) [
              | none ↦ (l', w)
              | some p ↦ (l', process_payload answers l'.realtime_queue.items p w)
            ])
            (l', handled answers l' w taken)
    go l' none = refl
    go l' (some p) = refl

work_run-calls :
    (answers : Answers) (steps : List Step) (l : Link) (w : Worker)
    → All IsShort (run steps l).1
    → (work_run answers steps (l, w)).1.calls ≡ w.calls ++ map call_of (run steps l).1
unfolding work_run run
work_run-calls answers [] l w h = sym (append-nil w.calls)
work_run-calls answers (send realtime p ∷ ss) l w h =
    work_run-calls answers ss (step (send realtime p) l).0 w h
work_run-calls answers (take ∷ ss) l w h =
    let (hs, calls) =
      taken-calls answers (take_frame l).0 w (take_frame l).1 (run ss (take_frame l).0).1 h in
    ap (λ state. (work_run answers ss state).1.calls) (to_radio_lem answers l w)
    ∙ work_run-calls answers ss (take_frame l).0
        (handled answers (take_frame l).0 w (take_frame l).1) hs
    ∙ calls

-- The pushes among the calls of the receive loop.
abbrev pub steps_of : List Event → List Step
steps_of [] = []
steps_of (Event.enqueue realtime p ∷ es) = send realtime p ∷ steps_of es
steps_of (Event.stream p ∷ es) = steps_of es
steps_of (Event.log_frame p ∷ es) = steps_of es
steps_of (Event.log_level tag level ∷ es) = steps_of es
steps_of (Event.log_stream on ∷ es) = steps_of es
steps_of (Event.log_test ∷ es) = steps_of es
steps_of (Event.usb_connected on ∷ es) = steps_of es
steps_of (Event.active_usb ∷ es) = steps_of es
steps_of (Event.cap_ble_log ∷ es) = steps_of es

steps_of-deliveries : (ps : List (List ℕ)) → steps_of (deliveries ps) ≡ sends ps
steps_of-deliveries [] = refl
steps_of-deliveries (p ∷ ps) = ap (λ ss. send (is_realtime p) p ∷ ss) (steps_of-deliveries ps)

-- What the receive loop appended to the trace.
abbrev pub new_calls : Session → Session → List Event
new_calls s s' = drop (length s.trace) s'.trace

-- Up to 64 payloads of the host, of 1 to 512 bytes each and none of them a command of the transport or
-- a frame of the old text protocol, framed one after the other and cut into any chunks of at most 2048
-- bytes, arrive in a connected session; the queues towards the radio are empty before, and their task
-- has any number of turns before each payload is queued and, after the last, as many as there are
-- payloads. Its calls are then those of two plain lists of which the control list is always taken from
-- first: each payload is handed over once and unchanged, to the receiver that its mark names, and both
-- the control payloads and the realtime ones go in the order of sending.
pub host-calls :
    (m : ℕ) (env : ℕ → Env) (answers : Answers) (turns : ℕ → ℕ) (ps chunks : List (List ℕ))
    (s : Session) (w : Worker)
    → connected s ≡ true
    → All IsPlain ps
    → length ps ≤ 64
    → All (λ c. length c ≤ 2048) chunks
    → flatten chunks ≡ stream_frames ps
    → let received = (receive_all (handle_frame m env) chunks ([], s)).1 in
      let steps = woven turns (steps_of (new_calls s received)) ++ takes (length ps) in
      let taken = list_taken (woven turns (sends ps) ++ takes (length ps)) in
      ((work_run answers steps (new_link, w)).1.calls ≡ w.calls ++ map call_of taken)
      × (of_kind false taken ≡ of_kind false ps)
      × (of_kind true taken ≡ of_kind true ps)
host-calls m env answers turns ps chunks s w c h l hc e =
    let sendable = plain-Sendable ps h in
    let (empty, trace) = receive_all-deliveries m env ps chunks s c h hc e in
    let (short, control, realtime) = list_taken-Keeps turns ps sendable l in
    let steps = woven turns (sends ps) ++ takes (length ps) in
    rw (trace, drop-length_append s.trace (deliveries ps), steps_of-deliveries ps)
      (
        work_run-calls answers steps new_link w (rw (run-list_taken steps) short)
            ∙ ap (λ taken. w.calls ++ map call_of taken) (run-list_taken steps),
        control,
        realtime,
      )
