-- ===== src/Usb/Session/Delivery.antt =====
-- The receive loop over whole sessions: `usb_rx_task` and `usb_consume_rx` with the frame handler.
use mathlib.Core.Path.{subst}
use edge_device_esp.Base.{ℕ, suc, ◌+◌, ◌≤◌, ◌≡◌, refl, ◌∙◌, ap, inl, inr, arith, get_or, drop}
use edge_device_esp.Base.Words.{word16}
use edge_device_esp.Base.{true, false, List, [], ◌∷◌, ◌++◌, length, All, flatten}
use edge_device_esp.Usb.Stream.{receive_all}
use edge_device_esp.Usb.Stream.Chunks.{consume_keeps, receive_all-flatten}
use edge_device_esp.Usb.Stream.Frames.{
  Sendable, stream_frames, handle_each, receive_all-stream_frames,
}
use edge_device_esp.Usb.Session.{
  Session, Env, Event, log, connected, is_set_level, is_legacy, is_realtime,
}
use edge_device_esp.Usb.Session.{dispatch, handle_frame}
use edge_device_esp.Usb.Session.Control.{
  IsValid, handle_frame-IsValid, IsHandshake, handle_frame-locked, handshake_calls,
  dispatch-handshake, dispatch-enqueue,
}
use mathlib.Core.List.{append_assoc, append-nil}

-- Whatever bytes arrive in chunks of at most 2048, from a valid session: the gap stays in 1 to
-- 10 ms and the mode is not left at `entering`.
pub receive_all-IsValid :
    (m : ℕ) (env : ℕ → Env) (chunks : List (List ℕ)) (s : Session)
    → All (λ c. length c ≤ 2048) chunks
    → IsValid s
    → IsValid (receive_all (handle_frame m env) chunks ([], s)).1
receive_all-IsValid m env chunks s h v = rw (receive_all-flatten (handle_frame m env) chunks s h) (
    consume_keeps (handle_frame m env) IsValid (λ p t. handle_frame-IsValid m env p)
      (flatten chunks) s v)

-- A payload for the radio: neither a log command nor a legacy frame.
pub record IsPlain (p : List ℕ) : Type 0 where
  pub sendable : Sendable p
  pub no_command : is_set_level p ≡ false
  pub no_legacy : is_legacy p ≡ false

abbrev pub deliveries : List (List ℕ) → List Event
deliveries [] = []
deliveries (p ∷ ps) = Event.active_usb ∷ Event.enqueue (is_realtime p) p ∷ deliveries ps

frame-connected :
    (m : ℕ) (env : ℕ → Env) (p : List ℕ) (s : Session)
    → connected s ≡ true
    → IsPlain p
    → (connected (handle_frame m env p s) ≡ true)
      × ((handle_frame m env p s).trace
          ≡ s.trace ++ (Event.active_usb ∷ Event.enqueue (is_realtime p) p ∷ []))
unfolding handle_frame
frame-connected m env p s c h = (
  unfold dispatch in rw (h.no_command, h.no_legacy, c) c,
  dispatch-enqueue m _ p _ c h.no_command h.no_legacy,
)

each-deliveries :
    (m : ℕ) (env : ℕ → Env) (ps : List (List ℕ)) (s : Session)
    → connected s ≡ true
    → All IsPlain ps
    → (handle_each (handle_frame m env) ps s).trace ≡ s.trace ++ deliveries ps
each-deliveries m env [] s c h = rw append-nil
each-deliveries m env (p ∷ ps) s c (h, hs) =
    let (c', t) = frame-connected m env p s c h in
    each-deliveries m env ps (handle_frame m env p s) c' hs
    ∙ ap (λ l. l ++ deliveries ps) t
    ∙ append_assoc s.trace _ (deliveries ps)

pub plain-Sendable : (ps : List (List ℕ)) → All IsPlain ps → All Sendable ps
plain-Sendable [] h = tt
plain-Sendable (p ∷ ps) (h, hs) = (h.sendable, plain-Sendable ps hs)

-- Connected, payloads of 1 to 512 bytes that are neither log commands nor legacy frames,
-- framed one after the other and cut into any chunks of at most 2048 bytes: each reaches the
-- queues towards the radio once and in order, in the queue of its kind; the bridge is told before
-- each that USB is the active interface, no other call is made, and no byte stays behind.
pub receive_all-deliveries :
    (m : ℕ) (env : ℕ → Env) (ps chunks : List (List ℕ)) (s : Session)
    → connected s ≡ true
    → All IsPlain ps
    → All (λ c. length c ≤ 2048) chunks
    → flatten chunks ≡ stream_frames ps
    → ((receive_all (handle_frame m env) chunks ([], s)).0 ≡ [])
      × ((receive_all (handle_frame m env) chunks ([], s)).1.trace ≡ s.trace ++ deliveries ps)
receive_all-deliveries m env ps chunks s c h hc e =
    rw (receive_all-stream_frames (handle_frame m env) ps chunks s (plain-Sendable ps h) hc e)
      (refl, each-deliveries m env ps s c h)

-- The payloads that were put into the queues, among the calls.
abbrev pub enqueued : List Event → List (List ℕ)
enqueued [] = []
enqueued (Event.enqueue realtime p ∷ es) = p ∷ enqueued es
enqueued (Event.stream p ∷ es) = enqueued es
enqueued (Event.log_frame p ∷ es) = enqueued es
enqueued (Event.log_level tag level ∷ es) = enqueued es
enqueued (Event.log_stream on ∷ es) = enqueued es
enqueued (Event.log_test ∷ es) = enqueued es
enqueued (Event.usb_connected on ∷ es) = enqueued es
enqueued (Event.active_usb ∷ es) = enqueued es
enqueued (Event.cap_ble_log ∷ es) = enqueued es

enqueued-append : (xs ys : List Event) → enqueued (xs ++ ys) ≡ enqueued xs ++ enqueued ys
enqueued-append [] ys = refl
enqueued-append (Event.enqueue realtime p ∷ es) ys = ap (λ r. p ∷ r) (enqueued-append es ys)
enqueued-append (Event.stream p ∷ es) ys = enqueued-append es ys
enqueued-append (Event.log_frame p ∷ es) ys = enqueued-append es ys
enqueued-append (Event.log_level tag level ∷ es) ys = enqueued-append es ys
enqueued-append (Event.log_stream on ∷ es) ys = enqueued-append es ys
enqueued-append (Event.log_test ∷ es) ys = enqueued-append es ys
enqueued-append (Event.usb_connected on ∷ es) ys = enqueued-append es ys
enqueued-append (Event.active_usb ∷ es) ys = enqueued-append es ys
enqueued-append (Event.cap_ble_log ∷ es) ys = enqueued-append es ys

enqueued-deliveries : (ps : List (List ℕ)) → enqueued (deliveries ps) ≡ ps
enqueued-deliveries [] = refl
enqueued-deliveries (p ∷ ps) = ap (λ r. p ∷ r) (enqueued-deliveries ps)

enqueued-handshake_calls :
    (n level : ℕ) (nonce : List ℕ) → enqueued (handshake_calls n level nonce) ≡ []
enqueued-handshake_calls n level nonce = ground arith

-- A session that waits for the handshake, and the answers for the frame with the number `n`.
abbrev pub IsWaiting : Session → Type 0
IsWaiting s = (s.initialized ≡ true) × (s.lock ≡ true) × (s.mode ≡ log)

abbrev pub IsGranted : Env → Type 0
IsGranted e = (e.locked ≡ true) × (e.drained ≡ true) × (e.written ≡ true)

plain_ignored :
    (m : ℕ) (env : ℕ → Env) (p : List ℕ) (s : Session)
    → IsWaiting s
    → IsPlain p
    → handle_frame m env p s
      ≡ record s { last_activity = (env s.handled).now; handled = s.handled + 1 }
plain_ignored m env p s (i, l, w) h = elim (handle_frame-locked m env p s (rw (i, w) refl)) [
  | inl e ↦ e
  | inr k ↦ absurd (cc (k.legacy, h.no_legacy))
]

opened :
    (m : ℕ) (env : ℕ → Env) (p : List ℕ) (s : Session)
    → IsHandshake p
    → IsWaiting s
    → IsGranted (env s.handled)
    → (connected (handle_frame m env p s) ≡ true)
      × (enqueued (handle_frame m env p s).trace ≡ enqueued s.trace)
unfolding handle_frame
opened m env p s h w g =
    let (c, now, t) =
      dispatch-handshake m (env s.handled) p
        (record s { last_activity = (env s.handled).now; handled = s.handled + 1 }) h w g in
    (
      c,
      ap enqueued t
          ∙ enqueued-append s.trace _
          ∙ ap (λ r. enqueued s.trace ++ r)
              (enqueued-handshake_calls (word16 (get_or p 4 0) (get_or p 5 0))
                (get_or (drop 8 p) 16 0) (drop 8 p))
          ∙ append-nil _,
    )

each_session :
    (m : ℕ) (env : ℕ → Env) (qs : List (List ℕ)) (p : List ℕ) (ps : List (List ℕ)) (s : Session)
    → IsWaiting s
    → All IsPlain qs
    → IsHandshake p
    → All IsPlain ps
    → IsGranted (env (s.handled + length qs))
    → enqueued (handle_each (handle_frame m env) (qs ++ (p ∷ ps)) s).trace ≡ enqueued s.trace ++ ps
each_session m env [] p ps s w hq h hs g =
    let (c, t) =
      opened m env p s h w (subst (λ n. IsGranted (env n)) {x = s.handled + 0} (omega arith) g) in
    ap enqueued (each-deliveries m env ps (handle_frame m env p s) c hs)
    ∙ enqueued-append (handle_frame m env p s).trace (deliveries ps)
    ∙ ap (λ r. r ++ enqueued (deliveries ps)) t
    ∙ ap (λ r. enqueued s.trace ++ r) (enqueued-deliveries ps)
each_session m env (q ∷ qs) p ps s w (hq, hqs) h hs g =
    ap (λ t. enqueued (handle_each (handle_frame m env) (qs ++ (p ∷ ps)) t).trace)
      (plain_ignored m env q s w hq)
    ∙ each_session m env qs p ps
        (record s { last_activity = (env s.handled).now; handled = s.handled + 1 }) w hqs h hs
        (subst (λ n. IsGranted (env n)) {x = s.handled + suc (length qs)} (omega arith) g)

session-Sendable :
    (qs : List (List ℕ)) (p : List ℕ) (ps : List (List ℕ))
    → All IsPlain qs
    → IsHandshake p
    → All IsPlain ps
    → All Sendable (qs ++ (p ∷ ps))
session-Sendable [] p ps hq h hs = (omega (arith, h.size), plain-Sendable ps hs)
session-Sendable (q ∷ qs) p ps (hq, hqs) h hs = (hq.sendable, session-Sendable qs p ps hqs h hs)

-- Payloads for the radio, a handshake request and more payloads, sent one after the other to a transport
-- that waits for the handshake, and cut into any chunks of at most 2048 bytes; the UART drains and
-- takes the answer to the handshake. Of the payloads before the handshake none is put into the queues
-- towards the radio, and of those behind it each is, once and in order.
pub receive_all-handshake :
    (m : ℕ) (env : ℕ → Env) (qs : List (List ℕ)) (p : List ℕ) (ps chunks : List (List ℕ))
    (s : Session)
    → IsWaiting s
    → All IsPlain qs
    → IsHandshake p
    → All IsPlain ps
    → IsGranted (env (s.handled + length qs))
    → All (λ c. length c ≤ 2048) chunks
    → flatten chunks ≡ stream_frames (qs ++ (p ∷ ps))
    → enqueued (receive_all (handle_frame m env) chunks ([], s)).1.trace ≡ enqueued s.trace ++ ps
receive_all-handshake m env qs p ps chunks s w hq h hs g hc e =
    ap (λ r. enqueued r.1.trace)
      (receive_all-stream_frames (handle_frame m env) (qs ++ (p ∷ ps)) chunks s
        (session-Sendable qs p ps hq h hs) hc e)
    ∙ each_session m env qs p ps s w hq h hs g
