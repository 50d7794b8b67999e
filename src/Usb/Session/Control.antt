-- ===== src/Usb/Session/Control.antt =====
-- Who may use the UART: the handshake of usb_control_transport.c, and the invariant of a session.
use edge_device_esp.Base.{ℕ, ◌+◌, ◌≤◌, ◌≡◌, ◌≢◌, ◌⊎◌, inl, inr, refl, arith, length-drop}
use edge_device_esp.Base.{true, false, ◌&&◌, ◌||◌, not, ltb, leb, ◌==◌, if◌then◌else◌, Bool-cases}
use edge_device_esp.Base.{List, [], ◌∷◌, ◌++◌, length, drop, get_or}
use edge_device_esp.Base.Words.{word16}
use edge_device_esp.Usb.Session.{Session, Env, Event, log, entering, control, connected, exit}
use edge_device_esp.Usb.Session.{is_set_level, is_legacy, is_realtime, handle_legacy, dispatch}
use edge_device_esp.Usb.Session.{enter_control, claim_uart, set_log_level, handle_frame}
use edge_device_esp.Usb.Session.{send_legacy_echo, legacy_frame, emit}
use mathlib.Core.List.{append_assoc}

-- A well-formed handshake request: type 1, a length field of 17, and a log level up to 5.
pub record IsHandshake (p : List ℕ) : Type 0 where
  pub legacy : is_legacy p ≡ true
  pub kind : get_or p 3 0 ≡ 1
  pub size : length p ≡ 25
  pub field : word16 (get_or p 6 0) (get_or p 7 0) ≡ 17
  pub level : get_or (drop 8 p) 16 0 ≤ 5

enter_control_guard :
    (env : Env) (n : ℕ) (nonce : List ℕ) (s : Session)
    → connected s ≡ false
    → (enter_control env n nonce s ≡ (s, false)) ⊎ ((length nonce ≡ 17) × (get_or nonce 16 0 ≤ 5))
unfolding enter_control
enter_control_guard env n nonce s h =
    elim (Bool-cases
      (not s.initialized || not s.lock || not (length nonce == 17) || ltb 5 (get_or nonce 16 0))) [
        | inl e ↦ inl (rw e)
        | inr e ↦ inr (ground arith, ground arith)
      ]

handle_legacy_guard :
    (env : Env) (p : List ℕ) (s : Session)
    → connected s ≡ false
    → (handle_legacy env p s ≡ s)
      ⊎ ((get_or p 3 0 ≡ 1) × (length (drop 8 p) ≡ 17) × (get_or (drop 8 p) 16 0 ≤ 5))
unfolding handle_legacy
handle_legacy_guard env p s h = elim (Bool-cases (get_or p 3 0 == 1)) [
  | inl k ↦ elim (enter_control_guard env (word16 (get_or p 4 0) (get_or p 5 0)) (drop 8 p) s h) [
    | inl e ↦ inl (rw (k, e))
    | inr g ↦ inr (ground arith, g.0, g.1)
  ]
  | inr k ↦ inl (ground arith)
]

dispatch-locked :
    (max_level : ℕ) (env : Env) (p : List ℕ) (s : Session)
    → connected s ≡ false
    → (dispatch max_level env p s ≡ s) ⊎ IsHandshake p
unfolding dispatch
dispatch-locked max_level env p s h = elim (Bool-cases (is_set_level p)) [
  | inl e ↦ inl (rw (e, h))
  | inr e ↦ elim (Bool-cases (is_legacy p)) [
    | inr f ↦ inl (rw (e, f, h))
    | inl f ↦
        elim (Bool-cases (
          leb (word16 (get_or p 6 0) (get_or p 7 0)) 256
          && length p == 8 + word16 (get_or p 6 0) (get_or p 7 0))) [
            | inr g ↦ inl (rw (e, f, g))
            | inl g ↦ elim (handle_legacy_guard env p s h) [
              | inl k ↦ inl (rw (e, f, g, k))
              | inr k ↦ inr (record {
                legacy = f;
                kind = k.0;
                size = ground (arith, length-drop 8 p);
                field = ground (arith, length-drop 8 p);
                level = k.2;
              })
            ]
          ]
  ]
]

-- A session that noted that a frame came.
abbrev noted : Env → Session → Session
noted e s = record s { last_activity = e.now; handled = s.handled + 1 }

-- While the transport is not connected, only a well-formed handshake request has any effect but that
-- the time of the host's last activity is noted. Any other frame from the host, protobuf, realtime,
-- log command or flow control, makes no call and changes neither the mode nor the gap.
pub handle_frame-locked :
    (max_level : ℕ) (env : ℕ → Env) (p : List ℕ) (s : Session)
    → connected s ≡ false
    → (handle_frame max_level env p s
        ≡ record s { last_activity = (env s.handled).now; handled = s.handled + 1 })
      ⊎ IsHandshake p
unfolding handle_frame
handle_frame-locked max_level env p s h =
    dispatch-locked max_level (env s.handled) p (noted (env s.handled) s) h

-- What no frame and no timeout breaks: the gap stays in the range of the flow control, and the
-- mode is never left at `entering`.
pub record IsValid (s : Session) : Type 0 where
  pub gap_low : 1 ≤ s.gap
  pub gap_high : s.gap ≤ 10
  pub settled : s.mode ≢ entering

pub exit-IsValid : (env : Env) {s : Session} → IsValid s → IsValid (exit env s)
unfolding exit
exit-IsValid env v = ground arith

claim_uart-IsValid :
    (env : Env) (n : ℕ) (nonce : List ℕ) {s : Session}
    → IsValid s
    → IsValid (claim_uart env n nonce s).0
unfolding claim_uart
claim_uart-IsValid env n nonce v = ground arith

enter_control-IsValid :
    (env : Env) (n : ℕ) (nonce : List ℕ) {s : Session}
    → IsValid s
    → IsValid (enter_control env n nonce s).0
unfolding enter_control
enter_control-IsValid env n nonce v = ground (arith, claim_uart-IsValid env n nonce v)

set_log_level-IsValid :
    (m r : ℕ) (tag : List ℕ) {s : Session} → IsValid s → IsValid (set_log_level m r tag s)
unfolding set_log_level
set_log_level-IsValid m r tag v = ground arith

handle_legacy-IsValid :
    (env : Env) (p : List ℕ) {s : Session} → IsValid s → IsValid (handle_legacy env p s)
unfolding handle_legacy
handle_legacy-IsValid env p {s} v = elim (Bool-cases (get_or p 3 0 == 1)) [
  | inl k ↦
      ground (arith, enter_control-IsValid env (word16 (get_or p 4 0) (get_or p 5 0)) (drop 8 p) v)
  | inr k ↦ elim (Bool-cases (get_or p 3 0 == 8)) [
    | inl x ↦ ground (
      arith,
      exit-IsValid env {s = s} v,
      exit-IsValid env {s = send_legacy_echo 9 (word16 (get_or p 4 0) (get_or p 5 0)) [] s}
          (ground arith),
    )
    | inr x ↦ ground arith
  ]
]

pub dispatch-IsValid :
    (m : ℕ) (env : Env) (p : List ℕ) {s : Session} → IsValid s → IsValid (dispatch m env p s)
unfolding dispatch
dispatch-IsValid m env p {s} v = elim (Bool-cases (is_set_level p)) [
  | inl e ↦ rw e (ground (arith, set_log_level-IsValid m (get_or p 4 0) (drop 5 p) v))
  | inr e ↦ elim (Bool-cases (is_legacy p)) [
    | inl f ↦ rw (e, f) (ground (arith, handle_legacy-IsValid env p v))
    | inr f ↦ rw (e, f) (ground arith)
  ]
]

pub handle_frame-IsValid :
    (m : ℕ) (env : ℕ → Env) (p : List ℕ) {s : Session}
    → IsValid s
    → IsValid (handle_frame m env p s)
unfolding handle_frame
handle_frame-IsValid m env p v = dispatch-IsValid m _ p (ground arith)

-- What the handshake leaves behind: the trace grows by these calls.
abbrev pub handshake_calls : ℕ → ℕ → List ℕ → List Event
handshake_calls sequence level nonce =
    Event.log_level (b'*' ∷ []) level
    ∷ Event.stream (legacy_frame 2 sequence nonce)
    ∷ Event.usb_connected true
    ∷ Event.log_stream (not (level == 0))
    ∷ (if level == 0 then Event.active_usb ∷ [] else Event.log_test ∷ Event.active_usb ∷ [])

claim_uart_lem :
    (env : Env) (n : ℕ) (nonce : List ℕ) (s : Session)
    → (env.locked ≡ true) × (env.drained ≡ true) × (env.written ≡ true)
    → ((claim_uart env n nonce s).1 ≡ true)
      × ((claim_uart env n nonce s).0.mode ≡ control)
      × ((claim_uart env n nonce s).0.initialized ≡ s.initialized)
      × ((claim_uart env n nonce s).0.last_activity ≡ env.now)
      × ((claim_uart env n nonce s).0.trace ++ (Event.active_usb ∷ [])
          ≡ s.trace ++ handshake_calls n (get_or nonce 16 0) nonce)
unfolding claim_uart
claim_uart_lem env n nonce s (l, d, w) = elim (Bool-cases (get_or nonce 16 0 == 0)) [
  | inl z ↦ rw (l, d, w, z) (refl, refl, refl, refl, simp append_assoc)
  | inr z ↦ rw (l, d, w, z) (refl, refl, refl, refl, simp append_assoc)
]

handshake_claims :
    (max_level : ℕ) (env : Env) (p : List ℕ) (s : Session)
    → IsHandshake p
    → (s.initialized ≡ true) × (s.lock ≡ true) × (s.mode ≡ log)
    → let r = claim_uart env (word16 (get_or p 4 0) (get_or p 5 0)) (drop 8 p) s in
      dispatch max_level env p s ≡ (if r.1 then emit Event.active_usb r.0 else r.0)
unfolding dispatch handle_legacy enter_control
handshake_claims max_level env p s h (a, b, c) =
    ground (arith, length-drop 8 p, h.legacy, h.kind, h.size, h.field, h.level)

-- A host's handshake request on an initialised transport in log mode, whose UART drains and
-- takes the pong: the transport is connected afterwards, the activity time is now, and the
-- calls made are those of `handshake_calls`, in this order: the log level of the request, the
-- pong with the request's sequence number and payload, USB connected, log streaming on exactly
-- if the level is not 0, the log test in that case, USB as the active interface.
pub dispatch-handshake :
    (max_level : ℕ) (env : Env) (p : List ℕ) (s : Session)
    → IsHandshake p
    → (s.initialized ≡ true) × (s.lock ≡ true) × (s.mode ≡ log)
    → (env.locked ≡ true) × (env.drained ≡ true) × (env.written ≡ true)
    → (connected (dispatch max_level env p s) ≡ true)
      × ((dispatch max_level env p s).last_activity ≡ env.now)
      × ((dispatch max_level env p s).trace
          ≡ s.trace
            ++ handshake_calls
                (word16 (get_or p 4 0) (get_or p 5 0))
                (get_or (drop 8 p) 16 0)
                (drop 8 p))
dispatch-handshake max_level env p s h a b =
    let l = claim_uart_lem env (word16 (get_or p 4 0) (get_or p 5 0)) (drop 8 p) s b in
    rw (handshake_claims max_level env p s h a, l.0) (ground (arith, l.1, l.2, a.0), l.3, l.4)

-- Connected, a frame that is neither a log command nor a legacy frame is put whole into one queue
-- towards the radio, the realtime queue exactly if it begins with a voice or speed magic.
pub dispatch-enqueue :
    (max_level : ℕ) (env : Env) (p : List ℕ) (s : Session)
    → connected s ≡ true
    → is_set_level p ≡ false
    → is_legacy p ≡ false
    → (dispatch max_level env p s).trace
      ≡ s.trace ++ (Event.active_usb ∷ Event.enqueue (is_realtime p) p ∷ [])
unfolding dispatch
dispatch-enqueue max_level env p s c f g =
    rw (f, g, c)
      (append_assoc s.trace (Event.active_usb ∷ []) (Event.enqueue (is_realtime p) p ∷ []))
