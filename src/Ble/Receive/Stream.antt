-- ===== src/Ble/Receive/Stream.antt =====
-- A stream of frames through GATT writes, cut anywhere.
use edge_device_esp.Base.{ℕ, zero, suc, ◌+◌, ◌-◌, ◌≤◌, ◌≡◌, refl, ◌∙◌, sym, ap, arith}
use edge_device_esp.Base.{
  Bool, true, false, ◌&&◌, ◌||◌, not, ltb, ◌==◌, if◌then◌else◌, Bool-cases, inl, inr,
}
use edge_device_esp.Base.{
  List, [], ◌∷◌, ◌++◌, length, take, All, Option, some, flatten, length-append,
}
use edge_device_esp.Base.{take-append, drop-append, take-length_append, drop-length_append}
use edge_device_esp.Base.Words.{word16, word16-bytes}
use edge_device_esp.Protocol.Frame.{Outcome, handle_frame, frame_of, is_request, lua, to_radio}
use edge_device_esp.Protocol.Frame.{handle_frame-frame_of}
use edge_device_esp.Ble.Receive.{wait, discard, whole, round, round_of, process_loop}
use edge_device_esp.Ble.Receive.{process_rx, gatt_write, writes}
use edge_device_esp.Ble.Receive.Laws.{Extends, Round-cases, process_rx_ends, loop_wait}
use edge_device_esp.Ble.Receive.Laws.{loop_whole, whole_less}
use mathlib.Core.List.{append_assoc, append-nil}

round_of-append :
    (n : ℕ) (rx more : List ℕ) → Extends (round_of n rx) more (round_of n (rx ++ more))
unfolding round_of
round_of-append n rx more = elim (Bool-cases (ltb 512 n)) [
  | inl e ↦ rw e refl
  | inr e ↦ rw e (elim (Bool-cases (ltb (length rx) (4 + n))) [
    | inl short ↦ rw short tt
    | inr long ↦
        rw (long, longer long, take-append (4 + n) rx more (le long))
          (ap (whole (take (4 + n) rx)) (drop-append (4 + n) rx more (le long)))
  ])
]
  where
    le : ltb (length rx) (4 + n) ≡ false → 4 + n ≤ length rx
    le e = ground arith

    longer : ltb (length rx) (4 + n) ≡ false → ltb (length (rx ++ more)) (4 + n) ≡ false
    longer e = ground (arith, length-append rx more)

round-append : (rx more : List ℕ) → Extends (round rx) more (round (rx ++ more))
unfolding round
round-append [] more = tt
round-append (a ∷ []) more = tt
round-append (a ∷ b ∷ []) more = tt
round-append (a ∷ b ∷ c ∷ []) more = tt
round-append (a ∷ b ∷ lo ∷ hi ∷ r) more = elim (Bool-cases (not (a == b'E') || not (b == b'Z'))) [
  | inl e ↦ rw e refl
  | inr e ↦ rw e (round_of-append (word16 lo hi) (a ∷ b ∷ lo ∷ hi ∷ r) more)
]

abbrev pub frames : List (List ℕ) → List ℕ
frames [] = []
frames (p ∷ ps) = frame_of p ++ frames ps

abbrev pub Fits : List ℕ → Type 0
Fits p = length p ≤ 512

-- What the protocol does with a payload.
abbrev pub accept : Bool → List ℕ → Outcome
accept forward p = if is_request p then lua p else to_radio p forward

abbrev pub accept_all : Bool → List (List ℕ) → List Outcome
accept_all forward [] = []
accept_all forward (p ∷ ps) = accept forward p ∷ accept_all forward ps

round-frame : (p rest : List ℕ) → Fits p → round (frame_of p ++ rest) ≡ whole (frame_of p) rest
unfolding round round_of
round-frame p rest h =
    let w = word16-bytes (length p) (omega arith) in
    let ok : ltb 512 (length p) ≡ false = ground arith in
    let long : ltb (length (frame_of p ++ rest)) (length (frame_of p)) ≡ false =
      ground (arith, length-append p rest) in
    let n : 4 + length p ≡ length (frame_of p) = omega arith in
    rw (w, ok, n, long, take-length_append (frame_of p) rest, drop-length_append (frame_of p) rest)

-- What is left of a stream after some of its bytes were processed: the frames not yet taken.
abbrev pub Split : Bool → List (List ℕ) → List ℕ → List Outcome × List ℕ → Type 0
Split forward ps rest (done, left) =
    (ps1 : List (List ℕ)) × (ps2 : List (List ℕ)) × (accept_all forward ps
      ≡ done ++ accept_all forward ps2)
    × (left ++ rest ≡ frames ps2)
    × All Fits ps2

loop-Split :
    (f : ℕ) (b : Bool) (ps : List (List ℕ)) (rx rest : List ℕ)
    → length rx ≤ f
    → All Fits ps
    → rx ++ rest ≡ frames ps
    → Split b ps rest (process_loop f b rx)
loop-Split zero b ps rx rest l h e = unfold process_loop in (([], ps, refl, e, h))
loop-Split (suc f) b [] [] rest l h e = unfold process_loop round in ([], [], refl, e, h)
loop-Split (suc f) b [] (x ∷ rx) rest l h e = cc
loop-Split (suc f) b (p ∷ ps) rx rest l (h, hs) e = elim (Round-cases (round rx)) [
  | inl w ↦ rw (loop_wait f b rx w) ([], p ∷ ps, refl, e, (h, hs))
  | inr (inl d) ↦ cc (first, discarded d)
  | inr (inr (q, t, w)) ↦
      let (ps1, ps2, done, left, fit) =
        loop-Split f b ps t rest (whole_less rx q t f w l) hs (tail q t w) in
      rw (loop_whole f b rx q t w) (p ∷ ps1, ps2, taken q t w ps2 done, left, fit)
]
  where
    first : round (rx ++ rest) ≡ whole (frame_of p) (frames ps)
    first = rw e (round-frame p (frames ps) h)

    discarded : round rx ≡ discard → round (rx ++ rest) ≡ discard
    discarded d = rw d at (round-append rx rest)

    found : (q t : List ℕ) → round rx ≡ whole q t → round (rx ++ rest) ≡ whole q (t ++ rest)
    found q t w = rw w at (round-append rx rest)

    tail : (q t : List ℕ) → round rx ≡ whole q t → t ++ rest ≡ frames ps
    tail q t w = cc (first, found q t w)

    same : (q t : List ℕ) → round rx ≡ whole q t → q ≡ frame_of p
    same q t w = cc (first, found q t w)

    taken :
        (q t : List ℕ)
        → round rx ≡ whole q t
        → (ps2 : List (List ℕ)) → accept_all b ps ≡ (process_loop f b t).0 ++ accept_all b ps2
        → accept_all b (p ∷ ps)
          ≡ (handle_frame (some q) b ∷ (process_loop f b t).0) ++ accept_all b ps2
    taken q t w ps2 d = rw (same q t w, handle_frame-frame_of p b h) (ap (λ l. accept b p ∷ l) d)

-- What the code relies on of `ble_hs_mbuf_to_flat`: what fits into the room is copied.
abbrev pub CopiesWhole : (ℕ → List ℕ → Option (List ℕ)) → Type 0
CopiesWhole flat = (room : ℕ) (om : List ℕ) → length om ≤ room → flat room om ≡ some om

-- A write on a secured connection, behind at most 515 bytes: the buffer is not dropped.
write_loop :
    (flat : ℕ → List ℕ → Option (List ℕ)) (forward : Bool) (rx chunk : List ℕ)
    → CopiesWhole flat
    → length chunk ≤ 517
    → length rx ≤ 515
    → gatt_write true true forward true (λ room. flat room chunk) rx
      ≡ (0, (process_rx forward true (rx ++ chunk)).0, (process_rx forward true (rx ++ chunk)).1)
unfolding gatt_write
write_loop flat forward rx chunk copies c h =
    let room : (1032 - length rx == 0) ≡ false = ground arith in
    let open' : (forward && false) ≡ false = ground arith in
    rw (open', room, copies (1032 - length rx) chunk (omega arith)) (rw room refl)

rx-Split :
    (forward : Bool) (ps : List (List ℕ)) (rx rest : List ℕ)
    → All Fits ps
    → rx ++ rest ≡ frames ps
    → Split forward ps rest (process_rx forward true rx)
unfolding process_rx
rx-Split forward ps rx rest h e =
    let open' : (forward && false) ≡ false = ground arith in
    rw open' (loop-Split (length rx) forward ps rx rest (omega arith) h e)

-- Nothing but the empty list waits among streams of frames.
frames_wait : (ps : List (List ℕ)) → All Fits ps → round (frames ps) ≡ wait → ps ≡ []
frames_wait [] h w = refl
frames_wait (p ∷ ps) (h, hs) w = cc (round-frame p (frames ps) h)

writes-Split :
    (flat : ℕ → List ℕ → Option (List ℕ)) (forward : Bool) (ps chunks : List (List ℕ)) (rx : List ℕ)
    → CopiesWhole flat
    → All (λ c. length c ≤ 517) chunks
    → length rx ≤ 515
    → round rx ≡ wait
    → All Fits ps
    → rx ++ flatten chunks ≡ frames ps
    → writes flat forward chunks rx ≡ (accept_all forward ps, [])
unfolding writes
writes-Split flat forward ps [] rx copies hc l w h e =
    let e' : rx ≡ frames ps = sym (append-nil rx) ∙ e in
    let n = frames_wait ps h (rw e' at w) in rw (e', n) refl
writes-Split flat forward ps (c ∷ cs) rx copies (hc, hcs) l w h e =
    let (ps1, ps2, done, left, fit) =
      rx-Split forward ps (rx ++ c) (flatten cs) h (append_assoc rx c (flatten cs) ∙ e) in
    let rx' = (process_rx forward true (rx ++ c)).1 in
    let ends = process_rx_ends forward true (rx ++ c) in
    rw
      (
        write_loop flat forward rx c copies hc l,
        writes-Split flat forward ps2 cs rx' copies hcs ends.1 ends.0 fit left,
        done,
      )
      refl

-- However a client cuts a stream of frames into GATT writes of at most 517 bytes on a secured
-- connection, given that the stack copies out a write that fits: every frame is handled once and
-- in order, as the Lua request or the packet for the radio that its payload of at most 512 bytes
-- is, and the buffer is empty at the end.
pub writes-frames :
    (flat : ℕ → List ℕ → Option (List ℕ)) (forward : Bool) (ps chunks : List (List ℕ))
    → CopiesWhole flat
    → All (λ c. length c ≤ 517) chunks
    → All Fits ps
    → flatten chunks ≡ frames ps
    → writes flat forward chunks [] ≡ (accept_all forward ps, [])
writes-frames flat forward ps chunks copies hc h e =
    writes-Split flat forward ps chunks [] copies hc (omega arith) (unfold round in refl) h e
