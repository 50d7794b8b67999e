-- ===== src/Usb/Stream/Frames.antt =====
-- Frames of `usb_write_stream_payload` through the byte stream of `usb_consume_rx`, and noise in front
-- of them.
use edge_device_esp.Base.{ℕ, suc, ◌<◌, ◌≤◌, ◌≡◌, ◌≢◌, refl, ap, ◌∙◌, arith}
use edge_device_esp.Base.{false, ◌||◌, ltb, ◌==◌, length-append}
use edge_device_esp.Base.{List, [], ◌∷◌, ◌++◌, length, All, flatten}
use edge_device_esp.Base.{take-length_append, drop-length_append}
use edge_device_esp.Base.Words.{word16-bytes}
use edge_device_esp.Usb.Stream.{skip, frame, scan, scan_header, scan_body, stream_frame}
use edge_device_esp.Usb.Stream.{magic_0, consume, receive_all}
use edge_device_esp.Usb.Stream.Chunks.{loop_frame, loop_skip, loop_fuel, receive_all-flatten}

-- A payload that `usb_write_stream_payload` does not refuse.
abbrev pub Sendable : List ℕ → Type 0
Sendable p = (0 < length p) × (length p ≤ 512)

pub scan-stream_frame :
    (p rest : List ℕ) → Sendable p → scan (stream_frame p ++ rest) ≡ frame p rest
unfolding scan scan_header scan_body
scan-stream_frame p rest h =
    let w = word16-bytes (length p) (omega arith) in
    let big : (length p == 0 || ltb 512 (length p)) ≡ false = ground arith in
    let whole : ltb (length (p ++ rest)) (length p) ≡ false =
      ground (arith, length-append p rest) in
    rw (w, big, whole, take-length_append, drop-length_append)

-- The handler over a list of payloads, in order.
abbrev pub handle_each {ℓ} : {S : Type ℓ} → (List ℕ → S → S) → List (List ℕ) → S → S
handle_each handle [] s = s
handle_each handle (p ∷ ps) s = handle_each handle ps (handle p s)

abbrev pub stream_frames : List (List ℕ) → List ℕ
stream_frames [] = []
stream_frames (p ∷ ps) = stream_frame p ++ stream_frames ps

scan_noise : (b : ℕ) (r : List ℕ) → b ≢ magic_0 → 0 < length r → scan (b ∷ r) ≡ skip
unfolding scan
scan_noise b [] h l = absurd (omega arith)
scan_noise b (c ∷ r) h l = ground arith

module _ {ℓ} {S : Type ℓ} (handle : List ℕ → S → S) where
  consume_frame :
      (p rest : List ℕ) (s : S)
      → Sendable p
      → consume handle (stream_frame p ++ rest) s ≡ consume handle rest (handle p s)
  unfolding consume
  consume_frame p rest s h =
      let f = suc (suc (suc (length (p ++ rest)))) in
      let n : length rest ≤ f = omega (arith, length-append p rest) in
      loop_frame handle f (stream_frame p ++ rest) p rest s (scan-stream_frame p rest h)
      ∙ loop_fuel handle f (length rest) rest (handle p s) n (omega arith)

  consume-stream_frames :
      (ps : List (List ℕ)) (s : S)
      → All Sendable ps
      → consume handle (stream_frames ps) s ≡ ([], handle_each handle ps s)
  consume-stream_frames [] s h = unfold consume in refl
  consume-stream_frames (p ∷ ps) s (h, hs) =
      consume_frame p (stream_frames ps) s h ∙ consume-stream_frames ps (handle p s) hs

  -- Payloads of 1 to 512 bytes, written one after the other by `usb_write_stream_payload` and read
  -- by `usb_rx_task` in chunks of at most 2048 bytes cut anywhere, are handled each once and in
  -- order, and nothing stays in the buffer.
  pub receive_all-stream_frames :
      (ps chunks : List (List ℕ)) (s : S)
      → All Sendable ps
      → All (λ c. length c ≤ 2048) chunks
      → flatten chunks ≡ stream_frames ps
      → receive_all handle chunks ([], s) ≡ ([], handle_each handle ps s)
  receive_all-stream_frames ps chunks s hp hc e =
      receive_all-flatten handle chunks s hc
      ∙ ap (λ bytes. consume handle bytes s) e
      ∙ consume-stream_frames ps s hp

  consume_skip :
      (b : ℕ) (r : List ℕ) (s : S)
      → scan (b ∷ r) ≡ skip
      → consume handle (b ∷ r) s ≡ consume handle r s
  unfolding consume
  consume_skip b r s e = loop_skip handle (length r) (b ∷ r) s e

  -- Bytes without the first magic byte, in front of any two bytes or more, are dropped: the loop
  -- comes to what follows them with the session unchanged.
  pub consume-noise :
      (noise rest : List ℕ) (s : S)
      → All (λ b. b ≢ magic_0) noise
      → 0 < length rest
      → consume handle (noise ++ rest) s ≡ consume handle rest s
  consume-noise [] rest s h k = refl
  consume-noise (b ∷ bs) rest s (h, hs) k =
      consume_skip b (bs ++ rest) s
        (scan_noise b (bs ++ rest) h (omega (arith, length-append bs rest)))
      ∙ consume-noise bs rest s hs k
