-- ===== src/Usb/Stream/Chunks.antt =====
-- `usb_consume_rx` of usb_control_transport.c: how it ends, and the chunks that the UART cuts the
-- bytes into.
use edge_device_esp.Base.{ℕ, zero, suc, ◌+◌, ◌<◌, ◌≤◌, ◌≡◌, refl, sym, ap, ◌∙◌, arith}
use edge_device_esp.Base.{false, ◌&&◌, ◌||◌, ltb, ◌==◌, Bool-cases}
use edge_device_esp.Base.{List, [], ◌∷◌, ◌++◌, ◌⊎◌, inl, inr, length, take, drop, All, flatten}
use edge_device_esp.Base.{length-append, length-drop, length-take, take-append, drop-append}
use edge_device_esp.Base.Words.{word16}
use edge_device_esp.Usb.Stream.{
  Scan, wait, skip, frame, scan, scan_header, scan_body, magic_0, magic_1,
}
use edge_device_esp.Usb.Stream.{max_payload, consume_loop, consume, receive, receive_all}
use mathlib.Core.List.{append_assoc, append-nil}

-- What each answer of `scan` says of the buffer.
abbrev pub Scanned : List ℕ → Scan → Type 0
Scanned rx wait = length rx ≤ 515
Scanned rx skip = 2 ≤ length rx
Scanned rx (frame p rest) =
    (0 < length p) × (length p ≤ 512) × (length rest + length p + 4 ≡ length rx)

scan_body_lem :
    (a b hi lo n : ℕ) (body : List ℕ) → Scanned (a ∷ b ∷ hi ∷ lo ∷ body) (scan_body n body)
unfolding scan_body
scan_body_lem a b hi lo n body = ground (arith, length-take n body, length-drop n body)

pub scan_lem : (rx : List ℕ) → Scanned rx (scan rx)
unfolding scan
scan_lem [] = omega arith
scan_lem (a ∷ []) = omega arith
scan_lem (a ∷ b ∷ rest) = elim (Bool-cases (a == magic_0 && b == magic_1)) [
  | inl e ↦ rw e (header rest)
  | inr e ↦ rw e (omega arith)
]
  where
    header : (r : List ℕ) → Scanned (a ∷ b ∷ r) (scan_header r)
    header [] = omega arith
    header (hi ∷ []) = omega arith
    header (hi ∷ lo ∷ body) = scan_body_lem a b hi lo (word16 lo hi) body

-- More bytes behind the buffer change neither a byte dropped nor a frame taken.
abbrev pub Extends : Scan → List ℕ → Scan → Type 0
Extends wait more s = Unit
Extends skip more s = s ≡ skip
Extends (frame p rest) more s = s ≡ frame p (rest ++ more)

scan_body-append :
    (n : ℕ) (body more : List ℕ) → Extends (scan_body n body) more (scan_body n (body ++ more))
unfolding scan_body
scan_body-append n body more = elim (Bool-cases (n == 0 || ltb max_payload n)) [
  | inl bad ↦ rw bad refl
  | inr good ↦ rw good (elim (Bool-cases (ltb (length body) n)) [
    | inl short ↦ rw short tt
    | inr whole ↦
        rw (whole, longer whole, take-append n body more (le whole))
          (ap (frame (take n body)) (drop-append n body more (le whole)))
  ])
]
  where
    le : ltb (length body) n ≡ false → n ≤ length body
    le e = ground arith

    longer : ltb (length body) n ≡ false → ltb (length (body ++ more)) n ≡ false
    longer e = ground (arith, length-append body more)

scan_header-append :
    (rest more : List ℕ) → Extends (scan_header rest) more (scan_header (rest ++ more))
unfolding scan_header
scan_header-append [] more = tt
scan_header-append (hi ∷ []) more = tt
scan_header-append (hi ∷ lo ∷ body) more = scan_body-append (word16 lo hi) body more

pub scan-append : (rx more : List ℕ) → Extends (scan rx) more (scan (rx ++ more))
unfolding scan
scan-append [] more = tt
scan-append (a ∷ []) more = tt
scan-append (a ∷ b ∷ rest) more = elim (Bool-cases (a == magic_0 && b == magic_1)) [
  | inl e ↦ rw e (scan_header-append rest more)
  | inr e ↦ rw e refl
]

pub Scan-cases :
    (s : Scan) → (s ≡ wait) ⊎ (s ≡ skip) ⊎ ((p : List ℕ) × (r : List ℕ) × (s ≡ frame p r))
Scan-cases wait = inl refl
Scan-cases skip = inr (inl refl)
Scan-cases (frame p r) = inr (inr (p, r, refl))

-- The same facts under an equation for the answer.
scan_skip : (rx : List ℕ) → scan rx ≡ skip → 2 ≤ length rx
scan_skip rx e = rw e at (scan_lem rx)

scan_frame :
    (rx p r : List ℕ)
    → scan rx ≡ frame p r
    → (0 < length p) × (length p ≤ 512) × (length r + length p + 4 ≡ length rx)
scan_frame rx p r e = rw e at (scan_lem rx)

scan_skip_append : (rx more : List ℕ) → scan rx ≡ skip → scan (rx ++ more) ≡ skip
scan_skip_append rx more e = rw e at (scan-append rx more)

scan_frame_append :
    (rx p r more : List ℕ) → scan rx ≡ frame p r → scan (rx ++ more) ≡ frame p (r ++ more)
scan_frame_append rx p r more e = rw e at (scan-append rx more)

skip_less : (rx : List ℕ) (k : ℕ) → scan rx ≡ skip → length rx ≤ suc k → length (drop 1 rx) ≤ k
skip_less rx k e h = omega (arith, length-drop 1 rx, scan_skip rx e)

frame_less : (rx p r : List ℕ) (k : ℕ) → scan rx ≡ frame p r → length rx ≤ suc k → length r ≤ k
frame_less rx p r k e h = omega (arith, scan_frame rx p r e)

module _ {ℓ} {S : Type ℓ} (handle : List ℕ → S → S) where
  -- One round of the loop, for each answer of `scan`.
  loop_wait :
      (f : ℕ) (rx : List ℕ) (s : S) → scan rx ≡ wait → consume_loop handle (suc f) rx s ≡ (rx, s)
  unfolding consume_loop
  loop_wait f rx s e = rw (e, consume_loop)

  pub loop_skip :
      (f : ℕ) (rx : List ℕ) (s : S)
      → scan rx ≡ skip
      → consume_loop handle (suc f) rx s ≡ consume_loop handle f (drop 1 rx) s
  unfolding consume_loop
  loop_skip f rx s e = rw (e, consume_loop)

  pub loop_frame :
      (f : ℕ) (rx p r : List ℕ) (s : S)
      → scan rx ≡ frame p r
      → consume_loop handle (suc f) rx s ≡ consume_loop handle f r (handle p s)
  unfolding consume_loop
  loop_frame f rx p r s e = rw (e, consume_loop)

  loop_nil : (f : ℕ) (s : S) → consume_loop handle f [] s ≡ ([], s)
  unfolding consume_loop scan
  loop_nil zero s = refl
  loop_nil (suc f) s = refl

  -- Fuel for every byte is enough: more of it changes nothing.
  pub loop_fuel :
      (f g : ℕ) (rx : List ℕ) (s : S)
      → length rx ≤ f
      → length rx ≤ g
      → consume_loop handle f rx s ≡ consume_loop handle g rx s
  loop_fuel zero g [] s hf hg = loop_nil zero s ∙ sym (loop_nil g s)
  loop_fuel zero g (x ∷ rx) s hf hg = absurd (omega arith)
  loop_fuel (suc f) zero [] s hf hg = loop_nil (suc f) s ∙ sym (loop_nil zero s)
  loop_fuel (suc f) zero (x ∷ rx) s hf hg = absurd (omega arith)
  loop_fuel (suc f) (suc g) rx s hf hg = elim (Scan-cases (scan rx)) [
    | inl e ↦ loop_wait f rx s e ∙ sym (loop_wait g rx s e)
    | inr (inl e) ↦
        loop_skip f rx s e
        ∙ loop_fuel f g (drop 1 rx) s (skip_less rx f e hf) (skip_less rx g e hg)
        ∙ sym (loop_skip g rx s e)
    | inr (inr (p, r, e)) ↦
        loop_frame f rx p r s e
        ∙ loop_fuel f g r (handle p s) (frame_less rx p r f e hf) (frame_less rx p r g e hg)
        ∙ sym (loop_frame g rx p r s e)
  ]

  loop_waits :
      (f : ℕ) (rx : List ℕ) (s : S) → length rx ≤ f → scan (consume_loop handle f rx s).0 ≡ wait
  loop_waits zero [] s h = rw loop_nil (unfold scan in refl)
  loop_waits zero (x ∷ rx) s h = absurd (omega arith)
  loop_waits (suc f) rx s h = elim (Scan-cases (scan rx)) [
    | inl e ↦ rw (loop_wait f rx s e) e
    | inr (inl e) ↦ rw (loop_skip f rx s e) (loop_waits f (drop 1 rx) s (skip_less rx f e h))
    | inr (inr (p, r, e)) ↦
        rw (loop_frame f rx p r s e) (loop_waits f r (handle p s) (frame_less rx p r f e h))
  ]

  -- `usb_consume_rx` ends by one of its returns: on no buffer does the fuel of `consume` run out,
  -- and at most 515 bytes, less than a frame, stay behind.
  pub consume_ends :
      (rx : List ℕ) (s : S)
      → (scan (consume handle rx s).0 ≡ wait) × (length (consume handle rx s).0 ≤ 515)
  unfolding consume
  consume_ends rx s =
      let e = loop_waits (length rx) rx s (omega arith) in
      (e, rw e at (scan_lem (consume_loop handle (length rx) rx s).0))

  one_skip :
      (g : ℕ) (rx more : List ℕ) (s : S)
      → scan rx ≡ skip
      → length (rx ++ more) ≤ suc g
      → consume_loop handle (suc g) (rx ++ more) s
        ≡ consume_loop handle (suc g) (drop 1 rx ++ more) s
  one_skip g rx more s e h =
      let e' = scan_skip_append rx more e in
      let d = drop-append 1 rx more (omega (arith, scan_skip rx e)) in
      let l : length (drop 1 (rx ++ more)) ≤ g = skip_less (rx ++ more) g e' h in
      rw (loop_skip g (rx ++ more) s e', ← d) (loop_fuel g (suc g) _ s l (omega (arith, l)))

  loop_append :
      (f g : ℕ) (rx more : List ℕ) (s : S)
      → length rx ≤ f
      → length (rx ++ more) ≤ g
      → consume_loop handle g (rx ++ more) s
        ≡ consume_loop handle g
            ((consume_loop handle f rx s).0 ++ more)
            (consume_loop handle f rx s).1
  loop_append zero g [] more s hf hg = rw loop_nil
  loop_append zero g (x ∷ rx) more s hf hg = absurd (omega arith)
  loop_append (suc f) zero [] more s hf hg = rw loop_nil
  loop_append (suc f) zero (x ∷ rx) more s hf hg = absurd (omega arith)
  loop_append (suc f) (suc g) rx more s hf hg = elim (Scan-cases (scan rx)) [
    | inl e ↦ rw (loop_wait f rx s e)
    | inr (inl e) ↦ rw (loop_skip f rx s e) (
        one_skip g rx more s e hg
        ∙ loop_append f (suc g) (drop 1 rx) more s (skip_less rx f e hf)
            (rw (← drop-append 1 rx more (le e)) (shrinks e)))
    | inr (inr (p, r, e)) ↦ rw (loop_frame f rx p r s e) (
        loop_frame g (rx ++ more) p (r ++ more) s (scan_frame_append rx p r more e)
        ∙ loop_fuel g (suc g) (r ++ more) (handle p s) (tail p r e) (omega (arith, tail p r e))
        ∙ loop_append f (suc g) r more (handle p s) (frame_less rx p r f e hf)
            (omega (arith, tail p r e)))
  ]
    where
      le : scan rx ≡ skip → 1 ≤ length rx
      le e = omega (arith, scan_skip rx e)

      shrinks : scan rx ≡ skip → length (drop 1 (rx ++ more)) ≤ suc g
      shrinks e = omega (arith, length-drop 1 (rx ++ more))

      tail : (p r : List ℕ) → scan rx ≡ frame p r → length (r ++ more) ≤ g
      tail p r e = frame_less (rx ++ more) p (r ++ more) g (scan_frame_append rx p r more e) hg

  loop_shrinks : (f : ℕ) (rx : List ℕ) (s : S) → length (consume_loop handle f rx s).0 ≤ length rx
  loop_shrinks zero rx s = unfold consume_loop in omega arith
  loop_shrinks (suc f) rx s = elim (Scan-cases (scan rx)) [
    | inl e ↦ rw (loop_wait f rx s e) (omega arith)
    | inr (inl e) ↦
        rw (loop_skip f rx s e) (omega (arith, loop_shrinks f (drop 1 rx) s, length-drop 1 rx))
    | inr (inr (p, r, e)) ↦
        rw (loop_frame f rx p r s e)
          (omega (arith, loop_shrinks f r (handle p s), scan_frame rx p r e))
  ]

  -- Bytes that come later do not change what was already taken: consuming `rx` and then what is
  -- left together with `more` is consuming `rx ++ more`.
  pub consume-append :
      (rx more : List ℕ) (s : S)
      → consume handle (rx ++ more) s
        ≡ consume handle ((consume handle rx s).0 ++ more) (consume handle rx s).1
  unfolding consume
  consume-append rx more s =
      let left = (consume_loop handle (length rx) rx s).0 in
      let l : length (left ++ more) ≤ length (rx ++ more) =
        omega
          (arith, loop_shrinks (length rx) rx s, length-append left more, length-append rx more) in
      loop_append (length rx) (length (rx ++ more)) rx more s (omega arith) (omega arith)
      ∙ loop_fuel (length (rx ++ more)) (length (left ++ more)) (left ++ more)
          (consume_loop handle (length rx) rx s).1 l (omega arith)

  receive-consume :
      (rx chunk : List ℕ) (s : S)
      → length chunk ≤ 2048
      → receive handle chunk (consume handle rx s) ≡ consume handle (rx ++ chunk) s
  unfolding receive
  receive-consume rx chunk s h =
      let room : ltb 33024 (length (consume handle rx s).0 + length chunk) ≡ false =
        ground (arith, consume_ends rx s) in
      rw (receive, room) (sym (consume-append rx chunk s))

  from :
      (chunks : List (List ℕ)) (rx : List ℕ) (s : S)
      → All (λ c. length c ≤ 2048) chunks
      → receive_all handle chunks (consume handle rx s) ≡ consume handle (rx ++ flatten chunks) s
  unfolding receive_all
  from [] rx s h = rw append-nil
  from (c ∷ cs) rx s (hc, hcs) =
      rw (receive-consume rx c s hc, from cs (rx ++ c) s hcs, append_assoc)

  consume_nil : (s : S) → consume handle [] s ≡ ([], s)
  unfolding consume
  consume_nil s = refl

  -- However the UART cuts the bytes into chunks of at most 2048, which is what `usb_rx_task` reads,
  -- the session and the bytes left behind are those of one pass over all the bytes.
  pub receive_all-flatten :
      (chunks : List (List ℕ)) (s : S)
      → All (λ c. length c ≤ 2048) chunks
      → receive_all handle chunks ([], s) ≡ consume handle (flatten chunks) s
  receive_all-flatten chunks s h = rw (← consume_nil s) (from chunks [] s h)

  -- What the handling of one frame keeps, the loop keeps.
  loop_keeps {κ} :
      (P : S → Type κ)
      → ((p : List ℕ) (s : S) → P s → P (handle p s))
      → (f : ℕ) (rx : List ℕ) (s : S) → P s
      → P (consume_loop handle f rx s).1
  loop_keeps P keep zero rx s h = unfold consume_loop in h
  loop_keeps P keep (suc f) rx s h = elim (Scan-cases (scan rx)) [
    | inl e ↦ rw (loop_wait f rx s e) h
    | inr (inl e) ↦ rw (loop_skip f rx s e) (loop_keeps P keep f (drop 1 rx) s h)
    | inr (inr (p, r, e)) ↦
        rw (loop_frame f rx p r s e) (loop_keeps P keep f r (handle p s) (keep p s h))
  ]

  pub consume_keeps {κ} :
      (P : S → Type κ)
      → ((p : List ℕ) (s : S) → P s → P (handle p s))
      → (rx : List ℕ) (s : S) → P s
      → P (consume handle rx s).1
  unfolding consume
  consume_keeps P keep rx s h = loop_keeps P keep (length rx) rx s h
