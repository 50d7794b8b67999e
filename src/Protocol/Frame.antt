-- ===== src/Protocol/Frame.antt =====
-- main/src/protocol/edgez_frame_protocol.c: the frame of the mobile protocol, "EZ", a
-- little-endian length, and the payload.
use edge_device_esp.Base.{ℕ, suc, ◌+◌, ◌%◌, ◌^◌, ◌<◌, ◌≤◌, ◌≡◌, inl, inr, refl, arith, Bool-cases}
use edge_device_esp.Base.{Bool, true, false, ◌&&◌, ◌||◌, not, ltb, leb, ◌==◌, if◌then◌else◌}
use edge_device_esp.Base.{
  List, [], ◌∷◌, ◌++◌, length, take, drop, get_or, All, same_bytes, Option, none, some,
}
use edge_device_esp.Base.Words.{IsByte, word16, le16_bytes, word16-bytes}

-- `EDGEZ_FRAME_HEADER_LEN` is 4 and `EDGEZ_FRAME_MAX_PAYLOAD` is 512.
abbrev pub frame_of : List ℕ → List ℕ
frame_of payload = b'E' ∷ b'Z' ∷ (le16_bytes (length payload) ++ payload)

-- `edgez_lua_rpc_is_request`: at least 9 bytes, "LRPC", version 1.
unfoldable pub is_request : List ℕ → Bool
is_request payload =
    leb 9 (length payload)
    && same_bytes (take 4 payload) (b'L' ∷ b'R' ∷ b'P' ∷ b'C' ∷ [])
    && get_or payload 4 0 == 1

-- What `edgez_frame_protocol_handle_frame` does with a frame: it logs and drops it, or hands its
-- payload to `edgez_lua_rpc_handle` or to `halow_sync_bridge_handle_to_radio`.
pub data Outcome : Type 0 where
  short bad_magic bad_length : Outcome
  lua : List ℕ → Outcome
  to_radio : List ℕ → Bool → Outcome

-- `frame` is none for a null pointer. Its length is `frame_len`, a `uint16_t`.
unfoldable pub handle_frame : Option (List ℕ) → Bool → Outcome
handle_frame none from_forward = short
handle_frame (some frame) from_forward =
    let payload_len = word16 (get_or frame 2 0) (get_or frame 3 0) in
    let payload = drop 4 frame in
    if ltb (length frame) 4
    then short
    else if not (get_or frame 0 0 == b'E') || not (get_or frame 1 0 == b'Z')
    then bad_magic
    else if ltb 512 payload_len || not (length frame == (4 + payload_len) % 2 ^ 16)
    then bad_length
    else if is_request payload
    then lua payload
    else to_radio payload from_forward

-- A frame that was built round a payload of at most 512 bytes is accepted, and exactly its payload
-- is passed on: to the Lua RPC if it is a request, to the radio otherwise.
pub handle_frame-frame_of :
    (payload : List ℕ) (forward : Bool)
    → length payload ≤ 512
    → handle_frame (some (frame_of payload)) forward
      ≡ (if is_request payload then lua payload else to_radio payload forward)
unfolding handle_frame
handle_frame-frame_of payload forward h =
    let size = length payload in
    let short' : ltb (suc (suc (suc (suc size)))) 4 ≡ false = ground arith in
    let fits : (ltb 512 size || not (suc (suc (suc (suc size))) == (4 + size) % 2 ^ 16)) ≡ false =
      ground arith in
    rw (word16-bytes size (omega arith), short', fits) refl

-- What each outcome says of the frame.
abbrev pub Explains : List ℕ → Outcome → Type 0
Explains frame short = length frame < 4
Explains frame bad_magic = 4 ≤ length frame
Explains frame bad_length = 4 ≤ length frame
Explains frame (lua payload) =
    (frame ≡ frame_of payload) × (length payload ≤ 512) × (is_request payload ≡ true)
Explains frame (to_radio payload forward) =
    (frame ≡ frame_of payload) × (length payload ≤ 512) × (is_request payload ≡ false)

frame_of_lem :
    (a b lo hi : ℕ) (p : List ℕ)
    → a ≡ b'E'
    → b ≡ b'Z'
    → lo < 256
    → hi < 256
    → length p ≡ word16 lo hi
    → a ∷ b ∷ lo ∷ hi ∷ p ≡ frame_of p
frame_of_lem a b lo hi p ea eb hl hh e = ground arith

-- A frame of bytes, shorter than 2^16, is passed on only if it is the frame of the payload that is
-- passed on: nothing is accepted but magic, the right length of at most 512, and the payload.
pub handle_frame-Explains :
    (frame : List ℕ) (forward : Bool)
    → All IsByte frame
    → length frame < 2 ^ 16
    → Explains frame (handle_frame (some frame) forward)
unfolding handle_frame
handle_frame-Explains [] forward b h = omega arith
handle_frame-Explains (x0 ∷ []) forward b h = omega arith
handle_frame-Explains (x0 ∷ x1 ∷ []) forward b h = omega arith
handle_frame-Explains (x0 ∷ x1 ∷ x2 ∷ []) forward b h = omega arith
handle_frame-Explains (x0 ∷ x1 ∷ lo ∷ hi ∷ p) forward (b0, (b1, (b2, (b3, bs)))) h =
    let long : ltb (suc (suc (suc (suc (length p))))) 4 ≡ false = ground arith in
    rw long (elim (Bool-cases (not (x0 == b'E') || not (x1 == b'Z'))) [
      | inl e ↦ rw e (omega arith)
      | inr e ↦
          rw e
            (elim (Bool-cases (
              ltb 512 (word16 lo hi)
              || not (suc (suc (suc (suc (length p)))) == (4 + word16 lo hi) % 2 ^ 16))) [
                | inl f ↦ rw f (omega arith)
                | inr f ↦ rw f (elim (Bool-cases (is_request p)) [
                  | inl r ↦ rw r (
                    frame_of_lem x0 x1 lo hi p (ground arith) (ground arith) b2 b3 (ground arith),
                    ground arith,
                    r,
                  )
                  | inr r ↦ rw r (
                    frame_of_lem x0 x1 lo hi p (ground arith) (ground arith) b2 b3 (ground arith),
                    ground arith,
                    r,
                  )
                ])
              ])
    ])
