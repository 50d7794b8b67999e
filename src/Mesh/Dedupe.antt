-- ===== src/Mesh/Dedupe.antt =====
-- `delivery_dedupe_check_and_add` of main/src/mesh/halow_sync_bridge.c, with its FNV-1a checksum: a
-- delivery seen within the last 5 seconds is a duplicate.
pub mod Laws
use Prim.Native.Nat.{bit_xor}
use edge_device_esp.Base.{
  ℕ, ◌+◌, ◌*◌, ◌/◌, ◌%◌, ◌^◌, Bool, true, false, ◌&&◌, not, ltb, ◌==◌, if◌then◌else◌,
}
use edge_device_esp.Base.{List, [], ◌∷◌, Option, none, some, set}
use edge_device_esp.Base.Words.{sub32}

-- `fnv1a64_update`.
unfoldable pub fnv1a64_update : ℕ → List ℕ → ℕ
fnv1a64_update hash [] = hash
fnv1a64_update hash (b ∷ bs) = fnv1a64_update (bit_xor hash b * 1099511628211 % 2 ^ 64) bs

-- `delivery_dedupe_checksum`: the low six bytes of the source, then the message.
unfoldable pub checksum_of : ℕ → List ℕ → ℕ
unfolding fnv1a64_update
checksum_of source message =
    let source_bytes =
      source / 2 ^ 40 % 256
      ∷ source / 2 ^ 32 % 256
      ∷ source / 2 ^ 24 % 256
      ∷ source / 2 ^ 16 % 256
      ∷ source / 2 ^ 8 % 256
      ∷ source % 256
      ∷ [] in
    fnv1a64_update (fnv1a64_update 1469598103934665603 source_bytes) message

-- `edgez_delivery_dedupe_entry_t`.
pub record Entry : Type 0 where
  pub valid : Bool
  pub checksum : ℕ
  pub last_seen_ms : ℕ

-- In use, and not older than EDGEZ_DELIVERY_DEDUPE_WINDOW_MS. Ages wrap as `uint32_t`.
abbrev pub is_fresh : ℕ → Entry → Bool
is_fresh now e = e.valid && not (ltb 5000 (sub32 now e.last_seen_ms))

-- The loop as far as it looks for the delivery: the table with the time renewed, if it is there.
unfoldable pub touch : ℕ → ℕ → List Entry → Option (List Entry)
touch checksum now [] = none
touch checksum now (e ∷ es) =
    let rest = touch checksum now es in
    if is_fresh now e && e.checksum == checksum
    then some (record e { last_seen_ms = now } ∷ es)
    else elim rest [ none ↦ none | some es' ↦ some (e ∷ es') ]

abbrev pub first : Bool → ℕ → Option ℕ → Option ℕ
first test i none = if test then some i else none
first test i (some j) = some j

-- The loop as far as it looks for a slot, which matters if the delivery is not there: the first
-- expired one, else the first free one, else the oldest.
unfoldable pub pick_slot : ℕ → List Entry → ℕ → Option ℕ → Option ℕ → ℕ → ℕ → ℕ
pick_slot now [] i (some free) none oldest_ms oldest = free
pick_slot now [] i none none oldest_ms oldest = oldest
pick_slot now [] i free (some expired) oldest_ms oldest = expired
pick_slot now (e ∷ es) i free expired oldest_ms oldest =
    let older = e.valid && ltb e.last_seen_ms oldest_ms in
    pick_slot now es (i + 1) (first (not e.valid) i free)
      (first (e.valid && not (is_fresh now e)) i expired)
      (if older then e.last_seen_ms else oldest_ms) (if older then i else oldest)

-- The whole function: the table afterwards, and whether the delivery is a duplicate.
unfoldable pub check_and_add : ℕ → ℕ → List Entry → List Entry × Bool
check_and_add checksum now table = elim (touch checksum now table) [
  | some table' ↦ (table', true)
  | none ↦ (
    set table (pick_slot now table 0 none none 0xffffffff 0)
        (record { valid = true; checksum = checksum; last_seen_ms = now }),
    false,
  )
]
