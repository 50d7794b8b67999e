-- ===== src/Mesh/Wire/RoundTrip.antt =====
-- The prefix that is written is the prefix that is read.
use edge_device_esp.Base.{
  ℕ, ◌^◌, ◌<◌, ◌≡◌, refl, true, ◌||◌, not, ◌==◌, List, ◌++◌, some, length, drop, arith,
}
use edge_device_esp.Mesh.Speech.{read_be, be32_bytes}
use edge_device_esp.Mesh.Wire.{Prefix, be64_bytes, prefix_bytes, read_prefix, split_prefix}

-- The fields of a prefix in their ranges; there is a message id, and the addresses have 48 bits.
pub record IsPrefix (p : Prefix) : Type 0 where
  pub id_high : p.id_high < 2 ^ 64
  pub id_low : p.id_low < 2 ^ 64
  pub id : (not (p.id_high == 0) || not (p.id_low == 0)) ≡ true
  pub sequence : p.sequence < 2 ^ 32
  pub from : p.from < 2 ^ 48
  pub to : p.to < 2 ^ 48
  pub max_hop : p.max_hop < 256
  pub hop : p.hop < 256

read_be64 : (v : ℕ) → v < 2 ^ 64 → read_be 0 (be64_bytes v) ≡ v
unfolding read_be
read_be64 v h = omega arith

read_be32' : (v : ℕ) → v < 2 ^ 32 → read_be 0 (be32_bytes v) ≡ v
unfolding read_be
read_be32' v h = omega arith

pub read_prefix-prefix_bytes :
    (p : Prefix) (body : List ℕ) → IsPrefix p → read_prefix (prefix_bytes p ++ body) ≡ p
unfolding read_prefix
read_prefix-prefix_bytes p body h = ground (
  arith,
  read_be64 p.id_high,
  read_be64 p.id_low,
  read_be32' p.sequence,
  read_be64 p.from,
  read_be64 p.to,
)

-- A prefix written in front of a payload is found there by the receiver, unchanged.
pub split_prefix-prefix_bytes :
    (p : Prefix) (body : List ℕ)
    → IsPrefix p
    → 0 < length body
    → split_prefix (prefix_bytes p ++ body) ≡ some p
unfolding split_prefix
split_prefix-prefix_bytes p body h l = rw (read_prefix-prefix_bytes p body h) (ground arith)

pub drop-prefix_bytes : (p : Prefix) (body : List ℕ) → drop 38 (prefix_bytes p ++ body) ≡ body
drop-prefix_bytes p body = refl
