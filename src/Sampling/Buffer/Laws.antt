-- ===== src/Sampling/Buffer/Laws.antt =====
-- The working buffer against its contents: what each call of main/src/sampling/sampling.c does to
-- the bytes written so far, and the bounds it keeps.
use edge_device_esp.Base.{
  ℕ, ◌+◌, ◌≤◌, ◌<◌, ◌≡◌, refl, ◌⊎◌, inl, inr, false, ◌==◌, List, [], ◌++◌, Option, none, some,
  length, take, Bool-cases, arith,
}
use edge_device_esp.Base.Memory.{length-copy_at, take-copy_at_end}
use edge_device_esp.Base.EspErr.{EspErr, is_ok}
use edge_device_esp.Sampling.Buffer.{
  Buffer, max_size, set_capacity, ready, store_at, append_checked, append,
}

-- A block has the size that the heap was asked for, and a buffer that is not allocated has no room.
unfoldable pub IsBlock : Option (List ℕ) → ℕ → Type 0
IsBlock none capacity = capacity ≡ 0
IsBlock (some block) capacity = (length block ≡ max_size) × (capacity ≤ max_size)

pub record IsValid (b : Buffer) : Type 0 where
  pub working_block : IsBlock b.working b.capacity
  pub serving_block : IsBlock b.serving b.serving_capacity
  pub length_bound : b.working_length ≤ b.capacity
  pub serving_bound : b.serving_length ≤ b.serving_capacity

abbrev pub prefix : ℕ → Option (List ℕ) → List ℕ
prefix n none = []
prefix n (some block) = take n block

-- The bytes that a script has written: the prefix of the working block.
unfoldable pub contents : Buffer → List ℕ
contents b = prefix b.working_length b.working

-- The bytes that a transfer reads.
unfoldable pub served : Buffer → List ℕ
served b = prefix b.serving_length b.serving

pub set_capacity-IsValid :
    (heap heap_serving : Option (List ℕ)) (c : ℕ) (b : Buffer)
    → IsBlock heap 0
    → IsBlock heap_serving 0
    → IsValid b
    → IsValid (set_capacity heap heap_serving c b).1
unfolding set_capacity IsBlock
set_capacity-IsValid heap heap_serving c b h k v = ground arith

pub ready_lem :
    (heap heap_serving : Option (List ℕ)) (b : Buffer)
    → IsBlock heap 0
    → IsBlock heap_serving 0
    → IsValid b
    → IsValid (ready heap heap_serving b).1
      × (contents (ready heap heap_serving b).1 ≡ contents b)
      × ((served (ready heap heap_serving b).1 ≡ served b)
          × ((ready heap heap_serving b).1.lease ≡ b.lease))
unfolding set_capacity IsBlock contents served
ready_lem heap heap_serving b h k v = ground arith

unfoldable pub IsAppended : Buffer → List ℕ → EspErr × Buffer → Type 0
IsAppended b bytes (e, b') =
    IsValid b'
    × ((served b' ≡ served b) × (b'.lease ≡ b.lease))
    × (((e ≡ EspErr.ok) × (contents b' ≡ contents b ++ bytes))
        ⊎ ((is_ok e ≡ false) × (contents b' ≡ contents b)))

pub store_at-IsBlock :
    (p capacity : ℕ) (bytes : List ℕ) (o : Option (List ℕ))
    → IsBlock o capacity
    → p + length bytes ≤ capacity
    → IsBlock (store_at p bytes o) capacity
unfolding IsBlock
store_at-IsBlock p c bytes none v h = v
store_at-IsBlock p c bytes (some m) (size, bound) h =
    (omega (arith, length-copy_at p bytes m (omega arith)), bound)

prefix-store_at :
    (p capacity : ℕ) (bytes : List ℕ) (o : Option (List ℕ))
    → IsBlock o capacity
    → 0 < length bytes
    → p + length bytes ≤ capacity
    → prefix (p + length bytes) (store_at p bytes o) ≡ prefix p o ++ bytes
unfolding IsBlock
prefix-store_at p c bytes none v l h = absurd (omega arith)
prefix-store_at p c bytes (some m) (size, bound) l h = take-copy_at_end p bytes m (omega arith)

append_checked_lem :
    (bytes : List ℕ) (e : EspErr) (b : Buffer)
    → IsValid b
    → b.capacity ≤ max_size
    → 0 < length bytes
    → IsAppended b bytes (append_checked bytes (e, b))
unfolding IsAppended contents served
append_checked_lem bytes EspErr.ok b v m l = ground (
  arith,
  store_at-IsBlock b.working_length b.capacity bytes b.working v.working_block,
  prefix-store_at b.working_length b.capacity bytes b.working v.working_block l,
)
append_checked_lem bytes e b v m l = ground arith

pub IsBlock-bound : (o : Option (List ℕ)) (capacity : ℕ) → IsBlock o capacity → capacity ≤ max_size
unfolding IsBlock
IsBlock-bound none c v = omega arith
IsBlock-bound (some m) c (size, bound) = bound

append_ready :
    (bytes : List ℕ) (b : Buffer) (r : EspErr × Buffer)
    → 0 < length bytes
    → IsValid r.1
    → contents r.1 ≡ contents b
    → (served r.1 ≡ served b) × (r.1.lease ≡ b.lease)
    → IsAppended b bytes (append_checked bytes r)
unfolding IsAppended
append_ready bytes b (e, b') l v same same_served = grind (
  arith,
  append_checked_lem bytes e b' v (IsBlock-bound b'.working b'.capacity v.working_block) l,
)

-- Appending keeps the buffer valid and never touches the served copy. It either succeeds, and then
-- the bytes stand behind those written so far, or it returns an error and what was written is as
-- before.
pub append_lem :
    (heap heap_serving : Option (List ℕ)) (bytes : List ℕ) (b : Buffer)
    → IsBlock heap 0
    → IsBlock heap_serving 0
    → IsValid b
    → IsAppended b bytes (append heap heap_serving bytes b)
unfolding append IsAppended
append_lem heap heap_serving bytes b h k v =
    let (v', same, same_served) = ready_lem heap heap_serving b h k v in
    elim (Bool-cases (length bytes == 0)) [
      | inl e ↦ rw e (v, (refl, refl), inr (refl, refl))
      | inr e ↦ rw e (append_ready bytes b _ (ground arith) v' same same_served)
    ]

-- A buffer that is allocated takes whatever fits.
pub append_fits :
    (heap heap_serving : Option (List ℕ)) (bytes : List ℕ) (b : Buffer)
    → IsValid b
    → 0 < length bytes
    → b.working_length + length bytes ≤ b.capacity
    → (append heap heap_serving bytes b).0 ≡ EspErr.ok
unfolding append IsBlock
append_fits heap heap_serving bytes b v l h =
    ground (arith, IsBlock-bound b.working b.capacity v.working_block)

pub set_capacity-served :
    (heap heap_serving : Option (List ℕ)) (c : ℕ) (b : Buffer)
    → IsValid b
    → (served (set_capacity heap heap_serving c b).1 ≡ served b)
      × ((set_capacity heap heap_serving c b).1.lease ≡ b.lease)
unfolding set_capacity IsBlock served
set_capacity-served heap heap_serving c b v = ground arith
