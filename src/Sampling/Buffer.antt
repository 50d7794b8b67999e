-- ===== src/Sampling/Buffer.antt =====
-- The global buffer of main/src/sampling/sampling.c: the working buffer that a sensor script
-- appends to and writes into, and the serving buffer, the copy that a transfer reads under a lease
-- (a binary semaphore). What the heap and the semaphore answer are arguments: a block of memory or
-- none, and whether a semaphore was made. `size_t` has 32 bits on the device.
pub mod Laws
pub mod Writes
pub mod Lease
use edge_device_esp.Base.{
  ℕ, ◌+◌, ◌-◌, ◌*◌, Bool, true, false, ◌&&◌, ◌||◌, not, ltb, leb, ◌==◌, if◌then◌else◌, List, [],
  ◌∷◌, Option, none, some, length, take, replicate,
}
use edge_device_esp.Base.Words.{sub32}
use edge_device_esp.Base.Memory.{copy_at}
use edge_device_esp.Base.EspErr.{EspErr, is_ok}

-- The static variables of the two buffers. A block is absent until it is allocated, as is the
-- semaphore; `some true` is a semaphore that can be taken.
pub record Buffer : Type 0 where
  pub working : Option (List ℕ)
  pub capacity : ℕ
  pub working_length : ℕ
  pub serving : Option (List ℕ)
  pub serving_capacity : ℕ
  pub serving_length : ℕ
  pub lease : Option Bool

abbrev pub max_size : ℕ
max_size = 16 * 1024

abbrev pub initial : Buffer
initial = record {
  working = none;
  capacity = 0;
  working_length = 0;
  serving = none;
  serving_capacity = 0;
  serving_length = 0;
  lease = none;
}

abbrev pub is_some {ℓ} : {A : Type ℓ} → Option A → Bool
is_some none = false
is_some (some a) = true

-- `if (x == NULL) x = malloc(...)`.
abbrev pub allocate : Option (List ℕ) → Option (List ℕ) → Option (List ℕ)
allocate none answer = answer
allocate (some block) answer = some block

abbrev pub clip : ℕ → Buffer → Buffer
clip capacity b =
    if ltb capacity b.working_length then record b { working_length = capacity } else b

-- The two answers of `heap_caps_malloc` are for the working and the serving buffer.
unfoldable pub set_capacity :
    (heap heap_serving : Option (List ℕ)) (capacity : ℕ) → Buffer → EspErr × Buffer
set_capacity heap heap_serving capacity b =
    let blocks : Buffer = record b {
      working = allocate b.working heap;
      serving = allocate b.serving heap_serving;
    } in
    if capacity == 0 || ltb max_size capacity
    then (EspErr.invalid_arg, b)
    else if b.capacity == capacity && is_some b.working && is_some b.serving
    then (EspErr.ok, clip capacity b)
    else if not (is_some blocks.working) || not (is_some blocks.serving)
    then (EspErr.no_mem, blocks)
    else (
      EspErr.ok,
      clip capacity (record blocks { capacity = capacity; serving_capacity = max_size }),
    )

abbrev pub ready : (heap heap_serving : Option (List ℕ)) → Buffer → EspErr × Buffer
ready heap heap_serving b =
    if b.capacity == 0 || not (is_some b.working)
    then set_capacity heap heap_serving max_size b
    else (EspErr.ok, b)

abbrev pub store_at : ℕ → List ℕ → Option (List ℕ) → Option (List ℕ)
store_at position bytes none = none
store_at position bytes (some block) = some (copy_at position bytes block)

abbrev pub append_checked : List ℕ → EspErr × Buffer → EspErr × Buffer
append_checked bytes (e, b) =
    if not (is_ok e)
    then (e, b)
    else if ltb (sub32 b.capacity b.working_length) (length bytes)
    then (EspErr.no_mem, b)
    else (
      EspErr.ok,
      record b {
        working = store_at b.working_length bytes b.working;
        working_length = b.working_length + length bytes;
      },
    )

unfoldable pub append : (heap heap_serving : Option (List ℕ)) → List ℕ → Buffer → EspErr × Buffer
append heap heap_serving bytes b =
    if length bytes == 0
    then (EspErr.invalid_arg, b)
    else append_checked bytes (ready heap heap_serving b)

-- The gap behind the bytes written so far is filled with zeros.
abbrev pub fill_gap : ℕ → ℕ → Option (List ℕ) → Option (List ℕ)
fill_gap position working_length block =
    if ltb working_length position
    then store_at working_length (replicate (position - working_length) 0) block
    else block

abbrev pub write_checked : ℕ → List ℕ → EspErr × Buffer → EspErr × Buffer
write_checked position bytes (e, b) =
    if not (is_ok e)
    then (e, b)
    else if leb b.capacity position || ltb (sub32 b.capacity position) (length bytes)
    then (EspErr.no_mem, b)
    else (
      EspErr.ok,
      record b {
        working = store_at position bytes (fill_gap position b.working_length b.working);
        working_length =
            if ltb b.working_length (position + length bytes)
            then position + length bytes
            else b.working_length;
      },
    )

unfoldable pub write_at :
    (heap heap_serving : Option (List ℕ)) → ℕ → List ℕ → Buffer → EspErr × Buffer
write_at heap heap_serving position bytes b =
    if length bytes == 0
    then (EspErr.invalid_arg, b)
    else write_checked position bytes (ready heap heap_serving b)

unfoldable pub reset : Buffer → Buffer
reset b = record b { working_length = 0 }

-- `sample_script_serving_buffer_mutex_ensure`: a new semaphore is given at once.
abbrev pub ensure_lease : Bool → Buffer → Buffer
ensure_lease created b = elim b.lease [
  | none ↦ if created then record b { lease = some true } else b
  | some free ↦ b
]

-- What publishing copies when it has the lease.
abbrev pub copy_out : Option (List ℕ) → Option (List ℕ) → Buffer → EspErr × Buffer
copy_out none serving b = (EspErr.invalid_state, b)
copy_out (some block) none b = (EspErr.invalid_state, b)
copy_out (some block) (some target) b =
    if ltb b.serving_capacity b.working_length then (EspErr.invalid_size, b) else (
      EspErr.ok,
      record b {
        serving = some (copy_at 0 (take b.working_length block) target);
        serving_length = b.working_length;
      },
    )

abbrev pub publish_with : Option Bool → Buffer → Option (EspErr × Buffer)
publish_with none b = some (EspErr.no_mem, b)
publish_with (some false) b = none
publish_with (some true) b = some (copy_out b.working b.serving b)

-- `none`: the call waits for the lease, which a transfer holds.
unfoldable pub publish : Bool → Buffer → Option (EspErr × Buffer)
publish created b = publish_with (ensure_lease created b).lease (ensure_lease created b)

-- The pointer and the length that a lease is for, read as the bytes they name.
abbrev pub lend : Option (List ℕ) → Buffer → EspErr × (List ℕ × Buffer)
lend none b = (EspErr.not_found, ([], b))
lend (some block) b =
    if b.serving_length == 0
    then (EspErr.not_found, ([], b))
    else (EspErr.ok, (take b.serving_length block, record b { lease = some false }))

abbrev pub acquire_with : Option Bool → Buffer → EspErr × (List ℕ × Buffer)
acquire_with none b = (EspErr.no_mem, ([], b))
acquire_with (some false) b = (EspErr.invalid_state, ([], b))
acquire_with (some true) b = lend b.serving b

unfoldable pub acquire : Bool → Buffer → EspErr × (List ℕ × Buffer)
acquire created b = acquire_with (ensure_lease created b).lease (ensure_lease created b)

unfoldable pub release : Buffer → Buffer
release b = elim b.lease [ none ↦ b | some free ↦ record b { lease = some true } ]
