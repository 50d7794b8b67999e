-- ===== src/Sampling/Buffer/Lease.antt =====
-- The lease on the served copy: publishing, acquiring and releasing it (main/src/sampling/
-- sampling.c), and the calls that a script and the sampling task may make while a transfer holds it.
use edge_device_esp.Base.{
  ℕ, ◌+◌, ◌≤◌, ◌<◌, ◌≡◌, refl, sym, ap, ◌∙◌, ◌⊎◌, inl, inr, Bool, true, false, not, List, [], ◌∷◌,
  Option, none, some, length, take, drop, take-length_append, length-take, arith, All,
}
use edge_device_esp.Base.Memory.{copy_at, length-copy_at}
use edge_device_esp.Base.EspErr.{EspErr, is_ok}
use edge_device_esp.Sampling.Buffer.{
  Buffer, store_at, set_capacity, append, write_at, reset, copy_out, publish, acquire, release,
}
use edge_device_esp.Sampling.Buffer.Laws.{
  IsBlock, IsValid, contents, served, prefix, IsAppended, append_lem, set_capacity-IsValid,
  set_capacity-served,
}
use edge_device_esp.Sampling.Buffer.Writes.{IsWritten, write_at_lem}

copied_lem :
    (n capacity room : ℕ) (o t : Option (List ℕ))
    → IsBlock o capacity
    → IsBlock t room
    → n ≤ capacity
    → n ≤ room
    → (prefix n (store_at 0 (prefix n o) t) ≡ prefix n o) × IsBlock (store_at 0 (prefix n o) t) room
unfolding IsBlock
copied_lem n c r none none v w h k = (refl, w)
copied_lem n c r none (some target) v w h k = let empty : n ≡ 0 = omega arith in (rw empty refl, w)
copied_lem n c r (some block) none v w h k = let empty : n ≡ 0 = omega arith in (rw empty refl, w)
copied_lem n c r (some block) (some target) (size, bound) (size', bound') h k =
    let len : length (take n block) ≡ n = omega (arith, length-take n block) in
    (
      ap (λ k. take k (copy_at 0 (take n block) target)) (sym len)
          ∙ take-length_append (take n block) (drop (0 + length (take n block)) target),
      (length-copy_at 0 (take n block) target (omega arith) ∙ size', bound'),
    )

copy_out_lem :
    (b : Buffer)
    → IsValid b
    → IsValid (copy_out b.working b.serving b).1
      × (contents (copy_out b.working b.serving b).1 ≡ contents b)
      × ((((copy_out b.working b.serving b).0 ≡ EspErr.ok)
            × (served (copy_out b.working b.serving b).1 ≡ contents b))
          ⊎ ((is_ok (copy_out b.working b.serving b).0 ≡ false)
              × (served (copy_out b.working b.serving b).1 ≡ served b)))
unfolding contents served
copy_out_lem b v = ground (
  arith,
  copied_lem b.working_length b.capacity b.serving_capacity b.working b.serving v.working_block
      v.serving_block v.length_bound,
)

pub relet : {b : Buffer} {l : Option Bool} → IsValid b → IsValid (record b { lease = l })
relet v = record {
  working_block = v.working_block;
  serving_block = v.serving_block;
  length_bound = v.length_bound;
  serving_bound = v.serving_bound;
}

abbrev pub out : Option Bool → Bool
out none = false
out (some free) = not free

abbrev pub is_held : Buffer → Bool
is_held b = out b.lease

length-prefix :
    (n capacity : ℕ) (o : Option (List ℕ))
    → IsBlock o capacity
    → n ≤ capacity
    → length (prefix n o) ≡ n
unfolding IsBlock
length-prefix n c none v h = omega arith
length-prefix n c (some m) (size, bound) h = omega (arith, length-take n m)

pub length-served : (b : Buffer) → IsValid b → length (served b) ≡ b.serving_length
unfolding served
length-served b v =
    length-prefix b.serving_length b.serving_capacity b.serving v.serving_block v.serving_bound

-- What publishing answers: it waits while the lease is out, and is done otherwise.
pub IsPublished : Buffer → Option (EspErr × Buffer) → Type 0
IsPublished b none = is_held b ≡ true
IsPublished b (some (e, b')) =
    IsValid b'
    × ((is_held b ≡ false) × (is_held b' ≡ false))
    × (contents b' ≡ contents b)
    × (((e ≡ EspErr.ok) × (served b' ≡ contents b)) ⊎ ((is_ok e ≡ false) × (served b' ≡ served b)))

-- Publishing waits exactly as long as a transfer holds the lease. Else it keeps the buffer valid and
-- the script's bytes as they are, and on success a transfer reads those bytes from then on; after an
-- error it reads what it read before.
pub publish_lem : (created : Bool) (b : Buffer) → IsValid b → IsPublished b (publish created b)
unfolding publish IsPublished contents served IsBlock
publish_lem created b v =
    ground (arith, copy_out_lem b v, copy_out_lem (record b { lease = some true }) (relet v))

-- What acquiring answers: on success the bytes of the served copy, of which there are some, and the
-- lease is out; else no bytes, and the lease is where it was.
unfoldable pub IsAcquired : Buffer → EspErr × (List ℕ × Buffer) → Type 0
IsAcquired b (e, (bytes, b')) =
    IsValid b'
    × (served b' ≡ served b)
    × (((e ≡ EspErr.ok)
          × (bytes ≡ served b)
          × (0 < length bytes)
          × (is_held b' ≡ true)
          × (is_held b ≡ false))
        ⊎ ((is_ok e ≡ false) × (bytes ≡ []) × (is_held b' ≡ is_held b)))

-- Only a free lease is given, and only over a copy that has bytes; then it is out, and the bytes are
-- those of the copy. Every other answer leaves the lease where it was.
pub acquire_lem : (created : Bool) (b : Buffer) → IsValid b → IsAcquired b (acquire created b)
unfolding acquire IsAcquired served IsBlock
acquire_lem created b v = ground (
  arith,
  length-prefix b.serving_length b.serving_capacity b.serving v.serving_block v.serving_bound,
)

pub release_lem :
    (b : Buffer)
    → IsValid b
    → IsValid (release b) × (served (release b) ≡ served b) × (is_held (release b) ≡ false)
unfolding release served
release_lem b v = ground arith

-- The calls of a script and of the sampling task, with what the heap and the semaphore answer.
pub data Call : Type 0 where
  sets : (heap heap_serving : Option (List ℕ)) → ℕ → Call
  appends : (heap heap_serving : Option (List ℕ)) → List ℕ → Call
  writes : (heap heap_serving : Option (List ℕ)) → ℕ → List ℕ → Call
  resets : Call
  publishes : Bool → Call

-- A heap answers with a block of the right size, or with none.
unfoldable pub IsAnswered : Call → Type 0
IsAnswered (Call.sets heap heap_serving c) = IsBlock heap 0 × IsBlock heap_serving 0
IsAnswered (Call.appends heap heap_serving bytes) = IsBlock heap 0 × IsBlock heap_serving 0
IsAnswered (Call.writes heap heap_serving p bytes) = IsBlock heap 0 × IsBlock heap_serving 0
IsAnswered Call.resets = Unit
IsAnswered (Call.publishes created) = Unit

-- A call that waits for the lease has changed nothing yet.
unfoldable pub call : Call → Buffer → Buffer
call (Call.sets heap heap_serving c) b = (set_capacity heap heap_serving c b).1
call (Call.appends heap heap_serving bytes) b = (append heap heap_serving bytes b).1
call (Call.writes heap heap_serving p bytes) b = (write_at heap heap_serving p bytes b).1
call Call.resets b = reset b
call (Call.publishes created) b = elim (publish created b) [ none ↦ b | some (e, b') ↦ b' ]

unfoldable pub calls : List Call → Buffer → Buffer
calls [] b = b
calls (c ∷ cs) b = calls cs (call c b)

-- What no call but the holder's own release can do to a copy that is lent.
unfoldable pub IsKept : Buffer → Buffer → Type 0
IsKept b b' = IsValid b' × (is_held b' ≡ is_held b) × ((is_held b ≡ false) ⊎ (served b' ≡ served b))

appended-IsKept :
    (b : Buffer) (bytes : List ℕ) (r : EspErr × Buffer) → IsAppended b bytes r → IsKept b r.1
unfolding IsKept IsAppended
appended-IsKept b bytes (e, b') (v, (same, held), w) = (v, ap out held, inr same)

written-IsKept :
    (b : Buffer) (p : ℕ) (bytes : List ℕ) (r : EspErr × Buffer)
    → IsWritten b p bytes r
    → IsKept b r.1
unfolding IsKept IsWritten
written-IsKept b p bytes (e, b') (v, (same, held), w) = (v, ap out held, inr same)

published-IsKept :
    (b : Buffer) (r : Option (EspErr × Buffer))
    → IsValid b
    → IsPublished b r
    → IsKept b (elim r [ none ↦ b | some (e, b') ↦ b' ])
unfolding IsKept IsPublished
published-IsKept b none v w = (v, refl, inr refl)
published-IsKept b (some (e, b')) v (v', (free, free'), same, w) = (v', free' ∙ sym free, inl free)

sets-IsKept :
    (heap heap_serving : Option (List ℕ)) (c : ℕ) (b : Buffer)
    → IsBlock heap 0
    → IsBlock heap_serving 0
    → IsValid b
    → IsKept b (set_capacity heap heap_serving c b).1
unfolding IsKept
sets-IsKept heap heap_serving c b h k v =
    let (same, held) = set_capacity-served heap heap_serving c b v in
    (set_capacity-IsValid heap heap_serving c b h k v, ap out held, inr same)

reset-IsKept : (b : Buffer) → IsValid b → IsKept b (reset b)
unfolding IsKept reset served
reset-IsKept b v = (ground arith, refl, inr refl)

pub call-IsKept : (c : Call) (b : Buffer) → IsAnswered c → IsValid b → IsKept b (call c b)
unfolding call IsAnswered
call-IsKept (Call.sets h k c) b (ha, ka) v = sets-IsKept h k c b ha ka v
call-IsKept (Call.appends h k bytes) b (ha, ka) v =
    appended-IsKept b bytes _ (append_lem h k bytes b ha ka v)
call-IsKept (Call.writes h k p bytes) b (ha, ka) v =
    written-IsKept b p bytes _ (write_at_lem h k p bytes b ha ka v)
call-IsKept Call.resets b a v = reset-IsKept b v
call-IsKept (Call.publishes created) b a v = published-IsKept b _ v (publish_lem created b v)

-- While a transfer holds the lease, whatever a script and the sampling task do leaves the bytes that
-- the transfer reads, and the lease, as they are, and the buffers valid.
pub calls-lent :
    (cs : List Call) (b : Buffer)
    → All IsAnswered cs
    → IsValid b
    → is_held b ≡ true
    → IsValid (calls cs b) × (served (calls cs b) ≡ served b) × (is_held (calls cs b) ≡ true)
unfolding calls IsKept
calls-lent [] b a v h = (v, refl, h)
calls-lent (c ∷ cs) b (a, more) v h =
    let (v', held, kept) = call-IsKept c b a v in
    let same : served (call c b) ≡ served b = elim kept [
      | inl free ↦ absurd (ground arith)
      | inr same ↦ same
    ] in
    let (valid, rest, still) = calls-lent cs (call c b) more v' (held ∙ h) in
    (valid, rest ∙ same, still)

pub calls-free :
    (cs : List Call) (b : Buffer)
    → All IsAnswered cs
    → IsValid b
    → is_held b ≡ false
    → IsValid (calls cs b) × (is_held (calls cs b) ≡ false)
unfolding calls IsKept
calls-free [] b a v h = (v, h)
calls-free (c ∷ cs) b (a, more) v h =
    let (v', held, kept) = call-IsKept c b a v in calls-free cs (call c b) more v' (held ∙ h)

-- A free lease over a copy that has bytes is given.
pub acquire_free :
    (b : Buffer)
    → IsValid b
    → is_held b ≡ false
    → 0 < b.serving_length
    → acquire true b ≡ (EspErr.ok, (served b, record b { lease = some false }))
unfolding acquire served IsBlock
acquire_free b v free some_bytes = ground arith
