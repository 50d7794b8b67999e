-- ===== src/Sampling/Buffer/Writes.antt =====
-- Writing at a position (`sample_script_global_buffer_write_at`) against its description on the
-- contents: the bytes replace what stood there, and a gap behind the contents is filled with zeros.
use edge_device_esp.Base.{
  ℕ, max, ◌+◌, ◌-◌, ◌≤◌, ◌<◌, ◌≡◌, refl, sym, ap, ◌∙◌, ◌⊎◌, inl, inr, false, ◌||◌, ltb, ltb→lt, leb,
  ◌==◌, if◌then◌else◌, List, ◌++◌, Option, none, some, length, take, drop, replicate, length-take,
  length-replicate, length-append, Bool-cases, arith,
}
use mathlib.Core.List.{append-nil}
use edge_device_esp.Base.Words.{sub32}
use edge_device_esp.Base.Memory.{
  copy_at, length-copy_at, take-copy_at, take-copy_at_end, take-take, take_all, drop_all,
}
use edge_device_esp.Base.EspErr.{EspErr, is_ok}
use edge_device_esp.Sampling.Buffer.{Buffer, max_size, store_at, fill_gap, write_checked, write_at}
use edge_device_esp.Sampling.Buffer.Laws.{
  IsBlock, IsValid, contents, served, prefix, store_at-IsBlock, IsBlock-bound, ready_lem,
}

-- Contents `xs` after `bytes` are written over them at a position.
pub overlay : ℕ → List ℕ → List ℕ → List ℕ
overlay position bytes xs =
    take position (xs ++ replicate (position - length xs) 0)
    ++ (bytes ++ drop (position + length bytes) xs)

-- The zeros between the contents and the position.
gap_block : (n p : ℕ) → List ℕ → List ℕ
gap_block n p m = if ltb n p then copy_at n (replicate (p - n) 0) m else m

length-gap_block : (n p : ℕ) (m : List ℕ) → p ≤ length m → length (gap_block n p m) ≡ length m
unfolding gap_block
length-gap_block n p m h =
    ground (arith, length-copy_at n (replicate (p - n) 0) m, length-replicate {A = ℕ} (p - n) 0)

take-zeros :
    (n p : ℕ) (m zeros : List ℕ)
    → length zeros ≡ p - n
    → n ≤ length m
    → p ≤ length m
    → n < p
    → take p (copy_at n zeros m) ≡ take p (take n m ++ zeros)
take-zeros n p m zeros e k h l =
    let end : n + length zeros ≡ p = omega arith in
    ap (λ r. take r (copy_at n zeros m)) (sym end)
    ∙ take-copy_at_end n zeros m (omega arith)
    ∙ sym (
        take_all p (take n m ++ zeros)
          (grind (arith, length-append (take n m) zeros, length-take n m)))

take-gap_block :
    (n p : ℕ) (m : List ℕ)
    → p ≤ length m
    → n ≤ length m
    → take p (gap_block n p m) ≡ take p (take n m ++ replicate (p - n) 0)
unfolding gap_block
take-gap_block n p m h k = elim (Bool-cases (ltb n p)) [
  | inl l ↦
      rw l (take-zeros n p m (replicate (p - n) 0) (length-replicate (p - n) 0) k h (ltb→lt n p l))
  | inr l ↦
      let none_left : p - n ≡ 0 = ground arith in
      rw (l, none_left) (sym (ap (take p) (append-nil (take n m)) ∙ take-take p n m (ground arith)))
]

-- What stays behind the written bytes.
kept_behind :
    (n p q : ℕ) (m : List ℕ) → p ≤ q → drop q (take (max n q) (gap_block n p m)) ≡ drop q (take n m)
unfolding gap_block
kept_behind n p q m h = elim (Bool-cases (ltb q n)) [
  | inl l ↦
      let no_gap : ltb n p ≡ false = ground arith in
      let whole : max n q ≡ n = ground arith in rw (no_gap, whole)
  | inr l ↦
      drop_all q (take (max n q) (gap_block n p m))
        (ground (arith, length-take (max n q) (gap_block n p m)))
      ∙ sym (drop_all q (take n m) (ground (arith, length-take n m)))
]

-- The written block, as far as its new length.
write_block :
    (n p : ℕ) (bytes m : List ℕ)
    → p + length bytes ≤ length m
    → n ≤ length m
    → take (max n (p + length bytes)) (copy_at p bytes (gap_block n p m))
      ≡ overlay p bytes (take n m)
unfolding overlay
write_block n p bytes m h k =
    let len : length (take n m) ≡ n = ground (arith, length-take n m) in
    let size : length (gap_block n p m) ≡ length m = length-gap_block n p m (omega arith) in
    take-copy_at (max n (p + length bytes)) p bytes (gap_block n p m) (ground arith) (ground arith)
    ∙ ap
        (λ r.
          r
          ++ (bytes ++ drop (p + length bytes) (take (max n (p + length bytes)) (gap_block n p m))))
        (take-gap_block n p m (omega arith) k
          ∙ ap (λ r. take p (take n m ++ replicate (p - r) 0)) (sym len))
    ∙ ap (λ r. take p (take n m ++ replicate (p - length (take n m)) 0) ++ (bytes ++ r))
        (kept_behind n p (p + length bytes) m (omega arith))

fill_gap-IsBlock :
    (n p capacity : ℕ) (o : Option (List ℕ))
    → IsBlock o capacity
    → p ≤ capacity
    → IsBlock (fill_gap p n o) capacity
fill_gap-IsBlock n p c o v h =
    ground
      (arith, length-replicate {A = ℕ} (p - n) 0, store_at-IsBlock n c (replicate (p - n) 0) o v)

fill_gap-some : (n p : ℕ) (m : List ℕ) → fill_gap p n (some m) ≡ some (gap_block n p m)
unfolding gap_block
fill_gap-some n p m = elim (Bool-cases (ltb n p)) [ inl e ↦ rw e | inr e ↦ rw e ]

prefix-written :
    (n p capacity : ℕ) (bytes : List ℕ) (o : Option (List ℕ))
    → IsBlock o capacity
    → 0 < length bytes
    → p + length bytes ≤ capacity
    → n ≤ capacity
    → prefix
        (if ltb n (p + length bytes) then p + length bytes else n)
        (store_at p bytes (fill_gap p n o))
      ≡ overlay p bytes (prefix n o)
unfolding IsBlock
prefix-written n p c bytes none v l h k = absurd (omega arith)
prefix-written n p c bytes (some m) (size, bound) l h k =
    let end : (if ltb n (p + length bytes) then p + length bytes else n)
        ≡ max n (p + length bytes) =
      ground arith in
    rw (end, fill_gap-some n p m) (write_block n p bytes m (omega arith) (omega arith))

-- What a call with the bytes and the position may do.
unfoldable pub IsWritten : Buffer → ℕ → List ℕ → EspErr × Buffer → Type 0
IsWritten b position bytes (e, b') =
    IsValid b'
    × ((served b' ≡ served b) × (b'.lease ≡ b.lease))
    × (((e ≡ EspErr.ok) × (contents b' ≡ overlay position bytes (contents b)))
        ⊎ ((is_ok e ≡ false) × (contents b' ≡ contents b)))

write_checked_lem :
    (p : ℕ) (bytes : List ℕ) (e : EspErr) (b : Buffer)
    → IsValid b
    → 0 < length bytes
    → IsWritten b p bytes (write_checked p bytes (e, b))
unfolding IsWritten contents served
write_checked_lem p bytes EspErr.ok b v l =
    let bound : b.capacity ≤ max_size = IsBlock-bound b.working b.capacity v.working_block in
    elim (Bool-cases (leb b.capacity p || ltb (sub32 b.capacity p) (length bytes))) [
      | inl e ↦ rw e (v, (refl, refl), inr (refl, refl))
      | inr e ↦
          let room : p + length bytes ≤ b.capacity = ground arith in
          rw e (
            record {
              working_block =
                  store_at-IsBlock p b.capacity bytes _
                    (fill_gap-IsBlock b.working_length p b.capacity b.working v.working_block
                      (omega arith))
                    room;
              serving_block = v.serving_block;
              length_bound = ground arith;
              serving_bound = v.serving_bound;
            },
            (refl, refl),
            inl (
              refl,
              prefix-written b.working_length p b.capacity bytes b.working v.working_block l room
                  v.length_bound,
            ),
          )
    ]
write_checked_lem p bytes e b v l = ground arith

ready-IsWritten :
    (p : ℕ) (bytes : List ℕ) (b : Buffer) (r : EspErr × Buffer)
    → 0 < length bytes
    → IsValid r.1
    → contents r.1 ≡ contents b
    → (served r.1 ≡ served b) × (r.1.lease ≡ b.lease)
    → IsWritten b p bytes (write_checked p bytes r)
unfolding IsWritten
ready-IsWritten p bytes b (e, b') l v same same_served =
    grind (arith, write_checked_lem p bytes e b' v l)

-- Writing at a position keeps the buffer valid and never touches the served copy. It either
-- succeeds, and then the bytes replace what stood there and zeros fill the gap behind the contents,
-- or it returns an error and what was written is as before.
pub write_at_lem :
    (heap heap_serving : Option (List ℕ)) (position : ℕ) (bytes : List ℕ) (b : Buffer)
    → IsBlock heap 0
    → IsBlock heap_serving 0
    → IsValid b
    → IsWritten b position bytes (write_at heap heap_serving position bytes b)
unfolding write_at IsWritten
write_at_lem heap heap_serving p bytes b h k v =
    let (v', same, same_served) = ready_lem heap heap_serving b h k v in
    elim (Bool-cases (length bytes == 0)) [
      | inl e ↦ rw e (v, (refl, refl), inr (refl, refl))
      | inr e ↦ rw e (ready-IsWritten p bytes b _ (ground arith) v' same same_served)
    ]
