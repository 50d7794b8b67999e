-- ===== src/Script/Aggregate/Bounds.antt =====
-- The sizes in `aggregate` of local_script_store.c: of its buffer, and of the scripts it cuts.
use edge_device_esp.Base.{
  ℕ, zero, suc, ◌+◌, ◌-◌, ◌≤◌, arith, Bool, true, false, ◌&&◌, ◌||◌, not, ltb, ◌==◌, if◌then◌else◌,
}
use edge_device_esp.Base.{
  List, [], ◌∷◌, length, length-append, Option, Bool-cases, inl, inr, get_or,
}
use edge_device_esp.Script.Store.{Err, is_ok, Meta, Store, Nvs, key_for, load_index, store_open}
use edge_device_esp.Script.Aggregate.{
  Step, skip, stop, next, separated, copy_segment, aggregate_step, aggregate_loop, aggregate,
  selected,
}
use edge_device_esp.Script.Aggregate.{
  back_while, forward_while, is_space, is_line_end, strip_return_result, skip_local_result,
}

back_while-le : (test : ℕ → Bool) (s : List ℕ) (low n : ℕ) → back_while test s low n ≤ n
unfolding back_while
back_while-le test s low zero = omega arith
back_while-le test s low (suc n) = ground (arith, back_while-le test s low n)

forward_while-le :
    (test : ℕ → Bool) (s : List ℕ) (high fuel i : ℕ)
    → i ≤ high
    → forward_while test s high fuel i ≤ high
unfolding forward_while
forward_while-le test s high zero i h = h
forward_while-le test s high (suc fuel) i h =
    elim (Bool-cases (ltb i high && test (get_or s i 0))) [
      | inl e ↦ rw e (forward_while-le test s high fuel (i + 1) (ground arith))
      | inr e ↦ rw e h
    ]

if-le : (t : Bool) (a b n : ℕ) → a ≤ n → b ≤ n → (if t then a else b) ≤ n
if-le true a b n h k = h
if-le false a b n h k = k

-- One more byte, while there is one.
bump-le : (t : Bool) (i n : ℕ) → i ≤ n → (if ltb i n && t then i + 1 else i) ≤ n
bump-le t i n h = ground arith

le_trans : {a b c : ℕ} → a ≤ b → b ≤ c → a ≤ c
le_trans h k = omega arith

-- `strip_return_result` and `skip_local_result` answer with a place inside the script, so no length
-- that is computed from them wraps round.
pub stripped_inside :
    (script : List ℕ) (len : ℕ)
    → (strip_return_result script len ≤ len) × (skip_local_result script len ≤ len)
unfolding strip_return_result skip_local_result
stripped_inside script len =
    let last = back_while is_space script 0 len in
    let start_le = back_while-le (λ c. not (is_line_end c)) script 0 last in
    let end_le = back_while-le is_space script 0 len in
    let first_le = forward_while-le is_space script len len 0 (omega arith) in
    let line_le =
      forward_while-le (λ c. not (is_line_end c)) script len len
        (forward_while is_space script len len 0) first_le in
    let len_le : len ≤ len = omega arith in
    let zero_le : 0 ≤ len = omega arith in
    (
      if-le _ _ _ len (le_trans start_le end_le) len_le,
      if-le _ _ _ len zero_le (bump-le _ _ len (bump-le _ _ len line_le)),
    )

separated-le : (cap : ℕ) (used : List ℕ) → length used ≤ cap → length (separated cap used) ≤ cap
separated-le cap [] h = h
separated-le cap (b ∷ bs) h = ground (arith, length-append bs (10 ∷ []))

-- What a round leaves in the buffer fits.
abbrev pub StepFits : {S : Type 0} → ℕ → Step S → Type 0
StepFits cap skip = Unit
StepFits cap (stop e used s) = length used ≤ cap
StepFits cap (next used s) = length used ≤ cap

copy_segment-StepFits :
    {S : Type 0} (cap : ℕ) (used seg : List ℕ) (s : S)
    → length used ≤ cap
    → StepFits cap (copy_segment cap used seg s)
unfolding copy_segment
copy_segment-StepFits cap used seg s h = elim (Bool-cases (ltb (cap - length used) (length seg))) [
  | inl e ↦ rw e h
  | inr e ↦ rw e (ground (arith, length-append used seg))
]

module _ {S : Type 0} (nvs : Nvs S) (alloc : ℕ → Bool) (cap : ℕ) (ids : Option (List ℕ))
    (count : ℕ) where
  step-StepFits :
      (m : Meta) (used : List ℕ) (index : ℕ) (s : S)
      → length used ≤ cap
      → StepFits cap (aggregate_step nvs alloc cap ids count m used index s)
  unfolding aggregate_step
  step-StepFits m used index s h = elim (Bool-cases (not (selected m.id ids) || m.size == 0)) [
    | inl e ↦ rw e tt
    | inr e ↦ rw e (elim (Bool-cases (alloc (m.size + 1))) [
      | inr f ↦ rw f h
      | inl f ↦ rw f (elim (Bool-cases (is_ok (nvs.get_blob (key_for b's' m.id) m.size s).0)) [
        | inr g ↦ rw g h
        | inl g ↦
            rw g (copy_segment-StepFits cap (separated cap used) _ _ (separated-le cap used h))
      ])
    ])
  ]

  loop-fits :
      (ms : List Meta) (used : List ℕ) (index : ℕ) (s : S)
      → length used ≤ cap
      → length (aggregate_loop nvs alloc cap ids count ms used index s).1 ≤ cap
  unfolding aggregate_loop
  loop-fits [] used index s h = h
  loop-fits (m ∷ ms) used index s h =
      go (aggregate_step nvs alloc cap ids count m used index s) (step-StepFits m used index s h)
        (λ u i t k. loop-fits ms u i t k)
    where
      after : Step S → Err × List ℕ × S
      after r = elim r [
        | skip ↦ aggregate_loop nvs alloc cap ids count ms used index s
        | stop e used' s' ↦ (e, used', s')
        | next used' s' ↦ aggregate_loop nvs alloc cap ids count ms used' (index + 1) s'
      ]

      go :
          (r : Step S)
          → StepFits cap r
          → ((u : List ℕ) (i : ℕ) (t : S)
              → length u ≤ cap
              → length (aggregate_loop nvs alloc cap ids count ms u i t).1 ≤ cap)
          → length (after r).1 ≤ cap
      go skip u ih = ih used index s h
      go (stop e used' s') u ih = u
      go (next used' s') u ih = ih used' (index + 1) s' u

-- Whatever the index and the flash hold, the bytes of an aggregate fit into the buffer, errors
-- included.
pub aggregate_fits :
    {S : Type 0} (nvs : Nvs S) (alloc : ℕ → Bool) (cap : ℕ) (ids : Option (List ℕ)) (st : Store)
    (s : S)
    → length (aggregate nvs alloc cap ids st s).1 ≤ cap
unfolding aggregate
aggregate_fits nvs alloc cap ids st s = elim (Bool-cases (cap == 0)) [
  | inl e ↦ rw e (omega arith)
  | inr e ↦ rw e (elim (Bool-cases (is_ok (load_index nvs st s).0)) [
    | inr f ↦ rw f (omega arith)
    | inl f ↦
        rw f
          (elim (Bool-cases
            (is_ok (store_open nvs false (load_index nvs st s).1 (load_index nvs st s).2).0)) [
              | inr g ↦ rw g (omega arith)
              | inl g ↦ rw g (loop-fits nvs alloc cap ids _ _ [] 0 _ (omega arith))
            ])
  ])
]
