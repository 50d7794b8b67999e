-- ===== src/Usb/Link/Held.antt =====
-- A ring of frames as a list that is bounded by its size.
use edge_device_esp.Base.{
  ℕ, zero, suc, ◌+◌, ◌≤◌, ◌≡◌, refl, sym, ap, ◌∙◌, inl, inr, Bool, true, ◌||◌, not, ltb, ◌==◌,
  if◌then◌else◌, List, [], ◌∷◌, ◌++◌, Option, none, some, length, Bool-cases, arith,
}
use edge_device_esp.Usb.Queue.{Queue, push, pop}
use edge_device_esp.Usb.Queue.Fifo.{
  IsValid, slots_from, contents, with_taken, is_none, wrap, push-contents, pop-contents,
}
use edge_device_esp.Usb.Link.{}

-- What a queue of `size` slots shows: the frames that wait in it, oldest first.
pub record Holds (size : ℕ) (xs : List (List ℕ)) (q : Queue) : Type 0 where
  pub valid : IsValid q
  pub list : contents q ≡ xs
  pub slots : q.capacity ≡ size

-- A frame that no queue takes.
abbrev pub is_unsendable : List ℕ → Bool
is_unsendable p = length p == 0 || ltb 512 (length p)

-- A queue as a list that is bounded by its size.
abbrev pub is_refused : (size : ℕ) → List ℕ → List (List ℕ) → Bool
is_refused size p xs = is_unsendable p || length xs == size

abbrev pub put : (size : ℕ) → List ℕ → List (List ℕ) → List (List ℕ)
put size p xs = if is_refused size p xs then xs else xs ++ (p ∷ [])

length-slots_from :
    (n : ℕ) (frames : List (List ℕ)) (i k : ℕ) → length (slots_from n frames i k) ≡ k
length-slots_from n frames i zero = refl
length-slots_from n frames i (suc k) = ap suc (length-slots_from n frames (wrap n (i + 1)) k)

pub items_lem : (size : ℕ) (xs : List (List ℕ)) (q : Queue) → Holds size xs q → q.items ≡ length xs
items_lem size xs q h =
    sym (length-slots_from q.capacity q.frames q.head q.items) ∙ ap length h.list

pub spaces_lem :
    (size : ℕ) (xs : List (List ℕ)) (q : Queue)
    → Holds size xs q
    → (q.spaces == 0) ≡ (length xs == size)
spaces_lem size xs q h =
    let e = items_lem size xs q h in let f = h.valid.full in let g = h.slots in ground arith

push_capacity : (p : List ℕ) (q : Queue) → (push true p q).0.capacity ≡ q.capacity
unfolding push
push_capacity p q = ground arith

pub push-Holds :
    (size : ℕ) (p : List ℕ) (xs : List (List ℕ)) (q : Queue)
    → Holds size xs q
    → Holds size (put size p xs) (push true p q).0
      × ((push true p q).1 ≡ not (is_refused size p xs))
push-Holds size p xs q h = elim (Bool-cases (is_unsendable p)) [
  | inl e ↦ unfold push in rw e (h, refl)
  | inr e ↦
      let (valid, list, taken) = push-contents p q h.valid (ground arith) (ground arith) in
      rw e (
        record {
          valid = valid;
          list = rw (spaces_lem size xs q h, h.list) at list;
          slots = push_capacity p q ∙ h.slots;
        },
        taken ∙ ap not (spaces_lem size xs q h),
      )
]

pop_capacity : (q : Queue) → (pop true q).0.capacity ≡ q.capacity
unfolding pop
pop_capacity q = ground arith

first : List (List ℕ) → List ℕ
first [] = []
first (y ∷ ys) = y

rest : List (List ℕ) → List (List ℕ)
rest [] = []
rest (y ∷ ys) = ys

-- What a pop leaves and takes, against the list.
pub pop-Holds_empty : (size : ℕ) (q : Queue) → Holds size [] q → pop true q ≡ (q, none)
unfolding pop
pop-Holds_empty size q h = rw (items_lem size [] q h) refl

pub pop-Holds :
    (size : ℕ) (x : List ℕ) (xs : List (List ℕ)) (q : Queue)
    → Holds size (x ∷ xs) q
    → Holds size xs (pop true q).0 × ((pop true q).1 ≡ some x)
unfolding first rest
pop-Holds size x xs q h =
    let (valid, list, empty) = pop-contents q h.valid in
    go (pop true q) valid list empty (pop_capacity q)
  where
    go :
        (r : Queue × Option (List ℕ))
        → IsValid r.0
        → with_taken r ≡ contents q
        → (q.items == 0) ≡ is_none r.1
        → r.0.capacity ≡ q.capacity
        → Holds size xs r.0 × (r.1 ≡ some x)
    go (q', none) v l e c = absurd (ground (arith, items_lem size (x ∷ xs) q h))
    go (q', some p) v l e c =
        let both = l ∙ h.list in
        (
          record { valid = v; list = ap rest both; slots = c ∙ h.slots },
          ap (λ t. some (first t)) both,
        )

pub fits_lem : (size : ℕ) (xs : List (List ℕ)) (q : Queue) → Holds size xs q → length xs ≤ size
fits_lem size xs q h =
    let e = items_lem size xs q h in let f = h.valid.full in let g = h.slots in omega arith
