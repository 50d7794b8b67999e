-- ===== src/Usb/Queue/Fifo.antt =====
-- The ring of frames of usb_control_transport.c as a list, and the range of its flow control.
use native.Mathlib.Nat.{mod_self, mod-eq_of_lt}
use edge_device_esp.Base.{
  ℕ, zero, suc, ◌+◌, ◌-◌, ◌%◌, ◌<◌, ◌≤◌, ◌≡◌, ◌≢◌, refl, ◌∙◌, sym, ap, arith,
}
use edge_device_esp.Base.{
  Bool, true, false, ◌||◌, not, ltb, ◌==◌, if◌then◌else◌, Bool-cases, inl, inr,
}
use edge_device_esp.Base.{List, [], ◌∷◌, ◌++◌, length, get_or, set, Option, none, some}
use edge_device_esp.Base.{length-set, get_or-set_self, get_or-set_ne}
use edge_device_esp.Usb.Queue.{Queue, push, pop, update_gap}

-- A number below `2 * n` in the ring of `n`.
abbrev pub wrap : ℕ → ℕ → ℕ
wrap n x = if ltb x n then x else x - n

-- The `k` frames from slot `i` on.
abbrev pub slots_from : ℕ → List (List ℕ) → ℕ → ℕ → List (List ℕ)
slots_from n frames i zero = []
slots_from n frames i (suc k) = get_or frames i [] ∷ slots_from n frames (wrap n (i + 1)) k

abbrev pub is_none : Option (List ℕ) → Bool
is_none none = true
is_none (some p) = false

-- The frames that wait in a queue, oldest first.
abbrev pub contents : Queue → List (List ℕ)
contents q = slots_from q.capacity q.frames q.head q.items

pub record IsValid (q : Queue) : Type 0 where
  pub slots : length q.frames ≡ q.capacity
  pub head_in : q.head < q.capacity
  pub full : q.items + q.spaces ≡ q.capacity
  pub tail_at : q.tail ≡ wrap q.capacity (q.head + q.items)

wrap_lt : (n x : ℕ) → x < n + n → wrap n x < n
wrap_lt n x h = ground arith

wrap_step : (n i k : ℕ) → i < n → suc k ≤ n → wrap n (wrap n (i + 1) + k) ≡ wrap n (i + suc k)
wrap_step n i k h l = ground arith

wrap_ne : (n i k : ℕ) → i < n → suc k < n → wrap n (i + suc k) ≢ i
wrap_ne n i k h l = ground arith

slots_from-set :
    (n : ℕ) (frames : List (List ℕ)) (p : List ℕ) (k i : ℕ)
    → i < n
    → k < n
    → slots_from n (set frames (wrap n (i + k)) p) i k ≡ slots_from n frames i k
slots_from-set n frames p zero i h l = refl
slots_from-set n frames p (suc k) i h l =
    let same : get_or (set frames (wrap n (i + suc k)) p) i [] ≡ get_or frames i [] =
      get_or-set_ne frames (wrap n (i + suc k)) i p [] (wrap_ne n i k h l) in
    let later =
      slots_from-set n frames p k (wrap n (i + 1)) (wrap_lt n (i + 1) (omega arith))
        (omega arith) in
    let later' = rw (wrap_step n i k h (omega arith)) at later in
    rw same (ap (λ r. get_or frames i [] ∷ r) later')

slots_from-suc :
    (n : ℕ) (frames : List (List ℕ)) (k i : ℕ)
    → i < n
    → k < n
    → slots_from n frames i (suc k)
      ≡ slots_from n frames i k ++ (get_or frames (wrap n (i + k)) [] ∷ [])
slots_from-suc n frames zero i h l = let e : wrap n (i + 0) ≡ i = ground arith in rw e refl
slots_from-suc n frames (suc k) i h l =
    let later =
      slots_from-suc n frames k (wrap n (i + 1)) (wrap_lt n (i + 1) (omega arith)) (omega arith) in
    ap (λ r. get_or frames i [] ∷ r) (rw (wrap_step n i k h (omega arith)) at later)

mod-wrap : (n i : ℕ) → i < n → (i + 1) % n ≡ wrap n (i + 1)
mod-wrap n i h = elim (Bool-cases (ltb (i + 1) n)) [
  | inl e ↦ rw e (mod_small (ground arith))
  | inr e ↦
      let q : i + 1 ≡ n = ground arith in
      let z : n - n ≡ 0 = omega arith in rw (e, q, z) (mod_self n)
]
  where
    mod_small : i + 1 < n → (i + 1) % n ≡ i + 1
    mod_small l = mod-eq_of_lt l

wrap_push : (n i k : ℕ) → i < n → k < n → wrap n (wrap n (i + k) + 1) ≡ wrap n (i + (k + 1))
wrap_push n i k h l = ground arith

wrap_pop : (n i k : ℕ) → i < n → 0 < k → k ≤ n → wrap n (i + k) ≡ wrap n (wrap n (i + 1) + (k - 1))
wrap_pop n i k h z l = ground arith

added :
    (n : ℕ) (frames : List (List ℕ)) (p : List ℕ) (i k : ℕ)
    → length frames ≡ n
    → i < n
    → k < n
    → slots_from n (set frames (wrap n (i + k)) p) i (k + 1) ≡ slots_from n frames i k ++ (p ∷ [])
added n frames p i k e h l =
    let s : k + 1 ≡ suc k = omega arith in
    let inside : wrap n (i + k) < length frames = rw e (wrap_lt n (i + k) (omega arith)) in
    ap (slots_from n (set frames (wrap n (i + k)) p) i) s
    ∙ slots_from-suc n (set frames (wrap n (i + k)) p) k i h l
    ∙ rw (slots_from-set n frames p k i h l, get_or-set_self frames (wrap n (i + k)) p [] inside)
        refl

taken :
    (n : ℕ) (frames : List (List ℕ)) (i k : ℕ)
    → 0 < k
    → slots_from n frames i k ≡ get_or frames i [] ∷ slots_from n frames (wrap n (i + 1)) (k - 1)
taken n frames i zero h = absurd (omega arith)
taken n frames i (suc k) h = let s : suc k - 1 ≡ k = omega arith in rw s refl

pushed :
    (p : List ℕ) (q : Queue)
    → IsValid q
    → 0 < q.spaces
    → IsValid (record q {
      frames = set q.frames q.tail p;
      tail = (q.tail + 1) % q.capacity;
      items = q.items + 1;
      spaces = q.spaces - 1;
    })
      × (slots_from q.capacity (set q.frames q.tail p) q.head (q.items + 1)
          ≡ contents q ++ (p ∷ []))
pushed p q v h = (
  record {
    slots = length-set q.frames q.tail p ∙ v.slots;
    head_in = v.head_in;
    full = fits v.full;
    tail_at =
        mod-wrap q.capacity q.tail (inside v.tail_at)
        ∙ ap (λ t. wrap q.capacity (t + 1)) v.tail_at
        ∙ wrap_push q.capacity q.head q.items v.head_in (less v.full);
  },
  ap (λ t. slots_from q.capacity (set q.frames t p) q.head (q.items + 1)) v.tail_at
      ∙ added q.capacity q.frames p q.head q.items v.slots v.head_in (less v.full),
)
  where
    less : q.items + q.spaces ≡ q.capacity → q.items < q.capacity
    less e = omega arith

    fits : q.items + q.spaces ≡ q.capacity → q.items + 1 + (q.spaces - 1) ≡ q.capacity
    fits e = omega arith

    inside : q.tail ≡ wrap q.capacity (q.head + q.items) → q.tail < q.capacity
    inside e = rw (sym e) at (wrap_lt q.capacity (q.head + q.items) (twice v.head_in (less v.full)))
      where
        twice : {a b n : ℕ} → a < n → b < n → a + b < n + n
        twice x y = omega arith

-- A payload of 1 to 512 bytes, pushed with the mutex in time into a valid queue that is not full,
-- waits behind the frames that waited before. A full queue refuses it and stays as it is. The queue
-- stays valid.
pub push-contents :
    (p : List ℕ) (q : Queue)
    → IsValid q
    → 0 < length p
    → length p ≤ 512
    → IsValid (push true p q).0
      × (contents (push true p q).0
          ≡ (if q.spaces == 0 then contents q else contents q ++ (p ∷ [])))
      × ((push true p q).1 ≡ not (q.spaces == 0))
unfolding push
push-contents p q v h l =
    let ok : (length p == 0 || ltb 512 (length p)) ≡ false = ground arith in
    elim (Bool-cases (q.spaces == 0)) [
      | inl e ↦ simp (ok, e) (v, refl, refl)
      | inr e ↦ let (valid, c) = pushed p q v (ground arith) in simp (ok, e) (valid, c, refl)
    ]

-- What a pop took, in front of what waits then.
abbrev pub with_taken : Queue × Option (List ℕ) → List (List ℕ)
with_taken (q, none) = contents q
with_taken (q, some p) = p ∷ contents q

-- A pop with the mutex takes the frame that waits longest from a valid queue, and the others stay in
-- their order; it takes none exactly if none waits. The queue stays valid.
pub pop-contents :
    (q : Queue)
    → IsValid q
    → IsValid (pop true q).0
      × (with_taken (pop true q) ≡ contents q)
      × ((q.items == 0) ≡ is_none (pop true q).1)
unfolding pop
pop-contents q v = elim (Bool-cases (q.items == 0)) [
  | inl e ↦ simp e (v, refl, refl)
  | inr e ↦
      let some_items : 0 < q.items = ground arith in
      simp e (popped some_items, rest some_items, refl)
]
  where
    m : (q.head + 1) % q.capacity ≡ wrap q.capacity (q.head + 1)
    m = mod-wrap q.capacity q.head v.head_in

    lt : {n x : ℕ} → x < n → x + 1 < n + n
    lt a = omega arith

    full : 0 < q.items → q.items + q.spaces ≡ q.capacity → q.items - 1 + (q.spaces + 1) ≡ q.capacity
    full a b = omega arith

    le : q.items + q.spaces ≡ q.capacity → q.items ≤ q.capacity
    le b = omega arith

    popped :
        0 < q.items
        → IsValid (record q {
          head = (q.head + 1) % q.capacity;
          items = q.items - 1;
          spaces = q.spaces + 1;
        })
    popped a = record {
      slots = v.slots;
      head_in = rw m (wrap_lt q.capacity (q.head + 1) (lt v.head_in));
      full = full a v.full;
      tail_at =
          v.tail_at
          ∙ wrap_pop q.capacity q.head q.items v.head_in a (le v.full)
          ∙ ap (λ t. wrap q.capacity (t + (q.items - 1))) (sym m);
    }

    rest :
        0 < q.items
        → get_or q.frames q.head []
            ∷ slots_from q.capacity q.frames ((q.head + 1) % q.capacity) (q.items - 1)
          ≡ contents q
    rest a =
        ap (λ t. get_or q.frames q.head [] ∷ slots_from q.capacity q.frames t (q.items - 1)) m
        ∙ sym (taken q.capacity q.frames q.head q.items a)

-- The flow control keeps a gap between 1 and 10 ms in this range, whatever the depth of the queue.
pub update_gap-bounds :
    (depth gap low : ℕ)
    → 1 ≤ gap
    → gap ≤ 10
    → (1 ≤ (update_gap depth gap low).0) × ((update_gap depth gap low).0 ≤ 10)
unfolding update_gap
update_gap-bounds depth gap low h l = (ground arith, ground arith)
