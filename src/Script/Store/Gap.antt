-- ===== src/Script/Store/Gap.antt =====
-- What the loop of `script_store_upsert` that makes room for an entry does to the table.
use edge_device_esp.Base.{
  ℕ, zero, suc, ◌-◌, ◌<◌, ◌≤◌, ◌≡◌, refl, ◌∙◌, ◌⊎◌, inl, inr, arith, Bool-cases, ltb→lt,
}
use edge_device_esp.Base.{ltb, List}
use edge_device_esp.Base.{length, get_or, set, length-set, get_or-set_self, get_or-set_ne}
use edge_device_esp.Script.Store.{Meta, no_meta, make_gap}

-- The id in a slot.
abbrev pub id_at : List Meta → ℕ → ℕ
id_at ms i = (get_or ms i no_meta).id

abbrev pub IsSorted : ℕ → List Meta → Type 0
IsSorted n ms = (i j : ℕ) → i < j → j < n → id_at ms i < id_at ms j

-- What `make_gap` does to the first `n` entries of a sorted table: from the free slot on they moved up
-- by one, and the free slot is where the id belongs.
pub record Gap (id n : ℕ) (ms : List Meta) (r : List Meta × ℕ) : Type 0 where
  pub size : length r.0 ≡ length ms
  pub at_most : r.1 ≤ n
  pub below : (k : ℕ) → k < r.1 → get_or r.0 k no_meta ≡ get_or ms k no_meta
  pub moved : (k : ℕ) → r.1 ≤ k → k < n → get_or r.0 (suc k) no_meta ≡ get_or ms k no_meta
  pub greater : (k : ℕ) → r.1 ≤ k → k < n → id < id_at ms k
  pub beyond : (k : ℕ) → n < k → get_or r.0 k no_meta ≡ get_or ms k no_meta
  pub before : (r.1 ≡ 0) ⊎ ((0 < r.1) × (id_at ms (r.1 - 1) ≤ id))

pub set_below :
    (ms : List Meta) (a k : ℕ) (v : Meta)
    → k < a
    → get_or (set ms a v) k no_meta ≡ get_or ms k no_meta
set_below ms a k v l = get_or-set_ne ms a k v no_meta (omega arith)

-- One more round of the loop, at an entry with a greater id.
Gap-step :
    (id n : ℕ) (ms : List Meta) (r : List Meta × ℕ)
    → suc n < length ms
    → id < (get_or ms n no_meta).id
    → Gap id n (set ms (suc n) (get_or ms n no_meta)) r
    → Gap id (suc n) ms r
Gap-step id n ms r h lt g = record {
  size = g.size ∙ length-set ms (suc n) v;
  at_most = top g.at_most;
  below = λ k l. g.below k l ∙ set_below ms (suc n) k v (below_gap k l g.at_most);
  moved = λ k a l. moved_at k a (last k l);
  greater = λ k a l. greater_at k a (last k l);
  beyond = λ k l. g.beyond k (omega arith) ∙ get_or-set_ne ms (suc n) k v no_meta (omega arith);
  before = before_at g.before;
}
  where
    v : Meta
    v = get_or ms n no_meta

    top : r.1 ≤ n → r.1 ≤ suc n
    top a = omega arith

    below_gap : (k : ℕ) → k < r.1 → r.1 ≤ n → k < suc n
    below_gap k l a = omega arith

    last : (k : ℕ) → k < suc n → (k < n) ⊎ (k ≡ n)
    last k l = omega arith

    moved_at :
        (k : ℕ) → r.1 ≤ k → (k < n) ⊎ (k ≡ n) → get_or r.0 (suc k) no_meta ≡ get_or ms k no_meta
    moved_at k a (inl l) = g.moved k a l ∙ set_below ms (suc n) k v (omega arith)
    moved_at k a (inr e) =
        rw e (g.beyond (suc n) (omega arith) ∙ get_or-set_self ms (suc n) v no_meta h)

    greater_at : (k : ℕ) → r.1 ≤ k → (k < n) ⊎ (k ≡ n) → id < (get_or ms k no_meta).id
    greater_at k a (inl l) = rw (id_at, set_below ms (suc n) k v (omega arith)) at (g.greater k a l)
    greater_at k a (inr e) = rw e lt

    before_at :
        (r.1 ≡ 0) ⊎ ((0 < r.1) × ((get_or (set ms (suc n) v) (r.1 - 1) no_meta).id ≤ id))
        → (r.1 ≡ 0) ⊎ ((0 < r.1) × ((get_or ms (r.1 - 1) no_meta).id ≤ id))
    before_at (inl z) = inl z
    before_at (inr (p, q)) =
        inr (p, rw (set_below ms (suc n) (r.1 - 1) v (before_gap g.at_most)) at q)
      where
        before_gap : r.1 ≤ n → r.1 - 1 < suc n
        before_gap a = omega arith

pub make_gap_lem : (id n : ℕ) (ms : List Meta) → n < length ms → Gap id n ms (make_gap id n ms)
unfolding make_gap
make_gap_lem id zero ms h = record {
  size = refl;
  at_most = omega arith;
  below = λ k l. refl;
  moved = λ k a l. absurd (omega arith);
  greater = λ k a l. absurd (omega arith);
  beyond = λ k l. refl;
  before = inl refl;
}
make_gap_lem id (suc n) ms h = elim (Bool-cases (ltb id (get_or ms n no_meta).id)) [
  | inl e ↦
      let ms' = set ms (suc n) (get_or ms n no_meta) in
      let size' : n < length ms' = rw (length-set ms (suc n) (get_or ms n no_meta)) (omega arith) in
      rw e (
        Gap-step id n ms (make_gap id n ms') h (ltb→lt id (get_or ms n no_meta).id e)
          (make_gap_lem id n ms' size'))
  | inr e ↦ rw e (record {
    size = refl;
    at_most = omega arith;
    below = λ k l. refl;
    moved = λ k a l. absurd (omega arith);
    greater = λ k a l. absurd (omega arith);
    beyond = λ k l. refl;
    before = inr (omega arith, ground arith);
  })
]
